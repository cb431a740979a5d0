-- ===== src/Storage/Claims.antt =====
-- Which request `claim_next_request` of
-- plugins/faculty_storage_allocations/services/request_service.py claims.
use coldfront.Base.{
  ℕ, String, Bool, true, false, ◌≡◌, ◌∙◌, ◌⊎◌, inl, inr, Option, none, some, Option-cases,
  Bool-cases, List, [], ◌∷◌, keep, Member, ok, arith,
}
use coldfront.Orm.{Orm}
use coldfront.Storage.{FsaStatus, FsaRequest, Store}
use coldfront.Storage.Orders.{OrderBy, IsOrder}
use coldfront.Storage.Service.{
  by_approval, by_modified, touched, queued, stale, next_request, claim_next_request,
}

Member-keep :
    {R : Type 0} (p : R → Bool) (t : List R) (r : R)
    → Member r (keep p t)
    → Member r t × (p r ≡ true)
Member-keep p [] r m = absurd m
Member-keep p (x ∷ t) r m = ground (arith, Member-keep p t r, m)

keep-Member :
    {R : Type 0} (p : R → Bool) (t : List R) (r : R) → Member r t → p r ≡ true → Member r (keep p t)
keep-Member p [] r m h = absurd m
keep-Member p (x ∷ t) r (inl e) h = ground arith
keep-Member p (x ∷ t) r (inr m) h = ground (arith, keep-Member p t r m h)

by_approval-IsOrder : IsOrder by_approval
by_approval-IsOrder = (λ a b. ground arith, λ a b c h k. ground arith)

by_modified-IsOrder : IsOrder by_modified
by_modified-IsOrder = (λ a b. ground arith, λ a b c h k. ground arith)

module _ (orm : Orm) (now : ℕ) (iso : ℕ → String) (order : OrderBy) (locked : ℕ → Bool)
    (store : Store) where
  -- What is claimed first: the oldest queued request, and only when there is none a stale one.
  abbrev pub Chosen : FsaRequest → Type 0
  Chosen r =
      ((queued orm now iso order locked r ≡ true)
        × ((s : FsaRequest)
            → Member s store.requests
            → queued orm now iso order locked s ≡ true
            → by_approval r s ≡ true))
      ⊎ ((stale orm now iso order locked r ≡ true)
          × ((s : FsaRequest) → Member s store.requests → queued orm now iso order locked s ≡ false)
          × ((s : FsaRequest)
              → Member s store.requests
              → stale orm now iso order locked s ≡ true
              → by_modified r s ≡ true))

  first_of :
      (p le : _) (r : FsaRequest)
      → IsOrder le
      → order.first le (orm.filter p store.requests) ≡ some r
      → Member r store.requests
        × (p r ≡ true)
        × ((s : FsaRequest) → Member s store.requests → p s ≡ true → le r s ≡ true)
  first_of p le r o h =
      let h' : order.first le (keep p store.requests) ≡ some r = rw orm.filter_lem at h in
      let (m, e) = Member-keep p store.requests r (order.first_member le _ r h') in
      (m, e, λ s n f. order.first_least le _ r s o h' (keep-Member p store.requests s n f))

  or_else_none :
      next_request orm now iso order locked store.requests ≡ none
      → (order.first by_approval (orm.filter (queued orm now iso order locked) store.requests)
          ≡ none)
        × (order.first by_modified (orm.filter (stale orm now iso order locked) store.requests)
            ≡ none)
  or_else_none h = ground (arith, h)

  none_of :
      (p : FsaRequest → Bool) (le : FsaRequest → FsaRequest → Bool)
      → order.first le (orm.filter p store.requests) ≡ none
      → (s : FsaRequest) → Member s store.requests
      → p s ≡ false
  none_of p le h s m = elim (Bool-cases (p s)) [
    | inl e ↦
        let stands : Member s (keep p store.requests) = keep-Member p store.requests s m e in
        let empty : keep p store.requests ≡ [] = order.first_none le _ (rw orm.filter_lem at h) in
        absurd (rw empty at stands)
    | inr e ↦ e
  ]

  next_request-Chosen :
      (r : FsaRequest)
      → next_request orm now iso order locked store.requests ≡ some r
      → Member r store.requests × Chosen r
  next_request-Chosen r h =
      elim (Option-cases
        (order.first by_approval (orm.filter (queued orm now iso order locked) store.requests))) [
          | inl e ↦
              let (m, p, oldest) =
                first_of (stale orm now iso order locked) by_modified r by_modified-IsOrder
                  (rw e at h) in
              (m, inr (p, none_of (queued orm now iso order locked) by_approval e, oldest))
          | inr (q, e) ↦
              let (m, p, oldest) =
                first_of (queued orm now iso order locked) by_approval r by_approval-IsOrder
                  (e ∙ (rw e at h)) in
              (m, inl (p, oldest))
        ]

  abbrev pub claimed : FsaRequest → FsaRequest
  claimed r = touched orm now iso (record r { status = FsaStatus.approved_processing })

  claim_run :
      (o : Option FsaRequest)
      → next_request orm now iso order locked store.requests ≡ o
      → claim_next_request orm now iso order locked store ≡ elim o [
        | none ↦ (ok none, store)
        | some r ↦ (
          ok (some (claimed r)),
          record store { requests = orm.save (λ x. x.pk) (claimed r) store.requests },
        )
      ]
  unfolding claim_next_request
  claim_run none h = ground (arith, h)
  claim_run (some r) h = ground (arith, h)

  -- `claim_next_request` never fails. Either it changes nothing and no unlocked request is queued
  -- or stale, or it marks one unlocked request as processing and saves it: the oldest that is
  -- queued or, when none is queued, the stale one that was modified first.
  pub claim_next_request-Chosen :
      ((claim_next_request orm now iso order locked store ≡ (ok none, store))
        × ((s : FsaRequest)
            → Member s store.requests
            → (queued orm now iso order locked s ≡ false)
              × (stale orm now iso order locked s ≡ false)))
      ⊎ ((r : FsaRequest) × Member r store.requests
          × Chosen r
          × (claim_next_request orm now iso order locked store ≡ (
            ok (some (claimed r)),
            record store { requests = orm.save (λ x. x.pk) (claimed r) store.requests },
          )))
  claim_next_request-Chosen =
      elim (Option-cases (next_request orm now iso order locked store.requests)) [
        | inl e ↦ inl (
          claim_run none e,
          λ s m. (
            none_of _ by_approval (or_else_none e).0 s m,
            none_of _ by_modified (or_else_none e).1 s m,
          ),
        )
        | inr (r, e) ↦ let (m, c) = next_request-Chosen r e in inr (r, m, c, claim_run (some r) e)
      ]
