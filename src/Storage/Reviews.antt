-- ===== src/Storage/Reviews.antt =====
-- Approving, denying and undenying a request: what
-- plugins/faculty_storage_allocations/services/request_service.py leaves, and what
-- `denial_reason` of plugins/faculty_storage_allocations/models.py then says.
use coldfront.Base.{
  ℕ, ◌==◌, String, true, false, ◌≡◌, refl, ◌∙◌, bind-ok, ◌⊎◌, none, some, truthy, is_some, Result,
  ok, Action, ◌>>=◌, arith, fsa_request, Bool-cases, inl, inr,
}
use coldfront.Orm.{Orm}
use coldfront.Orm.Lookup.{get-save_self}
use coldfront.Storage.{FsaStatus, ReviewStatus, Review, Other, FsaRequest, Store, is_denied_review}
use coldfront.Storage.Service.{
  touched, save_request, approve_request, update_eligibility_state, update_intake_consistency_state,
  update_other_state, reset_eligibility, reset_intake_consistency, reset_other, undeny_request,
}

-- The request is stored as it was returned.
abbrev pub Stored : Orm → Store → Result FsaRequest → FsaRequest → Type 0
Stored orm after result r =
    (result ≡ ok r) × (orm.get fsa_request (λ x. x.pk == r.pk) after.requests ≡ ok r)

module _ (orm : Orm) (now : ℕ) (iso : ℕ → String) (store : Store) (r old : FsaRequest)
    (there : orm.get fsa_request (λ x. x.pk == r.pk) store.requests ≡ ok old) where
  -- Approving a stored request queues it with an amount: the approved one if there is one, and
  -- the requested one otherwise. The row of the request is then what was returned.
  pub approve_request-approved :
      (a : FsaRequest) × Stored orm
        (approve_request orm now iso r store).1
        (approve_request orm now iso r store).0
        a
      × (a.status ≡ FsaStatus.approved_queued)
      × (a.approval_time ≡ some now)
      × ((r.approved_amount_gb ≡ none) × (a.approved_amount_gb ≡ some r.requested_amount_gb)
          ⊎ (is_some r.approved_amount_gb ≡ true) × (a.approved_amount_gb ≡ r.approved_amount_gb))
      × (a.state ≡ r.state)
  unfolding approve_request
  approve_request-approved = (
    _,
    (refl, get-save_self orm fsa_request (λ x. x.pk) _ old store.requests there),
    refl,
    refl,
    ground arith,
    refl,
  )

-- What undeny leaves of a review.
abbrev pub Reset : Review → Review → Type 0
Reset before after =
    (is_denied_review after.status ≡ false)
    × (after.justification ≡ before.justification)
    × ((is_denied_review before.status ≡ false) × (after ≡ before)
        ⊎ (after.status ≡ ReviewStatus.pending))

module _ (orm : Orm) (now : ℕ) (iso : ℕ → String) where
  -- A note that is in force loses its text, and gets a new time.
  abbrev pub Blanked : Other → Other → Type 0
  Blanked before after =
      ((truthy before.timestamp ≡ true)
        × (after ≡ record { justification = ""; timestamp = iso now }))
      ⊎ ((truthy before.timestamp ≡ false) × (after ≡ before))

  -- A step ran on a request that is stored, and left it stored.
  abbrev Ran : Result FsaRequest × Store → FsaRequest → Type 0
  Ran run e =
      (run.0 ≡ ok e)
      × (row : FsaRequest) × (orm.get fsa_request (λ x. x.pk == e.pk) run.1.requests ≡ ok row)

  module _ (r old : FsaRequest) (store : Store)
      (h : orm.get fsa_request (λ x. x.pk == r.pk) store.requests ≡ ok old) where
    eligibility-Reset :
        (e : FsaRequest) × Ran (reset_eligibility orm now iso r store) e
        × Reset r.state.eligibility e.state.eligibility
        × (e.state.intake_consistency ≡ r.state.intake_consistency)
        × (e.state.other ≡ r.state.other)
        × (e.state.setup ≡ r.state.setup)
    unfolding reset_eligibility update_eligibility_state
    eligibility-Reset = elim (Bool-cases (is_denied_review r.state.eligibility.status)) [
      | inl b ↦ rw b (
        _,
        (refl, _, get-save_self orm fsa_request (λ x. x.pk) _ old store.requests h),
        (refl, refl, inr refl),
        refl,
        refl,
        refl,
      )
      | inr b ↦ rw b (r, (refl, old, h), (b, refl, inl (refl, refl)), refl, refl, refl)
    ]

    intake_consistency-Reset :
        (e : FsaRequest) × Ran (reset_intake_consistency orm now iso r store) e
        × Reset r.state.intake_consistency e.state.intake_consistency
        × (e.state.eligibility ≡ r.state.eligibility)
        × (e.state.other ≡ r.state.other)
        × (e.state.setup ≡ r.state.setup)
    unfolding reset_intake_consistency update_intake_consistency_state
    intake_consistency-Reset =
        elim (Bool-cases (is_denied_review r.state.intake_consistency.status)) [
          | inl b ↦ rw b (
            _,
            (refl, _, get-save_self orm fsa_request (λ x. x.pk) _ old store.requests h),
            (refl, refl, inr refl),
            refl,
            refl,
            refl,
          )
          | inr b ↦ rw b (r, (refl, old, h), (b, refl, inl (refl, refl)), refl, refl, refl)
        ]

    other_reset :
        (e : FsaRequest) × Ran (reset_other orm now iso r store) e
        × (e.state.eligibility ≡ r.state.eligibility)
        × (e.state.intake_consistency ≡ r.state.intake_consistency)
        × Blanked r.state.other e.state.other
        × (e.state.setup ≡ r.state.setup)
    unfolding reset_other update_other_state
    other_reset = elim (Bool-cases (truthy r.state.other.timestamp)) [
      | inl b ↦ rw b (
        _,
        (refl, _, get-save_self orm fsa_request (λ x. x.pk) _ old store.requests h),
        refl,
        refl,
        inl (refl, refl),
        refl,
      )
      | inr b ↦ rw b (r, (refl, old, h), refl, refl, inr (refl, refl), refl)
    ]

  -- Undenying a stored request succeeds: it is under review, no review is denied, a review that
  -- was denied is pending again with the same justification, the setup is as before, and the row
  -- is what was returned. A denial for another reason loses its text, and its time becomes now.
  pub undeny_request-under_review :
      (r old : FsaRequest) (store : Store)
      → orm.get fsa_request (λ x. x.pk == r.pk) store.requests ≡ ok old
      → (u : FsaRequest) × Stored orm
          (undeny_request orm now iso r store).1
          (undeny_request orm now iso r store).0
          u
        × (u.status ≡ FsaStatus.under_review)
        × Reset r.state.eligibility u.state.eligibility
        × Reset r.state.intake_consistency u.state.intake_consistency
        × Blanked r.state.other u.state.other
        × (u.state.setup ≡ r.state.setup)
  unfolding undeny_request
  undeny_request-under_review r old store h =
      let (e, (re, row1, h1), ee, ei, eo, es) = eligibility-Reset r old store h in
      let (i, (ri, row2, h2), ii, ie, io, is) = intake_consistency-Reset e row1 _ h1 in
      let (o, (ro, row3, h3), oe, oi, oo, os) = other_reset i row2 _ h2 in
      let f3 : FsaRequest → Action Store FsaRequest =
        λ x. save_request orm now iso (record x { status = FsaStatus.under_review }) in
      let f2 : FsaRequest → Action Store FsaRequest = λ x. reset_other orm now iso x >>= f3 in
      let f1 : FsaRequest → Action Store FsaRequest =
        λ x. reset_intake_consistency orm now iso x >>= f2 in
      let last : FsaRequest = record o { status = FsaStatus.under_review } in
      let run : undeny_request orm now iso r store
          ≡ save_request orm now iso last
              (reset_other orm now iso i
                (reset_intake_consistency orm now iso e
                  (reset_eligibility orm now iso r store).1).1).1 =
        bind-ok (reset_eligibility orm now iso r) f1 store e re
        ∙ bind-ok (reset_intake_consistency orm now iso e) f2 _ i ri
        ∙ bind-ok (reset_other orm now iso i) f3 _ o ro in
      rw run (
        touched orm now iso last,
        (refl, get-save_self orm fsa_request (λ x. x.pk) _ row3 _ h3),
        refl,
        ground (arith, ee, ie, oe),
        ground (arith, ei, ii, oi),
        ground (arith, eo, io, oo),
        os ∙ is ∙ es,
      )
