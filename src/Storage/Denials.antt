-- ===== src/Storage/Denials.antt =====
-- The reason that `denial_reason` of plugins/faculty_storage_allocations/models.py gives for a
-- request that was denied after a review.
use coldfront.Base.{
  ℕ, ◌==◌, String, true, false, ◌≡◌, refl, truthy, Result, ok, ◌>>=◌, arith, fsa_request,
}
use coldfront.Orm.{Orm}
use coldfront.Storage.{
  ReviewStatus, FsaRequest, FsaCategory, Store, denial_reason, is_denied_review,
}
use coldfront.Storage.Service.{
  update_eligibility_state, update_intake_consistency_state, update_other_state, deny_request,
  undeny_request,
}
use coldfront.Storage.Reviews.{undeny_request-under_review}

-- The action succeeds with a request that was denied for this reason.
abbrev pub DeniedFor : Result FsaRequest → FsaCategory → String → String → Type 0
DeniedFor result c j t =
    (d : FsaRequest) × (result ≡ ok d)
    × (denial_reason d ≡ ok (record { category = c; justification = j; timestamp = t }))

module _ (orm : Orm) (now : ℕ) (iso : ℕ → String) (r : FsaRequest) (store : Store)
    (j : String) where
  abbrev pub deny_eligibility : Result FsaRequest
  deny_eligibility =
      ((update_eligibility_state orm now iso r ReviewStatus.denied j >>= deny_request orm now iso)
        store).0

  abbrev pub deny_intake_consistency : Result FsaRequest
  deny_intake_consistency =
      ((update_intake_consistency_state orm now iso r ReviewStatus.denied j
          >>= deny_request orm now iso)
        store).0

  abbrev pub deny_other : Result FsaRequest
  deny_other = ((update_other_state orm now iso r j >>= deny_request orm now iso) store).0

  -- A request that is denied in a review gives that review's justification and time as the
  -- reason, if no other denial is noted and, for the intake, eligibility was not denied; one that
  -- is denied for another reason gives that one, whatever the reviews say.
  pub denial_reason-denied :
      truthy (iso now) ≡ true
      → (truthy r.state.other.timestamp ≡ false
          → DeniedFor deny_eligibility FsaCategory.eligibility j (iso now))
        × (truthy r.state.other.timestamp ≡ false
            → is_denied_review r.state.eligibility.status ≡ false
            → DeniedFor deny_intake_consistency FsaCategory.intake_consistency j (iso now))
        × DeniedFor deny_other FsaCategory.other j (iso now)
  unfolding update_eligibility_state update_intake_consistency_state update_other_state deny_request
      denial_reason
  denial_reason-denied t =
      (λ o. (_, refl, rw o refl), λ o e. (_, refl, rw (o, e) refl), (_, refl, rw t refl))

module _ (orm : Orm) (now : ℕ) (iso : ℕ → String) (r old : FsaRequest) (store : Store) where
  -- A stored request that is undenied after a denial for another reason, and is then denied in the
  -- eligibility review at any later time, gives an empty other reason, and not the review's.
  pub undeny_request-lingers :
      truthy (iso now) ≡ true
      → truthy r.state.other.timestamp ≡ true
      → orm.get fsa_request (λ x. x.pk == r.pk) store.requests ≡ ok old
      → (u : FsaRequest) × ((undeny_request orm now iso r store).0 ≡ ok u)
        × ((later : ℕ) (after : Store) (j : String)
            → DeniedFor (deny_eligibility orm later iso u after j) FsaCategory.other "" (iso now))
  unfolding update_eligibility_state deny_request denial_reason
  undeny_request-lingers t o h =
      let (u, (run, saved), status, e, i, b, s) =
        undeny_request-under_review orm now iso r old store h in
      (u, run, λ later after j. (_, refl, ground (arith, b, t, o)))
