-- ===== src/Renewals/Statuses.antt =====
-- The life of a request to renew an allowance, as the runners of
-- core/project/utils_/renewal_utils.py let it go on.
use coldfront.Base.{
  ℕ, ◌≡◌, refl, ◌&&◌, inl, inr, Bool, true, false, is_some, ok, arith, Result-cases,
}
use coldfront.Base.Int.{ℤ}
use coldfront.Orm.{Orm}
use coldfront.World.{World, RenewalRequest, RenewalStatus}
use coldfront.Units.Service.{in_bounds}
use coldfront.Renewals.{
  has_status, assert_not_ended, assert_started, validate_num_service_units,
  get_pooling_preference_case, approve_renewal, deny_renewal, complete_request,
}
use coldfront.Renewals.Processing.{can_process}

-- What a request says of itself: one that was approved has the time of that, and one that is
-- complete has both times and an amount within the bounds.
abbrev consistent_as : RenewalStatus → RenewalRequest → Bool
consistent_as RenewalStatus.under_review r = true
consistent_as RenewalStatus.denied r = true
consistent_as RenewalStatus.approved r = is_some r.approval_time
consistent_as RenewalStatus.complete r =
    is_some r.approval_time && (is_some r.completion_time && in_bounds r.num_service_units)

abbrev pub Consistent : RenewalRequest → Type 0
Consistent r = consistent_as r.status r ≡ true

module _ (orm : Orm) where
  -- One run of a runner on a request, at a time and on a day of its own. A processing run ends in
  -- `complete_request`, and other steps of it leave the request alone.
  pub data Step : RenewalRequest → RenewalRequest → Type 0 where
    approve :
        (now today : ℕ) (units : ℤ) (r s : RenewalRequest) (world : World)
        → (approve_renewal orm now today r units world).0 ≡ ok s
        → Step r s
    deny :
        (now today : ℕ) (r s : RenewalRequest) (world : World)
        → (deny_renewal orm now today r world).0 ≡ ok s
        → Step r s
    process :
        (now today : ℕ) (units : ℤ) (r s : RenewalRequest) (before after : World)
        → (can_process orm now today r units before).0 ≡ ok tt
        → (complete_request orm now today r units after).0 ≡ ok s
        → Step r s

  pub data Reach (r : RenewalRequest) : RenewalRequest → Type 0 where
    here : Reach r r
    then_step : (s t : RenewalRequest) → Reach r s → Step s t → Reach r t

  approved_step :
      (now today : ℕ) (units : ℤ) (r s : RenewalRequest) (world : World)
      → (approve_renewal orm now today r units world).0 ≡ ok s
      → Consistent s × (has_status RenewalStatus.complete r ≡ false)
  unfolding approve_renewal assert_not_ended validate_num_service_units
  approved_step now today units r s world h = ground (arith, h)

  denied_step :
      (now today : ℕ) (r s : RenewalRequest) (world : World)
      → (deny_renewal orm now today r world).0 ≡ ok s
      → Consistent s × (has_status RenewalStatus.complete r ≡ false)
  unfolding deny_renewal
  denied_step now today r s world h =
      elim (Result-cases (get_pooling_preference_case orm r world.db)) [
        | inl (c, e) ↦ ground (arith, e, h)
        | inr (x, e) ↦ ground (arith, e, h)
      ]

  processed_step :
      (now today : ℕ) (units : ℤ) (r s : RenewalRequest) (before after : World)
      → (can_process orm now today r units before).0 ≡ ok tt
      → (complete_request orm now today r units after).0 ≡ ok s
      → Consistent r
      → Consistent s × (has_status RenewalStatus.complete r ≡ false)
  unfolding can_process complete_request assert_started assert_not_ended validate_num_service_units
  processed_step now today units r s before after h c old = ground (arith, h, c, old)

  step-Consistent :
      (r s : RenewalRequest)
      → Step r s
      → Consistent r
      → Consistent s × (has_status RenewalStatus.complete r ≡ false)
  step-Consistent _ _ (approve now today units r s world h) c =
      approved_step now today units r s world h
  step-Consistent _ _ (deny now today r s world h) c = denied_step now today r s world h
  step-Consistent _ _ (process now today units r s before after h k) c =
      processed_step now today units r s before after h k c

  -- Whatever runners are run on a request, in any order, whenever and on whatever tables: if it is
  -- consistent at first, as a new one is, it stays so, that is, an approved request has its approval
  -- time, and a complete one has both times and an amount within the bounds.
  pub Reach-Consistent : (r s : RenewalRequest) → Reach r s → Consistent r → Consistent s
  Reach-Consistent r _ here c = c
  Reach-Consistent r _ (then_step s t reach step) c =
      (step-Consistent s t step (Reach-Consistent r s reach c)).0

  -- A consistent request that is complete is final: no sequence of runs leads to another.
  pub Reach-final :
      (r s : RenewalRequest)
      → Reach r s
      → Consistent r
      → has_status RenewalStatus.complete r ≡ true
      → s ≡ r
  Reach-final r _ here c done = refl
  Reach-final r _ (then_step s t reach step) c done =
      let same = Reach-final r s reach c done in
      cc (same, done, (step-Consistent s t step (Reach-Consistent r s reach c)).1)
