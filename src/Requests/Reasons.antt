-- ===== src/Requests/Reasons.antt =====
-- The status that is computed from a request's steps, and the reason that is given for a denial.
use coldfront.Base.{
  ◌≡◌, ◌≢◌, refl, ◌⊎◌, ◌↔◌, String, Bool, true, false, Option, none, some, truthy, ok, is_ok, arith,
}
use coldfront.Allowance.{Flags, requires_memorandum_of_understanding}
use coldfront.Requests.Steps.{StepStatus, RequestStatus, under_review, approved_processing, denied}
use coldfront.Requests.Savio.{
  SavioRequest, is_denied, is_pending, savio_request_state_status, denial_reason,
}
use coldfront.Requests.Vector.{
  VectorRequest, vector_request_state_status, vector_request_denial_reason,
}
use coldfront.Requests.Renewal
use coldfront.Requests.Renewal.{
  RenewalReview, is_denied_project, allocation_renewal_request_state_status,
  allocation_renewal_request_denial_reason, set_allocation_renewal_request_eligibility,
}

-- For a Savio request with status 'Denied', the steps say 'Denied' exactly when a reason for the
-- denial is found; with any other status no reason is.
denial_reason-total :
    (fl : Flags) (r : SavioRequest)
    → (is_ok (denial_reason r) ≡ true)
      ↔ ((r.status ≡ denied) × (savio_request_state_status fl r ≡ ok denied))
unfolding savio_request_state_status denial_reason
denial_reason-total fl r = (λ e. ground arith, λ e. ground arith)

abbrev is_signed : Option StepStatus → Bool
is_signed none = false
is_signed (some StepStatus.pending) = false
is_signed (some _) = true

-- A Savio request is to be approved exactly when no step is pending or denied, no other reason
-- denies it, and the memorandum is signed where one is needed.
savio_approved_iff :
    (fl : Flags) (r : SavioRequest)
    → (savio_request_state_status fl r ≡ ok approved_processing) ↔ (
        (is_denied r.state.eligibility.status ≡ false)
        × (is_pending r.state.eligibility.status ≡ false)
        × (is_denied r.state.readiness.status ≡ false)
        × (is_pending r.state.readiness.status ≡ false)
        × (truthy r.state.other.timestamp ≡ false)
        × ((requires_memorandum_of_understanding fl r.computing_allowance ≡ false)
            ⊎ (is_signed r.state.memorandum_signed ≡ true)))
unfolding savio_request_state_status
savio_approved_iff fl r = (λ e. ground arith, λ e. ground arith)

-- The steps of a Savio request never say that it is scheduled or complete.
pub savio_status_in_review :
    (fl : Flags) (r : SavioRequest) (s : RequestStatus)
    → savio_request_state_status fl r ≡ ok s
    → (s ≡ denied) ⊎ (s ≡ under_review) ⊎ (s ≡ approved_processing)
unfolding savio_request_state_status
savio_status_in_review fl r s h = ground arith

-- For a Vector request with status 'Denied', the step says 'Denied' exactly when a reason for the
-- denial is found; with any other status no reason is.
pub vector_denial_reason-total :
    (r : VectorRequest)
    → (is_ok (vector_request_denial_reason r) ≡ true)
      ↔ ((r.status ≡ denied) × (vector_request_state_status r ≡ denied))
unfolding vector_request_state_status vector_request_denial_reason
vector_denial_reason-total r = (λ e. ground arith, λ e. ground arith)

-- The project request of a renewal was denied by its own steps.
abbrev pub DeniedBySteps : Flags → Option SavioRequest → Type 0
DeniedBySteps fl none = Unit
DeniedBySteps fl (some r) =
    (is_denied_project r ≡ false) ⊎ (savio_request_state_status fl r ≡ ok denied)

project_reason :
    (fl : Flags) (r : SavioRequest)
    → is_denied_project r ≡ true
    → savio_request_state_status fl r ≡ ok denied
    → is_ok (denial_reason r) ≡ true
project_reason fl r h e = (denial_reason-total fl r).1 (ground arith, e)

reason_by_project :
    (fl : Flags) (r : RenewalReview) (p : Option SavioRequest)
    → r.new_project_request ≡ p
    → DeniedBySteps fl p
    → allocation_renewal_request_state_status r ≡ Renewal.denied
    → is_ok (allocation_renewal_request_denial_reason r) ≡ true
unfolding allocation_renewal_request_state_status allocation_renewal_request_denial_reason
reason_by_project fl r none e d h = ground arith
reason_by_project fl r (some p) e d h = ground (arith, project_reason fl p)

-- A renewal that its state says is denied has a reason for the denial to show, provided that a
-- denied project request beside it was denied by its own steps.
renewal_denial_reason-total :
    (fl : Flags) (r : RenewalReview)
    → DeniedBySteps fl r.new_project_request
    → allocation_renewal_request_state_status r ≡ Renewal.denied
    → is_ok (allocation_renewal_request_denial_reason r) ≡ true
renewal_denial_reason-total fl r = reason_by_project fl r r.new_project_request refl

-- Noting that the PI of a renewal is ineligible records the denial and its justification, and leaves
-- the renewal either denied or under review: under review exactly where no other reason denies it and
-- it comes with a project request that is not denied, and denied exactly where another reason denies
-- it, it comes with no project request, or it comes with a denied one.
pub set_eligibility_denied :
    (now : String) (r : RenewalReview) (justification : String) (timestamp : Option String)
    → let after =
        set_allocation_renewal_request_eligibility now r StepStatus.denied justification
          timestamp in
      (after.eligibility.status ≡ StepStatus.denied)
      × (after.eligibility.justification ≡ justification)
      × ((after.status ≡ Renewal.under_review) ↔ (
          (truthy r.other.timestamp ≡ false)
          × (p : SavioRequest) × (r.new_project_request ≡ some p)
          × (p.status ≢ denied)))
      × ((after.status ≡ Renewal.denied) ↔ (
          (truthy r.other.timestamp ≡ true)
          ⊎ (r.new_project_request ≡ none)
          ⊎ ((p : SavioRequest) × (r.new_project_request ≡ some p) × (p.status ≡ denied))))
unfolding set_allocation_renewal_request_eligibility allocation_renewal_request_state_status
set_eligibility_denied now r justification timestamp =
    (refl, refl, (λ e. ground arith, λ e. ground arith), (λ e. ground arith, λ e. ground arith))
