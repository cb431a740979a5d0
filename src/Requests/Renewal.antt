-- ===== src/Requests/Renewal.antt =====
-- The review of a renewal of an allowance: `AllocationRenewalRequest` and
-- `allocation_renewal_request_state_status`, `allocation_renewal_request_denial_reason`,
-- `set_allocation_renewal_request_eligibility` of core/project/utils_/renewal_utils.py.
use coldfront.Base.{
  String, Bool, true, false, Option, none, some, truthy, Result, ok, err, value_error,
  if◌then◌else◌,
}
use coldfront.Requests.Steps.{
  StepStatus, Step, Note, RequestStatus, pi_ineligible, DenialReason, reason_of_note,
  reason_of_step,
}
use coldfront.Requests.Savio.{SavioRequest, is_denied, denial_reason}

-- `AllocationRenewalRequestStatusChoice`
pub data RenewalStatus : Type 0 where
  under_review approved complete denied : RenewalStatus

-- `new_project_request` is set when the PI stops pooling and asks for a project of their own.
pub record RenewalReview : Type 0 where
  pub status : RenewalStatus
  pub eligibility : Step
  pub other : Note
  pub new_project_request : Option SavioRequest

abbrev pub is_denied_project : SavioRequest → Bool
is_denied_project r = elim r.status [ RequestStatus.denied ↦ true | _ ↦ false ]

abbrev state_status_after_other : Option SavioRequest → Step → RenewalStatus
state_status_after_other (some r) eligibility = if is_denied_project r then denied else under_review
state_status_after_other none eligibility =
    if is_denied eligibility.status then denied else under_review

unfoldable pub allocation_renewal_request_state_status : RenewalReview → RenewalStatus
allocation_renewal_request_state_status r =
    if truthy r.other.timestamp
    then denied
    else state_status_after_other r.new_project_request r.eligibility

abbrev project_denial_reason : Option SavioRequest → Result DenialReason
project_denial_reason none = err value_error
project_denial_reason (some r) = if is_denied_project r then denial_reason r else err value_error

unfoldable pub allocation_renewal_request_denial_reason : RenewalReview → Result DenialReason
allocation_renewal_request_denial_reason r =
    if truthy r.other.timestamp
    then ok (reason_of_note r.other)
    else if is_denied r.eligibility.status
    then ok (reason_of_step pi_ineligible r.eligibility)
    else project_denial_reason r.new_project_request

-- `now` is the current time in ISO 8601, which stands in for a timestamp that is not given.
unfoldable pub set_allocation_renewal_request_eligibility :
    (now : String) → RenewalReview → StepStatus → String → Option String → RenewalReview
set_allocation_renewal_request_eligibility now r status justification timestamp =
    let t : String = elim timestamp [ some t ↦ t | none ↦ now ] in
    let noted = record r {
      eligibility = record { status = status; justification = justification; timestamp = t };
    } in
    record noted { status = allocation_renewal_request_state_status noted }
