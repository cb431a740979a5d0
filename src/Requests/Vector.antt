-- ===== src/Requests/Vector.antt =====
-- A request for a new Vector project: `VectorProjectAllocationRequest` of core/project/models.py,
-- `vector_request_state_status` and `vector_request_denial_reason` of
-- core/project/utils_/new_project_utils.py.
use coldfront.Base.{Bool, true, false, Result, ok, err, value_error, if◌then◌else◌}
use coldfront.Requests.Steps.{
  Step, RequestStatus, under_review, approved_processing, denied, requester_ineligible,
  DenialReason, reason_of_step,
}
use coldfront.Requests.Savio.{is_denied, is_pending}

pub record VectorRequest : Type 0 where
  pub status : RequestStatus
  pub eligibility : Step

unfoldable pub vector_request_state_status : VectorRequest → RequestStatus
vector_request_state_status r =
    if is_denied r.eligibility.status
    then denied
    else if is_pending r.eligibility.status
    then under_review
    else approved_processing

abbrev is_denied_request : RequestStatus → Bool
is_denied_request denied = true
is_denied_request _ = false

unfoldable pub vector_request_denial_reason : VectorRequest → Result DenialReason
vector_request_denial_reason r =
    if is_denied_request r.status
    then if is_denied r.eligibility.status
      then ok (reason_of_step requester_ineligible r.eligibility)
      else err value_error
    else err value_error
