-- ===== src/Requests/Savio.antt =====
-- A request for a new Savio project: `SavioProjectAllocationRequest` of core/project/models.py and
-- `savio_request_state_status` of core/project/utils_/new_project_utils.py.
use coldfront.Base.{
  String, Bool, true, false, Option, none, some, truthy, Result, ok, err, and_then, value_error,
  key_error, ◌||◌, if◌then◌else◌,
}
use coldfront.Allowance.{Flags, requires_memorandum_of_understanding}
use coldfront.Requests.Steps.{
  StepStatus, pending, Step, Note, RequestStatus, under_review, approved_processing, denied,
  pi_ineligible, readiness_unsatisfied, DenialReason, reason_of_note, reason_of_step,
}

-- Only some schemas of the state have "memorandum_signed"; `none` is the missing key.
pub record SavioState : Type 0 where
  pub eligibility : Step
  pub readiness : Step
  pub memorandum_signed : Option StepStatus
  pub other : Note

pub record SavioRequest : Type 0 where
  pub computing_allowance : String
  pub pool : Bool
  pub status : RequestStatus
  pub state : SavioState

-- `step["status"] == "Denied"` and `step["status"] == "Pending"`
abbrev pub is_denied : StepStatus → Bool
is_denied StepStatus.denied = true
is_denied _ = false

abbrev pub is_pending : StepStatus → Bool
is_pending pending = true
is_pending _ = false

-- `state["memorandum_signed"]["status"] == "Pending"`
abbrev memorandum_pending : Option StepStatus → Result Bool
memorandum_pending none = err key_error
memorandum_pending (some s) = ok (is_pending s)

abbrev memorandum_not_signed : Flags → SavioRequest → Result Bool
memorandum_not_signed fl r =
    if requires_memorandum_of_understanding fl r.computing_allowance
    then memorandum_pending r.state.memorandum_signed
    else ok false

unfoldable pub savio_request_state_status : Flags → SavioRequest → Result RequestStatus
savio_request_state_status fl r =
    if is_denied r.state.eligibility.status
      || (is_denied r.state.readiness.status || truthy r.state.other.timestamp)
    then ok denied
    else and_then (memorandum_not_signed fl r) λ not_signed.
      if is_pending r.state.eligibility.status
        || (is_pending r.state.readiness.status || not_signed)
      then ok under_review
      else ok approved_processing

abbrev pub is_denied_request : RequestStatus → Bool
is_denied_request denied = true
is_denied_request _ = false

-- `SavioProjectAllocationRequest.denial_reason`
unfoldable pub denial_reason : SavioRequest → Result DenialReason
denial_reason r =
    if is_denied_request r.status
    then if truthy r.state.other.timestamp
      then ok (reason_of_note r.state.other)
      else if is_denied r.state.eligibility.status
      then ok (reason_of_step pi_ineligible r.state.eligibility)
      else if is_denied r.state.readiness.status
      then ok (reason_of_step readiness_unsatisfied r.state.readiness)
      else err value_error
    else err value_error
