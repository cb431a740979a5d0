-- ===== src/Secure.antt =====
-- Secure directories: the tables of their requests in core/allocation/models.py, and
-- `secure_dir_request_state_status` of core/allocation/utils_/secure_dir_utils/new_directory.py.
pub mod Users
pub mod OneOpen
pub mod Turns
pub mod Finished
pub mod Views
pub mod Once
pub mod Granted
mod Examples
pub mod Directories
pub mod Reviews
pub mod Operations
pub mod Kept
pub mod Histories
use coldfront.Base.{
  ℕ, String, Bool, true, false, ◌||◌, Option, List, truthy, Result, ok, err, value_error,
  if◌then◌else◌,
}
use coldfront.Tables.{Db, Project, Value}
use coldfront.World.{User}
use coldfront.Requests.Steps.{StepStatus, Step, Note}

-- `SecureDirRequestStatusChoice`
pub data SecureDirStatus : Type 0 where
  under_review approved_processing approved_complete denied : SecureDirStatus

-- The JSON `state` field. The status "Completed" of the setup is `complete`.
pub record SecureDirState : Type 0 where
  pub rdm_consultation : Step
  pub mou : Step
  pub setup : Step
  pub other : Note

pub record SecureDirRequest : Type 0 where
  pub pk : ℕ
  pub requester : ℕ
  pub directory_name : String
  pub department : String
  pub rdm_consultation : Option String
  pub project : Project
  pub status : SecureDirStatus
  pub completion_time : Option ℕ
  pub state : SecureDirState

-- The statuses of requests to manage a user.
pub data ManageStatus : Type 0 where
  pending processing complete denied : ManageStatus

-- `SecureDirAddUserRequest` and `SecureDirRemoveUserRequest`, which have the same fields.
pub record ManageRequest : Type 0 where
  pub pk : ℕ
  pub user : ℕ
  pub allocation : ℕ
  pub directory : Value
  pub completion_time : Option ℕ
  pub status : ManageStatus

-- The tables.
pub record SecureWorld : Type 0 where
  pub db : Db
  pub users : List User
  pub requests : List SecureDirRequest
  pub add_requests : List ManageRequest
  pub remove_requests : List ManageRequest

abbrev new_step : Step
new_step = record { status = StepStatus.pending; justification = ""; timestamp = "" }

-- `secure_dir_request_state_schema`, but for the entry "notified", which only views outside this model read.
abbrev pub initial_state : SecureDirState
initial_state = record {
  rdm_consultation = new_step;
  mou = new_step;
  setup = new_step;
  other = record { justification = ""; timestamp = "" };
}

abbrev pub is_denied : Step → Bool
is_denied s = elim s.status [ StepStatus.denied ↦ true | _ ↦ false ]

abbrev pub is_pending : Step → Bool
is_pending s = elim s.status [ StepStatus.pending ↦ true | _ ↦ false ]

abbrev pub is_complete : Step → Bool
is_complete s = elim s.status [ StepStatus.complete ↦ true | _ ↦ false ]

abbrev pub has_denial : SecureDirState → Bool
has_denial s =
    is_denied s.rdm_consultation
    || (is_denied s.mou || (is_denied s.setup || truthy s.other.timestamp))

unfoldable pub secure_dir_request_state_status : SecureDirState → SecureDirStatus
secure_dir_request_state_status s =
    if has_denial s
    then SecureDirStatus.denied
    else if is_pending s.rdm_consultation || is_pending s.mou
    then SecureDirStatus.under_review
    else SecureDirStatus.approved_processing

abbrev pub is_denied_request : SecureDirStatus → Bool
is_denied_request SecureDirStatus.denied = true
is_denied_request _ = false

-- The categories of the `DenialReason` tuples.
pub data Category : Type 0 where
  rdm_consultation memorandum cluster_setup other : Category

pub record DenialReason : Type 0 where
  pub category : Category
  pub justification : String
  pub timestamp : String

abbrev pub reason_of : Category → Step → DenialReason
reason_of c s = record { category = c; justification = s.justification; timestamp = s.timestamp }

abbrev pub reason_of_note : Note → DenialReason
reason_of_note n = record {
  category = other;
  justification = n.justification;
  timestamp = n.timestamp;
}

abbrev reason_in : SecureDirState → Result DenialReason
reason_in s =
    if is_denied s.rdm_consultation
    then ok (reason_of rdm_consultation s.rdm_consultation)
    else if is_denied s.mou
    then ok (reason_of memorandum s.mou)
    else if is_denied s.setup
    then ok (reason_of cluster_setup s.setup)
    else if truthy s.other.timestamp
    then ok (reason_of_note s.other)
    else err value_error

-- `SecureDirRequest.denial_reason`
unfoldable pub denial_reason : SecureDirRequest → Result DenialReason
denial_reason r = if is_denied_request r.status then reason_in r.state else err value_error
