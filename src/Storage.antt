-- ===== src/Storage.antt =====
-- Requests for faculty storage: `FacultyStorageAllocationRequest` of
-- plugins/faculty_storage_allocations/models.py. A status is named by its constructor, and a
-- moment is counted in microseconds.
pub mod Orders
pub mod Service
pub mod Reviews
pub mod Denials
pub mod Claims
pub mod Directory
pub mod Members
pub mod Quota
pub mod Completion
mod Examples
use coldfront.Base.{
  ℕ, String, Bool, true, false, not, ◌&&◌, Option, List, any, ◌==◌, truthy, str_eq, Result, ok, err,
  value_error, if◌then◌else◌,
}
use coldfront.Tables.{Db}

pub data FsaStatus : Type 0 where
  under_review approved_queued approved_processing approved_complete denied : FsaStatus

pub data ReviewStatus : Type 0 where
  pending approved denied : ReviewStatus

pub data SetupStatus : Type 0 where
  pending complete : SetupStatus

pub record Review : Type 0 where
  pub status : ReviewStatus
  pub justification : String
  pub timestamp : String

pub record Setup : Type 0 where
  pub status : SetupStatus
  pub directory_name : String
  pub timestamp : String

pub record Other : Type 0 where
  pub justification : String
  pub timestamp : String

-- The JSON `state` field, with the entries of its schema.
pub record FsaState : Type 0 where
  pub eligibility : Review
  pub intake_consistency : Review
  pub setup : Setup
  pub other : Other

-- `modified` is the time of the last save.
pub record FsaRequest : Type 0 where
  pub pk : ℕ
  pub status : FsaStatus
  pub project : ℕ
  pub pi : ℕ
  pub requested_amount_gb : ℕ
  pub approved_amount_gb : Option ℕ
  pub request_time : ℕ
  pub approval_time : Option ℕ
  pub completion_time : Option ℕ
  pub modified : ℕ
  pub state : FsaState

-- `faculty_storage_allocation_request_state_schema`
abbrev pub initial_state : FsaState
initial_state = record {
  eligibility = record { status = ReviewStatus.pending; justification = ""; timestamp = "" };
  intake_consistency = record { status = ReviewStatus.pending; justification = ""; timestamp = "" };
  setup = record { status = SetupStatus.pending; directory_name = ""; timestamp = "" };
  other = record { justification = ""; timestamp = "" };
}

pub data FsaCategory : Type 0 where
  other eligibility intake_consistency : FsaCategory

pub record FsaDenialReason : Type 0 where
  pub category : FsaCategory
  pub justification : String
  pub timestamp : String

abbrev pub is_denied_review : ReviewStatus → Bool
is_denied_review ReviewStatus.denied = true
is_denied_review _ = false

abbrev pub is_denied : FsaStatus → Bool
is_denied FsaStatus.denied = true
is_denied _ = false

abbrev pub is_queued : FsaStatus → Bool
is_queued FsaStatus.approved_queued = true
is_queued _ = false

abbrev pub is_processing : FsaStatus → Bool
is_processing FsaStatus.approved_processing = true
is_processing _ = false

abbrev pub is_complete : FsaStatus → Bool
is_complete FsaStatus.approved_complete = true
is_complete _ = false

abbrev reason_of_review : FsaCategory → Review → FsaDenialReason
reason_of_review c r = record {
  category = c;
  justification = r.justification;
  timestamp = r.timestamp;
}

-- `FacultyStorageAllocationRequest.denial_reason`
unfoldable pub denial_reason : FsaRequest → Result FsaDenialReason
denial_reason r =
    let s = r.state in
    if not (is_denied r.status)
    then err value_error
    else if truthy s.other.timestamp
    then ok (record {
      category = FsaCategory.other;
      justification = s.other.justification;
      timestamp = s.other.timestamp;
    })
    else if is_denied_review s.eligibility.status
    then ok (reason_of_review FsaCategory.eligibility s.eligibility)
    else if is_denied_review s.intake_consistency.status
    then ok (reason_of_review FsaCategory.intake_consistency s.intake_consistency)
    else err value_error

-- The tables that the plugin reads and writes.
pub record Store : Type 0 where
  pub requests : List FsaRequest
  pub db : Db

-- `FSARequestEligibilityService.is_eligible_for_request`: `emails` are the PI's, and `lower` is
-- `str.lower`.
module _ (whitelist_enabled : Bool) (whitelist : List String) (lower : String → String) where
  unfoldable pub is_eligible_for_request : List String → ℕ → List FsaRequest → Bool
  is_eligible_for_request emails pi requests =
      if whitelist_enabled && not (any (λ e. any (λ w. str_eq e (lower w)) whitelist) emails)
      then false
      else not (any (λ r. r.pi == pi && not (is_denied r.status)) requests)
