-- ===== src/Requests/Steps.antt =====
-- The parts of a request's JSON `state` field, and the names of the statuses
-- (core/project/models.py). The rows of a status table are created by the deployment's setup
-- commands, so a lookup of a status by its name is a constructor here.
use coldfront.Base.{String}

-- The "status" of a review step.
pub data StepStatus : Type 0 where
  pending approved denied complete : StepStatus

-- A step such as "eligibility".
pub record Step : Type 0 where
  pub status : StepStatus
  pub justification : String
  pub timestamp : String

-- The "other" entry: a denial for a reason that no step covers. It is in force when its
-- timestamp is not empty.
pub record Note : Type 0 where
  pub justification : String
  pub timestamp : String

-- `ProjectAllocationRequestStatusChoice`
pub data RequestStatus : Type 0 where
  under_review approved_processing approved_scheduled approved_complete denied : RequestStatus

-- The categories of the `DenialReason` tuples.
pub data Category : Type 0 where
  other pi_ineligible readiness_unsatisfied requester_ineligible : Category

pub record DenialReason : Type 0 where
  pub category : Category
  pub justification : String
  pub timestamp : String

abbrev pub reason_of_note : Note → DenialReason
reason_of_note n = record {
  category = other;
  justification = n.justification;
  timestamp = n.timestamp;
}

abbrev pub reason_of_step : Category → Step → DenialReason
reason_of_step c s = record {
  category = c;
  justification = s.justification;
  timestamp = s.timestamp;
}
