-- ===== src/Projects.antt =====
-- Requests for new projects: the runners of core/project/utils_/new_project_utils.py for their denial
-- and approval, and the handler of core/project/signals.py. Mails are left out. A Vector
-- request has no completion time in its table.
pub mod Processing
pub mod Denied
pub mod Processed
mod Examples
use coldfront.Base.{
  ℕ, ◌==◌, String, Bool, true, false, not, ◌&&◌, Option, none, some, is_some, List, Result, ok, err,
  and_then, does_not_exist, multiple_objects_returned, Model, project_request, renewal_request,
  allocation_attribute, user_profile, Action, asks, pure, raise, modify, atomic, suppress, when,
  ◌>>=◌, ◌>>◌, if◌then◌else◌,
}
use coldfront.Base.Int.{ℤ, pos, ◌+ℤ◌}
use coldfront.Allowance.{has_infinite_service_units}
use coldfront.Orm.{Orm}
use coldfront.AllowanceInterface.{Site}
use coldfront.Tables.{
  Db, Project, ProjectStatus, Allocation, AllocationStatus, AllocationAttribute, AttributeType,
  Value, decimal, number, has_type, to_decimal,
}
use coldfront.Jobs.Store.{allocation_max}
use coldfront.Requests.Steps.{
  RequestStatus, denied, approved_scheduled, approved_complete, DenialReason,
}
use coldfront.Requests.Savio.{SavioRequest, denial_reason}
use coldfront.World.{World, Period, Profile, RenewalRequest, on_db}
use coldfront.Units.Rows.{save_allocation, save_with_usage, add_transaction}
use coldfront.Members.{get_project_compute_allocation}
use coldfront.Renewals.{
  assert_started, assert_not_ended, validate_num_service_units, save_project, save_renewal,
  deny_renewal,
}
use coldfront.Renewals.Processing.{activate_project, units_attribute, update_users}
use coldfront.Newcomers.{Settings}
use coldfront.Newcomers.Create.{
  RequestClass, savio_project_allocation_request, vector_project_allocation_request,
  create_project_users,
}

-- `SavioProjectAllocationRequest`: `review` has the fields that its review reads.
pub record SavioProject : Type 0 where
  pub pk : ℕ
  pub requester : ℕ
  pub pi : ℕ
  pub project : Project
  pub allocation_period : Option Period
  pub billing_activity : Option ℕ
  pub approval_time : Option ℕ
  pub completion_time : Option ℕ
  pub review : SavioRequest

-- `VectorProjectAllocationRequest`
pub record VectorProject : Type 0 where
  pub pk : ℕ
  pub requester : ℕ
  pub pi : ℕ
  pub project : Project
  pub status : RequestStatus

-- The tables of the requests beside the others.
pub record ProjectWorld : Type 0 where
  pub world : World
  pub savio_requests : List SavioProject
  pub vector_requests : List VectorProject

pub data NewProject : Type 0 where
  savio : SavioProject → NewProject
  vector : VectorProject → NewProject

abbrev pub key_of : NewProject → ℕ
key_of (savio r) = r.pk
key_of (vector r) = r.pk

abbrev pub requester_of : NewProject → ℕ
requester_of (savio r) = r.requester
requester_of (vector r) = r.requester

abbrev pub pi_of : NewProject → ℕ
pi_of (savio r) = r.pi
pi_of (vector r) = r.pi

abbrev pub project_of : NewProject → Project
project_of (savio r) = r.project
project_of (vector r) = r.project

abbrev pub class_of : NewProject → RequestClass
class_of (savio r) = savio_project_allocation_request
class_of (vector r) = vector_project_allocation_request

-- Whether it asks to pool with a project that is there.
abbrev pub is_pool : NewProject → Bool
is_pool (savio r) = r.review.pool
is_pool (vector r) = false

abbrev pub with_status : RequestStatus → NewProject → NewProject
with_status s (savio r) = savio (record r { review = record r.review { status = s } })
with_status s (vector r) = vector (record r { status = s })

abbrev pub on_world : {A : Type 0} → Action World A → Action ProjectWorld A
on_world m w = let (r, after) = m w.world in (r, record w { world = after })

abbrev pub with_period : Option Period → (Period → Result (Unit {0})) → Result (Unit {0})
with_period none check = ok tt
with_period (some p) check = check p

module _ (orm : Orm) where
  abbrev pub save_request : NewProject → ProjectWorld → ProjectWorld
  save_request (savio r) w = record w {
    savio_requests = orm.save (λ (x : SavioProject). x.pk) r w.savio_requests;
  }
  save_request (vector r) w = record w {
    vector_requests = orm.save (λ (x : VectorProject). x.pk) r w.vector_requests;
  }

  -- `now` is the current time and `today` the current date.
  module _ (now today : ℕ) where
    abbrev pub deny_noted : RenewalRequest → DenialReason → Action ProjectWorld (Unit {0})
    deny_noted s reason = do
      let noted : RenewalRequest = record s {
        other = record { justification = reason.justification; timestamp = reason.timestamp };
      }
      on_world (modify (save_renewal orm noted))
      suppress (on_world (deny_renewal orm now today noted))

    abbrev pub deny_renewal_of :
        SavioProject → Result RenewalRequest → Action ProjectWorld (Unit {0})
    deny_renewal_of r (ok s) = do reason ← asks (λ _. denial_reason r.review); deny_noted s reason
    deny_renewal_of r (err (does_not_exist Model.renewal_request)) = pure tt
    deny_renewal_of r (err (multiple_objects_returned Model.renewal_request)) = pure tt
    deny_renewal_of r (err e) = raise e

    abbrev pub is_for : ℕ → RenewalRequest → Bool
    is_for k s = elim s.new_project_request [ none ↦ false | some n ↦ n == k ]

    abbrev pub deny_associated : Result SavioProject → Action ProjectWorld (Unit {0})
    deny_associated (ok r) w =
        deny_renewal_of r (orm.get renewal_request (is_for r.pk) w.world.renewal_requests) w
    deny_associated (err (does_not_exist Model.project_request)) w = (ok tt, w)
    deny_associated (err e) w = (err e, w)

    -- The handler of the signal `new_project_request_denied`.
    unfoldable pub deny_associated_allocation_renewal_request : ℕ → Action ProjectWorld (Unit {0})
    deny_associated_allocation_renewal_request request_id w =
        deny_associated
          (orm.get project_request (λ (r : SavioProject). r.pk == request_id) w.savio_requests) w

    abbrev pub deny_project : Project → ProjectWorld → ProjectWorld
    deny_project p w = record w {
      world = record w.world {
        db = save_project orm (record p { status = ProjectStatus.denied }) w.world.db;
      };
    }

    abbrev pub deny_steps : NewProject → Action ProjectWorld (Unit {0})
    deny_steps r = do
      when (not (is_pool r)) (modify (deny_project (project_of r)))
      modify (save_request (with_status denied r))
      deny_associated_allocation_renewal_request (key_of r)

    -- `ProjectDenialRunner(r).run()`
    unfoldable pub run_denial : NewProject → Action ProjectWorld (Unit {0})
    run_denial r = atomic (deny_steps r)

    -- `SavioProjectApprovalRunner(r, num_service_units).run()`
    unfoldable pub run_approval : SavioProject → ℤ → Action ProjectWorld (Unit {0})
    run_approval r units = do
      asks (λ _. validate_num_service_units units)
      asks (λ _. with_period r.allocation_period (assert_not_ended today))
      modify (
          save_request (
            savio (record r {
              review = record r.review { status = approved_scheduled };
              approval_time = some now;
            })))
