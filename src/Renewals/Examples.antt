-- ===== src/Renewals/Examples.antt =====
-- The theorems on renewals at a request for the project of one member, which has 1000 units.
use coldfront.Base.{
  ◌≡◌, refl, ◌⊎◌, inl, inr, true, false, none, some, [], ◌∷◌, ok, is_ok, err, Exception,
  value_error,
}
use coldfront.Base.Int.{pos, ◌+ℤ◌}
use coldfront.Orm.Memory.{in_memory}
use coldfront.Orm.Keys.{Keyed}
use coldfront.Allowance.{brc_fca}
use coldfront.AllowanceInterface.{get_project_compute_resource_name, code_from_name}
use coldfront.Tables.{Allocation, AllocationAttribute, ProjectStatus}
use coldfront.Accounting.{ProjectObjects, get_project_objects, get_accounting_allocation_objects}
use coldfront.Jobs.Sample.{savio, demo, compute, units, usage, db}
use coldfront.World.{World, Profile, Period, RenewalRequest, RenewalStatus}
use coldfront.Units.Service.{in_bounds}
use coldfront.Units.Account.{account}
use coldfront.Renewals.{
  assert_started, assert_not_ended, validate_num_service_units, approve_renewal, complete_request,
  get_pooling_preference_case,
}
use coldfront.Renewals.Processing.{
  can_process, update_allocation, upgrade_pi_user, activate_project,
  update_existing_user_allocations, update_pre_projects_of_future_period_requests,
  process_by_preference,
}
use coldfront.Renewals.Run.{run_renewal, Renewed, run_renewal-Outcome}
use coldfront.Newcomers.{Settings, run_new_user, request_cluster_access}
use coldfront.Newcomers.Create.{create_project_users}
use coldfront.Units.Rows.{save_user_with_usage, save_with_usage}
use coldfront.Units.Setters.{set_project_user_allocation_value}
use coldfront.Units.Service.{set_allocation_user_attribute_value}
use coldfront.Access.{request_access}
use coldfront.Members.{get_project_compute_allocation}
use coldfront.Storage.Directory.{get_or_create_active_allocation_user}
use coldfront.Storage.Members.{
  for_project, get_directory_name_for_project, add_project_user_to_faculty_storage_allocation,
  add_user_to_directory,
}
use coldfront.Renewals.Increase.{active, update_allocation-renewed}
use coldfront.Renewals.Statuses.{
  Consistent, Step, Reach, approve, process, here, then_step, Reach-Consistent, Reach-final,
}

abbrev year : Period
year = record { name = "AY"; start_date = 100; end_date = 465 }

abbrev asked : RenewalRequest
asked = record {
  pk = 1;
  requester = 3;
  pi = 3;
  computing_allowance = brc_fca;
  allocation_period = year;
  status = RenewalStatus.under_review;
  pre_project = demo;
  post_project = demo;
  new_project_request = none;
  num_service_units = pos 0;
  other = record { justification = ""; timestamp = "" };
  approval_time = none;
  completion_time = none;
}

abbrev granted : RenewalRequest
granted = record asked { status = RenewalStatus.approved; approval_time = some 50 }

abbrev done : RenewalRequest
done = record granted {
  status = RenewalStatus.complete;
  num_service_units = pos 30000;
  completion_time = some 60;
}

abbrev world : World
world = record {
  db = db;
  users = [];
  profiles = [];
  addition_requests = [];
  access_requests = [];
  removal_requests = [];
  renewal_requests = asked ∷ [];
  join_requests = [];
  emails = [];
  billing_activities = [];
}

abbrev objects : ProjectObjects
objects = record { allocation = compute; attribute = units; usage = usage 10 }

found_objects : get_project_objects in_memory savio demo false db ≡ ok objects
unfolding get_project_objects get_project_compute_resource_name code_from_name
found_objects = refl

unique_attributes : Keyed (λ (x : AllocationAttribute). x.pk) db.attributes
unique_attributes t (inl e) = rw e refl
unique_attributes t (inr m) = absurd m

unique_allocations : Keyed (λ (x : Allocation). x.pk) db.allocations
unique_allocations t (inl e) = rw e refl
unique_allocations t (inr m) = absurd m

update_allocation-renewed_example :
    ((in_bounds (pos 100000 +ℤ pos 30000) ≡ true)
      × ((update_allocation in_memory 60 200 savio granted (pos 30000) ProjectStatus.active db).0
          ≡ ok (
            active in_memory savio 60 200 granted (pos 30000) ProjectStatus.active db objects,
            pos 100000 +ℤ pos 30000,
          ))
      × (account in_memory savio demo
            (update_allocation in_memory 60 200 savio granted (pos 30000) ProjectStatus.active db).1
          ≡ some (record { allowance = pos 100000 +ℤ pos 30000; usage = pos 500 })))
    ⊎ ((in_bounds (pos 100000 +ℤ pos 30000) ≡ false)
        × ((update_allocation in_memory 60 200 savio granted (pos 30000) ProjectStatus.active db).0
            ≡ err value_error))
update_allocation-renewed_example =
    update_allocation-renewed in_memory savio 60 200 granted (pos 30000) ProjectStatus.active db
      objects (pos 100000) unique_attributes unique_allocations found_objects refl

approved_at_50 : Step in_memory asked granted
unfolding approve_renewal assert_not_ended validate_num_service_units
approved_at_50 = approve 50 150 (pos 30000) asked granted world refl

completed_at_60 : Step in_memory granted done
unfolding can_process complete_request assert_started assert_not_ended validate_num_service_units
completed_at_60 = process 60 200 (pos 30000) granted done world world refl refl

both_steps : Reach in_memory asked done
both_steps = then_step granted done (then_step asked granted here approved_at_50) completed_at_60

Reach-Consistent_example : Consistent done
Reach-Consistent_example = Reach-Consistent in_memory asked done both_steps refl

Reach-final_example : done ≡ done
Reach-final_example = Reach-final in_memory done done here refl refl

abbrev settings : Settings
settings = record { savio_project = "co_savio"; path = λ s. s; basename = λ v. ""; strip = λ s. s }

abbrev pi_profile : Profile
pi_profile = record {
  user = 3;
  cluster_uid = none;
  is_pi = false;
  host_user = none;
  billing_activity = none;
}

abbrev with_profile : World
with_profile = record world { profiles = pi_profile ∷ [] }

-- Somebody else asks for the renewal of the PI.
abbrev for_pi : RenewalRequest
for_pi = record granted { requester = 8 }

run_renewal-Outcome_example :
    ((x : RenewalRequest × Allocation) × ((run_renewal in_memory 60 200 savio settings for_pi
          (pos 30000)
          with_profile).0
        ≡ ok x)
      × Renewed in_memory 60 200 savio settings for_pi
          (pos 30000)
          (run_renewal in_memory 60 200 savio settings for_pi (pos 30000) with_profile).1)
    ⊎ ((e : Exception) × (run_renewal in_memory 60 200 savio settings for_pi
            (pos 30000)
            with_profile
          ≡ (err e, with_profile)))
run_renewal-Outcome_example =
    run_renewal-Outcome in_memory 60 200 savio settings for_pi (pos 30000) with_profile refl

-- There it succeeds.
renewed :
    is_ok (run_renewal in_memory 60 200 savio settings for_pi (pos 30000) with_profile).0 ≡ true
unfolding run_renewal can_process upgrade_pi_user update_allocation update_existing_user_allocations
    update_pre_projects_of_future_period_requests process_by_preference get_pooling_preference_case
    complete_request activate_project create_project_users run_new_user
    get_project_compute_allocation get_project_compute_resource_name code_from_name request_access
    set_allocation_user_attribute_value save_user_with_usage save_with_usage
    get_or_create_active_allocation_user add_project_user_to_faculty_storage_allocation
    add_user_to_directory request_cluster_access set_project_user_allocation_value
    validate_num_service_units assert_started assert_not_ended ◌+ℤ◌
    get_accounting_allocation_objects for_project get_directory_name_for_project
renewed = refl
