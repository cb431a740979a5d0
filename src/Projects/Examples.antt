-- ===== src/Projects/Examples.antt =====
-- The theorems on requests for new projects at a project with a compute allocation.
use coldfront.Base.{
  ◌≡◌, refl, true, false, none, some, [], ◌∷◌, ok, err, is_ok, Exception, value_error, ◌⊎◌,
}
use coldfront.Base.Int.{pos, ◌+ℤ◌}
use coldfront.Units.Rows.{save_user_with_usage, save_with_usage}
use coldfront.Units.Setters.{set_project_user_allocation_value}
use coldfront.Units.Service.{set_allocation_user_attribute_value}
use coldfront.Access.{request_access}
use coldfront.Members.{get_project_compute_allocation}
use coldfront.Storage.Directory.{get_or_create_active_allocation_user}
use coldfront.Storage.Members.{
  add_project_user_to_faculty_storage_allocation, add_user_to_directory,
}
use coldfront.Accounting.{get_accounting_allocation_objects}
use coldfront.Renewals.{validate_num_service_units, assert_started, assert_not_ended}
use coldfront.Renewals.Processing.{activate_project}
use coldfront.Newcomers.Create.{create_project_users}
use coldfront.Orm.Memory.{in_memory}
use coldfront.Allowance.{brc_fca, has_infinite_service_units}
use coldfront.AllowanceInterface.{get_project_compute_resource_name, code_from_name}
use coldfront.Tables.{Project, Allocation, ProjectStatus}
use coldfront.Jobs.Sample.{db, savio as site, demo}
use coldfront.Requests.Steps.{Step, pending, under_review}
use coldfront.World.{Profile, RenewalRequest, RenewalStatus}
use coldfront.Newcomers.{Settings, run_new_user, request_cluster_access}
use coldfront.Projects.{SavioProject, VectorProject, ProjectWorld, savio, vector, run_denial}
use coldfront.Projects.Processing.{
  run_processing, update_savio_allocation, update_vector_allocation,
}
use coldfront.Projects.Denied.{run_denial-mistaken}
use coldfront.Projects.Processed.{Processed, run_processing-Outcome}

abbrev settings : Settings
settings = record { savio_project = "co_savio"; path = λ s. s; basename = λ v. ""; strip = λ s. s }

abbrev step : Step
step = record { status = pending; justification = ""; timestamp = "" }

abbrev asked : SavioProject
asked = record {
  pk = 5;
  requester = 8;
  pi = 3;
  project = demo;
  allocation_period = none;
  billing_activity = none;
  approval_time = none;
  completion_time = none;
  review = record {
    computing_allowance = brc_fca;
    pool = true;
    status = under_review;
    state = record {
      eligibility = step;
      readiness = step;
      memorandum_signed = none;
      other = record { justification = ""; timestamp = "" };
    };
  };
}

abbrev faraday : VectorProject
faraday = record {
  pk = 5;
  requester = 8;
  pi = 9;
  project = record { pk = 7; name = "vector_demo"; status = ProjectStatus.new };
  status = under_review;
}

abbrev renewal : RenewalRequest
renewal = record {
  pk = 1;
  requester = 8;
  pi = 3;
  computing_allowance = brc_fca;
  allocation_period = record { name = "AY"; start_date = 0; end_date = 365 };
  status = RenewalStatus.under_review;
  pre_project = demo;
  post_project = demo;
  new_project_request = some 5;
  num_service_units = pos 0;
  other = record { justification = ""; timestamp = "" };
  approval_time = none;
  completion_time = none;
}

abbrev profile : Profile
profile = record {
  user = 3;
  cluster_uid = none;
  is_pi = false;
  host_user = none;
  billing_activity = none;
}

abbrev world : ProjectWorld
world = record {
  world = record {
    db = db;
    users = [];
    profiles = profile ∷ [];
    addition_requests = [];
    access_requests = [];
    removal_requests = [];
    renewal_requests = renewal ∷ [];
    join_requests = [];
    emails = [];
    billing_activities = [];
  };
  savio_requests = asked ∷ [];
  vector_requests = faraday ∷ [];
}

run_denial-mistaken_example :
    run_denial in_memory 40 4 (vector faraday) world ≡ (err value_error, world)
run_denial-mistaken_example =
    run_denial-mistaken in_memory 40 4 faraday asked renewal world refl refl refl

run_processing-Outcome_example :
    ((x : Project × Allocation) × ((run_processing in_memory 40 4 site settings
          (savio asked)
          (pos 500)
          world).0
        ≡ ok x)
      × Processed in_memory 40 4 site settings
          (savio asked)
          (pos 500)
          (run_processing in_memory 40 4 site settings (savio asked) (pos 500) world).1)
    ⊎ ((e : Exception) × (run_processing in_memory 40 4 site settings (savio asked) (pos 500) world
          ≡ (err e, world)))
run_processing-Outcome_example =
    run_processing-Outcome in_memory 40 4 site settings (savio asked) (pos 500) world refl

-- There the processing succeeds.
processed :
    is_ok (run_processing in_memory 40 4 site settings (savio asked) (pos 500) world).0 ≡ true
unfolding run_processing update_savio_allocation update_vector_allocation activate_project
    create_project_users run_new_user get_project_compute_allocation
    get_project_compute_resource_name code_from_name request_access
    set_allocation_user_attribute_value save_user_with_usage save_with_usage
    get_or_create_active_allocation_user add_project_user_to_faculty_storage_allocation
    add_user_to_directory request_cluster_access set_project_user_allocation_value
    validate_num_service_units assert_started assert_not_ended has_infinite_service_units ◌+ℤ◌
    get_accounting_allocation_objects
processed = refl
