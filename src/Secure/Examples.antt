-- ===== src/Secure/Examples.antt =====
-- The theorems on secure directories at a project that asks for some.
use coldfront.Base.{
  ℕ, ◌≡◌, ◌≢◌, refl, ◌⊎◌, inl, inr, String, Bool, true, false, none, some, List, [], ◌∷◌, Member,
  ok, err, Exception, truthy, arith,
}
use Prim.Native.String.{◌++◌ as str_append}
use coldfront.Orm.Memory.{in_memory}
use coldfront.Allowance.{brc_co, brc_fca, brc_ica}
use coldfront.AllowanceInterface.{Site, AllowanceResource, allowance_from_project, code_from_name}
use coldfront.Tables.{Allocation, AllocationStatus}
use coldfront.Requests.Steps.{StepStatus}
use coldfront.Jobs.Sample.{savio, demo}
use coldfront.Jobs.Sample.{db as sample_db}
use coldfront.Secure.{
  SecureWorld, SecureDirRequest, SecureDirStatus, DenialReason, initial_state, denial_reason,
  secure_dir_request_state_status,
}
use coldfront.Secure.Users
use coldfront.Secure.Directories
use coldfront.Secure.Directories.{Paths}
use coldfront.Secure.Reviews.{run_approval, review_deny}
use coldfront.Secure.Operations.{Operation, AllConsistent, run_all}
use coldfront.Secure.Histories.{run_all-AllConsistent, run_all-denial_reason}
use coldfront.Secure.Once.{request_directory-once}
use coldfront.Secure.OneOpen.{OneOpen}
use coldfront.Secure.Views.{View, view_all, view_all-OneOpen}

abbrev allowance : String → String → AllowanceResource
allowance name code = record {
  name = name;
  code = some code;
  name_long = none;
  name_short = none;
  service_units = none;
  timed_service_units = [];
}

abbrev site : Site
site = record savio {
  allowances = allowance brc_co "co_" ∷ allowance brc_fca "fc_" ∷ allowance brc_ica "ic_" ∷ [];
}

abbrev paths : Paths
paths = record { groups_path = "/groups/"; scratch_path = "/scratch/"; join = str_append }

abbrev iso : ℕ → String
iso t = "t"

abbrev asked : SecureDirRequest
asked = record {
  pk = 1;
  requester = 3;
  directory_name = "pl1_demo";
  department = "Physics";
  rdm_consultation = none;
  project = demo;
  status = SecureDirStatus.under_review;
  completion_time = none;
  state = initial_state;
}

abbrev empty : SecureWorld
empty = record {
  db = sample_db;
  users = record { pk = 3; username = "user"; email = "" } ∷ [];
  requests = [];
  add_requests = [];
  remove_requests = [];
}

abbrev world : SecureWorld
world = record empty { requests = asked ∷ [] }

written : (now : ℕ) → truthy (iso now) ≡ true
written now = refl

consistent : AllConsistent world
unfolding secure_dir_request_state_status
consistent r (inl e) = rw e (inr refl)
consistent r (inr m) = absurd m

abbrev reviews : List Operation
reviews =
    Operation.rdm 5 1 StepStatus.approved "" none
    ∷ Operation.mou 6 1 StepStatus.approved ""
    ∷ Operation.setup 7 1 StepStatus.complete "" ""
    ∷ Operation.approve 8 1 1
    ∷ []

run_all-AllConsistent_example : AllConsistent (run_all in_memory site paths iso reviews world)
run_all-AllConsistent_example =
    run_all-AllConsistent in_memory site paths iso written reviews world consistent

abbrev refused : SecureDirRequest
refused = record asked {
  status = SecureDirStatus.denied;
  state = record initial_state { other = record { justification = "full"; timestamp = "t" } };
}

refused_there :
    Member refused
      (run_all in_memory site paths iso (Operation.deny 5 1 "full" ∷ []) world).requests
unfolding run_all review_deny
refused_there = inl refl

run_all-denial_reason_example : (d : DenialReason) × (denial_reason refused ≡ ok d)
run_all-denial_reason_example =
    run_all-denial_reason in_memory site paths iso written (Operation.deny 5 1 "full" ∷ []) world
      refused consistent refused_there refl

request_directory-once_example :
    (((Directories.request_directory in_memory site demo 3 "pl1_demo" "Physics" none empty).0
        ≡ ok tt)
      × (Directories.is_project_eligible_for_secure_dirs in_memory site demo empty ≡ ok true)
      × (Directories.is_project_eligible_for_secure_dirs in_memory site demo
            (Directories.request_directory in_memory site demo 3 "pl1_demo" "Physics" none empty).1
          ≢ ok true)
      × (Directories.is_secure_directory_name_suffix_available in_memory
            (λ v. "")
            (Directories.get_directory_name_suffix "pl1_demo")
            none
            (Directories.request_directory in_memory site demo 3 "pl1_demo" "Physics" none empty).1
          ≢ ok true))
    ⊎ ((e : Exception) × (Directories.request_directory in_memory site demo 3 "pl1_demo" "Physics"
            none empty
          ≡ (err e, empty)))
request_directory-once_example =
    request_directory-once in_memory site demo 3 "pl1_demo" "Physics" none empty (λ v. "")

-- There it is done.
eligible : Directories.is_project_eligible_for_secure_dirs in_memory site demo empty ≡ ok true
unfolding Directories.is_project_eligible_for_secure_dirs allowance_from_project code_from_name
eligible = refl

abbrev approval : Bool × SecureWorld
approval = run_approval in_memory paths 8 1 asked world

approved : approval.0 ≡ true
unfolding run_approval Directories.create_secure_directory Users.request_user Users.get_path
    Users.has_cluster_access
approved = refl

-- An allocation to a resource of secure directories that has expired.
abbrev expired : Allocation
expired = record {
  pk = 9;
  project = 1;
  resources = "Groups P2/P3 Directory" ∷ [];
  status = AllocationStatus.expired;
  start_date = some 0;
  end_date = some 1;
}

abbrev after_expiry : SecureWorld
after_expiry = record empty {
  db = record sample_db { allocations = expired ∷ sample_db.allocations };
}

-- A project with it can ask for secure directories, and is never granted them.
never_granted :
    (Directories.is_project_eligible_for_secure_dirs in_memory site demo after_expiry ≡ ok true)
    × (run_approval in_memory paths 8 1 asked after_expiry ≡ (false, after_expiry))
unfolding Directories.is_project_eligible_for_secure_dirs allowance_from_project code_from_name
    run_approval Directories.create_secure_directory
never_granted = (refl, refl)

none_open : OneOpen empty
none_open a user = (omega arith, λ h. refl)

abbrev directory : Allocation
directory = record expired { status = AllocationStatus.active }

abbrev visits : List View
visits =
    View.post true directory (λ u. true)
    ∷ View.update true 1 true
    ∷ View.complete true 1 true 9
    ∷ View.post false directory (λ u. true)
    ∷ []

view_all-OneOpen_example : OneOpen (view_all in_memory visits empty)
view_all-OneOpen_example = view_all-OneOpen in_memory visits empty (refl, tt) none_open
