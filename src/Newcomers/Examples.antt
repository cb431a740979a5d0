-- ===== src/Newcomers/Examples.antt =====
-- The theorems on new users of projects at a project of one member.
use coldfront.Base.{ℕ, ◌≡◌, ◌≢◌, refl, [], ok, err, does_not_exist, Model}
use coldfront.Orm.Memory.{in_memory}
use coldfront.AllowanceInterface.{get_project_compute_resource_name, code_from_name}
use coldfront.Tables.{ProjectUser, Role, MemberStatus, Project, ProjectStatus}
use coldfront.Jobs.Sample.{db, savio, demo}
use coldfront.World.{World}
use coldfront.Units.Rows.{save_user_with_usage}
use coldfront.Units.Service.{set_allocation_user_attribute_value}
use coldfront.Access.{request_access}
use coldfront.Members.{get_project_compute_allocation}
use coldfront.Storage.Directory.{get_or_create_active_allocation_user}
use coldfront.Storage.Members.{
  add_project_user_to_faculty_storage_allocation, add_user_to_directory,
}
use coldfront.Newcomers.{Settings, added, run_new_user, request_cluster_access}
use coldfront.Newcomers.Create.{allocation_renewal_request, create_project_users}
use coldfront.Newcomers.Enrolled.{IsActiveAs, is_lead, create_project_users-Led}
use coldfront.Newcomers.Fuel.{run_new_user-enough_fuel}
use coldfront.Newcomers.Rollback.{run_new_user-rollback}
use coldfront.Members.{is_pi}

abbrev settings : Settings
settings = record { savio_project = "co_savio"; path = λ s. s; basename = λ v. ""; strip = λ s. s }

abbrev world : World
world = record {
  db = db;
  users = [];
  profiles = [];
  addition_requests = [];
  access_requests = [];
  removal_requests = [];
  renewal_requests = [];
  join_requests = [];
  emails = [];
  billing_activities = [];
}

abbrev someone : ProjectUser
someone = record { pk = 2; project = 1; user = 3; role = Role.user; status = MemberStatus.active }

abbrev vector : Project
vector = record { pk = 9; name = "vector_demo"; status = ProjectStatus.active }

run_new_user-enough_fuel_example :
    run_new_user in_memory savio settings 5 7 vector someone added
    ≡ run_new_user in_memory savio settings 5 2 vector someone added
run_new_user-enough_fuel_example =
    run_new_user-enough_fuel in_memory savio settings 5 5 vector someone added refl

abbrev requester : ℕ
requester = 8

abbrev pi : ℕ
pi = 3

-- The project of this name has no allocation.
unallocated :
    (run_new_user in_memory savio settings 5 2 vector someone added world).0
    ≡ err (does_not_exist Model.allocation)
unfolding run_new_user get_project_compute_allocation get_project_compute_resource_name
    code_from_name
unallocated = refl

created :
    (create_project_users in_memory savio settings 5 2 demo requester pi allocation_renewal_request
      world).0
    ≡ ok tt
unfolding create_project_users run_new_user get_project_compute_allocation
    get_project_compute_resource_name code_from_name request_access
    set_allocation_user_attribute_value save_user_with_usage get_or_create_active_allocation_user
    add_project_user_to_faculty_storage_allocation add_user_to_directory request_cluster_access
created = refl

create_project_users-Led_example :
    (requester ≢ pi
      → IsActiveAs 1 requester is_lead
          (create_project_users in_memory savio settings 5 2 demo requester pi
            allocation_renewal_request world).1)
    × IsActiveAs 1 pi is_pi
        (create_project_users in_memory savio settings 5 2 demo requester pi
          allocation_renewal_request world).1
create_project_users-Led_example =
    create_project_users-Led in_memory savio settings 5 demo requester pi allocation_renewal_request
      2 world refl created

run_new_user-rollback_example :
    run_new_user in_memory savio settings 5 2 vector someone added world
    ≡ (err (does_not_exist Model.allocation), world)
run_new_user-rollback_example =
    run_new_user-rollback in_memory savio settings 5 2 vector someone added world
      (does_not_exist Model.allocation) unallocated
