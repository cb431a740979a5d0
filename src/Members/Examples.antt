-- ===== src/Members/Examples.antt =====
-- The theorems on removals at a project with a manager and a user.
use coldfront.Base.{
  ◌≤◌, ◌≡◌, refl, ok, ◌⊎◌, inl, inr, true, false, some, [], ◌∷◌, count, Member, Exception, err,
  type_error, arith,
}
use coldfront.Orm.Memory.{in_memory}
use coldfront.Orm.Keys.{Keyed}
use coldfront.AllowanceInterface.{get_project_compute_resource_name, code_from_name}
use coldfront.Tables.{Db, ProjectUser, MemberStatus, Role}
use coldfront.Accounting.{get_accounting_allocation_objects}
use coldfront.Jobs.Sample.{db as sample_db}
use coldfront.Jobs.Sample.{savio, demo}
use coldfront.World.{World, RemovalRequest, RemovalStatus}
use coldfront.Units.Rows.{save_user_with_usage}
use coldfront.Storage.Members.{remove_project_user_from_faculty_storage_allocation}
use coldfront.Members.{
  is_active_manager, request_removal, process_removal, get_project_compute_allocation,
  no_cluster_account_status, emails_not_sent,
}
use coldfront.Members.Managers.{request_removal-manager}
use coldfront.Members.Removed.{Returned, run, process_removal-no_objects}

abbrev someone : ProjectUser
someone = record { pk = 2; project = 1; user = 3; role = Role.user; status = MemberStatus.active }

abbrev boss : ProjectUser
boss = record { pk = 5; project = 1; user = 6; role = Role.manager; status = MemberStatus.active }

abbrev db : Db
db = record sample_db { project_users = someone ∷ boss ∷ [] }

abbrev world : World
world = record {
  db = db;
  users = [];
  profiles = [];
  addition_requests = [];
  access_requests = [];
  removal_requests = [];
  renewal_requests = [];
  join_requests = [];
  emails = [];
  billing_activities = [];
}

abbrev finished : RemovalRequest
finished = record {
  pk = 1;
  project_user = 2;
  requester = 6;
  reason = "";
  status = some RemovalStatus.complete;
}

keyed : Keyed (λ (x : ProjectUser). x.pk) db.project_users
keyed t (inl e) = rw e refl
keyed t (inr (inl e)) = rw e refl
keyed t (inr (inr m)) = absurd m

request_removal-manager_example :
    1 ≤ count (is_active_manager 1) (request_removal in_memory 3 3 1 "" world).1.db.project_users
request_removal-manager_example =
    request_removal-manager in_memory 3 3 1 "" world 1 keyed (omega arith)

-- The only manager cannot leave, and a user can.
leaving :
    ((request_removal in_memory 6 6 1 "" world).1 ≡ world)
    × (count (is_active_manager 1) (request_removal in_memory 3 3 1 "" world).1.db.project_users
        ≡ 1)
unfolding request_removal
leaving = (refl, refl)

process_removal-no_objects_example :
    ((x : Exception) × (run in_memory savio (λ s. s) (λ v. "") false (ok 0) finished demo someone db
        ≡ (err x, db)))
    ⊎ (Returned false
          (run in_memory savio (λ s. s) (λ v. "") false (ok 0) finished demo someone db).0
        × Member
            (record someone { status = MemberStatus.removed })
            (run in_memory savio
              (λ s. s)
              (λ v. "")
              false
              (ok 0)
              finished
              demo
              someone
              db).1.project_users
        × (e : Exception) × (get_accounting_allocation_objects in_memory savio demo 3 true
              (run in_memory savio (λ s. s) (λ v. "") false (ok 0) finished demo someone db).1
            ≡ err e))
process_removal-no_objects_example =
    process_removal-no_objects in_memory savio (λ s. s) (λ v. "") false (ok 0) finished demo someone
      db keyed refl

-- There the user is removed and a TypeError raised; with emails on, it succeeds with warnings that
-- the user has no account status and that two mails failed.
processed :
    ((process_removal in_memory savio (λ s. s) (λ v. "") false (ok 0) finished demo someone db).0
      ≡ err type_error)
    × ((process_removal in_memory savio (λ s. s) (λ v. "") true (ok 2) finished demo someone db).0
        ≡ ok (no_cluster_account_status ∷ emails_not_sent 2 ∷ []))
unfolding process_removal get_project_compute_allocation get_project_compute_resource_name
    code_from_name save_user_with_usage remove_project_user_from_faculty_storage_allocation
processed = (refl, refl)
