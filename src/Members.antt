-- ===== src/Members.antt =====
-- Removing users from projects: the runners of core/project/utils_/removal_utils.py, and
-- `get_project_compute_allocation` of core/allocation/utils.py. Messages are what was found wrong.
-- Emails change no table: those of a request are left out, and of those of its processing there is
-- what sending them returns, on which the runner depends.
pub mod Managers
pub mod Removed
mod Examples
use coldfront.Base.{
  ℕ, ◌==◌, ltb, String, Bool, true, false, not, ◌&&◌, ◌||◌, Option, none, some, List, [], ◌∷◌, ◌++◌,
  any, is_nonempty, length, guard, Result, ok, err, and_then, assertion_error, type_error,
  does_not_exist, Model, allocation, project, project_user, allocation_user_attribute,
  removal_request, Action, asks, gets, pure, raise, modify, atomic, ◌>>=◌, ◌>>◌, if◌then◌else◌,
}
use coldfront.Orm.{Orm}
use coldfront.AllowanceInterface.{Site, get_project_compute_resource_name}
use coldfront.Tables.{
  Db, Project, ProjectUser, Allocation, AllocationUser, AllocationUserStatus,
  AllocationUserAttribute, AttributeType, MemberStatus, Role, has_type, is_active_member, text,
}
use coldfront.Accounting.{is_compute_allocation}
use coldfront.World.{World, RemovalRequest, RemovalStatus, on_db}
use coldfront.Storage.Members.{remove_project_user_from_faculty_storage_allocation}
use coldfront.Units.Rows.{save_user_with_usage}
use coldfront.Tables.{Value}

abbrev pub is_pi : Role → Bool
is_pi Role.principal_investigator = true
is_pi _ = false

abbrev pub is_manager : Role → Bool
is_manager Role.manager = true
is_manager _ = false

-- Pending or processing.
abbrev pub is_open : Option RemovalStatus → Bool
is_open (some RemovalStatus.pending) = true
is_open (some RemovalStatus.processing) = true
is_open _ = false

abbrev pub is_complete : Option RemovalStatus → Bool
is_complete (some RemovalStatus.complete) = true
is_complete _ = false

-- Why a removal cannot be requested.
pub data RemovalError : Type 0 where
  already_requested pi_leaving only_manager : RemovalError

-- Why a removal was processed in part.
pub data RemovalWarning : Type 0 where
  no_allocation_user no_cluster_account_status : RemovalWarning
  emails_not_sent : ℕ → RemovalWarning

-- `_send_emails`: None where EMAIL_ENABLED is off, and else what the sending comes to, the number of
-- the mails that failed.
abbrev pub send_emails : Bool → Result ℕ → Result (Option ℕ)
send_emails false sent = ok none
send_emails true (ok failures) = ok (some failures)
send_emails true (err e) = err e

-- `_send_emails_safe`: None is compared with 0 outside the `try`.
abbrev pub warn_of_failures : Result (Option ℕ) → Result (List RemovalWarning)
warn_of_failures (err e) = ok []
warn_of_failures (ok none) = err type_error
warn_of_failures (ok (some n)) = ok (if ltb 0 n then emails_not_sent n ∷ [] else [])

abbrev pub send_emails_safe : Bool → Result ℕ → Result (List RemovalWarning)
send_emails_safe email_enabled sent = warn_of_failures (send_emails email_enabled sent)

abbrev when_wrong : Bool → RemovalError → List RemovalError
when_wrong test e = if test then e ∷ [] else []

-- The row with the least key: `first()` of rows without an order.
abbrev pub first : {R : Type 0} → (R → ℕ) → List R → Option R
first pk [] = none
first pk (r ∷ rs) = elim (first pk rs) [
  | none ↦ some r
  | some s ↦ if ltb (pk s) (pk r) then some s else some r
]

abbrev pub is_member : ℕ → ℕ → ProjectUser → Bool
is_member p user m = m.user == user && m.project == p

abbrev pub is_active_manager : ℕ → ProjectUser → Bool
is_active_manager p m = m.project == p && (is_manager m.role && is_active_member m.status)

module _ (orm : Orm) where
  abbrev has_open_request : ℕ → ℕ → World → Bool
  has_open_request p user world = is_nonempty (
      orm.filter
        (λ r.
          is_open r.status
          && any (λ m. m.pk == r.project_user && is_member p user m) world.db.project_users)
        world.removal_requests)

  abbrev is_pi_member : ℕ → ℕ → Db → Bool
  is_pi_member p user db =
      is_nonempty (orm.filter (λ m. is_member p user m && is_pi m.role) db.project_users)

  abbrev is_manager_member : ℕ → ℕ → Db → Bool
  is_manager_member p user db =
      is_nonempty (orm.filter (λ m. is_member p user m && is_manager m.role) db.project_users)

  abbrev pub is_only_manager : ℕ → ℕ → Db → Bool
  is_only_manager p user db =
      is_manager_member p user db && length (orm.filter (is_active_manager p) db.project_users) == 1

  abbrev pub removal_errors : ℕ → ℕ → World → List RemovalError
  removal_errors p user world =
      when_wrong (has_open_request p user world) already_requested
      ++ (when_wrong (is_pi_member p user world.db) pi_leaving
          ++ when_wrong (is_only_manager p user world.db) only_manager)

  abbrev pub find_member : ℕ → ℕ → World → Result ProjectUser
  find_member p user world = orm.get project_user (is_member p user) world.db.project_users

  abbrev save_member : ProjectUser → Db → Db
  save_member m db = record db { project_users = orm.save (λ x. x.pk) m db.project_users }

  abbrev save_request : RemovalRequest → World → World
  save_request r world = record world {
    removal_requests = orm.save (λ x. x.pk) r world.removal_requests;
  }

  -- `get_or_create`
  abbrev new_request : ℕ → ℕ → World → RemovalRequest
  new_request member requester world = record {
    pk = orm.next_key (λ (x : RemovalRequest). x.pk) world.removal_requests;
    project_user = member;
    requester = requester;
    reason = "";
    status = none;
  }

  abbrev pub or_create : ℕ → ℕ → Result RemovalRequest → Action World RemovalRequest
  or_create member requester (ok r) world = (ok r, world)
  or_create member requester (err (does_not_exist Model.removal_request)) world =
      let r = new_request member requester world in (ok r, save_request r world)
  or_create member requester (err e) world = (err e, world)

  abbrev pub get_or_create_request : ℕ → ℕ → Action World RemovalRequest
  get_or_create_request member requester world =
      or_create member requester
        (orm.get removal_request (λ r. r.project_user == member && r.requester == requester)
          world.removal_requests)
        world

  abbrev pub make_request : ℕ → ℕ → ℕ → String → Action World RemovalRequest
  make_request requester user p reason = do
    m ← asks (find_member p user)
    r ← get_or_create_request m.pk requester
    modify (save_request (record r { reason = reason; status = some RemovalStatus.pending }))
    n ← asks (find_member p user)
    on_db (modify (save_member (record n { status = MemberStatus.pending_remove })))
    pure (record r { reason = reason; status = some RemovalStatus.pending })

  abbrev pub or_refuse :
      ℕ
      → ℕ
      → ℕ
      → String
      → List RemovalError
      → Action World (Option RemovalRequest × List RemovalError)
  or_refuse requester user p reason [] = do
    r ← make_request requester user p reason
    pure (some r, [])
  or_refuse requester user p reason (e ∷ es) = pure (none, e ∷ es)

  -- `ProjectRemovalRequestRunner(requester, user, project, reason).run()`, with the errors.
  unfoldable pub request_removal :
      ℕ → ℕ → ℕ → String → Action World (Option RemovalRequest × List RemovalError)
  request_removal requester user p reason world =
      or_refuse requester user p reason (removal_errors p user world) world

  module _ (site : Site) where
    unfoldable pub get_project_compute_allocation : Project → Db → Result Allocation
    get_project_compute_allocation p db =
        and_then (get_project_compute_resource_name site p.name)
          λ name. orm.get allocation (is_compute_allocation p name false) db.allocations

    abbrev is_account_status : ℕ → AllocationUserAttribute → Bool
    is_account_status k t =
        t.allocation_user == k && has_type t.attribute_type AttributeType.cluster_account_status

    abbrev deny_status : Result AllocationUserAttribute → Action Db (List RemovalWarning)
    deny_status (ok t) = do
      modify (save_user_with_usage orm (record t { value = text "Denied" }))
      pure []
    deny_status (err (does_not_exist m)) = pure (no_cluster_account_status ∷ [])
    deny_status (err e) = raise e

    abbrev save_user : AllocationUser → Db → Db
    save_user u db = record db { allocation_users = orm.save (λ x. x.pk) u db.allocation_users }

    abbrev remove_allocation_user : Option AllocationUser → Action Db (List RemovalWarning)
    remove_allocation_user none = pure (no_allocation_user ∷ [])
    remove_allocation_user (some u) = do
      modify (save_user (record u { status = AllocationUserStatus.removed }))
      t ← gets (λ db. orm.get allocation_user_attribute (is_account_status u.pk) db.user_attributes)
      deny_status t

    abbrev pub remove_user : Allocation → ProjectUser → Action Db (List RemovalWarning)
    remove_user a m = do
      modify (save_member (record m { status = MemberStatus.removed }))
      u ← gets (λ db.
          first (λ (x : AllocationUser). x.pk)
            (orm.filter (λ u. u.allocation == a.pk && u.user == m.user) db.allocation_users))
      remove_allocation_user u

    -- `ProjectRemovalRequestProcessingRunner(request).run()`, with the project user and the project
    -- of the request, and with the handler of the signal that it sends, whose failures are caught.
    -- `sent` is what sending the mails comes to.
    unfoldable pub process_removal :
        (String → String)
        → (Value → String)
        → Bool
        → Result ℕ
        → RemovalRequest
        → Project
        → ProjectUser
        → Action Db (List RemovalWarning)
    process_removal path basename email_enabled sent r p m = do
      asks (λ _. guard (is_complete r.status) assertion_error)
      a ← asks (get_project_compute_allocation p)
      warnings ← atomic (remove_user a m)
      remove_project_user_from_faculty_storage_allocation orm path basename p m
      failed ← asks (λ _. send_emails_safe email_enabled sent)
      pure (warnings ++ failed)
