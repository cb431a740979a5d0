-- ===== src/Secure/Users.antt =====
-- The users of a secure directory: `SecureDirectory` of
-- core/allocation/utils_/secure_dir_utils/__init__.py, `has_cluster_access` of
-- core/allocation/utils.py, the runners of user_management.py beside the first, and what the views of
-- core/allocation/views_/secure_dir_views/user_management/ do with the requests that they make. A set
-- of users is a list of their keys; mails, messages and redirects are left out.
use coldfront.Base.{
  ℕ, ◌==◌, String, Bool, true, false, not, ◌&&◌, ◌||◌, none, some, List, [], ◌∷◌, map, any, keep,
  is_nonempty, str_eq, Result, ok, err, does_not_exist, Model, allocation_attribute,
  allocation_user, Action, asks, pure, raise, modify, atomic, ◌>>=◌, ◌>>◌, if◌then◌else◌,
}
use coldfront.Orm.{Orm}
use coldfront.Tables.{
  Db, ProjectUser, Role, Allocation, AllocationAttribute, AllocationUser, AllocationUserStatus,
  AllocationUserAttribute, AttributeType, Value, text, has_type, is_active_member, is_active_user,
}
use coldfront.World.{User}
use coldfront.Secure.{ManageRequest, ManageStatus, SecureWorld}

abbrev pub contains : ℕ → List ℕ → Bool
contains k ks = any (λ j. j == k) ks

-- `discard` of each key.
abbrev pub discard : List ℕ → List ℕ → List ℕ
discard gone ks = keep (λ k. not (contains k gone)) ks

abbrev is_pi : Role → Bool
is_pi Role.principal_investigator = true
is_pi _ = false

abbrev is_manager : Role → Bool
is_manager Role.manager = true
is_manager _ = false

-- Pending or processing.
abbrev pub is_open : ManageStatus → Bool
is_open ManageStatus.pending = true
is_open ManageStatus.processing = true
is_open _ = false

abbrev pub is_open_for : ℕ → ManageRequest → Bool
is_open_for a r = r.allocation == a && is_open r.status

abbrev pub is_active_in : ℕ → AllocationUser → Bool
is_active_in a u = u.allocation == a && is_active_user u.status

abbrev pub is_text : String → Value → Bool
is_text s (text t) = str_eq t s
is_text s _ = false

-- The table of the requests to add a user, and of those to remove one.
abbrev pub table : Bool → SecureWorld → List ManageRequest
table true world = world.add_requests
table false world = world.remove_requests

abbrev pub put_table : Bool → List ManageRequest → SecureWorld → SecureWorld
put_table true rs world = record world { add_requests = rs }
put_table false rs world = record world { remove_requests = rs }

abbrev pub is_pending : ManageStatus → Bool
is_pending ManageStatus.pending = true
is_pending _ = false

abbrev pub is_processing : ManageStatus → Bool
is_processing ManageStatus.processing = true
is_processing _ = false

module _ (orm : Orm) where
  -- `Project.pis(active_only=True)` and `Project.managers(active_only=True)`, by their keys.
  abbrev pub active_pis : ℕ → Db → List ℕ
  active_pis p db =
      map (λ (m : ProjectUser). m.user)
        (orm.filter (λ m. m.project == p && (is_pi m.role && is_active_member m.status))
          db.project_users)

  abbrev active_managers : ℕ → Db → List ℕ
  active_managers p db =
      map (λ (m : ProjectUser). m.user)
        (orm.filter (λ m. m.project == p && (is_manager m.role && is_active_member m.status))
          db.project_users)

  -- A user attribute of the user's that says that the account is active.
  abbrev is_access_of : ℕ → Db → AllocationUserAttribute → Bool
  is_access_of user db t =
      any (λ (u : AllocationUser). u.pk == t.allocation_user && u.user == user) db.allocation_users
      && (has_type t.attribute_type AttributeType.cluster_account_status
          && is_text "Active" t.value)

  unfoldable pub has_cluster_access : ℕ → Db → Bool
  has_cluster_access user db = is_nonempty (orm.filter (is_access_of user db) db.user_attributes)

  abbrev pub users_with_open : Allocation → List ManageRequest → List ℕ
  users_with_open a rs = map (λ (r : ManageRequest). r.user) (orm.filter (is_open_for a.pk) rs)

  abbrev pub active_users : Allocation → Db → List ℕ
  active_users a db =
      map (λ (u : AllocationUser). u.user) (orm.filter (is_active_in a.pk) db.allocation_users)

  -- The users of the projects of the active PIs.
  abbrev pub candidates : Allocation → Db → List ℕ
  candidates a db =
      let pis = active_pis a.project db in
      let pi_project_pks =
        map (λ (m : ProjectUser). m.project)
          (orm.filter (λ m. contains m.user pis && (is_pi m.role && is_active_member m.status))
            db.project_users) in
      map (λ (m : ProjectUser). m.user)
        (orm.filter (λ m. contains m.project pi_project_pks && is_active_member m.status)
          db.project_users)

  abbrev pub addable : Allocation → SecureWorld → List ℕ
  addable a world = discard (users_with_open a world.remove_requests) (
      discard (users_with_open a world.add_requests) (
        discard (active_users a world.db)
          (keep (λ k. has_cluster_access k world.db) (candidates a world.db))))

  abbrev pub removable : Allocation → SecureWorld → List ℕ
  removable a world =
      discard (active_pis a.project world.db)
        (discard (users_with_open a world.remove_requests) (active_users a world.db))

  unfoldable pub get_addable_users : Allocation → SecureWorld → List User
  get_addable_users a world = orm.filter (λ (u : User). contains u.pk (addable a world)) world.users

  unfoldable pub get_removable_users : Allocation → SecureWorld → List User
  get_removable_users a world =
      orm.filter (λ (u : User). contains u.pk (removable a world)) world.users

  unfoldable pub user_can_manage : Allocation → ℕ → Bool → Db → Bool
  user_can_manage a user is_superuser db =
      is_superuser
      || (contains user (active_pis a.project db)
          || (contains user (active_managers a.project db)
              && is_nonempty
                  (orm.filter (λ u. u.user == user && is_active_in a.pk u) db.allocation_users)))

  abbrev is_path_of : ℕ → AllocationAttribute → Bool
  is_path_of a t =
      t.allocation == a && has_type t.attribute_type AttributeType.cluster_directory_access

  -- `SecureDirectory.get_path`
  unfoldable pub get_path : Allocation → Db → Result AllocationAttribute
  get_path a db = orm.get allocation_attribute (is_path_of a.pk) db.attributes

  abbrev pub new_request : ℕ → ℕ → Value → List ManageRequest → ManageRequest
  new_request a user path rs = record {
    pk = orm.next_key (λ (x : ManageRequest). x.pk) rs;
    user = user;
    allocation = a;
    directory = path;
    completion_time = none;
    status = ManageStatus.pending;
  }

  abbrev pub save_manage : ManageRequest → List ManageRequest → List ManageRequest
  save_manage r rs = orm.save (λ (x : ManageRequest). x.pk) r rs

  abbrev pub save_request : Bool → ManageRequest → SecureWorld → SecureWorld
  save_request add r world = put_table add (save_manage r (table add world)) world

  abbrev pub add_request :
      Bool → Allocation → ℕ → AllocationAttribute → Action SecureWorld (Unit {0})
  add_request add a user path =
      modify (λ w. save_request add (new_request a.pk user path.value (table add w)) w)

  -- `SecureDirectoryAddUserRequestRunner(directory, user).run()`, or that for removals.
  unfoldable pub request_user : Bool → Allocation → ℕ → Action SecureWorld (Unit {0})
  request_user add a user =
      atomic do path ← asks (λ w. get_path a w.db); add_request add a user path

  abbrev pub request_users : Bool → Allocation → List User → Action SecureWorld (Unit {0})
  request_users add a [] = pure tt
  request_users add a (u ∷ us) = request_user add a u.pk >> request_users add a us

  abbrev pub manageable : Bool → Allocation → SecureWorld → List User
  manageable true a world = get_addable_users a world
  manageable false a world = get_removable_users a world

  -- `post` of the view of requests: of the users that can be managed, those that were selected.
  unfoldable pub post_requests : Bool → Allocation → (User → Bool) → Action SecureWorld (Unit {0})
  post_requests add a selected world =
      atomic (request_users add a (keep selected (manageable add a world))) world

  abbrev pub find_request : Bool → ℕ → SecureWorld → Result ManageRequest
  find_request add pk world =
      orm.get Model.manage_request (λ (r : ManageRequest). r.pk == pk) (table add world)

  -- `form_valid` of the view that updates a status; the form offers "Pending" and "Processing".
  abbrev pub status_after : Bool → ManageStatus
  status_after true = ManageStatus.processing
  status_after false = ManageStatus.pending

  abbrev pub update_found : Bool → Bool → ManageRequest → SecureWorld → SecureWorld
  update_found add begin r world =
      if is_pending r.status
      then save_request add (record r { status = status_after begin }) world
      else world

  unfoldable pub update_status : Bool → ℕ → Bool → Action SecureWorld (Unit {0})
  update_status add pk begin = do r ← asks (find_request add pk); modify (update_found add begin r)

  abbrev pub user_status_after : Bool → AllocationUserStatus
  user_status_after true = AllocationUserStatus.active
  user_status_after false = AllocationUserStatus.removed

  abbrev pub is_user_of : ℕ → ℕ → AllocationUser → Bool
  is_user_of a user u = u.allocation == a && u.user == user

  abbrev pub put_user : AllocationUser → Db → Db
  put_user u db = record db {
    allocation_users = orm.save (λ (x : AllocationUser). x.pk) u db.allocation_users;
  }

  abbrev pub new_user : ℕ → ℕ → AllocationUserStatus → Db → AllocationUser
  new_user a user status db = record {
    pk = orm.next_key (λ (x : AllocationUser). x.pk) db.allocation_users;
    allocation = a;
    user = user;
    status = status;
  }

  -- `AllocationUser.objects.update_or_create`, given what `get` finds.
  abbrev pub update_or_create :
      ℕ → ℕ → AllocationUserStatus → Result AllocationUser → Action Db (Unit {0})
  update_or_create a user status (ok u) = modify (put_user (record u { status = status }))
  update_or_create a user status (err (does_not_exist Model.allocation_user)) =
      modify (λ db. put_user (new_user a user status db) db)
  update_or_create a user status (err e) = raise e

  abbrev pub set_user : ManageRequest → AllocationUserStatus → Action SecureWorld (Unit {0})
  set_user r status world =
      let (result, after) =
        update_or_create r.allocation r.user status
          (orm.get allocation_user (is_user_of r.allocation r.user) world.db.allocation_users)
          world.db in
      (result, record world { db = after })

  -- `form_valid` of the view that completes a request; the form offers "Processing" and "Complete".
  abbrev pub complete_found : Bool → ℕ → Bool → ManageRequest → Action SecureWorld (Unit {0})
  complete_found add now false r =
      modify (save_request add (record r { status = ManageStatus.processing }))
  complete_found add now true r = do
    modify
        (save_request add (record r { status = ManageStatus.complete; completion_time = some now }))
    set_user r (user_status_after add)

  unfoldable pub complete_status : Bool → ℕ → Bool → ℕ → Action SecureWorld (Unit {0})
  complete_status add pk completed now = do
    r ← asks (find_request add pk)
    if is_processing r.status then atomic (complete_found add now completed r) else pure tt

  -- `post` of the view that denies a request.
  abbrev pub deny_found : Bool → ℕ → ManageRequest → SecureWorld → SecureWorld
  deny_found add now r world =
      if is_open r.status
      then save_request add (record r { status = ManageStatus.denied; completion_time = some now })
          world
      else world

  unfoldable pub deny_user : Bool → ℕ → ℕ → Action SecureWorld (Unit {0})
  deny_user add pk now = do r ← asks (find_request add pk); modify (deny_found add now r)
