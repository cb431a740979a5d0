-- ===== src/Storage/Directory.antt =====
-- `DirectoryService` of plugins/faculty_storage_allocations/services/directory_service.py, and
-- `get_or_create_active_allocation_user` of core/allocation/utils.py. The service's cached
-- allocation is passed along. The signal that activates a user is left out.
use coldfront.Base.{
  ℕ, ◌+◌, ◌==◌, String, Bool, false, ◌&&◌, Option, none, some, is_nonempty, List, [], ◌∷◌, ◌++◌,
  map, any, str_eq, Result, ok, err, does_not_exist, value_error, type_error, Model, Action, asks,
  pure, raise, lift, modify, atomic, ◌>>=◌, ◌>>◌, if◌then◌else◌,
}
use coldfront.Orm.{Orm, create}
use coldfront.Tables.{
  Db, Allocation, AllocationStatus, AllocationAttribute, AttributeType, AllocationUser,
  AllocationUserStatus, ProjectUser, Value, text, number, to_int, has_type, is_active_member,
}

-- A service for a project's directory.
pub record DirectoryService : Type 0 where
  pub project : ℕ
  pub directory_path : String

abbrev pub resource_name : String
resource_name = "Scratch Faculty Storage Directory"

abbrev is_path : String → Value → Bool
is_path path (text s) = str_eq s path
is_path path _ = false

-- The rows of allocations joined with their attributes, before the conditions.
abbrev joined : List Allocation → List AllocationAttribute → List (Allocation × AllocationAttribute)
joined [] ts = []
joined (a ∷ rest) ts = map (λ t. (a, t)) ts ++ joined rest ts

abbrev is_directory : DirectoryService → Allocation × AllocationAttribute → Bool
is_directory d (a, t) =
    a.project == d.project
    && (any (λ name. str_eq name resource_name) a.resources
        && (t.allocation == a.pk && is_path d.directory_path t.value))

-- `str` of an amount in GB that may be None.
abbrev str_of : Option ℕ → Value
str_of none = text "None"
str_of (some n) = number n

abbrev date_or : Option ℕ → ℕ → Option ℕ
date_or none d = some d
date_or (some a) d = some a

abbrev first_allocation : Result (Allocation × AllocationAttribute) → Result (Option Allocation)
first_allocation (ok (a, t)) = ok (some a)
first_allocation (err (does_not_exist Model.allocation)) = ok none
first_allocation (err e) = err e

abbrev pub is_quota : ℕ → AllocationAttribute → Bool
is_quota k t = has_type t.attribute_type AttributeType.storage_quota && t.allocation == k

abbrev pub put_attribute : Orm → AllocationAttribute → Db → Db
put_attribute orm t db = record db { attributes = orm.save (λ x. x.pk) t db.attributes }

abbrev put_allocation : Orm → Allocation → Db → Db
put_allocation orm a db = record db { allocations = orm.save (λ x. x.pk) a db.allocations }

module _ (orm : Orm) where
  unfoldable pub get_allocation : DirectoryService → Db → Result (Option Allocation)
  get_allocation d db =
      first_allocation
        (orm.get Model.allocation (is_directory d) (joined db.allocations db.attributes))

  unfoldable pub directory_exists : DirectoryService → Db → Bool
  directory_exists d db =
      is_nonempty (orm.filter (is_directory d) (joined db.allocations db.attributes))

  abbrev new_attribute : AttributeType → ℕ → Value → Db → Db
  new_attribute kind k v db =
      let row : ℕ → AllocationAttribute =
        λ pk. record { pk = pk; attribute_type = kind; allocation = k; value = v } in
      record db { attributes = (create orm (λ x. x.pk) row db.attributes).1 }

  abbrev new_allocation : ℕ → ℕ → Db → Allocation × Db
  new_allocation project today db =
      let row : ℕ → Allocation = λ pk. record {
        pk = pk;
        project = project;
        resources = resource_name ∷ [];
        status = AllocationStatus.active;
        start_date = some today;
        end_date = none;
      } in
      let (a, rows) = create orm (λ x. x.pk) row db.allocations in
      (a, record db { allocations = rows })

  -- `today` is the current date.
  abbrev create_or_activate : DirectoryService → ℕ → Option Allocation → Action Db Allocation
  create_or_activate d today none db =
      let (a, after) = new_allocation d.project today db in
      pure a
        (new_attribute AttributeType.cluster_directory_access a.pk (text d.directory_path) after)
  create_or_activate d today (some a) db =
      let active : Allocation = record a {
        status = AllocationStatus.active;
        start_date = date_or a.start_date today;
      } in
      pure active (put_allocation orm active db)

  unfoldable pub create_directory : DirectoryService → ℕ → Action Db Allocation
  unfolding get_allocation
  create_directory d today = do a ← asks (get_allocation d); create_or_activate d today a

  -- `update_or_create`, given what `get` finds.
  abbrev update_or_create : Result AllocationAttribute → ℕ → Value → Action Db (Unit {0})
  update_or_create (ok t) k v = modify (put_attribute orm (record t { value = v }))
  update_or_create (err (does_not_exist m)) k v =
      modify (new_attribute AttributeType.storage_quota k v)
  update_or_create (err e) k v = raise e

  unfoldable pub set_directory_quota : Option Allocation → Option ℕ → Action Db (Unit {0})
  set_directory_quota none amount_gb db = raise value_error db
  set_directory_quota (some a) amount_gb db =
      update_or_create (orm.get Model.allocation_attribute (is_quota a.pk) db.attributes) a.pk
        (str_of amount_gb) db

  abbrev quota_of : Result AllocationAttribute → Result ℕ
  quota_of (ok t) = to_int t.value
  quota_of (err (does_not_exist m)) = ok 0
  quota_of (err e) = err e

  unfoldable pub get_current_quota_gb : Option Allocation → Db → Result ℕ
  get_current_quota_gb none db = ok 0
  get_current_quota_gb (some a) db =
      quota_of (orm.get Model.allocation_attribute (is_quota a.pk) db.attributes)

  abbrev add_amount : ℕ → Option ℕ → Result ℕ
  add_amount current none = err type_error
  add_amount current (some n) = ok (current + n)

  -- The allocation was looked up again by `get_current_quota_gb`.
  unfoldable pub add_to_directory_quota : Option Allocation → Option ℕ → Action Db (Unit {0})
  unfolding get_current_quota_gb set_directory_quota
  add_to_directory_quota a additional_gb = do
    current ← asks (get_current_quota_gb a)
    new_quota_gb ← lift (add_amount current additional_gb)
    set_directory_quota a (some new_quota_gb)

  abbrev pub is_user_of : ℕ → ℕ → AllocationUser → Bool
  is_user_of allocation user u = u.allocation == allocation && u.user == user

  abbrev pub put_user : AllocationUser → Db → Db
  put_user u db = record db { allocation_users = orm.save (λ x. x.pk) u db.allocation_users }

  abbrev pub activate_user : ℕ → ℕ → Action Db AllocationUser
  activate_user allocation user = do
    u ← asks (λ db. orm.get Model.allocation_user (is_user_of allocation user) db.allocation_users)
    modify (put_user (record u { status = AllocationUserStatus.active }))
    pure (record u { status = AllocationUserStatus.active })

  abbrev pub new_user : ℕ → ℕ → Db → AllocationUser
  new_user allocation user db = record {
    pk = orm.next_key (λ (x : AllocationUser). x.pk) db.allocation_users;
    allocation = allocation;
    user = user;
    status = AllocationUserStatus.active;
  }

  abbrev pub create_user : ℕ → ℕ → Action Db AllocationUser
  create_user allocation user db = let u = new_user allocation user db in pure u (put_user u db)

  unfoldable pub get_or_create_active_allocation_user : Allocation → ℕ → Action Db AllocationUser
  get_or_create_active_allocation_user a user db =
      if is_nonempty (orm.filter (is_user_of a.pk user) db.allocation_users)
      then activate_user a.pk user db
      else create_user a.pk user db

  abbrev add_users : Allocation → List ProjectUser → Action Db (Unit {0})
  add_users a [] = pure tt
  add_users a (m ∷ ms) = get_or_create_active_allocation_user a m.user >> add_users a ms

  abbrev add_users_to : ℕ → Option Allocation → Action Db (Unit {0})
  add_users_to project none db = raise value_error db
  add_users_to project (some a) db =
      add_users a
        (orm.filter (λ m. m.project == project && is_active_member m.status) db.project_users) db

  unfoldable pub add_project_users_to_directory : DirectoryService → Action Db (Unit {0})
  unfolding get_allocation get_or_create_active_allocation_user
  add_project_users_to_directory d = do
    a ← asks (get_allocation d)
    atomic (add_users_to d.project a)
