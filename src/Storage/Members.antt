-- ===== src/Storage/Members.antt =====
-- Users of a faculty storage directory: `for_project`, `get_directory_name_for_project` (without a
-- request), `add_user_to_directory` and `remove_user_from_directory` of
-- plugins/faculty_storage_allocations/services/directory_service.py, and the signal handlers of
-- plugins/faculty_storage_allocations/signals.py. The resource of the directories and its path, which
-- the constructor reads, are there.
use coldfront.Base.{
  ℕ, ◌==◌, String, Bool, ◌&&◌, Option, none, some, List, [], ◌∷◌, any, str_eq, Result, ok, err,
  does_not_exist, value_error, Model, Action, asks, pure, raise, modify, suppress, ◌>>=◌, ◌>>◌,
}
use coldfront.Orm.{Orm}
use coldfront.Tables.{
  Db, Project, ProjectUser, Allocation, AllocationAttribute, AllocationUser, AllocationUserStatus,
  AttributeType, Value, has_type,
}
use coldfront.Storage.Directory.{
  DirectoryService, resource_name, get_allocation, is_user_of, put_user,
  get_or_create_active_allocation_user,
}

abbrev is_storage_of : ℕ → Allocation → Bool
is_storage_of project a =
    a.project == project && any (λ name. str_eq name resource_name) a.resources

abbrev is_directory_access : ℕ → AllocationAttribute → Bool
is_directory_access k t =
    t.allocation == k && has_type t.attribute_type AttributeType.cluster_directory_access

-- `path` joins the base path and a directory name, and `basename` is `os.path.basename`.
module _ (orm : Orm) (path : String → String) (basename : Value → String) where
  abbrev name_of : Project → Result AllocationAttribute → Result (Option String)
  name_of p (ok t) = ok (some (basename t.value))
  name_of p (err (does_not_exist Model.allocation_attribute)) = ok (some p.name)
  name_of p (err e) = err e

  abbrev name_from : Project → Db → List Allocation → Result (Option String)
  name_from p db [] = ok none
  name_from p db (a ∷ []) =
      name_of p (orm.get Model.allocation_attribute (is_directory_access a.pk) db.attributes)
  name_from p db (a ∷ b ∷ rest) = err value_error

  unfoldable pub get_directory_name_for_project : Project → Db → Result (Option String)
  get_directory_name_for_project p db =
      name_from p db (orm.filter (is_storage_of p.pk) db.allocations)

  abbrev service_of : Project → Result (Option String) → Result (Option DirectoryService)
  service_of p (err e) = err e
  service_of p (ok none) = ok none
  service_of p (ok (some name)) = ok (some (record { project = p.pk; directory_path = path name }))

  unfoldable pub for_project : Project → Db → Result (Option DirectoryService)
  for_project p db = service_of p (get_directory_name_for_project p db)

  abbrev add_to : ℕ → Option Allocation → Action Db (Unit {0})
  add_to user none = raise value_error
  add_to user (some a) = do get_or_create_active_allocation_user orm a user; pure tt

  unfoldable pub add_user_to_directory : DirectoryService → ℕ → Action Db (Unit {0})
  add_user_to_directory d user = do a ← asks (get_allocation orm d); add_to user a

  abbrev drop_user : Result AllocationUser → Action Db (Unit {0})
  drop_user (ok u) = modify (put_user orm (record u { status = AllocationUserStatus.removed }))
  drop_user (err (does_not_exist Model.allocation_user)) = pure tt
  drop_user (err e) = raise e

  abbrev remove_from : ℕ → Option Allocation → Action Db (Unit {0})
  remove_from user none db = raise value_error db
  remove_from user (some a) db =
      drop_user (orm.get Model.allocation_user (is_user_of orm a.pk user) db.allocation_users) db

  unfoldable pub remove_user_from_directory : DirectoryService → ℕ → Action Db (Unit {0})
  remove_user_from_directory d user = do a ← asks (get_allocation orm d); remove_from user a

  -- A project without a directory has nothing to do.
  abbrev with_service :
      (DirectoryService → Action Db (Unit {0})) → Option DirectoryService → Action Db (Unit {0})
  with_service body none = pure tt
  with_service body (some d) = body d

  -- The handlers of the signals `project_user_activated` and `project_user_removed`.
  unfoldable pub add_project_user_to_faculty_storage_allocation :
      Project → ProjectUser → Action Db (Unit {0})
  add_project_user_to_faculty_storage_allocation p m =
      suppress do d ← asks (for_project p); with_service (λ d. add_user_to_directory d m.user) d

  unfoldable pub remove_project_user_from_faculty_storage_allocation :
      Project → ProjectUser → Action Db (Unit {0})
  remove_project_user_from_faculty_storage_allocation p m =
      suppress
        do d ← asks (for_project p); with_service (λ d. remove_user_from_directory d m.user) d
