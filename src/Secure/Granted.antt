-- ===== src/Secure/Granted.antt =====
-- What approving a request for secure directories leaves: `SecureDirRequestApprovalRunner` of
-- core/allocation/utils_/secure_dir_utils/new_directory.py.
use coldfront.Base.{ℕ, ◌≡◌, String, Bool, true, ◌&&◌, ◌||◌, Member, Result}
use coldfront.Orm.{Orm}
use coldfront.Tables.{
  Db, Project, Allocation, AllocationAttribute, Value, AttributeType, is_active_allocation,
}
use coldfront.Secure.{SecureWorld, SecureDirRequest}
use coldfront.Secure.Users
use coldfront.Secure.Directories
use coldfront.Secure.Directories.{Paths}

module _ (orm : Orm) (paths : Paths) (now today : ℕ) where
  -- A directory of a project at a resource: an active allocation with the path of the name.
  abbrev pub HasDirectory : ℕ → String → String → Db → Type 0
  HasDirectory p resource name db =
      (a : Allocation) × (t : AllocationAttribute) × Member a db.allocations
      × Member t db.attributes
      × (Directories.is_of p resource a && is_active_allocation a.status ≡ true)
      × (t.allocation ≡ a.pk)
      × (t.attribute_type ≡ AttributeType.cluster_directory_access)
      × (t.value ≡ Value.text (paths.join (Directories.path_of paths resource) name))

  module _ (p : Project) (name resource : String) (db : Db) where
    abbrev at : Result Allocation × Db
    at = Directories.create_at orm paths today p name resource db

    abbrev added : Allocation × Db
    added = Directories.add_directory orm paths today p.pk resource name db

  module _ (r : SecureDirRequest) where
    abbrev db1 : SecureWorld → Db
    db1 w = (added r.project r.directory_name Directories.groups_name w.db).1

    abbrev db2 : SecureWorld → Db
    db2 w = (added r.project r.directory_name Directories.scratch_name (db1 w)).1

    -- An allocation of the project to a resource of secure directories, of any status.
    abbrev pub is_held : Allocation → Bool
    is_held a =
        Directories.is_of r.project.pk Directories.groups_name a
        || Directories.is_of r.project.pk Directories.scratch_name a
