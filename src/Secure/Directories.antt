-- ===== src/Secure/Directories.antt =====
-- Requests for new secure directories: the functions and the runners of
-- core/allocation/utils_/secure_dir_utils/new_directory.py. The two resources have their paths; mails
-- and messages are left out.
use text.Mathlib.Text.{starts_with}
use coldfront.Base.{
  ℕ, zero, suc, ◌==◌, String, Bool, false, not, ◌&&◌, ◌||◌, Option, none, some, List, [], ◌∷◌, ◌++◌,
  map, any, is_nonempty, str_eq, guard, Result, ok, err, true, Exception, interface_error,
  assertion_error, value_error, validation_error, other_error, Action, asks, raise, modify, ◌>>=◌,
  ◌>>◌, if◌then◌else◌,
}
use coldfront.Orm.{Orm}
use coldfront.Allowance.{brc_co, brc_fca, brc_ica}
use coldfront.AllowanceInterface.{Site, AllowanceResource, allowance_from_project, code_from_name}
use coldfront.Tables.{
  Db, Project, Allocation, AllocationStatus, AllocationAttribute, AttributeType, Value, has_type,
  is_active_allocation,
}
use coldfront.Renewals.{is_active_project}
use coldfront.Secure.{
  SecureWorld, SecureDirRequest, SecureDirStatus, is_denied_request, initial_state,
}

abbrev pub scratch_name : String
scratch_name = "Scratch P2/P3 Directory"

abbrev pub groups_name : String
groups_name = "Groups P2/P3 Directory"

-- `SECURE_DIRECTORY_NAME_PREFIX`
abbrev pub name_prefix : String
name_prefix = "pl1_"

-- The paths of the resources, and `os.path.join`.
pub record Paths : Type 0 where
  pub groups_path : String
  pub scratch_path : String
  pub join : String → String → String

abbrev pub resource_of : String → Result String
resource_of which =
    if str_eq which "scratch"
    then ok scratch_name
    else if str_eq which "groups"
    then ok groups_name
    else err value_error

abbrev pub path_of : Paths → String → String
path_of paths name = if str_eq name scratch_name then paths.scratch_path else paths.groups_path

abbrev pub is_to : String → Allocation → Bool
is_to name a = any (λ n. str_eq n name) a.resources

abbrev pub is_of : ℕ → String → Allocation → Bool
is_of p name a = a.project == p && is_to name a

abbrev pub is_secure : Allocation → Bool
is_secure a = is_to scratch_name a || is_to groups_name a

abbrev pub is_secure_of : ℕ → Allocation → Bool
is_secure_of p a = is_secure a && (is_active_allocation a.status && a.project == p)

-- Without the first `n` characters.
abbrev drop_chars : ℕ → String → String
drop_chars zero s = s
drop_chars (suc n) String.[] = String.[]
drop_chars (suc n) (String.◌∷◌ c s) = drop_chars n s

unfoldable pub get_directory_name_suffix : String → String
get_directory_name_suffix name = if starts_with name name_prefix then drop_chars 4 name else name

abbrev pub is_request_of : ℕ → SecureDirRequest → Bool
is_request_of p r = r.project.pk == p && not (is_denied_request r.status)

abbrev pub is_interface_error : Exception → Bool
is_interface_error interface_error = true
is_interface_error _ = false

abbrev pub is_eligible_name : AllowanceResource → Bool
is_eligible_name a = str_eq a.name brc_co || (str_eq a.name brc_fca || str_eq a.name brc_ica)

module _ (orm : Orm) where
  -- `today` is the current date.
  module _ (paths : Paths) (today : ℕ) where
    abbrev pub new_directory : ℕ → String → Db → Allocation
    new_directory p name db = record {
      pk = orm.next_key (λ (x : Allocation). x.pk) db.allocations;
      project = p;
      resources = name ∷ [];
      status = AllocationStatus.active;
      start_date = some today;
      end_date = none;
    }

    abbrev pub new_path : Allocation → String → String → Db → AllocationAttribute
    new_path a name subdirectory db = record {
      pk = orm.next_key (λ (x : AllocationAttribute). x.pk) db.attributes;
      attribute_type = AttributeType.cluster_directory_access;
      allocation = a.pk;
      value = Value.text (paths.join (path_of paths name) subdirectory);
    }

    abbrev pub add_directory : ℕ → String → String → Db → Allocation × Db
    add_directory p name subdirectory db =
        let a = new_directory p name db in
        (
          a,
          record db {
            allocations = db.allocations ++ a ∷ [];
            attributes = db.attributes ++ new_path a name subdirectory db ∷ [];
          },
        )

    abbrev pub create_at : Project → String → String → Action Db Allocation
    create_at p subdirectory name db =
        if is_nonempty (orm.filter (is_of p.pk name) db.allocations)
        then raise validation_error db
        else (let (a, after) = add_directory p.pk name subdirectory db in (ok a, after))

    unfoldable pub create_secure_directory : Project → String → String → Action Db Allocation
    create_secure_directory p subdirectory which = do
      name ← asks (λ _. resource_of which)
      create_at p subdirectory name

  -- `get_secure_dir_allocations(project)`
  abbrev pub get_secure_dir_allocations : ℕ → Db → List Allocation
  get_secure_dir_allocations p db = orm.filter (is_secure_of p) db.allocations

  abbrev pub has_request : ℕ → SecureWorld → Bool
  has_request p world = is_nonempty (orm.filter (is_request_of p) world.requests)

  abbrev pub save_request : SecureDirRequest → SecureWorld → SecureWorld
  save_request r world = record world {
    requests = orm.save (λ (x : SecureDirRequest). x.pk) r world.requests;
  }

  module _ (site : Site) where
    abbrev pub eligible_codes : Result (List String)
    eligible_codes = elim (code_from_name site brc_co) [
      | err e ↦ err e
      | ok co ↦ elim (code_from_name site brc_fca) [
        | err e ↦ err e
        | ok fca ↦ elim (code_from_name site brc_ica) [
          | err e ↦ err e
          | ok ica ↦ ok (co ∷ fca ∷ ica ∷ [])
        ]
      ]
    ]

    abbrev pub is_free : Project → SecureWorld → Bool
    is_free p world =
        not (is_nonempty (get_secure_dir_allocations p.pk world.db)) && not (has_request p.pk world)

    abbrev pub eligible_under : Project → AllowanceResource → SecureWorld → Result Bool
    eligible_under p a world =
        if is_eligible_name a
        then elim eligible_codes [
          | err e ↦ err e
          | ok codes ↦ ok (any (λ c. starts_with p.name c) codes && is_free p world)
        ]
        else ok false

    abbrev pub eligible_with : Project → Result AllowanceResource → SecureWorld → Result Bool
    eligible_with p (ok a) world = eligible_under p a world
    eligible_with p (err e) world = if is_interface_error e then ok false else err e

    unfoldable pub is_project_eligible_for_secure_dirs : Project → SecureWorld → Result Bool
    is_project_eligible_for_secure_dirs p world =
        if is_active_project p.status
        then eligible_with p (allowance_from_project site p.name) world
        else ok false

    abbrev pub new_request :
        Project → ℕ → String → String → Option String → SecureWorld → SecureDirRequest
    new_request p requester name department consultation world = record {
      pk = orm.next_key (λ (x : SecureDirRequest). x.pk) world.requests;
      requester = requester;
      directory_name = name;
      department = department;
      rdm_consultation = consultation;
      project = p;
      status = SecureDirStatus.under_review;
      completion_time = none;
      state = initial_state;
    }

    -- `SecureDirRequestRunner(kwargs).run()`
    unfoldable pub request_directory :
        Project → ℕ → String → String → Option String → Action SecureWorld (Unit {0})
    request_directory p requester name department consultation = do
      eligible ← asks (is_project_eligible_for_secure_dirs p)
      asks (λ _. guard eligible other_error)
      modify (λ w. save_request (new_request p requester name department consultation w) w)

  -- The names in use, as `get_all_secure_dir_paths` and the requests give them, without prefixes.
  -- `basename` is `os.path.basename`.
  module _ (basename : Value → String) where
    abbrev is_secure_path : Db → AllocationAttribute → Bool
    is_secure_path db t =
        has_type t.attribute_type AttributeType.cluster_directory_access
        && any (λ a. a.pk == t.allocation && is_secure a) db.allocations

    abbrev pub existing_suffixes : Db → List String
    existing_suffixes db =
        map (λ (t : AllocationAttribute). get_directory_name_suffix (basename t.value))
          (orm.filter (is_secure_path db) db.attributes)

    abbrev pub is_other : Option ℕ → SecureDirRequest → Bool
    is_other none r = not (is_denied_request r.status)
    is_other (some pk) r = not (is_denied_request r.status) && not (r.pk == pk)

    abbrev pub requested_suffixes : Option ℕ → SecureWorld → List String
    requested_suffixes exclude world =
        map (λ (r : SecureDirRequest). get_directory_name_suffix r.directory_name)
          (orm.filter (is_other exclude) world.requests)

    unfoldable pub is_secure_directory_name_suffix_available :
        String → Option ℕ → SecureWorld → Result Bool
    is_secure_directory_name_suffix_available suffix exclude world =
        if starts_with suffix name_prefix
        then err assertion_error
        else ok (
            not (
              any (λ s. str_eq s suffix)
                (existing_suffixes world.db ++ requested_suffixes exclude world)))
