-- ===== src/Newcomers.antt =====
-- What happens when a user is made active on a project:
-- core/project/utils_/new_project_user_utils.py, with core/user/utils_/host_user_utils.py. Mails and
-- messages are left out, and so is the flag `enable_notifications`. The runner of a Vector project
-- runs another for a Savio project, so that it takes fuel.
pub mod Fuel
pub mod Create
pub mod Apart
pub mod Enrolled
pub mod Rollback
mod Examples
use text.Mathlib.Text.{starts_with}
use coldfront.Base.{
  ℕ, zero, suc, ◌==◌, ltb, String, Bool, true, false, not, ◌&&◌, ◌||◌, Option, none, some, is_some,
  List, [], ◌∷◌, any, is_nonempty, truthy, str_eq, guard, Result, ok, err, Exception,
  assertion_error, cluster_access_validation_error, does_not_exist, other_error, Model,
  allocation_attribute, allocation_user_attribute, project, user_profile, Action, asks, gets, pure,
  raise, lift, modify, atomic, suppress, when, ◌>>=◌, ◌>>◌, if◌then◌else◌,
}
use coldfront.Orm.{Orm}
use coldfront.AllowanceInterface.{Site, has_computing_allowance}
use coldfront.Tables.{
  Db, Project, ProjectUser, Role, MemberStatus, Allocation, AllocationUser, AllocationAttribute,
  AllocationUserAttribute, AttributeType, Value, has_type, is_active_member, to_int,
}
use coldfront.World.{World, User, Profile, EmailAddress, BillingActivity, JoinRequest, on_db}
use coldfront.Units.Rows.{save_user_with_usage}
use coldfront.Access.{request_access}
use coldfront.Members.{is_pi, first, is_member, get_project_compute_allocation}
use coldfront.Storage.Directory.{get_or_create_active_allocation_user}
use coldfront.Storage.Members.{add_project_user_to_faculty_storage_allocation}

-- `NewProjectUserSource`
pub data Source : Type 0 where
  added joined new_project_requester new_project_non_requester_pi : Source
  allocation_renewal_requester allocation_renewal_non_requester_pi auto_added : Source

-- `_update_processing_options_from_source`
abbrev pub should_request_cluster_access : Source → Bool
should_request_cluster_access new_project_non_requester_pi = false
should_request_cluster_access allocation_renewal_non_requester_pi = false
should_request_cluster_access _ = true

abbrev pub should_allow_preexisting_cluster_access : Source → Bool
should_allow_preexisting_cluster_access added = false
should_allow_preexisting_cluster_access joined = false
should_allow_preexisting_cluster_access _ = true

abbrev is_joined : Source → Bool
is_joined joined = true
is_joined _ = false

abbrev is_validation_error : Exception → Bool
is_validation_error cluster_access_validation_error = true
is_validation_error _ = false

-- `except ClusterAccessRequestRunnerValidationError`
abbrev pub or_allow : Bool → Result (Unit {0}) → Result (Unit {0})
or_allow allow (ok u) = ok u
or_allow allow (err e) = if allow && is_validation_error e then ok tt else err e

-- `str.endswith`
abbrev pub ends_with : String → String → Bool
ends_with String.[] t = str_eq String.[] t
ends_with (String.◌∷◌ c s) t = str_eq (String.◌∷◌ c s) t || ends_with s t

abbrev lbl_domain : String
lbl_domain = "@lbl.gov"

abbrev head : {A : Type 0} → List A → Option A
head [] = none
head (x ∷ xs) = some x

-- `latest("modified")` of rows that are there.
abbrev latest : List JoinRequest → Option JoinRequest
latest [] = none
latest (r ∷ rs) = elim (latest rs) [
  | none ↦ some r
  | some s ↦ if ltb r.modified s.modified then some s else some r
]

-- The settings: the Savio project of Vector users, and the paths of directories.
pub record Settings : Type 0 where
  pub savio_project : String
  pub path : String → String
  pub basename : Value → String
  pub strip : String → String

abbrev pub is_vector_project : Project → Bool
is_vector_project p = starts_with p.name "vector_"

abbrev is_blank : Settings → Value → Bool
is_blank settings (Value.text s) = not (truthy (settings.strip s))
is_blank settings _ = false

module _ (orm : Orm) (site : Site) (settings : Settings) (now : ℕ) where
  -- Whether `lbl_email_address(user)` finds one.
  abbrev is_lbl_user : World → User → Bool
  is_lbl_user world u =
      ends_with u.email lbl_domain
      || any (λ (e : EmailAddress). e.user == u.pk && (e.verified && ends_with e.email lbl_domain))
          world.emails

  abbrev is_lbl_employee : ℕ → World → Bool
  is_lbl_employee user world = any (λ (u : User). u.pk == user && is_lbl_user world u) world.users

  abbrev eligible_host_project_users : ℕ → World → List ProjectUser
  eligible_host_project_users p world =
      orm.filter
        (λ m.
          m.project == p
          && (is_pi m.role && (is_active_member m.status && is_lbl_employee m.user world)))
        world.db.project_users

  abbrev pub get_profile : ℕ → World → Result Profile
  get_profile user world = orm.get user_profile (λ (x : Profile). x.user == user) world.profiles

  abbrev save_profile : Profile → World → World
  save_profile x world = record world {
    profiles = orm.save (λ (y : Profile). y.user) x world.profiles;
  }

  abbrev is_join_of : ProjectUser → JoinRequest → Bool
  is_join_of m r = r.project_user == m.pk && is_some r.host_user

  abbrev host_of_join : Option JoinRequest → Option ℕ
  host_of_join none = none
  host_of_join (some r) = r.host_user

  abbrev host_of_member : Option ProjectUser → Option ℕ
  host_of_member none = none
  host_of_member (some m) = some m.user

  abbrev or_else : Option ℕ → Option ℕ → Option ℕ
  or_else (some k) o = some k
  or_else none o = o

  abbrev pub host_user_of : ProjectUser → Source → World → Option ℕ
  host_user_of m source world =
      if is_lbl_employee m.user world
      then some m.user
      else or_else
          (if is_joined source
            then host_of_join (latest (orm.filter (is_join_of m) world.join_requests))
            else none)
          (host_of_member (head (eligible_host_project_users m.project world)))

  abbrev pub set_host : ProjectUser → Option ℕ → Action World (Unit {0})
  set_host m none = raise other_error
  set_host m (some host) = do
    x ← asks (get_profile m.user)
    modify (save_profile (record x { host_user = some host }))

  -- `_set_host_user`, where `needs_host`.
  unfoldable pub set_host_user : ProjectUser → Source → Action World (Unit {0})
  set_host_user m source = do
    x ← asks (get_profile m.user)
    host ← gets (host_user_of m source)
    when (not (is_some x.host_user)) (set_host m host)

  abbrev is_billing_of : ℕ → AllocationAttribute → Bool
  is_billing_of a t = t.allocation == a && has_type t.attribute_type AttributeType.billing_activity

  abbrev is_user_billing_of : ℕ → AllocationUserAttribute → Bool
  is_user_billing_of u t =
      t.allocation_user == u && has_type t.attribute_type AttributeType.billing_activity

  abbrev new_user_attribute : AllocationUser → Value → Db → AllocationUserAttribute
  new_user_attribute u v db = record {
    pk = orm.next_key (λ (x : AllocationUserAttribute). x.pk) db.user_attributes;
    attribute_type = AttributeType.billing_activity;
    allocation = u.allocation;
    allocation_user = u.pk;
    value = v;
  }

  abbrev put_user_billing :
      AllocationUser → Value → Result AllocationUserAttribute → Action Db (Unit {0})
  put_user_billing u v (ok t) =
      when (is_blank settings t.value) (modify (save_user_with_usage orm (record t { value = v })))
  put_user_billing u v (err (does_not_exist Model.allocation_user_attribute)) =
      modify (λ db. save_user_with_usage orm (new_user_attribute u v db) db)
  put_user_billing u v (err e) = raise e

  unfoldable pub set_billing_activities : Allocation → AllocationUser → Action World (Unit {0})
  set_billing_activities a u = do
    t ← asks (λ w. orm.get allocation_attribute (is_billing_of a.pk) w.db.attributes)
    pk ← asks (λ w. to_int t.value)
    b ← asks (λ w.
        orm.get Model.billing_activity (λ (x : BillingActivity). x.pk == pk) w.billing_activities)
    x ← asks (get_profile u.user)
    when (not (is_some x.billing_activity))
        (modify (save_profile (record x { billing_activity = some b.pk })))
    s ← gets (λ w. orm.get allocation_user_attribute (is_user_billing_of u.pk) w.db.user_attributes)
    on_db (put_user_billing u t.value s)

  -- `LRCNewProjectUserRunner._run_extra_steps`
  unfoldable pub lrc_steps :
      Project → ProjectUser → Source → Allocation → AllocationUser → Action World (Unit {0})
  lrc_steps p m source a u = do
    set_host_user m source
    when (has_computing_allowance site p.name) (set_billing_activities a u)

  -- `_request_cluster_access`
  unfoldable pub request_cluster_access : AllocationUser → Source → Action World (Unit {0})
  request_cluster_access u source world =
      let (result, after) = request_access orm now u world in
      (or_allow (should_allow_preexisting_cluster_access source) result, after)

  abbrev pub new_member : ℕ → ℕ → Role → Db → ProjectUser
  new_member p user role db = record {
    pk = orm.next_key (λ (x : ProjectUser). x.pk) db.project_users;
    project = p;
    user = user;
    role = role;
    status = MemberStatus.active;
  }

  abbrev pub save_member : ProjectUser → Db → Db
  save_member m db = record db {
    project_users = orm.save (λ (x : ProjectUser). x.pk) m db.project_users;
  }

  -- A member that is made active, and whether it was not before.
  abbrev add_member : ℕ → ℕ → Option ProjectUser → Action World (ProjectUser × Bool)
  add_member p user none world =
      let m = new_member p user Role.user world.db in
      (ok (m, true), record world { db = save_member m world.db })
  add_member p user (some m) world =
      if is_active_member m.status
      then (ok (m, false), world)
      else (let n : ProjectUser = record m { status = MemberStatus.active } in
          (ok (n, true), record world { db = save_member n world.db }))

  -- `add_vector_user_to_designated_savio_project`, given the run of the runner in the project.
  abbrev pub activate_in :
      (ProjectUser → Action World (Unit {0})) → Project → ℕ → Action World (Unit {0})
  activate_in run p user = atomic do
    found ← gets (λ w.
        first (λ (x : ProjectUser). x.pk) (orm.filter (is_member p.pk user) w.db.project_users))
    (m, run_runner) ← add_member p.pk user found
    when run_runner (run m)

  abbrev pub find_savio : World → Result Project
  find_savio w =
      orm.get project (λ (x : Project). str_eq x.name settings.savio_project) w.db.projects

  abbrev pub add_vector_user :
      (Project → ProjectUser → Action World (Unit {0})) → ℕ → Action World (Unit {0})
  add_vector_user run user = do p ← asks find_savio; activate_in (run p) p user

  -- `_run_extra_steps` of the runner of the site, given how a user of Vector is added to Savio.
  abbrev pub extra_steps :
      (ℕ → Action World (Unit {0}))
      → Project
      → ProjectUser
      → Source
      → Allocation
      → AllocationUser
      → Action World (Unit {0})
  extra_steps add_vector p m source a u =
      if site.flags.brc_only
      then when (is_vector_project p) (suppress (add_vector m.user))
      else lrc_steps p m source a u

  abbrev pub steps :
      (ℕ → Action World (Unit {0}))
      → Project
      → ProjectUser
      → Source
      → Allocation
      → Action World (Unit {0})
  steps add_vector p m source a = do
    u ← on_db (get_or_create_active_allocation_user orm a m.user)
    when (should_request_cluster_access source) (request_cluster_access u source)
    extra_steps add_vector p m source a u

  -- The factory and the constructor of a runner.
  abbrev pub construct : Project → ProjectUser → World → Result Allocation
  construct p m world =
      if not (site.flags.brc_only || site.flags.lrc_only)
      then err other_error
      else if is_active_member m.status
      then get_project_compute_allocation orm site p world.db
      else err assertion_error

  -- `run`, which sends the signal at its end.
  abbrev pub run_with :
      (ℕ → Action World (Unit {0}))
      → Project
      → ProjectUser
      → Source
      → Allocation
      → Action World (Unit {0})
  run_with add_vector p m source a = do
    atomic (steps add_vector p m source a)
    on_db (add_project_user_to_faculty_storage_allocation orm settings.path settings.basename p m)

  unfoldable pub run_new_user : ℕ → Project → ProjectUser → Source → Action World (Unit {0})
  run_new_user zero p m source = raise other_error
  run_new_user (suc fuel) p m source = do
    a ← asks (construct p m)
    run_with (add_vector_user (λ q n. run_new_user fuel q n auto_added)) p m source a

  -- The run of a runner that was constructed before.
  abbrev pub run_constructed :
      ℕ → Project → ProjectUser → Source → Allocation → Action World (Unit {0})
  run_constructed fuel = run_with (add_vector_user (λ q n. run_new_user fuel q n auto_added))
