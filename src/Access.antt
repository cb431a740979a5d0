-- ===== src/Access.antt =====
-- Requests for access to the cluster: the runners of
-- core/allocation/utils_/cluster_access_utils.py. Messages and emails, which change no table and
-- whose failures are caught, are left out.
pub mod Requests
pub mod Outcome
mod Examples
use coldfront.Base.{
  ℕ, ◌==◌, String, Bool, true, false, not, ◌&&◌, Option, none, some, any, str_eq, guard, Result, ok,
  err, Exception, assertion_error, integrity_error, cluster_access_validation_error, does_not_exist,
  Model, allocation_attribute, user_profile, ◌||◌, Action, asks, pure, raise, modify, atomic, when,
  ◌>>=◌, ◌>>◌, if◌then◌else◌,
}
use coldfront.Base.Int.{ℤ}
use coldfront.Orm.{Orm, create}
use coldfront.Tables.{
  Db, AllocationUser, AllocationAttribute, AllocationUserAttribute, AttributeType, Value, text,
  decimal, number, has_type, is_active_user, to_decimal,
}
use coldfront.World.{World, User, Profile, AccessRequest, AccessStatus, on_db}
use coldfront.Units.Service.{set_allocation_user_attribute_value, allocate_service_units_to_user}

abbrev pub is_text : String → Value → Bool
is_text s (text t) = str_eq t s
is_text s _ = false

abbrev pub is_pending_or_active : Value → Bool
is_pending_or_active v = is_text "Pending - Add" v || (is_text "Processing" v || is_text "Active" v)

-- An attribute of the user's that says that access is pending or active.
abbrev pub has_access : AllocationUser → AllocationUserAttribute → Bool
has_access a t =
    t.allocation_user == a.pk
    && (has_type t.attribute_type AttributeType.cluster_account_status
        && is_pending_or_active t.value)

-- `now` is the current time.
module _ (orm : Orm) (now : ℕ) where
  abbrev pub set_account_status : AllocationUser → String → Action World AllocationUserAttribute
  set_account_status a status = on_db (
      set_allocation_user_attribute_value orm now a AttributeType.cluster_account_status
        (text status))

  abbrev pub new_request : AllocationUser → World → AccessRequest
  new_request a world = record {
    pk = orm.next_key (λ (x : AccessRequest). x.pk) world.access_requests;
    allocation_user = a.pk;
    status = AccessStatus.pending_add;
    request_time = now;
  }

  abbrev pub create_request : AllocationUser → World → World
  create_request a world = record world {
    access_requests =
        orm.save (λ (x : AccessRequest). x.pk) (new_request a world) world.access_requests;
  }

  abbrev validate_no_existing_cluster_access : AllocationUser → World → Result (Unit {0})
  validate_no_existing_cluster_access a world =
      guard (not (any (has_access a) world.db.user_attributes)) cluster_access_validation_error

  -- `ClusterAccessRequestRunner(a).run()`
  unfoldable pub request_access : AllocationUser → Action World (Unit {0})
  request_access a = do
    asks (λ _. guard (is_active_user a.status) assertion_error)
    atomic do
      asks (validate_no_existing_cluster_access a)
      set_account_status a "Pending - Add"
      modify (create_request a)

  -- `User.username` is unique.
  abbrev is_taken : User → World → Bool
  is_taken u world =
      any (λ (x : User). str_eq x.username u.username && not (x.pk == u.pk)) world.users

  abbrev save_user : User → Action World (Unit {0})
  save_user u = do
    asks (λ world. guard (not (is_taken u world)) integrity_error)
    modify (λ world. record world { users = orm.save (λ (x : User). x.pk) u world.users })

  abbrev is_text_of : String → Option String → Bool
  is_text_of s none = false
  is_text_of s (some t) = str_eq t s

  -- `UserProfile.cluster_uid` is unique.
  abbrev uid_taken : ℕ → String → World → Bool
  uid_taken user uid world =
      any (λ (x : Profile). is_text_of uid x.cluster_uid && not (x.user == user)) world.profiles

  abbrev set_cluster_uid : ℕ → String → Action World (Unit {0})
  set_cluster_uid user uid = do
    p ← asks (λ world. orm.get user_profile (λ (x : Profile). x.user == user) world.profiles)
    asks (λ world. guard (not (uid_taken user uid world)) integrity_error)
    modify (λ world. record world {
      profiles =
          orm.save (λ (x : Profile). x.user) (record p { cluster_uid = some uid }) world.profiles;
    })

  abbrev pub units_attribute : ℕ → AllocationAttribute → Bool
  units_attribute a t = t.allocation == a && has_type t.attribute_type AttributeType.service_units

  abbrev pub set_units_from : AllocationUser → Result AllocationAttribute → Action Db (Unit {0})
  set_units_from a (ok t) = do
    units ← asks (λ db. to_decimal t.value)
    allocate_service_units_to_user orm now a units
  set_units_from a (err (does_not_exist Model.allocation_attribute)) = pure tt
  set_units_from a (err e) = raise e

  abbrev pub conditionally_set_user_service_units : AllocationUser → Action Db (Unit {0})
  conditionally_set_user_service_units a db =
      set_units_from a (orm.get allocation_attribute (units_attribute a.allocation) db.attributes)
        db

  abbrev pub give_access : AllocationUser → User → String → String → Action World (Unit {0})
  give_access a user username cluster_uid = do
    set_account_status a "Active"
    save_user (record user { username = username })
    set_cluster_uid user.pk cluster_uid
    on_db (conditionally_set_user_service_units a)

  -- `ClusterAccessRequestCompleteRunner(request).run(username, cluster_uid)`, with the user of the
  -- allocation that the request is for.
  unfoldable pub complete_access : AllocationUser → User → String → String → Action World (Unit {0})
  complete_access a user username cluster_uid = atomic (give_access a user username cluster_uid)

  -- `ClusterAccessRequestDenialRunner(request).run()`
  unfoldable pub deny_access : AllocationUser → Action World (Unit {0})
  deny_access a = atomic do set_account_status a "Denied"; pure tt
