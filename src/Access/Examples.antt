-- ===== src/Access/Examples.antt =====
-- The theorems on access to the cluster at a member of a project.
use coldfront.Base.{
  ◌≡◌, refl, ◌⊎◌, inl, inr, false, none, [], ◌∷◌, Exception, ok, err,
  cluster_access_validation_error,
}
use coldfront.Base.Int.{pos}
use coldfront.Orm.Memory.{in_memory}
use coldfront.Tables.{AttributeType, text, decimal}
use coldfront.Jobs.Sample.{units, member, db}
use coldfront.World.{World, User, Profile}
use coldfront.Units.Rows.{save_user_with_usage}
use coldfront.Units.Service.{
  set_allocation_user_attribute_value, allocate_service_units_to_user,
  set_allocation_user_service_units_allowance,
}
use coldfront.Units.Attributes.{KeyedUsers}
use coldfront.Access.{request_access, deny_access, complete_access}
use coldfront.Access.Requests.{Made, OwnAttributes, request_access-once, deny_access-then_request}
use coldfront.Access.Outcome.{Holds, complete_access-granted}

abbrev person : User
person = record { pk = 3; username = "new"; email = "" }

abbrev profile : Profile
profile = record {
  user = 3;
  cluster_uid = none;
  is_pi = false;
  host_user = none;
  billing_activity = none;
}

abbrev world : World
world = record {
  db = db;
  users = person ∷ [];
  profiles = profile ∷ [];
  addition_requests = [];
  access_requests = [];
  removal_requests = [];
  renewal_requests = [];
  join_requests = [];
  emails = [];
  billing_activities = [];
}

keyed : KeyedUsers db
keyed t (inl e) = rw e refl
keyed t (inr m) = absurd m

own : OwnAttributes in_memory 50 member db
own t (inl e) h = rw e refl
own t (inr m) h = absurd m

request_access-once_example :
    Made in_memory 50 member world
    ⊎ ((e : Exception) × (request_access in_memory 50 member world ≡ (err e, world)))
request_access-once_example = request_access-once in_memory 50 member world keyed

deny_access-then_request_example :
    (request_access in_memory 50 member (deny_access in_memory 50 member world).1).0 ≡ ok tt
unfolding deny_access set_allocation_user_attribute_value save_user_with_usage
deny_access-then_request_example =
    deny_access-then_request in_memory 50 member world keyed own refl refl

complete_access-granted_example :
    (((complete_access in_memory 50 member person "ada" "1234" world).0 ≡ ok tt)
      × Holds member AttributeType.cluster_account_status
          (text "Active")
          (complete_access in_memory 50 member person "ada" "1234" world).1.db
      × Holds member AttributeType.service_units
          (decimal (pos 100000))
          (complete_access in_memory 50 member person "ada" "1234" world).1.db
      × (request_access in_memory 50 member
            (complete_access in_memory 50 member person "ada" "1234" world).1
          ≡ (
            err cluster_access_validation_error,
            (complete_access in_memory 50 member person "ada" "1234" world).1,
          )))
    ⊎ ((e : Exception) × (complete_access in_memory 50 member person "ada" "1234" world
          ≡ (err e, world)))
complete_access-granted_example =
    complete_access-granted in_memory 50 member person "ada" "1234" world units (pos 100000) keyed
      refl refl refl

-- There it succeeds.
completed : (complete_access in_memory 50 member person "ada" "1234" world).0 ≡ ok tt
unfolding complete_access set_allocation_user_attribute_value save_user_with_usage
    allocate_service_units_to_user set_allocation_user_service_units_allowance
completed = refl
