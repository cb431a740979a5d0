-- ===== src/Access/Outcome.antt =====
-- What `ClusterAccessRequestCompleteRunner` of core/allocation/utils_/cluster_access_utils.py leaves.
use coldfront.Base.{
  ℕ, String, ◌≡◌, ap, ◌∙◌, asks, bind-run, inl, inr, true, false, Member, Result, ok, err, arith,
  Result-cases, Exception, ◌⊎◌, atomic-err, cluster_access_validation_error, allocation_attribute,
  allocation_user_attribute, multiple_objects_returned,
}
use coldfront.Base.Int.{ℤ}
use coldfront.Orm.{Orm}
use coldfront.Orm.Change.{any-Member}
use coldfront.Tables.{
  Db, AllocationUser, AllocationAttribute, AllocationUserAttribute, AttributeType, Value, text,
  decimal, to_decimal, is_active_user,
}
use coldfront.World.{World, User}
use coldfront.Units.Service.{is_attribute_of, allocate_service_units_to_user}
use coldfront.Units.Attributes.{
  KeyedUsers, SetTo, set_allocation_user_attribute_value-SetTo,
  set_allocation_user_attribute_value-attributes,
}
use coldfront.Units.Allocate.{allocate_service_units_to_user-Changed}
use coldfront.Access.{
  units_attribute, set_units_from, conditionally_set_user_service_units, request_access,
  complete_access,
}
use coldfront.Access.{give_access}
use coldfront.Access.Requests.{mark, refused, has_access_of}

-- The user has an attribute of that type and value.
abbrev pub Holds : AllocationUser → AttributeType → Value → Db → Type 0
Holds a type v db =
    (x : AllocationUserAttribute) × Member x db.user_attributes
    × (is_attribute_of type a x ≡ true)
    × (x.value ≡ v)

module _ (orm : Orm) (now : ℕ) (a : AllocationUser) where
  units_run :
      (t : AllocationAttribute) (n : ℤ) (db : Db)
      → orm.get allocation_attribute (units_attribute orm now a.allocation) db.attributes ≡ ok t
      → to_decimal t.value ≡ ok n
      → conditionally_set_user_service_units orm now a db
        ≡ allocate_service_units_to_user orm now a n db
  units_run t n db found read =
      ap (λ q. set_units_from orm now a q db) found
      ∙ bind-run (asks (λ _. to_decimal t.value)) db db
          (λ units. allocate_service_units_to_user orm now a units) n (ap (λ q. (q, db)) read)

  module _ (user : User) (username cluster_uid : String) (world : World) where
    abbrev completed : Result (Unit {0}) × World
    completed = complete_access orm now a user username cluster_uid world

    complete_steps :
        (r : AllocationUserAttribute)
        → (mark orm now a "Active" world).0 ≡ ok r
        → completed.0 ≡ ok tt
        → ((conditionally_set_user_service_units orm now a (mark orm now a "Active" world).1).0
            ≡ ok tt)
          × (completed.1.db
              ≡ (conditionally_set_user_service_units orm now a
                  (mark orm now a "Active" world).1).1)
    unfolding complete_access
    complete_steps r set done =
        elim (Result-cases
          (conditionally_set_user_service_units orm now a (mark orm now a "Active" world).1).0) [
            | inl (t, k) ↦ (k, ground (arith, set, k, done))
            | inr (e, k) ↦ ground (arith, set, k, done)
          ]

    completed_mark :
        KeyedUsers world.db
        → completed.0 ≡ ok tt
        → SetTo a AttributeType.cluster_account_status
            (text "Active")
            world.db
            (mark orm now a "Active" world)
    unfolding complete_access
    completed_mark keyed done =
        elim (set_allocation_user_attribute_value-SetTo orm now a
          AttributeType.cluster_account_status (text "Active") world.db keyed) [
            | inl s ↦ s
            | inr e ↦
                let failed : (mark orm now a "Active" world).0
                    ≡ err (multiple_objects_returned allocation_user_attribute) =
                  ap (λ x. x.0) e in
                ground (arith, failed, done)
          ]

    apart :
        (r : AllocationUserAttribute)
        → is_attribute_of AttributeType.cluster_account_status a r ≡ true
        → is_attribute_of AttributeType.service_units a r ≡ false
    apart r h = ground (arith, h)

    granted :
        (t : AllocationAttribute) (n : ℤ)
        → KeyedUsers world.db
        → orm.get allocation_attribute (units_attribute orm now a.allocation) world.db.attributes
          ≡ ok t
        → to_decimal t.value ≡ ok n
        → is_active_user a.status ≡ true
        → completed.0 ≡ ok tt
        → Holds a AttributeType.cluster_account_status (text "Active") completed.1.db
          × Holds a AttributeType.service_units (decimal n) completed.1.db
          × (request_access orm now a completed.1
              ≡ (err cluster_access_validation_error, completed.1))
    granted t n keyed found read active done =
        let (r, set, pass, value, first) = completed_mark keyed done in
        let marked_db = (mark orm now a "Active" world).1 in
        let (units_done, last) = complete_steps r set done in
        let kept =
          set_allocation_user_attribute_value-attributes orm now a
            AttributeType.cluster_account_status (text "Active") world.db in
        let units = units_run t n marked_db (rw kept found) read in
        let (s, pass_s, value_s, second) =
          allocate_service_units_to_user-Changed orm now a n marked_db first.4
            (rw units at units_done) in
        let stays = second.3 r first.0 (apart r pass) in
        let holds : Holds a AttributeType.cluster_account_status (text "Active") completed.1.db =
          (r, rw (last, units) stays, pass, value) in
        (
          holds,
          (s, rw (last, units) second.0, pass_s, value_s),
          refused orm now a completed.1 active (
              any-Member _ completed.1.db.user_attributes r holds.1
                (has_access_of orm now a r _ pass value)),
        )

    raised : (e : Exception) → completed.0 ≡ err e → completed ≡ (err e, world)
    unfolding complete_access
    raised e h = atomic-err (give_access orm now a user username cluster_uid) world e h

    -- Where no two user attributes share a key and the allocation has service units, completing a
    -- request for access of an active user either leaves the user with an active account and as many
    -- service units as the allocation has, so that a new request for the user is refused, or raises
    -- and changes nothing.
    pub complete_access-granted :
        (t : AllocationAttribute) (n : ℤ)
        → KeyedUsers world.db
        → orm.get allocation_attribute (units_attribute orm now a.allocation) world.db.attributes
          ≡ ok t
        → to_decimal t.value ≡ ok n
        → is_active_user a.status ≡ true
        → ((completed.0 ≡ ok tt)
            × Holds a AttributeType.cluster_account_status (text "Active") completed.1.db
            × Holds a AttributeType.service_units (decimal n) completed.1.db
            × (request_access orm now a completed.1
                ≡ (err cluster_access_validation_error, completed.1)))
          ⊎ ((e : Exception) × (completed ≡ (err e, world)))
    complete_access-granted t n keyed found read active = elim (Result-cases completed.0) [
      | inl (u, done) ↦
          let (status, units, again) = granted t n keyed found read active done in
          inl (done, status, units, again)
      | inr (e, h) ↦ inr (e, raised e h)
    ]
