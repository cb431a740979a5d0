-- ===== src/Access/Requests.antt =====
-- What `ClusterAccessRequestRunner` of core/allocation/utils_/cluster_access_utils.py allows, before
-- and after a request was made or denied.
use coldfront.Base.{
  ℕ, String, ◌≡◌, ◌==◌, refl, ap, ◌∙◌, ◌⊎◌, inl, inr, true, false, [], ◌∷◌, keep, any, Member,
  Result, ok, err, Exception, cluster_access_validation_error, assertion_error, arith, Bool-cases,
  multiple_objects_returned, allocation_user_attribute, atomic, ◌>>=◌,
}
use coldfront.Orm.{Orm, single}
use coldfront.Orm.Change.{any-Member, none-Member}
use coldfront.Tables.{
  Db, AllocationUser, AllocationUserAttribute, AttributeType, Value, text, is_active_user,
}
use coldfront.World.{World}
use coldfront.Units.Service.{set_allocation_user_attribute_value, is_attribute_of}
use coldfront.Units.Attributes.{
  KeyedUsers, SetTo, found_set, set_allocation_user_attribute_value-SetTo,
}
use coldfront.Access.{has_access, is_pending_or_active, create_request, request_access, deny_access}

module _ (orm : Orm) (now : ℕ) (a : AllocationUser) where
  abbrev pub mark : String → World → Result AllocationUserAttribute × Db
  mark status world =
      set_allocation_user_attribute_value orm now a AttributeType.cluster_account_status
        (text status) world.db

  abbrev pub marked : String → World → World
  marked status world = record world { db = (mark status world).1 }

  requested :
      (world : World) (r : AllocationUserAttribute)
      → is_active_user a.status ≡ true
      → any (has_access a) world.db.user_attributes ≡ false
      → (mark "Pending - Add" world).0 ≡ ok r
      → request_access orm now a world
        ≡ (ok tt, create_request orm now a (marked "Pending - Add" world))
  unfolding request_access
  requested world r active free set = ground (arith, active, free, set)

  pub refused :
      (world : World)
      → is_active_user a.status ≡ true
      → any (has_access a) world.db.user_attributes ≡ true
      → request_access orm now a world ≡ (err cluster_access_validation_error, world)
  unfolding request_access
  refused world active taken = rw (◌>>=◌, active, atomic, taken) refl

  denied :
      (world : World) (r : AllocationUserAttribute)
      → (mark "Denied" world).0 ≡ ok r
      → deny_access orm now a world ≡ (ok tt, marked "Denied" world)
  unfolding deny_access
  denied world r set = ground (arith, set)

  refused_inactive :
      (world : World)
      → is_active_user a.status ≡ false
      → request_access orm now a world ≡ (err assertion_error, world)
  unfolding request_access
  refused_inactive world inactive = rw (◌>>=◌, inactive) refl

  refused_several :
      (world : World) (e : Exception)
      → is_active_user a.status ≡ true
      → any (has_access a) world.db.user_attributes ≡ false
      → (mark "Pending - Add" world).0 ≡ err e
      → request_access orm now a world ≡ (err e, world)
  unfolding request_access
  refused_several world e active free set = ground (arith, active, free, set)

  pub has_access_of :
      (r : AllocationUserAttribute) (v : Value)
      → is_attribute_of AttributeType.cluster_account_status a r ≡ true
      → r.value ≡ v
      → has_access a r ≡ is_pending_or_active v
  has_access_of r v p e = ground (arith, p, e)

  -- A request that is made: the user had no access, pending or active, and the request is added;
  -- asked for again, it is refused, and nothing changes.
  abbrev pub Made : World → Type 0
  Made world =
      (request_access orm now a world
        ≡ (ok tt, create_request orm now a (marked "Pending - Add" world)))
      × (any (has_access a) world.db.user_attributes ≡ false)
      × (request_access orm now a (create_request orm now a (marked "Pending - Add" world)) ≡ (
        err cluster_access_validation_error,
        create_request orm now a (marked "Pending - Add" world),
      ))

  made :
      (world : World)
      → is_active_user a.status ≡ true
      → any (has_access a) world.db.user_attributes ≡ false
      → SetTo a AttributeType.cluster_account_status
          (text "Pending - Add")
          world.db
          (mark "Pending - Add" world)
      → Made world
  made world active free (r, set, attribute, value, changed) = (
    requested world r active free set,
    free,
    refused (create_request orm now a (marked "Pending - Add" world)) active
        (any-Member (has_access a) _ r changed.0 (has_access_of r _ attribute value)),
  )

  -- Where no two user attributes share a key, a request for access either is made, so that the user
  -- had no access, pending or active, and the same request is refused from then on, or raises and
  -- changes nothing.
  pub request_access-once :
      (world : World)
      → KeyedUsers world.db
      → Made world ⊎ ((e : Exception) × (request_access orm now a world ≡ (err e, world)))
  request_access-once world keyed = elim (Bool-cases (is_active_user a.status)) [
    | inr i ↦ inr (assertion_error, refused_inactive world i)
    | inl active ↦ elim (Bool-cases (any (has_access a) world.db.user_attributes)) [
      | inl taken ↦ inr (cluster_access_validation_error, refused world active taken)
      | inr free ↦
          elim (set_allocation_user_attribute_value-SetTo orm now a
            AttributeType.cluster_account_status (text "Pending - Add") world.db keyed) [
              | inl set ↦ inl (made world active free set)
              | inr e ↦ inr (
                multiple_objects_returned allocation_user_attribute,
                refused_several world _ active free (ap (λ x. x.0) e),
              )
            ]
    ]
  ]

  -- Every attribute of the user is one under the user's allocation.
  abbrev pub OwnAttributes : Db → Type 0
  OwnAttributes db =
      (x : AllocationUserAttribute)
      → Member x db.user_attributes
      → (x.allocation_user == a.pk) ≡ true
      → (x.allocation == a.allocation) ≡ true

  free_after_denial :
      (world : World) (r : AllocationUserAttribute)
      → OwnAttributes world.db
      → is_attribute_of AttributeType.cluster_account_status a r ≡ true
      → r.value ≡ text "Denied"
      → ((x : AllocationUserAttribute)
          → Member x (marked "Denied" world).db.user_attributes
          → (x ≡ r)
            ⊎ (Member x world.db.user_attributes
                × (is_attribute_of AttributeType.cluster_account_status a x ≡ false)))
      → any (has_access a) (marked "Denied" world).db.user_attributes ≡ false
  free_after_denial world r own attribute value from =
      none-Member (has_access a) (marked "Denied" world).db.user_attributes λ x m. elim (from x m) [
        | inl e ↦ rw e (has_access_of r _ attribute value)
        | inr (before, other) ↦ ground (arith, own x before, other)
      ]

  denial_cases :
      (world : World)
      → KeyedUsers world.db
      → (deny_access orm now a world).0 ≡ ok tt
      → SetTo a AttributeType.cluster_account_status (text "Denied") world.db (mark "Denied" world)
  unfolding deny_access
  denial_cases world keyed done =
      elim (set_allocation_user_attribute_value-SetTo orm now a AttributeType.cluster_account_status
        (text "Denied") world.db keyed) [
          | inl set ↦ set
          | inr e ↦
              let failed : (mark "Denied" world).0
                  ≡ err (multiple_objects_returned allocation_user_attribute) =
                ap (λ x. x.0) e in
              ground (arith, failed, done)
        ]

  made_again :
      (world : World) (r : AllocationUserAttribute)
      → is_active_user a.status ≡ true
      → any (has_access a) world.db.user_attributes ≡ false
      → KeyedUsers world.db
      → keep (is_attribute_of AttributeType.cluster_account_status a) world.db.user_attributes
        ≡ r ∷ []
      → Made world
  made_again world r active free keyed k =
      let test = is_attribute_of AttributeType.cluster_account_status a in
      let found : orm.get allocation_user_attribute test world.db.user_attributes ≡ ok r =
        orm.get_lem allocation_user_attribute test world.db.user_attributes
        ∙ ap (single allocation_user_attribute) k in
      made world active free (
        found_set orm now a AttributeType.cluster_account_status (text "Pending - Add") world.db r
          keyed k found)

  -- Where no two user attributes share a key and those of the user are under the user's allocation,
  -- a user whose access was denied, and who is active, can ask for it again: the request is made.
  pub deny_access-then_request :
      (world : World)
      → KeyedUsers world.db
      → OwnAttributes world.db
      → is_active_user a.status ≡ true
      → (deny_access orm now a world).0 ≡ ok tt
      → (request_access orm now a (deny_access orm now a world).1).0 ≡ ok tt
  deny_access-then_request world keyed own active done =
      let (r, set, attribute, value, changed) = denial_cases world keyed done in
      let free = free_after_denial world r own attribute value changed.2 in
      let (again, _, _) = made_again (marked "Denied" world) r active free changed.4 changed.1 in
      rw (denied world r set) (ap (λ x. x.0) again)
