-- ===== src/Units/Allocate.antt =====
-- What `allocate_service_units_to_user` of core/allocation/utils_/accounting_utils/__init__.py
-- leaves.
use coldfront.Base.{
  ℕ, ◌≡◌, ◌==◌, refl, ap, ◌∙◌, sym, inl, inr, true, none, Result, ok, err, arith, Result-cases,
  allocation_user_attribute, ok_inj, multiple_objects_returned,
}
use coldfront.Base.Int.{ℤ}
use coldfront.Orm.{Orm, single}
use coldfront.Orm.Change.{Changed, save-Changed, Changed-trans}
use coldfront.Tables.{Db, AllocationUser, AllocationUserAttribute, AttributeType, decimal}
use coldfront.Units.Service.{
  is_attribute_of, set_allocation_user_attribute_value, set_allocation_user_service_units_allowance,
  allocate_service_units_to_user,
}
use coldfront.Units.Attributes.{KeyedUsers, SetTo, set_allocation_user_attribute_value-SetTo}
use coldfront.Units.Everyone.{allowance_saved}

module _ (orm : Orm) (now : ℕ) (a : AllocationUser) (n : ℤ) (db : Db) where
  abbrev set : Result AllocationUserAttribute × Db
  set = set_allocation_user_attribute_value orm now a AttributeType.service_units (decimal n) db

  abbrev allowed : AllocationUserAttribute → Result (Unit {0}) × Db
  allowed r = set_allocation_user_service_units_allowance orm now r n none set.1

  allocate_steps :
      (r : AllocationUserAttribute)
      → set.0 ≡ ok r
      → (allocate_service_units_to_user orm now a n db).0 ≡ ok tt
      → ((allowed r).0 ≡ ok tt)
        × ((allocate_service_units_to_user orm now a n db).1 ≡ (allowed r).1)
  unfolding allocate_service_units_to_user
  allocate_steps r e h = elim (Result-cases (allowed r).0) [
    | inl (t, k) ↦ (k, ground (arith, e, k))
    | inr (x, k) ↦ ground (arith, e, k, h)
  ]

  allocate_set :
      KeyedUsers db
      → (allocate_service_units_to_user orm now a n db).0 ≡ ok tt
      → SetTo a AttributeType.service_units (decimal n) db set
  unfolding allocate_service_units_to_user
  allocate_set keyed h =
      elim (set_allocation_user_attribute_value-SetTo orm now a AttributeType.service_units
        (decimal n) db keyed) [
          | inl s ↦ s
          | inr e ↦
              let failed : set.0 ≡ err (multiple_objects_returned allocation_user_attribute) =
                ap (λ x. x.0) e in
              ground (arith, failed, h)
        ]

  -- Where no two user attributes share a key, a user that is allocated service units has an
  -- attribute of that many, and no other user attribute changes.
  pub allocate_service_units_to_user-Changed :
      KeyedUsers db
      → (allocate_service_units_to_user orm now a n db).0 ≡ ok tt
      → (s : AllocationUserAttribute) × (is_attribute_of AttributeType.service_units a s ≡ true)
        × (s.value ≡ decimal n)
        × Changed
            (λ (x : AllocationUserAttribute). x.pk)
            (is_attribute_of AttributeType.service_units a)
            s
            db.user_attributes
            (allocate_service_units_to_user orm now a n db).1.user_attributes
  allocate_service_units_to_user-Changed keyed h =
      let test = is_attribute_of AttributeType.service_units a in
      let (r, done, pass, value, changed) = allocate_set keyed h in
      let (ok_allowed, last) = allocate_steps r done h in
      let (locked, found, saved) = allowance_saved orm now r n none set.1 ok_allowed in
      let own = changed.4 r changed.0 in
      let same : locked ≡ r = ok_inj locked r (
        sym found
        ∙ orm.get_lem allocation_user_attribute (λ x. x.pk == r.pk) set.1.user_attributes
        ∙ ap (single allocation_user_attribute) own) in
      let row : AllocationUserAttribute = record r { value = decimal n } in
      let second =
        save-Changed orm (λ x. x.pk) test row set.1.user_attributes changed.4 pass r changed.1
          refl in
      rw (last, saved, same)
        (
          row,
          pass,
          refl,
          Changed-trans (λ x. x.pk) test r row db.user_attributes set.1.user_attributes _ pass
              changed second,
        )
