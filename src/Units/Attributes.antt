-- ===== src/Units/Attributes.antt =====
-- What `set_allocation_user_attribute_value` of core/allocation/utils.py leaves.
use coldfront.Base.{
  ℕ, ◌≡◌, refl, ap, ◌∙◌, ◌⊎◌, inl, inr, Bool, true, [], ◌∷◌, keep, Result, ok, err,
  multiple_objects_returned, does_not_exist, allocation_user_attribute, arith, ◌>>=◌,
}
use coldfront.Orm.{Orm}
use coldfront.Orm.Keys.{Keyed}
use coldfront.Orm.Lookup.{get-cases, get-pass}
use coldfront.Orm.Change.{Changed, save-Changed, new-Changed, Changed-trans}
use coldfront.Tables.{Db, AllocationUser, AllocationUserAttribute, AttributeType, Value}
use coldfront.Units.Rows.{save_user_with_usage}
use coldfront.Units.Service.{
  is_attribute_of, new_user_attribute, or_create, get_or_create_user_attribute,
  set_allocation_user_attribute_value,
}

abbrev pub KeyedUsers : Db → Type 0
KeyedUsers db = Keyed (λ (x : AllocationUserAttribute). x.pk) db.user_attributes

-- The attribute of that type, and no other, has the new value.
abbrev pub SetTo :
    AllocationUser → AttributeType → Value → Db → Result AllocationUserAttribute × Db → Type 0
SetTo a type v db run =
    (r : AllocationUserAttribute) × (run.0 ≡ ok r)
    × (is_attribute_of type a r ≡ true)
    × (r.value ≡ v)
    × Changed (λ (x : AllocationUserAttribute). x.pk) (is_attribute_of type a) r db.user_attributes
        run.1.user_attributes

module _ (orm : Orm) (now : ℕ) (a : AllocationUser) (type : AttributeType) (v : Value)
    (db : Db) where
  abbrev test : AllocationUserAttribute → Bool
  test = is_attribute_of type a

  abbrev run : Result AllocationUserAttribute × Db
  run = set_allocation_user_attribute_value orm now a type v db

  after_get :
      (q : Result AllocationUserAttribute) (t : AllocationUserAttribute) (mid : Db)
      → orm.get allocation_user_attribute test db.user_attributes ≡ q
      → or_create orm now type a q db ≡ (ok t, mid)
      → run ≡ (ok (record t { value = v }), save_user_with_usage orm (record t { value = v }) mid)
  unfolding set_allocation_user_attribute_value
  after_get q t mid g e =
      let made : get_or_create_user_attribute orm now type a db ≡ (ok t, mid) =
        ap (λ x. or_create orm now type a x db) g ∙ e in
      rw (◌>>=◌, ap (λ x. x.0) made, ap (λ x. x.1) made) refl

  pub found_set :
      (t : AllocationUserAttribute)
      → KeyedUsers db
      → keep test db.user_attributes ≡ t ∷ []
      → orm.get allocation_user_attribute test db.user_attributes ≡ ok t
      → SetTo a type v db run
  unfolding save_user_with_usage
  found_set t keyed k g =
      let r : AllocationUserAttribute = record t { value = v } in
      let pass : test r ≡ true =
        get-pass orm allocation_user_attribute test db.user_attributes t g in
      rw (after_get (ok t) t db g refl) (
        r,
        refl,
        pass,
        refl,
        save-Changed orm (λ x. x.pk) test r db.user_attributes keyed pass t k refl,
      )

  missing_set :
      (g : orm.get allocation_user_attribute test db.user_attributes
        ≡ err (does_not_exist allocation_user_attribute))
      → KeyedUsers db
      → keep test db.user_attributes ≡ []
      → SetTo a type v db run
  unfolding save_user_with_usage
  missing_set g keyed k =
      let new = new_user_attribute orm now type a db in
      let r : AllocationUserAttribute = record new { value = v } in
      let pass : test new ≡ true = ground arith in
      let first =
        new-Changed orm (λ x. x.pk) test new db.user_attributes keyed pass k
          (orm.next_key-fresh (λ (x : AllocationUserAttribute). x.pk) db.user_attributes) in
      let us = orm.save (λ (x : AllocationUserAttribute). x.pk) new db.user_attributes in
      let mid = save_user_with_usage orm new db in
      let second = save-Changed orm (λ x. x.pk) test r us first.4 pass new first.1 refl in
      rw (after_get (err (does_not_exist allocation_user_attribute)) new mid g refl) (
        r,
        refl,
        pass,
        refl,
        Changed-trans (λ x. x.pk) test new r db.user_attributes us _ pass first second,
      )

  several :
      orm.get allocation_user_attribute test db.user_attributes
        ≡ err (multiple_objects_returned allocation_user_attribute)
      → run ≡ (err (multiple_objects_returned allocation_user_attribute), db)
  unfolding set_allocation_user_attribute_value
  several g =
      let made : get_or_create_user_attribute orm now type a db
          ≡ (err (multiple_objects_returned allocation_user_attribute), db) =
        ap (λ x. or_create orm now type a x db) g in
      rw (◌>>=◌, ap (λ x. x.0) made, ap (λ x. x.1) made) refl

  -- Where no two user attributes share a key, setting one sets that one alone, or changes nothing
  -- where there were several.
  pub set_allocation_user_attribute_value-SetTo :
      KeyedUsers db
      → SetTo a type v db run
        ⊎ (run ≡ (err (multiple_objects_returned allocation_user_attribute), db))
  set_allocation_user_attribute_value-SetTo keyed =
      elim (get-cases orm allocation_user_attribute test db.user_attributes) [
        | inl (t, k, g) ↦ inl (found_set t keyed k g)
        | inr (inl (k, g)) ↦ inl (missing_set g keyed k)
        | inr (inr g) ↦ inr (several g)
      ]

  pub set_allocation_user_attribute_value-attributes : run.1.attributes ≡ db.attributes
  unfolding save_user_with_usage
  set_allocation_user_attribute_value-attributes =
      elim (get-cases orm allocation_user_attribute test db.user_attributes) [
        | inl (t, k, g) ↦ ap (λ x. x.1.attributes) (after_get (ok t) t db g refl)
        | inr (inl (k, g)) ↦
            let new = new_user_attribute orm now type a db in
            ap (λ x. x.1.attributes)
              (after_get (err (does_not_exist allocation_user_attribute)) new
                (save_user_with_usage orm new db) g refl)
        | inr (inr g) ↦ ap (λ x. x.1.attributes) (several g)
      ]
