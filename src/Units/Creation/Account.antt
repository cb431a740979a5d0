-- ===== src/Units/Creation/Account.antt =====
-- What `create_project_allocation` of api/statistics/utils.py creates can be charged.
use coldfront.Base.{
  ℕ, String, ◌≡◌, ◌==◌, ==_iff, refl, inl, inr, true, false, some, List, [], ◌∷◌, ◌++◌, keep,
  Member, Result, ok, arith, Bool-cases, str_eq, eq_iff, allocation, allocation_attribute,
  allocation_attribute_usage, ◌>>=◌,
}
use coldfront.Base.Int.{ℤ, pos}
use coldfront.Orm.{Orm, has_key}
use coldfront.Orm.Keys.{keep-none}
use coldfront.Orm.Lookup.{get-new_by}
use coldfront.AllowanceInterface.{Site, get_project_compute_resource_name}
use coldfront.Tables.{Db, Project, Allocation, AllocationAttribute, AttributeUsage}
use coldfront.Accounting.{is_compute_allocation, is_units}
use coldfront.Units.Rows.{save_with_usage, with_usage, add_transaction}
use coldfront.Units.Found.{Parts, found_by-Parts}
use coldfront.Units.Account.{account}
use coldfront.Units.Creation.{
  new_allocation, new_attribute, add_allocation, create_project_allocation,
}

-- The keys that the rows refer to are in their tables.
abbrev pub Refers : {R S : Type 0} → (R → ℕ) → List R → (S → ℕ) → List S → Type 0
Refers to rs pk ss = (r : _) → Member r rs → has_key pk (to r) ss ≡ true

abbrev pub Sound : Db → Type 0
Sound db =
    Refers (λ (t : AllocationAttribute). t.allocation) db.attributes (λ (a : Allocation). a.pk)
      db.allocations
    × Refers (λ (u : AttributeUsage). u.attribute) db.attribute_usages
        (λ (t : AllocationAttribute). t.pk) db.attributes

module _ (orm : Orm) (site : Site) (now : ℕ) (resource : Result String) (p : Project) (value : ℤ)
    (name : String) (db : Db) where
  abbrev run : Result (Allocation × AllocationAttribute) × Db
  run = create_project_allocation orm now resource p value db

  abbrev pub created_allocation : Allocation
  created_allocation = new_allocation orm now resource p name db

  abbrev pub created_attribute : AllocationAttribute
  created_attribute = new_attribute orm now resource created_allocation value db

  abbrev after : Db
  after = add_transaction p.pk now value (
      save_with_usage orm created_attribute (add_allocation orm now resource created_allocation db))

  create_run : resource ≡ ok name → run ≡ (ok (created_allocation, created_attribute), after)
  unfolding create_project_allocation
  create_run h = rw (◌>>=◌, h) refl

  -- A row that refers to a key which is not in the table is not there.
  none_refer :
      {R S : Type 0} (to : R → ℕ) (rs : List R) (pk : S → ℕ) (ss : List S) (k : ℕ)
      → Refers to rs pk ss
      → has_key pk k ss ≡ false
      → keep (λ r. to r == k) rs ≡ []
  none_refer to rs pk ss k sound fresh = keep-none _ rs (λ r m. elim (Bool-cases (to r == k)) [
    | inr q ↦ q
    | inl q ↦ cc (sound r m, fresh, (==_iff (to r) k).0 q)
  ])

  fresh_allocation : has_key (λ (x : Allocation). x.pk) created_allocation.pk db.allocations ≡ false
  fresh_allocation = orm.next_key-fresh (λ (x : Allocation). x.pk) db.allocations

  fresh_attribute :
      has_key (λ (x : AllocationAttribute). x.pk) created_attribute.pk db.attributes ≡ false
  fresh_attribute = orm.next_key-fresh (λ (x : AllocationAttribute). x.pk) db.attributes

  no_units : Sound db → keep (is_units created_allocation.pk) db.attributes ≡ []
  no_units sound = keep-none (is_units created_allocation.pk) db.attributes (λ x m.
      elim (Bool-cases (x.allocation == created_allocation.pk)) [
        | inr q ↦ ground (arith, q)
        | inl q ↦
            cc (sound.0 x m, fresh_allocation, (==_iff x.allocation created_allocation.pk).0 q)
      ])

  abbrev first_usage : AttributeUsage
  first_usage = record { attribute = created_attribute.pk; value = pos 0 }

  usage_added :
      Sound db
      → with_usage orm created_attribute.pk created_attribute.attribute_type db.attribute_usages
        ≡ db.attribute_usages ++ first_usage ∷ []
  usage_added sound =
      let none_left =
        none_refer (λ (u : AttributeUsage). u.attribute) db.attribute_usages
          (λ (x : AllocationAttribute). x.pk) db.attributes created_attribute.pk sound.1
          fresh_attribute in
      rw (orm.filter_lem, none_left) refl

  created-Parts :
      get_project_compute_resource_name site p.name ≡ ok name
      → keep (is_compute_allocation p name true) db.allocations ≡ []
      → Sound db
      → Parts orm site p true after name (record {
        allocation = created_allocation;
        attribute = created_attribute;
        usage = first_usage;
      })
  unfolding save_with_usage
  created-Parts n vacant sound =
      let same : str_eq name name ≡ true = (eq_iff name name).1 refl in
      let pass_a : is_compute_allocation p name true created_allocation ≡ true =
        ground (arith, same) in
      let pass_t : is_units created_allocation.pk created_attribute ≡ true = ground arith in
      let none_left =
        none_refer (λ (u : AttributeUsage). u.attribute) db.attribute_usages
          (λ (x : AllocationAttribute). x.pk) db.attributes created_attribute.pk sound.1
          fresh_attribute in
      (
        n,
        rw
            (orm.save_new (λ (x : Allocation). x.pk) created_allocation db.allocations
              fresh_allocation)
            (get-new_by orm allocation (is_compute_allocation p name true) created_allocation
              db.allocations vacant pass_a),
        rw
            (orm.save_new (λ (x : AllocationAttribute). x.pk) created_attribute db.attributes
              fresh_attribute)
            (get-new_by orm allocation_attribute (is_units created_allocation.pk) created_attribute
              db.attributes (no_units sound) pass_t),
        rw (usage_added sound) (
            get-new_by orm allocation_attribute_usage (λ u. u.attribute == created_attribute.pk)
              first_usage db.attribute_usages none_left (ground arith)),
      )

  -- Where the rows refer to rows that are there, a project without an active allocation to the
  -- primary compute resource, which is the one for its name, gets one by
  -- `create_project_allocation`, and its account then has the given allowance and no usage.
  pub create_project_allocation-account :
      resource ≡ ok name
      → get_project_compute_resource_name site p.name ≡ ok name
      → keep (is_compute_allocation p name true) db.allocations ≡ []
      → Sound db
      → (run.0 ≡ ok (created_allocation, created_attribute))
        × (account orm site p run.1 ≡ some (record { allowance = value; usage = pos 0 }))
  create_project_allocation-account h n vacant sound =
      let found = found_by-Parts orm site p true after name _ (created-Parts n vacant sound) in
      rw (create_run h) (refl, rw found refl)
