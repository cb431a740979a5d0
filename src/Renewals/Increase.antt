-- ===== src/Renewals/Increase.antt =====
-- What a renewal does to the account of the project: `update_allocation` of
-- `AllocationRenewalProcessingRunner` in core/project/utils_/renewal_utils.py.
use coldfront.Base.{
  ℕ, String, ◌≡◌, ◌==◌, refl, ap, ◌∙◌, inl, inr, ◌⊎◌, Bool, true, false, some, List, [], ◌∷◌, keep,
  Result, ok, err, arith, allocation, allocation_attribute, allocation_attribute_usage, value_error,
  Bool-cases, if◌then◌else◌,
}
use coldfront.Base.Int.{ℤ, ◌+ℤ◌}
use coldfront.Orm.{Orm, single}
use coldfront.Orm.Keys.{Keyed, get-save_kept}
use coldfront.Orm.Lookup.{get-keep, get-pass}
use coldfront.AllowanceInterface.{Site}
use coldfront.Tables.{Db, ProjectStatus, Allocation, AllocationAttribute, decimal}
use coldfront.Accounting.{ProjectObjects, is_compute_allocation, is_units, get_project_objects}
use coldfront.World.{RenewalRequest}
use coldfront.Units.Rows.{save_allocation, save_with_usage, with_usage, add_transaction}
use coldfront.Units.Service.{in_bounds}
use coldfront.Units.Found.{Parts, Parts-found, found_by-Parts}
use coldfront.Units.Account.{account}
use coldfront.Members.{get_project_compute_allocation}
use coldfront.Renewals.{is_active_project, validate_num_service_units}
use coldfront.Renewals.Processing.{existing_value, renewed, update_allocation}

keep_none_stronger :
    {R : Type 0} (p q : R → Bool) (ts : List R)
    → ((x : R) → q x ≡ true → p x ≡ true)
    → keep p ts ≡ []
    → keep q ts ≡ []
keep_none_stronger p q [] imp h = refl
keep_none_stronger p q (x ∷ ts) imp h = ground (arith, imp x, keep_none_stronger p q ts imp)

-- The one row that passes a test is the one that passes a stronger test, if it does.
keep_stronger :
    {R : Type 0} (p q : R → Bool) (ts : List R) (r : R)
    → ((x : R) → q x ≡ true → p x ≡ true)
    → keep p ts ≡ r ∷ []
    → q r ≡ true
    → keep q ts ≡ r ∷ []
keep_stronger p q [] r imp h e = cc
keep_stronger p q (x ∷ ts) r imp h e =
    ground (arith, e, imp x, keep_none_stronger p q ts imp, keep_stronger p q ts r imp)

module _ (orm : Orm) (site : Site) (now today : ℕ) (r : RenewalRequest) (units : ℤ)
    (old_status : ProjectStatus) (db : Db) where
  abbrev run : Result (Allocation × ℤ) × Db
  run = update_allocation orm now today site r units old_status db

  abbrev pub active : ProjectObjects → Allocation
  active o =
      renewed orm now today site (is_active_project old_status) r.allocation_period o.allocation

  found_allocation :
      (name : String) (o : ProjectObjects)
      → Parts orm site r.post_project false db name o
      → get_project_compute_allocation orm site r.post_project db ≡ ok o.allocation
  unfolding get_project_compute_allocation
  found_allocation name o (n, a, _, _) = rw n a

  usage_kept :
      (o : ProjectObjects)
      → orm.get allocation_attribute_usage (λ u. u.attribute == o.attribute.pk) db.attribute_usages
        ≡ ok o.usage
      → with_usage orm o.attribute.pk o.attribute.attribute_type db.attribute_usages
        ≡ db.attribute_usages
  usage_kept o u =
      let k =
        get-keep orm allocation_attribute_usage (λ x. x.attribute == o.attribute.pk)
          db.attribute_usages o.usage u in
      rw (orm.filter_lem, k) (ground arith)

  abbrev valued : ProjectObjects → ℤ → AllocationAttribute
  valued o total = record o.attribute { value = decimal total }

  abbrev after : ProjectObjects → ℤ → Db
  after o total =
      add_transaction r.post_project.pk now total
        (save_with_usage orm (valued o total) (save_allocation orm (active o) db))

  abbrev attempt : ProjectObjects → ℤ → Result (Allocation × ℤ) × Db
  attempt o total =
      if in_bounds total
      then (ok (active o, total), after o total)
      else (err value_error, save_allocation orm (active o) db)

  update_run :
      (name : String) (o : ProjectObjects) (v : ℤ)
      → Parts orm site r.post_project false db name o
      → existing_value o.attribute.value ≡ ok v
      → run ≡ attempt o (v +ℤ units)
  unfolding update_allocation validate_num_service_units
  update_run name o v parts read =
      let found = found_allocation name o parts in
      let attribute : orm.get allocation_attribute (is_units (active o).pk) db.attributes
          ≡ ok o.attribute =
        parts.2 in
      ground (arith, found, attribute, read)

  abbrev renewed_objects : ProjectObjects → ℤ → ProjectObjects
  renewed_objects o total = record {
    allocation = active o;
    attribute = valued o total;
    usage = o.usage;
  }

  renewed-Parts :
      (name : String) (o : ProjectObjects) (total : ℤ)
      → Keyed (λ (x : AllocationAttribute). x.pk) db.attributes
      → Keyed (λ (x : Allocation). x.pk) db.allocations
      → Parts orm site r.post_project false db name o
      → Parts orm site r.post_project true (after o total) name (renewed_objects o total)
  unfolding save_with_usage
  renewed-Parts name o total keyed_attributes keyed_allocations (n, a, t, u) =
      let weak = is_compute_allocation r.post_project name false in
      let strong = is_compute_allocation r.post_project name true in
      let units_test = is_units o.allocation.pk in
      let pass_a : weak (active o) ≡ true =
        get-pass orm allocation weak db.allocations o.allocation a in
      let pass_s : strong (active o) ≡ true = ground (arith, pass_a) in
      let pass_t = get-pass orm allocation_attribute units_test db.attributes o.attribute t in
      let saved =
        get-save_kept orm allocation (λ x. x.pk) weak (active o) o.allocation db.allocations
          keyed_allocations a refl pass_a in
      let rows = orm.save (λ (x : Allocation). x.pk) (active o) db.allocations in
      let alone =
        keep_stronger weak strong rows (active o) (λ x h. ground (arith, h))
          (get-keep orm allocation weak rows (active o) saved) pass_s in
      (
        n,
        orm.get_lem allocation strong rows ∙ ap (single allocation) alone,
        get-save_kept orm allocation_attribute (λ x. x.pk) units_test (valued o total) o.attribute
            db.attributes keyed_attributes t refl pass_t,
        rw (usage_kept o u) u,
      )

  -- Where no two allocations and no two attributes share a key, the processing of a renewal whose
  -- project has an allocation with service units, of any status, sets the allowance to the sum of
  -- what it was and what is granted, keeps the usage and makes the account chargeable, if that sum
  -- is within the bounds; otherwise it raises a ValueError.
  pub update_allocation-renewed :
      (o : ProjectObjects) (v : ℤ)
      → Keyed (λ (x : AllocationAttribute). x.pk) db.attributes
      → Keyed (λ (x : Allocation). x.pk) db.allocations
      → get_project_objects orm site r.post_project false db ≡ ok o
      → existing_value o.attribute.value ≡ ok v
      → ((in_bounds (v +ℤ units) ≡ true)
          × (run.0 ≡ ok (active o, v +ℤ units))
          × (account orm site r.post_project run.1
              ≡ some (record { allowance = v +ℤ units; usage = o.usage.value })))
        ⊎ ((in_bounds (v +ℤ units) ≡ false) × (run.0 ≡ err value_error))
  update_allocation-renewed o v keyed_attributes keyed_allocations found read =
      let (name, parts) = Parts-found orm site r.post_project false db o found in
      let ran = update_run name o v parts read in
      let total = v +ℤ units in
      let again =
        found_by-Parts orm site r.post_project true (after o total) name (renewed_objects o total)
          (renewed-Parts name o total keyed_attributes keyed_allocations parts) in
      elim (Bool-cases (in_bounds total)) [
        | inl q ↦ inl (q, rw (ran, q) refl, rw (ran, q, again) refl)
        | inr q ↦ inr (q, rw (ran, q) refl)
      ]
