-- ===== src/Units/Found.antt =====
-- The accounting objects of `get_accounting_allocation_objects` of api/statistics/utils.py, part by
-- part, and the loop over a project's users of `AllocationAdditionProcessingRunner`, which leaves
-- the project's part as it is.
use coldfront.Base.{
  ℕ, ◌≡◌, ◌==◌, refl, Bool, true, false, List, [], ◌∷◌, ok, arith, String, allocation, inl, inr,
  Action, bind-ok, when, ◌∙◌, ◌>>=◌, allocation_attribute, allocation_attribute_usage, Result-cases,
}
use coldfront.Base.Int.{ℤ, pos}
use coldfront.Orm.{Orm}
use coldfront.AllowanceInterface.{Site, get_project_compute_resource_name}
use coldfront.Tables.{Db, Project, ProjectUser, fits_digits}
use coldfront.Accounting.{
  ProjectObjects, is_compute_allocation, is_units, get_project_objects,
  get_accounting_allocation_objects,
}
use coldfront.Accounting.Found.{user_usage-found}
use coldfront.Units.Setters.{set_project_user_allocation_value, set_project_user_usage_value}
use coldfront.Units.Additions.{
  update_user, update_users, update_user_allocations, create_user_transaction,
}

module _ (orm : Orm) (site : Site) where
  -- Each part is what its own lookup finds.
  abbrev pub Parts : Project → Bool → Db → String → ProjectObjects → Type 0
  Parts p enforce db name o =
      (get_project_compute_resource_name site p.name ≡ ok name)
      × (orm.get allocation (is_compute_allocation p name enforce) db.allocations ≡ ok o.allocation)
      × (orm.get allocation_attribute (is_units o.allocation.pk) db.attributes ≡ ok o.attribute)
      × (orm.get allocation_attribute_usage (λ u. u.attribute == o.attribute.pk) db.attribute_usages
          ≡ ok o.usage)

  pub Parts-found :
      (p : Project) (enforce : Bool) (db : Db) (o : ProjectObjects)
      → get_project_objects orm site p enforce db ≡ ok o
      → (name : String) × Parts p enforce db name o
  unfolding get_project_objects
  Parts-found p enforce db o h =
      elim (Result-cases (get_project_compute_resource_name site p.name)) [
        | inl (name, e) ↦ (name, ground (arith, e, h))
        | inr (x, e) ↦ ground (arith, e, h)
      ]

  pub found_by-Parts :
      (p : Project) (enforce : Bool) (db : Db) (name : String) (o : ProjectObjects)
      → Parts p enforce db name o
      → get_project_objects orm site p enforce db ≡ ok o
  unfolding get_project_objects
  found_by-Parts p enforce db name o (n, a, t, u) = ground (arith, n, a, t, u)

-- The tables of the project's part are the same.
abbrev pub SamePart : Db → Db → Type 0
SamePart db after =
    (after.allocations ≡ db.allocations)
    × (after.attributes ≡ db.attributes)
    × (after.attribute_usages ≡ db.attribute_usages)

-- It never raises, and leaves the project's part as it was.
abbrev pub Gentle : {A : Type 0} → Action Db A → Type 0
Gentle m = (db : Db) → (a : _) × ((m db).0 ≡ ok a) × SamePart db (m db).1

bind-Gentle :
    {A B : Type 0} (m : Action Db A) (f : A → Action Db B)
    → Gentle m
    → ((a : A) → Gentle (f a))
    → Gentle (m >>= f)
bind-Gentle m f gm gf db =
    let (a, ea, sa) = gm db in
    let (b, eb, sb) = gf a (m db).1 in
    rw (bind-ok m f db a ea) (b, eb, (sb.0 ∙ sa.0, sb.1 ∙ sa.1, sb.2 ∙ sa.2))

module _ (orm : Orm) (site : Site) where
  pub Parts-same :
      (p : Project) (enforce : Bool) (db after : Db) (name : String) (o : ProjectObjects)
      → Parts orm site p enforce db name o
      → SamePart db after
      → Parts orm site p enforce after name o
  Parts-same p enforce db after name o (n, a, t, u) (sa, st, su) = (n, rw sa a, rw st t, rw su u)

  set_project_user_allocation_value-Gentle :
      (user : ℕ) (p : Project) (value : ℤ)
      → Gentle (set_project_user_allocation_value orm site user p value)
  unfolding set_project_user_allocation_value
  set_project_user_allocation_value-Gentle user p value db =
      elim (Result-cases (get_accounting_allocation_objects orm site p user true db)) [
        | inl (o, e) ↦ (true, ground (arith, e), ground (arith, e))
        | inr (x, e) ↦ (false, ground (arith, e), ground (arith, e))
      ]

  set_project_user_usage_value-Gentle :
      (user : ℕ) (p : Project) (value : ℤ)
      → Gentle (set_project_user_usage_value orm site user p value)
  unfolding set_project_user_usage_value
  set_project_user_usage_value-Gentle user p value db =
      elim (Result-cases (get_accounting_allocation_objects orm site p user true db)) [
        | inl ((o, v), e) ↦
            let g = (user_usage-found orm site p user true db o v e).1 in
            (true, ground (arith, e, g), ground (arith, e, g))
        | inr (x, e) ↦ (false, ground (arith, e), ground (arith, e))
      ]

  module _ (now : ℕ) (to_date : ℕ → ℕ) (p : Project) (units : ℤ)
      (fits : fits_digits units ≡ true) where
    -- `ProjectUserTransaction.objects.create`, where the allowance was updated.
    when_transaction-Gentle :
        (updated : Bool) (owner : ℕ)
        → Gentle (when updated (create_user_transaction orm site now to_date owner units))
    when_transaction-Gentle true owner = λ db. rw fits (tt, refl, (refl, refl, refl))
    when_transaction-Gentle false owner = λ db. (tt, refl, (refl, refl, refl))

    update_user-Gentle : (m : ProjectUser) → Gentle (update_user orm site now to_date p units m)
    update_user-Gentle m =
        let note : Bool → Action Db (Unit {0}) =
          λ updated. when updated (create_user_transaction orm site now to_date m.pk units) in
        let reset : Action Db Bool = set_project_user_usage_value orm site m.user p (pos 0) in
        bind-Gentle (set_project_user_allocation_value orm site m.user p units)
          (λ updated. reset >>= (λ b. note updated))
          (set_project_user_allocation_value-Gentle m.user p units)
          (λ updated.
            bind-Gentle reset (λ b. note updated)
              (set_project_user_usage_value-Gentle m.user p (pos 0))
              (λ b. when_transaction-Gentle updated m.pk))

    update_users-Gentle :
        (ms : List ProjectUser) → Gentle (update_users orm site now to_date p units ms)
    update_users-Gentle [] = λ db. (tt, refl, (refl, refl, refl))
    update_users-Gentle (m ∷ ms) =
        bind-Gentle (update_user orm site now to_date p units m)
          (λ t. update_users orm site now to_date p units ms) (update_user-Gentle m)
          (λ t. update_users-Gentle ms)

    -- Updating the users of a project to an amount that its column holds never raises, and leaves the project's part as it is.
    pub update_user_allocations-Gentle :
        Gentle (update_user_allocations orm site now to_date p units)
    unfolding update_user_allocations
    update_user_allocations-Gentle db = update_users-Gentle _ db
