-- ===== src/Units/Account.antt =====
-- What a purchase of service units promises, said of an account and no tables, and that
-- `AllocationAdditionProcessingRunner` of core/project/utils_/addition_utils.py keeps it.
use coldfront.Base.{
  ℕ, ◌≡◌, refl, ◌∙◌, sym, Result-cases, inl, inr, true, Option, none, some, Result, ok, err, arith,
  String, allocation, allocation_attribute, allocation_attribute_usage, addition_request, ◌==◌,
  ◌>>=◌,
}
use coldfront.Base.Int.{ℤ, pos, ◌+ℤ◌, ◌-ℤ◌, max_ℤ}
use coldfront.Orm.{Orm}
use coldfront.Orm.Keys.{Keyed, get-save_kept}
use coldfront.Orm.Lookup.{get-pass, get-save_self}
use coldfront.AllowanceInterface.{Site}
use coldfront.Tables.{
  Db, Project, Allocation, AllocationAttribute, AttributeUsage, to_decimal, decimal, fits_digits,
}
use coldfront.Accounting.{ProjectObjects, is_compute_allocation, is_units, get_project_objects}
use coldfront.Accounting.Found.{project_usage-found}
use coldfront.World.{AdditionRequest, AdditionStatus, World}
use coldfront.Units.Rows.{save_allocation}
use coldfront.Units.Setters.{set_project_allocation_value, set_project_usage_value}
use coldfront.Units.Additions.{
  update_user_allocations, is_under_review, compute_updated_service_units, update_allocation,
  process_addition, complete_addition,
}
use coldfront.Units.Found.{
  Parts, Parts-found, Parts-same, found_by-Parts, update_user_allocations-Gentle,
}

pub record Account : Type 0 where
  pub allowance : ℤ
  pub usage : ℤ

-- The units that are left over stay, and the usage starts anew.
abbrev pub buy : ℤ → Account → Account
buy units account = record {
  allowance = max_ℤ (account.allowance -ℤ account.usage) (pos 0) +ℤ units;
  usage = pos 0;
}

abbrev pub account_of : Result ProjectObjects → Option Account
account_of (err e) = none
account_of (ok o) = elim (to_decimal o.attribute.value) [
  | ok allowance ↦ some (record { allowance = allowance; usage = o.usage.value })
  | err e ↦ none
]

module _ (orm : Orm) (site : Site) where
  -- The account of a project that the tables hold, if the project can be charged.
  abbrev pub account : Project → Db → Option Account
  account project db = account_of (get_project_objects orm site project true db)

  module _ (p : Project) where
    -- After its allowance is set, a project's objects are found, with that allowance.
    set_value_found :
        (value : ℤ) (db : Db) (name : String) (o : ProjectObjects)
        → Keyed (λ (x : AllocationAttribute). x.pk) db.attributes
        → Parts orm site p true db name o
        → ((set_project_allocation_value orm site p value db).0 ≡ ok true)
          × Parts orm site p true
              (set_project_allocation_value orm site p value db).1
              name
              (record o { attribute = record o.attribute { value = decimal value } })
          × ((set_project_allocation_value orm site p value db).1.allocations ≡ db.allocations)
    unfolding set_project_allocation_value
    set_value_found value db name o keyed parts =
        let row : AllocationAttribute = record o.attribute { value = decimal value } in
        let pass =
          get-pass orm allocation_attribute (is_units o.allocation.pk) db.attributes o.attribute
            parts.2 in
        rw (found_by-Parts orm site p true db name o parts) (
          refl,
          (
            parts.0,
            parts.1,
            get-save_kept orm allocation_attribute (λ x. x.pk) (is_units o.allocation.pk) row
                o.attribute db.attributes keyed parts.2 refl pass,
            parts.3,
          ),
          refl,
        )

    set_usage_found :
        (value : ℤ) (db : Db) (name : String) (o : ProjectObjects)
        → Parts orm site p true db name o
        → ((set_project_usage_value orm site p value db).0 ≡ ok true)
          × Parts orm site p true
              (set_project_usage_value orm site p value db).1
              name
              (record o { usage = record o.usage { value = value } })
          × ((set_project_usage_value orm site p value db).1.allocations ≡ db.allocations)
    unfolding set_project_usage_value
    set_usage_found value db name o parts =
        let row : AttributeUsage = record o.usage { value = value } in
        let found = found_by-Parts orm site p true db name o parts in
        let (lock, key) = project_usage-found orm site p true db o found in
        let saved =
          get-save_self orm allocation_attribute_usage (λ x. x.attribute) row o.usage
            db.attribute_usages lock in
        rw (found, ◌>>=◌, lock) (refl, (parts.0, parts.1, parts.2, rw (sym key) saved), refl)

    -- The allocation starts again on the day of the purchase.
    started_found :
        (day : ℕ) (db : Db) (name : String) (o : ProjectObjects)
        → Keyed (λ (x : Allocation). x.pk) db.allocations
        → Parts orm site p true db name o
        → Parts orm site p true
            (save_allocation orm (record o.allocation { start_date = some day }) db)
            name
            (record o { allocation = record o.allocation { start_date = some day } })
    started_found day db name o keyed parts =
        let row : Allocation = record o.allocation { start_date = some day } in
        let test = is_compute_allocation p name true in
        let pass = get-pass orm allocation test db.allocations o.allocation parts.1 in
        (
          parts.0,
          get-save_kept orm allocation (λ x. x.pk) test row o.allocation db.allocations keyed
              parts.1 refl pass,
          parts.2,
          parts.3,
        )

    -- Where the tables are keyed, the objects that were found are found again after the update of
    -- the allocation, with the new allowance, no usage and the new day.
    module _ (now : ℕ) (to_date : ℕ → ℕ) (units : ℤ) (db : Db) where
      abbrev updated : ProjectObjects → ProjectObjects
      updated o = record {
        allocation = record o.allocation { start_date = some (to_date now) };
        attribute = record o.attribute { value = decimal units };
        usage = record o.usage { value = pos 0 };
      }

      update_allocation_found :
          (name : String) (o : ProjectObjects)
          → Keyed (λ (x : AllocationAttribute). x.pk) db.attributes
          → Keyed (λ (x : Allocation). x.pk) db.allocations
          → Parts orm site p true db name o
          → fits_digits units ≡ true
          → ((update_allocation orm site now to_date p o units db).0 ≡ ok tt)
            × Parts orm site p true
                (update_allocation orm site now to_date p o units db).1
                name
                (updated o)
      unfolding update_allocation
      update_allocation_found name o keyed_attributes keyed_allocations parts fits =
          let valued : ProjectObjects = record o {
            attribute = record o.attribute { value = decimal units };
          } in
          let reset : ProjectObjects = record valued { usage = record o.usage { value = pos 0 } } in
          let db1 = (set_project_allocation_value orm site p units db).1 in
          let db2 = (set_project_usage_value orm site p (pos 0) db1).1 in
          let (done1, parts1, same1) = set_value_found units db name o keyed_attributes parts in
          let (done2, parts2, same2) = set_usage_found (pos 0) db1 name valued parts1 in
          let keyed2 : Keyed (λ (x : Allocation). x.pk) db2.allocations =
            rw (same2 ∙ same1) keyed_allocations in
          let parts3 = started_found (to_date now) db2 name reset keyed2 parts2 in
          rw (◌>>=◌, done1, done2, fits) (refl, parts3)

  account_parts :
      (p : Project) (db : Db) (before : Account)
      → account p db ≡ some before
      → (o : ProjectObjects) × (get_project_objects orm site p true db ≡ ok o)
        × (to_decimal o.attribute.value ≡ ok before.allowance)
        × (o.usage.value ≡ before.usage)
  account_parts p db before h = elim (Result-cases (get_project_objects orm site p true db)) [
    | inl (o, e) ↦ (o, e, ground (arith, e, h), ground (arith, e, h))
    | inr (x, e) ↦ ground (arith, e, h)
  ]

  module _ (now : ℕ) (to_date : ℕ → ℕ) (r : AdditionRequest) (world : World) where
    abbrev run : Result ℤ × World
    run = process_addition orm site now to_date r world

    abbrev after_users : ProjectObjects → ℤ → Result (Unit {0}) × Db
    after_users o units =
        update_user_allocations orm site now to_date r.project units
          (update_allocation orm site now to_date r.project o units world.db).1

    process_run :
        (o : ProjectObjects) (units : ℤ)
        → is_under_review r.status ≡ true
        → get_project_objects orm site r.project true world.db ≡ ok o
        → compute_updated_service_units orm site now to_date o r.num_service_units ≡ ok units
        → (update_allocation orm site now to_date r.project o units world.db).0 ≡ ok tt
        → (after_users o units).0 ≡ ok tt
        → (run.0 ≡ ok units)
          × (run.1.db ≡ (after_users o units).1)
          × (run.1.addition_requests
              ≡ (complete_addition orm site now to_date r world).addition_requests)
    unfolding process_addition
    process_run o units review found computed done quiet =
        rw (review, ◌>>=◌, found, computed, done, quiet) (refl, refl, refl)

    computed_units :
        (o : ProjectObjects) (before : Account)
        → to_decimal o.attribute.value ≡ ok before.allowance
        → o.usage.value ≡ before.usage
        → compute_updated_service_units orm site now to_date o r.num_service_units
          ≡ ok (buy r.num_service_units before).allowance
    unfolding compute_updated_service_units
    computed_units o before read used = rw (read, used) refl

    -- Where no two allocations and no two attributes share a key, processing a
    -- purchase that is under review and in the table, for a project whose account can be read,
    -- refines `buy`, provided that the new allowance has no more digits than a column holds: it
    -- succeeds and returns the allowance of the account that `buy` makes of the one before, that
    -- account is read afterwards, and the request is found with the status complete, that time as its
    -- time of completion, and no other field changed.
    pub process_addition-buy :
        (before : Account)
        → Keyed (λ (x : AllocationAttribute). x.pk) world.db.attributes
        → Keyed (λ (x : Allocation). x.pk) world.db.allocations
        → orm.get addition_request (λ (x : AdditionRequest). x.pk == r.pk) world.addition_requests
          ≡ ok r
        → is_under_review r.status ≡ true
        → account r.project world.db ≡ some before
        → fits_digits (buy r.num_service_units before).allowance ≡ true
        → (run.0 ≡ ok (buy r.num_service_units before).allowance)
          × (account r.project run.1.db ≡ some (buy r.num_service_units before))
          × (orm.get addition_request
                (λ (x : AdditionRequest). x.pk == r.pk)
                run.1.addition_requests
              ≡ ok (record r { status = AdditionStatus.complete; completion_time = some now }))
    process_addition-buy before keyed_attributes keyed_allocations stored review h fits =
        let units = (buy r.num_service_units before).allowance in
        let (o, found, read, used) = account_parts r.project world.db before h in
        let (name, parts) = Parts-found orm site r.project true world.db o found in
        let (done, kept) =
          update_allocation_found r.project now to_date units world.db name o keyed_attributes
            keyed_allocations parts fits in
        let db1 = (update_allocation orm site now to_date r.project o units world.db).1 in
        let (t, quiet, same) =
          update_user_allocations-Gentle orm site now to_date r.project units fits db1 in
        let (value, after, requests) =
          process_run o units review found (computed_units o before read used) done quiet in
        let again =
          Parts-same orm site r.project true db1 (after_users o units).1 name _ kept same in
        let refound = found_by-Parts orm site r.project true (after_users o units).1 name _ again in
        let completed : AdditionRequest = record r {
          status = AdditionStatus.complete;
          completion_time = some now;
        } in
        (
          value,
          rw (after, refound) refl,
          rw requests (
              get-save_self orm addition_request (λ (x : AdditionRequest). x.pk) completed r
                world.addition_requests stored),
        )
