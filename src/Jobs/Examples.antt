-- ===== src/Jobs/Examples.antt =====
-- The theorems on one request at a project with one member and one finished job.
use coldfront.Base.{
  is_ok, ℕ, ◌==◌, ◌≡◌, refl, ◌⊎◌, inl, ◌↔◌, String, str_eq, true, false, Option, none, some,
  is_some, ◌+◌, ◌-◌, ◌≤◌, [], ◌∷◌, ok, Model, allocation_attribute_usage,
  allocation_user_attribute_usage, map, arith,
}
use coldfront.Base.Int.{ℤ, pos, negsuc, ◌+ℤ◌, ◌-ℤ◌, int_laws}
use coldfront.Allowance.{has_infinite_service_units, is_periodic}
use coldfront.Orm.Memory.{in_memory}
use coldfront.AllowanceInterface.{
  code_from_name, get_project_compute_resource_name, is_periodic_account, allowance_from_project,
  allowance_from_code, has_computing_allowance, get_computing_allowance_project_prefixes,
}
use coldfront.Tables.{Project, AttributeUsage, Job, to_decimal}
use coldfront.Accounting.{
  ProjectObjects, UserObjects, get_project_objects, get_accounting_allocation_objects,
}
use coldfront.Jobs.Dates.{
  day, dates_in_order, validate_job_dates, job_dates_valid, validate_job_dates-periodic,
}
use coldfront.Jobs.Store.{saved_job, validate_job, new_job, create_job, update_job, set_job_amount}
use coldfront.Jobs.Usage.{Balanced}
use coldfront.Jobs.Accepted.{create_job-accepted, update_job-accepted}
use coldfront.Jobs.Amount.{set_job_amount-Balanced}
use coldfront.Jobs.Submit.{
  DecimalTuple, UserProfile, affirmative, can_submit_job, decide, Fits, Unlimited, parse_cost,
}
use coldfront.Jobs.Submit.Affirmative.{can_submit_job-affirmative}
use coldfront.Jobs.Overdraw.{AtMost, create_job-Fits}
use coldfront.Jobs.Sample.{
  savio, demo, finished, compute, units, user_units, db, objects, request, to_utc, found, balanced,
  dated, periodic,
}

set_job_amount-Balanced_example :
    ((set_job_amount in_memory savio 7 (pos 250) true db).0 ≡ ok tt)
    × Balanced in_memory 1 3 10 30 (set_job_amount in_memory savio 7 (pos 250) true db).1
set_job_amount-Balanced_example =
    set_job_amount-Balanced in_memory savio db 7 finished refl demo refl objects (found false)
      (pos 250) refl (omega arith) balanced

create_job-accepted_example :
    ((create_job in_memory savio to_utc (request 8 250) db).0 ≡ ok (new_job (request 8 250))) ↔ (
      (validate_job in_memory savio none (request 8 250) db ≡ ok tt)
      × (is_ok (to_decimal units.value) ≡ true)
      × (is_ok (to_decimal user_units.value) ≡ true))
unfolding ◌+ℤ◌ ◌-ℤ◌
create_job-accepted_example =
    create_job-accepted in_memory savio to_utc (request 8 250) db objects (found true) refl refl

update_job-accepted_example :
    ((update_job in_memory savio to_utc 7 (request 7 250) db).0
      ≡ ok (saved_job (request 7 250) (some finished)))
    ↔ (validate_job in_memory savio (some finished) (request 7 250) db ≡ ok tt)
update_job-accepted_example =
    update_job-accepted in_memory savio to_utc (request 7 250) db objects (found true)
      (some finished) refl

-- The text "2.50" as a decimal.
abbrev decimal_of : String → Option DecimalTuple
decimal_of s = some (record { sign = false; digits = 2 ∷ 5 ∷ 0 ∷ []; exponent = some (negsuc 1) })

abbrev profile : UserProfile
profile = record { user = 3; cluster_uid = "5001" }

create_job-Fits_example :
    ((create_job in_memory savio to_utc (request 8 250) db).1 ≡ db)
    ⊎ ((a : ℤ) × (b : ℤ) × (to_decimal units.value ≡ ok a)
        × (to_decimal user_units.value ≡ ok b)
        × (in_memory.get Model.job
              (λ (j : Job). j.jobslurmid == 8)
              (create_job in_memory savio to_utc (request 8 250) db).1.jobs
            ≡ ok (new_job (request 8 250)))
        × AtMost in_memory allocation_attribute_usage 10
            (create_job in_memory savio to_utc (request 8 250) db).1.attribute_usages
            a
        × AtMost in_memory allocation_user_attribute_usage 30
            (create_job in_memory savio to_utc (request 8 250) db).1.user_attribute_usages
            b)
create_job-Fits_example =
    create_job-Fits in_memory savio to_utc decimal_of (λ s. s) (request 8 250) db objects
      (found true) 250 refl (dated 8 250 false)
      (pos 100000, pos 100000, refl, refl, omega int_laws, omega int_laws)

affirmed :
    can_submit_job in_memory savio decimal_of
      (λ s. s)
      false
      "2.50"
      "5001"
      "fc_demo"
      (profile ∷ [])
      db
    ≡ ok affirmative
unfolding can_submit_job decide get_accounting_allocation_objects get_project_objects
    get_project_compute_resource_name code_from_name has_computing_allowance
    has_infinite_service_units get_computing_allowance_project_prefixes allowance_from_project
    allowance_from_code ◌+ℤ◌
affirmed = refl

can_submit_job-affirmative_example :
    (cost : ℕ) × (p : UserProfile) × (account : Project) × (o : ProjectObjects × UserObjects)
    × (parse_cost in_memory savio decimal_of (λ s. s) false "2.50" ≡ ok (inl cost))
    × (in_memory.get Model.user_profile (λ p. str_eq p.cluster_uid "5001") (profile ∷ []) ≡ ok p)
    × (in_memory.get Model.project (λ (p : Project). str_eq p.name "fc_demo") db.projects
        ≡ ok account)
    × (get_accounting_allocation_objects in_memory savio account p.user true db ≡ ok o)
    × (Unlimited in_memory savio decimal_of (λ s. s) false account
        ⊎ Fits in_memory savio decimal_of (λ s. s) false cost o)
can_submit_job-affirmative_example =
    can_submit_job-affirmative in_memory savio decimal_of (λ s. s) false "2.50" "5001" "fc_demo"
      (profile ∷ []) db refl affirmed

validate_job_dates-periodic_example :
    let j = request 8 250 in
    (validate_job_dates savio to_utc j compute true ≡ ok true) ↔ (
      (is_some j.submitdate ≡ true)
      × (start : ℕ) × (first : ℕ) × (end : ℕ) × (last : ℕ) × (j.startdate ≡ some start)
      × (compute.start_date ≡ some first)
      × (j.enddate ≡ some end)
      × (compute.end_date ≡ some last)
      × (first ≤ start)
      × (end ≤ last + day - 1))
validate_job_dates-periodic_example =
    validate_job_dates-periodic savio to_utc (request 8 250) compute periodic

-- A run of `create`.
create_job_charges :
    map
      (λ (u : AttributeUsage). u.value)
      (create_job in_memory savio to_utc (request 8 250) db).1.attribute_usages
    ≡ pos 750 ∷ []
unfolding create_job validate_job dates_in_order job_dates_valid validate_job_dates
    is_periodic_account code_from_name is_periodic get_accounting_allocation_objects
    get_project_objects get_project_compute_resource_name ◌+ℤ◌
create_job_charges = refl
