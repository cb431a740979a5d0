-- ===== src/Jobs/Overdraw.antt =====
-- The usages after `JobViewSet.create`, for a cost that `can_submit_job` of
-- api/statistics/views.py finds to fit.
use coldfront.Base.{
  ℕ, ◌==◌, ◌≡◌, ◌⊎◌, inl, inr, true, false, Option, some, ok, String, Model,
  allocation_attribute_usage, allocation_user_attribute_usage, List,
}
use coldfront.Base.Int.{ℤ, pos, ◌+ℤ◌, ◌≤ℤ◌, +ℤ_comm, ≤ℤ_of_eq}
use coldfront.Orm.{Orm}
use coldfront.Orm.Lookup.{get-save_self, get-save_new}
use coldfront.AllowanceInterface.{Site}
use coldfront.Tables.{Db, AttributeUsage, to_decimal}
use coldfront.Accounting.{ProjectObjects, UserObjects, get_accounting_allocation_objects}
use coldfront.Jobs.Dates.{JobData, job_dates_valid}
use coldfront.Jobs.Store.{charge, new_job, create_job}
use coldfront.Jobs.Charges.{create_job_cases, usage_locked, user_usage_locked}
use coldfront.Jobs.Submit.{DecimalTuple, Fits}

-- The usage of a key is there and at most `a`.
abbrev pub AtMost : Orm → Model → ℕ → List AttributeUsage → ℤ → Type 0
AtMost orm m k t a =
    (u : AttributeUsage) × (orm.get m (λ x. x.attribute == k) t ≡ ok u) × (u.value ≤ℤ a)

charge-AtMost :
    (orm : Orm) (m : Model) (t : List AttributeUsage) (u : AttributeUsage) (cost a : ℤ)
    → orm.get m (λ x. x.attribute == u.attribute) t ≡ ok u
    → cost +ℤ u.value ≤ℤ a
    → AtMost orm m u.attribute (orm.save (λ x. x.attribute) (charge cost u) t) a
charge-AtMost orm m t u cost a h fits = (
  charge cost u,
  get-save_self orm m (λ x. x.attribute) (charge cost u) u t h,
  ≤ℤ_of_eq _ _ _ (+ℤ_comm cost u.value) fits,
)

module _ (orm : Orm) (site : Site) (to_utc : ℕ → ℕ) (decimal : String → Option DecimalTuple)
    (strip : String → String) (job : JobData) (db : Db) (objects : ProjectObjects × UserObjects)
    (found : get_accounting_allocation_objects orm site job.account job.user true db ≡ ok objects)
    (cost : ℕ) (priced : job.amount ≡ some (pos cost)) where
  -- When a new job with valid dates has a cost that fits the allocations of its account and user,
  -- `create` changes nothing, or stores the job and leaves both usages at most at the allocations.
  pub create_job-Fits :
      job_dates_valid site to_utc job objects.0.allocation false ≡ true
      → Fits orm site decimal strip false cost objects
      → ((create_job orm site to_utc job db).1 ≡ db)
        ⊎ ((a : ℤ) × (b : ℤ) × (to_decimal objects.0.attribute.value ≡ ok a)
            × (to_decimal objects.1.attribute.value ≡ ok b)
            × (orm.get Model.job
                  (λ j. j.jobslurmid == job.jobslurmid)
                  (create_job orm site to_utc job db).1.jobs
                ≡ ok (new_job job))
            × AtMost orm allocation_attribute_usage objects.0.usage.attribute
                (create_job orm site to_utc job db).1.attribute_usages
                a
            × AtMost orm allocation_user_attribute_usage objects.1.usage.attribute
                (create_job orm site to_utc job db).1.user_attribute_usages
                b)
  create_job-Fits dated (a, b, ea, eb, fa, fb) =
      elim (create_job_cases orm site to_utc job db objects found (pos cost) priced dated) [
        | inl same ↦ inl same
        | inr (h, new, after) ↦ inr (
            rw after (
              a,
              b,
              ea,
              eb,
              get-save_new orm Model.job (λ j. j.jobslurmid) (new_job job) db.jobs new,
              charge-AtMost orm _ db.attribute_usages objects.0.usage (pos cost) a
                  (usage_locked orm site to_utc job db objects found (pos cost) priced) fa,
              charge-AtMost orm _ db.user_attribute_usages objects.1.usage (pos cost) b
                  (user_usage_locked orm site to_utc job db objects found (pos cost) priced) fb,
            ))
      ]
