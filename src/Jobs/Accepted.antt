-- ===== src/Jobs/Accepted.antt =====
-- When `JobViewSet.create` and `JobViewSet.update` of api/statistics/views.py succeed.
use coldfront.Base.{ℕ, ◌≡◌, ◌↔◌, true, Option, none, ok, arith, is_ok}
use coldfront.Base.Int.{pos, ◌+ℤ◌}
use coldfront.Orm.{Orm}
use coldfront.AllowanceInterface.{Site}
use coldfront.Tables.{Db, Job, to_decimal, fits_digits}
use coldfront.Accounting.{ProjectObjects, UserObjects, get_accounting_allocation_objects}
use coldfront.Accounting.Found.{user_usage-found}
use coldfront.Jobs.Dates.{JobData}
use coldfront.Jobs.Store.{
  new_job, saved_job, amount_or, lock_usage, lock_user_usage, existing_job, validate_job,
  create_job, update_job,
}

module _ (orm : Orm) (site : Site) (to_utc : ℕ → ℕ) (job : JobData) (db : Db)
    (objects : ProjectObjects × UserObjects)
    (found : get_accounting_allocation_objects orm site job.account job.user true db
      ≡ ok objects) where
  locked :
      (lock_usage orm objects.0.usage.attribute db ≡ ok objects.0.usage)
      × (lock_user_usage orm objects.1.usage.attribute db ≡ ok objects.1.usage)
  locked =
      let fs = user_usage-found orm site job.account job.user true db objects.0 objects.1 found in
      (fs.0.0, fs.1.0)

  -- When the accounting objects of its account and user are found, and its cost added to the usage of
  -- either has no more digits than the column holds, a request to create a job succeeds and returns
  -- the new job exactly when it is valid and both allocations are numbers: whether its dates are
  -- valid, and whether the job overdraws the allocations, makes no difference.
  pub create_job-accepted :
      fits_digits (objects.0.usage.value +ℤ amount_or job.amount (pos 0)) ≡ true
      → fits_digits (objects.1.usage.value +ℤ amount_or job.amount (pos 0)) ≡ true
      → ((create_job orm site to_utc job db).0 ≡ ok (new_job job)) ↔ (
          (validate_job orm site none job db ≡ ok tt)
          × (is_ok (to_decimal objects.0.attribute.value) ≡ true)
          × (is_ok (to_decimal objects.1.attribute.value) ≡ true))
  unfolding create_job
  create_job-accepted fits user_fits =
      (λ e. ground (arith, found, locked), λ e. ground (arith, found, locked))

  -- When the accounting objects of its account and user are found, and the lookup of the job in
  -- the URL, which is that of the request, does not fail but for a missing job, a request to
  -- update succeeds and returns the stored job exactly when it is valid.
  pub update_job-accepted :
      (i : Option Job)
      → existing_job orm job.jobslurmid db ≡ ok i
      → ((update_job orm site to_utc job.jobslurmid job db).0 ≡ ok (saved_job job i))
        ↔ (validate_job orm site i job db ≡ ok tt)
  unfolding update_job
  update_job-accepted i h =
      (λ e. ground (arith, found, locked, h), λ e. ground (arith, found, locked, h))
