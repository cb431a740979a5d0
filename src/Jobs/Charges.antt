-- ===== src/Jobs/Charges.antt =====
-- What a request for a job does to the usages of its account and of its user.
use coldfront.Base.{
  ℕ, ◌==◌, ◌≡◌, ◌⊎◌, inl, inr, true, false, Option, none, some, Result, Result-cases, Exception, ok,
  err, Model, arith,
}
use coldfront.Base.Int.{ℤ, pos, ◌-ℤ◌, ◌≤ℤ◌}
use coldfront.Orm.{Orm, has_key}
use coldfront.AllowanceInterface.{Site}
use coldfront.Tables.{Db, Job}
use coldfront.Accounting.{ProjectObjects, UserObjects, get_accounting_allocation_objects}
use coldfront.Accounting.Found.{user_usage-found}
use coldfront.Jobs.Dates.{JobData, job_dates_valid}
use coldfront.Jobs.Store.{
  new_job, saved_job, charge, correct, lock_usage, lock_user_usage, validate_job, save_usages,
  save_job, create_job, update_job,
}

-- A valid request for a new job has a Slurm ID that no job has.
validate_job-new :
    (orm : Orm) (site : Site) (job : JobData) (db : Db)
    → validate_job orm site none job db ≡ ok tt
    → has_key (λ (j : Job). j.jobslurmid) job.jobslurmid db.jobs ≡ false
unfolding validate_job
validate_job-new orm site job db h = ground arith

-- A valid request for a job that exists names its user and its account.
validate_job-same :
    (orm : Orm) (site : Site) (i : Job) (job : JobData) (db : Db)
    → validate_job orm site (some i) job db ≡ ok tt
    → (i.account ≡ job.account.pk) × (i.user ≡ job.user)
unfolding validate_job
validate_job-same orm site i job db h = ground arith

-- A valid request has no negative cost.
validate_job-nonneg :
    (orm : Orm) (site : Site) (i : Option Job) (job : JobData) (db : Db) (a : ℤ)
    → validate_job orm site i job db ≡ ok tt
    → job.amount ≡ some a
    → pos 0 ≤ℤ a
unfolding validate_job
validate_job-nonneg orm site i job db a h e = ground arith

-- The job under the Slurm ID of the request.
abbrev pub existing : Orm → JobData → Db → Result Job
existing orm job db = orm.get Model.job (λ (j : Job). j.jobslurmid == job.jobslurmid) db.jobs

module _ (orm : Orm) (site : Site) (to_utc : ℕ → ℕ) (job : JobData) (db : Db)
    (objects : ProjectObjects × UserObjects)
    (found : get_accounting_allocation_objects orm site job.account job.user true db ≡ ok objects)
    (amount : ℤ) (priced : job.amount ≡ some amount) where
  -- The usages that the handlers lock are those of the objects that were found.
  pub usage_locked : lock_usage orm objects.0.usage.attribute db ≡ ok objects.0.usage
  usage_locked = (user_usage-found orm site job.account job.user true db _ _ found).0.0

  pub user_usage_locked : lock_user_usage orm objects.1.usage.attribute db ≡ ok objects.1.usage
  user_usage_locked = (user_usage-found orm site job.account job.user true db _ _ found).1.0

  abbrev pub charged : Db
  charged = save_usages orm (charge amount objects.0.usage) (charge amount objects.1.usage) db

  abbrev pub corrected : Job → Db
  corrected i =
      save_usages orm (correct (amount -ℤ i.amount) objects.0.usage)
        (correct (amount -ℤ i.amount) objects.1.usage) db

  -- A request for a new job with a cost and valid dates raises and changes nothing, or adds the
  -- cost to both usages and the job, under a Slurm ID that is new.
  pub create_job_cases :
      job_dates_valid site to_utc job objects.0.allocation false ≡ true
      → ((create_job orm site to_utc job db).1 ≡ db)
        ⊎ ((pos 0 ≤ℤ amount)
            × (has_key (λ (j : Job). j.jobslurmid) job.jobslurmid db.jobs ≡ false)
            × ((create_job orm site to_utc job db).1 ≡ save_job orm (new_job job) charged))
  unfolding create_job
  create_job_cases dated = ground (
    arith,
    found,
    usage_locked,
    user_usage_locked,
    validate_job-new orm site job db,
    validate_job-nonneg orm site none job db amount,
  )

  abbrev pub after_update : Db
  after_update = (update_job orm site to_utc job.jobslurmid job db).1

  module _ (dated : job_dates_valid site to_utc job objects.0.allocation true ≡ true) where
    update_job_known :
        (i : Job)
        → existing orm job db ≡ ok i
        → (after_update ≡ db)
          ⊎ ((pos 0 ≤ℤ amount)
              × (i.account ≡ job.account.pk)
              × (i.user ≡ job.user)
              × (after_update ≡ save_job orm (saved_job job (some i)) (corrected i)))
    unfolding update_job
    update_job_known i h = ground (
      arith,
      found,
      usage_locked,
      user_usage_locked,
      validate_job-same orm site i job db,
      validate_job-nonneg orm site (some i) job db amount,
    )

    update_job_unknown :
        (e : Exception)
        → existing orm job db ≡ err e
        → (after_update ≡ db)
          ⊎ ((pos 0 ≤ℤ amount)
              × (has_key (λ (j : Job). j.jobslurmid) job.jobslurmid db.jobs ≡ false)
              × (after_update ≡ save_job orm (new_job job) charged))
    unfolding update_job
    update_job_unknown e h = ground (
      arith,
      found,
      usage_locked,
      user_usage_locked,
      validate_job-new orm site job db,
      validate_job-nonneg orm site none job db amount,
    )

    -- A request that repeats a job, under its own Slurm ID, raises and changes nothing, or adds
    -- the cost of a job that was unknown, or corrects both usages by how much the cost changed.
    pub update_job_cases :
        (after_update ≡ db)
        ⊎ ((pos 0 ≤ℤ amount)
            × (has_key (λ (j : Job). j.jobslurmid) job.jobslurmid db.jobs ≡ false)
            × (after_update ≡ save_job orm (new_job job) charged))
        ⊎ ((pos 0 ≤ℤ amount)
            × (i : Job) × (existing orm job db ≡ ok i)
            × (i.account ≡ job.account.pk)
            × (i.user ≡ job.user)
            × (after_update ≡ save_job orm (saved_job job (some i)) (corrected i)))
    update_job_cases = elim (Result-cases (existing orm job db)) [
      | inl (i, h) ↦ elim (update_job_known i h) [
        | inl same ↦ inl same
        | inr (nonneg, account, user, after) ↦ inr (inr (nonneg, i, h, account, user, after))
      ]
      | inr (e, h) ↦ elim (update_job_unknown e h) [
        | inl same ↦ inl same
        | inr after ↦ inr (inl after)
      ]
    ]
