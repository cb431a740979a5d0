-- ===== src/Jobs/Amount.antt =====
-- What `set_job_amount` of core/statistics/utils_/accounting_utils.py does to the usages of the
-- job's account and user.
use coldfront.Base.{ℕ, ◌==◌, ==_iff, ◌≡◌, refl, true, false, ok, arith, Model}
use coldfront.Base.Int.{ℤ, pos, ◌-ℤ◌, ◌≤ℤ◌}
use coldfront.Orm.{Orm}
use coldfront.Orm.Lookup.{get-pass}
use coldfront.AllowanceInterface.{Site}
use coldfront.Tables.{Db, Project, Job}
use coldfront.Accounting.{ProjectObjects, UserObjects, get_accounting_allocation_objects}
use coldfront.Accounting.Found.{user_usage-found}
use coldfront.Jobs.Store.{
  correct, lock_usage, lock_user_usage, save_usages, save_job, set_job_amount,
}
use coldfront.Jobs.Usage.{Balanced, of_account, of_user, correct-IsSpent, Nonneg-save_old}

module _ (orm : Orm) (site : Site) (db : Db) (k : ℕ) (j : Job)
    (stored : orm.get Model.job (λ x. x.jobslurmid == k) db.jobs ≡ ok j) (project : Project)
    (account : orm.get Model.project (λ p. p.pk == j.account) db.projects ≡ ok project)
    (objects : ProjectObjects × UserObjects)
    (found : get_accounting_allocation_objects orm site project j.user false db ≡ ok objects)
    (amount : ℤ) where
  locked :
      (lock_usage orm objects.0.usage.attribute db ≡ ok objects.0.usage)
      × (lock_user_usage orm objects.1.usage.attribute db ≡ ok objects.1.usage)
  locked =
      let fs = user_usage-found orm site project j.user false db objects.0 objects.1 found in
      (fs.0.0, fs.1.0)

  set_job_amount_run : set_job_amount orm site k amount true db ≡ (
    ok tt,
    save_job orm
        (record j { amount = amount })
        (save_usages orm
          (correct (amount -ℤ j.amount) objects.0.usage)
          (correct (amount -ℤ j.amount) objects.1.usage)
          db),
  )
  unfolding set_job_amount
  set_job_amount_run = ground (arith, stored, account, found, locked)

  stored_by_id : orm.get Model.job (λ x. x.jobslurmid == j.jobslurmid) db.jobs ≡ ok j
  stored_by_id =
      let e : j.jobslurmid ≡ k = (==_iff j.jobslurmid k).0 (get-pass orm _ _ db.jobs j stored) in
      simp e stored

  job_counts :
      j.account ≡ project.pk
      → (of_account project.pk j ≡ true) × (of_user project.pk j.user j ≡ true)
  job_counts e = (ground (arith, e), ground (arith, e))

  -- For a stored job whose project and accounting objects are found, `set_job_amount` with an
  -- update of the usages succeeds, and keeps the usages of the job's account and user the sums of
  -- their jobs' amounts when they were that before and the new amount is not negative.
  pub set_job_amount-Balanced :
      j.account ≡ project.pk
      → pos 0 ≤ℤ amount
      → Balanced orm project.pk j.user objects.0.usage.attribute objects.1.usage.attribute db
      → ((set_job_amount orm site k amount true db).0 ≡ ok tt)
        × Balanced orm project.pk j.user objects.0.usage.attribute objects.1.usage.attribute
            (set_job_amount orm site k amount true db).1
  set_job_amount-Balanced e h balanced =
      let (a, u) = job_counts e in
      let r : Job = record j { amount = amount } in
      rw set_job_amount_run (
        refl,
        (
          Nonneg-save_old orm db.jobs r j stored_by_id balanced.0 h,
          correct-IsSpent orm _ (of_account project.pk) _ db.jobs objects.0.usage locked.0
              balanced.1 r j amount refl a a stored_by_id balanced.0 h,
          correct-IsSpent orm _ (of_user project.pk j.user) _ db.jobs objects.1.usage locked.1
              balanced.2 r j amount refl u u stored_by_id balanced.0 h,
        ),
      )
