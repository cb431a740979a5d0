-- ===== src/Jobs/Store.antt =====
-- Storing jobs and charging their cost: `JobViewSet.create` and `JobViewSet.update` of
-- api/statistics/views.py, the validation and saving of `JobSerializer` of
-- api/statistics/serializers.py, and `set_job_amount` of core/statistics/utils_/accounting_utils.py.
use coldfront.Base.{
  ℕ, ◌==◌, Bool, true, false, not, ◌&&◌, Option, none, some, List, any, guard, Result, ok, err,
  and_then, Exception, does_not_exist, multiple_objects_returned, type_error, validation_error,
  Model, allocation_attribute_usage, allocation_user_attribute_usage, Action, asks, pure, modify,
  atomic, when, ◌>>=◌, ◌>>◌,
}
use coldfront.Base.Int.{ℤ, pos, ◌+ℤ◌, ◌-ℤ◌, ltb_ℤ, max_ℤ}
use coldfront.Orm.{Orm, has_key}
use coldfront.AllowanceInterface.{Site}
use coldfront.Tables.{Db, AttributeUsage, Job, to_decimal}
use coldfront.Accounting.{get_accounting_allocation_objects}
use coldfront.Jobs.Dates.{JobData, dates_in_order, job_dates_valid}

-- `ALLOCATION_MAX`, in hundredths; `ALLOCATION_MIN` is zero.
abbrev pub allocation_max : ℤ
allocation_max = pos 10000000000

-- The validators of the model's amount.
abbrev amount_in_range : Option ℤ → Bool
amount_in_range none = true
amount_in_range (some a) = not (ltb_ℤ a (pos 0)) && not (ltb_ℤ allocation_max a)

-- What the `except` clauses of `JobSerializer.validate` turn into a ValidationError.
abbrev invalid : Exception → Exception
invalid (does_not_exist m) = validation_error
invalid (multiple_objects_returned m) = validation_error
invalid type_error = validation_error
invalid e = e

abbrev or_invalid : {A : Type 0} → Result A → Result (Unit {0})
or_invalid (ok a) = ok tt
or_invalid (err e) = err (invalid e)

-- `validate_userid` and `validate_accountid`, and the check that the Slurm ID is not that of
-- another job.
abbrev matches_instance : Option Job → JobData → List Job → Bool
matches_instance none job jobs = not (has_key (λ j. j.jobslurmid) job.jobslurmid jobs)
matches_instance (some i) job jobs =
    i.user == job.user
    && (i.account == job.account.pk
        && not
            (any (λ j. j.jobslurmid == job.jobslurmid && not (j.jobslurmid == i.jobslurmid)) jobs))

abbrev pub amount_or : Option ℤ → ℤ → ℤ
amount_or none d = d
amount_or (some a) d = a

abbrev first_of_dates : Option ℕ → Option ℕ → Option ℕ
first_of_dates none d = d
first_of_dates (some a) d = some a

-- `JobSerializer.create`, and `JobSerializer.update` of an existing row.
abbrev pub new_job : JobData → Job
new_job job = record {
  jobslurmid = job.jobslurmid;
  user = job.user;
  account = job.account.pk;
  amount = amount_or job.amount (pos 0);
  submitdate = job.submitdate;
  startdate = job.startdate;
  enddate = job.enddate;
}

abbrev pub updated_job : JobData → Job → Job
updated_job job i = record {
  jobslurmid = job.jobslurmid;
  user = job.user;
  account = job.account.pk;
  amount = amount_or job.amount i.amount;
  submitdate = first_of_dates job.submitdate i.submitdate;
  startdate = first_of_dates job.startdate i.startdate;
  enddate = first_of_dates job.enddate i.enddate;
}

abbrev pub saved_job : JobData → Option Job → Job
saved_job job none = new_job job
saved_job job (some i) = updated_job job i

-- A usage that a new cost is added to, and one that a correction of a cost is, never below zero.
abbrev pub charge : ℤ → AttributeUsage → AttributeUsage
charge amount u = record u { value = u.value +ℤ amount }

abbrev pub correct : ℤ → AttributeUsage → AttributeUsage
correct difference u = record u { value = max_ℤ (u.value +ℤ difference) (pos 0) }

module _ (orm : Orm) where
  abbrev pub lock_usage : ℕ → Db → Result AttributeUsage
  lock_usage k db = orm.get allocation_attribute_usage (λ u. u.attribute == k) db.attribute_usages

  abbrev pub lock_user_usage : ℕ → Db → Result AttributeUsage
  lock_user_usage k db =
      orm.get allocation_user_attribute_usage (λ u. u.attribute == k) db.user_attribute_usages

  abbrev pub save_usages : AttributeUsage → AttributeUsage → Db → Db
  save_usages u v db = record db {
    attribute_usages = orm.save (λ x. x.attribute) u db.attribute_usages;
    user_attribute_usages = orm.save (λ x. x.attribute) v db.user_attribute_usages;
  }

  abbrev pub save_job : Job → Db → Db
  save_job j db = record db { jobs = orm.save (λ x. x.jobslurmid) j db.jobs }

  -- The usages change by the amount only if there is one and the dates are valid.
  abbrev charge_usages : Option ℤ → Bool → AttributeUsage → AttributeUsage → Action Db (Unit {0})
  charge_usages (some amount) true u v = modify (save_usages (charge amount u) (charge amount v))
  charge_usages _ _ u v = pure tt

  -- The job under the Slurm ID of the request, if there is one.
  abbrev pub existing_job : ℕ → Db → Result (Option Job)
  existing_job k db = elim (orm.get Model.job (λ j. j.jobslurmid == k) db.jobs) [
    | ok j ↦ ok (some j)
    | err (does_not_exist Model.job) ↦ ok none
    | err e ↦ err e
  ]

  abbrev usages_after : Option Job → ℤ → AttributeUsage → AttributeUsage → Db → Db
  usages_after none amount u v = save_usages (charge amount u) (charge amount v)
  usages_after (some j) amount u v =
      save_usages (correct (amount -ℤ j.amount) u) (correct (amount -ℤ j.amount) v)

  abbrev update_usages :
      ℕ → Option ℤ → Bool → AttributeUsage → AttributeUsage → Action Db (Unit {0})
  update_usages k (some amount) true u v = do
    j ← asks (existing_job k)
    modify (usages_after j amount u v)
  update_usages k _ _ u v = pure tt

module _ (orm : Orm) (site : Site) where
  -- `serializer.is_valid(raise_exception=True)`
  unfoldable pub validate_job : Option Job → JobData → Db → Result (Unit {0})
  unfolding dates_in_order
  validate_job instance job db = and_then (guard (amount_in_range job.amount) validation_error) λ _.
      and_then (guard (matches_instance instance job db.jobs) validation_error) λ _.
        and_then (guard (dates_in_order job) validation_error)
          λ _. or_invalid (get_accounting_allocation_objects orm site job.account job.user true db)

  abbrev correct_usages : Job → ℤ → Action Db (Unit {0})
  correct_usages j amount = do
    project ← asks (λ db. orm.get Model.project (λ p. p.pk == j.account) db.projects)
    objects ← asks (get_accounting_allocation_objects orm site project j.user false)
    u ← asks (lock_usage orm objects.0.usage.attribute)
    v ← asks (lock_user_usage orm objects.1.usage.attribute)
    modify (save_usages orm (correct (amount -ℤ j.amount) u) (correct (amount -ℤ j.amount) v))

  -- `set_job_amount`
  unfoldable pub set_job_amount : ℕ → ℤ → Bool → Action Db (Unit {0})
  set_job_amount jobslurmid amount update = atomic do
    j ← asks (λ db. orm.get Model.job (λ j. j.jobslurmid == jobslurmid) db.jobs)
    when update (correct_usages j amount)
    modify (save_job orm (record j { amount = amount }))

module _ (orm : Orm) (site : Site) (to_utc : ℕ → ℕ) where
  -- `JobViewSet.create`
  unfoldable pub create_job : JobData → Action Db Job
  create_job job = atomic do
    asks (validate_job orm site none job)
    objects ← asks (get_accounting_allocation_objects orm site job.account job.user true)
    asks (λ _. to_decimal objects.0.attribute.value)
    asks (λ _. to_decimal objects.1.attribute.value)
    u ← asks (lock_usage orm objects.0.usage.attribute)
    v ← asks (lock_user_usage orm objects.1.usage.attribute)
    let valid = job_dates_valid site to_utc job objects.0.allocation false
    charge_usages orm job.amount valid u v
    modify (save_job orm (new_job job))
    pure (new_job job)

  -- `JobViewSet.update`: `lookup` is the Slurm ID in the URL.
  unfoldable pub update_job : ℕ → JobData → Action Db Job
  update_job lookup job = atomic do
    instance_ ← asks (existing_job orm lookup)
    asks (validate_job orm site instance_ job)
    objects ← asks (get_accounting_allocation_objects orm site job.account job.user true)
    u ← asks (lock_usage orm objects.0.usage.attribute)
    v ← asks (lock_user_usage orm objects.1.usage.attribute)
    let valid = job_dates_valid site to_utc job objects.0.allocation true
    update_usages orm job.jobslurmid job.amount valid u v
    modify (save_job orm (saved_job job instance_))
    pure (saved_job job instance_)
