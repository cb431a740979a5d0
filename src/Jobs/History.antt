-- ===== src/Jobs/History.antt =====
-- Sequences of requests to `JobViewSet.create` and `JobViewSet.update` of api/statistics/views.py.
use coldfront.Base.{
  ℕ, ◌==◌, ◌≡◌, ◌≢◌, refl, ◌∙◌, ◌↔◌, inl, inr, Bool, true, false, Bool-cases, some, List, arith,
  Model, ok,
}
use coldfront.Base.Int.{ℤ, pos, ◌-ℤ◌, ◌≤ℤ◌}
use coldfront.Orm.{Orm, has_key}
use coldfront.AllowanceInterface.{Site}
use coldfront.Tables.{Db, AttributeUsage, Job}
use coldfront.Accounting.{ProjectObjects, UserObjects, get_accounting_allocation_objects}
use coldfront.Jobs.Dates.{JobData, job_dates_valid}
use coldfront.Jobs.Store.{charge, correct, save_job, new_job, updated_job, create_job, update_job}
use coldfront.Jobs.Charges.{
  charged, corrected, existing, create_job_cases, update_job_cases, usage_locked, user_usage_locked,
}
use coldfront.Jobs.Spent.{id_of, Nonneg}
use coldfront.Jobs.Usage.{
  of_account, of_user, IsSpent, Balanced, Nonneg-save_new, Nonneg-save_old, charge-IsSpent,
  correct-IsSpent,
}
use coldfront.Jobs.Others.{spent-save_new, spent-save_old, save-IsSpent_other}

-- A usage is saved exactly if the job counts for it.
module _ (orm : Orm) (m : Model) (counts : Job → Bool) (t : List AttributeUsage) (js : List Job)
    (u : AttributeUsage) (locked : orm.get m (λ x. x.attribute == u.attribute) t ≡ ok u) (k : ℕ)
    (balance : IsSpent orm m counts k t js) (j : Job) (a : ℤ) (e : j.amount ≡ a)
    (aligned : (counts j ≡ true) ↔ (k ≡ u.attribute)) where
  missed : counts j ≡ false → k ≢ u.attribute
  missed c h = ground (arith, c, aligned.1 h)

  charge-IsSpent_aligned :
      has_key id_of (id_of j) js ≡ false
      → IsSpent orm m counts k (orm.save (λ x. x.attribute) (charge a u) t) (orm.save id_of j js)
  charge-IsSpent_aligned new = elim (Bool-cases (counts j)) [
    | inl c ↦
        rw (aligned.0 c)
          (charge-IsSpent orm m counts t js u locked (rw (aligned.0 c) at balance) j a e c new)
    | inr c ↦
        save-IsSpent_other orm counts js m t k (charge a u) u _ locked (missed c)
          (spent-save_new orm counts js j c new) balance
  ]

  correct-IsSpent_aligned :
      (i : Job)
      → counts i ≡ counts j
      → orm.get Model.job (λ x. id_of x == id_of j) js ≡ ok i
      → Nonneg js
      → pos 0 ≤ℤ a
      → IsSpent orm m counts k
          (orm.save (λ x. x.attribute) (correct (a -ℤ i.amount) u) t)
          (orm.save id_of j js)
  correct-IsSpent_aligned i d old n h = elim (Bool-cases (counts j)) [
    | inl c ↦ rw (aligned.0 c) (
        correct-IsSpent orm m counts t js u locked (rw (aligned.0 c) at balance) j i a e c (d ∙ c)
          old n h)
    | inr c ↦
        save-IsSpent_other orm counts js m t k (correct (a -ℤ i.amount) u) u _ locked (missed c)
          (spent-save_old orm counts js j i c (d ∙ c) old) balance
  ]

-- The usages with the keys `k` and `l` are those that the request names exactly when it names the
-- account, and the user of it.
abbrev pub Aligned : ℕ → ℕ → ℕ → ℕ → JobData → ProjectObjects × UserObjects → Type 0
Aligned account user k l job objects =
    ((account ≡ job.account.pk) ↔ (k ≡ objects.0.usage.attribute))
    × (((account ≡ job.account.pk) × (user ≡ job.user)) ↔ (l ≡ objects.1.usage.attribute))

module _ (orm : Orm) (site : Site) (to_utc : ℕ → ℕ) (job : JobData) (db : Db)
    (objects : ProjectObjects × UserObjects)
    (found : get_accounting_allocation_objects orm site job.account job.user true db ≡ ok objects)
    (amount : ℤ) (priced : job.amount ≡ some amount) (account user k l : ℕ)
    (aligned : Aligned account user k l job objects)
    (balanced : Balanced orm account user k l db) where
  counts_aligned :
      (j : Job)
      → j.account ≡ job.account.pk
      → j.user ≡ job.user
      → ((of_account account j ≡ true) ↔ (k ≡ objects.0.usage.attribute))
        × ((of_user account user j ≡ true) ↔ (l ≡ objects.1.usage.attribute))
  counts_aligned j e f = ground (arith, e, f, aligned)

  charged_aligned :
      pos 0 ≤ℤ amount
      → has_key id_of job.jobslurmid db.jobs ≡ false
      → Balanced orm account user k l
          (save_job orm (new_job job) (charged orm site to_utc job db objects found amount priced))
  charged_aligned h new =
      let j = new_job job in
      let (c, d) = counts_aligned j refl refl in
      (
        Nonneg-save_new orm db.jobs j new balanced.0 (rw priced h),
        charge-IsSpent_aligned orm _ (of_account account) _ db.jobs objects.0.usage
            (usage_locked orm site to_utc job db objects found amount priced) k balanced.1 j amount
            (rw priced refl) c new,
        charge-IsSpent_aligned orm _ (of_user account user) _ db.jobs objects.1.usage
            (user_usage_locked orm site to_utc job db objects found amount priced) l balanced.2 j
            amount (rw priced refl) d new,
      )

  same_counts :
      (i j : Job)
      → i.account ≡ j.account
      → i.user ≡ j.user
      → (of_account account i ≡ of_account account j)
        × (of_user account user i ≡ of_user account user j)
  same_counts i j e f = (rw e refl, rw (e, f) refl)

  corrected_aligned :
      (i : Job)
      → pos 0 ≤ℤ amount
      → existing orm job db ≡ ok i
      → i.account ≡ job.account.pk
      → i.user ≡ job.user
      → Balanced orm account user k l (
          save_job orm
            (updated_job job i)
            (corrected orm site to_utc job db objects found amount priced i))
  corrected_aligned i h old e f =
      let j = updated_job job i in
      let (c, d) = counts_aligned j refl refl in
      let (s, t) = same_counts i j e f in
      (
        Nonneg-save_old orm db.jobs j i old balanced.0 (rw priced h),
        correct-IsSpent_aligned orm _ (of_account account) _ db.jobs objects.0.usage
            (usage_locked orm site to_utc job db objects found amount priced) k balanced.1 j amount
            (rw priced refl) c i s old balanced.0 h,
        correct-IsSpent_aligned orm _ (of_user account user) _ db.jobs objects.1.usage
            (user_usage_locked orm site to_utc job db objects found amount priced) l balanced.2 j
            amount (rw priced refl) d i t old balanced.0 h,
      )

-- What holds of each request of a history: it has a cost, its accounting objects are found, and
-- their keys are aligned with the account and user that are followed.
abbrev pub Named : Orm → Site → ℕ → ℕ → ℕ → ℕ → JobData → Db → ProjectObjects × UserObjects → Type 0
Named orm site account user k l job db objects =
    (get_accounting_allocation_objects orm site job.account job.user true db ≡ ok objects)
    × (amount : ℤ) × (job.amount ≡ some amount)
    × Aligned account user k l job objects

module _ (orm : Orm) (site : Site) (to_utc : ℕ → ℕ) (account user k l : ℕ) where
  -- The states that requests with a cost and valid dates lead to, in any order, whether they
  -- succeed or raise.
  pub data History : Db → Db → Type 0 where
    start : (db : Db) → History db db
    create :
        (first db : Db) (job : JobData) (objects : ProjectObjects × UserObjects)
        → History first db
        → Named orm site account user k l job db objects
        → job_dates_valid site to_utc job objects.0.allocation false ≡ true
        → History first (create_job orm site to_utc job db).1
    update :
        (first db : Db) (job : JobData) (objects : ProjectObjects × UserObjects)
        → History first db
        → Named orm site account user k l job db objects
        → job_dates_valid site to_utc job objects.0.allocation true ≡ true
        → History first (update_job orm site to_utc job.jobslurmid job db).1

  -- After any history of requests with a cost and valid dates, whose accounting objects are found
  -- and hold the usages of an account and of a user exactly when they name that account and that
  -- user of it, these usages are the sums of the amounts of their stored jobs, none of which is
  -- negative, if they were at its start.
  pub History-Balanced :
      (first db : Db)
      → History first db
      → Balanced orm account user k l first
      → Balanced orm account user k l db
  History-Balanced first db (start d) b = b
  History-Balanced first db (create f d job objects h (found, amount, priced, aligned) dated) b =
      let before = History-Balanced f d h b in
      elim (create_job_cases orm site to_utc job d objects found amount priced dated) [
        | inl same ↦ rw same before
        | inr (n, new, after) ↦ rw after (
            charged_aligned orm site to_utc job d objects found amount priced account user k l
              aligned before n new)
      ]
  History-Balanced first db (update f d job objects h (found, amount, priced, aligned) dated) b =
      let before = History-Balanced f d h b in
      elim (update_job_cases orm site to_utc job d objects found amount priced dated) [
        | inl same ↦ rw same before
        | inr (inl (n, new, after)) ↦ rw after (
            charged_aligned orm site to_utc job d objects found amount priced account user k l
              aligned before n new)
        | inr (inr (n, i, old, e, u, after)) ↦ rw after (
            corrected_aligned orm site to_utc job d objects found amount priced account user k l
              aligned before i n old e u)
      ]
