-- ===== src/Jobs/Submit/Affirmative.antt =====
-- What an affirmative answer of `can_submit_job` of api/statistics/views.py means, for the usages
-- before and after the job is created.
use coldfront.Base.{
  ℕ, ◌≡◌, ◌≢◌, refl, ap, ok_inj, Exception, ◌⊎◌, inl, inr, String, str_eq, Bool, true, false,
  Option, Result, ok, err, Model, arith, Result-cases, Option-cases, Bool-cases, List,
}
use coldfront.Base.Int.{ℤ, pos, ◌+ℤ◌, ◌≤ℤ◌}
use coldfront.Base.Fallible.{>>=-eq-ok}
use coldfront.Orm.{Orm}
use coldfront.Allowance.{has_infinite_service_units}
use coldfront.AllowanceInterface.{
  Site, AllowanceResource, has_computing_allowance, allowance_from_project,
}
use coldfront.Tables.{Db, Project, to_decimal}
use coldfront.Accounting.{ProjectObjects, UserObjects, get_accounting_allocation_objects}
use coldfront.Jobs.Submit.{
  DecimalTuple, UserProfile, Response, affirmative, Step, ◌>>>◌, check_cost, response_to,
  found_or_client_error, parse_cost, checks, objects_or_response, within, decide, can_submit_job,
  Fits, Unlimited,
}

>>>-affirmative :
    {A : Type 0} (s : Step A) (f : A → Result Response)
    → s ≢ ok (inr affirmative)
    → (s >>> f) ≡ ok affirmative
    → (a : A) × (s ≡ ok (inl a)) × (f a ≡ ok affirmative)
>>>-affirmative (ok (inl a)) f n h = (a, refl, h)
>>>-affirmative (ok (inr r)) f n h = absurd (n (ap (λ x. ok (inr x)) (ok_inj r affirmative h)))
>>>-affirmative (err e) f n h = cc

check_cost_answer : (d : DecimalTuple) → check_cost d ≢ ok (inr affirmative)
check_cost_answer d h = ground arith

response_to_answer : (e : Exception) → response_to e ≢ ok (inr affirmative)
response_to_answer e h = ground arith

found_answer : {A : Type 0} (r : Result A) → found_or_client_error r ≢ ok (inr affirmative)
found_answer r h = ground arith

found_value : {A : Type 0} (r : Result A) (a : A) → found_or_client_error r ≡ ok (inl a) → r ≡ ok a
found_value r a h = ground arith

module _ (orm : Orm) (site : Site) (decimal : String → Option DecimalTuple)
    (strip : String → String) (allow_all_jobs : Bool) where
  within_affirmative :
      (cost : ℕ) (objects : ProjectObjects × UserObjects) (a b : ℤ) (allowance : AllowanceResource)
      → within orm site decimal strip allow_all_jobs cost objects a b allowance ≡ ok affirmative
      → (has_infinite_service_units site.flags allowance.name ≡ true)
        ⊎ ((pos cost +ℤ objects.0.usage.value ≤ℤ a) × (pos cost +ℤ objects.1.usage.value ≤ℤ b))
  within_affirmative cost objects a b allowance h = ground arith

  decide_affirmative :
      (cost : ℕ) (account : Project) (objects : ProjectObjects × UserObjects)
      → decide orm site decimal strip allow_all_jobs cost account objects ≡ ok affirmative
      → has_computing_allowance site account.name ≡ true
      → (a : ℤ) × (b : ℤ) × (allowance : AllowanceResource) × (to_decimal objects.0.attribute.value
          ≡ ok a)
        × (to_decimal objects.1.attribute.value ≡ ok b)
        × (allowance_from_project site account.name ≡ ok allowance)
        × (within orm site decimal strip allow_all_jobs cost objects a b allowance ≡ ok affirmative)
  unfolding decide
  decide_affirmative cost account objects h c =
      let (a, ea, ha) = >>=-eq-ok _ _ (to_decimal objects.0.attribute.value) (rw c at h) in
      let (b, eb, hb) = >>=-eq-ok _ _ (to_decimal objects.1.attribute.value) ha in
      let (w, ew, hw) = >>=-eq-ok _ _ (allowance_from_project site account.name) hb in
      (a, b, w, ea, eb, ew, hw)

  allowed :
      (cost : ℕ) (account : Project) (objects : ProjectObjects × UserObjects)
      → decide orm site decimal strip allow_all_jobs cost account objects ≡ ok affirmative
      → Unlimited orm site decimal strip allow_all_jobs account
        ⊎ Fits orm site decimal strip allow_all_jobs cost objects
  allowed cost account objects h = elim (Bool-cases (has_computing_allowance site account.name)) [
    | inl c ↦
        let (a, b, w, ea, eb, ew, hw) = decide_affirmative cost account objects h c in
        elim (within_affirmative cost objects a b w hw) [
          | inl i ↦ inl (inr (w, ew, i))
          | inr (fa, fb) ↦ inr (a, b, ea, eb, fa, fb)
        ]
    | inr c ↦ inl (inl c)
  ]

  parse_cost_answer :
      (t : String) → parse_cost orm site decimal strip allow_all_jobs t ≢ ok (inr affirmative)
  parse_cost_answer t h = elim (Option-cases (decimal t)) [
    | inl e ↦ ground arith
    | inr (d, e) ↦ check_cost_answer d (rw (parse_cost, e) at h)
  ]

  objects_answer :
      (account : Project) (user : ℕ) (db : Db)
      → objects_or_response orm site decimal strip allow_all_jobs account user db
        ≢ ok (inr affirmative)
  objects_answer account user db h =
      elim (Result-cases (get_accounting_allocation_objects orm site account user true db)) [
        | inl (o, e) ↦ ground arith
        | inr (x, e) ↦ response_to_answer x (rw (objects_or_response, e) at h)
      ]

  response_to_value :
      (e : Exception) (o : ProjectObjects × UserObjects) → response_to e ≢ ok (inl o)
  response_to_value e o h = ground arith

  objects_value :
      (account : Project) (user : ℕ) (db : Db) (o : ProjectObjects × UserObjects)
      → objects_or_response orm site decimal strip allow_all_jobs account user db ≡ ok (inl o)
      → get_accounting_allocation_objects orm site account user true db ≡ ok o
  objects_value account user db o h =
      elim (Result-cases (get_accounting_allocation_objects orm site account user true db)) [
        | inl (x, e) ↦ ground arith
        | inr (x, e) ↦ absurd (response_to_value x o (rw (objects_or_response, e) at h))
      ]

  checks_run :
      (job_cost user_id account_id : String) (profiles : List UserProfile) (db : Db)
      → allow_all_jobs ≡ false
      → can_submit_job orm site decimal strip allow_all_jobs job_cost user_id account_id profiles db
        ≡ ok affirmative
      → checks orm site decimal strip allow_all_jobs
          (strip job_cost)
          (strip user_id)
          (strip account_id)
          profiles
          db
        ≡ ok affirmative
  unfolding can_submit_job
  checks_run job_cost user_id account_id profiles db off h = ground arith

  -- Each check of the function has passed when the answer is affirmative.
  checks_passed :
      (job_cost user_id account_id : String) (profiles : List UserProfile) (db : Db)
      → checks orm site decimal strip allow_all_jobs job_cost user_id account_id profiles db
        ≡ ok affirmative
      → (cost : ℕ) × (profile : UserProfile) × (account : Project) × (objects : ProjectObjects
          × UserObjects)
        × (parse_cost orm site decimal strip allow_all_jobs job_cost ≡ ok (inl cost))
        × (orm.get Model.user_profile (λ p. str_eq p.cluster_uid user_id) profiles ≡ ok profile)
        × (orm.get Model.project (λ (p : Project). str_eq p.name account_id) db.projects
            ≡ ok account)
        × (get_accounting_allocation_objects orm site account profile.user true db ≡ ok objects)
        × (decide orm site decimal strip allow_all_jobs cost account objects ≡ ok affirmative)
  checks_passed job_cost user_id account_id profiles db h =
      let (cost, ec, hc) =
        >>>-affirmative (parse_cost orm site decimal strip allow_all_jobs job_cost) _
          (parse_cost_answer _) h in
      let (profile, ep, hp) =
        >>>-affirmative
          (found_or_client_error
            (orm.get Model.user_profile (λ p. str_eq p.cluster_uid user_id) profiles))
          _ (found_answer _) hc in
      let (account, ea, ha) =
        >>>-affirmative
          (found_or_client_error
            (orm.get Model.project (λ (p : Project). str_eq p.name account_id) db.projects))
          _ (found_answer _) hp in
      let (objects, eo, ho) =
        >>>-affirmative
          (objects_or_response orm site decimal strip allow_all_jobs account profile.user db) _
          (objects_answer _ _ _) ha in
      (
        cost,
        profile,
        account,
        objects,
        ec,
        found_value _ _ ep,
        found_value _ _ ea,
        objects_value _ _ _ _ eo,
        ho,
      )

  -- While not all jobs are allowed, `can_submit_job` answers that a job can be submitted only if
  -- its cost parses, its user and account exist with the accounting objects, and the account has
  -- no computing allowance, or one with infinite service units, or the cost brings neither the
  -- account's usage nor the user's above its allocation.
  pub can_submit_job-affirmative :
      (job_cost user_id account_id : String) (profiles : List UserProfile) (db : Db)
      → allow_all_jobs ≡ false
      → can_submit_job orm site decimal strip allow_all_jobs job_cost user_id account_id profiles db
        ≡ ok affirmative
      → (cost : ℕ) × (profile : UserProfile) × (account : Project) × (objects : ProjectObjects
          × UserObjects)
        × (parse_cost orm site decimal strip allow_all_jobs (strip job_cost) ≡ ok (inl cost))
        × (orm.get Model.user_profile (λ p. str_eq p.cluster_uid (strip user_id)) profiles
            ≡ ok profile)
        × (orm.get Model.project (λ (p : Project). str_eq p.name (strip account_id)) db.projects
            ≡ ok account)
        × (get_accounting_allocation_objects orm site account profile.user true db ≡ ok objects)
        × (Unlimited orm site decimal strip allow_all_jobs account
            ⊎ Fits orm site decimal strip allow_all_jobs cost objects)
  can_submit_job-affirmative job_cost user_id account_id profiles db off h =
      let (cost, profile, account, objects, ec, ep, ea, eo, hd) =
        checks_passed _ _ _ profiles db
          (checks_run job_cost user_id account_id profiles db off h) in
      (cost, profile, account, objects, ec, ep, ea, eo, allowed cost account objects hd)
