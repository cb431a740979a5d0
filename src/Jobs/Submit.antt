-- ===== src/Jobs/Submit.antt =====
-- Whether a job may be submitted: `can_submit_job` of api/statistics/views.py. The messages of the
-- responses are left out.
pub mod Affirmative
use coldfront.Base.{
  ℕ, zero, suc, ◌+◌, ◌-◌, ◌*◌, ◌==◌, ◌≡◌, ◌⊎◌, inl, inr, ltb, String, Bool, true, false, not, ◌&&◌,
  Option, none, some, List, [], ◌∷◌, length, truthy, str_eq, Result, ok, err, Exception,
  does_not_exist, multiple_objects_returned, type_error, Model, arith, if◌then◌else◌,
}
use coldfront.Base.Int.{ℤ, pos, negsuc, ◌+ℤ◌, ◌≤ℤ◌, ltb_ℤ}
use coldfront.Base.Fallible.{◌>>=◌}
use coldfront.Orm.{Orm}
use coldfront.Allowance.{has_infinite_service_units}
use coldfront.AllowanceInterface.{
  Site, AllowanceResource, has_computing_allowance, allowance_from_project,
}
use coldfront.Tables.{Db, Project, to_decimal}
use coldfront.Accounting.{ProjectObjects, UserObjects, get_accounting_allocation_objects}

-- What `Decimal.as_tuple` returns. The exponent of an infinity or a NaN is a letter, `none` here.
pub record DecimalTuple : Type 0 where
  pub sign : Bool
  pub digits : List ℕ
  pub exponent : Option ℤ

pub record UserProfile : Type 0 where
  pub user : ℕ
  pub cluster_uid : String

pub data Response : Type 0 where
  affirmative non_affirmative client_error server_error : Response

abbrev coefficient : ℕ → List ℕ → ℕ
coefficient n [] = n
coefficient n (d ∷ ds) = coefficient (10 * n + d) ds

abbrev power_of_ten : ℕ → ℕ
power_of_ten zero = 1
power_of_ten (suc n) = 10 * power_of_ten n

-- The value in hundredths of a decimal with at most two decimal places.
abbrev hundredths : List ℕ → ℤ → ℕ
hundredths ds (pos e) = coefficient 0 ds * (100 * power_of_ten e)
hundredths ds (negsuc zero) = coefficient 0 ds * 10
hundredths ds (negsuc n) = coefficient 0 ds

abbrev magnitude : ℤ → ℕ
magnitude (pos e) = e
magnitude (negsuc n) = suc n

-- A value, or the response that ends the function early.
abbrev Step : Type 0 → Type 0
Step A = Result (A ⊎ Response)

infixl 5 ◌>>>◌
abbrev ◌>>>◌ : {A : Type 0} → Step A → (A → Result Response) → Result Response
◌>>>◌ s f = s >>= λ r. elim r [ inl a ↦ f a | inr response ↦ ok response ]

-- `DECIMAL_MAX_DIGITS` is 11 and `DECIMAL_MAX_PLACES` is 2; `abs` of a letter raises a TypeError.
abbrev check_cost : DecimalTuple → Step ℕ
check_cost d =
    if d.sign
    then ok (inr client_error)
    else if ltb 11 (length d.digits)
    then ok (inr client_error)
    else elim d.exponent [
      | none ↦ err type_error
      | some e ↦
          if ltb 2 (magnitude e) then ok (inr client_error) else ok (inl (hundredths d.digits e))
    ]

-- The `except` clauses around `get_accounting_allocation_objects`.
abbrev response_to : Exception → Step (ProjectObjects × UserObjects)
response_to (does_not_exist Model.project_user) = ok (inr non_affirmative)
response_to (does_not_exist Model.allocation) = ok (inr non_affirmative)
response_to (multiple_objects_returned Model.allocation) = ok (inr server_error)
response_to (does_not_exist Model.allocation_user) = ok (inr non_affirmative)
response_to (does_not_exist m) = ok (inr server_error)
response_to (multiple_objects_returned m) = ok (inr server_error)
response_to type_error = ok (inr server_error)
response_to e = err e

abbrev found_or_client_error : {A : Type 0} → Result A → Step A
found_or_client_error (ok a) = ok (inl a)
found_or_client_error (err (does_not_exist m)) = ok (inr client_error)
found_or_client_error (err e) = err e

-- `decimal` is Python's `Decimal`, `none` where it raises an InvalidOperation, and `strip` is
-- `str.strip`. `allow_all_jobs` is a setting.
module _ (orm : Orm) (site : Site) (decimal : String → Option DecimalTuple)
    (strip : String → String) (allow_all_jobs : Bool) where
  abbrev pub parse_cost : String → Step ℕ
  parse_cost job_cost = elim (decimal job_cost) [
    | none ↦ ok (inr client_error)
    | some d ↦ check_cost d
  ]

  abbrev objects_or_response : Project → ℕ → Db → Step (ProjectObjects × UserObjects)
  objects_or_response account user db =
      elim (get_accounting_allocation_objects orm site account user true db) [
        | ok objects ↦ ok (inl objects)
        | err e ↦ response_to e
      ]

  -- Both usages against their allocations, for an allowance with finite service units.
  abbrev within : ℕ → ProjectObjects × UserObjects → ℤ → ℤ → AllowanceResource → Result Response
  within cost (o, v) a b allowance =
      if has_infinite_service_units site.flags allowance.name
      then ok affirmative
      else if ltb_ℤ a (pos cost +ℤ o.usage.value)
      then ok non_affirmative
      else if ltb_ℤ b (pos cost +ℤ v.usage.value)
      then ok non_affirmative
      else ok affirmative

  abbrev decide_by_allowance : ℕ → Project → ProjectObjects × UserObjects → Result Response
  decide_by_allowance cost account objects = do
    account_allocation ← to_decimal objects.0.attribute.value
    user_account_allocation ← to_decimal objects.1.attribute.value
    allowance ← allowance_from_project site account.name
    within cost objects account_allocation user_account_allocation allowance

  -- What follows once the accounting objects are found.
  unfoldable pub decide : ℕ → Project → ProjectObjects × UserObjects → Result Response
  decide cost account objects =
      if has_computing_allowance site account.name
      then decide_by_allowance cost account objects
      else ok affirmative

  -- What follows the test that the arguments are not empty.
  abbrev checks : String → String → String → List UserProfile → Db → Result Response
  checks job_cost user_id account_id profiles db = parse_cost job_cost >>> λ cost.
      found_or_client_error
        (orm.get Model.user_profile (λ p. str_eq p.cluster_uid user_id) profiles)
      >>> λ profile.
          found_or_client_error
            (orm.get Model.project (λ (p : Project). str_eq p.name account_id) db.projects)
          >>> λ account.
              objects_or_response account profile.user db >>> λ objects. decide cost account objects

  unfoldable pub can_submit_job : String → String → String → List UserProfile → Db → Result Response
  can_submit_job job_cost user_id account_id profiles db =
      if allow_all_jobs
      then ok affirmative
      else if truthy (strip job_cost) && (truthy (strip user_id) && truthy (strip account_id))
      then checks (strip job_cost) (strip user_id) (strip account_id) profiles db
      else ok client_error

  -- The cost does not bring either usage above its allocation.
  abbrev pub Fits : ℕ → ProjectObjects × UserObjects → Type 0
  Fits cost objects =
      (a : ℤ) × (b : ℤ) × (to_decimal objects.0.attribute.value ≡ ok a)
      × (to_decimal objects.1.attribute.value ≡ ok b)
      × (pos cost +ℤ objects.0.usage.value ≤ℤ a)
      × (pos cost +ℤ objects.1.usage.value ≤ℤ b)

  -- The account needs no check: it has no computing allowance, or one with infinite units.
  abbrev pub Unlimited : Project → Type 0
  Unlimited account =
      (has_computing_allowance site account.name ≡ false)
      ⊎ ((allowance : AllowanceResource) × (allowance_from_project site account.name ≡ ok allowance)
          × (has_infinite_service_units site.flags allowance.name ≡ true))
