-- ===== src/Jobs/Dates.antt =====
-- The dates of a job: `validate_job_dates` of core/statistics/utils_/accounting_utils.py and the
-- order of the dates that `JobSerializer.validate` of api/statistics/serializers.py asks for.
use coldfront.Base.{
  ℕ, ◌+◌, ◌-◌, ◌≤◌, ◌≡◌, ◌↔◌, Bool, true, false, not, ◌&&◌, ◌||◌, Option, some, is_some, leb,
  Result, ok, err, arith, if◌then◌else◌,
}
use coldfront.Base.Int.{ℤ}
use coldfront.Base.Fallible.{◌>>=◌}
use coldfront.AllowanceInterface.{Site, is_periodic_account}
use coldfront.Tables.{Project, Allocation}

-- The fields of the request that the accounting reads.
pub record JobData : Type 0 where
  pub jobslurmid : ℕ
  pub user : ℕ
  pub account : Project
  pub amount : Option ℤ
  pub submitdate : Option ℕ
  pub startdate : Option ℕ
  pub enddate : Option ℕ

-- 24 hours, in microseconds.
abbrev pub day : ℕ
day = 86400000000

-- Both dates, where they are given, are in order.
abbrev in_order : Option ℕ → Option ℕ → Bool
in_order (some a) (some b) = leb a b
in_order _ _ = true

unfoldable pub dates_in_order : JobData → Bool
dates_in_order job =
    in_order job.submitdate job.startdate
    && (in_order job.startdate job.enddate && in_order job.submitdate job.enddate)

-- `to_utc` is `display_time_zone_date_to_utc_datetime`, which asks the time zone library.
module _ (site : Site) (to_utc : ℕ → ℕ) where
  abbrev starts_within : Option ℕ → Option ℕ → Bool
  starts_within (some start) (some allocation_start) = leb (to_utc allocation_start) start
  starts_within _ _ = false

  abbrev ends_within : Option ℕ → Option ℕ → Bool
  ends_within (some end) (some allocation_end) = leb end (to_utc allocation_end + day - 1)
  ends_within _ _ = false

  -- An account of an allowance that is not periodic has no last moment.
  abbrev ends_in_time : Project → Allocation → Option ℕ → Result Bool
  ends_in_time account allocation enddate = do
    periodic ← is_periodic_account site account.name
    ok (if periodic then ends_within enddate allocation.end_date else true)

  unfoldable pub validate_job_dates : JobData → Allocation → Bool → Result Bool
  validate_job_dates job allocation end_date_expected =
      let in_time : Result Bool = ends_in_time job.account allocation job.enddate in
      if is_some job.submitdate
        && (is_some job.startdate && (not end_date_expected || is_some job.enddate))
      then if starts_within job.startdate allocation.start_date
        then if end_date_expected then in_time else ok true
        else ok false
      else ok false

  -- `except Exception: job_dates_valid = False`
  unfoldable pub job_dates_valid : JobData → Allocation → Bool → Bool
  unfolding validate_job_dates
  job_dates_valid job allocation end_date_expected =
      elim (validate_job_dates job allocation end_date_expected) [ ok b ↦ b | err e ↦ false ]

  -- A finished job of a periodic account has valid dates exactly when it was submitted, and it
  -- started and ended within the days of the allocation, both of which are known.
  pub validate_job_dates-periodic :
      (job : JobData) (allocation : Allocation)
      → is_periodic_account site job.account.name ≡ ok true
      → (validate_job_dates job allocation true ≡ ok true) ↔ (
          (is_some job.submitdate ≡ true)
          × (start : ℕ) × (first : ℕ) × (end : ℕ) × (last : ℕ) × (job.startdate ≡ some start)
          × (allocation.start_date ≡ some first)
          × (job.enddate ≡ some end)
          × (allocation.end_date ≡ some last)
          × (to_utc first ≤ start)
          × (end ≤ to_utc last + day - 1))
  unfolding validate_job_dates
  validate_job_dates-periodic job allocation h = (λ e. ground arith, λ e. ground arith)
