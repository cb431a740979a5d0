-- ===== src/Jobs.antt =====
-- The accounting of cluster jobs: `JobViewSet` and `can_submit_job` of api/statistics/views.py,
-- `JobSerializer` of api/statistics/serializers.py, `validate_job_dates` and `set_job_amount` of
-- core/statistics/utils_/accounting_utils.py.
pub mod Dates
pub mod Submit
pub mod Store
pub mod Charges
pub mod Spent
pub mod Usage
pub mod Others
pub mod History
pub mod Accepted
pub mod Amount
pub mod Overdraw
pub mod Sample
mod Examples
mod Scenarios
