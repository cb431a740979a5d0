-- ===== src/Renewals.antt =====
-- Renewals of allowances: the approval and denial runners of core/project/utils_/renewal_utils.py, with
-- `get_pooling_preference_case` and the checks of periods of core/allocation/models.py, `pis` and
-- `is_pooled` of core/project/models.py and `validate_num_service_units` of core/utils/common.py.
-- Mails, which change no table, are left out.
pub mod Processing
pub mod Statuses
pub mod Increase
pub mod Run
mod Examples
use coldfront.Base.{
  ℕ, ◌==◌, ltb, leb, String, Bool, true, false, not, ◌&&◌, ◌||◌, Option, none, some, is_some, List,
  [], ◌∷◌, any, length, truthy, guard, Result, ok, err, assertion_error, value_error,
  does_not_exist, Model, allocation_attribute, project_user, user_profile, Action, asks, gets, pure,
  raise, modify, atomic, when, ◌>>=◌, ◌>>◌, if◌then◌else◌,
}
use coldfront.Base.Int.{ℤ, pos, ◌+ℤ◌}
use coldfront.Orm.{Orm}
use coldfront.AllowanceInterface.{Site}
use coldfront.Tables.{
  Db, Project, ProjectStatus, ProjectUser, Role, Allocation, AllocationStatus, AllocationAttribute,
  AttributeType, Value, text, decimal, to_decimal, has_type,
}
use coldfront.Accounting.{is_units}
use coldfront.World.{World, Period, Profile, RenewalRequest, RenewalStatus, on_db}
use coldfront.Units.Rows.{save_allocation, save_with_usage, add_transaction, add_user_transaction}
use coldfront.Units.Service.{in_bounds}
use coldfront.Units.Setters.{set_project_user_allocation_value}
use coldfront.Members.{is_pi, get_project_compute_allocation}

pub data PoolingCase : Type 0 where
  unpooled_to_unpooled unpooled_to_pooled pooled_to_pooled_same : PoolingCase
  pooled_to_pooled_different pooled_to_unpooled_old pooled_to_unpooled_new : PoolingCase

abbrev status_code : RenewalStatus → ℕ
status_code RenewalStatus.under_review = 0
status_code RenewalStatus.approved = 1
status_code RenewalStatus.complete = 2
status_code RenewalStatus.denied = 3

abbrev pub has_status : RenewalStatus → RenewalRequest → Bool
has_status s r = status_code r.status == status_code s

abbrev pub is_active_project : ProjectStatus → Bool
is_active_project ProjectStatus.active = true
is_active_project _ = false

abbrev pub is_pi_of : ℕ → ProjectUser → Bool
is_pi_of p m = m.project == p && is_pi m.role

-- `today` is the current date in the time zone of the site.
module _ (today : ℕ) where
  unfoldable pub assert_not_ended : Period → Result (Unit {0})
  assert_not_ended p = guard (leb today p.end_date) assertion_error

  unfoldable pub assert_started : Period → Result (Unit {0})
  assert_started p = guard (leb p.start_date today) assertion_error

-- An amount in hundredths that is in the bounds has no more digits and places than are allowed.
unfoldable pub validate_num_service_units : ℤ → Result (Unit {0})
validate_num_service_units n = guard (in_bounds n) value_error

module _ (orm : Orm) where
  -- `Project.pis`, by their keys.
  abbrev pub has_pi : ℕ → ℕ → Db → Bool
  has_pi p user db = any (λ m. is_pi_of p m && m.user == user) db.project_users

  abbrev pub is_pooled : Project → Db → Bool
  is_pooled p db = ltb 1 (length (orm.filter (is_pi_of p.pk) db.project_users))

  unfoldable pub get_pooling_preference_case : RenewalRequest → Db → Result PoolingCase
  get_pooling_preference_case r db =
      if r.pre_project.pk == r.post_project.pk
      then (if not (is_pooled r.pre_project db)
          then ok unpooled_to_unpooled
          else ok pooled_to_pooled_same)
      else if is_some r.new_project_request
      then ok pooled_to_unpooled_new
      else if not (is_pooled r.pre_project db)
      then (if not (is_pooled r.post_project db) then err value_error else ok unpooled_to_pooled)
      else if has_pi r.post_project.pk r.pi db
      then ok pooled_to_unpooled_old
      else ok pooled_to_pooled_different

  abbrev pub save_renewal : RenewalRequest → World → World
  save_renewal r world = record world {
    renewal_requests = orm.save (λ x. x.pk) r world.renewal_requests;
  }

  abbrev pub save_project : Project → Db → Db
  save_project p db = record db { projects = orm.save (λ x. x.pk) p db.projects }

  module _ (now today : ℕ) where
    -- `AllocationRenewalApprovalRunner(r, num_service_units).run()`; what is saved is returned.
    unfoldable pub approve_renewal : RenewalRequest → ℤ → Action World RenewalRequest
    approve_renewal r units = do
      asks (λ _. assert_not_ended today r.allocation_period)
      asks (λ _. guard (has_status RenewalStatus.under_review r) assertion_error)
      asks (λ _. validate_num_service_units units)
      let approved : RenewalRequest = record r {
        status = RenewalStatus.approved;
        approval_time = some now;
      }
      modify (save_renewal approved)
      pure approved

    -- `AllocationRenewalDenialRunner(r).run()`. Only a project that was new with it is denied.
    abbrev deny_by_preference : RenewalRequest → PoolingCase → Db → Db
    deny_by_preference r pooled_to_unpooled_new db =
        save_project (record r.post_project { status = ProjectStatus.denied }) db
    deny_by_preference r _ db = db

    unfoldable pub deny_renewal : RenewalRequest → Action World RenewalRequest
    deny_renewal r = do
      asks (λ _. guard (not (has_status RenewalStatus.complete r)) assertion_error)
      atomic do
        preference ← asks (λ w. get_pooling_preference_case r w.db)
        on_db (modify (deny_by_preference r preference))
        modify (save_renewal (record r { status = RenewalStatus.denied }))
        pure (record r { status = RenewalStatus.denied })

    -- The end of `AllocationRenewalProcessingRunner(r, units).run()`.
    unfoldable pub complete_request : RenewalRequest → ℤ → Action World RenewalRequest
    complete_request r units = do
      let completed : RenewalRequest = record r {
        status = RenewalStatus.complete;
        num_service_units = units;
        completion_time = some now;
      }
      modify (save_renewal completed)
      pure completed
