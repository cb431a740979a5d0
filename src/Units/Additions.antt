-- ===== src/Units/Additions.antt =====
-- Purchases of service units: `AllocationAdditionRequest.denial_reason` of core/allocation/models.py
-- and the runners of core/project/utils_/addition_utils.py.
use coldfront.Base.{
  ℕ, ◌==◌, Bool, true, false, some, List, [], ◌∷◌, any, truthy, ◌&&◌, Result, ok, err, guard,
  assertion_error, value_error, other_error, and_then, Action, pure, asks, modify, when, ◌>>=◌,
  ◌>>◌, if◌then◌else◌,
}
use coldfront.Base.Int.{ℤ, pos, ◌+ℤ◌, ◌-ℤ◌, max_ℤ}
use coldfront.Orm.{Orm}
use coldfront.Allowance.{is_recharge}
use coldfront.AllowanceInterface.{Site, AllowanceResource, allowance_from_project}
use coldfront.Tables.{Db, Project, ProjectUser, to_decimal, fits_digits}
use coldfront.Accounting.{ProjectObjects, get_project_objects}
use coldfront.Requests.Steps.{DenialReason, Category}
use coldfront.World.{AdditionRequest, AdditionStatus, World, on_db}
use coldfront.Units.Rows.{save_allocation, add_transaction, add_user_transaction}
use coldfront.Units.Setters.{
  set_project_allocation_value, set_project_usage_value, set_project_user_allocation_value,
  set_project_user_usage_value,
}

abbrev pub is_denied : AdditionStatus → Bool
is_denied AdditionStatus.denied = true
is_denied _ = false

abbrev pub is_under_review : AdditionStatus → Bool
is_under_review AdditionStatus.under_review = true
is_under_review _ = false

unfoldable pub denial_reason : AdditionRequest → Result DenialReason
denial_reason r =
    if is_denied r.status && truthy r.other_timestamp
    then ok (record {
      category = Category.other;
      justification = r.other_justification;
      timestamp = r.other_timestamp;
    })
    else err value_error

module _ (orm : Orm) where
  abbrev pub save_addition : AdditionRequest → World → World
  save_addition r world = record world {
    addition_requests = orm.save (λ x. x.pk) r world.addition_requests;
  }

  -- `AllocationAdditionDenialRunner(r).run()`
  unfoldable pub deny_addition : AdditionRequest → Action World (Unit {0})
  deny_addition r = do
    asks (λ _. guard (is_under_review r.status) assertion_error)
    modify (save_addition (record r { status = AdditionStatus.denied }))

  unfoldable pub has_pending_allocation_addition_request : Project → World → Bool
  has_pending_allocation_addition_request project world =
      any (λ r. r.project.pk == project.pk && is_under_review r.status) world.addition_requests

abbrev is_recharge_allowance : Site → Result AllowanceResource → Bool
is_recharge_allowance site (ok a) = is_recharge site.flags a.name
is_recharge_allowance site (err e) = false

unfoldable pub can_project_purchase_service_units : Site → Project → Bool
can_project_purchase_service_units site project =
    is_recharge_allowance site (allowance_from_project site project.name)

-- `now` is the current time, and `to_date` the date that a DateField keeps of a time.
module _ (orm : Orm) (site : Site) (now : ℕ) (to_date : ℕ → ℕ) where
  unfoldable pub compute_updated_service_units : ProjectObjects → ℤ → Result ℤ
  compute_updated_service_units o added =
      and_then (to_decimal o.attribute.value)
        λ allocation. ok (max_ℤ (allocation -ℤ o.usage.value) (pos 0) +ℤ added)

  -- The column of the amount holds so many digits. The runner opens no transaction of the database, so
  -- that what it wrote before stays.
  abbrev pub create_transaction : ℕ → ℤ → Action Db (Unit {0})
  create_transaction owner units = do
    asks (λ _. guard (fits_digits units) other_error)
    modify (add_transaction owner now units)

  abbrev pub create_user_transaction : ℕ → ℤ → Action Db (Unit {0})
  create_user_transaction owner units = do
    asks (λ _. guard (fits_digits units) other_error)
    modify (add_user_transaction owner now units)

  -- The objects are those that the constructor found.
  unfoldable pub update_allocation : Project → ProjectObjects → ℤ → Action Db (Unit {0})
  update_allocation project o units = do
    set_project_allocation_value orm site project units
    set_project_usage_value orm site project (pos 0)
    modify (save_allocation orm (record o.allocation { start_date = some (to_date now) }))
    create_transaction project.pk units

  abbrev pub update_user : Project → ℤ → ProjectUser → Action Db (Unit {0})
  update_user project units member = do
    updated ← set_project_user_allocation_value orm site member.user project units
    set_project_user_usage_value orm site member.user project (pos 0)
    when updated (create_user_transaction member.pk units)

  abbrev pub update_users : Project → ℤ → List ProjectUser → Action Db (Unit {0})
  update_users project units [] = pure tt
  update_users project units (m ∷ ms) = update_user project units m >> update_users project units ms

  unfoldable pub update_user_allocations : Project → ℤ → Action Db (Unit {0})
  update_user_allocations project units db =
      update_users project units (orm.filter (λ m. m.project == project.pk) db.project_users) db

  abbrev pub complete_addition : AdditionRequest → World → World
  complete_addition r =
      save_addition orm (record r { status = AdditionStatus.complete; completion_time = some now })

  -- `AllocationAdditionProcessingRunner(r).run()`
  unfoldable pub process_addition : AdditionRequest → Action World ℤ
  process_addition r = do
    asks (λ _. guard (is_under_review r.status) assertion_error)
    o ← asks (λ w. get_project_objects orm site r.project true w.db)
    total ← asks (λ _. compute_updated_service_units o r.num_service_units)
    on_db (update_allocation r.project o total)
    on_db (update_user_allocations r.project total)
    modify (complete_addition r)
    pure total
