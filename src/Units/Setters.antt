-- ===== src/Units/Setters.antt =====
-- `set_project_allocation_value`, `set_project_usage_value`, `set_project_user_allocation_value` and
-- `set_project_user_usage_value` of api/statistics/utils.py. Each says whether the accounting objects
-- were found.
use coldfront.Base.{ℕ, Bool, true, false, Result, ok, err, Action, pure, asks, modify, ◌>>=◌, ◌>>◌}
use coldfront.Base.Int.{ℤ}
use coldfront.Orm.{Orm}
use coldfront.AllowanceInterface.{Site}
use coldfront.Tables.{Db, Project, decimal}
use coldfront.Accounting.{
  ProjectObjects, UserObjects, get_project_objects, get_accounting_allocation_objects,
}
use coldfront.Jobs.Store.{lock_usage, lock_user_usage}
use coldfront.Units.Rows.{save_attribute, save_usage, save_user_attribute, save_user_usage}

module _ (orm : Orm) (site : Site) where
  abbrev store_value : ℤ → Result ProjectObjects → Action Db Bool
  store_value value (err e) = pure false
  store_value value (ok o) = do
    modify (save_attribute orm (record o.attribute { value = decimal value }))
    pure true

  unfoldable pub set_project_allocation_value : Project → ℤ → Action Db Bool
  set_project_allocation_value project value db =
      store_value value (get_project_objects orm site project true db) db

  abbrev store_usage : ℤ → Result ProjectObjects → Action Db Bool
  store_usage value (err e) = pure false
  store_usage value (ok o) = do
    u ← asks (lock_usage orm o.usage.attribute)
    modify (save_usage orm (record u { value = value }))
    pure true

  unfoldable pub set_project_usage_value : Project → ℤ → Action Db Bool
  set_project_usage_value project value db =
      store_usage value (get_project_objects orm site project true db) db

  abbrev store_user_value : ℤ → Result (ProjectObjects × UserObjects) → Action Db Bool
  store_user_value value (err e) = pure false
  store_user_value value (ok o) = do
    modify (save_user_attribute orm (record o.1.attribute { value = decimal value }))
    pure true

  unfoldable pub set_project_user_allocation_value : ℕ → Project → ℤ → Action Db Bool
  set_project_user_allocation_value user project value db =
      store_user_value value (get_accounting_allocation_objects orm site project user true db) db

  abbrev store_user_usage : ℤ → Result (ProjectObjects × UserObjects) → Action Db Bool
  store_user_usage value (err e) = pure false
  store_user_usage value (ok o) = do
    u ← asks (lock_user_usage orm o.1.usage.attribute)
    modify (save_user_usage orm (record u { value = value }))
    pure true

  unfoldable pub set_project_user_usage_value : ℕ → Project → ℤ → Action Db Bool
  set_project_user_usage_value user project value db =
      store_user_usage value (get_accounting_allocation_objects orm site project user true db) db
