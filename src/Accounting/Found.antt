-- ===== src/Accounting/Found.antt =====
-- The objects that `get_accounting_allocation_objects` finds belong together: each usage is the row
-- that the code then locks by its key.
use coldfront.Base.{
  ℕ, ◌≡◌, ◌==◌, ==_iff, Bool, Model, ok, arith, allocation_attribute_usage,
  allocation_user_attribute_usage, List,
}
use coldfront.Orm.{Orm}
use coldfront.Orm.Lookup.{get-pass}
use coldfront.AllowanceInterface.{Site}
use coldfront.Tables.{Db, Project, AttributeUsage}
use coldfront.Accounting.{
  ProjectObjects, UserObjects, get_project_objects, get_accounting_allocation_objects,
}

-- `u` is the usage of the attribute with the key `k`, and the one row under its own key.
abbrev pub IsUsage : Orm → Model → List AttributeUsage → ℕ → AttributeUsage → Type 0
IsUsage orm m t k u = (orm.get m (λ x. x.attribute == u.attribute) t ≡ ok u) × (u.attribute ≡ k)

IsUsage-of_get :
    (orm : Orm) (m : Model) (t : List AttributeUsage) (k : ℕ) (u : AttributeUsage)
    → orm.get m (λ x. x.attribute == k) t ≡ ok u
    → IsUsage orm m t k u
IsUsage-of_get orm m t k u h =
    let e : u.attribute ≡ k = (==_iff u.attribute k).0 (get-pass orm m _ t u h) in (simp e h, e)

module _ (orm : Orm) (site : Site) where
  project_usage_get :
      (p : Project) (enforce : Bool) (db : Db) (o : ProjectObjects)
      → get_project_objects orm site p enforce db ≡ ok o
      → orm.get allocation_attribute_usage (λ x. x.attribute == o.attribute.pk) db.attribute_usages
        ≡ ok o.usage
  unfolding get_project_objects
  project_usage_get p enforce db o h = ground arith

  user_usage_get :
      (p : Project) (user : ℕ) (enforce : Bool) (db : Db) (o : ProjectObjects) (v : UserObjects)
      → get_accounting_allocation_objects orm site p user enforce db ≡ ok (o, v)
      → (get_project_objects orm site p enforce db ≡ ok o)
        × (orm.get allocation_user_attribute_usage
              (λ x. x.attribute == v.attribute.pk)
              db.user_attribute_usages
            ≡ ok v.usage)
  unfolding get_accounting_allocation_objects
  user_usage_get p user enforce db o v h = ground arith

  -- The usage of a project's accounting is that of its Service Units attribute.
  pub project_usage-found :
      (p : Project) (enforce : Bool) (db : Db) (o : ProjectObjects)
      → get_project_objects orm site p enforce db ≡ ok o
      → IsUsage orm allocation_attribute_usage db.attribute_usages o.attribute.pk o.usage
  project_usage-found p enforce db o h =
      IsUsage-of_get orm _ _ o.attribute.pk o.usage (project_usage_get p enforce db o h)

  -- With a user, the project's part is found as without one, and the user's usage is that of the
  -- user's Service Units attribute.
  pub user_usage-found :
      (p : Project) (user : ℕ) (enforce : Bool) (db : Db) (o : ProjectObjects) (v : UserObjects)
      → get_accounting_allocation_objects orm site p user enforce db ≡ ok (o, v)
      → IsUsage orm allocation_attribute_usage db.attribute_usages o.attribute.pk o.usage
        × IsUsage orm allocation_user_attribute_usage db.user_attribute_usages v.attribute.pk
            v.usage
  user_usage-found p user enforce db o v h =
      let (ho, hv) = user_usage_get p user enforce db o v h in
      (project_usage-found p enforce db o ho, IsUsage-of_get orm _ _ v.attribute.pk v.usage hv)
