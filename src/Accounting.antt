-- ===== src/Accounting.antt =====
-- The database objects of a project's accounting: `get_accounting_allocation_objects` of
-- api/statistics/utils.py. Its type checks hold by the types here.
pub mod Found
use coldfront.Base.{
  ℕ, ◌==◌, Bool, true, Option, ◌&&◌, ◌||◌, not, any, str_eq, Result, ok, Model, allocation,
  allocation_attribute, allocation_attribute_usage, project_user, allocation_user,
  allocation_user_attribute, allocation_user_attribute_usage, String,
}
use coldfront.Base.Fallible.{◌>>=◌}
use coldfront.Orm.{Orm}
use coldfront.AllowanceInterface.{Site, get_project_compute_resource_name}
use coldfront.Tables.{
  Db, Project, ProjectUser, Allocation, AllocationUser, AllocationAttribute, AttributeUsage,
  AllocationUserAttribute, AttributeType, has_type, is_active_member, is_active_allocation,
  is_active_user,
}

-- `AccountingAllocationObjects`: the fields that are set when no user is given, and those that are
-- set besides when one is.
pub record ProjectObjects : Type 0 where
  pub allocation : Allocation
  pub attribute : AllocationAttribute
  pub usage : AttributeUsage

pub record UserObjects : Type 0 where
  pub allocation_user : AllocationUser
  pub attribute : AllocationUserAttribute
  pub usage : AttributeUsage

-- `enforce` is the argument `enforce_allocation_active`.
abbrev pub is_compute_allocation : Project → String → Bool → Allocation → Bool
is_compute_allocation project resource enforce a =
    a.project == project.pk
    && (any (λ name. str_eq name resource) a.resources
        && (not enforce || is_active_allocation a.status))

abbrev pub is_units : ℕ → AllocationAttribute → Bool
is_units allocation_pk t =
    has_type t.attribute_type AttributeType.service_units && t.allocation == allocation_pk

abbrev pub is_user_units : ℕ → ℕ → AllocationUserAttribute → Bool
is_user_units allocation_pk user_pk t =
    has_type t.attribute_type AttributeType.service_units
    && (t.allocation == allocation_pk && t.allocation_user == user_pk)

module _ (orm : Orm) (site : Site) where
  unfoldable pub get_project_objects : Project → Bool → Db → Result ProjectObjects
  get_project_objects project enforce db = do
    name ← get_project_compute_resource_name site project.name
    a ← orm.get allocation (is_compute_allocation project name enforce) db.allocations
    t ← orm.get allocation_attribute (is_units a.pk) db.attributes
    u ← orm.get allocation_attribute_usage (λ u. u.attribute == t.pk) db.attribute_usages
    ok (record { allocation = a; attribute = t; usage = u })

  -- With a user, whose id is given.
  unfoldable pub get_accounting_allocation_objects :
      Project → ℕ → Bool → Db → Result (ProjectObjects × UserObjects)
  unfolding get_project_objects
  get_accounting_allocation_objects project user enforce db = do
    o ← get_project_objects project enforce db
    member ←
        orm.get project_user
          (λ m.
            m.user == user
            && (m.project == project.pk && (not enforce || is_active_member m.status)))
          db.project_users
    a ←
        orm.get Model.allocation_user
          (λ a.
            a.allocation == o.allocation.pk
            && (a.user == user && (not enforce || is_active_user a.status)))
          db.allocation_users
    t ← orm.get allocation_user_attribute (is_user_units o.allocation.pk a.pk) db.user_attributes
    u ← orm.get allocation_user_attribute_usage (λ u. u.attribute == t.pk) db.user_attribute_usages
    ok (o, record { allocation_user = a; attribute = t; usage = u })
