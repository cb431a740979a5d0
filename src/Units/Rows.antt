-- ===== src/Units/Rows.antt =====
-- Saving the rows that hold service units: `AllocationAttribute.save` and
-- `AllocationUserAttribute.save` of core/allocation/models.py, and the rows of the transactions. Only
-- the attribute type Service Units has a usage.
use coldfront.Base.{ℕ, ◌==◌, List, [], ◌∷◌, ◌++◌, not, ◌&&◌, is_nonempty, if◌then◌else◌}
use coldfront.Base.Int.{ℤ, pos}
use coldfront.Orm.{Orm}
use coldfront.Tables.{
  Db, Allocation, AllocationAttribute, AttributeUsage, AllocationUserAttribute, AttributeType,
  has_type,
}

module _ (orm : Orm) where
  abbrev pub save_allocation : Allocation → Db → Db
  save_allocation a db = record db { allocations = orm.save (λ x. x.pk) a db.allocations }

  abbrev pub save_attribute : AllocationAttribute → Db → Db
  save_attribute t db = record db { attributes = orm.save (λ x. x.pk) t db.attributes }

  abbrev pub save_usage : AttributeUsage → Db → Db
  save_usage u db = record db {
    attribute_usages = orm.save (λ x. x.attribute) u db.attribute_usages;
  }

  abbrev pub save_user_attribute : AllocationUserAttribute → Db → Db
  save_user_attribute t db = record db {
    user_attributes = orm.save (λ x. x.pk) t db.user_attributes;
  }

  -- A usage starts at `ALLOCATION_MIN`.
  abbrev pub with_usage : ℕ → AttributeType → List AttributeUsage → List AttributeUsage
  with_usage k type usages =
      if has_type type AttributeType.service_units
        && not (is_nonempty (orm.filter (λ u. u.attribute == k) usages))
      then usages ++ record { attribute = k; value = pos 0 } ∷ []
      else usages

  -- `save` of an attribute with its usage.
  unfoldable pub save_with_usage : AllocationAttribute → Db → Db
  save_with_usage t db = record (save_attribute t db) {
    attribute_usages = with_usage t.pk t.attribute_type db.attribute_usages;
  }

  unfoldable pub save_user_with_usage : AllocationUserAttribute → Db → Db
  save_user_with_usage t db = record (save_user_attribute t db) {
    user_attribute_usages = with_usage t.pk t.attribute_type db.user_attribute_usages;
  }

  abbrev pub save_user_usage : AttributeUsage → Db → Db
  save_user_usage u db = record db {
    user_attribute_usages = orm.save (λ x. x.attribute) u db.user_attribute_usages;
  }

-- `ProjectTransaction.objects.create` and `ProjectUserTransaction.objects.create`
abbrev pub add_transaction : ℕ → ℕ → ℤ → Db → Db
add_transaction owner time units db = record db {
  project_transactions =
      db.project_transactions
      ++ record { owner = owner; date_time = time; allocation = units } ∷ [];
}

abbrev pub add_user_transaction : ℕ → ℕ → ℤ → Db → Db
add_user_transaction owner time units db = record db {
  project_user_transactions =
      db.project_user_transactions
      ++ record { owner = owner; date_time = time; allocation = units } ∷ [];
}
