-- ===== src/Units/Creation.antt =====
-- `create_project_allocation` and `create_user_project_allocation` of api/statistics/utils.py.
pub mod Account
use coldfront.Base.{
  ℕ, ◌==◌, String, Bool, not, ◌&&◌, none, [], ◌∷◌, any, guard, Result, ok, true, integrity_error,
  allocation, project_user, Action, asks, modify, pure, ◌>>=◌, ◌>>◌,
}
use coldfront.Base.Int.{ℤ}
use coldfront.Orm.{Orm, create}
use coldfront.Tables.{
  Db, Project, ProjectUser, Allocation, AllocationStatus, AllocationAttribute, AllocationUser,
  AllocationUserStatus, AllocationUserAttribute, AttributeType, decimal,
}
use coldfront.Accounting.{is_compute_allocation}
use coldfront.Units.Rows.{
  save_with_usage, save_user_with_usage, add_transaction, add_user_transaction,
}

-- `resource` is the name of the primary compute resource, or the exception where there is none.
module _ (orm : Orm) (now : ℕ) (resource : Result String) where
  -- The row with its resource, which is added once the row exists.
  abbrev pub new_allocation : Project → String → Db → Allocation
  new_allocation p name db = record {
    pk = orm.next_key (λ (x : Allocation). x.pk) db.allocations;
    project = p.pk;
    resources = name ∷ [];
    status = AllocationStatus.active;
    start_date = none;
    end_date = none;
  }

  abbrev pub add_allocation : Allocation → Db → Db
  add_allocation a db = record db { allocations = orm.save (λ x. x.pk) a db.allocations }

  abbrev pub new_attribute : Allocation → ℤ → Db → AllocationAttribute
  new_attribute a value db = record {
    pk = orm.next_key (λ (x : AllocationAttribute). x.pk) db.attributes;
    attribute_type = AttributeType.service_units;
    allocation = a.pk;
    value = decimal value;
  }

  abbrev add_attribute : Allocation → ℤ → Action Db AllocationAttribute
  add_attribute a value db = let t = new_attribute a value db in pure t (save_with_usage orm t db)

  unfoldable pub create_project_allocation :
      Project → ℤ → Action Db (Allocation × AllocationAttribute)
  create_project_allocation p value = do
    name ← asks (λ _. resource)
    a ← asks (λ db. ok (new_allocation p name db))
    modify (add_allocation a)
    t ← add_attribute a value
    modify (add_transaction p.pk now value)
    pure (a, t)

  -- A user is in an allocation once.
  abbrev add_allocation_user : Allocation → ℕ → Action Db AllocationUser
  add_allocation_user a user = do
    asks (λ db.
        guard (not (any (λ u. u.allocation == a.pk && u.user == user) db.allocation_users))
          integrity_error)
    let row : ℕ → AllocationUser = λ pk. record {
      pk = pk;
      allocation = a.pk;
      user = user;
      status = AllocationUserStatus.active;
    }
    made ← asks (λ db. ok (create orm (λ x. x.pk) row db.allocation_users))
    modify (λ db. record db { allocation_users = made.1 })
    pure made.0

  abbrev add_user_attribute : AllocationUser → ℤ → Action Db AllocationUserAttribute
  add_user_attribute u value db =
      let t : AllocationUserAttribute = record {
        pk = orm.next_key (λ (x : AllocationUserAttribute). x.pk) db.user_attributes;
        attribute_type = AttributeType.service_units;
        allocation = u.allocation;
        allocation_user = u.pk;
        value = decimal value;
      } in
      pure t (save_user_with_usage orm t db)

  unfoldable pub create_user_project_allocation :
      ℕ → Project → ℤ → Action Db (Allocation × AllocationUser × AllocationUserAttribute)
  create_user_project_allocation user p value = do
    name ← asks (λ _. resource)
    a ← asks (λ db. orm.get allocation (is_compute_allocation p name true) db.allocations)
    u ← add_allocation_user a user
    t ← add_user_attribute u value
    m ←
        asks
          (λ db. orm.get project_user (λ m. m.project == p.pk && m.user == user) db.project_users)
    modify (add_user_transaction m.pk now value)
    pure (a, u, t)
