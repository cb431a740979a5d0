-- ===== src/Units/Service.antt =====
-- Service units of allocations and their users:
-- core/allocation/utils_/accounting_utils/__init__.py, and `set_allocation_user_attribute_value` of
-- core/allocation/utils.py. The reasons that the history of changes keeps are left
-- out, and so is the attribute that `set_allocation_service_units_allowance` returns.
use coldfront.Base.{
  ℕ, ◌==◌, Bool, not, ◌&&◌, Option, none, some, List, [], ◌∷◌, guard, Result, ok, err,
  assertion_error, does_not_exist, Model, allocation, allocation_attribute,
  allocation_attribute_usage, project_user, allocation_user, allocation_user_attribute,
  allocation_user_attribute_usage, Action, asks, gets, pure, modify, atomic, ◌>>=◌, ◌>>◌,
}
use coldfront.Base.Int.{ℤ, pos, ltb_ℤ}
use coldfront.Orm.{Orm}
use coldfront.Tables.{
  Db, ProjectUser, Allocation, AllocationUser, AllocationAttribute, AttributeUsage,
  AllocationUserAttribute, AttributeType, Value, text, decimal, has_type,
}
use coldfront.Accounting.{ProjectObjects}
use coldfront.Jobs.Store.{allocation_max}
use coldfront.Units.Rows.{
  save_with_usage, save_usage, save_user_with_usage, save_user_usage, add_transaction,
  add_user_transaction,
}

abbrev pub in_bounds : ℤ → Bool
in_bounds units = not (ltb_ℤ units (pos 0)) && not (ltb_ℤ allocation_max units)

unfoldable pub assert_num_service_units_in_bounds : ℤ → Result (Unit {0})
assert_num_service_units_in_bounds units = guard (in_bounds units) assertion_error

abbrev pub assert_in_bounds : Option ℤ → Result (Unit {0})
assert_in_bounds none = ok tt
assert_in_bounds (some units) = assert_num_service_units_in_bounds units

abbrev pub assert_attribute_type_is_service_units : AttributeType → Result (Unit {0})
assert_attribute_type_is_service_units type =
    guard (has_type type AttributeType.service_units) assertion_error

-- `if value is not None: body`
abbrev pub with_value : Option ℤ → (ℤ → Action Db (Unit {0})) → Action Db (Unit {0})
with_value none body = pure tt
with_value (some n) body = body n

-- A row that may be missing.
abbrev or_none : Result ProjectUser → Result (Option ProjectUser)
or_none (ok m) = ok (some m)
or_none (err (does_not_exist Model.project_user)) = ok none
or_none (err e) = err e

abbrev note_user : Option ProjectUser → ℕ → ℤ → Db → Db
note_user none time units db = db
note_user (some m) time units db = add_user_transaction m.pk time units db

abbrev pub is_attribute_of : AttributeType → AllocationUser → AllocationUserAttribute → Bool
is_attribute_of type a t =
    has_type t.attribute_type type && (t.allocation == a.allocation && t.allocation_user == a.pk)

-- `now` is the current time.
module _ (orm : Orm) (now : ℕ) where
  abbrev time_or_now : Option ℕ → ℕ
  time_or_now none = now
  time_or_now (some t) = t

  unfoldable pub set_allocation_service_units_allowance :
      AllocationAttribute → ℤ → Option ℕ → Action Db (Unit {0})
  set_allocation_service_units_allowance t units time = do
    asks (λ db. assert_attribute_type_is_service_units t.attribute_type)
    a ← asks (λ db. orm.get allocation (λ a. a.pk == t.allocation) db.allocations)
    atomic do
      locked ← asks (λ db. orm.get allocation_attribute (λ x. x.pk == t.pk) db.attributes)
      modify (save_with_usage orm (record locked { value = decimal units }))
      modify (add_transaction a.project (time_or_now time) units)

  unfoldable pub set_allocation_service_units_usage : AttributeUsage → ℤ → Action Db (Unit {0})
  set_allocation_service_units_usage u units = do
    t ← asks (λ db. orm.get allocation_attribute (λ x. x.pk == u.attribute) db.attributes)
    asks (λ db. assert_attribute_type_is_service_units t.attribute_type)
    atomic do
      locked ← asks (λ db.
          orm.get allocation_attribute_usage (λ x. x.attribute == u.attribute) db.attribute_usages)
      modify (save_usage orm (record locked { value = units }))

  -- The user of the project, if there is one.
  abbrev find_project_user : AllocationUserAttribute → Action Db (Option ProjectUser)
  find_project_user t = do
    a ← asks (λ db. orm.get allocation (λ a. a.pk == t.allocation) db.allocations)
    u ← asks (λ db. orm.get allocation_user (λ u. u.pk == t.allocation_user) db.allocation_users)
    asks (λ db.
        or_none
          (orm.get project_user (λ m. m.project == a.project && m.user == u.user) db.project_users))

  unfoldable pub set_allocation_user_service_units_allowance :
      AllocationUserAttribute → ℤ → Option ℕ → Action Db (Unit {0})
  set_allocation_user_service_units_allowance t units time = do
    asks (λ db. assert_attribute_type_is_service_units t.attribute_type)
    m ← find_project_user t
    atomic do
      locked ← asks (λ db. orm.get allocation_user_attribute (λ x. x.pk == t.pk) db.user_attributes)
      modify (save_user_with_usage orm (record locked { value = decimal units }))
      modify (note_user m (time_or_now time) units)

  unfoldable pub set_allocation_user_service_units_usage : AttributeUsage → ℤ → Action Db (Unit {0})
  set_allocation_user_service_units_usage u units = do
    t ← asks (λ db. orm.get allocation_user_attribute (λ x. x.pk == u.attribute) db.user_attributes)
    asks (λ db. assert_attribute_type_is_service_units t.attribute_type)
    atomic do
      locked ← asks (λ db.
          orm.get allocation_user_attribute_usage (λ x. x.attribute == u.attribute)
            db.user_attribute_usages)
      modify (save_user_usage orm (record locked { value = units }))

  unfoldable pub set_service_units_for_allocation :
      ProjectObjects → Option ℤ → Option ℤ → Option ℕ → Action Db (Unit {0})
  set_service_units_for_allocation o allowance usage time = do
    asks (λ db. assert_in_bounds allowance)
    asks (λ db. assert_in_bounds usage)
    atomic do
      with_value allowance (λ n. set_allocation_service_units_allowance o.attribute n time)
      with_value usage (λ n. set_allocation_service_units_usage o.usage n)

  abbrev pub set_one_usage : AllocationUserAttribute → ℤ → Action Db (Unit {0})
  set_one_usage t units = do
    u ← asks (λ db.
        orm.get allocation_user_attribute_usage (λ x. x.attribute == t.pk) db.user_attribute_usages)
    set_allocation_user_service_units_usage u units

  abbrev pub set_one_user :
      Option ℤ → Option ℤ → Option ℕ → AllocationUserAttribute → Action Db (Unit {0})
  set_one_user allowance usage time t = do
    with_value allowance (λ n. set_allocation_user_service_units_allowance t n time)
    with_value usage (set_one_usage t)

  abbrev pub set_users :
      Option ℤ → Option ℤ → Option ℕ → List AllocationUserAttribute → Action Db (Unit {0})
  set_users allowance usage time [] = pure tt
  set_users allowance usage time (t ∷ ts) =
      set_one_user allowance usage time t >> set_users allowance usage time ts

  abbrev pub units_of : ℕ → AllocationUserAttribute → Bool
  units_of a t = t.allocation == a && has_type t.attribute_type AttributeType.service_units

  -- Of the accounting objects only the allocation is read.
  unfoldable pub set_service_units_for_allocation_users :
      Allocation → Option ℤ → Option ℤ → Option ℕ → Action Db (Unit {0})
  set_service_units_for_allocation_users a allowance usage time = do
    asks (λ db. assert_in_bounds allowance)
    asks (λ db. assert_in_bounds usage)
    atomic do
      ts ← gets (λ db. orm.filter (units_of a.pk) db.user_attributes)
      set_users allowance usage time ts

  unfoldable pub set_service_units :
      ProjectObjects
      → Option ℤ
      → Option ℤ
      → Option ℕ
      → Option ℤ
      → Option ℤ
      → Option ℕ
      → Action Db (Unit {0})
  set_service_units o allowance usage time user_allowance user_usage user_time = atomic do
    set_service_units_for_allocation o allowance usage time
    set_service_units_for_allocation_users o.allocation user_allowance user_usage user_time

  -- `get_or_create`, whose new row is saved with an empty value.
  abbrev pub new_user_attribute : AttributeType → AllocationUser → Db → AllocationUserAttribute
  new_user_attribute type a db = record {
    pk = orm.next_key (λ (x : AllocationUserAttribute). x.pk) db.user_attributes;
    attribute_type = type;
    allocation = a.allocation;
    allocation_user = a.pk;
    value = text "";
  }

  abbrev pub or_create :
      AttributeType
      → AllocationUser
      → Result AllocationUserAttribute
      → Action Db AllocationUserAttribute
  or_create type a (ok t) db = (ok t, db)
  or_create type a (err (does_not_exist Model.allocation_user_attribute)) db =
      let row = new_user_attribute type a db in (ok row, save_user_with_usage orm row db)
  or_create type a (err e) db = (err e, db)

  abbrev pub get_or_create_user_attribute :
      AttributeType → AllocationUser → Action Db AllocationUserAttribute
  get_or_create_user_attribute type a db =
      or_create type a
        (orm.get allocation_user_attribute (is_attribute_of type a) db.user_attributes) db

  unfoldable pub set_allocation_user_attribute_value :
      AllocationUser → AttributeType → Value → Action Db AllocationUserAttribute
  set_allocation_user_attribute_value a type value = do
    t ← get_or_create_user_attribute type a
    modify (save_user_with_usage orm (record t { value = value }))
    pure (record t { value = value })

  unfoldable pub allocate_service_units_to_user : AllocationUser → ℤ → Action Db (Unit {0})
  allocate_service_units_to_user a units = atomic do
    t ← set_allocation_user_attribute_value a AttributeType.service_units (decimal units)
    set_allocation_user_service_units_allowance t units none
