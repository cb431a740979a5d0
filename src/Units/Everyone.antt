-- ===== src/Units/Everyone.antt =====
-- What the setters for all users of an allocation in
-- core/allocation/utils_/accounting_utils/__init__.py leave.
use coldfront.Base.{
  ℕ, ◌≡◌, ◌==◌, ==_iff, refl, sym, ◌⊎◌, inl, inr, true, Option, none, some, List, [], ◌∷◌, Member,
  assertion_error, Exception, ok, err, arith, allocation_user_attribute_usage, atomic, Result-cases,
  Bool-cases, ◌>>=◌, allocation_user_attribute,
}
use coldfront.Base.Int.{ℤ}
use coldfront.Orm.{Orm}
use coldfront.Orm.Lookup.{get-any, get-pass}
use coldfront.Orm.Keys.{Member-keep, Member-replace}
use coldfront.Tables.{Db, Allocation, AllocationUserAttribute, AttributeUsage, decimal}
use coldfront.Units.Rows.{save_user_with_usage}
use coldfront.Units.Service.{
  in_bounds, assert_in_bounds, assert_num_service_units_in_bounds,
  set_allocation_user_service_units_allowance, set_allocation_user_service_units_usage,
  set_one_user, set_users, with_value, set_one_usage, units_of,
  set_service_units_for_allocation_users,
}

module _ (orm : Orm) (now : ℕ) where
  -- Setting a user's allowance saves its row, with the new value.
  pub allowance_saved :
      (t : AllocationUserAttribute) (n : ℤ) (time : Option ℕ) (db : Db)
      → (set_allocation_user_service_units_allowance orm now t n time db).0 ≡ ok tt
      → (locked : AllocationUserAttribute) × (orm.get allocation_user_attribute
            (λ x. x.pk == t.pk)
            db.user_attributes
          ≡ ok locked)
        × ((set_allocation_user_service_units_allowance orm now t n time db).1.user_attributes
            ≡ orm.save (λ x. x.pk) (record locked { value = decimal n }) db.user_attributes)
  unfolding set_allocation_user_service_units_allowance save_user_with_usage
  allowance_saved t n time db h =
      elim (Result-cases
        (orm.get allocation_user_attribute (λ x. x.pk == t.pk) db.user_attributes)) [
          | inl (locked, e) ↦ (locked, e, ground (arith, e, h))
          | inr (x, e) ↦ ground (arith, e, h)
        ]

  usage_apart :
      (u : AttributeUsage) (n : ℤ) (db : Db)
      → (set_allocation_user_service_units_usage orm now u n db).1.user_attributes
        ≡ db.user_attributes
  unfolding set_allocation_user_service_units_usage
  usage_apart u n db = ground arith

  -- A user's row that is not yet set is still to come.
  abbrev Pending : ℕ → ℤ → List AllocationUserAttribute → Db → Type 0
  Pending a n ts db =
      (x : AllocationUserAttribute)
      → Member x db.user_attributes
      → units_of orm now a x ≡ true
      → (x.value ≡ decimal n) ⊎ Member x ts

  allowance-Pending :
      (a : ℕ) (n : ℤ) (time : Option ℕ) (t : AllocationUserAttribute)
      (ts : List AllocationUserAttribute) (db : Db)
      → (set_allocation_user_service_units_allowance orm now t n time db).0 ≡ ok tt
      → Pending a n (t ∷ ts) db
      → Pending a n ts (set_allocation_user_service_units_allowance orm now t n time db).1
  allowance-Pending a n time t ts db h pending x m u =
      let (locked, found, saved) = allowance_saved t n time db h in
      let row : AllocationUserAttribute = record locked { value = decimal n } in
      let key : locked.pk ≡ t.pk =
        (==_iff locked.pk t.pk).0 (get-pass orm _ _ db.user_attributes locked found) in
      let present =
        get-any orm allocation_user_attribute (λ x. x.pk == t.pk) db.user_attributes locked found in
      let replaced = orm.save_lem (λ x. x.pk) row db.user_attributes (rw key present) in
      elim (Member-replace (λ (x : AllocationUserAttribute). x.pk) row db.user_attributes x
        (rw (saved, replaced) at m)) [
          | inl e ↦ inl (rw e refl)
          | inr (old, other) ↦ elim (pending x old u) [
            | inl v ↦ inl v
            | inr (inr k) ↦ inr k
            | inr (inl e) ↦ absurd (other (rw e (sym key)))
          ]
        ]

  usages_apart :
      (usage : Option ℤ) (t : AllocationUserAttribute) (db : Db)
      → (with_value usage (set_one_usage orm now t) db).1.user_attributes ≡ db.user_attributes
  usages_apart none t db = refl
  usages_apart (some n) t db =
      elim (Result-cases (
        orm.get allocation_user_attribute_usage (λ x. x.attribute == t.pk)
          db.user_attribute_usages)) [
            | inl (u, e) ↦ rw (◌>>=◌, e) (usage_apart u n db)
            | inr (x, e) ↦ rw (◌>>=◌, e) refl
          ]

  one_steps :
      (n : ℤ) (usage : Option ℤ) (time : Option ℕ) (t : AllocationUserAttribute) (db : Db)
      → (set_one_user orm now (some n) usage time t db).0 ≡ ok tt
      → ((set_allocation_user_service_units_allowance orm now t n time db).0 ≡ ok tt)
        × ((set_one_user orm now (some n) usage time t db).1.user_attributes
            ≡ (set_allocation_user_service_units_allowance orm now t n time db).1.user_attributes)
  one_steps n usage time t db h =
      elim (Result-cases (set_allocation_user_service_units_allowance orm now t n time db).0) [
        | inl (k, e) ↦ (
          e,
          rw (◌>>=◌, e)
              (usages_apart usage t
                (set_allocation_user_service_units_allowance orm now t n time db).1),
        )
        | inr (x, e) ↦ ground (arith, e, h)
      ]

  users_set :
      (a : ℕ) (n : ℤ) (usage : Option ℤ) (time : Option ℕ) (ts : List AllocationUserAttribute)
      (db : Db)
      → (set_users orm now (some n) usage time ts db).0 ≡ ok tt
      → Pending a n ts db
      → Pending a n [] (set_users orm now (some n) usage time ts db).1
  users_set a n usage time [] db h pending = pending
  users_set a n usage time (t ∷ ts) db h pending =
      elim (Result-cases (set_one_user orm now (some n) usage time t db).0) [
        | inl (k, e) ↦
            let (done, same) = one_steps n usage time t db e in
            let next : Pending a n ts (set_one_user orm now (some n) usage time t db).1 =
              rw same (allowance-Pending a n time t ts db done pending) in
            rw (◌>>=◌, e)
              (users_set a n usage time ts (set_one_user orm now (some n) usage time t db).1
                (rw (◌>>=◌, e) at h) next)
        | inr (x, e) ↦ ground (arith, e, h)
      ]

  run_in_bounds :
      (a : Allocation) (n : ℤ) (usage : Option ℤ) (time : Option ℕ) (db : Db)
      → in_bounds n ≡ true
      → assert_in_bounds usage ≡ ok tt
      → set_service_units_for_allocation_users orm now a (some n) usage time db
        ≡ atomic
            (set_users orm now
              (some n)
              usage
              time
              (orm.filter (units_of orm now a.pk) db.user_attributes))
            db
  unfolding set_service_units_for_allocation_users assert_num_service_units_in_bounds
  run_in_bounds a n usage time db q c = rw (◌>>=◌, q, c) refl

  -- When it returns with an allowance given, the allowance is within the bounds, and every row of
  -- service units of a user of the allocation has it as its value. When it raises, the tables are
  -- as they were.
  pub set_service_units_for_allocation_users-all :
      (a : Allocation) (n : ℤ) (usage : Option ℤ) (time : Option ℕ) (db : Db)
      → (((set_service_units_for_allocation_users orm now a (some n) usage time db).0 ≡ ok tt)
          × (in_bounds n ≡ true)
          × ((x : AllocationUserAttribute)
              → Member x
                  (set_service_units_for_allocation_users orm now a
                    (some n)
                    usage
                    time
                    db).1.user_attributes
              → units_of orm now a.pk x ≡ true
              → x.value ≡ decimal n))
        ⊎ ((e : Exception) × ((set_service_units_for_allocation_users orm now a
                (some n)
                usage
                time
                db)
              ≡ (err e, db)))
  unfolding set_service_units_for_allocation_users assert_num_service_units_in_bounds
  set_service_units_for_allocation_users-all a n usage time db =
      let ts = orm.filter (units_of orm now a.pk) db.user_attributes in
      let first : Pending a.pk n ts db = λ x m u.
        inr (rw orm.filter_lem (Member-keep (units_of orm now a.pk) db.user_attributes x m u)) in
      elim (Bool-cases (in_bounds n)) [
        | inr q ↦ inr (assertion_error, ground (arith, q))
        | inl q ↦ elim (Result-cases (assert_in_bounds usage)) [
          | inr (x, c) ↦ inr (x, rw (◌>>=◌, q, c) refl)
          | inl (t, c) ↦ elim (Result-cases (set_users orm now (some n) usage time ts db).0) [
            | inr (x, e) ↦ inr (x, rw (run_in_bounds a n usage time db q c, atomic, e) refl)
            | inl (k, e) ↦
                let all = users_set a.pk n usage time ts db e first in
                inl (
                  rw (run_in_bounds a n usage time db q c, atomic, e) refl,
                  q,
                  λ x m u.
                      elim (all x (rw (run_in_bounds a n usage time db q c, atomic, e) at m) u) [
                        | inl v ↦ v
                        | inr z ↦ absurd z
                      ],
                )
          ]
        ]
      ]
