-- ===== src/Storage/Quota.antt =====
-- The storage quota of an allocation: what
-- plugins/faculty_storage_allocations/services/directory_service.py writes and reads back.
use coldfront.Base.{ℕ, ◌+◌, ◌≡◌, refl, inl, inr, some, [], ok, arith, allocation_attribute}
use coldfront.Orm.{Orm}
use coldfront.Orm.Lookup.{get-cases, get-save_by, get-new_by}
use coldfront.Orm.Keys.{Keyed, kept-Member}
use coldfront.Tables.{Db, Allocation, AllocationAttribute, AttributeType, number}
use coldfront.Storage.Directory.{
  is_quota, set_directory_quota, get_current_quota_gb, add_to_directory_quota,
}

module _ (orm : Orm) (a : Allocation) (db : Db)
    (keyed : Keyed (λ (x : AllocationAttribute). x.pk) db.attributes) where
  -- Where no two attributes share a key, a quota of an allocation that was set with success is
  -- read back.
  pub set_directory_quota-get :
      (n : ℕ)
      → (set_directory_quota orm (some a) (some n) db).0 ≡ ok tt
      → get_current_quota_gb orm (some a) (set_directory_quota orm (some a) (some n) db).1 ≡ ok n
  unfolding set_directory_quota get_current_quota_gb
  set_directory_quota-get n h =
      elim (get-cases orm allocation_attribute (is_quota a.pk) db.attributes) [
        | inl (t, k, g) ↦
            let (m, q) = kept-Member (is_quota a.pk) db.attributes t [] k in
            rw g (
              rw
                (get-save_by orm allocation_attribute (λ x. x.pk) (is_quota a.pk)
                  (record t { value = number n }) t db.attributes k (keyed t m) q)
                refl)
        | inr (inl (k, g)) ↦
            let row : AllocationAttribute = record {
              pk = orm.next_key (λ (x : AllocationAttribute). x.pk) db.attributes;
              attribute_type = AttributeType.storage_quota;
              allocation = a.pk;
              value = number n;
            } in
            rw g (
              rw
                (get-new_by orm allocation_attribute (is_quota a.pk) row db.attributes k
                  (ground arith))
                refl)
        | inr (inr g) ↦ ground (arith, g, h)
      ]

  set_run :
      (c n : ℕ)
      → get_current_quota_gb orm (some a) db ≡ ok c
      → (set_directory_quota orm (some a) (some n) db).0 ≡ ok tt
  unfolding set_directory_quota get_current_quota_gb
  set_run c n h = ground (arith, h)

  add_run :
      (c n : ℕ)
      → get_current_quota_gb orm (some a) db ≡ ok c
      → add_to_directory_quota orm (some a) (some n) db
        ≡ set_directory_quota orm (some a) (some (c + n)) db
  unfolding add_to_directory_quota set_directory_quota get_current_quota_gb
  add_run c n h = ground (arith, h)

  -- Where no two attributes share a key, adding to the quota of an allocation, when it can be
  -- read, succeeds, and the quota is then the sum.
  pub add_to_directory_quota-get :
      (c n : ℕ)
      → get_current_quota_gb orm (some a) db ≡ ok c
      → ((add_to_directory_quota orm (some a) (some n) db).0 ≡ ok tt)
        × (get_current_quota_gb orm (some a) (add_to_directory_quota orm (some a) (some n) db).1
            ≡ ok (c + n))
  add_to_directory_quota-get c n h =
      rw (add_run c n h)
        (set_run c (c + n) h, set_directory_quota-get (c + n) (set_run c (c + n) h))
