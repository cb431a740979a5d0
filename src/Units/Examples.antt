-- ===== src/Units/Examples.antt =====
-- The theorems on service units at a project with one member, which has used 5 of its 1000 units.
use coldfront.Base.{
  ◌≡◌, refl, ◌⊎◌, inl, inr, true, none, some, [], ◌∷◌, Member, Exception, ok, err, addition_request,
  ◌==◌,
}
use coldfront.Base.Int.{pos, ◌+ℤ◌, ◌-ℤ◌}
use coldfront.Orm.Memory.{in_memory}
use coldfront.Orm.Keys.{Keyed}
use coldfront.AllowanceInterface.{get_project_compute_resource_name, code_from_name}
use coldfront.Tables.{Db, Allocation, AllocationAttribute, AllocationUserAttribute, decimal}
use coldfront.Accounting.{get_project_objects}
use coldfront.Jobs.Sample.{savio, demo, compute, db}
use coldfront.World.{World, AdditionRequest, AdditionStatus}
use coldfront.Units.Additions.{process_addition}
use coldfront.Units.Account.{Account, buy, account, process_addition-buy}
use coldfront.Units.Service.{in_bounds, units_of, set_service_units_for_allocation_users}
use coldfront.Units.Creation.{create_project_allocation}
use coldfront.Units.Creation.Account.{
  created_allocation, created_attribute, create_project_allocation-account,
}
use coldfront.Units.Everyone.{set_service_units_for_allocation_users-all}

abbrev purchase : AdditionRequest
purchase = record {
  pk = 1;
  project = demo;
  status = AdditionStatus.under_review;
  num_service_units = pos 30000;
  completion_time = none;
  other_justification = "";
  other_timestamp = "";
}

abbrev world : World
world = record {
  db = db;
  users = [];
  profiles = [];
  addition_requests = purchase ∷ [];
  access_requests = [];
  removal_requests = [];
  renewal_requests = [];
  join_requests = [];
  emails = [];
  billing_activities = [];
}

abbrev before : Account
before = record { allowance = pos 100000; usage = pos 500 }

unique_attributes : Keyed (λ (x : AllocationAttribute). x.pk) db.attributes
unique_attributes t (inl e) = rw e refl
unique_attributes t (inr m) = absurd m

unique_allocations : Keyed (λ (x : Allocation). x.pk) db.allocations
unique_allocations t (inl e) = rw e refl
unique_allocations t (inr m) = absurd m

account_before : account in_memory savio demo db ≡ some before
unfolding get_project_objects get_project_compute_resource_name code_from_name
account_before = refl

process_addition-buy_example :
    ((process_addition in_memory savio 50 (λ t. t) purchase world).0
      ≡ ok (buy (pos 30000) before).allowance)
    × (account in_memory savio demo
          (process_addition in_memory savio 50 (λ t. t) purchase world).1.db
        ≡ some (buy (pos 30000) before))
    × (in_memory.get addition_request
          (λ (x : AdditionRequest). x.pk == purchase.pk)
          (process_addition in_memory savio 50 (λ t. t) purchase world).1.addition_requests
        ≡ ok (record purchase { status = AdditionStatus.complete; completion_time = some 50 }))
unfolding ◌+ℤ◌ ◌-ℤ◌
process_addition-buy_example =
    process_addition-buy in_memory savio 50 (λ t. t) purchase world before unique_attributes
      unique_allocations refl refl account_before refl

-- Units bought are added to the 995 that are left.
bought : buy (pos 30000) before ≡ record { allowance = pos 129500; usage = pos 0 }
unfolding ◌+ℤ◌ ◌-ℤ◌
bought = refl

set_service_units_for_allocation_users-all_example :
    (((set_service_units_for_allocation_users in_memory 50 compute (some (pos 700)) none none db).0
        ≡ ok tt)
      × (in_bounds (pos 700) ≡ true)
      × ((x : AllocationUserAttribute)
          → Member x
              (set_service_units_for_allocation_users in_memory 50 compute
                (some (pos 700))
                none
                none
                db).1.user_attributes
          → units_of in_memory 50 4 x ≡ true
          → x.value ≡ decimal (pos 700)))
    ⊎ ((e : Exception) × (set_service_units_for_allocation_users in_memory 50 compute
            (some (pos 700))
            none
            none
            db
          ≡ (err e, db)))
set_service_units_for_allocation_users-all_example =
    set_service_units_for_allocation_users-all in_memory 50 compute (pos 700) none none db

-- Before the project has an allocation.
abbrev bare : Db
bare = record db { allocations = []; attributes = []; attribute_usages = [] }

create_project_allocation-account_example :
    ((create_project_allocation in_memory 50 (ok "Savio Compute") demo (pos 700) bare).0
      ≡ ok (
        created_allocation in_memory savio 50
            (ok "Savio Compute")
            demo
            (pos 700)
            "Savio Compute"
            bare,
        created_attribute in_memory savio 50
            (ok "Savio Compute")
            demo
            (pos 700)
            "Savio Compute"
            bare,
      ))
    × (account in_memory savio demo
          (create_project_allocation in_memory 50 (ok "Savio Compute") demo (pos 700) bare).1
        ≡ some (record { allowance = pos 700; usage = pos 0 }))
unfolding get_project_compute_resource_name code_from_name
create_project_allocation-account_example =
    create_project_allocation-account in_memory savio 50 (ok "Savio Compute") demo (pos 700)
      "Savio Compute" bare refl refl refl ((λ r m. absurd m), (λ r m. absurd m))
