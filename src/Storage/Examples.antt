-- ===== src/Storage/Examples.antt =====
-- The theorems on storage requests at a store with three requests.
use coldfront.Base.{
  ℕ, ◌≡◌, refl, ◌⊎◌, inl, inr, String, true, false, none, some, is_some, [], ◌∷◌, Member, ok,
  truthy,
}
use coldfront.Orm.Memory.{in_memory}
use coldfront.Orm.Keys.{Keyed}
use coldfront.Tables.{Db, Allocation, AllocationStatus, AllocationAttribute, AttributeType, number}
use coldfront.Storage.{
  FsaStatus, FsaState, FsaRequest, FsaCategory, Store, initial_state, is_denied_review,
}
use coldfront.Storage.Orders.{by_scan}
use coldfront.Storage.Service.{queued, stale, approve_request, undeny_request, claim_next_request}
use coldfront.Storage.Claims.{Chosen, claimed, claim_next_request-Chosen}
use coldfront.Storage.Reviews.{
  Stored, Reset, Blanked, approve_request-approved, undeny_request-under_review,
}
use coldfront.Storage.Denials.{
  DeniedFor, deny_eligibility, deny_intake_consistency, deny_other, denial_reason-denied,
  undeny_request-lingers,
}
use coldfront.Storage.Directory.{get_current_quota_gb, add_to_directory_quota}
use coldfront.Storage.Quota.{add_to_directory_quota-get}
use coldfront.Storage.Completion.{complete_fsa_request}
use coldfront.Storage.Completion.Outcome.{Outcome, complete_fsa_request-Outcome}

abbrev request : ℕ → FsaStatus → FsaState → FsaRequest
request k status state = record {
  pk = k;
  status = status;
  project = 1;
  pi = 3;
  requested_amount_gb = 500;
  approved_amount_gb = none;
  request_time = k;
  approval_time = some k;
  completion_time = none;
  modified = k;
  state = state;
}

-- Denied for another reason.
abbrev noted : FsaState
noted = record initial_state { other = record { justification = "full"; timestamp = "t0" } }

abbrev waiting : FsaRequest
waiting = request 5 FsaStatus.approved_queued initial_state

abbrev working : FsaRequest
working = request 6 FsaStatus.approved_processing initial_state

abbrev refused : FsaRequest
refused = request 7 FsaStatus.denied noted

abbrev scratch : Allocation
scratch = record {
  pk = 4;
  project = 1;
  resources = "Scratch Faculty Storage Directory" ∷ [];
  status = AllocationStatus.active;
  start_date = some 0;
  end_date = none;
}

abbrev quota : AllocationAttribute
quota = record {
  pk = 10;
  attribute_type = AttributeType.storage_quota;
  allocation = 4;
  value = number 100;
}

abbrev db : Db
db = record {
  projects = [];
  project_users = [];
  allocations = scratch ∷ [];
  allocation_users = [];
  attributes = quota ∷ [];
  attribute_usages = [];
  user_attributes = [];
  user_attribute_usages = [];
  jobs = [];
  project_transactions = [];
  project_user_transactions = [];
}

abbrev store : Store
store = record { requests = waiting ∷ working ∷ refused ∷ []; db = db }

abbrev iso : ℕ → String
iso n = "t"

claim_next_request-Chosen_example :
    ((claim_next_request in_memory 20 iso by_scan (λ k. false) store ≡ (ok none, store))
      × ((s : FsaRequest)
          → Member s store.requests
          → (queued in_memory 20 iso by_scan (λ k. false) s ≡ false)
            × (stale in_memory 20 iso by_scan (λ k. false) s ≡ false)))
    ⊎ ((r : FsaRequest) × Member r store.requests
        × Chosen in_memory 20 iso by_scan (λ k. false) store r
        × (claim_next_request in_memory 20 iso by_scan (λ k. false) store ≡ (
          ok (some (claimed in_memory 20 iso by_scan (λ k. false) store r)),
          record store {
            requests =
                in_memory.save
                  (λ x. x.pk)
                  (claimed in_memory 20 iso by_scan (λ k. false) store r)
                  store.requests;
          },
        )))
claim_next_request-Chosen_example =
    claim_next_request-Chosen in_memory 20 iso by_scan (λ k. false) store

approve_request-approved_example :
    (a : FsaRequest) × Stored in_memory
      (approve_request in_memory 20 iso waiting store).1
      (approve_request in_memory 20 iso waiting store).0
      a
    × (a.status ≡ FsaStatus.approved_queued)
    × (a.approval_time ≡ some 20)
    × ((waiting.approved_amount_gb ≡ none) × (a.approved_amount_gb ≡ some 500)
        ⊎ (is_some waiting.approved_amount_gb ≡ true)
          × (a.approved_amount_gb ≡ waiting.approved_amount_gb))
    × (a.state ≡ initial_state)
approve_request-approved_example =
    approve_request-approved in_memory 20 iso store waiting waiting refl

undeny_request-under_review_example :
    (u : FsaRequest) × Stored in_memory
      (undeny_request in_memory 20 iso refused store).1
      (undeny_request in_memory 20 iso refused store).0
      u
    × (u.status ≡ FsaStatus.under_review)
    × Reset noted.eligibility u.state.eligibility
    × Reset noted.intake_consistency u.state.intake_consistency
    × Blanked in_memory 20 iso noted.other u.state.other
    × (u.state.setup ≡ noted.setup)
undeny_request-under_review_example =
    undeny_request-under_review in_memory 20 iso refused refused store refl

denial_reason-denied_example :
    (truthy waiting.state.other.timestamp ≡ false
      → DeniedFor
          (deny_eligibility in_memory 20 iso waiting store "no")
          FsaCategory.eligibility
          "no"
          "t")
    × (truthy waiting.state.other.timestamp ≡ false
        → is_denied_review waiting.state.eligibility.status ≡ false
        → DeniedFor
            (deny_intake_consistency in_memory 20 iso waiting store "no")
            FsaCategory.intake_consistency
            "no"
            "t")
    × DeniedFor (deny_other in_memory 20 iso waiting store "no") FsaCategory.other "no" "t"
denial_reason-denied_example = denial_reason-denied in_memory 20 iso waiting store "no" refl

undeny_request-lingers_example :
    (u : FsaRequest) × ((undeny_request in_memory 20 iso refused store).0 ≡ ok u)
    × ((later : ℕ) (after : Store) (j : String)
        → DeniedFor (deny_eligibility in_memory later iso u after j) FsaCategory.other "" "t")
undeny_request-lingers_example =
    undeny_request-lingers in_memory 20 iso refused refused store refl refl refl

keyed : Keyed (λ (x : AllocationAttribute). x.pk) db.attributes
keyed t (inl e) = rw e refl
keyed t (inr m) = absurd m

add_to_directory_quota-get_example :
    ((add_to_directory_quota in_memory (some scratch) (some 250) db).0 ≡ ok tt)
    × (get_current_quota_gb in_memory
          (some scratch)
          (add_to_directory_quota in_memory (some scratch) (some 250) db).1
        ≡ ok 350)
unfolding get_current_quota_gb
add_to_directory_quota-get_example =
    add_to_directory_quota-get in_memory scratch db keyed 100 250 refl

complete_fsa_request-Outcome_example :
    Outcome in_memory 20 iso
      (λ s. s)
      0
      (λ s. s)
      6
      (some "lab")
      store
      (complete_fsa_request in_memory 20 iso (λ s. s) 0 (λ s. s) 6 (some "lab") store)
complete_fsa_request-Outcome_example =
    complete_fsa_request-Outcome in_memory 20 iso (λ s. s) 0 (λ s. s) 6 (some "lab") store
