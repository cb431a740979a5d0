-- ===== src/Storage/Service.antt =====
-- `FacultyStorageAllocationRequestService` of
-- plugins/faculty_storage_allocations/services/request_service.py, but for `complete_request`.
-- Each operation takes the request that it is called on and returns it as it leaves it. The mails
-- and the log are left out.
use coldfront.Base.{
  ℕ, String, ◌+◌, ltb, leb, Bool, true, false, not, ◌&&◌, ◌||◌, Option, none, some, List, truthy,
  Action, pure, gets, atomic, ◌>>=◌, if◌then◌else◌,
}
use coldfront.Orm.{Orm, create}
use coldfront.Storage.{
  FsaStatus, ReviewStatus, SetupStatus, FsaRequest, Store, initial_state, is_denied_review,
  is_queued, is_processing,
}
use coldfront.Storage.Orders.{OrderBy}

-- What `create_request` is given.
pub record FsaData : Type 0 where
  pub status : FsaStatus
  pub project : ℕ
  pub pi : ℕ
  pub requested_amount_gb : ℕ

abbrev amount_or : Option ℕ → ℕ → Option ℕ
amount_or none d = some d
amount_or (some a) d = some a

-- 30 minutes, in microseconds.
abbrev pub timeout : ℕ
timeout = 1800000000

-- In ascending order a missing time comes last.
abbrev time_before : Option ℕ → Option ℕ → Bool
time_before none b = false
time_before (some a) none = true
time_before (some a) (some b) = ltb a b

-- `order_by("approval_time", "request_time")` and `order_by("modified")`
abbrev pub by_approval : FsaRequest → FsaRequest → Bool
by_approval a b =
    time_before a.approval_time b.approval_time
    || not (time_before b.approval_time a.approval_time) && leb a.request_time b.request_time

abbrev pub by_modified : FsaRequest → FsaRequest → Bool
by_modified a b = leb a.modified b.modified

abbrev or_else : {A : Type 0} → Option A → Option A → Option A
or_else none b = b
or_else (some a) b = some a

-- `now` is the current time and `iso` writes a time in ISO 8601.
module _ (orm : Orm) (now : ℕ) (iso : ℕ → String) where
  -- `request.save()`, which also sets `modified`.
  abbrev pub touched : FsaRequest → FsaRequest
  touched r = record r { modified = now }

  abbrev pub save_request : FsaRequest → Action Store FsaRequest
  save_request r store =
      pure (touched r) (record store { requests = orm.save (λ x. x.pk) (touched r) store.requests })

  abbrev request_of : FsaData → ℕ → FsaRequest
  request_of data_ k = record {
    pk = k;
    status = data_.status;
    project = data_.project;
    pi = data_.pi;
    requested_amount_gb = data_.requested_amount_gb;
    approved_amount_gb = none;
    request_time = now;
    approval_time = none;
    completion_time = none;
    modified = now;
    state = initial_state;
  }

  unfoldable pub create_request : FsaData → Action Store FsaRequest
  create_request data_ store =
      let (r, requests) = create orm (λ x. x.pk) (request_of data_) store.requests in
      pure r (record store { requests = requests })

  unfoldable pub approve_request : FsaRequest → Action Store FsaRequest
  approve_request r = save_request (record r {
    status = FsaStatus.approved_queued;
    approval_time = some now;
    approved_amount_gb = amount_or r.approved_amount_gb r.requested_amount_gb;
  })

  unfoldable pub update_eligibility_state :
      FsaRequest → ReviewStatus → String → Action Store FsaRequest
  update_eligibility_state r status justification = save_request (record r {
    state = record r.state {
      eligibility = record { status = status; justification = justification; timestamp = iso now };
    };
  })

  unfoldable pub update_intake_consistency_state :
      FsaRequest → ReviewStatus → String → Action Store FsaRequest
  update_intake_consistency_state r status justification = save_request (record r {
    state = record r.state {
      intake_consistency = record {
        status = status;
        justification = justification;
        timestamp = iso now;
      };
    };
  })

  abbrev name_or : Option String → String → String
  name_or none d = d
  name_or (some s) d = s

  unfoldable pub update_setup_state :
      FsaRequest → Option String → SetupStatus → Action Store FsaRequest
  update_setup_state r directory_name status = save_request (record r {
    state = record r.state {
      setup = record {
        status = status;
        directory_name = name_or directory_name r.state.setup.directory_name;
        timestamp = iso now;
      };
    };
  })

  unfoldable pub update_other_state : FsaRequest → String → Action Store FsaRequest
  update_other_state r justification = save_request (record r {
    state = record r.state {
      other = record { justification = justification; timestamp = iso now };
    };
  })

  unfoldable pub deny_request : FsaRequest → Action Store FsaRequest
  deny_request r = save_request (record r { status = FsaStatus.denied })

  unfoldable pub reset_eligibility : FsaRequest → Action Store FsaRequest
  unfolding update_eligibility_state
  reset_eligibility r =
      if is_denied_review r.state.eligibility.status
      then update_eligibility_state r ReviewStatus.pending r.state.eligibility.justification
      else pure r

  unfoldable pub reset_intake_consistency : FsaRequest → Action Store FsaRequest
  unfolding update_intake_consistency_state
  reset_intake_consistency r =
      if is_denied_review r.state.intake_consistency.status
      then update_intake_consistency_state r ReviewStatus.pending
          r.state.intake_consistency.justification
      else pure r

  unfoldable pub reset_other : FsaRequest → Action Store FsaRequest
  unfolding update_other_state
  reset_other r = if truthy r.state.other.timestamp then update_other_state r "" else pure r

  unfoldable pub undeny_request : FsaRequest → Action Store FsaRequest
  unfolding reset_eligibility reset_intake_consistency reset_other
  undeny_request r = do
    e ← reset_eligibility r
    i ← reset_intake_consistency e
    o ← reset_other i
    save_request (record o { status = FsaStatus.under_review })

  -- `locked` tells the rows that other transactions hold, which `skip_locked` leaves out.
  module _ (order : OrderBy) (locked : ℕ → Bool) where
    abbrev pub queued : FsaRequest → Bool
    queued r = is_queued r.status && not (locked r.pk)

    -- The threshold is `now - timeout`.
    abbrev pub stale : FsaRequest → Bool
    stale r = is_processing r.status && (ltb (r.modified + timeout) now && not (locked r.pk))

    abbrev pub next_request : List FsaRequest → Option FsaRequest
    next_request t =
        or_else (order.first by_approval (orm.filter queued t))
          (order.first by_modified (orm.filter stale t))

    abbrev claim : Option FsaRequest → Action Store (Option FsaRequest)
    claim none = pure none
    claim (some r) = do
      c ← save_request (record r { status = FsaStatus.approved_processing })
      pure (some c)

    unfoldable pub claim_next_request : Action Store (Option FsaRequest)
    claim_next_request = atomic do r ← gets (λ store. next_request store.requests); claim r
