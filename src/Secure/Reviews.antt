-- ===== src/Secure/Reviews.antt =====
-- Reviews of requests for secure directories: the runners that deny and approve a request, of
-- core/allocation/utils_/secure_dir_utils/new_directory.py, and the views of
-- core/allocation/views_/secure_dir_views/new_directory/approval_views.py, for a superuser, who alone
-- has access. A view that answers with a redirect changes nothing.
use coldfront.Base.{
  ℕ, String, Bool, true, false, ◌&&◌, Option, some, truthy, is_nonempty, Result, ok, is_ok, Model,
  Action, asks, pure, modify, atomic, ◌>>=◌, ◌>>◌, if◌then◌else◌, ◌==◌,
}
use coldfront.Orm.{Orm}
use coldfront.Tables.{Allocation}
use coldfront.Requests.Steps.{StepStatus, Step, Note}
use coldfront.Secure.{
  SecureWorld, SecureDirRequest, SecureDirStatus, SecureDirState, is_denied, is_pending,
  is_complete, secure_dir_request_state_status,
}
use coldfront.Secure.Users.{has_cluster_access, request_user}
use coldfront.Secure.Directories.{
  Paths, create_secure_directory, get_secure_dir_allocations, save_request,
}

abbrev pub is_closed : SecureDirStatus → Bool
is_closed SecureDirStatus.approved_complete = true
is_closed SecureDirStatus.denied = true
is_closed _ = false

abbrev pub is_denied_status : SecureDirStatus → Bool
is_denied_status SecureDirStatus.denied = true
is_denied_status _ = false

abbrev pub is_processing_status : SecureDirStatus → Bool
is_processing_status SecureDirStatus.approved_processing = true
is_processing_status _ = false

abbrev blank : Step
blank = record { status = StepStatus.pending; justification = ""; timestamp = "" }

-- A step that was denied is reset.
abbrev pub undenied : Step → Step
undenied s = if is_denied s then blank else s

abbrev pub reset_setup : Step → Step
reset_setup s = if is_pending s then s else blank

abbrev pub reset_other : Note → Note
reset_other n = if truthy n.timestamp then record { justification = ""; timestamp = "" } else n

abbrev pub undenied_state : SecureDirState → SecureDirState
undenied_state s = record {
  rdm_consultation = undenied s.rdm_consultation;
  mou = undenied s.mou;
  setup = reset_setup s.setup;
  other = reset_other s.other;
}

-- The request in a new state and the status that follows from it.
abbrev pub in_state : SecureDirState → SecureDirRequest → SecureDirRequest
in_state s r = record r { state = s; status = secure_dir_request_state_status s }

-- `SecureDirRequestDetailView.is_checklist_complete`
abbrev pub is_checklist_complete : SecureDirState → Bool
is_checklist_complete s =
    is_processing_status (secure_dir_request_state_status s) && is_complete s.setup

abbrev pub as_denied : SecureDirRequest → SecureDirRequest
as_denied r = record r { status = SecureDirStatus.denied }

module _ (orm : Orm) where
  abbrev pub find_request : ℕ → SecureWorld → Result SecureDirRequest
  find_request pk world =
      orm.get Model.secure_dir_request (λ (r : SecureDirRequest). r.pk == pk) world.requests

  -- `SecureDirRequestDenialRunner(r).run()`
  unfoldable pub run_denial : SecureDirRequest → SecureWorld → SecureWorld
  run_denial r world = save_request orm (as_denied r) world

  abbrev pub denied_step : Step → SecureDirRequest → SecureWorld → SecureWorld
  denied_step s r world = if is_denied s then run_denial r world else world

  abbrev pub with_rdm : Step → Option String → SecureDirRequest → SecureDirRequest
  with_rdm s update r =
      in_state (record r.state { rdm_consultation = s }) (record r { rdm_consultation = update })

  abbrev pub with_mou : Step → SecureDirRequest → SecureDirRequest
  with_mou s r = in_state (record r.state { mou = s }) r

  abbrev pub renamed : String → String → String
  renamed old new = if truthy new then new else old

  abbrev pub with_setup : Step → String → SecureDirRequest → SecureDirRequest
  with_setup s name r =
      in_state (record r.state { setup = s })
        (record r { directory_name = renamed r.directory_name name })

  -- What the views of the steps do to an open request: the step is set, the status follows, the
  -- request is saved, and the denial runner runs after a denial.
  abbrev pub when_open :
      (SecureDirRequest → SecureDirRequest) → Step → SecureDirRequest → SecureWorld → SecureWorld
  when_open change s r world =
      if is_closed r.status
      then world
      else denied_step s (change r) (save_request orm (change r) world)

  -- `iso` is the writing of a time in ISO 8601.
  module _ (iso : ℕ → String) where
    abbrev pub step_at : ℕ → StepStatus → String → Step
    step_at now status justification = record {
      status = status;
      justification = justification;
      timestamp = iso now;
    }

    -- `form_valid` of the views that review the RDM consultation, the memorandum and the setup.
    unfoldable pub review_rdm :
        ℕ → ℕ → StepStatus → String → Option String → Action SecureWorld (Unit {0})
    review_rdm now pk status justification update = do
      r ← asks (find_request pk)
      let s : Step = step_at now status justification
      modify (when_open (with_rdm s update) s r)

    unfoldable pub review_mou : ℕ → ℕ → StepStatus → String → Action SecureWorld (Unit {0})
    review_mou now pk status justification = do
      r ← asks (find_request pk)
      let s : Step = step_at now status justification
      modify (when_open (with_mou s) s r)

    unfoldable pub review_setup :
        ℕ → ℕ → StepStatus → String → String → Action SecureWorld (Unit {0})
    review_setup now pk status justification name = do
      r ← asks (find_request pk)
      let s : Step = step_at now status justification
      modify (when_open (with_setup s name) s r)

    abbrev pub with_other : ℕ → String → SecureDirRequest → SecureDirRequest
    with_other now justification r = record r {
      state = record r.state {
        other = record { justification = justification; timestamp = iso now };
      };
    }

    abbrev pub deny_open : ℕ → String → SecureDirRequest → SecureWorld → SecureWorld
    deny_open now justification r world =
        let noted = with_other now justification r in
        if is_closed r.status then world else run_denial noted (save_request orm noted world)

    -- `form_valid` of the view that denies a request for another reason.
    unfoldable pub review_deny : ℕ → ℕ → String → Action SecureWorld (Unit {0})
    unfolding run_denial
    review_deny now pk justification = do
      r ← asks (find_request pk)
      modify (deny_open now justification r)

  abbrev pub undeny_found : SecureDirRequest → SecureWorld → SecureWorld
  undeny_found r world =
      if is_denied_status r.status
      then save_request orm (in_state (undenied_state r.state) r) world
      else world

  -- `get` of the view that undenies a request.
  unfoldable pub undeny_request : ℕ → Action SecureWorld (Unit {0})
  undeny_request pk = do r ← asks (find_request pk); modify (undeny_found r)

  -- `now` is the current time and `today` its date.
  module _ (paths : Paths) (now today : ℕ) where
    abbrev pub as_complete : SecureDirRequest → SecureDirRequest
    as_complete r = record r {
      status = SecureDirStatus.approved_complete;
      completion_time = some now;
    }

    abbrev pub create_directory : SecureDirRequest → String → Action SecureWorld Allocation
    create_directory r which world =
        let (result, after) =
          create_secure_directory orm paths today r.project r.directory_name which world.db in
        (result, record world { db = after })

    abbrev pub add_requester :
        SecureDirRequest → Allocation → Allocation → Bool → Action SecureWorld (Unit {0})
    add_requester r groups scratch false = pure tt
    add_requester r groups scratch true = do
      request_user orm true groups r.requester
      request_user orm true scratch r.requester

    abbrev pub approve_steps : SecureDirRequest → Action SecureWorld (Unit {0})
    approve_steps r = do
      modify (save_request orm (as_complete r))
      groups ← create_directory r "groups"
      scratch ← create_directory r "scratch"
      has_access ← asks (λ w. ok (has_cluster_access orm r.requester w.db))
      add_requester r groups scratch has_access

    -- `SecureDirRequestApprovalRunner(r).run()`: whether it reports success.
    unfoldable pub run_approval : SecureDirRequest → SecureWorld → Bool × SecureWorld
    run_approval r world =
        let (result, after) = atomic (approve_steps r) world in (is_ok result, after)

    abbrev pub approve_found : SecureDirRequest → SecureWorld → SecureWorld
    approve_found r world =
        if is_checklist_complete r.state
        then (if is_nonempty (get_secure_dir_allocations orm r.project.pk world.db)
            then world
            else (run_approval r world).1)
        else world

    -- `post` of the detail view.
    unfoldable pub post_approval : ℕ → Action SecureWorld (Unit {0})
    unfolding run_approval
    post_approval pk = do r ← asks (find_request pk); modify (approve_found r)
