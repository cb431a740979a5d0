-- ===== src/Secure/Operations.antt =====
-- Sequences of operations on requests for secure directories: those of
-- core/allocation/utils_/secure_dir_utils/new_directory.py and of the views of
-- core/allocation/views_/secure_dir_views/new_directory/approval_views.py.
use coldfront.Base.{ℕ, ◌≡◌, ◌⊎◌, String, true, Option, List, [], ◌∷◌, Member, Action}
use coldfront.Orm.{Orm}
use coldfront.AllowanceInterface.{Site}
use coldfront.Tables.{Project}
use coldfront.Requests.Steps.{StepStatus}
use coldfront.Secure.{
  SecureWorld, SecureDirRequest, SecureDirStatus, secure_dir_request_state_status,
}
use coldfront.Secure.Directories.{Paths, request_directory}
use coldfront.Secure.Reviews.{
  is_checklist_complete, review_rdm, review_mou, review_setup, review_deny, undeny_request,
  post_approval,
}

-- What the site's users and admins do to the table of requests.
pub data Operation : Type 0 where
  request : Project → ℕ → String → String → Option String → Operation
  rdm : ℕ → ℕ → StepStatus → String → Option String → Operation
  mou : ℕ → ℕ → StepStatus → String → Operation
  setup : ℕ → ℕ → StepStatus → String → String → Operation
  deny : ℕ → ℕ → String → Operation
  undeny : ℕ → Operation
  approve : ℕ → ℕ → ℕ → Operation

-- A request is complete with all steps of its checklist done, or its status is that of its state.
abbrev pub Consistent : SecureDirRequest → Type 0
Consistent r =
    ((r.status ≡ SecureDirStatus.approved_complete) × (is_checklist_complete r.state ≡ true))
    ⊎ (r.status ≡ secure_dir_request_state_status r.state)

abbrev pub AllConsistent : SecureWorld → Type 0
AllConsistent world = (r : SecureDirRequest) → Member r world.requests → Consistent r

module _ (orm : Orm) (site : Site) (paths : Paths) (iso : ℕ → String) where
  abbrev pub action : Operation → Action SecureWorld (Unit {0})
  action (request p requester name department consultation) =
      request_directory orm site p requester name department consultation
  action (rdm now pk status text update) = review_rdm orm iso now pk status text update
  action (mou now pk status text) = review_mou orm iso now pk status text
  action (setup now pk status text name) = review_setup orm iso now pk status text name
  action (deny now pk text) = review_deny orm iso now pk text
  action (undeny pk) = undeny_request orm pk
  action (approve now today pk) = post_approval orm paths now today pk

  -- The tables after operations, some of which may have raised.
  unfoldable pub run_all : List Operation → SecureWorld → SecureWorld
  run_all [] world = world
  run_all (o ∷ os) world = run_all os (action o world).1
