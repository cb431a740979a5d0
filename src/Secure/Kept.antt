-- ===== src/Secure/Kept.antt =====
-- Each operation on requests for secure directories keeps their statuses consistent with their
-- reviews.
use coldfront.Base.{
  ℕ, ◌≡◌, refl, ◌∙◌, inl, inr, String, Bool, true, false, Option, truthy, ok, guard, other_error,
  Action, asks, modify, ◌>>=◌, bind-holds, atomic-holds, is_nonempty, arith, Bool-cases,
}
use coldfront.Orm.{Orm}
use coldfront.Orm.Keys.{Member-save}
use coldfront.AllowanceInterface.{Site}
use coldfront.Tables.{Allocation, AllocationAttribute}
use coldfront.Requests.Steps.{Step}
use coldfront.Secure.{
  SecureWorld, SecureDirRequest, is_denied, has_denial, SecureDirStatus, SecureDirState,
  secure_dir_request_state_status,
}
use coldfront.Secure.Directories.{
  Paths, save_request, get_secure_dir_allocations, request_directory, new_request,
  is_project_eligible_for_secure_dirs,
}
use coldfront.Secure.Users.{add_request, request_user, has_cluster_access, get_path}
use coldfront.Secure.Reviews.{
  add_requester, create_directory, as_denied, denied_step, in_state, is_checklist_complete,
  is_closed, find_request, when_open, renamed, with_rdm, with_mou, with_setup, step_at, with_other,
  run_denial, deny_open, undeny_found, is_denied_status, undenied_state, approve_found,
  approve_steps, run_approval, as_complete, review_rdm, review_mou, review_setup, review_deny,
  undeny_request, post_approval,
}
use coldfront.Secure.Operations.{
  Operation, request, rdm, mou, setup, deny, undeny, approve, Consistent, AllConsistent, action,
}

module _ (orm : Orm) (site : Site) (paths : Paths) (iso : ℕ → String) where
  denied_state :
      (state : SecureDirState)
      → has_denial state ≡ true
      → SecureDirStatus.denied ≡ secure_dir_request_state_status state
  unfolding secure_dir_request_state_status
  denied_state state h = rw h refl

  save-AllConsistent :
      (r : SecureDirRequest) (world : SecureWorld)
      → Consistent r
      → AllConsistent world
      → AllConsistent (save_request orm r world)
  save-AllConsistent r world c all x m =
      elim (Member-save orm (λ (y : SecureDirRequest). y.pk) r world.requests x m) [
        | inl e ↦ rw e c
        | inr (before, other) ↦ all x before
      ]

  -- A row that is saved twice counts as it was saved last.
  save_twice-AllConsistent :
      (r s : SecureDirRequest) (world : SecureWorld)
      → r.pk ≡ s.pk
      → Consistent s
      → AllConsistent world
      → AllConsistent (save_request orm s (save_request orm r world))
  save_twice-AllConsistent r s world e c all x m =
      let key : SecureDirRequest → ℕ = λ y. y.pk in
      elim (Member-save orm key s (save_request orm r world).requests x m) [
        | inl same ↦ rw same c
        | inr (between, other) ↦ elim (Member-save orm key r world.requests x between) [
          | inl same ↦ absurd (other (rw same e))
          | inr (before, _) ↦ all x before
        ]
      ]

  stepped-AllConsistent :
      (s : Step) (state : SecureDirState) (r : SecureDirRequest) (world : SecureWorld)
      → (is_denied s ≡ true → has_denial state ≡ true)
      → AllConsistent world
      → AllConsistent
          (denied_step orm s (in_state state r) (save_request orm (in_state state r) world))
  unfolding run_denial
  stepped-AllConsistent s state r world h all = elim (Bool-cases (is_denied s)) [
    | inr e ↦ rw e (save-AllConsistent (in_state state r) world (inr refl) all)
    | inl e ↦ rw e (
        save_twice-AllConsistent (in_state state r) (as_denied (in_state state r)) world refl
          (inr (denied_state state (h e))) all)
  ]

  rdm-AllConsistent :
      (s : Step) (update : Option String) (r : SecureDirRequest) (world : SecureWorld)
      → AllConsistent world
      → AllConsistent (when_open orm (with_rdm orm s update) s r world)
  rdm-AllConsistent s update r world all = elim (Bool-cases (is_closed r.status)) [
    | inl e ↦ rw e all
    | inr e ↦ rw e (
        stepped-AllConsistent s (record r.state { rdm_consultation = s })
          (record r { rdm_consultation = update }) world (λ d. ground (arith, d)) all)
  ]

  mou-AllConsistent :
      (s : Step) (r : SecureDirRequest) (world : SecureWorld)
      → AllConsistent world
      → AllConsistent (when_open orm (with_mou orm s) s r world)
  mou-AllConsistent s r world all = elim (Bool-cases (is_closed r.status)) [
    | inl e ↦ rw e all
    | inr e ↦
        rw e (
          stepped-AllConsistent s (record r.state { mou = s }) r world (λ d. ground (arith, d)) all)
  ]

  setup-AllConsistent :
      (s : Step) (name : String) (r : SecureDirRequest) (world : SecureWorld)
      → AllConsistent world
      → AllConsistent (when_open orm (with_setup orm s name) s r world)
  setup-AllConsistent s name r world all = elim (Bool-cases (is_closed r.status)) [
    | inl e ↦ rw e all
    | inr e ↦ rw e (
        stepped-AllConsistent s (record r.state { setup = s })
          (record r { directory_name = renamed orm r.directory_name name }) world
          (λ d. ground (arith, d)) all)
  ]

  deny-AllConsistent :
      (now : ℕ) (text : String) (r : SecureDirRequest) (world : SecureWorld)
      → truthy (iso now) ≡ true
      → AllConsistent world
      → AllConsistent (deny_open orm iso now text r world)
  unfolding run_denial
  deny-AllConsistent now text r world written all = elim (Bool-cases (is_closed r.status)) [
    | inl e ↦ rw e all
    | inr e ↦ rw e (
        let noted = with_other orm iso now text r in
        save_twice-AllConsistent noted (as_denied noted) world refl
          (inr (denied_state noted.state (ground (arith, written)))) all)
  ]

  undeny-AllConsistent :
      (r : SecureDirRequest) (world : SecureWorld)
      → AllConsistent world
      → AllConsistent (undeny_found orm r world)
  undeny-AllConsistent r world all = elim (Bool-cases (is_denied_status r.status)) [
    | inr e ↦ rw e all
    | inl e ↦ rw e (save-AllConsistent (in_state (undenied_state r.state) r) world (inr refl) all)
  ]

  module _ (now today : ℕ) where
    abbrev pub Same : SecureWorld → SecureWorld → Type 0
    Same world after = after.requests ≡ world.requests

    added_request-requests :
        (add : Bool) (a : Allocation) (user : ℕ) (t : AllocationAttribute) (world : SecureWorld)
        → Same world (add_request orm add a user t world).1
    added_request-requests true a user t world = refl
    added_request-requests false a user t world = refl

    requested-requests :
        (add : Bool) (a : Allocation) (user : ℕ) (world : SecureWorld)
        → Same world (request_user orm add a user world).1
    unfolding request_user
    requested-requests add a user world =
        let path : Action SecureWorld AllocationAttribute = asks (λ w. get_path orm a w.db) in
        atomic-holds (Same world) (path >>= add_request orm add a user) world refl (
          bind-holds (Same world) path world (add_request orm add a user) refl
            (λ t. added_request-requests add a user t world))

    added-requests :
        (r : SecureDirRequest) (g s : Allocation) (has_access : Bool) (world : SecureWorld)
        → Same world (add_requester orm paths now today r g s has_access world).1
    added-requests r g s false world = refl
    added-requests r g s true world =
        let first = requested-requests true g r.requester world in
        bind-holds (Same world) (request_user orm true g r.requester) world
          (λ u. request_user orm true s r.requester) first
          (λ u. requested-requests true s r.requester _ ∙ first)

    pub steps-requests :
        (r : SecureDirRequest) (world : SecureWorld)
        → Same
            (save_request orm (as_complete orm paths now today r) world)
            (approve_steps orm paths now today r world).1
    steps-requests r world =
        let saved = save_request orm (as_complete orm paths now today r) world in
        let rest : Allocation → Allocation → Action SecureWorld (Unit {0}) = λ g a.
          asks (λ w. ok (has_cluster_access orm r.requester w.db)) >>= λ b.
          add_requester orm paths now today r g a b in
        let second : Action SecureWorld Allocation =
          create_directory orm paths now today r "scratch" in
        bind-holds (Same saved) (create_directory orm paths now today r "groups") saved
          (λ g. second >>= rest g) refl
          (λ g.
            bind-holds (Same saved) second (create_directory orm paths now today r "groups" saved).1
              (rest g) refl (λ a. added-requests r g a _ _))

    approve-AllConsistent :
        (r : SecureDirRequest) (world : SecureWorld)
        → AllConsistent world
        → AllConsistent (approve_found orm paths now today r world)
    unfolding run_approval
    approve-AllConsistent r world all = elim (Bool-cases (is_checklist_complete r.state)) [
      | inr e ↦ rw e all
      | inl e ↦
          elim (Bool-cases (is_nonempty (get_secure_dir_allocations orm r.project.pk world.db))) [
            | inl d ↦ rw (e, d) all
            | inr d ↦
                rw (e, d)
                  (atomic-holds AllConsistent (approve_steps orm paths now today r) world all (
                    rw (steps-requests r world) (
                      save-AllConsistent (as_complete orm paths now today r) world (inl (refl, e))
                        all)))
          ]
    ]

  -- Each operation keeps the requests of the table consistent.
  pub action-AllConsistent :
      ((now : ℕ) → truthy (iso now) ≡ true)
      → (o : Operation) (world : SecureWorld) → AllConsistent world
      → AllConsistent (action orm site paths iso o world).1
  unfolding review_rdm review_mou review_setup review_deny undeny_request post_approval
      request_directory run_denial secure_dir_request_state_status
  action-AllConsistent written (request p requester name department consultation) world all =
      bind-holds AllConsistent (asks (is_project_eligible_for_secure_dirs orm site p)) world
        (λ b. asks (λ w. guard b other_error) >>= λ t. modify (λ w.
          save_request orm (new_request orm site p requester name department consultation w) w))
        all
        (λ b.
          bind-holds AllConsistent (asks (λ w. guard b other_error)) world
            (λ t. modify (λ w.
              save_request orm (new_request orm site p requester name department consultation w) w))
            all
            (λ t.
              save-AllConsistent
                (new_request orm site p requester name department consultation world) world
                (inr refl) all))
  action-AllConsistent written (rdm now pk status text update) world all =
      bind-holds AllConsistent (asks (find_request orm pk)) world
        (λ r. modify (
          when_open orm (with_rdm orm (step_at orm iso now status text) update)
            (step_at orm iso now status text) r))
        all (λ r. rdm-AllConsistent _ update r world all)
  action-AllConsistent written (mou now pk status text) world all =
      bind-holds AllConsistent (asks (find_request orm pk)) world
        (λ r. modify (
          when_open orm (with_mou orm (step_at orm iso now status text))
            (step_at orm iso now status text) r))
        all (λ r. mou-AllConsistent _ r world all)
  action-AllConsistent written (setup now pk status text name) world all =
      bind-holds AllConsistent (asks (find_request orm pk)) world
        (λ r. modify (
          when_open orm (with_setup orm (step_at orm iso now status text) name)
            (step_at orm iso now status text) r))
        all (λ r. setup-AllConsistent _ name r world all)
  action-AllConsistent written (deny now pk text) world all =
      bind-holds AllConsistent (asks (find_request orm pk)) world
        (λ r. modify (deny_open orm iso now text r)) all
        (λ r. deny-AllConsistent now text r world (written now) all)
  action-AllConsistent written (undeny pk) world all =
      bind-holds AllConsistent (asks (find_request orm pk)) world (λ r. modify (undeny_found orm r))
        all (λ r. undeny-AllConsistent r world all)
  action-AllConsistent written (approve now today pk) world all =
      bind-holds AllConsistent (asks (find_request orm pk)) world
        (λ r. modify (approve_found orm paths now today r)) all
        (λ r. approve-AllConsistent now today r world all)
