-- ===== src/Renewals/Run.antt =====
-- The whole run of `AllocationRenewalProcessingRunner` of core/project/utils_/renewal_utils.py, from the
-- steps of ./Processing and the users of the project of ../Newcomers/Create, and what it leaves.
use coldfront.Base.{
  ℕ, ◌==◌, ◌≡◌, ◌≢◌, refl, ◌⊎◌, inl, inr, List, [], ◌∷◌, some, true, false, ◌&&◌, Member, Result,
  ok, err, Exception, Action, asks, atomic, pure, ◌>>=◌, ◌>>◌, bind-inv, bind-run, bind-fail,
  Result-cases, arith,
}
use coldfront.Base.Int.{ℤ}
use coldfront.Orm.{Orm}
use coldfront.Orm.Keys.{saved-Member}
use coldfront.AllowanceInterface.{Site}
use coldfront.Tables.{Project, ProjectStatus, Allocation}
use coldfront.World.{World, RenewalRequest, RenewalStatus, on_db}
use coldfront.Members.{is_pi}
use coldfront.Newcomers.{Settings, is_vector_project}
use coldfront.Newcomers.Apart.{Leaves, block-Leaves}
use coldfront.Newcomers.Create.{create_project_users, allocation_renewal_request}
use coldfront.Newcomers.Enrolled.{IsActiveAs, is_lead, create_project_users-Led}
use coldfront.Renewals.{get_pooling_preference_case, complete_request, save_renewal}
use coldfront.Renewals.Processing.{
  can_process, activate_project, upgrade_pi_user, update_allocation,
  update_existing_user_allocations, update_pre_projects_of_future_period_requests,
  process_by_preference, redirect, is_later_request,
}

module _ (orm : Orm) (now today : ℕ) (site : Site) (settings : Settings) where
  -- The request whose project was made active.
  abbrev pub activated : RenewalRequest → RenewalRequest
  activated r = record r { post_project = record r.post_project { status = ProjectStatus.active } }

  abbrev handle_by_preference : RenewalRequest → Action World (Unit {0})
  handle_by_preference r = do
    preference ← asks (λ w. get_pooling_preference_case orm r w.db)
    on_db (process_by_preference orm now today r preference)

  -- What comes before the users of the project.
  abbrev prepare : RenewalRequest → ℤ → Action World Allocation
  prepare r units = do
    upgrade_pi_user orm now today r
    on_db (activate_project orm now today r.post_project)
    (a, new_value) ←
        on_db (update_allocation orm now today site (activated r) units r.post_project.status)
    on_db (update_existing_user_allocations orm now today site (activated r) new_value)
    pure a

  abbrev create_users : RenewalRequest → Action World (Unit {0})
  create_users r =
      create_project_users orm site settings now 2 r.post_project r.requester r.pi
        allocation_renewal_request

  abbrev finish : RenewalRequest → ℤ → Action World RenewalRequest
  finish r units = do
    update_pre_projects_of_future_period_requests orm now today r
    handle_by_preference r
    complete_request orm now today r units

  -- The steps after the checks, which return the request as it is saved and the allocation.
  abbrev steps : RenewalRequest → ℤ → Action World (RenewalRequest × Allocation)
  steps r units = do
    a ← prepare r units
    create_users (activated r)
    c ← finish (activated r) units
    pure (c, a)

  -- The constructor and `run`; the runners of project users have the fuel that is enough.
  unfoldable pub run_renewal : RenewalRequest → ℤ → Action World (RenewalRequest × Allocation)
  run_renewal r units = do can_process orm now today r units; atomic (steps r units)

  preference_kept :
      (r : RenewalRequest)
      → r.pre_project.pk == r.post_project.pk ≡ true
      → Leaves (handle_by_preference r)
  unfolding get_pooling_preference_case process_by_preference
  preference_kept r h w = ground (arith, h)

  redirect_kept :
      (p : Project) (ss : List RenewalRequest) (w : World)
      → (redirect orm now today p ss w).db.project_users ≡ w.db.project_users
  redirect_kept p [] w = refl
  redirect_kept p (s ∷ ss) w =
      redirect_kept p ss (save_renewal orm (record s { pre_project = p }) w)

  later_kept :
      (r : RenewalRequest) → Leaves (update_pre_projects_of_future_period_requests orm now today r)
  unfolding update_pre_projects_of_future_period_requests
  later_kept r w =
      redirect_kept r.post_project
        (orm.filter (is_later_request orm now today r) w.renewal_requests) w

  module _ (r : RenewalRequest) (units : ℤ) where
    finish_kept : r.pre_project.pk == r.post_project.pk ≡ true → Leaves (finish r units)
    unfolding complete_request
    finish_kept h =
        block-Leaves (update_pre_projects_of_future_period_requests orm now today r)
          (λ t. handle_by_preference r >> complete_request orm now today r units) (later_kept r)
          (λ t.
            block-Leaves (handle_by_preference r) (λ t. complete_request orm now today r units)
              (preference_kept r h) (λ t w. refl))

    -- The request as it is completed.
    abbrev pub completed : RenewalRequest
    completed = record r {
      status = RenewalStatus.complete;
      num_service_units = units;
      completion_time = some now;
    }

    finished :
        (w : World) (c : RenewalRequest)
        → (finish r units w).0 ≡ ok c
        → Member completed (finish r units w).1.renewal_requests
    unfolding complete_request
    finished w c e =
        let first = update_pre_projects_of_future_period_requests orm now today r in
        let last = complete_request orm now today r units in
        let (t, e1, run1) = bind-inv first (λ t. handle_by_preference r >> last) w c e in
        let w1 = (first w).1 in
        let (t2, e2, run2) = bind-inv (handle_by_preference r) (λ t. last) w1 c (rw run1 at e) in
        let key : RenewalRequest → ℕ = λ x. x.pk in
        rw (run1, run2)
          (saved-Member orm key completed (handle_by_preference r w1).1.renewal_requests)

  module _ (r : RenewalRequest) (units : ℤ) where
    abbrev Led : World → Type 0
    Led w =
        (r.requester ≢ r.pi → IsActiveAs r.post_project.pk r.requester is_lead w)
        × IsActiveAs r.post_project.pk r.pi is_pi w

    -- The request is complete, and where it stays in its project its users lead that.
    abbrev pub Renewed : World → Type 0
    Renewed w =
        Member (completed (activated r) units) w.renewal_requests
        × (r.pre_project.pk == r.post_project.pk ≡ true → Led w)

    steps-Renewed :
        (w : World) (x : RenewalRequest × Allocation)
        → site.flags.brc_only && is_vector_project r.post_project ≡ false
        → (steps r units w).0 ≡ ok x
        → Renewed (steps r units w).1
    steps-Renewed w x h e =
        let q = activated r in
        let last : Allocation → Action World (RenewalRequest × Allocation) =
          λ a. finish q units >>= λ c. pure (c, a) in
        let (a, e1, run1) = bind-inv (prepare r units) (λ a. create_users q >> last a) w x e in
        let w1 = (prepare r units w).1 in
        let (t, e2, run2) = bind-inv (create_users q) (λ t. last a) w1 x (rw run1 at e) in
        let w2 = (create_users q w1).1 in
        let e3 : (last a w2).0 ≡ ok x = rw (run1, run2) at e in
        let (c, e4, run3) = bind-inv (finish q units) (λ c. pure (c, a)) w2 x e3 in
        let led : Led w2 =
          create_project_users-Led orm site settings now q.post_project r.requester r.pi
            allocation_renewal_request 2 w1 h e2 in
        rw (run1, run2, run3)
          (finished q units w2 c e4, λ same. rw (finish_kept q units same w2) led)

    abbrev Outcome : World → Result (RenewalRequest × Allocation) × World → Type 0
    Outcome w run =
        ((x : RenewalRequest × Allocation) × (run.0 ≡ ok x) × Renewed run.1)
        ⊎ ((e : Exception) × (run ≡ (err e, w)))

    steps-Outcome :
        (w : World)
        → site.flags.brc_only && is_vector_project r.post_project ≡ false
        → Outcome w (atomic (steps r units) w)
    steps-Outcome w h = elim (Result-cases (steps r units w).0) [
      | inr (e, k) ↦ inr (e, rw (atomic, k) refl)
      | inl (x, k) ↦ rw (atomic, k) (inl (x, refl, steps-Renewed w x h k))
    ]

    checks_kept :
        (w : World) (res : Result (Unit {0}))
        → (can_process orm now today r units w).0 ≡ res
        → can_process orm now today r units w ≡ (res, w)
    unfolding can_process
    checks_kept w res h = ground (arith, h)

    -- Outside the Vector projects of BRC, processing a renewal either fails and changes nothing, or
    -- succeeds: the request is saved as complete, with its amount, and where it stays in its project the
    -- PI is an active PI of that, and a requester who is somebody else an active manager or PI.
    pub run_renewal-Outcome :
        (w : World)
        → site.flags.brc_only && is_vector_project r.post_project ≡ false
        → Outcome w (run_renewal r units w)
    unfolding run_renewal
    run_renewal-Outcome w h =
        let check = can_process orm now today r units in
        let run : Unit {0} → Action World (RenewalRequest × Allocation) =
          λ t. atomic (steps r units) in
        elim (Result-cases (check w).0) [
          | inr (e, k) ↦ inr (e, bind-fail check w w run e (checks_kept w (err e) k))
          | inl (t, k) ↦ rw (bind-run check w w run t (checks_kept w (ok t) k)) (steps-Outcome w h)
        ]
