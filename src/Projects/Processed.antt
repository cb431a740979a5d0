-- ===== src/Projects/Processed.antt =====
-- What the processing of a request for a new project leaves: ../Processing.
use coldfront.Base.{
  ℕ, ◌≡◌, ◌≢◌, refl, ap, ◌⊎◌, inl, inr, false, ◌&&◌, Member, some, Result, ok, err, Exception,
  Action, asks, atomic, modify, pure, ◌>>◌, bind-inv, bind-run, bind-fail, Result-cases,
}
use coldfront.Base.Int.{ℤ}
use coldfront.Orm.{Orm}
use coldfront.Orm.Keys.{saved-Member}
use coldfront.AllowanceInterface.{Site}
use coldfront.Requests.Steps.{approved_complete}
use coldfront.Tables.{Project, Allocation}
use coldfront.Members.{is_pi}
use coldfront.Newcomers.{Settings, is_vector_project}
use coldfront.Newcomers.Create.{create_project_users}
use coldfront.Newcomers.Enrolled.{IsActiveAs, is_lead, create_project_users-Led}
use coldfront.Projects.{
  SavioProject, VectorProject, ProjectWorld, NewProject, savio, vector, requester_of, pi_of,
  project_of, class_of, on_world, save_request,
}
use coldfront.Projects.Processing.{
  prepare, activated, completed, process_steps, run_processing, can_process,
}

-- A request is in its table with the status "Approved - Complete", a Savio request also with its time
-- of completion, and with its other fields as they were.
abbrev pub IsCompleted : ℕ → NewProject → ProjectWorld → Type 0
IsCompleted now (savio r) w =
    Member
      (record r {
        review = record r.review { status = approved_complete };
        completion_time = some now;
      })
      w.savio_requests
IsCompleted now (vector r) w = Member (record r { status = approved_complete }) w.vector_requests

module _ (orm : Orm) (now today : ℕ) where
  saved-IsCompleted :
      (site : Site) (r : NewProject) (w : ProjectWorld)
      → IsCompleted now r (save_request orm (completed orm now today site r) w)
  saved-IsCompleted site (savio r) w =
      let row : SavioProject = record r {
        review = record r.review { status = approved_complete };
        completion_time = some now;
      } in
      saved-Member orm (λ (x : SavioProject). x.pk) row w.savio_requests
  saved-IsCompleted site (vector r) w =
      let row : VectorProject = record r { status = approved_complete } in
      saved-Member orm (λ (x : VectorProject). x.pk) row w.vector_requests

  saved-world : (r : NewProject) (w : ProjectWorld) → (save_request orm r w).world ≡ w.world
  saved-world (savio r) w = refl
  saved-world (vector r) w = refl

  module _ (site : Site) (settings : Settings) (r : NewProject) (units : ℤ) where
    -- The users of the request lead its project, and the request is complete.
    abbrev pub Processed : ProjectWorld → Type 0
    Processed w =
        (requester_of r ≢ pi_of r → IsActiveAs (project_of r).pk (requester_of r) is_lead w.world)
        × IsActiveAs (project_of r).pk (pi_of r) is_pi w.world
        × IsCompleted now r w

    process_steps-Processed :
        (w : ProjectWorld) (x : Project × Allocation)
        → site.flags.brc_only && is_vector_project (project_of r) ≡ false
        → (process_steps orm now today site settings r units w).0 ≡ ok x
        → Processed (process_steps orm now today site settings r units w).1
    process_steps-Processed w x h e =
        let first = on_world (prepare orm now today site settings r units) in
        let p = activated orm now today site settings (project_of r) in
        let users =
          create_project_users orm site settings now 2 p (requester_of r) (pi_of r) (class_of r) in
        let done : NewProject = completed orm now today site r in
        let last : Allocation → Action ProjectWorld (Project × Allocation) =
          λ a. modify (save_request orm done) >> pure (p, a) in
        let (a, e1, run1) = bind-inv first (λ a. on_world users >> last a) w x e in
        let w1 = (first w).1 in
        let (t, e2, run2) = bind-inv (on_world users) (λ t. last a) w1 x (rw run1 at e) in
        let w2 = (on_world users w1).1 in
        let (lead, head) =
          create_project_users-Led orm site settings now p (requester_of r) (pi_of r) (class_of r) 2
            w1.world h e2 in
        rw (run1, run2, saved-world done w2) (lead, head, saved-IsCompleted site r w2)

    abbrev Outcome : ProjectWorld → Result (Project × Allocation) × ProjectWorld → Type 0
    Outcome w run =
        ((x : Project × Allocation) × (run.0 ≡ ok x) × Processed run.1)
        ⊎ ((e : Exception) × (run ≡ (err e, w)))

    process_steps-Outcome :
        (w : ProjectWorld)
        → site.flags.brc_only && is_vector_project (project_of r) ≡ false
        → Outcome w (atomic (process_steps orm now today site settings r units) w)
    process_steps-Outcome w h =
        elim (Result-cases (process_steps orm now today site settings r units w).0) [
          | inr (e, k) ↦ inr (e, rw (atomic, k) refl)
          | inl (x, k) ↦ rw (atomic, k) (inl (x, refl, process_steps-Processed w x h k))
        ]

    -- Outside the Vector projects of BRC, processing a request for a new project either fails and
    -- changes nothing, or succeeds: the PI is an active PI of the project, a requester who is somebody
    -- else an active manager or PI of it, and the request is in its table as approved and complete, a
    -- Savio request with this time as its time of completion, and otherwise as it was.
    pub run_processing-Outcome :
        (w : ProjectWorld)
        → site.flags.brc_only && is_vector_project (project_of r) ≡ false
        → Outcome w (run_processing orm now today site settings r units w)
    unfolding run_processing
    run_processing-Outcome w h =
        let check = can_process orm now today site r units in
        let run = atomic (process_steps orm now today site settings r units) in
        elim (Result-cases check) [
          | inr (e, k) ↦
              inr (e, bind-fail (asks (λ _. check)) w w (λ t. run) e (ap (λ q. (q, w)) k))
          | inl (t, k) ↦
              rw (bind-run (asks (λ _. check)) w w (λ t. run) t (ap (λ q. (q, w)) k))
                (process_steps-Outcome w h)
        ]
