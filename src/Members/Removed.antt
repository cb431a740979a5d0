-- ===== src/Members/Removed.antt =====
-- What `ProjectRemovalRequestProcessingRunner` of core/project/utils_/removal_utils.py leaves: a
-- removed user has no accounting objects, so that no job is charged to the project for it.
use coldfront.Base.{
  ℕ, String, ◌≡◌, ◌==◌, refl, ap, ◌∙◌, inl, inr, ◌⊎◌, Bool, true, false, not, ◌&&◌, ◌||◌, List, [],
  ◌∷◌, keep, Member, ok, err, Exception, does_not_exist, arith, Bool-cases, Result-cases,
  project_user, and_then, assertion_error, type_error, Result, ◌++◌, asks, pure, ◌>>=◌, Action,
  bind-ok, bind-run, atomic-run, atomic-fail, bind-fail, guard, atomic,
}
use coldfront.Orm.{Orm, single}
use coldfront.Orm.Keys.{Keyed, keep-none, kept-Member}
use coldfront.Orm.Change.{save-Changed}
use coldfront.AllowanceInterface.{Site}
use coldfront.Tables.{Db, Project, ProjectUser, Allocation, MemberStatus, Value, is_active_member}
use coldfront.Accounting.{get_project_objects, get_accounting_allocation_objects}
use coldfront.World.{RemovalRequest}
use coldfront.Storage.Members.{
  remove_user_from_directory, remove_project_user_from_faculty_storage_allocation,
}
use coldfront.Units.Rows.{save_user_with_usage}
use coldfront.Members.{
  RemovalWarning, send_emails_safe, is_member, is_complete, remove_user, process_removal,
  get_project_compute_allocation,
}

-- What a run returns that has removed the user.
abbrev pub Returned : Bool → Result (List RemovalWarning) → Type 0
Returned email_enabled result =
    ((email_enabled ≡ true) × (w : List RemovalWarning) × (result ≡ ok w))
    ⊎ ((email_enabled ≡ false) × (result ≡ err type_error))

returned :
    (email_enabled : Bool) (sent : Result ℕ) (ws : List RemovalWarning)
    → Returned email_enabled
        (and_then (send_emails_safe email_enabled sent) (λ failed. ok (ws ++ failed)))
returned false sent ws = inr (refl, refl)
returned true (ok n) ws = inl (refl, _, refl)
returned true (err e) ws = inl (refl, _, refl)

module _ (orm : Orm) (site : Site) (path : String → String) (basename : Value → String) where
  storage_apart :
      (p : Project) (m : ProjectUser) (db : Db)
      → (remove_project_user_from_faculty_storage_allocation orm path basename p m
          db).1.project_users
        ≡ db.project_users
  unfolding remove_project_user_from_faculty_storage_allocation remove_user_from_directory
  storage_apart p m db = ground arith

  storage_ok :
      (p : Project) (m : ProjectUser) (db : Db)
      → (remove_project_user_from_faculty_storage_allocation orm path basename p m db).0 ≡ ok tt
  unfolding remove_project_user_from_faculty_storage_allocation
  storage_ok p m db = refl

  removed_row :
      (a : Allocation) (m : ProjectUser) (db : Db)
      → (remove_user orm site a m db).1.project_users
        ≡ orm.save
            (λ (x : ProjectUser). x.pk)
            (record m { status = MemberStatus.removed })
            db.project_users
  unfolding save_user_with_usage
  removed_row a m db = ground arith

  -- Without an active membership there are no accounting objects.
  no_objects :
      (p : Project) (user : ℕ) (db : Db)
      → ((x : ProjectUser)
          → Member x db.project_users
          → is_member p.pk user x ≡ true
          → is_active_member x.status ≡ false)
      → (e : Exception) × (get_accounting_allocation_objects orm site p user true db ≡ err e)
  unfolding get_accounting_allocation_objects
  no_objects p user db inactive =
      let test : ProjectUser → Bool =
        λ m. m.user == user && (m.project == p.pk && (not true || is_active_member m.status)) in
      let none_left : keep test db.project_users ≡ [] =
        keep-none test db.project_users (λ x m. ground (arith, inactive x m)) in
      let missing : orm.get project_user test db.project_users ≡ err (does_not_exist project_user) =
        orm.get_lem project_user test db.project_users ∙ ap (single project_user) none_left in
      elim (Result-cases (get_project_objects orm site p true db)) [
        | inl (o, e) ↦ (does_not_exist project_user, rw (e, missing) refl)
        | inr (x, e) ↦ (x, rw e refl)
      ]

  -- The table of project users, once the user is removed.
  removed_lookup :
      (p : Project) (m : ProjectUser) (db after : Db)
      → Keyed (λ (x : ProjectUser). x.pk) db.project_users
      → keep (is_member p.pk m.user) db.project_users ≡ m ∷ []
      → after.project_users
        ≡ orm.save
            (λ (x : ProjectUser). x.pk)
            (record m { status = MemberStatus.removed })
            db.project_users
      → Member (record m { status = MemberStatus.removed }) after.project_users
        × (e : Exception) × (get_accounting_allocation_objects orm site p m.user true after ≡ err e)
  removed_lookup p m db after keyed k saved =
      let row : ProjectUser = record m { status = MemberStatus.removed } in
      let test = is_member p.pk m.user in
      let pass : test row ≡ true = (kept-Member test db.project_users m [] k).1 in
      let changed = save-Changed orm (λ x. x.pk) test row db.project_users keyed pass m k refl in
      let missing = no_objects p m.user after (λ x mx px. elim (changed.2 x (rw saved at mx)) [
        | inl e ↦ rw e refl
        | inr (before, fails) ↦ cc (px, fails)
      ]) in
      (rw saved changed.0, missing.0, missing.1)

  module _ (email_enabled : Bool) (sent : Result ℕ) (r : RemovalRequest) (p : Project)
      (m : ProjectUser) (db : Db) where
    abbrev pub run : Result (List RemovalWarning) × Db
    run = process_removal orm site path basename email_enabled sent r p m db

    -- The tables when the mails are sent.
    abbrev committed : Allocation → Db
    committed a =
        (remove_project_user_from_faculty_storage_allocation orm path basename p m
          (remove_user orm site a m db).1).1

    abbrev signal : Action Db (Unit {0})
    signal = remove_project_user_from_faculty_storage_allocation orm path basename p m

    abbrev mail : List RemovalWarning → Action Db (List RemovalWarning)
    mail ws = asks (λ _. send_emails_safe email_enabled sent) >>= λ failed. pure (ws ++ failed)

    abbrev afterwards : List RemovalWarning → Action Db (List RemovalWarning)
    afterwards ws = signal >>= λ t. mail ws

    abbrev removal : Allocation → Action Db (List RemovalWarning)
    removal a = atomic (remove_user orm site a m) >>= afterwards

    mailed :
        (a : Allocation) (ws : List RemovalWarning)
        → mail ws (committed a) ≡ (
          and_then (send_emails_safe email_enabled sent) (λ failed. ok (ws ++ failed)),
          committed a,
        )
    mailed a ws = elim (Result-cases (send_emails_safe email_enabled sent)) [
      | inl (f, e) ↦ rw (◌>>=◌, e) refl
      | inr (x, e) ↦ rw (◌>>=◌, e) refl
    ]

    -- A request that is complete, for a project with an allocation, gets to the removal.
    reached :
        (a : Allocation)
        → is_complete r.status ≡ true
        → get_project_compute_allocation orm site p db ≡ ok a
        → run ≡ removal a db
    unfolding process_removal
    reached a c e =
        let lookup = asks (get_project_compute_allocation orm site p) in
        let check = asks (λ _. guard (is_complete r.status) assertion_error) in
        bind-run check db db (λ t. lookup >>= removal) tt
          (ap (λ b. (guard b assertion_error, db)) c)
        ∙ bind-run lookup db db removal a (ap (λ q. (q, db)) e)

    removed :
        (a : Allocation) (ws : List RemovalWarning)
        → (remove_user orm site a m db).0 ≡ ok ws
        → removal a db ≡ (
          and_then (send_emails_safe email_enabled sent) (λ failed. ok (ws ++ failed)),
          committed a,
        )
    removed a ws k =
        let body = remove_user orm site a m in
        let mid = (body db).1 in
        bind-run (atomic body) db mid afterwards ws
          (atomic-run body db mid ws (ap (λ q. (q, mid)) k))
        ∙ bind-ok signal (λ t. mail ws) mid tt (storage_ok p m mid)
        ∙ mailed a ws

    not_removed :
        (a : Allocation) (x : Exception)
        → (remove_user orm site a m db).0 ≡ err x
        → removal a db ≡ (err x, db)
    not_removed a x k =
        let body = remove_user orm site a m in
        bind-fail (atomic body) db db afterwards x
          (atomic-fail body db (body db).1 x (ap (λ q. (q, (body db).1)) k))

    -- The run stops before anything is written, or its result is that of sending the mails.
    run_cases :
        ((x : Exception) × (run ≡ (err x, db)))
        ⊎ ((a : Allocation) × (ws : List RemovalWarning) × (run ≡ (
          and_then (send_emails_safe email_enabled sent) (λ failed. ok (ws ++ failed)),
          committed a,
        )))
    unfolding process_removal
    run_cases = elim (Bool-cases (is_complete r.status)) [
      | inr c ↦ inl (assertion_error, rw c refl)
      | inl c ↦ elim (Result-cases (get_project_compute_allocation orm site p db)) [
        | inr (x, e) ↦ inl (x, rw (c, ◌>>=◌, e) refl)
        | inl (a, e) ↦ elim (Result-cases (remove_user orm site a m db).0) [
          | inr (x, k) ↦ inl (x, reached a c e ∙ not_removed a x k)
          | inl (ws, k) ↦ inr (a, ws, reached a c e ∙ removed a ws k)
        ]
      ]
    ]

    committed_users :
        (a : Allocation)
        → (committed a).project_users
          ≡ orm.save
              (λ (x : ProjectUser). x.pk)
              (record m { status = MemberStatus.removed })
              db.project_users
    committed_users a = storage_apart p m (remove_user orm site a m db).1 ∙ removed_row a m db

    -- Where no two project users share a key and the user is in the project once, processing a
    -- removal either raises and changes nothing, or leaves the user's membership with the status
    -- removed, and the user's accounting objects, which charging a job to the project needs, are not
    -- found. In the second case it succeeds where emails are enabled, even if sending them fails, and
    -- raises a TypeError where they are not.
    pub process_removal-no_objects :
        Keyed (λ (x : ProjectUser). x.pk) db.project_users
        → keep (is_member p.pk m.user) db.project_users ≡ m ∷ []
        → ((x : Exception) × (run ≡ (err x, db)))
          ⊎ (Returned email_enabled run.0
              × Member (record m { status = MemberStatus.removed }) run.1.project_users
              × (e : Exception) × (get_accounting_allocation_objects orm site p m.user true run.1
                  ≡ err e))
    process_removal-no_objects keyed k = elim run_cases [
      | inl unchanged ↦ inl unchanged
      | inr (a, ws, e) ↦
          let (member, x, missing) =
            removed_lookup p m db (committed a) keyed k (committed_users a) in
          rw e (inr (returned email_enabled sent ws, member, x, missing))
    ]
