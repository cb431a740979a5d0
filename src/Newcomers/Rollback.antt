-- ===== src/Newcomers/Rollback.antt =====
-- A run of the runner for a new user of a project that raises: ../Newcomers.
use coldfront.Base.{
  ℕ, zero, suc, ◌≡◌, refl, sym, ◌∙◌, ap, inl, inr, Result, Result-cases, ok, err, Exception, Action,
  asks, atomic, atomic-err, bind-ok, bind-fail, bind-run,
}
use coldfront.Orm.{Orm}
use coldfront.AllowanceInterface.{Site}
use coldfront.Tables.{Project, ProjectUser, Allocation}
use coldfront.World.{World, on_db}
use coldfront.Storage.Members.{add_project_user_to_faculty_storage_allocation}
use coldfront.Newcomers.{
  Settings, Source, auto_added, run_new_user, run_with, steps, add_vector_user, construct,
}

raised :
    {A : Type 0} (r : Result A × World) (w : World) (x e : Exception)
    → r ≡ (err x, w)
    → r.0 ≡ err e
    → r ≡ (err e, w)
raised r w x e k h = k ∙ ap (λ q. (q, w)) (sym (ap (λ p. p.0) k) ∙ h)

module _ (orm : Orm) (site : Site) (settings : Settings) (now : ℕ) where
  signalled :
      (p : Project) (m : ProjectUser) (w : World)
      → (on_db
          (add_project_user_to_faculty_storage_allocation orm settings.path settings.basename p m)
          w).0
        ≡ ok tt
  unfolding add_project_user_to_faculty_storage_allocation
  signalled p m w = refl

  run_with-rollback :
      (add : ℕ → Action World (Unit {0})) (p : Project) (m : ProjectUser) (source : Source)
      (a : Allocation) (w : World) (e : Exception)
      → (run_with orm site settings now add p m source a w).0 ≡ err e
      → run_with orm site settings now add p m source a w ≡ (err e, w)
  run_with-rollback add p m source a w e h =
      let body = steps orm site settings now add p m source a in
      let signal : Unit {0} → Action World (Unit {0}) = λ t.
        on_db (
          add_project_user_to_faculty_storage_allocation orm settings.path settings.basename p m) in
      elim (Result-cases (atomic body w).0) [
        | inr (x, k) ↦
            raised _ w x e (bind-fail (atomic body) w w signal x (atomic-err body w x k)) h
        | inl (t, k) ↦
            let ran = ap (λ r. r.0) (bind-ok (atomic body) signal w t k) in
            absurd (cc (sym h ∙ ran ∙ signalled p m (atomic body w).1))
      ]

  -- A run that raises has changed no table.
  pub run_new_user-rollback :
      (fuel : ℕ) (p : Project) (m : ProjectUser) (source : Source) (w : World) (e : Exception)
      → (run_new_user orm site settings now fuel p m source w).0 ≡ err e
      → run_new_user orm site settings now fuel p m source w ≡ (err e, w)
  unfolding run_new_user
  run_new_user-rollback zero p m source w e h = ap (λ r. (r, w)) h
  run_new_user-rollback (suc fuel) p m source w e h =
      let add =
        add_vector_user orm site settings now
          (λ q n. run_new_user orm site settings now fuel q n auto_added) in
      let made = construct orm site settings now p m in
      let run = run_with orm site settings now add p m source in
      elim (Result-cases (construct orm site settings now p m w)) [
        | inr (x, k) ↦ raised _ w x e (bind-fail (asks made) w w run x (ap (λ r. (r, w)) k)) h
        | inl (a, k) ↦
            let ran = bind-run (asks made) w w run a (ap (λ r. (r, w)) k) in
            ran ∙ run_with-rollback add p m source a w e (sym (ap (λ r. r.0) ran) ∙ h)
      ]
