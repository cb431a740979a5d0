-- ===== src/Newcomers/Fuel.antt =====
-- The fuel of the runner for new project users of ../Newcomers: a runner runs another one only for
-- the Savio project of Vector users.
use mathlib.Core.Path.{fun_ext}
use text.Mathlib.Text.{starts_with}
use coldfront.Base.{
  ℕ, suc, ◌≡◌, refl, ap, false, ok, project, Action, eq_iff, str_eq, Bool, asks, ◌>>=◌, bind-congr,
}
use coldfront.Orm.{Orm}
use coldfront.Orm.Lookup.{get-pass}
use coldfront.AllowanceInterface.{Site}
use coldfront.Tables.{Project, ProjectUser}
use coldfront.World.{World}
use coldfront.Newcomers.{
  Settings, Source, auto_added, run_new_user, is_vector_project, run_with, add_vector_user,
  activate_in, find_savio, construct,
}

module _ (orm : Orm) (site : Site) (settings : Settings) (now : ℕ) where
  -- The run of a runner for a user that was added automatically.
  abbrev as_added : ℕ → Project → ProjectUser → Action World (Unit {0})
  as_added fuel p m = run_new_user orm site settings now fuel p m auto_added

  -- The runner of a project that is not a Vector project runs no other.
  run_new_user-plain :
      (n k : ℕ) (p : Project) (m : ProjectUser) (source : Source)
      → is_vector_project p ≡ false
      → run_new_user orm site settings now (suc n) p m source
        ≡ run_new_user orm site settings now (suc k) p m source
  unfolding run_new_user
  run_new_user-plain n k p m source h = rw h refl

  savio_is_plain :
      (p : Project) (world : World)
      → starts_with settings.savio_project "vector_" ≡ false
      → find_savio orm site settings now world ≡ ok p
      → is_vector_project p ≡ false
  savio_is_plain p world h found =
      let test : Project → Bool = λ x. str_eq x.name settings.savio_project in
      let named =
        (eq_iff p.name settings.savio_project).0
          (get-pass orm project test world.db.projects p found) in
      rw named h

  add_vector_user-plain :
      (n k user : ℕ) (world : World)
      → starts_with settings.savio_project "vector_" ≡ false
      → add_vector_user orm site settings now (as_added (suc n)) user world
        ≡ add_vector_user orm site settings now (as_added (suc k)) user world
  add_vector_user-plain n k user world h =
      bind-congr (asks (find_savio orm site settings now))
        (λ p. activate_in orm site settings now (as_added (suc n) p) p user)
        (λ p. activate_in orm site settings now (as_added (suc k) p) p user) world
        (λ p found.
          ap (λ run. activate_in orm site settings now run p user)
            (fun_ext (λ m. run_new_user-plain n k p m auto_added (savio_is_plain p world h found))))

  -- The fuel 2 is enough for a run, whatever the project, where the Savio project of Vector users
  -- is not itself a Vector project: more of it changes nothing.
  pub run_new_user-enough_fuel :
      (n : ℕ) (p : Project) (m : ProjectUser) (source : Source)
      → starts_with settings.savio_project "vector_" ≡ false
      → run_new_user orm site settings now (suc (suc n)) p m source
        ≡ run_new_user orm site settings now 2 p m source
  unfolding run_new_user
  run_new_user-enough_fuel n p m source h =
      ap
        (λ add.
          asks (construct orm site settings now p m)
          >>= run_with orm site settings now add p m source)
        (fun_ext (λ user. fun_ext (λ world. add_vector_user-plain n 0 user world h)))
