-- ===== src/Newcomers/Apart.antt =====
-- The runner for a new user of a project, where it adds nobody to another one, leaves the table of
-- project users alone: ../Newcomers.
use coldfront.Base.{
  ℕ, ◌≡◌, refl, ◌∙◌, Bool, true, false, ◌&&◌, Action, when, atomic, ◌>>=◌, ◌>>◌, suppress,
  if◌then◌else◌, bind-holds, atomic-holds, arith,
}
use coldfront.Orm.{Orm}
use coldfront.AllowanceInterface.{Site, has_computing_allowance}
use coldfront.Tables.{Db, Project, ProjectUser, Allocation, AllocationUser}
use coldfront.World.{World, on_db}
use coldfront.Units.Rows.{save_user_with_usage}
use coldfront.Units.Service.{set_allocation_user_attribute_value}
use coldfront.Access.{request_access}
use coldfront.Storage.Directory.{get_or_create_active_allocation_user}
use coldfront.Storage.Members.{
  add_user_to_directory, add_project_user_to_faculty_storage_allocation,
}
use coldfront.Newcomers.{
  Settings, Source, is_vector_project, run_with, extra_steps, lrc_steps, set_host_user,
  set_billing_activities, request_cluster_access, steps, should_request_cluster_access,
}

abbrev pub Apart : World → World → Type 0
Apart world after = after.db.project_users ≡ world.db.project_users

abbrev pub Leaves : {A : Type 0} → Action World A → Type 0
Leaves m = (world : World) → Apart world (m world).1

pub block-Leaves :
    {A B : Type 0} (m : Action World A) (f : A → Action World B)
    → Leaves m
    → ((a : A) → Leaves (f a))
    → Leaves (m >>= f)
block-Leaves m f h k world = bind-holds (Apart world) m world f (h world) (λ a. k a _ ∙ h world)

when-Leaves : (b : Bool) (m : Action World (Unit {0})) → Leaves m → Leaves (when b m)
when-Leaves true m h = h
when-Leaves false m h = λ world. refl

-- A branch that is taken only where the project is not a Vector one.
branch-Leaves :
    (b vector : Bool) (m k : Action World (Unit {0}))
    → b && vector ≡ false
    → Leaves k
    → Leaves (if b then when vector m else k)
branch-Leaves true false m k h a = λ world. refl
branch-Leaves true true m k h a = cc
branch-Leaves false vector m k h a = a

module _ (orm : Orm) (site : Site) (settings : Settings) (now : ℕ) where
  user_kept :
      (a : Allocation) (user : ℕ) (db : Db)
      → (get_or_create_active_allocation_user orm a user db).1.project_users ≡ db.project_users
  unfolding get_or_create_active_allocation_user
  user_kept a user db = ground arith

  storage_kept :
      (p : Project) (m : ProjectUser) (db : Db)
      → (add_project_user_to_faculty_storage_allocation orm settings.path settings.basename p m
          db).1.project_users
        ≡ db.project_users
  unfolding add_project_user_to_faculty_storage_allocation add_user_to_directory
      get_or_create_active_allocation_user
  storage_kept p m db = ground arith

  access-Apart :
      (u : AllocationUser) (world : World) → Apart world (request_access orm now u world).1
  unfolding request_access set_allocation_user_attribute_value save_user_with_usage
  access-Apart u world = ground arith

  host-Apart :
      (m : ProjectUser) (source : Source) (world : World)
      → Apart world (set_host_user orm site settings now m source world).1
  unfolding set_host_user
  host-Apart m source world = ground arith

  billing-Apart :
      (a : Allocation) (u : AllocationUser) (world : World)
      → Apart world (set_billing_activities orm site settings now a u world).1
  unfolding set_billing_activities save_user_with_usage
  billing-Apart a u world = ground arith

  granted-Leaves :
      (u : AllocationUser) (source : Source)
      → Leaves (request_cluster_access orm site settings now u source)
  unfolding request_cluster_access
  granted-Leaves u source world = access-Apart u world

  lrc-Leaves :
      (p : Project) (m : ProjectUser) (source : Source) (a : Allocation) (u : AllocationUser)
      → Leaves (lrc_steps orm site settings now p m source a u)
  unfolding lrc_steps
  lrc-Leaves p m source a u =
      block-Leaves (set_host_user orm site settings now m source)
        (λ t.
          when (has_computing_allowance site p.name)
            (set_billing_activities orm site settings now a u))
        (host-Apart m source)
        (λ t.
          when-Leaves (has_computing_allowance site p.name)
            (set_billing_activities orm site settings now a u) (billing-Apart a u))

  module _ (add : ℕ → Action World (Unit {0})) (p : Project) (m : ProjectUser)
      (source : Source) where
    extra-Leaves :
        (a : Allocation) (u : AllocationUser)
        → site.flags.brc_only && is_vector_project p ≡ false
        → Leaves (extra_steps orm site settings now add p m source a u)
    extra-Leaves a u h =
        branch-Leaves site.flags.brc_only (is_vector_project p) (suppress (add m.user))
          (lrc_steps orm site settings now p m source a u) h (lrc-Leaves p m source a u)

    steps-Leaves :
        (a : Allocation)
        → site.flags.brc_only && is_vector_project p ≡ false
        → Leaves (steps orm site settings now add p m source a)
    steps-Leaves a h =
        let request : AllocationUser → Action World (Unit {0}) =
          λ u. request_cluster_access orm site settings now u source in
        block-Leaves (on_db (get_or_create_active_allocation_user orm a m.user))
          (λ u.
            when (should_request_cluster_access source) (request u)
            >> extra_steps orm site settings now add p m source a u)
          (λ w. user_kept a m.user w.db)
          (λ u.
            block-Leaves (when (should_request_cluster_access source) (request u))
              (λ t. extra_steps orm site settings now add p m source a u)
              (when-Leaves (should_request_cluster_access source) (request u)
                (granted-Leaves u source))
              (λ t. extra-Leaves a u h))

    pub run_with-Leaves :
        (a : Allocation)
        → site.flags.brc_only && is_vector_project p ≡ false
        → Leaves (run_with orm site settings now add p m source a)
    run_with-Leaves a h =
        block-Leaves (atomic (steps orm site settings now add p m source a))
          (λ t. on_db (
            add_project_user_to_faculty_storage_allocation orm settings.path settings.basename p m))
          (λ w.
            atomic-holds (Apart w) (steps orm site settings now add p m source a) w refl
              (steps-Leaves a h w))
          (λ t w. storage_kept p m w.db)
