-- ===== src/Projects/Processing.antt =====
-- The processing of requests for new projects, `SavioProjectProcessingRunner` and
-- `VectorProjectProcessingRunner` of core/project/utils_/new_project_utils.py.
use coldfront.Base.{
  ℕ, ◌==◌, Bool, true, not, ◌&&◌, Option, none, some, Result, ok, err, and_then, does_not_exist,
  Model, allocation_attribute, user_profile, Action, asks, pure, raise, modify, atomic, when, ◌>>=◌,
  ◌>>◌, if◌then◌else◌,
}
use coldfront.Base.Int.{ℤ, pos, ◌+ℤ◌}
use coldfront.Allowance.{has_infinite_service_units}
use coldfront.Orm.{Orm}
use coldfront.AllowanceInterface.{Site}
use coldfront.Tables.{
  Db, Project, ProjectStatus, Allocation, AllocationStatus, AllocationAttribute, AttributeType,
  Value, decimal, number, has_type, to_decimal,
}
use coldfront.Jobs.Store.{allocation_max}
use coldfront.Requests.Steps.{approved_complete}
use coldfront.World.{World, Period, Profile, on_db}
use coldfront.Units.Rows.{save_allocation, save_with_usage, add_transaction}
use coldfront.Members.{get_project_compute_allocation}
use coldfront.Renewals.{assert_started, assert_not_ended, validate_num_service_units}
use coldfront.Renewals.Processing.{activate_project, units_attribute, update_users}
use coldfront.Newcomers.{Settings}
use coldfront.Newcomers.Create.{create_project_users}
use coldfront.Projects.{
  SavioProject, VectorProject, ProjectWorld, NewProject, savio, vector, requester_of, pi_of,
  project_of, class_of, is_pool, with_status, on_world, with_period, save_request,
}

module _ (orm : Orm) (now today : ℕ) where
  module _ (site : Site) where
    abbrev end_of : Option Period → Option ℕ
    end_of none = none
    end_of (some p) = some p.end_date

    abbrev start_of : Bool → Option ℕ → Option ℕ
    start_of pool before = if pool then before else some today

    abbrev opened : SavioProject → Allocation → Allocation
    opened r a = record a {
      status = AllocationStatus.active;
      start_date = start_of r.review.pool a.start_date;
      end_date = end_of r.allocation_period;
    }

    abbrev pooled_value : ℤ → ℤ → Result ℤ
    pooled_value units existing =
        and_then (validate_num_service_units (existing +ℤ units)) (λ _. ok (existing +ℤ units))

    abbrev pub new_value_of : SavioProject → ℤ → Value → Result ℤ
    new_value_of r units v =
        if has_infinite_service_units site.flags r.review.computing_allowance
        then ok allocation_max
        else if r.review.pool
        then and_then (to_decimal v) (pooled_value units)
        else ok units

    -- `SavioProjectProcessingRunner.update_allocation`
    unfoldable pub update_savio_allocation : SavioProject → ℤ → Action Db (Allocation × ℤ)
    update_savio_allocation r units = do
      a ← asks (get_project_compute_allocation orm site r.project)
      modify (save_allocation orm (opened r a))
      t ← units_attribute orm now today site (opened r a)
      new_value ← asks (λ _. new_value_of r units t.value)
      modify (save_with_usage orm (record t { value = decimal new_value }))
      modify (add_transaction r.project.pk now new_value)
      pure (opened r a, new_value)

    -- `VectorProjectProcessingRunner.update_allocation`
    unfoldable pub update_vector_allocation : VectorProject → Action Db (Allocation × ℤ)
    update_vector_allocation r = do
      a ← asks (get_project_compute_allocation orm site r.project)
      let active : Allocation = record a {
        status = AllocationStatus.active;
        start_date = some today;
      }
      modify (save_allocation orm active)
      pure (active, pos 0)

    abbrev update_allocation : NewProject → ℤ → Action Db (Allocation × ℤ)
    update_allocation (savio r) units = update_savio_allocation r units
    update_allocation (vector r) units = update_vector_allocation r

    abbrev update_existing : Project → ℤ → Action Db (Unit {0})
    update_existing p value db =
        update_users orm now today site p value
          (orm.filter (λ m. m.project == p.pk) db.project_users) db

    abbrev is_billing_of : ℕ → AllocationAttribute → Bool
    is_billing_of a t =
        has_type t.attribute_type AttributeType.billing_activity && t.allocation == a

    abbrev new_billing : ℕ → Value → Db → AllocationAttribute
    new_billing a v db = record {
      pk = orm.next_key (λ (x : AllocationAttribute). x.pk) db.attributes;
      attribute_type = AttributeType.billing_activity;
      allocation = a;
      value = v;
    }

    -- `update_or_create`
    abbrev put_billing : ℕ → Value → Result AllocationAttribute → Action Db (Unit {0})
    put_billing a v (ok t) = modify (save_with_usage orm (record t { value = v }))
    put_billing a v (err (does_not_exist Model.allocation_attribute)) =
        modify (λ db. save_with_usage orm (new_billing a v db) db)
    put_billing a v (err e) = raise e

    abbrev set_billing : Allocation → Option ℕ → Action Db (Unit {0})
    set_billing a none db = (ok tt, db)
    set_billing a (some b) db =
        put_billing a.pk (number b)
          (orm.get allocation_attribute (is_billing_of a.pk) db.attributes) db

    -- The billing activity that is set, where `_should_set_billing_activity`.
    abbrev billing_of : NewProject → Option ℕ
    billing_of (savio r) =
        if site.flags.lrc_only && not r.review.pool then r.billing_activity else none
    billing_of (vector r) = none

    abbrev upgrade_pi_user : ℕ → Action World (Unit {0})
    upgrade_pi_user pi = do
      x ← asks (λ w. orm.get user_profile (λ (x : Profile). x.user == pi) w.profiles)
      modify (λ w. record w {
        profiles = orm.save (λ (y : Profile). y.user) (record x { is_pi = true }) w.profiles;
      })

    abbrev pub completed : NewProject → NewProject
    completed (savio r) = savio (record r {
      review = record r.review { status = approved_complete };
      completion_time = some now;
    })
    completed (vector r) = with_status approved_complete (vector r)

    abbrev pub can_process : NewProject → ℤ → Result (Unit {0})
    can_process (vector r) units = ok tt
    can_process (savio r) units = and_then (validate_num_service_units units) λ _.
        and_then (with_period r.allocation_period (assert_started today))
          λ _. with_period r.allocation_period (assert_not_ended today)

    module _ (settings : Settings) where
      -- What comes before the users of the project.
      abbrev pub prepare : NewProject → ℤ → Action World Allocation
      prepare r units = do
        upgrade_pi_user (pi_of r)
        p ← on_db (activate_project orm now today (project_of r))
        (a, new_value) ← on_db (update_allocation r units)
        when (is_pool r) (on_db (update_existing p new_value))
        on_db (set_billing a (billing_of r))
        pure a

      -- The project as `activate_project` returns it.
      abbrev pub activated : Project → Project
      activated p = record p { status = ProjectStatus.active }

      abbrev pub process_steps : NewProject → ℤ → Action ProjectWorld (Project × Allocation)
      process_steps r units = do
        a ← on_world (prepare r units)
        on_world (
            create_project_users orm site settings now 2 (activated (project_of r)) (requester_of r)
              (pi_of r) (class_of r))
        modify (save_request orm (completed r))
        pure (activated (project_of r), a)

      -- The constructor and `run` of the runner for the kind of request; the runners of project
      -- users have the fuel that is enough.
      unfoldable pub run_processing : NewProject → ℤ → Action ProjectWorld (Project × Allocation)
      run_processing r units = do asks (λ _. can_process r units); atomic (process_steps r units)
