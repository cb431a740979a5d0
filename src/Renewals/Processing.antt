-- ===== src/Renewals/Processing.antt =====
-- The steps of `AllocationRenewalProcessingRunner` of core/project/utils_/renewal_utils.py: its checks
-- and what it does to the projects, the allocation and the requests of later periods. A user is in a
-- project once, so that a project has as many PIs as rows of them.
use coldfront.Base.{
  ℕ, ◌==◌, ltb, str_eq, Bool, true, not, ◌&&◌, ◌||◌, Option, some, List, [], ◌∷◌, truthy, guard,
  Result, ok, err, assertion_error, does_not_exist, Model, allocation_attribute, project_user,
  user_profile, Action, asks, pure, modify, when, ◌>>=◌, ◌>>◌, if◌then◌else◌,
}
use coldfront.Base.Int.{ℤ, pos, ◌+ℤ◌}
use coldfront.Orm.{Orm}
use coldfront.AllowanceInterface.{Site}
use coldfront.Tables.{
  Db, Project, ProjectStatus, ProjectUser, Role, Allocation, AllocationStatus, AllocationAttribute,
  AttributeType, Value, text, decimal, to_decimal,
}
use coldfront.Accounting.{is_units}
use coldfront.World.{World, Period, Profile, RenewalRequest, RenewalStatus}
use coldfront.Units.Rows.{save_allocation, save_with_usage, add_transaction, add_user_transaction}
use coldfront.Units.Setters.{set_project_user_allocation_value}
use coldfront.Members.{is_member, get_project_compute_allocation}
use coldfront.Renewals.{
  PoolingCase, unpooled_to_unpooled, unpooled_to_pooled, pooled_to_pooled_same, has_status,
  is_active_project, assert_started, assert_not_ended, validate_num_service_units, is_pooled,
  save_renewal, save_project,
}

-- A date is set where the project was not active, or where there is none.
abbrev pub date_of : Bool → Option ℕ → ℕ → Option ℕ
date_of true (some d) day = some d
date_of _ _ day = some day

-- The value of an attribute that may be empty.
abbrev pub existing_value : Value → Result ℤ
existing_value (text s) = if truthy s then to_decimal (text s) else ok (pos 0)
existing_value v = to_decimal v

abbrev is_closed : RenewalRequest → Bool
is_closed r = has_status RenewalStatus.complete r || has_status RenewalStatus.denied r

module _ (orm : Orm) (now today : ℕ) where
  -- The checks of the constructor.
  unfoldable pub can_process : RenewalRequest → ℤ → Action World (Unit {0})
  can_process r units = do
    asks (λ _. assert_started today r.allocation_period)
    asks (λ _. assert_not_ended today r.allocation_period)
    asks (λ _. guard (has_status RenewalStatus.approved r) assertion_error)
    asks (λ _. validate_num_service_units units)

  unfoldable pub activate_project : Project → Action Db Project
  activate_project p = do
    modify (save_project orm (record p { status = ProjectStatus.active }))
    pure (record p { status = ProjectStatus.active })

  unfoldable pub upgrade_pi_user : RenewalRequest → Action World (Unit {0})
  upgrade_pi_user r = do
    p ← asks (λ w. orm.get user_profile (λ (x : Profile). x.user == r.pi) w.profiles)
    modify (λ w. record w {
      profiles = orm.save (λ (x : Profile). x.user) (record p { is_pi = true }) w.profiles;
    })

  abbrev demote : Result ProjectUser → Db → Result (Unit {0}) × Db
  demote (ok m) db = (
    ok tt,
    record db {
      project_users = orm.save (λ x. x.pk) (record m { role = Role.user }) db.project_users;
    },
  )
  demote (err (does_not_exist Model.project_user)) db = (ok tt, db)
  demote (err e) db = (err e, db)

  unfoldable pub demote_pi_to_user_on_pre_project : RenewalRequest → Action Db (Unit {0})
  demote_pi_to_user_on_pre_project r db =
      if is_pooled orm r.pre_project db
      then demote (orm.get project_user (is_member r.pre_project.pk r.pi) db.project_users) db
      else (ok tt, db)

  -- `handle_by_preference`, given the case.
  unfoldable pub process_by_preference : RenewalRequest → PoolingCase → Action Db (Unit {0})
  process_by_preference r unpooled_to_unpooled = pure tt
  process_by_preference r unpooled_to_pooled = pure tt
  process_by_preference r pooled_to_pooled_same = pure tt
  process_by_preference r _ = demote_pi_to_user_on_pre_project r

  -- Whether a request of the same PI and allowance is for a later period and from another project.
  abbrev pub is_later_request : RenewalRequest → RenewalRequest → Bool
  is_later_request r s =
      not (s.pk == r.pk)
      && (not (is_closed s)
          && (str_eq s.computing_allowance r.computing_allowance
              && (ltb today s.allocation_period.start_date
                  && (s.pi == r.pi && not (s.pre_project.pk == r.post_project.pk)))))

  abbrev pub redirect : Project → List RenewalRequest → World → World
  redirect p [] w = w
  redirect p (s ∷ ss) w = redirect p ss (save_renewal orm (record s { pre_project = p }) w)

  unfoldable pub update_pre_projects_of_future_period_requests :
      RenewalRequest → Action World (Unit {0})
  update_pre_projects_of_future_period_requests r =
      modify (λ w. redirect r.post_project (orm.filter (is_later_request r) w.renewal_requests) w)

  module _ (site : Site) where
    abbrev new_attribute : Allocation → Db → AllocationAttribute
    new_attribute a db = record {
      pk = orm.next_key (λ (x : AllocationAttribute). x.pk) db.attributes;
      attribute_type = AttributeType.service_units;
      allocation = a.pk;
      value = text "";
    }

    -- `get_or_create`
    abbrev pub or_create : Allocation → Result AllocationAttribute → Action Db AllocationAttribute
    or_create a (ok t) db = (ok t, db)
    or_create a (err (does_not_exist Model.allocation_attribute)) db =
        let t = new_attribute a db in (ok t, save_with_usage orm t db)
    or_create a (err e) db = (err e, db)

    abbrev pub renewed : Bool → Period → Allocation → Allocation
    renewed was_active period a = record a {
      status = AllocationStatus.active;
      start_date = date_of was_active a.start_date today;
      end_date = date_of was_active a.end_date period.end_date;
    }

    abbrev pub units_attribute : Allocation → Action Db AllocationAttribute
    units_attribute a db =
        or_create a (orm.get allocation_attribute (is_units a.pk) db.attributes) db

    -- `old_status` is the status that the project had before it was activated.
    unfoldable pub update_allocation :
        RenewalRequest → ℤ → ProjectStatus → Action Db (Allocation × ℤ)
    update_allocation r units old_status = do
      a ← asks (get_project_compute_allocation orm site r.post_project)
      let active : Allocation = renewed (is_active_project old_status) r.allocation_period a
      modify (save_allocation orm active)
      t ← units_attribute active
      existing ← asks (λ _. existing_value t.value)
      asks (λ _. validate_num_service_units (existing +ℤ units))
      modify (save_with_usage orm (record t { value = decimal (existing +ℤ units) }))
      modify (add_transaction r.post_project.pk now (existing +ℤ units))
      pure (active, existing +ℤ units)

    abbrev update_user : Project → ℤ → ProjectUser → Action Db (Unit {0})
    update_user p value m = do
      updated ← set_project_user_allocation_value orm site m.user p value
      when updated (modify (add_user_transaction m.pk now value))

    abbrev pub update_users : Project → ℤ → List ProjectUser → Action Db (Unit {0})
    update_users p value [] = pure tt
    update_users p value (m ∷ ms) = update_user p value m >> update_users p value ms

    unfoldable pub update_existing_user_allocations : RenewalRequest → ℤ → Action Db (Unit {0})
    update_existing_user_allocations r value db =
        update_users r.post_project value
          (orm.filter (λ m. m.project == r.post_project.pk) db.project_users) db
