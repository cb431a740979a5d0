-- ===== src/Newcomers/Create.antt =====
-- `create_project_users` of core/project/utils_/request_processing_utils.py: the requester and the PI
-- of a request that is processed become users of its project.
use coldfront.Base.{
  ℕ, ◌==◌, Bool, true, not, is_nonempty, List, [], ◌∷◌, ◌++◌, if◌then◌else◌, Result, ok, and_then,
  project_user, Action, asks, gets, pure, modify, ◌>>=◌, ◌>>◌,
}
use coldfront.Orm.{Orm}
use coldfront.AllowanceInterface.{Site}
use coldfront.Tables.{Project, ProjectUser, Role, MemberStatus, Allocation, is_active_member}
use coldfront.World.{World}
use coldfront.Members.{is_member}
use coldfront.Newcomers.{
  Settings, Source, new_project_requester, new_project_non_requester_pi,
  allocation_renewal_requester, allocation_renewal_non_requester_pi, new_member, save_member,
  construct, run_constructed,
}

-- `request_class`
pub data RequestClass : Type 0 where
  savio_project_allocation_request vector_project_allocation_request : RequestClass
  allocation_renewal_request : RequestClass

abbrev pub requester_source : RequestClass → Source
requester_source allocation_renewal_request = allocation_renewal_requester
requester_source _ = new_project_requester

abbrev non_requester_pi_source : RequestClass → Source
non_requester_pi_source allocation_renewal_request = allocation_renewal_non_requester_pi
non_requester_pi_source _ = new_project_non_requester_pi

abbrev pub pi_source : RequestClass → Bool → Source
pi_source c is_requester_pi =
    if is_requester_pi then requester_source c else non_requester_pi_source c

-- The requester of a project is a manager, unless they are a PI there.
abbrev pub role_of_requester : Role → Role
role_of_requester Role.principal_investigator = Role.principal_investigator
role_of_requester _ = Role.manager

abbrev pub role_of_pi : Role → Role
role_of_pi _ = Role.principal_investigator

-- A runner that was constructed.
pub record Runner : Type 0 where
  pub project_user : ProjectUser
  pub source : Source
  pub allocation : Allocation

module _ (orm : Orm) (site : Site) (settings : Settings) (now : ℕ) where
  abbrev pub promoted : (Role → Role) → ProjectUser → ProjectUser
  promoted role_of m = record m { role = role_of m.role; status = MemberStatus.active }

  -- The project user with its role and made active, and whether it is to be processed.
  abbrev pub update_member : ℕ → ℕ → (Role → Role) → Action World (ProjectUser × Bool)
  update_member p user role_of = do
    m ← asks (λ w. orm.get project_user (is_member p user) w.db.project_users)
    modify (λ w. record w { db = save_member orm site settings now (promoted role_of m) w.db })
    pure (promoted role_of m, not (is_active_member m.status))

  abbrev pub create_member : ℕ → ℕ → Role → Action World (ProjectUser × Bool)
  create_member p user role = do
    n ← gets (λ w. new_member orm site settings now p user role w.db)
    modify (λ w. record w { db = save_member orm site settings now n w.db })
    pure (n, true)

  abbrev pub enroll : ℕ → ℕ → (Role → Role) → Role → Action World (ProjectUser × Bool)
  enroll p user role_of role w =
      if is_nonempty (orm.filter (is_member p user) w.db.project_users)
      then update_member p user role_of w
      else create_member p user role w

  abbrev pub runner_of : Project → Source → ProjectUser × Bool → World → Result (List Runner)
  runner_of p source (m, run_runner) w =
      if run_runner
      then and_then (construct orm site settings now p m w)
          (λ a. ok (record { project_user = m; source = source; allocation = a } ∷ []))
      else ok []

  abbrev pub requester_runner : Project → ℕ → RequestClass → Action World (List Runner)
  requester_runner p requester c = do
    x ← enroll p.pk requester role_of_requester Role.manager
    asks (runner_of p (requester_source c) x)

  abbrev pub pi_runner : Project → ℕ → ℕ → RequestClass → Action World (List Runner)
  pi_runner p requester pi c = do
    x ← enroll p.pk pi role_of_pi Role.principal_investigator
    asks (runner_of p (pi_source c (requester == pi)) x)

  abbrev pub run_all : ℕ → Project → List Runner → Action World (Unit {0})
  run_all fuel p [] = pure tt
  run_all fuel p (r ∷ rs) =
      run_constructed orm site settings now fuel p r.project_user r.source r.allocation
      >> run_all fuel p rs

  -- The users of the requester and the PI, and the runners that are still to run.
  abbrev pub enroll_users : Project → ℕ → ℕ → RequestClass → Action World (List Runner)
  enroll_users p requester pi c = do
    rs ← if requester == pi then pure [] else requester_runner p requester c
    qs ← pi_runner p requester pi c
    pure (rs ++ qs)

  -- The fuel is that of the runners.
  unfoldable pub create_project_users : ℕ → Project → ℕ → ℕ → RequestClass → Action World (Unit {0})
  create_project_users fuel p requester pi c = do
    rs ← enroll_users p requester pi c
    run_all fuel p rs
