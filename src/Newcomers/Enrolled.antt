-- ===== src/Newcomers/Enrolled.antt =====
-- What `create_project_users` of core/project/utils_/request_processing_utils.py leaves in the table of
-- project users: ../Create.
use coldfront.Base.{
  ℕ, ◌≡◌, ◌≢◌, refl, sym, ◌∙◌, ap, ◌⊎◌, inl, inr, ◌==◌, Bool, true, false, ◌&&◌, ◌||◌, is_nonempty,
  List, [], ◌∷◌, ◌++◌, if◌then◌else◌, ok, Member, project_user, Action, asks, pure, ◌>>=◌, bind-inv,
  arith, Bool-cases, Result-cases, ==_iff,
}
use coldfront.Orm.{Orm, has_key}
use coldfront.Orm.Lookup.{get-keep}
use coldfront.Orm.Keys.{kept-Member, saved-Member, Member-save, kept_save-Member, no_key-Member}
use coldfront.AllowanceInterface.{Site}
use coldfront.Tables.{Project, ProjectUser, Role, MemberStatus}
use coldfront.World.{World}
use coldfront.Members.{is_member, is_pi, is_manager}
use coldfront.Newcomers.{
  Settings, new_member, is_vector_project, run_constructed, add_vector_user, run_new_user,
  auto_added,
}
use coldfront.Newcomers.Apart.{Leaves, block-Leaves, run_with-Leaves}
use coldfront.Newcomers.Create.{
  Runner, RequestClass, requester_source, pi_source, role_of_requester, role_of_pi, update_member,
  create_member, enroll, run_all, runner_of, requester_runner, pi_runner, enroll_users,
  create_project_users, promoted,
}

abbrev key : ProjectUser → ℕ
key m = m.pk

-- A user is active on a project, with a role that passes a test.
abbrev pub IsActiveAs : ℕ → ℕ → (Role → Bool) → World → Type 0
IsActiveAs p user test w =
    (m : ProjectUser) × Member m w.db.project_users
    × (is_member p user m ≡ true)
    × (m.status ≡ MemberStatus.active)
    × (test m.role ≡ true)

-- A manager or a PI.
abbrev pub is_lead : Role → Bool
is_lead r = is_manager r || is_pi r

requester_leads : (r : Role) → is_lead (role_of_requester r) ≡ true
requester_leads Role.user = refl
requester_leads Role.manager = refl
requester_leads Role.principal_investigator = refl

module _ (orm : Orm) (site : Site) (settings : Settings) (now : ℕ) where
  -- The row that a user of the project is saved under.
  abbrev Place : ℕ → ℕ → List ProjectUser → ProjectUser → Type 0
  Place p user before m =
      ((old : ProjectUser) × Member old before × (is_member p user old ≡ true) × (m.pk ≡ old.pk))
      ⊎ (has_key key m.pk before ≡ false)

  abbrev Enrolls : ℕ → ℕ → (Role → Bool) → World → World → Type 0
  Enrolls p user test w after =
      (m : ProjectUser) × (is_member p user m ≡ true)
      × (m.status ≡ MemberStatus.active)
      × (test m.role ≡ true)
      × (after.db.project_users ≡ orm.save key m w.db.project_users)
      × Place p user w.db.project_users m

  module _ (p user : ℕ) (test : Role → Bool) (w : World) (x : ProjectUser × Bool) where
    updated :
        (role_of : Role → Role)
        → ((r : Role) → test (role_of r) ≡ true)
        → (update_member orm site settings now p user role_of w).0 ≡ ok x
        → Enrolls p user test w (update_member orm site settings now p user role_of w).1
    updated role_of h e =
        elim (Result-cases (orm.get project_user (is_member p user) w.db.project_users)) [
          | inr (y, k) ↦ absurd (ground (arith, rw k at e))
          | inl (old, k) ↦
              let alone = get-keep orm project_user (is_member p user) w.db.project_users old k in
              let (there, pass) = kept-Member (is_member p user) w.db.project_users old [] alone in
              rw k (
                promoted orm site settings now role_of old,
                pass,
                refl,
                h old.role,
                refl,
                inl (old, there, pass, refl),
              )
        ]

    created :
        (role : Role)
        → test role ≡ true
        → Enrolls p user test w (create_member orm site settings now p user role w).1
    created role h =
        let n = new_member orm site settings now p user role w.db in
        (n, ground arith, refl, h, refl, inr (orm.next_key-fresh key w.db.project_users))

    enrolled :
        (role_of : Role → Role) (role : Role)
        → ((r : Role) → test (role_of r) ≡ true)
        → test role ≡ true
        → (enroll orm site settings now p user role_of role w).0 ≡ ok x
        → Enrolls p user test w (enroll orm site settings now p user role_of role w).1
    enrolled role_of role h k e =
        elim (Bool-cases (is_nonempty (orm.filter (is_member p user) w.db.project_users))) [
          | inl q ↦ rw q (updated role_of h (rw q at e))
          | inr q ↦ rw q (created role k)
        ]

  enrolled-active :
      (p user : ℕ) (test : Role → Bool) (w after : World)
      → Enrolls p user test w after
      → IsActiveAs p user test after
  enrolled-active p user test w after (m, is_it, active, role, saved, place) =
      (m, rw saved (saved-Member orm key m w.db.project_users), is_it, active, role)

  user_of : (p user : ℕ) (m : ProjectUser) → is_member p user m ≡ true → m.user ≡ user
  user_of p user m h = ground (arith, h)

  -- A user who is made active on the project stays so when another one is.
  enrolled-other :
      (p user other : ℕ) (test test' : Role → Bool) (before w after : World)
      → other ≢ user
      → Enrolls p other test before w
      → Enrolls p user test' w after
      → IsActiveAs p other test after
  enrolled-other p user other test test' before w after apart
        (x, is_x, active, role, saved_x, place_x) (m, is_m, active_m, role_m, saved, place) =
      let there : Member x w.db.project_users =
        rw saved_x (saved-Member orm key x before.db.project_users) in
      let distinct : key x ≢ key m = elim place [
        | inr fresh ↦ no_key-Member key m w.db.project_users x fresh there
        | inl (old, old_there, is_old, same) ↦
            elim (Member-save orm key x before.db.project_users old (rw saved_x at old_there)) [
              | inr (_, away) ↦ λ e. away (sym (e ∙ same))
              | inl e ↦ absurd (
                  apart (
                    sym (user_of p other x is_x)
                    ∙ ap (λ (r : ProjectUser). r.user) (sym e)
                    ∙ user_of p user old is_old))
            ]
      ] in
      (
        x,
        rw saved (kept_save-Member orm key m x w.db.project_users there distinct),
        is_x,
        active,
        role,
      )

  run_all-Leaves :
      (fuel : ℕ) (p : Project) (rs : List Runner)
      → site.flags.brc_only && is_vector_project p ≡ false
      → Leaves (run_all orm site settings now fuel p rs)
  run_all-Leaves fuel p [] h = λ w. refl
  run_all-Leaves fuel p (r ∷ rs) h =
      block-Leaves
        (run_constructed orm site settings now fuel p r.project_user r.source r.allocation)
        (λ t. run_all orm site settings now fuel p rs)
        (run_with-Leaves orm site settings now
          (add_vector_user orm site settings now
            (λ q n. run_new_user orm site settings now fuel q n auto_added))
          p r.project_user r.source r.allocation h)
        (λ t. run_all-Leaves fuel p rs h)

  module _ (p : Project) (requester pi : ℕ) (c : RequestClass) where
    abbrev Led : World → Type 0
    Led w = (requester ≢ pi → IsActiveAs p.pk requester is_lead w) × IsActiveAs p.pk pi is_pi w

    requester_enrolled :
        (w : World) (rs : List Runner)
        → (requester_runner orm site settings now p requester c w).0 ≡ ok rs
        → Enrolls p.pk requester is_lead w
            (requester_runner orm site settings now p requester c w).1
    requester_enrolled w rs e =
        let step = enroll orm site settings now p.pk requester role_of_requester Role.manager in
        let rest : ProjectUser × Bool → Action World (List Runner) =
          λ x. asks (runner_of orm site settings now p (requester_source c) x) in
        let (x, ok_x, run) = bind-inv step rest w rs e in
        rw run (
          enrolled p.pk requester is_lead w x role_of_requester Role.manager requester_leads refl
            ok_x)

    pi_enrolled :
        (w : World) (rs : List Runner)
        → (pi_runner orm site settings now p requester pi c w).0 ≡ ok rs
        → Enrolls p.pk pi is_pi w (pi_runner orm site settings now p requester pi c w).1
    pi_enrolled w rs e =
        let step = enroll orm site settings now p.pk pi role_of_pi Role.principal_investigator in
        let rest : ProjectUser × Bool → Action World (List Runner) =
          λ x. asks (runner_of orm site settings now p (pi_source c (requester == pi)) x) in
        let (x, ok_x, run) = bind-inv step rest w rs e in
        rw run
          (enrolled p.pk pi is_pi w x role_of_pi Role.principal_investigator (λ r. refl) refl ok_x)

    requester_first :
        (w : World) (rs : List Runner)
        → requester ≢ pi
        → ((if requester == pi
              then pure []
              else requester_runner orm site settings now p requester c)
            w).0
          ≡ ok rs
        → Enrolls p.pk requester is_lead w
            ((if requester == pi
                then pure []
                else requester_runner orm site settings now p requester c)
              w).1
    requester_first w rs different e = elim (Bool-cases (requester == pi)) [
      | inl q ↦ absurd (different ((==_iff requester pi).0 q))
      | inr q ↦ rw q (requester_enrolled w rs (rw q at e))
    ]

    users_enrolled :
        (w : World) (rs : List Runner)
        → (enroll_users orm site settings now p requester pi c w).0 ≡ ok rs
        → Led (enroll_users orm site settings now p requester pi c w).1
    users_enrolled w rs e =
        let first : Action World (List Runner) =
          if requester == pi
          then pure []
          else requester_runner orm site settings now p requester c in
        let second = pi_runner orm site settings now p requester pi c in
        let last : List Runner → List Runner → Action World (List Runner) =
          λ rs qs. pure (rs ++ qs) in
        let (rs1, e1, run1) = bind-inv first (λ rs. second >>= last rs) w rs e in
        let w1 = (first w).1 in
        let (qs, e2, run2) = bind-inv second (last rs1) w1 rs (rw run1 at e) in
        let pi_done = pi_enrolled w1 qs e2 in
        let led : Led (second w1).1 = (
          λ different.
              enrolled-other p.pk pi requester is_lead is_pi w w1 (second w1).1 different
                (requester_first w rs1 different e1) pi_done,
          enrolled-active p.pk pi is_pi w1 (second w1).1 pi_done,
        ) in
        rw (run1, run2) led

    -- Where the users of the project are added to no other one, that is outside the Vector projects of
    -- BRC, processing a request that succeeds leaves its PI an active PI of the project, and a requester
    -- who is somebody else an active manager or PI of it.
    pub create_project_users-Led :
        (fuel : ℕ) (w : World)
        → site.flags.brc_only && is_vector_project p ≡ false
        → (create_project_users orm site settings now fuel p requester pi c w).0 ≡ ok tt
        → Led (create_project_users orm site settings now fuel p requester pi c w).1
    unfolding create_project_users
    create_project_users-Led fuel w h e =
        let first = enroll_users orm site settings now p requester pi c in
        let rest : List Runner → Action World (Unit {0}) =
          λ rs. run_all orm site settings now fuel p rs in
        let (rs, e1, run) = bind-inv first rest w tt e in
        let same = run_all-Leaves fuel p rs h (first w).1 in
        rw run (rw same (users_enrolled w rs e1))
