-- ===== src/Members/Managers.antt =====
-- `ProjectRemovalRequestRunner` of core/project/utils_/removal_utils.py leaves no project without a
-- manager.
use coldfront.Base.{
  ℕ, ◌≤◌, ◌≡◌, ◌==◌, refl, ap, ◌∙◌, ◌⊎◌, inl, inr, String, Bool, true, false, ◌&&◌, Option, List,
  [], ◌∷◌, ◌++◌, keep, count, length, is_nonempty, Member, Result, ok, arith, Bool-cases,
  List-cases, Result-cases, project_user, if◌then◌else◌, ◌>>=◌,
}
use coldfront.Orm.{Orm}
use coldfront.Orm.Lookup.{get-keep, keep-any}
use coldfront.Orm.Keys.{count-replace, Keyed, kept-Member, Member-keep}
use coldfront.Tables.{ProjectUser, MemberStatus}
use coldfront.World.{World, RemovalRequest}
use coldfront.Members.{
  only_manager, RemovalError, is_manager, is_member, is_active_manager, is_only_manager,
  removal_errors, or_create, get_or_create_request, or_refuse, make_request, request_removal,
}

length-keep : {R : Type 0} (p : R → Bool) (ts : List R) → length (keep p ts) ≡ count p ts
length-keep p [] = refl
length-keep p (t ∷ ts) = ground (arith, length-keep p ts)

append_nil : {A : Type 0} (xs ys : List A) → xs ++ ys ≡ [] → ys ≡ []
append_nil [] ys h = h
append_nil (x ∷ xs) ys h = cc

if_nil : {A : Type 0} (b : Bool) (e : A) → (if b then e ∷ [] else []) ≡ [] → b ≡ false
if_nil true e h = cc
if_nil false e h = refl

module _ (orm : Orm) (requester user p : ℕ) (reason : String) (world : World) where
  abbrev run : Result (Option RemovalRequest × List RemovalError) × World
  run = request_removal orm requester user p reason world

  abbrev saved : ProjectUser → List ProjectUser
  saved n =
      orm.save (λ (x : ProjectUser). x.pk) (record n { status = MemberStatus.pending_remove })
        world.db.project_users

  abbrev made : ProjectUser → Result RemovalRequest × World
  made n = get_or_create_request orm n.pk requester world

  or_create-db :
      (k : ℕ) (q : Result RemovalRequest) → (or_create orm k requester q world).1.db ≡ world.db
  or_create-db k q = ground arith

  make_saved :
      (n : ProjectUser)
      → orm.get project_user (is_member p user) world.db.project_users ≡ ok n
      → ((make_request orm requester user p reason world).1.db.project_users
          ≡ world.db.project_users)
        ⊎ ((make_request orm requester user p reason world).1.db.project_users ≡ saved n)
  make_saved n g =
      let same : (made n).1.db ≡ world.db = or_create-db n.pk _ in
      elim (Result-cases (made n).0) [
        | inl (r, f) ↦
            let again : orm.get project_user (is_member p user) (made n).1.db.project_users ≡ ok n =
              rw same g in
            inr (rw (◌>>=◌, g, f, again, same) refl)
        | inr (e, f) ↦ inl (rw (◌>>=◌, g, f, same) refl)
      ]

  refused_state :
      (or_refuse orm requester user p reason [] world).1.db.project_users
      ≡ (make_request orm requester user p reason world).1.db.project_users
  refused_state = elim (Result-cases (make_request orm requester user p reason world).0) [
    | inl (r, e) ↦ rw (or_refuse, ◌>>=◌, e) refl
    | inr (x, e) ↦ rw (or_refuse, ◌>>=◌, e) refl
  ]

  no_errors :
      removal_errors orm p user world ≡ []
      → run.1.db.project_users ≡ (make_request orm requester user p reason world).1.db.project_users
  unfolding request_removal
  no_errors w =
      ap (λ es. (or_refuse orm requester user p reason es world).1.db.project_users) w
      ∙ refused_state

  -- Only the user's row changes, and only where nothing was wrong.
  member_saved :
      (run.1.db.project_users ≡ world.db.project_users)
      ⊎ ((n : ProjectUser) × (removal_errors orm p user world ≡ [])
          × (orm.get project_user (is_member p user) world.db.project_users ≡ ok n)
          × (run.1.db.project_users
              ≡ orm.save
                  (λ (x : ProjectUser). x.pk)
                  (record n { status = MemberStatus.pending_remove })
                  world.db.project_users))
  unfolding request_removal
  member_saved = elim (List-cases (removal_errors orm p user world)) [
    | inr (e, es, w) ↦ inl (rw w refl)
    | inl w ↦ elim (Result-cases (orm.get project_user (is_member p user) world.db.project_users)) [
      | inr (e, g) ↦ inl ground (arith, w, g)
      | inl (n, g) ↦ elim (make_saved n g) [
        | inl same ↦ inl (no_errors w ∙ same)
        | inr new ↦ inr (n, w, g, no_errors w ∙ new)
      ]
    ]
  ]

  not_only : removal_errors orm p user world ≡ [] → is_only_manager orm p user world.db ≡ false
  not_only w = if_nil _ only_manager (append_nil _ _ (append_nil _ _ w))

  nonempty_keep :
      (f : ProjectUser → Bool) (ts : List ProjectUser) (n : ProjectUser)
      → Member n ts
      → f n ≡ true
      → is_nonempty (orm.filter f ts) ≡ true
  nonempty_keep f ts n m h = rw orm.filter_lem (elim (List-cases (keep f ts)) [
    | inl e ↦ absurd (rw e at (Member-keep f ts n m h))
    | inr (x, rest, e) ↦ rw e refl
  ])

  -- A manager who can leave is not the only active one.
  not_alone :
      (q : ℕ) (n : ProjectUser)
      → removal_errors orm p user world ≡ []
      → Member n world.db.project_users
      → is_member p user n ≡ true
      → is_active_manager q n ≡ true
      → (count (is_active_manager q) world.db.project_users == 1) ≡ false
  not_alone q n w m pass active =
      let same : q ≡ p = ground (arith, pass, active) in
      let manager =
        nonempty_keep (λ x. is_member p user x && is_manager x.role) world.db.project_users n m
          (ground (arith, pass, active)) in
      let rest : (length (orm.filter (is_active_manager p) world.db.project_users) == 1) ≡ false =
        ground (arith, not_only w, manager) in
      let counted = length-keep (is_active_manager p) world.db.project_users in
      rw same (rw (orm.filter_lem, counted) at rest)

  -- Where no two project users share a key, a request for the removal of a user, whether it is made
  -- or refused, leaves an active manager in every project that had one.
  pub request_removal-manager :
      (q : ℕ)
      → Keyed (λ (x : ProjectUser). x.pk) world.db.project_users
      → 1 ≤ count (is_active_manager q) world.db.project_users
      → 1 ≤ count (is_active_manager q) run.1.db.project_users
  request_removal-manager q keyed h = elim member_saved [
    | inl same ↦ rw same h
    | inr (n, w, g, new) ↦
        let row : ProjectUser = record n { status = MemberStatus.pending_remove } in
        let k = get-keep orm project_user (is_member p user) world.db.project_users n g in
        let (m, pass) = kept-Member (is_member p user) world.db.project_users n [] k in
        let own = keyed n m in
        let changed =
          count-replace (λ (x : ProjectUser). x.pk) (is_active_manager q) row n
            world.db.project_users own in
        let found = keep-any (λ (x : ProjectUser). x.pk == n.pk) world.db.project_users n [] own in
        rw (new, orm.save_lem (λ (x : ProjectUser). x.pk) row world.db.project_users found)
          (elim (Bool-cases (is_active_manager q n)) [
            | inr inactive ↦ ground (arith, changed, inactive, h)
            | inl active ↦ ground (arith, changed, active, h, not_alone q n w m pass active)
          ])
  ]
