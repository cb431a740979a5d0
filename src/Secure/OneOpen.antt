-- ===== src/Secure/OneOpen.antt =====
-- Requests to add users to secure directories and to remove users, as the views of
-- core/allocation/views_/secure_dir_views/user_management/ let them go on: no user has two open ones.
use coldfront.Base.{
  ℕ, ◌+◌, ◌≤◌, ◌≡◌, ◌==◌, ==_iff, refl, sym, inl, inr, Bool, true, false, ◌&&◌, List, [], ◌∷◌, any,
  keep, map, count, arith, Bool-cases,
}
use coldfront.Orm.{Orm}
use coldfront.Orm.Lookup.{keep-any}
use coldfront.Orm.Keys.{bit, count-replace, count-append}
use coldfront.Tables.{Allocation, AllocationUser}
use coldfront.Secure.{SecureWorld, ManageRequest}
use coldfront.Secure.Users

abbrev pub is_open_of : ℕ → ℕ → ManageRequest → Bool
is_open_of a user r = Users.is_open_for a r && r.user == user

-- The number of open requests to add a user to a directory, and to remove the user from it.
abbrev pub adds : ℕ → ℕ → SecureWorld → ℕ
adds a user world = count (is_open_of a user) world.add_requests

abbrev pub removals : ℕ → ℕ → SecureWorld → ℕ
removals a user world = count (is_open_of a user) world.remove_requests

abbrev pub is_active_user_of : ℕ → ℕ → AllocationUser → Bool
is_active_user_of a user u = Users.is_active_in a u && u.user == user

abbrev pub is_active : ℕ → ℕ → SecureWorld → Bool
is_active a user world = any (is_active_user_of a user) world.db.allocation_users

-- A user has one open request for a directory at most, and none to be added to a directory that the
-- user is in.
abbrev pub OneOpen : SecureWorld → Type 0
OneOpen world =
    (a user : ℕ)
    → (adds a user world + removals a user world ≤ 1)
      × ((is_active a user world ≡ true) → adds a user world ≡ 0)

module _ (orm : Orm) where
  -- What is not among the users with a row that passes has no such row.
  not_listed :
      {R : Type 0} (user : R → ℕ) (p : R → Bool) (k : ℕ) (ts : List R)
      → Users.contains k (map user (keep p ts)) ≡ false
      → count (λ r. p r && user r == k) ts ≡ 0
  not_listed user p k [] h = refl
  not_listed user p k (t ∷ ts) h = ground (arith, h, not_listed user p k ts)

  not_listed_any :
      {R : Type 0} (user : R → ℕ) (p : R → Bool) (k : ℕ) (ts : List R)
      → Users.contains k (map user (keep p ts)) ≡ false
      → any (λ r. p r && user r == k) ts ≡ false
  not_listed_any user p k [] h = refl
  not_listed_any user p k (t ∷ ts) h = ground (arith, h, not_listed_any user p k ts)

  listed_any :
      {R : Type 0} (user : R → ℕ) (p : R → Bool) (k : ℕ) (ts : List R)
      → Users.contains k (map user (keep p ts)) ≡ true
      → any (λ r. p r && user r == k) ts ≡ true
  listed_any user p k [] h = cc
  listed_any user p k (t ∷ ts) h = ground (arith, h, listed_any user p k ts)

  contains-discard :
      (k : ℕ) (gone ks : List ℕ)
      → Users.contains k (Users.discard gone ks) ≡ true
      → (Users.contains k gone ≡ false) × (Users.contains k ks ≡ true)
  contains-discard k gone [] h = cc
  contains-discard k gone (j ∷ ks) h = elim (Bool-cases (Users.contains j gone)) [
    | inl q ↦ let ih = contains-discard k gone ks (rw q at h) in (ih.0, ground (arith, ih.1))
    | inr q ↦ elim (Bool-cases (j == k)) [
      | inl e ↦ (rw (sym ((==_iff j k).0 e)) q, rw e refl)
      | inr e ↦ let ih = contains-discard k gone ks (rw (q, e) at h) in (ih.0, rw e ih.1)
    ]
  ]

  -- A user to whom nothing stands in the way of a request.
  abbrev pub Ready : Bool → ℕ → ℕ → SecureWorld → Type 0
  Ready add a user world =
      (adds a user world + removals a user world ≡ 0)
      × ((add ≡ true) → is_active a user world ≡ false)

  pub addable-Ready :
      (a : Allocation) (user : ℕ) (world : SecureWorld)
      → Users.contains user (Users.addable orm a world) ≡ true
      → Ready true a.pk user world
  addable-Ready a user world h =
      let able : List ℕ =
        keep (λ k. Users.has_cluster_access orm k world.db) (Users.candidates orm a world.db) in
      let outside : List ℕ = Users.discard (Users.active_users orm a world.db) able in
      let adding : List ℕ = Users.users_with_open orm a world.add_requests in
      let removing : List ℕ = Users.users_with_open orm a world.remove_requests in
      let (no_removal, h1) = contains-discard user removing (Users.discard adding outside) h in
      let (no_add, h2) = contains-discard user adding outside h1 in
      let (not_in, h3) = contains-discard user (Users.active_users orm a world.db) able h2 in
      (
        omega (
          arith,
          not_listed (λ (r : ManageRequest). r.user) (Users.is_open_for a.pk) user
              world.remove_requests (rw orm.filter_lem at no_removal),
          not_listed (λ (r : ManageRequest). r.user) (Users.is_open_for a.pk) user
              world.add_requests (rw orm.filter_lem at no_add),
        ),
        λ e.
            not_listed_any (λ (u : AllocationUser). u.user) (Users.is_active_in a.pk) user
              world.db.allocation_users (rw orm.filter_lem at not_in),
      )

  pub removable-Ready :
      (a : Allocation) (user : ℕ) (world : SecureWorld)
      → OneOpen world
      → Users.contains user (Users.removable orm a world) ≡ true
      → Ready false a.pk user world
  removable-Ready a user world one h =
      let inside : List ℕ = Users.active_users orm a world.db in
      let removing : List ℕ = Users.users_with_open orm a world.remove_requests in
      let (not_pi, h1) =
        contains-discard user (Users.active_pis orm a.project world.db)
          (Users.discard removing inside) h in
      let (no_removal, h2) = contains-discard user removing inside h1 in
      let active =
        listed_any (λ (u : AllocationUser). u.user) (Users.is_active_in a.pk) user
          world.db.allocation_users (rw orm.filter_lem at h2) in
      (
        omega (
          arith,
          (one a.pk user).1 active,
          not_listed (λ (r : ManageRequest). r.user) (Users.is_open_for a.pk) user
              world.remove_requests (rw orm.filter_lem at no_removal),
        ),
        λ e. cc,
      )

  -- After a save that opens no request, a user has no more open ones than before.
  pub count_saved :
      (a user : ℕ) (r old : ManageRequest) (ts : List ManageRequest)
      → keep (λ x. x.pk == r.pk) ts ≡ old ∷ []
      → count (is_open_of a user) (Users.save_manage orm r ts) + bit (is_open_of a user old)
        ≡ count (is_open_of a user) ts + bit (is_open_of a user r)
  count_saved a user r old ts k =
      let key : ManageRequest → ℕ = λ x. x.pk in
      rw (orm.save_lem key r ts (keep-any (λ x. x.pk == r.pk) ts old [] k))
        (count-replace key (is_open_of a user) r old ts k)

  pub count_new :
      (a user k u : ℕ) (path : _) (ts : List ManageRequest)
      → count (is_open_of a user) (Users.save_manage orm (Users.new_request orm k u path ts) ts)
        ≡ count (is_open_of a user) ts + bit ((k == a && true) && u == user)
  count_new a user k u path ts =
      let key : ManageRequest → ℕ = λ x. x.pk in
      rw (orm.save_new key (Users.new_request orm k u path ts) ts (orm.next_key-fresh key ts))
        (count-append (is_open_of a user) (Users.new_request orm k u path ts) ts)
