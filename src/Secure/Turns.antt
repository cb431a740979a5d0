-- ===== src/Secure/Turns.antt =====
-- What each view of core/allocation/views_/secure_dir_views/user_management/ does to the open requests
-- for secure directories.
use coldfront.Base.{
  ℕ, ◌≡◌, ◌≢◌, ◌==◌, ==_iff, refl, sym, inl, inr, Bool, true, false, ◌&&◌, List, [], ◌∷◌, keep, map,
  Member, arith, Bool-cases, Action, asks, ◌>>=◌, bind-holds, atomic-holds,
}
use coldfront.Orm.{Orm}
use coldfront.Orm.Keys.{keep-Member}
use coldfront.Tables.{Allocation, AllocationAttribute}
use coldfront.World.{User}
use coldfront.Secure.{SecureWorld}
use coldfront.Secure.Users
use coldfront.Secure.OneOpen.{OneOpen, Ready, addable-Ready, removable-Ready, count_new}

-- No two users share a key.
abbrev pub Distinct : List User → Type 0
Distinct [] = Unit {0}
Distinct (u ∷ us) = (Users.contains u.pk (map (λ (v : User). v.pk) us) ≡ false) × Distinct us

not_kept :
    (p : User → Bool) (k : ℕ) (us : List User)
    → Users.contains k (map (λ (v : User). v.pk) us) ≡ false
    → Users.contains k (map (λ (v : User). v.pk) (keep p us)) ≡ false
not_kept p k [] h = refl
not_kept p k (u ∷ us) h = ground (arith, h, not_kept p k us)

Distinct-keep : (p : User → Bool) (us : List User) → Distinct us → Distinct (keep p us)
Distinct-keep p [] d = tt
Distinct-keep p (u ∷ us) (h, d) = elim (Bool-cases (p u)) [
  | inl e ↦ rw e (not_kept p u.pk us h, Distinct-keep p us d)
  | inr e ↦ rw e (Distinct-keep p us d)
]

other_key :
    (k : ℕ) (us : List User) (v : User)
    → Users.contains k (map (λ (v : User). v.pk) us) ≡ false
    → Member v us
    → v.pk ≢ k
other_key k [] v h m = absurd m
other_key k (u ∷ us) v h (inl e) = rw e (λ q. cc (h, (==_iff u.pk k).1 q))
other_key k (u ∷ us) v h (inr m) = other_key k us v (ground (arith, h)) m

matched : (k a u user : ℕ) → ((k == a && true) && u == user) ≡ true → (k ≡ a) × (u ≡ user)
matched k a u user h = ground (arith, h)

other_user : (k a u v : ℕ) → v ≢ u → ((k == a && true) && u == v) ≡ false
other_user k a u v n = elim (Bool-cases (u == v)) [
  | inl e ↦ absurd (n (sym ((==_iff u v).0 e)))
  | inr e ↦ ground (arith, e)
]

module _ (orm : Orm) where
  module _ (add : Bool) (a : Allocation) (u : ℕ) (world : SecureWorld) where
    -- Users other than the one are ready as before.
    abbrev OthersReady : SecureWorld → Type 0
    OthersReady after = (v : ℕ) → v ≢ u → Ready orm add a.pk v world → Ready orm add a.pk v after

    abbrev Asked : SecureWorld → Type 0
    Asked after = OneOpen after × OthersReady after

  added-Asked :
      (a : Allocation) (u : ℕ) (world : SecureWorld) (t : AllocationAttribute)
      → OneOpen world
      → Ready orm true a.pk u world
      → Asked true a u world (Users.add_request orm true a u t world).1
  added-Asked a u world t one ready = (
    (λ k user.
        let c = count_new orm k user a.pk u t.value world.add_requests in
        elim (Bool-cases ((a.pk == k && true) && u == user)) [
          | inr e ↦
              let same = rw e at c in
              (omega (arith, (one k user).0, same), λ h. omega (arith, (one k user).1 h, same))
          | inl e ↦
              let m = matched a.pk k u user e in
              let free : Ready orm true k user world = rw (sym m.0, sym m.1) ready in
              let more = rw e at c in (omega (arith, free.0, more), λ h. cc (h, free.1 refl))
        ]),
    (λ v n r.
        let c = count_new orm a.pk v a.pk u t.value world.add_requests in
        (omega (arith, r.0, rw (other_user a.pk a.pk u v n) at c), r.1)),
  )

  removed-Asked :
      (a : Allocation) (u : ℕ) (world : SecureWorld) (t : AllocationAttribute)
      → OneOpen world
      → Ready orm false a.pk u world
      → Asked false a u world (Users.add_request orm false a u t world).1
  removed-Asked a u world t one ready = (
    (λ k user.
        let c = count_new orm k user a.pk u t.value world.remove_requests in
        elim (Bool-cases ((a.pk == k && true) && u == user)) [
          | inr e ↦ let same = rw e at c in (omega (arith, (one k user).0, same), (one k user).1)
          | inl e ↦
              let m = matched a.pk k u user e in
              let free : Ready orm false k user world = rw (sym m.0, sym m.1) ready in
              let more = rw e at c in (omega (arith, free.0, more), λ h. omega (arith, free.0))
        ]),
    (λ v n r.
        let c = count_new orm a.pk v a.pk u t.value world.remove_requests in
        (omega (arith, r.0, rw (other_user a.pk a.pk u v n) at c), r.1)),
  )

  asked :
      (add : Bool) (a : Allocation) (u : ℕ) (world : SecureWorld)
      → OneOpen world
      → Ready orm add a.pk u world
      → Asked add a u world (Users.request_user orm add a u world).1
  unfolding Users.request_user
  asked add a u world one ready =
      let path : Action SecureWorld AllocationAttribute = asks (λ w. Users.get_path orm a w.db) in
      let before : Asked add a u world world = (one, λ v n r. r) in
      atomic-holds (Asked add a u world) (path >>= Users.add_request orm add a u) world before (
        bind-holds (Asked add a u world) path world (Users.add_request orm add a u) before
          (λ t. either add t one ready))
    where
      either :
          (b : Bool) (t : AllocationAttribute)
          → OneOpen world
          → Ready orm b a.pk u world
          → Asked b a u world (Users.add_request orm b a u t world).1
      either true t one ready = added-Asked a u world t one ready
      either false t one ready = removed-Asked a u world t one ready

  -- Requests for users who are ready and distinct leave no user with two.
  all_asked :
      (add : Bool) (a : Allocation) (us : List User) (world : SecureWorld)
      → OneOpen world
      → Distinct us
      → ((v : User) → Member v us → Ready orm add a.pk v.pk world)
      → OneOpen (Users.request_users orm add a us world).1
  all_asked add a [] world one d ready = one
  all_asked add a (u ∷ us) world one (h, d) ready =
      let first = asked add a u.pk world one (ready u (inl refl)) in
      bind-holds OneOpen (Users.request_user orm add a u.pk) world
        (λ t. Users.request_users orm add a us) first.0
        (λ t.
          all_asked add a us _ first.0 d
            (λ v m. first.1 v.pk (other_key u.pk us v h m) (ready v (inr m))))

  pub post-OneOpen :
      (add : Bool) (a : Allocation) (selected : User → Bool) (world : SecureWorld)
      → Distinct world.users
      → OneOpen world
      → OneOpen (Users.post_requests orm add a selected world).1
  unfolding Users.post_requests Users.get_addable_users Users.get_removable_users
  post-OneOpen true a selected world d one =
      let p : User → Bool = λ v. Users.contains v.pk (Users.addable orm a world) in
      atomic-holds OneOpen
        (Users.request_users orm true a (keep selected (orm.filter p world.users))) world one
        (rw (orm.filter_lem p world.users) (
          all_asked true a (keep selected (keep p world.users)) world one
            (Distinct-keep selected _ (Distinct-keep p world.users d))
            (λ v m.
              addable-Ready orm a v.pk world
                (keep-Member p world.users v (keep-Member selected _ v m).0).1)))
  post-OneOpen false a selected world d one =
      let p : User → Bool = λ v. Users.contains v.pk (Users.removable orm a world) in
      atomic-holds OneOpen
        (Users.request_users orm false a (keep selected (orm.filter p world.users))) world one
        (rw (orm.filter_lem p world.users) (
          all_asked false a (keep selected (keep p world.users)) world one
            (Distinct-keep selected _ (Distinct-keep p world.users d))
            (λ v m.
              removable-Ready orm a v.pk world one
                (keep-Member p world.users v (keep-Member selected _ v m).0).1)))
