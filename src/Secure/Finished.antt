-- ===== src/Secure/Finished.antt =====
-- The views of core/allocation/views_/secure_dir_views/user_management/approval_views.py, which update,
-- complete and deny a request, leave no user with two open requests; nor does any sequence of views.
use coldfront.Base.{
  ℕ, ◌+◌, ◌≤◌, ◌≡◌, ◌==◌, ==_iff, refl, sym, inl, inr, Bool, true, false, List, [], ◌∷◌, keep,
  count, ok, arith, Bool-cases, Result-cases, Model, ◌>>=◌, atomic-holds, some,
}
use mathlib.Core.Path.{subst}
use coldfront.Orm.{Orm}
use coldfront.Orm.Lookup.{get-keep, get-cases}
use coldfront.Orm.Change.{any-Member}
use coldfront.Orm.Keys.{bit, any-eq-true, Member-save, kept-Member}
use coldfront.Tables.{AllocationUser, AllocationUserStatus}
use coldfront.Secure.{SecureWorld, ManageRequest, ManageStatus}
use coldfront.Secure.Users
use coldfront.Secure.OneOpen.{OneOpen, is_open_of, is_active_user_of, adds, count_saved}

open_of_processing : (s : ManageStatus) → Users.is_processing s ≡ true → Users.is_open s ≡ true
open_of_processing ManageStatus.processing h = refl
open_of_processing ManageStatus.pending h = cc
open_of_processing ManageStatus.complete h = cc
open_of_processing ManageStatus.denied h = cc

open_of_pending : (s : ManageStatus) → Users.is_pending s ≡ true → Users.is_open s ≡ true
open_of_pending ManageStatus.pending h = refl
open_of_pending ManageStatus.processing h = cc
open_of_pending ManageStatus.complete h = cc
open_of_pending ManageStatus.denied h = cc

-- A request of the same user and directory that is open only if the other is.
abbrev OpensNone : ManageRequest → ManageRequest → Type 0
OpensNone r old =
    (r.pk ≡ old.pk)
    × (r.allocation ≡ old.allocation)
    × (r.user ≡ old.user)
    × ((Users.is_open r.status ≡ true) → Users.is_open old.status ≡ true)

bit_opens :
    (r old : ManageRequest)
    → OpensNone r old
    → (a user : ℕ) → bit (is_open_of a user r) ≤ bit (is_open_of a user old)
bit_opens r old (e1, e2, e3, h) a user = ground (arith, e2, e3, h)

bit_self :
    (r : ManageRequest) → Users.is_open r.status ≡ true → bit (is_open_of r.allocation r.user r) ≡ 1
bit_self r h = ground (arith, h)

pair_of :
    (a user : ℕ) (u : AllocationUser)
    → is_active_user_of a user u ≡ true
    → (u.allocation ≡ a) × (u.user ≡ user)
pair_of a user u h = ground (arith, h)

module _ (orm : Orm) where
  found_row :
      (pk : ℕ) (r : ManageRequest) (ts : List ManageRequest)
      → orm.get Model.manage_request (λ (x : ManageRequest). x.pk == pk) ts ≡ ok r
      → keep (λ (x : ManageRequest). x.pk == r.pk) ts ≡ r ∷ []
  found_row pk r ts h =
      let k = get-keep orm Model.manage_request (λ (x : ManageRequest). x.pk == pk) ts r h in
      let e : r.pk ≡ pk =
        (==_iff r.pk pk).0 (kept-Member (λ (x : ManageRequest). x.pk == pk) ts r [] k).1 in
      subst (λ n. keep (λ (x : ManageRequest). x.pk == n) ts ≡ r ∷ []) (sym e) k

  module _ (r old : ManageRequest) (same : OpensNone r old) (world : SecureWorld)
      (one : OneOpen world) where
    fewer :
        (a user : ℕ) (ts : List ManageRequest)
        → keep (λ (x : ManageRequest). x.pk == old.pk) ts ≡ old ∷ []
        → count (is_open_of a user) (Users.save_manage orm r ts) + bit (is_open_of a user old)
          ≡ count (is_open_of a user) ts + bit (is_open_of a user r)
    fewer a user ts k = count_saved orm a user r old ts (rw same.0 k)

    saved-OneOpen :
        (add : Bool)
        → keep (λ (x : ManageRequest). x.pk == old.pk) (Users.table add world) ≡ old ∷ []
        → OneOpen (Users.save_request orm add r world)
    saved-OneOpen true k a user =
        let c = fewer a user world.add_requests k in
        let b = bit_opens r old same a user in
        (omega (arith, (one a user).0, c, b), λ h. omega (arith, (one a user).1 h, c, b))
    saved-OneOpen false k a user =
        let c = fewer a user world.remove_requests k in
        let b = bit_opens r old same a user in (omega (arith, (one a user).0, c, b), (one a user).1)

    -- Once the open request is closed, no request to add the user is open.
    closed-adds :
        (add : Bool)
        → keep (λ (x : ManageRequest). x.pk == old.pk) (Users.table add world) ≡ old ∷ []
        → Users.is_open old.status ≡ true
        → Users.is_open r.status ≡ false
        → adds old.allocation old.user (Users.save_request orm add r world) ≡ 0
    closed-adds true k was now =
        let c = fewer old.allocation old.user world.add_requests k in
        let b = bit_self old was in
        let z : is_open_of old.allocation old.user r ≡ false = ground (arith, now) in
        omega (arith, (one old.allocation old.user).0, rw (b, z) at c)
    closed-adds false k was now =
        let c = fewer old.allocation old.user world.remove_requests k in
        let b = bit_self old was in
        let z : is_open_of old.allocation old.user r ≡ false = ground (arith, now) in
        omega (arith, (one old.allocation old.user).0, rw (b, z) at c)

  put_user-OneOpen :
      (u : AllocationUser) (world : SecureWorld)
      → OneOpen world
      → adds u.allocation u.user world ≡ 0
      → OneOpen (record world { db = Users.put_user orm u world.db })
  put_user-OneOpen u world one none_open a user = (
    (one a user).0,
    (λ h.
        let (x, m, active) =
          any-eq-true (is_active_user_of a user) (Users.put_user orm u world.db).allocation_users
            h in
        elim (Member-save orm (λ (y : AllocationUser). y.pk) u world.db.allocation_users x m) [
          | inl e ↦
              let (ea, eu) = pair_of a user u (rw e at active) in rw (sym ea, sym eu) none_open
          | inr (before, other) ↦
              (one a user).1
                (any-Member (is_active_user_of a user) world.db.allocation_users x before active)
        ]),
  )

  user_pair :
      (a user : ℕ) (u : AllocationUser)
      → Users.is_user_of orm a user u ≡ true
      → (u.allocation ≡ a) × (u.user ≡ user)
  user_pair a user u h = ground (arith, h)

  set_user-OneOpen :
      (r : ManageRequest) (status : AllocationUserStatus) (world : SecureWorld)
      → OneOpen world
      → adds r.allocation r.user world ≡ 0
      → OneOpen (Users.set_user orm r status world).1
  set_user-OneOpen r status world one none_open =
      let p : AllocationUser → Bool = Users.is_user_of orm r.allocation r.user in
      elim (get-cases orm Model.allocation_user p world.db.allocation_users) [
        | inl (u, k, g) ↦
            let (ea, eu) =
              user_pair r.allocation r.user u (kept-Member p world.db.allocation_users u [] k).1 in
            rw g (put_user-OneOpen (record u { status = status }) world one (rw (ea, eu) none_open))
        | inr (inl (k, g)) ↦ rw g (
            put_user-OneOpen (Users.new_user orm r.allocation r.user status world.db) world one
              none_open)
        | inr (inr g) ↦ rw g one
      ]

  pub update-OneOpen :
      (add : Bool) (pk : ℕ) (begin : Bool) (world : SecureWorld)
      → OneOpen world
      → OneOpen (Users.update_status orm add pk begin world).1
  unfolding Users.update_status
  update-OneOpen add pk begin world one =
      elim (Result-cases (Users.find_request orm add pk world)) [
        | inr (x, f) ↦ rw (◌>>=◌, f) one
        | inl (r, f) ↦
            rw (◌>>=◌, f)
              (elim (Bool-cases (Users.is_pending r.status)) [
                | inr e ↦ rw e one
                | inl e ↦ rw e (
                    saved-OneOpen (record r { status = Users.status_after orm begin }) r
                      (refl, refl, refl, λ h. open_of_pending r.status e) world one add
                      (found_row pk r (Users.table add world) f))
              ])
      ]

  pub deny-OneOpen :
      (add : Bool) (pk now : ℕ) (world : SecureWorld)
      → OneOpen world
      → OneOpen (Users.deny_user orm add pk now world).1
  unfolding Users.deny_user
  deny-OneOpen add pk now world one = elim (Result-cases (Users.find_request orm add pk world)) [
    | inr (x, f) ↦ rw (◌>>=◌, f) one
    | inl (r, f) ↦
        rw (◌>>=◌, f)
          (elim (Bool-cases (Users.is_open r.status)) [
            | inr e ↦ rw e one
            | inl e ↦ rw e (
                saved-OneOpen
                  (record r { status = ManageStatus.denied; completion_time = some now }) r
                  (refl, refl, refl, λ h. e) world one add
                  (found_row pk r (Users.table add world) f))
          ])
  ]

  completed-OneOpen :
      (add : Bool) (now : ℕ) (completed : Bool) (pk : ℕ) (r : ManageRequest) (world : SecureWorld)
      → Users.find_request orm add pk world ≡ ok r
      → Users.is_processing r.status ≡ true
      → OneOpen world
      → OneOpen (Users.complete_found orm add now completed r world).1
  completed-OneOpen add now false pk r world f e one =
      saved-OneOpen (record r { status = ManageStatus.processing }) r
        (refl, refl, refl, λ h. open_of_processing r.status e) world one add
        (found_row pk r (Users.table add world) f)
  completed-OneOpen add now true pk r world f e one =
      let done : ManageRequest = record r {
        status = ManageStatus.complete;
        completion_time = some now;
      } in
      let was = open_of_processing r.status e in
      let same : OpensNone done r = (refl, refl, refl, λ h. was) in
      let k = found_row pk r (Users.table add world) f in
      set_user-OneOpen r (Users.user_status_after orm add) (Users.save_request orm add done world)
        (saved-OneOpen done r same world one add k)
        (closed-adds done r same world one add k was refl)

  pub complete-OneOpen :
      (add : Bool) (pk : ℕ) (completed : Bool) (now : ℕ) (world : SecureWorld)
      → OneOpen world
      → OneOpen (Users.complete_status orm add pk completed now world).1
  unfolding Users.complete_status
  complete-OneOpen add pk completed now world one =
      elim (Result-cases (Users.find_request orm add pk world)) [
        | inr (x, f) ↦ rw (◌>>=◌, f) one
        | inl (r, f) ↦
            rw (◌>>=◌, f)
              (elim (Bool-cases (Users.is_processing r.status)) [
                | inr e ↦ rw e one
                | inl e ↦ rw e (
                    atomic-holds OneOpen (Users.complete_found orm add now completed r) world one
                      (completed-OneOpen add now completed pk r world f e one))
              ])
      ]
