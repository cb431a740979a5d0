-- ===== src/Secure/Views.antt =====
-- Sequences of the views of core/allocation/views_/secure_dir_views/user_management/: the life of requests
-- to add users to secure directories and to remove them.
use coldfront.Base.{
  ℕ, ◌≡◌, refl, ◌∙◌, Bool, true, false, List, [], ◌∷◌, keep, Action, asks, modify, bind-holds,
  atomic-holds, ◌>>=◌, Result-cases, Bool-cases, if◌then◌else◌, inl, inr,
}
use coldfront.Orm.{Orm}
use coldfront.Tables.{Allocation, AllocationAttribute}
use coldfront.World.{User}
use coldfront.Secure.{SecureWorld, ManageRequest}
use coldfront.Secure.Users
use coldfront.Secure.OneOpen.{OneOpen}
use coldfront.Secure.Turns.{Distinct, post-OneOpen}
use coldfront.Secure.Finished.{update-OneOpen, complete-OneOpen, deny-OneOpen}

-- A view of the requests, with what was entered there.
pub data View : Type 0 where
  post : Bool → Allocation → (User → Bool) → View
  update : Bool → ℕ → Bool → View
  complete : Bool → ℕ → Bool → ℕ → View
  deny : Bool → ℕ → ℕ → View

module _ (orm : Orm) where
  abbrev pub view_action : View → Action SecureWorld (Unit {0})
  view_action (post add a selected) = Users.post_requests orm add a selected
  view_action (update add pk begin) = Users.update_status orm add pk begin
  view_action (complete add pk completed now) = Users.complete_status orm add pk completed now
  view_action (deny add pk now) = Users.deny_user orm add pk now

  unfoldable pub view_all : List View → SecureWorld → SecureWorld
  view_all [] world = world
  view_all (v ∷ vs) world = view_all vs (view_action v world).1

  view-OneOpen :
      (v : View) (world : SecureWorld)
      → Distinct world.users
      → OneOpen world
      → OneOpen (view_action v world).1
  view-OneOpen (post add a selected) world d one = post-OneOpen orm add a selected world d one
  view-OneOpen (update add pk begin) world d one = update-OneOpen orm add pk begin world one
  view-OneOpen (complete add pk completed now) world d one =
      complete-OneOpen orm add pk completed now world one
  view-OneOpen (deny add pk now) world d one = deny-OneOpen orm add pk now world one

  -- Requests change no user.
  abbrev SameUsers : SecureWorld → SecureWorld → Type 0
  SameUsers world after = after.users ≡ world.users

  saved-users :
      (add : Bool) (r : ManageRequest) (world : SecureWorld)
      → SameUsers world (Users.save_request orm add r world)
  saved-users true r world = refl
  saved-users false r world = refl

  asked-users :
      (add : Bool) (a : Allocation) (u : ℕ) (world : SecureWorld)
      → SameUsers world (Users.request_user orm add a u world).1
  unfolding Users.request_user
  asked-users add a u world =
      let path : Action SecureWorld AllocationAttribute = asks (λ w. Users.get_path orm a w.db) in
      atomic-holds (SameUsers world) (path >>= Users.add_request orm add a u) world refl (
        bind-holds (SameUsers world) path world (Users.add_request orm add a u) refl
          (λ t. saved-users add _ world))

  all_asked-users :
      (add : Bool) (a : Allocation) (us : List User) (world : SecureWorld)
      → SameUsers world (Users.request_users orm add a us world).1
  all_asked-users add a [] world = refl
  all_asked-users add a (u ∷ us) world =
      let first = asked-users add a u.pk world in
      bind-holds (SameUsers world) (Users.request_user orm add a u.pk) world
        (λ t. Users.request_users orm add a us) first (λ t. all_asked-users add a us _ ∙ first)

  kept_if :
      (b : Bool) (add : Bool) (r : ManageRequest) (world : SecureWorld)
      → SameUsers world (if b then Users.save_request orm add r world else world)
  kept_if true add r world = saved-users add r world
  kept_if false add r world = refl

  completed-users :
      (add : Bool) (now : ℕ) (completed : Bool) (r : ManageRequest) (world : SecureWorld)
      → SameUsers world (Users.complete_found orm add now completed r world).1
  completed-users true now false r world = refl
  completed-users false now false r world = refl
  completed-users true now true r world = refl
  completed-users false now true r world = refl

  view-users : (v : View) (world : SecureWorld) → SameUsers world (view_action v world).1
  unfolding Users.post_requests Users.update_status Users.complete_status Users.deny_user
  view-users (post add a selected) world =
      atomic-holds (SameUsers world)
        (Users.request_users orm add a (keep selected (Users.manageable orm add a world))) world
        refl (all_asked-users add a (keep selected (Users.manageable orm add a world)) world)
  view-users (update add pk begin) world =
      bind-holds (SameUsers world) (asks (Users.find_request orm add pk)) world
        (λ r. modify (Users.update_found orm add begin r)) refl
        (λ r. kept_if (Users.is_pending r.status) add _ world)
  view-users (complete add pk completed now) world =
      elim (Result-cases (Users.find_request orm add pk world)) [
        | inr (x, f) ↦ rw (◌>>=◌, f) refl
        | inl (r, f) ↦
            rw (◌>>=◌, f)
              (elim (Bool-cases (Users.is_processing r.status)) [
                | inr e ↦ rw e refl
                | inl e ↦ rw e (
                    atomic-holds (SameUsers world) (Users.complete_found orm add now completed r)
                      world refl (completed-users add now completed r world))
              ])
      ]
  view-users (deny add pk now) world =
      bind-holds (SameUsers world) (asks (Users.find_request orm add pk)) world
        (λ r. modify (Users.deny_found orm add now r)) refl
        (λ r. kept_if (Users.is_open r.status) add _ world)

  -- Whatever is asked for, updated, completed and denied through the views, in any order: if each
  -- user has one open request for a directory at most, and none to be added to one that the user is
  -- in, it stays so, where no two users share a key.
  pub view_all-OneOpen :
      (vs : List View) (world : SecureWorld)
      → Distinct world.users
      → OneOpen world
      → OneOpen (view_all vs world)
  unfolding view_all
  view_all-OneOpen [] world d one = one
  view_all-OneOpen (v ∷ vs) world d one =
      view_all-OneOpen vs (view_action v world).1 (rw (view-users v world) d)
        (view-OneOpen v world d one)
