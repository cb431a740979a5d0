-- ===== src/Orm.antt =====
-- The database layer, which is Django's and not part of the repository: a table is the list of its
-- rows, and the operations that the program calls on it are a parameter with the laws that
-- Django's documentation of QuerySet and Model.save gives.
pub mod Memory
pub mod Lookup
pub mod Keys
pub mod Change
use coldfront.Base.{
  ℕ, ◌≡◌, Bool, true, false, List, [], ◌∷◌, ◌++◌, any, keep, replace, ◌==◌, Model, does_not_exist,
  multiple_objects_returned, Result, ok, err,
}

-- What `get` returns for the rows that match.
abbrev pub single : {R : Type 0} → Model → List R → Result R
single m [] = err (does_not_exist m)
single m (r ∷ []) = ok r
single m (r ∷ s ∷ rs) = err (multiple_objects_returned m)

-- A primary key is in the table.
abbrev pub has_key : {R : Type 0} → (R → ℕ) → ℕ → List R → Bool
has_key pk k t = any (λ r. pk r == k) t

pub record Orm : Type 1 where
  -- `objects.filter(...)`, `objects.get(...)`
  pub filter : {R : Type 0} → (R → Bool) → List R → List R
  pub get : {R : Type 0} → Model → (R → Bool) → List R → Result R
  -- `instance.save()`: the row of that key changes, or there is a new row
  pub save : {R : Type 0} → (R → ℕ) → R → List R → List R
  -- the primary key that a row which is created next gets
  pub next_key : {R : Type 0} → (R → ℕ) → List R → ℕ
  pub filter_lem : {R : Type 0} (p : R → Bool) (t : List R) → filter p t ≡ keep p t
  pub get_lem :
      {R : Type 0} (m : Model) (p : R → Bool) (t : List R) → get m p t ≡ single m (keep p t)
  pub save_lem :
      {R : Type 0} (pk : R → ℕ) (r : R) (t : List R)
      → has_key pk (pk r) t ≡ true
      → save pk r t ≡ replace pk r t
  pub save_new :
      {R : Type 0} (pk : R → ℕ) (r : R) (t : List R)
      → has_key pk (pk r) t ≡ false
      → save pk r t ≡ t ++ r ∷ []
  pub next_key-fresh : {R : Type 0} (pk : R → ℕ) (t : List R) → has_key pk (next_key pk t) t ≡ false

-- `objects.create(...)`: the row and the table with it.
abbrev pub create : Orm → {R : Type 0} → (R → ℕ) → (ℕ → R) → List R → R × List R
create orm pk f t = let r = f (orm.next_key pk t) in (r, t ++ r ∷ [])
