-- ===== src/Storage/Orders.antt =====
-- `QuerySet.order_by(...).first()`, which is the database's and not part of the repository.
use coldfront.Base.{
  Option-cases, refl, inl, inr, ◌≢◌, if◌then◌else◌, arith, Bool, true, List, ◌∷◌, [], Member, ◌≡◌,
  ◌⊎◌, Option, none, some,
}

-- `le a b` says that `a` does not come after `b`.
abbrev pub IsOrder : {R : Type 0} → (R → R → Bool) → Type 0
IsOrder {R} le =
    ((a b : R) → (le a b ≡ true) ⊎ (le b a ≡ true))
    × ((a b c : R) → le a b ≡ true → le b c ≡ true → le a c ≡ true)

pub record OrderBy : Type 1 where
  pub first : {R : Type 0} → (R → R → Bool) → List R → Option R
  pub first_none : {R : Type 0} (le : R → R → Bool) (t : List R) → first le t ≡ none → t ≡ []
  pub first_member :
      {R : Type 0} (le : R → R → Bool) (t : List R) (r : R) → first le t ≡ some r → Member r t
  pub first_least :
      {R : Type 0} (le : R → R → Bool) (t : List R) (r s : R)
      → IsOrder le
      → first le t ≡ some r
      → Member s t
      → le r s ≡ true

-- A scan from the end keeps the first of the rows that come before no other: it shows that the
-- laws can hold.
abbrev pub keep_first : {R : Type 0} → (R → R → Bool) → R → Option R → Option R
keep_first le x none = some x
keep_first le x (some y) = if le x y then some x else some y

abbrev pub scan : {R : Type 0} → (R → R → Bool) → List R → Option R
scan le [] = none
scan le (x ∷ xs) = keep_first le x (scan le xs)

keep_first-some : {R : Type 0} (le : R → R → Bool) (x : R) (o : Option R) → keep_first le x o ≢ none
keep_first-some le x none h = cc
keep_first-some le x (some y) h = ground (arith, h)

pub scan-none : {R : Type 0} (le : R → R → Bool) (t : List R) → scan le t ≡ none → t ≡ []
scan-none le [] h = refl
scan-none le (x ∷ xs) h = absurd (keep_first-some le x (scan le xs) h)

pub scan-Member :
    {R : Type 0} (le : R → R → Bool) (t : List R) (r : R) → scan le t ≡ some r → Member r t
scan-Member le [] r h = cc
scan-Member le (x ∷ xs) r h = ground (arith, scan-Member le xs r)

pub scan_least :
    {R : Type 0} (le : R → R → Bool) (t : List R) (r s : R)
    → IsOrder le
    → scan le t ≡ some r
    → Member s t
    → le r s ≡ true
scan_least le [] r s o h m = absurd m
scan_least le (x ∷ xs) r s o h m = elim (Option-cases (scan le xs)) [
  | inl e ↦ ground (arith, h, m, e, scan-none le xs e, o.0 r r)
  | inr (y, e) ↦ ground (arith, h, m, e, o.0 x y, o.0 x x, o.1 x y s, scan_least le xs y s o e)
]

abbrev pub by_scan : OrderBy
by_scan = record {
  first = scan;
  first_none = scan-none;
  first_member = scan-Member;
  first_least = scan_least;
}
