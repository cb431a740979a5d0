-- ===== src/Orm/Keys.antt =====
-- The rows of a table, tables in which no two rows share a primary key, and what `get` finds after a row was saved there.
use coldfront.Base.{
  ℕ, ◌≡◌, ◌==◌, refl, sym, ◌≢◌, ap, ◌∙◌, ◌⊎◌, false, ==_iff, Bool-cases, replace, inl, inr, Bool,
  true, List, [], ◌∷◌, ◌++◌, keep, any, count, ◌+◌, if◌then◌else◌, Member, arith, Model, ok,
}
use coldfront.Orm.{Orm, has_key}
use coldfront.Orm.Lookup.{replace_none, get-keep, get-save_by}

-- No two rows share a primary key.
abbrev pub Keyed : {R : Type 0} → (R → ℕ) → List R → Type 0
Keyed pk ts = (t : _) → Member t ts → keep (λ x. pk x == pk t) ts ≡ t ∷ []

pub kept-Member :
    {R : Type 0} (p : R → Bool) (ts : List R) (t : R) (rest : List R)
    → keep p ts ≡ t ∷ rest
    → Member t ts × (p t ≡ true)
kept-Member p [] t rest h = cc
kept-Member p (x ∷ ts) t rest h = ground (arith, kept-Member p ts t rest)

-- Where every row fails a test, none is kept.
pub keep-none :
    {R : Type 0} (p : R → Bool) (ts : List R)
    → ((x : R) → Member x ts → p x ≡ false)
    → keep p ts ≡ []
keep-none p [] h = refl
keep-none p (t ∷ ts) h = rw (h t (inl refl)) (keep-none p ts (λ x m. h x (inr m)))

pub Member-keep :
    {R : Type 0} (p : R → Bool) (ts : List R) (x : R)
    → Member x ts
    → p x ≡ true
    → Member x (keep p ts)
Member-keep p [] x m h = absurd m
Member-keep p (t ∷ ts) x (inl e) h = rw (sym e) (rw h (inl refl))
Member-keep p (t ∷ ts) x (inr m) h = elim (Bool-cases (p t)) [
  | inl q ↦ rw q (inr (Member-keep p ts x m h))
  | inr q ↦ rw q (Member-keep p ts x m h)
]

-- A row of a table after a save is the saved one, or was there before under another key.
pub Member-replace :
    {R : Type 0} (pk : R → ℕ) (r : R) (ts : List R) (x : R)
    → Member x (replace pk r ts)
    → (x ≡ r) ⊎ (Member x ts × (pk x ≢ pk r))
Member-replace pk r [] x m = absurd m
Member-replace pk r (t ∷ ts) x (inr m) = elim (Member-replace pk r ts x m) [
  | inl e ↦ inl e
  | inr (k, n) ↦ inr (inr k, n)
]
Member-replace pk r (t ∷ ts) x (inl e) = elim (Bool-cases (pk t == pk r)) [
  | inl q ↦ inl (rw q at e)
  | inr q ↦
      let same : x ≡ t = rw q at e in
      inr (inl same, rw same (λ k. cc (q, (==_iff (pk t) (pk r)).1 k)))
]

-- A row that was found, changed so that it is found still, and saved, is what is found then.
pub get-save_kept :
    (orm : Orm) {R : Type 0} (m : Model) (pk : R → ℕ) (p : R → Bool) (r old : R) (t : List R)
    → Keyed pk t
    → orm.get m p t ≡ ok old
    → pk r ≡ pk old
    → p r ≡ true
    → orm.get m p (orm.save pk r t) ≡ ok r
get-save_kept orm m pk p r old t keyed h e pass =
    let k = get-keep orm m p t old h in
    get-save_by orm m pk p r old t k (rw e (keyed old (kept-Member p t old [] k).0)) pass

pub append-Member :
    {R : Type 0} (r : R) (ts : List R) (x : R) → Member x (ts ++ r ∷ []) → (x ≡ r) ⊎ Member x ts
append-Member r [] x (inl e) = inl e
append-Member r [] x (inr m) = absurd m
append-Member r (t ∷ ts) x (inl e) = inr (inl e)
append-Member r (t ∷ ts) x (inr m) = elim (append-Member r ts x m) [
  | inl e ↦ inl e
  | inr k ↦ inr (inr k)
]

pub no_key-Member :
    {R : Type 0} (pk : R → ℕ) (r : R) (ts : List R) (x : R)
    → has_key pk (pk r) ts ≡ false
    → Member x ts
    → pk x ≢ pk r
no_key-Member pk r [] x h m = absurd m
no_key-Member pk r (t ∷ ts) x h (inl e) = rw e (λ k. cc (h, (==_iff (pk t) (pk r)).1 k))
no_key-Member pk r (t ∷ ts) x h (inr m) = no_key-Member pk r ts x (ground (arith, h)) m

-- A row of a table after a save is the saved one, or was there before under another key.
pub Member-save :
    (orm : Orm) {R : Type 0} (pk : R → ℕ) (r : R) (ts : List R) (x : R)
    → Member x (orm.save pk r ts)
    → (x ≡ r) ⊎ (Member x ts × (pk x ≢ pk r))
Member-save orm pk r ts x m = elim (Bool-cases (has_key pk (pk r) ts)) [
  | inl h ↦ Member-replace pk r ts x (rw (orm.save_lem pk r ts h) at m)
  | inr h ↦ elim (append-Member r ts x (rw (orm.save_new pk r ts h) at m)) [
    | inl e ↦ inl e
    | inr before ↦ inr (before, no_key-Member pk r ts x h before)
  ]
]

abbrev pub bit : Bool → ℕ
bit b = if b then 1 else 0

-- Replacing one row changes a count by that row alone.
pub count-replace :
    {R : Type 0} (pk : R → ℕ) (p : R → Bool) (r old : R) (ts : List R)
    → keep (λ x. pk x == pk r) ts ≡ old ∷ []
    → count p (replace pk r ts) + bit (p old) ≡ count p ts + bit (p r)
count-replace pk p r old [] k = cc
count-replace pk p r old (x ∷ ts) k = elim (Bool-cases (pk x == pk r)) [
  | inl q ↦ ground (arith, q, k, replace_none pk r ts)
  | inr q ↦ ground (arith, q, k, count-replace pk p r old ts)
]

pub count-append :
    {R : Type 0} (p : R → Bool) (r : R) (ts : List R)
    → count p (ts ++ r ∷ []) ≡ count p ts + bit (p r)
count-append p r [] = omega arith
count-append p r (t ∷ ts) = omega (arith, count-append p r ts)

pub any-eq-true :
    {R : Type 0} (p : R → Bool) (ts : List R)
    → any p ts ≡ true
    → (x : R) × Member x ts × (p x ≡ true)
any-eq-true p [] h = cc
any-eq-true p (t ∷ ts) h = elim (Bool-cases (p t)) [
  | inl e ↦ (t, inl refl, e)
  | inr e ↦ let (x, m, q) = any-eq-true p ts (rw e at h) in (x, inr m, q)
]

pub keep-Member :
    {R : Type 0} (p : R → Bool) (ts : List R) (x : R)
    → Member x (keep p ts)
    → Member x ts × (p x ≡ true)
keep-Member p [] x m = absurd m
keep-Member p (t ∷ ts) x m = elim (Bool-cases (p t)) [
  | inr e ↦ let (k, q) = keep-Member p ts x (rw e at m) in (inr k, q)
  | inl e ↦ elim (let m' : Member x (t ∷ keep p ts) = rw e at m in m') [
    | inl same ↦ (inl same, rw same e)
    | inr rest ↦ let (k, q) = keep-Member p ts x rest in (inr k, q)
  ]
]

Member-replaced :
    {R : Type 0} (pk : R → ℕ) (r : R) (ts : List R)
    → has_key pk (pk r) ts ≡ true
    → Member r (replace pk r ts)
Member-replaced pk r [] h = cc
Member-replaced pk r (t ∷ ts) h = elim (Bool-cases (pk t == pk r)) [
  | inl e ↦ rw e (inl refl)
  | inr e ↦ inr (Member-replaced pk r ts (rw e at h))
]

pub last-Member : {R : Type 0} (r : R) (ts : List R) → Member r (ts ++ r ∷ [])
last-Member r [] = inl refl
last-Member r (t ∷ ts) = inr (last-Member r ts)

-- A row that was saved is in the table.
pub saved-Member :
    (orm : Orm) {R : Type 0} (pk : R → ℕ) (r : R) (ts : List R) → Member r (orm.save pk r ts)
saved-Member orm pk r ts = elim (Bool-cases (has_key pk (pk r) ts)) [
  | inl h ↦ rw (orm.save_lem pk r ts h) (Member-replaced pk r ts h)
  | inr h ↦ rw (orm.save_new pk r ts h) (last-Member r ts)
]

pub front-Member : {R : Type 0} (r x : R) (ts : List R) → Member x ts → Member x (ts ++ r ∷ [])
front-Member r x [] m = absurd m
front-Member r x (t ∷ ts) (inl e) = inl e
front-Member r x (t ∷ ts) (inr m) = inr (front-Member r x ts m)

kept_replace-Member :
    {R : Type 0} (pk : R → ℕ) (r x : R) (ts : List R)
    → Member x ts
    → pk x ≢ pk r
    → Member x (replace pk r ts)
kept_replace-Member pk r x [] m other = absurd m
kept_replace-Member pk r x (t ∷ ts) (inr m) other = inr (kept_replace-Member pk r x ts m other)
kept_replace-Member pk r x (t ∷ ts) (inl e) other = elim (Bool-cases (pk t == pk r)) [
  | inl q ↦ absurd (other (ap pk e ∙ (==_iff (pk t) (pk r)).0 q))
  | inr q ↦ rw q (inl e)
]

-- A row stays in the table when one of another key is saved.
pub kept_save-Member :
    (orm : Orm) {R : Type 0} (pk : R → ℕ) (r x : R) (ts : List R)
    → Member x ts
    → pk x ≢ pk r
    → Member x (orm.save pk r ts)
kept_save-Member orm pk r x ts m other = elim (Bool-cases (has_key pk (pk r) ts)) [
  | inl h ↦ rw (orm.save_lem pk r ts h) (kept_replace-Member pk r x ts m other)
  | inr h ↦ rw (orm.save_new pk r ts h) (front-Member r x ts m)
]
