-- ===== src/Orm/Lookup.antt =====
-- What `get` finds after a row was saved or created.
use coldfront.Base.{
  ℕ, ◌≡◌, ◌≢◌, refl, sym, ◌∙◌, ap, Bool, true, false, List, [], ◌∷◌, ◌++◌, any, keep, replace,
  arith, ◌==◌, Model, ok, err, does_not_exist, multiple_objects_returned, ◌⊎◌, inl, inr,
}
use coldfront.Orm.{Orm, single, has_key}

pub single-eq-ok : {R : Type 0} (m : Model) (l : List R) (r : R) → single m l ≡ ok r → l ≡ r ∷ []
single-eq-ok m [] r h = cc
single-eq-ok m (x ∷ []) r h = cc
single-eq-ok m (x ∷ y ∷ l) r h = cc

keep-pass :
    {R : Type 0} (p : R → Bool) (t : List R) (r : R) (rest : List R)
    → keep p t ≡ r ∷ rest
    → p r ≡ true
keep-pass p [] r rest h = cc
keep-pass p (x ∷ t) r rest h = ground (arith, keep-pass p t r rest)

pub keep-any :
    {R : Type 0} (p : R → Bool) (t : List R) (r : R) (rest : List R)
    → keep p t ≡ r ∷ rest
    → any p t ≡ true
keep-any p [] r rest h = cc
keep-any p (x ∷ t) r rest h = ground (arith, keep-any p t r rest)

-- Saving a row leaves the rows of other keys alone.
pub keep-replace_other :
    {R : Type 0} (pk : R → ℕ) (k : ℕ) (r : R) (t : List R)
    → k ≢ pk r
    → keep (λ x. pk x == k) (replace pk r t) ≡ keep (λ x. pk x == k) t
keep-replace_other pk k r [] h = refl
keep-replace_other pk k r (x ∷ t) h = ground (arith, keep-replace_other pk k r t)

keep-replace_none :
    {R : Type 0} (pk : R → ℕ) (r : R) (t : List R)
    → keep (λ x. pk x == pk r) t ≡ []
    → keep (λ x. pk x == pk r) (replace pk r t) ≡ []
keep-replace_none pk r [] h = refl
keep-replace_none pk r (x ∷ t) h = ground (arith, keep-replace_none pk r t)

pub keep-replace_self :
    {R : Type 0} (pk : R → ℕ) (r old : R) (t : List R)
    → keep (λ x. pk x == pk r) t ≡ old ∷ []
    → keep (λ x. pk x == pk r) (replace pk r t) ≡ r ∷ []
keep-replace_self pk r old [] h = cc
keep-replace_self pk r old (x ∷ t) h =
    ground (arith, keep-replace_self pk r old t, keep-replace_none pk r t)

pub keep-append_new :
    {R : Type 0} (pk : R → ℕ) (r : R) (t : List R)
    → has_key pk (pk r) t ≡ false
    → keep (λ x. pk x == pk r) (t ++ r ∷ []) ≡ r ∷ []
keep-append_new pk r [] h = ground arith
keep-append_new pk r (x ∷ t) h = ground (arith, keep-append_new pk r t)

pub keep-append_by :
    {R : Type 0} (p : R → Bool) (r : R) (t : List R)
    → keep p t ≡ []
    → p r ≡ true
    → keep p (t ++ r ∷ []) ≡ r ∷ []
keep-append_by p r [] h e = ground (arith, e)
keep-append_by p r (x ∷ t) h e = ground (arith, keep-append_by p r t)

-- Without a row of its key a row changes nothing.
pub replace_none :
    {R : Type 0} (pk : R → ℕ) (r : R) (t : List R)
    → keep (λ x. pk x == pk r) t ≡ []
    → replace pk r t ≡ t
replace_none pk r [] h = refl
replace_none pk r (x ∷ t) h = ground (arith, replace_none pk r t)

pub keep-replace_by :
    {R : Type 0} (pk : R → ℕ) (p : R → Bool) (r old : R) (t : List R)
    → keep p t ≡ old ∷ []
    → keep (λ x. pk x == pk r) t ≡ old ∷ []
    → p r ≡ true
    → keep p (replace pk r t) ≡ r ∷ []
keep-replace_by pk p r old [] h k e = cc
keep-replace_by pk p r old (x ∷ t) h k e = ground (
  arith,
  keep-replace_by pk p r old t,
  replace_none pk r t,
  keep-pass p t old [],
  keep-pass (λ y. pk y == pk r) t old [],
  e,
)

module _ (orm : Orm) {R : Type 0} (m : Model) where
  -- The row that is found passes the test.
  pub get-pass : (p : R → Bool) (t : List R) (r : R) → orm.get m p t ≡ ok r → p r ≡ true
  get-pass p t r h = keep-pass p t r [] (single-eq-ok m _ r (rw orm.get_lem at h))

  -- The rows that pass the test of a lookup that succeeds are that row alone.
  pub get-keep : (p : R → Bool) (t : List R) (r : R) → orm.get m p t ≡ ok r → keep p t ≡ r ∷ []
  get-keep p t r h = single-eq-ok m _ r (rw orm.get_lem at h)

  pub get-any : (p : R → Bool) (t : List R) (r : R) → orm.get m p t ≡ ok r → any p t ≡ true
  get-any p t r h = keep-any p t r [] (single-eq-ok m _ r (rw orm.get_lem at h))

  -- A row that was saved is found under its key.
  pub get-save_self :
      (pk : R → ℕ) (r old : R) (t : List R)
      → orm.get m (λ x. pk x == pk r) t ≡ ok old
      → orm.get m (λ x. pk x == pk r) (orm.save pk r t) ≡ ok r
  get-save_self pk r old t h =
      let found : keep (λ x. pk x == pk r) t ≡ old ∷ [] =
        single-eq-ok m _ old (rw orm.get_lem at h) in
      rw (orm.save_lem pk r t (get-any _ t old h))
        (orm.get_lem m _ (replace pk r t) ∙ ap (single m) (keep-replace_self pk r old t found))

  -- A row that is new is found under its key, once it is saved.
  pub get-save_new :
      (pk : R → ℕ) (r : R) (t : List R)
      → has_key pk (pk r) t ≡ false
      → orm.get m (λ x. pk x == pk r) (orm.save pk r t) ≡ ok r
  get-save_new pk r t h =
      rw (orm.save_new pk r t h) (orm.get_lem m _ _ ∙ ap (single m) (keep-append_new pk r t h))

  -- The rows of other keys are found as before.
  pub get-save_other :
      (pk : R → ℕ) (k : ℕ) (r : R) (t : List R)
      → k ≢ pk r
      → has_key pk (pk r) t ≡ true
      → orm.get m (λ x. pk x == k) (orm.save pk r t) ≡ orm.get m (λ x. pk x == k) t
  get-save_other pk k r t h e = rw (orm.save_lem pk r t e) (
      orm.get_lem m _ (replace pk r t)
      ∙ ap (single m) (keep-replace_other pk k r t h)
      ∙ sym (orm.get_lem m _ t))

  single_cases :
      (l : List R)
      → ((r : R) × (l ≡ r ∷ []) × (single m l ≡ ok r))
        ⊎ ((l ≡ []) × (single m l ≡ err (does_not_exist m)))
        ⊎ (single m l ≡ err (multiple_objects_returned m))
  single_cases [] = inr (inl (refl, refl))
  single_cases (x ∷ []) = inl (x, refl, refl)
  single_cases (x ∷ y ∷ l) = inr (inr refl)

  -- A lookup finds one row, none or several.
  pub get-cases :
      (p : R → Bool) (t : List R)
      → ((r : R) × (keep p t ≡ r ∷ []) × (orm.get m p t ≡ ok r))
        ⊎ ((keep p t ≡ []) × (orm.get m p t ≡ err (does_not_exist m)))
        ⊎ (orm.get m p t ≡ err (multiple_objects_returned m))
  get-cases p t = rw orm.get_lem (single_cases (keep p t))

  -- A saved row is found by any test that it passes, if that test had found the row of its key.
  pub get-save_by :
      (pk : R → ℕ) (p : R → Bool) (r old : R) (t : List R)
      → keep p t ≡ old ∷ []
      → keep (λ x. pk x == pk r) t ≡ old ∷ []
      → p r ≡ true
      → orm.get m p (orm.save pk r t) ≡ ok r
  get-save_by pk p r old t h k e =
      rw (orm.save_lem pk r t (keep-any _ t old [] k))
        (orm.get_lem m p (replace pk r t) ∙ ap (single m) (keep-replace_by pk p r old t h k e))

  -- A row of a new key is found by a test that it alone passes.
  pub get-new_by :
      (p : R → Bool) (r : R) (t : List R)
      → keep p t ≡ []
      → p r ≡ true
      → orm.get m p (t ++ r ∷ []) ≡ ok r
  get-new_by p r t h e = orm.get_lem m p (t ++ r ∷ []) ∙ ap (single m) (keep-append_by p r t h e)
