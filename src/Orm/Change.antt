-- ===== src/Orm/Change.antt =====
-- What saving one row does to a table whose rows have keys of their own, for any test that the row
-- alone passes: it takes the place of the row that passed before, and all others stay.
use coldfront.Base.{
  ℕ, ◌≡◌, ◌≢◌, ◌==◌, ==_iff, refl, sym, ◌∙◌, inl, inr, ◌⊎◌, Bool, true, false, List, [], ◌∷◌, ◌++◌,
  any, keep, replace, Member, arith, Bool-cases,
}
use coldfront.Orm.{Orm, has_key}
use coldfront.Orm.Lookup.{
  keep-replace_self, keep-replace_other, keep-replace_by, keep-append_new, keep-append_by, keep-any,
}
use coldfront.Orm.Keys.{append-Member, Keyed, kept-Member, Member-keep, Member-replace}

module _ {R : Type 0} where
  Member-single : (x t : R) → Member x (t ∷ []) → x ≡ t
  Member-single x t (inl e) = e
  Member-single x t (inr z) = absurd z

  Member-append : (r : R) (ts : List R) (x : R) → Member x ts → Member x (ts ++ r ∷ [])
  Member-append r [] x m = absurd m
  Member-append r (t ∷ ts) x (inl e) = inl e
  Member-append r (t ∷ ts) x (inr m) = inr (Member-append r ts x m)

  Member-append_last : (r : R) (ts : List R) → Member r (ts ++ r ∷ [])
  Member-append_last r [] = inl refl
  Member-append_last r (t ∷ ts) = inr (Member-append_last r ts)

  Member-replace_other :
      (pk : R → ℕ) (r : R) (ts : List R) (x : R)
      → Member x ts
      → pk x ≢ pk r
      → Member x (replace pk r ts)
  Member-replace_other pk r [] x m n = absurd m
  Member-replace_other pk r (t ∷ ts) x (inr m) n = inr (Member-replace_other pk r ts x m n)
  Member-replace_other pk r (t ∷ ts) x (inl e) n = elim (Bool-cases (pk t == pk r)) [
    | inl q ↦ absurd (n (rw e ((==_iff (pk t) (pk r)).0 q)))
    | inr q ↦ rw q (inl e)
  ]

  pub any-Member : (p : R → Bool) (ts : List R) (x : R) → Member x ts → p x ≡ true → any p ts ≡ true
  any-Member p [] x m h = absurd m
  any-Member p (t ∷ ts) x (inl e) h = rw (sym e) (rw h refl)
  any-Member p (t ∷ ts) x (inr m) h = ground (arith, any-Member p ts x m h)

  pub none-Member :
      (p : R → Bool) (ts : List R) → ((x : R) → Member x ts → p x ≡ false) → any p ts ≡ false
  none-Member p [] h = refl
  none-Member p (t ∷ ts) h = rw (h t (inl refl)) (none-Member p ts (λ x m. h x (inr m)))

  keep-append_other :
      (p : R → Bool) (r : R) (ts : List R) → p r ≡ false → keep p (ts ++ r ∷ []) ≡ keep p ts
  keep-append_other p r [] h = rw h refl
  keep-append_other p r (t ∷ ts) h = ground (arith, keep-append_other p r ts h)

  -- Rows of one key are one row.
  pub Keyed-same :
      (pk : R → ℕ) (ts : List R) (x y : R)
      → Keyed pk ts
      → Member x ts
      → Member y ts
      → pk x ≡ pk y
      → x ≡ y
  Keyed-same pk ts x y keyed mx my e =
      let both : Member x (keep (λ z. pk z == pk y) ts) =
        Member-keep (λ z. pk z == pk y) ts x mx ((==_iff (pk x) (pk y)).1 e) in
      Member-single x y (rw (keyed y my) at both)

  Keyed-replace :
      (pk : R → ℕ) (r old : R) (ts : List R)
      → Keyed pk ts
      → Member old ts
      → pk r ≡ pk old
      → Keyed pk (replace pk r ts)
  Keyed-replace pk r old ts keyed m e x k = elim (Member-replace pk r ts x k) [
    | inl same ↦ rw same (keep-replace_self pk r old ts (rw e (keyed old m)))
    | inr (mx, n) ↦ keep-replace_other pk (pk x) r ts n ∙ keyed x mx
  ]

  has_key-Member :
      (pk : R → ℕ) (ts : List R) (x r : R)
      → Member x ts
      → has_key pk (pk r) ts ≡ false
      → (pk r == pk x) ≡ false
  has_key-Member pk ts x r m h = elim (Bool-cases (pk r == pk x)) [
    | inr q ↦ q
    | inl q ↦
        let e : pk x ≡ pk r = sym ((==_iff (pk r) (pk x)).0 q) in
        cc (any-Member (λ y. pk y == pk r) ts x m ((==_iff (pk x) (pk r)).1 e), h)
  ]

  Keyed-append :
      (pk : R → ℕ) (r : R) (ts : List R)
      → Keyed pk ts
      → has_key pk (pk r) ts ≡ false
      → Keyed pk (ts ++ r ∷ [])
  Keyed-append pk r ts keyed h x k = elim (append-Member r ts x k) [
    | inl same ↦ rw same (keep-append_new pk r ts h)
    | inr mx ↦
        keep-append_other (λ y. pk y == pk x) r ts (has_key-Member pk ts x r mx h) ∙ keyed x mx
  ]

  -- The row alone passes the test now, and the rows that fail it are those that failed it before.
  abbrev pub Changed : (R → ℕ) → (R → Bool) → R → List R → List R → Type 0
  Changed pk p r ts after =
      Member r after
      × (keep p after ≡ r ∷ [])
      × ((x : R) → Member x after → (x ≡ r) ⊎ (Member x ts × (p x ≡ false)))
      × ((x : R) → Member x ts → p x ≡ false → Member x after)
      × Keyed pk after

  module _ (orm : Orm) (pk : R → ℕ) (p : R → Bool) (r : R) (ts : List R) (keyed : Keyed pk ts)
      (pass : p r ≡ true) where
    -- The row that alone passed is saved with new values.
    pub save-Changed :
        (old : R) → keep p ts ≡ old ∷ [] → pk r ≡ pk old → Changed pk p r ts (orm.save pk r ts)
    save-Changed old k e =
        let (m, q) = kept-Member p ts old [] k in
        let own : keep (λ x. pk x == pk r) ts ≡ old ∷ [] = rw e (keyed old m) in
        let found = keep-any (λ x. pk x == pk r) ts old [] own in
        rw (orm.save_lem pk r ts found) (
          (kept-Member (λ x. pk x == pk r) (replace pk r ts) r []
              (keep-replace_self pk r old ts own)).0,
          keep-replace_by pk p r old ts k own pass,
          (λ x mx. elim (Member-replace pk r ts x mx) [
            | inl same ↦ inl same
            | inr (before, other) ↦ elim (Bool-cases (p x)) [
              | inr fails ↦ inr (before, fails)
              | inl passes ↦
                  let kept = Member-keep p ts x before passes in
                  let x_old = Member-single x old (rw k at kept) in
                  absurd (other (rw x_old (sym e)))
            ]
          ]),
          (λ x mx fails. Member-replace_other pk r ts x mx (λ same.
              let x_old = Keyed-same pk ts x old keyed mx m (same ∙ e) in cc (x_old, q, fails))),
          Keyed-replace pk r old ts keyed m e,
        )

    -- A row with a new key is saved, where none passed.
    pub new-Changed :
        keep p ts ≡ [] → has_key pk (pk r) ts ≡ false → Changed pk p r ts (orm.save pk r ts)
    new-Changed k fresh = rw (orm.save_new pk r ts fresh) (
      Member-append_last r ts,
      keep-append_by p r ts k pass,
      (λ x mx. elim (append-Member r ts x mx) [
        | inl same ↦ inl same
        | inr before ↦ elim (Bool-cases (p x)) [
          | inr fails ↦ inr (before, fails)
          | inl passes ↦ let kept = Member-keep p ts x before passes in absurd (rw k at kept)
        ]
      ]),
      (λ x mx fails. Member-append r ts x mx),
      Keyed-append pk r ts keyed fresh,
    )

  -- Two saves of the row that passes are as the last one.
  pub Changed-trans :
      (pk : R → ℕ) (p : R → Bool) (r s : R) (ts us vs : List R)
      → p r ≡ true
      → Changed pk p r ts us
      → Changed pk p s us vs
      → Changed pk p s ts vs
  Changed-trans pk p r s ts us vs pr (m1, k1, from1, to1, keyed1) (m2, k2, from2, to2, keyed2) = (
    m2,
    k2,
    (λ x mx. elim (from2 x mx) [
      | inl e ↦ inl e
      | inr (mu, fails) ↦ elim (from1 x mu) [ inr old ↦ inr old | inl e ↦ cc (e, pr, fails) ]
    ]),
    (λ x mx fails. to2 x (to1 x mx fails) fails),
    keyed2,
  )
