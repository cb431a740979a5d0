-- ===== src/Jobs/Spent.antt =====
-- The total cost of the jobs that a usage counts, and a usage that equals it.
use coldfront.Base.{
  ℕ, ◌==◌, ◌≡◌, ◌≢◌, refl, sym, ◌∙◌, ap, inl, inr, Bool-cases, Bool, true, false, List, [], ◌∷◌,
  ◌++◌, keep, replace, arith, if◌then◌else◌,
}
use coldfront.Base.Int.{ℤ, pos, ◌+ℤ◌, ◌≤ℤ◌, int_laws, +ℤ_assoc, +ℤ_swap, +ℤ_under}
use coldfront.Tables.{Job}

abbrev pub part : (Job → Bool) → Job → ℤ
part counts j = if counts j then j.amount else pos 0

-- The sum of the amounts of the jobs that count.
abbrev pub spent : (Job → Bool) → List Job → ℤ
spent counts [] = pos 0
spent counts (j ∷ js) = part counts j +ℤ spent counts js

abbrev pub Nonneg : List Job → Type 0
Nonneg [] = Unit
Nonneg (j ∷ js) = (pos 0 ≤ℤ j.amount) × Nonneg js

abbrev pub id_of : Job → ℕ
id_of j = j.jobslurmid

module _ (counts : Job → Bool) where
  pub spent-append :
      (js : List Job) (j : Job) → spent counts (js ++ j ∷ []) ≡ spent counts js +ℤ part counts j
  spent-append [] j = omega int_laws
  spent-append (x ∷ js) j = ap (λ t. part counts x +ℤ t) (spent-append js j) ∙ sym (+ℤ_assoc _ _ _)

  keep_hit :
      (x : Job) (js : List Job) (r : Job)
      → (id_of x == id_of r) ≡ true
      → keep (λ x. id_of x == id_of r) (x ∷ js) ≢ []
  keep_hit x js r e h = ground (arith, e, h)

  spent-replace_none :
      (js : List Job) (r : Job)
      → keep (λ x. id_of x == id_of r) js ≡ []
      → spent counts (replace id_of r js) ≡ spent counts js
  spent-replace_none [] r h = refl
  spent-replace_none (x ∷ js) r h = elim (Bool-cases (id_of x == id_of r)) [
    | inl e ↦ absurd (keep_hit x js r e h)
    | inr e ↦ rw e (ap (λ t. part counts x +ℤ t) (spent-replace_none js r (ground (arith, h, e))))
  ]

  spent-replace_hit :
      (x : Job) (js : List Job) (r old : Job)
      → (id_of x == id_of r) ≡ true
      → keep (λ x. id_of x == id_of r) (x ∷ js) ≡ old ∷ []
      → (x ≡ old) × (keep (λ x. id_of x == id_of r) js ≡ [])
  spent-replace_hit x js r old e h = ground (arith, e, h)

  spent-replace_miss :
      (x : Job) (js : List Job) (r old : Job)
      → (id_of x == id_of r) ≡ false
      → keep (λ x. id_of x == id_of r) (x ∷ js) ≡ old ∷ []
      → keep (λ x. id_of x == id_of r) js ≡ old ∷ []
  spent-replace_miss x js r old e h = ground (arith, e, h)

  pub spent-replace :
      (js : List Job) (r old : Job)
      → keep (λ x. id_of x == id_of r) js ≡ old ∷ []
      → spent counts (replace id_of r js) +ℤ part counts old ≡ spent counts js +ℤ part counts r
  spent-replace [] r old h = cc
  spent-replace (x ∷ js) r old h = elim (Bool-cases (id_of x == id_of r)) [
    | inl e ↦
        let (same, none) = spent-replace_hit x js r old e h in
        rw e (rw (spent-replace_none js r none) (rw same (+ℤ_swap _ _ _)))
    | inr e ↦
        let ih = spent-replace js r old (spent-replace_miss x js r old e h) in
        rw e (+ℤ_under _ _ _ _ _ ih)
  ]

  pub part_counted : (j : Job) → counts j ≡ true → part counts j ≡ j.amount
  part_counted j c = rw c refl

  part_nonneg : (j : Job) → pos 0 ≤ℤ j.amount → pos 0 ≤ℤ part counts j
  part_nonneg j h = ground (arith, h)

  pub spent_nonneg : (js : List Job) → Nonneg js → pos 0 ≤ℤ spent counts js
  spent_nonneg [] h = omega arith
  spent_nonneg (x ∷ js) h = omega (int_laws, part_nonneg x h.0, spent_nonneg js h.1)

  pub part-le-spent :
      (js : List Job) (r old : Job)
      → keep (λ x. id_of x == id_of r) js ≡ old ∷ []
      → Nonneg js
      → part counts old ≤ℤ spent counts js
  part-le-spent [] r old h n = cc
  part-le-spent (x ∷ js) r old h n = elim (Bool-cases (id_of x == id_of r)) [
    | inl e ↦
        let same = (spent-replace_hit x js r old e h).0 in
        rw same (omega (int_laws, spent_nonneg js n.1))
    | inr e ↦
        let ih = part-le-spent js r old (spent-replace_miss x js r old e h) n.1 in
        omega (int_laws, ih, part_nonneg x n.0)
  ]
