-- ===== src/Jobs/Usage.antt =====
-- A usage against the jobs that it counts, as a charge or a correction is saved with a job.
use coldfront.Base.{
  ℕ, ◌==◌, ◌≡◌, sym, ◌∙◌, ap, Bool, true, false, ◌&&◌, List, [], ◌∷◌, ◌++◌, keep, replace, Model,
  allocation_attribute_usage, allocation_user_attribute_usage, ok_inj, ok, if◌then◌else◌,
}
use coldfront.Base.Int.{ℤ, pos, ◌+ℤ◌, ◌-ℤ◌, ◌≤ℤ◌, correct_sum, ≤ℤ_of_eq}
use coldfront.Orm.{Orm, has_key}
use coldfront.Orm.Lookup.{get-save_self, get-keep, get-any}
use coldfront.Tables.{Db, AttributeUsage, Job}
use coldfront.Jobs.Store.{charge, correct}
use coldfront.Jobs.Spent.{
  spent, Nonneg, id_of, spent-append, spent-replace, part_counted, part-le-spent,
}

-- The jobs that count for an account, and for a user of it.
abbrev pub of_account : ℕ → Job → Bool
of_account account j = j.account == account

abbrev pub of_user : ℕ → ℕ → Job → Bool
of_user account user j = j.account == account && j.user == user

-- The usage with the key `k` is the sum of the amounts of the jobs that count.
abbrev pub IsSpent : Orm → Model → (Job → Bool) → ℕ → List AttributeUsage → List Job → Type 0
IsSpent orm m counts k t jobs =
    (u : AttributeUsage) × (orm.get m (λ x. x.attribute == k) t ≡ ok u)
    × (u.value ≡ spent counts jobs)

-- `k` and `l` are the keys of the usages of the account and of the user.
abbrev pub Balanced : Orm → ℕ → ℕ → ℕ → ℕ → Db → Type 0
Balanced orm account user k l db =
    Nonneg db.jobs
    × IsSpent orm allocation_attribute_usage (of_account account) k db.attribute_usages db.jobs
    × IsSpent orm allocation_user_attribute_usage (of_user account user) l db.user_attribute_usages
        db.jobs

Nonneg-append : (js : List Job) (j : Job) → Nonneg js → pos 0 ≤ℤ j.amount → Nonneg (js ++ j ∷ [])
Nonneg-append [] j n h = (h, tt)
Nonneg-append (x ∷ js) j n h = (n.0, Nonneg-append js j n.1 h)

replaced_nonneg :
    (b : Bool) (x r : Job)
    → pos 0 ≤ℤ x.amount
    → pos 0 ≤ℤ r.amount
    → pos 0 ≤ℤ (if b then r else x).amount
replaced_nonneg true x r h k = k
replaced_nonneg false x r h k = h

Nonneg-replace :
    (js : List Job) (r : Job) → Nonneg js → pos 0 ≤ℤ r.amount → Nonneg (replace id_of r js)
Nonneg-replace [] r n h = tt
Nonneg-replace (x ∷ js) r n h =
    (replaced_nonneg (id_of x == id_of r) x r n.0 h, Nonneg-replace js r n.1 h)

module _ (orm : Orm) where
  pub Nonneg-save_new :
      (js : List Job) (j : Job)
      → has_key id_of (id_of j) js ≡ false
      → Nonneg js
      → pos 0 ≤ℤ j.amount
      → Nonneg (orm.save id_of j js)
  Nonneg-save_new js j new n h = rw (orm.save_new id_of j js new) (Nonneg-append js j n h)

  pub Nonneg-save_old :
      (js : List Job) (r i : Job)
      → orm.get Model.job (λ x. id_of x == id_of r) js ≡ ok i
      → Nonneg js
      → pos 0 ≤ℤ r.amount
      → Nonneg (orm.save id_of r js)
  Nonneg-save_old js r i old n h =
      rw (orm.save_lem id_of r js (get-any orm _ _ js i old)) (Nonneg-replace js r n h)

  module _ (m : Model) (counts : Job → Bool) (t : List AttributeUsage) (js : List Job)
      (u : AttributeUsage) (locked : orm.get m (λ x. x.attribute == u.attribute) t ≡ ok u)
      (balance : IsSpent orm m counts u.attribute t js) where
    value_spent : u.value ≡ spent counts js
    value_spent = ap (λ x. x.value) (ok_inj u balance.0 (sym locked ∙ balance.1)) ∙ balance.2

    pub charge-IsSpent :
        (j : Job) (a : ℤ)
        → j.amount ≡ a
        → counts j ≡ true
        → has_key id_of (id_of j) js ≡ false
        → IsSpent orm m counts u.attribute
            (orm.save (λ x. x.attribute) (charge a u) t)
            (orm.save id_of j js)
    charge-IsSpent j a e c new = (
      charge a u,
      get-save_self orm m (λ x. x.attribute) (charge a u) u t locked,
      rw (orm.save_new id_of j js new) (
          ap (λ s. s +ℤ a) value_spent
          ∙ ap (λ s. spent counts js +ℤ s) (sym (part_counted counts j c ∙ e))
          ∙ sym (spent-append counts js j)),
    )

    pub correct-IsSpent :
        (r i : Job) (a : ℤ)
        → r.amount ≡ a
        → counts r ≡ true
        → counts i ≡ true
        → orm.get Model.job (λ x. id_of x == id_of r) js ≡ ok i
        → Nonneg js
        → pos 0 ≤ℤ a
        → IsSpent orm m counts u.attribute
            (orm.save (λ x. x.attribute) (correct (a -ℤ i.amount) u) t)
            (orm.save id_of r js)
    correct-IsSpent r i a e c d old n h =
        let one : keep (λ x. id_of x == id_of r) js ≡ i ∷ [] = get-keep orm _ _ js i old in
        (
          correct (a -ℤ i.amount) u,
          get-save_self orm m (λ x. x.attribute) (correct (a -ℤ i.amount) u) u t locked,
          rw (orm.save_lem id_of r js (get-any orm _ _ js i old)) (
              rw value_spent (
                correct_sum (spent counts js) (spent counts (replace id_of r js)) i.amount a
                  (ap (λ s. spent counts (replace id_of r js) +ℤ s) (sym (part_counted counts i d))
                    ∙ spent-replace counts js r i one
                    ∙ ap (λ s. spent counts js +ℤ s) (part_counted counts r c ∙ e))
                  (≤ℤ_of_eq _ _ _ (part_counted counts i d) (part-le-spent counts js r i one n))
                  h)),
        )
