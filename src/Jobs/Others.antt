-- ===== src/Jobs/Others.antt =====
-- What a request of api/statistics/views.py does to the sum of the amounts of jobs that it does not
-- count to, and to the usage that is this sum.
use coldfront.Base.{
  ℕ, ◌==◌, ◌≡◌, ◌≢◌, refl, sym, ◌∙◌, ap, Bool, false, List, [], ◌∷◌, keep, replace, Model, ok,
}
use coldfront.Base.Int.{pos, ◌+ℤ◌, +ℤ_zero}
use coldfront.Orm.{Orm, has_key}
use coldfront.Orm.Lookup.{get-save_other, get-keep, get-any}
use coldfront.Tables.{AttributeUsage, Job}
use coldfront.Jobs.Spent.{part, spent, id_of, spent-append, spent-replace}
use coldfront.Jobs.Usage.{IsSpent}

part_uncounted : (counts : Job → Bool) (j : Job) → counts j ≡ false → part counts j ≡ pos 0
part_uncounted counts j c = rw c refl

module _ (orm : Orm) (counts : Job → Bool) (js : List Job) where
  pub spent-save_new :
      (j : Job)
      → counts j ≡ false
      → has_key id_of (id_of j) js ≡ false
      → spent counts js ≡ spent counts (orm.save id_of j js)
  spent-save_new j c new = rw (orm.save_new id_of j js new) (
      sym (+ℤ_zero _)
      ∙ ap (λ s. spent counts js +ℤ s) (sym (part_uncounted counts j c))
      ∙ sym (spent-append counts js j))

  pub spent-save_old :
      (r i : Job)
      → counts r ≡ false
      → counts i ≡ false
      → orm.get Model.job (λ x. id_of x == id_of r) js ≡ ok i
      → spent counts js ≡ spent counts (orm.save id_of r js)
  spent-save_old r i c d old =
      let one : keep (λ x. id_of x == id_of r) js ≡ i ∷ [] = get-keep orm _ _ js i old in
      rw (orm.save_lem id_of r js (get-any orm _ _ js i old)) (
        sym (+ℤ_zero _)
        ∙ ap (λ s. spent counts js +ℤ s) (sym (part_uncounted counts r c))
        ∙ sym (spent-replace counts js r i one)
        ∙ ap (λ s. spent counts (replace id_of r js) +ℤ s) (part_uncounted counts i d)
        ∙ +ℤ_zero _)

  -- A usage of another key is the sum of the same jobs as before.
  pub save-IsSpent_other :
      (m : Model) (t : List AttributeUsage) (k : ℕ) (u v : AttributeUsage) (after : List Job)
      → orm.get m (λ x. x.attribute == u.attribute) t ≡ ok v
      → k ≢ u.attribute
      → spent counts js ≡ spent counts after
      → IsSpent orm m counts k t js
      → IsSpent orm m counts k (orm.save (λ x. x.attribute) u t) after
  save-IsSpent_other m t k u v after h n e balance = (
    balance.0,
    get-save_other orm m (λ x. x.attribute) k u t n (get-any orm m _ t v h) ∙ balance.1,
    balance.2 ∙ e,
  )
