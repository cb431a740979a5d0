-- ===== src/Orm/Memory.antt =====
-- A database layer in memory: it shows that the laws of the interface can hold, and it runs tests.
use coldfront.Base.{
  ℕ, suc, ◌+◌, ◌<◌, ◌≡◌, refl, false, List, [], ◌∷◌, ◌++◌, keep, replace, arith, if◌then◌else◌,
}
use coldfront.Orm.{Orm, single, has_key}

abbrev pub total : {R : Type 0} → (R → ℕ) → List R → ℕ
total pk [] = 0
total pk (r ∷ t) = pk r + total pk t

pub has_key-above :
    {R : Type 0} (pk : R → ℕ) (k : ℕ) (t : List R) → total pk t < k → has_key pk k t ≡ false
has_key-above pk k [] h = refl
has_key-above pk k (r ∷ t) h = ground (arith, has_key-above pk k t)

-- The next key is above the sum of all keys.
abbrev pub in_memory : Orm
in_memory = record {
  filter = keep;
  get = λ m p t. single m (keep p t);
  save = λ pk r t. if has_key pk (pk r) t then replace pk r t else t ++ r ∷ [];
  next_key = λ pk t. suc (total pk t);
  filter_lem = λ p t. refl;
  get_lem = λ m p t. refl;
  save_lem = λ pk r t h. rw h;
  save_new = λ pk r t h. rw h;
  next_key-fresh = λ pk t. has_key-above pk (suc (total pk t)) t (omega arith);
}
