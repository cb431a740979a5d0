-- ===== src/Base/Fallible.antt =====
-- `do` blocks for computations that may raise and change no state.
use mathlib.Core.Path.{◌≡◌, refl}
use coldfront.Base.Results.{Result, ok, err, and_then}

infixl 5 ◌>>=◌
abbrev pub ◌>>=◌ : {A B : Type 0} → Result A → (A → Result B) → Result B
step >>= next = and_then step next

module _ {A B : Type 0} (next : A → Result B) (last : B) where
  -- When a block succeeds its first step does, and the rest of it on that result.
  pub >>=-eq-ok :
      (step : Result A)
      → (step >>= next) ≡ ok last
      → (value : A) × (step ≡ ok value) × (next value ≡ ok last)
  >>=-eq-ok (ok value) h = (value, refl, h)
  >>=-eq-ok (err e) h = cc
