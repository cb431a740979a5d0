-- ===== src/Base/Results.antt =====
-- Python's exceptions as values, and computations that read and write a state. The state comes
-- back with an exception too: what was written stays written, unless the block was atomic.
use mathlib.Core.Path.{◌≡◌, refl, ap}
use mathlib.Core.Logic.{◌⊎◌, inl, inr}
use mathlib.Core.Bool.{Bool, true, false}
use native.Mathlib.Omega.{arith}

-- The Django models whose `DoesNotExist` and `MultipleObjectsReturned` the code tells apart.
pub data Model : Type 0 where
  project project_user allocation allocation_user : Model
  allocation_attribute allocation_attribute_usage : Model
  allocation_user_attribute allocation_user_attribute_usage : Model
  job fsa_request renewal_request project_request user_profile : Model
  removal_request secure_dir_request manage_request billing_activity : Model
  addition_request : Model

pub data Exception : Type 0 where
  does_not_exist multiple_objects_returned : Model → Exception
  assertion_error type_error value_error key_error integrity_error : Exception
  cluster_access_validation_error interface_error validation_error : Exception
  other_error : Exception

pub data Result {ℓ} (A : Type ℓ) : Type ℓ where
  ok : A → Result A
  err : Exception → Result A

pub ok_inj {ℓ} : {A : Type ℓ} (a b : A) → ok a ≡ ok b → a ≡ b
ok_inj a b e = cc

-- To split on a computed result and keep the equation.
pub Result-cases {ℓ} :
    {A : Type ℓ} (r : Result A) → ((a : A) × (r ≡ ok a)) ⊎ ((e : Exception) × (r ≡ err e))
Result-cases (ok a) = inl (a, refl)
Result-cases (err e) = inr (e, refl)

module _ {ℓ κ} {A : Type ℓ} {B : Type κ} where
  abbrev pub and_then : Result A → (A → Result B) → Result B
  and_then (ok a) f = f a
  and_then (err e) f = err e

abbrev pub is_ok {ℓ} : {A : Type ℓ} → Result A → Bool
is_ok (ok a) = true
is_ok (err e) = false

abbrev pub guard : Bool → Exception → Result (Unit {0})
guard true e = ok tt
guard false e = err e

-- A method that reads and writes the state `S`.
abbrev pub Action : Type 0 → Type 0 → Type 0
Action S A = S → Result A × S

module _ {S : Type 0} where
  module _ {A : Type 0} where
    abbrev pub pure : A → Action S A
    pure a s = (ok a, s)

    abbrev pub raise : Exception → Action S A
    raise e s = (err e, s)

    abbrev pub lift : Result A → Action S A
    lift r s = (r, s)

    -- A step that reads the state and may raise.
    abbrev pub asks : (S → Result A) → Action S A
    asks f s = (f s, s)

    abbrev pub gets : (S → A) → Action S A
    gets f s = (ok (f s), s)

    -- `with transaction.atomic()`: an exception rolls the state back and goes on.
    abbrev pub atomic : Action S A → Action S A
    atomic m s = let (r, t) = m s in elim r [ ok a ↦ (ok a, t) | err e ↦ (err e, s) ]

    -- `try: body` / `except Exception: pass`, for a body that returns nothing.
    abbrev pub suppress : Action S A → Action S (Unit {0})
    suppress m s = (ok tt, (m s).1)

  abbrev pub modify : (S → S) → Action S (Unit {0})
  modify f s = (ok tt, f s)

  infixl 5 ◌>>=◌ ◌>>◌
  abbrev pub ◌>>=◌ : {A B : Type 0} → Action S A → (A → Action S B) → Action S B
  ◌>>=◌ m f s = let (r, t) = m s in elim r [ ok a ↦ f a t | err e ↦ (err e, t) ]

  abbrev pub ◌>>◌ : {A B : Type 0} → Action S A → Action S B → Action S B
  m >> k = m >>= λ _. k

  -- After a step that succeeds the block goes on with its result.
  pub bind-ok :
      {A B : Type 0} (m : Action S A) (f : A → Action S B) (s : S) (a : A)
      → (m s).0 ≡ ok a
      → (m >>= f) s ≡ f a (m s).1
  bind-ok m f s a h = rw (◌>>=◌, h) refl

  -- When a block succeeds its first step does, and the block is the rest of it from there.
  pub bind-inv :
      {A B : Type 0} (m : Action S A) (f : A → Action S B) (s : S) (b : B)
      → ((m >>= f) s).0 ≡ ok b
      → (a : A) × ((m s).0 ≡ ok a) × ((m >>= f) s ≡ f a (m s).1)
  bind-inv m f s b h = elim (Result-cases (m s).0) [
    | inl (a, e) ↦ (a, e, bind-ok m f s a e)
    | inr (x, e) ↦ absurd (ground (arith, rw (◌>>=◌, e) at h))
  ]

  -- Blocks that go on alike from each result of their first step are alike.
  pub bind-congr :
      {A B : Type 0} (m : Action S A) (f g : A → Action S B) (s : S)
      → ((a : A) → (m s).0 ≡ ok a → f a ≡ g a)
      → (m >>= f) s ≡ (m >>= g) s
  bind-congr m f g s h = elim (Result-cases (m s).0) [
    | inl (a, e) ↦ rw (◌>>=◌, e) (ap (λ k. k (m s).1) (h a e))
    | inr (x, e) ↦ rw (◌>>=◌, e) refl
  ]

  module _ {A : Type 0} (m : Action S A) (s t : S) where
    -- A step whose run is known, in a block and in a transaction.
    pub bind-run : {B : Type 0} (f : A → Action S B) (a : A) → m s ≡ (ok a, t) → (m >>= f) s ≡ f a t
    bind-run f a h = ap (λ q. elim q.0 [ ok b ↦ f b q.1 | err e ↦ (err e, q.1) ]) h

    pub bind-fail :
        {B : Type 0} (f : A → Action S B) (e : Exception)
        → m s ≡ (err e, t)
        → (m >>= f) s ≡ (err e, t)
    bind-fail f e h = ap (λ q. elim q.0 [ ok b ↦ f b q.1 | err x ↦ (err x, q.1) ]) h

    pub atomic-run : (a : A) → m s ≡ (ok a, t) → atomic m s ≡ (ok a, t)
    atomic-run a h = ap (λ q. elim q.0 [ ok b ↦ (ok b, q.1) | err x ↦ (err x, s) ]) h

    pub atomic-fail : (e : Exception) → m s ≡ (err e, t) → atomic m s ≡ (err e, s)
    atomic-fail e h = ap (λ q. elim q.0 [ ok b ↦ (ok b, q.1) | err x ↦ (err x, s) ]) h

  -- A transaction that raises changes nothing.
  pub atomic-err :
      {A : Type 0} (m : Action S A) (s : S) (e : Exception)
      → (atomic m s).0 ≡ err e
      → atomic m s ≡ (err e, s)
  atomic-err m s e h = elim (Result-cases (m s).0) [
    | inl (a, k) ↦ ground (arith, k, h)
    | inr (x, k) ↦ ground (arith, k, h)
  ]

  -- What holds after the first step, and after the rest of the block where there is one, holds
  -- after the block; and after a transaction, if it held before.
  module _ {A : Type 0} (P : S → Type 0) (m : Action S A) (s : S) where
    pub bind-holds :
        {B : Type 0} (f : A → Action S B)
        → P (m s).1
        → ((a : A) → P (f a (m s).1).1)
        → P ((m >>= f) s).1
    bind-holds f h k = elim (Result-cases (m s).0) [
      | inl (a, e) ↦ rw (◌>>=◌, e) (k a)
      | inr (x, e) ↦ rw (◌>>=◌, e) h
    ]

    pub atomic-holds : P s → P (m s).1 → P (atomic m s).1
    atomic-holds before h = elim (Result-cases (m s).0) [
      | inl (a, e) ↦ rw (atomic, e) h
      | inr (x, e) ↦ rw (atomic, e) before
    ]

  -- `if test: body`
  abbrev pub when : Bool → Action S (Unit {0}) → Action S (Unit {0})
  when true m = m
  when false m = pure tt
