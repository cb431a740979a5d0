-- ===== src/AllowanceInterface.antt =====
-- The lookups of computing allowances: `ComputingAllowanceInterface` of
-- core/resource/utils_/allowance_utils/interface.py, `get_computing_allowance_project_prefixes` of
-- core/resource/utils.py and `get_project_compute_resource_name` of core/allocation/utils.py.
-- The dictionaries of the class are searches through the list of allowances. No two allowances
-- share a name, a code or a short name, as the setup command creates them.
use Prim.Native.String.{◌++◌ as str_append}
use text.Mathlib.Text.{starts_with}
use coldfront.Base.{
  ℕ, zero, suc, ◌==◌, ◌&&◌, String, Bool, true, false, Option, none, some, List, [], ◌∷◌, any,
  str_eq, Result, ok, err, interface_error, if◌then◌else◌,
}
use coldfront.Base.Int.{ℤ}
use coldfront.Base.Fallible.{◌>>=◌}
use coldfront.Allowance.{Flags, is_periodic}

-- The Service Units of one allocation period.
pub record TimedUnits : Type 0 where
  pub start_date : ℕ
  pub end_date : ℕ
  pub units : ℤ

-- A `Resource` of the type "Computing Allowance" with its attributes, `none` where it lacks one.
pub record AllowanceResource : Type 0 where
  pub name : String
  pub code : Option String
  pub name_long : Option String
  pub name_short : Option String
  pub service_units : Option ℤ
  pub timed_service_units : List TimedUnits

-- What the deployment configures. `upper` is Python's `str.upper`.
pub record Site : Type 0 where
  pub flags : Flags
  pub allowances : List AllowanceResource
  pub primary_resource_name : String
  pub upper : String → String

-- `text[:n]`
abbrev take_chars : ℕ → String → String
take_chars zero s = String.[]
take_chars (suc n) String.[] = String.[]
take_chars (suc n) (String.◌∷◌ c s) = String.◌∷◌ c (take_chars n s)

abbrev find : {A : Type 0} → (A → Bool) → List A → Option A
find p [] = none
find p (x ∷ xs) = if p x then some x else find p xs

abbrev or_interface_error : {A : Type 0} → Option A → Result A
or_interface_error none = err interface_error
or_interface_error (some a) = ok a

abbrev is_key : String → Option String → Bool
is_key s none = false
is_key s (some t) = str_eq t s

abbrev starts_with_any : String → List String → Bool
starts_with_any s prefixes = any (λ p. starts_with s p) prefixes

module _ (site : Site) where
  unfoldable pub allowance_from_code : String → Result AllowanceResource
  allowance_from_code code = or_interface_error (find (λ a. is_key code a.code) site.allowances)

  unfoldable pub allowance_from_name_short : String → Result AllowanceResource
  allowance_from_name_short name_short =
      or_interface_error (find (λ a. is_key name_short a.name_short) site.allowances)

  -- A project's allowance is the one whose code the first three letters of its name are.
  unfoldable pub allowance_from_project : String → Result AllowanceResource
  unfolding allowance_from_code
  allowance_from_project project_name = allowance_from_code (take_chars 3 project_name)

  abbrev allowance_from_name : String → Result AllowanceResource
  allowance_from_name name = or_interface_error (find (λ a. str_eq a.name name) site.allowances)

  unfoldable pub code_from_name : String → Result String
  code_from_name name = do a ← allowance_from_name name; or_interface_error a.code

  unfoldable pub name_long_from_name : String → Result String
  name_long_from_name name = do a ← allowance_from_name name; or_interface_error a.name_long

  unfoldable pub name_short_from_name : String → Result String
  name_short_from_name name = do a ← allowance_from_name name; or_interface_error a.name_short

  -- With a period, the value of that period; without one, the constant value, `none` where the
  -- allowance has none.
  unfoldable pub service_units_from_name : String → Option (ℕ × ℕ) → Result (Option ℤ)
  service_units_from_name name none = do a ← allowance_from_name name; ok a.service_units
  service_units_from_name name (some (start, end)) = do
    a ← allowance_from_name name
    t ← or_interface_error (
        find (λ (t : TimedUnits). t.start_date == start && t.end_date == end) a.timed_service_units)
    ok (some t.units)

  -- The codes of the allowances that pass a test, all of which must have one.
  abbrev codes : (AllowanceResource → Bool) → List AllowanceResource → Result (List String)
  codes p [] = ok []
  codes p (a ∷ rest) =
      let others = codes p rest in
      if p a then (do code ← code_from_name a.name; tail ← others; ok (code ∷ tail)) else others

  abbrev present_codes : List AllowanceResource → List String
  present_codes [] = []
  present_codes (a ∷ rest) = elim a.code [
    | none ↦ present_codes rest
    | some c ↦ c ∷ present_codes rest
  ]

  unfoldable pub get_computing_allowance_project_prefixes : List String
  get_computing_allowance_project_prefixes = present_codes site.allowances

  -- Whether an account's name begins with the code of a computing allowance.
  unfoldable pub has_computing_allowance : String → Bool
  unfolding get_computing_allowance_project_prefixes
  has_computing_allowance name = starts_with_any name get_computing_allowance_project_prefixes

  -- Whether an account's name begins with the code of a periodic allowance.
  unfoldable pub is_periodic_account : String → Result Bool
  unfolding code_from_name is_periodic
  is_periodic_account name = do
    prefixes ← codes (λ a. is_periodic site.flags a.name) site.allowances
    ok (starts_with_any name prefixes)

  unfoldable pub get_project_compute_resource_name : String → Result String
  unfolding code_from_name
  get_project_compute_resource_name project_name = do
    prefixes ← codes (λ a. true) site.allowances
    let cluster_name : String =
        if site.flags.brc_only && starts_with project_name "vector_"
        then "Vector"
        else site.upper project_name
    ok (
        if starts_with_any project_name prefixes
        then site.primary_resource_name
        else str_append cluster_name " Compute")
