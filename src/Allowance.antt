-- ===== src/Allowance.antt =====
-- The wrapper around a computing allowance: core/resource/utils_/allowance_utils
-- (`ComputingAllowance` of computing_allowance.py, the names of constants.py).
-- A predicate depends on the deployment's feature flags, which are looked up outside the
-- repository and are an argument here, and on the name of the underlying resource.
pub mod Kinds
use coldfront.Base.{
  String, Bool, false, Option, none, some, List, [], ◌∷◌, any, str_eq, if◌then◌else◌,
}

-- What `flag_enabled` answers for "BRC_ONLY" and "LRC_ONLY".
pub record Flags : Type 0 where
  pub brc_only : Bool
  pub lrc_only : Bool

-- `Allowances`, `BRCAllowances` and `LRCAllowances`.
abbrev pub recharge : String
recharge = "Recharge Allocation"

abbrev pub brc_co : String
brc_co = "Condo Allocation"

abbrev pub brc_fca : String
brc_fca = "Faculty Computing Allowance"

abbrev pub brc_ica : String
brc_ica = "Instructional Computing Allowance"

abbrev pub brc_pca : String
brc_pca = "Partner Computing Allowance"

abbrev pub lrc_lr : String
lrc_lr = "Condo Allocation"

abbrev pub lrc_pca : String
lrc_pca = "PI Computing Allowance"

-- `self._name in allowance_names`, and the two ways in which the methods fill the list.
abbrev listed : String → List String → Bool
listed name names = any (λ n. str_eq name n) names

abbrev brc_else_lrc : Flags → List String → List String → List String
brc_else_lrc fl brc lrc = if fl.brc_only then brc else if fl.lrc_only then lrc else []

abbrev brc_alone : Flags → List String → List String
brc_alone fl brc = if fl.brc_only then brc else []

abbrev lrc_alone : Flags → List String → List String
lrc_alone fl lrc = if fl.lrc_only then lrc else []

module _ (fl : Flags) (name : String) where
  unfoldable pub are_service_units_prorated : Bool
  are_service_units_prorated = listed name (brc_else_lrc fl (brc_fca ∷ brc_pca ∷ []) (lrc_pca ∷ []))

  unfoldable pub are_service_units_user_specified : Bool
  are_service_units_user_specified = listed name (brc_alone fl (recharge ∷ []))

  unfoldable pub has_infinite_service_units : Bool
  has_infinite_service_units = listed name (brc_else_lrc fl (brc_co ∷ []) (lrc_lr ∷ recharge ∷ []))

  -- Two `if` statements, not `elif`: with both flags on, the list has both names.
  unfoldable pub is_condo : Bool
  is_condo =
      listed name
        (if fl.brc_only then brc_co ∷ lrc_alone fl (lrc_lr ∷ []) else lrc_alone fl (lrc_lr ∷ []))

  unfoldable pub is_instructional : Bool
  is_instructional = listed name (brc_alone fl (brc_ica ∷ []))

  unfoldable pub is_one_per_pi : Bool
  is_one_per_pi = listed name (brc_else_lrc fl (brc_fca ∷ brc_pca ∷ []) (lrc_pca ∷ []))

  unfoldable pub is_periodic : Bool
  is_periodic = listed name (brc_else_lrc fl (brc_fca ∷ brc_ica ∷ brc_pca ∷ []) (lrc_pca ∷ []))

  unfoldable pub is_poolable : Bool
  is_poolable = listed name (brc_else_lrc fl (brc_fca ∷ brc_pca ∷ []) (lrc_pca ∷ []))

  unfoldable pub is_recharge : Bool
  is_recharge = listed name (brc_else_lrc fl (recharge ∷ []) (recharge ∷ []))

  unfoldable pub is_recharge_postpaid : Bool
  is_recharge_postpaid = listed name (lrc_alone fl (recharge ∷ []))

  unfoldable pub is_recharge_prepaid : Bool
  is_recharge_prepaid = listed name (brc_alone fl (recharge ∷ []))

  unfoldable pub is_renewable : Bool
  unfolding is_periodic
  is_renewable = is_periodic

  unfoldable pub is_renewal_supported : Bool
  is_renewal_supported = listed name (brc_else_lrc fl (brc_fca ∷ []) (lrc_pca ∷ []))

  unfoldable pub is_yearly : Bool
  is_yearly = listed name (brc_else_lrc fl (brc_fca ∷ brc_pca ∷ []) (lrc_pca ∷ []))

  unfoldable pub requires_extra_information : Bool
  requires_extra_information = listed name (brc_alone fl (brc_ica ∷ recharge ∷ []))

  unfoldable pub requires_memorandum_of_understanding : Bool
  requires_memorandum_of_understanding = listed name (brc_alone fl (brc_ica ∷ recharge ∷ []))

-- The `Q` object of `get_period_filters`, as the prefixes of period names that it accepts.
unfoldable pub get_period_filters : Flags → String → Option (List String)
unfolding is_yearly is_instructional
get_period_filters fl name =
    let lrc_case : Option (List String) =
      if fl.lrc_only
      then if is_yearly fl name then some ("Allowance Year" ∷ []) else none
      else none in
    if fl.brc_only
    then if is_yearly fl name
      then some ("Allowance Year" ∷ [])
      else if is_instructional fl name
      then some ("Fall Semester" ∷ "Spring Semester" ∷ "Summer Sessions" ∷ [])
      else lrc_case
    else lrc_case
