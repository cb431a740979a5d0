-- ===== src/Allowance/Kinds.antt =====
-- How the kinds of computing allowances relate: the predicates of
-- core/resource/utils_/allowance_utils/computing_allowance.py are separate lists of names, which
-- other code combines as though one kept within another.
use coldfront.Base.{◌≡◌, ◌≢◌, String, Bool, true, false, arith, eq_iff, ◌&&◌, ◌||◌, is_some}
use coldfront.Allowance.{
  Flags, recharge, brc_co, brc_fca, brc_ica, brc_pca, lrc_pca, are_service_units_prorated,
  has_infinite_service_units, is_condo, is_one_per_pi, is_periodic, is_poolable, is_recharge,
  is_recharge_postpaid, is_recharge_prepaid, is_renewable, is_renewal_supported, is_yearly,
  get_period_filters,
}

-- The deployment turns on one of the two flags, never both.
abbrev pub OneFlag : Flags → Type 0
OneFlag fl = fl.brc_only ≢ fl.lrc_only

-- An allowance whose renewal is supported is renewable, yearly, poolable, prorated and one per PI.
pub renewal_supported_kind :
    (fl : Flags) (name : String)
    → is_renewal_supported fl name ≡ true
    → (is_renewable fl name ≡ true)
      × (is_yearly fl name ≡ true)
      × (is_poolable fl name ≡ true)
      × (are_service_units_prorated fl name ≡ true)
      × (is_one_per_pi fl name ≡ true)
unfolding is_renewal_supported is_renewable is_yearly is_poolable are_service_units_prorated
    is_one_per_pi
renewal_supported_kind fl name h = ground arith

-- Only the names on the list matter, and those are told apart by evaluation.
abbrev InfiniteKind : Flags → String → Type 0
InfiniteKind fl name =
    has_infinite_service_units fl name ≡ true
    → (are_service_units_prorated fl name ≡ false)
      × (is_periodic fl name ≡ false)
      × ((is_condo fl name || is_recharge_postpaid fl name) ≡ true)

names_differ :
    (recharge ≢ lrc_pca)
    × (brc_co ≢ lrc_pca)
    × (brc_co ≢ brc_fca)
    × (brc_co ≢ brc_ica)
    × (brc_co ≢ brc_pca)
names_differ = (λ e. cc, λ e. cc, λ e. cc, λ e. cc, λ e. cc)

InfiniteKind-by_flags :
    (b l : Bool) (name : String) → InfiniteKind (record { brc_only = b; lrc_only = l }) name
unfolding has_infinite_service_units are_service_units_prorated is_periodic is_condo
    is_recharge_postpaid
InfiniteKind-by_flags true l name h = ground (
  arith,
  eq_iff name brc_co,
  eq_iff name brc_fca,
  eq_iff name brc_ica,
  eq_iff name brc_pca,
  names_differ,
)
InfiniteKind-by_flags false true name h =
    ground (arith, eq_iff name brc_co, eq_iff name recharge, eq_iff name lrc_pca, names_differ)
InfiniteKind-by_flags false false name h = ground arith

-- An allowance with infinite service units is neither prorated nor periodic, and is a condo
-- allowance or paid for after usage.
pub infinite_kind :
    (fl : Flags) (name : String)
    → has_infinite_service_units fl name ≡ true
    → (are_service_units_prorated fl name ≡ false)
      × (is_periodic fl name ≡ false)
      × ((is_condo fl name || is_recharge_postpaid fl name) ≡ true)
infinite_kind fl = InfiniteKind-by_flags fl.brc_only fl.lrc_only

-- With one flag on, a recharge allowance is prepaid or postpaid, never both, and no other
-- allowance is either.
pub recharge_kind :
    (fl : Flags) (name : String)
    → OneFlag fl
    → (is_recharge fl name ≡ (is_recharge_prepaid fl name || is_recharge_postpaid fl name))
      × ((is_recharge_prepaid fl name && is_recharge_postpaid fl name) ≡ false)
unfolding is_recharge is_recharge_prepaid is_recharge_postpaid
recharge_kind fl name h = ground arith

-- With one flag on, there are period filters exactly for the periodic allowances.
pub get_period_filters-periodic :
    (fl : Flags) (name : String)
    → OneFlag fl
    → is_some (get_period_filters fl name) ≡ is_periodic fl name
unfolding get_period_filters is_periodic
get_period_filters-periodic fl name h = ground arith
