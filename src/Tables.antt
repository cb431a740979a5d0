-- ===== src/Tables.antt =====
-- The database tables that the components share: the fields of the Django models of
-- core/project/models.py, core/allocation/models.py and core/statistics/models.py that the
-- modelled code reads or writes. Users and resources are named by their keys, statuses and
-- attribute types by the names that the setup commands give them. Dates are counted in days and
-- moments in microseconds, from any fixed start; amounts of service units are in hundredths.
use coldfront.Base.{
  ℕ, ◌*◌, String, Bool, true, false, Option, List, Result, ok, err, ◌==◌, value_error, other_error,
  ◌&&◌,
}
use coldfront.Base.Int.{ℤ, pos, ltb_ℤ, ◌-ℤ◌}

-- A `CharField` value: a text, or what `str` makes of a Decimal or an int and what Decimal and int
-- read back.
pub data Value : Type 0 where
  text : String → Value
  decimal : ℤ → Value
  number : ℕ → Value

-- `Decimal(value)`; any other text is an InvalidOperation.
abbrev pub to_decimal : Value → Result ℤ
to_decimal (text s) = err other_error
to_decimal (decimal d) = ok d
to_decimal (number n) = ok (pos (n * 100))

-- A DecimalField of `DECIMAL_MAX_DIGITS` digits, which is 11, two of them after the point, holds
-- an amount in hundredths below this limit, of either sign; saving another one raises.
abbrev digits_limit : ℤ
digits_limit = pos 100000000000

abbrev pub fits_digits : ℤ → Bool
fits_digits n = ltb_ℤ n digits_limit && ltb_ℤ (pos 0 -ℤ digits_limit) n

-- `int(value)`, which refuses a text with a decimal point.
abbrev pub to_int : Value → Result ℕ
to_int (number n) = ok n
to_int _ = err value_error

pub data ProjectStatus : Type 0 where
  new active inactive denied : ProjectStatus

pub data Role : Type 0 where
  user manager principal_investigator : Role

pub data MemberStatus : Type 0 where
  active pending_add pending_remove removed denied : MemberStatus

pub data AllocationStatus : Type 0 where
  new active expired denied : AllocationStatus

pub data AllocationUserStatus : Type 0 where
  active removed error : AllocationUserStatus

-- `AllocationAttributeType`
pub data AttributeType : Type 0 where
  service_units cluster_account_status cluster_directory_access : AttributeType
  storage_quota billing_activity : AttributeType

abbrev type_code : AttributeType → ℕ
type_code AttributeType.service_units = 0
type_code AttributeType.cluster_account_status = 1
type_code AttributeType.cluster_directory_access = 2
type_code AttributeType.storage_quota = 3
type_code AttributeType.billing_activity = 4

abbrev pub has_type : AttributeType → AttributeType → Bool
has_type a b = type_code a == type_code b

abbrev pub is_active_member : MemberStatus → Bool
is_active_member MemberStatus.active = true
is_active_member _ = false

abbrev pub is_active_allocation : AllocationStatus → Bool
is_active_allocation AllocationStatus.active = true
is_active_allocation _ = false

abbrev pub is_active_user : AllocationUserStatus → Bool
is_active_user AllocationUserStatus.active = true
is_active_user _ = false

pub record Project : Type 0 where
  pub pk : ℕ
  pub name : String
  pub status : ProjectStatus

pub record ProjectUser : Type 0 where
  pub pk : ℕ
  pub project : ℕ
  pub user : ℕ
  pub role : Role
  pub status : MemberStatus

-- `resources` are the names of the resources that the allocation is to.
pub record Allocation : Type 0 where
  pub pk : ℕ
  pub project : ℕ
  pub resources : List String
  pub status : AllocationStatus
  pub start_date : Option ℕ
  pub end_date : Option ℕ

pub record AllocationUser : Type 0 where
  pub pk : ℕ
  pub allocation : ℕ
  pub user : ℕ
  pub status : AllocationUserStatus

pub record AllocationAttribute : Type 0 where
  pub pk : ℕ
  pub attribute_type : AttributeType
  pub allocation : ℕ
  pub value : Value

-- The attribute is the primary key.
pub record AttributeUsage : Type 0 where
  pub attribute : ℕ
  pub value : ℤ

pub record AllocationUserAttribute : Type 0 where
  pub pk : ℕ
  pub attribute_type : AttributeType
  pub allocation : ℕ
  pub allocation_user : ℕ
  pub value : Value

pub record Job : Type 0 where
  pub jobslurmid : ℕ
  pub user : ℕ
  pub account : ℕ
  pub amount : ℤ
  pub submitdate : Option ℕ
  pub startdate : Option ℕ
  pub enddate : Option ℕ

-- `ProjectTransaction` and `ProjectUserTransaction`: whose allowance became what, and when.
pub record Transaction : Type 0 where
  pub owner : ℕ
  pub date_time : ℕ
  pub allocation : ℤ

pub record Db : Type 0 where
  pub projects : List Project
  pub project_users : List ProjectUser
  pub allocations : List Allocation
  pub allocation_users : List AllocationUser
  pub attributes : List AllocationAttribute
  pub attribute_usages : List AttributeUsage
  pub user_attributes : List AllocationUserAttribute
  pub user_attribute_usages : List AttributeUsage
  pub jobs : List Job
  pub project_transactions : List Transaction
  pub project_user_transactions : List Transaction
