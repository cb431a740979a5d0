-- ===== src/World.antt =====
-- The tables of users and of requests that stand beside those of Tables: the fields of
-- core/user/models.py, core/allocation/models.py and core/project/models.py that the runners of
-- requests read or write.
use coldfront.Base.{ℕ, String, Bool, Option, List, Action}
use coldfront.Base.Int.{ℤ}
use coldfront.Requests.Steps.{Note}
use coldfront.Tables.{Db, Project}

pub record User : Type 0 where
  pub pk : ℕ
  pub username : String
  pub email : String

-- The `EmailAddress` of django-allauth.
pub record EmailAddress : Type 0 where
  pub user : ℕ
  pub email : String
  pub verified : Bool

-- `BillingActivity`
pub record BillingActivity : Type 0 where
  pub pk : ℕ

-- `UserProfile`: the user is its key here.
pub record Profile : Type 0 where
  pub user : ℕ
  pub cluster_uid : Option String
  pub is_pi : Bool
  pub host_user : Option ℕ
  pub billing_activity : Option ℕ

-- `ProjectUserJoinRequest`
pub record JoinRequest : Type 0 where
  pub pk : ℕ
  pub project_user : ℕ
  pub host_user : Option ℕ
  pub modified : ℕ

-- `AllocationPeriod`
pub record Period : Type 0 where
  pub name : String
  pub start_date : ℕ
  pub end_date : ℕ

-- `AllocationAdditionRequestStatusChoice`
pub data AdditionStatus : Type 0 where
  under_review complete denied : AdditionStatus

-- `AllocationAdditionRequest`: the "other" entry of its state is the two last fields. A foreign key
-- is the row that it names.
pub record AdditionRequest : Type 0 where
  pub pk : ℕ
  pub project : Project
  pub status : AdditionStatus
  pub num_service_units : ℤ
  pub completion_time : Option ℕ
  pub other_justification : String
  pub other_timestamp : String

-- `ClusterAccessRequestStatusChoice`
pub data AccessStatus : Type 0 where
  pending_add processing complete denied : AccessStatus

pub record AccessRequest : Type 0 where
  pub pk : ℕ
  pub allocation_user : ℕ
  pub status : AccessStatus
  pub request_time : ℕ

-- `ProjectUserRemovalRequestStatusChoice`
pub data RemovalStatus : Type 0 where
  pending processing complete : RemovalStatus

pub record RemovalRequest : Type 0 where
  pub pk : ℕ
  pub project_user : ℕ
  pub requester : ℕ
  pub reason : String
  pub status : Option RemovalStatus

-- `AllocationRenewalRequestStatusChoice`
pub data RenewalStatus : Type 0 where
  under_review approved complete denied : RenewalStatus

-- Of the entries of its state only "other" is here.
pub record RenewalRequest : Type 0 where
  pub pk : ℕ
  pub requester : ℕ
  pub pi : ℕ
  pub computing_allowance : String
  pub allocation_period : Period
  pub status : RenewalStatus
  pub pre_project : Project
  pub post_project : Project
  pub new_project_request : Option ℕ
  pub num_service_units : ℤ
  pub other : Note
  pub approval_time : Option ℕ
  pub completion_time : Option ℕ

pub record World : Type 0 where
  pub db : Db
  pub users : List User
  pub profiles : List Profile
  pub addition_requests : List AdditionRequest
  pub access_requests : List AccessRequest
  pub removal_requests : List RemovalRequest
  pub renewal_requests : List RenewalRequest
  pub join_requests : List JoinRequest
  pub emails : List EmailAddress
  pub billing_activities : List BillingActivity

-- An operation on the database within one on all tables.
abbrev pub on_db : {A : Type 0} → Action Db A → Action World A
on_db m world = let (r, after) = m world.db in (r, record world { db = after })
