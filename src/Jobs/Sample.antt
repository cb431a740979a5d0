-- ===== src/Jobs/Sample.antt =====
-- A site, and a database with a project that has one member and one finished job, for examples.
use coldfront.Base.{ℕ, ◌≡◌, refl, Bool, true, false, none, some, [], ◌∷◌, ok, arith}
use coldfront.Base.Int.{pos, ◌+ℤ◌}
use coldfront.Allowance.{brc_fca, is_periodic}
use coldfront.Orm.Memory.{in_memory}
use coldfront.AllowanceInterface.{
  Site, AllowanceResource, code_from_name, get_project_compute_resource_name, is_periodic_account,
}
use coldfront.Tables.{
  Db, Project, ProjectStatus, Role, MemberStatus, Allocation, AllocationStatus, AllocationUser,
  AllocationUserStatus, AllocationAttribute, AttributeType, AttributeUsage, AllocationUserAttribute,
  Job, decimal,
}
use coldfront.Accounting.{
  ProjectObjects, UserObjects, get_project_objects, get_accounting_allocation_objects,
}
use coldfront.Jobs.Dates.{JobData, validate_job_dates, job_dates_valid}
use coldfront.Jobs.Usage.{Balanced}
use coldfront.Jobs.Submit.{}

abbrev pub fca : AllowanceResource
fca = record {
  name = brc_fca;
  code = some "fc_";
  name_long = some "Faculty Computing Allowance";
  name_short = some "FCA";
  service_units = none;
  timed_service_units = [];
}

abbrev pub savio : Site
savio = record {
  flags = record { brc_only = true; lrc_only = false };
  allowances = fca ∷ [];
  primary_resource_name = "Savio Compute";
  upper = λ s. s;
}

abbrev pub demo : Project
demo = record { pk = 1; name = "fc_demo"; status = ProjectStatus.active }

abbrev pub finished : Job
finished = record {
  jobslurmid = 7;
  user = 3;
  account = 1;
  amount = pos 500;
  submitdate = some 100;
  startdate = some 110;
  enddate = some 120;
}

abbrev pub usage : ℕ → AttributeUsage
usage k = record { attribute = k; value = pos 500 }

abbrev pub compute : Allocation
compute = record {
  pk = 4;
  project = 1;
  resources = "Savio Compute" ∷ [];
  status = AllocationStatus.active;
  start_date = some 0;
  end_date = some 365;
}

abbrev pub units : AllocationAttribute
units = record {
  pk = 10;
  attribute_type = AttributeType.service_units;
  allocation = 4;
  value = decimal (pos 100000);
}

abbrev pub user_units : AllocationUserAttribute
user_units = record {
  pk = 30;
  attribute_type = AttributeType.service_units;
  allocation = 4;
  allocation_user = 20;
  value = decimal (pos 100000);
}

abbrev pub member : AllocationUser
member = record { pk = 20; allocation = 4; user = 3; status = AllocationUserStatus.active }

abbrev pub db : Db
db = record {
  projects = demo ∷ [];
  project_users =
      record { pk = 2; project = 1; user = 3; role = Role.user; status = MemberStatus.active } ∷ [];
  allocations = compute ∷ [];
  allocation_users = member ∷ [];
  attributes = units ∷ [];
  attribute_usages = usage 10 ∷ [];
  user_attributes = user_units ∷ [];
  user_attribute_usages = usage 30 ∷ [];
  jobs = finished ∷ [];
  project_transactions = [];
  project_user_transactions = [];
}

abbrev pub objects : ProjectObjects × UserObjects
objects = (
  record { allocation = compute; attribute = units; usage = usage 10 },
  record { allocation_user = member; attribute = user_units; usage = usage 30 },
)

abbrev pub request : ℕ → ℕ → JobData
request k amount = record {
  jobslurmid = k;
  user = 3;
  account = demo;
  amount = some (pos amount);
  submitdate = some 200;
  startdate = some 210;
  enddate = some 220;
}

abbrev pub to_utc : ℕ → ℕ
to_utc d = d

pub found :
    (enforce : Bool)
    → get_accounting_allocation_objects in_memory savio demo 3 enforce db ≡ ok objects
unfolding get_accounting_allocation_objects get_project_objects get_project_compute_resource_name
    code_from_name
found true = refl
found false = refl

pub balanced : Balanced in_memory 1 3 10 30 db
unfolding ◌+ℤ◌
balanced = ((omega arith, tt), (usage 10, refl, refl), (usage 30, refl, refl))

pub dated :
    (k amount : ℕ) (end : Bool) → job_dates_valid savio to_utc (request k amount) compute end ≡ true
unfolding job_dates_valid validate_job_dates is_periodic_account code_from_name is_periodic
dated k amount true = refl
dated k amount false = refl

pub periodic : is_periodic_account savio "fc_demo" ≡ ok true
unfolding is_periodic_account code_from_name is_periodic
periodic = refl
