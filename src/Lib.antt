-- ===== src/Lib.antt =====
-- A verification library for ColdFront as it is run at UC Berkeley: the web application in which
-- researchers ask for computing allowances and storage, and which accounts for cluster jobs.
--
-- Parts and files
--   Base/            native numbers, Boolean tests, lists, signed integers, exceptions and state
--   Orm              Django's database layer as a record of operations and laws; Orm/Memory is an
--                    implementation of it, Orm/Lookup has what its laws give, Orm/Keys tables of
--                    unique keys and what a save leaves in a table, and Orm/Change what saving one
--                    row does to a table of unique keys
--   Tables           the rows of coldfront/core/project/models.py, coldfront/core/allocation/models.py
--                    and coldfront/core/statistics/models.py, with the fields that are used
--   Allowance        coldfront/core/resource/utils_/allowance_utils/computing_allowance.py
--   AllowanceInterface  interface.py beside it, coldfront/core/resource/utils.py, and the name of a
--                    project's compute resource (coldfront/core/allocation/utils.py)
--   Requests/        the reviews of requests for new projects and renewals: statuses and reasons of
--                    denial (coldfront/core/project/models.py, and new_project_utils.py and
--                    renewal_utils.py of coldfront/core/project/utils_)
--   Accounting       get_accounting_allocation_objects of coldfront/api/statistics/utils.py
--   World            the tables of users and of requests beside those of Tables
--   Units/           service units: the allocations that coldfront/api/statistics/utils.py creates
--                    (Creation), its setters (Setters) and those of
--                    coldfront/core/allocation/utils_/accounting_utils/__init__.py (Service), and
--                    purchases, coldfront/core/project/utils_/addition_utils.py (Additions).
--                    Account has the abstract account, Found, Everyone, Attributes and Allocate
--                    what the setters leave
--   Access/          coldfront/core/allocation/utils_/cluster_access_utils.py
--   Secure/          secure directories: the runners of coldfront/core/allocation/utils_/secure_dir_utils/
--                    and the views of coldfront/core/allocation/views_/secure_dir_views/. Users: who can
--                    be added and removed, and the requests for it; Directories: new directories
--                    and requests for them; Reviews: their reviews, denial and approval. Once, Kept
--                    and Granted have what the operations leave and Histories sequences of them;
--                    OneOpen, Turns, Finished and Views do that for the requests about users
--   Members/         removals, coldfront/core/project/utils_/removal_utils.py: Managers is about the
--                    request for one, Removed about its processing
--   Renewals/        renewals of allowances, coldfront/core/project/utils_/renewal_utils.py: approval and
--                    denial, in Processing the steps of the processing runner, and in Run its
--                    whole run. Increase is about the allowance, Statuses about sequences of
--                    runs
--   Newcomers/       users who are made active on a project,
--                    coldfront/core/project/utils_/new_project_user_utils.py with
--                    coldfront/core/user/utils_/host_user_utils.py, and in Create the users of the
--                    requester and the PI, request_processing_utils.py beside it. Apart and Enrolled
--                    are about the table of project users, Rollback about runs that raise
--   Projects/        requests for new projects, coldfront/core/project/utils_/new_project_utils.py
--                    with the handler of coldfront/core/project/signals.py: denial and approval, and
--                    in Processing the processing runners. Denied and Processed say what they leave
--   Jobs/            Dates: validate_job_dates. Store: create and update of JobViewSet in
--                    coldfront/api/statistics/views.py with JobSerializer, and set_job_amount of
--                    coldfront/core/statistics/utils_/accounting_utils.py. Submit: can_submit_job.
--                    Spent and Usage say what a usage should be, Charges what a request does to
--                    it. Others, History, Amount, Overdraw and Accepted have what that
--                    means for the accounts, and Sample the data of the examples
--   Storage/         coldfront/plugins/faculty_storage_allocations: the model and the eligibility
--                    check (Storage), the request service (Service), directories and their
--                    quotas (Directory) and their users (Members), completion and its endpoint
--                    (Completion)
--
-- How the parts interact. The handlers of jobs find the rows of an account's allocation through
-- Accounting, which asks AllowanceInterface for the resource's name; they read and write the Db of
-- Tables through an Orm. A storage request is completed by Service's operations on the table of
-- requests and Directory's on the same Db. A removal ends in Storage.Members, the handler of the
-- signal that it sends. Access gives a user the service units of the allocation through Units.
-- Newcomers asks Access for access to the cluster and ends in Storage.Members, the handler of the
-- signal of an activation.
--
-- Conventions. A state-changing function takes the state and returns a Result with the state after
-- it; `atomic` gives back the state before an exception. Amounts of service units are in
-- hundredths, as DECIMAL_MAX_PLACES is 2, dates are in days and moments in microseconds. Users and
-- resources are keys and names. A lookup of a status or an attribute type by its name is a
-- constructor, since the setup commands create those rows. There is one current moment for an
-- operation. Recursions are on lists, but for the runner of a Vector project's new user, which runs
-- another runner for a Savio project and takes fuel: Newcomers/Fuel shows that 2 is enough where that
-- project is not a Vector project.
--
-- Parameters. The Orm, order_by(...).first(), Decimal, str.strip, str.upper, str.lower, the writing
-- of times in ISO 8601, os.path.join, os.path.basename and the conversion of time zones are not in
-- the repository, and are arguments. The rows that other transactions lock are a predicate.
--
-- Not modelled: mails, logs and the signals that no function here sends; HTML views, forms and the
-- admin; the lists of the REST API; a job's nodes, partition and QOS; a job whose amount is null,
-- and a null date is taken for an absent one; the digits that a DecimalField can hold, but for those
-- of the transactions of a purchase (elsewhere a save may raise on an amount of more than eleven
-- digits where the model goes on); the proration of amounts; joining a project, billing and the other plugins.
pub mod Base
pub mod Allowance
pub mod Requests
pub mod Orm
pub mod Tables
pub mod AllowanceInterface
pub mod Accounting
pub mod World
pub mod Units
pub mod Access
pub mod Jobs
pub mod Storage
pub mod Members
pub mod Renewals
pub mod Secure
pub mod Newcomers
pub mod Projects
