-- ===== src/Storage/Completion.antt =====
-- `complete_request` of plugins/faculty_storage_allocations/services/request_service.py, and the
-- endpoint `complete_fsa_request` of plugins/faculty_storage_allocations/api/views.py.
pub mod Outcome
use coldfront.Base.{
  ℕ, ◌==◌, String, Bool, true, false, not, ◌&&◌, Option, none, some, truthy, Result, ok, err,
  Exception, does_not_exist, Model, Action, asks, gets, pure, atomic, ◌>>=◌, ◌>>◌, if◌then◌else◌,
  ◌≡◌, ◌≢◌, ◌⊎◌, inl, inr, refl, sym, arith, Result-cases, Bool-cases, ok_inj, ap, ==_iff,
  fsa_request,
}
use coldfront.Orm.{Orm}
use coldfront.Orm.Lookup.{get-save_self, get-pass}
use coldfront.Tables.{Db, Allocation}
use coldfront.Storage.{FsaStatus, SetupStatus, FsaRequest, Store, is_complete, is_processing}
use coldfront.Storage.Service.{touched, save_request, update_setup_state}
use coldfront.Storage.Directory.{
  DirectoryService, directory_exists, get_allocation, add_to_directory_quota, create_directory,
  set_directory_quota, add_project_users_to_directory,
}

-- An operation on the database within one on the store.
abbrev on_db : {A : Type 0} → Action Db A → Action Store A
on_db m store = let (r, after) = m store.db in (r, record store { db = after })

abbrev is_done : Result FsaRequest → Bool
is_done (ok r) = true
is_done (err e) = false

-- `validate_directory_name` of api/serializers.py; `strip` is `str.strip`.
abbrev validate_directory_name : (String → String) → String → Option String
validate_directory_name strip value =
    if truthy value && truthy (strip value) then some (strip value) else none

abbrev or_none : Option String → (String → Option String) → Option String
or_none none f = none
or_none (some s) f = f s

pub data Response : Type 0 where
  completed not_found bad_request server_error : Response

-- `path` joins the base path and a directory name, and `today` is the current date.
module _ (orm : Orm) (now : ℕ) (iso : ℕ → String) (path : String → String) (today : ℕ) where
  abbrev service : ℕ → String → DirectoryService
  service project directory_name = record {
    project = project;
    directory_path = path directory_name;
  }

  abbrev extend_directory : DirectoryService → Option ℕ → Action Db (Unit {0})
  extend_directory d amount_gb = do
    a ← asks (get_allocation orm d)
    add_to_directory_quota orm a amount_gb

  abbrev make_directory : DirectoryService → Option ℕ → Action Db (Unit {0})
  make_directory d amount_gb = do
    a ← create_directory orm d today
    set_directory_quota orm (some a) amount_gb

  unfoldable pub provide_directory : DirectoryService → Option ℕ → Action Db (Unit {0})
  provide_directory d amount_gb db =
      if directory_exists orm d db
      then extend_directory d amount_gb db
      else make_directory d amount_gb db

  abbrev set_up : FsaRequest → String → Action Store FsaRequest
  set_up r directory_name = do
    s ← update_setup_state orm now iso r (some directory_name) SetupStatus.complete
    c ←
        save_request orm now iso
          (record s { status = FsaStatus.approved_complete; completion_time = some now })
    on_db (provide_directory (service r.project directory_name) r.approved_amount_gb)
    on_db (add_project_users_to_directory orm (service r.project c.state.setup.directory_name))
    pure c

  unfoldable pub complete_request : FsaRequest → String → Action Store FsaRequest
  unfolding update_setup_state
  complete_request r directory_name =
      if is_complete r.status then pure r else set_up r directory_name

  abbrev complete_with : FsaRequest → Option String → Store → Response × Store
  complete_with r none store = (bad_request, store)
  complete_with r (some name) store =
      let (result, after) = atomic (complete_request r name) store in
      (if is_done result then completed else server_error, after)

  abbrev complete_found : FsaRequest → Option String → Store → Response × Store
  complete_found r name store =
      if is_processing r.status then complete_with r name store else (bad_request, store)

  -- `field` is the `directory_name` field of the body, once Django REST framework has checked it.
  -- An exception of the lookup other than DoesNotExist is not caught.
  unfoldable pub complete_fsa_request :
      (String → String) → ℕ → Option String → Store → Result Response × Store
  complete_fsa_request strip pk field store =
      elim (orm.get fsa_request (λ r. r.pk == pk) store.requests) [
        | err (does_not_exist Model.fsa_request) ↦ (ok not_found, store)
        | err e ↦ (err e, store)
        | ok r ↦
            let (response, after) =
              complete_found r (or_none field (validate_directory_name strip)) store in
            (ok response, after)
      ]
