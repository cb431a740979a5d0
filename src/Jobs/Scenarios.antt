-- ===== src/Jobs/Scenarios.antt =====
-- The theorem on several requests, at a project with one finished job.
use coldfront.Base.{ℕ, ◌≡◌, refl, true, false, ok}
use coldfront.Base.Int.{pos, ◌+ℤ◌}
use coldfront.Allowance.{is_periodic}
use coldfront.Orm.Memory.{in_memory}
use coldfront.AllowanceInterface.{
  code_from_name, get_project_compute_resource_name, is_periodic_account,
}
use coldfront.Tables.{Db, AttributeUsage}
use coldfront.Accounting.{
  ProjectObjects, UserObjects, get_project_objects, get_accounting_allocation_objects,
}
use coldfront.Jobs.Dates.{dates_in_order, validate_job_dates, job_dates_valid}
use coldfront.Jobs.Store.{validate_job, create_job, update_job}
use coldfront.Jobs.Usage.{Balanced}
use coldfront.Jobs.History.{History, start, create, update, History-Balanced}
use coldfront.Jobs.Submit.{}
use coldfront.Jobs.Sample.{savio, demo, db, objects, request, to_utc, found, balanced, dated}

-- A job is created with an estimate of its cost, and then updated with the cost.
abbrev submitted : Db
submitted = (create_job in_memory savio to_utc (request 8 250) db).1

abbrev charged_usage : ℕ → AttributeUsage
charged_usage k = record { attribute = k; value = pos 750 }

abbrev charged_objects : ProjectObjects × UserObjects
charged_objects =
    (record objects.0 { usage = charged_usage 10 }, record objects.1 { usage = charged_usage 30 })

found_submitted :
    get_accounting_allocation_objects in_memory savio demo 3 true submitted ≡ ok charged_objects
unfolding create_job validate_job dates_in_order job_dates_valid validate_job_dates
    is_periodic_account code_from_name is_periodic get_accounting_allocation_objects
    get_project_objects get_project_compute_resource_name ◌+ℤ◌
found_submitted = refl

demo_History :
    History in_memory savio to_utc 1 3 10 30 db
      (update_job in_memory savio to_utc 8 (request 8 200) submitted).1
demo_History =
    update db submitted (request 8 200) charged_objects
      (create db db (request 8 250) objects (start db)
        (found true, pos 250, refl, ((λ e. refl, λ e. refl), (λ e. refl, λ e. (refl, refl))))
        (dated 8 250 false))
      (found_submitted, pos 200, refl, ((λ e. refl, λ e. refl), (λ e. refl, λ e. (refl, refl))))
      (dated 8 200 true)

History-Balanced_example :
    Balanced in_memory 1 3 10 30 (update_job in_memory savio to_utc 8 (request 8 200) submitted).1
History-Balanced_example =
    History-Balanced in_memory savio to_utc 1 3 10 30 db _ demo_History balanced
