-- ===== src/Requests/Examples.antt =====
-- The laws of request reviews at an approved and a pooled request.
use coldfront.Base.{◌≡◌, ◌≢◌, ◌⊎◌, ◌↔◌, true, false, Option, none, some, truthy}
use coldfront.Allowance.{Flags, brc_fca}
use coldfront.Requests.Steps.{StepStatus, Step, RequestStatus, under_review}
use coldfront.Requests.Savio.{SavioRequest}
use coldfront.Requests.Renewal
use coldfront.Requests.Renewal.{
  RenewalReview, is_denied_project, allocation_renewal_request_denial_reason,
  set_allocation_renewal_request_eligibility,
}
use coldfront.Requests.Reasons.{set_eligibility_denied}

abbrev brc : Flags
brc = record { brc_only = true; lrc_only = false }

abbrev step : StepStatus → Step
step s = record { status = s; justification = "checked"; timestamp = "2024-01-01" }

abbrev request : RequestStatus → StepStatus → SavioRequest
request status readiness = record {
  computing_allowance = brc_fca;
  pool = false;
  status = status;
  state = record {
    eligibility = step StepStatus.approved;
    readiness = step readiness;
    memorandum_signed = none;
    other = record { justification = ""; timestamp = "" };
  };
}

abbrev ready : SavioRequest
ready = request under_review StepStatus.approved

abbrev pooling : Option SavioRequest → RenewalReview
pooling p = record {
  status = Renewal.under_review;
  eligibility = step StepStatus.approved;
  other = record { justification = ""; timestamp = "" };
  new_project_request = p;
}

set_eligibility_denied_example :
    let r = pooling (some ready) in
    let after = set_allocation_renewal_request_eligibility "now" r StepStatus.denied "no" none in
    (after.eligibility.status ≡ StepStatus.denied)
    × (after.eligibility.justification ≡ "no")
    × ((after.status ≡ Renewal.under_review) ↔ (
        (truthy r.other.timestamp ≡ false)
        × (p : SavioRequest) × (r.new_project_request ≡ some p)
        × (p.status ≢ RequestStatus.denied)))
    × ((after.status ≡ Renewal.denied) ↔ (
        (truthy r.other.timestamp ≡ true)
        ⊎ (r.new_project_request ≡ none)
        ⊎ ((p : SavioRequest) × (r.new_project_request ≡ some p)
            × (p.status ≡ RequestStatus.denied))))
set_eligibility_denied_example = set_eligibility_denied "now" (pooling (some ready)) "no" none
