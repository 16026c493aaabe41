-- ===== src/Tests/Requests.antt =====
-- Requests to APIS, and the theorem at them.
use sfa_enduro_workflows.Base.{
  ◌≡◌, refl, String, ◌&&◌, Option, none, some, contains_text, [], if◌then◌else◌,
}
use sfa_enduro_workflows.Enums.{type_name}
use sfa_enduro_workflows.Sip.{Sip, as_digitized_aip}
use sfa_enduro_workflows.Workflow.{ok}
use sfa_enduro_workflows.Workflow.Outcomes.{success, typed_error}
use sfa_enduro_workflows.Workflow.Reports.{rejected, broken, verdict}
use sfa_enduro_workflows.Preprocessing.{Environment, State}
use sfa_enduro_workflows.Preprocessing.Import.{submit_metadata}
use sfa_enduro_workflows.Tests.Preprocessing.{accepting}
use sfa_enduro_workflows.Apis.Requests.{
  bad_request, task_created, metadata_file, create_import_task, default_values_type,
  default_values_detail,
}
use sfa_enduro_workflows.Apis.Requests.Defaults.{
  reaches, lacks_defaults, is_none, is_created, submit_metadata-verdict,
}

abbrev no_error : String → Option String
no_error s = none

abbrev aip : Sip
aip = as_digitized_aip "/sip"

task_created_at_apis :
    create_import_task no_error no_error aip (ok (task_created "t1")) ≡ success "t1"
unfolding create_import_task
task_created_at_apis = refl

refused_by_apis :
    create_import_task no_error no_error aip (ok (bad_request (some default_values_detail)))
    ≡ typed_error default_values_type
        "create APIS import task: bad request: The uploaded package contains information that didn't allow us to determine the default values."
unfolding create_import_task contains_text
refused_by_apis = refl

-- A package is accepted, but its request is refused for the default values.
abbrev refusing : Environment
refusing = record accepting {
  create_import_task_reply = λ h.
      reaches "wrapError"
        (create_import_task no_error no_error aip (ok (bad_request (some default_values_detail))));
}

abbrev start : State
start = record { events = []; relative_path = ""; custom_metadata = none }

submit_metadata-verdict_example : verdict (submit_metadata refusing aip "user" start).1.events ≡ (
    if is_created
      (create_import_task no_error no_error aip (ok (bad_request (some default_values_detail))))
    then verdict start.events
    else if is_none (no_error (metadata_file aip))
        && (is_none (no_error (type_name aip.type))
            && lacks_defaults (ok (bad_request (some default_values_detail))))
    then rejected
    else broken)
submit_metadata-verdict_example =
    submit_metadata-verdict "wrapError" refl refusing no_error no_error aip
      (ok (bad_request (some default_values_detail))) "user" start (λ h. refl)
