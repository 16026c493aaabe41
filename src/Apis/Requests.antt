-- ===== src/Apis/Requests.antt =====
-- internal/apis/create_import_task_activity.go and internal/apis/create_import_run_activity.go. The
-- client that ogen generates is a parameter: what it returns to each request.
pub mod Defaults
use sfa_enduro_workflows.Base.{
  String, ◌<>◌, Bool, Option, none, some, str_eq, if◌then◌else◌, quote, contains_text,
}
use sfa_enduro_workflows.FilePath.{base}
use sfa_enduro_workflows.Enums.{type_name}
use sfa_enduro_workflows.Sip.{Sip}
use sfa_enduro_workflows.Workflow.{Result, ok, err}
use sfa_enduro_workflows.Workflow.Errors.{error_text}
use sfa_enduro_workflows.Workflow.Outcomes.{Outcome, success, failure, non_retryable, typed_error}
use sfa_enduro_workflows.Polling.{problem_detail}

-- CreateImportTaskDefaultValuesErrorDetail
abbrev pub default_values_detail : String
default_values_detail =
    "The uploaded package contains information that didn't allow us to determine the default values."

-- CreateImportTaskDefaultValuesErrorType
abbrev pub default_values_type : String
default_values_type = "APISImportTaskDefaultValuesError"

-- The responses of APIImporttasksPost; a refusal comes with its detail.
pub data TaskResponse : Type 0 where
  task_created : String → TaskResponse
  bad_request unsupported_media_type server_error : Option String → TaskResponse
  unauthorized other_response : TaskResponse

-- The responses of APIImporttasksIDImportrunsPost
pub data RunResponse : Type 0 where
  run_created : String → RunResponse
  run_bad_request task_not_found run_unsupported : Option String → RunResponse
  run_unauthorized other_run_response : RunResponse

-- The file that is uploaded
unfoldable pub metadata_file : Sip → String
metadata_file s =
    if str_eq s.updated_arelda_md_path "" then s.metadata_path else s.updated_arelda_md_path

-- A bad request, by its detail
unfoldable pub refuse_task : String → Outcome String
refuse_task detail =
    if contains_text detail default_values_detail
    then typed_error default_values_type ("create APIS import task: bad request: " <> detail)
    else non_retryable ("create APIS import task: bad request: " <> detail)

-- The switch on the response
unfoldable pub take_task : TaskResponse → Outcome String
unfolding refuse_task problem_detail
take_task (task_created id) =
    if str_eq id ""
    then non_retryable "create APIS import task: missing task ID in created response"
    else success id
take_task (bad_request detail) = refuse_task (problem_detail detail)
take_task (unsupported_media_type detail) =
    non_retryable ("create APIS import task: unsupported media type: " <> problem_detail detail)
take_task (server_error detail) =
    failure ("create APIS import task: server error: " <> problem_detail detail)
take_task unauthorized = non_retryable "create APIS import task: unauthorized"
take_task other_response = non_retryable "create APIS import task: unexpected response"

unfoldable pub take_task_reply : Result TaskResponse → Outcome String
unfolding take_task
take_task_reply (err e) = failure ("create APIS import task: " <> error_text e)
take_task_reply (ok r) = take_task r

-- CreateImportTaskActivity.Execute: the errors of opening a file and of the types that APIS takes are
-- `none` if there are none.
unfoldable pub create_import_task :
    (String → Option String) → (String → Option String) → Sip → Result TaskResponse → Outcome String
unfolding metadata_file take_task_reply type_name
create_import_task open_error type_error s reply = elim (open_error (metadata_file s)) [
  | some e ↦ non_retryable ("open " <> (base (metadata_file s) <> (": " <> e)))
  | none ↦ (elim (type_error (type_name s.type)) [
    | some e ↦ non_retryable ("invalid SIP type " <> (quote (type_name s.type) <> (": " <> e)))
    | none ↦ take_task_reply reply
  ])
]

-- The switch on the response
unfoldable pub take_run : RunResponse → Outcome String
unfolding problem_detail
take_run (run_created id) =
    if str_eq id ""
    then non_retryable "create APIS import run: missing run ID in created response"
    else success id
take_run (run_bad_request detail) =
    non_retryable ("create APIS import run: bad request: " <> problem_detail detail)
take_run run_unauthorized = non_retryable "create APIS import run: unauthorized"
take_run (task_not_found detail) =
    non_retryable ("create APIS import run: task not found: " <> problem_detail detail)
take_run (run_unsupported detail) =
    non_retryable ("create APIS import run: unsupported media type: " <> problem_detail detail)
take_run other_run_response = failure "create APIS import run: unexpected response"

unfoldable pub take_run_reply : Result RunResponse → Outcome String
unfolding take_run
take_run_reply (err e) = failure ("create APIS import run: " <> error_text e)
take_run_reply (ok r) = take_run r

-- CreateImportRunActivity.Execute
unfoldable pub create_import_run :
    (String → Option String) → String → Result RunResponse → Outcome String
unfolding take_run_reply
create_import_run open_error mets_path reply = elim (open_error mets_path) [
  | some e ↦ non_retryable ("open METS.xml: " <> e)
  | none ↦ take_run_reply reply
]
