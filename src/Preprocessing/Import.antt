-- ===== src/Preprocessing/Import.antt =====
-- internal/workflows/preprocessing.go: the submission to APIS and the decision on conflicts;
-- internal/workflows/apis_user.go.
pub mod Handover
use sfa_enduro_workflows.Base.{
  ℕ, String, ◌<>◌, Bool, false, Option, none, some, [], ◌∷◌, ◌||◌, str_eq, if◌then◌else◌, quote,
}
use sfa_enduro_workflows.Sip.{Sip}
use sfa_enduro_workflows.Apis.{
  CustomMetadata, JsonObject, cancel_ingest, continue_overwrite, continue_append, marshal,
}
use sfa_enduro_workflows.Apis.Requests.{default_values_type}
use sfa_enduro_workflows.Workflow.{
  Err, Result, ok, err, application, session_failed, canceled, plain, joined,
}
use sfa_enduro_workflows.Preprocessing.{
  create_import_task, poll_import_task_status, request_decision, alle_neu, alle_gleich, konflikte,
  fehler, other_result, AnalysisResult, Environment, Action, ◌>>=◌, ◌>>◌, pure, return_result,
  start, report_success, report_invalid, report_broken, report_content_error,
  report_complete_invalid, execute, set_custom_metadata, or_broken,
}

-- apisUsername, of the e-mail address of the user
unfoldable pub apis_username : Option String → String
apis_username none = "sfa-enduro"
apis_username (some email) = email

-- errors.As: the first `ApplicationError` of the tree, by its type.
application_type : Err → Option String
application_type (application type message) = some type
application_type session_failed = none
application_type canceled = none
application_type (plain message) = none
application_type (joined a b) =
    let first = application_type a in
    let second = application_type b in elim first [ some t ↦ some t | none ↦ second ]

-- isCreateAPISImportTaskDefaultValuesError
unfoldable pub is_default_values_error : Err → Bool
unfolding application_type
is_default_values_error e = elim (application_type e) [
  | none ↦ false
  | some type ↦ str_eq type default_values_type
]

default_values_message : String
default_values_message =
    "No matching SIP information for this accession number could be found in the AIS, causing the analysis to fail. Please check if the accession information in the SIP matches with the record in the AIS and if it is linked with a (Teil-)Bestand and then restart the ingest."

-- Where the functions of this section return `false`, the workflow returns its result at once:
-- `return_result` stands for both.
module _ (env : Environment) where
  -- The branches on the user's decision.
  unfoldable pub resolve : ℕ → String → String → Action String
  resolve task id option =
      if str_eq option continue_overwrite || str_eq option continue_append
      then (do
        report_success task (
            "APIS detected metadata conflicts for import task ID "
            <> (quote id
                <> (" but ingest was continued with user decision " <> (quote option <> "."))))
        pure option)
      else if str_eq option cancel_ingest
      then (do
        report_invalid task "ingest was canceled after APIS metadata conflict review." (
            ("APIS detected metadata conflicts for import task ID "
              <> (quote id <> " and ingest was canceled by user decision."))
            ∷ [])
        return_result)
      else do
        report_broken task "submission to APIS has failed." (
            ("Received unsupported user decision "
              <> (quote option
                  <> " while resolving APIS metadata conflicts. Please ask a system administrator to investigate."))
            ∷ [])
        return_result

  -- The answer of the parent workflow
  unfoldable pub receive : ℕ → String → Action String
  unfolding resolve
  receive task id s = resolve task id (env.decision_response s.events) s

  -- The signal to the parent workflow
  unfoldable pub signal_parent : ℕ → String → Action (Unit {0})
  signal_parent task id = do
    sent ←
        execute
          (request_decision
            ("APIS detected metadata conflicts for import task ID "
              <> (quote id <> ". Review the APIS task and choose how ingest should continue."))
            (cancel_ingest ∷ continue_overwrite ∷ continue_append ∷ []))
          env.request_decision_reply
    or_broken sent task "submission to APIS has failed." (
        "Could not notify the parent workflow that human review is required. Please try again, or ask a system administrator to investigate."
        ∷ [])

  unfoldable pub ask_parent : ℕ → String → Action String
  unfolding receive signal_parent
  ask_parent task id = do signal_parent task id; receive task id

  unfoldable pub report_orphan : ℕ → Action String
  report_orphan task = do
    report_broken task "submission to APIS has failed." (
        "An error occurred requesting a human decision on how to continue processing. Please try again, or ask a system administrator to investigate."
        ∷ [])
    return_result

  -- waitForAPISDecision
  unfoldable pub wait_for_decision : ℕ → String → Action String
  unfolding ask_parent report_orphan
  wait_for_decision task id = if env.has_parent then ask_parent task id else report_orphan task

  analysis_name : AnalysisResult → String
  analysis_name alle_neu = "Alle Neu"
  analysis_name alle_gleich = "Alle Gleich"
  analysis_name konflikte = "Konflikte"
  analysis_name fehler = "Fehler"
  analysis_name (other_result name) = name

  -- The switch on the analysis result; the result is the decision, empty without a conflict.
  unfoldable pub handle_analysis : ℕ → String → AnalysisResult → Action String
  unfolding analysis_name wait_for_decision
  handle_analysis task id alle_neu = do
    report_success task (
        "APIS analysis completed for import task ID "
        <> (quote id <> (" with result " <> quote (analysis_name alle_neu))))
    pure ""
  handle_analysis task id alle_gleich = do
    report_success task (
        "APIS analysis completed for import task ID "
        <> (quote id <> (" with result " <> quote (analysis_name alle_gleich))))
    pure ""
  handle_analysis task id konflikte = wait_for_decision task id
  handle_analysis task id fehler = do
    report_broken task "submission to APIS has failed." (
        "APIS reported an analysis error while processing the submitted metadata. Please try again, or ask a system administrator to investigate."
        ∷ [])
    return_result
  handle_analysis task id (other_result name) = do
    report_broken task "submission to APIS has failed." (
        "APIS returned an unexpected analysis result. Please ask a system administrator to investigate."
        ∷ [])
    return_result

  -- "Submit metadata to APIS"; the result is the import task ID.
  unfoldable pub submit_metadata : Sip → String → Action String
  unfolding default_values_message
  submit_metadata sip username = do
    task ← start "Submit metadata to APIS"
    created ← execute (create_import_task sip username) env.create_import_task_reply
    elim created [
      | ok id ↦ do
        report_success task ("Submitted metadata to APIS with import task ID " <> quote id)
        pure id
      | err e ↦
          if is_default_values_error e
          then (do
            report_content_error
            report_complete_invalid task default_values_message
            return_result)
          else do
            report_broken task "failed to submit metadata to APIS." (
                "An error occurred while creating the APIS import task. Please try again, or ask a system administrator to investigate."
                ∷ [])
            return_result
    ]

  -- The poll of the task's status
  unfoldable pub poll_analysis : ℕ → String → Action AnalysisResult
  poll_analysis task id = do
    reply ← execute (poll_import_task_status id) env.poll_import_task_status_reply
    or_broken reply task "failed to get an APIS analysis result." (
        "An error occurred while checking the APIS import task status. Please try again, or ask a system administrator to investigate."
        ∷ [])

  -- "Wait for APIS analysis"
  unfoldable pub wait_for_analysis : String → Action String
  unfolding handle_analysis poll_analysis
  wait_for_analysis id = do
    task ← start "Wait for APIS analysis"
    result ← poll_analysis task id
    handle_analysis task id result

  unfoldable pub record_data : Result JsonObject → Action (Unit {0})
  record_data (ok o) = set_custom_metadata o
  record_data (err e) = do
    task ← start "Record APIS metadata"
    report_broken task "APIS metadata recording has failed." (
        "An error occurred while recording APIS metadata for later workflow steps. Please try again, or ask a system administrator to investigate."
        ∷ [])
    return_result

  unfoldable pub record_metadata : CustomMetadata → Action (Unit {0})
  unfolding record_data
  record_metadata m = record_data (marshal m)

  -- createAPISImportTask
  unfoldable pub import_task : Sip → String → Action (Unit {0})
  unfolding submit_metadata wait_for_analysis record_metadata
  import_task sip username = do
    id ← submit_metadata sip username
    decision ← wait_for_analysis id
    record_metadata (record { import_task_id = id; decision = decision })
