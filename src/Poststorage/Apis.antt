-- ===== src/Poststorage/Apis.antt =====
-- internal/workflows/poststorage_apis.go: the import of a stored package's METS file into AIS.
use sfa_enduro_workflows.Base.{ℕ, String, ◌<>◌, Option, none, some, [], ◌∷◌, before_first, quote}
use sfa_enduro_workflows.FilePath.{join, base}
use sfa_enduro_workflows.Workflow.{plain, Result, ok, err, succeed, system_error}
use sfa_enduro_workflows.Workflow.Errors.{error_text}
use sfa_enduro_workflows.Apis.{
  CustomMetadata, JsonObject, ImportBehaviour, unmarshal, import_behaviour,
}
use sfa_enduro_workflows.Preprocessing.Import.{apis_username}
use sfa_enduro_workflows.Poststorage.{
  ImportResult, erfolgreich, import_fehler, other_import, get_aip_path, fetch, create_import_run,
  poll_import_run_status, Environment, State, Action, ◌>>=◌, ◌>>◌, pure, return_nil, record_event,
  start, execute, or_broken, remove_later, Handler, with_cleanup, Ending, failing, run_sessions,
}

-- childwf.PostStorageParams
pub record Params : Type 0 where
  pub aip_uuid : String
  pub custom_metadata : Option JsonObject
  pub user : Option String

-- `behaviour_text` are the values of gen.ImportBehaviourType, which is generated.
module _ (env : Environment) (working_dir : String)
    (behaviour_text : ImportBehaviour → String) where
  mets_name : String → String
  mets_name uuid = "METS." <> (uuid <> ".xml")

  -- "Download AIP METS"; the result is the path of the file.
  unfoldable pub find_aip : ℕ → String → Action String
  find_aip task uuid = do
    reply ← execute (get_aip_path uuid) env.get_aip_path_reply
    or_broken reply task "AIP METS download has failed."
        "The AIP is stored, but the poststorage workflow failed to get the AIP path. Please try again, or ask a system administrator to investigate."

  unfoldable pub download : ℕ → String → String → Action String
  unfolding mets_name
  download task uuid path = do
    remove_later (join (working_dir ∷ uuid ∷ []))
    reply ←
        execute
          (fetch uuid ((before_first uuid (base path) <> uuid) <> ("/data/" <> mets_name uuid))
            (join (join (working_dir ∷ uuid ∷ []) ∷ mets_name uuid ∷ [])))
          env.fetch_reply
    or_broken reply task "AIP METS download has failed."
        "The AIP is stored, but the poststorage workflow failed while downloading the AIP METS file. Please try again, or ask a system administrator to investigate."
    record_event (succeed task "AIP METS downloaded")
    pure (join (join (working_dir ∷ uuid ∷ []) ∷ mets_name uuid ∷ []))

  unfoldable pub download_mets : String → Action String
  unfolding find_aip download
  download_mets uuid = do
    task ← start "Download AIP METS"
    path ← find_aip task uuid
    download task uuid path

  -- "Submit AIP METS to APIS"
  unfoldable pub submit_mets : CustomMetadata → String → String → Action (Unit {0})
  submit_mets metadata mets_path username = do
    task ← start "Submit AIP METS to APIS"
    behaviour ←
        or_broken (import_behaviour metadata) task "AIP METS submission to APIS has failed."
          "The AIP is stored, but the post-storage workflow failed while preparing to deliver the AIP METS file to APIS for AIS import. Please try again, or ask a system administrator to investigate."
    reply ←
        execute (create_import_run metadata.import_task_id mets_path behaviour username)
          env.create_import_run_reply
    run_id ←
        or_broken reply task "AIP METS submission to APIS has failed."
          "The AIP is stored, but the post-storage workflow failed while delivering the AIP METS file to APIS for AIS import. Please try again, or ask a system administrator to investigate."
    record_event (
        succeed task (
          "Submitted AIP METS to APIS with import task ID "
          <> (quote metadata.import_task_id
              <> (", import run ID "
                  <> (quote run_id
                      <> (", and import behaviour " <> quote (behaviour_text behaviour)))))))

  -- The switch on the import result
  unfoldable pub report_import : ℕ → CustomMetadata → ImportResult → Action (Unit {0})
  report_import task metadata erfolgreich = record_event (
      succeed task (
        "APIS import completed for import task ID "
        <> (quote metadata.import_task_id <> (" with result " <> quote "Erfolgreich"))))
  report_import task metadata import_fehler = do
    record_event (
        system_error task "APIS import has failed." (
          "The AIP is stored, but APIS reported an error while importing the AIP METS file into AIS. Please try again, or ask a system administrator to investigate."
          ∷ []))
    return_nil
  report_import task metadata (other_import name) = do
    record_event (
        system_error task "APIS import has failed." (
          "The AIP is stored, but APIS returned an unexpected import result while processing the AIP METS file. Please ask a system administrator to investigate."
          ∷ []))
    return_nil

  -- "Wait for APIS import"
  unfoldable pub wait_for_import : CustomMetadata → Action (Unit {0})
  unfolding report_import
  wait_for_import metadata = do
    task ← start "Wait for APIS import"
    reply ←
        execute (poll_import_run_status metadata.import_task_id) env.poll_import_run_status_reply
    result ←
        or_broken reply task "APIS import status check has failed."
          "The AIP is stored, but the post-storage workflow failed while checking whether APIS imported the AIP METS file for AIS. Please try again, or ask a system administrator to investigate."
    report_import task metadata result

  -- SessionHandler without its deferred cleanup
  unfoldable pub session_body : CustomMetadata → String → String → Action (Unit {0})
  unfolding download_mets submit_mets wait_for_import
  session_body metadata uuid username = do
    mets_path ← download_mets uuid
    submit_mets metadata mets_path username
    wait_for_import metadata

  -- SessionHandler
  unfoldable pub session_handler : CustomMetadata → String → String → Handler
  unfolding with_cleanup session_body
  session_handler metadata uuid username = with_cleanup env (session_body metadata uuid username)

  -- getApisMetadata
  unfoldable pub get_apis_metadata : Option JsonObject → Result CustomMetadata
  get_apis_metadata none =
      err (plain "APIS custom metadata is required when APIS integration is enabled")
  get_apis_metadata (some o) = unmarshal o

  -- Behind the checks of the parameters
  unfoldable pub run_import : Params → String → Result CustomMetadata → Ending × State
  unfolding session_handler
  run_import params uuid (err e) = (failing e, record { events = []; removed = [] })
  run_import params uuid (ok metadata) =
      run_sessions env (session_handler metadata uuid (apis_username params.user)) 5 none
        (record { events = []; removed = [] })

  unfoldable pub run_parsed : Params → Result String → Ending × State
  unfolding run_import get_apis_metadata
  run_parsed params (err e) =
      (failing (plain ("parse AIP UUID: " <> error_text e)), record { events = []; removed = [] })
  run_parsed params (ok uuid) = run_import params uuid (get_apis_metadata params.custom_metadata)

  -- Execute
  unfoldable pub run : Params → Ending × State
  unfolding run_parsed
  run params = run_parsed params (env.parse_uuid params.aip_uuid)
