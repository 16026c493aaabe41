-- ===== src/Tests/Poststorage.antt =====
-- Runs of the poststorage workflows, and their theorems at these runs.
use sfa_enduro_workflows.Base.{◌≡◌, refl, String, Bool, true, false, none, some, [], ◌∷◌}
use sfa_enduro_workflows.Workflow.{session_failed, Result, ok, err, call, History}
use sfa_enduro_workflows.Workflow.Errors.{is_lost}
use sfa_enduro_workflows.Workflow.Reports.{open_tasks, verdict, broken}
use sfa_enduro_workflows.Apis.{
  ImportBehaviour, append_only, overwrite_and_append, continue_overwrite, unmarshal,
  import_behaviour,
}
use sfa_enduro_workflows.Preprocessing.Invariant.{is_passed}
use sfa_enduro_workflows.Poststorage.{
  Call, sleep, erfolgreich, Environment, State, Ending, finished, run_sessions, close_session,
}
use sfa_enduro_workflows.Poststorage.Apis.{Params}
use sfa_enduro_workflows.Poststorage.Apis
use sfa_enduro_workflows.Poststorage.Cantons
use sfa_enduro_workflows.Poststorage.Invariant.Apis.{imports, run-finishes_tasks, run-imports}
use sfa_enduro_workflows.Poststorage.Invariant.Cantons.{exported, run-exports}

abbrev working : Environment
working = record {
  context_error = λ h. none;
  parse_uuid = λ s. ok s;
  create_session_reply = λ h. ok tt;
  get_aip_path_reply = λ h. ok "a/SIP-aip-1.7z";
  fetch_reply = λ h. ok tt;
  create_import_run_reply = λ h. ok "run-1";
  poll_import_run_status_reply = λ h. ok erfolgreich;
  parse_mets_reply = λ h. ok (record {
    updated_arelda_metadata_rel_path = "";
    metadata_rel_path = "objects/metadata.xml";
  });
  combine_md_reply = λ h. ok tt;
  archive_zip_reply = λ h. ok "/work/search-md.zip";
  bucket_upload_reply = λ h. ok tt;
  remove_paths_reply = λ h. ok tt;
}

-- A session was slept behind, that is, one was lost.
abbrev was_lost : History Call → Bool
was_lost [] = false
was_lost (call (sleep t) ∷ h) = true
was_lost (_ ∷ h) = was_lost h

abbrev unless_lost : {A : Type 0} → A → History Call → Result A
unless_lost a h = elim (was_lost h) [ true ↦ ok a | false ↦ err session_failed ]

-- The worker of the first session is lost while the METS file is downloaded.
abbrev losing : Environment
losing = record working { fetch_reply = unless_lost tt; remove_paths_reply = unless_lost tt }

abbrev text : ImportBehaviour → String
text append_only = "AppendOnly"
text overwrite_and_append = "OverwriteAndAppend"

abbrev params : Params
params = record {
  aip_uuid = "aip-1";
  custom_metadata = some (("importTaskId", "task-1") ∷ ("decision", continue_overwrite) ∷ []);
  user = none;
}

import_in : Environment → Ending × State
unfolding Apis.run run_sessions close_session unmarshal import_behaviour is_lost
import_in env = Apis.run env "/work" text params

imported : (import_in working).0 ≡ finished
unfolding import_in
imported = refl

unfailed : is_passed (verdict (import_in working).1.events) ≡ true
unfolding import_in
unfailed = refl

run-imports_example : imports working (import_in working).1.events ≡ true
unfolding import_in
run-imports_example = run-imports working "/work" text params imported unfailed

run-finishes_tasks_example : open_tasks (import_in losing).1.events ≡ some []
unfolding import_in
run-finishes_tasks_example = run-finishes_tasks losing "/work" text params

-- The second session imports the file, but the result keeps the system error of the session that was
-- lost.
imported_after_loss : (import_in losing).0 ≡ finished
unfolding import_in
imported_after_loss = refl

imported_with_error :
    (imports losing (import_in losing).1.events ≡ true)
    × (verdict (import_in losing).1.events ≡ broken)
unfolding import_in
imported_with_error = (refl, refl)

export_in : Environment → Ending × State
unfolding Cantons.run run_sessions is_lost
export_in env = Cantons.run env "/work" "aip-1"

exported_after_loss : (export_in losing).0 ≡ finished
unfolding export_in
exported_after_loss = refl

run-exports_example : exported losing (export_in losing).1.events ≡ true
unfolding export_in
run-exports_example = run-exports losing "/work" "aip-1" exported_after_loss
