-- ===== src/Tests/CreateDip.antt =====
-- Runs of the workflow that creates a DIP, and its theorems at these runs.
use sfa_enduro_workflows.Base.{
  ℕ, zero, suc, ◌≤◌, ◌≡◌, ◌≢◌, refl, pos, true, false, none, [], ◌∷◌, arith,
}
use sfa_enduro_workflows.Workflow.{plain, session_failed, Result, ok, err}
use sfa_enduro_workflows.Dips.Datatypes.{queued, stored, deleted, Dip}
use sfa_enduro_workflows.Dips.UpdateDip.{UpdateDipParams}
use sfa_enduro_workflows.Dips.CreateDip.{History, update_dip, Environment, Config, State, is_lost}
use sfa_enduro_workflows.Dips.CreateDip.Session.{
  fetch_metadata, delay, try_fetch, fetch_attempts, fetch_valid_metadata, fetch_mets, report_all,
  collect_metadata, prepare_header, fetch_content, pack_and_upload, assemble, parse, session_body,
  session_handler,
}
use sfa_enduro_workflows.Dips.CreateDip.Retention.{after_reply, delete_after_retention}
use sfa_enduro_workflows.Dips.CreateDip.Execute.{
  Ending, waiting, failing, finished, prepare, find_aips, start_update, list_aips, try_session,
  recover, open_session, run_sessions, body, conclude, settle, finish, run,
}
use sfa_enduro_workflows.Dips.CreateDip.Bounds.{sessions, exports}
use sfa_enduro_workflows.Dips.CreateDip.Bounds.Run.{run-within_bounds}
use sfa_enduro_workflows.Dips.CreateDip.Cleanup.{deletions, removes, uploads, has_upload}
use sfa_enduro_workflows.Dips.CreateDip.Cleanup.Retention.{is_kept, run-ends}
use sfa_enduro_workflows.Dips.CreateDip.Cleanup.Upload.{run-uploads}
use sfa_enduro_workflows.Dips.CreateDip.Cleanup.Failure.{Settled, run-Settled}

abbrev dip : Dip
dip = record {
  dbid = 1;
  uuid = "dip-1";
  doc_key = "doc-1";
  status = queued;
  error_message = "";
  created_at = 10;
  started_at = 0;
  completed_at = 0;
  expires_at = 0;
  object_key = "";
  workflow_id = "";
}

-- The DIP that an update returns: it expires at 100, and is deleted then.
abbrev after_update : ℕ → UpdateDipParams → Dip
after_update n p = elim p.status [
  | deleted ↦ elim n [
    | zero ↦ record dip { status = stored; expires_at = 100; object_key = "DIP_dip-1.zip" }
    | suc m ↦ elim m [
      | zero ↦ record dip { status = stored; expires_at = 100; object_key = "DIP_dip-1.zip" }
      | suc _ ↦ record dip { status = deleted; expires_at = 100; object_key = "DIP_dip-1.zip" }
    ]
  ]
  | _ ↦ dip
]

abbrev replies : History → Result Dip
replies [] = ok dip
replies (update_dip p ∷ h) = ok (after_update (deletions (update_dip p ∷ h)) p)
replies (_ ∷ h) = ok dip

-- Every activity succeeds.
abbrev working : Environment
working = record {
  workflow_id = "w-1";
  now = λ h. 20;
  context_error = λ h. none;
  update_dip_reply = replies;
  get_document_reply = λ h. ok ("aip-1" ∷ []);
  get_aip_path_reply = λ h. ok "a/SIP-aip-1.zip";
  create_session_reply = λ h. ok tt;
  create_export_reply = λ h. ok "export-1";
  poll_export_status_reply = λ h. ok (record { completed = true; status = "COMPLETED"; logs = "" });
  download_export_reply = λ h. ok tt;
  xmlvalidate_reply = λ h. ok [];
  fetch_reply = λ h. ok tt;
  parse_metadata_reply = λ h. ok (record {
    content_files =
        (record {
          aip_uuid = "aip-1";
          aip_path = "data/objects/a.tif";
          dip_path = "content/a.tif";
          checksum = "d41d";
          checksum_algorithm = "md5";
        })
        ∷ [];
    header_files = "header/metadata.xml" ∷ [];
  });
  prepare_dip_reply = λ h. ok tt;
  archive_zip_reply = λ h. ok "/work/dip-1/DIP_dip-1.zip";
  bucket_upload_reply = λ h. ok tt;
  bucket_delete_reply = λ h. ok tt;
  remove_paths_reply = λ h. ok tt;
  sleep_reply = λ h. ok tt;
}

-- The export is never valid.
abbrev invalid_export : Environment
invalid_export = record working { xmlvalidate_reply = λ h. ok ("line 1: no" ∷ []) }

-- Every session is lost.
abbrev losing : Environment
losing = record working { create_export_reply = λ h. err session_failed }

-- The upload fails, but the object may be there.
abbrev half_uploaded : Environment
half_uploaded = record working { bucket_upload_reply = λ h. err (plain "timeout") }

abbrev config : Config
config = record { working_dir = "/work"; xsd_dir = "/xsd"; retention = pos 80 }

run_in : Environment → Ending × State
unfolding run body finish settle conclude prepare start_update list_aips find_aips run_sessions
    delay is_lost open_session try_session session_handler session_body fetch_valid_metadata
    fetch_attempts try_fetch fetch_metadata collect_metadata fetch_mets report_all parse assemble
    prepare_header fetch_content pack_and_upload delete_after_retention after_reply recover
run_in env = run env config 4 dip

run-within_bounds_example :
    (sessions (run_in losing).1.calls ≤ 5) × (exports (run_in losing).1.calls ≤ 15)
unfolding run_in
run-within_bounds_example = run-within_bounds losing config 4 dip

-- The bounds are reached.
five_sessions : sessions (run_in losing).1.calls ≡ 5
unfolding run_in
five_sessions = refl

three_exports : exports (run_in invalid_export).1.calls ≡ 3
unfolding run_in
three_exports = refl

deleted_dip : (run_in working).0 ≡ finished dip
unfolding run_in
deleted_dip = refl

two_rounds : deletions (run_in working).1.calls ≡ 2
unfolding run_in
two_rounds = refl

replies_expire : (h : History) → 2 ≤ deletions h → is_kept (working.update_dip_reply h) ≡ false
replies_expire h enough = ground arith

run-ends_example : (run working config 3 dip).0 ≢ waiting
run-ends_example = run-ends working config 2 dip replies_expire

run-uploads_example : uploads working (run_in working).1.calls ≡ true
unfolding run_in
run-uploads_example = run-uploads working config 4 dip dip deleted_dip

asked : has_upload "DIP_dip-1.zip" (run_in half_uploaded).1.calls ≡ true
unfolding run_in
asked = refl

-- The upload timed out, so the run fails, and asks to remove the object.
timed_out : (run_in half_uploaded).0 ≡ failing (plain "timeout")
unfolding run_in
timed_out = refl

removed : removes "DIP_dip-1.zip" (run_in half_uploaded).1.calls ≡ true
unfolding run_in
removed = refl

run-Settled_example : Settled half_uploaded "DIP_dip-1.zip" (run_in half_uploaded).1
unfolding run_in
run-Settled_example = run-Settled half_uploaded config 4 dip "DIP_dip-1.zip" asked
