-- ===== src/Tests/Preprocessing.antt =====
-- Runs of the preprocessing workflow, and its theorems at these runs.
use sfa_enduro_workflows.Base.{
  ℕ, zero, suc, ◌≡◌, refl, true, false, Option, none, some, List, [], ◌∷◌, ◌++◌, ◌⊎◌, quote,
}
use sfa_enduro_workflows.FilePath.{join, base, rel}
use sfa_enduro_workflows.Enums.{type_name}
use sfa_enduro_workflows.Sip.{Sip, as_digitized_sip, is_sip, is_aip, name}
use sfa_enduro_workflows.Apis.{marshal, continue_append}
use sfa_enduro_workflows.Workflow.{ok, call, ul}
use sfa_enduro_workflows.Workflow.Reports.{
  open_tasks, verdict, passed, outcome_of_verdict, outcome_of_verdict-IsLawful,
}
use sfa_enduro_workflows.Preprocessing.{
  Call, create_bag, konflikte, Environment, State, Flow, next, returned,
}
use sfa_enduro_workflows.Preprocessing.Checks.{
  extract_sip, check_bag, validate_bag, unbag_sip, open_bag, identify, check_structure, check_name,
}
use sfa_enduro_workflows.Preprocessing.Contents.{
  check_manifest, check_formats, check_files, check_metadata, check_logical_metadata,
}
use sfa_enduro_workflows.Preprocessing.Import.{
  submit_metadata, wait_for_analysis, poll_analysis, handle_analysis, wait_for_decision, ask_parent,
  signal_parent, receive, resolve, record_metadata, record_data, apis_username, import_task,
}
use sfa_enduro_workflows.Preprocessing.Import.Handover.{Recorded, import_task-Recorded}
use sfa_enduro_workflows.Preprocessing.Preservation.{
  write_premis, restructure, write_identifiers, bag,
}
use sfa_enduro_workflows.Preprocessing.Execute.{initial, Params, Config, run}
use sfa_enduro_workflows.Preprocessing.Invariant.Run.{
  run-balanced, run-gated, run-completed, run-stopped,
}

-- Every activity succeeds, the package is a digitized SIP in a bag, and APIS finds conflicts.
abbrev pub accepting : Environment
accepting = record {
  archive_extract_reply = λ h. ok "/shared/x/SIP_1";
  is_bag_reply = λ h. ok true;
  bag_validate_reply = λ h. ok "";
  unbag_reply = λ h. ok "/shared/x/SIP_1";
  identify_sip_reply = λ h. ok (as_digitized_sip "/shared/x/SIP_1");
  validate_structure_reply = λ h. ok none;
  validate_sip_name_reply = λ h. ok none;
  verify_manifest_reply = λ h. ok (record {
    checksum_failures = none;
    manifest_failures = none;
    missing_files = none;
    unexpected_files = none;
  });
  ffvalidate_reply = λ h. ok none;
  validate_files_reply = λ h. ok none;
  xmlvalidate_reply = λ h. ok none;
  validate_premis_reply = λ h. ok none;
  create_import_task_reply = λ h. ok "task-1";
  poll_import_task_status_reply = λ h. ok konflikte;
  has_parent = true;
  request_decision_reply = λ h. ok tt;
  decision_response = λ h. continue_append;
  premis_reply = λ h. ok tt;
  transform_sip_reply = λ h. ok "/shared/x/SIP_1";
  write_identifier_file_reply = λ h. ok tt;
  create_bag_reply = λ h. ok tt;
  base_no_ext = λ path. "SIP_1";
}

-- The manifest names a file that is missing.
abbrev rejecting : Environment
rejecting = record accepting {
  verify_manifest_reply = λ h. ok (record {
    checksum_failures = none;
    manifest_failures = none;
    missing_files = some ("Missing file: SIP_1/content/a.xml" ∷ []);
    unexpected_files = none;
  });
}

abbrev config : Config
config = record { shared_path = "/shared"; apis_enabled = true }

abbrev params : Option Params
params = some (record { relative_path = "x/SIP_1.zip"; sip_name = "SIP_1.zip"; user = none })

run_in : Environment → Flow (Unit {0}) × State
unfolding run extract_sip check_bag open_bag validate_bag unbag_sip identify check_structure
    check_name check_manifest check_formats check_files check_metadata check_logical_metadata
    import_task apis_username write_premis restructure write_identifiers bag is_sip is_aip join base
    rel quote ul marshal type_name as_digitized_sip name
run_in env = run env (outcome_of_verdict Call) config params

accepted : (run_in accepting).0 ≡ next tt
unfolding run_in
accepted = refl

rejected_early : (run_in rejecting).0 ≡ returned
unfolding run_in
rejected_early = refl

run-balanced_example : open_tasks (run_in rejecting).1.events ≡ some []
unfolding run_in
run-balanced_example =
    run-balanced rejecting (outcome_of_verdict Call) (outcome_of_verdict-IsLawful Call) config
      params

abbrev take : {A : Type 0} → ℕ → List A → List A
take zero xs = []
take (suc n) [] = []
take (suc n) (x ∷ xs) = x ∷ take n xs

abbrev drop : {A : Type 0} → ℕ → List A → List A
drop zero xs = xs
drop (suc n) [] = []
drop (suc n) (x ∷ xs) = drop n xs

bagged_last :
    let h = (run_in accepting).1.events in
    h ≡ take 1 h ++ (call (create_bag "/shared/x/SIP_1") ∷ drop 2 h)
unfolding run_in
bagged_last = refl

run-gated_example : verdict (drop 2 (run_in accepting).1.events) ≡ passed
unfolding run_in
run-gated_example =
    run-gated accepting (outcome_of_verdict Call) (outcome_of_verdict-IsLawful Call) config params
      (take 1 (run_in accepting).1.events) (drop 2 (run_in accepting).1.events)
      (create_bag "/shared/x/SIP_1") bagged_last refl

run-completed_example :
    ((outcome_of_verdict Call).has_content_error (run_in accepting).1.events ≡ false)
    × ((outcome_of_verdict Call).has_system_error (run_in accepting).1.events ≡ false)
unfolding run_in
run-completed_example =
    run-completed accepting (outcome_of_verdict Call) (outcome_of_verdict-IsLawful Call) config
      params accepted

run-stopped_example :
    ((outcome_of_verdict Call).has_content_error (run_in rejecting).1.events ≡ true)
    ⊎ ((outcome_of_verdict Call).has_system_error (run_in rejecting).1.events ≡ true)
unfolding run_in
run-stopped_example =
    run-stopped rejecting (outcome_of_verdict Call) (outcome_of_verdict-IsLawful Call) config params
      rejected_early

abbrev sip : Sip
sip = as_digitized_sip "/shared/x/SIP_1"

-- APIS finds conflicts, and the user decides to append.
import_in : State → Flow (Unit {0}) × State
unfolding import_task submit_metadata wait_for_analysis poll_analysis handle_analysis
    wait_for_decision ask_parent signal_parent receive resolve record_metadata record_data marshal
import_in s = import_task accepting sip "user" s

goes_on : (import_in initial).0 ≡ next tt
unfolding import_in
goes_on = refl

import_task-Recorded_example : Recorded (import_in initial).1
unfolding import_in
import_task-Recorded_example = import_task-Recorded accepting sip "user" initial goes_on
