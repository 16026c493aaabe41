-- ===== src/Tests/Dips.antt =====
-- Requests and updates of DIPs, and their theorems at these inputs.
use sfa_enduro_workflows.Base.{
  ◌≤◌, ◌≡◌, ◌≢◌, refl, pos, String, true, false, none, some, List, [], ◌∷◌, arith, map, eq_iff,
}
use sfa_enduro_workflows.Dips.Datatypes.{DipStatus, in_progress, stored, deleted, Dip}
use sfa_enduro_workflows.Dips.UpdateDip.{UpdateDipParams, updater}
use sfa_enduro_workflows.Dips.UpdateDip.Lifecycle.{
  updated, Transition, IsWellFormed, updated-Transition, updated-IsWellFormed, updated_again,
  updated_keeps_expiry,
}
use sfa_enduro_workflows.Dips.Persistence.{
  ok, Faults, Table, RequestDipParams, find_row, request_dip, create_row, delete_row, without,
  update_dip, update_found, handle_selection, candidates, select_dip, set_columns,
}
use sfa_enduro_workflows.Dips.Persistence.Requests.{
  IsConsistent, IsUsable, request_dip-IsConsistent, request_dip-IsUsable,
}
use sfa_enduro_workflows.Dips.Persistence.Updates.{identity, others, update_dip_frame}
use sfa_enduro_workflows.Dips.UpdateDip.Soundness.{IsSound}
use sfa_enduro_workflows.Dips.UpdateDip.Soundness.Operations.{
  Operation, operate_all, operate_all-IsSound,
}

abbrev kept_dip : Dip
kept_dip = record {
  dbid = 1;
  uuid = "dip-1";
  doc_key = "doc-1";
  status = stored;
  error_message = "";
  created_at = 10;
  started_at = 11;
  completed_at = 20;
  expires_at = 50;
  object_key = "DIP_dip-1.zip";
  workflow_id = "w-1";
}

abbrev running_dip : Dip
running_dip = record {
  dbid = 2;
  uuid = "dip-2";
  doc_key = "doc-2";
  status = in_progress;
  error_message = "";
  created_at = 30;
  started_at = 31;
  completed_at = 0;
  expires_at = 0;
  object_key = "";
  workflow_id = "w-2";
}

abbrev table : Table
table = kept_dip ∷ running_dip ∷ []

abbrev completion : UpdateDipParams
completion = record {
  uuid = "dip-2";
  status = stored;
  object_key = "DIP_dip-2.zip";
  error_message = "";
  retention = pos 100;
  workflow_id = "";
  clear_object_key = false;
}

abbrev completed_dip : Dip
completed_dip = record running_dip {
  status = stored;
  completed_at = 40;
  expires_at = 140;
  object_key = "DIP_dip-2.zip";
}

completes : updated completion 40 running_dip ≡ some completed_dip
unfolding updater set_columns
completes = refl

updated-Transition_example : Transition 40 running_dip stored
updated-Transition_example =
    updated-Transition completion 40 running_dip completed_dip refl completes

running_dip-IsWellFormed : IsWellFormed running_dip
running_dip-IsWellFormed = record { valid = refl; keyed = refl; completed = refl; expiring = refl }

updated-IsWellFormed_example : IsWellFormed completed_dip
updated-IsWellFormed_example =
    updated-IsWellFormed completion 40 running_dip completed_dip (omega arith)
      running_dip-IsWellFormed completes

stored_not_deleted : stored ≢ deleted
stored_not_deleted p = ground arith

updated_again_example : updated completion 90 completed_dip ≡ some completed_dip
updated_again_example =
    updated_again completion 40 90 running_dip completed_dip refl completes stored_not_deleted

updated_keeps_expiry_example : running_dip.expires_at ≤ completed_dip.expires_at
updated_keeps_expiry_example =
    updated_keeps_expiry completion 40 running_dip completed_dip completes

-- No statement fails.
abbrev reliable : Faults
reliable = record {
  begin_fails = false;
  query_fails = false;
  save_error = none;
  commit_fails = false;
  commit_applied = true;
  rollback_fails = false;
  read_fails = false;
}

abbrev request : String → String → RequestDipParams
request uuid doc = record { uuid = uuid; doc_key = doc; ignore_cache = false; retention = pos 100 }

abbrev renewed_dip : Dip
renewed_dip = record kept_dip { expires_at = 145 }

reuses : (request_dip reliable (request "dip-3" "doc-1") 45 table).0 ≡ ok renewed_dip
unfolding request_dip handle_selection candidates select_dip
reuses = refl

-- An expired DIP is not handed out.
expires : select_dip false 60 (candidates "doc-1" table) ≡ none
unfolding candidates select_dip
expires = refl

absent : find_row "dip-3" table ≡ none
unfolding find_row
absent = refl

request_dip-IsUsable_example : IsUsable (request "dip-3" "doc-1") 45 100 renewed_dip
request_dip-IsUsable_example =
    request_dip-IsUsable reliable (request "dip-3" "doc-1") 45 100 table renewed_dip refl absent
      reuses

table-IsConsistent : IsConsistent table
table-IsConsistent = record {
  increasing = ground arith;
  single = λ doc. ground (arith, eq_iff "doc-2" doc);
}

request_dip-IsConsistent_example :
    IsConsistent (request_dip reliable (request "dip-3" "doc-3") 45 table).1
request_dip-IsConsistent_example =
    request_dip-IsConsistent reliable (request "dip-3" "doc-3") 45 table table-IsConsistent

update_dip_frame_example :
    (map identity (update_dip reliable "dip-2" (updater completion 40) table).1
      ≡ map identity table)
    × (others "dip-2" (update_dip reliable "dip-2" (updater completion 40) table).1
        ≡ others "dip-2" table)
update_dip_frame_example =
    update_dip_frame reliable "dip-2" (updater completion 40) table table-IsConsistent.increasing

table-IsSound : IsSound table
table-IsSound = record {
  consistent = table-IsConsistent;
  rows_well_formed = (
    record { valid = refl; keyed = refl; completed = refl; expiring = refl },
    (running_dip-IsWellFormed, tt),
  );
}

-- Two requests race for a document, and the workflow of the first completes.
abbrev race : List Operation
race =
    Operation.request reliable (request "dip-3" "doc-3") 60
    ∷ Operation.request reliable (request "dip-4" "doc-3") 61
    ∷ Operation.update reliable "dip-3" (record completion { uuid = "dip-3" }) 62
    ∷ Operation.remove reliable "dip-2"
    ∷ []

operate_all-IsSound_example : IsSound (operate_all race table)
operate_all-IsSound_example = operate_all-IsSound race table table-IsSound

-- The second request is given the DIP of the first.
abbrev statuses : Table → List DipStatus
statuses [] = []
statuses (d ∷ rows) = d.status ∷ statuses rows

raced : statuses (operate_all race table) ≡ stored ∷ stored ∷ []
unfolding operate_all request_dip handle_selection create_row candidates select_dip update_dip
    update_found find_row updater delete_row without
raced = refl
