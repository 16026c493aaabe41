-- ===== src/Tests/Service.antt =====
-- Calls of the DIP service, and its theorems at these calls.
use sfa_enduro_workflows.Base.{◌≡◌, refl, pos, String, Bool, true, false, none, [], ◌∷◌, arith}
use sfa_enduro_workflows.Dips.Datatypes.{stored, Dip}
use sfa_enduro_workflows.Dips.Persistence.{
  Faults, Table, find_row, request_dip, handle_selection, create_row, reuse_dip, candidates,
  select_dip,
}
use sfa_enduro_workflows.Dips.Persistence.Requests.{IsUsable}
use sfa_enduro_workflows.Dips.UpdateDip.Soundness.{IsSound}
use sfa_enduro_workflows.Dips.Service.{
  internal_error, answer, refused, CreatePayload, Situation, create, create_request,
}
use sfa_enduro_workflows.Dips.Persistence.Pending.{In}
use sfa_enduro_workflows.Dips.Service.Requests.{create-IsUsable, create-starts, create-refused}

abbrev reliable : Faults
reliable = record {
  begin_fails = false;
  query_fails = false;
  save_error = none;
  commit_fails = false;
  commit_applied = true;
  rollback_fails = false;
  read_fails = false;
}

abbrev cached_dip : Dip
cached_dip = record {
  dbid = 1;
  uuid = "dip-1";
  doc_key = "doc-1";
  status = stored;
  error_message = "";
  created_at = 10;
  started_at = 11;
  completed_at = 20;
  expires_at = 50;
  object_key = "DIP_dip-1.zip";
  workflow_id = "w-1";
}

abbrev table : Table
table = cached_dip ∷ []

table-IsSound : IsSound table
table-IsSound = record {
  consistent = record { increasing = ground arith; single = λ doc. ground arith };
  rows_well_formed = (record { valid = refl; keyed = refl; completed = refl; expiring = refl }, tt);
}

-- Temporal starts workflows, or does not.
abbrev situation : Bool → Situation
situation up = record {
  retention = pos 100;
  new_uuid = "dip-2";
  now = 45;
  request_faults = reliable;
  delete_faults = reliable;
  starts = λ d. up;
}

abbrev payload : String → CreatePayload
payload doc = record { doc_key = doc; ignore_cache = false }

absent : find_row "dip-2" table ≡ none
unfolding find_row
absent = refl

cached : (create (situation true) (payload "doc-1") table).reply ≡ answer "dip-1"
unfolding create request_dip handle_selection reuse_dip candidates select_dip
cached = refl

created : (create (situation true) (payload "doc-2") table).reply ≡ answer "dip-2"
unfolding create request_dip handle_selection create_row candidates select_dip
created = refl

not_started : (create (situation false) (payload "doc-2") table).reply ≡ refused internal_error
unfolding create request_dip handle_selection create_row candidates select_dip
not_started = refl

create-IsUsable_example :
    (d : Dip) × (d.uuid ≡ "dip-1")
    × In d (create (situation true) (payload "doc-1") table).table
    × IsUsable (create_request (situation true) (payload "doc-1")) 45 100 d
create-IsUsable_example =
    create-IsUsable (situation true) (payload "doc-1") table 100 "dip-1" refl absent cached

create-starts_example :
    (d : Dip) × ((create (situation true) (payload "doc-2") table).started ≡ d ∷ [])
    × ((situation true).starts d ≡ true)
    × (d.uuid ≡ "dip-2")
create-starts_example = create-starts (situation true) (payload "doc-2") table created

create-refused_example :
    find_row "dip-2" (create (situation false) (payload "doc-2") table).table ≡ none
create-refused_example =
    create-refused (situation false) (payload "doc-2") table internal_error absent refl refl
      not_started
