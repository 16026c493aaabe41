-- ===== src/Dips/Service.antt =====
-- internal/dips/service.go: the methods Create and Show of the API.
pub mod Requests
use sfa_enduro_workflows.Base.{
  ℕ, suc, ◌+◌, ℤ, String, ◌<>◌, Bool, true, false, Option, none, some, List, [], ◌∷◌, ◌==◌, ltb,
  str_eq, if◌then◌else◌,
}
use sfa_enduro_workflows.Dips.Datatypes.{Dip, ShowResult, goa}
use sfa_enduro_workflows.Dips.Persistence.{
  Kind, not_found, Reply, ok, err, Faults, Table, RequestDipParams, request_dip, read_dip,
  delete_row,
}

-- goadips.MakeBadRequest, MakeInternalError, MakeNotFound
pub data ServiceError : Type 0 where
  bad_request : String → ServiceError
  internal_error : ServiceError
  missing : ServiceError

pub data Answer (A : Type 0) : Type 0 where
  answer : A → Answer A
  refused : ServiceError → Answer A

-- goadips.CreatePayload
pub record CreatePayload : Type 0 where
  pub doc_key : String
  pub ignore_cache : Bool

-- What a call of the service meets: its retention, the UUID that uuid.New makes, the time, the
-- statements that fail in each transaction, and whether Temporal starts a workflow.
pub record Situation : Type 0 where
  pub retention : ℤ
  pub new_uuid : String
  pub now : ℕ
  pub request_faults : Faults
  pub delete_faults : Faults
  pub starts : Dip → Bool

-- The answer, the table, and the DIPs for which a workflow was started.
pub record Served : Type 0 where
  pub reply : Answer String
  pub table : Table
  pub started : List Dip

-- maxDocKeyLength
abbrev max_doc_key_length : ℕ
max_doc_key_length = 1024

-- utf8.RuneCountInString
unfoldable pub rune_count : String → ℕ
rune_count String.[] = 0
rune_count (String.◌∷◌ c s) = suc (rune_count s)

unfoldable pub create_request : Situation → CreatePayload → RequestDipParams
create_request w p = record {
  uuid = w.new_uuid;
  doc_key = p.doc_key;
  ignore_cache = p.ignore_cache;
  retention = w.retention;
}

-- startDIPCreationWorkflow, with the removal of the DIP if it fails
unfoldable pub start_workflow : Situation → Dip → Table → Served
start_workflow w d rows =
    if w.starts d
    then record { reply = answer d.uuid; table = rows; started = d ∷ [] }
    else record {
      reply = refused internal_error;
      table = (delete_row w.delete_faults d.uuid rows).1;
      started = [];
    }

-- Behind the request
unfoldable pub handle_request : Situation → Reply Dip → Table → Served
unfolding start_workflow
handle_request w (err k joined) rows = record {
  reply = refused internal_error;
  table = rows;
  started = [];
}
handle_request w (ok d) rows =
    if str_eq d.uuid w.new_uuid
    then start_workflow w d rows
    else record { reply = answer d.uuid; table = rows; started = [] }

-- Create
unfoldable pub create : Situation → CreatePayload → Table → Served
unfolding handle_request create_request rune_count
create w p rows =
    if rune_count p.doc_key == 0
    then record { reply = refused (bad_request "empty docKey"); table = rows; started = [] }
    else if ltb max_doc_key_length (rune_count p.doc_key)
    then record {
      reply = refused (bad_request "docKey exceeds 1024 characters");
      table = rows;
      started = [];
    }
    else let (r, rows') = request_dip w.request_faults (create_request w p) w.now rows in
      handle_request w r rows'

-- The reply of ReadDIP
unfoldable pub show_reply : Reply Dip → Answer ShowResult
show_reply (ok d) = answer (goa d)
show_reply (err not_found joined) = refused missing
show_reply (err k joined) = refused internal_error

-- Show, of the ID and what uuid.Parse makes of it
unfoldable pub show : (String → Option String) → Faults → String → Table → Answer ShowResult
unfolding show_reply
show parse_uuid f id rows = elim (parse_uuid id) [
  | none ↦ refused (bad_request "invalid DIP ID")
  | some uuid ↦ show_reply (read_dip f uuid rows)
]
