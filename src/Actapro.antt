-- ===== src/Actapro.antt =====
-- internal/actapro: the activities that ask ACTApro for an export and for a document. The client that
-- ogen generates is a parameter: what it returns to each request.
pub mod Export
pub mod Document
use sfa_enduro_workflows.Base.{
  ℕ, String, ◌<>◌, Bool, true, false, not, ◌&&◌, ◌||◌, Option, none, some, List, [], ◌∷◌, ◌++◌, map,
  str_eq, if◌then◌else◌, contains, quote, join_texts, to_upper,
}
use sfa_enduro_workflows.Workflow.{Result, ok, err}
pub use sfa_enduro_workflows.Workflow.Outcomes.{
  Outcome, success, failure, non_retryable, typed_error, ◌>>=◌,
}
use sfa_enduro_workflows.Workflow.Errors.{error_text}
use sfa_enduro_workflows.Polling.{Tick, done, tick, poll}

-- The responses to a request, each refusal with its message
pub data Response (A : Type 0) : Type 0 where
  responded : A → Response A
  bad_request forbidden not_found conflict locked server_error : String → Response A
  other_response : Response A

-- The switch on a response, the same for each request but for the text in front
unfoldable pub settle : {A : Type 0} → String → Response A → Outcome A
settle request (responded a) = success a
settle request (bad_request m) = non_retryable (request <> (": bad request: " <> m))
settle request (forbidden m) = non_retryable (request <> (": forbidden: " <> m))
settle request (not_found m) = non_retryable (request <> (": not found: " <> m))
settle request (conflict m) = failure (request <> (": conflict: " <> m))
settle request (locked m) = failure (request <> (": locked: " <> m))
settle request (server_error m) = failure (request <> (": server error: " <> m))
settle request other_response = failure (request <> ": unexpected response")

unfoldable pub settle_reply : {A : Type 0} → String → Result (Response A) → Outcome A
unfolding settle
settle_reply request (err e) = failure (request <> (": " <> error_text e))
settle_reply request (ok r) = settle request r

-- CreateExportActivity.Execute; the response has the ID of the export.
unfoldable pub create_export : Result (Response String) → Outcome String
unfolding settle_reply
create_export reply = settle_reply "create ACTApro export" reply >>= λ id.
    if str_eq id ""
    then non_retryable "create ACTApro export: missing export ID in created response"
    else success id

-- gen.MassOperationLogDTO; an option that is not set is the empty text.
pub record LogEntry : Type 0 where
  pub status : String
  pub doc_key : String
  pub message : String

abbrev unless_empty : String → String → List String
unless_empty s t = if str_eq s "" then [] else t ∷ []

format_entry : LogEntry → String
format_entry e =
    let prefix =
      join_texts " "
        (unless_empty e.status ("[" <> (e.status <> "]")) ++ unless_empty e.doc_key e.doc_key) in
    if str_eq e.message ""
    then prefix
    else if str_eq prefix ""
    then e.message
    else prefix <> (": " <> e.message)

format_lines : List LogEntry → List String
format_lines [] = []
format_lines (e ∷ es) =
    let rest = format_lines es in
    let line = format_entry e in if str_eq line "" then rest else ("- " <> line) ∷ rest

-- formatExportLogs
unfoldable pub format_export_logs : List LogEntry → String
unfolding format_entry format_lines
format_export_logs entries = join_texts "\n" (format_lines entries)

-- exportLogs
unfoldable pub export_logs : Result (Response (List LogEntry)) → Outcome (List LogEntry)
unfolding settle_reply
export_logs reply = settle_reply "get ACTApro export logs" reply

-- PollExportStatusResult
pub record ExportStatus : Type 0 where
  pub status : String
  pub logs : String

-- What a tick finds: the status of the export, and the reply to a request for its logs.
pub record Info : Type 0 where
  pub status : Response String
  pub logs : Result (Response (List LogEntry))

-- The switch on the status; `none` continues the loop.
unfoldable pub take_status :
    String → Result (Response (List LogEntry)) → Option (Outcome ExportStatus)
unfolding to_upper export_logs format_export_logs
take_status status logs =
    if str_eq status ""
    then some (non_retryable "poll ACTApro export status: missing status")
    else if str_eq (to_upper status) "COMPLETED"
    then some (success (record { status = to_upper status; logs = "" }))
    else if str_eq (to_upper status) "FAILED" || str_eq (to_upper status) "CANCELED"
    then some (
        export_logs logs >>= λ entries.
        success (record { status = to_upper status; logs = format_export_logs entries }))
    else none

abbrev pub on_status :
    Outcome String → Result (Response (List LogEntry)) → Option (Outcome ExportStatus)
on_status (success status) logs = take_status status logs
on_status (failure e) logs = some (failure e)
on_status (non_retryable e) logs = some (non_retryable e)
on_status (typed_error type e) logs = some (typed_error type e)

-- The body of the loop of PollExportStatusActivity
unfoldable pub export_step : Tick Info → Option (Outcome ExportStatus)
unfolding settle take_status
export_step (done e) = some (failure (error_text e))
export_step (tick (err e)) = some (failure ("poll ACTApro export status: " <> error_text e))
export_step (tick (ok info)) = on_status (settle "poll ACTApro export status" info.status) info.logs

-- PollExportStatusActivity.Execute; `uuid.Parse` of the ID is a parameter, with its error.
unfoldable pub poll_export_status :
    Result String → (ℕ → Tick Info) → ℕ → Option (Outcome ExportStatus)
unfolding poll export_step
poll_export_status (err e) ticks rounds =
    some (non_retryable ("poll ACTApro export status: invalid export ID: " <> error_text e))
poll_export_status (ok id) ticks rounds = poll export_step ticks rounds 0

-- What the calls of package os and io return when the file is written
pub record Writing : Type 0 where
  pub mkdir_error : Option String
  pub create_error : Option String
  pub copy_error : Option String
  pub close_error : Option String

abbrev unless_none : String → Option String → List String
unless_none message none = []
unless_none message (some e) = (message <> e) ∷ []

-- The copy, and errors.Join of its error and that of the end
unfoldable pub copy_export : Writing → String → Outcome String
copy_export w text =
    elim (unless_none "download ACTApro export: write file: " w.copy_error
      ++ unless_none "download ACTApro export: close file: " w.close_error) [
        | [] ↦ success text
        | e ∷ es ↦ failure (join_texts "\n" (e ∷ es))
      ]

-- Behind the switch on the response; a nil reader is `none`. The result is what the file holds.
unfoldable pub write_export : Writing → Option String → Outcome String
unfolding copy_export
write_export w none = non_retryable "download ACTApro export: missing export binary"
write_export w (some text) = elim w.mkdir_error [
  | some e ↦ failure ("download ACTApro export: create directory: " <> e)
  | none ↦ (elim w.create_error [
    | some e ↦ failure ("download ACTApro export: create file: " <> e)
    | none ↦ copy_export w text
  ])
]

-- DownloadExportActivity.Execute
unfoldable pub download_export :
    Result String → String → Result (Response (Option String)) → Writing → Outcome String
unfolding settle_reply write_export
download_export (err e) metadata_path reply w =
    non_retryable ("download ACTApro export: invalid export ID: " <> error_text e)
download_export (ok id) metadata_path reply w =
    if str_eq metadata_path ""
    then non_retryable "download ACTApro export: missing metadata path"
    else (settle_reply "download ACTApro export" reply >>= λ text. write_export w text)

-- gen.Document: groups of fields, each with its type; a value that is not set is the empty text.
pub record Field : Type 0 where
  pub type : String
  pub value : String

pub record Group : Type 0 where
  pub type : String
  pub fields : List Field

-- The variables of the loops
pub record Found : Type 0 where
  pub uuids : List String
  pub errors : List String

module _ (parse_uuid : String → Result String) where
  -- One value of an AIP_ID field that is not empty
  unfoldable pub add_uuid : String → Result String → Found → Found
  add_uuid id (err e) s = record s {
    errors = s.errors ++ ("invalid AIP UUID " <> (quote id <> (": " <> error_text e))) ∷ [];
  }
  add_uuid id (ok uuid) s =
      if contains s.uuids uuid then s else record s { uuids = s.uuids ++ uuid ∷ [] }

  unfoldable pub add_field : Field → Found → Found
  unfolding add_uuid
  add_field f s =
      if str_eq f.type "AIP_ID" && not (str_eq f.value "")
      then add_uuid f.value (parse_uuid f.value) s
      else s

  unfoldable pub add_fields : List Field → Found → Found
  unfolding add_field
  add_fields [] s = s
  add_fields (f ∷ fs) s = add_fields fs (add_field f s)

  unfoldable pub add_groups : List Group → Found → Found
  unfolding add_fields
  add_groups [] s = s
  add_groups (g ∷ gs) s =
      add_groups gs (if str_eq g.type "AIP_ID_Gp" then add_fields g.fields s else s)

  -- Behind the loops
  unfoldable pub found_uuids : Found → Outcome (List String)
  found_uuids s = elim s.errors [
    | [] ↦ success s.uuids
    | e ∷ es ↦ non_retryable ("get ACTApro document: " <> join_texts "\n" (e ∷ es))
  ]

  -- GetDocumentActivity.Execute
  unfoldable pub get_document : Result (Response (List Group)) → Outcome (List String)
  unfolding settle_reply add_groups found_uuids
  get_document reply = settle_reply "get ACTApro document" reply >>= λ groups.
      found_uuids (add_groups groups (record { uuids = []; errors = [] }))
