-- ===== src/Dips/CreateDip.antt =====
-- internal/dips/workflows/create_dip.go: the calls of the workflow, what answers them, and its state.
pub mod Session
pub mod Retention
pub mod Execute
pub mod Bounds
pub mod Cleanup
use sfa_enduro_workflows.Base.{
  ℕ, ℤ, String, ◌<>◌, Bool, true, false, Option, none, some, List, [], ◌∷◌, ◌||◌, str_eq,
  if◌then◌else◌,
}
use sfa_enduro_workflows.Workflow.{
  Err, application, session_failed, canceled, plain, joined, Result, ok, err,
}
unfoldable pub use sfa_enduro_workflows.Workflow.Errors.{
  error_text, activity_error_message, is_lost, join_errors,
}
use sfa_enduro_workflows.Dips.Datatypes.{Dip}
use sfa_enduro_workflows.Dips.UpdateDip.{UpdateDipParams}

-- amss.FetchActivityParams
pub record FetchParams : Type 0 where
  pub aip_uuid : String
  pub relative_path : String
  pub destination : String
  pub checksum : String
  pub checksum_algorithm : String

-- activities.AIP
pub record ParsedAip : Type 0 where
  pub uuid : String
  pub dir_name : String
  pub mets_path : String

-- The files of the parsed metadata: datatypes.ContentFile, and the header files by their paths.
pub record ContentFile : Type 0 where
  pub aip_uuid : String
  pub aip_path : String
  pub dip_path : String
  pub checksum : String
  pub checksum_algorithm : String

pub record Metadata : Type 0 where
  pub content_files : List ContentFile
  pub header_files : List String

-- actapro.PollExportStatusResult
pub record ExportStatus : Type 0 where
  pub completed : Bool
  pub status : String
  pub logs : String

pub data Call : Type 0 where
  update_dip : UpdateDipParams → Call
  get_document : String → Call
  get_aip_path : String → Call
  create_session : Call
  create_export : String → Call
  poll_export_status : String → Call
  download_export : String → String → Call
  xmlvalidate : String → String → Call
  fetch : FetchParams → Call
  parse_metadata : String → List ParsedAip → Call
  prepare_dip : String → String → String → List String → Call
  archive_zip : String → Call
  bucket_upload : String → String → Call
  bucket_delete : String → Call
  remove_paths : List String → Call
  complete_session : Call
  sleep : ℕ → Call

-- The newest call stands first.
abbrev pub History : Type 0
History = List Call

-- What Temporal and the activities answer, after the history of a run.
pub record Environment : Type 0 where
  pub workflow_id : String
  pub now : History → ℕ
  -- ctx.Err()
  pub context_error : History → Option Err
  pub update_dip_reply : History → Result Dip
  pub get_document_reply : History → Result (List String)
  pub get_aip_path_reply : History → Result String
  pub create_session_reply : History → Result (Unit {0})
  pub create_export_reply : History → Result String
  pub poll_export_status_reply : History → Result ExportStatus
  pub download_export_reply : History → Result (Unit {0})
  pub xmlvalidate_reply : History → Result (List String)
  pub fetch_reply : History → Result (Unit {0})
  pub parse_metadata_reply : History → Result Metadata
  pub prepare_dip_reply : History → Result (Unit {0})
  pub archive_zip_reply : History → Result String
  pub bucket_upload_reply : History → Result (Unit {0})
  pub bucket_delete_reply : History → Result (Unit {0})
  pub remove_paths_reply : History → Result (Unit {0})
  pub sleep_reply : History → Result (Unit {0})

-- CreateDIP
pub record Config : Type 0 where
  pub working_dir : String
  pub xsd_dir : String
  pub retention : ℤ

-- An AIP of the document, with its path in the storage service.
pub record Aip : Type 0 where
  pub uuid : String
  pub relative_path : String

-- The type `state`, with the calls that were made.
pub record State : Type 0 where
  pub calls : History
  pub dip : Dip
  pub dip_path : String
  pub object_key : String
  pub aips : List Aip

-- A function of the workflow that returns a value and an error.
abbrev pub Action : Type 0 → Type 0
Action A = State → Result A × State

abbrev pub continue : {A B : Type 0} → Result A → (A → Action B) → Action B
continue (ok a) f s = f a s
continue (err e) f s = (err e, s)

infixl 5 ◌>>=◌ ◌>>◌
abbrev pub ◌>>=◌ : {A B : Type 0} → Action A → (A → Action B) → Action B
◌>>=◌ m f s = let (r, s') = m s in continue r f s'

abbrev pub ◌>>◌ : {A B : Type 0} → Action A → Action B → Action B
m >> n = m >>= λ _. n

abbrev pub pure : {A : Type 0} → A → Action A
pure a s = (ok a, s)

abbrev pub fail : {A : Type 0} → Err → Action A
fail e s = (err e, s)

-- The reply of a call as a value, also if it is an error.
abbrev pub attempt : {A : Type 0} → Call → (History → Result A) → Action (Result A)
attempt c reply s = let h = c ∷ s.calls in (ok (reply h), record s { calls = h })

-- A call whose error is returned at once.
abbrev pub execute : {A : Type 0} → Call → (History → Result A) → Action A
execute c reply s = let h = c ∷ s.calls in (reply h, record s { calls = h })

abbrev pub set_error_message : String → Action (Unit {0})
set_error_message m s = (ok tt, record s { dip = record (s.dip) { error_message = m } })

-- A call whose error is reported in the DIP and returned.
abbrev pub or_report : {A : Type 0} → String → Result A → Action A
or_report prefix (ok a) = pure a
or_report prefix (err e) = set_error_message (prefix <> activity_error_message e) >> fail e
