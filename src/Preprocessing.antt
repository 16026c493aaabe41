-- ===== src/Preprocessing.antt =====
-- internal/workflows/preprocessing.go: the calls of the workflow, what answers them, and the
-- actions that its steps are made of.
pub mod Checks
pub mod Contents
pub mod Import
pub mod Preservation
pub mod Execute
pub mod Invariant
use sfa_enduro_workflows.Base.{
  ℕ, String, Bool, true, false, Option, none, some, List, [], ◌∷◌, if◌then◌else◌,
}
use sfa_enduro_workflows.Sip.{Sip}
use sfa_enduro_workflows.Apis.{JsonObject}
use sfa_enduro_workflows.Workflow.{
  Err, Result, ok, err, Failures, Event, call, new_task, succeed, validation_error, system_error,
  set_content_error, complete_invalid, History, count_tasks,
}

-- Parameters of AddPREMISEvent; the agent is the default one and Failures is nil.
pub record PremisEvent : Type 0 where
  pub detail : String
  pub outcome_detail : String

-- The activities with their parameters, and the signal to the parent workflow.
pub data Call : Type 0 where
  archive_extract : String → Call
  is_bag : String → Call
  bag_validate : String → Call
  unbag : String → Call
  identify_sip : String → Call
  validate_structure : Sip → Call
  validate_sip_name : Sip → Call
  verify_manifest : Sip → Call
  ffvalidate : String → Call
  validate_files : Sip → Call
  xmlvalidate : String → String → Call
  validate_premis : String → Call
  create_import_task : Sip → String → Call
  poll_import_task_status : String → Call
  request_decision : String → List String → Call
  add_premis_objects : Sip → String → Call
  add_premis_event : String → PremisEvent → Call
  add_premis_validation_event : Sip → String → PremisEvent → Call
  add_premis_agent : String → Call
  transform_sip : Sip → Call
  write_identifier_file : String → Call
  create_bag : String → Call

-- activities.VerifyManifestResult
pub record ManifestResult : Type 0 where
  pub checksum_failures : Failures
  pub manifest_failures : Failures
  pub missing_files : Failures
  pub unexpected_files : Failures

-- apisgen.AnalysisResult
pub data AnalysisResult : Type 0 where
  alle_neu alle_gleich konflikte fehler : AnalysisResult
  other_result : String → AnalysisResult

-- What the activities, the parent workflow and the user answer, after the history of a run.
pub record Environment : Type 0 where
  pub archive_extract_reply : History Call → Result String
  pub is_bag_reply : History Call → Result Bool
  pub bag_validate_reply : History Call → Result String
  pub unbag_reply : History Call → Result String
  pub identify_sip_reply : History Call → Result Sip
  pub validate_structure_reply : History Call → Result Failures
  pub validate_sip_name_reply : History Call → Result Failures
  pub verify_manifest_reply : History Call → Result ManifestResult
  pub ffvalidate_reply : History Call → Result Failures
  pub validate_files_reply : History Call → Result Failures
  pub xmlvalidate_reply : History Call → Result Failures
  pub validate_premis_reply : History Call → Result Failures
  pub create_import_task_reply : History Call → Result String
  pub poll_import_task_status_reply : History Call → Result AnalysisResult
  pub has_parent : Bool
  pub request_decision_reply : History Call → Result (Unit {0})
  pub decision_response : History Call → String
  pub premis_reply : History Call → Result (Unit {0})
  pub transform_sip_reply : History Call → Result String
  pub write_identifier_file_reply : History Call → Result (Unit {0})
  pub create_bag_reply : History Call → Result (Unit {0})
  -- `BaseNoExt` of go.artefactual.dev/tools/fsutil
  pub base_no_ext : String → String

-- The workflow's result, with the history that its methods and the activities leave.
pub record State : Type 0 where
  pub events : History Call
  pub relative_path : String
  pub custom_metadata : Option JsonObject

-- How a step ends: the function goes on, or returns its result, or returns an error.
pub data Flow (A : Type 0) : Type 0 where
  next : A → Flow A
  returned : Flow A
  raised : String → Flow A

abbrev pub Action : Type 0 → Type 0
Action A = State → Flow A × State

abbrev pub continue : {A B : Type 0} → Flow A → (A → Action B) → Action B
continue (next a) f s = f a s
continue returned f s = (returned, s)
continue (raised e) f s = (raised e, s)

infixl 5 ◌>>=◌ ◌>>◌
abbrev pub ◌>>=◌ : {A B : Type 0} → Action A → (A → Action B) → Action B
◌>>=◌ m f s = let (r, s') = m s in continue r f s'

abbrev pub ◌>>◌ : {A B : Type 0} → Action A → Action B → Action B
m >> n = m >>= λ _. n

abbrev pub pure : {A : Type 0} → A → Action A
pure a s = (next a, s)

abbrev pub return_result : {A : Type 0} → Action A
return_result s = (returned, s)

abbrev pub return_error : {A : Type 0} → String → Action A
return_error e s = (raised e, s)

abbrev record_event : Event Call → Action (Unit {0})
record_event e s = (next tt, record s { events = e ∷ s.events })

-- result.NewTask
abbrev pub start : String → Action ℕ
start name s =
    let t = count_tasks s.events in (next t, record s { events = new_task t name ∷ s.events })

-- task.Succeed
abbrev pub report_success : ℕ → String → Action (Unit {0})
report_success t message = record_event (succeed t message)

-- result.ValidationError
abbrev pub report_invalid : ℕ → String → List String → Action (Unit {0})
report_invalid t message lines = record_event (validation_error t message lines)

-- result.SystemError
abbrev pub report_broken : ℕ → String → List String → Action (Unit {0})
report_broken t message lines = record_event (system_error t message lines)

abbrev pub report_content_error : Action (Unit {0})
report_content_error = record_event set_content_error

abbrev pub report_complete_invalid : ℕ → String → Action (Unit {0})
report_complete_invalid t message = record_event (complete_invalid t message)

-- ExecuteActivity and Get
abbrev pub execute : {A : Type 0} → Call → (History Call → A) → Action A
execute c reply s = let h = call c ∷ s.events in (next (reply h), record s { events = h })

abbrev pub set_relative_path : String → Action (Unit {0})
set_relative_path path s = (next tt, record s { relative_path = path })

abbrev pub set_custom_metadata : JsonObject → Action (Unit {0})
set_custom_metadata o s = (next tt, record s { custom_metadata = some o })

-- `if e != nil { result.SystemError(…); return result, nil }`
abbrev pub or_broken : {A : Type 0} → Result A → ℕ → String → List String → Action A
or_broken (ok a) t message lines = pure a
or_broken (err e) t message lines = report_broken t message lines >> return_result

-- `if failures != nil { result.ValidationError(…) } else { task.Succeed(…) }`, with the lines of the
-- report as a function of the failures.
abbrev pub settle : Failures → ℕ → String → (List String → List String) → String → Action (Unit {0})
settle (some failures) t message lines success = report_invalid t message (lines failures)
settle none t message lines success = report_success t success
