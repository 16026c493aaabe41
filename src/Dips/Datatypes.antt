-- ===== src/Dips/Datatypes.antt =====
-- internal/dips/datatypes/dip.go and internal/dips/enums/dip_status.go.
use sfa_enduro_workflows.Base.{
  ℕ, String, Bool, true, false, Option, none, some, ◌==◌, str_eq, if◌then◌else◌,
}

-- `unset` is the empty text, which is no valid status.
pub data DipStatus : Type 0 where
  queued in_progress stored failed deleted unset : DipStatus

-- DIPStatus.IsValid
abbrev pub is_valid : DipStatus → Bool
is_valid unset = false
is_valid _ = true

abbrev pub is_stored : DipStatus → Bool
is_stored stored = true
is_stored _ = false

-- Waiting for its workflow, or being generated.
abbrev pub is_pending : DipStatus → Bool
is_pending queued = true
is_pending in_progress = true
is_pending _ = false

-- A time is a number of nanoseconds, 0 for Go's zero time.
pub record Dip : Type 0 where
  pub dbid : ℕ
  pub uuid : String
  pub doc_key : String
  pub status : DipStatus
  pub error_message : String
  pub created_at : ℕ
  pub started_at : ℕ
  pub completed_at : ℕ
  pub expires_at : ℕ
  pub object_key : String
  pub workflow_id : String

-- Time.IsZero
abbrev pub is_zero : ℕ → Bool
is_zero t = t == 0

status_name : DipStatus → String
status_name queued = "queued"
status_name in_progress = "in progress"
status_name stored = "stored"
status_name failed = "failed"
status_name deleted = "deleted"
status_name unset = ""

-- goadips.ShowResult; the times before their format.
pub record ShowResult : Type 0 where
  pub id : String
  pub doc_key : String
  pub status : String
  pub created_at : ℕ
  pub error_message : Option String
  pub started_at : Option ℕ
  pub completed_at : Option ℕ
  pub expires_at : Option ℕ
  pub object_key : Option String

abbrev unless_zero : ℕ → Option ℕ
unless_zero t = if is_zero t then none else some t

abbrev unless_empty : String → Option String
unless_empty s = if str_eq s "" then none else some s

-- Goa
unfoldable pub goa : Dip → ShowResult
unfolding status_name
goa d = record {
  id = d.uuid;
  doc_key = d.doc_key;
  status = status_name d.status;
  created_at = d.created_at;
  error_message = unless_empty d.error_message;
  started_at = unless_zero d.started_at;
  completed_at = unless_zero d.completed_at;
  expires_at = unless_zero d.expires_at;
  object_key = if is_stored d.status then unless_empty d.object_key else none;
}
