-- ===== src/Dips/UpdateDip.antt =====
-- internal/dips/activities/update_dip.go: the updates that the workflow asks for.
pub mod Lifecycle
pub mod Soundness
use sfa_enduro_workflows.Base.{
  ℕ, suc, ◌+◌, ℤ, pos, negsuc, String, Bool, true, false, Option, none, some, List, [], ◌∷◌, ◌==◌,
  ltb, leb, not, ◌&&◌, ◌||◌, str_eq, if◌then◌else◌,
}
use sfa_enduro_workflows.Dips.Datatypes.{
  DipStatus, queued, in_progress, stored, failed, deleted, unset, is_valid, is_stored, Dip, is_zero,
}

pub record UpdateDipParams : Type 0 where
  pub uuid : String
  pub status : DipStatus
  pub object_key : String
  pub error_message : String
  pub retention : ℤ
  pub workflow_id : String
  pub clear_object_key : Bool

abbrev pub is_final : DipStatus → Bool
is_final stored = true
is_final failed = true
is_final deleted = true
is_final _ = false

abbrev is_closed : DipStatus → Bool
is_closed failed = true
is_closed deleted = true
is_closed _ = false

-- now.Add(retention), if the retention is positive.
abbrev extend : ℕ → ℤ → ℕ → ℕ
extend now (pos (suc r)) old = now + suc r
extend now _ old = old

store_dip : UpdateDipParams → ℕ → Dip → Option Dip
store_dip p now d = if str_eq p.object_key "" then none else elim p.retention [
  | negsuc n ↦ none
  | pos r ↦ some (record d {
    status = stored;
    object_key = p.object_key;
    completed_at = now;
    expires_at = extend now (pos r) d.expires_at;
  })
]

-- The expiry is checked under the lock of the row.
delete_dip : ℕ → Dip → Dip
delete_dip now d =
    if is_stored d.status && (not (is_zero d.expires_at) && leb d.expires_at now)
    then record d { status = deleted }
    else d

-- The switch on the status that is asked for.
change_status : DipStatus → UpdateDipParams → ℕ → Dip → Option Dip
unfolding store_dip delete_dip
change_status in_progress p now d =
    some (record d { status = in_progress; started_at = now; workflow_id = p.workflow_id })
change_status stored p now d = store_dip p now d
change_status failed p now d = some (record d {
  status = failed;
  object_key = p.object_key;
  error_message = p.error_message;
  completed_at = now;
})
change_status deleted p now d = some (delete_dip now d)
change_status _ p now d = none

abbrev is_deleted : DipStatus → Bool
is_deleted deleted = true
is_deleted _ = false

-- The updater of Execute; `none` is an error.
unfoldable pub updater : UpdateDipParams → ℕ → Dip → Option Dip
unfolding change_status
updater p now d =
    if p.clear_object_key
    then some (if is_closed d.status then record d { object_key = "" } else d)
    else if not (is_deleted p.status) && is_final d.status
    then some d
    else change_status p.status p now d
