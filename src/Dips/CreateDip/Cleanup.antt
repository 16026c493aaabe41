-- ===== src/Dips/CreateDip/Cleanup.antt =====
-- internal/dips/workflows/create_dip.go: what a run has done when it ends.
pub mod Retention
pub mod Upload
pub mod Tracking
pub mod Sessions
pub mod Body
pub mod Failure
use sfa_enduro_workflows.Base.{
  ℕ, zero, suc, ◌≤◌, ◌≡◌, String, Bool, true, false, List, [], ◌∷◌, ◌||◌, ◌&&◌, str_eq, arith,
}
use sfa_enduro_workflows.Workflow.{Result, ok, err}
use sfa_enduro_workflows.Dips.Datatypes.{DipStatus, stored, deleted, Dip}
use sfa_enduro_workflows.Dips.UpdateDip.{UpdateDipParams}
use sfa_enduro_workflows.Dips.CreateDip.{
  Call, History, update_dip, bucket_upload, bucket_delete, Environment,
}

abbrev is_deleted : DipStatus → Bool
is_deleted deleted = true
is_deleted _ = false

-- The updates to the status deleted that were asked for
abbrev pub deletions : History → ℕ
deletions [] = 0
deletions (update_dip p ∷ h) =
    let n = deletions h in elim (is_deleted p.status) [ true ↦ suc n | false ↦ n ]
deletions (_ ∷ h) = deletions h

-- A deletion of the object was asked for.
abbrev pub removes : String → History → Bool
removes key [] = false
removes key (bucket_delete k ∷ h) = str_eq k key || removes key h
removes key (_ ∷ h) = removes key h

abbrev pub is_ok : {A : Type 0} → Result A → Bool
is_ok (ok x) = true
is_ok (err e) = false

-- An upload was asked for, and its reply was no error.
abbrev pub uploads : Environment → History → Bool
uploads env [] = false
uploads env (bucket_upload path key ∷ h) =
    is_ok (env.bucket_upload_reply (bucket_upload path key ∷ h)) || uploads env h
uploads env (_ ∷ h) = uploads env h

-- An upload of the key was asked for.
abbrev pub has_upload : String → History → Bool
has_upload key [] = false
has_upload key (bucket_upload path k ∷ h) = str_eq k key || has_upload key h
has_upload key (_ ∷ h) = has_upload key h

abbrev is_stored : DipStatus → Bool
is_stored stored = true
is_stored _ = false

-- An update of the DIP to the status stored, with the key, was asked for, and its reply was no error.
abbrev pub stores : Environment → String → History → Bool
stores env key [] = false
stores env key (update_dip p ∷ h) =
    (is_stored p.status
      && (str_eq p.object_key key && is_ok (env.update_dip_reply (update_dip p ∷ h))))
    || stores env key h
stores env key (_ ∷ h) = stores env key h
