-- ===== src/Preprocessing/Invariant/Checks.antt =====
-- internal/workflows/preprocessing.go: the steps up to the gate keep the history sound.
use sfa_enduro_workflows.Base.{String, Bool, true, false, arith}
use sfa_enduro_workflows.Sip.{Sip}
use sfa_enduro_workflows.Preprocessing.{Environment}
use sfa_enduro_workflows.Preprocessing.Checks.{
  extract_sip, check_bag, validate_bag, unbag_sip, open_bag, identify, check_structure, check_name,
}
use sfa_enduro_workflows.Preprocessing.Contents.{
  check_manifest, check_formats, check_files, check_metadata, check_logical_metadata,
}
use sfa_enduro_workflows.Preprocessing.Invariant.{Kept, Sound, Triple, Triple-bind}

module _ (env : Environment) (shared : String) where
  pub extract_sip-Kept :
      (path sip_name : String) → Triple Sound Kept (extract_sip env shared path sip_name)
  unfolding extract_sip
  extract_sip-Kept path sip_name = record { at = λ s h. ground arith }

  pub check_bag-Sound : (path : String) → Triple Sound Sound (check_bag env shared path)
  unfolding check_bag
  check_bag-Sound path = record { at = λ s h. ground arith }

  validate_bag-Sound : (path : String) → Triple Sound Sound (validate_bag env shared path)
  unfolding validate_bag
  validate_bag-Sound path = record { at = λ s h. ground arith }

  unbag_sip-Sound : (path : String) → Triple Sound Sound (unbag_sip env shared path)
  unfolding unbag_sip
  unbag_sip-Sound path = record { at = λ s h. ground arith }

  pub open_bag-Sound :
      (path : String) (is_bag : Bool) → Triple Sound Sound (open_bag env shared path is_bag)
  unfolding open_bag
  open_bag-Sound path true = Triple-bind _ _ (validate_bag-Sound path) (λ _. unbag_sip-Sound path)
  open_bag-Sound path false = record { at = λ s h. h }

module _ (env : Environment) where
  pub identify-Sound : (path : String) → Triple Sound Sound (identify env path)
  unfolding identify
  identify-Sound path = record { at = λ s h. ground arith }

  pub check_structure-Sound : (sip : Sip) → Triple Sound Sound (check_structure env sip)
  unfolding check_structure
  check_structure-Sound sip = record { at = λ s h. ground arith }

  pub check_manifest-Sound : (sip : Sip) → Triple Sound Sound (check_manifest env sip)
  unfolding check_manifest
  check_manifest-Sound sip = record { at = λ s h. ground arith }

  pub check_name-Sound : (sip : Sip) → Triple Sound Sound (check_name env sip)
  unfolding check_name
  check_name-Sound sip = record { at = λ s h. ground arith }

  pub check_formats-Sound : (sip : Sip) → Triple Sound Sound (check_formats env sip)
  unfolding check_formats
  check_formats-Sound sip = record { at = λ s h. ground arith }

  pub check_files-Sound : (sip : Sip) → Triple Sound Sound (check_files env sip)
  unfolding check_files
  check_files-Sound sip = record { at = λ s h. ground arith }

  pub check_metadata-Sound : (sip : Sip) → Triple Sound Sound (check_metadata env sip)
  unfolding check_metadata
  check_metadata-Sound sip = record { at = λ s h. ground arith }

  pub check_logical_metadata-Sound :
      (sip : Sip) → Triple Sound Sound (check_logical_metadata env sip)
  unfolding check_logical_metadata
  check_logical_metadata-Sound sip = record { at = λ s h. ground arith }
