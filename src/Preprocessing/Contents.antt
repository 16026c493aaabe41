-- ===== src/Preprocessing/Contents.antt =====
-- internal/workflows/preprocessing.go: the manifest, the file formats and the metadata.
use sfa_enduro_workflows.Base.{
  ℕ, zero, suc, String, ◌<>◌, [], ◌∷◌, ◌++◌, ◌||◌, map, starts_with, if◌then◌else◌, elements,
  is_empty, quote, not,
}
use Prim.Native.Nat.{pred}
use mathlib.Core.Option
use sfa_enduro_workflows.FilePath.{base}
use sfa_enduro_workflows.Sip.{Sip, is_sip, is_aip}
use sfa_enduro_workflows.Workflow.{ok, err, ul}
use sfa_enduro_workflows.Preprocessing.{
  verify_manifest, ffvalidate, validate_files, xmlvalidate, validate_premis, ManifestResult,
  Environment, Action, ◌>>=◌, ◌>>◌, pure, return_result, start, report_success, report_invalid,
  report_broken, execute, or_broken, settle,
}

length_of : String → ℕ
length_of String.[] = 0
length_of (String.◌∷◌ _ s) = suc (length_of s)

-- The first number counts the characters of an occurrence that are still to be dropped.
drop_all : String → ℕ → String → String
drop_all old skip String.[] = ""
drop_all old (suc k) (String.◌∷◌ c s) = drop_all old k s
drop_all old zero (String.◌∷◌ c s) =
    let inside = drop_all old (pred (length_of old)) s in
    let outside = drop_all old zero s in
    if starts_with (String.◌∷◌ c s) old then inside else String.◌∷◌ c outside

-- strings.ReplaceAll(s, old, ""), for an `old` that is not empty.
unfoldable pub remove_all : String → String → String
unfolding drop_all length_of
remove_all s old = drop_all old zero s

-- The report on the manifest task.
report_manifest : Sip → ℕ → ManifestResult → Action (Unit {0})
report_manifest sip task r =
    let missing = elements r.missing_files in
    let unexpected = elements r.unexpected_files in
    let wrong = elements r.manifest_failures in
    if not (is_empty wrong) || (not (is_empty missing) || not (is_empty unexpected))
    then report_invalid task
        (quote (base sip.manifest_path)
          <> " manifest could not be verified against the contents of the SIP.")
        (ul (wrong ++ (missing ++ unexpected))
          ∷ "Please review the SIP and ensure that its contents match those listed in the metadata manifest."
          ∷ [])
    else report_success task "SIP contents match manifest"

report_checksums : ℕ → ManifestResult → Action (Unit {0})
report_checksums task r =
    let wrong = elements r.checksum_failures in
    if not (is_empty wrong)
    then report_invalid task "SIP checksums do not match file contents." (
        ul wrong
        ∷ "Please review the SIP and ensure that the metadata checksums match those of the files."
        ∷ [])
    else report_success task "SIP checksums match file contents"

module _ (env : Environment) where
  unfoldable pub check_manifest : Sip → Action (Unit {0})
  unfolding report_manifest report_checksums
  check_manifest sip = do
    manifest_task ← start "Verify SIP manifest"
    checksum_task ← start "Verify SIP checksums"
    reply ← execute (verify_manifest sip) env.verify_manifest_reply
    elim reply [
      | err e ↦ do
        report_broken manifest_task "SIP manifest verification has failed." (
            "An error occurred during the manifest verification process. Please try again, or ask a system administrator to investigate."
            ∷ [])
        report_broken checksum_task "SIP checksum verification has failed." (
            "An error occurred during the checksum verification process. Please try again, or ask a system administrator to investigate."
            ∷ [])
        return_result
      | ok r ↦ do report_manifest sip manifest_task r; report_checksums checksum_task r
    ]

  -- "Check for disallowed file formats (SIP types only)."
  unfoldable pub check_formats : Sip → Action (Unit {0})
  check_formats sip =
      if is_sip sip
      then (do
        task ← start "Check for disallowed file formats"
        reply ← execute (ffvalidate sip.content_path) env.ffvalidate_reply
        failures ← or_broken reply task "file format check has failed." (
            "An error occurred when checking for disallowed file formats. Please try again, or ask a system administrator to investigate."
            ∷ [])
        settle failures task "file format check has failed."
            (λ fs.
              "One or more file formats are not allowed:"
              ∷ ul fs
              ∷ "Please review the SIP and remove or replace all disallowed file formats."
              ∷ [])
            "No disallowed file formats found")
      else pure tt

  unfoldable pub check_files : Sip → Action (Unit {0})
  check_files sip = do
    task ← start "Validate SIP file formats"
    reply ← execute (validate_files sip) env.validate_files_reply
    failures ← or_broken reply task "file format validation has failed." (
        "An error occurred during the file format validation process. Please try again, or ask a system administrator to investigate."
        ∷ [])
    settle failures task "file format validation has failed."
        (λ fs. ul fs ∷ "Please ensure all files are well-formed." ∷ []) "No invalid files found"

  unfoldable pub check_metadata : Sip → Action (Unit {0})
  check_metadata sip = do
    task ← start "Validate SIP metadata"
    reply ← execute (xmlvalidate sip.manifest_path sip.xsd_path) env.xmlvalidate_reply
    failures ← or_broken reply task "metadata validation has failed." (
        ("An error has occurred while attempting to validate the "
          <> (quote (base sip.manifest_path)
              <> " file. Please try again, or ask a system administrator to investigate."))
        ∷ [])
    settle (Option.map (λ fs. map (λ f. remove_all f (sip.path <> "/")) fs) failures) task
        "metadata validation has failed."
        (λ fs. ul fs ∷ "Please ensure all metadata files are present and well-formed." ∷ [])
        ("Metadata validation successful on the following file(s):\n\n"
          <> ul (base sip.manifest_path ∷ []))

  -- "Validate logical metadata (AIP types only)."
  unfoldable pub check_logical_metadata : Sip → Action (Unit {0})
  check_logical_metadata sip =
      if is_aip sip
      then (do
        task ← start "Validate logical metadata"
        reply ← execute (validate_premis sip.logical_md_path) env.validate_premis_reply
        failures ← or_broken reply task "logical metadata validation has failed." (
            ("An error has occurred while attempting to validate the "
              <> (quote (base sip.logical_md_path)
                  <> " file. Please try again, or ask a system administrator to investigate."))
            ∷ [])
        settle failures task "logical metadata validation has failed."
            (λ fs. ul fs ∷ "Please ensure all metadata files are present and well-formed." ∷ [])
            "Logical metadata validation successful")
      else pure tt
