-- ===== src/Preprocessing/Checks.antt =====
-- internal/workflows/preprocessing.go: extraction, the bag, identification and the validations.
use sfa_enduro_workflows.Base.{
  ℕ, String, ◌<>◌, Bool, true, false, none, some, [], ◌∷◌, str_eq, if◌then◌else◌, quote,
}
use sfa_enduro_workflows.FilePath.{base, rel}
use sfa_enduro_workflows.Enums.{type_name}
use sfa_enduro_workflows.Sip.{Sip}
use sfa_enduro_workflows.Workflow.{ok, err, ul}
use sfa_enduro_workflows.Preprocessing.{
  archive_extract, is_bag, bag_validate, unbag, identify_sip, validate_structure, validate_sip_name,
  Environment, Action, ◌>>=◌, ◌>>◌, pure, return_result, return_error, start, report_success,
  report_invalid, report_broken, execute, set_relative_path, or_broken, settle,
}

module _ (env : Environment) (shared : String) where
  -- The branches behind the extraction: its name, and its place below the shared directory.
  place_extracted : ℕ → String → String → String → Action String
  place_extracted task path sip_name extracted =
      if str_eq (base extracted) (env.base_no_ext sip_name)
      then elim (rel shared extracted) [
        | some relative ↦ do
          set_relative_path relative
          report_success task "SIP extracted"
          pure extracted
        | none ↦ do
          -- Rel has set the relative path to the empty text.
          set_relative_path ""
          report_broken task "SIP extraction has failed." (
              (base path
                <> " could not be successfully extracted. Please try again, or ask a system administrator to investigate.")
              ∷ [])
          pure ""
      ]
      else do
        report_invalid task "SIP extraction has failed." (
            ("The extracted SIP is missing the top-level "
              <> (quote (env.base_no_ext sip_name) <> " folder."))
            ∷ "Please ensure that the SIP is well-formed and try again."
            ∷ [])
        pure extracted

  -- extractSIP
  unfoldable pub extract_sip : String → String → Action String
  unfolding place_extracted
  extract_sip path sip_name = do
    task ← start "Extract SIP"
    extracted ← execute (archive_extract path) env.archive_extract_reply
    elim extracted [
      | err e ↦ do
        report_broken task "SIP extraction has failed." (
            (quote (base path)
              <> " could not be successfully extracted. Please try again, or ask a system administrator to investigate.")
            ∷ [])
        pure ""
      | ok extract_path ↦ place_extracted task path sip_name extract_path
    ]

  -- "Check if the SIP is a BagIt bag."
  unfoldable pub check_bag : String → Action Bool
  check_bag path = do
    found ← execute (is_bag path) env.is_bag_reply
    elim found [ ok b ↦ pure b | err e ↦ return_error "bag check" ]

  unfoldable pub validate_bag : String → Action (Unit {0})
  validate_bag path = do
    task ← start "Validate Bag"
    reply ← execute (bag_validate path) env.bag_validate_reply
    error ← or_broken reply task "Bag validation has failed." (
        "An error occurred during the bag validation process. Please try again, or ask a system administrator to investigate."
        ∷ [])
    if str_eq error ""
        then report_success task "Bag successfully validated"
        else report_invalid task "Bag validation has failed." (
            error ∷ "Please ensure the bag is well-formed before reattempting ingest."
            ∷ "Your SIP has been moved to the failed-sips directory." ∷ [])

  unfoldable pub unbag_sip : String → Action String
  unbag_sip path = do
    task ← start "Unbag SIP"
    reply ← execute (unbag path) env.unbag_reply
    unbagged ← or_broken reply task "SIP unbagging has failed." (
        "An error occurred during the SIP unbagging process. Please try again, or ask a system administrator to investigate."
        ∷ [])
    elim (rel shared unbagged) [
      | some relative ↦ do
        set_relative_path relative
        report_success task "SIP unbagged"
        pure unbagged
      | none ↦ do
        set_relative_path ""
        report_broken task "SIP unbagging has failed." (
            "An error occurred during the SIP unbagging process. Please try again, or ask a system administrator to investigate."
            ∷ [])
        return_result
    ]

  -- "Unbag the SIP if it is a bag."
  unfoldable pub open_bag : String → Bool → Action String
  open_bag path true = do validate_bag path; unbag_sip path
  open_bag path false = pure path

module _ (env : Environment) where
  unfoldable pub identify : String → Action Sip
  identify path = do
    task ← start "Identify SIP structure"
    reply ← execute (identify_sip path) env.identify_sip_reply
    elim reply [
      | ok sip ↦ do
        report_success task ("SIP structure identified: " <> type_name sip.type)
        pure sip
      | err e ↦ do
        report_invalid task "SIP identification has failed." (
            "Enduro could not identify the package type. Please ensure that your SIP matches one of the supported package structures."
            ∷ [])
        return_result
    ]

  unfoldable pub check_structure : Sip → Action (Unit {0})
  check_structure sip = do
    task ← start "Validate SIP structure"
    reply ← execute (validate_structure sip) env.validate_structure_reply
    failures ← or_broken reply task "SIP structure validation has failed." (
        "An error occurred during the structure validation process. Please try again, or ask a system administrator to investigate."
        ∷ [])
    settle failures task "SIP structure validation has failed."
        (λ fs.
          ul fs
          ∷ ("Please review the SIP and ensure that its structure matches the "
              <> (type_name sip.type <> " specifications."))
          ∷ [])
        "SIP structure matches validation criteria"

  unfoldable pub check_name : Sip → Action (Unit {0})
  check_name sip = do
    task ← start "Validate SIP name"
    reply ← execute (validate_sip_name sip) env.validate_sip_name_reply
    failures ← or_broken reply task "SIP name validation has failed." (
        "An error occurred during the SIP name validation process. Please try again, or ask a system administrator to investigate."
        ∷ [])
    settle failures task "SIP name validation has failed."
        (λ fs.
          ("The name used for the package does not match the expected convention for the "
            <> (quote (type_name sip.type) <> " type."))
          ∷ ul fs
          ∷ "Please review the naming conventions specified for this type of SIP."
          ∷ [])
        "SIP name matches expected naming convention for the identified structure type"
