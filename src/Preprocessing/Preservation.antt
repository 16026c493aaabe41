-- ===== src/Preprocessing/Preservation.antt =====
-- internal/workflows/preprocessing.go: premis.xml, the restructuring, identifiers.json and the bag.
use sfa_enduro_workflows.Base.{String, ◌<>◌, List, [], ◌∷◌, ◌++◌, if◌then◌else◌, quote}
use sfa_enduro_workflows.FilePath.{join}
use sfa_enduro_workflows.Enums.{type_name}
use sfa_enduro_workflows.Sip.{Sip, name, is_sip}
use sfa_enduro_workflows.Workflow.{Result, ok, err}
use sfa_enduro_workflows.Preprocessing.{
  Call, PremisEvent, add_premis_objects, add_premis_event, add_premis_validation_event,
  add_premis_agent, transform_sip, write_identifier_file, create_bag, Environment, Action, ◌>>=◌,
  ◌>>◌, pure, start, report_success, execute, or_broken,
}

validation_event : String → String → PremisEvent
validation_event detail outcome_detail = record { detail = detail; outcome_detail = outcome_detail }

-- The activities of writePREMISFile, in order.
unfoldable pub premis_calls : Sip → List Call
unfolding validation_event
premis_calls sip =
    let path = join (sip.path ∷ "metadata" ∷ "premis.xml" ∷ []) in
    add_premis_objects sip path
    ∷ add_premis_event path (
        validation_event "name=\"Validate SIP structure\"" (
          "SIP structure identified: "
          <> (type_name sip.type <> ". SIP structure matches validation criteria.")))
    ∷ add_premis_event path (
        validation_event "name=\"Validate SIP name\""
          ("SIP name " <> (quote (name sip) <> " matches validation criteria.")))
    ∷ ((if is_sip sip
          then add_premis_event path
              (validation_event "name=\"Check for disallowed file formats\"" "Format allowed")
            ∷ []
          else [])
        ++ (add_premis_validation_event sip path (
              validation_event "name=\"Validate SIP file formats\""
                "File format complies with specification")
            ∷ add_premis_event path
                (validation_event "name=\"Validate SIP metadata\"" "Metadata validation successful")
            ∷ add_premis_agent path
            ∷ []))

module _ (env : Environment) where
  -- Each activity runs if those before it succeeded.
  unfoldable pub run_premis_calls : List Call → Action (Result (Unit {0}))
  run_premis_calls [] = pure (ok tt)
  run_premis_calls (c ∷ cs) = do
    reply ← execute c env.premis_reply
    elim reply [ ok _ ↦ run_premis_calls cs | err e ↦ pure (err e) ]

  -- writePREMISFile, and the branches on its error
  unfoldable pub write_premis : Sip → Action (Unit {0})
  unfolding run_premis_calls premis_calls
  write_premis sip = do
    task ← start "Create premis.xml"
    written ← run_premis_calls (premis_calls sip)
    or_broken written task "premis.xml creation has failed" (
        "An error has occurred while attempting to create the premis.xml file and store it in the metadata directory. Please try again, or ask a system administrator to investigate."
        ∷ [])
    report_success task "Created a premis.xml file and stored it in the metadata directory"

  -- "Re-structure SIP"; the result is the path of the PIP.
  unfoldable pub restructure : Sip → Action String
  restructure sip = do
    task ← start "Restructure SIP"
    reply ← execute (transform_sip sip) env.transform_sip_reply
    pip ← or_broken reply task "restructuring has failed" (
        "An error has occurred while attempting to restructure the SIP for preservation processing. Please try again, or ask a system administrator to investigate."
        ∷ [])
    report_success task "SIP has been restructured for preservation processing"
    pure pip

  unfoldable pub write_identifiers : String → Action (Unit {0})
  write_identifiers pip = do
    task ← start "Create identifier.json"
    reply ← execute (write_identifier_file pip) env.write_identifier_file_reply
    or_broken reply task "identifier.json creation has failed." (
        "An error has occurred while attempting to create the identifier.json file and store it in the metadata directory. Please try again, or ask a system administrator to investigate."
        ∷ [])
    report_success task "Created an identifier.json file and stored it in the metadata directory"

  unfoldable pub bag : String → Action (Unit {0})
  bag path = do
    task ← start "Bag SIP"
    reply ← execute (create_bag path) env.create_bag_reply
    or_broken reply task "SIP bagging has failed." (
        "An error has occurred while attempting to bag the SIP. Please try again, or ask a system administrator to investigate."
        ∷ [])
    report_success task "SIP has been bagged"
