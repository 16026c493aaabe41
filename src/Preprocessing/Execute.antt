-- ===== src/Preprocessing/Execute.antt =====
-- internal/workflows/preprocessing.go: Execute.
use sfa_enduro_workflows.Base.{String, Bool, Option, none, some, [], ◌∷◌, str_eq, if◌then◌else◌}
use sfa_enduro_workflows.FilePath.{clean, join}
use sfa_enduro_workflows.Sip.{Sip}
use sfa_enduro_workflows.Workflow.Reports.{Childwf}
use sfa_enduro_workflows.Preprocessing.{
  Call, Environment, State, Flow, Action, ◌>>=◌, ◌>>◌, pure, return_result, return_error,
  set_relative_path,
}
use sfa_enduro_workflows.Preprocessing.Checks.{
  extract_sip, check_bag, open_bag, identify, check_structure, check_name,
}
use sfa_enduro_workflows.Preprocessing.Contents.{
  check_manifest, check_formats, check_files, check_metadata, check_logical_metadata,
}
use sfa_enduro_workflows.Preprocessing.Import.{apis_username, import_task}
use sfa_enduro_workflows.Preprocessing.Preservation.{
  write_premis, restructure, write_identifiers, bag,
}

-- childwf.PreprocessingParams; the user by the e-mail address.
pub record Params : Type 0 where
  pub relative_path : String
  pub sip_name : String
  pub user : Option String

-- Preprocessing, with the path that the configuration names.
pub record Config : Type 0 where
  pub shared_path : String
  pub apis_enabled : Bool

abbrev pub initial : State
initial = record { events = []; relative_path = ""; custom_metadata = none }

module _ (env : Environment) (lib : Childwf Call) (cfg : Config) where
  -- `if result.Outcome == childwf.OutcomeSystemError { return result, nil }`
  unfoldable pub stop_if_broken : Action (Unit {0})
  stop_if_broken s = if lib.has_system_error s.events then return_result s else pure tt s

  -- "Stop here if the SIP content isn't valid."
  unfoldable pub stop_if_invalid : Action (Unit {0})
  stop_if_invalid s = if lib.has_content_error s.events then return_result s else pure tt s

  -- From the extraction to the identification; the result is the local path and the SIP.
  unfoldable pub open_package : Params → Action (String × Sip)
  open_package params = do
    set_relative_path params.relative_path
    extracted ←
        extract_sip env cfg.shared_path (join (cfg.shared_path ∷ clean params.relative_path ∷ []))
          params.sip_name
    stop_if_broken
    is_bag ← check_bag env cfg.shared_path extracted
    path ← open_bag env cfg.shared_path extracted is_bag
    sip ← identify env path
    pure (path, sip)

  -- From the structure to the logical metadata.
  unfoldable pub validate : Sip → Action (Unit {0})
  validate sip = do
    check_structure env sip
    check_name env sip
    check_manifest env sip
    check_formats env sip
    check_files env sip
    check_metadata env sip
    check_logical_metadata env sip

  unfoldable pub submit : Option String → Sip → Action (Unit {0})
  submit user sip = if cfg.apis_enabled then import_task env sip (apis_username user) else pure tt

  -- From premis.xml to the bag.
  unfoldable pub preserve : String → Sip → Action (Unit {0})
  preserve path sip = do
    write_premis env sip
    pip ← restructure env sip
    write_identifiers env pip
    bag env path

  unfoldable pub process : Params → Action (Unit {0})
  process params = do
    opened ← open_package params
    validate opened.1
    stop_if_invalid
    submit params.user opened.1
    preserve opened.0 opened.1

  -- Execute. `next` and `returned` give the result, `raised` an error and no result.
  unfoldable pub run : Option Params → Flow (Unit {0}) × State
  unfolding process open_package validate submit preserve stop_if_broken stop_if_invalid
  run none = return_error "error calling workflow with unexpected inputs" initial
  run (some params) =
      if str_eq params.relative_path ""
      then return_error "error calling workflow with unexpected inputs" initial
      else process params initial
