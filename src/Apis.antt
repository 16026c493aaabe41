-- ===== src/Apis.antt =====
-- internal/apis/custom_metadata.go: what the preprocessing workflow leaves for the poststorage
-- workflow, and the import behaviour that it stands for.
pub mod Requests
use sfa_enduro_workflows.Base.{String, ◌<>◌, ◌||◌, List, [], ◌∷◌, str_eq, if◌then◌else◌, quote}
use sfa_enduro_workflows.Workflow.{Result, ok, err, plain}

pub record CustomMetadata : Type 0 where
  pub import_task_id : String
  pub decision : String

abbrev pub cancel_ingest : String
cancel_ingest = "Cancel ingest"

abbrev pub continue_overwrite : String
continue_overwrite = "Continue and overwrite"

abbrev pub continue_append : String
continue_append = "Continue and append"

-- The members of a JSON object whose values are texts.
abbrev pub JsonObject : Type 0
JsonObject = List (String × String)

-- Marshal
unfoldable pub marshal : CustomMetadata → Result JsonObject
marshal m =
    if str_eq m.import_task_id ""
    then err (plain "APIS custom metadata requires import task ID")
    else ok (("importTaskId", m.import_task_id) ∷ ("decision", m.decision) ∷ [])

unfoldable pub member : String → JsonObject → String → String
member name [] old = old
member name ((n, v) ∷ rest) old = member name rest (if str_eq n name then v else old)

-- Unmarshal into an empty value; a member that is missing leaves the empty text.
unfoldable pub unmarshal : JsonObject → Result CustomMetadata
unfolding member
unmarshal o =
    let m : CustomMetadata = record {
      import_task_id = member "importTaskId" o "";
      decision = member "decision" o "";
    } in
    if str_eq m.import_task_id ""
    then err (plain "APIS custom metadata requires import task ID")
    else ok m

-- gen.ImportBehaviourType
pub data ImportBehaviour : Type 0 where
  append_only overwrite_and_append : ImportBehaviour

-- ImportBehaviour
unfoldable pub import_behaviour : CustomMetadata → Result ImportBehaviour
import_behaviour m =
    if str_eq m.decision "" || str_eq m.decision continue_append
    then ok append_only
    else if str_eq m.decision continue_overwrite
    then ok overwrite_and_append
    else if str_eq m.decision cancel_ingest
    then err (
        plain
          ("APIS import task " <> (quote m.import_task_id <> " was canceled during preprocessing")))
    else err (
        plain (
          "unsupported APIS decision "
          <> (quote m.decision <> (" for import task " <> quote m.import_task_id))))
