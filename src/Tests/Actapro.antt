-- ===== src/Tests/Actapro.antt =====
-- Replies of ACTApro, and the theorems at them.
use sfa_enduro_workflows.Base.{
  ℕ, zero, suc, ◌≡◌, refl, String, true, some, List, [], ◌∷◌, str_eq, if◌then◌else◌, contains,
  to_upper,
}
use sfa_enduro_workflows.Workflow.{Result, ok, err, plain}
use sfa_enduro_workflows.Polling.{Tick, tick}
use sfa_enduro_workflows.Actapro.{
  Response, responded, LogEntry, Info, success, Group, format_export_logs, export_logs,
  poll_export_status, get_document,
}
use sfa_enduro_workflows.Actapro.Export.{
  Ends, ended, running, is_final, final_result, poll_export_status-Ends,
}
use sfa_enduro_workflows.Actapro.Document.{
  values, names, all_parse, is_distinct, get_document-names,
}

abbrev entries : List LogEntry
entries =
    record { status = "ERROR"; doc_key = "Vz 1"; message = "no file" }
    ∷ record { status = ""; doc_key = ""; message = "" }
    ∷ []

abbrev log_reply : Result (Response (List LogEntry))
log_reply = ok (responded entries)

abbrev ticks : ℕ → Tick Info
ticks zero = tick (ok (record { status = responded "RUNNING"; logs = log_reply }))
ticks (suc i) = tick (ok (record { status = responded "failed"; logs = log_reply }))

export_ends : Ends ticks "failed" log_reply 0 1
unfolding is_final to_upper
export_ends = running "RUNNING" log_reply refl refl refl (ended refl refl)

poll_export_status-Ends_example :
    poll_export_status (ok "id") ticks 2 ≡ some (final_result "failed" log_reply)
poll_export_status-Ends_example =
    poll_export_status-Ends ticks "failed" log_reply "id" 1 export_ends

failed_export :
    final_result "failed" log_reply
    ≡ success (record { status = "FAILED"; logs = "- [ERROR] Vz 1: no file" })
unfolding final_result to_upper export_logs format_export_logs
failed_export = refl

abbrev parse : String → Result String
parse id = if str_eq id "x" then err (plain "no uuid") else ok id

abbrev groups : List Group
groups =
    record {
      type = "AIP_ID_Gp";
      fields =
          record { type = "AIP_ID"; value = "u1" }
          ∷ record { type = "AIP_ID"; value = "" }
          ∷ record { type = "AIP_ID"; value = "u1" }
          ∷ [];
    }
    ∷ record { type = "Other"; fields = record { type = "AIP_ID"; value = "x" } ∷ [] }
    ∷ []

document_found : get_document parse (ok (responded groups)) ≡ success ("u1" ∷ [])
unfolding get_document
document_found = refl

get_document-names_example :
    (all_parse parse (values groups) ≡ true)
    × (is_distinct ("u1" ∷ []) ≡ true)
    × ((u : String) → contains ("u1" ∷ []) u ≡ names parse (values groups) u)
get_document-names_example = get_document-names parse groups ("u1" ∷ []) document_found
