-- ===== src/Dips/CreateDip/Cleanup/Body.antt =====
-- internal/dips/workflows/create_dip.go: the key of the object at the end of the workflow's body.
use text.Mathlib.TextLemmas.{cons-append, cons-ne-nil}
use sfa_enduro_workflows.Dips.CreateDip.Retention.{no_update, request_update}
use sfa_enduro_workflows.Dips.Datatypes.{in_progress}
use sfa_enduro_workflows.Dips.CreateDip.{get_document}
use sfa_enduro_workflows.Base.{
  ◌≡◌, refl, ◌⊎◌, inl, inr, String, ◌<>◌, false, Option, none, some, List, [], ◌∷◌, str_eq,
  Bool-cases, eq_iff, sym, ◌∙◌,
}
use sfa_enduro_workflows.Workflow.{Err, Result, ok, err}
use sfa_enduro_workflows.Dips.Datatypes.{Dip}
use sfa_enduro_workflows.Dips.CreateDip.{
  Environment, Config, State, Action, ◌>>=◌, ◌>>◌, continue, pure, attempt, get_aip_path, or_report,
}
use sfa_enduro_workflows.Dips.CreateDip.Session.{report_all}
use sfa_enduro_workflows.Dips.CreateDip.Execute.{
  find_aips, note_aip, add_aip, require_aips, or_persistence_error, start_update, list_aips,
  prepare, run_sessions, max_sessions, set_dip, body,
}
use sfa_enduro_workflows.Dips.CreateDip.Cleanup.{has_upload}
use sfa_enduro_workflows.Dips.CreateDip.Cleanup.Tracking.{Keeps, Keeps-bind, key_of, Tracks}
use sfa_enduro_workflows.Dips.CreateDip.Cleanup.Sessions.{run_sessions-Safe}

-- No upload of the key was asked for.
abbrev HasNone : String → State → Type 0
HasNone key s = has_upload key s.calls ≡ false

-- No upload of the key was asked for, or the state holds the key, and it is not empty.
abbrev pub Tracked : String → State → Type 0
Tracked key s = (has_upload key s.calls ≡ false) ⊎ ((s.object_key ≡ key) × (str_eq key "" ≡ false))

key-ne-empty : (id : String) → str_eq (key_of id) "" ≡ false
key-ne-empty id = elim (Bool-cases (str_eq (key_of id) "")) [
  | inr q ↦ q
  | inl q ↦ absurd (
      cons-ne-nil "D" ("IP_" <> (id <> ".zip"))
        (sym (cons-append "D" "IP_" (id <> ".zip")) ∙ (eq_iff (key_of id) "").0 q))
]

module _ (env : Environment) (cfg : Config) (key : String) where
  or_report-HasNone :
      {A : Type 0} (prefix : String) (r : Result A) → Keeps (HasNone key) (or_report prefix r)
  or_report-HasNone prefix (ok x) s p = p
  or_report-HasNone prefix (err e) s p = p

  report_all-HasNone :
      (prefix : String) (e : Option Err) → Keeps (HasNone key) (report_all env cfg prefix e)
  unfolding report_all
  report_all-HasNone prefix none s p = p
  report_all-HasNone prefix (some e) s p = p

  or_persistence_error-HasNone :
      (r : Result Dip) → Keeps (HasNone key) (or_persistence_error env cfg r)
  unfolding or_persistence_error
  or_persistence_error-HasNone (ok d) s p = p
  or_persistence_error-HasNone (err e) s p = p

  start_update-HasNone : Keeps (HasNone key) (start_update env cfg)
  unfolding start_update
  start_update-HasNone s p =
      Keeps-bind
        (request_update env cfg (record no_update {
          workflow_id = env.workflow_id;
          uuid = s.dip.uuid;
          status = in_progress;
        }))
        (λ r. or_persistence_error env cfg r >>= set_dip env cfg) (λ s' q. q)
        (λ r.
          Keeps-bind (or_persistence_error env cfg r) (set_dip env cfg)
            (or_persistence_error-HasNone r) (λ d s' q. q))
        s p

  require_aips-HasNone : (ids : List String) → Keeps (HasNone key) (require_aips env cfg ids)
  unfolding require_aips
  require_aips-HasNone [] s p = p
  require_aips-HasNone (id ∷ ids) s p = p

  abbrev required : List String → Action (List String)
  required ids = require_aips env cfg ids >> pure ids

  abbrev listed : Result (List String) → Action (List String)
  listed r = or_report "ACTApro document retrieval failed: " r >>= required

  list_aips-HasNone : Keeps (HasNone key) (list_aips env cfg)
  unfolding list_aips
  list_aips-HasNone s p =
      Keeps-bind (attempt (get_document s.dip.doc_key) env.get_document_reply) listed (λ s' q. q)
        (λ r.
          Keeps-bind (or_report "ACTApro document retrieval failed: " r) required
            (or_report-HasNone "ACTApro document retrieval failed: " r)
            (λ ids.
              Keeps-bind (require_aips env cfg ids) (λ _. pure ids) (require_aips-HasNone ids)
                (λ _ s' q. q)))
        s p

  abbrev found : String → List String → Option Err → Result String → Action (Option Err)
  found id ids errors r = elim r [
    | ok path ↦
        add_aip env cfg (record { uuid = id; relative_path = path }) >> find_aips env cfg ids errors
    | err e ↦ find_aips env cfg ids (note_aip env cfg id errors e)
  ]

  found-HasNone :
      (id : String) (ids : List String) (errors : Option Err) (r : Result String)
      → ((errors' : Option Err) → Keeps (HasNone key) (find_aips env cfg ids errors'))
      → Keeps (HasNone key) (found id ids errors r)
  found-HasNone id ids errors (ok path) rest s p = rest errors _ p
  found-HasNone id ids errors (err e) rest s p = rest (note_aip env cfg id errors e) _ p

  find_aips-HasNone :
      (ids : List String) (errors : Option Err) → Keeps (HasNone key) (find_aips env cfg ids errors)
  unfolding find_aips
  find_aips-HasNone [] errors = λ s p. p
  find_aips-HasNone (id ∷ ids) errors =
      Keeps-bind (attempt (get_aip_path id) env.get_aip_path_reply) (found id ids errors) (λ s p. p)
        (λ r. found-HasNone id ids errors r (find_aips-HasNone ids))

  prepare-HasNone : Keeps (HasNone key) (prepare env cfg)
  unfolding prepare
  prepare-HasNone = Keeps-bind (start_update env cfg) _ start_update-HasNone λ _.
      Keeps-bind (list_aips env cfg) _ list_aips-HasNone λ ids.
        Keeps-bind (find_aips env cfg ids none) _ (find_aips-HasNone ids none)
          λ errors. report_all-HasNone "AMSS AIP path retrieval failed:\n" errors

  Tracks-Tracked : (id : String) (s : State) → Tracks key id s → Tracked key s
  Tracks-Tracked id s (u, inl p) = inl p
  Tracks-Tracked id s (u, inr (q, r)) = inr (r, rw q (key-ne-empty id))

  after_prepare :
      (r : Result (Unit {0})) (s : State)
      → HasNone key s
      → Tracked key (continue r (λ _. run_sessions env cfg (max_sessions env cfg) none) s).1
  after_prepare (ok x) s p =
      Tracks-Tracked s.dip.uuid (run_sessions env cfg (max_sessions env cfg) none s).1
        (run_sessions-Safe env cfg key s.dip.uuid 5 none s (refl, inl p))
  after_prepare (err e) s p = inl p

  -- The body keeps the key of the only object that it may have made.
  pub body-Tracked : (s : State) → HasNone key s → Tracked key (body env cfg s).1
  unfolding body
  body-Tracked s p = after_prepare (prepare env cfg s).0 (prepare env cfg s).1 (prepare-HasNone s p)
