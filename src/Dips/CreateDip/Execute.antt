-- ===== src/Dips/CreateDip/Execute.antt =====
-- internal/dips/workflows/create_dip.go: Execute with its deferred functions.
use sfa_enduro_workflows.Base.{
  ℕ, zero, suc, ℤ, pos, negsuc, String, ◌<>◌, true, false, Option, none, some, List, [], ◌∷◌, ◌++◌,
  str_eq, if◌then◌else◌,
}
use sfa_enduro_workflows.Workflow.{Err, plain, canceled, joined, Result, ok, err}
use sfa_enduro_workflows.Dips.Datatypes.{in_progress, stored, failed, Dip}
use sfa_enduro_workflows.Dips.UpdateDip.{UpdateDipParams}
use sfa_enduro_workflows.Dips.CreateDip.{
  update_dip, get_document, get_aip_path, create_session, sleep, Environment, Config, Aip, State,
  Action, ◌>>=◌, ◌>>◌, pure, fail, attempt, set_error_message, activity_error_message, error_text,
  is_lost, or_report, join_errors,
}
use sfa_enduro_workflows.Dips.CreateDip.Retention.{
  no_update, request_update, delete_dip, delete_after_retention,
}
use sfa_enduro_workflows.Dips.CreateDip.Session.{session_handler, report_all}

-- max(0, retention)
abbrev pub positive_part : ℤ → ℤ
positive_part (pos n) = pos n
positive_part (negsuc n) = pos 0

-- `none` is nil.
abbrev pub error_of : {A : Type 0} → Result A → Option Err
error_of (ok a) = none
error_of (err e) = some e

-- The final result: the rounds of the retention did not suffice, an error, or the DIP.
pub data Ending : Type 0 where
  waiting : Ending
  failing : Err → Ending
  finished : Dip → Ending

module _ (env : Environment) (cfg : Config) where
  abbrev pub add_aip : Aip → Action (Unit {0})
  add_aip a s = (ok tt, record s { aips = s.aips ++ (a ∷ []) })

  abbrev pub note_aip : String → Option Err → Err → Option Err
  note_aip id errors e =
      join_errors errors (some (plain ("AIP " <> (id <> (": " <> activity_error_message e)))))

  -- The loop over the AIPs of the document.
  unfoldable pub find_aips : List String → Option Err → Action (Option Err)
  find_aips [] errors = pure errors
  find_aips (id ∷ ids) errors = do
    reply ← attempt (get_aip_path id) env.get_aip_path_reply
    elim reply [
      | ok path ↦ add_aip (record { uuid = id; relative_path = path }) >> find_aips ids errors
      | err e ↦ find_aips ids (note_aip id errors e)
    ]

  abbrev pub set_dip : Dip → Action (Unit {0})
  set_dip d s = (ok tt, record s { dip = d })

  unfoldable pub or_persistence_error : Result Dip → Action Dip
  or_persistence_error (ok d) = pure d
  or_persistence_error (err e) = set_error_message "DIP persistence update failed." >> fail e

  unfoldable pub require_aips : List String → Action (Unit {0})
  require_aips [] =
      set_error_message "ACTApro document contains no AIPs."
      >> fail (plain "ACTApro document contains no AIPs.")
  require_aips (_ ∷ _) = pure tt

  -- The first update, whose DIP replaces that of the parameters.
  unfoldable pub start_update : Action (Unit {0})
  unfolding or_persistence_error
  start_update s =
      (do
        reply ← request_update env cfg (record no_update {
          workflow_id = env.workflow_id;
          uuid = s.dip.uuid;
          status = in_progress;
        })
        d ← or_persistence_error reply
        set_dip d)
        s

  -- The AIPs of the ACTApro document
  unfoldable pub list_aips : Action (List String)
  unfolding require_aips
  list_aips s =
      (do
        document ← attempt (get_document s.dip.doc_key) env.get_document_reply
        ids ← or_report "ACTApro document retrieval failed: " document
        require_aips ids
        pure ids)
        s

  -- From the first update to the AIP paths.
  unfoldable pub prepare : Action (Unit {0})
  prepare = do
    start_update
    ids ← list_aips
    errors ← find_aips ids none
    report_all env cfg "AMSS AIP path retrieval failed:\n" errors

  -- The session of an attempt, its error as a value.
  unfoldable pub try_session : Action (Result (Unit {0}))
  try_session s = let (r, s') = session_handler env cfg s in (ok r, s')

  -- ctx.Err() == ErrCanceled
  unfoldable pub stop_on : Option Err → Action (Unit {0})
  stop_on (some canceled) = fail canceled
  stop_on _ = pure tt

  unfoldable pub stop_if_canceled : Action (Unit {0})
  unfolding stop_on
  stop_if_canceled s = stop_on (env.context_error s.calls) s

  unfoldable pub session_error : Option Err → Action (Unit {0})
  session_error none = pure tt
  session_error (some e) = fail e

  unfoldable pub open_session : Action (Unit {0})
  open_session = do
    session ← attempt create_session env.create_session_reply
    elim session [
      | err e ↦ fail (plain ("error creating session: " <> error_text e))
      | ok _ ↦ pure tt
    ]

  -- Behind a lost session: the workflow stops if it was canceled, and sleeps if not.
  unfoldable pub recover : Action (Result (Unit {0}))
  unfolding stop_if_canceled
  recover = do stop_if_canceled; attempt (sleep 10000000000) env.sleep_reply

  -- The loop over the sessions, with the attempts that are left and the error of the last session.
  unfoldable pub run_sessions : ℕ → Option Err → Action (Unit {0})
  unfolding session_error open_session recover try_session
  run_sessions zero last = session_error last
  run_sessions (suc left) last = do
    open_session
    handled ← try_session
    elim handled [
      | ok _ ↦ pure tt
      | err e ↦ elim (is_lost e) [ true ↦ do recover; run_sessions left (some e) | false ↦ fail e ]
    ]

  -- maxAttempts
  abbrev pub max_sessions : ℕ
  max_sessions = 5

  -- Execute without its deferred functions.
  unfoldable pub body : Action (Unit {0})
  body = do prepare; run_sessions max_sessions none

  -- The parameters of the final update.
  abbrev pub final_update : Option Err → State → UpdateDipParams
  final_update none s = record no_update {
    uuid = s.dip.uuid;
    status = stored;
    object_key = s.object_key;
    retention = positive_part cfg.retention;
  }
  final_update (some e) s = record no_update {
    uuid = s.dip.uuid;
    status = failed;
    object_key = s.object_key;
    error_message =
        if str_eq s.dip.error_message "" then activity_error_message e else s.dip.error_message;
  }

  -- errors.Join(e, deleteDIP(...))
  abbrev pub join_removal : Err → Result (Unit {0}) → Err
  join_removal e (ok _) = e
  join_removal e (err e') = joined e e'

  abbrev pub ending : Result (Option (Unit {0})) → Dip → Ending
  ending (err e) d = failing e
  ending (ok none) d = waiting
  ending (ok (some _)) d = finished d

  -- Behind the final update, with the error so far.
  unfoldable pub conclude : ℕ → Option Err → State → Ending × State
  conclude rounds (some e) s =
      if str_eq s.object_key ""
      then (failing e, s)
      else let (r, s') = delete_dip env cfg s.dip.uuid s.object_key s in
        (failing (join_removal e r), s')
  conclude rounds none s =
      let (r, s') = delete_after_retention env cfg rounds s.dip.uuid s.object_key s in
      (ending r s'.dip, s')

  -- The error that the deferred function finds: that of the body, or else that of the context.
  abbrev pub found_error : Result (Unit {0}) → State → Option Err
  found_error (ok _) s = env.context_error s.calls
  found_error (err e) s = some e

  -- The reply of the final update
  unfoldable pub settle : ℕ → Option Err → Result Dip → State → Ending × State
  unfolding conclude
  settle rounds e (ok d) s = conclude rounds e (record s { dip = d })
  settle rounds e (err e') s = conclude rounds (join_errors e (some e')) s

  -- The deferred function: the final update, then the cleanup.
  unfoldable pub finish : ℕ → Result (Unit {0}) → State → Ending × State
  unfolding settle
  finish rounds r s =
      let e = found_error r s in
      let c = update_dip (final_update e s) ∷ s.calls in
      settle rounds e (env.update_dip_reply c) (record s { calls = c })

  abbrev pub initial : Dip → State
  initial d = record { calls = []; dip = d; dip_path = ""; object_key = ""; aips = [] }

  -- Execute, with a bound on the rounds of the retention.
  unfoldable pub run : ℕ → Dip → Ending × State
  unfolding body finish
  run rounds d = let (r, s) = body (initial d) in finish rounds r s
