-- ===== src/Poststorage.antt =====
-- internal/workflows/poststorage_apis.go and internal/workflows/poststorage_cantons.go: the calls of
-- the poststorage workflows, what answers them, their state, and the loop over sessions.
pub mod Apis
pub mod Cantons
pub mod Invariant
use sfa_enduro_workflows.Base.{
  ℕ, zero, suc, String, ◌<>◌, Bool, true, false, Option, none, some, List, [], ◌∷◌, ◌++◌,
  if◌then◌else◌,
}
use sfa_enduro_workflows.Workflow.{
  Err, canceled, plain, Result, ok, err, Event, call, new_task, succeed, system_error, History,
  count_tasks,
}
use sfa_enduro_workflows.Workflow.Errors.{error_text, is_lost, join_errors}
use sfa_enduro_workflows.Apis.{ImportBehaviour}

-- gen.ImportResult
pub data ImportResult : Type 0 where
  erfolgreich import_fehler : ImportResult
  other_import : String → ImportResult

-- cantons.ParseActivityResult
pub record ParseResult : Type 0 where
  pub updated_arelda_metadata_rel_path : String
  pub metadata_rel_path : String

pub data Call : Type 0 where
  create_session : Call
  get_aip_path : String → Call
  -- amss.FetchActivityParams: the AIP, the relative path and the destination
  fetch : String → String → String → Call
  create_import_run : String → String → ImportBehaviour → String → Call
  poll_import_run_status : String → Call
  parse_mets : String → Call
  combine_md : String → String → String → Call
  archive_zip : String → Call
  bucket_upload : String → Call
  remove_paths : List String → Call
  complete_session : Call
  sleep : ℕ → Call

-- What Temporal and the activities answer, after the history of a run.
pub record Environment : Type 0 where
  pub context_error : History Call → Option Err
  -- uuid.Parse and String, of the package uuid
  pub parse_uuid : String → Result String
  pub create_session_reply : History Call → Result (Unit {0})
  pub get_aip_path_reply : History Call → Result String
  pub fetch_reply : History Call → Result (Unit {0})
  pub create_import_run_reply : History Call → Result String
  pub poll_import_run_status_reply : History Call → Result ImportResult
  pub parse_mets_reply : History Call → Result ParseResult
  pub combine_md_reply : History Call → Result (Unit {0})
  pub archive_zip_reply : History Call → Result String
  pub bucket_upload_reply : History Call → Result (Unit {0})
  pub remove_paths_reply : History Call → Result (Unit {0})

-- The history, and the paths that the session removes at its end.
pub record State : Type 0 where
  pub events : History Call
  pub removed : List String

-- How a step ends: the handler goes on, or returns nil behind a report, or returns an error.
pub data Flow (A : Type 0) : Type 0 where
  next : A → Flow A
  returned : Flow A
  raised : Err → Flow A

abbrev pub Action : Type 0 → Type 0
Action A = State → Flow A × State

abbrev pub continue : {A B : Type 0} → Flow A → (A → Action B) → Action B
continue (next a) f s = f a s
continue returned f s = (returned, s)
continue (raised e) f s = (raised e, s)

infixl 5 ◌>>=◌ ◌>>◌
abbrev pub ◌>>=◌ : {A B : Type 0} → Action A → (A → Action B) → Action B
◌>>=◌ m f s = let (r, s') = m s in continue r f s'

abbrev pub ◌>>◌ : {A B : Type 0} → Action A → Action B → Action B
m >> n = m >>= λ _. n

abbrev pub pure : {A : Type 0} → A → Action A
pure a s = (next a, s)

abbrev pub return_nil : {A : Type 0} → Action A
return_nil s = (returned, s)

abbrev pub raise : {A : Type 0} → Err → Action A
raise e s = (raised e, s)

abbrev pub record_event : Event Call → Action (Unit {0})
record_event e s = (next tt, record s { events = e ∷ s.events })

abbrev pub start : String → Action ℕ
start name s =
    let t = count_tasks s.events in (next t, record s { events = new_task t name ∷ s.events })

abbrev pub execute : {A : Type 0} → Call → (History Call → A) → Action A
execute c reply s = let h = call c ∷ s.events in (next (reply h), record s { events = h })

-- `if e != nil { return e }`
abbrev pub require : {A : Type 0} → Result A → Action A
require (ok a) = pure a
require (err e) = raise e

-- `if e != nil { result.SystemError(…); return nil }`
abbrev pub or_broken : {A : Type 0} → Result A → ℕ → String → String → Action A
or_broken (ok a) t message line = pure a
or_broken (err e) t message line = record_event (system_error t message (line ∷ [])) >> return_nil

abbrev pub remove_later : String → Action (Unit {0})
remove_later path s = (next tt, record s { removed = s.removed ++ (path ∷ []) })

-- A session's handler: its error, where `none` is nil.
abbrev pub Handler : Type 0
Handler = State → Option Err × State

abbrev pub raised_error : {A : Type 0} → Flow A → Option Err
raised_error (next a) = none
raised_error returned = none
raised_error (raised e) = some e

abbrev pub error_of : {A : Type 0} → Result A → Option Err
error_of (ok a) = none
error_of (err e) = some e

-- The result of a run: `return nil, nil`, an error, or the result.
pub data Ending : Type 0 where
  gone : Ending
  failing : Err → Ending
  finished : Ending

abbrev pub ending_of : Option Err → Ending
ending_of none = finished
ending_of (some e) = failing e

module _ (env : Environment) where
  -- The deferred cleanup, whose error is joined to that of the body.
  unfoldable pub close_session : Option Err → Handler
  close_session e s =
      let h = call (remove_paths s.removed) ∷ s.events in
      (
        join_errors e (error_of (env.remove_paths_reply h)),
        record s { events = call complete_session ∷ h },
      )

  unfoldable pub with_cleanup : Action (Unit {0}) → Handler
  unfolding close_session
  with_cleanup body s =
      let (r, s') = body (record s { removed = [] }) in close_session (raised_error r) s'

  is_canceled : Option Err → Bool
  is_canceled (some canceled) = true
  is_canceled _ = false

  -- Behind a session that was lost
  unfoldable pub recover : State → Bool × State
  unfolding is_canceled
  recover s =
      if is_canceled (env.context_error s.events)
      then (true, s)
      else (false, record s { events = call (sleep 10000000000) ∷ s.events })

  unfoldable pub retry : (Err → State → Ending × State) → Err → Bool → State → Ending × State
  retry again e true s = (gone, s)
  retry again e false s = again e s

  -- Behind a session: only a session that was lost is tried again.
  unfoldable pub after_session :
      (Err → State → Ending × State) → Option Err → State → Ending × State
  unfolding retry recover
  after_session again none s = (finished, s)
  after_session again (some e) s =
      if is_lost e then (let (stop, s') = recover s in retry again e stop s') else (failing e, s)

  unfoldable pub open_session :
      (State → Ending × State) → Result (Unit {0}) → State → Ending × State
  open_session run (err e) s = (failing (plain ("error creating session: " <> error_text e)), s)
  open_session run (ok _) s = run s

  -- The loop over sessions, with the attempts that are left and the error of the last one.
  unfoldable pub run_sessions : Handler → ℕ → Option Err → State → Ending × State
  unfolding after_session open_session
  run_sessions handler zero last s = (ending_of last, s)
  run_sessions handler (suc left) last s =
      let h = call create_session ∷ s.events in
      open_session
        (λ s'.
          let (e, s'') = handler s' in
          after_session (λ lost. run_sessions handler left (some lost)) e s'')
        (env.create_session_reply h) (record s { events = h })
