-- ===== src/Dips/CreateDip/Bounds.antt =====
-- internal/dips/workflows/create_dip.go: how many sessions and exports a run asks for.
pub mod Session
pub mod Run
use native.Mathlib.Nat.{le_refl}
use sfa_enduro_workflows.Base.{
  ℕ, zero, suc, ◌+◌, ◌≤◌, ◌≡◌, refl, String, Bool, true, false, Option, none, some, List, [], ◌∷◌,
  ◌*◌, ◌<>◌, if◌then◌else◌, arith,
}
use sfa_enduro_workflows.FilePath.{join}
use sfa_enduro_workflows.Workflow.{Err, Result, ok, err}
use sfa_enduro_workflows.Dips.Datatypes.{Dip}
use sfa_enduro_workflows.Dips.CreateDip.{
  Call, History, create_session, create_export, Metadata, ContentFile, Aip, Environment, Config,
  State, Action, ◌>>=◌, ◌>>◌, continue, pure, fail, or_report, attempt, execute, is_lost, sleep,
  fetch, set_error_message,
}
use sfa_enduro_workflows.Dips.CreateDip.Session.{
  fetch_metadata, delay, try_fetch, exhausted, export_retry_delay, mets_params, note_error,
  fetch_file, fetch_attempts, fetch_valid_metadata, fetch_mets, report_all, check_files, parse,
  prepare_header, pack_and_upload, fetch_content, collect_metadata, assemble, session_body,
  close_session, session_handler,
}
use sfa_enduro_workflows.Dips.CreateDip.Retention.{
  delete_dip, wait_until, after_reply, delete_after_retention,
}
use sfa_enduro_workflows.Dips.CreateDip.Execute.{
  Ending, find_aips, prepare, try_session, stop_if_canceled, open_session, recover, session_error,
  run_sessions, body, conclude, finish, initial, run,
}

abbrev pub sessions : History → ℕ
sessions [] = 0
sessions (create_session ∷ h) = suc (sessions h)
sessions (_ ∷ h) = sessions h

abbrev pub exports : History → ℕ
exports [] = 0
exports (create_export doc ∷ h) = suc (exports h)
exports (_ ∷ h) = exports h

-- An action that asks for at most `a` sessions and `b` exports.
pub record Costs {A : Type 0} (a b : ℕ) (m : Action A) : Type 0 where
  pub in_sessions : (s : State) → sessions (m s).1.calls ≤ a + sessions s.calls
  pub in_exports : (s : State) → exports (m s).1.calls ≤ b + exports s.calls

module _ {A B : Type 0} where
  continue-sessions :
      (a : ℕ) (r : Result A) (s : State) (f : A → Action B)
      → ((x : A) → sessions (f x s).1.calls ≤ a + sessions s.calls)
      → sessions (continue r f s).1.calls ≤ a + sessions s.calls
  continue-sessions a (ok x) s f h = h x
  continue-sessions a (err e) s f h = omega arith

  continue-exports :
      (a : ℕ) (r : Result A) (s : State) (f : A → Action B)
      → ((x : A) → exports (f x s).1.calls ≤ a + exports s.calls)
      → exports (continue r f s).1.calls ≤ a + exports s.calls
  continue-exports a (ok x) s f h = h x
  continue-exports a (err e) s f h = omega arith

  pub Costs-bind :
      (a b c d : ℕ) (m : Action A) (f : A → Action B)
      → Costs a b m
      → ((x : A) → Costs c d (f x))
      → Costs (a + c) (b + d) (m >>= f)
  Costs-bind a b c d m f first rest = record {
    in_sessions = λ s. omega (
      arith,
      first.in_sessions s,
      continue-sessions c (m s).0 (m s).1 f (λ x. (rest x).in_sessions (m s).1),
    );
    in_exports = λ s. omega (
      arith,
      first.in_exports s,
      continue-exports d (m s).0 (m s).1 f (λ x. (rest x).in_exports (m s).1),
    );
  }

pub Costs-weaken :
    {A : Type 0} (a b c d : ℕ) (m : Action A) → a ≤ c → b ≤ d → Costs a b m → Costs c d m
Costs-weaken a b c d m p q h = record {
  in_sessions = λ s. omega (arith, h.in_sessions s);
  in_exports = λ s. omega (arith, h.in_exports s);
}

abbrev pub is_quiet : Call → Bool
is_quiet create_session = false
is_quiet (create_export doc) = false
is_quiet _ = true

module _ {A : Type 0} where
  pub pure-Costs : (x : A) → Costs 0 0 (pure x)
  pure-Costs x = record { in_sessions = λ s. omega arith; in_exports = λ s. omega arith }

  pub fail-Costs : (e : Err) → Costs 0 0 (fail {A = A} e)
  fail-Costs e = record { in_sessions = λ s. omega arith; in_exports = λ s. omega arith }

  pub attempt-Costs :
      (c : Call) (reply : History → Result A) → is_quiet c ≡ true → Costs 0 0 (attempt c reply)
  attempt-Costs c reply h = record {
    in_sessions = λ s. ground arith;
    in_exports = λ s. ground arith;
  }

  pub execute-Costs :
      (c : Call) (reply : History → Result A) → is_quiet c ≡ true → Costs 0 0 (execute c reply)
  execute-Costs c reply h = record {
    in_sessions = λ s. ground arith;
    in_exports = λ s. ground arith;
  }

  pub or_report-Costs : (prefix : String) (r : Result A) → Costs 0 0 (or_report prefix r)
  or_report-Costs prefix (ok x) = pure-Costs x
  or_report-Costs prefix (err e) = record {
    in_sessions = λ s. omega arith;
    in_exports = λ s. omega arith;
  }

module _ {A : Type 0} where
  -- A test decides which of two actions runs.
  pub Costs-test :
      (a b : ℕ) (test : Bool) (m n : Action A)
      → Costs a b m
      → Costs a b n
      → Costs a b (elim test [ true ↦ m | false ↦ n ])
  Costs-test a b true m n x y = x
  Costs-test a b false m n x y = y

  -- A result decides which of two actions runs.
  pub Costs-result :
      {B : Type 0} (a b : ℕ) (r : Result B) (f : B → Action A) (g : Err → Action A)
      → ((x : B) → Costs a b (f x))
      → ((e : Err) → Costs a b (g e))
      → Costs a b (elim r [ ok x ↦ f x | err e ↦ g e ])
  Costs-result a b (ok x) f g p q = p x
  Costs-result a b (err e) f g p q = q e

  -- Nothing is within every bound.
  pub pure_within : (a b : ℕ) (x : A) → Costs a b (pure x)
  pure_within a b x = Costs-weaken 0 0 a b (pure x) (omega arith) (omega arith) (pure-Costs x)

  pub fail_within : (a b : ℕ) (e : Err) → Costs a b (fail {A = A} e)
  fail_within a b e = Costs-weaken 0 0 a b (fail e) (omega arith) (omega arith) (fail-Costs e)

  -- Steps that make no request, before an action.
  pub Costs-quiet :
      {B : Type 0} (a b : ℕ) (m : Action B) (f : B → Action A)
      → Costs 0 0 m
      → ((x : B) → Costs a b (f x))
      → Costs a b (m >>= f)
  Costs-quiet a b m f first rest =
      Costs-weaken (0 + a) (0 + b) a b (m >>= f) (omega arith) (omega arith)
        (Costs-bind 0 0 a b m f first rest)

report_Costs : (message : String) → Costs 0 0 (set_error_message message)
report_Costs message = record { in_sessions = λ s. omega arith; in_exports = λ s. omega arith }
