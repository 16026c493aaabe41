-- ===== src/Dips/CreateDip/Bounds/Run.antt =====
-- internal/dips/workflows/create_dip.go: the sessions and exports that a run asks for.
use sfa_enduro_workflows.Base.{
  ℕ, zero, suc, ◌+◌, ◌≤◌, refl, String, true, false, Option, none, some, List, [], ◌∷◌, ◌*◌, arith,
}
use sfa_enduro_workflows.Workflow.{Err, Result, ok, err}
use sfa_enduro_workflows.Dips.Datatypes.{Dip, deleted}
use sfa_enduro_workflows.Dips.CreateDip.{
  Aip, Environment, Config, State, ◌>>◌, pure, fail, join_errors, attempt, execute, is_lost,
  get_aip_path, update_dip,
}
use sfa_enduro_workflows.Dips.CreateDip.Retention.{
  after_reply, no_update, delete_dip, wait_until, after_reply, delete_after_retention,
}
use sfa_enduro_workflows.Dips.CreateDip.Execute.{
  settle, found_error, add_aip, note_aip, start_update, list_aips, or_persistence_error,
  require_aips, find_aips, prepare, try_session, open_session, recover, session_error, run_sessions,
  body, conclude, finish, initial, run,
}
use sfa_enduro_workflows.Dips.CreateDip.Bounds.{
  sessions, exports, Costs, Costs-bind, Costs-weaken, pure-Costs, fail-Costs, attempt-Costs,
  execute-Costs, Costs-test, Costs-result, pure_within, fail_within, Costs-quiet,
}
use sfa_enduro_workflows.Dips.CreateDip.Bounds.Session.{report_all-Costs, try_session-Costs}

module _ (env : Environment) (cfg : Config) where
  open_session-Costs : Costs 1 0 (open_session env cfg)
  unfolding open_session
  open_session-Costs = record { in_sessions = λ s. ground arith; in_exports = λ s. ground arith }

  recover-Costs : Costs 0 0 (recover env cfg)
  unfolding recover
  recover-Costs = record { in_sessions = λ s. ground arith; in_exports = λ s. ground arith }

  session_error-Costs : (last : Option Err) → Costs 0 0 (session_error env cfg last)
  unfolding session_error
  session_error-Costs none = pure-Costs tt
  session_error-Costs (some e) = fail-Costs e

  run_sessions-Costs :
      (left : ℕ) (last : Option Err) → Costs left (3 * left) (run_sessions env cfg left last)
  unfolding run_sessions
  run_sessions-Costs zero last = session_error-Costs last
  run_sessions-Costs (suc left) last =
      Costs-weaken (1 + left) (0 + (3 + 3 * left)) (suc left) (3 * suc left) _ (omega arith)
        (omega arith)
        (Costs-bind 1 0 left (3 + 3 * left) (open_session env cfg) _ open_session-Costs λ _.
          Costs-weaken (0 + left) (3 + 3 * left) left (3 + 3 * left) _ (omega arith) (omega arith) (
            Costs-bind 0 3 left (3 * left) (try_session env cfg) _ (try_session-Costs env cfg)
              λ handled.
                Costs-result left (3 * left) handled (λ _. pure tt)
                  (λ e. elim (is_lost e) [
                    | true ↦ recover env cfg >> run_sessions env cfg left (some e)
                    | false ↦ fail e
                  ])
                  (λ x. pure_within left (3 * left) tt)
                  λ e.
                    Costs-test left (3 * left) (is_lost e)
                      (recover env cfg >> run_sessions env cfg left (some e)) (fail e)
                      (Costs-quiet left (3 * left) (recover env cfg) _ recover-Costs
                        λ _. run_sessions-Costs left (some e))
                      (fail_within left (3 * left) e)))

  add_aip-Costs : (a : Aip) → Costs 0 0 (add_aip env cfg a)
  add_aip-Costs a = record { in_sessions = λ s. omega arith; in_exports = λ s. omega arith }

  find_aips-Costs :
      (ids : List String) (errors : Option Err) → Costs 0 0 (find_aips env cfg ids errors)
  unfolding find_aips
  find_aips-Costs [] errors = pure-Costs errors
  find_aips-Costs (id ∷ ids) errors =
      Costs-quiet 0 0 (attempt (get_aip_path id) env.get_aip_path_reply) _
        (attempt-Costs (get_aip_path id) env.get_aip_path_reply refl)
        λ reply.
          Costs-result 0 0 reply
            (λ path.
              add_aip env cfg (record { uuid = id; relative_path = path })
              >> find_aips env cfg ids errors)
            (λ e. find_aips env cfg ids (note_aip env cfg id errors e))
            (λ path.
              Costs-quiet 0 0 (add_aip env cfg (record { uuid = id; relative_path = path })) _
                (add_aip-Costs (record { uuid = id; relative_path = path }))
                λ _. find_aips-Costs ids errors)
            λ e. find_aips-Costs ids (note_aip env cfg id errors e)

  start_update-Costs : Costs 0 0 (start_update env cfg)
  unfolding start_update or_persistence_error
  start_update-Costs = record { in_sessions = λ s. ground arith; in_exports = λ s. ground arith }

  list_aips-Costs : Costs 0 0 (list_aips env cfg)
  unfolding list_aips require_aips
  list_aips-Costs = record { in_sessions = λ s. ground arith; in_exports = λ s. ground arith }

  prepare-Costs : Costs 0 0 (prepare env cfg)
  unfolding prepare
  prepare-Costs = Costs-quiet 0 0 (start_update env cfg) _ start_update-Costs λ _.
      Costs-quiet 0 0 (list_aips env cfg) _ list_aips-Costs λ ids.
        Costs-quiet 0 0 (find_aips env cfg ids none) _ (find_aips-Costs ids none)
          λ errors. report_all-Costs env cfg "AMSS AIP path retrieval failed:\n" errors

  body-Costs : Costs 5 15 (body env cfg)
  unfolding body
  body-Costs = Costs-quiet 5 15 (prepare env cfg) _ prepare-Costs λ _. run_sessions-Costs 5 none

  delete_dip-Costs : (id key : String) → Costs 0 0 (delete_dip env cfg id key)
  unfolding delete_dip
  delete_dip-Costs id key = record {
    in_sessions = λ s. ground arith;
    in_exports = λ s. ground arith;
  }

  after_reply-Costs : (id key : String) (d : Dip) → Costs 0 0 (after_reply env cfg id key d)
  unfolding after_reply delete_dip wait_until
  after_reply-Costs id key d = record {
    in_sessions = λ s. ground arith;
    in_exports = λ s. ground arith;
  }

  -- The rounds of the retention and the cleanup are quiet.
  delete_after_retention-Costs :
      (rounds : ℕ) (id key : String) → Costs 0 0 (delete_after_retention env cfg rounds id key)
  unfolding delete_after_retention
  delete_after_retention-Costs zero id key = pure-Costs none
  delete_after_retention-Costs (suc rounds) id key =
      Costs-quiet 0 0
        (execute (update_dip (record no_update { uuid = id; status = deleted }))
          env.update_dip_reply)
        _
        (execute-Costs (update_dip (record no_update { uuid = id; status = deleted }))
          env.update_dip_reply refl)
        λ d. Costs-quiet 0 0 (after_reply env cfg id key d) _ (after_reply-Costs id key d) λ over.
          Costs-test 0 0 over (pure (some tt)) (delete_after_retention env cfg rounds id key)
            (pure-Costs (some tt)) (delete_after_retention-Costs rounds id key)

  conclude-sessions :
      (rounds : ℕ) (e : Option Err) (s : State)
      → sessions (conclude env cfg rounds e s).1.calls ≤ sessions s.calls
  unfolding conclude
  conclude-sessions rounds (some e) s =
      ground (arith, (delete_dip-Costs s.dip.uuid s.object_key).in_sessions s)
  conclude-sessions rounds none s =
      ground (arith, (delete_after_retention-Costs rounds s.dip.uuid s.object_key).in_sessions s)

  conclude-exports :
      (rounds : ℕ) (e : Option Err) (s : State)
      → exports (conclude env cfg rounds e s).1.calls ≤ exports s.calls
  unfolding conclude
  conclude-exports rounds (some e) s =
      ground (arith, (delete_dip-Costs s.dip.uuid s.object_key).in_exports s)
  conclude-exports rounds none s =
      ground (arith, (delete_after_retention-Costs rounds s.dip.uuid s.object_key).in_exports s)

  settle-sessions :
      (rounds : ℕ) (e : Option Err) (r : Result Dip) (s : State)
      → sessions (settle env cfg rounds e r s).1.calls ≤ sessions s.calls
  unfolding settle
  settle-sessions rounds e (ok d) s = conclude-sessions rounds e (record s { dip = d })
  settle-sessions rounds e (err e') s = conclude-sessions rounds (join_errors e (some e')) s

  settle-exports :
      (rounds : ℕ) (e : Option Err) (r : Result Dip) (s : State)
      → exports (settle env cfg rounds e r s).1.calls ≤ exports s.calls
  unfolding settle
  settle-exports rounds e (ok d) s = conclude-exports rounds e (record s { dip = d })
  settle-exports rounds e (err e') s = conclude-exports rounds (join_errors e (some e')) s

  finish-sessions :
      (rounds : ℕ) (r : Result (Unit {0})) (s : State)
      → sessions (finish env cfg rounds r s).1.calls ≤ sessions s.calls
  unfolding finish
  finish-sessions rounds r s = settle-sessions rounds (found_error env cfg r s) _ _

  finish-exports :
      (rounds : ℕ) (r : Result (Unit {0})) (s : State)
      → exports (finish env cfg rounds r s).1.calls ≤ exports s.calls
  unfolding finish
  finish-exports rounds r s = settle-exports rounds (found_error env cfg r s) _ _

  -- A run asks for at most five sessions and at most fifteen exports, whatever the activities answer.
  pub run-within_bounds :
      (rounds : ℕ) (d : Dip)
      → (sessions (run env cfg rounds d).1.calls ≤ 5)
        × (exports (run env cfg rounds d).1.calls ≤ 15)
  unfolding run
  run-within_bounds rounds d =
      let r = body env cfg (initial env cfg d) in
      (
        omega (arith, finish-sessions rounds r.0 r.1, body-Costs.in_sessions (initial env cfg d)),
        omega (arith, finish-exports rounds r.0 r.1, body-Costs.in_exports (initial env cfg d)),
      )
