-- ===== src/Preprocessing/Invariant/Preservation.antt =====
-- internal/workflows/preprocessing.go: the steps behind the gate report a failure or keep the history
-- clean.
use sfa_enduro_workflows.Base.{ℕ, String, ◌≡◌, true, List, [], ◌∷◌, arith, some}
use sfa_enduro_workflows.Sip.{Sip}
use sfa_enduro_workflows.Workflow.{Result, ok, err, new_task, count_tasks}
use sfa_enduro_workflows.Apis.{CustomMetadata}
use sfa_enduro_workflows.Workflow.Reports.{open_tasks, verdict}
use sfa_enduro_workflows.Preprocessing.{
  Call, Environment, State, ◌>>◌, pure, or_broken, execute, report_success,
}
use sfa_enduro_workflows.Preprocessing.Import.{
  import_task, submit_metadata, wait_for_analysis, record_metadata, resolve,
}
use sfa_enduro_workflows.Preprocessing.Preservation.{
  run_premis_calls, premis_calls, write_premis, restructure, write_identifiers, bag,
}
use sfa_enduro_workflows.Preprocessing.Invariant.{guarded, is_passed, Clean, Triple, Triple-bind}

module _ (env : Environment) where
  submit_metadata-Clean :
      (sip : Sip) (username : String) → Triple Clean Clean (submit_metadata env sip username)
  unfolding submit_metadata
  submit_metadata-Clean sip username = record { at = λ s h. ground arith }

  wait_for_analysis-Clean : (id : String) → Triple Clean Clean (wait_for_analysis env id)
  unfolding wait_for_analysis resolve
  wait_for_analysis-Clean id = record { at = λ s h. ground arith }

  pub restructure-Clean : (sip : Sip) → Triple Clean Clean (restructure env sip)
  unfolding restructure
  restructure-Clean sip = record { at = λ s h. ground arith }

  pub write_identifiers-Clean : (pip : String) → Triple Clean Clean (write_identifiers env pip)
  unfolding write_identifiers
  write_identifiers-Clean pip = record { at = λ s h. ground arith }

  pub bag-Clean : (path : String) → Triple Clean Clean (bag env path)
  unfolding bag
  bag-Clean path = record { at = λ s h. ground arith }

  record_metadata-Clean : (m : CustomMetadata) → Triple Clean Clean (record_metadata env m)
  unfolding record_metadata
  record_metadata-Clean m = record { at = λ s h. ground arith }

  pub import_task-Clean :
      (sip : Sip) (username : String) → Triple Clean Clean (import_task env sip username)
  unfolding import_task
  import_task-Clean sip username =
      Triple-bind _ _ (submit_metadata-Clean sip username)
        λ id. Triple-bind _ _ (wait_for_analysis-Clean id) λ d. record_metadata-Clean _

-- Clean, but for one open task.
record Working (t : ℕ) (s : State) : Type 0 where
  balanced : open_tasks s.events ≡ some (t ∷ [])
  gated : guarded s.events ≡ true
  unfailed : is_passed (verdict s.events) ≡ true

module _ (env : Environment) where
  execute-Working : (t : ℕ) (c : Call) → Triple (Working t) (Working t) (execute c env.premis_reply)
  execute-Working t c = record { at = λ s h. ground arith }

  continue-Working :
      (t : ℕ) (calls : List Call) (reply : Result (Unit {0}))
      → Triple (Working t) (Working t) (run_premis_calls env calls)
      → Triple
          (Working t)
          (Working t)
          (elim reply [ ok _ ↦ run_premis_calls env calls | err e ↦ pure (err e) ])
  continue-Working t calls (ok _) rest = rest
  continue-Working t calls (err e) rest = record { at = λ s h. h }

  run_premis_calls-Working :
      (t : ℕ) (calls : List Call) → Triple (Working t) (Working t) (run_premis_calls env calls)
  unfolding run_premis_calls
  run_premis_calls-Working t [] = record { at = λ s h. h }
  run_premis_calls-Working t (c ∷ calls) =
      Triple-bind _ _ (execute-Working t c)
        (λ reply. continue-Working t calls reply (run_premis_calls-Working t calls))

  finish_premis-Clean :
      (t : ℕ) (written : Result (Unit {0})) (broken : String) (lines : List String)
      (success : String)
      → Triple (Working t) Clean (or_broken written t broken lines >> report_success t success)
  finish_premis-Clean t written broken lines success = record { at = λ s h. ground arith }

  pub write_premis-Clean : (sip : Sip) → Triple Clean Clean (write_premis env sip)
  unfolding write_premis
  write_premis-Clean sip = record {
    at = λ s h.
        let t = count_tasks s.events in
        (Triple-bind _ _ (run_premis_calls-Working t (premis_calls sip))
            (λ r. finish_premis-Clean t r _ _ _)).at
          (record s { events = new_task t "Create premis.xml" ∷ s.events }) (ground arith);
  }
