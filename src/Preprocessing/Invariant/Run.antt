-- ===== src/Preprocessing/Invariant/Run.antt =====
-- internal/workflows/preprocessing.go: the whole run. A package is prepared for preservation exactly
-- if no failure was reported, and every task is finished once.
use sfa_enduro_workflows.Base.{
  String, ◌≡◌, refl, true, false, [], ◌∷◌, ◌++◌, arith, Option, some, none, ◌⊎◌,
}
use sfa_enduro_workflows.FilePath.{clean, join}
use sfa_enduro_workflows.Sip.{Sip}
use sfa_enduro_workflows.Workflow.{
  History, call, new_task, succeed, validation_error, system_error, set_content_error,
  complete_invalid,
}
use sfa_enduro_workflows.Workflow.Reports.{
  open_tasks, verdict, passed, Childwf, IsLawful, outcome-eq-verdict,
}
use sfa_enduro_workflows.Preprocessing.{
  Call, Environment, State, Flow, next, returned, raised, pure, set_relative_path,
}
use sfa_enduro_workflows.Preprocessing.Execute.{
  Params, Config, initial, run, process, open_package, validate, submit, preserve, stop_if_broken,
  stop_if_invalid,
}
use sfa_enduro_workflows.Preprocessing.Invariant.{
  is_gated, guarded, Kept, Sound, Clean, Ends, Triple, Triple-bind, Triple-if,
}
use sfa_enduro_workflows.Preprocessing.Invariant.Checks.{
  extract_sip-Kept, check_bag-Sound, open_bag-Sound, identify-Sound, check_structure-Sound,
  check_name-Sound, check_manifest-Sound, check_formats-Sound, check_files-Sound,
  check_metadata-Sound, check_logical_metadata-Sound,
}
use sfa_enduro_workflows.Preprocessing.Invariant.Preservation.{
  import_task-Clean, write_premis-Clean, restructure-Clean, write_identifiers-Clean, bag-Clean,
}

Ends-balanced : (r : Flow (Unit {0})) (s : State) → Ends Clean r s → open_tasks s.events ≡ some []
Ends-balanced (next a) s h = h.balanced
Ends-balanced returned s h = h.balanced
Ends-balanced (raised e) s h = h.balanced

Ends-gated : (r : Flow (Unit {0})) (s : State) → Ends Clean r s → guarded s.events ≡ true
Ends-gated (next a) s h = h.gated
Ends-gated returned s h = h.gated
Ends-gated (raised e) s h = h.gated

guarded-split :
    (newer older : History Call) (c : Call)
    → guarded (newer ++ (call c ∷ older)) ≡ true
    → is_gated c ≡ true
    → verdict older ≡ passed
guarded-split [] older c h gate = ground arith
guarded-split (call d ∷ newer) older c h gate = guarded-split newer older c (ground arith) gate
guarded-split (new_task t n ∷ newer) older c h gate = guarded-split newer older c h gate
guarded-split (succeed t m ∷ newer) older c h gate = guarded-split newer older c h gate
guarded-split (validation_error t m l ∷ newer) older c h gate = guarded-split newer older c h gate
guarded-split (system_error t m l ∷ newer) older c h gate = guarded-split newer older c h gate
guarded-split (set_content_error ∷ newer) older c h gate = guarded-split newer older c h gate
guarded-split (complete_invalid t m ∷ newer) older c h gate = guarded-split newer older c h gate

module _ (lib : Childwf Call) (L : IsLawful lib) where
  Ends-outcome :
      (r : Flow (Unit {0})) (s : State)
      → Ends Clean r s
      → (r ≡ next tt
          → (lib.has_content_error s.events ≡ false) × (lib.has_system_error s.events ≡ false))
        × (r ≡ returned
            → (lib.has_content_error s.events ≡ true) ⊎ (lib.has_system_error s.events ≡ true))
  Ends-outcome (next a) s h = ground (arith, outcome-eq-verdict lib L s.events)
  Ends-outcome returned s h = ground (arith, outcome-eq-verdict lib L s.events)
  Ends-outcome (raised e) s h = ground (arith, outcome-eq-verdict lib L s.events)

module _ (env : Environment) (lib : Childwf Call) (L : IsLawful lib) (cfg : Config) where
  stop_if_broken-Sound : Triple Kept Sound (stop_if_broken env lib cfg)
  unfolding stop_if_broken
  stop_if_broken-Sound = record { at = λ s h. ground (arith, outcome-eq-verdict lib L s.events) }

  stop_if_invalid-Clean : Triple Sound Clean (stop_if_invalid env lib cfg)
  unfolding stop_if_invalid
  stop_if_invalid-Clean = record { at = λ s h. ground (arith, outcome-eq-verdict lib L s.events) }

  set_relative_path-Sound : (path : String) → Triple Sound Sound (set_relative_path path)
  set_relative_path-Sound path = record { at = λ s h. ground arith }

  open_package-Sound : (params : Params) → Triple Sound Sound (open_package env lib cfg params)
  unfolding open_package
  open_package-Sound params = Triple-bind _ _ (set_relative_path-Sound params.relative_path) λ _.
      Triple-bind _ _
        (extract_sip-Kept env cfg.shared_path
          (join (cfg.shared_path ∷ clean params.relative_path ∷ [])) params.sip_name)
        λ extracted. Triple-bind _ _ stop_if_broken-Sound λ _.
          Triple-bind _ _ (check_bag-Sound env cfg.shared_path extracted) λ is_bag.
            Triple-bind _ _ (open_bag-Sound env cfg.shared_path extracted is_bag) λ path.
              Triple-bind _ (λ sip. pure (path, sip)) (identify-Sound env path)
                λ sip. record { at = λ s h. h }

  validate-Sound : (sip : Sip) → Triple Sound Sound (validate env lib cfg sip)
  unfolding validate
  validate-Sound sip = Triple-bind _ _ (check_structure-Sound env sip) λ _.
      Triple-bind _ _ (check_name-Sound env sip) λ _.
        Triple-bind _ _ (check_manifest-Sound env sip) λ _.
          Triple-bind _ _ (check_formats-Sound env sip) λ _.
            Triple-bind _ _ (check_files-Sound env sip) λ _.
              Triple-bind _ _ (check_metadata-Sound env sip)
                λ _. check_logical_metadata-Sound env sip

  submit-Clean :
      (user : Option String) (sip : Sip) → Triple Clean Clean (submit env lib cfg user sip)
  unfolding submit
  submit-Clean user sip =
      Triple-if cfg.apis_enabled _ _ (import_task-Clean env sip _) (record { at = λ s h. h })

  preserve-Clean : (path : String) (sip : Sip) → Triple Clean Clean (preserve env lib cfg path sip)
  unfolding preserve
  preserve-Clean path sip = Triple-bind _ _ (write_premis-Clean env sip) λ _.
      Triple-bind _ _ (restructure-Clean env sip)
        λ pip. Triple-bind _ _ (write_identifiers-Clean env pip) λ _. bag-Clean env path

  process-Clean : (params : Params) → Triple Sound Clean (process env lib cfg params)
  unfolding process
  process-Clean params = Triple-bind _ _ (open_package-Sound params) λ opened.
      Triple-bind _ _ (validate-Sound opened.1) λ _. Triple-bind _ _ stop_if_invalid-Clean λ _.
        Triple-bind _ _ (submit-Clean params.user opened.1) λ _. preserve-Clean opened.0 opened.1

  run-Ends :
      (params : Option Params) → Ends Clean (run env lib cfg params).0 (run env lib cfg params).1
  unfolding run
  run-Ends none = ground arith
  run-Ends (some params) = ground (
    arith,
    (process-Clean params).at initial (record { balanced = refl; gated = refl; unbroken = refl }),
  )

  -- Whatever the activities answer and however the run ends, every task that it started was
  -- finished exactly once.
  pub run-balanced :
      (params : Option Params) → open_tasks (run env lib cfg params).1.events ≡ some []
  run-balanced params = Ends-balanced _ _ (run-Ends params)

  -- At each call that submits the package to APIS or prepares it for preservation, no failure had
  -- been reported before.
  pub run-gated :
      (params : Option Params) (newer older : History Call) (c : Call)
      → (run env lib cfg params).1.events ≡ newer ++ (call c ∷ older)
      → is_gated c ≡ true
      → verdict older ≡ passed
  run-gated params newer older c split gate =
      guarded-split newer older c (rw (← split) (Ends-gated _ _ (run-Ends params))) gate

  -- A run that goes through to its end, which bags the package, reads no failure from its outcome.
  pub run-completed :
      (params : Option Params)
      → (run env lib cfg params).0 ≡ next tt
      → (lib.has_content_error (run env lib cfg params).1.events ≡ false)
        × (lib.has_system_error (run env lib cfg params).1.events ≡ false)
  run-completed params h = (Ends-outcome lib L _ _ (run-Ends params)).0 h

  -- A run that returns its result before its end reads a content error or a system error from its
  -- outcome.
  pub run-stopped :
      (params : Option Params)
      → (run env lib cfg params).0 ≡ returned
      → (lib.has_content_error (run env lib cfg params).1.events ≡ true)
        ⊎ (lib.has_system_error (run env lib cfg params).1.events ≡ true)
  run-stopped params h = (Ends-outcome lib L _ _ (run-Ends params)).1 h
