-- ===== src/Poststorage/Invariant/Apis.antt =====
-- internal/workflows/poststorage_apis.go: the tasks of a run, and what its success means.
use sfa_enduro_workflows.Base.{
  ◌≡◌, refl, ◌⊎◌, inl, inr, String, Bool, true, false, none, some, [], ◌∷◌, ◌||◌, arith,
}
use sfa_enduro_workflows.Workflow.{Result, ok, err, call, History}
use sfa_enduro_workflows.Workflow.Reports.{open_tasks, verdict}
use sfa_enduro_workflows.Apis.{CustomMetadata, ImportBehaviour}
use sfa_enduro_workflows.Poststorage.{
  Call, create_session, get_aip_path, fetch, create_import_run, parse_mets, combine_md, archive_zip,
  bucket_upload, remove_paths, complete_session, sleep, poll_import_run_status, ImportResult,
  erfolgreich, Environment, State, finished,
}
use sfa_enduro_workflows.Poststorage.Apis.{
  Params, find_aip, download, download_mets, submit_mets, report_import, wait_for_import,
  session_body, session_handler, run_import, run_parsed, run,
}
use sfa_enduro_workflows.Poststorage.Invariant.{
  Cases, cases, Triple, Triple-bind, Handles, Concludes, with_cleanup-Handles,
  run_sessions-Concludes,
}
use sfa_enduro_workflows.Preprocessing.Invariant.{is_passed}

abbrev succeeded : Result ImportResult → Bool
succeeded (ok erfolgreich) = true
succeeded _ = false

-- APIS was asked for the state of the import, and answered that it succeeded.
abbrev pub imports : Environment → History Call → Bool
imports env [] = false
imports env (call (poll_import_run_status id) ∷ h) =
    succeeded (env.poll_import_run_status_reply (call (poll_import_run_status id) ∷ h))
    || imports env h
imports env (_ ∷ h) = imports env h

-- Every task is finished.
abbrev Balanced : State → Type 0
Balanced s = open_tasks s.events ≡ some []

module _ (env : Environment) (dir : String) (text : ImportBehaviour → String) where
  -- A failure was reported, or the import succeeded.
  abbrev Told : State → Type 0
  Told s = (is_passed (verdict s.events) ≡ false) ⊎ (imports env s.events ≡ true)

  abbrev K : Cases
  K = cases Balanced Told

  download_mets-Balanced :
      (uuid : String) → Triple K Balanced Balanced (download_mets env dir text uuid)
  unfolding download_mets find_aip download
  download_mets-Balanced uuid = record { at = λ s h. ground arith }

  submit_mets-Balanced :
      (m : CustomMetadata) (path user : String)
      → Triple K Balanced Balanced (submit_mets env dir text m path user)
  unfolding submit_mets
  submit_mets-Balanced m path user = record { at = λ s h. ground arith }

  wait_for_import-Told :
      (m : CustomMetadata)
      → Triple K Balanced (λ s. Balanced s × Told s) (wait_for_import env dir text m)
  unfolding wait_for_import report_import
  wait_for_import-Told m = record { at = λ s h. ground arith }

  session_body-Told :
      (m : CustomMetadata) (uuid user : String)
      → Triple K Balanced (λ s. Balanced s × Told s) (session_body env dir text m uuid user)
  unfolding session_body
  session_body-Told m uuid user =
      Triple-bind _ _ (download_mets-Balanced uuid)
        λ path. Triple-bind _ _ (submit_mets-Balanced m path user) λ _. wait_for_import-Told m

  imports-call :
      (c : Call) (h : History Call) → imports env h ≡ true → imports env (call c ∷ h) ≡ true
  imports-call create_session h p = p
  imports-call (get_aip_path id) h p = p
  imports-call (fetch id path to) h p = p
  imports-call (create_import_run id path b user) h p = p
  imports-call (poll_import_run_status id) h p = ground arith
  imports-call (parse_mets path) h p = p
  imports-call (combine_md a b c) h p = p
  imports-call (archive_zip path) h p = p
  imports-call (bucket_upload path) h p = p
  imports-call (remove_paths paths) h p = p
  imports-call complete_session h p = p
  imports-call (sleep t) h p = p

  Told-stable : (c : Call) (s : State) → Told s → Told (record s { events = call c ∷ s.events })
  Told-stable c s (inl p) = inl p
  Told-stable c s (inr p) = inr (imports-call c s.events p)

  session_handler-Handles :
      (m : CustomMetadata) (uuid user : String)
      → Handles Balanced Told (session_handler env dir text m uuid user)
  unfolding session_handler
  session_handler-Handles m uuid user =
      with_cleanup-Handles env Balanced Told (λ c s h. h) Told-stable (λ s h. h)
        (session_body env dir text m uuid user) (session_body-Told m uuid user)

  run_import-Concludes :
      (params : Params) (uuid : String) (r : Result CustomMetadata)
      → Concludes Balanced Told (run_import env dir text params uuid r)
  unfolding run_import
  run_import-Concludes params uuid (err e) = record {
    kept = refl;
    concluded = λ p. let no : ⊥ = ground arith in elim no [ ];
  }
  run_import-Concludes params uuid (ok m) =
      run_sessions-Concludes env Balanced Told (λ c s h. h) _ 4 none _
        (session_handler-Handles m uuid _) refl

  run_parsed-Concludes :
      (params : Params) (r : Result String)
      → Concludes Balanced Told (run_parsed env dir text params r)
  unfolding run_parsed
  run_parsed-Concludes params (err e) = record {
    kept = refl;
    concluded = λ p. let no : ⊥ = ground arith in elim no [ ];
  }
  run_parsed-Concludes params (ok uuid) = run_import-Concludes params uuid _

  run-Concludes : (params : Params) → Concludes Balanced Told (run env dir text params)
  unfolding run
  run-Concludes params = run_parsed-Concludes params (env.parse_uuid params.aip_uuid)

  imported :
      (s : State) → Told s → is_passed (verdict s.events) ≡ true → imports env s.events ≡ true
  imported s (inl p) q = ground arith
  imported s (inr p) q = p

  -- Whatever the activities answer and however many sessions are lost, every task that a run started
  -- was finished exactly once.
  pub run-finishes_tasks :
      (params : Params) → open_tasks (run env dir text params).1.events ≡ some []
  run-finishes_tasks params = (run-Concludes params).kept

  -- A run that returns a result in which no failure was reported has asked APIS for the state of the
  -- import, and was told that it succeeded.
  pub run-imports :
      (params : Params)
      → (run env dir text params).0 ≡ finished
      → is_passed (verdict (run env dir text params).1.events) ≡ true
      → imports env (run env dir text params).1.events ≡ true
  run-imports params h p =
      imported (run env dir text params).1 ((run-Concludes params).concluded h) p
