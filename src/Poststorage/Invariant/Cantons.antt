-- ===== src/Poststorage/Invariant/Cantons.antt =====
-- internal/workflows/poststorage_cantons.go: a run that succeeds has uploaded the metadata.
use sfa_enduro_workflows.Base.{◌≡◌, String, Bool, true, false, none, [], ◌∷◌, ◌||◌, arith, ◌<>◌}
use sfa_enduro_workflows.FilePath.{join}
use sfa_enduro_workflows.Workflow.{Result, ok, err, call, History}
use sfa_enduro_workflows.Poststorage.{
  Call, create_session, get_aip_path, fetch, create_import_run, poll_import_run_status, parse_mets,
  combine_md, archive_zip, bucket_upload, remove_paths, complete_session, sleep, Environment, State,
  finished, remove_later,
}
use sfa_enduro_workflows.Poststorage.Cantons.{
  choose_metadata, download, export, session_steps, session_body, session_handler, run_export,
  run_parsed, run,
}
use sfa_enduro_workflows.Poststorage.Invariant.{
  Cases, Triple, Triple-bind, Handles, Concludes, with_cleanup-Handles, run_sessions-Concludes,
}

abbrev is_ok : {A : Type 0} → Result A → Bool
is_ok (ok x) = true
is_ok (err e) = false

-- An upload was asked for, and its reply was no error.
abbrev pub exported : Environment → History Call → Bool
exported env [] = false
exported env (call (bucket_upload path) ∷ h) =
    is_ok (env.bucket_upload_reply (call (bucket_upload path) ∷ h)) || exported env h
exported env (_ ∷ h) = exported env h

abbrev Any : State → Type 0
Any s = Unit

module _ (env : Environment) (dir : String) where
  abbrev Exported : State → Type 0
  Exported s = exported env s.events ≡ true

  -- The handler never returns nil early.
  abbrev K : Cases
  K = record { stopped = λ s. Any s × Exported s; failed = Any }

  exported-call :
      (c : Call) (h : History Call) → exported env h ≡ true → exported env (call c ∷ h) ≡ true
  exported-call create_session h p = p
  exported-call (get_aip_path id) h p = p
  exported-call (fetch id path to) h p = p
  exported-call (create_import_run id path b user) h p = p
  exported-call (poll_import_run_status id) h p = p
  exported-call (parse_mets path) h p = p
  exported-call (combine_md a b c) h p = p
  exported-call (archive_zip path) h p = p
  exported-call (bucket_upload path) h p = ground arith
  exported-call (remove_paths paths) h p = p
  exported-call complete_session h p = p
  exported-call (sleep t) h p = p

  download-ends : (uuid name local : String) → Triple K Any Any (download env dir uuid name local)
  unfolding download choose_metadata
  download-ends uuid name local = record { at = λ s h. ground arith }

  export-Exported :
      (mets metadata local : String)
      → Triple K Any (λ s. Any s × Exported s) (export env dir mets metadata local)
  unfolding export
  export-Exported mets metadata local = record { at = λ s h. ground arith }

  session_steps-Exported :
      (uuid name local : String)
      → Triple K Any (λ s. Any s × Exported s) (session_steps env dir uuid name local)
  unfolding session_steps
  session_steps-Exported uuid name local =
      Triple-bind (remove_later local) _ (record { at = λ s h. tt })
        λ _.
          Triple-bind (download env dir uuid name local) _ (download-ends uuid name local)
            λ metadata.
              export-Exported (join (local ∷ ("METS." <> (uuid <> ".xml")) ∷ [])) metadata local

  session_body-Exported :
      (uuid path : String) → Triple K Any (λ s. Any s × Exported s) (session_body env dir uuid path)
  unfolding session_body
  session_body-Exported uuid path = session_steps-Exported uuid _ _

  session_handler-Handles :
      (uuid path : String) → Handles Any Exported (session_handler env dir uuid path)
  unfolding session_handler
  session_handler-Handles uuid path =
      with_cleanup-Handles env Any Exported (λ c s h. tt) (λ c s h. exported-call c s.events h)
        (λ s h. tt) (session_body env dir uuid path) (session_body-Exported uuid path)

  run_export-Concludes :
      (uuid : String) (r : Result String) (s : State)
      → Concludes Any Exported (run_export env dir uuid r s)
  unfolding run_export
  run_export-Concludes uuid (err e) s = record {
    kept = tt;
    concluded = λ p. let no : ⊥ = ground arith in elim no [ ];
  }
  run_export-Concludes uuid (ok path) s =
      run_sessions-Concludes env Any Exported (λ c s' h. tt) _ 4 none s
        (session_handler-Handles uuid path) tt

  run_parsed-Concludes : (r : Result String) → Concludes Any Exported (run_parsed env dir r)
  unfolding run_parsed
  run_parsed-Concludes (err e) = record {
    kept = tt;
    concluded = λ p. let no : ⊥ = ground arith in elim no [ ];
  }
  run_parsed-Concludes (ok uuid) =
      run_export-Concludes uuid (env.get_aip_path_reply (call (get_aip_path uuid) ∷ [])) _

  -- A run that returns a result has asked for an upload of the metadata whose reply was no error.
  pub run-exports :
      (uuid : String)
      → (run env dir uuid).0 ≡ finished
      → exported env (run env dir uuid).1.events ≡ true
  unfolding run
  run-exports uuid h = (run_parsed-Concludes (env.parse_uuid uuid)).concluded h
