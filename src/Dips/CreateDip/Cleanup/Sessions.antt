-- ===== src/Dips/CreateDip/Cleanup/Sessions.antt =====
-- internal/dips/workflows/create_dip.go: the state holds the key of each object that was uploaded.
use sfa_enduro_workflows.Base.{
  ℕ, zero, suc, ◌≡◌, ◌⊎◌, inl, inr, String, ◌<>◌, true, false, Option, none, some, ◌∷◌, ◌||◌,
  str_eq, Bool-cases, eq_iff, sym, ap, ◌∙◌,
}
use sfa_enduro_workflows.Workflow.{
  Err, application, session_failed, canceled, plain, joined, Result, ok, err,
}
use sfa_enduro_workflows.Dips.CreateDip.{
  Metadata, Environment, Config, Action, ◌>>=◌, ◌>>◌, pure, fail, attempt, archive_zip,
  bucket_upload, create_session, error_text, History, is_lost, or_report,
}
use sfa_enduro_workflows.Dips.CreateDip.Session.{
  fetch_attempts, fetch_valid_metadata, set_dip_path, set_object_key, fetch_content,
  collect_metadata, prepare_header, pack_and_upload, assemble, session_body, close_session,
  session_handler,
}
use sfa_enduro_workflows.Dips.CreateDip.Execute.{
  try_session, stop_on, stop_if_canceled, recover, open_session, session_error, run_sessions,
}
use sfa_enduro_workflows.Dips.CreateDip.Cleanup.{has_upload}
use sfa_enduro_workflows.Dips.CreateDip.Cleanup.Tracking.{
  Keeps-bind, Keeps-test, key_of, Tracks, Safe, or_report-Safe, fetch_attempts-Safe,
  collect_metadata-Safe, prepare_header-Safe, fetch_content-Safe,
}

module _ (env : Environment) (cfg : Config) (key id : String) where
  upload_tracked :
      (k : String) (h : History) (before : String)
      → k ≡ key_of id
      → (has_upload key h ≡ false) ⊎ ((key ≡ key_of id) × (before ≡ key))
      → (str_eq k key || has_upload key h ≡ false) ⊎ ((key ≡ key_of id) × (k ≡ key))
  upload_tracked k h before e (inr (q, r)) = inr (q, e ∙ sym q)
  upload_tracked k h before e (inl none_yet) = elim (Bool-cases (str_eq k key)) [
    | inl q ↦ inr (sym ((eq_iff k key).0 q) ∙ e, (eq_iff k key).0 q)
    | inr q ↦ inl (rw q none_yet)
  ]

  abbrev upload : String → String → Action (Unit {0})
  upload k path =
      set_dip_path env cfg path
      >> (set_object_key env cfg k
          >> (attempt (bucket_upload path k) env.bucket_upload_reply >>= λ uploaded.
              or_report "DIP upload failed: " uploaded))

  -- The key is set before the upload.
  upload-Safe : (k path : String) → k ≡ key_of id → Safe env cfg key id (upload k path)
  upload-Safe k path e s p =
      or_report-Safe env cfg key id {A = Unit {0}} "DIP upload failed: "
        (env.bucket_upload_reply (bucket_upload path k ∷ s.calls))
        (record s { calls = bucket_upload path k ∷ s.calls; dip_path = path; object_key = k })
        (p.0, upload_tracked k s.calls s.object_key e p.1)

  abbrev zipped : String → Result String → Action (Unit {0})
  zipped k r = or_report "DIP ZIP creation failed: " r >>= upload k

  pack_and_upload-Safe :
      (dir k : String) → k ≡ key_of id → Safe env cfg key id (pack_and_upload env cfg dir k)
  unfolding pack_and_upload
  pack_and_upload-Safe dir k e =
      Keeps-bind (attempt (archive_zip dir) env.archive_zip_reply) (zipped k) (λ s p. p)
        λ r.
          Keeps-bind (or_report "DIP ZIP creation failed: " r) (upload k)
            (or_report-Safe env cfg key id _ r) λ path. upload-Safe k path e

  assemble-Safe :
      (dir path k : String) (m : Metadata)
      → k ≡ key_of id
      → Safe env cfg key id (assemble env cfg dir path k m)
  unfolding assemble
  assemble-Safe dir path k m e =
      Keeps-bind (prepare_header env cfg dir path m.header_files) _
        (prepare_header-Safe env cfg key id dir path m.header_files)
        λ _.
          Keeps-bind (fetch_content env cfg dir m.content_files) _
            (fetch_content-Safe env cfg key id dir m.content_files)
            λ _. pack_and_upload-Safe dir k e

  session_body-Safe : Safe env cfg key id (session_body env cfg)
  unfolding session_body fetch_valid_metadata
  session_body-Safe s p =
      Keeps-bind (fetch_attempts env cfg 3 none _) _ (fetch_attempts-Safe env cfg key id 3 none _)
        (λ _.
          Keeps-bind (collect_metadata env cfg _ _ s.aips) _
            (collect_metadata-Safe env cfg key id _ _ s.aips)
            λ m. assemble-Safe _ _ _ m (ap key_of p.0))
        s p

  session_handler-Safe : Safe env cfg key id (session_handler env cfg)
  unfolding session_handler close_session
  session_handler-Safe s p = session_body-Safe s p

  stop_on-Safe : (e : Option Err) → Safe env cfg key id (stop_on env cfg e)
  unfolding stop_on
  stop_on-Safe none s p = p
  stop_on-Safe (some canceled) s p = p
  stop_on-Safe (some session_failed) s p = p
  stop_on-Safe (some (application type message)) s p = p
  stop_on-Safe (some (plain message)) s p = p
  stop_on-Safe (some (joined a b)) s p = p

  recover-Safe : Safe env cfg key id (recover env cfg)
  unfolding recover stop_if_canceled
  recover-Safe =
      Keeps-bind (λ s. stop_on env cfg (env.context_error s.calls) s) _
        (λ s. stop_on-Safe (env.context_error s.calls) s) λ _ s p. p

  abbrev opened : Result (Unit {0}) → Action (Unit {0})
  opened r = elim r [
    | err e ↦ fail (plain ("error creating session: " <> error_text e))
    | ok _ ↦ pure tt
  ]

  open_session-Safe : Safe env cfg key id (open_session env cfg)
  unfolding open_session
  open_session-Safe s p = session (env.create_session_reply (create_session ∷ s.calls))
    where
      session :
          (r : Result (Unit {0}))
          → Tracks key id (opened r (record s { calls = create_session ∷ s.calls })).1
      session (ok x) = p
      session (err e) = p

  session_error-Safe : (last : Option Err) → Safe env cfg key id (session_error env cfg last)
  unfolding session_error
  session_error-Safe none s p = p
  session_error-Safe (some e) s p = p

  abbrev after_session : ℕ → Result (Unit {0}) → Action (Unit {0})
  after_session left r = elim r [
    | ok _ ↦ pure tt
    | err e ↦ elim (is_lost e) [
      | true ↦ recover env cfg >> run_sessions env cfg left (some e)
      | false ↦ fail e
    ]
  ]

  after_session-Safe :
      (left : ℕ) (r : Result (Unit {0}))
      → ((e : Err) → Safe env cfg key id (run_sessions env cfg left (some e)))
      → Safe env cfg key id (after_session left r)
  after_session-Safe left (ok x) rest = λ s p. p
  after_session-Safe left (err e) rest =
      Keeps-test (is_lost e) (recover env cfg >> run_sessions env cfg left (some e)) (fail e)
        (Keeps-bind (recover env cfg) _ recover-Safe (λ _. rest e)) (λ s p. p)

  pub run_sessions-Safe :
      (left : ℕ) (last : Option Err) → Safe env cfg key id (run_sessions env cfg left last)
  unfolding run_sessions try_session
  run_sessions-Safe zero last = session_error-Safe last
  run_sessions-Safe (suc left) last = Keeps-bind (open_session env cfg) _ open_session-Safe λ _.
      Keeps-bind (try_session env cfg) (after_session left) (λ s. session_handler-Safe s)
        λ handled. after_session-Safe left handled (λ e. run_sessions-Safe left (some e))
