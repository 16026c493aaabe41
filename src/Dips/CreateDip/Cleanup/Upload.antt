-- ===== src/Dips/CreateDip/Cleanup/Upload.antt =====
-- internal/dips/workflows/create_dip.go: a run that returns a DIP has uploaded its archive.
use sfa_enduro_workflows.Base.{
  ℕ, zero, suc, ◌≡◌, refl, String, Bool, true, false, Option, none, some, [], ◌∷◌, arith,
}
use sfa_enduro_workflows.FilePath.{join}
use sfa_enduro_workflows.Workflow.{Err, joined, Result, ok, err}
use sfa_enduro_workflows.Dips.Datatypes.{deleted, Dip}
use sfa_enduro_workflows.Dips.CreateDip.{
  update_dip, Metadata, Environment, Config, State, Action, ◌>>=◌, ◌>>◌, continue, pure, fail,
  execute, is_lost,
}
use sfa_enduro_workflows.Dips.CreateDip.Session.{
  fetch_valid_metadata, collect_metadata, prepare_header, fetch_content, pack_and_upload, assemble,
  session_body, close_session, session_handler,
}
use sfa_enduro_workflows.Dips.CreateDip.Retention.{
  no_update, delete_dip, wait_until, after_reply, delete_after_retention,
}
use sfa_enduro_workflows.Dips.CreateDip.Execute.{
  finished, prepare, try_session, open_session, recover, session_error, run_sessions, body,
  conclude, settle, finish, found_error, initial, run,
}
use sfa_enduro_workflows.Dips.CreateDip.Cleanup.{is_ok, uploads}

module _ (env : Environment) where
  -- An action that has uploaded when it returns no error.
  abbrev Uploads : {A : Type 0} → Action A → Type 0
  Uploads m = (s : State) → is_ok (m s).0 ≡ true → uploads env (m s).1.calls ≡ true

  -- An action that only adds calls to the history.
  abbrev Keeps : {A : Type 0} → Action A → Type 0
  Keeps m = (s : State) → uploads env s.calls ≡ true → uploads env (m s).1.calls ≡ true

  module _ {A B : Type 0} where
    continue-Uploads :
        (r : Result A) (f : A → Action B) (s : State)
        → ((x : A) → Uploads (f x))
        → is_ok (continue r f s).0 ≡ true
        → uploads env (continue r f s).1.calls ≡ true
    continue-Uploads (ok x) f s rest p = rest x s p
    continue-Uploads (err e) f s rest p = ground arith

    Uploads-bind : (m : Action A) (f : A → Action B) → ((x : A) → Uploads (f x)) → Uploads (m >>= f)
    Uploads-bind m f rest s = continue-Uploads (m s).0 f (m s).1 rest

    continue-Keeps :
        (r : Result A) (f : A → Action B) (s : State)
        → ((x : A) → Keeps (f x))
        → uploads env s.calls ≡ true
        → uploads env (continue r f s).1.calls ≡ true
    continue-Keeps (ok x) f s rest p = rest x s p
    continue-Keeps (err e) f s rest p = p

    Keeps-bind :
        (m : Action A) (f : A → Action B) → Keeps m → ((x : A) → Keeps (f x)) → Keeps (m >>= f)
    Keeps-bind m f first rest s p = continue-Keeps (m s).0 f (m s).1 rest (first s p)

  module _ {A : Type 0} where
    Uploads-test :
        (test : Bool) (m n : Action A)
        → Uploads m
        → Uploads n
        → Uploads (elim test [ true ↦ m | false ↦ n ])
    Uploads-test true m n x y = x
    Uploads-test false m n x y = y

    Keeps-test :
        (test : Bool) (m n : Action A)
        → Keeps m
        → Keeps n
        → Keeps (elim test [ true ↦ m | false ↦ n ])
    Keeps-test true m n x y = x
    Keeps-test false m n x y = y

  fail-Uploads : (e : Err) → Uploads (fail {A = Unit {0}} e)
  fail-Uploads e s p = ground arith

  module _ (cfg : Config) where
    pack_and_upload-Uploads : (dir key : String) → Uploads (pack_and_upload env cfg dir key)
    unfolding pack_and_upload
    pack_and_upload-Uploads dir key s p = ground arith

    assemble-Uploads :
        (dir path key : String) (m : Metadata) → Uploads (assemble env cfg dir path key m)
    unfolding assemble
    assemble-Uploads dir path key m =
        Uploads-bind (prepare_header env cfg dir path m.header_files) _ λ _.
          Uploads-bind (fetch_content env cfg dir m.content_files) _
            λ _. pack_and_upload-Uploads dir key

    session_body-Uploads : Uploads (session_body env cfg)
    unfolding session_body
    session_body-Uploads s =
        Uploads-bind
          (fetch_valid_metadata env cfg
            (join (join (cfg.working_dir ∷ s.dip.uuid ∷ []) ∷ "metadata.xml" ∷ [])))
          _
          (λ _.
            Uploads-bind
              (collect_metadata env cfg (join (cfg.working_dir ∷ s.dip.uuid ∷ []))
                (join (join (cfg.working_dir ∷ s.dip.uuid ∷ []) ∷ "metadata.xml" ∷ [])) s.aips)
              _ λ m. assemble-Uploads _ _ _ m)
          s

    session_handler-Uploads : Uploads (session_handler env cfg)
    unfolding session_handler close_session
    session_handler-Uploads s p = session_body-Uploads s p

    abbrev after_session : ℕ → Result (Unit {0}) → Action (Unit {0})
    after_session left r = elim r [
      | ok _ ↦ pure tt
      | err e ↦ elim (is_lost e) [
        | true ↦ recover env cfg >> run_sessions env cfg left (some e)
        | false ↦ fail e
      ]
    ]

    after_session-Uploads :
        (left : ℕ) (r : Result (Unit {0})) (s : State)
        → (is_ok r ≡ true → uploads env s.calls ≡ true)
        → ((e : Err) → Uploads (run_sessions env cfg left (some e)))
        → is_ok (after_session left r s).0 ≡ true
        → uploads env (after_session left r s).1.calls ≡ true
    after_session-Uploads left (ok x) s done rest p = done refl
    after_session-Uploads left (err e) s done rest p =
        Uploads-test (is_lost e) (recover env cfg >> run_sessions env cfg left (some e)) (fail e)
          (Uploads-bind (recover env cfg) _ (λ _. rest e)) (fail-Uploads e) s p

    session-Uploads :
        (left : ℕ)
        → ((e : Err) → Uploads (run_sessions env cfg left (some e)))
        → Uploads (try_session env cfg >>= after_session left)
    unfolding try_session
    session-Uploads left rest s p =
        after_session-Uploads left (session_handler env cfg s).0 (session_handler env cfg s).1
          (session_handler-Uploads s) rest p

    -- The list of sessions ends without an error only behind an upload.
    run_sessions-Uploads : (left : ℕ) (e : Err) → Uploads (run_sessions env cfg left (some e))
    unfolding run_sessions session_error
    run_sessions-Uploads zero e s p = ground arith
    run_sessions-Uploads (suc left) e s p =
        Uploads-bind (open_session env cfg) _
          (λ _. session-Uploads left (λ e'. run_sessions-Uploads left e')) s p

    body-Uploads : Uploads (body env cfg)
    unfolding body run_sessions
    body-Uploads =
        Uploads-bind (prepare env cfg) _ λ _.
          Uploads-bind (open_session env cfg) _ (λ _. session-Uploads 4 (run_sessions-Uploads 4))

    delete_dip-Keeps : (id key : String) → Keeps (delete_dip env cfg id key)
    unfolding delete_dip
    delete_dip-Keeps id key s p = ground arith

    after_reply-Keeps : (id key : String) (d : Dip) → Keeps (after_reply env cfg id key d)
    unfolding after_reply delete_dip wait_until
    after_reply-Keeps id key d s p = ground arith

    delete_after_retention-Keeps :
        (rounds : ℕ) (id key : String) → Keeps (delete_after_retention env cfg rounds id key)
    unfolding delete_after_retention
    delete_after_retention-Keeps zero id key s p = p
    delete_after_retention-Keeps (suc rounds) id key s p =
        Keeps-bind
          (execute (update_dip (record no_update { uuid = id; status = deleted }))
            env.update_dip_reply)
          _ (λ s' q. q)
          (λ d. Keeps-bind (after_reply env cfg id key d) _ (after_reply-Keeps id key d) λ over.
            Keeps-test over (pure (some tt)) (delete_after_retention env cfg rounds id key)
              (λ s' q. q) (delete_after_retention-Keeps rounds id key))
          s p

    -- A DIP is the result only behind a body that returned no error.
    conclude-Uploads :
        (rounds : ℕ) (e : Option Err) (s : State) (d : Dip)
        → (e ≡ none → uploads env s.calls ≡ true)
        → (conclude env cfg rounds e s).0 ≡ finished d
        → uploads env (conclude env cfg rounds e s).1.calls ≡ true
    unfolding conclude
    conclude-Uploads rounds (some e) s d h p = ground arith
    conclude-Uploads rounds none s d h p =
        ground (arith, delete_after_retention-Keeps rounds s.dip.uuid s.object_key s (h refl))

    settle-Uploads :
        (rounds : ℕ) (e : Option Err) (r : Result Dip) (s : State) (d : Dip)
        → (e ≡ none → uploads env s.calls ≡ true)
        → (settle env cfg rounds e r s).0 ≡ finished d
        → uploads env (settle env cfg rounds e r s).1.calls ≡ true
    unfolding settle
    settle-Uploads rounds e (ok d') s d h p =
        conclude-Uploads rounds e (record s { dip = d' }) d h p
    settle-Uploads rounds none (err e') s d h p =
        conclude-Uploads rounds (some e') s d (λ q. h refl) p
    settle-Uploads rounds (some e) (err e') s d h p =
        conclude-Uploads rounds (some (joined e e')) s d (λ q. ground arith) p

    found-Uploads :
        (r : Result (Unit {0})) (s : State)
        → (is_ok r ≡ true → uploads env s.calls ≡ true)
        → found_error env cfg r s ≡ none
        → uploads env s.calls ≡ true
    found-Uploads (ok x) s h p = h refl
    found-Uploads (err e) s h p = ground arith

-- A run that ends with a DIP has asked for an upload whose reply was no error.
pub run-uploads :
    (env : Environment) (cfg : Config) (rounds : ℕ) (d d' : Dip)
    → (run env cfg rounds d).0 ≡ finished d'
    → uploads env (run env cfg rounds d).1.calls ≡ true
unfolding run finish
run-uploads env cfg rounds d d' p =
    let r = body env cfg (initial env cfg d) in
    settle-Uploads env cfg rounds (found_error env cfg r.0 r.1) _ _ d'
      (found-Uploads env cfg r.0 r.1 (body-Uploads env cfg (initial env cfg d))) p
