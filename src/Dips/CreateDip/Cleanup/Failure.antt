-- ===== src/Dips/CreateDip/Cleanup/Failure.antt =====
-- internal/dips/workflows/create_dip.go: what becomes of an object that the workflow uploaded.
use sfa_enduro_workflows.Base.{
  ℕ, zero, suc, ◌≡◌, refl, ◌⊎◌, inl, inr, String, true, false, Option, none, some, ◌∷◌, ◌||◌,
  str_eq, Bool-cases, eq_iff, arith, ◌∙◌,
}
use sfa_enduro_workflows.Workflow.{Err, joined, Result, ok, err}
use sfa_enduro_workflows.Dips.Datatypes.{deleted, Dip}
use sfa_enduro_workflows.Dips.CreateDip.{update_dip, Environment, Config, State, execute, pure}
use sfa_enduro_workflows.Dips.CreateDip.Retention.{
  no_update, delete_dip, wait_until, after_reply, delete_after_retention,
}
use sfa_enduro_workflows.Dips.CreateDip.Execute.{
  body, conclude, settle, finish, found_error, final_update, initial, run,
}
use sfa_enduro_workflows.Dips.CreateDip.Cleanup.{has_upload, removes, stores}
use sfa_enduro_workflows.Dips.CreateDip.Cleanup.Tracking.{Keeps, Keeps-bind, Keeps-test}
use sfa_enduro_workflows.Dips.CreateDip.Cleanup.Body.{Tracked, body-Tracked}

-- The removal of the object was asked for, or its DIP was stored with the key.
abbrev pub Settled : Environment → String → State → Type 0
Settled env key s = removes key s.calls || stores env key s.calls ≡ true

-- An object whose upload was asked for is settled.
abbrev Handles : Environment → String → State → Type 0
Handles env key s = (has_upload key s.calls ≡ false) ⊎ Settled env key s

module _ (env : Environment) (cfg : Config) (key : String) where
  after_reply-Stored :
      (id k : String) (d : Dip)
      → Keeps (λ s. stores env key s.calls ≡ true) (after_reply env cfg id k d)
  unfolding after_reply delete_dip wait_until
  after_reply-Stored id k d s p = ground arith

  -- The retention asks for no upload.
  after_reply_uploads :
      (id k : String) (d : Dip)
      → Keeps (λ s. has_upload key s.calls ≡ false) (after_reply env cfg id k d)
  unfolding after_reply delete_dip wait_until
  after_reply_uploads id k d s p = ground arith

  delete_after_retention_uploads :
      (rounds : ℕ) (id k : String)
      → Keeps (λ s. has_upload key s.calls ≡ false) (delete_after_retention env cfg rounds id k)
  unfolding delete_after_retention
  delete_after_retention_uploads zero id k = λ s p. p
  delete_after_retention_uploads (suc rounds) id k =
      Keeps-bind
        (execute (update_dip (record no_update { uuid = id; status = deleted }))
          env.update_dip_reply)
        _ (λ s p. p)
        (λ d. Keeps-bind (after_reply env cfg id k d) _ (after_reply_uploads id k d) λ over.
          Keeps-test over (pure (some tt)) (delete_after_retention env cfg rounds id k) (λ s p. p)
            (delete_after_retention_uploads rounds id k))

  delete_after_retention-Stored :
      (rounds : ℕ) (id k : String)
      → Keeps (λ s. stores env key s.calls ≡ true) (delete_after_retention env cfg rounds id k)
  unfolding delete_after_retention
  delete_after_retention-Stored zero id k = λ s p. p
  delete_after_retention-Stored (suc rounds) id k =
      Keeps-bind
        (execute (update_dip (record no_update { uuid = id; status = deleted }))
          env.update_dip_reply)
        _ (λ s p. ground (arith, p))
        (λ d. Keeps-bind (after_reply env cfg id k d) _ (after_reply-Stored id k d) λ over.
          Keeps-test over (pure (some tt)) (delete_after_retention env cfg rounds id k) (λ s p. p)
            (delete_after_retention-Stored rounds id k))

  delete_dip-Settled :
      (id k : String) (s : State) → k ≡ key → Settled env key (delete_dip env cfg id k s).1
  unfolding delete_dip
  delete_dip-Settled id k s e = ground (arith, (eq_iff k key).1 e)

  delete_dip_uploads :
      (id k : String) (s : State)
      → has_upload key (delete_dip env cfg id k s).1.calls ≡ has_upload key s.calls
  unfolding delete_dip
  delete_dip_uploads id k s = ground arith

  conclude_failed :
      (rounds : ℕ) (e : Err) (s : State)
      → Tracked key s
      → Handles env key (conclude env cfg rounds (some e) s).1
  unfolding conclude
  conclude_failed rounds e s (inl p) = elim (Bool-cases (str_eq s.object_key "")) [
    | inl q ↦ rw q (inl p)
    | inr q ↦ rw q (inl (delete_dip_uploads s.dip.uuid s.object_key s ∙ p))
  ]
  conclude_failed rounds e s (inr (at, full)) =
      let filled : str_eq s.object_key "" ≡ false = rw at full in
      rw filled (inr (delete_dip-Settled s.dip.uuid s.object_key s at))

  conclude_stored :
      (rounds : ℕ) (s : State)
      → (has_upload key s.calls ≡ false) ⊎ (stores env key s.calls ≡ true)
      → Handles env key (conclude env cfg rounds none s).1
  unfolding conclude
  conclude_stored rounds s (inl p) =
      inl (delete_after_retention_uploads rounds s.dip.uuid s.object_key s p)
  conclude_stored rounds s (inr p) =
      inr (ground (arith, delete_after_retention-Stored rounds s.dip.uuid s.object_key s p))

  -- Behind the confirmed update to the status stored, with the key of the state.
  update-Stored :
      (s : State) (d : Dip)
      → (let c = update_dip (final_update env cfg none s) ∷ s.calls in
          env.update_dip_reply c ≡ ok d
          → Tracked key s
          → (has_upload key c ≡ false) ⊎ (stores env key c ≡ true))
  update-Stored s d q (inl p) = inl p
  update-Stored s d q (inr (at, full)) = inr (rw q (ground (arith, (eq_iff s.object_key key).1 at)))

  settle-Handles :
      (rounds : ℕ) (e : Option Err) (r : Result Dip) (s : State)
      → env.update_dip_reply (update_dip (final_update env cfg e s) ∷ s.calls) ≡ r
      → Tracked key s
      → Handles env key
          (settle env cfg rounds e r
            (record s { calls = update_dip (final_update env cfg e s) ∷ s.calls })).1
  unfolding settle
  settle-Handles rounds none (ok d) s q t = conclude_stored rounds _ (update-Stored s d q t)
  settle-Handles rounds none (err x) s q t = conclude_failed rounds x _ t
  settle-Handles rounds (some e) (ok d) s q t = conclude_failed rounds e _ t
  settle-Handles rounds (some e) (err x) s q t = conclude_failed rounds (joined e x) _ t

Settled-uploaded :
    (env : Environment) (key : String) (s : State)
    → Handles env key s
    → has_upload key s.calls ≡ true
    → Settled env key s
Settled-uploaded env key s (inl p) h = let no : ⊥ = cc in elim no [ ]
Settled-uploaded env key s (inr p) h = p

-- If the upload of an object was asked for, then at the end of the run the removal of this object was
-- asked for, or an update that made the DIP stored, with the key of the object, was confirmed.
pub run-Settled :
    (env : Environment) (cfg : Config) (rounds : ℕ) (d : Dip) (key : String)
    → has_upload key (run env cfg rounds d).1.calls ≡ true
    → Settled env key (run env cfg rounds d).1
unfolding run finish
run-Settled env cfg rounds d key =
    let r = body env cfg (initial env cfg d) in
    Settled-uploaded env key (run env cfg rounds d).1 (
      settle-Handles env cfg key rounds (found_error env cfg r.0 r.1) _ r.1 refl
        (body-Tracked env cfg key (initial env cfg d) refl))
