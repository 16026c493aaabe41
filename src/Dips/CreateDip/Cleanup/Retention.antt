-- ===== src/Dips/CreateDip/Cleanup/Retention.antt =====
-- internal/dips/workflows/create_dip.go: deleteDIPAfterRetention ends.
use native.Mathlib.Decide.{dec_le}
use sfa_enduro_workflows.Base.{
  ℕ, zero, suc, ◌+◌, ◌≤◌, ◌<◌, ◌≡◌, ◌≢◌, refl, String, Bool, true, false, not, Option, none, some,
  ◌∷◌, arith,
}
use sfa_enduro_workflows.Workflow.{Err, Result, ok, err}
use sfa_enduro_workflows.Dips.Datatypes.{stored, deleted, Dip, is_zero}
use sfa_enduro_workflows.Dips.CreateDip.{
  History, update_dip, Environment, Config, State, ◌>>=◌, join_errors, continue, pure,
}
use sfa_enduro_workflows.Dips.CreateDip.Retention.{
  no_update, delete_dip, wait_until, after_reply, delete_after_retention,
}
use sfa_enduro_workflows.Dips.CreateDip.Execute.{
  waiting, body, conclude, settle, finish, found_error, initial, run,
}
use sfa_enduro_workflows.Dips.CreateDip.Cleanup.{deletions}

-- A DIP in storage that expires: the loop waits and asks again.
abbrev pub is_kept : Result Dip → Bool
is_kept (err e) = false
is_kept (ok d) = elim d.status [ stored ↦ not (is_zero d.expires_at) | _ ↦ false ]

module _ (env : Environment) (cfg : Config) where
  after_reply-again :
      (id key : String) (d : Dip) (s : State)
      → (after_reply env cfg id key d s).0 ≡ ok false
      → is_kept (ok d) ≡ true
  unfolding after_reply delete_dip wait_until
  after_reply-again id key d s h = ground arith

  pub after_reply-deletions :
      (id key : String) (d : Dip) (s : State)
      → deletions s.calls ≤ deletions (after_reply env cfg id key d s).1.calls
  unfolding after_reply delete_dip wait_until
  after_reply-deletions id key d s = ground arith

  -- The result of the bounded loop that stands for one that goes on
  abbrev Ends : Result (Option (Unit {0})) → Type 0
  Ends r = r ≢ ok none

  after_round-Ends :
      (rounds : ℕ) (id key : String) (over : Result Bool) (s : State)
      → (over ≡ ok false → Ends (delete_after_retention env cfg rounds id key s).0)
      → Ends
          (continue over
            (λ o. elim o [
              | true ↦ pure (some tt)
              | false ↦ delete_after_retention env cfg rounds id key
            ])
            s).0
  after_round-Ends rounds id key (err e) s again = λ p. ground arith
  after_round-Ends rounds id key (ok true) s again = λ p. ground arith
  after_round-Ends rounds id key (ok false) s again = again refl

  round-Ends :
      (rounds : ℕ) (id key : String) (r : Result Dip) (s : State)
      → (is_kept r ≡ true
          → (s' : State) → deletions s.calls ≤ deletions s'.calls
          → Ends (delete_after_retention env cfg rounds id key s').0)
      → Ends
          (continue r
            (λ d. after_reply env cfg id key d >>= λ o. elim o [
              | true ↦ pure (some tt)
              | false ↦ delete_after_retention env cfg rounds id key
            ])
            s).0
  round-Ends rounds id key (err e) s again = λ p. ground arith
  round-Ends rounds id key (ok d) s again =
      let a = after_reply env cfg id key d s in
      after_round-Ends rounds id key a.0 a.1
        λ p. again (after_reply-again id key d s p) a.1 (after_reply-deletions id key d s)

  module _ (n : ℕ)
      (expires : (h : History) → n ≤ deletions h → is_kept (env.update_dip_reply h) ≡ false) where
    not_yet : (h : History) → is_kept (env.update_dip_reply h) ≡ true → deletions h < n
    not_yet h kept = elim (dec_le n (deletions h)) [
      | no p ↦ omega arith
      | yes p ↦ ground (arith, expires h p)
    ]

    loop-Ends :
        (rounds : ℕ) (id key : String) (s : State)
        → 1 ≤ rounds
        → n ≤ rounds + deletions s.calls
        → Ends (delete_after_retention env cfg rounds id key s).0
    unfolding delete_after_retention
    loop-Ends zero id key s some_left enough = ground arith
    loop-Ends (suc rounds) id key s some_left enough =
        let c = update_dip (record no_update { uuid = id; status = deleted }) ∷ s.calls in
        round-Ends rounds id key (env.update_dip_reply c) (record s { calls = c })
          λ kept s' later. loop-Ends rounds id key s' (omega (arith, not_yet c kept)) (omega arith)

    conclude_ends :
        (rounds : ℕ) (e : Option Err) (s : State)
        → n ≤ rounds
        → 1 ≤ rounds
        → (conclude env cfg rounds e s).0 ≢ waiting
    unfolding conclude
    conclude_ends rounds (some e) s h some_left = λ p. ground arith
    conclude_ends rounds none s h some_left =
        λ p. ground (arith, loop-Ends rounds s.dip.uuid s.object_key s some_left (omega arith))

    settle_ends :
        (rounds : ℕ) (e : Option Err) (r : Result Dip) (s : State)
        → n ≤ rounds
        → 1 ≤ rounds
        → (settle env cfg rounds e r s).0 ≢ waiting
    unfolding settle
    settle_ends rounds e (ok d) s = conclude_ends rounds e (record s { dip = d })
    settle_ends rounds e (err e') s = conclude_ends rounds (join_errors e (some e')) s

-- If from the n-th request to delete the DIP on no reply is a stored DIP that expires, then n + 1
-- rounds of the retention loop suffice: a run ends with a DIP or an error.
pub run-ends :
    (env : Environment) (cfg : Config) (n : ℕ) (d : Dip)
    → ((h : History) → n ≤ deletions h → is_kept (env.update_dip_reply h) ≡ false)
    → (run env cfg (suc n) d).0 ≢ waiting
unfolding run finish
run-ends env cfg n d expires =
    let r = body env cfg (initial env cfg d) in
    settle_ends env cfg n expires (suc n) (found_error env cfg r.0 r.1) _ _ (omega arith)
      (omega arith)
