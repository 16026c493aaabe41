-- ===== src/Poststorage/Invariant.antt =====
-- internal/workflows/poststorage_apis.go and internal/workflows/poststorage_cantons.go: what the loop
-- over sessions keeps, and what holds when it ends without an error.
pub mod Apis
pub mod Cantons
use sfa_enduro_workflows.Base.{
  ℕ, zero, suc, ◌≡◌, refl, inl, inr, Bool-cases, Bool, true, false, Option, none, some, List, [],
  ◌∷◌, arith, if◌then◌else◌,
}
use sfa_enduro_workflows.Workflow.{Err, Result, ok, err, call}
use sfa_enduro_workflows.Workflow.Errors.{is_lost, join_errors}
use sfa_enduro_workflows.Poststorage.{
  Call, create_session, Environment, State, Flow, next, returned, raised, Action, ◌>>=◌, continue,
  raised_error, error_of, Handler, close_session, with_cleanup, Ending, gone, failing, finished,
  ending_of, recover, retry, is_canceled, sleep, complete_session, remove_paths, after_session,
  open_session, run_sessions,
}

-- A step keeps an invariant: if it goes on, `next` holds, and if it returns nil, `stopped`.
pub record Cases : Type 1 where
  pub stopped : State → Type 0
  pub failed : State → Type 0

abbrev pub Ends : {A : Type 0} → Cases → (State → Type 0) → Flow A → State → Type 0
Ends K Q (next a) s = Q s
Ends K Q returned s = K.stopped s
Ends K Q (raised e) s = K.failed s

pub record Triple {A : Type 0} (K : Cases) (P Q : State → Type 0) (m : Action A) : Type 0 where
  pub at : (s : State) → P s → Ends K Q (m s).0 (m s).1

module _ {A B : Type 0} {K : Cases} {Q R : State → Type 0} where
  continue-Ends :
      (r : Flow A) (s : State) (f : A → Action B)
      → ((a : A) → Triple K Q R (f a))
      → Ends K Q r s
      → Ends K R (continue r f s).0 (continue r f s).1
  continue-Ends (next a) s f k h = (k a).at s h
  continue-Ends returned s f k h = h
  continue-Ends (raised e) s f k h = h

  pub Triple-bind :
      {P : State → Type 0} (m : Action A) (f : A → Action B)
      → Triple K P Q m
      → ((a : A) → Triple K Q R (f a))
      → Triple K P R (m >>= f)
  Triple-bind m f first rest = record {
    at = λ s h. continue-Ends (m s).0 (m s).1 f rest (first.at s h);
  }

-- A property that calls do not change
abbrev pub Stable : (State → Type 0) → Type 0
Stable P = (c : Call) (s : State) → P s → P (record s { events = call c ∷ s.events })

-- A handler keeps `P`, and behind one that returns nil `Q` holds.
pub record Handles (P Q : State → Type 0) (h : Handler) : Type 0 where
  pub keeps : (s : State) → P s → P (h s).1
  pub concludes : (s : State) → P s → (h s).0 ≡ none → Q (h s).1

-- A run keeps `P`, and behind one that finishes `Q` holds.
pub record Concludes (P Q : State → Type 0) (r : Ending × State) : Type 0 where
  pub kept : P r.1
  pub concluded : r.0 ≡ finished → Q r.1

module _ (env : Environment) (P Q : State → Type 0) (stable : Stable P) where
  recover-keeps : (s : State) → P s → P (recover env s).1
  unfolding recover
  recover-keeps s h = elim (Bool-cases (is_canceled env (env.context_error s.events))) [
    | inl q ↦ rw q h
    | inr q ↦ rw q (stable (sleep 10000000000) s h)
  ]

  retry-Concludes :
      (again : Err → State → Ending × State) (e : Err) (stop : Bool) (s : State)
      → P s
      → ((s' : State) → P s' → Concludes P Q (again e s'))
      → Concludes P Q (retry env again e stop s)
  unfolding retry
  retry-Concludes again e true s h rest = record {
    kept = h;
    concluded = λ p. let no : ⊥ = ground arith in elim no [ ];
  }
  retry-Concludes again e false s h rest = rest s h

  after_session-Concludes :
      (again : Err → State → Ending × State) (e : Option Err) (s : State)
      → P s
      → (e ≡ none → Q s)
      → ((e' : Err) (s' : State) → P s' → Concludes P Q (again e' s'))
      → Concludes P Q (after_session env again e s)
  unfolding after_session
  after_session-Concludes again none s h done rest = record { kept = h; concluded = λ p. done refl }
  after_session-Concludes again (some e) s h done rest = elim (Bool-cases (is_lost e)) [
    | inl q ↦
        rw q
          (retry-Concludes again e (recover env s).0 (recover env s).1 (recover-keeps s h) (rest e))
    | inr q ↦ rw q (record { kept = h; concluded = λ p. let no : ⊥ = ground arith in elim no [ ] })
  ]

  open_session-Concludes :
      (rest : State → Ending × State) (r : Result (Unit {0})) (s : State)
      → P s
      → ((s' : State) → P s' → Concludes P Q (rest s'))
      → Concludes P Q (open_session env rest r s)
  unfolding open_session
  open_session-Concludes rest (err e) s h k = record {
    kept = h;
    concluded = λ p. let no : ⊥ = ground arith in elim no [ ];
  }
  open_session-Concludes rest (ok x) s h k = k s h

  -- The loop behind a session that was lost
  run_sessions-again :
      (handler : Handler) (left : ℕ) (e : Err) (s : State)
      → Handles P Q handler
      → P s
      → Concludes P Q (run_sessions env handler left (some e) s)
  unfolding run_sessions
  run_sessions-again handler zero e s k h = record {
    kept = h;
    concluded = λ p. let no : ⊥ = ground arith in elim no [ ];
  }
  run_sessions-again handler (suc left) e s k h =
      open_session-Concludes _ (env.create_session_reply (call create_session ∷ s.events)) _
        (stable create_session s h)
        λ s' h'.
          after_session-Concludes _ (handler s').0 (handler s').1 (k.keeps s' h')
            (k.concludes s' h') λ e' s'' h''. run_sessions-again handler left e' s'' k h''

  pub run_sessions-Concludes :
      (handler : Handler) (left : ℕ) (last : Option Err) (s : State)
      → Handles P Q handler
      → P s
      → Concludes P Q (run_sessions env handler (suc left) last s)
  unfolding run_sessions
  run_sessions-Concludes handler left last s k h =
      open_session-Concludes _ (env.create_session_reply (call create_session ∷ s.events)) _
        (stable create_session s h)
        λ s' h'.
          after_session-Concludes _ (handler s').0 (handler s').1 (k.keeps s' h')
            (k.concludes s' h') λ e' s'' h''. run_sessions-again handler left e' s'' k h''

-- The cleanup of a session makes two calls, and its error is joined.
join_errors-some : (e : Err) (b : Option Err) → join_errors (some e) b ≡ none → ⊥
join_errors-some e none p = ground arith
join_errors-some e (some f) p = ground arith

-- The cases of a body whose handler is to keep `P` and conclude `Q`
abbrev pub cases : (State → Type 0) → (State → Type 0) → Cases
cases P Q = record { stopped = λ s. P s × Q s; failed = P }

module _ (env : Environment) (P Q : State → Type 0) (stable : Stable P) (stable_end : Stable Q)
    (fresh : (s : State) → P s → P (record s { removed = [] })) where
  close_session-keeps : (e : Option Err) (s : State) → P s → P (close_session env e s).1
  unfolding close_session
  close_session-keeps e s h = stable complete_session _ (stable (remove_paths s.removed) s h)

  close_session-concludes :
      (e : Option Err) (s : State)
      → (e ≡ none → Q s)
      → (close_session env e s).0 ≡ none
      → Q (close_session env e s).1
  unfolding close_session
  close_session-concludes none s h p =
      stable_end complete_session _ (stable_end (remove_paths s.removed) s (h refl))
  close_session-concludes (some e) s h p =
      elim (join_errors-some e
        (error_of (env.remove_paths_reply (call (remove_paths s.removed) ∷ s.events))) p) [ ]

  body-keeps : (r : Flow (Unit {0})) (s : State) → Ends (cases P Q) (λ s'. P s' × Q s') r s → P s
  body-keeps (next x) s h = h.0
  body-keeps returned s h = h.0
  body-keeps (raised e) s h = h

  body-concludes :
      (r : Flow (Unit {0})) (s : State)
      → Ends (cases P Q) (λ s'. P s' × Q s') r s
      → raised_error r ≡ none
      → Q s
  body-concludes (next x) s h p = h.1
  body-concludes returned s h p = h.1
  body-concludes (raised e) s h p = let no : ⊥ = ground arith in elim no [ ]

  pub with_cleanup-Handles :
      (body : Action (Unit {0}))
      → Triple (cases P Q) P (λ s. P s × Q s) body
      → Handles P Q (with_cleanup env body)
  unfolding with_cleanup
  with_cleanup-Handles body k = record {
    keeps = λ s h.
        let r = body (record s { removed = [] }) in
        close_session-keeps (raised_error r.0) r.1 (body-keeps r.0 r.1 (k.at _ (fresh s h)));
    concludes = λ s h.
        let r = body (record s { removed = [] }) in
        close_session-concludes (raised_error r.0) r.1
          (body-concludes r.0 r.1 (k.at _ (fresh s h)));
  }
