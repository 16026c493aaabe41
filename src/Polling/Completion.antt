-- ===== src/Polling/Completion.antt =====
-- internal/apis/poll_import_task_status_activity.go and
-- internal/apis/poll_import_run_status_activity.go: when the loops end, and with which result.
use sfa_enduro_workflows.Base.{
  ℕ, zero, suc, ◌<◌, ◌≡◌, refl, sym, ap, ◌∙◌, String, Bool, true, false, Option, none, some, arith,
}
use sfa_enduro_workflows.Workflow.{Result, ok, err}
use sfa_enduro_workflows.Polling.{
  Tick, done, tick, poll, TaskStatus, neu, in_analyse, analysiert, StatusResponse, status_response,
  unauthorized, task_not_found, server_error, other_response, task_step, analysis_complete,
  take_result, poll_task_status,
}

module _ {A R : Type 0} (step : Tick A → Option R) (ticks : ℕ → Tick A) where
  pub poll-decided :
      (i left : ℕ) (r : R) → step (ticks i) ≡ some r → poll step ticks (suc left) i ≡ some r
  unfolding poll
  poll-decided i left r h = ground arith

  pub poll-pending :
      (i left : ℕ)
      → step (ticks i) ≡ none
      → poll step ticks (suc left) i ≡ poll step ticks left (suc i)
  unfolding poll
  poll-pending i left h = ground arith

-- The task is still to be analysed.
abbrev is_waiting : TaskStatus → Bool
is_waiting neu = true
is_waiting in_analyse = true
is_waiting _ = false

-- From the tick `i` on, the task is found waiting until, `n` ticks later, it is found analysed.
pub data Analysis (ticks : ℕ → Tick StatusResponse) (value : String) : ℕ → ℕ → Type 0 where
  analysed :
      {i : ℕ} (result : Option String)
      → ticks i ≡ tick (ok (status_response analysiert (some value) result))
      → Analysis ticks value i 0
  waiting :
      {i n : ℕ} (status : TaskStatus) (analysis result : Option String)
      → is_waiting status ≡ true
      → ticks i ≡ tick (ok (status_response status analysis result))
      → Analysis ticks value (suc i) n
      → Analysis ticks value i (suc n)

module _ (text : TaskStatus → String) (id : String) (ticks : ℕ → Tick StatusResponse) where
  waiting_step :
      (status : TaskStatus) (analysis result : Option String)
      → is_waiting status ≡ true
      → task_step text id (tick (ok (status_response status analysis result))) ≡ none
  unfolding task_step analysis_complete take_result
  waiting_step status analysis result w = ground arith

  analysed_step :
      (value : String) (result : Option String)
      → task_step text id (tick (ok (status_response analysiert (some value) result)))
        ≡ some (ok value)
  unfolding task_step analysis_complete take_result
  analysed_step value result = refl

  poll-analysed :
      (value : String) (i n left : ℕ)
      → Analysis ticks value i n
      → n < left
      → poll (task_step text id) ticks left i ≡ some (ok value)
  poll-analysed value i n zero a lt = ground arith
  poll-analysed value i n (suc left) (analysed result e) lt =
      poll-decided (task_step text id) ticks i left (ok value)
        (ap (task_step text id) e ∙ analysed_step value result)
  poll-analysed value i n (suc left) (waiting {n = m} status analysis result w e a) lt =
      poll-pending (task_step text id) ticks i left
        (ap (task_step text id) e ∙ waiting_step status analysis result w)
      ∙ poll-analysed value (suc i) m left a (omega arith)

  -- What a tick is, by what the step makes of it
  waiting_tick :
      (t : Tick StatusResponse)
      → task_step text id t ≡ none
      → (status : TaskStatus) × (analysis : Option String) × (result : Option String) × (is_waiting
            status
          ≡ true)
        × (t ≡ tick (ok (status_response status analysis result)))
  unfolding task_step analysis_complete take_result
  waiting_tick (done e) h = let no : ⊥ = ground arith in elim no [ ]
  waiting_tick (tick (err e)) h = let no : ⊥ = ground arith in elim no [ ]
  waiting_tick (tick (ok (status_response s a r))) h = (s, a, r, ground arith, refl)
  waiting_tick (tick (ok unauthorized)) h = let no : ⊥ = ground arith in elim no [ ]
  waiting_tick (tick (ok (task_not_found d))) h = let no : ⊥ = ground arith in elim no [ ]
  waiting_tick (tick (ok (server_error d))) h = let no : ⊥ = ground arith in elim no [ ]
  waiting_tick (tick (ok other_response)) h = let no : ⊥ = ground arith in elim no [ ]

  analysed_tick :
      (t : Tick StatusResponse) (value : String)
      → task_step text id t ≡ some (ok value)
      → (result : Option String) × (t ≡ tick (ok (status_response analysiert (some value) result)))
  unfolding task_step analysis_complete take_result
  analysed_tick (done e) v h = let no : ⊥ = ground arith in elim no [ ]
  analysed_tick (tick (err e)) v h = let no : ⊥ = ground arith in elim no [ ]
  analysed_tick (tick (ok (status_response s a r))) v h = (r, ground arith)
  analysed_tick (tick (ok unauthorized)) v h = let no : ⊥ = ground arith in elim no [ ]
  analysed_tick (tick (ok (task_not_found d))) v h = let no : ⊥ = ground arith in elim no [ ]
  analysed_tick (tick (ok (server_error d))) v h = let no : ⊥ = ground arith in elim no [ ]
  analysed_tick (tick (ok other_response)) v h = let no : ⊥ = ground arith in elim no [ ]

  Analysis-round :
      (value : String) (left i : ℕ) (found : Option (Result String))
      → task_step text id (ticks i) ≡ found
      → poll (task_step text id) ticks (suc left) i ≡ some (ok value)
      → (poll (task_step text id) ticks left (suc i) ≡ some (ok value)
          → (n : ℕ) × (n < left) × Analysis ticks value (suc i) n)
      → (n : ℕ) × (n < suc left) × Analysis ticks value i n
  Analysis-round value left i none e h rest =
      let (s, a, r, w, t) = waiting_tick (ticks i) e in
      let (n, lt, later) = rest (sym (poll-pending (task_step text id) ticks i left e) ∙ h) in
      (suc n, omega arith, waiting s a r w t later)
  Analysis-round value left i (some found) e h rest =
      let same : some found ≡ some (ok value) =
        sym (poll-decided (task_step text id) ticks i left found e) ∙ h in
      let (result, t) = analysed_tick (ticks i) value (e ∙ same) in
      (0, omega arith, analysed result t)

  Analysis-poll :
      (value : String) (left i : ℕ)
      → poll (task_step text id) ticks left i ≡ some (ok value)
      → (n : ℕ) × (n < left) × Analysis ticks value i n
  unfolding poll
  Analysis-poll value zero i h = let no : ⊥ = ground arith in elim no [ ]
  Analysis-poll value (suc left) i h =
      Analysis-round value left i (task_step text id (ticks i)) refl h
        (Analysis-poll value left (suc i))

  -- If the task is found waiting at `n` ticks, and then analysed with a value, then the activity
  -- returns the value within `n + 1` rounds.
  pub poll_task_status-completes :
      (value : String) (n : ℕ)
      → Analysis ticks value 0 n
      → poll_task_status text id ticks (suc n) ≡ some (ok value)
  unfolding poll_task_status
  poll_task_status-completes value n a = poll-analysed value 0 n (suc n) a (omega arith)

  -- If the activity returns a value, then the task was found waiting at each tick until it was found
  -- analysed with this value.
  pub poll_task_status-Analysis :
      (value : String) (rounds : ℕ)
      → poll_task_status text id ticks rounds ≡ some (ok value)
      → (n : ℕ) × (n < rounds) × Analysis ticks value 0 n
  unfolding poll_task_status
  poll_task_status-Analysis value rounds h = Analysis-poll value rounds 0 h
