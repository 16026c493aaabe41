-- ===== src/Actapro/Export.antt =====
-- internal/actapro/poll_export_status_activity.go: the poll of an export ends.
use sfa_enduro_workflows.Base.{
  ℕ, zero, suc, ◌<◌, ◌≡◌, refl, sym, ap, ◌∙◌, String, Bool, true, false, ◌||◌, none, some, List,
  str_eq, eq_iff, inl, inr, Bool-cases, if◌then◌else◌, to_upper, arith,
}
use sfa_enduro_workflows.Workflow.{Result, ok}
use sfa_enduro_workflows.Polling.{Tick, tick, poll}
use sfa_enduro_workflows.Polling.Completion.{poll-decided, poll-pending}
use sfa_enduro_workflows.Actapro.{
  Outcome, success, ◌>>=◌, Response, responded, LogEntry, format_export_logs, export_logs,
  ExportStatus, Info, export_step, poll_export_status,
}

-- An export that has ended, by its status in whatever case
unfoldable pub is_final : String → Bool
is_final status =
    str_eq (to_upper status) "COMPLETED"
    || (str_eq (to_upper status) "FAILED" || str_eq (to_upper status) "CANCELED")

-- The result of an export that has ended; one that failed or was cancelled comes with its logs.
unfoldable pub final_result : String → Result (Response (List LogEntry)) → Outcome ExportStatus
final_result status logs =
    if str_eq (to_upper status) "COMPLETED"
    then success (record { status = "COMPLETED"; logs = "" })
    else (export_logs logs >>= λ entries.
        success (record { status = to_upper status; logs = format_export_logs entries }))

-- From the tick `i` on, the export is found running, and `n` ticks later it is found ended.
pub data Ends (ticks : ℕ → Tick Info) (status : String) (logs : Result (Response (List LogEntry)))
    : ℕ → ℕ → Type 0 where
  ended :
      {i : ℕ}
      → is_final status ≡ true
      → ticks i ≡ tick (ok (record { status = responded status; logs = logs }))
      → Ends ticks status logs i 0
  running :
      {i n : ℕ} (now : String) (no_logs : Result (Response (List LogEntry)))
      → str_eq now "" ≡ false
      → is_final now ≡ false
      → ticks i ≡ tick (ok (record { status = responded now; logs = no_logs }))
      → Ends ticks status logs (suc i) n
      → Ends ticks status logs i (suc n)

empty-not_final : is_final "" ≡ true → ⊥
unfolding is_final to_upper
empty-not_final h = cc

final-ne-empty : (status : String) → is_final status ≡ true → str_eq status "" ≡ false
final-ne-empty status h = elim (Bool-cases (str_eq status "")) [
  | inl q ↦ absurd (empty-not_final (sym (ap is_final ((eq_iff status "").0 q)) ∙ h))
  | inr q ↦ q
]

ended_step :
    (status : String) (logs : Result (Response (List LogEntry)))
    → is_final status ≡ true
    → export_step (tick (ok (record { status = responded status; logs = logs })))
      ≡ some (final_result status logs)
unfolding is_final final_result export_step
ended_step status logs h = elim (Bool-cases (str_eq (to_upper status) "COMPLETED")) [
  | inl c ↦ rw (final-ne-empty status h, (eq_iff (to_upper status) "COMPLETED").0 c) refl
  | inr c ↦ ground (arith, final-ne-empty status h)
]

running_step :
    (status : String) (logs : Result (Response (List LogEntry)))
    → str_eq status "" ≡ false
    → is_final status ≡ false
    → export_step (tick (ok (record { status = responded status; logs = logs }))) ≡ none
unfolding is_final export_step
running_step status logs e h = ground arith

module _ (ticks : ℕ → Tick Info) (status : String) (logs : Result (Response (List LogEntry))) where
  poll-Ends :
      (i n left : ℕ)
      → Ends ticks status logs i n
      → n < left
      → poll export_step ticks left i ≡ some (final_result status logs)
  poll-Ends i n zero a lt = ground arith
  poll-Ends i n (suc left) (ended f e) lt =
      poll-decided export_step ticks i left (final_result status logs)
        (ap export_step e ∙ ended_step status logs f)
  poll-Ends i n (suc left) (running {n = m} now no_logs e f t a) lt =
      poll-pending export_step ticks i left (ap export_step t ∙ running_step now no_logs e f)
      ∙ poll-Ends (suc i) m left a (omega arith)

  -- Once an export has ended, at the tick behind `n` ticks at which it is found running, the activity
  -- returns: its result is the status in upper case, and for an export that failed or was cancelled
  -- the logs, or the error of the request for them.
  pub poll_export_status-Ends :
      (id : String) (n : ℕ)
      → Ends ticks status logs 0 n
      → poll_export_status (ok id) ticks (suc n) ≡ some (final_result status logs)
  unfolding poll_export_status
  poll_export_status-Ends id n a = poll-Ends 0 n (suc n) a (omega arith)
