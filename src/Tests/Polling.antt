-- ===== src/Tests/Polling.antt =====
-- A poll of APIS, and the theorems about the loop at it.
use sfa_enduro_workflows.Base.{ℕ, zero, suc, ◌<◌, ◌≡◌, refl, String, none, some}
use sfa_enduro_workflows.Workflow.{ok}
use sfa_enduro_workflows.Polling.{
  Tick, tick, TaskStatus, neu, analysiert, StatusResponse, status_response, poll_task_status,
}
use sfa_enduro_workflows.Polling.Completion.{
  Analysis, analysed, waiting, poll_task_status-completes, poll_task_status-Analysis,
}

-- The task is new, then analysed with conflicts.
abbrev ticks : ℕ → Tick StatusResponse
ticks zero = tick (ok (status_response neu none none))
ticks (suc _) = tick (ok (status_response analysiert (some "Konflikte") none))

abbrev text : TaskStatus → String
text s = "status"

found : Analysis ticks "Konflikte" 0 1
found = waiting neu none none refl refl (analysed none refl)

poll_task_status-completes_example : poll_task_status text "task-1" ticks 2 ≡ some (ok "Konflikte")
poll_task_status-completes_example =
    poll_task_status-completes text "task-1" ticks "Konflikte" 1 found

returned : poll_task_status text "task-1" ticks 5 ≡ some (ok "Konflikte")
unfolding poll_task_status
returned = refl

poll_task_status-Analysis_example : (n : ℕ) × (n < 5) × Analysis ticks "Konflikte" 0 n
poll_task_status-Analysis_example =
    poll_task_status-Analysis text "task-1" ticks "Konflikte" 5 returned
