-- ===== src/Polling.antt =====
-- internal/apis/poll_import_task_status_activity.go, internal/apis/poll_import_run_status_activity.go
-- and internal/apis/problem_details.go: the activities that poll APIS at each tick.
pub mod Completion
use sfa_enduro_workflows.Base.{
  ℕ, zero, suc, String, ◌<>◌, Bool, true, false, Option, none, some, str_eq, if◌then◌else◌, quote,
}
use sfa_enduro_workflows.Workflow.{Err, plain, Result, ok, err}
use sfa_enduro_workflows.Workflow.Errors.{error_text}

-- What a select in the loop finds: the context is done, or a tick, with the reply to its request.
pub data Tick (A : Type 0) : Type 0 where
  done : Err → Tick A
  tick : Result A → Tick A

-- The loop, with the number of rounds that are left; `none` if they do not suffice. A step that gives
-- `none` continues the loop.
unfoldable pub poll : {A R : Type 0} → (Tick A → Option R) → (ℕ → Tick A) → ℕ → ℕ → Option R
poll step ticks zero i = none
poll step ticks (suc left) i =
    let later = poll step ticks left (suc i) in
    elim (step (ticks i)) [ some r ↦ some r | none ↦ later ]

-- gen.ImportTaskStatus
pub data TaskStatus : Type 0 where
  neu in_analyse analysiert abgebrochen wird_importiert importiert : TaskStatus
  other_status : String → TaskStatus

-- The responses of APIImporttasksIDStatusGet
pub data StatusResponse : Type 0 where
  -- The status, the analysis result and the import result
  status_response : TaskStatus → Option String → Option String → StatusResponse
  unauthorized : StatusResponse
  task_not_found : Option String → StatusResponse
  server_error : Option String → StatusResponse
  other_response : StatusResponse

-- problemDetail
unfoldable pub problem_detail : Option String → String
problem_detail none = "no additional details"
problem_detail (some detail) = if str_eq detail "" then "no additional details" else detail

-- The values of gen.ImportTaskStatus are not part of the repository's own code.
module _ (status_text : TaskStatus → String) where
  -- analysisComplete
  unfoldable pub analysis_complete : TaskStatus → Result Bool
  analysis_complete neu = ok false
  analysis_complete in_analyse = ok false
  analysis_complete analysiert = ok true
  analysis_complete (other_status s) =
      err (plain ("unknown APIS import task status: " <> status_text (other_status s)))
  analysis_complete s = err (plain ("unexpected APIS import task status: " <> status_text s))

  -- importComplete
  unfoldable pub import_complete : TaskStatus → Result Bool
  import_complete analysiert = ok false
  import_complete wird_importiert = ok false
  import_complete importiert = ok true
  import_complete (other_status s) =
      err
        (plain ("unknown APIS import task status during import: " <> status_text (other_status s)))
  import_complete s =
      err (plain ("unexpected APIS import task status during import: " <> status_text s))

  -- Behind the test of the status
  unfoldable pub take_result : String → Result Bool → Option String → Option (Result String)
  take_result message (err e) value = some (err e)
  take_result message (ok false) value = none
  take_result message (ok true) none = some (err (plain message))
  take_result message (ok true) (some value) = some (ok value)

  -- The body of the loop of PollImportTaskStatusActivity
  unfoldable pub task_step : String → Tick StatusResponse → Option (Result String)
  unfolding problem_detail analysis_complete take_result
  task_step id (done e) = some (err e)
  task_step id (tick (err e)) =
      some (err (plain ("poll APIS import task status: " <> error_text e)))
  task_step id (tick (ok (status_response status analysis result))) =
      take_result
        ("poll APIS import task status: missing analysis result for completed task " <> quote id)
        (analysis_complete status) analysis
  task_step id (tick (ok unauthorized)) =
      some (err (plain "poll APIS import task status: unauthorized"))
  task_step id (tick (ok (task_not_found detail))) =
      some (err (plain ("poll APIS import task status: task not found: " <> problem_detail detail)))
  task_step id (tick (ok (server_error detail))) =
      some (err (plain ("poll APIS import task status: server error: " <> problem_detail detail)))
  task_step id (tick (ok other_response)) =
      some (err (plain "poll APIS import task status: unexpected response"))

  -- The body of the loop of PollImportRunStatusActivity
  unfoldable pub run_step : String → Tick StatusResponse → Option (Result String)
  unfolding problem_detail import_complete take_result
  run_step id (done e) = some (err e)
  run_step id (tick (err e)) = some (err (plain ("poll APIS import run status: " <> error_text e)))
  run_step id (tick (ok (status_response status analysis result))) =
      take_result
        ("poll APIS import run status: missing import result for completed task " <> quote id)
        (import_complete status) result
  run_step id (tick (ok unauthorized)) =
      some (err (plain "poll APIS import run status: unauthorized"))
  run_step id (tick (ok (task_not_found detail))) =
      some (err (plain ("poll APIS import run status: task not found: " <> problem_detail detail)))
  run_step id (tick (ok (server_error detail))) =
      some (err (plain ("poll APIS import run status: server error: " <> problem_detail detail)))
  run_step id (tick (ok other_response)) =
      some (err (plain "poll APIS import run status: unexpected response"))

  -- PollImportTaskStatusActivity.Execute
  unfoldable pub poll_task_status : String → (ℕ → Tick StatusResponse) → ℕ → Option (Result String)
  unfolding poll task_step
  poll_task_status id ticks rounds = poll (task_step id) ticks rounds 0

  -- PollImportRunStatusActivity.Execute
  unfoldable pub poll_run_status : String → (ℕ → Tick StatusResponse) → ℕ → Option (Result String)
  unfolding poll run_step
  poll_run_status id ticks rounds = poll (run_step id) ticks rounds 0
