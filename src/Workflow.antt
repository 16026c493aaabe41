-- ===== src/Workflow.antt =====
-- What the workflows of internal/workflows share: errors of activities, the reports that a workflow
-- makes on its result by the methods of enduro's package childwf, and the history of both.
pub mod Reports
pub mod Errors
pub mod Outcomes
use sfa_enduro_workflows.Base.{
  ℕ, suc, String, ◌<>◌, Bool, true, false, Option, List, [], ◌∷◌, str_eq, if◌then◌else◌, elements,
  join_texts, map,
}

-- An error that `Get` returns: an `ApplicationError` with its type and message, a lost session, a
-- cancellation, any other, or several by `errors.Join`.
pub data Err : Type 0 where
  application : String → String → Err
  session_failed : Err
  canceled : Err
  plain : String → Err
  joined : Err → Err → Err

pub data Result (A : Type 0) : Type 0 where
  ok : A → Result A
  err : Err → Result A

-- A slice of failure messages; `none` is the nil slice.
abbrev pub Failures : Type 0
Failures = Option (List String)

-- What a workflow does that others see: it asks for an activity (or sends a signal), and calls a
-- method of its result. A task is named by the number of tasks before it. The times are left out.
pub data Event (C : Type 0) : Type 0 where
  call : C → Event C
  new_task : ℕ → String → Event C
  succeed : ℕ → String → Event C
  validation_error : ℕ → String → List String → Event C
  system_error : ℕ → String → List String → Event C
  -- `result.Outcome = childwf.OutcomeContentError`
  set_content_error : Event C
  -- `task.Complete` with `TaskOutcomeValidationFailure`
  complete_invalid : ℕ → String → Event C

-- The newest event stands first.
abbrev pub History : Type 0 → Type 0
History C = List (Event C)

abbrev pub count_tasks : {C : Type 0} → History C → ℕ
count_tasks [] = 0
count_tasks (new_task t name ∷ h) = suc (count_tasks h)
count_tasks (_ ∷ h) = count_tasks h

-- The function `ul`: a list in the style of Markdown.
unfoldable pub ul : List String → String
ul items = join_texts "\n" (map (λ i. "- " <> i) items)
