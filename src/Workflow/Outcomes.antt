-- ===== src/Workflow/Outcomes.antt =====
-- What the activities that send requests return to Temporal.
use sfa_enduro_workflows.Base.{String}

-- What an activity returns: a result, an error that is tried again, or a
-- NonRetryableError.
pub data Outcome (A : Type 0) : Type 0 where
  success : A → Outcome A
  failure : String → Outcome A
  non_retryable : String → Outcome A
  -- A NonRetryableApplicationError: type and message
  typed_error : String → String → Outcome A

infixl 5 ◌>>=◌
abbrev pub ◌>>=◌ : {A B : Type 0} → Outcome A → (A → Outcome B) → Outcome B
success a >>= f = f a
failure e >>= f = failure e
non_retryable e >>= f = non_retryable e
typed_error type e >>= f = typed_error type e
