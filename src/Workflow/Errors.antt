-- ===== src/Workflow/Errors.antt =====
-- What the workflows read of an error: its text, its type, and the errors that are joined.
use sfa_enduro_workflows.Base.{String, ◌<>◌, Bool, true, false, Option, none, some, ◌||◌}
use sfa_enduro_workflows.Workflow.{Err, application, session_failed, canceled, plain, joined}

-- Error()
unfoldable pub error_text : Err → String
error_text (application type message) = message
error_text session_failed = "session failed"
error_text canceled = "canceled"
error_text (plain message) = message
error_text (joined a b) = error_text a <> ("\n" <> error_text b)

-- The message of the first `ApplicationError` of the tree.
application_message : Err → Option String
application_message (application type message) = some message
application_message (joined a b) =
    let first = application_message a in
    let second = application_message b in elim first [ some m ↦ some m | none ↦ second ]
application_message _ = none

-- activityErrorMessage
unfoldable pub activity_error_message : Err → String
unfolding application_message error_text
activity_error_message e = elim (application_message e) [ some m ↦ m | none ↦ error_text e ]

-- errors.Is(err, ErrSessionFailed) || IsCanceledError(err)
unfoldable pub is_lost : Err → Bool
is_lost session_failed = true
is_lost canceled = true
is_lost (joined a b) = is_lost a || is_lost b
is_lost (application type message) = false
is_lost (plain message) = false

-- errors.Join, where `none` is nil
abbrev pub join_errors : Option Err → Option Err → Option Err
join_errors none b = b
join_errors (some a) none = some a
join_errors (some a) (some b) = some (joined a b)
