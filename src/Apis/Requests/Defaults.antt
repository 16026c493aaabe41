-- ===== src/Apis/Requests/Defaults.antt =====
-- internal/apis/create_import_task_activity.go and internal/workflows/preprocessing.go: what the
-- workflow reports for the replies of APIS.
use sfa_enduro_workflows.Base.{
  ◌≡◌, refl, String, Bool, true, false, ◌&&◌, Option, none, some, str_eq, inl, inr, contains_text,
  Bool-cases, if◌then◌else◌, ap, ◌∙◌,
}
use sfa_enduro_workflows.Enums.{type_name}
use sfa_enduro_workflows.Sip.{Sip}
use sfa_enduro_workflows.Workflow.{application, Result, ok, err, History}
use sfa_enduro_workflows.Workflow.Reports.{Verdict, rejected, broken, verdict}
use sfa_enduro_workflows.Preprocessing.{Call, Environment, State}
use sfa_enduro_workflows.Workflow.Outcomes.{Outcome, success, failure, non_retryable, typed_error}
use sfa_enduro_workflows.Polling.{problem_detail}
use sfa_enduro_workflows.Preprocessing.Import.{is_default_values_error, submit_metadata}
use sfa_enduro_workflows.Apis.Requests.{
  TaskResponse, task_created, bad_request, unsupported_media_type, server_error, unauthorized,
  other_response, metadata_file, refuse_task, take_task, take_task_reply, create_import_task,
  default_values_detail, default_values_type,
}

-- The error that reaches the workflow. Temporal gives an error without a type the one of its Go type.
abbrev pub reaches : String → Outcome String → Result String
reaches go_type (success id) = ok id
reaches go_type (failure e) = err (application go_type e)
reaches go_type (non_retryable e) = err (application go_type e)
reaches go_type (typed_error type e) = err (application type e)

abbrev pub is_recognised : Result String → Bool
is_recognised (ok id) = false
is_recognised (err e) = is_default_values_error e

-- APIS refuses the request and names the default values.
abbrev pub lacks_defaults : Result TaskResponse → Bool
lacks_defaults (ok (bad_request detail)) =
    contains_text (problem_detail detail) default_values_detail
lacks_defaults _ = false

abbrev pub is_none : Option String → Bool
is_none none = true
is_none (some e) = false

abbrev pub is_created : Outcome String → Bool
is_created (success id) = true
is_created _ = false

module _ (go_type : String) (other : str_eq go_type default_values_type ≡ false) where
  refuse_task-recognised :
      (detail : String)
      → is_recognised (reaches go_type (refuse_task detail))
        ≡ contains_text detail default_values_detail
  unfolding refuse_task is_default_values_error
  refuse_task-recognised detail = elim (Bool-cases (contains_text detail default_values_detail)) [
    | inl q ↦ rw q refl
    | inr q ↦ rw q other
  ]

  take_task_reply-recognised :
      (reply : Result TaskResponse)
      → is_recognised (reaches go_type (take_task_reply reply)) ≡ lacks_defaults reply
  unfolding take_task_reply take_task is_default_values_error
  take_task_reply-recognised (err e) = other
  take_task_reply-recognised (ok (task_created id)) = elim (Bool-cases (str_eq id "")) [
    | inl q ↦ rw q other
    | inr q ↦ rw q refl
  ]
  take_task_reply-recognised (ok (bad_request detail)) =
      refuse_task-recognised (problem_detail detail)
  take_task_reply-recognised (ok (unsupported_media_type detail)) = other
  take_task_reply-recognised (ok (server_error detail)) = other
  take_task_reply-recognised (ok unauthorized) = other
  take_task_reply-recognised (ok other_response) = other

  create_import_task-recognised :
      (open_error type_error : String → Option String) (s : Sip) (reply : Result TaskResponse)
      → is_recognised (reaches go_type (create_import_task open_error type_error s reply))
        ≡ is_none (open_error (metadata_file s))
          && (is_none (type_error (type_name s.type)) && lacks_defaults reply)
  unfolding create_import_task is_default_values_error
  create_import_task-recognised open_error type_error s reply =
      by_errors (open_error (metadata_file s)) refl (type_error (type_name s.type)) refl
    where
      by_errors :
          (opened : Option String)
          → open_error (metadata_file s) ≡ opened
          → (typed : Option String) → type_error (type_name s.type) ≡ typed
          → is_recognised (reaches go_type (create_import_task open_error type_error s reply))
            ≡ is_none (open_error (metadata_file s))
              && (is_none (type_error (type_name s.type)) && lacks_defaults reply)
      by_errors (some e) q typed r = rw (q, create_import_task) other
      by_errors none q (some e) r = rw (q, r, create_import_task) other
      by_errors none q none r = rw (q, r, create_import_task) (take_task_reply-recognised reply)

  -- What the submission leaves as the newest failure, by the reply to its request
  abbrev after_reply : Result String → Verdict → Verdict
  after_reply (ok id) before = before
  after_reply (err e) before = if is_default_values_error e then rejected else broken

  submit_metadata-reply :
      (env : Environment) (s : Sip) (username : String) (st : State) (r : Result String)
      → ((h : History Call) → env.create_import_task_reply h ≡ r)
      → verdict (submit_metadata env s username st).1.events ≡ after_reply r (verdict st.events)
  unfolding submit_metadata
  submit_metadata-reply env s username st (ok id) e = rw (e _) refl
  submit_metadata-reply env s username st (err x) e =
      elim (Bool-cases (is_default_values_error x)) [
        | inl q ↦ rw (e _, q) refl
        | inr q ↦ rw (e _, q) refl
      ]

  after_reply-reaches :
      (o : Outcome String) (before : Verdict)
      → after_reply (reaches go_type o) before ≡ (
          if is_created o
          then before
          else if is_recognised (reaches go_type o)
          then rejected
          else broken)
  after_reply-reaches (success id) before = refl
  after_reply-reaches (failure e) before = refl
  after_reply-reaches (non_retryable e) before = refl
  after_reply-reaches (typed_error type e) before = refl

  -- If the activity CreateImportTask is what answers to the workflow, and the type of an error without
  -- one is another, then the step of the workflow that submits the metadata reports nothing if the task
  -- was created. Else it reports an error of the content exactly if the file was opened, APIS takes the
  -- type of the package, and APIS answered with a bad request whose detail says that the default values
  -- could not be determined, and a system error in every other case.
  pub submit_metadata-verdict :
      (env : Environment) (open_error type_error : String → Option String) (s : Sip)
      (reply : Result TaskResponse) (username : String) (st : State)
      → ((h : History Call)
          → env.create_import_task_reply h
            ≡ reaches go_type (create_import_task open_error type_error s reply))
      → verdict (submit_metadata env s username st).1.events ≡ (
          if is_created (create_import_task open_error type_error s reply)
          then verdict st.events
          else if is_none (open_error (metadata_file s))
              && (is_none (type_error (type_name s.type)) && lacks_defaults reply)
          then rejected
          else broken)
  submit_metadata-verdict env open_error type_error s reply username st answers =
      let o = create_import_task open_error type_error s reply in
      submit_metadata-reply env s username st (reaches go_type o) answers
      ∙ (after_reply-reaches o (verdict st.events)
          ∙ ap (λ b. if is_created o then verdict st.events else if b then rejected else broken)
              (create_import_task-recognised open_error type_error s reply))
