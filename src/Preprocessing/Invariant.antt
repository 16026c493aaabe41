-- ===== src/Preprocessing/Invariant.antt =====
-- internal/workflows/preprocessing.go: what every step keeps of the history, as triples with a rule
-- for the sequence of two steps.
pub mod Checks
pub mod Preservation
pub mod Run
use sfa_enduro_workflows.Base.{
  ◌≡◌, refl, Bool, true, false, some, List, [], ◌∷◌, ◌++◌, ◌&&◌, if◌then◌else◌, arith,
}
use sfa_enduro_workflows.Workflow.{
  Event, call, new_task, succeed, validation_error, system_error, set_content_error,
  complete_invalid, History,
}
use sfa_enduro_workflows.Workflow.Reports.{open_tasks, verdict, Verdict, passed, is_broken}
use sfa_enduro_workflows.Preprocessing.{
  Call, create_import_task, poll_import_task_status, request_decision, add_premis_objects,
  add_premis_event, add_premis_validation_event, add_premis_agent, transform_sip,
  write_identifier_file, create_bag, State, Flow, next, returned, raised, Action, ◌>>=◌, continue,
}

-- The calls that submit the package to APIS or prepare it for preservation.
abbrev pub is_gated : Call → Bool
is_gated (create_import_task sip user) = true
is_gated (poll_import_task_status id) = true
is_gated (request_decision message options) = true
is_gated (add_premis_objects sip path) = true
is_gated (add_premis_event path event) = true
is_gated (add_premis_validation_event sip path event) = true
is_gated (add_premis_agent path) = true
is_gated (transform_sip sip) = true
is_gated (write_identifier_file pip) = true
is_gated (create_bag path) = true
is_gated _ = false

abbrev pub is_passed : Verdict → Bool
is_passed passed = true
is_passed _ = false

abbrev pub implies : Bool → Bool → Bool
implies true b = b
implies false b = true

-- Every gated call was made with no failure reported before it.
abbrev pub guarded : History Call → Bool
guarded [] = true
guarded (call c ∷ h) = implies (is_gated c) (is_passed (verdict h)) && guarded h
guarded (new_task t name ∷ h) = guarded h
guarded (succeed t message ∷ h) = guarded h
guarded (validation_error t message lines ∷ h) = guarded h
guarded (system_error t message lines ∷ h) = guarded h
guarded (set_content_error ∷ h) = guarded h
guarded (complete_invalid t message ∷ h) = guarded h

pub record Kept (s : State) : Type 0 where
  pub balanced : open_tasks s.events ≡ some []
  pub gated : guarded s.events ≡ true

-- Kept, and no system error was reported.
pub record Sound (s : State) : Type 0 where
  pub balanced : open_tasks s.events ≡ some []
  pub gated : guarded s.events ≡ true
  pub unbroken : is_broken (verdict s.events) ≡ false

-- Kept, and no failure was reported.
pub record Clean (s : State) : Type 0 where
  pub balanced : open_tasks s.events ≡ some []
  pub gated : guarded s.events ≡ true
  pub unfailed : is_passed (verdict s.events) ≡ true

-- Kept, and a failure was reported.
pub record Stopped (s : State) : Type 0 where
  pub balanced : open_tasks s.events ≡ some []
  pub gated : guarded s.events ≡ true
  pub failed : is_passed (verdict s.events) ≡ false

-- A step that goes on ends in `Q`, one that returns the result has reported a failure.
abbrev pub Ends : {A : Type 0} → (State → Type 0) → Flow A → State → Type 0
Ends Q (next a) s = Q s
Ends Q returned s = Stopped s
Ends Q (raised e) s = Kept s

pub record Triple {A : Type 0} (P Q : State → Type 0) (m : Action A) : Type 0 where
  pub at : (s : State) → P s → Ends Q (m s).0 (m s).1

module _ {A B : Type 0} {Q R : State → Type 0} where
  continue-Ends :
      (r : Flow A) (s : State) (f : A → Action B)
      → ((a : A) → Triple Q R (f a))
      → Ends Q r s
      → Ends R (continue r f s).0 (continue r f s).1
  continue-Ends (next a) s f k h = (k a).at s h
  continue-Ends returned s f k h = h
  continue-Ends (raised e) s f k h = h

  pub Triple-bind :
      {P : State → Type 0} (m : Action A) (f : A → Action B)
      → Triple P Q m
      → ((a : A) → Triple Q R (f a))
      → Triple P R (m >>= f)
  Triple-bind m f first rest = record {
    at = λ s h. continue-Ends (m s).0 (m s).1 f rest (first.at s h);
  }

pub Triple-if :
    {A : Type 0} {P Q : State → Type 0} (b : Bool) (m n : Action A)
    → Triple P Q m
    → Triple P Q n
    → Triple P Q (if b then m else n)
Triple-if true m n km kn = km
Triple-if false m n km kn = kn
