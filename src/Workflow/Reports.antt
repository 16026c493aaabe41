-- ===== src/Workflow/Reports.antt =====
-- What the reports of a workflow say: which tasks are open, and the verdict on the package.
use mathlib.Core.Option
use sfa_enduro_workflows.Base.{
  ℕ, String, ◌≡◌, refl, Bool, true, false, Option, none, some, List, [], ◌∷◌, ◌==◌, if◌then◌else◌,
  arith,
}
use sfa_enduro_workflows.Workflow.{
  call, new_task, succeed, validation_error, system_error, set_content_error, complete_invalid,
  History,
}

-- The open tasks without `t`; `none` if `t` is not open.
abbrev pub close : ℕ → List ℕ → Option (List ℕ)
close t [] = none
close t (u ∷ us) = if u == t then some us else Option.map (λ r. u ∷ r) (close t us)

abbrev pub close_in : ℕ → Option (List ℕ) → Option (List ℕ)
close_in t none = none
close_in t (some us) = close t us

-- The tasks that were started and not finished; `none` once a task is finished that is not open.
abbrev pub open_tasks : {C : Type 0} → History C → Option (List ℕ)
open_tasks [] = some []
open_tasks (call c ∷ h) = open_tasks h
open_tasks (new_task t name ∷ h) = Option.map (λ us. t ∷ us) (open_tasks h)
open_tasks (succeed t message ∷ h) = close_in t (open_tasks h)
open_tasks (validation_error t message lines ∷ h) = close_in t (open_tasks h)
open_tasks (system_error t message lines ∷ h) = close_in t (open_tasks h)
open_tasks (set_content_error ∷ h) = open_tasks h
open_tasks (complete_invalid t message ∷ h) = close_in t (open_tasks h)

pub data Verdict : Type 0 where
  passed rejected broken : Verdict

-- The newest failure that was reported.
abbrev pub verdict : {C : Type 0} → History C → Verdict
verdict [] = passed
verdict (validation_error t message lines ∷ h) = rejected
verdict (system_error t message lines ∷ h) = broken
verdict (set_content_error ∷ h) = rejected
verdict (_ ∷ h) = verdict h

-- The outcome of a result, as the workflows read it: the tests `Outcome == OutcomeContentError` and
-- `Outcome == OutcomeSystemError`. The package is not part of the repository.
pub record Childwf (C : Type 0) : Type 0 where
  pub has_content_error : History C → Bool
  pub has_system_error : History C → Bool

-- Starting and finishing a task leaves the outcome alone, and a failure sets it.
pub record IsLawful {C : Type 0} (lib : Childwf C) : Type 0 where
  pub initial : (lib.has_content_error [] ≡ false) × (lib.has_system_error [] ≡ false)
  pub after_call :
      (c : C) (h : History C)
      → (lib.has_content_error (call c ∷ h) ≡ lib.has_content_error h)
        × (lib.has_system_error (call c ∷ h) ≡ lib.has_system_error h)
  pub after_new_task :
      (t : ℕ) (name : String) (h : History C)
      → (lib.has_content_error (new_task t name ∷ h) ≡ lib.has_content_error h)
        × (lib.has_system_error (new_task t name ∷ h) ≡ lib.has_system_error h)
  pub after_succeed :
      (t : ℕ) (message : String) (h : History C)
      → (lib.has_content_error (succeed t message ∷ h) ≡ lib.has_content_error h)
        × (lib.has_system_error (succeed t message ∷ h) ≡ lib.has_system_error h)
  pub after_complete_invalid :
      (t : ℕ) (message : String) (h : History C)
      → (lib.has_content_error (complete_invalid t message ∷ h) ≡ lib.has_content_error h)
        × (lib.has_system_error (complete_invalid t message ∷ h) ≡ lib.has_system_error h)
  pub after_set_content_error :
      (h : History C)
      → (lib.has_content_error (set_content_error ∷ h) ≡ true)
        × (lib.has_system_error (set_content_error ∷ h) ≡ false)
  pub after_validation_error :
      (t : ℕ) (message : String) (lines : List String) (h : History C)
      → (lib.has_content_error (validation_error t message lines ∷ h) ≡ true)
        × (lib.has_system_error (validation_error t message lines ∷ h) ≡ false)
  pub after_system_error :
      (t : ℕ) (message : String) (lines : List String) (h : History C)
      → (lib.has_content_error (system_error t message lines ∷ h) ≡ false)
        × (lib.has_system_error (system_error t message lines ∷ h) ≡ true)

abbrev pub is_rejected : Verdict → Bool
is_rejected rejected = true
is_rejected _ = false

abbrev pub is_broken : Verdict → Bool
is_broken broken = true
is_broken _ = false

-- The library whose outcome is the verdict.
abbrev pub outcome_of_verdict : (C : Type 0) → Childwf C
outcome_of_verdict C = record {
  has_content_error = λ h. is_rejected (verdict h);
  has_system_error = λ h. is_broken (verdict h);
}

pub outcome_of_verdict-IsLawful : (C : Type 0) → IsLawful (outcome_of_verdict C)
outcome_of_verdict-IsLawful C = record {
  initial = (refl, refl);
  after_call = λ c h. (refl, refl);
  after_new_task = λ t n h. (refl, refl);
  after_succeed = λ t m h. (refl, refl);
  after_complete_invalid = λ t m h. (refl, refl);
  after_set_content_error = λ h. (refl, refl);
  after_validation_error = λ t m l h. (refl, refl);
  after_system_error = λ t m l h. (refl, refl);
}

-- A lawful library's outcome is the verdict.
module _ {C : Type 0} (lib : Childwf C) (L : IsLawful lib) where
  pub outcome-eq-verdict :
      (h : History C)
      → (lib.has_content_error h ≡ is_rejected (verdict h))
        × (lib.has_system_error h ≡ is_broken (verdict h))
  outcome-eq-verdict [] = L.initial
  outcome-eq-verdict (call c ∷ h) = ground (arith, L.after_call c h, outcome-eq-verdict h)
  outcome-eq-verdict (new_task t n ∷ h) =
      ground (arith, L.after_new_task t n h, outcome-eq-verdict h)
  outcome-eq-verdict (succeed t m ∷ h) = ground (arith, L.after_succeed t m h, outcome-eq-verdict h)
  outcome-eq-verdict (complete_invalid t m ∷ h) =
      ground (arith, L.after_complete_invalid t m h, outcome-eq-verdict h)
  outcome-eq-verdict (validation_error t m l ∷ h) = L.after_validation_error t m l h
  outcome-eq-verdict (system_error t m l ∷ h) = L.after_system_error t m l h
  outcome-eq-verdict (set_content_error ∷ h) = L.after_set_content_error h
