-- ===== src/Formats.antt =====
-- internal/fformat/fformat.go, internal/activities/validate_files.go and
-- internal/fvalidate/verapdf_validator.go: the formats of the files of a package, and their validation.
use sfa_enduro_workflows.Base.{
  ℕ, String, ◌<>◌, Bool, true, false, Option, none, some, List, [], ◌∷◌, ◌++◌, str_eq, ◌==◌,
  if◌then◌else◌, contains,
}
use sfa_enduro_workflows.Disk.{Disk, Visit, visited, failed, walk, file_exists}
use sfa_enduro_workflows.Sip.{Sip}

-- An error of a validator: a SystemError, by its message, or another
pub data ValidationError : Type 0 where
  system_error : String → ValidationError
  other_error : String → ValidationError

-- A result with an error that may be a SystemError
pub data Validation (A : Type 0) : Type 0 where
  valid : A → Validation A
  invalid : ValidationError → Validation A

infixl 5 ◌>>=◌
abbrev pub ◌>>=◌ : {A B : Type 0} → Validation A → (A → Validation B) → Validation B
valid a >>= f = f a
invalid e >>= f = invalid e

-- FileFormats, of which only the IDs are read: paths with the IDs
abbrev pub FileFormats : Type 0
FileFormats = List (String × String)

-- The callback of IdentifyFormats, for each call of the walk, where an error also stands for a context
-- that is cancelled. A file that is not identified is left out.
unfoldable pub identify : (String → Option String) → List Visit → Validation FileFormats
identify identifier [] = valid []
identify identifier (failed e ∷ rest) = invalid (other_error e)
identify identifier (visited path name true ∷ rest) = identify identifier rest
identify identifier (visited path name false ∷ rest) =
    let later = identify identifier rest in
    elim (identifier path) [
      | none ↦ later
      | some id ↦ later >>= λ formats. valid ((path, id) ∷ formats)
    ]

-- IdentifyFormats
unfoldable pub identify_formats : (String → Option String) → Disk → Sip → Validation FileFormats
unfolding identify
identify_formats identifier disk s = identify identifier (walk disk s.content_path)

-- fvalidate.Validator, with what the activity calls of it
pub record Validator : Type 0 where
  pub format_ids : List String
  -- Scope is TargetTypeDir.
  pub is_for_dir : Bool
  pub validate : String → Validation String

unfoldable pub can_validate : List String → FileFormats → Bool
can_validate allowed [] = false
can_validate allowed ((path, id) ∷ formats) =
    let rest = can_validate allowed formats in if contains allowed id then true else rest

-- validateDir
unfoldable pub validate_dir : Validator → String → FileFormats → Validation String
unfolding can_validate
validate_dir v path formats =
    if can_validate v.format_ids formats then v.validate path else valid ""

-- One round of the loop
unfoldable pub validate_with :
    Validator → Sip → FileFormats → List String → Validation (List String)
unfolding validate_dir
validate_with v s formats failures =
    if v.is_for_dir
    then (validate_dir v s.content_path formats >>= λ out.
        valid (if str_eq out "" then failures else failures ++ out ∷ []))
    else invalid (other_error "unsupported validator scope")

-- The loop of validateFiles
unfoldable pub validate_all :
    List Validator → Sip → FileFormats → List String → Validation (List String)
unfolding validate_with
validate_all [] s formats failures = valid failures
validate_all (v ∷ vs) s formats failures =
    validate_with v s formats failures >>= λ fs. validate_all vs s formats fs

-- What Execute returns for an error of validateFiles
abbrev pub user_error : ValidationError → ValidationError
user_error (system_error message) = other_error message
user_error (other_error e) = other_error ("validateFiles: " <> e)

abbrev pub wrap_formats : Validation FileFormats → Validation FileFormats
wrap_formats (valid formats) = valid formats
wrap_formats (invalid (system_error e)) = invalid (other_error ("identifyFormats: " <> e))
wrap_formats (invalid (other_error e)) = invalid (other_error ("identifyFormats: " <> e))

abbrev pub for_user : Validation (List String) → Validation (List String)
for_user (valid failures) = valid failures
for_user (invalid e) = invalid (user_error e)

-- ValidateFiles.Execute
unfoldable pub validate_files :
    (String → Option String) → List Validator → Disk → Sip → Validation (List String)
unfolding identify_formats validate_all
validate_files identifier validators disk s =
    wrap_formats (identify_formats identifier disk s) >>= λ formats.
    for_user (validate_all validators s formats [])

-- What running veraPDF gives: its output, an exit with a code, or another error
pub data Execution : Type 0 where
  ran : Execution
  exited : ℕ → Execution
  not_run : String → Execution

abbrev pub pdfa_puids : List String
pdfa_puids =
    "fmt/95" ∷ "fmt/354" ∷ "fmt/476" ∷ "fmt/477" ∷ "fmt/478" ∷ "fmt/479" ∷ "fmt/480" ∷ "fmt/481"
    ∷ "fmt/1910" ∷ "fmt/1911" ∷ "fmt/1912" ∷ []

-- Behind run
unfoldable pub take_execution : Execution → Validation String
take_execution ran = valid ""
take_execution (not_run e) = invalid (other_error e)
take_execution (exited code) =
    if code == 1
    then valid "One or more PDF/A files are invalid"
    else invalid (system_error "PDF/A validation failed with an application error")

-- veraPDFValidator.Validate
unfoldable pub verapdf_validate : String → Disk → (String → Execution) → String → Validation String
unfolding take_execution
verapdf_validate cmd disk run path =
    if str_eq cmd ""
    then valid ""
    else if file_exists disk path
    then take_execution (run path)
    else invalid (other_error ("validate: file not found: " <> path))

-- NewVeraPDFValidator
abbrev pub verapdf : String → Disk → (String → Execution) → Validator
verapdf cmd disk run = record {
  format_ids = pdfa_puids;
  is_for_dir = true;
  validate = verapdf_validate cmd disk run;
}
