-- ===== src/Tests/Formats.antt =====
-- The validation of a package with one PDF/A file.
use sfa_enduro_workflows.Base.{
  ℕ, ◌≡◌, refl, String, Option, none, some, [], ◌∷◌, str_eq, if◌then◌else◌,
}
use sfa_enduro_workflows.FilePath.{join}
use sfa_enduro_workflows.Disk.{Disk, file, folder, end, entry, visits, walk, file_exists}
use sfa_enduro_workflows.Sip.{as_digitized_sip}
use sfa_enduro_workflows.Formats.{
  valid, invalid, other_error, Execution, exited, verapdf, verapdf_validate, validate_files,
}

abbrev disk : Disk
disk path =
    if str_eq path "/sip/content" then some (folder "content" (entry (file "a.pdf") end)) else none

abbrev identifier : String → Option String
identifier path = if str_eq path "/sip/content/a.pdf" then some "fmt/95" else none

abbrev exits : ℕ → String → Execution
exits code path = exited code

invalid_file :
    validate_files identifier (verapdf "verapdf" disk (exits 1) ∷ []) disk (as_digitized_sip "/sip")
    ≡ valid ("One or more PDF/A files are invalid" ∷ [])
unfolding validate_files verapdf_validate as_digitized_sip join walk visits file_exists
invalid_file = refl

failed_run :
    validate_files identifier (verapdf "verapdf" disk (exits 7) ∷ []) disk (as_digitized_sip "/sip")
    ≡ invalid (other_error "PDF/A validation failed with an application error")
unfolding validate_files verapdf_validate as_digitized_sip join walk visits file_exists
failed_run = refl

skipped :
    validate_files identifier (verapdf "" disk (exits 1) ∷ []) disk (as_digitized_sip "/sip")
    ≡ valid []
unfolding validate_files verapdf_validate as_digitized_sip join walk visits file_exists
skipped = refl
