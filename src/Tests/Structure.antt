-- ===== src/Tests/Structure.antt =====
-- A package, and the theorems on its structure at it.
use sfa_enduro_workflows.Base.{
  ◌≡◌, refl, String, true, false, none, some, List, [], ◌∷◌, str_eq, if◌then◌else◌, is_empty,
  answer, panic, quote,
}
use sfa_enduro_workflows.FilePath.{join, rel, dir, base}
use sfa_enduro_workflows.Disk.{file, folder, unreadable, end, entry, Disk, walk, visits}
use sfa_enduro_workflows.Sip.{Sip, as_digitized_sip}
use sfa_enduro_workflows.Structure.{Entry, execute}
use sfa_enduro_workflows.Structure.Scan.{located}
use sfa_enduro_workflows.Structure.Report.{is_well_laid, execute-is_well_laid, execute-panics}

abbrev structure_disk : Disk
structure_disk path =
    if str_eq path "/sip"
    then some (folder "sip" (entry (folder "content" end) (entry (file "a b") end)))
    else none

abbrev digitized : Sip
digitized = as_digitized_sip "/sip"

abbrev met : List Entry
met =
    record { path = "/sip"; name = "sip"; is_dir = true; relative = "." }
    ∷ record { path = "/sip/content"; name = "content"; is_dir = true; relative = "content" }
    ∷ record { path = "/sip/a b"; name = "a b"; is_dir = false; relative = "a b" }
    ∷ []

walked : located digitized (walk structure_disk digitized.path) ≡ some met
unfolding located walk visits as_digitized_sip join rel
walked = refl

execute-is_well_laid_example :
    (failures : List String) × (execute structure_disk digitized ≡ answer failures)
    × (is_empty failures ≡ is_well_laid digitized met)
execute-is_well_laid_example = execute-is_well_laid structure_disk digitized met walked

reported_failures :
    execute structure_disk digitized
    ≡ answer (
        "An empty directory has been found - content"
        ∷ "Please remove the empty directories and update the metadata manifest accordingly"
        ∷ "Name \"a b\" contains invalid character(s)" ∷ "metadata.xml is missing"
        ∷ "arelda.xsd is missing" ∷ [])
unfolding execute walk visits as_digitized_sip join rel dir quote base
reported_failures = refl

abbrev locked_disk : Disk
locked_disk path = if str_eq path "/sip" then some (unreadable "sip") else none

unwalked : located digitized (walk locked_disk digitized.path) ≡ none
unfolding located walk visits as_digitized_sip
unwalked = refl

execute-panics_example : execute locked_disk digitized ≡ panic
execute-panics_example = execute-panics locked_disk digitized unwalked
