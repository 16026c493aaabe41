-- ===== src/Tests/Packages.antt =====
-- A package on a disk, as New reads it.
use sfa_enduro_workflows.Base.{◌≡◌, refl, String, none, some, List, [], ◌∷◌, str_eq, if◌then◌else◌}
use sfa_enduro_workflows.FilePath.{join}
use sfa_enduro_workflows.Disk.{
  file, folder, end, entry, Disk, file_exists, find_filename, walk, visits,
}
use sfa_enduro_workflows.Sip.{new, as_digitized_sip}

-- A digitized SIP at /sip
abbrev disk : Disk
disk path =
    if str_eq path "/sip"
    then some (
        folder "sip" (
          entry (folder "header" (entry (file "metadata.xml") end))
            (entry (file "Prozess_Digitalisierung_PREMIS.xml") end)))
    else none

abbrev found_paths : List String
found_paths = "/sip/Prozess_Digitalisierung_PREMIS.xml" ∷ []

found : find_filename disk "/sip" "Prozess_Digitalisierung_PREMIS.xml" ≡ some found_paths
unfolding find_filename walk join visits
found = refl

accepted : new disk "/sip" ≡ some (as_digitized_sip "/sip")
unfolding new find_filename walk join file_exists visits
accepted = refl
