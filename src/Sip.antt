-- ===== src/Sip.antt =====
-- internal/sip/sip.go: the package types, and where each keeps its files.
use sfa_enduro_workflows.Base.{
  String, ◌<>◌, Bool, Option, none, some, List, [], ◌∷◌, ◌||◌, if◌then◌else◌, is_empty,
}
use sfa_enduro_workflows.FilePath.{join, base}
use sfa_enduro_workflows.Enums.{
  SipType, digitized_aip, digitized_sip, born_digital_aip, born_digital_sip, same_type,
}
use sfa_enduro_workflows.Disk.{Disk, find_filename, file_exists}

pub record Sip : Type 0 where
  pub type : SipType
  pub path : String
  pub content_path : String
  pub logical_md_path : String
  pub manifest_path : String
  pub metadata_path : String
  pub updated_arelda_md_path : String
  pub xsd_path : String
  pub top_level_paths : List String

-- Name
unfoldable pub name : Sip → String
name s = base s.path

unfoldable pub as_digitized_aip : String → Sip
as_digitized_aip path = record {
  type = digitized_aip;
  path = path;
  content_path = join (path ∷ "content" ∷ "content" ∷ []);
  logical_md_path = join (path ∷ "additional" ∷ (base path <> "-premis.xml") ∷ []);
  manifest_path = join (path ∷ "additional" ∷ "UpdatedAreldaMetadata.xml" ∷ []);
  metadata_path = join (path ∷ "content" ∷ "header" ∷ "old" ∷ "SIP" ∷ "metadata.xml" ∷ []);
  updated_arelda_md_path = join (path ∷ "additional" ∷ "UpdatedAreldaMetadata.xml" ∷ []);
  xsd_path = join (path ∷ "content" ∷ "header" ∷ "xsd" ∷ "arelda.xsd" ∷ []);
  top_level_paths = join (path ∷ "content" ∷ []) ∷ join (path ∷ "additional" ∷ []) ∷ [];
}

unfoldable pub as_digitized_sip : String → Sip
as_digitized_sip path = record {
  type = digitized_sip;
  path = path;
  content_path = join (path ∷ "content" ∷ []);
  logical_md_path = "";
  manifest_path = join (path ∷ "header" ∷ "metadata.xml" ∷ []);
  metadata_path = join (path ∷ "header" ∷ "metadata.xml" ∷ []);
  updated_arelda_md_path = "";
  xsd_path = join (path ∷ "header" ∷ "xsd" ∷ "arelda.xsd" ∷ []);
  top_level_paths = join (path ∷ "content" ∷ []) ∷ join (path ∷ "header" ∷ []) ∷ [];
}

unfoldable pub as_born_digital_aip : String → Sip
as_born_digital_aip path = record (as_digitized_aip path) { type = born_digital_aip }

unfoldable pub as_born_digital_sip : String → Sip
as_born_digital_sip path = record (as_digitized_sip path) { type = born_digital_sip }

-- New; `none` is an error: the path is missing, or the walk below it fails.
unfoldable pub new : Disk → String → Option Sip
unfolding as_digitized_aip as_digitized_sip as_born_digital_aip as_born_digital_sip
new disk path =
    if file_exists disk path
    then elim (find_filename disk path "Prozess_Digitalisierung_PREMIS.xml") [
      | none ↦ none
      | some found ↦
          let additional = file_exists disk (join (path ∷ "additional" ∷ [])) in
          some (
            if is_empty found
            then if additional then as_born_digital_aip path else as_born_digital_sip path
            else if additional
            then as_digitized_aip path
            else as_digitized_sip path)
    ]
    else none

unfoldable pub is_aip : Sip → Bool
unfolding same_type
is_aip s = same_type s.type born_digital_aip || same_type s.type digitized_aip

unfoldable pub is_sip : Sip → Bool
unfolding same_type
is_sip s = same_type s.type born_digital_sip || same_type s.type digitized_sip

unfoldable pub is_digitized : Sip → Bool
unfolding same_type
is_digitized s = same_type s.type digitized_aip || same_type s.type digitized_sip
