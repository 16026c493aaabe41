-- ===== src/Cantons.antt =====
-- internal/cantons/parse.go: the scan of a METS file for the paths of its metadata files.
pub mod Document
pub mod Groups
pub mod Locations
use sfa_enduro_workflows.Base.{
  String, Bool, true, false, Option, none, some, List, [], ◌∷◌, ◌&&◌, ◌||◌, not, str_eq,
  if◌then◌else◌,
}

-- What encoding/xml's decoder returns, by local names.
pub data Token : Type 0 where
  start_element : String → List (String × String) → Token
  end_element : String → Token
  other_token : Token

-- The variables of Execute
pub record Scan : Type 0 where
  pub in_file_grp : Bool
  pub in_struct_map : Bool
  pub in_header_div : Bool
  pub in_md_div : Bool
  pub in_uamd_div : Bool
  pub current_file_id : String
  pub md_file_id : String
  pub uamd_file_id : String
  pub md_files : List (String × String)

-- getAttr
unfoldable pub get_attr : List (String × String) → String → String
get_attr [] name = ""
get_attr ((n, v) ∷ attrs) name = let rest = get_attr attrs name in if str_eq n name then v else rest

-- A key of the map; the newest entry stands first.
unfoldable pub lookup : String → List (String × String) → Option String
lookup key [] = none
lookup key ((k, v) ∷ entries) =
    let rest = lookup key entries in if str_eq k key then some v else rest

unfoldable pub start_div : String → Scan → Scan
start_div label s =
    if s.in_struct_map
    then (let header = if str_eq label "header" then true else s.in_header_div in
        record s {
          in_header_div = header;
          in_uamd_div = if str_eq label "UpdatedAreldaMetadata.xml" then true else s.in_uamd_div;
          in_md_div = if header && str_eq label "metadata.xml" then true else s.in_md_div;
        })
    else s

unfoldable pub start_fptr : String → Scan → Scan
start_fptr id s = record s {
  uamd_file_id = if s.in_uamd_div then id else s.uamd_file_id;
  md_file_id = if s.in_md_div then id else s.md_file_id;
}

-- The switch on the name of a start element
unfoldable pub start_tag : String → List (String × String) → Scan → Scan
unfolding start_div start_fptr get_attr
start_tag name attrs s =
    if str_eq name "fileGrp"
    then record s {
      in_file_grp =
          if str_eq (get_attr attrs "USE") "metadata" || str_eq (get_attr attrs "USE") "original"
          then true
          else s.in_file_grp;
    }
    else if str_eq name "file"
    then record s {
      current_file_id = if s.in_file_grp then get_attr attrs "ID" else s.current_file_id;
    }
    else if str_eq name "FLocat"
    then record s {
      md_files =
          if str_eq s.current_file_id ""
          then s.md_files
          else (s.current_file_id, get_attr attrs "href") ∷ s.md_files;
    }
    else if str_eq name "structMap"
    then record s {
      in_struct_map = if str_eq (get_attr attrs "TYPE") "physical" then true else s.in_struct_map;
    }
    else if str_eq name "div"
    then start_div (get_attr attrs "LABEL") s
    else if str_eq name "fptr"
    then start_fptr (get_attr attrs "FILEID") s
    else s

-- The switch on the name of an end element
unfoldable pub end_tag : String → Scan → Scan
end_tag name s =
    if str_eq name "fileGrp"
    then record s { in_file_grp = false }
    else if str_eq name "file"
    then record s { current_file_id = "" }
    else if str_eq name "structMap"
    then record s { in_struct_map = false }
    else if str_eq name "div"
    then record s { in_header_div = false; in_uamd_div = false; in_md_div = false }
    else s

unfoldable pub step : Token → Scan → Scan
unfolding start_tag end_tag
step (start_element name attrs) s = start_tag name attrs s
step (end_element name) s = end_tag name s
step other_token s = s

unfoldable pub scan : List Token → Scan → Scan
unfolding step
scan [] s = s
scan (t ∷ ts) s = scan ts (step t s)

abbrev pub initial : Scan
initial = record {
  in_file_grp = false;
  in_struct_map = false;
  in_header_div = false;
  in_md_div = false;
  in_uamd_div = false;
  current_file_id = "";
  md_file_id = "";
  uamd_file_id = "";
  md_files = [];
}

-- ParseActivityResult
pub record ParseActivityResult : Type 0 where
  pub updated_arelda_metadata_rel_path : String
  pub metadata_rel_path : String

abbrev pub or_empty : Option String → String
or_empty none = ""
or_empty (some path) = path

unfoldable pub result : Scan → ParseActivityResult
unfolding lookup
result s = record {
  updated_arelda_metadata_rel_path = or_empty (lookup s.uamd_file_id s.md_files);
  metadata_rel_path = or_empty (lookup s.md_file_id s.md_files);
}

-- Execute, of the tokens of a well-formed file
unfoldable pub parse : List Token → ParseActivityResult
unfolding scan result
parse tokens = result (scan tokens initial)
