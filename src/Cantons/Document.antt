-- ===== src/Cantons/Document.antt =====
-- internal/cantons/parse.go: METS files, with their tokens, and where the metadata files are in them.
use sfa_enduro_workflows.Base.{
  ◌≡◌, String, Bool, false, not, List, [], ◌∷◌, ◌&&◌, ◌||◌, str_eq, if◌then◌else◌,
}
use sfa_enduro_workflows.Cantons.{Token, start_element, end_element, ParseActivityResult}

-- The files of a group of the file section, by ID and location.
abbrev pub Files : Type 0
Files = List (String × String)

-- The divisions of a structural map: a file has the ID of its entry in the file section, and a folder
-- has further divisions.
pub data Divs : Type 0 where
  last : Divs
  leaf : String → String → Divs → Divs
  folder : String → Divs → Divs → Divs

-- The groups with their uses, and the structural maps with their types.
pub record Document : Type 0 where
  pub groups : List (String × Files)
  pub maps : List (String × Divs)

-- The tokens, in front of others

unfoldable pub emit_files : Files → List Token → List Token
emit_files [] ts = ts
emit_files ((id, href) ∷ fs) ts =
    start_element "file" (("ID", id) ∷ [])
    ∷ start_element "FLocat" (("href", href) ∷ [])
    ∷ end_element "FLocat"
    ∷ end_element "file"
    ∷ emit_files fs ts

unfoldable pub emit_groups : List (String × Files) → List Token → List Token
emit_groups [] ts = ts
emit_groups ((purpose, fs) ∷ gs) ts =
    start_element "fileGrp" (("USE", purpose) ∷ [])
    ∷ emit_files fs (end_element "fileGrp" ∷ emit_groups gs ts)

unfoldable pub emit_divs : Divs → List Token → List Token
emit_divs last ts = ts
emit_divs (leaf label id rest) ts =
    start_element "div" (("LABEL", label) ∷ [])
    ∷ start_element "fptr" (("FILEID", id) ∷ [])
    ∷ end_element "fptr"
    ∷ end_element "div"
    ∷ emit_divs rest ts
emit_divs (folder label inner rest) ts =
    start_element "div" (("LABEL", label) ∷ [])
    ∷ emit_divs inner (end_element "div" ∷ emit_divs rest ts)

unfoldable pub emit_maps : List (String × Divs) → List Token → List Token
emit_maps [] ts = ts
emit_maps ((type, ds) ∷ ms) ts =
    start_element "structMap" (("TYPE", type) ∷ [])
    ∷ emit_divs ds (end_element "structMap" ∷ emit_maps ms ts)

abbrev pub emit : Document → List Token
emit d = emit_groups d.groups (emit_maps d.maps [])

-- No folder has the name of one of the two metadata files.
abbrev pub FoldersArePlain : Divs → Type 0
FoldersArePlain last = Unit {0}
FoldersArePlain (leaf label id rest) = FoldersArePlain rest
FoldersArePlain (folder label inner rest) =
    (str_eq label "UpdatedAreldaMetadata.xml" ≡ false)
    × (str_eq label "metadata.xml" ≡ false)
    × FoldersArePlain inner
    × FoldersArePlain rest

abbrev pub MapsArePlain : List (String × Divs) → Type 0
MapsArePlain [] = Unit {0}
MapsArePlain ((type, ds) ∷ ms) = FoldersArePlain ds × MapsArePlain ms

-- Where the files are: each function takes what was found before.

-- The location of the last file with the ID
abbrev pub located_in : String → Files → String → String
located_in key [] before = before
located_in key ((id, href) ∷ fs) before =
    located_in key fs (if str_eq id key && not (str_eq id "") then href else before)

abbrev pub is_listed : String → Bool
is_listed purpose = str_eq purpose "metadata" || str_eq purpose "original"

abbrev pub located : String → List (String × Files) → String → String
located key [] before = before
located key ((purpose, fs) ∷ gs) before =
    located key gs (if is_listed purpose then located_in key fs before else before)

-- The ID of the last file that has the name UpdatedAreldaMetadata.xml
abbrev pub updated_in : Divs → String → String
updated_in last before = before
updated_in (leaf label id rest) before =
    updated_in rest (if str_eq label "UpdatedAreldaMetadata.xml" then id else before)
updated_in (folder label inner rest) before = updated_in rest (updated_in inner before)

-- The ID of the file that stands before all that ends, if its name is metadata.xml.
abbrev pub first_in : Divs → String → String
first_in last before = before
first_in (leaf label id rest) before = if str_eq label "metadata.xml" then id else before
first_in (folder label inner rest) before = first_in inner before

-- The ID of metadata.xml in the last folder `header` that has it in front
abbrev pub header_in : Divs → String → String
header_in last before = before
header_in (leaf label id rest) before = header_in rest before
header_in (folder label inner rest) before =
    header_in rest
      (header_in inner (if str_eq label "header" then first_in inner before else before))

abbrev pub in_maps : (Divs → String → String) → List (String × Divs) → String → String
in_maps find [] before = before
in_maps find ((type, ds) ∷ ms) before =
    in_maps find ms (if str_eq type "physical" then find ds before else before)

abbrev pub described : Document → ParseActivityResult
described d = record {
  updated_arelda_metadata_rel_path = located (in_maps updated_in d.maps "") d.groups "";
  metadata_rel_path = located (in_maps header_in d.maps "") d.groups "";
}
