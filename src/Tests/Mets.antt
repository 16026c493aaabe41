-- ===== src/Tests/Mets.antt =====
-- METS files, and the theorem at one of them.
use sfa_enduro_workflows.Base.{◌≡◌, refl, List, [], ◌∷◌, ◌++◌}
use sfa_enduro_workflows.Cantons.{Token, start_element, end_element, parse}
use sfa_enduro_workflows.Cantons.Document.{Document, leaf, folder, last, emit, described}
use sfa_enduro_workflows.Cantons.Locations.{parse-described}

abbrev file_section : List Token
file_section =
    start_element "fileGrp" (("USE", "metadata") ∷ [])
    ∷ start_element "file" (("ID", "file-1") ∷ [])
    ∷ start_element "FLocat" (("href", "objects/header/metadata.xml") ∷ [])
    ∷ end_element "FLocat"
    ∷ end_element "file"
    ∷ end_element "fileGrp"
    ∷ []

abbrev metadata_div : List Token
metadata_div =
    start_element "div" (("LABEL", "metadata.xml") ∷ [])
    ∷ start_element "fptr" (("FILEID", "file-1") ∷ [])
    ∷ end_element "fptr"
    ∷ end_element "div"
    ∷ []

-- The header's div, whose first children are given.
abbrev mets : List Token → List Token
mets children =
    file_section
    ++ (start_element "structMap" (("TYPE", "physical") ∷ [])
          ∷ start_element "div" (("LABEL", "header") ∷ [])
          ∷ children
        ++ metadata_div
        ++ (end_element "div" ∷ end_element "structMap" ∷ []))

located : (parse (mets [])).metadata_rel_path ≡ "objects/header/metadata.xml"
unfolding parse
located = refl

-- A directory that stands before metadata.xml hides it.
hidden :
    (parse (
      mets
        (start_element "div" (("LABEL", "xsd") ∷ []) ∷ end_element "div" ∷ []))).metadata_rel_path
    ≡ ""
unfolding parse
hidden = refl

-- Both files, among others of the same names, and a group and a map that do not count
abbrev document : Document
document = record {
  groups =
      (
        "original",
        ("f1", "objects/header/metadata.xml") ∷ ("f2", "objects/content/metadata.xml") ∷ [],
      )
      ∷ ("metadata", ("f3", "metadata/UpdatedAreldaMetadata.xml") ∷ [])
      ∷ ("submissionDocumentation", ("f1", "objects/other.xml") ∷ [])
      ∷ [];
  maps =
      (
        "physical",
        folder "objects"
            (folder "content" (leaf "metadata.xml" "f2" last)
              (folder "header" (leaf "metadata.xml" "f1" (folder "xsd" last last)) last))
            (folder "metadata" (leaf "UpdatedAreldaMetadata.xml" "f3" last) last),
      )
      ∷ ("logical", leaf "UpdatedAreldaMetadata.xml" "f2" last)
      ∷ [];
}

parse-described_example : parse (emit document) ≡ described document
parse-described_example = parse-described document (
  (refl, refl, (refl, refl, tt, (refl, refl, (refl, refl, tt, tt), tt)), (refl, refl, tt, tt)),
  (tt, tt),
)

both_found : described document ≡ record {
  updated_arelda_metadata_rel_path = "metadata/UpdatedAreldaMetadata.xml";
  metadata_rel_path = "objects/header/metadata.xml";
}
both_found = refl
