-- ===== src/Manifest.antt =====
-- internal/manifest/manifest.go: the parser of the metadata file that lists a package's files.
pub mod Document
pub mod Verify
use sfa_enduro_workflows.Base.{
  ℕ, zero, suc, String, ◌<>◌, Bool, true, false, Option, none, some, List, [], ◌∷◌, str_eq,
  if◌then◌else◌, contains,
}
use sfa_enduro_workflows.FilePath.{join, dir}

-- What encoding/xml's decoder returns, by local names: a token, or an error other than io.EOF. The
-- end of a list is io.EOF.
pub data Token : Type 0 where
  start_element : String → List (String × String) → Token
  end_element : String → Token
  char_data : String → Token
  other_token : Token
  broken : String → Token

pub record Checksum : Type 0 where
  pub algorithm : String
  pub hash : String

pub record File : Type 0 where
  pub id : String
  pub checksum : Checksum

-- The map from paths to files, of which some may be nil.
abbrev pub Files : Type 0
Files = List (String × Option File)

pub record Manifest : Type 0 where
  pub schema_version : String
  pub files : Files

-- A nil pointer that is dereferenced makes Parse panic.
pub data Outcome : Type 0 where
  parsed : Manifest → Outcome
  failed : String → Outcome
  panicked : Outcome

-- The variables of Parse; the newest open element stands first.
pub record State : Type 0 where
  pub file : Option File
  pub path : String
  pub open_elems : List String
  pub manifest : Manifest

abbrev pub relevant_elements : List String
relevant_elements =
    "paket" ∷ "inhaltsverzeichnis" ∷ "ordner" ∷ "datei" ∷ "name" ∷ "pruefalgorithmus" ∷ "pruefsumme"
    ∷ []

abbrev pub allowed_schema_versions : List String
allowed_schema_versions = "4.0" ∷ "5.0" ∷ []

-- An entry of the map is replaced in place.
unfoldable pub insert : String → Option File → Files → Files
insert k v [] = (k, v) ∷ []
insert k v ((j, w) ∷ m) = if str_eq j k then (k, v) ∷ m else (j, w) ∷ insert k v m

-- The first attribute of a name, or the given value
unfoldable pub attr_or : String → List (String × String) → String → String
attr_or default [] name = default
attr_or default ((n, v) ∷ attrs) name = if str_eq n name then v else attr_or default attrs name

-- What the loop does behind a token
pub data Next : Type 0 where
  go : State → Next
  -- An element that is irrelevant, by its name
  skip_element : String → State → Next
  stop : Outcome → Next

-- The case of xml.StartElement
unfoldable pub start_tag : String → List (String × String) → State → Next
unfolding attr_or
start_tag e attrs s =
    if contains relevant_elements e
    then go (
        if str_eq e "paket"
        then record s {
          manifest = record s.manifest {
            schema_version = attr_or s.manifest.schema_version attrs "schemaVersion";
          };
          open_elems = e ∷ s.open_elems;
        }
        else if str_eq e "datei"
        then record s {
          file = some (record {
            id = attr_or "" attrs "id";
            checksum = record { algorithm = ""; hash = "" };
          });
          open_elems = e ∷ s.open_elems;
        }
        else record s { open_elems = e ∷ s.open_elems })
    else skip_element e s

-- An end element that closes the newest open one, with the others
unfoldable pub close : String → List String → State → Next
unfolding insert
close e rest s =
    if str_eq e "datei"
    then go (record s {
      manifest = record s.manifest { files = insert s.path s.file s.manifest.files };
      file = none;
      path = dir s.path;
      open_elems = rest;
    })
    else if str_eq e "ordner"
    then go (record s { path = dir s.path; open_elems = rest })
    else if str_eq e "inhaltsverzeichnis"
    then stop (parsed s.manifest)
    else go (record s { open_elems = rest })

-- The case of xml.EndElement; with no open element the index is out of range.
unfoldable pub end_tag : String → List String → State → Next
unfolding close
end_tag e [] s = stop panicked
end_tag e (top ∷ rest) s = if str_eq e top then close e rest s else go s

set_checksum : (Checksum → Checksum) → Option File → State → Next
set_checksum change none s = stop panicked
set_checksum change (some f) s =
    go (record s { file = some (record f { checksum = change f.checksum }) })

-- The case of xml.CharData
unfoldable pub text : String → List String → State → Next
unfolding set_checksum
text t [] s = go s
text t (top ∷ rest) s =
    if str_eq top "name"
    then go (record s { path = join (s.path ∷ t ∷ []) })
    else if str_eq top "pruefalgorithmus"
    then set_checksum (λ c. record c { algorithm = t }) s.file s
    else if str_eq top "pruefsumme"
    then set_checksum (λ c. record c { hash = t }) s.file s
    else go s

unfoldable pub read_token : Token → State → Next
unfolding start_tag end_tag text
read_token (start_element e attrs) s = start_tag e attrs s
read_token (end_element e) s = end_tag e s.open_elems s
read_token (char_data t) s = text t s.open_elems s
read_token other_token s = go s
read_token (broken e) s = stop (failed ("parse: " <> e))

unfoldable mutual
  unfolding read_token

  -- The loop of Parse
  pub read : List Token → State → Outcome
  read [] s = parsed s.manifest
  read (t ∷ ts) s = elim (read_token t s) [
    | go s' ↦ read ts s'
    | skip_element e s' ↦ skip e 0 ts s'
    | stop o ↦ o
  ]

  -- decoder.Skip, at a depth below the element that is skipped, and then the loop again
  pub skip : String → ℕ → List Token → State → Outcome
  skip name depth [] s = failed ("skip irrelevant element " <> (name <> ": EOF"))
  skip name depth (start_element e attrs ∷ ts) s = skip name (suc depth) ts s
  skip name zero (end_element e ∷ ts) s = read ts s
  skip name (suc depth) (end_element e ∷ ts) s = skip name depth ts s
  skip name depth (broken e ∷ ts) s = failed ("skip irrelevant element " <> (name <> (": " <> e)))
  skip name depth (char_data t ∷ ts) s = skip name depth ts s
  skip name depth (other_token ∷ ts) s = skip name depth ts s

abbrev pub initial : State
initial = record {
  file = none;
  path = "";
  open_elems = [];
  manifest = record { schema_version = ""; files = [] };
}

-- Parse
unfoldable pub parse : List Token → Outcome
unfolding read skip
parse tokens = read tokens initial
