-- ===== src/Identifiers.antt =====
-- internal/pips/pips.go, internal/identifiers/identifiers.go and
-- internal/activities/write_identifier_file.go: the identifiers of the files of a transformed package.
pub mod Conversion
pub mod Placement
use sfa_enduro_workflows.Base.{
  String, ◌<>◌, Bool, true, false, not, Option, none, some, List, [], ◌∷◌, str_eq, starts_with,
  if◌then◌else◌, Answer, answer, error, panic, ◌>>=◌, wrap, text_leb,
}
use sfa_enduro_workflows.FilePath.{join, base}
use sfa_enduro_workflows.Enums.{SipType, digitized_aip, same_type}
use sfa_enduro_workflows.Sip.{Sip}
use sfa_enduro_workflows.Manifest.{Files, Manifest, Outcome, parsed, panicked, parse}
use sfa_enduro_workflows.Manifest.Verify.{Contents, Reading, cannot_open, cannot_copy, read_all}

-- PIP
pub record Pip : Type 0 where
  pub type : SipType
  pub path : String
  pub manifest_path : String

-- Name
abbrev pub pip_name : Pip → String
pip_name p = base p.path

-- New
unfoldable pub new_pip : String → SipType → Pip
new_pip path t = record {
  type = t;
  path = path;
  manifest_path =
      if same_type t digitized_aip
      then join (path ∷ "metadata" ∷ "UpdatedAreldaMetadata.xml" ∷ [])
      else join (path ∷ "objects" ∷ base path ∷ "header" ∷ "metadata.xml" ∷ []);
}

-- NewFromSIP
unfoldable pub new_from_sip : Sip → Pip
unfolding new_pip
new_from_sip s = new_pip s.path s.type

-- ConvertSIPPath
unfoldable pub convert_sip_path : Pip → String → String
convert_sip_path p path =
    if str_eq (base path) "UpdatedAreldaMetadata.xml"
    then join ("metadata" ∷ base path ∷ [])
    else if str_eq (base path) "metadata.xml"
    then join ("objects" ∷ pip_name p ∷ "header" ∷ base path ∷ [])
    else if starts_with path "content"
    then join ("objects" ∷ pip_name p ∷ path ∷ [])
    else ""

pub record Identifier : Type 0 where
  pub value : String
  pub type : String

pub record File : Type 0 where
  pub path : String
  pub identifiers : List Identifier

-- slices.SortFunc with Compare; which of two files of one path stands first is left open by Go.
unfoldable pub insert_file : File → List File → List File
insert_file f [] = f ∷ []
insert_file f (g ∷ gs) = if text_leb f.path g.path then f ∷ g ∷ gs else g ∷ insert_file f gs

unfoldable pub sort_files : List File → List File
unfolding insert_file
sort_files [] = []
sort_files (f ∷ fs) = insert_file f (sort_files fs)

abbrev pub with_id : String → String → File
with_id path id = record { path = path; identifiers = record { value = id; type = "local" } ∷ [] }

-- The loop of FromManifest; a file that is nil is dereferenced.
unfoldable pub identified : Files → Answer (List File)
identified [] = answer []
identified ((path, none) ∷ m) = panic
identified ((path, some f) ∷ m) = identified m >>= λ fs. answer (with_id path f.id ∷ fs)

-- FromManifest
unfoldable pub from_manifest : Manifest → Answer (List File)
unfolding identified sort_files
from_manifest m = elim m.files [
  | [] ↦ error "no files in manifest"
  | f ∷ fs ↦ identified (f ∷ fs) >>= λ found. answer (sort_files found)
]

-- The loop of pipIdentifiers
unfoldable pub converted : Pip → List File → List File
unfolding convert_sip_path
converted p [] = []
converted p (f ∷ fs) =
    let rest = converted p fs in
    let path = convert_sip_path p f.path in
    if str_eq path "" then rest else record f { path = path } ∷ rest

-- pipIdentifiers
unfoldable pub pip_identifiers : Pip → List File → List File
unfolding converted sort_files
pip_identifiers p ids = sort_files (converted p ids)

-- What opening the manifest and parsing it gives
unfoldable pub read_manifest : Contents → Pip → Answer Manifest
unfolding parse
read_manifest env p = elim (env.tokens p.manifest_path) [
  | cannot_open e ↦ error ("open manifest: " <> e)
  | cannot_copy e ↦ error ("parse: " <> e)
  | read_all ts ↦ (elim (parse ts) [
    | parsed m ↦ answer m
    | Outcome.failed e ↦ error e
    | panicked ↦ panic
  ])
]

-- The parameters are json.MarshalIndent and the error of os.WriteFile.
module _ (marshal : List File → Answer String) (write_error : Option String) where
  unfoldable pub write_file : String → String → Answer (String × String)
  write_file path text = elim write_error [
    | none ↦ answer (path, text)
    | some e ↦ error ("write identifiers.json: " <> e)
  ]

  -- write; the result is the path of the file with what is written to it.
  unfoldable pub write : Contents → Pip → Answer (String × String)
  unfolding read_manifest from_manifest pip_identifiers write_file
  write env p = read_manifest env p >>= λ m.
      wrap "get manifest identifiers: " (from_manifest m) >>= λ ids.
      wrap "marshal identifiers: " (marshal (pip_identifiers p ids)) >>= λ text.
      write_file (join (p.path ∷ "metadata" ∷ "identifiers.json" ∷ [])) text

  -- WriteIdentifierFileActivity.Execute
  unfoldable pub write_identifiers : Contents → Pip → Answer (String × String)
  unfolding write
  write_identifiers env p = wrap "write identifier file: " (write env p)
