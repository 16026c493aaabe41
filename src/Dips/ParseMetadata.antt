-- ===== src/Dips/ParseMetadata.antt =====
-- internal/dips/activities/parse_metadata.go: the files of the export of a document, and where the
-- AIPs keep them. The decoding of XML is a parameter.
pub mod Locations
pub mod Matching
use sfa_enduro_workflows.Base.{
  String, ◌<>◌, Bool, true, false, not, ◌&&◌, ◌||◌, Option, none, some, List, [], ◌∷◌, ◌++◌, map,
  str_eq, if◌then◌else◌, contains, is_empty, add, join_texts, trim_prefix, Answer, answer, error,
  panic, ◌>>=◌, wrap,
}
use sfa_enduro_workflows.FilePath.{join}
use sfa_enduro_workflows.Manifest.Verify.{Reading, cannot_open, cannot_copy, read_all}

-- datatypes.File; the UUID and the path of the AIP are empty until they are found.
pub record File : Type 0 where
  pub datei_id : String
  pub dip_path : String
  pub checksum : String
  pub checksum_algorithm : String
  pub aip_uuid : String
  pub aip_path : String

pub record ExportFile : Type 0 where
  pub id : String
  pub name : String
  pub checksum : String
  pub checksum_algorithm : String

-- exportFolder: name, files and folders
mutual
  pub data ExportFolder : Type 0 where
    folder : String → List ExportFile → ExportFolders → ExportFolder

  pub data ExportFolders : Type 0 where
    no_folders : ExportFolders
    and_folder : ExportFolder → ExportFolders → ExportFolders

-- A token of a METS file: ctx.Err() before it, an error of the decoder, a PREMIS object that is not
-- decoded, one with its identifiers (type and value) and its original name, or another token. The end
-- of the list is io.EOF.
pub data MetsToken : Type 0 where
  cancelled broken object_broken : String → MetsToken
  object : List (String × String) → String → MetsToken
  other_token : MetsToken

pub record Aip : Type 0 where
  pub uuid : String
  pub dir_name : String
  pub mets : Reading (List MetsToken)

pub record ParseResult : Type 0 where
  pub content_files : List File
  pub header_files : List File

abbrev pub file_at : String → ExportFile → File
file_at folder_path f = record {
  datei_id = f.id;
  dip_path = join (folder_path ∷ f.name ∷ []);
  checksum = f.checksum;
  checksum_algorithm = f.checksum_algorithm;
  aip_uuid = "";
  aip_path = "";
}

-- appendExportFiles
unfoldable mutual
  pub append_export_files : List File → ExportFolder → String → List File
  append_export_files files (folder name fs folders) parent =
      append_folders (files ++ map (file_at (join (parent ∷ name ∷ []))) fs) folders
        (join (parent ∷ name ∷ []))

  pub append_folders : List File → ExportFolders → String → List File
  append_folders files no_folders parent = files
  append_folders files (and_folder f fs) parent =
      append_folders (append_export_files files f parent) fs parent

-- One folder of the export
unfoldable pub take_folder : ExportFolder → ParseResult → ParseResult
unfolding append_export_files
take_folder (folder name fs folders) r =
    if str_eq name "content"
    then record r {
      content_files = append_export_files r.content_files (folder name fs folders) "";
    }
    else if str_eq name "header"
    then record r { header_files = append_export_files r.header_files (folder name fs folders) "" }
    else r

-- The loop of parseExport
unfoldable pub take_folders : ExportFolders → ParseResult → ParseResult
unfolding take_folder
take_folders no_folders r = r
take_folders (and_folder f fs) r = take_folders fs (take_folder f r)

-- parseExport
unfoldable pub parse_export : Reading ExportFolders → Answer ParseResult
unfolding take_folders
parse_export (cannot_open e) = error ("open ACTApro export: " <> e)
parse_export (cannot_copy e) = error ("parse ACTApro export: " <> e)
parse_export (read_all folders) =
    answer (take_folders folders (record { content_files = []; header_files = [] }))

-- `unmatched`, by its keys, and the files that it points to: a key points to the last file with the ID.
pub record State : Type 0 where
  pub unmatched : List String
  pub files : List File

unfoldable pub ids_of : List File → List String
unfolding add
ids_of [] = []
ids_of (f ∷ fs) = add f.datei_id (ids_of fs)

abbrev pub has_datei : String → List File → Bool
has_datei id [] = false
has_datei id (f ∷ fs) = str_eq f.datei_id id || has_datei id fs

-- The change of the file that the key points to
unfoldable pub assign : String → String → String → List File → List File
assign id uuid path [] = []
assign id uuid path (f ∷ fs) =
    let later = assign id uuid path fs in
    if has_datei id fs
    then f ∷ later
    else if str_eq f.datei_id id
    then record f { aip_uuid = uuid; aip_path = path } ∷ fs
    else f ∷ fs

-- delete
unfoldable pub without_id : String → List String → List String
without_id id [] = []
without_id id (x ∷ xs) = let rest = without_id id xs in if str_eq x id then rest else x ∷ rest

-- `stop` returns from matchMETS.
pub data Next : Type 0 where
  go_on stop : State → Next

-- The loop over the identifiers of an object
unfoldable pub match_ids : String → String → List (String × String) → State → Next
unfolding assign without_id
match_ids uuid path [] s = go_on s
match_ids uuid path ((type, value) ∷ ids) s =
    let passed = match_ids uuid path ids s in
    let unmatched = without_id value s.unmatched in
    let found : State = record { unmatched = unmatched; files = assign value uuid path s.files } in
    let matched = match_ids uuid path ids found in
    if str_eq type "local" && contains s.unmatched value
    then (if is_empty unmatched then stop found else matched)
    else passed

-- The tokens of the loop of matchMETS
unfoldable pub match_tokens : String → String → List MetsToken → State → Answer State
unfolding match_ids trim_prefix
match_tokens uuid dir_name [] s = answer s
match_tokens uuid dir_name (cancelled e ∷ ts) s = error e
match_tokens uuid dir_name (broken e ∷ ts) s = error ("parse METS: " <> e)
match_tokens uuid dir_name (object_broken e ∷ ts) s = error ("parse METS object: " <> e)
match_tokens uuid dir_name (other_token ∷ ts) s = match_tokens uuid dir_name ts s
match_tokens uuid dir_name (object ids original_name ∷ ts) s =
    let aip_path = trim_prefix "%transferDirectory%" original_name in
    if str_eq aip_path ""
    then match_tokens uuid dir_name ts s
    else elim (match_ids uuid (join (dir_name ∷ aip_path ∷ [])) ids s) [
      | stop s' ↦ answer s'
      | go_on s' ↦ match_tokens uuid dir_name ts s'
    ]

-- matchMETS
unfoldable pub match_mets : Aip → State → Answer State
unfolding match_tokens
match_mets a s = elim a.mets [
  | cannot_open e ↦ error ("open METS: " <> e)
  | cannot_copy e ↦ error ("parse METS: " <> e)
  | read_all ts ↦ match_tokens a.uuid a.dir_name ts s
]

-- The loop over the AIPs
unfoldable pub match_aips : List Aip → State → Answer State
unfolding match_mets
match_aips [] s = answer s
match_aips (a ∷ aips) s =
    if is_empty s.unmatched
    then answer s
    else (wrap ("parse DIP metadata: AIP " <> (a.uuid <> ": ")) (match_mets a s) >>= λ s'.
        match_aips aips s')

unfoldable pub missing : List String → List File → List String
missing unmatched [] = []
missing unmatched (f ∷ fs) =
    let rest = missing unmatched fs in
    if contains unmatched f.datei_id
    then (f.datei_id <> (" (" <> (f.dip_path <> ")"))) ∷ rest
    else rest

-- Behind the loop
unfoldable pub all_matched : List File → State → Answer ParseResult
unfolding missing
all_matched header_files s =
    if is_empty s.unmatched
    then answer (record { content_files = s.files; header_files = header_files })
    else error ("files not found in AIP METS:\n" <> join_texts "\n" (missing s.unmatched s.files))

-- ParseMetadata.Execute
unfoldable pub parse_metadata : Reading ExportFolders → List Aip → Answer ParseResult
unfolding parse_export match_aips all_matched ids_of
parse_metadata export aips = wrap "parse DIP metadata: " (parse_export export) >>= λ r.
    match_aips aips (record { unmatched = ids_of r.content_files; files = r.content_files })
    >>= λ s. all_matched r.header_files s
