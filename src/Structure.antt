-- ===== src/Structure.antt =====
-- internal/activities/validate_structure.go: the layout of a package, from a walk of its tree.
pub mod Scan
pub mod Directories
pub mod Report
use Prim.Native.Char.{code}
use sfa_enduro_workflows.Base.{
  ℕ, zero, suc, ◌+◌, String, ◌<>◌, Bool, true, false, not, ◌&&◌, ◌||◌, Option, none, some, List, [],
  ◌∷◌, ◌++◌, map, length, str_eq, ltb, ◌==◌, if◌then◌else◌, contains, is_empty, quote, Answer,
  answer, error, panic,
}
use sfa_enduro_workflows.FilePath.{join, base, dir, rel}
use sfa_enduro_workflows.Disk.{Disk, Visit, visited, failed, walk}
use sfa_enduro_workflows.Sip.{Sip, is_aip, is_digitized}

-- The struct `dir`
pub record Dir : Type 0 where
  pub path : String
  pub children : ℕ

pub record ValidationResult : Type 0 where
  pub dirs : List Dir
  pub dossier_count : ℕ
  pub file_count : ℕ
  pub invalid_names : List String
  pub has_content_dir : Bool
  pub has_arelda_file : Bool
  pub has_metadata_file : Bool
  pub has_updated_arelda_md_file : Bool
  pub has_logical_md_file : Bool
  pub extra_dirs : List String

abbrev pub no_result : ValidationResult
no_result = record {
  dirs = [];
  dossier_count = 0;
  file_count = 0;
  invalid_names = [];
  has_content_dir = false;
  has_arelda_file = false;
  has_metadata_file = false;
  has_updated_arelda_md_file = false;
  has_logical_md_file = false;
  extra_dirs = [];
}

has_char : String → ℕ → Bool
has_char String.[] c = false
has_char (String.◌∷◌ d s) c = code d == c || has_char s c

-- validateName; a byte that is not ASCII is no valid character.
unfoldable pub validate_name : String → Bool
unfolding has_char
validate_name String.[] = true
validate_name (String.◌∷◌ c s) =
    has_char "abcdefghijklmnopqrstuvwxyzABCDEFGHIJKLMNOPQRSTUVWXYZ0123456789-_.()" (code c)
    && validate_name s

-- A call of the callback without an error, with the relative path that filepath.Rel gives.
pub record Entry : Type 0 where
  pub path : String
  pub name : String
  pub is_dir : Bool
  pub relative : String

-- The first directory with the path has one more child.
unfoldable pub add_child : String → List Dir → List Dir
add_child parent [] = []
add_child parent (d ∷ ds) =
    if str_eq d.path parent
    then record d { children = d.children + 1 } ∷ ds
    else d ∷ add_child parent ds

unfoldable pub with_dir : Entry → List Dir → List Dir
with_dir e dirs = if e.is_dir then dirs ++ record { path = e.relative; children = 0 } ∷ [] else dirs

-- `if path == p { flag = true }`
abbrev pub flag : Entry → String → Bool → Bool
flag e p b = if str_eq e.path p then true else b

-- The checks of the callback that are skipped for the base path
unfoldable pub check_entry : Sip → Entry → ValidationResult → ValidationResult
unfolding add_child
check_entry s e r =
    let parent = dir e.relative in
    record r {
      dirs = add_child parent r.dirs;
      extra_dirs =
          if str_eq parent "." && (e.is_dir && not (contains s.top_level_paths e.path))
          then r.extra_dirs ++ e.relative ∷ []
          else r.extra_dirs;
      dossier_count =
          if str_eq (join (s.path ∷ parent ∷ [])) s.content_path && e.is_dir
          then r.dossier_count + 1
          else r.dossier_count;
      has_content_dir = flag e s.content_path r.has_content_dir;
      has_metadata_file = flag e s.metadata_path r.has_metadata_file;
      has_updated_arelda_md_file = flag e s.updated_arelda_md_path r.has_updated_arelda_md_file;
      has_logical_md_file = flag e s.logical_md_path r.has_logical_md_file;
      has_arelda_file = flag e s.xsd_path r.has_arelda_file;
    }

-- The checks of the callback for each path
unfoldable pub count_entry : Entry → ValidationResult → ValidationResult
unfolding validate_name with_dir
count_entry e r = record r {
  invalid_names =
      if validate_name e.name then r.invalid_names else r.invalid_names ++ e.relative ∷ [];
  dirs = with_dir e r.dirs;
  file_count = if e.is_dir then r.file_count else r.file_count + 1;
}

-- The callback, behind its errors
unfoldable pub note : Sip → Entry → ValidationResult → ValidationResult
unfolding check_entry count_entry
note s e r = if str_eq e.path s.path then count_entry e r else check_entry s e (count_entry e r)

-- The walk, from its calls of the callback; an error ends it.
unfoldable pub scan : Sip → List Visit → ValidationResult → Answer ValidationResult
unfolding note
scan s [] r = answer r
scan s (failed e ∷ rest) r = error ("ValidateStructure: " <> e)
scan s (visited path name is_dir ∷ rest) r = elim (rel s.path path) [
  | none ↦ error "ValidateStructure: relative path"
  | some relative ↦
      scan s rest
        (note s (record { path = path; name = name; is_dir = is_dir; relative = relative }) r)
]

-- validateStructure
unfoldable pub validate_structure : Disk → Sip → Answer ValidationResult
unfolding scan
validate_structure disk s = scan s (walk disk s.path) no_result

-- The messages of the directories without children
unfoldable pub empty_dirs : List Dir → List String
empty_dirs [] = []
empty_dirs (d ∷ ds) =
    let rest = empty_dirs ds in
    if d.children == 0 then ("An empty directory has been found - " <> d.path) ∷ rest else rest

abbrev pub and_advice : List String → List String
and_advice [] = []
and_advice (m ∷ ms) =
    (m ∷ ms)
    ++ "Please remove the empty directories and update the metadata manifest accordingly" ∷ []

-- One message, unless a thing is there
abbrev pub unless : Bool → String → List String
unless there message = if there then [] else message ∷ []

unfoldable pub aip_failures : ValidationResult → Sip → List String
aip_failures r s =
    unless r.has_updated_arelda_md_file (base s.updated_arelda_md_path <> " is missing")
    ++ unless r.has_logical_md_file (base s.logical_md_path <> " is missing")

unfoldable pub other_failures : ValidationResult → Sip → List String
unfolding empty_dirs aip_failures is_aip is_digitized
other_failures r s =
    and_advice (empty_dirs r.dirs)
    ++ (map (λ p. "Name " <> (quote p <> " contains invalid character(s)")) r.invalid_names
        ++ (unless r.has_content_dir "Content folder is missing"
            ++ (unless r.has_metadata_file (base s.metadata_path <> " is missing")
                ++ (unless r.has_arelda_file "arelda.xsd is missing"
                    ++ ((if is_aip s then aip_failures r s else [])
                        ++ (map (λ p. "Unexpected directory: " <> quote p) r.extra_dirs
                            ++ (if is_digitized s && ltb 1 r.dossier_count
                                then "More than one dossier in the content directory" ∷ []
                                else [])))))))

-- reportFailures
unfoldable pub report_failures : ValidationResult → Sip → List String
unfolding other_failures
report_failures r s =
    if length r.dirs == 1 && r.file_count == 0 then "The SIP is empty" ∷ [] else other_failures r s

-- ValidateStructure.Execute; the result that goes with an error is nil, and reportFailures reads it.
unfoldable pub execute : Disk → Sip → Answer (List String)
unfolding validate_structure report_failures
execute disk s = elim (validate_structure disk s) [
  | answer r ↦ answer (report_failures r s)
  | error e ↦ panic
  | panic ↦ panic
]
