-- ===== src/Disk.antt =====
-- The file system as the program reads it: trees, os.Stat, filepath.WalkDir, and
-- internal/fsutil/fsutil.go.
use sfa_enduro_workflows.Base.{
  String, ◌<>◌, Bool, true, false, Option, none, some, List, [], ◌∷◌, ◌++◌, str_eq, if◌then◌else◌,
}
use sfa_enduro_workflows.FilePath.{join}

-- The children of a directory stand in the order of `os.ReadDir`, by name. What `unreadable` stands
-- for makes the callback of `WalkDir` be called with an error.
mutual
  pub data Node : Type 0 where
    file : String → Node
    folder : String → Nodes → Node
    unreadable : String → Node

  pub data Nodes : Type 0 where
    end : Nodes
    entry : Node → Nodes → Nodes

-- `none` stands for a path at which `os.Stat` fails.
abbrev pub Disk : Type 0
Disk = String → Option Node

-- A call of the callback of `WalkDir`: path, name and `IsDir`, or the error.
pub data Visit : Type 0 where
  visited : String → String → Bool → Visit
  failed : String → Visit

unfoldable mutual
  pub visits : String → Node → List Visit
  visits path (file name) = visited path name false ∷ []
  visits path (folder name nodes) = visited path name true ∷ visits_below path nodes
  visits path (unreadable name) = failed ("open " <> path) ∷ []

  pub visits_below : String → Nodes → List Visit
  visits_below path end = []
  visits_below path (entry (file name) rest) =
      visits (join (path ∷ name ∷ [])) (file name) ++ visits_below path rest
  visits_below path (entry (folder name nodes) rest) =
      visits (join (path ∷ name ∷ [])) (folder name nodes) ++ visits_below path rest
  visits_below path (entry (unreadable name) rest) =
      visits (join (path ∷ name ∷ [])) (unreadable name) ++ visits_below path rest

-- The calls that a walk of `root` makes.
unfoldable pub walk : Disk → String → List Visit
walk disk root = elim (disk root) [
  | none ↦ failed ("lstat " <> root) ∷ []
  | some node ↦ visits root node
]

-- FileExists
unfoldable pub file_exists : Disk → String → Bool
file_exists disk path = elim (disk path) [ none ↦ false | some _ ↦ true ]

find_visits : String → List Visit → Option (List String)
find_visits name [] = some []
find_visits name (failed e ∷ rest) = none
find_visits name (visited path found_name is_dir ∷ rest) =
    let found = find_visits name rest in
    elim found [
      | none ↦ none
      | some paths ↦ some (if str_eq found_name name then path ∷ paths else paths)
    ]

-- FindFilename; `none` is an error of the walk.
unfoldable pub find_filename : Disk → String → String → Option (List String)
unfolding find_visits
find_filename disk root name = find_visits name (walk disk root)
