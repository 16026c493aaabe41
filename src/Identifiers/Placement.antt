-- ===== src/Identifiers/Placement.antt =====
-- internal/activities/write_identifier_file.go: the paths of the files whose identifiers are written.
use sfa_enduro_workflows.Base.{
  ◌≡◌, String, Bool, false, not, ◌&&◌, ◌||◌, List, [], ◌∷◌, str_eq, starts_with, if◌then◌else◌,
  join_texts, split_at_byte,
}
use sfa_enduro_workflows.FilePath.Names.{AreNames}
use sfa_enduro_workflows.FilePath.Bases.{last_name}
use sfa_enduro_workflows.Manifest.{Files, Manifest}
use sfa_enduro_workflows.Identifiers.Conversion.{is_id}

-- The names on the way to a file in the transformed package called `name`, from those in the manifest;
-- no names if its identifier is left out.
abbrev pub target : String → List String → List String
target name [] = []
target name (x ∷ xs) =
    if str_eq (last_name x xs) "UpdatedAreldaMetadata.xml"
    then "metadata" ∷ "UpdatedAreldaMetadata.xml" ∷ []
    else if str_eq (last_name x xs) "metadata.xml"
    then "objects" ∷ name ∷ "header" ∷ "metadata.xml" ∷ []
    else if starts_with (join_texts "/" (x ∷ xs)) "content"
    then "objects" ∷ name ∷ x ∷ xs
    else []

-- The manifest gives the identifier to a file whose path in the package is `p`.
abbrev pub places : String → Files → String → String → Bool
places name [] p i = false
places name ((path, f) ∷ m) p i =
    (not (str_eq p "")
      && (str_eq (join_texts "/" (target name (split_at_byte b'/' path))) p && is_id f i))
    || places name m p i

-- A path of plain names
abbrev pub IsPlain : String → Type 0
IsPlain path =
    (x : String) × (xs : List String) × AreNames (x ∷ xs) × (path ≡ join_texts "/" (x ∷ xs))

abbrev pub ArePlain : Files → Type 0
ArePlain [] = Unit {0}
ArePlain ((path, f) ∷ m) = IsPlain path × ArePlain m
