-- ===== src/Manifest/Document.antt =====
-- Metadata files as trees, with the tokens that they are written in, and the files that they list.
pub mod Skipping
pub mod RoundTrip
use sfa_enduro_workflows.Base.{
  ◌≡◌, String, ◌<>◌, Bool, true, false, Option, none, some, List, [], ◌∷◌, ◌++◌, contains,
  join_texts,
}
use sfa_enduro_workflows.FilePath.Names.{is_name}
use sfa_enduro_workflows.Manifest.{
  Token, start_element, end_element, char_data, other_token, File, Files, Manifest, insert, attr_or,
  relevant_elements,
}

abbrev pub Attributes : Type 0
Attributes = List (String × String)

-- Any well-formed content of an element.
pub data Content : Type 0 where
  nothing : Content
  words : String → Content → Content
  comment : Content → Content
  element : String → Attributes → Content → Content → Content

-- The tokens of a content, with those behind it
unfoldable pub emit_content : Content → List Token → List Token
emit_content nothing ts = ts
emit_content (words t c) ts = char_data t ∷ emit_content c ts
emit_content (comment c) ts = other_token ∷ emit_content c ts
emit_content (element e attrs inner c) ts =
    start_element e attrs ∷ emit_content inner (end_element e ∷ emit_content c ts)

-- No element of the content itself is a relevant one; below them there may be any.
abbrev pub IsIrrelevant : Content → Type 0
IsIrrelevant nothing = Unit {0}
IsIrrelevant (words t c) = IsIrrelevant c
IsIrrelevant (comment c) = IsIrrelevant c
IsIrrelevant (element e attrs inner c) = (contains relevant_elements e ≡ false) × IsIrrelevant c

-- What a datei holds
pub record Datei : Type 0 where
  pub attributes : Attributes
  pub before_name : Content
  pub name : String
  pub before_algorithm : Content
  pub algorithm : String
  pub before_hash : Content
  pub hash : String
  pub after_hash : Content

-- The entries of the inhaltsverzeichnis or of an ordner, each behind content that is irrelevant.
pub data Entries : Type 0 where
  last : Content → Entries
  ordner : Content → Content → String → Entries → Entries → Entries
  datei : Content → Datei → Entries → Entries

-- An element that holds a text only
abbrev pub emit_text : String → String → List Token → List Token
emit_text e t ts = start_element e [] ∷ char_data t ∷ end_element e ∷ ts

abbrev pub emit_datei : Datei → List Token → List Token
emit_datei d ts =
    start_element "datei" d.attributes
    ∷ emit_content d.before_name (
        emit_text "name" d.name (
          emit_content d.before_algorithm (
            emit_text "pruefalgorithmus" d.algorithm (
              emit_content d.before_hash (
                emit_text "pruefsumme" d.hash
                  (emit_content d.after_hash (end_element "datei" ∷ ts)))))))

unfoldable pub emit_entries : Entries → List Token → List Token
unfolding emit_content
emit_entries (last c) ts = emit_content c ts
emit_entries (ordner c inside name inner rest) ts = emit_content c (
    start_element "ordner" []
    ∷ emit_content inside
        (emit_text "name" name (emit_entries inner (end_element "ordner" ∷ emit_entries rest ts))))
emit_entries (datei c d rest) ts = emit_content c (emit_datei d (emit_entries rest ts))

-- A whole file, up to the end of the inhaltsverzeichnis
pub record Document : Type 0 where
  pub prolog : Content
  pub attributes : Attributes
  pub header : Content
  pub entries : Entries

unfoldable pub emit : Document → List Token → List Token
unfolding emit_content emit_entries
emit d ts = emit_content d.prolog (
    start_element "paket" d.attributes
    ∷ emit_content d.header (
        start_element "inhaltsverzeichnis" []
        ∷ emit_entries d.entries (end_element "inhaltsverzeichnis" ∷ ts)))

abbrev pub DateiIsPlain : Datei → Type 0
DateiIsPlain d =
    (is_name d.name ≡ true)
    × IsIrrelevant d.before_name
    × IsIrrelevant d.before_algorithm
    × IsIrrelevant d.before_hash
    × IsIrrelevant d.after_hash

-- Each ordner and datei has a plain name.
abbrev pub IsPlain : Entries → Type 0
IsPlain (last c) = IsIrrelevant c
IsPlain (ordner c inside name inner rest) =
    IsIrrelevant c × IsIrrelevant inside × (is_name name ≡ true) × IsPlain inner × IsPlain rest
IsPlain (datei c d rest) = IsIrrelevant c × DateiIsPlain d × IsPlain rest

abbrev pub DocumentIsPlain : Document → Type 0
DocumentIsPlain d = IsIrrelevant d.prolog × IsIrrelevant d.header × IsPlain d.entries

unfoldable pub file_of : Datei → File
unfolding attr_or
file_of d = record {
  id = attr_or "" d.attributes "id";
  checksum = record { algorithm = d.algorithm; hash = d.hash };
}

-- What the entries below the directories `dirs` add to the files.
unfoldable pub add_entries : List String → Entries → Files → Files
unfolding insert file_of
add_entries dirs (last c) m = m
add_entries dirs (ordner c inside name inner rest) m =
    add_entries dirs rest (add_entries (dirs ++ name ∷ []) inner m)
add_entries dirs (datei c d rest) m =
    add_entries dirs rest (insert (join_texts "/" (dirs ++ d.name ∷ [])) (some (file_of d)) m)

-- The manifest that the document describes
unfoldable pub manifest_of : Document → Manifest
unfolding add_entries attr_or
manifest_of d = record {
  schema_version = attr_or "" d.attributes "schemaVersion";
  files = add_entries [] d.entries [];
}
