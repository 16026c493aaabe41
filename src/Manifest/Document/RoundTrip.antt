-- ===== src/Manifest/Document/RoundTrip.antt =====
-- internal/manifest/manifest.go: Parse gives what a metadata file describes.
use sfa_enduro_workflows.Base.{
  ◌≡◌, refl, ap, ◌∙◌, inl, String, true, Option, none, some, List, [], ◌∷◌, ◌++◌, join_texts,
}
use sfa_enduro_workflows.FilePath.{join, dir}
use sfa_enduro_workflows.FilePath.Names.{AreNames, AreNames-append, IsAt, join-IsAt, dir-IsAt}
use sfa_enduro_workflows.Manifest.{
  Token, start_element, end_element, File, Files, State, parsed, insert, attr_or, read, read_token,
  start_tag, end_tag, close, text, set_checksum, initial, parse,
}
use sfa_enduro_workflows.Manifest.Document.{
  Content, emit_content, IsIrrelevant, Datei, Entries, last, ordner, datei, emit_text, emit_datei,
  emit_entries, Document, emit, DateiIsPlain, IsPlain, DocumentIsPlain, file_of, add_entries,
  manifest_of,
}
use sfa_enduro_workflows.Manifest.Document.Skipping.{is_quiet, read-content}

abbrev file : String → String → String → File
file id algorithm hash = record {
  id = id;
  checksum = record { algorithm = algorithm; hash = hash };
}

-- The state of the loop, by its parts
abbrev at : Option File → String → List String → String → Files → State
at f path opens schema files = record {
  file = f;
  path = path;
  open_elems = opens;
  manifest = record { schema_version = schema; files = files };
}

module _ (schema : String) (files : Files) where
  -- The tokens of an element that holds a text
  read-name :
      (opens : List String) (f : Option File) (path name : String) (ts : List Token)
      → read (emit_text "name" name ts) (at f path opens schema files)
        ≡ read ts (at f (join (path ∷ name ∷ [])) opens schema files)
  unfolding read read_token start_tag text end_tag close
  read-name opens f path name ts = refl

  read-sum :
      (opens : List String) (id algorithm hash path : String) (c : Content) (ts : List Token)
      → IsIrrelevant c
      → read
          (emit_text "pruefalgorithmus" algorithm (emit_content c (emit_text "pruefsumme" hash ts)))
          (at (some (file id "" "")) path ("datei" ∷ opens) schema files)
        ≡ read ts (at (some (file id algorithm hash)) path ("datei" ∷ opens) schema files)
  unfolding read read_token start_tag text end_tag close set_checksum is_quiet
  read-sum opens id algorithm hash path c ts p =
      read-content c (emit_text "pruefsumme" hash ts)
        (at (some (file id algorithm "")) path ("datei" ∷ opens) schema files) p refl

  read-datei :
      (opens : List String) (d : Datei) (path : String) (ts : List Token)
      → DateiIsPlain d
      → read (emit_datei d ts) (at none path opens schema files)
        ≡ read ts (
            at none
              (dir (join (path ∷ d.name ∷ [])))
              opens
              schema
              (insert (join (path ∷ d.name ∷ [])) (some (file_of d)) files))
  unfolding read read_token start_tag end_tag close is_quiet file_of
  read-datei opens d path ts p =
      let id : String = attr_or "" d.attributes "id" in
      let here : String = join (path ∷ d.name ∷ []) in
      let inside : File → String → State = λ f q. at (some f) q ("datei" ∷ opens) schema files in
      let after : List Token = emit_content d.after_hash (end_element "datei" ∷ ts) in
      let sum : List Token =
        emit_text "pruefalgorithmus" d.algorithm
          (emit_content d.before_hash (emit_text "pruefsumme" d.hash after)) in
      read-content d.before_name (emit_text "name" d.name (emit_content d.before_algorithm sum))
        (inside (file id "" "") path) p.1 refl
      ∙ (read-name ("datei" ∷ opens) (some (file id "" "")) path d.name
            (emit_content d.before_algorithm sum)
          ∙ (read-content d.before_algorithm sum (inside (file id "" "") here) p.2 refl
              ∙ (read-sum opens id d.algorithm d.hash here d.before_hash after p.3
                  ∙ read-content d.after_hash (end_element "datei" ∷ ts)
                      (inside (file id d.algorithm d.hash) here) p.4 refl)))

IsAt-join :
    (dirs : List String) (x : String) → IsAt (dirs ++ x ∷ []) (join_texts "/" (dirs ++ x ∷ []))
IsAt-join [] x = refl
IsAt-join (y ∷ ys) x = refl

join-of_IsAt :
    (dirs : List String) (x path : String)
    → IsAt (dirs ++ x ∷ []) path
    → path ≡ join_texts "/" (dirs ++ x ∷ [])
join-of_IsAt [] x path h = h
join-of_IsAt (y ∷ ys) x path h = h

-- Behind the entries the loop stands where it stood, and has their files.
abbrev Reads : List String → List String → String → Entries → String → Files → List Token → Type 0
Reads dirs opens schema es path files ts =
    (path' : String) × IsAt dirs path'
    × (read (emit_entries es ts) (at none path opens schema files)
        ≡ read ts (at none path' opens schema (add_entries dirs es files)))

read-ordner :
    (dirs opens : List String) (schema : String) (c inside : Content) (name : String)
    (inner rest : Entries) (path : String) (files : Files) (ts : List Token)
    → IsPlain (ordner c inside name inner rest)
    → AreNames dirs
    → IsAt dirs path
    → is_quiet opens ≡ true
    → Reads
        (dirs ++ name ∷ [])
        ("ordner" ∷ opens)
        schema
        inner
        (join_texts "/" (dirs ++ name ∷ []))
        files
        (end_element "ordner" ∷ emit_entries rest ts)
    → ((p : String)
        → IsAt dirs p
        → Reads dirs opens schema rest p (add_entries (dirs ++ name ∷ []) inner files) ts)
    → Reads dirs opens schema (ordner c inside name inner rest) path files ts
unfolding read read_token start_tag end_tag close is_quiet emit_entries add_entries
read-ordner dirs opens schema c inside name inner rest path files ts p names here q
      (below, at_below, e) later =
    let above : IsAt dirs (dir below) =
      rw (join-of_IsAt dirs name below at_below) (dir-IsAt dirs name names p.2) in
    let (path', at', e') = later (dir below) above in
    let entries : List Token = emit_entries inner (end_element "ordner" ∷ emit_entries rest ts) in
    (
      path',
      at',
      read-content c
            (start_element "ordner" [] ∷ emit_content inside (emit_text "name" name entries))
            (at none path opens schema files) p.0 q
          ∙ (read-content inside (emit_text "name" name entries)
                (at none path ("ordner" ∷ opens) schema files) p.1 refl
              ∙ (read-name schema files ("ordner" ∷ opens) none path name entries
                  ∙ (ap (λ x. read entries (at none x ("ordner" ∷ opens) schema files))
                        (join-IsAt dirs path name names p.2 here)
                      ∙ (e ∙ e')))),
    )

read-entries :
    (dirs opens : List String) (schema : String) (es : Entries) (path : String) (files : Files)
    (ts : List Token)
    → IsPlain es
    → AreNames dirs
    → IsAt dirs path
    → is_quiet opens ≡ true
    → Reads dirs opens schema es path files ts
unfolding emit_entries add_entries is_quiet
read-entries dirs opens schema (last c) path files ts p names here q =
    (path, here, read-content c ts (at none path opens schema files) p q)
read-entries dirs opens schema (ordner c inside name inner rest) path files ts p names here q =
    read-ordner dirs opens schema c inside name inner rest path files ts p names here q
      (read-entries (dirs ++ name ∷ []) ("ordner" ∷ opens) schema inner
        (join_texts "/" (dirs ++ name ∷ [])) files (end_element "ordner" ∷ emit_entries rest ts) p.3
        (AreNames-append dirs name names p.2) (IsAt-join dirs name) refl)
      (λ x at_x.
        read-entries dirs opens schema rest x (add_entries (dirs ++ name ∷ []) inner files) ts p.4
          names at_x q)
read-entries dirs opens schema (datei c d rest) path files ts p names here q =
    let found : String = join_texts "/" (dirs ++ d.name ∷ []) in
    let same : join (path ∷ d.name ∷ []) ≡ found = join-IsAt dirs path d.name names p.1.0 here in
    let (path', at', e) =
      read-entries dirs opens schema rest (dir found) (insert found (some (file_of d)) files) ts p.2
        names (dir-IsAt dirs d.name names p.1.0) q in
    (
      path',
      at',
      read-content c (emit_datei d (emit_entries rest ts)) (at none path opens schema files) p.0 q
          ∙ (read-datei schema files opens d path (emit_entries rest ts) p.1
              ∙ (ap
                    (λ x.
                      read (emit_entries rest ts)
                        (at none (dir x) opens schema (insert x (some (file_of d)) files)))
                    same
                  ∙ e)),
    )

-- Whatever tokens follow, Parse of a written document, whose ordner and datei elements have plain
-- names, gives the manifest that the document describes: its schema version, and each datei with its
-- id, algorithm and checksum under the path of names that leads to it. What is irrelevant may stand
-- between the elements, in any number and with any content.
pub parse-emit :
    (d : Document) (ts : List Token)
    → DocumentIsPlain d
    → parse (emit d ts) ≡ parsed (manifest_of d)
unfolding parse read read_token start_tag end_tag close emit manifest_of is_quiet
parse-emit d ts p =
    let schema : String = attr_or "" d.attributes "schemaVersion" in
    let opens : List String = "inhaltsverzeichnis" ∷ "paket" ∷ [] in
    let (path', at', e) =
      read-entries [] opens schema d.entries "" [] (end_element "inhaltsverzeichnis" ∷ ts) p.2 tt
        (inl refl) refl in
    let listed : List Token = emit_entries d.entries (end_element "inhaltsverzeichnis" ∷ ts) in
    read-content d.prolog
      (start_element "paket" d.attributes
        ∷ emit_content d.header (start_element "inhaltsverzeichnis" [] ∷ listed))
      initial p.0 refl
    ∙ (read-content d.header (start_element "inhaltsverzeichnis" [] ∷ listed)
          (at none "" ("paket" ∷ []) schema []) p.1 refl
        ∙ e)
