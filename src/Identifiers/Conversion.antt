-- ===== src/Identifiers/Conversion.antt =====
-- internal/activities/write_identifier_file.go: which identifiers are written.
use sfa_enduro_workflows.Base.{
  ◌≡◌, refl, sym, ap, ◌∙◌, inl, inr, String, Bool, true, false, not, ◌&&◌, ◌||◌, Option, none, some,
  List, [], ◌∷◌, str_eq, eq_iff, if◌then◌else◌, arith, Bool-cases, Answer, answer, >>=-answer,
  wrap-answer, wrap, text_leb, text_leb-total,
}
use sfa_enduro_workflows.FilePath.{join}
use sfa_enduro_workflows.Manifest
use sfa_enduro_workflows.Manifest.{Files, Manifest}
use sfa_enduro_workflows.Manifest.Verify.{Contents}
use sfa_enduro_workflows.Identifiers.{
  Pip, Identifier, File, convert_sip_path, insert_file, sort_files, with_id, identified,
  from_manifest, converted, pip_identifiers, read_manifest, write_file, write, write_identifiers,
}

abbrev pub has_id : String → List Identifier → Bool
has_id i [] = false
has_id i (x ∷ xs) = (str_eq x.value i && str_eq x.type "local") || has_id i xs

abbrev pub some_file : (File → Bool) → List File → Bool
some_file test [] = false
some_file test (f ∷ fs) = test f || some_file test fs

-- Some file has the path and the identifier.
abbrev pub holds : List File → String → String → Bool
holds fs p i = some_file (λ f. str_eq f.path p && has_id i f.identifiers) fs

abbrev pub is_id : Option Manifest.File → String → Bool
is_id none i = false
is_id (some f) i = str_eq f.id i

-- The manifest gives the identifier to a file for which ConvertSIPPath gives the path.
abbrev pub describes : Pip → Files → String → String → Bool
describes pip [] p i = false
describes pip ((path, f) ∷ m) p i =
    (not (str_eq p "") && (str_eq (convert_sip_path pip path) p && is_id f i))
    || describes pip m p i

abbrev pub first_after : String → List File → Bool
first_after p [] = true
first_after p (f ∷ fs) = text_leb p f.path

abbrev pub is_sorted : List File → Bool
is_sorted [] = true
is_sorted (f ∷ fs) = first_after f.path fs && is_sorted fs

move-if :
    (b : Bool) (fs gs : List File) (p i : String)
    → holds (if b then fs else gs) p i ≡ (if b then holds fs p i else holds gs p i)
move-if true fs gs p i = refl
move-if false fs gs p i = refl

some_file-insert_file :
    (test : File → Bool) (f : File) (fs : List File)
    → some_file test (insert_file f fs) ≡ some_file test (f ∷ fs)
unfolding insert_file
some_file-insert_file test f [] = refl
some_file-insert_file test f (g ∷ gs) = ground (arith, some_file-insert_file test f gs)

some_file-sort_files :
    (test : File → Bool) (fs : List File) → some_file test (sort_files fs) ≡ some_file test fs
unfolding sort_files
some_file-sort_files test [] = refl
some_file-sort_files test (f ∷ fs) =
    some_file-insert_file test f (sort_files fs)
    ∙ ap (λ b. test f || b) (some_file-sort_files test fs)

first_after-insert_file :
    (p : String) (f : File) (fs : List File)
    → text_leb p f.path ≡ true
    → first_after p fs ≡ true
    → first_after p (insert_file f fs) ≡ true
unfolding insert_file
first_after-insert_file p f [] h k = h
first_after-insert_file p f (g ∷ gs) h k = ground arith

insert_file-is_sorted :
    (f : File) (fs : List File) → is_sorted fs ≡ true → is_sorted (insert_file f fs) ≡ true
unfolding insert_file
insert_file-is_sorted f [] h = refl
insert_file-is_sorted f (g ∷ gs) h = elim (Bool-cases (text_leb f.path g.path)) [
  | inl q ↦ ground arith
  | inr q ↦ ground (
    arith,
    insert_file-is_sorted f gs,
    first_after-insert_file g.path f gs (text_leb-total f.path g.path q),
  )
]

pub sort_files-is_sorted : (fs : List File) → is_sorted (sort_files fs) ≡ true
unfolding sort_files
sort_files-is_sorted [] = refl
sort_files-is_sorted (f ∷ fs) = insert_file-is_sorted f (sort_files fs) (sort_files-is_sorted fs)

-- A path that is empty is left out.
kept :
    (e p : String) (b rest : Bool)
    → (if str_eq e "" then rest else (str_eq e p && b) || rest)
      ≡ (not (str_eq p "") && (str_eq e p && b)) || rest
kept e p b rest = elim (Bool-cases (str_eq e p)) [
  | inl q ↦ ground (arith, ap (λ t. str_eq t "") ((eq_iff e p).0 q))
  | inr q ↦ ground arith
]

module _ (pip : Pip) where
  -- ConvertSIPPath gives the path for the file, and the file has the identifier.
  abbrev becomes : String → String → File → Bool
  becomes p i f =
      not (str_eq p "") && (str_eq (convert_sip_path pip f.path) p && has_id i f.identifiers)

  holds-converted :
      (fs : List File) (p i : String) → holds (converted pip fs) p i ≡ some_file (becomes p i) fs
  unfolding converted
  holds-converted [] p i = refl
  holds-converted (f ∷ fs) p i =
      move-if (str_eq (convert_sip_path pip f.path) "") (converted pip fs)
        (record f { path = convert_sip_path pip f.path } ∷ converted pip fs) p i
      ∙ (kept (convert_sip_path pip f.path) p (has_id i f.identifiers)
            (holds (converted pip fs) p i)
          ∙ ap (λ b. becomes p i f || b) (holds-converted fs p i))

  becomes-identified :
      (m : Files) (fs : List File) (p i : String)
      → identified m ≡ answer fs
      → some_file (becomes p i) fs ≡ describes pip m p i
  unfolding identified
  becomes-identified [] fs p i h = let same : [] ≡ fs = cc in rw (← same) refl
  becomes-identified ((path, none) ∷ m) fs p i h = let no : ⊥ = ground arith in elim no [ ]
  becomes-identified ((path, some f) ∷ m) fs p i h =
      let (found, e, q) = >>=-answer (identified m) (λ gs. answer (with_id path f.id ∷ gs)) h in
      let same : with_id path f.id ∷ found ≡ fs = cc in
      rw (← same, becomes-identified m found p i e) (ground arith)

  from_manifest-describes :
      (m : Manifest) (ids : List File) (p i : String)
      → from_manifest m ≡ answer ids
      → some_file (becomes p i) ids ≡ describes pip m.files p i
  unfolding from_manifest
  from_manifest-describes m ids p i h = by_files m.files refl
    where
      by_files :
          (files : Files)
          → m.files ≡ files
          → some_file (becomes p i) ids ≡ describes pip m.files p i
      by_files [] q = let no : ⊥ = ground arith in elim no [ ]
      by_files (f ∷ fs) q =
          let (found, e, r) =
            >>=-answer (identified (f ∷ fs)) (λ gs. answer (sort_files gs)) (rw q at h) in
          let same : sort_files found ≡ ids = cc in
          rw (← same, some_file-sort_files (becomes p i) found, q)
            (becomes-identified (f ∷ fs) found p i e)

module _ (marshal : List File → Answer String) (write_error : Option String) where
  written_file :
      (path text path' text' : String)
      → write_file marshal write_error path text ≡ answer (path', text')
      → (path ≡ path') × (text ≡ text')
  unfolding write_file
  written_file path text path' text' h = ground arith

  -- A file of identifiers that is written stands in the directory `metadata` of the package, is sorted
  -- by path, and gives a path an identifier if and only if the manifest gives it to a file for which
  -- ConvertSIPPath gives this path.
  pub write_identifiers-describes :
      (env : Contents) (pip : Pip) (path text : String)
      → write_identifiers marshal write_error env pip ≡ answer (path, text)
      → (m : Manifest) × (ids : List File) × (read_manifest env pip ≡ answer m)
        × (marshal ids ≡ answer text)
        × (path ≡ join (pip.path ∷ "metadata" ∷ "identifiers.json" ∷ []))
        × (is_sorted ids ≡ true)
        × ((p i : String) → holds ids p i ≡ describes pip m.files p i)
  unfolding write_identifiers write pip_identifiers
  write_identifiers-describes env pip path text h =
      let (m, read, h1) =
        >>=-answer (read_manifest env pip) _
          (wrap-answer _ (write marshal write_error env pip) h) in
      let (ids, got, h2) = >>=-answer (wrap "get manifest identifiers: " (from_manifest m)) _ h1 in
      let (t, made, h3) =
        >>=-answer (wrap "marshal identifiers: " (marshal (pip_identifiers pip ids))) _ h2 in
      let (at, same) = written_file _ t path text h3 in
      let list = wrap-answer _ (marshal (pip_identifiers pip ids)) made in
      (
        m,
        pip_identifiers pip ids,
        read,
        list ∙ ap answer same,
        sym at,
        sort_files-is_sorted (converted pip ids),
        λ p i.
            some_file-sort_files _ (converted pip ids)
            ∙ (holds-converted pip ids p i
                ∙ from_manifest-describes pip m ids p i (wrap-answer _ (from_manifest m) got)),
      )
