-- ===== src/Structure/Scan.antt =====
-- internal/activities/validate_structure.go: what the callback of the walk accumulates.
use sfa_enduro_workflows.Base.{
  ℕ, ◌+◌, ◌≡◌, refl, ap, ◌∙◌, String, Bool, false, not, ◌&&◌, ◌||◌, Option, none, some, List, [],
  ◌∷◌, ◌++◌, length, str_eq, if◌then◌else◌, contains, is_empty, answer, error, arith,
}
use sfa_enduro_workflows.FilePath.{join, dir, rel}
use sfa_enduro_workflows.Disk.{Visit, visited, failed}
use sfa_enduro_workflows.Sip.{Sip}
use sfa_enduro_workflows.Structure.{
  Dir, ValidationResult, Entry, validate_name, add_child, with_dir, check_entry, count_entry, note,
  scan,
}

-- The calls of a walk that meets no error, each with its relative path.
unfoldable pub located : Sip → List Visit → Option (List Entry)
located s [] = some []
located s (failed e ∷ rest) = none
located s (visited path name is_dir ∷ rest) =
    let later = located s rest in
    elim (rel s.path path) [
      | none ↦ none
      | some relative ↦ elim later [
        | none ↦ none
        | some es ↦
            some (record { path = path; name = name; is_dir = is_dir; relative = relative } ∷ es)
      ]
    ]

unfoldable pub notes : Sip → List Entry → ValidationResult → ValidationResult
notes s [] r = r
notes s (e ∷ es) r = notes s es (note s e r)

abbrev entry_at : String → String → Bool → String → Entry
entry_at path name is_dir p = record { path = path; name = name; is_dir = is_dir; relative = p }

scan-visited :
    (s : Sip) (path name : String) (is_dir : Bool) (rest : List Visit) (r : ValidationResult)
    (p : String)
    → rel s.path path ≡ some p
    → scan s (visited path name is_dir ∷ rest) r
      ≡ scan s rest (note s (entry_at path name is_dir p) r)
unfolding scan
scan-visited s path name is_dir rest r p h = ground arith

scan-outside :
    (s : Sip) (path name : String) (is_dir : Bool) (rest : List Visit) (r : ValidationResult)
    → rel s.path path ≡ none
    → scan s (visited path name is_dir ∷ rest) r ≡ error "ValidateStructure: relative path"
unfolding scan
scan-outside s path name is_dir rest r h = ground arith

pub scan-notes :
    (s : Sip) (vs : List Visit) (es : List Entry) (r : ValidationResult)
    → located s vs ≡ some es
    → scan s vs r ≡ answer (notes s es r)
unfolding located scan notes
scan-notes s [] es r h = ground arith
scan-notes s (failed e ∷ rest) es r h = let no : ⊥ = ground arith in elim no [ ]
scan-notes s (visited path name is_dir ∷ rest) es r h =
    by_rel _ refl _ refl (λ es' r' q. scan-notes s rest es' r' q)
  where
    by_rel :
        (found : Option String)
        → rel s.path path ≡ found
        → (later : Option (List Entry)) → located s rest ≡ later
        → ((es' : List Entry) (r' : ValidationResult)
            → located s rest ≡ some es'
            → scan s rest r' ≡ answer (notes s es' r'))
        → scan s (visited path name is_dir ∷ rest) r ≡ answer (notes s es r)
    by_rel none e later q ih = let no : ⊥ = ground arith in elim no [ ]
    by_rel (some p) e none q ih = let no : ⊥ = ground arith in elim no [ ]
    by_rel (some p) e (some es') q ih =
        let new : Entry = entry_at path name is_dir p in
        let same : new ∷ es' ≡ es = ground arith in
        scan-visited s path name is_dir rest r p e
        ∙ (ih es' (note s new r) q ∙ ap (λ x. answer (notes s x r)) same)

-- An error of the walk ends the scan with an error.
pub scan-error :
    (s : Sip) (vs : List Visit) (r : ValidationResult)
    → located s vs ≡ none
    → (e : String) × (scan s vs r ≡ error e)
unfolding located scan
scan-error s [] r h = let no : ⊥ = ground arith in elim no [ ]
scan-error s (failed e ∷ rest) r h = (_, refl)
scan-error s (visited path name is_dir ∷ rest) r h =
    by_rel _ refl _ refl (λ r' q. scan-error s rest r' q)
  where
    by_rel :
        (found : Option String)
        → rel s.path path ≡ found
        → (later : Option (List Entry)) → located s rest ≡ later
        → ((r' : ValidationResult)
            → located s rest ≡ none
            → (x : String) × (scan s rest r' ≡ error x))
        → (x : String) × (scan s (visited path name is_dir ∷ rest) r ≡ error x)
    by_rel none e later q ih =
        ("ValidateStructure: relative path", scan-outside s path name is_dir rest r e)
    by_rel (some p) e (some es) q ih = let no : ⊥ = ground arith in elim no [ ]
    by_rel (some p) e none q ih =
        let (x, k) = ih (note s (entry_at path name is_dir p) r) q in
        (x, scan-visited s path name is_dir rest r p e ∙ k)

unfoldable pub any : (Entry → Bool) → List Entry → Bool
any t [] = false
any t (e ∷ es) = t e || any t es

unfoldable pub count : (Entry → Bool) → List Entry → ℕ
count t [] = 0
count t (e ∷ es) = (if t e then 1 else 0) + count t es

length-add_child : (p : String) (ds : List Dir) → length (add_child p ds) ≡ length ds
unfolding add_child
length-add_child p [] = refl
length-add_child p (d ∷ ds) = ground (arith, length-add_child p ds)

length-more : (ds : List Dir) (d : Dir) → length (ds ++ d ∷ []) ≡ length ds + 1
length-more [] d = refl
length-more (x ∷ ds) d = omega (arith, length-more ds d)

has-more : (x : String) (xs : List String) → is_empty (xs ++ x ∷ []) ≡ false
has-more x [] = refl
has-more x (y ∷ ys) = refl

module _ (s : Sip) where
  -- A flag that an entry sets if it passes a test
  pub notes-flag :
      (get : ValidationResult → Bool) (t : Entry → Bool)
      → ((e : Entry) (r : ValidationResult) → get (note s e r) ≡ get r || t e)
      → (es : List Entry) (r : ValidationResult) → get (notes s es r) ≡ get r || any t es
  unfolding notes any
  notes-flag get t step [] r = ground arith
  notes-flag get t step (e ∷ es) r = ground (arith, step e r, notes-flag get t step es (note s e r))

  -- A counter that an entry raises if it passes a test
  pub notes-count :
      (get : ValidationResult → ℕ) (t : Entry → Bool)
      → ((e : Entry) (r : ValidationResult) → get (note s e r) ≡ get r + (if t e then 1 else 0))
      → (es : List Entry) (r : ValidationResult) → get (notes s es r) ≡ get r + count t es
  unfolding notes count
  notes-count get t step [] r = omega arith
  notes-count get t step (e ∷ es) r =
      ground (arith, step e r, notes-count get t step es (note s e r))

  -- Below the base path
  abbrev pub is_below : Entry → Bool
  is_below e = not (str_eq e.path s.path)

  abbrev pub is_at : String → Entry → Bool
  is_at path e = is_below e && str_eq e.path path

  abbrev pub is_extra : Entry → Bool
  is_extra e =
      is_below e
      && (str_eq (dir e.relative) "." && (e.is_dir && not (contains s.top_level_paths e.path)))

  abbrev pub is_dossier : Entry → Bool
  is_dossier e =
      is_below e && (str_eq (join (s.path ∷ dir e.relative ∷ [])) s.content_path && e.is_dir)

  pub note-content_dir :
      (e : Entry) (r : ValidationResult)
      → (note s e r).has_content_dir ≡ r.has_content_dir || is_at s.content_path e
  unfolding note check_entry count_entry
  note-content_dir e r = ground arith

  pub note-metadata_file :
      (e : Entry) (r : ValidationResult)
      → (note s e r).has_metadata_file ≡ r.has_metadata_file || is_at s.metadata_path e
  unfolding note check_entry count_entry
  note-metadata_file e r = ground arith

  pub note-updated_arelda_md_file :
      (e : Entry) (r : ValidationResult)
      → (note s e r).has_updated_arelda_md_file
        ≡ r.has_updated_arelda_md_file || is_at s.updated_arelda_md_path e
  unfolding note check_entry count_entry
  note-updated_arelda_md_file e r = ground arith

  pub note-logical_md_file :
      (e : Entry) (r : ValidationResult)
      → (note s e r).has_logical_md_file ≡ r.has_logical_md_file || is_at s.logical_md_path e
  unfolding note check_entry count_entry
  note-logical_md_file e r = ground arith

  pub note-arelda_file :
      (e : Entry) (r : ValidationResult)
      → (note s e r).has_arelda_file ≡ r.has_arelda_file || is_at s.xsd_path e
  unfolding note check_entry count_entry
  note-arelda_file e r = ground arith

  pub note-invalid_names :
      (e : Entry) (r : ValidationResult)
      → not (is_empty (note s e r).invalid_names)
        ≡ not (is_empty r.invalid_names) || not (validate_name e.name)
  unfolding note check_entry count_entry
  note-invalid_names e r = ground (arith, has-more e.relative r.invalid_names)

  pub note-extra_dirs :
      (e : Entry) (r : ValidationResult)
      → not (is_empty (note s e r).extra_dirs) ≡ not (is_empty r.extra_dirs) || is_extra e
  unfolding note check_entry count_entry
  note-extra_dirs e r = ground (arith, has-more e.relative r.extra_dirs)

  pub note-dossier_count :
      (e : Entry) (r : ValidationResult)
      → (note s e r).dossier_count ≡ r.dossier_count + (if is_dossier e then 1 else 0)
  unfolding note check_entry count_entry
  note-dossier_count e r = ground arith

  pub note-file_count :
      (e : Entry) (r : ValidationResult)
      → (note s e r).file_count ≡ r.file_count + (if not e.is_dir then 1 else 0)
  unfolding note check_entry count_entry
  note-file_count e r = ground arith

  length-with_dir :
      (e : Entry) (ds : List Dir) → length (with_dir e ds) ≡ length ds + (if e.is_dir then 1 else 0)
  unfolding with_dir
  length-with_dir e ds = ground (arith, length-more ds (record { path = e.relative; children = 0 }))

  pub note-dirs :
      (e : Entry) (r : ValidationResult)
      → length (note s e r).dirs ≡ length r.dirs + (if e.is_dir then 1 else 0)
  unfolding note check_entry count_entry
  note-dirs e r =
      ground
        (arith, length-add_child (dir e.relative) (with_dir e r.dirs), length-with_dir e r.dirs)
