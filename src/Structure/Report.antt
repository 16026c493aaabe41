-- ===== src/Structure/Report.antt =====
-- internal/activities/validate_structure.go: when the activity reports nothing, and when it panics.
use sfa_enduro_workflows.Base.{
  ℕ, ◌+◌, ◌≡◌, refl, ap, ◌∙◌, inl, inr, String, Bool, not, ◌&&◌, ◌||◌, none, some, List, [], ◌∷◌,
  ◌++◌, map, length, ltb, ◌==◌, if◌then◌else◌, is_empty, answer, error, panic, arith, Bool-cases,
}
use sfa_enduro_workflows.Disk.{Disk, walk}
use sfa_enduro_workflows.Sip.{Sip, is_aip, is_digitized}
use sfa_enduro_workflows.Structure.{
  ValidationResult, no_result, Entry, validate_name, validate_structure, empty_dirs, and_advice,
  unless, aip_failures, other_failures, report_failures, execute,
}
use sfa_enduro_workflows.Structure.Scan
use sfa_enduro_workflows.Structure.Scan.{
  located, notes, any, count, scan-notes, scan-error, notes-flag, notes-count, is_at, is_extra,
  is_dossier,
}
use sfa_enduro_workflows.Structure.Directories.{are_filled, empty_dirs-notes}

-- A file or a directory is met at the path, below the base path.
abbrev pub has : Sip → String → List Entry → Bool
has s path es = any (is_at s path) es

-- What a package has to look like, as a test of what a walk meets: it is not empty, each directory
-- holds something, each name is valid, the files and directories of its type are there, there are no
-- other directories at the top, and a digitized package has one dossier at most.
unfoldable pub is_well_laid : Sip → List Entry → Bool
unfolding any count are_filled is_aip is_digitized
is_well_laid s es =
    not (count (λ e. e.is_dir) es == 1 && count (λ e. not e.is_dir) es == 0)
    && (are_filled s [] es
        && (not (any (λ e. not (validate_name e.name)) es)
            && (has s s.content_path es
                && (has s s.metadata_path es
                    && (has s s.xsd_path es
                        && ((not (is_aip s)
                              || (has s s.updated_arelda_md_path es && has s s.logical_md_path es))
                            && (not (any (is_extra s) es)
                                && not (is_digitized s && ltb 1 (count (is_dossier s) es)))))))))

is_empty-append : (xs ys : List String) → is_empty (xs ++ ys) ≡ is_empty xs && is_empty ys
is_empty-append [] ys = refl
is_empty-append (x ∷ xs) ys = refl

is_empty-map : (f : String → String) (xs : List String) → is_empty (map f xs) ≡ is_empty xs
is_empty-map f [] = refl
is_empty-map f (x ∷ xs) = refl

is_empty-advice : (xs : List String) → is_empty (and_advice xs) ≡ is_empty xs
is_empty-advice [] = refl
is_empty-advice (x ∷ xs) = refl

is_empty-unless : (b : Bool) (m : String) → is_empty (unless b m) ≡ b
is_empty-unless b m = ground arith

ruleset emptiness = (is_empty-append, is_empty-map, is_empty-advice, is_empty-unless)

aip_failures-is_empty :
    (r : ValidationResult) (s : Sip)
    → is_empty (if is_aip s then aip_failures r s else [])
      ≡ not (is_aip s) || (r.has_updated_arelda_md_file && r.has_logical_md_file)
unfolding aip_failures
aip_failures-is_empty r s = elim (Bool-cases (is_aip s)) [
  | inl q ↦ rw q (simp emptiness)
  | inr q ↦ rw q refl
]

dossiers-is_empty : (b : Bool) (m : String) → is_empty (if b then m ∷ [] else []) ≡ not b
dossiers-is_empty b m = ground arith

-- The other failures, each by its field of the result
other_failures-is_empty :
    (r : ValidationResult) (s : Sip)
    → is_empty (other_failures r s) ≡ (
        is_empty (empty_dirs r.dirs)
        && (is_empty r.invalid_names
            && (r.has_content_dir
                && (r.has_metadata_file
                    && (r.has_arelda_file
                        && ((not (is_aip s)
                              || (r.has_updated_arelda_md_file && r.has_logical_md_file))
                            && (is_empty r.extra_dirs
                                && not (is_digitized s && ltb 1 r.dossier_count))))))))
unfolding other_failures
other_failures-is_empty r s = simp (emptiness, aip_failures-is_empty, dossiers-is_empty)

if-message :
    (b : Bool) (m : String) (xs : List String)
    → is_empty (if b then m ∷ [] else xs) ≡ not b && is_empty xs
if-message b m xs = ground arith

report_failures-is_empty :
    (r : ValidationResult) (s : Sip)
    → is_empty (report_failures r s)
      ≡ not (length r.dirs == 1 && r.file_count == 0) && is_empty (other_failures r s)
unfolding report_failures
report_failures-is_empty r s =
    if-message (length r.dirs == 1 && r.file_count == 0) "The SIP is empty" (other_failures r s)

not-of : (a b : Bool) → not a ≡ b → a ≡ not b
not-of a b h = ground arith

-- What each field of the result stands for
fields-is_well_laid :
    (s : Sip) (es : List Entry) (r : ValidationResult)
    → length r.dirs ≡ count (λ e. e.is_dir) es
    → r.file_count ≡ count (λ e. not e.is_dir) es
    → is_empty (empty_dirs r.dirs) ≡ are_filled s [] es
    → is_empty r.invalid_names ≡ not (any (λ e. not (validate_name e.name)) es)
    → r.has_content_dir ≡ has s s.content_path es
    → r.has_metadata_file ≡ has s s.metadata_path es
    → r.has_arelda_file ≡ has s s.xsd_path es
    → r.has_updated_arelda_md_file ≡ has s s.updated_arelda_md_path es
    → r.has_logical_md_file ≡ has s s.logical_md_path es
    → is_empty r.extra_dirs ≡ not (any (is_extra s) es)
    → r.dossier_count ≡ count (is_dossier s) es
    → is_empty (report_failures r s) ≡ is_well_laid s es
unfolding is_well_laid
fields-is_well_laid s es r h1 h2 h3 h4 h5 h6 h7 h8 h9 h10 h11 =
    report_failures-is_empty r s
    ∙ (ap (λ b. not (length r.dirs == 1 && r.file_count == 0) && b) (other_failures-is_empty r s)
        ∙ simp (h1, h2, h3, h4, h5, h6, h7, h8, h9, h10, h11))

notes-is_well_laid :
    (s : Sip) (es : List Entry)
    → is_empty (report_failures (notes s es no_result) s) ≡ is_well_laid s es
notes-is_well_laid s es =
    fields-is_well_laid s es (notes s es no_result)
      (notes-count s (λ r. length r.dirs) (λ e. e.is_dir) (Scan.note-dirs s) es no_result
        ∙ zero_add _)
      (notes-count s (λ r. r.file_count) (λ e. not e.is_dir) (Scan.note-file_count s) es no_result
        ∙ zero_add _)
      (empty_dirs-notes s es no_result)
      (not-of _ _ (
        notes-flag s (λ r. not (is_empty r.invalid_names)) (λ e. not (validate_name e.name))
          (Scan.note-invalid_names s) es no_result))
      (notes-flag s (λ r. r.has_content_dir) (is_at s s.content_path) (Scan.note-content_dir s) es
        no_result)
      (notes-flag s (λ r. r.has_metadata_file) (is_at s s.metadata_path) (Scan.note-metadata_file s)
        es no_result)
      (notes-flag s (λ r. r.has_arelda_file) (is_at s s.xsd_path) (Scan.note-arelda_file s) es
        no_result)
      (notes-flag s (λ r. r.has_updated_arelda_md_file) (is_at s s.updated_arelda_md_path)
        (Scan.note-updated_arelda_md_file s) es no_result)
      (notes-flag s (λ r. r.has_logical_md_file) (is_at s s.logical_md_path)
        (Scan.note-logical_md_file s) es no_result)
      (not-of _ _ (
        notes-flag s (λ r. not (is_empty r.extra_dirs)) (is_extra s) (Scan.note-extra_dirs s) es
          no_result))
      (notes-count s (λ r. r.dossier_count) (is_dossier s) (Scan.note-dossier_count s) es no_result
        ∙ zero_add _)
  where
    zero_add : (n : ℕ) → 0 + n ≡ n
    zero_add n = omega arith

execute-answer :
    (disk : Disk) (s : Sip) (r : ValidationResult)
    → validate_structure disk s ≡ answer r
    → execute disk s ≡ answer (report_failures r s)
unfolding execute
execute-answer disk s r h = ground arith

execute-error :
    (disk : Disk) (s : Sip) (e : String)
    → validate_structure disk s ≡ error e
    → execute disk s ≡ panic
unfolding execute
execute-error disk s e h = ground arith

-- If the walk of the package meets no error, the activity returns failures, and these are none exactly
-- if what the walk meets is laid out well.
pub execute-is_well_laid :
    (disk : Disk) (s : Sip) (es : List Entry)
    → located s (walk disk s.path) ≡ some es
    → (failures : List String) × (execute disk s ≡ answer failures)
      × (is_empty failures ≡ is_well_laid s es)
unfolding validate_structure
execute-is_well_laid disk s es h = (
  report_failures (notes s es no_result) s,
  execute-answer disk s _ (scan-notes s (walk disk s.path) es no_result h),
  notes-is_well_laid s es,
)

-- If the walk meets an error, or a path that is not below the package, the activity does not return
-- the error: it panics.
pub execute-panics :
    (disk : Disk) (s : Sip) → located s (walk disk s.path) ≡ none → execute disk s ≡ panic
unfolding validate_structure
execute-panics disk s h =
    let (e, k) = scan-error s (walk disk s.path) no_result h in execute-error disk s e k
