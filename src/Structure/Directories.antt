-- ===== src/Structure/Directories.antt =====
-- internal/activities/validate_structure.go: which directories are counted as empty.
use sfa_enduro_workflows.Base.{
  ◌≡◌, refl, sym, ap, ◌∙◌, inl, inr, String, Bool, true, false, not, ◌&&◌, ◌||◌, List, [], ◌∷◌,
  ◌++◌, str_eq, eq_iff, ltb, if◌then◌else◌, contains, is_empty, arith, Bool-cases,
}
use sfa_enduro_workflows.FilePath.{dir}
use sfa_enduro_workflows.Sip.{Sip}
use sfa_enduro_workflows.Structure.{
  Dir, ValidationResult, Entry, add_child, with_dir, check_entry, count_entry, note, empty_dirs,
}
use sfa_enduro_workflows.Structure.Scan.{notes, any, is_below}

-- The entry lies in the directory with the relative path.
abbrev pub is_child : Sip → String → Entry → Bool
is_child s path e = is_below s e && str_eq path (dir e.relative)

-- Each directory is the first one with its path, and holds an entry that the walk meets no earlier.
unfoldable pub are_filled : Sip → List String → List Entry → Bool
unfolding any
are_filled s seen [] = true
are_filled s seen (e ∷ es) =
    if e.is_dir
    then not (contains seen e.relative)
      && (any (is_child s e.relative) (e ∷ es) && are_filled s (e.relative ∷ seen) es)
    else are_filled s seen es

-- Of the directories that are counted so far, each has a child, or is the first one with its path and
-- gets a child from the entries that follow.
abbrev will_fill : Sip → List String → List Dir → List Entry → Bool
will_fill s seen [] es = true
will_fill s seen (d ∷ ds) es =
    (ltb 0 d.children || (not (contains seen d.path) && any (is_child s d.path) es))
    && will_fill s (d.path ∷ seen) ds es

abbrev paths : List Dir → List String → List String
paths [] seen = seen
paths (d ∷ ds) seen = paths ds (d.path ∷ seen)

will_fill-no_entries :
    (s : Sip) (seen : List String) (ds : List Dir)
    → will_fill s seen ds [] ≡ is_empty (empty_dirs ds)
unfolding empty_dirs any
will_fill-no_entries s seen [] = refl
will_fill-no_entries s seen (d ∷ ds) = ground (arith, will_fill-no_entries s (d.path ∷ seen) ds)

-- Behind a directory that holds the entry, the entry changes nothing.
will_fill-seen :
    (s : Sip) (seen : List String) (ds : List Dir) (e : Entry) (es : List Entry)
    → contains seen (dir e.relative) ≡ true
    → will_fill s seen ds (e ∷ es) ≡ will_fill s seen ds es
unfolding any
will_fill-seen s seen [] e es h = refl
will_fill-seen s seen (d ∷ ds) e es h =
    ground (arith, will_fill-seen s (d.path ∷ seen) ds e es, eq_iff d.path (dir e.relative))

will_fill-add_child :
    (s : Sip) (seen : List String) (ds : List Dir) (e : Entry) (es : List Entry)
    → is_below s e ≡ true
    → contains seen (dir e.relative) ≡ false
    → will_fill s seen (add_child (dir e.relative) ds) es ≡ will_fill s seen ds (e ∷ es)
unfolding add_child any
will_fill-add_child s seen [] e es b h = refl
will_fill-add_child s seen (d ∷ ds) e es b h = elim (Bool-cases (str_eq d.path (dir e.relative))) [
  | inl q ↦
      let same : d.path ≡ dir e.relative = (eq_iff d.path (dir e.relative)).0 q in
      let fresh : contains seen d.path ≡ false = rw same h in
      let later : will_fill s (d.path ∷ seen) ds (e ∷ es) ≡ will_fill s (d.path ∷ seen) ds es =
        will_fill-seen s (d.path ∷ seen) ds e es (rw q refl) in
      ground (arith, later)
  | inr q ↦
      let later : will_fill s (d.path ∷ seen) (add_child (dir e.relative) ds) es
          ≡ will_fill s (d.path ∷ seen) ds (e ∷ es) =
        will_fill-add_child s (d.path ∷ seen) ds e es b (rw q h) in
      ground (arith, later)
]

will_fill-base :
    (s : Sip) (seen : List String) (ds : List Dir) (e : Entry) (es : List Entry)
    → is_below s e ≡ false
    → will_fill s seen ds (e ∷ es) ≡ will_fill s seen ds es
unfolding any
will_fill-base s seen [] e es h = refl
will_fill-base s seen (d ∷ ds) e es h = ground (arith, will_fill-base s (d.path ∷ seen) ds e es)

will_fill-more :
    (s : Sip) (seen : List String) (ds : List Dir) (p : String) (es : List Entry)
    → will_fill s seen (ds ++ record { path = p; children = 0 } ∷ []) es
      ≡ will_fill s seen ds es && (not (contains (paths ds seen) p) && any (is_child s p) es)
will_fill-more s seen [] p es = ground arith
will_fill-more s seen (d ∷ ds) p es = ground (arith, will_fill-more s (d.path ∷ seen) ds p es)

paths-add_child :
    (p : String) (ds : List Dir) (seen : List String) → paths (add_child p ds) seen ≡ paths ds seen
unfolding add_child
paths-add_child p [] seen = refl
paths-add_child p (d ∷ ds) seen = ground (arith, paths-add_child p ds (d.path ∷ seen))

paths-more :
    (ds : List Dir) (p : String) (seen : List String)
    → paths (ds ++ record { path = p; children = 0 } ∷ []) seen ≡ p ∷ paths ds seen
paths-more [] p seen = refl
paths-more (d ∷ ds) p seen = paths-more ds p (d.path ∷ seen)

-- What one call of the callback makes of the directories
will_fill-note :
    (s : Sip) (e : Entry) (r : ValidationResult) (es : List Entry)
    → will_fill s [] (note s e r).dirs es ≡ will_fill s [] (with_dir e r.dirs) (e ∷ es)
unfolding note check_entry count_entry
will_fill-note s e r es = elim (Bool-cases (str_eq e.path s.path)) [
  | inl q ↦ rw q (sym (will_fill-base s [] (with_dir e r.dirs) e es (rw q refl)))
  | inr q ↦ rw q (will_fill-add_child s [] (with_dir e r.dirs) e es (rw q refl) refl)
]

paths-note :
    (s : Sip) (e : Entry) (r : ValidationResult)
    → paths (note s e r).dirs [] ≡ paths (with_dir e r.dirs) []
unfolding note check_entry count_entry
paths-note s e r = elim (Bool-cases (str_eq e.path s.path)) [
  | inl q ↦ rw q refl
  | inr q ↦ rw q (paths-add_child (dir e.relative) (with_dir e r.dirs) [])
]

filled-step :
    (s : Sip) (e : Entry) (ds : List Dir) (es : List Entry)
    → will_fill s [] (with_dir e ds) (e ∷ es) && are_filled s (paths (with_dir e ds) []) es
      ≡ will_fill s [] ds (e ∷ es) && are_filled s (paths ds []) (e ∷ es)
unfolding with_dir are_filled
filled-step s e ds es = ground (
  arith,
  will_fill-more s [] ds e.relative (e ∷ es),
  ap (λ seen. are_filled s seen es) (paths-more ds e.relative []),
)

-- No directory is reported as empty exactly if the entries fill those that are counted before them,
-- and their own.
pub empty_dirs-notes :
    (s : Sip) (es : List Entry) (r : ValidationResult)
    → is_empty (empty_dirs (notes s es r).dirs)
      ≡ will_fill s [] r.dirs es && are_filled s (paths r.dirs []) es
unfolding notes are_filled
empty_dirs-notes s [] r = ground (arith, will_fill-no_entries s [] r.dirs)
empty_dirs-notes s (e ∷ es) r =
    empty_dirs-notes s es (note s e r)
    ∙ (rw (will_fill-note s e r es, paths-note s e r) (filled-step s e r.dirs es))
