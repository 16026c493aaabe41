-- ===== src/Cantons/Groups.antt =====
-- internal/cantons/parse.go: what the scan of the file section of a METS file leaves in the map.
use sfa_enduro_workflows.Base.{
  ◌≡◌, refl, ap, ◌∙◌, inl, inr, String, Bool, true, false, List, [], ◌∷◌, str_eq, if◌then◌else◌,
  arith, Bool-cases,
}
use sfa_enduro_workflows.Cantons.{
  Token, end_element, Scan, get_attr, lookup, start_tag, end_tag, step, scan, initial, or_empty,
}
use sfa_enduro_workflows.Cantons.Document.{
  Files, emit_files, emit_groups, located_in, is_listed, located,
}

-- In a group, or outside of one
abbrev pub grouped : Bool → Files → Scan
grouped listed fs = record initial { in_file_grp = listed; md_files = fs }

-- The entries of the map behind the files
abbrev listed_files : Files → Files → Files
listed_files [] entries = entries
listed_files ((id, href) ∷ fs) entries =
    listed_files fs (if str_eq id "" then entries else (id, href) ∷ entries)

abbrev pub listed_groups : List (String × Files) → Files → Files
listed_groups [] entries = entries
listed_groups ((purpose, fs) ∷ gs) entries =
    listed_groups gs (if is_listed purpose then listed_files fs entries else entries)

scan-emit_files :
    (fs entries : Files) (ts : List Token)
    → scan (emit_files fs ts) (grouped true entries)
      ≡ scan ts (grouped true (listed_files fs entries))
unfolding scan step start_tag end_tag get_attr emit_files
scan-emit_files [] entries ts = refl
scan-emit_files ((id, href) ∷ fs) entries ts =
    scan-emit_files fs (if str_eq id "" then entries else (id, href) ∷ entries) ts

scan-emit_others :
    (fs entries : Files) (ts : List Token)
    → scan (emit_files fs ts) (grouped false entries) ≡ scan ts (grouped false entries)
unfolding scan step start_tag end_tag get_attr emit_files
scan-emit_others [] entries ts = refl
scan-emit_others ((id, href) ∷ fs) entries ts = scan-emit_others fs entries ts

scan-grouped :
    (listed : Bool) (fs entries : Files) (ts : List Token)
    → scan (emit_files fs ts) (grouped listed entries)
      ≡ scan ts (grouped listed (if listed then listed_files fs entries else entries))
scan-grouped true = scan-emit_files
scan-grouped false = scan-emit_others

pub same_test : (b : Bool) → (if b then true else false) ≡ b
same_test true = refl
same_test false = refl

pub scan-emit_groups :
    (gs : List (String × Files)) (entries : Files) (ts : List Token)
    → scan (emit_groups gs ts) (grouped false entries)
      ≡ scan ts (grouped false (listed_groups gs entries))
unfolding scan step start_tag end_tag get_attr emit_groups
scan-emit_groups [] entries ts = refl
scan-emit_groups ((purpose, fs) ∷ gs) entries ts =
    let listed = if is_listed purpose then true else false in
    scan-grouped listed fs entries (end_element "fileGrp" ∷ emit_groups gs ts)
    ∙ (scan-emit_groups gs (if listed then listed_files fs entries else entries) ts
        ∙ ap
            (λ b.
              scan ts
                (grouped false (listed_groups gs (if b then listed_files fs entries else entries))))
            (same_test (is_listed purpose)))

lookup-listed_files :
    (key : String) (fs entries : Files)
    → or_empty (lookup key (listed_files fs entries))
      ≡ located_in key fs (or_empty (lookup key entries))
unfolding lookup
lookup-listed_files key [] entries = refl
lookup-listed_files key ((id, href) ∷ fs) entries =
    lookup-listed_files key fs (if str_eq id "" then entries else (id, href) ∷ entries)
    ∙ ap (located_in key fs) (ground arith)

pub lookup-listed_groups :
    (key : String) (gs : List (String × Files)) (entries : Files)
    → or_empty (lookup key (listed_groups gs entries))
      ≡ located key gs (or_empty (lookup key entries))
lookup-listed_groups key [] entries = refl
lookup-listed_groups key ((purpose, fs) ∷ gs) entries = elim (Bool-cases (is_listed purpose)) [
  | inl q ↦ rw q (
      lookup-listed_groups key gs (listed_files fs entries)
      ∙ ap (located key gs) (lookup-listed_files key fs entries))
  | inr q ↦ rw q (lookup-listed_groups key gs entries)
]
