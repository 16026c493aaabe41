-- ===== src/Cantons/Locations.antt =====
-- internal/cantons/parse.go: the scan of a METS file finds its metadata files.
use sfa_enduro_workflows.Base.{
  ◌≡◌, refl, sym, ap, ◌∙◌, inl, inr, String, Bool, true, false, List, [], ◌∷◌, ◌&&◌, ◌||◌, str_eq,
  eq_iff, if◌then◌else◌, arith, Bool-cases,
}
use sfa_enduro_workflows.Cantons.{
  Token, end_element, Scan, get_attr, start_div, start_fptr, start_tag, end_tag, step, scan,
  initial, result, parse,
}
use sfa_enduro_workflows.Cantons.Document.{
  Files, Divs, last, leaf, folder, Document, emit_divs, emit_maps, emit, FoldersArePlain,
  MapsArePlain, updated_in, first_in, header_in, in_maps, described,
}
use sfa_enduro_workflows.Cantons.Groups.{
  listed_groups, same_test, scan-emit_groups, lookup-listed_groups,
}

-- In a physical map: whether nothing has ended behind the start of a header, and the two IDs.
abbrev inside : Bool → String → String → Files → Scan
inside header updated md entries = record initial {
  in_struct_map = true;
  in_header_div = header;
  uamd_file_id = updated;
  md_file_id = md;
  md_files = entries;
}

abbrev hit : Bool → Divs → String → String
hit header ds before = if header then first_in ds before else before

-- The header is still open.
abbrev stays : Bool → Divs → Bool
stays header last = header
stays header (leaf label id rest) = false
stays header (folder label inner rest) = false

abbrev after_divs : Bool → Divs → String → String → Files → Scan
after_divs header ds updated md entries =
    inside (stays header ds) (updated_in ds updated) (header_in ds (hit header ds md)) entries

-- A file called metadata.xml is not the header itself.
leaf_md :
    (header : Bool) (label id md : String)
    → (if (if (if str_eq label "header" then true else header) && str_eq label "metadata.xml"
          then true
          else false)
        then id
        else md)
      ≡ hit header (leaf label id last) md
leaf_md header label id md = elim (Bool-cases (str_eq label "metadata.xml")) [
  | inl q ↦ rw ((eq_iff label "metadata.xml").0 q) (ground arith)
  | inr q ↦ rw q (ground arith)
]

leaf_end :
    (header : Bool) (label id updated md : String) (entries : Files)
    → end_tag "div" (start_fptr id (start_div label (inside header updated md entries)))
      ≡ inside false
          (if str_eq label "UpdatedAreldaMetadata.xml" then id else updated)
          (hit header (leaf label id last) md)
          entries
unfolding start_div start_fptr end_tag
leaf_end header label id updated md entries =
    rw (leaf_md header label id md, same_test (str_eq label "UpdatedAreldaMetadata.xml")) refl

header_test : (a h : Bool) → (if a then true else h) ≡ a || h
header_test true h = refl
header_test false h = refl

folder_start :
    (header : Bool) (label updated md : String) (entries : Files)
    → str_eq label "UpdatedAreldaMetadata.xml" ≡ false
    → str_eq label "metadata.xml" ≡ false
    → start_div label (inside header updated md entries)
      ≡ inside (str_eq label "header" || header) updated md entries
unfolding start_div
folder_start header label updated md entries p q =
    rw (p, q, header_test (str_eq label "header") header) (ground arith)

folder_end :
    (header : Bool) (updated md : String) (entries : Files)
    → end_tag "div" (inside header updated md entries) ≡ inside false updated md entries
unfolding end_tag
folder_end header updated md entries = refl

first_in-first_in : (ds : Divs) (md : String) → first_in ds (first_in ds md) ≡ first_in ds md
first_in-first_in last md = refl
first_in-first_in (leaf label id rest) md = ground arith
first_in-first_in (folder label inner rest) md = first_in-first_in inner md

-- What the header finds in a folder, if it is still open there or starts there.
hit-folder :
    (starts header : Bool) (inner : Divs) (md : String)
    → hit (starts || header) inner md
      ≡ (if starts then first_in inner (hit header inner md) else hit header inner md)
hit-folder true true inner md = sym (first_in-first_in inner md)
hit-folder true false inner md = refl
hit-folder false true inner md = refl
hit-folder false false inner md = refl

closed : (ds : Divs) → stays false ds ≡ false
closed last = refl
closed (leaf label id rest) = refl
closed (folder label inner rest) = refl

scan-emit_divs :
    (ds : Divs) (header : Bool) (updated md : String) (entries : Files) (ts : List Token)
    → FoldersArePlain ds
    → scan (emit_divs ds ts) (inside header updated md entries)
      ≡ scan ts (after_divs header ds updated md entries)
unfolding scan step start_tag get_attr emit_divs
scan-emit_divs last true updated md entries ts h = refl
scan-emit_divs last false updated md entries ts h = refl
scan-emit_divs (leaf label id rest) header updated md entries ts h =
    let u = if str_eq label "UpdatedAreldaMetadata.xml" then id else updated in
    let m = hit header (leaf label id last) md in
    ap (scan (emit_divs rest ts)) (leaf_end header label id updated md entries)
    ∙ (scan-emit_divs rest false u m entries ts h
        ∙ ap (λ b. scan ts (inside b (updated_in rest u) (header_in rest m) entries)) (closed rest))
scan-emit_divs (folder label inner rest) header updated md entries ts (p, q, h, k) =
    let starts = str_eq label "header" in
    let found = header_in inner (hit (starts || header) inner md) in
    let u = updated_in inner updated in
    ap (scan (emit_divs inner (end_element "div" ∷ emit_divs rest ts)))
      (folder_start header label updated md entries p q)
    ∙ (scan-emit_divs inner (starts || header) updated md entries
          (end_element "div" ∷ emit_divs rest ts) h
        ∙ (scan-emit_divs rest false u found entries ts k
            ∙ (ap (λ b. scan ts (inside b (updated_in rest u) (header_in rest found) entries))
                  (closed rest)
                ∙ ap
                    (λ m. scan ts (
                      inside false (updated_in rest u) (header_in rest (header_in inner m))
                        entries))
                    (hit-folder starts header inner md))))

-- Between the maps
abbrev outside : String → String → Files → Scan
outside updated md entries = record initial {
  uamd_file_id = updated;
  md_file_id = md;
  md_files = entries;
}

-- A map of another type changes nothing.
scan-emit_other :
    (ds : Divs) (updated md : String) (entries : Files) (ts : List Token)
    → scan (emit_divs ds ts) (outside updated md entries) ≡ scan ts (outside updated md entries)
unfolding scan step start_tag start_div start_fptr end_tag get_attr emit_divs
scan-emit_other last updated md entries ts = refl
scan-emit_other (leaf label id rest) updated md entries ts =
    scan-emit_other rest updated md entries ts
scan-emit_other (folder label inner rest) updated md entries ts =
    scan-emit_other inner updated md entries (end_element "div" ∷ emit_divs rest ts)
    ∙ scan-emit_other rest updated md entries ts

scan-map :
    (physical : Bool) (ds : Divs) (updated md : String) (entries : Files) (ts : List Token)
    → FoldersArePlain ds
    → scan
        (emit_divs ds (end_element "structMap" ∷ ts))
        (record (outside updated md entries) { in_struct_map = physical })
      ≡ scan ts (
          outside
            (if physical then updated_in ds updated else updated)
            (if physical then header_in ds md else md)
            entries)
unfolding scan step end_tag
scan-map true ds updated md entries ts h =
    scan-emit_divs ds false updated md entries (end_element "structMap" ∷ ts) h
    ∙ ap
        (λ b. scan ts (record (outside (updated_in ds updated) (header_in ds md) entries) {
          in_header_div = b;
        }))
        (closed ds)
scan-map false ds updated md entries ts h =
    scan-emit_other ds updated md entries (end_element "structMap" ∷ ts)

scan-emit_maps :
    (ms : List (String × Divs)) (updated md : String) (entries : Files) (ts : List Token)
    → MapsArePlain ms
    → scan (emit_maps ms ts) (outside updated md entries)
      ≡ scan ts (outside (in_maps updated_in ms updated) (in_maps header_in ms md) entries)
unfolding scan step start_tag get_attr emit_maps
scan-emit_maps [] updated md entries ts h = refl
scan-emit_maps ((type, ds) ∷ ms) updated md entries ts (plain, h) =
    let physical = str_eq type "physical" in
    ap
      (λ b.
        scan (emit_divs ds (end_element "structMap" ∷ emit_maps ms ts))
          (record (outside updated md entries) { in_struct_map = b }))
      (same_test physical)
    ∙ (scan-map physical ds updated md entries (emit_maps ms ts) plain
        ∙ scan-emit_maps ms (if physical then updated_in ds updated else updated)
            (if physical then header_in ds md else md) entries ts h)

-- In a METS file with groups of files and structural maps, of which no folder has the name of one of
-- the two metadata files, the scan finds the locations of both files. UpdatedAreldaMetadata.xml is the
-- last file of this name in a physical map, metadata.xml the one that stands before all that ends in a
-- folder `header` of a physical map, in the last such folder. The location of either is that of the
-- last file with its ID in the groups for metadata and originals, and empty if there is no such file.
pub parse-described : (d : Document) → MapsArePlain d.maps → parse (emit d) ≡ described d
unfolding parse result scan
parse-described d plain =
    let entries = listed_groups d.groups [] in
    let found = λ (key : String). lookup-listed_groups key d.groups [] in
    ap result (
      scan-emit_groups d.groups [] (emit_maps d.maps [])
      ∙ scan-emit_maps d.maps "" "" entries [] plain)
    ∙ rw (found (in_maps updated_in d.maps ""), found (in_maps header_in d.maps "")) refl
