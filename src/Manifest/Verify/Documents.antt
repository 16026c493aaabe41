-- ===== src/Manifest/Verify/Documents.antt =====
-- internal/activities/verify_manifest.go with internal/manifest/manifest.go: the activity on a package
-- whose manifest is a written document.
use sfa_enduro_workflows.Base.{
  ◌≡◌, refl, ap, ◌∙◌, ◌↔◌, inl, inr, String, true, false, Option, none, some, List, [], ◌∷◌, ◌++◌,
  contains, sort, str_eq, if◌then◌else◌, join_texts, Bool-cases, answer, ◌>>=◌,
}
use sfa_enduro_workflows.FilePath.{join}
use sfa_enduro_workflows.Disk.{Disk}
use sfa_enduro_workflows.Sip.{Sip, is_aip}
use sfa_enduro_workflows.Preprocessing.{ManifestResult}
use sfa_enduro_workflows.Manifest.{Token, File, Files, insert}
use sfa_enduro_workflows.Manifest.Document.{
  Document, emit, DocumentIsPlain, Entries, last, ordner, datei, file_of, add_entries, manifest_of,
}
use sfa_enduro_workflows.Manifest.Document.RoundTrip.{parse-emit}
use sfa_enduro_workflows.Manifest.Verify.{
  Contents, read_all, generate_hash, get_manifest, place, sip_files, or_nil, is_lower_of, mismatch,
  verify_file, verify_all, verify_checksums, compare, verify_manifest,
}
use sfa_enduro_workflows.Manifest.Verify.Agreement.{ReportsNothing, Agrees, verify_manifest-Agrees}

-- No file of the manifest is nil.
abbrev NoneIsNil : Files → Type 0
NoneIsNil [] = Unit {0}
NoneIsNil ((path, none) ∷ m) = ⊥
NoneIsNil ((path, some f) ∷ m) = NoneIsNil m

insert-NoneIsNil :
    (k : String) (f : File) (m : Files) → NoneIsNil m → NoneIsNil (insert k (some f) m)
unfolding insert
insert-NoneIsNil k f [] h = tt
insert-NoneIsNil k f ((j, none) ∷ m) h = absurd h
insert-NoneIsNil k f ((j, some g) ∷ m) h = elim (Bool-cases (str_eq j k)) [
  | inl q ↦ rw q h
  | inr q ↦ rw q (insert-NoneIsNil k f m h)
]

add_entries-NoneIsNil :
    (dirs : List String) (es : Entries) (m : Files)
    → NoneIsNil m
    → NoneIsNil (add_entries dirs es m)
unfolding add_entries
add_entries-NoneIsNil dirs (last c) m h = h
add_entries-NoneIsNil dirs (ordner c inside name inner rest) m h =
    add_entries-NoneIsNil dirs rest (add_entries (dirs ++ name ∷ []) inner m)
      (add_entries-NoneIsNil (dirs ++ name ∷ []) inner m h)
add_entries-NoneIsNil dirs (datei c d rest) m h =
    add_entries-NoneIsNil dirs rest
      (insert (join_texts "/" (dirs ++ d.name ∷ [])) (some (file_of d)) m)
      (insert-NoneIsNil (join_texts "/" (dirs ++ d.name ∷ [])) (file_of d) m h)

-- The sum of each listed file that is in the package can be taken.
abbrev pub HasSum : Contents → List String → String → String × Option File → Type 0
HasSum env files root (path, none) = Unit {0}
HasSum env files root (path, some f) =
    contains files path ≡ true
    → (sum : String) × (generate_hash env (join (root ∷ path ∷ [])) f.checksum.algorithm
        ≡ answer sum)

abbrev pub HaveSums : Contents → List String → String → Files → Type 0
HaveSums env files root [] = Unit {0}
HaveSums env files root (e ∷ m) = HasSum env files root e × HaveSums env files root m

module _ (env : Contents) (files : List String) (root : String) where
  verify_file-answers :
      (path : String) (f : File) (fs : List String)
      → HasSum env files root (path, some f)
      → (out : List String) × (verify_file env files root path (some f) fs ≡ answer out)
  unfolding verify_file
  verify_file-answers path f fs sum = elim (Bool-cases (contains files path)) [
    | inr q ↦ (fs, rw q refl)
    | inl q ↦
        let (hash, e) = sum q in
        (
          if is_lower_of hash f.checksum.hash then fs else mismatch path f.checksum.hash hash ∷ fs,
          rw (q, e) refl,
        )
  ]

  verify_all-answers :
      (m : Files) (fs : List String)
      → NoneIsNil m
      → HaveSums env files root m
      → (out : List String) × (verify_all env files root m fs ≡ answer out)
  unfolding verify_all
  verify_all-answers [] fs h sums = (fs, refl)
  verify_all-answers ((path, none) ∷ m) fs h sums = absurd h
  verify_all-answers ((path, some f) ∷ m) fs h sums =
      let (fs', e) = verify_file-answers path f fs sums.0 in
      let (out, e') = verify_all-answers m fs' h sums.1 in
      (out, ap (λ x. x >>= λ xs. verify_all env files root m xs) e ∙ e')

get_manifest-emit :
    (env : Contents) (s : Sip) (d : Document) (ts : List Token)
    → DocumentIsPlain d
    → env.tokens s.manifest_path ≡ read_all (emit d ts)
    → is_aip s ≡ false
    → get_manifest env s ≡ answer (manifest_of d)
unfolding get_manifest place
get_manifest-emit env s d ts p h aip = rw (h, get_manifest, parse-emit d ts p, aip) refl

-- On a package that is no AIP, with a manifest that is a written document with plain names, with files
-- that can be listed, and with sums that can be taken of the listed files that it has, the activity
-- returns a result, and reports nothing exactly if what the document describes agrees with the
-- package.
pub verify_document :
    (env : Contents) (disk : Disk) (s : Sip) (d : Document) (ts : List Token) (files : List String)
    → DocumentIsPlain d
    → env.tokens s.manifest_path ≡ read_all (emit d ts)
    → is_aip s ≡ false
    → sip_files disk s ≡ answer files
    → HaveSums env files s.path (manifest_of d).files
    → (r : ManifestResult) × (verify_manifest env disk s ≡ answer r)
      × (ReportsNothing r ↔ Agrees env s (manifest_of d) files)
unfolding verify_manifest verify_checksums manifest_of
verify_document env disk s d ts files p h aip hf sums =
    let hm = get_manifest-emit env s d ts p h aip in
    let (out, e) =
      verify_all-answers env files s.path (manifest_of d).files []
        (add_entries-NoneIsNil [] d.entries [] tt) sums in
    let r : ManifestResult = compare s (manifest_of d) files (or_nil (sort out)) in
    let done : verify_manifest env disk s ≡ answer r = rw (hm, hf, e) refl in
    (r, done, verify_manifest-Agrees env disk s (manifest_of d) files r hm hf done)
