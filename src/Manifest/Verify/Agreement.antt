-- ===== src/Manifest/Verify/Agreement.antt =====
-- internal/activities/verify_manifest.go: the activity reports nothing exactly if the manifest and
-- the package agree.
use sfa_enduro_workflows.Base.{
  ◌≡◌, refl, sym, ◌∙◌, ◌↔◌, inl, inr, String, ◌<>◌, Bool, true, false, Option, none, some, List, [],
  ◌∷◌, map, contains, is_empty, sort, difference, contains-difference, is_empty-sort, if◌then◌else◌,
  eq_iff, arith, Bool-cases, Answer, answer, error, panic, ◌>>=◌, wrap, >>=-answer,
}
use sfa_enduro_workflows.FilePath.{join, base}
use sfa_enduro_workflows.Disk.{Disk}
use sfa_enduro_workflows.Sip.{Sip}
use sfa_enduro_workflows.Preprocessing.{ManifestResult}
use sfa_enduro_workflows.Manifest.{File, Files, Manifest, allowed_schema_versions}
use sfa_enduro_workflows.Manifest.Verify.{
  Contents, generate_hash, keys, get_manifest, sip_files, or_nil, missing_files, unexpected_files,
  is_lower_of, mismatch, verify_file, verify_all, verify_checksums, version_failures, compare,
  verify_manifest,
}

-- The four slices of the result are nil.
abbrev pub ReportsNothing : ManifestResult → Type 0
ReportsNothing r =
    (r.checksum_failures ≡ none)
    × (r.manifest_failures ≡ none)
    × (r.missing_files ≡ none)
    × (r.unexpected_files ≡ none)

-- A listed file that is in the package has the sum that the manifest gives.
abbrev pub SumAgrees : Contents → List String → String → String × Option File → Type 0
SumAgrees env files root (path, none) = contains files path ≡ false
SumAgrees env files root (path, some f) =
    contains files path ≡ true
    → (sum : String) × (generate_hash env (join (root ∷ path ∷ [])) f.checksum.algorithm
        ≡ answer sum)
      × (is_lower_of sum f.checksum.hash ≡ true)

abbrev pub SumsAgree : Contents → List String → String → Files → Type 0
SumsAgree env files root [] = Unit {0}
SumsAgree env files root (e ∷ m) = SumAgrees env files root e × SumsAgree env files root m

contains-empty : (xs : List String) → is_empty xs ≡ true → (p : String) → contains xs p ≡ false
contains-empty [] h p = refl
contains-empty (x ∷ xs) h p = cc

empty-contains : (xs : List String) → ((p : String) → contains xs p ≡ false) → is_empty xs ≡ true
empty-contains [] h = refl
empty-contains (x ∷ xs) h = ground (arith, h x, eq_iff x x)

or_nil-is_empty : (xs : List String) → (or_nil xs ≡ none) ↔ (is_empty xs ≡ true)
unfolding or_nil
or_nil-is_empty [] = (λ _. refl, λ _. refl)
or_nil-is_empty (x ∷ xs) = (λ h. cc, λ h. cc)

is_empty-map : (f : String → String) (xs : List String) → is_empty (map f xs) ≡ is_empty xs
is_empty-map f [] = refl
is_empty-map f (x ∷ xs) = refl

or_nil-reports :
    (f : String → String) (xs : List String)
    → (or_nil (map f (sort xs)) ≡ none) ↔ (is_empty xs ≡ true)
or_nil-reports f xs =
    let e = is_empty-map f (sort xs) ∙ is_empty-sort xs in
    (
      λ h. sym e ∙ (or_nil-is_empty (map f (sort xs))).0 h,
      λ h. (or_nil-is_empty (map f (sort xs))).1 (e ∙ h),
    )

-- Nothing is reported of a difference exactly if the first set is a part of the second one.
difference-reports :
    (f : String → String) (xs ys : List String)
    → (or_nil (map f (sort (difference xs ys))) ≡ none)
      ↔ ((p : String) → contains xs p ≡ true → contains ys p ≡ true)
difference-reports f xs ys = (
  λ h p hp. ground (
    arith,
    contains-empty (difference xs ys) ((or_nil-reports f (difference xs ys)).0 h) p,
    contains-difference p xs ys,
  ),
  λ sub.
      (or_nil-reports f (difference xs ys)).1 (
        empty-contains (difference xs ys)
          (λ p. ground (arith, contains-difference p xs ys, sub p))),
)

module _ (env : Contents) (files : List String) (root : String) where
  hashed :
      (path : String) (f : File) (fs fs' : List String) (got : Answer String)
      → generate_hash env (join (root ∷ path ∷ [])) f.checksum.algorithm ≡ got
      → (got >>= λ hash. answer (
          if is_lower_of hash f.checksum.hash then fs else mismatch path f.checksum.hash hash ∷ fs))
        ≡ answer fs'
      → (is_empty fs' ≡ true) ↔ (
          (is_empty fs ≡ true)
          × ((sum : String) × (generate_hash env (join (root ∷ path ∷ [])) f.checksum.algorithm
                ≡ answer sum)
              × (is_lower_of sum f.checksum.hash ≡ true)))
  hashed path f fs fs' (answer sum) e h = elim (Bool-cases (is_lower_of sum f.checksum.hash)) [
    | inl q ↦ (λ k. (ground arith, (sum, e, q)), λ k. ground arith)
    | inr q ↦ (
      λ k. let no : ⊥ = ground arith in elim no [ ],
      λ (k0, (sum', e', q')). let no : ⊥ = ground arith in elim no [ ],
    )
  ]
  hashed path f fs fs' (error x) e h = let no : ⊥ = ground arith in elim no [ ]
  hashed path f fs fs' panic e h = let no : ⊥ = ground arith in elim no [ ]

  verify_file-SumAgrees :
      (path : String) (f : Option File) (fs fs' : List String)
      → verify_file env files root path f fs ≡ answer fs'
      → (is_empty fs' ≡ true) ↔ ((is_empty fs ≡ true) × SumAgrees env files root (path, f))
  unfolding verify_file
  verify_file-SumAgrees path none fs fs' h = elim (Bool-cases (contains files path)) [
    | inl q ↦ let no : ⊥ = ground arith in elim no [ ]
    | inr q ↦ (λ k. (ground arith, q), λ k. ground arith)
  ]
  verify_file-SumAgrees path (some f) fs fs' h = elim (Bool-cases (contains files path)) [
    | inl q ↦
        let both = hashed path f fs fs' _ refl (rw q at h) in
        (λ k. ((both.0 k).0, λ _. (both.0 k).1), λ (k, sums). both.1 (k, sums q))
    | inr q ↦ (λ k. (ground arith, λ k'. let no : ⊥ = cc in elim no [ ]), λ k. ground arith)
  ]

  verify_all-SumsAgree :
      (m : Files) (fs out : List String)
      → verify_all env files root m fs ≡ answer out
      → (is_empty out ≡ true) ↔ ((is_empty fs ≡ true) × SumsAgree env files root m)
  unfolding verify_all
  verify_all-SumsAgree [] fs out h = (λ k. (ground arith, tt), λ k. ground arith)
  verify_all-SumsAgree ((path, f) ∷ m) fs out h =
      let (fs', e, h') =
        >>=-answer (verify_file env files root path f fs) (λ xs. verify_all env files root m xs)
          h in
      let here = verify_file-SumAgrees path f fs fs' e in
      let later = verify_all-SumsAgree m fs' out h' in
      (
        λ k. ((here.0 (later.0 k).0).0, ((here.0 (later.0 k).0).1, (later.0 k).1)),
        λ (k, (sum, sums)). later.1 (here.1 (k, sum), sums),
      )

-- The manifest has a version that is supported, lists the files that the package has and no others,
-- and gives their sums.
abbrev pub Agrees : Contents → Sip → Manifest → List String → Type 0
Agrees env s m files =
    (contains allowed_schema_versions m.schema_version ≡ true)
    × ((p : String) → contains (keys m.files) p ≡ contains files p)
    × SumsAgree env files s.path m.files

Bool-antisym : (a b : Bool) → (a ≡ true → b ≡ true) → (b ≡ true → a ≡ true) → a ≡ b
Bool-antisym true b f g = sym (f refl)
Bool-antisym false true f g = g refl
Bool-antisym false false f g = refl

version-reports :
    (v : String) → (version_failures v ≡ none) ↔ (contains allowed_schema_versions v ≡ true)
unfolding version_failures
version-reports v = elim (Bool-cases (contains allowed_schema_versions v)) [
  | inl q ↦ (λ h. q, λ h. rw q refl)
  | inr q ↦ (λ h. let no : ⊥ = ground arith in elim no [ ], λ h. let no : ⊥ = cc in elim no [ ])
]

sums-report :
    (env : Contents) (m : Files) (files : List String) (root : String)
    (failures : Option (List String))
    → verify_checksums env m files root ≡ answer failures
    → (failures ≡ none) ↔ SumsAgree env files root m
unfolding verify_checksums
sums-report env m files root failures h =
    let (out, e, h') =
      >>=-answer (verify_all env files root m []) (λ fs. answer (or_nil (sort fs))) h in
    let all = verify_all-SumsAgree env files root m [] out e in
    let sorted = or_nil-is_empty (sort out) in
    let same : or_nil (sort out) ≡ failures = cc in
    (
      λ k. (all.0 (sym (is_empty-sort out) ∙ sorted.0 (same ∙ k))).1,
      λ k. sym same ∙ sorted.1 (is_empty-sort out ∙ all.1 (refl, k)),
    )

compare-Agrees :
    (env : Contents) (s : Sip) (m : Manifest) (files : List String)
    (failures : Option (List String))
    → verify_checksums env m.files files s.path ≡ answer failures
    → ReportsNothing (compare s m files failures) ↔ Agrees env s m files
unfolding compare missing_files unexpected_files
compare-Agrees env s m files failures h =
    let sums = sums-report env m.files files s.path failures h in
    let version = version-reports m.schema_version in
    let missing =
      difference-reports (λ p. "Missing file: " <> join (base s.path ∷ p ∷ [])) (keys m.files)
        files in
    let unexpected =
      difference-reports (λ p. "Unexpected file: " <> join (base s.path ∷ p ∷ [])) files
        (keys m.files) in
    (
      λ (a, b, c, d).
          (version.0 b, λ p. Bool-antisym _ _ (missing.0 c p) (unexpected.0 d p), sums.0 a),
      λ (b, same, a). (
        sums.1 a,
        version.1 b,
        missing.1 (λ p hp. sym (same p) ∙ hp),
        unexpected.1 (λ p hp. same p ∙ hp),
      ),
    )

-- If the manifest of a package can be parsed, its files can be listed, and the activity returns a
-- result, then the result reports nothing exactly if the manifest agrees with the package: its schema
-- version is one of the two that are allowed, it lists the files of the package and no others, and
-- each of them has the sum that is listed for it.
pub verify_manifest-Agrees :
    (env : Contents) (disk : Disk) (s : Sip) (m : Manifest) (files : List String)
    (r : ManifestResult)
    → get_manifest env s ≡ answer m
    → sip_files disk s ≡ answer files
    → verify_manifest env disk s ≡ answer r
    → ReportsNothing r ↔ Agrees env s m files
unfolding verify_manifest
verify_manifest-Agrees env disk s m files r hm hf h = by_sums _ refl (rw (hm, hf) at h)
  where
    by_sums :
        (found : Answer (Option (List String)))
        → verify_checksums env m.files files s.path ≡ found
        → (wrap "verify checksums: " found >>= λ failures. answer (compare s m files failures))
          ≡ answer r
        → ReportsNothing r ↔ Agrees env s m files
    by_sums (answer failures) e q =
        let same : compare s m files failures ≡ r = cc in
        rw (← same) (compare-Agrees env s m files failures e)
    by_sums (error x) e q = let no : ⊥ = ground arith in elim no [ ]
    by_sums panic e q = let no : ⊥ = ground arith in elim no [ ]
