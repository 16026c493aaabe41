-- ===== src/Dips/ParseMetadata/Locations.antt =====
-- internal/dips/activities/parse_metadata.go: where the AIPs name the files, and
-- the change of a file.
use sfa_enduro_workflows.Base.{
  ◌≡◌, refl, ap, inl, inr, String, Bool, true, false, not, ◌&&◌, ◌||◌, List, [], ◌∷◌, map, str_eq,
  eq_iff, contains, trim_prefix, arith, Bool-cases,
}
use sfa_enduro_workflows.FilePath.{join}
use sfa_enduro_workflows.Manifest.Verify.{Reading, cannot_open, cannot_copy, read_all}
use sfa_enduro_workflows.Dips.ParseMetadata.{
  File, MetsToken, cancelled, broken, object_broken, object, other_token, Aip, has_datei, assign,
  without_id,
}

-- What the export says of a file
abbrev pub described : File → String × String × String × String
described f = (f.datei_id, f.dip_path, f.checksum, f.checksum_algorithm)

abbrev pub has_local : List (String × String) → String → Bool
has_local [] id = false
has_local ((type, value) ∷ ids) id = (str_eq type "local" && str_eq value id) || has_local ids id

-- A PREMIS object of the METS file has the ID, and this path.
abbrev pub names_in : String → List MetsToken → String → String → Bool
names_in dir [] id path = false
names_in dir (object ids original ∷ ts) id path =
    (not (str_eq (trim_prefix "%transferDirectory%" original) "")
      && (has_local ids id
          && str_eq (join (dir ∷ trim_prefix "%transferDirectory%" original ∷ [])) path))
    || names_in dir ts id path
names_in dir (cancelled e ∷ ts) id path = names_in dir ts id path
names_in dir (broken e ∷ ts) id path = names_in dir ts id path
names_in dir (object_broken e ∷ ts) id path = names_in dir ts id path
names_in dir (other_token ∷ ts) id path = names_in dir ts id path

abbrev pub tokens_of : Reading (List MetsToken) → List MetsToken
tokens_of (read_all ts) = ts
tokens_of (cannot_open e) = []
tokens_of (cannot_copy e) = []

-- One of the AIPs has the UUID, and its METS file names the ID and the path.
abbrev pub is_located : List Aip → String → String → String → Bool
is_located [] id uuid path = false
is_located (a ∷ aips) id uuid path =
    (str_eq a.uuid uuid && names_in a.dir_name (tokens_of a.mets) id path)
    || is_located aips id uuid path

-- Each file is located, but for one that is followed by a file with its ID.
abbrev pub all_located : List Aip → List File → Bool
all_located aips [] = true
all_located aips (f ∷ fs) =
    (has_datei f.datei_id fs || is_located aips f.datei_id f.aip_uuid f.aip_path)
    && all_located aips fs

contains-without_id :
    (id p : String) (xs : List String)
    → contains (without_id id xs) p ≡ contains xs p && not (str_eq id p)
unfolding without_id
contains-without_id id p [] = refl
contains-without_id id p (x ∷ xs) =
    ground (arith, contains-without_id id p xs, eq_iff x id, eq_iff x p, eq_iff id p)

has_datei-assign :
    (id uuid path p : String) (fs : List File)
    → has_datei p (assign id uuid path fs) ≡ has_datei p fs
unfolding assign
has_datei-assign id uuid path p [] = refl
has_datei-assign id uuid path p (f ∷ fs) = ground (arith, has_datei-assign id uuid path p fs)

pub described-assign :
    (id uuid path : String) (fs : List File)
    → map described (assign id uuid path fs) ≡ map described fs
unfolding assign
described-assign id uuid path [] = refl
described-assign id uuid path (f ∷ fs) = elim (Bool-cases (has_datei id fs)) [
  | inl q ↦ rw q (ap (◌∷◌ (described f)) (described-assign id uuid path fs))
  | inr q ↦ elim (Bool-cases (str_eq f.datei_id id)) [
    | inl r ↦ rw (q, r) refl
    | inr r ↦ rw (q, r) refl
  ]
]

module _ (located : String → String → String → Bool) where
  -- Each file is located or unmatched, but for one that is followed by a file with its ID.
  abbrev pub settled : List String → List File → Bool
  settled u [] = true
  settled u (f ∷ fs) =
      (has_datei f.datei_id fs
        || (contains u f.datei_id || located f.datei_id f.aip_uuid f.aip_path))
      && settled u fs

  settled-without :
      (u : List String) (id : String) (fs : List File)
      → has_datei id fs ≡ false
      → settled u fs ≡ true
      → settled (without_id id u) fs ≡ true
  settled-without u id [] h k = refl
  settled-without u id (f ∷ fs) h k = ground (
    arith,
    settled-without u id fs,
    contains-without_id id f.datei_id u,
    eq_iff id f.datei_id,
    eq_iff f.datei_id id,
  )

  pub settled-assign :
      (u : List String) (id uuid path : String) (fs : List File)
      → located id uuid path ≡ true
      → settled u fs ≡ true
      → settled (without_id id u) (assign id uuid path fs) ≡ true
  unfolding assign
  settled-assign u id uuid path [] h k = refl
  settled-assign u id uuid path (f ∷ fs) h k = elim (Bool-cases (has_datei id fs)) [
    | inl q ↦ elim (Bool-cases (str_eq f.datei_id id)) [
      | inl r ↦ rw q (
          ground (
            arith,
            settled-assign u id uuid path fs h,
            has_datei-assign id uuid path f.datei_id fs,
            ap (λ t. has_datei t fs) ((eq_iff f.datei_id id).0 r),
          ))
      | inr r ↦ rw q (
          ground (
            arith,
            settled-assign u id uuid path fs h,
            has_datei-assign id uuid path f.datei_id fs,
            contains-without_id id f.datei_id u,
            eq_iff id f.datei_id,
            eq_iff f.datei_id id,
          ))
    ]
    | inr q ↦ elim (Bool-cases (str_eq f.datei_id id)) [
      | inl r ↦
          rw (q, r)
            (ground (
              arith,
              settled-without u id fs q,
              ap (λ t. located t uuid path) ((eq_iff f.datei_id id).0 r),
            ))
      | inr r ↦
          rw (q, r)
            (ground (
              arith,
              settled-without u id fs q,
              contains-without_id id f.datei_id u,
              eq_iff id f.datei_id,
              eq_iff f.datei_id id,
            ))
    ]
  ]
