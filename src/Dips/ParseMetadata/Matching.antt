-- ===== src/Dips/ParseMetadata/Matching.antt =====
-- internal/dips/activities/parse_metadata.go: each file is found in an AIP.
use sfa_enduro_workflows.Base.{
  ◌≡◌, refl, sym, ap, ◌∙◌, inl, inr, String, ◌<>◌, Bool, true, ◌&&◌, ◌||◌, List, [], ◌∷◌, map,
  str_eq, eq_iff, contains, is_empty, contains-add, trim_prefix, answer, wrap, >>=-answer,
  wrap-answer, arith, Bool-cases,
}
use sfa_enduro_workflows.FilePath.{join}
use sfa_enduro_workflows.Manifest.Verify.{Reading, cannot_open, cannot_copy, read_all}
use sfa_enduro_workflows.Dips.ParseMetadata.{
  File, ExportFolders, MetsToken, cancelled, broken, object_broken, object, other_token, Aip,
  ParseResult, State, ids_of, has_datei, assign, without_id, Next, go_on, stop, match_ids,
  match_tokens, match_mets, match_aips, all_matched, parse_metadata, parse_export,
}
use sfa_enduro_workflows.Dips.ParseMetadata.Locations.{
  described, has_local, names_in, tokens_of, is_located, all_located, described-assign, settled,
  settled-assign,
}

module _ (located : String → String → String → Bool) where
  abbrev state_of : Next → State
  state_of (go_on s) = s
  state_of (stop s) = s

  -- What the loops keep: the files that the export describes, each of them located or unmatched
  abbrev Keeps : List (String × String × String × String) → State → Type 0
  Keeps ds s = (map described s.files ≡ ds) × (settled located s.unmatched s.files ≡ true)

  match_ids-Keeps :
      (ds : List (String × String × String × String)) (uuid path : String)
      (ids : List (String × String)) (s : State)
      → ((id : String) → has_local ids id ≡ true → located id uuid path ≡ true)
      → Keeps ds s
      → Keeps ds (state_of (match_ids uuid path ids s))
  unfolding match_ids
  match_ids-Keeps ds uuid path [] s h k = k
  match_ids-Keeps ds uuid path ((type, value) ∷ ids) s h k =
      elim (Bool-cases (str_eq type "local" && contains s.unmatched value)) [
        | inr q ↦ rw q (match_ids-Keeps ds uuid path ids s (λ id e. h id (ground arith)) k)
        | inl q ↦ elim (Bool-cases (is_empty (without_id value s.unmatched))) [
          | inl r ↦ rw (q, r) (kept q)
          | inr r ↦
              rw (q, r)
                (match_ids-Keeps ds uuid path ids found (λ id e. h id (ground arith)) (kept q))
        ]
      ]
    where
      found : State
      found = record {
        unmatched = without_id value s.unmatched;
        files = assign value uuid path s.files;
      }

      kept : str_eq type "local" && contains s.unmatched value ≡ true → Keeps ds found
      kept q = (
        described-assign value uuid path s.files ∙ k.0,
        settled-assign located s.unmatched value uuid path s.files
            (h value (ground (arith, (eq_iff value value).1 refl))) k.1,
      )

  abbrev path_of : String → String → String
  path_of dir original = join (dir ∷ trim_prefix "%transferDirectory%" original ∷ [])

  after_ids :
      (ds : List (String × String × String × String)) (uuid dir : String) (ts : List MetsToken)
      (s' : State) (n : Next)
      → ((t : State) → Keeps ds t → match_tokens uuid dir ts t ≡ answer s' → Keeps ds s')
      → Keeps ds (state_of n)
      → (elim n [ stop t ↦ answer t | go_on t ↦ match_tokens uuid dir ts t ]) ≡ answer s'
      → Keeps ds s'
  after_ids ds uuid dir ts s' (stop t) rest k e = let same : t ≡ s' = cc in rw (← same) k
  after_ids ds uuid dir ts s' (go_on t) rest k e = rest t k e

  match_tokens-Keeps :
      (ds : List (String × String × String × String)) (uuid dir : String) (ts : List MetsToken)
      (s s' : State)
      → ((id path : String) → names_in dir ts id path ≡ true → located id uuid path ≡ true)
      → Keeps ds s
      → match_tokens uuid dir ts s ≡ answer s'
      → Keeps ds s'
  unfolding match_tokens
  match_tokens-Keeps ds uuid dir [] s s' h k e = let same : s ≡ s' = cc in rw (← same) k
  match_tokens-Keeps ds uuid dir (cancelled x ∷ ts) s s' h k e =
      let no : ⊥ = ground arith in elim no [ ]
  match_tokens-Keeps ds uuid dir (broken x ∷ ts) s s' h k e =
      let no : ⊥ = ground arith in elim no [ ]
  match_tokens-Keeps ds uuid dir (object_broken x ∷ ts) s s' h k e =
      let no : ⊥ = ground arith in elim no [ ]
  match_tokens-Keeps ds uuid dir (other_token ∷ ts) s s' h k e =
      match_tokens-Keeps ds uuid dir ts s s' h k e
  match_tokens-Keeps ds uuid dir (object ids original ∷ ts) s s' h k e =
      elim (Bool-cases (str_eq (trim_prefix "%transferDirectory%" original) "")) [
        | inl q ↦
            match_tokens-Keeps ds uuid dir ts s s' (λ id p n. h id p (ground arith)) k (rw q at e)
        | inr q ↦
            after_ids ds uuid dir ts s' (match_ids uuid (path_of dir original) ids s)
              (λ t kt et.
                match_tokens-Keeps ds uuid dir ts t s' (λ id p n. h id p (ground arith)) kt et)
              (match_ids-Keeps ds uuid (path_of dir original) ids s
                (λ id n.
                  h id (path_of dir original)
                    (ground (arith, (eq_iff (path_of dir original) (path_of dir original)).1 refl)))
                k)
              (rw q at e)
      ]

  settled-all :
      (u : List String) (fs : List File)
      → ((p : String) → has_datei p fs ≡ true → contains u p ≡ true)
      → settled located u fs ≡ true
  settled-all u [] h = refl
  settled-all u (f ∷ fs) h = ground (
    arith,
    h f.datei_id (ground (arith, (eq_iff f.datei_id f.datei_id).1 refl)),
    settled-all u fs (λ p q. h p (ground arith)),
  )

contains-ids_of : (fs : List File) (p : String) → contains (ids_of fs) p ≡ has_datei p fs
unfolding ids_of
contains-ids_of [] p = refl
contains-ids_of (f ∷ fs) p =
    contains-add f.datei_id p (ids_of fs)
    ∙ ap (λ b. str_eq f.datei_id p || b) (contains-ids_of fs p)

match_mets-Keeps :
    (located : String → String → String → Bool) (ds : List (String × String × String × String))
    (a : Aip) (s s' : State)
    → ((id path : String)
        → names_in a.dir_name (tokens_of a.mets) id path ≡ true
        → located id a.uuid path ≡ true)
    → Keeps located ds s
    → match_mets a s ≡ answer s'
    → Keeps located ds s'
unfolding match_mets
match_mets-Keeps located ds a s s' h k e = by_reading a.mets refl
  where
    by_reading : (r : Reading (List MetsToken)) → a.mets ≡ r → Keeps located ds s'
    by_reading (cannot_open x) q = let no : ⊥ = ground arith in elim no [ ]
    by_reading (cannot_copy x) q = let no : ⊥ = ground arith in elim no [ ]
    by_reading (read_all ts) q =
        match_tokens-Keeps located ds a.uuid a.dir_name ts s s' (λ id p n. h id p (rw q n)) k
          (rw q at e)

match_aips-Keeps :
    (located : String → String → String → Bool) (ds : List (String × String × String × String))
    (aips : List Aip) (s s' : State)
    → ((id uuid path : String) → is_located aips id uuid path ≡ true → located id uuid path ≡ true)
    → Keeps located ds s
    → match_aips aips s ≡ answer s'
    → Keeps located ds s'
unfolding match_aips
match_aips-Keeps located ds [] s s' h k e = let same : s ≡ s' = cc in rw (← same) k
match_aips-Keeps located ds (a ∷ aips) s s' h k e = elim (Bool-cases (is_empty s.unmatched)) [
  | inl q ↦ let same : s ≡ s' = ground arith in rw (← same) k
  | inr q ↦
      let (t, first, rest) =
        >>=-answer (wrap ("parse DIP metadata: AIP " <> (a.uuid <> ": ")) (match_mets a s))
          (λ t. match_aips aips t) (rw q at e) in
      match_aips-Keeps located ds aips t s' (λ id u p n. h id u p (ground arith))
        (match_mets-Keeps located ds a s t
          (λ id p n. h id a.uuid p (ground (arith, (eq_iff a.uuid a.uuid).1 refl))) k
          (wrap-answer _ (match_mets a s) first))
        rest
]

settled-all_located :
    (aips : List Aip) (u : List String) (fs : List File)
    → is_empty u ≡ true
    → settled (is_located aips) u fs ≡ true
    → all_located aips fs ≡ true
settled-all_located aips [] [] q h = refl
settled-all_located aips [] (f ∷ fs) q h = ground (arith, settled-all_located aips [] fs)
settled-all_located aips (x ∷ xs) fs q h = let no : ⊥ = ground arith in elim no [ ]

all_matched-empty :
    (header : List File) (s : State) (r : ParseResult)
    → all_matched header s ≡ answer r
    → (is_empty s.unmatched ≡ true) × (s.files ≡ r.content_files)
unfolding all_matched
all_matched-empty header s r h = ground arith

-- If the activity returns, the content files are those of the export, in its order and with its
-- checksums, and each of them is located: one of the AIPs has its UUID, and in the METS file of this
-- AIP a PREMIS object has its ID and its path. Of several files with one ID this is said of the last.
pub parse_metadata-located :
    (export : Reading ExportFolders) (aips : List Aip) (r : ParseResult)
    → parse_metadata export aips ≡ answer r
    → (listed : ParseResult) × (parse_export export ≡ answer listed)
      × (map described r.content_files ≡ map described listed.content_files)
      × (all_located aips r.content_files ≡ true)
unfolding parse_metadata
parse_metadata-located export aips r h =
    let (listed, parsed, h1) = >>=-answer (wrap "parse DIP metadata: " (parse_export export)) _ h in
    let start : State = record {
      unmatched = ids_of listed.content_files;
      files = listed.content_files;
    } in
    let (s, matched, h2) = >>=-answer (match_aips aips start) _ h1 in
    let (none_left, same) = all_matched-empty listed.header_files s r h2 in
    let kept : Keeps (is_located aips) (map described listed.content_files) s =
      match_aips-Keeps (is_located aips) (map described listed.content_files) aips start s
        (λ id u p n. n)
        (
          refl,
          settled-all (is_located aips) (ids_of listed.content_files) listed.content_files
              (λ p q. contains-ids_of listed.content_files p ∙ q),
        )
        matched in
    (
      listed,
      wrap-answer _ (parse_export export) parsed,
      sym (ap (map described) same) ∙ kept.0,
      sym (ap (all_located aips) same)
          ∙ settled-all_located aips s.unmatched s.files none_left kept.1,
    )
