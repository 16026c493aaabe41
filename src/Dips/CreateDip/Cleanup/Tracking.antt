-- ===== src/Dips/CreateDip/Cleanup/Tracking.antt =====
-- internal/dips/workflows/create_dip.go: what keeps track of the object, before its upload.
use sfa_enduro_workflows.Base.{
  ℕ, zero, suc, ◌≡◌, ◌⊎◌, inl, inr, String, ◌<>◌, Bool, true, false, Option, none, some, List, [],
  ◌∷◌, map, Bool-cases, is_empty, arith,
}
use sfa_enduro_workflows.FilePath.{join}
use sfa_enduro_workflows.Workflow.{Err, Result, ok, err}
use sfa_enduro_workflows.Dips.CreateDip.{
  ContentFile, Metadata, ExportStatus, Environment, Config, Aip, State, Action, ◌>>=◌, ◌>>◌,
  continue, pure, fail, attempt, execute, create_export, poll_export_status, download_export,
  xmlvalidate, parse_metadata, is_lost, or_report,
}
use sfa_enduro_workflows.Dips.CreateDip.Session.{
  check_export, fetch_metadata, delay, try_fetch, exhausted, fetch_attempts, fetch_mets, report_all,
  check_files, parsed_aip, fetch_file, fetch_content, parse, collect_metadata, prepare_header,
}
use sfa_enduro_workflows.Dips.CreateDip.Cleanup.{has_upload}

-- An action that keeps a property of the state.
abbrev pub Keeps : {A : Type 0} → (State → Type 0) → Action A → Type 0
Keeps P m = (s : State) → P s → P (m s).1

module _ {P : State → Type 0} {A : Type 0} where
  pub Keeps-bind :
      {B : Type 0} (m : Action A) (f : A → Action B)
      → Keeps P m
      → ((x : A) → Keeps P (f x))
      → Keeps P (m >>= f)
  Keeps-bind m f first rest s p = go (m s).0 (m s).1 (first s p)
    where
      go : (r : Result A) (s' : State) → P s' → P (continue r f s').1
      go (ok x) s' q = rest x s' q
      go (err e) s' q = q

  pub Keeps-test :
      (test : Bool) (m n : Action A)
      → Keeps P m
      → Keeps P n
      → Keeps P (elim test [ true ↦ m | false ↦ n ])
  Keeps-test true m n x y = x
  Keeps-test false m n x y = y

pub Keeps-result :
    {P : State → Type 0} {A B : Type 0} (r : Result A) (m : A → Action B) (n : Err → Action B)
    → ((x : A) → Keeps P (m x))
    → ((e : Err) → Keeps P (n e))
    → Keeps P (elim r [ ok x ↦ m x | err e ↦ n e ])
Keeps-result (ok x) m n h k = h x
Keeps-result (err e) m n h k = k e

-- No upload of the key was asked for, or the key is that of the DIP, and the state holds it.
abbrev pub key_of : String → String
key_of id = "DIP_" <> (id <> ".zip")

abbrev pub Tracks : String → String → State → Type 0
Tracks key id s =
    (s.dip.uuid ≡ id)
    × ((has_upload key s.calls ≡ false) ⊎ ((key ≡ key_of id) × (s.object_key ≡ key)))

module _ (env : Environment) (cfg : Config) (key id : String) where
  -- An action that keeps track of the object.
  abbrev pub Safe : {A : Type 0} → Action A → Type 0
  Safe m = Keeps (Tracks key id) m

  pub or_report-Safe : {A : Type 0} (prefix : String) (r : Result A) → Safe (or_report prefix r)
  or_report-Safe prefix (ok x) s p = p
  or_report-Safe prefix (err e) s p = p

  check_export-Safe : (status : ExportStatus) → Safe (check_export env cfg status)
  unfolding check_export
  check_export-Safe status s p = elim (Bool-cases status.completed) [
    | inl q ↦ rw q p
    | inr q ↦ rw q p
  ]

  fetch_metadata-Safe : (doc_key path : String) → Safe (fetch_metadata env cfg doc_key path)
  unfolding fetch_metadata
  fetch_metadata-Safe doc_key path =
      Keeps-bind (execute (create_export doc_key) env.create_export_reply) _ (λ s p. p)
        λ id.
          Keeps-bind (execute (poll_export_status id) env.poll_export_status_reply) _ (λ s p. p)
            λ status. Keeps-bind (check_export env cfg status) _ (check_export-Safe status) λ _.
              Keeps-bind (execute (download_export id path) env.download_export_reply) _ (λ s p. p)
                λ _.
                  Keeps-bind
                    (execute (xmlvalidate path (join (cfg.xsd_dir ∷ "arelda.xsd" ∷ [])))
                      env.xmlvalidate_reply)
                    _ (λ s p. p)
                    λ failures s p. elim (Bool-cases (is_empty failures)) [
                      | inl q ↦ rw q p
                      | inr q ↦ rw q p
                    ]

  try_fetch-Safe : (path : String) → Safe (try_fetch env cfg path)
  unfolding try_fetch
  try_fetch-Safe path s = fetch_metadata-Safe s.dip.doc_key path s

  delay-Safe : (last : Option Err) → Safe (delay env cfg last)
  unfolding delay
  delay-Safe none s p = p
  delay-Safe (some e) s p = p

  pub fetch_attempts-Safe :
      (left : ℕ) (last : Option Err) (path : String) → Safe (fetch_attempts env cfg left last path)
  unfolding fetch_attempts exhausted
  fetch_attempts-Safe zero last path = λ s p. p
  fetch_attempts-Safe (suc left) last path =
      Keeps-bind (delay env cfg last) _ (delay-Safe last) λ _.
        Keeps-bind (try_fetch env cfg path) _ (try_fetch-Safe path) λ fetched.
          Keeps-result fetched pure
            (λ e. elim (is_lost e) [
              | true ↦ fail e
              | false ↦ fetch_attempts env cfg left (some e) path
            ])
            (λ x s p. p)
            (λ e.
              Keeps-test (is_lost e) (fail e) (fetch_attempts env cfg left (some e) path) (λ s p. p)
                (fetch_attempts-Safe left (some e) path))

  fetch_mets-Safe :
      (dir : String) (aips : List Aip) (errors : Option Err)
      → Safe (fetch_mets env cfg dir aips errors)
  unfolding fetch_mets
  fetch_mets-Safe dir [] errors s p = p
  fetch_mets-Safe dir (a ∷ aips) errors s p = fetch_mets-Safe dir aips _ _ p

  report_all-Safe : (prefix : String) (e : Option Err) → Safe (report_all env cfg prefix e)
  unfolding report_all
  report_all-Safe prefix none s p = p
  report_all-Safe prefix (some e) s p = p

  check_files-Safe : (m : Metadata) → Safe (check_files env cfg m)
  unfolding check_files
  check_files-Safe m s p = ground (arith, p)

  abbrev checked : Metadata → Action Metadata
  checked m = check_files env cfg m >> pure m

  abbrev reported : Result Metadata → Action Metadata
  reported r = or_report "DIP metadata parsing failed: " r >>= checked

  parse-Safe : (dir path : String) (aips : List Aip) → Safe (parse env cfg dir path aips)
  unfolding parse
  parse-Safe dir path aips =
      Keeps-bind
        (attempt (parse_metadata path (map (parsed_aip env cfg dir) aips)) env.parse_metadata_reply)
        reported (λ s p. p)
        λ r.
          Keeps-bind (or_report "DIP metadata parsing failed: " r) checked (or_report-Safe _ r)
            λ m. Keeps-bind (check_files env cfg m) (λ _. pure m) (check_files-Safe m) λ _ s p. p

  pub collect_metadata-Safe :
      (dir path : String) (aips : List Aip) → Safe (collect_metadata env cfg dir path aips)
  unfolding collect_metadata
  collect_metadata-Safe dir path aips =
      Keeps-bind (fetch_mets env cfg dir aips none) _ (fetch_mets-Safe dir aips none) λ errors.
        Keeps-bind (report_all env cfg "AMSS AIP METS download failed:\n" errors) _
          (report_all-Safe _ errors) λ _. parse-Safe dir path aips

  pub prepare_header-Safe :
      (dir path : String) (files : List String) → Safe (prepare_header env cfg dir path files)
  unfolding prepare_header
  prepare_header-Safe dir path files s p = or_report-Safe "DIP preparation failed: " _ _ p

  pub fetch_content-Safe :
      (dir : String) (files : List ContentFile) → Safe (fetch_content env cfg dir files)
  unfolding fetch_content fetch_file
  fetch_content-Safe dir [] = λ s p. p
  fetch_content-Safe dir (f ∷ files) =
      Keeps-bind (fetch_file env cfg dir f) _ (λ s p. or_report-Safe _ _ _ p)
        λ _. fetch_content-Safe dir files
