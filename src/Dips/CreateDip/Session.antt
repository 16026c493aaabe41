-- ===== src/Dips/CreateDip/Session.antt =====
-- internal/dips/workflows/create_dip.go: fetchMetadata, fetchValidMetadata and sessionHandler.
use sfa_enduro_workflows.Base.{
  ℕ, zero, suc, String, ◌<>◌, true, false, Option, none, some, List, [], ◌∷◌, ◌++◌, map, str_eq,
  if◌then◌else◌, is_empty, join_texts, before_first, quote,
}
use sfa_enduro_workflows.FilePath.{join, base}
use sfa_enduro_workflows.Workflow.{Err, plain, Result, ok, err}
use sfa_enduro_workflows.Dips.CreateDip.{
  FetchParams, ParsedAip, ContentFile, Metadata, ExportStatus, create_export, poll_export_status,
  download_export, xmlvalidate, fetch, parse_metadata, prepare_dip, archive_zip, bucket_upload,
  remove_paths, complete_session, sleep, Environment, Config, Aip, State, Action, ◌>>=◌, ◌>>◌, pure,
  fail, attempt, execute, set_error_message, activity_error_message, error_text, is_lost, or_report,
  join_errors,
}

-- exportRetryDelay, in nanoseconds
abbrev pub export_retry_delay : ℕ
export_retry_delay = 10000000000

-- maxExportAttempts
abbrev pub max_export_attempts : ℕ
max_export_attempts = 3

module _ (env : Environment) (cfg : Config) where
  unfoldable pub check_export : ExportStatus → Action (Unit {0})
  check_export status =
      if status.completed
      then pure tt
      else fail (
          plain (
            ("export status: " <> status.status)
            <> (if str_eq status.logs "" then "" else "\nLogs:\n" <> status.logs)))

  -- fetchMetadata
  unfoldable pub fetch_metadata : String → String → Action (Unit {0})
  unfolding check_export
  fetch_metadata doc_key path = do
    id ← execute (create_export doc_key) env.create_export_reply
    status ← execute (poll_export_status id) env.poll_export_status_reply
    check_export status
    execute (download_export id path) env.download_export_reply
    failures ←
        execute (xmlvalidate path (join (cfg.xsd_dir ∷ "arelda.xsd" ∷ []))) env.xmlvalidate_reply
    if is_empty failures
        then pure tt
        else fail (plain ("metadata validation failed:\n" <> join_texts "\n" failures))

  -- The delay before each attempt but the first, that is, behind an error.
  unfoldable pub delay : Option Err → Action (Unit {0})
  delay none = pure tt
  delay (some e) = execute (sleep export_retry_delay) env.sleep_reply

  -- The body of fetchMetadata, its error as a value.
  unfoldable pub try_fetch : String → Action (Result (Unit {0}))
  try_fetch path s = let (r, s') = fetch_metadata s.dip.doc_key path s in (ok r, s')

  -- The error behind the last attempt.
  unfoldable pub exhausted : Option Err → Action (Unit {0})
  exhausted last =
      let text : String = elim last [ none ↦ "" | some e ↦ activity_error_message e ] in
      let message = "ACTApro export failed after 3 attempts:\n" <> text in
      set_error_message message >> fail (plain message)

  -- fetchValidMetadata, with the attempts that are left and the error of the last one.
  unfoldable pub fetch_attempts : ℕ → Option Err → String → Action (Unit {0})
  unfolding exhausted
  fetch_attempts zero last path = exhausted last
  fetch_attempts (suc left) last path = do
    delay last
    fetched ← try_fetch path
    elim fetched [
      | ok _ ↦ pure tt
      | err e ↦ elim (is_lost e) [ true ↦ fail e | false ↦ fetch_attempts left (some e) path ]
    ]

  unfoldable pub fetch_valid_metadata : String → Action (Unit {0})
  unfolding fetch_attempts
  fetch_valid_metadata path = fetch_attempts max_export_attempts none path

  -- The AIP directory name, without an archive extension.
  abbrev dir_name : Aip → String
  dir_name a = before_first a.uuid (base a.relative_path) <> a.uuid

  abbrev mets_name : Aip → String
  mets_name a = "METS." <> (a.uuid <> ".xml")

  unfoldable pub parsed_aip : String → Aip → ParsedAip
  parsed_aip dir a = record {
    uuid = a.uuid;
    dir_name = dir_name a;
    mets_path = join (dir ∷ mets_name a ∷ []);
  }

  unfoldable pub mets_params : String → Aip → FetchParams
  mets_params dir a = record {
    aip_uuid = a.uuid;
    relative_path = dir_name a <> ("/data/" <> mets_name a);
    destination = join (dir ∷ mets_name a ∷ []);
    checksum = "";
    checksum_algorithm = "";
  }

  -- The error of one AIP, joined to those before it.
  unfoldable pub note_error : String → Option Err → Result (Unit {0}) → Option Err
  note_error id errors (ok _) = errors
  note_error id errors (err e) =
      join_errors errors (some (plain ("AIP " <> (id <> (": " <> activity_error_message e)))))

  -- The loop over the AIPs: each is asked for, and the errors are joined.
  unfoldable pub fetch_mets : String → List Aip → Option Err → Action (Option Err)
  unfolding note_error
  fetch_mets dir [] errors = pure errors
  fetch_mets dir (a ∷ aips) errors = do
    fetched ← attempt (fetch (mets_params dir a)) env.fetch_reply
    fetch_mets dir aips (note_error a.uuid errors fetched)

  unfoldable pub report_all : String → Option Err → Action (Unit {0})
  report_all prefix none = pure tt
  report_all prefix (some e) =
      let message = prefix <> error_text e in set_error_message message >> fail (plain message)

  -- The failures for metadata without content or header files.
  unfoldable pub check_files : Metadata → Action (Unit {0})
  check_files m =
      let failures =
        (if is_empty m.content_files then "DIP metadata contains no content files." ∷ [] else [])
        ++ (if is_empty m.header_files
            then "DIP metadata contains no header files." ∷ []
            else []) in
      if is_empty failures
      then pure tt
      else (set_error_message (join_texts "\n" failures) >> fail (plain (join_texts "\n" failures)))

  unfoldable pub content_params : String → ContentFile → FetchParams
  content_params dip_path f = record {
    aip_uuid = f.aip_uuid;
    relative_path = f.aip_path;
    destination = join (dip_path ∷ f.dip_path ∷ []);
    checksum = f.checksum;
    checksum_algorithm = f.checksum_algorithm;
  }

  content_message : ContentFile → String
  content_message f =
      "AMSS content download failed for "
      <> (quote f.aip_path <> (" (AIP " <> (f.aip_uuid <> "): ")))

  -- One content file
  unfoldable pub fetch_file : String → ContentFile → Action (Unit {0})
  unfolding content_params content_message
  fetch_file dip_path f = do
    reply ← attempt (fetch (content_params dip_path f)) env.fetch_reply
    or_report (content_message f) reply

  -- The loop over the content files stops at the first error.
  unfoldable pub fetch_content : String → List ContentFile → Action (Unit {0})
  unfolding fetch_file
  fetch_content dip_path [] = pure tt
  fetch_content dip_path (f ∷ files) = do fetch_file dip_path f; fetch_content dip_path files

  -- "Parse metadata export and AIP METS files."
  unfoldable pub parse : String → String → List Aip → Action Metadata
  unfolding check_files parsed_aip
  parse dir export_path aips = do
    reply ←
        attempt (parse_metadata export_path (map (parsed_aip dir) aips)) env.parse_metadata_reply
    metadata ← or_report "DIP metadata parsing failed: " reply
    check_files metadata
    pure metadata

  -- "Download each AIP's METS file.", and the parse
  unfoldable pub collect_metadata : String → String → List Aip → Action Metadata
  unfolding report_all parse fetch_mets
  collect_metadata dir export_path aips = do
    errors ← fetch_mets dir aips none
    report_all "AMSS AIP METS download failed:\n" errors
    parse dir export_path aips

  abbrev pub set_dip_path : String → Action (Unit {0})
  set_dip_path path s = (ok tt, record s { dip_path = path })

  abbrev pub set_object_key : String → Action (Unit {0})
  set_object_key key s = (ok tt, record s { object_key = key })

  -- "Prepare the DIP header before adding content files."
  unfoldable pub prepare_header : String → String → List String → Action (Unit {0})
  prepare_header dip_dir export_path header_files = do
    set_dip_path dip_dir
    prepared ←
        attempt (prepare_dip dip_dir export_path cfg.xsd_dir header_files) env.prepare_dip_reply
    or_report "DIP preparation failed: " prepared

  -- The ZIP and its upload; the key is set before the upload.
  unfoldable pub pack_and_upload : String → String → Action (Unit {0})
  pack_and_upload dip_dir key = do
    zipped ← attempt (archive_zip dip_dir) env.archive_zip_reply
    zip_path ← or_report "DIP ZIP creation failed: " zipped
    set_dip_path zip_path
    set_object_key key
    uploaded ← attempt (bucket_upload zip_path key) env.bucket_upload_reply
    or_report "DIP upload failed: " uploaded

  -- From the header of the DIP to its upload
  unfoldable pub assemble : String → String → String → Metadata → Action (Unit {0})
  unfolding prepare_header fetch_content pack_and_upload
  assemble dip_dir export_path key metadata = do
    prepare_header dip_dir export_path metadata.header_files
    fetch_content dip_dir metadata.content_files
    pack_and_upload dip_dir key

  -- sessionHandler without its deferred cleanup
  unfoldable pub session_body : Action (Unit {0})
  unfolding fetch_valid_metadata collect_metadata assemble
  session_body s =
      let dir = join (cfg.working_dir ∷ s.dip.uuid ∷ []) in
      let export_path = join (dir ∷ "metadata.xml" ∷ []) in
      let dip_dir = join (dir ∷ ("DIP_" <> s.dip.uuid) ∷ []) in
      let key = "DIP_" <> (s.dip.uuid <> ".zip") in
      (do
        fetch_valid_metadata export_path
        metadata ← collect_metadata dir export_path s.aips
        assemble dip_dir export_path key metadata)
        s

  -- The deferred cleanup; its error is logged only.
  unfoldable pub close_session : String → State → State
  close_session dir s = record s { calls = complete_session ∷ remove_paths (dir ∷ []) ∷ s.calls }

  -- sessionHandler
  unfoldable pub session_handler : Action (Unit {0})
  unfolding close_session session_body
  session_handler s =
      let dir = join (cfg.working_dir ∷ s.dip.uuid ∷ []) in
      let (r, s') = session_body s in (r, close_session dir s')
