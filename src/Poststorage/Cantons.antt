-- ===== src/Poststorage/Cantons.antt =====
-- internal/workflows/poststorage_cantons.go: the export of a stored package's metadata.
use sfa_enduro_workflows.Base.{String, ◌<>◌, none, [], ◌∷◌, str_eq, if◌then◌else◌, before_first}
use sfa_enduro_workflows.FilePath.{join, base}
use sfa_enduro_workflows.Workflow.{plain, Result, ok, err, call}
use sfa_enduro_workflows.Workflow.Errors.{error_text}
use sfa_enduro_workflows.Poststorage.{
  ParseResult, get_aip_path, fetch, parse_mets, combine_md, archive_zip, bucket_upload, Environment,
  State, Action, ◌>>=◌, ◌>>◌, pure, raise, execute, require, remove_later, Handler, with_cleanup,
  Ending, failing, run_sessions,
}

module _ (env : Environment) (working_dir : String) where
  -- The relative path of the metadata file in the package
  unfoldable pub choose_metadata : ParseResult → Action String
  choose_metadata r =
      if str_eq r.updated_arelda_metadata_rel_path ""
      then if str_eq r.metadata_rel_path ""
        then raise (plain "UpdatedAreldaMetadata.xml and metadata.xml files not found in METS")
        else pure r.metadata_rel_path
      else pure r.updated_arelda_metadata_rel_path

  -- The two files of the package
  unfoldable pub download : String → String → String → Action String
  unfolding choose_metadata
  download uuid dir_name local_dir = do
    let mets_path = join (local_dir ∷ ("METS." <> (uuid <> ".xml")) ∷ [])
    fetched ←
        execute (fetch uuid (dir_name <> ("/data/METS." <> (uuid <> ".xml"))) mets_path)
          env.fetch_reply
    require fetched
    parsed ← execute (parse_mets mets_path) env.parse_mets_reply
    found ← require parsed
    rel_path ← choose_metadata found
    let metadata_path = join (local_dir ∷ base rel_path ∷ [])
    fetched' ←
        execute (fetch uuid (dir_name <> ("/data/" <> rel_path)) metadata_path) env.fetch_reply
    require fetched'
    pure metadata_path

  -- The combined file, its archive and the upload
  unfoldable pub export : String → String → String → Action (Unit {0})
  export mets_path metadata_path local_dir = do
    combined ← execute (combine_md metadata_path mets_path local_dir) env.combine_md_reply
    require combined
    zipped ← execute (archive_zip local_dir) env.archive_zip_reply
    zip_path ← require zipped
    remove_later zip_path
    uploaded ← execute (bucket_upload zip_path) env.bucket_upload_reply
    require uploaded

  -- SessionHandler without its deferred cleanup, by the names that it starts with
  unfoldable pub session_steps : String → String → String → Action (Unit {0})
  unfolding download export
  session_steps uuid dir_name local_dir = do
    remove_later local_dir
    metadata_path ← download uuid dir_name local_dir
    export (join (local_dir ∷ ("METS." <> (uuid <> ".xml")) ∷ [])) metadata_path local_dir

  unfoldable pub session_body : String → String → Action (Unit {0})
  unfolding session_steps
  session_body uuid path =
      let dir_name = before_first uuid (base path) <> uuid in
      session_steps uuid dir_name (join (working_dir ∷ ("search-md_" <> dir_name) ∷ []))

  -- SessionHandler
  unfoldable pub session_handler : String → String → Handler
  unfolding with_cleanup session_body
  session_handler uuid path = with_cleanup env (session_body uuid path)

  unfoldable pub run_export : String → Result String → State → Ending × State
  unfolding session_handler
  run_export uuid (err e) s = (failing e, s)
  run_export uuid (ok path) s = run_sessions env (session_handler uuid path) 5 none s

  unfoldable pub run_parsed : Result String → Ending × State
  unfolding run_export
  run_parsed (err e) =
      (failing (plain ("parse AIP UUID: " <> error_text e)), record { events = []; removed = [] })
  run_parsed (ok uuid) =
      let h = call (get_aip_path uuid) ∷ [] in
      run_export uuid (env.get_aip_path_reply h) (record { events = h; removed = [] })

  -- Execute, of the AIP's UUID
  unfoldable pub run : String → Ending × State
  unfolding run_parsed
  run aip_uuid = run_parsed (env.parse_uuid aip_uuid)
