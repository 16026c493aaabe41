-- ===== src/Dips/CreateDip/Bounds/Session.antt =====
-- internal/dips/workflows/create_dip.go: the exports that one session asks for.
use sfa_enduro_workflows.Base.{
  ℕ, zero, suc, ◌+◌, refl, String, true, false, Option, none, some, List, [], ◌∷◌, ◌<>◌, arith,
}
use sfa_enduro_workflows.FilePath.{join}
use sfa_enduro_workflows.Workflow.{Err}
use sfa_enduro_workflows.Dips.CreateDip.{
  Metadata, ContentFile, Aip, Environment, Config, ◌>>=◌, ◌>>◌, pure, fail, attempt, is_lost, sleep,
  fetch,
}
use sfa_enduro_workflows.Dips.CreateDip.Session.{
  fetch_metadata, delay, try_fetch, exhausted, export_retry_delay, mets_params, note_error,
  fetch_file, fetch_attempts, fetch_valid_metadata, fetch_mets, report_all, check_files, parse,
  prepare_header, pack_and_upload, fetch_content, collect_metadata, assemble, session_body,
  close_session, session_handler,
}
use sfa_enduro_workflows.Dips.CreateDip.Execute.{try_session}
use sfa_enduro_workflows.Dips.CreateDip.Bounds.{
  Costs, Costs-bind, Costs-weaken, pure-Costs, attempt-Costs, execute-Costs, Costs-test,
  Costs-result, pure_within, fail_within, Costs-quiet,
}

module _ (env : Environment) (cfg : Config) where
  try_fetch-Costs : (path : String) → Costs 0 1 (try_fetch env cfg path)
  unfolding try_fetch fetch_metadata
  try_fetch-Costs path = record { in_sessions = λ s. ground arith; in_exports = λ s. ground arith }

  delay-Costs : (last : Option Err) → Costs 0 0 (delay env cfg last)
  unfolding delay
  delay-Costs none = pure-Costs tt
  delay-Costs (some e) = execute-Costs (sleep export_retry_delay) env.sleep_reply refl

  exhausted-Costs : (last : Option Err) → Costs 0 0 (exhausted env cfg last)
  unfolding exhausted
  exhausted-Costs last = record { in_sessions = λ s. omega arith; in_exports = λ s. omega arith }

  fetch_attempts-Costs :
      (left : ℕ) (last : Option Err) (path : String)
      → Costs 0 left (fetch_attempts env cfg left last path)
  unfolding fetch_attempts
  fetch_attempts-Costs zero last path = exhausted-Costs last
  fetch_attempts-Costs (suc left) last path =
      Costs-weaken 0 (1 + left) 0 (suc left) _ (omega arith) (omega arith) (
        Costs-quiet 0 (1 + left) (delay env cfg last) _ (delay-Costs last) λ _.
          Costs-bind 0 1 0 left (try_fetch env cfg path) _ (try_fetch-Costs path) λ fetched.
            Costs-result 0 left fetched (λ _. pure tt)
              (λ e. elim (is_lost e) [
                | true ↦ fail e
                | false ↦ fetch_attempts env cfg left (some e) path
              ])
              (λ x. pure_within 0 left tt)
              λ e.
                Costs-test 0 left (is_lost e) (fail e) (fetch_attempts env cfg left (some e) path)
                  (fail_within 0 left e) (fetch_attempts-Costs left (some e) path))

  fetch_mets-Costs :
      (dir : String) (aips : List Aip) (errors : Option Err)
      → Costs 0 0 (fetch_mets env cfg dir aips errors)
  unfolding fetch_mets
  fetch_mets-Costs dir [] errors = pure-Costs errors
  fetch_mets-Costs dir (x ∷ aips) errors =
      Costs-quiet 0 0 (attempt (fetch (mets_params env cfg dir x)) env.fetch_reply) _
        (attempt-Costs (fetch (mets_params env cfg dir x)) env.fetch_reply refl)
        λ r. fetch_mets-Costs dir aips (note_error env cfg x.uuid errors r)

  fetch_file-Costs :
      (dip_path : String) (f : ContentFile) → Costs 0 0 (fetch_file env cfg dip_path f)
  unfolding fetch_file
  fetch_file-Costs dip_path f = record {
    in_sessions = λ s. ground arith;
    in_exports = λ s. ground arith;
  }

  fetch_content-Costs :
      (dip_path : String) (files : List ContentFile)
      → Costs 0 0 (fetch_content env cfg dip_path files)
  unfolding fetch_content
  fetch_content-Costs dip_path [] = pure-Costs tt
  fetch_content-Costs dip_path (f ∷ files) =
      Costs-quiet 0 0 (fetch_file env cfg dip_path f) _ (fetch_file-Costs dip_path f)
        λ _. fetch_content-Costs dip_path files

  pub report_all-Costs :
      (prefix : String) (e : Option Err) → Costs 0 0 (report_all env cfg prefix e)
  unfolding report_all
  report_all-Costs prefix e = record {
    in_sessions = λ s. ground arith;
    in_exports = λ s. ground arith;
  }

  parse-Costs : (dir path : String) (aips : List Aip) → Costs 0 0 (parse env cfg dir path aips)
  unfolding parse check_files
  parse-Costs dir path aips = record {
    in_sessions = λ s. ground arith;
    in_exports = λ s. ground arith;
  }

  collect_metadata-Costs :
      (dir path : String) (aips : List Aip) → Costs 0 0 (collect_metadata env cfg dir path aips)
  unfolding collect_metadata
  collect_metadata-Costs dir path aips =
      Costs-quiet 0 0 (fetch_mets env cfg dir aips none) _ (fetch_mets-Costs dir aips none)
        λ errors.
          Costs-quiet 0 0 (report_all env cfg "AMSS AIP METS download failed:\n" errors) _
            (report_all-Costs "AMSS AIP METS download failed:\n" errors)
            λ _. parse-Costs dir path aips

  prepare_header-Costs :
      (dir path : String) (files : List String) → Costs 0 0 (prepare_header env cfg dir path files)
  unfolding prepare_header
  prepare_header-Costs dir path files = record {
    in_sessions = λ s. ground arith;
    in_exports = λ s. ground arith;
  }

  pack_and_upload-Costs : (dir key : String) → Costs 0 0 (pack_and_upload env cfg dir key)
  unfolding pack_and_upload
  pack_and_upload-Costs dir key = record {
    in_sessions = λ s. ground arith;
    in_exports = λ s. ground arith;
  }

  assemble-Costs :
      (dir path key : String) (m : Metadata) → Costs 0 0 (assemble env cfg dir path key m)
  unfolding assemble
  assemble-Costs dir path key m =
      Costs-quiet 0 0 (prepare_header env cfg dir path m.header_files) _
        (prepare_header-Costs dir path m.header_files)
        λ _.
          Costs-quiet 0 0 (fetch_content env cfg dir m.content_files) _
            (fetch_content-Costs dir m.content_files) λ _. pack_and_upload-Costs dir key

  session_body-Costs : Costs 0 3 (session_body env cfg)
  unfolding session_body fetch_valid_metadata
  session_body-Costs = record {
    in_sessions = λ s.
        (steps (join (cfg.working_dir ∷ s.dip.uuid ∷ []))
            (join (join (cfg.working_dir ∷ s.dip.uuid ∷ []) ∷ "metadata.xml" ∷ []))
            (join (join (cfg.working_dir ∷ s.dip.uuid ∷ []) ∷ ("DIP_" <> s.dip.uuid) ∷ []))
            ("DIP_" <> (s.dip.uuid <> ".zip")) s.aips).in_sessions
          s;
    in_exports = λ s.
        (steps (join (cfg.working_dir ∷ s.dip.uuid ∷ []))
            (join (join (cfg.working_dir ∷ s.dip.uuid ∷ []) ∷ "metadata.xml" ∷ []))
            (join (join (cfg.working_dir ∷ s.dip.uuid ∷ []) ∷ ("DIP_" <> s.dip.uuid) ∷ []))
            ("DIP_" <> (s.dip.uuid <> ".zip")) s.aips).in_exports
          s;
  }
    where
      steps :
          (dir path dip_dir key : String) (aips : List Aip)
          → Costs 0 3 (do
            fetch_attempts env cfg 3 none path
            metadata ← collect_metadata env cfg dir path aips
            assemble env cfg dip_dir path key metadata)
      steps dir path dip_dir key aips =
          Costs-weaken (0 + 0) (3 + 0) 0 3 _ (omega arith) (omega arith) (
            Costs-bind 0 3 0 0 (fetch_attempts env cfg 3 none path) _
              (fetch_attempts-Costs 3 none path)
              λ _.
                Costs-quiet 0 0 (collect_metadata env cfg dir path aips) _
                  (collect_metadata-Costs dir path aips)
                  λ metadata. assemble-Costs dip_dir path key metadata)

  pub try_session-Costs : Costs 0 3 (try_session env cfg)
  unfolding try_session session_handler close_session
  try_session-Costs = record {
    in_sessions = λ s. session_body-Costs.in_sessions s;
    in_exports = λ s. session_body-Costs.in_exports s;
  }
