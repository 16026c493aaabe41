-- ===== src/Amss.antt =====
-- internal/amss: a file of an AIP is fetched, and the path of an AIP is asked for. The client of the
-- storage service is a parameter: what it returns to each request.
use sfa_enduro_workflows.Base.{
  String, ◌<>◌, ◌&&◌, not, Option, none, some, str_eq, if◌then◌else◌, quote, Answer, answer, error,
  ◌>>=◌, wrap,
}
use sfa_enduro_workflows.Workflow.{Result, ok, err}
use sfa_enduro_workflows.Workflow.Errors.{error_text}
use sfa_enduro_workflows.Manifest.Verify.{Contents, read_all, generate_hash, is_lower_of}

pub record FetchParams : Type 0 where
  pub destination : String
  pub checksum : String
  pub checksum_algorithm : String

-- What the calls of package os and io return
pub record Writing : Type 0 where
  pub mkdir_error : Option String
  pub create_error : Option String
  pub copy_error : Option String

abbrev pub attempt : String → Option String → Answer (Unit {0})
attempt message none = answer tt
attempt message (some e) = error (message <> e)

-- The body of the reply; `none` is a reply or a body that is nil.
unfoldable pub body_of : Result (Option String) → Answer String
body_of (err e) = error ("FetchActivity: download file: " <> error_text e)
body_of (ok none) = error "FetchActivity: download file: empty response body"
body_of (ok (some text)) = answer text

-- The files once the text is written
abbrev pub with_file : Contents → String → String → Contents
with_file env path text = record env {
  contents = λ p. if str_eq p path then read_all text else env.contents p;
}

-- The comparison of the sums
unfoldable pub check_hash : FetchParams → String → Answer (Unit {0})
unfolding is_lower_of
check_hash p hash =
    if is_lower_of hash p.checksum
    then answer tt
    else error (
        "FetchActivity: checksum mismatch (expected: "
        <> (quote p.checksum <> (", got: " <> (quote hash <> ")"))))

-- `if params.Checksum != "" && params.ChecksumAlgorithm != ""`
unfoldable pub check_file : Contents → FetchParams → Answer (Unit {0})
unfolding check_hash
check_file env p =
    if not (str_eq p.checksum "") && not (str_eq p.checksum_algorithm "")
    then (wrap "FetchActivity: validate checksum: "
          (generate_hash env p.destination p.checksum_algorithm)
        >>= λ hash. check_hash p hash)
    else answer tt

-- FetchActivity.Execute; the result is what the files hold behind it.
unfoldable pub fetch : Contents → Writing → FetchParams → Result (Option String) → Answer Contents
unfolding body_of check_file
fetch env w p reply = attempt "FetchActivity: create directory: " w.mkdir_error >>= λ _.
    body_of reply >>= λ text. attempt "FetchActivity: create file: " w.create_error >>= λ _.
    attempt "FetchActivity: write file: " w.copy_error >>= λ _.
    check_file (with_file env p.destination text) p >>= λ _.
    answer (with_file env p.destination text)

-- GetAIPPathActivity.Execute: the package that is found, with its current path
unfoldable pub get_aip_path : Result (Option (Option String)) → Answer String
get_aip_path (err e) = error ("GetAIPPath: get package: " <> error_text e)
get_aip_path (ok none) = error "GetAIPPath: package not found"
get_aip_path (ok (some none)) = error "GetAIPPath: current_path not found in response"
get_aip_path (ok (some (some path))) = answer path
