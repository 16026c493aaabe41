-- ===== src/Tests/Amss.antt =====
-- A file that is fetched, with and without its sum.
use sfa_enduro_workflows.Base.{◌≡◌, refl, none, some, answer, error, quote}
use sfa_enduro_workflows.Workflow.{ok}
use sfa_enduro_workflows.Manifest.Verify.{Contents, cannot_open, is_lower_of, generate_hash}
use sfa_enduro_workflows.Amss.{FetchParams, Writing, with_file, fetch}

abbrev env : Contents
env = record {
  tokens = λ path. cannot_open "no such file";
  contents = λ path. cannot_open "no such file";
  sums = record { md5 = λ t. "ab"; sha1 = λ t. t; sha256 = λ t. t; sha512 = λ t. t };
}

abbrev no_error : Writing
no_error = record { mkdir_error = none; create_error = none; copy_error = none }

abbrev mets : FetchParams
mets = record { destination = "/tmp/METS.xml"; checksum = "AB"; checksum_algorithm = "MD5" }

fetched : fetch env no_error mets (ok (some "text")) ≡ answer (with_file env "/tmp/METS.xml" "text")
unfolding fetch generate_hash is_lower_of
fetched = refl

refused :
    fetch env no_error (record mets { checksum = "cd" }) (ok (some "text"))
    ≡ error "FetchActivity: checksum mismatch (expected: \"cd\", got: \"ab\")"
unfolding fetch generate_hash is_lower_of quote
refused = refl
