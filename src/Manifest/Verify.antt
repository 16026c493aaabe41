-- ===== src/Manifest/Verify.antt =====
-- internal/activities/verify_manifest.go and internal/checksum/checksum.go: the files of a package
-- against its manifest.
pub mod Agreement
pub mod Documents
use Prim.Native.Char.{code}
use sfa_enduro_workflows.Base.{
  ℕ, ◌+◌, String, ◌<>◌, Bool, true, false, not, ◌&&◌, Option, none, some, List, [], ◌∷◌, map,
  str_eq, leb, ◌==◌, if◌then◌else◌, contains, is_empty, quote, sort, add, difference, Answer,
  answer, error, panic, ◌>>=◌, wrap,
}
use sfa_enduro_workflows.FilePath.{join, base, rel}
use sfa_enduro_workflows.Disk.{Disk, Visit, visited, failed, walk}
use sfa_enduro_workflows.Sip.{Sip, is_aip, is_sip}
use sfa_enduro_workflows.Preprocessing.{ManifestResult}
use sfa_enduro_workflows.Manifest.{
  Token, File, Files, Manifest, Outcome, parsed, panicked, insert, parse, allowed_schema_versions,
}

-- What opening a file and copying it gives.
pub data Reading (A : Type 0) : Type 0 where
  cannot_open : String → Reading A
  cannot_copy : String → Reading A
  read_all : A → Reading A

-- The sums of crypto/md5, crypto/sha1, crypto/sha256 and crypto/sha512, in hexadecimal.
pub record Sums : Type 0 where
  pub md5 : String → String
  pub sha1 : String → String
  pub sha256 : String → String
  pub sha512 : String → String

-- The files of the system: what encoding/xml reads from them, and their contents.
pub record Contents : Type 0 where
  pub tokens : String → Reading (List Token)
  pub contents : String → Reading String
  pub sums : Sums

-- The switch of GenerateHash
algorithm : Sums → String → Option (String → String)
algorithm sums alg =
    if str_eq alg "MD5"
    then some sums.md5
    else if str_eq alg "SHA-1"
    then some sums.sha1
    else if str_eq alg "SHA-256"
    then some sums.sha256
    else if str_eq alg "SHA-512"
    then some sums.sha512
    else none

hash_contents : (String → String) → Reading String → Answer String
hash_contents h (cannot_open e) = error ("open file: " <> e)
hash_contents h (cannot_copy e) = error ("copy contents: " <> e)
hash_contents h (read_all s) = answer (h s)

-- GenerateHash
unfoldable pub generate_hash : Contents → String → String → Answer String
unfolding algorithm hash_contents
generate_hash env path alg = elim (algorithm env.sums alg) [
  | none ↦ error ("hash algorithm " <> (quote alg <> " is not supported"))
  | some h ↦ hash_contents h (env.contents path)
]

-- The keys of the map
unfoldable pub keys : Files → List String
keys [] = []
keys ((k, v) ∷ m) = k ∷ keys m

unfoldable pub prefixed : Files → Files → Files
unfolding insert
prefixed [] m = m
prefixed ((k, v) ∷ files) m = prefixed files (insert (join ("content" ∷ k ∷ [])) v m)

-- What getManifest makes of what Parse gives
unfoldable pub place : Sip → Outcome → Answer Manifest
unfolding prefixed is_aip
place s (parsed m) = answer (if is_aip s then record m { files = prefixed m.files [] } else m)
place s (Outcome.failed e) = error e
place s panicked = panic

-- getManifest
unfoldable pub get_manifest : Contents → Sip → Answer Manifest
unfolding place parse
get_manifest env s = elim (env.tokens s.manifest_path) [
  | cannot_open e ↦ error ("open: " <> e)
  | cannot_copy e ↦ error ("parse: " <> e)
  | read_all ts ↦ place s (parse ts)
]

-- Behind `p, err := filepath.Rel(s.Path, path)`
unfoldable pub add_path : Sip → Option String → List String → Answer (List String)
unfolding is_sip add
add_path s none paths = error "Rel: can't make target relative to base"
add_path s (some p) paths =
    answer (if is_sip s && str_eq p "header/metadata.xml" then paths else add p paths)

-- The callback of WalkDir, for each call
unfoldable pub collect : Sip → List Visit → List String → Answer (List String)
unfolding add_path
collect s [] paths = answer paths
collect s (failed e ∷ rest) paths = error e
collect s (visited path name true ∷ rest) paths = collect s rest paths
collect s (visited path name false ∷ rest) paths =
    add_path s (rel s.path path) paths >>= λ ps. collect s rest ps

-- sipFiles
unfoldable pub sip_files : Disk → Sip → Answer (List String)
unfolding collect is_aip
sip_files disk s =
    collect s (walk disk (if is_aip s then join (s.path ∷ "content" ∷ []) else s.path)) []

-- A nil slice if there is none
unfoldable pub or_nil : List String → Option (List String)
or_nil [] = none
or_nil (x ∷ xs) = some (x ∷ xs)

-- missingFiles
unfoldable pub missing_files : String → List String → List String → Option (List String)
unfolding or_nil
missing_files base manifest filesys =
    or_nil
      (map (λ p. "Missing file: " <> join (base ∷ p ∷ [])) (sort (difference manifest filesys)))

-- unexpectedFiles
unfoldable pub unexpected_files : String → List String → List String → Option (List String)
unfolding or_nil
unexpected_files base manifest filesys =
    or_nil
      (map (λ p. "Unexpected file: " <> join (base ∷ p ∷ [])) (sort (difference filesys manifest)))

-- strings.ToLower, of a letter of ASCII; no other character becomes one of a hexadecimal sum.
lower : ℕ → ℕ
lower c = if leb b'A' c && leb c b'Z' then c + 32 else c

-- `hashResult == strings.ToLower(hash)`
unfoldable pub is_lower_of : String → String → Bool
unfolding lower
is_lower_of String.[] String.[] = true
is_lower_of (String.◌∷◌ c s) (String.◌∷◌ d t) = code c == lower (code d) && is_lower_of s t
is_lower_of s t = false

unfoldable pub mismatch : String → String → String → String
mismatch path expected got =
    "Checksum mismatch for "
    <> (quote path <> (" (expected: " <> (quote expected <> (", got: " <> (quote got <> ")")))))

-- The body of the loop of verifyChecksums, with the failures before it
unfoldable pub verify_file :
    Contents → List String → String → String → Option File → List String → Answer (List String)
unfolding generate_hash is_lower_of mismatch
verify_file env files root path none failures =
    if contains files path then panic else answer failures
verify_file env files root path (some f) failures =
    if contains files path
    then (generate_hash env (join (root ∷ path ∷ [])) f.checksum.algorithm >>= λ hash. answer (
        if is_lower_of hash f.checksum.hash
        then failures
        else mismatch path f.checksum.hash hash ∷ failures))
    else answer failures

-- The loop, in the order of the list. The failures are sorted behind it.
unfoldable pub verify_all :
    Contents → List String → String → Files → List String → Answer (List String)
unfolding verify_file
verify_all env files root [] failures = answer failures
verify_all env files root ((path, f) ∷ m) failures =
    verify_file env files root path f failures >>= λ fs. verify_all env files root m fs

-- verifyChecksums
unfoldable pub verify_checksums :
    Contents → Files → List String → String → Answer (Option (List String))
unfolding verify_all or_nil
verify_checksums env m files root =
    verify_all env files root m [] >>= λ fs. answer (or_nil (sort fs))

unfoldable pub version_failures : String → Option (List String)
version_failures version =
    if contains allowed_schema_versions version
    then none
    else some (("Unsupported schema version: " <> version) ∷ [])

unfoldable pub compare : Sip → Manifest → List String → Option (List String) → ManifestResult
unfolding missing_files unexpected_files version_failures keys
compare s m files failures = record {
  checksum_failures = failures;
  manifest_failures = version_failures m.schema_version;
  missing_files = missing_files (base s.path) (keys m.files) files;
  unexpected_files = unexpected_files (base s.path) (keys m.files) files;
}

-- VerifyManifest.Execute
unfoldable pub verify_manifest : Contents → Disk → Sip → Answer ManifestResult
unfolding get_manifest sip_files verify_checksums compare
verify_manifest env disk s = wrap "verify manifest: parse manifest: " (get_manifest env s) >>= λ m.
    wrap "verify manifest: get SIP contents: " (sip_files disk s) >>= λ files.
    wrap "verify checksums: " (verify_checksums env m.files files s.path) >>= λ failures.
    answer (compare s m files failures)
