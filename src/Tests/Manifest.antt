-- ===== src/Tests/Manifest.antt =====
-- A package with a manifest, and the theorems on the manifest at it.
use sfa_enduro_workflows.Base.{
  ◌≡◌, refl, ◌↔◌, false, none, some, [], ◌∷◌, str_eq, if◌then◌else◌, answer, sort, difference,
}
use sfa_enduro_workflows.FilePath.{join, rel}
use sfa_enduro_workflows.FilePath.Names.{is_name}
use sfa_enduro_workflows.Disk.{file, folder, end, entry, Disk, walk, visits}
use sfa_enduro_workflows.Sip.{Sip, as_digitized_sip, is_aip}
use sfa_enduro_workflows.Preprocessing.{ManifestResult}
use sfa_enduro_workflows.Manifest.{
  start_element, char_data, broken, parsed, failed, panicked, parse,
}
use sfa_enduro_workflows.Manifest.Document.{
  nothing, words, comment, element, last, ordner, datei, Datei, Document, DocumentIsPlain, emit,
  manifest_of,
}
use sfa_enduro_workflows.Manifest.Document.RoundTrip.{parse-emit}
use sfa_enduro_workflows.Manifest.Verify.{
  Contents, read_all, cannot_open, generate_hash, get_manifest, place, sip_files, verify_manifest,
  keys,
}
use sfa_enduro_workflows.Manifest.Verify.Agreement.{ReportsNothing, Agrees, verify_manifest-Agrees}
use sfa_enduro_workflows.Manifest.Verify.Documents.{HaveSums, verify_document}

abbrev page : Datei
page = record {
  attributes = ("id", "_1") ∷ [];
  before_name = words "\n" nothing;
  name = "a.txt";
  before_algorithm = element "originalName" [] (words "A.txt" nothing) nothing;
  algorithm = "MD5";
  before_hash = comment nothing;
  hash = "AB12";
  after_hash = nothing;
}

abbrev document : Document
document = record {
  prolog = words "\n" nothing;
  attributes = ("type", "paketSIP") ∷ ("schemaVersion", "4.0") ∷ [];
  header = element "ablieferung" [] (element "ordner" [] (words "x" nothing) nothing) nothing;
  entries =
      ordner (words "\n" nothing) nothing "content" (datei nothing page (last nothing))
        (last nothing);
}

plain : DocumentIsPlain document
unfolding is_name
plain = (tt, (refl, tt), (tt, tt, refl, (tt, (refl, tt, (refl, tt), tt, tt), tt), tt))

parse-emit_example : parse (emit document []) ≡ parsed (manifest_of document)
parse-emit_example = parse-emit document [] plain

-- What the document describes
described : keys (manifest_of document).files ≡ "content/a.txt" ∷ []
unfolding manifest_of keys
described = refl

-- A checksum that stands outside a datei makes the parser panic.
stray_checksum :
    parse (start_element "paket" [] ∷ start_element "pruefsumme" [] ∷ char_data "AB" ∷ [])
    ≡ panicked
unfolding parse
stray_checksum = refl

-- An error inside an element that is skipped
broken_inside :
    parse (start_element "paket" [] ∷ start_element "paketTyp" [] ∷ broken "syntax error" ∷ [])
    ≡ failed "skip irrelevant element paketTyp: syntax error"
unfolding parse
broken_inside = refl

abbrev sip_disk : Disk
sip_disk path =
    if str_eq path "/sip"
    then some (
        folder "sip" (
          entry (folder "content" (entry (file "a.txt") end))
            (entry (folder "header" (entry (file "metadata.xml") end)) end)))
    else none

abbrev package_contents : Contents
package_contents = record {
  tokens = λ path.
      if str_eq path "/sip/header/metadata.xml"
      then read_all (emit document [])
      else cannot_open "no such file";
  contents = λ path. read_all "text";
  sums = record { md5 = λ t. "ab12"; sha1 = λ t. "1"; sha256 = λ t. "2"; sha512 = λ t. "5" };
}

abbrev sip : Sip
sip = as_digitized_sip "/sip"

manifest_tokens : package_contents.tokens sip.manifest_path ≡ read_all (emit document [])
unfolding as_digitized_sip join
manifest_tokens = refl

no_aip : is_aip sip ≡ false
unfolding is_aip as_digitized_sip
no_aip = refl

listed : sip_files sip_disk sip ≡ answer ("content/a.txt" ∷ [])
unfolding sip_files as_digitized_sip walk visits join rel
listed = refl

sums : HaveSums package_contents ("content/a.txt" ∷ []) sip.path (manifest_of document).files
unfolding manifest_of generate_hash
sums = ((λ _. ("ab12", refl)), tt)

verify_document_example :
    (r : ManifestResult) × (verify_manifest package_contents sip_disk sip ≡ answer r)
    × (ReportsNothing r ↔ Agrees package_contents sip (manifest_of document) ("content/a.txt" ∷ []))
verify_document_example =
    verify_document package_contents sip_disk sip document [] ("content/a.txt" ∷ []) plain
      manifest_tokens no_aip listed sums

abbrev nothing_to_report : ManifestResult
nothing_to_report = record {
  checksum_failures = none;
  manifest_failures = none;
  missing_files = none;
  unexpected_files = none;
}

given : get_manifest package_contents sip ≡ answer (manifest_of document)
unfolding get_manifest place as_digitized_sip join emit manifest_of is_aip
given = refl

reported : verify_manifest package_contents sip_disk sip ≡ answer nothing_to_report
unfolding verify_manifest as_digitized_sip walk visits join rel emit is_aip sort difference
reported = refl

verify_manifest-Agrees_example :
    ReportsNothing nothing_to_report
    ↔ Agrees package_contents sip (manifest_of document) ("content/a.txt" ∷ [])
verify_manifest-Agrees_example =
    verify_manifest-Agrees package_contents sip_disk sip (manifest_of document)
      ("content/a.txt" ∷ []) nothing_to_report given listed reported
