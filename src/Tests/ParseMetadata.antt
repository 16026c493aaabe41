-- ===== src/Tests/ParseMetadata.antt =====
-- An export of a document and the METS file of an AIP, and the theorem at them.
use sfa_enduro_workflows.Base.{◌≡◌, refl, true, [], ◌∷◌, map, answer, error, trim_prefix}
use sfa_enduro_workflows.FilePath.{join}
use sfa_enduro_workflows.Manifest.Verify.{read_all}
use sfa_enduro_workflows.Dips.ParseMetadata.{
  File, ExportFile, ExportFolders, folder, no_folders, and_folder, object, other_token, Aip,
  ParseResult, parse_export, parse_metadata,
}
use sfa_enduro_workflows.Dips.ParseMetadata.Locations.{described, all_located}
use sfa_enduro_workflows.Dips.ParseMetadata.Matching.{parse_metadata-located}

abbrev page : ExportFile
page = record { id = "_1"; name = "a.pdf"; checksum = "ab"; checksum_algorithm = "MD5" }

abbrev header : ExportFile
header = record { id = "_2"; name = "metadata.xml"; checksum = "cd"; checksum_algorithm = "MD5" }

abbrev export : ExportFolders
export = and_folder (folder "header" (header ∷ []) no_folders) (
    and_folder (folder "content" [] (and_folder (folder "d1" (page ∷ []) no_folders) no_folders))
      no_folders)

abbrev aip : Aip
aip = record {
  uuid = "aip-1";
  dir_name = "AIP_1";
  mets = read_all (
      other_token
      ∷ object (("UUID", "u") ∷ ("local", "_1") ∷ []) "%transferDirectory%objects/a.pdf"
      ∷ []);
}

abbrev found_page : File
found_page = record {
  datei_id = "_1";
  dip_path = "content/d1/a.pdf";
  checksum = "ab";
  checksum_algorithm = "MD5";
  aip_uuid = "aip-1";
  aip_path = "AIP_1/objects/a.pdf";
}

abbrev header_file : File
header_file = record {
  datei_id = "_2";
  dip_path = "header/metadata.xml";
  checksum = "cd";
  checksum_algorithm = "MD5";
  aip_uuid = "";
  aip_path = "";
}

abbrev found : ParseResult
found = record { content_files = found_page ∷ []; header_files = header_file ∷ [] }

page_found : parse_metadata (read_all export) (aip ∷ []) ≡ answer found
unfolding parse_metadata join trim_prefix
page_found = refl

unlisted_page :
    parse_metadata (read_all export) []
    ≡ error "files not found in AIP METS:\n_1 (content/d1/a.pdf)"
unfolding parse_metadata join
unlisted_page = refl

parse_metadata-located_example :
    (listed : ParseResult) × (parse_export (read_all export) ≡ answer listed)
    × (map described found.content_files ≡ map described listed.content_files)
    × (all_located (aip ∷ []) found.content_files ≡ true)
parse_metadata-located_example =
    parse_metadata-located (read_all export) (aip ∷ []) found page_found
