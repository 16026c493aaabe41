-- ===== src/Tests/Identifiers.antt =====
-- A manifest and its identifiers, and the theorem at them.
use sfa_enduro_workflows.Base.{
  String, ◌<>◌, Option, some, List, [], ◌∷◌, str_eq, if◌then◌else◌, Answer, answer,
}
use sfa_enduro_workflows.Enums.{digitized_sip}
use sfa_enduro_workflows.Manifest
use sfa_enduro_workflows.Manifest.{Manifest, Token, start_element, end_element, char_data}
use sfa_enduro_workflows.Manifest.Verify.{Contents, cannot_open, read_all}
use sfa_enduro_workflows.Identifiers.{Pip, File, new_pip}

abbrev file_tokens : String → String → List Token → List Token
file_tokens id name rest =
    start_element "datei" (("id", id) ∷ [])
    ∷ start_element "name" []
    ∷ char_data name
    ∷ end_element "name"
    ∷ end_element "datei"
    ∷ rest

abbrev folder_tokens : List Token → List Token
folder_tokens rest =
    start_element "ordner" []
    ∷ start_element "name" []
    ∷ char_data "content"
    ∷ end_element "name"
    ∷ file_tokens "_2" "b.txt" (file_tokens "_1" "a.txt" (end_element "ordner" ∷ rest))

abbrev tokens : List Token
tokens =
    start_element "inhaltsverzeichnis" []
    ∷ folder_tokens (file_tokens "_3" "arelda.xsd" (end_element "inhaltsverzeichnis" ∷ []))

abbrev pip : Pip
pip = new_pip "/tmp/SIP_1" digitized_sip

abbrev disk : Contents
disk = record {
  tokens = λ path.
      if str_eq path "/tmp/SIP_1/objects/SIP_1/header/metadata.xml"
      then read_all tokens
      else cannot_open "no such file";
  contents = λ path. cannot_open "no such file";
  sums = record { md5 = λ t. t; sha1 = λ t. t; sha256 = λ t. t; sha512 = λ t. t };
}

-- The paths, each in a line
abbrev marshal : List File → Answer String
marshal [] = answer ""
marshal (f ∷ fs) = elim (marshal fs) [ answer t ↦ answer (f.path <> ("\n" <> t)) | e ↦ e ]

abbrev written_text : String
written_text = "objects/SIP_1/content/a.txt\nobjects/SIP_1/content/b.txt\n"

-- What the manifest of the package describes
abbrev with_number : String → Option Manifest.File
with_number id = some (record { id = id; checksum = record { algorithm = ""; hash = "" } })

abbrev files : Manifest.Files
files =
    ("content/b.txt", with_number "_2")
    ∷ ("content/a.txt", with_number "_1")
    ∷ ("arelda.xsd", with_number "_3")
    ∷ []

abbrev manifest : Manifest
manifest = record { schema_version = ""; files = files }
