-- ===== src/Premis/Activities.antt =====
-- internal/activities/add_premis_objects.go, add_premis_event.go, add_premis_validation_event.go and
-- add_premis_agent.go: the activities that write premis.xml.
pub mod Documents
pub mod Order
use sfa_enduro_workflows.Base.{
  ℕ, zero, suc, ◌+◌, String, ◌<>◌, Bool, true, false, Option, none, some, List, [], ◌∷◌, ◌++◌,
  str_eq, if◌then◌else◌, contains, ◌&&◌, Answer, answer, error, panic, ◌>>=◌,
}
use sfa_enduro_workflows.FilePath.{rel}
use sfa_enduro_workflows.Disk.{Disk, Visit, visited, failed, walk}
use sfa_enduro_workflows.Sip.{Sip}
use sfa_enduro_workflows.Premis.{
  Etree, Object, Event, EventSummary, Agent, add_object, add_event_element, link_event_to_object,
  add_agent, append_event_for_each_object, original_name_for_subpath,
}

-- The callback of FilesWithinDirectory, for each call of the walk
unfoldable pub subpaths : String → List Visit → List String → Answer (List String)
subpaths content [] found = answer found
subpaths content (failed e ∷ rest) found = error e
subpaths content (visited path name true ∷ rest) found = subpaths content rest found
subpaths content (visited path name false ∷ rest) found = elim (rel content path) [
  | none ↦ error "Rel: can't make target relative to base"
  | some p ↦ subpaths content rest (found ++ p ∷ [])
]

-- FilesWithinDirectory
unfoldable pub files_within_directory : Disk → String → Answer (List String)
unfolding subpaths
files_within_directory disk content = subpaths content (walk disk content) []

-- `outcome` of AddPREMISEvent; the failures are nil if there are none.
unfoldable pub outcome : Option (List String) → String
outcome none = "valid"
outcome (some failures) = "invalid"

module _ (lib : Etree) where
  open lib use {Element, tag, children, has_child_text, change_child, indent}

  -- The file premis.xml: whether it is there, the root that ParseFile finds in it, if its root is a
  -- premis element, and the error of writing it. Beside it, the root of EmptyXML.
  pub record PremisFile : Type 0 where
    pub exists : Bool
    pub parsed : Answer (Option Element)
    pub empty : Element
    pub write_error : Option String

  -- Indent
  unfoldable pub indented : Option Element → Option Element
  indented none = none
  indented (some root) = some (indent root)

  -- ParseFile
  abbrev pub parse_file : PremisFile → Answer (Option Element)
  parse_file f = f.parsed >>= λ doc. answer (indented doc)

  -- NewDoc
  abbrev pub new_doc : PremisFile → Answer (Option Element)
  new_doc f = answer (indented (some f.empty))

  -- ParseOrInitialize
  unfoldable pub parse_or_initialize : PremisFile → Answer (Option Element)
  unfolding indented
  parse_or_initialize f = if f.exists then parse_file f else new_doc f

  -- getRoot
  unfoldable pub get_root : Option Element → Answer Element
  get_root none = error "no root premis element found in document"
  get_root (some root) = answer root

  -- WriteToFile; the result is the document that is in the file.
  unfoldable pub write_to_file : PremisFile → Option Element → Answer (Option Element)
  write_to_file f doc = elim f.write_error [ none ↦ answer doc | some e ↦ error e ]

  -- The loop of AddPREMISObjects; AppendObjectXML looks for the root each time.
  unfoldable pub append_objects :
      (ℕ → Answer String) → Sip → ℕ → List String → Option Element → Answer (Option Element)
  unfolding get_root add_object original_name_for_subpath
  append_objects ids s k [] doc = answer doc
  append_objects ids s k (subpath ∷ rest) doc = ids k >>= λ id. get_root doc >>= λ root.
      append_objects ids s (suc k) rest (
        some (
          add_object lib
            (record {
              id_type = "UUID";
              id_value = id;
              original_name = original_name_for_subpath s subpath;
            })
            root))

  -- MkdirAll
  unfoldable pub make_directory : Option String → Answer (Unit {0})
  make_directory none = answer tt
  make_directory (some e) = error e

  -- AddPREMISObjectsActivity.Execute
  unfoldable pub add_premis_objects :
      Disk → Option String → (ℕ → Answer String) → Sip → PremisFile → Answer (Option Element)
  unfolding files_within_directory make_directory parse_or_initialize append_objects indented
      write_to_file
  add_premis_objects disk mkdir_error ids s f =
      files_within_directory disk s.content_path >>= λ found. make_directory mkdir_error >>= λ _.
      parse_or_initialize f >>= λ doc.
      append_objects ids s 0 found doc >>= λ written. write_to_file f (indented written)

  -- AddPREMISEventActivity.Execute
  unfoldable pub add_premis_event :
      (ids now : ℕ → String)
      → String
      → String
      → String
      → Option (List String)
      → Agent
      → PremisFile
      → Answer (Option Element)
  add_premis_event ids now type detail outcome_detail failures agent f =
      parse_or_initialize f >>= λ doc. get_root doc >>= λ root. write_to_file f (
        some (
          append_event_for_each_object lib ids now
            (record {
              type = type;
              detail = detail;
              outcome = outcome failures;
              outcome_detail = outcome_detail;
            })
            agent root))

  -- AddPREMISAgentActivity.Execute
  unfoldable pub add_premis_agent : Agent → PremisFile → Answer (Option Element)
  add_premis_agent agent f = parse_or_initialize f >>= λ doc.
      get_root doc >>= λ root. write_to_file f (some (add_agent lib agent root))

  -- The index of the first object with the original name
  unfoldable pub object_named : String → List (Option Element) → Option ℕ
  object_named n [] = none
  object_named n (none ∷ xs) = elim (object_named n xs) [ none ↦ none | some i ↦ some (suc i) ]
  object_named n (some e ∷ xs) =
      let later = object_named n xs in
      if str_eq (tag e) "premis:object" && has_child_text "premis:originalName" n e
      then some 0
      else elim later [ none ↦ none | some i ↦ some (suc i) ]

  module _ (ids : ℕ → Answer String) (now : ℕ → String) (summary : EventSummary)
      (agent : Agent) where
    abbrev pub validation_event : ℕ → String → Event
    validation_event k id = record {
      summary = summary;
      id_type = "UUID";
      id_value = id;
      date_time = now k;
      agent_id_type = agent.id_type;
      agent_id_value = agent.id_value;
    }

    -- The event of one file, linked to its object. The object is found before the event is added, and
    -- stands where it stood, since the event is inserted behind the objects.
    unfoldable pub add_validation : ℕ → String → Element → Answer Element
    unfolding object_named add_event_element link_event_to_object
    add_validation k original root = elim (object_named original (children root)) [
      | none ↦ error "element not found"
      | some i ↦ ids k >>= λ id.
          let e = validation_event k id in
          answer (add_event_element lib e (change_child i (link_event_to_object lib e) root))
    ]

    -- One file of an allowed format
    unfoldable pub validate_at : Sip → ℕ → Option String → Element → Answer Element
    unfolding add_validation original_name_for_subpath
    validate_at s k none root = error "Rel: can't make target relative to base"
    validate_at s k (some subpath) root =
        add_validation k (original_name_for_subpath s subpath) root

    -- The loop over the formats: paths with the ids of their formats. With the document comes whether
    -- an event was added.
    unfoldable pub add_validations :
        Sip → List String → ℕ → List (String × String) → Element → Bool → Answer (Element × Bool)
    unfolding validate_at
    add_validations s allowed k [] root added = answer (root, added)
    add_validations s allowed k ((path, id) ∷ formats) root added =
        (if contains allowed id
          then (validate_at s k (rel s.content_path path) root >>= λ r. answer (r, true))
          else answer (root, added))
        >>= λ (r, a). add_validations s allowed (suc k) formats r a

    -- `if addAgent`; the root is that of the document, so AppendAgentXML finds it.
    abbrev pub with_agent : Element × Bool → Element
    with_agent (root, added) = if added then add_agent lib agent root else root

    -- AddPREMISValidationEventActivity.Execute, behind the test of the path
    unfoldable pub write_validations :
        Sip → List String → Answer (List (String × String)) → PremisFile → Answer (Option Element)
    write_validations s allowed formats f = parse_or_initialize f >>= λ doc.
        get_root doc >>= λ root. formats >>= λ found.
        add_validations s allowed 0 found root false >>= λ written.
        write_to_file f (some (indent (with_agent written)))

    -- AddPREMISValidationEventActivity.Execute
    unfoldable pub add_premis_validation_event :
        String
        → Sip
        → List String
        → Answer (List (String × String))
        → PremisFile
        → Answer (Option Element)
    add_premis_validation_event path s allowed formats f =
        if f.exists
        then write_validations s allowed formats f
        else error ("PREMIS file path does not exist: " <> path)
