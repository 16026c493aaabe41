-- ===== src/Premis.antt =====
-- internal/premis/premis.go: the elements of a PREMIS document. The elements are those of
-- github.com/beevik/etree, which is a parameter. As PREMIS has it, entities stand below the root only,
-- where `//premis:object` and `//premis:agent` find them.
pub mod Elements
pub mod Places
pub mod Entities
pub mod Order
pub mod Writing
pub mod Activities
use sfa_enduro_workflows.Base.{
  ℕ, zero, suc, ◌+◌, String, Bool, true, false, Option, none, some, List, [], ◌∷◌, ◌++◌, str_eq,
  if◌then◌else◌, length, ◌&&◌, Answer, answer, error, ◌>>=◌,
}
use sfa_enduro_workflows.FilePath.{join}
pub use sfa_enduro_workflows.Premis.Elements.{Etree, insert_at, change_at}
use sfa_enduro_workflows.Sip.{Sip, name}

pub record Object : Type 0 where
  pub id_type : String
  pub id_value : String
  pub original_name : String

pub record EventSummary : Type 0 where
  pub type : String
  pub detail : String
  pub outcome : String
  pub outcome_detail : String

pub record Agent : Type 0 where
  pub id_type : String
  pub id_value : String
  pub name : String
  pub type : String

pub record Event : Type 0 where
  pub id_type : String
  pub id_value : String
  pub summary : EventSummary
  pub date_time : String
  pub agent_id_type : String
  pub agent_id_value : String

-- AgentDefault
abbrev pub agent_default : Agent
agent_default = record {
  type = "software";
  name = "Enduro";
  id_type = "url";
  id_value = "https://github.com/artefactual-sdps/sfa-enduro-workflows";
}

module _ (lib : Etree) where
  open lib use {
    Element, tag, children, new_element, create_attr, create_text, add_child, insert_child_at,
    change_child, has_text,
  }

  abbrev pub is : String → Option Element → Bool
  is t none = false
  is t (some e) = str_eq (tag e) t

  -- An element that holds a text
  abbrev pub text_element : String → String → Element
  text_element t text = create_text text (new_element t)

  -- The index of the last child with a tag
  unfoldable pub last_index : String → List (Option Element) → Option ℕ
  last_index t [] = none
  last_index t (x ∷ xs) = elim (last_index t xs) [
    | some i ↦ some (suc i)
    | none ↦ if is t x then some 0 else none
  ]

  -- The index of the k-th child with a tag
  unfoldable pub nth_index : String → ℕ → List (Option Element) → Option ℕ
  nth_index t k [] = none
  nth_index t zero (x ∷ xs) =
      let later = nth_index t zero xs in
      if is t x then some 0 else elim later [ none ↦ none | some i ↦ some (suc i) ]
  nth_index t (suc k) (x ∷ xs) =
      let next = nth_index t k xs in
      let later = nth_index t (suc k) xs in
      elim (if is t x then next else later) [ none ↦ none | some i ↦ some (suc i) ]

  unfoldable pub count_tag : String → List (Option Element) → ℕ
  count_tag t [] = 0
  count_tag t (x ∷ xs) = (if is t x then 1 else 0) + count_tag t xs

  -- The number of ChildElements
  unfoldable pub count_elements : List (Option Element) → ℕ
  count_elements [] = 0
  count_elements (none ∷ xs) = count_elements xs
  count_elements (some e ∷ xs) = suc (count_elements xs)

  has_all : List (String × String) → Element → Bool
  has_all [] e = true
  has_all ((path, value) ∷ paths) e = has_text path value e && has_all paths e

  -- checkForDuplicateElementData
  unfoldable pub has_duplicate : String → List (String × String) → List (Option Element) → Bool
  unfolding has_all
  has_duplicate t paths [] = false
  has_duplicate t paths (none ∷ xs) = has_duplicate t paths xs
  has_duplicate t paths (some e ∷ xs) =
      let rest = has_duplicate t paths xs in
      if str_eq (tag e) t && has_all paths e then true else rest

  unfoldable pub object_element : Object → Element
  object_element o =
      add_child
        (add_child
          (add_child (create_attr "xsi:type" "premis:file" (new_element "premis:object")) (
            add_child
              (add_child (new_element "premis:objectIdentifier")
                (text_element "premis:objectIdentifierType" o.id_type))
              (text_element "premis:objectIdentifierValue" o.id_value)))
          (add_child (new_element "premis:objectCharacteristics") (
            add_child (new_element "premis:format") (
              add_child (new_element "premis:formatDesignation")
                (new_element "premis:formatName")))))
        (text_element "premis:originalName" o.original_name)

  -- checkIfObjectElementExists
  unfoldable pub object_exists : Object → Element → Bool
  unfolding has_duplicate
  object_exists o root =
      has_duplicate "premis:object" (("premis:originalName", o.original_name) ∷ []) (children root)

  -- addObjectElementIfNeeded
  unfoldable pub add_object : Object → Element → Element
  unfolding object_exists object_element
  add_object o root = if object_exists o root then root else add_child root (object_element o)

  abbrev pub outcome_element : EventSummary → Element
  outcome_element s =
      let info =
        add_child (new_element "premis:eventOutcomeInformation")
          (text_element "premis:eventOutcome" s.outcome) in
      if str_eq s.outcome_detail ""
      then info
      else add_child info (
          add_child (new_element "premis:eventOutcomeDetail")
            (text_element "premis:eventOutcomeDetailNote" s.outcome_detail))

  -- addEventAgentIdentifierElement
  abbrev pub linking_agent : Event → Element → Element
  linking_agent e event = add_child event (
      add_child
        (add_child (new_element "premis:linkingAgentIdentifier") (
          create_attr "valueURI" "http://id.loc.gov/vocabulary/identifiers/local"
            (text_element "premis:linkingAgentIdentifierType" e.agent_id_type)))
        (text_element "premis:linkingAgentIdentifierValue" e.agent_id_value))

  unfoldable pub event_element : Event → Element
  event_element e =
      add_child
        (add_child
          (add_child
            (add_child
              (add_child (new_element "premis:event") (
                add_child
                  (add_child (new_element "premis:eventIdentifier")
                    (text_element "premis:eventIdentifierType" e.id_type))
                  (text_element "premis:eventIdentifierValue" e.id_value)))
              (text_element "premis:eventType" e.summary.type))
            (text_element "premis:eventDateTime" e.date_time))
          (add_child (new_element "premis:eventDetailInformation")
            (text_element "premis:eventDetail" e.summary.detail)))
        (outcome_element e.summary)

  -- Where AddEventElement inserts the event
  unfoldable pub event_index : List (Option Element) → ℕ
  unfolding last_index count_elements
  event_index xs = elim (last_index "premis:event" xs) [
    | some i ↦ suc i
    | none ↦ elim (last_index "premis:object" xs) [ some i ↦ suc i | none ↦ count_elements xs ]
  ]

  -- AddEventElement; the agent is linked to the event in its place.
  unfoldable pub add_event_element : Event → Element → Element
  unfolding event_index event_element
  add_event_element e root =
      insert_child_at (event_index (children root)) (linking_agent e (event_element e)) root

  -- LinkEventToObject
  unfoldable pub link_event_to_object : Event → Element → Element
  link_event_to_object e object = add_child object (
      add_child
        (add_child (new_element "premis:linkingEventIdentifier")
          (text_element "premis:linkingEventIdentifierType" e.id_type))
        (text_element "premis:linkingEventIdentifierValue" e.id_value))

  -- The object is the k-th one of the root.
  unfoldable pub link_nth : Event → ℕ → Element → Element
  unfolding nth_index link_event_to_object
  link_nth e k root = elim (nth_index "premis:object" k (children root)) [
    | none ↦ root
    | some i ↦ change_child i (link_event_to_object e) root
  ]

  unfoldable pub agent_element : Agent → Element
  agent_element a =
      add_child
        (add_child
          (add_child (new_element "premis:agent") (
            add_child
              (add_child (new_element "premis:agentIdentifier") (
                create_attr "valueURI" "http://id.loc.gov/vocabulary/identifiers/local"
                  (text_element "premis:agentIdentifierType" a.id_type)))
              (text_element "premis:agentIdentifierValue" a.id_value)))
          (text_element "premis:agentName" a.name))
        (text_element "premis:agentType" a.type)

  -- checkIfAgentElementExists
  unfoldable pub agent_exists : Agent → Element → Bool
  unfolding has_duplicate
  agent_exists a root =
      has_duplicate "premis:agent"
        (("premis:agentType", a.type)
          ∷ ("premis:agentName", a.name)
          ∷ ("premis:agentIdentifier/premis:agentIdentifierType", a.id_type)
          ∷ ("premis:agentIdentifier/premis:agentIdentifierValue", a.id_value)
          ∷ [])
        (children root)

  -- addAgentElementIfNeeded
  unfoldable pub add_agent : Agent → Element → Element
  unfolding agent_exists agent_element
  add_agent a root = if agent_exists a root then root else add_child root (agent_element a)

  -- AppendEventXMLForObjects, for the objects from the k-th one on. The identifiers and the times of
  -- the events are given by the number of the object.
  module _ (new_id now : ℕ → String) where
    -- eventFromEventSummaryAndAgent
    abbrev pub event_from : EventSummary → Agent → ℕ → Event
    event_from summary agent k = record {
      summary = summary;
      id_type = "UUID";
      id_value = new_id k;
      date_time = now k;
      agent_id_type = agent.id_type;
      agent_id_value = agent.id_value;
    }

    unfoldable pub append_events : EventSummary → Agent → ℕ → ℕ → Element → Element
    unfolding add_event_element link_nth
    append_events summary agent k zero root = root
    append_events summary agent k (suc left) root =
        let e = event_from summary agent k in
        append_events summary agent (suc k) left (link_nth e k (add_event_element e root))

    -- AppendEventXMLForEachObject, behind getRoot
    unfoldable pub append_event_for_each_object : EventSummary → Agent → Element → Element
    unfolding append_events count_tag
    append_event_for_each_object summary agent root =
        append_events summary agent 0 (count_tag "premis:object" (children root)) root

-- OriginalNameForSubpath
unfoldable pub original_name_for_subpath : Sip → String → String
unfolding name
original_name_for_subpath s subpath = join ("data" ∷ "objects" ∷ name s ∷ "content" ∷ subpath ∷ [])
