-- ===== src/Premis/Activities/Order.antt =====
-- internal/activities/add_premis_event.go, add_premis_validation_event.go and add_premis_agent.go: the
-- activities keep premis.xml in order.
use sfa_enduro_workflows.Base.{
  ℕ, suc, ◌<◌, ◌≡◌, refl, ap, ◌∙◌, inl, inr, String, Bool, true, false, Option, none, some, List,
  [], ◌∷◌, contains, arith, Bool-cases, Answer, answer, error, panic, ◌>>=◌, >>=-answer,
}
use sfa_enduro_workflows.FilePath.{rel}
use sfa_enduro_workflows.Sip.{Sip}
use sfa_enduro_workflows.Premis.{
  Etree, Event, EventSummary, Agent, add_event_element, link_event_to_object, add_agent,
  original_name_for_subpath,
}
use sfa_enduro_workflows.Premis.Entities.{IsEtree, places, IsOrdered, objects, places-change_at}
use sfa_enduro_workflows.Premis.Places.{count_place}
use sfa_enduro_workflows.Premis.Order.{
  places-event, tag-link, event_index-is_sorted, objects-places,
}
use sfa_enduro_workflows.Premis.Writing.{indent-IsOrdered, each-IsOrdered, add_agent-IsOrdered}
use sfa_enduro_workflows.Premis.Activities.{
  PremisFile, parse_or_initialize, get_root, add_premis_event, add_premis_agent, object_named,
  add_validation, validate_at, add_validations, with_agent, add_premis_validation_event,
  write_validations, validation_event,
}
use sfa_enduro_workflows.Premis.Activities.Documents.{
  DocIsOrdered, FileIsOrdered, doc-IsOrdered, root-IsOrdered, written, object_named-objects,
}

module _ (lib : Etree) (laws : IsEtree lib) where
  open lib use {Element, tag, children}

  module _ (ids : ℕ → Answer String) (now : ℕ → String) (summary : EventSummary)
      (agent : Agent) where
    linked-IsOrdered :
        (e : Event) (i : ℕ) (root : Element)
        → IsOrdered lib root
        → 0 < objects lib root
        → IsOrdered lib
            (add_event_element lib e (lib.change_child i (link_event_to_object lib e) root))
    linked-IsOrdered e i root h some_object =
        let same : places lib (children (lib.change_child i (link_event_to_object lib e) root))
            ≡ places lib (children root) =
          ap (places lib) (laws.children-change_child i (link_event_to_object lib e) root)
          ∙ places-change_at lib i (link_event_to_object lib e) (tag-link lib laws e)
              (children root) in
        rw (places-event lib laws e (lib.change_child i (link_event_to_object lib e) root)) (
          event_index-is_sorted lib laws
            (children (lib.change_child i (link_event_to_object lib e) root)) (rw same h)
            (omega (
              arith,
              objects-places lib laws root,
              objects-places lib laws (lib.change_child i (link_event_to_object lib e) root),
              ap (count_place 1) same,
            )))

    add_validation-IsOrdered :
        (k : ℕ) (original : String) (root root' : Element)
        → IsOrdered lib root
        → add_validation lib ids now summary agent k original root ≡ answer root'
        → IsOrdered lib root'
    unfolding add_validation
    add_validation-IsOrdered k original root root' h e =
        by_object (object_named lib original (children root)) refl (ids k) refl
      where
        by_object :
            (found : Option ℕ)
            → object_named lib original (children root) ≡ found
            → (id : Answer String) → ids k ≡ id
            → IsOrdered lib root'
        by_object none q id r = let no : ⊥ = ground arith in elim no [ ]
        by_object (some i) q (error x) r = let no : ⊥ = ground arith in elim no [ ]
        by_object (some i) q panic r = let no : ⊥ = ground arith in elim no [ ]
        by_object (some i) q (answer id) r =
            let event : Event = validation_event lib ids now summary agent k id in
            let same : add_event_element lib event
                  (lib.change_child i (link_event_to_object lib event) root)
                ≡ root' =
              ground arith in
            rw (← same) (
              linked-IsOrdered event i root h
                (object_named-objects lib laws original (children root) i q))

    validate_at-IsOrdered :
        (s : Sip) (k : ℕ) (subpath : Option String) (root root' : Element)
        → IsOrdered lib root
        → validate_at lib ids now summary agent s k subpath root ≡ answer root'
        → IsOrdered lib root'
    unfolding validate_at
    validate_at-IsOrdered s k none root root' h e = let no : ⊥ = ground arith in elim no [ ]
    validate_at-IsOrdered s k (some subpath) root root' h e =
        add_validation-IsOrdered k (original_name_for_subpath s subpath) root root' h e

    add_validations-IsOrdered :
        (s : Sip) (allowed : List String) (k : ℕ) (formats : List (String × String))
        (root : Element) (added : Bool) (out : Element × Bool)
        → IsOrdered lib root
        → add_validations lib ids now summary agent s allowed k formats root added ≡ answer out
        → IsOrdered lib out.0
    unfolding add_validations
    add_validations-IsOrdered s allowed k [] root added out h e =
        let same : (root, added) ≡ out = cc in rw (← same) h
    add_validations-IsOrdered s allowed k ((path, id) ∷ formats) root added out h e =
        elim (Bool-cases (contains allowed id)) [
          | inl q ↦
              let at_path : Answer Element =
                validate_at lib ids now summary agent s k (rel s.content_path path) root in
              let ((r, a), e1, e2) =
                >>=-answer (at_path >>= λ x. answer (x, true))
                  (λ (x, b).
                    add_validations lib ids now summary agent s allowed (suc k) formats x b)
                  (rw q at e) in
              let (r', v, same) = >>=-answer at_path (λ x. answer (x, true)) e1 in
              let here : IsOrdered lib r' =
                validate_at-IsOrdered s k (rel s.content_path path) root r' h v in
              let equal : r' ≡ r = cc in
              add_validations-IsOrdered s allowed (suc k) formats r a out (rw (← equal) here) e2
          | inr q ↦ add_validations-IsOrdered s allowed (suc k) formats root added out h (rw q at e)
        ]

    with_agent-IsOrdered :
        (out : Element × Bool)
        → IsOrdered lib out.0
        → IsOrdered lib (with_agent lib ids now summary agent out)
    with_agent-IsOrdered (root, true) h = add_agent-IsOrdered lib laws agent root h
    with_agent-IsOrdered (root, false) h = h

    written-IsOrdered :
        (s : Sip) (allowed : List String) (formats : Answer (List (String × String)))
        (f : PremisFile lib) (doc : Option Element)
        → FileIsOrdered lib laws f
        → write_validations lib ids now summary agent s allowed formats f ≡ answer doc
        → DocIsOrdered lib laws doc
    unfolding write_validations
    written-IsOrdered s allowed formats f doc h e =
        let (before, e1, r1) = >>=-answer (parse_or_initialize lib f) _ e in
        let (root, e2, r2) = >>=-answer (get_root lib before) _ r1 in
        let (found, e3, r3) = >>=-answer formats _ r2 in
        let (out, e4, r4) =
          >>=-answer (add_validations lib ids now summary agent s allowed 0 found root false) _
            r3 in
        let start : IsOrdered lib root =
          root-IsOrdered lib laws before root (doc-IsOrdered lib laws f before h e1) e2 in
        let all : IsOrdered lib out.0 =
          add_validations-IsOrdered s allowed 0 found root false out start e4 in
        let same =
          written lib laws f (some (lib.indent (with_agent lib ids now summary agent out))) doc
            r4 in
        rw (← same) (
          indent-IsOrdered lib laws (with_agent lib ids now summary agent out)
            (with_agent-IsOrdered out all))

    validation-IsOrdered :
        (path : String) (s : Sip) (allowed : List String)
        (formats : Answer (List (String × String))) (f : PremisFile lib) (doc : Option Element)
        → FileIsOrdered lib laws f
        → add_premis_validation_event lib ids now summary agent path s allowed formats f
          ≡ answer doc
        → DocIsOrdered lib laws doc
    unfolding add_premis_validation_event
    validation-IsOrdered path s allowed formats f doc h e =
        written-IsOrdered s allowed formats f doc h (ground arith)

  event-IsOrdered :
      (ids now : ℕ → String) (type detail outcome_detail : String) (failures : Option (List String))
      (agent : Agent) (f : PremisFile lib) (doc : Option Element)
      → FileIsOrdered lib laws f
      → add_premis_event lib ids now type detail outcome_detail failures agent f ≡ answer doc
      → DocIsOrdered lib laws doc
  unfolding add_premis_event
  event-IsOrdered ids now type detail outcome_detail failures agent f doc h e =
      let (before, e1, r1) = >>=-answer (parse_or_initialize lib f) _ e in
      let (root, e2, r2) = >>=-answer (get_root lib before) _ r1 in
      let same = written lib laws f _ doc r2 in
      rw (← same) (
        each-IsOrdered lib laws ids now _ agent root
          (root-IsOrdered lib laws before root (doc-IsOrdered lib laws f before h e1) e2))

  agent-IsOrdered :
      (agent : Agent) (f : PremisFile lib) (doc : Option Element)
      → FileIsOrdered lib laws f
      → add_premis_agent lib agent f ≡ answer doc
      → DocIsOrdered lib laws doc
  unfolding add_premis_agent
  agent-IsOrdered agent f doc h e =
      let (before, e1, r1) = >>=-answer (parse_or_initialize lib f) _ e in
      let (root, e2, r2) = >>=-answer (get_root lib before) _ r1 in
      let same = written lib laws f (some (add_agent lib agent root)) doc r2 in
      rw (← same) (
        add_agent-IsOrdered lib laws agent root
          (root-IsOrdered lib laws before root (doc-IsOrdered lib laws f before h e1) e2))

-- A call of one of the three activities that write events and agents
pub data Call : Type 0 where
  event_call :
      (ℕ → String) → (ℕ → String) → String → String → String → Option (List String) → Agent → Call
  validation_call :
      (ℕ → Answer String)
      → (ℕ → String)
      → EventSummary
      → Agent
      → String
      → Sip
      → List String
      → Answer (List (String × String))
      → Call
  agent_call : Agent → Call

unfoldable pub run : (lib : Etree) → Call → PremisFile lib → Answer (Option lib.Element)
run lib (event_call ids now type detail outcome_detail failures agent) f =
    add_premis_event lib ids now type detail outcome_detail failures agent f
run lib (validation_call ids now summary agent path s allowed formats) f =
    add_premis_validation_event lib ids now summary agent path s allowed formats f
run lib (agent_call agent) f = add_premis_agent lib agent f

-- If objects, events and agents stand in this order in the file premis.xml, and in the empty document,
-- then they do in the document that AddPREMISEvent, AddPREMISValidationEvent or AddPREMISAgent writes,
-- whatever its parameters are.
pub run-IsOrdered :
    (lib : Etree) (laws : IsEtree lib) (call : Call) (f : PremisFile lib) (doc : Option lib.Element)
    → FileIsOrdered lib laws f
    → run lib call f ≡ answer doc
    → DocIsOrdered lib laws doc
unfolding run
run-IsOrdered lib laws (event_call ids now type detail od failures agent) f doc h e =
    event-IsOrdered lib laws ids now type detail od failures agent f doc h e
run-IsOrdered lib laws (validation_call ids now summary agent path s allowed formats) f doc h e =
    validation-IsOrdered lib laws ids now summary agent path s allowed formats f doc h e
run-IsOrdered lib laws (agent_call agent) f doc h e = agent-IsOrdered lib laws agent f doc h e
