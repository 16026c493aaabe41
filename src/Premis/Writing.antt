-- ===== src/Premis/Writing.antt =====
-- internal/premis/premis.go: what is written step by step into a document.
use sfa_enduro_workflows.Base.{
  ℕ, zero, suc, ◌+◌, ◌<◌, ◌≡◌, refl, sym, ap, ◌∙◌, inl, inr, String, true, Option, none, some, List,
  [], ◌∷◌, map, arith, Bool-cases,
}
use sfa_enduro_workflows.Premis.{
  Etree, Object, Event, EventSummary, Agent, object_element, add_object, agent_element, add_agent,
  append_events, append_event_for_each_object, event_from, agent_exists, object_exists,
}
use sfa_enduro_workflows.Premis.Places.{
  is_sorted, all_to, append-is_sorted, objects-is_sorted, all_to-append,
}
use sfa_enduro_workflows.Premis.Entities.{
  IsEtree, rank, places, is_sorted-elements, places-append, IsOrdered, HasObjectsOnly, objects,
  events,
}
use sfa_enduro_workflows.Premis.Order.{
  tag-agent_element, tag-object_element, objects-record, events-record, record-IsOrdered,
  record_event,
}

-- What is written behind the objects: an event for each object, an agent, or the white space.
pub data Entry : Type 0 where
  event_each : (ℕ → String) → (ℕ → String) → EventSummary → Agent → Entry
  agent : Agent → Entry
  white_space : Entry

module _ (lib : Etree) where
  unfoldable pub write : Entry → lib.Element → lib.Element
  write (event_each ids now summary a) root =
      append_event_for_each_object lib ids now summary a root
  write (agent a) root = add_agent lib a root
  write white_space root = lib.indent root

  unfoldable pub write_all : List Entry → lib.Element → lib.Element
  unfolding write
  write_all [] root = root
  write_all (e ∷ es) root = write_all es (write e root)

  -- AppendObjectXML, for each object
  unfoldable pub add_objects : List Object → lib.Element → lib.Element
  add_objects [] root = root
  add_objects (o ∷ os) root = add_objects os (add_object lib o root)

module _ (lib : Etree) (laws : IsEtree lib) where
  open lib use {Element, tag, children}

  append_events-objects :
      (ids now : ℕ → String) (s : EventSummary) (a : Agent) (k left : ℕ) (root : Element)
      → objects lib (append_events lib ids now s a k left root) ≡ objects lib root
  unfolding append_events
  append_events-objects ids now s a k zero root = refl
  append_events-objects ids now s a k (suc left) root =
      let e : Event = event_from lib ids now s a k in
      append_events-objects ids now s a (suc k) left (record_event lib laws e k root)
      ∙ objects-record lib laws e k root

  append_events-events :
      (ids now : ℕ → String) (s : EventSummary) (a : Agent) (k left : ℕ) (root : Element)
      → events lib (append_events lib ids now s a k left root) ≡ events lib root + left
  unfolding append_events
  append_events-events ids now s a k zero root = omega arith
  append_events-events ids now s a k (suc left) root =
      let e : Event = event_from lib ids now s a k in
      omega (
        arith,
        append_events-events ids now s a (suc k) left (record_event lib laws e k root),
        events-record lib laws e k root,
      )

  append_events-IsOrdered :
      (ids now : ℕ → String) (s : EventSummary) (a : Agent) (k left : ℕ) (root : Element)
      → IsOrdered lib root
      → 0 < objects lib root
      → IsOrdered lib (append_events lib ids now s a k left root)
  unfolding append_events
  append_events-IsOrdered ids now s a k zero root h some_object = h
  append_events-IsOrdered ids now s a k (suc left) root h some_object =
      let e : Event = event_from lib ids now s a k in
      append_events-IsOrdered ids now s a (suc k) left (record_event lib laws e k root)
        (record-IsOrdered lib laws e k root h some_object)
        (omega (arith, objects-record lib laws e k root))

  -- An event is written for each object, and no object is written or lost.
  append_event_for_each_object-counts :
      (ids now : ℕ → String) (s : EventSummary) (a : Agent) (root : Element)
      → (events lib (append_event_for_each_object lib ids now s a root)
          ≡ events lib root + objects lib root)
        × (objects lib (append_event_for_each_object lib ids now s a root) ≡ objects lib root)
  unfolding append_event_for_each_object
  append_event_for_each_object-counts ids now s a root = (
    append_events-events ids now s a 0 (objects lib root) root,
    append_events-objects ids now s a 0 (objects lib root) root,
  )

  pub each-IsOrdered :
      (ids now : ℕ → String) (s : EventSummary) (a : Agent) (root : Element)
      → IsOrdered lib root
      → IsOrdered lib (append_event_for_each_object lib ids now s a root)
  unfolding append_event_for_each_object append_events
  each-IsOrdered ids now s a root h = by_count (objects lib root) refl
    where
      by_count :
          (n : ℕ) → objects lib root ≡ n → IsOrdered lib (append_events lib ids now s a 0 n root)
      by_count zero q = h
      by_count (suc n) q = append_events-IsOrdered ids now s a 0 (suc n) root h (omega arith)

  all_to-places : (xs : List (Option Element)) → all_to 3 (places lib xs) ≡ true
  unfolding rank
  all_to-places [] = refl
  all_to-places (none ∷ xs) = all_to-places xs
  all_to-places (some e ∷ xs) = ground (arith, all_to-places xs)

  pub add_agent-IsOrdered :
      (a : Agent) (root : Element) → IsOrdered lib root → IsOrdered lib (add_agent lib a root)
  unfolding add_agent rank
  add_agent-IsOrdered a root h = elim (Bool-cases (agent_exists lib a root)) [
    | inl q ↦ rw q h
    | inr q ↦
        rw (q, laws.children-add_child root (agent_element lib a))
          (rw
            (places-append lib (agent_element lib a) (children root), tag-agent_element lib laws a)
            (append-is_sorted 3 (places lib (children root)) (all_to-places (children root)) h))
  ]

  add_object-HasObjectsOnly :
      (o : Object) (root : Element)
      → HasObjectsOnly lib root
      → HasObjectsOnly lib (add_object lib o root)
  unfolding add_object rank
  add_object-HasObjectsOnly o root h = elim (Bool-cases (object_exists lib o root)) [
    | inl q ↦ rw q h
    | inr q ↦
        rw (q, laws.children-add_child root (object_element lib o))
          (rw
            (
              places-append lib (object_element lib o) (children root),
              tag-object_element lib laws o,
            )
            (all_to-append 1 1 (places lib (children root)) refl h))
  ]

  add_objects-HasObjectsOnly :
      (os : List Object) (root : Element)
      → HasObjectsOnly lib root
      → HasObjectsOnly lib (add_objects lib os root)
  unfolding add_objects
  add_objects-HasObjectsOnly [] root h = h
  add_objects-HasObjectsOnly (o ∷ os) root h =
      add_objects-HasObjectsOnly os (add_object lib o root) (add_object-HasObjectsOnly o root h)

  pub indent-IsOrdered : (root : Element) → IsOrdered lib root → IsOrdered lib (lib.indent root)
  indent-IsOrdered root h =
      is_sorted-elements lib (children (lib.indent root))
      ∙ (ap (λ es. is_sorted (map (λ e. rank (tag e)) es)) (laws.elements-indent root)
          ∙ (sym (is_sorted-elements lib (children root)) ∙ h))

  write-IsOrdered :
      (e : Entry) (root : Element) → IsOrdered lib root → IsOrdered lib (write lib e root)
  unfolding write
  write-IsOrdered (event_each ids now s a) root h = each-IsOrdered ids now s a root h
  write-IsOrdered (agent a) root h = add_agent-IsOrdered a root h
  write-IsOrdered white_space root h = indent-IsOrdered root h

  write_all-kept :
      (es : List Entry) (root : Element)
      → IsOrdered lib root
      → IsOrdered lib (write_all lib es root)
  unfolding write_all
  write_all-kept [] root h = h
  write_all-kept (e ∷ es) root h = write_all-kept es (write lib e root) (write-IsOrdered e root h)

  -- If a document has no events and no agents, and objects are added to it, and then events for each
  -- object, agents and white space in any order, then its objects stand before its events, and its
  -- events before its agents, as PREMIS wants them.
  pub write_all-IsOrdered :
      (os : List Object) (es : List Entry) (root : Element)
      → HasObjectsOnly lib root
      → IsOrdered lib (write_all lib es (add_objects lib os root))
  write_all-IsOrdered os es root h = write_all-kept es (add_objects lib os root) (
      objects-is_sorted (places lib (children (add_objects lib os root)))
        (add_objects-HasObjectsOnly os root h))
