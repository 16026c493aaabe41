-- ===== src/Premis/Order.antt =====
-- internal/premis/premis.go: objects stand before events, and events before agents.
use sfa_enduro_workflows.Base.{
  ℕ, suc, ◌<◌, ◌≡◌, refl, sym, ap, ◌∙◌, true, Option, none, some, List, arith,
}
use sfa_enduro_workflows.Premis.{
  Etree, Object, Event, Agent, insert_at, last_index, nth_index, count_tag, object_element,
  event_element, event_index, add_event_element, link_event_to_object, link_nth, agent_element,
  linking_agent,
}
use sfa_enduro_workflows.Premis.Places.{
  is_sorted, insert_at-is_sorted, count_place, count_place-insert_at, count_place-none,
}
use sfa_enduro_workflows.Premis.Entities.{
  IsEtree, rank, places, is-object, is-event, last_index-place, count_tag-place, places-insert_at,
  places-change_at, IsOrdered, objects, events,
}

module _ (lib : Etree) (laws : IsEtree lib) where
  open lib use {Element, tag, children}

  abbrev whole_event : Event → Element
  whole_event e = linking_agent lib e (event_element lib e)

  tag-whole_event : (e : Event) → tag (whole_event e) ≡ "premis:event"
  unfolding event_element
  tag-whole_event e = simp (laws.tag-add_child, laws.tag-new_element)

  pub tag-agent_element : (a : Agent) → tag (agent_element lib a) ≡ "premis:agent"
  unfolding agent_element
  tag-agent_element a = simp (laws.tag-add_child, laws.tag-new_element)

  pub tag-object_element : (o : Object) → tag (object_element lib o) ≡ "premis:object"
  unfolding object_element
  tag-object_element o = simp (laws.tag-add_child, laws.tag-create_attr, laws.tag-new_element)

  pub tag-link : (e : Event) (o : Element) → tag (link_event_to_object lib e o) ≡ tag o
  unfolding link_event_to_object
  tag-link e o = laws.tag-add_child _ _

  pub places-event :
      (e : Event) (root : Element)
      → places lib (children (add_event_element lib e root))
        ≡ insert_at (event_index lib (children root)) 2 (places lib (children root))
  unfolding add_event_element rank
  places-event e root =
      rw (laws.children-insert_child_at (event_index lib (children root)) (whole_event e) root) (
        places-insert_at lib (event_index lib (children root)) (whole_event e) (children root)
        ∙ ap
            (λ t. insert_at (event_index lib (children root)) (rank t) (places lib (children root)))
            (tag-whole_event e))

  places-link :
      (e : Event) (k : ℕ) (root : Element)
      → places lib (children (link_nth lib e k root)) ≡ places lib (children root)
  unfolding link_nth
  places-link e k root = by_index (nth_index lib "premis:object" k (children root)) refl
    where
      by_index :
          (found : Option ℕ)
          → nth_index lib "premis:object" k (children root) ≡ found
          → places lib (children (link_nth lib e k root)) ≡ places lib (children root)
      by_index none q = rw (q, link_nth) refl
      by_index (some i) q =
          rw (q, link_nth, laws.children-change_child i (link_event_to_object lib e) root)
            (places-change_at lib i (link_event_to_object lib e) (tag-link e) (children root))

  -- One event, linked to an object
  abbrev pub record_event : Event → ℕ → Element → Element
  record_event e k root = link_nth lib e k (add_event_element lib e root)

  places-record :
      (e : Event) (k : ℕ) (root : Element)
      → places lib (children (record_event e k root))
        ≡ insert_at (event_index lib (children root)) 2 (places lib (children root))
  places-record e k root = places-link e k (add_event_element lib e root) ∙ places-event e root

  pub objects-places :
      (root : Element) → objects lib root ≡ count_place 1 (places lib (children root))
  objects-places root = count_tag-place lib "premis:object" 1 (is-object lib) (children root)

  events-places : (root : Element) → events lib root ≡ count_place 2 (places lib (children root))
  events-places root = count_tag-place lib "premis:event" 2 (is-event lib) (children root)

  pub objects-record :
      (e : Event) (k : ℕ) (root : Element) → objects lib (record_event e k root) ≡ objects lib root
  objects-record e k root =
      objects-places (record_event e k root)
      ∙ (ap (count_place 1) (places-record e k root)
          ∙ (count_place-insert_at 1 2 (event_index lib (children root))
                (places lib (children root))
              ∙ (omega arith ∙ sym (objects-places root))))

  pub events-record :
      (e : Event) (k : ℕ) (root : Element)
      → events lib (record_event e k root) ≡ suc (events lib root)
  events-record e k root =
      events-places (record_event e k root)
      ∙ (ap (count_place 2) (places-record e k root)
          ∙ (count_place-insert_at 2 2 (event_index lib (children root))
                (places lib (children root))
              ∙ omega (arith, events-places root)))

  -- Where there is an object, the event is put in order.
  pub event_index-is_sorted :
      (xs : List (Option Element))
      → is_sorted (places lib xs) ≡ true
      → 0 < count_tag lib "premis:object" xs
      → is_sorted (insert_at (event_index lib xs) 2 (places lib xs)) ≡ true
  unfolding event_index
  event_index-is_sorted xs h some_object =
      by_index (last_index lib "premis:event" xs) refl (last_index lib "premis:object" xs) refl
    where
      by_index :
          (event : Option ℕ)
          → last_index lib "premis:event" xs ≡ event
          → (object : Option ℕ) → last_index lib "premis:object" xs ≡ object
          → is_sorted (insert_at (event_index lib xs) 2 (places lib xs)) ≡ true
      by_index (some i) p object q =
          rw (p, event_index)
            (insert_at-is_sorted 2 2 i (places lib xs) (omega arith) refl refl
              (sym (last_index-place lib "premis:event" 2 (is-event lib) xs) ∙ p) h)
      by_index none p (some i) q =
          rw (p, q, event_index)
            (insert_at-is_sorted 1 2 i (places lib xs) (omega arith) refl refl
              (sym (last_index-place lib "premis:object" 1 (is-object lib) xs) ∙ q) h)
      by_index none p none q =
          let none_found = sym (last_index-place lib "premis:object" 1 (is-object lib) xs) ∙ q in
          absurd (
            omega (
              arith,
              count_place-none 1 (places lib xs) none_found,
              count_tag-place lib "premis:object" 1 (is-object lib) xs,
            ))

  pub record-IsOrdered :
      (e : Event) (k : ℕ) (root : Element)
      → IsOrdered lib root
      → 0 < objects lib root
      → IsOrdered lib (record_event e k root)
  record-IsOrdered e k root h some_object =
      rw (places-record e k root) (event_index-is_sorted (children root) h some_object)
