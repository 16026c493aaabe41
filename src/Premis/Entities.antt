-- ===== src/Premis/Entities.antt =====
-- internal/premis/premis.go: the entities of a document, and what is relied on of etree.
use sfa_enduro_workflows.Base.{
  ℕ, zero, suc, ◌≡◌, refl, ap, inl, inr, String, true, Option, none, some, List, [], ◌∷◌, ◌++◌, map,
  str_eq, eq_iff, ◌==◌, if◌then◌else◌, arith, Bool-cases,
}
use sfa_enduro_workflows.Premis.{Etree, insert_at, change_at, last_index, count_tag, is}
use sfa_enduro_workflows.Premis.Places.{all_from, is_sorted, last_place, all_to, count_place}

-- The children that are elements
abbrev pub elements {ℓ} : {A : Type ℓ} → List (Option A) → List A
elements [] = []
elements (none ∷ xs) = elements xs
elements (some x ∷ xs) = x ∷ elements xs

-- What etree documents of the functions that are used.
pub record IsEtree (lib : Etree) : Type 0 where
  pub tag-new_element : (t : String) → lib.tag (lib.new_element t) ≡ t
  pub tag-create_attr :
      (k v : String) (e : lib.Element) → lib.tag (lib.create_attr k v e) ≡ lib.tag e
  pub tag-create_text : (t : String) (e : lib.Element) → lib.tag (lib.create_text t e) ≡ lib.tag e
  pub tag-add_child : (e c : lib.Element) → lib.tag (lib.add_child e c) ≡ lib.tag e
  pub children-add_child :
      (e c : lib.Element) → lib.children (lib.add_child e c) ≡ lib.children e ++ some c ∷ []
  pub children-insert_child_at :
      (i : ℕ) (c e : lib.Element)
      → lib.children (lib.insert_child_at i c e) ≡ insert_at i (some c) (lib.children e)
  pub children-change_child :
      (i : ℕ) (f : lib.Element → lib.Element) (e : lib.Element)
      → lib.children (lib.change_child i f e) ≡ change_at i f (lib.children e)
  -- Indent changes white space only.
  pub elements-indent :
      (e : lib.Element) → elements (lib.children (lib.indent e)) ≡ elements (lib.children e)

-- The place of an entity: objects, events, agents
unfoldable pub rank : String → ℕ
rank t =
    if str_eq t "premis:object"
    then 1
    else if str_eq t "premis:event"
    then 2
    else if str_eq t "premis:agent"
    then 3
    else 0

module _ (lib : Etree) where
  open lib use {Element, tag, children}

  abbrev pub place : Option Element → ℕ
  place none = 0
  place (some e) = rank (tag e)

  abbrev pub places : List (Option Element) → List ℕ
  places xs = map place xs

  pub is-object : (x : Option Element) → is lib "premis:object" x ≡ (place x == 1)
  unfolding rank
  is-object none = refl
  is-object (some e) = ground arith

  pub is-event : (x : Option Element) → is lib "premis:event" x ≡ (place x == 2)
  unfolding rank
  is-event none = refl
  is-event (some e) = elim (Bool-cases (str_eq (tag e) "premis:object")) [
    | inl q ↦ rw ((eq_iff (tag e) "premis:object").0 q) refl
    | inr q ↦ ground arith
  ]

  pub last_index-place :
      (t : String) (r : ℕ)
      → ((x : Option Element) → is lib t x ≡ (place x == r))
      → (xs : List (Option Element)) → last_index lib t xs ≡ last_place r (places xs)
  unfolding last_index last_place
  last_index-place t r h [] = refl
  last_index-place t r h (x ∷ xs) = ground (arith, h x, last_index-place t r h xs)

  pub count_tag-place :
      (t : String) (r : ℕ)
      → ((x : Option Element) → is lib t x ≡ (place x == r))
      → (xs : List (Option Element)) → count_tag lib t xs ≡ count_place r (places xs)
  unfolding count_tag count_place
  count_tag-place t r h [] = refl
  count_tag-place t r h (x ∷ xs) = rw (h x, count_tag-place t r h xs) refl

  pub places-insert_at :
      (i : ℕ) (c : Element) (xs : List (Option Element))
      → places (insert_at i (some c) xs) ≡ insert_at i (rank (tag c)) (places xs)
  places-insert_at zero c xs = refl
  places-insert_at (suc i) c [] = refl
  places-insert_at (suc i) c (x ∷ xs) = ap (◌∷◌ (place x)) (places-insert_at i c xs)

  pub places-append :
      (c : Element) (xs : List (Option Element))
      → places (xs ++ some c ∷ []) ≡ places xs ++ rank (tag c) ∷ []
  places-append c [] = refl
  places-append c (x ∷ xs) = ap (◌∷◌ (place x)) (places-append c xs)

  pub places-change_at :
      (i : ℕ) (f : Element → Element)
      → ((e : Element) → tag (f e) ≡ tag e)
      → (xs : List (Option Element)) → places (change_at i f xs) ≡ places xs
  places-change_at i f h [] = refl
  places-change_at zero f h (none ∷ xs) = refl
  places-change_at zero f h (some e ∷ xs) = rw (h e) refl
  places-change_at (suc i) f h (x ∷ xs) = ap (◌∷◌ (place x)) (places-change_at i f h xs)

  -- The order is one of the elements.
  all_from-elements :
      (r : ℕ) (xs : List (Option Element))
      → all_from r (places xs) ≡ all_from r (map (λ e. rank (tag e)) (elements xs))
  all_from-elements r [] = refl
  all_from-elements r (none ∷ xs) = all_from-elements r xs
  all_from-elements r (some e ∷ xs) = rw (all_from-elements r xs) refl

  pub is_sorted-elements :
      (xs : List (Option Element))
      → is_sorted (places xs) ≡ is_sorted (map (λ e. rank (tag e)) (elements xs))
  is_sorted-elements [] = refl
  is_sorted-elements (none ∷ xs) = is_sorted-elements xs
  is_sorted-elements (some e ∷ xs) =
      rw (all_from-elements (rank (tag e)) xs, is_sorted-elements xs) refl

  -- Objects stand before events, and events before agents.
  abbrev pub IsOrdered : Element → Type 0
  IsOrdered root = is_sorted (places (children root)) ≡ true

  -- There are no events and no agents.
  abbrev pub HasObjectsOnly : Element → Type 0
  HasObjectsOnly root = all_to 1 (places (children root)) ≡ true

  abbrev pub objects : Element → ℕ
  objects root = count_tag lib "premis:object" (children root)

  abbrev pub events : Element → ℕ
  events root = count_tag lib "premis:event" (children root)
