-- ===== src/Tests/Premis.antt =====
-- A small library of elements, a PREMIS document in it, and the theorems at it.
use sfa_enduro_workflows.Base.{
  ◌≡◌, refl, ap, String, Bool, true, false, ◌&&◌, ◌||◌, Option, none, some, List, [], ◌∷◌, ◌++◌,
  str_eq, answer,
}
use sfa_enduro_workflows.Premis.{
  Etree, Object, EventSummary, agent_default, insert_at, change_at, add_agent,
}
use sfa_enduro_workflows.Premis.Entities.{IsEtree, IsOrdered, HasObjectsOnly, rank}
use sfa_enduro_workflows.Premis.Writing.{
  Entry, event_each, agent, white_space, write_all, add_objects, write_all-IsOrdered,
}
use sfa_enduro_workflows.Premis.Activities.{
  PremisFile, add_premis_agent, parse_or_initialize, get_root, write_to_file,
}
use sfa_enduro_workflows.Premis.Activities.Documents.{DocIsOrdered}
use sfa_enduro_workflows.Premis.Activities.Order.{agent_call, run, run-IsOrdered}

-- An element has a tag, a text and children.
mutual
  data El : Type 0 where
    el : String → String → Els → El

  data Els : Type 0 where
    nil : Els
    space : Els → Els
    cons : El → Els → Els

abbrev list : Els → List (Option El)
list nil = []
list (space es) = none ∷ list es
list (cons e es) = some e ∷ list es

abbrev els : List (Option El) → Els
els [] = nil
els (none ∷ xs) = space (els xs)
els (some e ∷ xs) = cons e (els xs)

abbrev tag_of : El → String
tag_of (el t text es) = t

abbrev text_of : El → String
text_of (el t text es) = text

abbrev below : El → List (Option El)
below (el t text es) = list es

abbrev with_children : El → (List (Option El) → List (Option El)) → El
with_children (el t text es) f = el t text (els (f (list es)))

abbrev has_child : String → String → List (Option El) → Bool
has_child t text [] = false
has_child t text (none ∷ xs) = has_child t text xs
has_child t text (some e ∷ xs) =
    (str_eq (tag_of e) t && str_eq (text_of e) text) || has_child t text xs

abbrev with_text : String → El → El
with_text text (el t old es) = el t text es

abbrev small : Etree
small = record {
  Element = El;
  tag = tag_of;
  children = below;
  new_element = λ t. el t "" nil;
  create_attr = λ k v e. e;
  create_text = with_text;
  add_child = λ e c. with_children e (λ xs. xs ++ some c ∷ []);
  insert_child_at = λ i c e. with_children e (insert_at i (some c));
  change_child = λ i f e. with_children e (change_at i f);
  has_text = λ path value e. has_child path value (below e);
  has_child_text = λ t value e. has_child t value (below e);
  indent = λ e. e;
}

list-els : (xs : List (Option El)) → list (els xs) ≡ xs
list-els [] = refl
list-els (none ∷ xs) = ap (◌∷◌ none) (list-els xs)
list-els (some e ∷ xs) = ap (◌∷◌ (some e)) (list-els xs)

tag-with_children :
    (e : El) (f : List (Option El) → List (Option El)) → tag_of (with_children e f) ≡ tag_of e
tag-with_children (el t text es) f = refl

below-with_children :
    (e : El) (f : List (Option El) → List (Option El)) → below (with_children e f) ≡ f (below e)
below-with_children (el t text es) f = list-els (f (list es))

tag-with_text : (text : String) (e : El) → tag_of (with_text text e) ≡ tag_of e
tag-with_text text (el t old es) = refl

abbrev small-IsEtree : IsEtree small
small-IsEtree = record {
  tag-new_element = λ t. refl;
  tag-create_attr = λ k v e. refl;
  tag-create_text = tag-with_text;
  tag-add_child = λ e c. tag-with_children e (λ xs. xs ++ some c ∷ []);
  children-add_child = λ e c. below-with_children e (λ xs. xs ++ some c ∷ []);
  children-insert_child_at = λ i c e. below-with_children e (insert_at i (some c));
  children-change_child = λ i f e. below-with_children e (change_at i f);
  elements-indent = λ e. refl;
}

abbrev empty_document : El
empty_document = el "premis:premis" "" (space nil)

abbrev page_object : Object
page_object = record { id_type = "UUID"; id_value = "1"; original_name = "data/objects/a.txt" }

abbrev summary : EventSummary
summary = record { type = "validation"; detail = "d"; outcome = "valid"; outcome_detail = "" }

abbrev steps : List Entry
steps =
    agent agent_default
    ∷ event_each (λ k. "id") (λ k. "now") summary agent_default
    ∷ white_space
    ∷ []

empty_document-HasObjectsOnly : HasObjectsOnly small empty_document
empty_document-HasObjectsOnly = refl

write_all-IsOrdered_example :
    IsOrdered small (write_all small steps (add_objects small (page_object ∷ []) empty_document))
write_all-IsOrdered_example =
    write_all-IsOrdered small small-IsEtree (page_object ∷ []) steps empty_document
      empty_document-HasObjectsOnly

abbrev with_object : El
with_object = el "premis:premis" "" (cons (el "premis:object" "" nil) nil)

abbrev premis_file : PremisFile small
premis_file = record {
  exists = true;
  parsed = answer (some with_object);
  empty = empty_document;
  write_error = none;
}

abbrev agent_written : Option El
agent_written = some (add_agent small agent_default with_object)

agent_run : run small (agent_call agent_default) premis_file ≡ answer agent_written
unfolding run add_premis_agent parse_or_initialize get_root write_to_file
agent_run = refl

with_object-IsOrdered : IsOrdered small with_object
unfolding rank
with_object-IsOrdered = refl

run-IsOrdered_example : DocIsOrdered small small-IsEtree agent_written
run-IsOrdered_example =
    run-IsOrdered small small-IsEtree (agent_call agent_default) premis_file agent_written
      (with_object-IsOrdered, refl) agent_run
