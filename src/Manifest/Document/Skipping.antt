-- ===== src/Manifest/Document/Skipping.antt =====
-- internal/manifest/manifest.go: Parse passes over what is irrelevant to it.
use sfa_enduro_workflows.Base.{
  ℕ, suc, ◌≡◌, refl, ◌∙◌, String, Bool, true, false, List, [], ◌∷◌, str_eq, contains, if◌then◌else◌,
  arith,
}
use sfa_enduro_workflows.Manifest.{
  Token, start_element, end_element, char_data, other_token, State, read, skip, read_token,
  start_tag, text, relevant_elements, go, skip_element,
}
use sfa_enduro_workflows.Manifest.Document.{
  Content, nothing, words, comment, element, emit_content, IsIrrelevant,
}

skip-content :
    (name : String) (c : Content) (depth : ℕ) (ts : List Token) (s : State)
    → skip name depth (emit_content c ts) s ≡ skip name depth ts s
unfolding skip emit_content
skip-content name nothing depth ts s = refl
skip-content name (words t c) depth ts s = skip-content name c depth ts s
skip-content name (comment c) depth ts s = skip-content name c depth ts s
skip-content name (element e attrs inner c) depth ts s =
    skip-content name inner (suc depth) (end_element e ∷ emit_content c ts) s
    ∙ skip-content name c depth ts s

-- Text directly in the newest open element is read over.
unfoldable pub is_quiet : List String → Bool
is_quiet [] = true
is_quiet (top ∷ rest) =
    if str_eq top "name"
    then false
    else if str_eq top "pruefalgorithmus"
    then false
    else if str_eq top "pruefsumme"
    then false
    else true

text-quiet :
    (t : String) (open_elems : List String) (s : State)
    → is_quiet open_elems ≡ true
    → text t open_elems s ≡ go s
unfolding is_quiet text
text-quiet t [] s h = refl
text-quiet t (top ∷ rest) s h = ground arith

-- One round of the loop
read-go :
    (t : Token) (ts : List Token) (s : State) {s' : State}
    → read_token t s ≡ go s'
    → read (t ∷ ts) s ≡ read ts s'
unfolding read
read-go t ts s h = ground arith

read-skip :
    (t : Token) (ts : List Token) (e : String) (s : State) {s' : State}
    → read_token t s ≡ skip_element e s'
    → read (t ∷ ts) s ≡ skip e 0 ts s'
unfolding read
read-skip t ts e s h = ground arith

start-irrelevant :
    (e : String) (attrs : List (String × String)) (s : State)
    → contains relevant_elements e ≡ false
    → start_tag e attrs s ≡ skip_element e s
unfolding start_tag
start-irrelevant e attrs s h = rw h refl

pub read-content :
    (c : Content) (ts : List Token) (s : State)
    → IsIrrelevant c
    → is_quiet s.open_elems ≡ true
    → read (emit_content c ts) s ≡ read ts s
unfolding emit_content read_token skip
read-content nothing ts s h q = refl
read-content (words t c) ts s h q =
    read-go (char_data t) (emit_content c ts) s (text-quiet t s.open_elems s q)
    ∙ read-content c ts s h q
read-content (comment c) ts s h q =
    read-go other_token (emit_content c ts) s refl ∙ read-content c ts s h q
read-content (element e attrs inner c) ts s h q =
    read-skip (start_element e attrs) (emit_content inner (end_element e ∷ emit_content c ts)) e s
      (start-irrelevant e attrs s h.0)
    ∙ (skip-content e inner 0 (end_element e ∷ emit_content c ts) s ∙ read-content c ts s h.1 q)
