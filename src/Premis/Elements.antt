-- ===== src/Premis/Elements.antt =====
-- github.com/beevik/etree, as internal/premis/premis.go uses it.
use sfa_enduro_workflows.Base.{ℕ, zero, suc, String, Bool, Option, none, some, List, [], ◌∷◌}

-- What the code uses of etree. An element that is built is a value, and a change of a child in place
-- is a change of its parent.
pub record Etree : Type 1 where
  pub Element : Type 0
  -- The space and the tag
  pub tag : Element → String
  -- The field Child; a token that is no element is `none`.
  pub children : Element → List (Option Element)
  pub new_element : String → Element
  pub create_attr : String → String → Element → Element
  pub create_text : String → Element → Element
  -- CreateElement, with what is made of the child
  pub add_child : Element → Element → Element
  pub insert_child_at : ℕ → Element → Element → Element
  pub change_child : ℕ → (Element → Element) → Element → Element
  -- FindElement(".//path[text()='value']") is not nil.
  pub has_text : String → String → Element → Bool
  -- A child with the tag has the text.
  pub has_child_text : String → String → Element → Bool
  pub indent : Element → Element

-- Insertion in a list; behind its end it appends.
abbrev pub insert_at {ℓ} : {A : Type ℓ} → ℕ → A → List A → List A
insert_at zero x ys = x ∷ ys
insert_at (suc i) x [] = x ∷ []
insert_at (suc i) x (y ∷ ys) = y ∷ insert_at i x ys

-- The change of the element at an index
abbrev pub change_at {ℓ} : {A : Type ℓ} → ℕ → (A → A) → List (Option A) → List (Option A)
change_at i f [] = []
change_at zero f (none ∷ xs) = none ∷ xs
change_at zero f (some x ∷ xs) = some (f x) ∷ xs
change_at (suc i) f (x ∷ xs) = x ∷ change_at i f xs
