-- ===== src/FilePath/Bases.antt =====
-- Go's path/filepath at relative paths that are made of plain names: what Base gives there.
use sfa_enduro_workflows.Base.{◌≡◌, refl, String, List, [], ◌∷◌, join_texts}
use sfa_enduro_workflows.FilePath.{base, last_elem}
use sfa_enduro_workflows.FilePath.Names.{AreNames, name-ne-empty, join-ne-empty, split-join}

-- The last name
abbrev pub last_name : String → List String → String
last_name x [] = x
last_name x (y ∷ ys) = last_name y ys

last_elem-names :
    (found x : String) (ys : List String)
    → AreNames (x ∷ ys)
    → last_elem found (x ∷ ys) ≡ last_name x ys
unfolding last_elem
last_elem-names found x [] h = rw (name-ne-empty x h.0) refl
last_elem-names found x (y ∷ ys) h = rw (name-ne-empty x h.0) (last_elem-names x y ys h.1)

pub base-join :
    (x : String) (ys : List String)
    → AreNames (x ∷ ys)
    → base (join_texts "/" (x ∷ ys)) ≡ last_name x ys
unfolding base
base-join x ys h = rw (join-ne-empty x ys h, split-join x ys h) (last_elem-names "/" x ys h)
