-- ===== src/Premis/Activities/Documents.antt =====
-- internal/premis/premis.go and internal/activities/add_premis_validation_event.go: the documents that
-- are read, and the objects that are found in them.
use sfa_enduro_workflows.Base.{
  ℕ, ◌<◌, ◌≡◌, refl, inl, inr, String, Option, none, some, List, [], ◌∷◌, arith, Bool-cases, Answer,
  answer, error, panic, ◌>>=◌,
}
use sfa_enduro_workflows.Premis.{Etree, count_tag}
use sfa_enduro_workflows.Premis.Entities.{IsEtree, IsOrdered}
use sfa_enduro_workflows.Premis.Writing.{indent-IsOrdered}
use sfa_enduro_workflows.Premis.Activities.{
  PremisFile, indented, parse_or_initialize, get_root, write_to_file, object_named,
}

module _ (lib : Etree) (laws : IsEtree lib) where
  open lib use {Element, tag, children}

  -- If there is a root, it is in order.
  abbrev pub DocIsOrdered : Option Element → Type 0
  DocIsOrdered none = Unit {0}
  DocIsOrdered (some root) = IsOrdered lib root

  abbrev pub ParseIsOrdered : Answer (Option Element) → Type 0
  ParseIsOrdered (answer doc) = DocIsOrdered doc
  ParseIsOrdered (error e) = Unit {0}
  ParseIsOrdered panic = Unit {0}

  -- What may be in the file is in order.
  abbrev pub FileIsOrdered : PremisFile lib → Type 0
  FileIsOrdered f = ParseIsOrdered f.parsed × IsOrdered lib f.empty

  indented-IsOrdered : (doc : Option Element) → DocIsOrdered doc → DocIsOrdered (indented lib doc)
  unfolding indented
  indented-IsOrdered none h = tt
  indented-IsOrdered (some root) h = indent-IsOrdered lib laws root h

  parsed-IsOrdered :
      (p : Answer (Option Element)) (doc : Option Element)
      → ParseIsOrdered p
      → (p >>= λ d. answer (indented lib d)) ≡ answer doc
      → DocIsOrdered doc
  parsed-IsOrdered (answer d) doc h e =
      let same : indented lib d ≡ doc = cc in rw (← same) (indented-IsOrdered d h)
  parsed-IsOrdered (error x) doc h e = let no : ⊥ = ground arith in elim no [ ]
  parsed-IsOrdered panic doc h e = let no : ⊥ = ground arith in elim no [ ]

  pub doc-IsOrdered :
      (f : PremisFile lib) (doc : Option Element)
      → FileIsOrdered f
      → parse_or_initialize lib f ≡ answer doc
      → DocIsOrdered doc
  unfolding parse_or_initialize
  doc-IsOrdered f doc h e = elim (Bool-cases f.exists) [
    | inl q ↦ parsed-IsOrdered f.parsed doc h.0 (rw q at e)
    | inr q ↦
        let same : some (lib.indent f.empty) ≡ doc = ground arith in
        rw (← same) (indent-IsOrdered lib laws f.empty h.1)
  ]

  pub root-IsOrdered :
      (doc : Option Element) (root : Element)
      → DocIsOrdered doc
      → get_root lib doc ≡ answer root
      → IsOrdered lib root
  unfolding get_root
  root-IsOrdered none root h e = let no : ⊥ = ground arith in elim no [ ]
  root-IsOrdered (some r) root h e = let same : r ≡ root = cc in rw (← same) h

  pub written :
      (f : PremisFile lib) (doc doc' : Option Element)
      → write_to_file lib f doc ≡ answer doc'
      → doc ≡ doc'
  unfolding write_to_file
  written f doc doc' h = ground arith

  pub object_named-objects :
      (n : String) (xs : List (Option Element)) (i : ℕ)
      → object_named lib n xs ≡ some i
      → 0 < count_tag lib "premis:object" xs
  unfolding object_named count_tag
  object_named-objects n [] i h = let no : ⊥ = ground arith in elim no [ ]
  object_named-objects n (none ∷ xs) i h =
      by_rest (object_named lib n xs) refl (object_named-objects n xs)
    where
      by_rest :
          (found : Option ℕ)
          → object_named lib n xs ≡ found
          → ((j : ℕ) → object_named lib n xs ≡ some j → 0 < count_tag lib "premis:object" xs)
          → 0 < count_tag lib "premis:object" (none ∷ xs)
      by_rest none e ih = let no : ⊥ = ground arith in elim no [ ]
      by_rest (some j) e ih = omega (arith, ih j e)
  object_named-objects n (some x ∷ xs) i h =
      by_rest (object_named lib n xs) refl (object_named-objects n xs)
    where
      by_rest :
          (found : Option ℕ)
          → object_named lib n xs ≡ found
          → ((j : ℕ) → object_named lib n xs ≡ some j → 0 < count_tag lib "premis:object" xs)
          → 0 < count_tag lib "premis:object" (some x ∷ xs)
      by_rest none e ih = ground arith
      by_rest (some j) e ih = omega (arith, ih j e)
