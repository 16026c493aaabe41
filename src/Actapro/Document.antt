-- ===== src/Actapro/Document.antt =====
-- internal/actapro/get_document_activity.go: the AIPs that a document names.
use sfa_enduro_workflows.Base.{
  ◌≡◌, refl, sym, ap, ◌∙◌, inl, inr, String, Bool, true, false, not, ◌&&◌, ◌||◌, List, [], ◌∷◌,
  ◌++◌, str_eq, eq_iff, if◌then◌else◌, contains, is_empty, arith, Bool-cases,
}
use sfa_enduro_workflows.Workflow.{Result, ok, err}
use sfa_enduro_workflows.Actapro.{
  success, responded, Field, Group, Found, add_uuid, add_field, add_fields, add_groups, found_uuids,
  get_document,
}

-- The values of the AIP_ID fields of the AIP_ID_Gp groups that are not empty
unfoldable pub field_values : List Field → List String
field_values [] = []
field_values (f ∷ fs) =
    let rest = field_values fs in
    if str_eq f.type "AIP_ID" && not (str_eq f.value "") then f.value ∷ rest else rest

unfoldable pub values : List Group → List String
unfolding field_values
values [] = []
values (g ∷ gs) =
    let rest = values gs in
    if str_eq g.type "AIP_ID_Gp" then field_values g.fields ++ rest else rest

abbrev pub is_distinct : List String → Bool
is_distinct [] = true
is_distinct (x ∷ xs) = not (contains xs x) && is_distinct xs

contains-append :
    (xs ys : List String) (p : String) → contains (xs ++ ys) p ≡ contains xs p || contains ys p
contains-append [] ys p = refl
contains-append (x ∷ xs) ys p = ground (arith, contains-append xs ys p)

distinct-append :
    (xs : List String) (u : String)
    → contains xs u ≡ false
    → is_distinct xs ≡ true
    → is_distinct (xs ++ u ∷ []) ≡ true
distinct-append [] u h k = refl
distinct-append (x ∷ xs) u h k =
    ground (arith, distinct-append xs u, contains-append xs (u ∷ []) x, eq_iff u x, eq_iff x u)

abbrev pub stands_for : Result String → String → Bool
stands_for (ok w) u = str_eq w u
stands_for (err e) u = false

abbrev pub is_uuid : Result String → Bool
is_uuid (ok w) = true
is_uuid (err e) = false

module _ (parse_uuid : String → Result String) where
  -- Some value stands for the UUID.
  abbrev pub names : List String → String → Bool
  names [] u = false
  names (v ∷ vs) u = stands_for (parse_uuid v) u || names vs u

  -- Each value is a UUID.
  abbrev pub all_parse : List String → Bool
  all_parse [] = true
  all_parse (v ∷ vs) = is_uuid (parse_uuid v) && all_parse vs

  add_values : List String → Found → Found
  add_values [] s = s
  add_values (v ∷ vs) s = add_values vs (add_uuid parse_uuid v (parse_uuid v) s)

  add_values-append :
      (vs ws : List String) (s : Found) → add_values (vs ++ ws) s ≡ add_values ws (add_values vs s)
  unfolding add_values
  add_values-append [] ws s = refl
  add_values-append (v ∷ vs) ws s = add_values-append vs ws (add_uuid parse_uuid v (parse_uuid v) s)

  add_fields-values :
      (fs : List Field) (s : Found) → add_fields parse_uuid fs s ≡ add_values (field_values fs) s
  unfolding add_fields add_field add_values field_values
  add_fields-values [] s = refl
  add_fields-values (f ∷ fs) s =
      elim (Bool-cases (str_eq f.type "AIP_ID" && not (str_eq f.value ""))) [
        | inl q ↦ rw q (add_fields-values fs (add_uuid parse_uuid f.value (parse_uuid f.value) s))
        | inr q ↦ rw q (add_fields-values fs s)
      ]

  add_groups-values :
      (gs : List Group) (s : Found) → add_groups parse_uuid gs s ≡ add_values (values gs) s
  unfolding add_groups add_values values
  add_groups-values [] s = refl
  add_groups-values (g ∷ gs) s = elim (Bool-cases (str_eq g.type "AIP_ID_Gp")) [
    | inl q ↦ rw q (
        add_groups-values gs (add_fields parse_uuid g.fields s)
        ∙ (ap (add_values (values gs)) (add_fields-values g.fields s)
            ∙ sym (add_values-append (field_values g.fields) (values gs) s)))
    | inr q ↦ rw q (add_groups-values gs s)
  ]

  no-more : (x : String) (xs : List String) → is_empty (xs ++ x ∷ []) ≡ false
  no-more x [] = refl
  no-more x (y ∷ ys) = refl

  errors-add :
      (v : String) (p : Result String) (s : Found)
      → is_empty (add_uuid parse_uuid v p s).errors ≡ is_empty s.errors && is_uuid p
  unfolding add_uuid
  errors-add v (ok w) s = ground arith
  errors-add v (err e) s = ground (arith, no-more _ s.errors)

  errors-values :
      (vs : List String) (s : Found)
      → is_empty (add_values vs s).errors ≡ is_empty s.errors && all_parse vs
  unfolding add_values
  errors-values [] s = ground arith
  errors-values (v ∷ vs) s = ground (
    arith,
    errors-add v (parse_uuid v) s,
    errors-values vs (add_uuid parse_uuid v (parse_uuid v) s),
  )

  uuids-add :
      (v : String) (p : Result String) (s : Found) (u : String)
      → contains (add_uuid parse_uuid v p s).uuids u ≡ contains s.uuids u || stands_for p u
  unfolding add_uuid
  uuids-add v (err e) s u = ground arith
  uuids-add v (ok w) s u = ground (arith, contains-append s.uuids (w ∷ []) u, eq_iff w u)

  uuids-values :
      (vs : List String) (s : Found) (u : String)
      → contains (add_values vs s).uuids u ≡ contains s.uuids u || names vs u
  unfolding add_values
  uuids-values [] s u = ground arith
  uuids-values (v ∷ vs) s u = ground (
    arith,
    uuids-add v (parse_uuid v) s u,
    uuids-values vs (add_uuid parse_uuid v (parse_uuid v) s) u,
  )

  distinct-add :
      (v : String) (p : Result String) (s : Found)
      → is_distinct s.uuids ≡ true
      → is_distinct (add_uuid parse_uuid v p s).uuids ≡ true
  unfolding add_uuid
  distinct-add v (err e) s h = h
  distinct-add v (ok w) s h = elim (Bool-cases (contains s.uuids w)) [
    | inl q ↦ rw q h
    | inr q ↦ rw q (distinct-append s.uuids w q h)
  ]

  distinct-values :
      (vs : List String) (s : Found)
      → is_distinct s.uuids ≡ true
      → is_distinct (add_values vs s).uuids ≡ true
  unfolding add_values
  distinct-values [] s h = h
  distinct-values (v ∷ vs) s h =
      distinct-values vs (add_uuid parse_uuid v (parse_uuid v) s)
        (distinct-add v (parse_uuid v) s h)

  abbrev nothing_found : Found
  nothing_found = record { uuids = []; errors = [] }

  found-success :
      (s : Found) (uuids : List String)
      → found_uuids parse_uuid s ≡ success uuids
      → (is_empty s.errors ≡ true) × (s.uuids ≡ uuids)
  unfolding found_uuids
  found-success s uuids h = ground arith

  -- A document gives UUIDs only if each value of its AIP_ID fields is one. They are the UUIDs that some
  -- value stands for, each of them once.
  pub get_document-names :
      (groups : List Group) (uuids : List String)
      → get_document parse_uuid (ok (responded groups)) ≡ success uuids
      → (all_parse (values groups) ≡ true)
        × (is_distinct uuids ≡ true)
        × ((u : String) → contains uuids u ≡ names (values groups) u)
  unfolding get_document
  get_document-names groups uuids h =
      let e : add_groups parse_uuid groups nothing_found
          ≡ add_values (values groups) nothing_found =
        add_groups-values groups nothing_found in
      let (no_errors, same) =
        found-success (add_values (values groups) nothing_found) uuids (rw e at h) in
      (
        sym (errors-values (values groups) nothing_found) ∙ no_errors,
        rw (← same) (distinct-values (values groups) nothing_found refl),
        λ u. rw (← same) (uuids-values (values groups) nothing_found u),
      )
