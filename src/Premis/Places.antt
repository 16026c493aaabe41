-- ===== src/Premis/Places.antt =====
-- Sequences of places, 1 for an object, 2 for an event, 3 for an agent and 0 for what is none of them:
-- where an entity can be put.
use sfa_enduro_workflows.Base.{
  ℕ, zero, suc, ◌+◌, ◌<◌, ◌≡◌, refl, inl, inr, Bool, true, ◌&&◌, ◌||◌, Option, none, some, List, [],
  ◌∷◌, ◌++◌, leb, ◌==◌, if◌then◌else◌, arith, Bool-cases,
}
use sfa_enduro_workflows.Premis.{insert_at}

both : {a b : Bool} → a ≡ true → b ≡ true → a && b ≡ true
both h k = ground arith

-- No place is below `r`; 0 stands for what is no entity.
abbrev pub all_from : ℕ → List ℕ → Bool
all_from r [] = true
all_from r (n ∷ ns) = (n == 0 || leb r n) && all_from r ns

-- No entity stands behind one of a later place.
abbrev pub is_sorted : List ℕ → Bool
is_sorted [] = true
is_sorted (n ∷ ns) = (n == 0 || all_from n ns) && is_sorted ns

unfoldable pub last_place : ℕ → List ℕ → Option ℕ
last_place r [] = none
last_place r (n ∷ ns) = elim (last_place r ns) [
  | some i ↦ some (suc i)
  | none ↦ if n == r then some 0 else none
]

all_from-insert_at :
    (r q i : ℕ) (ns : List ℕ)
    → leb r q ≡ true
    → all_from r ns ≡ true
    → all_from r (insert_at i q ns) ≡ true
all_from-insert_at r q zero ns h k = ground arith
all_from-insert_at r q (suc i) [] h k = ground arith
all_from-insert_at r q (suc i) (n ∷ ns) h k = ground (arith, all_from-insert_at r q i ns h)

-- Without the place `r` the bound is the next one.
all_from-suc :
    (r : ℕ) (ns : List ℕ)
    → last_place r ns ≡ none
    → all_from r ns ≡ true
    → all_from (suc r) ns ≡ true
unfolding last_place
all_from-suc r [] h k = refl
all_from-suc r (n ∷ ns) h k = ground (arith, all_from-suc r ns)

last_place-le :
    (r b i : ℕ) (ns : List ℕ)
    → last_place r ns ≡ some i
    → all_from b ns ≡ true
    → 0 < r
    → leb b r ≡ true
unfolding last_place
last_place-le r b i [] h k p = let no : ⊥ = ground arith in elim no [ ]
last_place-le r b i (n ∷ ns) h k p =
    by_last (last_place r ns) refl (λ j e k'. last_place-le r b j ns e k' p)
  where
    by_last :
        (found : Option ℕ)
        → last_place r ns ≡ found
        → ((j : ℕ) → last_place r ns ≡ some j → all_from b ns ≡ true → leb b r ≡ true)
        → leb b r ≡ true
    by_last none e ih = ground arith
    by_last (some j) e ih = ih j e (ground arith)

all_from-next :
    (r q : ℕ) (ns : List ℕ)
    → leb r q ≡ true
    → leb q (suc r) ≡ true
    → last_place r ns ≡ none
    → all_from r ns ≡ true
    → all_from q ns ≡ true
all_from-next r q ns h k e a = elim (Bool-cases (q == r)) [
  | inl same ↦ let e' : q ≡ r = ground arith in rw e' a
  | inr other ↦ let e' : q ≡ suc r = ground arith in rw e' (all_from-suc r ns e a)
]

-- Behind the last entity of its place, or of the place before, an entity keeps the order.
pub insert_at-is_sorted :
    (r q i : ℕ) (ns : List ℕ)
    → 0 < r
    → leb r q ≡ true
    → leb q (suc r) ≡ true
    → last_place r ns ≡ some i
    → is_sorted ns ≡ true
    → is_sorted (insert_at (suc i) q ns) ≡ true
unfolding last_place
insert_at-is_sorted r q i [] p h k e s = let no : ⊥ = ground arith in elim no [ ]
insert_at-is_sorted r q i (n ∷ ns) p h k e s =
    by_last (last_place r ns) refl (λ j e' s'. insert_at-is_sorted r q j ns p h k e' s')
  where
    by_last :
        (found : Option ℕ)
        → last_place r ns ≡ found
        → ((j : ℕ)
            → last_place r ns ≡ some j
            → is_sorted ns ≡ true
            → is_sorted (insert_at (suc j) q ns) ≡ true)
        → is_sorted (insert_at (suc i) q (n ∷ ns)) ≡ true
    by_last none f ih =
        let first : i ≡ 0 = ground arith in
        let here : n ≡ r = ground arith in
        let later : all_from r ns ≡ true = ground arith in
        let bound : all_from q ns ≡ true = all_from-next r q ns h k f later in
        let tail : is_sorted ns ≡ true = ground arith in
        let before : n == 0 || all_from n (q ∷ ns) ≡ true = ground arith in
        let behind : q == 0 || all_from q ns ≡ true = ground arith in
        rw first (both before (both behind tail))
    by_last (some j) f ih =
        let next : i ≡ suc j = ground arith in
        let rest : is_sorted (insert_at (suc j) q ns) ≡ true = ih j f (ground arith) in
        let bound : n == 0 || all_from n (insert_at (suc j) q ns) ≡ true =
          ground (arith, all_from-insert_at n q (suc j) ns, last_place-le r n j ns f) in
        rw next (both bound rest)

all_from-append :
    (r q : ℕ) (ns : List ℕ)
    → leb r q ≡ true
    → all_from r ns ≡ true
    → all_from r (ns ++ q ∷ []) ≡ true
all_from-append r q [] h k = ground arith
all_from-append r q (n ∷ ns) h k = ground (arith, all_from-append r q ns h)

-- No place is above `r`.
abbrev pub all_to : ℕ → List ℕ → Bool
all_to r [] = true
all_to r (n ∷ ns) = leb n r && all_to r ns

pub append-is_sorted :
    (q : ℕ) (ns : List ℕ)
    → all_to q ns ≡ true
    → is_sorted ns ≡ true
    → is_sorted (ns ++ q ∷ []) ≡ true
append-is_sorted q [] h k = ground arith
append-is_sorted q (n ∷ ns) h k = ground (arith, append-is_sorted q ns, all_from-append n q ns)

unfoldable pub count_place : ℕ → List ℕ → ℕ
count_place r [] = 0
count_place r (n ∷ ns) = (if n == r then 1 else 0) + count_place r ns

pub count_place-insert_at :
    (r q i : ℕ) (ns : List ℕ)
    → count_place r (insert_at i q ns) ≡ (if q == r then 1 else 0) + count_place r ns
unfolding count_place
count_place-insert_at r q zero ns = refl
count_place-insert_at r q (suc i) [] = refl
count_place-insert_at r q (suc i) (n ∷ ns) = omega (arith, count_place-insert_at r q i ns)

pub count_place-none : (r : ℕ) (ns : List ℕ) → last_place r ns ≡ none → count_place r ns ≡ 0
unfolding count_place last_place
count_place-none r [] h = refl
count_place-none r (n ∷ ns) h = ground (arith, count_place-none r ns)

all_from-one : (ns : List ℕ) → all_from 1 ns ≡ true
all_from-one [] = refl
all_from-one (n ∷ ns) = ground (arith, all_from-one ns)

-- Objects alone are in order.
pub objects-is_sorted : (ns : List ℕ) → all_to 1 ns ≡ true → is_sorted ns ≡ true
objects-is_sorted [] h = refl
objects-is_sorted (n ∷ ns) h =
    let first : n == 0 || all_from n ns ≡ true = by_place n (ground arith) in
    both first (objects-is_sorted ns (ground arith))
  where
    by_place : (n : ℕ) → leb n 1 ≡ true → n == 0 || all_from n ns ≡ true
    by_place zero h = refl
    by_place (suc zero) h = all_from-one ns
    by_place (suc (suc n)) h = ground arith

pub all_to-append :
    (r q : ℕ) (ns : List ℕ) → leb q r ≡ true → all_to r ns ≡ true → all_to r (ns ++ q ∷ []) ≡ true
all_to-append r q [] h k = ground arith
all_to-append r q (n ∷ ns) h k = ground (arith, all_to-append r q ns h)
