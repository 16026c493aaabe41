-- ===== src/Base/Sort.antt =====
-- slices.Sort of texts, and sets of texts as golang-set is used.
use Prim.Native.Nat.{ℕ, zero, suc, Ordering, compare as compare_ℕ}
use Prim.Native.Nat.compare as compare_ℕ
use Prim.Native.String.compare
use Prim.Native.Char.{code}
use Prim.Native.String.{String, compare, then as both}
use mathlib.Core.Path.{◌≡◌, refl, sym, ap, ◌∙◌}
use mathlib.Core.Bool.{Bool, true, false, not, ◌&&◌, ◌||◌}
use mathlib.Core.List.{List, [], ◌∷◌}
use native.Mathlib.Omega.{arith}
use text.Mathlib.Text.{◌==◌}
use text.Mathlib.TextEquality.{eq_iff}
use sfa_enduro_workflows.Base.Tests.{if◌then◌else◌}
use sfa_enduro_workflows.Base.Lists.{is_empty, contains}

abbrev leb_of : Ordering → Bool
leb_of Ordering.gt = false
leb_of _ = true

-- `<=` of Go's strings
abbrev pub text_leb : String → String → Bool
text_leb s t = leb_of (compare s t)

abbrev swapped : Ordering → Ordering
swapped Ordering.lt = Ordering.gt
swapped Ordering.eq = Ordering.eq
swapped Ordering.gt = Ordering.lt

compare_ℕ-swap : (m n : ℕ) → compare_ℕ n m ≡ swapped (compare_ℕ m n)
compare_ℕ-swap zero zero = compare_ℕ.zero-zero ∙ sym (ap swapped compare_ℕ.zero-zero)
compare_ℕ-swap zero (suc n) = compare_ℕ.suc-zero n ∙ sym (ap swapped (compare_ℕ.zero-suc n))
compare_ℕ-swap (suc m) zero = compare_ℕ.zero-suc m ∙ sym (ap swapped (compare_ℕ.suc-zero m))
compare_ℕ-swap (suc m) (suc n) =
    compare_ℕ.suc-suc n m ∙ (compare_ℕ-swap m n ∙ sym (ap swapped (compare_ℕ.suc-suc m n)))

swapped-both : (o r : Ordering) → both (swapped o) (swapped r) ≡ swapped (both o r)
swapped-both Ordering.lt r = refl
swapped-both Ordering.eq r = refl
swapped-both Ordering.gt r = refl

compare-swap : (s t : String) → compare t s ≡ swapped (compare s t)
compare-swap String.[] String.[] = refl
compare-swap String.[] (String.◌∷◌ d t) =
    compare.cons-nil d t ∙ sym (ap swapped (compare.nil-cons d t))
compare-swap (String.◌∷◌ c s) String.[] =
    compare.nil-cons c s ∙ sym (ap swapped (compare.cons-nil c s))
compare-swap (String.◌∷◌ c s) (String.◌∷◌ d t) =
    compare.cons-cons d c t s
    ∙ (ap (λ o. both o (compare t s)) (compare_ℕ-swap (code c) (code d))
        ∙ (ap (both (swapped (compare_ℕ (code c) (code d)))) (compare-swap s t)
            ∙ (swapped-both (compare_ℕ (code c) (code d)) (compare s t)
                ∙ sym (ap swapped (compare.cons-cons c d s t)))))

by_swapped : (o p : Ordering) → p ≡ swapped o → leb_of o ≡ false → leb_of p ≡ true
by_swapped o p e h = ground arith

-- Of two texts one stands before the other.
pub text_leb-total : (s t : String) → text_leb s t ≡ false → text_leb t s ≡ true
text_leb-total s t h = by_swapped (compare s t) (compare t s) (compare-swap s t) h

unfoldable pub insert_sorted : String → List String → List String
insert_sorted x [] = x ∷ []
insert_sorted x (y ∷ ys) = if text_leb x y then x ∷ y ∷ ys else y ∷ insert_sorted x ys

unfoldable pub sort : List String → List String
unfolding insert_sorted
sort [] = []
sort (x ∷ xs) = insert_sorted x (sort xs)

-- Add, to a set as a list without duplicates
unfoldable pub add : String → List String → List String
add x xs = if contains xs x then xs else x ∷ xs

-- Difference
unfoldable pub difference : List String → List String → List String
difference [] ys = []
difference (x ∷ xs) ys = let rest = difference xs ys in if contains ys x then rest else x ∷ rest

contains-insert_sorted :
    (x p : String) (xs : List String) → contains (insert_sorted x xs) p ≡ x == p || contains xs p
unfolding insert_sorted
contains-insert_sorted x p [] = refl
contains-insert_sorted x p (y ∷ ys) = ground (arith, contains-insert_sorted x p ys)

pub contains-sort : (p : String) (xs : List String) → contains (sort xs) p ≡ contains xs p
unfolding sort
contains-sort p [] = refl
contains-sort p (x ∷ xs) =
    contains-insert_sorted x p (sort xs) ∙ ap (λ b. x == p || b) (contains-sort p xs)

pub contains-add :
    (x p : String) (xs : List String) → contains (add x xs) p ≡ x == p || contains xs p
unfolding add
contains-add x p xs = ground (arith, eq_iff x p)

pub contains-difference :
    (p : String) (xs ys : List String)
    → contains (difference xs ys) p ≡ contains xs p && not (contains ys p)
unfolding difference
contains-difference p [] ys = refl
contains-difference p (x ∷ xs) ys = ground (arith, eq_iff x p, contains-difference p xs ys)

is_empty-insert_sorted : (x : String) (xs : List String) → is_empty (insert_sorted x xs) ≡ false
unfolding insert_sorted
is_empty-insert_sorted x [] = refl
is_empty-insert_sorted x (y ∷ ys) = ground arith

pub is_empty-sort : (xs : List String) → is_empty (sort xs) ≡ is_empty xs
unfolding sort
is_empty-sort [] = refl
is_empty-sort (x ∷ xs) = is_empty-insert_sorted x (sort xs)
