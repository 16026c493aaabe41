-- ===== src/FilePath/Names.antt =====
-- Go's path/filepath at relative paths that are made of plain names: what Join and Dir give there.
use Prim.Native.Char.{Char, code}
use mathlib.Core.List.{foldl, reverse_aux, reverse_aux-reverse_aux-nil, append-nil}
use text.Mathlib.TextEquality.{starts_with_iff}
use text.Mathlib.TextLemmas.{
  append_assoc, cons-eq-cons, cons-append, nil-append, append-nil as text_append-nil,
}
use sfa_enduro_workflows.Base.{
  ◌≡◌, refl, sym, ap, ◌∙◌, ◌≢◌, ◌⊎◌, inl, inr, String, ◌<>◌, Bool, true, false, not, List, [], ◌∷◌,
  ◌++◌, map, str_eq, eq_iff, starts_with, ◌&&◌, ◌==◌, join_texts, split_at_byte, push_char, arith,
  Bool-cases,
}
use sfa_enduro_workflows.FilePath.{cleaned, print, clean, join, dir, but_last, push_elem}

unfoldable pub has_no_slash : String → Bool
has_no_slash String.[] = true
has_no_slash (String.◌∷◌ c s) = not (code c == b'/') && has_no_slash s

-- The names that Clean leaves as they are.
unfoldable pub is_name : String → Bool
unfolding has_no_slash
is_name s = not (str_eq s "") && not (str_eq s ".") && not (str_eq s "..") && has_no_slash s

abbrev pub AreNames : List String → Type 0
AreNames [] = Unit {0}
AreNames (x ∷ xs) = (is_name x ≡ true) × AreNames xs

name-no_slash : (x : String) → is_name x ≡ true → has_no_slash x ≡ true
unfolding is_name
name-no_slash x h = ground arith

split-name : (x : String) → has_no_slash x ≡ true → split_at_byte b'/' x ≡ x ∷ []
unfolding split_at_byte has_no_slash push_char
split-name String.[] h = refl
split-name (String.◌∷◌ c s) h = ground (arith, split-name s)

slash-append : (t : String) → "/" <> t ≡ String.◌∷◌ "/" t
slash-append t = cons-append "/" "" t ∙ ap (String.◌∷◌ "/") (nil-append t)

split-slash :
    (x t : String)
    → has_no_slash x ≡ true
    → split_at_byte b'/' (x <> ("/" <> t)) ≡ x ∷ split_at_byte b'/' t
unfolding split_at_byte has_no_slash push_char
split-slash String.[] t h = rw (nil-append, slash-append) refl
split-slash (String.◌∷◌ c s) t h = rw (cons-append c s ("/" <> t)) (ground (arith, split-slash s t))

push-name :
    (before : List String) (x : String) → is_name x ≡ true → push_elem false before x ≡ x ∷ before
unfolding push_elem is_name
push-name before x h = ground arith

no_slash-head : (c : Char) (s : String) → has_no_slash (String.◌∷◌ c s) ≡ true → code c ≢ b'/'
unfolding has_no_slash
no_slash-head c s h = ground arith

starts-cons : (c : Char) (t : String) → code c ≢ b'/' → starts_with (String.◌∷◌ c t) "/" ≡ false
starts-cons c t h = elim (Bool-cases (starts_with (String.◌∷◌ c t) "/")) [
  | inr q ↦ q
  | inl q ↦
      let (rest, e) = (starts_with_iff (String.◌∷◌ c t) "/").0 q in
      absurd (h (sym (ap code (cons-eq-cons.0 (sym (slash-append rest) ∙ e)).0)))
]

starts-name : (x t : String) → is_name x ≡ true → starts_with (x <> t) "/" ≡ false
unfolding is_name
starts-name String.[] t h = ground arith
starts-name (String.◌∷◌ c s) t h =
    rw (cons-append c s t)
      (starts-cons c (s <> t) (no_slash-head c s (name-no_slash (String.◌∷◌ c s) h)))

starts-join :
    (x : String) (ys : List String)
    → is_name x ≡ true
    → starts_with (join_texts "/" (x ∷ ys)) "/" ≡ false
starts-join x [] h = rw (← text_append-nil x) (starts-name x "" h)
starts-join x (y ∷ ys) h = starts-name x ("/" <> join_texts "/" (y ∷ ys)) h

pub split-join :
    (x : String) (ys : List String)
    → AreNames (x ∷ ys)
    → split_at_byte b'/' (join_texts "/" (x ∷ ys)) ≡ x ∷ ys
split-join x [] h = split-name x (name-no_slash x h.0)
split-join x (y ∷ ys) h =
    split-slash x (join_texts "/" (y ∷ ys)) (name-no_slash x h.0) ∙ ap (◌∷◌ x) (split-join y ys h.1)

-- What may follow the names and leaves no element
abbrev AddsNothing : List String → Type 0
AddsNothing es = (before : List String) → foldl (push_elem false) before es ≡ before

push_all :
    (before xs es : List String)
    → AreNames xs
    → AddsNothing es
    → foldl (push_elem false) before (xs ++ es) ≡ reverse_aux xs before
push_all before [] es h k = k before
push_all before (x ∷ xs) es h k =
    ap (λ b. foldl (push_elem false) b (xs ++ es)) (push-name before x h.0)
    ∙ push_all (x ∷ before) xs es h.1 k

clean-elems :
    (path : String) (xs : List String)
    → starts_with path "/" ≡ false
    → foldl (push_elem false) [] (split_at_byte b'/' path) ≡ reverse_aux xs []
    → clean path ≡ print false xs
unfolding clean cleaned
clean-elems path xs rooted pushed =
    rw (rooted, pushed) (ap (print false) (reverse_aux-reverse_aux-nil xs []))

pub clean-join :
    (x : String) (ys : List String)
    → AreNames (x ∷ ys)
    → clean (join_texts "/" (x ∷ ys)) ≡ join_texts "/" (x ∷ ys)
unfolding print
clean-join x ys h = clean-elems _ (x ∷ ys) (starts-join x ys h.0) (
    ap (foldl (push_elem false) []) (split-join x ys h ∙ sym (append-nil (x ∷ ys)))
    ∙ push_all [] (x ∷ ys) [] h (λ b. refl))

-- The directories `dirs`, each with a slash behind it.
abbrev slashed : List String → String
slashed dirs = join_texts "" (map (λ e. e <> "/") dirs)

slashed-cons : (x : String) (xs : List String) → slashed (x ∷ xs) ≡ x <> ("/" <> slashed xs)
slashed-cons x [] = ap (λ t. x <> t) (sym (text_append-nil "/"))
slashed-cons x (y ∷ ys) =
    ap (λ t. (x <> "/") <> t) (nil-append (slashed (y ∷ ys)))
    ∙ append_assoc x "/" (slashed (y ∷ ys))

split-slashed :
    (dirs : List String) → AreNames dirs → split_at_byte b'/' (slashed dirs) ≡ dirs ++ "" ∷ []
unfolding split_at_byte
split-slashed [] h = refl
split-slashed (x ∷ xs) h =
    ap (split_at_byte b'/') (slashed-cons x xs)
    ∙ (split-slash x (slashed xs) (name-no_slash x h.0) ∙ ap (◌∷◌ x) (split-slashed xs h.1))

starts-slashed : (dirs : List String) → AreNames dirs → starts_with (slashed dirs) "/" ≡ false
starts-slashed [] h = refl
starts-slashed (x ∷ xs) h = rw (slashed-cons x xs) (starts-name x ("/" <> slashed xs) h.0)

but_last-append : (xs : List String) (x : String) → but_last (xs ++ x ∷ []) ≡ xs
unfolding but_last
but_last-append [] x = refl
but_last-append (y ∷ []) x = refl
but_last-append (y ∷ z ∷ ys) x = ap (◌∷◌ y) (but_last-append (z ∷ ys) x)

pub AreNames-append :
    (xs : List String) (x : String) → AreNames xs → is_name x ≡ true → AreNames (xs ++ x ∷ [])
AreNames-append [] x h k = (k, tt)
AreNames-append (y ∷ ys) x h k = (h.0, AreNames-append ys x h.1 k)

clean-slashed : (dirs : List String) → AreNames dirs → clean (slashed dirs) ≡ print false dirs
unfolding push_elem
clean-slashed dirs h =
    clean-elems (slashed dirs) dirs (starts-slashed dirs h)
      (ap (foldl (push_elem false) []) (split-slashed dirs h) ∙ push_all [] dirs ("" ∷ []) h empty)
  where
    empty : AddsNothing ("" ∷ [])
    empty b = refl

split-append :
    (dirs : List String) (x : String)
    → AreNames (dirs ++ x ∷ [])
    → split_at_byte b'/' (join_texts "/" (dirs ++ x ∷ [])) ≡ dirs ++ x ∷ []
split-append [] x h = split-join x [] h
split-append (y ∷ ys) x h = split-join y (ys ++ x ∷ []) h

join_texts-append :
    (y : String) (ys : List String) (x : String)
    → join_texts "/" (y ∷ ys) <> ("/" <> x) ≡ join_texts "/" (y ∷ (ys ++ x ∷ []))
join_texts-append y [] x = refl
join_texts-append y (z ∷ zs) x =
    append_assoc y ("/" <> join_texts "/" (z ∷ zs)) ("/" <> x)
    ∙ ap (λ t. y <> t)
        (append_assoc "/" (join_texts "/" (z ∷ zs)) ("/" <> x)
          ∙ ap (λ t. "/" <> t) (join_texts-append z zs x))

pub name-ne-empty : (x : String) → is_name x ≡ true → str_eq x "" ≡ false
unfolding is_name
name-ne-empty x h = ground arith

pub join-ne-empty :
    (x : String) (ys : List String)
    → AreNames (x ∷ ys)
    → str_eq (join_texts "/" (x ∷ ys)) "" ≡ false
unfolding split_at_byte
join-ne-empty x ys h = elim (Bool-cases (str_eq (join_texts "/" (x ∷ ys)) "")) [
  | inr q ↦ q
  | inl q ↦
      let e : x ∷ ys ≡ "" ∷ [] =
        sym (split-join x ys h)
        ∙ ap (split_at_byte b'/') ((eq_iff (join_texts "/" (x ∷ ys)) "").0 q) in
      cc (name-ne-empty x h.0, e)
]

clean-dot : (x : String) → is_name x ≡ true → clean ("." <> ("/" <> x)) ≡ x
unfolding print push_elem has_no_slash
clean-dot x k =
    clean-elems ("." <> ("/" <> x)) (x ∷ [])
      (rw (cons-append "." "" ("/" <> x)) (starts-cons "." ("" <> ("/" <> x)) (ground arith)))
      (ap (foldl (push_elem false) [])
          (split-slash "." x refl ∙ ap (◌∷◌ ".") (split-name x (name-no_slash x k)))
        ∙ push-name [] x k)

-- Below its start, a walk down the directories `dirs` has this path. At the start it has no path, or
-- the path `.` that Dir gives.
abbrev pub IsAt : List String → String → Type 0
IsAt [] path = (path ≡ "") ⊎ (path ≡ ".")
IsAt (x ∷ xs) path = path ≡ join_texts "/" (x ∷ xs)

-- Join goes down one more directory.
pub join-IsAt :
    (dirs : List String) (path x : String)
    → AreNames dirs
    → is_name x ≡ true
    → IsAt dirs path
    → join (path ∷ x ∷ []) ≡ join_texts "/" (dirs ++ x ∷ [])
unfolding join
join-IsAt [] path x h k (inl e) = rw (e, name-ne-empty x k) (clean-join x [] (k, tt))
join-IsAt [] path x h k (inr e) = rw e (clean-dot x k)
join-IsAt (y ∷ ys) path x h k at =
    rw (at, join-ne-empty y ys h)
      (ap clean (join_texts-append y ys x)
        ∙ clean-join y (ys ++ x ∷ []) (h.0, AreNames-append ys x h.1 k))

IsAt-print : (dirs : List String) → IsAt dirs (print false dirs)
unfolding print
IsAt-print [] = inr refl
IsAt-print (x ∷ xs) = refl

-- Dir goes up again.
pub dir-IsAt :
    (dirs : List String) (x : String)
    → AreNames dirs
    → is_name x ≡ true
    → IsAt dirs (dir (join_texts "/" (dirs ++ x ∷ [])))
unfolding dir
dir-IsAt dirs x h k =
    rw
      (
        split-append dirs x (AreNames-append dirs x h k),
        but_last-append dirs x,
        clean-slashed dirs h,
      )
      (IsAt-print dirs)
