-- ===== src/FilePath.antt =====
-- Go's path/filepath on Unix, as far as the program calls it: Clean, Join, Base, Dir and Rel.
pub mod Names
pub mod Bases
use mathlib.Core.List.{foldl}
use sfa_enduro_workflows.Base.{
  String, ◌<>◌, Bool, true, false, Option, none, some, List, [], ◌∷◌, ◌++◌, map, reverse, str_eq,
  starts_with, ◌||◌, if◌then◌else◌, join_texts, split_at_byte, contains,
}

-- A cleaned path: whether it begins with a slash, and its elements.
pub record Cleaned : Type 0 where
  pub rooted : Bool
  pub elems : List String

go_up : Bool → List String → List String
go_up true [] = []
go_up false [] = ".." ∷ []
go_up rooted (top ∷ rest) = if str_eq top ".." then ".." ∷ top ∷ rest else rest

-- One element against the elements before it, the last one first.
push_elem : Bool → List String → String → List String
push_elem rooted before elem =
    if str_eq elem "" || str_eq elem "."
    then before
    else if str_eq elem ".."
    then go_up rooted before
    else elem ∷ before

pub cleaned : String → Cleaned
unfolding push_elem go_up split_at_byte
cleaned path =
    let rooted = starts_with path "/" in
    record {
      rooted = rooted;
      elems = reverse (foldl (push_elem rooted) [] (split_at_byte b'/' path));
    }

print : Bool → List String → String
print true elems = "/" <> join_texts "/" elems
print false [] = "."
print false (e ∷ es) = join_texts "/" (e ∷ es)

unfoldable pub clean : String → String
unfolding cleaned print
clean path = print (cleaned path).rooted (cleaned path).elems

-- Empty elements in front are ignored; if all are empty the result is empty.
unfoldable pub join : List String → String
unfolding clean
join [] = ""
join (e ∷ es) = if str_eq e "" then join es else clean (join_texts "/" (e ∷ es))

last_elem : String → List String → String
last_elem found [] = found
last_elem found (e ∷ es) = last_elem (if str_eq e "" then found else e) es

-- The last element that is not empty.
unfoldable pub base : String → String
unfolding last_elem split_at_byte
base path = if str_eq path "" then "." else last_elem "/" (split_at_byte b'/' path)

but_last : List String → List String
but_last [] = []
but_last (e ∷ []) = []
but_last (e ∷ f ∷ es) = e ∷ but_last (f ∷ es)

-- What stands up to the last slash, cleaned.
unfoldable pub dir : String → String
unfolding but_last clean split_at_byte
dir path = clean (join_texts "" (map (λ e. e <> "/") (but_last (split_at_byte b'/' path))))

-- What is left of both lists behind their common beginning.
strip_common : List String → List String → List String × List String
strip_common (b ∷ bs) (t ∷ ts) =
    let rest = strip_common bs ts in if str_eq b t then rest else (b ∷ bs, t ∷ ts)
strip_common bs ts = (bs, ts)

-- `none` is the error "can't make target relative to base".
unfoldable pub rel : String → String → Option String
unfolding strip_common cleaned print
rel base target =
    let b = cleaned base in
    let t = cleaned target in
    let (up, down) = strip_common b.elems t.elems in
    if (if b.rooted then (if t.rooted then false else true) else t.rooted) || contains up ".."
    then none
    else some (print false (map (λ _. "..") up ++ down))
