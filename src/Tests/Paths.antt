-- ===== src/Tests/Paths.antt =====
-- The path functions at inputs of the Go documentation and of the program.
use sfa_enduro_workflows.Base.{◌≡◌, refl, [], ◌∷◌, none, some, quote}
use sfa_enduro_workflows.FilePath.{join, base, dir, rel}

join_examples :
    (join ("/a" ∷ "content" ∷ []) ≡ "/a/content")
    × (join ("" ∷ "x" ∷ "../y" ∷ []) ≡ "y")
    × (join ("a/" ∷ "" ∷ "./b" ∷ []) ≡ "a/b")
    × (join ("" ∷ []) ≡ "")
    × (join ("/" ∷ ".." ∷ "x" ∷ []) ≡ "/x")
unfolding join
join_examples = (refl, refl, refl, refl, refl)

dir_examples :
    (dir "content/d_1/a.xml" ≡ "content/d_1")
    × (dir "a" ≡ ".")
    × (dir "/a" ≡ "/")
    × (dir "/a/b/" ≡ "/a/b")
    × (base "/a/b/" ≡ "b")
    × (base "" ≡ ".")
    × (base "//" ≡ "/")
unfolding dir base
dir_examples = (refl, refl, refl, refl, refl, refl, refl)

rel_examples :
    (rel "/shared" "/shared/x/y" ≡ some "x/y")
    × (rel "/shared/a" "/shared/a" ≡ some ".")
    × (rel "/shared/a" "/shared/b" ≡ some "../b")
    × (rel "/shared" "x" ≡ none)
    × (rel "../a" "b" ≡ none)
unfolding rel
rel_examples = (refl, refl, refl, refl, refl)

quote_example : quote "a\"b" ≡ "\"a\\\"b\""
unfolding quote
quote_example = refl
