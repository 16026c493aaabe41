-- ===== src/Base/Texts.antt =====
-- Go's string helpers: strings.Join, strings.Split at one byte, the verb %q of fmt.
use Prim.Native.Nat.{ℕ}
use Prim.Native.Char.{Char, code}
use Prim.Native.String.{String, ◌++◌ as ◌<>◌}
use mathlib.Core.Bool.{Bool, ◌||◌}
use mathlib.Core.List.{List, [], ◌∷◌}
use text.Mathlib.Text.{starts_with}
use sfa_enduro_workflows.Base.Tests.{◌==◌, if◌then◌else◌}

-- strings.Join
abbrev pub join_texts : String → List String → String
join_texts separator [] = ""
join_texts separator (x ∷ []) = x
join_texts separator (x ∷ y ∷ ys) = x <> (separator <> join_texts separator (y ∷ ys))

unfoldable pub push_char : Char → List String → List String
push_char c [] = String.◌∷◌ c "" ∷ []
push_char c (x ∷ xs) = String.◌∷◌ c x ∷ xs

-- strings.Split at a one-byte separator.
unfoldable pub split_at_byte : ℕ → String → List String
unfolding push_char
split_at_byte b String.[] = "" ∷ []
split_at_byte b (String.◌∷◌ c s) =
    let rest = split_at_byte b s in if code c == b then "" ∷ rest else push_char c rest

escape : String → String
escape String.[] = ""
escape (String.◌∷◌ c s) =
    let rest = escape s in
    if code c == b'"' || code c == 92 then "\\" <> String.◌∷◌ c rest else String.◌∷◌ c rest

-- The verb %q on a text of printable characters.
unfoldable pub quote : String → String
unfolding escape
quote s = "\"" <> (escape s <> "\"")

-- strings.Split(s, separator)[0], for a separator that is not empty.
unfoldable pub before_first : String → String → String
before_first separator String.[] = ""
before_first separator (String.◌∷◌ c s) =
    let rest = before_first separator s in
    if starts_with (String.◌∷◌ c s) separator then "" else String.◌∷◌ c rest

-- The character that stands in the second text where `c` stands in the first one
translate : String → String → Char → Char
translate String.[] to c = c
translate (String.◌∷◌ d from) String.[] c = c
translate (String.◌∷◌ d from) (String.◌∷◌ e to) c =
    let rest = translate from to c in if code c == code d then e else rest

-- strings.ToUpper, of the characters whose upper case is a letter of ASCII
unfoldable pub to_upper : String → String
unfolding translate
to_upper String.[] = ""
to_upper (String.◌∷◌ c s) =
    String.◌∷◌ (translate "abcdefghijklmnopqrstuvwxyzıſ" "ABCDEFGHIJKLMNOPQRSTUVWXYZIS" c)
      (to_upper s)

after : String → String → String
after String.[] s = s
after (String.◌∷◌ c p) String.[] = ""
after (String.◌∷◌ c p) (String.◌∷◌ d s) = after p s

-- strings.TrimPrefix, with the prefix first
unfoldable pub trim_prefix : String → String → String
unfolding after
trim_prefix prefix s = if starts_with s prefix then after prefix s else s

-- strings.Contains
unfoldable pub contains_text : String → String → Bool
contains_text String.[] sub = starts_with "" sub
contains_text (String.◌∷◌ c s) sub =
    let later = contains_text s sub in starts_with (String.◌∷◌ c s) sub || later
