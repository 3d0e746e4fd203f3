-- ===== src/Common/Texts.antt =====
-- Texts: f-strings, truth of a text, and equality tests.
use Prim.Native.String.{String, slice, ◌++◌ as append}
use Prim.Native.Nat.{ℕ, zero, suc, ◌/◌, ◌%◌}
use Prim.Native.Char.{Char, code}
use mathlib.Core.Bool.{Bool, true, false, not, ◌&&◌, ◌||◌}
use haru_trade_manager.Common.Tests.{ltb, leb, ◌==◌, if◌then◌else◌}
use mathlib.Core.Option.{Option, none, some}
use mathlib.Core.List.{List, [], ◌∷◌}
use text.Mathlib.Text.{◌==◌ as str_eq}

-- An f-string: its parts joined.
unfoldable pub fstring : List String → String
fstring [] = ""
fstring (s ∷ r) = append s (fstring r)

-- `if s:` for a text: it is not empty.
abbrev pub truthy : String → Bool
truthy String.[] = false
truthy (String.◌∷◌ c s) = true

-- `if s:` for a text or None.
abbrev pub is_set : Option String → Bool
is_set none = false
is_set (some s) = truthy s

-- `a or b`
abbrev pub or_text : Option String → Option String → Option String
or_text (some (String.◌∷◌ c s)) b = some (String.◌∷◌ c s)
or_text (some String.[]) b = b
or_text none b = b

-- `s in {…}`
abbrev pub member : String → List String → Bool
member s [] = false
member s (t ∷ r) = str_eq s t || member s r

abbrev digit : ℕ → String
digit n = slice "0123456789" n (suc n)

-- The fuel is above the number, which each round divides by ten.
show_fuel : ℕ → ℕ → String
show_fuel zero n = ""
show_fuel (suc fuel) n =
    let rest = show_fuel fuel (n / 10) in if ltb n 10 then digit n else append rest (digit (n % 10))

-- `str(n)`, in decimal
unfoldable pub show : ℕ → String
unfolding show_fuel
show n = show_fuel (suc n) n

-- `c.isspace()`, by the number of the character
is_space : ℕ → Bool
is_space c =
    (leb 9 c && leb c 13)
    || (leb 28 c && leb c 32)
    || c == 133
    || c == 160
    || c == 5760
    || (leb 8192 c && leb c 8202)
    || c == 8232
    || c == 8233
    || c == 8239
    || c == 8287
    || c == 12288

strip_left : String → String
unfolding is_space
strip_left String.[] = ""
strip_left (String.◌∷◌ c s) =
    let rest = strip_left s in if is_space (code c) then rest else String.◌∷◌ c s

strip_right : String → String
unfolding is_space
strip_right String.[] = ""
strip_right (String.◌∷◌ c s) =
    let rest = strip_right s in
    if is_space (code c) && not (truthy rest) then "" else String.◌∷◌ c rest

-- `s.strip()`
unfoldable pub strip : String → String
unfolding strip_left strip_right
strip s = strip_right (strip_left s)

-- The first part gets one more character.
abbrev grow : Char → List String → List String
grow c [] = String.◌∷◌ c "" ∷ []
grow c (part ∷ rest) = String.◌∷◌ c part ∷ rest

-- `s.split(sep)` at one character: there is always a first part.
unfoldable pub split_on : ℕ → String → List String
split_on sep String.[] = "" ∷ []
split_on sep (String.◌∷◌ c s) =
    let rest = split_on sep s in if code c == sep then "" ∷ rest else grow c rest

-- `s.startswith(prefix)`
unfoldable pub starts_with : String → String → Bool
starts_with String.[] s = true
starts_with (String.◌∷◌ c p) String.[] = false
starts_with (String.◌∷◌ c p) (String.◌∷◌ d s) = code c == code d && starts_with p s

-- `sep.join(parts)`
unfoldable pub join : String → List String → String
join sep [] = ""
join sep (s ∷ []) = s
join sep (s ∷ t ∷ r) = append s (append sep (join sep (t ∷ r)))

-- The first run of characters that are no spaces, and what follows it.
abbrev before_char : Char → String × String → String × String
before_char c (word, rest) = (String.◌∷◌ c word, rest)

span_word : String → String × String
unfolding is_space
span_word String.[] = ("", "")
span_word (String.◌∷◌ c s) =
    let more = span_word s in if is_space (code c) then ("", String.◌∷◌ c s) else before_char c more

-- `s.split(maxsplit=n)`: the last part is what follows the n words, without the spaces before it.
unfoldable pub split_words : ℕ → String → List String
unfolding strip_left span_word
split_words zero s = if truthy (strip_left s) then strip_left s ∷ [] else []
split_words (suc n) s =
    let (word, more) = span_word (strip_left s) in
    let rest = split_words n more in if truthy word then word ∷ rest else []
