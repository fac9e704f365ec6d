-- ===== src/Common/Chars.antt =====
-- The text functions of Rust's `str` that the source uses, on characters: white space, trimming,
-- splitting, lines and prefixes.
use Prim.Native.Char.{Char, code}
use Prim.Native.Nat.{ℕ, zero, suc, ◌+◌, ◌-◌}
use Prim.Native.String.{String}
use mathlib.Core.Bool.{Bool, true, false, ◌&&◌, ◌||◌}
use mathlib.Core.Option.{Option, none, some}
use mathlib.Core.List.{List, [], ◌∷◌}
use text.Mathlib.Text.{◌==◌ as str_eq}
use glidesh.Common.Tests.{ltb, leb, ◌==◌, if◌then◌else◌}
use glidesh.Common.Texts.{glue, size}

-- `char::is_whitespace`: the code points of Unicode's White_Space.
unfoldable pub is_whitespace : ℕ → Bool
is_whitespace c =
    (leb 9 c && leb c 13)
    || c == 32
    || c == 0x85
    || c == 0xa0
    || c == 0x1680
    || (leb 0x2000 c && leb c 0x200a)
    || c == 0x2028
    || c == 0x2029
    || c == 0x202f
    || c == 0x205f
    || c == 0x3000

unfoldable pub trim_start : String → String
unfolding is_whitespace
trim_start String.[] = ""
trim_start (String.◌∷◌ c s) =
    let rest = trim_start s in if is_whitespace (code c) then rest else String.◌∷◌ c s

unfoldable pub trim_end : String → String
unfolding is_whitespace
trim_end String.[] = ""
trim_end (String.◌∷◌ c s) =
    let rest = trim_end s in
    if is_whitespace (code c) && str_eq rest "" then "" else String.◌∷◌ c rest

unfoldable pub trim : String → String
unfolding trim_start trim_end
trim s = trim_end (trim_start s)

abbrev cut_at : Bool → Char → String × List String → String × List String
cut_at true c (first, rest) = ("", first ∷ rest)
cut_at false c (first, rest) = (String.◌∷◌ c first, rest)

-- `split` on a character: the text up to the first, and the texts after it.
unfoldable pub split_on : ℕ → String → String × List String
split_on k String.[] = ("", [])
split_on k (String.◌∷◌ c s) = cut_at (code c == k) c (split_on k s)

-- `split_once`: the texts before and after the first such character.
unfoldable pub split_once : ℕ → String → Option (String × String)
split_once k String.[] = none
split_once k (String.◌∷◌ c s) =
    let rest = split_once k s in
    if code c == k
    then some ("", s)
    else elim rest [ none ↦ none | some (a, b) ↦ some (String.◌∷◌ c a, b) ]

-- `strip_prefix`
unfoldable pub strip_prefix : String → String → Option String
strip_prefix String.[] s = some s
strip_prefix (String.◌∷◌ p ps) String.[] = none
strip_prefix (String.◌∷◌ p ps) (String.◌∷◌ c s) =
    let rest = strip_prefix ps s in if code p == code c then rest else none

unfoldable pub starts_with : String → String → Bool
unfolding strip_prefix
starts_with s p = elim (strip_prefix p s) [ none ↦ false | some rest ↦ true ]

-- `contains` on a text.
unfoldable pub has_text : String → String → Bool
unfolding starts_with
has_text String.[] p = starts_with "" p
has_text (String.◌∷◌ c s) p = starts_with (String.◌∷◌ c s) p || has_text s p

abbrev starts_line : String → Bool
starts_line String.[] = false
starts_line (String.◌∷◌ c s) = code c == 10

abbrev before_line : Char → List String → List String
before_line c [] = String.◌∷◌ c "" ∷ []
before_line c (line ∷ lines) = String.◌∷◌ c line ∷ lines

-- `lines`: a line ends at a line feed, with the carriage return before it if there is one.
unfoldable pub lines : String → List String
lines String.[] = []
lines (String.◌∷◌ c s) =
    let rest = lines s in
    if code c == 10
    then "" ∷ rest
    else if code c == 13 && starts_line s
    then rest
    else before_line c rest

-- `replace` of a text by another; `skip` counts what is left of a text that was replaced.
unfoldable pub replace_from : ℕ → String → String → String → String
unfolding starts_with size
replace_from skip text by String.[] = ""
replace_from (suc skip) text by (String.◌∷◌ c s) = replace_from skip text by s
replace_from zero text by (String.◌∷◌ c s) = elim (starts_with (String.◌∷◌ c s) text) [
  | true ↦ glue by (replace_from (size text - 1) text by s)
  | false ↦ String.◌∷◌ c (replace_from zero text by s)
]

unfoldable pub replace : String → String → String → String
unfolding replace_from
replace s text by = replace_from zero text by s

-- The bytes of a character and of a text in UTF-8: `len`.
unfoldable pub len_utf8 : ℕ → ℕ
len_utf8 c = if ltb c 0x80 then 1 else if ltb c 0x800 then 2 else if ltb c 0x10000 then 3 else 4

unfoldable pub bytes : String → ℕ
unfolding len_utf8
bytes String.[] = 0
bytes (String.◌∷◌ c s) = len_utf8 (code c) + bytes s

-- `split_whitespace`: the words between white space.
abbrev pub first_word : Char → List String → List String
first_word c [] = String.◌∷◌ c "" ∷ []
first_word c (w ∷ ws) = String.◌∷◌ c w ∷ ws

abbrev pub starts_space : String → Bool
starts_space String.[] = true
starts_space (String.◌∷◌ c s) = is_whitespace (code c)

unfoldable pub split_whitespace : String → List String
unfolding is_whitespace
split_whitespace String.[] = []
split_whitespace (String.◌∷◌ c s) =
    let rest = split_whitespace s in
    if is_whitespace (code c)
    then rest
    else if starts_space s
    then String.◌∷◌ c "" ∷ rest
    else first_word c rest

-- What follows the first place where a text stands: `find`, and the slice after it.
unfoldable pub after_text : String → String → Option String
unfolding strip_prefix
after_text String.[] text = strip_prefix text ""
after_text (String.◌∷◌ c s) text =
    let later = after_text s text in
    elim (strip_prefix text (String.◌∷◌ c s)) [ none ↦ later | some after ↦ some after ]

-- The line feeds of a text.
unfoldable pub newlines : String → ℕ
newlines String.[] = 0
newlines (String.◌∷◌ c s) = let rest = newlines s in if code c == 10 then suc rest else rest

-- The slice of characters from one place up to another.
unfoldable pub take_chars : ℕ → String → String
take_chars zero s = ""
take_chars (suc n) String.[] = ""
take_chars (suc n) (String.◌∷◌ c s) = String.◌∷◌ c (take_chars n s)

unfoldable pub drop_chars : ℕ → String → String
drop_chars zero s = s
drop_chars (suc n) String.[] = ""
drop_chars (suc n) (String.◌∷◌ c s) = drop_chars n s

unfoldable pub slice : ℕ → ℕ → String → String
unfolding take_chars drop_chars
slice from to s = take_chars (to - from) (drop_chars from s)
