-- ===== src/Common/Texts.antt =====
-- Texts as the source formats them: `fmt` joins the pieces of a `format!`, `show` prints a
-- number, `join` puts a separator between texts.
use Prim.Native.Nat.{ℕ, zero, suc, ◌/◌, ◌%◌}
use Prim.Native.String.{String, ◌++◌}
use mathlib.Core.Bool.{Bool}
use mathlib.Core.List.{List, [], ◌∷◌}
use text.Mathlib.Text.{◌==◌ as str_eq}
use glidesh.Common.Tests.{ltb, ◌==◌, if◌then◌else◌}
use glidesh.Common.Lists.{any}

-- The characters of one text before another: `push_str`, computing on the first text.
abbrev pub glue : String → String → String
glue String.[] r = r
glue (String.◌∷◌ c s) r = String.◌∷◌ c (glue s r)

-- The characters of a text.
unfoldable pub size : String → ℕ
size String.[] = 0
size (String.◌∷◌ c s) = suc (size s)

unfoldable pub fmt : List String → String
fmt [] = ""
fmt (s ∷ ss) = s ++ fmt ss

digit : ℕ → String
digit n =
    if n == 0
    then "0"
    else if n == 1
    then "1"
    else if n == 2
    then "2"
    else if n == 3
    then "3"
    else if n == 4
    then "4"
    else if n == 5
    then "5"
    else if n == 6
    then "6"
    else if n == 7
    then "7"
    else if n == 8
    then "8"
    else "9"

show_fuel : ℕ → ℕ → String
show_fuel zero n = ""
show_fuel (suc f) n =
    let rest = show_fuel f (n / 10) ++ digit (n % 10) in if ltb n 10 then digit n else rest

-- Decimal; a number has no more digits than its successor counts.
unfoldable pub show : ℕ → String
unfolding show_fuel digit
show n = show_fuel (suc n) n

unfoldable pub join : String → List String → String
join sep [] = ""
join sep (s ∷ []) = s
join sep (s ∷ t ∷ ss) = s ++ (sep ++ join sep (t ∷ ss))

-- `contains` on a list or set of texts.
abbrev pub contains : List String → String → Bool
contains ss s = any (λ t. str_eq t s) ss
