-- ===== src/Template/References.antt =====
-- `defined_references` of config/template.rs, on bytes. Reading bytes as UTF-8 is an argument.
pub mod Sound
pub mod Ordered
use glidesh.Common.{
  ℕ, zero, suc, ◌+◌, String, Bool, true, false, ◌&&◌, ◌||◌, not, Option, none, some, List, [], ◌∷◌,
  if◌then◌else◌, ◌==◌, str_eq, drop, take,
}
use glidesh.Common.Chars.{is_whitespace}
use glidesh.Tags.{str_lt}
use glidesh.Template.Lexer.{has_char}

abbrev pub Bytes : Type 0
Bytes = List ℕ

abbrev later : Option ℕ → Option ℕ
later none = none
later (some at) = some (suc at)

-- `position` of a byte.
unfoldable pub position : ℕ → Bytes → Option ℕ
position b [] = none
position b (x ∷ xs) = let rest = later (position b xs) in if x == b then some 0 else rest

-- Whether `${` stands here.
abbrev pub opens : ℕ → Bytes → Bool
opens x [] = false
opens x (y ∷ ys) = x == b'$' && y == b'{'

unfoldable pub is_reference : String → Bool
unfolding has_char is_whitespace
is_reference name =
    not (str_eq name "")
    && (not (str_eq name "endfor") && not (has_char (λ c. is_whitespace c || c == b'$') name))

abbrev pub reference : Option String → Option String
reference none = none
reference (some name) = if is_reference name then some name else none

abbrev pub cons_if : Bool → String → List String → List String
cons_if true name names = name ∷ names
cons_if false name names = names

module _ (from_utf8 : Bytes → Option String) (is_defined : String → Bool) where
  -- The names in their order. `escaped` is whether the byte before is `$`, in what is left of the
  -- content, and `skip` counts the bytes that the last round passed over.
  unfoldable pub found_from : Bool → ℕ → Bytes → List String
  unfolding position is_reference
  found_from escaped skip [] = []
  found_from escaped (suc skip) (x ∷ xs) = found_from false skip xs
  found_from escaped zero (x ∷ xs) = elim (opens x xs) [
    | false ↦ found_from (x == b'$') zero xs
    | true ↦ elim escaped [
      | true ↦ found_from false 1 xs
      | false ↦ elim (position b'}' (drop 1 xs)) [
        | none ↦ []
        | some end ↦ elim (reference (from_utf8 (take end (drop 1 xs)))) [
          | none ↦ found_from false 1 xs
          | some name ↦ cons_if (is_defined name) name (found_from false (suc (suc end)) xs)
        ]
      ]
    ]
  ]

-- `BTreeSet::insert`: texts in the order of their bytes, each once.
unfoldable pub insert_ordered : String → List String → List String
insert_ordered t [] = t ∷ []
insert_ordered t (u ∷ ts) =
    let rest = insert_ordered t ts in
    if str_eq t u then u ∷ ts else if str_lt u t then u ∷ rest else t ∷ u ∷ ts

unfoldable pub ordered : List String → List String
unfolding insert_ordered
ordered [] = []
ordered (t ∷ ts) = insert_ordered t (ordered ts)

unfoldable pub defined_references : (Bytes → Option String) → (String → Bool) → Bytes → List String
unfolding found_from ordered
defined_references from_utf8 is_defined content =
    ordered (found_from from_utf8 is_defined false zero content)
