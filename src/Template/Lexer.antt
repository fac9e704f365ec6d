-- ===== src/Template/Lexer.antt =====
-- `lex` of config/template.rs, and what it reads. An offset counts characters, where the source
-- counts bytes: both name the same place.
use Prim.Native.Char.{code}
use glidesh.Common.{
  ℕ, zero, suc, ◌+◌, ◌-◌, String, Bool, false, ◌&&◌, ◌||◌, not, Option, none, some, List, [], ◌∷◌,
  if◌then◌else◌, ◌==◌, leb, str_eq, fmt, size, map,
}
use glidesh.Common.Chars.{
  strip_prefix, starts_with, split_whitespace, after_text, newlines, take_chars,
}
use glidesh.Condition.Lexer.{read_until}

pub data Token : Type 0 where
  var escaped : String → Token
  for : String → String → Option String → Token
  end_for : Token
  invalid : String → Token

pub record AtError : Type 0 where
  pub at : ℕ
  pub message : String

-- From what follows `separator="`, if it stands in the header.
unfoldable pub for_with : String → String → Option String → Token
unfolding read_until
for_with binding collection none = Token.for binding collection none
for_with binding collection (some value) = elim (read_until b'"' value) [
  | none ↦ Token.invalid "Unclosed separator value in for-loop (missing closing quote)"
  | some (separator, after) ↦ Token.for binding collection (some separator)
]

abbrev bad_header : String → Token
bad_header header = Token.invalid (
    fmt (
      "Invalid for-loop syntax: expected '${for <binding> in <collection>}', got '${" ∷ header
      ∷ "}'" ∷ []))

abbrev pub header_words : String → List String → Token
header_words header (w ∷ binding ∷ word ∷ collection ∷ ws) =
    if str_eq word "in"
    then for_with binding collection (after_text header "separator=\"")
    else bad_header header
header_words header ws = bad_header header

unfoldable pub for_header : String → Token
unfolding for_with split_whitespace after_text fmt
for_header header = header_words header (split_whitespace header)

unfoldable pub inner_token : String → Token
unfolding for_header starts_with
inner_token inner =
    if starts_with inner "for "
    then for_header inner
    else if str_eq inner "endfor"
    then Token.end_for
    else Token.var inner

-- What stands at a `$`: nothing, a `${…}` with its length, or a `${` that is never closed.
pub data Found : Type 0 where
  plain : Found
  tag : ℕ → Token → Found
  unclosed : String → Found

abbrev pub name_of : Option (String × String) → String
name_of none = ""
name_of (some (name, after)) = name

unfoldable pub found_at : String → Found
unfolding inner_token strip_prefix starts_with read_until size fmt
found_at rest = elim (strip_prefix "$${" rest) [
  | some after ↦ tag 3 (Token.escaped (name_of (read_until b'}' after)))
  | none ↦ elim (strip_prefix "${" rest) [
    | none ↦ plain
    | some after ↦ elim (read_until b'}' after) [
      | none ↦ unclosed (
          if starts_with after "for "
          then "Unclosed ${for ...} tag"
          else fmt ("Unclosed variable reference: ${" ∷ after ∷ []))
      | some (inner, more) ↦ tag (2 + size inner + 1) (inner_token inner)
    ]
  ]
]

pub record At : Type 0 where
  pub at : ℕ
  pub len : ℕ
  pub token : Token

abbrev pub Lexed : Type 0
Lexed = List At × Option AtError

abbrev pub add : At → Lexed → Lexed
add a (found, error) = (a ∷ found, error)

-- From the character at `at`; `skip` counts those left of the last `${…}`.
unfoldable pub lex_from : ℕ → ℕ → String → Lexed
unfolding found_at
lex_from skip at String.[] = ([], none)
lex_from (suc skip) at (String.◌∷◌ c s) = lex_from skip (at + 1) s
lex_from zero at (String.◌∷◌ c s) = elim (found_at (String.◌∷◌ c s)) [
  | plain ↦ lex_from zero (at + 1) s
  | tag len token ↦
      add (record { at = at; len = len; token = token }) (lex_from (len - 1) (at + 1) s)
  | unclosed message ↦ ([], some (record { at = at; message = message }))
]

unfoldable pub lex : String → Lexed
unfolding lex_from
lex template = lex_from zero zero template

-- The 1-based line of an offset.
unfoldable pub line_at : String → ℕ → ℕ
unfolding take_chars newlines
line_at template at = newlines (take_chars at template) + 1

-- Every token with its line.
unfoldable pub tokens : String → List (ℕ × Token)
unfolding lex line_at
tokens template = map (λ (a : At). (line_at template a.at, a.token)) (lex template).0

abbrev is_lower : ℕ → Bool
is_lower c = leb b'a' c && leb c b'z'

abbrev is_upper_or_digit : ℕ → Bool
is_upper_or_digit c = (leb b'A' c && leb c b'Z') || (leb b'0' c && leb c b'9')

abbrev is_name_char : ℕ → Bool
is_name_char c =
    is_lower c || is_upper_or_digit c || c == b'-' || c == b'_' || c == b'.' || c == b'@'

unfoldable pub has_char : (ℕ → Bool) → String → Bool
has_char p String.[] = false
has_char p (String.◌∷◌ c s) = p (code c) || has_char p s

unfoldable pub literal_hint : String → String
unfolding has_char fmt
literal_hint name =
    if not (has_char is_lower name) || has_char (λ c. not (is_name_char c)) name
    then fmt (
        " (if it is meant for the shell, write $${" ∷ name ∷ "} to keep ${" ∷ name ∷ "} as is)"
        ∷ [])
    else ""
