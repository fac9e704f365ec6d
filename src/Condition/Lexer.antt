-- ===== src/Condition/Lexer.antt =====
-- `tokenize` of config/condition.rs, one round of its loop at a time.
use Prim.Native.Char.{Char, code}
unfoldable pub use glidesh.Common.{size}
use glidesh.Common.{
  ℕ, zero, suc, String, Bool, false, ◌||◌, Option, none, some, List, [], ◌∷◌, ◌==◌, if◌then◌else◌,
  Result, ok, err, ◌>>=◌, fmt, str_eq,
}
unfoldable pub use glidesh.Common.Chars.{is_whitespace}
use glidesh.Condition.Syntax.{ParseError, out_of_fuel, fail}

pub data Token : Type 0 where
  var quoted word : String → Token
  eq ne and or not : Token

-- `"=!&|'$".contains(c)`
unfoldable pub is_special : ℕ → Bool
is_special c = c == b'=' || c == b'!' || c == b'&' || c == b'|' || c == 39 || c == b'$'

-- The loops that push characters up to a closing one; `none` at the end of the text.
unfoldable pub read_until : ℕ → String → Option (String × String)
read_until close String.[] = none
read_until close (String.◌∷◌ c s) =
    let rest = read_until close s in
    if code c == close
    then some ("", s)
    else elim rest [ none ↦ none | some (name, after) ↦ some (String.◌∷◌ c name, after) ]

unfoldable pub read_word : String → String × String
read_word String.[] = ("", "")
read_word (String.◌∷◌ c s) =
    let (w, after) = read_word s in
    if is_whitespace (code c) || is_special (code c)
    then ("", String.◌∷◌ c s)
    else (String.◌∷◌ c w, after)

-- `chars.peek()` is a given character; and the text after it.
unfoldable pub peek_is : ℕ → String → Bool
peek_is k String.[] = false
peek_is k (String.◌∷◌ c s) = code c == k

unfoldable pub tail : String → String
tail String.[] = ""
tail (String.◌∷◌ c s) = s

abbrev Round : Type 0
Round = Result ParseError (Option Token × String)

-- After `$`.
unfoldable pub read_var : String → Round
unfolding peek_is tail fmt
read_var s =
    if peek_is b'{' s
    then elim (read_until b'}' (tail s)) [
      | none ↦ fail (fmt ("unclosed '${" ∷ tail s ∷ "'" ∷ []))
      | some (name, after) ↦
          if str_eq name ""
          then fail "empty variable reference '${}'"
          else ok (some (Token.var name), after)
    ]
    else fail "expected '{' after '$'"

-- After a quote.
unfoldable pub read_quoted : String → Round
unfolding fmt
read_quoted s = elim (read_until 39 s) [
  | none ↦ fail (fmt ("unclosed quote '" ∷ s ∷ "'" ∷ []))
  | some (text, after) ↦ ok (some (Token.quoted text), after)
]

abbrev not_operator : String → Round
not_operator c = fail (fmt ("'" ∷ c ∷ "' is not an operator; use '" ∷ c ∷ c ∷ "'" ∷ []))

-- After one of `= ! & |`.
unfoldable pub read_operator : ℕ → String → Round
unfolding peek_is tail fmt
read_operator c s =
    if c == b'='
    then (if peek_is b'=' s
        then ok (some Token.eq, tail s)
        else fail "'=' is not an operator; use '=='")
    else if c == b'!'
    then (if peek_is b'=' s then ok (some Token.ne, tail s) else ok (some Token.not, s))
    else if c == b'&'
    then (if peek_is b'&' s then ok (some Token.and, tail s) else not_operator "&")
    else (if peek_is b'|' s then ok (some Token.or, tail s) else not_operator "|")

-- One round of `while let Some(&c) = chars.peek()`: the token read, if any, and the text left.
unfoldable pub next_token : Char → String → Round
next_token c s =
    if is_whitespace (code c)
    then ok (none, s)
    else if code c == b'$'
    then read_var s
    else if code c == 39
    then read_quoted s
    else if is_special (code c)
    then read_operator (code c) s
    else (let (w, after) = read_word (String.◌∷◌ c s) in ok (some (Token.word w), after))

abbrev pub push : Option Token → List Token → List Token
push none ts = ts
push (some t) ts = t ∷ ts

unfoldable pub tokenize_from : ℕ → String → Result ParseError (List Token)
tokenize_from fuel String.[] = ok []
tokenize_from zero (String.◌∷◌ c s) = err out_of_fuel
tokenize_from (suc fuel) (String.◌∷◌ c s) = do
  round ← next_token c s
  tokens ← tokenize_from fuel round.1
  ok (push round.0 tokens)

-- The characters of a text: a round takes at least one, so they are enough fuel.

unfoldable pub tokenize : String → Result ParseError (List Token)
unfolding size tokenize_from next_token read_until read_word read_operator read_quoted read_var
    is_whitespace is_special
tokenize source = tokenize_from (size source) source
