-- ===== src/Condition/Parser.antt =====
-- `Parser` and `Condition::parse` of config/condition.rs. The parser's state, a vector and a
-- position, is the list of the tokens from that position on.
use text.Mathlib.Text.{starts_with}
use glidesh.Common.{
  ℕ, zero, suc, String, Bool, true, false, ◌||◌, Option, none, some, List, [], ◌∷◌, if◌then◌else◌,
  Result, ok, err, ◌>>=◌, fmt, str_eq, length, find,
}
use glidesh.Condition.Syntax.{
  Operand, Op, Atom, Term, Condition, ParseError, message, out_of_fuel, fail, variables,
}
use glidesh.Condition.Lexer.{Token, var, quoted, word, tokenize}

-- `Token::describe`.
unfoldable pub describe : Token → String
unfolding fmt
describe (var v) = fmt ("'${" ∷ v ∷ "}'" ∷ [])
describe (quoted s) = fmt ("'" ∷ s ∷ "'" ∷ [])
describe (word w) = fmt ("'" ∷ w ∷ "'" ∷ [])
describe Token.eq = "'=='"
describe Token.ne = "'!='"
describe Token.and = "'&&'"
describe Token.or = "'||'"
describe Token.not = "'!'"

-- The derived `==`, as far as `eat` uses it: on the operators, which carry nothing.
abbrev pub same : Token → Token → Bool
same Token.eq Token.eq = true
same Token.ne Token.ne = true
same Token.and Token.and = true
same Token.or Token.or = true
same Token.not Token.not = true
same _ _ = false

unfoldable pub eat : Token → List Token → Bool × List Token
eat token [] = (false, [])
eat token (t ∷ ts) = if same t token then (true, ts) else (false, t ∷ ts)

unfoldable pub operand : List Token → Result ParseError (Operand × List Token)
operand [] = fail "expected a value at the end of the condition"
operand (var v ∷ ts) = ok (Operand.var v, ts)
operand (quoted s ∷ ts) = ok (Operand.literal s, ts)
operand (word w ∷ ts) = ok (Operand.literal w, ts)
operand (t ∷ ts) = fail (fmt ("expected a value, found " ∷ describe t ∷ []))

-- After `defined` or `undefined`.
unfoldable pub presence : Bool → String → List Token → Result ParseError (Term × List Token)
presence negated keyword (var v ∷ ts) = ok (
  record {
    negated = negated;
    atom = (if str_eq keyword "defined" then Atom.defined v else Atom.undefined v);
  },
  ts,
)
presence negated keyword _ = fail (fmt ("'" ∷ keyword ∷ "' must be followed by a ${variable}" ∷ []))

unfoldable pub compared : Bool → Operand → Op → List Token → Result ParseError (Term × List Token)
compared negated left op ts = do
  right ← operand ts
  ok (record { negated = negated; atom = Atom.compare left op right.0 }, right.1)

abbrev pub after_left : Bool → Operand → List Token → Result ParseError (Term × List Token)
after_left negated left ts =
    if (eat Token.eq ts).0
    then compared negated left Op.eq (eat Token.eq ts).1
    else if (eat Token.ne ts).0
    then compared negated left Op.ne (eat Token.ne ts).1
    else ok (record { negated = negated; atom = Atom.truthy left }, ts)

-- An operand, alone or compared with another.
unfoldable pub comparison : Bool → List Token → Result ParseError (Term × List Token)
comparison negated ts = do left ← operand ts; after_left negated left.0 left.1

unfoldable pub term_body : Bool → List Token → Result ParseError (Term × List Token)
term_body negated (word w ∷ ts) =
    if str_eq w "defined" || str_eq w "undefined"
    then presence negated w ts
    else comparison negated (word w ∷ ts)
term_body negated ts = comparison negated ts

unfoldable pub term : List Token → Result ParseError (Term × List Token)
term ts = let (negated, rest) = eat Token.not ts in term_body negated rest

-- One round of `while self.eat(…) { …push(…?) }`: the element, and the others if the token is eaten.
abbrev pub collect :
    {A : Type 0}
    → Bool × List Token
    → A × List Token
    → (List Token → Result ParseError (List A × List Token))
    → Result ParseError (List A × List Token)
collect (false, _) first rest = ok (first.0 ∷ [], first.1)
collect (true, after) first rest = do others ← rest after; ok (first.0 ∷ others.0, others.1)

-- The loop of `all`: a term, and more after each `&&`.
unfoldable pub all_from : ℕ → List Token → Result ParseError (List Term × List Token)
all_from zero ts = err out_of_fuel
all_from (suc fuel) ts = do first ← term ts; collect (eat Token.and first.1) first (all_from fuel)

-- The loop of `parse`: an `all`, and more after each `||`.
unfoldable pub any_from : ℕ → List Token → Result ParseError (List (List Term) × List Token)
any_from zero ts = err out_of_fuel
any_from (suc fuel) ts = do
  first ← all_from (suc fuel) ts
  collect (eat Token.or first.1) first (any_from fuel)

abbrev pub leftover : List (List Term) × List Token → Result ParseError (List (List Term))
leftover (any, []) = ok any
leftover (any, t ∷ ts) =
    fail (fmt ("unexpected " ∷ describe t ∷ " — expected '==', '!=', '&&' or '||'" ∷ []))

-- `Parser::parse`. A term takes a token at least, so the tokens and one more are enough fuel.
unfoldable pub parse_tokens : List Token → Result ParseError (List (List Term))
unfolding any_from all_from term term_body comparison presence compared eat operand fmt describe
parse_tokens [] = fail "empty condition"
parse_tokens (t ∷ ts) = do parsed ← any_from (suc (length (t ∷ ts))) (t ∷ ts); leftover parsed

abbrev pub in_condition {ℓ} : {A : Type ℓ} → String → Result ParseError A → Result ParseError A
in_condition source (ok a) = ok a
in_condition source (err out_of_fuel) = err out_of_fuel
in_condition source (err (message m)) = fail (fmt ("invalid when=\"" ∷ source ∷ "\": " ∷ m ∷ []))

abbrev pub reserved : String → Bool
reserved v = starts_with v "@inventory."

abbrev pub reserved_or : String → List (List Term) → Option String → Result ParseError Condition
reserved_or source any none = ok (record { source = source; any = any })
reserved_or source any (some v) = fail (
    fmt (
      "${" ∷ v ∷ "} is only available in file templates, not in conditions or module arguments"
      ∷ []))

abbrev pub checked : String → List (List Term) → Result ParseError Condition
checked source any = reserved_or source any (find reserved (variables any))

-- `Condition::parse`; a message is the text of its `GlideshError::ConfigParse`.
unfoldable pub parse : String → Result ParseError Condition
unfolding parse_tokens variables fmt
parse source =
    in_condition source do tokens ← tokenize source; any ← parse_tokens tokens; checked source any
