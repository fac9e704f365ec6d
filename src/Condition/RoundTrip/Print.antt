-- ===== src/Condition/RoundTrip/Print.antt =====
-- A printer for conditions, the inverse that the parser is held against, and which conditions can
-- be written at all: a variable's name is not empty and has no `}`, a literal has no quote.
use Prim.Native.Char.{code}
use glidesh.Common.{glue, ℕ, String, Bool, true, false, ◌||◌, ◌≡◌, List, [], ◌∷◌, ◌==◌, str_eq}
use glidesh.Condition.Syntax.{Operand, Op, Atom, Term}
use glidesh.Condition.Lexer.{Token, is_whitespace, is_special}

abbrev pub show_token : Token → String → String
show_token (Token.var v) r = String.◌∷◌ "$" (String.◌∷◌ "{" (glue v (String.◌∷◌ "}" r)))
show_token (Token.quoted s) r = String.◌∷◌ "'" (glue s (String.◌∷◌ "'" r))
show_token (Token.word w) r = glue w r
show_token Token.eq r = String.◌∷◌ "=" (String.◌∷◌ "=" r)
show_token Token.ne r = String.◌∷◌ "!" (String.◌∷◌ "=" r)
show_token Token.and r = String.◌∷◌ "&" (String.◌∷◌ "&" r)
show_token Token.or r = String.◌∷◌ "|" (String.◌∷◌ "|" r)
show_token Token.not r = String.◌∷◌ "!" r

-- Each token with a space behind it.
abbrev pub print_tokens : List Token → String
print_tokens [] = ""
print_tokens (t ∷ ts) = show_token t (String.◌∷◌ " " (print_tokens ts))

-- Every character of a text fails a test.
abbrev pub Without : (ℕ → Bool) → String → Type 0
Without p String.[] = Unit
Without p (String.◌∷◌ c s) = (p (code c) ≡ false) × Without p s

abbrev pub ends_word : ℕ → Bool
ends_word c = is_whitespace c || is_special c

abbrev pub IsPrintableToken : Token → Type 0
IsPrintableToken (Token.var v) = (str_eq v "" ≡ false) × Without (λ c. c == b'}') v
IsPrintableToken (Token.quoted s) = Without (λ c. c == 39) s
IsPrintableToken (Token.word w) = (str_eq w "" ≡ false) × Without ends_word w
IsPrintableToken _ = Unit

abbrev pub operand_token : Operand → Token
operand_token (Operand.var v) = Token.var v
operand_token (Operand.literal s) = Token.quoted s

abbrev pub op_token : Op → Token
op_token Op.eq = Token.eq
op_token Op.ne = Token.ne

-- Literals are quoted; `defined` and `undefined` are bare words.
abbrev pub atom_tokens : Atom → List Token → List Token
atom_tokens (Atom.defined v) r = Token.word "defined" ∷ Token.var v ∷ r
atom_tokens (Atom.undefined v) r = Token.word "undefined" ∷ Token.var v ∷ r
atom_tokens (Atom.truthy o) r = operand_token o ∷ r
atom_tokens (Atom.compare l op q) r = operand_token l ∷ op_token op ∷ operand_token q ∷ r

abbrev pub negation_tokens : Bool → List Token → List Token
negation_tokens true r = Token.not ∷ r
negation_tokens false r = r

abbrev pub term_tokens : Term → List Token → List Token
term_tokens t r = negation_tokens t.negated (atom_tokens t.atom r)

-- The terms of a conjunction with one term at least, and the conjunctions of a condition.
abbrev pub all_tokens : Term → List Term → List Token → List Token
all_tokens t [] r = term_tokens t r
all_tokens t (u ∷ ts) r = term_tokens t (Token.and ∷ all_tokens u ts r)

abbrev pub any_tokens : Term × List Term → List (Term × List Term) → List Token
any_tokens (t, ts) [] = all_tokens t ts []
any_tokens (t, ts) (all ∷ any) = all_tokens t ts (Token.or ∷ any_tokens all any)
