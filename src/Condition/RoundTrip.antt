-- ===== src/Condition/RoundTrip.antt =====
-- Printing a condition and parsing it gives it back.
pub mod Print
pub mod Lexing
mod Parsing
use glidesh.Common.{
  ℕ, String, Bool, true, false, ◌≡◌, refl, ◌∙◌, none, List, [], ◌∷◌, map, arith, ok, str_eq, ◌==◌,
  All, find, Result,
}
use glidesh.Condition.Syntax.{Operand, Op, Atom, Term, Condition, variables}
use glidesh.Condition.Lexer.{Token, tokenize, tokenize_from, size, is_whitespace, is_special}
use glidesh.Condition.Parser.{parse, parse_tokens, reserved, checked}
pub use Parsing.{terms}
use Print.{
  negation_tokens, op_token, atom_tokens, operand_token, any_tokens, all_tokens, term_tokens,
  print_tokens, Without, IsPrintableToken,
}
use Lexing.{tokenize_from-print}
use Parsing.{parse_tokens-tokens}

-- A condition as it can be written: its names and literals are printable.
abbrev pub IsPrintableAtom : Atom → Type 0
IsPrintableAtom (Atom.defined v) = IsPrintableToken (Token.var v)
IsPrintableAtom (Atom.undefined v) = IsPrintableToken (Token.var v)
IsPrintableAtom (Atom.truthy o) = IsPrintableToken (operand_token o)
IsPrintableAtom (Atom.compare l op r) =
    IsPrintableToken (operand_token l) × IsPrintableToken (operand_token r)

abbrev pub IsPrintable : List Term → Type 0
IsPrintable = All (λ t. IsPrintableAtom t.atom)

abbrev pub print : Term × List Term → List (Term × List Term) → String
print all any = print_tokens (any_tokens all any)

word_defined : IsPrintableToken (Token.word "defined")
unfolding is_whitespace is_special
word_defined = (refl, (refl, (refl, (refl, (refl, (refl, (refl, (refl, tt))))))))

word_undefined : IsPrintableToken (Token.word "undefined")
unfolding is_whitespace is_special
word_undefined = (refl, (refl, (refl, (refl, (refl, (refl, (refl, (refl, (refl, (refl, tt))))))))))

op_token-IsPrintable : (op : Op) → IsPrintableToken (op_token op)
op_token-IsPrintable Op.eq = tt
op_token-IsPrintable Op.ne = tt

atom_tokens-IsPrintable :
    (a : Atom) (r : List Token)
    → IsPrintableAtom a
    → All IsPrintableToken r
    → All IsPrintableToken (atom_tokens a r)
atom_tokens-IsPrintable (Atom.defined v) r h k = (word_defined, (h, k))
atom_tokens-IsPrintable (Atom.undefined v) r h k = (word_undefined, (h, k))
atom_tokens-IsPrintable (Atom.truthy o) r h k = (h, k)
atom_tokens-IsPrintable (Atom.compare l op q) r h k = (h.0, (op_token-IsPrintable op, (h.1, k)))

term_tokens-IsPrintable :
    (n : Bool) (a : Atom) (r : List Token)
    → IsPrintableAtom a
    → All IsPrintableToken r
    → All IsPrintableToken (negation_tokens n (atom_tokens a r))
term_tokens-IsPrintable true a r h k = (tt, atom_tokens-IsPrintable a r h k)
term_tokens-IsPrintable false a r h k = atom_tokens-IsPrintable a r h k

all_tokens-IsPrintable :
    (t : Term) (ts : List Term) (r : List Token)
    → IsPrintable (t ∷ ts)
    → All IsPrintableToken r
    → All IsPrintableToken (all_tokens t ts r)
all_tokens-IsPrintable t [] r h k = term_tokens-IsPrintable t.negated t.atom r h.0 k
all_tokens-IsPrintable t (u ∷ ts) r h k =
    term_tokens-IsPrintable t.negated t.atom (Token.and ∷ all_tokens u ts r) h.0
      (tt, all_tokens-IsPrintable u ts r h.1 k)

any_tokens-IsPrintable :
    (any : List (Term × List Term)) (all : Term × List Term)
    → IsPrintable (terms all)
    → All (λ a. IsPrintable (terms a)) any
    → All IsPrintableToken (any_tokens all any)
any_tokens-IsPrintable [] (t, ts) h k = all_tokens-IsPrintable t ts [] h tt
any_tokens-IsPrintable (a ∷ any) (t, ts) h k =
    all_tokens-IsPrintable t ts (Token.or ∷ any_tokens a any) h
      (tt, any_tokens-IsPrintable any a k.0 k.1)

tokenize_lem : (s : String) → tokenize s ≡ tokenize_from (size s) s
unfolding tokenize
tokenize_lem s = refl

-- Printing a condition with printable names and literals, none of them an `@inventory.` variable,
-- and parsing the text gives the condition back, with the text as its source.
pub parse-print :
    (all : Term × List Term) (any : List (Term × List Term))
    → IsPrintable (terms all)
    → All (λ a. IsPrintable (terms a)) any
    → find reserved (variables (terms all ∷ map terms any)) ≡ none
    → parse (print all any)
      ≡ ok (record { source = print all any; any = terms all ∷ map terms any })
parse-print all any h k free = unfold parse in rw (lexed, parse_tokens-tokens all any, free) refl
  where
    lexed : tokenize (print all any) ≡ ok (any_tokens all any)
    lexed =
        tokenize_lem (print all any)
        ∙ tokenize_from-print (any_tokens all any) (size (print all any))
            (any_tokens-IsPrintable any all h k) (omega arith)
