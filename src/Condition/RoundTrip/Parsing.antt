-- ===== src/Condition/RoundTrip/Parsing.antt =====
-- The parser reads the tokens of a condition back.
use glidesh.Common.{
  ℕ, zero, suc, ◌+◌, ◌≤◌, ◌<◌, Bool, true, false, ◌≡◌, refl, ◌∙◌, List, [], ◌∷◌, map, arith, Result,
  ok, ◌>>=◌, length,
}
use glidesh.Condition.Syntax.{Operand, Op, Atom, Term, ParseError}
use glidesh.Condition.Lexer.{Token}
use glidesh.Condition.Parser.{
  eat, operand, presence, compared, after_left, comparison, term_body, term, collect, all_from,
  any_from, leftover, parse_tokens,
}
use glidesh.Condition.RoundTrip.Print.{
  operand_token, op_token, atom_tokens, negation_tokens, term_tokens, all_tokens, any_tokens,
}

-- What may follow a term: nothing, `&&` or `||`.
abbrev pub IsBreak : List Token → Type 0
IsBreak [] = Unit
IsBreak (Token.and ∷ r) = Unit
IsBreak (Token.or ∷ r) = Unit
IsBreak _ = ⊥

operand-token : (o : Operand) (r : List Token) → operand (operand_token o ∷ r) ≡ ok (o, r)
unfolding operand
operand-token (Operand.var v) r = refl
operand-token (Operand.literal s) r = refl

compared-token :
    (n : Bool) (l : Operand) (op : Op) (q : Operand) (r : List Token)
    → compared n l op (operand_token q ∷ r)
      ≡ ok (record { negated = n; atom = Atom.compare l op q }, r)
unfolding compared
compared-token n l op q r = rw operand-token refl

truthy-break :
    (n : Bool) (l : Operand) (r : List Token)
    → IsBreak r
    → after_left n l r ≡ ok (record { negated = n; atom = Atom.truthy l }, r)
unfolding eat
truthy-break n l [] h = refl
truthy-break n l (Token.and ∷ r) h = refl
truthy-break n l (Token.or ∷ r) h = refl
truthy-break n l (t ∷ r) h = absurd h

after_left-op :
    (n : Bool) (l : Operand) (op : Op) (q : Operand) (r : List Token)
    → after_left n l (op_token op ∷ operand_token q ∷ r)
      ≡ ok (record { negated = n; atom = Atom.compare l op q }, r)
unfolding eat
after_left-op n l Op.eq q r = compared-token n l Op.eq q r
after_left-op n l Op.ne q r = compared-token n l Op.ne q r

comparison-token :
    (n : Bool) (o : Operand) (r : List Token)
    → comparison n (operand_token o ∷ r) ≡ after_left n o r
unfolding comparison
comparison-token n o r = rw operand-token refl

-- An operand token is no keyword: literals are quoted.
term_body-token :
    (n : Bool) (o : Operand) (r : List Token) → term_body n (operand_token o ∷ r) ≡ after_left n o r
unfolding term_body
term_body-token n (Operand.var v) r = comparison-token n (Operand.var v) r
term_body-token n (Operand.literal s) r = comparison-token n (Operand.literal s) r

term_body-atom :
    (n : Bool) (a : Atom) (r : List Token)
    → IsBreak r
    → term_body n (atom_tokens a r) ≡ ok (record { negated = n; atom = a }, r)
unfolding term_body presence
term_body-atom n (Atom.defined v) r h = refl
term_body-atom n (Atom.undefined v) r h = refl
term_body-atom n (Atom.truthy o) r h = term_body-token n o r ∙ truthy-break n o r h
term_body-atom n (Atom.compare l op q) r h = term_body-token n l _ ∙ after_left-op n l op q r

-- A term is printed with no `!` but its own.
eat-atom : (a : Atom) (r : List Token) → eat Token.not (atom_tokens a r) ≡ (false, atom_tokens a r)
unfolding eat
eat-atom (Atom.defined v) r = refl
eat-atom (Atom.undefined v) r = refl
eat-atom (Atom.truthy (Operand.var v)) r = refl
eat-atom (Atom.truthy (Operand.literal s)) r = refl
eat-atom (Atom.compare (Operand.var v) op q) r = refl
eat-atom (Atom.compare (Operand.literal s) op q) r = refl

term-tokens :
    (n : Bool) (a : Atom) (r : List Token)
    → IsBreak r
    → term (term_tokens (record { negated = n; atom = a }) r)
      ≡ ok (record { negated = n; atom = a }, r)
unfolding term eat
term-tokens true a r h = term_body-atom true a r h
term-tokens false a r h = rw (eat-atom a r) (term_body-atom false a r h)

length-term_tokens : (t : Term) (r : List Token) → length r < length (term_tokens t r)
length-term_tokens t r = go t.negated t.atom
  where
    atoms : (a : Atom) → length r < length (atom_tokens a r)
    atoms (Atom.defined v) = omega arith
    atoms (Atom.undefined v) = omega arith
    atoms (Atom.truthy o) = omega arith
    atoms (Atom.compare l op q) = omega arith

    go : (n : Bool) (a : Atom) → length r < length (negation_tokens n (atom_tokens a r))
    go true a = omega (arith, atoms a)
    go false a = atoms a

length-all_tokens :
    (t : Term) (ts : List Term) (r : List Token) → length ts + length r < length (all_tokens t ts r)
length-all_tokens t [] r = omega (arith, length-term_tokens t r)
length-all_tokens t (u ∷ ts) r =
    omega (arith, length-term_tokens t (Token.and ∷ all_tokens u ts r), length-all_tokens u ts r)

-- What may follow a conjunction: nothing, or `||`.
abbrev IsEnd : List Token → Type 0
IsEnd [] = Unit
IsEnd (Token.or ∷ r) = Unit
IsEnd _ = ⊥

IsEnd-IsBreak : (r : List Token) → IsEnd r → IsBreak r
IsEnd-IsBreak [] h = tt
IsEnd-IsBreak (Token.or ∷ r) h = tt
IsEnd-IsBreak (t ∷ r) h = absurd h

collect-end :
    (t : Term) (r : List Token) (rest : List Token → Result ParseError (List Term × List Token))
    → IsEnd r
    → collect (eat Token.and r) (t, r) rest ≡ ok (t ∷ [], r)
unfolding eat
collect-end t [] rest h = refl
collect-end t (Token.or ∷ r) rest h = refl
collect-end t (u ∷ r) rest h = absurd h

all_from-tokens :
    (ts : List Term) (t : Term) (r : List Token) (fuel : ℕ)
    → IsEnd r
    → length ts < fuel
    → all_from fuel (all_tokens t ts r) ≡ ok (t ∷ ts, r)
unfolding all_from eat
all_from-tokens ts t r zero h le = absurd (omega arith)
all_from-tokens [] t r (suc fuel) h le =
    rw (term-tokens t.negated t.atom r (IsEnd-IsBreak r h)) (collect-end t r (all_from fuel) h)
all_from-tokens (u ∷ ts) t r (suc fuel) h le =
    rw (term-tokens t.negated t.atom (Token.and ∷ all_tokens u ts r) tt)
      (rw (all_from-tokens ts u r fuel h (omega arith)) refl)

abbrev pub terms : Term × List Term → List Term
terms (t, ts) = t ∷ ts

any_from-tokens :
    (any : List (Term × List Term)) (all : Term × List Term) (fuel : ℕ)
    → length (any_tokens all any) ≤ fuel
    → any_from fuel (any_tokens all any) ≡ ok (terms all ∷ map terms any, [])
unfolding any_from eat
any_from-tokens [] (t, ts) zero le = absurd (omega (arith, length-all_tokens t ts []))
any_from-tokens (a ∷ any) (t, ts) zero le =
    absurd (omega (arith, length-all_tokens t ts (Token.or ∷ any_tokens a any)))
any_from-tokens [] (t, ts) (suc fuel) le =
    rw (all_from-tokens ts t [] (suc fuel) tt (omega (arith, length-all_tokens t ts []))) refl
any_from-tokens (a ∷ any) (t, ts) (suc fuel) le =
    rw
      (all_from-tokens ts t (Token.or ∷ any_tokens a any) (suc fuel) tt
        (omega (arith, length-all_tokens t ts (Token.or ∷ any_tokens a any))))
      (rw
        (any_from-tokens any a fuel
          (omega (arith, length-all_tokens t ts (Token.or ∷ any_tokens a any))))
        refl)

parse_tokens-pos :
    (ts : List Token)
    → 0 < length ts
    → parse_tokens ts ≡ (any_from (suc (length ts)) ts >>= leftover)
unfolding parse_tokens
parse_tokens-pos [] h = absurd (omega arith)
parse_tokens-pos (t ∷ ts) h = refl

length-any_tokens :
    (all : Term × List Term) (any : List (Term × List Term)) → 0 < length (any_tokens all any)
length-any_tokens (t, ts) [] = omega (arith, length-all_tokens t ts [])
length-any_tokens (t, ts) (a ∷ any) =
    omega (arith, length-all_tokens t ts (Token.or ∷ any_tokens a any))

-- The tokens of a condition parse to it.
pub parse_tokens-tokens :
    (all : Term × List Term) (any : List (Term × List Term))
    → parse_tokens (any_tokens all any) ≡ ok (terms all ∷ map terms any)
parse_tokens-tokens all any =
    parse_tokens-pos (any_tokens all any) (length-any_tokens all any)
    ∙ rw (any_from-tokens any all (suc (length (any_tokens all any))) (omega arith)) refl
