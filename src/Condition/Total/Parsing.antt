-- ===== src/Condition/Total/Parsing.antt =====
-- A term takes a token at least, so the tokens and one more are enough fuel for the parser.
use glidesh.Common.{
  ℕ, zero, suc, ◌≤◌, ◌<◌, ◌≡◌, refl, String, Bool, true, false, List, [], ◌∷◌, arith, Result, ok,
  err, ◌>>=◌, length,
}
use glidesh.Condition.Syntax.{Term, Op, Operand, ParseError, message, out_of_fuel}
use glidesh.Condition.Lexer.{Token}
use glidesh.Condition.Parser.{
  eat, operand, presence, compared, comparison, after_left, term_body, term, all_from, any_from,
  parse_tokens, leftover, collect,
}
use glidesh.Condition.Total.Lexing.{IsFuelled}

-- The same for the parser: what it leaves is shorter than what it was given.
abbrev Takes {ℓ} : {A : Type ℓ} → ℕ → Result ParseError (A × List Token) → Type 0
Takes n (ok (a, ts)) = length ts < n
Takes n (err (message m)) = Unit
Takes n (err out_of_fuel) = ⊥

length-eat : (t : Token) (ts : List Token) → length (eat t ts).1 ≤ length ts
unfolding eat
length-eat t [] = omega arith
length-eat t (u ∷ ts) = ground arith

-- After a token eaten there is one token less.
length-eat-true :
    (t : Token) (ts : List Token) → (eat t ts).0 ≡ true → length (eat t ts).1 < length ts
unfolding eat
length-eat-true t [] h = cc
length-eat-true t (u ∷ ts) h = ground arith

operand-Takes : (ts : List Token) → Takes (length ts) (operand ts)
unfolding operand
operand-Takes [] = tt
operand-Takes (Token.var v ∷ ts) = omega arith
operand-Takes (Token.quoted v ∷ ts) = omega arith
operand-Takes (Token.word v ∷ ts) = omega arith
operand-Takes (t ∷ ts) = tt

presence-Takes :
    (negated : Bool) (keyword : String) (ts : List Token)
    → Takes (suc (length ts)) (presence negated keyword ts)
unfolding presence
presence-Takes n k [] = tt
presence-Takes n k (Token.var v ∷ ts) = omega arith
presence-Takes n k (t ∷ ts) = tt

compared-Takes :
    (negated : Bool) (left : Operand) (op : Op) (ts : List Token)
    → Takes (length ts) (compared negated left op ts)
unfolding compared
compared-Takes n l op ts = ground (arith, operand-Takes ts)

after_left-Takes :
    (negated : Bool) (left : Operand) (ts : List Token)
    → Takes (suc (length ts)) (after_left negated left ts)
after_left-Takes n l ts = ground (
  arith,
  length-eat Token.eq ts,
  length-eat Token.ne ts,
  compared-Takes n l Op.eq (eat Token.eq ts).1,
  compared-Takes n l Op.ne (eat Token.ne ts).1,
)

Takes-le {ℓ} :
    {A : Type ℓ} (m n : ℕ) (r : Result ParseError (A × List Token)) → m ≤ n → Takes m r → Takes n r
Takes-le m n (ok (a, ts)) le h = omega arith
Takes-le m n (err (message e)) le h = tt
Takes-le m n (err out_of_fuel) le h = h

comparison-Takes : (negated : Bool) (ts : List Token) → Takes (length ts) (comparison negated ts)
unfolding comparison
comparison-Takes n ts = go (operand ts) (operand-Takes ts)
  where
    go :
        (r : Result ParseError (Operand × List Token))
        → Takes (length ts) r
        → Takes (length ts) (r >>= λ left. after_left n left.0 left.1)
    go (ok (l, rest)) h =
        Takes-le _ (length ts) (after_left n l rest) (omega arith) (after_left-Takes n l rest)
    go (err (message m)) h = tt
    go (err out_of_fuel) h = h

term_body-Takes : (negated : Bool) (ts : List Token) → Takes (length ts) (term_body negated ts)
unfolding term_body
term_body-Takes n [] = comparison-Takes n []
term_body-Takes n (Token.word w ∷ ts) =
    ground (arith, presence-Takes n w ts, comparison-Takes n (Token.word w ∷ ts))
term_body-Takes n (t ∷ ts) = comparison-Takes n (t ∷ ts)

term-Takes : (ts : List Token) → Takes (length ts) (term ts)
unfolding term
term-Takes ts =
    ground
      (arith, length-eat Token.not ts, term_body-Takes (eat Token.not ts).0 (eat Token.not ts).1)

-- One round of the loop of `all` or `parse`, over any first part and any rest.
module _ {A : Type 0} (token : Token) (n : ℕ)
    (rest : List Token → Result ParseError (List A × List Token)) where
  others-Takes :
      (a : A) (r : Result ParseError (List A × List Token))
      → Takes n r
      → Takes n (r >>= λ others. ok (a ∷ others.0, others.1))
  others-Takes a (ok (xs, ts)) h = h
  others-Takes a (err (message m)) h = tt
  others-Takes a (err out_of_fuel) h = h

  collect-Takes :
      (eaten : Bool × List Token) (a : A) (ts : List Token)
      → length ts < n
      → (eaten.0 ≡ true → length eaten.1 < length ts)
      → ((us : List Token) → suc (length us) < n → Takes n (rest us))
      → Takes n (collect eaten (a, ts) rest)
  collect-Takes (false, us) a ts h e k = h
  collect-Takes (true, us) a ts h e k = others-Takes a (rest us) (k us (omega (arith, e refl)))

  loop-Takes :
      (first : Result ParseError (A × List Token))
      → Takes n first
      → ((ts : List Token) → suc (length ts) < n → Takes n (rest ts))
      → Takes n (first >>= λ f. collect (eat token f.1) f rest)
  loop-Takes (err (message m)) h k = tt
  loop-Takes (err out_of_fuel) h k = h
  loop-Takes (ok (a, ts)) h k = collect-Takes (eat token ts) a ts h (length-eat-true token ts) k

all_from-Takes :
    (fuel : ℕ) (ts : List Token) → length ts < fuel → Takes (length ts) (all_from fuel ts)
unfolding all_from
all_from-Takes zero ts h = absurd (omega arith)
all_from-Takes (suc fuel) ts h =
    loop-Takes Token.and (length ts) (all_from fuel) (term ts) (term-Takes ts) (λ rest k.
      Takes-le _ (length ts) (all_from fuel rest) (omega arith)
        (all_from-Takes fuel rest (omega arith)))

any_from-Takes :
    (fuel : ℕ) (ts : List Token) → length ts < fuel → Takes (length ts) (any_from fuel ts)
unfolding any_from
any_from-Takes zero ts h = absurd (omega arith)
any_from-Takes (suc fuel) ts h =
    loop-Takes Token.or (length ts) (any_from fuel) (all_from (suc fuel) ts)
      (all_from-Takes (suc fuel) ts h)
      (λ rest k.
        Takes-le _ (length ts) (any_from fuel rest) (omega arith)
          (any_from-Takes fuel rest (omega arith)))

-- The parser never runs out of fuel.
pub parse_tokens-IsFuelled : (ts : List Token) → IsFuelled (parse_tokens ts)
unfolding parse_tokens
parse_tokens-IsFuelled [] = tt
parse_tokens-IsFuelled (t ∷ ts) =
    go _ (any_from-Takes (suc (length (t ∷ ts))) (t ∷ ts) (omega arith))
  where
    go :
        (r : Result ParseError (List (List Term) × List Token))
        → Takes (length (t ∷ ts)) r
        → IsFuelled (r >>= leftover)
    go (ok (any, [])) h = tt
    go (ok (any, u ∷ us)) h = tt
    go (err (message m)) h = tt
    go (err out_of_fuel) h = h
