-- ===== src/Condition/Total.antt =====
-- The fuel of the tokenizer and of the parser is enough: `parse` always gives a condition or a
-- message.
pub mod Lexing
mod Parsing
pub use Lexing.{IsFuelled}
use Lexing.{tokenize-IsFuelled}
use Parsing.{parse_tokens-IsFuelled}
use Prim.Native.Char.{Char, code}
use glidesh.Common.{
  ℕ, zero, suc, ◌≤◌, ◌<◌, ◌≡◌, refl, ◌≢◌, inl, inr, String, Bool, true, false, ◌||◌, Option, none,
  some, List, [], ◌∷◌, arith, ◌==◌, leb, Result, ok, err, ◌>>=◌, length, str_eq, Bool-cases, find,
}
use glidesh.Condition.Syntax.{
  Condition, variables, Term, Op, Operand, ParseError, message, out_of_fuel,
}
use glidesh.Condition.Lexer.{
  Token, is_whitespace, is_special, read_until, read_word, peek_is, tail, read_var, read_quoted,
  read_operator, next_token, tokenize_from, size, tokenize, push,
}
use glidesh.Condition.Parser.{
  eat, operand, presence, compared, comparison, after_left, term_body, term, all_from, any_from,
  parse_tokens, parse, leftover, checked, reserved_or, reserved, collect, in_condition,
}

checked-IsFuelled : (source : String) (any : List (List Term)) → IsFuelled (checked source any)
checked-IsFuelled source any = go (find reserved (variables any))
  where
    go : (o : Option String) → IsFuelled (reserved_or source any o)
    go none = tt
    go (some v) = tt

in_condition-IsFuelled :
    (source : String) (r : Result ParseError Condition)
    → IsFuelled r
    → IsFuelled (in_condition source r)
in_condition-IsFuelled source (ok c) h = tt
in_condition-IsFuelled source (err (message m)) h = tt
in_condition-IsFuelled source (err out_of_fuel) h = h

IsFuelled->>= :
    {A B : Type 0} (r : Result ParseError A) (f : A → Result ParseError B)
    → IsFuelled r
    → ((a : A) → IsFuelled (f a))
    → IsFuelled (r >>= f)
IsFuelled->>= (ok a) f h k = k a
IsFuelled->>= (err (message m)) f h k = tt
IsFuelled->>= (err out_of_fuel) f h k = h

-- `Condition::parse` returns for every text: a condition, or the message of a configuration
-- error; its loops never run out of the fuel they start with.
pub parse-IsFuelled : (source : String) → IsFuelled (parse source)
unfolding parse
parse-IsFuelled source = in_condition-IsFuelled source _ (
    IsFuelled->>= (tokenize source) _ (tokenize-IsFuelled source) (λ tokens.
      IsFuelled->>= (parse_tokens tokens) (checked source) (parse_tokens-IsFuelled tokens)
        (checked-IsFuelled source)))
