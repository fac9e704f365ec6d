-- ===== src/Condition/Examples.antt =====
-- Conditions of the tests of config/condition.rs, and the theorems at concrete conditions.
use glidesh.Common.{◌≡◌, refl, true, false, List, [], ◌∷◌, arith, eq_iff, ok, err}
use glidesh.Common.Dict.{get, has}
use glidesh.Condition.Syntax.{
  var, literal, eq, defined, compare, Term, Condition, variables, message,
}
use glidesh.Condition.Lexer.{tokenize}
use glidesh.Condition.Parser.{parse}
use glidesh.Condition.Eval.{Scope, is_true, eval}
use glidesh.Condition.Agreement.{Agrees}
use glidesh.Condition.Preview.{Completes, eval-preview}
use glidesh.Condition.Total.{IsFuelled, parse-IsFuelled}
use glidesh.Condition.RoundTrip.{print, parse-print}

abbrev ready : Term
ready = record { negated = false; atom = compare (var "x") eq (literal "ready") }

abbrev guarded : Term
guarded = record { negated = true; atom = defined "y" }

abbrev cond : Condition
cond = record {
  source = "${x} == ready || !defined ${y}";
  any = (ready ∷ []) ∷ (guarded ∷ []) ∷ [];
}

parsed : parse "${x} == ready || !defined ${y}" ≡ ok cond
unfolding parse tokenize
parsed = refl

not_an_operator :
    parse "${x} = 1" ≡ err (message "invalid when=\"${x} = 1\": '=' is not an operator; use '=='")
unfolding parse tokenize
not_an_operator = refl

abbrev preview : Scope
preview = record { vars = ("x", "") ∷ []; collections = []; unknown = "x" ∷ [] }

abbrev real : Scope
real = record { vars = ("x", "ready") ∷ []; collections = []; unknown = [] }

settled_later : eval cond preview ≡ ok is_true
unfolding eval get has
settled_later = refl

preview-real : Completes preview real
unfolding get has
preview-real = record {
  same_value = λ v h. ground (arith, eq_iff "x" v);
  still_defined = λ v h k. ground (arith, eq_iff "x" v);
  same_collections = refl;
  all_known = refl;
}

eval-preview_example : Agrees (eval cond preview) (eval cond real)
eval-preview_example = eval-preview cond preview real preview-real

parse-IsFuelled_example : IsFuelled (parse "${x} == 'a")
parse-IsFuelled_example = parse-IsFuelled "${x} == 'a"

abbrev one_term : Term × List Term
one_term = (ready, [])

parse-print_example :
    parse (print one_term ((guarded, []) ∷ []))
    ≡ ok (record {
      source = print one_term ((guarded, []) ∷ []);
      any = (ready ∷ []) ∷ (guarded ∷ []) ∷ [];
    })
unfolding variables
parse-print_example =
    parse-print one_term ((guarded, []) ∷ [])
      (((refl, (refl, tt)), (refl, (refl, (refl, (refl, (refl, tt)))))), tt)
      ((((refl, (refl, tt)), tt), tt)) refl
