-- ===== src/Condition/Eval.antt =====
-- The evaluation of config/condition.rs.
use glidesh.Common.{
  String, Bool, ◌||◌, ◌&&◌, not, bool_eq, Option, none, some, List, [], ◌∷◌, if◌then◌else◌, Result,
  ok, err, ◌>>=◌, fmt, str_eq, contains,
}
use glidesh.Common.Dict.{Dict, get, has}
use glidesh.Condition.Syntax.{Operand, Op, Atom, Term, Condition}

pub data Outcome : Type 0 where
  is_true is_false : Outcome
  undetermined : String → Outcome

pub record Scope : Type 0 where
  pub vars : Dict String
  pub collections : Dict (List (Dict String))
  pub unknown : List String

unfoldable pub is_defined : Scope → String → Bool
unfolding has
is_defined scope v = has scope.vars v || has scope.collections v

unfoldable pub presence_unknown : Scope → String → Bool
unfolding has
presence_unknown scope v = contains scope.unknown v && not (has scope.vars v)

-- The closure `value`: an error, or a value, or (as the inner error) an unknown variable.
unfoldable pub value : String → Scope → Operand → Result String (Result String String)
unfolding fmt get has
value source scope (Operand.literal s) = ok (ok s)
value source scope (Operand.var v) =
    if contains scope.unknown v then ok (err v) else elim (get scope.vars v) [
      | some x ↦ ok (ok x)
      | none ↦
          if has scope.collections v
          then err (
              fmt (
                "'" ∷ v ∷ "' in when=\"" ∷ source
                ∷ "\" is a structured variable, which has no single value to compare — test it with `defined ${"
                ∷ v ∷ "}`" ∷ []))
          else err (
              fmt (
                "undefined variable '" ∷ v ∷ "' in when=\"" ∷ source
                ∷ "\" — guard it with `defined ${" ∷ v ∷ "} && ...`" ∷ []))
    ]

-- `!matches!(s.as_str(), "" | "false" | "0")`
abbrev pub is_truthy : String → Bool
is_truthy s = not (str_eq s "" || str_eq s "false" || str_eq s "0")

abbrev pub op_holds : Op → String → String → Bool
op_holds Op.eq l r = str_eq l r
op_holds Op.ne l r = not (str_eq l r)

-- An operand's value handed on, unless it is unknown.
abbrev pub known {ℓ} :
    {A : Type ℓ} → Result String String → (String → Result String A) → Result String A
known (ok s) f = f s
known (err v) f = err v

-- The `match` of `eval_term`; the inner error is the early return of `Undetermined`.
unfoldable pub holds : String → Scope → Atom → Result String (Result String Bool)
holds source scope (Atom.defined v) =
    if presence_unknown scope v then ok (err v) else ok (ok (is_defined scope v))
holds source scope (Atom.undefined v) =
    if presence_unknown scope v then ok (err v) else ok (ok (not (is_defined scope v)))
holds source scope (Atom.truthy o) = do
  s ← value source scope o
  ok (known s (λ x. ok (is_truthy x)))
holds source scope (Atom.compare l op r) = do
  x ← value source scope l
  y ← value source scope r
  ok (known x (λ a. known y (λ b. ok (op_holds op a b))))

abbrev pub verdict : Bool → Result String Bool → Outcome
verdict negated (ok b) = if bool_eq b negated then is_false else is_true
verdict negated (err v) = undetermined v

unfoldable pub eval_term : String → Scope → Term → Result String Outcome
eval_term source scope t = do b ← holds source scope t.atom; ok (verdict t.negated b)

-- `get_or_insert`.
abbrev pub first_unknown : Option String → String → Option String
first_unknown none v = some v
first_unknown (some u) v = some u

-- The loops of `eval_all` and `eval` differ in the outcome that ends them. A round gets what the
-- term or conjunction gave, and the rest of the loop as a function of the unknown variable so far.
abbrev pub on_error : Option String → String → Result String Outcome
on_error none e = err e
on_error (some v) e = ok (undetermined v)

abbrev pub all_round :
    Option String
    → Result String Outcome
    → (Option String → Result String Outcome)
    → Result String Outcome
all_round seen (ok is_false) rest = ok is_false
all_round seen (ok is_true) rest = rest seen
all_round seen (ok (undetermined v)) rest = rest (first_unknown seen v)
all_round seen (err e) rest = on_error seen e

abbrev pub any_round :
    Option String
    → Result String Outcome
    → (Option String → Result String Outcome)
    → Result String Outcome
any_round seen (ok is_true) rest = ok is_true
any_round seen (ok is_false) rest = rest seen
any_round seen (ok (undetermined v)) rest = rest (first_unknown seen v)
any_round seen (err e) rest = on_error seen e

abbrev pub at_end : Outcome → Option String → Outcome
at_end default none = default
at_end default (some v) = undetermined v

unfoldable pub eval_all : String → Scope → List Term → Option String → Result String Outcome
eval_all source scope [] seen = ok (at_end is_true seen)
eval_all source scope (t ∷ ts) seen =
    all_round seen (eval_term source scope t) (eval_all source scope ts)

unfoldable pub eval_any : String → Scope → List (List Term) → Option String → Result String Outcome
eval_any source scope [] seen = ok (at_end is_false seen)
eval_any source scope (all ∷ any) seen =
    any_round seen (eval_all source scope all none) (eval_any source scope any)

-- `Condition::eval`.
unfoldable pub eval : Condition → Scope → Result String Outcome
unfolding eval_any eval_all eval_term holds value is_defined presence_unknown
eval c scope = eval_any c.source scope c.any none
