-- ===== src/Condition/Agreement.antt =====
-- When the real run's answer to a condition is compatible with a preview's, and what a round of
-- the loops of `eval` makes of compatible answers.
use glidesh.Common.{String, Option, none, some, Result, ok, err}
use glidesh.Condition.Eval.{
  Outcome, is_true, is_false, undetermined, first_unknown, on_error, all_round, any_round,
}

-- What the real run may answer, given the preview's answer: the same, or an error; anything
-- definite where the preview is undetermined; an error where the preview has one.
abbrev pub Agrees : Result String Outcome → Result String Outcome → Type 0
Agrees (err e) (err e') = Unit
Agrees (err e) (ok _) = ⊥
Agrees (ok _) (ok (undetermined v)) = ⊥
Agrees (ok (undetermined v)) _ = Unit
Agrees (ok is_true) (ok is_false) = ⊥
Agrees (ok is_false) (ok is_true) = ⊥
Agrees _ _ = Unit

-- Once a variable is unknown, a loop ends undetermined or with the outcome that ends it early.
abbrev pub IsOpen : Outcome → Result String Outcome → Type 0
IsOpen ends (ok (undetermined v)) = Unit
IsOpen is_true (ok is_true) = Unit
IsOpen is_false (ok is_false) = Unit
IsOpen _ _ = ⊥

Agrees-err : (r : Result String Outcome) (e : String) → Agrees r (err e)
Agrees-err (err _) e = tt
Agrees-err (ok is_true) e = tt
Agrees-err (ok is_false) e = tt
Agrees-err (ok (undetermined v)) e = tt

Agrees-is_true : (r : Result String Outcome) → IsOpen is_true r → Agrees r (ok is_true)
Agrees-is_true (ok is_true) h = tt
Agrees-is_true (ok (undetermined v)) h = tt
Agrees-is_true (ok is_false) h = h
Agrees-is_true (err e) h = h

Agrees-is_false : (r : Result String Outcome) → IsOpen is_false r → Agrees r (ok is_false)
Agrees-is_false (ok is_false) h = tt
Agrees-is_false (ok (undetermined v)) h = tt
Agrees-is_false (ok is_true) h = h
Agrees-is_false (err e) h = h

-- One round of each loop, over any rest.
pub all_round-IsOpen :
    (v : String) (t : Result String Outcome) (rest : Option String → Result String Outcome)
    → ((v : String) → IsOpen is_false (rest (some v)))
    → IsOpen is_false (all_round (some v) t rest)
all_round-IsOpen v (ok is_false) rest opened = tt
all_round-IsOpen v (ok is_true) rest opened = opened v
all_round-IsOpen v (ok (undetermined u)) rest opened = opened v
all_round-IsOpen v (err e) rest opened = tt

pub any_round-IsOpen :
    (v : String) (t : Result String Outcome) (rest : Option String → Result String Outcome)
    → ((v : String) → IsOpen is_true (rest (some v)))
    → IsOpen is_true (any_round (some v) t rest)
any_round-IsOpen v (ok is_true) rest opened = tt
any_round-IsOpen v (ok is_false) rest opened = opened v
any_round-IsOpen v (ok (undetermined u)) rest opened = opened v
any_round-IsOpen v (err e) rest opened = tt

module _ (rest rest' : Option String → Result String Outcome)
    (agrees : (seen : Option String) → Agrees (rest seen) (rest' none)) where
  pub all_round-Agrees :
      (seen : Option String) (t t' : Result String Outcome)
      → ((v : String) → IsOpen is_false (rest (some v)))
      → Agrees t t'
      → Agrees (all_round seen t rest) (all_round none t' rest')
  all_round-Agrees seen (ok is_false) (ok is_false) opened h = tt
  all_round-Agrees seen (ok is_false) (err e) opened h = tt
  all_round-Agrees seen (ok is_true) (ok is_true) opened h = agrees seen
  all_round-Agrees seen (ok is_true) (err e) opened h = Agrees-err (rest seen) e
  all_round-Agrees seen (ok (undetermined v)) (ok is_true) opened h = agrees (first_unknown seen v)
  all_round-Agrees none (ok (undetermined v)) (ok is_false) opened h =
      Agrees-is_false (rest (some v)) (opened v)
  all_round-Agrees (some u) (ok (undetermined v)) (ok is_false) opened h =
      Agrees-is_false (rest (some u)) (opened u)
  all_round-Agrees seen (ok (undetermined v)) (err e) opened h =
      Agrees-err (rest (first_unknown seen v)) e
  all_round-Agrees seen (err e) (err e') opened h = Agrees-err (on_error seen e) e'
  all_round-Agrees seen t t' opened h = absurd h

  pub any_round-Agrees :
      (seen : Option String) (t t' : Result String Outcome)
      → ((v : String) → IsOpen is_true (rest (some v)))
      → Agrees t t'
      → Agrees (any_round seen t rest) (any_round none t' rest')
  any_round-Agrees seen (ok is_true) (ok is_true) opened h = tt
  any_round-Agrees seen (ok is_true) (err e) opened h = tt
  any_round-Agrees seen (ok is_false) (ok is_false) opened h = agrees seen
  any_round-Agrees seen (ok is_false) (err e) opened h = Agrees-err (rest seen) e
  any_round-Agrees seen (ok (undetermined v)) (ok is_false) opened h = agrees (first_unknown seen v)
  any_round-Agrees none (ok (undetermined v)) (ok is_true) opened h =
      Agrees-is_true (rest (some v)) (opened v)
  any_round-Agrees (some u) (ok (undetermined v)) (ok is_true) opened h =
      Agrees-is_true (rest (some u)) (opened u)
  any_round-Agrees seen (ok (undetermined v)) (err e) opened h =
      Agrees-err (rest (first_unknown seen v)) e
  any_round-Agrees seen (err e) (err e') opened h = Agrees-err (on_error seen e) e'
  any_round-Agrees seen t t' opened h = absurd h
