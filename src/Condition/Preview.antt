-- ===== src/Condition/Preview.antt =====
-- What a preview's answer says of the real run, where every variable has its value.
use glidesh.Common.{
  String, Bool, true, false, ◌≡◌, refl, inl, inr, Option, none, some, List, [], ◌∷◌, arith, Result,
  ok, err, ◌≢◌, Bool-cases, ◌>>=◌, contains,
}
use glidesh.Common.Dict.{get, has}
use glidesh.Condition.Syntax.{Operand, Op, Atom, Term, Condition}
use glidesh.Condition.Eval.{
  Outcome, is_true, is_false, undetermined, Scope, is_defined, presence_unknown, value, known,
  is_truthy, op_holds, holds, verdict, eval_term, eval_all, eval_any, eval,
}
use glidesh.Condition.Agreement.{
  Agrees, IsOpen, all_round-IsOpen, any_round-IsOpen, all_round-Agrees, any_round-Agrees,
}

-- The variables of the real run: the preview's where it knows them, any value for the others; one
-- that a preview has as a placeholder is defined, and nothing is unknown.
pub record Completes (preview real : Scope) : Type 0 where
  pub same_value :
      (v : String) → contains preview.unknown v ≡ false → get real.vars v ≡ get preview.vars v
  pub still_defined :
      (v : String)
      → contains preview.unknown v ≡ true
      → has preview.vars v ≡ true
      → has real.vars v ≡ true
  pub same_collections : real.collections ≡ preview.collections
  pub all_known : real.unknown ≡ []

module _ (source : String) (preview real : Scope) (c : Completes preview real) where
  -- An operand that the preview can read has the same value; one it cannot may have any, or none.
  abbrev ValueAgrees :
      Result String (Result String String) → Result String (Result String String) → Type 0
  ValueAgrees (ok (ok s)) r = r ≡ ok (ok s)
  ValueAgrees (err e) r = r ≡ err e
  ValueAgrees (ok (err v)) (ok (err u)) = ⊥
  ValueAgrees (ok (err v)) _ = Unit

  known_real : (v : String) → contains real.unknown v ≡ false
  known_real v = rw c.all_known refl

  same_has : (v : String) → has real.collections v ≡ has preview.collections v
  same_has v = rw c.same_collections refl

  value-agrees : (o : Operand) → ValueAgrees (value source preview o) (value source real o)
  unfolding value has
  value-agrees (Operand.literal s) = refl
  value-agrees (Operand.var v) = elim (Bool-cases (contains preview.unknown v)) [
    | inl u ↦ ground (arith, known_real v)
    | inr k ↦ ground (arith, known_real v, c.same_value v k, same_has v)
  ]

  abbrev TruthAgrees :
      Result String (Result String Bool) → Result String (Result String Bool) → Type 0
  TruthAgrees (ok (ok b)) r = r ≡ ok (ok b)
  TruthAgrees (err e) (err e') = Unit
  TruthAgrees (err e) (ok _) = ⊥
  TruthAgrees (ok (err v)) (ok (err u)) = ⊥
  TruthAgrees (ok (err v)) _ = Unit

  presence-agrees :
      (v : String)
      → presence_unknown preview v ≡ false
      → (presence_unknown real v ≡ false) × (is_defined real v ≡ is_defined preview v)
  unfolding presence_unknown is_defined has
  presence-agrees v e = elim (Bool-cases (contains preview.unknown v)) [
    | inl u ↦ ground (arith, known_real v, same_has v, c.still_defined v u)
    | inr k ↦ ground (arith, known_real v, same_has v, c.same_value v k)
  ]

  presence_unknown-real : (v : String) → presence_unknown real v ≡ false
  unfolding presence_unknown
  presence_unknown-real v = rw (known_real v) refl

  compared-agrees :
      (op : Op) (x rx y ry : Result String (Result String String))
      → ValueAgrees x rx
      → ValueAgrees y ry
      → TruthAgrees
          (x >>= λ l. y >>= λ r. ok (known l (λ a. known r (λ b. ok (op_holds op a b)))))
          (rx >>= λ l. ry >>= λ r. ok (known l (λ a. known r (λ b. ok (op_holds op a b)))))
  compared-agrees op (err e) rx y ry h k = rw h tt
  compared-agrees op (ok (ok s)) rx (ok (ok t)) ry h k = rw (h, k) refl
  compared-agrees op (ok (ok s)) rx (err e) ry h k = rw (h, k) tt
  compared-agrees op (ok (ok s)) rx (ok (err v)) (ok (ok t)) h k = rw h tt
  compared-agrees op (ok (ok s)) rx (ok (err v)) (err e) h k = rw h tt
  compared-agrees op (ok (ok s)) rx (ok (err v)) (ok (err w)) h k = absurd k
  compared-agrees op (ok (err v)) (ok (err w)) y ry h k = absurd h
  compared-agrees op (ok (err v)) (ok (ok s)) (ok (ok t)) ry h k = rw k tt
  compared-agrees op (ok (err v)) (ok (ok s)) (err e) ry h k = rw k tt
  compared-agrees op (ok (err v)) (ok (ok s)) (ok (err u)) (ok (ok t)) h k = tt
  compared-agrees op (ok (err v)) (ok (ok s)) (ok (err u)) (err e) h k = tt
  compared-agrees op (ok (err v)) (ok (ok s)) (ok (err u)) (ok (err w)) h k = absurd k
  compared-agrees op (ok (err v)) (err e) (ok (ok t)) ry h k = tt
  compared-agrees op (ok (err v)) (err e) (err e') ry h k = tt
  compared-agrees op (ok (err v)) (err e) (ok (err u)) ry h k = tt

  truthy-agrees :
      (x rx : Result String (Result String String))
      → ValueAgrees x rx
      → TruthAgrees
          (x >>= λ s. ok (known s (λ a. ok (is_truthy a))))
          (rx >>= λ s. ok (known s (λ a. ok (is_truthy a))))
  truthy-agrees (err e) rx h = rw h tt
  truthy-agrees (ok (ok s)) rx h = rw h refl
  truthy-agrees (ok (err v)) (ok (ok s)) h = tt
  truthy-agrees (ok (err v)) (err e) h = tt
  truthy-agrees (ok (err v)) (ok (err u)) h = absurd h

  holds-agrees : (a : Atom) → TruthAgrees (holds source preview a) (holds source real a)
  unfolding holds
  holds-agrees (Atom.defined v) = elim (Bool-cases (presence_unknown preview v)) [
    | inl u ↦ rw (u, presence_unknown-real v) tt
    | inr k ↦ rw (k, (presence-agrees v k).0, (presence-agrees v k).1) refl
  ]
  holds-agrees (Atom.undefined v) = elim (Bool-cases (presence_unknown preview v)) [
    | inl u ↦ rw (u, presence_unknown-real v) tt
    | inr k ↦ rw (k, (presence-agrees v k).0, (presence-agrees v k).1) refl
  ]
  holds-agrees (Atom.truthy o) =
      truthy-agrees (value source preview o) (value source real o) (value-agrees o)
  holds-agrees (Atom.compare l op r) =
      compared-agrees op (value source preview l) (value source real l) (value source preview r)
        (value source real r) (value-agrees l) (value-agrees r)

  verdict-Agrees :
      (negated : Bool) (b b' : Result String (Result String Bool))
      → TruthAgrees b b'
      → Agrees (b >>= λ x. ok (verdict negated x)) (b' >>= λ x. ok (verdict negated x))
  verdict-Agrees n (ok (ok b)) b' h = rw h (decided n b)
    where
      decided : (n b : Bool) → Agrees (ok (verdict n (ok b))) (ok (verdict n (ok b)))
      decided true true = tt
      decided true false = tt
      decided false true = tt
      decided false false = tt
  verdict-Agrees n (ok (err v)) (ok (ok true)) h = decided n
    where
      decided : (n : Bool) → Agrees (ok (undetermined v)) (ok (verdict n (ok true)))
      decided true = tt
      decided false = tt
  verdict-Agrees n (ok (err v)) (ok (ok false)) h = decided n
    where
      decided : (n : Bool) → Agrees (ok (undetermined v)) (ok (verdict n (ok false)))
      decided true = tt
      decided false = tt
  verdict-Agrees n (ok (err v)) (err e) h = tt
  verdict-Agrees n (ok (err v)) (ok (err w)) h = absurd h
  verdict-Agrees n (err e) (err e') h = tt
  verdict-Agrees n (err e) (ok b) h = absurd h

  eval_term-Agrees : (t : Term) → Agrees (eval_term source preview t) (eval_term source real t)
  unfolding eval_term
  eval_term-Agrees t =
      verdict-Agrees t.negated (holds source preview t.atom) (holds source real t.atom)
        (holds-agrees t.atom)

  eval_all-IsOpen :
      (ts : List Term) (v : String) → IsOpen is_false (eval_all source preview ts (some v))
  unfolding eval_all
  eval_all-IsOpen [] v = tt
  eval_all-IsOpen (t ∷ ts) v =
      all_round-IsOpen v (eval_term source preview t) (eval_all source preview ts)
        (eval_all-IsOpen ts)

  eval_all-Agrees :
      (ts : List Term) (seen : Option String)
      → Agrees (eval_all source preview ts seen) (eval_all source real ts none)
  unfolding eval_all
  eval_all-Agrees [] none = tt
  eval_all-Agrees [] (some v) = tt
  eval_all-Agrees (t ∷ ts) seen =
      all_round-Agrees (eval_all source preview ts) (eval_all source real ts) (eval_all-Agrees ts)
        seen (eval_term source preview t) (eval_term source real t) (eval_all-IsOpen ts)
        (eval_term-Agrees t)

  eval_any-IsOpen :
      (any : List (List Term)) (v : String) → IsOpen is_true (eval_any source preview any (some v))
  unfolding eval_any
  eval_any-IsOpen [] v = tt
  eval_any-IsOpen (all ∷ any) v =
      any_round-IsOpen v (eval_all source preview all none) (eval_any source preview any)
        (eval_any-IsOpen any)

  eval_any-Agrees :
      (any : List (List Term)) (seen : Option String)
      → Agrees (eval_any source preview any seen) (eval_any source real any none)
  unfolding eval_any
  eval_any-Agrees [] none = tt
  eval_any-Agrees [] (some v) = tt
  eval_any-Agrees (all ∷ any) seen =
      any_round-Agrees (eval_any source preview any) (eval_any source real any)
        (eval_any-Agrees any) seen (eval_all source preview all none)
        (eval_all source real all none) (eval_any-IsOpen any) (eval_all-Agrees all none)

-- A preview never decides a condition against the real run: where it answers true or false, the
-- real run answers the same or stops with an error, where it has an error so has the real run,
-- and the real run itself is never undetermined.
pub eval-preview :
    (cond : Condition) (preview real : Scope)
    → Completes preview real
    → Agrees (eval cond preview) (eval cond real)
unfolding eval
eval-preview cond preview real c = eval_any-Agrees cond.source preview real c cond.any none

-- A condition is answered where nothing is unknown.
pub eval-undetermined :
    (cond : Condition) (scope : Scope) (v : String)
    → scope.unknown ≡ []
    → eval cond scope ≢ ok (undetermined v)
eval-undetermined cond scope v k e = go (eval cond scope) e (
    eval-preview cond scope scope (record {
      same_value = λ _ _. refl;
      still_defined = λ _ _ h. h;
      same_collections = refl;
      all_known = k;
    }))
  where
    go : (o : Result String Outcome) → o ≡ ok (undetermined v) → Agrees o o → ⊥
    go (ok is_true) h a = absurd (cc)
    go (ok is_false) h a = absurd (cc)
    go (ok (undetermined u)) h a = a
    go (err m) h a = absurd (cc)
