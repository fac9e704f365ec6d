-- ===== src/Template/Fuel.antt =====
-- A round of `interpolate` takes a character at least, so the template's characters are enough
-- fuel: more changes nothing.
use Prim.Native.Char.{code}
use glidesh.Common.{
  glue, ℕ, zero, suc, ◌≤◌, ◌≡◌, refl, String, arith, inl, inr, Result, ok, err, ◌>>=◌, GlideshError,
  ◌==◌, Bool-cases,
}
use glidesh.Common.Dict.{Dict}
use glidesh.Condition.Lexer.{tail, size}
use glidesh.Condition.Total.Lexing.{read_until-Shorter, size-tail}
use glidesh.Template.{at_dollar, interpolate_from, interpolate}

abbrev Leaves : ℕ → Result GlideshError (String × String) → Type 0
Leaves n (ok (v, rest)) = size rest ≤ n
Leaves n (err e) = Unit

at_dollar-Leaves : (vars : Dict String) (s : String) → Leaves (size s) (at_dollar vars s)
unfolding at_dollar
at_dollar-Leaves vars s =
    ground (arith, size-tail s, size-tail (tail s), read_until-Shorter b'}' (tail s))

same_rest :
    (r : Result GlideshError (String × String)) (n : ℕ)
    (k l : String × String → Result GlideshError String)
    → Leaves n r
    → ((w : String × String) → size w.1 ≤ n → k w ≡ l w)
    → (r >>= k) ≡ (r >>= l)
same_rest (ok w) n k l h e = e w h
same_rest (err e) n k l h eq = refl

interpolate_from-fuel :
    (s : String) (f g : ℕ) (vars : Dict String)
    → size s ≤ f
    → size s ≤ g
    → interpolate_from f vars s ≡ interpolate_from g vars s
unfolding interpolate_from size
interpolate_from-fuel String.[] zero zero vars le le' = refl
interpolate_from-fuel String.[] zero (suc g) vars le le' = refl
interpolate_from-fuel String.[] (suc f) zero vars le le' = refl
interpolate_from-fuel String.[] (suc f) (suc g) vars le le' = refl
interpolate_from-fuel (String.◌∷◌ c s) zero g vars le le' = absurd (omega arith)
interpolate_from-fuel (String.◌∷◌ c s) (suc f) zero vars le le' = absurd (omega arith)
interpolate_from-fuel (String.◌∷◌ c s) (suc f) (suc g) vars le le' =
    elim (Bool-cases (code c == b'$')) [
      | inl e ↦
          rw (e, interpolate_from)
            (same_rest (at_dollar vars s) (size s)
              (λ w. interpolate_from f vars w.1 >>= λ rest. ok (glue w.0 rest))
              (λ w. interpolate_from g vars w.1 >>= λ rest. ok (glue w.0 rest))
              (at_dollar-Leaves vars s)
              (λ w h. rw (interpolate_from-fuel w.1 f g vars (omega arith) (omega arith)) refl))
      | inr e ↦
          rw (e, interpolate_from, interpolate_from-fuel s f g vars (omega arith) (omega arith))
            refl
    ]

-- Every fuel that is at least the characters of the template gives the result of `interpolate`:
-- it never stops for want of fuel.
pub interpolate_from-enough :
    (s : String) (fuel : ℕ) (vars : Dict String)
    → size s ≤ fuel
    → interpolate_from fuel vars s ≡ interpolate s vars
unfolding interpolate
interpolate_from-enough s fuel vars le = interpolate_from-fuel s fuel (size s) vars le (omega arith)
