-- ===== src/Template/Pieces.antt =====
-- Templates as sequences of pieces, and what interpolation makes of them.
use glidesh.Common.{
  glue, ℕ, zero, suc, ◌≤◌, ◌≡◌, refl, ◌∙◌, String, List, [], ◌∷◌, arith, Result, ok, err, ◌>>=◌,
  GlideshError, ◌==◌, All,
}
use glidesh.Common.Dict.{Dict, get}
use glidesh.Condition.Lexer.{peek_is, tail, size}
use glidesh.Condition.RoundTrip.Print.{Without}
use glidesh.Condition.RoundTrip.Lexing.{read_until-glue, size-glue}
use glidesh.Template.{at_dollar, interpolate_from, interpolate, lookup_var}

-- Text as it is, an escaped `${`, and a reference to a variable.
pub data Piece : Type 0 where
  plain : String → Piece
  brace : Piece
  ref : String → Piece

-- The template that a piece is written as, before the rest of the template.
abbrev write : Piece → String → String
write (plain s) rest = glue s rest
write brace rest = String.◌∷◌ "$" (String.◌∷◌ "$" (String.◌∷◌ "{" rest))
write (ref name) rest = String.◌∷◌ "$" (String.◌∷◌ "{" (glue name (String.◌∷◌ "}" rest)))

abbrev pub template : List Piece → String
template [] = ""
template (p ∷ ps) = write p (template ps)

-- What each piece stands for, the first variable that is not defined being the error.
abbrev value : Piece → Dict String → Result GlideshError String
value (plain s) vars = ok s
value brace vars = ok "${"
value (ref name) vars = lookup_var (get vars name) name

abbrev pub substitute : List Piece → Dict String → Result GlideshError String
substitute [] vars = ok ""
substitute (p ∷ ps) vars = do v ← value p vars; rest ← substitute ps vars; ok (glue v rest)

abbrev pub IsPlainPiece : Piece → Type 0
IsPlainPiece (plain s) = Without (λ c. c == b'$') s
IsPlainPiece brace = Unit
IsPlainPiece (ref name) = Without (λ c. c == b'}') name

at_dollar-ref :
    (vars : Dict String) (name rest : String)
    → Without (λ c. c == b'}') name
    → at_dollar vars (String.◌∷◌ "{" (glue name (String.◌∷◌ "}" rest)))
      ≡ (lookup_var (get vars name) name >>= λ v. ok (v, rest))
unfolding at_dollar peek_is tail
at_dollar-ref vars name rest h = rw (read_until-glue b'}' name "}" rest h refl, at_dollar) refl

>>=-assoc :
    {A B C : Type 0} (r : Result GlideshError A) (f : A → Result GlideshError B)
    (g : B → Result GlideshError C)
    → ((r >>= f) >>= g) ≡ (r >>= λ a. f a >>= g)
>>=-assoc (ok a) f g = refl
>>=-assoc (err e) f g = refl

>>=-empty : (r : Result GlideshError String) → r ≡ (r >>= λ t. ok (glue "" t))
>>=-empty (ok t) = refl
>>=-empty (err e) = refl

interpolate_from-plain :
    (vars : Dict String) (s rest : String) (r : Result GlideshError String) (fuel : ℕ)
    → Without (λ c. c == b'$') s
    → size (glue s rest) ≤ fuel
    → ((g : ℕ) → size rest ≤ g → interpolate_from g vars rest ≡ r)
    → interpolate_from fuel vars (glue s rest) ≡ (r >>= λ t. ok (glue s t))
unfolding interpolate_from size
interpolate_from-plain vars String.[] rest r fuel h le ih = ih fuel le ∙ >>=-empty r
interpolate_from-plain vars (String.◌∷◌ c s) rest r zero h le ih = absurd (omega arith)
interpolate_from-plain vars (String.◌∷◌ c s) rest r (suc fuel) h le ih =
    rw (h.0, interpolate_from, interpolate_from-plain vars s rest r fuel h.1 (omega arith) ih)
      (>>=-assoc r (λ t. ok (glue s t)) (λ t. ok (String.◌∷◌ c t)))

-- A piece before a template that interpolates to `r`.
interpolate_from-write :
    (vars : Dict String) (p : Piece) (rest : String) (r : Result GlideshError String) (fuel : ℕ)
    → IsPlainPiece p
    → size (write p rest) ≤ fuel
    → ((g : ℕ) → size rest ≤ g → interpolate_from g vars rest ≡ r)
    → interpolate_from fuel vars (write p rest) ≡ (value p vars >>= λ v. r >>= λ t. ok (glue v t))
unfolding interpolate_from at_dollar peek_is tail size
interpolate_from-write vars (plain s) rest r fuel h le ih =
    interpolate_from-plain vars s rest r fuel h le ih
interpolate_from-write vars brace rest r zero h le ih = absurd (omega arith)
interpolate_from-write vars (ref name) rest r zero h le ih = absurd (omega arith)
interpolate_from-write vars brace rest r (suc fuel) h le ih = rw (ih fuel (omega arith)) refl
interpolate_from-write vars (ref name) rest r (suc fuel) h le ih =
    rw (at_dollar-ref vars name rest h) (
      >>=-assoc (lookup_var (get vars name) name) (λ v. ok (v, rest))
        (λ w. interpolate_from fuel vars w.1 >>= λ t. ok (glue w.0 t))
      ∙ rw (ih fuel (omega (arith, size-glue name (String.◌∷◌ "}" rest)))) refl)

interpolate_from-template :
    (vars : Dict String) (ps : List Piece) (fuel : ℕ)
    → All IsPlainPiece ps
    → size (template ps) ≤ fuel
    → interpolate_from fuel vars (template ps) ≡ substitute ps vars
unfolding interpolate_from
interpolate_from-template vars [] zero h le = refl
interpolate_from-template vars [] (suc fuel) h le = refl
interpolate_from-template vars (p ∷ ps) fuel h le =
    interpolate_from-write vars p (template ps) (substitute ps vars) fuel h.0 le
      (λ g le'. interpolate_from-template vars ps g h.1 le')

-- A template written from texts without `$`, escaped `${` and references whose names have no `}`
-- interpolates to the texts, `${` and the values of the variables in order, or fails on the
-- first variable that is not defined.
pub interpolate-template :
    (ps : List Piece) (vars : Dict String)
    → All IsPlainPiece ps
    → interpolate (template ps) vars ≡ substitute ps vars
unfolding interpolate size
interpolate-template ps vars h =
    interpolate_from-template vars ps (size (template ps)) h (omega arith)
