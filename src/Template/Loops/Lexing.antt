-- ===== src/Template/Loops/Lexing.antt =====
-- The lexer on the parts of a template.
use Prim.Native.Char.{Char, code}
use glidesh.Common.{
  ℕ, zero, suc, ◌+◌, ◌-◌, ◌≡◌, refl, ap, sym, ◌∙◌, arith, String, false, ◌==◌, glue, size,
}
use glidesh.Common.Chars.{strip_prefix}
use glidesh.Condition.Lexer.{read_until}
use glidesh.Condition.RoundTrip.Print.{Without}
use glidesh.Condition.RoundTrip.Lexing.{read_until-glue, size-glue}
use glidesh.Template.Lexer.{Token, At, plain, tag, found_at, inner_token, add, name_of, lex_from}
use glidesh.Template.Loops.Slices.{glue_assoc}
use glidesh.Template.Loops.{tagged}

-- What is skipped makes no token.
pub lex_from-skip :
    (s rest : String) (k at : ℕ)
    → k ≡ size s
    → lex_from k at (glue s rest) ≡ lex_from zero (at + size s) rest
unfolding lex_from size
lex_from-skip String.[] rest zero at e = ap (λ n. lex_from zero n rest) (omega arith)
lex_from-skip String.[] rest (suc k) at e = absurd (omega arith)
lex_from-skip (String.◌∷◌ c s) rest zero at e = absurd (omega arith)
lex_from-skip (String.◌∷◌ c s) rest (suc k) at e =
    lex_from-skip s rest k (at + 1) (omega arith) ∙ ap (λ n. lex_from zero n rest) (omega arith)

found_at-plain :
    (c : Char) (s : String) → (code c == b'$') ≡ false → found_at (String.◌∷◌ c s) ≡ plain
unfolding found_at strip_prefix
found_at-plain c s h = ground arith

pub lex_from-plain :
    (s rest : String) (at : ℕ)
    → Without (λ c. c == b'$') s
    → lex_from zero at (glue s rest) ≡ lex_from zero (at + size s) rest
unfolding lex_from size
lex_from-plain String.[] rest at h = ap (λ n. lex_from zero n rest) (omega arith)
lex_from-plain (String.◌∷◌ c s) rest at h =
    rw (found_at-plain c (glue s rest) h.0, lex_from)
      (lex_from-plain s rest (at + 1) h.1 ∙ ap (λ n. lex_from zero n rest) (omega arith))

found_at-tagged :
    (inner rest : String)
    → Without (λ c. c == b'}') inner
    → found_at (tagged inner rest) ≡ tag (2 + size inner + 1) (inner_token inner)
unfolding found_at strip_prefix
found_at-tagged inner rest h = rw (read_until-glue b'}' inner "}" rest h refl, found_at) refl

pub lex_from-tagged :
    (inner rest : String) (at : ℕ)
    → Without (λ c. c == b'}') inner
    → lex_from zero at (tagged inner rest)
      ≡ add
          (record { at = at; len = 2 + size inner + 1; token = inner_token inner })
          (lex_from zero (at + (2 + size inner + 1)) rest)
unfolding lex_from size
lex_from-tagged inner rest at h =
    let body = String.◌∷◌ "{" (glue inner "}") in
    let first : At = record { at = at; len = 2 + size inner + 1; token = inner_token inner } in
    let here : lex_from (2 + size inner + 1 - 1) (at + 1) (glue body rest)
        ≡ lex_from zero (at + (2 + size inner + 1)) rest =
      lex_from-skip body rest (2 + size inner + 1 - 1) (at + 1) (omega (arith, size-glue inner "}"))
      ∙ ap (λ n. lex_from zero n rest) (omega (arith, size-glue inner "}")) in
    rw (found_at-tagged inner rest h, lex_from)
      (ap (λ t. add first (lex_from (2 + size inner + 1 - 1) (at + 1) (String.◌∷◌ "{" t)))
          (sym (glue_assoc inner "}" rest))
        ∙ ap (add first) here)

pub lex_from-brace :
    (rest : String) (at : ℕ)
    → lex_from zero at (glue "$${" rest)
      ≡ add
          (record { at = at; len = 3; token = Token.escaped (name_of (read_until b'}' rest)) })
          (lex_from zero (at + 3) rest)
unfolding lex_from found_at strip_prefix
lex_from-brace rest at =
    ap
      (λ n.
        add (record { at = at; len = 3; token = Token.escaped (name_of (read_until b'}' rest)) })
          (lex_from zero n rest))
      (omega arith)
