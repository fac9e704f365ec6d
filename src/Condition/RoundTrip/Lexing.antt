-- ===== src/Condition/RoundTrip/Lexing.antt =====
-- The tokenizer reads printed tokens back.
use Prim.Native.Char.{Char, code}
use glidesh.Common.{
  glue, ◌+◌, ℕ, zero, suc, ◌≤◌, String, true, false, ◌≡◌, refl, some, List, [], ◌∷◌, arith, Result,
  ok, err, ◌>>=◌, ◌==◌, str_eq, All,
}
use glidesh.Condition.Syntax.{ParseError}
use glidesh.Condition.Lexer.{
  Token, is_whitespace, is_special, read_until, read_word, peek_is, tail, read_var, read_quoted,
  read_operator, next_token, tokenize_from, size,
}
use glidesh.Condition.RoundTrip.Print.{
  show_token, print_tokens, Without, ends_word, IsPrintableToken,
}

pub read_until-glue :
    (q : ℕ) (s : String) (c : Char) (r : String)
    → Without (λ x. x == q) s
    → (code c == q) ≡ true
    → read_until q (glue s (String.◌∷◌ c r)) ≡ some (s, r)
unfolding read_until
read_until-glue q String.[] c r h e = rw e refl
read_until-glue q (String.◌∷◌ d s) c r h e = rw (h.0, read_until-glue q s c r h.1 e) refl

read_word-glue :
    (w r : String)
    → Without ends_word w
    → read_word (glue w (String.◌∷◌ " " r)) ≡ (w, String.◌∷◌ " " r)
unfolding read_word is_whitespace is_special
read_word-glue String.[] r h = refl
read_word-glue (String.◌∷◌ c w) r h = ground (arith, read_word-glue w r h.1)

-- Reading a printed token: what a round gives on the text, which is not empty.
abbrev Reads : Token → String → String → Type 0
Reads t r String.[] = ⊥
Reads t r (String.◌∷◌ c s) = (next_token c s ≡ ok (some t, r)) × (size r ≤ size s)

pub size-glue : (s r : String) → size (glue s r) ≡ size s + size r
unfolding size
size-glue String.[] r = omega arith
size-glue (String.◌∷◌ c s) r = omega (arith, size-glue s r)

read_quoted-glue :
    (s r : String)
    → Without (λ c. c == 39) s
    → read_quoted (glue s (String.◌∷◌ "'" r)) ≡ ok (some (Token.quoted s), r)
unfolding read_quoted
read_quoted-glue s r h = rw (read_until-glue 39 s "'" r h refl, read_quoted) refl

read_var-glue :
    (v r : String)
    → str_eq v "" ≡ false
    → Without (λ c. c == b'}') v
    → read_var (String.◌∷◌ "{" (glue v (String.◌∷◌ "}" r))) ≡ ok (some (Token.var v), r)
unfolding read_var
read_var-glue v r e h = rw (read_until-glue b'}' v "}" r h refl, e, read_var) refl

plain_char :
    (k : ℕ)
    → ends_word k ≡ false
    → (is_whitespace k ≡ false)
      × ((k == b'$') ≡ false)
      × ((k == 39) ≡ false)
      × (is_special k ≡ false)
unfolding is_special
plain_char k h = ground arith

next_token-word :
    (c : Char) (w r : String)
    → Without ends_word (String.◌∷◌ c w)
    → next_token c (glue w (String.◌∷◌ " " r))
      ≡ ok (some (Token.word (String.◌∷◌ c w)), String.◌∷◌ " " r)
unfolding next_token
next_token-word c w r h =
    let p = plain_char (code c) h.0 in
    rw (p.0, p.1, p.2, p.3, read_word-glue (String.◌∷◌ c w) r h, next_token) refl

show_token-Reads :
    (t : Token) (r : String)
    → IsPrintableToken t
    → Reads t (String.◌∷◌ " " r) (show_token t (String.◌∷◌ " " r))
unfolding next_token read_operator peek_is tail is_whitespace is_special size
show_token-Reads (Token.var v) r h = (
  read_var-glue v (String.◌∷◌ " " r) h.0 h.1,
  omega (arith, size-glue v (String.◌∷◌ "}" (String.◌∷◌ " " r))),
)
show_token-Reads (Token.quoted s) r h = (
  read_quoted-glue s (String.◌∷◌ " " r) h,
  omega (arith, size-glue s (String.◌∷◌ "'" (String.◌∷◌ " " r))),
)
show_token-Reads (Token.word String.[]) r h = absurd (cc (h.0))
show_token-Reads (Token.word (String.◌∷◌ c w)) r h =
    (next_token-word c w r h.1, omega (arith, size-glue w (String.◌∷◌ " " r)))
show_token-Reads Token.eq r h = (refl, omega arith)
show_token-Reads Token.ne r h = (refl, omega arith)
show_token-Reads Token.and r h = (refl, omega arith)
show_token-Reads Token.or r h = (refl, omega arith)
show_token-Reads Token.not r h = (refl, omega arith)

>>=-ok : (r : Result ParseError (List Token)) → (r >>= λ ts. ok ts) ≡ r
>>=-ok (ok ts) = refl
>>=-ok (err e) = refl

space_round : (f : ℕ) (r : String) → tokenize_from (suc f) (String.◌∷◌ " " r) ≡ tokenize_from f r
unfolding tokenize_from next_token is_whitespace
space_round f r = >>=-ok (tokenize_from f r)

-- A printed token with its space, before a text that reads as `ts`.
read_printed :
    (t : Token) (r text : String) (ts : List Token) (f : ℕ)
    → Reads t (String.◌∷◌ " " r) text
    → size text ≤ f
    → ((g : ℕ) → size r ≤ g → tokenize_from g r ≡ ok ts)
    → tokenize_from f text ≡ ok (t ∷ ts)
unfolding tokenize_from size
read_printed t r String.[] ts f h le ih = absurd h
read_printed t r (String.◌∷◌ c s) ts zero h le ih = absurd (omega arith)
read_printed t r (String.◌∷◌ c s) ts (suc zero) h le ih = absurd (omega arith)
read_printed t r (String.◌∷◌ c s) ts (suc (suc f)) h le ih =
    rw (h.0, space_round f r, ih f (omega arith)) refl

-- Printed tokens are read back, on any fuel that the characters do not exceed.
pub tokenize_from-print :
    (ts : List Token) (fuel : ℕ)
    → All IsPrintableToken ts
    → size (print_tokens ts) ≤ fuel
    → tokenize_from fuel (print_tokens ts) ≡ ok ts
unfolding tokenize_from
tokenize_from-print [] zero h le = refl
tokenize_from-print [] (suc fuel) h le = refl
tokenize_from-print (t ∷ ts) fuel h le =
    read_printed t (print_tokens ts) (show_token t (String.◌∷◌ " " (print_tokens ts))) ts fuel
      (show_token-Reads t (print_tokens ts) h.0) le (λ g le'. tokenize_from-print ts g h.1 le')
