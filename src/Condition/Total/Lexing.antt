-- ===== src/Condition/Total/Lexing.antt =====
-- A round of the tokenizer takes a character at least, so the text's characters are enough fuel.
use Prim.Native.Char.{Char, code}
use glidesh.Common.{
  ℕ, zero, suc, ◌≤◌, ◌≡◌, String, false, Option, none, some, List, arith, Result, ok, err, ◌>>=◌,
}
use glidesh.Condition.Syntax.{ParseError, message, out_of_fuel}
use glidesh.Condition.Lexer.{
  Token, is_whitespace, is_special, read_until, read_word, tail, read_var, read_quoted,
  read_operator, next_token, tokenize_from, size, tokenize, push,
}

-- A round that succeeds leaves at most `n` characters, and no round runs out of fuel.
abbrev Leaves : ℕ → Result ParseError (Option Token × String) → Type 0
Leaves n (ok (t, r)) = size r ≤ n
Leaves n (err (message m)) = Unit
Leaves n (err out_of_fuel) = ⊥

Leaves-le :
    (m n : ℕ) (r : Result ParseError (Option Token × String)) → m ≤ n → Leaves m r → Leaves n r
Leaves-le m n (ok (t, s)) le h = omega arith
Leaves-le m n (err (message e)) le h = tt
Leaves-le m n (err out_of_fuel) le h = h

abbrev pub Shorter : ℕ → Option (String × String) → Type 0
Shorter n none = Unit
Shorter n (some (name, after)) = size after ≤ n

pub read_until-Shorter : (close : ℕ) (s : String) → Shorter (size s) (read_until close s)
unfolding read_until size
read_until-Shorter close String.[] = tt
read_until-Shorter close (String.◌∷◌ c s) = ground (arith, read_until-Shorter close s)

pub size-tail : (s : String) → size (tail s) ≤ size s
unfolding tail size
size-tail String.[] = omega arith
size-tail (String.◌∷◌ c s) = omega arith

size-read_word : (s : String) → size (read_word s).1 ≤ size s
unfolding read_word size
size-read_word String.[] = omega arith
size-read_word (String.◌∷◌ c s) = ground (arith, size-read_word s)

read_var-Leaves : (s : String) → Leaves (size s) (read_var s)
unfolding read_var
read_var-Leaves s = ground (arith, size-tail s, read_until-Shorter b'}' (tail s))

read_quoted-Leaves : (s : String) → Leaves (size s) (read_quoted s)
unfolding read_quoted
read_quoted-Leaves s = ground (arith, read_until-Shorter 39 s)

read_operator-Leaves : (c : ℕ) (s : String) → Leaves (size s) (read_operator c s)
unfolding read_operator
read_operator-Leaves c s = ground (arith, size-tail s)

read_word-Leaves :
    (c : Char) (s : String)
    → is_whitespace (code c) ≡ false
    → is_special (code c) ≡ false
    → size (read_word (String.◌∷◌ c s)).1 ≤ size s
unfolding read_word
read_word-Leaves c s w p = ground (arith, size-read_word s)

pub next_token-Leaves : (c : Char) (s : String) → Leaves (size s) (next_token c s)
unfolding next_token
next_token-Leaves c s = ground (
  arith,
  read_var-Leaves s,
  read_quoted-Leaves s,
  read_operator-Leaves (code c) s,
  read_word-Leaves c s,
)

abbrev pub IsFuelled {ℓ} : {A : Type ℓ} → Result ParseError A → Type 0
IsFuelled (err out_of_fuel) = ⊥
IsFuelled (err (message m)) = Unit
IsFuelled (ok a) = Unit

push-IsFuelled :
    (t : Option Token) (r : Result ParseError (List Token))
    → IsFuelled r
    → IsFuelled (r >>= λ ts. ok (push t ts))
push-IsFuelled t (ok ts) h = tt
push-IsFuelled t (err (message m)) h = tt
push-IsFuelled t (err out_of_fuel) h = h

round-IsFuelled :
    (fuel : ℕ) (round : Result ParseError (Option Token × String))
    → Leaves fuel round
    → ((s : String) → size s ≤ fuel → IsFuelled (tokenize_from fuel s))
    → IsFuelled (round >>= λ r. tokenize_from fuel r.1 >>= λ ts. ok (push r.0 ts))
round-IsFuelled fuel (ok (t, s)) h rec = push-IsFuelled t (tokenize_from fuel s) (rec s h)
round-IsFuelled fuel (err (message m)) h rec = tt
round-IsFuelled fuel (err out_of_fuel) h rec = h

tokenize_from-IsFuelled : (fuel : ℕ) (s : String) → size s ≤ fuel → IsFuelled (tokenize_from fuel s)
unfolding tokenize_from size
tokenize_from-IsFuelled zero String.[] h = tt
tokenize_from-IsFuelled (suc fuel) String.[] h = tt
tokenize_from-IsFuelled zero (String.◌∷◌ c s) h = absurd (omega arith)
tokenize_from-IsFuelled (suc fuel) (String.◌∷◌ c s) h =
    round-IsFuelled fuel (next_token c s)
      (Leaves-le (size s) fuel (next_token c s) (omega arith) (next_token-Leaves c s))
      (tokenize_from-IsFuelled fuel)

-- The tokenizer never runs out of fuel.
pub tokenize-IsFuelled : (s : String) → IsFuelled (tokenize s)
unfolding tokenize
tokenize-IsFuelled s = tokenize_from-IsFuelled (size s) s (omega arith)
