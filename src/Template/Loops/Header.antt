-- ===== src/Template/Loops/Header.antt =====
-- The header of a loop, written and read back.
use Prim.Native.Char.{Char, code}
use glidesh.Common.{
  ℕ, ◌<◌, ◌≡◌, refl, ap, ◌∙◌, sym, arith, String, Bool, true, false, ◌||◌, Option, none, some, ◌∷◌,
  ◌==◌, glue, size,
}
use glidesh.Common.Chars.{
  is_whitespace, strip_prefix, starts_with, after_text, split_whitespace, starts_space,
}
use glidesh.Condition.RoundTrip.Print.{Without}
use glidesh.Condition.RoundTrip.Lexing.{read_until-glue, size-glue}
use glidesh.Template.Lexer.{Token, inner_token, for_header, for_with}
use glidesh.Template.Loops.Slices.{glue_assoc}
use glidesh.Template.Loops.{header, separator_text, IsWord, IsSeparator}

Without-glue : (p : ℕ → Bool) (s t : String) → Without p s → Without p t → Without p (glue s t)
Without-glue p String.[] t hs ht = ht
Without-glue p (String.◌∷◌ c s) t hs ht = (hs.0, Without-glue p s t hs.1 ht)

Without-le :
    (p q : ℕ → Bool) (s : String)
    → ((c : ℕ) → p c ≡ false → q c ≡ false)
    → Without p s
    → Without q s
Without-le p q String.[] f h = tt
Without-le p q (String.◌∷◌ c s) f h = (f (code c) h.0, Without-le p q s f h.1)

-- A word before white space, or at the end.
split_whitespace-glue :
    (c : Char) (w r : String)
    → Without (λ c. is_whitespace c) (String.◌∷◌ c w)
    → starts_space r ≡ true
    → split_whitespace (glue (String.◌∷◌ c w) r) ≡ String.◌∷◌ c w ∷ split_whitespace r
unfolding split_whitespace
split_whitespace-glue c String.[] r h e = rw (h.0, e) refl
split_whitespace-glue c (String.◌∷◌ d w) r h e =
    ground (arith, h.0, h.1.0, split_whitespace-glue d w r h.1 e)

abbrev not_in_word : ℕ → Bool
not_in_word k = is_whitespace k || k == b'}' || k == b'"'

split_whitespace-word :
    (w r : String)
    → IsWord w
    → starts_space r ≡ true
    → split_whitespace (glue w r) ≡ w ∷ split_whitespace r
split_whitespace-word String.[] r h e = absurd (cc (h.0))
split_whitespace-word (String.◌∷◌ c w) r h e =
    split_whitespace-glue c w r
      (Without-le not_in_word (λ k. is_whitespace k) (String.◌∷◌ c w) (λ k f. ground (arith, f))
        h.1)
      e

abbrev quote : String
quote = "\""

-- A text that ends in a quote does not open one whose first quote comes later.
strip_prefix-late :
    (p u x : String)
    → Without (λ c. c == b'"') u
    → size p < size u
    → strip_prefix (glue p quote) (glue u x) ≡ none
unfolding strip_prefix size
strip_prefix-late String.[] String.[] x h lt = absurd (omega arith)
strip_prefix-late String.[] (String.◌∷◌ e u) x h lt = ground (arith, h.0)
strip_prefix-late (String.◌∷◌ d p) String.[] x h lt = absurd (omega arith)
strip_prefix-late (String.◌∷◌ d p) (String.◌∷◌ e u) x h lt =
    ground (arith, strip_prefix-late p u x h.1)

strip_prefix-unquoted :
    (p s : String) → Without (λ c. c == b'"') s → strip_prefix (glue p quote) s ≡ none
unfolding strip_prefix
strip_prefix-unquoted String.[] String.[] h = refl
strip_prefix-unquoted String.[] (String.◌∷◌ e s) h = ground (arith, h.0)
strip_prefix-unquoted (String.◌∷◌ d p) String.[] h = refl
strip_prefix-unquoted (String.◌∷◌ d p) (String.◌∷◌ e s) h =
    ground (arith, strip_prefix-unquoted p s h.1)

abbrev key : String
key = "separator="

key-Without : Without (λ k. k == b'"') key
key-Without = (refl, (refl, (refl, (refl, (refl, (refl, (refl, (refl, (refl, (refl, tt))))))))))

after_text-unquoted :
    (s : String) → Without (λ c. c == b'"') s → after_text s (glue key quote) ≡ none
unfolding after_text
after_text-unquoted String.[] h = strip_prefix-unquoted key "" tt
after_text-unquoted (String.◌∷◌ c s) h =
    rw (strip_prefix-unquoted key (String.◌∷◌ c s) h, after_text) (after_text-unquoted s h.1)

after_text-glue :
    (s x : String)
    → Without (λ c. c == b'"') s
    → after_text (glue s (glue key (glue quote x))) (glue key quote) ≡ some x
unfolding after_text strip_prefix
after_text-glue String.[] x h = refl
after_text-glue (String.◌∷◌ c s) x h =
    let late : strip_prefix (glue key quote) (String.◌∷◌ c (glue s (glue key (glue quote x))))
        ≡ none =
      ap (λ t. strip_prefix (glue key quote) (String.◌∷◌ c t))
        (sym (glue_assoc s key (glue quote x)))
      ∙ strip_prefix-late key (String.◌∷◌ c (glue s key)) (glue quote x)
          (h.0, Without-glue (λ k. k == b'"') s key h.1 key-Without)
          (unfold size in omega (arith, size-glue s key)) in
    rw (late, after_text) (after_text-glue s x h.1)

abbrev before : String → String → String
before binding collection = glue "for " (glue binding (glue " in " (glue collection " ")))

header-some :
    (b c s : String)
    → header b c (some s) ≡ glue (before b c) (glue key (glue quote (glue s quote)))
header-some b c s =
    let x = glue key (glue quote (glue s quote)) in
    ap (λ t. glue "for " (glue b (glue " in " t))) (sym (glue_assoc c " " x))
    ∙ ap (λ t. glue "for " t) (sym (glue_assoc b (glue " in " (glue c " ")) x))

separator_text-space : (separator : Option String) → starts_space (separator_text separator) ≡ true
separator_text-space none = refl
separator_text-space (some s) = unfold is_whitespace in refl

no_quote : (w : String) → IsWord w → Without (λ k. k == b'"') w
no_quote w h = Without-le not_in_word (λ k. k == b'"') w (λ k f. ground (arith, f)) h.1

no_brace : (w : String) → IsWord w → Without (λ k. k == b'}') w
no_brace w h = Without-le not_in_word (λ k. k == b'}') w (λ k f. ground (arith, f)) h.1

split_whitespace-header :
    (b c : String) (separator : Option String)
    → IsWord b
    → IsWord c
    → split_whitespace (header b c separator)
      ≡ "for" ∷ b ∷ "in" ∷ c ∷ split_whitespace (separator_text separator)
unfolding split_whitespace is_whitespace
split_whitespace-header b c separator hb hc =
    let rest = glue c (separator_text separator) in
    let first : split_whitespace (glue b (glue " in " rest)) ≡ b ∷ "in" ∷ split_whitespace rest =
      split_whitespace-word b (glue " in " rest) hb refl in
    let last =
      split_whitespace-word c (separator_text separator) hc (separator_text-space separator) in
    ap (λ ws. "for" ∷ ws) (first ∙ ap (λ ws. b ∷ "in" ∷ ws) last)

-- The words of a header between texts that pass.
Without-framed :
    (p : ℕ → Bool) (b c rest : String)
    → Without p b
    → Without p c
    → Without p rest
    → Without p "for in"
    → Without p (glue "for " (glue b (glue " in " (glue c rest))))
Without-framed p b c rest hb hc hr (f, (o, (r, (space, (i, (n, end)))))) = (
  f,
  (o, (r, (space, Without-glue p b _ hb (space, (i, (n, (space, Without-glue p c rest hc hr))))))),
)

for_with-header :
    (b c : String) (separator : Option String)
    → IsWord b
    → IsWord c
    → IsSeparator separator
    → for_with b c (after_text (header b c separator) (glue key quote)) ≡ Token.for b c separator
unfolding for_with
for_with-header b c none hb hc hs =
    rw
      (after_text-unquoted (header b c none) (
        Without-framed (λ k. k == b'"') b c "" (no_quote b hb) (no_quote c hc) tt
          (refl, (refl, (refl, (refl, (refl, (refl, tt))))))))
      refl
for_with-header b c (some s) hb hc hs =
    let found : after_text (header b c (some s)) (glue key quote) ≡ some (glue s quote) =
      ap (λ t. after_text t (glue key quote)) (header-some b c s)
      ∙ after_text-glue (before b c) (glue s quote) (
          Without-framed (λ k. k == b'"') b c " " (no_quote b hb) (no_quote c hc) (refl, tt)
            (refl, (refl, (refl, (refl, (refl, (refl, tt))))))) in
    let quoted =
      Without-le (λ k. k == b'}' || k == b'"') (λ k. k == b'"') s (λ k f. ground (arith, f)) hs in
    rw (found, for_with, read_until-glue b'"' s "\"" "" quoted refl) refl

pub inner_token-header :
    (b c : String) (separator : Option String)
    → IsWord b
    → IsWord c
    → IsSeparator separator
    → inner_token (header b c separator) ≡ Token.for b c separator
unfolding inner_token for_header starts_with strip_prefix
inner_token-header b c separator hb hc hs =
    rw (split_whitespace-header b c separator hb hc) (for_with-header b c separator hb hc hs)

separator_text-Without :
    (separator : Option String)
    → IsSeparator separator
    → Without (λ k. k == b'}') (separator_text separator)
separator_text-Without none h = tt
separator_text-Without (some s) h =
    Without-glue (λ k. k == b'}') " separator=\"" (glue s quote)
      (
        refl,
        (refl, (refl, (refl, (refl, (refl, (refl, (refl, (refl, (refl, (refl, (refl, tt))))))))))),
      )
      (Without-glue (λ k. k == b'}') s quote
        (Without-le (λ k. k == b'}' || k == b'"') (λ k. k == b'}') s (λ k f. ground (arith, f)) h)
        (refl, tt))

pub header-Without :
    (b c : String) (separator : Option String)
    → IsWord b
    → IsWord c
    → IsSeparator separator
    → Without (λ k. k == b'}') (header b c separator)
header-Without b c separator hb hc hs =
    Without-framed (λ k. k == b'}') b c (separator_text separator) (no_brace b hb) (no_brace c hc)
      (separator_text-Without separator hs) (refl, (refl, (refl, (refl, (refl, (refl, tt))))))
