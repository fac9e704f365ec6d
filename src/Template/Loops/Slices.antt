-- ===== src/Template/Loops/Slices.antt =====
-- Slices of a text that is put together.
use glidesh.Common.{ℕ, zero, suc, ◌+◌, ◌-◌, ◌≤◌, ◌≡◌, refl, ap, ◌∙◌, arith, String, glue, size}
use glidesh.Common.Chars.{take_chars, drop_chars, slice}

pub glue_assoc : (a b c : String) → glue (glue a b) c ≡ glue a (glue b c)
glue_assoc String.[] b c = refl
glue_assoc (String.◌∷◌ x a) b c = rw (glue_assoc a b c) refl

pub glue_empty : (s : String) → glue s "" ≡ s
glue_empty String.[] = refl
glue_empty (String.◌∷◌ c s) = rw (glue_empty s) refl

take_chars-glue :
    (n : ℕ) (a b c : String)
    → size a ≤ n
    → n - size a ≡ size b
    → take_chars n (glue a (glue b c)) ≡ glue a b
unfolding take_chars size
take_chars-glue zero String.[] String.[] c le e = refl
take_chars-glue (suc n) String.[] String.[] c le e = absurd (omega arith)
take_chars-glue zero String.[] (String.◌∷◌ x b) c le e = absurd (omega arith)
take_chars-glue (suc n) String.[] (String.◌∷◌ x b) c le e =
    ap (λ t. String.◌∷◌ x t) (take_chars-glue n String.[] b c (omega arith) (omega arith))
take_chars-glue zero (String.◌∷◌ x a) b c le e = absurd (omega arith)
take_chars-glue (suc n) (String.◌∷◌ x a) b c le e =
    ap (λ t. String.◌∷◌ x t) (take_chars-glue n a b c (omega arith) (omega arith))

drop_chars-glue :
    (n : ℕ) (a b : String) → n ≤ size a → drop_chars n (glue a b) ≡ glue (drop_chars n a) b
unfolding drop_chars size
drop_chars-glue zero a b le = refl
drop_chars-glue (suc n) String.[] b le = absurd (omega arith)
drop_chars-glue (suc n) (String.◌∷◌ x a) b le = drop_chars-glue n a b (omega arith)

size-drop_chars : (n : ℕ) (a : String) → size (drop_chars n a) ≡ size a - n
unfolding drop_chars size
size-drop_chars zero a = omega arith
size-drop_chars (suc n) String.[] = omega arith
size-drop_chars (suc n) (String.◌∷◌ x a) = omega (arith, size-drop_chars n a)

-- Up to the end of the middle one of three texts.
pub slice-glue :
    (from to : ℕ) (a b c : String)
    → from ≤ size a
    → to ≡ size a + size b
    → slice from to (glue a (glue b c)) ≡ glue (drop_chars from a) b
unfolding slice
slice-glue from to a b c le e = rw (drop_chars-glue from a (glue b c) le) (
    take_chars-glue (to - from) (drop_chars from a) b c (omega (arith, size-drop_chars from a))
      (omega (arith, size-drop_chars from a)))

-- Up to the end of the first of two texts.
pub slice_first :
    (from to : ℕ) (a c : String)
    → from ≤ size a
    → to ≡ size a
    → slice from to (glue a c) ≡ drop_chars from a
slice_first from to a c le e =
    slice-glue from to a "" c le (unfold size in omega arith) ∙ glue_empty (drop_chars from a)
