-- ===== src/Secrets/Masking.antt =====
-- Replacing a text by stars: what is left, for texts without a star.
use Prim.Native.Char.{Char, code}
use glidesh.Common.{
  ℕ, zero, suc, ◌-◌, ◌≡◌, refl, ◌∙◌, inl, inr, arith, String, true, false, ◌&&◌, ◌==◌, Bool-cases,
  glue, size,
}
use glidesh.Common.Chars.{strip_prefix, starts_with, has_text, replace_from}

-- No character of the text is `*`, and there is one.
abbrev NoStar : String → Type 0
NoStar String.[] = Unit
NoStar (String.◌∷◌ c s) = ((code c == b'*') ≡ false) × NoStar s

abbrev pub IsStarFree : String → Type 0
IsStarFree String.[] = ⊥
IsStarFree (String.◌∷◌ c s) = ((code c == b'*') ≡ false) × NoStar s

starts_with-cons :
    (c d : Char) (s p : String)
    → starts_with (String.◌∷◌ c s) (String.◌∷◌ d p) ≡ ((code d == code c) && starts_with s p)
unfolding starts_with strip_prefix
starts_with-cons c d s p = ground arith

starts_with-nil : (s : String) → starts_with s String.[] ≡ true
unfolding starts_with strip_prefix
starts_with-nil s = refl

-- A text without stars that begins what is left after a replacement by stars began the text.
starts_with-replace_from :
    (q p s : String)
    → NoStar p
    → starts_with (replace_from 0 q "***" s) p ≡ true
    → starts_with s p ≡ true
unfolding replace_from
starts_with-replace_from q String.[] s h e = starts_with-nil s
starts_with-replace_from q (String.◌∷◌ d p) String.[] h e = e
starts_with-replace_from q (String.◌∷◌ d p) (String.◌∷◌ c s) h e =
    elim (Bool-cases (starts_with (String.◌∷◌ c s) q)) [
      | inl m ↦ absurd (cc (h.0, starts_with-cons "*" d _ p, rw (m, replace_from) at e))
      | inr m ↦ ground (
        arith,
        starts_with-cons c d s p,
        starts_with-cons c d (replace_from 0 q "***" s) p,
        starts_with-replace_from q p s h.1,
      )
    ]

has_text-stars : (p r : String) → IsStarFree p → has_text (glue "***" r) p ≡ has_text r p
unfolding has_text
has_text-stars String.[] r h = elim h [ ]
has_text-stars (String.◌∷◌ d p) r h = ground (
  arith,
  starts_with-cons "*" d (glue "**" r) p,
  starts_with-cons "*" d (glue "*" r) p,
  starts_with-cons "*" d r p,
)

-- A text in what is left after a replacement by stars was there before.
pub has_text-replace_from :
    (skip : ℕ) (q p s : String)
    → IsStarFree p
    → has_text (replace_from skip q "***" s) p ≡ true
    → has_text s p ≡ true
unfolding replace_from has_text
has_text-replace_from skip q String.[] s h e = elim h [ ]
has_text-replace_from skip q (String.◌∷◌ d p) String.[] h e = e
has_text-replace_from (suc skip) q (String.◌∷◌ d p) (String.◌∷◌ c s) h e =
    ground (arith, has_text-replace_from skip q (String.◌∷◌ d p) s h)
has_text-replace_from zero q (String.◌∷◌ d p) (String.◌∷◌ c s) h e =
    elim (Bool-cases (starts_with (String.◌∷◌ c s) q)) [
      | inl m ↦
          let rest = replace_from (size q - 1) q "***" s in
          let e' : has_text (glue "***" rest) (String.◌∷◌ d p) ≡ true = rw (m, replace_from) at e in
          ground (
            arith,
            has_text-stars (String.◌∷◌ d p) rest h,
            has_text-replace_from (size q - 1) q (String.◌∷◌ d p) s h,
          )
      | inr m ↦ ground (
        arith,
        starts_with-replace_from q (String.◌∷◌ d p) (String.◌∷◌ c s) h,
        has_text-replace_from zero q (String.◌∷◌ d p) s h,
      )
    ]

-- Nothing is left of a text that was replaced by stars.
pub has_text-replace_from_self :
    (skip : ℕ) (p s : String) → IsStarFree p → has_text (replace_from skip p "***" s) p ≡ false
unfolding replace_from has_text
has_text-replace_from_self skip String.[] s h = elim h [ ]
has_text-replace_from_self skip (String.◌∷◌ d p) String.[] h = refl
has_text-replace_from_self (suc skip) (String.◌∷◌ d p) (String.◌∷◌ c s) h =
    has_text-replace_from_self skip (String.◌∷◌ d p) s h
has_text-replace_from_self zero (String.◌∷◌ d p) (String.◌∷◌ c s) h =
    elim (Bool-cases (starts_with (String.◌∷◌ c s) (String.◌∷◌ d p))) [
      | inl m ↦
          let k = size (String.◌∷◌ d p) - 1 in
          rw (m, replace_from)
            (has_text-stars (String.◌∷◌ d p) (replace_from k (String.◌∷◌ d p) "***" s) h
              ∙ has_text-replace_from_self k (String.◌∷◌ d p) s h)
      | inr m ↦ ground (
        arith,
        starts_with-replace_from (String.◌∷◌ d p) (String.◌∷◌ d p) (String.◌∷◌ c s) h,
        has_text-replace_from_self zero (String.◌∷◌ d p) s h,
      )
    ]
