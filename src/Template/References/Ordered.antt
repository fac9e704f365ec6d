-- ===== src/Template/References/Ordered.antt =====
-- The names that `defined_references` reports: all stand in the content, each once.
use text.Mathlib.TextEquality.{Char-path}
use glidesh.Common.{
  zero, ◌≡◌, refl, arith, inl, inr, String, Bool, true, false, Option, List, [], ◌∷◌, str_eq,
  eq_iff, if_cases, All, length, Bool-cases,
}
use glidesh.Tags.{str_lt}
use glidesh.Template.References.{Bytes, found_from, insert_ordered, ordered, defined_references}
use glidesh.Template.References.Sound.{IsReported, found_from-IsReported}

module _ (P : String → Type 0) where
  All-insert_ordered :
      (t : String) (ts : List String) → P t → All P ts → All P (insert_ordered t ts)
  unfolding insert_ordered
  All-insert_ordered t [] p ps = (p, tt)
  All-insert_ordered t (u ∷ ts) p ps =
      if_cases (All P) (str_eq t u) _ _ (λ _. ps)
        (λ _.
          if_cases (All P) (str_lt u t) _ _ (λ _. (ps.0, All-insert_ordered t ts p ps.1))
            (λ _. (p, ps)))

  All-ordered : (ts : List String) → All P ts → All P (ordered ts)
  unfolding ordered
  All-ordered [] ps = tt
  All-ordered (t ∷ ts) ps = All-insert_ordered t (ordered ts) ps.0 (All-ordered ts ps.1)

-- Rising in the order of texts, so that no text stands twice.
abbrev pub IsRising : List String → Type 0
IsRising [] = Unit
IsRising (t ∷ []) = Unit
IsRising (t ∷ u ∷ ts) = (str_lt t u ≡ true) × IsRising (u ∷ ts)

-- Two texts, one of which is the lower, unless they are the same.
str_lt-total : (s t : String) → str_eq s t ≡ false → str_lt t s ≡ false → str_lt s t ≡ true
str_lt-total String.[] String.[] e l = absurd (cc (e, (eq_iff "" "").1 refl))
str_lt-total String.[] (String.◌∷◌ d t) e l = refl
str_lt-total (String.◌∷◌ c s) String.[] e l = cc
str_lt-total (String.◌∷◌ c s) (String.◌∷◌ d t) e l =
    ground
      (arith, Char-path c d, eq_iff (String.◌∷◌ c s) (String.◌∷◌ d t), eq_iff s t, str_lt-total s t)

-- Below both a text and the first of a list, and so below what the text is inserted into.
IsRising-below :
    (u t v : String) (ts : List String)
    → str_lt u t ≡ true
    → str_lt u v ≡ true
    → IsRising (insert_ordered t (v ∷ ts))
    → IsRising (u ∷ insert_ordered t (v ∷ ts))
unfolding insert_ordered
IsRising-below u t v ts l m r = elim (Bool-cases (str_eq t v)) [
  | inl same ↦ rw same (m, rw same at r)
  | inr other ↦ elim (Bool-cases (str_lt v t)) [
    | inl lower ↦ rw (other, lower) (m, rw (other, lower) at r)
    | inr higher ↦ rw (other, higher) (l, rw (other, higher) at r)
  ]
]

insert_ordered-IsRising :
    (t : String) (ts : List String) → IsRising ts → IsRising (insert_ordered t ts)
unfolding insert_ordered
insert_ordered-IsRising t [] r = tt
insert_ordered-IsRising t (u ∷ []) r = ground (arith, str_lt-total t u)
insert_ordered-IsRising t (u ∷ v ∷ ts) r = elim (Bool-cases (str_eq t u)) [
  | inl same ↦ rw same r
  | inr other ↦ elim (Bool-cases (str_lt u t)) [
    | inl lower ↦
        rw (other, lower)
          (IsRising-below u t v ts lower r.0 (insert_ordered-IsRising t (v ∷ ts) r.1))
    | inr higher ↦ rw (other, higher) (str_lt-total t u other higher, r)
  ]
]

pub ordered-IsRising : (ts : List String) → IsRising (ordered ts)
unfolding ordered
ordered-IsRising [] = tt
ordered-IsRising (t ∷ ts) = insert_ordered-IsRising t (ordered ts) (ordered-IsRising ts)

-- Every name that is reported stands in the content as a reference that no `$` escapes, reads as
-- a proper name and is defined; and the names rise, so that none is reported twice.
pub defined_references-IsReported :
    (from_utf8 : Bytes → Option String) (is_defined : String → Bool) (content : Bytes)
    → All
        (IsReported from_utf8 is_defined content)
        (defined_references from_utf8 is_defined content)
      × IsRising (defined_references from_utf8 is_defined content)
unfolding defined_references
defined_references-IsReported from_utf8 is_defined content =
    let names = found_from from_utf8 is_defined false zero content in
    (
      All-ordered (IsReported from_utf8 is_defined content) names (
          found_from-IsReported from_utf8 is_defined content (length content) [] content false
            (omega arith) refl (λ _. refl)),
      ordered-IsRising names,
    )
