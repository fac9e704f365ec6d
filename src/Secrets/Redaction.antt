-- ===== src/Secrets/Redaction.antt =====
-- What a redacted text can still show.
use glidesh.Common.{
  ℕ, ◌≤◌, ◌≡◌, ◌≢◌, refl, ap, ◌∙◌, inl, inr, arith, String, true, false, List, [], ◌∷◌, ◌++◌,
  if◌then◌else◌, ltb, ◌||◌, leb_of_ltb, if_cases, contains, str_eq, Bool-cases, eq_iff,
}
use glidesh.Common.Chars.{has_text, replace, bytes}
use glidesh.Secrets.Masking.{IsStarFree, has_text-replace_from, has_text-replace_from_self}
use glidesh.Secrets.{
  SecretRegistry, default, place, longest_first, register, mask, redact, min_redactable_len,
}

-- What is masked stays masked.
has_text-mask :
    (ss : List String) (p text : String)
    → IsStarFree p
    → has_text text p ≡ false
    → has_text (mask ss text) p ≡ false
unfolding mask replace
has_text-mask [] p text h e = e
has_text-mask (s ∷ ss) p text h e = ground (
  arith,
  has_text-replace_from 0 s p text h,
  has_text-mask ss p (if has_text text s then replace text s "***" else text) h,
)

-- The texts stand in the order of their lengths, the longest first.
abbrev IsBelow : ℕ → List String → Type 0
IsBelow n [] = Unit
IsBelow n (s ∷ ss) = (bytes s ≤ n) × IsBelow n ss

abbrev pub IsDescending : List String → Type 0
IsDescending [] = Unit
IsDescending (s ∷ ss) = IsBelow (bytes s) ss × IsDescending ss

contains-below :
    (n : ℕ) (ss : List String) (p : String) → IsBelow n ss → contains ss p ≡ true → bytes p ≤ n
contains-below n [] p h e = cc
contains-below n (s ∷ ss) p h e = elim (Bool-cases (str_eq s p)) [
  | inl same ↦ rw (← (eq_iff s p).0 same) h.0
  | inr other ↦ contains-below n ss p h.1 (ground arith)
]

has_text-masked :
    (p text : String)
    → IsStarFree p
    → has_text (if has_text text p then replace text p "***" else text) p ≡ false
unfolding replace
has_text-masked p text h = elim (Bool-cases (has_text text p)) [
  | inl e ↦ rw e (has_text-replace_from_self 0 p text h)
  | inr e ↦ rw e e
]

-- No masked text is left in the output of the loop of `redact`.
mask-hides :
    (ss : List String) (p text : String)
    → IsDescending ss
    → contains ss p ≡ true
    → min_redactable_len ≤ bytes p
    → IsStarFree p
    → has_text (mask ss text) p ≡ false
unfolding mask replace
mask-hides [] p text d e m h = cc
mask-hides (s ∷ ss) p text d e m h =
    let out = if has_text text s then replace text s "***" else text in
    elim (Bool-cases (str_eq s p)) [
      | inl same ↦
          let q = (eq_iff s p).0 same in
          let hidden : has_text out p ≡ false = rw q (has_text-masked p text h) in
          ground (arith, ap bytes q, has_text-mask ss p out h)
      | inr other ↦ ground (arith, contains-below (bytes s) ss p d.0, mask-hides ss p out d.1)
    ]

place-IsBelow :
    (n : ℕ) (s : String) (ss : List String) → bytes s ≤ n → IsBelow n ss → IsBelow n (place s ss)
place-IsBelow n s [] h b = (h, tt)
place-IsBelow n s (t ∷ ts) h b =
    if_cases (IsBelow n) (ltb (bytes s) (bytes t)) _ _ (λ _. (b.0, place-IsBelow n s ts h b.1))
      (λ _. (h, b))

IsBelow-le : (n k : ℕ) (ss : List String) → n ≤ k → IsBelow n ss → IsBelow k ss
IsBelow-le n k [] le b = tt
IsBelow-le n k (s ∷ ss) le b = (omega (arith, b.0), IsBelow-le n k ss le b.1)

place-IsDescending : (s : String) (ss : List String) → IsDescending ss → IsDescending (place s ss)
place-IsDescending s [] d = (tt, tt)
place-IsDescending s (t ∷ ts) d =
    if_cases IsDescending (ltb (bytes s) (bytes t)) _ _
      (λ e. (place-IsBelow (bytes t) s ts (ground arith) d.0, place-IsDescending s ts d.1))
      (λ e.
        let le = leb_of_ltb (bytes s) (bytes t) e in
        ((le, IsBelow-le (bytes t) (bytes s) ts le d.0), d))

pub longest_first-IsDescending : (ss : List String) → IsDescending (longest_first ss)
longest_first-IsDescending [] = tt
longest_first-IsDescending (s ∷ ss) =
    place-IsDescending s (longest_first ss) (longest_first-IsDescending ss)

contains-place :
    (s p : String) (ss : List String) → contains (place s ss) p ≡ (str_eq s p || contains ss p)
contains-place s p [] = refl
contains-place s p (t ∷ ts) = ground (arith, contains-place s p ts)

contains-longest_first :
    (ss : List String) (p : String) → contains (longest_first ss) p ≡ contains ss p
contains-longest_first [] p = refl
contains-longest_first (s ∷ ss) p =
    contains-place s p (longest_first ss) ∙ rw (contains-longest_first ss p) refl

contains-append :
    (ss ts : List String) (p : String) → contains (ss ++ ts) p ≡ (contains ss p || contains ts p)
contains-append [] ts p = refl
contains-append (s ∷ ss) ts p = ground (arith, contains-append ss ts p)

-- A registry as `register` makes it, from an empty one.
pub record IsSorted (registry : SecretRegistry) : Type 0 where
  pub descending : IsDescending registry.plaintexts

pub register-IsSorted :
    (registry : SecretRegistry) (plaintext : String)
    → IsSorted registry
    → IsSorted (register registry plaintext)
unfolding register
register-IsSorted registry plaintext s =
    if_cases IsSorted (str_eq plaintext "") _ _ (λ _. s)
      (λ _.
        if_cases IsSorted (contains registry.plaintexts plaintext) _ _ (λ _. s)
          (λ _. record {
            descending = longest_first-IsDescending (registry.plaintexts ++ plaintext ∷ []);
          }))

contains-pushed :
    (registry : SecretRegistry) (s p : String)
    → (λ (r : SecretRegistry). contains r.plaintexts p)
        (if contains registry.plaintexts s
          then registry
          else record { plaintexts = longest_first (registry.plaintexts ++ s ∷ []) })
      ≡ (str_eq s p || contains registry.plaintexts p)
contains-pushed registry s p = elim (Bool-cases (contains registry.plaintexts s)) [
  | inl e ↦ rw e (ground (arith, eq_iff s p, λ (q : s ≡ p). ap (contains registry.plaintexts) q))
  | inr e ↦ rw e (
      contains-longest_first (registry.plaintexts ++ s ∷ []) p
      ∙ contains-append registry.plaintexts (s ∷ []) p
      ∙ ground arith)
]

-- What a registry holds after a value is registered.
pub contains-register :
    (registry : SecretRegistry) (plaintext p : String)
    → contains (register registry plaintext).plaintexts p ≡ (
        if str_eq plaintext ""
        then contains registry.plaintexts p
        else str_eq plaintext p || contains registry.plaintexts p)
unfolding register
contains-register registry plaintext p = elim (Bool-cases (str_eq plaintext "")) [
  | inl e ↦ rw e refl
  | inr e ↦ rw e (contains-pushed registry plaintext p)
]

-- The registry after values are registered, in order.
abbrev pub register_all : SecretRegistry → List String → SecretRegistry
register_all registry [] = registry
register_all registry (p ∷ ps) = register_all (register registry p) ps

register_all-IsSorted :
    (registry : SecretRegistry) (ps : List String)
    → IsSorted registry
    → IsSorted (register_all registry ps)
register_all-IsSorted registry [] s = s
register_all-IsSorted registry (p ∷ ps) s =
    register_all-IsSorted (register registry p) ps (register-IsSorted registry p s)

contains-register_all :
    (registry : SecretRegistry) (ps : List String) (p : String)
    → p ≢ ""
    → (contains registry.plaintexts p || contains ps p) ≡ true
    → contains (register_all registry ps).plaintexts p ≡ true
contains-register_all registry [] p ne h = ground arith
contains-register_all registry (q ∷ ps) p ne h =
    contains-register_all (register registry q) ps p ne
      (ground (arith, contains-register registry q p, eq_iff q p, eq_iff q "", h))

pub redact-hides :
    (registry : SecretRegistry) (p text : String)
    → IsSorted registry
    → contains registry.plaintexts p ≡ true
    → min_redactable_len ≤ bytes p
    → IsStarFree p
    → has_text (redact registry text) p ≡ false
unfolding redact
redact-hides registry p text s e m h = mask-hides registry.plaintexts p text s.descending e m h

pub nonempty : (p : String) → min_redactable_len ≤ bytes p → p ≢ ""
unfolding bytes
nonempty p m e = absurd (omega (arith, ap bytes e))

-- After values are registered, in any order and with repetitions, a redacted text holds none of
-- them that takes four bytes or more and has no `*`, even where one is part of another.
pub redact-hides_registered :
    (ps : List String) (p text : String)
    → contains ps p ≡ true
    → min_redactable_len ≤ bytes p
    → IsStarFree p
    → has_text (redact (register_all default ps) text) p ≡ false
redact-hides_registered ps p text e m h =
    let sorted = register_all-IsSorted default ps (record { descending = tt }) in
    redact-hides (register_all default ps) p text sorted
      (contains-register_all default ps p (nonempty p m) e) m h
