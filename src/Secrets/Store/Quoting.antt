-- ===== src/Secrets/Store/Quoting.antt =====
-- Values as `kdl_quote` writes them: one line, whose braces do not count.
use Prim.Native.Char.{Char, code}
use glidesh.Common.{
  ℕ, ◌≡◌, refl, ◌∙◌, sym, ap, arith, inl, inr, String, Bool, true, false, if◌then◌else◌, ◌==◌, glue,
  Bool-cases, pos, zero-+ℤ, ◌+ℤ◌, ℤ, if_cases,
}
use glidesh.Common.Chars.{replace}
use glidesh.Secrets.Store.{is_empty, inside, delta_from, escape}
use glidesh.Secrets.Store.Lines.{IsLine, glue_assoc}

replace-cons :
    (k c : Char) (by s : String)
    → replace (String.◌∷◌ c s) (String.◌∷◌ k "") by
      ≡ glue (if code k == code c then by else String.◌∷◌ c "") (replace s (String.◌∷◌ k "") by)
unfolding replace
replace-cons k c by s = ground arith

flipped : (a b : ℕ) {t : Bool} → (a == b) ≡ t → (b == a) ≡ t
flipped a b {t} e = ground arith

glue_nil : (s : String) → glue s "" ≡ s
glue_nil String.[] = refl
glue_nil (String.◌∷◌ c s) = ap (String.◌∷◌ c) (glue_nil s)

replace-glue :
    (k : Char) (by a b : String)
    → replace (glue a b) (String.◌∷◌ k "") by
      ≡ glue (replace a (String.◌∷◌ k "") by) (replace b (String.◌∷◌ k "") by)
replace-glue k by String.[] b = unfold replace in refl
replace-glue k by (String.◌∷◌ c a) b =
    rw (replace-cons k c by (glue a b), replace-glue k by a b, replace-cons k c by a)
      (sym (glue_assoc (if code k == code c then by else String.◌∷◌ c "") _ _))

escape-glue : (a b : String) → escape (glue a b) ≡ glue (escape a) (escape b)
unfolding escape
escape-glue a b = rw (
  replace-glue "\\" "\\\\" a b,
  replace-glue "\"" "\\\"" (replace a "\\" "\\\\") _,
  replace-glue "\n" "\\n" _ _,
  replace-glue "\t" "\\t" _ _,
  replace-glue "\r" "\\r" _ _,
)

-- What becomes of a character.
abbrev hide : Char → String
hide c =
    if code c == b'\\'
    then "\\\\"
    else if code c == b'"'
    then "\\\""
    else if code c == b'\n'
    then "\\n"
    else if code c == b'\t'
    then "\\t"
    else if code c == b'\r'
    then "\\r"
    else String.◌∷◌ c ""

replace-hit :
    (k c : Char) (by : String)
    → (code c == code k) ≡ true
    → replace (String.◌∷◌ c "") (String.◌∷◌ k "") by ≡ by
replace-hit k c by e =
    replace-cons k c by "" ∙ rw (flipped (code c) (code k) e) (unfold replace in glue_nil by)

replace-miss :
    (k c : Char) (by : String)
    → (code c == code k) ≡ false
    → replace (String.◌∷◌ c "") (String.◌∷◌ k "") by ≡ String.◌∷◌ c ""
replace-miss k c by e =
    replace-cons k c by "" ∙ rw (flipped (code c) (code k) e) (unfold replace in refl)

escape_lem :
    (s : String)
    → escape s
      ≡ replace
          (replace (replace (replace (replace s "\\" "\\\\") "\"" "\\\"") "\n" "\\n") "\t" "\\t")
          "\r"
          "\\r"
escape_lem s = unfold escape in refl

escape-char : (c : Char) → escape (String.◌∷◌ c "") ≡ hide c
escape-char c = escape_lem (String.◌∷◌ c "") ∙ elim (Bool-cases (code c == b'\\')) [
  | inl e ↦ rw (replace-hit "\\" c "\\\\" e, e) (unfold replace in refl)
  | inr backslash ↦
      rw (replace-miss "\\" c "\\\\" backslash, backslash)
        (elim (Bool-cases (code c == b'"')) [
          | inl e ↦ rw (replace-hit "\"" c "\\\"" e, e) (unfold replace in refl)
          | inr quote ↦
              rw (replace-miss "\"" c "\\\"" quote, quote)
                (elim (Bool-cases (code c == b'\n')) [
                  | inl e ↦ rw (replace-hit "\n" c "\\n" e, e) (unfold replace in refl)
                  | inr feed ↦
                      rw (replace-miss "\n" c "\\n" feed, feed)
                        (elim (Bool-cases (code c == b'\t')) [
                          | inl e ↦ rw (replace-hit "\t" c "\\t" e, e) (unfold replace in refl)
                          | inr tab ↦
                              rw (replace-miss "\t" c "\\t" tab, tab)
                                (elim (Bool-cases (code c == b'\r')) [
                                  | inl e ↦
                                      rw (replace-hit "\r" c "\\r" e, e) (unfold replace in refl)
                                  | inr e ↦ rw (replace-miss "\r" c "\\r" e, e)
                                ])
                        ])
                ])
        ])
]

-- A property of what becomes of a character.
hide-cases :
    (P : String → Type 0) (c : Char)
    → P "\\\\"
    → P "\\\""
    → P "\\n"
    → P "\\t"
    → P "\\r"
    → ((code c == b'\\') ≡ false
        → (code c == b'"') ≡ false
        → (code c == b'\n') ≡ false
        → (code c == b'\r') ≡ false
        → P (String.◌∷◌ c ""))
    → P (hide c)
hide-cases P c backslash quote feed tab return rest =
    if_cases P _ _ _ (λ _. backslash)
      (λ e.
        if_cases P _ _ _ (λ _. quote)
          (λ f.
            if_cases P _ _ _ (λ _. feed)
              (λ g.
                if_cases P _ _ _ (λ _. tab)
                  (λ _. if_cases P _ _ _ (λ _. return) (λ k. rest e f g k)))))

delta_from-hide :
    (c : Char) (r : String) → delta_from inside (glue (hide c) r) ≡ delta_from inside r
unfolding delta_from
delta_from-hide c r =
    let skip = λ (x : ℤ). zero-+ℤ (pos 0 +ℤ x) ∙ zero-+ℤ x in
    hide-cases (λ h. delta_from inside (glue h r) ≡ delta_from inside r) c
      (skip (delta_from inside r)) (skip (delta_from inside r)) (skip (delta_from inside r))
      (skip (delta_from inside r)) (skip (delta_from inside r))
      (λ e f g k. rw (e, f) (zero-+ℤ (delta_from inside r)))

-- The braces of an escaped text do not count, and it does not end the quoted text.
pub delta_from-escape : (s r : String) → delta_from inside (glue (escape s) r) ≡ delta_from inside r
delta_from-escape String.[] r = unfold escape in refl
delta_from-escape (String.◌∷◌ c s) r =
    rw (escape-glue (String.◌∷◌ c "") s, escape-char c, glue_assoc (hide c) (escape s) r)
      (delta_from-hide c (glue (escape s) r) ∙ delta_from-escape s r)

-- A line that does not end where it stands.
abbrev pub IsOpenLine : String → Type 0
IsOpenLine s = IsLine s × (is_empty s ≡ false)

IsOpenLine-hide : (c : Char) (r : String) → IsOpenLine r → IsOpenLine (glue (hide c) r)
IsOpenLine-hide c r h =
    hide-cases (λ s. IsOpenLine (glue s r)) c (ground arith) (ground arith) (ground arith)
      (ground arith) (ground arith) (λ e f g k. ((g, rw k refl, h.0), refl))

pub IsOpenLine-escape : (s r : String) → IsOpenLine r → IsOpenLine (glue (escape s) r)
IsOpenLine-escape String.[] r h = unfold escape in h
IsOpenLine-escape (String.◌∷◌ c s) r h =
    rw (escape-glue (String.◌∷◌ c "") s, escape-char c, glue_assoc (hide c) (escape s) r)
      (IsOpenLine-hide c (glue (escape s) r) (IsOpenLine-escape s r h))
