-- ===== src/Template/References/Sound.antt =====
-- What `defined_references` reports stands in the content.
use mathlib.Core.Option.{some-injective}
use glidesh.Common.{
  ℕ, zero, suc, ◌≤◌, ◌≡◌, refl, ◌∙◌, sym, ap, ap₂, arith, inl, inr, String, Bool, true, false,
  Option, none, some, List, [], ◌∷◌, ◌++◌, ◌==◌, ==_iff, drop, take, length, length-append,
  length-drop, All, Bool-cases, Option-cases, append_assoc,
}
use glidesh.Template.References.{
  Bytes, position, opens, is_reference, reference, cons_if, found_from,
}

-- The last byte is `$`.
abbrev pub ends_escape : Bytes → Bool
ends_escape [] = false
ends_escape (x ∷ []) = x == b'$'
ends_escape (x ∷ y ∷ xs) = ends_escape (y ∷ xs)

module _ (from_utf8 : Bytes → Option String) (is_defined : String → Bool) where
  -- The name stands in the content as `${name}` with no `$` before it, and is defined.
  pub record IsReported (content : Bytes) (name : String) : Type 0 where
    pub before : Bytes
    pub inner : Bytes
    pub after : Bytes
    pub stands : content ≡ before ++ b'$' ∷ b'{' ∷ (inner ++ b'}' ∷ after)
    pub unescaped : ends_escape before ≡ false
    pub reads : from_utf8 inner ≡ some name
    pub proper : is_reference name ≡ true
    pub defined : is_defined name ≡ true

position-split :
    (b : ℕ) (xs : Bytes) (at : ℕ)
    → position b xs ≡ some at
    → (xs ≡ take at xs ++ b ∷ drop (suc at) xs) × (length (take at xs) ≡ at)
unfolding position
position-split b [] at e = cc
position-split b (x ∷ xs) at e = elim (Bool-cases (x == b)) [
  | inl hit ↦ rw (← some-injective 0 at (rw hit at e)) (ap (λ c. c ∷ xs) ((==_iff x b).0 hit), refl)
  | inr miss ↦ elim (Option-cases (position b xs)) [
    | inl none_left ↦ cc (rw (miss, none_left) at e)
    | inr (k, found) ↦
        let r = position-split b xs k found in
        rw (← some-injective (suc k) at (rw (miss, found) at e))
          (ap (λ ys. x ∷ ys) r.0, omega (arith, r.1))
  ]
]

ends_escape-snoc : (xs : Bytes) (x : ℕ) → ends_escape (xs ++ x ∷ []) ≡ (x == b'$')
ends_escape-snoc [] x = refl
ends_escape-snoc (y ∷ []) x = refl
ends_escape-snoc (y ∷ z ∷ xs) x = ends_escape-snoc (z ∷ xs) x

brace-unescaped : (before : Bytes) (x y : ℕ) → y ≡ b'{' → ends_escape (before ++ x ∷ y ∷ []) ≡ false
brace-unescaped before x y e =
    rw (← append_assoc before (x ∷ []) (y ∷ []), ends_escape-snoc (before ++ x ∷ []) y, e)

opens-cons : (x y : ℕ) (ys : Bytes) → opens x (y ∷ ys) ≡ true → (x ≡ b'$') × (y ≡ b'{')
opens-cons x y ys e = ground arith

module _ (from_utf8 : Bytes → Option String) (is_defined : String → Bool) where
  abbrev found : Bool → ℕ → Bytes → List String
  found = found_from from_utf8 is_defined

  skip_lem :
      (x : ℕ) (xs ys : Bytes) (escaped : Bool)
      → found escaped (suc (length xs)) (x ∷ (xs ++ ys)) ≡ found false zero ys
  unfolding found_from
  skip_lem x [] ys escaped = refl
  skip_lem x (y ∷ xs) ys escaped = skip_lem y xs ys false

  plain_lem :
      (escaped : Bool) (x : ℕ) (xs : Bytes)
      → opens x xs ≡ false
      → found escaped zero (x ∷ xs) ≡ found (x == b'$') zero xs
  unfolding found_from
  plain_lem escaped x xs e = rw (e, found_from)

  escaped_lem :
      (x y : ℕ) (ys : Bytes)
      → opens x (y ∷ ys) ≡ true
      → found true zero (x ∷ y ∷ ys) ≡ found false zero ys
  unfolding found_from
  escaped_lem x y ys e = rw (e, found_from)

  unclosed_lem :
      (x y : ℕ) (ys : Bytes)
      → opens x (y ∷ ys) ≡ true
      → position b'}' ys ≡ none
      → found false zero (x ∷ y ∷ ys) ≡ []
  unfolding found_from
  unclosed_lem x y ys e p = rw (e, found_from) (rw (p, found_from))

  other_lem :
      (x y : ℕ) (ys : Bytes) (end : ℕ)
      → opens x (y ∷ ys) ≡ true
      → position b'}' ys ≡ some end
      → reference (from_utf8 (take end ys)) ≡ none
      → found false zero (x ∷ y ∷ ys) ≡ found false zero ys
  unfolding found_from
  other_lem x y ys end e p r = rw (e, found_from) (rw (p, found_from) (rw (r, found_from)))

  name_lem :
      (x y : ℕ) (ys : Bytes) (end : ℕ) (name : String)
      → opens x (y ∷ ys) ≡ true
      → position b'}' ys ≡ some end
      → reference (from_utf8 (take end ys)) ≡ some name
      → found false zero (x ∷ y ∷ ys)
        ≡ cons_if (is_defined name) name (found false (suc (suc end)) (y ∷ ys))
  unfolding found_from
  name_lem x y ys end name e p r = rw (e, found_from) (rw (p, found_from) (rw (r, found_from)))

  name_rest :
      (y : ℕ) (ys : Bytes) (end : ℕ)
      → position b'}' ys ≡ some end
      → found false (suc (suc end)) (y ∷ ys) ≡ found false zero (drop (suc end) ys)
  name_rest y ys end p =
      let r = position-split b'}' ys end p in
      let inner = take end ys ++ b'}' ∷ [] in
      ap₂ (λ k zs. found false (suc k) (y ∷ zs))
        (omega (arith, r.1, length-append (take end ys) (b'}' ∷ [])))
        (r.0 ∙ sym (append_assoc (take end ys) (b'}' ∷ []) (drop (suc end) ys)))
      ∙ skip_lem y inner (drop (suc end) ys) false

reference-some :
    (o : Option String) (name : String)
    → reference o ≡ some name
    → (o ≡ some name) × (is_reference name ≡ true)
reference-some none name e = cc
reference-some (some n) name e = elim (Bool-cases (is_reference n)) [
  | inl good ↦
      let same : n ≡ name = some-injective n name (rw good at e) in (ap some same, rw (← same) good)
  | inr bad ↦ cc (rw bad at e)
]

All-cons_if {κ} :
    (P : String → Type κ) (b : Bool) (name : String) (names : List String)
    → (b ≡ true → P name)
    → All P names
    → All P (cons_if b name names)
All-cons_if P true name names p ps = (p refl, ps)
All-cons_if P false name names p ps = ps

closed-unescaped :
    (before : Bytes) (x y : ℕ) (inner : Bytes)
    → ends_escape (before ++ x ∷ y ∷ (inner ++ b'}' ∷ [])) ≡ false
closed-unescaped before x y inner =
    rw (← append_assoc before (x ∷ y ∷ inner) (b'}' ∷ []))
      (ends_escape-snoc (before ++ x ∷ y ∷ inner) b'}')

-- What is left of the content, with what was read.
module _ (from_utf8 : Bytes → Option String) (is_defined : String → Bool) (content : Bytes) where
  abbrev pub Reported : String → Type 0
  Reported = IsReported from_utf8 is_defined content

  read_on : (before xs ys : Bytes) → content ≡ before ++ (xs ++ ys) → content ≡ (before ++ xs) ++ ys
  read_on before xs ys e = e ∙ sym (append_assoc before xs ys)

  closed :
      (before : Bytes) (x y : ℕ) (ys : Bytes) (end : ℕ)
      → content ≡ before ++ x ∷ y ∷ ys
      → position b'}' ys ≡ some end
      → content ≡ (before ++ x ∷ y ∷ (take end ys ++ b'}' ∷ [])) ++ drop (suc end) ys
  closed before x y ys end c p =
      let r = position-split b'}' ys end p in
      read_on before (x ∷ y ∷ (take end ys ++ b'}' ∷ [])) (drop (suc end) ys) (
        c
        ∙ ap (λ zs. before ++ x ∷ y ∷ zs)
            (r.0 ∙ sym (append_assoc (take end ys) (b'}' ∷ []) (drop (suc end) ys))))

  -- The name that stands at an opening.
  IsReported-here :
      (before : Bytes) (x y : ℕ) (ys : Bytes) (end : ℕ) (name : String)
      → content ≡ before ++ x ∷ y ∷ ys
      → ends_escape before ≡ false
      → opens x (y ∷ ys) ≡ true
      → position b'}' ys ≡ some end
      → reference (from_utf8 (take end ys)) ≡ some name
      → is_defined name ≡ true
      → Reported name
  IsReported-here before x y ys end name c h brace p r d =
      let o = opens-cons x y ys brace in
      let named = reference-some (from_utf8 (take end ys)) name r in
      record {
        before = before;
        inner = take end ys;
        after = drop (suc end) ys;
        stands =
            c
            ∙ ap (λ zs. before ++ zs)
                (ap₂ (λ a zs. a ∷ zs) o.0
                  (ap₂ (λ b zs. b ∷ zs) o.1 (position-split b'}' ys end p).0));
        unescaped = h;
        reads = named.0;
        proper = named.1;
        defined = d;
      }

  found_from-opened :
      (before : Bytes) (x y : ℕ) (ys : Bytes) (escaped : Bool)
      → opens x (y ∷ ys) ≡ true
      → content ≡ before ++ x ∷ y ∷ ys
      → (escaped ≡ false → ends_escape before ≡ false)
      → All Reported (found_from from_utf8 is_defined false zero ys)
      → ((end : ℕ)
          → position b'}' ys ≡ some end
          → All Reported (found_from from_utf8 is_defined false zero (drop (suc end) ys)))
      → All Reported (found_from from_utf8 is_defined escaped zero (x ∷ y ∷ ys))
  found_from-opened before x y ys true brace c h inside behind =
      rw (escaped_lem from_utf8 is_defined x y ys brace) inside
  found_from-opened before x y ys false brace c h inside behind =
      elim (Option-cases (position b'}' ys)) [
        | inl p ↦ rw (unclosed_lem from_utf8 is_defined x y ys brace p) tt
        | inr (end, p) ↦ elim (Option-cases (reference (from_utf8 (take end ys)))) [
          | inl r ↦ rw (other_lem from_utf8 is_defined x y ys end brace p r) inside
          | inr (name, r) ↦
              rw
                (
                  name_lem from_utf8 is_defined x y ys end name brace p r,
                  name_rest from_utf8 is_defined y ys end p,
                )
                (All-cons_if Reported (is_defined name) name _
                  (IsReported-here before x y ys end name c (h refl) brace p r) (behind end p))
        ]
      ]

  pub found_from-IsReported :
      (n : ℕ) (before xs : Bytes) (escaped : Bool)
      → length xs ≤ n
      → content ≡ before ++ xs
      → (escaped ≡ false → ends_escape before ≡ false)
      → All Reported (found_from from_utf8 is_defined escaped zero xs)
  found_from-IsReported n before [] escaped l c h = unfold found_from in tt
  found_from-IsReported zero before (x ∷ xs) escaped l c h = absurd (omega arith)
  found_from-IsReported (suc n) before (x ∷ []) escaped l c h =
      rw (plain_lem from_utf8 is_defined escaped x [] refl) (unfold found_from in tt)
  found_from-IsReported (suc n) before (x ∷ y ∷ ys) escaped l c h =
      elim (Bool-cases (opens x (y ∷ ys))) [
        | inr plain ↦ rw (plain_lem from_utf8 is_defined escaped x (y ∷ ys) plain) (
            found_from-IsReported n (before ++ x ∷ []) (y ∷ ys) (x == b'$') (omega arith)
              (read_on before (x ∷ []) (y ∷ ys) c) (λ e. ends_escape-snoc before x ∙ e))
        | inl brace ↦
            found_from-opened before x y ys escaped brace c h
              (found_from-IsReported n (before ++ x ∷ y ∷ []) ys false (omega arith)
                (read_on before (x ∷ y ∷ []) ys c)
                (λ _. brace-unescaped before x y (opens-cons x y ys brace).1))
              (λ end p.
                found_from-IsReported n (before ++ x ∷ y ∷ (take end ys ++ b'}' ∷ []))
                  (drop (suc end) ys) false (omega (arith, length-drop (suc end) ys))
                  (closed before x y ys end c p) (λ _. closed-unescaped before x y (take end ys)))
      ]
