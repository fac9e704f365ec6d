-- ===== src/Secrets/Store/Scalars.antt =====
-- The line that `upsert_scalar` writes: it declares its key, and is one line without braces.
use Prim.Native.Char.{Char, code}
use glidesh.Common.{
  ℕ, ◌≡◌, refl, ◌∙◌, arith, inl, inr, String, Bool, true, false, ◌||◌, not, ◌==◌, glue, Bool-cases,
  pos, zero-+ℤ, some, ◌+ℤ◌, ==_iff, eq_iff,
}
use glidesh.Common.Chars.{is_whitespace, trim_start}
use glidesh.Secrets.Store.{
  outside, inside, delta_from, brace_delta, escape, kdl_quote, scalar_line, ends_name, name_of,
  line_key, declares,
}
use glidesh.Secrets.Store.Quoting.{delta_from-escape, IsOpenLine, IsOpenLine-escape}

-- A character of a name that neither ends it nor counts as a brace or begins a comment.
abbrev is_plain : ℕ → Bool
is_plain c = not (ends_name c || (c == b'{' || (c == b'}' || c == b'/')))

abbrev IsPlain : String → Type 0
IsPlain String.[] = Unit
IsPlain (String.◌∷◌ c s) = (is_plain (code c) ≡ true) × IsPlain s

-- A name of such characters that does not begin like a row.
abbrev pub IsKey : String → Type 0
IsKey String.[] = ⊥
IsKey (String.◌∷◌ c s) = ((code c == b'-') ≡ false) × IsPlain (String.◌∷◌ c s)

delta_from-key : (k r : String) → IsPlain k → delta_from outside (glue k r) ≡ delta_from outside r
unfolding delta_from
delta_from-key String.[] r h = refl
delta_from-key (String.◌∷◌ c k) r h =
    ground (arith, delta_from-key k r h.1, zero-+ℤ (delta_from outside r))

not_code : (n m : ℕ) → is_plain m ≡ false → is_plain n ≡ true → (n == m) ≡ false
not_code n m bad h = elim (Bool-cases (n == m)) [
  | inl e ↦ absurd (cc (bad, h, (==_iff n m).0 e))
  | inr e ↦ e
]

plain_feed : (n : ℕ) → is_plain n ≡ true → ((n == b'\n') ≡ false) × ((n == b'\r') ≡ false)
plain_feed n h = (
  not_code n b'\n' (unfold is_whitespace in refl) h,
  not_code n b'\r' (unfold is_whitespace in refl) h,
)

IsOpenLine-key : (k r : String) → IsPlain k → IsOpenLine r → IsOpenLine (glue k r)
IsOpenLine-key String.[] r h o = o
IsOpenLine-key (String.◌∷◌ c k) r h o =
    let f = plain_feed (code c) h.0 in
    let rest = IsOpenLine-key k r h.1 o in ((f.0, rw f.1 refl, rest.0), refl)

name_of-key : (k r : String) → IsPlain k → name_of (glue k (String.◌∷◌ " " r)) ≡ k
unfolding name_of
name_of-key String.[] r h = refl
name_of-key (String.◌∷◌ c k) r h = ground (arith, name_of-key k r h.1)

quoted : (v : String) → delta_from outside (String.◌∷◌ " " (kdl_quote v)) ≡ pos 0
unfolding delta_from kdl_quote
quoted v =
    zero-+ℤ (pos 0 +ℤ delta_from inside (glue (escape v) "\""))
    ∙ zero-+ℤ (delta_from inside (glue (escape v) "\""))
    ∙ delta_from-escape v "\""
    ∙ unfold ◌+ℤ◌ in refl

quoted_line : (v : String) → IsOpenLine (String.◌∷◌ " " (kdl_quote v))
unfolding kdl_quote
quoted_line v = ground (arith, IsOpenLine-escape v "\"" ((refl, refl, tt), refl))

pub scalar_line-brace_delta : (k v : String) → IsKey k → brace_delta (scalar_line k v) ≡ pos 0
scalar_line-brace_delta String.[] v h = elim h [ ]
scalar_line-brace_delta (String.◌∷◌ c k) v h =
    let text = String.◌∷◌ " " (kdl_quote v) in
    unfold brace_delta scalar_line in delta_from-key (String.◌∷◌ c k) text h.1 ∙ quoted v

pub scalar_line-IsLine : (k v : String) → IsKey k → IsOpenLine (scalar_line k v)
scalar_line-IsLine String.[] v h = elim h [ ]
scalar_line-IsLine (String.◌∷◌ c k) v h =
    unfold scalar_line in IsOpenLine-key (String.◌∷◌ c k) _ h.1 (quoted_line v)

trim_start-plain :
    (c : Char) (s : String)
    → is_plain (code c) ≡ true
    → trim_start (String.◌∷◌ c s) ≡ String.◌∷◌ c s
unfolding trim_start
trim_start-plain c s h = ground arith

line_key-plain :
    (c : Char) (s : String)
    → is_plain (code c) ≡ true
    → (code c == b'-') ≡ false
    → line_key (String.◌∷◌ c s) ≡ some (name_of (String.◌∷◌ c s))
unfolding line_key name_of
line_key-plain c s h d = ground arith

pub declares-scalar_line : (k v : String) → IsKey k → declares k (scalar_line k v) ≡ true
unfolding declares scalar_line
declares-scalar_line String.[] v h = elim h [ ]
declares-scalar_line (String.◌∷◌ c k) v h =
    let rest = glue k (String.◌∷◌ " " (kdl_quote v)) in
    rw
      (
        trim_start-plain c rest h.1.0,
        line_key-plain c rest h.1.0 h.0,
        name_of-key (String.◌∷◌ c k) (kdl_quote v) h.1,
      )
      ((eq_iff (String.◌∷◌ c k) (String.◌∷◌ c k)).1 refl)
