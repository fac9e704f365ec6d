-- ===== src/Escalation/Words.antt =====
-- How a shell reads the wrapped command.
use glidesh.Common.{
  ℕ, ◌≡◌, refl, sym, ap, ap₂, ==_iff, String, Bool, ◌&&◌, ◌||◌, Option, none, some, List, [], ◌∷◌,
  ◌==◌, leb, if◌then◌else◌, glue, inl, inr, Bool-cases,
}
use glidesh.RunAs.{RunAsMethod, sudo, doas, su, ResolvedRunAs}
use glidesh.Escalation.{replace_quotes, format, shell_escape, wrap}
use text.Mathlib.TextEquality.{Char-path}
use Prim.Native.Char.{Char, code}

-- Between words, in a word, within single quotes, and after a backslash.
pub data Mode : Type 0 where
  gap bare quoted escaped : Mode

-- Lower-case letters, capitals and the dash; any other character outside quotes is refused.
abbrev is_plain : ℕ → Bool
is_plain c = (leb 97 c && leb c 122) || ((leb 65 c && leb c 90) || c == 45)

abbrev push : Char → Option (List String) → Option (List String)
push c (some (w ∷ ws)) = some (String.◌∷◌ c w ∷ ws)
push c _ = none

abbrev end_word : Option (List String) → Option (List String)
end_word (some ws) = some ("" ∷ ws)
end_word none = none

-- The words of a command line, by the quoting rules of POSIX shells, the first of them being the
-- rest of the word at hand.
unfoldable pub words : Mode → String → Option (List String)
words gap String.[] = some []
words gap (String.◌∷◌ c s) =
    let between = words gap s in
    let inside = words quoted s in
    let next = words escaped s in
    let more = words bare s in
    if code c == 32
    then between
    else if code c == 39
    then inside
    else if code c == 92
    then next
    else if is_plain (code c)
    then push c more
    else none
words bare String.[] = some ("" ∷ [])
words bare (String.◌∷◌ c s) =
    let between = words gap s in
    let inside = words quoted s in
    let next = words escaped s in
    let more = words bare s in
    if code c == 32
    then end_word between
    else if code c == 39
    then inside
    else if code c == 92
    then next
    else if is_plain (code c)
    then push c more
    else none
words quoted String.[] = none
words quoted (String.◌∷◌ c s) =
    let inside = words quoted s in
    let more = words bare s in if code c == 39 then more else push c inside
words escaped String.[] = none
words escaped (String.◌∷◌ c s) = push c (words bare s)

abbrev push_all : String → Option (List String) → Option (List String)
push_all String.[] r = r
push_all (String.◌∷◌ c s) r = push c (push_all s r)

glue_assoc : (a b c : String) → glue (glue a b) c ≡ glue a (glue b c)
glue_assoc String.[] b c = refl
glue_assoc (String.◌∷◌ x a) b c = ap (String.◌∷◌ x) (glue_assoc a b c)

-- Within quotes, an escaped text is read as the text, up to the closing quote.
words-replace_quotes :
    (s t : String) → words quoted (glue (replace_quotes s) (glue "'" t)) ≡ push_all s (words bare t)
unfolding words replace_quotes
words-replace_quotes String.[] t = refl
words-replace_quotes (String.◌∷◌ c s) t = elim (Bool-cases (code c == 39)) [
  | inl e ↦
      rw e (ap₂ push (sym (Char-path c _ ((==_iff (code c) 39).0 e))) (words-replace_quotes s t))
  | inr e ↦ rw (e, e) (ap (push c) (words-replace_quotes s t))
]

glue_nil : (s : String) → glue s "" ≡ s
glue_nil String.[] = refl
glue_nil (String.◌∷◌ c s) = ap (String.◌∷◌ c) (glue_nil s)

push_all-some :
    (s w : String) (ws : List String) → push_all s (some (w ∷ ws)) ≡ some (glue s w ∷ ws)
push_all-some String.[] w ws = refl
push_all-some (String.◌∷◌ c s) w ws = rw (push_all-some s w ws) refl

words-shell_escape :
    (s t : String) → words gap (glue (shell_escape s) t) ≡ push_all s (words bare t)
unfolding words shell_escape
words-shell_escape s t = rw (glue_assoc (replace_quotes s) "'" t) (words-replace_quotes s t)

-- An escaped text at the end of a line is its last word, and before a space a word of its own.
escaped_last : (s : String) → words gap (glue (shell_escape s) "") ≡ some (s ∷ [])
unfolding words
escaped_last s = rw (words-shell_escape s "", push_all-some s "" [], glue_nil s) refl

escaped_then :
    (s t : String) (ws : List String)
    → words gap t ≡ some ws
    → words gap (glue (shell_escape s) (glue " " t)) ≡ some (s ∷ ws)
unfolding words
escaped_then s t ws e =
    rw (words-shell_escape s (glue " " t), e, push_all-some s "" ws, glue_nil s) refl

-- What the target's shell is to run, for each method.
unfoldable pub expected_words : String → ResolvedRunAs → String → List String
unfolding format
expected_words fresh run_as inner = elim run_as.method [
  | sudo ↦ elim run_as.password [
    | none ↦ "sudo" ∷ "-n" ∷ "-u" ∷ run_as.user ∷ "--" ∷ "sh" ∷ "-c" ∷ inner ∷ []
    | some _ ↦
        "sudo"
        ∷ "-k"
        ∷ "-S"
        ∷ "-p"
        ∷ format ("glidesh-sudo-prompt-" ∷ fresh ∷ [])
        ∷ "-u"
        ∷ run_as.user
        ∷ "--"
        ∷ "sh"
        ∷ "-c"
        ∷ inner
        ∷ []
  ]
  | doas ↦ "doas" ∷ "-n" ∷ "-u" ∷ run_as.user ∷ "sh" ∷ "-c" ∷ inner ∷ []
  | su ↦ "su" ∷ run_as.user ∷ "-c" ∷ inner ∷ []
]

-- A shell reads the wrapped command as the words of the method's command line, in which the user
-- and the whole inner command are one word each, whatever characters they have.
pub words-wrap :
    (fresh user inner : String) (method : RunAsMethod) (password : Option String)
    → words gap
        (wrap fresh (record { user = user; method = method; password = password }) inner).command
      ≡ some (
          expected_words fresh (record { user = user; method = method; password = password }) inner)
unfolding words wrap format expected_words
words-wrap fresh user inner sudo none =
    rw
      (escaped_then user (glue "-- sh -c " (glue (shell_escape inner) ""))
        ("--" ∷ "sh" ∷ "-c" ∷ inner ∷ []) (rw (escaped_last inner) refl))
      refl
words-wrap fresh user inner sudo (some password) =
    let prompt = format ("glidesh-sudo-prompt-" ∷ fresh ∷ []) in
    let last = "--" ∷ "sh" ∷ "-c" ∷ inner ∷ [] in
    let command = glue "-- sh -c " (glue (shell_escape inner) "") in
    rw
      (escaped_then prompt (glue "-u " (glue (shell_escape user) (glue " " command)))
        ("-u" ∷ user ∷ last)
        (rw (escaped_then user command last (rw (escaped_last inner) refl)) refl))
      refl
words-wrap fresh user inner doas password =
    rw
      (escaped_then user (glue "sh -c " (glue (shell_escape inner) "")) ("sh" ∷ "-c" ∷ inner ∷ [])
        (rw (escaped_last inner) refl))
      refl
words-wrap fresh user inner su password =
    rw
      (escaped_then user (glue "-c " (glue (shell_escape inner) "")) ("-c" ∷ inner ∷ [])
        (rw (escaped_last inner) refl))
      refl
