-- ===== src/Prompts/Answers.antt =====
-- What holds of the answers that a run goes on with.
use glidesh.Common.{
  ◌≡◌, ◌⊎◌, inl, inr, refl, ap, sym, String, Bool, false, Option, none, some, List, [], ◌∷◌,
  if◌then◌else◌, Bool-cases, Option-cases, unwrap_or, or_else, is_none, Result, ok, err,
  GlideshError,
}
use mathlib.Core.Path.{subst}
use glidesh.Plan.{VarPrompt}
use glidesh.Prompts.{Answer, too_short_to_mask, parse_var_flags}
use glidesh.Prompts.Resolve.{
  Pair, missing, given_value, answer, given_for, answered, and_rest, and_more, answer_all,
  unknown_from, resolve_given, unless_missing, with_flags, resolve_answers,
}

-- A value from a flag is taken as it is.
abbrev FromFlag : Option String → Answer → Type 0
FromFlag none a = Unit
FromFlag (some v) a = (a.value ≡ v) × (a.defaulted ≡ false)

-- An answer to a prompt, with the flags that were given.
pub record IsAnswer (given : List Pair) (p : VarPrompt) (a : Answer) : Type 0 where
  pub named : a.name ≡ p.name
  pub kept_secret : a.secret ≡ p.secret
  pub can_be_masked : too_short_to_mask p a.value ≡ false
  pub from_flag : FromFlag (given_value given p.name) a
  pub or_default : (a.defaulted ≡ false) ⊎ (a.value ≡ unwrap_or p.default "")

-- One answer for each prompt, in their order.
abbrev pub AreAnswers : List Pair → List VarPrompt → List Answer → Type 0
AreAnswers given [] [] = Unit
AreAnswers given [] (a ∷ more) = ⊥
AreAnswers given (p ∷ ps) [] = ⊥
AreAnswers given (p ∷ ps) (a ∷ more) = IsAnswer given p a × AreAnswers given ps more

-- What an answer that was made shows.
record Made (p : VarPrompt) (o : Option String) (a : Answer) : Type 0 where
  named : a.name ≡ p.name
  kept_secret : a.secret ≡ p.secret
  can_be_masked : too_short_to_mask p a.value ≡ false
  value_is : a.value ≡ unwrap_or (or_else o p.default) ""
  defaulted_is : a.defaulted ≡ is_none o

made_answer : VarPrompt → Option String → Answer
made_answer p o = record {
  name = p.name;
  value = unwrap_or (or_else o p.default) "";
  secret = p.secret;
  defaulted = is_none o;
}

answer-Made : (p : VarPrompt) (o : Option String) (a : Answer) → answer p o ≡ ok a → Made p o a
unfolding answer made_answer
answer-Made p o a e = elim (Bool-cases (too_short_to_mask p (unwrap_or (or_else o p.default) ""))) [
  | inl short ↦ absurd (cc (rw short at e))
  | inr fine ↦
      let is : made_answer p o ≡ a = cc (rw fine at e) in
      subst (Made p o) is (record {
        named = refl;
        kept_secret = refl;
        can_be_masked = fine;
        value_is = refl;
        defaulted_is = refl;
      })
]

Made-flag :
    (given : List Pair) (p : VarPrompt) (v : String) (a : Answer)
    → given_value given p.name ≡ some v
    → Made p (some v) a
    → IsAnswer given p a
Made-flag given p v a e m = record {
  named = m.named;
  kept_secret = m.kept_secret;
  can_be_masked = m.can_be_masked;
  from_flag = rw e (m.value_is, m.defaulted_is);
  or_default = inl m.defaulted_is;
}

default-cases :
    (p : VarPrompt) (o : Option String) (a : Answer)
    → Made p o a
    → (a.defaulted ≡ false) ⊎ (a.value ≡ unwrap_or p.default "")
default-cases p none a m = inr m.value_is
default-cases p (some v) a m = inl m.defaulted_is

Made-asked :
    (given : List Pair) (p : VarPrompt) (o : Option String) (a : Answer)
    → given_value given p.name ≡ none
    → Made p o a
    → IsAnswer given p a
Made-asked given p o a e m = record {
  named = m.named;
  kept_secret = m.kept_secret;
  can_be_masked = m.can_be_masked;
  from_flag = rw e tt;
  or_default = default-cases p o a m;
}

ok-injective : {A : Type 0} {x y : A} → ◌≡◌ {A = Result GlideshError A} (ok x) (ok y) → x ≡ y
ok-injective e = cc

module _ {W : Type 0} (ask : VarPrompt → W → Result GlideshError (Option String) × W)
    (interactive : Bool) (given : List Pair) where
  answered-asked :
      (p : VarPrompt) (r : Result GlideshError (Option String) × W) (a : Answer) (w' : W)
      → given_value given p.name ≡ none
      → answered ask interactive p r ≡ (ok a, w')
      → IsAnswer given p a
  answered-asked p (ok o, w) a w' e h =
      Made-asked given p o a e (answer-Made p o a (ap (λ q. q.0) h))
  answered-asked p (err x, w) a w' e h = absurd (cc (ap (λ q. q.0) h))

  answered-IsAnswer :
      (p : VarPrompt) (w w' : W) (a : Answer)
      → answered ask interactive p (given_for ask interactive (given_value given p.name) p w)
        ≡ (ok a, w')
      → IsAnswer given p a
  unfolding given_for
  answered-IsAnswer p w w' a h = elim (Option-cases (given_value given p.name)) [
    | inl e ↦ answered-asked p (given_for ask interactive none p w) a w' e (rw e at h)
    | inr (v, e) ↦ Made-flag given p v a e (answer-Made p (some v) a (ap (λ q. q.0) (rw e at h)))
  ]

  and_rest-ok :
      (a : Answer) (r : Result GlideshError (List Answer) × W) (answers : List Answer) (w' : W)
      → and_rest ask interactive a r ≡ (ok answers, w')
      → (more : List Answer) × (r ≡ (ok more, w')) × (answers ≡ a ∷ more)
  and_rest-ok a (ok more, w) answers w' e =
      (more, ap (λ u. (ok more, u)) (ap (λ q. q.1) e), sym (ok-injective (ap (λ q. q.0) e)))
  and_rest-ok a (err x, w) answers w' e = absurd (cc (ap (λ q. q.0) e))

  and_more-ok :
      (r : Result GlideshError Answer × W) (f : W → Result GlideshError (List Answer) × W)
      (answers : List Answer) (w' : W)
      → and_more ask interactive r f ≡ (ok answers, w')
      → (a : Answer) × (u : W) × (more : List Answer) × (r ≡ (ok a, u))
        × (f u ≡ (ok more, w'))
        × (answers ≡ a ∷ more)
  and_more-ok (ok a, u) f answers w' e =
      let (more, rest, made) = and_rest-ok a (f u) answers w' e in (a, u, more, refl, rest, made)
  and_more-ok (err x, u) f answers w' e = absurd (cc (ap (λ q. q.0) e))

  answer_all-AreAnswers :
      (ps : List VarPrompt) (w w' : W) (answers : List Answer)
      → answer_all ask interactive ps given w ≡ (ok answers, w')
      → AreAnswers given ps answers
  unfolding answer_all
  answer_all-AreAnswers [] w w' answers e =
      let none_left : [] ≡ answers = ok-injective (ap (λ q. q.0) e) in
      subst (AreAnswers given []) none_left tt
  answer_all-AreAnswers (p ∷ ps) w w' answers e =
      let (a, u, more, first, rest, made) =
        and_more-ok
          (answered ask interactive p (given_for ask interactive (given_value given p.name) p w))
          (answer_all ask interactive ps given) answers w' e in
      rw made (answered-IsAnswer p w u a first, answer_all-AreAnswers ps u w' more rest)

  unless_missing-ok :
      (ms : List String) (r : Result GlideshError (List Answer) × W) (w w' : W)
      (answers : List Answer)
      → unless_missing ask interactive ms r w ≡ (ok answers, w')
      → r ≡ (ok answers, w')
  unless_missing-ok [] r w w' answers e = e
  unless_missing-ok (m ∷ ms) r w w' answers e = absurd (cc (ap (λ q. q.0) e))

  resolve_given-AreAnswers :
      (ps : List VarPrompt) (unknown : List String) (w w' : W) (answers : List Answer)
      → resolve_given ask interactive ps given unknown w ≡ (ok answers, w')
      → AreAnswers given ps answers × (unknown ≡ [])
  unfolding resolve_given
  resolve_given-AreAnswers ps [] w w' answers e = (
    answer_all-AreAnswers ps w w' answers
        (unless_missing-ok (if interactive then [] else missing ps given) _ w w' answers e),
    refl,
  )
  resolve_given-AreAnswers ps (u ∷ us) w w' answers e = absurd (cc (ap (λ q. q.0) e))

module _ {W : Type 0} (ask : VarPrompt → W → Result GlideshError (Option String) × W)
    (interactive : Bool) where
  with_flags-AreAnswers :
      (ps : List VarPrompt) (flags : Result GlideshError (List Pair)) (w w' : W)
      (answers : List Answer)
      → with_flags ask interactive ps flags w ≡ (ok answers, w')
      → (given : List Pair) × (flags ≡ ok given)
        × (unknown_from 1 ps given ≡ [])
        × AreAnswers given ps answers
  with_flags-AreAnswers ps (ok given) w w' answers e =
      let (all, known) =
        resolve_given-AreAnswers ask interactive given ps (unknown_from 1 ps given) w w' answers
          e in
      (given, refl, known, all)
  with_flags-AreAnswers ps (err x) w w' answers e = absurd (cc (ap (λ q. q.0) e))

  -- A run that goes on has, for each prompt in order, one answer with its name and its secrecy:
  -- the value of its flag where it has one, and otherwise marked as a default only if it is the
  -- prompt's default or empty; no secret answer is too short to be masked; and every flag that was
  -- given answers a prompt.
  pub resolve_answers-AreAnswers :
      (prompts : List VarPrompt) (flags : List String) (w w' : W) (answers : List Answer)
      → resolve_answers ask interactive prompts flags w ≡ (ok answers, w')
      → (given : List Pair) × (parse_var_flags flags ≡ ok given)
        × (unknown_from 1 prompts given ≡ [])
        × AreAnswers given prompts answers
  unfolding resolve_answers
  resolve_answers-AreAnswers prompts flags w w' answers e =
      with_flags-AreAnswers prompts (parse_var_flags flags) w w' answers e
