-- ===== src/Prompts/Merging.antt =====
-- The prompts of several plans, each name once.
use glidesh.Common.{
  ◌≡◌, refl, arith, String, Bool, false, ◌&&◌, ◌||◌, List, [], ◌∷◌, any, str_eq, eq_iff, Bool-cases,
  inl, inr,
}
use glidesh.Plan.{VarPrompt, Plan}
use glidesh.Prompts.{merge_prompt, add_prompt, add_prompts, declared, distinct_prompts}

-- A prompt of this name that is secret.
abbrev pub is_secret : String → VarPrompt → Bool
is_secret name p = str_eq p.name name && p.secret

add_prompt-is_secret :
    (name : String) (ps : List VarPrompt) (p : VarPrompt)
    → any (is_secret name) (add_prompt ps p) ≡ (any (is_secret name) ps || is_secret name p)
unfolding add_prompt merge_prompt
add_prompt-is_secret name [] p = ground arith
add_prompt-is_secret name (seen ∷ ps) p = ground (
  arith,
  add_prompt-is_secret name ps p,
  eq_iff seen.name p.name,
  eq_iff seen.name name,
  eq_iff p.name name,
)

add_prompts-is_secret :
    (name : String) (ps qs : List VarPrompt)
    → any (is_secret name) (add_prompts ps qs)
      ≡ (any (is_secret name) ps || any (is_secret name) qs)
unfolding add_prompts
add_prompts-is_secret name ps [] = ground arith
add_prompts-is_secret name ps (q ∷ qs) =
    ground (arith, add_prompts-is_secret name (add_prompt ps q) qs, add_prompt-is_secret name ps q)

-- The prompts with this name.
abbrev pub named : String → VarPrompt → Bool
named name p = str_eq p.name name

-- Each name stands once.
abbrev pub Distinct : List VarPrompt → Type 0
Distinct [] = Unit
Distinct (p ∷ ps) = (any (named p.name) ps ≡ false) × Distinct ps

add_prompt-named :
    (name : String) (ps : List VarPrompt) (p : VarPrompt)
    → any (named name) (add_prompt ps p) ≡ (any (named name) ps || named name p)
unfolding add_prompt merge_prompt
add_prompt-named name [] p = ground arith
add_prompt-named name (seen ∷ ps) p = ground (
  arith,
  add_prompt-named name ps p,
  eq_iff seen.name p.name,
  eq_iff seen.name name,
  eq_iff p.name name,
)

add_prompt-Distinct :
    (ps : List VarPrompt) (p : VarPrompt) → Distinct ps → Distinct (add_prompt ps p)
unfolding add_prompt merge_prompt
add_prompt-Distinct [] p d = (refl, tt)
add_prompt-Distinct (seen ∷ ps) p d = elim (Bool-cases (str_eq seen.name p.name)) [
  | inl e ↦ rw (e, add_prompt) d
  | inr e ↦
      rw (e, add_prompt)
        (
          ground (
            arith,
            d.0,
            add_prompt-named seen.name ps p,
            eq_iff seen.name p.name,
            eq_iff p.name seen.name,
          ),
          add_prompt-Distinct ps p d.1,
        )
]

add_prompts-Distinct : (ps qs : List VarPrompt) → Distinct ps → Distinct (add_prompts ps qs)
unfolding add_prompts
add_prompts-Distinct ps [] d = d
add_prompts-Distinct ps (q ∷ qs) d =
    add_prompts-Distinct (add_prompt ps q) qs (add_prompt-Distinct ps q d)

-- The prompts of several plans have each name once, and a name asks for a secret exactly when a
-- plan declares it as one.
pub distinct_prompts-is_secret :
    (plans : List Plan) (name : String)
    → Distinct (distinct_prompts plans)
      × (any (is_secret name) (distinct_prompts plans) ≡ any (is_secret name) (declared plans))
unfolding distinct_prompts
distinct_prompts-is_secret plans name =
    (add_prompts-Distinct [] (declared plans) tt, add_prompts-is_secret name [] (declared plans))
