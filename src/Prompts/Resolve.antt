-- ===== src/Prompts/Resolve.antt =====
-- `resolve_answers`, `settle_typed_answer` and `apply_answers` of config/prompts.rs. Asking at the
-- terminal is an argument, on a state `W` of the world.
use glidesh.Common.{
  ℕ, ◌+◌, String, Bool, true, false, ◌&&◌, Option, none, some, List, [], ◌∷◌, map, if◌then◌else◌,
  any, keep, str_eq, is_none, or_else, unwrap_or, Result, ok, err, GlideshError, other, fmt, show,
  join,
}
use glidesh.Common.Dict.{insert}
use glidesh.Plan.{VarPrompt, Plan}
use glidesh.Prompts.{
  Answer, parse_var_flags, closest_prompt, too_short_to_mask, short_secret_problem,
}

abbrev pub Pair : Type 0
Pair = String × String

abbrev names : List VarPrompt → List String
names prompts = map (λ (p : VarPrompt). p.name) prompts

abbrev asked : List VarPrompt → String → Bool
asked prompts name = any (λ (p : VarPrompt). str_eq p.name name) prompts

abbrev unknown_flag : ℕ → Option String → String
unknown_flag position (some declared) =
    fmt ("#" ∷ show position ∷ " (did you mean " ∷ declared ∷ "?)" ∷ [])
unknown_flag position none = fmt ("#" ∷ show position ∷ [])

-- The flags that answer no prompt, by their position.
unfoldable pub unknown_from : ℕ → List VarPrompt → List Pair → List String
unfolding closest_prompt show fmt
unknown_from position prompts [] = []
unknown_from position prompts ((name, value) ∷ given) =
    let rest = unknown_from (position + 1) prompts given in
    if asked prompts name then rest else unknown_flag position (closest_prompt name prompts) ∷ rest

abbrev declared_text : List VarPrompt → String
declared_text [] = "the plan declares no vars-prompt"
declared_text (p ∷ ps) = fmt ("its vars-prompt declares: " ∷ join ", " (names (p ∷ ps)) ∷ [])

unfoldable pub unknown_error : List VarPrompt → List String → GlideshError
unfolding fmt join
unknown_error prompts unknown = other (
    fmt (
      "--var "
      ∷ join ", " unknown
      ∷ " names a variable the plan does not ask for ("
      ∷ declared_text prompts
      ∷ "). --var only answers a vars-prompt; the name is not shown, since it may be part of a password"
      ∷ []))

unfoldable pub given_value : List Pair → String → Option String
given_value [] name = none
given_value ((n, v) ∷ given) name = if str_eq n name then some v else given_value given name

unfoldable pub missing_error : List String → GlideshError
unfolding fmt join
missing_error missing = other (
    fmt (
      "stdin is not a terminal, so these prompted variables need an answer on the command line: "
      ∷ join ", " missing
      ∷ ". Pass "
      ∷ join " " (map (λ n. fmt ("--var " ∷ n ∷ "=<value>" ∷ [])) missing)
      ∷ []))

unfoldable pub missing : List VarPrompt → List Pair → List String
unfolding given_value
missing prompts given =
    names
      (keep (λ (p : VarPrompt). is_none p.default && is_none (given_value given p.name)) prompts)

-- The answer to a prompt from what was given for it, if anything was.
unfoldable pub answer : VarPrompt → Option String → Result GlideshError Answer
unfolding too_short_to_mask fmt
answer p given =
    let value = unwrap_or (or_else given p.default) "" in
    if too_short_to_mask p value
    then err (other (fmt (p.name ∷ ": " ∷ short_secret_problem ∷ [])))
    else ok (record { name = p.name; value = value; secret = p.secret; defaulted = is_none given })

module _ {W : Type 0} (ask : VarPrompt → W → Result GlideshError (Option String) × W)
    (interactive : Bool) where
  abbrev pub Asked : Type 0
  Asked = Result GlideshError (Option String) × W

  -- A flag's value, else the terminal's, else nothing.
  unfoldable pub given_for : Option String → VarPrompt → W → Asked
  given_for (some v) p w = (ok (some v), w)
  given_for none p w = if interactive then ask p w else (ok none, w)

  abbrev pub answered : VarPrompt → Asked → Result GlideshError Answer × W
  answered p (ok given, w) = (answer p given, w)
  answered p (err e, w) = (err e, w)

  abbrev pub and_rest :
      Answer → Result GlideshError (List Answer) × W → Result GlideshError (List Answer) × W
  and_rest a (ok more, w) = (ok (a ∷ more), w)
  and_rest a (err e, w) = (err e, w)

  abbrev pub and_more :
      Result GlideshError Answer × W
      → (W → Result GlideshError (List Answer) × W)
      → Result GlideshError (List Answer) × W
  and_more (err e, w) more = (err e, w)
  and_more (ok a, w) more = and_rest a (more w)

  unfoldable pub answer_all : List VarPrompt → List Pair → W → Result GlideshError (List Answer) × W
  unfolding given_for answer given_value
  answer_all [] given w = (ok [], w)
  answer_all (p ∷ ps) given w =
      and_more (answered p (given_for (given_value given p.name) p w)) (answer_all ps given)

  abbrev pub unless_missing :
      List String
      → Result GlideshError (List Answer) × W
      → W
      → Result GlideshError (List Answer) × W
  unless_missing [] answers w = answers
  unless_missing (n ∷ ns) answers w = (err (missing_error (n ∷ ns)), w)

  unfoldable pub resolve_given :
      List VarPrompt → List Pair → List String → W → Result GlideshError (List Answer) × W
  unfolding answer_all missing missing_error unknown_error
  resolve_given prompts given (u ∷ us) w = (err (unknown_error prompts (u ∷ us)), w)
  resolve_given prompts given [] w =
      unless_missing (if interactive then [] else missing prompts given)
        (answer_all prompts given w) w

  abbrev pub with_flags :
      List VarPrompt → Result GlideshError (List Pair) → W → Result GlideshError (List Answer) × W
  with_flags prompts (err e) w = (err e, w)
  with_flags prompts (ok given) w = resolve_given prompts given (unknown_from 1 prompts given) w

  unfoldable pub resolve_answers :
      List VarPrompt → List String → W → Result GlideshError (List Answer) × W
  unfolding resolve_given parse_var_flags unknown_from
  resolve_answers prompts var_flags w = with_flags prompts (parse_var_flags var_flags) w

-- A line typed at the terminal: the line, the default, or why to ask again.
abbrev typed_answer : VarPrompt → Option String → Bool → String → Result String (Option String)
typed_answer p default' false typed = ok (some typed)
typed_answer p (some d) true typed = ok none
typed_answer p none true typed = err (fmt ("'" ∷ p.name ∷ "' needs a value." ∷ []))

abbrev maskable : VarPrompt → Result String (Option String) → Result String (Option String)
maskable p (err e) = err e
maskable p (ok a) =
    if too_short_to_mask p (unwrap_or (or_else a p.default) "")
    then err short_secret_problem
    else ok a

unfoldable pub settle_typed_answer : VarPrompt → String → Result String (Option String)
unfolding fmt too_short_to_mask
settle_typed_answer p typed = maskable p (typed_answer p p.default (str_eq typed "") typed)

unfoldable pub apply_answer : Plan → Answer → Plan
unfolding insert
apply_answer plan a =
    if asked plan.prompts a.name
    then (if a.defaulted
        then record plan { vars = insert plan.vars a.name a.value }
        else record plan { answers = insert plan.answers a.name a.value })
    else plan

unfoldable pub apply_answers : Plan → List Answer → Plan
unfolding apply_answer
apply_answers plan [] = plan
apply_answers plan (a ∷ more) = apply_answers (apply_answer plan a) more
