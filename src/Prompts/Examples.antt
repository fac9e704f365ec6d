-- ===== src/Prompts/Examples.antt =====
-- Prompts, after the tests of config/prompts.rs.
use glidesh.Common.{
  any, ℕ, ◌+◌, ◌≤◌, ◌≡◌, refl, String, true, false, Option, none, some, List, [], ◌∷◌, Result, ok,
  err, other, GlideshError,
}
use glidesh.Plan.{VarPrompt, Plan, sync}
use glidesh.RunAs.{inherit}
use glidesh.Prompts.{
  declared, distinct_prompts, Answer, chars, edit_distance, closest, parse_var_flags,
}
use glidesh.Prompts.Distance.{Edits, finished, same, replaced, edit_distance-IsLeast}
use glidesh.Prompts.Resolve.{Pair, resolve_answers, unknown_from, settle_typed_answer}
use glidesh.Prompts.Merging.{is_secret, Distinct, distinct_prompts-is_secret}
use glidesh.Prompts.Answers.{AreAnswers, resolve_answers-AreAnswers}

kitten : edit_distance "kitten" "sitting" ≡ 3
unfolding edit_distance
kitten = refl

meant : closest "relase" ("host" ∷ "release" ∷ "relaxes" ∷ []) ≡ some "release"
unfolding closest
meant = refl

abbrev way : Edits (chars "abc") (chars "axc") 1
unfolding chars
way = same b'a' (replaced b'b' b'x' (same b'c' finished))

edit_distance-IsLeast_example :
    Edits (chars "abc") (chars "axc") (edit_distance "abc" "axc") × (edit_distance "abc" "axc" ≤ 1)
edit_distance-IsLeast_example = edit_distance-IsLeast "abc" "axc" 1 way

abbrev token_prompt : VarPrompt
token_prompt = record { name = "token"; text = "Token?"; default = none; secret = true }

abbrev release_prompt : VarPrompt
release_prompt = record { name = "release"; text = "?"; default = some "v1"; secret = false }

abbrev silent : VarPrompt → ℕ → Result GlideshError (Option String) × ℕ
silent p w = (ok none, w + 1)

abbrev flags : List String
flags = "token=hunter2=x" ∷ []

abbrev answers : List Answer
answers =
    record { name = "token"; value = "hunter2=x"; secret = true; defaulted = false }
    ∷ record { name = "release"; value = "v1"; secret = false; defaulted = true }
    ∷ []

taken : resolve_answers silent false (token_prompt ∷ release_prompt ∷ []) flags 0 ≡ (ok answers, 0)
unfolding resolve_answers
taken = refl

resolve_answers-AreAnswers_example :
    (given : List Pair) × (parse_var_flags flags ≡ ok given)
    × (unknown_from 1 (token_prompt ∷ release_prompt ∷ []) given ≡ [])
    × AreAnswers given (token_prompt ∷ release_prompt ∷ []) answers
resolve_answers-AreAnswers_example =
    resolve_answers-AreAnswers silent false (token_prompt ∷ release_prompt ∷ []) flags 0 0 answers
      taken

too_short : resolve_answers silent false (token_prompt ∷ []) ("token=abc" ∷ []) 0 ≡ (
  err (
      other
        "token: a secret answer needs at least 4 bytes (4 plain ASCII characters), or it could not be masked as *** in output and logs"),
  0,
)
unfolding resolve_answers
too_short = refl

misnamed : resolve_answers silent true (token_prompt ∷ []) ("tokn=abc" ∷ []) 0 ≡ (
  err (
      other
        "--var #1 (did you mean token?) names a variable the plan does not ask for (its vars-prompt declares: token). --var only answers a vars-prompt; the name is not shown, since it may be part of a password"),
  0,
)
unfolding resolve_answers
misnamed = refl

retyped : settle_typed_answer token_prompt "" ≡ err "'token' needs a value."
unfolding settle_typed_answer
retyped = refl

abbrev asking : List VarPrompt → Plan
asking prompts = record {
  name = "deploy";
  mode = sync;
  serial = [];
  max_fail = none;
  vars = [];
  structured_vars = [];
  vars_files = [];
  prompts = prompts;
  answers = [];
  run_as = inherit;
  items = [];
}

abbrev plans : List Plan
plans =
    asking (record token_prompt { secret = false } ∷ release_prompt ∷ [])
    ∷ asking (token_prompt ∷ [])
    ∷ []

merged : distinct_prompts plans ≡ token_prompt ∷ release_prompt ∷ []
unfolding distinct_prompts
merged = refl

distinct_prompts-is_secret_example :
    Distinct (distinct_prompts plans)
    × (any (is_secret "token") (distinct_prompts plans) ≡ any (is_secret "token") (declared plans))
distinct_prompts-is_secret_example = distinct_prompts-is_secret plans "token"
