-- ===== src/Prompts.antt =====
-- config/prompts.rs: the answers to a plan's `vars-prompt`.
pub mod Distance
pub mod Resolve
pub mod Answers
pub mod Merging
mod Examples
use Prim.Native.Char.{Char, code}
use glidesh.Common.{
  ℕ, zero, suc, ◌+◌, ◌≤◌, min, ◌≡◌, refl, String, Bool, true, false, ◌&&◌, ◌||◌, not, Option, none,
  some, List, [], ◌∷◌, ◌++◌, map, if◌then◌else◌, ◌==◌, ltb, leb, any, keep, length, str_eq, is_none,
  or_else, unwrap_or, Result, ok, err, ◌>>=◌, GlideshError, other, fmt, show, join, one,
}
use glidesh.Common.Chars.{trim, bytes, split_once}
use glidesh.Common.Dict.{Dict, insert}
use glidesh.Plan.{VarPrompt, Plan}
use glidesh.Secrets.{min_redactable_len}

pub record Answer : Type 0 where
  pub name : String
  pub value : String
  pub secret : Bool
  pub defaulted : Bool

abbrev same_default : Option String → Option String → Option String
same_default none none = none
same_default none (some b) = none
same_default (some a) none = none
same_default (some a) (some b) = if str_eq a b then some a else none

-- A prompt that was seen, with a later one of the same name.
unfoldable pub merge_prompt : VarPrompt → VarPrompt → VarPrompt
merge_prompt seen prompt = record seen {
  secret = seen.secret || prompt.secret;
  default = same_default seen.default prompt.default;
}

unfoldable pub add_prompt : List VarPrompt → VarPrompt → List VarPrompt
unfolding merge_prompt
add_prompt [] prompt = prompt ∷ []
add_prompt (seen ∷ prompts) prompt =
    let rest = add_prompt prompts prompt in
    if str_eq seen.name prompt.name then merge_prompt seen prompt ∷ prompts else seen ∷ rest

unfoldable pub add_prompts : List VarPrompt → List VarPrompt → List VarPrompt
unfolding add_prompt
add_prompts prompts [] = prompts
add_prompts prompts (p ∷ ps) = add_prompts (add_prompt prompts p) ps

abbrev pub declared : List Plan → List VarPrompt
declared [] = []
declared (p ∷ ps) = p.prompts ++ declared ps

unfoldable pub distinct_prompts : List Plan → List VarPrompt
unfolding add_prompts
distinct_prompts plans = add_prompts [] (declared plans)

unfoldable pub bad_flag : ℕ → Bool → GlideshError
unfolding fmt show
bad_flag position has_sign = other (
    fmt (
      "--var #"
      ∷ show position
      ∷ " has "
      ∷ (if has_sign then "no name before '='" else "no '='")
      ∷ ": it must be name=value, e.g. --var release=v1.2"
      ∷ []))

unfoldable pub repeated_flag : ℕ → GlideshError
unfolding fmt show
repeated_flag position =
    other (fmt ("--var #" ∷ show position ∷ " names the same variable as an earlier --var" ∷ []))

abbrev Pair : Type 0
Pair = String × String

abbrev add_flag : List Pair → ℕ → String → String → Result GlideshError (List Pair)
add_flag pairs position name value =
    if any (λ (p : Pair). str_eq p.0 name) pairs
    then err (repeated_flag position)
    else ok (pairs ++ (name, value) ∷ [])

unfoldable pub parse_flag : List Pair → ℕ → Option Pair → Result GlideshError (List Pair)
unfolding bad_flag repeated_flag trim
parse_flag pairs position none = err (bad_flag position false)
parse_flag pairs position (some (name, value)) =
    if str_eq (trim name) ""
    then err (bad_flag position true)
    else add_flag pairs position (trim name) value

unfoldable pub parse_flags_from : ℕ → List Pair → List String → Result GlideshError (List Pair)
unfolding parse_flag split_once
parse_flags_from position pairs [] = ok pairs
parse_flags_from position pairs (flag ∷ flags) = do
  pairs' ← parse_flag pairs position (split_once b'=' flag)
  parse_flags_from (position + 1) pairs' flags

unfoldable pub parse_var_flags : List String → Result GlideshError (List Pair)
unfolding parse_flags_from
parse_var_flags flags = parse_flags_from 1 [] flags

unfoldable pub chars : String → List ℕ
chars String.[] = []
chars (String.◌∷◌ c s) = code c ∷ chars s

-- The rest of a row, from the old row: `diagonal` and the first of the old row are above left and
-- above, `left` is the number that was written last.
unfoldable pub next_row : ℕ → ℕ → ℕ → List ℕ → List ℕ → List ℕ
next_row ca diagonal left [] row = []
next_row ca diagonal left (cb ∷ b) [] = []
next_row ca diagonal left (cb ∷ b) (above ∷ row) =
    let value = min (min (diagonal + one (not (ca == cb))) (above + 1)) (left + 1) in
    value ∷ next_row ca above value b row

-- `row[0] = i + 1`, and the rest.
abbrev pub write_row : ℕ → ℕ → List ℕ → List ℕ → List ℕ
write_row i ca b [] = []
write_row i ca b (first ∷ row) = (i + 1) ∷ next_row ca first (i + 1) b row

unfoldable pub rows : ℕ → List ℕ → List ℕ → List ℕ → List ℕ
unfolding next_row
rows i [] b row = row
rows i (ca ∷ a) b row = rows (i + 1) a b (write_row i ca b row)

-- `0..=n`, from `from`.
unfoldable pub count_up : ℕ → List ℕ → List ℕ
count_up from [] = from ∷ []
count_up from (c ∷ b) = from ∷ count_up (from + 1) b

abbrev pub last_of : List ℕ → ℕ
last_of [] = 0
last_of (n ∷ []) = n
last_of (n ∷ m ∷ ns) = last_of (m ∷ ns)

unfoldable pub distance : List ℕ → List ℕ → ℕ
unfolding rows count_up
distance a b = last_of (rows 0 a b (count_up 0 b))

unfoldable pub edit_distance : String → String → ℕ
unfolding distance chars
edit_distance a b = distance (chars a) (chars b)

-- `min_by_key`, which keeps the first of the least.
abbrev nearer : ℕ → String → Option (ℕ × String) → Option (ℕ × String)
nearer d known none = some (d, known)
nearer d known (some (e, later)) = if leb d e then some (d, known) else some (e, later)

unfoldable pub closest_of : String → List String → Option (ℕ × String)
unfolding edit_distance bytes
closest_of name [] = none
closest_of name (known ∷ ks) =
    let rest = closest_of name ks in
    let d = edit_distance name known in
    if leb d 2 && ltb d (bytes known) then nearer d known rest else rest

abbrev second : Option (ℕ × String) → Option String
second none = none
second (some (d, s)) = some s

unfoldable pub closest : String → List String → Option String
unfolding closest_of
closest name known = second (closest_of name known)

unfoldable pub closest_prompt : String → List VarPrompt → Option String
unfolding closest
closest_prompt name prompts = closest name (map (λ (p : VarPrompt). p.name) prompts)

unfoldable pub too_short_to_mask : VarPrompt → String → Bool
unfolding bytes
too_short_to_mask prompt value =
    prompt.secret && not (str_eq value "") && ltb (bytes value) min_redactable_len

abbrev pub short_secret_problem : String
short_secret_problem =
    "a secret answer needs at least 4 bytes (4 plain ASCII characters), or it could not be masked as *** in output and logs"
