-- ===== src/Tags.antt =====
-- config/tags.rs: tag lists and the `--tags` / `--skip-tags` selection of a run. A plan is the
-- list of the tags of its steps.
pub mod Selection
pub mod Merge
mod Examples
use Prim.Native.Char.{code}
use glidesh.Common.{
  ℕ, ltb, String, Bool, true, false, not, ◌&&◌, ◌||◌, Option, none, some, List, [], ◌∷◌, ◌++◌, ◌==◌,
  if◌then◌else◌, any, find, keep, contains, str_eq, fmt, join, glue, Result, ok, err, ◌>>=◌,
  GlideshError, config_parse, other, map,
}
use glidesh.Common.Chars.{is_whitespace, trim, split_on}

-- `const ALWAYS`
abbrev pub always : String
always = "always"

unfoldable pub has_whitespace : String → Bool
has_whitespace String.[] = false
has_whitespace (String.◌∷◌ c s) = is_whitespace (code c) || has_whitespace s

-- The loop over the trimmed parts: an empty part or one with blanks inside is an error, and a
-- tag that was seen is left out.
unfoldable pub collect_tags :
    GlideshError → List String → List String → Result GlideshError (List String)
collect_tags invalid [] tags = ok tags
collect_tags invalid (tag ∷ parts) tags =
    let next =
      collect_tags invalid parts (if contains tags tag then tags else tags ++ (tag ∷ [])) in
    if str_eq tag "" || has_whitespace tag then err invalid else next

-- `list.split(',').map(str::trim)`
unfoldable pub parts : String → List String
unfolding split_on trim
parts list = let (first, rest) = split_on b',' list in map trim (first ∷ rest)

unfoldable pub parse_list : String → String → Result GlideshError (List String)
unfolding collect_tags has_whitespace fmt parts
parse_list list what =
    collect_tags
      (config_parse (
        fmt (
          what ∷ ": invalid tag list '" ∷ list
          ∷ "' (expected names separated by commas, like \"web,deploy\")" ∷ [])))
      (parts list) []

-- `merge`
unfoldable pub merge : List String → List String → List String
merge own [] = own
merge own (tag ∷ extra) = merge (if contains own tag then own else own ++ (tag ∷ [])) extra

pub record TagFilter : Type 0 where
  pub only : List String
  pub skip : List String

-- `TagFilter::from_args`
abbrev list_or_empty : Option String → String → Result GlideshError (List String)
list_or_empty none what = ok []
list_or_empty (some list) what = parse_list list what

unfoldable pub from_args : Option String → Option String → Result GlideshError TagFilter
from_args tags skip_tags = do
  only ← list_or_empty tags "--tags"
  skip ← list_or_empty skip_tags "--skip-tags"
  ok (record { only = only; skip = skip })

abbrev is_empty : List String → Bool
is_empty [] = true
is_empty (s ∷ ss) = false

-- `selected` in `excludes`.
unfoldable pub selects : TagFilter → List String → Bool
selects filter step_tags =
    is_empty filter.only || any (λ t. str_eq t always || contains filter.only t) step_tags

-- `TagFilter::excludes`: why a step is left out.
unfoldable pub excludes : TagFilter → List String → Option String
unfolding selects fmt join
excludes filter step_tags = elim (find (λ t. contains filter.skip t) step_tags) [
  | some tag ↦ some (fmt ("--skip-tags " ∷ tag ∷ []))
  | none ↦
      if selects filter step_tags
      then none
      else some (fmt ("not in --tags " ∷ join "," filter.only ∷ []))
]

-- The tags of every step of every plan, as `check_known` collects them.
abbrev pub known_tags : List (List (List String)) → List String
known_tags [] = []
known_tags ([] ∷ plans) = known_tags plans
known_tags ((step ∷ steps) ∷ plans) = step ++ known_tags (steps ∷ plans)

-- Strings in the order of `Ord for str`: by their bytes, which is by their code points.
abbrev pub str_lt : String → String → Bool
str_lt String.[] String.[] = false
str_lt String.[] (String.◌∷◌ d t) = true
str_lt (String.◌∷◌ c s) String.[] = false
str_lt (String.◌∷◌ c s) (String.◌∷◌ d t) =
    let later = str_lt s t in ltb (code c) (code d) || (code c == code d && later)

abbrev insert_sorted : String → List String → List String
insert_sorted t [] = t ∷ []
insert_sorted t (u ∷ ts) =
    let rest = insert_sorted t ts in if str_lt u t then u ∷ rest else t ∷ u ∷ ts

-- `sort_unstable`
abbrev pub sort : List String → List String
sort [] = []
sort (t ∷ ts) = insert_sorted t (sort ts)

-- `dedup`: a tag goes where it follows itself.
abbrev dedup_after : String → List String → List String
dedup_after last [] = []
dedup_after last (t ∷ ts) = let rest = dedup_after t ts in if str_eq last t then rest else t ∷ rest

abbrev dedup : List String → List String
dedup [] = []
dedup (t ∷ ts) = t ∷ dedup_after t ts

abbrev in_use : List String → String
in_use [] = "no step has tags"
in_use (t ∷ ts) = fmt ("tags in use: " ∷ join ", " (dedup (sort (t ∷ ts))) ∷ [])

-- The tags of the selection that no step carries.
abbrev pub unknown_tags : TagFilter → List (List (List String)) → List String
unknown_tags filter plans =
    let known = known_tags plans in keep (λ t. not (contains known t)) (filter.only ++ filter.skip)

abbrev pub report_unknown : List String → List String → Result {0} GlideshError Unit
report_unknown known [] = ok tt
report_unknown known (t ∷ ts) = err (
    other (
      fmt (
        "no step is tagged "
        ∷ join ", " (map (λ u. fmt ("'" ∷ u ∷ "'" ∷ [])) (t ∷ ts))
        ∷ " ("
        ∷ in_use known
        ∷ ")"
        ∷ [])))

unfoldable pub check_known : TagFilter → List (List (List String)) → Result {0} GlideshError Unit
unfolding fmt join
check_known filter plans = report_unknown (known_tags plans) (unknown_tags filter plans)
