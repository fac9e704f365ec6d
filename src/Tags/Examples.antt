-- ===== src/Tags/Examples.antt =====
-- Selections, after the tests of config/tags.rs.
use glidesh.Common.{◌≡◌, refl, ◌↔◌, none, some, [], ◌∷◌, ok}
use glidesh.Tags.{TagFilter, excludes, parse_list, parts}
use glidesh.Tags.Selection.{IsSelected, excludes-IsSelected}
use glidesh.Tags.Merge.{Collected, parse_list-Collected}

abbrev web_not_slow : TagFilter
web_not_slow = record { only = "web" ∷ []; skip = "slow" ∷ [] }

skip_wins : excludes web_not_slow ("web" ∷ "slow" ∷ []) ≡ some "--skip-tags slow"
unfolding excludes
skip_wins = refl

always_runs : excludes web_not_slow ("always" ∷ []) ≡ none
unfolding excludes
always_runs = refl

trimmed : parse_list " web, deploy,web" "tags" ≡ ok ("web" ∷ "deploy" ∷ [])
unfolding parse_list
trimmed = refl

excludes-IsSelected_example :
    (excludes web_not_slow ("web" ∷ "db" ∷ []) ≡ none) ↔ IsSelected web_not_slow ("web" ∷ "db" ∷ [])
excludes-IsSelected_example = excludes-IsSelected web_not_slow ("web" ∷ "db" ∷ [])

parse_list-Collected_example : Collected [] (parts "web, deploy") (parse_list "web, deploy" "tags")
parse_list-Collected_example = parse_list-Collected "web, deploy" "tags"
