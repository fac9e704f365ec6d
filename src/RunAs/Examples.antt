-- ===== src/RunAs/Examples.antt =====
-- A task that cancels the escalation of its plan, and one that names only the method.
use mathlib.Core.List.{foldl}
use glidesh.Common.{◌≡◌, none, some, [], ◌∷◌}
use glidesh.RunAs.{su, disabled, RunAsUser, RunAsSpec, merge_over, resolve}
use glidesh.RunAs.Levels.{effective, first_user, first_method, resolve-merge_over}

abbrev cancelled : RunAsSpec
cancelled = record { user = some disabled; method = none }

abbrev as_deploy : RunAsSpec
as_deploy = record { user = some (RunAsUser.user "deploy"); method = some su }

resolve-merge_over_example :
    resolve (foldl merge_over cancelled (as_deploy ∷ [])) none
    ≡ effective
        (first_user (cancelled ∷ as_deploy ∷ []))
        (first_method (cancelled ∷ as_deploy ∷ []))
        none
resolve-merge_over_example = resolve-merge_over cancelled (as_deploy ∷ []) none
