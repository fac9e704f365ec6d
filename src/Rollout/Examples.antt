-- ===== src/Rollout/Examples.antt =====
-- The batches of the tests of executor/rollout.rs, and the theorems at concrete runs.
use glidesh.Common.{◌≡◌, refl, some, [], ◌∷◌, arith}
use glidesh.Rollout.{count, percent, batch_sizes, stop_reason}
use glidesh.Rollout.Batches.{Splits, batch_sizes-Splits}

canary : batch_sizes 9 (count 1 ∷ percent 50 ∷ []) ≡ some (1 ∷ 4 ∷ 4 ∷ [])
unfolding batch_sizes
canary = refl

last_repeats : batch_sizes 6 (count 1 ∷ count 2 ∷ []) ≡ some (1 ∷ 2 ∷ 2 ∷ 1 ∷ [])
unfolding batch_sizes
last_repeats = refl

share_of_all :
    stop_reason (some (percent 20)) 3 10 2 1 ≡ some "3 of 10 hosts failed, more than max-fail 20%"
unfolding stop_reason
share_of_all = refl

batch_sizes-Splits_example :
    Splits 9 9 (count 1) (count 1 ∷ percent 50 ∷ []) (batch_sizes 9 (count 1 ∷ percent 50 ∷ []))
batch_sizes-Splits_example = batch_sizes-Splits 9 (count 1) (percent 50 ∷ []) (omega arith)
