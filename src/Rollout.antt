-- ===== src/Rollout.antt =====
-- executor/rollout.rs: the batches of a rolling run, and when `max-fail` stops it.
-- `Amount` is of config/types.rs. A percentage is a `u8` of 0 to 100 and hosts are few, so the
-- products `total * p` and `failed * 100` do not reach the bound of `usize`.
pub mod Batches
pub mod Stop
mod Examples
use glidesh.Common.{
  ℕ, zero, suc, ◌+◌, ◌-◌, ◌*◌, ◌/◌, min, max, String, Bool, true, false, ◌&&◌, Option, none, some,
  List, [], ◌∷◌, ltb, ◌==◌, if◌then◌else◌, show, fmt,
}

pub data Amount : Type 0 where
  count : ℕ → Amount
  percent : ℕ → Amount

-- The `match current` of the loop, with `.max(1)`.
unfoldable pub batch_size : ℕ → Amount → ℕ
batch_size total (count n) = max n 1
batch_size total (percent p) = max (total * p / 100) 1

-- `values.next()`: the value that is current in this round, and the values left.
unfoldable pub next_value : Amount → List Amount → Amount × List Amount
next_value current [] = (current, [])
next_value current (next ∷ values) = (next, values)

-- `while left > 0`. A round takes at least one host, so `left` rounds are enough fuel; what the
-- fuel leaves undone is `none`.
unfoldable pub batch_loop : ℕ → ℕ → ℕ → Amount → List Amount → Option (List ℕ)
unfolding batch_size next_value
batch_loop zero total zero current values = some []
batch_loop zero total (suc left) current values = none
batch_loop (suc fuel) total zero current values = some []
batch_loop (suc fuel) total (suc left) current values =
    let (now, values') = next_value current values in
    let size = min (batch_size total now) (suc left) in
    elim (batch_loop fuel total (suc left - size) now values') [
      | none ↦ none
      | some sizes ↦ some (size ∷ sizes)
    ]

-- `batch_sizes`; the fuel is the number of hosts.
unfoldable pub batch_sizes : ℕ → List Amount → Option (List ℕ)
unfolding batch_loop
batch_sizes total [] = some (total ∷ [])
batch_sizes zero (first ∷ rest) = some (0 ∷ [])
batch_sizes (suc n) (first ∷ rest) = batch_loop (suc n) (suc n) (suc n) first (first ∷ rest)

unfoldable pub exceeded : Option Amount → ℕ → ℕ → ℕ → ℕ → Bool
exceeded (some (count n)) failed total batch batch_failed = ltb n failed
exceeded (some (percent p)) failed total batch batch_failed = ltb (p * total) (failed * 100)
exceeded none failed total batch batch_failed = ltb 0 batch && batch_failed == batch

unfoldable pub reason_text : Option Amount → ℕ → ℕ → ℕ → ℕ → String
unfolding fmt show
reason_text (some (count n)) failed total batch batch_failed =
    fmt (show failed ∷ " of " ∷ show total ∷ " hosts failed, more than max-fail " ∷ show n ∷ [])
reason_text (some (percent p)) failed total batch batch_failed =
    fmt
      (show failed ∷ " of " ∷ show total ∷ " hosts failed, more than max-fail " ∷ show p ∷ "%" ∷ [])
reason_text none failed total batch batch_failed =
    fmt
      ("every host in the last batch failed (" ∷ show batch_failed ∷ " of " ∷ show batch ∷ ")" ∷ [])

unfoldable pub stop_reason : Option Amount → ℕ → ℕ → ℕ → ℕ → Option String
unfolding exceeded reason_text
stop_reason max_fail failed total batch batch_failed =
    if exceeded max_fail failed total batch batch_failed
    then some (reason_text max_fail failed total batch batch_failed)
    else none
