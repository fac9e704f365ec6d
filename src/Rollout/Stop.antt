-- ===== src/Rollout/Stop.antt =====
-- When `stop_reason` lets the next batch start.
use glidesh.Common.{ℕ, ◌*◌, ◌≤◌, ◌≡◌, ◌≢◌, ◌↔◌, ◌⊎◌, Option, none, some, arith}
use glidesh.Rollout.{Amount, count, percent, stop_reason}

-- What a run may bear: with `max-fail`, failures up to the count or the share of all its hosts;
-- without it, a last batch that is empty or has a host that did not fail.
abbrev pub Tolerates : Option Amount → ℕ → ℕ → ℕ → ℕ → Type 0
Tolerates (some (count n)) failed total batch batch_failed = failed ≤ n
Tolerates (some (percent p)) failed total batch batch_failed = failed * 100 ≤ p * total
Tolerates none failed total batch batch_failed = (batch ≡ 0) ⊎ (batch_failed ≢ batch)

stop_reason-none :
    (max_fail : Option Amount) (failed total batch batch_failed : ℕ)
    → Tolerates max_fail failed total batch batch_failed
    → stop_reason max_fail failed total batch batch_failed ≡ none
unfolding stop_reason
stop_reason-none (some (count n)) failed total batch batch_failed t = ground arith
stop_reason-none (some (percent p)) failed total batch batch_failed t = ground arith
stop_reason-none none failed total batch batch_failed t = ground arith

Tolerates-stop_reason :
    (max_fail : Option Amount) (failed total batch batch_failed : ℕ)
    → stop_reason max_fail failed total batch batch_failed ≡ none
    → Tolerates max_fail failed total batch batch_failed
unfolding stop_reason
Tolerates-stop_reason (some (count n)) failed total batch batch_failed e = ground arith
Tolerates-stop_reason (some (percent p)) failed total batch batch_failed e = ground arith
Tolerates-stop_reason none failed total batch batch_failed e = ground arith

-- A run goes on exactly when the failures are within what it tolerates.
pub stop_reason-none_iff :
    (max_fail : Option Amount) (failed total batch batch_failed : ℕ)
    → (stop_reason max_fail failed total batch batch_failed ≡ none)
      ↔ Tolerates max_fail failed total batch batch_failed
stop_reason-none_iff max_fail failed total batch batch_failed = (
  Tolerates-stop_reason max_fail failed total batch batch_failed,
  stop_reason-none max_fail failed total batch batch_failed,
)

-- A `max-fail` of 100% or more never stops a run, whatever happens to the last batch.
pub full_percent_never_stops :
    (p failed total batch batch_failed : ℕ)
    → 100 ≤ p
    → failed ≤ total
    → stop_reason (some (percent p)) failed total batch batch_failed ≡ none
full_percent_never_stops p failed total batch batch_failed full few =
    stop_reason-none (some (percent p)) failed total batch batch_failed (grind arith)
