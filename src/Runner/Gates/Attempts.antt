-- ===== src/Runner/Gates/Attempts.antt =====
-- What the attempts of a gate's command give, how long they take and what world they leave.
use glidesh.Common.{
  ℕ, zero, suc, ◌-◌, ◌+◌, ◌≤◌, ◌≡◌, ◌≢◌, refl, ap, String, Bool, true, false, Option, none, some,
  ltb, is_none, if◌then◌else◌, if_cases, leb_of_ltb, Result, ok, arith, max,
}
use glidesh.Plan.{Step, UntilGate}
use glidesh.RunAs.{ResolvedRunAs}
use glidesh.Runner.Interface.{Env, Attempt, ended, hangs}
use glidesh.Runner.Params.{NodeRunner}
use glidesh.Runner.Reports.{CommandOutput}
use glidesh.Runner.State.{RunState, send}
use glidesh.Runner.Gates.{
  WaitReports, cut, next_due, report_waiting, reporting, reporting_until, try_once, pause,
}
use glidesh.Runner.Gates.Timing.{reporting-elapsed}

-- Attempts that exit other than 0, one after the other from time 0 in the world `start`, each with
-- what is left of the timeout and each with a pause after it, up to a time and a world.
pub data HaveFailed {W : Type 0} (env : Env W) (gate : UntilGate) (command : String)
    (run_as : Option ResolvedRunAs) (start : W) : ℕ → W → Type 0 where
  no_attempts : HaveFailed env gate command run_as start 0 start
  one_more :
      {elapsed : ℕ} {before : W} (out : CommandOutput) (secs : ℕ) (after : W)
      → HaveFailed env gate command run_as start elapsed before
      → env.attempt command run_as (gate.timeout - elapsed) before ≡ (ended (ok out) secs, after)
      → out.exit_code ≢ 0
      → elapsed + secs + gate.interval ≤ gate.timeout
      → HaveFailed env gate command run_as start (elapsed + secs + gate.interval) after

cut-some :
    (attempt : Attempt) (remaining : ℕ) (result : Result String CommandOutput)
    → (cut attempt remaining).0 ≡ some result
    → (secs : ℕ) × (attempt ≡ ended result secs)
      × (secs ≤ remaining)
      × ((cut attempt remaining).1 ≡ secs)
unfolding cut
cut-some hangs remaining result e = absurd (cc)
cut-some (ended result' secs) remaining result e = go (ltb remaining secs) refl e
  where
    go :
        (b : Bool)
        → ltb remaining secs ≡ b
        → (if b then none else some result') ≡ some result
        → (n : ℕ) × (ended result' secs ≡ ended result n)
          × (n ≤ remaining)
          × ((if b then remaining else secs) ≡ n)
    go true l h = absurd (cc)
    go false l h = (secs, cc, leb_of_ltb remaining secs l, refl)

pub HaveFailed-le :
    {W : Type 0} (env : Env W) (gate : UntilGate) (command : String) (run_as : Option ResolvedRunAs)
    (start : W) (elapsed : ℕ) (before : W)
    → HaveFailed env gate command run_as start elapsed before
    → elapsed ≤ gate.timeout
HaveFailed-le env gate command run_as start _ _ no_attempts = omega arith
HaveFailed-le env gate command run_as start _ _ (one_more out secs after h a z l) = l

module _ {W : Type 0} (env : Env W) (r : NodeRunner) (step : Step) (gate : UntilGate) where
  -- Reports leave the world as it is.
  reporting-world :
      (fuel end : ℕ) (w : WaitReports) (s : RunState W)
      → (reporting env r step gate fuel end w s).1.world ≡ s.world
  unfolding reporting report_waiting send
  reporting-world zero end w s = refl
  reporting-world (suc fuel) end w s =
      let (w', s') =
        report_waiting env r step gate (record w { elapsed = max w.elapsed (next_due w) }) s in
      if_cases (λ (p : WaitReports × RunState W). p.1.world ≡ s.world)
        (ltb (max w.elapsed (next_due w)) end) _ _ (λ _. reporting-world fuel end w' s') (λ _. refl)

  pub pause-world :
      (w : WaitReports) (s : RunState W) → (pause env r step gate w s).1.world ≡ s.world
  unfolding pause report_waiting send
  pause-world w s = go (is_none w.last)
    where
      first : Bool → WaitReports × RunState W
      first b = if b then report_waiting env r step gate w s else (w, s)

      go :
          (b : Bool)
          → (reporting_until env r step gate
              ((first b).0.elapsed + gate.interval)
              (first b).0
              (first b).1).1.world
            ≡ s.world
      go true =
          reporting-world (suc (w.elapsed + gate.interval - w.elapsed)) (w.elapsed + gate.interval)
            (first true).0 (first true).1
      go false =
          reporting-world (suc (w.elapsed + gate.interval - w.elapsed)) (w.elapsed + gate.interval)
            w s

  -- An attempt of a real run that ends in time: what it gave, how long it took and what it left.
  pub try_once-ended :
      (command : String) (run_as : Option ResolvedRunAs) (w : WaitReports) (s : RunState W)
      (out : CommandOutput)
      → r.dry_run ≡ false
      → (try_once env r step gate command run_as w s).0 ≡ some (ok out)
      → (secs : ℕ) × (env.attempt command run_as (gate.timeout - w.elapsed) s.world
          ≡ (ended (ok out) secs, (try_once env r step gate command run_as w s).2.world))
        × (secs ≤ gate.timeout - w.elapsed)
        × ((try_once env r step gate command run_as w s).1.elapsed ≡ w.elapsed + secs)
  unfolding try_once
  try_once-ended command run_as w s out d e =
      let remaining = gate.timeout - w.elapsed in
      let attempt = env.attempt command run_as remaining s.world in
      let s' : RunState W = record s { world = attempt.1 } in
      let (secs, attempted, in_time, took) = cut-some attempt.0 remaining (ok out) e in
      let end = w.elapsed + (cut attempt.0 remaining).1 in
      (
        secs,
        rw (d, reporting-world (suc (end - w.elapsed)) end w s')
            (ap (λ a. (a, attempt.1)) attempted),
        in_time,
        rw (d, reporting-elapsed env r step gate (suc (end - w.elapsed)) end w s')
            (ap (λ n. w.elapsed + n) took),
      )
