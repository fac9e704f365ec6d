-- ===== src/Runner/Gates/Timing.antt =====
-- How long the wait for a gate takes, and what opens the gate.
use glidesh.Common.{
  ℕ, zero, suc, ◌+◌, ◌-◌, ◌≤◌, ◌<◌, ◌≡◌, refl, String, Bool, true, false, Option, none, some,
  is_none, is_some, ltb, max, if◌then◌else◌, ◌==◌, arith, Result, ok, err, if_cases, leb_of_ltb,
}
use glidesh.Plan.{Step, UntilGate}
use glidesh.RunAs.{ResolvedRunAs}
use glidesh.Runner.Interface.{Env, Attempt}
use glidesh.Runner.Params.{NodeRunner, escalation}
use glidesh.Runner.Reports.{CommandOutput}
use glidesh.Runner.State.{RunState}
use glidesh.Runner.Gates.{
  WaitReports, next_due, cut, report_waiting, reporting, reporting_until, try_once, pause, conclude,
  poll, no_reports, gate_command, wait_for_gate,
}

module _ {W : Type 0} (env : Env W) (r : NodeRunner) (step : Step) (gate : UntilGate) where
  pub reporting-elapsed :
      (fuel end : ℕ) (w : WaitReports) (s : RunState W)
      → (reporting env r step gate fuel end w s).0.elapsed ≡ end
  unfolding reporting
  reporting-elapsed zero end w s = refl
  reporting-elapsed (suc fuel) end w s =
      let now = max w.elapsed (next_due w) in
      let (w', s') = report_waiting env r step gate (record w { elapsed = now }) s in
      go (ltb now end) (reporting env r step gate fuel end w' s') (reporting-elapsed fuel end w' s')
    where
      go :
          (b : Bool) (rest : WaitReports × RunState W)
          → rest.0.elapsed ≡ end
          → (if b then rest else (record w { elapsed = end }, s)).0.elapsed ≡ end
      go true rest h = h
      go false rest h = refl

  pub pause-elapsed :
      (w : WaitReports) (s : RunState W)
      → (pause env r step gate w s).0.elapsed ≡ w.elapsed + gate.interval
  unfolding pause report_waiting
  pause-elapsed w s = go (is_none w.last)
    where
      first : Bool → WaitReports × RunState W
      first b = if b then report_waiting env r step gate w s else (w, s)

      go :
          (b : Bool)
          → (reporting_until env r step gate
              ((first b).0.elapsed + gate.interval)
              (first b).0
              (first b).1).0.elapsed
            ≡ w.elapsed + gate.interval
      go true =
          reporting-elapsed (suc (w.elapsed + gate.interval - w.elapsed))
            (w.elapsed + gate.interval) (first true).0 (first true).1
      go false =
          reporting-elapsed (suc (w.elapsed + gate.interval - w.elapsed))
            (w.elapsed + gate.interval) w s

  try_once-elapsed :
      (command : String) (run_as : Option ResolvedRunAs) (w : WaitReports) (s : RunState W)
      → w.elapsed ≤ (try_once env r step gate command run_as w s).1.elapsed
  unfolding try_once
  try_once-elapsed command run_as w s = go r.dry_run
    where
      remaining : ℕ
      remaining = gate.timeout - w.elapsed

      attempt : Attempt × W
      attempt = env.attempt command run_as remaining s.world

      secs : ℕ
      secs = (cut attempt.0 remaining).1

      s' : RunState W
      s' = record s { world = attempt.1 }

      go :
          (b : Bool)
          → w.elapsed
            ≤ (if b
                then (record w { elapsed = w.elapsed + secs }, s')
                else reporting_until env r step gate (w.elapsed + secs) w s').0.elapsed
      go true = omega arith
      go false =
          rw (reporting-elapsed (suc (w.elapsed + secs - w.elapsed)) (w.elapsed + secs) w s')
            (omega arith)

  abbrev Waited : Type 0
  Waited = Option (Result {0} String (Unit {0})) × RunState W

  abbrev Ends : Waited → Type 0
  Ends p = is_some p.0 ≡ true

  conclude-Ends :
      (finished : Option CommandOutput) (result : Option (Result String CommandOutput))
      (w : WaitReports) (s : RunState W) (again : CommandOutput → Waited)
      → ((out : CommandOutput) → gate.interval ≤ gate.timeout - w.elapsed → Ends (again out))
      → Ends (conclude env r step gate finished result w s again)
  unfolding conclude
  conclude-Ends finished none w s again h = if_cases Ends r.dry_run _ _ (λ _. refl) (λ _. refl)
  conclude-Ends finished (some (err e)) w s again h = refl
  conclude-Ends finished (some (ok out)) w s again h =
      if_cases Ends (out.exit_code == 0) _ _ (λ _. refl)
        (λ _.
          if_cases Ends r.dry_run _ _ (λ _. refl)
            (λ _.
              if_cases Ends (ltb (gate.timeout - w.elapsed) gate.interval) _ _ (λ _. refl)
                (λ e. h out (leb_of_ltb (gate.timeout - w.elapsed) gate.interval e))))

  poll-Ends :
      (fuel : ℕ) (command : String) (run_as : Option ResolvedRunAs) (w : WaitReports)
      (finished : Option CommandOutput) (s : RunState W)
      → 1 ≤ gate.interval
      → gate.timeout - w.elapsed < fuel
      → Ends (poll env r step gate fuel command run_as w finished s)
  unfolding poll
  poll-Ends zero command run_as w finished s i h = absurd (omega (arith, h))
  poll-Ends (suc fuel) command run_as w finished s i h =
      let (result, w1, s1) = try_once env r step gate command run_as w s in
      let (w2, s2) = pause env r step gate w1 s1 in
      conclude-Ends finished result w1 s1
        (λ out. poll env r step gate fuel command run_as w2 (some out) s2)
        (λ out late.
          poll-Ends fuel command run_as w2 (some out) s2 i
            (omega (arith, late, h, i, pause-elapsed w1 s1, try_once-elapsed command run_as w s)))

  -- The wait for a gate that pauses for a second or more ends before the fuel is used up, whatever
  -- its command does.
  pub wait_for_gate-Ends :
      (s : RunState W) → 1 ≤ gate.interval → is_some (wait_for_gate env r step gate s).0 ≡ true
  unfolding wait_for_gate
  wait_for_gate-Ends s i = go (gate_command env r step gate s)
    where
      go :
          (p : Result String String × RunState W)
          → Ends (elim p.0 as (λ _. Option (Result {0} String (Unit {0})) × RunState W) [
            | err e ↦ (some (err e), p.1)
            | ok command ↦
                poll env r step gate
                  (suc gate.timeout)
                  command
                  (escalation none step r env.password)
                  no_reports
                  none
                  p.1
          ])
      go (err e, s') = refl
      go (ok command, s') =
          poll-Ends (suc gate.timeout) command (escalation none step r env.password) no_reports none
            s' i (omega arith)
