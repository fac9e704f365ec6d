-- ===== src/Runner/Accounts/Gates.antt =====
-- The accounts over the wait for a gate.
use glidesh.Common.{
  ℕ, zero, suc, ◌+◌, ◌-◌, refl, String, Bool, true, false, Option, none, some, is_none, ltb, max,
  [], ◌∷◌, if_cases, if◌then◌else◌, ◌==◌, fmt, Result, ok, err, map_err, GlideshError, error_text,
}
use glidesh.Plan.{Step, UntilGate}
use glidesh.RunAs.{ResolvedRunAs}
use glidesh.Template.{interpolate}
use glidesh.Runner.Interface.{Env}
use glidesh.Runner.Params.{NodeRunner, escalation}
use glidesh.Runner.Reports.{CommandOutput}
use glidesh.Runner.State.{RunState, send}
use glidesh.Runner.Gates.{
  WaitReports, report_waiting, report_preview, reporting, reporting_until, next_due, cut, try_once,
  pause, conclude, poll, decrypt_command, gate_command, no_reports, wait_for_gate,
}
use glidesh.Runner.Accounts.{Acc, plain-Accounted}

module _ {W : Type 0} (env : Env W) (r : NodeRunner) (step : Step) (gate : UntilGate) where
  abbrev Fine : RunState W → Type 0
  Fine s = Acc r.dry_run 0 s

  if-Accounted :
      {A : Type 0} (b : Bool) (p q : A × RunState W)
      → Fine p.1
      → Fine q.1
      → Fine (if b then p else q).1
  if-Accounted true p q hp hq = hp
  if-Accounted false p q hp hq = hq

  abbrev Ended : Option (Result {0} String (Unit {0})) × RunState W → Type 0
  Ended p = Fine p.1

  report_waiting-Accounted :
      (w : WaitReports) (s : RunState W) → Fine s → Fine (report_waiting env r step gate w s).1
  unfolding report_waiting send
  report_waiting-Accounted w s a =
      plain-Accounted r.dry_run 0 s.progress s.events _ (refl, refl, refl) a

  report_preview-Accounted : (s : RunState W) → Fine s → Fine (report_preview env r step gate s)
  unfolding send
  report_preview-Accounted s a =
      plain-Accounted r.dry_run 0 s.progress s.events _ (refl, refl, refl) a

  reporting-Accounted :
      (fuel end : ℕ) (w : WaitReports) (s : RunState W)
      → Fine s
      → Fine (reporting env r step gate fuel end w s).1
  unfolding reporting
  reporting-Accounted zero end w s a = a
  reporting-Accounted (suc fuel) end w s a =
      let now = max w.elapsed (next_due w) in
      let (w', s') = report_waiting env r step gate (record w { elapsed = now }) s in
      if-Accounted (ltb now end) (reporting env r step gate fuel end w' s')
        (record w { elapsed = end }, s)
        (reporting-Accounted fuel end w' s'
          (report_waiting-Accounted (record w { elapsed = now }) s a))
        a

  try_once-Accounted :
      (command : String) (run_as : Option ResolvedRunAs) (w : WaitReports) (s : RunState W)
      → Fine s
      → Fine (try_once env r step gate command run_as w s).2
  unfolding try_once
  try_once-Accounted command run_as w s a =
      let remaining = gate.timeout - w.elapsed in
      let (attempt, world') = env.attempt command run_as remaining s.world in
      let (result, secs) = cut attempt remaining in
      let s' = record s { world = world' } in
      if-Accounted r.dry_run (record w { elapsed = w.elapsed + secs }, s')
        (reporting_until env r step gate (w.elapsed + secs) w s') a
        (reporting-Accounted (suc (w.elapsed + secs - w.elapsed)) (w.elapsed + secs) w s' a)

  pause-Accounted : (w : WaitReports) (s : RunState W) → Fine s → Fine (pause env r step gate w s).1
  unfolding pause
  pause-Accounted w s a =
      let (w', s') = if is_none w.last then report_waiting env r step gate w s else (w, s) in
      let end = w'.elapsed + gate.interval in
      reporting-Accounted (suc (end - w'.elapsed)) end w' s' (
        if-Accounted (is_none w.last) (report_waiting env r step gate w s) (w, s)
          (report_waiting-Accounted w s a) a)

  conclude-Accounted :
      (finished : Option CommandOutput) (result : Option (Result String CommandOutput))
      (w : WaitReports) (s : RunState W)
      (again : CommandOutput → Option (Result {0} String (Unit {0})) × RunState W)
      → Fine s
      → ((out : CommandOutput) → Fine (again out).1)
      → Fine (conclude env r step gate finished result w s again).1
  unfolding conclude
  conclude-Accounted finished none w s again a h =
      if_cases Ended r.dry_run _ _ (λ _. report_preview-Accounted s a) (λ _. a)
  conclude-Accounted finished (some (err e)) w s again a h = a
  conclude-Accounted finished (some (ok out)) w s again a h =
      if_cases Ended (out.exit_code == 0) _ _ (λ _. a)
        (λ _.
          if_cases Ended r.dry_run _ _ (λ _. report_preview-Accounted s a)
            (λ _.
              if_cases Ended (ltb (gate.timeout - w.elapsed) gate.interval) _ _ (λ _. a)
                (λ _. h out)))

  poll-Accounted :
      (fuel : ℕ) (command : String) (run_as : Option ResolvedRunAs) (w : WaitReports)
      (finished : Option CommandOutput) (s : RunState W)
      → Fine s
      → Fine (poll env r step gate fuel command run_as w finished s).1
  unfolding poll
  poll-Accounted zero command run_as w finished s a = a
  poll-Accounted (suc fuel) command run_as w finished s a =
      let (result, w1, s1) = try_once env r step gate command run_as w s in
      let (w2, s2) = pause env r step gate w1 s1 in
      let tried = try_once-Accounted command run_as w s a in
      conclude-Accounted finished result w1 s1
        (λ out. poll env r step gate fuel command run_as w2 (some out) s2) tried
        (λ out. poll-Accounted fuel command run_as w2 (some out) s2 (pause-Accounted w1 s1 tried))

  decrypt_command-Accounted :
      (command : String) (s : RunState W)
      → Fine s
      → Fine (decrypt_command env r step gate command s).1
  unfolding decrypt_command
  decrypt_command-Accounted command s a =
      let (result, world') = env.decrypt_inline command s.world in
      if-Accounted (env.contains_secret_token command)
        (map_err (λ e. fmt ("until=: " ∷ e ∷ [])) result, record s { world = world' })
        (ok command, s) a a

  gate_command-Accounted : (s : RunState W) → Fine s → Fine (gate_command env r step gate s).1
  unfolding gate_command
  gate_command-Accounted s a = go (interpolate gate.command s.vars)
    where
      go :
          (o : Result GlideshError String)
          → Fine
              (elim o as (λ _. Result String String × RunState W) [
                | err e ↦ (err (fmt ("until=: " ∷ error_text e ∷ [])), s)
                | ok command ↦ decrypt_command env r step gate command s
              ]).1
      go (err e) = a
      go (ok command) = decrypt_command-Accounted command s a

  pub wait_for_gate-Accounted : (s : RunState W) → Fine s → Fine (wait_for_gate env r step gate s).1
  unfolding wait_for_gate
  wait_for_gate-Accounted s a = go (gate_command env r step gate s) (gate_command-Accounted s a)
    where
      go :
          (p : Result String String × RunState W)
          → Fine p.1
          → Fine
              (elim p.0 as (λ _. Option (Result {0} String (Unit {0})) × RunState W) [
                | err e ↦ (some (err e), p.1)
                | ok command ↦
                    poll env r step gate
                      (suc gate.timeout)
                      command
                      (escalation none step r env.password)
                      no_reports
                      none
                      p.1
              ]).1
      go (err e, s') h = h
      go (ok command, s') h = poll-Accounted (suc gate.timeout) command _ no_reports none s' h
