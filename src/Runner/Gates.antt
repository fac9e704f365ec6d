-- ===== src/Runner/Gates.antt =====
-- The wait for a step's `until=` gate, in seconds since it started. A report that falls due in the
-- very second in which the work ends is not sent; the source then sends it or not.
pub mod Timing
pub mod Attempts
pub mod Command
pub mod Opening
use glidesh.Common.{
  ℕ, zero, suc, ◌+◌, ◌-◌, String, Bool, true, false, Option, none, some, is_none, unwrap_or, ltb,
  max, [], ◌∷◌, if◌then◌else◌, ◌==◌, fmt, Result, ok, err, error_text, map_err,
}
use glidesh.Events.{ExecutorEvent, step_waiting}
use glidesh.Plan.{Step, UntilGate}
use glidesh.RunAs.{ResolvedRunAs}
use glidesh.Template.{interpolate}
use glidesh.Runner.Interface.{Env, Attempt, ended, hangs}
use glidesh.Runner.Params.{NodeRunner, escalation}
use glidesh.Runner.Reports.{CommandOutput, gate_timeout_error}
use glidesh.Runner.State.{RunState, send}

-- `WaitReports`, with the time that has passed.
pub record WaitReports : Type 0 where
  pub elapsed : ℕ
  pub last : Option ℕ

-- `WAIT_REPORT_EVERY`
abbrev pub wait_report_every : ℕ
wait_report_every = 30

unfoldable pub next_due : WaitReports → ℕ
next_due w = unwrap_or w.last 0 + wait_report_every

-- What an attempt comes to within the time that is left, and the time that it takes.
unfoldable pub cut : Attempt → ℕ → Option (Result String CommandOutput) × ℕ
cut (ended result secs) remaining =
    let late = ltb remaining secs in
    (if late then none else some result, if late then remaining else secs)
cut hangs remaining = (none, remaining)

abbrev pub no_reports : WaitReports
no_reports = record { elapsed = 0; last = none }

module _ {W : Type 0} (env : Env W) (r : NodeRunner) (step : Step) (gate : UntilGate) where
  abbrev send_waiting : ℕ → Bool → Bool → RunState W → RunState W
  send_waiting elapsed first preview s =
      send (step_waiting r.host.name step.name gate.command elapsed gate.timeout first preview) s

  unfoldable pub report_waiting : WaitReports → RunState W → WaitReports × RunState W
  unfolding send
  report_waiting w s =
      (record w { last = some w.elapsed }, send_waiting w.elapsed (is_none w.last) false s)

  abbrev pub report_preview : RunState W → RunState W
  report_preview s = send_waiting 0 true true s

  -- The reports that fall due before work ends at `end`.
  unfoldable pub reporting : ℕ → ℕ → WaitReports → RunState W → WaitReports × RunState W
  unfolding report_waiting next_due
  reporting zero end w s = (record w { elapsed = end }, s)
  reporting (suc fuel) end w s =
      let now = max w.elapsed (next_due w) in
      let (w', s') = report_waiting (record w { elapsed = now }) s in
      let rest = reporting fuel end w' s' in
      if ltb now end then rest else (record w { elapsed = end }, s)

  -- Every report moves the time on, but for the first, which may be overdue.
  abbrev pub reporting_until : ℕ → WaitReports → RunState W → WaitReports × RunState W
  reporting_until end w s = reporting (suc (end - w.elapsed)) end w s

  -- An attempt, which a real run reports on.
  unfoldable pub try_once :
      String
      → Option ResolvedRunAs
      → WaitReports
      → RunState W
      → Option (Result String CommandOutput) × WaitReports × RunState W
  unfolding cut reporting
  try_once command run_as w s =
      let remaining = gate.timeout - w.elapsed in
      let (attempt, world') = env.attempt command run_as remaining s.world in
      let (result, secs) = cut attempt remaining in
      let s' = record s { world = world' } in
      let (w1, s1) =
        if r.dry_run
        then (record w { elapsed = w.elapsed + secs }, s')
        else reporting_until (w.elapsed + secs) w s' in
      (result, w1, s1)

  -- The first report, if there was none, and the pause until the next attempt.
  unfoldable pub pause : WaitReports → RunState W → WaitReports × RunState W
  unfolding report_waiting reporting
  pause w s =
      let (w', s') = if is_none w.last then report_waiting w s else (w, s) in
      reporting_until (w'.elapsed + gate.interval) w' s'

  -- What an attempt comes to, `again` being the rounds after a pause.
  unfoldable pub conclude :
      Option CommandOutput
      → Option (Result String CommandOutput)
      → WaitReports
      → RunState W
      → (CommandOutput → Option (Result {0} String Unit) × RunState W)
      → Option (Result {0} String Unit) × RunState W
  unfolding gate_timeout_error fmt send
  conclude finished none w s again =
      if r.dry_run
      then (some (ok tt), report_preview s)
      else (some (err (gate_timeout_error gate finished true)), s)
  conclude finished (some (err e)) w s again = (some (err (fmt ("until=: " ∷ e ∷ []))), s)
  conclude finished (some (ok out)) w s again =
      if out.exit_code == 0
      then (some (ok tt), s)
      else if r.dry_run
      then (some (ok tt), report_preview s)
      else if ltb (gate.timeout - w.elapsed) gate.interval
      then (some (err (gate_timeout_error gate (some out) false)), s)
      else again out

  -- The rounds of the loop, `none` when the fuel is used up.
  unfoldable pub poll :
      ℕ
      → String
      → Option ResolvedRunAs
      → WaitReports
      → Option CommandOutput
      → RunState W
      → Option (Result {0} String Unit) × RunState W
  unfolding try_once pause conclude
  poll zero command run_as w finished s = (none, s)
  poll (suc fuel) command run_as w finished s =
      let (result, w1, s1) = try_once command run_as w s in
      let (w2, s2) = pause w1 s1 in
      conclude finished result w1 s1 (λ out. poll fuel command run_as w2 (some out) s2)

  -- The secrets in the gate's command, decrypted and with that registered.
  unfoldable pub decrypt_command : String → RunState W → Result String String × RunState W
  unfolding fmt
  decrypt_command command s =
      if env.contains_secret_token command
      then (let (result, world') = env.decrypt_inline command s.world in
          (map_err (λ e. fmt ("until=: " ∷ e ∷ [])) result, record s { world = world' }))
      else (ok command, s)

  unfoldable pub gate_command : RunState W → Result String String × RunState W
  unfolding interpolate fmt decrypt_command
  gate_command s = elim (interpolate gate.command s.vars) [
    | err e ↦ (err (fmt ("until=: " ∷ error_text e ∷ [])), s)
    | ok command ↦ decrypt_command command s
  ]

  -- `wait_for_gate`
  unfoldable pub wait_for_gate : RunState W → Option (Result {0} String Unit) × RunState W
  unfolding gate_command poll escalation
  wait_for_gate s =
      let (result, s') = gate_command s in
      elim result [
        | err e ↦ (some (err e), s')
        | ok command ↦
            poll (suc gate.timeout) command (escalation none step r env.password) no_reports none s'
      ]
