-- ===== src/Runner/Gates/Opening.antt =====
-- What opens a gate.
use glidesh.Common.{
  ℕ, zero, suc, ◌-◌, ◌+◌, ◌≤◌, ◌≡◌, ◌≢◌, refl, ap, String, false, Option, none, some, ltb, ◌==◌,
  ==_iff, if_cases, leb_of_ltb, Result, ok, err, arith,
}
use glidesh.Plan.{Step, UntilGate}
use glidesh.RunAs.{ResolvedRunAs, merge_over, resolve}
use glidesh.Runner.Interface.{Env, ended}
use glidesh.Runner.Params.{NodeRunner, escalation}
use glidesh.Runner.Reports.{CommandOutput}
use glidesh.Runner.State.{RunState}
use glidesh.Runner.Gates.{
  WaitReports, try_once, pause, conclude, poll, no_reports, gate_command, wait_for_gate,
}
use glidesh.Runner.Gates.Timing.{pause-elapsed}
use glidesh.Runner.Gates.Attempts.{
  HaveFailed, no_attempts, one_more, HaveFailed-le, pause-world, try_once-ended,
}
use glidesh.Runner.Gates.Command.{IsCommand, gate_command-IsCommand}

-- The user that a gate's command runs as, by the step, its plan and the host.
abbrev pub gate_user : Option String → NodeRunner → Step → Option ResolvedRunAs
gate_user password r step =
    resolve (merge_over (merge_over step.run_as r.plan.run_as) r.host.run_as) password

-- After such attempts, one of the gate's command that exits 0 before the timeout has passed since
-- the wait began.
pub record HasSucceeded {W : Type 0} (env : Env W) (r : NodeRunner) (step : Step) (gate : UntilGate)
    (s : RunState W) : Type 0 where
  pub command : String
  pub start : W
  pub is_command : IsCommand env gate s command start
  pub elapsed : ℕ
  pub before : W
  pub earlier : HaveFailed env gate command (gate_user env.password r step) start elapsed before
  pub out : CommandOutput
  pub secs : ℕ
  pub attempted :
      (env.attempt command (gate_user env.password r step) (gate.timeout - elapsed) before).0
      ≡ ended (ok out) secs
  pub in_time : elapsed + secs ≤ gate.timeout
  pub succeeded : out.exit_code ≡ 0

module _ {W : Type 0} (env : Env W) (r : NodeRunner) (step : Step) (gate : UntilGate) where
  abbrev Waited : Type 0
  Waited = Option (Result {0} String (Unit {0})) × RunState W

  module _ (s0 : RunState W) (command : String) (start : W)
      (is_command : IsCommand env gate s0 command start) (real : r.dry_run ≡ false) where
    abbrev Opens : Waited → Type 0
    Opens p = p.0 ≡ some (ok tt) → HasSucceeded env r step gate s0

    abbrev user : Option ResolvedRunAs
    user = gate_user env.password r step

    abbrev Failed : WaitReports → RunState W → Type 0
    Failed w s = HaveFailed env gate command user start w.elapsed s.world

    try_once-HasSucceeded :
        (w : WaitReports) (s : RunState W) (out : CommandOutput)
        → Failed w s
        → (try_once env r step gate command user w s).0 ≡ some (ok out)
        → out.exit_code ≡ 0
        → HasSucceeded env r step gate s0
    try_once-HasSucceeded w s out h e zero_exit =
        let (secs, attempted, in_time, took) =
          try_once-ended env r step gate command user w s out real e in
        record {
          command = command;
          start = start;
          is_command = is_command;
          elapsed = w.elapsed;
          before = s.world;
          earlier = h;
          out = out;
          secs = secs;
          attempted = ap (λ a. a.0) attempted;
          in_time =
              omega (arith, in_time, HaveFailed-le env gate command user start w.elapsed s.world h);
          succeeded = zero_exit;
        }

    -- An attempt that exits other than 0, and the pause after it.
    pause-Failed :
        (w : WaitReports) (s : RunState W) (out : CommandOutput)
        → Failed w s
        → (try_once env r step gate command user w s).0 ≡ some (ok out)
        → out.exit_code ≢ 0
        → gate.interval ≤ gate.timeout - (try_once env r step gate command user w s).1.elapsed
        → let (_, w1, s1) = try_once env r step gate command user w s in
          let (w2, s2) = pause env r step gate w1 s1 in Failed w2 s2
    pause-Failed w s out h e nonzero left =
        let (secs, attempted, in_time, took) =
          try_once-ended env r step gate command user w s out real e in
        let (_, w1, s1) = try_once env r step gate command user w s in
        let bound = HaveFailed-le env gate command user start w.elapsed s.world h in
        rw (pause-elapsed env r step gate w1 s1, pause-world env r step gate w1 s1, took)
          (one_more out secs s1.world h attempted nonzero
            (omega (arith, in_time, left, took, bound)))

    conclude-Opens :
        (finished : Option CommandOutput) (result : Option (Result String CommandOutput))
        (w : WaitReports) (s : RunState W) (again : CommandOutput → Waited)
        → ((out : CommandOutput)
            → result ≡ some (ok out)
            → out.exit_code ≡ 0
            → HasSucceeded env r step gate s0)
        → ((out : CommandOutput)
            → result ≡ some (ok out)
            → out.exit_code ≢ 0
            → gate.interval ≤ gate.timeout - w.elapsed
            → Opens (again out))
        → Opens (conclude env r step gate finished result w s again)
    unfolding conclude
    conclude-Opens finished none w s again tried h =
        if_cases Opens r.dry_run _ _ (λ e. absurd (cc)) (λ _ e. absurd (cc))
    conclude-Opens finished (some (err e)) w s again tried h = λ e. absurd (cc)
    conclude-Opens finished (some (ok out)) w s again tried h =
        if_cases Opens (out.exit_code == 0) _ _
          (λ z _. tried out refl ((==_iff out.exit_code 0).0 z))
          (λ z.
            if_cases Opens r.dry_run _ _ (λ e. absurd (cc))
              (λ _.
                if_cases Opens (ltb (gate.timeout - w.elapsed) gate.interval) _ _
                  (λ _ e. absurd (cc))
                  (λ l.
                    h out refl (λ e. ground (arith, (==_iff out.exit_code 0).1 e, z))
                      (leb_of_ltb (gate.timeout - w.elapsed) gate.interval l))))

    poll-Opens :
        (fuel : ℕ) (w : WaitReports) (finished : Option CommandOutput) (s : RunState W)
        → Failed w s
        → Opens (poll env r step gate fuel command user w finished s)
    unfolding poll
    poll-Opens zero w finished s h = λ e. absurd (cc)
    poll-Opens (suc fuel) w finished s h =
        let (result, w1, s1) = try_once env r step gate command user w s in
        let (w2, s2) = pause env r step gate w1 s1 in
        conclude-Opens finished result w1 s1
          (λ out. poll env r step gate fuel command user w2 (some out) s2)
          (λ out e z. try_once-HasSucceeded w s out h e z)
          (λ out e nonzero left.
            poll-Opens fuel w2 (some out) s2 (pause-Failed w s out h e nonzero left))

  -- In a real run a gate opens only by an attempt of its command, with the variables put in and the
  -- secrets decrypted, as the user of its step, that exits 0 no later than the timeout after the
  -- wait began. The time is that of the earlier attempts, which all exit other than 0, of a pause
  -- of the interval after each, and of the attempt itself, which has what is left of the timeout.
  pub wait_for_gate-HasSucceeded :
      (s : RunState W)
      → r.dry_run ≡ false
      → (wait_for_gate env r step gate s).0 ≡ some (ok tt)
      → HasSucceeded env r step gate s
  unfolding wait_for_gate escalation
  wait_for_gate-HasSucceeded s d = go (gate_command env r step gate s) refl
    where
      go :
          (p : Result String String × RunState W)
          → gate_command env r step gate s ≡ p
          → (elim p.0 as (λ _. Option (Result {0} String (Unit {0})) × RunState W) [
            | err e ↦ (some (err e), p.1)
            | ok command ↦
                poll env r step gate
                  (suc gate.timeout)
                  command
                  (gate_user env.password r step)
                  no_reports
                  none
                  p.1
          ]).0
            ≡ some (ok tt)
          → HasSucceeded env r step gate s
      go (err e, s') eq = λ h. absurd (cc)
      go (ok command, s') eq =
          poll-Opens s command s'.world
            (rw eq at (gate_command-IsCommand env r step gate s command (ap (λ p. p.0) eq))) d
            (suc gate.timeout) no_reports none s' no_attempts
