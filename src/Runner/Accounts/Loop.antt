-- ===== src/Runner/Accounts/Loop.antt =====
-- The accounts over a step that its gate decides, and over the loop of the steps.
use glidesh.Common.{
  ℕ, suc, ◌≡◌, refl, String, Bool, true, false, Option, none, some, List, [], ◌∷◌, if◌then◌else◌,
  Result, ok, err,
}
use glidesh.Common.Dict.{Dict, insert}
use glidesh.Detect.{OsInfo}
use glidesh.Events.{step_started}
use glidesh.Plan.{Step}
use glidesh.Tags
use glidesh.Template.Data.{TemplateData}
use glidesh.Runner.Interface.{Env}
use glidesh.Runner.Params.{NodeRunner, StepRun}
use glidesh.Runner.State.{RunState, send, Decision, run, skip, gate}
use glidesh.Runner.Steps.{
  trigger_of, emit_step_error, start_step, skip_step, step_gate, run_step, run_steps,
}
use glidesh.Runner.Tasks.{scope_of}
use glidesh.Runner.Accounts.{Acc, gate-decided, plain-Accounted}
use glidesh.Runner.Accounts.Blocks.{emit_step_error-Accounted}
use glidesh.Runner.Accounts.Steps.{start_step-Accounted, skip_step-Accounted}

module _ {W : Type 0} (env : Env W) (r : NodeRunner) where
  abbrev Fine : RunState W → Type 0
  Fine s = Acc r.dry_run 0 s

  step_gate-decided :
      (step : Step) (data' : TemplateData) (s : RunState W) (reason : String) (decided : Bool)
      → s.progress.unknown ≡ []
      → step_gate env r step data' s ≡ ok (skip reason decided)
      → decided ≡ true
  unfolding step_gate
  step_gate-decided step data' s reason decided k e = go (Tags.excludes r.tags step.tags) e
    where
      go :
          (o : Option String)
          → (elim o [
            | some reason ↦ ok (skip reason true)
            | none ↦ gate step.when (scope_of env r data' s)
          ])
            ≡ ok (skip reason decided)
          → decided ≡ true
      go (some x) h = cc
      go none h = gate-decided step.when (scope_of env r data' s) reason decided k h

  run_step-Accounted :
      (data' : TemplateData) (os_info : OsInfo) (total idx : ℕ) (step : Step)
      (step_changed : Dict Bool) (s : RunState W)
      → Fine s
      → Fine (run_step env r data' os_info total idx step step_changed s).2
  unfolding run_step send
  run_step-Accounted data' os_info total idx step step_changed s a =
      go (step_gate env r step data' started) refl
    where
      arrived : RunState W
      arrived = if r.sync then record s { world = env.arrive s.world } else s

      started : RunState W
      started = send (step_started r.host.name step.name idx total) arrived

      step_run : StepRun
      step_run = record {
        step = step;
        step_idx = idx;
        template_data = data';
        os_info = os_info;
        trigger = trigger_of step step_changed;
      }

      arrived_fine : (b : Bool) → Fine (if b then record s { world = env.arrive s.world } else s)
      arrived_fine true = a
      arrived_fine false = a

      started_fine : Fine started
      started_fine =
          plain-Accounted r.dry_run 0 arrived.progress arrived.events
            (step_started r.host.name step.name idx total) (refl, refl, refl) (arrived_fine r.sync)

      go :
          (o : Result String Decision)
          → step_gate env r step data' started ≡ o
          → Fine
              (elim o as (λ _. Bool × Dict Bool × RunState W) [
                | err error ↦ (false, step_changed, emit_step_error env r step.name error started)
                | ok decision ↦ elim decision [
                  | skip reason decided ↦ (
                    true,
                    insert step_changed step.name false,
                    skip_step env r step reason decided started,
                  )
                  | run ↦
                      let (failure, s2) = start_step env r step_run started in
                      (
                        elim failure [ none ↦ true | some _ ↦ false ],
                        insert step_changed step.name s2.changed,
                        s2,
                      )
                ]
              ]).2
      go (err error) e = emit_step_error-Accounted env r step.name error started started_fine
      go (ok run) e = start_step-Accounted env r step_run started started_fine
      go (ok (skip reason decided)) e =
          skip_step-Accounted env r step reason decided started
            (λ d. step_gate-decided step data' started reason decided (started_fine.all_known d) e)
            started_fine

  pub run_steps-Accounted :
      (data' : TemplateData) (os_info : OsInfo) (total idx : ℕ) (steps : List Step)
      (step_changed : Dict Bool) (s : RunState W)
      → Fine s
      → Fine (run_steps env r data' os_info total idx steps step_changed s).1
  unfolding run_steps
  run_steps-Accounted data' os_info total idx [] step_changed s a = a
  run_steps-Accounted data' os_info total idx (step ∷ steps) step_changed s a =
      let (goes_on, step_changed', s') =
        run_step env r data' os_info total idx step step_changed s in
      let kept = run_step-Accounted data' os_info total idx step step_changed s a in
      go goes_on s' (run_steps env r data' os_info total (suc idx) steps step_changed' s') kept
        (run_steps-Accounted data' os_info total (suc idx) steps step_changed' s' kept)
    where
      go :
          (b : Bool) (s' : RunState W) (rest : Bool × RunState W)
          → Fine s'
          → Fine rest.1
          → Fine (if b then rest else (false, s')).1
      go true s' rest a h = h
      go false s' rest a h = a
