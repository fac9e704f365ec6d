-- ===== src/Runner/Accounts/Blocks.antt =====
-- The accounts over the body of a step.
use glidesh.Common.{ℕ, suc, refl, String, Option, none, some, List, [], ◌∷◌, Result, ok, err}
use glidesh.Events.{Section, step_failed, section_started}
use glidesh.Plan.{Step, UntilGate, LoopSource}
use glidesh.Runner.Interface.{Env}
use glidesh.Runner.Gates.{wait_for_gate}
use glidesh.Runner.Params.{NodeRunner, StepRun}
use glidesh.Runner.State.{RunState, send, gate, ◌>>=◌}
use glidesh.Runner.Steps.{
  gate_result, emit_step_error, send_section, step_error, run_items, open_gate, run_tasks,
  run_step_body,
}
use glidesh.Runner.Tasks.{run_step_tasks}
use glidesh.Runner.Values.{LoopItem, resolve_loop_items, inject_loop_item, remove_all, Failure}
use glidesh.Runner.Accounts.{Acc, plain-Accounted}
use glidesh.Runner.Accounts.Tasks.{run_step_tasks-Keeps}
use glidesh.Runner.Accounts.Gates.{wait_for_gate-Accounted}

module _ {W : Type 0} (env : Env W) (r : NodeRunner) where
  abbrev Fine : RunState W → Type 0
  Fine s = Acc r.dry_run 0 s

  pub emit_step_error-Accounted :
      (step error : String) (s : RunState W) → Fine s → Fine (emit_step_error env r step error s)
  unfolding emit_step_error send
  emit_step_error-Accounted step error s a =
      plain-Accounted r.dry_run 0 s.progress s.events (step_failed r.host.name step error)
        (refl, refl, refl) a

  pub send_section-Accounted :
      (step : Step) (section : Section) (s : RunState W)
      → Fine s
      → Fine (send_section env r step section s)
  unfolding send_section send
  send_section-Accounted step section s a =
      plain-Accounted r.dry_run 0 s.progress s.events
        (section_started r.host.name step.name section) (refl, refl, refl) a

  run_items-Accounted :
      (step_run : StepRun) (items : List LoopItem) (iter_idx : ℕ) (s : RunState W)
      → Fine s
      → Fine (run_items env r step_run items iter_idx s).1
  unfolding run_items
  run_items-Accounted step_run [] iter_idx s a = a
  run_items-Accounted step_run (item ∷ items) iter_idx s a =
      let (vars, injected) = inject_loop_item s.vars item in
      let s0 = record s { vars = vars } in
      let (result, s1) = run_step_tasks env r step_run step_run.step.tasks 0 iter_idx s0 in
      let s2 = record s1 { vars = remove_all s1.vars injected } in
      let kept =
        (run_step_tasks-Keeps env r step_run step_run.step.tasks 0 iter_idx).keeps 0 s0 a in
      go result s2 (run_items env r step_run items (suc iter_idx) s2) kept
        (run_items-Accounted step_run items (suc iter_idx) s2 kept)
    where
      go :
          (result : Result Failure (Unit {0})) (s2 : RunState W)
          (rest : Result Failure (Unit {0}) × RunState W)
          → Fine s2
          → Fine rest.1
          → Fine
              (elim result as (λ _. Result Failure (Unit {0}) × RunState W) [
                | ok _ ↦ rest
                | err e ↦ (err e, s2)
              ]).1
      go (ok x) s2 rest a h = h
      go (err e) s2 rest a h = a

  open_gate-Accounted : (step : Step) (s : RunState W) → Fine s → Fine (open_gate env r step s).1
  unfolding open_gate
  open_gate-Accounted step s a = go step.until
    where
      opened :
          (p : Option (Result {0} String (Unit {0})) × RunState W)
          → Fine p.1
          → Fine
              (elim (gate_result p.0) as (λ _. Result Failure (Unit {0}) × RunState W) [
                | ok _ ↦ (ok tt, p.1)
                | err e ↦ step_error env r step e p.1
              ]).1
      opened (none, s') h = emit_step_error-Accounted step.name "" s' h
      opened (some (ok x), s') h = h
      opened (some (err e), s') h = emit_step_error-Accounted step.name e s' h

      go :
          (until : Option UntilGate)
          → Fine
              (elim until as (λ _. Result Failure (Unit {0}) × RunState W) [
                | none ↦ (ok tt, s)
                | some gate ↦
                    let (result, s') = wait_for_gate env r step gate s in
                    elim (gate_result result) [
                      | ok _ ↦ (ok tt, s')
                      | err e ↦ step_error env r step e s'
                    ]
              ]).1
      go none = a
      go (some gate) =
          opened (wait_for_gate env r step gate s) (wait_for_gate-Accounted env r step gate s a)

  run_tasks-Accounted :
      (step_run : StepRun) (s : RunState W) → Fine s → Fine (run_tasks env r step_run s).1
  unfolding run_tasks
  run_tasks-Accounted step_run s a = go step_run.step.loop_source
    where
      resolved :
          (o : Result String (List LoopItem))
          → Fine
              (elim o as (λ _. Result Failure (Unit {0}) × RunState W) [
                | ok items ↦ run_items env r step_run items 0 s
                | err e ↦ step_error env r step_run.step e s
              ]).1
      resolved (ok items) = run_items-Accounted step_run items 0 s a
      resolved (err e) = emit_step_error-Accounted step_run.step.name e s a

      go :
          (source : Option LoopSource)
          → Fine
              (elim source as (λ _. Result Failure (Unit {0}) × RunState W) [
                | none ↦ run_step_tasks env r step_run step_run.step.tasks 0 0 s
                | some source ↦
                    elim (resolve_loop_items source s.vars step_run.template_data.collections) [
                      | ok items ↦ run_items env r step_run items 0 s
                      | err e ↦ step_error env r step_run.step e s
                    ]
              ]).1
      go none = (run_step_tasks-Keeps env r step_run step_run.step.tasks 0 0).keeps 0 s a
      go (some source) =
          resolved (resolve_loop_items source s.vars step_run.template_data.collections)

  pub run_step_body-Accounted :
      (step_run : StepRun) (s : RunState W) → Fine s → Fine (run_step_body env r step_run s).1
  unfolding run_step_body ◌>>=◌
  run_step_body-Accounted step_run s a =
      go (open_gate env r step_run.step s) (open_gate-Accounted step_run.step s a)
    where
      go :
          (p : Result Failure (Unit {0}) × RunState W)
          → Fine p.1
          → Fine
              (elim p.0 as (λ _. Result Failure (Unit {0}) × RunState W) [
                | ok _ ↦ run_tasks env r step_run p.1
                | err e ↦ (err e, p.1)
              ]).1
      go (ok x, s') h = run_tasks-Accounted step_run s' h
      go (err e, s') h = h
