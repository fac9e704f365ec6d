-- ===== src/Runner/Failures/Steps.antt =====
-- The failure of a step's body, and what is left of it after the step.
use glidesh.Common.{
  false, ◌≡◌, ◌∙◌, contains, ℕ, suc, refl, String, Option, none, some, List, [], ◌∷◌, Result, ok,
  err,
}
use glidesh.Events.{step_failed}
use glidesh.Plan.{Step, UntilGate, LoopSource}
use glidesh.Runner.Interface.{Env}
use glidesh.Runner.Gates.{wait_for_gate}
use glidesh.Runner.Params.{NodeRunner, StepRun}
use glidesh.Runner.State.{RunState, send, gate}
use glidesh.Runner.Steps.{
  gate_result, emit_step_error, step_error, run_items, open_gate, run_tasks, run_step_body,
}
use glidesh.Runner.Tasks.{run_step_tasks}
use glidesh.Runner.Values.{LoopItem, resolve_loop_items, inject_loop_item, remove_all, Failure}
use glidesh.Runner.Failures.{Told, Tells, IsAnnounced, bind-Tells}
use glidesh.Runner.Failures.Tasks.{run_step_tasks-Tells}
use glidesh.Common.Dict.{remove, get, set_remove, get-remove, contains-set_remove}
use glidesh.Runner.State.{withdraw}
use glidesh.Runner.Values.{error_msg, error_task}
use glidesh.Runner.Steps.{start_step, run_rescue, run_always, after_body, failure_of}

module _ {W : Type 0} (env : Env W) (r : NodeRunner) where
  step_error-Tells :
      (step : Step) (error : String) (s : RunState W)
      → Told {A = Unit {0}} (step_error env r step error s)
  unfolding emit_step_error send
  step_error-Tells step error s = record {
    before = s.events;
    event = step_failed r.host.name step.name error;
    last = refl;
    announces = refl;
  }

  run_items-Tells :
      (step_run : StepRun) (items : List LoopItem) (iter_idx : ℕ) (s : RunState W)
      → Told (run_items env r step_run items iter_idx s)
  unfolding run_items
  run_items-Tells step_run [] iter_idx s = tt
  run_items-Tells step_run (item ∷ items) iter_idx s =
      let (vars, injected) = inject_loop_item s.vars item in
      let s0 = record s { vars = vars } in
      let (result, s1) = run_step_tasks env r step_run step_run.step.tasks 0 iter_idx s0 in
      let s2 = record s1 { vars = remove_all s1.vars injected } in
      go result s1 injected (run_items env r step_run items (suc iter_idx) s2)
        ((run_step_tasks-Tells env r step_run step_run.step.tasks 0 iter_idx).tells s0)
        (run_items-Tells step_run items (suc iter_idx) s2)
    where
      go :
          (result : Result Failure (Unit {0})) (s1 : RunState W) (injected : List String)
          (rest : Result Failure (Unit {0}) × RunState W)
          → Told (result, s1)
          → Told rest
          → Told (elim result as (λ _. Result Failure (Unit {0}) × RunState W) [
            | ok _ ↦ rest
            | err e ↦ (err e, record s1 { vars = remove_all s1.vars injected })
          ])
      go (ok x) s1 injected rest h t = t
      go (err e) s1 injected rest h t = h

  open_gate-Tells : (step : Step) → Tells (open_gate env r step)
  unfolding open_gate
  open_gate-Tells step = record { tells = λ s. go s step.until }
    where
      opened :
          (o : Option (Result {0} String (Unit {0}))) (s' : RunState W)
          → Told (elim (gate_result o) as (λ _. Result Failure (Unit {0}) × RunState W) [
            | ok _ ↦ (ok tt, s')
            | err e ↦ step_error env r step e s'
          ])
      opened none s' = step_error-Tells step "" s'
      opened (some (ok x)) s' = tt
      opened (some (err e)) s' = step_error-Tells step e s'

      go :
          (s : RunState W) (until : Option UntilGate)
          → Told (elim until as (λ _. Result Failure (Unit {0}) × RunState W) [
            | none ↦ (ok tt, s)
            | some gate ↦
                let (result, s') = wait_for_gate env r step gate s in
                elim (gate_result result) [
                  | ok _ ↦ (ok tt, s')
                  | err e ↦ step_error env r step e s'
                ]
          ])
      go s none = tt
      go s (some gate) =
          opened (wait_for_gate env r step gate s).0 (wait_for_gate env r step gate s).1

  run_tasks-Tells : (step_run : StepRun) → Tells (run_tasks env r step_run)
  unfolding run_tasks
  run_tasks-Tells step_run = record { tells = λ s. go s step_run.step.loop_source }
    where
      resolved :
          (s : RunState W) (o : Result String (List LoopItem))
          → Told (elim o as (λ _. Result Failure (Unit {0}) × RunState W) [
            | ok items ↦ run_items env r step_run items 0 s
            | err e ↦ step_error env r step_run.step e s
          ])
      resolved s (ok items) = run_items-Tells step_run items 0 s
      resolved s (err e) = step_error-Tells step_run.step e s

      go :
          (s : RunState W) (source : Option LoopSource)
          → Told (elim source as (λ _. Result Failure (Unit {0}) × RunState W) [
            | none ↦ run_step_tasks env r step_run step_run.step.tasks 0 0 s
            | some source ↦
                elim (resolve_loop_items source s.vars step_run.template_data.collections) [
                  | ok items ↦ run_items env r step_run items 0 s
                  | err e ↦ step_error env r step_run.step e s
                ]
          ])
      go s none = (run_step_tasks-Tells env r step_run step_run.step.tasks 0 0).tells s
      go s (some source) =
          resolved s (resolve_loop_items source s.vars step_run.template_data.collections)

  run_step_body-Tells : (step_run : StepRun) → Tells (run_step_body env r step_run)
  unfolding run_step_body
  run_step_body-Tells step_run =
      bind-Tells (open_gate-Tells step_run.step) (λ _. run_tasks-Tells step_run)

  -- When the body of a step fails, in its gate, its loop or its tasks, the last event that it sent
  -- is a `StepFailed` or a `ModuleFailed` with the failure's message and task.
  pub run_step_body-IsAnnounced :
      (step_run : StepRun) (s : RunState W) (f : Failure)
      → (run_step_body env r step_run s).0 ≡ err f
      → IsAnnounced f (run_step_body env r step_run s).1.events
  run_step_body-IsAnnounced step_run s f e =
      go (run_step_body env r step_run s) e ((run_step_body-Tells step_run).tells s)
    where
      go :
          (p : Result Failure (Unit {0}) × RunState W)
          → p.0 ≡ err f
          → Told p
          → IsAnnounced f p.1.events
      go (ok x, s') h t = absurd (cc)
      go (err g, s') h t = let same : f ≡ g = cc in rw same t

  -- Nothing of a failure is left in the state.
  abbrev pub IsWithdrawn : RunState W → Type 0
  IsWithdrawn s =
      (get s.vars error_msg ≡ none)
      × (get s.vars error_task ≡ none)
      × (contains s.progress.unknown error_msg ≡ false)
      × (contains s.progress.unknown error_task ≡ false)

  withdraw-IsWithdrawn : (s : RunState W) → IsWithdrawn (withdraw s)
  unfolding withdraw
  withdraw-IsWithdrawn s =
      let first = remove s.vars error_msg in
      let known = set_remove s.progress.unknown error_msg in
      (
        get-remove first error_task error_msg ∙ get-remove s.vars error_msg error_msg,
        get-remove first error_task error_task,
        contains-set_remove known error_task error_msg
            ∙ contains-set_remove s.progress.unknown error_msg error_msg,
        contains-set_remove known error_task error_task,
      )

  -- Once a step that was started is over, whether it failed, was rescued or succeeded, the
  -- variables of a failure are undefined and not unknown either.
  pub start_step-IsWithdrawn :
      (step_run : StepRun) (s : RunState W) → IsWithdrawn (start_step env r step_run s).1
  unfolding start_step
  start_step-IsWithdrawn step_run s =
      let (result, s1) = run_step_body env r step_run (record s { changed = false }) in
      let body = failure_of result in
      let (rescued, s2) = run_rescue env r step_run body (after_body env r body s1) in
      withdraw-IsWithdrawn (run_always env r step_run rescued s2).1
