-- ===== src/Runner/Steps.antt =====
-- One step of the plan: the gate of its `when=` and tags, its `until=` gate and loop, and its
-- `rescue` and `always` blocks.
use glidesh.Common.{
  ℕ, suc, ◌+◌, String, Bool, true, false, not, Option, none, some, or_else, unwrap_or, List, [],
  ◌∷◌, any, length, if◌then◌else◌, Result, ok, err,
}
use glidesh.Common.Dict.{Dict, get, insert}
use glidesh.Events.{
  Section, rescue, always, step_started, step_failed, step_skipped, section_started,
}
use glidesh.Detect.{OsInfo}
use glidesh.Plan.{Step, TaskDef, all_tasks}
use glidesh.Tags
use glidesh.Template.Data.{TemplateData}
use glidesh.Runner.Interface.{Env, Trigger, no_trigger, idle, fired}
use glidesh.Runner.Gates.{wait_for_gate}
use glidesh.Runner.Params.{NodeRunner, StepRun}
use glidesh.Runner.State.{
  RunState, skip_registers, error_unknown, withdraw, send, count_skipped, Decision, run, skip, gate,
  Action, ◌>>=◌, ◌>>◌,
}
use glidesh.Runner.Tasks.{run_step_tasks, scope_of}
use glidesh.Runner.Values.{
  LoopItem, resolve_loop_items, inject_loop_item, remove_all, Failure, in_step, expose,
}

-- The names that the tasks register.
unfoldable pub register_names : List TaskDef → List String
register_names [] = []
register_names (task ∷ tasks) = elim task.register [
  | none ↦ register_names tasks
  | some name ↦ name ∷ register_names tasks
]

unfoldable pub trigger_of : Step → Dict Bool → Trigger
unfolding get
trigger_of step step_changed = elim step.subscribe [
  | [] ↦ no_trigger
  | name ∷ names ↦
      if any (λ s. unwrap_or (get step_changed s) false) (name ∷ names) then fired else idle
]

-- The failure, if an action failed.
abbrev pub failure_of : {A : Type 0} → Result Failure A → Option Failure
failure_of (ok a) = none
failure_of (err e) = some e

-- A gate that used up its fuel, which one that pauses for a second or more never does.
abbrev pub gate_result : Option (Result {0} String Unit) → Result {0} String Unit
gate_result none = err ""
gate_result (some result) = result

module _ {W : Type 0} (env : Env W) (r : NodeRunner) where
  -- `emit_step_error`
  unfoldable pub emit_step_error : String → String → RunState W → RunState W
  unfolding send
  emit_step_error step error s = send (step_failed r.host.name step error) s

  unfoldable pub send_section : Step → Section → RunState W → RunState W
  unfolding send
  send_section step section s = send (section_started r.host.name step.name section) s

  abbrev pub step_error : {A : Type 0} → Step → String → Action W A
  step_error step error s = (err (in_step error), emit_step_error step.name error s)

  -- The tasks for each item of the loop, whose variables are taken away after each.
  unfoldable pub run_items : StepRun → List LoopItem → ℕ → Action W (Unit {0})
  unfolding inject_loop_item run_step_tasks remove_all
  run_items step_run [] iter_idx s = (ok tt, s)
  run_items step_run (item ∷ items) iter_idx s =
      let (vars, injected) = inject_loop_item s.vars item in
      let (result, s1) =
        run_step_tasks env r step_run step_run.step.tasks 0 iter_idx (record s { vars = vars }) in
      let s2 = record s1 { vars = remove_all s1.vars injected } in
      let rest = run_items step_run items (suc iter_idx) s2 in
      elim result [ ok _ ↦ rest | err e ↦ (err e, s2) ]

  unfoldable pub open_gate : Step → Action W (Unit {0})
  unfolding wait_for_gate emit_step_error in_step
  open_gate step s = elim step.until [
    | none ↦ (ok tt, s)
    | some gate ↦
        let (result, s') = wait_for_gate env r step gate s in
        elim (gate_result result) [ ok _ ↦ (ok tt, s') | err e ↦ step_error step e s' ]
  ]

  unfoldable pub run_tasks : StepRun → Action W (Unit {0})
  unfolding run_step_tasks run_items resolve_loop_items emit_step_error in_step
  run_tasks step_run s = elim step_run.step.loop_source [
    | none ↦ run_step_tasks env r step_run step_run.step.tasks 0 0 s
    | some source ↦ elim (resolve_loop_items source s.vars step_run.template_data.collections) [
      | ok items ↦ run_items step_run items 0 s
      | err e ↦ step_error step_run.step e s
    ]
  ]

  unfoldable pub run_step_body : StepRun → Action W (Unit {0})
  unfolding ◌>>=◌ open_gate run_tasks
  run_step_body step_run = open_gate step_run.step >> run_tasks step_run

  -- What the end of the body leaves for the other blocks: the failure, or the doubt of a preview.
  unfoldable pub after_body : Option Failure → RunState W → RunState W
  unfolding expose error_unknown
  after_body (some failed) s = record s { vars = expose (env.redact s.world) failed s.vars }
  after_body none s = if r.dry_run then error_unknown s else s

  -- The `rescue` block, with the failure that is left.
  unfoldable pub run_rescue : StepRun → Option Failure → RunState W → Option Failure × RunState W
  unfolding send_section run_step_tasks skip_registers register_names
  run_rescue step_run failure s = elim step_run.step.rescue [
    | [] ↦ (failure, s)
    | task ∷ tasks ↦ elim failure [
      | none ↦ (none, skip_registers (not r.dry_run) (register_names (task ∷ tasks)) s)
      | some _ ↦
          let (result, s') =
            run_step_tasks env r step_run (task ∷ tasks) (length step_run.step.tasks) 0
              (send_section step_run.step rescue s) in
          (failure_of result, s')
    ]
  ]

  unfoldable pub run_always : StepRun → Option Failure → RunState W → Option Failure × RunState W
  unfolding send_section run_step_tasks
  run_always step_run failure s = elim step_run.step.always [
    | [] ↦ (failure, s)
    | task ∷ tasks ↦
        let (result, s') =
          run_step_tasks env r step_run (task ∷ tasks)
            (length step_run.step.tasks + length step_run.step.rescue) 0
            (send_section step_run.step always s) in
        (or_else failure (failure_of result), s')
  ]

  -- A step that its gate lets run, up to the end of its `always` block.
  unfoldable pub start_step : StepRun → RunState W → Option Failure × RunState W
  unfolding run_step_body after_body run_rescue run_always withdraw
  start_step step_run s =
      let (result, s1) = run_step_body step_run (record s { changed = false }) in
      let body = failure_of result in
      let (rescued, s2) = run_rescue step_run body (after_body body s1) in
      let (failure, s3) = run_always step_run rescued s2 in (failure, withdraw s3)

  unfoldable pub skip_step : Step → String → Bool → RunState W → RunState W
  unfolding send count_skipped skip_registers register_names all_tasks
  skip_step step reason decided s =
      let tasks = length step.tasks + length step.always in
      skip_registers decided (register_names (all_tasks step))
        (count_skipped tasks (send (step_skipped r.host.name step.name tasks reason) s))

  -- Tags, then the step's `when=`.
  unfoldable pub step_gate : Step → TemplateData → RunState W → Result String Decision
  unfolding gate Tags.excludes
  step_gate step data' s = elim (Tags.excludes r.tags step.tags) [
    | some reason ↦ ok (skip reason true)
    | none ↦ gate step.when (scope_of env r data' s)
  ]

  -- A step, and whether the run goes on after it. `step_changed` is by the step's name.
  unfoldable pub run_step :
      TemplateData → OsInfo → ℕ → ℕ → Step → Dict Bool → RunState W → Bool × Dict Bool × RunState W
  unfolding step_gate emit_step_error skip_step start_step trigger_of send insert
  run_step data' os_info total idx step step_changed s =
      let arrived = if r.sync then record s { world = env.arrive s.world } else s in
      let s1 = send (step_started r.host.name step.name idx total) arrived in
      elim (step_gate step data' s1) [
        | err error ↦ (false, step_changed, emit_step_error step.name error s1)
        | ok decision ↦ elim decision [
          | skip reason decided ↦
              (true, insert step_changed step.name false, skip_step step reason decided s1)
          | run ↦
              let (failure, s2) =
                start_step
                  (record {
                    step = step;
                    step_idx = idx;
                    template_data = data';
                    os_info = os_info;
                    trigger = trigger_of step step_changed;
                  })
                  s1 in
              (
                elim failure [ none ↦ true | some _ ↦ false ],
                insert step_changed step.name s2.changed,
                s2,
              )
        ]
      ]

  -- The loop over the steps: whether it came to its end.
  unfoldable pub run_steps :
      TemplateData → OsInfo → ℕ → ℕ → List Step → Dict Bool → RunState W → Bool × RunState W
  unfolding run_step
  run_steps data' os_info total idx [] step_changed s = (true, s)
  run_steps data' os_info total idx (step ∷ steps) step_changed s =
      let (goes_on, step_changed', s') = run_step data' os_info total idx step step_changed s in
      let rest = run_steps data' os_info total (suc idx) steps step_changed' s' in
      if goes_on then rest else (false, s')
