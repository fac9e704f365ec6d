-- ===== src/Runner/Tasks.antt =====
-- A task of a step, and the tasks of a step or of its `rescue` or `always` block.
use glidesh.Common.{
  ℕ, suc, String, Bool, true, false, not, ◌&&◌, Option, none, some, List, [], ◌∷◌, if◌then◌else◌,
  str_eq, fmt, ok, err, ℤ, pos,
}
use glidesh.Condition.Eval.{Scope}
use glidesh.Events.{ExecutorEvent, module_check, module_result, module_failed, task_skipped}
use glidesh.Plan.{TaskDef, base_dir}
use glidesh.Template.Data.{TemplateData}
use glidesh.Runner.Interface.{
  Env, ModuleParams, ModuleStatus, satisfied, pending, unknown, ModuleResult, TaskKey,
  ModuleContext,
}
use glidesh.Runner.Reports.{
  resolve_changed, never_changes, task_output, captured_output, raw_resource,
}
use glidesh.Runner.State.{
  RunState, register, skip_register, send, count_skipped, count_changed, run, skip, gate, Action,
  ◌>>=◌, ◌>>◌, pure, modify, fail_task, ask,
}
use glidesh.Runner.Params.{NodeRunner, StepRun, escalation, emit, fail, build_params}

module _ {W : Type 0} (env : Env W) (r : NodeRunner) where
  -- What a registered name gets, or the failure of the task.
  unfoldable pub register_output : TaskDef → String → String → Bool → Action W (Unit {0})
  unfolding captured_output register fail_task
  register_output task resource output cut = elim task.register [
    | none ↦ pure tt
    | some name ↦ elim (captured_output r.dry_run output cut) [
      | ok value ↦ modify (register name value (not r.dry_run))
      | err error ↦ fail_task r.host.name task.module_name resource error
    ]
  ]

  -- The event of a task that ran.
  abbrev pub result_event : TaskDef → String → Bool → String → String → ℤ → ExecutorEvent
  result_event task resource changed stdout stderr exit_code =
      module_result r.host.name task.module_name resource changed r.dry_run stdout stderr exit_code

  -- After a successful `apply`.
  unfoldable pub applied :
      TaskDef → String → String → Option String → ModuleResult → Action W (Unit {0})
  unfolding ◌>>=◌ resolve_changed never_changes count_changed register_output task_output send
  applied task resource plan diff result =
      let task_changed =
        resolve_changed r.dry_run true result.changed && not (never_changes task) in
      modify (λ s. if task_changed then count_changed s else s)
      >> register_output task resource result.output result.output_cut
      >> emit env r (
          result_event task resource task_changed
            (task_output r.dry_run r.diff (some (plan, diff)) result.output) result.stderr
            result.exit_code)

  -- What follows a `check`.
  unfoldable pub after_check :
      TaskDef → ModuleContext → ModuleParams → ModuleStatus → Action W (Unit {0})
  unfolding ◌>>=◌ applied ask fail_task register send
  after_check task ctx params satisfied =
      modify (λ s. elim task.register [ none ↦ s | some name ↦ register name "" true s ])
      >> emit env r (result_event task params.resource_name false "" "" (pos 0))
  after_check task ctx params (unknown reason) = emit env r (
      module_failed r.host.name task.module_name params.resource_name
        (fmt ("Check returned unknown: " ∷ reason ∷ [])))
  after_check task ctx params (pending plan diff) = do
    result ←
        ask (env.apply task.module_name ctx params)
          (fail_task r.host.name task.module_name params.resource_name)
    applied task params.resource_name plan diff result

  abbrev pub context : StepRun → TaskDef → RunState W → ModuleContext
  context step_run task s = record {
    os_info = step_run.os_info;
    vars = s.vars;
    template_data = step_run.template_data;
    dry_run = r.dry_run;
    diff = r.diff;
    plan_base_dir = base_dir step_run.step r.plan_base_dir;
    run_as = escalation (some task.run_as) step_run.step r env.password;
    trigger = step_run.trigger;
  }

  -- `check` and what follows, in the context of the task.
  unfoldable pub check_with : TaskDef → ModuleContext → ModuleParams → Action W (Unit {0})
  unfolding ◌>>=◌ after_check ask fail_task send
  check_with task ctx params = do
    emit env r (module_check r.host.name task.module_name params.resource_name)
    status ←
        ask (env.check task.module_name ctx params)
          (fail_task r.host.name task.module_name params.resource_name)
    after_check task ctx params status

  unfoldable pub check_task : StepRun → TaskDef → ModuleParams → Action W (Unit {0})
  unfolding check_with escalation base_dir
  check_task step_run task params s = check_with task (context step_run task s) params s

  -- `run_host_task` and `*changed |= …`.
  unfoldable pub run_host_task : TaskKey → TaskDef → Action W (Unit {0})
  unfolding ◌>>=◌ build_params ask fail_task register_output count_changed send
  run_host_task key task = do
    params ← build_params env r task
    emit env r (module_check r.host.name task.module_name params.resource_name)
    out ←
        ask (env.run_host_task key params)
          (fail_task r.host.name task.module_name params.resource_name)
    register_output task params.resource_name out.stdout out.stdout_cut
    modify count_changed
    emit env r (result_event task params.resource_name true out.stdout out.stderr out.exit_code)

  -- A task whose `when=` holds.
  unfoldable pub dispatch : StepRun → TaskKey → TaskDef → Action W (Unit {0})
  unfolding ◌>>=◌ run_host_task build_params check_task fail_task raw_resource fmt
  dispatch step_run key task =
      if str_eq task.module_name "host"
      then run_host_task key task
      else if env.has_module task.module_name
      then (do params ← build_params env r task; check_task step_run task params)
      else fail env r task (fmt ("Unknown module: " ∷ task.module_name ∷ []))

  -- A task that is skipped.
  unfoldable pub skip_task : TaskDef → String → Bool → RunState W → RunState W
  unfolding send count_skipped skip_register raw_resource
  skip_task task reason decided s =
      let skipped =
        count_skipped 1
          (send (task_skipped r.host.name task.module_name (raw_resource task) reason) s) in
      elim task.register [ none ↦ skipped | some name ↦ skip_register decided name skipped ]

  abbrev pub scope_of : TemplateData → RunState W → Scope
  scope_of data' s = record {
    vars = s.vars;
    collections = data'.collections;
    unknown = s.progress.unknown;
  }

  -- A round of the loop over the tasks.
  unfoldable pub run_task : StepRun → TaskKey → TaskDef → Action W (Unit {0})
  unfolding gate skip_task dispatch fail_task raw_resource
  run_task step_run key task s = elim (gate task.when (scope_of step_run.template_data s)) [
    | err error ↦ fail env r task error s
    | ok decision ↦ elim decision [
      | run ↦ dispatch step_run key task s
      | skip reason decided ↦ (ok tt, skip_task task reason decided s)
    ]
  ]

  -- `run_step_tasks`, with `first_task` counted up.
  unfoldable pub run_step_tasks : StepRun → List TaskDef → ℕ → ℕ → Action W (Unit {0})
  unfolding ◌>>=◌ run_task
  run_step_tasks step_run [] first_task loop_iter = pure tt
  run_step_tasks step_run (task ∷ tasks) first_task loop_iter =
      run_task step_run
        (record { step_idx = step_run.step_idx; task_idx = first_task; loop_iter = loop_iter }) task
      >> run_step_tasks step_run tasks (suc first_task) loop_iter
