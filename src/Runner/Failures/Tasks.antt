-- ===== src/Runner/Failures/Tasks.antt =====
-- The failures of the actions of a task.
use glidesh.Common.{
  ◌&&◌, not, String, Bool, true, false, List, [], ◌∷◌, Result, ok, err, if◌then◌else◌, ℕ, Option,
  none, some, suc, pos, str_eq, fmt,
}
use glidesh.Plan.{TaskDef}
use glidesh.Runner.Interface.{
  Env, ModuleResult, ModuleParams, ModuleContext, ModuleStatus, satisfied, pending, unknown,
  TaskKey, HostOutput,
}
use glidesh.Runner.Params.{NodeRunner, fail, build_params, StepRun}
use glidesh.Runner.State.{
  pure, RunState, ◌>>=◌, modify, fail_task, register, count_changed, gate, run, skip, Decision,
}
use glidesh.Events.{module_check, module_failed}
use glidesh.Runner.Values.{Failure}
use glidesh.Runner.Reports.{
  raw_resource, resolve_changed, never_changes, task_output, captured_output,
}
use glidesh.Runner.Tasks.{
  register_output, applied, result_event, after_check, check_with, context, check_task,
  run_host_task, dispatch, skip_task, scope_of, run_task, run_step_tasks,
}
use glidesh.Runner.Failures.{
  Told, Tells, bind-Tells, pure-Tells, modify-Tells, fail_task-Tells, ask_task-Tells,
}
use glidesh.Runner.Failures.Params.{emit-Tells, build_params-Tells}

module _ {W : Type 0} (env : Env W) (r : NodeRunner) where
  pub register_output-Tells :
      (task : TaskDef) (resource output : String) (cut : Bool)
      → Tells (register_output env r task resource output cut)
  unfolding register_output
  register_output-Tells task resource output cut = go task.register
    where
      named :
          (name : String) (o : Result String String)
          → Tells {W = W} (elim o [
            | ok value ↦ modify (register name value (not r.dry_run))
            | err error ↦ fail_task r.host.name task.module_name resource error
          ])
      named name (ok value) = modify-Tells (register name value (not r.dry_run))
      named name (err error) = fail_task-Tells _ _ _ _

      go :
          (name : Option String)
          → Tells {W = W} (elim name [
            | none ↦ pure tt
            | some name ↦ elim (captured_output r.dry_run output cut) [
              | ok value ↦ modify (register name value (not r.dry_run))
              | err error ↦ fail_task r.host.name task.module_name resource error
            ]
          ])
      go none = pure-Tells
      go (some name) = named name (captured_output r.dry_run output cut)

  applied-Tells :
      (task : TaskDef) (resource plan : String) (diff : Option String) (result : ModuleResult)
      → Tells (applied env r task resource plan diff result)
  unfolding applied
  applied-Tells task resource plan diff result =
      let b = resolve_changed r.dry_run true result.changed && not (never_changes task) in
      bind-Tells
        (bind-Tells (modify-Tells (λ s. if b then count_changed s else s))
          (λ _. register_output-Tells task resource result.output result.output_cut))
        (λ _. emit-Tells env r (
          result_event env r task resource b
            (task_output r.dry_run r.diff (some (plan, diff)) result.output) result.stderr
            result.exit_code))

  after_check-Tells :
      (task : TaskDef) (ctx : ModuleContext) (params : ModuleParams) (status : ModuleStatus)
      → Tells (after_check env r task ctx params status)
  unfolding after_check
  after_check-Tells task ctx params satisfied =
      bind-Tells
        (modify-Tells (λ s. elim task.register [ none ↦ s | some name ↦ register name "" true s ]))
        (λ _. emit-Tells env r (result_event env r task params.resource_name false "" "" (pos 0)))
  after_check-Tells task ctx params (unknown reason) = emit-Tells env r (
      module_failed r.host.name task.module_name params.resource_name
        (fmt ("Check returned unknown: " ∷ reason ∷ [])))
  after_check-Tells task ctx params (pending plan diff) =
      bind-Tells
        (ask_task-Tells (env.apply task.module_name ctx params) r.host.name task.module_name
          params.resource_name)
        (λ result. applied-Tells task params.resource_name plan diff result)

  check_with-Tells :
      (task : TaskDef) (ctx : ModuleContext) (params : ModuleParams)
      → Tells (check_with env r task ctx params)
  unfolding check_with
  check_with-Tells task ctx params =
      bind-Tells (emit-Tells env r (module_check r.host.name task.module_name params.resource_name))
        (λ _.
          bind-Tells
            (ask_task-Tells (env.check task.module_name ctx params) r.host.name task.module_name
              params.resource_name)
            (λ status. after_check-Tells task ctx params status))

  check_task-Tells :
      (step_run : StepRun) (task : TaskDef) (params : ModuleParams)
      → Tells (check_task env r step_run task params)
  unfolding check_task
  check_task-Tells step_run task params = record {
    tells = λ s. (check_with-Tells task (context env r step_run task s) params).tells s;
  }

  run_host_task-Tells : (key : TaskKey) (task : TaskDef) → Tells (run_host_task env r key task)
  unfolding run_host_task
  run_host_task-Tells key task = bind-Tells (build_params-Tells env r task) (λ params.
      bind-Tells (emit-Tells env r (module_check r.host.name task.module_name params.resource_name))
        (λ _.
          bind-Tells
            (ask_task-Tells (env.run_host_task key params) r.host.name task.module_name
              params.resource_name)
            (λ (out : HostOutput).
              bind-Tells (register_output-Tells task params.resource_name out.stdout out.stdout_cut)
                (λ _. bind-Tells (modify-Tells count_changed) (λ _. emit-Tells env r (
                  result_event env r task params.resource_name true out.stdout out.stderr
                    out.exit_code))))))

  dispatch-Tells :
      (step_run : StepRun) (key : TaskKey) (task : TaskDef)
      → Tells (dispatch env r step_run key task)
  unfolding dispatch
  dispatch-Tells step_run key task =
      go (str_eq task.module_name "host") (env.has_module task.module_name)
    where
      go :
          (is_host known : Bool)
          → Tells (
              if is_host
              then run_host_task env r key task
              else if known
              then (do params ← build_params env r task; check_task env r step_run task params)
              else fail env r task (fmt ("Unknown module: " ∷ task.module_name ∷ [])))
      go true known = run_host_task-Tells key task
      go false true =
          bind-Tells (build_params-Tells env r task)
            (λ params. check_task-Tells step_run task params)
      go false false = fail_task-Tells _ _ _ _

  run_task-Tells :
      (step_run : StepRun) (key : TaskKey) (task : TaskDef)
      → Tells (run_task env r step_run key task)
  unfolding run_task
  run_task-Tells step_run key task = record {
    tells = λ s. go s (gate task.when (scope_of env r step_run.template_data s));
  }
    where
      go :
          (s : RunState W) (o : Result String Decision)
          → Told (elim o as (λ _. Result Failure (Unit {0}) × RunState W) [
            | err error ↦ fail env r task error s
            | ok decision ↦ elim decision [
              | run ↦ dispatch env r step_run key task s
              | skip reason decided ↦ (ok tt, skip_task env r task reason decided s)
            ]
          ])
      go s (err error) =
          (fail_task-Tells {A = Unit {0}} r.host.name task.module_name (raw_resource task)
              error).tells
            s
      go s (ok run) = (dispatch-Tells step_run key task).tells s
      go s (ok (skip reason decided)) = tt

  pub run_step_tasks-Tells :
      (step_run : StepRun) (tasks : List TaskDef) (first_task loop_iter : ℕ)
      → Tells (run_step_tasks env r step_run tasks first_task loop_iter)
  unfolding run_step_tasks
  run_step_tasks-Tells step_run [] first_task loop_iter = pure-Tells
  run_step_tasks-Tells step_run (task ∷ tasks) first_task loop_iter =
      bind-Tells (run_task-Tells step_run _ task)
        (λ _. run_step_tasks-Tells step_run tasks (suc first_task) loop_iter)
