-- ===== src/Runner/Accounts/Tasks.antt =====
-- The accounts over the actions of a task.
use glidesh.Common.{
  ℕ, suc, ◌≡◌, refl, String, Bool, true, false, Option, none, some, List, [], ◌∷◌, Result, ok, err,
  pos, if◌then◌else◌, str_eq, fmt,
}
use glidesh.Events.{ExecutorEvent, module_check, task_skipped, module_failed}
use glidesh.Plan.{TaskDef}
use glidesh.Runner.Values.{Failure}
use glidesh.Runner.Interface.{
  Env, ModuleParams, ModuleContext, ModuleStatus, satisfied, pending, unknown, TaskKey, HostOutput,
}
use glidesh.Runner.Params.{NodeRunner, StepRun, emit, fail, build_params}
use glidesh.Runner.Reports.{raw_resource}
use glidesh.Runner.State.{
  RunState, Action, ◌>>=◌, ◌>>◌, modify, register, send, count_changed, count_skipped,
  skip_register, gate, run, skip, Decision,
}
use glidesh.Runner.Tasks.{
  result_event, after_check, check_with, context, check_task, run_host_task, dispatch, skip_task,
  scope_of, run_task, run_step_tasks,
}
use glidesh.Runner.Accounts.Params.{build_params-Keeps}
use glidesh.Runner.Accounts.Reports.{register_output-Keeps, reported, counted, applied-Keeps}
use glidesh.Runner.Accounts.{
  gate-decided, skipped-Accounted, skip_register-Accounted, Acc, Keeps, skips_of, completes_of,
  changes_of, bind-Keeps, pure-Keeps, ask_task-Keeps, send-Keeps, fail_task-Keeps, register-Keeps,
}

module _ {W : Type 0} (env : Env W) (r : NodeRunner) where
  abbrev Kept : {A : Type 0} → Action W A → Type 0
  Kept m = Keeps r.dry_run m

  registered-Keeps :
      (name : Option String)
      → Kept (modify (λ s. elim name [ none ↦ s | some n ↦ register n "" true s ]))
  registered-Keeps none = record { keeps = λ owed s a. a }
  registered-Keeps (some name) = register-Keeps name "" (λ d. refl)

  after_check-Keeps :
      (task : TaskDef) (ctx : ModuleContext) (params : ModuleParams) (status : ModuleStatus)
      → Kept (after_check env r task ctx params status)
  unfolding after_check
  after_check-Keeps task ctx params satisfied = bind-Keeps (registered-Keeps task.register) (λ _.
      send-Keeps (result_event env r task params.resource_name false "" "" (pos 0))
        (refl, refl, refl))
  after_check-Keeps task ctx params (unknown reason) =
      send-Keeps
        (module_failed r.host.name task.module_name params.resource_name
          (fmt ("Check returned unknown: " ∷ reason ∷ [])))
        (refl, refl, refl)
  after_check-Keeps task ctx params (pending plan diff) =
      bind-Keeps
        (ask_task-Keeps (env.apply task.module_name ctx params) r.host.name task.module_name
          params.resource_name)
        (λ result. applied-Keeps env r task params.resource_name plan diff result)

  check_with-Keeps :
      (task : TaskDef) (ctx : ModuleContext) (params : ModuleParams)
      → Kept (check_with env r task ctx params)
  unfolding check_with
  check_with-Keeps task ctx params =
      bind-Keeps
        (send-Keeps (module_check r.host.name task.module_name params.resource_name)
          (refl, refl, refl))
        (λ _.
          bind-Keeps
            (ask_task-Keeps (env.check task.module_name ctx params) r.host.name task.module_name
              params.resource_name)
            (λ status. after_check-Keeps task ctx params status))

  check_task-Keeps :
      (step_run : StepRun) (task : TaskDef) (params : ModuleParams)
      → Kept (check_task env r step_run task params)
  unfolding check_task
  check_task-Keeps step_run task params = record {
    keeps = λ owed s. (check_with-Keeps task (context env r step_run task s) params).keeps owed s;
  }

  run_host_task-Keeps : (key : TaskKey) (task : TaskDef) → Kept (run_host_task env r key task)
  unfolding run_host_task
  run_host_task-Keeps key task = bind-Keeps (build_params-Keeps env r task) (λ params.
      bind-Keeps
        (send-Keeps (module_check r.host.name task.module_name params.resource_name)
          (refl, refl, refl))
        (λ _.
          bind-Keeps
            (ask_task-Keeps (env.run_host_task key params) r.host.name task.module_name
              params.resource_name)
            (λ (out : HostOutput).
              bind-Keeps
                (register_output-Keeps env r task params.resource_name out.stdout out.stdout_cut)
                (λ _.
                  counted_event
                    (result_event env r task params.resource_name true out.stdout out.stderr
                      out.exit_code)
                    refl refl refl))))
    where
      counted_event :
          (e : ExecutorEvent)
          → skips_of e ≡ 0
          → completes_of e ≡ 0
          → changes_of e ≡ 1
          → Kept (modify count_changed >> emit env r e)
      counted_event e h0 h1 h2 = record {
        keeps = λ owed s a.
            reported env r owed (count_changed s) e 1 h0 h1 h2 (counted env r owed s true a);
      }

  dispatch-Keeps :
      (step_run : StepRun) (key : TaskKey) (task : TaskDef)
      → Kept (dispatch env r step_run key task)
  unfolding dispatch
  dispatch-Keeps step_run key task =
      go (str_eq task.module_name "host") (env.has_module task.module_name)
    where
      go :
          (is_host known : Bool)
          → Kept (
              if is_host
              then run_host_task env r key task
              else if known
              then (do params ← build_params env r task; check_task env r step_run task params)
              else fail env r task (fmt ("Unknown module: " ∷ task.module_name ∷ [])))
      go true known = run_host_task-Keeps key task
      go false true =
          bind-Keeps (build_params-Keeps env r task)
            (λ params. check_task-Keeps step_run task params)
      go false false = fail_task-Keeps _ _ _ _

  skip_task-Accounted :
      (task : TaskDef) (reason : String) (decided : Bool) (owed : ℕ) (s : RunState W)
      → (r.dry_run ≡ false → decided ≡ true)
      → Acc r.dry_run owed s
      → Acc r.dry_run owed (skip_task env r task reason decided s)
  unfolding skip_task send count_skipped
  skip_task-Accounted task reason decided owed s h a = go task.register
    where
      skipped : RunState W
      skipped =
          count_skipped 1
            (send (task_skipped r.host.name task.module_name (raw_resource task) reason) s)

      skipped_acc : Acc r.dry_run owed skipped
      skipped_acc = skipped-Accounted r.dry_run owed s.progress s.events _ 1 refl refl refl a

      go :
          (name : Option String)
          → Acc r.dry_run owed
              (elim name [ none ↦ skipped | some n ↦ skip_register decided n skipped ])
      go none = skipped_acc
      go (some n) = skip_register-Accounted decided n owed skipped h skipped_acc

  run_task-Keeps :
      (step_run : StepRun) (key : TaskKey) (task : TaskDef)
      → Kept (run_task env r step_run key task)
  unfolding run_task
  run_task-Keeps step_run key task = record {
    keeps = λ owed s a. go owed s a (gate task.when (scope_of env r step_run.template_data s)) refl;
  }
    where
      go :
          (owed : ℕ) (s : RunState W)
          → Acc r.dry_run owed s
          → (o : Result String Decision)
          → gate task.when (scope_of env r step_run.template_data s) ≡ o
          → Acc r.dry_run owed
              (elim o as (λ _. Result Failure (Unit {0}) × RunState W) [
                | err error ↦ fail env r task error s
                | ok decision ↦ elim decision [
                  | run ↦ dispatch env r step_run key task s
                  | skip reason decided ↦ (ok tt, skip_task env r task reason decided s)
                ]
              ]).1
      go owed s a (err error) e =
          (fail_task-Keeps {A = Unit {0}} r.host.name task.module_name (raw_resource task)
              error).keeps
            owed s a
      go owed s a (ok run) e = (dispatch-Keeps step_run key task).keeps owed s a
      go owed s a (ok (skip reason decided)) e =
          skip_task-Accounted task reason decided owed s
            (λ d. gate-decided task.when _ reason decided (a.all_known d) e) a

  pub run_step_tasks-Keeps :
      (step_run : StepRun) (tasks : List TaskDef) (first_task loop_iter : ℕ)
      → Kept (run_step_tasks env r step_run tasks first_task loop_iter)
  unfolding run_step_tasks
  run_step_tasks-Keeps step_run [] first_task loop_iter = pure-Keeps
  run_step_tasks-Keeps step_run (task ∷ tasks) first_task loop_iter =
      bind-Keeps (run_task-Keeps step_run _ task)
        (λ _. run_step_tasks-Keeps step_run tasks (suc first_task) loop_iter)
