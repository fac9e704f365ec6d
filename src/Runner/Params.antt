-- ===== src/Runner/Params.antt =====
-- The parameters of a task: its arguments and resource with variables and secrets put in.
use glidesh.Common.{
  ℕ, String, Bool, Option, none, some, List, [], ◌∷◌, if◌then◌else◌, str_eq, Result, ok, err,
  GlideshError, error_text,
}
use glidesh.Common.Dict.{Dict, get}
use glidesh.Events.{ExecutorEvent}
use glidesh.Detect.{OsInfo}
use glidesh.Inventory.{ResolvedHost}
use glidesh.Plan.{Plan, Step, TaskDef}
use glidesh.RunAs.{RunAsSpec, ResolvedRunAs}
use glidesh.RunAs
use glidesh.Tags.{TagFilter}
use glidesh.Template.{ParamValue, interpolate, interpolate_args}
use glidesh.Template.Data.{TemplateData}
use glidesh.Runner.Interface.{Env, Trigger, ModuleParams}
use glidesh.Runner.Reports.{cmd_resource, raw_resource}
use glidesh.Runner.State.{send, Action, ◌>>=◌, pure, modify, fail_task, ask}

-- The fields of `NodeRunner` that are fixed for its run.
pub record NodeRunner : Type 0 where
  pub host : ResolvedHost
  pub plan : Plan
  pub dry_run : Bool
  pub diff : Bool
  pub tags : TagFilter
  pub inventory_template_data : TemplateData
  pub plan_base_dir : String
  pub sync : Bool

-- What every task of one step runs against.
pub record StepRun : Type 0 where
  pub step : Step
  pub step_idx : ℕ
  pub template_data : TemplateData
  pub os_info : OsInfo
  pub trigger : Trigger

-- The merged escalation of a task, or of a gate, which has no task.
unfoldable pub escalation :
    Option RunAsSpec → Step → NodeRunner → Option String → Option ResolvedRunAs
unfolding RunAs.merge_over RunAs.resolve
escalation none step r password =
    RunAs.resolve (RunAs.merge_over (RunAs.merge_over step.run_as r.plan.run_as) r.host.run_as)
      password
escalation (some task) step r password =
    RunAs.resolve
      (RunAs.merge_over (RunAs.merge_over (RunAs.merge_over task step.run_as) r.plan.run_as)
        r.host.run_as)
      password

module _ {W : Type 0} (env : Env W) (r : NodeRunner) where
  abbrev pub emit : ExecutorEvent → Action W (Unit {0})
  emit e = modify (send e)

  -- The failure of building a task's parameters, under the resource as written.
  abbrev pub fail : {A : Type 0} → TaskDef → String → Action W A
  fail task error = fail_task r.host.name task.module_name (raw_resource task) error

  unfoldable pub of_result : {A : Type 0} → TaskDef → Result GlideshError A → Action W A
  unfolding fail_task raw_resource
  of_result task (ok a) = pure a
  of_result task (err e) = fail task (error_text e)

  unfoldable pub decrypt : TaskDef → String → Action W String
  unfolding ask fail_task raw_resource
  decrypt task text =
      if env.contains_secret_token text
      then ask (env.decrypt_inline text) (fail task)
      else pure text

  unfoldable pub decrypt_list : TaskDef → List String → Action W (List String)
  unfolding ◌>>=◌ decrypt
  decrypt_list task [] = pure []
  decrypt_list task (t ∷ ts) = do u ← decrypt task t; us ← decrypt_list task ts; pure (u ∷ us)

  unfoldable pub decrypt_map : TaskDef → Dict String → Action W (Dict String)
  unfolding ◌>>=◌ decrypt
  decrypt_map task [] = pure []
  decrypt_map task ((k, t) ∷ m) = do u ← decrypt task t; us ← decrypt_map task m; pure ((k, u) ∷ us)

  unfoldable pub decrypt_value : TaskDef → ParamValue → Action W ParamValue
  unfolding ◌>>=◌ decrypt decrypt_list decrypt_map
  decrypt_value task (ParamValue.string s) = do t ← decrypt task s; pure (ParamValue.string t)
  decrypt_value task (ParamValue.list ss) = do ts ← decrypt_list task ss; pure (ParamValue.list ts)
  decrypt_value task (ParamValue.map m) = do ts ← decrypt_map task m; pure (ParamValue.map ts)
  decrypt_value task (ParamValue.integer i) = pure (ParamValue.integer i)
  decrypt_value task (ParamValue.boolean b) = pure (ParamValue.boolean b)

  -- `decrypt_inline_params`
  unfoldable pub decrypt_args : TaskDef → Dict ParamValue → Action W (Dict ParamValue)
  unfolding ◌>>=◌ decrypt_value
  decrypt_args task [] = pure []
  decrypt_args task ((k, v) ∷ args) = do
    w ← decrypt_value task v
    ws ← decrypt_args task args
    pure ((k, w) ∷ ws)

  -- The parameters with the variables `vars`.
  unfoldable pub build_with : TaskDef → Dict String → Action W ModuleParams
  unfolding ◌>>=◌ of_result interpolate_args interpolate decrypt_args decrypt cmd_resource get
  build_with task vars = do
    interpolated ← of_result task (interpolate_args task.args vars)
    args ← decrypt_args task interpolated
    resource ← of_result task (interpolate task.resource vars)
    name ← decrypt task (if str_eq resource "" then cmd_resource (get args "cmd") else resource)
    pure (record { resource_name = name; args = args })

  -- `build_params`
  unfoldable pub build_params : TaskDef → Action W ModuleParams
  unfolding build_with
  build_params task s = build_with task s.vars s
