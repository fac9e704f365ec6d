-- ===== src/Runner/Failures/Params.antt =====
-- The failures of building a task's parameters.
use glidesh.Common.{
  String, Bool, true, false, List, [], ◌∷◌, Result, ok, err, GlideshError, if◌then◌else◌,
}
use glidesh.Common.Dict.{Dict}
use glidesh.Plan.{TaskDef}
use glidesh.Template.{ParamValue, interpolate, interpolate_args}
use glidesh.Runner.Interface.{Env}
use glidesh.Runner.Params.{
  NodeRunner, fail, of_result, decrypt, decrypt_list, decrypt_map, decrypt_value, decrypt_args,
  build_with, build_params, emit,
}
use glidesh.Runner.State.{pure, ask, send}
use glidesh.Events.{ExecutorEvent}
use glidesh.Runner.Reports.{raw_resource}
use glidesh.Runner.Failures.{
  Tells, bind-Tells, pure-Tells, modify-Tells, fail_task-Tells, ask_task-Tells,
}

module _ {W : Type 0} (env : Env W) (r : NodeRunner) where
  pub emit-Tells : (e : ExecutorEvent) → Tells (emit env r e)
  emit-Tells e = modify-Tells (send e)

  of_result-Tells :
      (A : Type 0) (task : TaskDef) (o : Result GlideshError A) → Tells (of_result env r task o)
  unfolding of_result
  of_result-Tells A task (ok x) = pure-Tells
  of_result-Tells A task (err e) = fail_task-Tells _ _ _ _

  decrypt-Tells : (task : TaskDef) (text : String) → Tells (decrypt env r task text)
  unfolding decrypt
  decrypt-Tells task text = go (env.contains_secret_token text)
    where
      go :
          (b : Bool)
          → Tells (if b then ask (env.decrypt_inline text) (fail env r task) else pure text)
      go false = pure-Tells
      go true =
          ask_task-Tells (env.decrypt_inline text) r.host.name task.module_name (raw_resource task)

  decrypt_list-Tells : (task : TaskDef) (ts : List String) → Tells (decrypt_list env r task ts)
  unfolding decrypt_list
  decrypt_list-Tells task [] = pure-Tells
  decrypt_list-Tells task (t ∷ ts) =
      bind-Tells (decrypt-Tells task t)
        (λ u. bind-Tells (decrypt_list-Tells task ts) (λ us. pure-Tells))

  decrypt_map-Tells : (task : TaskDef) (m : Dict String) → Tells (decrypt_map env r task m)
  unfolding decrypt_map
  decrypt_map-Tells task [] = pure-Tells
  decrypt_map-Tells task ((k, t) ∷ m) =
      bind-Tells (decrypt-Tells task t)
        (λ u. bind-Tells (decrypt_map-Tells task m) (λ us. pure-Tells))

  decrypt_value-Tells : (task : TaskDef) (v : ParamValue) → Tells (decrypt_value env r task v)
  unfolding decrypt_value
  decrypt_value-Tells task (ParamValue.string t) =
      bind-Tells (decrypt-Tells task t) (λ u. pure-Tells)
  decrypt_value-Tells task (ParamValue.list ts) =
      bind-Tells (decrypt_list-Tells task ts) (λ u. pure-Tells)
  decrypt_value-Tells task (ParamValue.map m) =
      bind-Tells (decrypt_map-Tells task m) (λ u. pure-Tells)
  decrypt_value-Tells task (ParamValue.integer i) = pure-Tells
  decrypt_value-Tells task (ParamValue.boolean b) = pure-Tells

  decrypt_args-Tells :
      (task : TaskDef) (args : Dict ParamValue) → Tells (decrypt_args env r task args)
  unfolding decrypt_args
  decrypt_args-Tells task [] = pure-Tells
  decrypt_args-Tells task ((k, v) ∷ args) =
      bind-Tells (decrypt_value-Tells task v)
        (λ u. bind-Tells (decrypt_args-Tells task args) (λ us. pure-Tells))

  build_with-Tells : (task : TaskDef) (vars : Dict String) → Tells (build_with env r task vars)
  unfolding build_with
  build_with-Tells task vars =
      bind-Tells (of_result-Tells _ task (interpolate_args task.args vars)) (λ interpolated.
        bind-Tells (decrypt_args-Tells task interpolated) (λ args.
          bind-Tells (of_result-Tells _ task (interpolate task.resource vars))
            (λ resource. bind-Tells (decrypt-Tells task _) (λ name. pure-Tells))))

  pub build_params-Tells : (task : TaskDef) → Tells (build_params env r task)
  unfolding build_params
  build_params-Tells task = record { tells = λ s. (build_with-Tells task s.vars).tells s }
