-- ===== src/Runner/Accounts/Params.antt =====
-- The accounts while a task's parameters are built.
use glidesh.Common.{
  String, Bool, true, false, List, [], ◌∷◌, Result, ok, err, GlideshError, if◌then◌else◌,
}
use glidesh.Common.Dict.{Dict}
use glidesh.Plan.{TaskDef}
use glidesh.Template.{ParamValue, interpolate, interpolate_args}
use glidesh.Runner.Interface.{Env}
use glidesh.Runner.Params.{
  NodeRunner, fail, of_result, decrypt, decrypt_list, decrypt_map, decrypt_value, decrypt_args,
  build_with, build_params,
}
use glidesh.Runner.State.{Action, pure, ask}
use glidesh.Runner.Accounts.{Keeps, bind-Keeps, pure-Keeps, ask-Keeps, fail_task-Keeps}

module _ {W : Type 0} (env : Env W) (r : NodeRunner) where
  abbrev Kept : {A : Type 0} → Action W A → Type 0
  Kept m = Keeps r.dry_run m

  of_result-Keeps :
      (A : Type 0) (task : TaskDef) (o : Result GlideshError A) → Kept (of_result env r task o)
  unfolding of_result
  of_result-Keeps A task (ok x) = pure-Keeps
  of_result-Keeps A task (err e) = fail_task-Keeps _ _ _ _

  decrypt-Keeps : (task : TaskDef) (text : String) → Kept (decrypt env r task text)
  unfolding decrypt
  decrypt-Keeps task text = go (env.contains_secret_token text)
    where
      go :
          (b : Bool)
          → Kept (if b then ask (env.decrypt_inline text) (fail env r task) else pure text)
      go false = pure-Keeps
      go true = ask-Keeps _ _ (λ e. fail_task-Keeps _ _ _ _)

  decrypt_list-Keeps : (task : TaskDef) (ts : List String) → Kept (decrypt_list env r task ts)
  unfolding decrypt_list
  decrypt_list-Keeps task [] = pure-Keeps
  decrypt_list-Keeps task (t ∷ ts) =
      bind-Keeps (decrypt-Keeps task t)
        (λ u. bind-Keeps (decrypt_list-Keeps task ts) (λ us. pure-Keeps))

  decrypt_map-Keeps : (task : TaskDef) (m : Dict String) → Kept (decrypt_map env r task m)
  unfolding decrypt_map
  decrypt_map-Keeps task [] = pure-Keeps
  decrypt_map-Keeps task ((k, t) ∷ m) =
      bind-Keeps (decrypt-Keeps task t)
        (λ u. bind-Keeps (decrypt_map-Keeps task m) (λ us. pure-Keeps))

  decrypt_value-Keeps : (task : TaskDef) (v : ParamValue) → Kept (decrypt_value env r task v)
  unfolding decrypt_value
  decrypt_value-Keeps task (ParamValue.string t) =
      bind-Keeps (decrypt-Keeps task t) (λ u. pure-Keeps)
  decrypt_value-Keeps task (ParamValue.list ts) =
      bind-Keeps (decrypt_list-Keeps task ts) (λ u. pure-Keeps)
  decrypt_value-Keeps task (ParamValue.map m) =
      bind-Keeps (decrypt_map-Keeps task m) (λ u. pure-Keeps)
  decrypt_value-Keeps task (ParamValue.integer i) = pure-Keeps
  decrypt_value-Keeps task (ParamValue.boolean b) = pure-Keeps

  decrypt_args-Keeps :
      (task : TaskDef) (args : Dict ParamValue) → Kept (decrypt_args env r task args)
  unfolding decrypt_args
  decrypt_args-Keeps task [] = pure-Keeps
  decrypt_args-Keeps task ((k, v) ∷ args) =
      bind-Keeps (decrypt_value-Keeps task v)
        (λ u. bind-Keeps (decrypt_args-Keeps task args) (λ us. pure-Keeps))

  build_with-Keeps : (task : TaskDef) (vars : Dict String) → Kept (build_with env r task vars)
  unfolding build_with
  build_with-Keeps task vars =
      bind-Keeps (of_result-Keeps _ task (interpolate_args task.args vars)) (λ interpolated.
        bind-Keeps (decrypt_args-Keeps task interpolated) (λ args.
          bind-Keeps (of_result-Keeps _ task (interpolate task.resource vars))
            (λ resource. bind-Keeps (decrypt-Keeps task _) (λ name. pure-Keeps))))

  pub build_params-Keeps : (task : TaskDef) → Kept (build_params env r task)
  unfolding build_params
  build_params-Keeps task = record { keeps = λ owed s. (build_with-Keeps task s.vars).keeps owed s }
