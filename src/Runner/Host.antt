-- ===== src/Runner/Host.antt =====
-- The whole run of a host: connecting, gathering variables, the steps, and the end that every
-- path goes through. Permits, and closing the session, are left out.
use glidesh.Common.{String, Bool, false, [], ◌∷◌, length, if◌then◌else◌, Result, ok, err}
use glidesh.Common.Dict.{Dict, has, insert, extend}
use glidesh.Detect.{OsInfo}
use glidesh.Engine.{NodeResult}
use glidesh.Events.{node_connecting, node_connected, node_auth_failed, module_failed, node_complete}
use glidesh.Plan.{steps}
use glidesh.Template.Data.{TemplateData}
use glidesh.Runner.Interface.{Env}
use glidesh.Runner.Params.{NodeRunner}
use glidesh.Runner.State.{Progress, RunState, send}
use glidesh.Runner.Steps.{run_steps}
use glidesh.Runner.Values.{
  Collections, merged_vars, host_builtin_vars, os_builtin_vars, fact_builtin_vars,
}

-- `Progress::default`
abbrev pub default : Progress
default = record { changed = 0; skipped = 0; unknown = [] }

-- The variables that a host starts with.
unfoldable pub starting_vars : NodeRunner → OsInfo → Dict String
unfolding merged_vars host_builtin_vars os_builtin_vars fact_builtin_vars extend
starting_vars r os_info =
    extend
      (extend (extend (merged_vars r.plan r.host) (host_builtin_vars r.host))
        (os_builtin_vars os_info))
      (fact_builtin_vars os_info.facts)

-- The collections of the inventory, and those of the plan that have another name.
unfoldable pub add_structured : Collections → Collections → Collections
unfolding has insert
add_structured collections [] = collections
add_structured collections ((key, value) ∷ more) =
    add_structured (if has collections key then collections else insert collections key value) more

module _ {W : Type 0} (env : Env W) (r : NodeRunner) where
  abbrev pub fresh : W → RunState W
  fresh world = record {
    vars = [];
    progress = default;
    changed = false;
    events = [];
    world = world;
  }

  unfoldable pub finish : Bool → Progress → RunState W → NodeResult × RunState W
  unfolding send
  finish success progress s = (
    record {
      success = success;
      total_changed = progress.changed;
      total_skipped = progress.skipped;
    },
    send (node_complete r.host.name success progress.changed progress.skipped r.dry_run) s,
  )

  -- `decrypt_vars(…).and_then(|_| decrypt_template_data(…))`
  unfoldable pub decrypt_all :
      Dict String → TemplateData → W → Result String (Dict String × TemplateData) × W
  decrypt_all vars data' world =
      let (result, world1) = env.decrypt_vars vars world in
      elim result [
        | err e ↦ (err e, world1)
        | ok plain ↦
            let (result2, world2) = env.decrypt_template_data data' world1 in
            elim result2 [ ok d ↦ (ok (plain, d), world2) | err e ↦ (err e, world2) ]
      ]

  -- The steps, with their variables decrypted.
  unfoldable pub run_plan : OsInfo → TemplateData → RunState W → NodeResult × RunState W
  unfolding run_steps steps finish
  run_plan os_info data' s =
      let (success, s') =
        run_steps env r data' os_info (length (steps r.plan)) 0 (steps r.plan) [] s in
      finish success s'.progress s'

  -- What follows a connection.
  unfoldable pub run_connected : OsInfo → RunState W → NodeResult × RunState W
  unfolding starting_vars add_structured decrypt_all run_plan finish send
  run_connected os_info s =
      let data' = record (r.inventory_template_data) {
        collections = add_structured r.inventory_template_data.collections r.plan.structured_vars;
      } in
      let s1 = send (node_connected r.host.name os_info) s in
      let (result, world') = decrypt_all (starting_vars r os_info) data' s1.world in
      let s2 = record s1 { world = world' } in
      elim result [
        | ok found ↦ let (vars, d) = found in run_plan os_info d (record s2 { vars = vars })
        | err e ↦ finish false default (send (module_failed r.host.name "secret" "" e) s2)
      ]

  -- `run` of `run_inner`, whose errors all end the same way.
  unfoldable pub run_host : W → NodeResult × RunState W
  unfolding run_connected finish send
  run_host world =
      let s0 = send (node_connecting r.host.name) (fresh world) in
      let (connected, world1) = env.connect r.host s0.world in
      let s1 = record s0 { world = world1 } in
      elim connected [
        | err e ↦ finish false default (send (node_auth_failed r.host.name e) s1)
        | ok _ ↦
            let (detected, world2) = env.detect_os s1.world in
            let s2 = record s1 { world = world2 } in
            elim detected [
              | err e ↦ finish false default s2
              | ok os_info ↦ run_connected os_info s2
            ]
      ]
