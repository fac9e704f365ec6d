-- ===== src/Runner/Accounts/Host.antt =====
-- The accounts at the end of a host's run.
use glidesh.Common.{
  ◌≤◌, ◌≡◌, refl, String, Bool, true, false, List, [], ◌∷◌, ◌++◌, sum_of, arith, length, Result, ok,
  err,
}
use glidesh.Common.Dict.{Dict}
use glidesh.Detect.{OsInfo}
use glidesh.Engine.{NodeResult}
use glidesh.Events.{
  ExecutorEvent, node_connecting, node_connected, node_auth_failed, module_failed, node_complete,
}
use glidesh.Plan.{steps}
use glidesh.Template.Data.{TemplateData}
use glidesh.Runner.Interface.{Env}
use glidesh.Runner.Params.{NodeRunner}
use glidesh.Runner.State.{RunState, send}
use glidesh.Runner.Steps.{run_steps}
use glidesh.Runner.Host.{
  default, starting_vars, add_structured, fresh, finish, decrypt_all, run_plan, run_connected,
  run_host,
}
use glidesh.Runner.Accounts.{skips_of, changes_of, completes_of, Accounted, plain-Accounted}
use glidesh.Runner.Accounts.Loop.{run_steps-Accounted}

-- The events of a host end in its only `NodeComplete`, which has the counts of the result; the
-- skipped tasks are those that the events before it report, the changed ones no fewer than they
-- report, and as many in a preview; and a real run ends with every variable known.
pub record HasReported {W : Type 0} (r : NodeRunner) (result : NodeResult) (s : RunState W)
    : Type 0 where
  pub before : List ExecutorEvent
  pub complete :
      s.events
      ≡ before
        ++ (node_complete r.host.name result.success result.total_changed result.total_skipped
              r.dry_run
            ∷ [])
  pub only : sum_of completes_of before ≡ 0
  pub skips : sum_of skips_of before ≡ result.total_skipped
  pub at_most : sum_of changes_of before ≤ result.total_changed
  pub preview_exact : r.dry_run ≡ true → sum_of changes_of before ≡ result.total_changed
  pub all_known : r.dry_run ≡ false → s.progress.unknown ≡ []

module _ {W : Type 0} (env : Env W) (r : NodeRunner) where
  abbrev Reported : NodeResult × RunState W → Type 0
  Reported (result, s) = HasReported r result s

  finish-HasReported :
      (success : Bool) (s : RunState W)
      → Accounted r.dry_run 0 s.progress s.events
      → Reported (finish env r success s.progress s)
  unfolding finish send
  finish-HasReported success s a = record {
    before = s.events;
    complete = refl;
    only = a.completes;
    skips = a.skips;
    at_most = omega (arith, a.at_most);
    preview_exact = λ d. omega (arith, a.preview_exact d);
    all_known = a.all_known;
  }

  run_plan-HasReported :
      (os_info : OsInfo) (data' : TemplateData) (s : RunState W)
      → Accounted r.dry_run 0 s.progress s.events
      → Reported (run_plan env r os_info data' s)
  unfolding run_plan
  run_plan-HasReported os_info data' s a =
      let (success, s') =
        run_steps env r data' os_info (length (steps r.plan)) 0 (steps r.plan) [] s in
      finish-HasReported success s'
        (run_steps-Accounted env r data' os_info (length (steps r.plan)) 0 (steps r.plan) [] s a)

  -- A state in which nothing has run yet.
  abbrev unstarted : List ExecutorEvent → W → RunState W
  unstarted es world = record (fresh env r world) { events = es }

  run_connected-HasReported :
      (os_info : OsInfo) (es : List ExecutorEvent) (world : W)
      → Accounted r.dry_run 0 default es
      → Reported (run_connected env r os_info (unstarted es world))
  unfolding run_connected send
  run_connected-HasReported os_info es world a =
      go (decrypt_all env r (starting_vars r os_info) data' world)
    where
      data' : TemplateData
      data' = record (r.inventory_template_data) {
        collections = add_structured r.inventory_template_data.collections r.plan.structured_vars;
      }

      connected : List ExecutorEvent
      connected = es ++ (node_connected r.host.name os_info ∷ [])

      plain : Accounted r.dry_run 0 default connected
      plain =
          plain-Accounted r.dry_run 0 default es (node_connected r.host.name os_info)
            (refl, refl, refl) a

      go :
          (p : Result String (Dict String × TemplateData) × W)
          → Reported (elim p.0 as (λ _. NodeResult × RunState W) [
            | ok found ↦
                let (vars, d) = found in
                run_plan env r os_info d (record (unstarted connected p.1) { vars = vars })
            | err e ↦
                finish env r false default
                  (send (module_failed r.host.name "secret" "" e) (unstarted connected p.1))
          ])
      go (ok (vars, d), world') =
          run_plan-HasReported os_info d (record (unstarted connected world') { vars = vars }) plain
      go (err e, world') =
          finish-HasReported false
            (send (module_failed r.host.name "secret" "" e) (unstarted connected world'))
            (plain-Accounted r.dry_run 0 default connected (module_failed r.host.name "secret" "" e)
              (refl, refl, refl) plain)

  run_detected-HasReported :
      (es : List ExecutorEvent) (p : Result String OsInfo × W)
      → Accounted r.dry_run 0 default es
      → Reported (elim p.0 as (λ _. NodeResult × RunState W) [
        | err e ↦ finish env r false default (unstarted es p.1)
        | ok os_info ↦ run_connected env r os_info (unstarted es p.1)
      ])
  run_detected-HasReported es (ok os_info, world) a = run_connected-HasReported os_info es world a
  run_detected-HasReported es (err e, world) a = finish-HasReported false (unstarted es world) a

  -- Whatever the host, the secrets and the modules do, the events that a host's run sends end in
  -- its only `NodeComplete`, which has the counts of the result; the events before it report as
  -- many skipped tasks as the result counts, no more changed ones, and as many in a preview; and
  -- a real run ends with no variable unknown.
  pub run_host-HasReported :
      (world : W) → HasReported r (run_host env r world).0 (run_host env r world).1
  unfolding run_host send
  run_host-HasReported world = go (env.connect r.host world)
    where
      first : List ExecutorEvent
      first = node_connecting r.host.name ∷ []

      plain : Accounted r.dry_run 0 default first
      plain = record {
        skips = refl;
        completes = refl;
        at_most = omega arith;
        preview_exact = λ _. refl;
        all_known = λ _. refl;
      }

      go :
          (p : Result {0} String (Unit {0}) × W)
          → Reported (elim p.0 as (λ _. NodeResult × RunState W) [
            | err e ↦
                finish env r false default
                  (send (node_auth_failed r.host.name e) (unstarted first p.1))
            | ok _ ↦
                let (detected, world2) = env.detect_os p.1 in
                elim detected [
                  | err e ↦ finish env r false default (unstarted first world2)
                  | ok os_info ↦ run_connected env r os_info (unstarted first world2)
                ]
          ])
      go (err e, world1) =
          finish-HasReported false (send (node_auth_failed r.host.name e) (unstarted first world1))
            (plain-Accounted r.dry_run 0 default first (node_auth_failed r.host.name e)
              (refl, refl, refl) plain)
      go (ok x, world1) = run_detected-HasReported first (env.detect_os world1) plain
