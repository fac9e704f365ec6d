-- ===== src/Runner/Examples.antt =====
-- A host with a step that waits, fails and is rescued, and a coordinator with three calls.
use glidesh.Common.{
  ◌+◌, count, ◌++◌, sum_of, ◌≤◌, ℕ, suc, ◌≡◌, refl, String, true, false, none, some, is_some, List,
  [], ◌∷◌, length, ok, err, arith,
}
use glidesh.Runner.Interface.{no_trigger, TaskKey}
use glidesh.Runner.Gates.{wait_for_gate}
use glidesh.Runner.Gates.Timing.{wait_for_gate-Ends}
use glidesh.Runner.Gates.Opening.{HasSucceeded, wait_for_gate-HasSucceeded}
use glidesh.Runner.Host.{fresh, run_host}
use glidesh.Runner.Params.{NodeRunner}
use glidesh.Runner.Accounts.Host.{HasReported, run_host-HasReported}
use glidesh.Runner.Accounts.{skips_of, changes_of}
use glidesh.Engine.{Engine, Event, RunSummary, run, run_complete}
use glidesh.Rollout.{percent}
use glidesh.Runner.Values.{Failure}
use glidesh.Runner.Steps.{run_step_body}
use glidesh.Runner.Summary.{joined, host_result, host_events, run-reported}
use glidesh.Runner.Failures.{IsAnnounced}
use glidesh.Runner.Failures.Steps.{run_step_body-IsAnnounced}
use glidesh.Runner.Coordinator.{Ran, returned, panicked, run_all}
use glidesh.Runner.Coordinator.Once.{first_calls, run_each, run_all-first_calls}
use glidesh.Runner.Params.{StepRun}
use glidesh.Runner.Samples.{debian_host, env, web_up, deploy, runner}

real_run :
    ((run_host env (runner false) 0).0.success ≡ true)
    × ((run_host env (runner false) 0).0.total_changed ≡ 2)
    × ((run_host env (runner false) 0).0.total_skipped ≡ 1)
    × (length (run_host env (runner false) 0).1.events ≡ 14)
unfolding run_host
real_run = (refl, refl, refl, refl)

preview : (run_host env (runner true) 0).0.total_changed ≡ 2
unfolding run_host
preview = refl

run_host-HasReported_example :
    HasReported (runner false) (run_host env (runner false) 0).0 (run_host env (runner false) 0).1
run_host-HasReported_example = run_host-HasReported env (runner false) 0

wait_for_gate-Ends_example :
    is_some (wait_for_gate env (runner false) deploy web_up (fresh env (runner false) 0)).0 ≡ true
wait_for_gate-Ends_example =
    wait_for_gate-Ends env (runner false) deploy web_up (fresh env (runner false) 0) (omega arith)

gate_opens :
    (wait_for_gate env (runner false) deploy web_up (fresh env (runner false) 0)).0 ≡ some (ok tt)
unfolding wait_for_gate
gate_opens = refl

wait_for_gate-HasSucceeded_example :
    HasSucceeded env (runner false) deploy web_up (fresh env (runner false) 0)
wait_for_gate-HasSucceeded_example =
    wait_for_gate-HasSucceeded env (runner false) deploy web_up (fresh env (runner false) 0) refl
      gate_opens

abbrev key : ℕ → TaskKey
key i = record { step_idx = 0; task_idx = i; loop_iter = 0 }

-- Three hosts ask for two tasks, one of which panics.
abbrev calls : List (TaskKey × (ℕ → Ran × ℕ))
calls =
    (key 0, λ n. (panicked none, suc n))
    ∷ (key 1, λ n. (panicked (some "boom"), suc n))
    ∷ (key 0, λ n. (returned (err "never run"), suc n))
    ∷ []

panic_is_kept :
    (run_all calls [] 0).0
    ≡ (key 0, err "host task panicked: unknown cause")
      ∷ (key 1, err "host task panicked: boom")
      ∷ (key 0, err "host task panicked: unknown cause")
      ∷ []
unfolding run_all
panic_is_kept = refl

run_all-first_calls_example : (run_all calls [] 0).2 ≡ run_each (first_calls [] calls) 0
run_all-first_calls_example = run_all-first_calls calls 0

abbrev sites : Engine
sites = record {
  serial = percent 50 ∷ [];
  max_fail = none;
  targets = "web" ∷ "db" ∷ [];
  dry_run = true;
}

abbrev runners : String → NodeRunner
runners host = runner true

run-reported_example :
    (s : RunSummary) × (done waiting : List String) × (events : List Event) × (run sites
        (joined (λ _. env) runners (λ _. 0))
      ≡ some (s, events ++ (run_complete s ∷ [])))
    × (done ++ waiting ≡ "web" ∷ "db" ∷ [])
    × (s.succeeded + s.failed ≡ length done)
    × (s.aborted ≡ length waiting)
    × (s.succeeded ≡ count (λ host. (host_result (λ _. env) runners (λ _. 0) host).success) done)
    × (s.total_skipped
        ≡ sum_of (λ host. sum_of skips_of (host_events (λ _. env) runners (λ _. 0) host)) done)
    × (s.total_changed
        ≡ sum_of (λ host. (host_result (λ _. env) runners (λ _. 0) host).total_changed) done)
    × (sum_of (λ host. sum_of changes_of (host_events (λ _. env) runners (λ _. 0) host)) done
        ≤ s.total_changed)
run-reported_example = run-reported (λ _. env) runners (λ _. 0) sites

abbrev deploy_run : StepRun
deploy_run = record {
  step = deploy;
  step_idx = 0;
  template_data = record { collections = []; extra_vars = [] };
  os_info = debian_host;
  trigger = no_trigger;
}

abbrev failed : Failure
failed = record { task = "shell 'false'"; message = "exit 1" }

deploy_fails :
    (run_step_body env (runner false) deploy_run (fresh env (runner false) 0)).0 ≡ err failed
unfolding run_step_body
deploy_fails = refl

run_step_body-IsAnnounced_example :
    IsAnnounced failed
      (run_step_body env (runner false) deploy_run (fresh env (runner false) 0)).1.events
run_step_body-IsAnnounced_example =
    run_step_body-IsAnnounced env (runner false) deploy_run (fresh env (runner false) 0) failed
      deploy_fails
