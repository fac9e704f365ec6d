-- ===== src/Runner/Summary.antt =====
-- The engine over the runners of its hosts: what the summary of a run counts.
use glidesh.Common.{
  ℕ, Bool, ◌+◌, length, count, ◌≤◌, ◌≡◌, refl, ◌∙◌, ap, String, true, some, List, [], ◌∷◌, ◌++◌,
  map, sum_of, arith,
}
use glidesh.Engine.{
  Engine, Joined, finished, RunSummary, NodeResult, Event, run, summarize, run_complete,
}
use glidesh.Engine.Accounts.{result_of, aborted-Accounts, finished-Accounts, run_batches-Accounts}
use glidesh.Events.{ExecutorEvent}
use glidesh.Runner.Interface.{Env}
use glidesh.Runner.Params.{NodeRunner}
use glidesh.Runner.State.{RunState}
use glidesh.Runner.Host.{run_host}
use glidesh.Runner.Accounts.{skips_of, changes_of, sum_of-send}
use glidesh.Runner.Accounts.Host.{HasReported, run_host-HasReported}

-- What one host's result counts, against all of its events.
skips-HasReported :
    {W : Type 0} (r : NodeRunner) (result : NodeResult) (s : RunState W)
    → HasReported r result s
    → sum_of skips_of s.events ≡ result.total_skipped
skips-HasReported r result s h =
    ap (sum_of skips_of) h.complete ∙ omega (arith, sum_of-send skips_of h.before _, h.skips)

changes-HasReported :
    {W : Type 0} (r : NodeRunner) (result : NodeResult) (s : RunState W)
    → r.dry_run ≡ true
    → HasReported r result s
    → sum_of changes_of s.events ≡ result.total_changed
changes-HasReported r result s d h =
    ap (sum_of changes_of) h.complete
    ∙ omega (arith, sum_of-send changes_of h.before _, h.preview_exact d)

changes-at_most :
    {W : Type 0} (r : NodeRunner) (result : NodeResult) (s : RunState W)
    → HasReported r result s
    → sum_of changes_of s.events ≤ result.total_changed
changes-at_most r result s h =
    rw h.complete (omega (arith, sum_of-send changes_of h.before _, h.at_most))

sum_of-map :
    {A B : Type 0} (f : B → ℕ) (g : A → B) (k : A → ℕ) (xs : List A)
    → ((x : A) → k x ≡ f (g x))
    → sum_of f (map g xs) ≡ sum_of k xs
sum_of-map f g k [] h = refl
sum_of-map f g k (x ∷ xs) h = omega (arith, sum_of-map f g k xs h, h x)

sum_of-map_le :
    {A B : Type 0} (f : B → ℕ) (g : A → B) (k : A → ℕ) (xs : List A)
    → ((x : A) → k x ≤ f (g x))
    → sum_of k xs ≤ sum_of f (map g xs)
sum_of-map_le f g k [] h = omega arith
sum_of-map_le f g k (x ∷ xs) h = omega (arith, sum_of-map_le f g k xs h, h x)

count-map :
    {A B : Type 0} (f : B → Bool) (g : A → B) (xs : List A)
    → count f (map g xs) ≡ count (λ x. f (g x)) xs
count-map f g [] = refl
count-map f g (x ∷ xs) = ground (arith, count-map f g xs)

module _ {W : Type 0} (env : String → Env W) (runner : String → NodeRunner)
    (world : String → W) where
  -- A host's task ends with what its runner returns.
  abbrev pub joined : String → Joined
  joined host = finished (run_host (env host) (runner host) (world host)).0

  abbrev pub host_events : String → List ExecutorEvent
  host_events host = (run_host (env host) (runner host) (world host)).1.events

  abbrev pub host_result : String → NodeResult
  host_result host = (run_host (env host) (runner host) (world host)).0

  host_reported :
      (host : String)
      → HasReported
          (runner host)
          (run_host (env host) (runner host) (world host)).0
          (run_host (env host) (runner host) (world host)).1
  host_reported host = run_host-HasReported (env host) (runner host) (world host)

  -- A run over hosts whose runners all return comes to a summary. The targets are the hosts that
  -- ran, then those that are waiting: as many ran as the summary counts as succeeded or failed, as
  -- many wait as it counts as aborted, and as many succeeded as ran to a result with success. The
  -- summary's skipped tasks are those that the events of the hosts that ran report. Its changed
  -- ones are those of their results, which are no fewer than their events report.
  pub run-reported :
      (engine : Engine)
      → (s : RunSummary) × (done waiting : List String) × (events : List Event) × (run engine joined
          ≡ some (s, events ++ (run_complete s ∷ [])))
        × (done ++ waiting ≡ engine.targets)
        × (s.succeeded + s.failed ≡ length done)
        × (s.aborted ≡ length waiting)
        × (s.succeeded ≡ count (λ host. (host_result host).success) done)
        × (s.total_skipped ≡ sum_of (λ host. sum_of skips_of (host_events host)) done)
        × (s.total_changed ≡ sum_of (λ host. (host_result host).total_changed) done)
        × (sum_of (λ host. sum_of changes_of (host_events host)) done ≤ s.total_changed)
  unfolding run summarize
  run-reported engine =
      let (q, e, a) = run_batches-Accounts engine joined in
      (
        summarize engine q,
        a.done,
        q.hosts,
        q.events,
        rw (run, e) refl,
        a.has_run.split,
        finished-Accounts engine joined q a,
        aborted-Accounts engine joined q a,
        ap (count (λ r. r.success)) a.has_run.results
            ∙ count-map (λ r. r.success) (λ host. result_of (joined host)) a.done,
        ap (sum_of (λ r. r.total_skipped)) a.has_run.results
            ∙ sum_of-map (λ r. r.total_skipped) (λ host. result_of (joined host))
                (λ host. sum_of skips_of (host_events host)) a.done
                (λ host. skips-HasReported (runner host) _ _ (host_reported host)),
        ap (sum_of (λ r. r.total_changed)) a.has_run.results
            ∙ sum_of-map (λ r. r.total_changed) (λ host. result_of (joined host))
                (λ host. (host_result host).total_changed) a.done (λ host. refl),
        rw a.has_run.results (
            sum_of-map_le (λ r. r.total_changed) (λ host. result_of (joined host))
              (λ host. sum_of changes_of (host_events host)) a.done
              (λ host. changes-at_most (runner host) _ _ (host_reported host))),
      )

  -- Where every host previews, the summary counts as changed just the tasks that the events of the
  -- hosts that ran report as changes to come.
  pub run-previewed :
      (engine : Engine)
      → ((host : String) → (runner host).dry_run ≡ true)
      → (s : RunSummary) × (done : List String) × (events : List Event) × (run engine joined
          ≡ some (s, events ++ (run_complete s ∷ [])))
        × (s.total_changed ≡ sum_of (λ host. sum_of changes_of (host_events host)) done)
  unfolding run summarize
  run-previewed engine preview =
      let (q, e, a) = run_batches-Accounts engine joined in
      (
        summarize engine q,
        a.done,
        q.events,
        rw (run, e) refl,
        ap (sum_of (λ r. r.total_changed)) a.has_run.results
            ∙ sum_of-map (λ r. r.total_changed) (λ host. result_of (joined host))
                (λ host. sum_of changes_of (host_events host)) a.done
                (λ host. changes-HasReported (runner host) _ _ (preview host) (host_reported host)),
      )
