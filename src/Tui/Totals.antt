-- ===== src/Tui/Totals.antt =====
-- Every event keeps the counts of the interface in agreement with its nodes.
use glidesh.Common.{ℕ, suc, ◌+◌, refl, ap, String, Bool, some, List, [], ◌∷◌, arith, fmt, show}
use glidesh.Events.{
  ExecutorEvent, node_connecting, node_connected, node_auth_failed, step_started, module_check,
  module_result, module_failed, step_failed, step_skipped, step_waiting, section_started,
  task_skipped, batch_started, hosts_aborted, node_complete, run_complete, waiting_text, label,
}
use glidesh.Tui.Nodes.{NodeState, TuiState, connecting, running, failed, on_node, new}
use glidesh.Runner.Accounts.{skips_of}
use glidesh.Tui.Updates.{
  count_completed, auth_failed, step_start, push_combined, apply_event, follow_logs, handle_event,
}
use glidesh.Tui.Counts.{IsConsistent, on_node-quiet, push_node_log-IsConsistent, again, recounted}
use glidesh.Tui.Finishing.{
  finished-IsConsistent, complete-IsConsistent, abort_repeats, abort_hosts-IsConsistent,
  result-IsConsistent,
}
use glidesh.Tui.Start.{new-IsConsistent}

-- How often an event finishes a host that had finished.
abbrev pub repeats_of : ℕ → ExecutorEvent → TuiState → ℕ
repeats_of now (node_auth_failed host error) s = again host s
repeats_of now (hosts_aborted hosts reason) s =
    abort_repeats now reason hosts (push_combined (fmt ("ROLLOUT STOPPED: " ∷ reason ∷ [])) s)
repeats_of now _ s = 0

apply_event-IsConsistent :
    (repeated skipped now : ℕ) (event : ExecutorEvent) (s : TuiState)
    → IsConsistent repeated skipped s
    → IsConsistent
        (repeated + repeats_of now event s)
        (skipped + skips_of event)
        (apply_event now event s)
unfolding apply_event auth_failed step_start
apply_event-IsConsistent repeated skipped now (node_connecting host) s h =
    recounted
      (push_node_log-IsConsistent host "Connecting..."
        (on_node host (λ n. record n { status = connecting }) s)
        (on_node-quiet host (λ n. record n { status = connecting }) s (λ n. (refl, refl)) h))
      (omega arith) (omega arith)
apply_event-IsConsistent repeated skipped now (node_connected host os) s h =
    let f = λ (n : NodeState). record n { status = running; os_id = os.id } in
    recounted
      (push_node_log-IsConsistent host (fmt ("Connected (" ∷ os.id ∷ ")" ∷ [])) (on_node host f s)
        (on_node-quiet host f s (λ n. (refl, refl)) h))
      (omega arith) (omega arith)
apply_event-IsConsistent repeated skipped now (node_auth_failed host error) s h =
    let f =
      λ (n : NodeState). record n { status = failed; finished_at = some now; error = some error } in
    recounted
      (push_node_log-IsConsistent host (fmt ("AUTH FAILED: " ∷ error ∷ []))
        (count_completed host (on_node host f s))
        (finished-IsConsistent host f s (λ n. refl) (λ n. refl) h))
      refl (omega arith)
apply_event-IsConsistent repeated skipped now (step_started host step index total) s h =
    let f = λ (n : NodeState). record n {
      current_step = step;
      step_index = index;
      total_steps = total;
    } in
    recounted
      (push_node_log-IsConsistent host
        (fmt ("── Step " ∷ show (suc index) ∷ "/" ∷ show total ∷ ": " ∷ step ∷ " ──" ∷ []))
        (on_node host f s) (on_node-quiet host f s (λ n. (refl, refl)) h))
      (omega arith) (omega arith)
apply_event-IsConsistent repeated skipped now (module_check host module_name resource) s h =
    recounted
      (push_node_log-IsConsistent host (fmt ("CHECK " ∷ module_name ∷ " '" ∷ resource ∷ "'" ∷ [])) s
        h)
      (omega arith) (omega arith)
apply_event-IsConsistent repeated skipped now (module_result host m r changed dry out e code) s h =
    recounted (result-IsConsistent host m r changed dry out e s h) (omega arith) (omega arith)
apply_event-IsConsistent repeated skipped now (module_failed host module_name resource error) s h =
    recounted
      (push_node_log-IsConsistent host
        (fmt ("  FAILED " ∷ module_name ∷ " '" ∷ resource ∷ "': " ∷ error ∷ [])) s h)
      (omega arith) (omega arith)
apply_event-IsConsistent repeated skipped now (step_failed host step error) s h =
    recounted
      (push_node_log-IsConsistent host (fmt ("  FAILED step '" ∷ step ∷ "': " ∷ error ∷ [])) s h)
      (omega arith) (omega arith)
apply_event-IsConsistent repeated skipped now (step_skipped host step tasks reason) s h =
    let p = push_node_log-IsConsistent host (fmt ("  SKIPPED step: " ∷ reason ∷ [])) s h in
    record {
      indexed = p.indexed;
      changed = p.changed;
      finished = omega (arith, p.finished);
      skips = ap (λ n. n + tasks) p.skips;
    }
apply_event-IsConsistent repeated skipped now
      (step_waiting host step command elapsed timeout first preview) s h =
    recounted
      (push_node_log-IsConsistent host
        (fmt ("  WAITING " ∷ waiting_text command elapsed timeout first preview ∷ [])) s h)
      (omega arith) (omega arith)
apply_event-IsConsistent repeated skipped now (section_started host step section) s h =
    recounted
      (push_node_log-IsConsistent host (fmt ("  " ∷ label section ∷ " step '" ∷ step ∷ "'" ∷ [])) s
        h)
      (omega arith) (omega arith)
apply_event-IsConsistent repeated skipped now (task_skipped host module_name resource reason) s h =
    let p =
      push_node_log-IsConsistent host
        (fmt ("  SKIPPED " ∷ module_name ∷ " '" ∷ resource ∷ "': " ∷ reason ∷ [])) s h in
    record {
      indexed = p.indexed;
      changed = p.changed;
      finished = omega (arith, p.finished);
      skips = ap (λ n. n + 1) p.skips;
    }
apply_event-IsConsistent repeated skipped now (batch_started index total hosts) s h =
    recounted
      (record { indexed = h.indexed; changed = h.changed; finished = h.finished; skips = h.skips })
      (omega arith) (omega arith)
apply_event-IsConsistent repeated skipped now (hosts_aborted hosts reason) s h =
    recounted
      (abort_hosts-IsConsistent repeated skipped now reason hosts
        (push_combined (fmt ("ROLLOUT STOPPED: " ∷ reason ∷ [])) s)
        (record {
          indexed = h.indexed;
          changed = h.changed;
          finished = h.finished;
          skips = h.skips;
        }))
      refl (omega arith)
apply_event-IsConsistent repeated skipped now (node_complete host success changed tasks dry) s h =
    recounted (complete-IsConsistent now host success s h) (omega arith) (omega arith)
apply_event-IsConsistent repeated skipped now (run_complete summary) s h =
    recounted
      (record { indexed = h.indexed; changed = h.changed; finished = h.finished; skips = h.skips })
      (omega arith) (omega arith)

-- The events of a run, each with the time it comes at.
abbrev pub handle_all : List (ℕ × ExecutorEvent) → TuiState → TuiState
handle_all [] s = s
handle_all ((now, event) ∷ events) s = handle_all events (handle_event now event s)

-- How often, in a run, an auth failure or an abort comes for a host that had finished.
abbrev pub repeats : List (ℕ × ExecutorEvent) → TuiState → ℕ
repeats [] s = 0
repeats ((now, event) ∷ events) s =
    repeats_of now event s + repeats events (handle_event now event s)

-- The tasks that the events of a run report as skipped.
abbrev pub skips : List (ℕ × ExecutorEvent) → ℕ
skips [] = 0
skips ((now, event) ∷ events) = skips_of event + skips events

handle_event-IsConsistent :
    (repeated skipped now : ℕ) (event : ExecutorEvent) (s : TuiState)
    → IsConsistent repeated skipped s
    → IsConsistent
        (repeated + repeats_of now event s)
        (skipped + skips_of event)
        (handle_event now event s)
unfolding handle_event follow_logs
handle_event-IsConsistent repeated skipped now event s h =
    let p = apply_event-IsConsistent repeated skipped now event s h in
    record { indexed = p.indexed; changed = p.changed; finished = p.finished; skips = p.skips }

handle_all-keeps :
    (repeated skipped : ℕ) (events : List (ℕ × ExecutorEvent)) (s : TuiState)
    → IsConsistent repeated skipped s
    → IsConsistent (repeated + repeats events s) (skipped + skips events) (handle_all events s)
handle_all-keeps repeated skipped [] s h = recounted h (omega arith) (omega arith)
handle_all-keeps repeated skipped ((now, event) ∷ events) s h =
    recounted
      (handle_all-keeps (repeated + repeats_of now event s) (skipped + skips_of event) events
        (handle_event now event s) (handle_event-IsConsistent repeated skipped now event s h))
      (omega arith) (omega arith)

-- From the start of the interface and after any events, in any order and for any hosts: every
-- place in the index is one of the list of nodes; the changes of the nodes add up to the total that
-- is shown; the completed count is that of the nodes that have finished, with one more for each
-- auth failure and each abort of a host that had finished before; and the skipped count is the
-- number of tasks that the events report as skipped.
pub handle_all-IsConsistent :
    (now : ℕ) (hosts : List (String × (String × String))) (dry_run : Bool)
    (events : List (ℕ × ExecutorEvent))
    → IsConsistent
        (repeats events (new now hosts dry_run))
        (skips events)
        (handle_all events (new now hosts dry_run))
handle_all-IsConsistent now hosts dry_run events =
    recounted
      (handle_all-keeps 0 0 events (new now hosts dry_run) (new-IsConsistent now hosts dry_run))
      (omega arith) (omega arith)
