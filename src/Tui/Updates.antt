-- ===== src/Tui/Updates.antt =====
-- `handle_event` of tui/state.rs, with an arm of its `match` per definition where it is long.
use glidesh.Common.{
  ℕ, suc, ◌+◌, String, Bool, true, false, Option, none, some, List, [], ◌∷◌, ◌++◌, is_some,
  if◌then◌else◌, fmt, show, join,
}
use glidesh.Common.Dict.{has}
use glidesh.Engine.{RunSummary}
use glidesh.Events.{
  ExecutorEvent, node_connecting, node_connected, node_auth_failed, step_started, module_check,
  module_result, module_failed, step_failed, step_skipped, step_waiting, section_started,
  task_skipped, batch_started, hosts_aborted, node_complete, run_complete, label, changed_label,
  skipped_suffix, aborted_suffix, waiting_text,
}
use glidesh.Tui.Logs.{stream_log_lines}
use glidesh.Tui.Nodes.{
  NodeState, TuiState, connecting, running, done, failed, aborted, usize_max, on_node,
  push_node_log, push_all, get_node,
}

-- `self.completed += 1` where the host is known.
abbrev pub count_completed : String → TuiState → TuiState
count_completed host s =
    if has s.node_index host then record s { completed = suc s.completed } else s

unfoldable pub auth_failed : ℕ → String → String → TuiState → TuiState
unfolding on_node push_node_log fmt has
auth_failed now host error s = push_node_log host (fmt ("AUTH FAILED: " ∷ error ∷ [])) (
    count_completed host (
      on_node host (λ n. record n { status = failed; finished_at = some now; error = some error })
        s))

unfoldable pub step_start : String → String → ℕ → ℕ → TuiState → TuiState
unfolding on_node push_node_log fmt show
step_start host step index total s =
    push_node_log host
      (fmt ("── Step " ∷ show (suc index) ∷ "/" ∷ show total ∷ ": " ∷ step ∷ " ──" ∷ []))
      (on_node host (λ n. record n { current_step = step; step_index = index; total_steps = total })
        s)

abbrev pub count_changed : String → TuiState → TuiState
count_changed host s =
    if has s.node_index host
    then record (on_node host (λ n. record n { changed = suc n.changed }) s) {
      total_changed = suc s.total_changed;
    }
    else s

unfoldable pub result :
    String → String → String → Bool → Bool → String → String → TuiState → TuiState
unfolding on_node push_node_log push_all fmt has changed_label stream_log_lines
result host module_name resource changed dry_run stdout stderr s =
    let logged = push_all host (stream_log_lines "stderr" stderr) (
      push_all host (stream_log_lines "stdout" stdout) (
        push_node_log host
          (fmt ("  " ∷ module_name ∷ " '" ∷ resource ∷ "': " ∷ changed_label changed dry_run ∷ []))
          s)) in
    if changed then count_changed host logged else logged

-- A round of the loop over the aborted hosts.
unfoldable pub abort_host : ℕ → String → String → TuiState → TuiState
unfolding on_node push_node_log fmt has
abort_host now reason host s = push_node_log host (fmt ("ABORTED (not started): " ∷ reason ∷ [])) (
    count_completed host
      (on_node host (λ n. record n { status = aborted; finished_at = some now }) s))

unfoldable pub abort_hosts : ℕ → String → List String → TuiState → TuiState
unfolding abort_host
abort_hosts now reason [] s = s
abort_hosts now reason (host ∷ hosts) s =
    abort_hosts now reason hosts (abort_host now reason host s)

-- `self.nodes[idx].finished_at.is_some()`
abbrev pub already_finished : Option NodeState → Bool
already_finished none = false
already_finished (some n) = is_some n.finished_at

unfoldable pub complete : ℕ → String → Bool → TuiState → TuiState
unfolding on_node has get_node
complete now host success s =
    let finished =
      on_node host
        (λ n. record n {
          status = (if success then done else failed);
          finished_at = some now;
          current_step = "--";
        })
        s in
    if already_finished (get_node host s) then finished else count_completed host finished

unfoldable pub summary_text : RunSummary → String
unfolding fmt show skipped_suffix aborted_suffix
summary_text summary = fmt (
    (if summary.dry_run then "Dry run complete (nothing applied)" else "Complete")
    ∷ ": "
    ∷ show summary.total_hosts
    ∷ " hosts, "
    ∷ show summary.succeeded
    ∷ " ok, "
    ∷ show summary.failed
    ∷ " failed"
    ∷ aborted_suffix summary.aborted
    ∷ ", "
    ∷ show summary.total_changed
    ∷ " "
    ∷ (if summary.dry_run then "would change" else "changed")
    ∷ skipped_suffix summary.total_skipped
    ∷ [])

abbrev pub skip : ℕ → TuiState → TuiState
skip tasks s = record s { total_skipped = s.total_skipped + tasks }

abbrev pub push_combined : String → TuiState → TuiState
push_combined text s = record s { combined_log = s.combined_log ++ (text ∷ []) }

-- The `match`.
unfoldable pub apply_event : ℕ → ExecutorEvent → TuiState → TuiState
unfolding auth_failed step_start result abort_hosts complete summary_text on_node push_node_log fmt
    show join label waiting_text
apply_event now (node_connecting host) s =
    push_node_log host "Connecting..." (on_node host (λ n. record n { status = connecting }) s)
apply_event now (node_connected host os) s =
    push_node_log host (fmt ("Connected (" ∷ os.id ∷ ")" ∷ []))
      (on_node host (λ n. record n { status = running; os_id = os.id }) s)
apply_event now (node_auth_failed host error) s = auth_failed now host error s
apply_event now (step_started host step index total) s = step_start host step index total s
apply_event now (module_check host module_name resource) s =
    push_node_log host (fmt ("CHECK " ∷ module_name ∷ " '" ∷ resource ∷ "'" ∷ [])) s
apply_event now (module_result host module_name resource changed dry_run stdout stderr exit_code)
      s =
    result host module_name resource changed dry_run stdout stderr s
apply_event now (module_failed host module_name resource error) s =
    push_node_log host (fmt ("  FAILED " ∷ module_name ∷ " '" ∷ resource ∷ "': " ∷ error ∷ [])) s
apply_event now (step_failed host step error) s =
    push_node_log host (fmt ("  FAILED step '" ∷ step ∷ "': " ∷ error ∷ [])) s
apply_event now (step_skipped host step tasks reason) s =
    skip tasks (push_node_log host (fmt ("  SKIPPED step: " ∷ reason ∷ [])) s)
apply_event now (step_waiting host step command elapsed timeout first preview) s =
    push_node_log host
      (fmt ("  WAITING " ∷ waiting_text command elapsed timeout first preview ∷ [])) s
apply_event now (section_started host step section) s =
    push_node_log host (fmt ("  " ∷ label section ∷ " step '" ∷ step ∷ "'" ∷ [])) s
apply_event now (task_skipped host module_name resource reason) s = skip 1 (
    push_node_log host (fmt ("  SKIPPED " ∷ module_name ∷ " '" ∷ resource ∷ "': " ∷ reason ∷ [])) s)
apply_event now (batch_started index total hosts) s =
    push_combined
      (fmt
        ("── Batch " ∷ show (suc index) ∷ "/" ∷ show total ∷ ": " ∷ join ", " hosts ∷ " ──" ∷ []))
      s
apply_event now (hosts_aborted hosts reason) s =
    abort_hosts now reason hosts (push_combined (fmt ("ROLLOUT STOPPED: " ∷ reason ∷ [])) s)
apply_event now (node_complete host success changed skipped dry_run) s = complete now host success s
apply_event now (run_complete summary) s = record s {
  run_complete = true;
  finished_at = some now;
  summary_line = some (summary_text summary);
}

-- A view that follows its log is moved to the end.
unfoldable pub follow_logs : TuiState → TuiState
follow_logs s = record s {
  log_scroll = (if s.auto_scroll then usize_max else s.log_scroll);
  combined_scroll = (if s.combined_auto_scroll then usize_max else s.combined_scroll);
}

-- `handle_event`
unfoldable pub handle_event : ℕ → ExecutorEvent → TuiState → TuiState
unfolding apply_event follow_logs
handle_event now event s = follow_logs (apply_event now event s)
