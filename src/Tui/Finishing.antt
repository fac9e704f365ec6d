-- ===== src/Tui/Finishing.antt =====
-- The updates that finish nodes or count changes keep the counts of the interface in step.
use glidesh.Common.{
  one, ℕ, suc, ◌+◌, ◌≡◌, refl, ◌∙◌, String, Bool, true, false, Bool-cases, inl, inr, Option, none,
  some, List, [], ◌∷◌, get_elem?, is_some, if◌then◌else◌, arith, fmt,
}
use glidesh.Common.Dict.{get, has}
use glidesh.Events.{changed_label}
use glidesh.Tui.Nodes.{
  NodeState, TuiState, done, failed, aborted, update_at, on_node, push_node_log, push_all, get_node,
}
use glidesh.Tui.Logs.{stream_log_lines}
use glidesh.Tui.Updates.{
  count_completed, count_changed, result, abort_host, abort_hosts, already_finished, complete,
}
use glidesh.Tui.Counts.{
  IsConsistent, has_finished, updated, push_node_log-IsConsistent, push_all-IsConsistent,
  count-update_at-finishes, again, recounted, count-update_at, sum-update_at, sum-update_at-suc,
}

-- A node finished and counted, by an update that leaves its changes: again, if it had finished.
pub finished-IsConsistent :
    {repeated skipped : ℕ} (host : String) (f : NodeState → NodeState) (s : TuiState)
    → ((n : NodeState) → (f n).changed ≡ n.changed)
    → ((n : NodeState) → has_finished (f n) ≡ true)
    → IsConsistent repeated skipped s
    → IsConsistent (repeated + again host s) skipped (count_completed host (on_node host f s))
unfolding on_node has get_node
finished-IsConsistent {repeated = repeated} {skipped = skipped} host f s q fin h =
    go (get s.node_index host) refl
  where
    go :
        (o : Option ℕ)
        → get s.node_index host ≡ o
        → IsConsistent
            (repeated
              + one (already_finished (elim o [ none ↦ none | some i ↦ get_elem? s.nodes i ])))
            skipped
            (count_completed host
              (elim o [ none ↦ s | some i ↦ record s { nodes = update_at i f s.nodes } ]))
    go none e = rw e (record {
      indexed = h.indexed;
      changed = h.changed;
      finished = omega (arith, h.finished);
      skips = h.skips;
    })
    go (some i) e = rw e (
        updated s i f s.total_changed (suc s.completed) s.combined_log h
          (sum-update_at i f s.nodes q ∙ h.changed)
          (omega
            (arith, h.finished, count-update_at-finishes i f s.nodes fin (h.indexed host i e))))

count_changed-IsConsistent :
    {repeated skipped : ℕ} (host : String) (s : TuiState)
    → IsConsistent repeated skipped s
    → IsConsistent repeated skipped (count_changed host s)
unfolding on_node has
count_changed-IsConsistent {repeated = repeated} {skipped = skipped} host s h =
    go (get s.node_index host) refl
  where
    go :
        (o : Option ℕ)
        → get s.node_index host ≡ o
        → IsConsistent repeated skipped (
            if is_some (get s.node_index host)
            then record (elim o [
              | none ↦ s
              | some i ↦ record s {
                nodes = update_at i (λ n. record n { changed = suc n.changed }) s.nodes;
              }
            ]) { total_changed = suc s.total_changed }
            else s)
    go none e = rw e h
    go (some i) e = rw e (
        updated s i (λ n. record n { changed = suc n.changed }) (suc s.total_changed) s.completed
          s.combined_log h
          (omega (arith, sum-update_at-suc i s.nodes (h.indexed host i e), h.changed))
          (omega (
            arith,
            h.finished,
            count-update_at i (λ n. record n { changed = suc n.changed }) s.nodes (λ n. refl),
          )))

-- A node that had finished is updated and not counted again.
finished_again-IsConsistent :
    {repeated skipped : ℕ} (host : String) (f : NodeState → NodeState) (s : TuiState)
    → ((n : NodeState) → (f n).changed ≡ n.changed)
    → ((n : NodeState) → has_finished (f n) ≡ true)
    → already_finished (get_node host s) ≡ true
    → IsConsistent repeated skipped s
    → IsConsistent repeated skipped (on_node host f s)
unfolding on_node get_node
finished_again-IsConsistent {repeated = repeated} {skipped = skipped} host f s q fin had h =
    go (get s.node_index host) refl had
  where
    go :
        (o : Option ℕ)
        → get s.node_index host ≡ o
        → already_finished (elim o [ none ↦ none | some i ↦ get_elem? s.nodes i ]) ≡ true
        → IsConsistent repeated skipped
            (elim o [ none ↦ s | some i ↦ record s { nodes = update_at i f s.nodes } ])
    go none e had = h
    go (some i) e had =
        let counted = rw had at (count-update_at-finishes i f s.nodes fin (h.indexed host i e)) in
        updated s i f s.total_changed s.completed s.combined_log h
          (sum-update_at i f s.nodes q ∙ h.changed) (omega (arith, h.finished, counted))

abbrev completed : ℕ → Bool → NodeState → NodeState
completed now success n = record n {
  status = (if success then done else failed);
  finished_at = some now;
  current_step = "--";
}

-- `NodeComplete` counts a node that had finished before only once.
pub complete-IsConsistent :
    {repeated skipped : ℕ} (now : ℕ) (host : String) (success : Bool) (s : TuiState)
    → IsConsistent repeated skipped s
    → IsConsistent repeated skipped (complete now host success s)
unfolding complete
complete-IsConsistent {repeated = repeated} {skipped = skipped} now host success s h =
    elim (Bool-cases (already_finished (get_node host s))) [
      | inl e ↦ rw e (finished_again-IsConsistent host _ s (λ n. refl) (λ n. refl) e h)
      | inr e ↦ rw e (
          recounted
            (rw e at
              (finished-IsConsistent host (completed now success) s (λ n. refl) (λ n. refl) h))
            (omega arith) refl)
    ]

-- How many of the hosts that are aborted had finished, or are named twice.
abbrev pub abort_repeats : ℕ → String → List String → TuiState → ℕ
abort_repeats now reason [] s = 0
abort_repeats now reason (host ∷ hosts) s =
    again host s + abort_repeats now reason hosts (abort_host now reason host s)

abort_host-IsConsistent :
    (repeated skipped now : ℕ) (reason host : String) (s : TuiState)
    → IsConsistent repeated skipped s
    → IsConsistent (repeated + again host s) skipped (abort_host now reason host s)
unfolding abort_host
abort_host-IsConsistent repeated skipped now reason host s h =
    let f = λ (n : NodeState). record n { status = aborted; finished_at = some now } in
    push_node_log-IsConsistent host (fmt ("ABORTED (not started): " ∷ reason ∷ []))
      (count_completed host (on_node host f s))
      (finished-IsConsistent host f s (λ n. refl) (λ n. refl) h)

pub abort_hosts-IsConsistent :
    (repeated skipped now : ℕ) (reason : String) (hosts : List String) (s : TuiState)
    → IsConsistent repeated skipped s
    → IsConsistent
        (repeated + abort_repeats now reason hosts s)
        skipped
        (abort_hosts now reason hosts s)
unfolding abort_hosts
abort_hosts-IsConsistent repeated skipped now reason [] s h = recounted h (omega arith) refl
abort_hosts-IsConsistent repeated skipped now reason (host ∷ hosts) s h =
    recounted
      (abort_hosts-IsConsistent (repeated + again host s) skipped now reason hosts
        (abort_host now reason host s)
        (abort_host-IsConsistent repeated skipped now reason host s h))
      (omega arith) refl

pub result-IsConsistent :
    {repeated skipped : ℕ} (host module_name resource : String) (changed dry_run : Bool)
    (stdout stderr : String) (s : TuiState)
    → IsConsistent repeated skipped s
    → IsConsistent repeated skipped
        (result host module_name resource changed dry_run stdout stderr s)
unfolding result
result-IsConsistent {repeated = repeated} {skipped = skipped} host module_name resource changed
      dry_run stdout stderr s h =
    let text =
      fmt ("  " ∷ module_name ∷ " '" ∷ resource ∷ "': " ∷ changed_label changed dry_run ∷ []) in
    let s1 = push_node_log host text s in
    let s2 = push_all host (stream_log_lines "stdout" stdout) s1 in
    go changed (push_all host (stream_log_lines "stderr" stderr) s2) (
      push_all-IsConsistent host (stream_log_lines "stderr" stderr) s2 (
        push_all-IsConsistent host (stream_log_lines "stdout" stdout) s1
          (push_node_log-IsConsistent host text s h)))
  where
    go :
        (changed : Bool) (s : TuiState)
        → IsConsistent repeated skipped s
        → IsConsistent repeated skipped (if changed then count_changed host s else s)
    go true s h = count_changed-IsConsistent host s h
    go false s h = h
