-- ===== src/Events.antt =====
-- `ExecutorEvent`, and the texts that renderers share, of executor/result.rs.
use glidesh.Common.{ℤ, ℕ, String, Bool, true, false, List, [], ◌∷◌, ◌==◌, if◌then◌else◌, fmt, show}
use glidesh.Detect.{OsInfo}
use glidesh.Engine.{RunSummary}

pub data Section : Type 0 where
  rescue always : Section

unfoldable pub label : Section → String
label rescue = "RESCUE"
label always = "ALWAYS"

-- The fields in the order of the source.
pub data ExecutorEvent : Type 0 where
  node_connecting : String → ExecutorEvent
  node_connected : String → OsInfo → ExecutorEvent
  node_auth_failed : String → String → ExecutorEvent
  step_started : String → String → ℕ → ℕ → ExecutorEvent
  module_check : String → String → String → ExecutorEvent
  module_result : String → String → String → Bool → Bool → String → String → ℤ → ExecutorEvent
  module_failed : String → String → String → String → ExecutorEvent
  step_failed : String → String → String → ExecutorEvent
  step_skipped : String → String → ℕ → String → ExecutorEvent
  step_waiting : String → String → String → ℕ → ℕ → Bool → Bool → ExecutorEvent
  section_started : String → String → Section → ExecutorEvent
  task_skipped : String → String → String → String → ExecutorEvent
  batch_started : ℕ → ℕ → List String → ExecutorEvent
  hosts_aborted : List String → String → ExecutorEvent
  node_complete : String → Bool → ℕ → ℕ → Bool → ExecutorEvent
  run_complete : RunSummary → ExecutorEvent

unfoldable pub changed_label : Bool → Bool → String
changed_label true true = "would change"
changed_label true false = "changed"
changed_label false dry_run = "ok"

unfoldable pub skipped_suffix : ℕ → String
unfolding fmt show
skipped_suffix skipped = if skipped == 0 then "" else fmt (", " ∷ show skipped ∷ " skipped" ∷ [])

unfoldable pub aborted_suffix : ℕ → String
unfolding fmt show
aborted_suffix aborted = if aborted == 0 then "" else fmt (", " ∷ show aborted ∷ " aborted" ∷ [])

unfoldable pub waiting_text : String → ℕ → ℕ → Bool → Bool → String
unfolding fmt show
waiting_text command elapsed timeout first preview =
    if preview
    then fmt
        ("until not met yet: " ∷ command ∷ " (a run would wait up to " ∷ show timeout ∷ "s)" ∷ [])
    else if first
    then fmt ("waiting until: " ∷ command ∷ " (up to " ∷ show timeout ∷ "s)" ∷ [])
    else fmt
        ("still waiting (" ∷ show elapsed ∷ "s of " ∷ show timeout ∷ "s) until: " ∷ command ∷ [])
