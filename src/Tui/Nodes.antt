-- ===== src/Tui/Nodes.antt =====
-- `TuiState` of tui/state.rs and `handle_event`.
use glidesh.Common.{
  ℕ, zero, suc, String, Bool, true, false, Option, none, some, List, [], ◌∷◌, ◌++◌, map, length,
  get_elem?, fmt,
}
use glidesh.Common.Dict.{Dict, get, insert}
use glidesh.Common.Chars.{lines}

pub data NodeStatus : Type 0 where
  queued connecting running done failed aborted : NodeStatus

pub record NodeState : Type 0 where
  pub host : String
  pub group_name : String
  pub plan_name : String
  pub status : NodeStatus
  pub current_step : String
  pub step_index : ℕ
  pub total_steps : ℕ
  pub changed : ℕ
  pub os_id : String
  pub started_at : ℕ
  pub finished_at : Option ℕ
  pub log_lines : List String
  pub error : Option String

pub data FocusPanel : Type 0 where
  nodes logs : FocusPanel

-- `connection_info` is not read here and left out.
pub record TuiState : Type 0 where
  pub nodes : List NodeState
  pub node_index : Dict ℕ
  pub selected_node : ℕ
  pub node_offset : ℕ
  pub log_scroll : ℕ
  pub completed : ℕ
  pub total : ℕ
  pub run_complete : Bool
  pub summary_line : Option String
  pub focus : FocusPanel
  pub auto_scroll : Bool
  pub spinner_tick : ℕ
  pub started_at : ℕ
  pub finished_at : Option ℕ
  pub total_changed : ℕ
  pub total_skipped : ℕ
  pub dry_run : Bool
  pub combined_log : List String
  pub combined_scroll : ℕ
  pub combined_auto_scroll : Bool
  pub viewing_node : Option ℕ
  pub confirm_quit : Bool

-- `usize::MAX`
abbrev pub usize_max : ℕ
usize_max = 18446744073709551615

abbrev pub new_node : ℕ → String × (String × String) → NodeState
new_node now (host, (group, plan)) = record {
  host = host;
  group_name = group;
  plan_name = plan;
  status = queued;
  current_step = "--";
  step_index = 0;
  total_steps = 0;
  changed = 0;
  os_id = "";
  started_at = now;
  finished_at = none;
  log_lines = [];
  error = none;
}

-- The index from host names to places; a name that is listed twice has its last place.
unfoldable pub index_from : ℕ → List (String × (String × String)) → Dict ℕ → Dict ℕ
unfolding insert
index_from i [] index = index
index_from i ((host, rest) ∷ hosts) index = index_from (suc i) hosts (insert index host i)

-- `TuiState::new`
unfoldable pub new : ℕ → List (String × (String × String)) → Bool → TuiState
unfolding index_from
new now hosts dry_run = record {
  nodes = map (new_node now) hosts;
  node_index = index_from 0 hosts [];
  selected_node = 0;
  node_offset = 0;
  log_scroll = 0;
  completed = 0;
  total = length hosts;
  run_complete = false;
  summary_line = none;
  focus = FocusPanel.nodes;
  auto_scroll = true;
  spinner_tick = 0;
  started_at = now;
  finished_at = none;
  total_changed = 0;
  total_skipped = 0;
  dry_run = dry_run;
  combined_log = [];
  combined_scroll = usize_max;
  combined_auto_scroll = true;
  viewing_node = none;
  confirm_quit = false;
}

-- An index of `node_index` is one of `nodes`, where the source would panic.
unfoldable pub update_at : ℕ → (NodeState → NodeState) → List NodeState → List NodeState
update_at i f [] = []
update_at zero f (n ∷ ns) = f n ∷ ns
update_at (suc i) f (n ∷ ns) = n ∷ update_at i f ns

-- `if let Some(&idx) = self.node_index.get(host)`, on the node alone.
unfoldable pub on_node : String → (NodeState → NodeState) → TuiState → TuiState
unfolding update_at get
on_node host f s = elim (get s.node_index host) [
  | none ↦ s
  | some i ↦ record s { nodes = update_at i f s.nodes }
]

abbrev pub add_lines : List String → NodeState → NodeState
add_lines ls n = record n { log_lines = n.log_lines ++ ls }

-- `push_node_log`
unfoldable pub push_node_log : String → String → TuiState → TuiState
unfolding lines get fmt update_at
push_node_log host text s = elim (get s.node_index host) [
  | none ↦ s
  | some i ↦ record s {
    nodes = update_at i (add_lines (lines text)) s.nodes;
    combined_log = s.combined_log ++ map (λ line. fmt ("[" ∷ host ∷ "] " ∷ line ∷ [])) (lines text);
  }
]

unfoldable pub push_all : String → List String → TuiState → TuiState
unfolding push_node_log
push_all host [] s = s
push_all host (text ∷ texts) s = push_all host texts (push_node_log host text s)

-- `self.nodes[idx]` for the index of a host.
unfoldable pub get_node : String → TuiState → Option NodeState
unfolding get
get_node host s = elim (get s.node_index host) [ none ↦ none | some i ↦ get_elem? s.nodes i ]
