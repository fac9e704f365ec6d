-- ===== src/Tui/Keys.antt =====
-- What keys do to `TuiState`: the selected node, the view of its log and scrolling.
use glidesh.Common.{
  ℕ, ◌+◌, ◌-◌, ◌%◌, ◌^◌, min, String, true, false, Option, none, some, List, [], length, get_elem?,
  ◌==◌, if◌then◌else◌, fmt, unwrap_or, ◌∷◌,
}
use glidesh.Tui.Nodes.{NodeState, FocusPanel, nodes, logs, TuiState, usize_max}

abbrev logs_of : Option NodeState → List String
logs_of none = []
logs_of (some n) = n.log_lines

abbrev view_logs : TuiState → Option ℕ → List String
view_logs s none = s.combined_log
view_logs s (some i) = logs_of (get_elem? s.nodes i)

unfoldable pub active_logs : TuiState → List String
active_logs s = view_logs s s.viewing_node

abbrev view_scroll : TuiState → Option ℕ → ℕ
view_scroll s none = s.combined_scroll
view_scroll s (some i) = s.log_scroll

unfoldable pub active_scroll : TuiState → ℕ
active_scroll s = view_scroll s s.viewing_node

abbrev set_scroll : TuiState → ℕ → Option ℕ → TuiState
set_scroll s v none = record s { combined_scroll = v }
set_scroll s v (some i) = record s { log_scroll = v }

unfoldable pub set_active_scroll : ℕ → TuiState → TuiState
set_active_scroll v s = set_scroll s v s.viewing_node

abbrev host_at : Option NodeState → String
host_at none = "?"
host_at (some n) = n.host

abbrev view_title : List NodeState → Option ℕ → String
view_title ns none = " Log: all "
view_title ns (some i) = fmt (" Log: " ∷ host_at (get_elem? ns i) ∷ " " ∷ [])

-- `log_title`
unfoldable pub log_title : TuiState → String
unfolding fmt
log_title s = view_title s.nodes s.viewing_node

-- `elapsed`, at a time.
unfoldable pub elapsed : ℕ → TuiState → ℕ
elapsed now s = unwrap_or s.finished_at now - s.started_at

-- The view of the selected node, from the end of its log.
unfoldable pub enter_node_view : TuiState → TuiState
enter_node_view s = record s {
  viewing_node = some s.selected_node;
  log_scroll = usize_max;
  auto_scroll = true;
}

unfoldable pub exit_node_view : TuiState → TuiState
exit_node_view s = record s { viewing_node = none }

abbrev pub follow_selection : TuiState → Option ℕ → TuiState
follow_selection s none = s
follow_selection s (some i) = enter_node_view s

abbrev pub select : ℕ → TuiState → TuiState
select i s = follow_selection (record s { selected_node = i }) s.viewing_node

unfoldable pub next_node : TuiState → TuiState
unfolding enter_node_view
next_node s = if length s.nodes == 0 then s else select ((s.selected_node + 1) % length s.nodes) s

unfoldable pub prev_node : TuiState → TuiState
unfolding enter_node_view
prev_node s =
    if length s.nodes == 0
    then s
    else select (if s.selected_node == 0 then length s.nodes - 1 else s.selected_node - 1) s

abbrev other_panel : FocusPanel → FocusPanel
other_panel nodes = logs
other_panel logs = nodes

unfoldable pub toggle_focus : TuiState → TuiState
toggle_focus s = record s { focus = other_panel s.focus }

abbrev up_by : ℕ → TuiState → Option ℕ → TuiState
up_by amount s none = record s {
  combined_auto_scroll = false;
  combined_scroll = s.combined_scroll - amount;
}
up_by amount s (some i) = record s { auto_scroll = false; log_scroll = s.log_scroll - amount }

unfoldable pub scroll_log_up : ℕ → TuiState → TuiState
scroll_log_up amount s = up_by amount s s.viewing_node

-- `saturating_add`
abbrev down_by : ℕ → TuiState → Option ℕ → TuiState
down_by amount s none = record s { combined_scroll = min (s.combined_scroll + amount) usize_max }
down_by amount s (some i) = record s { log_scroll = min (s.log_scroll + amount) usize_max }

unfoldable pub scroll_log_down : ℕ → TuiState → TuiState
scroll_log_down amount s = down_by amount s s.viewing_node

abbrev to_top : TuiState → Option ℕ → TuiState
to_top s none = record s { combined_auto_scroll = false; combined_scroll = 0 }
to_top s (some i) = record s { auto_scroll = false; log_scroll = 0 }

unfoldable pub scroll_log_to_top : TuiState → TuiState
scroll_log_to_top s = to_top s s.viewing_node

abbrev to_bottom : TuiState → Option ℕ → TuiState
to_bottom s none = record s { combined_auto_scroll = true; combined_scroll = usize_max }
to_bottom s (some i) = record s { auto_scroll = true; log_scroll = usize_max }

unfoldable pub scroll_log_to_bottom : TuiState → TuiState
scroll_log_to_bottom s = to_bottom s s.viewing_node

-- `wrapping_add(1)`
unfoldable pub tick_spinner : TuiState → TuiState
tick_spinner s = record s { spinner_tick = (s.spinner_tick + 1) % 2 ^ 64 }
