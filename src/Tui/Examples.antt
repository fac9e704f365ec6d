-- ===== src/Tui/Examples.antt =====
-- Two hosts: one fails its login and is completed again, the other changes something.
use glidesh.Common.{pos, ℕ, String, ◌≡◌, refl, true, false, List, [], ◌∷◌}
use glidesh.Events.{ExecutorEvent, node_auth_failed, node_connecting, module_result, node_complete}
use glidesh.Tui.Nodes.{new}
use glidesh.Tui.Updates.{handle_event}
use glidesh.Tui.Counts.{IsConsistent}
use glidesh.Tui.Scroll.{follow}
use glidesh.Tui.Totals.{repeats, skips, handle_all, handle_all-IsConsistent}
use glidesh.Tui.Keys.{next_node}

abbrev hosts : List (String × (String × String))
hosts = ("a", ("web", "site")) ∷ ("b", ("web", "site")) ∷ []

abbrev events : List (ℕ × ExecutorEvent)
events =
    (1, node_connecting "a")
    ∷ (2, node_auth_failed "a" "no key")
    ∷ (3, node_complete "a" false 0 0 false)
    ∷ (4, module_result "b" "shell" "ls" true false "x\n" "" (pos 0))
    ∷ []

counted : (handle_all events (new 0 hosts false)).completed ≡ 1
unfolding handle_event new
counted = refl

logged :
    (handle_all events (new 0 hosts false)).combined_log
    ≡ "[a] Connecting..." ∷ "[a] AUTH FAILED: no key" ∷ "[b]   shell 'ls': changed"
      ∷ "[b]     stdout | x" ∷ []
unfolding handle_event new
logged = refl

wraps : (next_node (next_node (new 0 hosts false))).selected_node ≡ 0
unfolding next_node new
wraps = refl

-- Of these hosts none is counted again.
none_repeated : repeats events (new 0 hosts false) ≡ 0
unfolding handle_event new
none_repeated = refl

handle_all-IsConsistent_example :
    IsConsistent
      (repeats events (new 0 hosts false))
      (skips events)
      (handle_all events (new 0 hosts false))
handle_all-IsConsistent_example = handle_all-IsConsistent 0 hosts false events

-- Thirty rows in ten lines: the cursor moves past the bottom.
scrolls_one_row : follow 5 15 30 10 ≡ 6
unfolding follow
scrolls_one_row = refl
