-- ===== src/Tui/Cursor.antt =====
-- The selected node under the keys that move it.
use native.Mathlib.Nat.{mod-lt, mod-eq_of_lt, mod_self}
use glidesh.Common.{
  ℕ, ◌+◌, ◌-◌, ◌%◌, ◌<◌, ◌≡◌, refl, ◌∙◌, ap, ap₂, ltb, Bool-cases, inl, inr, ◌⊎◌, Option, none,
  some, length, ◌==◌, if◌then◌else◌, arith,
}
use glidesh.Tui.Nodes.{TuiState}
use glidesh.Tui.Keys.{next_node, prev_node, select, follow_selection, enter_node_view}

-- Following the selection into a node's log leaves the selection and the nodes.
follow_selection-keeps :
    (s : TuiState) (view : Option ℕ)
    → ((follow_selection s view).selected_node ≡ s.selected_node)
      × ((follow_selection s view).nodes ≡ s.nodes)
unfolding enter_node_view
follow_selection-keeps s none = (refl, refl)
follow_selection-keeps s (some i) = (refl, refl)

select-keeps :
    (i : ℕ) (s : TuiState) → ((select i s).selected_node ≡ i) × ((select i s).nodes ≡ s.nodes)
select-keeps i s = follow_selection-keeps (record s { selected_node = i }) s.viewing_node

-- The places that the keys move to, of `n` nodes.
abbrev after : ℕ → ℕ → ℕ
after n i = (i + 1) % n

abbrev before : ℕ → ℕ → ℕ
before n i = if i == 0 then n - 1 else i - 1

after-cases :
    (n i : ℕ) → i < n → ((i + 1 < n) × (after n i ≡ i + 1)) ⊎ ((i + 1 ≡ n) × (after n i ≡ 0))
after-cases n i h = elim (Bool-cases (ltb (i + 1) n)) [
  | inl lt ↦ (let l : i + 1 < n = ground arith in inl (l, mod-eq_of_lt l))
  | inr ge ↦ (let e : i + 1 ≡ n = ground arith in inr (e, rw e (mod_self n)))
]

before-after : (n i : ℕ) → i < n → before n (after n i) ≡ i
before-after n i h = elim (after-cases n i h) [
  | inl (lt, e) ↦ rw e (ground arith)
  | inr (last, e) ↦ rw e (omega arith)
]

next_node-moves :
    (s : TuiState)
    → s.selected_node < length s.nodes
    → ((next_node s).selected_node ≡ after (length s.nodes) s.selected_node)
      × ((next_node s).nodes ≡ s.nodes)
unfolding next_node
next_node-moves s h = elim (Bool-cases (length s.nodes == 0)) [
  | inl e ↦ absurd (ground arith)
  | inr e ↦ rw e (select-keeps (after (length s.nodes) s.selected_node) s)
]

prev_node-moves :
    (s : TuiState)
    → s.selected_node < length s.nodes
    → (prev_node s).selected_node ≡ before (length s.nodes) s.selected_node
unfolding prev_node
prev_node-moves s h = elim (Bool-cases (length s.nodes == 0)) [
  | inl e ↦ absurd (ground arith)
  | inr e ↦ rw e (select-keeps (before (length s.nodes) s.selected_node) s).0
]

-- The selection stays on a node, and going forward and back returns to the node selected before.
pub prev_node-next_node :
    (s : TuiState)
    → s.selected_node < length s.nodes
    → ((next_node s).selected_node < length (next_node s).nodes)
      × ((prev_node (next_node s)).selected_node ≡ s.selected_node)
prev_node-next_node s h =
    let (moved, same) = next_node-moves s h in
    let stays : (next_node s).selected_node < length (next_node s).nodes =
      omega (arith, moved, ap length same, mod-lt (s.selected_node + 1) (above s h)) in
    (
      stays,
      prev_node-moves (next_node s) stays
          ∙ ap₂ before (ap length same) moved
          ∙ before-after (length s.nodes) s.selected_node h,
    )
  where
    above : (s : TuiState) → s.selected_node < length s.nodes → 0 < length s.nodes
    above s h = omega arith
