-- ===== src/Tui/Counts.antt =====
-- The counts that the interface shows agree with its nodes after every sequence of events.
use glidesh.Common.{
  ◌+◌, one, Bool-cases, inl, inr, ℕ, zero, suc, ◌<◌, ◌≡◌, refl, ◌∙◌, String, Bool, true, Option,
  none, some, List, [], ◌∷◌, map, length, count, sum_of, ◌++◌, fmt, get_elem?, is_some, arith,
}
use glidesh.Common.Dict.{get}
use glidesh.Tui.Updates.{already_finished}
use glidesh.Tui.Nodes.{
  NodeState, TuiState, update_at, on_node, get_node, push_node_log, push_all, add_lines,
}
use glidesh.Common.Chars.{lines}

abbrev pub has_finished : NodeState → Bool
has_finished n = is_some n.finished_at

-- The places of the index are places of the list; the changes of the nodes add up to the total;
-- as many hosts are counted as have finished, and the `repeated` ones that had before; and the
-- skipped tasks are `skipped`.
pub record IsConsistent (repeated skipped : ℕ) (s : TuiState) : Type 0 where
  pub indexed : (host : String) (i : ℕ) → get s.node_index host ≡ some i → i < length s.nodes
  pub changed : sum_of (λ n. n.changed) s.nodes ≡ s.total_changed
  pub finished : s.completed ≡ count has_finished s.nodes + repeated
  pub skips : s.total_skipped ≡ skipped

pub recounted :
    {repeated repeated' skipped skipped' : ℕ} {s : TuiState}
    → IsConsistent repeated skipped s
    → repeated ≡ repeated'
    → skipped ≡ skipped'
    → IsConsistent repeated' skipped' s
recounted h r k = record {
  indexed = h.indexed;
  changed = h.changed;
  finished = omega (arith, h.finished, r);
  skips = h.skips ∙ k;
}

-- 1 for a host that has finished already.
abbrev pub again : String → TuiState → ℕ
again host s = one (already_finished (get_node host s))

-- An update that touches neither the changes nor whether the node has finished.
abbrev IsQuiet : (NodeState → NodeState) → Type 0
IsQuiet f = (n : NodeState) → ((f n).changed ≡ n.changed) × (has_finished (f n) ≡ has_finished n)

length-update_at :
    (i : ℕ) (f : NodeState → NodeState) (ns : List NodeState)
    → length (update_at i f ns) ≡ length ns
unfolding update_at
length-update_at i f [] = refl
length-update_at zero f (n ∷ ns) = refl
length-update_at (suc i) f (n ∷ ns) = omega (arith, length-update_at i f ns)

pub sum-update_at :
    (i : ℕ) (f : NodeState → NodeState) (ns : List NodeState)
    → ((n : NodeState) → (f n).changed ≡ n.changed)
    → sum_of (λ n. n.changed) (update_at i f ns) ≡ sum_of (λ n. n.changed) ns
unfolding update_at
sum-update_at i f [] q = refl
sum-update_at zero f (n ∷ ns) q = omega (arith, q n)
sum-update_at (suc i) f (n ∷ ns) q = omega (arith, sum-update_at i f ns q)

pub sum-update_at-suc :
    (i : ℕ) (ns : List NodeState)
    → i < length ns
    → sum_of (λ n. n.changed) (update_at i (λ n. record n { changed = suc n.changed }) ns)
      ≡ suc (sum_of (λ n. n.changed) ns)
unfolding update_at
sum-update_at-suc i [] h = absurd (omega arith)
sum-update_at-suc zero (n ∷ ns) h = omega arith
sum-update_at-suc (suc i) (n ∷ ns) h = omega (arith, sum-update_at-suc i ns (omega arith))

pub count-update_at :
    (i : ℕ) (f : NodeState → NodeState) (ns : List NodeState)
    → ((n : NodeState) → has_finished (f n) ≡ has_finished n)
    → count has_finished (update_at i f ns) ≡ count has_finished ns
unfolding update_at
count-update_at i f [] q = refl
count-update_at zero f (n ∷ ns) q = rw (q n) refl
count-update_at (suc i) f (n ∷ ns) q = ground (arith, count-update_at i f ns q)

-- A node that an update finishes is counted if it had not finished.
pub count-update_at-finishes :
    (i : ℕ) (f : NodeState → NodeState) (ns : List NodeState)
    → ((n : NodeState) → has_finished (f n) ≡ true)
    → i < length ns
    → count has_finished (update_at i f ns) + one (already_finished (get_elem? ns i))
      ≡ suc (count has_finished ns)
unfolding update_at
count-update_at-finishes i f [] q h = absurd (omega (arith, h))
count-update_at-finishes zero f (m ∷ ns) q h =
    rw (q m) (elim (Bool-cases (has_finished m)) [
      | inl e ↦ rw e (omega arith)
      | inr e ↦ rw e (omega arith)
    ])
count-update_at-finishes (suc i) f (m ∷ ns) q h =
    ground (arith, count-update_at-finishes i f ns q (omega (arith, h)))

-- A change of one node that keeps the list's changes and finished nodes in step with the totals.
pub updated :
    {repeated repeated' skipped : ℕ} (s : TuiState) (i : ℕ) (f : NodeState → NodeState)
    (total_changed completed : ℕ) (log : List String)
    → IsConsistent repeated skipped s
    → sum_of (λ n. n.changed) (update_at i f s.nodes) ≡ total_changed
    → completed ≡ count has_finished (update_at i f s.nodes) + repeated'
    → IsConsistent repeated' skipped (record s {
      nodes = update_at i f s.nodes;
      total_changed = total_changed;
      completed = completed;
      combined_log = log;
    })
updated s i f total_changed completed log h c d = record {
  indexed = λ k j e. omega (arith, h.indexed k j e, length-update_at i f s.nodes);
  changed = c;
  finished = d;
  skips = h.skips;
}

quietly :
    {repeated skipped : ℕ} (s : TuiState) (i : ℕ) (f : NodeState → NodeState) (log : List String)
    → IsQuiet f
    → IsConsistent repeated skipped s
    → IsConsistent repeated skipped (record s { nodes = update_at i f s.nodes; combined_log = log })
quietly s i f log q h =
    updated s i f s.total_changed s.completed log h
      (sum-update_at i f s.nodes (λ n. (q n).0) ∙ h.changed)
      (omega (arith, h.finished, count-update_at i f s.nodes (λ n. (q n).1)))

pub on_node-quiet :
    {repeated skipped : ℕ} (host : String) (f : NodeState → NodeState) (s : TuiState)
    → IsQuiet f
    → IsConsistent repeated skipped s
    → IsConsistent repeated skipped (on_node host f s)
unfolding on_node
on_node-quiet {repeated = repeated} {skipped = skipped} host f s q h = go (get s.node_index host)
  where
    go :
        (o : Option ℕ)
        → IsConsistent repeated skipped
            (elim o [ none ↦ s | some i ↦ record s { nodes = update_at i f s.nodes } ])
    go none = h
    go (some i) = quietly s i f s.combined_log q h

pub push_node_log-IsConsistent :
    {repeated skipped : ℕ} (host text : String) (s : TuiState)
    → IsConsistent repeated skipped s
    → IsConsistent repeated skipped (push_node_log host text s)
unfolding push_node_log
push_node_log-IsConsistent {repeated = repeated} {skipped = skipped} host text s h =
    go (get s.node_index host)
  where
    go :
        (o : Option ℕ)
        → IsConsistent repeated skipped (elim o [
          | none ↦ s
          | some i ↦ record s {
            nodes = update_at i (add_lines (lines text)) s.nodes;
            combined_log =
                s.combined_log ++ map (λ line. fmt ("[" ∷ host ∷ "] " ∷ line ∷ [])) (lines text);
          }
        ])
    go none = h
    go (some i) = quietly s i (add_lines (lines text)) _ (λ n. (refl, refl)) h

pub push_all-IsConsistent :
    {repeated skipped : ℕ} (host : String) (texts : List String) (s : TuiState)
    → IsConsistent repeated skipped s
    → IsConsistent repeated skipped (push_all host texts s)
unfolding push_all
push_all-IsConsistent host [] s h = h
push_all-IsConsistent host (text ∷ texts) s h =
    push_all-IsConsistent host texts (push_node_log host text s)
      (push_node_log-IsConsistent host text s h)
