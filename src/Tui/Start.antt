-- ===== src/Tui/Start.antt =====
-- The counts of the interface at its start.
use glidesh.Common.{
  ℕ, suc, ◌+◌, ◌<◌, ◌≡◌, refl, sym, ◌∙◌, ap, String, Bool, Bool-cases, inl, inr, some, List, [],
  ◌∷◌, map, length, count, sum_of, if◌then◌else◌, arith, str_eq,
}
use glidesh.Common.Dict.{Dict, get, insert, get-insert}
use glidesh.Tui.Nodes.{index_from, new, new_node}
use glidesh.Tui.Counts.{IsConsistent, has_finished}

index_step :
    (i : ℕ) (index : Dict ℕ) (host : String)
    → ((k : String) (j : ℕ) → get index k ≡ some j → j < i)
    → (k : String) (j : ℕ) → get (insert index host i) k ≡ some j
    → j < suc i
index_step i index host h k j e = elim (Bool-cases (str_eq host k)) [
  | inl is ↦ ground (arith, get-insert index host k i)
  | inr isnt ↦ omega (
    arith,
    h k j (sym (get-insert index host k i ∙ ap (λ b. if b then some i else get index k) isnt) ∙ e),
  )
]

index_from-bound :
    (i : ℕ) (hosts : List (String × (String × String))) (index : Dict ℕ)
    → ((k : String) (j : ℕ) → get index k ≡ some j → j < i)
    → (k : String) (j : ℕ) → get (index_from i hosts index) k ≡ some j
    → j < i + length hosts
unfolding index_from
index_from-bound i [] index h k j e = omega (arith, h k j e)
index_from-bound i ((host, rest) ∷ hosts) index h k j e =
    omega (
      arith,
      index_from-bound (suc i) hosts (insert index host i) (index_step i index host h) k j e,
    )

length-map :
    (now : ℕ) (hosts : List (String × (String × String)))
    → length (map (new_node now) hosts) ≡ length hosts
length-map now [] = refl
length-map now (host ∷ hosts) = ap suc (length-map now hosts)

no_changes :
    (now : ℕ) (hosts : List (String × (String × String)))
    → sum_of (λ n. n.changed) (map (new_node now) hosts) ≡ 0
no_changes now [] = refl
no_changes now (host ∷ hosts) = omega (arith, no_changes now hosts)

none_finished :
    (now : ℕ) (hosts : List (String × (String × String)))
    → count has_finished (map (new_node now) hosts) ≡ 0
none_finished now [] = refl
none_finished now (host ∷ hosts) = none_finished now hosts

pub new-IsConsistent :
    (now : ℕ) (hosts : List (String × (String × String))) (dry_run : Bool)
    → IsConsistent 0 0 (new now hosts dry_run)
unfolding new get
new-IsConsistent now hosts dry_run = record {
  indexed = λ k j e.
      omega
        (arith, index_from-bound 0 hosts [] (λ l m e'. absurd (cc e')) k j e, length-map now hosts);
  changed = no_changes now hosts;
  finished = omega (arith, none_finished now hosts);
  skips = refl;
}
