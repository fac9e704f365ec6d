-- ===== src/Inventory/Plans.antt =====
-- Which hosts run which plan where the inventory names the plans.
use glidesh.Common.{
  ℕ, ◌+◌, String, ◌≡◌, refl, ◌∙◌, Bool, false, not, Option, none, some, or_else, is_some, List, [],
  ◌∷◌, ◌++◌, map, count, keep, sum_of, sum_of-append, if◌then◌else◌, Option-cases, inl, inr, arith,
}
use glidesh.Inventory.{
  Host, Group, Inventory, ResolvedHost, resolve_host, PlanEntry, group_entry, own_entries,
  group_plans, resolve_group_plans, entry_unless_empty, own_entry,
}

module _ (p : String → String → Bool) where
  -- The runs of an entry that are in `p`, a test on a plan and the name of a host.
  abbrev pub runs_of : PlanEntry → ℕ
  runs_of entry = count (λ h. p entry.plan h.name) entry.hosts

  -- A host runs its own plan, or else that of its group.
  abbrev holds_of : Option String → Host → Bool
  holds_of none h = false
  holds_of (some plan) h = p plan h.name

  abbrev pub runs_plan : Option String → Host → Bool
  runs_plan group_plan h = holds_of (or_else h.plan group_plan) h

  abbrev pub expected : Inventory → List Group → ℕ
  expected inv [] = count (runs_plan none) inv.ungrouped_hosts
  expected inv (g ∷ groups) = count (runs_plan g.plan) g.hosts + expected inv groups

  runs-unless_empty :
      (label plan : String) (hosts : List ResolvedHost)
      → sum_of runs_of (entry_unless_empty label plan hosts) ≡ count (λ h. p plan h.name) hosts
  runs-unless_empty label plan [] = refl
  runs-unless_empty label plan (h ∷ hosts) = omega arith

  abbrev own_runs : Host → Bool
  own_runs h = holds_of h.plan h

  own_entry-runs :
      (inv : Inventory) (label : String) (group : Option Group) (h : Host) (plan : Option String)
      → sum_of runs_of (own_entry inv label group h plan) ≡ (if holds_of plan h then 1 else 0)
  unfolding resolve_host
  own_entry-runs inv label group h none = refl
  own_entry-runs inv label group h (some plan) = ground arith

  own_entries-runs :
      (inv : Inventory) (label : String) (group : Option Group) (hosts : List Host)
      → sum_of runs_of (own_entries inv label group hosts) ≡ count own_runs hosts
  unfolding own_entries
  own_entries-runs inv label group [] = refl
  own_entries-runs inv label group (h ∷ hosts) = ground (
    arith,
    sum_of-append runs_of (own_entry inv label group h h.plan) (own_entries inv label group hosts),
    own_entry-runs inv label group h h.plan,
    own_entries-runs inv label group hosts,
  )

  resolved_count :
      (inv : Inventory) (group : Option Group) (plan : String) (hosts : List Host)
      → count
            (λ h. p plan h.name)
            (map (λ h. resolve_host inv h group) (keep (λ h. not (is_some h.plan)) hosts))
          + count own_runs hosts
        ≡ count (runs_plan (some plan)) hosts
  unfolding resolve_host
  resolved_count inv group plan [] = refl
  resolved_count inv group plan (h ∷ hosts) = elim (Option-cases h.plan) [
    | inl e ↦ rw e (ground (arith, resolved_count inv group plan hosts))
    | inr (own, e) ↦ rw e (ground (arith, resolved_count inv group plan hosts))
  ]

  -- Where the group has no plan, only the hosts' own plans count.
  own_only : (hosts : List Host) → count own_runs hosts ≡ count (runs_plan none) hosts
  own_only [] = refl
  own_only (h ∷ hosts) = elim (Option-cases h.plan) [
    | inl e ↦ rw e (own_only hosts)
    | inr (own, e) ↦ rw e (ground (arith, own_only hosts))
  ]

  group-runs :
      (inv : Inventory) (g : Group) (plan : Option String)
      → sum_of runs_of (group_entry inv g plan) + count own_runs g.hosts
        ≡ count (runs_plan plan) g.hosts
  unfolding group_entry
  group-runs inv g none = omega (arith, own_only g.hosts)
  group-runs inv g (some plan) = omega (
    arith,
    runs-unless_empty g.name plan
        (map (λ h. resolve_host inv h (some g)) (keep (λ h. not (is_some h.plan)) g.hosts)),
    resolved_count inv (some g) plan g.hosts,
  )

  group_plans-runs :
      (inv : Inventory) (groups : List Group)
      → sum_of runs_of (group_plans inv groups) ≡ expected inv groups
  unfolding group_plans
  group_plans-runs inv [] =
      own_entries-runs inv "" none inv.ungrouped_hosts ∙ own_only inv.ungrouped_hosts
  group_plans-runs inv (g ∷ groups) = omega (
    arith,
    sum_of-append runs_of (group_entry inv g g.plan)
        (own_entries inv g.name (some g) g.hosts ++ group_plans inv groups),
    sum_of-append runs_of (own_entries inv g.name (some g) g.hosts) (group_plans inv groups),
    own_entries-runs inv g.name (some g) g.hosts,
    group-runs inv g g.plan,
    group_plans-runs inv groups,
  )

  -- For every test on plans and host names, the entries run as many hosts in it as the inventory
  -- has: each place where a host is listed runs once, on the host's own plan or else the plan of
  -- its group, and not at all if there is neither.
  pub resolve_group_plans-runs :
      (inv : Inventory) → sum_of runs_of (resolve_group_plans inv) ≡ expected inv inv.groups
  unfolding resolve_group_plans
  resolve_group_plans-runs inv = group_plans-runs inv inv.groups
