-- ===== src/Inventory.antt =====
-- `Inventory` of config/types.rs: the hosts that a target names, the plans of groups and hosts,
-- and what a host gets from its group and the top level. A port is a number below 2 ^ 16.
pub mod Targets
pub mod Plans
pub mod Settings
mod Examples
use glidesh.Common.{
  ℕ, String, Bool, true, false, not, ◌&&◌, Option, none, some, List, [], ◌∷◌, ◌++◌, map,
  if◌then◌else◌, is_some, or_else, unwrap_or, str_eq, contains, keep,
}
use glidesh.Common.Dict.{Dict, get, extend}
use glidesh.Condition.Lexer.{read_until}
use glidesh.RunAs.{RunAsSpec, inherit, merge_over}
use glidesh.Tags.{parts}

pub record JumpHost : Type 0 where
  pub address : String
  pub user : Option String
  pub port : Option ℕ

pub data Jump : Type 0 where
  via : JumpHost → Jump
  direct : Jump

pub record ResolvedJumpHost : Type 0 where
  pub address : String
  pub user : String
  pub port : ℕ

pub record Host : Type 0 where
  pub name : String
  pub address : String
  pub user : Option String
  pub port : Option ℕ
  pub vars : Dict String
  pub plan : Option String
  pub jump : Option Jump
  pub run_as : RunAsSpec

pub record Group : Type 0 where
  pub name : String
  pub hosts : List Host
  pub vars : Dict String
  pub plan : Option String
  pub jump : Option Jump
  pub run_as : RunAsSpec

pub record Inventory : Type 0 where
  pub groups : List Group
  pub ungrouped_hosts : List Host
  pub global_vars : Dict String
  pub run_as : RunAsSpec
  pub jump : Option JumpHost

pub record ResolvedHost : Type 0 where
  pub name : String
  pub address : String
  pub user : String
  pub port : ℕ
  pub vars : Dict String
  pub jump : Option ResolvedJumpHost
  pub run_as : RunAsSpec

-- What the optional group of a host sets.
abbrev pub group_vars : Option Group → Dict String
group_vars none = []
group_vars (some g) = g.vars

abbrev pub group_jump : Option Group → Option Jump
group_jump none = none
group_jump (some g) = g.jump

abbrev pub group_run_as : Option Group → RunAsSpec
group_run_as none = inherit
group_run_as (some g) = g.run_as

unfoldable pub jump_source : Option Jump → Option JumpHost → Option JumpHost
jump_source (some (via j)) top = some j
jump_source (some direct) top = none
jump_source none top = top

unfoldable pub resolve_jump : String → Option JumpHost → Option ResolvedJumpHost
resolve_jump user none = none
resolve_jump user (some j) =
    some (record { address = j.address; user = unwrap_or j.user user; port = unwrap_or j.port 22 })

unfoldable pub merged_vars : Inventory → Host → Option Group → Dict String
unfolding extend
merged_vars inv host group = extend (extend inv.global_vars (group_vars group)) host.vars

-- `Inventory::resolve_host`
unfoldable pub resolve_host : Inventory → Host → Option Group → ResolvedHost
unfolding jump_source resolve_jump merged_vars merge_over get
resolve_host inv host group =
    let vars = merged_vars inv host group in
    let user = unwrap_or (or_else host.user (get vars "deploy-user")) "root" in
    record {
      name = host.name;
      address = host.address;
      user = user;
      port = unwrap_or host.port 22;
      vars = vars;
      jump = resolve_jump user (jump_source (or_else host.jump (group_jump group)) inv.jump);
      run_as = merge_over (merge_over host.run_as (group_run_as group)) inv.run_as;
    }

-- The first host of a list that has the name.
unfoldable pub host_named : Inventory → Option Group → String → List Host → Option ResolvedHost
host_named inv group name [] = none
host_named inv group name (h ∷ hosts) =
    let rest = host_named inv group name hosts in
    if str_eq h.name name then some (resolve_host inv h group) else rest

-- `group:host`
unfoldable pub in_groups : Inventory → String → String → List Group → Option ResolvedHost
in_groups inv group name [] = none
in_groups inv group name (g ∷ groups) =
    let rest = in_groups inv group name groups in
    if str_eq g.name group then or_else (host_named inv (some g) name g.hosts) rest else rest

unfoldable pub hosts_of : Inventory → Group → List ResolvedHost
hosts_of inv g = map (λ h. resolve_host inv h (some g)) g.hosts

unfoldable pub group_named : Inventory → String → List Group → Option (List ResolvedHost)
group_named inv name [] = none
group_named inv name (g ∷ groups) =
    let rest = group_named inv name groups in
    if str_eq g.name name then some (hosts_of inv g) else rest

unfoldable pub grouped_host : Inventory → String → List Group → Option ResolvedHost
grouped_host inv name [] = none
grouped_host inv name (g ∷ groups) =
    or_else (host_named inv (some g) name g.hosts) (grouped_host inv name groups)

abbrev one_or_none : Option ResolvedHost → List ResolvedHost
one_or_none none = []
one_or_none (some h) = h ∷ []

unfoldable pub every_host : Inventory → List Group → List ResolvedHost
every_host inv [] = map (λ h. resolve_host inv h none) inv.ungrouped_hosts
every_host inv (g ∷ groups) = hosts_of inv g ++ every_host inv groups

-- A target without a comma.
unfoldable pub resolve_one : Inventory → String → List ResolvedHost
unfolding read_until in_groups group_named grouped_host host_named hosts_of
resolve_one inv target = elim (read_until b':' target) [
  | some (group, name) ↦ one_or_none (in_groups inv group name inv.groups)
  | none ↦ elim (group_named inv target inv.groups) [
    | some hosts ↦ hosts
    | none ↦ one_or_none (
        or_else (grouped_host inv target inv.groups)
          (host_named inv none target inv.ungrouped_hosts))
  ]
]

-- `seen.insert` and `out.push` for the hosts of a piece; the names seen are those of `out`.
unfoldable pub add_new : List ResolvedHost → List ResolvedHost → List ResolvedHost
add_new out [] = out
add_new out (h ∷ hosts) =
    add_new (if contains (map (λ r. r.name) out) h.name then out else out ++ (h ∷ [])) hosts

-- The pieces of a list. No piece has a comma, so the recursive call is that of `resolve_one`.
unfoldable pub resolve_pieces : Inventory → List ResolvedHost → List String → List ResolvedHost
resolve_pieces inv out [] = out
resolve_pieces inv out (piece ∷ pieces) =
    resolve_pieces inv (if str_eq piece "" then out else add_new out (resolve_one inv piece)) pieces

-- `Inventory::resolve_targets`
unfoldable pub resolve_targets : Inventory → Option String → List ResolvedHost
unfolding every_host resolve_one resolve_pieces add_new
resolve_targets inv none = every_host inv inv.groups
resolve_targets inv (some t) =
    if is_some (read_until b',' t) then resolve_pieces inv [] (parts t) else resolve_one inv t

-- An entry of `resolve_group_plans`: the label, the plan and its hosts.
pub record PlanEntry : Type 0 where
  pub label : String
  pub plan : String
  pub hosts : List ResolvedHost

abbrev pub entry_unless_empty : String → String → List ResolvedHost → List PlanEntry
entry_unless_empty label plan [] = []
entry_unless_empty label plan (h ∷ hosts) =
    record { label = label; plan = plan; hosts = h ∷ hosts } ∷ []

-- The hosts without a plan of their own, under the plan of their group.
unfoldable pub group_entry : Inventory → Group → Option String → List PlanEntry
group_entry inv g none = []
group_entry inv g (some plan) =
    entry_unless_empty g.name plan
      (map (λ h. resolve_host inv h (some g)) (keep (λ h. not (is_some h.plan)) g.hosts))

-- The hosts of a list that have a plan of their own.
abbrev pub own_entry : Inventory → String → Option Group → Host → Option String → List PlanEntry
own_entry inv label group h none = []
own_entry inv label group h (some plan) =
    record { label = label; plan = plan; hosts = resolve_host inv h group ∷ [] } ∷ []

unfoldable pub own_entries : Inventory → String → Option Group → List Host → List PlanEntry
own_entries inv label group [] = []
own_entries inv label group (h ∷ hosts) =
    own_entry inv label group h h.plan ++ own_entries inv label group hosts

unfoldable pub group_plans : Inventory → List Group → List PlanEntry
group_plans inv [] = own_entries inv "" none inv.ungrouped_hosts
group_plans inv (g ∷ groups) =
    group_entry inv g g.plan ++ (own_entries inv g.name (some g) g.hosts ++ group_plans inv groups)

-- `Inventory::resolve_group_plans`
unfoldable pub resolve_group_plans : Inventory → List PlanEntry
unfolding group_plans group_entry own_entries
resolve_group_plans inv = group_plans inv inv.groups
