-- ===== src/Runner/Values.antt =====
-- The variables of a host: built-in ones, the items of a loop, and why a step failed.
use glidesh.Common.{
  String, Bool, true, false, not, Option, none, some, List, [], ◌∷◌, map, keep, str_eq, fmt, show,
  Result, ok, err,
}
use glidesh.Common.Chars.{lines, trim}
use glidesh.Common.Dict.{Dict, get, insert, remove, extend}
use glidesh.Detect.{
  OsInfo, Facts, ContainerRuntime, family_str, pkg_manager_str, init_system_str,
  container_runtime_str,
}
use glidesh.Inventory.{ResolvedHost}
use glidesh.Plan.{Plan, LoopSource, variable, literal}

abbrev pub Collections : Type 0
Collections = Dict (List (Dict String))

pub data LoopItem : Type 0 where
  flat : String → LoopItem
  structured : Dict String → LoopItem

abbrev is_filled : String → Bool
is_filled l = not (str_eq l "")

unfoldable pub flat_items : String → List LoopItem
unfolding lines trim
flat_items value = map flat (keep is_filled (map trim (lines value)))

unfoldable pub resolve_loop_items :
    LoopSource → Dict String → Collections → Result String (List LoopItem)
unfolding get fmt flat_items
resolve_loop_items (variable name) vars collections = elim (get collections name) [
  | some rows ↦ ok (map structured rows)
  | none ↦ elim (get vars name) [
    | some value ↦ ok (flat_items value)
    | none ↦ err (fmt ("Loop variable '" ∷ name ∷ "' is not defined" ∷ []))
  ]
]
resolve_loop_items (literal items) vars collections = ok (map flat items)

unfoldable pub host_builtin_vars : ResolvedHost → Dict String
unfolding show
host_builtin_vars host =
    ("@host.name", host.name)
    ∷ ("@host.address", host.address)
    ∷ ("@host.user", host.user)
    ∷ ("@host.port", show host.port)
    ∷ []

-- The variables of the plan, then those of the host, then the answers to the prompts.
unfoldable pub merged_vars : Plan → ResolvedHost → Dict String
unfolding extend
merged_vars plan host = extend (extend plan.vars host.vars) plan.answers

abbrev runtime_or_empty : Option ContainerRuntime → String
runtime_or_empty none = ""
runtime_or_empty (some runtime) = container_runtime_str runtime

-- `to_string` of a Boolean.
abbrev bool_str : Bool → String
bool_str true = "true"
bool_str false = "false"

unfoldable pub os_builtin_vars : OsInfo → Dict String
unfolding family_str pkg_manager_str init_system_str container_runtime_str
os_builtin_vars os =
    ("@os.id", os.id)
    ∷ ("@os.version", os.version)
    ∷ ("@os.family", family_str os.family)
    ∷ ("@os.pkg-manager", pkg_manager_str os.pkg_manager)
    ∷ ("@os.init", init_system_str os.init_system)
    ∷ ("@os.container-runtime", runtime_or_empty os.container_runtime)
    ∷ ("@os.nix-installed", bool_str os.nix_installed)
    ∷ []

unfoldable pub fact_builtin_vars : Facts → Dict String
fact_builtin_vars facts =
    ("@fact.hostname", facts.hostname)
    ∷ ("@fact.kernel", facts.kernel)
    ∷ ("@fact.arch", facts.arch)
    ∷ ("@fact.cpu.count", facts.cpu_count)
    ∷ ("@fact.mem.total-mb", facts.mem_total_mb)
    ∷ ("@fact.ip.default", facts.ip_default)
    ∷ []

abbrev item_field : String × String → String × String
item_field (field, value) = (fmt ("@item." ∷ field ∷ []), value)

-- The variables that an item binds.
unfoldable pub item_vars : LoopItem → Dict String
unfolding fmt
item_vars (flat value) = ("@item", value) ∷ []
item_vars (structured row) = map item_field row

abbrev key_of : String × String → String
key_of (key, value) = key

-- `inject_loop_item`: the variables with the item, and the keys to take away again.
unfoldable pub inject_loop_item : Dict String → LoopItem → Dict String × List String
unfolding item_vars extend
inject_loop_item vars item = (extend vars (item_vars item), map key_of (item_vars item))

-- `for key in &injected { vars.remove(key); }`
unfoldable pub remove_all : Dict String → List String → Dict String
unfolding remove
remove_all vars [] = vars
remove_all vars (key ∷ keys) = remove_all (remove vars key) keys

pub record Failure : Type 0 where
  pub task : String
  pub message : String

abbrev pub error_msg : String
error_msg = "@error.msg"

abbrev pub error_task : String
error_task = "@error.task"

unfoldable pub in_task : String → String → String → Failure
unfolding fmt
in_task module_name resource message = record {
  task = fmt (module_name ∷ " '" ∷ resource ∷ "'" ∷ []);
  message = message;
}

unfoldable pub in_step : String → Failure
in_step message = record { task = ""; message = message }

-- `Failure::expose`, given the redaction.
unfoldable pub expose : (String → String) → Failure → Dict String → Dict String
unfolding insert
expose redact failure vars =
    insert (insert vars error_msg (redact failure.message)) error_task (redact failure.task)
