-- ===== src/Runner/Coordinator.antt =====
-- executor/host_coordinator.rs: a `host` task runs once for all hosts. A call is one step, for
-- whoever finds a cell being filled waits until it is full.
pub mod Once
use glidesh.Common.{
  ◌&&◌, ◌==◌, String, Bool, true, false, Option, none, some, List, [], ◌∷◌, if◌then◌else◌, fmt,
  unwrap_or, Result, ok, err,
}
use glidesh.Runner.Interface.{HostOutput, TaskKey}

-- How a task's future ends: with its result, or in a panic with what it says, if it says anything.
pub data Ran : Type 0 where
  returned : Result String HostOutput → Ran
  panicked : Option String → Ran

-- The cells, where `none` is an empty one.
abbrev pub HostCoordinator : Type 0
HostCoordinator = List (TaskKey × Option (Result String HostOutput))

abbrev pub key_eq : TaskKey → TaskKey → Bool
key_eq a b = a.step_idx == b.step_idx && (a.task_idx == b.task_idx && a.loop_iter == b.loop_iter)

-- What the cell of a key holds; nothing if there is no cell.
unfoldable pub stored : HostCoordinator → TaskKey → Option (Result String HostOutput)
stored [] key = none
stored ((k, content) ∷ cells) key = if key_eq k key then content else stored cells key

abbrev pub has_cell : HostCoordinator → TaskKey → Bool
has_cell [] key = false
has_cell ((k, content) ∷ cells) key = if key_eq k key then true else has_cell cells key

-- The coordinator with a cell for the key.
unfoldable pub cell_for : HostCoordinator → TaskKey → HostCoordinator
cell_for cells key = if has_cell cells key then cells else (key, none) ∷ cells

-- Fill the cell of a key.
unfoldable pub fill : HostCoordinator → TaskKey → Result String HostOutput → HostCoordinator
fill [] key result = []
fill ((k, content) ∷ cells) key result =
    let rest = fill cells key result in
    if key_eq k key then (k, some result) ∷ cells else (k, content) ∷ rest

-- `message`
unfoldable pub message : Option String → String
message panic = unwrap_or panic "unknown cause"

-- `catch_unwind`, and what a panic becomes.
unfoldable pub caught : Ran → Result String HostOutput
unfolding message fmt
caught (returned result) = result
caught (panicked panic) = err (fmt ("host task panicked: " ∷ message panic ∷ []))

module _ {W : Type 0} where
  -- `get_or_init` on a cell with this content.
  unfoldable pub get_or_init :
      Option (Result String HostOutput)
      → TaskKey
      → (W → Ran × W)
      → HostCoordinator
      → W
      → Result String HostOutput × HostCoordinator × W
  unfolding fill caught
  get_or_init (some result) key f cells world = (result, cells, world)
  get_or_init none key f cells world =
      let (ran, world') = f world in (caught ran, fill cells key (caught ran), world')

  unfoldable pub get_or_run :
      TaskKey → (W → Ran × W) → HostCoordinator → W → Result String HostOutput × HostCoordinator × W
  unfolding cell_for stored get_or_init
  get_or_run key f cells world =
      let cells' = cell_for cells key in get_or_init (stored cells' key) key f cells' world

  -- The calls of a run, in the order in which they come to their cells.
  unfoldable pub run_all :
      List (TaskKey × (W → Ran × W))
      → HostCoordinator
      → W
      → List (TaskKey × Result String HostOutput) × HostCoordinator × W
  unfolding get_or_run
  run_all [] cells world = ([], cells, world)
  run_all ((key, f) ∷ calls) cells world =
      let (result, cells1, world1) = get_or_run key f cells world in
      let (results, cells2, world2) = run_all calls cells1 world1 in
      ((key, result) ∷ results, cells2, world2)
