-- ===== src/Runner/Coordinator/Once.antt =====
-- How often a `host` task runs, and what those that ask for it get.
use glidesh.Common.{
  ◌≡◌, refl, ap, ◌∙◌, String, Bool, true, false, Option, none, some, is_some, List, [], ◌∷◌, All,
  if◌then◌else◌, arith, Result, Bool-cases, inl, inr,
}
use glidesh.Runner.Interface.{HostOutput, TaskKey}
use glidesh.Runner.Coordinator.{
  Ran, HostCoordinator, key_eq, stored, has_cell, cell_for, fill, caught, get_or_init, get_or_run,
  run_all,
}

key_eq_refl : (a : TaskKey) → key_eq a a ≡ true
key_eq_refl a = ground arith

stored-empty :
    (cells : HostCoordinator) (key j : TaskKey)
    → has_cell cells key ≡ false
    → key_eq key j ≡ true
    → stored cells j ≡ none
unfolding stored
stored-empty [] key j h e = refl
stored-empty ((k, content) ∷ cells) key j h e = ground (arith, stored-empty cells key j)

stored-cell_for :
    (cells : HostCoordinator) (key j : TaskKey) → stored (cell_for cells key) j ≡ stored cells j
unfolding stored cell_for
stored-cell_for cells key j = ground (arith, stored-empty cells key j)

has_cell-cell_for :
    (cells : HostCoordinator) (key : TaskKey) → has_cell (cell_for cells key) key ≡ true
unfolding cell_for
has_cell-cell_for cells key = ground (arith, key_eq_refl key)

stored-fill :
    (cells : HostCoordinator) (key j : TaskKey) (result : Result String HostOutput)
    → has_cell cells key ≡ true
    → stored (fill cells key result) j ≡ (if key_eq key j then some result else stored cells j)
unfolding stored fill
stored-fill [] key j result h = absurd (cc)
stored-fill ((k, content) ∷ cells) key j result h = ground (arith, stored-fill cells key j result)

stored-key_eq :
    (cells : HostCoordinator) (key j : TaskKey)
    → key_eq key j ≡ true
    → stored cells key ≡ stored cells j
unfolding stored
stored-key_eq [] key j e = refl
stored-key_eq ((k, content) ∷ cells) key j e = ground (arith, stored-key_eq cells key j)

abbrev is_seen : List TaskKey → TaskKey → Bool
is_seen [] key = false
is_seen (k ∷ seen) key = if key_eq k key then true else is_seen seen key

-- The calls with a key that none before them has.
unfoldable pub first_calls :
    {W : Type 0} → List TaskKey → List (TaskKey × (W → Ran × W)) → List (TaskKey × (W → Ran × W))
first_calls seen [] = []
first_calls seen ((key, f) ∷ calls) =
    let later = first_calls (key ∷ seen) calls in
    let others = first_calls seen calls in if is_seen seen key then others else (key, f) ∷ later

-- The tasks of calls one after the other, with no coordinator.
unfoldable pub run_each : {W : Type 0} → List (TaskKey × (W → Ran × W)) → W → W
run_each [] world = world
run_each ((key, f) ∷ calls) world = run_each calls (f world).1

-- Nothing is stored for a key that no call had.
abbrev Matches : HostCoordinator → List TaskKey → Type 0
Matches cells seen = (k : TaskKey) → is_some (stored cells k) ≡ is_seen seen k

module _ {W : Type 0} where
  -- A call leaves its answer with the key, and every other key as it was.
  get_or_run-stored :
      (key j : TaskKey) (f : W → Ran × W) (cells : HostCoordinator) (world : W)
      → stored (get_or_run key f cells world).1 j
        ≡ (if key_eq key j then some (get_or_run key f cells world).0 else stored cells j)
  unfolding get_or_run
  get_or_run-stored key j f cells world = go (stored (cell_for cells key) key) refl
    where
      go :
          (content : Option (Result String HostOutput))
          → stored (cell_for cells key) key ≡ content
          → stored (get_or_init content key f (cell_for cells key) world).1 j ≡ (
              if key_eq key j
              then some (get_or_init content key f (cell_for cells key) world).0
              else stored cells j)
      go (some result) e =
          ground (arith, stored-key_eq (cell_for cells key) key j, stored-cell_for cells key j, e)
      go none e =
          rw
            (
              stored-fill (cell_for cells key) key j (caught (f world).0)
                  (has_cell-cell_for cells key),
              stored-cell_for cells key j,
            )
            refl

  get_or_run-world :
      (key : TaskKey) (f : W → Ran × W) (cells : HostCoordinator) (world : W)
      → (get_or_run key f cells world).2
        ≡ (if is_some (stored cells key) then world else (f world).1)
  unfolding get_or_run
  get_or_run-world key f cells world = rw (stored-cell_for cells key key) (go (stored cells key))
    where
      go :
          (content : Option (Result String HostOutput))
          → (get_or_init content key f (cell_for cells key) world).2
            ≡ (if is_some content then world else (f world).1)
      go (some result) = refl
      go none = refl

  get_or_run-stays :
      (key : TaskKey) (f : W → Ran × W) (cells : HostCoordinator) (world : W)
      (result : Result String HostOutput)
      → stored cells key ≡ some result
      → some (get_or_run key f cells world).0 ≡ some result
  unfolding get_or_run
  get_or_run-stays key f cells world result e = rw (stored-cell_for cells key key, e) refl

  get_or_run-Matches :
      (key : TaskKey) (f : W → Ran × W) (cells : HostCoordinator) (world : W) (seen : List TaskKey)
      → Matches cells seen
      → Matches (get_or_run key f cells world).1 (key ∷ seen)
  get_or_run-Matches key f cells world seen m k =
      ground (arith, get_or_run-stored key k f cells world, m k)

  get_or_run-again :
      (key : TaskKey) (f : W → Ran × W) (cells : HostCoordinator) (world : W) (seen : List TaskKey)
      → is_seen seen key ≡ true
      → Matches cells seen
      → Matches (get_or_run key f cells world).1 seen
  get_or_run-again key f cells world seen e m k =
      ground
        (arith, get_or_run-stored key k f cells world, stored-key_eq cells key k, m k, m key, e)

  run_from-first_calls :
      (calls : List (TaskKey × (W → Ran × W))) (cells : HostCoordinator) (seen : List TaskKey)
      (world : W)
      → Matches cells seen
      → (run_all calls cells world).2 ≡ run_each (first_calls seen calls) world
  unfolding run_all first_calls run_each
  run_from-first_calls [] cells seen world m = refl
  run_from-first_calls ((key, f) ∷ calls) cells seen world m =
      let (result, cells', world') = get_or_run key f cells world in
      elim (Bool-cases (is_seen seen key)) [
        | inl e ↦ rw e (
            run_from-first_calls calls cells' seen world'
              (get_or_run-again key f cells world seen e m)
            ∙ ap (run_each (first_calls seen calls))
                (get_or_run-world key f cells world ∙ rw (m key, e) refl))
        | inr e ↦ rw e (
            run_from-first_calls calls cells' (key ∷ seen) world'
              (get_or_run-Matches key f cells world seen m)
            ∙ ap (run_each (first_calls (key ∷ seen) calls))
                (get_or_run-world key f cells world ∙ rw (m key, e) refl))
      ]

  -- However many hosts ask for a task, and in whatever order, the world changes as if only the
  -- first call of each key ran its task, those one after the other.
  pub run_all-first_calls :
      (calls : List (TaskKey × (W → Ran × W))) (world : W)
      → (run_all calls [] world).2 ≡ run_each (first_calls [] calls) world
  unfolding stored
  run_all-first_calls calls world = run_from-first_calls calls [] [] world (λ k. refl)

  -- What a cell holds stays.
  run_all-keeps :
      (calls : List (TaskKey × (W → Ran × W))) (cells : HostCoordinator) (world : W) (key : TaskKey)
      (result : Result String HostOutput)
      → stored cells key ≡ some result
      → stored (run_all calls cells world).1 key ≡ some result
  unfolding run_all
  run_all-keeps [] cells world key result e = e
  run_all-keeps ((k, f) ∷ calls) cells world key result e =
      let (r, cells', world') = get_or_run k f cells world in
      run_all-keeps calls cells' world' key result (
        get_or_run-stored k key f cells world ∙ elim (Bool-cases (key_eq k key)) [
          | inl same ↦
              rw same (get_or_run-stays k f cells world result (stored-key_eq cells k key same ∙ e))
          | inr other ↦ rw other e
        ])

  -- Every answer is the one that the final cells hold for its key, so that all calls of a key get
  -- the same answer.
  pub run_all-stored :
      (calls : List (TaskKey × (W → Ran × W))) (cells : HostCoordinator) (world : W)
      → All
          (λ answer. stored (run_all calls cells world).1 answer.0 ≡ some answer.1)
          (run_all calls cells world).0
  unfolding run_all
  run_all-stored [] cells world = tt
  run_all-stored ((key, f) ∷ calls) cells world =
      let (result, cells', world') = get_or_run key f cells world in
      (
        run_all-keeps calls cells' world' key result
            (get_or_run-stored key key f cells world ∙ rw (key_eq_refl key) refl),
        run_all-stored calls cells' world',
      )
