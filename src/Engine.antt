-- ===== src/Engine.antt =====
-- executor/engine.rs, the part that plans a run: `Engine::run` with its batches, the joining of
-- the host tasks in `run_batch`, and `run` over several groups; `NodeResult` and `RunSummary` are
-- of executor/result.rs. What a host's task does is the parameter `joined`, the outcome of its
-- handle; the events that the tasks send themselves are not among those here.
pub mod Rounds
pub mod Accounts
pub mod Groups
mod Examples
use glidesh.Common.{
  ℕ, suc, ◌+◌, String, Bool, true, false, not, ◌&&◌, Option, none, some, List, [], ◌∷◌, ◌++◌, ltb,
  ◌==◌, if◌then◌else◌, length, take, drop, count, sum_of, fmt,
}
use glidesh.Rollout.{Amount, batch_sizes, stop_reason}

pub record NodeResult : Type 0 where
  pub success : Bool
  pub total_changed : ℕ
  pub total_skipped : ℕ

pub record RunSummary : Type 0 where
  pub total_hosts : ℕ
  pub succeeded : ℕ
  pub failed : ℕ
  pub total_changed : ℕ
  pub total_skipped : ℕ
  pub aborted : ℕ
  pub dry_run : Bool

-- What a joined task gives: the runner's result, or the text of its panic.
pub data Joined : Type 0 where
  finished : NodeResult → Joined
  panicked : String → Joined

pub data Event : Type 0 where
  batch_started : ℕ → ℕ → List String → Event
  module_failed : String → String → String → String → Event
  node_complete : String → Bool → ℕ → ℕ → Bool → Event
  hosts_aborted : List String → String → Event
  run_complete : RunSummary → Event

-- The settings of a run that the engine itself reads.
pub record Engine : Type 0 where
  pub serial : List Amount
  pub max_fail : Option Amount
  pub targets : List String
  pub dry_run : Bool

-- A round of the loop over the handles: the events it sends and the result it keeps.
unfoldable pub join_host : Bool → String → Joined → List Event × NodeResult
unfolding fmt
join_host dry host (finished result) = ([], result)
join_host dry host (panicked e) = (
  module_failed host "glidesh" "" (fmt ("internal error: " ∷ e ∷ []))
      ∷ node_complete host false 0 0 dry
      ∷ [],
  record { success = false; total_changed = 0; total_skipped = 0 },
)

unfoldable pub run_batch : Bool → (String → Joined) → List String → List Event × List NodeResult
run_batch dry joined [] = ([], [])
run_batch dry joined (host ∷ hosts) =
    let (events, result) = join_host dry host (joined host) in
    let (later, results) = run_batch dry joined hosts in (events ++ later, result ∷ results)

abbrev pub has_failed : NodeResult → Bool
has_failed r = not r.success

-- The variables of `Engine::run`.
pub record Progress : Type 0 where
  pub hosts : List String
  pub results : List NodeResult
  pub failed : ℕ
  pub aborted : ℕ
  pub events : List Event

-- A round of `for (index, &size) in sizes.iter().enumerate()`, up to the results of its batch.
unfoldable pub one_batch : Engine → (String → Joined) → ℕ → ℕ → ℕ → Progress → Progress × ℕ
one_batch engine joined batches index size p =
    let batch = take size p.hosts in
    let started = if ltb 1 batches then batch_started index batches batch ∷ [] else [] in
    let (events, batch_results) = run_batch engine.dry_run joined batch in
    let batch_failed = count has_failed batch_results in
    (
      record {
        hosts = drop size p.hosts;
        results = p.results ++ batch_results;
        failed = p.failed + batch_failed;
        aborted = p.aborted;
        events = p.events ++ (started ++ events);
      },
      batch_failed,
    )

-- The loop stopped for `reason`.
unfoldable pub abort : String → Progress → Progress
abort reason p = record p {
  aborted = length p.hosts;
  events = p.events ++ (hosts_aborted p.hosts reason ∷ []);
}

unfoldable pub all_batches : Engine → (String → Joined) → ℕ → ℕ → List ℕ → Progress → Progress
all_batches engine joined batches index [] p = p
all_batches engine joined batches index (size ∷ sizes) p =
    let (after, batch_failed) = one_batch engine joined batches index size p in
    let next = all_batches engine joined batches (suc index) sizes after in
    if suc index == batches
    then next
    else elim (stop_reason engine.max_fail after.failed (length engine.targets) size batch_failed) [
      | some reason ↦ abort reason after
      | none ↦ next
    ]

unfoldable pub summarize : Engine → Progress → RunSummary
summarize engine p = record {
  total_hosts = length engine.targets;
  succeeded = count (λ r. r.success) p.results;
  failed = count has_failed p.results;
  total_changed = sum_of (λ r. r.total_changed) p.results;
  total_skipped = sum_of (λ r. r.total_skipped) p.results;
  aborted = p.aborted;
  dry_run = engine.dry_run;
}

abbrev pub initial : Engine → Progress
initial engine = record {
  hosts = engine.targets;
  results = [];
  failed = 0;
  aborted = 0;
  events = [];
}

-- The loop over the batches; `none` is `batch_sizes` out of fuel.
unfoldable pub run_batches : Engine → (String → Joined) → Option Progress
unfolding batch_sizes
run_batches engine joined = elim (batch_sizes (length engine.targets) engine.serial) [
  | none ↦ none
  | some sizes ↦ some (all_batches engine joined (length sizes) 0 sizes (initial engine))
]

-- `Engine::run`: the summary, and the events up to `RunComplete`.
unfoldable pub run : Engine → (String → Joined) → Option (RunSummary × List Event)
unfolding run_batches summarize all_batches one_batch run_batch join_host abort stop_reason
run engine joined = elim (run_batches engine joined) [
  | none ↦ none
  | some p ↦
      let summary = summarize engine p in some (summary, p.events ++ (run_complete summary ∷ []))
]
