-- ===== src/Engine/Examples.antt =====
-- A rolling run of three hosts, whose second batch loses both of its hosts.
use glidesh.Common.{
  ℕ, Option, ◌≡◌, refl, ◌+◌, String, true, false, none, some, List, [], ◌∷◌, ◌++◌, map, ok, str_eq,
  if◌then◌else◌,
}
use glidesh.Rollout.{count, percent}
use glidesh.Engine.{
  Engine, Joined, finished, panicked, RunSummary, Event, Progress, run, run_batches, run_complete,
}
use glidesh.Engine.Accounts.{Accounts, run_batches-Accounts, run-adds_up}
use glidesh.Engine.Groups.{Group, runs, dies, handle, hosts_run, run_groups, run_groups-adds_up}

abbrev rolling : Engine
rolling = record {
  serial = count 1 ∷ count 2 ∷ [];
  max_fail = none;
  targets = "a" ∷ "b" ∷ "c" ∷ "d" ∷ [];
  dry_run = false;
}

abbrev tolerant : Engine
tolerant = record rolling { max_fail = some (percent 100) }

abbrev only_a_works : String → Joined
only_a_works host =
    if str_eq host "a"
    then finished (record { success = true; total_changed = 2; total_skipped = 1 })
    else panicked "lost"

abbrev numbers : Option (RunSummary × List Event) → List ℕ
numbers (some (s, events)) = s.total_hosts ∷ s.succeeded ∷ s.failed ∷ s.aborted ∷ []
numbers none = []

-- The fourth host is aborted: the batch of `b` and `c` failed as a whole.
rolling_summary : numbers (run rolling only_a_works) ≡ 4 ∷ 1 ∷ 2 ∷ 1 ∷ []
unfolding run
rolling_summary = refl

run_batches-Accounts_example :
    (q : Progress) × (run_batches rolling only_a_works ≡ some q) × Accounts rolling only_a_works q
run_batches-Accounts_example = run_batches-Accounts rolling only_a_works

run-adds_up_example :
    (s : RunSummary) × (events : List Event) × (run rolling only_a_works
      ≡ some (s, events ++ (run_complete s ∷ [])))
    × (s.total_hosts ≡ 4)
    × (s.succeeded + s.failed + s.aborted ≡ s.total_hosts)
run-adds_up_example = run-adds_up rolling only_a_works

abbrev two_groups : List Group
two_groups = runs rolling only_a_works ∷ dies tolerant "lost" ∷ []

run_groups-adds_up_example :
    (s : RunSummary) × (run_groups false (map handle two_groups) ≡ ok s)
    × (s.total_hosts ≡ hosts_run two_groups)
    × (s.succeeded + s.failed + s.aborted ≡ s.total_hosts)
run_groups-adds_up_example = run_groups-adds_up false two_groups
