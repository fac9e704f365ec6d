-- ===== src/Engine/Groups.antt =====
-- `run` of executor/engine.rs: the summaries of the groups added up.
use glidesh.Common.{
  ℕ, ◌+◌, ◌≡◌, refl, String, Bool, Option, none, some, List, [], ◌∷◌, map, length, arith, Result,
  ok, err, GlideshError,
}
use glidesh.Engine.{RunSummary, Event, Engine, Joined, run}
use glidesh.Engine.Accounts.{run-adds_up}

-- What the handle of a group's task gives.
pub data GroupJoined : Type 0 where
  completed : RunSummary → GroupJoined
  failed_with : GlideshError → GroupJoined
  panicked : String → GroupJoined

-- `total_hosts += summary.total_hosts` and the other totals.
unfoldable pub add_summary : RunSummary → RunSummary → RunSummary
add_summary total s = record {
  total_hosts = total.total_hosts + s.total_hosts;
  succeeded = total.succeeded + s.succeeded;
  failed = total.failed + s.failed;
  total_changed = total.total_changed + s.total_changed;
  total_skipped = total.total_skipped + s.total_skipped;
  aborted = total.aborted + s.aborted;
  dry_run = total.dry_run;
}

-- `for handle in group_handles`: the first group that failed ends it, a panic is passed over.
unfoldable pub join_groups : RunSummary → List GroupJoined → Result GlideshError RunSummary
join_groups total [] = ok total
join_groups total (completed s ∷ groups) = join_groups (add_summary total s) groups
join_groups total (failed_with e ∷ groups) = err e
join_groups total (panicked e ∷ groups) = join_groups total groups

abbrev no_hosts : Bool → RunSummary
no_hosts dry = record {
  total_hosts = 0;
  succeeded = 0;
  failed = 0;
  total_changed = 0;
  total_skipped = 0;
  aborted = 0;
  dry_run = dry;
}

unfoldable pub run_groups : Bool → List GroupJoined → Result GlideshError RunSummary
unfolding join_groups add_summary
run_groups dry groups = join_groups (no_hosts dry) groups

-- A group whose task runs its engine to the end, and one whose task panics on the way.
pub data Group : Type 0 where
  runs : Engine → (String → Joined) → Group
  dies : Engine → String → Group

abbrev of_run : Option (RunSummary × List Event) → GroupJoined
of_run (some (s, events)) = completed s
of_run none = panicked "no result"

abbrev pub handle : Group → GroupJoined
handle (runs engine joined) = of_run (run engine joined)
handle (dies engine message) = panicked message

-- The hosts of the groups that ran.
abbrev pub hosts_run : List Group → ℕ
hosts_run [] = 0
hosts_run (runs engine joined ∷ groups) = length engine.targets + hosts_run groups
hosts_run (dies engine message ∷ groups) = hosts_run groups

join_groups-adds_up :
    (total : RunSummary) (groups : List Group)
    → total.succeeded + total.failed + total.aborted ≡ total.total_hosts
    → (s : RunSummary) × (join_groups total (map handle groups) ≡ ok s)
      × (s.total_hosts ≡ total.total_hosts + hosts_run groups)
      × (s.succeeded + s.failed + s.aborted ≡ s.total_hosts)
unfolding join_groups add_summary
join_groups-adds_up total [] h = (total, refl, omega arith, h)
join_groups-adds_up total (dies engine message ∷ groups) h = join_groups-adds_up total groups h
join_groups-adds_up total (runs engine joined ∷ groups) h =
    let (s, events, e, hosts, adds) = run-adds_up engine joined in
    let (t, e', hosts', adds') =
      join_groups-adds_up (add_summary total s) groups (omega (arith, h, adds)) in
    (t, rw (join_groups, e) e', omega (arith, hosts, hosts'), adds')

-- A run over several groups returns a summary in which every host of the groups whose task did
-- not panic has succeeded, failed or been aborted; the hosts of a group whose task panicked are
-- in no number of it.
pub run_groups-adds_up :
    (dry : Bool) (groups : List Group)
    → (s : RunSummary) × (run_groups dry (map handle groups) ≡ ok s)
      × (s.total_hosts ≡ hosts_run groups)
      × (s.succeeded + s.failed + s.aborted ≡ s.total_hosts)
unfolding run_groups
run_groups-adds_up dry groups =
    let (s, e, hosts, adds) = join_groups-adds_up (no_hosts dry) groups refl in
    (s, e, omega (arith, hosts), adds)
