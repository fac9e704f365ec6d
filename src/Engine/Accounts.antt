-- ===== src/Engine/Accounts.antt =====
-- The run accounts for every host: each is started at most once, in the order of the targets,
-- and the hosts that are not started are the aborted ones.
use glidesh.Common.{
  append_assoc, ℕ, zero, suc, if◌then◌else◌, ◌+◌, ◌≤◌, ◌<◌, ◌≡◌, refl, sym, ◌∙◌, ap, String, Bool,
  true, false, Option, none, some, List, [], ◌∷◌, ◌++◌, map, length, take, drop, count, sum, arith,
  length-append, take-append-drop, count-append, inl, inr, ◌⊎◌, ◌==◌,
}
use glidesh.Rollout.{Amount, percent, batch_sizes}
use glidesh.Rollout.Stop.{full_percent_never_stops}
use glidesh.Rollout.Batches.{Splits, batch_sizes-Splits}
use glidesh.Engine.Rounds.{IsStopped, Rounds, all_batches-Rounds}
use glidesh.Engine.{
  NodeResult, RunSummary, Joined, finished, panicked, Event, Engine, join_host, run_batch,
  has_failed, Progress, one_batch, abort, all_batches, summarize, initial, run_batches, run,
  run_complete,
}

-- The result that is kept for a host.
abbrev pub result_of : Joined → NodeResult
result_of (finished result) = result
result_of (panicked e) = record { success = false; total_changed = 0; total_skipped = 0 }

join_host-result :
    (dry : Bool) (host : String) (j : Joined) → (join_host dry host j).1 ≡ result_of j
unfolding join_host
join_host-result dry host (finished result) = refl
join_host-result dry host (panicked e) = refl

run_batch-results :
    (dry : Bool) (joined : String → Joined) (hosts : List String)
    → (run_batch dry joined hosts).1 ≡ map (λ h. result_of (joined h)) hosts
unfolding run_batch
run_batch-results dry joined [] = refl
run_batch-results dry joined (h ∷ hosts) =
    rw (join_host-result dry h (joined h), run_batch-results dry joined hosts) refl

map-append {ℓ κ} :
    {A : Type ℓ} {B : Type κ} (f : A → B) (xs ys : List A) → map f xs ++ map f ys ≡ map f (xs ++ ys)
map-append f [] ys = refl
map-append f (x ∷ xs) ys = ap (λ l. f x ∷ l) (map-append f xs ys)

-- The hosts `done` ran, in order, and the others are still to come.
pub record HasRun (engine : Engine) (joined : String → Joined) (p : Progress) (done : List String)
    : Type 0 where
  pub split : done ++ p.hosts ≡ engine.targets
  pub results : p.results ≡ map (λ h. result_of (joined h)) done
  pub failed : p.failed ≡ count has_failed p.results

one_batch-HasRun :
    (engine : Engine) (joined : String → Joined) (batches index size : ℕ) (p : Progress)
    (done : List String)
    → HasRun engine joined p done
    → HasRun engine joined
        (one_batch engine joined batches index size p).0
        (done ++ take size p.hosts)
unfolding one_batch
one_batch-HasRun engine joined batches index size p done h = record {
  split =
      rw (append_assoc done (take size p.hosts) (drop size p.hosts), take-append-drop size p.hosts)
        h.split;
  results =
      rw (run_batch-results engine.dry_run joined (take size p.hosts), h.results)
        (map-append (λ h'. result_of (joined h')) done (take size p.hosts));
  failed =
      rw
        (
          count-append has_failed p.results (run_batch engine.dry_run joined (take size p.hosts)).1,
          h.failed,
        )
        refl;
}

-- What the loop over the batches comes to: the hosts that ran, and its rounds, over the sizes that
-- `batch_sizes` gives.
pub record Accounts (engine : Engine) (joined : String → Joined) (q : Progress) : Type 0 where
  pub done : List String
  pub has_run : HasRun engine joined q done
  pub sizes : List ℕ
  pub in_batches : batch_sizes (length engine.targets) engine.serial ≡ some sizes
  pub rounds : Rounds engine 0 [] sizes q

-- Whichever way a round ends.
round-HasRun :
    (engine : Engine) (joined : String → Joined) (is_last : Bool) (stop : Option String)
    (after next : Progress)
    → (done : List String) × HasRun engine joined next done
    → (done : List String) × HasRun engine joined after done
    → (done : List String) × HasRun engine joined
        (if is_last then next else elim stop [ some reason ↦ abort reason after | none ↦ next ])
        done
unfolding abort
round-HasRun engine joined true stop after next go stopped = go
round-HasRun engine joined false none after next go stopped = go
round-HasRun engine joined false (some reason) after next go (done, h) =
    (done, record { split = h.split; results = h.results; failed = h.failed })

all_batches-HasRun :
    (engine : Engine) (joined : String → Joined) (batches index : ℕ) (sizes : List ℕ) (p : Progress)
    (done : List String)
    → HasRun engine joined p done
    → (ran : List String) × HasRun engine joined
        (all_batches engine joined batches index sizes p)
        ran
unfolding all_batches
all_batches-HasRun engine joined batches index [] p done h = (done, h)
all_batches-HasRun engine joined batches index (size ∷ sizes) p done h =
    let after = (one_batch engine joined batches index size p).0 in
    let ran = one_batch-HasRun engine joined batches index size p done h in
    round-HasRun engine joined (suc index == batches) _ after _
      (all_batches-HasRun engine joined batches (suc index) sizes after (done ++ take size p.hosts)
        ran)
      (done ++ take size p.hosts, ran)

sizes-sum :
    (total : ℕ) (serial : List Amount)
    → (size : ℕ) × (sizes : List ℕ) × (batch_sizes total serial ≡ some (size ∷ sizes))
      × (sum (size ∷ sizes) ≡ total)
unfolding batch_sizes
sizes-sum total [] = (total, [], refl, omega arith)
sizes-sum zero (first ∷ rest) = (0, [], refl, refl)
sizes-sum (suc n) (first ∷ rest) =
    Splits-sum _ _ first (first ∷ rest) _ (batch_sizes-Splits (suc n) first rest (omega arith))
      (omega arith)
  where
    Splits-sum :
        (total left : ℕ) (current : Amount) (values : List Amount) (o : Option (List ℕ))
        → Splits total left current values o
        → 0 < left
        → (size : ℕ) × (sizes : List ℕ) × (o ≡ some (size ∷ sizes)) × (sum (size ∷ sizes) ≡ left)
    Splits-sum total left current values none h pos = absurd h
    Splits-sum total left current values (some []) h pos = absurd (omega (arith, h.adds_up, pos))
    Splits-sum total left current values (some (size ∷ sizes)) h pos =
        (size, sizes, refl, h.adds_up)

-- The loop over the batches returns. The hosts that ran are the first targets, in order, each
-- once, with the result of its task. The batches that ran are the first ones of the sizes that
-- `batch_sizes` gives, and for none before the last of them did `stop_reason` give a reason. Either
-- no size is left, every target ran and none is aborted; or sizes are left, `stop_reason` gave a
-- reason for the size and the failures of the last batch and for all the failures, the other
-- targets are the aborted hosts and the last event announces them with that reason.
pub run_batches-Accounts :
    (engine : Engine) (joined : String → Joined)
    → (q : Progress) × (run_batches engine joined ≡ some q) × Accounts engine joined q
unfolding run_batches
run_batches-Accounts engine joined =
    let (size, sizes, e, s) = sizes-sum (length engine.targets) engine.serial in
    let batches = suc (length sizes) in
    let (done, h) =
      all_batches-HasRun engine joined batches 0 (size ∷ sizes) (initial engine) []
        (record { split = refl; results = refl; failed = refl }) in
    (
      all_batches engine joined batches 0 (size ∷ sizes) (initial engine),
      rw (run_batches, e) refl,
      record {
        done = done;
        has_run = h;
        sizes = size ∷ sizes;
        in_batches = e;
        rounds =
            all_batches-Rounds engine joined batches 0 size sizes (initial engine) refl
              (omega arith) s;
      },
    )

count-halves : (rs : List NodeResult) → count (λ r. r.success) rs + count has_failed rs ≡ length rs
count-halves [] = refl
count-halves (r ∷ rs) = ground (arith, count-halves rs)

length-map : (f : String → NodeResult) (xs : List String) → length (map f xs) ≡ length xs
length-map f [] = refl
length-map f (x ∷ xs) = ap suc (length-map f xs)

-- The hosts that the loop never came to are the aborted ones.
pub aborted-Accounts :
    (engine : Engine) (joined : String → Joined) (q : Progress)
    → Accounts engine joined q
    → q.aborted ≡ length q.hosts
aborted-Accounts engine joined q a = go a.rounds.ends
  where
    go :
        ((a.rounds.later ≡ []) × (q.hosts ≡ []) × (q.aborted ≡ 0))
          ⊎ IsStopped engine a.rounds.batch a.rounds.later q
        → q.aborted ≡ length q.hosts
    go (inl (_, none_left, e)) = e ∙ ap length (sym none_left)
    go (inr stopped) = stopped.aborted

-- Every host that ran has a result that counts as a success or as a failure.
pub finished-Accounts :
    (engine : Engine) (joined : String → Joined) (q : Progress) (a : Accounts engine joined q)
    → count (λ r. r.success) q.results + count has_failed q.results ≡ length a.done
finished-Accounts engine joined q a =
    count-halves q.results
    ∙ ap length a.has_run.results
    ∙ length-map (λ x. result_of (joined x)) a.done

all_accounted :
    (engine : Engine) (joined : String → Joined) (q : Progress)
    → Accounts engine joined q
    → length q.results + q.aborted ≡ length engine.targets
all_accounted engine joined q a = omega (
  arith,
  count-halves q.results,
  finished-Accounts engine joined q a,
  ap length a.has_run.split,
  length-append a.done q.hosts,
  aborted-Accounts engine joined q a,
)

-- A run returns a summary in which every target has succeeded, failed or been aborted.
pub run-adds_up :
    (engine : Engine) (joined : String → Joined)
    → (s : RunSummary) × (events : List Event) × (run engine joined
        ≡ some (s, events ++ (run_complete s ∷ [])))
      × (s.total_hosts ≡ length engine.targets)
      × (s.succeeded + s.failed + s.aborted ≡ s.total_hosts)
unfolding run summarize
run-adds_up engine joined =
    let (q, e, a) = run_batches-Accounts engine joined in
    (
      summarize engine q,
      q.events,
      rw (run, e) refl,
      refl,
      omega (arith, count-halves q.results, all_accounted engine joined q a),
    )

count-le-length : (p : NodeResult → Bool) (rs : List NodeResult) → count p rs ≤ length rs
count-le-length p [] = omega arith
count-le-length p (r ∷ rs) = ground (arith, count-le-length p rs)

-- With `max-fail` at 100% or more, no host of a run is aborted.
pub run_batches-full_percent :
    (engine : Engine) (joined : String → Joined) (limit : ℕ)
    → engine.max_fail ≡ some (percent limit)
    → 100 ≤ limit
    → (q : Progress) × (run_batches engine joined ≡ some q) × (q.aborted ≡ 0)
run_batches-full_percent engine joined limit e full =
    let (q, eq, a) = run_batches-Accounts engine joined in (q, eq, none_aborted q a a.rounds.ends)
  where
    none_aborted :
        (q : Progress) (a : Accounts engine joined q)
        → ((a.rounds.later ≡ []) × (q.hosts ≡ []) × (q.aborted ≡ 0))
          ⊎ IsStopped engine a.rounds.batch a.rounds.later q
        → q.aborted ≡ 0
    none_aborted q a (inl (_, _, none_are)) = none_are
    none_aborted q a (inr stopped) =
        let never =
          full_percent_never_stops limit q.failed (length engine.targets) (length a.rounds.batch)
            (count has_failed a.rounds.batch) full
            (omega (
              arith,
              a.has_run.failed,
              count-le-length has_failed q.results,
              all_accounted engine joined q a,
            )) in
        let by_limit = stopped.by_limit in cc
