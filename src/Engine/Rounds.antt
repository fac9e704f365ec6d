-- ===== src/Engine/Rounds.antt =====
-- The rounds of the loop over the batches: which batches a run has, that each but the last gave no
-- reason to stop, and what the last one led to.
use glidesh.Common.{
  append_assoc, ℕ, suc, ◌+◌, ◌≡◌, ◌≢◌, refl, sym, ◌∙◌, ap, String, Bool, Option, none, some, List,
  [], ◌∷◌, ◌++◌, map, length, take, drop, count, sum, arith, length-drop, length-take, inl, inr,
  ◌⊎◌, ◌==◌, ==_iff, if_cases,
}
use glidesh.Rollout.{stop_reason}
use glidesh.Engine.{
  NodeResult, Joined, Event, Engine, run_batch, has_failed, Progress, one_batch, abort, all_batches,
  hosts_aborted,
}

abbrev pub concat : List (List NodeResult) → List NodeResult
concat [] = []
concat (batch ∷ batches) = batch ++ concat batches

-- No batch of a run gives a reason to stop, `failed` hosts having failed before them.
abbrev pub HaveGoneOn : Engine → ℕ → List (List NodeResult) → Type 0
HaveGoneOn engine failed [] = Unit
HaveGoneOn engine failed (batch ∷ batches) =
    (stop_reason engine.max_fail (failed + count has_failed batch) (length engine.targets)
        (length batch) (count has_failed batch)
      ≡ none)
    × HaveGoneOn engine (failed + count has_failed batch) batches

-- The loop was stopped before its end by a reason that `stop_reason` gives for the last batch and
-- for all the failures.
pub record IsStopped (engine : Engine) (batch : List NodeResult) (later : List ℕ) (q : Progress)
    : Type 0 where
  pub reason : String
  pub before : List Event
  pub batches_left : later ≢ []
  pub by_limit :
      stop_reason engine.max_fail q.failed
        (length engine.targets)
        (length batch)
        (count has_failed batch)
      ≡ some reason
  pub announced : q.events ≡ before ++ (hosts_aborted q.hosts reason ∷ [])
  pub aborted : q.aborted ≡ length q.hosts

-- The batches that ran, those of the sizes `sizes` after `failed` failures and `results`.
pub record Rounds (engine : Engine) (failed : ℕ) (results : List NodeResult) (sizes : List ℕ)
    (q : Progress) : Type 0 where
  pub earlier : List (List NodeResult)
  pub batch : List NodeResult
  pub later : List ℕ
  pub in_sizes : sizes ≡ map length earlier ++ (length batch ∷ later)
  pub in_results : q.results ≡ results ++ (concat earlier ++ batch)
  pub went_on : HaveGoneOn engine failed earlier
  pub ends : ((later ≡ []) × (q.hosts ≡ []) × (q.aborted ≡ 0)) ⊎ IsStopped engine batch later q

empty_of_length : (hosts : List String) → 0 ≡ length hosts → hosts ≡ []
empty_of_length [] e = refl
empty_of_length (h ∷ hosts) e = absurd (omega (arith, e))

length-run_batch :
    (dry : Bool) (joined : String → Joined) (hosts : List String)
    → length (run_batch dry joined hosts).1 ≡ length hosts
unfolding run_batch
length-run_batch dry joined [] = refl
length-run_batch dry joined (h ∷ hosts) = ap suc (length-run_batch dry joined hosts)

module _ (engine : Engine) (joined : String → Joined) (batches : ℕ) where
  abbrev batch_of : ℕ → Progress → List NodeResult
  batch_of size p = (run_batch engine.dry_run joined (take size p.hosts)).1

  length-batch_of :
      (size : ℕ) (sizes : List ℕ) (p : Progress)
      → sum (size ∷ sizes) ≡ length p.hosts
      → length (batch_of size p) ≡ size
  length-batch_of size sizes p s = omega (
    arith,
    length-run_batch engine.dry_run joined (take size p.hosts),
    length-take size p.hosts,
    s,
  )

  abbrev after : ℕ → ℕ → Progress → Progress
  after index size p = (one_batch engine joined batches index size p).0

  -- The last batch of all.
  last-Rounds :
      (index size : ℕ) (p : Progress)
      → p.aborted ≡ 0
      → size + 0 ≡ length p.hosts
      → Rounds engine p.failed p.results (size ∷ []) (after index size p)
  unfolding one_batch
  last-Rounds index size p a s = record {
    earlier = [];
    batch = batch_of size p;
    later = [];
    in_sizes = ap (λ n. n ∷ []) (sym (length-batch_of size [] p s));
    in_results = refl;
    went_on = tt;
    ends =
        inl (
          refl,
          empty_of_length (drop size p.hosts) (omega (arith, length-drop size p.hosts, s)),
          a,
        );
  }

  -- A batch after which the loop goes on.
  next-Rounds :
      (index size next : ℕ) (sizes : List ℕ) (p q : Progress)
      → sum (size ∷ next ∷ sizes) ≡ length p.hosts
      → stop_reason engine.max_fail
          (p.failed + count has_failed (batch_of size p))
          (length engine.targets)
          size
          (count has_failed (batch_of size p))
        ≡ none
      → Rounds engine
          (p.failed + count has_failed (batch_of size p))
          (p.results ++ batch_of size p)
          (next ∷ sizes)
          q
      → Rounds engine p.failed p.results (size ∷ next ∷ sizes) q
  next-Rounds index size next sizes p q s none_yet h = record {
    earlier = batch_of size p ∷ h.earlier;
    batch = h.batch;
    later = h.later;
    in_sizes = rw (length-batch_of size (next ∷ sizes) p s) (ap (λ l. size ∷ l) h.in_sizes);
    in_results =
        h.in_results
        ∙ append_assoc p.results (batch_of size p) (concat h.earlier ++ h.batch)
        ∙ ap (λ l. p.results ++ l)
            (sym (append_assoc (batch_of size p) (concat h.earlier) h.batch));
    went_on = (rw (length-batch_of size (next ∷ sizes) p s) none_yet, h.went_on);
    ends = h.ends;
  }

  -- A batch that stops the loop.
  stop-Rounds :
      (index size next : ℕ) (sizes : List ℕ) (p : Progress) (reason : String)
      → sum (size ∷ next ∷ sizes) ≡ length p.hosts
      → stop_reason engine.max_fail
          (p.failed + count has_failed (batch_of size p))
          (length engine.targets)
          size
          (count has_failed (batch_of size p))
        ≡ some reason
      → Rounds engine p.failed p.results (size ∷ next ∷ sizes) (abort reason (after index size p))
  unfolding one_batch abort
  stop-Rounds index size next sizes p reason s stop = record {
    earlier = [];
    batch = batch_of size p;
    later = next ∷ sizes;
    in_sizes = ap (λ n. n ∷ next ∷ sizes) (sym (length-batch_of size (next ∷ sizes) p s));
    in_results = refl;
    went_on = tt;
    ends = inr (record {
      reason = reason;
      before = (after index size p).events;
      batches_left = λ e. cc e;
      by_limit = rw (length-batch_of size (next ∷ sizes) p s) stop;
      announced = refl;
      aborted = refl;
    });
  }

  abbrev stop_after : ℕ → Progress → Option String
  stop_after size p =
      stop_reason engine.max_fail (p.failed + count has_failed (batch_of size p))
        (length engine.targets) size (count has_failed (batch_of size p))

  -- Whichever way a batch ends.
  batch-Rounds :
      (index size next : ℕ) (sizes : List ℕ) (p rest : Progress)
      → sum (size ∷ next ∷ sizes) ≡ length p.hosts
      → Rounds engine
          (p.failed + count has_failed (batch_of size p))
          (p.results ++ batch_of size p)
          (next ∷ sizes)
          rest
      → Rounds engine p.failed p.results (size ∷ next ∷ sizes) (elim (stop_after size p) [
        | some reason ↦ abort reason (after index size p)
        | none ↦ rest
      ])
  batch-Rounds index size next sizes p rest s h = go (stop_after size p) refl
    where
      go :
          (stop : Option String)
          → stop_after size p ≡ stop
          → Rounds engine p.failed p.results
              (size ∷ next ∷ sizes)
              (elim stop [ some reason ↦ abort reason (after index size p) | none ↦ rest ])
      go none e = next-Rounds index size next sizes p rest s e h
      go (some reason) e = stop-Rounds index size next sizes p reason s e

  pub all_batches-Rounds :
      (index size : ℕ) (sizes : List ℕ) (p : Progress)
      → p.aborted ≡ 0
      → batches ≡ index + suc (length sizes)
      → sum (size ∷ sizes) ≡ length p.hosts
      → Rounds engine p.failed p.results
          (size ∷ sizes)
          (all_batches engine joined batches index (size ∷ sizes) p)
  unfolding all_batches one_batch
  all_batches-Rounds index size [] p a b s =
      rw ((==_iff (suc index) batches).1 (omega (arith, b))) (last-Rounds index size p a s)
  all_batches-Rounds index size (next ∷ sizes) p a b s =
      let h =
        all_batches-Rounds (suc index) next sizes (after index size p) a (omega (arith, b))
          (omega (arith, length-drop size p.hosts, s)) in
      if_cases (Rounds engine p.failed p.results (size ∷ next ∷ sizes)) (suc index == batches) _ _
        (λ e. absurd (omega (arith, b, (==_iff (suc index) batches).0 e)))
        (λ _. batch-Rounds index size next sizes p _ s h)
