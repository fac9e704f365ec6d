-- ===== src/Rollout/Batches.antt =====
-- What `batch_sizes` promises: it returns, its sizes add up to the hosts, no batch of a run with
-- hosts is empty, and each batch is as large as the `serial` value at its place asks for.
use glidesh.Common.{
  ℕ, zero, suc, ◌-◌, ◌≤◌, ◌<◌, min, ◌≡◌, refl, Option, none, some, List, [], ◌∷◌, arith, All, sum,
  take, get_elem?,
}
use glidesh.Rollout.{Amount, batch_size, batch_loop, batch_sizes}

batch_size-pos : (total : ℕ) (a : Amount) → 1 ≤ batch_size total a
unfolding batch_size
batch_size-pos total (Amount.count n) = omega arith
batch_size-pos total (Amount.percent p) = omega arith

-- The value that is current in round `i`: the values are used in order and the last repeats.
abbrev pub value_at : Amount → List Amount → ℕ → Amount
value_at current [] i = current
value_at current (next ∷ values) zero = next
value_at current (next ∷ values) (suc i) = value_at next values i

-- A list of sizes for `left` hosts of `total`: positive sizes that add up to `left`, each the
-- `serial` value of its round, cut to the hosts that the batches before it left.
pub record IsSplit (total left : ℕ) (current : Amount) (values : List Amount) (sizes : List ℕ)
    : Type 0 where
  pub adds_up : sum sizes ≡ left
  pub positive : All (λ s. 1 ≤ s) sizes
  pub by_value :
      (i s : ℕ)
      → get_elem? sizes i ≡ some s
      → s ≡ min (batch_size total (value_at current values i)) (left - sum (take i sizes))

abbrev pub Splits : ℕ → ℕ → Amount → List Amount → Option (List ℕ) → Type 0
Splits total left current values none = ⊥
Splits total left current values (some sizes) = IsSplit total left current values sizes

IsSplit-nil :
    (total : ℕ) (current : Amount) (values : List Amount) → IsSplit total 0 current values []
IsSplit-nil total current values = record { adds_up = refl; positive = tt; by_value = λ i s e. cc }

-- One round more, at the value `now` of this round.
Splits-cons :
    (total left size : ℕ) (now current : Amount) (values values' : List Amount)
    (rest : Option (List ℕ))
    → 1 ≤ size
    → size ≤ left
    → size ≡ min (batch_size total now) left
    → value_at current values 0 ≡ now
    → ((i : ℕ) → value_at current values (suc i) ≡ value_at now values' i)
    → Splits total (left - size) now values' rest
    → Splits total left current values
        (elim rest [ none ↦ none | some sizes ↦ some (size ∷ sizes) ])
Splits-cons total left size now current values values' none pos fits e e₀ eₛ h = h
Splits-cons total left size now current values values' (some sizes) pos fits e e₀ eₛ h = record {
  adds_up = omega (arith, h.adds_up);
  positive = (pos, h.positive);
  by_value = at;
}
  where
    at :
        (i s : ℕ)
        → get_elem? (size ∷ sizes) i ≡ some s
        → s
          ≡ min (batch_size total (value_at current values i)) (left - sum (take i (size ∷ sizes)))
    at zero s p = rw e₀ (ground arith)
    at (suc i) s p = rw eₛ (omega (arith, h.by_value i s p))

batch_loop-Splits :
    (fuel total left : ℕ) (current : Amount) (values : List Amount)
    → left ≤ fuel
    → Splits total left current values (batch_loop fuel total left current values)
unfolding batch_loop
batch_loop-Splits zero total zero current values h = IsSplit-nil total current values
batch_loop-Splits zero total (suc left) current values h = absurd (omega arith)
batch_loop-Splits (suc fuel) total zero current values h = IsSplit-nil total current values
batch_loop-Splits (suc fuel) total (suc left) current [] h =
    Splits-cons total (suc left) _ current current [] [] _
      (omega (arith, batch_size-pos total current)) (omega arith) refl refl (λ i. refl)
      (batch_loop-Splits fuel total (suc left - min (batch_size total current) (suc left)) current
        [] (omega (arith, batch_size-pos total current)))
batch_loop-Splits (suc fuel) total (suc left) current (next ∷ values) h =
    Splits-cons total (suc left) _ next current (next ∷ values) values _
      (omega (arith, batch_size-pos total next)) (omega arith) refl refl (λ i. refl)
      (batch_loop-Splits fuel total (suc left - min (batch_size total next) (suc left)) next values
        (omega (arith, batch_size-pos total next)))

-- For a run with hosts and `serial` values, `batch_sizes` returns a list of positive sizes that
-- add up to the hosts, where the batch of round `i` has the size that the value of that round
-- asks for (the last value repeats), cut to the hosts that are left.
pub batch_sizes-Splits :
    (total : ℕ) (first : Amount) (rest : List Amount)
    → 0 < total
    → Splits total total first (first ∷ rest) (batch_sizes total (first ∷ rest))
unfolding batch_sizes
batch_sizes-Splits zero first rest h = absurd (omega arith)
batch_sizes-Splits (suc n) first rest h =
    batch_loop-Splits (suc n) (suc n) (suc n) first (first ∷ rest) (omega arith)
