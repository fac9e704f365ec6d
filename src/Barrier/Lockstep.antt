-- ===== src/Barrier/Lockstep.antt =====
-- Hosts that do not abandon a wait move through the steps together.
use glidesh.Common.{
  ℕ, zero, suc, ◌+◌, ◌≤◌, ◌≡◌, refl, ◌≢◌, ◌⊎◌, inl, inr, some, List, [], ◌∷◌, arith, get_elem?, set,
  count, All, one, Option-cases, All-get, All-set, All-replicate,
}
use glidesh.Barrier.{
  SeatStatus, seated, waiting, left, Place, away, inside, gone, Seat, State, Action, arrives, wakes,
  leaves, abandons, act, System, start, perform, run,
}
use glidesh.Barrier.Seats.{takes_part, waits, seat_at}
use glidesh.Barrier.Counts.{
  IsCounted, perform-some, perform-none, after-Follows, start-IsCounted, perform-IsCounted,
}

-- At generation `gen` a running host has passed `gen` times, and a waiting one has passed as often
-- as there were releases before its wait, of which at most the last is past.
abbrev CalmAt : ℕ → Place → SeatStatus → ℕ → Type 0
CalmAt gen away status passed = (status ≡ seated) × (passed ≡ gen)
CalmAt gen (inside g) status passed =
    (status ≡ waiting g) × (passed ≡ g) × ((g ≡ gen) ⊎ (g + 1 ≡ gen))
CalmAt gen gone status passed = status ≡ left

abbrev pub IsCalm : ℕ → Seat → Type 0
IsCalm gen seat = CalmAt gen seat.place seat.status seat.passed

act-IsCalm :
    (a : Action) (place : Place) (status : SeatStatus) (passed : ℕ) (s : State)
    → a ≢ abandons
    → IsCalm s.generation (seat_at status place passed)
    → IsCalm
        (act a place (seat_at status place passed) s).1.generation
        (act a place (seat_at status place passed) s).0
unfolding act
act-IsCalm arrives away seated n s q h = ground arith
act-IsCalm arrives away (waiting g) n s q h = ground arith
act-IsCalm arrives away left n s q h = ground arith
act-IsCalm wakes (inside g) seated n s q h = ground arith
act-IsCalm wakes (inside g) (waiting j) n s q h = ground arith
act-IsCalm wakes (inside g) left n s q h = ground arith
act-IsCalm leaves away seated n s q h = ground arith
act-IsCalm leaves away (waiting g) n s q h = ground arith
act-IsCalm leaves away left n s q h = ground arith
act-IsCalm leaves (inside _) seated n s q h = ground arith
act-IsCalm leaves (inside _) (waiting g) n s q h = ground arith
act-IsCalm leaves (inside _) left n s q h = ground arith
act-IsCalm abandons place status n s q h = absurd (q refl)
act-IsCalm _ _ status n s q h = ground arith

-- A calm seat that is counted as waiting takes part.
waits-le :
    (gen : ℕ) (place : Place) (status : SeatStatus) (passed : ℕ)
    → CalmAt gen place status passed
    → one (waits gen (seat_at status place passed)) ≤ one (takes_part (seat_at status place passed))
waits-le gen place seated n h = omega arith
waits-le gen place (waiting g) n h = ground arith
waits-le gen away left n h = ground arith
waits-le gen (inside g) left n h = ground arith
waits-le gen gone left n h = ground arith

-- One that waits if it takes part is calm at the next generation too.
IsCalm-next :
    (gen : ℕ) (place : Place) (status : SeatStatus) (passed : ℕ)
    → CalmAt gen place status passed
    → one (takes_part (seat_at status place passed)) ≤ one (waits gen (seat_at status place passed))
    → CalmAt (gen + 1) place status passed
IsCalm-next gen away seated n h k = ground arith
IsCalm-next gen away (waiting g) n h k = ground arith
IsCalm-next gen away left n h k = ground arith
IsCalm-next gen (inside g) seated n h k = ground arith
IsCalm-next gen (inside g) (waiting j) n h k = ground arith
IsCalm-next gen (inside g) left n h k = ground arith
IsCalm-next gen gone status n h k = h

module _ (gen : ℕ) where
  waits-le-takes_part :
      (seats : List Seat)
      → All (IsCalm gen) seats
      → count (waits gen) seats ≤ count takes_part seats
  waits-le-takes_part [] h = omega arith
  waits-le-takes_part (x ∷ xs) h =
      ground (arith, waits-le gen x.place x.status x.passed h.0, waits-le-takes_part xs h.1)

  seats_released :
      (seats : List Seat)
      → All (IsCalm gen) seats
      → count takes_part seats ≤ count (waits gen) seats
      → All (IsCalm (gen + 1)) seats
  seats_released [] h k = tt
  seats_released (x ∷ xs) h k = (
    IsCalm-next gen x.place x.status x.passed h.0 (ground (arith, waits-le-takes_part xs h.1)),
    seats_released xs h.1 (ground (arith, waits-le gen x.place x.status x.passed h.0)),
  )

  -- The same two facts for the seats other than `i`, where `seat` stands.
  others_le :
      (seats : List Seat) (i : ℕ) (seat : Seat)
      → get_elem? seats i ≡ some seat
      → All (IsCalm gen) seats
      → count (waits gen) seats + one (takes_part seat)
        ≤ count takes_part seats + one (waits gen seat)
  others_le [] i seat e h = cc
  others_le (x ∷ xs) zero seat e h = ground (arith, waits-le-takes_part xs h.1)
  others_le (x ∷ xs) (suc i) seat e h =
      ground (arith, waits-le gen x.place x.status x.passed h.0, others_le xs i seat e h.1)

  others_released :
      (seats : List Seat) (i : ℕ) (seat seat' : Seat)
      → get_elem? seats i ≡ some seat
      → All (IsCalm gen) seats
      → count takes_part seats + one (waits gen seat)
        ≤ count (waits gen) seats + one (takes_part seat)
      → IsCalm (gen + 1) seat'
      → All (IsCalm (gen + 1)) (set seats i seat')
  others_released [] i seat seat' e h k c = tt
  others_released (x ∷ xs) zero seat seat' e h k c = (c, seats_released xs h.1 (ground arith))
  others_released (x ∷ xs) (suc i) seat seat' e h k c = (
    IsCalm-next gen x.place x.status x.passed h.0 (ground (arith, others_le xs i seat e h.1)),
    others_released xs i seat seat' e h.1
        (ground (arith, waits-le gen x.place x.status x.passed h.0)) c,
  )

module _ (sys : System) (i : ℕ) (a : Action) (seat : Seat) (c : IsCounted sys)
    (e : get_elem? sys.seats i ≡ some seat) (q : a ≢ abandons)
    (h : All (IsCalm sys.state.generation) sys.seats) where
  abbrev gen : ℕ
  gen = sys.state.generation

  abbrev gen' : ℕ
  gen' = (act a seat.place seat sys.state).1.generation

  abbrev seat' : Seat
  seat' = (act a seat.place seat sys.state).0

  seat'-IsCalm : IsCalm gen' seat'
  seat'-IsCalm =
      act-IsCalm a seat.place seat.status seat.passed sys.state q
        (All-get (IsCalm gen) sys.seats i seat h e)

  after-IsCalm : All (IsCalm gen') (set sys.seats i seat')
  after-IsCalm = elim (after-Follows sys i a seat c e) [
    | inl same ↦ rw same.0 (All-set (IsCalm gen) sys.seats i seat' h (rw same.0 at seat'-IsCalm))
    | inr next ↦ rw next.0 (
        others_released gen sys.seats i seat seat' e h
          (omega (arith, next.4, c.participants, c.arrived)) (rw next.0 at seat'-IsCalm))
  ]

perform-IsCalm :
    (sys : System) (i : ℕ) (a : Action)
    → IsCounted sys
    → a ≢ abandons
    → All (IsCalm sys.state.generation) sys.seats
    → All (IsCalm (perform sys (i, a)).state.generation) (perform sys (i, a)).seats
perform-IsCalm sys i a c q h = elim (Option-cases (get_elem? sys.seats i)) [
  | inl e ↦ rw (perform-none sys i a e) h
  | inr (seat, e) ↦ rw (perform-some sys i a seat e) (after-IsCalm sys i a seat c e q h)
]

-- A schedule in which no wait is abandoned.
abbrev pub IsSteady : List (ℕ × Action) → Type 0
IsSteady = All (λ m. m.1 ≢ abandons)

run_from-IsCalm :
    (sys : System) (moves : List (ℕ × Action))
    → IsSteady moves
    → IsCounted sys
    → All (IsCalm sys.state.generation) sys.seats
    → All (IsCalm (run sys moves).state.generation) (run sys moves).seats
unfolding run
run_from-IsCalm sys [] q c h = h
run_from-IsCalm sys ((i, a) ∷ moves) q c h =
    run_from-IsCalm (perform sys (i, a)) moves q.1 (perform-IsCounted sys (i, a) c)
      (perform-IsCalm sys i a c q.0 h)

start-IsCalm : (n : ℕ) → All (IsCalm (start n).state.generation) (start n).seats
unfolding start
start-IsCalm n = All-replicate (IsCalm 0) n _ (refl, refl)

-- The calls of `arrive` that a host has made.
abbrev pub arrivals : Seat → ℕ
arrivals seat = elim seat.place [ inside g ↦ seat.passed + 1 | _ ↦ seat.passed ]

calm_lockstep :
    (gen : ℕ) (p : Place) (s : SeatStatus) (n : ℕ) (p' : Place) (s' : SeatStatus) (n' : ℕ)
    → CalmAt gen p s n
    → CalmAt gen p' s' n'
    → p ≡ away
    → p' ≢ gone
    → (n ≤ arrivals (seat_at s' p' n')) × (n' ≤ n)
calm_lockstep gen p s n away s' n' h h' a g = ground arith
calm_lockstep gen p s n (inside _) s' n' h h' a g = ground arith
calm_lockstep gen p s n gone s' n' h h' a g = absurd (g refl)

-- After any schedule without abandoned waits: when host `i` runs, having passed the barrier some
-- number of times, each host `j` that has not left has arrived at least as often, so it has
-- finished the step before; and it has not passed more often.
pub run-lockstep :
    (n : ℕ) (moves : List (ℕ × Action)) (i j : ℕ) (x y : Seat)
    → IsSteady moves
    → get_elem? (run (start n) moves).seats i ≡ some x
    → get_elem? (run (start n) moves).seats j ≡ some y
    → x.place ≡ away
    → y.place ≢ gone
    → (x.passed ≤ arrivals y) × (y.passed ≤ x.passed)
run-lockstep n moves i j x y q ex ey a g =
    calm_lockstep gen x.place x.status x.passed y.place y.status y.passed
      (All-get (IsCalm gen) seats i x calm ex) (All-get (IsCalm gen) seats j y calm ey) a g
  where
    gen : ℕ
    gen = (run (start n) moves).state.generation

    seats : List Seat
    seats = (run (start n) moves).seats

    calm : All (IsCalm gen) seats
    calm = run_from-IsCalm (start n) moves q (start-IsCounted n) (start-IsCalm n)
