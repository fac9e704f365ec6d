-- ===== src/Barrier/Counts.antt =====
-- What the barrier's counters say of the seats, under every schedule, abandoned waits included.
use glidesh.Common.{
  ℕ, ◌+◌, ◌≤◌, ◌<◌, ◌≡◌, refl, sym, ◌⊎◌, inl, inr, false, none, some, List, [], ◌∷◌, arith,
  get_elem?, set, count, All, Option-cases, count-set, one-le-count, All-get, All-set, All-map,
  All-replicate, count-replicate, count-none,
}
use glidesh.Barrier.{
  State, SeatStatus, seated, waiting, left, Seat, waits_for, Action, act, System, start, perform,
  run,
}
use glidesh.Barrier.Seats.{
  takes_part, waits, IsSane, SaneStatus, Bounds, Follows, act-Follows, act-IsSane,
}

-- The counters agree with the seats, and the barrier never rests complete: while a seat waits
-- for the current generation, one that takes part has not arrived.
pub record IsCounted (sys : System) : Type 0 where
  pub participants : sys.state.participants ≡ count takes_part sys.seats
  pub arrived : sys.state.arrived ≡ count (waits sys.state.generation) sys.seats
  pub held : (sys.state.arrived ≡ 0) ⊎ (sys.state.arrived < sys.state.participants)
  pub sane : All (IsSane sys.state.generation) sys.seats

-- The system after seat `i` acts.
abbrev pub after : System → ℕ → Action → Seat → System
after sys i a seat = record {
  state = (act a seat.place seat sys.state).1;
  seats = set sys.seats i (act a seat.place seat sys.state).0;
}

pub perform-some :
    (sys : System) (i : ℕ) (a : Action) (seat : Seat)
    → get_elem? sys.seats i ≡ some seat
    → perform sys (i, a) ≡ after sys i a seat
unfolding perform
perform-some sys i a seat e = rw (e, perform)

pub perform-none :
    (sys : System) (i : ℕ) (a : Action) → get_elem? sys.seats i ≡ none → perform sys (i, a) ≡ sys
unfolding perform
perform-none sys i a e = rw (e, perform)

SaneStatus-le : (g h : ℕ) (status : SeatStatus) → g ≤ h → SaneStatus g status → SaneStatus h status
SaneStatus-le g h seated le s = tt
SaneStatus-le g h (waiting j) le s = omega arith
SaneStatus-le g h left le s = tt

waits_next :
    (generation : ℕ) (status : SeatStatus)
    → SaneStatus generation status
    → waits_for (generation + 1) status ≡ false
waits_next generation seated h = refl
waits_next generation (waiting g) h = ground arith
waits_next generation left h = refl

-- No seat waits for the generation to come.
none_waits_next :
    (generation : ℕ) (seats : List Seat)
    → All (IsSane generation) seats
    → count (waits (generation + 1)) seats ≡ 0
none_waits_next generation seats h = count-none (waits (generation + 1)) seats (
    All-map (IsSane generation) (λ seat. waits (generation + 1) seat ≡ false)
      (λ seat k. waits_next generation seat.status k.0) seats h)

module _ (sys : System) (i : ℕ) (a : Action) (seat : Seat) (c : IsCounted sys)
    (e : get_elem? sys.seats i ≡ some seat) where
  abbrev s : State
  s = sys.state

  abbrev s' : State
  s' = (act a seat.place seat s).1

  abbrev seat' : Seat
  seat' = (act a seat.place seat s).0

  seat-IsSane : IsSane s.generation seat
  seat-IsSane = All-get (IsSane s.generation) sys.seats i seat c.sane e

  seat-Bounds : Bounds s seat
  seat-Bounds = (
    omega (arith, c.arrived, one-le-count (waits s.generation) sys.seats i seat e),
    omega (arith, c.participants, one-le-count takes_part sys.seats i seat e),
    c.held,
  )

  pub after-Follows : Follows s s' seat seat'
  after-Follows = act-Follows a seat.place seat.status seat.passed s seat-IsSane seat-Bounds

  grows : s.generation ≤ s'.generation
  grows = omega (arith, after-Follows)

  after-IsSane : All (IsSane s'.generation) (set sys.seats i seat')
  after-IsSane =
      All-set (IsSane s'.generation) sys.seats i seat'
        (All-map (IsSane s.generation) (IsSane s'.generation)
          (λ x h. (SaneStatus-le s.generation s'.generation x.status grows h.0, h.1)) sys.seats
          c.sane)
        (act-IsSane a seat.place seat.status seat.passed s seat-IsSane)

  after_participants : s'.participants ≡ count takes_part (set sys.seats i seat')
  after_participants =
      omega (arith, after-Follows, c.participants, count-set takes_part sys.seats i seat seat' e)

  -- The count of waiting seats, at whichever generation the action leaves.
  after_arrived : s'.arrived ≡ count (waits s'.generation) (set sys.seats i seat')
  after_arrived = elim after-Follows [
    | inl same ↦
        rw same.0 (
          omega (arith, same.1, c.arrived, count-set (waits s.generation) sys.seats i seat seat' e))
    | inr next ↦ rw next.0 (
        ground (
          arith,
          next.1,
          next.2,
          none_waits_next s.generation sys.seats c.sane,
          count-set (waits (s.generation + 1)) sys.seats i seat seat' e,
        ))
  ]

  pub after-IsCounted : IsCounted (after sys i a seat)
  after-IsCounted = record {
    participants = after_participants;
    arrived = after_arrived;
    held = omega (arith, after-Follows);
    sane = after-IsSane;
  }

pub perform-IsCounted :
    (sys : System) (move : ℕ × Action) → IsCounted sys → IsCounted (perform sys move)
perform-IsCounted sys (i, a) c = elim (Option-cases (get_elem? sys.seats i)) [
  | inl e ↦ rw (perform-none sys i a e) c
  | inr (seat, e) ↦ rw (perform-some sys i a seat e) (after-IsCounted sys i a seat c e)
]

pub start-IsCounted : (n : ℕ) → IsCounted (start n)
unfolding start
start-IsCounted n = record {
  participants = sym (count-replicate takes_part n _ refl);
  arrived = sym (count-none (waits 0) _ (All-replicate (λ x. waits 0 x ≡ false) n _ refl));
  held = inl refl;
  sane = All-replicate (IsSane 0) n _ (tt, refl);
}

run_from-IsCounted :
    (sys : System) (moves : List (ℕ × Action)) → IsCounted sys → IsCounted (run sys moves)
unfolding run
run_from-IsCounted sys [] c = c
run_from-IsCounted sys (m ∷ moves) c =
    run_from-IsCounted (perform sys m) moves (perform-IsCounted sys m c)

-- After any schedule of arrivals, wake-ups, departures and abandoned waits, `participants` counts
-- the seats that have not left, `arrived` those that wait for the current generation, and either
-- none has arrived or fewer than take part.
pub run-IsCounted : (n : ℕ) (moves : List (ℕ × Action)) → IsCounted (run (start n) moves)
run-IsCounted n moves = run_from-IsCounted (start n) moves (start-IsCounted n)
