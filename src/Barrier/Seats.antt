-- ===== src/Barrier/Seats.antt =====
-- One action on one seat: what it does to the counters, and the shape that it keeps.
use glidesh.Common.{ℕ, ◌+◌, ◌≤◌, ◌<◌, ◌≡◌, ◌⊎◌, Bool, true, false, not, arith, one}
use glidesh.Barrier.{
  State, SeatStatus, seated, waiting, left, Place, away, inside, gone, Seat, waits_for, Action,
  arrives, wakes, leaves, act,
}

abbrev pub has_left : SeatStatus → Bool
has_left left = true
has_left _ = false

-- Counted in `participants`.
abbrev pub takes_part : Seat → Bool
takes_part seat = not (has_left seat.status)

-- Counted in `arrived` at a generation.
abbrev pub waits : ℕ → Seat → Bool
waits generation seat = waits_for generation seat.status

-- A seat waits for no generation to come, a task in the wait loop for the one it read, and a task
-- is gone exactly when its seat has left.
abbrev pub SaneStatus : ℕ → SeatStatus → Type 0
SaneStatus generation (waiting g) = g ≤ generation
SaneStatus generation _ = Unit

abbrev pub SanePlace : Place → SeatStatus → Type 0
SanePlace gone status = status ≡ left
SanePlace (inside g) status = status ≡ waiting g
SanePlace away status = has_left status ≡ false

abbrev pub IsSane : ℕ → Seat → Type 0
IsSane generation seat = SaneStatus generation seat.status × SanePlace seat.place seat.status

-- What one action does, in terms of the seat that acts: either the generation stays and the
-- counters follow the seat, or the barrier releases, and then the others that take part, if any,
-- were all waiting.
abbrev pub Follows : State → State → Seat → Seat → Type 0
Follows s s' seat seat' =
    ((s'.generation ≡ s.generation)
      × (s'.arrived + one (waits s.generation seat) ≡ s.arrived + one (waits s.generation seat'))
      × (s'.participants + one (takes_part seat) ≡ s.participants + one (takes_part seat'))
      × ((s'.arrived ≡ 0) ⊎ (s'.arrived < s'.participants)))
    ⊎ ((s'.generation ≡ s.generation + 1)
        × (s'.arrived ≡ 0)
        × (waits (s.generation + 1) seat' ≡ false)
        × (s'.participants + one (takes_part seat) ≡ s.participants + one (takes_part seat'))
        × (s.participants + one (waits s.generation seat) ≤ s.arrived + one (takes_part seat)))

abbrev pub Bounds : State → Seat → Type 0
Bounds s seat =
    (one (waits s.generation seat) ≤ s.arrived)
    × (one (takes_part seat) ≤ s.participants)
    × ((s.arrived ≡ 0) ⊎ (s.arrived < s.participants))

abbrev pub seat_at : SeatStatus → Place → ℕ → Seat
seat_at status place passed = record { status = status; place = place; passed = passed }

pub act-Follows :
    (a : Action) (place : Place) (status : SeatStatus) (passed : ℕ) (s : State)
    → IsSane s.generation (seat_at status place passed)
    → Bounds s (seat_at status place passed)
    → Follows s
        (act a place (seat_at status place passed) s).1
        (seat_at status place passed)
        (act a place (seat_at status place passed) s).0
unfolding act
act-Follows arrives away seated n s h b = ground arith
act-Follows arrives away (waiting g) n s h b = ground arith
act-Follows arrives away left n s h b = ground arith
act-Follows wakes (inside g) seated n s h b = ground arith
act-Follows wakes (inside g) (waiting j) n s h b = ground arith
act-Follows wakes (inside g) left n s h b = ground arith
act-Follows leaves away seated n s h b = ground arith
act-Follows leaves away (waiting g) n s h b = ground arith
act-Follows leaves away left n s h b = ground arith
act-Follows leaves (inside _) seated n s h b = ground arith
act-Follows leaves (inside _) (waiting g) n s h b = ground arith
act-Follows leaves (inside _) left n s h b = ground arith
act-Follows _ _ status n s h b = ground arith

pub act-IsSane :
    (a : Action) (place : Place) (status : SeatStatus) (passed : ℕ) (s : State)
    → IsSane s.generation (seat_at status place passed)
    → IsSane
        (act a place (seat_at status place passed) s).1.generation
        (act a place (seat_at status place passed) s).0
unfolding act
act-IsSane arrives away seated n s h = ground arith
act-IsSane arrives away (waiting g) n s h = ground arith
act-IsSane arrives away left n s h = ground arith
act-IsSane wakes (inside g) seated n s h = ground arith
act-IsSane wakes (inside g) (waiting j) n s h = ground arith
act-IsSane wakes (inside g) left n s h = ground arith
act-IsSane leaves away seated n s h = ground arith
act-IsSane leaves away (waiting g) n s h = ground arith
act-IsSane leaves away left n s h = ground arith
act-IsSane leaves (inside _) seated n s h = ground arith
act-IsSane leaves (inside _) (waiting g) n s h = ground arith
act-IsSane leaves (inside _) left n s h = ground arith
act-IsSane _ _ status n s h = ground arith
