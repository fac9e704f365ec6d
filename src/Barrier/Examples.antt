-- ===== src/Barrier/Examples.antt =====
-- Runs of the barrier, after the tests of executor/barrier.rs, and the theorems at such runs.
use glidesh.Common.{ℕ, ◌≤◌, ◌≡◌, refl, ◌≢◌, ◌⊎◌, some, List, [], ◌∷◌, get_elem?}
use glidesh.Barrier.{
  seated, waiting, left, away, inside, Seat, Action, arrives, wakes, leaves, abandons, start,
  perform, run,
}
use glidesh.Barrier.Counts.{IsCounted, run-IsCounted}
use glidesh.Barrier.Lockstep.{arrivals, run-lockstep}
use glidesh.Barrier.Progress.{Absent, woken, run-progress, leave_no_underflow}

-- Two hosts: the first waits for the second, whose arrival releases both.
abbrev two_arrive : List (ℕ × Action)
two_arrive = (0, arrives) ∷ (1, arrives) ∷ []

abbrev first_seat : Seat
first_seat = record { status = waiting 0; place = inside 0; passed = 0 }

abbrev second_seat : Seat
second_seat = record { status = seated; place = away; passed = 1 }

two_arrive_seats : (run (start 2) two_arrive).seats ≡ first_seat ∷ second_seat ∷ []
unfolding run start
two_arrive_seats = refl

-- A host that leaves releases the one that waits for it.
leaving_releases : (run (start 2) ((0, arrives) ∷ (1, leaves) ∷ [])).state.generation ≡ 1
unfolding run start
leaving_releases = refl

-- An abandoned wait that arrives again in the same generation is counted once.
resumed_once :
    (run (start 2) ((0, arrives) ∷ (0, abandons) ∷ (0, arrives) ∷ [])).state
    ≡ record { participants = 2; arrived = 1; generation = 0 }
unfolding run start
resumed_once = refl

-- An abandoned wait whose release came before it arrives again is counted at the next
-- generation: host 1 then passes a second time although host 0 never passed.
passed_by :
    (run
      (start 2)
      ((0, arrives) ∷ (0, abandons) ∷ (1, arrives) ∷ (0, arrives) ∷ (1, arrives) ∷ [])).seats
    ≡ record { status = waiting 1; place = inside 1; passed = 0 }
      ∷ record { status = seated; place = away; passed = 2 }
      ∷ []
unfolding run start
passed_by = refl

run-IsCounted_example : IsCounted (run (start 2) ((0, arrives) ∷ (0, abandons) ∷ (1, leaves) ∷ []))
run-IsCounted_example = run-IsCounted 2 ((0, arrives) ∷ (0, abandons) ∷ (1, leaves) ∷ [])

run-lockstep_example : (1 ≤ arrivals first_seat) × (0 ≤ 1)
unfolding run start
run-lockstep_example =
    run-lockstep 2 two_arrive 1 0 second_seat first_seat ((λ e. cc), ((λ e. cc), tt)) refl refl refl
      (λ e. cc)

run-progress_example :
    (get_elem? (perform (run (start 2) ((0, arrives) ∷ [])) (0, wakes)).seats 0
      ≡ some (woken first_seat))
    ⊎ Absent
        (run (start 2) ((0, arrives) ∷ [])).state.generation
        (run (start 2) ((0, arrives) ∷ [])).seats
unfolding run start
run-progress_example = run-progress 2 ((0, arrives) ∷ []) 0 0 first_seat refl refl

leave_no_underflow_example :
    (first_seat.status ≢ left → 1 ≤ (run (start 2) ((0, arrives) ∷ [])).state.participants)
    × (first_seat.status ≡ waiting (run (start 2) ((0, arrives) ∷ [])).state.generation
        → 1 ≤ (run (start 2) ((0, arrives) ∷ [])).state.arrived)
unfolding run start
leave_no_underflow_example = leave_no_underflow 2 ((0, arrives) ∷ []) 0 first_seat refl
