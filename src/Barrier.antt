-- ===== src/Barrier.antt =====
-- executor/barrier.rs: the step barrier of `mode "sync"`.
-- A call holds the mutexes of its seat and of the barrier, so each of its critical sections is one
-- step: `arrive` up to the wait, the wake-up after a release, `leave` (also by `Drop`), and the
-- loss of a wait whose future is dropped. `generation` is a `u64` that counts releases and
-- `arrived` a `usize` that counts hosts, so neither reaches its bound.
mod Seats
pub mod Counts
pub mod Lockstep
pub mod Progress
mod Examples
use mathlib.Core.List.{foldl}
use glidesh.Common.{
  ℕ, ◌+◌, ◌-◌, Bool, true, false, ◌&&◌, not, Option, none, some, List, [], ◌∷◌, ltb, leb, ◌==◌,
  if◌then◌else◌, get_elem?, set, replicate,
}

pub record State : Type 0 where
  pub participants : ℕ
  pub arrived : ℕ
  pub generation : ℕ

pub data SeatStatus : Type 0 where
  seated : SeatStatus
  waiting : ℕ → SeatStatus
  left : SeatStatus

-- Where the task that owns a seat stands: running, in the wait loop of `arrive` with the
-- generation it read, or past its seat's `leave`.
pub data Place : Type 0 where
  away : Place
  inside : ℕ → Place
  gone : Place

-- `passed` counts the calls of `arrive` that returned: the steps the host may have started.
pub record Seat : Type 0 where
  pub status : SeatStatus
  pub place : Place
  pub passed : ℕ

unfoldable pub release_if_complete : State → State
release_if_complete s =
    if ltb 0 s.arrived && leb s.participants s.arrived
    then record s { arrived = 0; generation = s.generation + 1 }
    else s

-- `matches!(*status, SeatStatus::Waiting(g) if g == generation)`
abbrev pub waits_for : ℕ → SeatStatus → Bool
waits_for generation (waiting g) = g == generation
waits_for generation _ = false

-- The first critical section of `arrive`; the Boolean is whether the call returns at once.
unfoldable pub arrive : SeatStatus → State → SeatStatus × State × Bool
unfolding release_if_complete
arrive status s =
    if waits_for s.generation status
    then (waiting s.generation, s, false)
    else (let s' = release_if_complete (record s { arrived = s.arrived + 1 }) in
        if s'.generation == s.generation
        then (waiting s.generation, s', false)
        else (seated, s', true))

-- The test of the wait loop.
unfoldable pub released : ℕ → State → Bool
released generation s = not (s.generation == generation)

unfoldable pub leave : SeatStatus → State → SeatStatus × State
unfolding release_if_complete
leave left s = (left, s)
leave seated s = (left, release_if_complete (record s { participants = s.participants - 1 }))
leave (waiting g) s = (
  left,
  release_if_complete (record s {
    arrived = (if s.generation == g then s.arrived - 1 else s.arrived);
    participants = s.participants - 1;
  }),
)

pub data Action : Type 0 where
  arrives wakes leaves abandons : Action

-- One step of the task that owns a seat. An action that is not open to it changes nothing.
unfoldable pub act : Action → Place → Seat → State → Seat × State
unfolding arrive released leave
act arrives away seat s =
    let (status', s', returned) = arrive seat.status s in
    if returned
    then (record { status = status'; place = away; passed = seat.passed + 1 }, s')
    else (record { status = status'; place = inside s.generation; passed = seat.passed }, s')
act wakes (inside g) seat s =
    if released g s
    then (record { status = seated; place = away; passed = seat.passed + 1 }, s)
    else (seat, s)
act leaves away seat s =
    let (status', s') = leave seat.status s in
    (record { status = status'; place = gone; passed = seat.passed }, s')
act leaves (inside g) seat s =
    let (status', s') = leave seat.status s in
    (record { status = status'; place = gone; passed = seat.passed }, s')
act abandons (inside g) seat s = (record seat { place = away }, s)
act _ _ seat s = (seat, s)

pub record System : Type 0 where
  pub state : State
  pub seats : List Seat

-- `StepBarrier::new` with a seat for each participant.
unfoldable pub start : ℕ → System
start n = record {
  state = record { participants = n; arrived = 0; generation = 0 };
  seats = replicate n (record { status = seated; place = away; passed = 0 });
}

-- One move of a schedule: seat `i` acts.
unfoldable pub perform : System → ℕ × Action → System
unfolding act
perform sys (i, a) = elim (get_elem? sys.seats i) [
  | none ↦ sys
  | some seat ↦
      let (seat', s') = act a seat.place seat sys.state in
      record { state = s'; seats = set sys.seats i seat' }
]

unfoldable pub run : System → List (ℕ × Action) → System
unfolding perform
run = foldl perform
