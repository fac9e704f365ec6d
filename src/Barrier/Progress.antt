-- ===== src/Barrier/Progress.antt =====
-- No host is held for nothing, and no counter of the barrier falls below zero.
use glidesh.Common.{
  ℕ, suc, ◌+◌, ◌≤◌, ◌<◌, ◌≡◌, refl, ap, ◌∙◌, ◌⊎◌, ◌≢◌, inl, inr, true, false, not, some, List, [],
  ◌∷◌, arith, ◌==◌, get_elem?, count, one, Bool-cases, All-get, one-le-count, get_elem?-set_self,
}
use glidesh.Barrier.{
  State, SeatStatus, seated, waiting, left, Place, away, inside, gone, Seat, waits_for, leave,
  Action, wakes, act, System, start, perform, run,
}
use glidesh.Barrier.Seats.{takes_part, waits, IsSane, SanePlace, has_left}
use glidesh.Barrier.Counts.{IsCounted, perform-some, run-IsCounted}

-- A seat that takes part and has not arrived at this generation.
abbrev pub Absent : ℕ → List Seat → Type 0
Absent gen seats =
    (j : ℕ) × (y : Seat) × (get_elem? seats j ≡ some y)
    × (takes_part y ≡ true)
    × (waits gen y ≡ false)

Absent-cons : (gen : ℕ) (x : Seat) (seats : List Seat) → Absent gen seats → Absent gen (x ∷ seats)
Absent-cons gen x seats (j, y, e, t, w) = (suc j, y, e, t, w)

Absent-of_count :
    (gen : ℕ) (seats : List Seat)
    → count (waits gen) seats < count takes_part seats
    → Absent gen seats
Absent-of_count gen [] h = absurd (omega arith)
Absent-of_count gen (x ∷ seats) h = elim (Bool-cases (takes_part x)) [
  | inl t ↦ elim (Bool-cases (waits gen x)) [
    | inl w ↦ Absent-cons gen x seats (Absent-of_count gen seats (ground arith))
    | inr w ↦ (0, x, refl, t, w)
  ]
  | inr f ↦ Absent-cons gen x seats (Absent-of_count gen seats (ground arith))
]

abbrev pub woken : Seat → Seat
woken x = record { status = seated; place = away; passed = x.passed + 1 }

act-wakes :
    (g : ℕ) (p : Place) (x : Seat) (s : State)
    → p ≡ inside g
    → (s.generation == g) ≡ false
    → (act wakes p x s).0 ≡ woken x
unfolding act
act-wakes g p x s e h = ground arith

waits_of_inside :
    (gen g : ℕ) (p : Place) (status : SeatStatus)
    → SanePlace p status
    → p ≡ inside g
    → (gen == g) ≡ true
    → waits_for gen status ≡ true
waits_of_inside gen g (inside j) status h e k = rw h (ground arith)
waits_of_inside gen g away status h e k = cc
waits_of_inside gen g gone status h e k = cc

waits_self : (g : ℕ) (status : SeatStatus) → status ≡ waiting g → waits_for g status ≡ true
waits_self g status h = rw h (ground arith)

module _ (sys : System) (i g : ℕ) (x : Seat) (c : IsCounted sys)
    (ex : get_elem? sys.seats i ≡ some x) (place : x.place ≡ inside g) where
  abbrev gen : ℕ
  gen = sys.state.generation

  -- Some seat that takes part has not arrived, as long as one waits for the current generation.
  Absent-of_waiting : (gen == g) ≡ true → Absent gen sys.seats
  Absent-of_waiting k =
      Absent-of_count gen sys.seats (omega (arith, arrived, c.held, c.arrived, c.participants))
    where
      waits_here : waits gen x ≡ true
      waits_here =
          waits_of_inside gen g x.place x.status (All-get (IsSane gen) sys.seats i x c.sane ex).1
            place k

      arrived : 1 ≤ count (waits gen) sys.seats
      arrived = ground (arith, waits_here, one-le-count (waits gen) sys.seats i x ex)

  wakes_of_release :
      (gen == g) ≡ false → get_elem? (perform sys (i, wakes)).seats i ≡ some (woken x)
  wakes_of_release k = rw (perform-some sys i wakes x ex) (
      get_elem?-set_self sys.seats i x (act wakes x.place x sys.state).0 ex
      ∙ ap some (act-wakes g x.place x sys.state place k))

-- After any schedule, abandoned waits included: a host in the wait loop either leaves it at its
-- next wake-up, having passed the barrier, or a seat that takes part has not arrived yet.
pub run-progress :
    (n : ℕ) (moves : List (ℕ × Action)) (i g : ℕ) (x : Seat)
    → get_elem? (run (start n) moves).seats i ≡ some x
    → x.place ≡ inside g
    → (get_elem? (perform (run (start n) moves) (i, wakes)).seats i ≡ some (woken x))
      ⊎ Absent (run (start n) moves).state.generation (run (start n) moves).seats
run-progress n moves i g x ex place =
    elim (Bool-cases ((run (start n) moves).state.generation == g)) [
      | inl k ↦
          inr (Absent-of_waiting (run (start n) moves) i g x (run-IsCounted n moves) ex place k)
      | inr k ↦
          inl (wakes_of_release (run (start n) moves) i g x (run-IsCounted n moves) ex place k)
    ]

-- A second `leave`, as the `Drop` after an explicit one, changes neither the seat nor the barrier.
pub leave-leave :
    (status : SeatStatus) (s : State) → leave (leave status s).0 (leave status s).1 ≡ leave status s
unfolding leave
leave-leave seated s = refl
leave-leave (waiting g) s = refl
leave-leave left s = refl

-- After any schedule, a seat that has not left is counted, and one that waits for the current
-- generation has its arrival counted: the subtractions of `leave` do not fall below zero.
pub leave_no_underflow :
    (n : ℕ) (moves : List (ℕ × Action)) (i : ℕ) (x : Seat)
    → get_elem? (run (start n) moves).seats i ≡ some x
    → (x.status ≢ left → 1 ≤ (run (start n) moves).state.participants)
      × (x.status ≡ waiting (run (start n) moves).state.generation
          → 1 ≤ (run (start n) moves).state.arrived)
leave_no_underflow n moves i x ex = (
  λ h. omega (arith, c.participants, one-le-count takes_part sys.seats i x ex, takes x.status h),
  λ h. ground (
    arith,
    c.arrived,
    one-le-count (waits sys.state.generation) sys.seats i x ex,
    waits_self sys.state.generation x.status h,
  ),
)
  where
    sys : System
    sys = run (start n) moves

    c : IsCounted sys
    c = run-IsCounted n moves

    takes : (status : SeatStatus) → status ≢ left → one (not (has_left status)) ≡ 1
    takes seated h = refl
    takes (waiting g) h = refl
    takes left h = absurd (h refl)
