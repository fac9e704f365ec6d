-- ===== src/Runner/Failures.antt =====
-- How a failure is reported: the failure against the last event.
pub mod Steps
mod Params
mod Tasks
use glidesh.Common.{◌≡◌, refl, String, Bool, true, false, List, [], ◌∷◌, ◌++◌, Result, ok, err}
use glidesh.Events.{ExecutorEvent, module_failed, step_failed}
use glidesh.Runner.State.{RunState, Action, ◌>>=◌, pure, modify, fail_task, ask, send}
use glidesh.Runner.Values.{Failure, in_task, in_step}

-- The event that goes with a failure.
abbrev pub Announces : Failure → ExecutorEvent → Type 0
Announces f (module_failed host module_name resource error) = f ≡ in_task module_name resource error
Announces f (step_failed host step error) = f ≡ in_step error
Announces f _ = ⊥

pub record IsAnnounced (f : Failure) (es : List ExecutorEvent) : Type 0 where
  pub before : List ExecutorEvent
  pub event : ExecutorEvent
  pub last : es ≡ before ++ (event ∷ [])
  pub announces : Announces f event

module _ {W : Type 0} where
  abbrev pub Told : {A : Type 0} → Result Failure A × RunState W → Type 0
  Told (ok x, s) = Unit {0}
  Told (err f, s) = IsAnnounced f s.events

  pub record Tells {A : Type 0} (m : Action W A) : Type 0 where
    pub tells : (s : RunState W) → Told (m s)

  pub bind-Tells :
      {A B : Type 0} {m : Action W A} {f : A → Action W B}
      → Tells m
      → ((a : A) → Tells (f a))
      → Tells (m >>= f)
  unfolding ◌>>=◌
  bind-Tells {m = m} {f = f} hm hf = record { tells = λ s. go s (m s) (hm.tells s) }
    where
      go : (s : RunState W) (p : Result Failure _ × RunState W) → Told p → Told (((λ _. p) >>= f) s)
      go s (ok x, s') h = (hf x).tells s'
      go s (err e, s') h = h

  pub pure-Tells : {A : Type 0} {x : A} → Tells (pure x)
  pure-Tells = record { tells = λ s. tt }

  pub modify-Tells : (f : RunState W → RunState W) → Tells (modify f)
  modify-Tells f = record { tells = λ s. tt }

  pub fail_task-Tells :
      {A : Type 0} (host module_name resource error : String)
      → Tells (fail_task {A = A} host module_name resource error)
  unfolding fail_task send
  fail_task-Tells host module_name resource error = record {
    tells = λ s. record {
      before = s.events;
      event = module_failed host module_name resource error;
      last = refl;
      announces = refl;
    };
  }

  pub ask_task-Tells :
      {A : Type 0} (f : W → Result String A × W) (host module_name resource : String)
      → Tells (ask f (fail_task host module_name resource))
  unfolding ask
  ask_task-Tells {A = A} f host module_name resource = record { tells = λ s. go s (f s.world) }
    where
      go :
          (s : RunState W) (p : Result String A × W)
          → Told (ask (λ _. p) (fail_task host module_name resource) s)
      go s (ok x, w) = tt
      go s (err e, w) = (fail_task-Tells host module_name resource e).tells (record s { world = w })
