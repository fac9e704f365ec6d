-- ===== src/Runner/State.antt =====
-- What one host's run keeps and how it registers variables: `Progress`, the gate of a `when=`, and
-- the run of a task as an action on the state that may fail with a `Failure`.
use glidesh.Common.{
  ℕ, suc, ◌+◌, String, Bool, true, false, Option, none, some, List, [], ◌∷◌, ◌++◌, if◌then◌else◌,
  fmt, Result, ok, err,
}
use glidesh.Common.Dict.{Dict, insert, remove, set_insert, set_remove}
use glidesh.Condition.Syntax.{Condition}
use glidesh.Condition.Eval.{Scope, Outcome, is_true, is_false, undetermined, eval}
use glidesh.Events.{ExecutorEvent, module_failed}
use glidesh.Runner.Values.{Failure, in_task, error_msg, error_task}

pub record Progress : Type 0 where
  pub changed : ℕ
  pub skipped : ℕ
  pub unknown : List String

-- The variables that the runner passes around, `changed` being that of the step.
pub record RunState (W : Type 0) : Type 0 where
  pub vars : Dict String
  pub progress : Progress
  pub changed : Bool
  pub events : List ExecutorEvent
  pub world : W

unfoldable pub mark : Bool → String → List String → List String
unfolding set_insert set_remove
mark known name unknown = if known then set_remove unknown name else set_insert unknown name

module _ {W : Type 0} where
  abbrev set_unknown : List String → RunState W → RunState W
  set_unknown unknown s = record s { progress = (record (s.progress) { unknown = unknown }) }

  -- `Progress::register`
  unfoldable pub register : String → String → Bool → RunState W → RunState W
  unfolding mark insert
  register name value real s =
      set_unknown (mark real name s.progress.unknown) (record s { vars = insert s.vars name value })

  -- `Progress::skip_register`
  unfoldable pub skip_register : Bool → String → RunState W → RunState W
  unfolding mark remove
  skip_register decided name s =
      set_unknown (mark decided name s.progress.unknown) (record s { vars = remove s.vars name })

  unfoldable pub skip_registers : Bool → List String → RunState W → RunState W
  unfolding skip_register
  skip_registers decided [] s = s
  skip_registers decided (name ∷ names) s =
      skip_registers decided names (skip_register decided name s)

  -- `Failure::unknown`
  unfoldable pub error_unknown : RunState W → RunState W
  unfolding set_insert
  error_unknown s = set_unknown (set_insert (set_insert s.progress.unknown error_msg) error_task) s

  -- `Failure::withdraw`
  unfoldable pub withdraw : RunState W → RunState W
  unfolding remove set_remove
  withdraw s =
      set_unknown (set_remove (set_remove s.progress.unknown error_msg) error_task)
        (record s { vars = remove (remove s.vars error_msg) error_task })

  unfoldable pub send : ExecutorEvent → RunState W → RunState W
  send e s = record s { events = s.events ++ (e ∷ []) }

  unfoldable pub count_skipped : ℕ → RunState W → RunState W
  count_skipped n s = record s {
    progress = (record (s.progress) { skipped = s.progress.skipped + n });
  }

  -- `progress.changed += 1; *changed = true;`
  unfoldable pub count_changed : RunState W → RunState W
  count_changed s = record s {
    progress = (record (s.progress) { changed = suc s.progress.changed });
    changed = true;
  }

-- `Gate`
pub data Decision : Type 0 where
  run : Decision
  skip : String → Bool → Decision

abbrev pub decide : Condition → Outcome → Decision
decide cond is_true = run
decide cond is_false = skip (fmt ("when: " ∷ cond.source ∷ [])) true
decide cond (undetermined var) =
    skip
      (fmt (
        "undetermined in preview: when: " ∷ cond.source ∷ " depends on ${" ∷ var
        ∷ "}, which is not known until the real run" ∷ []))
      false

-- `gate`
unfoldable pub gate : Option Condition → Scope → Result String Decision
unfolding eval fmt
gate none scope = ok run
gate (some cond) scope = elim (eval cond scope) [ ok o ↦ ok (decide cond o) | err e ↦ err e ]

-- An action that may fail; what was written stays written.
abbrev pub Action : Type 0 → Type 0 → Type 0
Action W A = RunState W → Result Failure A × RunState W

module _ {W : Type 0} where
  infixl 5 ◌>>=◌ ◌>>◌
  unfoldable pub ◌>>=◌ : {A B : Type 0} → Action W A → (A → Action W B) → Action W B
  ◌>>=◌ m f s = let (r, s') = m s in elim r [ ok a ↦ f a s' | err e ↦ (err e, s') ]

  abbrev pub ◌>>◌ : {A B : Type 0} → Action W A → Action W B → Action W B
  m >> k = m >>= λ _. k

  abbrev pub pure : {A : Type 0} → A → Action W A
  pure a s = (ok a, s)

  abbrev pub raise : {A : Type 0} → Failure → Action W A
  raise e s = (err e, s)

  abbrev pub modify : (RunState W → RunState W) → Action W (Unit {0})
  modify f s = (ok tt, f s)

  -- `emit_task_error`, and the failure of the task.
  unfoldable pub fail_task : {A : Type 0} → String → String → String → String → Action W A
  unfolding send in_task
  fail_task host module_name resource error s = (
    err (in_task module_name resource error),
    send (module_failed host module_name resource error) s,
  )

  -- An operation of the world, with what to do about its error.
  unfoldable pub ask : {A : Type 0} → (W → Result String A × W) → (String → Action W A) → Action W A
  ask f on_error s =
      let (r, w) = f s.world in
      elim r [ ok a ↦ (ok a, record s { world = w }) | err e ↦ on_error e (record s { world = w }) ]
