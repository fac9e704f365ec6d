-- ===== src/Runner/Accounts.antt =====
-- The accounts of a host: its progress against the events that it sent.
mod Params
mod Reports
mod Tasks
mod Gates
mod Blocks
mod Steps
mod Loop
pub mod Host
use glidesh.Common.{
  ℕ, suc, ◌+◌, ◌≤◌, ◌≡◌, ◌≢◌, refl, ◌∙◌, ap, String, Bool, true, false, not, ◌&&◌, Option, none,
  some, List, [], ◌∷◌, ◌++◌, sum_of, sum_of-append, arith, if◌then◌else◌, Result, ok, err, one, inl,
  inr, Bool-cases, contains, fmt,
}
use glidesh.Common.Dict.{set_insert, set_remove}
use glidesh.Condition.Syntax.{Condition}
use glidesh.Condition.Eval.{Scope, Outcome, is_true, is_false, undetermined, eval}
use glidesh.Condition.Preview.{eval-undetermined}
use glidesh.Events.{
  ExecutorEvent, module_result, step_skipped, task_skipped, node_complete, module_failed,
}
use glidesh.Runner.Interface.{Env}
use glidesh.Runner.Params.{NodeRunner}
use glidesh.Runner.Values.{Failure}
use glidesh.Runner.State.{
  Progress, RunState, mark, register, skip_register, skip_registers, send, count_skipped, Decision,
  decide, run, skip, gate, Action, ◌>>=◌, ◌>>◌, fail_task, ask, pure, modify,
}

-- The skipped tasks that an event reports.
abbrev pub skips_of : ExecutorEvent → ℕ
skips_of (step_skipped host step tasks reason) = tasks
skips_of (task_skipped host module_name resource reason) = 1
skips_of _ = 0

-- Whether an event reports a change.
abbrev pub changes_of : ExecutorEvent → ℕ
changes_of (module_result host module_name resource changed dry_run stdout stderr exit_code) =
    one changed
changes_of _ = 0

abbrev pub completes_of : ExecutorEvent → ℕ
completes_of (node_complete host success changed skipped dry_run) = 1
completes_of _ = 0

-- The counts agree with the events, of which `owed` changes are still to be reported, and a real
-- run knows every variable.
pub record Accounted (dry_run : Bool) (owed : ℕ) (p : Progress) (es : List ExecutorEvent)
    : Type 0 where
  pub skips : sum_of skips_of es ≡ p.skipped
  pub completes : sum_of completes_of es ≡ 0
  pub at_most : sum_of changes_of es + owed ≤ p.changed
  pub preview_exact : dry_run ≡ true → sum_of changes_of es + owed ≡ p.changed
  pub all_known : dry_run ≡ false → p.unknown ≡ []

pub sum_of-send :
    (f : ExecutorEvent → ℕ) (es : List ExecutorEvent) (e : ExecutorEvent)
    → sum_of f (es ++ (e ∷ [])) ≡ sum_of f es + f e
sum_of-send f es e = omega (arith, sum_of-append f es (e ∷ []))

-- An event that reports neither a skip nor an end.
abbrev pub IsPlain : ExecutorEvent → Type 0
IsPlain e = (skips_of e ≡ 0) × (completes_of e ≡ 0) × (changes_of e ≡ 0)

pub plain-Accounted :
    (dry_run : Bool) (owed : ℕ) (p : Progress) (es : List ExecutorEvent) (e : ExecutorEvent)
    → IsPlain e
    → Accounted dry_run owed p es
    → Accounted dry_run owed p (es ++ (e ∷ []))
plain-Accounted dry_run owed p es e plain a = record {
  skips = omega (arith, sum_of-send skips_of es e, plain.0, a.skips);
  completes = omega (arith, sum_of-send completes_of es e, plain.1, a.completes);
  at_most = omega (arith, sum_of-send changes_of es e, plain.2, a.at_most);
  preview_exact = λ d. omega (arith, sum_of-send changes_of es e, plain.2, a.preview_exact d);
  all_known = a.all_known;
}

pub skipped-Accounted :
    (dry_run : Bool) (owed : ℕ) (p : Progress) (es : List ExecutorEvent) (e : ExecutorEvent) (n : ℕ)
    → skips_of e ≡ n
    → completes_of e ≡ 0
    → changes_of e ≡ 0
    → Accounted dry_run owed p es
    → Accounted dry_run owed (record p { skipped = p.skipped + n }) (es ++ (e ∷ []))
skipped-Accounted dry_run owed p es e n is_n h0 h1 a = record {
  skips = omega (arith, sum_of-send skips_of es e, is_n, a.skips);
  completes = omega (arith, sum_of-send completes_of es e, h0, a.completes);
  at_most = omega (arith, sum_of-send changes_of es e, h1, a.at_most);
  preview_exact = λ d. omega (arith, sum_of-send changes_of es e, h1, a.preview_exact d);
  all_known = a.all_known;
}

-- A set of unknown variables that stays empty in a real run.
pub unknown-Accounted :
    (dry_run : Bool) (owed : ℕ) (p : Progress) (es : List ExecutorEvent) (unknown : List String)
    → (dry_run ≡ false → p.unknown ≡ [] → unknown ≡ [])
    → Accounted dry_run owed p es
    → Accounted dry_run owed (record p { unknown = unknown }) es
unknown-Accounted dry_run owed p es unknown h a = record {
  skips = a.skips;
  completes = a.completes;
  at_most = a.at_most;
  preview_exact = a.preview_exact;
  all_known = λ d. h d (a.all_known d);
}

mark-known :
    (known : Bool) (name : String) (unknown : List String)
    → known ≡ true
    → unknown ≡ []
    → mark known name unknown ≡ []
unfolding mark set_remove
mark-known known name unknown k u = rw (k, u) refl

-- A real run's skips are all decided.
pub gate-decided :
    (when : Option Condition) (scope : Scope) (reason : String) (decided : Bool)
    → scope.unknown ≡ []
    → gate when scope ≡ ok (skip reason decided)
    → decided ≡ true
unfolding gate
gate-decided none scope reason decided k e = absurd (cc)
gate-decided (some cond) scope reason decided k e =
    go (eval cond scope) (λ v. eval-undetermined cond scope v k) e
  where
    go :
        (o : Result String Outcome)
        → ((v : String) → o ≢ ok (undetermined v))
        → (elim o [ ok o' ↦ ok (decide cond o') | err m ↦ err m ]) ≡ ok (skip reason decided)
        → decided ≡ true
    go (ok is_true) n h = absurd (cc)
    go (ok is_false) n h = cc
    go (ok (undetermined v)) n h = absurd (n v refl)
    go (err m) n h = absurd (cc)

module _ {W : Type 0} (dry_run : Bool) where
  abbrev pub Acc : ℕ → RunState W → Type 0
  Acc owed s = Accounted dry_run owed s.progress s.events

  -- An action after which the counts still agree, whether it failed or not.
  pub record Keeps {A : Type 0} (m : Action W A) : Type 0 where
    pub keeps : (owed : ℕ) (s : RunState W) → Acc owed s → Acc owed (m s).1

module _ {W : Type 0} {dry_run : Bool} where
  pub bind-Keeps :
      {A B : Type 0} {m : Action W A} {f : A → Action W B}
      → Keeps dry_run m
      → ((a : A) → Keeps dry_run (f a))
      → Keeps dry_run (m >>= f)
  unfolding ◌>>=◌
  bind-Keeps {m = m} {f = f} hm hf = record {
    keeps = λ owed s a. go owed s (m s) (hm.keeps owed s a);
  }
    where
      go :
          (owed : ℕ) (s : RunState W) (p : Result Failure _ × RunState W)
          → Acc dry_run owed p.1
          → Acc dry_run owed (((λ _. p) >>= f) s).1
      go owed s (ok x, s') h = (hf x).keeps owed s' h
      go owed s (err e, s') h = h

  pub pure-Keeps : {A : Type 0} {x : A} → Keeps {W = W} dry_run (pure x)
  pure-Keeps = record { keeps = λ owed s a. a }

  pub ask-Keeps :
      {A : Type 0} (f : W → Result String A × W) (on_error : String → Action W A)
      → ((e : String) → Keeps dry_run (on_error e))
      → Keeps dry_run (ask f on_error)
  unfolding ask
  ask-Keeps f on_error h = record { keeps = λ owed s a. go owed s (f s.world) a }
    where
      go :
          (owed : ℕ) (s : RunState W) (p : Result String _ × W)
          → Acc dry_run owed s
          → Acc dry_run owed (ask (λ _. p) on_error s).1
      go owed s (ok x, w) a = a
      go owed s (err e, w) a = (h e).keeps owed (record s { world = w }) a

  pub send-Keeps : (e : ExecutorEvent) → IsPlain e → Keeps {W = W} dry_run (modify (send e))
  unfolding send
  send-Keeps e plain = record {
    keeps = λ owed s a. plain-Accounted dry_run owed s.progress s.events e plain a;
  }

  pub fail_task-Keeps :
      {A : Type 0} (host module_name resource error : String)
      → Keeps {W = W} dry_run (fail_task {A = A} host module_name resource error)
  unfolding fail_task send
  fail_task-Keeps host module_name resource error = record {
    keeps = λ owed s a. plain-Accounted dry_run owed s.progress s.events _ (refl, refl, refl) a;
  }

  pub ask_task-Keeps :
      {A : Type 0} (f : W → Result String A × W) (host module_name resource : String)
      → Keeps dry_run (ask f (fail_task host module_name resource))
  ask_task-Keeps f host module_name resource =
      ask-Keeps f (fail_task host module_name resource)
        (λ e. fail_task-Keeps host module_name resource e)

  pub register-Keeps :
      (name value : String) {real : Bool}
      → (dry_run ≡ false → real ≡ true)
      → Keeps {W = W} dry_run (modify (register name value real))
  unfolding register
  register-Keeps name value {real = real} h = record {
    keeps = λ owed s a.
        unknown-Accounted dry_run owed s.progress s.events (mark real name s.progress.unknown)
          (λ d u. mark-known real name s.progress.unknown (h d) u) a;
  }

  pub skip_register-Accounted :
      (decided : Bool) (name : String) (owed : ℕ) (s : RunState W)
      → (dry_run ≡ false → decided ≡ true)
      → Acc dry_run owed s
      → Acc dry_run owed (skip_register decided name s)
  unfolding skip_register
  skip_register-Accounted decided name owed s h a =
      unknown-Accounted dry_run owed s.progress s.events (mark decided name s.progress.unknown)
        (λ d u. mark-known decided name s.progress.unknown (h d) u) a

  pub skip_registers-Accounted :
      (decided : Bool) (names : List String) (owed : ℕ) (s : RunState W)
      → (dry_run ≡ false → decided ≡ true)
      → Acc dry_run owed s
      → Acc dry_run owed (skip_registers decided names s)
  unfolding skip_registers
  skip_registers-Accounted decided [] owed s h a = a
  skip_registers-Accounted decided (name ∷ names) owed s h a =
      skip_registers-Accounted decided names owed (skip_register decided name s) h
        (skip_register-Accounted decided name owed s h a)
