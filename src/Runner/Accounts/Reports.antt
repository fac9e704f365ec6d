-- ===== src/Runner/Accounts/Reports.antt =====
-- The accounts while a task registers, counts and reports.
use glidesh.Common.{
  ℕ, ◌+◌, ◌≡◌, refl, String, Bool, true, false, not, Option, none, some, arith, Result, ok, err,
  if◌then◌else◌, one, inl, inr, Option-cases, Bool-cases, false≢true,
}
use glidesh.Events.{ExecutorEvent}
use glidesh.Plan.{TaskDef}
use glidesh.Runner.Values.{Failure}
use glidesh.Runner.Interface.{Env, ModuleResult}
use glidesh.Runner.Params.{NodeRunner, emit}
use glidesh.Runner.Reports.{captured_output}
use glidesh.Runner.State.{
  RunState, Action, ◌>>=◌, ◌>>◌, pure, modify, fail_task, register, send, count_changed,
}
use glidesh.Runner.Tasks.{register_output, applied}
use glidesh.Runner.Accounts.{
  sum_of-send, Acc, Keeps, skips_of, completes_of, changes_of, pure-Keeps, fail_task-Keeps,
  register-Keeps,
}

module _ {W : Type 0} (env : Env W) (r : NodeRunner) where
  abbrev Kept : {A : Type 0} → Action W A → Type 0
  Kept m = Keeps r.dry_run m

  pub register_output-Keeps :
      (task : TaskDef) (resource output : String) (cut : Bool)
      → Kept (register_output env r task resource output cut)
  unfolding register_output
  register_output-Keeps task resource output cut = go task.register
    where
      named :
          (name : String) (o : Result String String)
          → Kept (elim o [
            | ok value ↦ modify (register name value (not r.dry_run))
            | err error ↦ fail_task r.host.name task.module_name resource error
          ])
      named name (ok value) = register-Keeps _ _ (λ d. rw d refl)
      named name (err error) = fail_task-Keeps _ _ _ _

      go :
          (name : Option String)
          → Kept (elim name [
            | none ↦ pure tt
            | some name ↦ elim (captured_output r.dry_run output cut) [
              | ok value ↦ modify (register name value (not r.dry_run))
              | err error ↦ fail_task r.host.name task.module_name resource error
            ]
          ])
      go none = pure-Keeps
      go (some name) = named name (captured_output r.dry_run output cut)

  abbrev is_ok : {E A : Type 0} → Result E A → Bool
  is_ok (ok x) = true
  is_ok (err e) = false

  register_output-preview :
      (task : TaskDef) (resource output : String) (cut : Bool) (s : RunState W)
      → r.dry_run ≡ true
      → is_ok (register_output env r task resource output cut s).0 ≡ true
  unfolding register_output captured_output
  register_output-preview task resource output cut s d = elim (Option-cases task.register) [
    | inl none_named ↦ rw none_named refl
    | inr (name, named) ↦ rw (named, d) refl
  ]

  -- A failure leaves a change unreported in a real run only.
  forgive :
      (owed more : ℕ) (s : RunState W)
      → r.dry_run ≡ false
      → Acc r.dry_run (owed + more) s
      → Acc r.dry_run owed s
  forgive owed more s d a = record {
    skips = a.skips;
    completes = a.completes;
    at_most = omega (arith, a.at_most);
    preview_exact = λ e. absurd (cc);
    all_known = a.all_known;
  }

  -- The event of a change that was counted.
  pub reported :
      (owed : ℕ) (s : RunState W) (e : ExecutorEvent) (n : ℕ)
      → skips_of e ≡ 0
      → completes_of e ≡ 0
      → changes_of e ≡ n
      → Acc r.dry_run (owed + n) s
      → Acc r.dry_run owed (send e s)
  unfolding send
  reported owed s e n h0 h1 h2 a = record {
    skips = omega (arith, sum_of-send skips_of s.events e, h0, a.skips);
    completes = omega (arith, sum_of-send completes_of s.events e, h1, a.completes);
    at_most = omega (arith, sum_of-send changes_of s.events e, h2, a.at_most);
    preview_exact = λ d. omega (arith, sum_of-send changes_of s.events e, h2, a.preview_exact d);
    all_known = a.all_known;
  }

  pub counted :
      (owed : ℕ) (s : RunState W) (b : Bool)
      → Acc r.dry_run owed s
      → Acc r.dry_run (owed + one b) (if b then count_changed s else s)
  unfolding count_changed
  counted owed s b a = go b
    where
      go : (b : Bool) → Acc r.dry_run (owed + one b) (if b then count_changed s else s)
      go false = record {
        skips = a.skips;
        completes = a.completes;
        at_most = omega (arith, a.at_most);
        preview_exact = λ d. omega (arith, a.preview_exact d);
        all_known = a.all_known;
      }
      go true = record {
        skips = a.skips;
        completes = a.completes;
        at_most = omega (arith, a.at_most);
        preview_exact = λ d. omega (arith, a.preview_exact d);
        all_known = a.all_known;
      }

  -- What is registered between a change and its event.
  report-Keeps :
      (task : TaskDef) (resource output : String) (cut b : Bool) (e : ExecutorEvent)
      → skips_of e ≡ 0
      → completes_of e ≡ 0
      → changes_of e ≡ one b
      → Kept (
          modify (λ s. if b then count_changed s else s)
          >> register_output env r task resource output cut
          >> emit env r e)
  unfolding ◌>>=◌
  report-Keeps task resource output cut b e h0 h1 h2 = record {
    keeps = λ owed s a.
        let s1 = if b then count_changed s else s in
        go owed (register_output env r task resource output cut s1)
          ((register_output-Keeps task resource output cut).keeps (owed + one b) s1
            (counted owed s b a))
          (register_output-preview task resource output cut s1);
  }
    where
      go :
          (owed : ℕ) (p : Result Failure Unit × RunState W)
          → Acc r.dry_run (owed + one b) p.1
          → (r.dry_run ≡ true → is_ok p.0 ≡ true)
          → Acc r.dry_run owed (((λ _. p) >> emit env r e) p.1).1
      go owed (ok x, s) a h = reported owed s e (one b) h0 h1 h2 a
      go owed (err m, s) a h = elim (Bool-cases r.dry_run) [
        | inl d ↦ absurd (false≢true (h d))
        | inr d ↦ forgive owed (one b) s d a
      ]

  pub applied-Keeps :
      (task : TaskDef) (resource plan : String) (diff : Option String) (result : ModuleResult)
      → Kept (applied env r task resource plan diff result)
  unfolding applied
  applied-Keeps task resource plan diff result =
      report-Keeps task resource result.output result.output_cut _ _ refl refl refl
