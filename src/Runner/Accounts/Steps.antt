-- ===== src/Runner/Accounts/Steps.antt =====
-- The accounts over a step, skipped or started.
use glidesh.Common.{
  ℕ, ◌+◌, ◌≡◌, refl, String, Bool, true, false, not, Option, none, some, or_else, List, [], ◌∷◌,
  length, if◌then◌else◌,
}
use glidesh.Common.Dict.{set_insert, set_remove}
use glidesh.Events.{Section, rescue, always, step_skipped}
use glidesh.Plan.{Step, TaskDef, all_tasks}
use glidesh.Runner.Interface.{Env}
use glidesh.Runner.Params.{NodeRunner, StepRun}
use glidesh.Runner.State.{RunState, skip_registers, error_unknown, withdraw, send, count_skipped}
use glidesh.Runner.Steps.{
  register_names, failure_of, send_section, run_step_body, after_body, run_rescue, run_always,
  start_step, skip_step,
}
use glidesh.Runner.Tasks.{run_step_tasks}
use glidesh.Runner.Values.{Failure, error_msg, error_task}
use glidesh.Runner.Accounts.{Acc, skipped-Accounted, unknown-Accounted, skip_registers-Accounted}
use glidesh.Runner.Accounts.Tasks.{run_step_tasks-Keeps}
use glidesh.Runner.Accounts.Blocks.{send_section-Accounted, run_step_body-Accounted}

module _ {W : Type 0} (env : Env W) (r : NodeRunner) where
  abbrev Fine : RunState W → Type 0
  Fine s = Acc r.dry_run 0 s

  -- The marks of a preview, or those that come off.
  after_body-Accounted :
      (failure : Option Failure) (s : RunState W) → Fine s → Fine (after_body env r failure s)
  unfolding after_body error_unknown
  after_body-Accounted (some failed) s a = a
  after_body-Accounted none s a = go r.dry_run refl
    where
      go : (b : Bool) → r.dry_run ≡ b → Fine (if b then error_unknown s else s)
      go true d =
          unknown-Accounted r.dry_run 0 s.progress s.events
            (set_insert (set_insert s.progress.unknown error_msg) error_task) (λ e _. absurd (cc)) a
      go false d = a

  withdraw-Accounted : (s : RunState W) → Fine s → Fine (withdraw s)
  unfolding withdraw set_remove
  withdraw-Accounted s a = unknown-Accounted r.dry_run 0 s.progress s.events _ (λ d u. rw u refl) a

  section-Accounted :
      (step_run : StepRun) (section : Section) (tasks : List TaskDef) (first_task : ℕ)
      (s : RunState W)
      → Fine s
      → Fine
          (run_step_tasks env r step_run tasks first_task 0
            (send_section env r step_run.step section s)).1
  section-Accounted step_run section tasks first_task s a =
      (run_step_tasks-Keeps env r step_run tasks first_task 0).keeps 0
        (send_section env r step_run.step section s)
        (send_section-Accounted env r step_run.step section s a)

  run_rescue-Accounted :
      (step_run : StepRun) (failure : Option Failure) (s : RunState W)
      → Fine s
      → Fine (run_rescue env r step_run failure s).1
  unfolding run_rescue
  run_rescue-Accounted step_run failure s a = go step_run.step.rescue failure
    where
      go :
          (tasks : List TaskDef) (failure : Option Failure)
          → Fine
              (elim tasks as (λ _. Option Failure × RunState W) [
                | [] ↦ (failure, s)
                | task ∷ tasks ↦ elim failure [
                  | none ↦ (none, skip_registers (not r.dry_run) (register_names (task ∷ tasks)) s)
                  | some _ ↦
                      let (result, s') =
                        run_step_tasks env r step_run
                          (task ∷ tasks)
                          (length step_run.step.tasks)
                          0
                          (send_section env r step_run.step rescue s) in
                      (failure_of result, s')
                ]
              ]).1
      go [] failure = a
      go (task ∷ tasks) none =
          skip_registers-Accounted (not r.dry_run) (register_names (task ∷ tasks)) 0 s
            (λ d. rw d refl) a
      go (task ∷ tasks) (some f) =
          section-Accounted step_run rescue (task ∷ tasks) (length step_run.step.tasks) s a

  run_always-Accounted :
      (step_run : StepRun) (failure : Option Failure) (s : RunState W)
      → Fine s
      → Fine (run_always env r step_run failure s).1
  unfolding run_always
  run_always-Accounted step_run failure s a = go step_run.step.always
    where
      first : ℕ
      first = length step_run.step.tasks + length step_run.step.rescue

      go :
          (tasks : List TaskDef)
          → Fine
              (elim tasks as (λ _. Option Failure × RunState W) [
                | [] ↦ (failure, s)
                | task ∷ tasks ↦
                    let (result, s') =
                      run_step_tasks env r step_run
                        (task ∷ tasks)
                        first
                        0
                        (send_section env r step_run.step always s) in
                    (or_else failure (failure_of result), s')
              ]).1
      go [] = a
      go (task ∷ tasks) = section-Accounted step_run always (task ∷ tasks) first s a

  pub start_step-Accounted :
      (step_run : StepRun) (s : RunState W) → Fine s → Fine (start_step env r step_run s).1
  unfolding start_step
  start_step-Accounted step_run s a =
      let s0 = record s { changed = false } in
      let (result, s1) = run_step_body env r step_run s0 in
      let body = failure_of result in
      let (rescued, s2) = run_rescue env r step_run body (after_body env r body s1) in
      let (failure, s3) = run_always env r step_run rescued s2 in
      withdraw-Accounted s3 (
        run_always-Accounted step_run rescued s2 (
          run_rescue-Accounted step_run body (after_body env r body s1)
            (after_body-Accounted body s1 (run_step_body-Accounted env r step_run s0 a))))

  pub skip_step-Accounted :
      (step : Step) (reason : String) (decided : Bool) (s : RunState W)
      → (r.dry_run ≡ false → decided ≡ true)
      → Fine s
      → Fine (skip_step env r step reason decided s)
  unfolding skip_step send count_skipped
  skip_step-Accounted step reason decided s h a =
      let tasks = length step.tasks + length step.always in
      skip_registers-Accounted decided (register_names (all_tasks step)) 0 _ h (
        skipped-Accounted r.dry_run 0 s.progress s.events
          (step_skipped r.host.name step.name tasks reason) tasks refl refl refl a)
