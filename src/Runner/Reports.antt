-- ===== src/Runner/Reports.antt =====
-- What a task reports, registers and counts, and the error of a gate that never opened.
use glidesh.Common.{
  ℕ, ◌-◌, String, Bool, true, false, not, Option, none, some, List, [], ◌∷◌, ◌++◌, keep, drop,
  length, if◌then◌else◌, str_eq, fmt, show, join, Result, ok, err,
}
use glidesh.Common.Chars.{lines, trim}
use glidesh.Common.Dict.{get}
use glidesh.Plan.{TaskDef, UntilGate}
use glidesh.Template.{ParamValue}

-- `CommandOutput` of ssh/connection.rs.
pub record CommandOutput : Type 0 where
  pub exit_code : ℕ
  pub stdout : String
  pub stderr : String
  pub stdout_cut : Bool

-- `GATE_OUTPUT_LINES`
abbrev gate_output_lines : ℕ
gate_output_lines = 20

abbrev last_lines : List String → List String
last_lines ls = drop (length ls - gate_output_lines) ls

abbrev not_blank : String → Bool
not_blank l = not (str_eq (trim l) "")

abbrev last_output : List String → String
last_output [] = ""
last_output (l ∷ ls) = fmt ("; last output:\n" ∷ join "\n" (l ∷ ls) ∷ [])

abbrev about_last : Option CommandOutput → Bool → String
about_last none still_running = ""
about_last (some out) still_running = fmt (
    (if still_running then "; the attempt before exited " else " last exited ")
    ∷ show out.exit_code
    ∷ last_output (last_lines (keep not_blank (lines out.stdout ++ lines out.stderr)))
    ∷ [])

unfoldable pub gate_timeout_error : UntilGate → Option CommandOutput → Bool → String
unfolding fmt show lines trim join
gate_timeout_error gate last still_running = fmt (
    "until= did not succeed within "
    ∷ show gate.timeout
    ∷ "s: `"
    ∷ gate.command
    ∷ "`"
    ∷ (if still_running then " was still running at the deadline" else "")
    ∷ about_last last still_running
    ∷ [])

unfoldable pub resolve_changed : Bool → Bool → Bool → Bool
resolve_changed dry_run was_pending applied_changed =
    if dry_run then was_pending else applied_changed

abbrev is_false_value : Option ParamValue → Bool
is_false_value (some (ParamValue.boolean false)) = true
is_false_value _ = false

unfoldable pub never_changes : TaskDef → Bool
unfolding get
never_changes task = is_false_value (get task.args "changed-when")

-- The parts that are not empty, on a line of their own each.
unfoldable pub join_parts : String → List (Option String) → String
unfolding fmt
join_parts out [] = out
join_parts out (none ∷ parts) = join_parts out parts
join_parts out (some part ∷ parts) =
    join_parts
      (if str_eq part "" then out else if str_eq out "" then part else fmt (out ∷ "\n" ∷ part ∷ []))
      parts

abbrev plan_part : Bool → Option (String × Option String) → Option String
plan_part true (some (plan, diff)) = some plan
plan_part _ _ = none

abbrev diff_part : Bool → Option (String × Option String) → Option String
diff_part true (some (plan, diff)) = diff
diff_part _ _ = none

unfoldable pub task_output : Bool → Bool → Option (String × Option String) → String → String
unfolding join_parts
task_output dry_run show_diff pending output =
    join_parts "" (plan_part dry_run pending ∷ diff_part show_diff pending ∷ some output ∷ [])

-- `OUTPUT_LIMIT` is 8 MiB.
unfoldable pub captured_output : Bool → String → Bool → Result String String
unfolding trim
captured_output dry_run output cut =
    if dry_run
    then ok ""
    else if cut
    then err "output is over 8 MiB, too long for register= (only its start and end were kept)"
    else ok (trim output)

-- The `cmd` argument that stands in for an empty resource.
unfoldable pub cmd_resource : Option ParamValue → String
unfolding join
cmd_resource (some (ParamValue.list cmds)) = join " && " cmds
cmd_resource (some (ParamValue.string s)) = s
cmd_resource _ = ""

unfoldable pub raw_resource : TaskDef → String
unfolding cmd_resource get
raw_resource task =
    if str_eq task.resource "" then cmd_resource (get task.args "cmd") else task.resource
