-- ===== src/Escalation.antt =====
-- modules/escalation.rs and util.rs: how a command runs as another user. The name that `sudo`
-- prompts with ends in a fresh identifier, which is a parameter.
mod Words
mod Examples
use glidesh.Common.{
  String, Bool, true, false, any, Result, ok, err, GlideshError, run_as_failed, fmt, str_eq, Option,
  none, some, List, [], ◌∷◌, ◌==◌, if◌then◌else◌, glue,
}
use glidesh.RunAs.{RunAsMethod, sudo, doas, su, ResolvedRunAs}
use glidesh.Common.Chars.{has_text, trim}
use glidesh.Runner.Reports.{CommandOutput}
use Prim.Native.Char.{Char, code}

-- `s.replace('\'', "'\\''")`
unfoldable pub replace_quotes : String → String
replace_quotes String.[] = ""
replace_quotes (String.◌∷◌ c s) =
    let rest = replace_quotes s in if code c == 39 then glue "'\\''" rest else String.◌∷◌ c rest

-- Texts one after the other, as `format!` has them.
unfoldable pub format : List String → String
format [] = ""
format (t ∷ ts) = glue t (format ts)

-- `shell_escape` of util.rs.
unfoldable pub shell_escape : String → String
unfolding replace_quotes format
shell_escape s = format ("'" ∷ replace_quotes s ∷ "'" ∷ [])

-- Bytes are texts.
pub record Wrapped : Type 0 where
  pub command : String
  pub stdin : Option String
  pub pty : Bool
  pub prompt : Option (String × String)

abbrev line : String → String
line password = format (password ∷ "\n" ∷ [])

abbrev password_line : Option String → Option String
password_line none = none
password_line (some password) = some (line password)

unfoldable pub method_name : RunAsMethod → String
method_name sudo = "sudo"
method_name doas = "doas"
method_name su = "su"

abbrev wrap_sudo : String → String → String → Option String → Wrapped
wrap_sudo fresh user cmd none = record {
  command = format ("sudo -n -u " ∷ user ∷ " -- sh -c " ∷ cmd ∷ []);
  stdin = none;
  pty = false;
  prompt = none;
}
wrap_sudo fresh user cmd (some password) =
    let prompt = format ("glidesh-sudo-prompt-" ∷ fresh ∷ []) in
    record {
      command =
          format ("sudo -k -S -p " ∷ shell_escape prompt ∷ " -u " ∷ user ∷ " -- sh -c " ∷ cmd ∷ []);
      stdin = none;
      pty = false;
      prompt = some (prompt, line password);
    }

abbrev wrap_with : RunAsMethod → String → String → String → Option String → Wrapped
wrap_with sudo fresh user cmd password = wrap_sudo fresh user cmd password
wrap_with doas fresh user cmd password = record {
  command = format ("doas -n -u " ∷ user ∷ " sh -c " ∷ cmd ∷ []);
  stdin = none;
  pty = false;
  prompt = none;
}
wrap_with su fresh user cmd password = record {
  command = format ("su " ∷ user ∷ " -c " ∷ cmd ∷ []);
  stdin = password_line password;
  pty = true;
  prompt = none;
}

-- `wrap`
unfoldable pub wrap : String → ResolvedRunAs → String → Wrapped
unfolding shell_escape format
wrap fresh run_as inner =
    wrap_with run_as.method fresh (shell_escape run_as.user) (shell_escape inner) run_as.password

abbrev no_password : String
no_password = "su requires a password; provide --ask-pass or set GLIDESH_RUNAS_PASS"

-- `precheck`
unfoldable pub precheck : ResolvedRunAs → Result {0} GlideshError Unit
unfolding method_name
precheck run_as = elim run_as.method [
  | su ↦ elim run_as.password [
    | none ↦ err (run_as_failed run_as.user (method_name su) no_password)
    | some _ ↦ ok tt
  ]
  | _ ↦ ok tt
]

-- `DENIAL_MARKERS`
abbrev denial_markers : List String
denial_markers =
    "incorrect password" ∷ "sorry, try again" ∷ "is not in the sudoers file" ∷ "is not permitted"
    ∷ "a password is required" ∷ "a terminal is required" ∷ "no tty present"
    ∷ "authentication failure" ∷ "authentication failed" ∷ []

-- `classify_failure`, given `to_lowercase`.
unfoldable pub classify_failure :
    (String → String) → ResolvedRunAs → CommandOutput → Option GlideshError
unfolding method_name has_text trim fmt
classify_failure to_lowercase run_as out =
    let combined = to_lowercase (fmt (out.stdout ∷ "\n" ∷ out.stderr ∷ [])) in
    let stderr = trim out.stderr in
    let message = if str_eq stderr "" then trim out.stdout else stderr in
    if out.exit_code == 0
    then none
    else if any (has_text combined) denial_markers
    then some (run_as_failed run_as.user (method_name run_as.method) message)
    else none
