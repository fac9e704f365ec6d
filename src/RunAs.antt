-- ===== src/RunAs.antt =====
-- Privilege escalation settings: `RunAsMethod`, `RunAsUser`, `RunAsSpec` and `ResolvedRunAs` of
-- config/types.rs.
pub mod Levels
mod Examples
use glidesh.Common.{String, Option, none, some, or_else, unwrap_or, str_eq, if◌then◌else◌}

pub data RunAsMethod : Type 0 where
  sudo doas su : RunAsMethod

unfoldable pub parse_method : String → Option RunAsMethod
parse_method s =
    if str_eq s "sudo"
    then some sudo
    else if str_eq s "doas"
    then some doas
    else if str_eq s "su"
    then some su
    else none

pub data RunAsUser : Type 0 where
  disabled : RunAsUser
  user : String → RunAsUser

pub record RunAsSpec : Type 0 where
  pub user : Option RunAsUser
  pub method : Option RunAsMethod

-- `RunAsSpec::default()`
abbrev pub inherit : RunAsSpec
inherit = record { user = none; method = none }

pub record ResolvedRunAs : Type 0 where
  pub user : String
  pub method : RunAsMethod
  pub password : Option String

unfoldable pub merge_over : RunAsSpec → RunAsSpec → RunAsSpec
merge_over self base = record {
  user = or_else self.user base.user;
  method = or_else self.method base.method;
}

-- `#[default] Sudo`
abbrev resolve_user : Option RunAsUser → Option RunAsMethod → Option String → Option ResolvedRunAs
resolve_user (some (RunAsUser.user u)) method password =
    some (record { user = u; method = unwrap_or method sudo; password = password })
resolve_user (some disabled) method password = none
resolve_user none method password = none

unfoldable pub resolve : RunAsSpec → Option String → Option ResolvedRunAs
resolve spec password = resolve_user spec.user spec.method password
