-- ===== src/Runner/Interface.antt =====
-- What the runner asks of what surrounds it, as operations on the state `W` of the world: the
-- host behind the session, the secrets and their registry, the modules, the other hosts.
use glidesh.Common.{ℤ, ℕ, String, Bool, Option, Result}
use glidesh.Common.Dict.{Dict}
use glidesh.Detect.{OsInfo}
use glidesh.Inventory.{ResolvedHost}
use glidesh.RunAs.{ResolvedRunAs}
use glidesh.Runner.Reports.{CommandOutput}
use glidesh.Template.Data.{TemplateData}
use glidesh.Template.{ParamValue}

-- `Trigger` of modules/context.rs.
pub data Trigger : Type 0 where
  no_trigger idle fired : Trigger

-- `ModuleParams`, `ModuleStatus` and `ModuleResult` of modules/mod.rs.
pub record ModuleParams : Type 0 where
  pub resource_name : String
  pub args : Dict ParamValue

pub data ModuleStatus : Type 0 where
  satisfied : ModuleStatus
  pending : String → Option String → ModuleStatus
  unknown : String → ModuleStatus

pub record ModuleResult : Type 0 where
  pub changed : Bool
  pub output : String
  pub stderr : String
  pub exit_code : ℤ
  pub output_cut : Bool

-- `HostOutput` of modules/host.rs.
pub record HostOutput : Type 0 where
  pub stdout : String
  pub stderr : String
  pub exit_code : ℤ
  pub stdout_cut : Bool

-- `TaskKey` of executor/host_coordinator.rs.
pub record TaskKey : Type 0 where
  pub step_idx : ℕ
  pub task_idx : ℕ
  pub loop_iter : ℕ

-- What a module sees of the run: `ModuleContext`, but for the session and the registry.
pub record ModuleContext : Type 0 where
  pub os_info : OsInfo
  pub vars : Dict String
  pub template_data : TemplateData
  pub dry_run : Bool
  pub diff : Bool
  pub plan_base_dir : String
  pub run_as : Option ResolvedRunAs
  pub trigger : Trigger

-- How an attempt of a gate's command goes when nothing cuts it off: it ends, with its output or
-- an error, after some seconds, or it never ends.
pub data Attempt : Type 0 where
  ended : Result String CommandOutput → ℕ → Attempt
  hangs : Attempt

-- Errors are their texts, as the runner formats them.
pub record Env (W : Type 0) : Type 0 where
  pub connect : ResolvedHost → W → Result {0} String Unit × W
  pub detect_os : W → Result String OsInfo × W
  pub arrive : W → W
  pub decrypt_vars : Dict String → W → Result String (Dict String) × W
  pub decrypt_template_data : TemplateData → W → Result String TemplateData × W
  pub contains_secret_token : String → Bool
  pub decrypt_inline : String → W → Result String String × W
  pub redact : W → String → String
  pub password : Option String
  pub attempt : String → Option ResolvedRunAs → ℕ → W → Attempt × W
  pub has_module : String → Bool
  pub check : String → ModuleContext → ModuleParams → W → Result String ModuleStatus × W
  pub apply : String → ModuleContext → ModuleParams → W → Result String ModuleResult × W
  pub run_host_task : TaskKey → ModuleParams → W → Result String HostOutput × W
