-- ===== src/Plan.antt =====
-- The data of a plan, of config/types.rs. An `Include` is what `resolve_includes` takes away.
use glidesh.Common.{ℕ, String, Bool, unwrap_or, Option, List, [], ◌∷◌, ◌++◌}
use glidesh.Common.Dict.{Dict}
use glidesh.Condition.Syntax.{Condition}
use glidesh.Rollout.{Amount}
use glidesh.RunAs.{RunAsSpec}
use glidesh.Template.{ParamValue}

pub data ExecutionMode : Type 0 where
  sync async : ExecutionMode

pub record VarPrompt : Type 0 where
  pub name : String
  pub text : String
  pub default : Option String
  pub secret : Bool

pub data LoopSource : Type 0 where
  variable : String → LoopSource
  literal : List String → LoopSource

-- Seconds.
pub record UntilGate : Type 0 where
  pub command : String
  pub timeout : ℕ
  pub interval : ℕ

pub record TaskDef : Type 0 where
  pub module_name : String
  pub resource : String
  pub args : Dict ParamValue
  pub register : Option String
  pub run_as : RunAsSpec
  pub when : Option Condition

pub record Step : Type 0 where
  pub name : String
  pub tasks : List TaskDef
  pub loop_source : Option LoopSource
  pub subscribe : List String
  pub run_as : RunAsSpec
  pub when : Option Condition
  pub tags : List String
  pub until : Option UntilGate
  pub rescue : List TaskDef
  pub always : List TaskDef
  pub source_dir : Option String

pub record Include : Type 0 where
  pub path : String
  pub tags : List String

pub data PlanItem : Type 0 where
  step : Step → PlanItem
  include : Include → PlanItem

pub record Plan : Type 0 where
  pub name : String
  pub mode : ExecutionMode
  pub serial : List Amount
  pub max_fail : Option Amount
  pub vars : Dict String
  pub structured_vars : Dict (List (Dict String))
  pub vars_files : List String
  pub prompts : List VarPrompt
  pub answers : Dict String
  pub run_as : RunAsSpec
  pub items : List PlanItem

abbrev steps_of : List PlanItem → List Step
steps_of [] = []
steps_of (step s ∷ items) = s ∷ steps_of items
steps_of (include i ∷ items) = steps_of items

-- `Plan::steps`
unfoldable pub steps : Plan → List Step
steps plan = steps_of plan.items

-- `Step::all_tasks`
unfoldable pub all_tasks : Step → List TaskDef
all_tasks s = s.tasks ++ (s.rescue ++ s.always)

-- `Step::base_dir`
unfoldable pub base_dir : Step → String → String
base_dir s plan_dir = unwrap_or s.source_dir plan_dir
