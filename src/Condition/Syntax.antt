-- ===== src/Condition/Syntax.antt =====
-- The types of config/condition.rs.
use glidesh.Common.{String, Bool, List, [], ◌∷◌, Result, err, ◌++◌}

pub data Operand : Type 0 where
  var literal : String → Operand

pub data Op : Type 0 where
  eq ne : Op

pub data Atom : Type 0 where
  defined undefined : String → Atom
  truthy : Operand → Atom
  compare : Operand → Op → Operand → Atom

pub record Term : Type 0 where
  pub negated : Bool
  pub atom : Atom

pub record Condition : Type 0 where
  pub source : String
  pub any : List (List Term)

-- `out_of_fuel` is the model's own: the loops below run on fuel.
pub data ParseError : Type 0 where
  message : String → ParseError
  out_of_fuel : ParseError

abbrev pub fail {ℓ} : {A : Type ℓ} → String → Result ParseError A
fail m = err (message m)

-- `Operand::var`, as a list of at most one name.
abbrev operand_vars : Operand → List String
operand_vars (Operand.var v) = v ∷ []
operand_vars (Operand.literal s) = []

abbrev atom_vars : Atom → List String
atom_vars (defined v) = v ∷ []
atom_vars (undefined v) = v ∷ []
atom_vars (truthy o) = operand_vars o
atom_vars (compare l op r) = operand_vars l ++ operand_vars r

abbrev all_vars : List Term → List String
all_vars [] = []
all_vars (t ∷ ts) = atom_vars t.atom ++ all_vars ts

-- `Condition::variables`.
unfoldable pub variables : List (List Term) → List String
variables [] = []
variables (all ∷ any) = all_vars all ++ variables any
