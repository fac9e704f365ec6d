-- ===== src/Common/Errors.antt =====
-- error.rs, and Rust's `Result` as a monad.
use Prim.Native.Nat.{ℕ}
use Prim.Native.String.{String}
use mathlib.Core.Path.{◌≡◌, refl}
use mathlib.Core.Logic.{◌⊎◌, inl, inr}
use mathlib.Core.List.{[], ◌∷◌}
use glidesh.Common.Texts.{fmt, show}

pub data Result {ℓ} (E : Type 0) (A : Type ℓ) : Type ℓ where
  ok : A → Result E A
  err : E → Result E A

infixl 5 ◌>>=◌
abbrev pub ◌>>=◌ {ℓ κ} :
    {E : Type 0} {A : Type ℓ} {B : Type κ} → Result E A → (A → Result E B) → Result E B
ok a >>= f = f a
err e >>= f = err e

abbrev pub map_err {ℓ} : {E F : Type 0} {A : Type ℓ} → (E → F) → Result E A → Result F A
map_err f (ok a) = ok a
map_err f (err e) = err (f e)

pub Result-cases {ℓ} :
    {E : Type 0} {A : Type ℓ} (r : Result E A) → ((a : A) × (r ≡ ok a)) ⊎ ((e : E) × (r ≡ err e))
Result-cases (ok a) = inl (a, refl)
Result-cases (err e) = inr (e, refl)

-- `GlideshError`; of an error of input and output the text is kept.
pub data GlideshError : Type 0 where
  ssh_connection : String → GlideshError
  ssh_auth : String → String → String → GlideshError
  ssh_command : ℕ → String → String → GlideshError
  ssh_channel key_load config_parse template_error secret : String → GlideshError
  module_error : String → String → GlideshError
  run_as_failed : String → String → String → GlideshError
  os_detection executor io : String → GlideshError
  no_targets : GlideshError
  other : String → GlideshError

-- `to_string` of these errors.
abbrev pub error_text : GlideshError → String
error_text (ssh_connection m) = fmt ("SSH connection failed: " ∷ m ∷ [])
error_text (ssh_auth host user m) =
    fmt ("SSH authentication failed for " ∷ user ∷ "@" ∷ host ∷ ": " ∷ m ∷ [])
error_text (ssh_command code stdout stderr) =
    fmt ("SSH command failed (exit code " ∷ show code ∷ "): " ∷ stderr ∷ [])
error_text (ssh_channel m) = fmt ("SSH channel error: " ∷ m ∷ [])
error_text (key_load m) = fmt ("Key loading failed: " ∷ m ∷ [])
error_text (config_parse m) = fmt ("Config parse error: " ∷ m ∷ [])
error_text (template_error m) = fmt ("Template interpolation error: " ∷ m ∷ [])
error_text (secret m) = fmt ("Secret error: " ∷ m ∷ [])
error_text (module_error name m) = fmt ("Module error in " ∷ name ∷ ": " ∷ m ∷ [])
error_text (run_as_failed user method message) =
    fmt ("Privilege escalation failed (run-as " ∷ user ∷ " via " ∷ method ∷ "): " ∷ message ∷ [])
error_text (os_detection m) = fmt ("OS detection failed: " ∷ m ∷ [])
error_text (executor m) = fmt ("Executor error: " ∷ m ∷ [])
error_text (io m) = fmt ("IO error: " ∷ m ∷ [])
error_text no_targets = "No targets resolved for the given filter"
error_text (other m) = m
