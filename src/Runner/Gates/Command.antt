-- ===== src/Runner/Gates/Command.antt =====
-- The command that a gate runs.
use glidesh.Common.{
  ◌≡◌, refl, ap, String, Bool, true, false, if◌then◌else◌, Result, ok, err, map_err, error_text,
  GlideshError, [], ◌∷◌, fmt,
}
use glidesh.Plan.{Step, UntilGate}
use glidesh.Template.{interpolate}
use glidesh.Runner.Interface.{Env}
use glidesh.Runner.Params.{NodeRunner}
use glidesh.Runner.State.{RunState}
use glidesh.Runner.Gates.{decrypt_command, gate_command}

-- The command of a gate: its text with the variables put in and, if it has a secret, decrypted,
-- which leaves the world `start`.
pub record IsCommand {W : Type 0} (env : Env W) (gate : UntilGate) (s : RunState W)
    (command : String) (start : W) : Type 0 where
  pub text : String
  pub interpolated : interpolate gate.command s.vars ≡ ok text
  pub decrypted :
      (if env.contains_secret_token text
        then env.decrypt_inline text s.world
        else (ok text, s.world))
      ≡ (ok command, start)

module _ {W : Type 0} (env : Env W) (r : NodeRunner) (step : Step) (gate : UntilGate) where
  decrypt_command-decrypted :
      (text command : String) (s : RunState W)
      → (decrypt_command env r step gate text s).0 ≡ ok command
      → (if env.contains_secret_token text
          then env.decrypt_inline text s.world
          else (ok text, s.world))
        ≡ (ok command, (decrypt_command env r step gate text s).1.world)
  unfolding decrypt_command
  decrypt_command-decrypted text command s = go (env.contains_secret_token text)
    where
      kept :
          (result : Result String String)
          → map_err (λ e. fmt ("until=: " ∷ e ∷ [])) result ≡ ok command
          → result ≡ ok command
      kept (ok c) e = e
      kept (err c) e = absurd (cc)

      outcome : Bool → Result String String × RunState W
      outcome b =
          if b
          then (
            map_err (λ e. fmt ("until=: " ∷ e ∷ [])) (env.decrypt_inline text s.world).0,
            record s { world = (env.decrypt_inline text s.world).1 },
          )
          else (ok text, s)

      go :
          (b : Bool)
          → (outcome b).0 ≡ ok command
          → (if b then env.decrypt_inline text s.world else (ok text, s.world))
            ≡ (ok command, (outcome b).1.world)
      go true e = ap (λ c. (c, (env.decrypt_inline text s.world).1)) (kept _ e)
      go false e = ap (λ c. (c, s.world)) e

  pub gate_command-IsCommand :
      (s : RunState W) (command : String)
      → (gate_command env r step gate s).0 ≡ ok command
      → IsCommand env gate s command (gate_command env r step gate s).1.world
  unfolding gate_command
  gate_command-IsCommand s command = go (interpolate gate.command s.vars) refl
    where
      go :
          (t : Result GlideshError String)
          → interpolate gate.command s.vars ≡ t
          → (elim t as (λ _. Result String String × RunState W) [
            | err e ↦ (err (fmt ("until=: " ∷ error_text e ∷ [])), s)
            | ok text ↦ decrypt_command env r step gate text s
          ]).0
            ≡ ok command
          → IsCommand env gate s command
              (elim t as (λ _. Result String String × RunState W) [
                | err e ↦ (err (fmt ("until=: " ∷ error_text e ∷ [])), s)
                | ok text ↦ decrypt_command env r step gate text s
              ]).1.world
      go (err x) i e = absurd (cc)
      go (ok text) i e = record {
        text = text;
        interpolated = i;
        decrypted = decrypt_command-decrypted text command s e;
      }
