-- ===== src/Secrets.antt =====
-- `SecretRegistry` of secrets/mod.rs: the plaintexts of a run, and what masks them.
pub mod Masking
pub mod Redaction
pub mod Sink
pub mod Token
pub mod RoundTrip
pub mod Vault
pub mod Exposure
pub mod Store
mod Examples
use glidesh.Common.{
  ℕ, ◌+◌, ◌≤◌, String, Bool, true, false, List, [], ◌∷◌, ◌++◌, if◌then◌else◌, ltb, any, contains,
  str_eq,
}
use glidesh.Common.Chars.{has_text, replace, bytes}

-- `MIN_REDACTABLE_LEN`, in bytes.
abbrev pub min_redactable_len : ℕ
min_redactable_len = 4

pub record SecretRegistry : Type 0 where
  pub plaintexts : List String

abbrev pub default : SecretRegistry
default = record { plaintexts = [] }

-- `sort_by_key` with `Reverse(s.len())`, a stable sort.
abbrev pub place : String → List String → List String
place s [] = s ∷ []
place s (t ∷ ts) = let rest = place s ts in if ltb (bytes s) (bytes t) then t ∷ rest else s ∷ t ∷ ts

abbrev pub longest_first : List String → List String
longest_first [] = []
longest_first (s ∷ ss) = place s (longest_first ss)

-- The warning about a short value is not modelled.
unfoldable pub register : SecretRegistry → String → SecretRegistry
unfolding bytes
register registry plaintext =
    if str_eq plaintext ""
    then registry
    else if contains registry.plaintexts plaintext
    then registry
    else record { plaintexts = longest_first (registry.plaintexts ++ plaintext ∷ []) }

unfoldable pub is_empty : SecretRegistry → Bool
is_empty registry = elim registry.plaintexts [ [] ↦ true | s ∷ ss ↦ false ]

unfoldable pub contains_secret : SecretRegistry → String → Bool
unfolding has_text
contains_secret registry text = any (λ p. has_text text p) registry.plaintexts

-- The loop of `redact`, which breaks at the first secret that is too short.
unfoldable pub mask : List String → String → String
unfolding has_text replace bytes
mask [] out = out
mask (s ∷ ss) out =
    let rest = mask ss (if has_text out s then replace out s "***" else out) in
    if ltb (bytes s) min_redactable_len then out else rest

unfoldable pub redact : SecretRegistry → String → String
unfolding mask
redact registry text = mask registry.plaintexts text
