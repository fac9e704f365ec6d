-- ===== src/Secrets/Vault.antt =====
-- `Secrets` of secrets/mod.rs, `rewrite_tokens` of secrets/token.rs, and the provider block of
-- secrets/config.rs. The registry is the state that an action passes on, also where it fails.
use Prim.Native.Char.{code}
use glidesh.Common.{
  ℕ, zero, suc, ◌-◌, String, Bool, true, false, ◌&&◌, ◌||◌, Option, none, some, List, [], ◌∷◌,
  if◌then◌else◌, ◌==◌, leb, Result, ok, err, GlideshError, secret, fmt, glue, size,
}
use glidesh.Common.Chars.{strip_prefix}
use glidesh.Common.Dict.{Dict}
use glidesh.Secrets.{SecretRegistry, register}
use glidesh.Secrets.Token.{
  Bytes, Crypto, decrypt_value, secret_prefix, is_secret_token, contains_secret_token,
}
use glidesh.Template.Data.{TemplateData}

abbrev pub Action {ℓ} : Type ℓ → Type ℓ
Action A = SecretRegistry → Result GlideshError A × SecretRegistry

abbrev pub pure {ℓ} : {A : Type ℓ} → A → Action A
pure a r = (ok a, r)

abbrev pub and_then {ℓ κ} :
    {A : Type ℓ} {B : Type κ}
    → Result GlideshError A × SecretRegistry
    → (A → Action B)
    → Result GlideshError B × SecretRegistry
and_then (ok a, r) f = f a r
and_then (err e, r) f = (err e, r)

infixl 5 ◌>>=◌
abbrev pub ◌>>=◌ {ℓ κ} : {A : Type ℓ} {B : Type κ} → Action A → (A → Action B) → Action B
◌>>=◌ m f r = and_then (m r) f

-- `is_ascii_alphanumeric`, `-` or `_`
unfoldable pub is_token_char : ℕ → Bool
is_token_char c =
    (leb b'0' c && leb c b'9')
    || (leb b'A' c && leb c b'Z')
    || (leb b'a' c && leb c b'z')
    || c == b'-'
    || c == b'_'

-- The characters up to the first that cannot stand in a token.
unfoldable pub run : String → String
unfolding is_token_char
run String.[] = ""
run (String.◌∷◌ c s) = let rest = run s in if is_token_char (code c) then String.◌∷◌ c rest else ""

-- The token that the text opens with.
unfoldable pub token_at : String → Option String
unfolding run strip_prefix
token_at s = elim (strip_prefix secret_prefix s) [
  | none ↦ none
  | some after ↦ some (glue secret_prefix (run after))
]

-- `skip` counts the characters left of a token that was rewritten.
unfoldable pub rewrite_from : (String → Action String) → ℕ → String → Action String
unfolding token_at
rewrite_from rewrite skip String.[] = pure ""
rewrite_from rewrite (suc skip) (String.◌∷◌ c s) = rewrite_from rewrite skip s
rewrite_from rewrite zero (String.◌∷◌ c s) = elim (token_at (String.◌∷◌ c s)) [
  | none ↦ do rest ← rewrite_from rewrite zero s; pure (String.◌∷◌ c rest)
  | some token ↦ do
    written ← rewrite token
    rest ← rewrite_from rewrite (size token - 1) s
    pure (glue written rest)
]

unfoldable pub rewrite_tokens : String → (String → Action String) → Action String
unfolding rewrite_from
rewrite_tokens text rewrite = rewrite_from rewrite zero text

pub record Secrets : Type 0 where
  pub dek : Option Bytes
  pub has_metadata : Bool

-- `locked`, with the registry `default`.
abbrev pub locked : Secrets
locked = record { dek = none; has_metadata = false }

pub data Provider : Type 0 where
  passphrase age : Provider

unfoldable pub as_str : Provider → String
as_str passphrase = "passphrase"
as_str age = "age"

pub record SecretRecipient : Type 0 where
  pub name : String
  pub key : String

pub record SecretsConfig : Type 0 where
  pub provider : Provider
  pub encryptedkey : String
  pub recipients : List SecretRecipient

pub data Identity : Type 0 where
  passphrase ssh_key : String → Identity

abbrev pub Unwrap : Type 0
Unwrap = String → String → Result GlideshError Bytes

-- The providers (secrets/passphrase.rs, secrets/age.rs) are arguments, from a credential and the
-- wrapped key.
unfoldable pub unwrap_with :
    Unwrap → Unwrap → Provider → Identity → String → Result GlideshError Bytes
unwrap_with by_passphrase by_age Provider.passphrase (Identity.passphrase pass) wrapped =
    by_passphrase pass wrapped
unwrap_with by_passphrase by_age Provider.passphrase (ssh_key path) wrapped = err (
    secret
      "this secrets file is passphrase-protected: set GLIDESH_SECRET_PASS or use --ask-secret-pass")
unwrap_with by_passphrase by_age Provider.age (ssh_key path) wrapped = by_age path wrapped
unwrap_with by_passphrase by_age Provider.age (Identity.passphrase pass) wrapped = err (
    secret
      "this secrets file is wrapped to SSH recipients: point at your private key with --secret-identity or GLIDESH_SECRET_IDENTITY")

unfoldable pub unwrap_dek : Unwrap → Unwrap → SecretsConfig → Identity → Result GlideshError Bytes
unfolding unwrap_with
unwrap_dek by_passphrase by_age config id =
    unwrap_with by_passphrase by_age config.provider id config.encryptedkey

abbrev with_dek : Result GlideshError Bytes → Result GlideshError Secrets
with_dek (ok dek) = ok (record { dek = some dek; has_metadata = true })
with_dek (err e) = err e

-- The context's registry is `default`.
unfoldable pub open_secrets :
    Unwrap → Unwrap → Option SecretsConfig → Option Identity → Result GlideshError Secrets
unfolding unwrap_dek
open_secrets by_passphrase by_age none id = ok locked
open_secrets by_passphrase by_age (some config) none =
    ok (record { dek = none; has_metadata = true })
open_secrets by_passphrase by_age (some config) (some id) =
    with_dek (unwrap_dek by_passphrase by_age config id)

unfoldable pub locked_error : Bool → GlideshError
unfolding fmt
locked_error has_metadata = secret (
    fmt (
      "encrypted value found but the secrets key is unavailable — "
      ∷ (if has_metadata
          then "provide the passphrase via GLIDESH_SECRET_PASS or --ask-secret-pass"
          else "no secrets provider is configured — run `glidesh secret init` to create or initialize a secrets.kdl, or point at an existing one with --secrets / GLIDESH_SECRETS")
      ∷ []))

abbrev pub keep_plaintext : Result GlideshError String → Action String
keep_plaintext (ok plaintext) r = (ok plaintext, register r plaintext)
keep_plaintext (err e) r = (err e, r)

module _ (crypto : Crypto) (vault : Secrets) where
  unfoldable pub decrypt_with : Option Bytes → String → Action String
  unfolding decrypt_value register locked_error
  decrypt_with none token r = (err (locked_error vault.has_metadata), r)
  decrypt_with (some dek) token r = keep_plaintext (decrypt_value crypto dek token) r

  unfoldable pub decrypt_token : String → Action String
  unfolding decrypt_with
  decrypt_token token = decrypt_with vault.dek token

  -- One value of a map: a token is decrypted, any other value is left.
  unfoldable pub decrypt_entry : String → Action String
  unfolding decrypt_token is_secret_token
  decrypt_entry value = if is_secret_token value then decrypt_token value else pure value

  unfoldable pub decrypt_map : Dict String → Action (Dict String)
  unfolding decrypt_entry
  decrypt_map [] = pure []
  decrypt_map ((k, v) ∷ m) = do w ← decrypt_entry v; rest ← decrypt_map m; pure ((k, w) ∷ rest)

  -- `decrypt_vars`
  abbrev pub decrypt_vars : Dict String → Action (Dict String)
  decrypt_vars = decrypt_map

  unfoldable pub decrypt_rows : List (Dict String) → Action (List (Dict String))
  unfolding decrypt_map
  decrypt_rows [] = pure []
  decrypt_rows (row ∷ rows) = do
    row' ← decrypt_map row
    rest ← decrypt_rows rows
    pure (row' ∷ rest)

  unfoldable pub decrypt_collections :
      Dict (List (Dict String)) → Action (Dict (List (Dict String)))
  unfolding decrypt_rows
  decrypt_collections [] = pure []
  decrypt_collections ((k, rows) ∷ m) = do
    rows' ← decrypt_rows rows
    rest ← decrypt_collections m
    pure ((k, rows') ∷ rest)

  unfoldable pub decrypt_template_data : TemplateData → Action TemplateData
  unfolding decrypt_map decrypt_collections
  decrypt_template_data template_data = do
    extra ← decrypt_map template_data.extra_vars
    collections ← decrypt_collections template_data.collections
    pure (record { extra_vars = extra; collections = collections })

  unfoldable pub decrypt_inline : String → Action String
  unfolding rewrite_tokens decrypt_token contains_secret_token
  decrypt_inline s = if contains_secret_token s then rewrite_tokens s decrypt_token else pure s
