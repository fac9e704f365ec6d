-- ===== src/Secrets/Token.antt =====
-- The tokens of secrets/token.rs. The cipher, base64 and UTF-8 are libraries, and stand as a
-- record of their functions; `random_bytes` gives the nonce, which is an argument.
use glidesh.Common.{
  ℕ, ◌+◌, ◌≡◌, String, Bool, Option, none, some, List, [], ◌∷◌, ◌++◌, if◌then◌else◌, ltb, length,
  take, drop, Result, ok, err, ◌>>=◌, GlideshError, secret, fmt, glue,
}
use glidesh.Common.Chars.{strip_prefix, starts_with, has_text}

abbrev pub Bytes : Type 0
Bytes = List ℕ

pub record Crypto : Type 0 where
  pub encode : Bytes → String
  pub decode : String → Option Bytes
  pub encrypt : Bytes → Bytes → Bytes → Option Bytes
  pub decrypt : Bytes → Bytes → Bytes → Option Bytes
  pub from_utf8 : Bytes → Option String

abbrev pub secret_prefix : String
secret_prefix = "secret:v1:"

abbrev pub nonce_len : ℕ
nonce_len = 24

abbrev pub tag_len : ℕ
tag_len = 16

unfoldable pub is_secret_token : String → Bool
unfolding starts_with
is_secret_token s = starts_with s secret_prefix

unfoldable pub contains_secret_token : String → Bool
unfolding has_text
contains_secret_token s = has_text s secret_prefix

-- `ok_or_else`
abbrev pub ok_or {ℓ} : {A : Type ℓ} → Option A → GlideshError → Result GlideshError A
ok_or none e = err e
ok_or (some a) e = ok a

unfoldable pub malformed : String → GlideshError
unfolding fmt
malformed reason = secret (fmt ("malformed secret token: " ∷ reason ∷ []))

module _ (crypto : Crypto) where
  open crypto use {encode, decode, encrypt, decrypt, from_utf8}

  unfoldable pub encrypt_value : Bytes → Bytes → Bytes → Result GlideshError String
  encrypt_value dek nonce plaintext = do
    ciphertext ← ok_or (encrypt dek nonce plaintext) (secret "failed to encrypt secret value")
    ok (glue secret_prefix (encode (nonce ++ ciphertext)))

  -- From the nonce, the ciphertext and its tag.
  unfoldable pub decrypt_blob : Bytes → Bytes → Result GlideshError String
  unfolding malformed
  decrypt_blob dek blob =
      if ltb (length blob) (nonce_len + tag_len)
      then err (malformed "secret token too short")
      else do
        plaintext ←
            ok_or (decrypt dek (take nonce_len blob) (drop nonce_len blob))
              (secret "failed to decrypt secret value (wrong key or corrupted token)")
        ok_or (from_utf8 plaintext) (malformed "secret is not valid UTF-8")

  unfoldable pub decrypt_value : Bytes → String → Result GlideshError String
  unfolding decrypt_blob strip_prefix
  decrypt_value dek token = do
    body ← ok_or (strip_prefix secret_prefix token) (malformed "not a secret token")
    blob ← ok_or (decode body) (malformed "invalid base64 in secret token")
    decrypt_blob dek blob

-- What is asked of the libraries: that what was written is read back, and the length of the tag.
pub record IsSound (crypto : Crypto) : Type 0 where
  pub decode-encode : (b : Bytes) → crypto.decode (crypto.encode b) ≡ some b
  pub decrypt-encrypt :
      (key nonce text sealed : Bytes)
      → crypto.encrypt key nonce text ≡ some sealed
      → crypto.decrypt key nonce sealed ≡ some text
  pub length-encrypt :
      (key nonce text sealed : Bytes)
      → crypto.encrypt key nonce text ≡ some sealed
      → length sealed ≡ length text + tag_len
