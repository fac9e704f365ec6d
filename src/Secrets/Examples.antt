-- ===== src/Secrets/Examples.antt =====
-- Secrets, after the tests of secrets/mod.rs and secrets/token.rs, with a cipher that appends a
-- tag and a code of bytes that counts.
use Prim.Native.Char.{code}
use glidesh.Common.{
  ℕ, zero, suc, ◌-◌, ◌≡◌, refl, ap, ◌∙◌, arith, String, true, false, Option, none, some, [], ◌∷◌,
  ◌++◌, length, take, replicate, length-append, ok, glue, ◌==◌,
}
use glidesh.Common.Chars.{has_text, bytes}
use glidesh.Events.{step_failed}
use glidesh.Secrets.{SecretRegistry, default, register, redact}
use glidesh.Secrets.Redaction.{register_all, redact-hides_registered}
use glidesh.Secrets.RoundTrip.{decrypt_value-encrypt_value, take-append}
use glidesh.Secrets.Sink.{send, Hide, texts, labels}
use glidesh.Secrets.Token.{Bytes, Crypto, IsSound, decrypt_value, encrypt_value, tag_len}
use glidesh.Secrets.Vault.{Secrets, decrypt_map}
use glidesh.Secrets.Exposure.{decrypt_map-Hides}

abbrev login : SecretRegistry
unfolding register
login = register_all default ("pass" ∷ "password" ∷ [])

redacted : redact login "login password now" ≡ "login *** now"
unfolding redact register
redacted = refl

redact-hides_registered_example :
    has_text (redact (register_all default ("pass" ∷ "password" ∷ [])) "login password now") "pass"
    ≡ false
redact-hides_registered_example =
    redact-hides_registered ("pass" ∷ "password" ∷ []) "pass" "login password now" refl
      (unfold bytes in omega arith) (refl, (refl, (refl, (refl, tt))))

-- A byte as so many `a`, and a `b`.
abbrev write_byte : ℕ → String → String
write_byte zero s = String.◌∷◌ "b" s
write_byte (suc n) s = String.◌∷◌ "a" (write_byte n s)

abbrev encode : Bytes → String
encode [] = ""
encode (b ∷ bs) = write_byte b (encode bs)

abbrev bump : Bytes → Bytes
bump [] = []
bump (b ∷ bs) = suc b ∷ bs

abbrev decode_all : String → Bytes
decode_all String.[] = []
decode_all (String.◌∷◌ c s) = elim (code c == b'a') [
  | true ↦ bump (decode_all s)
  | false ↦ zero ∷ decode_all s
]

abbrev tag : Bytes
tag = replicate tag_len 0

abbrev as_text : Bytes → Option String
as_text [] = none
as_text (b ∷ bs) = some "hunter2"

abbrev toy : Crypto
toy = record {
  encode = encode;
  decode = λ s. some (decode_all s);
  encrypt = λ key nonce text. some (text ++ tag);
  decrypt = λ key nonce sealed. some (take (length sealed - tag_len) sealed);
  from_utf8 = as_text;
}

decode_all-write_byte : (b : ℕ) (s : String) → decode_all (write_byte b s) ≡ b ∷ decode_all s
decode_all-write_byte zero s = refl
decode_all-write_byte (suc b) s = rw (decode_all-write_byte b s) refl

decode_all-encode : (bs : Bytes) → decode_all (encode bs) ≡ bs
decode_all-encode [] = refl
decode_all-encode (b ∷ bs) =
    decode_all-write_byte b (encode bs) ∙ ap (λ l. b ∷ l) (decode_all-encode bs)

opened-sealed : (text : Bytes) → take (length (text ++ tag) - tag_len) (text ++ tag) ≡ text
opened-sealed text =
    let n : length (text ++ tag) - tag_len ≡ length text = omega (arith, length-append text tag) in
    rw n (take-append text tag)

toy-IsSound : IsSound toy
toy-IsSound = record {
  decode-encode = λ b. ap some (decode_all-encode b);
  decrypt-encrypt = λ key nonce text sealed e.
      let is : text ++ tag ≡ sealed = cc in rw (← is) (ap some (opened-sealed text));
  length-encrypt = λ key nonce text sealed e.
      let is : text ++ tag ≡ sealed = cc in rw (← is) (length-append text tag);
}

abbrev nonce : Bytes
nonce = replicate 24 1

abbrev token : String
token = glue "secret:v1:" (encode (nonce ++ (7 ∷ []) ++ tag))

decrypt_value-encrypt_value_example : decrypt_value toy [] token ≡ ok "hunter2"
unfolding encrypt_value
decrypt_value-encrypt_value_example =
    decrypt_value-encrypt_value toy toy-IsSound [] nonce (7 ∷ []) "hunter2" token refl refl refl

abbrev vault : Secrets
vault = record { dek = some []; has_metadata = true }

abbrev after : SecretRegistry
after = record { plaintexts = "hunter2" ∷ [] }

decrypt_map-Hides_example :
    Hide "hunter2" (texts (send after (step_failed "web" "login" "denied: hunter2")))
    × (labels (send after (step_failed "web" "login" "denied: hunter2")) ≡ "web" ∷ "login" ∷ [])
unfolding decrypt_map has_text
decrypt_map-Hides_example =
    decrypt_map-Hides toy vault (("user", "ada") ∷ ("password", token) ∷ [])
      (("user", "ada") ∷ ("password", "hunter2") ∷ []) default after 1 "password" token "password"
      "hunter2" (step_failed "web" "login" "denied: hunter2") (record { descending = tt }) refl refl
      refl refl (unfold bytes in omega arith)
      (refl, (refl, (refl, (refl, (refl, (refl, (refl, tt))))))) (refl, (refl, tt))
