-- ===== src/Secrets/RoundTrip.antt =====
-- Encryption of a value and its decryption with the same key.
use glidesh.Common.{
  ◌≡◌, refl, ◌∙◌, arith, String, false, some, List, [], ◌∷◌, ◌++◌, length, take, drop,
  length-append, ok, glue, Option-cases, inl, inr, ltb,
}
use glidesh.Secrets.Token.{
  Bytes, Crypto, IsSound, secret_prefix, nonce_len, encrypt_value, decrypt_blob, decrypt_value,
}

pub take-append : {A : Type 0} (xs ys : List A) → take (length xs) (xs ++ ys) ≡ xs
take-append [] ys = refl
take-append (x ∷ xs) ys = rw (take-append xs ys) refl

drop-append : {A : Type 0} (xs ys : List A) → drop (length xs) (xs ++ ys) ≡ ys
drop-append [] ys = refl
drop-append (x ∷ xs) ys = drop-append xs ys

module _ (crypto : Crypto) (sound : IsSound crypto) where
  decrypt_blob-sealed :
      (dek nonce sealed plaintext : Bytes) (text : String)
      → length nonce ≡ nonce_len
      → crypto.encrypt dek nonce plaintext ≡ some sealed
      → crypto.from_utf8 plaintext ≡ some text
      → decrypt_blob crypto dek (nonce ++ sealed) ≡ ok text
  unfolding decrypt_blob
  decrypt_blob-sealed dek nonce sealed plaintext text n e utf8 =
      let opened = sound.decrypt-encrypt dek nonce plaintext sealed e in
      let front : take nonce_len (nonce ++ sealed) ≡ nonce = rw (← n) (take-append nonce sealed) in
      let back : drop nonce_len (nonce ++ sealed) ≡ sealed = rw (← n) (drop-append nonce sealed) in
      let long : ltb (length (nonce ++ sealed)) 40 ≡ false =
        ground (
          arith,
          n,
          length-append nonce sealed,
          sound.length-encrypt dek nonce plaintext sealed e,
        ) in
      rw (decrypt_blob, long, front, back, opened, utf8) refl

  decrypt_value-token :
      (dek blob : Bytes) (token : String)
      → token ≡ glue secret_prefix (crypto.encode blob)
      → decrypt_value crypto dek token ≡ decrypt_blob crypto dek blob
  unfolding decrypt_value
  decrypt_value-token dek blob token e = rw e (rw (sound.decode-encode blob) refl)

  -- Where the cipher and base64 read back what they write, a value that was encrypted under a nonce
  -- of its length decrypts with the same key to its text.
  pub decrypt_value-encrypt_value :
      (dek nonce plaintext : Bytes) (text token : String)
      → length nonce ≡ nonce_len
      → encrypt_value crypto dek nonce plaintext ≡ ok token
      → crypto.from_utf8 plaintext ≡ some text
      → decrypt_value crypto dek token ≡ ok text
  unfolding encrypt_value decrypt_value
  decrypt_value-encrypt_value dek nonce plaintext text token n e utf8 =
      elim (Option-cases (crypto.encrypt dek nonce plaintext)) [
        | inl failed ↦ absurd (cc (rw failed at e))
        | inr (sealed, made) ↦
            decrypt_value-token dek (nonce ++ sealed) token (cc (rw made at e))
            ∙ decrypt_blob-sealed dek nonce sealed plaintext text n made utf8
      ]
