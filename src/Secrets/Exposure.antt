-- ===== src/Secrets/Exposure.antt =====
-- What the sink shows of values that were decrypted.
use glidesh.Common.{
  ◌≡◌, ◌≢◌, ◌≤◌, refl, ap, ◌∙◌, sym, arith, ℕ, zero, suc, String, true, none, some, Option, [], ◌∷◌,
  Bool-cases, contains, eq_iff, get_elem?, Result, ok, err, GlideshError, inl, inr,
}
use glidesh.Common.Chars.{bytes}
use glidesh.Common.Dict.{Dict}
use glidesh.Events.{ExecutorEvent}
use glidesh.Secrets.{SecretRegistry, register, min_redactable_len}
use glidesh.Secrets.Masking.{IsStarFree}
use glidesh.Secrets.Redaction.{IsSorted, register-IsSorted, contains-register, nonempty}
use glidesh.Secrets.Sink.{send, texts, labels, Hide, send-Hide}
use glidesh.Secrets.Token.{Bytes, Crypto, is_secret_token, decrypt_value}
use glidesh.Secrets.Vault.{
  Action, and_then, Secrets, keep_plaintext, decrypt_with, decrypt_token, decrypt_entry,
  decrypt_map,
}

-- A registry stays sorted and loses nothing.
pub record Grows (r r' : SecretRegistry) : Type 0 where
  pub sorted : IsSorted r → IsSorted r'
  pub kept : (p : String) → contains r.plaintexts p ≡ true → contains r'.plaintexts p ≡ true

Grows-refl : (r : SecretRegistry) → Grows r r
Grows-refl r = record { sorted = λ s. s; kept = λ p e. e }

Grows-trans : (a b c : SecretRegistry) → Grows a b → Grows b c → Grows a c
Grows-trans a b c f g = record {
  sorted = λ s. g.sorted (f.sorted s);
  kept = λ p e. g.kept p (f.kept p e);
}

Grows-register : (r : SecretRegistry) (plaintext : String) → Grows r (register r plaintext)
Grows-register r plaintext = record {
  sorted = λ s. register-IsSorted r plaintext s;
  kept = λ p e. ground (arith, contains-register r plaintext p);
}

module _ {A B : Type 0} where
  Grows-and_then :
      (r : SecretRegistry) (m : Result GlideshError A × SecretRegistry) (f : A → Action B)
      → Grows r m.1
      → ((a : A) (s : SecretRegistry) → Grows s (f a s).1)
      → Grows r (and_then m f).1
  Grows-and_then r (ok a, s) f g h = Grows-trans r s (f a s).1 g (h a s)
  Grows-and_then r (err e, s) f g h = g

  and_then-ok :
      (m : Result GlideshError A × SecretRegistry) (f : A → Action B) (b : B) (r' : SecretRegistry)
      → and_then m f ≡ (ok b, r')
      → (a : A) × (s : SecretRegistry) × (m ≡ (ok a, s)) × (f a s ≡ (ok b, r'))
  and_then-ok (ok a, s) f b r' e = (a, s, refl, e)
  and_then-ok (err x, s) f b r' e = absurd (cc (ap (λ p. p.0) e))

module _ (crypto : Crypto) (vault : Secrets) where
  keep_plaintext-Grows :
      (d : Result GlideshError String) (r : SecretRegistry) → Grows r (keep_plaintext d r).1
  keep_plaintext-Grows (ok p) r = Grows-register r p
  keep_plaintext-Grows (err e) r = Grows-refl r

  decrypt_with-Grows :
      (dek : Option Bytes) (token : String) (r : SecretRegistry)
      → Grows r (decrypt_with crypto vault dek token r).1
  unfolding decrypt_with
  decrypt_with-Grows none token r = Grows-refl r
  decrypt_with-Grows (some dek) token r = keep_plaintext-Grows (decrypt_value crypto dek token) r

  decrypt_entry-Grows :
      (v : String) (r : SecretRegistry) → Grows r (decrypt_entry crypto vault v r).1
  unfolding decrypt_entry decrypt_token
  decrypt_entry-Grows v r = elim (Bool-cases (is_secret_token v)) [
    | inl e ↦ rw e (decrypt_with-Grows vault.dek v r)
    | inr e ↦ rw e (Grows-refl r)
  ]

  decrypt_map-Grows :
      (m : Dict String) (r : SecretRegistry) → Grows r (decrypt_map crypto vault m r).1
  unfolding decrypt_map
  decrypt_map-Grows [] r = Grows-refl r
  decrypt_map-Grows ((k, v) ∷ m) r =
      Grows-and_then r (decrypt_entry crypto vault v r) _ (decrypt_entry-Grows v r) (λ w s.
        Grows-and_then s (decrypt_map crypto vault m s) _ (decrypt_map-Grows m s)
          (λ rest t. Grows-refl t))

  keep_plaintext-ok :
      (d : Result GlideshError String) (r r' : SecretRegistry) (p : String)
      → keep_plaintext d r ≡ (ok p, r')
      → r' ≡ register r p
  keep_plaintext-ok (ok q) r r' p e = ground arith
  keep_plaintext-ok (err x) r r' p e = absurd (cc (ap (λ p. p.0) e))

  decrypt_with-ok :
      (dek : Option Bytes) (token p : String) (r r' : SecretRegistry)
      → decrypt_with crypto vault dek token r ≡ (ok p, r')
      → r' ≡ register r p
  unfolding decrypt_with
  decrypt_with-ok none token p r r' e = absurd (cc (ap (λ p. p.0) e))
  decrypt_with-ok (some dek) token p r r' e =
      keep_plaintext-ok (decrypt_value crypto dek token) r r' p e

  decrypt_entry-contains :
      (v p : String) (r r' : SecretRegistry)
      → is_secret_token v ≡ true
      → decrypt_entry crypto vault v r ≡ (ok p, r')
      → p ≢ ""
      → contains r'.plaintexts p ≡ true
  unfolding decrypt_entry decrypt_token
  decrypt_entry-contains v p r r' t e ne =
      rw (decrypt_with-ok vault.dek v p r r' (rw t at e))
        (contains-register r p p ∙ ground (arith, eq_iff p "", eq_iff p p))

  -- The rounds of a map that was decrypted: the first entry's, and the rest's.
  decrypt_map-cons :
      (k v : String) (m vars' : Dict String) (r r' : SecretRegistry)
      → decrypt_map crypto vault ((k, v) ∷ m) r ≡ (ok vars', r')
      → (w : String) × (rest : Dict String) × (s : SecretRegistry) × (decrypt_entry crypto vault v r
          ≡ (ok w, s))
        × (decrypt_map crypto vault m s ≡ (ok rest, r'))
        × (vars' ≡ (k, w) ∷ rest)
  unfolding decrypt_map
  decrypt_map-cons k v m vars' r r' e =
      let (w, s, first, more) = and_then-ok (decrypt_entry crypto vault v r) _ vars' r' e in
      let (rest, t, second, last) = and_then-ok (decrypt_map crypto vault m s) _ vars' r' more in
      let same : ◌≡◌ {A = Result GlideshError (Dict String)} (ok ((k, w) ∷ rest)) (ok vars') =
        ap (λ q. q.0) last in
      (w, rest, s, first, second ∙ ap (λ u. (ok rest, u)) (ap (λ q. q.1) last), sym (cc))

  decrypt_head-contains :
      (j u w k v k' p : String) (m rest : Dict String) (r s r' : SecretRegistry)
      → decrypt_entry crypto vault u r ≡ (ok w, s)
      → decrypt_map crypto vault m s ≡ (ok rest, r')
      → ◌≡◌ {A = Option (String × String)} (some (j, u)) (some (k, v))
      → is_secret_token v ≡ true
      → ◌≡◌ {A = Option (String × String)} (some (j, w)) (some (k', p))
      → p ≢ ""
      → contains r'.plaintexts p ≡ true
  decrypt_head-contains j u w k v k' p m rest r s r' first second at t at' ne =
      let is_v : u ≡ v = cc in
      let is_p : w ≡ p = cc in
      let entry : decrypt_entry crypto vault v r ≡ (ok p, s) = cc in
      let grows = rw second at (decrypt_map-Grows m s) in
      grows.kept p (decrypt_entry-contains v p r s t entry ne)

  decrypt_map-contains :
      (vars vars' : Dict String) (r r' : SecretRegistry) (i : ℕ) (k v k' p : String)
      → decrypt_map crypto vault vars r ≡ (ok vars', r')
      → get_elem? vars i ≡ some (k, v)
      → is_secret_token v ≡ true
      → get_elem? vars' i ≡ some (k', p)
      → p ≢ ""
      → contains r'.plaintexts p ≡ true
  decrypt_map-contains [] vars' r r' i k v k' p e at t at' ne = cc
  decrypt_map-contains ((j, u) ∷ m) vars' r r' zero k v k' p e at t at' ne =
      let (w, rest, s, first, second, made) = decrypt_map-cons j u m vars' r r' e in
      decrypt_head-contains j u w k v k' p m rest r s r' first second at t (rw made at at') ne
  decrypt_map-contains ((j, u) ∷ m) vars' r r' (suc i) k v k' p e at t at' ne =
      let (w, rest, s, first, second, made) = decrypt_map-cons j u m vars' r r' e in
      decrypt_map-contains m rest s r' i k v k' p second at t (rw made at at') ne

  -- Once the values of a map are decrypted, starting with a registry that has longer plaintexts
  -- first, no text of an event that is sent with the registry that this leaves holds what a token
  -- stood for, if that takes four bytes or more and has no `*`, and if the texts that say what the
  -- event is about (the names of its hosts, step and module, what a host that connects says of its
  -- system, the reason of an abort) do not hold it: these are sent as they are.
  pub decrypt_map-Hides :
      (vars vars' : Dict String) (r r' : SecretRegistry) (i : ℕ) (k v k' p : String)
      (event : ExecutorEvent)
      → IsSorted r
      → decrypt_map crypto vault vars r ≡ (ok vars', r')
      → get_elem? vars i ≡ some (k, v)
      → is_secret_token v ≡ true
      → get_elem? vars' i ≡ some (k', p)
      → min_redactable_len ≤ bytes p
      → IsStarFree p
      → Hide p (labels event)
      → Hide p (texts (send r' event)) × (labels (send r' event) ≡ labels event)
  decrypt_map-Hides vars vars' r r' i k v k' p event sorted e at t at' m free named =
      let grows = rw e at (decrypt_map-Grows vars r) in
      send-Hide r' event p (grows.sorted sorted)
        (decrypt_map-contains vars vars' r r' i k v k' p e at t at' (nonempty p m)) m free named
