-- ===== src/Ssh/Handshake/Exchange.antt =====
-- What a handshake writes over a whole exchange.
use glidesh.Common.{
  ℕ, zero, suc, ◌≤◌, ◌≡◌, ◌⊎◌, inl, inr, refl, sym, arith, Bool, true, false, Option, none, some,
  List, [], ◌∷◌, ◌++◌, length, ◌&&◌, not, is_some, if◌then◌else◌, append_nil, append_assoc,
  if_cases,
}
use mathlib.Core.Path.{subst}
use glidesh.Ssh.Handshake.{
  Bytes, Handshake, Reply, bytes, close, Handshaking, new, prompted, reply_to, after_replies,
  answer_prompts, look_for_start, feed, feed_input, released, finish, Outcome, stderr, quiet,
  no_prompt, find, line,
}

-- A piece of stderr, or a silence.
pub data Event : Type 0 where
  chunk : Bytes → Event
  silence : Event

abbrev pub act : Handshaking → Event → Outcome
act s (chunk piece) = stderr s piece
act s silence = quiet s

-- The replies over the events, and the last state.
unfoldable pub exchange : Handshaking → List Event → List Reply × Handshaking
exchange s [] = ([], s)
exchange s (e ∷ es) =
    ((act s e).replies ++ (exchange (act s e).state es).0, (exchange (act s e).state es).1)

-- What may have been written for a handshake, and whether stdin is closed.
pub data Writes (h : Handshake) : List Reply → Bool → Type 0 where
  nothing : Writes h [] false
  password : (p word : Bytes) → h.prompt ≡ some (p, word) → Writes h (bytes word ∷ []) false
  refused : {replies : List Reply} → Writes h replies false → Writes h (replies ++ close ∷ []) true
  fed : {replies : List Reply} → Writes h replies false → Writes h (replies ++ feed h.input) true

-- While stdin is open: before the first prompt nothing is written.
record IsOpen (h : Handshake) (replies : List Reply) (s : Handshaking) : Type 0 where
  not_done : s.is_done ≡ false
  prompt : s.handshake.prompt ≡ h.prompt
  input : s.handshake.input ≡ h.input
  writes : Writes h replies false
  told : ((s.prompts ≡ 0) × (replies ≡ [])) ⊎ (1 ≤ s.prompts)

record IsClosed (h : Handshake) (replies : List Reply) (s : Handshaking) : Type 0 where
  done : s.is_done ≡ true
  writes : Writes h replies true

-- The replies so far, with the state.
abbrev Tells : Handshake → List Reply → Handshaking → Type 0
Tells h replies s = IsOpen h replies s ⊎ IsClosed h replies s

abbrev Act : Type 0
Act = Handshaking → List Reply × Handshaking

-- An action goes on as it may.
abbrev Keeps : Handshake → Act → Type 0
Keeps h f =
    (replies : List Reply) (s : Handshaking)
    → Tells h replies s
    → Tells h (replies ++ (f s).0) (f s).1

not_fed : (a d b : Bool) → d ≡ true → (a && (not d && b)) ≡ true → ⊥
not_fed a d b e f = absurd (ground arith)

done-no_prompt : (s : Handshaking) → s.is_done ≡ true → no_prompt s ≡ false → ⊥
unfolding no_prompt
done-no_prompt s d e = absurd (ground arith)

abbrev marked : Handshaking → Handshaking
marked s = record s { marked_prompts = suc s.marked_prompts; answered = length s.pending }

answer_prompts-open :
    (left : ℕ) (s : Handshaking)
    → s.is_done ≡ false
    → answer_prompts (suc left) s ≡ after_replies (prompted (marked s)) (answer_prompts left)
unfolding answer_prompts
answer_prompts-open left s e = ground (arith, e)

module _ (h : Handshake) where
  started-Tells :
      (replies : List Reply) (s : Handshaking) (b : Bool)
      → Tells h replies s
      → Tells h replies (record s { is_started = b })
  started-Tells replies s b (inl o) = inl (record {
    not_done = o.not_done;
    prompt = o.prompt;
    input = o.input;
    writes = o.writes;
    told = o.told;
  })
  started-Tells replies s b (inr c) = inr (record { done = c.done; writes = c.writes })

  Keeps-silent :
      (replies : List Reply) (s : Handshaking) → Tells h replies s → Tells h (replies ++ []) s
  Keeps-silent replies s t = subst (λ l. Tells h l s) (append_nil replies) t

  Keeps-after : (f g : Act) → Keeps h f → Keeps h g → Keeps h (λ s. after_replies (f s) g)
  Keeps-after f g kf kg replies s t =
      subst (λ l. Tells h l (g (f s).1).1) (append_assoc replies (f s).0 (g (f s).1).0)
        (kg (replies ++ (f s).0) (f s).1 (kf replies s t))

  -- A prompt on a state whose count has just gone up to `suc n`.
  reply_to-Tells :
      (o : Option (Bytes × Bytes)) (n : ℕ) (replies : List Reply) (s : Handshaking)
      → o ≡ h.prompt
      → s.is_done ≡ false
      → s.handshake.prompt ≡ h.prompt
      → s.handshake.input ≡ h.input
      → s.prompts ≡ suc n
      → Writes h replies false
      → ((n ≡ 0) × (replies ≡ [])) ⊎ (1 ≤ n)
      → Tells h (replies ++ (reply_to o (suc n) s).0) (reply_to o (suc n) s).1
  unfolding reply_to
  reply_to-Tells none n replies s e d p i c w told =
      inr (record { done = refl; writes = refused w })
  reply_to-Tells (some (p, word)) (suc n) replies s e d q i c w told =
      inr (record { done = refl; writes = refused w })
  reply_to-Tells (some (p, word)) zero replies s e d q i c w (inr le) = absurd (omega arith)
  reply_to-Tells (some (p, word)) zero replies s e d q i c w (inl (z, empty)) = rw empty (
      inl (record {
        not_done = d;
        prompt = q;
        input = i;
        writes = password p word (sym e);
        told = inr (omega arith);
      }))

  prompted-Tells :
      (replies : List Reply) (s : Handshaking)
      → IsOpen h replies s
      → Tells h (replies ++ (prompted s).0) (prompted s).1
  unfolding prompted
  prompted-Tells replies s o =
      reply_to-Tells s.handshake.prompt s.prompts replies (record s { prompts = suc s.prompts })
        o.prompt o.not_done o.prompt o.input refl o.writes o.told

  answer_prompts-Keeps : (left : ℕ) → Keeps h (answer_prompts left)
  unfolding answer_prompts
  answer_prompts-Keeps zero replies s t = Keeps-silent replies s t
  answer_prompts-Keeps (suc left) replies s (inr closed) =
      rw (closed.done, answer_prompts) (Keeps-silent replies s (inr closed))
  answer_prompts-Keeps (suc left) replies s (inl o) =
      let s' = marked s in
      subst (λ (r : List Reply × Handshaking). Tells h (replies ++ r.0) r.1)
        (sym (answer_prompts-open left s o.not_done))
        (subst (λ l. Tells h l (answer_prompts left (prompted s').1).1)
          (append_assoc replies (prompted s').0 (answer_prompts left (prompted s').1).0)
          (answer_prompts-Keeps left (replies ++ (prompted s').0) (prompted s').1 (
            prompted-Tells replies s' (record {
              not_done = o.not_done;
              prompt = o.prompt;
              input = o.input;
              writes = o.writes;
              told = o.told;
            }))))

  look_for_start-Keeps : Keeps h look_for_start
  unfolding look_for_start
  look_for_start-Keeps replies s t = started-Tells _ _ _ (answer_prompts-Keeps _ replies s t)

  feed_input-Keeps : Keeps h feed_input
  unfolding feed_input
  feed_input-Keeps replies s (inr closed) =
      if_cases (λ (r : List Reply × Handshaking). Tells h (replies ++ r.0) r.1)
        (s.is_started && (not s.is_done && is_some (find s.pending (line s.handshake.ready)))) _ _
        (λ e. absurd (not_fed s.is_started s.is_done _ closed.done e))
        (λ e. Keeps-silent replies s (inr closed))
  feed_input-Keeps replies s (inl o) =
      if_cases (λ (r : List Reply × Handshaking). Tells h (replies ++ r.0) r.1)
        (s.is_started && (not s.is_done && is_some (find s.pending (line s.handshake.ready)))) _ _
        (λ e. inr (record {
          done = refl;
          writes = subst (λ i. Writes h (replies ++ feed i) true) (sym o.input) (fed o.writes);
        }))
        (λ e. Keeps-silent replies s (inl o))

  held-Tells :
      (replies : List Reply) (s : Handshaking) (pending : Bytes) (answered : ℕ)
      → Tells h replies s
      → Tells h replies (record s { pending = pending; answered = answered })
  held-Tells replies s pending answered (inl o) = inl (record {
    not_done = o.not_done;
    prompt = o.prompt;
    input = o.input;
    writes = o.writes;
    told = o.told;
  })
  held-Tells replies s pending answered (inr c) = inr (record { done = c.done; writes = c.writes })

  released-Tells :
      (replies : List Reply) (r : List Reply × Handshaking)
      → Tells h (replies ++ r.0) r.1
      → Tells h (replies ++ (released r).replies) (released r).state
  unfolding released finish
  released-Tells replies (rs, s) t =
      if_cases (λ (o : Outcome). Tells h (replies ++ o.replies) o.state) s.is_done _ _
        (λ e. held-Tells (replies ++ rs) s [] s.answered t) (λ e. t)

  unless_started : Act
  unless_started s = if s.is_started then ([], s) else look_for_start s

  unless_started-Keeps : Keeps h unless_started
  unfolding unless_started
  unless_started-Keeps replies s t =
      if_cases (λ (r : List Reply × Handshaking). Tells h (replies ++ r.0) r.1) s.is_started _ _
        (λ e. Keeps-silent replies s t) (λ e. look_for_start-Keeps replies s t)

  stderr-Tells :
      (replies : List Reply) (s : Handshaking) (piece : Bytes)
      → Tells h replies s
      → Tells h (replies ++ (stderr s piece).replies) (stderr s piece).state
  unfolding stderr unless_started
  stderr-Tells replies s piece t =
      let s' : Handshaking = record s { pending = s.pending ++ piece } in
      if_cases (λ (o : Outcome). Tells h (replies ++ o.replies) o.state) s.is_done _ _
        (λ e. Keeps-silent replies s t)
        (λ e. released-Tells replies (after_replies (unless_started s') feed_input) (
          Keeps-after unless_started feed_input unless_started-Keeps feed_input-Keeps replies s'
            (held-Tells replies s (s.pending ++ piece) s.answered t)))

  asked-Tells :
      (replies : List Reply) (s : Handshaking)
      → no_prompt s ≡ false
      → Tells h replies s
      → Tells h
          (replies ++ (prompted (record s { answered = length s.pending })).0)
          (prompted (record s { answered = length s.pending })).1
  asked-Tells replies s e (inr c) = absurd (done-no_prompt s c.done e)
  asked-Tells replies s e (inl o) =
      prompted-Tells replies (record s { answered = length s.pending })
        (record {
          not_done = o.not_done;
          prompt = o.prompt;
          input = o.input;
          writes = o.writes;
          told = o.told;
        })

  quiet-Tells :
      (replies : List Reply) (s : Handshaking)
      → Tells h replies s
      → Tells h (replies ++ (quiet s).replies) (quiet s).state
  unfolding quiet
  quiet-Tells replies s t =
      if_cases (λ (o : Outcome). Tells h (replies ++ o.replies) o.state) (no_prompt s) _ _
        (λ e. Keeps-silent replies s t) (λ e. released-Tells replies _ (asked-Tells replies s e t))

  act-Tells :
      (replies : List Reply) (s : Handshaking) (e : Event)
      → Tells h replies s
      → Tells h (replies ++ (act s e).replies) (act s e).state
  act-Tells replies s (chunk piece) t = stderr-Tells replies s piece t
  act-Tells replies s silence t = quiet-Tells replies s t

  exchange-Tells :
      (es : List Event) (replies : List Reply) (s : Handshaking)
      → Tells h replies s
      → Tells h (replies ++ (exchange s es).0) (exchange s es).1
  unfolding exchange
  exchange-Tells [] replies s t = Keeps-silent replies s t
  exchange-Tells (e ∷ es) replies s t =
      subst (λ l. Tells h l (exchange (act s e).state es).1)
        (append_assoc replies (act s e).replies (exchange (act s e).state es).0)
        (exchange-Tells es (replies ++ (act s e).replies) (act s e).state (act-Tells replies s e t))

Tells-Writes :
    (h : Handshake) (replies : List Reply) (s : Handshaking)
    → Tells h replies s
    → Writes h replies s.is_done
Tells-Writes h replies s (inl o) = rw (o.not_done) o.writes
Tells-Writes h replies s (inr c) = rw (c.done) c.writes

-- Over every sequence of chunks of stderr and silences a handshake writes the password at most
-- once and before anything else, then at most once the end of stdin, with the input before it or
-- with none; nothing follows that end.
pub exchange-Writes :
    (h : Handshake) (es : List Event)
    → Writes h (exchange (new h) es).0 (exchange (new h) es).1.is_done
exchange-Writes h es = Tells-Writes h (exchange (new h) es).0 (exchange (new h) es).1 (
    exchange-Tells h es [] (new h) (
      inl (record {
        not_done = refl;
        prompt = refl;
        input = refl;
        writes = nothing;
        told = inl (refl, refl);
      })))
