-- ===== src/Ssh/Examples.antt =====
-- Outcomes and capped output, after the tests of ssh/connection.rs.
use glidesh.Common.{String, false, ℕ, ◌≡◌, refl, none, some, List, [], ◌∷◌}
use glidesh.Ssh.{finish, exit_outcome, new, push, growth}
use glidesh.Ssh.Capped.{capped, push_all, concat, push_all-concat}
use glidesh.Ssh.Handshake.{Handshake, bytes, close, new as new_handshake, stderr, quiet}
use glidesh.Ssh.Handshake.Exchange.{Event, chunk, silence, exchange, Writes, exchange-Writes}

abbrev pieces : List (List ℕ)
pieces = (1 ∷ 2 ∷ 3 ∷ []) ∷ (4 ∷ []) ∷ (5 ∷ 6 ∷ 7 ∷ []) ∷ []

kept :
    push_all (new 4) pieces
    ≡ record { limit = 4; head = 1 ∷ 2 ∷ []; tail = 6 ∷ 7 ∷ []; dropped = 3 }
unfolding push
kept = refl

push_all-concat_example : push_all (new 4) pieces ≡ capped 4 (concat pieces)
push_all-concat_example = push_all-concat 4 pieces

killed : exit_outcome none (some "KILL") ≡ (255, some "command killed by signal KILL")
unfolding exit_outcome
killed = refl

doubled : growth 6 8 4 12 ≡ some 6
unfolding growth
doubled = refl

abbrev sudo : Handshake
sudo = record {
  prompt = some (b'p' ∷ b':' ∷ [], b'x' ∷ b'\n' ∷ []);
  started = b's' ∷ [];
  ready = b'r' ∷ [];
  input = b'i' ∷ [];
}

abbrev events : List Event
events =
    chunk (b'p' ∷ [])
    ∷ silence
    ∷ chunk (b':' ∷ [])
    ∷ chunk (b's' ∷ b'\n' ∷ b'w' ∷ b'\n' ∷ b'r' ∷ b'\n' ∷ [])
    ∷ chunk (b'p' ∷ b':' ∷ [])
    ∷ []

asked :
    (exchange (new_handshake sudo) events).0
    ≡ bytes (b'x' ∷ b'\n' ∷ []) ∷ bytes (b'i' ∷ []) ∷ close ∷ []
unfolding exchange stderr quiet
asked = refl

refused :
    (exchange (new_handshake sudo) (chunk (b'p' ∷ b':' ∷ b'p' ∷ b':' ∷ []) ∷ [])).0
    ≡ bytes (b'x' ∷ b'\n' ∷ []) ∷ close ∷ []
unfolding exchange stderr
refused = refl

exchange-Writes_example :
    Writes sudo
      (exchange (new_handshake sudo) events).0
      (exchange (new_handshake sudo) events).1.is_done
exchange-Writes_example = exchange-Writes sudo events

abbrev letters : List ℕ → String
letters [] = ""
letters (b ∷ bs) = String.◌∷◌ "x" (letters bs)

noted :
    finish letters (record { limit = 4; head = 1 ∷ []; tail = 2 ∷ []; dropped = 0 }) ≡ ("xx", false)
unfolding finish
noted = refl
