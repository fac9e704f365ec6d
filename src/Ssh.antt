-- ===== src/Ssh.antt =====
-- ssh/connection.rs, as far as it does not speak to the host: the outcome of a command, and what
-- is kept of its output.
pub mod Capped
pub mod Handshake
mod Examples
use Prim.Native.Char.{code}
use glidesh.Common.{
  ℕ, zero, suc, ◌+◌, ◌-◌, ◌/◌, ◌*◌, min, max, String, Bool, true, false, Option, none, some, List,
  [], ◌∷◌, ◌++◌, if◌then◌else◌, ltb, leb, length, take, drop, fmt, show,
}

-- `NO_EXIT_STATUS`
abbrev pub no_exit_status : ℕ
no_exit_status = 255

unfoldable pub exit_outcome : Option ℕ → Option String → ℕ × Option String
unfolding fmt
exit_outcome (some status) signal = (status, none)
exit_outcome none (some signal) =
    (no_exit_status, some (fmt ("command killed by signal " ∷ signal ∷ [])))
exit_outcome none none =
    (no_exit_status, some "connection closed before the command reported an exit status")

-- A byte.
abbrev pub Byte : Type 0
Byte = ℕ

-- `limit` is the most that is kept of a stream.
pub record CappedStream : Type 0 where
  pub limit : ℕ
  pub head : List Byte
  pub tail : List Byte
  pub dropped : ℕ

abbrev pub new : ℕ → CappedStream
new limit = record { limit = limit; head = []; tail = []; dropped = 0 }

-- How much to reserve, if a buffer must grow.
unfoldable pub growth : ℕ → ℕ → ℕ → ℕ → Option ℕ
growth len capacity adding most =
    if ltb capacity (len + adding)
    then some (min (max (capacity * 2) (len + adding)) most - len)
    else none

-- What is left of the bytes once the head is full.
unfoldable pub push_tail : CappedStream → ℕ → List Byte → CappedStream
push_tail s tail_limit bytes =
    if leb tail_limit (length bytes)
    then record s {
      dropped = s.dropped + (length s.tail + length bytes - tail_limit);
      tail = drop (length bytes - tail_limit) bytes;
    }
    else record s {
      dropped = s.dropped + (length s.tail + length bytes - tail_limit);
      tail = drop (length s.tail + length bytes - tail_limit) s.tail ++ bytes;
    }

-- `push`, without the capacity that is reserved.
unfoldable pub push : CappedStream → List Byte → CappedStream
unfolding push_tail
push s bytes =
    let head_limit = s.limit / 2 in
    let to_head = min (head_limit - length s.head) (length bytes) in
    push_tail (record s { head = s.head ++ take to_head bytes }) (s.limit - head_limit)
      (drop to_head bytes)

abbrev codes : String → List Byte
codes String.[] = []
codes (String.◌∷◌ c s) = code c ∷ codes s

abbrev dropped_note : ℕ → String
dropped_note dropped = fmt ("\n[glidesh: " ∷ show dropped ∷ " bytes of output dropped here]\n" ∷ [])

-- `finish`; how bytes that are no UTF-8 are read is an argument.
unfoldable pub finish : (List Byte → String) → CappedStream → String × Bool
unfolding fmt show
finish from_utf8_lossy s =
    if ltb 0 s.dropped
    then (from_utf8_lossy (s.head ++ (codes (dropped_note s.dropped) ++ s.tail)), true)
    else (from_utf8_lossy (s.head ++ s.tail), false)
