-- ===== src/Ssh/Handshake.antt =====
-- `Handshaking` of ssh/connection.rs: the password and the input of a command, written when its
-- stderr asks for them. Prompts and markers are bytes.
pub mod Exchange
use glidesh.Common.{
  ℕ, zero, suc, ◌+◌, ◌-◌, Bool, true, false, ◌&&◌, ◌||◌, not, Option, none, some, List, [], ◌∷◌,
  ◌++◌, if◌then◌else◌, ◌==◌, ltb, leb, length, take, drop, is_some, is_none, any, unwrap_or,
}
use glidesh.Ssh.{Byte}

abbrev pub Bytes : Type 0
Bytes = List Byte

-- `starts_with`
unfoldable pub starts_with : Bytes → Bytes → Bool
starts_with xs [] = true
starts_with [] (n ∷ needle) = false
starts_with (x ∷ xs) (n ∷ needle) = x == n && starts_with xs needle

abbrev one_later : Option ℕ → Option ℕ
one_later none = none
one_later (some at) = some (suc at)

-- For a text that is not empty.
unfoldable pub find : Bytes → Bytes → Option ℕ
unfolding starts_with
find [] needle = none
find (x ∷ xs) needle =
    let rest = one_later (find xs needle) in if starts_with (x ∷ xs) needle then some 0 else rest

-- `skip` counts the bytes left of the last occurrence.
unfoldable pub occurrences_from : ℕ → Bytes → Bytes → ℕ
unfolding starts_with
occurrences_from skip [] needle = 0
occurrences_from (suc skip) (x ∷ xs) needle = occurrences_from skip xs needle
occurrences_from zero (x ∷ xs) needle = elim (starts_with (x ∷ xs) needle) [
  | true ↦ suc (occurrences_from (length needle - 1) xs needle)
  | false ↦ occurrences_from zero xs needle
]

unfoldable pub occurrences : Bytes → Bytes → ℕ
unfolding occurrences_from
occurrences haystack [] = 0
occurrences haystack (n ∷ needle) = occurrences_from zero haystack (n ∷ needle)

unfoldable pub without_from : ℕ → Bytes → Bytes → Bytes
unfolding starts_with
without_from skip [] needle = []
without_from (suc skip) (x ∷ xs) needle = without_from skip xs needle
without_from zero (x ∷ xs) needle = elim (starts_with (x ∷ xs) needle) [
  | true ↦ without_from (length needle - 1) xs needle
  | false ↦ x ∷ without_from zero xs needle
]

unfoldable pub without : Bytes → Bytes → Bytes
unfolding without_from
without haystack [] = haystack
without haystack (n ∷ needle) = without_from zero haystack (n ∷ needle)

-- A marker's line.
abbrev pub line : Bytes → Bytes
line marker = marker ++ b'\n' ∷ []

pub record Handshake : Type 0 where
  pub prompt : Option (Bytes × Bytes)
  pub started : Bytes
  pub ready : Bytes
  pub input : Bytes

pub data Reply : Type 0 where
  bytes : Bytes → Reply
  close : Reply

pub record Handshaking : Type 0 where
  pub handshake : Handshake
  pub pending : Bytes
  pub marked_prompts : ℕ
  pub prompts : ℕ
  pub answered : ℕ
  pub is_started : Bool
  pub is_done : Bool

abbrev pub new : Handshake → Handshaking
new h = record {
  handshake = h;
  pending = [];
  marked_prompts = 0;
  prompts = 0;
  answered = 0;
  is_started = false;
  is_done = false;
}

unfoldable pub awaits_prompt : Handshaking → Bool
awaits_prompt s = not s.is_done && (not s.is_started && is_some s.handshake.prompt)

-- `prompted`, on the number of prompts with this one.
unfoldable pub reply_to : Option (Bytes × Bytes) → ℕ → Handshaking → List Reply × Handshaking
reply_to (some (prompt, password)) (suc zero) s = (bytes password ∷ [], s)
reply_to prompt n s = (close ∷ [], record s { is_done = true })

unfoldable pub prompted : Handshaking → List Reply × Handshaking
unfolding reply_to
prompted s = reply_to s.handshake.prompt (suc s.prompts) (record s { prompts = suc s.prompts })

abbrev pub after_replies :
    List Reply × Handshaking → (Handshaking → List Reply × Handshaking) → List Reply × Handshaking
after_replies (replies, s) f = (replies ++ (f s).0, (f s).1)

-- The `while` over the prompts that stand before the marker, `left` of them not yet marked.
unfoldable pub answer_prompts : ℕ → Handshaking → List Reply × Handshaking
unfolding prompted
answer_prompts zero s = ([], s)
answer_prompts (suc left) s = elim s.is_done [
  | true ↦ ([], s)
  | false ↦
      after_replies
        (prompted (record s { marked_prompts = suc s.marked_prompts; answered = length s.pending }))
        (answer_prompts left)
]

abbrev seen_before : Option (Bytes × Bytes) → Bytes → ℕ
seen_before none pending = 0
seen_before (some (prompt, password)) pending = occurrences pending prompt

-- Until the command has started.
unfoldable pub look_for_start : Handshaking → List Reply × Handshaking
unfolding answer_prompts find occurrences
look_for_start s =
    let at = find s.pending (line s.handshake.started) in
    let before = take (unwrap_or at (length s.pending)) s.pending in
    let seen = seen_before s.handshake.prompt before in
    let answers = answer_prompts (seen - s.marked_prompts) s in
    (answers.0, record (answers.1) { is_started = is_some at })

abbrev feed : Bytes → List Reply
feed [] = close ∷ []
feed (b ∷ input) = bytes (b ∷ input) ∷ close ∷ []

unfoldable pub feed_input : Handshaking → List Reply × Handshaking
unfolding find
feed_input s =
    if s.is_started && (not s.is_done && is_some (find s.pending (line s.handshake.ready)))
    then (
      feed s.handshake.input,
      record s { is_done = true; handshake = record (s.handshake) { input = [] } },
    )
    else ([], s)

abbrev without_prompt : Option (Bytes × Bytes) → Bytes → Bytes
without_prompt none kept = kept
without_prompt (some (prompt, password)) kept = without kept prompt

-- The stderr that was held back, and what is left.
unfoldable pub finish : Handshaking → Bytes × Handshaking
unfolding without
finish s = (
  without (without (without_prompt s.handshake.prompt s.pending) (line s.handshake.started))
      (line s.handshake.ready),
  record s { pending = [] },
)

pub record Outcome : Type 0 where
  pub replies : List Reply
  pub kept : Bytes
  pub state : Handshaking

unfoldable pub released : List Reply × Handshaking → Outcome
unfolding finish
released (replies, s) =
    if s.is_done
    then record { replies = replies; kept = (finish s).0; state = (finish s).1 }
    else record { replies = replies; kept = []; state = s }

unfoldable pub stderr : Handshaking → Bytes → Outcome
unfolding look_for_start feed_input released
stderr s chunk =
    if s.is_done
    then record { replies = []; kept = chunk; state = s }
    else (let s' = record s { pending = s.pending ++ chunk } in
        released (after_replies (if s'.is_started then ([], s') else look_for_start s') feed_input))

abbrev is_newline : Byte → Bool
is_newline b = b == b'\n'

-- What follows the last line feed.
unfoldable pub last_line : Bytes → Bytes
last_line [] = []
last_line (x ∷ xs) =
    let rest = last_line xs in
    if any is_newline xs then rest else if is_newline x then xs else x ∷ xs

abbrev ends_line : Bytes → Bool
ends_line [] = false
ends_line (x ∷ []) = is_newline x
ends_line (x ∷ y ∷ xs) = ends_line (y ∷ xs)

abbrev prompt_begins : Option (Bytes × Bytes) → Bytes → Bool
prompt_begins none tail = false
prompt_begins (some (prompt, password)) tail = starts_with prompt tail

-- Whether what is quiet is no prompt: nothing new, a whole line, or the start of sudo's.
unfoldable pub no_prompt : Handshaking → Bool
unfolding awaits_prompt last_line starts_with
no_prompt s =
    not (awaits_prompt s)
    || (leb (length s.pending) s.answered
        || (ends_line s.pending || prompt_begins s.handshake.prompt (last_line s.pending)))

unfoldable pub quiet : Handshaking → Outcome
unfolding no_prompt prompted released
quiet s =
    if no_prompt s
    then record { replies = []; kept = []; state = s }
    else released (prompted (record s { answered = length s.pending }))
