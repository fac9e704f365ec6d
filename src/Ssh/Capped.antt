-- ===== src/Ssh/Capped.antt =====
-- What a capped stream keeps of the bytes that it was given, in whatever pieces.
use glidesh.Common.{
  ℕ, zero, suc, ◌+◌, ◌-◌, ◌/◌, ◌≤◌, ◌<◌, min, ◌≡◌, refl, ap, ap₂, ◌∙◌, sym, arith, List, [], ◌∷◌,
  ◌++◌, leb, length, take, drop, length-append, length-drop, length-take, append_nil, append_assoc,
  Bool-cases, inl, inr,
}
use glidesh.Ssh.{Byte, CappedStream, new, push_tail, push}

at_count : (f : ℕ → List Byte) (n m : ℕ) → n ≡ m → f n ≡ f m
at_count f n m e = ap f e

take-append : (n : ℕ) (xs ys : List Byte) → take n (xs ++ ys) ≡ take n xs ++ take (n - length xs) ys
take-append zero [] ys = refl
take-append (suc n) [] ys = at_count (λ k. take k ys) (suc n) (suc n - 0) (omega arith)
take-append zero (x ∷ xs) ys = at_count (λ k. take k ys) 0 (0 - suc (length xs)) (omega arith)
take-append (suc n) (x ∷ xs) ys =
    ap (λ l. x ∷ l)
      (take-append n xs ys
        ∙ at_count (λ k. take n xs ++ take k ys) (n - length xs) (suc n - suc (length xs))
            (omega arith))

drop-append : (n : ℕ) (xs ys : List Byte) → drop n (xs ++ ys) ≡ drop n xs ++ drop (n - length xs) ys
drop-append zero [] ys = refl
drop-append (suc n) [] ys = at_count (λ k. drop k ys) (suc n) (suc n - 0) (omega arith)
drop-append zero (x ∷ xs) ys =
    at_count (λ k. (x ∷ xs) ++ drop k ys) 0 (0 - suc (length xs)) (omega arith)
drop-append (suc n) (x ∷ xs) ys =
    drop-append n xs ys
    ∙ at_count (λ k. drop n xs ++ drop k ys) (n - length xs) (suc n - suc (length xs)) (omega arith)

drop-nil : (n : ℕ) → ◌≡◌ {A = List Byte} (drop n []) []
drop-nil zero = refl
drop-nil (suc n) = refl

drop-drop : (n k : ℕ) (xs : List Byte) → drop n (drop k xs) ≡ drop (k + n) xs
drop-drop n zero xs = at_count (λ m. drop m xs) n (0 + n) (omega arith)
drop-drop n (suc k) [] = drop-nil n ∙ sym (drop-nil (suc k + n))
drop-drop n (suc k) (x ∷ xs) =
    drop-drop n k xs ∙ at_count (λ m. drop m (x ∷ xs)) (suc (k + n)) (suc k + n) (omega arith)

take_all : (n : ℕ) (xs : List Byte) → length xs ≤ n → take n xs ≡ xs
take_all zero [] le = refl
take_all (suc n) [] le = refl
take_all zero (x ∷ xs) le = absurd (omega arith)
take_all (suc n) (x ∷ xs) le = ap (λ l. x ∷ l) (take_all n xs (omega arith))

drop_all : (n : ℕ) (xs : List Byte) → length xs ≤ n → drop n xs ≡ []
drop_all n [] le = drop-nil n
drop_all zero (x ∷ xs) le = absurd (omega arith)
drop_all (suc n) (x ∷ xs) le = drop_all n xs (omega arith)

take-min : (n : ℕ) (xs : List Byte) → take (min n (length xs)) xs ≡ take n xs
take-min n xs = elim (Bool-cases (leb n (length xs))) [
  | inl e ↦ at_count (λ k. take k xs) (min n (length xs)) n (ground arith)
  | inr e ↦ take_all (min n (length xs)) xs (ground arith) ∙ sym (take_all n xs (ground arith))
]

drop-min : (n : ℕ) (xs : List Byte) → drop (min n (length xs)) xs ≡ drop n xs
drop-min n xs = elim (Bool-cases (leb n (length xs))) [
  | inl e ↦ at_count (λ k. drop k xs) (min n (length xs)) n (ground arith)
  | inr e ↦ drop_all (min n (length xs)) xs (ground arith) ∙ sym (drop_all n xs (ground arith))
]

-- The first half of the limit, the latest other half of what comes after, and a count of the rest.
abbrev pub capped : ℕ → List Byte → CappedStream
capped limit bytes =
    let after = drop (limit / 2) bytes in
    let room = limit - limit / 2 in
    record {
      limit = limit;
      head = take (limit / 2) bytes;
      tail = drop (length after - room) after;
      dropped = length after - room;
    }

-- The latest `room` of some bytes.
latest : ℕ → List Byte → List Byte
latest room xs = drop (length xs - room) xs

length-latest : (room : ℕ) (xs : List Byte) → length (latest room xs) ≡ min room (length xs)
unfolding latest
length-latest room xs = omega (arith, length-drop (length xs - room) xs)

latest-long :
    (room : ℕ) (xs ys : List Byte)
    → room ≤ length ys
    → latest room (xs ++ ys) ≡ drop (length ys - room) ys
unfolding latest
latest-long room xs ys le =
    let k = length (xs ++ ys) - room in
    let n = length-append xs ys in
    drop-append k xs ys
    ∙ ap₂ (λ (a b : List Byte). a ++ b) (drop_all k xs (omega (arith, n)))
        (at_count (λ m. drop m ys) (k - length xs) (length ys - room) (omega (arith, n)))

latest-short :
    (room : ℕ) (xs ys : List Byte)
    → length ys < room
    → latest room (xs ++ ys)
      ≡ drop (length (latest room xs) + length ys - room) (latest room xs) ++ ys
unfolding latest
latest-short room xs ys lt =
    let k = length (xs ++ ys) - room in
    let n = length-append xs ys in
    let m = length-latest room xs in
    let over = length (latest room xs) + length ys - room in
    drop-append k xs ys
    ∙ ap₂ (λ (a b : List Byte). a ++ b)
        (at_count (λ j. drop j xs) k (length xs - room + over) (omega (arith, n, m))
          ∙ sym (drop-drop over (length xs - room) xs))
        (at_count (λ j. drop j ys) (k - length xs) 0 (omega (arith, n)))

stream : ℕ → List Byte → List Byte → ℕ → CappedStream
stream limit head tail dropped = record {
  limit = limit;
  head = head;
  tail = tail;
  dropped = dropped;
}

dropped-sum :
    (room : ℕ) (xs ys : List Byte)
    → length xs - room + (length (latest room xs) + length ys - room) ≡ length (xs ++ ys) - room
dropped-sum room xs ys = omega (arith, length-append xs ys, length-latest room xs)

push_tail-latest :
    (limit room : ℕ) (head xs ys : List Byte)
    → push_tail (stream limit head (latest room xs) (length xs - room)) room ys
      ≡ stream limit head (latest room (xs ++ ys)) (length (xs ++ ys) - room)
unfolding push_tail stream
push_tail-latest limit room head xs ys = elim (Bool-cases (leb room (length ys))) [
  | inl e ↦
      rw (e, push_tail)
        (ap₂ (stream limit head) (sym (latest-long room xs ys (ground arith)))
          (dropped-sum room xs ys))
  | inr e ↦
      rw (e, push_tail)
        (ap₂ (stream limit head) (sym (latest-short room xs ys (ground arith)))
          (dropped-sum room xs ys))
]

push-capped : (limit : ℕ) (xs ys : List Byte) → push (capped limit xs) ys ≡ capped limit (xs ++ ys)
unfolding push latest stream
push-capped limit xs ys =
    let h = limit / 2 in
    let to_head = min (h - length (take h xs)) (length ys) in
    let count : to_head ≡ min (h - length xs) (length ys) = omega (arith, length-take h xs) in
    let head : take h xs ++ take to_head ys ≡ take h (xs ++ ys) =
      at_count (λ n. take h xs ++ take n ys) to_head (min (h - length xs) (length ys)) count
      ∙ ap (λ l. take h xs ++ l) (take-min (h - length xs) ys)
      ∙ sym (take-append h xs ys) in
    let after : drop h xs ++ drop to_head ys ≡ drop h (xs ++ ys) =
      at_count (λ n. drop h xs ++ drop n ys) to_head (min (h - length xs) (length ys)) count
      ∙ ap (λ l. drop h xs ++ l) (drop-min (h - length xs) ys)
      ∙ sym (drop-append h xs ys) in
    push_tail-latest limit (limit - h) (take h xs ++ take to_head ys) (drop h xs) (drop to_head ys)
    ∙ ap₂ (λ (a b : List Byte). stream limit a (latest (limit - h) b) (length b - (limit - h))) head
        after

-- The stream after its pieces, and the pieces put together.
abbrev pub push_all : CappedStream → List (List Byte) → CappedStream
push_all s [] = s
push_all s (piece ∷ pieces) = push_all (push s piece) pieces

abbrev pub concat : List (List Byte) → List Byte
concat [] = []
concat (piece ∷ pieces) = piece ++ concat pieces

push_all-capped :
    (limit : ℕ) (xs : List Byte) (pieces : List (List Byte))
    → push_all (capped limit xs) pieces ≡ capped limit (xs ++ concat pieces)
push_all-capped limit xs [] = ap (capped limit) (append_nil xs)
push_all-capped limit xs (piece ∷ pieces) =
    ap (λ s. push_all s pieces) (push-capped limit xs piece)
    ∙ push_all-capped limit (xs ++ piece) pieces
    ∙ ap (capped limit) (append_assoc xs piece (concat pieces))

capped_empty : (limit : ℕ) → new limit ≡ capped limit []
unfolding stream latest
capped_empty limit =
    let h = limit / 2 in
    let room = limit - h in
    sym (
      ap₂ (λ (a b : List Byte). stream limit a (latest room b) (length b - room))
        (take_all h [] (omega arith)) (drop-nil h)
      ∙ ap₂ (stream limit []) (drop-nil (0 - room)) (omega arith))

-- However its output comes in pieces, a stream keeps the first half of its limit, the latest bytes
-- that fit the other half of what follows, and counts the bytes between.
pub push_all-concat :
    (limit : ℕ) (pieces : List (List Byte))
    → push_all (new limit) pieces ≡ capped limit (concat pieces)
push_all-concat limit pieces =
    ap (λ s. push_all s pieces) (capped_empty limit) ∙ push_all-capped limit [] pieces

-- A stream never keeps more than its limit, and the kept and the dropped bytes are all that came.
pub push_all-fits :
    (limit : ℕ) (pieces : List (List Byte))
    → (length (push_all (new limit) pieces).head + length (push_all (new limit) pieces).tail
        ≤ limit)
      × (length (push_all (new limit) pieces).head
            + length (push_all (new limit) pieces).tail
            + (push_all (new limit) pieces).dropped
          ≡ length (concat pieces))
unfolding latest
push_all-fits limit pieces =
    let xs = concat pieces in
    let h = limit / 2 in
    rw (push_all-concat limit pieces)
      (omega (arith, length-take h xs, length-drop h xs, length-latest (limit - h) (drop h xs)))
