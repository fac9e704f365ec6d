-- ===== src/Prompts/Distance.antt =====
-- The distance that `edit_distance` computes, and the fewest edits between two texts.
use glidesh.Common.{
  ℕ, suc, ◌+◌, ◌≤◌, min, ◌≡◌, refl, ap, ap₂, ◌∙◌, sym, arith, String, not, List, [], ◌∷◌, ◌++◌,
  length, ◌==◌, leb, ==_iff, one, Bool-cases, inl, inr, append_nil, append_assoc,
}
use mathlib.Core.Path.{subst}
use glidesh.Prompts.{chars, next_row, write_row, rows, count_up, last_of, distance, edit_distance}

-- `Edits a b n`: `n` characters are inserted, deleted or replaced on the way from `a` to `b`.
pub data Edits : List ℕ → List ℕ → ℕ → Type 0 where
  finished : Edits [] [] 0
  same : {a b : List ℕ} {n : ℕ} (x : ℕ) → Edits a b n → Edits (x ∷ a) (x ∷ b) n
  replaced : {a b : List ℕ} {n : ℕ} (x y : ℕ) → Edits a b n → Edits (x ∷ a) (y ∷ b) (suc n)
  deleted : {a b : List ℕ} {n : ℕ} (x : ℕ) → Edits a b n → Edits (x ∷ a) b (suc n)
  inserted : {a b : List ℕ} {n : ℕ} (y : ℕ) → Edits a b n → Edits a (y ∷ b) (suc n)

-- The recursion that a row is a line of.
fewest : List ℕ → List ℕ → ℕ
fewest [] b = length b
fewest (x ∷ a) [] = suc (length a)
fewest (x ∷ a) (y ∷ b) =
    min (min (fewest a b + one (not (x == y))) (fewest a (y ∷ b) + 1)) (fewest (x ∷ a) b + 1)

fewest-nil : (a : List ℕ) → fewest a [] ≡ length a
unfolding fewest
fewest-nil [] = refl
fewest-nil (x ∷ a) = refl

fewest-insert : (a b : List ℕ) (y : ℕ) → fewest a (y ∷ b) ≤ suc (fewest a b)
unfolding fewest
fewest-insert [] b y = omega arith
fewest-insert (x ∷ a) b y = ground arith

fewest-delete : (a b : List ℕ) (x : ℕ) → fewest (x ∷ a) b ≤ suc (fewest a b)
unfolding fewest
fewest-delete a [] x = omega (arith, fewest-nil a)
fewest-delete a (y ∷ b) x = ground arith

fewest-le : {a b : List ℕ} {n : ℕ} → Edits a b n → fewest a b ≤ n
unfolding fewest
fewest-le finished = omega arith
fewest-le (same {a} {b} x e) = ground (arith, fewest-le e)
fewest-le (replaced {a} {b} x y e) = ground (arith, fewest-le e)
fewest-le (deleted {a} {b} x e) = omega (arith, fewest-delete a b x, fewest-le e)
fewest-le (inserted {a} {b} y e) = omega (arith, fewest-insert a b y, fewest-le e)

insert_all : (b : List ℕ) → Edits [] b (length b)
insert_all [] = finished
insert_all (y ∷ b) = inserted y (insert_all b)

delete_all : (a : List ℕ) → Edits a [] (length a)
delete_all [] = finished
delete_all (x ∷ a) = deleted x (delete_all a)

counted : {a b : List ℕ} {n : ℕ} (m : ℕ) → Edits a b n → n ≡ m → Edits a b m
counted {a} {b} m e p = subst (Edits a b) p e

less : (P : ℕ → Type 0) (i j : ℕ) → P i → P j → P (min i j)
less P i j p q = elim (Bool-cases (leb i j)) [
  | inl e ↦ subst P (ground arith) p
  | inr e ↦ subst P (ground arith) q
]

first_step :
    (x y : ℕ) (a b : List ℕ) (n : ℕ) → Edits a b n → Edits (x ∷ a) (y ∷ b) (n + one (not (x == y)))
first_step x y a b n e = elim (Bool-cases (x == y)) [
  | inl s ↦
      let is : x ≡ y = (==_iff x y).0 s in
      counted _ (subst (λ z. Edits (x ∷ a) (z ∷ b) n) is (same x e)) (ground arith)
  | inr d ↦ counted _ (replaced x y e) (ground arith)
]

fewest-Edits : (a b : List ℕ) → Edits a b (fewest a b)
unfolding fewest
fewest-Edits [] b = insert_all b
fewest-Edits (x ∷ a) [] = delete_all (x ∷ a)
fewest-Edits (x ∷ a) (y ∷ b) =
    less (Edits (x ∷ a) (y ∷ b)) _ _
      (less (Edits (x ∷ a) (y ∷ b)) _ _ (first_step x y a b (fewest a b) (fewest-Edits a b))
        (counted _ (deleted x (fewest-Edits a (y ∷ b))) (omega arith)))
      (counted _ (inserted y (fewest-Edits (x ∷ a) b)) (omega arith))

Edits-append :
    {a b c d : List ℕ} {n m : ℕ} → Edits a b n → Edits c d m → Edits (a ++ c) (b ++ d) (n + m)
Edits-append finished f = counted _ f (omega arith)
Edits-append (same x e) f = same x (Edits-append e f)
Edits-append (replaced x y e) f = counted _ (replaced x y (Edits-append e f)) (omega arith)
Edits-append (deleted x e) f = counted _ (deleted x (Edits-append e f)) (omega arith)
Edits-append (inserted y e) f = counted _ (inserted y (Edits-append e f)) (omega arith)

-- The characters the other way round.
backwards : List ℕ → List ℕ
backwards [] = []
backwards (x ∷ a) = backwards a ++ x ∷ []

Edits-backwards : {a b : List ℕ} {n : ℕ} → Edits a b n → Edits (backwards a) (backwards b) n
unfolding backwards
Edits-backwards finished = finished
Edits-backwards (same x e) =
    counted _ (Edits-append (Edits-backwards e) (same x finished)) (omega arith)
Edits-backwards (replaced x y e) =
    counted _ (Edits-append (Edits-backwards e) (replaced x y finished)) (omega arith)
Edits-backwards (deleted {a} {b} {n} x e) =
    subst (λ l. Edits (backwards a ++ x ∷ []) l (suc n)) (sym (append_nil (backwards b)))
      (counted _ (Edits-append (Edits-backwards e) (deleted x finished)) (omega arith))
Edits-backwards (inserted {a} {b} {n} y e) =
    subst (λ l. Edits l (backwards b ++ y ∷ []) (suc n)) (sym (append_nil (backwards a)))
      (counted _ (Edits-append (Edits-backwards e) (inserted y finished)) (omega arith))

-- The row for the characters `ra` read so far, from the place behind `rb`; both are backwards.
row_of : List ℕ → List ℕ → List ℕ → List ℕ
row_of ra rb [] = fewest ra rb ∷ []
row_of ra rb (y ∷ b) = fewest ra rb ∷ row_of ra (y ∷ rb) b

row_tail : List ℕ → List ℕ → List ℕ → List ℕ
row_tail ra rb [] = []
row_tail ra rb (y ∷ b) = row_of ra (y ∷ rb) b

row_of-tail : (ra rb b : List ℕ) → row_of ra rb b ≡ fewest ra rb ∷ row_tail ra rb b
unfolding row_of row_tail
row_of-tail ra rb [] = refl
row_of-tail ra rb (y ∷ b) = refl

next_row-row_of :
    (x : ℕ) (ra rb b : List ℕ)
    → next_row x (fewest ra rb) (fewest (x ∷ ra) rb) b (row_tail ra rb b) ≡ row_tail (x ∷ ra) rb b
unfolding next_row row_tail fewest
next_row-row_of x ra rb [] = refl
next_row-row_of x ra rb (y ∷ b) =
    rw (row_of-tail ra (y ∷ rb) b, row_of-tail (x ∷ ra) (y ∷ rb) b, next_row)
      (ap (λ l. fewest (x ∷ ra) (y ∷ rb) ∷ l) (next_row-row_of x ra (y ∷ rb) b))

count_up-row_of : (rb b : List ℕ) → count_up (length rb) b ≡ row_of [] rb b
unfolding count_up row_of fewest
count_up-row_of rb [] = refl
count_up-row_of rb (y ∷ b) =
    ap (λ l. length rb ∷ l) (ap (λ n. count_up n b) (omega arith) ∙ count_up-row_of (y ∷ rb) b)

write_row-row_of :
    (i x : ℕ) (ra b : List ℕ)
    → i ≡ length ra
    → write_row i x b (row_of ra [] b) ≡ row_of (x ∷ ra) [] b
unfolding fewest
write_row-row_of i x ra b e =
    let first : i + 1 ≡ fewest (x ∷ ra) [] = omega (arith, e) in
    ap (write_row i x b) (row_of-tail ra [] b)
    ∙ ap (λ n. n ∷ next_row x (fewest ra []) n b (row_tail ra [] b)) first
    ∙ ap (λ l. fewest (x ∷ ra) [] ∷ l) (next_row-row_of x ra [] b)
    ∙ sym (row_of-tail (x ∷ ra) [] b)

rows-row_of :
    (i : ℕ) (a ra b : List ℕ)
    → i ≡ length ra
    → rows i a b (row_of ra [] b) ≡ row_of (backwards a ++ ra) [] b
unfolding rows backwards
rows-row_of i [] ra b e = refl
rows-row_of i (x ∷ a) ra b e =
    ap (rows (i + 1) a b) (write_row-row_of i x ra b e)
    ∙ rows-row_of (i + 1) a (x ∷ ra) b (omega (arith, e))
    ∙ ap (λ l. row_of l [] b) (sym (append_assoc (backwards a) (x ∷ []) ra))

last_of-row_of : (ra rb b : List ℕ) → last_of (row_of ra rb b) ≡ fewest ra (backwards b ++ rb)
unfolding row_of backwards
last_of-row_of ra rb [] = refl
last_of-row_of ra rb (y ∷ b) =
    ap (λ l. last_of (fewest ra rb ∷ l)) (row_of-tail ra (y ∷ rb) b)
    ∙ ap last_of (sym (row_of-tail ra (y ∷ rb) b))
    ∙ last_of-row_of ra (y ∷ rb) b
    ∙ ap (fewest ra) (sym (append_assoc (backwards b) (y ∷ []) rb))

distance-fewest : (a b : List ℕ) → distance a b ≡ fewest (backwards a) (backwards b)
unfolding distance fewest
distance-fewest a b =
    ap (λ row. last_of (rows 0 a b row)) (count_up-row_of [] b)
    ∙ ap last_of (rows-row_of 0 a [] b refl)
    ∙ last_of-row_of (backwards a ++ []) [] b
    ∙ ap₂ fewest (sym (append_nil (backwards a))) (sym (append_nil (backwards b)))

backwards-append : (a b : List ℕ) → backwards (a ++ b) ≡ backwards b ++ backwards a
unfolding backwards
backwards-append [] b = append_nil (backwards b)
backwards-append (x ∷ a) b =
    ap (λ l. l ++ x ∷ []) (backwards-append a b) ∙ append_assoc (backwards b) (backwards a) (x ∷ [])

backwards-backwards : (a : List ℕ) → backwards (backwards a) ≡ a
unfolding backwards
backwards-backwards [] = refl
backwards-backwards (x ∷ a) =
    backwards-append (backwards a) (x ∷ []) ∙ ap (λ l. x ∷ l) (backwards-backwards a)

distance-Edits : (a b : List ℕ) → Edits a b (distance a b)
distance-Edits a b =
    let found = Edits-backwards (fewest-Edits (backwards a) (backwards b)) in
    counted _
      (subst (λ l. Edits a l (fewest (backwards a) (backwards b))) (backwards-backwards b)
        (subst (λ l. Edits l (backwards (backwards b)) (fewest (backwards a) (backwards b)))
          (backwards-backwards a) found))
      (sym (distance-fewest a b))

-- The edit distance of two texts is a number of insertions, deletions and replacements of
-- characters that lead from one to the other, and no way between them takes fewer.
pub edit_distance-IsLeast :
    (a b : String) (n : ℕ)
    → Edits (chars a) (chars b) n
    → Edits (chars a) (chars b) (edit_distance a b) × (edit_distance a b ≤ n)
unfolding edit_distance
edit_distance-IsLeast a b n e = (
  distance-Edits (chars a) (chars b),
  omega (arith, distance-fewest (chars a) (chars b), fewest-le (Edits-backwards e)),
)
