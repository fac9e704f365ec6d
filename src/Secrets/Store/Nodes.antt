-- ===== src/Secrets/Store/Nodes.antt =====
-- A secrets file as its top-level nodes, and what the loops of the edits do to these.
use glidesh.Common.{
  ℤ, pos, ◌+ℤ◌, zero-+ℤ, is_positive, is_zero, ◌≡◌, refl, ◌∙◌, ap, arith, inl, inr, String, Bool,
  true, false, List, [], ◌∷◌, ◌++◌, map, if◌then◌else◌, any, All, Bool-cases,
}
use glidesh.Secrets.Store.{brace_delta, declares, put_lines, swap_node, prepend}

-- A line outside of every brace, with the lines of the block that it opens, if it opens one. A
-- comment or a blank line is a node too.
pub record Node : Type 0 where
  pub first : String
  pub rest : List String

-- From this depth the braces stay open up to the last line, which closes them.
abbrev pub Closes : ℤ → List String → Type 0
Closes d [] = d ≡ pos 0
Closes d (l ∷ ls) = (is_positive d ≡ true) × Closes (d +ℤ brace_delta l) ls

abbrev pub IsNode : Node → Type 0
IsNode n = Closes (brace_delta n.first) n.rest

abbrev pub lines_of : List Node → List String
lines_of [] = []
lines_of (n ∷ ns) = n.first ∷ (n.rest ++ lines_of ns)

abbrev pub named : String → Node → Bool
named key n = declares key n.first

abbrev pub single : String → Node
single line = record { first = line; rest = [] }

-- The first node of this name replaced, or a new one at the end.
abbrev pub put_node : String → Node → List Node → List Node
put_node key new [] = new ∷ []
put_node key new (n ∷ ns) = if named key n then new ∷ ns else n ∷ put_node key new ns

-- Lines in the place of the first node of this name, if there is one.
abbrev pub swap_first : List String → String → List Node → List Node
swap_first put key [] = []
swap_first put key (n ∷ ns) =
    if named key n then map single put ++ ns else n ∷ swap_first put key ns

prepend_lem {ℓ} : {A : Type ℓ} (ls ms : List String) (a : A) → prepend ls (ms, a) ≡ (ls ++ ms, a)
prepend_lem [] ms a = refl
prepend_lem (l ∷ ls) ms a = rw (prepend_lem ls ms a)

not_zero : (d : ℤ) → is_positive d ≡ true → is_zero d ≡ false
not_zero (pos n) h = ground arith
not_zero d h = refl

module _ (key new : String) where
  put_lines-replaced : (d : ℤ) (ls : List String) → put_lines key new d true ls ≡ (ls, true)
  unfolding put_lines
  put_lines-replaced d [] = refl
  put_lines-replaced d (l ∷ ls) = ground (arith, put_lines-replaced (d +ℤ brace_delta l) ls)

  put_lines-block :
      (d : ℤ) (ls ms : List String)
      → Closes d ls
      → put_lines key new d false (ls ++ ms) ≡ prepend ls (put_lines key new (pos 0) false ms)
  unfolding put_lines
  put_lines-block d [] ms c = rw c
  put_lines-block d (l ∷ ls) ms c =
      rw (not_zero d c.0, put_lines-block (d +ℤ brace_delta l) ls ms c.1)

module _ (put : List String) (key : String) where
  swap_node-removed : (d : ℤ) (ls : List String) → swap_node put key false d true ls ≡ (ls, true)
  unfolding swap_node
  swap_node-removed d [] = refl
  swap_node-removed d (l ∷ ls) = ground (arith, swap_node-removed (d +ℤ brace_delta l) ls)

  swap_node-block :
      (d : ℤ) (ls ms : List String)
      → Closes d ls
      → swap_node put key false d false (ls ++ ms)
        ≡ prepend ls (swap_node put key false (pos 0) false ms)
  unfolding swap_node
  swap_node-block d [] ms c = rw c
  swap_node-block d (l ∷ ls) ms c =
      rw (not_zero d c.0, swap_node-block (d +ℤ brace_delta l) ls ms c.1)

  -- The lines of the block that is removed.
  swap_node-skip :
      (d : ℤ) (l : String) (ls ms : List String)
      → Closes d (l ∷ ls)
      → swap_node put key true d true ((l ∷ ls) ++ ms) ≡ (ms, true)
  unfolding swap_node
  swap_node-skip d l [] ms c = rw (c.1, swap_node) (swap_node-removed (pos 0) ms)
  swap_node-skip d l (m ∷ ls) ms c =
      rw (c.1.0, swap_node) (swap_node-skip (d +ℤ brace_delta l) m ls ms c.1)

lines_of-single :
    (put : List String) (ns : List Node) → lines_of (map single put ++ ns) ≡ put ++ lines_of ns
lines_of-single [] ns = refl
lines_of-single (l ∷ put) ns = ap (λ ls. l ∷ ls) (lines_of-single put ns)

-- A name that stands before a block is not put.
abbrev pub AreScalars : String → List Node → Type 0
AreScalars key ns = All (λ (n : Node). named key n ≡ true → n.rest ≡ []) ns

module _ (key new : String) where
  pub put_lines-named :
      (ns : List Node)
      → All IsNode ns
      → AreScalars key ns
      → any (named key) ns ≡ true
      → put_lines key new (pos 0) false (lines_of ns)
        ≡ (lines_of (put_node key (single new) ns), true)
  unfolding put_lines
  put_lines-named [] h s e = cc
  put_lines-named (n ∷ ns) h s e = elim (Bool-cases (named key n)) [
    | inl found ↦
        rw (
          found,
          s.0 found,
          put_lines-replaced key new (pos 0 +ℤ brace_delta n.first) (lines_of ns),
        )
    | inr other ↦ rw (
      other,
      zero-+ℤ (brace_delta n.first),
      put_lines-block key new (brace_delta n.first) n.rest (lines_of ns) h.0,
      put_lines-named ns h.1 s.1 (rw other at e),
      prepend_lem n.rest (lines_of (put_node key (single new) ns)) true,
    )
  ]

  pub put_lines-new :
      (ns : List Node)
      → All IsNode ns
      → any (named key) ns ≡ false
      → put_lines key new (pos 0) false (lines_of ns) ≡ (lines_of ns, false)
  unfolding put_lines
  put_lines-new [] h e = refl
  put_lines-new (n ∷ ns) h e = elim (Bool-cases (named key n)) [
    | inl found ↦ absurd (cc (rw found at e))
    | inr other ↦ rw (
      other,
      zero-+ℤ (brace_delta n.first),
      put_lines-block key new (brace_delta n.first) n.rest (lines_of ns) h.0,
      put_lines-new ns h.1 (rw other at e),
      prepend_lem n.rest (lines_of ns) false,
    )
  ]

module _ (put : List String) (key : String) where
  swap_node-rest :
      (d : ℤ) (ls ms : List String)
      → Closes d ls
      → swap_node put key (is_positive d) (if is_positive d then d else pos 0) true (ls ++ ms)
        ≡ (ms, true)
  swap_node-rest d [] ms c = rw c (swap_node-removed put key (pos 0) ms)
  swap_node-rest d (l ∷ ls) ms c = rw c.0 (swap_node-skip put key d l ls ms c)

  -- The loop over a node that goes.
  swap_node-first :
      (n : Node) (ns : List Node)
      → IsNode n
      → named key n ≡ true
      → swap_node put key false (pos 0) false (lines_of (n ∷ ns)) ≡ prepend put (lines_of ns, true)
  unfolding swap_node
  swap_node-first n ns h e = rw (e, swap_node-rest (brace_delta n.first) n.rest (lines_of ns) h)

  pub swap_node-nodes :
      (ns : List Node)
      → All IsNode ns
      → swap_node put key false (pos 0) false (lines_of ns)
        ≡ (lines_of (swap_first put key ns), any (named key) ns)
  unfolding swap_node
  swap_node-nodes [] h = refl
  swap_node-nodes (n ∷ ns) h = elim (Bool-cases (named key n)) [
    | inl found ↦
        swap_node-first n ns h.0 found
        ∙ prepend_lem put (lines_of ns) true
        ∙ rw (found, lines_of-single put ns)
    | inr other ↦ rw (
      other,
      zero-+ℤ (brace_delta n.first),
      swap_node-block put key (brace_delta n.first) n.rest (lines_of ns) h.0,
      swap_node-nodes ns h.1,
      prepend_lem n.rest (lines_of (swap_first put key ns)) (any (named key) ns),
    )
  ]
