-- ===== src/Secrets/Store/Edits.antt =====
-- The edits on the top-level nodes of a secrets file.
use mathlib.Core.Path.{subst}
use glidesh.Common.{
  pos, ◌≡◌, refl, ◌∙◌, sym, ap, inl, inr, String, Bool, true, false, List, [], ◌∷◌, ◌++◌, any, All,
  Bool-cases, if_cases, append_assoc,
}
use glidesh.Common.Chars.{lines}
use glidesh.Secrets.Store.{
  put_lines, put_end, swap_node, remove_end, scalar_line, upsert_scalar, remove_node, join_lines,
  end_as,
}
use glidesh.Secrets.Store.Lines.{
  IsLine, HasNoFeed, unlines, lines-unlines, put_end-append, is_empty-join_lines,
}
use glidesh.Secrets.Store.Scalars.{IsKey, declares-scalar_line}
use glidesh.Secrets.Store.Nodes.{
  Node, lines_of, named, single, put_node, swap_first, AreScalars, put_lines-named, put_lines-new,
  swap_node-nodes,
}
use glidesh.Secrets.Store.Files.{
  IsFile, AreLines, EndInText, text_of, is_nil, lines_of-All, lines_of-EndsInText,
  lines_of-HasNoFeed, put_node-IsFile, end_as-text_of,
}

pub is_nil-put_node :
    (key : String) (new : Node) (ns : List Node) → is_nil (put_node key new ns) ≡ false
is_nil-put_node key new [] = refl
is_nil-put_node key new (n ∷ ns) =
    if_cases (λ r. is_nil r ≡ false) (named key n) (new ∷ ns) (n ∷ put_node key new ns) (λ _. refl)
      (λ _. refl)

put_node-new :
    (key new : String) (ns : List Node)
    → any (named key) ns ≡ false
    → lines_of (put_node key (single new) ns) ≡ lines_of ns ++ new ∷ []
put_node-new key new [] e = refl
put_node-new key new (n ∷ ns) e = elim (Bool-cases (named key n)) [
  | inl found ↦ absurd (cc (rw found at e))
  | inr other ↦
      rw (other, put_node-new key new ns (rw other at e))
        (ap (λ ls. n.first ∷ ls) (sym (append_assoc n.rest (lines_of ns) (new ∷ []))))
]

pub end_as-named :
    (key : String) (ns ms : List Node)
    → any (named key) ns ≡ true
    → is_nil ms ≡ false
    → All HasNoFeed (lines_of ms)
    → EndInText ms
    → end_as (text_of ns) (join_lines (lines_of ms)) ≡ text_of ms
end_as-named key [] ms e c h i = cc
end_as-named key (n ∷ ns) ms e c h i = end_as-text_of n ns ms c h i

upsert_scalar_lem :
    (content key value : String)
    → upsert_scalar content key value
      ≡ put_end content
          (scalar_line key value)
          (put_lines key (scalar_line key value) (pos 0) false (lines content))
upsert_scalar_lem content key value = unfold upsert_scalar in refl

upsert_scalar-text_of :
    (key value : String) (ns : List Node)
    → IsKey key
    → IsFile ns
    → AreScalars key ns
    → upsert_scalar (text_of ns) key value
      ≡ text_of (put_node key (single (scalar_line key value)) ns)
upsert_scalar-text_of key value ns k f s =
    let new = scalar_line key value in
    let after = put_node-IsFile key value ns k f in
    rw
      (
        upsert_scalar_lem (text_of ns) key value,
        lines-unlines (lines_of ns) (lines_of-All IsLine ns f.lines),
      )
      (elim (Bool-cases (any (named key) ns)) [
        | inl found ↦ rw (put_lines-named key new ns f.nodes s found) (
            end_as-named key ns (put_node key (single new) ns) found
              (is_nil-put_node key (single new) ns)
              (lines_of-HasNoFeed (put_node key (single new) ns) after.lines) after.ends)
        | inr other ↦ rw (put_lines-new key new ns f.nodes other) (
            put_end-append (text_of ns) new (lines_of ns) (lines_of-HasNoFeed ns f.lines)
              (lines_of-EndsInText ns f.ends)
            ∙ ap unlines (sym (put_node-new key new ns other)))
      ])

-- In a file of whole nodes (every block is closed, and the last line is not blank), for a plain
-- key that opens no block in it, `upsert_scalar` writes the text of the file with the first node
-- of the key replaced, or with a new one at the end, and that is again a file of whole nodes.
pub upsert_scalar-put_node :
    (key value : String) (ns : List Node)
    → IsKey key
    → IsFile ns
    → AreScalars key ns
    → (upsert_scalar (text_of ns) key value
        ≡ text_of (put_node key (single (scalar_line key value)) ns))
      × IsFile (put_node key (single (scalar_line key value)) ns)
upsert_scalar-put_node key value ns k f s =
    (upsert_scalar-text_of key value ns k f s, put_node-IsFile key value ns k f)

put_node-put_node :
    (key : String) (new newer : Node) (ns : List Node)
    → named key new ≡ true
    → put_node key newer (put_node key new ns) ≡ put_node key newer ns
put_node-put_node key new newer [] e = rw e
put_node-put_node key new newer (n ∷ ns) e = elim (Bool-cases (named key n)) [
  | inl found ↦ rw (found, e)
  | inr other ↦ rw (other, other, put_node-put_node key new newer ns e)
]

AreScalars-put_node :
    (key line : String) (ns : List Node)
    → AreScalars key ns
    → AreScalars key (put_node key (single line) ns)
AreScalars-put_node key line [] s = ((λ _. refl), tt)
AreScalars-put_node key line (n ∷ ns) s =
    if_cases (AreScalars key) (named key n) (single line ∷ ns) (n ∷ put_node key (single line) ns)
      (λ _. ((λ _. refl), s.1)) (λ _. (s.0, AreScalars-put_node key line ns s.1))

-- Of two writes of a key that opens no block only the later one counts.
pub upsert_scalar-upsert_scalar :
    (key value newer : String) (ns : List Node)
    → IsKey key
    → IsFile ns
    → AreScalars key ns
    → upsert_scalar (upsert_scalar (text_of ns) key value) key newer
      ≡ upsert_scalar (text_of ns) key newer
upsert_scalar-upsert_scalar key value newer ns k f s =
    let new = single (scalar_line key value) in
    rw
      (
        upsert_scalar-text_of key value ns k f s,
        upsert_scalar-text_of key newer (put_node key new ns) k (put_node-IsFile key value ns k f)
            (AreScalars-put_node key (scalar_line key value) ns s),
        upsert_scalar-text_of key newer ns k f s,
      )
      (ap text_of (
        put_node-put_node key new (single (scalar_line key newer)) ns
          (declares-scalar_line key value k)))

remove_node_lem :
    (content key : String)
    → remove_node content key
      ≡ remove_end content (swap_node [] key false (pos 0) false (lines content))
remove_node_lem content key = unfold remove_node in refl

remove_end-text_of :
    (n : Node) (ns ms : List Node) (b : Bool)
    → All AreLines ms
    → EndInText ms
    → remove_end (text_of (n ∷ ns)) (lines_of ms, b) ≡ text_of ms
remove_end-text_of n ns [] b h e = unfold join_lines in refl
remove_end-text_of n ns (m ∷ ms) b h e =
    rw (is_empty-join_lines m.first (m.rest ++ lines_of ms) (lines_of-EndsInText (m ∷ ms) e))
      (end_as-text_of n ns (m ∷ ms) refl (lines_of-HasNoFeed (m ∷ ms) h) e)

-- Removing a node from a file of whole nodes leaves the text of the others, where that is again
-- a file of whole nodes; a block goes with all its lines.
pub remove_node-swap_first :
    (key : String) (ns : List Node)
    → IsFile ns
    → IsFile (swap_first [] key ns)
    → remove_node (text_of ns) key ≡ text_of (swap_first [] key ns)
remove_node-swap_first key [] f g = unfold remove_node in refl
remove_node-swap_first key (n ∷ ns) f g =
    rw
      (
        remove_node_lem (text_of (n ∷ ns)) key,
        lines-unlines (lines_of (n ∷ ns)) (lines_of-All IsLine (n ∷ ns) f.lines),
        swap_node-nodes [] key (n ∷ ns) f.nodes,
      )
      (remove_end-text_of n ns (swap_first [] key (n ∷ ns)) (any (named key) (n ∷ ns)) g.lines
        g.ends)

swap_first-put_node :
    (key : String) (new : Node) (ns : List Node)
    → named key new ≡ true
    → any (named key) ns ≡ false
    → swap_first [] key (put_node key new ns) ≡ ns
swap_first-put_node key new [] e other = rw e
swap_first-put_node key new (n ∷ ns) e other = elim (Bool-cases (named key n)) [
  | inl found ↦ absurd (cc (rw found at other))
  | inr o ↦ rw (o, o, swap_first-put_node key new ns e (rw o at other))
]

AreScalars-none : (key : String) (ns : List Node) → any (named key) ns ≡ false → AreScalars key ns
AreScalars-none key [] e = tt
AreScalars-none key (n ∷ ns) e = elim (Bool-cases (named key n)) [
  | inl found ↦ absurd (cc (rw found at e))
  | inr other ↦ ((λ found. absurd (cc (found, other))), AreScalars-none key ns (rw other at e))
]

-- Setting a plain key that a file of whole nodes (every block is closed, and the last line is not
-- blank) does not declare, and removing it again, gives the text of the file back, whatever the
-- value.
pub remove_node-upsert_scalar :
    (key value : String) (ns : List Node)
    → IsKey key
    → IsFile ns
    → any (named key) ns ≡ false
    → remove_node (upsert_scalar (text_of ns) key value) key ≡ text_of ns
remove_node-upsert_scalar key value ns k f e =
    let new = single (scalar_line key value) in
    let back = swap_first-put_node key new ns (declares-scalar_line key value k) e in
    rw (
      upsert_scalar-text_of key value ns k f (AreScalars-none key ns e),
      remove_node-swap_first key (put_node key new ns) (put_node-IsFile key value ns k f)
          (subst IsFile (sym back) f),
      back,
    )
