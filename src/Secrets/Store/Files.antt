-- ===== src/Secrets/Store/Files.antt =====
-- Secrets files of whole top-level nodes, which a write keeps so.
use glidesh.Common.{
  ◌≡◌, inl, inr, String, Bool, true, false, List, [], ◌∷◌, ◌++◌, All, All-append, All-map,
  Bool-cases, if_cases, append_nil,
}
use glidesh.Secrets.Store.{scalar_line, join_lines, end_as}
use glidesh.Secrets.Store.Lines.{
  IsLine, EndsInText, HasNoFeed, unlines, ends_line-line, end_as-unlines,
}
use glidesh.Secrets.Store.Scalars.{IsKey, scalar_line-IsLine, scalar_line-brace_delta}
use glidesh.Secrets.Store.Nodes.{Node, IsNode, lines_of, named, single, put_node}

abbrev pub AreLines : Node → Type 0
AreLines n = All IsLine (n.first ∷ n.rest)

-- The last line has a character.
abbrev pub EndInText : List Node → Type 0
EndInText [] = Unit
EndInText (n ∷ []) = EndsInText (n.first ∷ n.rest)
EndInText (n ∷ m ∷ ns) = EndInText (m ∷ ns)

-- The nodes of a file that the edits read back as they write it: whole lines, and no blank one
-- at the end.
pub record IsFile (ns : List Node) : Type 0 where
  pub nodes : All IsNode ns
  pub lines : All AreLines ns
  pub ends : EndInText ns

abbrev pub text_of : List Node → String
text_of ns = unlines (lines_of ns)

pub lines_of-All :
    (P : String → Type 0) (ns : List Node)
    → All (λ (n : Node). All P (n.first ∷ n.rest)) ns
    → All P (lines_of ns)
lines_of-All P [] h = tt
lines_of-All P (n ∷ ns) h =
    All-append P (n.first ∷ n.rest) (lines_of ns) h.0 (lines_of-All P ns h.1)

EndsInText-append :
    (ls : List String) (m : String) (ms : List String)
    → EndsInText (m ∷ ms)
    → EndsInText (ls ++ m ∷ ms)
EndsInText-append [] m ms e = e
EndsInText-append (l ∷ []) m ms e = e
EndsInText-append (l ∷ k ∷ ls) m ms e = EndsInText-append (k ∷ ls) m ms e

pub lines_of-EndsInText : (ns : List Node) → EndInText ns → EndsInText (lines_of ns)
lines_of-EndsInText [] e = tt
lines_of-EndsInText (n ∷ []) e = rw (← append_nil n.rest) e
lines_of-EndsInText (n ∷ m ∷ ns) e =
    EndsInText-append (n.first ∷ n.rest) m.first (m.rest ++ lines_of ns)
      (lines_of-EndsInText (m ∷ ns) e)

module _ (key : String) (new : Node) where
  -- A property of the new node and of the old ones is one of the nodes after a write.
  pub All-put_node :
      (P : Node → Type 0) (ns : List Node) → P new → All P ns → All P (put_node key new ns)
  All-put_node P [] i h = (i, tt)
  All-put_node P (n ∷ ns) i h =
      if_cases (All P) (named key n) (new ∷ ns) (n ∷ put_node key new ns) (λ _. (i, h.1))
        (λ _. (h.0, All-put_node P ns i h.1))

  EndInText-before :
      (n : Node) (ns : List Node)
      → EndInText (put_node key new ns)
      → EndInText (n ∷ put_node key new ns)
  EndInText-before n [] e = e
  EndInText-before n (m ∷ ns) e = elim (Bool-cases (named key m)) [
    | inl found ↦ rw found (rw found at e)
    | inr other ↦ rw other (rw other at e)
  ]

  pub put_node-EndInText :
      (ns : List Node)
      → EndsInText (new.first ∷ new.rest)
      → EndInText ns
      → EndInText (put_node key new ns)
  put_node-EndInText [] i e = i
  put_node-EndInText (n ∷ []) i e =
      if_cases EndInText (named key n) (new ∷ []) (n ∷ new ∷ []) (λ _. i) (λ _. i)
  put_node-EndInText (n ∷ m ∷ ns) i e =
      if_cases EndInText (named key n) (new ∷ m ∷ ns) (n ∷ put_node key new (m ∷ ns)) (λ _. e)
        (λ _. EndInText-before n (m ∷ ns) (put_node-EndInText (m ∷ ns) i e))

-- The file after a write.
pub put_node-IsFile :
    (key value : String) (ns : List Node)
    → IsKey key
    → IsFile ns
    → IsFile (put_node key (single (scalar_line key value)) ns)
put_node-IsFile key value ns k f =
    let new = single (scalar_line key value) in
    let line = scalar_line-IsLine key value k in
    record {
      nodes = All-put_node key new IsNode ns (scalar_line-brace_delta key value k) f.nodes;
      lines = All-put_node key new AreLines ns (line.0, tt) f.lines;
      ends = put_node-EndInText key new ns line.1 f.ends;
    }

pub lines_of-HasNoFeed : (ns : List Node) → All AreLines ns → All HasNoFeed (lines_of ns)
lines_of-HasNoFeed ns h =
    All-map IsLine HasNoFeed ends_line-line (lines_of ns) (lines_of-All IsLine ns h)

abbrev pub is_nil : List Node → Bool
is_nil [] = true
is_nil (n ∷ ns) = false

-- The text that joined lines of nodes end in.
pub end_as-text_of :
    (n : Node) (ns ms : List Node)
    → is_nil ms ≡ false
    → All HasNoFeed (lines_of ms)
    → EndInText ms
    → end_as (text_of (n ∷ ns)) (join_lines (lines_of ms)) ≡ text_of ms
end_as-text_of n ns [] c h e = cc
end_as-text_of n ns (m ∷ ms) c h e =
    end_as-unlines n.first (n.rest ++ lines_of ns) m.first (m.rest ++ lines_of ms) h
      (lines_of-EndsInText (m ∷ ms) e)
