-- ===== src/Template/Loops/Parsing.antt =====
-- `render` on the parts of a template: what it holds once the parts are read.
use glidesh.Common.{
  ℕ, zero, ◌+◌, ◌≤◌, ◌≡◌, refl, ap, ◌∙◌, sym, arith, String, List, ltb, Result, ok, err, ◌>>=◌,
  glue, size, Bool-cases, leb_of_ltb, ◌-◌, inl, inr, ◌==◌,
}
use glidesh.Common.Chars.{slice, take_chars, drop_chars}
use glidesh.Common.Dict.{Dict}
use glidesh.Condition.RoundTrip.Print.{Without}
use glidesh.Condition.RoundTrip.Lexing.{size-glue}
use glidesh.Template.Data.{TemplateData}
use glidesh.Template.Lexer.{Token, At, AtError, Lexed, add, lex_from, inner_token}
use glidesh.Template.Parser.{
  Nodes, text, var, push, Node, Reading, push_text, read_token, read_tokens, finish,
}
use glidesh.Template.Render.{Binding, write_nodes}
use glidesh.Template.Loops.Lexing.{lex_from-plain, lex_from-tagged, lex_from-brace}
use glidesh.Template.Loops.Rendering.{
  Written, joined, joined_assoc, joined_empty, written, written_node, written-push,
}
use glidesh.Template.Loops.Slices.{glue_assoc, slice-glue, slice_first}
use glidesh.Template.Loops.{ref, tagged, IsPart}

-- What is left to do after some tokens.
abbrev pub carry : String → Lexed → Reading → Result AtError Nodes
carry template lexed r = read_tokens template lexed.0 r >>= λ r'. finish template lexed.1 r'

>>=-assoc :
    {A B C : Type 0} (r : Result AtError A) (f : A → Result AtError B) (g : B → Result AtError C)
    → ((r >>= f) >>= g) ≡ (r >>= λ a. f a >>= g)
>>=-assoc (ok a) f g = refl
>>=-assoc (err e) f g = refl

carry-add :
    (template : String) (a : At) (lexed : Lexed) (r r' : Reading)
    → read_token a.at (push_text template a.at r) (a.at + a.len) r.open_loops a.token ≡ ok r'
    → carry template (add a lexed) r ≡ carry template lexed r'
unfolding read_tokens
carry-add template a lexed r r' e =
    >>=-assoc (read_token a.at (push_text template a.at r) (a.at + a.len) r.open_loops a.token)
      (read_tokens template lexed.0) (finish template lexed.1)
    ∙ rw e refl

slice-nothing : (from to : ℕ) (s : String) → to ≤ from → slice from to s ≡ ""
unfolding slice take_chars
slice-nothing from to s le = let e : to - from ≡ zero = omega arith in rw e refl

tagged-glue : (inner rest : String) → tagged inner rest ≡ glue (tagged inner "") rest
tagged-glue inner rest = ap (λ t. glue "${" t) (sym (glue_assoc inner "}" rest))

size-tagged : (inner : String) → size (tagged inner "") ≡ 2 + size inner + 1
unfolding size
size-tagged inner = omega (arith, size-glue inner "}")

module _ (template : String) (vars : Dict String) (template_data : TemplateData) where
  -- What the nodes write with the text before a place.
  abbrev pub so_far : List Binding → ℕ → Reading → Written
  so_far bs at r = written vars template_data bs (push_text template at r)

  so_far-slice :
      (bs : List Binding) (at : ℕ) (r : Reading)
      → r.text_from ≤ at
      → so_far bs at r
        ≡ joined (written vars template_data bs r.nodes) (ok (slice r.text_from at template))
  unfolding push_text write_nodes
  so_far-slice bs at r le = elim (Bool-cases (ltb r.text_from at)) [
    | inl e ↦
        rw (e, push_text)
          (written-push vars template_data bs r.nodes (text (slice r.text_from at template)))
    | inr e ↦
        rw (e, push_text)
          (sym (joined_empty (written vars template_data bs r.nodes))
            ∙ ap (λ t. joined (written vars template_data bs r.nodes) (ok t))
                (sym (slice-nothing r.text_from at template (leb_of_ltb r.text_from at e))))
  ]

  pub so_far-here :
      (bs : List Binding) (at : ℕ) (r : Reading)
      → r.text_from ≡ at
      → so_far bs at r ≡ written vars template_data bs r.nodes
  so_far-here bs at r e =
      so_far-slice bs at r (omega arith)
      ∙ ap (λ t. joined (written vars template_data bs r.nodes) (ok t))
          (slice-nothing r.text_from at template (omega arith))
      ∙ joined_empty (written vars template_data bs r.nodes)

  so_far-plain :
      (bs : List Binding) (before s rest : String) (r : Reading)
      → template ≡ glue before (glue s rest)
      → r.text_from ≤ size before
      → so_far bs (size (glue before s)) r ≡ joined (so_far bs (size before) r) (ok s)
  so_far-plain bs before s rest r split le =
      let from = r.text_from in
      let done = written vars template_data bs r.nodes in
      let longer : slice from (size (glue before s)) template ≡ glue (drop_chars from before) s =
        rw split (slice-glue from (size (glue before s)) before s rest le (size-glue before s)) in
      let shorter : slice from (size before) template ≡ drop_chars from before =
        rw split (slice_first from (size before) before (glue s rest) le refl) in
      so_far-slice bs (size (glue before s)) r (omega (arith, size-glue before s))
      ∙ ap (λ t. joined done (ok t)) longer
      ∙ sym (joined_assoc done (ok (drop_chars from before)) (ok s))
      ∙ ap (λ t. joined (joined done (ok t)) (ok s)) (sym shorter)
      ∙ ap (λ w. joined w (ok s)) (sym (so_far-slice bs (size before) r le))

  -- Reading `parts` behind `before`, with `rest` to come, moves from a reading to another one: the
  -- loops that are open stay, and what is written grows by what the parts stand for.
  pub record Moves (before parts rest : String) (r : Reading) (meaning : List Binding → Written)
      : Type 0 where
    pub after : String
    pub reached : Reading
    pub split : template ≡ glue after rest
    pub same :
        carry template (lex_from zero (size before) parts) r
        ≡ carry template (lex_from zero (size after) rest) reached
    pub loops : reached.open_loops ≡ r.open_loops
    pub behind : reached.text_from ≤ size after
    pub means :
        (bs : List Binding)
        → so_far bs (size after) reached ≡ joined (so_far bs (size before) r) (meaning bs)

  module _ (r : Reading) where
    pub nil_moves :
        (before rest : String)
        → template ≡ glue before rest
        → r.text_from ≤ size before
        → Moves before rest rest r (λ bs. ok "")
    nil_moves before rest split le = record {
      after = before;
      reached = r;
      split = split;
      same = refl;
      loops = refl;
      behind = le;
      means = λ bs. sym (joined_empty (so_far bs (size before) r));
    }

    pub plain_moves :
        (before s rest : String)
        → template ≡ glue before (glue s rest)
        → r.text_from ≤ size before
        → Without (λ c. c == b'$') s
        → Moves before (glue s rest) rest r (λ bs. ok s)
    plain_moves before s rest split le h = record {
      after = glue before s;
      reached = r;
      split = split ∙ sym (glue_assoc before s rest);
      same =
          ap (λ l. carry template l r)
            (lex_from-plain s rest (size before) h
              ∙ ap (λ n. lex_from zero n rest) (sym (size-glue before s)));
      loops = refl;
      behind = omega (arith, size-glue before s);
      means = λ bs. so_far-plain bs before s rest r split le;
    }

    -- A tag, written `w`, that adds a node.
    node_moves :
        (before parts w rest : String) (len : ℕ) (token : Token) (n : Node)
        → template ≡ glue (glue before w) rest
        → size w ≡ len
        → lex_from zero (size before) parts
          ≡ add
              (record { at = size before; len = len; token = token })
              (lex_from zero (size before + len) rest)
        → read_token
            (size before)
            (push_text template (size before) r)
            (size before + len)
            r.open_loops
            token
          ≡ ok (record {
            open_loops = r.open_loops;
            nodes = push (push_text template (size before) r) n;
            text_from = size before + len;
          })
        → Moves before parts rest r (λ bs. written_node vars template_data bs n)
    node_moves before parts w rest len token n split long lexed read =
        let at = size before in
        let a : At = record { at = at; len = len; token = token } in
        let r' : Reading = record {
          open_loops = r.open_loops;
          nodes = push (push_text template at r) n;
          text_from = at + len;
        } in
        let reach : at + len ≡ size (glue before w) = omega (arith, size-glue before w) in
        record {
          after = glue before w;
          reached = r';
          split = split;
          same =
              ap (λ l. carry template l r) lexed
              ∙ carry-add template a (lex_from zero (at + len) rest) r r' read
              ∙ ap (λ n. carry template (lex_from zero n rest) r') reach;
          loops = refl;
          behind = omega arith;
          means = λ bs.
              so_far-here bs (size (glue before w)) r' reach
              ∙ written-push vars template_data bs (push_text template at r) n;
        }

    pub brace_moves :
        (before rest : String)
        → template ≡ glue before (glue "$${" rest)
        → Moves before (glue "$${" rest) rest r (λ bs. ok "${")
    unfolding read_token write_nodes size
    brace_moves before rest split =
        node_moves before (glue "$${" rest) "$${" rest 3 _ (text "${")
          (split ∙ sym (glue_assoc before "$${" rest)) refl (lex_from-brace rest (size before)) refl

    tagged_moves :
        (before inner rest : String) (n : Node)
        → template ≡ glue before (tagged inner rest)
        → Without (λ c. c == b'}') inner
        → read_token
            (size before)
            (push_text template (size before) r)
            (size before + (2 + size inner + 1))
            r.open_loops
            (inner_token inner)
          ≡ ok (record {
            open_loops = r.open_loops;
            nodes = push (push_text template (size before) r) n;
            text_from = size before + (2 + size inner + 1);
          })
        → Moves before (tagged inner rest) rest r (λ bs. written_node vars template_data bs n)
    tagged_moves before inner rest n split h read =
        node_moves before (tagged inner rest) (tagged inner "") rest (2 + size inner + 1)
          (inner_token inner) n
          (split
            ∙ ap (glue before) (tagged-glue inner rest)
            ∙ sym (glue_assoc before (tagged inner "") rest))
          (size-tagged inner) (lex_from-tagged inner rest (size before) h) read

    pub ref_moves :
        (before name rest : String)
        → template ≡ glue before (tagged name rest)
        → IsPart (ref name)
        → Moves before
            (tagged name rest)
            rest
            r
            (λ bs. written_node vars template_data bs (var (size before) name))
    unfolding read_token inner_token
    ref_moves before name rest split (h, no_for, no_end) =
        tagged_moves before name rest (var (size before) name) split h (rw (no_for, no_end) refl)

  pub moves_as :
      (before parts rest : String) (r : Reading) (m n : List Binding → Written)
      → Moves before parts rest r m
      → ((bs : List Binding) → m bs ≡ n bs)
      → Moves before parts rest r n
  moves_as before parts rest r m n moves h = record {
    after = moves.after;
    reached = moves.reached;
    split = moves.split;
    same = moves.same;
    loops = moves.loops;
    behind = moves.behind;
    means = λ bs. moves.means bs ∙ ap (joined (so_far bs (size before) r)) (h bs);
  }

  pub moves_then :
      (before parts more rest : String) (r : Reading) (m n : List Binding → Written)
      (first : Moves before parts more r m)
      → Moves first.after more rest first.reached n
      → Moves before parts rest r (λ bs. joined (m bs) (n bs))
  moves_then before parts more rest r m n first second = record {
    after = second.after;
    reached = second.reached;
    split = second.split;
    same = first.same ∙ second.same;
    loops = second.loops ∙ first.loops;
    behind = second.behind;
    means = λ bs.
        second.means bs
        ∙ ap (λ w. joined w (n bs)) (first.means bs)
        ∙ joined_assoc (so_far bs (size before) r) (m bs) (n bs);
  }

  pub split-tagged :
      (before inner rest : String)
      → template ≡ glue before (tagged inner rest)
      → template ≡ glue (glue before (tagged inner "")) rest
  split-tagged before inner rest split =
      split
      ∙ ap (glue before) (tagged-glue inner rest)
      ∙ sym (glue_assoc before (tagged inner "") rest)

  pub past-tagged :
      (before inner : String)
      → size before + (2 + size inner + 1) ≡ size (glue before (tagged inner ""))
  past-tagged before inner = omega (arith, size-glue before (tagged inner ""), size-tagged inner)

  pub carry-tagged :
      (before inner rest : String) (r r' : Reading)
      → Without (λ c. c == b'}') inner
      → read_token
          (size before)
          (push_text template (size before) r)
          (size before + (2 + size inner + 1))
          r.open_loops
          (inner_token inner)
        ≡ ok r'
      → carry template (lex_from zero (size before) (tagged inner rest)) r
        ≡ carry template (lex_from zero (size (glue before (tagged inner ""))) rest) r'
  carry-tagged before inner rest r r' h read =
      let len = 2 + size inner + 1 in
      let a : At = record { at = size before; len = len; token = inner_token inner } in
      ap (λ l. carry template l r) (lex_from-tagged inner rest (size before) h)
      ∙ carry-add template a (lex_from zero (size before + len) rest) r r' read
      ∙ ap (λ n. carry template (lex_from zero n rest) r') (past-tagged before inner)
