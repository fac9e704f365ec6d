-- ===== src/Template/Loops/Nesting.antt =====
-- `render` on the parts of a template, with the loops in them.
use glidesh.Common.{
  ℕ, ◌+◌, ◌≤◌, ◌≡◌, refl, ap, ◌∙◌, arith, String, Option, List, ◌∷◌, ok, glue, size,
}
use glidesh.Common.Dict.{Dict}
use glidesh.Template.Data.{TemplateData}
use glidesh.Template.Lexer.{inner_token}
use glidesh.Template.Parser.{Nodes, nil, var, for, push, Open, Reading, push_text, read_token}
use glidesh.Template.Render.{Binding, write_nodes}
use glidesh.Template.Loops.Header.{inner_token-header, header-Without}
use glidesh.Template.Loops.Parsing.{
  so_far, so_far-here, Moves, nil_moves, plain_moves, brace_moves, ref_moves, moves_as, moves_then,
  split-tagged, past-tagged, carry-tagged,
}
use glidesh.Template.Loops.Rendering.{
  joined, empty_joined, written, written_node, written-push, read_var_anywhere, written_for,
}
use glidesh.Template.Loops.{
  Part, Parts, plain, brace, ref, loop, tagged, header, write, write_parts, value, values, IsPart,
  AreParts,
}

read-end :
    (at : ℕ) (nodes : Nodes) (from : ℕ) (o : Open) (os loops : List Open)
    → loops ≡ o ∷ os
    → read_token at nodes from loops (inner_token "endfor")
      ≡ ok (record {
        open_loops = os;
        nodes = push o.outer (for o.at o.binding o.collection o.separator nodes);
        text_from = from;
      })
unfolding read_token inner_token
read-end at nodes from o os loops e = rw e refl

module _ (template : String) (vars : Dict String) (template_data : TemplateData) where
  loop_means :
      (bs : List Binding) (outer body_nodes : Nodes) (at n : ℕ) (binding collection : String)
      (separator : Option String) (body : Parts) (r1 : Reading)
      → r1.nodes ≡ nil
      → r1.text_from ≡ n
      → ((bs : List Binding)
          → written vars template_data bs body_nodes
            ≡ joined
                (so_far template vars template_data bs n r1)
                (values body vars template_data bs))
      → written vars template_data bs (push outer (for at binding collection separator body_nodes))
        ≡ joined
            (written vars template_data bs outer)
            (value (loop binding collection separator body) vars template_data bs)
  unfolding write_nodes
  loop_means bs outer body_nodes at n binding collection separator body r1 empty here h =
      written-push vars template_data bs outer (for at binding collection separator body_nodes)
      ∙ ap (joined (written vars template_data bs outer)) (
          written_for vars template_data bs at binding collection separator body_nodes body (λ bs.
            h bs
            ∙ ap (λ w. joined w (values body vars template_data bs))
                (so_far-here template vars template_data bs n r1 here
                  ∙ ap (written vars template_data bs) empty)
            ∙ empty_joined (values body vars template_data bs)))

  -- A loop, from what is read of its body.
  loop_moves :
      (before binding collection : String) (separator : Option String) (body : Parts)
      (rest : String) (r : Reading)
      → template ≡ glue before (write (loop binding collection separator body) rest)
      → IsPart (loop binding collection separator body)
      → ((before' : String) (r' : Reading)
          → template ≡ glue before' (write_parts body (tagged "endfor" rest))
          → r'.text_from ≤ size before'
          → Moves template vars template_data before'
              (write_parts body (tagged "endfor" rest))
              (tagged "endfor" rest)
              r'
              (values body vars template_data))
      → Moves template vars template_data before
          (write (loop binding collection separator body) rest)
          rest
          r
          (value (loop binding collection separator body) vars template_data)
  unfolding read_token size
  loop_moves before binding collection separator body rest r split (hb, hc, hs, no_at, hp) ih =
      let hd = header binding collection separator in
      let more = write_parts body (tagged "endfor" rest) in
      let at = size before in
      let from = at + (2 + size hd + 1) in
      let outer = push_text template at r in
      let o : Open = record {
        at = at;
        binding = binding;
        collection = collection;
        separator = separator;
        outer = outer;
      } in
      let r1 : Reading = record { open_loops = o ∷ r.open_loops; nodes = nil; text_from = from } in
      let before1 = glue before (tagged hd "") in
      let past = past-tagged template vars template_data before hd in
      let inside =
        ih before1 r1 (split-tagged template vars template_data before hd more split)
          (omega arith) in
      let body_nodes = push_text template (size inside.after) inside.reached in
      let node = for at binding collection separator body_nodes in
      let r3 : Reading = record {
        open_loops = r.open_loops;
        nodes = push outer node;
        text_from = size inside.after + 9;
      } in
      let end = glue inside.after (tagged "endfor" "") in
      record {
        after = end;
        reached = r3;
        split = split-tagged template vars template_data inside.after "endfor" rest inside.split;
        same =
            carry-tagged template vars template_data before hd more r r1
              (header-Without binding collection separator hb hc hs)
              (rw (inner_token-header binding collection separator hb hc hs, read_token, no_at)
                refl)
            ∙ inside.same
            ∙ carry-tagged template vars template_data inside.after "endfor" rest inside.reached r3
                (refl, (refl, (refl, (refl, (refl, (refl, tt))))))
                (read-end (size inside.after) body_nodes (size inside.after + 9) o r.open_loops
                  inside.reached.open_loops inside.loops);
        loops = refl;
        behind = omega (arith, past-tagged template vars template_data inside.after "endfor");
        means = λ bs.
            so_far-here template vars template_data bs (size end) r3
              (past-tagged template vars template_data inside.after "endfor")
            ∙ loop_means bs outer body_nodes at (size before1) binding collection separator body r1
                refl past inside.means;
      }

  written-var :
      (bs : List Binding) (at : ℕ) (name : String)
      → written_node vars template_data bs (var at name) ≡ value (ref name) vars template_data bs
  unfolding write_nodes
  written-var bs at name = read_var_anywhere vars template_data at 0 name bs

  mutual
    pub moves :
        (p : Part) (before rest : String) (r : Reading)
        → template ≡ glue before (write p rest)
        → r.text_from ≤ size before
        → IsPart p
        → Moves template vars template_data before
            (write p rest)
            rest
            r
            (value p vars template_data)
    moves (plain s) before rest r split le h =
        plain_moves template vars template_data r before s rest split le h
    moves brace before rest r split le h =
        brace_moves template vars template_data r before rest split
    moves (ref name) before rest r split le h =
        moves_as template vars template_data before (tagged name rest) rest r _ _
          (ref_moves template vars template_data r before name rest split h)
          (λ bs. written-var bs (size before) name)
    moves (loop binding collection separator body) before rest r split le h =
        loop_moves before binding collection separator body rest r split h
          (λ before' r' split' le'. moves_all body before' (tagged "endfor" rest) r' split' le' h.4)

    pub moves_all :
        (ps : Parts) (before rest : String) (r : Reading)
        → template ≡ glue before (write_parts ps rest)
        → r.text_from ≤ size before
        → AreParts ps
        → Moves template vars template_data before
            (write_parts ps rest)
            rest
            r
            (values ps vars template_data)
    moves_all Parts.nil before rest r split le h =
        nil_moves template vars template_data r before rest split le
    moves_all (Parts.cons p ps) before rest r split le h =
        let first = moves p before (write_parts ps rest) r split le h.0 in
        moves_then template vars template_data before (write p (write_parts ps rest))
          (write_parts ps rest) rest r (value p vars template_data) (values ps vars template_data)
          first (moves_all ps first.after rest first.reached first.split first.behind h.1)
