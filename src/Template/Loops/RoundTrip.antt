-- ===== src/Template/Loops/RoundTrip.antt =====
-- `render` on a template that is written from parts.
use glidesh.Common.{
  zero, ◌≤◌, ◌≡◌, refl, ap, ◌∙◌, sym, arith, String, none, [], ok, ◌>>=◌, glue, size,
}
use glidesh.Common.Chars.{slice, drop_chars}
use glidesh.Common.Dict.{Dict}
use glidesh.Template.Data.{TemplateData}
use glidesh.Template.Lexer.{lex}
use glidesh.Template.Parser.{Reading, start, push_text, finish, parse}
use glidesh.Template.Render.{render, render_at, write_nodes, plain_error}
use glidesh.Template.Loops.Nesting.{moves_all}
use glidesh.Template.Loops.Parsing.{so_far-here}
use glidesh.Template.Loops.Rendering.{joined, empty_joined}
use glidesh.Template.Loops.Slices.{glue_empty, slice_first}
use glidesh.Template.Loops.{Parts, write_parts, values, AreParts}

-- With nothing left to read and no loop open, the nodes are those with the last text.
finish_lem :
    (template after : String) (r : Reading)
    → template ≡ glue after ""
    → r.open_loops ≡ []
    → r.text_from ≤ size after
    → finish template none r ≡ ok (push_text template (size after) r)
unfolding finish push_text
finish_lem template after r split closed le =
    let is : template ≡ after = split ∙ glue_empty after in
    let last : slice r.text_from (size after) after ≡ drop_chars r.text_from after =
      ap (slice r.text_from (size after)) (sym (glue_empty after))
      ∙ slice_first r.text_from (size after) after "" le refl in
    rw (is, closed, last) refl

-- A template with text, escaped `${`, references and loops in loops renders to its text, the
-- values of its variables, and the body of each loop for each item of its collection with the
-- separator between them, or fails on the first of these that is not defined.
pub render-write_parts :
    (ps : Parts) (vars : Dict String) (template_data : TemplateData)
    → AreParts ps
    → render (write_parts ps "") vars template_data ≡ values ps vars template_data []
unfolding render render_at parse lex size
render-write_parts ps vars template_data h =
    let w = write_parts ps "" in
    let m = moves_all w vars template_data ps "" "" start refl (omega arith) h in
    let parsed : parse w ≡ ok (push_text w (size m.after) m.reached) =
      m.same ∙ finish_lem w m.after m.reached m.split m.loops m.behind in
    ap (λ r. plain_error (r >>= λ nodes. write_nodes nodes vars template_data [])) parsed
    ∙ m.means []
    ∙ ap (λ a. joined a (values ps vars template_data []))
        (so_far-here w vars template_data [] zero start refl)
    ∙ empty_joined (values ps vars template_data [])
