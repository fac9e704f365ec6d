-- ===== src/Template/Render.antt =====
-- `render` and `render_file` of config/template.rs.
use glidesh.Common.{
  ℕ, String, Option, none, some, List, [], ◌∷◌, Result, ok, err, ◌>>=◌, fmt, glue, join, show,
  GlideshError, template_error, or_else, unwrap_or,
}
use glidesh.Common.Chars.{strip_prefix}
use glidesh.Common.Dict.{Dict, get}
use glidesh.Tags.{sort}
use glidesh.Template.Data.{TemplateData}
use glidesh.Template.Lexer.{AtError, line_at, literal_hint}
use glidesh.Template.Parser.{Node, Nodes, text, var, for, nil, cons, parse, fail_at}

-- A loop that a node sits in: its binding, its collection and its current item.
abbrev pub Binding : Type 0
Binding = String × String × Dict String

abbrev field_after_dot : Option String → Option String
field_after_dot none = none
field_after_dot (some rest) = strip_prefix "." rest

-- The field that a name reads from a loop over `binding`.
unfoldable pub bound_field : String → String → Option String
unfolding strip_prefix
bound_field name binding = field_after_dot (strip_prefix binding name)

-- The innermost loop that binds the name; the bindings have the innermost first.
unfoldable pub find_bound : String → List Binding → Option (String × String × Dict String)
unfolding bound_field
find_bound name [] = none
find_bound name ((binding, collection, item) ∷ bs) =
    let outer = find_bound name bs in
    elim (bound_field name binding) [ none ↦ outer | some field ↦ some (field, collection, item) ]

abbrev keys : Dict String → List String
keys [] = []
keys ((k, v) ∷ m) = k ∷ keys m

abbrev pub ok_or_at : Option String → ℕ → String → Result AtError String
ok_or_at none at message = fail_at at message
ok_or_at (some value) at message = ok value

unfoldable pub undefined_field : String → String → Dict String → String
unfolding fmt join
undefined_field field collection item = fmt (
    "Undefined field '"
    ∷ field
    ∷ "' in collection '"
    ∷ collection
    ∷ "' (available: "
    ∷ join ", " (sort (keys item))
    ∷ ")"
    ∷ [])

unfoldable pub read_bound :
    ℕ
    → String
    → Dict String
    → TemplateData
    → Option (String × String × Dict String)
    → Result AtError String
unfolding get fmt undefined_field
read_bound at name vars template_data (some (field, collection, item)) =
    ok_or_at (get item field) at (undefined_field field collection item)
read_bound at name vars template_data none =
    ok_or_at (or_else (get template_data.extra_vars name) (get vars name)) at
      (fmt ("Undefined variable: " ∷ name ∷ []))

unfoldable pub read_var :
    ℕ → String → Dict String → TemplateData → List Binding → Result AtError String
unfolding read_bound find_bound
read_var at name vars template_data bindings =
    read_bound at name vars template_data (find_bound name bindings)

-- The body for each item, with the separator between them.
abbrev pub repeat :
    {E : Type 0} → String → (Dict String → Result E String) → List (Dict String) → Result E String
repeat separator body [] = ok ""
repeat separator body (item ∷ []) = body item
repeat separator body (item ∷ next ∷ items) = do
  first ← body item
  rest ← repeat separator body (next ∷ items)
  ok (glue first (glue separator rest))

abbrev pub ok_or_items :
    Option (List (Dict String)) → ℕ → String → Result AtError (List (Dict String))
ok_or_items none at collection =
    fail_at at (fmt ("Undefined collection in for-loop: " ∷ collection ∷ []))
ok_or_items (some items) at collection = ok items

-- The text that is written for the nodes.
unfoldable mutual
  unfolding read_var get fmt

  pub write_nodes : Nodes → Dict String → TemplateData → List Binding → Result AtError String
  write_nodes nil vars template_data bindings = ok ""
  write_nodes (cons n ns) vars template_data bindings = do
    first ← write_node n vars template_data bindings
    rest ← write_nodes ns vars template_data bindings
    ok (glue first rest)

  pub write_node : Node → Dict String → TemplateData → List Binding → Result AtError String
  write_node (text s) vars template_data bindings = ok s
  write_node (var at name) vars template_data bindings =
      read_var at name vars template_data bindings
  write_node (for at binding collection separator body) vars template_data bindings = do
    items ← ok_or_items (get template_data.collections collection) at collection
    repeat (unwrap_or separator "")
        (λ item. write_nodes body vars template_data ((binding, collection, item) ∷ bindings)) items

unfoldable pub render_at : String → Dict String → TemplateData → Result AtError String
unfolding parse write_nodes
render_at template vars template_data = do
  nodes ← parse template
  write_nodes nodes vars template_data []

abbrev pub plain_error : Result AtError String → Result GlideshError String
plain_error (ok written) = ok written
plain_error (err error) = err (template_error error.message)

unfoldable pub render : String → Dict String → TemplateData → Result GlideshError String
unfolding render_at
render template vars template_data = plain_error (render_at template vars template_data)

unfoldable pub located_message : String → String → AtError → String
unfolding fmt show line_at literal_hint strip_prefix
located_message template source error =
    let line = show (line_at template error.at) in
    elim (strip_prefix "Undefined variable: " error.message) [
      | some name ↦ fmt (
          "template "
          ∷ source
          ∷ ", line "
          ∷ line
          ∷ ": undefined variable "
          ∷ name
          ∷ literal_hint name
          ∷ [])
      | none ↦ fmt ("template " ∷ source ∷ ", line " ∷ line ∷ ": " ∷ error.message ∷ [])
    ]

abbrev file_error : String → String → Result AtError String → Result GlideshError String
file_error template source (ok written) = ok written
file_error template source (err error) =
    err (template_error (located_message template source error))

-- For a template file, whose errors name the file and a line.
unfoldable pub render_file :
    String → Dict String → TemplateData → String → Result GlideshError String
unfolding render_at located_message
render_file template vars template_data source =
    file_error template source (render_at template vars template_data)
