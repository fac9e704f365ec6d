-- ===== src/Template/Examples.antt =====
-- Interpolation, after the tests of config/template.rs.
use glidesh.Common.{
  String, Bool, ◌||◌, Option, none, All, if◌then◌else◌, ◌==◌, str_eq, ◌≡◌, refl, ok, err, some,
  template_error, List, [], ◌∷◌,
}
use glidesh.Template.{interpolate}
use glidesh.Common.Chars.{is_whitespace, starts_with}
use glidesh.Template.Data.{TemplateData, empty_template_data}
use glidesh.Template.Lexer.{Token, tokens}
use glidesh.Template.Parser.{structure_error}
use glidesh.Template.Render.{render, render_file}
use glidesh.Template.References.{Bytes, defined_references}
use glidesh.Template.References.Sound.{IsReported}
use glidesh.Template.References.Ordered.{IsRising, defined_references-IsReported}
use glidesh.Template.Loops.{Parts, plain, brace, ref, loop, write_parts, values}
use glidesh.Template.Loops.RoundTrip.{render-write_parts}
use glidesh.Template.Pieces.{Piece, plain, brace, ref, template, substitute, interpolate-template}

escaped : interpolate "a ${x} $${x} $5" (("x", "1") ∷ []) ≡ ok "a 1 ${x} $5"
unfolding interpolate
escaped = refl

abbrev greeting : List Piece
greeting = plain "hello " ∷ ref "name" ∷ brace ∷ plain "x}" ∷ []

interpolate-template_example :
    interpolate (template greeting) (("name", "web-1") ∷ [])
    ≡ substitute greeting (("name", "web-1") ∷ [])
unfolding interpolate
interpolate-template_example = interpolate-template greeting (("name", "web-1") ∷ []) (
  (refl, (refl, (refl, (refl, (refl, (refl, tt)))))),
  ((refl, (refl, (refl, (refl, tt)))), (tt, ((refl, (refl, tt)), tt))),
)

abbrev hosts : TemplateData
hosts = record {
  collections =
      ("hosts", (("name", "a") ∷ ("address", "10.0.0.1") ∷ []) ∷ (("name", "b") ∷ []) ∷ []) ∷ [];
  extra_vars = [];
}

-- `- ${for h in hosts separator=", "}${h.name}$${${endfor}.`
abbrev listing : Parts
listing = Parts.cons (plain "- ") (
    Parts.cons
      (loop "h" "hosts" (some ", ") (Parts.cons (ref "h.name") (Parts.cons brace Parts.nil)))
      (Parts.cons (plain ".") Parts.nil))

rendered : render (write_parts listing "") [] hosts ≡ ok "- a${, b${."
unfolding render
rendered = refl

render-write_parts_example : render (write_parts listing "") [] hosts ≡ values listing [] hosts []
unfolding is_whitespace starts_with
render-write_parts_example = render-write_parts listing [] hosts (
  (refl, (refl, tt)),
  (
    (
      (refl, (refl, tt)),
      (refl, (refl, (refl, (refl, (refl, (refl, tt)))))),
      (refl, (refl, tt)),
      refl,
      (((refl, (refl, (refl, (refl, (refl, (refl, tt)))))), refl, refl), (tt, tt)),
    ),
    ((refl, tt), tt),
  ),
)

undefined :
    render "x ${name}" [] empty_template_data ≡ err (template_error "Undefined variable: name")
unfolding render
undefined = refl

in_file :
    render_file "a\n${HOME}" [] empty_template_data "motd"
    ≡ err (
        template_error
          "template motd, line 2: undefined variable HOME (if it is meant for the shell, write $${HOME} to keep ${HOME} as is)")
unfolding render_file
in_file = refl

unclosed_loop :
    structure_error "a\n${for h in hosts}x" ≡ some (2, "Missing ${endfor} for loop over 'hosts'")
unfolding structure_error
unclosed_loop = refl

listed :
    tokens "${a}\n$${b} ${endfor}"
    ≡ (1, Token.var "a") ∷ (2, Token.escaped "b") ∷ (2, Token.end_for) ∷ []
unfolding tokens
listed = refl

-- Reads the letters `a` and `b`.
abbrev read_letters : Bytes → Option String
read_letters [] = some ""
read_letters (x ∷ xs) = elim (read_letters xs) [
  | none ↦ none
  | some s ↦
      if x == b'a'
      then some (String.◌∷◌ "a" s)
      else if x == b'b'
      then some (String.◌∷◌ "b" s)
      else none
]

abbrev is_short : String → Bool
is_short name = str_eq name "a" || str_eq name "b"

-- `${b} $${a} ${ ${a}}`
abbrev script : Bytes
script =
    b'$' ∷ b'{' ∷ b'b' ∷ b'}' ∷ b' ' ∷ b'$' ∷ b'$' ∷ b'{' ∷ b'a' ∷ b'}' ∷ b' ' ∷ b'$' ∷ b'{' ∷ b' '
    ∷ b'$' ∷ b'{' ∷ b'a' ∷ b'}' ∷ b'}' ∷ []

reported : defined_references read_letters is_short script ≡ "a" ∷ "b" ∷ []
unfolding defined_references
reported = refl

escaped_only : defined_references read_letters is_short (b'$' ∷ b'$' ∷ b'{' ∷ b'a' ∷ b'}' ∷ []) ≡ []
unfolding defined_references
escaped_only = refl

defined_references-IsReported_example :
    All (IsReported read_letters is_short script) (defined_references read_letters is_short script)
    × IsRising (defined_references read_letters is_short script)
defined_references-IsReported_example = defined_references-IsReported read_letters is_short script
