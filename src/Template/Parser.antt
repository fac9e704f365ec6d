-- ===== src/Template/Parser.antt =====
-- `parse` of config/template.rs: a template read into its loops.
use glidesh.Common.{
  ℕ, ◌+◌, String, Option, none, some, List, [], ◌∷◌, if◌then◌else◌, ltb, Result, ok, err, ◌>>=◌,
  fmt, size,
}
use glidesh.Common.Chars.{starts_with, slice, drop_chars}
use glidesh.Template.Lexer.{Token, At, AtError, Lexed, lex, line_at}

mutual
  pub data Node : Type 0 where
    text : String → Node
    var : ℕ → String → Node
    for : ℕ → String → String → Option String → Nodes → Node

  -- In their order.
  pub data Nodes : Type 0 where
    nil : Nodes
    cons : Node → Nodes → Nodes

-- `push` at the end.
abbrev pub push : Nodes → Node → Nodes
push nil n = cons n nil
push (cons m ms) n = cons m (push ms n)

pub record Open : Type 0 where
  pub at : ℕ
  pub binding : String
  pub collection : String
  pub separator : Option String
  pub outer : Nodes

-- The state of the loop over the tokens; `open` has the innermost loop first.
pub record Reading : Type 0 where
  pub open_loops : List Open
  pub nodes : Nodes
  pub text_from : ℕ

-- The text before a token, if there is any.
unfoldable pub push_text : String → ℕ → Reading → Nodes
unfolding slice
push_text template at r =
    if ltb r.text_from at then push r.nodes (text (slice r.text_from at template)) else r.nodes

abbrev pub fail_at {ℓ} : {A : Type ℓ} → ℕ → String → Result AtError A
fail_at at message = err (record { at = at; message = message })

unfoldable pub close_loop : ℕ → Nodes → ℕ → List Open → Result AtError Reading
close_loop at nodes from [] =
    ok (record { open_loops = []; nodes = push nodes (var at "endfor"); text_from = from })
close_loop at nodes from (o ∷ os) = ok (record {
  open_loops = os;
  nodes = push o.outer (for o.at o.binding o.collection o.separator nodes);
  text_from = from;
})

-- One token, once the text before it is pushed; `from` is where text goes on.
unfoldable pub read_token : ℕ → Nodes → ℕ → List Open → Token → Result AtError Reading
unfolding close_loop starts_with fmt
read_token at nodes from loops (Token.escaped name) =
    ok (record { open_loops = loops; nodes = push nodes (text "${"); text_from = from })
read_token at nodes from loops (Token.var name) =
    ok (record { open_loops = loops; nodes = push nodes (var at name); text_from = from })
read_token at nodes from loops (Token.invalid message) = fail_at at message
read_token at nodes from loops (Token.for binding collection separator) =
    if starts_with binding "@"
    then fail_at at
        (fmt ("for-loop binding '" ∷ binding ∷ "' cannot use the reserved '@' namespace" ∷ []))
    else ok (record {
      open_loops =
          record {
            at = at;
            binding = binding;
            collection = collection;
            separator = separator;
            outer = nodes;
          }
          ∷ loops;
      nodes = nil;
      text_from = from;
    })
read_token at nodes from loops Token.end_for = close_loop at nodes from loops

unfoldable pub read_tokens : String → List At → Reading → Result AtError Reading
unfolding read_token push_text
read_tokens template [] r = ok r
read_tokens template (a ∷ found) r = do
  r' ← read_token a.at (push_text template a.at r) (a.at + a.len) r.open_loops a.token
  read_tokens template found r'

-- After the last token: a `${` never closed, a loop never closed, or the text that is left.
unfoldable pub finish : String → Option AtError → Reading → Result AtError Nodes
unfolding push_text slice fmt size
finish template (some error) r = err error
finish template none r = elim r.open_loops [
  | [] ↦ ok (
      if ltb r.text_from (size template)
      then push r.nodes (text (drop_chars r.text_from template))
      else r.nodes)
  | o ∷ os ↦ fail_at o.at (fmt ("Missing ${endfor} for loop over '" ∷ o.collection ∷ "'" ∷ []))
]

abbrev pub start : Reading
start = record { open_loops = []; nodes = nil; text_from = 0 }

unfoldable pub parse_lexed : String → Lexed → Result AtError Nodes
unfolding read_tokens finish
parse_lexed template (found, unclosed) = do
  r ← read_tokens template found start
  finish template unclosed r

unfoldable pub parse : String → Result AtError Nodes
unfolding parse_lexed lex
parse template = parse_lexed template (lex template)

abbrev located : String → Result AtError Nodes → Option (ℕ × String)
located template (ok nodes) = none
located template (err error) = some (line_at template error.at, error.message)

-- Why a template cannot be rendered whatever the variables, with its line.
unfoldable pub structure_error : String → Option (ℕ × String)
unfolding parse line_at
structure_error template = located template (parse template)
