-- ===== src/Template.antt =====
-- `interpolate` and `interpolate_args` of config/template.rs, over the `ParamValue` of
-- config/types.rs. `render`, with loops, stands in the children Lexer, Parser and Render.
pub mod Data
pub mod Lexer
pub mod Parser
pub mod Render
pub mod References
pub mod Loops
pub mod Pieces
pub mod Fuel
mod Examples
use Prim.Native.Char.{Char, code}
use glidesh.Common.{
  ℤ, glue, ℕ, zero, suc, String, Bool, true, false, ◌&&◌, Option, none, some, List, [], ◌∷◌, ◌==◌,
  if◌then◌else◌, Result, ok, err, ◌>>=◌, GlideshError, template_error, fmt,
}
use glidesh.Common.Dict.{Dict, get, insert}
use glidesh.Condition.Lexer.{read_until, peek_is, tail, size}

pub data ParamValue : Type 0 where
  string : String → ParamValue
  integer : ℤ → ParamValue
  boolean : Bool → ParamValue
  list : List String → ParamValue
  map : Dict String → ParamValue

abbrev undefined_variable : String → Result GlideshError String
undefined_variable name = err (template_error (fmt ("Undefined variable: " ∷ name ∷ [])))

abbrev pub lookup_var : Option String → String → Result GlideshError String
lookup_var (some value) name = ok value
lookup_var none name = undefined_variable name

-- What stands at a `$`: the text to write, and the template from there on. `$${` writes `${`, a
-- reference its variable's value, any other `$` itself.
unfoldable pub at_dollar : Dict String → String → Result GlideshError (String × String)
unfolding fmt get
at_dollar vars s =
    if peek_is b'$' s && peek_is b'{' (tail s)
    then ok ("${", tail (tail s))
    else if peek_is b'{' s
    then elim (read_until b'}' (tail s)) [
      | none ↦ err (template_error (fmt ("Unclosed variable reference: ${" ∷ tail s ∷ [])))
      | some (name, after) ↦ lookup_var (get vars name) name >>= λ value. ok (value, after)
    ]
    else ok ("$", s)

abbrev out_of_fuel : Result GlideshError String
out_of_fuel = err (template_error "out of fuel")

-- The loop of `interpolate`: the text up to a `$` is copied. A round takes a character at least.
unfoldable pub interpolate_from : ℕ → Dict String → String → Result GlideshError String
interpolate_from fuel vars String.[] = ok ""
interpolate_from zero vars (String.◌∷◌ c s) = out_of_fuel
interpolate_from (suc fuel) vars (String.◌∷◌ c s) = elim (code c == b'$') [
  | true ↦ do
    written ← at_dollar vars s
    rest ← interpolate_from fuel vars written.1
    ok (glue written.0 rest)
  | false ↦ do rest ← interpolate_from fuel vars s; ok (String.◌∷◌ c rest)
]

unfoldable pub interpolate : String → Dict String → Result GlideshError String
unfolding interpolate_from at_dollar size read_until peek_is tail
interpolate template vars = interpolate_from (size template) vars template

unfoldable pub interpolate_list : List String → Dict String → Result GlideshError (List String)
interpolate_list [] vars = ok []
interpolate_list (s ∷ ss) vars = do
  t ← interpolate s vars
  ts ← interpolate_list ss vars
  ok (t ∷ ts)

unfoldable pub interpolate_map : Dict String → Dict String → Result GlideshError (Dict String)
interpolate_map [] vars = ok []
interpolate_map ((k, s) ∷ m) vars = do
  t ← interpolate s vars
  ts ← interpolate_map m vars
  ok ((k, t) ∷ ts)

unfoldable pub interpolate_value : ParamValue → Dict String → Result GlideshError ParamValue
interpolate_value (string s) vars = do t ← interpolate s vars; ok (string t)
interpolate_value (list ss) vars = do ts ← interpolate_list ss vars; ok (list ts)
interpolate_value (map m) vars = do ts ← interpolate_map m vars; ok (map ts)
interpolate_value (integer i) vars = ok (integer i)
interpolate_value (boolean b) vars = ok (boolean b)

unfoldable pub interpolate_args :
    Dict ParamValue → Dict String → Result GlideshError (Dict ParamValue)
unfolding interpolate_value interpolate_list interpolate_map
interpolate_args [] vars = ok []
interpolate_args ((k, v) ∷ args) vars = do
  w ← interpolate_value v vars
  ws ← interpolate_args args vars
  ok ((k, w) ∷ ws)
