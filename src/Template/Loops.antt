-- ===== src/Template/Loops.antt =====
-- Templates with loops as trees of parts, what they are written as, and what they stand for.
mod Slices
mod Lexing
mod Header
mod Parsing
mod Nesting
pub mod RoundTrip
mod Rendering
use glidesh.Common.{
  ℕ, ◌≡◌, String, Bool, true, false, ◌||◌, Option, none, some, List, [], ◌∷◌, ◌==◌, ◌≢◌, Result, ok,
  err, ◌>>=◌, GlideshError, glue, str_eq, unwrap_or, not, template_error, fmt,
}
use glidesh.Common.Chars.{starts_with, is_whitespace}
use glidesh.Common.Dict.{Dict, get}
use glidesh.Condition.RoundTrip.Print.{Without}
use glidesh.Template.Data.{TemplateData}
use glidesh.Template.Render.{Binding, read_var, repeat, plain_error}

mutual
  pub data Part : Type 0 where
    plain : String → Part
    brace : Part
    ref : String → Part
    loop : String → String → Option String → Parts → Part

  pub data Parts : Type 0 where
    nil : Parts
    cons : Part → Parts → Parts

-- `${inner}` before the rest of a template.
abbrev pub tagged : String → String → String
tagged inner rest = glue "${" (glue inner (glue "}" rest))

abbrev pub separator_text : Option String → String
separator_text none = ""
separator_text (some s) = glue " separator=\"" (glue s "\"")

abbrev pub header : String → String → Option String → String
header binding collection separator =
    glue "for " (glue binding (glue " in " (glue collection (separator_text separator))))

abbrev mutual
  pub write : Part → String → String
  write (plain s) rest = glue s rest
  write brace rest = glue "$${" rest
  write (ref name) rest = tagged name rest
  write (loop binding collection separator body) rest =
      tagged (header binding collection separator) (write_parts body (tagged "endfor" rest))

  pub write_parts : Parts → String → String
  write_parts nil rest = rest
  write_parts (cons p ps) rest = write p (write_parts ps rest)

abbrev pub items_of :
    Option (List (Dict String)) → String → Result GlideshError (List (Dict String))
items_of none collection =
    err (template_error (fmt ("Undefined collection in for-loop: " ∷ collection ∷ [])))
items_of (some items) collection = ok items

-- What the parts stand for: a loop's body for each item of its collection.
abbrev mutual
  pub value : Part → Dict String → TemplateData → List Binding → Result GlideshError String
  value (plain s) vars template_data bs = ok s
  value brace vars template_data bs = ok "${"
  value (ref name) vars template_data bs = plain_error (read_var 0 name vars template_data bs)
  value (loop binding collection separator body) vars template_data bs = do
    items ← items_of (get template_data.collections collection) collection
    repeat (unwrap_or separator "")
        (λ item. values body vars template_data ((binding, collection, item) ∷ bs)) items

  pub values : Parts → Dict String → TemplateData → List Binding → Result GlideshError String
  values nil vars template_data bs = ok ""
  values (cons p ps) vars template_data bs = do
    first ← value p vars template_data bs
    rest ← values ps vars template_data bs
    ok (glue first rest)

-- A word of a loop's header.
abbrev pub IsWord : String → Type 0
IsWord s = (str_eq s "" ≡ false) × Without (λ c. is_whitespace c || c == b'}' || c == b'"') s

abbrev pub IsSeparator : Option String → Type 0
IsSeparator none = Unit
IsSeparator (some s) = Without (λ c. c == b'}' || c == b'"') s

-- The texts read back: no `$` in text, no `}` in a name that is no directive, words in a header.
abbrev mutual
  pub IsPart : Part → Type 0
  IsPart (plain s) = Without (λ c. c == b'$') s
  IsPart brace = Unit
  IsPart (ref name) =
      Without (λ c. c == b'}') name
      × (starts_with name "for " ≡ false)
      × (str_eq name "endfor" ≡ false)
  IsPart (loop binding collection separator body) =
      IsWord binding
      × IsWord collection
      × IsSeparator separator
      × (starts_with binding "@" ≡ false)
      × AreParts body

  pub AreParts : Parts → Type 0
  AreParts nil = Unit
  AreParts (cons p ps) = IsPart p × AreParts ps
