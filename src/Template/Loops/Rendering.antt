-- ===== src/Template/Loops/Rendering.antt =====
-- What nodes write, with the places of errors left out.
use glidesh.Common.{
  ℕ, ◌≡◌, refl, ap, ap₂, ◌∙◌, sym, String, Option, none, some, List, [], ◌∷◌, Result, ok, err,
  ◌>>=◌, GlideshError, glue, unwrap_or, or_else,
}
use glidesh.Common.Dict.{Dict, get}
use glidesh.Template.Data.{TemplateData}
use glidesh.Template.Lexer.{AtError}
use glidesh.Template.Parser.{Node, Nodes, nil, cons, for, push}
use glidesh.Template.Render.{
  Binding, ok_or_at, ok_or_items, find_bound, read_bound, read_var, repeat, write_nodes, write_node,
  plain_error,
}
use glidesh.Template.Loops.Slices.{glue_assoc, glue_empty}
use glidesh.Template.Loops.{Parts, items_of, values}

abbrev pub Written : Type 0
Written = Result GlideshError String

-- One text after another, the first error being the result.
abbrev pub joined : Written → Written → Written
joined a b = a >>= λ x. b >>= λ y. ok (glue x y)

pub joined_assoc : (a b c : Written) → joined (joined a b) c ≡ joined a (joined b c)
joined_assoc (err e) b c = refl
joined_assoc (ok x) (err e) c = refl
joined_assoc (ok x) (ok y) (err e) = refl
joined_assoc (ok x) (ok y) (ok z) = ap ok (glue_assoc x y z)

pub joined_empty : (a : Written) → joined a (ok "") ≡ a
joined_empty (err e) = refl
joined_empty (ok x) = ap ok (glue_empty x)

pub empty_joined : (a : Written) → joined (ok "") a ≡ a
empty_joined (err e) = refl
empty_joined (ok x) = refl

-- `>>=` on two texts, with what is made of them.
plain_error-both :
    (a b : Result AtError String) (k : String → String → String)
    → plain_error (a >>= λ x. b >>= λ y. ok (k x y))
      ≡ (plain_error a >>= λ x. plain_error b >>= λ y. ok (k x y))
plain_error-both (err e) b k = refl
plain_error-both (ok x) (err e) k = refl
plain_error-both (ok x) (ok y) k = refl

plain_error-ok_or_at :
    (o : Option String) (at at' : ℕ) (message : String)
    → plain_error (ok_or_at o at message) ≡ plain_error (ok_or_at o at' message)
plain_error-ok_or_at none at at' message = refl
plain_error-ok_or_at (some value) at at' message = refl

module _ (vars : Dict String) (template_data : TemplateData) where
  abbrev pub written : List Binding → Nodes → Written
  written bs ns = plain_error (write_nodes ns vars template_data bs)

  abbrev pub written_node : List Binding → Node → Written
  written_node bs n = plain_error (write_node n vars template_data bs)

  written-cons :
      (bs : List Binding) (n : Node) (ns : Nodes)
      → written bs (cons n ns) ≡ joined (written_node bs n) (written bs ns)
  unfolding write_nodes
  written-cons bs n ns =
      plain_error-both (write_node n vars template_data bs) (write_nodes ns vars template_data bs)
        glue

  pub written-push :
      (bs : List Binding) (ns : Nodes) (n : Node)
      → written bs (push ns n) ≡ joined (written bs ns) (written_node bs n)
  unfolding write_nodes
  written-push bs nil n =
      written-cons bs n nil
      ∙ joined_empty (written_node bs n)
      ∙ sym (empty_joined (written_node bs n))
  written-push bs (cons m ms) n =
      written-cons bs m (push ms n)
      ∙ ap (joined (written_node bs m)) (written-push bs ms n)
      ∙ sym (joined_assoc (written_node bs m) (written bs ms) (written_node bs n))
      ∙ ap (λ w. joined w (written_node bs n)) (sym (written-cons bs m ms))

  read_bound_anywhere :
      (at at' : ℕ) (name : String) (o : Option (String × String × Dict String))
      → plain_error (read_bound at name vars template_data o)
        ≡ plain_error (read_bound at' name vars template_data o)
  unfolding read_bound
  read_bound_anywhere at at' name (some (field, collection, item)) =
      plain_error-ok_or_at (get item field) at at' _
  read_bound_anywhere at at' name none =
      plain_error-ok_or_at (or_else (get template_data.extra_vars name) (get vars name)) at at' _

  -- The error for a variable does not depend on its place.
  pub read_var_anywhere :
      (at at' : ℕ) (name : String) (bs : List Binding)
      → plain_error (read_var at name vars template_data bs)
        ≡ plain_error (read_var at' name vars template_data bs)
  unfolding read_var
  read_var_anywhere at at' name bs = read_bound_anywhere at at' name (find_bound name bs)

plain_error-repeat :
    (separator : String) (f : Dict String → Result AtError String) (g : Dict String → Written)
    → ((item : Dict String) → plain_error (f item) ≡ g item)
    → (items : List (Dict String))
    → plain_error (repeat separator f items) ≡ repeat separator g items
plain_error-repeat separator f g h [] = refl
plain_error-repeat separator f g h (item ∷ []) = h item
plain_error-repeat separator f g h (item ∷ next ∷ items) =
    plain_error-both (f item) (repeat separator f (next ∷ items)) (λ x y. glue x (glue separator y))
    ∙ ap₂ (λ (a b : Written). a >>= λ x. b >>= λ y. ok (glue x (glue separator y))) (h item)
        (plain_error-repeat separator f g h (next ∷ items))

plain_error-items :
    (o : Option (List (Dict String))) (at : ℕ) (collection : String)
    (f : List (Dict String) → Result AtError String) (g : List (Dict String) → Written)
    → ((items : List (Dict String)) → plain_error (f items) ≡ g items)
    → plain_error (ok_or_items o at collection >>= f) ≡ (items_of o collection >>= g)
plain_error-items none at collection f g h = refl
plain_error-items (some items) at collection f g h = h items

-- A loop writes its body for each item.
pub written_for :
    (vars : Dict String) (template_data : TemplateData) (bs : List Binding) (at : ℕ)
    (binding collection : String) (separator : Option String) (nodes : Nodes) (body : Parts)
    → ((bs : List Binding)
        → written vars template_data bs nodes ≡ values body vars template_data bs)
    → written_node vars template_data bs (for at binding collection separator nodes) ≡ (
        items_of (get template_data.collections collection) collection >>= λ items.
        repeat
          (unwrap_or separator "")
          (λ item. values body vars template_data ((binding, collection, item) ∷ bs))
          items)
unfolding write_nodes
written_for vars template_data bs at binding collection separator nodes body h =
    plain_error-items (get template_data.collections collection) at collection _ _ (λ items.
      plain_error-repeat (unwrap_or separator "") _ _ (λ item. h ((binding, collection, item) ∷ bs))
        items)
