-- ===== src/Inventory/Targets.antt =====
-- A target that lists several: the hosts of its pieces, each name once.
use mathlib.Core.Path.{subst}
use glidesh.Common.{
  String, ◌≡◌, refl, sym, ◌∙◌, Bool, true, ◌&&◌, ◌||◌, not, Bool-cases, inl, inr, some, is_some,
  List, [], ◌∷◌, ◌++◌, map, any, contains, str_eq, if◌then◌else◌, arith,
}
use glidesh.Condition.Lexer.{read_until}
use glidesh.Tags.{parts}
use glidesh.Tags.Merge.{Distinct, add, add-Distinct, contains-add}
use glidesh.Inventory.{
  Inventory, ResolvedHost, resolve_one, add_new, resolve_pieces, resolve_targets,
}

abbrev pub names : List ResolvedHost → List String
names hosts = map (λ r. r.name) hosts

names-append : (xs ys : List ResolvedHost) → names (xs ++ ys) ≡ names xs ++ names ys
names-append [] ys = refl
names-append (x ∷ xs) ys = rw (names-append xs ys) refl

names-push :
    (out : List ResolvedHost) (h : ResolvedHost)
    → names (if contains (names out) h.name then out else out ++ (h ∷ [])) ≡ add (names out) h.name
names-push out h = elim (Bool-cases (contains (names out) h.name)) [
  | inl e ↦ rw e refl
  | inr e ↦ rw e (names-append out (h ∷ []))
]

add_new-Distinct :
    (out hosts : List ResolvedHost) → Distinct (names out) → Distinct (names (add_new out hosts))
unfolding add_new
add_new-Distinct out [] d = d
add_new-Distinct out (h ∷ hosts) d =
    add_new-Distinct (if contains (names out) h.name then out else out ++ (h ∷ [])) hosts
      (subst Distinct (sym (names-push out h)) (add-Distinct (names out) h.name d))

contains-add_new :
    (out hosts : List ResolvedHost) (n : String)
    → contains (names (add_new out hosts)) n ≡ (contains (names out) n || contains (names hosts) n)
unfolding add_new
contains-add_new out [] n = ground arith
contains-add_new out (h ∷ hosts) n =
    contains-add_new (if contains (names out) h.name then out else out ++ (h ∷ [])) hosts n
    ∙ rw (names-push out h) (ground (arith, contains-add (names out) h.name n))

-- Some piece that is not empty names the host.
abbrev pub named_by : Inventory → List String → String → Bool
named_by inv pieces n =
    any (λ piece. not (str_eq piece "") && contains (names (resolve_one inv piece)) n) pieces

resolve_pieces-Distinct :
    (inv : Inventory) (out : List ResolvedHost) (pieces : List String)
    → Distinct (names out)
    → Distinct (names (resolve_pieces inv out pieces))
unfolding resolve_pieces
resolve_pieces-Distinct inv out [] d = d
resolve_pieces-Distinct inv out (piece ∷ pieces) d = elim (Bool-cases (str_eq piece "")) [
  | inl e ↦ rw e (resolve_pieces-Distinct inv out pieces d)
  | inr e ↦ rw e (
      resolve_pieces-Distinct inv (add_new out (resolve_one inv piece)) pieces
        (add_new-Distinct out (resolve_one inv piece) d))
]

contains-resolve_pieces :
    (inv : Inventory) (out : List ResolvedHost) (pieces : List String) (n : String)
    → contains (names (resolve_pieces inv out pieces)) n
      ≡ (contains (names out) n || named_by inv pieces n)
unfolding resolve_pieces
contains-resolve_pieces inv out [] n = ground arith
contains-resolve_pieces inv out (piece ∷ pieces) n = elim (Bool-cases (str_eq piece "")) [
  | inl e ↦ rw e (contains-resolve_pieces inv out pieces n)
  | inr e ↦ rw e (
      contains-resolve_pieces inv (add_new out (resolve_one inv piece)) pieces n
      ∙ rw (contains-add_new out (resolve_one inv piece) n) (ground arith))
]

-- A target with a comma gives every host at most once by its name, and a name is there exactly
-- when one of the trimmed pieces, empty ones aside, gives a host of that name by itself.
pub resolve_targets-list :
    (inv : Inventory) (target : String)
    → is_some (read_until b',' target) ≡ true
    → Distinct (names (resolve_targets inv (some target)))
      × ((n : String)
          → contains (names (resolve_targets inv (some target))) n ≡ named_by inv (parts target) n)
unfolding resolve_targets
resolve_targets-list inv target e = rw e (
  resolve_pieces-Distinct inv [] (parts target) tt,
  λ n. contains-resolve_pieces inv [] (parts target) n,
)
