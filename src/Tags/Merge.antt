-- ===== src/Tags/Merge.antt =====
-- The tag lists that `merge` and `parse_list` make: no tag twice, the first place kept.
use glidesh.Common.{
  append_assoc, append_nil, String, ◌≡◌, refl, ◌∙◌, true, false, ◌||◌, List, [], ◌∷◌, ◌++◌,
  contains, str_eq, eq_iff, arith, if◌then◌else◌, Bool-cases, inl, inr, Result, ok, err,
  GlideshError, All,
}
use glidesh.Tags.{merge, collect_tags, has_whitespace, parse_list, parts}

abbrev pub Distinct : List String → Type 0
Distinct [] = Unit
Distinct (t ∷ ts) = (contains ts t ≡ false) × Distinct ts

pub contains-append :
    (xs ys : List String) (t : String) → contains (xs ++ ys) t ≡ (contains xs t || contains ys t)
contains-append [] ys t = refl
contains-append (x ∷ xs) ys t = ground (arith, contains-append xs ys t)

Distinct-add :
    (ts : List String) (t : String)
    → contains ts t ≡ false
    → Distinct ts
    → Distinct (ts ++ (t ∷ []))
Distinct-add [] t fresh h = (refl, tt)
Distinct-add (u ∷ ts) t fresh h = (
  ground (arith, contains-append ts (t ∷ []) u, h.0, fresh, eq_iff t u, eq_iff u t),
  Distinct-add ts t (ground (arith, fresh)) h.1,
)

-- `t` added unless it is there.
abbrev pub add : List String → String → List String
add ts t = if contains ts t then ts else ts ++ (t ∷ [])

pub add-Distinct : (ts : List String) (t : String) → Distinct ts → Distinct (add ts t)
add-Distinct ts t h = elim (Bool-cases (contains ts t)) [
  | inl e ↦ rw e h
  | inr e ↦ rw e (Distinct-add ts t e h)
]

same_contains : (ts : List String) (t u : String) → t ≡ u → contains ts t ≡ contains ts u
same_contains ts t u e = rw e refl

pub contains-add :
    (ts : List String) (t u : String) → contains (add ts t) u ≡ (contains ts u || str_eq t u)
contains-add ts t u =
    ground (arith, contains-append ts (t ∷ []) u, eq_iff t u, same_contains ts t u)

pub contains-merge :
    (own extra : List String) (t : String)
    → contains (merge own extra) t ≡ (contains own t || contains extra t)
unfolding merge
contains-merge own [] t = ground arith
contains-merge own (e ∷ extra) t =
    ground (arith, contains-merge (add own e) extra t, contains-add own e t)

merge-Distinct : (own extra : List String) → Distinct own → Distinct (merge own extra)
unfolding merge
merge-Distinct own [] h = h
merge-Distinct own (e ∷ extra) h = merge-Distinct (add own e) extra (add-Distinct own e h)

merge-prefix : (own extra : List String) → (added : List String) × (merge own extra ≡ own ++ added)
unfolding merge
merge-prefix own [] = ([], append_nil own)
merge-prefix own (e ∷ extra) = elim (Bool-cases (contains own e)) [
  | inl is ↦ rw is (merge-prefix own extra)
  | inr new ↦
      let (added, h) = merge-prefix (own ++ (e ∷ [])) extra in
      rw new (e ∷ added, h ∙ append_assoc own (e ∷ []) added)
]

-- The tags that a step gets from `own` and `extra`: `own` in its order, then tags that it lacks;
-- a tag is in the result exactly when it is in one of the two, and none is there twice if `own`
-- has none twice.
pub merge-union :
    (own extra : List String)
    → Distinct own
    → ((t : String) → contains (merge own extra) t ≡ (contains own t || contains extra t))
      × Distinct (merge own extra)
      × ((added : List String) × (merge own extra ≡ own ++ added))
merge-union own extra h =
    (contains-merge own extra, merge-Distinct own extra h, merge-prefix own extra)

-- A tag that `parse_list` accepts.
abbrev pub IsTag : String → Type 0
IsTag t = (str_eq t "" ≡ false) × (has_whitespace t ≡ false)

-- A result of the loop of `parse_list` from the tags seen before.
abbrev pub Collected : List String → List String → Result GlideshError (List String) → Type 0
Collected seen parts (ok tags) =
    All IsTag parts
    × Distinct tags
    × ((t : String) → contains tags t ≡ (contains seen t || contains parts t))
Collected seen parts (err e) =
    (t : String) × (contains parts t ≡ true) × ((str_eq t "" || has_whitespace t) ≡ true)

Collected-cons :
    (seen parts : List String) (t : String) (r : Result GlideshError (List String))
    → (str_eq t "" || has_whitespace t) ≡ false
    → Collected (add seen t) parts r
    → Collected seen (t ∷ parts) r
Collected-cons seen parts t (ok tags) e h =
    (((ground arith, ground arith), h.0), h.1, λ u. ground (arith, h.2 u, contains-add seen t u))
Collected-cons seen parts t (err m) e (u, is, bad) = (u, ground arith, bad)

collect_tags-Collected :
    (invalid : GlideshError) (parts seen : List String)
    → Distinct seen
    → Collected seen parts (collect_tags invalid parts seen)
unfolding collect_tags
collect_tags-Collected invalid [] seen h = (tt, h, λ t. ground arith)
collect_tags-Collected invalid (t ∷ parts) seen h =
    elim (Bool-cases (str_eq t "" || has_whitespace t)) [
      | inl bad ↦ rw bad (t, ground (arith, eq_iff t t), bad)
      | inr good ↦ rw good (
          Collected-cons seen parts t _ good
            (collect_tags-Collected invalid parts (add seen t) (add-Distinct seen t h)))
    ]

-- `parse_list` either accepts a list, and then no part is empty or has a blank inside and the
-- tags are the parts, none of them twice, or refuses it, and then some part is empty or has a
-- blank inside.
pub parse_list-Collected : (list what : String) → Collected [] (parts list) (parse_list list what)
unfolding parse_list
parse_list-Collected list what = collect_tags-Collected _ (parts list) [] tt
