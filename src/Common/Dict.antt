-- ===== src/Common/Dict.antt =====
-- `HashMap<String, V>` and `HashSet<String>` as lists. The laws speak of lookups only, so they do
-- not depend on the order of entries.
use Prim.Native.String.{String}
use mathlib.Core.Path.{◌≡◌, refl}
use mathlib.Core.Bool.{Bool, true, false}
use mathlib.Core.Option.{Option, none, some}
use mathlib.Core.List.{List, [], ◌∷◌}
use native.Mathlib.Omega.{arith}
use text.Mathlib.Text.{◌==◌}
use text.Mathlib.TextEquality.{eq_iff}
use glidesh.Common.Tests.{if◌then◌else◌, is_some}
use glidesh.Common.Texts.{contains}

abbrev pub Dict {ℓ} : Type ℓ → Type ℓ
Dict V = List (String × V)

module _ {ℓ} {V : Type ℓ} where
  unfoldable pub get : Dict V → String → Option V
  get [] k = none
  get ((j, v) ∷ m) k = if j == k then some v else get m k

  unfoldable pub has : Dict V → String → Bool
  unfolding get
  has m k = is_some (get m k)

  unfoldable pub insert : Dict V → String → V → Dict V
  insert [] k v = (k, v) ∷ []
  insert ((j, w) ∷ m) k v = if j == k then (k, v) ∷ m else (j, w) ∷ insert m k v

  unfoldable pub remove : Dict V → String → Dict V
  remove [] k = []
  remove ((j, w) ∷ m) k = let rest = remove m k in if j == k then rest else (j, w) ∷ rest

  -- `extend`: the entries of the second, in order, over the first.
  unfoldable pub extend : Dict V → Dict V → Dict V
  unfolding insert
  extend m [] = m
  extend m ((k, v) ∷ more) = extend (insert m k v) more

  pub get-insert :
      (m : Dict V) (k j : String) (v : V)
      → get (insert m k v) j ≡ (if k == j then some v else get m j)
  unfolding get insert
  get-insert [] k j v = refl
  get-insert ((i, w) ∷ m) k j v =
      ground (arith, eq_iff k j, eq_iff i k, eq_iff i j, get-insert m k j v)

  pub get-remove :
      (m : Dict V) (k j : String) → get (remove m k) j ≡ (if k == j then none else get m j)
  unfolding get remove
  get-remove [] k j = ground arith
  get-remove ((i, w) ∷ m) k j = ground (arith, get-remove m k j, eq_iff i k, eq_iff i j, eq_iff k j)

-- A set of names.
unfoldable pub set_insert : List String → String → List String
set_insert s k = if contains s k then s else k ∷ s

unfoldable pub set_remove : List String → String → List String
set_remove [] k = []
set_remove (j ∷ s) k = let rest = set_remove s k in if j == k then rest else j ∷ rest

pub contains-set_remove :
    (s : List String) (k j : String)
    → contains (set_remove s k) j ≡ (if k == j then false else contains s j)
unfolding set_remove
contains-set_remove [] k j = ground arith
contains-set_remove (i ∷ s) k j =
    ground (arith, contains-set_remove s k j, eq_iff i k, eq_iff i j, eq_iff k j)

contains-cases : (s : List String) (k j : String) → k ≡ j → contains s j ≡ contains s k
contains-cases s k j e = rw e refl

pub contains-set_insert :
    (s : List String) (k j : String)
    → contains (set_insert s k) j ≡ (if k == j then true else contains s j)
unfolding set_insert
contains-set_insert s k j = ground (arith, eq_iff k j, contains-cases s k j)
