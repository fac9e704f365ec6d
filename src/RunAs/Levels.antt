-- ===== src/RunAs/Levels.antt =====
-- The levels of a `run-as` setting, from the most specific to the least.
use mathlib.Core.List.{foldl}
use glidesh.Common.{
  String, ◌≡◌, refl, sym, ◌∙◌, ap₂, Option, none, some, or_else, unwrap_or, List, [], ◌∷◌,
}
use glidesh.RunAs.{
  RunAsMethod, sudo, RunAsUser, disabled, RunAsSpec, ResolvedRunAs, merge_over, resolve,
}

-- The first level that sets a field.
abbrev pub first_user : List RunAsSpec → Option RunAsUser
first_user [] = none
first_user (level ∷ levels) = or_else level.user (first_user levels)

abbrev pub first_method : List RunAsSpec → Option RunAsMethod
first_method [] = none
first_method (level ∷ levels) = or_else level.method (first_method levels)

or_else_assoc {ℓ} :
    {A : Type ℓ} (a b c : Option A) → or_else (or_else a b) c ≡ or_else a (or_else b c)
or_else_assoc none b c = refl
or_else_assoc (some a) b c = refl

or_else-none {ℓ} : {A : Type ℓ} (a : Option A) → or_else a none ≡ a
or_else-none none = refl
or_else-none (some a) = refl

merged_user :
    (level : RunAsSpec) (levels : List RunAsSpec)
    → (foldl merge_over level levels).user ≡ or_else level.user (first_user levels)
unfolding merge_over
merged_user level [] = sym (or_else-none level.user)
merged_user level (next ∷ levels) =
    merged_user (merge_over level next) levels
    ∙ or_else_assoc level.user next.user (first_user levels)

merged_method :
    (level : RunAsSpec) (levels : List RunAsSpec)
    → (foldl merge_over level levels).method ≡ or_else level.method (first_method levels)
unfolding merge_over
merged_method level [] = sym (or_else-none level.method)
merged_method level (next ∷ levels) =
    merged_method (merge_over level next) levels
    ∙ or_else_assoc level.method next.method (first_method levels)

-- What a chain of levels resolves to: no escalation unless the first level that names a user
-- names one that is not disabled, and then the method of the first level that names a method.
abbrev pub effective : Option RunAsUser → Option RunAsMethod → Option String → Option ResolvedRunAs
effective (some (RunAsUser.user u)) method password =
    some (record { user = u; method = unwrap_or method sudo; password = password })
effective _ method password = none

resolve-fields :
    (u : Option RunAsUser) (m : Option RunAsMethod) (password : Option String)
    → resolve (record { user = u; method = m }) password ≡ effective u m password
unfolding resolve
resolve-fields none m p = refl
resolve-fields (some disabled) m p = refl
resolve-fields (some (RunAsUser.user u)) m p = refl

-- Merging levels from the most to the least specific and resolving the result escalates to the
-- user of the first level that sets one, unless that level disables escalation, by the method of
-- the first level that sets one, `sudo` if none does.
pub resolve-merge_over :
    (level : RunAsSpec) (levels : List RunAsSpec) (password : Option String)
    → resolve (foldl merge_over level levels) password
      ≡ effective (first_user (level ∷ levels)) (first_method (level ∷ levels)) password
resolve-merge_over level levels password =
    resolve-fields (foldl merge_over level levels).user (foldl merge_over level levels).method
      password
    ∙ ap₂ (λ u m. effective u m password) (merged_user level levels) (merged_method level levels)
