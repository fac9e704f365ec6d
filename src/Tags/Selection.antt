-- ===== src/Tags/Selection.antt =====
-- Which steps a run selects.
use glidesh.Common.{
  sym, ◌∙◌, not, ok, ◌++◌, keep, String, ◌≡◌, refl, ◌↔◌, ◌⊎◌, inl, inr, Bool, true, false, ◌||◌,
  none, some, List, [], ◌∷◌, contains, str_eq, eq_iff, arith, find, any, Bool-cases,
}
use glidesh.Tags.Merge.{contains-append}
use glidesh.Tags.{always, TagFilter, selects, excludes, known_tags, check_known, report_unknown}

-- No tag of the step is skipped, and if `--tags` was given, it names one of the step's tags or
-- one of them is `always`.
pub record IsSelected (filter : TagFilter) (step_tags : List String) : Type 0 where
  pub not_skipped : (t : String) → contains step_tags t ≡ true → contains filter.skip t ≡ false
  pub named :
      (filter.only ≡ [])
      ⊎ ((t : String) × (contains step_tags t ≡ true)
          × ((t ≡ always) ⊎ (contains filter.only t ≡ true)))

module _ (p : String → Bool) where
  find-none :
      (ts : List String) (t : String) → find p ts ≡ none → contains ts t ≡ true → p t ≡ false
  find-none [] t e h = cc
  find-none (u ∷ ts) t e h = ground (arith, eq_iff u t, find-none ts t)

  none-find :
      (ts : List String) → ((t : String) → contains ts t ≡ true → p t ≡ false) → find p ts ≡ none
  none-find [] h = refl
  none-find (u ∷ ts) h =
      rw (h u (ground (arith, eq_iff u u))) (none-find ts (λ t m. h t (ground arith)))

  any-witness :
      (ts : List String) → any p ts ≡ true → (t : String) × (contains ts t ≡ true) × (p t ≡ true)
  any-witness [] e = absurd cc
  any-witness (u ∷ ts) e = elim (Bool-cases (p u)) [
    | inl h ↦ (u, ground (arith, eq_iff u u), h)
    | inr h ↦ (let (t, m, q) = any-witness ts (ground arith) in (t, ground arith, q))
  ]

  witness-any :
      (ts : List String) (t : String) → contains ts t ≡ true → p t ≡ true → any p ts ≡ true
  witness-any [] t e h = cc
  witness-any (u ∷ ts) t e h = ground (arith, eq_iff u t, witness-any ts t)

is_some-none : (a : String) → some a ≡ none → ⊥
is_some-none a e = cc

excludes-none :
    (filter : TagFilter) (step_tags : List String)
    → excludes filter step_tags ≡ none
    → (find (λ t. contains filter.skip t) step_tags ≡ none) × (selects filter step_tags ≡ true)
unfolding excludes
excludes-none filter step_tags e = ground arith

abbrev Named : List String → List String → Type 0
Named only step_tags =
    (only ≡ [])
    ⊎ ((t : String) × (contains step_tags t ≡ true) × ((t ≡ always) ⊎ (contains only t ≡ true)))

Named-selects :
    (only skip step_tags : List String)
    → selects (record { only = only; skip = skip }) step_tags ≡ true
    → Named only step_tags
unfolding selects
Named-selects [] skip step_tags e = inl refl
Named-selects (o ∷ only) skip step_tags e =
    let (t, m, q) = any-witness (λ t. str_eq t always || contains (o ∷ only) t) step_tags e in
    inr (
      t,
      m,
      elim (Bool-cases (str_eq t always)) [
        | inl is ↦ inl ((eq_iff t always).0 is)
        | inr isnt ↦ inr (ground arith)
      ],
    )

selects-Named :
    (only skip step_tags : List String)
    → Named only step_tags
    → selects (record { only = only; skip = skip }) step_tags ≡ true
unfolding selects
selects-Named [] skip step_tags h = refl
selects-Named (o ∷ only) skip step_tags (inl e) = absurd cc
selects-Named (o ∷ only) skip step_tags (inr (t, m, why)) =
    witness-any (λ t. str_eq t always || contains (o ∷ only) t) step_tags t m
      (elim why [ inl is ↦ ground (arith, eq_iff t always) | inr named ↦ ground arith ])

-- A step runs exactly when none of its tags is in `--skip-tags` and, where `--tags` is given, one
-- of them is in it or is `always`.
pub excludes-IsSelected :
    (filter : TagFilter) (step_tags : List String)
    → (excludes filter step_tags ≡ none) ↔ IsSelected filter step_tags
unfolding excludes
excludes-IsSelected filter step_tags = (
  λ e.
      (let (unskipped, selected) = excludes-none filter step_tags e in
        record {
          not_skipped = λ t. find-none (λ u. contains filter.skip u) step_tags t unskipped;
          named = Named-selects filter.only filter.skip step_tags selected;
        }),
  λ h.
      rw
        (
          excludes,
          none-find (λ t. contains filter.skip t) step_tags h.not_skipped,
          selects-Named filter.only filter.skip step_tags h.named,
        )
        refl,
)

keep-nil :
    (p : String → Bool) (ts : List String)
    → keep p ts ≡ []
    → (t : String) → contains ts t ≡ true
    → p t ≡ false
keep-nil p [] e t h = cc
keep-nil p (u ∷ ts) e t h = elim (Bool-cases (p u)) [
  | inl is ↦ absurd (ground arith)
  | inr isnt ↦ let later = keep-nil p ts (ground arith) t in ground (arith, eq_iff u t, later)
]

nil-keep :
    (p : String → Bool) (ts : List String)
    → ((t : String) → contains ts t ≡ true → p t ≡ false)
    → keep p ts ≡ []
nil-keep p [] h = refl
nil-keep p (u ∷ ts) h =
    rw (h u (ground (arith, eq_iff u u))) (nil-keep p ts (λ t m. h t (ground arith)))

contains-known_tags-cons :
    (step : List String) (steps : List (List String)) (plans : List (List (List String)))
    (t : String)
    → contains (known_tags ((step ∷ steps) ∷ plans)) t
      ≡ (contains step t || contains (known_tags (steps ∷ plans)) t)
contains-known_tags-cons step steps plans t = contains-append step (known_tags (steps ∷ plans)) t

-- Some step of some plan carries the tag.
abbrev pub carries : List (List (List String)) → String → Bool
carries plans t = any (λ steps. any (λ step. contains step t) steps) plans

known_tags-carries :
    (plans : List (List (List String))) (t : String)
    → contains (known_tags plans) t ≡ carries plans t
known_tags-carries [] t = refl
known_tags-carries ([] ∷ plans) t = known_tags-carries plans t
known_tags-carries ((step ∷ steps) ∷ plans) t =
    ground
      (arith, contains-known_tags-cons step steps plans t, known_tags-carries (steps ∷ plans) t)

no_report : (known unknown : List String) → report_unknown known unknown ≡ ok tt → unknown ≡ []
no_report known [] e = refl
no_report known (t ∷ ts) e = cc

-- The selection is accepted exactly when every tag that it names, in `--tags` or in
-- `--skip-tags`, is carried by a step of some plan.
pub check_known-carries :
    (filter : TagFilter) (plans : List (List (List String)))
    → (check_known filter plans ≡ ok tt) ↔ (
        (t : String)
        → (contains filter.only t || contains filter.skip t) ≡ true
        → carries plans t ≡ true)
unfolding check_known
check_known-carries filter plans = (
  λ e t m.
      let known =
        keep-nil (λ u. not (contains (known_tags plans) u)) (filter.only ++ filter.skip)
          (no_report (known_tags plans) _ e) t (contains-append filter.only filter.skip t ∙ m) in
      ground (arith, known, known_tags-carries plans t),
  λ h.
      rw
        (
          check_known,
          nil-keep (λ u. not (contains (known_tags plans) u)) (filter.only ++ filter.skip)
              (λ t m. ground (
                arith,
                h t (sym (contains-append filter.only filter.skip t) ∙ m),
                known_tags-carries plans t,
              )),
        )
        refl,
)
