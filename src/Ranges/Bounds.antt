-- ===== src/Ranges/Bounds.antt =====
-- Comparing with a range is asking for its bounds, and a filter is a disjunction.
use streamserver_cvn.Prelude.{
  ◌≡◌, ◌↔◌, refl, ◌⊎◌, inl, inr, Bool, true, false, List, [], ◌∷◌, Option, none, some, Bool-cases,
}
use streamserver_cvn.Ranges.{
  NumericRange, Comparison, less, within, greater, compare_bounds, compare, is_within, any_within,
  matches,
}

-- Not below the lower bound, where there is one, and not above the upper bound.
abbrev pub IsAbove : {I : Type 0} → (I → I → Bool) → Option I → I → Type 0
IsAbove le none v = Unit {0}
IsAbove le (some l) v = le l v ≡ true

abbrev pub IsBelow : {I : Type 0} → (I → I → Bool) → Option I → I → Type 0
IsBelow le none v = Unit {0}
IsBelow le (some u) v = le v u ≡ true

abbrev pub IsIn : {I : Type 0} → (I → I → Bool) → NumericRange I → I → Type 0
IsIn le r v = IsAbove le r.lower_bound v × IsBelow le r.upper_bound v

-- Some range of a list has the value in it.
abbrev pub AnyIn : {I : Type 0} → (I → I → Bool) → List (NumericRange I) → I → Type 0
AnyIn le [] v = ⊥
AnyIn le (r ∷ rs) v = IsIn le r v ⊎ AnyIn le rs v

module _ {I : Type 0} (le : I → I → Bool) where
  compare_bounds_within :
      (l u : Option I) (v : I)
      → (compare_bounds le l u v ≡ within) ↔ (IsAbove le l v × IsBelow le u v)
  unfolding compare_bounds
  compare_bounds_within none none v = (λ e. (tt, tt), λ h. refl)
  compare_bounds_within none (some u) v = elim (Bool-cases (le v u)) [
    | inl e ↦ (λ h. (tt, e), λ h. rw e)
    | inr e ↦ (λ h. absurd (let z = rw e at h in cc), λ h. absurd (cc (h.1)))
  ]
  compare_bounds_within (some l) none v = elim (Bool-cases (le l v)) [
    | inl e ↦ (λ h. (e, tt), λ h. rw e)
    | inr e ↦ (λ h. absurd (let z = rw e at h in cc), λ h. absurd (cc (h.0)))
  ]
  compare_bounds_within (some l) (some u) v = elim (Bool-cases (le l v)) [
    | inl e ↦ elim (Bool-cases (le v u)) [
      | inl f ↦ (λ h. (e, f), λ h. rw (e, f))
      | inr f ↦ (λ h. absurd (let z = rw (e, f) at h in cc), λ h. absurd (cc (h.1)))
    ]
    | inr e ↦ (λ h. absurd (let z = rw e at h in cc), λ h. absurd (cc (h.0)))
  ]

  -- `compare` is 0 exactly for the values that are not below the lower bound and not above the upper
  -- bound, where these are set.
  pub compare_within : (r : NumericRange I) (v : I) → (compare le r v ≡ within) ↔ IsIn le r v
  unfolding compare
  compare_within r v = compare_bounds_within r.lower_bound r.upper_bound v

  Comparison-cases : (c : Comparison) → (c ≡ within) ⊎ (is_within c ≡ false)
  Comparison-cases less = inr refl
  Comparison-cases within = inl refl
  Comparison-cases greater = inr refl

  any_within-AnyIn :
      (rs : List (NumericRange I)) (v : I) → (any_within le rs v ≡ true) ↔ AnyIn le rs v
  unfolding any_within
  any_within-AnyIn [] v = (λ e. absurd (cc), λ h. absurd h)
  any_within-AnyIn (r ∷ rs) v = elim (Comparison-cases (compare le r v)) [
    | inl e ↦ (λ h. inl ((compare_within r v).0 e), λ h. rw e)
    | inr e ↦ (
      λ h. inr ((any_within-AnyIn rs v).0 (rw e at h)),
      λ h. rw e (elim h [
        | inl i ↦ absurd (let z = rw ((compare_within r v).1 i) at e in cc)
        | inr i ↦ (any_within-AnyIn rs v).1 i
      ]),
    )
  ]

  -- A filter lets through every value if it is empty, and otherwise the values that lie in one of its
  -- ranges.
  pub matches-AnyIn :
      (rs : List (NumericRange I)) (v : I) → (matches le rs v ≡ true) ↔ ((rs ≡ []) ⊎ AnyIn le rs v)
  unfolding matches
  matches-AnyIn [] v = (λ e. inl refl, λ h. refl)
  matches-AnyIn (r ∷ rs) v = (
    λ e. inr ((any_within-AnyIn (r ∷ rs) v).0 e),
    λ h. elim h [ inl e ↦ absurd (cc e) | inr i ↦ (any_within-AnyIn (r ∷ rs) v).1 i ],
  )
