-- ===== src/Http/Header/Replacing.antt =====
-- How the fields of a header are replaced, and what a search finds behind it.
use streamserver_cvn.Prelude.{
  ℕ, suc, ◌≡◌, refl, ap, ap₂, ◌∙◌, inl, inr, Bool, true, false, List, [], ◌∷◌, ◌++◌, append_assoc,
  arith, if◌then◌else◌, length, Bytes, Bool-cases, ◌==◌, ==_iff, ◌&&◌,
}
use streamserver_cvn.Http.Text.{same, to_lower}
use streamserver_cvn.Http.Header.{Field, regenerate_from, values, replace_all, no_index}
use streamserver_cvn.Http.Header.Named.{
  has_key, with_key, without_key, replaced, length-snoc, values-cons, set-append, remove_at-append,
}

abbrev pub no_field : List Field → Bool
no_field [] = true
no_field (f ∷ fs) = false

-- Reading the code's tests on byte arrays.
pub same_refl : (a : Bytes) → same a a ≡ true
unfolding same
same_refl [] = refl
same_refl (x ∷ a) = ground (arith, same_refl a)

same-eq : (a b : Bytes) → same a b ≡ true → a ≡ b
unfolding same
same-eq [] [] h = refl
same-eq [] (y ∷ b) h = absurd (cc)
same-eq (x ∷ a) [] h = absurd (cc)
same-eq (x ∷ a) (y ∷ b) h = elim (Bool-cases (x == y)) [
  | inl e ↦ ap₂ (◌∷◌) ((==_iff x y).0 e) (same-eq a b (rw e at h))
  | inr e ↦ absurd (let z = rw e at h in cc)
]

replace_all-empty :
    (g : Field) (is : List ℕ) (fs : List Field)
    → replace_all g is fs ≡ (if no_index is then fs else replace_all g is fs)
unfolding replace_all
replace_all-empty g [] fs = refl
replace_all-empty g (i ∷ is) fs = refl

replace_all-cons :
    (g f : Field) (pre fs : List Field) (is : List ℕ)
    → replace_all g (length pre ∷ is) (pre ++ f ∷ fs)
      ≡ (if no_index is then pre ++ g ∷ fs else replace_all g is (pre ++ fs))
unfolding replace_all
replace_all-cons g f pre fs [] = set-append pre fs f g
replace_all-cons g f pre fs (j ∷ is) = ap (replace_all g (j ∷ is)) (remove_at-append pre fs f)

-- What `replace_all` comes to from a place behind `pre` on: the fields with the key go, and the
-- first one of them all is replaced.
pub replace_all-regenerate_from :
    (key : Bytes) (g : Field) (n : ℕ) (pre fs : List Field) (indices : List (Bytes × ℕ))
    → n ≡ length pre
    → replace_all g (values key (regenerate_from n indices fs)) (pre ++ fs) ≡ (
        if no_index (values key indices)
        then pre ++ replaced key g fs
        else replace_all g (values key indices) (pre ++ without_key key fs))
unfolding regenerate_from replaced without_key
replace_all-regenerate_from key g n pre [] indices e =
    replace_all-empty g (values key indices) (pre ++ [])
replace_all-regenerate_from key g n pre (f ∷ fs) indices e =
    let rest =
      rw
        (
          append_assoc pre (f ∷ []) fs,
          append_assoc pre (f ∷ []) (replaced key g fs),
          append_assoc pre (f ∷ []) (without_key key fs),
        )
        at
        (replace_all-regenerate_from key g (suc n) (pre ++ f ∷ []) fs
          ((to_lower f.field_name, n) ∷ indices) (ap suc e ∙ length-snoc pre f)) in
    elim (Bool-cases (has_key key f)) [
      | inl h ↦ rw h (
          rw (values-cons key (to_lower f.field_name) n indices true h) at rest
          ∙ rw e (replace_all-cons g f pre (without_key key fs) (values key indices)))
      | inr h ↦ rw h (rw (values-cons key (to_lower f.field_name) n indices false h) at rest)
    ]

pub no_index-regenerate_from :
    (key : Bytes) (n : ℕ) (fs : List Field) (indices : List (Bytes × ℕ))
    → no_index (values key (regenerate_from n indices fs))
      ≡ no_index (values key indices) && no_field (with_key key fs)
unfolding regenerate_from with_key
no_index-regenerate_from key n [] indices = ground arith
no_index-regenerate_from key n (f ∷ fs) indices =
    no_index-regenerate_from key (suc n) fs ((to_lower f.field_name, n) ∷ indices)
    ∙ elim (Bool-cases (has_key key f)) [
      | inl h ↦ rw (values-cons key (to_lower f.field_name) n indices true h, h) (ground arith)
      | inr h ↦ rw (values-cons key (to_lower f.field_name) n indices false h, h)
    ]

pub with_key-append :
    (key : Bytes) (fs gs : List Field)
    → with_key key (fs ++ gs) ≡ with_key key fs ++ with_key key gs
unfolding with_key
with_key-append key [] gs = refl
with_key-append key (f ∷ fs) gs = ground (arith, with_key-append key fs gs)

with_key-without_key : (key : Bytes) (fs : List Field) → with_key key (without_key key fs) ≡ []
unfolding with_key without_key
with_key-without_key key [] = refl
with_key-without_key key (f ∷ fs) = ground (arith, with_key-without_key key fs)

pub with_key-replaced :
    (key : Bytes) (g : Field) (fs : List Field)
    → has_key key g ≡ true
    → no_field (with_key key fs) ≡ false
    → with_key key (replaced key g fs) ≡ g ∷ []
unfolding with_key replaced
with_key-replaced key g [] h e = absurd (cc)
with_key-replaced key g (f ∷ fs) h e = elim (Bool-cases (has_key key f)) [
  | inl k ↦ rw (k, h) (ap (g ∷◌) (with_key-without_key key fs))
  | inr k ↦ rw (k, k) (with_key-replaced key g fs h (rw k at e))
]

pub no_field-nil : (fs : List Field) → no_field fs ≡ true → fs ≡ []
no_field-nil [] e = refl
no_field-nil (f ∷ fs) e = absurd (cc)

pub with_key-one :
    (key : Bytes) (f : Field) (b : Bool)
    → has_key key f ≡ b
    → with_key key (f ∷ []) ≡ (if b then f ∷ [] else [])
unfolding with_key
with_key-one key f b e = rw e

module _ (key other : Bytes) (apart : same key other ≡ false) where
  pub has_key-apart : (f : Field) → has_key key f ≡ true → has_key other f ≡ false
  has_key-apart f h = rw (same-eq (to_lower f.field_name) key h) apart

  other-without_key : (fs : List Field) → with_key other (without_key key fs) ≡ with_key other fs
  unfolding with_key without_key
  other-without_key [] = refl
  other-without_key (f ∷ fs) = elim (Bool-cases (has_key key f)) [
    | inl k ↦ rw (k, has_key-apart f k) (other-without_key fs)
    | inr k ↦ rw k (ap (λ z. if has_key other f then f ∷ z else z) (other-without_key fs))
  ]

  pub other-replaced :
      (g : Field) (fs : List Field)
      → has_key key g ≡ true
      → with_key other (replaced key g fs) ≡ with_key other fs
  unfolding with_key replaced
  other-replaced g [] h = refl
  other-replaced g (f ∷ fs) h = elim (Bool-cases (has_key key f)) [
    | inl k ↦ rw (k, has_key-apart f k, has_key-apart g h) (other-without_key fs)
    | inr k ↦ rw k (ap (λ z. if has_key other f then f ∷ z else z) (other-replaced g fs h))
  ]
