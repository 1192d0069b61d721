-- ===== src/Http/Header/Setting.antt =====
-- `setField`: what is left of the fields of a header.
use streamserver_cvn.Prelude.{
  ℕ, suc, ◌+◌, ◌≡◌, refl, sym, ap, ◌∙◌, ◌⊎◌, inl, inr, true, false, [], ◌∷◌, ◌++◌, append-nil,
  Bytes, Bool-cases, take, drop, All, length, some, arith,
}
use streamserver_cvn.Prelude.Outcome.{ok, err}
use streamserver_cvn.Http.Text.{same, index_of, to_lower}
use streamserver_cvn.Http.Finding.{IsOther, first_byte}
use streamserver_cvn.Http.WhiteSpace.{is_empty, simplified_linear_white_space}
use streamserver_cvn.Http.Header.{
  Field, Header, append_field, regenerate_indices, values, fields_named, field_values, values_of,
  field_name_empty, field_separator_missing, replace_all, no_index, set_field, append,
}
use streamserver_cvn.Http.Header.Named.{
  IsIndexed, has_key, with_key, replaced, append_field-IsIndexed, regenerate_indices-IsIndexed,
  fields_named-with_key,
}
use streamserver_cvn.Http.Header.Replacing.{
  no_field, same_refl, replace_all-regenerate_from, no_index-regenerate_from, with_key-append,
  with_key-replaced, no_field-nil, with_key-one, has_key-apart, other-replaced,
}

abbrev set_in : Bytes → Bytes → Field
set_in name value = record {
  bytes = [];
  field_name = name;
  field_value_raw = [];
  field_value = value;
}

-- The fields of a header behind `setField`: the new one stands alone under its name, the others
-- are found as before, and the index is right.
abbrev pub IsFieldSet : Bytes → Bytes → Header → Header → Type 0
IsFieldSet name value h k =
    IsIndexed k
    × (field_values name k ≡ value ∷ [])
    × ((other : Bytes)
        → same (to_lower name) (to_lower other) ≡ false
        → fields_named other k ≡ fields_named other h)

module _ (name value : Bytes) (h : Header) (indexed : IsIndexed h) where
  abbrev key : Bytes
  key = to_lower name

  abbrev g : Field
  g = set_in name value

  IsFieldSet-of :
      (k : Header)
      → IsIndexed k
      → with_key key k.fields ≡ g ∷ []
      → ((other : Bytes)
          → same key other ≡ false
          → with_key other k.fields ≡ with_key other h.fields)
      → IsFieldSet name value h k
  IsFieldSet-of k i e o = (
    i,
    unfold field_values values_of in ap values_of (fields_named-with_key name k i ∙ e),
    λ other apart.
        fields_named-with_key other k i
        ∙ o (to_lower other) apart
        ∙ sym (fields_named-with_key other h indexed),
  )

  has_key-g : has_key key g ≡ true
  has_key-g = same_refl key

  appended-IsFieldSet :
      no_field (with_key key h.fields) ≡ true → IsFieldSet name value h (append_field g h)
  unfolding append_field
  appended-IsFieldSet e =
      IsFieldSet-of (append_field g h) (append_field-IsIndexed g h indexed)
        (with_key-append key h.fields (g ∷ [])
          ∙ rw (no_field-nil (with_key key h.fields) e) (with_key-one key g true has_key-g))
        (λ other apart.
          with_key-append other h.fields (g ∷ [])
          ∙ ap (with_key other h.fields ++◌)
              (with_key-one other g false (has_key-apart key other apart g has_key-g))
          ∙ append-nil (with_key other h.fields))

  replaced-IsFieldSet :
      no_field (with_key key h.fields) ≡ false
      → IsFieldSet name value h (regenerate_indices (record h { fields = replaced key g h.fields }))
  unfolding regenerate_indices
  replaced-IsFieldSet e =
      IsFieldSet-of (regenerate_indices (record h { fields = replaced key g h.fields }))
        (regenerate_indices-IsIndexed (record h { fields = replaced key g h.fields }))
        (with_key-replaced key g h.fields has_key-g e)
        (λ other apart. other-replaced key other apart g h.fields has_key-g)

  no_index-indexed : no_index (values key h.field_name_indices) ≡ no_field (with_key key h.fields)
  unfolding IsIndexed values
  no_index-indexed = rw indexed (no_index-regenerate_from key 0 h.fields [])

  replace_all-indexed :
      no_field (with_key key h.fields) ≡ false
      → replace_all g (values key h.field_name_indices) h.fields ≡ replaced key g h.fields
  unfolding IsIndexed values
  replace_all-indexed e = rw indexed (replace_all-regenerate_from key g 0 [] h.fields [] refl)

-- `setField` with a name that is not empty, on a header whose index is right, succeeds. Behind it the
-- index is right, the name has the one value that was set, and what is found under any name that
-- differs from it in more than the case of letters is what was found before.
pub set_field-IsFieldSet :
    (name value : Bytes) (h : Header)
    → IsIndexed h
    → is_empty name ≡ false
    → (k : Header) × ((set_field name value h ≡ ok tt k) × IsFieldSet name value h k)
unfolding set_field
set_field-IsFieldSet name value h i e =
    elim (Bool-cases (no_field (with_key (to_lower name) h.fields))) [
      | inl n ↦ (
        append_field (set_in name value) h,
        (rw (e, no_index-indexed name value h i, n), appended-IsFieldSet name value h i n),
      )
      | inr n ↦ (
        regenerate_indices
            (record h { fields = replaced (to_lower name) (set_in name value) h.fields }),
        (
          rw (e, no_index-indexed name value h i, n, replace_all-indexed name value h i n),
          replaced-IsFieldSet name value h i n,
        ),
      )
    ]

abbrev pub NotColon : ℕ → Type 0
NotColon = IsOther b':'

-- The field that bytes with a name and a value make.
abbrev pub received : Bytes → Bytes → Field
received name value = record {
  bytes = name ++ b':' ∷ value;
  field_name = name;
  field_value_raw = value;
  field_value = simplified_linear_white_space value;
}

take_name : (name value : Bytes) → take (length name) (name ++ b':' ∷ value) ≡ name
take_name [] value = refl
take_name (c ∷ name) value = rw (take_name name value)

drop_name : (name value : Bytes) → drop (length name + 1) (name ++ b':' ∷ value) ≡ value
drop_name [] value = refl
drop_name (c ∷ name) value =
    let e : suc (length name) + 1 ≡ suc (length name + 1) = omega arith in
    rw e (drop_name name value)

append_found :
    (c : ℕ) (name value : Bytes) (h : Header)
    → index_of (b':' ∷ []) (c ∷ name ++ b':' ∷ value) ≡ some (length (c ∷ name))
    → append (c ∷ name ++ b':' ∷ value) h ≡ ok tt (append_field (received (c ∷ name) value) h)
unfolding append is_empty
append_found c name value h o =
    let n = take_name name value in
    let v = drop_name (c ∷ name) value in rw (o, append) (rw (n, v) refl)

-- What `append` does with the bytes of a field, on a header whose index is right, by the first colon:
-- where there is none, and where it is the first byte, it throws the error of just that case and
-- changes nothing; otherwise one field is added behind the others, with all of the bytes, the name
-- before the colon, and the value behind it as it is and simplified, and the index is right again.
pub append-IsIndexed :
    (bytes : Bytes) (h : Header)
    → IsIndexed h
    → (All NotColon bytes × (append bytes h ≡ err field_separator_missing h))
      ⊎ ((value : Bytes) × (bytes ≡ b':' ∷ value) × (append bytes h ≡ err field_name_empty h))
      ⊎ ((c : ℕ) × (name value : Bytes) × (k : Header) × (bytes ≡ c ∷ name ++ b':' ∷ value)
          × All NotColon (c ∷ name)
          × (append bytes h ≡ ok tt k)
          × (k.fields ≡ h.fields ++ received (c ∷ name) value ∷ [])
          × IsIndexed k)
unfolding append
append-IsIndexed bytes h i = elim (first_byte b':' bytes) [
  | inl (o, free) ↦ inl (free, rw (o, append))
  | inr ([], value, o, e, free) ↦ inr (inl (value, e, rw (o, append) (unfold is_empty in refl)))
  | inr (c ∷ name, value, o, e, free) ↦
      let f = received (c ∷ name) value in
      let k = append_field f h in
      inr (
        inr (
          c,
          name,
          value,
          k,
          e,
          free,
          rw e (append_found c name value h (rw e at o)),
          unfold append_field in refl,
          append_field-IsIndexed f h i,
        ))
]
