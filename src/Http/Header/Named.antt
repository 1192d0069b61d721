-- ===== src/Http/Header/Named.antt =====
-- The index of a header: it lists what a search of the fields would find.
use streamserver_cvn.Prelude.{
  ℕ, suc, ◌+◌, ◌≡◌, refl, sym, ap, ◌∙◌, inl, inr, Bool, true, false, List, [], ◌∷◌, ◌++◌,
  append_assoc, append-nil, some, arith, if◌then◌else◌, length, length-append, get_elem?, set,
  Bytes, Bool-cases,
}
use streamserver_cvn.Http.Text.{same, to_lower}
use streamserver_cvn.Http.Header.{
  Field, Header, append_field, regenerate_from, regenerate_indices, values, at_index, collect,
  fields_named, remove_at,
}

-- The index is the one that `regenerateIndices` makes.
unfoldable pub IsIndexed : Header → Type 0
IsIndexed h = h.field_name_indices ≡ regenerate_from 0 [] h.fields

abbrev pub has_key : Bytes → Field → Bool
has_key key f = same (to_lower f.field_name) key

-- The fields with the key, and those without it, in their order.
unfoldable pub with_key : Bytes → List Field → List Field
with_key key [] = []
with_key key (f ∷ fs) = if has_key key f then f ∷ with_key key fs else with_key key fs

unfoldable pub without_key : Bytes → List Field → List Field
without_key key [] = []
without_key key (f ∷ fs) = if has_key key f then without_key key fs else f ∷ without_key key fs

-- `g` in the place of the first field with the key, and no other one with it.
unfoldable pub replaced : Bytes → Field → List Field → List Field
unfolding without_key
replaced key g [] = []
replaced key g (f ∷ fs) = if has_key key f then g ∷ without_key key fs else f ∷ replaced key g fs

regenerate_from-snoc :
    (n i : ℕ) (indices : List (Bytes × ℕ)) (fs : List Field) (f : Field)
    → n ≡ i + length fs
    → regenerate_from i indices (fs ++ f ∷ [])
      ≡ (to_lower f.field_name, n) ∷ regenerate_from i indices fs
unfolding regenerate_from
regenerate_from-snoc n i indices [] f e = let n_i : n ≡ i = omega arith in rw n_i
regenerate_from-snoc n i indices (g ∷ fs) f e =
    regenerate_from-snoc n (suc i) ((to_lower g.field_name, i) ∷ indices) fs f (omega arith)

-- The index stays right when a field is appended.
pub append_field-IsIndexed : (f : Field) (h : Header) → IsIndexed h → IsIndexed (append_field f h)
unfolding IsIndexed append_field
append_field-IsIndexed f h e =
    rw e (sym (regenerate_from-snoc (length h.fields) 0 [] h.fields f (omega arith)))

pub regenerate_indices-IsIndexed : (h : Header) → IsIndexed (regenerate_indices h)
unfolding IsIndexed regenerate_indices
regenerate_indices-IsIndexed h = refl

get_elem?-append :
    (pre fs : List Field) (f : Field) → get_elem? (pre ++ f ∷ fs) (length pre) ≡ some f
get_elem?-append [] fs f = refl
get_elem?-append (g ∷ pre) fs f = get_elem?-append pre fs f

pub set-append :
    (pre fs : List Field) (f g : Field) → set (pre ++ f ∷ fs) (length pre) g ≡ pre ++ g ∷ fs
set-append [] fs f g = refl
set-append (h ∷ pre) fs f g = ap (h ∷◌) (set-append pre fs f g)

pub remove_at-append :
    (pre fs : List Field) (f : Field) → remove_at (length pre) (pre ++ f ∷ fs) ≡ pre ++ fs
unfolding remove_at
remove_at-append [] fs f = refl
remove_at-append (h ∷ pre) fs f = ap (h ∷◌) (remove_at-append pre fs f)

at_index-append :
    (pre fs : List Field) (f : Field) (out : List Field)
    → at_index (pre ++ f ∷ fs) (length pre) out ≡ f ∷ out
unfolding at_index
at_index-append pre fs f out = rw (get_elem?-append pre fs f, at_index)

pub values-cons :
    (key k : Bytes) (i : ℕ) (rest : List (Bytes × ℕ)) (b : Bool)
    → same k key ≡ b
    → values key ((k, i) ∷ rest) ≡ (if b then i ∷ values key rest else values key rest)
unfolding values
values-cons key k i rest b e = rw e

pub length-snoc : (pre : List Field) (f : Field) → suc (length pre) ≡ length (pre ++ f ∷ [])
length-snoc pre f = omega (arith, length-append pre (f ∷ []))

collect-regenerate_from :
    (key : Bytes) (n : ℕ) (pre fs : List Field) (indices : List (Bytes × ℕ)) (out : List Field)
    → n ≡ length pre
    → collect (pre ++ fs) (values key (regenerate_from n indices fs)) out
      ≡ collect (pre ++ fs) (values key indices) (with_key key fs ++ out)
unfolding regenerate_from with_key
collect-regenerate_from key n pre [] indices out e = refl
collect-regenerate_from key n pre (f ∷ fs) indices out e =
    let rest = rw (append_assoc pre (f ∷ []) fs) at (
      collect-regenerate_from key (suc n) (pre ++ f ∷ []) fs ((to_lower f.field_name, n) ∷ indices)
        out (ap suc e ∙ length-snoc pre f)) in
    rest ∙ elim (Bool-cases (has_key key f)) [
      | inl h ↦
          rw (values-cons key (to_lower f.field_name) n indices true h, h, e)
            (unfold collect in
              ap (collect (pre ++ f ∷ fs) (values key indices))
                (at_index-append pre fs f (with_key key fs ++ out)))
      | inr h ↦ rw (values-cons key (to_lower f.field_name) n indices false h, h)
    ]

-- With a right index, `fields(fieldName)` lists the fields whose name differs from it in the case
-- of letters at most, in their order.
pub fields_named-with_key :
    (name : Bytes) (h : Header)
    → IsIndexed h
    → fields_named name h ≡ with_key (to_lower name) h.fields
unfolding fields_named IsIndexed
fields_named-with_key name h e = rw e (
    collect-regenerate_from (to_lower name) 0 [] h.fields [] [] refl
    ∙ unfold collect values in append-nil (with_key (to_lower name) h.fields))
