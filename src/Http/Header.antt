-- ===== src/Http/Header.antt =====
-- streamserver-cvn-cli/http/httpheader_netside.{h,cpp}: the header fields of a request, with an
-- index of them by name. The index is a `QMultiMap`, kept as its entries with the newest first:
-- `values(key)` lists the values of a key in that order.
pub mod Named
pub mod Replacing
pub mod Setting
use streamserver_cvn.Prelude.{
  ℕ, zero, suc, ◌+◌, ◌-◌, Bool, true, false, List, [], ◌∷◌, ◌++◌, Option, none, some, ◌==◌,
  if◌then◌else◌, length, get_elem?, set, take, drop, Bytes,
}
use streamserver_cvn.Prelude.Outcome.{Outcome, ok, err, M}
use streamserver_cvn.Http.Text.{same, index_of, to_lower}
use streamserver_cvn.Http.WhiteSpace.{simplified_linear_white_space, is_empty}

pub record Field : Type 0 where
  pub bytes : Bytes
  pub field_name : Bytes
  pub field_value_raw : Bytes
  pub field_value : Bytes

pub record Header : Type 0 where
  pub fields : List Field
  pub field_name_indices : List (Bytes × ℕ)

pub data Error : Type 0 where
  field_name_empty field_separator_missing : Error

abbrev pub empty_header : Header
empty_header = record { fields = []; field_name_indices = [] }

-- `HeaderNetsideImpl::append`.
unfoldable pub append_field : Field → Header → Header
append_field f h = record {
  fields = h.fields ++ f ∷ [];
  field_name_indices = (to_lower f.field_name, length h.fields) ∷ h.field_name_indices;
}

-- The loop of `regenerateIndices`, from field number `i` on.
unfoldable pub regenerate_from : ℕ → List (Bytes × ℕ) → List Field → List (Bytes × ℕ)
regenerate_from i indices [] = indices
regenerate_from i indices (f ∷ fs) =
    regenerate_from (suc i) ((to_lower f.field_name, i) ∷ indices) fs

unfoldable pub regenerate_indices : Header → Header
unfolding regenerate_from
regenerate_indices h = record h { field_name_indices = regenerate_from 0 [] h.fields }

-- `_fieldNameIndices.values(key)`.
unfoldable pub values : Bytes → List (Bytes × ℕ) → List ℕ
values key [] = []
values key ((k, i) ∷ rest) = if same k key then i ∷ values key rest else values key rest

-- `_fields.at(i)`, put in front of what comes later in the list.
unfoldable pub at_index : List Field → ℕ → List Field → List Field
at_index fields i rest = elim (get_elem? fields i) [ none ↦ rest | some f ↦ f ∷ rest ]

-- The loop from `crbegin` to `crend`: the last index is the first field.
unfoldable pub collect : List Field → List ℕ → List Field → List Field
unfolding at_index
collect fields [] out = out
collect fields (i ∷ is) out = collect fields is (at_index fields i out)

-- `fields(fieldName)`.
unfoldable pub fields_named : Bytes → Header → List Field
unfolding collect values
fields_named name h = collect h.fields (values (to_lower name) h.field_name_indices) []

-- `fieldValues(fieldName)`.
unfoldable pub values_of : List Field → List Bytes
values_of [] = []
values_of (f ∷ fs) = f.field_value ∷ values_of fs

unfoldable pub field_values : Bytes → Header → List Bytes
unfolding values_of fields_named
field_values name h = values_of (fields_named name h)

unfoldable pub remove_at : ℕ → List Field → List Field
remove_at i [] = []
remove_at zero (f ∷ fs) = fs
remove_at (suc i) (f ∷ fs) = f ∷ remove_at i fs

-- `while (length > 1) removeAt(takeFirst())`, then `replace(last(), field)`.
unfoldable pub replace_all : Field → List ℕ → List Field → List Field
unfolding remove_at
replace_all f [] fields = fields
replace_all f (i ∷ []) fields = set fields i f
replace_all f (i ∷ j ∷ is) fields = replace_all f (j ∷ is) (remove_at i fields)

abbrev pub no_index : List ℕ → Bool
no_index [] = true
no_index (i ∷ is) = false

unfoldable pub set_field : Bytes → Bytes → M Error Header (Unit {0})
unfolding append_field replace_all regenerate_indices values is_empty
set_field name value h =
    let f : Field = record {
      bytes = [];
      field_name = name;
      field_value_raw = [];
      field_value = value;
    } in
    let indices = values (to_lower name) h.field_name_indices in
    if is_empty name
    then err field_name_empty h
    else if no_index indices
    then ok tt (append_field f h)
    else ok tt (regenerate_indices (record h { fields = replace_all f indices h.fields }))

-- `append`: the bytes of a field as received.
unfoldable pub append : Bytes → M Error Header (Unit {0})
unfolding append_field index_of is_empty
append bytes h = elim (index_of (b':' ∷ []) bytes) [
  | none ↦ err field_separator_missing h
  | some i ↦
      if is_empty (take i bytes)
      then err field_name_empty h
      else ok tt (
          append_field
            (record {
              bytes = bytes;
              field_name = take i bytes;
              field_value_raw = drop (i + 1) bytes;
              field_value = simplified_linear_white_space (drop (i + 1) bytes);
            })
            h)
]
