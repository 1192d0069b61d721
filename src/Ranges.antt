-- ===== src/Ranges.antt =====
-- libinfra/numericrange.h: numeric ranges and filters made of them. The number type, its order and
-- its conversion from text are the template's parameters. A bound and its flag are an `Option`. The
-- conversion goes through `int`, which is the type that the program instantiates the template with.
pub mod Bounds
pub mod Printing
use streamserver_cvn.Prelude.{
  ℕ, Bool, true, false, not, ◌==◌, List, [], ◌∷◌, Option, none, some, if◌then◌else◌, Bytes,
}

pub record NumericRange (I : Type 0) : Type 0 where
  pub lower_bound : Option I
  pub upper_bound : Option I

-- -1, 0 and 1.
pub data Comparison : Type 0 where
  less within greater : Comparison

pub data Error : Type 0 where
  empty_range not_a_number bad_lower_bound bad_upper_bound invalid_range : Error

pub data Converted (I : Type 0) : Type 0 where
  range : NumericRange I → Converted I
  refused : Error → Converted I

abbrev pub no_bounds : {I : Type 0} → NumericRange I
no_bounds = record { lower_bound = none; upper_bound = none }

-- The setters.
abbrev pub set_lower_bound : {I : Type 0} → I → NumericRange I → NumericRange I
set_lower_bound i r = record r { lower_bound = some i }

abbrev pub set_upper_bound : {I : Type 0} → I → NumericRange I → NumericRange I
set_upper_bound i r = record r { upper_bound = some i }

-- `compare`, by its four cases of bounds.
unfoldable pub compare_bounds : {I : Type 0} → (I → I → Bool) → Option I → Option I → I → Comparison
compare_bounds le none none v = within
compare_bounds le none (some u) v = if le v u then within else greater
compare_bounds le (some l) none v = if le l v then within else less
compare_bounds le (some l) (some u) v =
    if not (le l v) then less else if not (le v u) then greater else within

unfoldable pub compare : {I : Type 0} → (I → I → Bool) → NumericRange I → I → Comparison
compare le r v = compare_bounds le r.lower_bound r.upper_bound v

-- `!range.compare(value) == 0`: the comparison is not 0.
abbrev pub is_within : Comparison → Bool
is_within within = true
is_within _ = false

-- The loop of `matches`.
unfoldable pub any_within : {I : Type 0} → (I → I → Bool) → List (NumericRange I) → I → Bool
any_within le [] v = false
any_within le (r ∷ rs) v = if not (is_within (compare le r v)) then any_within le rs v else true

-- `NumericRangeList::matches`.
unfoldable pub matches : {I : Type 0} → (I → I → Bool) → List (NumericRange I) → I → Bool
matches le [] v = true
matches le (r ∷ rs) v = any_within le (r ∷ rs) v

abbrev pub dash : ℕ
dash = 45

-- A character in front of a split text.
abbrev pub onto_first : ℕ → List Bytes → List Bytes
onto_first c [] = (c ∷ []) ∷ []
onto_first c (part ∷ parts) = (c ∷ part) ∷ parts

-- `split('-')`: there is always a part, which may be empty.
unfoldable pub split : Bytes → List Bytes
split [] = [] ∷ []
split (c ∷ cs) = if c == dash then [] ∷ split cs else onto_first c (split cs)

-- `case 1`.
unfoldable pub single : {I : Type 0} → (Bytes → Option I) → Bytes → Converted I
single to_number [] = refused empty_range
single to_number (c ∷ cs) = elim (to_number (c ∷ cs)) [
  | none ↦ refused not_a_number
  | some i ↦ range (set_upper_bound i (set_lower_bound i no_bounds))
]

unfoldable pub upper : {I : Type 0} → (Bytes → Option I) → Bytes → NumericRange I → Converted I
upper to_number [] r = range r
upper to_number (c ∷ cs) r = elim (to_number (c ∷ cs)) [
  | none ↦ refused bad_upper_bound
  | some i ↦ range (set_upper_bound i r)
]

-- `case 2`.
unfoldable pub from_to : {I : Type 0} → (Bytes → Option I) → Bytes → Bytes → Converted I
from_to to_number [] to = upper to_number to no_bounds
from_to to_number (c ∷ cs) to = elim (to_number (c ∷ cs)) [
  | none ↦ refused bad_lower_bound
  | some i ↦ upper to_number to (set_lower_bound i no_bounds)
]

unfoldable pub from_parts : {I : Type 0} → (Bytes → Option I) → List Bytes → Converted I
from_parts to_number (bound ∷ []) = single to_number bound
from_parts to_number (from ∷ to ∷ []) = from_to to_number from to
from_parts to_number _ = refused invalid_range

-- `fromString`.
unfoldable pub from_string : {I : Type 0} → (Bytes → Option I) → Bytes → Converted I
from_string to_number text = from_parts to_number (split text)
