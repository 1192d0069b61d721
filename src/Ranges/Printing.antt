-- ===== src/Ranges/Printing.antt =====
-- Writing a range as text, and reading it back.
use streamserver_cvn.Prelude.{
  ℕ, ◌≡◌, ◌≢◌, refl, ◌==◌, false, [], ◌∷◌, ◌++◌, Option, none, some, arith, Bytes, All,
}
use streamserver_cvn.Ranges.{
  NumericRange, range, dash, split, single, upper, from_to, from_parts, from_string,
}

abbrev pub NoDash : ℕ → Type 0
NoDash c = c ≢ dash

split_plain : (a : Bytes) → All NoDash a → split a ≡ a ∷ []
unfolding split
split_plain [] h = refl
split_plain (c ∷ a) h =
    let other : (c == dash) ≡ false = ground (arith, h.0) in rw (other, split_plain a h.1)

split_two : (a b : Bytes) → All NoDash a → All NoDash b → split (a ++ dash ∷ b) ≡ a ∷ b ∷ []
unfolding split
split_two [] b h k = rw (split_plain b k)
split_two (c ∷ a) b h k =
    let other : (c == dash) ≡ false = ground (arith, h.0) in rw (other, split_two a b h.1 k)

-- What is relied on of the conversion to a number, for one number: it reads what `show` writes,
-- which is not empty and has no dash in it. The text of a negative number has one.
pub record ReadsBack {I : Type 0} (to_number : Bytes → Option I) (show : I → Bytes) (i : I)
    : Type 0 where
  pub reads : to_number (show i) ≡ some i
  pub is_plain : All NoDash (show i)
  pub not_empty : (c : ℕ) × ((cs : Bytes) × (show i ≡ c ∷ cs))

-- A range in the notation of `fromString`.
abbrev pub bound_text : {I : Type 0} → (I → Bytes) → Option I → Bytes
bound_text show none = []
bound_text show (some i) = show i

abbrev pub print : {I : Type 0} → (I → Bytes) → NumericRange I → Bytes
print show r = bound_text show r.lower_bound ++ dash ∷ bound_text show r.upper_bound

module _ {I : Type 0} (to_number : Bytes → Option I) (show : I → Bytes) where
  -- A bound that is read back, where there is one.
  abbrev pub IsReadable : Option I → Type 0
  IsReadable none = Unit {0}
  IsReadable (some i) = ReadsBack to_number show i

  bound_plain : (b : Option I) → IsReadable b → All NoDash (bound_text show b)
  bound_plain none h = tt
  bound_plain (some i) h = h.is_plain

  upper_bound_text :
      (u l : Option I)
      → IsReadable u
      → upper to_number (bound_text show u) (record { lower_bound = l; upper_bound = none })
        ≡ range (record { lower_bound = l; upper_bound = u })
  unfolding upper
  upper_bound_text none l h = refl
  upper_bound_text (some i) l h =
      let (c, (cs, e)) = h.not_empty in rw e (let same = rw e at h.reads in rw (same, upper))

  from_to_bounds :
      (l u : Option I)
      → IsReadable l
      → IsReadable u
      → from_to to_number (bound_text show l) (bound_text show u)
        ≡ range (record { lower_bound = l; upper_bound = u })
  unfolding from_to
  from_to_bounds none u h k = upper_bound_text u none k
  from_to_bounds (some i) u h k =
      let (c, (cs, e)) = h.not_empty in
      rw e (let same = rw e at h.reads in rw (same, from_to) (upper_bound_text u (some i) k))

  -- A range, with any of its bounds left out, is read back from the text "lower-upper" as it was,
  -- where the conversion reads back the text of each bound that is there, and that text is not empty
  -- and has no dash in it, which leaves out negative bounds.
  pub from_string-print :
      (r : NumericRange I)
      → IsReadable r.lower_bound
      → IsReadable r.upper_bound
      → from_string to_number (print show r) ≡ range r
  unfolding from_string from_parts
  from_string-print r h k =
      rw
        (split_two (bound_text show r.lower_bound) (bound_text show r.upper_bound)
          (bound_plain r.lower_bound h) (bound_plain r.upper_bound k))
        (from_to_bounds r.lower_bound r.upper_bound h k)

  -- A single number is the range of just that number.
  pub from_string-show :
      (i : I)
      → ReadsBack to_number show i
      → from_string to_number (show i)
        ≡ range (record { lower_bound = some i; upper_bound = some i })
  unfolding from_string from_parts single
  from_string-show i h =
      let (c, (cs, e)) = h.not_empty in
      rw (split_plain (show i) h.is_plain) (rw e (let same = rw e at h.reads in rw (same, single)))
