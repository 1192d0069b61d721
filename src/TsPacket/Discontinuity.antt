-- ===== src/TsPacket/Discontinuity.antt =====
-- `setDiscontinuityIndicator` and `updateAdaptationfieldBytes`: what changes with the flag.
use streamserver_cvn.Prelude.{
  ℕ, suc, ◌+◌, ◌%◌, ◌^◌, ◌≡◌, refl, sym, ap, ◌∙◌, inl, inr, Bool, true, false, ◌∷◌, some, arith,
  ltb, ◌==◌, if◌then◌else◌, length, Bytes,
}
use streamserver_cvn.Prelude.Outcome.{Outcome, ok, err, ◌>>=◌, Outcome-cases}
use streamserver_cvn.Bits.{bit_at}
use streamserver_cvn.TsPacket.{AdaptationField, FieldError, empty_field}
use streamserver_cvn.TsPacket.Parser.{
  FieldState, set_flags, parse_options, parse_field, adaptation_field_of,
  set_discontinuity_indicator,
}
use streamserver_cvn.TsPacket.Patching.{patch, patched, patch_field, Keeps, parse_options-Commutes}

-- The byte of the flags with another first bit.
abbrev pub with_indicator : Bool → ℕ → ℕ
with_indicator on flags = if on then flags % 2 ^ 7 + 2 ^ 7 else flags % 2 ^ 7

abbrev at_options : ℕ → ℕ → Bytes → FieldState
at_options len flags rest = record {
  index = 2;
  field = set_flags flags (record (empty_field (len ∷ flags ∷ rest)) { length = len });
}

abbrev result : Outcome FieldError FieldState (Unit {0}) → AdaptationField
result (ok u s) = s.field
result (err e s) = record s.field { error_message = some e }

first_flag : (on : Bool) (flags : ℕ) → bit_at (with_indicator on flags) 7 ≡ on
first_flag true flags = ground arith
first_flag false flags = ground arith

module _ (len : ℕ) (rest : Bytes) (fits : len ≡ 1 + length rest) where
  parse_field-options :
      (flags : ℕ)
      → parse_field (record { index = 0; field = empty_field (len ∷ flags ∷ rest) })
        ≡ parse_options (at_options len flags rest)
  unfolding parse_field
  parse_field-options flags =
      let some_bytes : (suc (suc (length rest)) == 0) ≡ false = ground arith in
      let match : (suc (suc (length rest)) == 1 + len) ≡ true = ground arith in
      let more : ltb 1 (suc (suc (length rest))) ≡ true = ground arith in
      rw (some_bytes, parse_field, ◌>>=◌) (rw (match, ◌>>=◌, more))

  adaptation_field_of-options :
      (flags : ℕ)
      → adaptation_field_of (len ∷ flags ∷ rest)
        ≡ result (parse_options (at_options len flags rest))
  unfolding adaptation_field_of
  adaptation_field_of-options flags =
      rw (parse_field-options flags, adaptation_field_of)
        (elim (Outcome-cases (parse_options (at_options len flags rest))) [
          | inl (u, s, e) ↦ rw e
          | inr (x, s, e) ↦ rw e
        ])

  module _ (on : Bool) (flags : ℕ) where
    at_options-patch :
        at_options len (with_indicator on flags) rest
        ≡ patch (with_indicator on flags) on (at_options len flags rest)
    at_options-patch =
        let b7 : bit_at (with_indicator on flags) 7 ≡ on = first_flag on flags in
        let b6 : bit_at (with_indicator on flags) 6 ≡ bit_at flags 6 = ground arith in
        let b5 : bit_at (with_indicator on flags) 5 ≡ bit_at flags 5 = ground arith in
        let b4 : bit_at (with_indicator on flags) 4 ≡ bit_at flags 4 = ground arith in
        let b3 : bit_at (with_indicator on flags) 3 ≡ bit_at flags 3 = ground arith in
        let b2 : bit_at (with_indicator on flags) 2 ≡ bit_at flags 2 = ground arith in
        let b1 : bit_at (with_indicator on flags) 1 ≡ bit_at flags 1 = ground arith in
        let b0 : bit_at (with_indicator on flags) 0 ≡ bit_at flags 0 = ground arith in
        rw (b7, b6, b5, b4, b3, b2, b1, b0)

    result-patched :
        (o : Outcome FieldError FieldState (Unit {0}))
        → result (patched (with_indicator on flags) on o)
          ≡ patch_field (with_indicator on flags) on (result o)
    result-patched (ok u s) = refl
    result-patched (err e s) = refl

    bytes-kept :
        (o : Outcome FieldError FieldState (Unit {0}))
        → Keeps (with_indicator on flags) on (len ∷ flags ∷ rest) o
        → (result o).bytes ≡ len ∷ flags ∷ rest
    bytes-kept (ok u s) h = h.1
    bytes-kept (err e s) h = h

    set_discontinuity_indicator-patch :
        (f : AdaptationField)
        → f.bytes ≡ len ∷ flags ∷ rest
        → set_discontinuity_indicator on f ≡ some (patch_field (with_indicator on flags) on f)
    unfolding set_discontinuity_indicator
    set_discontinuity_indicator-patch f e =
        let more : ltb 1 (length (len ∷ flags ∷ rest)) ≡ true = ground arith in rw (e, more)

    pub adaptation_field_of-bytes :
        (adaptation_field_of (len ∷ flags ∷ rest)).bytes ≡ len ∷ flags ∷ rest
    adaptation_field_of-bytes =
        let (commutes, keeps) =
          (parse_options-Commutes (with_indicator on flags) on).run (at_options len flags rest)
            (omega arith) in
        ap (λ f. f.bytes) (adaptation_field_of-options flags)
        ∙ bytes-kept (parse_options (at_options len flags rest)) keeps

    -- Where the length byte is right, setting the discontinuity indicator makes the object that the
    -- bytes with that bit are parsed to: the object stays a view of its bytes.
    pub set_discontinuity_indicator-parse :
        set_discontinuity_indicator on (adaptation_field_of (len ∷ flags ∷ rest))
        ≡ some (adaptation_field_of (len ∷ with_indicator on flags ∷ rest))
    set_discontinuity_indicator-parse =
        let before = parse_options (at_options len flags rest) in
        let (commutes, keeps) =
          (parse_options-Commutes (with_indicator on flags) on).run (at_options len flags rest)
            (omega arith) in
        let changed : adaptation_field_of (len ∷ with_indicator on flags ∷ rest)
            ≡ patch_field (with_indicator on flags) on (adaptation_field_of (len ∷ flags ∷ rest)) =
          adaptation_field_of-options (with_indicator on flags)
          ∙ ap (λ s. result (parse_options s)) at_options-patch
          ∙ ap result commutes
          ∙ result-patched before
          ∙ ap (patch_field (with_indicator on flags) on)
              (sym (adaptation_field_of-options flags)) in
        set_discontinuity_indicator-patch (adaptation_field_of (len ∷ flags ∷ rest))
          adaptation_field_of-bytes
        ∙ ap some (sym changed)
