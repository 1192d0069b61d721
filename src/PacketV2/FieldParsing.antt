-- ===== src/PacketV2/FieldParsing.antt =====
-- The adaptation field: the parser reads back every field that is laid out as the standard says.
use streamserver_cvn.Prelude.{
  ℕ, ◌<◌, ◌%◌, ◌≡◌, refl, Bool, true, false, List, ◌++◌, arith, if◌then◌else◌, length,
  length-append, Bytes,
}
use streamserver_cvn.Prelude.Outcome.{◌>>◌}
use streamserver_cvn.Bits.{to_bits, bytes_bits, length-bytes_bits}
use streamserver_cvn.BitStream.{take_byte_array_aligned}
use streamserver_cvn.BitStream.Arrays.{take_byte_array_aligned-ReadsAligned}
use streamserver_cvn.BitFields.{take_unsigned}
use streamserver_cvn.BitFields.Reading.{take_signed-ReadsAligned}
use streamserver_cvn.PacketV2.{AdaptationField, ProgramClockReference}
use streamserver_cvn.PacketV2.Layout.{
  section, clock_bits, flag_bits, counted_bits, field_bits, IsClock, IsCounted, IsField,
}
use mathlib.Core.Bool.{false≢true}
use streamserver_cvn.PacketV2.Fill.{read, with, on}
use streamserver_cvn.PacketV2.Filling.{
  Fills, FillsAligned, Completes, read_bit-Fills, read_number-Fills, read-FillsAligned, on-Fills,
  on-FillsAligned, with-FillsAligned, inside-Fills, >>-Fills, >>-FillsAligned, >>-Completes,
  >>-Completes_aligned, read_rest-Completes,
}
use streamserver_cvn.PacketV2.Parser.{
  read_clock, read_flags, read_pcr, read_opcr, read_splice, read_private_data, read_extension,
  read_field,
}

pub read_clock-Fills :
    (c d : ProgramClockReference) → IsClock c → Fills read_clock (clock_bits c) d c
unfolding read_clock
read_clock-Fills c d v = >>-Fills (read_number-Fills 64 33 _ c.pcr_base (omega arith) v.base_lt) (
    >>-Fills (read_number-Fills 8 6 _ c.reserved1 (omega arith) v.reserved_lt)
      (read_number-Fills 16 9 _ c.pcr_extension (omega arith) v.extension_lt))

abbrev with_clock : Bool → ProgramClockReference → AdaptationField → AdaptationField
with_clock b c g = record g { program_clock_reference = if b then c else g.program_clock_reference }

abbrev with_original_clock : Bool → ProgramClockReference → AdaptationField → AdaptationField
with_original_clock b c g = record g {
  original_program_clock_reference = if b then c else g.original_program_clock_reference;
}

abbrev with_splice : Bool → ℕ → AdaptationField → AdaptationField
with_splice b v g = record g { splice_countdown = if b then v else g.splice_countdown }

abbrev with_private_data : Bool → ℕ → Bytes → AdaptationField → AdaptationField
with_private_data b n bytes g = record g {
  transport_private_data_length = if b then n else g.transport_private_data_length;
  transport_private_data_bytes = if b then bytes else g.transport_private_data_bytes;
}

abbrev with_extension : Bool → ℕ → Bytes → AdaptationField → AdaptationField
with_extension b n bytes g = record g {
  adaptation_field_extension_length = if b then n else g.adaptation_field_extension_length;
  adaptation_field_extension_bytes = if b then bytes else g.adaptation_field_extension_bytes;
}

-- `g` with the flags of `f`.
abbrev with_flags : AdaptationField → AdaptationField → AdaptationField
with_flags f g = record g {
  discontinuity_indicator = f.discontinuity_indicator;
  random_access_indicator = f.random_access_indicator;
  elementary_stream_priority_indicator = f.elementary_stream_priority_indicator;
  pcr_flag = f.pcr_flag;
  opcr_flag = f.opcr_flag;
  splicing_point_flag = f.splicing_point_flag;
  transport_private_data_flag = f.transport_private_data_flag;
  adaptation_field_extension_flag = f.adaptation_field_extension_flag;
}

read_flags-Fills : (f g : AdaptationField) → Fills read_flags (flag_bits f) g (with_flags f g)
unfolding read_flags
read_flags-Fills f g = >>-Fills (read_bit-Fills _ f.discontinuity_indicator) (
    >>-Fills (read_bit-Fills _ f.random_access_indicator) (
      >>-Fills (read_bit-Fills _ f.elementary_stream_priority_indicator) (
        >>-Fills (read_bit-Fills _ f.pcr_flag) (
          >>-Fills (read_bit-Fills _ f.opcr_flag) (
            >>-Fills (read_bit-Fills _ f.splicing_point_flag) (
              >>-Fills (read_bit-Fills _ f.transport_private_data_flag)
                (read_bit-Fills _ f.adaptation_field_extension_flag)))))))

-- A length byte and its bytes.
counted-Fills :
    (setn : ℕ → AdaptationField → AdaptationField)
    (setb : Bytes → AdaptationField → AdaptationField) (getn : AdaptationField → ℕ)
    (g : AdaptationField) (n : ℕ) (bytes : Bytes)
    → getn (setn n g) ≡ n
    → IsCounted n bytes
    → FillsAligned
        (read (take_unsigned 8 8) setn >> with λ f. read (take_byte_array_aligned (getn f)) setb)
        (counted_bits n bytes)
        g
        (setb bytes (setn n g))
counted-Fills setn setb getn g n bytes e v =
    >>-FillsAligned (read_number-Fills 8 8 setn n (omega arith) v.count_lt) (
      with-FillsAligned _ (
        rw (e, v.count)
          (read-FillsAligned setb (bytes_bits bytes) bytes
            (take_byte_array_aligned-ReadsAligned bytes v.are_bytes))))

-- What is in `g` once the parts of `f` that are there have been read into it.
abbrev pub merge_field : AdaptationField → AdaptationField → AdaptationField
merge_field f g =
    record (with_extension f.adaptation_field_extension_flag f.adaptation_field_extension_length
      f.adaptation_field_extension_bytes
      (with_private_data f.transport_private_data_flag f.transport_private_data_length
        f.transport_private_data_bytes
        (with_splice f.splicing_point_flag f.splice_countdown (
          with_original_clock f.opcr_flag f.original_program_clock_reference
            (with_clock f.pcr_flag f.program_clock_reference (with_flags f g)))))) {
              stuffing_bytes = f.stuffing_bytes;
            }

-- One lemma for each part that a flag announces; `b` is the flag's value.
clock-Fills :
    (b : Bool) (c : ProgramClockReference) (g : AdaptationField)
    → g.pcr_flag ≡ b
    → (b ≡ true → IsClock c)
    → Fills read_pcr (section b (clock_bits c)) g (with_clock b c g)
unfolding read_pcr
clock-Fills true c g e v =
    on-Fills (λ f. f.pcr_flag) true e
      (λ _. inside-Fills _ _ (read_clock-Fills c g.program_clock_reference (v refl)))
clock-Fills false c g e v =
    on-Fills {q = g} {bits = clock_bits c} (λ f. f.pcr_flag) false e (λ t. absurd (false≢true t))

original_clock-Fills :
    (b : Bool) (c : ProgramClockReference) (g : AdaptationField)
    → g.opcr_flag ≡ b
    → (b ≡ true → IsClock c)
    → Fills read_opcr (section b (clock_bits c)) g (with_original_clock b c g)
unfolding read_opcr
original_clock-Fills true c g e v =
    on-Fills (λ f. f.opcr_flag) true e
      (λ _. inside-Fills _ _ (read_clock-Fills c g.original_program_clock_reference (v refl)))
original_clock-Fills false c g e v =
    on-Fills {q = g} {bits = clock_bits c} (λ f. f.opcr_flag) false e (λ t. absurd (false≢true t))

splice-FillsAligned :
    (b : Bool) (v : ℕ) (g : AdaptationField)
    → g.splicing_point_flag ≡ b
    → (b ≡ true → v < 256)
    → FillsAligned read_splice (section b (to_bits 8 v)) g (with_splice b v g)
unfolding read_splice
splice-FillsAligned true v g e small =
    on-FillsAligned (λ f. f.splicing_point_flag) true e
      (λ _. read-FillsAligned _ (to_bits 8 v) v (take_signed-ReadsAligned v (small refl)))
splice-FillsAligned false v g e small =
    on-FillsAligned {q = g} {bits = to_bits 8 v} (λ f. f.splicing_point_flag) false e
      (λ t. absurd (false≢true t))

private_data-FillsAligned :
    (b : Bool) (n : ℕ) (bytes : Bytes) (g : AdaptationField)
    → g.transport_private_data_flag ≡ b
    → (b ≡ true → IsCounted n bytes)
    → FillsAligned
        (on (λ f. f.transport_private_data_flag) read_private_data)
        (section b (counted_bits n bytes))
        g
        (with_private_data b n bytes g)
unfolding read_private_data
private_data-FillsAligned true n bytes g e v =
    on-FillsAligned (λ f. f.transport_private_data_flag) true e
      (λ _. counted-Fills _ _ (λ f. f.transport_private_data_length) g n bytes refl (v refl))
private_data-FillsAligned false n bytes g e v =
    on-FillsAligned {q = g} {bits = counted_bits n bytes} (λ f. f.transport_private_data_flag) false
      e (λ t. absurd (false≢true t))

extension-FillsAligned :
    (b : Bool) (n : ℕ) (bytes : Bytes) (g : AdaptationField)
    → g.adaptation_field_extension_flag ≡ b
    → (b ≡ true → IsCounted n bytes)
    → FillsAligned
        (on (λ f. f.adaptation_field_extension_flag) read_extension)
        (section b (counted_bits n bytes))
        g
        (with_extension b n bytes g)
unfolding read_extension
extension-FillsAligned true n bytes g e v =
    on-FillsAligned (λ f. f.adaptation_field_extension_flag) true e
      (λ _. counted-Fills _ _ (λ f. f.adaptation_field_extension_length) g n bytes refl (v refl))
extension-FillsAligned false n bytes g e v =
    on-FillsAligned {q = g} {bits = counted_bits n bytes} (λ f. f.adaptation_field_extension_flag)
      false e (λ t. absurd (false≢true t))

whole_counted :
    (b : Bool) (n : ℕ) (bytes : Bytes) → length (section b (counted_bits n bytes)) % 8 ≡ 0
whole_counted true n bytes = omega (arith, length-bytes_bits bytes)
whole_counted false n bytes = omega arith

whole-append :
    (bs cs : List Bool) → length bs % 8 ≡ 0 → length cs % 8 ≡ 0 → length (bs ++ cs) % 8 ≡ 0
whole-append bs cs p q = omega (arith, length-append bs cs)

whole_bytes : (bytes : Bytes) → length (bytes_bits bytes) % 8 ≡ 0
whole_bytes bytes = omega (arith, length-bytes_bits bytes)

pub read_field-Completes :
    (f g : AdaptationField) → IsField f → Completes read_field (field_bits f) g (merge_field f g)
unfolding read_field
read_field-Completes f g v =
    let stuffing = whole_bytes f.stuffing_bytes in
    let after_extension =
      whole-append _ (bytes_bits f.stuffing_bytes)
        (whole_counted f.adaptation_field_extension_flag f.adaptation_field_extension_length
          f.adaptation_field_extension_bytes)
        stuffing in
    let after_private =
      whole-append _ _
        (whole_counted f.transport_private_data_flag f.transport_private_data_length
          f.transport_private_data_bytes)
        after_extension in
    >>-Completes (read_flags-Fills f g) (
      >>-Completes (clock-Fills f.pcr_flag f.program_clock_reference _ refl v.clock) (
        >>-Completes
          (original_clock-Fills f.opcr_flag f.original_program_clock_reference _ refl
            v.original_clock)
          (>>-Completes_aligned after_private
            (splice-FillsAligned f.splicing_point_flag f.splice_countdown _ refl v.splice_lt)
            (>>-Completes_aligned after_extension
              (private_data-FillsAligned f.transport_private_data_flag
                f.transport_private_data_length f.transport_private_data_bytes _ refl
                v.private_data)
              (>>-Completes_aligned stuffing
                (extension-FillsAligned f.adaptation_field_extension_flag
                  f.adaptation_field_extension_length f.adaptation_field_extension_bytes _ refl
                  v.extension)
                (read_rest-Completes _ f.stuffing_bytes v.are_stuffing_bytes))))))
