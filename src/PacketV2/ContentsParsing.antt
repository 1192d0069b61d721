-- ===== src/PacketV2/ContentsParsing.antt =====
-- The parser reads back an adaptation field in its own array of bytes, and a payload.
use mathlib.Core.Bool.{false≢true}
use streamserver_cvn.Prelude.{
  ℕ, ◌*◌, ◌≡◌, refl, Bool, true, false, arith, ltb, ltb→lt, if◌then◌else◌, length, Bytes, All,
  Bool-cases, inl, inr,
}
use streamserver_cvn.Bits.{bytes_bits}
use streamserver_cvn.BitStream.{stream_of}
use streamserver_cvn.BitStream.Reading.{Holds, IsByte}
use streamserver_cvn.BitStream.Arrays.{
  take_byte_array_aligned-Holds, take_byte_array_aligned-ReadsAligned, stream_of-Holds,
}
use streamserver_cvn.PacketV2.{
  PacketV2, AdaptationField, payload_size, has_adaptation_field, has_payload,
}
use streamserver_cvn.PacketV2.Layout.{section, field_bits, whole_field_bits, IsField, IsWholeField}
use streamserver_cvn.PacketV2.Fill.{with, on}
use streamserver_cvn.PacketV2.Filling.{
  FillsAligned, read_number-Fills, read-FillsAligned, on-FillsAligned, with-FillsAligned,
  inside-Fills, >>-FillsAligned,
}
use streamserver_cvn.PacketV2.FieldParsing.{merge_field, read_field-Completes}
use streamserver_cvn.PacketV2.Parser.{
  over_bytes, read_field_bytes, parse_adaptation_field, read_payload,
}

abbrev put_field : AdaptationField → PacketV2 → PacketV2
put_field f p = record p { adaptation_field = f }

read_field_bytes-FillsAligned :
    (f : AdaptationField) (n : ℕ) (p : PacketV2)
    → IsField f
    → length (field_bits f) ≡ 8 * n
    → FillsAligned
        (read_field_bytes n)
        (field_bits f)
        p
        (put_field (merge_field f p.adaptation_field) p)
unfolding read_field_bytes over_bytes
read_field_bytes-FillsAligned f n p v l = record {
  run = λ s rest w h.
      let (cs, t, e, held, same, are) =
        take_byte_array_aligned-Holds n s (field_bits f) rest l w h in
      let inner : Holds (stream_of cs) (field_bits f) = record {
        reading = (stream_of-Holds cs are).reading;
        held = same;
      } in
      let (u, e', held') = (read_field-Completes f p.adaptation_field v).run (stream_of cs) inner in
      (t, rw (e, read_field_bytes) (rw (e', over_bytes)), held);
}

-- What is in `g` once `f` has been read into it.
abbrev set_length : AdaptationField → AdaptationField → AdaptationField
set_length f g = record g { adaptation_field_length = f.adaptation_field_length }

abbrev pub merge_whole_field : AdaptationField → AdaptationField → AdaptationField
merge_whole_field f g =
    if ltb 0 f.adaptation_field_length then merge_field f (set_length f g) else set_length f g

pub length-merge_whole_field :
    (f g : AdaptationField)
    → (merge_whole_field f g).adaptation_field_length ≡ f.adaptation_field_length
length-merge_whole_field f g = elim (Bool-cases (ltb 0 f.adaptation_field_length)) [
  | inl e ↦ rw e
  | inr e ↦ rw e
]

body-FillsAligned :
    (b : Bool) (f : AdaptationField) (p : PacketV2)
    → ltb 0 p.adaptation_field.adaptation_field_length ≡ b
    → (b ≡ true → IsField f)
    → (b ≡ true → length (field_bits f) ≡ 8 * p.adaptation_field.adaptation_field_length)
    → FillsAligned
        (on
          (λ q. ltb 0 q.adaptation_field.adaptation_field_length)
          (with λ q. read_field_bytes q.adaptation_field.adaptation_field_length))
        (section b (field_bits f))
        p
        (put_field (if b then merge_field f p.adaptation_field else p.adaptation_field) p)
body-FillsAligned true f p e v l = on-FillsAligned _ true e (λ _. with-FillsAligned _ (
    read_field_bytes-FillsAligned f p.adaptation_field.adaptation_field_length p (v refl) (l refl)))
body-FillsAligned false f p e v l =
    on-FillsAligned {q = p} {bits = field_bits f} _ false e (λ t. absurd (false≢true t))

parse_adaptation_field-FillsAligned :
    (f : AdaptationField) (p : PacketV2)
    → IsWholeField f
    → FillsAligned parse_adaptation_field
        (whole_field_bits f)
        p
        (put_field (merge_whole_field f p.adaptation_field) p)
unfolding parse_adaptation_field
parse_adaptation_field-FillsAligned f p v =
    let n = f.adaptation_field_length in
    >>-FillsAligned (inside-Fills _ _ (read_number-Fills 8 8 _ n (omega arith) v.length_lt)) (
      body-FillsAligned (ltb 0 n) f (put_field (set_length f p.adaptation_field) p) refl
        (λ e. v.field (ltb→lt 0 n e)) (λ e. v.fills (ltb→lt 0 n e)))

abbrev pub with_field : Bool → AdaptationField → PacketV2 → PacketV2
with_field b f p =
    put_field (if b then merge_whole_field f p.adaptation_field else p.adaptation_field) p

pub field-FillsAligned :
    (b : Bool) (f : AdaptationField) (p : PacketV2)
    → has_adaptation_field p ≡ b
    → (b ≡ true → IsWholeField f)
    → FillsAligned
        (on has_adaptation_field parse_adaptation_field)
        (section b (whole_field_bits f))
        p
        (with_field b f p)
field-FillsAligned true f p e v =
    on-FillsAligned _ true e (λ _. parse_adaptation_field-FillsAligned f p (v refl))
field-FillsAligned false f p e v =
    on-FillsAligned {q = p} {bits = whole_field_bits f} _ false e (λ t. absurd (false≢true t))

abbrev pub with_payload : Bool → Bytes → PacketV2 → PacketV2
with_payload b bytes p = record p { payload_data_bytes = if b then bytes else p.payload_data_bytes }

pub payload-FillsAligned :
    (b : Bool) (bytes : Bytes) (p : PacketV2)
    → has_payload p ≡ b
    → (b ≡ true
        → length bytes
          ≡ payload_size p.adaptation_field_control p.adaptation_field.adaptation_field_length)
    → All IsByte bytes
    → FillsAligned
        (on has_payload read_payload)
        (section b (bytes_bits bytes))
        p
        (with_payload b bytes p)
unfolding read_payload
payload-FillsAligned true bytes p e l a = on-FillsAligned _ true e (λ _. with-FillsAligned _ (
    rw (← l refl) (
      read-FillsAligned _ (bytes_bits bytes) bytes (take_byte_array_aligned-ReadsAligned bytes a))))
payload-FillsAligned false bytes p e l a =
    on-FillsAligned {q = p} {bits = bytes_bits bytes} _ false e (λ t. absurd (false≢true t))
