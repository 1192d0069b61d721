-- ===== src/PacketV2/Generator.antt =====
-- libmedia/tspacketv2.cpp: `PacketV2GeneratorImpl` and `PacketV2Generator::generate` into bytes. The
-- bit sink is a bit stream over 188 zero bytes.
use streamserver_cvn.Prelude.{ℕ, ◌-◌, not, ◌++◌, ltb, ◌==◌, if◌then◌else◌, length, replicate, Bytes}
use streamserver_cvn.Prelude.Outcome.{ok, err, pure, get, guard, when, ◌>>=◌, ◌>>◌}
use streamserver_cvn.BitStream.{
  BitStream, Stream, Error, stream_of, bytes_left, flush, put_bit, put_byte_array_aligned,
  no_sync_byte, reserved_scrambling, reserved_adaptation, wrong_length,
}
use streamserver_cvn.BitFields.{put_bits, put_unsigned, put_signed}
use streamserver_cvn.PacketV2.{
  PacketV2, AdaptationField, ProgramClockReference, is_sync_byte_fixed_value, is_null_packet,
  has_adaptation_field, has_payload, is_reserved_scrambling, is_reserved_control, scrambling_code,
  control_code, payload_size, size_basic,
}

-- `operator<<` of `ProgramClockReference`.
unfoldable pub put_clock : ProgramClockReference → Stream (Unit {0})
put_clock c = do
  put_unsigned 64 33 c.pcr_base
  put_bits 6 c.reserved1
  put_unsigned 16 9 c.pcr_extension

unfoldable pub put_flags : AdaptationField → Stream (Unit {0})
put_flags f = do
  put_bit f.discontinuity_indicator
  put_bit f.random_access_indicator
  put_bit f.elementary_stream_priority_indicator
  put_bit f.pcr_flag
  put_bit f.opcr_flag
  put_bit f.splicing_point_flag
  put_bit f.transport_private_data_flag
  put_bit f.adaptation_field_extension_flag

-- A length and the bytes that it counts.
unfoldable pub put_counted : ℕ → Bytes → Stream (Unit {0})
put_counted len bytes = do
  put_unsigned 8 8 len
  guard (length bytes == len) wrong_length
  put_byte_array_aligned bytes

unfoldable pub put_options : AdaptationField → Stream (Unit {0})
put_options f = do
  when f.pcr_flag (put_clock f.program_clock_reference)
  when f.opcr_flag (put_clock f.original_program_clock_reference)
  when f.splicing_point_flag (put_signed 8 8 f.splice_countdown)
  when f.transport_private_data_flag
      (put_counted f.transport_private_data_length f.transport_private_data_bytes)
  when f.adaptation_field_extension_flag
      (put_counted f.adaptation_field_extension_length f.adaptation_field_extension_bytes)
  when (not (length f.stuffing_bytes == 0)) (put_byte_array_aligned f.stuffing_bytes)

-- `generateAdaptationField`; it returns nothing but `true`.
unfoldable pub generate_adaptation_field : AdaptationField → Stream (Unit {0})
generate_adaptation_field f = do
  put_unsigned 8 8 f.adaptation_field_length
  if not (ltb 0 f.adaptation_field_length) then pure tt else do
    begin ← get λ s. s.next
    put_flags f
    put_options f
    end ← get λ s. s.next
    guard (end - begin == f.adaptation_field_length) wrong_length

unfoldable pub put_sync_byte : PacketV2 → Stream (Unit {0})
put_sync_byte p = do guard (is_sync_byte_fixed_value p) no_sync_byte; put_bits 8 p.sync_byte

unfoldable pub put_pid : PacketV2 → Stream (Unit {0})
put_pid p = do
  put_bit p.transport_error_indicator
  put_bit p.payload_unit_start_indicator
  put_bit p.transport_priority
  put_unsigned 16 13 p.pid

unfoldable pub put_controls : PacketV2 → Stream (Unit {0})
put_controls p = do
  guard (not (is_reserved_scrambling p.transport_scrambling_control)) reserved_scrambling
  guard (not (is_reserved_control p.adaptation_field_control)) reserved_adaptation
  put_bits 2 (scrambling_code p.transport_scrambling_control)
  put_bits 2 (control_code p.adaptation_field_control)
  put_unsigned 8 4 p.continuity_counter

-- A field of 184 bytes or more leaves a negative size, which no payload has.
unfoldable pub put_payload : PacketV2 → Stream (Unit {0})
put_payload p = do
  guard
      (length p.payload_data_bytes
        == payload_size p.adaptation_field_control p.adaptation_field.adaptation_field_length)
      wrong_length
  put_byte_array_aligned p.payload_data_bytes

-- What the caller is told: the error messages by their place in the code.
pub data Message : Type 0 where
  not_enough_bytes wrong_count : Message
  at_sync_byte before_pid before_continuity_counter in_adaptation_field in_payload : Error → Message

pub data Generated : Type 0 where
  accept : BitStream → Generated
  reject : Message → BitStream → Generated

-- `try { ... } catch (...) { ...; return false; }`, and the code behind it.
unfoldable pub attempt :
    (Error → Message) → Stream (Unit {0}) → (BitStream → Generated) → BitStream → Generated
attempt label m next s = elim (m s) [ ok u t ↦ next t | err e t ↦ reject (label e) t ]

unfoldable pub generate_contents : PacketV2 → BitStream → Generated
generate_contents p = attempt before_continuity_counter (put_controls p) (
    attempt in_adaptation_field
      (when (has_adaptation_field p) (generate_adaptation_field p.adaptation_field))
      (attempt in_payload (when (has_payload p) (put_payload p))
        λ s. if s.next == size_basic then accept s else reject wrong_count s))

-- `generatePacket`: of a null packet only the first three bytes are put. The sink is new, so
-- `posBegin` is -1, and `posEnd - posBegin` is `next`.
unfoldable pub generate_packet : PacketV2 → BitStream → Generated
generate_packet p s =
    if not (bytes_left s == size_basic)
    then reject not_enough_bytes s
    else attempt at_sync_byte (put_sync_byte p)
        (attempt before_pid (put_pid p)
          λ t. if is_null_packet p then accept t else generate_contents p t)
        s

-- `PacketV2Generator::generate`: the bytes that it appends, if it returns true. `bytes()` flushes
-- the sink, which can throw.
pub data Appended : Type 0 where
  appended : Bytes → Appended
  failed : Message → Appended
  thrown : Error → Appended

unfoldable pub bytes_of : BitStream → Bytes → Appended
bytes_of s before = elim (flush s) [ ok u t ↦ appended (before ++ t.bytes) | err e t ↦ thrown e ]

unfoldable pub generate : ℕ → PacketV2 → Appended
generate prefix_length p = elim (generate_packet p (stream_of (replicate size_basic 0))) [
  | accept s ↦ bytes_of s (replicate prefix_length 0)
  | reject m s ↦ failed m
]
