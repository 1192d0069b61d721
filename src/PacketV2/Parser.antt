-- ===== src/PacketV2/Parser.antt =====
-- libmedia/tspacketv2.cpp: `PacketV2ParserImpl` and `PacketV2Parser::parse` over bytes. The packet
-- is an output parameter, so it keeps what was assigned before an error. Messages are values.
use streamserver_cvn.Prelude.{
  ℕ, ◌+◌, Bool, true, false, not, Option, none, some, ltb, ◌==◌, if◌then◌else◌, length, drop, Bytes,
}
use streamserver_cvn.Prelude.Outcome.{ok, err, ◌>>◌}
use streamserver_cvn.BitStream.{
  Error, stream_of, bytes_left, at_end, take_bit, take_byte_array_aligned, take_rest_aligned,
  no_sync_byte, reserved_scrambling, reserved_adaptation,
}
use streamserver_cvn.BitFields.{take_unsigned, take_signed}
use streamserver_cvn.PacketV2.Fill.{Cursor, Fill, read, on, with, check, inside, finish}
use streamserver_cvn.PacketV2.{
  PacketV2, AdaptationField, ProgramClockReference, is_sync_byte_fixed_value, is_null_packet,
  has_adaptation_field, has_payload, is_reserved_scrambling, is_reserved_control,
  scrambling_of_code, control_of_code, payload_size, size_basic,
}

-- `operator>>` of `ProgramClockReference`.
unfoldable pub read_clock : Fill ProgramClockReference
read_clock = do
  read (take_unsigned 64 33) λ v c. record c { pcr_base = v }
  read (take_unsigned 8 6) λ v c. record c { reserved1 = v }
  read (take_unsigned 16 9) λ v c. record c { pcr_extension = v }

unfoldable pub read_flags : Fill AdaptationField
read_flags = do
  read take_bit λ b f. record f { discontinuity_indicator = b }
  read take_bit λ b f. record f { random_access_indicator = b }
  read take_bit λ b f. record f { elementary_stream_priority_indicator = b }
  read take_bit λ b f. record f { pcr_flag = b }
  read take_bit λ b f. record f { opcr_flag = b }
  read take_bit λ b f. record f { splicing_point_flag = b }
  read take_bit λ b f. record f { transport_private_data_flag = b }
  read take_bit λ b f. record f { adaptation_field_extension_flag = b }

unfoldable pub read_pcr : Fill AdaptationField
read_pcr =
    on (λ f. f.pcr_flag)
      (inside (λ f. f.program_clock_reference) (λ c f. record f { program_clock_reference = c })
        read_clock)

unfoldable pub read_opcr : Fill AdaptationField
read_opcr =
    on (λ f. f.opcr_flag)
      (inside (λ f. f.original_program_clock_reference)
        (λ c f. record f { original_program_clock_reference = c }) read_clock)

unfoldable pub read_splice : Fill AdaptationField
read_splice =
    on (λ f. f.splicing_point_flag)
      (read (take_signed 8 8) λ v f. record f { splice_countdown = v })

unfoldable pub read_private_data : Fill AdaptationField
read_private_data = do
  read (take_unsigned 8 8) λ v f. record f { transport_private_data_length = v }
  with λ f.
      read (take_byte_array_aligned f.transport_private_data_length)
        λ bytes f. record f { transport_private_data_bytes = bytes }

unfoldable pub read_extension : Fill AdaptationField
read_extension = do
  read (take_unsigned 8 8) λ v f. record f { adaptation_field_extension_length = v }
  with λ f.
      read (take_byte_array_aligned f.adaptation_field_extension_length)
        λ bytes f. record f { adaptation_field_extension_bytes = bytes }

-- `parseAdaptationField` from its flags on, over the bytes of the field.
unfoldable pub read_field : Fill AdaptationField
read_field = do
  read_flags
  read_pcr
  read_opcr
  read_splice
  on (λ f. f.transport_private_data_flag) read_private_data
  on (λ f. f.adaptation_field_extension_flag) read_extension
  read take_rest_aligned λ bytes f. record f { stuffing_bytes = bytes }
  finish

abbrev set_field : AdaptationField → PacketV2 → PacketV2
set_field f p = record p { adaptation_field = f }

-- `afBitSource`: a stream of its own over the field's bytes.
unfoldable pub over_bytes : Bytes → Fill AdaptationField → Fill PacketV2
over_bytes bytes m c =
    elim (m (record { bit_source = stream_of bytes; target = c.target.adaptation_field })) [
      | ok u d ↦ ok u (record c { target = set_field d.target c.target })
      | err e d ↦ err e (record c { target = set_field d.target c.target })
    ]

unfoldable pub read_field_bytes : ℕ → Fill PacketV2
read_field_bytes len c = elim (take_byte_array_aligned len c.bit_source) [
  | ok bytes s ↦ over_bytes bytes read_field (record c { bit_source = s })
  | err e s ↦ err e (record c { bit_source = s })
]

-- `parseAdaptationField`. A length of zero is a single stuffing byte.
unfoldable pub parse_adaptation_field : Fill PacketV2
parse_adaptation_field = do
  inside (λ p. p.adaptation_field) set_field
      (read (take_unsigned 8 8) λ v f. record f { adaptation_field_length = v })
  on (λ p. ltb 0 p.adaptation_field.adaptation_field_length)
      (with λ p. read_field_bytes p.adaptation_field.adaptation_field_length)

unfoldable pub read_sync_byte : Fill PacketV2
read_sync_byte = do
  read (take_unsigned 8 8) λ v p. record p { sync_byte = v }
  check is_sync_byte_fixed_value no_sync_byte

unfoldable pub read_pid : Fill PacketV2
read_pid = do
  read take_bit λ b p. record p { transport_error_indicator = b }
  read take_bit λ b p. record p { payload_unit_start_indicator = b }
  read take_bit λ b p. record p { transport_priority = b }
  read (take_unsigned 16 13) λ v p. record p { pid = v }

unfoldable pub read_control_values : Fill PacketV2
read_control_values = do
  read (take_unsigned 8 2) λ v p. record p { transport_scrambling_control = scrambling_of_code v }
  read (take_unsigned 8 2) λ v p. record p { adaptation_field_control = control_of_code v }
  read (take_unsigned 8 4) λ v p. record p { continuity_counter = v }

unfoldable pub read_controls : Fill PacketV2
read_controls = do
  read_control_values
  check (λ p. not (is_reserved_scrambling p.transport_scrambling_control)) reserved_scrambling
  check (λ p. not (is_reserved_control p.adaptation_field_control)) reserved_adaptation

unfoldable pub read_payload : Fill PacketV2
read_payload = with λ p.
    read
      (take_byte_array_aligned
        (payload_size p.adaptation_field_control p.adaptation_field.adaptation_field_length))
      λ bytes p. record p { payload_data_bytes = bytes }

-- What the caller is told: the error messages by their place in the code.
pub data Message : Type 0 where
  wrong_packet_size not_enough_bytes expected_end : Message
  at_sync_byte before_pid before_continuity_counter in_adaptation_field in_payload : Error → Message

pub record Parsed : Type 0 where
  pub success : Bool
  pub packet : PacketV2
  pub message : Option Message

abbrev pub accept : PacketV2 → Parsed
accept p = record { success = true; packet = p; message = none }

abbrev pub reject : Message → PacketV2 → Parsed
reject m p = record { success = false; packet = p; message = some m }

-- `try { ... } catch (...) { ...; return false; }`, and the code behind it.
unfoldable pub attempt :
    (Error → Message) → Fill PacketV2 → (Cursor PacketV2 → Parsed) → Cursor PacketV2 → Parsed
attempt label m next c = elim (m c) [ ok u d ↦ next d | err e d ↦ reject (label e) d.target ]

unfoldable pub parse_end : Cursor PacketV2 → Parsed
parse_end c = if at_end c.bit_source then accept c.target else reject expected_end c.target

unfoldable pub parse_contents : Cursor PacketV2 → Parsed
parse_contents = attempt before_continuity_counter read_controls (
    attempt in_adaptation_field (on has_adaptation_field parse_adaptation_field)
      (attempt in_payload (on has_payload read_payload) parse_end))

-- `parsePacket`: of a null packet only the first three bytes are read.
unfoldable pub parse_packet : Cursor PacketV2 → Parsed
parse_packet c =
    if not (bytes_left c.bit_source == size_basic)
    then reject not_enough_bytes c.target
    else attempt at_sync_byte read_sync_byte
        (attempt before_pid read_pid
          λ d. if is_null_packet d.target then accept d.target else parse_contents d)
        c

-- `PacketV2Parser::parse`, with the prefix length that is set and the packet that is passed in.
unfoldable pub parse : ℕ → Bytes → PacketV2 → Parsed
parse prefix_length bytes packet =
    if not (length bytes == prefix_length + size_basic)
    then reject wrong_packet_size packet
    else parse_packet
        (record { bit_source = stream_of (drop prefix_length bytes); target = packet })
