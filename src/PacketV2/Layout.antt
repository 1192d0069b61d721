-- ===== src/PacketV2/Layout.antt =====
-- ISO/IEC 13818-1, 2.4.3.2 and 2.4.3.4, as far as the program goes: the bits of a packet in the
-- order in which they are sent. It is independent of the parser and of the generator.
use streamserver_cvn.Prelude.{
  ℕ, ◌*◌, ◌^◌, ◌<◌, ◌≡◌, ◌≢◌, Bool, true, false, List, [], ◌∷◌, ◌++◌, ltb, if◌then◌else◌, length,
  All, Bytes,
}
use streamserver_cvn.Bits.{to_bits, bytes_bits}
use streamserver_cvn.BitStream.Reading.{IsByte}
use streamserver_cvn.PacketV2.{
  PacketV2, AdaptationField, ProgramClockReference, scrambling_code, control_code,
  is_reserved_scrambling, is_reserved_control, control_has_field, control_has_payload, payload_size,
  sync_byte_fixed_value, pid_null_packet,
}

-- A part that is there if its flag is set.
abbrev pub section : Bool → List Bool → List Bool
section flag bits = if flag then bits else []

abbrev pub clock_bits : ProgramClockReference → List Bool
clock_bits c = to_bits 33 c.pcr_base ++ (to_bits 6 c.reserved1 ++ to_bits 9 c.pcr_extension)

abbrev pub flag_bits : AdaptationField → List Bool
flag_bits f =
    f.discontinuity_indicator ∷ f.random_access_indicator ∷ f.elementary_stream_priority_indicator
    ∷ f.pcr_flag ∷ f.opcr_flag ∷ f.splicing_point_flag ∷ f.transport_private_data_flag
    ∷ f.adaptation_field_extension_flag ∷ []

-- A length byte, and as many bytes.
abbrev pub counted_bits : ℕ → Bytes → List Bool
counted_bits n bytes = to_bits 8 n ++ bytes_bits bytes

-- The field behind its length byte.
abbrev pub field_bits : AdaptationField → List Bool
field_bits f =
    flag_bits f
    ++ (section f.pcr_flag (clock_bits f.program_clock_reference)
        ++ (section f.opcr_flag (clock_bits f.original_program_clock_reference)
            ++ (section f.splicing_point_flag (to_bits 8 f.splice_countdown)
                ++ (section f.transport_private_data_flag
                      (counted_bits f.transport_private_data_length f.transport_private_data_bytes)
                    ++ (section f.adaptation_field_extension_flag (
                          counted_bits f.adaptation_field_extension_length
                            f.adaptation_field_extension_bytes)
                        ++ bytes_bits f.stuffing_bytes)))))

abbrev pub whole_field_bits : AdaptationField → List Bool
whole_field_bits f =
    to_bits 8 f.adaptation_field_length ++ section (ltb 0 f.adaptation_field_length) (field_bits f)

abbrev pub pid_bits : PacketV2 → List Bool
pid_bits p =
    p.transport_error_indicator
    ∷ p.payload_unit_start_indicator
    ∷ p.transport_priority
    ∷ to_bits 13 p.pid

abbrev pub control_bits : PacketV2 → List Bool
control_bits p =
    to_bits 2 (scrambling_code p.transport_scrambling_control)
    ++ (to_bits 2 (control_code p.adaptation_field_control) ++ to_bits 4 p.continuity_counter)

abbrev pub contents_bits : PacketV2 → List Bool
contents_bits p =
    control_bits p
    ++ (section (control_has_field p.adaptation_field_control) (whole_field_bits p.adaptation_field)
        ++ section (control_has_payload p.adaptation_field_control)
            (bytes_bits p.payload_data_bytes))

abbrev pub packet_bits : PacketV2 → List Bool
packet_bits p = to_bits 8 p.sync_byte ++ (pid_bits p ++ contents_bits p)

pub record IsClock (c : ProgramClockReference) : Type 0 where
  pub base_lt : c.pcr_base < 2 ^ 33
  pub reserved_lt : c.reserved1 < 2 ^ 6
  pub extension_lt : c.pcr_extension < 2 ^ 9

-- A byte array whose length is the number that is sent before it.
pub record IsCounted (n : ℕ) (bytes : Bytes) : Type 0 where
  pub count : n ≡ length bytes
  pub count_lt : n < 256
  pub are_bytes : All IsByte bytes

-- The parts that the flags announce are in range.
pub record IsField (f : AdaptationField) : Type 0 where
  pub clock : f.pcr_flag ≡ true → IsClock f.program_clock_reference
  pub original_clock : f.opcr_flag ≡ true → IsClock f.original_program_clock_reference
  pub splice_lt : f.splicing_point_flag ≡ true → f.splice_countdown < 256
  pub private_data :
      f.transport_private_data_flag ≡ true
      → IsCounted f.transport_private_data_length f.transport_private_data_bytes
  pub extension :
      f.adaptation_field_extension_flag ≡ true
      → IsCounted f.adaptation_field_extension_length f.adaptation_field_extension_bytes
  pub are_stuffing_bytes : All IsByte f.stuffing_bytes

-- The field behind its length byte fills the length.
pub record IsWholeField (f : AdaptationField) : Type 0 where
  pub length_lt : f.adaptation_field_length < 256
  pub field : 0 < f.adaptation_field_length → IsField f
  pub fills : 0 < f.adaptation_field_length → length (field_bits f) ≡ 8 * f.adaptation_field_length

-- A packet that can be sent: every part that is there is in range and no value is reserved.
pub record IsPacket (p : PacketV2) : Type 0 where
  pub is_sync : p.sync_byte ≡ sync_byte_fixed_value
  pub pid_lt : p.pid < 2 ^ 13
  pub not_null : p.pid ≢ pid_null_packet
  pub scrambling : is_reserved_scrambling p.transport_scrambling_control ≡ false
  pub control : is_reserved_control p.adaptation_field_control ≡ false
  pub counter_lt : p.continuity_counter < 2 ^ 4
  pub whole_field :
      control_has_field p.adaptation_field_control ≡ true → IsWholeField p.adaptation_field
  pub payload_length :
      control_has_payload p.adaptation_field_control ≡ true
      → length p.payload_data_bytes
        ≡ payload_size p.adaptation_field_control p.adaptation_field.adaptation_field_length
  pub are_payload_bytes : All IsByte p.payload_data_bytes
