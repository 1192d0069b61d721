-- ===== src/Tests/Packets.antt =====
-- A packet with an adaptation field, a clock reference and a payload, and a null packet.
use streamserver_cvn.Prelude.{
  ◌≡◌, refl, true, [], ◌∷◌, ◌++◌, arith, replicate, All, All-replicate, Bytes,
}
use streamserver_cvn.Tests.{All-IsByte}
use streamserver_cvn.Bits.{bytes_bits}
use streamserver_cvn.BitStream.Reading.{IsByte}
use streamserver_cvn.PacketV2.{
  PacketV2, AdaptationField, ProgramClockReference, AdaptationFieldControl, default_clock,
  default_adaptation_field, default_packet,
}
use streamserver_cvn.PacketV2.Layout.{IsPacket, IsField}
use streamserver_cvn.PacketV2.Parser.{parse, accept}
use streamserver_cvn.PacketV2.Parsing.{parse-layout, parse_null_packet, merge_packet, merge_header}

abbrev clock : ProgramClockReference
clock = record default_clock { pcr_base = 5; pcr_extension = 300 }

abbrev field : AdaptationField
field = record default_adaptation_field {
  adaptation_field_length = 8;
  random_access_indicator = true;
  pcr_flag = true;
  program_clock_reference = clock;
  stuffing_bytes = 0xff ∷ [];
}

abbrev packet : PacketV2
packet = record default_packet {
  payload_unit_start_indicator = true;
  pid = 0x100;
  adaptation_field_control = AdaptationFieldControl.adaptation_field_then_payload;
  continuity_counter = 5;
  adaptation_field = field;
  payload_data_bytes = replicate 175 0xff;
}

abbrev packet_start : Bytes
packet_start =
    0x47 ∷ 0x41 ∷ 0x00 ∷ 0x35 ∷ 8 ∷ 0x50 ∷ 0x00 ∷ 0x00 ∷ 0x00 ∷ 0x02 ∷ 0xff ∷ 0x2c ∷ 0xff ∷ []

abbrev packet_bytes : Bytes
packet_bytes = packet_start ++ replicate 175 0xff

packet_bytes_are : All IsByte packet_bytes
packet_bytes_are = All-IsByte packet_bytes refl

field-IsField : IsField field
field-IsField = record {
  clock =
      λ h. record { base_lt = omega arith; reserved_lt = omega arith; extension_lt = omega arith };
  original_clock = λ h. absurd (cc h);
  splice_lt = λ h. absurd (cc h);
  private_data = λ h. absurd (cc h);
  extension = λ h. absurd (cc h);
  are_stuffing_bytes = (omega arith, tt);
}

packet-IsPacket : IsPacket packet
packet-IsPacket = record {
  is_sync = refl;
  pid_lt = omega arith;
  not_null = λ e. absurd (omega arith);
  scrambling = refl;
  control = refl;
  counter_lt = omega arith;
  whole_field =
      λ h. record { length_lt = omega arith; field = λ l. field-IsField; fills = λ l. refl };
  payload_length = λ h. refl;
  are_payload_bytes = All-replicate IsByte 175 0xff (omega arith);
}

parse-layout_example :
    parse 0 packet_bytes default_packet ≡ accept (merge_packet packet default_packet)
parse-layout_example =
    parse-layout [] packet_bytes refl packet_bytes_are packet default_packet packet-IsPacket refl

abbrev null_bytes : Bytes
null_bytes = 0x47 ∷ 0x1f ∷ 0xff ∷ 0x10 ∷ replicate 184 0

null_bytes_are : All IsByte null_bytes
null_bytes_are = All-IsByte null_bytes refl

-- Behind a prefix of four bytes.
parse_null_packet_example :
    parse 4 (1 ∷ 2 ∷ 3 ∷ 4 ∷ null_bytes) default_packet
    ≡ accept (merge_header default_packet default_packet)
parse_null_packet_example =
    parse_null_packet (1 ∷ 2 ∷ 3 ∷ 4 ∷ []) null_bytes refl null_bytes_are default_packet
      default_packet (bytes_bits (0x10 ∷ replicate 184 0)) refl refl refl
