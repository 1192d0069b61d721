-- ===== src/Tests/Generated.antt =====
-- Packets that are generated, refused and changed.
use streamserver_cvn.Prelude.{
  ℕ, ◌+◌, ◌*◌, ◌/◌, ◌<◌, ◌≡◌, ◌↔◌, refl, true, [], ◌∷◌, ◌++◌, inr, arith, some, replicate, All,
  Bytes,
}
use streamserver_cvn.Tests.{All-IsByte}
use streamserver_cvn.Bits.{to_bits, bytes_bits}
use streamserver_cvn.BitStream.{reserved_adaptation}
use streamserver_cvn.BitStream.Reading.{IsByte}
use streamserver_cvn.BitStream.Writing.{Writes}
use streamserver_cvn.BitFields.{put_unsigned}
use streamserver_cvn.BitFields.Writing.{put_unsigned-Writes}
use streamserver_cvn.PacketV2.{
  PacketV2, AdaptationFieldControl, ProgramClockReference, default_packet, default_clock, pcr_value,
  to_nanosecs,
}
use streamserver_cvn.PacketV2.Layout.{IsPacket, IsClock, clock_bits, pid_bits, control_bits}
use streamserver_cvn.PacketV2.Parser.{parse}
use streamserver_cvn.PacketV2.Parser
use streamserver_cvn.PacketV2.Parsing.{merge_header}
use streamserver_cvn.PacketV2.HeaderParsing.{with_controls}
use streamserver_cvn.PacketV2.Refusing.{reserved_error, parse_reserved}
use streamserver_cvn.PacketV2.Generator.{generate, appended}
use streamserver_cvn.PacketV2.Generated.{generate-parse_null_packet}
use streamserver_cvn.PacketV2.PayloadLost.{
  corrupted, zero_controls, generate_payload_only, generate-parse_payload_only,
}
use streamserver_cvn.TsPacket.{Clock, clock_of}
use streamserver_cvn.TsPacket.Clocks.{
  same_clock, clock_of-clock_bits, pcr_value-exact, to_nanosecs-exact,
}
use streamserver_cvn.TsPacket.Parser.{adaptation_field_of, set_discontinuity_indicator}
use streamserver_cvn.TsPacket.Discontinuity.{set_discontinuity_indicator-parse}

put_unsigned-Writes_example : Writes (put_unsigned 16 9 0x134) (to_bits 9 0x134)
put_unsigned-Writes_example = put_unsigned-Writes 16 9 0x134 (omega arith) (omega arith)

generate-parse_null_packet_example :
    (bytes : Bytes) × ((generate 4 default_packet ≡ appended bytes)
      × (parse 4 bytes default_packet ≡ Parser.accept (merge_header default_packet default_packet)))
generate-parse_null_packet_example =
    generate-parse_null_packet 4 default_packet default_packet refl refl

abbrev payload_packet : PacketV2
payload_packet = record default_packet {
  pid = 0x100;
  adaptation_field_control = AdaptationFieldControl.payload_only;
  continuity_counter = 5;
  payload_data_bytes = replicate 184 0xff;
}

payload_packet-IsPacket : IsPacket payload_packet
payload_packet-IsPacket = record {
  is_sync = refl;
  pid_lt = omega arith;
  not_null = λ e. absurd (omega arith);
  scrambling = refl;
  control = refl;
  counter_lt = omega arith;
  whole_field = λ h. absurd (cc h);
  payload_length = λ h. refl;
  are_payload_bytes = All-IsByte (replicate 184 0xff) refl;
}

generate_payload_only_example :
    (a b c d : ℕ) × ((bytes_bits (a ∷ b ∷ c ∷ d ∷ [])
        ≡ (to_bits 8 0x47 ++ pid_bits payload_packet) ++ control_bits payload_packet)
      × (All IsByte (a ∷ b ∷ c ∷ d ∷ [])
          × (generate 0 payload_packet
              ≡ appended (replicate 0 0 ++ corrupted a b c d (replicate 184 0xff)))))
generate_payload_only_example = generate_payload_only 0 payload_packet payload_packet-IsPacket refl

generate-parse_payload_only_example :
    (bytes : Bytes) × ((generate 0 payload_packet ≡ appended bytes)
      × (parse 0 bytes default_packet
          ≡ Parser.reject (Parser.before_continuity_counter reserved_adaptation) (
              with_controls
                (zero_controls payload_packet)
                (merge_header payload_packet default_packet))))
generate-parse_payload_only_example =
    generate-parse_payload_only 0 payload_packet default_packet payload_packet-IsPacket refl

abbrev reserved_packet : PacketV2
reserved_packet = record default_packet { pid = 0x100 }

abbrev reserved_bytes : Bytes
reserved_bytes = 0x47 ∷ 0x01 ∷ 0x00 ∷ 0x00 ∷ replicate 184 0

parse_reserved_example :
    parse 0 reserved_bytes default_packet
    ≡ Parser.reject
        (Parser.before_continuity_counter (reserved_error reserved_packet))
        (with_controls reserved_packet (merge_header reserved_packet default_packet))
parse_reserved_example =
    parse_reserved [] reserved_bytes reserved_packet default_packet (bytes_bits (replicate 184 0))
      refl (All-IsByte reserved_bytes refl) refl (omega arith) (λ e. absurd (omega arith))
      (inr refl) (omega arith) refl

abbrev clock_bytes : Bytes
clock_bytes = 0x00 ∷ 0x00 ∷ 0x00 ∷ 0x02 ∷ 0xff ∷ 0x2c ∷ []

clock_of-clock_bits_example :
    (c : Clock) × ((clock_of clock_bytes ≡ some c)
      × ((bytes_bits clock_bytes ≡ clock_bits (same_clock c))
          × (IsClock (same_clock c) × (c.value ≡ pcr_value (same_clock c)))))
clock_of-clock_bits_example = clock_of-clock_bits clock_bytes refl (All-IsByte clock_bytes refl)

abbrev hour : ProgramClockReference
hour = record default_clock { pcr_base = 324000000 }

hour-IsClock : IsClock hour
hour-IsClock = record {
  base_lt = omega arith;
  reserved_lt = omega arith;
  extension_lt = omega arith;
}

pcr_value-exact_example : pcr_value hour ≡ 324000000 * 300 + 0
pcr_value-exact_example = pcr_value-exact hour hour-IsClock

-- After an hour the nanoseconds are wrong.
to_nanosecs-exact_example :
    (to_nanosecs hour ≡ pcr_value hour * 1000000000 / 27000000) ↔ (pcr_value hour < 18446744074)
to_nanosecs-exact_example = to_nanosecs-exact hour

set_discontinuity_indicator-parse_example :
    set_discontinuity_indicator true (adaptation_field_of (3 ∷ 0x40 ∷ 0xff ∷ 0xff ∷ []))
    ≡ some (adaptation_field_of (3 ∷ 0xc0 ∷ 0xff ∷ 0xff ∷ []))
set_discontinuity_indicator-parse_example =
    set_discontinuity_indicator-parse 3 (0xff ∷ 0xff ∷ []) (omega arith) true 0x40
