-- ===== src/TsPacket/Packet.antt =====
-- libmedia/tspacket.cpp: the constructor of `TSPacket`, and the operations on a whole packet.
use streamserver_cvn.Prelude.{
  ℕ, ◌+◌, ◌*◌, ◌/◌, ◌%◌, ◌^◌, Bool, not, ◌||◌, ◌++◌, Option, none, some, ltb, leb, ◌==◌,
  if◌then◌else◌, get_or, take, drop, length, Bytes,
}
use streamserver_cvn.Prelude.Outcome.{ok, err, M, pure, get, modify, guard, when, ◌>>=◌, ◌>>◌}
use streamserver_cvn.Bits.{bit_at}
use streamserver_cvn.TsPacket.{
  AdaptationField, valid_sync_byte, valid_pid, valid_continuity_counter, valid_adaptation_field,
  valid_payload_data, no_info, time_code_prefix, PacketError, too_short, unrecognized_length,
  no_sync_byte, field_past_end, payload_past_end, in_field, TsPacket, length_basic, sync_byte,
  pid_null_packet, empty_packet,
}
use streamserver_cvn.TsPacket.Parser.{mid, adaptation_field_of}

pub record PacketState : Type 0 where
  pub index : ℕ
  pub packet : TsPacket

abbrev pub ParsePacket : Type 0 → Type 0
ParsePacket A = M PacketError PacketState A

abbrev pub size : PacketState → ℕ
size s = length s.packet.bytes

abbrev pub on_packet : (TsPacket → TsPacket) → ParsePacket (Unit {0})
on_packet f = modify λ s. record s { packet = f s.packet }

abbrev pub take_byte : ParsePacket ℕ
take_byte s = ok (get_or s.packet.bytes s.index 0) (record s { index = s.index + 1 })

-- The length decides whether there is a time code in front.
unfoldable pub parse_prefix : ParsePacket (Unit {0})
parse_prefix = do
  n ← get size
  guard (not (ltb n length_basic)) too_short
  if n == length_basic then on_packet (λ p. record p { additional_info_length = no_info }) else do
    guard (n == 4 + length_basic) unrecognized_length
    modify λ s. record s {
      packet = record s.packet {
        additional_info_length = time_code_prefix;
        time_code = mid s.index 4 s.packet.bytes;
      };
      index = s.index + 4;
    }

unfoldable pub parse_sync_byte : ParsePacket (Unit {0})
parse_sync_byte = do
  start ← get λ s. s.index
  on_packet λ p. record p { sync_byte_index = start }
  byte ← take_byte
  guard (byte == sync_byte) no_sync_byte
  on_packet λ p. record p { validity = valid_sync_byte }

unfoldable pub parse_pid : ParsePacket (Unit {0})
parse_pid = do
  byte ← take_byte
  on_packet
      λ p. record p { tei = bit_at byte 7; pusi = bit_at byte 6; transport_prio = bit_at byte 5 }
  byte2 ← take_byte
  on_packet λ p. record p { pid = byte % 2 ^ 5 * 2 ^ 8 + byte2; validity = valid_pid }

unfoldable pub parse_controls : ParsePacket (Unit {0})
parse_controls = do
  byte ← take_byte
  on_packet λ p. record p {
    tsc = byte / 2 ^ 6 % 2 ^ 2;
    adaptation_field_control = byte / 2 ^ 4 % 2 ^ 2;
    continuity_counter = byte % 2 ^ 4;
    validity = valid_continuity_counter;
  }

-- `AdaptationFieldOnly` and `AdaptationFieldThenPayload`.
abbrev pub has_field : TsPacket → Bool
has_field p = p.adaptation_field_control == 2 || p.adaptation_field_control == 3

abbrev pub has_payload : TsPacket → Bool
has_payload p = p.adaptation_field_control == 1 || p.adaptation_field_control == 3

abbrev pub check_field : AdaptationField → ParsePacket (Unit {0})
check_field f s = elim f.error_message [ none ↦ ok tt s | some e ↦ err (in_field e) s ]

unfoldable pub parse_adaptation_field : ParsePacket (Unit {0})
parse_adaptation_field = do
  len ← take_byte
  f ← get λ s. adaptation_field_of (mid s.packet.adaptation_field_index (1 + len) s.packet.bytes)
  on_packet λ p. record p { adaptation_field = some f }
  check_field f
  modify λ s. record s { index = s.index + len }
  i ← get λ s. s.index
  n ← get size
  guard (not (ltb n i)) field_past_end
  on_packet λ p. record p { validity = valid_adaptation_field }

unfoldable pub parse_payload : ParsePacket (Unit {0})
parse_payload = do
  i ← get λ s. s.index
  n ← get size
  guard (leb i n) payload_past_end
  on_packet λ p. record p { validity = valid_payload_data }

unfoldable pub parse_contents : ParsePacket (Unit {0})
parse_contents = do
  parse_controls
  modify λ s. record s { packet = record s.packet { adaptation_field_index = s.index } }
  p ← get λ s. s.packet
  when (has_field p) parse_adaptation_field
  modify λ s. record s { packet = record s.packet { payload_data_index = s.index } }
  when (has_payload p) parse_payload

unfoldable pub parse_packet : ParsePacket (Unit {0})
parse_packet = do
  parse_prefix
  parse_sync_byte
  parse_pid
  p ← get λ s. s.packet
  if p.pid == pid_null_packet then pure tt else parse_contents

-- The constructor of `TSPacket`.
unfoldable pub packet_of : Bytes → TsPacket
packet_of bytes = elim (parse_packet (record { index = 0; packet = empty_packet bytes })) [
  | ok u s ↦ s.packet
  | err e s ↦ record s.packet { error_message = some e }
]

-- `updateAdaptationfieldBytes`; `none` if it throws.
unfoldable pub update_adaptation_field_bytes : TsPacket → Option TsPacket
update_adaptation_field_bytes p = if not (has_field p) then none else elim p.adaptation_field [
  | none ↦ none
  | some f ↦
      let i = p.adaptation_field_index in
      let n = length f.bytes in
      if ltb (length p.bytes) (i + n)
      then none
      else some (record p { bytes = take i p.bytes ++ (f.bytes ++ drop (i + n) p.bytes) })
]

-- `payloadData()` and `toBasicPacketBytes()`.
unfoldable pub payload_data : TsPacket → Bytes
payload_data p = drop p.payload_data_index p.bytes

unfoldable pub to_basic_packet_bytes : TsPacket → Bytes
to_basic_packet_bytes p = mid p.sync_byte_index length_basic p.bytes
