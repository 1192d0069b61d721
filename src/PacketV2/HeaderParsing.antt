-- ===== src/PacketV2/HeaderParsing.antt =====
-- The parser reads back the header of a packet: sync byte, flags, PID and the control bits.
use streamserver_cvn.Prelude.{◌<◌, ◌^◌, ◌≡◌, [], arith}
use streamserver_cvn.Bits.{to_bits}
use streamserver_cvn.BitFields.{take_unsigned}
use streamserver_cvn.PacketV2.{
  PacketV2, AdaptationFieldControl, TransportScramblingControl, scrambling_code, control_code,
  scrambling_of_code, control_of_code,
}
use streamserver_cvn.PacketV2.Layout.{pid_bits, control_bits, IsPacket}
use streamserver_cvn.PacketV2.Fill.{read}
use streamserver_cvn.PacketV2.Filling.{
  Fills, read_bit-Fills, read_number-Fills, check-Fills, >>-Fills,
}
use streamserver_cvn.PacketV2.Parser.{read_sync_byte, read_pid, read_controls, read_control_values}

read_scrambling-Fills :
    (c : TransportScramblingControl) (q : PacketV2)
    → Fills
        (read
          (take_unsigned 8 2)
          λ v p. record p { transport_scrambling_control = scrambling_of_code v })
        (to_bits 2 (scrambling_code c))
        q
        (record q { transport_scrambling_control = c })
read_scrambling-Fills TransportScramblingControl.not_scrambled q =
    read_number-Fills 8 2 _ 0 (omega arith) (omega arith)
read_scrambling-Fills c q = read_number-Fills 8 2 _ (scrambling_code c) (omega arith) (omega arith)

read_control-Fills :
    (c : AdaptationFieldControl) (q : PacketV2)
    → Fills
        (read (take_unsigned 8 2) λ v p. record p { adaptation_field_control = control_of_code v })
        (to_bits 2 (control_code c))
        q
        (record q { adaptation_field_control = c })
read_control-Fills AdaptationFieldControl.reserved q =
    read_number-Fills 8 2 _ 0 (omega arith) (omega arith)
read_control-Fills c q = read_number-Fills 8 2 _ (control_code c) (omega arith) (omega arith)

pub read_sync_byte-Fills :
    (p q : PacketV2)
    → p.sync_byte ≡ 0x47
    → Fills read_sync_byte (to_bits 8 p.sync_byte) q (record q { sync_byte = p.sync_byte })
unfolding read_sync_byte
read_sync_byte-Fills p q e =
    >>-Fills {bs = to_bits 8 p.sync_byte} {cs = []}
      (read_number-Fills 8 8 _ p.sync_byte (omega arith) (omega arith))
      (check-Fills _ _ (ground arith))

pub read_pid-Fills :
    (p q : PacketV2)
    → p.pid < 2 ^ 13
    → Fills read_pid (pid_bits p) q (record q {
      transport_error_indicator = p.transport_error_indicator;
      payload_unit_start_indicator = p.payload_unit_start_indicator;
      transport_priority = p.transport_priority;
      pid = p.pid;
    })
unfolding read_pid
read_pid-Fills p q small = >>-Fills (read_bit-Fills _ p.transport_error_indicator) (
    >>-Fills (read_bit-Fills _ p.payload_unit_start_indicator) (
      >>-Fills (read_bit-Fills _ p.transport_priority)
        (read_number-Fills 16 13 _ p.pid (omega arith) small)))

abbrev pub with_controls : PacketV2 → PacketV2 → PacketV2
with_controls p q = record q {
  transport_scrambling_control = p.transport_scrambling_control;
  adaptation_field_control = p.adaptation_field_control;
  continuity_counter = p.continuity_counter;
}

pub read_control_values-Fills :
    (p q : PacketV2)
    → p.continuity_counter < 2 ^ 4
    → Fills read_control_values (control_bits p) q (with_controls p q)
unfolding read_control_values
read_control_values-Fills p q small =
    >>-Fills (read_scrambling-Fills p.transport_scrambling_control q) (
      >>-Fills (read_control-Fills p.adaptation_field_control _)
        (read_number-Fills 8 4 _ p.continuity_counter (omega arith) small))

pub read_controls-Fills :
    (p q : PacketV2) → IsPacket p → Fills read_controls (control_bits p) q (with_controls p q)
unfolding read_controls
read_controls-Fills p q v =
    >>-Fills {bs = control_bits p} {cs = []} (read_control_values-Fills p q v.counter_lt) (
      >>-Fills {bs = []} {cs = []} (check-Fills _ _ (rw v.scrambling))
        (check-Fills _ _ (rw v.control)))
