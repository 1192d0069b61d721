-- ===== src/PacketV2/Refusing.antt =====
-- Packets whose control fields are reserved values.
use streamserver_cvn.Prelude.{
  ◌<◌, ◌^◌, ◌≡◌, ◌≢◌, ◌∙◌, ◌⊎◌, inl, inr, Bool, true, false, not, List, ◌++◌, arith, if◌then◌else◌,
  length, Bytes, Bool-cases, All,
}
use streamserver_cvn.Prelude.Outcome.{err, ◌>>=◌, ◌>>◌}
use streamserver_cvn.Bits.{to_bits, bytes_bits}
use streamserver_cvn.BitStream.{BitStream, Error, reserved_scrambling, reserved_adaptation}
use streamserver_cvn.BitStream.Reading.{Holds, IsByte}
use streamserver_cvn.PacketV2.{
  PacketV2, is_null_packet, is_reserved_scrambling, is_reserved_control, size_basic,
}
use streamserver_cvn.PacketV2.Layout.{pid_bits, control_bits}
use streamserver_cvn.PacketV2.Fill.{check}
use streamserver_cvn.PacketV2.Filling.{at}
use streamserver_cvn.PacketV2.Parser.{
  read_controls, parse, parse_contents, attempt, reject, before_continuity_counter,
}
use streamserver_cvn.PacketV2.HeaderParsing.{read_control_values-Fills, with_controls}
use streamserver_cvn.PacketV2.Parsing.{merge_header, parse_prefix, parse_packet_header}

-- What is thrown for a reserved value: the scrambling control is looked at first.
abbrev pub reserved_error : PacketV2 → Error
reserved_error p =
    if is_reserved_scrambling p.transport_scrambling_control
    then reserved_scrambling
    else reserved_adaptation

abbrev pub HasReserved : PacketV2 → Type 0
HasReserved p =
    (is_reserved_scrambling p.transport_scrambling_control ≡ true)
    ⊎ (is_reserved_control p.adaptation_field_control ≡ true)

check_reserved :
    (p q : PacketV2) (s : BitStream)
    → HasReserved p
    → (check (λ p. not (is_reserved_scrambling p.transport_scrambling_control)) reserved_scrambling
          >> check (λ p. not (is_reserved_control p.adaptation_field_control)) reserved_adaptation)
        (at s (with_controls p q))
      ≡ err (reserved_error p) (at s (with_controls p q))
unfolding check
check_reserved p q s (inl h) = rw (h, check, ◌>>=◌)
check_reserved p q s (inr h) =
    elim (Bool-cases (is_reserved_scrambling p.transport_scrambling_control)) [
      | inl e ↦ rw (e, check, ◌>>=◌)
      | inr e ↦ rw (e, h, check, ◌>>=◌)
    ]

read_controls_reserved :
    (p q : PacketV2) (s : BitStream) (rest : List Bool)
    → HasReserved p
    → p.continuity_counter < 2 ^ 4
    → Holds s (control_bits p ++ rest)
    → (t : BitStream) × (read_controls (at s q) ≡ err (reserved_error p) (at t (with_controls p q)))
unfolding read_controls
read_controls_reserved p q s rest bad small h =
    let (t, e, h') = (read_control_values-Fills p q small).run s rest h in
    (t, rw (e, ◌>>=◌) (check_reserved p q t bad))

-- A packet whose scrambling control or adaptation field control is reserved, and that is no null
-- packet, is refused with the message for it, whatever follows. The fields up to the continuity
-- counter have been written to the caller's packet by then.
pub parse_reserved :
    (prefix bytes : Bytes) (p q : PacketV2) (rest : List Bool)
    → length bytes ≡ size_basic
    → All IsByte bytes
    → p.sync_byte ≡ 0x47
    → p.pid < 2 ^ 13
    → p.pid ≢ 0x1fff
    → HasReserved p
    → p.continuity_counter < 2 ^ 4
    → bytes_bits bytes ≡ to_bits 8 p.sync_byte ++ (pid_bits p ++ (control_bits p ++ rest))
    → parse (length prefix) (prefix ++ bytes) q
      ≡ reject (before_continuity_counter (reserved_error p)) (with_controls p (merge_header p q))
unfolding attempt
parse_reserved prefix bytes p q rest size are sync pid_lt other bad small e =
    let (s, go, h) =
      parse_packet_header bytes p q (control_bits p ++ rest) size are sync pid_lt e in
    let goes_on : is_null_packet p ≡ false = ground (arith, other) in
    let (t, f) = read_controls_reserved p (merge_header p q) s rest bad small h in
    parse_prefix prefix bytes q size ∙ go ∙ rw goes_on (unfold parse_contents in rw (f, attempt))
