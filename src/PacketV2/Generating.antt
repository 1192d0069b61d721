-- ===== src/PacketV2/Generating.antt =====
-- What the generator makes of a packet: the header that the standard lays out, but for its last byte.
use streamserver_cvn.Prelude.{
  ℕ, suc, ◌-◌, ◌*◌, ◌^◌, ◌<◌, ◌≡◌, refl, ap, ap₂, ◌∙◌, inl, inr, Bool, true, false, not, List, [],
  ◌∷◌, ◌++◌, arith, if◌then◌else◌, length, length-append, replicate, Bytes, All, All-append, ◌/◌,
}
use streamserver_cvn.Prelude.Outcome.{ok, guard, ◌>>◌}
use streamserver_cvn.Bits.{to_bits, bytes_bits, length-to_bits, length-bytes_bits}
use streamserver_cvn.BitStream.{
  BitStream, Stream, Error, stream_of, reserved_scrambling, reserved_adaptation, no_sync_byte,
}
use streamserver_cvn.BitStream.Reading.{IsByte}
use streamserver_cvn.BitStream.Writing.{Writes, Sink, sink}
use streamserver_cvn.BitStream.Putting.{put_bit-Writes, then-Writes, full_bits}
use streamserver_cvn.BitFields.Writing.{put_bits-Writes, put_unsigned-Writes}
use streamserver_cvn.PacketV2.{
  PacketV2, is_null_packet, is_sync_byte_fixed_value, size_basic, scrambling_code, control_code,
  is_reserved_scrambling, is_reserved_control,
}
use streamserver_cvn.PacketV2.Layout.{pid_bits, control_bits}
use streamserver_cvn.PacketV2.Generator.{
  put_sync_byte, put_pid, put_controls, Generated, accept, attempt, generate_contents, Message,
  at_sync_byte, before_pid, generate_packet,
}

guard-Writes :
    {m : Stream (Unit {0})} {bits : List Bool} (b : Bool) (e : Error)
    → b ≡ true
    → Writes m bits
    → Writes (guard b e >> m) bits
guard-Writes true e h w = w
guard-Writes false e h w = absurd (cc)

put_sync_byte-Writes :
    (p : PacketV2)
    → is_sync_byte_fixed_value p ≡ true
    → Writes (put_sync_byte p) (to_bits 8 p.sync_byte)
unfolding put_sync_byte
put_sync_byte-Writes p sync =
    guard-Writes (is_sync_byte_fixed_value p) no_sync_byte sync (put_bits-Writes 8 p.sync_byte)

put_pid-Writes : (p : PacketV2) → p.pid < 2 ^ 13 → Writes (put_pid p) (pid_bits p)
unfolding put_pid
put_pid-Writes p small = then-Writes (put_bit-Writes p.transport_error_indicator) (
    then-Writes (put_bit-Writes p.payload_unit_start_indicator) (
      then-Writes (put_bit-Writes p.transport_priority)
        (put_unsigned-Writes 16 13 p.pid (omega arith) small)))

pub put_controls-Writes :
    (p : PacketV2)
    → is_reserved_scrambling p.transport_scrambling_control ≡ false
    → is_reserved_control p.adaptation_field_control ≡ false
    → p.continuity_counter < 2 ^ 4
    → Writes (put_controls p) (control_bits p)
unfolding put_controls
put_controls-Writes p s c small =
    guard-Writes (not (is_reserved_scrambling p.transport_scrambling_control)) reserved_scrambling
      (ap not s)
      (guard-Writes (not (is_reserved_control p.adaptation_field_control)) reserved_adaptation
        (ap not c)
        (then-Writes (put_bits-Writes 2 (scrambling_code p.transport_scrambling_control)) (
          then-Writes (put_bits-Writes 2 (control_code p.adaptation_field_control))
            (put_unsigned-Writes 8 4 p.continuity_counter (omega arith) small))))

pub attempt-ok :
    (label : Error → Message) (m : Stream (Unit {0})) (next : BitStream → Generated)
    {s t : BitStream}
    → m s ≡ ok tt t
    → attempt label m next s ≡ next t
unfolding attempt
attempt-ok label m next e = rw (e, attempt)

abbrev pub new_sink : BitStream
new_sink = stream_of (replicate size_basic 0)

-- Up to the PID, behind which a null packet ends.
pub generate_packet_start :
    (p : PacketV2)
    → p.sync_byte ≡ 0x47
    → p.pid < 2 ^ 13
    → (t : BitStream) × ((generate_packet p new_sink
          ≡ (if is_null_packet p then accept t else generate_contents p t))
        × Sink size_basic (to_bits 8 p.sync_byte ++ pid_bits p) t)
unfolding generate_packet
generate_packet_start p sync small =
    let (s, (e, i)) =
      (put_sync_byte-Writes p (ground arith)).run size_basic [] new_sink (inl (refl, refl))
        (omega arith) in
    let (t, (f, j)) =
      (put_pid-Writes p small).run size_basic (to_bits 8 p.sync_byte) s i (omega arith) in
    (t, (attempt-ok at_sync_byte (put_sync_byte p) _ e ∙ attempt-ok before_pid (put_pid p) _ f, j))

-- A sink behind a whole number of bytes.
pub record WholeBytes (m : ℕ) (bits : List Bool) (s : BitStream) : Type 0 where
  pub done : Bytes
  pub c : ℕ
  pub at : s ≡ sink done c 0 (187 - m)
  pub length-done : length done ≡ m
  pub are_bytes : All IsByte (done ++ c ∷ [])
  pub given : bits ≡ bytes_bits (done ++ c ∷ [])

pub Sink-WholeBytes :
    (m : ℕ) (bits : List Bool) (s : BitStream)
    → Sink size_basic bits s
    → length bits ≡ 8 * suc m
    → WholeBytes m bits s
Sink-WholeBytes m bits s (inl (at, e)) l = absurd (omega (arith, ap length e))
Sink-WholeBytes m bits s (inr i) l =
    let count =
      ap length i.given ∙ length-append (bytes_bits i.done) (to_bits (8 - i.k) (i.c / 2 ^ i.k)) in
    let complete : i.k ≡ 0 =
      omega (
        arith,
        i.k_lt,
        i.room,
        length-bytes_bits i.done,
        length-to_bits (8 - i.k) (i.c / 2 ^ i.k),
      ) in
    let many : length i.done ≡ m =
      omega (
        arith,
        i.k_lt,
        i.room,
        length-bytes_bits i.done,
        length-to_bits (8 - i.k) (i.c / 2 ^ i.k),
      ) in
    let left : i.n ≡ 187 - m = omega (arith, i.room) in
    record {
      done = i.done;
      c = i.c;
      at = i.at ∙ ap₂ (sink i.done i.c) complete left;
      length-done = many;
      are_bytes = All-append IsByte i.done (i.c ∷ []) i.are_bytes (i.c_lt, tt);
      given =
          i.given
          ∙ ap (λ k. bytes_bits i.done ++ to_bits (8 - k) (i.c / 2 ^ k)) complete
          ∙ full_bits i.done i.c;
    }
