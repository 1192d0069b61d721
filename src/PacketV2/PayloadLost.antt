-- ===== src/PacketV2/PayloadLost.antt =====
-- A packet with a payload: `putByteArrayAligned` leaves the header's last byte in the stream's current
-- byte, which is flushed over the last byte of the payload.
use streamserver_cvn.Prelude.{
  ℕ, ◌≡◌, refl, sym, ap, ◌∙◌, subst, inr, true, false, [], ◌∷◌, ◌++◌, arith, ◌==◌, if◌then◌else◌,
  length, length-replicate, length-set, All-set, replicate, set, Bytes, All,
}
use streamserver_cvn.Prelude.Outcome.{ok, when}
use streamserver_cvn.Bits.{to_bits, bytes_bits, append_injective}
use streamserver_cvn.BitStream.{BitStream, reserved_adaptation}
use streamserver_cvn.BitStream.Reading.{IsByte}
use streamserver_cvn.BitStream.Writing.{sink}
use streamserver_cvn.PacketV2.{
  PacketV2, AdaptationFieldControl, TransportScramblingControl, is_null_packet, size_basic,
  has_adaptation_field, has_payload,
}
use streamserver_cvn.PacketV2.Layout.{pid_bits, control_bits, IsPacket}
use streamserver_cvn.PacketV2.Parser.{parse}
use streamserver_cvn.PacketV2.Parser
use streamserver_cvn.PacketV2.Parsing.{merge_header}
use streamserver_cvn.PacketV2.HeaderParsing.{with_controls}
use streamserver_cvn.PacketV2.Refusing.{parse_reserved}
use streamserver_cvn.PacketV2.Generator.{
  generate_adaptation_field, reject, wrong_count, put_controls, put_payload, Generated, accept,
  attempt, generate_contents, before_continuity_counter, in_adaptation_field, in_payload,
  generate_packet, appended, generate,
}
use streamserver_cvn.PacketV2.Generating.{
  attempt-ok, new_sink, generate_packet_start, Sink-WholeBytes, put_controls-Writes,
}
use streamserver_cvn.PacketV2.Generated.{
  three_bytes, header_sink, payload_sink, put_array-header_sink, flush-payload_sink,
  generate-accept,
}

module _ (p : PacketV2) (only : p.adaptation_field_control ≡ AdaptationFieldControl.payload_only)
    (full : length p.payload_data_bytes ≡ 184) where
  put_payload-header_sink :
      (a b c d : ℕ)
      → put_payload p (header_sink a b c d) ≡ ok tt (payload_sink a b c d p.payload_data_bytes)
  unfolding put_payload
  put_payload-header_sink a b c d =
      let size : (length p.payload_data_bytes == 184) ≡ true = ground arith in
      rw (only, size) (put_array-header_sink a b c d p.payload_data_bytes full)

  abbrev rest : BitStream → Generated
  rest =
      attempt in_adaptation_field
        (when (has_adaptation_field p) (generate_adaptation_field p.adaptation_field))
        (attempt in_payload (when (has_payload p) (put_payload p))
          λ s. if s.next == size_basic then accept s else reject wrong_count s)

  no_field :
      (s : BitStream)
      → when (has_adaptation_field p) (generate_adaptation_field p.adaptation_field) s ≡ ok tt s
  no_field s = rw only

  a_payload : (s : BitStream) → when (has_payload p) (put_payload p) s ≡ put_payload p s
  a_payload s = rw only

  generate_rest :
      (a b c d : ℕ)
      → rest (header_sink a b c d) ≡ accept (payload_sink a b c d p.payload_data_bytes)
  generate_rest a b c d =
      attempt-ok in_adaptation_field _ _ (no_field (header_sink a b c d))
      ∙ attempt-ok in_payload _ _
          (a_payload (header_sink a b c d) ∙ put_payload-header_sink a b c d)

-- The packet that is sent: its fourth byte is zero, and the byte that belongs there stands over the
-- last byte of the payload.
abbrev pub corrupted : ℕ → ℕ → ℕ → ℕ → Bytes → Bytes
corrupted a b c d payload = a ∷ b ∷ c ∷ 0 ∷ set payload 183 d

-- The generator accepts a packet with a payload only. The four bytes of its header are as the
-- standard lays them out, but only three of them are in their place.
pub generate_payload_only :
    (n : ℕ) (p : PacketV2)
    → IsPacket p
    → p.adaptation_field_control ≡ AdaptationFieldControl.payload_only
    → (a b c d : ℕ) × ((bytes_bits (a ∷ b ∷ c ∷ d ∷ [])
          ≡ (to_bits 8 p.sync_byte ++ pid_bits p) ++ control_bits p)
        × (All IsByte (a ∷ b ∷ c ∷ d ∷ [])
            × (generate n p ≡ appended (replicate n 0 ++ corrupted a b c d p.payload_data_bytes))))
generate_payload_only n p v only =
    let (s, (e, i)) = generate_packet_start p v.is_sync v.pid_lt in
    let other : is_null_packet p ≡ false = ground (arith, v.not_null) in
    let (t, (f, j)) =
      (put_controls-Writes p v.scrambling v.control v.counter_lt).run size_basic
        (to_bits 8 p.sync_byte ++ pid_bits p) s i (omega arith) in
    let w = Sink-WholeBytes 3 ((to_bits 8 p.sync_byte ++ pid_bits p) ++ control_bits p) t j refl in
    let (a, b, c, three) = three_bytes w.done w.length-done in
    let full : length p.payload_data_bytes ≡ 184 = (rw only at v.payload_length) refl in
    let here : t ≡ header_sink a b c w.c = w.at ∙ ap (λ x. sink x w.c 0 184) three in
    let run : generate_packet p new_sink ≡ accept (payload_sink a b c w.c p.payload_data_bytes) =
      e
      ∙ rw other
          (unfold generate_contents in attempt-ok before_continuity_counter (put_controls p) _ f)
      ∙ ap (rest p only full) here
      ∙ generate_rest p only full a b c w.c in
    (
      a,
      b,
      c,
      w.c,
      (
        ap (λ x. bytes_bits (x ++ w.c ∷ [])) (sym three) ∙ sym w.given,
        (
          subst (λ x. All IsByte (x ++ w.c ∷ [])) three w.are_bytes,
          generate-accept n p _ _ run (flush-payload_sink a b c w.c p.payload_data_bytes full),
        ),
      ),
    )

-- What the parser takes the header's zero byte for.
abbrev pub zero_controls : PacketV2 → PacketV2
zero_controls p = record p {
  transport_scrambling_control = TransportScramblingControl.not_scrambled;
  adaptation_field_control = AdaptationFieldControl.reserved;
  continuity_counter = 0;
}

-- No packet with a payload only survives the way through the generator and the parser: what the
-- generator appends, the parser with the same prefix length refuses, since the byte with the
-- adaptation field control is zero.
pub generate-parse_payload_only :
    (n : ℕ) (p q : PacketV2)
    → IsPacket p
    → p.adaptation_field_control ≡ AdaptationFieldControl.payload_only
    → (bytes : Bytes) × ((generate n p ≡ appended bytes)
        × (parse n bytes q
            ≡ Parser.reject
                (Parser.before_continuity_counter reserved_adaptation)
                (with_controls (zero_controls p) (merge_header p q))))
generate-parse_payload_only n p q v only =
    let (a, b, c, d, (bits, (are, e))) = generate_payload_only n p v only in
    let full : length p.payload_data_bytes ≡ 184 = (rw only at v.payload_length) refl in
    let payload = set p.payload_data_bytes 183 d in
    let size : length (corrupted a b c d p.payload_data_bytes) ≡ size_basic =
      omega (arith, length-set p.payload_data_bytes 183 d) in
    let payload_are : All IsByte payload =
      All-set IsByte p.payload_data_bytes 183 d v.are_payload_bytes are.1.1.1.0 in
    let three =
      append_injective (bytes_bits (a ∷ b ∷ c ∷ [])) (to_bits 8 p.sync_byte ++ pid_bits p) refl
        bits in
    let laid_out : bytes_bits (corrupted a b c d p.payload_data_bytes)
        ≡ to_bits 8 p.sync_byte
          ++ (pid_bits p ++ (control_bits (zero_controls p) ++ bytes_bits payload)) =
      ap (λ x. x ++ bytes_bits (0 ∷ payload)) three.0 in
    (
      replicate n 0 ++ corrupted a b c d p.payload_data_bytes,
      (
        e,
        rw (length-replicate {A = ℕ} n 0) at (
            parse_reserved (replicate n 0) (corrupted a b c d p.payload_data_bytes)
              (zero_controls p) q (bytes_bits payload) size
              (are.0, (are.1.0, (are.1.1.0, (omega arith, payload_are)))) v.is_sync v.pid_lt
              v.not_null (inr refl) (omega arith) laid_out),
      ),
    )
