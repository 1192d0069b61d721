-- ===== src/PacketV2/Generated.antt =====
-- What `PacketV2Generator::generate` appends, and what the parser says to it.
use streamserver_cvn.Prelude.{
  ℕ, ◌+◌, ◌≡◌, refl, sym, ap, ◌∙◌, true, false, [], ◌∷◌, ◌++◌, append_assoc, append-nil, arith, leb,
  ◌==◌, length, length-append, length-replicate, replicate, set, Bytes, All, All-append,
  All-replicate,
}
use streamserver_cvn.Prelude.Outcome.{ok}
use streamserver_cvn.Bits.{to_bits, bytes_bits, bytes_bits-append}
use streamserver_cvn.BitStream.{BitStream, flush, put_byte_array_aligned}
use streamserver_cvn.BitStream.Reading.{IsByte}
use streamserver_cvn.BitStream.Writing.{sink, flushed, flush-sink}
use streamserver_cvn.PacketV2.{PacketV2, is_null_packet, size_basic}
use streamserver_cvn.PacketV2.Layout.{pid_bits}
use streamserver_cvn.PacketV2.Parser.{parse}
use streamserver_cvn.PacketV2.Parser
use streamserver_cvn.PacketV2.Parsing.{parse_null_packet, merge_header}
use streamserver_cvn.PacketV2.Generator.{accept, generate_packet, appended, bytes_of, generate}
use streamserver_cvn.PacketV2.Generating.{new_sink, generate_packet_start, Sink-WholeBytes}

pub generate-accept :
    (n : ℕ) (p : PacketV2) (s t : BitStream)
    → generate_packet p new_sink ≡ accept s
    → flush s ≡ ok tt t
    → generate n p ≡ appended (replicate n 0 ++ t.bytes)
unfolding generate bytes_of
generate-accept n p s t e f = rw (e, generate) (rw (f, bytes_of))

-- A null packet is generated as its first three bytes and 185 zero bytes, behind the prefix, and the
-- parser with the same prefix length accepts it and returns those fields.
pub generate-parse_null_packet :
    (n : ℕ) (p q : PacketV2)
    → p.sync_byte ≡ 0x47
    → p.pid ≡ 0x1fff
    → (bytes : Bytes) × ((generate n p ≡ appended bytes)
        × (parse n bytes q ≡ Parser.accept (merge_header p q)))
generate-parse_null_packet n p q sync null =
    let (t, (e, i)) = generate_packet_start p sync (omega arith) in
    let same : is_null_packet p ≡ true = ground arith in
    let w = Sink-WholeBytes 2 (to_bits 8 p.sync_byte ++ pid_bits p) t i refl in
    let packet = w.done ++ w.c ∷ replicate 185 0 in
    let joined : packet ≡ (w.done ++ w.c ∷ []) ++ replicate 185 0 =
      sym (append_assoc w.done (w.c ∷ []) (replicate 185 0)) in
    let size : length packet ≡ size_basic =
      omega (arith, length-append w.done (w.c ∷ replicate 185 0), w.length-done) in
    let are : All IsByte packet = rw joined (
      All-append IsByte (w.done ++ w.c ∷ []) (replicate 185 0) w.are_bytes
        (All-replicate IsByte 185 0 (omega arith))) in
    let bits : bytes_bits packet
        ≡ to_bits 8 p.sync_byte ++ (pid_bits p ++ bytes_bits (replicate 185 0)) =
      ap bytes_bits joined
      ∙ bytes_bits-append (w.done ++ w.c ∷ []) (replicate 185 0)
      ∙ ap (λ x. x ++ bytes_bits (replicate 185 0)) (sym w.given)
      ∙ append_assoc (to_bits 8 p.sync_byte) (pid_bits p) (bytes_bits (replicate 185 0)) in
    (
      replicate n 0 ++ packet,
      (
        generate-accept n p t (flushed w.done w.c 0 185) (rw same at e)
            (ap flush w.at ∙ flush-sink w.done w.c 0 185),
        rw (length-replicate {A = ℕ} n 0) at (
            parse_null_packet (replicate n 0) packet size are p q (bytes_bits (replicate 185 0))
              sync null bits),
      ),
    )

pub three_bytes : (xs : Bytes) → length xs ≡ 3 → (a b c : ℕ) × (xs ≡ a ∷ b ∷ c ∷ [])
three_bytes (a ∷ b ∷ c ∷ []) h = (a, b, c, refl)
three_bytes [] h = absurd (omega arith)
three_bytes (a ∷ []) h = absurd (omega arith)
three_bytes (a ∷ b ∷ []) h = absurd (omega arith)
three_bytes (a ∷ b ∷ c ∷ d ∷ xs) h = absurd (omega arith)

abbrev pub header_sink : ℕ → ℕ → ℕ → ℕ → BitStream
header_sink a b c d = sink (a ∷ b ∷ c ∷ []) d 0 184

abbrev pub payload_sink : ℕ → ℕ → ℕ → ℕ → Bytes → BitStream
payload_sink a b c d payload = record (header_sink a b c d) {
  bytes = a ∷ b ∷ c ∷ 0 ∷ payload;
  next = 188;
}

module _ (a b c d : ℕ) (payload : Bytes) (full : length payload ≡ 184) where
  pub put_array-header_sink :
      put_byte_array_aligned payload (header_sink a b c d) ≡ ok tt (payload_sink a b c d payload)
  unfolding put_byte_array_aligned
  put_array-header_sink =
      let some_bytes : (length payload == 0) ≡ false = ground arith in
      let fits : leb (length payload) 184 ≡ true = ground arith in
      let end : 4 + length payload ≡ 188 = omega arith in
      rw (some_bytes, fits, end, append-nil payload)

  pub flush-payload_sink :
      flush (payload_sink a b c d payload)
      ≡ ok tt (record (payload_sink a b c d payload) {
        bytes = a ∷ b ∷ c ∷ 0 ∷ set payload 183 d;
        is_dirty = false;
        cur_byte = 0;
      })
  unfolding flush
  flush-payload_sink =
      let there : leb 188 (length (a ∷ b ∷ c ∷ 0 ∷ payload)) ≡ true = ground arith in rw there
