-- ===== src/PacketV2/Parsing.antt =====
-- Whole packets: the parser reads back every packet that is laid out as the standard says.
use streamserver_cvn.Prelude.{
  ℕ, ◌+◌, ◌-◌, ◌<◌, ◌%◌, ◌^◌, ◌≡◌, refl, sym, ◌∙◌, Bool, true, false, List, [], ◌++◌, append-nil,
  arith, ◌==◌, if◌then◌else◌, length, length-append, drop-append, Bytes, All,
}
use streamserver_cvn.Prelude.Outcome.{ok}
use streamserver_cvn.Bits.{to_bits, bytes_bits, length-bytes_bits}
use streamserver_cvn.BitStream.{BitStream, stream_of, Error}
use streamserver_cvn.BitStream.Reading.{Holds, IsByte}
use streamserver_cvn.BitStream.Arrays.{stream_of-Holds, Holds-at_end}
use streamserver_cvn.PacketV2.{
  PacketV2, AdaptationField, AdaptationFieldControl, payload_size, control_has_field,
  control_has_payload, is_null_packet, size_basic,
}
use streamserver_cvn.PacketV2.Layout.{
  section, whole_field_bits, pid_bits, contents_bits, packet_bits, IsPacket,
}
use streamserver_cvn.PacketV2.Fill.{Cursor, Fill, read}
use streamserver_cvn.PacketV2.Filling.{at}
use streamserver_cvn.PacketV2.Parser.{
  Message, Parsed, accept, attempt, parse_end, parse_contents, parse_packet, parse,
}
use streamserver_cvn.PacketV2.ContentsParsing.{
  merge_whole_field, length-merge_whole_field, with_field, field-FillsAligned, with_payload,
  payload-FillsAligned,
}
use streamserver_cvn.PacketV2.HeaderParsing.{
  with_controls, read_sync_byte-Fills, read_pid-Fills, read_controls-Fills,
}

attempt-ok :
    (label : Error → Message) (m : Fill PacketV2) (next : Cursor PacketV2 → Parsed)
    {c d : Cursor PacketV2}
    → m c ≡ ok tt d
    → attempt label m next c ≡ next d
unfolding attempt
attempt-ok label m next e = rw (e, attempt)

-- What is in `q` once the parts of `p` behind the PID have been read into it.
abbrev pub merge_contents : PacketV2 → PacketV2 → PacketV2
merge_contents p q =
    with_payload (control_has_payload p.adaptation_field_control) p.payload_data_bytes (
      with_field (control_has_field p.adaptation_field_control) p.adaptation_field
        (with_controls p q))

payload_size-with_field :
    (c : AdaptationFieldControl) (f g : AdaptationField) (n : ℕ)
    → control_has_payload c ≡ true
    → n ≡ payload_size c f.adaptation_field_length
    → n
      ≡ payload_size c
          (if control_has_field c then merge_whole_field f g else g).adaptation_field_length
payload_size-with_field AdaptationFieldControl.adaptation_field_then_payload f g n h e =
    rw (length-merge_whole_field f g) e
payload_size-with_field _ f g n h e = e

whole_section : (b : Bool) (bytes : Bytes) → length (section b (bytes_bits bytes)) % 8 ≡ 0
whole_section true bytes = omega (arith, length-bytes_bits bytes)
whole_section false bytes = omega arith

parse_contents-layout :
    (p q : PacketV2) (s : BitStream)
    → IsPacket p
    → Holds s (contents_bits p)
    → parse_contents (at s q) ≡ accept (merge_contents p q)
unfolding parse_contents parse_end
parse_contents-layout p q s v h =
    let c = p.adaptation_field_control in
    let f = p.adaptation_field in
    let field = section (control_has_field c) (whole_field_bits f) in
    let payload = section (control_has_payload c) (bytes_bits p.payload_data_bytes) in
    let (t, e, h') = (read_controls-Fills p q v).run s (field ++ payload) h in
    let (u, e', h'') =
      (field-FillsAligned (control_has_field c) f (with_controls p q) refl v.whole_field).run t
        payload (whole_section (control_has_payload c) p.payload_data_bytes) h' in
    let (w, e'', end) =
      (payload-FillsAligned (control_has_payload c) p.payload_data_bytes
          (with_field (control_has_field c) f (with_controls p q)) refl
          (λ b.
            payload_size-with_field c f q.adaptation_field (length p.payload_data_bytes) b
              (v.payload_length b))
          v.are_payload_bytes).run
        u [] (omega arith)
        (record { reading = h''.reading; held = h''.held ∙ sym (append-nil payload) }) in
    attempt-ok _ _ _ e ∙ attempt-ok _ _ _ e' ∙ attempt-ok _ _ _ e'' ∙ rw (Holds-at_end w [] end)

-- The four fields that stand before the null packet test.
abbrev pub merge_header : PacketV2 → PacketV2 → PacketV2
merge_header p q = record q {
  sync_byte = p.sync_byte;
  transport_error_indicator = p.transport_error_indicator;
  payload_unit_start_indicator = p.payload_unit_start_indicator;
  transport_priority = p.transport_priority;
  pid = p.pid;
}

abbrev pub merge_packet : PacketV2 → PacketV2 → PacketV2
merge_packet p q = merge_contents p (merge_header p q)

pub parse_prefix :
    (prefix bytes : Bytes) (q : PacketV2)
    → length bytes ≡ size_basic
    → parse (length prefix) (prefix ++ bytes) q ≡ parse_packet (at (stream_of bytes) q)
unfolding parse
parse_prefix prefix bytes q size =
    let whole : (length (prefix ++ bytes) == length prefix + size_basic) ≡ true =
      ground (arith, length-append prefix bytes) in
    rw whole (rw (drop-append prefix bytes))

-- Up to the PID: a null packet is accepted there, any other goes on with its contents.
pub parse_packet_header :
    (bytes : Bytes) (p q : PacketV2) (rest : List Bool)
    → length bytes ≡ size_basic
    → All IsByte bytes
    → p.sync_byte ≡ 0x47
    → p.pid < 2 ^ 13
    → bytes_bits bytes ≡ to_bits 8 p.sync_byte ++ (pid_bits p ++ rest)
    → (s : BitStream) × (parse_packet (at (stream_of bytes) q) ≡ (
        if is_null_packet p
        then accept (merge_header p q)
        else parse_contents (at s (merge_header p q))))
      × Holds s rest
unfolding parse_packet
parse_packet_header bytes p q rest size are sync small e =
    let start : Holds (stream_of bytes) (to_bits 8 p.sync_byte ++ (pid_bits p ++ rest)) = record {
      reading = (stream_of-Holds bytes are).reading;
      held = e;
    } in
    let (s, read, h) =
      (read_sync_byte-Fills p q sync).run (stream_of bytes) (pid_bits p ++ rest) start in
    let (t, read', h') =
      (read_pid-Fills p (record q { sync_byte = p.sync_byte }) small).run s rest h in
    let full : (length bytes - 0 == size_basic) ≡ true = ground arith in
    (t, rw full (attempt-ok _ _ _ read ∙ attempt-ok _ _ _ read'), h')

module _ (prefix bytes : Bytes) (size : length bytes ≡ size_basic) (are : All IsByte bytes) where
  -- The parser accepts every packet that is laid out as the standard says, behind any prefix of the
  -- set length, and returns it: the parts that are there are those of the packet, all others are
  -- what the caller passed in.
  pub parse-layout :
      (p q : PacketV2)
      → IsPacket p
      → bytes_bits bytes ≡ packet_bits p
      → parse (length prefix) (prefix ++ bytes) q ≡ accept (merge_packet p q)
  parse-layout p q v e =
      let (s, go, h) =
        parse_packet_header bytes p q (contents_bits p) size are v.is_sync v.pid_lt e in
      let other : is_null_packet p ≡ false = ground (arith, v.not_null) in
      parse_prefix prefix bytes q size
      ∙ go
      ∙ rw other (parse_contents-layout p (merge_header p q) s v h)

  -- A null packet is accepted whatever stands behind its PID, and only its first fields are filled
  -- in.
  pub parse_null_packet :
      (p q : PacketV2) (rest : List Bool)
      → p.sync_byte ≡ 0x47
      → p.pid ≡ 0x1fff
      → bytes_bits bytes ≡ to_bits 8 p.sync_byte ++ (pid_bits p ++ rest)
      → parse (length prefix) (prefix ++ bytes) q ≡ accept (merge_header p q)
  parse_null_packet p q rest sync null e =
      let (s, go, h) = parse_packet_header bytes p q rest size are sync (omega arith) e in
      let same : is_null_packet p ≡ true = ground arith in
      parse_prefix prefix bytes q size ∙ go ∙ rw same
