-- ===== src/TsPacket/View.antt =====
-- libmedia/tspacket.cpp: the constructor of `TSPacket` does not change the bytes of the packet.
use streamserver_cvn.Prelude.{
  ◌≡◌, refl, ◌∙◌, inl, inr, Bool, true, false, Bytes, arith, ◌==◌, if◌then◌else◌,
}
use streamserver_cvn.Prelude.Outcome.{
  Outcome, ok, err, pure, ◌>>=◌, get, modify, guard, when, Outcome-cases,
}
use streamserver_cvn.TsPacket.{AdaptationField, PacketError, empty_packet, pid_null_packet}
use streamserver_cvn.TsPacket.Packet.{
  PacketState, ParsePacket, check_field, parse_prefix, parse_sync_byte, parse_pid, parse_controls,
  parse_adaptation_field, parse_payload, parse_contents, parse_packet, packet_of, has_field,
  has_payload,
}

abbrev kept : {A : Type 0} → Outcome PacketError PacketState A → Bytes
kept (ok a s) = s.packet.bytes
kept (err e s) = s.packet.bytes

-- Code that leaves the bytes alone, whether it throws or not.
record Keeps {A : Type 0} (m : ParsePacket A) : Type 0 where
  keeps : (s : PacketState) → kept (m s) ≡ s.packet.bytes

>>=-Keeps :
    {A B : Type 0} (m : ParsePacket A) (f : A → ParsePacket B)
    → Keeps m
    → ((a : A) → Keeps (f a))
    → Keeps (m >>= f)
>>=-Keeps m f k l = record {
  keeps = λ s. elim (Outcome-cases (m s)) [
    | inl (a, t, e) ↦ rw (e, ◌>>=◌) ((l a).keeps t ∙ (let same = k.keeps s in rw e at same))
    | inr (x, t, e) ↦ rw (e, ◌>>=◌) (let same = k.keeps s in rw e at same)
  ];
}

guard-Keeps : (b : Bool) (e : PacketError) → Keeps (guard b e)
guard-Keeps true e = record { keeps = λ s. refl }
guard-Keeps false e = record { keeps = λ s. refl }

when-Keeps : (b : Bool) (m : ParsePacket (Unit {0})) → Keeps m → Keeps (when b m)
when-Keeps true m k = record { keeps = k.keeps }
when-Keeps false m k = record { keeps = λ s. refl }

check_field-Keeps : (f : AdaptationField) → Keeps (check_field f)
check_field-Keeps f = record { keeps = λ s. ground arith }

parse_controls-Keeps : Keeps parse_controls
unfolding parse_controls
parse_controls-Keeps = record { keeps = λ s. refl }

parse_pid-Keeps : Keeps parse_pid
unfolding parse_pid
parse_pid-Keeps = record { keeps = λ s. refl }

parse_sync_byte-Keeps : Keeps parse_sync_byte
unfolding parse_sync_byte
parse_sync_byte-Keeps = record { keeps = λ s. ground arith }

parse_prefix-Keeps : Keeps parse_prefix
unfolding parse_prefix
parse_prefix-Keeps = record { keeps = λ s. ground arith }

parse_payload-Keeps : Keeps parse_payload
unfolding parse_payload
parse_payload-Keeps = record { keeps = λ s. ground arith }

parse_adaptation_field-Keeps : Keeps parse_adaptation_field
unfolding parse_adaptation_field
parse_adaptation_field-Keeps = record { keeps = λ s. ground arith }

abbrev start_field : ParsePacket (Unit {0})
start_field = modify λ s. record s { packet = record s.packet { adaptation_field_index = s.index } }

start_field-Keeps : Keeps start_field
start_field-Keeps = record { keeps = λ s. refl }

abbrev start_payload : ParsePacket (Unit {0})
start_payload = modify λ s. record s { packet = record s.packet { payload_data_index = s.index } }

start_payload-Keeps : Keeps start_payload
start_payload-Keeps = record { keeps = λ s. refl }

parse_contents-Keeps : Keeps parse_contents
unfolding parse_contents
parse_contents-Keeps = >>=-Keeps parse_controls _ parse_controls-Keeps (λ u.
    >>=-Keeps start_field _ start_field-Keeps (λ u.
      >>=-Keeps (get λ (s : PacketState). s.packet) _ (record { keeps = λ s. refl })
        (λ p.
          >>=-Keeps (when (has_field p) parse_adaptation_field) _
            (when-Keeps (has_field p) _ parse_adaptation_field-Keeps)
            (λ u.
              >>=-Keeps start_payload _ start_payload-Keeps
                (λ u. when-Keeps (has_payload p) parse_payload parse_payload-Keeps)))))

pure_or_contents-Keeps : (b : Bool) → Keeps (if b then pure tt else parse_contents)
pure_or_contents-Keeps true = record { keeps = λ s. refl }
pure_or_contents-Keeps false = record { keeps = parse_contents-Keeps.keeps }

parse_packet-Keeps : Keeps parse_packet
unfolding parse_packet
parse_packet-Keeps = >>=-Keeps parse_prefix _ parse_prefix-Keeps (λ u.
    >>=-Keeps parse_sync_byte _ parse_sync_byte-Keeps (λ u.
      >>=-Keeps parse_pid _ parse_pid-Keeps (λ u.
        >>=-Keeps (get λ (s : PacketState). s.packet) _ (record { keeps = λ s. refl })
          (λ p. pure_or_contents-Keeps (p.pid == pid_null_packet)))))

-- A packet is a view of the bytes that it is constructed from: its bytes are those.
pub packet_of-bytes : (bytes : Bytes) → (packet_of bytes).bytes ≡ bytes
unfolding packet_of
packet_of-bytes bytes =
    let s : PacketState = record { index = 0; packet = empty_packet bytes } in
    let same = parse_packet-Keeps.keeps s in
    elim (Outcome-cases (parse_packet s)) [
      | inl (u, t, e) ↦ rw (e, packet_of) (rw e at same)
      | inr (x, t, e) ↦ rw (e, packet_of) (rw e at same)
    ]
