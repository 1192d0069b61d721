-- ===== src/TsPacket/Placed.antt =====
-- libmedia/tspacket.cpp: an adaptation field whose flags have been read lies within its packet.
use streamserver_cvn.Prelude.{
  ℕ, suc, ◌+◌, ◌-◌, ◌/◌, ◌%◌, ◌^◌, ◌≤◌, ◌≡◌, refl, ◌⊎◌, inl, inr, Bool, true, false, not, [], ◌∷◌,
  none, some, arith, ltb, leb, ◌==◌, if◌then◌else◌, length, length-take, length-drop, drop, get_or,
  Bytes, Bool-cases, Option-cases,
}
use streamserver_cvn.Prelude.Outcome.{
  Outcome, ok, err, pure, ◌>>=◌, ◌>>◌, get, modify, guard, when, Outcome-cases,
}
use streamserver_cvn.TsPacket.{
  AdaptationField, PacketError, TsPacket, field_past_end, valid_adaptation_field, empty_packet,
  pid_null_packet, valid_continuity_counter, valid_payload_data, payload_past_end, ValidityType,
}
use streamserver_cvn.TsPacket.Parser.{mid, parse_field, adaptation_field_of}
use streamserver_cvn.TsPacket.Discontinuity.{adaptation_field_of-bytes}
use streamserver_cvn.TsPacket.Packet.{
  PacketState, ParsePacket, size, on_packet, check_field, parse_prefix, parse_sync_byte, parse_pid,
  parse_controls, parse_adaptation_field, parse_payload, parse_contents, parse_packet, packet_of,
  has_field, has_payload,
}

-- The adaptation field of a packet is none, or made of bytes that lie in the packet where it stands.
abbrev pub HasView : TsPacket → Type 0
HasView p =
    (p.adaptation_field ≡ none)
    ⊎ ((bytes : Bytes) × (p.adaptation_field ≡ some (adaptation_field_of bytes))
        × (has_field p ≡ true)
        × (length bytes ≤ length p.bytes - p.adaptation_field_index))

abbrev HasNone : TsPacket → Type 0
HasNone p = p.adaptation_field ≡ none

abbrev After : {A : Type 0} → (TsPacket → Type 0) → Outcome PacketError PacketState A → Type 0
After P (ok a s) = P s.packet
After P (err e s) = P s.packet

record Keeps {A : Type 0} (P : TsPacket → Type 0) (m : ParsePacket A) : Type 0 where
  keeps : (s : PacketState) → P s.packet → After P (m s)

>>=-Keeps :
    {A B : Type 0} (P : TsPacket → Type 0) (m : ParsePacket A) (f : A → ParsePacket B)
    → Keeps P m
    → ((a : A) → Keeps P (f a))
    → Keeps P (m >>= f)
>>=-Keeps P m f k l = record {
  keeps = λ s h. elim (Outcome-cases (m s)) [
    | inl (a, t, e) ↦ rw (e, ◌>>=◌) ((l a).keeps t (let x = k.keeps s h in rw e at x))
    | inr (x, t, e) ↦ rw (e, ◌>>=◌) (let x = k.keeps s h in rw e at x)
  ];
}

guard-Keeps : (P : TsPacket → Type 0) (b : Bool) (e : PacketError) → Keeps P (guard b e)
guard-Keeps P true e = record { keeps = λ s h. h }
guard-Keeps P false e = record { keeps = λ s h. h }

get-Keeps : {A : Type 0} (P : TsPacket → Type 0) (f : PacketState → A) → Keeps P (get f)
get-Keeps P f = record { keeps = λ s h. h }

abbrev validate : ValidityType → ParsePacket (Unit {0})
validate v = on_packet λ p. record p { validity = v }

validate-Keeps : (v : ValidityType) → Keeps HasView (validate v)
validate-Keeps v = record { keeps = λ s h. h }

-- What follows the field in `parse_adaptation_field`.
abbrev behind_field : AdaptationField → ℕ → ParsePacket (Unit {0})
behind_field f len = do
  check_field f
  modify λ s. record s { index = s.index + len }
  i ← get λ s. s.index
  n ← get size
  guard (not (ltb n i)) field_past_end
  on_packet λ p. record p { validity = valid_adaptation_field }

check_field-Keeps : (f : AdaptationField) → Keeps HasView (check_field f)
check_field-Keeps f = record {
  keeps = λ s h. elim (Option-cases f.error_message) [ inl q ↦ rw q h | inr (e, q) ↦ rw q h ];
}

behind_field-Keeps : (f : AdaptationField) (len : ℕ) → Keeps HasView (behind_field f len)
behind_field-Keeps f len = >>=-Keeps HasView (check_field f) _ (check_field-Keeps f) (λ u.
    >>=-Keeps HasView (modify λ (s : PacketState). record s { index = s.index + len }) _
      (record { keeps = λ s h. h })
      (λ u. >>=-Keeps HasView (get λ s. s.index) _ (get-Keeps HasView (λ s. s.index)) (λ i.
        >>=-Keeps HasView (get size) _ (get-Keeps HasView size) (λ n.
          >>=-Keeps HasView (guard (not (ltb n i)) field_past_end)
            (λ u. validate valid_adaptation_field)
            (guard-Keeps HasView (not (ltb n i)) field_past_end)
            (λ u. validate-Keeps valid_adaptation_field)))))

length-mid : (i n : ℕ) (xs : Bytes) → length (mid i n xs) ≤ length xs - i
length-mid i n xs = omega (arith, length-take n (drop i xs), length-drop i xs)

-- The field is made of the bytes where it stands.
field_step :
    (s : PacketState) → has_field s.packet ≡ true → After HasView (parse_adaptation_field s)
unfolding parse_adaptation_field
field_step s has =
    let i = s.packet.adaptation_field_index in
    let len = get_or s.packet.bytes s.index 0 in
    let bytes = mid i (1 + len) s.packet.bytes in
    let f = adaptation_field_of bytes in
    (behind_field-Keeps f len).keeps
      (record s { index = s.index + 1; packet = record s.packet { adaptation_field = some f } })
      (inr (bytes, refl, has, length-mid i (1 + len) s.packet.bytes))

when_field :
    (s : PacketState) (b : Bool)
    → has_field s.packet ≡ b
    → HasNone s.packet
    → After HasView (when b parse_adaptation_field s)
when_field s true has n = field_step s has
when_field s false has n = inl n

when-Keeps :
    (P : TsPacket → Type 0) (b : Bool) (m : ParsePacket (Unit {0})) → Keeps P m → Keeps P (when b m)
when-Keeps P true m k = record { keeps = k.keeps }
when-Keeps P false m k = record { keeps = λ s h. h }

parse_payload-Keeps : Keeps HasView parse_payload
unfolding parse_payload
parse_payload-Keeps =
    >>=-Keeps HasView (get λ s. s.index) _ (get-Keeps HasView (λ s. s.index)) (λ i.
      >>=-Keeps HasView (get size) _ (get-Keeps HasView size) (λ n.
        >>=-Keeps HasView (guard (leb i n) payload_past_end) (λ u. validate valid_payload_data)
          (guard-Keeps HasView (leb i n) payload_past_end)
          (λ u. validate-Keeps valid_payload_data)))

abbrev behind : TsPacket → ParsePacket (Unit {0})
behind p = do
  modify λ s. record s { packet = record s.packet { payload_data_index = s.index } }
  when (has_payload p) parse_payload

behind-Keeps : (p : TsPacket) → Keeps HasView (behind p)
behind-Keeps p =
    >>=-Keeps HasView
      (modify
        λ (s : PacketState). record s { packet = record s.packet { payload_data_index = s.index } })
      _ (record { keeps = λ s h. h })
      (λ u. when-Keeps HasView (has_payload p) parse_payload parse_payload-Keeps)

-- From the field on.
from_field :
    (s : PacketState)
    → HasNone s.packet
    → After HasView ((when (has_field s.packet) parse_adaptation_field >> behind s.packet) s)
from_field s n =
    let h = when_field s (has_field s.packet) refl n in
    elim (Outcome-cases (when (has_field s.packet) parse_adaptation_field s)) [
      | inl (u, t, e) ↦ rw (e, ◌>>=◌) ((behind-Keeps s.packet).keeps t (let x = rw e at h in x))
      | inr (x, t, e) ↦ rw (e, ◌>>=◌) (let x = rw e at h in x)
    ]

contents_step : (s : PacketState) → HasNone s.packet → After HasView (parse_contents s)
unfolding parse_contents parse_controls
contents_step s n =
    let byte = get_or s.packet.bytes s.index 0 in
    from_field
      (record {
        index = s.index + 1;
        packet = record s.packet {
          tsc = byte / 2 ^ 6 % 2 ^ 2;
          adaptation_field_control = byte / 2 ^ 4 % 2 ^ 2;
          continuity_counter = byte % 2 ^ 4;
          validity = valid_continuity_counter;
          adaptation_field_index = s.index + 1;
        };
      })
      n

parse_prefix-Keeps : Keeps HasNone parse_prefix
unfolding parse_prefix
parse_prefix-Keeps = record { keeps = λ s h. ground arith }

parse_sync_byte-Keeps : Keeps HasNone parse_sync_byte
unfolding parse_sync_byte
parse_sync_byte-Keeps = record { keeps = λ s h. ground arith }

parse_pid-Keeps : Keeps HasNone parse_pid
unfolding parse_pid
parse_pid-Keeps = record { keeps = λ s h. h }

-- From no field to a view.
record Makes {A : Type 0} (m : ParsePacket A) : Type 0 where
  makes : (s : PacketState) → HasNone s.packet → After HasView (m s)

bind-Makes :
    {A B : Type 0} (m : ParsePacket A) (f : A → ParsePacket B)
    → Keeps HasNone m
    → ((a : A) → Makes (f a))
    → Makes (m >>= f)
bind-Makes m f k l = record {
  makes = λ s h. elim (Outcome-cases (m s)) [
    | inl (a, t, e) ↦ rw (e, ◌>>=◌) ((l a).makes t (let x = k.keeps s h in rw e at x))
    | inr (x, t, e) ↦ rw (e, ◌>>=◌) (inl (let x = k.keeps s h in rw e at x))
  ];
}

pure_or_contents-Makes : (b : Bool) → Makes (if b then pure tt else parse_contents)
pure_or_contents-Makes true = record { makes = λ s h. inl h }
pure_or_contents-Makes false = record { makes = contents_step }

parse_packet-Makes : Makes parse_packet
unfolding parse_packet
parse_packet-Makes = bind-Makes parse_prefix _ parse_prefix-Keeps (λ u.
    bind-Makes parse_sync_byte _ parse_sync_byte-Keeps (λ u.
      bind-Makes parse_pid _ parse_pid-Keeps (λ u.
        bind-Makes (get λ (s : PacketState). s.packet) _ (get-Keeps HasNone (λ s. s.packet))
          (λ p. pure_or_contents-Makes (p.pid == pid_null_packet)))))

pub packet_of-HasView : (bytes : Bytes) → HasView (packet_of bytes)
unfolding packet_of
packet_of-HasView bytes =
    let s : PacketState = record { index = 0; packet = empty_packet bytes } in
    let view = parse_packet-Makes.makes s refl in
    elim (Outcome-cases (parse_packet s)) [
      | inl (u, t, e) ↦ rw (e, packet_of) (rw e at view)
      | inr (x, t, e) ↦ rw (e, packet_of) (rw e at view)
    ]

no_flags-nil : (adaptation_field_of []).pcr_flag ≡ false
unfolding adaptation_field_of parse_field
no_flags-nil = refl

no_flags-one : (len : ℕ) → (adaptation_field_of (len ∷ [])).pcr_flag ≡ false
unfolding adaptation_field_of parse_field
no_flags-one len = elim (Bool-cases (1 == 1 + len)) [
  | inl q ↦ rw (q, adaptation_field_of, parse_field, ◌>>=◌) refl
  | inr q ↦ rw (q, adaptation_field_of, parse_field, ◌>>=◌) refl
]

no_flags-mismatch :
    (len flags : ℕ) (rest : Bytes)
    → (suc (suc (length rest)) == 1 + len) ≡ false
    → (adaptation_field_of (len ∷ flags ∷ rest)).pcr_flag ≡ false
unfolding adaptation_field_of parse_field
no_flags-mismatch len flags rest q =
    let some_bytes : (suc (suc (length rest)) == 0) ≡ false = ground arith in
    rw (some_bytes, adaptation_field_of, parse_field, ◌>>=◌) (rw (q, ◌>>=◌) refl)

matching : (len n : ℕ) → (suc (suc n) == 1 + len) ≡ true → len ≡ 1 + n
matching len n h = ground arith

-- An adaptation field with a clock reference has its flags, and keeps the bytes it is made of.
pub clocked_bytes :
    (bytes : Bytes)
    → (adaptation_field_of bytes).pcr_flag ≡ true
    → (len flags : ℕ) × (rest : Bytes) × (bytes ≡ len ∷ flags ∷ rest)
      × ((adaptation_field_of bytes).bytes ≡ bytes)
clocked_bytes [] h = absurd (let e = no_flags-nil in cc)
clocked_bytes (len ∷ []) h = absurd (let e = no_flags-one len in cc)
clocked_bytes (len ∷ flags ∷ rest) h = elim (Bool-cases (suc (suc (length rest)) == 1 + len)) [
  | inl q ↦
      let fits = matching len (length rest) q in
      (len, flags, rest, refl, adaptation_field_of-bytes len rest fits true flags)
  | inr q ↦ absurd (let e = no_flags-mismatch len flags rest q in cc)
]
