-- ===== src/BitStream/Arrays.antt =====
-- Byte arrays taken from a stream that is only read, and its end.
use native.Mathlib.Nat.{mod-eq_of_lt}
use streamserver_cvn.Prelude.{
  ℕ, ◌+◌, ◌*◌, ◌%◌, ◌≤◌, ◌<◌, ◌≡◌, refl, sym, ap, ap₂, ◌∙◌, Bool, List, [], ◌∷◌, ◌++◌, arith, ◌==◌,
  length, length-append, length-drop, take, drop, drop_all, drop-drop, take-append-drop,
  length-take, All, All-take, All-drop, Bytes,
}
use streamserver_cvn.Prelude.Outcome.{ok}
use streamserver_cvn.Bits.{
  to_bits, from_bits, bytes_bits, length-bytes_bits, bytes_bits-append, from_bits-to_bits,
  append_injective,
}
use streamserver_cvn.BitStream.{
  BitStream, Stream, stream_of, take_byte_array_aligned, take_rest_aligned, bytes_left, at_end,
}
use streamserver_cvn.BitStream.Reading.{IsByte, Holds, length-remaining, bits_left-eq-zero}

to_bits_injective : (c d : ℕ) → c < 256 → d < 256 → to_bits 8 c ≡ to_bits 8 d → c ≡ d
to_bits_injective c d hc hd e =
    sym (mod-eq_of_lt hc)
    ∙ sym (from_bits-to_bits 8 c)
    ∙ ap (from_bits 0) e
    ∙ from_bits-to_bits 8 d
    ∙ mod-eq_of_lt hd

pub bytes_bits_injective :
    (cs ds : Bytes) → All IsByte cs → All IsByte ds → bytes_bits cs ≡ bytes_bits ds → cs ≡ ds
bytes_bits_injective [] [] a b e = refl
bytes_bits_injective [] (d ∷ ds) a b e = absurd (omega (arith, ap length e))
bytes_bits_injective (c ∷ cs) [] a b e = absurd (omega (arith, ap length e))
bytes_bits_injective (c ∷ cs) (d ∷ ds) a b e =
    let parts = append_injective (to_bits 8 c) (to_bits 8 d) refl e in
    ap₂ ◌∷◌ (to_bits_injective c d a.0 b.0 parts.0) (bytes_bits_injective cs ds a.1 b.1 parts.1)

-- As `Reads`, where what follows is whole bytes.
abbrev pub ReadsAligned : {A : Type 0} → Stream A → List Bool → A → Type 0
ReadsAligned m bits a =
    (s : BitStream) (rest : List Bool)
    → length rest % 8 ≡ 0
    → Holds s (bits ++ rest)
    → (t : BitStream) × (m s ≡ ok a t) × Holds t rest

take_array_result :
    (s : BitStream) (n : ℕ)
    → s.bits_left ≡ 0
    → n ≤ bytes_left s
    → take_byte_array_aligned n s
      ≡ ok (take n (drop s.next s.bytes)) (record s { next = s.next + n })
unfolding take_byte_array_aligned
take_array_result s n z h = ground arith

-- Between two bytes, `n` bytes are taken off, whatever bits they are.
pub take_byte_array_aligned-Holds :
    (n : ℕ) (s : BitStream) (bits rest : List Bool)
    → length bits ≡ 8 * n
    → length rest % 8 ≡ 0
    → Holds s (bits ++ rest)
    → (cs : Bytes) × (t : BitStream) × (take_byte_array_aligned n s ≡ ok cs t)
      × Holds t rest
      × (bytes_bits cs ≡ bits)
      × All IsByte cs
take_byte_array_aligned-Holds n s bits rest l m h =
    let d = drop s.next s.bytes in
    let z = bits_left-eq-zero s (bits ++ rest) h (omega (arith, length-append bits rest)) in
    let room : n ≤ bytes_left s =
      omega (arith, length-remaining s, ap length h.held, length-append bits rest) in
    let sent : bytes_bits (take n d) ++ bytes_bits (drop n d) ≡ bits ++ rest =
      sym (bytes_bits-append (take n d) (drop n d))
      ∙ ap bytes_bits (take-append-drop n d)
      ∙ rw z at h.held in
    let same_length : length (bytes_bits (take n d)) ≡ length bits =
      omega (arith, length-bytes_bits (take n d), length-take n d, length-drop s.next s.bytes) in
    let parts = append_injective (bytes_bits (take n d)) bits same_length sent in
    (
      take n d,
      record s { next = s.next + n },
      take_array_result s n z room,
      record {
        reading = record {
          is_clean = h.reading.is_clean;
          in_byte = h.reading.in_byte;
          in_bytes = omega (arith, h.reading.in_bytes);
          are_bytes = h.reading.are_bytes;
        };
        held = rw z (rw (← drop-drop n s.next s.bytes) parts.1);
      },
      parts.0,
      All-take IsByte n d (All-drop IsByte s.next s.bytes h.reading.are_bytes),
    )

-- An array of known length is taken off as it was sent.
pub take_byte_array_aligned-ReadsAligned :
    (cs : Bytes)
    → All IsByte cs
    → ReadsAligned (take_byte_array_aligned (length cs)) (bytes_bits cs) cs
take_byte_array_aligned-ReadsAligned cs a s rest m h =
    let (ds, t, e, held, same, are) =
      take_byte_array_aligned-Holds (length cs) s (bytes_bits cs) rest (length-bytes_bits cs) m h in
    (t, e ∙ ap (λ v. ok v t) (bytes_bits_injective ds cs are a same), held)

pub stream_of-Holds : (cs : Bytes) → All IsByte cs → Holds (stream_of cs) (bytes_bits cs)
stream_of-Holds cs a = record {
  reading = record {
    is_clean = refl;
    in_byte = omega arith;
    in_bytes = omega arith;
    are_bytes = a;
  };
  held = refl;
}

take_rest_result :
    (s : BitStream)
    → s.bits_left ≡ 0
    → take_rest_aligned s ≡ ok (drop s.next s.bytes) (record s { next = length s.bytes })
unfolding take_rest_aligned
take_rest_result s z = ground arith

-- All that is left, and the stream is at its end.
pub take_rest_aligned-Holds :
    (s : BitStream) (cs : Bytes)
    → All IsByte cs
    → Holds s (bytes_bits cs)
    → (t : BitStream) × (take_rest_aligned s ≡ ok cs t) × Holds t []
take_rest_aligned-Holds s cs a h =
    let z = bits_left-eq-zero s (bytes_bits cs) h (omega (arith, length-bytes_bits cs)) in
    let taken : drop s.next s.bytes ≡ cs =
      bytes_bits_injective (drop s.next s.bytes) cs
        (All-drop IsByte s.next s.bytes h.reading.are_bytes) a (rw z at h.held) in
    let t = record s { next = length s.bytes } in
    (
      t,
      take_rest_result s z ∙ ap (λ v. ok v t) taken,
      record {
        reading = record {
          is_clean = h.reading.is_clean;
          in_byte = h.reading.in_byte;
          in_bytes = omega arith;
          are_bytes = h.reading.are_bytes;
        };
        held = rw z (ap bytes_bits (drop_all (length s.bytes) s.bytes (omega arith)));
      },
    )

-- `atEnd()` says that no bit is left.
pub Holds-at_end : (s : BitStream) (bits : List Bool) → Holds s bits → at_end s ≡ (length bits == 0)
Holds-at_end s bits h = ground (arith, length-remaining s, ap length h.held)

pub bytes_left-Holds :
    (s : BitStream) (cs : Bytes) → Holds s (bytes_bits cs) → bytes_left s ≡ length cs
bytes_left-Holds s cs h =
    omega (arith, length-remaining s, ap length h.held, length-bytes_bits cs, h.reading.in_byte)
