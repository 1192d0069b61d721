-- ===== src/BitStream/Reading.antt =====
-- A stream that is only read stands for the bits that are still to come. Each operation that takes
-- bits is described by the bits that it takes and the value that it returns.
use native.Mathlib.Nat.{mod-eq_of_lt}
use streamserver_cvn.Prelude.{
  ℕ, zero, suc, ◌+◌, ◌-◌, ◌*◌, ◌%◌, ◌^◌, ◌≤◌, ◌<◌, ◌≡◌, refl, sym, ap, ◌∙◌, Bool, false, List, [],
  ◌∷◌, ◌++◌, arith, length, length-append, length-drop, get_or, drop, drop_step, All, All-get_or,
}
use streamserver_cvn.Prelude.Outcome.{ok, ◌>>=◌}
use streamserver_cvn.Bits.{
  bit_at, to_bits, from_bits, bytes_bits, length-to_bits, length-bytes_bits, from_bits-to_bits,
  append_injective,
}
use streamserver_cvn.BitStream.{
  BitStream, Stream, refill, next_byte, flush, take_bit, take_byte_aligned, bytes_left,
}

abbrev pub IsByte : ℕ → Type 0
IsByte c = c < 256

abbrev pub remaining : BitStream → List Bool
remaining s = to_bits s.bits_left s.cur_byte ++ bytes_bits (drop s.next s.bytes)

-- A stream that nothing was written to, between two operations.
pub record IsReading (s : BitStream) : Type 0 where
  pub is_clean : s.is_dirty ≡ false
  pub in_byte : s.bits_left < 8
  pub in_bytes : s.next ≤ length s.bytes
  pub are_bytes : All IsByte s.bytes

pub record Holds (s : BitStream) (bits : List Bool) : Type 0 where
  pub reading : IsReading s
  pub held : remaining s ≡ bits

-- `m` takes exactly `bits` off the stream, whatever follows, and returns `a`.
abbrev pub Reads : {A : Type 0} → Stream A → List Bool → A → Type 0
Reads m bits a =
    (s : BitStream) (rest : List Bool)
    → Holds s (bits ++ rest)
    → (t : BitStream) × (m s ≡ ok a t) × Holds t rest

pub length-remaining : (s : BitStream) → length (remaining s) ≡ s.bits_left + 8 * bytes_left s
length-remaining s = omega (
  arith,
  length-append (to_bits s.bits_left s.cur_byte) (bytes_bits (drop s.next s.bytes)),
  length-to_bits s.bits_left s.cur_byte,
  length-bytes_bits (drop s.next s.bytes),
  length-drop s.next s.bytes,
)

-- Between two bytes, with bits to come, there is a next byte.
pub next_lt :
    (s : BitStream) (bits : List Bool)
    → Holds s bits
    → s.bits_left ≡ 0
    → 0 < length bits
    → s.next < length s.bytes
next_lt s bits h z p = omega (arith, length-remaining s, ap length h.held)

pub remaining_byte :
    (s : BitStream) (bits : List Bool)
    → Holds s bits
    → s.bits_left ≡ 0
    → 0 < length bits
    → bits ≡ to_bits 8 (get_or s.bytes s.next 0) ++ bytes_bits (drop (s.next + 1) s.bytes)
remaining_byte s bits h z p = sym h.held ∙ rw (z, drop_step s.next s.bytes 0 (next_lt s bits h z p))

abbrev fetched : BitStream → BitStream
fetched s = record s { next = s.next + 1; cur_byte = get_or s.bytes s.next 0; bits_left = 8 }

refill-fetched :
    (s : BitStream)
    → s.is_dirty ≡ false
    → s.bits_left ≡ 0
    → s.next < length s.bytes
    → refill s ≡ ok tt (fetched s)
unfolding refill next_byte flush
refill-fetched s c z p = ground arith

refill_idle : (s : BitStream) → 0 < s.bits_left → refill s ≡ ok tt s
unfolding refill next_byte flush
refill_idle s p = ground arith

take_bit_first :
    (s : BitStream)
    → s.is_dirty ≡ false
    → s.bits_left ≡ 0
    → s.next < length s.bytes
    → take_bit s ≡ ok (bit_at (get_or s.bytes s.next 0) 7) (record (fetched s) { bits_left = 7 })
unfolding take_bit
take_bit_first s c z p = rw (refill-fetched s c z p, ◌>>=◌)

take_bit_later :
    (s : BitStream) (n : ℕ)
    → s.bits_left ≡ suc n
    → take_bit s ≡ ok (bit_at s.cur_byte n) (record s { bits_left = n })
unfolding take_bit
take_bit_later s n e =
    let left : suc n - 1 ≡ n = omega arith in rw (refill_idle s (omega arith), ◌>>=◌) (rw (e, left))

take_bit-Reads_at :
    (s : BitStream) (n : ℕ) (b : Bool) (rest : List Bool)
    → s.bits_left ≡ n
    → Holds s (b ∷ rest)
    → (t : BitStream) × (take_bit s ≡ ok b t) × Holds t rest
take_bit-Reads_at s zero b rest z h =
    let p = next_lt s (b ∷ rest) h z (omega arith) in
    let parts = remaining_byte s (b ∷ rest) h z (omega arith) in
    (
      record (fetched s) { bits_left = 7 },
      take_bit_first s h.reading.is_clean z p ∙ cc parts,
      record {
        reading = record {
          is_clean = h.reading.is_clean;
          in_byte = omega arith;
          in_bytes = omega arith;
          are_bytes = h.reading.are_bytes;
        };
        held = cc parts;
      },
    )
take_bit-Reads_at s (suc n) b rest e h =
    let parts : bit_at s.cur_byte n ∷ (to_bits n s.cur_byte ++ bytes_bits (drop s.next s.bytes))
        ≡ b ∷ rest =
      rw e at h.held in
    (
      record s { bits_left = n },
      take_bit_later s n e ∙ cc parts,
      record {
        reading = record {
          is_clean = h.reading.is_clean;
          in_byte = omega (arith, h.reading.in_byte);
          in_bytes = h.reading.in_bytes;
          are_bytes = h.reading.are_bytes;
        };
        held = cc parts;
      },
    )

-- One bit is taken off the front.
pub take_bit-Reads : (b : Bool) → Reads take_bit (b ∷ []) b
take_bit-Reads b s rest h = take_bit-Reads_at s s.bits_left b rest refl h

take_byte_aligned-fetched :
    (s : BitStream)
    → s.is_dirty ≡ false
    → s.bits_left ≡ 0
    → s.next < length s.bytes
    → take_byte_aligned s ≡ ok (get_or s.bytes s.next 0) (record (fetched s) { bits_left = 0 })
unfolding take_byte_aligned
take_byte_aligned-fetched s c z p = rw (refill-fetched s c z p, ◌>>=◌)

-- Between two bytes, eight bits are taken off the front as one number.
pub take_byte_aligned-Reads :
    (s : BitStream) (bits rest : List Bool)
    → s.bits_left ≡ 0
    → length bits ≡ 8
    → Holds s (bits ++ rest)
    → (t : BitStream) × (take_byte_aligned s ≡ ok (from_bits 0 bits) t) × Holds t rest
take_byte_aligned-Reads s bits rest z l h =
    let c = get_or s.bytes s.next 0 in
    let more : 0 < length (bits ++ rest) = omega (arith, length-append bits rest) in
    let p = next_lt s (bits ++ rest) h z more in
    let parts =
      append_injective bits (to_bits 8 c) (l ∙ sym (length-to_bits 8 c))
        (remaining_byte s (bits ++ rest) h z more) in
    let small : c % 2 ^ 8 ≡ c =
      mod-eq_of_lt (All-get_or IsByte s.bytes s.next 0 h.reading.are_bytes p) in
    (
      record (fetched s) { bits_left = 0 },
      take_byte_aligned-fetched s h.reading.is_clean z p
          ∙ ap (λ v. ok v (record (fetched s) { bits_left = 0 }))
              (sym (ap (from_bits 0) parts.0 ∙ from_bits-to_bits 8 c ∙ small)),
      record {
        reading = record {
          is_clean = h.reading.is_clean;
          in_byte = omega arith;
          in_bytes = omega arith;
          are_bytes = h.reading.are_bytes;
        };
        held = sym parts.1;
      },
    )

pub bits_left-eq-zero :
    (s : BitStream) (bits : List Bool) → Holds s bits → length bits % 8 ≡ 0 → s.bits_left ≡ 0
bits_left-eq-zero s bits h a =
    omega (arith, length-remaining s, ap length h.held, h.reading.in_byte)
