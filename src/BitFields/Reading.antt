-- ===== src/BitFields/Reading.antt =====
-- Reading a field takes as many bits as the field is wide, and returns the number that they spell,
-- however the reads are split into bits and bytes.
use streamserver_cvn.Prelude.{
  ℕ, zero, suc, ◌+◌, ◌-◌, ◌*◌, ◌%◌, ◌^◌, ◌≤◌, ◌<◌, ◌≡◌, refl, sym, ap, ◌∙◌, Bool, true, false, ◌&&◌,
  List, [], ◌∷◌, ◌++◌, append_assoc, arith, leb, ◌==◌, length, length-append, length-take,
  length-drop, take-append-drop, take, drop, Bool-cases, inl, inr,
}
use native.Mathlib.Nat.{mod-eq_of_lt, pow-le-pow_right}
use streamserver_cvn.Prelude.Outcome.{ok, pure, ◌>>=◌}
use streamserver_cvn.Bits.{
  bit_value, to_bits, from_bits, from_bits_acc, from_bits-append, from_bits-to_bits, length-to_bits,
  pow_suc, pow_pos,
}
use streamserver_cvn.BitStream.{BitStream, is_byte_aligned, take_bit, take_byte_aligned}
use streamserver_cvn.BitStream.Reading.{
  length-remaining, bits_left-eq-zero, Holds, Reads, take_bit-Reads, take_byte_aligned-Reads,
}
use streamserver_cvn.BitStream.Arrays.{ReadsAligned}
use streamserver_cvn.BitFields.{take_loop, take_unsigned, take_signed, shift_in}

-- The working type has room for the value so far and `n` more bits.
abbrev Fits : ℕ → ℕ → ℕ → Type 0
Fits working tmp n = (tmp + 1) * 2 ^ n ≤ 2 ^ working

Fits-suc :
    (working tmp n bit : ℕ) → bit ≤ 1 → Fits working tmp (suc n) → Fits working (tmp * 2 + bit) n
Fits-suc working tmp n bit b h =
    let more : (tmp * 2 + bit + 1) * 2 ^ n ≤ (tmp * 2 + 2) * 2 ^ n = grind arith in
    omega (arith, rw (pow_suc n) at h)

Fits-lt : (working tmp n : ℕ) → Fits working tmp n → tmp < 2 ^ working
Fits-lt working tmp n h =
    let wide : (tmp + 1) * 1 ≤ (tmp + 1) * 2 ^ n = grind (arith, pow_pos n) in omega arith

Fits-from_bits :
    (working tmp : ℕ) (bs : List Bool) (n : ℕ)
    → Fits working tmp (length bs + n)
    → Fits working (from_bits tmp bs) n
Fits-from_bits working tmp [] n h = let e : 0 + n ≡ n = omega arith in rw e at h
Fits-from_bits working tmp (b ∷ bs) n h =
    let e : suc (length bs) + n ≡ suc (length bs + n) = omega arith in
    Fits-from_bits working (tmp * 2 + bit_value b) bs n
      (Fits-suc working tmp (length bs + n) (bit_value b) (ground arith) (rw e at h))

-- One round of the loop adds its bits to the value.
shift_in-from_bits :
    (working tmp : ℕ) (bs : List Bool) (n : ℕ)
    → Fits working tmp (length bs + n)
    → shift_in working tmp (2 ^ length bs) (from_bits 0 bs) ≡ from_bits tmp bs
shift_in-from_bits working tmp bs n h =
    let small = Fits-lt working (from_bits tmp bs) n (Fits-from_bits working tmp bs n h) in
    rw (← from_bits_acc tmp bs) (mod-eq_of_lt small)

module _ (s t : BitStream) (fuel working left tmp acc : ℕ) where
  take_loop_byte :
      (byte rest : ℕ)
      → (leb 8 (suc left) && is_byte_aligned s) ≡ true
      → take_byte_aligned s ≡ ok byte t
      → suc left - 8 ≡ rest
      → shift_in working tmp 256 byte ≡ acc
      → take_loop (suc fuel) working (suc left) tmp s ≡ take_loop fuel working rest acc t
  unfolding take_loop
  take_loop_byte byte rest l e count sum = rw l (rw (e, ◌>>=◌) (rw (count, sum)))

  take_loop_bit :
      (bit : Bool)
      → (leb 8 (suc left) && is_byte_aligned s) ≡ false
      → take_bit s ≡ ok bit t
      → shift_in working tmp 2 (bit_value bit) ≡ acc
      → take_loop (suc fuel) working (suc left) tmp s ≡ take_loop fuel working left acc t
  unfolding take_loop
  take_loop_bit bit l e sum = rw l (rw (e, ◌>>=◌) (rw sum))

take_loop_done : (fuel working tmp : ℕ) (s : BitStream) → take_loop fuel working 0 tmp s ≡ ok tmp s
unfolding take_loop
take_loop_done zero working tmp s = refl
take_loop_done (suc fuel) working tmp s = refl

from_bits_split :
    (tmp : ℕ) (bs : List Bool)
    → from_bits (from_bits tmp (take 8 bs)) (drop 8 bs) ≡ from_bits tmp bs
from_bits_split tmp bs =
    sym (from_bits-append tmp (take 8 bs) (drop 8 bs)) ∙ ap (from_bits tmp) (take-append-drop 8 bs)

Holds-split :
    (s : BitStream) (bs rest : List Bool)
    → Holds s (bs ++ rest)
    → Holds s (take 8 bs ++ (drop 8 bs ++ rest))
Holds-split s bs rest h = record {
  reading = h.reading;
  held =
      h.held
      ∙ ap (λ v. v ++ rest) (sym (take-append-drop 8 bs))
      ∙ append_assoc (take 8 bs) (drop 8 bs) rest;
}

split_eight : (bs : List Bool) → 8 ≤ length bs → length (take 8 bs) ≡ 8
split_eight bs h = omega (arith, length-take 8 bs)

pub take_loop-Reads :
    (fuel working tmp : ℕ) (bs : List Bool)
    → length bs ≤ fuel
    → Fits working tmp (length bs)
    → Reads (take_loop fuel working (length bs) tmp) bs (from_bits tmp bs)
take_loop-Reads fuel working tmp [] l h s rest held = (s, take_loop_done fuel working tmp s, held)
take_loop-Reads zero working tmp (b ∷ bs) l h s rest held = absurd (omega arith)
take_loop-Reads (suc fuel) working tmp (b ∷ bs) l h s rest held =
    elim (Bool-cases (leb 8 (suc (length bs)) && is_byte_aligned s)) [
      | inl bytewise ↦
          let xs = take 8 (b ∷ bs) in
          let ys = drop 8 (b ∷ bs) in
          let eight : length xs ≡ 8 = split_eight (b ∷ bs) (ground arith) in
          let count : length ys ≡ suc (length bs) - 8 = length-drop 8 (b ∷ bs) in
          let total : length xs + length ys ≡ suc (length bs) = ground (arith, eight, count) in
          let fits : Fits working tmp (length xs + length ys) = rw total h in
          let z : s.bits_left ≡ 0 = ground (arith, held.reading.in_byte) in
          let split = Holds-split s (b ∷ bs) rest held in
          let (t, e, held') = take_byte_aligned-Reads s xs (ys ++ rest) z eight split in
          let acc = from_bits tmp xs in
          let sum : shift_in working tmp 256 (from_bits 0 xs) ≡ acc =
            rw eight at (shift_in-from_bits working tmp xs (length ys) fits) in
          let (u, e', held'') =
            take_loop-Reads fuel working acc ys (omega arith)
              (Fits-from_bits working tmp xs (length ys) fits) t rest held' in
          (
            u,
            take_loop_byte s t fuel working (length bs) tmp acc (from_bits 0 xs) (length ys)
                  bytewise e (sym count) sum
                ∙ rw (← from_bits_split tmp (b ∷ bs)) e',
            held'',
          )
      | inr bitwise ↦
          let (t, e, held') = take_bit-Reads b s (bs ++ rest) held in
          let acc = tmp * 2 + bit_value b in
          let fits : Fits working acc (length bs) =
            Fits-suc working tmp (length bs) (bit_value b) (ground arith) h in
          let sum : shift_in working tmp 2 (bit_value b) ≡ acc =
            mod-eq_of_lt (Fits-lt working acc (length bs) fits) in
          let (u, e', held'') =
            take_loop-Reads fuel working acc bs (omega arith) fits t rest held' in
          (u, take_loop_bit s t fuel working (length bs) tmp acc b bitwise e sum ∙ e', held'')
    ]

Fits-zero : (working : ℕ) (bs : List Bool) → length bs ≤ working → Fits working 0 (length bs)
Fits-zero working bs h = omega (arith, pow-le-pow_right {n = 2} (omega arith) h)

take_two_bytes :
    (s t u : BitStream) (working high low : ℕ)
    → take_byte_aligned s ≡ ok high t
    → take_byte_aligned t ≡ ok low u
    → (take_byte_aligned >>= λ high.
          take_byte_aligned >>= λ low. pure (shift_in working high 256 low))
        s
      ≡ ok (shift_in working high 256 low) u
take_two_bytes s t u working high low e e' = rw (e, ◌>>=◌) (rw (e', ◌>>=◌))

module _ (working : ℕ) (bs : List Bool) (room : length bs ≤ working) where
  take_two_bytes-Reads :
      (s : BitStream) (rest : List Bool)
      → length bs ≡ 16
      → s.bits_left ≡ 0
      → Holds s (bs ++ rest)
      → (t : BitStream) × ((take_byte_aligned >>= λ high.
              take_byte_aligned >>= λ low. pure (shift_in working high 256 low))
            s
          ≡ ok (from_bits 0 bs) t)
        × Holds t rest
  take_two_bytes-Reads s rest l z h =
      let xs = take 8 bs in
      let ys = drop 8 bs in
      let first : length xs ≡ 8 = split_eight bs (omega arith) in
      let second : length ys ≡ 8 = omega (arith, length-drop 8 bs) in
      let (t, e, held) =
        take_byte_aligned-Reads s xs (ys ++ rest) z first (Holds-split s bs rest h) in
      let whole : length (ys ++ rest) % 8 ≡ 0 = omega (
        arith,
        length-remaining s,
        ap length h.held,
        length-append bs rest,
        length-append ys rest,
      ) in
      let (u, e', held') =
        take_byte_aligned-Reads t ys rest (bits_left-eq-zero t (ys ++ rest) held whole) second
          held in
      let fits : Fits working (from_bits 0 xs) (length ys + 0) =
        Fits-from_bits working 0 xs (length ys + 0) (
          let total : length xs + (length ys + 0) ≡ length bs = omega (arith, length-drop 8 bs) in
          rw total (Fits-zero working bs room)) in
      let sum : shift_in working (from_bits 0 xs) 256 (from_bits 0 ys) ≡ from_bits 0 bs =
        rw second at (shift_in-from_bits working (from_bits 0 xs) ys 0 fits)
        ∙ from_bits_split 0 bs in
      (
        u,
        take_two_bytes s t u working (from_bits 0 xs) (from_bits 0 ys) e e' ∙ ap (λ v. ok v u) sum,
        held',
      )

  -- The value of an unsigned field is the number that its bits spell.
  pub take_unsigned-Reads : Reads (take_unsigned working (length bs)) bs (from_bits 0 bs)
  unfolding take_unsigned
  take_unsigned-Reads s rest h = elim (Bool-cases (length bs == 8 && is_byte_aligned s)) [
    | inl byte ↦
        rw byte
          (take_byte_aligned-Reads s bs rest (ground (arith, h.reading.in_byte)) (ground arith) h)
    | inr other ↦ rw other (elim (Bool-cases (length bs == 16 && is_byte_aligned s)) [
      | inl two ↦
          rw two (take_two_bytes-Reads s rest (ground arith) (ground (arith, h.reading.in_byte)) h)
      | inr general ↦ rw general (
          take_loop-Reads (length bs) working 0 bs (omega arith) (Fits-zero working bs room) s rest
            h)
    ])
  ]

-- A number that fits the field is read back from its bits.
pub take_unsigned-to_bits :
    (working width v : ℕ)
    → width ≤ working
    → v < 2 ^ width
    → Reads (take_unsigned working width) (to_bits width v) v
take_unsigned-to_bits working width v room small s rest h =
    let e = length-to_bits width v in
    let (t, p, q) = take_unsigned-Reads working (to_bits width v) (rw e room) s rest h in
    (t, rw e at p ∙ ap (λ x. ok x t) (from_bits-to_bits width v ∙ mod-eq_of_lt small), q)

-- A signed byte between two bytes is read as its bit pattern.
pub take_signed-ReadsAligned : (v : ℕ) → v < 256 → ReadsAligned (take_signed 8 8) (to_bits 8 v) v
unfolding take_signed
take_signed-ReadsAligned v small s rest w h =
    let z = bits_left-eq-zero s (to_bits 8 v ++ rest) h (omega arith) in
    let (t, e, held) = take_byte_aligned-Reads s (to_bits 8 v) rest z refl h in
    let test : is_byte_aligned s ≡ true = rw z in
    let value : from_bits 0 (to_bits 8 v) ≡ v = from_bits-to_bits 8 v ∙ mod-eq_of_lt small in
    (t, rw test (e ∙ ap (λ x. ok x t) value), held)
