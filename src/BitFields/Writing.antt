-- ===== src/BitFields/Writing.antt =====
-- Writing a field puts the bits of its number.
use native.Mathlib.Nat.{div-eq_of_lt, pow-le-pow_right}
use streamserver_cvn.Prelude.{
  ℕ, zero, suc, ◌/◌, ◌^◌, ◌≤◌, ◌<◌, ◌≡◌, inl, inr, true, false, arith, ltb, Bool-cases,
}
use streamserver_cvn.Prelude.Outcome.{◌>>◌}
use streamserver_cvn.Bits.{bit_at, to_bits}
use streamserver_cvn.BitStream.{put_bit}
use streamserver_cvn.BitStream.Writing.{Writes}
use streamserver_cvn.BitStream.Putting.{put_bit-Writes, pure-Writes, then-Writes}
use streamserver_cvn.BitFields.{put_bits, put_unsigned}

-- `operator<<` of `bslbf` puts the low bits, the most significant first.
pub put_bits-Writes : (width v : ℕ) → Writes (put_bits width v) (to_bits width v)
unfolding put_bits
put_bits-Writes zero v = pure-Writes
put_bits-Writes (suc n) v = then-Writes (put_bit-Writes (bit_at v n)) (put_bits-Writes n v)

div_small : (v n width : ℕ) → v < 2 ^ width → width ≤ n → bit_at v n ≡ false
div_small v n width small h =
    let quotient : v / 2 ^ n ≡ 0 =
      div-eq_of_lt (omega (arith, pow-le-pow_right {n = 2} (omega arith) h)) in
    rw quotient

put_above :
    (n width v : ℕ)
    → v < 2 ^ width
    → width ≤ n
    → put_unsigned (suc n) width v ≡ put_unsigned n width v
unfolding put_unsigned
put_above n width v small h =
    let above : ltb width (suc n) ≡ true = ground arith in rw (above, div_small v n width small h)

put_inside :
    (n width v : ℕ)
    → suc n ≤ width
    → put_unsigned (suc n) width v ≡ (put_bit (bit_at v n) >> put_unsigned n width v)
unfolding put_unsigned
put_inside n width v h = let inside : ltb width (suc n) ≡ false = ground arith in rw inside

put_low : (n width v : ℕ) → n ≤ width → Writes (put_unsigned n width v) (to_bits n v)
put_low zero width v h = unfold put_unsigned in pure-Writes
put_low (suc n) width v h =
    rw (put_inside n width v h)
      (then-Writes (put_bit-Writes (bit_at v n)) (put_low n width v (omega arith)))

-- `operator<<` of `uimsbf` puts a number that fits as its bits, and no bit of the working type above
-- them.
pub put_unsigned-Writes :
    (working width v : ℕ)
    → width ≤ working
    → v < 2 ^ width
    → Writes (put_unsigned working width v) (to_bits width v)
put_unsigned-Writes zero width v h small =
    let none : width ≡ 0 = omega arith in rw none (unfold put_unsigned in pure-Writes)
put_unsigned-Writes (suc n) width v h small = elim (Bool-cases (ltb n width)) [
  | inl full ↦
      let same : width ≡ suc n = ground arith in rw same (put_low (suc n) (suc n) v (omega arith))
  | inr less ↦
      rw (put_above n width v small (ground arith))
        (put_unsigned-Writes n width v (ground arith) small)
]
