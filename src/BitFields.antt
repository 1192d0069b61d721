-- ===== src/BitFields.antt =====
-- libmedia/tsprimitive.h: `bslbf`, `uimsbf` and `tcimsbf` read from and written to a bit stream.
-- A width is `stream_bit_size`, and `working` is the bit size of the working type. A signed value
-- is its bit pattern in the working type.
pub mod Reading
pub mod Writing
use streamserver_cvn.Prelude.{
  ℕ, zero, suc, ◌+◌, ◌-◌, ◌*◌, ◌/◌, ◌%◌, ◌^◌, Bool, true, false, not, ◌&&◌, ltb, leb, ◌==◌,
  if◌then◌else◌,
}
use streamserver_cvn.Prelude.Outcome.{Outcome, ok, err, M, pure, throw, get, guard, ◌>>=◌, ◌>>◌}
use streamserver_cvn.Bits.{bit_at, bit_value}
use streamserver_cvn.BitStream.{
  BitStream, Stream, is_byte_aligned, take_bit, put_bit, take_byte_aligned, bit_out_of_range,
  no_sign_extension,
}

-- `tmp << k | low` in the working type.
abbrev pub shift_in : ℕ → ℕ → ℕ → ℕ → ℕ
shift_in working tmp scale low = (tmp * scale + low) % 2 ^ working

-- The loop of the general case; `fuel` bounds its rounds, of which there are at most `left`.
unfoldable pub take_loop : ℕ → ℕ → ℕ → ℕ → Stream ℕ
take_loop fuel working zero tmp = pure tmp
take_loop zero working (suc left) tmp = pure tmp
take_loop (suc fuel) working (suc left) tmp = do
  aligned ← get is_byte_aligned
  if leb 8 (suc left) && aligned
      then (take_byte_aligned >>= λ byte.
          take_loop fuel working (suc left - 8) (shift_in working tmp 256 byte))
      else (take_bit >>= λ bit.
          take_loop fuel working left (shift_in working tmp 2 (bit_value bit)))

-- `doInputFromBitStream` without sign extension.
unfoldable pub take_unsigned : ℕ → ℕ → Stream ℕ
take_unsigned working width = do
  aligned ← get is_byte_aligned
  if width == 8 && aligned
      then take_byte_aligned
      else if width == 16 && aligned
      then (take_byte_aligned >>= λ high.
          take_byte_aligned >>= λ low. pure (shift_in working high 256 low))
      else take_loop width working width 0

-- `doInputFromBitStream` with sign extension: all ones, or zero, by the first bit.
unfoldable pub take_signed : ℕ → ℕ → Stream ℕ
take_signed working width = do
  aligned ← get is_byte_aligned
  if width == 8 && aligned
      then take_byte_aligned
      else if width == 16 && aligned
      then (take_byte_aligned >>= λ high.
          take_byte_aligned >>= λ low. pure (shift_in working high 256 low))
      else (take_bit >>= λ sign.
          take_loop width working (width - 1) (if sign then 2 ^ working - 1 else 0))

-- `operator<<` of `bslbf`: the low bits of the value, from the mask's top bit down.
unfoldable pub put_bits : ℕ → ℕ → Stream (Unit {0})
put_bits zero value = pure tt
put_bits (suc n) value = do put_bit (bit_at value n); put_bits n value

-- `operator<<` of `uimsbf`: a set bit above the stream size is refused.
unfoldable pub put_unsigned : ℕ → ℕ → ℕ → Stream (Unit {0})
put_unsigned zero width value = pure tt
put_unsigned (suc n) width value =
    let rest = put_unsigned n width value in
    if ltb width (suc n)
    then (if bit_at value n then throw bit_out_of_range else rest)
    else (put_bit (bit_at value n) >> rest)

-- The rounds of `operator<<` of `tcimsbf` below the sign bit.
unfoldable pub put_signed_loop : ℕ → ℕ → Bool → ℕ → Stream (Unit {0})
put_signed_loop zero width sign value = pure tt
put_signed_loop (suc n) width sign value =
    let rest = put_signed_loop n width sign value in
    let bit = bit_at value n in
    if ltb (width - 1) (suc n)
    then (if (if bit then not sign else sign) then throw no_sign_extension else rest)
    else (put_bit bit >> rest)

-- `operator<<` of `tcimsbf`.
unfoldable pub put_signed : ℕ → ℕ → ℕ → Stream (Unit {0})
unfolding put_signed_loop
put_signed working width value =
    let sign = bit_at value (working - 1) in
    do put_bit sign; put_signed_loop (working - 1) width sign value
