-- ===== src/Tests/Streams.antt =====
-- The bit stream and the fields on small inputs.
use streamserver_cvn.Prelude.{◌≡◌, refl, false, [], ◌∷◌, ◌++◌, arith, Bytes}
use streamserver_cvn.Prelude.Outcome.{Outcome, ok, err, ◌>>=◌, ◌>>◌}
use streamserver_cvn.Tests.{All-IsByte}
use streamserver_cvn.Bits.{bytes_bits, to_bits}
use streamserver_cvn.BitStream.{
  BitStream, Error, stream_of, next_byte, refill, take_bit, put_bit, flush, take_byte_aligned,
  put_byte_array_aligned, at_end,
}
use streamserver_cvn.BitStream.Reading.{Holds}
use streamserver_cvn.BitStream.Arrays.{stream_of-Holds, Holds-at_end}
use streamserver_cvn.BitFields.{take_loop, take_unsigned, put_unsigned}
use streamserver_cvn.BitFields.Reading.{take_unsigned-to_bits}

abbrev value_of : {A : Type 0} → A → Outcome Error BitStream A → A
value_of d (ok a s) = a
value_of d (err e s) = d

abbrev bytes_of : Outcome Error BitStream (Unit {0}) → Bytes
bytes_of (ok a s) = s.bytes
bytes_of (err e s) = []

-- Three flags and a PID.
take_13 :
    value_of 0 (
      (take_bit >>= λ a. take_bit >>= λ b. take_bit >>= λ c. take_unsigned 16 13)
        (stream_of (0xff ∷ 0x34 ∷ [])))
    ≡ 0x1f34
unfolding take_unsigned take_loop take_byte_aligned take_bit refill next_byte flush
take_13 = refl

put_17 :
    bytes_of
      ((put_unsigned 8 8 0x47 >> put_unsigned 16 9 0x134 >> flush) (stream_of (0 ∷ 0 ∷ 0 ∷ [])))
    ≡ 0x47 ∷ 0x9a ∷ 0 ∷ []
unfolding put_unsigned put_bit refill next_byte flush
put_17 = refl

-- The byte before an array ends up over the array's last byte.
put_array :
    bytes_of (
      (put_unsigned 8 8 0x47 >> put_byte_array_aligned (1 ∷ 2 ∷ []) >> flush)
        (stream_of (0 ∷ 0 ∷ 0 ∷ [])))
    ≡ 0 ∷ 1 ∷ 0x47 ∷ []
unfolding put_unsigned put_bit refill next_byte flush put_byte_array_aligned
put_array = refl

abbrev two_bytes : Bytes
two_bytes = 0xff ∷ 0xa0 ∷ []

two_bytes_held : Holds (stream_of two_bytes) (to_bits 13 0x1ff4 ++ false ∷ false ∷ false ∷ [])
two_bytes_held = record {
  reading = (stream_of-Holds two_bytes (All-IsByte two_bytes refl)).reading;
  held = refl;
}

take_unsigned-to_bits_example :
    (t : BitStream) × (take_unsigned 16 13 (stream_of two_bytes) ≡ ok 0x1ff4 t)
    × Holds t (false ∷ false ∷ false ∷ [])
take_unsigned-to_bits_example =
    take_unsigned-to_bits 16 13 0x1ff4 (omega arith) (omega arith) (stream_of two_bytes)
      (false ∷ false ∷ false ∷ []) two_bytes_held

Holds-at_end_example : at_end (stream_of two_bytes) ≡ false
Holds-at_end_example =
    Holds-at_end (stream_of two_bytes) (bytes_bits two_bytes)
      (stream_of-Holds two_bytes (All-IsByte two_bytes refl))
