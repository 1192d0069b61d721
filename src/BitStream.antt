-- ===== src/BitStream.antt =====
-- libmedia/tsprimitive.h: the class `BitStream`, a source and sink of bits over a byte array.
-- `next` is `_offsetBytes + 1`, the index of the byte behind the current one: `_offsetBytes`
-- starts at -1. A thrown exception is an `err` with the state at the throw.
pub mod Reading
pub mod Arrays
pub mod Writing
pub mod Putting
use streamserver_cvn.Prelude.{
  ℕ, zero, suc, ◌+◌, ◌-◌, ◌*◌, ◌/◌, ◌%◌, ◌^◌, Bool, true, false, not, ◌&&◌, ◌||◌, List, [], ◌∷◌,
  ◌++◌, ltb, leb, ◌==◌, if◌then◌else◌, length, get_or, set, take, drop, Bytes,
}
use streamserver_cvn.Prelude.Outcome.{
  Outcome, ok, err, M, pure, throw, get, modify, guard, when, ◌>>=◌, ◌>>◌,
}
use streamserver_cvn.Bits.{bit_at, bit_value}

pub record BitStream : Type 0 where
  pub bytes : Bytes
  pub is_dirty : Bool
  pub cur_byte : ℕ
  pub next : ℕ
  pub bits_left : ℕ

-- One constructor for each message that the class and its operators throw.
pub data Error : Type 0 where
  flush_out_of_range bytes_exceeded not_aligned not_enough_input not_enough_output : Error
  bit_out_of_range no_sign_extension : Error
  no_sync_byte reserved_scrambling reserved_adaptation : Error
  trailing_bits wrong_length : Error

abbrev pub Stream : Type 0 → Type 0
Stream A = M Error BitStream A

abbrev pub stream_of : Bytes → BitStream
stream_of bytes = record { bytes = bytes; is_dirty = false; cur_byte = 0; next = 0; bits_left = 0 }

-- Negative in the source once `_nextByte` has thrown; nothing reads it from then on.
abbrev pub bytes_left : BitStream → ℕ
bytes_left s = length s.bytes - s.next

abbrev pub is_byte_aligned : BitStream → Bool
is_byte_aligned s = s.bits_left == 0 || s.bits_left == 8

abbrev pub at_end : BitStream → Bool
at_end s = if ltb 0 s.bits_left then false else if ltb 0 (bytes_left s) then false else true

abbrev is_current : BitStream → Bool
is_current s = ltb 0 s.next && leb s.next (length s.bytes)

abbrev put_back : BitStream → BitStream
put_back s = record s {
  bytes = set s.bytes (s.next - 1) s.cur_byte;
  is_dirty = false;
  cur_byte = 0;
}

unfoldable pub flush : Stream (Unit {0})
flush s =
    if not s.is_dirty
    then ok tt s
    else if not (is_current s)
    then err flush_out_of_range s
    else ok tt (put_back s)

abbrev fetch : Stream (Unit {0})
fetch s =
    let t = record s { next = s.next + 1 } in
    if not (ltb s.next (length s.bytes))
    then err bytes_exceeded t
    else ok tt (record t { cur_byte = get_or s.bytes s.next 0; bits_left = 8 })

unfoldable pub next_byte : Stream (Unit {0})
next_byte s = elim (flush s) [ ok u t ↦ fetch t | err e t ↦ err e t ]

-- `if (!(_bitsLeft > 0)) _nextByte();`
unfoldable pub refill : Stream (Unit {0})
refill s = if not (ltb 0 s.bits_left) then next_byte s else ok tt s

unfoldable pub take_bit : Stream Bool
take_bit = do
  refill
  bit ← get λ s. bit_at s.cur_byte (s.bits_left - 1)
  modify λ s. record s { bits_left = s.bits_left - 1 }
  pure bit

-- `_curByte |= mask` and `_curByte &= ~mask` at the one bit of the mask.
abbrev pub assign_bit : ℕ → ℕ → Bool → ℕ
assign_bit byte n value =
    if bit_at byte n
    then (if value then byte else byte - 2 ^ n)
    else (if value then byte + 2 ^ n else byte)

unfoldable pub put_bit : Bool → Stream (Unit {0})
put_bit value = do
  refill
  modify λ s. record s {
    bits_left = s.bits_left - 1;
    cur_byte = assign_bit s.cur_byte (s.bits_left - 1) value;
    is_dirty = true;
  }

unfoldable pub take_byte_aligned : Stream ℕ
take_byte_aligned = do
  refill
  left ← get λ s. s.bits_left
  guard (left == 8) not_aligned
  byte ← get λ s. s.cur_byte
  modify λ s. record s { bits_left = 0 }
  pure byte

-- A negative count: all that is left.
unfoldable pub take_rest_aligned : Stream Bytes
take_rest_aligned s =
    if not (s.bits_left == 0)
    then err not_aligned s
    else ok (drop s.next s.bytes) (record s { next = length s.bytes })

-- The check of `ret.length()` behind the slice cannot fail, since the bytes are there.
unfoldable pub take_byte_array_aligned : ℕ → Stream Bytes
take_byte_array_aligned count s =
    if not (s.bits_left == 0)
    then err not_aligned s
    else if not (leb count (bytes_left s))
    then err not_enough_input s
    else ok (take count (drop s.next s.bytes)) (record s { next = s.next + count })

-- The current byte is not flushed here, though `_offsetBytes` moves on.
unfoldable pub put_byte_array_aligned : Bytes → Stream (Unit {0})
put_byte_array_aligned bytes s =
    if not (s.bits_left == 0)
    then err not_aligned s
    else if length bytes == 0
    then ok tt s
    else if not (leb (length bytes) (bytes_left s))
    then err not_enough_output s
    else ok tt (record s {
      bytes = take s.next s.bytes ++ (bytes ++ drop (s.next + length bytes) s.bytes);
      next = s.next + length bytes;
    })
