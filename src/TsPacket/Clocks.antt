-- ===== src/TsPacket/Clocks.antt =====
-- The clock references of both packet versions: the bits that they are made of, and their values in
-- 64 bits.
use native.Mathlib.Nat.{mod-eq_of_lt}
use streamserver_cvn.Prelude.{
  ℕ, ◌+◌, ◌*◌, ◌/◌, ◌%◌, ◌^◌, ◌<◌, ◌≡◌, ◌↔◌, refl, sym, ap, ap₂, ◌∙◌, Bool, true, false, List, [],
  ◌∷◌, ◌++◌, some, arith, length, Bytes, All,
}
use streamserver_cvn.Bits.{
  bit_value, to_bits, from_bits, bytes_bits, from_bits_acc, from_bits-append, from_bits-to_bits,
  pow_suc, length-to_bits,
}
use streamserver_cvn.BitStream.Reading.{IsByte}
use streamserver_cvn.PacketV2.{ProgramClockReference, pcr_value, to_nanosecs}
use streamserver_cvn.PacketV2.Layout.{clock_bits, IsClock}
use streamserver_cvn.TsPacket.{Clock, clock_base, clock_value, clock_of}

from_bits_lt : (bs : List Bool) → from_bits 0 bs < 2 ^ length bs
from_bits_lt [] = omega arith
from_bits_lt (b ∷ bs) =
    rw (from_bits_acc (0 * 2 + bit_value b) bs, pow_suc (length bs))
      (ground (arith, from_bits_lt bs))

leading_bit :
    (b c : Bool) (P x y : ℕ)
    → x < P
    → y < P
    → (0 * 2 + bit_value b) * P + x ≡ (0 * 2 + bit_value c) * P + y
    → (b ≡ c) × (x ≡ y)
leading_bit true true P x y h k e = (refl, omega arith)
leading_bit true false P x y h k e = absurd (omega arith)
leading_bit false true P x y h k e = absurd (omega arith)
leading_bit false false P x y h k e = (refl, omega arith)

from_bits_injective :
    (bs cs : List Bool) → length bs ≡ length cs → from_bits 0 bs ≡ from_bits 0 cs → bs ≡ cs
from_bits_injective [] [] l e = refl
from_bits_injective [] (c ∷ cs) l e = absurd (omega arith)
from_bits_injective (b ∷ bs) [] l e = absurd (omega arith)
from_bits_injective (b ∷ bs) (c ∷ cs) l e =
    let same : length cs ≡ length bs = omega arith in
    let parts =
      leading_bit b c (2 ^ length bs) (from_bits 0 bs) (from_bits 0 cs) (from_bits_lt bs)
        (rw same at (from_bits_lt cs))
        (sym (from_bits_acc (0 * 2 + bit_value b) bs)
          ∙ e
          ∙ from_bits_acc (0 * 2 + bit_value c) cs
          ∙ ap (λ n. (0 * 2 + bit_value c) * 2 ^ n + from_bits 0 cs) same) in
    ap₂ ◌∷◌ parts.0 (from_bits_injective bs cs (sym same) parts.1)

-- The clock of the first version as the data of the second.
abbrev pub same_clock : Clock → ProgramClockReference
same_clock c = record { pcr_base = c.base; reserved1 = c.reserved; pcr_extension = c.extension }

-- A field is shifted in from the right.
from_bits-field :
    (acc w v : ℕ) (rest : List Bool)
    → v < 2 ^ w
    → from_bits acc (to_bits w v ++ rest) ≡ from_bits (acc * 2 ^ w + v) rest
from_bits-field acc w v rest small =
    from_bits-append acc (to_bits w v) rest
    ∙ ap (λ x. from_bits x rest)
        (from_bits_acc acc (to_bits w v)
          ∙ ap₂ (λ n x. acc * 2 ^ n + x) (length-to_bits w v)
              (from_bits-to_bits w v ∙ mod-eq_of_lt small))

module _ (a b c d e f : ℕ) (ha : a < 256) (hb : b < 256) (hc : c < 256) (hd : d < 256)
    (he : e < 256) (hf : f < 256) where
  abbrev six : Bytes
  six = a ∷ b ∷ c ∷ d ∷ e ∷ f ∷ []

  clock_base-number : clock_base six ≡ (((a * 256 + b) * 256 + c) * 256 + d) * 2 + e / 2 ^ 7
  unfolding clock_base
  clock_base-number = omega arith

  abbrev read_clock : Clock
  read_clock = record {
    bytes = six;
    base = clock_base six;
    reserved = e / 2 % 2 ^ 6;
    extension = (e % 2 * 2 ^ 8 + f) % 2 ^ 16;
    value = clock_value (clock_base six) ((e % 2 * 2 ^ 8 + f) % 2 ^ 16);
  }

  clock_of-six : clock_of six ≡ some read_clock
  unfolding clock_of
  clock_of-six = refl

  six-IsClock : IsClock (same_clock read_clock)
  six-IsClock = record {
    base_lt = omega (arith, clock_base-number);
    reserved_lt = omega arith;
    extension_lt = omega arith;
  }

  six-number :
      (clock_base six * 2 ^ 6 + e / 2 % 2 ^ 6) * 2 ^ 9 + (e % 2 * 2 ^ 8 + f) % 2 ^ 16
      ≡ ((((a * 256 + b) * 256 + c) * 256 + d) * 256 + e) * 256 + f
  six-number = omega (arith, clock_base-number)

  six-value :
      clock_value (clock_base six) ((e % 2 * 2 ^ 8 + f) % 2 ^ 16)
      ≡ pcr_value (same_clock read_clock)
  unfolding clock_value pcr_value
  six-value = refl

  byte_number :
      from_bits 0 (bytes_bits six) ≡ ((((a * 256 + b) * 256 + c) * 256 + d) * 256 + e) * 256 + f
  byte_number =
      let s2 = 0 * 2 ^ 8 + a in
      let s3 = s2 * 2 ^ 8 + b in
      let s4 = s3 * 2 ^ 8 + c in
      let s5 = s4 * 2 ^ 8 + d in
      let s6 = s5 * 2 ^ 8 + e in
      from_bits-field 0 8 a (bytes_bits (b ∷ c ∷ d ∷ e ∷ f ∷ [])) ha
      ∙ from_bits-field s2 8 b (bytes_bits (c ∷ d ∷ e ∷ f ∷ [])) hb
      ∙ from_bits-field s3 8 c (bytes_bits (d ∷ e ∷ f ∷ [])) hc
      ∙ from_bits-field s4 8 d (bytes_bits (e ∷ f ∷ [])) hd
      ∙ from_bits-field s5 8 e (bytes_bits (f ∷ [])) he
      ∙ from_bits-field s6 8 f [] hf
      ∙ omega arith

  field_number :
      from_bits 0 (clock_bits (same_clock read_clock))
      ≡ (clock_base six * 2 ^ 6 + e / 2 % 2 ^ 6) * 2 ^ 9 + (e % 2 * 2 ^ 8 + f) % 2 ^ 16
  field_number =
      let base = clock_base six in
      let reserved = e / 2 % 2 ^ 6 in
      let extension = (e % 2 * 2 ^ 8 + f) % 2 ^ 16 in
      from_bits-field 0 33 base (to_bits 6 reserved ++ to_bits 9 extension) six-IsClock.base_lt
      ∙ from_bits-field (0 * 2 ^ 33 + base) 6 reserved (to_bits 9 extension) six-IsClock.reserved_lt
      ∙ from_bits-field ((0 * 2 ^ 33 + base) * 2 ^ 6 + reserved) 9 extension []
          six-IsClock.extension_lt
      ∙ omega arith

  six-bits : bytes_bits six ≡ clock_bits (same_clock read_clock)
  six-bits =
      from_bits_injective (bytes_bits six) (clock_bits (same_clock read_clock)) refl
        (byte_number ∙ sym six-number ∙ sym field_number)

-- Whatever the bits of a clock reference, its value does not wrap in 64 bits.
pub pcr_value-exact :
    (c : ProgramClockReference) → IsClock c → pcr_value c ≡ c.pcr_base * 300 + c.pcr_extension
unfolding pcr_value
pcr_value-exact c v = omega (arith, v.base_lt, v.extension_lt)

-- The time in nanoseconds is right exactly for values below 18446744074, about 683 seconds: above it
-- the product wraps in 64 bits.
pub to_nanosecs-exact :
    (c : ProgramClockReference)
    → (to_nanosecs c ≡ pcr_value c * 1000000000 / 27000000) ↔ (pcr_value c < 18446744074)
unfolding to_nanosecs
to_nanosecs-exact c = (λ e. omega arith, λ h. omega arith)

-- Six bytes are always taken for a clock reference: the one whose base, reserved bits and extension
-- they spell in the layout of the standard, and its value is the one that the second version computes
-- from them.
pub clock_of-clock_bits :
    (bytes : Bytes)
    → length bytes ≡ 6
    → All IsByte bytes
    → (c : Clock) × ((clock_of bytes ≡ some c)
        × ((bytes_bits bytes ≡ clock_bits (same_clock c))
            × (IsClock (same_clock c) × (c.value ≡ pcr_value (same_clock c)))))
clock_of-clock_bits (a ∷ b ∷ c ∷ d ∷ e ∷ f ∷ []) l (ha, (hb, (hc, (hd, (he, (hf, u)))))) = (
  read_clock a b c d e f ha hb hc hd he hf,
  (
    clock_of-six a b c d e f ha hb hc hd he hf,
    (
      six-bits a b c d e f ha hb hc hd he hf,
      (six-IsClock a b c d e f ha hb hc hd he hf, six-value a b c d e f ha hb hc hd he hf),
    ),
  ),
)
clock_of-clock_bits [] l h = absurd (omega arith)
clock_of-clock_bits (a ∷ []) l h = absurd (omega arith)
clock_of-clock_bits (a ∷ b ∷ []) l h = absurd (omega arith)
clock_of-clock_bits (a ∷ b ∷ c ∷ []) l h = absurd (omega arith)
clock_of-clock_bits (a ∷ b ∷ c ∷ d ∷ []) l h = absurd (omega arith)
clock_of-clock_bits (a ∷ b ∷ c ∷ d ∷ e ∷ []) l h = absurd (omega arith)
clock_of-clock_bits (a ∷ b ∷ c ∷ d ∷ e ∷ f ∷ g ∷ bytes) l h = absurd (omega arith)
