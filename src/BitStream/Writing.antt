-- ===== src/BitStream/Writing.antt =====
-- A stream over zero bytes that bits are put to, one behind the other: which bits it has been
-- given, and where they stand.
use native.Mathlib.Nat.{div-div-eq-div-mul}
use streamserver_cvn.Prelude.{
  ℕ, zero, suc, ◌+◌, ◌-◌, ◌*◌, ◌/◌, ◌%◌, ◌^◌, ◌≤◌, ◌<◌, ◌≡◌, refl, sym, ap, ap₂, ◌∙◌, ◌⊎◌, Bool,
  true, false, List, [], ◌∷◌, ◌++◌, append_assoc, arith, ltb, leb, ◌==◌, ◌&&◌, length,
  length-append, get_or, set, replicate, Bytes, All,
}
use streamserver_cvn.Prelude.Outcome.{ok}
use streamserver_cvn.Bits.{bit_value, to_bits, bytes_bits, pow_suc}
use streamserver_cvn.BitStream.Reading.{IsByte}
use streamserver_cvn.BitStream.{BitStream, Stream, stream_of, flush, next_byte, refill, assign_bit}

-- The bytes `done` are in their place. The current byte `c` has `k` bits left, and its place and the
-- `n` bytes behind it are zero.
abbrev pub sink : Bytes → ℕ → ℕ → ℕ → BitStream
sink done c k n = record {
  bytes = done ++ 0 ∷ replicate n 0;
  is_dirty = true;
  cur_byte = c;
  next = length done + 1;
  bits_left = k;
}

pub record InByte (size : ℕ) (bits : List Bool) (s : BitStream) : Type 0 where
  pub done : Bytes
  pub c : ℕ
  pub k : ℕ
  pub n : ℕ
  pub are_bytes : All IsByte done
  pub c_lt : c < 256
  pub k_lt : k < 8
  pub low : c % 2 ^ k ≡ 0
  pub at : s ≡ sink done c k n
  pub given : bits ≡ bytes_bits done ++ to_bits (8 - k) (c / 2 ^ k)
  pub room : size ≡ length done + suc n

-- `bits` have been put to a stream that was new, over `size` zero bytes.
abbrev pub Sink : ℕ → List Bool → BitStream → Type 0
Sink size bits s = ((s ≡ stream_of (replicate size 0)) × (bits ≡ [])) ⊎ InByte size bits s

-- `m` puts exactly `bits`, where there is room for them.
pub record Writes (m : Stream (Unit {0})) (bits : List Bool) : Type 0 where
  pub run :
      (size : ℕ) (before : List Bool) (s : BitStream)
      → Sink size before s
      → length before + length bits ≤ 8 * size
      → (t : BitStream) × ((m s ≡ ok tt t) × Sink size (before ++ bits) t)

get_or-append : (xs ys : Bytes) (n : ℕ) → get_or (xs ++ ys) (length xs + n) 0 ≡ get_or ys n 0
get_or-append [] ys n = let e : 0 + n ≡ n = omega arith in rw e
get_or-append (x ∷ xs) ys n =
    let e : suc (length xs) + n ≡ suc (length xs + n) = omega arith in rw e (get_or-append xs ys n)

set-append : (xs : Bytes) (y z : ℕ) (ys : Bytes) → set (xs ++ y ∷ ys) (length xs) z ≡ xs ++ z ∷ ys
set-append [] y z ys = refl
set-append (x ∷ xs) y z ys = ap (x ∷◌) (set-append xs y z ys)

top_bit : (b : Bool) → to_bits 1 (bit_value b * 128 / 2 ^ 7) ≡ b ∷ []
top_bit true = refl
top_bit false = refl

-- The first bit of a byte whose place is zero.
pub first_bit :
    (size : ℕ) (before : List Bool) (done : Bytes) (n : ℕ) (b : Bool)
    → All IsByte done
    → before ≡ bytes_bits done
    → size ≡ length done + suc n
    → InByte size (before ++ b ∷ []) (sink done (bit_value b * 128) 7 n)
first_bit size before done n b a e r = record {
  are_bytes = a;
  done = done;
  c = bit_value b * 128;
  k = 7;
  n = n;
  c_lt = ground arith;
  k_lt = omega arith;
  low = ground arith;
  at = refl;
  given = ap₂ ◌++◌ e (sym (top_bit b));
  room = r;
}

-- One more bit from the right.
pub to_bits-snoc :
    (w x : ℕ) (b : Bool) → to_bits (suc w) (2 * x + bit_value b) ≡ to_bits w x ++ b ∷ []
to_bits-snoc zero x true = ground arith
to_bits-snoc zero x false = ground arith
to_bits-snoc (suc w) x b =
    let half : (2 * x + bit_value b) / 2 ≡ x = ground arith in
    let quotient : (2 * x + bit_value b) / 2 ^ suc w ≡ x / 2 ^ w =
      rw (pow_suc w, sym (div-div-eq-div-mul (2 * x + bit_value b) 2 (2 ^ w)), half) in
    ap₂ ◌∷◌ (ap (λ z. z % 2 == 1) quotient) (to_bits-snoc w x b)

-- A bit is put to a place that is zero, behind `suc j` bits that are.
abbrev pub IsPut : ℕ → ℕ → Bool → ℕ → Type 0
IsPut j c b d = (d < 256) × ((d % 2 ^ j ≡ 0) × (d / 2 ^ j ≡ 2 * (c / 2 ^ suc j) + bit_value b))

pub assign_bit-IsPut :
    (j c : ℕ) (b : Bool) → j < 7 → c < 256 → c % 2 ^ suc j ≡ 0 → IsPut j c b (assign_bit c j b)
assign_bit-IsPut zero c b h l z = ground arith
assign_bit-IsPut (suc zero) c b h l z = ground arith
assign_bit-IsPut (suc (suc zero)) c b h l z = ground arith
assign_bit-IsPut (suc (suc (suc zero))) c b h l z = ground arith
assign_bit-IsPut (suc (suc (suc (suc zero)))) c b h l z = ground arith
assign_bit-IsPut (suc (suc (suc (suc (suc zero))))) c b h l z = ground arith
assign_bit-IsPut (suc (suc (suc (suc (suc (suc zero)))))) c b h l z = ground arith
assign_bit-IsPut (suc (suc (suc (suc (suc (suc (suc j))))))) c b h l z = absurd (omega arith)

pub refill_fresh :
    (n : ℕ)
    → refill (stream_of (replicate (suc n) 0))
      ≡ ok tt (record {
        bytes = replicate (suc n) 0;
        is_dirty = false;
        cur_byte = 0;
        next = 1;
        bits_left = 8;
      })
unfolding refill next_byte flush
refill_fresh n = ground arith

pub refill-sink :
    (done : Bytes) (c j n : ℕ) → refill (sink done c (suc j) n) ≡ ok tt (sink done c (suc j) n)
unfolding refill
refill-sink done c j n = ground arith

-- The current byte in its place.
abbrev pub flushed : Bytes → ℕ → ℕ → ℕ → BitStream
flushed done c k n = record (sink done c k n) {
  bytes = done ++ c ∷ replicate n 0;
  is_dirty = false;
  cur_byte = 0;
}

pub flush-sink : (done : Bytes) (c k n : ℕ) → flush (sink done c k n) ≡ ok tt (flushed done c k n)
unfolding flush
flush-sink done c k n =
    let place : length done + 1 - 1 ≡ length done = omega arith in
    let within : (ltb 0 (length done + 1)
          && leb (length done + 1) (length (done ++ 0 ∷ replicate n 0)))
        ≡ true =
      ground (arith, length-append done (0 ∷ replicate n 0)) in
    rw (within, place, set-append done 0 c (replicate n 0))

pub refill_full :
    (done : Bytes) (c n : ℕ)
    → refill (sink done c 0 (suc n))
      ≡ ok tt (record (sink (done ++ c ∷ []) 0 8 n) { is_dirty = false })
unfolding refill next_byte
refill_full done c n =
    let bytes : done ++ c ∷ replicate (suc n) 0 ≡ (done ++ c ∷ []) ++ 0 ∷ replicate n 0 =
      sym (append_assoc done (c ∷ []) (0 ∷ replicate n 0)) in
    let count : length done + 1 ≡ length (done ++ c ∷ []) =
      omega (arith, length-append done (c ∷ [])) in
    let start : length (done ++ c ∷ []) ≡ length (done ++ c ∷ []) + 0 = omega arith in
    let more : ltb (length (done ++ c ∷ [])) (length ((done ++ c ∷ []) ++ 0 ∷ replicate n 0))
        ≡ true =
      ground (arith, length-append (done ++ c ∷ []) (0 ∷ replicate n 0)) in
    let zero_there : get_or ((done ++ c ∷ []) ++ 0 ∷ replicate n 0) (length (done ++ c ∷ [])) 0
        ≡ 0 =
      ap (λ i. get_or ((done ++ c ∷ []) ++ 0 ∷ replicate n 0) i 0) start
      ∙ get_or-append (done ++ c ∷ []) (0 ∷ replicate n 0) 0 in
    rw (flush-sink done c 0 (suc n), refill, next_byte) (rw (bytes, count) (rw (more, zero_there)))
