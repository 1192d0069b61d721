-- ===== src/Bits.antt =====
-- Numbers as strings of bits, the most significant bit first: the order in which MPEG-TS sends a
-- field. This is the vocabulary in which the bit stream and the packet layout are specified.
use native.Mathlib.Nat.{div-add-mod, div-div-eq-div-mul, mul_comm}
use streamserver_cvn.Prelude.{
  ℕ, zero, suc, ◌+◌, ◌*◌, ◌/◌, ◌%◌, ◌^◌, ◌<◌, ◌≡◌, refl, sym, ap, ◌∙◌, Bool, List, [], ◌∷◌, ◌++◌,
  arith, ◌==◌, if◌then◌else◌, length, Bytes,
}

-- Bit `n` of `v`, counted from the least significant.
abbrev pub bit_at : ℕ → ℕ → Bool
bit_at v n = (v / 2 ^ n) % 2 == 1

-- The low `n` bits of `v`.
abbrev pub to_bits : ℕ → ℕ → List Bool
to_bits zero v = []
to_bits (suc n) v = bit_at v n ∷ to_bits n v

abbrev pub bit_value : Bool → ℕ
bit_value b = if b then 1 else 0

-- The bits that follow are shifted into `acc` from the right.
abbrev pub from_bits : ℕ → List Bool → ℕ
from_bits acc [] = acc
from_bits acc (b ∷ bs) = from_bits (acc * 2 + bit_value b) bs

abbrev pub bytes_bits : Bytes → List Bool
bytes_bits [] = []
bytes_bits (c ∷ cs) = to_bits 8 c ++ bytes_bits cs

pub length-to_bits : (n v : ℕ) → length (to_bits n v) ≡ n
length-to_bits zero v = refl
length-to_bits (suc n) v = ap suc (length-to_bits n v)

pub length-bytes_bits : (cs : Bytes) → length (bytes_bits cs) ≡ 8 * length cs
length-bytes_bits [] = refl
length-bytes_bits (c ∷ cs) = omega (arith, length-bytes_bits cs)

pub bytes_bits-append : (cs ds : Bytes) → bytes_bits (cs ++ ds) ≡ bytes_bits cs ++ bytes_bits ds
bytes_bits-append [] ds = refl
bytes_bits-append (c ∷ cs) ds = ap (◌++◌ (to_bits 8 c)) (bytes_bits-append cs ds)

pub from_bits-append :
    (acc : ℕ) (bs cs : List Bool) → from_bits acc (bs ++ cs) ≡ from_bits (from_bits acc bs) cs
from_bits-append acc [] cs = refl
from_bits-append acc (b ∷ bs) cs = from_bits-append (acc * 2 + bit_value b) bs cs

pub pow_suc : (n : ℕ) → 2 ^ suc n ≡ 2 * 2 ^ n
pow_suc n = omega arith

pub pow_pos : (n : ℕ) → 0 < 2 ^ n
pow_pos zero = omega arith
pow_pos (suc n) = omega (arith, pow_pos n, pow_suc n)

pub bit_value-mod : (x : ℕ) → bit_value (x % 2 == 1) ≡ x % 2
bit_value-mod x = ground arith

-- An accumulator is scaled by the bits that follow it.
pub from_bits_acc :
    (acc : ℕ) (bs : List Bool) → from_bits acc bs ≡ acc * 2 ^ length bs + from_bits 0 bs
from_bits_acc acc [] = omega arith
from_bits_acc acc (b ∷ bs) =
    rw
      (
        from_bits_acc (acc * 2 + bit_value b) bs,
        from_bits_acc (0 * 2 + bit_value b) bs,
        pow_suc (length bs),
      )
      (omega arith)

mod_double : (v p : ℕ) → 0 < p → v % (2 * p) ≡ (v / p) % 2 * p + v % p
mod_double v p h =
    let halves : p * (v / p) ≡ p * (2 * (v / p / 2) + v / p % 2) =
      ap (◌*◌ p) (sym (div-add-mod (v / p) 2)) in
    let quotient : 2 * p * (v / (2 * p)) ≡ 2 * p * (v / p / 2) =
      ap (◌*◌ (2 * p)) (sym (div-div-eq-div-mul v p 2 ∙ ap (λ t. v / t) (mul_comm p 2))) in
    omega (arith, div-add-mod v p, div-add-mod v (2 * p), halves, quotient)

pub from_bits-to_bits : (n v : ℕ) → from_bits 0 (to_bits n v) ≡ v % 2 ^ n
from_bits-to_bits zero v = omega arith
from_bits-to_bits (suc n) v =
    rw
      (
        from_bits_acc (0 * 2 + bit_value (bit_at v n)) (to_bits n v),
        bit_value-mod (v / 2 ^ n),
        length-to_bits n v,
        from_bits-to_bits n v,
        pow_suc n,
      )
      (omega (arith, mod_double v (2 ^ n) (pow_pos n)))

pub append_injective {ℓ} :
    {A : Type ℓ} (xs ys : List A) {us vs : List A}
    → length xs ≡ length ys
    → xs ++ us ≡ ys ++ vs
    → (xs ≡ ys) × (us ≡ vs)
append_injective [] [] l e = (refl, e)
append_injective [] (y ∷ ys) l e = absurd (omega arith)
append_injective (x ∷ xs) [] l e = absurd (omega arith)
append_injective (x ∷ xs) (y ∷ ys) {us} {vs} l e =
    let rest : (xs ≡ ys) × (us ≡ vs) = append_injective xs ys (omega arith) (cc) in
    (cc (rest.0), rest.1)
