-- ===== src/BitStream/Putting.antt =====
-- `putBit`, and what is made of it: each operation is described by the bits that it puts.
use streamserver_cvn.Prelude.{
  ℕ, zero, suc, ◌+◌, ◌-◌, ◌*◌, ◌/◌, ◌%◌, ◌^◌, ◌≤◌, ◌<◌, ◌≡◌, refl, sym, ap, ap₂, ◌∙◌, subst, inl,
  inr, Bool, true, false, List, [], ◌∷◌, ◌++◌, append_assoc, append-nil, arith, length,
  length-append, replicate, Bytes, All, All-append,
}
use streamserver_cvn.Prelude.Outcome.{ok, pure, ◌>>=◌, ◌>>◌, >>-ok}
use streamserver_cvn.Bits.{bit_value, to_bits, bytes_bits, length-bytes_bits, bytes_bits-append}
use streamserver_cvn.BitStream.Reading.{IsByte}
use streamserver_cvn.BitStream.{BitStream, Stream, stream_of, put_bit, assign_bit}
use streamserver_cvn.BitStream.Writing.{
  sink, InByte, Sink, Writes, first_bit, to_bits-snoc, assign_bit-IsPut, refill_fresh, refill-sink,
  refill_full,
}

put_bit_fresh :
    (n : ℕ) (b : Bool)
    → put_bit b (stream_of (replicate (suc n) 0)) ≡ ok tt (sink [] (bit_value b * 128) 7 n)
unfolding put_bit
put_bit_fresh n true = rw (refill_fresh n, ◌>>=◌)
put_bit_fresh n false = rw (refill_fresh n, ◌>>=◌)

put_bit-sink :
    (done : Bytes) (c j n : ℕ) (b : Bool)
    → put_bit b (sink done c (suc j) n) ≡ ok tt (sink done (assign_bit c j b) j n)
unfolding put_bit
put_bit-sink done c j n b =
    let left : suc j - 1 ≡ j = omega arith in rw (refill-sink done c j n, ◌>>=◌) (rw left)

put_bit_full :
    (done : Bytes) (c n : ℕ) (b : Bool)
    → put_bit b (sink done c 0 (suc n)) ≡ ok tt (sink (done ++ c ∷ []) (bit_value b * 128) 7 n)
unfolding put_bit
put_bit_full done c n true = rw (refill_full done c n, ◌>>=◌)
put_bit_full done c n false = rw (refill_full done c n, ◌>>=◌)

-- One more bit in the current byte.
next_bit :
    (size : ℕ) (before : List Bool) (done : Bytes) (c j n : ℕ) (b : Bool)
    → All IsByte done
    → c < 256
    → j < 7
    → c % 2 ^ suc j ≡ 0
    → before ≡ bytes_bits done ++ to_bits (8 - suc j) (c / 2 ^ suc j)
    → size ≡ length done + suc n
    → InByte size (before ++ b ∷ []) (sink done (assign_bit c j b) j n)
next_bit size before done c j n b a l h z e r =
    let (small, (low, high)) = assign_bit-IsPut j c b h l z in
    let more : 8 - j ≡ suc (8 - suc j) = omega arith in
    record {
      done = done;
      c = assign_bit c j b;
      k = j;
      n = n;
      are_bytes = a;
      c_lt = small;
      k_lt = omega arith;
      low = low;
      at = refl;
      given =
          ap (λ x. x ++ b ∷ []) e
          ∙ append_assoc (bytes_bits done) (to_bits (8 - suc j) (c / 2 ^ suc j)) (b ∷ [])
          ∙ ap (bytes_bits done ++◌) (
              sym (to_bits-snoc (8 - suc j) (c / 2 ^ suc j) b)
              ∙ ap₂ (λ w x. to_bits w x) (sym more) (sym high));
      room = r;
    }

-- The place of a byte that is complete.
pub full_bits :
    (done : Bytes) (c : ℕ)
    → bytes_bits done ++ to_bits (8 - 0) (c / 2 ^ 0) ≡ bytes_bits (done ++ c ∷ [])
full_bits done c =
    let same : c / 2 ^ 0 ≡ c = omega arith in
    ap (λ x. bytes_bits done ++ to_bits 8 x) same
    ∙ ap (bytes_bits done ++◌) (sym (append-nil (to_bits 8 c)))
    ∙ sym (bytes_bits-append done (c ∷ []))

put_bit_in_byte :
    (size : ℕ) (before : List Bool) (b : Bool) (done : Bytes) (c k n : ℕ)
    → All IsByte done
    → c < 256
    → k < 8
    → c % 2 ^ k ≡ 0
    → before ≡ bytes_bits done ++ to_bits (8 - k) (c / 2 ^ k)
    → size ≡ length done + suc n
    → length before + 1 ≤ 8 * size
    → (t : BitStream) × ((put_bit b (sink done c k n) ≡ ok tt t) × Sink size (before ++ b ∷ []) t)
put_bit_in_byte size before b done c (suc j) n a l h z e r room = (
  sink done (assign_bit c j b) j n,
  (put_bit-sink done c j n b, inr (next_bit size before done c j n b a l (omega arith) z e r)),
)
put_bit_in_byte size before b done c zero zero a l h z e r room = absurd (
    omega (
      arith,
      ap length (e ∙ full_bits done c),
      length-bytes_bits (done ++ c ∷ []),
      length-append done (c ∷ []),
    ))
put_bit_in_byte size before b done c zero (suc n) a l h z e r room = (
  sink (done ++ c ∷ []) (bit_value b * 128) 7 n,
  (
    put_bit_full done c n b,
    inr (
        first_bit size before (done ++ c ∷ []) n b (All-append IsByte done (c ∷ []) a (l, tt))
          (e ∙ full_bits done c) (omega (arith, length-append done (c ∷ [])))),
  ),
)

put_bit-run :
    (size : ℕ) (b : Bool) (before : List Bool) (s : BitStream)
    → Sink size before s
    → length before + 1 ≤ 8 * size
    → (t : BitStream) × ((put_bit b s ≡ ok tt t) × Sink size (before ++ b ∷ []) t)
put_bit-run zero b before s (inl (at, e)) room = absurd (omega arith)
put_bit-run (suc n) b before s (inl (at, e)) room = (
  sink [] (bit_value b * 128) 7 n,
  (ap (put_bit b) at ∙ put_bit_fresh n b, inr (first_bit (suc n) before [] n b tt e (omega arith))),
)
put_bit-run size b before s (inr i) room = rw i.at (
    put_bit_in_byte size before b i.done i.c i.k i.n i.are_bytes i.c_lt i.k_lt i.low i.given i.room
      room)

pub put_bit-Writes : (b : Bool) → Writes (put_bit b) (b ∷ [])
put_bit-Writes b = record { run = λ size before s i room. put_bit-run size b before s i room }

pub pure-Writes : Writes (pure tt) []
pure-Writes = record {
  run = λ size before s i room. (s, (refl, subst (λ x. Sink size x s) (sym (append-nil before)) i));
}

-- One after the other.
pub then-Writes :
    {m k : Stream (Unit {0})} {bits more : List Bool}
    → Writes m bits
    → Writes k more
    → Writes (m >> k) (bits ++ more)
then-Writes {m} {k} {bits} {more} w v = record {
  run = λ size before s i room.
      let total : length (bits ++ more) ≡ length bits + length more = length-append bits more in
      let so_far : length (before ++ bits) ≡ length before + length bits =
        length-append before bits in
      let (t, (e, j)) = w.run size before s i (omega arith) in
      let (u, (f, l)) = v.run size (before ++ bits) t j (omega arith) in
      (u, (>>-ok m k e ∙ f, subst (λ x. Sink size x u) (append_assoc before bits more) l));
}
