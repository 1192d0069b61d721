-- ===== src/PacketV2/Filling.antt =====
-- What a parser step fills in and which bits it takes, step by step along a chain of them.
use streamserver_cvn.Prelude.{
  ◌++◌, ◌∷◌, ◌≤◌, ◌<◌, ◌^◌, Bool, true, false, List, [], ◌≡◌, refl, ◌∙◌, append_assoc,
  if◌then◌else◌, length, ◌%◌, ℕ, Bytes, All,
}
use streamserver_cvn.Prelude.Outcome.{ok, ◌>>=◌, ◌>>◌, >>-ok}
use streamserver_cvn.Bits.{to_bits, bytes_bits}
use streamserver_cvn.BitFields.{take_unsigned}
use streamserver_cvn.BitFields.Reading.{take_unsigned-to_bits}
use streamserver_cvn.BitStream.{BitStream, Stream, Error, take_bit, take_rest_aligned}
use streamserver_cvn.BitStream.Reading.{Holds, Reads, IsByte, take_bit-Reads}
use streamserver_cvn.BitStream.Arrays.{ReadsAligned, take_rest_aligned-Holds, Holds-at_end}
use streamserver_cvn.PacketV2.Layout.{section}
use streamserver_cvn.PacketV2.Fill.{Cursor, Fill, read, on, with, check, inside, finish}

abbrev pub at : {P : Type 0} → BitStream → P → Cursor P
at s p = record { bit_source = s; target = p }

-- `m` takes `bits` off the stream, whatever follows, and makes `q` of `p`.
pub record Fills {P : Type 0} (m : Fill P) (bits : List Bool) (p q : P) : Type 0 where
  pub run :
      (s : BitStream) (rest : List Bool)
      → Holds s (bits ++ rest)
      → (t : BitStream) × (m (at s p) ≡ ok tt (at t q)) × Holds t rest

-- The same where whole bytes follow.
pub record FillsAligned {P : Type 0} (m : Fill P) (bits : List Bool) (p q : P) : Type 0 where
  pub run :
      (s : BitStream) (rest : List Bool)
      → length rest % 8 ≡ 0
      → Holds s (bits ++ rest)
      → (t : BitStream) × (m (at s p) ≡ ok tt (at t q)) × Holds t rest

-- `m` takes all that is left.
pub record Completes {P : Type 0} (m : Fill P) (bits : List Bool) (p q : P) : Type 0 where
  pub run :
      (s : BitStream) → Holds s bits → (t : BitStream) × (m (at s p) ≡ ok tt (at t q)) × Holds t []

regroup :
    (s : BitStream) (bs cs rest : List Bool)
    → Holds s ((bs ++ cs) ++ rest)
    → Holds s (bs ++ (cs ++ rest))
regroup s bs cs rest h = record { reading = h.reading; held = h.held ∙ append_assoc bs cs rest }

module _ {P : Type 0} {p : P} where
  pub read-Fills :
      {A : Type 0} {m : Stream A} (store : A → P → P) (bits : List Bool) (a : A)
      → Reads m bits a
      → Fills (read m store) bits p (store a p)
  unfolding read
  read-Fills store bits a r = record {
    run = λ s rest h. let (t, e, h') = r s rest h in (t, rw (e, read), h');
  }

  pub read_bit-Fills :
      (store : Bool → P → P) (b : Bool) → Fills (read take_bit store) (b ∷ []) p (store b p)
  read_bit-Fills store b = read-Fills store (b ∷ []) b (take_bit-Reads b)

  -- A number that fits its field.
  pub read_number-Fills :
      (working width : ℕ) (store : ℕ → P → P) (v : ℕ)
      → width ≤ working
      → v < 2 ^ width
      → Fills (read (take_unsigned working width) store) (to_bits width v) p (store v p)
  read_number-Fills working width store v room small =
      read-Fills store (to_bits width v) v (take_unsigned-to_bits working width v room small)

  pub read-FillsAligned :
      {A : Type 0} {m : Stream A} (store : A → P → P) (bits : List Bool) (a : A)
      → ReadsAligned m bits a
      → FillsAligned (read m store) bits p (store a p)
  unfolding read
  read-FillsAligned store bits a r = record {
    run = λ s rest w h. let (t, e, h') = r s rest w h in (t, rw (e, read), h');
  }

  -- A conditional step takes its bits if the flag is set.
  pub on-Fills :
      {q : P} {m : Fill P} {bits : List Bool} (test : P → Bool) (b : Bool)
      → test p ≡ b
      → (b ≡ true → Fills m bits p q)
      → Fills (on test m) (section b bits) p (if b then q else p)
  unfolding on
  on-Fills test true e f = record {
    run = λ s rest h. let (t, e', h') = (f refl).run s rest h in (t, rw e e', h');
  }
  on-Fills test false e f = record { run = λ s rest h. (s, rw e, h) }

  pub on-FillsAligned :
      {q : P} {m : Fill P} {bits : List Bool} (test : P → Bool) (b : Bool)
      → test p ≡ b
      → (b ≡ true → FillsAligned m bits p q)
      → FillsAligned (on test m) (section b bits) p (if b then q else p)
  unfolding on
  on-FillsAligned test true e f = record {
    run = λ s rest w h. let (t, e', h') = (f refl).run s rest w h in (t, rw e e', h');
  }
  on-FillsAligned test false e f = record { run = λ s rest w h. (s, rw e, h) }

  pub with-FillsAligned :
      {q : P} {bits : List Bool} (f : P → Fill P)
      → FillsAligned (f p) bits p q
      → FillsAligned (with f) bits p q
  unfolding with
  with-FillsAligned f g = record { run = g.run }

  pub check-Fills : (test : P → Bool) (e : Error) → test p ≡ true → Fills (check test e) [] p p
  unfolding check
  check-Fills test e h = record { run = λ s rest held. (s, rw h, held) }

  pub inside-Fills :
      {Q : Type 0} (part : P → Q) (put : Q → P → P) {m : Fill Q} {bits : List Bool} {q : Q}
      → Fills m bits (part p) q
      → Fills (inside part put m) bits p (put q p)
  unfolding inside
  inside-Fills part put f = record {
    run = λ s rest h. let (t, e, h') = f.run s rest h in (t, rw (e, inside), h');
  }

  module _ {q r : P} {m k : Fill P} {bs cs : List Bool} where
    pub >>-Fills : Fills m bs p q → Fills k cs q r → Fills (m >> k) (bs ++ cs) p r
    >>-Fills f g = record {
      run = λ s rest h.
          let (t, e, h') = f.run s (cs ++ rest) (regroup s bs cs rest h) in
          let (u, e', h'') = g.run t rest h' in (u, >>-ok m k e ∙ e', h'');
    }

    pub >>-FillsAligned :
        Fills m bs p q → FillsAligned k cs q r → FillsAligned (m >> k) (bs ++ cs) p r
    >>-FillsAligned f g = record {
      run = λ s rest w h.
          let (t, e, h') = f.run s (cs ++ rest) (regroup s bs cs rest h) in
          let (u, e', h'') = g.run t rest w h' in (u, >>-ok m k e ∙ e', h'');
    }

    pub >>-Completes : Fills m bs p q → Completes k cs q r → Completes (m >> k) (bs ++ cs) p r
    >>-Completes f g = record {
      run = λ s h.
          let (t, e, h') = f.run s cs h in
          let (u, e', h'') = g.run t h' in (u, >>-ok m k e ∙ e', h'');
    }

    pub >>-Completes_aligned :
        length cs % 8 ≡ 0
        → FillsAligned m bs p q
        → Completes k cs q r
        → Completes (m >> k) (bs ++ cs) p r
    >>-Completes_aligned w f g = record {
      run = λ s h.
          let (t, e, h') = f.run s cs w h in
          let (u, e', h'') = g.run t h' in (u, >>-ok m k e ∙ e', h'');
    }

  pub read_rest-Completes :
      (store : Bytes → P → P) (cs : Bytes)
      → All IsByte cs
      → Completes (read take_rest_aligned store >> finish) (bytes_bits cs) p (store cs p)
  unfolding read finish
  read_rest-Completes store cs a = record {
    run = λ s h.
        let (t, e, h') = take_rest_aligned-Holds s cs a h in
        (t, rw (e, ◌>>=◌, read) (rw (Holds-at_end t [] h')), h');
  }
