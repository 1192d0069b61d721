-- ===== src/StreamServer/Sent.antt =====
-- streamserver-cvn-cli/streamserver.cpp: the packet that is sent, by the clock reference of the packet
-- that has been read.
use streamserver_cvn.Prelude.{
  ℕ, ◌+◌, ◌≤◌, ◌≡◌, refl, sym, subst, ap, ◌∙◌, inl, inr, ◌⊎◌, Bool, true, false, ◌||◌, ◌∷◌, ◌++◌,
  Option, none, some, arith, ltb, le→ltb_false, length, take, drop, Bytes, Bool-cases, Option-cases,
}
use streamserver_cvn.TsPacket.{Clock, AdaptationField, TsPacket}
use streamserver_cvn.TsPacket.Parser.{set_discontinuity_indicator}
use streamserver_cvn.TsPacket.Packet.{has_field, update_adaptation_field_bytes}
use streamserver_cvn.TsPacket.Discontinuity.{with_indicator}
use streamserver_cvn.TsPacket.Placed.{HasView, clocked_bytes}
use streamserver_cvn.StreamServer.Input.{marked, mark}

-- The clock reference of a packet, in its adaptation field.
pub record HasClock (p : TsPacket) (f : AdaptationField) (c : Clock) : Type 0 where
  pub field : p.adaptation_field ≡ some f
  pub flag : f.pcr_flag ≡ true
  pub clock : f.pcr ≡ some c

abbrev pub HasNoClock : TsPacket → Type 0
HasNoClock p =
    (p.adaptation_field ≡ none)
    ⊎ ((f : AdaptationField) × (p.adaptation_field ≡ some f)
        × ((f.pcr_flag ≡ false) ⊎ (f.pcr ≡ none)))

-- The adaptation field has its flags, and lies within the packet.
pub record IsPlaced (p : TsPacket) (f : AdaptationField) (len flags : ℕ) (rest : Bytes)
    : Type 0 where
  pub bytes : f.bytes ≡ len ∷ flags ∷ rest
  pub has : has_field p ≡ true
  pub fits : p.adaptation_field_index + length f.bytes ≤ length p.bytes

-- So it is in a packet that has been read, if there is a clock reference.
some_eq : {f g : AdaptationField} {o : Option AdaptationField} → o ≡ some f → o ≡ some g → f ≡ g
some_eq e h = cc

placed :
    (p : TsPacket) (f : AdaptationField) (c : Clock)
    → HasView p
    → HasClock p f c
    → (len flags : ℕ) × (rest : Bytes) × IsPlaced p f len flags rest
placed p f c (inl e) h = let n = h.field in absurd cc
placed p f c (inr (bytes, e, has, le)) h =
    let same = some_eq h.field e in
    let (len, flags, rest, b, kept) = clocked_bytes bytes (rw same at h.flag) in
    let of_field : f.bytes ≡ bytes = ap (λ g. g.bytes) same ∙ kept in
    let two : 2 ≤ length bytes = rw b (omega arith) in
    (
      len,
      flags,
      rest,
      record { bytes = of_field ∙ b; has = has; fits = rw of_field (omega (arith, two, le)) },
    )

-- The packet with the first of the flags set, in its bytes and in its adaptation field.
abbrev pub with_discontinuity : TsPacket → AdaptationField → ℕ → ℕ → Bytes → TsPacket
with_discontinuity p f len flags rest = record p {
  bytes =
      take p.adaptation_field_index p.bytes
      ++ ((len ∷ with_indicator true flags ∷ rest)
          ++ drop (p.adaptation_field_index + length f.bytes) p.bytes);
  adaptation_field =
      some (record f {
        bytes = len ∷ with_indicator true flags ∷ rest;
        discontinuity_indicator = true;
      });
}

module _ {T : Type 0} (to_secs : Clock → T) (lt : T → T → Bool) (plus_one : T → T) where
  -- The clock goes back, or ahead by more than a second.
  abbrev pub Jumps : T → Clock → Type 0
  Jumps last c = (lt (plus_one last) (to_secs c) ≡ true) ⊎ (lt (to_secs c) last ≡ true)

  -- What is sent for a packet that has been read, and the clock value that is remembered.
  pub data IsSent (last : T) (p : TsPacket) : Option TsPacket → T → Type 0 where
    no_clock : HasNoClock p → IsSent last p (some p) last
    steady :
        {f : AdaptationField} {c : Clock}
        → HasClock p f c
        → lt (plus_one last) (to_secs c) ≡ false
        → lt (to_secs c) last ≡ false
        → IsSent last p (some p) (to_secs c)
    jump :
        {f : AdaptationField} {c : Clock} {len flags : ℕ} {rest : Bytes}
        → HasClock p f c
        → Jumps last c
        → IsPlaced p f len flags rest
        → IsSent last p (some (with_discontinuity p f len flags rest)) (to_secs c)

  module _ (number : ℕ → Bytes) where
    module _ (p : TsPacket) (f : AdaptationField) (len flags : ℕ) (rest : Bytes)
        (bytes : f.bytes ≡ len ∷ flags ∷ rest) where
      flagged : AdaptationField
      flagged = record f {
        bytes = len ∷ with_indicator true flags ∷ rest;
        discontinuity_indicator = true;
      }

      sets : set_discontinuity_indicator true f ≡ some flagged
      unfolding set_discontinuity_indicator flagged
      sets =
          let more : ltb 1 (length (len ∷ flags ∷ rest)) ≡ true = ground arith in
          rw (bytes, set_discontinuity_indicator) (rw more refl)

      marked_placed :
          has_field p ≡ true
          → p.adaptation_field_index + length f.bytes ≤ length p.bytes
          → marked to_secs lt plus_one number f p ≡ some (with_discontinuity p f len flags rest)
      unfolding marked update_adaptation_field_bytes flagged
      marked_placed has fits =
          let inside : ltb (length p.bytes) (p.adaptation_field_index + length f.bytes) ≡ false =
            le→ltb_false (length p.bytes) (p.adaptation_field_index + length f.bytes) fits in
          let same = rw bytes at inside in
          rw (sets, marked, bytes) (rw (has, update_adaptation_field_bytes) (rw same refl))

    -- `mark` of a packet whose clock jumps.
    abbrev jumped : TsPacket → T → AdaptationField → Clock → Option TsPacket × T
    jumped p last f c = elim (set_discontinuity_indicator true f) [
      | none ↦ (none, last)
      | some g ↦ (marked to_secs lt plus_one number f p, to_secs c)
    ]

    jumped-IsSent :
        (p : TsPacket) (last : T) (f : AdaptationField) (c : Clock)
        → HasView p
        → HasClock p f c
        → Jumps last c
        → IsSent last p (jumped p last f c).0 (jumped p last f c).1
    jumped-IsSent p last f c v h j =
        let (len, flags, rest, at) = placed p f c v h in
        rw (sets p f len flags rest at.bytes, jumped)
          (rw (marked_placed p f len flags rest at.bytes at.has at.fits) (jump h j at))

    or_cases : (a b : Bool) → (a || b) ≡ true → (a ≡ true) ⊎ (b ≡ true)
    or_cases true b h = inl refl
    or_cases false b h = inr h

    or_neither : (a b : Bool) → (a || b) ≡ false → (a ≡ false) × (b ≡ false)
    or_neither true b h = cc
    or_neither false b h = (refl, h)

    sends :
        (p : TsPacket) (last : T) (r : Option TsPacket × T)
        → mark to_secs lt plus_one number p last ≡ r
        → IsSent last p r.0 r.1
        → IsSent last p
            (mark to_secs lt plus_one number p last).0
            (mark to_secs lt plus_one number p last).1
    sends p last r e h = subst (λ r. IsSent last p r.0 r.1) (sym e) h

    clocked-IsSent :
        (p : TsPacket) (last : T) (f : AdaptationField) (c : Clock)
        → HasView p
        → HasClock p f c
        → IsSent last p
            (mark to_secs lt plus_one number p last).0
            (mark to_secs lt plus_one number p last).1
    unfolding mark
    clocked-IsSent p last f c v h =
        let ahead = lt (plus_one last) (to_secs c) in
        let back = lt (to_secs c) last in
        elim (Bool-cases (ahead || back)) [
          | inl q ↦
              sends p last (jumped p last f c) (simp (h.field, mark, h.flag, h.clock, q))
                (jumped-IsSent p last f c v h (or_cases ahead back q))
          | inr q ↦
              let (a, b) = or_neither ahead back q in
              sends p last (some p, to_secs c) (simp (h.field, mark, h.flag, h.clock, q))
                (steady h a b)
        ]

    pub mark-IsSent :
        (p : TsPacket) (last : T)
        → HasView p
        → IsSent last p
            (mark to_secs lt plus_one number p last).0
            (mark to_secs lt plus_one number p last).1
    unfolding mark
    mark-IsSent p last v = elim (Option-cases p.adaptation_field) [
      | inl e ↦ sends p last (some p, last) (simp (e, mark)) (no_clock (inl e))
      | inr (f, e) ↦ elim (Bool-cases f.pcr_flag) [
        | inr q ↦ sends p last (some p, last) (simp (e, mark, q)) (no_clock (inr (f, e, inl q)))
        | inl q ↦ elim (Option-cases f.pcr) [
          | inl o ↦
              sends p last (some p, last) (simp (e, mark, q, o)) (no_clock (inr (f, e, inr o)))
          | inr (c, o) ↦ clocked-IsSent p last f c v (record { field = e; flag = q; clock = o })
        ]
      ]
    ]
