-- ===== src/Reader/Numbering.antt =====
-- libmedia/tsreader.cpp: the packet counts that the handlers of the reader's signals see.
use streamserver_cvn.Prelude.{
  ℕ, zero, suc, ◌+◌, ◌-◌, ◌≡◌, refl, subst, inl, inr, Bool, List, [], ◌∷◌, ◌++◌, arith, ltb, ◌==◌,
  length, take, drop, Bytes, Bool-cases, Option-cases,
}
use streamserver_cvn.TsPacket.{Clock, TsPacket}
use streamserver_cvn.TsPacket.Packet.{packet_of}
use streamserver_cvn.Reader.{check_is_ready, ts_packet_size_effective}
use streamserver_cvn.Reader.Device.{
  Event, ts_packet_ready, discont_encountered, error_encountered, eof_encountered, Reader,
  ReadResult, failed, up_to, Run, error_event, check_is_discontinuity, hand_on, drain_buffer,
  drain_loop, read_data, buffer, with_buffer, with_framing, target,
}
use streamserver_cvn.Reader.Tallies.{
  drain_buffer-nothing, counters-hand_on, ran_out, has_thrown, not_ready, is_ready, view,
}

-- The packets of the signals are counted from `k` on, and nothing follows the end of the input.
abbrev pub Numbered : {T : Type 0} → ℕ → List (Event T) → Type 0
Numbered k [] = Unit {0}
Numbered k (ts_packet_ready x p ∷ es) = (x.ts_packet_count ≡ suc k) × Numbered (suc k) es
Numbered k (discont_encountered x last ∷ es) = Numbered k es
Numbered k (error_encountered kind ∷ es) = Numbered k es
Numbered k (eof_encountered ∷ es) = es ≡ []

module _ {T : Type 0} where
  error_event-Numbered :
      (p : TsPacket) (k : ℕ) (e : Event T) (es : List (Event T))
      → Numbered k (e ∷ es)
      → Numbered k ((error_event p ++ e ∷ []) ++ es)
  error_event-Numbered p k e es h = elim (Option-cases p.error_message) [
    | inl q ↦ rw q h
    | inr (x, q) ↦ rw q h
  ]

module _ {T : Type 0} (to_secs : Clock → T) (le : T → T → Bool) (plus_one : T → T) where
  hand_on-Numbered :
      (bytes : Bytes) (r : Reader T) (es : List (Event T))
      → Numbered (suc r.position.ts_packet_count) es
      → Numbered r.position.ts_packet_count ((hand_on to_secs le plus_one bytes r).events ++ es)
  unfolding hand_on
  hand_on-Numbered bytes r es h =
      let p = packet_of bytes in
      elim (Bool-cases (check_is_discontinuity to_secs le plus_one p r.last_pcr).0) [
        | inl e ↦ rw e (error_event-Numbered p r.position.ts_packet_count _ es (omega arith, h))
        | inr e ↦ rw e (error_event-Numbered p r.position.ts_packet_count _ es (omega arith, h))
      ]

  drain_buffer-Numbered :
      (r : Reader T) (es : List (Event T))
      → let d = drain_buffer to_secs le plus_one r in
        Numbered d.reader.position.ts_packet_count es
        → Numbered r.position.ts_packet_count (d.events ++ es)
  unfolding drain_buffer
  drain_buffer-Numbered r es h =
      let size = ts_packet_size_effective r.framing in
      elim (Bool-cases (ltb (length (buffer r)) size)) [
        | inl e ↦ rw (e, drain_buffer) (let z = h in rw (e, drain_buffer) at z)
        | inr e ↦
            let bytes = take size (buffer r) in
            let rest = with_buffer (drop size (buffer r)) r in
            let later = rw (e, drain_buffer) at h in
            let count : (hand_on to_secs le plus_one bytes rest).reader.position.ts_packet_count
                ≡ suc rest.position.ts_packet_count =
              omega (arith, (counters-hand_on to_secs le plus_one bytes rest).0) in
            rw (e, drain_buffer)
              (hand_on-Numbered bytes rest es (subst (λ k. Numbered k es) count later))
      ]

  drain_loop-Numbered :
      (fuel : ℕ) (go_on : Reader T → Run T) (rest : Bytes) (r : Reader T)
      → ((q : Reader T) → Numbered q.position.ts_packet_count (go_on q).events)
      → Numbered r.position.ts_packet_count
          (drain_loop to_secs le plus_one fuel go_on rest r).events
  unfolding drain_loop
  drain_loop-Numbered zero go_on rest r keep = tt
  drain_loop-Numbered (suc fuel) go_on rest r keep = elim (view (check_is_ready fuel r.framing)) [
    | ran_out e ↦ rw (e, drain_loop) tt
    | has_thrown x f e ↦ rw (e, drain_loop) tt
    | not_ready f e ↦ rw (e, drain_loop) (keep (with_framing f r))
    | is_ready f e ↦
        let d = drain_buffer to_secs le plus_one (with_framing f r) in
        rw (e, drain_loop)
          (elim (Bool-cases d.drained) [
            | inl y ↦ rw y (
                drain_buffer-Numbered (with_framing f r) _
                  (drain_loop-Numbered fuel go_on rest d.reader keep))
            | inr n ↦ rw n (
                let quiet = drain_buffer-nothing to_secs le plus_one (with_framing f r) n in
                rw quiet (keep (with_framing f r)))
          ])
  ]

  -- The packets that the signals of a reading hand on have the numbers after those that were handed on
  -- before, one after another, and the end of the input is the last signal.
  pub read_data-Numbered :
      (fuel : ℕ) (answers : List ReadResult) (rest : Bytes) (r : Reader T)
      → Numbered r.position.ts_packet_count
          (read_data to_secs le plus_one fuel answers rest r).events
  unfolding read_data
  read_data-Numbered fuel [] rest r = tt
  read_data-Numbered fuel (failed ∷ as') rest r = tt
  read_data-Numbered fuel (up_to n ∷ as') rest r =
      let got = take n (take (target r - length (buffer r)) rest) in
      let filled = with_buffer (buffer r ++ got) r in
      elim (Bool-cases (length got == 0)) [
        | inl e ↦ rw e refl
        | inr e ↦ rw e (elim (Bool-cases (ltb (length (buffer r) + length got) (target r))) [
          | inl s ↦ rw s tt
          | inr s ↦ rw s (
              drain_loop-Numbered fuel
                (read_data to_secs le plus_one fuel as' (drop (length got) rest))
                (drop (length got) rest) filled
                (read_data-Numbered fuel as' (drop (length got) rest)))
        ])
      ]
