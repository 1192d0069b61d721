-- ===== src/Reader/Tallies.antt =====
-- libmedia/tsreader.cpp: the counters of the reader against the signals that it has emitted.
use streamserver_cvn.Prelude.{
  ℕ, zero, suc, ◌+◌, ◌-◌, ◌≡◌, refl, inl, inr, Bool, true, false, List, [], ◌∷◌, ◌++◌, Option, none,
  some, ltb, ◌==◌, arith, length, length-append, take, drop, Bytes, Bool-cases,
}
use streamserver_cvn.TsPacket.{Clock, TsPacket}
use streamserver_cvn.TsPacket.Packet.{packet_of}
use streamserver_cvn.TsPacket.View.{packet_of-bytes}
use streamserver_cvn.Reader.{
  Framing, Error, Ready, answer, exception, check_is_ready, ts_packet_size_effective,
}
use streamserver_cvn.Reader.Device.{
  Position, Event, ts_packet_ready, discont_encountered, error_encountered, eof_encountered, Reader,
  ReadResult, failed, up_to, Run, buffer, with_buffer, with_framing, check_is_discontinuity,
  error_event, hand_on, drain_buffer, drain_loop, target, read_data,
}

-- What a call of `checkIsReady` can come to.
pub data View (o : Option Ready) : Type 0 where
  ran_out : o ≡ none → View o
  has_thrown : (x : Error) (f : Framing) → o ≡ some (exception x f) → View o
  not_ready : (f : Framing) → o ≡ some (answer false f) → View o
  is_ready : (f : Framing) → o ≡ some (answer true f) → View o

pub view : (o : Option Ready) → View o
view none = ran_out refl
view (some (exception x f)) = has_thrown x f refl
view (some (answer false f)) = not_ready f refl
view (some (answer true f)) = is_ready f refl

module _ {T : Type 0} where
  -- The bytes of each packet that was handed on, in order.
  abbrev pub handed : List (Event T) → List Bytes
  handed [] = []
  handed (ts_packet_ready x p ∷ es) = p.bytes ∷ handed es
  handed (discont_encountered x t ∷ es) = handed es
  handed (error_encountered k ∷ es) = handed es
  handed (eof_encountered ∷ es) = handed es

  abbrev pub disconts : List (Event T) → ℕ
  disconts [] = 0
  disconts (ts_packet_ready x p ∷ es) = disconts es
  disconts (discont_encountered x t ∷ es) = disconts es + 1
  disconts (error_encountered k ∷ es) = disconts es
  disconts (eof_encountered ∷ es) = disconts es

  pub handed-append : (es fs : List (Event T)) → handed (es ++ fs) ≡ handed es ++ handed fs
  handed-append [] fs = refl
  handed-append (ts_packet_ready x p ∷ es) fs = rw (handed-append es fs)
  handed-append (discont_encountered x t ∷ es) fs = handed-append es fs
  handed-append (error_encountered k ∷ es) fs = handed-append es fs
  handed-append (eof_encountered ∷ es) fs = handed-append es fs

  disconts-append : (es fs : List (Event T)) → disconts (es ++ fs) ≡ disconts es + disconts fs
  disconts-append [] fs = omega arith
  disconts-append (ts_packet_ready x p ∷ es) fs = disconts-append es fs
  disconts-append (discont_encountered x t ∷ es) fs = omega (arith, disconts-append es fs)
  disconts-append (error_encountered k ∷ es) fs = disconts-append es fs
  disconts-append (eof_encountered ∷ es) fs = disconts-append es fs

abbrev pub total_length : List Bytes → ℕ
total_length [] = 0
total_length (b ∷ bs) = length b + total_length bs

total_length-append :
    (as' bs : List Bytes) → total_length (as' ++ bs) ≡ total_length as' + total_length bs
total_length-append [] bs = omega arith
total_length-append (a ∷ as') bs = omega (arith, total_length-append as' bs)

-- From one position to another the counters have moved by what the signals say.
pub record Tallies {T : Type 0} (x : Position) (events : List (Event T)) (y : Position)
    : Type 0 where
  pub packets : y.ts_packet_count ≡ x.ts_packet_count + length (handed events)
  pub bytes : y.ts_packet_offset ≡ x.ts_packet_offset + total_length (handed events)
  pub segments : y.discont_segment ≡ x.discont_segment + disconts events

module _ {T : Type 0} where
  Tallies-append :
      (es fs : List (Event T)) {x y z : Position}
      → Tallies x es y
      → Tallies y fs z
      → Tallies x (es ++ fs) z
  Tallies-append es fs t u = record {
    packets =
        rw (handed-append es fs)
          (omega (arith, t.packets, u.packets, length-append (handed es) (handed fs)));
    bytes =
        rw (handed-append es fs)
          (omega (arith, t.bytes, u.bytes, total_length-append (handed es) (handed fs)));
    segments = omega (arith, t.segments, u.segments, disconts-append es fs);
  }

  -- A signal that no counter counts.
  Tallies-quiet :
      (es : List (Event T)) (x : Position) → handed es ≡ [] → disconts es ≡ 0 → Tallies x es x
  Tallies-quiet es x h d = record {
    packets = rw h (omega arith);
    bytes = rw h (omega arith);
    segments = omega arith;
  }

handed-error_event :
    {T : Type 0} (p : TsPacket) (es : List (Event T))
    → (handed (error_event p ++ es) ≡ handed es) × (disconts (error_event p ++ es) ≡ disconts es)
handed-error_event p es = ground arith

module _ {T : Type 0} (to_secs : Clock → T) (le : T → T → Bool) (plus_one : T → T) where
  -- The signals of a packet end with the packet itself, whose bytes are those that were drained.
  pub handed-hand_on :
      (bytes : Bytes) (r : Reader T)
      → handed (hand_on to_secs le plus_one bytes r).events ≡ bytes ∷ []
  unfolding hand_on
  handed-hand_on bytes r =
      let p = packet_of bytes in
      let same = packet_of-bytes bytes in
      elim (Bool-cases (check_is_discontinuity to_secs le plus_one p r.last_pcr).0) [
        | inl e ↦ rw e (rw ((handed-error_event p _).0, same))
        | inr e ↦ rw e (rw ((handed-error_event p _).0, same))
      ]

  disconts-hand_on :
      (bytes : Bytes) (r : Reader T)
      → let d = hand_on to_secs le plus_one bytes r in
        d.reader.position.discont_segment ≡ r.position.discont_segment + disconts d.events
  unfolding hand_on
  disconts-hand_on bytes r =
      let p = packet_of bytes in
      elim (Bool-cases (check_is_discontinuity to_secs le plus_one p r.last_pcr).0) [
        | inl e ↦ rw e (rw (handed-error_event p _).1 (omega arith))
        | inr e ↦ rw e (rw (handed-error_event p _).1 (omega arith))
      ]

  pub counters-hand_on :
      (bytes : Bytes) (r : Reader T)
      → let d = hand_on to_secs le plus_one bytes r in
        (d.reader.position.ts_packet_count ≡ r.position.ts_packet_count + 1)
        × (d.reader.position.ts_packet_offset ≡ r.position.ts_packet_offset + length bytes)
  unfolding hand_on
  counters-hand_on bytes r =
      let p = packet_of bytes in
      elim (Bool-cases (check_is_discontinuity to_secs le plus_one p r.last_pcr).0) [
        | inl e ↦ rw e (refl, refl)
        | inr e ↦ rw e (refl, refl)
      ]

  hand_on-Tallies :
      (bytes : Bytes) (r : Reader T)
      → let d = hand_on to_secs le plus_one bytes r in Tallies r.position d.events d.reader.position
  hand_on-Tallies bytes r =
      let (count, offset) = counters-hand_on bytes r in
      record {
        packets = rw (handed-hand_on bytes r) count;
        bytes = rw (handed-hand_on bytes r) (omega arith);
        segments = disconts-hand_on bytes r;
      }

  drain_buffer-Tallies :
      (r : Reader T)
      → let d = drain_buffer to_secs le plus_one r in Tallies r.position d.events d.reader.position
  unfolding drain_buffer
  drain_buffer-Tallies r =
      let size = ts_packet_size_effective r.framing in
      elim (Bool-cases (ltb (length (buffer r)) size)) [
        | inl e ↦ rw e (Tallies-quiet [] r.position refl refl)
        | inr e ↦
            rw e (hand_on-Tallies (take size (buffer r)) (with_buffer (drop size (buffer r)) r))
      ]

  pub drain_buffer-nothing :
      (r : Reader T)
      → (drain_buffer to_secs le plus_one r).drained ≡ false
      → (drain_buffer to_secs le plus_one r).reader ≡ r
  unfolding drain_buffer hand_on
  drain_buffer-nothing r h =
      elim (Bool-cases (ltb (length (buffer r)) (ts_packet_size_effective r.framing))) [
        | inl e ↦ rw e
        | inr e ↦ absurd (let z = rw e at h in cc)
      ]

  abbrev TalliesRun : Position → Run T → Type 0
  TalliesRun x run = Tallies x run.events run.reader.position

  drain_loop-Tallies :
      (fuel : ℕ) (go_on : Reader T → Run T) (rest : Bytes) (r : Reader T)
      → ((q : Reader T) → TalliesRun q.position (go_on q))
      → TalliesRun r.position (drain_loop to_secs le plus_one fuel go_on rest r)
  unfolding drain_loop
  drain_loop-Tallies zero go_on rest r keep = Tallies-quiet [] r.position refl refl
  drain_loop-Tallies (suc fuel) go_on rest r keep = elim (view (check_is_ready fuel r.framing)) [
    | ran_out e ↦ rw (e, drain_loop) (Tallies-quiet [] r.position refl refl)
    | has_thrown x f e ↦
        rw (e, drain_loop) (Tallies-quiet (error_encountered _ ∷ []) r.position refl refl)
    | not_ready f e ↦ rw (e, drain_loop) (keep (with_framing f r))
    | is_ready f e ↦
        let d = drain_buffer to_secs le plus_one (with_framing f r) in
        let first = drain_buffer-Tallies (with_framing f r) in
        rw (e, drain_loop)
          (elim (Bool-cases d.drained) [
            | inl y ↦
                rw y (
                  Tallies-append d.events _ first
                    (drain_loop-Tallies fuel go_on rest d.reader keep))
            | inr n ↦ rw n (
                let quiet = drain_buffer-nothing (with_framing f r) n in
                rw quiet (keep (with_framing f r)))
          ])
  ]

  -- Whatever the device answers and however reading ends, the counters of the reader agree with the
  -- signals that it emits meanwhile: the packet count grows by the number of packets that are handed
  -- on, the offset by their bytes, and the discontinuity segment by the number of discontinuities.
  pub read_data-Tallies :
      (fuel : ℕ) (answers : List ReadResult) (rest : Bytes) (r : Reader T)
      → TalliesRun r.position (read_data to_secs le plus_one fuel answers rest r)
  unfolding read_data
  read_data-Tallies fuel [] rest r = Tallies-quiet [] r.position refl refl
  read_data-Tallies fuel (failed ∷ as') rest r =
      Tallies-quiet (error_encountered _ ∷ []) r.position refl refl
  read_data-Tallies fuel (up_to n ∷ as') rest r =
      let got = take n (take (target r - length (buffer r)) rest) in
      let filled = with_buffer (buffer r ++ got) r in
      elim (Bool-cases (length got == 0)) [
        | inl e ↦ rw e (Tallies-quiet (eof_encountered ∷ []) r.position refl refl)
        | inr e ↦ rw e (elim (Bool-cases (ltb (length (buffer r) + length got) (target r))) [
          | inl s ↦ rw s (Tallies-quiet [] r.position refl refl)
          | inr s ↦ rw s (
              drain_loop-Tallies fuel
                (read_data to_secs le plus_one fuel as' (drop (length got) rest))
                (drop (length got) rest) filled
                (read_data-Tallies fuel as' (drop (length got) rest)))
        ])
      ]
