-- ===== src/Reader/Framed.antt =====
-- libmedia/tsreader.cpp: with the packet size set, a stream of whole packets is handed on packet by
-- packet, however the device cuts it.
use native.Mathlib.Nat.{div-eq_of_lt}
use streamserver_cvn.Prelude.{
  ℕ, zero, suc, ◌+◌, ◌≤◌, ◌<◌, ◌≡◌, ◌≢◌, refl, ap, ap₂, ◌∙◌, Bool, true, false, List, [], ◌∷◌, ◌++◌,
  some, ltb, leb, ◌==◌, arith, length, take, drop, drop-append, drop_all, Bytes, le→leb,
  lt→leb_false, le→ltb_false,
}
use streamserver_cvn.TsPacket.{Clock, length_basic}
use streamserver_cvn.Reader.{
  Framing, answer, check_is_ready, ts_packet_size_effective, has_sync_byte, prefix_of,
  check_packets, round, rounds, done, Search,
}
use streamserver_cvn.Reader.Device.{
  End, thrown, endless, Event, Reader, Run, buffer, with_buffer, prepend, hand_on, drain_buffer,
  drain_loop, target,
}
use streamserver_cvn.Reader.Tallies.{handed, handed-append}

abbrev pub concat : List Bytes → Bytes
concat [] = []
concat (b ∷ bs) = b ++ concat bs

-- A packet of the size, with the sync byte behind the prefix that goes with the size.
abbrev pub IsPacket : ℕ → Bytes → Type 0
IsPacket size p = (length p ≡ size) × (has_sync_byte (prefix_of size) p ≡ true)

-- What is in the buffer and what is left to read are packets, and a tail that is no packet.
pub record Framed (T : Type 0) (size : ℕ) (packets : List Bytes) (tail : Bytes) (r : Reader T)
    (rest : Bytes) : Type 0 where
  pub is_set : r.framing.ts_packet_size ≡ size
  pub is_short : length (buffer r) < size
  pub stream : buffer r ++ rest ≡ concat packets ++ tail

module _ (size : ℕ) (basic : length_basic ≤ size) where
  pub effective : (f : Framing) → f.ts_packet_size ≡ size → ts_packet_size_effective f ≡ size
  unfolding ts_packet_size_effective
  effective f e = rw (e, le→leb length_basic size basic)

  -- The search that `checkIsReady` starts with.
  abbrev start : Framing → Search
  start f = record { framing = f; buf_packet_size = size; buf_prefix_length = prefix_of size }

  round_packet :
      (f : Framing) → f.ts_packet_size ≡ size → IsPacket size f.buf → round (start f) ≡ done true f
  unfolding round check_packets
  round_packet f e p =
      let full : leb size (length f.buf) ≡ true = le→leb _ _ (omega arith) in
      let set : (f.ts_packet_size == 0) ≡ false = ground arith in
      let exact : (length f.buf == size) ≡ true = ground arith in rw (full, set) (rw (exact, p.1))

  round_empty : (f : Framing) → f.buf ≡ [] → round (start f) ≡ done false f
  unfolding round
  round_empty f b =
      let short : leb size (length f.buf) ≡ false = lt→leb_false _ _ (rw b (omega arith)) in
      rw short

  check_is_ready_done :
      (fuel : ℕ) (f : Framing) (b : Bool)
      → f.ts_packet_size ≡ size
      → round (start f) ≡ done b f
      → check_is_ready (suc fuel) f ≡ some (answer b f)
  unfolding check_is_ready
  check_is_ready_done fuel f b e r = rw (effective f e) (rw (r, rounds))

  pub target-short :
      {T : Type 0} (r : Reader T)
      → r.framing.ts_packet_size ≡ size
      → length (buffer r) < size
      → target r ≡ size
  target-short r e short = rw (effective r.framing e) (rw (div-eq_of_lt short) (omega arith))

take-append : {A : Type 0} (xs ys : List A) → take (length xs) (xs ++ ys) ≡ xs
take-append [] ys = refl
take-append (x ∷ xs) ys = ap (◌∷◌ x) (take-append xs ys)

take_all : {A : Type 0} (xs : List A) → take (length xs) xs ≡ xs
take_all [] = refl
take_all (x ∷ xs) = ap (◌∷◌ x) (take_all xs)

head_eq : {A : Type 0} {x y : A} {xs ys : List A} → x ∷ xs ≡ y ∷ ys → x ≡ y
head_eq e = cc

tail_eq : {A : Type 0} {x y : A} {xs ys : List A} → x ∷ xs ≡ y ∷ ys → xs ≡ ys
tail_eq e = cc

pub take-take_length :
    {A : Type 0} (n m : ℕ) (xs : List A)
    → take (length (take n (take m xs))) xs ≡ take n (take m xs)
take-take_length zero m xs = refl
take-take_length (suc n) zero xs = refl
take-take_length (suc n) (suc m) [] = refl
take-take_length (suc n) (suc m) (x ∷ xs) = ap (◌∷◌ x) (take-take_length n m xs)

-- A list that starts with `b` is cut where `p` ends.
pub cut_at :
    {A : Type 0} (b rest p more : List A) (k : ℕ)
    → b ++ rest ≡ p ++ more
    → length b + k ≡ length p
    → (b ++ take k rest ≡ p) × (drop k rest ≡ more)
cut_at [] rest p more k e h =
    let same : k ≡ length p = omega arith in rw (same, e) (take-append p more, drop-append p more)
cut_at (x ∷ b) rest [] more k e h = absurd (omega arith)
cut_at (x ∷ b) rest (y ∷ p) more k e h =
    let (front, back) = cut_at b rest p more k (tail_eq e) (omega arith) in
    (ap₂ ◌∷◌ (head_eq e) front, back)

module _ {T : Type 0} (to_secs : Clock → T) (le : T → T → Bool) (plus_one : T → T) where
  pub hand_on-framing :
      (bytes : Bytes) (r : Reader T)
      → (hand_on to_secs le plus_one bytes r).reader.framing ≡ r.framing
  unfolding hand_on
  hand_on-framing bytes r = refl

  -- How a reading of framed bytes ends: some of the packets have been handed on, in order, and the
  -- rest is still framed.
  pub record HandsOn (size : ℕ) (packets : List Bytes) (tail : Bytes) (run : Run T) : Type 0 where
    pub handed_on : List Bytes
    pub left : List Bytes
    pub in_order : packets ≡ handed_on ++ left
    pub events : handed run.events ≡ handed_on
    pub framed : Framed T size left tail run.reader run.rest
    pub ends : run.end ≢ endless
    pub not_thrown : run.end ≢ thrown

  module _ (size : ℕ) (basic : length_basic ≤ size) where
    abbrev emptied : Reader T → Reader T
    emptied r = with_buffer [] r

    drain_packet :
        (r : Reader T)
        → r.framing.ts_packet_size ≡ size
        → length (buffer r) ≡ size
        → drain_buffer to_secs le plus_one r ≡ hand_on to_secs le plus_one (buffer r) (emptied r)
    unfolding drain_buffer
    drain_packet r e l =
        let whole : ltb (length (buffer r)) size ≡ false = le→ltb_false _ _ (omega arith) in
        let front : take size (buffer r) ≡ buffer r = rw (← l) (take_all (buffer r)) in
        let back : drop size (buffer r) ≡ [] = drop_all size (buffer r) (omega arith) in
        rw (effective size basic r.framing e, whole) (rw (front, back))

    drain_loop_ready :
        (fuel : ℕ) (go_on : Reader T → Run T) (rest : Bytes) (r q : Reader T) (es : List (Event T))
        → check_is_ready fuel r.framing ≡ some (answer true r.framing)
        → drain_buffer to_secs le plus_one r ≡ record { drained = true; reader = q; events = es }
        → drain_loop to_secs le plus_one (suc fuel) go_on rest r
          ≡ prepend es (drain_loop to_secs le plus_one fuel go_on rest q)
    unfolding drain_loop
    drain_loop_ready fuel go_on rest r q es c d = rw (c, drain_loop) (rw d)

    drain_loop_waits :
        (fuel : ℕ) (go_on : Reader T → Run T) (rest : Bytes) (r : Reader T)
        → check_is_ready fuel r.framing ≡ some (answer false r.framing)
        → drain_loop to_secs le plus_one (suc fuel) go_on rest r ≡ go_on r
    unfolding drain_loop
    drain_loop_waits fuel go_on rest r c = rw (c, drain_loop)

    -- A buffer of one packet is drained, and then the reading goes on.
    pub drain_loop_packet :
        (fuel : ℕ) (go_on : Reader T → Run T) (rest : Bytes) (r : Reader T)
        → r.framing.ts_packet_size ≡ size
        → IsPacket size (buffer r)
        → let d = hand_on to_secs le plus_one (buffer r) (emptied r) in
          drain_loop to_secs le plus_one (suc (suc (suc fuel))) go_on rest r
          ≡ prepend d.events (go_on d.reader)
    drain_loop_packet fuel go_on rest r e p =
        let d = hand_on to_secs le plus_one (buffer r) (emptied r) in
        let ready =
          check_is_ready_done size basic (suc fuel) r.framing true e
            (round_packet size basic r.framing e p) in
        let later =
          check_is_ready_done size basic fuel (emptied r).framing false e
            (round_empty size basic (emptied r).framing refl) in
        drain_loop_ready (suc (suc fuel)) go_on rest r d.reader d.events ready
          (drain_packet r e p.0 ∙ unfold hand_on in refl)
        ∙ ap (prepend d.events)
            (drain_loop_waits (suc fuel) go_on rest d.reader (unfold hand_on in later))

    pub HandsOn-nothing :
        (packets : List Bytes) (tail rest : Bytes) (r : Reader T) (end : End) (es : List (Event T))
        → Framed T size packets tail r rest
        → end ≢ endless
        → end ≢ thrown
        → handed es ≡ []
        → HandsOn size packets tail (record { end = end; reader = r; rest = rest; events = es })
    HandsOn-nothing packets tail rest r end es f n m h = record {
      handed_on = [];
      left = packets;
      in_order = refl;
      events = h;
      framed = f;
      ends = n;
      not_thrown = m;
    }

    pub HandsOn-packet :
        (p : Bytes) (packets : List Bytes) (tail : Bytes) (es : List (Event T)) (run : Run T)
        → handed es ≡ p ∷ []
        → HandsOn size packets tail run
        → HandsOn size (p ∷ packets) tail (prepend es run)
    HandsOn-packet p packets tail es run h k = record {
      handed_on = p ∷ k.handed_on;
      left = k.left;
      in_order = ap (◌∷◌ p) k.in_order;
      events = handed-append es run.events ∙ rw (h, k.events);
      framed = k.framed;
      ends = k.ends;
      not_thrown = k.not_thrown;
    }
