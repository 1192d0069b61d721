-- ===== src/Reader/Cutting.antt =====
-- libmedia/tsreader.cpp: `readData` on a stream of whole packets, by the answers of the device.
use streamserver_cvn.Prelude.{
  ℕ, suc, ◌+◌, ◌-◌, ◌≤◌, ◌<◌, ◌≡◌, refl, sym, ap, ◌∙◌, inl, inr, Bool, List, [], ◌∷◌, ◌++◌,
  append_assoc, ltb, ◌==◌, arith, length, length-append, length-take, take, drop, take-append-drop,
  Bytes, All, Bool-cases, ltb→lt,
}
use streamserver_cvn.TsPacket.{Clock, length_basic}
use streamserver_cvn.Reader.Device.{
  io_error, end_of_file, short_read, unanswered, error_encountered, eof_encountered, io, Reader,
  ReadResult, failed, up_to, Run, drain_loop, buffer, with_buffer, hand_on, read_data,
}
use streamserver_cvn.Reader.Tallies.{handed-hand_on}
use streamserver_cvn.Reader.Framed.{
  concat, IsPacket, Framed, HandsOn, target-short, take-take_length, cut_at, drain_loop_packet,
  HandsOn-nothing, HandsOn-packet,
}

-- What a read hands over is the front of what is left.
abbrev read : ℕ → ℕ → Bytes → Bytes
read n wanted rest = take n (take wanted rest)

read-front :
    (n wanted : ℕ) (rest : Bytes)
    → read n wanted rest ++ drop (length (read n wanted rest)) rest ≡ rest
read-front n wanted rest =
    ap (λ z. z ++ drop (length (read n wanted rest)) rest) (sym (take-take_length n wanted rest))
    ∙ take-append-drop (length (read n wanted rest)) rest

read-le : (n wanted : ℕ) (rest : Bytes) → length (read n wanted rest) ≤ wanted
read-le n wanted rest = omega (arith, length-take n (take wanted rest), length-take wanted rest)

module _ {T : Type 0} (to_secs : Clock → T) (le : T → T → Bool) (plus_one : T → T) where
  module _ (size : ℕ) (basic : length_basic ≤ size) (tail : Bytes)
      (no_packet : length tail < size) where
    -- A read that does not fill the buffer up to a packet leaves the stream framed.
    short_read-Framed :
        (packets : List Bytes) (rest got : Bytes) (r : Reader T)
        → Framed T size packets tail r rest
        → got ++ drop (length got) rest ≡ rest
        → length (buffer r) + length got < size
        → Framed T size packets tail (with_buffer (buffer r ++ got) r) (drop (length got) rest)
    short_read-Framed packets rest got r f e short = record {
      is_set = f.is_set;
      is_short = omega (arith, length-append (buffer r) got);
      stream = append_assoc (buffer r) got (drop (length got) rest) ∙ (rw e f.stream);
    }

    -- A read that does fill it up has the next packet in the buffer.
    full_read :
        (packets : List Bytes) (rest got : Bytes) (r : Reader T)
        → Framed T size packets tail r rest
        → All (IsPacket size) packets
        → got ++ drop (length got) rest ≡ rest
        → got ≡ take (length got) rest
        → length (buffer r) + length got ≡ size
        → (p : Bytes) × (more : List Bytes) × (packets ≡ p ∷ more)
          × IsPacket size p
          × All (IsPacket size) more
          × (buffer r ++ got ≡ p)
          × (drop (length got) rest ≡ concat more ++ tail)
    full_read [] rest got r f are e front full = absurd (
        omega (
          arith,
          ap length f.stream,
          ap length e,
          length-append (buffer r) rest,
          length-append got (drop (length got) rest),
        ))
    full_read (p ∷ more) rest got r f are e front full =
        let (a, b) =
          cut_at (buffer r) rest p (concat more ++ tail) (length got)
            (f.stream ∙ append_assoc p (concat more) tail) (omega (arith, are.0.0)) in
        (p, more, refl, are.0, are.1, rw (← front) at a, b)

    hand_on-Framed :
        (p : Bytes) (more : List Bytes) (rest : Bytes) (r : Reader T)
        → r.framing.ts_packet_size ≡ size
        → rest ≡ concat more ++ tail
        → Framed T size more tail (hand_on to_secs le plus_one p (with_buffer [] r)).reader rest
    unfolding hand_on
    hand_on-Framed p more rest r e s = record { is_set = e; is_short = omega arith; stream = s }

    drain_loop-HandsOn :
        (fuel : ℕ) (go_on : Reader T → Run T) (packets more : List Bytes) (p rest : Bytes)
        (r : Reader T)
        → packets ≡ p ∷ more
        → IsPacket size p
        → buffer r ≡ p
        → r.framing.ts_packet_size ≡ size
        → rest ≡ concat more ++ tail
        → ((q : Reader T)
            → Framed T size more tail q rest
            → HandsOn to_secs le plus_one size more tail (go_on q))
        → HandsOn to_secs le plus_one size packets tail
            (drain_loop to_secs le plus_one (suc (suc (suc fuel))) go_on rest r)
    drain_loop-HandsOn fuel go_on packets more p rest r split is b e s next =
        rw (split, ← b)
          (rw (drain_loop_packet to_secs le plus_one size basic fuel go_on rest r e (rw b is)) (
            HandsOn-packet to_secs le plus_one size basic (buffer r) more tail _ _
              (handed-hand_on to_secs le plus_one (buffer r) (with_buffer [] r))
              (next _ (hand_on-Framed (buffer r) more rest r e s))))

    -- Reading from a stream of packets of the set size, each with its sync byte in place, hands on the
    -- packets one by one and in their order, whatever the device answers: short reads, errors and
    -- the end of the input included. What is in the buffer and what is left to read are the
    -- packets that have not been handed on, and the reading neither throws nor runs on for ever.
    pub read_data-HandsOn :
        (fuel : ℕ) (answers : List ReadResult) (packets : List Bytes) (rest : Bytes) (r : Reader T)
        → All (IsPacket size) packets
        → Framed T size packets tail r rest
        → HandsOn to_secs le plus_one size packets tail
            (read_data to_secs le plus_one (suc (suc (suc fuel))) answers rest r)
    unfolding read_data
    read_data-HandsOn fuel [] packets rest r are f =
        HandsOn-nothing to_secs le plus_one size basic packets tail rest r unanswered [] f (λ e. cc)
          (λ e. cc) refl
    read_data-HandsOn fuel (failed ∷ as') packets rest r are f =
        HandsOn-nothing to_secs le plus_one size basic packets tail rest r io_error
          (error_encountered io ∷ []) f (λ e. cc) (λ e. cc) refl
    read_data-HandsOn fuel (up_to n ∷ as') packets rest r are f =
        let got = read n (size - length (buffer r)) rest in
        let left = drop (length got) rest in
        let filled = with_buffer (buffer r ++ got) r in
        let go_on = read_data to_secs le plus_one (suc (suc (suc fuel))) as' left in
        let front = read-front n (size - length (buffer r)) rest in
        rw (target-short size basic r f.is_set f.is_short) (elim (Bool-cases (length got == 0)) [
          | inl e ↦ rw e (
              HandsOn-nothing to_secs le plus_one size basic packets tail rest r end_of_file
                (eof_encountered ∷ []) f (λ e. cc) (λ e. cc) refl)
          | inr e ↦ rw e (elim (Bool-cases (ltb (length (buffer r) + length got) size)) [
            | inl s ↦ rw s (
                HandsOn-nothing to_secs le plus_one size basic packets tail left filled short_read
                  [] (short_read-Framed packets rest got r f front (ltb→lt _ _ s)) (λ e. cc)
                  (λ e. cc) refl)
            | inr s ↦
                let full : length (buffer r) + length got ≡ size =
                  ground (arith, read-le n (size - length (buffer r)) rest, f.is_short) in
                let (p, more, split, is, all, b, l) =
                  full_read packets rest got r f are front
                    (sym (take-take_length n (size - length (buffer r)) rest)) full in
                rw s (
                  drain_loop-HandsOn fuel go_on packets more p left filled split is b f.is_set l
                    (λ q g. read_data-HandsOn fuel as' more left q all g))
          ])
        ])
