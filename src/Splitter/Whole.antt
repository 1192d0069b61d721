-- ===== src/Splitter/Whole.antt =====
-- libmedia/tsreader.cpp with ts-split/splitter.cpp: a reader whose signals a splitter handles.
use streamserver_cvn.Prelude.{
  ℕ, zero, suc, ◌+◌, ◌-◌, ◌≤◌, ◌<◌, ◌≡◌, refl, sym, ap, subst, ◌∙◌, inl, inr, Bool, true, false,
  List, [], ◌∷◌, ◌++◌, arith, ltb, if◌then◌else◌, length, take, drop, Bytes, All, Bool-cases,
  ltb→lt, ltb_false→le, ◌⊎◌,
}
use streamserver_cvn.Prelude.Outcome.{ok}
use streamserver_cvn.TsPacket.{Clock, length_basic}
use streamserver_cvn.Reader.Device.{
  Event, ts_packet_ready, discont_encountered, error_encountered, eof_encountered, Reader,
  ReadResult, read_data,
}
use streamserver_cvn.Reader.Tallies.{handed}
use streamserver_cvn.Reader.Framed.{concat, IsPacket, Framed}
use streamserver_cvn.Reader.Cutting.{read_data-HandsOn}
use streamserver_cvn.Reader.Numbering.{Numbered, read_data-Numbered}
use streamserver_cvn.Splitter.{Splitter}
use streamserver_cvn.Splitter.Handlers.{Files, handle_all}
use streamserver_cvn.Splitter.Writing.{written}
use streamserver_cvn.Splitter.Window.{in_window}
use streamserver_cvn.Splitter.Signals.{selected}
use streamserver_cvn.Splitter.Selected.{IsNew, handle_all-selected}

take_nil : (n : ℕ) → concat (take n []) ≡ []
take_nil zero = refl
take_nil (suc n) = refl

drop_nil : (n : ℕ) → drop {A = Bytes} n [] ≡ []
drop_nil zero = refl
drop_nil (suc n) = refl

inside : (m n k : ℕ) → m ≤ k → ltb k (m + n) ≡ true → in_window m n k ≡ true
inside m n k h e = ground arith

outside : (m n k : ℕ) → (k < m) ⊎ (m + n ≤ k) → in_window m n k ≡ false
outside m n k (inl h) = ground arith
outside m n k (inr h) = ground arith

module _ (f m n : ℕ) where
  -- Of packets that are counted from `k` on, those in the window.
  picked : ℕ → List Bytes → Bytes
  picked k [] = []
  picked k (p ∷ ps) = (if in_window m n (suc k) then p else []) ++ picked (suc k) ps

  selected-handed :
      {T : Type 0} (k : ℕ) (es : List (Event T))
      → Numbered k es
      → selected f m n es ≡ picked k (handed es)
  unfolding picked
  selected-handed k [] h = refl
  selected-handed k (ts_packet_ready x p ∷ es) (number, later) =
      rw (number, selected-handed (suc k) es later)
  selected-handed k (discont_encountered x last ∷ es) h = selected-handed k es h
  selected-handed k (error_encountered kind ∷ es) h = selected-handed k es h
  selected-handed k (eof_encountered ∷ es) h = rw h

  -- From the first packet of the window on, and before it.
  picked_inside :
      (k : ℕ) (ps : List Bytes) → m ≤ suc k → picked k ps ≡ concat (take (m + n - suc k) ps)
  unfolding picked
  picked_inside k [] h = sym (take_nil (m + n - suc k))
  picked_inside k (p ∷ ps) h =
      let ih = picked_inside (suc k) ps (omega arith) in
      elim (Bool-cases (ltb (suc k) (m + n))) [
        | inl e ↦
            let w = inside m n (suc k) h e in
            let more : suc (m + n - suc (suc k)) ≡ m + n - suc k =
              omega (arith, ltb→lt (suc k) (m + n) e) in
            rw w (ap (p ++◌) ih ∙ ap (λ i. concat (take i (p ∷ ps))) more)
        | inr e ↦
            let past = ltb_false→le (suc k) (m + n) e in
            let w = outside m n (suc k) (inr past) in
            let none_left : m + n - suc k ≡ 0 = omega arith in
            let none_later : m + n - suc (suc k) ≡ 0 = omega arith in
            rw w (
              ih
              ∙ ap (λ i. concat (take i ps)) none_later
              ∙ ap (λ i. concat (take i (p ∷ ps))) (sym none_left))
      ]

  picked_before :
      (k : ℕ) (ps : List Bytes) → suc k ≤ m → picked k ps ≡ concat (take n (drop (m - suc k) ps))
  unfolding picked
  picked_before k [] h = rw drop_nil (sym (take_nil n))
  picked_before k (p ∷ ps) h = elim (Bool-cases (ltb (suc k) m)) [
    | inl e ↦
        let early = ltb→lt (suc k) m e in
        let w = outside m n (suc k) (inl early) in
        let more : suc (m - suc (suc k)) ≡ m - suc k = omega arith in
        rw w (picked_before (suc k) ps early ∙ ap (λ i. concat (take n (drop i (p ∷ ps)))) more)
    | inr e ↦
        let here = ltb_false→le (suc k) m e in
        let all : m + n - suc k ≡ n = omega arith in
        let at_once : 0 ≡ m - suc k = omega arith in
        picked_inside k (p ∷ ps) here
        ∙ ap (λ i. concat (take i (p ∷ ps))) all
        ∙ ap (λ i. concat (take n (drop i (p ∷ ps)))) at_once
  ]

module _ {T : Type 0} (to_secs : Clock → T) (le : T → T → Bool) (plus_one : T → T) (size : ℕ)
    (basic : length_basic ≤ size) (tail : Bytes) (no_packet : length tail < size) where
  -- A reader that has handed on nothing yet reads a stream of packets of the set size, each with its
  -- sync byte in place, and a splitter handles its signals without stopping with an error; it has
  -- a request for `n` packets from the packet number `m` on, with a file of its own that does not
  -- exist, among any other requests and templates. Then the packets that the reader's signals hand
  -- on are the front of the stream, the rest of which is what its buffer and its input still hold,
  -- and what has been queued for that file is the first `n` of the packets that the signals hand on
  -- behind the first `m - 1`, byte by byte, whatever the devices of the input and of the files answer.
  pub split-Framed :
      (files : Files) (f m n fuel : ℕ) (answers : List ReadResult) (packets : List Bytes)
      (rest : Bytes) (r : Reader T) (s t : Splitter)
      → All (IsPacket size) packets
      → Framed T size packets tail r rest
      → r.position.ts_packet_count ≡ 0
      → IsNew f m n s
      → handle_all files
          (read_data to_secs le plus_one (suc (suc (suc fuel))) answers rest r).events
          s
        ≡ ok tt t
      → let run = read_data to_secs le plus_one (suc (suc (suc fuel))) answers rest r in
        (left : List Bytes) × ((packets ≡ handed run.events ++ left)
          × (Framed T size left tail run.reader run.rest
              × (written f t ≡ concat (take n (drop (m - 1) (handed run.events))))))
  split-Framed files f m n fuel answers packets rest r s t are framed fresh new handles =
      let run = read_data to_secs le plus_one (suc (suc (suc fuel))) answers rest r in
      let h =
        read_data-HandsOn to_secs le plus_one size basic tail no_packet fuel answers packets rest r
          are framed in
      let numbered =
        subst (λ k. Numbered k run.events) fresh
          (read_data-Numbered to_secs le plus_one (suc (suc (suc fuel))) answers rest r) in
      (
        h.left,
        (
          h.in_order ∙ ap (λ ps. ps ++ h.left) (sym h.events),
          (
            h.framed,
            handle_all-selected files f m n run.events s t numbered new handles
                ∙ selected-handed f m n 0 run.events numbered
                ∙ picked_before f m n 0 (handed run.events) new.positive,
          ),
        ),
      )
