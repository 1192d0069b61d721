-- ===== src/Splitter/Steps.antt =====
-- ts-split/splitter.cpp: what handling a packet does to a request for a number of packets.
use streamserver_cvn.Prelude.{
  ℕ, suc, ◌+◌, ◌≤◌, ◌<◌, ◌≡◌, refl, sym, ap, ◌∙◌, inl, inr, Bool, true, false, [], ◌∷◌, ◌++◌,
  append-nil, Option, none, leb, arith, if◌then◌else◌, Bytes, Bool-cases, le→leb, lt→leb_false,
  leb→le,
}
use streamserver_cvn.Prelude.Outcome.{Outcome, ok, err, pure, ◌>>=◌, ◌>>◌}
use streamserver_cvn.TsPacket.{TsPacket}
use streamserver_cvn.Reader.Device.{Position}
use streamserver_cvn.Writer.{Writer, stream, new_writer}
use streamserver_cvn.Splitter.{no_length, in_packets, Splitter, Stop}
use streamserver_cvn.Splitter.Handlers.{
  Files, find_or_default_output_result, length_of, put_length, is_started, finish_output_request,
  start_output_request, write_packet, handle_file,
}
use streamserver_cvn.Splitter.Writing.{
  stream_of, written, length_of-put_length, put_length-Known, find_or_default-lem, CanWrite,
  write_packet-lem,
}
use streamserver_cvn.Splitter.Window.{
  window, in_window, Counted, finished_lem, finish_lem, Phase, waiting, recording, Kept,
  start_again, start_first, Stepped,
}

module _ (files : Files) (f : ℕ) (x : Position) (p : TsPacket) (m n k : ℕ)
    (numbered : x.ts_packet_count ≡ suc k) where
  abbrev outcome : Splitter → Outcome Stop Splitter Bool
  outcome s = handle_file files x (p.bytes ∷ []) p f (window f m n) s

  abbrev found : Splitter → Splitter
  found s = find_or_default_output_result f s

  not_started : (s : Splitter) → suc k < m → outcome s ≡ ok false (found s)
  unfolding handle_file is_started
  not_started s h =
      let early : leb m x.ts_packet_count ≡ false = lt→leb_false _ _ (omega (arith, numbered)) in
      rw early

  -- The rest of the handler behind the test for the end, at the state that the test leaves.
  abbrev rest : Bool → Splitter → Outcome Stop Splitter Bool
  rest b =
      if b
      then (finish_output_request (window f m n) >> pure true)
      else (start_output_request files f >> (write_packet files (p.bytes ∷ []) p f >> pure false))

  is_started_lem :
      (c : ℕ) (s : Splitter)
      → m ≤ suc k
      → Counted f c (found s)
      → outcome s ≡ rest (leb n c) (put_length f (in_packets c) (found s))
  unfolding handle_file is_started
  is_started_lem c s h counted =
      let late : leb m x.ts_packet_count ≡ true = le→leb _ _ (omega (arith, numbered)) in
      rw late (rw (finished_lem f c n (found s) counted, ◌>>=◌))

  at_end :
      (c : ℕ) (s : Splitter)
      → length_of f s ≡ in_packets c
      → (t : Splitter) × (rest true s ≡ ok true t)
        × (t.output_writers ≡ s.output_writers)
        × Kept s t
  unfolding finish_output_request
  at_end c s e =
      let (t, ends, w, r, q) = finish_lem f c n s e in
      (t, rw (ends, ◌>>=◌), w, record { requests = r; next_file = q })

  -- A packet is written to a file that is open by then.
  writes :
      (c : ℕ) (w : Writer) (s t : Splitter)
      → start_output_request files f s ≡ ok tt t
      → CanWrite f c w t
      → (u : Splitter) × (v : Writer) × (rest false s ≡ ok false u)
        × CanWrite f (c + 1) v u
        × (stream v ≡ stream w ++ p.bytes)
        × Kept t u
  writes c w s t e h =
      let (u, v, wrote, can, same, r, q) = write_packet-lem files p f c w t h in
      (u, v, rw (e, ◌>>=◌) (rw (wrote, ◌>>=◌)), can, same, record { requests = r; next_file = q })

  -- The three ends of the handler, as the phase that they lead to.
  ends :
      (c : ℕ) (s : Splitter)
      → Counted f c (found s)
      → m ≤ suc k
      → m + n ≤ suc k
      → n ≤ c
      → Stepped files f m n k p.bytes s (outcome s)
  ends c s counted late over all =
      let u = found s in
      let s1 = put_length f (in_packets c) u in
      let (known, len, alike) = find_or_default-lem f s in
      let (t, e, w, kept) = at_end c s1 (length_of-put_length f (in_packets c) u known) in
      let yes : leb n c ≡ true = le→leb n c all in
      rw (is_started_lem c s late counted) (
        rw yes (
          rw e (
            over,
            record {
              requests = kept.requests ∙ alike.requests;
              next_file = kept.next_file ∙ alike.next_file;
            },
            ap (λ (g : ℕ → Option Writer). stream_of (g f)) (w ∙ alike.writers),
          )))

  goes_on :
      (c : ℕ) (w : Writer) (s t : Splitter)
      → Counted f c (found s)
      → m ≤ suc k
      → c < n
      → m + c ≡ suc k
      → start_output_request files f (put_length f (in_packets c) (found s)) ≡ ok tt t
      → CanWrite f c w t
      → Kept s t
      → stream w ≡ written f s
      → Stepped files f m n k p.bytes s (outcome s)
  goes_on c w s t counted late more number started can kept same =
      let (u, v, e, can', longer, kept') =
        writes c w (put_length f (in_packets c) (found s)) t started can in
      let no : leb n c ≡ false = lt→leb_false n c more in
      let inside : in_window m n (suc k) ≡ true = ground arith in
      rw (is_started_lem c s late counted) (
        rw no (
          rw e (
            recording (c + 1) v can' (omega arith) (omega arith) (omega arith),
            record {
              requests = kept'.requests ∙ kept.requests;
              next_file = kept'.next_file ∙ kept.next_file;
            },
            rw inside (ap stream_of can'.writer ∙ (longer ∙ ap (λ (b : Bytes). b ++ p.bytes) same)),
          )))

  stops :
      (c : ℕ) (s t : Splitter) (x : Stop)
      → Counted f c (found s)
      → m ≤ suc k
      → c < n
      → start_output_request files f (put_length f (in_packets c) (found s)) ≡ err x t
      → Stepped files f m n k p.bytes s (outcome s)
  stops c s t x counted late more started =
      let no : leb n c ≡ false = lt→leb_false n c more in
      rw (is_started_lem c s late counted) (rw no (rw (started, ◌>>=◌) tt))

  before_window :
      (s : Splitter)
      → length_of f s ≡ no_length
      → s.is_open f ≡ false
      → s.exists f ≡ false
      → s.output_writers f ≡ none
      → suc k < m
      → Stepped files f m n k p.bytes s (outcome s)
  before_window s e closed missing unwritten early =
      let (known, len, alike) = find_or_default-lem f s in
      let outside : in_window m n (suc k) ≡ false = ground arith in
      rw (not_started s early) (
        waiting (len ∙ e) (ap (λ (g : ℕ → Bool). g f) alike.is_open ∙ closed)
            (ap (λ (g : ℕ → Bool). g f) alike.exists ∙ missing)
            (ap (λ (g : ℕ → Option Writer). g f) alike.writers ∙ unwritten) early,
        record { requests = alike.requests; next_file = alike.next_file },
        rw outside (
            ap (λ (g : ℕ → Option Writer). stream_of (g f)) alike.writers
            ∙ sym (append-nil (written f s))),
      )

  first_of_window :
      (s : Splitter)
      → length_of f s ≡ no_length
      → s.is_open f ≡ false
      → s.exists f ≡ false
      → s.output_writers f ≡ none
      → m ≡ suc k
      → Stepped files f m n k p.bytes s (outcome s)
  first_of_window s e closed missing unwritten here =
      let (known, len, alike) = find_or_default-lem f s in
      let counted : Counted f 0 (found s) = inl (len ∙ e, refl) in
      let s1 = put_length f (in_packets 0) (found s) in
      elim (Bool-cases (leb n 0)) [
        | inl none_wanted ↦
            let empty : n ≤ 0 = leb→le n 0 none_wanted in
            ends 0 s counted (omega arith) (omega arith) empty
        | inr wanted ↦
            let some_wanted : 0 < n = ground arith in
            elim (start_first files f s1 (length_of-put_length f (in_packets 0) (found s) known)
              (ap (λ (g : ℕ → Bool). g f) alike.is_open ∙ closed)
              (ap (λ (g : ℕ → Bool). g f) alike.exists ∙ missing)) [
                | inl (x', t, started) ↦ stops 0 s t x' counted (omega arith) some_wanted started
                | inr (t, started, can, kept) ↦
                    goes_on 0 new_writer s t counted (omega arith) some_wanted (omega arith) started
                      can
                      (record {
                        requests = kept.requests ∙ alike.requests;
                        next_file = kept.next_file ∙ alike.next_file;
                      })
                      (sym (ap stream_of unwritten))
              ]
      ]

  inside_window :
      (c : ℕ) (w : Writer) (s : Splitter)
      → CanWrite f c w s
      → m + c ≡ suc k
      → c ≤ n
      → Stepped files f m n k p.bytes s (outcome s)
  inside_window c w s can number small =
      let (known, len, alike) = find_or_default-lem f s in
      let counted : Counted f c (found s) = inr (len ∙ can.counted) in
      let s1 = put_length f (in_packets c) (found s) in
      let can' : CanWrite f c w s1 = record {
        known = put_length-Known f (in_packets c) (found s) known;
        counted = length_of-put_length f (in_packets c) (found s) known;
        opened = ap (λ (g : ℕ → Bool). g f) alike.is_open ∙ can.opened;
        writer = ap (λ (g : ℕ → Option Writer). g f) alike.writers ∙ can.writer;
        plain = can.plain;
      } in
      let (t, started, can'', kept) = start_again files f c w s1 can' in
      elim (Bool-cases (leb n c)) [
        | inl done ↦
            let all : n ≤ c = leb→le n c done in ends c s counted (omega arith) (omega arith) all
        | inr more ↦
            let less : c < n = ground arith in
            goes_on c w s t counted (omega arith) less number started can''
              (record {
                requests = kept.requests ∙ alike.requests;
                next_file = kept.next_file ∙ alike.next_file;
              })
              (sym (ap stream_of can.writer))
      ]

  -- Each packet takes its request to the next phase, and is written exactly if its number is in the
  -- window.
  pub handle_file-Stepped :
      (s : Splitter) → Phase f m n k s → Stepped files f m n k p.bytes s (outcome s)
  handle_file-Stepped s (waiting e closed missing unwritten early) =
      elim (Bool-cases (leb m (suc k))) [
        | inl here ↦ first_of_window s e closed missing unwritten (ground arith)
        | inr before ↦ before_window s e closed missing unwritten (ground arith)
      ]
  handle_file-Stepped s (recording c w can number positive small) =
      inside_window c w s can (omega arith) small
