-- ===== src/Splitter/Signals.antt =====
-- ts-split/splitter.cpp: the signals of the reader, and the packets that a request gets of them.
use streamserver_cvn.Prelude.{
  ℕ, suc, ◌+◌, ◌<◌, ◌≡◌, ◌≢◌, refl, ◌∙◌, inl, inr, List, [], ◌∷◌, ◌++◌, some, arith, if◌then◌else◌,
  Bytes, Bool-cases, All-append,
}
use streamserver_cvn.Prelude.Int.{pos, leb_ℤ}
use streamserver_cvn.Prelude.Outcome.{Outcome, ok, err, pure, get, modify, ◌>>=◌, Outcome-cases}
use streamserver_cvn.TsPacket.{TsPacket}
use streamserver_cvn.Ranges.{matches}
use streamserver_cvn.Reader.Device.{
  ErrorKind, unknown, io, ts, Position, Event, ts_packet_ready, discont_encountered,
  error_encountered, eof_encountered,
}
use streamserver_cvn.Splitter.{
  in_segments, at_segment, Output, OutputTemplate, TemplateKind, no_kind, discontinuity_segments,
  Splitter, Stop, Handler, append_discont_segment_output_request, start_segment,
  handle_segment_starts,
}
use streamserver_cvn.Splitter.Handlers.{
  Files, increase_discont_segment_stats, handle_requests, handle_ts_packet_ready,
  handle_discont_encountered, handle_error_encountered,
}
use streamserver_cvn.Splitter.Writing.{written}
use streamserver_cvn.Splitter.Window.{window, in_window, Kept}
use streamserver_cvn.Splitter.Stats.{Phase-set, Phase-stats}
use streamserver_cvn.Splitter.Recorded.{Focus, Progress, asked, over, handle_requests-Progress}

module _ (f m n : ℕ) where
  -- The request stands as `k` packets make it, and its file object is not one that is still to come.
  pub record Going (k : ℕ) (s : Splitter) : Type 0 where
    pub progress : Progress f m n k s.output_requests s
    pub is_old : f < s.next_file

  abbrev pub SteadyIn : {A : Type 0} → ℕ → Splitter → Outcome Stop Splitter A → Type 0
  SteadyIn k s (ok a t) = Going k t × (written f t ≡ written f s)
  SteadyIn k s (err e t) = Unit {0}

  -- Code that writes nothing to the file.
  pub record Steady {A : Type 0} (h : Handler A) : Type 0 where
    pub steady : (k : ℕ) (s : Splitter) → Going k s → SteadyIn k s (h s)

  >>=-Steady :
      {A B : Type 0} (h : Handler A) (g : A → Handler B)
      → Steady h
      → ((a : A) → Steady (g a))
      → Steady (h >>= g)
  >>=-Steady h g p q = record {
    steady = λ k s going. elim (Outcome-cases (h s)) [
      | inr (x, t, e) ↦ rw (e, ◌>>=◌) tt
      | inl (a, t, e) ↦
          let z = p.steady k s going in
          let (going', same) : Going k t × (written f t ≡ written f s) = rw e at z in
          rw (e, ◌>>=◌)
            (elim (Outcome-cases (g a t)) [
              | inr (x, u, d) ↦ rw d tt
              | inl (b, u, d) ↦
                  let y = (q a).steady k t going' in
                  let (going'', same') : Going k u × (written f u ≡ written f t) = rw d at y in
                  rw d (going'', same' ∙ same)
            ])
    ];
  }

  pure-Steady : {A : Type 0} (a : A) → Steady (pure {E = Stop} {S = Splitter} a)
  pure-Steady a = record { steady = λ k s going. (going, refl) }

  Focus-append :
      (r q : Output) (rs : List Output)
      → q.output_file ≢ some f
      → Focus f r rs
      → Focus f r (rs ++ q ∷ [])
  Focus-append r q [] n h = absurd h
  Focus-append r q (x ∷ xs) n (inl (e, a)) =
      inl (e, All-append (λ y. y.output_file ≢ some f) xs (q ∷ []) a (n, tt))
  Focus-append r q (x ∷ xs) n (inr (e, h)) = inr (e, Focus-append r q xs n h)

  append-Going :
      (k segment : ℕ) (s : Splitter)
      → Going k s
      → Going k (append_discont_segment_output_request segment s)
  unfolding append_discont_segment_output_request
  append-Going k segment s g = record {
    progress = append-Progress g.progress;
    is_old = omega (arith, g.is_old);
  }
    where
      new : Output
      new = record {
        output_file = some s.next_file;
        start = at_segment (pos segment);
        length = in_segments (pos 1);
      }

      is_new : new.output_file ≢ some f
      is_new e = ground (arith, g.is_old)

      append-Progress :
          Progress f m n k s.output_requests s
          → Progress f m n k
              (s.output_requests ++ new ∷ [])
              (append_discont_segment_output_request segment s)
      append-Progress (asked focus phase) =
          asked (Focus-append (window f m n) new s.output_requests is_new focus)
            (Phase-set f m n k s (s.output_requests ++ new ∷ []) (s.next_file + 1) phase)
      append-Progress (over a past) =
          over
            (All-append (λ y. y.output_file ≢ some f) s.output_requests (new ∷ []) a (is_new, tt))
            past

  start_segment-Steady :
      (kind : TemplateKind) (t : OutputTemplate) (segment : ℕ)
      → Steady (start_segment kind t segment)
  unfolding start_segment
  start_segment-Steady no_kind t segment = record { steady = λ k s going. tt }
  start_segment-Steady discontinuity_segments t segment =
      elim (Bool-cases (matches leb_ℤ t.filter (pos segment))) [
        | inl e ↦ rw e (record {
          steady = λ k s going. (
            append-Going k segment s going,
            unfold append_discont_segment_output_request in refl,
          );
        })
        | inr e ↦ rw e (pure-Steady tt)
      ]

  segment_starts-Steady :
      (segment : ℕ) (templates : List OutputTemplate)
      → Steady (handle_segment_starts segment templates)
  unfolding handle_segment_starts
  segment_starts-Steady segment [] = pure-Steady tt
  segment_starts-Steady segment (t ∷ later) =
      >>=-Steady (start_segment t.output_files_kind t segment) _
        (start_segment-Steady t.output_files_kind t segment)
        (λ u. segment_starts-Steady segment later)

  stats-Progress :
      (k : ℕ) (s : Splitter)
      → Progress f m n k s.output_requests s
      → Progress f m n k s.output_requests (increase_discont_segment_stats s)
  stats-Progress k s (asked focus phase) = asked focus (Phase-stats f m n k s phase)
  stats-Progress k s (over a past) = over a past

  pub handle_discont_encountered-Steady :
      (segment : ℕ) → Steady (handle_discont_encountered segment)
  unfolding handle_discont_encountered
  handle_discont_encountered-Steady segment =
      >>=-Steady (modify increase_discont_segment_stats) _
        (record {
          steady = λ k s going. (
            record { progress = stats-Progress k s going.progress; is_old = going.is_old },
            refl,
          );
        })
        (λ u.
          >>=-Steady (get λ (s : Splitter). s.output_templates) _
            (record { steady = λ k s going. (going, refl) }) (segment_starts-Steady segment))

  pub handle_error_encountered-Steady : (kind : ErrorKind) → Steady (handle_error_encountered kind)
  handle_error_encountered-Steady unknown = record { steady = λ k s going. tt }
  handle_error_encountered-Steady io = record { steady = λ k s going. tt }
  handle_error_encountered-Steady ts = pure-Steady tt

  set-Progress :
      (k : ℕ) (s : Splitter) (rs : List Output)
      → Progress f m n k rs s
      → Progress f m n k rs (record s { output_requests = rs })
  set-Progress k s rs (asked focus phase) = asked focus (Phase-set f m n k s rs s.next_file phase)
  set-Progress k s rs (over a past) = over a past

  abbrev pub PacketIn :
      Files → Position → TsPacket → ℕ → Splitter → Outcome Stop Splitter (Unit {0}) → Type 0
  PacketIn files x p k s (ok u t) =
      Going (suc k) t
      × (written f t ≡ written f s ++ (if in_window m n (suc k) then p.bytes else []))
  PacketIn files x p k s (err e t) = Unit {0}

  pub handle_ts_packet_ready-PacketIn :
      (files : Files) (x : Position) (p : TsPacket) (k : ℕ) (s : Splitter)
      → x.ts_packet_count ≡ suc k
      → Going k s
      → PacketIn files x p k s (handle_ts_packet_ready files x (p.bytes ∷ []) p s)
  unfolding handle_ts_packet_ready
  handle_ts_packet_ready-PacketIn files x p k s numbered going =
      let all =
        handle_requests-Progress files x p f m n k numbered s.output_requests s going.progress in
      elim (Outcome-cases (handle_requests files x (p.bytes ∷ []) p s.output_requests s)) [
        | inr (e, t, q) ↦ rw (q, ◌>>=◌) tt
        | inl (kept, t, q) ↦
            rw (q, ◌>>=◌)
              (let z = all in
                let (progress, k', same) : Progress f m n (suc k) kept t
                    × Kept s t
                    × (written f t
                        ≡ written f s ++ (if in_window m n (suc k) then p.bytes else [])) =
                  rw q at z in
                (
                  record {
                    progress = set-Progress (suc k) t kept progress;
                    is_old = omega (arith, going.is_old, k'.next_file);
                  },
                  same,
                ))
      ]

  -- The packets whose number is in the window, one behind another.
  abbrev pub selected : {T : Type 0} → List (Event T) → Bytes
  selected [] = []
  selected (ts_packet_ready x p ∷ es) =
      (if in_window m n x.ts_packet_count then p.bytes else []) ++ selected es
  selected (discont_encountered x last ∷ es) = selected es
  selected (error_encountered kind ∷ es) = selected es
  selected (eof_encountered ∷ es) = selected es
