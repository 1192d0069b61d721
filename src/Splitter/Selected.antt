-- ===== src/Splitter/Selected.antt =====
-- ts-split/splitter.cpp: the whole of what a request for a number of packets has written.
use streamserver_cvn.Prelude.{
  ℕ, suc, ◌<◌, ◌≡◌, refl, sym, ap, ◌∙◌, inl, inr, false, List, [], ◌∷◌, ◌++◌, append_assoc,
  append-nil, none, if◌then◌else◌, Bytes,
}
use streamserver_cvn.Prelude.Outcome.{Outcome, ok, err, ◌>>=◌, Outcome-cases}
use streamserver_cvn.TsPacket.{TsPacket}
use streamserver_cvn.Reader.Device.{
  Position, Event, ts_packet_ready, discont_encountered, error_encountered, eof_encountered,
}
use streamserver_cvn.Splitter.{no_length, Splitter, Stop}
use streamserver_cvn.Splitter.Handlers.{
  Files, length_of, handle, handle_all, handle_eof_encountered,
}
use streamserver_cvn.Splitter.Writing.{written, stream_of}
use streamserver_cvn.Splitter.Window.{window, in_window, waiting}
use streamserver_cvn.Splitter.Recorded.{Focus, asked}
use streamserver_cvn.Reader.Numbering.{Numbered}
use streamserver_cvn.Splitter.Ending.{eof_writers}
use streamserver_cvn.Splitter.Signals.{
  Going, SteadyIn, PacketIn, handle_ts_packet_ready-PacketIn, handle_discont_encountered-Steady,
  handle_error_encountered-Steady, selected,
}

-- A request that has been set and not been looked at, in a splitter whose file objects exist.
pub record IsNew (f m n : ℕ) (s : Splitter) : Type 0 where
  pub asked_for : Focus f (window f m n) s.output_requests
  pub positive : 0 < m
  pub no_result : length_of f s ≡ no_length
  pub closed : s.is_open f ≡ false
  pub missing : s.exists f ≡ false
  pub unwritten : s.output_writers f ≡ none
  pub is_old : f < s.next_file

abbrev ended : Splitter → Outcome Stop Splitter (Unit {0})
ended s = ok tt s

ok_eq : {s t : Splitter} → ended s ≡ ended t → s ≡ t
ok_eq e = cc

module _ (files : Files) (f m n : ℕ) where
  -- After a signal the request stands as `k` packets make it, and so much has been added to its file.
  abbrev HandledIn : ℕ → Bytes → Splitter → Outcome Stop Splitter (Unit {0}) → Type 0
  HandledIn k added s (ok u t) = Going f m n k t × (written f t ≡ written f s ++ added)
  HandledIn k added s (err x t) = Unit {0}

  quiet :
      (k : ℕ) (s : Splitter) (o : Outcome Stop Splitter (Unit {0}))
      → SteadyIn f m n k s o
      → HandledIn k [] s o
  quiet k s (ok u t) (going, same) = (going, same ∙ sym (append-nil (written f s)))
  quiet k s (err x t) h = tt

  packet :
      (k : ℕ) (s : Splitter) (x : Position) (p : TsPacket) (o : Outcome Stop Splitter (Unit {0}))
      → x.ts_packet_count ≡ suc k
      → PacketIn f m n files x p k s o
      → HandledIn (suc k) ((if in_window m n x.ts_packet_count then p.bytes else []) ++ []) s o
  packet k s x p (ok u t) number (going, same) = (going, rw (number, append-nil) same)
  packet k s x p (err e t) number h = tt

module _ {T : Type 0} (files : Files) (f m n : ℕ) where
  -- The number of packets behind a signal.
  abbrev count_after : ℕ → Event T → ℕ
  count_after k (ts_packet_ready x p) = suc k
  count_after k (discont_encountered x last) = k
  count_after k (error_encountered kind) = k
  count_after k eof_encountered = k

  abbrev IsOn : Event T → Type 0
  IsOn eof_encountered = ⊥
  IsOn _ = Unit {0}

  handle-HandledIn :
      (k : ℕ) (s : Splitter) (e : Event T) (es : List (Event T))
      → IsOn e
      → Numbered k (e ∷ es)
      → Going f m n k s
      → HandledIn files f m n (count_after k e) (selected f m n (e ∷ [])) s (handle files e s)
        × Numbered (count_after k e) es
  unfolding handle
  handle-HandledIn k s (ts_packet_ready x p) es on (number, later) going = (
    packet files f m n k s x p _ number
        (handle_ts_packet_ready-PacketIn f m n files x p k s number going),
    later,
  )
  handle-HandledIn k s (discont_encountered x last) es on later going = (
    quiet files f m n k s _
        ((handle_discont_encountered-Steady f m n x.discont_segment).steady k s going),
    later,
  )
  handle-HandledIn k s (error_encountered kind) es on later going = (
    quiet files f m n k s _ ((handle_error_encountered-Steady f m n kind).steady k s going),
    later,
  )
  handle-HandledIn k s eof_encountered es on later going = absurd on

  selected_cons :
      (e : Event T) (es : List (Event T))
      → selected f m n (e ∷ es) ≡ selected f m n (e ∷ []) ++ selected f m n es
  selected_cons (ts_packet_ready x p) es = rw append-nil
  selected_cons (discont_encountered x last) es = refl
  selected_cons (error_encountered kind) es = refl
  selected_cons eof_encountered es = refl

  -- What signals add to the file of a request that has been counted up to `k`.
  abbrev AllWritten : List (Event T) → Type 0
  AllWritten es =
      (k : ℕ) (s t : Splitter)
      → Numbered k es
      → Going f m n k s
      → handle_all files es s ≡ ok tt t
      → written f t ≡ written f s ++ selected f m n es

  eof-AllWritten : AllWritten (eof_encountered ∷ [])
  unfolding handle_all handle
  eof-AllWritten k s t number going h = elim (Outcome-cases (handle_eof_encountered s)) [
    | inr (x, u, q) ↦ absurd (let z = rw (q, ◌>>=◌) at h in cc)
    | inl (a, u, q) ↦
        let same : u ≡ t = ok_eq (let y = h in rw (q, ◌>>=◌) at y) in
        let kept = eof_writers s u q in
        rw (← same) (ap (λ ws. stream_of (ws f)) kept ∙ sym (append-nil (written f s)))
  ]

  step-AllWritten :
      (e : Event T) (es : List (Event T)) → IsOn e → AllWritten es → AllWritten (e ∷ es)
  unfolding handle_all
  step-AllWritten e es on later_all k s t number going h =
      let (done, later) = handle-HandledIn k s e es on number going in
      elim (Outcome-cases (handle files e s)) [
        | inr (x, u, q) ↦ absurd (let z = rw (q, ◌>>=◌) at h in cc)
        | inl (a, u, q) ↦
            let z = done in
            let (going', same) : Going f m n (count_after k e) u
                × (written f u ≡ written f s ++ selected f m n (e ∷ [])) =
              rw q at z in
            let rest =
              later_all (count_after k e) u t later going' (let y = h in rw (q, ◌>>=◌) at y) in
            rest
            ∙ (ap (λ (b : Bytes). b ++ selected f m n es) same
                ∙ (append_assoc (written f s) (selected f m n (e ∷ [])) (selected f m n es)
                    ∙ ap (written f s ++◌) (sym (selected_cons e es))))
      ]

  handle_all-written : (es : List (Event T)) → AllWritten es
  unfolding handle_all
  handle_all-written [] = λ k s t number going e.
      let same : s ≡ t = ok_eq e in rw (← same) (sym (append-nil (written f s)))
  handle_all-written (ts_packet_ready x p ∷ es) =
      step-AllWritten (ts_packet_ready x p) es tt (handle_all-written es)
  handle_all-written (discont_encountered x last ∷ es) =
      step-AllWritten (discont_encountered x last) es tt (handle_all-written es)
  handle_all-written (error_encountered kind ∷ es) =
      step-AllWritten (error_encountered kind) es tt (handle_all-written es)
  handle_all-written (eof_encountered ∷ es) =
      λ k s t number going h. rw number (eof-AllWritten k s t refl going (rw number at h))

  -- A request for `n` packets from the packet number `m` on, with a file of its own that does not
  -- exist, among any other requests and templates: unless the program stops with an error,
  -- also behind the end of the input, what has been queued for its file is the packets with the
  -- numbers from `m` to `m + n - 1` and no other byte, in their order, through discontinuities and
  -- packet errors and whatever the devices of the files answer.
  pub handle_all-selected :
      (es : List (Event T)) (s t : Splitter)
      → Numbered 0 es
      → IsNew f m n s
      → handle_all files es s ≡ ok tt t
      → written f t ≡ selected f m n es
  handle_all-selected es s t number new h =
      handle_all-written es 0 s t number
        (record {
          progress =
              asked new.asked_for
                (waiting new.no_result new.closed new.missing new.unwritten new.positive);
          is_old = new.is_old;
        })
        h
      ∙ ap (λ (b : Bytes). b ++ selected f m n es) (ap stream_of new.unwritten)
