-- ===== src/Splitter/Others.antt =====
-- ts-split/splitter.cpp: each step of handling a request, as seen by another file.
use streamserver_cvn.Prelude.{
  ℕ, ◌+◌, ◌≡◌, ◌≢◌, refl, ap, ◌∙◌, inl, inr, Bool, true, false, not, List, Option, some, arith,
  if◌then◌else◌, Bytes, Bool-cases, Option-cases,
}
use streamserver_cvn.Prelude.Int.{ℤ}
use streamserver_cvn.Prelude.Outcome.{pure, get, modify, guard, ◌>>=◌, ◌>>◌}
use streamserver_cvn.TsPacket.{TsPacket}
use streamserver_cvn.Reader.Device.{Position}
use streamserver_cvn.Writer.{queue_node, write_data}
use streamserver_cvn.Splitter.{
  Start, no_start, at_offset, at_packet, at_segment, Length, no_length, in_bytes, in_packets,
  in_segments, len_bytes_or_default, len_packets_or_default, len_discont_segments_or_default,
  Output, Splitter, output_exists, open_failed, update,
}
use streamserver_cvn.Splitter.Handlers.{
  Files, find_or_default_output_result, find_result, length_of, put_length, result_length,
  is_started, is_finished, compare_length, close, put_writer, add_length, finish_file,
  finish_output_request, open_file, open_closed, start_output_request, write_packet, handle_file,
  handle_request,
}
use streamserver_cvn.Splitter.Frames.{
  find_result-set_ne, find_result-append_ne, Same, Same-refl, Same-trans, Frame, >>=-Frame,
  pure-Frame, modify-Frame, guard-Frame,
}

put_length-Same : (f g : ℕ) (l : Length ℕ) (s : Splitter) → g ≢ f → Same f s (put_length g l s)
put_length-Same f g l s n = record {
  length = rw (find_result-set_ne f g l s.output_results n, length_of);
  is_open = refl;
  exists = refl;
  writer = refl;
  requests = refl;
  next_file = refl;
}

find_or_default-Same :
    (f g : ℕ) (s : Splitter) → g ≢ f → Same f s (find_or_default_output_result g s)
unfolding find_or_default_output_result
find_or_default-Same f g s n = elim (Option-cases (find_result g s.output_results)) [
  | inr (r, e) ↦ rw (e, find_or_default_output_result) (Same-refl f s)
  | inl e ↦
      rw (e, find_or_default_output_result)
        (record {
          length = rw (
            find_result-append_ne f s.output_results
                (record { output_file = g; id = s.last_output_id + 1; length = no_length }) n,
            length_of,
          );
          is_open = refl;
          exists = refl;
          writer = refl;
          requests = refl;
          next_file = refl;
        })
]

module _ (f g : ℕ) (n : g ≢ f) where
  other : {A : Type 0} (h : ℕ → A) (v : A) → update h g v f ≡ h f
  other h v = ground arith

  result_length-Frame : (d : Length ℕ → Option (ℕ × Length ℕ)) → Frame f (result_length d g)
  unfolding result_length
  result_length-Frame d = record {
    frame = λ s. elim (Option-cases (d (length_of g s))) [
      | inl e ↦ rw (e, result_length) tt
      | inr (p, e) ↦ rw (e, result_length) (put_length-Same f g p.1 s n)
    ];
  }

  is_started-Frame : (x : Position) (st : Start) → Frame f (is_started x st)
  unfolding is_started
  is_started-Frame x no_start = record { frame = λ s. tt }
  is_started-Frame x (at_offset k) = pure-Frame f _
  is_started-Frame x (at_packet k) = pure-Frame f _
  is_started-Frame x (at_segment k) = pure-Frame f _

  is_finished-Frame : (l : Length ℤ) → Frame f (is_finished g l)
  unfolding is_finished
  is_finished-Frame no_length = record { frame = λ s. tt }
  is_finished-Frame (in_bytes m) =
      >>=-Frame (result_length len_bytes_or_default g) _ (result_length-Frame len_bytes_or_default)
        (λ k. pure-Frame f _)
  is_finished-Frame (in_packets m) =
      >>=-Frame (result_length len_packets_or_default g) _
        (result_length-Frame len_packets_or_default) (λ k. pure-Frame f _)
  is_finished-Frame (in_segments m) =
      >>=-Frame (result_length len_discont_segments_or_default g) _
        (result_length-Frame len_discont_segments_or_default) (λ k. pure-Frame f _)

  compare_length-Frame : (l : Length ℤ) → Frame f (compare_length g l)
  unfolding compare_length
  compare_length-Frame no_length = pure-Frame f tt
  compare_length-Frame (in_bytes m) =
      >>=-Frame (result_length len_bytes_or_default g) _ (result_length-Frame len_bytes_or_default)
        (λ k. pure-Frame f _)
  compare_length-Frame (in_packets m) =
      >>=-Frame (result_length len_packets_or_default g) _
        (result_length-Frame len_packets_or_default) (λ k. pure-Frame f _)
  compare_length-Frame (in_segments m) =
      >>=-Frame (result_length len_discont_segments_or_default g) _
        (result_length-Frame len_discont_segments_or_default) (λ k. pure-Frame f _)

  found-Frame : Frame f (modify (find_or_default_output_result g))
  found-Frame = modify-Frame f _ (λ s. find_or_default-Same f g s n)

  close-Frame : Frame f (modify (close g))
  close-Frame = modify-Frame f (close g) (λ s. record {
    length = refl;
    is_open = other s.is_open false;
    exists = refl;
    writer = refl;
    requests = refl;
    next_file = refl;
  })

  open_file-Frame : Frame f (modify (open_file g))
  open_file-Frame = modify-Frame f (open_file g) (λ s. record {
    length = refl;
    is_open = other s.is_open true;
    exists = other s.exists true;
    writer = other s.output_writers _;
    requests = refl;
    next_file = refl;
  })

  finish_file-Frame : (l : Length ℤ) → Frame f (finish_file g l)
  unfolding finish_file
  finish_file-Frame l =
      >>=-Frame (get λ (s : Splitter). s.is_open g) _ (record { frame = λ s. Same-refl f s })
        (λ b. part b)
    where
      part :
          (b : Bool)
          → Frame f (
              if not b then pure tt else (do
                modify (find_or_default_output_result g)
                compare_length g l
                modify (close g)))
      part true =
          >>=-Frame (modify (find_or_default_output_result g)) _ found-Frame
            (λ u. >>=-Frame (compare_length g l) _ (compare_length-Frame l) (λ u. close-Frame))
      part false = pure-Frame f tt

  module _ (files : Files) where
    open_closed-Frame : Frame f (open_closed files g)
    unfolding open_closed
    open_closed-Frame = record {
      frame = λ s. elim (Bool-cases (s.is_open g)) [
        | inl e ↦ rw (e, open_closed) (Same-refl f s)
        | inr e ↦
            rw (e, open_closed)
              ((>>=-Frame (guard (not (s.exists g)) output_exists) _ (guard-Frame f _ _) (λ u.
                  >>=-Frame (guard (files.can_open g) open_failed) _ (guard-Frame f _ _)
                    (λ u. open_file-Frame))).frame
                s)
      ];
    }

    start-Frame : Frame f (start_output_request files g)
    unfolding start_output_request
    start-Frame =
        >>=-Frame (modify (find_or_default_output_result g)) _ found-Frame (λ u. open_closed-Frame)

    write_packet-Frame :
        (formats : List Bytes) (p : TsPacket) → Frame f (write_packet files formats p g)
    unfolding write_packet
    write_packet-Frame formats p = record {
      frame = λ s. elim (Option-cases (s.output_writers g)) [
        | inl e ↦ rw (e, write_packet) tt
        | inr (w, e) ↦
            let (queued, k) = queue_node formats p w in
            let t =
              put_writer g (write_data (files.answers g queued.ts_packet_count) queued).writer s in
            rw (e, write_packet)
              (Same-trans
                (record {
                  length = refl;
                  is_open = refl;
                  exists = refl;
                  writer = other s.output_writers _;
                  requests = refl;
                  next_file = refl;
                })
                (put_length-Same f g (add_length k (length_of g t)) t n))
      ];
    }

    handle_file-Frame :
        (x : Position) (formats : List Bytes) (p : TsPacket) (st : Start) (l : Length ℤ)
        → Frame f (
            handle_file files x formats p g
              (record { output_file = some g; start = st; length = l }))
    unfolding handle_file finish_output_request
    handle_file-Frame x formats p st l =
        >>=-Frame (modify (find_or_default_output_result g)) _ found-Frame
          (λ u. >>=-Frame (is_started x st) _ (is_started-Frame x st) if_started)
      where
        if_finished :
            (b : Bool)
            → Frame f (
                if b
                then (finish_file g l >> pure true)
                else (start_output_request files g
                    >> (write_packet files formats p g >> pure false)))
        if_finished true =
            >>=-Frame (finish_file g l) (λ u. pure true) (finish_file-Frame l)
              (λ u. pure-Frame f true)
        if_finished false = >>=-Frame (start_output_request files g) _ start-Frame (λ u.
            >>=-Frame (write_packet files formats p g) (λ u. pure false)
              (write_packet-Frame formats p) (λ u. pure-Frame f false))

        if_started :
            (b : Bool)
            → Frame f (
                if not b then pure false else (do
                  finished ← is_finished g l
                  if finished
                      then (finish_file g l >> pure true)
                      else (start_output_request files g
                          >> (write_packet files formats p g >> pure false))))
        if_started false = pure-Frame f false
        if_started true = >>=-Frame (is_finished g l) _ (is_finished-Frame l) if_finished

-- A request for another file leaves the file as it is.
pub handle_request-Frame :
    (files : Files) (x : Position) (formats : List Bytes) (p : TsPacket) (r : Output) (f : ℕ)
    → r.output_file ≢ some f
    → Frame f (handle_request files x formats p r)
unfolding handle_request
handle_request-Frame files x formats p r f n = elim (Option-cases r.output_file) [
  | inl e ↦ rw e (record { frame = λ s. tt })
  | inr (g, e) ↦
      rw e (handle_file-Frame f g (λ same. n (e ∙ ap some same)) files x formats p r.start r.length)
]
