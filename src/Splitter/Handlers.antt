-- ===== src/Splitter/Handlers.antt =====
-- ts-split/splitter.cpp: the handlers of the reader's signals. What a file does is the environment's:
-- whether it can be opened, and what its device answers to the writes of each `writeData`, by the
-- number of packets that have been queued for it until then. Log output is
-- left out.
use streamserver_cvn.Prelude.{
  ℕ, ◌+◌, Bool, true, false, not, List, [], ◌∷◌, ◌++◌, Option, none, some, ◌==◌, if◌then◌else◌,
  Bytes,
}
use streamserver_cvn.Prelude.Int.{ℤ, pos, leb_ℤ, ltb_ℤ}
use streamserver_cvn.Prelude.Outcome.{ok, err, pure, throw, get, modify, guard, ◌>>=◌, ◌>>◌}
use streamserver_cvn.TsPacket.{TsPacket}
use streamserver_cvn.Reader.Device.{
  ErrorKind, unknown, io, ts, Position, Event, ts_packet_ready, discont_encountered,
  error_encountered, eof_encountered,
}
use streamserver_cvn.Writer.{Writer, WriteResult, new_writer, queue_node, write_data}
use streamserver_cvn.Splitter.{
  Start, no_start, at_offset, at_packet, at_segment, Length, no_length, in_bytes, in_packets,
  in_segments, len_bytes_or_default, len_packets_or_default, len_discont_segments_or_default,
  Output, Result, Splitter, null_file, no_start_kind, no_length_kind, length_kind_mismatch,
  output_exists, open_failed, writer_missing, reader_error, Handler, update, handle_segment_starts,
}

pub record Files : Type 0 where
  pub can_open : ℕ → Bool
  pub answers : ℕ → ℕ → List WriteResult

unfoldable pub find_result : ℕ → List Result → Option Result
find_result f [] = none
find_result f (r ∷ rs) = if r.output_file == f then some r else find_result f rs

-- The first result of a file, which the source has a reference to, with another length.
unfoldable pub set_length : ℕ → Length ℕ → List Result → List Result
set_length f l [] = []
set_length f l (r ∷ rs) =
    if r.output_file == f then record r { length = l } ∷ rs else r ∷ set_length f l rs

-- `findOrDefaultOutputResult`; the result is found by its file from then on.
unfoldable pub find_or_default_output_result : ℕ → Splitter → Splitter
find_or_default_output_result f s = elim (find_result f s.output_results) [
  | some r ↦ s
  | none ↦ record s {
    output_results =
        s.output_results
        ++ record { output_file = f; id = s.last_output_id + 1; length = no_length } ∷ [];
    last_output_id = s.last_output_id + 1;
  }
]

abbrev pub length_of : ℕ → Splitter → Length ℕ
length_of f s = elim (find_result f s.output_results) [ none ↦ no_length | some r ↦ r.length ]

abbrev pub put_length : ℕ → Length ℕ → Splitter → Splitter
put_length f l s = record s { output_results = set_length f l s.output_results }

-- The length so far of a kind, by one of the three functions that give it its default.
unfoldable pub result_length : (Length ℕ → Option (ℕ × Length ℕ)) → ℕ → Handler ℕ
unfolding find_result set_length
result_length or_default f s = elim (or_default (length_of f s)) [
  | none ↦ err length_kind_mismatch s
  | some (n, l) ↦ ok n (put_length f l s)
]

unfoldable pub is_started : Position → Start → Handler Bool
is_started x no_start = throw no_start_kind
is_started x (at_offset n) = pure (leb_ℤ n (pos x.ts_packet_offset))
is_started x (at_packet n) = pure (leb_ℤ n (pos x.ts_packet_count))
is_started x (at_segment n) = pure (leb_ℤ n (pos x.discont_segment))

unfoldable pub is_finished : ℕ → Length ℤ → Handler Bool
unfolding result_length
is_finished f no_length = throw no_length_kind
is_finished f (in_bytes m) = do
  n ← result_length len_bytes_or_default f
  pure (not (ltb_ℤ (pos n) m))
is_finished f (in_packets m) = do
  n ← result_length len_packets_or_default f
  pure (not (ltb_ℤ (pos n) m))
is_finished f (in_segments m) = do
  n ← result_length len_discont_segments_or_default f
  pure (not (ltb_ℤ (pos n) m))

-- The comparison with the length that was asked for, which is only logged; it can throw.
unfoldable pub compare_length : ℕ → Length ℤ → Handler (Unit {0})
unfolding result_length
compare_length f no_length = pure tt
compare_length f (in_bytes m) = do n ← result_length len_bytes_or_default f; pure tt
compare_length f (in_packets m) = do n ← result_length len_packets_or_default f; pure tt
compare_length f (in_segments m) = do n ← result_length len_discont_segments_or_default f; pure tt

abbrev pub close : ℕ → Splitter → Splitter
close f s = record s { is_open = update s.is_open f false }

-- `finishOutputRequest`.
unfoldable pub finish_file : ℕ → Length ℤ → Handler (Unit {0})
unfolding find_or_default_output_result compare_length
finish_file f l = do
  opened ← get λ s. s.is_open f
  if not opened
      then pure tt
      else do modify (find_or_default_output_result f); compare_length f l; modify (close f)

unfoldable pub finish_output_request : Output → Handler (Unit {0})
unfolding finish_file
finish_output_request r = elim r.output_file [ none ↦ pure tt | some f ↦ finish_file f r.length ]

abbrev pub open_file : ℕ → Splitter → Splitter
open_file f s = record s {
  is_open = update s.is_open f true;
  exists = update s.exists f true;
  output_writers = update s.output_writers f (some new_writer);
}

abbrev pub add_length : ℕ → Length ℕ → Length ℕ
add_length n no_length = no_length
add_length n (in_bytes m) = in_bytes (m + n)
add_length n (in_packets m) = in_packets (m + 1)
add_length n (in_segments m) = in_segments m

abbrev pub put_writer : ℕ → Writer → Splitter → Splitter
put_writer f w s = record s { output_writers = update s.output_writers f (some w) }

module _ (files : Files) where
  -- `if (!outputFile.isOpen()) ...`.
  unfoldable pub open_closed : ℕ → Handler (Unit {0})
  open_closed f = do
    s ← get λ s. s
    if s.is_open f then pure tt else do
      guard (not (s.exists f)) output_exists
      guard (files.can_open f) open_failed
      modify (open_file f)

  -- `startOutputRequest`, for a file.
  unfoldable pub start_output_request : ℕ → Handler (Unit {0})
  unfolding find_or_default_output_result open_closed
  start_output_request f = do modify (find_or_default_output_result f); open_closed f

  -- A packet is queued and written as far as possible, and counted.
  unfoldable pub write_packet : List Bytes → TsPacket → ℕ → Handler (Unit {0})
  unfolding set_length find_result
  write_packet formats p f s = elim (s.output_writers f) [
    | none ↦ err writer_missing s
    | some w ↦
        let (queued, n) = queue_node formats p w in
        let t =
          put_writer f (write_data (files.answers f queued.ts_packet_count) queued).writer s in
        ok tt (put_length f (add_length n (length_of f t)) t)
  ]

  -- The body of the loop of `handleTSPacketReady`, whose result says whether the request is removed.
  unfoldable pub handle_file : Position → List Bytes → TsPacket → ℕ → Output → Handler Bool
  unfolding find_or_default_output_result is_started is_finished finish_output_request
      start_output_request write_packet
  handle_file x formats p f r = do
    modify (find_or_default_output_result f)
    started ← is_started x r.start
    if not started then pure false else do
      finished ← is_finished f r.length
      if finished
          then (finish_output_request r >> pure true)
          else do start_output_request f; write_packet formats p f; pure false

  unfoldable pub handle_request : Position → List Bytes → TsPacket → Output → Handler Bool
  unfolding handle_file
  handle_request x formats p r = elim r.output_file [
    | none ↦ throw null_file
    | some f ↦ handle_file x formats p f r
  ]

  -- The loop, which returns the requests that stay.
  unfoldable pub handle_requests :
      Position → List Bytes → TsPacket → List Output → Handler (List Output)
  unfolding handle_request
  handle_requests x formats p [] = pure []
  handle_requests x formats p (r ∷ rs) = do
    removed ← handle_request x formats p r
    kept ← handle_requests x formats p rs
    pure (if removed then kept else r ∷ kept)

  -- `handleTSPacketReady`. If the loop throws, no request is removed.
  unfoldable pub handle_ts_packet_ready : Position → List Bytes → TsPacket → Handler (Unit {0})
  unfolding handle_requests
  handle_ts_packet_ready x formats p = do
    requests ← get λ s. s.output_requests
    kept ← handle_requests x formats p requests
    modify λ s. record s { output_requests = kept }

abbrev pub add_segment : Length ℕ → Length ℕ
add_segment (in_segments n) = in_segments (n + 1)
add_segment l = l

-- `increaseDiscontSegmentStats`: of the files that are open.
unfoldable pub increase_stats : (ℕ → Bool) → List Result → List Result
increase_stats is_open [] = []
increase_stats is_open (r ∷ rs) =
    (if is_open r.output_file then record r { length = add_segment r.length } else r)
    ∷ increase_stats is_open rs

abbrev pub increase_discont_segment_stats : Splitter → Splitter
increase_discont_segment_stats s = record s {
  output_results = increase_stats s.is_open s.output_results;
}

-- `handleDiscontEncountered`.
unfoldable pub handle_discont_encountered : ℕ → Handler (Unit {0})
unfolding increase_stats handle_segment_starts
handle_discont_encountered segment = do
  modify increase_discont_segment_stats
  templates ← get λ s. s.output_templates
  handle_segment_starts segment templates

unfoldable pub finish_requests : List Output → Handler (Unit {0})
unfolding finish_output_request
finish_requests [] = pure tt
finish_requests (r ∷ rs) = do finish_output_request r; finish_requests rs

-- `handleEOFEncountered`; the event loop is left after it.
unfoldable pub handle_eof_encountered : Handler (Unit {0})
unfolding increase_stats finish_requests
handle_eof_encountered = do
  modify increase_discont_segment_stats
  requests ← get λ s. s.output_requests
  finish_requests requests
  modify λ s. record s { output_requests = [] }

-- `handleErrorEncountered`: errors of packets are ignored.
abbrev pub handle_error_encountered : ErrorKind → Handler (Unit {0})
handle_error_encountered unknown = throw reader_error
handle_error_encountered io = throw reader_error
handle_error_encountered ts = pure tt

-- The connections to the reader's signals. A packet of the reader has been made from its bytes.
unfoldable pub handle : {T : Type 0} → Files → Event T → Handler (Unit {0})
unfolding handle_ts_packet_ready handle_discont_encountered handle_eof_encountered
handle files (ts_packet_ready x p) = handle_ts_packet_ready files x (p.bytes ∷ []) p
handle files (discont_encountered x last) = handle_discont_encountered x.discont_segment
handle files (error_encountered kind) = handle_error_encountered kind
handle files eof_encountered = handle_eof_encountered

unfoldable pub handle_all : {T : Type 0} → Files → List (Event T) → Handler (Unit {0})
unfolding handle
handle_all files [] = pure tt
handle_all files (e ∷ es) = do handle files e; handle_all files es
