-- ===== src/Splitter/Present.antt =====
-- ts-split/splitter.cpp: no handler finds an open file without a writer.
use streamserver_cvn.Prelude.{
  ℕ, ◌≡◌, ◌≢◌, refl, inl, inr, Bool, true, false, not, List, [], ◌∷◌, some, ◌==◌, arith,
  if◌then◌else◌, Bytes, Bool-cases, Option-cases,
}
use streamserver_cvn.Prelude.Int.{pos, leb_ℤ}
use streamserver_cvn.Prelude.Outcome.{
  Outcome, ok, err, pure, get, modify, ◌>>=◌, ◌>>◌, Outcome-cases,
}
use streamserver_cvn.TsPacket.{TsPacket}
use streamserver_cvn.Ranges.{matches}
use streamserver_cvn.Reader.Device.{
  ErrorKind, unknown, io, ts, Position, Event, ts_packet_ready, discont_encountered,
  error_encountered, eof_encountered,
}
use streamserver_cvn.Writer.{new_writer, queue_node, write_data}
use streamserver_cvn.Splitter.{
  Output, Splitter, Stop, null_file, writer_missing, reader_error, bad_template_kind,
  handle_segment_starts, start_segment, TemplateKind, OutputTemplate, no_kind,
  discontinuity_segments, append_discont_segment_output_request,
}
use streamserver_cvn.Splitter.Handlers.{
  Files, find_or_default_output_result, is_started, is_finished, finish_output_request, open_file,
  open_closed, start_output_request, write_packet, handle_file, handle_request, handle_requests,
  handle_ts_packet_ready, increase_discont_segment_stats, handle_discont_encountered,
  finish_requests, handle_eof_encountered, handle_error_encountered, handle, handle_all,
}
use streamserver_cvn.Splitter.Writers.{
  HasWriters, IsSafe, Safe, >>=-Safe, quiet-Safe, pure-Safe, get-Safe, throw-Safe,
  find_or_default-Safe, is_started-Safe, is_finished-Safe, finish_output_request-Safe,
}

open_file-HasWriters : (f : ℕ) (s : Splitter) → HasWriters s → HasWriters (open_file f s)
open_file-HasWriters f s h g o = elim (Bool-cases (g == f)) [
  | inl e ↦ (new_writer, rw e)
  | inr e ↦ let (w, k) = h g (let z = o in rw e at z) in (w, rw e k)
]

-- After a start the file is open.
IsStarted : ℕ → Outcome Stop Splitter (Unit {0}) → Type 0
IsStarted f (ok u s) = HasWriters s × (s.is_open f ≡ true)
IsStarted f (err e s) = HasWriters s × (e ≢ writer_missing)

module _ (files : Files) where
  open_closed-IsStarted :
      (f : ℕ) (s : Splitter) → HasWriters s → IsStarted f (open_closed files f s)
  unfolding open_closed IsStarted
  open_closed-IsStarted f s h = elim (Bool-cases (s.is_open f)) [
    | inl o ↦ rw o (h, o)
    | inr o ↦ rw o (elim (Bool-cases (s.exists f)) [
      | inl e ↦ rw e (h, λ z. cc)
      | inr e ↦ rw e (elim (Bool-cases (files.can_open f)) [
        | inl c ↦ rw c (open_file-HasWriters f s h, ground arith)
        | inr c ↦ rw c (h, λ z. cc)
      ])
    ])
  ]

  write_packet-Safe :
      (formats : List Bytes) (p : TsPacket) (f : ℕ) (s : Splitter)
      → HasWriters s
      → s.is_open f ≡ true
      → IsSafe (write_packet files formats p f s)
  unfolding write_packet
  write_packet-Safe formats p f s h o =
      let (w, e) = h f o in
      rw (e, write_packet)
        (λ g q. elim (Bool-cases (g == f)) [
          | inl same ↦ (
            (write_data (files.answers f (queue_node formats p w).0.ts_packet_count)
                (queue_node formats p w).0).writer,
            rw same,
          )
          | inr other ↦ let (v, k) = h g q in (v, rw other k)
        ])

  start-IsStarted :
      (f : ℕ) (s : Splitter) → HasWriters s → IsStarted f (start_output_request files f s)
  unfolding start_output_request
  start-IsStarted f s h =
      open_closed-IsStarted f (find_or_default_output_result f s)
        ((find_or_default-Safe f).safe s h)

  started_ok :
      (f : ℕ) (s t : Splitter) (u : Unit {0})
      → HasWriters s
      → start_output_request files f s ≡ ok u t
      → HasWriters t × (t.is_open f ≡ true)
  unfolding IsStarted
  started_ok f s t u h e = let z = start-IsStarted f s h in rw e at z

  started_err :
      (f : ℕ) (s t : Splitter) (x : Stop)
      → HasWriters s
      → start_output_request files f s ≡ err x t
      → HasWriters t × (x ≢ writer_missing)
  unfolding IsStarted
  started_err f s t x h e = let z = start-IsStarted f s h in rw e at z

  -- The file is opened, if it is not open yet, and then there is a writer for the packet.
  start_then_write-Safe :
      (formats : List Bytes) (p : TsPacket) (f : ℕ)
      → Safe (start_output_request files f >> (write_packet files formats p f >> pure false))
  start_then_write-Safe formats p f = record {
    safe = λ s h. elim (Outcome-cases (start_output_request files f s)) [
      | inr (x, t, e) ↦ rw (e, ◌>>=◌) (started_err f s t x h e)
      | inl (u, t, e) ↦
          let (k, o) = started_ok f s t u h e in
          let written = write_packet-Safe formats p f t k o in
          rw (e, ◌>>=◌)
            (elim (Outcome-cases (write_packet files formats p f t)) [
              | inl (v, q, d) ↦ rw (d, ◌>>=◌) (rw d at written)
              | inr (x, q, d) ↦ rw (d, ◌>>=◌) (rw d at written)
            ])
    ];
  }

  handle_file-Safe :
      (x : Position) (formats : List Bytes) (p : TsPacket) (f : ℕ) (r : Output)
      → Safe (handle_file files x formats p f r)
  unfolding handle_file
  handle_file-Safe x formats p f r =
      >>=-Safe (modify (find_or_default_output_result f)) _ (find_or_default-Safe f)
        (λ u. >>=-Safe (is_started x r.start) _ (is_started-Safe x r.start) (λ b. if_started b))
    where
      if_finished :
          (b : Bool)
          → Safe (
              if b
              then (finish_output_request r >> pure true)
              else (start_output_request files f >> (write_packet files formats p f >> pure false)))
      if_finished true =
          >>=-Safe (finish_output_request r) (λ u. pure true) (finish_output_request-Safe r)
            (λ u. pure-Safe true)
      if_finished false = start_then_write-Safe formats p f

      if_started :
          (b : Bool)
          → Safe (
              if not b then pure false else (do
                finished ← is_finished f r.length
                if finished
                    then (finish_output_request r >> pure true)
                    else (start_output_request files f
                        >> (write_packet files formats p f >> pure false))))
      if_started false = pure-Safe false
      if_started true =
          >>=-Safe (is_finished f r.length) _ (is_finished-Safe f r.length) if_finished

  handle_request-Safe :
      (x : Position) (formats : List Bytes) (p : TsPacket) (r : Output)
      → Safe (handle_request files x formats p r)
  unfolding handle_request
  handle_request-Safe x formats p r = elim (Option-cases r.output_file) [
    | inl e ↦ rw e (throw-Safe null_file (λ z. cc))
    | inr (f, e) ↦ rw e (handle_file-Safe x formats p f (record r { output_file = some f }))
  ]

  handle_requests-Safe :
      (x : Position) (formats : List Bytes) (p : TsPacket) (rs : List Output)
      → Safe (handle_requests files x formats p rs)
  unfolding handle_requests
  handle_requests-Safe x formats p [] = pure-Safe []
  handle_requests-Safe x formats p (r ∷ rs) =
      >>=-Safe (handle_request files x formats p r) _ (handle_request-Safe x formats p r) (λ b.
        >>=-Safe (handle_requests files x formats p rs) _ (handle_requests-Safe x formats p rs)
          (λ kept. pure-Safe _))

  handle_ts_packet_ready-Safe :
      (x : Position) (formats : List Bytes) (p : TsPacket)
      → Safe (handle_ts_packet_ready files x formats p)
  unfolding handle_ts_packet_ready
  handle_ts_packet_ready-Safe x formats p =
      >>=-Safe (get λ (s : Splitter). s.output_requests) _ (get-Safe _) (λ rs.
        >>=-Safe (handle_requests files x formats p rs) _ (handle_requests-Safe x formats p rs)
          (λ kept. quiet-Safe (λ s. record s { output_requests = kept }) (λ s. (refl, refl))))

start_segment-Safe :
    (k : TemplateKind) (t : OutputTemplate) (segment : ℕ) → Safe (start_segment k t segment)
unfolding start_segment
start_segment-Safe no_kind t segment = throw-Safe bad_template_kind (λ z. cc)
start_segment-Safe discontinuity_segments t segment =
    elim (Bool-cases (matches leb_ℤ t.filter (pos segment))) [
      | inl e ↦
          rw e (quiet-Safe (append_discont_segment_output_request segment) (λ s. (refl, refl)))
      | inr e ↦ rw e (pure-Safe tt)
    ]

segment_starts-Safe :
    (segment : ℕ) (templates : List OutputTemplate) → Safe (handle_segment_starts segment templates)
unfolding handle_segment_starts
segment_starts-Safe segment [] = pure-Safe tt
segment_starts-Safe segment (t ∷ later) =
    >>=-Safe (start_segment t.output_files_kind t segment) _
      (start_segment-Safe t.output_files_kind t segment) (λ u. segment_starts-Safe segment later)

stats-Safe : Safe (modify increase_discont_segment_stats)
stats-Safe = quiet-Safe increase_discont_segment_stats (λ s. (refl, refl))

handle_discont_encountered-Safe : (segment : ℕ) → Safe (handle_discont_encountered segment)
unfolding handle_discont_encountered
handle_discont_encountered-Safe segment =
    >>=-Safe (modify increase_discont_segment_stats) _ stats-Safe (λ u.
      >>=-Safe (get λ (s : Splitter). s.output_templates) _ (get-Safe _)
        (segment_starts-Safe segment))

finish_requests-Safe : (rs : List Output) → Safe (finish_requests rs)
unfolding finish_requests
finish_requests-Safe [] = pure-Safe tt
finish_requests-Safe (r ∷ rs) =
    >>=-Safe (finish_output_request r) _ (finish_output_request-Safe r)
      (λ u. finish_requests-Safe rs)

handle_eof_encountered-Safe : Safe handle_eof_encountered
unfolding handle_eof_encountered
handle_eof_encountered-Safe = >>=-Safe (modify increase_discont_segment_stats) _ stats-Safe (λ u.
    >>=-Safe (get λ (s : Splitter). s.output_requests) _ (get-Safe _) (λ rs.
      >>=-Safe (finish_requests rs) _ (finish_requests-Safe rs)
        (λ u. quiet-Safe (λ s. record s { output_requests = [] }) (λ s. (refl, refl)))))

handle_error_encountered-Safe : (kind : ErrorKind) → Safe (handle_error_encountered kind)
handle_error_encountered-Safe unknown = throw-Safe reader_error (λ z. cc)
handle_error_encountered-Safe io = throw-Safe reader_error (λ z. cc)
handle_error_encountered-Safe ts = pure-Safe tt

handle-Safe : {T : Type 0} (files : Files) (e : Event T) → Safe (handle files e)
unfolding handle
handle-Safe files (ts_packet_ready x p) = handle_ts_packet_ready-Safe files x (p.bytes ∷ []) p
handle-Safe files (discont_encountered x last) = handle_discont_encountered-Safe x.discont_segment
handle-Safe files (error_encountered kind) = handle_error_encountered-Safe kind
handle-Safe files eof_encountered = handle_eof_encountered-Safe

handle_all-Safe : {T : Type 0} (files : Files) (es : List (Event T)) → Safe (handle_all files es)
unfolding handle_all
handle_all-Safe files [] = pure-Safe tt
handle_all-Safe files (e ∷ es) =
    >>=-Safe (handle files e) _ (handle-Safe files e) (λ u. handle_all-Safe files es)

-- Whatever the reader signals, files fail to open or devices answer, the program never ends because
-- the writer of an output file is missing: each open file has one, before and after each signal,
-- also where a handler throws.
pub handle_all-IsSafe :
    {T : Type 0} (files : Files) (es : List (Event T)) (s : Splitter)
    → HasWriters s
    → IsSafe (handle_all files es s)
handle_all-IsSafe files es s h = (handle_all-Safe files es).safe s h
