-- ===== src/Http/Request/Rounds.antt =====
-- One round of the receive loop: it consumes at least a line separator, and does not look at bytes
-- behind the line that it consumes.
use streamserver_cvn.Prelude.{
  ℕ, ◌+◌, ◌<◌, ◌≡◌, ◌≢◌, refl, inl, inr, [], some, arith, ◌==◌, length, length-drop, take, drop,
  Bytes, Bool-cases, Option-cases,
}
use streamserver_cvn.Http.Text.{index_of}
use streamserver_cvn.Http.Finding.{index_of-le, index_of-append, take-append_le, drop-append_le}
use streamserver_cvn.Http.Request.{
  Request, wait, ReceiveState, line_sep, round_request_line, end_header, round_header, round_in,
}
use streamserver_cvn.Http.Request.StartLine.{
  extend, extend_round, Consumes, read_method-extend, read_method-Consumes,
}
use streamserver_cvn.Http.Request.HeaderLines.{
  flush_header_lines-extend, flush_header_lines-Consumes, end_header-extend, header_line-extend,
  header_line-Consumes,
}

module _ (m : Bytes) (k i : ℕ) (r : Request) (found : index_of line_sep r.buf ≡ some i) where
  round_request_line-extend :
      round_request_line (extend m k r) ≡ extend_round m k (round_request_line r)
  unfolding round_request_line
  round_request_line-extend =
      let room = index_of-le line_sep r.buf i found in
      rw (index_of-append line_sep r.buf m i found, found, round_request_line)
        (rw (take-append_le i r.buf m (omega arith))
          (read_method-extend m k i (take i r.buf) (record r { request_line = take i r.buf }) room))

  round_header-extend : round_header (extend m k r) ≡ extend_round m k (round_header r)
  unfolding round_header
  round_header-extend =
      let room = index_of-le line_sep r.buf i found in
      let s = record r { buf = drop (i + 2) r.buf } in
      rw (index_of-append line_sep r.buf m i found, found, round_header)
        (rw (take-append_le (i + 2) r.buf m room, drop-append_le (i + 2) r.buf m room)
          (elim (Bool-cases (i == 0)) [
            | inl e ↦ rw e (flush_header_lines-extend m k end_header s (end_header-extend m k))
            | inr e ↦ rw e (header_line-extend m k (take (i + 2) r.buf) s)
          ]))

  round_request_line-Consumes : Consumes r (round_request_line r)
  unfolding round_request_line
  round_request_line-Consumes =
      rw (found, round_request_line)
        (read_method-Consumes i (take i r.buf) r (record r { request_line = take i r.buf })
          (index_of-le line_sep r.buf i found) refl refl refl)

  round_header-Consumes : Consumes r (round_header r)
  unfolding round_header end_header
  round_header-Consumes =
      let s = record r { buf = drop (i + 2) r.buf } in
      let less : length (drop (i + 2) r.buf) < length r.buf =
        omega (arith, length-drop (i + 2) r.buf, index_of-le line_sep r.buf i found) in
      rw (found, round_header)
        (elim (Bool-cases (i == 0)) [
          | inl e ↦ rw e (flush_header_lines-Consumes end_header r s (λ t b c d. (rw b less, c, d)))
          | inr e ↦ rw e (header_line-Consumes (take (i + 2) r.buf) r s less refl refl)
        ])

-- What a round that does not wait does to a longer request is what it does to the request.
pub round_in-extend :
    (m : Bytes) (k : ℕ) (st : ReceiveState) (r : Request)
    → round_in st r ≢ wait
    → round_in st (extend m k r) ≡ extend_round m k (round_in st r)
unfolding round_in
round_in-extend m k ReceiveState.request_line r h = elim (Option-cases (index_of line_sep r.buf)) [
  | inl o ↦ absurd (h (unfold round_request_line in rw (o, round_request_line)))
  | inr (i, o) ↦ round_request_line-extend m k i r o
]
round_in-extend m k ReceiveState.header r h = elim (Option-cases (index_of line_sep r.buf)) [
  | inl o ↦ absurd (h (unfold round_header in rw (o, round_header)))
  | inr (i, o) ↦ round_header-extend m k i r o
]
round_in-extend m k _ r h = refl

-- A round that goes on has taken bytes off the buffer, and leaves the counts alone.
pub round_in-Consumes : (st : ReceiveState) (r : Request) → Consumes r (round_in st r)
unfolding round_in
round_in-Consumes ReceiveState.request_line r = elim (Option-cases (index_of line_sep r.buf)) [
  | inl o ↦ unfold round_request_line in rw (o, round_request_line) tt
  | inr (i, o) ↦ round_request_line-Consumes [] 0 i r o
]
round_in-Consumes ReceiveState.header r = elim (Option-cases (index_of line_sep r.buf)) [
  | inl o ↦ unfold round_header in rw (o, round_header) tt
  | inr (i, o) ↦ round_header-Consumes [] 0 i r o
]
round_in-Consumes _ r = tt
