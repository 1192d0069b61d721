-- ===== src/Http/Request/HeaderLines.antt =====
-- A header line in a round of the receive loop: the line is kept, and the lines that it ends are put
-- into the header.
use streamserver_cvn.Prelude.{
  ℕ, ◌-◌, ◌<◌, ◌≡◌, refl, ◌∙◌, inl, inr, length, take, Bytes, Bool-cases,
}
use streamserver_cvn.Prelude.Outcome.{Outcome-cases}
use streamserver_cvn.Http.WhiteSpace.{is_empty}
use streamserver_cvn.Http.Header
use streamserver_cvn.Http.Request.{
  Request, Round, go, flush_header_lines, end_header, header_line, starts_with_white,
}
use streamserver_cvn.Http.Request.StartLine.{extend, extend_round, Consumes}

abbrev lines : Request → Bytes
lines r = take (length r.header_lines_buf - 2) r.header_lines_buf

module _ (m : Bytes) (k : ℕ) (next : Request → Round) where
  pub flush_header_lines-extend :
      (r : Request)
      → ((s : Request) → next (extend m k s) ≡ extend_round m k (next s))
      → flush_header_lines (extend m k r) next ≡ extend_round m k (flush_header_lines r next)
  unfolding flush_header_lines
  flush_header_lines-extend r same = elim (Bool-cases (is_empty r.header_lines_buf)) [
    | inl e ↦ rw (e, flush_header_lines) (same r)
    | inr e ↦
        rw (e, flush_header_lines)
          (elim (Outcome-cases (Header.append (lines r) r.header)) [
            | inl (u, h, o) ↦ rw o (same (record r { header_lines_buf = lines r; header = h }))
            | inr (x, h, o) ↦ rw o
          ])
  ]

pub flush_header_lines-Consumes :
    (next : Request → Round) (r s : Request)
    → ((t : Request)
        → t.buf ≡ s.buf
        → t.byte_count ≡ s.byte_count
        → t.byte_count_max ≡ s.byte_count_max
        → Consumes r (next t))
    → Consumes r (flush_header_lines s next)
unfolding flush_header_lines
flush_header_lines-Consumes next r s keep = elim (Bool-cases (is_empty s.header_lines_buf)) [
  | inl e ↦ rw (e, flush_header_lines) (keep s refl refl refl)
  | inr e ↦
      rw (e, flush_header_lines)
        (elim (Outcome-cases (Header.append (lines s) s.header)) [
          | inl (u, h, o) ↦
              rw o (keep (record s { header_lines_buf = lines s; header = h }) refl refl refl)
          | inr (x, h, o) ↦ rw o tt
        ])
]

pub end_header-extend :
    (m : Bytes) (k : ℕ) (s : Request) → end_header (extend m k s) ≡ extend_round m k (end_header s)
unfolding end_header
end_header-extend m k s = refl

pub header_line-extend :
    (m : Bytes) (k : ℕ) (line : Bytes) (s : Request)
    → header_line line (extend m k s) ≡ extend_round m k (header_line line s)
unfolding header_line
header_line-extend m k line s = elim (Bool-cases (starts_with_white line)) [
  | inl e ↦ rw (e, header_line)
  | inr e ↦
      rw (e, header_line)
        (flush_header_lines-extend m k (λ t. go (record t { header_lines_buf = line })) s
          (λ t. refl))
]

pub header_line-Consumes :
    (line : Bytes) (r s : Request)
    → length s.buf < length r.buf
    → s.byte_count ≡ r.byte_count
    → s.byte_count_max ≡ r.byte_count_max
    → Consumes r (header_line line s)
unfolding header_line
header_line-Consumes line r s h c d = elim (Bool-cases (starts_with_white line)) [
  | inl e ↦ rw (e, header_line) (h, c, d)
  | inr e ↦
      rw (e, header_line)
        (flush_header_lines-Consumes (λ t. go (record t { header_lines_buf = line })) r s
          (λ t b c' d'. (rw b h, c' ∙ c, d' ∙ d)))
]
