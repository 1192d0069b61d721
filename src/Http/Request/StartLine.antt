-- ===== src/Http/Request/StartLine.antt =====
-- The request line in a round of the receive loop: it is read from its own bytes, and it leaves the
-- buffer with its separator.
use streamserver_cvn.Prelude.{
  ℕ, ◌+◌, ◌≤◌, ◌<◌, ◌≡◌, inl, inr, ◌++◌, arith, length, length-drop, take, drop, Bytes,
  Option-cases,
}
use streamserver_cvn.Http.Text.{index_of}
use streamserver_cvn.Http.Finding.{drop-append_le}
use streamserver_cvn.Http.Request.{
  Request, Round, wait, go, fail, field_sep_start_line, read_version, read_path, read_method,
}

-- A request to which `m` has been appended, with another byte count.
abbrev pub extend : Bytes → ℕ → Request → Request
extend m k r = record r { buf = r.buf ++ m; byte_count = k }

abbrev pub extend_round : Bytes → ℕ → Round → Round
extend_round m k wait = wait
extend_round m k (go s) = go (extend m k s)
extend_round m k (fail e s) = fail e (extend m k s)

-- A round that goes on leaves less than `n` bytes, and the counts as they were.
abbrev pub Consumes : Request → Round → Type 0
Consumes r wait = Unit {0}
Consumes r (go s) =
    (length s.buf < length r.buf)
    × (s.byte_count ≡ r.byte_count)
    × (s.byte_count_max ≡ r.byte_count_max)
Consumes r (fail e s) = Unit {0}

module _ (m : Bytes) (k i : ℕ) where
  read_version-extend :
      (rest : Bytes) (r : Request)
      → i + 2 ≤ length r.buf
      → read_version i rest (extend m k r) ≡ extend_round m k (read_version i rest r)
  unfolding read_version
  read_version-extend rest r h = ground (arith, drop-append_le (i + 2) r.buf m)

  read_path-extend :
      (rest : Bytes) (r : Request)
      → i + 2 ≤ length r.buf
      → read_path i rest (extend m k r) ≡ extend_round m k (read_path i rest r)
  unfolding read_path
  read_path-extend rest r h = elim (Option-cases (index_of field_sep_start_line rest)) [
    | inl o ↦ rw (o, read_path)
    | inr (j, o) ↦
        rw (o, read_path)
          (ground
            (arith, read_version-extend (drop (j + 1) rest) (record r { path = take j rest })))
  ]

  pub read_method-extend :
      (line : Bytes) (r : Request)
      → i + 2 ≤ length r.buf
      → read_method i line (extend m k r) ≡ extend_round m k (read_method i line r)
  unfolding read_method
  read_method-extend line r h = elim (Option-cases (index_of field_sep_start_line line)) [
    | inl o ↦ rw (o, read_method)
    | inr (j, o) ↦
        rw (o, read_method)
          (ground (arith, read_path-extend (drop (j + 1) line) (record r { method = take j line })))
  ]

module _ (i : ℕ) where
  read_version-Consumes :
      (rest : Bytes) (r s : Request)
      → i + 2 ≤ length r.buf
      → s.buf ≡ r.buf
      → s.byte_count ≡ r.byte_count
      → s.byte_count_max ≡ r.byte_count_max
      → Consumes r (read_version i rest s)
  unfolding read_version
  read_version-Consumes rest r s h b c d = ground (arith, length-drop (i + 2) s.buf)

  read_path-Consumes :
      (rest : Bytes) (r s : Request)
      → i + 2 ≤ length r.buf
      → s.buf ≡ r.buf
      → s.byte_count ≡ r.byte_count
      → s.byte_count_max ≡ r.byte_count_max
      → Consumes r (read_path i rest s)
  unfolding read_path
  read_path-Consumes rest r s h b c d = elim (Option-cases (index_of field_sep_start_line rest)) [
    | inl o ↦ rw (o, read_path) tt
    | inr (j, o) ↦
        rw (o, read_path)
          (ground (
            arith,
            read_version-Consumes (drop (j + 1) rest) r (record s { path = take j rest }) h b c d,
          ))
  ]

  pub read_method-Consumes :
      (line : Bytes) (r s : Request)
      → i + 2 ≤ length r.buf
      → s.buf ≡ r.buf
      → s.byte_count ≡ r.byte_count
      → s.byte_count_max ≡ r.byte_count_max
      → Consumes r (read_method i line s)
  unfolding read_method
  read_method-Consumes line r s h b c d = elim (Option-cases (index_of field_sep_start_line line)) [
    | inl o ↦ rw (o, read_method) tt
    | inr (j, o) ↦
        rw (o, read_method)
          (ground (
            arith,
            read_path-Consumes (drop (j + 1) line) r (record s { method = take j line }) h b c d,
          ))
  ]
