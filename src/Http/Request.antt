-- ===== src/Http/Request.antt =====
-- streamserver-cvn-cli/http/httprequest_netside.{h,cpp}: an HTTP request that is received in chunks.
pub mod StartLine
pub mod HeaderLines
pub mod Rounds
pub mod Chunks
use streamserver_cvn.Prelude.{
  ℕ, zero, suc, ◌+◌, ◌-◌, ◌*◌, Bool, true, false, not, ◌&&◌, ◌||◌, List, [], ◌∷◌, ◌++◌, Option,
  none, some, ltb, leb, ◌==◌, if◌then◌else◌, length, take, drop, Bytes,
}
use streamserver_cvn.Prelude.Outcome.{Outcome, ok, err, M}
use streamserver_cvn.Http.Text.{cr, lf, sp, ht, same, index_of, starts_with}
use streamserver_cvn.Http.WhiteSpace.{is_empty}
use streamserver_cvn.Http.Header.{Header, empty_header}
use streamserver_cvn.Http.Header

pub data ReceiveState : Type 0 where
  request_line header body ready : ReceiveState

pub record Request : Type 0 where
  pub byte_count : ℕ
  pub byte_count_max : ℕ
  pub buf : Bytes
  pub header_lines_buf : Bytes
  pub receive_state : ReceiveState
  pub request_line : Bytes
  pub method : Bytes
  pub path : Bytes
  pub http_version : Bytes
  pub header : Header

abbrev pub new_request : Request
new_request = record {
  byte_count = 0;
  byte_count_max = 10 * 1024;
  buf = [];
  header_lines_buf = [];
  receive_state = ReceiveState.request_line;
  request_line = [];
  method = [];
  path = [];
  http_version = [];
  header = empty_header;
}

-- One constructor for each message that is thrown.
pub data Error : Type 0 where
  already_ready byte_count_exceeded : Error
  no_separator_after_method method_missing no_separator_after_path path_missing : Error
  version_missing body_not_supported trailing_data : Error
  in_header : Header.Error → Error

-- What a round of the loop in `processChunk` does: it returns to wait for more bytes, goes on, or
-- throws.
pub data Round : Type 0 where
  wait : Round
  go : Request → Round
  fail : Error → Request → Round

abbrev pub line_sep : Bytes
line_sep = cr ∷ lf ∷ []

abbrev pub field_sep_start_line : Bytes
field_sep_start_line = sp ∷ []

-- The request line behind the method; `rest` is the line from `iFrom` on.
unfoldable pub read_version : ℕ → Bytes → Request → Round
unfolding is_empty
read_version i rest r =
    let s = record r { http_version = rest } in
    if is_empty rest
    then fail version_missing s
    else go (record s { buf = drop (i + 2) r.buf; receive_state = ReceiveState.header })

unfoldable pub read_path : ℕ → Bytes → Request → Round
read_path i rest r = elim (index_of field_sep_start_line rest) [
  | none ↦ fail no_separator_after_path r
  | some k ↦
      let s = record r { path = take k rest } in
      if is_empty (take k rest) then fail path_missing s else read_version i (drop (k + 1) rest) s
]

unfoldable pub read_method : ℕ → Bytes → Request → Round
read_method i line r = elim (index_of field_sep_start_line line) [
  | none ↦ fail no_separator_after_method r
  | some k ↦
      let s = record r { method = take k line } in
      if is_empty (take k line) then fail method_missing s else read_path i (drop (k + 1) line) s
]

-- `case ReceiveState::RequestLine`.
unfoldable pub round_request_line : Request → Round
round_request_line r = elim (index_of line_sep r.buf) [
  | none ↦ wait
  | some i ↦ let line = take i r.buf in read_method i line (record r { request_line = line })
]

-- `_headerLinesBuf.chop(lineSep.length()); _header.append(_headerLinesBuf);`
unfoldable pub flush_header_lines : Request → (Request → Round) → Round
unfolding is_empty
flush_header_lines r next =
    if is_empty r.header_lines_buf
    then next r
    else let lines = take (length r.header_lines_buf - 2) r.header_lines_buf in
      let s = record r { header_lines_buf = lines } in
      elim (Header.append lines r.header) [
        | ok u h ↦ next (record s { header = h })
        | err e h ↦ fail (in_header e) (record s { header = h })
      ]

abbrev is_get_or_head : Bytes → Bool
is_get_or_head method = same method (71 ∷ 69 ∷ 84 ∷ []) || same method (72 ∷ 69 ∷ 65 ∷ 68 ∷ [])

-- The empty line that ends the header.
unfoldable pub end_header : Request → Round
end_header r = go (record r {
  header_lines_buf = [];
  receive_state = if is_get_or_head r.method then ReceiveState.ready else ReceiveState.body;
})

abbrev starts_with_white : Bytes → Bool
starts_with_white line = starts_with (sp ∷ []) line || starts_with (ht ∷ []) line

-- A header line, its separator included: a continuation, or the start of a field.
unfoldable pub header_line : Bytes → Request → Round
header_line line r =
    if starts_with_white line
    then go (record r { header_lines_buf = r.header_lines_buf ++ line })
    else flush_header_lines r λ s. go (record s { header_lines_buf = line })

-- `case ReceiveState::Header`, one round of its loop.
unfoldable pub round_header : Request → Round
round_header r = elim (index_of line_sep r.buf) [
  | none ↦ wait
  | some i ↦
      let line = take (i + 2) r.buf in
      let s = record r { buf = drop (i + 2) r.buf } in
      if i == 0 then flush_header_lines s end_header else header_line line s
]

unfoldable pub round_in : ReceiveState → Request → Round
round_in ReceiveState.request_line r = round_request_line r
round_in ReceiveState.header r = round_header r
round_in ReceiveState.body r = fail body_not_supported r
round_in ReceiveState.ready r = fail trailing_data r

-- `while (_buf.length() > 0) switch (_receiveState) ...`; `none` if the fuel runs out.
unfoldable pub rounds : ℕ → Request → Option (Outcome Error Request (Unit {0}))
rounds zero r = none
rounds (suc fuel) r = if is_empty r.buf then some (ok tt r) else elim (round_in r.receive_state r) [
  | wait ↦ some (ok tt r)
  | go s ↦ rounds fuel s
  | fail e s ↦ some (err e s)
]

abbrev pub is_ready : ReceiveState → Bool
is_ready ReceiveState.ready = true
is_ready _ = false

-- `processChunk`.
unfoldable pub process_chunk : Bytes → Request → Option (Outcome Error Request (Unit {0}))
process_chunk bytes r =
    let s = record r { buf = r.buf ++ bytes; byte_count = r.byte_count + length bytes } in
    if is_ready r.receive_state
    then some (err already_ready r)
    else if not (leb s.byte_count s.byte_count_max)
    then some (err byte_count_exceeded s)
    else rounds (suc (length s.buf)) s
