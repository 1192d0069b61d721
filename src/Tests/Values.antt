-- ===== src/Tests/Values.antt =====
-- Ranges, durations, the writer's queue and a response.
use streamserver_cvn.Prelude.{
  ℕ, zero, suc, ◌+◌, ◌-◌, ◌*◌, ◌/◌, ◌%◌, ◌≡◌, ◌↔◌, ◌⊎◌, refl, true, false, [], ◌∷◌, ◌++◌, arith,
  Option, none, some, leb, ltb, ◌==◌, ◌&&◌, if◌then◌else◌, length, All, Bytes,
}
use mathlib.Core.Option
use streamserver_cvn.Prelude.Int.{ℤ, pos, negsuc}
use streamserver_cvn.Ranges.{NumericRange, range, within, compare, matches, from_string, dash}
use streamserver_cvn.Ranges.Bounds.{IsIn, AnyIn, compare_within, matches-AnyIn}
use streamserver_cvn.Ranges.Printing.{NoDash, print, from_string-print}
use streamserver_cvn.Duration.{
  InLimit, total, time_duration, total-time_duration, time_duration-InLimit,
}
use streamserver_cvn.Writer.{
  Writer, stream, IsCounted, queue_bytes, queue_bytes-stream, wrote, error, write_data, emptied,
  write_data-stream, write_data_empties, IsEmptied,
}
use streamserver_cvn.Http.Text.{ascii, index_of}
use streamserver_cvn.Http.WhiteSpace.{is_empty}
use streamserver_cvn.Http.Request.{line_sep, field_sep_start_line}
use streamserver_cvn.Http.Response.{
  Response, new_response, set_http_version, set_status_code, set_status_msg, contains, status_line,
  to_bytes,
}
use streamserver_cvn.Http.Response.StatusLine.{
  IsResponse, new_response-IsResponse, to_bytes-status_line,
}

abbrev ten_up : NumericRange ℕ
ten_up = record { lower_bound = some 10; upper_bound = none }

abbrev low : NumericRange ℕ
low = record { lower_bound = some 2; upper_bound = some 4 }

compare_within_example : (compare leb low 3 ≡ within) ↔ IsIn leb low 3
compare_within_example = compare_within leb low 3

matches-AnyIn_example :
    (matches leb (low ∷ ten_up ∷ []) 7 ≡ true)
    ↔ ((low ∷ ten_up ∷ [] ≡ []) ⊎ AnyIn leb (low ∷ ten_up ∷ []) 7)
matches-AnyIn_example = matches-AnyIn leb (low ∷ ten_up ∷ []) 7

-- Decimal notation, as `toInt` reads it.
abbrev digits : ℕ → ℕ → Bytes → Bytes
digits zero n text = text
digits (suc places) n text =
    let more = digits places (n / 10) ((n % 10 + 48) ∷ text) in
    if ltb n 10 then (n % 10 + 48) ∷ text else more

abbrev show : ℤ → Bytes
show (pos n) = digits 10 n []
show (negsuc n) = dash ∷ digits 10 (n + 1) []

abbrev read_digits : ℕ → Bytes → Option ℕ
read_digits n [] = some n
read_digits n (c ∷ cs) =
    let more = read_digits (n * 10 + (c - 48)) cs in if leb 48 c && leb c 57 then more else none

abbrev negative : ℕ → ℤ
negative zero = pos 0
negative (suc n) = negsuc n

abbrev to_int : Bytes → Option ℤ
to_int [] = none
to_int (c ∷ cs) =
    if c == dash
    then Option.map negative (read_digits 0 cs)
    else Option.map pos (read_digits 0 (c ∷ cs))

abbrev three_up : NumericRange ℤ
three_up = record { lower_bound = some (pos 3); upper_bound = some (pos 17) }

print-three_up : print show three_up ≡ ascii "3-17"
print-three_up = refl

reads_minus : to_int (ascii "-17") ≡ some (negsuc 16)
reads_minus = refl

other : (c : ℕ) → (c == dash) ≡ false → NoDash c
other c h = ground arith

from_string-print_example : from_string to_int (print show three_up) ≡ range three_up
from_string-print_example =
    from_string-print to_int show three_up
      (record { reads = refl; is_plain = (other 51 refl, tt); not_empty = (51, ([], refl)) })
      (record {
        reads = refl;
        is_plain = (other 49 refl, (other 55 refl, tt));
        not_empty = (49, (55 ∷ [], refl));
      })

total-time_duration_example : total (time_duration 93784005) ≡ 93784005
total-time_duration_example = total-time_duration 93784005

time_duration-InLimit_example : All InLimit (time_duration 93784005)
time_duration-InLimit_example = time_duration-InLimit 93784005

abbrev new_writer : Writer
new_writer = record {
  buf = [];
  notifier = some false;
  ts_strip_additional_info = false;
  ts_packet_offset = 0;
  ts_packet_count = 0;
  sent = [];
}

queue_bytes-stream_example :
    (stream (queue_bytes (1 ∷ 2 ∷ 3 ∷ []) new_writer) ≡ stream new_writer ++ 1 ∷ 2 ∷ 3 ∷ [])
    × IsCounted (queue_bytes (1 ∷ 2 ∷ 3 ∷ []) new_writer)
queue_bytes-stream_example = queue_bytes-stream (1 ∷ 2 ∷ 3 ∷ []) new_writer refl

abbrev waiting : Writer
waiting = record new_writer { buf = 1 ∷ 2 ∷ 3 ∷ []; ts_packet_offset = 3 }

write_data-stream_example :
    (stream (write_data (wrote 2 ∷ error ∷ []) waiting).writer ≡ stream waiting)
    × (((write_data (wrote 2 ∷ error ∷ []) waiting).end ≡ emptied)
        → ((write_data (wrote 2 ∷ error ∷ []) waiting).writer.sent ≡ stream waiting))
write_data-stream_example = write_data-stream (wrote 2 ∷ error ∷ []) waiting

write_data_empties_example :
    IsEmptied (stream waiting) (write_data (wrote 1 ∷ wrote 1 ∷ wrote 1 ∷ []) waiting)
write_data_empties_example =
    write_data_empties (wrote 1 ∷ wrote 1 ∷ wrote 1 ∷ []) waiting
      (omega arith, (omega arith, (omega arith, tt))) (omega arith)

-- HTTP/1.0 200 OK
abbrev version : Bytes
version = 72 ∷ 84 ∷ 84 ∷ 80 ∷ 47 ∷ 49 ∷ 46 ∷ 48 ∷ []

abbrev message : Bytes
message = 79 ∷ 75 ∷ []

abbrev response : Response
response = record {
  http_version = version;
  status_code = 200;
  status_msg = message;
  header = [];
  body = [];
}

new_response-IsResponse_example : IsResponse response
new_response-IsResponse_example =
    new_response-IsResponse 200 message version response (
      unfold new_response set_http_version set_status_code set_status_msg contains is_empty in refl)

response-IsResponse : IsResponse response
response-IsResponse =
    unfold contains is_empty in
    record {
      version = refl;
      version_sp = refl;
      version_cr = refl;
      version_lf = refl;
      status_min = omega arith;
      status_max = omega arith;
      msg_cr = refl;
      msg_lf = refl;
    }

to_bytes-status_line_example :
    (index_of line_sep (to_bytes (λ n. 50 ∷ 48 ∷ 48 ∷ []) response)
      ≡ some (length (status_line (λ n. 50 ∷ 48 ∷ 48 ∷ []) response)))
    × (index_of field_sep_start_line (to_bytes (λ n. 50 ∷ 48 ∷ 48 ∷ []) response)
        ≡ some (length response.http_version))
to_bytes-status_line_example =
    to_bytes-status_line (λ n. 50 ∷ 48 ∷ 48 ∷ []) response response-IsResponse
      (unfold contains in refl)
