-- ===== src/Tests/Splitting.antt =====
-- The splitter: a run over four packets.
use streamserver_cvn.Prelude.{
  ℕ, ◌*◌, ◌≡◌, refl, inl, inr, true, false, [], ◌∷◌, List, none, some, arith, Bool, ◌++◌, ◌+◌, leb,
  replicate, take, drop, Bytes,
}
use streamserver_cvn.Prelude.Int.{pos}
use streamserver_cvn.Prelude.Outcome.{Outcome, ok, err}
use streamserver_cvn.TsPacket.{TsPacket, empty_packet, Clock}
use streamserver_cvn.Reader.Device.{
  Position, Event, ts_packet_ready, error_encountered, discont_encountered, eof_encountered, ts,
}
use streamserver_cvn.Writer.{wrote, write_data, queue_node, queue_bytes}
use streamserver_cvn.Splitter.{
  Output, at_offset, in_bytes, Stop, Splitter, handle_segment_starts, len_bytes_or_default,
  len_packets_or_default,
}
use streamserver_cvn.Splitter.Handlers.{
  Files, handle_all, handle, handle_ts_packet_ready, handle_requests, handle_request, handle_file,
  is_started, is_finished, find_or_default_output_result, finish_output_request, finish_file,
  compare_length, result_length, start_output_request, open_closed, write_packet, set_length,
  find_result, handle_discont_encountered, handle_eof_encountered, finish_requests, increase_stats,
}
use streamserver_cvn.Splitter.Writers.{IsSafe}
use streamserver_cvn.Splitter.Present.{handle_all-IsSafe}
use streamserver_cvn.Splitter.Writing.{written}
use streamserver_cvn.Splitter.Window.{window}
use streamserver_cvn.Splitter.Signals.{selected}
use streamserver_cvn.Splitter.Selected.{IsNew, handle_all-selected}
use streamserver_cvn.Splitter.Whole.{split-Framed}
use streamserver_cvn.Reader.Tallies.{handed}
use streamserver_cvn.Reader.Framed.{concat, Framed}
use streamserver_cvn.Reader.{check_is_ready, rounds, round, ts_packet_size_effective, check_packets}
use streamserver_cvn.Reader.Device.{
  Reader, ReadResult, up_to, read_data, drain_loop, drain_buffer, hand_on, check_is_discontinuity,
  clock_in,
}
use streamserver_cvn.TsPacket.Packet.{
  packet_of, parse_packet, parse_prefix, parse_sync_byte, parse_pid,
}

abbrev at : ℕ → Position
at n = record { ts_packet_offset = 2 * n; ts_packet_count = n; discont_segment = 1 }

abbrev packet : ℕ → TsPacket
packet n = empty_packet (71 ∷ n ∷ [])

-- Packets with the numbers from 1 to 4.
abbrev signals : List (Event ℕ)
signals =
    ts_packet_ready (at 1) (packet 1)
    ∷ ts_packet_ready (at 2) (packet 2)
    ∷ error_encountered ts
    ∷ ts_packet_ready (at 3) (packet 3)
    ∷ discont_encountered (at 4) none
    ∷ ts_packet_ready (at 4) (packet 4)
    ∷ eof_encountered
    ∷ []

-- The file 0 gets all bytes, the file 1 two packets.
abbrev all : Output
all = record { output_file = some 0; start = at_offset (pos 0); length = in_bytes (pos 100) }

abbrev splitter : Splitter
splitter = record {
  output_requests = all ∷ window 1 2 2 ∷ [];
  output_results = [];
  output_templates = [];
  output_writers = λ f. none;
  last_output_id = 0;
  is_open = λ f. false;
  exists = λ f. false;
  next_file = 2;
}

-- A device takes a byte, and then no more.
abbrev files : Files
files = record { can_open = λ f. true; answers = λ f n. wrote n ∷ wrote 0 ∷ [] }

abbrev state_of : Outcome Stop Splitter (Unit {0}) → Splitter
state_of (ok u s) = s
state_of (err e s) = s

handle_all-IsSafe_example : IsSafe (handle_all files signals splitter)
handle_all-IsSafe_example = handle_all-IsSafe files signals splitter (λ f h. cc)

abbrev after : Splitter
after = state_of (handle_all files signals splitter)

ends : handle_all files signals splitter ≡ ok tt after
unfolding handle_all handle handle_ts_packet_ready handle_requests handle_request handle_file
    is_started is_finished find_or_default_output_result finish_output_request finish_file
    compare_length result_length start_output_request open_closed write_packet set_length
    find_result handle_discont_encountered handle_eof_encountered finish_requests increase_stats
    queue_node queue_bytes write_data handle_segment_starts len_bytes_or_default
    len_packets_or_default
ends = refl

is_new : IsNew 1 2 2 splitter
unfolding find_result
is_new = record {
  asked_for = inr ((λ e. cc), inl (refl, tt));
  positive = omega arith;
  no_result = refl;
  closed = refl;
  missing = refl;
  unwritten = refl;
  is_old = omega arith;
}

handle_all-selected_example : written 1 after ≡ selected 1 2 2 signals
handle_all-selected_example =
    handle_all-selected files 1 2 2 signals splitter after (refl, (refl, (refl, (refl, refl))))
      is_new ends

selects : selected 1 2 2 signals ≡ 71 ∷ 2 ∷ 71 ∷ 3 ∷ []
selects = refl

-- A file of three null packets, read and split.
abbrev null_packet : ℕ → Bytes
null_packet n = 71 ∷ 31 ∷ 255 ∷ 16 ∷ replicate 184 n

abbrev packets : List Bytes
packets = null_packet 1 ∷ null_packet 2 ∷ null_packet 3 ∷ []

abbrev file : Bytes
file = null_packet 1 ++ (null_packet 2 ++ null_packet 3)

abbrev reader : Reader ℕ
reader = record {
  framing = record { buf = []; ts_packet_auto_size = true; ts_packet_size = 188 };
  position = record { ts_packet_offset = 0; ts_packet_count = 0; discont_segment = 1 };
  last_pcr = none;
}

abbrev value_of : Clock → ℕ
value_of c = c.value

abbrev plus_one : ℕ → ℕ
plus_one n = n + 1

abbrev reads : List ReadResult
reads = up_to 188 ∷ up_to 100 ∷ up_to 88 ∷ up_to 188 ∷ up_to 1 ∷ []

abbrev read_events : List (Event ℕ)
read_events = (read_data value_of leb plus_one 3 reads file reader).events

is_ok : Outcome Stop Splitter (Unit {0}) → Bool
is_ok (ok u s) = true
is_ok (err e s) = false

ok_state : (o : Outcome Stop Splitter (Unit {0})) → is_ok o ≡ true → o ≡ ok tt (state_of o)
unfolding is_ok
ok_state (ok u s) h = refl
ok_state (err e s) h = cc

is_split : is_ok (handle_all files read_events splitter) ≡ true
unfolding is_ok read_data drain_loop drain_buffer hand_on check_is_discontinuity clock_in
    check_is_ready rounds round ts_packet_size_effective check_packets packet_of parse_packet
    parse_prefix parse_sync_byte parse_pid handle_all handle handle_ts_packet_ready handle_requests
    handle_request handle_file is_started is_finished find_or_default_output_result
    finish_output_request finish_file compare_length result_length start_output_request open_closed
    write_packet set_length find_result handle_discont_encountered handle_eof_encountered
    finish_requests increase_stats queue_node queue_bytes write_data handle_segment_starts
    len_bytes_or_default len_packets_or_default
is_split = refl

split-Framed_example :
    let run = read_data value_of leb plus_one 3 reads file reader in
    (left : List Bytes) × ((packets ≡ handed run.events ++ left)
      × (Framed ℕ 188 left [] run.reader run.rest
          × (written 1 (state_of (handle_all files read_events splitter))
              ≡ concat (take 2 (drop 1 (handed run.events))))))
split-Framed_example =
    split-Framed value_of leb plus_one 188 (omega arith) [] (omega arith) files 1 2 2 0 reads
      packets file reader splitter (state_of (handle_all files read_events splitter))
      ((refl, refl), ((refl, refl), ((refl, refl), tt)))
      (record { is_set = refl; is_short = omega arith; stream = refl }) refl is_new
      (ok_state (handle_all files read_events splitter) is_split)
