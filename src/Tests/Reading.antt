-- ===== src/Tests/Reading.antt =====
-- The reader: detection of packets, counters and a run over a short stream.
use streamserver_cvn.Prelude.{
  ℕ, ◌≡◌, refl, Bool, true, [], ◌∷◌, ◌++◌, List, none, some, ltb, ltb→lt, leb, ◌+◌, ◌*◌, arith,
  replicate, Bytes, All,
}
use streamserver_cvn.TsPacket.{Clock, length_basic, sync_byte}
use streamserver_cvn.Reader.{
  check_packets, count_packets, candidates, find_byte, find_byte_from, check_is_ready,
}
use streamserver_cvn.Reader.Device.{Reader, up_to, failed, ReadResult, read_data}
use streamserver_cvn.Reader.Hanging.{IsPoor, check_is_ready-none}
use streamserver_cvn.Reader.Hanging
use streamserver_cvn.Reader.Framed.{HandsOn}
use streamserver_cvn.Reader.Cutting.{read_data-HandsOn}

-- Two sync bytes in place, and then none for 14 packets.
abbrev garbage : Bytes
garbage = (71 ∷ replicate 187 0) ++ (71 ∷ replicate 2819 0)

garbage_first : find_byte sync_byte garbage ≡ some 0
unfolding find_byte
garbage_first = refl

garbage_second : find_byte_from sync_byte length_basic garbage ≡ some 0
unfolding find_byte
garbage_second = refl

is_poor : ℕ × ℕ → Bool
is_poor c =
    ltb (2 * (check_packets c.0 c.1 garbage).sync_bytes) (check_packets c.0 c.1 garbage).packets

poor : (c : ℕ × ℕ) → is_poor c ≡ true → IsPoor garbage c
unfolding is_poor
poor c h = ltb→lt _ _ h

garbage-IsPoor : All (IsPoor garbage) candidates
unfolding is_poor check_packets count_packets
garbage-IsPoor = (
  poor (188, 0) refl,
  (
    poor (204, 0) refl,
    (poor (208, 0) refl, (poor (192, 4) refl, (poor (208, 4) refl, (poor (212, 4) refl, tt)))),
  ),
)

check_is_ready-none_example : check_is_ready 1000 (Hanging.start garbage) ≡ none
check_is_ready-none_example =
    check_is_ready-none garbage (omega arith) garbage_first garbage_second garbage-IsPoor 1000

-- A stream of two packets of a set size, read in three portions, and then an error.
abbrev packet : ℕ → Bytes
packet n = 71 ∷ replicate 187 n

abbrev reader : Reader ℕ
reader = record {
  framing = record { buf = []; ts_packet_auto_size = true; ts_packet_size = 188 };
  position = record { ts_packet_offset = 0; ts_packet_count = 0; discont_segment = 1 };
  last_pcr = none;
}

abbrev value_of : Clock → ℕ
value_of c = c.value

abbrev plus_one : ℕ → ℕ
plus_one n = n + 1

abbrev packets : List Bytes
packets = packet 1 ∷ packet 2 ∷ []

abbrev answers : List ReadResult
answers = up_to 100 ∷ up_to 100 ∷ up_to 300 ∷ failed ∷ []

abbrev input : Bytes
input = packet 1 ++ packet 2

read_data-HandsOn_example :
    HandsOn value_of leb plus_one 188 packets []
      (read_data value_of leb plus_one 3 answers input reader)
read_data-HandsOn_example =
    read_data-HandsOn value_of leb plus_one 188 (omega arith) [] (omega arith) 0 answers packets
      input reader ((refl, refl), ((refl, refl), tt))
      (record { is_set = refl; is_short = omega arith; stream = refl })
