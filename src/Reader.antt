-- ===== src/Reader.antt =====
-- libmedia/tsreader.cpp: the reader, with packets of API version 1. `Framing` has the members by which
-- `checkIsReady` finds packets in the buffer; -1 of `indexOf` is `none`.
pub mod Device
pub mod Hanging
pub mod Tallies
pub mod Numbering
pub mod Framed
pub mod Cutting
use streamserver_cvn.Prelude.{
  ℕ, zero, suc, ◌+◌, ◌-◌, ◌*◌, Bool, true, false, not, ◌||◌, List, [], ◌∷◌, ◌++◌, Option, none,
  some, ltb, leb, ◌==◌, if◌then◌else◌, get_or, length, drop, replicate, Bytes,
}
use streamserver_cvn.TsPacket.{length_basic, sync_byte}

pub record Framing : Type 0 where
  pub buf : Bytes
  pub ts_packet_auto_size : Bool
  pub ts_packet_size : ℕ

-- `tsPacketSizeEffective`.
unfoldable pub ts_packet_size_effective : Framing → ℕ
ts_packet_size_effective f =
    if leb length_basic f.ts_packet_size then f.ts_packet_size else length_basic

-- `setTSPacketSize`; `none` if it throws.
unfoldable pub set_ts_packet_size : ℕ → Framing → Option Framing
set_ts_packet_size size f =
    if leb length_basic size then some (record f { ts_packet_size = size }) else none

-- What the second `checkIsReady` stores and returns.
pub record Census : Type 0 where
  pub packets : ℕ
  pub sync_bytes : ℕ
  pub ready : Bool

abbrev pub one_if : Bool → ℕ
one_if true = 1
one_if false = 0

abbrev pub has_sync_byte : ℕ → Bytes → Bool
has_sync_byte prefix bytes = get_or bytes prefix 0 == sync_byte

-- The loop over the packets of the buffer; `bytes` is the buffer from `bufOffset` on, and the first
-- argument is fuel.
unfoldable pub count_packets : ℕ → ℕ → ℕ → Bytes → ℕ → ℕ → Census
count_packets zero size prefix bytes packets sync_bytes = record {
  packets = packets;
  sync_bytes = sync_bytes;
  ready = leb (packets * 60) (sync_bytes * 100);
}
count_packets (suc fuel) size prefix bytes packets sync_bytes =
    let rest =
      count_packets fuel size prefix (drop size bytes) (packets + 1)
        (sync_bytes + one_if (has_sync_byte prefix bytes)) in
    if leb size (length bytes) then rest else record {
      packets = packets;
      sync_bytes = sync_bytes;
      ready = leb (packets * 60) (sync_bytes * 100);
    }

-- `checkIsReady` with a packet size and a prefix length. A packet has at least one byte.
unfoldable pub check_packets : ℕ → ℕ → Bytes → Census
unfolding count_packets
check_packets size prefix buf =
    let has = has_sync_byte prefix buf in
    if length buf == size
    then record { packets = 1; sync_bytes = one_if has; ready = has }
    else count_packets (length buf) size prefix buf 0 0

-- The packet size and prefix length that are looked at, and the best score so far as a fraction.
pub record Best : Type 0 where
  pub packet_size : ℕ
  pub prefix_length : ℕ
  pub sync_bytes : ℕ
  pub packets : ℕ

-- Each test packet size with its test prefix length: the prefixes 0 and 4, for each of them the
-- suffixes 0, 16 and 20.
abbrev pub candidates : List (ℕ × ℕ)
candidates = (188, 0) ∷ (204, 0) ∷ (208, 0) ∷ (192, 4) ∷ (208, 4) ∷ (212, 4) ∷ []

-- The loops over the candidates; they stop at a score of 1.
unfoldable pub best_of : Bytes → List (ℕ × ℕ) → Best → Best
unfolding check_packets
best_of buf [] best = best
best_of buf ((size, prefix) ∷ cs) best =
    let c = check_packets size prefix buf in
    let better : Best = record {
      packet_size = size;
      prefix_length = prefix;
      sync_bytes = c.sync_bytes;
      packets = c.packets;
    } in
    let go_on_better = best_of buf cs better in
    let go_on = best_of buf cs best in
    if ltb (best.sync_bytes * c.packets) (c.sync_bytes * best.packets)
    then (if leb c.packets c.sync_bytes then better else go_on_better)
    else go_on

-- `indexOf` of a byte.
unfoldable pub find_byte : ℕ → Bytes → Option ℕ
find_byte c [] = none
find_byte c (b ∷ bs) =
    let later = find_byte c bs in
    if b == c then some 0 else elim later [ none ↦ none | some i ↦ some (suc i) ]

-- `indexOf` of a byte from a position on, as the distance from there.
abbrev pub find_byte_from : ℕ → ℕ → Bytes → Option ℕ
find_byte_from c from bytes = find_byte c (drop from bytes)

-- A resync lets the buffer be processed, or changes it for another round.
pub data Resync : Type 0 where
  process : Resync
  again : Bytes → Resync

-- The end of a round, with the positions of two sync bytes: the second is `past` bytes behind the
-- place where a basic packet would end that starts with the first.
unfoldable pub resync_at : ℕ → ℕ → Bytes → Resync
resync_at pos1 past buf =
    if past == 0
    then again (drop pos1 buf)
    else if past == 4
    then (if leb 4 pos1 then again (drop (pos1 - 4) buf) else again (replicate (4 - pos1) 0 ++ buf))
    else if past == 16 || past == 20
    then again (drop pos1 buf)
    else process

unfoldable pub resync : Bytes → Resync
unfolding resync_at
resync buf = elim (find_byte sync_byte buf) [
  | none ↦ process
  | some pos1 ↦ elim (find_byte_from sync_byte (pos1 + length_basic) buf) [
    | none ↦ process
    | some past ↦ resync_at pos1 past buf
  ]
]

-- The loop of `checkIsReady`: its two variables beside the members.
pub record Search : Type 0 where
  pub framing : Framing
  pub buf_packet_size : ℕ
  pub buf_prefix_length : ℕ

pub data Error : Type 0 where
  no_packet_size bad_prefix_length : Error

-- A round returns, throws, or goes on.
pub data Round : Type 0 where
  done : Bool → Framing → Round
  threw : Error → Framing → Round
  next : Search → Round

abbrev pub set_buf : Bytes → Search → Search
set_buf buf s = record s { framing = record s.framing { buf = buf } }

unfoldable pub resync_round : Search → Round
unfolding resync
resync_round s = elim (resync s.framing.buf) [
  | process ↦ done true s.framing
  | again buf ↦ next (set_buf buf s)
]

-- A packet size is found: it stays, also if its prefix cannot be parsed.
unfoldable pub accept_size : Search → Round
accept_size s =
    let f = record s.framing { ts_packet_size = s.buf_packet_size } in
    if s.buf_prefix_length == 0 || s.buf_packet_size == 4 + length_basic
    then done true f
    else threw bad_prefix_length f

abbrev pub start_best : Search → Best
start_best s = record {
  packet_size = s.buf_packet_size;
  prefix_length = s.buf_prefix_length;
  sync_bytes = 0;
  packets = 1;
}

-- The part of a round from the auto-detection on.
unfoldable pub detect_round : Search → Round
unfolding best_of accept_size resync_round
detect_round s =
    let best = best_of s.framing.buf candidates (start_best s) in
    let found = record s {
      buf_packet_size = best.packet_size;
      buf_prefix_length = best.prefix_length;
    } in
    if not (s.framing.ts_packet_size == 0)
    then resync_round s
    else if not s.framing.ts_packet_auto_size
    then threw no_packet_size s.framing
    else if ltb (length s.framing.buf) (16 * length_basic)
    then done false s.framing
    else if leb best.packets (2 * best.sync_bytes)
    then accept_size found
    else resync_round found

-- A round of the loop. More than 16 packets in the buffer are too many, whether they are ready or
-- not.
unfoldable pub round : Search → Round
unfolding check_packets detect_round
round s =
    let f = s.framing in
    let census = check_packets s.buf_packet_size s.buf_prefix_length f.buf in
    let reset = record s {
      framing = record f { ts_packet_size = if f.ts_packet_auto_size then 0 else f.ts_packet_size };
    } in
    if not (leb s.buf_packet_size (length f.buf))
    then done false f
    else if f.ts_packet_size == 0
    then detect_round s
    else if leb census.packets 16
    then done census.ready f
    else detect_round reset

-- How `checkIsReady` ends.
pub data Ready : Type 0 where
  answer : Bool → Framing → Ready
  exception : Error → Framing → Ready

-- The loop, with fuel: it need not end.
unfoldable pub rounds : ℕ → Search → Option Ready
unfolding round
rounds zero s = none
rounds (suc fuel) s = elim (round s) [
  | done b f ↦ some (answer b f)
  | threw e f ↦ some (exception e f)
  | next t ↦ rounds fuel t
]

abbrev pub prefix_of : ℕ → ℕ
prefix_of size = if size == 4 + length_basic then 4 else 0

unfoldable pub check_is_ready : ℕ → Framing → Option Ready
unfolding rounds ts_packet_size_effective
check_is_ready fuel f =
    let size = ts_packet_size_effective f in
    rounds fuel (record { framing = f; buf_packet_size = size; buf_prefix_length = prefix_of size })
