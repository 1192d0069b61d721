-- ===== src/StreamServer/Input.antt =====
-- streamserver-cvn-cli/streamserver.cpp: what the server does with its input and its clients. A clock
-- value in seconds, which the source keeps in floating point, and its order are parameters. How long
-- the server sleeps to keep pace is left out.
use streamserver_cvn.Prelude.{
  ℕ, ◌+◌, Bool, true, false, not, ◌&&◌, ◌||◌, List, [], ◌∷◌, ◌++◌, Option, none, some, leb, ◌==◌,
  if◌then◌else◌, length, Bytes,
}
use streamserver_cvn.TsPacket.{Clock, AdaptationField, TsPacket, length_basic}
use streamserver_cvn.TsPacket.Parser.{set_discontinuity_indicator}
use streamserver_cvn.TsPacket.Packet.{packet_of, update_adaptation_field_bytes}
use streamserver_cvn.Http.Connection.{Client, WriteResult}
use streamserver_cvn.StreamClient.{StreamClient, new_stream_client, queue_packet}
use streamserver_cvn.StreamServer.{
  Fatal, Portion, Detected, found, fatal, read_packet, stopped, ended, resync,
}

-- A stream client by its number.
pub record Connected : Type 0 where
  pub id : ℕ
  pub client : Client StreamClient

-- `is_reopening` is the timer that calls `initInputSlot`.
pub record StreamServer (T : Type 0) : Type 0 where
  pub is_open : Bool
  pub is_reopening : Bool
  pub input_consecutive_error_count : ℕ
  pub ts_packet_size : ℕ
  pub ts_packet_autosize : Bool
  pub ts_strip_additional_info_default : Bool
  pub last_packet_time : T
  pub next_client_id : ℕ
  pub clients : List Connected

module _ {T : Type 0} where
  -- `setTSPacketSize`; `none` if it throws.
  unfoldable pub set_ts_packet_size : ℕ → StreamServer T → Option (StreamServer T)
  set_ts_packet_size size s =
      if leb length_basic size && leb size (length_basic + length_basic)
      then some (record s { ts_packet_size = size })
      else none

  -- `initInput` of a file that is closed and can be opened.
  unfoldable pub init_input : StreamServer T → StreamServer T
  init_input s = record s {
    is_open = true;
    is_reopening = false;
    ts_packet_size = if s.ts_packet_autosize then 0 else s.ts_packet_size;
  }

  -- `finalizeInput`, and the timer to open the input again.
  abbrev pub finalize_input : StreamServer T → StreamServer T
  finalize_input s = record s { is_open = false; is_reopening = true }

  -- `client`: what is made of a context is the client of an HTTP connection.
  unfoldable pub add_client : (StreamClient → Client StreamClient) → StreamServer T → StreamServer T
  add_client connect s = record s {
    clients =
        s.clients
        ++ record {
          id = s.next_client_id;
          client = connect (new_stream_client s.ts_strip_additional_info_default);
        }
          ∷ [];
    next_client_id = s.next_client_id + 1;
  }

-- `handleStreamClientDestroyed`: the first of the clients that it is.
unfoldable pub remove : ℕ → List Connected → List Connected
remove id [] = []
remove id (c ∷ cs) = if c.id == id then cs else c ∷ remove id cs

-- How `processInput` ends: it returns, the program ends, or a loop goes on for too long.
pub data Ended (T : Type 0) : Type 0 where
  returned : StreamServer T → Option TsPacket → Bytes → Ended T
  program_ends : Fatal → Ended T
  endless : Ended T

module _ {T : Type 0} (to_secs : Clock → T) (lt : T → T → Bool) (plus_one : T → T)
    (number : ℕ → Bytes) where
  -- The packet size after a packet that is without error, or has an error.
  abbrev pub after_success : ℕ → StreamServer T → StreamServer T
  after_success read_size s = record s {
    input_consecutive_error_count = 0;
    ts_packet_size = if s.ts_packet_size == 0 then read_size else s.ts_packet_size;
  }

  pub data Judged : Type 0 where
    goes_on : StreamServer T → Bytes → Judged
    ends : Fatal → Judged

  -- Sixteen errors in a row, with the size to be detected anew.
  unfoldable pub after_errors : Bytes → Bytes → StreamServer T → Judged
  after_errors packet_bytes rest s =
      let reset = record s { input_consecutive_error_count = 0; ts_packet_size = 0 } in
      if s.ts_packet_size == 0 then goes_on reset rest else elim (resync packet_bytes rest) [
        | ended e ↦ ends e
        | stopped bytes left ↦ goes_on reset left
      ]

  unfoldable pub judge : Bool → Portion → StreamServer T → Judged
  unfolding after_errors
  judge true r s = goes_on (after_success r.read_size s) r.rest
  judge false r s =
      let counted = record s {
        input_consecutive_error_count = s.input_consecutive_error_count + 1;
      } in
      if leb 16 counted.input_consecutive_error_count && s.ts_packet_autosize
      then after_errors r.packet_bytes r.rest counted
      else goes_on counted r.rest

  -- The clock reference of a packet.
  abbrev pub clock_of_field : AdaptationField → Option Clock
  clock_of_field f = if not f.pcr_flag then none else f.pcr

  abbrev pub is_jump : T → T → Bool
  is_jump last pcr = lt (plus_one last) pcr || lt pcr last

  -- The packet with the discontinuity indicator set; `none` if something throws.
  unfoldable pub marked : AdaptationField → TsPacket → Option TsPacket
  marked f p = elim (set_discontinuity_indicator true f) [
    | none ↦ none
    | some g ↦ update_adaptation_field_bytes (record p { adaptation_field = some g })
  ]

  -- The packet that is sent, if any, and the clock value that is remembered.
  unfoldable pub mark : TsPacket → T → Option TsPacket × T
  unfolding marked
  mark p last = elim p.adaptation_field [
    | none ↦ (some p, last)
    | some f ↦ elim (clock_of_field f) [
      | none ↦ (some p, last)
      | some c ↦
          if not (is_jump last (to_secs c))
          then (some p, to_secs c)
          else elim (set_discontinuity_indicator true f) [
            | none ↦ (none, last)
            | some g ↦ (marked f p, to_secs c)
          ]
    ]
  ]

  -- The loop over the clients. What the socket of a client answers is the environment's.
  unfoldable pub queue_all :
      (ℕ → List WriteResult) → TsPacket → List Connected → Option (List Connected)
  queue_all answers p [] = some []
  queue_all answers p (c ∷ cs) = elim (queue_packet number p (answers c.id) c.client) [
    | none ↦ none
    | some d ↦ elim (queue_all answers p cs) [
      | none ↦ none
      | some ds ↦ some (record { id = c.id; client = d } ∷ ds)
    ]
  ]

  unfoldable pub send_on :
      (ℕ → List WriteResult) → Option TsPacket → Bytes → StreamServer T → Ended T
  unfolding queue_all
  send_on answers none rest s = returned s none rest
  send_on answers (some p) rest s = elim (queue_all answers p s.clients) [
    | none ↦ endless
    | some cs ↦ returned (record s { clients = cs }) (some p) rest
  ]

  -- From the packet's parsing on.
  unfoldable pub process_packet : (ℕ → List WriteResult) → Portion → StreamServer T → Ended T
  unfolding judge mark send_on
  process_packet answers r s =
      let p = packet_of r.packet_bytes in
      elim (judge (elim p.error_message [ none ↦ true | some e ↦ false ]) r s) [
        | ends e ↦ program_ends e
        | goes_on t left ↦
            let (sent, last) = mark p t.last_packet_time in
            send_on answers sent left (record t { last_packet_time = last })
      ]

  -- From the test for the end of the input on.
  unfoldable pub process_detected : (ℕ → List WriteResult) → StreamServer T → Detected → Ended T
  unfolding process_packet
  process_detected answers s (fatal e) = program_ends e
  process_detected answers s (found r) =
      if length r.packet_bytes == 0
      then returned (finalize_input s) none r.rest
      else if not (length r.packet_bytes == r.read_size)
      then returned s none r.rest
      else process_packet answers r s

  -- `processInput`, with what can be read without waiting.
  unfoldable pub process_input : (ℕ → List WriteResult) → Bytes → StreamServer T → Ended T
  unfolding process_detected read_packet
  process_input answers input s =
      process_detected answers s (read_packet s.ts_packet_size s.ts_packet_autosize input)
