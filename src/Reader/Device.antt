-- ===== src/Reader/Device.antt =====
-- libmedia/tsreader.cpp: `drainBuffer` and `readData`. The device has a sequence of bytes left and
-- answers each `read`; a clock value in seconds, which the source keeps in floating point, and its
-- comparison are parameters. The signals that are emitted are a list, in their order.
use streamserver_cvn.Prelude.{
  ℕ, zero, suc, ◌+◌, ◌-◌, ◌*◌, ◌/◌, Bool, true, false, not, ◌&&◌, List, [], ◌∷◌, ◌++◌, Option, none,
  some, ltb, ◌==◌, if◌then◌else◌, length, take, drop, Bytes,
}
use streamserver_cvn.TsPacket.{Clock, ValidityType, TsPacket}
use streamserver_cvn.TsPacket.Packet.{packet_of, has_field}
use streamserver_cvn.Reader.{Framing, ts_packet_size_effective, answer, exception, check_is_ready}

pub data ErrorKind : Type 0 where
  unknown io ts : ErrorKind

-- What a handler can read off the reader while it handles a packet.
pub record Position : Type 0 where
  pub ts_packet_offset : ℕ
  pub ts_packet_count : ℕ
  pub discont_segment : ℕ

pub data Event (T : Type 0) : Type 0 where
  ts_packet_ready : Position → TsPacket → Event T
  discont_encountered : Position → Option T → Event T
  error_encountered : ErrorKind → Event T
  eof_encountered : Event T

-- `last_pcr` is `none` where the last clock value is not valid.
pub record Reader (T : Type 0) : Type 0 where
  pub framing : Framing
  pub position : Position
  pub last_pcr : Option T

abbrev pub reached_field : ValidityType → Bool
reached_field ValidityType.valid_adaptation_field = true
reached_field ValidityType.valid_payload_data = true
reached_field _ = false

-- The clock reference of a packet, where all tests up to it pass.
unfoldable pub clock_in : TsPacket → Option Clock
clock_in p =
    if not (reached_field p.validity)
    then none
    else if not (has_field p)
    then none
    else elim p.adaptation_field [
      | none ↦ none
      | some f ↦ if not (f.flags_valid && f.pcr_flag) then none else f.pcr
    ]

-- What a `read` does: it fails, or hands over at most so many of the bytes that are left.
pub data ReadResult : Type 0 where
  failed : ReadResult
  up_to : ℕ → ReadResult

-- Why `readData` returned; `unanswered` if there are no more results, `endless` if the fuel of
-- `checkIsReady` ran out.
pub data End : Type 0 where
  io_error end_of_file short_read thrown unanswered endless : End

pub record Run (T : Type 0) : Type 0 where
  pub end : End
  pub reader : Reader T
  pub rest : Bytes
  pub events : List (Event T)

pub record Drained (T : Type 0) : Type 0 where
  pub drained : Bool
  pub reader : Reader T
  pub events : List (Event T)

abbrev pub prepend : {T : Type 0} → List (Event T) → Run T → Run T
prepend events r = record r { events = events ++ r.events }

abbrev pub with_framing : {T : Type 0} → Framing → Reader T → Reader T
with_framing f r = record r { framing = f }

abbrev pub buffer : {T : Type 0} → Reader T → Bytes
buffer r = r.framing.buf

abbrev pub with_buffer : {T : Type 0} → Bytes → Reader T → Reader T
with_buffer b r = record r { framing = record r.framing { buf = b } }

-- `if (!success) emit ...`.
abbrev pub error_event : {T : Type 0} → TsPacket → List (Event T)
error_event p = elim p.error_message [ none ↦ [] | some e ↦ error_encountered ts ∷ [] ]

-- The length that the buffer is filled up to: the next full packet.
abbrev pub target : {T : Type 0} → Reader T → ℕ
target r = let size = ts_packet_size_effective r.framing in (length (buffer r) / size + 1) * size

module _ {T : Type 0} (to_secs : Clock → T) (le : T → T → Bool) (plus_one : T → T) where
  -- `checkIsDiscontinuity`; the new clock value is remembered.
  unfoldable pub check_is_discontinuity : TsPacket → Option T → Bool × Option T
  unfolding clock_in
  check_is_discontinuity p last = elim (clock_in p) [
    | none ↦ (false, last)
    | some c ↦
        let pcr = to_secs c in
        elim last [
          | none ↦ (false, some pcr)
          | some l ↦ (not (le l pcr && le pcr (plus_one l)), some pcr)
        ]
  ]

  -- From the count of the packet on: `bytes` has been taken off the buffer.
  unfoldable pub hand_on : Bytes → Reader T → Drained T
  unfolding check_is_discontinuity
  hand_on bytes r =
      let p = packet_of bytes in
      let (discont, last) = check_is_discontinuity p r.last_pcr in
      let counted = record r.position { ts_packet_count = r.position.ts_packet_count + 1 } in
      let position =
        if discont
        then record counted { discont_segment = counted.discont_segment + 1 }
        else counted in
      record {
        drained = true;
        reader = record r {
          position = record position {
            ts_packet_offset = position.ts_packet_offset + length bytes;
          };
          last_pcr = last;
        };
        events =
            (if discont then discont_encountered position r.last_pcr ∷ [] else [])
            ++ (error_event p ++ ts_packet_ready position p ∷ []);
      }

  -- `drainBuffer`.
  unfoldable pub drain_buffer : Reader T → Drained T
  unfolding hand_on ts_packet_size_effective
  drain_buffer r =
      let packet_size = ts_packet_size_effective r.framing in
      if ltb (length (buffer r)) packet_size
      then record { drained = false; reader = r; events = [] }
      else hand_on (take packet_size (buffer r)) (with_buffer (drop packet_size (buffer r)) r)

  -- The inner loop of `readData`, and `go_on` behind it.
  unfoldable pub drain_loop : ℕ → (Reader T → Run T) → Bytes → Reader T → Run T
  unfolding drain_buffer
  drain_loop zero go_on rest r = record { end = endless; reader = r; rest = rest; events = [] }
  drain_loop (suc fuel) go_on rest r = elim (check_is_ready fuel r.framing) [
    | none ↦ record { end = endless; reader = r; rest = rest; events = [] }
    | some (exception e f) ↦ record {
      end = thrown;
      reader = with_framing f r;
      rest = rest;
      events = error_encountered unknown ∷ [];
    }
    | some (answer false f) ↦ go_on (with_framing f r)
    | some (answer true f) ↦
        let d = drain_buffer (with_framing f r) in
        let later = drain_loop fuel go_on rest d.reader in
        if d.drained then prepend d.events later else go_on d.reader
  ]

  -- `readData`, with the device's answers to its reads.
  unfoldable pub read_data : ℕ → List ReadResult → Bytes → Reader T → Run T
  unfolding drain_loop ts_packet_size_effective
  read_data fuel [] rest r = record { end = unanswered; reader = r; rest = rest; events = [] }
  read_data fuel (failed ∷ as') rest r = record {
    end = io_error;
    reader = r;
    rest = rest;
    events = error_encountered io ∷ [];
  }
  read_data fuel (up_to n ∷ as') rest r =
      let wanted = target r - length (buffer r) in
      let got = take n (take wanted rest) in
      let left = drop (length got) rest in
      let filled = with_buffer (buffer r ++ got) r in
      let full = drain_loop fuel (read_data fuel as' left) left filled in
      if length got == 0
      then record { end = end_of_file; reader = r; rest = rest; events = eof_encountered ∷ [] }
      else if ltb (length (buffer r) + length got) (target r)
      then record { end = short_read; reader = filled; rest = left; events = [] }
      else full
