-- ===== src/Writer.antt =====
-- libmedia/tswriter.cpp: the queue of a writer of API version 1. What `QIODevice::write` returns is the
-- environment's: a run of `writeData` takes the results of its calls as a list.
use streamserver_cvn.Prelude.{
  ℕ, ◌+◌, ◌≤◌, ◌<◌, ◌≡◌, refl, sym, ap, ◌∙◌, inl, inr, Bool, true, false, not, ◌||◌, List, [], ◌∷◌,
  ◌++◌, append_assoc, append-nil, Option, none, some, arith, ◌==◌, if◌then◌else◌, length,
  length-append, length-drop, take, drop, take-append-drop, Bytes, Bool-cases, All,
}
use streamserver_cvn.TsPacket.{TsPacket, length_basic}
use streamserver_cvn.TsPacket.Packet.{to_basic_packet_bytes}

-- `sent` is what the device has taken, which the program does not keep; `notifier` is the write
-- notifier of a file, enabled or not.
pub record Writer : Type 0 where
  pub buf : Bytes
  pub notifier : Option Bool
  pub ts_strip_additional_info : Bool
  pub ts_packet_offset : ℕ
  pub ts_packet_count : ℕ
  pub sent : Bytes

abbrev pub set_enabled : Bool → Writer → Writer
set_enabled b w = record w { notifier = elim w.notifier [ none ↦ none | some old ↦ some b ] }

-- `queueBytes`; it returns the number of bytes.
unfoldable pub queue_bytes : Bytes → Writer → Writer
queue_bytes bytes w =
    set_enabled true
      (record w { buf = w.buf ++ bytes; ts_packet_offset = w.ts_packet_offset + length bytes })

-- `queueTSPacket` of a packet.
unfoldable pub queue_ts_packet : TsPacket → Writer → Writer
unfolding queue_bytes
queue_ts_packet p w =
    queue_bytes (if w.ts_strip_additional_info then to_basic_packet_bytes p else p.bytes)
      (record w { ts_packet_count = w.ts_packet_count + 1 })

-- `queueTSPacket` of a node: `formats` are the bytes that it has been made from or turned into.
-- Bytes that are there are queued as they are, unless additional information is to be stripped off
-- them. The result is the number of bytes.
unfoldable pub queue_node : List Bytes → TsPacket → Writer → Writer × ℕ
unfolding queue_bytes queue_ts_packet
queue_node [] p w = (
  queue_ts_packet p w,
  length (if w.ts_strip_additional_info then to_basic_packet_bytes p else p.bytes),
)
queue_node (b ∷ bs) p w =
    if not w.ts_strip_additional_info || (length b == length_basic)
    then (queue_bytes b (record w { ts_packet_count = w.ts_packet_count + 1 }), length b)
    else queue_node bs p w

-- The constructor, for a file.
abbrev pub new_writer : Writer
new_writer = record {
  buf = [];
  notifier = some true;
  ts_strip_additional_info = false;
  ts_packet_offset = 0;
  ts_packet_count = 0;
  sent = [];
}

-- A negative result, or the number of bytes that were written.
pub data WriteResult : Type 0 where
  error : WriteResult
  wrote : ℕ → WriteResult

-- How `writeData` ends: with the buffer empty, with the signal `errorEncountered`, or at a write of
-- nothing. `unanswered` is a run for which there are no more results.
pub data End : Type 0 where
  emptied error_encountered blocked unanswered : End

pub record Run : Type 0 where
  pub end : End
  pub writer : Writer

abbrev pub no_bytes : Bytes → Bool
no_bytes [] = true
no_bytes (c ∷ cs) = false

abbrev pub after_write : ℕ → Writer → Writer
after_write n w = record w { buf = drop n w.buf; sent = w.sent ++ take n w.buf }

-- `writeData`.
unfoldable pub write_data : List WriteResult → Writer → Run
write_data [] w =
    if no_bytes w.buf
    then record { end = emptied; writer = set_enabled false w }
    else record { end = unanswered; writer = w }
write_data (error ∷ rs) w =
    if no_bytes w.buf
    then record { end = emptied; writer = set_enabled false w }
    else record { end = error_encountered; writer = w }
write_data (wrote n ∷ rs) w =
    let rest = write_data rs (after_write n w) in
    if no_bytes w.buf
    then record { end = emptied; writer = set_enabled false w }
    else if n == 0
    then record { end = blocked; writer = w }
    else rest

-- Bytes are not lost: those sent and those waiting are those queued, and the offset counts them.
abbrev pub stream : Writer → Bytes
stream w = w.sent ++ w.buf

abbrev pub IsCounted : Writer → Type 0
IsCounted w = w.ts_packet_offset ≡ length (stream w)

-- Queuing puts the bytes behind all that was queued before, and keeps the offset right.
pub queue_bytes-stream :
    (bytes : Bytes) (w : Writer)
    → IsCounted w
    → (stream (queue_bytes bytes w) ≡ stream w ++ bytes) × IsCounted (queue_bytes bytes w)
unfolding queue_bytes
queue_bytes-stream bytes w c = (
  sym (append_assoc w.sent w.buf bytes),
  omega (
    arith,
    length-append w.sent (w.buf ++ bytes),
    length-append w.buf bytes,
    length-append w.sent w.buf,
  ),
)

stream-after_write : (n : ℕ) (w : Writer) → stream (after_write n w) ≡ stream w
stream-after_write n w =
    append_assoc w.sent (take n w.buf) (drop n w.buf) ∙ ap (w.sent ++◌) (take-append-drop n w.buf)

no_bytes-eq : (bytes : Bytes) → no_bytes bytes ≡ true → bytes ≡ []
no_bytes-eq [] e = refl
no_bytes-eq (c ∷ cs) e = absurd (cc)

all_sent : (w : Writer) → no_bytes w.buf ≡ true → w.sent ≡ stream w
all_sent w e = sym (append-nil w.sent) ∙ ap (w.sent ++◌) (sym (no_bytes-eq w.buf e))

-- Whatever the device answers, short writes and errors included, `writeData` keeps the order of the
-- bytes and loses none: what was sent and what waits are together what they were. If it ends because
-- the buffer is empty, all that was queued has been sent.
pub write_data-stream :
    (rs : List WriteResult) (w : Writer)
    → (stream (write_data rs w).writer ≡ stream w)
      × (((write_data rs w).end ≡ emptied) → ((write_data rs w).writer.sent ≡ stream w))
unfolding write_data
write_data-stream [] w = elim (Bool-cases (no_bytes w.buf)) [
  | inl e ↦ rw e (refl, λ h. all_sent w e)
  | inr e ↦ rw e (refl, λ h. absurd (cc))
]
write_data-stream (error ∷ rs) w = elim (Bool-cases (no_bytes w.buf)) [
  | inl e ↦ rw e (refl, λ h. all_sent w e)
  | inr e ↦ rw e (refl, λ h. absurd (cc))
]
write_data-stream (wrote n ∷ rs) w = elim (Bool-cases (no_bytes w.buf)) [
  | inl e ↦ rw e (refl, λ h. all_sent w e)
  | inr e ↦ elim (Bool-cases (n == 0)) [
    | inl z ↦ rw (e, z) (refl, λ h. absurd (cc))
    | inr z ↦
        let (same, all) = write_data-stream rs (after_write n w) in
        rw (e, z) (same ∙ stream-after_write n w, λ h. all h ∙ stream-after_write n w)
  ]
]

some_bytes : (bytes : Bytes) → no_bytes bytes ≡ false → 0 < length bytes
some_bytes [] e = absurd (cc)
some_bytes (c ∷ cs) e = omega arith

-- A device that always takes at least a byte.
abbrev pub IsProgress : WriteResult → Type 0
IsProgress error = ⊥
IsProgress (wrote n) = 0 < n

-- An end with the buffer empty.
abbrev pub IsEmptied : Bytes → Run → Type 0
IsEmptied bytes r = (r.end ≡ emptied) × ((r.writer.buf ≡ []) × (r.writer.sent ≡ bytes))

no_bytes-IsEmptied :
    (w : Writer)
    → no_bytes w.buf ≡ true
    → IsEmptied (stream w) (record { end = emptied; writer = set_enabled false w })
no_bytes-IsEmptied w e = (refl, (no_bytes-eq w.buf e, all_sent w e))

-- If the device takes at least a byte at each call, then as many calls as there are bytes in the
-- buffer empty it: `writeData` ends with an empty buffer, and all that was queued has been sent, in
-- its order.
pub write_data_empties :
    (rs : List WriteResult) (w : Writer)
    → All IsProgress rs
    → length w.buf ≤ length rs
    → IsEmptied (stream w) (write_data rs w)
unfolding write_data
write_data_empties [] w a l = elim (Bool-cases (no_bytes w.buf)) [
  | inl e ↦ rw e (no_bytes-IsEmptied w e)
  | inr e ↦ absurd (omega (arith, some_bytes w.buf e))
]
write_data_empties (error ∷ rs) w a l = absurd (a.0)
write_data_empties (wrote n ∷ rs) w a l = elim (Bool-cases (no_bytes w.buf)) [
  | inl e ↦ rw e (no_bytes-IsEmptied w e)
  | inr e ↦
      let more : (n == 0) ≡ false = ground (arith, a.0) in
      let (ends, (empty, sent)) =
        write_data_empties rs (after_write n w) a.1 (omega (arith, length-drop n w.buf, a.0)) in
      rw (e, more) (ends, (empty, sent ∙ stream-after_write n w))
]
