-- ===== src/StreamServer.antt =====
-- streamserver-cvn-cli/streamserver.cpp: how the server finds packets in its input. What can be read
-- without waiting is a sequence of bytes; a program that `qFatal` ends stops with a `Fatal`.
pub mod Input
pub mod Resync
pub mod Sizes
pub mod Received
pub mod Sent
pub mod Judging
pub mod Forwarding
pub mod Broadcast
use streamserver_cvn.Prelude.{
  ℕ, zero, suc, ◌+◌, ◌-◌, Bool, true, false, not, ◌&&◌, List, [], ◌∷◌, ◌++◌, Option, none, some,
  ltb, leb, ◌==◌, if◌then◌else◌, get_or, length, take, drop, Bytes,
}
use streamserver_cvn.TsPacket.{length_basic, sync_byte}
use streamserver_cvn.Reader.{find_byte}

pub data Fatal : Type 0 where
  no_packet_size no_sync_byte_in_next no_sync_byte : Fatal
  not_enough_data discarding_failed giving_up : Fatal

-- `length() > i && at(i) == syncByte`, and `startsWith(syncByte)` for 0.
abbrev pub sync_at : ℕ → Bytes → Bool
sync_at i bytes = ltb i (length bytes) && (get_or bytes i 0 == sync_byte)

-- A packet that is read with the size that it should have, and what can be read behind it.
pub record Portion : Type 0 where
  pub packet_bytes : Bytes
  pub read_size : ℕ
  pub rest : Bytes

pub data Detected : Type 0 where
  found : Portion → Detected
  fatal : Fatal → Detected

-- So many bytes more are read.
abbrev pub extend : ℕ → Portion → Portion
extend n r = record {
  packet_bytes = r.packet_bytes ++ take n r.rest;
  read_size = r.read_size + n;
  rest = drop n r.rest;
}

-- A packet that starts with a sync byte: what follows it tells of a suffix.
unfoldable pub detect_suffix : Portion → Detected
detect_suffix r =
    let next = take r.read_size r.rest in
    if sync_at 0 next
    then found r
    else if leb (length next) 20
    then found r
    else if sync_at 16 next
    then found (extend 16 r)
    else if sync_at 20 next
    then found (extend 20 r)
    else fatal no_sync_byte_in_next

unfoldable pub detect : Portion → Detected
unfolding detect_suffix
detect r =
    if sync_at 0 r.packet_bytes
    then detect_suffix r
    else if get_or r.packet_bytes 4 0 == sync_byte
    then found (extend 4 r)
    else fatal no_sync_byte

-- `read(readSize)`.
abbrev pub portion : ℕ → Bytes → Portion
portion size input = record {
  packet_bytes = take size input;
  read_size = size;
  rest = drop size input;
}

-- The part of `processInput` that reads, with the members for the packet size.
unfoldable pub read_packet : ℕ → Bool → Bytes → Detected
unfolding detect
read_packet zero autosize input =
    let r = portion length_basic input in
    if not autosize
    then fatal no_packet_size
    else if length r.packet_bytes == length_basic
    then detect r
    else found r
read_packet (suc size) autosize input = found (portion (suc size) input)

-- How the loop of a re-sync ends: with the bytes that it has got to, or the program's end.
pub data Resynced : Type 0 where
  stopped : Bytes → Bytes → Resynced
  ended : Fatal → Resynced

-- A pass of the loop that does not end it goes on with `again`.
unfoldable pub resync_pass : ℕ → Bytes → Bytes → (Bytes → Bytes → Resynced) → Resynced
resync_pass i packet_bytes rest again =
    let kept = drop i packet_bytes in
    let fill_up = length_basic - length kept in
    let filled = kept ++ take fill_up rest in
    let left = drop fill_up rest in
    let following = take 21 left in
    let later = again filled left in
    if ltb (length filled) length_basic
    then ended not_enough_data
    else if length following == 0
    then stopped filled left
    else if sync_at 0 following
    then stopped filled left
    else if sync_at 4 following
    then stopped filled left
    else if sync_at 16 following
    then (if length (take 16 left) == 16
        then stopped filled (drop 16 left)
        else ended discarding_failed)
    else if sync_at 20 following
    then (if length (take 16 left) == 20
        then stopped filled (drop 16 left)
        else ended discarding_failed)
    else later

-- The loop, with the passes that are left. It ends where there is no sync byte or the first byte is
-- one.
unfoldable pub resync_loop : ℕ → Bytes → Bytes → Resynced
unfolding resync_pass find_byte
resync_loop zero packet_bytes rest = stopped packet_bytes rest
resync_loop (suc passes) packet_bytes rest = elim (find_byte sync_byte packet_bytes) [
  | none ↦ stopped packet_bytes rest
  | some zero ↦ stopped packet_bytes rest
  | some (suc i) ↦ resync_pass (suc i) packet_bytes rest (resync_loop passes)
]

-- `lengthBasic + 20` passes at most.
unfoldable pub resync : Bytes → Bytes → Resynced
unfolding resync_loop
resync packet_bytes rest = elim (resync_loop 208 packet_bytes rest) [
  | ended e ↦ ended e
  | stopped bytes left ↦ if sync_at 0 bytes then stopped bytes left else ended giving_up
]
