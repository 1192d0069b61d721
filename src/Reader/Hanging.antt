-- ===== src/Reader/Hanging.antt =====
-- libmedia/tsreader.cpp: a resync that removes no byte is tried again and again.
use streamserver_cvn.Prelude.{
  ℕ, zero, suc, ◌*◌, ◌≤◌, ◌<◌, ◌≡◌, refl, inl, inr, true, false, [], ◌∷◌, List, none, some, arith,
  ltb, leb, length, All, Bytes, le→leb, lt→leb_false, le→ltb_false, Bool-cases,
}
use streamserver_cvn.TsPacket.{sync_byte, length_basic}
use streamserver_cvn.Reader.{
  Framing, check_packets, Best, candidates, best_of, start_best, find_byte, find_byte_from, resync,
  resync_at, again, resync_round, Search, next, detect_round, round, rounds, check_is_ready,
  ts_packet_size_effective,
}

-- Less than half of the packets of this size in the buffer have a sync byte.
abbrev pub IsPoor : Bytes → ℕ × ℕ → Type 0
IsPoor buf c = 2 * (check_packets c.0 c.1 buf).sync_bytes < (check_packets c.0 c.1 buf).packets

abbrev pub IsSmall : ℕ × ℕ → Type 0
IsSmall c = c.0 ≤ 212

abbrev IsLow : Best → Type 0
IsLow b = (b.packet_size ≤ 212) × (2 * b.sync_bytes < b.packets)

best_of-IsLow :
    (buf : Bytes) (cs : List (ℕ × ℕ)) (b : Best)
    → All (IsPoor buf) cs
    → All IsSmall cs
    → IsLow b
    → IsLow (best_of buf cs b)
unfolding best_of
best_of-IsLow buf [] b poor small low = low
best_of-IsLow buf ((size, prefix) ∷ cs) b poor small low =
    let c = check_packets size prefix buf in
    let better : Best = record {
      packet_size = size;
      prefix_length = prefix;
      sync_bytes = c.sync_bytes;
      packets = c.packets;
    } in
    let on_better = best_of-IsLow buf cs better poor.1 small.1 (small.0, poor.0) in
    let on_old = best_of-IsLow buf cs b poor.1 small.1 low in
    elim (Bool-cases (ltb (b.sync_bytes * c.packets) (c.sync_bytes * b.packets))) [
      | inr e ↦ rw e on_old
      | inl e ↦ rw e (elim (Bool-cases (leb c.packets c.sync_bytes)) [
        | inl e' ↦ rw e' (small.0, poor.0)
        | inr e' ↦ rw e' on_better
      ])
    ]

module _ (buf : Bytes) where
  abbrev pub start : Framing
  start = record { buf = buf; ts_packet_auto_size = true; ts_packet_size = 0 }

  -- A search that looks for the packet size of the buffer.
  abbrev at_size : ℕ → ℕ → Search
  at_size size prefix = record {
    framing = start;
    buf_packet_size = size;
    buf_prefix_length = prefix;
  }

  module _ (enough : 16 * length_basic ≤ length buf) (first : find_byte sync_byte buf ≡ some 0)
      (second : find_byte_from sync_byte length_basic buf ≡ some 0)
      (poor : All (IsPoor buf) candidates) where
    resync_stays : resync buf ≡ again buf
    unfolding resync resync_at
    resync_stays = rw (first, resync) (rw second)

    round_goes_on :
        (size prefix : ℕ)
        → size ≤ 212
        → (t : Best) × (t.packet_size ≤ 212)
          × (round (at_size size prefix) ≡ next (at_size t.packet_size t.prefix_length))
    unfolding round detect_round resync_round
    round_goes_on size prefix h =
        let b = best_of buf candidates (start_best (at_size size prefix)) in
        let low =
          best_of-IsLow buf candidates (start_best (at_size size prefix)) poor (omega arith)
            (h, omega arith) in
        let long : leb size (length buf) ≡ true = le→leb _ _ (omega arith) in
        let many : ltb (length buf) (16 * length_basic) ≡ false = le→ltb_false _ _ enough in
        let bad : leb b.packets (2 * b.sync_bytes) ≡ false = lt→leb_false _ _ low.1 in
        (b, low.0, rw (long, many) (rw bad (rw (resync_stays, resync_round))))

    rounds-none : (fuel size prefix : ℕ) → size ≤ 212 → rounds fuel (at_size size prefix) ≡ none
    unfolding rounds
    rounds-none zero size prefix h = refl
    rounds-none (suc fuel) size prefix h =
        let (b, small, e) = round_goes_on size prefix h in
        rw (e, rounds) (rounds-none fuel b.packet_size b.prefix_length small)

    -- `checkIsReady` never returns where the packet size is to be detected in a buffer of at least 16
    -- packets whose first byte is a sync byte, the next one from byte 188 on is there, and each size
    -- that is looked at has less than half of the sync bytes it needs: no amount of rounds is
    -- enough.
    pub check_is_ready-none : (fuel : ℕ) → check_is_ready fuel start ≡ none
    unfolding check_is_ready ts_packet_size_effective
    check_is_ready-none fuel = rounds-none fuel 188 0 (omega arith)
