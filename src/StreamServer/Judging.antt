-- ===== src/StreamServer/Judging.antt =====
-- streamserver-cvn-cli/streamserver.cpp: what becomes of the packet size and of the count of errors with
-- the packet at the front of the input, and of the packet itself.
use streamserver_cvn.Prelude.{
  ℕ, ◌+◌, ◌≤◌, ◌<◌, ◌≡◌, refl, inl, inr, ◌⊎◌, Bool, true, false, ◌&&◌, Option, none, some, arith,
  leb, leb→le, ◌==◌, if◌then◌else◌, length, take, drop, Bytes, Bool-cases,
}
use streamserver_cvn.TsPacket.{Clock, PacketError, TsPacket}
use streamserver_cvn.TsPacket.Packet.{packet_of}
use streamserver_cvn.StreamServer.{Fatal, portion, Resynced, ended, stopped, resync}
use streamserver_cvn.StreamServer.Input.{StreamServer, Judged, goes_on, ends, after_errors, judge}
use streamserver_cvn.StreamServer.Received.{IsPacketSize, IsSizeless}
use streamserver_cvn.StreamServer.Sent.{IsSent}

nonzero : (n : ℕ) → (n == 0) ≡ false → 0 < n
nonzero n h = ground arith

module _ {T : Type 0} where
  -- The size and the count behind a packet without error, or with one, and what is left to read.
  abbrev pub IsCounted :
      Option PacketError → ℕ → Bytes → StreamServer T → StreamServer T → Bytes → Type 0
  IsCounted none n input s t left =
      (t.ts_packet_size ≡ n) × (t.input_consecutive_error_count ≡ 0) × (left ≡ drop n input)
  IsCounted (some e) n input s t left =
      ((t.ts_packet_size ≡ s.ts_packet_size)
        × (t.input_consecutive_error_count ≡ s.input_consecutive_error_count + 1)
        × (left ≡ drop n input))
      ⊎ ((s.ts_packet_autosize ≡ true)
          × (16 ≤ s.input_consecutive_error_count + 1)
          × (t.ts_packet_size ≡ 0)
          × (t.input_consecutive_error_count ≡ 0))

  -- The sixteenth error in a row, with a packet size that does not lead to a sync byte either.
  abbrev pub IsLost : Option PacketError → ℕ → Bytes → StreamServer T → Fatal → Type 0
  IsLost none n input s e = ⊥
  IsLost (some x) n input s e =
      (s.ts_packet_autosize ≡ true)
      × (16 ≤ s.input_consecutive_error_count + 1)
      × (0 < s.ts_packet_size)
      × (resync (take n input) (drop n input) ≡ ended e)

  -- Why the program ends with an input: it has no packet size, or has lost the packets.
  abbrev pub Fails : StreamServer T → Bytes → Fatal → Type 0
  Fails s input e =
      IsSizeless s.ts_packet_size s.ts_packet_autosize input
      ⊎ ((n : ℕ) × IsPacketSize s.ts_packet_size s.ts_packet_autosize input n
          × (n ≤ length input)
          × IsLost (packet_of (take n input)).error_message n input s e)

  module _ (to_secs : Clock → T) (lt : T → T → Bool) (plus_one : T → T) where
    -- What is sent of an input, and the server behind it: nothing, if the input is shorter than a packet,
    -- and otherwise what is to be sent for the packet that its first bytes are.
    pub data IsReceived (s : StreamServer T) (input : Bytes) (t : StreamServer T) (left : Bytes)
        : Option TsPacket → Type 0 where
      too_short :
          {n : ℕ}
          → IsPacketSize s.ts_packet_size s.ts_packet_autosize input n
          → length input < n
          → t.ts_packet_size ≡ s.ts_packet_size
          → t.last_packet_time ≡ s.last_packet_time
          → IsReceived s input t left none
      received :
          {n : ℕ} {sent : Option TsPacket}
          → IsPacketSize s.ts_packet_size s.ts_packet_autosize input n
          → n ≤ length input
          → IsCounted (packet_of (take n input)).error_message n input s t left
          → IsSent to_secs lt plus_one s.last_packet_time
              (packet_of (take n input))
              sent
              t.last_packet_time
          → IsReceived s input t left sent

    module _ (number : ℕ → Bytes) where
      abbrev pub JudgedAs :
          Option PacketError
          → ℕ
          → Bytes
          → StreamServer T
          → Judged to_secs lt plus_one number
          → Type 0
      JudgedAs error n input s (goes_on t left) =
          IsCounted error n input s t left × (t.last_packet_time ≡ s.last_packet_time)
      JudgedAs error n input s (ends e) = IsLost error n input s e

      abbrev pub is_success : Option PacketError → Bool
      is_success none = true
      is_success (some e) = false

      kept_size :
          (size n : ℕ) (autosize : Bool) (input : Bytes)
          → IsPacketSize size autosize input n
          → (if size == 0 then n else size) ≡ n
      kept_size size n autosize input (inl (some_size, e)) = ground arith
      kept_size size n autosize input (inr (e, a, d)) = rw e refl

      abbrev counted : StreamServer T → StreamServer T
      counted s = record s { input_consecutive_error_count = s.input_consecutive_error_count + 1 }

      lost-JudgedAs :
          (x : PacketError) (n : ℕ) (input : Bytes) (s : StreamServer T)
          → s.ts_packet_autosize ≡ true
          → 16 ≤ s.input_consecutive_error_count + 1
          → JudgedAs
              (some x)
              n
              input
              s
              (after_errors to_secs lt plus_one number (take n input) (drop n input) (counted s))
      unfolding after_errors
      lost-JudgedAs x n input s auto many = elim (Bool-cases (s.ts_packet_size == 0)) [
        | inl q ↦ rw (q, after_errors) (inr (auto, many, refl, refl), refl)
        | inr q ↦
            rw (q, after_errors)
              (resynced (nonzero s.ts_packet_size q) (resync (take n input) (drop n input)) refl)
      ]
        where
          resynced :
              0 < s.ts_packet_size
              → (y : Resynced) → resync (take n input) (drop n input) ≡ y
              → JudgedAs (some x) n input s (elim y [
                | ended e ↦ ends e
                | stopped bytes left ↦
                    goes_on
                      (record s { input_consecutive_error_count = 0; ts_packet_size = 0 })
                      left
              ])
          resynced z (ended e) f = (auto, many, z, f)
          resynced z (stopped bytes left) f = (inr (auto, many, refl, refl), refl)

      pub judge-JudgedAs :
          (error : Option PacketError) (n : ℕ) (input : Bytes) (s : StreamServer T)
          → IsPacketSize s.ts_packet_size s.ts_packet_autosize input n
          → JudgedAs error n input s
              (judge to_secs lt plus_one number (is_success error) (portion n input) s)
      unfolding judge
      judge-JudgedAs none n input s h =
          ((kept_size s.ts_packet_size n s.ts_packet_autosize input h, refl, refl), refl)
      judge-JudgedAs (some x) n input s h =
          elim (Bool-cases (leb 16 (s.input_consecutive_error_count + 1) && s.ts_packet_autosize)) [
            | inl q ↦
                let (many, auto) =
                  both (leb 16 (s.input_consecutive_error_count + 1)) s.ts_packet_autosize q in
                rw (q, judge)
                  (lost-JudgedAs x n input s auto
                    (leb→le 16 (s.input_consecutive_error_count + 1) many))
            | inr q ↦ rw (q, judge) (inl (refl, refl, refl), refl)
          ]
        where
          both : (a b : Bool) → (a && b) ≡ true → (a ≡ true) × (b ≡ true)
          both true b h = (refl, h)
          both false b h = cc
