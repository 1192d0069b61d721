-- ===== src/StreamServer/Broadcast.antt =====
-- streamserver-cvn-cli/streamserver.cpp: what a portion of the input does to the clients.
use streamserver_cvn.Prelude.{
  ℕ, ◌≤◌, take, length-take, arith, ◌≡◌, refl, sym, subst, inl, inr, Bool, List, [], Option, none,
  some, ◌==◌, length, Bytes, All, Bool-cases,
}
use streamserver_cvn.TsPacket.{Clock, TsPacket, PacketError}
use streamserver_cvn.TsPacket.Packet.{packet_of}
use streamserver_cvn.TsPacket.Placed.{packet_of-HasView}
use streamserver_cvn.Http.Connection.{WriteResult}
use streamserver_cvn.StreamServer.{Detected, found, fatal, portion, read_packet}
use streamserver_cvn.StreamServer.Input.{
  Connected, StreamServer, Ended, returned, program_ends, endless, Judged, goes_on, ends, judge,
  mark, queue_all, send_on, process_packet, process_detected, process_input,
}
use streamserver_cvn.StreamServer.Forwarding.{
  Both, packets_of, IsServed, Gets, Both-nothing, queue_all-Gets,
}
use streamserver_cvn.StreamServer.Sizes.{
  IsSize, SizedIn, read_packet-SizedIn, IsServer, JudgedWell, judge-JudgedWell,
}
use streamserver_cvn.StreamServer.Received.{
  IsPacketSize, FoundIn, read_packet-FoundIn, ==_true→≡, ==_false→≢,
}
use streamserver_cvn.StreamServer.Sent.{IsSent, mark-IsSent}
use streamserver_cvn.StreamServer.Judging.{
  Fails, IsCounted, IsReceived, too_short, received, JudgedAs, judge-JudgedAs, is_success,
}

module _ (number : ℕ → Bytes) {T : Type 0} (to_secs : Clock → T) (lt : T → T → Bool)
    (plus_one : T → T) where
  -- The server goes on as one, and its clients have got the packet that was sent, if any, which is
  -- the one for the input; or the program ends for a reason.
  abbrev pub Broadcasts : StreamServer T → Bytes → Ended T → Type 0
  Broadcasts s input (returned t sent rest) =
      IsServer t
      × Both (Gets number (packets_of sent)) s.clients t.clients
      × IsReceived to_secs lt plus_one s input t rest sent
  Broadcasts s input (program_ends e) = Fails s input e
  Broadcasts s input endless = ⊥

  module _ (s : StreamServer T) (input : Bytes) where
    IsCounted-time :
        (error : Option PacketError) (n : ℕ) (t : StreamServer T) (left : Bytes) (last : T)
        → IsCounted error n input s t left
        → IsCounted error n input s (record t { last_packet_time = last }) left
    IsCounted-time none n t left last h = h
    IsCounted-time (some e) n t left last h = h

    IsCounted-clients :
        (error : Option PacketError) (n : ℕ) (t : StreamServer T) (left : Bytes)
        (cs : List Connected)
        → IsCounted error n input s t left
        → IsCounted error n input s (record t { clients = cs }) left
    IsCounted-clients none n t left cs h = h
    IsCounted-clients (some e) n t left cs h = h

    IsReceived-clients :
        (t : StreamServer T) (left : Bytes) (sent : Option TsPacket) (cs : List Connected)
        → IsReceived to_secs lt plus_one s input t left sent
        → IsReceived to_secs lt plus_one s input (record t { clients = cs }) left sent
    IsReceived-clients t left sent cs (too_short size short same time) =
        too_short size short same time
    IsReceived-clients t left sent cs (received {n} size fits counts sends) =
        received size fits
          (IsCounted-clients (packet_of (take n input)).error_message n t left cs counts) sends

    module _ (answers : ℕ → List WriteResult) (served : All (IsServed number) s.clients) where
      send_on-Broadcasts :
          (sent : Option TsPacket) (t : StreamServer T) (rest : Bytes)
          → IsServer t
          → t.clients ≡ s.clients
          → IsReceived to_secs lt plus_one s input t rest sent
          → Broadcasts s input (send_on to_secs lt plus_one number answers sent rest t)
      unfolding send_on
      send_on-Broadcasts none t rest h same of_input = (
        h,
        subst (Both (Gets number []) s.clients) (sym same) (Both-nothing number s.clients served),
        of_input,
      )
      send_on-Broadcasts (some p) t rest h same of_input =
          let (ds, (stops, both)) =
            queue_all-Gets number to_secs lt plus_one answers p s.clients served in
          let all_stop =
            subst (λ cs. queue_all to_secs lt plus_one number answers p cs ≡ some ds) (sym same)
              stops in
          rw (all_stop, send_on)
            (
              record { size = h.size; errors = h.errors },
              both,
              IsReceived-clients t rest (some p) ds of_input,
            )

      -- What is done with a packet that starts the input.
      module _ (n : ℕ) (size : IsPacketSize s.ts_packet_size s.ts_packet_autosize input n)
          (fits : n ≤ length input) where
        abbrev read : TsPacket
        read = packet_of (take n input)

        judged-Broadcasts :
            (x : Judged to_secs lt plus_one number)
            → JudgedWell to_secs lt plus_one number s x
            → JudgedAs to_secs lt plus_one number read.error_message n input s x
            → Broadcasts s input (elim x [
              | ends e ↦ program_ends e
              | goes_on t left ↦
                  let (sent, last) = mark to_secs lt plus_one number read t.last_packet_time in
                  send_on to_secs lt plus_one number answers sent left
                    (record t { last_packet_time = last })
            ])
        judged-Broadcasts (ends e) well lost = inr (n, size, fits, lost)
        judged-Broadcasts (goes_on t left) (h, same) (counts, time) =
            let (sent, last) = mark to_secs lt plus_one number read t.last_packet_time in
            let sends : IsSent to_secs lt plus_one s.last_packet_time read sent last =
              subst (λ l. IsSent to_secs lt plus_one l read sent last) time
                (mark-IsSent to_secs lt plus_one number read t.last_packet_time
                  (packet_of-HasView (take n input))) in
            send_on-Broadcasts sent (record t { last_packet_time = last }) left
              (record { size = h.size; errors = h.errors }) same
              (received size fits (IsCounted-time read.error_message n t left last counts) sends)

        process_packet-Broadcasts :
            IsServer s
            → IsSize n
            → Broadcasts s input
                (process_packet to_secs lt plus_one number answers (portion n input) s)
        unfolding process_packet
        process_packet-Broadcasts h sized =
            let success = is_success to_secs lt plus_one number read.error_message in
            judged-Broadcasts (judge to_secs lt plus_one number success (portion n input) s)
              (judge-JudgedWell to_secs lt plus_one number success (portion n input) s h sized)
              (judge-JudgedAs to_secs lt plus_one number read.error_message n input s size)

      detected-Broadcasts :
          (x : Detected)
          → IsServer s
          → SizedIn x
          → FoundIn s.ts_packet_size s.ts_packet_autosize input x
          → Broadcasts s input (process_detected to_secs lt plus_one number answers s x)
      unfolding process_detected
      detected-Broadcasts (fatal e) h sized sizeless = inl sizeless
      detected-Broadcasts (found r) h sized (size, e) =
          subst
            (λ r.
              Broadcasts s input (process_detected to_secs lt plus_one number answers s (found r)))
            (sym e) (portion-Broadcasts r.read_size size sized)
        where
          portion-Broadcasts :
              (n : ℕ)
              → IsPacketSize s.ts_packet_size s.ts_packet_autosize input n
              → IsSize n
              → Broadcasts s input
                  (process_detected to_secs lt plus_one number answers s (found (portion n input)))
          portion-Broadcasts n size sized = elim (Bool-cases (length (take n input) == 0)) [
            | inl q ↦
                let none_left = ==_true→≡ (length (take n input)) 0 q in
                rw (q, process_detected)
                  (
                    record { size = h.size; errors = h.errors },
                    Both-nothing number s.clients served,
                    too_short size (omega (arith, none_left, length-take n input)) refl refl,
                  )
            | inr q ↦
                rw (q, process_detected)
                  (elim (Bool-cases (length (take n input) == n)) [
                    | inl u ↦
                        let all_of = ==_true→≡ (length (take n input)) n u in
                        rw u (
                          process_packet-Broadcasts n size
                            (omega (arith, all_of, length-take n input)) h sized)
                    | inr u ↦
                        let part_of = ==_false→≢ (length (take n input)) n u in
                        rw u (
                          h,
                          Both-nothing number s.clients served,
                          too_short size (omega (arith, part_of, length-take n input)) refl refl,
                        )
                  ])
          ]

  -- When the input can be read, for a server whose packet size is to be detected or one that can be
  -- set, which has counted less than 16 errors in a row where it detects the size, and whose
  -- clients all get the stream. No loop is endless, and the program ends only if no packet size is
  -- set and none is to be or can be detected, or if a re-sync at the sixteenth error in a row fails.
  -- Otherwise the server is such a server again. The packet size is the one that is set or the one
  -- that the places of the sync bytes tell of. From input that is shorter nothing is sent. From any
  -- other every client gets one packet behind the stream that it had, whatever its socket takes: the
  -- one that the first bytes of the input are, as it is where it has no clock reference or one that
  -- follows the last within a second, and with the discontinuity indicator set in its bytes and
  -- fields where its clock jumps. Behind a packet without error its size is the packet size and no
  -- errors are counted; an error is counted, or the sixteenth has the size detected anew.
  pub process_input-Broadcasts :
      (answers : ℕ → List WriteResult) (input : Bytes) (s : StreamServer T)
      → IsServer s
      → All (IsServed number) s.clients
      → Broadcasts s input (process_input to_secs lt plus_one number answers input s)
  unfolding process_input
  process_input-Broadcasts answers input s h served =
      detected-Broadcasts s input answers served
        (read_packet s.ts_packet_size s.ts_packet_autosize input) h
        (read_packet-SizedIn s.ts_packet_size s.ts_packet_autosize input h.size)
        (read_packet-FoundIn s.ts_packet_size s.ts_packet_autosize input)
