-- ===== src/StreamClient/Stream.antt =====
-- streamserver-cvn-cli/streamclient.cpp: the stream that a client gets.
use streamserver_cvn.Prelude.{
  ℕ, ◌+◌, ◌≡◌, refl, sym, ap, ◌∙◌, inl, inr, Bool, true, not, List, [], ◌∷◌, ◌++◌, append_assoc,
  append-nil, none, some, leb, if◌then◌else◌, if_false, length, Bool-cases, Bytes,
}
use streamserver_cvn.TsPacket.{TsPacket}
use streamserver_cvn.Http.Response.{Response}
use streamserver_cvn.Http.Connection.{Context, Client, Body, WriteResult, header_bytes, send_data}
use streamserver_cvn.Http.Connection.Delivered.{IsStreaming, content, send_data_moves}
use streamserver_cvn.StreamClient.{
  StreamClient, bytes_of, fill_up, handle_generate_response_body, with_queue, queue_packet, Action,
  packet, bytes_written, act, act_all,
}

unfoldable pub stream : Bool → List TsPacket → Bytes
stream strip [] = []
stream strip (p ∷ ps) = bytes_of strip p ++ stream strip ps

fill_up-stream :
    (strip : Bool) (ps : List TsPacket) (buf : Bytes)
    → (fill_up strip ps buf).1 ++ stream strip (fill_up strip ps buf).0 ≡ buf ++ stream strip ps
unfolding fill_up stream
fill_up-stream strip [] buf = refl
fill_up-stream strip (p ∷ ps) buf =
    elim (Bool-cases (leb (length buf + length (bytes_of strip p)) 1024)) [
      | inl e ↦
          rw (e, fill_up)
            (fill_up-stream strip ps (buf ++ bytes_of strip p)
              ∙ append_assoc buf (bytes_of strip p) (stream strip ps))
      | inr e ↦ rw (e, fill_up)
    ]

abbrev pub pending : Bool → StreamClient → Bytes
pending strip s = stream strip s.queue

-- The settings of a client that a stream is forwarded to.
pub record Forwards (strip : Bool) (s : StreamClient) : Type 0 where
  pub forward_packets : s.forward_packets ≡ true
  pub ts_strip_additional_info : s.ts_strip_additional_info ≡ strip

stream-append :
    (strip : Bool) (ps qs : List TsPacket)
    → stream strip (ps ++ qs) ≡ stream strip ps ++ stream strip qs
unfolding stream
stream-append strip [] qs = refl
stream-append strip (p ∷ ps) qs =
    ap (λ z. bytes_of strip p ++ z) (stream-append strip ps qs)
    ∙ sym (append_assoc (bytes_of strip p) (stream strip ps) (stream strip qs))

abbrev generated : Bytes → StreamClient → Body StreamClient
generated buf s =
    let filled = fill_up s.ts_strip_additional_info s.queue buf in
    record { more = true; source = record s { queue = filled.0 }; buf = filled.1 }

handle_generate_response_body_lem :
    (buf : Bytes) (s : StreamClient)
    → s.forward_packets ≡ true
    → handle_generate_response_body buf s ≡ generated buf s
unfolding handle_generate_response_body
handle_generate_response_body_lem buf s f = if_false (not s.forward_packets) _ _ (ap not f)

handle_generate_response_body-stream :
    (strip : Bool) (buf : Bytes) (s : StreamClient)
    → Forwards strip s
    → let b = handle_generate_response_body buf s in
      (b.buf ++ pending strip b.source ≡ buf ++ pending strip s) × Forwards strip b.source
handle_generate_response_body-stream strip buf s f =
    rw (handle_generate_response_body_lem buf s f.forward_packets) (
      rw f.ts_strip_additional_info (fill_up-stream strip s.queue buf),
      record {
        forward_packets = f.forward_packets;
        ts_strip_additional_info = f.ts_strip_additional_info;
      },
    )

module _ (number : ℕ → Bytes) (strip : Bool) (r : Response) where
  -- A client that the stream is forwarded to, behind the response `r`.
  abbrev pub Streams : Client StreamClient → Type 0
  Streams = IsStreaming number handle_generate_response_body (pending strip) (Forwards strip) r

  -- What its socket has taken, and what is to follow.
  abbrev pub all_of : (c : Client StreamClient) → Streams c → Bytes
  all_of = content number handle_generate_response_body (pending strip) (Forwards strip) r

  abbrev pub queued : List (Action number) → List TsPacket
  queued [] = []
  queued (packet p rs ∷ as') = p ∷ queued as'
  queued (bytes_written rs ∷ as') = queued as'

  send_data_streams :
      (rs : List WriteResult) (c : Client StreamClient) (s : Streams c)
      → (d : Client StreamClient) × ((send_data number handle_generate_response_body rs c ≡ some d)
          × ((t : Streams d) × (all_of d t ≡ all_of c s)))
  send_data_streams =
      send_data_moves number handle_generate_response_body (pending strip) (Forwards strip)
        (handle_generate_response_body-stream strip) r

  -- The client when the packet is in the queue.
  abbrev pub with_packet :
      TsPacket → (c : Client StreamClient) → Context StreamClient → Client StreamClient
  with_packet p c x = record c { context = some (with_queue number p x) }

  queue_packet_lem :
      (p : TsPacket) (rs : List WriteResult) (c : Client StreamClient) (s : Streams c)
      → queue_packet number p rs c
        ≡ send_data number handle_generate_response_body rs (with_packet p c s.current)
  unfolding queue_packet
  queue_packet_lem p rs c s =
      ap
        (λ o. elim o [
          | none ↦ some c
          | some x ↦
              if not x.source.forward_packets
              then some c
              else send_data number handle_generate_response_body rs (with_packet p c x)
        ])
        s.has_context
      ∙ if_false (not s.current.source.forward_packets) _ _ (ap not s.is_fit.forward_packets)

  with_packet-stream :
      (p : TsPacket) (c : Client StreamClient) (s : Streams c)
      → (t : Streams (with_packet p c s.current)) × (all_of (with_packet p c s.current) t
          ≡ all_of c s ++ stream strip (p ∷ []))
  with_packet-stream p c s = (
    record {
      current = with_queue number p s.current;
      has_context = refl;
      has_response = s.has_response;
      generates = s.generates;
      is_fit = record {
        forward_packets = s.is_fit.forward_packets;
        ts_strip_additional_info = s.is_fit.ts_strip_additional_info;
      };
    },
    (let header = header_bytes number handle_generate_response_body r s.current in
        let old = stream strip s.current.source.queue in
        let new = stream strip (p ∷ []) in
        ap (λ z. c.sent ++ (c.send_buf ++ (header ++ z)))
          (stream-append strip s.current.source.queue (p ∷ []))
        ∙ simp (append_assoc c.sent, append_assoc c.send_buf, append_assoc header old new)),
  )

  pub queue_packet-stream :
      (p : TsPacket) (rs : List WriteResult) (c : Client StreamClient) (s : Streams c)
      → (d : Client StreamClient) × ((queue_packet number p rs c ≡ some d)
          × ((t : Streams d) × (all_of d t ≡ all_of c s ++ stream strip (p ∷ []))))
  queue_packet-stream p rs c s =
      let (s', added) = with_packet-stream p c s in
      let (d, (stops, (t, same))) = send_data_streams rs (with_packet p c s.current) s' in
      (d, (queue_packet_lem p rs c s ∙ stops, (t, same ∙ added)))

  act-stream :
      (a : Action number) (c : Client StreamClient) (s : Streams c)
      → (d : Client StreamClient) × ((act number a c ≡ some d)
          × ((t : Streams d) × (all_of d t ≡ all_of c s ++ stream strip (queued (a ∷ [])))))
  unfolding act stream
  act-stream (packet p rs) c s = queue_packet-stream p rs c s
  act-stream (bytes_written rs) c s =
      let (d, (stops, (t, same))) = send_data_streams rs c s in
      (d, (stops, (t, same ∙ sym (append-nil (all_of c s)))))

  queued_step :
      (a : Action number) (as' : List (Action number))
      → stream strip (queued (a ∷ as'))
        ≡ stream strip (queued (a ∷ [])) ++ stream strip (queued as')
  unfolding stream
  queued_step (packet p rs) as' =
      ap (λ z. z ++ stream strip (queued as')) (sym (append-nil (bytes_of strip p)))
  queued_step (bytes_written rs) as' = refl

  -- For a client that the stream is forwarded to: whatever packets come and whatever the socket
  -- takes of a write, or that it fails, in any order, each handler ends, and the bytes that the
  -- socket has taken followed by those that are still to be sent are those before, followed by the
  -- bytes of the packets that came, in their order: none is lost, sent twice or cut off. The client
  -- stays one that the stream is forwarded to.
  pub act_all-stream :
      (as' : List (Action number)) (c : Client StreamClient) (s : Streams c)
      → (d : Client StreamClient) × ((act_all number as' c ≡ some d)
          × ((t : Streams d) × (all_of d t ≡ all_of c s ++ stream strip (queued as'))))
  unfolding act_all stream
  act_all-stream [] c s = (c, (refl, (s, sym (append-nil (all_of c s)))))
  act_all-stream (a ∷ as') c s =
      let (d, (stops, (t, same))) = act-stream a c s in
      let (e, (stops', (u, same'))) = act_all-stream as' d t in
      (
        e,
        (
          rw (stops, act_all) stops',
          (
            u,
            same'
                ∙ ap (λ z. z ++ stream strip (queued as')) same
                ∙ append_assoc (all_of c s) (stream strip (queued (a ∷ [])))
                    (stream strip (queued as'))
                ∙ ap (λ z. all_of c s ++ z) (sym (queued_step a as')),
          ),
        ),
      )
