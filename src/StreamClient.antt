-- ===== src/StreamClient.antt =====
-- streamserver-cvn-cli/streamclient.cpp, in the version for packets of API version 1: what is sent to
-- one client. It is the object that makes the body of the client's response: an HTTP client whose
-- context is gone has no stream client.
pub mod Stream
use streamserver_cvn.Prelude.{
  ℕ, ◌+◌, Bool, true, false, not, ◌||◌, List, [], ◌∷◌, ◌++◌, Option, none, some, leb, if◌then◌else◌,
  length, Bytes,
}
use streamserver_cvn.Prelude.Outcome.{ok, err}
use streamserver_cvn.TsPacket.{TsPacket}
use streamserver_cvn.TsPacket.Packet.{to_basic_packet_bytes}
use streamserver_cvn.Http.Text.{ascii, lf, same}
use streamserver_cvn.Http.Response.{new_response, set_header}
use streamserver_cvn.Http.Server.{code_of, ok_200, not_found_404}
use streamserver_cvn.Http.Connection.{
  Context, Client, Body, WriteResult, set_response_error, send_data,
}

pub record StreamClient : Type 0 where
  pub forward_packets : Bool
  pub ts_strip_additional_info : Bool
  pub queue : List TsPacket

-- The constructor, and `setTSStripAdditionalInfo`.
abbrev pub new_stream_client : Bool → StreamClient
new_stream_client strip = record {
  forward_packets = false;
  ts_strip_additional_info = strip;
  queue = [];
}

abbrev pub bytes_of : Bool → TsPacket → Bytes
bytes_of strip p = if strip then to_basic_packet_bytes p else p.bytes

-- `while (!_queue.isEmpty())`: the packets that fit are appended to the buffer.
unfoldable pub fill_up : Bool → List TsPacket → Bytes → List TsPacket × Bytes
fill_up strip [] buf = ([], buf)
fill_up strip (p ∷ ps) buf =
    let bytes = bytes_of strip p in
    let rest = fill_up strip ps (buf ++ bytes) in
    if not (leb (length buf + length bytes) 1024) then (p ∷ ps, buf) else rest

-- `handleGenerateResponseBody`.
unfoldable pub handle_generate_response_body : Bytes → StreamClient → Body StreamClient
unfolding fill_up
handle_generate_response_body buf s =
    if not s.forward_packets
    then record { more = false; source = s; buf = buf }
    else (let filled = fill_up s.ts_strip_additional_info s.queue buf in
        record { more = true; source = record s { queue = filled.0 }; buf = filled.1 })

abbrev pub is_known : Bytes → Bool
is_known path =
    same path (ascii "/") || same path (ascii "/stream.m2ts") || same path (ascii "/live.m2ts")

-- The response of a request that is served; the constructor of a response does not throw for it.
unfoldable pub accepted : Context StreamClient → Context StreamClient
accepted c = elim (new_response (code_of ok_200) (ascii "OK") (ascii "HTTP/1.0")) [
  | err e r ↦ c
  | ok u r ↦ record c { response = some (set_header (ascii "Content-Type") (ascii "video/mp2t") r) }
]

abbrev pub forwarding : Context StreamClient → Context StreamClient
forwarding c = record c {
  is_generate_response_body = true;
  source = record c.source { forward_packets = true };
}

module _ (number : ℕ → Bytes) where
  -- `processRequest`.
  unfoldable pub process_request : Context StreamClient → Context StreamClient
  unfolding accepted
  process_request c =
      if not (is_known c.request.path)
      then (set_response_error number handle_generate_response_body not_found_404
          (ascii "Path not found." ++ lf ∷ []) c)
      else if same c.request.method (ascii "HEAD")
      then accepted c
      else forwarding (accepted c)

  abbrev pub with_queue : TsPacket → Context StreamClient → Context StreamClient
  with_queue p x = record x { source = record x.source { queue = x.source.queue ++ p ∷ [] } }

  -- `queuePacket`.
  unfoldable pub queue_packet :
      TsPacket → List WriteResult → Client StreamClient → Option (Client StreamClient)
  queue_packet p rs c = elim c.context [
    | none ↦ some c
    | some x ↦
        if not x.source.forward_packets
        then some c
        else (send_data number handle_generate_response_body rs
            (record c { context = some (with_queue p x) }))
  ]

  -- What happens to a client that a stream is forwarded to: a packet comes, or the socket has
  -- written some bytes. Left out of what the socket signals are `readyRead`, and `disconnected`,
  -- which destroys context and client and clears the queue.
  pub data Action : Type 0 where
    packet : TsPacket → List WriteResult → Action
    bytes_written : List WriteResult → Action

  unfoldable pub act : Action → Client StreamClient → Option (Client StreamClient)
  unfolding queue_packet
  act (packet p rs) c = queue_packet p rs c
  act (bytes_written rs) c = send_data number handle_generate_response_body rs c

  unfoldable pub act_all : List Action → Client StreamClient → Option (Client StreamClient)
  unfolding act
  act_all [] c = some c
  act_all (a ∷ as') c = elim (act a c) [ none ↦ none | some d ↦ act_all as' d ]
