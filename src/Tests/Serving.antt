-- ===== src/Tests/Serving.antt =====
-- The HTTP server and a stream client on small requests.
use streamserver_cvn.Prelude.{
  ℕ, ◌≡◌, ◌↔◌, refl, inl, true, false, [], ◌∷◌, ◌++◌, List, none, some, Option, Bytes, ltb, ◌+◌,
  replicate, arith,
}
use streamserver_cvn.Prelude.Outcome.{err}
use streamserver_cvn.TsPacket.{TsPacket, empty_packet, Clock}
use streamserver_cvn.Http.Text.{ascii, cr, lf, to_lower, same, index_of, starts_with}
use streamserver_cvn.Http.WhiteSpace.{is_empty}
use streamserver_cvn.Http.Header.{Field}
use streamserver_cvn.Http.Request.{
  Request, no_separator_after_method, new_request, process_chunk, rounds, round_in,
  round_request_line, read_method,
}
use streamserver_cvn.Http.Response.{
  Response, new_response, set_header, set_http_version, set_status_code, set_status_msg, contains,
}
use streamserver_cvn.Http.Server.{Server, call, process_request}
use streamserver_cvn.Http.Server.Dispatch.{Serves, process_request-Serves}
use streamserver_cvn.Http.Connection.{
  Context, Client, WriteResult, failed, took, connected, aborted, receive_data, new_context,
}
use streamserver_cvn.Http.Connection.Silent.{Silent, receive_data-Silent}
use streamserver_cvn.StreamClient.{
  StreamClient, new_stream_client, accepted, forwarding, Action, packet, bytes_written, act_all,
  handle_generate_response_body,
}
use streamserver_cvn.StreamClient
use streamserver_cvn.StreamClient.Stream.{Streams, all_of, queued, stream, act_all-stream}
use streamserver_cvn.StreamServer.Input.{StreamServer, Connected, process_input}
use streamserver_cvn.StreamServer.Broadcast.{Broadcasts, process_input-Broadcasts}

-- A request for the host "a", on a server that lists it with its port.
abbrev server : Server
server = record { server_host_whitelist = ascii "A:80" ∷ []; default_handler = some 7 }

abbrev host : Field
host = record {
  bytes = [];
  field_name = ascii "Host";
  field_value_raw = ascii "a";
  field_value = ascii "a";
}

abbrev request : Request
request = record new_request {
  method = ascii "GET";
  path = ascii "/";
  http_version = ascii "HTTP/1.1";
  header = record { fields = host ∷ []; field_name_indices = (ascii "host", 0) ∷ [] };
}

process_request-Serves_example :
    (process_request to_lower to_lower server none request ≡ call 7)
    ↔ Serves to_lower to_lower server none request 7
process_request-Serves_example = process_request-Serves to_lower to_lower server none request 7

-- A request line without a path.
abbrev bad : Bytes
bad = ascii "GET" ++ cr ∷ lf ∷ []

abbrev at_bad : Request
at_bad = record new_request { byte_count = 5; buf = bad; request_line = ascii "GET" }

is_refused : process_chunk bad new_request ≡ some (err no_separator_after_method at_bad)
unfolding process_chunk rounds round_in round_request_line index_of starts_with is_empty read_method
is_refused = refl

abbrev number : ℕ → Bytes
number n = []

abbrev client : Client StreamClient
client = record {
  socket = connected;
  socket_bytes_received = 0;
  socket_bytes_sent = 0;
  is_receiving = true;
  is_buffer_send_done = false;
  send_buf = [];
  sent = [];
  context = none;
}

abbrev receive : List Bytes → List WriteResult → Client StreamClient → Option (Client StreamClient)
receive =
    receive_data number handle_generate_response_body (StreamClient.process_request number)
      (new_stream_client true)

receive_data-Silent_example :
    (d : Client StreamClient) × ((receive (bad ∷ []) (took 9 ∷ []) client ≡ some d)
      × Silent client d
      × (d.socket ≡ connected)
      × ((b : Bytes) (bs : List Bytes) (rs : List WriteResult)
          → is_empty b ≡ false
          → (e : Client StreamClient) × ((receive (b ∷ bs) rs d ≡ some e)
              × Silent client e
              × (e.socket ≡ aborted))))
unfolding is_empty
receive_data-Silent_example =
    receive_data-Silent number handle_generate_response_body (StreamClient.process_request number)
      (new_stream_client true) bad [] (took 9 ∷ []) client no_separator_after_method at_bad refl
      refl is_refused

-- What serving the request makes of a new context.
abbrev response : Response
response = record {
  http_version = ascii "HTTP/1.0";
  status_code = 200;
  status_msg = ascii "OK";
  header = record { name = ascii "Content-Type"; value = ascii "video/mp2t" } ∷ [];
  body = [];
}

abbrev start : Context StreamClient
start = record (new_context number handle_generate_response_body (new_stream_client false)) {
  request = request;
}

abbrev served : Context StreamClient
served = record start {
  response = some response;
  is_generate_response_body = true;
  source = record { forward_packets = true; ts_strip_additional_info = false; queue = [] };
}

serves : StreamClient.process_request number start ≡ served
unfolding StreamClient.process_request accepted same new_response set_header set_http_version
    set_status_code set_status_msg contains is_empty
serves = refl

abbrev streaming : Client StreamClient
streaming = record client { is_receiving = false; context = some served }

abbrev streams : Streams number false response streaming
streams = record {
  current = served;
  has_context = refl;
  has_response = refl;
  generates = refl;
  is_fit = record { forward_packets = refl; ts_strip_additional_info = refl };
}

abbrev a_packet : ℕ → TsPacket
a_packet n = empty_packet (71 ∷ n ∷ [])

abbrev actions : List (Action number)
actions =
    packet (a_packet 1) (took 30 ∷ took 0 ∷ [])
    ∷ packet (a_packet 2) []
    ∷ bytes_written (took 20 ∷ failed ∷ [])
    ∷ []

act_all-stream_example :
    (d : Client StreamClient) × ((act_all number actions streaming ≡ some d)
      × ((t : Streams number false response d) × (all_of number false response d t
            ≡ all_of number false response streaming streams
              ++ stream false (queued number false response actions))))
act_all-stream_example = act_all-stream number false response actions streaming streams

forwards : stream false (queued number false response actions) ≡ 71 ∷ 1 ∷ 71 ∷ 2 ∷ []
unfolding stream
forwards = refl

-- A server with that client reads a null packet.
abbrev null_packet : Bytes
null_packet = 71 ∷ 31 ∷ 255 ∷ 16 ∷ replicate 184 0

abbrev clients : List Connected
clients = record { id = 1; client = streaming } ∷ []

abbrev stream_server : StreamServer ℕ
stream_server = record {
  is_open = true;
  is_reopening = false;
  input_consecutive_error_count = 15;
  ts_packet_size = 0;
  ts_packet_autosize = true;
  ts_strip_additional_info_default = true;
  last_packet_time = 0;
  next_client_id = 2;
  clients = clients;
}

abbrev value_of : Clock → ℕ
value_of c = c.value

abbrev plus_one : ℕ → ℕ
plus_one n = n + 1

abbrev answers : ℕ → List WriteResult
answers id = took 100 ∷ []

process_input-Broadcasts_example :
    Broadcasts number value_of ltb plus_one stream_server null_packet
      (process_input value_of ltb plus_one number answers null_packet stream_server)
process_input-Broadcasts_example =
    process_input-Broadcasts number value_of ltb plus_one answers null_packet stream_server
      (record { size = inl refl; errors = λ e. omega arith })
      (record { strip = false; response = response; streams = streams }, tt)
