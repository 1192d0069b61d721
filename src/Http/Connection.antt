-- ===== src/Http/Connection.antt =====
-- streamserver-cvn-cli/http/httpserver.cpp: a client of the server, its context and its socket. The
-- object that makes the body of a response is of a type of its own; what the socket does to a
-- `write` is a list of answers. The text of a number is a parameter. `sent` is what the socket has
-- taken, which the program only counts.
pub mod Silent
pub mod Filling
pub mod Delivered
use streamserver_cvn.Prelude.{
  ℕ, zero, suc, ◌+◌, ◌-◌, Bool, true, false, not, ◌&&◌, List, [], ◌∷◌, ◌++◌, Option, none, some,
  ltb, ◌==◌, if◌then◌else◌, length, take, drop, Bytes,
}
use streamserver_cvn.Prelude.Outcome.{ok, err}
use streamserver_cvn.Http.Text.{ascii, lf}
use streamserver_cvn.Http.WhiteSpace.{is_empty}
use streamserver_cvn.Http.Request.{Request, ReceiveState, new_request, process_chunk, is_ready}
use streamserver_cvn.Http.Response.{
  Response, new_response, set_header, set_body, to_bytes, blank_response,
}
use streamserver_cvn.Http.Server.{
  StatusCode, code_of, status_msg_from_status_code, bad_request_400, internal_server_error_500,
}

pub record Context (G : Type 0) : Type 0 where
  pub request : Request
  pub handler : Option ℕ
  pub response : Option Response
  pub response_header_sent : Bool
  pub is_generate_response_body : Bool
  pub source : G

pub data SocketState : Type 0 where
  connected closing aborted : SocketState

pub record Client (G : Type 0) : Type 0 where
  pub socket : SocketState
  pub socket_bytes_received : ℕ
  pub socket_bytes_sent : ℕ
  pub is_receiving : Bool
  pub is_buffer_send_done : Bool
  pub send_buf : Bytes
  pub sent : Bytes
  pub context : Option (Context G)

-- The signal `generateResponseBody`: it appends to the buffer, and says whether more is to come.
pub record Body (G : Type 0) : Type 0 where
  pub more : Bool
  pub source : G
  pub buf : Bytes

-- A result of `write`: it fails, or takes so many bytes.
pub data WriteResult : Type 0 where
  failed : WriteResult
  took : ℕ → WriteResult

module _ {G : Type 0} (number : ℕ → Bytes) (generate : Bytes → G → Body G) where
  -- `setResponseError`. The constructor does not throw for the codes that there are.
  unfoldable pub set_response_error : StatusCode → Bytes → Context G → Context G
  set_response_error code body c =
      elim (new_response (code_of code) (status_msg_from_status_code code) (ascii "HTTP/1.0")) [
        | err e r ↦ c
        | ok u r ↦ record c {
          response =
              some
                (set_body number body (set_header (ascii "Content-Type") (ascii "text/plain") r));
        }
      ]

  -- The loop that fills the buffer up, with fuel; `prev` is one more than `bufSizePrev`.
  unfoldable pub fill : ℕ → ℕ → Bytes → G → Option (Body G)
  fill zero prev buf g = none
  fill (suc fuel) prev buf g =
      let b = generate buf g in
      let rest = fill fuel (suc (length buf)) b.buf b.source in
      if ltb (length buf) prev
      then some (record { more = true; source = g; buf = buf })
      else if not (ltb (length buf) 1024)
      then some (record { more = true; source = g; buf = buf })
      else if not b.more
      then some b
      else rest

  pub record Buffered : Type 0 where
    pub more : Bool
    pub context : Context G
    pub buf : Bytes

  abbrev pub header_bytes : Response → Context G → Bytes
  header_bytes r c = if c.response_header_sent then [] else to_bytes number r

  -- Each round of the loop but the last adds a byte, and the loop ends at 1024 bytes.
  abbrev pub fill_fuel : ℕ
  fill_fuel = 1026

  abbrev pub generated : Context G → Body G → Buffered
  generated c b = record {
    more = b.more;
    context = record c { response_header_sent = true; source = b.source };
    buf = b.buf;
  }

  -- `_bufferResponse` from the header on; `none` would be a loop that goes on for longer.
  unfoldable pub buffer_response_of : Context G → Bytes → Response → Option Buffered
  unfolding fill
  buffer_response_of c buf r =
      let filled = buf ++ header_bytes r c in
      if not c.is_generate_response_body
      then some (record {
        more = false;
        context = record c { response_header_sent = true };
        buf = filled;
      })
      else elim (fill fill_fuel 0 filled c.source) [ none ↦ none | some b ↦ some (generated c b) ]

  -- `_bufferResponse`.
  unfoldable pub buffer_response : Context G → Bytes → Option Buffered
  unfolding buffer_response_of
  buffer_response c buf = elim c.response [
    | none ↦ some (record { more = true; context = c; buf = buf })
    | some r ↦ buffer_response_of c buf r
  ]

  -- `while (!_sendBuf.isEmpty())`: without more answers the write waits.
  unfoldable pub write_loop : List WriteResult → Client G → Client G
  write_loop [] c = c
  write_loop (failed ∷ rs) c = if is_empty c.send_buf then c else record c { socket = aborted }
  write_loop (took n ∷ rs) c =
      let taken = take n c.send_buf in
      let d = record c {
        socket_bytes_sent = c.socket_bytes_sent + length taken;
        sent = c.sent ++ taken;
        send_buf = drop n c.send_buf;
      } in
      let rest = write_loop rs d in if is_empty c.send_buf then c else if n == 0 then c else rest

  abbrev pub finish_send : Client G → Client G
  finish_send c =
      if is_empty c.send_buf && c.is_buffer_send_done then record c { socket = closing } else c

  abbrev pub is_closing : SocketState → Bool
  is_closing closing = true
  is_closing _ = false

  abbrev pub resume : Client G → Buffered → Client G
  resume c b = record c {
    is_buffer_send_done = not b.more;
    send_buf = b.buf;
    context = some b.context;
  }

  -- `if (!_isBufferSendDone) ...`.
  unfoldable pub buffer_more : Client G → Context G → Option (Client G)
  unfolding buffer_response
  buffer_more c x =
      if c.is_buffer_send_done
      then some c
      else elim (buffer_response x c.send_buf) [ none ↦ none | some b ↦ some (resume c b) ]

  -- `_sendData`.
  unfoldable pub send_data : List WriteResult → Client G → Option (Client G)
  unfolding buffer_more write_loop
  send_data rs c = if is_closing c.socket then some c else elim c.context [
    | none ↦ some c
    | some x ↦ elim (buffer_more c x) [
      | none ↦ none
      | some d ↦ some (finish_send (write_loop rs d))
    ]
  ]

  abbrev pub new_context : G → Context G
  new_context g = record {
    request = new_request;
    handler = none;
    response = none;
    response_header_sent = false;
    is_generate_response_body = false;
    source = g;
  }

  -- How the loop over the chunks that are read ends: the handler returns, or goes on behind it.
  pub data Received : Type 0 where
    returned : Client G → Received
    read_all : Client G → Context G → Received

  -- The loop of `_receiveData`, with the context that there is by then. It ends at an empty read.
  unfoldable pub receive_loop : List Bytes → Client G → Context G → Option Received
  unfolding set_response_error
  receive_loop [] c x = some (read_all c x)
  receive_loop (b ∷ bs) c x =
      let d = record c { socket_bytes_received = c.socket_bytes_received + length b } in
      let with_request = λ (r : Request). record x { request = r } in
      if is_empty b
      then some (read_all c x)
      else if not c.is_receiving
      then some (returned (record d { socket = aborted; context = some x }))
      else elim (process_chunk b x.request) [
        | none ↦ none
        | some (err e r) ↦ some (
            returned (record d {
              is_receiving = false;
              context = some (
                  set_response_error bad_request_400
                    (ascii "Unable to parse HTTP request." ++ lf ∷ []) (with_request r));
            }))
        | some (ok u r) ↦ receive_loop bs d (with_request r)
      ]

  abbrev pub current : G → Client G → Context G
  current g c = elim c.context [ none ↦ new_context g | some x ↦ x ]

  abbrev pub with_response : Context G → Context G
  with_response x = elim x.response [
    | some r ↦ x
    | none ↦
        set_response_error internal_server_error_500 (ascii "No response was produced." ++ lf ∷ [])
          x
  ]

  -- `_receiveData`; `process` is what the signal `requestReady` is connected to, and `g` what makes
  -- bodies for a new context.
  unfoldable pub receive_data :
      (Context G → Context G) → G → List Bytes → List WriteResult → Client G → Option (Client G)
  unfolding receive_loop send_data
  receive_data process g chunks rs c = elim (receive_loop chunks c (current g c)) [
    | none ↦ none
    | some (returned d) ↦ some d
    | some (read_all d x) ↦
        if is_ready x.request.receive_state
        then (send_data rs
            (record d { is_receiving = false; context = some (with_response (process x)) }))
        else some (record d { context = some x })
  ]
