-- ===== src/Http/Connection/Silent.antt =====
-- streamserver-cvn-cli/http/httpserver.cpp: a request that cannot be parsed gets no answer.
use streamserver_cvn.Prelude.{
  ℕ, ◌+◌, ◌≡◌, refl, true, false, List, [], ◌∷◌, ◌++◌, some, length, Bytes,
}
use streamserver_cvn.Prelude.Outcome.{err}
use streamserver_cvn.Http.Text.{ascii, lf}
use streamserver_cvn.Http.WhiteSpace.{is_empty}
use streamserver_cvn.Http.Request.{Request, Error, process_chunk}
use streamserver_cvn.Http.Server.{bad_request_400}
use streamserver_cvn.Http.Connection.{
  Context, Client, Body, WriteResult, aborted, set_response_error, receive_loop, receive_data,
  current,
}

-- From `c` to `d` nothing is sent, and `d` does not receive any more.
pub record Silent {G : Type 0} (c d : Client G) : Type 0 where
  pub sent : d.sent ≡ c.sent
  pub send_buf : d.send_buf ≡ c.send_buf
  pub socket_bytes_sent : d.socket_bytes_sent ≡ c.socket_bytes_sent
  pub is_receiving : d.is_receiving ≡ false

module _ {G : Type 0} (number : ℕ → Bytes) (generate : Bytes → G → Body G)
    (process : Context G → Context G) (g : G) where
  -- The client after the chunk `b`, which left the request as `r`.
  abbrev pub refused : Bytes → Request → Client G → Client G
  refused b r c = record c {
    socket_bytes_received = c.socket_bytes_received + length b;
    is_receiving = false;
    context = some (
        set_response_error number generate bad_request_400
          (ascii "Unable to parse HTTP request." ++ lf ∷ [])
          (record (current number generate g c) { request = r }));
  }

  receive_refused :
      (b : Bytes) (bs : List Bytes) (rs : List WriteResult) (c : Client G) (e : Error) (r : Request)
      → is_empty b ≡ false
      → c.is_receiving ≡ true
      → process_chunk b (current number generate g c).request ≡ some (err e r)
      → receive_data number generate process g (b ∷ bs) rs c ≡ some (refused b r c)
  unfolding receive_data receive_loop
  receive_refused b bs rs c e r full hears h =
      rw (full, receive_data, receive_loop) (rw (hears, receive_loop) (rw (h, receive_loop)))

  abbrev pub dropped : Bytes → Client G → Client G
  dropped b c = record c {
    socket_bytes_received = c.socket_bytes_received + length b;
    socket = aborted;
    context = some (current number generate g c);
  }

  -- Whoever does not receive any more ends the connection at the next data.
  receive_dropped :
      (b : Bytes) (bs : List Bytes) (rs : List WriteResult) (c : Client G)
      → is_empty b ≡ false
      → c.is_receiving ≡ false
      → receive_data number generate process g (b ∷ bs) rs c ≡ some (dropped b c)
  unfolding receive_data receive_loop
  receive_dropped b bs rs c full deaf =
      rw (full, receive_data, receive_loop) (rw (deaf, receive_loop))

  -- When a client receives and the parser of the request refuses the chunk `b`, then the handler ends
  -- with a client to which nothing is sent: its send buffer, what its socket has taken and the count of
  -- that are unchanged, it does not receive any more, and the connection is left as it was. At the next
  -- data that comes, if it is not empty, the connection is aborted, and still nothing is sent.
  pub receive_data-Silent :
      (b : Bytes) (bs : List Bytes) (rs : List WriteResult) (c : Client G) (e : Error) (r : Request)
      → is_empty b ≡ false
      → c.is_receiving ≡ true
      → process_chunk b (current number generate g c).request ≡ some (err e r)
      → (d : Client G) × ((receive_data number generate process g (b ∷ bs) rs c ≡ some d)
          × Silent c d
          × (d.socket ≡ c.socket)
          × ((b' : Bytes) (bs' : List Bytes) (rs' : List WriteResult)
              → is_empty b' ≡ false
              → (d' : Client G) × ((receive_data number generate process g (b' ∷ bs') rs' d
                    ≡ some d')
                  × Silent c d'
                  × (d'.socket ≡ aborted))))
  receive_data-Silent b bs rs c e r full hears h = (
    refused b r c,
    (
      receive_refused b bs rs c e r full hears h,
      record { sent = refl; send_buf = refl; socket_bytes_sent = refl; is_receiving = refl },
      refl,
      λ b' bs' rs' full'. (
        dropped b' (refused b r c),
        (
          receive_dropped b' bs' rs' (refused b r c) full' refl,
          record { sent = refl; send_buf = refl; socket_bytes_sent = refl; is_receiving = refl },
          refl,
        ),
      ),
    ),
  )
