-- ===== src/Http/Connection/Delivered.antt =====
-- streamserver-cvn-cli/http/httpserver.cpp: what a client is still to be sent, while it is sent.
use streamserver_cvn.Prelude.{
  ℕ, ◌≡◌, refl, sym, ap, ◌∙◌, inl, inr, true, false, not, ◌&&◌, List, [], ◌∷◌, ◌++◌, append_assoc,
  none, some, arith, ◌==◌, if_false, take-append-drop, Bool-cases, Bytes,
}
use streamserver_cvn.Http.WhiteSpace.{is_empty}
use streamserver_cvn.Http.Response.{Response}
use streamserver_cvn.Http.Connection.Filling.{fill_moves}
use streamserver_cvn.Http.Connection.{
  Context, Client, Body, Buffered, resume, WriteResult, failed, took, fill, generated,
  buffer_response_of, buffer_response, buffer_more, write_loop, finish_send, send_data,
  header_bytes, is_closing,
}

-- `pending` is what the object that makes the body is still to append, and `Fits` what it keeps.
module _ {G : Type 0} (number : ℕ → Bytes) (generate : Bytes → G → Body G) (pending : G → Bytes)
    (Fits : G → Type 0) where
  -- What is to follow the send buffer.
  abbrev pub due : Response → Context G → Bytes
  due r x = header_bytes number generate r x ++ pending x.source

  pub record IsStreaming (r : Response) (c : Client G) : Type 0 where
    pub current : Context G
    pub has_context : c.context ≡ some current
    pub has_response : current.response ≡ some r
    pub generates : current.is_generate_response_body ≡ true
    pub is_fit : Fits current.source

  -- All bytes of a client: those that the socket has taken, and those that are to follow.
  abbrev pub content : (r : Response) (c : Client G) → IsStreaming r c → Bytes
  content r c s = c.sent ++ (c.send_buf ++ due r s.current)

module _ {G : Type 0} (number : ℕ → Bytes) (generate : Bytes → G → Body G) (pending : G → Bytes)
    (Fits : G → Type 0)
    (appends : (buf : Bytes) (g : G)
      → Fits g
      → ((generate buf g).buf ++ pending (generate buf g).source ≡ buf ++ pending g)
        × Fits (generate buf g).source) where
  fills_up :
      (r : Response) (x : Context G) (buf : Bytes) (b : Body G)
      → x.response ≡ some r
      → x.is_generate_response_body ≡ true
      → fill number generate 1026 0 (buf ++ header_bytes number generate r x) x.source ≡ some b
      → buffer_response number generate x buf ≡ some (generated number generate x b)
  unfolding buffer_response buffer_response_of
  fills_up r x buf b h h' stops =
      ap
        (λ o. elim o [
          | none ↦ some (record { more = true; context = x; buf = buf })
          | some r' ↦ buffer_response_of number generate x buf r'
        ])
        h
      ∙ if_false (not x.is_generate_response_body) _ _ (ap not h')
      ∙ ap (λ o. elim o [ none ↦ none | some b' ↦ some (generated number generate x b') ]) stops

  buffer_more_resumes :
      (c : Client G) (x : Context G) (b : Buffered number generate)
      → c.is_buffer_send_done ≡ false
      → buffer_response number generate x c.send_buf ≡ some b
      → buffer_more number generate c x ≡ some (resume number generate c b)
  unfolding buffer_more
  buffer_more_resumes c x b e stops =
      if_false c.is_buffer_send_done _ _ e
      ∙ ap (λ o. elim o [ none ↦ none | some b' ↦ some (resume number generate c b') ]) stops

  buffer_more_moves :
      (r : Response) (c : Client G) (s : IsStreaming number generate pending Fits r c)
      → (d : Client G) × ((buffer_more number generate c s.current ≡ some d)
          × ((t : IsStreaming number generate pending Fits r d) × (content number generate pending
                  Fits r d t
                ≡ content number generate pending Fits r c s)))
  unfolding buffer_more
  buffer_more_moves r c s = elim (Bool-cases c.is_buffer_send_done) [
    | inl e ↦ (c, (rw (e, buffer_more), (s, refl)))
    | inr e ↦
        let x = s.current in
        let header = header_bytes number generate r x in
        let (b, (stops, (moved, f))) =
          fill_moves number generate pending Fits appends 1026 0 (c.send_buf ++ header) x.source
            (omega arith) (omega arith) s.is_fit in
        (
          resume number generate c (generated number generate x b),
          (
            buffer_more_resumes c x _ e
                (fills_up r x c.send_buf b s.has_response s.generates stops),
            (
              record {
                current = record x { response_header_sent = true; source = b.source };
                has_context = refl;
                has_response = s.has_response;
                generates = s.generates;
                is_fit = f;
              },
              ap (λ z. c.sent ++ z) (moved ∙ append_assoc c.send_buf header (pending x.source)),
            ),
          ),
        )
  ]

  write_loop_sent :
      (rs : List WriteResult) (c : Client G)
      → (write_loop number generate rs c).sent ++ (write_loop number generate rs c).send_buf
        ≡ c.sent ++ c.send_buf
  unfolding write_loop
  write_loop_sent [] c = refl
  write_loop_sent (failed ∷ rs) c = elim (Bool-cases (is_empty c.send_buf)) [
    | inl e ↦ rw (e, write_loop)
    | inr e ↦ rw (e, write_loop)
  ]
  write_loop_sent (took n ∷ rs) c = elim (Bool-cases (is_empty c.send_buf)) [
    | inl e ↦ rw (e, write_loop)
    | inr e ↦ elim (Bool-cases (n == 0)) [
      | inl e' ↦ rw (e, write_loop) (rw (e', write_loop))
      | inr e' ↦
          rw (e, write_loop)
            (rw (e', write_loop)
              (write_loop_sent rs _
                ∙ append_assoc c.sent _ _
                ∙ ap (λ z. c.sent ++ z) (take-append-drop n c.send_buf)))
    ]
  ]

  write_loop_context :
      (rs : List WriteResult) (c : Client G) → (write_loop number generate rs c).context ≡ c.context
  unfolding write_loop
  write_loop_context [] c = refl
  write_loop_context (failed ∷ rs) c = elim (Bool-cases (is_empty c.send_buf)) [
    | inl e ↦ rw (e, write_loop)
    | inr e ↦ rw (e, write_loop)
  ]
  write_loop_context (took n ∷ rs) c = elim (Bool-cases (is_empty c.send_buf)) [
    | inl e ↦ rw (e, write_loop)
    | inr e ↦ elim (Bool-cases (n == 0)) [
      | inl e' ↦ rw (e, write_loop) (rw (e', write_loop))
      | inr e' ↦ rw (e, write_loop) (rw (e', write_loop) (write_loop_context rs _))
    ]
  ]

  send_data_finishes :
      (rs : List WriteResult) (c d : Client G) (x : Context G)
      → is_closing number generate c.socket ≡ false
      → c.context ≡ some x
      → buffer_more number generate c x ≡ some d
      → send_data number generate rs c
        ≡ some (finish_send number generate (write_loop number generate rs d))
  unfolding send_data
  send_data_finishes rs c d x e h stops = rw (e, send_data) (rw (h, send_data) (rw stops))

  -- `_sendData` keeps what `finish_send` does not look at.
  finish_send_moves :
      (r : Response) (c : Client G) (s : IsStreaming number generate pending Fits r c)
      → (t : IsStreaming number generate pending Fits r (finish_send number generate c)) × (content
            number generate pending Fits r
            (finish_send number generate c)
            t
          ≡ content number generate pending Fits r c s)
  finish_send_moves r c s = elim (Bool-cases (is_empty c.send_buf && c.is_buffer_send_done)) [
    | inl e ↦ rw e (
      record {
        current = s.current;
        has_context = s.has_context;
        has_response = s.has_response;
        generates = s.generates;
        is_fit = s.is_fit;
      },
      refl,
    )
    | inr e ↦ rw e (s, refl)
  ]

  write_loop_moves :
      (r : Response) (rs : List WriteResult) (c : Client G)
      (s : IsStreaming number generate pending Fits r c)
      → (t : IsStreaming number generate pending Fits r (write_loop number generate rs c))
        × (content number generate pending Fits r (write_loop number generate rs c) t
            ≡ content number generate pending Fits r c s)
  write_loop_moves r rs c s = (
    record {
      current = s.current;
      has_context = write_loop_context rs c ∙ s.has_context;
      has_response = s.has_response;
      generates = s.generates;
      is_fit = s.is_fit;
    },
    sym (
          append_assoc (write_loop number generate rs c).sent
            (write_loop number generate rs c).send_buf
            (due number generate pending Fits r s.current))
        ∙ ap (λ z. z ++ due number generate pending Fits r s.current) (write_loop_sent rs c)
        ∙ append_assoc c.sent _ _,
  )

  -- `sendData` ends.
  pub send_data_moves :
      (r : Response) (rs : List WriteResult) (c : Client G)
      (s : IsStreaming number generate pending Fits r c)
      → (d : Client G) × ((send_data number generate rs c ≡ some d)
          × ((t : IsStreaming number generate pending Fits r d) × (content number generate pending
                  Fits r d t
                ≡ content number generate pending Fits r c s)))
  unfolding send_data
  send_data_moves r rs c s = elim (Bool-cases (is_closing number generate c.socket)) [
    | inl e ↦ (c, (rw (e, send_data), (s, refl)))
    | inr e ↦
        let (d, (stops, (t, same))) = buffer_more_moves r c s in
        let (t', same') = write_loop_moves r rs d t in
        let (t'', same'') = finish_send_moves r _ t' in
        (
          _,
          (send_data_finishes rs c d s.current e s.has_context stops, (t'', same'' ∙ same' ∙ same)),
        )
  ]
