-- ===== src/Splitter/Writing.antt =====
-- ts-split/splitter.cpp: a packet that is written to the file of a request for a number of packets.
use streamserver_cvn.Prelude.{
  ℕ, ◌+◌, ◌≡◌, refl, sym, ◌∙◌, inl, inr, true, false, List, [], ◌∷◌, ◌++◌, append_assoc, Option,
  none, some, arith, length, Bytes, Option-cases,
}
use streamserver_cvn.Prelude.Outcome.{ok}
use streamserver_cvn.TsPacket.{TsPacket}
use streamserver_cvn.Writer.{
  Writer, WriteResult, error, wrote, stream, queue_node, queue_bytes, write_data, write_data-stream,
  after_write,
}
use streamserver_cvn.Splitter.{Length, no_length, in_packets, Result, Splitter}
use streamserver_cvn.Splitter.Handlers.{
  Files, find_or_default_output_result, find_result, length_of, put_length, put_writer,
  write_packet,
}
use streamserver_cvn.Splitter.Frames.{find_result-set_self, find_result-append}

-- The file has a result.
abbrev pub Known : ℕ → Splitter → Type 0
Known f s = (r : Result) × (find_result f s.output_results ≡ some r)

-- What has been written to a file, or waits to be written.
abbrev pub stream_of : Option Writer → Bytes
stream_of none = []
stream_of (some w) = stream w

abbrev pub written : ℕ → Splitter → Bytes
written f s = stream_of (s.output_writers f)

-- The same but for the lengths of results.
pub record Alike (s t : Splitter) : Type 0 where
  pub is_open : t.is_open ≡ s.is_open
  pub exists : t.exists ≡ s.exists
  pub writers : t.output_writers ≡ s.output_writers
  pub requests : t.output_requests ≡ s.output_requests
  pub next_file : t.next_file ≡ s.next_file

pub put_length-Alike : (f : ℕ) (l : Length ℕ) (s : Splitter) → Alike s (put_length f l s)
put_length-Alike f l s = record {
  is_open = refl;
  exists = refl;
  writers = refl;
  requests = refl;
  next_file = refl;
}

pub length_of-put_length :
    (f : ℕ) (l : Length ℕ) (s : Splitter) → Known f s → length_of f (put_length f l s) ≡ l
length_of-put_length f l s (r, e) = rw (find_result-set_self f l s.output_results r e, length_of)

pub put_length-Known :
    (f : ℕ) (l : Length ℕ) (s : Splitter) → Known f s → Known f (put_length f l s)
put_length-Known f l s (r, e) =
    (record r { length = l }, find_result-set_self f l s.output_results r e)

new_result : (f : ℕ) (r : Result) → r.output_file ≡ f → find_result f (r ∷ []) ≡ some r
unfolding find_result
new_result f r e = ground arith

pub Alike-refl : (s : Splitter) → Alike s s
Alike-refl s = record {
  is_open = refl;
  exists = refl;
  writers = refl;
  requests = refl;
  next_file = refl;
}

pub find_or_default-lem :
    (f : ℕ) (s : Splitter)
    → let t = find_or_default_output_result f s in
      Known f t × (length_of f t ≡ length_of f s) × Alike s t
unfolding find_or_default_output_result
find_or_default-lem f s = elim (Option-cases (find_result f s.output_results)) [
  | inr (r, e) ↦ rw (e, find_or_default_output_result) ((r, e), refl, Alike-refl s)
  | inl e ↦
      let new : Result = record {
        output_file = f;
        id = s.last_output_id + 1;
        length = no_length;
      } in
      let found : find_result f (s.output_results ++ new ∷ []) ≡ some new =
        find_result-append f s.output_results new e ∙ new_result f new refl in
      rw (e, find_or_default_output_result)
        (
          (new, found),
          rw (found, e, length_of),
          record {
            is_open = refl;
            exists = refl;
            writers = refl;
            requests = refl;
            next_file = refl;
          },
        )
]

pub write_data_strip :
    (rs : List WriteResult) (w : Writer)
    → (write_data rs w).writer.ts_strip_additional_info ≡ w.ts_strip_additional_info
unfolding write_data
write_data_strip [] w = ground arith
write_data_strip (error ∷ rs) w = ground arith
write_data_strip (wrote n ∷ rs) w = ground (arith, write_data_strip rs (after_write n w))

-- A file whose request has a number of packets so far, with its writer.
pub record CanWrite (f n : ℕ) (w : Writer) (s : Splitter) : Type 0 where
  pub known : Known f s
  pub counted : length_of f s ≡ in_packets n
  pub opened : s.is_open f ≡ true
  pub writer : s.output_writers f ≡ some w
  pub plain : w.ts_strip_additional_info ≡ false

queue_node-plain :
    (w : Writer) (p : TsPacket)
    → w.ts_strip_additional_info ≡ false
    → queue_node (p.bytes ∷ []) p w
      ≡ (queue_bytes p.bytes (record w { ts_packet_count = w.ts_packet_count + 1 }), length p.bytes)
unfolding queue_node
queue_node-plain w p e = rw e

queued-stream :
    (w : Writer) (b : Bytes)
    → let q = queue_bytes b (record w { ts_packet_count = w.ts_packet_count + 1 }) in
      (stream q ≡ stream w ++ b) × (q.ts_strip_additional_info ≡ w.ts_strip_additional_info)
unfolding queue_bytes
queued-stream w b = (sym (append_assoc w.sent w.buf b), refl)

module _ (files : Files) where
  -- The packet is behind all that was there, and counts as one.
  pub write_packet-lem :
      (p : TsPacket) (f n : ℕ) (w : Writer) (s : Splitter)
      → CanWrite f n w s
      → (t : Splitter) × (v : Writer) × (write_packet files (p.bytes ∷ []) p f s ≡ ok tt t)
        × CanWrite f (n + 1) v t
        × (stream v ≡ stream w ++ p.bytes)
        × (t.output_requests ≡ s.output_requests)
        × (t.next_file ≡ s.next_file)
  unfolding write_packet
  write_packet-lem p f n w s c =
      let q = queue_bytes p.bytes (record w { ts_packet_count = w.ts_packet_count + 1 }) in
      let v = (write_data (files.answers f q.ts_packet_count) q).writer in
      let u = put_writer f v s in
      let t = put_length f (in_packets (n + 1)) u in
      let (same, strip) = queued-stream w p.bytes in
      (
        t,
        v,
        rw (c.writer, write_packet) (rw (queue_node-plain w p c.plain) (rw c.counted)),
        record {
          known = put_length-Known f (in_packets (n + 1)) u c.known;
          counted = length_of-put_length f (in_packets (n + 1)) u c.known;
          opened = c.opened;
          writer = ground arith;
          plain = write_data_strip (files.answers f q.ts_packet_count) q ∙ (strip ∙ c.plain);
        },
        (write_data-stream (files.answers f q.ts_packet_count) q).0 ∙ same,
        refl,
        refl,
      )
