-- ===== src/Splitter/Window.antt =====
-- ts-split/splitter.cpp: a request that starts at a packet and has a length in packets, as its own
-- packets are handled one after another.
use streamserver_cvn.Prelude.{
  ℕ, suc, ◌+◌, ◌≤◌, ◌<◌, ◌≡◌, ◌⊎◌, refl, ap, ◌∙◌, inl, inr, Bool, true, false, ◌&&◌, [], ◌++◌,
  Option, none, some, ltb, leb, arith, if◌then◌else◌, Bytes, Bool-cases,
}
use streamserver_cvn.Prelude.Int.{pos}
use streamserver_cvn.Prelude.Outcome.{Outcome, ok, err, ◌>>=◌}
use streamserver_cvn.Writer.{Writer, new_writer}
use streamserver_cvn.Splitter.{
  at_packet, no_length, in_packets, len_packets_or_default, Output, Splitter, Stop, open_failed,
}
use streamserver_cvn.Splitter.Handlers.{
  Files, find_or_default_output_result, length_of, put_length, result_length, is_finished,
  compare_length, close, finish_file, open_file, open_closed, start_output_request,
}
use streamserver_cvn.Splitter.Writing.{written, find_or_default-lem, CanWrite}

-- `n` packets from the packet number `m` on.
abbrev pub window : ℕ → ℕ → ℕ → Output
window f m n = record {
  output_file = some f;
  start = at_packet (pos m);
  length = in_packets (pos n);
}

abbrev pub in_window : ℕ → ℕ → ℕ → Bool
in_window m n k = leb m k && ltb k (m + n)

-- So many packets have been counted; there may be no count before the first.
abbrev pub Counted : ℕ → ℕ → Splitter → Type 0
Counted f c s = (length_of f s ≡ no_length) × (c ≡ 0) ⊎ (length_of f s ≡ in_packets c)

count_so_far :
    (f c : ℕ) (s : Splitter)
    → Counted f c s
    → result_length len_packets_or_default f s ≡ ok c (put_length f (in_packets c) s)
unfolding result_length len_packets_or_default
count_so_far f c s (inl (e, z)) = rw (e, result_length) (rw z)
count_so_far f c s (inr e) = rw (e, result_length)

pub finished_lem :
    (f c n : ℕ) (s : Splitter)
    → Counted f c s
    → is_finished f (in_packets (pos n)) s ≡ ok (leb n c) (put_length f (in_packets c) s)
unfolding is_finished
finished_lem f c n s h =
    rw (count_so_far f c s h, ◌>>=◌) (elim (Bool-cases (leb n c)) [ inl e ↦ rw e | inr e ↦ rw e ])

-- Finishing leaves what was written.
pub finish_lem :
    (f c n : ℕ) (s : Splitter)
    → length_of f s ≡ in_packets c
    → (t : Splitter) × (finish_file f (in_packets (pos n)) s ≡ ok tt t)
      × (t.output_writers ≡ s.output_writers)
      × (t.output_requests ≡ s.output_requests)
      × (t.next_file ≡ s.next_file)
unfolding finish_file compare_length
finish_lem f c n s e = elim (Bool-cases (s.is_open f)) [
  | inr o ↦ (s, rw o, refl, refl, refl)
  | inl o ↦
      let u = find_or_default_output_result f s in
      let (known, len, alike) = find_or_default-lem f s in
      (
        close f (put_length f (in_packets c) u),
        rw o (rw (count_so_far f c u (inr (len ∙ e)), ◌>>=◌)),
        alike.writers,
        alike.requests,
        alike.next_file,
      )
]

-- Where a request stands when `k` packets have been handled: before its window, or with so many of its
-- packets written.
pub data Phase (f m n k : ℕ) (s : Splitter) : Type 0 where
  waiting :
      length_of f s ≡ no_length
      → s.is_open f ≡ false
      → s.exists f ≡ false
      → s.output_writers f ≡ none
      → k < m
      → Phase f m n k s
  recording :
      (c : ℕ) (w : Writer) → CanWrite f c w s → m + c ≡ k + 1 → 0 < c → c ≤ n → Phase f m n k s

pub record Kept (s t : Splitter) : Type 0 where
  pub requests : t.output_requests ≡ s.output_requests
  pub next_file : t.next_file ≡ s.next_file

module _ (files : Files) (f : ℕ) where
  -- An open file needs no start.
  pub start_again :
      (c : ℕ) (w : Writer) (s : Splitter)
      → CanWrite f c w s
      → (t : Splitter) × (start_output_request files f s ≡ ok tt t) × CanWrite f c w t × Kept s t
  unfolding start_output_request open_closed
  start_again c w s h =
      let t = find_or_default_output_result f s in
      let (known, len, alike) = find_or_default-lem f s in
      let opened : t.is_open f ≡ true = ap (λ (g : ℕ → Bool). g f) alike.is_open ∙ h.opened in
      (
        t,
        rw opened,
        record {
          known = known;
          counted = len ∙ h.counted;
          opened = opened;
          writer = ap (λ (g : ℕ → Option Writer). g f) alike.writers ∙ h.writer;
          plain = h.plain;
        },
        record { requests = alike.requests; next_file = alike.next_file },
      )

  -- A start opens a file that is not there, with a new writer, or the program stops.
  pub start_first :
      (s : Splitter)
      → length_of f s ≡ in_packets 0
      → s.is_open f ≡ false
      → s.exists f ≡ false
      → ((e : Stop) × (t : Splitter) × (start_output_request files f s ≡ err e t))
        ⊎ ((t : Splitter) × (start_output_request files f s ≡ ok tt t)
            × CanWrite f 0 new_writer t
            × Kept s t)
  unfolding start_output_request open_closed
  start_first s e closed missing =
      let t = find_or_default_output_result f s in
      let (known, len, alike) = find_or_default-lem f s in
      let closed' : t.is_open f ≡ false = ap (λ (g : ℕ → Bool). g f) alike.is_open ∙ closed in
      let missing' : t.exists f ≡ false = ap (λ (g : ℕ → Bool). g f) alike.exists ∙ missing in
      elim (Bool-cases (files.can_open f)) [
        | inr c ↦ inl (open_failed, t, rw (closed', missing') (rw c))
        | inl c ↦ inr (
          open_file f t,
          rw (closed', missing') (rw c),
          record {
            known = known;
            counted = len ∙ e;
            opened = ground arith;
            writer = ground arith;
            plain = refl;
          },
          record { requests = alike.requests; next_file = alike.next_file },
        )
      ]

  -- What a packet does to its request.
  abbrev pub Stepped : ℕ → ℕ → ℕ → Bytes → Splitter → Outcome Stop Splitter Bool → Type 0
  Stepped m n k bytes s (ok false t) =
      Phase f m n (suc k) t
      × Kept s t
      × (written f t ≡ written f s ++ (if in_window m n (suc k) then bytes else []))
  Stepped m n k bytes s (ok true t) = (m + n ≤ suc k) × Kept s t × (written f t ≡ written f s)
  Stepped m n k bytes s (err e t) = Unit {0}
