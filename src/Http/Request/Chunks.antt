-- ===== src/Http/Request/Chunks.antt =====
-- Receiving a request in chunks: the loop always ends, and where the bytes are cut does not matter.
use streamserver_cvn.Prelude.{
  ℕ, zero, suc, ◌+◌, ◌≤◌, ◌<◌, ◌≡◌, refl, sym, ap, ◌∙◌, subst, ◌⊎◌, inl, inr, true, false, not, [],
  ◌∷◌, ◌++◌, append_assoc, Option, some, arith, leb, length, length-append, Bytes, Bool-cases,
}
use streamserver_cvn.Prelude.Outcome.{Outcome, ok, err}
use streamserver_cvn.Http.WhiteSpace.{is_empty}
use streamserver_cvn.Http.Request.{
  Request, Round, wait, go, fail, Error, already_ready, byte_count_exceeded, is_ready, round_in,
  rounds, process_chunk,
}
use streamserver_cvn.Http.Request.StartLine.{extend, extend_round}
use streamserver_cvn.Http.Request.Rounds.{round_in-extend, round_in-Consumes}

Round-cases :
    (x : Round)
    → (x ≡ wait) ⊎ (((s : Request) × (x ≡ go s)) ⊎ ((e : Error) × (s : Request) × (x ≡ fail e s)))
Round-cases wait = inl refl
Round-cases (go s) = inr (inl (s, refl))
Round-cases (fail e s) = inr (inr (e, s, refl))

abbrev Result : Type 0
Result = Outcome Error Request (Unit {0})

-- The three ways in which a round with bytes in the buffer ends.
module _ (fuel : ℕ) (r : Request) (bytes : is_empty r.buf ≡ false) where
  rounds_wait : round_in r.receive_state r ≡ wait → rounds (suc fuel) r ≡ some (ok tt r)
  unfolding rounds
  rounds_wait e = rw (bytes, e, rounds)

  rounds_go :
      (s : Request) → round_in r.receive_state r ≡ go s → rounds (suc fuel) r ≡ rounds fuel s
  unfolding rounds
  rounds_go s e = rw (bytes, e, rounds)

  rounds_fail :
      (x : Error) (s : Request)
      → round_in r.receive_state r ≡ fail x s
      → rounds (suc fuel) r ≡ some (err x s)
  unfolding rounds
  rounds_fail x s e = rw (bytes, e, rounds)

rounds_empty :
    (fuel : ℕ) (r : Request) → is_empty r.buf ≡ true → rounds (suc fuel) r ≡ some (ok tt r)
unfolding rounds
rounds_empty fuel r e = rw e

rounds-total :
    (fuel : ℕ) (r : Request) → length r.buf < fuel → (x : Result) × (rounds fuel r ≡ some x)
rounds-total zero r h = absurd (omega arith)
rounds-total (suc fuel) r h = elim (Bool-cases (is_empty r.buf)) [
  | inl e ↦ (ok tt r, rounds_empty fuel r e)
  | inr b ↦ elim (Round-cases (round_in r.receive_state r)) [
    | inl e ↦ (ok tt r, rounds_wait fuel r b e)
    | inr (inl (s, e)) ↦
        let less = rw e at (round_in-Consumes r.receive_state r) in
        let (x, q) = rounds-total fuel s (omega arith) in (x, rounds_go fuel r b s e ∙ q)
    | inr (inr (x, s, e)) ↦ (err x s, rounds_fail fuel r b x s e)
  ]
]

-- Whatever has been received, `processChunk` returns or throws.
pub process_chunk_total :
    (bytes : Bytes) (r : Request) → (x : Result) × (process_chunk bytes r ≡ some x)
unfolding process_chunk
process_chunk_total bytes r =
    let s = record r { buf = r.buf ++ bytes; byte_count = r.byte_count + length bytes } in
    elim (Bool-cases (is_ready r.receive_state)) [
      | inl e ↦ (err already_ready r, rw e)
      | inr e ↦ rw e (elim (Bool-cases (not (leb s.byte_count s.byte_count_max))) [
        | inl over ↦ (err byte_count_exceeded s, rw over)
        | inr within ↦ rw within (rounds-total (suc (length s.buf)) s (omega arith))
      ])
    ]

-- The fuel does not matter where it is more than the bytes in the buffer.
rounds-agree :
    (f g : ℕ) (r : Request) → length r.buf < f → length r.buf < g → rounds f r ≡ rounds g r
rounds-agree zero g r h k = absurd (omega arith)
rounds-agree (suc f) zero r h k = absurd (omega arith)
rounds-agree (suc f) (suc g) r h k = elim (Bool-cases (is_empty r.buf)) [
  | inl e ↦ rounds_empty f r e ∙ sym (rounds_empty g r e)
  | inr b ↦ elim (Round-cases (round_in r.receive_state r)) [
    | inl e ↦ rounds_wait f r b e ∙ sym (rounds_wait g r b e)
    | inr (inl (s, e)) ↦
        let less = rw e at (round_in-Consumes r.receive_state r) in
        rounds_go f r b s e
        ∙ rounds-agree f g s (omega arith) (omega arith)
        ∙ sym (rounds_go g r b s e)
    | inr (inr (x, s, e)) ↦ rounds_fail f r b x s e ∙ sym (rounds_fail g r b x s e)
  ]
]

-- What the loop leaves when it returns to wait for more: no more bytes than before, the counts as
-- they were, and a state that goes on with `m` appended as the first one does.
abbrev Resumes : Bytes → ℕ → Request → Request → Type 0
Resumes m k r s =
    (length s.buf ≤ length r.buf)
    × (s.byte_count ≡ r.byte_count)
    × (s.byte_count_max ≡ r.byte_count_max)
    × ((g : ℕ) → length (r.buf ++ m) < g → rounds g (extend m k r) ≡ rounds g (extend m k s))

abbrev waits : Request → Option Result
waits r = some (ok tt r)

waits_injective : {r s : Request} → waits r ≡ waits s → r ≡ s
waits_injective e = cc

is_empty-append : (a b : Bytes) → is_empty a ≡ false → is_empty (a ++ b) ≡ false
unfolding is_empty
is_empty-append [] b h = absurd (cc)
is_empty-append (x ∷ a) b h = refl

suc_of : {n : ℕ} (g : ℕ) → n < g → (k : ℕ) × (g ≡ suc k)
suc_of zero h = absurd (omega arith)
suc_of (suc k) h = (k, refl)

Resumes-go :
    (m : Bytes) (k : ℕ) (r s t : Request)
    → is_empty r.buf ≡ false
    → round_in r.receive_state r ≡ go s
    → Resumes m k s t
    → Resumes m k r t
Resumes-go m k r s t b e (l, c, d, same) =
    let (less, c', d') = rw e at (round_in-Consumes r.receive_state r) in
    (
      omega arith,
      c ∙ c',
      d ∙ d',
      λ g h.
          let (g', q) = suc_of g h in
          let go_on : round_in r.receive_state (extend m k r) ≡ go (extend m k s) =
            round_in-extend m k r.receive_state r (λ w. absurd (cc)) ∙ ap (extend_round m k) e in
          let room : length (s.buf ++ m) < g' =
            omega (arith, length-append r.buf m, length-append s.buf m) in
          let rest : length (t.buf ++ m) < g' =
            omega (arith, length-append s.buf m, length-append t.buf m) in
          rw q (
            rounds_go g' (extend m k r) (is_empty-append r.buf m b) (extend m k s) go_on
            ∙ same g' room
            ∙ rounds-agree g' (suc g') (extend m k t) rest (omega arith)),
    )

same-Resumes : (m : Bytes) (k : ℕ) {r s : Request} → r ≡ s → Resumes m k r s
same-Resumes m k {r} e = subst (Resumes m k r) e (omega arith, refl, refl, λ g h. refl)

rounds-Resumes :
    (m : Bytes) (k f : ℕ) (r s : Request) → rounds f r ≡ some (ok tt s) → Resumes m k r s
rounds-Resumes m k zero r s q = absurd (unfold rounds in cc)
rounds-Resumes m k (suc f) r s q = elim (Bool-cases (is_empty r.buf)) [
  | inl e ↦ same-Resumes m k (waits_injective (sym (rounds_empty f r e) ∙ q))
  | inr b ↦ elim (Round-cases (round_in r.receive_state r)) [
    | inl e ↦ same-Resumes m k (waits_injective (sym (rounds_wait f r b e) ∙ q))
    | inr (inl (t, e)) ↦
        Resumes-go m k r t s b e (rounds-Resumes m k f t s (sym (rounds_go f r b t e) ∙ q))
    | inr (inr (x, t, e)) ↦ absurd (let z = sym (rounds_fail f r b x t e) ∙ q in cc)
  ]
]

-- How `processChunk` ends where it does not refuse the bytes.
process_chunk-rounds :
    (bytes : Bytes) (r : Request)
    → is_ready r.receive_state ≡ false
    → leb (r.byte_count + length bytes) r.byte_count_max ≡ true
    → process_chunk bytes r
      ≡ rounds (suc (length (r.buf ++ bytes))) (extend bytes (r.byte_count + length bytes) r)
unfolding process_chunk
process_chunk-rounds bytes r open_ within = rw (open_, within)

process_chunk_accepts :
    (bytes : Bytes) (r s : Request)
    → process_chunk bytes r ≡ some (ok tt s)
    → (is_ready r.receive_state ≡ false)
      × (leb (r.byte_count + length bytes) r.byte_count_max ≡ true)
unfolding process_chunk
process_chunk_accepts bytes r s q = elim (Bool-cases (is_ready r.receive_state)) [
  | inl e ↦ absurd (let z = rw e at q in cc)
  | inr e ↦ elim (Bool-cases (leb (r.byte_count + length bytes) r.byte_count_max)) [
    | inl h ↦ (e, h)
    | inr h ↦ absurd (let z = rw (e, h) at q in cc)
  ]
]

-- Where the bytes of a request are cut into chunks does not matter: if the request goes on after
-- the chunk `a`, and is neither complete nor over its limit with `b`, then receiving `a ++ b` at
-- once has the result, an error too, that receiving `b` after `a` has.
pub process_chunk-append :
    (a b : Bytes) (r s : Request)
    → process_chunk a r ≡ some (ok tt s)
    → is_ready s.receive_state ≡ false
    → leb (s.byte_count + length b) s.byte_count_max ≡ true
    → process_chunk (a ++ b) r ≡ process_chunk b s
process_chunk-append a b r s q open_ within =
    let (o, w) = process_chunk_accepts a r s q in
    let n = r.byte_count + length a in
    let (l, c, d, same) =
      rounds-Resumes b (n + length b) (suc (length (r.buf ++ a))) (extend a n r) s
        (sym (process_chunk-rounds a r o w) ∙ q) in
    let count : r.byte_count + length (a ++ b) ≡ n + length b = omega (arith, length-append a b) in
    let fits : leb (r.byte_count + length (a ++ b)) r.byte_count_max ≡ true =
      rw (count, sym d, sym c) within in
    let longer : length s.buf + length b ≤ length ((r.buf ++ a) ++ b) =
      omega (arith, length-append (r.buf ++ a) b) in
    let short : length (s.buf ++ b) ≤ length ((r.buf ++ a) ++ b) =
      omega (arith, length-append s.buf b) in
    let at_once : process_chunk (a ++ b) r
        ≡ rounds (suc (length ((r.buf ++ a) ++ b))) (extend b (n + length b) (extend a n r)) =
      rw (append_assoc r.buf a b, sym count) (process_chunk-rounds (a ++ b) r o fits) in
    let after : process_chunk b s ≡ rounds (suc (length (s.buf ++ b))) (extend b (n + length b) s) =
      rw (sym c) (process_chunk-rounds b s open_ within) in
    at_once
    ∙ same (suc (length ((r.buf ++ a) ++ b))) (omega arith)
    ∙ rounds-agree (suc (length ((r.buf ++ a) ++ b))) (suc (length (s.buf ++ b)))
        (extend b (n + length b) s) (omega arith) (omega arith)
    ∙ sym after
