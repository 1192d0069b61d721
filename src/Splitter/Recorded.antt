-- ===== src/Splitter/Recorded.antt =====
-- ts-split/splitter.cpp: what a request for a number of packets gets, among other requests.
use streamserver_cvn.Prelude.{
  ℕ, suc, ◌+◌, ◌≤◌, ◌≡◌, ◌≢◌, ◌⊎◌, refl, sym, ap, ◌∙◌, inl, inr, Bool, true, false, List, [], ◌∷◌,
  ◌++◌, append-nil, some, arith, if◌then◌else◌, Bytes, Option-cases, All,
}
use streamserver_cvn.Prelude.Outcome.{Outcome, ok, err, pure, ◌>>=◌, Outcome-cases}
use streamserver_cvn.TsPacket.{TsPacket}
use streamserver_cvn.Reader.Device.{Position}
use streamserver_cvn.Splitter.{in_packets, Output, Splitter, Stop}
use streamserver_cvn.Splitter.Handlers.{
  Files, length_of, find_result, handle_request, handle_requests, handle_file,
}
use streamserver_cvn.Splitter.Frames.{Same, Same-refl, Same-trans, Frame-ok}
use streamserver_cvn.Splitter.Others.{handle_request-Frame}
use streamserver_cvn.Splitter.Writing.{Known, written, stream_of}
use streamserver_cvn.Splitter.Window.{window, in_window, Phase, waiting, recording, Kept, Stepped}
use streamserver_cvn.Splitter.Steps.{handle_file-Stepped}

-- No request is for the file.
abbrev pub Avoids : ℕ → List Output → Type 0
Avoids f = All (λ r. r.output_file ≢ some f)

-- One request is for the file, and it is this one.
abbrev pub Focus : ℕ → Output → List Output → Type 0
Focus f r [] = ⊥
Focus f r (x ∷ xs) = ((x ≡ r) × Avoids f xs) ⊎ ((x.output_file ≢ some f) × Focus f r xs)

-- A request is asked for still, or all of it has been written.
pub data Progress (f m n k : ℕ) (rs : List Output) (s : Splitter) : Type 0 where
  asked : Focus f (window f m n) rs → Phase f m n k s → Progress f m n k rs s
  over : Avoids f rs → m + n ≤ k → Progress f m n k rs s

module _ (files : Files) (x : Position) (formats : List Bytes) (p : TsPacket) (f : ℕ) where
  abbrev AvoidedIn : Splitter → Outcome Stop Splitter (List Output) → Type 0
  AvoidedIn s (ok kept t) = Avoids f kept × Same f s t
  AvoidedIn s (err e t) = Unit {0}

  keep-Avoids :
      (b : Bool) (r : Output) (kept : List Output)
      → r.output_file ≢ some f
      → Avoids f kept
      → Avoids f (if b then kept else r ∷ kept)
  keep-Avoids true r kept n a = a
  keep-Avoids false r kept n a = (n, a)

  -- Requests for other files leave the file as it is.
  handle_requests-AvoidedIn :
      (rs : List Output) (s : Splitter)
      → Avoids f rs
      → AvoidedIn s (handle_requests files x formats p rs s)
  unfolding handle_requests
  handle_requests-AvoidedIn [] s a = (tt, Same-refl f s)
  handle_requests-AvoidedIn (r ∷ rs) s a =
      elim (Outcome-cases (handle_request files x formats p r s)) [
        | inr (e, t, q) ↦ rw (q, ◌>>=◌) tt
        | inl (b, t, q) ↦
            let first = Frame-ok _ (handle_request-Frame files x formats p r f a.0) q in
            let later = handle_requests-AvoidedIn rs t a.1 in
            rw (q, ◌>>=◌)
              (elim (Outcome-cases (handle_requests files x formats p rs t)) [
                | inr (e, u, d) ↦ rw (d, ◌>>=◌) tt
                | inl (kept, u, d) ↦
                    rw (d, ◌>>=◌)
                      (let z = later in
                        let (l, same) : Avoids f kept × Same f t u = rw d at z in
                        (keep-Avoids b r kept a.0 l, Same-trans first same))
              ])
      ]

pub has_one : (f c : ℕ) (s : Splitter) → length_of f s ≡ in_packets c → Known f s
has_one f c s e = elim (Option-cases (find_result f s.output_results)) [
  | inr k ↦ k
  | inl o ↦ absurd (let z = rw (o, length_of) at e in cc)
]

pub Phase-Same : {f m n k : ℕ} {s t : Splitter} → Same f s t → Phase f m n k s → Phase f m n k t
Phase-Same h (waiting e closed missing unwritten early) =
    waiting (h.length ∙ e) (h.is_open ∙ closed) (h.exists ∙ missing) (h.writer ∙ unwritten) early
Phase-Same {f} {t = t} h (recording c w can number positive small) =
    recording c w
      (record {
        known = has_one f c t (h.length ∙ can.counted);
        counted = h.length ∙ can.counted;
        opened = h.is_open ∙ can.opened;
        writer = h.writer ∙ can.writer;
        plain = can.plain;
      })
      number positive small

module _ (files : Files) (x : Position) (p : TsPacket) (f m n k : ℕ)
    (numbered : x.ts_packet_count ≡ suc k) where
  abbrev pub formats : List Bytes
  formats = p.bytes ∷ []

  abbrev pub picked : Bytes
  picked = if in_window m n (suc k) then p.bytes else []

  abbrev pub ProgressIn : Splitter → Outcome Stop Splitter (List Output) → Type 0
  ProgressIn s (ok kept t) =
      Progress f m n (suc k) kept t × Kept s t × (written f t ≡ written f s ++ picked)
  ProgressIn s (err e t) = Unit {0}

  not_picked : m + n ≤ suc k → picked ≡ []
  not_picked h = let outside : in_window m n (suc k) ≡ false = ground arith in rw outside

  Same-Kept : {s t : Splitter} → Same f s t → Kept s t
  Same-Kept h = record { requests = h.requests; next_file = h.next_file }

  Same-written : {s t : Splitter} → Same f s t → written f t ≡ written f s
  Same-written h = ap stream_of h.writer

  Kept-trans : {s t u : Splitter} → Kept s t → Kept t u → Kept s u
  Kept-trans a b = record {
    requests = b.requests ∙ a.requests;
    next_file = b.next_file ∙ a.next_file;
  }

  -- The rest of the list, behind the request.
  then_others :
      (b : Bool) (rs : List Output) (s t : Splitter)
      → Avoids f rs
      → Stepped files f m n k p.bytes s (ok b t)
      → ProgressIn s (
          (handle_requests files x formats p rs >>= λ kept.
          pure (if b then kept else window f m n ∷ kept))
            t)
  then_others b rs s t a stepped =
      let later = handle_requests-AvoidedIn files x formats p f rs t a in
      elim (Outcome-cases (handle_requests files x formats p rs t)) [
        | inr (e, u, d) ↦ rw (d, ◌>>=◌) tt
        | inl (kept, u, d) ↦
            rw (d, ◌>>=◌)
              (let z = later in
                let (l, same) : Avoids f kept × Same f t u = rw d at z in
                conclude b kept u l same stepped)
      ]
    where
      conclude :
          (b : Bool) (kept : List Output) (u : Splitter)
          → Avoids f kept
          → Same f t u
          → Stepped files f m n k p.bytes s (ok b t)
          → ProgressIn s (ok (if b then kept else window f m n ∷ kept) u)
      conclude true kept u l same (past, k', w) = (
        over l past,
        Kept-trans k' (Same-Kept same),
        Same-written same
            ∙ (w ∙ (sym (append-nil (written f s)) ∙ ap (written f s ++◌) (sym (not_picked past)))),
      )
      conclude false kept u l same (phase, k', w) = (
        asked (inl (refl, l)) (Phase-Same same phase),
        Kept-trans k' (Same-Kept same),
        Same-written same ∙ w,
      )

  -- The request is the first of the list.
  own_first :
      (rs : List Output) (s : Splitter)
      → Avoids f rs
      → Phase f m n k s
      → ProgressIn s (handle_requests files x formats p (window f m n ∷ rs) s)
  unfolding handle_requests handle_request
  own_first rs s a phase =
      let stepped = handle_file-Stepped files f x p m n k numbered s phase in
      elim (Outcome-cases (handle_file files x formats p f (window f m n) s)) [
        | inr (e, t, q) ↦ rw (q, ◌>>=◌) tt
        | inl (b, t, q) ↦ rw (q, ◌>>=◌) (then_others b rs s t a (let z = stepped in rw q at z))
      ]

  add_other :
      (b : Bool) (r : Output) (kept : List Output) (s : Splitter)
      → r.output_file ≢ some f
      → Progress f m n (suc k) kept s
      → Progress f m n (suc k) (if b then kept else r ∷ kept) s
  add_other true r kept s e g = g
  add_other false r kept s e (asked focus phase) = asked (inr (e, focus)) phase
  add_other false r kept s e (over a past) = over (e, a) past

  own_in_list :
      (rs : List Output) (s : Splitter)
      → Focus f (window f m n) rs
      → Phase f m n k s
      → ProgressIn s (handle_requests files x formats p rs s)
  unfolding handle_requests
  own_in_list [] s focus phase = absurd focus
  own_in_list (r ∷ rs) s (inl (e, a)) phase = rw e (own_first rs s a phase)
  own_in_list (r ∷ rs) s (inr (e, focus)) phase =
      elim (Outcome-cases (handle_request files x formats p r s)) [
        | inr (y, t, q) ↦ rw (q, ◌>>=◌) tt
        | inl (b, t, q) ↦
            let first = Frame-ok _ (handle_request-Frame files x formats p r f e) q in
            let later = own_in_list rs t focus (Phase-Same first phase) in
            rw (q, ◌>>=◌)
              (elim (Outcome-cases (handle_requests files x formats p rs t)) [
                | inr (y, u, d) ↦ rw (d, ◌>>=◌) tt
                | inl (kept, u, d) ↦
                    rw (d, ◌>>=◌)
                      (let z = later in
                        let (g, k', w) : Progress f m n (suc k) kept u
                            × Kept t u
                            × (written f u ≡ written f t ++ picked) =
                          rw d at z in
                        (
                          add_other b r kept u e g,
                          Kept-trans (Same-Kept first) k',
                          w ∙ ap (λ (c : Bytes). c ++ picked) (Same-written first),
                        ))
              ])
      ]

  pub handle_requests-Progress :
      (rs : List Output) (s : Splitter)
      → Progress f m n k rs s
      → ProgressIn s (handle_requests files x formats p rs s)
  handle_requests-Progress rs s (asked focus phase) = own_in_list rs s focus phase
  handle_requests-Progress rs s (over a past) =
      let others = handle_requests-AvoidedIn files x formats p f rs s a in
      elim (Outcome-cases (handle_requests files x formats p rs s)) [
        | inr (y, t, q) ↦ rw q tt
        | inl (kept, t, q) ↦ rw q (
            let z = others in
            let (l, same) : Avoids f kept × Same f s t = rw q at z in
            (
              over l (omega arith),
              Same-Kept same,
              Same-written same
                  ∙ (sym (append-nil (written f s))
                      ∙ ap (written f s ++◌) (sym (not_picked (omega arith)))),
            ))
      ]
