-- ===== src/Http/Connection/Filling.antt =====
-- streamserver-cvn-cli/http/httpserver.cpp: the loop that fills the send buffer up.
use streamserver_cvn.Prelude.{
  ℕ, zero, suc, ◌+◌, ◌≤◌, ◌≡◌, refl, ◌∙◌, inl, inr, true, ◌++◌, some, arith, ltb, ltb→lt,
  ltb_false→le, length, Bool-cases, Bytes,
}
use streamserver_cvn.Http.Connection.{Body, fill}

-- `pending` is what the object that makes the body is still to append, and `Fits` what it keeps.
module _ {G : Type 0} (number : ℕ → Bytes) (generate : Bytes → G → Body G) (pending : G → Bytes)
    (Fits : G → Type 0)
    (appends : (buf : Bytes) (g : G)
      → Fits g
      → ((generate buf g).buf ++ pending (generate buf g).source ≡ buf ++ pending g)
        × Fits (generate buf g).source) where
  -- The loop ends in time, and moves bytes to the buffer.
  pub fill_moves :
      (fuel prev : ℕ) (buf : Bytes) (g : G)
      → prev ≤ 1024
      → 1025 ≤ fuel + prev
      → Fits g
      → (b : Body G) × ((fill number generate fuel prev buf g ≡ some b)
          × ((b.buf ++ pending b.source ≡ buf ++ pending g) × Fits b.source))
  unfolding fill
  fill_moves zero prev buf g low high f = absurd (omega arith)
  fill_moves (suc fuel) prev buf g low high f = elim (Bool-cases (ltb (length buf) prev)) [
    | inl e ↦ (record { more = true; source = g; buf = buf }, (rw (e, fill), (refl, f)))
    | inr e ↦ elim (Bool-cases (ltb (length buf) 1024)) [
      | inr e' ↦
          (record { more = true; source = g; buf = buf }, (rw (e, fill) (rw (e', fill)), (refl, f)))
      | inl e' ↦ elim (Bool-cases (generate buf g).more) [
        | inr e'' ↦
            (generate buf g, (rw (e, fill) (rw (e', fill) (rw (e'', fill))), appends buf g f))
        | inl e'' ↦
            let grown : prev ≤ length buf = ltb_false→le _ _ e in
            let short = ltb→lt (length buf) 1024 e' in
            let (b, (stops, (moved, f'))) =
              fill_moves fuel (suc (length buf)) (generate buf g).buf (generate buf g).source
                (omega arith) (omega arith) (appends buf g f).1 in
            (
              b,
              (
                rw (e, fill) (rw (e', fill) (rw (e'', fill) stops)),
                (moved ∙ (appends buf g f).0, f'),
              ),
            )
      ]
    ]
  ]
