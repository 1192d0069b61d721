-- ===== src/StreamServer/Resync.antt =====
-- streamserver-cvn-cli/streamserver.cpp: the loop of a re-sync after errors.
use streamserver_cvn.Prelude.{
  ℕ, zero, suc, ◌-◌, ◌≡◌, refl, inl, inr, [], ◌∷◌, ◌++◌, some, ◌==◌, arith, drop, take, length,
  Bytes, Bool-cases, Option-cases,
}
use streamserver_cvn.TsPacket.{length_basic, sync_byte}
use streamserver_cvn.Reader.{find_byte}
use streamserver_cvn.StreamServer.{Resynced, stopped, resync_pass, resync_loop}

-- From the byte on that has been found.
drop-find_byte :
    (c : ℕ) (bs : Bytes) (i : ℕ) → find_byte c bs ≡ some i → (more : Bytes) × (drop i bs ≡ c ∷ more)
unfolding find_byte
drop-find_byte c [] i e = cc
drop-find_byte c (b ∷ bs) i e = elim (Bool-cases (b == c)) [
  | inl q ↦
      let first : i ≡ 0 = let z = rw (q, find_byte) at e in cc in
      let same : b ≡ c = ground arith in (bs, rw (first, same))
  | inr q ↦ elim (Option-cases (find_byte c bs)) [
    | inl none_left ↦ absurd (let z = rw (q, none_left, find_byte) at e in cc)
    | inr (j, later) ↦
        let next : i ≡ suc j = let z = rw (q, later, find_byte) at e in cc in
        let (more, d) = drop-find_byte c bs j later in (more, rw next d)
  ]
]

-- Behind a pass nothing is left to do.
loop_at_sync :
    (passes : ℕ) (more rest : Bytes)
    → resync_loop passes (sync_byte ∷ more) rest ≡ stopped (sync_byte ∷ more) rest
unfolding resync_loop find_byte
loop_at_sync zero more rest = refl
loop_at_sync (suc passes) more rest = refl

pass_alike :
    (i : ℕ) (packet_bytes rest more : Bytes) (again again' : Bytes → Bytes → Resynced)
    → drop i packet_bytes ≡ sync_byte ∷ more
    → ((m r : Bytes) → again (sync_byte ∷ m) r ≡ again' (sync_byte ∷ m) r)
    → resync_pass i packet_bytes rest again ≡ resync_pass i packet_bytes rest again'
unfolding resync_pass
pass_alike i packet_bytes rest more again again' d alike =
    rw (d, resync_pass)
      (rw (
        alike (more ++ take (length_basic - suc (length more)) rest)
          (drop (length_basic - suc (length more)) rest)))

-- A pass that goes on leaves the bytes starting with a sync byte, at which the loop ends: however
-- many passes are allowed, if it is one at least, the loop of a re-sync does what one pass does.
pub resync_loop-once :
    (passes : ℕ) (packet_bytes rest : Bytes)
    → resync_loop (suc passes) packet_bytes rest ≡ resync_loop 1 packet_bytes rest
unfolding resync_loop
resync_loop-once passes packet_bytes rest = elim (Option-cases (find_byte sync_byte packet_bytes)) [
  | inl e ↦ rw (e, resync_loop)
  | inr (zero, e) ↦ rw (e, resync_loop)
  | inr (suc i, e) ↦
      let (more, d) = drop-find_byte sync_byte packet_bytes (suc i) e in
      rw (e, resync_loop)
        (pass_alike (suc i) packet_bytes rest more (resync_loop passes) (resync_loop 0) d
          (λ m r. loop_at_sync passes m r))
]
