-- ===== src/StreamServer/Sizes.antt =====
-- streamserver-cvn-cli/streamserver.cpp: the packet size and the count of errors of the server.
use streamserver_cvn.Prelude.{
  ℕ, zero, suc, ◌+◌, ◌≤◌, ◌<◌, ◌≡◌, refl, inl, inr, ◌⊎◌, Bool, true, false, ◌&&◌, arith, leb, ◌==◌,
  length, get_or, take, Bytes, Bool-cases,
}
use streamserver_cvn.TsPacket.{Clock, length_basic, sync_byte}
use streamserver_cvn.StreamServer.{
  Portion, Detected, found, fatal, sync_at, detect_suffix, detect, portion, read_packet, Resynced,
  stopped, ended, resync,
}
use streamserver_cvn.StreamServer.Input.{StreamServer, Judged, goes_on, ends, after_errors, judge}

-- The packet sizes that can be set.
abbrev pub IsSize : ℕ → Type 0
IsSize n = (length_basic ≤ n) × (n ≤ length_basic + length_basic)

abbrev pub SizedIn : Detected → Type 0
SizedIn (found r) = IsSize r.read_size
SizedIn (fatal e) = Unit {0}

detect_suffix-SizedIn : (r : Portion) → r.read_size ≡ length_basic → SizedIn (detect_suffix r)
unfolding detect_suffix
detect_suffix-SizedIn r e =
    let next = take r.read_size r.rest in
    elim (Bool-cases (sync_at 0 next)) [
      | inl q ↦ rw (q, detect_suffix) (omega arith, omega arith)
      | inr q ↦
          rw (q, detect_suffix)
            (elim (Bool-cases (leb (length next) 20)) [
              | inl q' ↦ rw q' (omega arith, omega arith)
              | inr q' ↦ rw q' (elim (Bool-cases (sync_at 16 next)) [
                | inl u ↦ rw u (omega arith, omega arith)
                | inr u ↦ rw u (elim (Bool-cases (sync_at 20 next)) [
                  | inl v ↦ rw v (omega arith, omega arith)
                  | inr v ↦ rw v tt
                ])
              ])
            ])
    ]

detect-SizedIn : (r : Portion) → r.read_size ≡ length_basic → SizedIn (detect r)
unfolding detect
detect-SizedIn r e = elim (Bool-cases (sync_at 0 r.packet_bytes)) [
  | inl q ↦ rw (q, detect) (detect_suffix-SizedIn r e)
  | inr q ↦
      rw (q, detect)
        (elim (Bool-cases (get_or r.packet_bytes 4 0 == sync_byte)) [
          | inl q' ↦ rw q' (omega arith, omega arith)
          | inr q' ↦ rw q' tt
        ])
]

pub read_packet-SizedIn :
    (size : ℕ) (autosize : Bool) (input : Bytes)
    → (size ≡ 0) ⊎ IsSize size
    → SizedIn (read_packet size autosize input)
unfolding read_packet
read_packet-SizedIn zero false input h = tt
read_packet-SizedIn zero true input h =
    let r = portion length_basic input in
    elim (Bool-cases (length r.packet_bytes == length_basic)) [
      | inl q ↦ rw (q, read_packet) (detect-SizedIn r refl)
      | inr q ↦ rw (q, read_packet) (omega arith, omega arith)
    ]
read_packet-SizedIn (suc size) autosize input (inl e) = absurd (omega arith)
read_packet-SizedIn (suc size) autosize input (inr h) = h

few_errors : (n : ℕ) (b : Bool) → (leb 16 (n + 1) && b) ≡ false → b ≡ true → n + 1 < 16
few_errors n true q e = ground arith
few_errors n false q e = cc

module _ {T : Type 0} where
  -- The packet size is to be detected, or is one that can be set, and errors in a row are counted up
  -- to 15 where the size is detected.
  pub record IsServer (s : StreamServer T) : Type 0 where
    pub size : (s.ts_packet_size ≡ 0) ⊎ IsSize s.ts_packet_size
    pub errors : s.ts_packet_autosize ≡ true → s.input_consecutive_error_count < 16

module _ {T : Type 0} (to_secs : Clock → T) (lt : T → T → Bool) (plus_one : T → T)
    (number : ℕ → Bytes) where
  -- A server that goes on is still one, with the same clients and settings.
  abbrev pub JudgedWell : StreamServer T → Judged to_secs lt plus_one number → Type 0
  JudgedWell s (goes_on t left) = IsServer t × (t.clients ≡ s.clients)
  JudgedWell s (ends e) = Unit {0}

  abbrev reset : StreamServer T → StreamServer T
  reset s = record s { input_consecutive_error_count = 0; ts_packet_size = 0 }

  resynced-JudgedWell :
      (s : StreamServer T) (x : Resynced)
      → JudgedWell s (elim x [ ended e ↦ ends e | stopped bytes left ↦ goes_on (reset s) left ])
  resynced-JudgedWell s (stopped bytes left) =
      (record { size = inl refl; errors = λ e. omega arith }, refl)
  resynced-JudgedWell s (ended e) = tt

  after_errors-JudgedWell :
      (packet_bytes rest : Bytes) (s : StreamServer T)
      → JudgedWell s (after_errors to_secs lt plus_one number packet_bytes rest s)
  unfolding after_errors
  after_errors-JudgedWell packet_bytes rest s = elim (Bool-cases (s.ts_packet_size == 0)) [
    | inl q ↦ rw (q, after_errors) (record { size = inl refl; errors = λ e. omega arith }, refl)
    | inr q ↦ rw (q, after_errors) (resynced-JudgedWell s (resync packet_bytes rest))
  ]

  pub judge-JudgedWell :
      (success : Bool) (r : Portion) (s : StreamServer T)
      → IsServer s
      → IsSize r.read_size
      → JudgedWell s (judge to_secs lt plus_one number success r s)
  unfolding judge
  judge-JudgedWell true r s h n = (
    record {
      size = elim (Bool-cases (s.ts_packet_size == 0)) [
        | inl q ↦ rw q (inr n)
        | inr q ↦ rw q h.size
      ];
      errors = λ e. omega arith;
    },
    refl,
  )
  judge-JudgedWell false r s h n =
      let counted = record s {
        input_consecutive_error_count = s.input_consecutive_error_count + 1;
      } in
      elim (Bool-cases (leb 16 (s.input_consecutive_error_count + 1) && s.ts_packet_autosize)) [
        | inl q ↦ rw (q, judge) (after_errors-JudgedWell r.packet_bytes r.rest counted)
        | inr q ↦
            rw (q, judge)
              (
                record {
                  size = h.size;
                  errors = λ e. few_errors s.input_consecutive_error_count s.ts_packet_autosize q e;
                },
                refl,
              )
      ]
