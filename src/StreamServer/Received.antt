-- ===== src/StreamServer/Received.antt =====
-- streamserver-cvn-cli/streamserver.cpp: the packet at the front of the input, by where the input has
-- sync bytes.
use streamserver_cvn.Prelude.{
  ℕ, zero, suc, ◌+◌, ◌≤◌, ◌<◌, ◌≡◌, ◌≢◌, refl, sym, ap, ◌∙◌, inl, inr, ◌⊎◌, Bool, true, false, [],
  ◌∷◌, ◌++◌, Option, none, some, arith, ltb, leb, leb→le, lt→ltb, ◌==◌, length, length-take,
  length-drop, get_elem?, get_or, take, drop, drop-drop, Bytes, Bool-cases,
}
use streamserver_cvn.TsPacket.{length_basic, sync_byte}
use streamserver_cvn.StreamServer.{
  Portion, Detected, found, fatal, sync_at, extend, detect_suffix, detect, portion, read_packet,
}

abbrev pub Sync : ℕ → Bytes → Type 0
Sync i input = get_elem? input i ≡ some sync_byte

abbrev pub NoSync : ℕ → Bytes → Type 0
NoSync i input = get_elem? input i ≢ some sync_byte

-- The size that the sync bytes tell of: what is behind a packet of 188 bytes, or 4 bytes in front of it.
-- Input that ends with the packet, or too soon behind it, leaves it at 188.
pub data IsDetected (input : Bytes) : ℕ → Type 0 where
  short : length input < 188 → IsDetected input 188
  basic : Sync 0 input → Sync 188 input → IsDetected input 188
  at_end :
      Sync 0 input
      → NoSync 188 input
      → 188 ≤ length input
      → length input ≤ 208
      → IsDetected input 188
  suffix_16 :
      Sync 0 input → NoSync 188 input → 208 < length input → Sync 204 input → IsDetected input 204
  suffix_20 :
      Sync 0 input
      → NoSync 188 input
      → NoSync 204 input
      → 208 < length input
      → Sync 208 input
      → IsDetected input 208
  prefix_4 : NoSync 0 input → 188 ≤ length input → Sync 4 input → IsDetected input 192

-- No size is to be told.
pub data IsUndetected (input : Bytes) : Type 0 where
  no_start : NoSync 0 input → 188 ≤ length input → NoSync 4 input → IsUndetected input
  no_next :
      Sync 0 input
      → NoSync 188 input
      → NoSync 204 input
      → NoSync 208 input
      → 208 < length input
      → IsUndetected input

-- The packet size for the input is the one that is set, or else one that is detected.
abbrev pub IsPacketSize : ℕ → Bool → Bytes → ℕ → Type 0
IsPacketSize size autosize input n =
    (0 < size × n ≡ size) ⊎ ((size ≡ 0) × (autosize ≡ true) × IsDetected input n)

-- No packet size is set, and none is to be detected or none can be.
abbrev pub IsSizeless : ℕ → Bool → Bytes → Type 0
IsSizeless size autosize input = (size ≡ 0) × ((autosize ≡ false) ⊎ IsUndetected input)

-- A portion that is found starts the input and has the packet size; the program ends for want of one.
abbrev pub FoundIn : ℕ → Bool → Bytes → Detected → Type 0
FoundIn size autosize input (found r) =
    IsPacketSize size autosize input r.read_size × (r ≡ portion r.read_size input)
FoundIn size autosize input (fatal e) = IsSizeless size autosize input

abbrev is_sync : Option ℕ → Bool
is_sync none = false
is_sync (some b) = b == sync_byte

sync_at-get : (i : ℕ) (bytes : Bytes) → sync_at i bytes ≡ is_sync (get_elem? bytes i)
sync_at-get i [] = ground arith
sync_at-get zero (b ∷ bytes) = ground arith
sync_at-get (suc i) (b ∷ bytes) = ground (arith, sync_at-get i bytes)

get_elem?-take : (i n : ℕ) (xs : Bytes) → i < n → get_elem? (take n xs) i ≡ get_elem? xs i
get_elem?-take i zero xs h = absurd (omega arith)
get_elem?-take i (suc n) [] h = refl
get_elem?-take zero (suc n) (x ∷ xs) h = refl
get_elem?-take (suc i) (suc n) (x ∷ xs) h = get_elem?-take i n xs (omega arith)

get_elem?-drop : (n i : ℕ) (xs : Bytes) → get_elem? (drop n xs) i ≡ get_elem? xs (n + i)
get_elem?-drop zero i xs = let e : 0 + i ≡ i = omega arith in rw e refl
get_elem?-drop (suc n) i [] = refl
get_elem?-drop (suc n) i (x ∷ xs) =
    let e : suc n + i ≡ suc (n + i) = omega arith in rw e (get_elem?-drop n i xs)

take-append-take : (n m : ℕ) (xs : Bytes) → take n xs ++ take m (drop n xs) ≡ take (n + m) xs
take-append-take zero m xs = let e : 0 + m ≡ m = omega arith in rw e refl
take-append-take (suc n) zero [] = let e : suc n + 0 ≡ suc n = omega arith in rw e refl
take-append-take (suc n) (suc m) [] =
    let e : suc n + suc m ≡ suc (n + suc m) = omega arith in rw e refl
take-append-take (suc n) m (x ∷ xs) =
    let e : suc n + m ≡ suc (n + m) = omega arith in rw e (rw (take-append-take n m xs) refl)

leb_false→lt : (a b : ℕ) → leb a b ≡ false → b < a
leb_false→lt a b h = ground arith

pub ==_true→≡ : (a b : ℕ) → (a == b) ≡ true → a ≡ b
==_true→≡ a b h = ground arith

pub ==_false→≢ : (a b : ℕ) → (a == b) ≡ false → a ≢ b
==_false→≢ a b h = ground arith

is_sync_true : (o : Option ℕ) → is_sync o ≡ true → o ≡ some sync_byte
is_sync_true none h = cc
is_sync_true (some b) h = ground arith

is_sync_false : (o : Option ℕ) → is_sync o ≡ false → o ≢ some sync_byte
is_sync_false none h e = cc
is_sync_false (some b) h e = let same : b ≡ sync_byte = cc in absurd (ground arith)

module _ (input : Bytes) (m n i : ℕ) (within : i < m) where
  test_behind : sync_at i (take m (drop n input)) ≡ is_sync (get_elem? input (n + i))
  test_behind =
      sync_at-get i (take m (drop n input))
      ∙ ap is_sync (get_elem?-take i m (drop n input) within ∙ get_elem?-drop n i input)

  found_behind : sync_at i (take m (drop n input)) ≡ true → Sync (n + i) input
  found_behind h = is_sync_true (get_elem? input (n + i)) (sym test_behind ∙ h)

  missing_behind : sync_at i (take m (drop n input)) ≡ false → NoSync (n + i) input
  missing_behind h = is_sync_false (get_elem? input (n + i)) (sym test_behind ∙ h)

extend-portion : (n m : ℕ) (input : Bytes) → extend m (portion n input) ≡ portion (n + m) input
extend-portion n m input = rw (take-append-take n m input, drop-drop m n input) refl

-- The part that follows a packet of 188 bytes.
module _ (input : Bytes) (enough : 188 ≤ length input) where
  abbrev basic_portion : Portion
  basic_portion = portion length_basic input

  abbrev next : Bytes
  next = take 188 (drop 188 input)

  length-next : (leb (length next) 20 ≡ true) → length input ≤ 208
  length-next h =
      omega
        (arith, leb→le (length next) 20 h, length-take 188 (drop 188 input), length-drop 188 input)

  length-next_more : (leb (length next) 20 ≡ false) → 208 < length input
  length-next_more h =
      let more = leb_false→lt (length next) 20 h in
      omega (arith, more, length-take 188 (drop 188 input), length-drop 188 input)

  detected :
      (r : Portion) (n : ℕ)
      → r ≡ portion n input
      → IsDetected input n
      → FoundIn 0 true input (found r)
  detected r n e d = rw e (inr (refl, refl, d), refl)

  detect_suffix-FoundIn : Sync 0 input → FoundIn 0 true input (detect_suffix basic_portion)
  unfolding detect_suffix
  detect_suffix-FoundIn start = elim (Bool-cases (sync_at 0 next)) [
    | inl q ↦
        rw (q, detect_suffix)
          (detected basic_portion 188 refl
            (basic start (found_behind input 188 188 0 (omega arith) q)))
    | inr q ↦
        let other = missing_behind input 188 188 0 (omega arith) q in
        rw (q, detect_suffix)
          (elim (Bool-cases (leb (length next) 20)) [
            | inl l ↦
                rw l (detected basic_portion 188 refl (at_end start other enough (length-next l)))
            | inr l ↦ rw l (elim (Bool-cases (sync_at 16 next)) [
              | inl u ↦ rw u (
                  detected (extend 16 basic_portion) 204 (extend-portion 188 16 input) (
                    suffix_16 start other (length-next_more l)
                      (found_behind input 188 188 16 (omega arith) u)))
              | inr u ↦
                  let other_16 = missing_behind input 188 188 16 (omega arith) u in
                  rw u (elim (Bool-cases (sync_at 20 next)) [
                    | inl v ↦ rw v (
                        detected (extend 20 basic_portion) 208 (extend-portion 188 20 input) (
                          suffix_20 start other other_16 (length-next_more l)
                            (found_behind input 188 188 20 (omega arith) v)))
                    | inr v ↦ rw v (
                      refl,
                      inr (
                          no_next start other other_16
                            (missing_behind input 188 188 20 (omega arith) v) (length-next_more l)),
                    )
                  ])
            ])
          ])
  ]

  test_front : (i : ℕ) → i < 188 → sync_at i (take 188 input) ≡ is_sync (get_elem? input i)
  test_front i h = sync_at-get i (take 188 input) ∙ ap is_sync (get_elem?-take i 188 input h)

  front_byte : (get_or (take 188 input) 4 0 == sync_byte) ≡ is_sync (get_elem? input 4)
  front_byte =
      let long : ltb 4 (length (take 188 input)) ≡ true =
        lt→ltb 4 (length (take 188 input)) (omega (arith, length-take 188 input)) in
      let e = test_front 4 (omega arith) in rw long at e

  detect-FoundIn : FoundIn 0 true input (detect basic_portion)
  unfolding detect
  detect-FoundIn = elim (Bool-cases (sync_at 0 (take 188 input))) [
    | inl q ↦
        rw (q, detect)
          (detect_suffix-FoundIn
            (is_sync_true (get_elem? input 0) (sym (test_front 0 (omega arith)) ∙ q)))
    | inr q ↦
        let other = is_sync_false (get_elem? input 0) (sym (test_front 0 (omega arith)) ∙ q) in
        rw (q, detect)
          (elim (Bool-cases (get_or (take 188 input) 4 0 == sync_byte)) [
            | inl u ↦ rw u (
                detected (extend 4 basic_portion) 192 (extend-portion 188 4 input)
                  (prefix_4 other enough (is_sync_true (get_elem? input 4) (sym front_byte ∙ u))))
            | inr u ↦ rw u (
              refl,
              inr (no_start other enough (is_sync_false (get_elem? input 4) (sym front_byte ∙ u))),
            )
          ])
  ]

pub read_packet-FoundIn :
    (size : ℕ) (autosize : Bool) (input : Bytes)
    → FoundIn size autosize input (read_packet size autosize input)
unfolding read_packet
read_packet-FoundIn zero false input = (refl, inl refl)
read_packet-FoundIn zero true input =
    elim (Bool-cases (length (take length_basic input) == length_basic)) [
      | inl q ↦
          let full = ==_true→≡ (length (take length_basic input)) length_basic q in
          rw (q, read_packet) (detect-FoundIn input (omega (arith, length-take length_basic input)))
      | inr q ↦
          let other = ==_false→≢ (length (take length_basic input)) length_basic q in
          rw (q, read_packet)
            (inr (refl, refl, short (omega (arith, other, length-take length_basic input))), refl)
    ]
read_packet-FoundIn (suc size) autosize input = (inl (omega arith, refl), refl)
