-- ===== src/Duration.antt =====
-- libinfra/humanreadable.cpp: `timeDuration` in its exact mode. The parts of the text are numbers with
-- their units, the largest unit first; the count is not negative.
use native.Mathlib.Nat.{div-add-mod, add-mul, mul_assoc, mul_comm, mod-lt}
use streamserver_cvn.Prelude.{
  ℕ, ◌+◌, ◌*◌, ◌/◌, ◌%◌, ◌<◌, ◌≡◌, refl, ap, ◌∙◌, inl, inr, List, [], ◌∷◌, ◌++◌, arith, ◌==◌,
  if◌then◌else◌, Bytes, Bool-cases, All,
}

pub data TimeUnit : Type 0 where
  ms s min h d : TimeUnit

pub record Part : Type 0 where
  pub count : ℕ
  pub unit : TimeUnit

abbrev part : ℕ → TimeUnit → Part
part n u = record { count = n; unit = u }

-- `units`: each unit with its size in units of the one before.
abbrev pub units : List (TimeUnit × ℕ)
units = (s, 1000) ∷ (min, 60) ∷ (h, 60) ∷ (d, 24) ∷ []

-- The loop over `units` and what follows it: `unit` counts units called `name`.
unfoldable pub split_units : ℕ → TimeUnit → List (TimeUnit × ℕ) → List Part → List Part
split_units unit name [] parts = if unit == 0 then parts else part unit name ∷ parts
split_units unit name ((next, size) ∷ us) parts =
    let new_parts = part (unit % size) name ∷ parts in
    let later = split_units (unit / size) next us new_parts in
    if unit / size == 0 then new_parts else later

abbrev pub time_duration : ℕ → List Part
time_duration msec = split_units msec ms units []

-- The text of the parts; `number` is the conversion of a number to text.
abbrev pub unit_text : TimeUnit → Bytes
unit_text ms = 109 ∷ 115 ∷ []
unit_text s = 115 ∷ []
unit_text min = 109 ∷ 105 ∷ 110 ∷ []
unit_text h = 104 ∷ []
unit_text d = 100 ∷ []

unfoldable pub text_of : (ℕ → Bytes) → List Part → Bytes
text_of number [] = []
text_of number (p ∷ []) = number p.count ++ unit_text p.unit
text_of number (p ∷ q ∷ ps) = (number p.count ++ unit_text p.unit) ++ 32 ∷ text_of number (q ∷ ps)

-- What the parts amount to, in milliseconds.
abbrev pub millis : TimeUnit → ℕ
millis ms = 1
millis s = 1000
millis min = 60000
millis h = 3600000
millis d = 86400000

unfoldable pub total : List Part → ℕ
total [] = 0
total (p ∷ ps) = p.count * millis p.unit + total ps

-- Each unit is as large as its size says.
abbrev IsChain : TimeUnit → List (TimeUnit × ℕ) → Type 0
IsChain name [] = Unit {0}
IsChain name ((next, size) ∷ us) = (millis next ≡ size * millis name) × IsChain next us

scaled :
    (unit size m rest : ℕ) → unit / size * (size * m) + (unit % size * m + rest) ≡ unit * m + rest
scaled unit size m rest = omega (
  arith,
  ap (λ z. z * m) (div-add-mod unit size),
  add-mul (size * (unit / size)) (unit % size) m,
  mul_assoc (unit / size) size m,
  ap (λ z. z * m) (mul_comm size (unit / size)),
)

total-split_units :
    (unit : ℕ) (name : TimeUnit) (us : List (TimeUnit × ℕ)) (parts : List Part)
    → IsChain name us
    → total (split_units unit name us parts) ≡ unit * millis name + total parts
unfolding split_units total
total-split_units unit name [] parts c = elim (Bool-cases (unit == 0)) [
  | inl e ↦ let none : unit ≡ 0 = ground arith in rw (e, none) (omega arith)
  | inr e ↦ rw e
]
total-split_units unit name ((next, size) ∷ us) parts c = elim (Bool-cases (unit / size == 0)) [
  | inl e ↦
      let none : unit / size ≡ 0 = ground arith in
      rw e (
        omega (
          arith,
          scaled unit size (millis name) (total parts),
          ap (λ q. q * (size * millis name)) none,
        ))
  | inr e ↦ rw e (
      total-split_units (unit / size) next us (part (unit % size) name ∷ parts) c.1
      ∙ rw c.0 (scaled unit size (millis name) (total parts)))
]

-- The parts of a duration amount to it.
pub total-time_duration : (msec : ℕ) → total (time_duration msec) ≡ msec
total-time_duration msec =
    total-split_units msec ms units [] (refl, (refl, (refl, (refl, tt))))
    ∙ unfold total in omega arith

-- A part is below the next unit's size; days have no limit.
abbrev pub InLimit : Part → Type 0
InLimit p = elim p.unit [
  | ms ↦ p.count < 1000
  | s ↦ p.count < 60
  | min ↦ p.count < 60
  | h ↦ p.count < 24
  | d ↦ Unit {0}
]

abbrev IsLimited : TimeUnit → List (TimeUnit × ℕ) → Type 0
IsLimited name [] = (n : ℕ) → InLimit (part n name)
IsLimited name ((next, size) ∷ us) =
    (0 < size) × (((n : ℕ) → n < size → InLimit (part n name)) × IsLimited next us)

split_units-InLimit :
    (unit : ℕ) (name : TimeUnit) (us : List (TimeUnit × ℕ)) (parts : List Part)
    → IsLimited name us
    → All InLimit parts
    → All InLimit (split_units unit name us parts)
unfolding split_units
split_units-InLimit unit name [] parts l a = elim (Bool-cases (unit == 0)) [
  | inl e ↦ rw e a
  | inr e ↦ rw e (l unit, a)
]
split_units-InLimit unit name ((next, size) ∷ us) parts l a =
    let first = l.1.0 (unit % size) (mod-lt unit l.0) in
    elim (Bool-cases (unit / size == 0)) [
      | inl e ↦ rw e (first, a)
      | inr e ↦ rw e (
          split_units-InLimit (unit / size) next us (part (unit % size) name ∷ parts) l.1.1
            (first, a))
    ]

-- In the text of a duration no part but the days reaches the size of the next unit: fewer than 1000
-- milliseconds, 60 seconds, 60 minutes and 24 hours.
pub time_duration-InLimit : (msec : ℕ) → All InLimit (time_duration msec)
time_duration-InLimit msec =
    split_units-InLimit msec ms units []
      (
        omega arith,
        (
          λ n l. l,
          (omega arith, (λ n l. l, (omega arith, (λ n l. l, (omega arith, (λ n l. l, λ n. tt)))))),
        ),
      )
      tt
