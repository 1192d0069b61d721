-- ===== src/PacketV2/Fill.antt =====
-- Filling in an object from a bit stream: the shape of the parser's `bitSource >> target.field`
-- chains, shared by the packet, its adaptation field and its clock references.
use streamserver_cvn.Prelude.{Bool, if◌then◌else◌}
use streamserver_cvn.Prelude.Outcome.{ok, err, M}
use streamserver_cvn.BitStream.{BitStream, Stream, Error, at_end, trailing_bits}

-- What is being filled in, beside the stream that it is read from.
pub record Cursor (P : Type 0) : Type 0 where
  pub bit_source : BitStream
  pub target : P

abbrev pub Fill : Type 0 → Type 0
Fill P = M Error (Cursor P) (Unit {0})

-- `bitSource >> target.field`: an exception leaves the field as it was.
unfoldable pub read : {A P : Type 0} → Stream A → (A → P → P) → Fill P
read m store c = elim (m c.bit_source) [
  | ok a s ↦ ok tt (record { bit_source = s; target = store a c.target })
  | err e s ↦ err e (record { bit_source = s; target = c.target })
]

-- `if (target.flag) ...`
unfoldable pub on : {P : Type 0} → (P → Bool) → Fill P → Fill P
on test m c = if test c.target then m c else ok tt c

-- An action that looks at what has been filled in so far.
unfoldable pub with : {P : Type 0} → (P → Fill P) → Fill P
with f c = f c.target c

unfoldable pub check : {P : Type 0} → (P → Bool) → Error → Fill P
check test e c = if test c.target then ok tt c else err e c

-- A field that is itself filled in piece by piece.
unfoldable pub inside : {P Q : Type 0} → (P → Q) → (Q → P → P) → Fill Q → Fill P
inside part put m c = elim (m (record { bit_source = c.bit_source; target = part c.target })) [
  | ok u d ↦ ok u (record { bit_source = d.bit_source; target = put d.target c.target })
  | err e d ↦ err e (record { bit_source = d.bit_source; target = put d.target c.target })
]

-- `if (!bitSource.atEnd()) throw ...`
unfoldable pub finish : {P : Type 0} → Fill P
finish c = if at_end c.bit_source then ok tt c else err trailing_bits c
