-- ===== src/Tests.antt =====
-- Tests on small inputs, and the theorems at concrete inputs.
mod Streams
mod Packets
mod Requests
mod Generated
mod Values
mod Reading
mod Splitting
mod Serving
use streamserver_cvn.Prelude.{ℕ, ◌≡◌, Bool, true, ◌&&◌, [], ◌∷◌, ltb, arith, All, Bytes, Bool-cases}
use streamserver_cvn.BitStream.Reading.{IsByte}

abbrev pub are_bytes : Bytes → Bool
are_bytes [] = true
are_bytes (c ∷ cs) = ltb c 256 && are_bytes cs

-- The bytes of a test are bytes, as a run of the test above says.
pub All-IsByte : (cs : Bytes) → are_bytes cs ≡ true → All IsByte cs
All-IsByte [] h = tt
All-IsByte (c ∷ cs) h = (ground arith, All-IsByte cs (ground arith))
