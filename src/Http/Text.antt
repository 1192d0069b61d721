-- ===== src/Http/Text.antt =====
-- The `QByteArray` operations that the HTTP code uses, over lists of bytes.
use Prim.Native.Char.{code}
use Prim.Native.String.{String}
use streamserver_cvn.Prelude.{
  ℕ, suc, ◌+◌, Bool, true, false, ◌&&◌, ◌||◌, not, [], ◌∷◌, Option, none, some, ◌==◌, leb,
  if◌then◌else◌, Bytes,
}

-- The bytes of an ASCII text.
abbrev pub ascii : String → Bytes
ascii String.[] = []
ascii (String.◌∷◌ c s) = code c ∷ ascii s

abbrev pub cr : ℕ
cr = 13

abbrev pub lf : ℕ
lf = 10

abbrev pub sp : ℕ
sp = 32

abbrev pub ht : ℕ
ht = 9

-- `a == b`.
unfoldable pub same : Bytes → Bytes → Bool
same [] [] = true
same (a ∷ as') (b ∷ bs) = a == b && same as' bs
same _ _ = false

unfoldable pub starts_with : Bytes → Bytes → Bool
starts_with [] bytes = true
starts_with (p ∷ ps) [] = false
starts_with (p ∷ ps) (b ∷ bs) = p == b && starts_with ps bs

-- `indexOf(needle)`; -1 is `none`.
unfoldable pub index_of : Bytes → Bytes → Option ℕ
unfolding starts_with
index_of needle [] = if starts_with needle [] then some 0 else none
index_of needle (b ∷ bs) =
    let later = index_of needle bs in
    if starts_with needle (b ∷ bs)
    then some 0
    else elim later [ none ↦ none | some i ↦ some (suc i) ]

abbrev pub is_upper : ℕ → Bool
is_upper c = (leb 65 c && leb c 90) || (leb 192 c && leb c 222 && not (c == 215))

-- `toLower()` of a byte array, whose letters are those of Latin-1.
unfoldable pub to_lower : Bytes → Bytes
to_lower [] = []
to_lower (c ∷ cs) = (if is_upper c then c + 32 else c) ∷ to_lower cs
