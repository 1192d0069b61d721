-- ===== src/Http/WhiteSpace.antt =====
-- streamserver-cvn-cli/http/httputil.cpp: `simplifiedLinearWhiteSpace`.
pub mod Runs
use streamserver_cvn.Prelude.{
  ℕ, ◌≡◌, ◌≢◌, refl, sym, ap, ◌∙◌, ◌⊎◌, inl, inr, Bool, true, false, ◌||◌, [], ◌∷◌, ◌++◌,
  append_assoc, append-nil, arith, ◌==◌, if◌then◌else◌, Bytes, All,
}
use streamserver_cvn.Http.Text.{cr, lf, sp, ht, same}

-- `dir`: whether a byte belongs to the text or to white-space, by what is pending in `lws`.
pub data Direction : Type 0 where
  ret lws : Direction

unfoldable pub is_empty : Bytes → Bool
is_empty [] = true
is_empty (c ∷ cs) = false

unfoldable pub direction : ℕ → Bytes → Direction
unfolding is_empty same
direction c pending =
    if c == cr
    then (if is_empty pending then Direction.lws else Direction.ret)
    else if c == lf
    then (if same pending (cr ∷ []) then Direction.lws else Direction.ret)
    else if c == sp || c == ht
    then Direction.lws
    else Direction.ret

-- What is appended for a byte of the text: a sequence of white-space inside it becomes one SP.
unfoldable pub separated : Bytes → Bytes → ℕ → Bytes
unfolding is_empty
separated out pending c =
    if is_empty out then c ∷ [] else if is_empty pending then out ++ c ∷ [] else out ++ sp ∷ c ∷ []

-- The loop, over `ret` and `lws`.
unfoldable pub simplify_from : Bytes → Bytes → Bytes → Bytes
simplify_from out pending [] = out
simplify_from out pending (c ∷ cs) = elim (direction c pending) [
  | Direction.ret ↦ simplify_from (separated out pending c) [] cs
  | Direction.lws ↦ simplify_from out (pending ++ c ∷ []) cs
]

unfoldable pub simplified_linear_white_space : Bytes → Bytes
unfolding simplify_from
simplified_linear_white_space bytes = simplify_from [] [] bytes

-- No tab, and a space only between two other bytes.
abbrev pub IsText : ℕ → Type 0
IsText c = (c ≢ sp) × (c ≢ ht)

pub data IsSimplified : Bytes → Type 0 where
  one : {c : ℕ} → IsText c → IsSimplified (c ∷ [])
  next : {c : ℕ} {cs : Bytes} → IsText c → IsSimplified cs → IsSimplified (c ∷ cs)
  spaced : {c : ℕ} {cs : Bytes} → IsText c → IsSimplified cs → IsSimplified (c ∷ sp ∷ cs)

snoc : {out : Bytes} (c : ℕ) → IsSimplified out → IsText c → IsSimplified (out ++ c ∷ [])
snoc c (one t) u = next t (one u)
snoc c (next t s) u = next t (snoc c s u)
snoc c (spaced t s) u = spaced t (snoc c s u)

snoc_spaced :
    {out : Bytes} (c : ℕ) → IsSimplified out → IsText c → IsSimplified (out ++ sp ∷ c ∷ [])
snoc_spaced c (one t) u = spaced t (one u)
snoc_spaced c (next t s) u = next t (snoc_spaced c s u)
snoc_spaced c (spaced t s) u = spaced t (snoc_spaced c s u)

-- What has been put out is simplified already.
abbrev Out : Bytes → Type 0
Out out = (out ≡ []) ⊎ IsSimplified out

separated-IsSimplified :
    (out pending : Bytes) (c : ℕ) → Out out → IsText c → IsSimplified (separated out pending c)
unfolding separated
separated-IsSimplified [] pending c o t = one t
separated-IsSimplified (b ∷ out) pending c (inl e) t = absurd (cc e)
separated-IsSimplified (b ∷ out) [] c (inr s) t = snoc c s t
separated-IsSimplified (b ∷ out) (w ∷ ws) c (inr s) t = snoc_spaced c s t

pub Direction-cases : (d : Direction) → (d ≡ Direction.ret) ⊎ (d ≡ Direction.lws)
Direction-cases Direction.ret = inl refl
Direction-cases Direction.lws = inr refl

direction-IsText : (c : ℕ) (pending : Bytes) → direction c pending ≡ Direction.ret → IsText c
unfolding direction
direction-IsText c pending h = (ground arith, ground arith)

simplify_from-IsSimplified : (cs out pending : Bytes) → Out out → Out (simplify_from out pending cs)
unfolding simplify_from
simplify_from-IsSimplified [] out pending o = o
simplify_from-IsSimplified (c ∷ cs) out pending o = elim (Direction-cases (direction c pending)) [
  | inl e ↦
      rw (e, simplify_from)
        (simplify_from-IsSimplified cs (separated out pending c) []
          (inr (separated-IsSimplified out pending c o (direction-IsText c pending e))))
  | inr e ↦ rw (e, simplify_from) (simplify_from-IsSimplified cs out (pending ++ c ∷ []) o)
]

-- Whatever comes in, the result holds no tab, and a space only between two other bytes; or it is
-- empty.
pub simplified_linear_white_space-IsSimplified :
    (bytes : Bytes)
    → (simplified_linear_white_space bytes ≡ [])
      ⊎ IsSimplified (simplified_linear_white_space bytes)
unfolding simplified_linear_white_space
simplified_linear_white_space-IsSimplified bytes = simplify_from-IsSimplified bytes [] [] (inl refl)

-- What is left of a text without its white-space.
abbrev is_white : ℕ → Bool
is_white c = c == cr || c == lf || c == sp || c == ht

pub visible : Bytes → Bytes
visible [] = []
visible (c ∷ cs) = if is_white c then visible cs else c ∷ visible cs

visible-append : (bs cs : Bytes) → visible (bs ++ cs) ≡ visible bs ++ visible cs
unfolding visible
visible-append [] cs = refl
visible-append (b ∷ bs) cs = ground (arith, visible-append bs cs)

visible-separated :
    (out pending : Bytes) (c : ℕ)
    → visible (separated out pending c) ≡ visible out ++ visible (c ∷ [])
unfolding separated visible
visible-separated [] pending c = refl
visible-separated (b ∷ out) [] c = visible-append (b ∷ out) (c ∷ [])
visible-separated (b ∷ out) (w ∷ ws) c = visible-append (b ∷ out) (sp ∷ c ∷ [])

direction_lws-is_white :
    (c : ℕ) (pending : Bytes) → direction c pending ≡ Direction.lws → is_white c ≡ true
unfolding direction
direction_lws-is_white c pending h = ground arith

visible-simplify_from :
    (cs out pending : Bytes) → visible (simplify_from out pending cs) ≡ visible out ++ visible cs
unfolding simplify_from visible
visible-simplify_from [] out pending = sym (append-nil (visible out))
visible-simplify_from (c ∷ cs) out pending = elim (Direction-cases (direction c pending)) [
  | inl e ↦
      rw (e, simplify_from)
        (visible-simplify_from cs (separated out pending c) []
          ∙ ap (λ v. v ++ visible cs) (visible-separated out pending c)
          ∙ append_assoc (visible out) (visible (c ∷ [])) (visible cs)
          ∙ ap (◌++◌ (visible out)) (sym (visible-append (c ∷ []) cs)))
  | inr e ↦
      rw (e, simplify_from)
        (visible-simplify_from cs out (pending ++ c ∷ [])
          ∙ ap (◌++◌ (visible out)) (rw (direction_lws-is_white c pending e)))
]

-- Nothing but white-space is dropped or added, and the order stays.
pub visible-simplified_linear_white_space :
    (bytes : Bytes) → visible (simplified_linear_white_space bytes) ≡ visible bytes
unfolding simplified_linear_white_space visible
visible-simplified_linear_white_space bytes = visible-simplify_from bytes [] []

abbrev pub IsPlain : ℕ → Type 0
IsPlain c = (c ≢ cr) × (c ≢ lf)

direction_plain :
    (c : ℕ) (pending : Bytes) → IsText c → IsPlain c → direction c pending ≡ Direction.ret
unfolding direction
direction_plain c pending t p = ground arith

simplify_text :
    (out pending : Bytes) (c : ℕ) (cs : Bytes)
    → IsText c
    → IsPlain c
    → simplify_from out pending (c ∷ cs) ≡ simplify_from (separated out pending c) [] cs
unfolding simplify_from
simplify_text out pending c cs t p = rw (direction_plain c pending t p, simplify_from)

simplify_space :
    (out pending cs : Bytes)
    → simplify_from out pending (sp ∷ cs) ≡ simplify_from out (pending ++ sp ∷ []) cs
unfolding simplify_from direction
simplify_space out pending cs = refl

simplify_end : (out pending : Bytes) → simplify_from out pending [] ≡ out
unfolding simplify_from
simplify_end out pending = refl

-- Behind other text, simplified text is appended as it is, with at most one space before it.
mutual
  unfolding separated

  simplify_next :
      {cs : Bytes} (out : Bytes) (b : ℕ)
      → IsSimplified cs
      → All IsPlain cs
      → simplify_from (b ∷ out) [] cs ≡ b ∷ out ++ cs
  simplify_next out b (one {c} t) p =
      simplify_text (b ∷ out) [] c [] t p.0 ∙ simplify_end (b ∷ out ++ c ∷ []) []
  simplify_next out b (next {c} {cs} t s) p =
      simplify_text (b ∷ out) [] c cs t p.0
      ∙ simplify_next (out ++ c ∷ []) b s p.1
      ∙ ap (◌∷◌ b) (append_assoc out (c ∷ []) cs)
  simplify_next out b (spaced {c} {cs} t s) p =
      simplify_text (b ∷ out) [] c (sp ∷ cs) t p.0
      ∙ simplify_space (b ∷ out ++ c ∷ []) [] cs
      ∙ simplify_gap (out ++ c ∷ []) b s p.1.1
      ∙ ap (◌∷◌ b) (append_assoc out (c ∷ []) (sp ∷ cs))

  simplify_gap :
      {cs : Bytes} (out : Bytes) (b : ℕ)
      → IsSimplified cs
      → All IsPlain cs
      → simplify_from (b ∷ out) (sp ∷ []) cs ≡ b ∷ out ++ sp ∷ cs
  simplify_gap out b (one {c} t) p =
      simplify_text (b ∷ out) (sp ∷ []) c [] t p.0 ∙ simplify_end (b ∷ out ++ sp ∷ c ∷ []) []
  simplify_gap out b (next {c} {cs} t s) p =
      simplify_text (b ∷ out) (sp ∷ []) c cs t p.0
      ∙ simplify_next (out ++ sp ∷ c ∷ []) b s p.1
      ∙ ap (◌∷◌ b) (append_assoc out (sp ∷ c ∷ []) cs)
  simplify_gap out b (spaced {c} {cs} t s) p =
      simplify_text (b ∷ out) (sp ∷ []) c (sp ∷ cs) t p.0
      ∙ simplify_space (b ∷ out ++ sp ∷ c ∷ []) [] cs
      ∙ simplify_gap (out ++ sp ∷ c ∷ []) b s p.1.1
      ∙ ap (◌∷◌ b) (append_assoc out (sp ∷ c ∷ []) (sp ∷ cs))

-- Simplified text with no CR and no LF in it is left as it is.
pub simplified_fixed :
    {cs : Bytes} → IsSimplified cs → All IsPlain cs → simplified_linear_white_space cs ≡ cs
unfolding simplified_linear_white_space separated
simplified_fixed (one {c} t) p = simplify_text [] [] c [] t p.0 ∙ simplify_end (c ∷ []) []
simplified_fixed (next {c} {cs} t s) p = simplify_text [] [] c cs t p.0 ∙ simplify_next [] c s p.1
simplified_fixed (spaced {c} {cs} t s) p =
    simplify_text [] [] c (sp ∷ cs) t p.0
    ∙ simplify_space (c ∷ []) [] cs
    ∙ simplify_gap [] c s p.1.1
