-- ===== src/Http/WhiteSpace/Runs.antt =====
-- `simplifiedLinearWhiteSpace`: the bytes as letters with runs of white-space between them.
use streamserver_cvn.Prelude.{
  ℕ, ◌≡◌, refl, sym, ap, ◌∙◌, subst, inl, inr, Bool, true, false, ◌&&◌, ◌||◌, [], ◌∷◌, ◌++◌,
  append_assoc, append-nil, arith, ◌==◌, if◌then◌else◌, Bytes,
}
use streamserver_cvn.Http.Text.{cr, lf, sp, ht, same}
use streamserver_cvn.Http.WhiteSpace.{
  Direction, Direction-cases, direction, separated, is_empty, simplify_from,
  simplified_linear_white_space,
}

-- A run of linear white-space: SP and HT, behind a CR with or without a LF, or behind neither.
pub is_blanks : Bytes → Bool
is_blanks [] = true
is_blanks (c ∷ cs) = (c == sp || c == ht) && is_blanks cs

pub is_behind_cr : Bytes → Bool
is_behind_cr [] = true
is_behind_cr (c ∷ cs) = if c == lf then is_blanks cs else is_blanks (c ∷ cs)

pub is_run : Bytes → Bool
is_run [] = true
is_run (c ∷ cs) = if c == cr then is_behind_cr cs else is_blanks (c ∷ cs)

-- What a run becomes between two letters.
abbrev pub gap : Bytes → Bytes
gap [] = []
gap (c ∷ cs) = sp ∷ []

-- What becomes of the bytes behind a letter: a run that nothing follows is dropped; the longest run in
-- front of another letter becomes one SP, if there is one. A byte that does not go on with a run is
-- a letter.
pub data Follows : Bytes → Bytes → Type 0 where
  run : (r : Bytes) → is_run r ≡ true → Follows r []
  letter :
      (r cs out : Bytes) (c : ℕ)
      → is_run r ≡ true
      → is_run (r ++ c ∷ []) ≡ false
      → Follows cs out
      → Follows (r ++ c ∷ cs) (gap r ++ c ∷ out)

-- What becomes of all bytes: a run in front of the first letter is dropped.
pub data IsSplit : Bytes → Bytes → Type 0 where
  only_run : (r : Bytes) → is_run r ≡ true → IsSplit r []
  first :
      (r cs out : Bytes) (c : ℕ)
      → is_run r ≡ true
      → is_run (r ++ c ∷ []) ≡ false
      → Follows cs out
      → IsSplit (r ++ c ∷ cs) (c ∷ out)

abbrev is_lws : Direction → Bool
is_lws Direction.lws = true
is_lws Direction.ret = false

is_blanks-snoc :
    (bs : Bytes) (c : ℕ) → is_blanks (bs ++ c ∷ []) ≡ (is_blanks bs && (c == sp || c == ht))
unfolding is_blanks
is_blanks-snoc [] c = ground arith
is_blanks-snoc (b ∷ bs) c = ground (arith, is_blanks-snoc bs c)

-- Whether a byte goes on with a run.
is_run-snoc : (r : Bytes) (c : ℕ) → is_run r ≡ true → is_run (r ++ c ∷ []) ≡ is_lws (direction c r)
unfolding is_run is_behind_cr is_blanks direction is_empty same
is_run-snoc [] c h = ground arith
is_run-snoc (a ∷ []) c h = ground arith
is_run-snoc (a ∷ b ∷ r) c h = ground (arith, is_blanks-snoc r c)

goes_on :
    (r : Bytes) (c : ℕ)
    → is_run r ≡ true
    → direction c r ≡ Direction.lws
    → is_run (r ++ c ∷ []) ≡ true
goes_on r c h d = is_run-snoc r c h ∙ ap is_lws d

stops :
    (r : Bytes) (c : ℕ)
    → is_run r ≡ true
    → direction c r ≡ Direction.ret
    → is_run (r ++ c ∷ []) ≡ false
stops r c h d = is_run-snoc r c h ∙ ap is_lws d

separated-gap :
    (b : ℕ) (out r : Bytes) (c : ℕ) → separated (b ∷ out) r c ≡ b ∷ out ++ (gap r ++ c ∷ [])
unfolding separated is_empty
separated-gap b out [] c = refl
separated-gap b out (w ∷ ws) c = refl

nil_run : is_run [] ≡ true
unfolding is_run
nil_run = refl

simplify_from-Follows :
    (cs : Bytes) (b : ℕ) (out r : Bytes)
    → is_run r ≡ true
    → (more : Bytes) × (simplify_from (b ∷ out) r cs ≡ b ∷ out ++ more) × Follows (r ++ cs) more
unfolding simplify_from
simplify_from-Follows [] b out r h =
    ([], sym (append-nil (b ∷ out)), subst (λ v. Follows v []) (sym (append-nil r)) (run r h))
simplify_from-Follows (c ∷ cs) b out r h = elim (Direction-cases (direction c r)) [
  | inl e ↦
      let (more, same, follows) =
        simplify_from-Follows cs b (out ++ (gap r ++ c ∷ [])) [] nil_run in
      (
        gap r ++ c ∷ more,
        rw (e, simplify_from, separated-gap b out r c)
            (same
              ∙ ap (◌∷◌ b) (
                  append_assoc out (gap r ++ c ∷ []) more
                  ∙ ap (◌++◌ out) (append_assoc (gap r) (c ∷ []) more))),
        letter r cs more c h (stops r c h e) follows,
      )
  | inr e ↦
      let (more, same, follows) = simplify_from-Follows cs b out (r ++ c ∷ []) (goes_on r c h e) in
      (
        more,
        rw (e, simplify_from) same,
        subst (λ v. Follows v more) (append_assoc r (c ∷ []) cs) follows,
      )
]

simplify_from-IsSplit : (cs r : Bytes) → is_run r ≡ true → IsSplit (r ++ cs) (simplify_from [] r cs)
unfolding simplify_from separated is_empty
simplify_from-IsSplit [] r h = subst (λ v. IsSplit v []) (sym (append-nil r)) (only_run r h)
simplify_from-IsSplit (c ∷ cs) r h = elim (Direction-cases (direction c r)) [
  | inl e ↦
      let (more, same, follows) = simplify_from-Follows cs c [] [] nil_run in
      rw (e, simplify_from) (rw same (first r cs more c h (stops r c h e) follows))
  | inr e ↦
      rw (e, simplify_from)
        (subst (λ v. IsSplit v (simplify_from [] (r ++ c ∷ []) cs)) (append_assoc r (c ∷ []) cs)
          (simplify_from-IsSplit cs (r ++ c ∷ []) (goes_on r c h e)))
]

-- Whatever comes in is taken apart into letters with the longest runs of linear white-space before,
-- between and behind them, where a run is an optional CR, or CR and LF, followed by any number of SP
-- and HT; what comes out is these letters, in order, with one SP for each run between two of them.
-- A CR or LF that does not go on with the run that it stands behind is a letter, and stays.
pub simplified_linear_white_space-IsSplit :
    (bytes : Bytes) → IsSplit bytes (simplified_linear_white_space bytes)
unfolding simplified_linear_white_space
simplified_linear_white_space-IsSplit bytes = simplify_from-IsSplit bytes [] nil_run
