-- ===== src/Http/Finding.antt =====
-- `indexOf` finds the first place, within the bytes, and does not depend on bytes appended later.
use streamserver_cvn.Prelude.{
  ℕ, zero, suc, ◌+◌, ◌≤◌, ◌≡◌, ◌≢◌, refl, ap, ◌⊎◌, inl, inr, All, true, ◌&&◌, List, [], ◌∷◌, ◌++◌,
  Option, none, some, arith, ◌==◌, if◌then◌else◌, length, take, drop, Bytes, Bool-cases,
  Option-cases,
}
use streamserver_cvn.Http.Text.{index_of, starts_with}

starts_with-append :
    (n b m : Bytes) → length n ≤ length b → starts_with n (b ++ m) ≡ starts_with n b
unfolding starts_with
starts_with-append [] b m h = refl
starts_with-append (x ∷ n) [] m h = absurd (omega arith)
starts_with-append (x ∷ n) (c ∷ b) m h = ap (◌&&◌ (x == c)) (starts_with-append n b m (omega arith))

starts_with-le : (n b : Bytes) → starts_with n b ≡ true → length n ≤ length b
unfolding starts_with
starts_with-le [] b h = omega arith
starts_with-le (x ∷ n) [] h = cc
starts_with-le (x ∷ n) (c ∷ b) h = ground (arith, starts_with-le n b)

abbrev IsWithin : Bytes → Bytes → Option ℕ → Type 0
IsWithin n b none = Unit
IsWithin n b (some i) = i + length n ≤ length b

abbrev later : Option ℕ → Option ℕ
later none = none
later (some i) = some (suc i)

later-IsWithin :
    (n b : Bytes) (c : ℕ) (o : Option ℕ) → IsWithin n b o → IsWithin n (c ∷ b) (later o)
later-IsWithin n b c none h = tt
later-IsWithin n b c (some i) h = omega arith

index_of-cons :
    (n b : Bytes) (c : ℕ)
    → index_of n (c ∷ b) ≡ (if starts_with n (c ∷ b) then some 0 else later (index_of n b))
unfolding index_of
index_of-cons n b c = ground arith

index_of-IsWithin : (n b : Bytes) → IsWithin n b (index_of n b)
index_of-IsWithin n [] = elim (Bool-cases (starts_with n [])) [
  | inl e ↦ unfold index_of in rw e (omega (arith, starts_with-le n [] e))
  | inr e ↦ unfold index_of in rw e tt
]
index_of-IsWithin n (c ∷ b) = rw (index_of-cons n b c) (elim (Bool-cases (starts_with n (c ∷ b))) [
  | inl e ↦ rw e (omega (arith, starts_with-le n (c ∷ b) e))
  | inr e ↦ rw e (later-IsWithin n b c (index_of n b) (index_of-IsWithin n b))
])

pub index_of-le : (n b : Bytes) (i : ℕ) → index_of n b ≡ some i → i + length n ≤ length b
index_of-le n b i h = rw h at (index_of-IsWithin n b)

index_of-append_nil : (n m : Bytes) (i : ℕ) → index_of n [] ≡ some i → index_of n m ≡ some i
unfolding index_of starts_with
index_of-append_nil [] [] i h = h
index_of-append_nil [] (d ∷ m) i h = h
index_of-append_nil (x ∷ n) m i h = cc

pub index_of-append : (n b m : Bytes) (i : ℕ) → index_of n b ≡ some i → index_of n (b ++ m) ≡ some i
index_of-append n [] m i h = index_of-append_nil n m i h
index_of-append n (c ∷ b) m i h = elim (Bool-cases (starts_with n (c ∷ b))) [
  | inl e ↦
      let same = starts_with-append n (c ∷ b) m (starts_with-le n (c ∷ b) e) in
      rw (index_of-cons n (b ++ m) c, same, e) (rw (index_of-cons n b c, e) at h)
  | inr e ↦ elim (Option-cases (index_of n b)) [
    | inl o ↦ let none_found : none ≡ some i = rw (index_of-cons n b c, e, o) at h in cc
    | inr (j, o) ↦
        let same = starts_with-append n (c ∷ b) m (omega (arith, index_of-le n b j o)) in
        rw (index_of-cons n (b ++ m) c, same, e, index_of-append n b m j o)
          (rw (index_of-cons n b c, e, o) at h)
  ]
]

pub take-append_le :
    {A : Type 0} (n : ℕ) (xs ys : List A) → n ≤ length xs → take n (xs ++ ys) ≡ take n xs
take-append_le zero xs ys h = refl
take-append_le (suc n) [] ys h = absurd (omega arith)
take-append_le (suc n) (x ∷ xs) ys h = ap (◌∷◌ x) (take-append_le n xs ys (omega arith))

pub drop-append_le :
    {A : Type 0} (n : ℕ) (xs ys : List A) → n ≤ length xs → drop n (xs ++ ys) ≡ drop n xs ++ ys
drop-append_le zero xs ys h = refl
drop-append_le (suc n) [] ys h = absurd (omega arith)
drop-append_le (suc n) (x ∷ xs) ys h = drop-append_le n xs ys (omega arith)

abbrev pub IsOther : ℕ → ℕ → Type 0
IsOther b c = c ≢ b

-- A byte is not among others, or there is a first place, where it is found.
pub first_byte :
    (b : ℕ) (bytes : Bytes)
    → ((index_of (b ∷ []) bytes ≡ none) × All (IsOther b) bytes)
      ⊎ ((before behind : Bytes) × (index_of (b ∷ []) bytes ≡ some (length before))
          × (bytes ≡ before ++ b ∷ behind)
          × All (IsOther b) before)
unfolding index_of starts_with
first_byte b [] = inl (refl, tt)
first_byte b (c ∷ cs) = elim (Bool-cases (b == c)) [
  | inl q ↦ let e : c ≡ b = ground arith in inr ([], cs, rw (q, index_of, starts_with), rw e, tt)
  | inr q ↦
      let other : IsOther b c = ground arith in
      elim (first_byte b cs) [
        | inl (absent, free) ↦ inl (rw (q, absent), (other, free))
        | inr (before, behind, i, e, free) ↦
            inr (c ∷ before, behind, rw (q, i), rw e, (other, free))
      ]
]
