-- ===== src/Prelude/Outcome.antt =====
-- Code that can throw over a mutable state: the state at the throw is kept, since callers can
-- see what was written before it.
use mathlib.Core.Path.{◌≡◌, refl}
use mathlib.Core.Logic.{◌⊎◌, inl, inr}
use mathlib.Core.Bool.{Bool, true, false}

pub data Outcome (E S A : Type 0) : Type 0 where
  ok : A → S → Outcome E S A
  err : E → S → Outcome E S A

abbrev pub M : Type 0 → Type 0 → Type 0 → Type 0
M E S A = S → Outcome E S A

abbrev pub pure : {E S A : Type 0} → A → M E S A
pure a s = ok a s

abbrev pub throw : {E S A : Type 0} → E → M E S A
throw e s = err e s

abbrev pub get : {E S A : Type 0} → (S → A) → M E S A
get f s = ok (f s) s

abbrev pub modify : {E S : Type 0} → (S → S) → M E S (Unit {0})
modify f s = ok tt (f s)

infixl 5 ◌>>=◌ ◌>>◌
abbrev pub ◌>>=◌ : {E S A B : Type 0} → M E S A → (A → M E S B) → M E S B
◌>>=◌ m f s = elim (m s) [ ok a s' ↦ f a s' | err e s' ↦ err e s' ]

abbrev pub ◌>>◌ : {E S B : Type 0} → M E S (Unit {0}) → M E S B → M E S B
m >> k = m >>= λ _. k

-- `if (!(test)) throw ...`
abbrev pub guard : {E S : Type 0} → Bool → E → M E S (Unit {0})
guard true e s = ok tt s
guard false e s = err e s

-- `if (test) ...`
abbrev pub when : {E S : Type 0} → Bool → M E S (Unit {0}) → M E S (Unit {0})
when true m s = m s
when false m s = ok tt s

pub >>=-ok :
    {E S A B : Type 0} (m : M E S A) (f : A → M E S B) {s t : S} {a : A}
    → m s ≡ ok a t
    → (m >>= f) s ≡ f a t
>>=-ok m f e = rw (e, ◌>>=◌)

pub >>-ok :
    {E S B : Type 0} (m : M E S (Unit {0})) (k : M E S B) {s t : S}
    → m s ≡ ok tt t
    → (m >> k) s ≡ k t
>>-ok m k e = rw (e, ◌>>=◌)

pub >>=-err :
    {E S A B : Type 0} (m : M E S A) (f : A → M E S B) {s t : S} {e : E}
    → m s ≡ err e t
    → (m >>= f) s ≡ err e t
>>=-err m f p = rw (p, ◌>>=◌)

pub Outcome-cases :
    {E S A : Type 0} (o : Outcome E S A)
    → ((a : A) × (s : S) × (o ≡ ok a s)) ⊎ ((e : E) × (s : S) × (o ≡ err e s))
Outcome-cases (ok a s) = inl (a, s, refl)
Outcome-cases (err e s) = inr (e, s, refl)
