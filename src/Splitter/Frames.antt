-- ===== src/Splitter/Frames.antt =====
-- ts-split/splitter.cpp: the handling of a request leaves alone what belongs to other files.
use streamserver_cvn.Prelude.{
  ℕ, ◌≡◌, ◌≢◌, refl, ◌∙◌, inl, inr, Bool, true, false, List, [], ◌∷◌, ◌++◌, none, some, arith,
}
use streamserver_cvn.Prelude.Outcome.{Outcome, ok, err, pure, modify, guard, ◌>>=◌, Outcome-cases}
use streamserver_cvn.Splitter.{Length, Result, Splitter, Stop, Handler}
use streamserver_cvn.Splitter.Handlers.{find_result, set_length, length_of}

pub find_result-set_ne :
    (f g : ℕ) (l : Length ℕ) (rs : List Result)
    → g ≢ f
    → find_result f (set_length g l rs) ≡ find_result f rs
unfolding find_result set_length
find_result-set_ne f g l [] n = refl
find_result-set_ne f g l (r ∷ rs) n = ground (arith, find_result-set_ne f g l rs)

pub find_result-set_self :
    (f : ℕ) (l : Length ℕ) (rs : List Result) (r : Result)
    → find_result f rs ≡ some r
    → find_result f (set_length f l rs) ≡ some (record r { length = l })
unfolding find_result set_length
find_result-set_self f l [] r e = cc
find_result-set_self f l (q ∷ rs) r e = ground (arith, find_result-set_self f l rs r)

pub find_result-append :
    (f : ℕ) (rs : List Result) (r : Result)
    → find_result f rs ≡ none
    → find_result f (rs ++ r ∷ []) ≡ find_result f (r ∷ [])
unfolding find_result
find_result-append f [] r e = refl
find_result-append f (q ∷ rs) r e = ground (arith, find_result-append f rs r)

pub find_result-append_ne :
    (f : ℕ) (rs : List Result) (r : Result)
    → r.output_file ≢ f
    → find_result f (rs ++ r ∷ []) ≡ find_result f rs
unfolding find_result
find_result-append_ne f [] r n = ground arith
find_result-append_ne f (q ∷ rs) r n = ground (arith, find_result-append_ne f rs r)

-- The two states agree on all that belongs to the file, and have the same requests.
pub record Same (f : ℕ) (s t : Splitter) : Type 0 where
  pub length : length_of f t ≡ length_of f s
  pub is_open : t.is_open f ≡ s.is_open f
  pub exists : t.exists f ≡ s.exists f
  pub writer : t.output_writers f ≡ s.output_writers f
  pub requests : t.output_requests ≡ s.output_requests
  pub next_file : t.next_file ≡ s.next_file

pub Same-trans : {f : ℕ} {s t u : Splitter} → Same f s t → Same f t u → Same f s u
Same-trans a b = record {
  length = b.length ∙ a.length;
  is_open = b.is_open ∙ a.is_open;
  exists = b.exists ∙ a.exists;
  writer = b.writer ∙ a.writer;
  requests = b.requests ∙ a.requests;
  next_file = b.next_file ∙ a.next_file;
}

pub Same-refl : (f : ℕ) (s : Splitter) → Same f s s
Same-refl f s = record {
  length = refl;
  is_open = refl;
  exists = refl;
  writer = refl;
  requests = refl;
  next_file = refl;
}

abbrev pub SameIn : {A : Type 0} → ℕ → Splitter → Outcome Stop Splitter A → Type 0
SameIn f s (ok a t) = Same f s t
SameIn f s (err e t) = Unit {0}

pub record Frame {A : Type 0} (f : ℕ) (m : Handler A) : Type 0 where
  pub frame : (s : Splitter) → SameIn f s (m s)

pub Frame-ok :
    {A : Type 0} {f : ℕ} (m : Handler A) {s t : Splitter} {a : A}
    → Frame f m
    → m s ≡ ok a t
    → Same f s t
Frame-ok m {s} p e = let z = p.frame s in rw e at z

pub >>=-Frame :
    {A B : Type 0} {f : ℕ} (m : Handler A) (k : A → Handler B)
    → Frame f m
    → ((a : A) → Frame f (k a))
    → Frame f (m >>= k)
>>=-Frame {f = f} m k p q = record {
  frame = λ s. elim (Outcome-cases (m s)) [
    | inr (x, t, e) ↦ rw (e, ◌>>=◌) tt
    | inl (a, t, e) ↦
        let first = Frame-ok m p e in
        rw (e, ◌>>=◌)
          (elim (Outcome-cases (k a t)) [
            | inl (b, u, d) ↦ rw d (Same-trans first (Frame-ok (k a) (q a) d))
            | inr (x, u, d) ↦ rw d tt
          ])
  ];
}

pub pure-Frame : {A : Type 0} (f : ℕ) (a : A) → Frame f (pure {E = Stop} {S = Splitter} a)
pure-Frame f a = record { frame = λ s. Same-refl f s }

pub modify-Frame :
    (f : ℕ) (g : Splitter → Splitter) → ((s : Splitter) → Same f s (g s)) → Frame f (modify g)
modify-Frame f g h = record { frame = h }

pub guard-Frame : (f : ℕ) (b : Bool) (e : Stop) → Frame f (guard b e)
guard-Frame f true e = record { frame = λ s. Same-refl f s }
guard-Frame f false e = record { frame = λ s. tt }
