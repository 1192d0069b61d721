-- ===== src/Splitter/Ending.antt =====
-- ts-split/splitter.cpp: the end of the input closes files, and writes nothing to them.
use streamserver_cvn.Prelude.{
  ℕ, ◌≡◌, refl, ◌∙◌, inl, inr, Bool, true, false, not, List, [], ◌∷◌, Option, if◌then◌else◌,
  Option-cases,
}
use streamserver_cvn.Prelude.Int.{ℤ}
use streamserver_cvn.Prelude.Outcome.{
  Outcome, ok, err, pure, get, modify, ◌>>=◌, ◌>>◌, Outcome-cases,
}
use streamserver_cvn.Splitter.{
  Length, no_length, in_bytes, in_packets, in_segments, len_bytes_or_default,
  len_packets_or_default, len_discont_segments_or_default, Output, Splitter, Stop, Handler,
}
use streamserver_cvn.Splitter.Handlers.{
  find_or_default_output_result, find_result, length_of, result_length, compare_length, close,
  finish_file, finish_output_request, increase_discont_segment_stats, finish_requests,
  handle_eof_encountered,
}

abbrev WritersIn : {A : Type 0} → Splitter → Outcome Stop Splitter A → Type 0
WritersIn s (ok a t) = t.output_writers ≡ s.output_writers
WritersIn s (err e t) = Unit {0}

-- Code that leaves the writers alone, if it does not throw.
record Leaves {A : Type 0} (h : Handler A) : Type 0 where
  leaves : (s : Splitter) → WritersIn s (h s)

Leaves-ok :
    {A : Type 0} (h : Handler A) {s t : Splitter} {a : A}
    → Leaves h
    → h s ≡ ok a t
    → t.output_writers ≡ s.output_writers
Leaves-ok h {s} p e = let z = p.leaves s in rw e at z

>>=-Leaves :
    {A B : Type 0} (h : Handler A) (g : A → Handler B)
    → Leaves h
    → ((a : A) → Leaves (g a))
    → Leaves (h >>= g)
>>=-Leaves h g p q = record {
  leaves = λ s. elim (Outcome-cases (h s)) [
    | inr (x, t, e) ↦ rw (e, ◌>>=◌) tt
    | inl (a, t, e) ↦
        rw (e, ◌>>=◌)
          (elim (Outcome-cases (g a t)) [
            | inl (b, u, d) ↦ rw d (Leaves-ok (g a) (q a) d ∙ Leaves-ok h p e)
            | inr (x, u, d) ↦ rw d tt
          ])
  ];
}

modify-Leaves :
    (g : Splitter → Splitter)
    → ((s : Splitter) → (g s).output_writers ≡ s.output_writers)
    → Leaves (modify g)
modify-Leaves g h = record { leaves = h }

result_length-Leaves :
    (or_default : Length ℕ → Option (ℕ × Length ℕ)) (f : ℕ) → Leaves (result_length or_default f)
unfolding result_length
result_length-Leaves or_default f = record {
  leaves = λ s. elim (Option-cases (or_default (length_of f s))) [
    | inl e ↦ rw (e, result_length) tt
    | inr (n, e) ↦ rw (e, result_length) refl
  ];
}

compare_length-Leaves : (f : ℕ) (l : Length ℤ) → Leaves (compare_length f l)
unfolding compare_length
compare_length-Leaves f no_length = record { leaves = λ s. refl }
compare_length-Leaves f (in_bytes m) =
    >>=-Leaves (result_length len_bytes_or_default f) _
      (result_length-Leaves len_bytes_or_default f) (λ n. record { leaves = λ s. refl })
compare_length-Leaves f (in_packets m) =
    >>=-Leaves (result_length len_packets_or_default f) _
      (result_length-Leaves len_packets_or_default f) (λ n. record { leaves = λ s. refl })
compare_length-Leaves f (in_segments m) =
    >>=-Leaves (result_length len_discont_segments_or_default f) _
      (result_length-Leaves len_discont_segments_or_default f) (λ n. record { leaves = λ s. refl })

find_or_default-writers :
    (f : ℕ) (s : Splitter) → (find_or_default_output_result f s).output_writers ≡ s.output_writers
unfolding find_or_default_output_result
find_or_default-writers f s = elim (Option-cases (find_result f s.output_results)) [
  | inl e ↦ rw (e, find_or_default_output_result)
  | inr (r, e) ↦ rw (e, find_or_default_output_result)
]

finish_file-Leaves : (f : ℕ) (l : Length ℤ) → Leaves (finish_file f l)
unfolding finish_file
finish_file-Leaves f l =
    >>=-Leaves (get λ (s : Splitter). s.is_open f) _ (record { leaves = λ s. refl }) when_open
  where
    finishing :
        Leaves
          (modify (find_or_default_output_result f) >> (compare_length f l >> modify (close f)))
    finishing =
        >>=-Leaves (modify (find_or_default_output_result f)) _
          (modify-Leaves (find_or_default_output_result f) (find_or_default-writers f))
          (λ u.
            >>=-Leaves (compare_length f l) _ (compare_length-Leaves f l)
              (λ v. modify-Leaves (close f) (λ s. refl)))

    when_open :
        (opened : Bool)
        → Leaves (
            if not opened
            then pure tt
            else modify (find_or_default_output_result f)
              >> (compare_length f l >> modify (close f)))
    when_open false = record { leaves = λ s. refl }
    when_open true = finishing

finish_output_request-Leaves : (r : Output) → Leaves (finish_output_request r)
unfolding finish_output_request
finish_output_request-Leaves r = elim (Option-cases r.output_file) [
  | inl e ↦ rw e (record { leaves = λ s. refl })
  | inr (f, e) ↦ rw e (finish_file-Leaves f r.length)
]

finish_requests-Leaves : (rs : List Output) → Leaves (finish_requests rs)
unfolding finish_requests
finish_requests-Leaves [] = record { leaves = λ s. refl }
finish_requests-Leaves (r ∷ rs) =
    >>=-Leaves (finish_output_request r) _ (finish_output_request-Leaves r)
      (λ u. finish_requests-Leaves rs)

handle_eof-Leaves : Leaves handle_eof_encountered
unfolding handle_eof_encountered
handle_eof-Leaves =
    >>=-Leaves (modify increase_discont_segment_stats) _
      (modify-Leaves increase_discont_segment_stats (λ s. refl))
      (λ u.
        >>=-Leaves (get λ (s : Splitter). s.output_requests) _ (record { leaves = λ s. refl })
          (λ rs.
            >>=-Leaves (finish_requests rs) _ (finish_requests-Leaves rs)
              (λ v. modify-Leaves (λ s. record s { output_requests = [] }) (λ s. refl))))

pub eof_writers :
    (s t : Splitter) → handle_eof_encountered s ≡ ok tt t → t.output_writers ≡ s.output_writers
eof_writers s t e = Leaves-ok handle_eof_encountered handle_eof-Leaves e
