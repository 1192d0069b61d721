-- ===== src/Splitter/Stats.antt =====
-- ts-split/splitter.cpp: what counting a discontinuity segment leaves of a request for packets.
use streamserver_cvn.Prelude.{
  ℕ, ◌≡◌, refl, sym, ap, ◌∙◌, inl, inr, Bool, true, false, List, [], ◌∷◌, none, some, ◌==◌, arith,
  Bool-cases,
}
use streamserver_cvn.Splitter.{Length, no_length, in_packets, Output, Result, Splitter}
use streamserver_cvn.Splitter.Handlers.{
  find_result, add_segment, increase_stats, increase_discont_segment_stats,
}
use streamserver_cvn.Splitter.Window.{Phase, waiting, recording}
use streamserver_cvn.Splitter.Recorded.{has_one}

abbrev length_in : ℕ → List Result → Length ℕ
length_in f rs = elim (find_result f rs) [ none ↦ no_length | some r ↦ r.length ]

found_here :
    (f : ℕ) (r : Result) (rs : List Result)
    → (r.output_file == f) ≡ true
    → length_in f (r ∷ rs) ≡ r.length
unfolding find_result
found_here f r rs e = ground arith

found_later :
    (f : ℕ) (r : Result) (rs : List Result)
    → (r.output_file == f) ≡ false
    → length_in f (r ∷ rs) ≡ length_in f rs
unfolding find_result
found_later f r rs e = ground arith

-- Lengths that are not in segments are not changed by a discontinuity.
stats-length :
    (is_open : ℕ → Bool) (f : ℕ) (rs : List Result) (l : Length ℕ)
    → add_segment l ≡ l
    → length_in f rs ≡ l
    → length_in f (increase_stats is_open rs) ≡ l
unfolding increase_stats find_result
stats-length is_open f [] l a e = e
stats-length is_open f (r ∷ rs) l a e =
    let ih = stats-length is_open f rs l a in
    elim (Bool-cases (r.output_file == f)) [
      | inl q ↦
          let same : r.length ≡ l = sym (found_here f r rs q) ∙ e in
          elim (Bool-cases (is_open r.output_file)) [
            | inl o ↦ rw o (
                found_here f (record r { length = add_segment r.length })
                  (increase_stats is_open rs) q
                ∙ (ap add_segment same ∙ a))
            | inr o ↦ rw o (found_here f r (increase_stats is_open rs) q ∙ same)
          ]
      | inr q ↦
          let later : length_in f rs ≡ l = sym (found_later f r rs q) ∙ e in
          elim (Bool-cases (is_open r.output_file)) [
            | inl o ↦ rw o (
                found_later f (record r { length = add_segment r.length })
                  (increase_stats is_open rs) q
                ∙ ih later)
            | inr o ↦ rw o (found_later f r (increase_stats is_open rs) q ∙ ih later)
          ]
    ]

module _ (f m n : ℕ) where
  pub Phase-set :
      (k : ℕ) (s : Splitter) (rs : List Output) (next : ℕ)
      → Phase f m n k s
      → Phase f m n k (record s { output_requests = rs; next_file = next })
  Phase-set k s rs next (waiting a b c d e) = waiting a b c d e
  Phase-set k s rs next (recording c w can number positive small) =
      recording c w
        (record {
          known = can.known;
          counted = can.counted;
          opened = can.opened;
          writer = can.writer;
          plain = can.plain;
        })
        number positive small

  pub Phase-stats :
      (k : ℕ) (s : Splitter) → Phase f m n k s → Phase f m n k (increase_discont_segment_stats s)
  Phase-stats k s (waiting a b c d e) =
      waiting (stats-length s.is_open f s.output_results no_length refl a) b c d e
  Phase-stats k s (recording c w can number positive small) =
      let counted = stats-length s.is_open f s.output_results (in_packets c) refl can.counted in
      recording c w
        (record {
          known = has_one f c (increase_discont_segment_stats s) counted;
          counted = counted;
          opened = can.opened;
          writer = can.writer;
          plain = can.plain;
        })
        number positive small
