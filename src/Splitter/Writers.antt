-- ===== src/Splitter/Writers.antt =====
-- ts-split/splitter.cpp: every open file has a writer.
use streamserver_cvn.Prelude.{
  ℕ, ◌≡◌, ◌≢◌, inl, inr, Bool, true, false, not, Option, some, arith, if◌then◌else◌, Option-cases,
}
use streamserver_cvn.Prelude.Int.{ℤ}
use streamserver_cvn.Prelude.Outcome.{
  Outcome, ok, err, pure, throw, get, modify, guard, ◌>>=◌, ◌>>◌, Outcome-cases,
}
use streamserver_cvn.Reader.Device.{Position}
use streamserver_cvn.Writer.{Writer}
use streamserver_cvn.Splitter.{
  Start, no_start, at_offset, at_packet, at_segment, Length, no_length, in_bytes, in_packets,
  in_segments, len_bytes_or_default, len_packets_or_default, len_discont_segments_or_default,
  Output, Splitter, Stop, no_start_kind, no_length_kind, writer_missing, Handler, update,
}
use streamserver_cvn.Splitter.Handlers.{
  find_or_default_output_result, result_length, is_started, is_finished, compare_length, close,
  finish_file, finish_output_request, length_of,
}

-- The state that the source counts on: a file that is open has a writer.
abbrev pub HasWriters : Splitter → Type 0
HasWriters s = (f : ℕ) → s.is_open f ≡ true → (w : Writer) × (s.output_writers f ≡ some w)

-- A handler's end leaves every open file with a writer, and is not the error that one is missing.
abbrev pub IsSafe : {A : Type 0} → Outcome Stop Splitter A → Type 0
IsSafe (ok a s) = HasWriters s
IsSafe (err e s) = HasWriters s × (e ≢ writer_missing)

pub record Safe {A : Type 0} (m : Handler A) : Type 0 where
  pub safe : (s : Splitter) → HasWriters s → IsSafe (m s)

pub >>=-Safe :
    {A B : Type 0} (m : Handler A) (k : A → Handler B)
    → Safe m
    → ((a : A) → Safe (k a))
    → Safe (m >>= k)
>>=-Safe m k p q = record {
  safe = λ s h. elim (Outcome-cases (m s)) [
    | inl (a, t, e) ↦ rw (e, ◌>>=◌) ((q a).safe t (let z = p.safe s h in rw e at z))
    | inr (x, t, e) ↦ rw (e, ◌>>=◌) (let z = p.safe s h in rw e at z)
  ];
}

-- Code that leaves the files and the writers alone.
pub quiet-Safe :
    (g : Splitter → Splitter)
    → ((s : Splitter) → ((g s).is_open ≡ s.is_open) × ((g s).output_writers ≡ s.output_writers))
    → Safe (modify g)
quiet-Safe g same = record {
  safe = λ s h f o. let (a, b) = same s in rw b (h f (let z = o in rw a at z));
}

pub pure-Safe : {A : Type 0} (a : A) → Safe (pure {E = Stop} {S = Splitter} a)
pure-Safe a = record { safe = λ s h. h }

pub get-Safe : {A : Type 0} (g : Splitter → A) → Safe (get {E = Stop} g)
get-Safe g = record { safe = λ s h. h }

pub throw-Safe : {A : Type 0} (e : Stop) → e ≢ writer_missing → Safe (throw {A = A} e)
throw-Safe e n = record { safe = λ s h. (h, n) }

pub guard-Safe : (b : Bool) (e : Stop) → e ≢ writer_missing → Safe (guard b e)
guard-Safe true e n = record { safe = λ s h. h }
guard-Safe false e n = record { safe = λ s h. (h, n) }

pub find_or_default-Safe : (f : ℕ) → Safe (modify (find_or_default_output_result f))
find_or_default-Safe f =
    quiet-Safe (find_or_default_output_result f)
      (λ s. unfold find_or_default_output_result in ground arith)

pub result_length-Safe : (d : Length ℕ → Option (ℕ × Length ℕ)) (f : ℕ) → Safe (result_length d f)
unfolding result_length
result_length-Safe d f = record {
  safe = λ s h. elim (Option-cases (d (length_of f s))) [
    | inl e ↦ rw (e, result_length) (h, λ z. cc)
    | inr (p, e) ↦ rw (e, result_length) h
  ];
}

pub is_started-Safe : (x : Position) (st : Start) → Safe (is_started x st)
unfolding is_started
is_started-Safe x no_start = throw-Safe no_start_kind (λ z. cc)
is_started-Safe x (at_offset n) = pure-Safe _
is_started-Safe x (at_packet n) = pure-Safe _
is_started-Safe x (at_segment n) = pure-Safe _

pub is_finished-Safe : (f : ℕ) (l : Length ℤ) → Safe (is_finished f l)
unfolding is_finished
is_finished-Safe f no_length = throw-Safe no_length_kind (λ z. cc)
is_finished-Safe f (in_bytes m) =
    >>=-Safe (result_length len_bytes_or_default f) _ (result_length-Safe len_bytes_or_default f)
      (λ n. pure-Safe _)
is_finished-Safe f (in_packets m) =
    >>=-Safe (result_length len_packets_or_default f) _
      (result_length-Safe len_packets_or_default f) (λ n. pure-Safe _)
is_finished-Safe f (in_segments m) =
    >>=-Safe (result_length len_discont_segments_or_default f) _
      (result_length-Safe len_discont_segments_or_default f) (λ n. pure-Safe _)

pub compare_length-Safe : (f : ℕ) (l : Length ℤ) → Safe (compare_length f l)
unfolding compare_length
compare_length-Safe f no_length = pure-Safe tt
compare_length-Safe f (in_bytes m) =
    >>=-Safe (result_length len_bytes_or_default f) _ (result_length-Safe len_bytes_or_default f)
      (λ n. pure-Safe _)
compare_length-Safe f (in_packets m) =
    >>=-Safe (result_length len_packets_or_default f) _
      (result_length-Safe len_packets_or_default f) (λ n. pure-Safe _)
compare_length-Safe f (in_segments m) =
    >>=-Safe (result_length len_discont_segments_or_default f) _
      (result_length-Safe len_discont_segments_or_default f) (λ n. pure-Safe _)

pub close-Safe : (f : ℕ) → Safe (modify (close f))
close-Safe f = record { safe = λ s h g o. h g (still_open (s.is_open) f g o) }
  where
    still_open : (is_open : ℕ → Bool) (f g : ℕ) → update is_open f false g ≡ true → is_open g ≡ true
    still_open is_open f g o = ground arith

pub finish_file-Safe : (f : ℕ) (l : Length ℤ) → Safe (finish_file f l)
unfolding finish_file
finish_file-Safe f l = >>=-Safe (get λ (s : Splitter). s.is_open f) _ (get-Safe _) (λ b. part b)
  where
    part :
        (b : Bool)
        → Safe (
            if not b then pure tt else (do
              modify (find_or_default_output_result f)
              compare_length f l
              modify (close f)))
    part true =
        >>=-Safe (modify (find_or_default_output_result f)) _ (find_or_default-Safe f)
          (λ u. >>=-Safe (compare_length f l) _ (compare_length-Safe f l) (λ u. close-Safe f))
    part false = pure-Safe tt

pub finish_output_request-Safe : (r : Output) → Safe (finish_output_request r)
unfolding finish_output_request
finish_output_request-Safe r = elim (Option-cases r.output_file) [
  | inl e ↦ rw e (pure-Safe tt)
  | inr (f, e) ↦ rw e (finish_file-Safe f r.length)
]
