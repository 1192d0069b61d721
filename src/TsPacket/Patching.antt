-- ===== src/TsPacket/Patching.antt =====
-- Changing the byte with the flags: the steps of the parser behind it do not look at that byte, so
-- each of them does the same on a field in which it, and the flag, are changed.
use streamserver_cvn.Prelude.{
  ℕ, zero, suc, ◌+◌, ◌≤◌, ◌≡◌, refl, ap, ◌∙◌, subst, inl, inr, Bool, true, false, [], ◌∷◌, Option,
  none, some, arith, ltb, leb, length-set, get_or, set, take, drop, Bytes, Bool-cases,
}
use streamserver_cvn.Prelude.Outcome.{
  Outcome, ok, err, throw, get, modify, guard, when, ◌>>=◌, >>=-ok, >>=-err, Outcome-cases,
}
use streamserver_cvn.TsPacket.{
  Clock, clock_of, length_pcr, FieldError, bad_clock, start_past_end, end_past_end, AdaptationField,
}
use streamserver_cvn.TsPacket.Parser.{
  mid, FieldState, ParseField, size, on_field, check_start, check_end, advance, take_byte,
  parse_pcr, parse_splice, parse_private_data, parse_extension, parse_options,
}

get_or-set : (xs : Bytes) (i x : ℕ) → 2 ≤ i → get_or (set xs 1 x) i 0 ≡ get_or xs i 0
get_or-set [] i x h = refl
get_or-set (a ∷ []) i x h = refl
get_or-set (a ∷ b ∷ xs) zero x h = absurd (omega arith)
get_or-set (a ∷ b ∷ xs) (suc zero) x h = absurd (omega arith)
get_or-set (a ∷ b ∷ xs) (suc (suc i)) x h = refl

drop-set : (xs : Bytes) (i x : ℕ) → 2 ≤ i → drop i (set xs 1 x) ≡ drop i xs
drop-set [] i x h = refl
drop-set (a ∷ []) i x h = refl
drop-set (a ∷ b ∷ xs) zero x h = absurd (omega arith)
drop-set (a ∷ b ∷ xs) (suc zero) x h = absurd (omega arith)
drop-set (a ∷ b ∷ xs) (suc (suc i)) x h = refl

module _ (x : ℕ) (d : Bool) where
  abbrev pub patch_field : AdaptationField → AdaptationField
  patch_field f = record f { bytes = set f.bytes 1 x; discontinuity_indicator = d }

  abbrev pub patch : FieldState → FieldState
  patch s = record s { field = patch_field s.field }

  abbrev pub patched :
      {A : Type 0} → Outcome FieldError FieldState A → Outcome FieldError FieldState A
  patched (ok a s) = ok a (patch s)
  patched (err e s) = err e (patch s)

  -- Behind a step the index is still behind the flags, and the bytes are what they were.
  abbrev pub Keeps : {A : Type 0} → Bytes → Outcome FieldError FieldState A → Type 0
  Keeps bytes (ok a t) = (2 ≤ t.index) × (t.field.bytes ≡ bytes)
  Keeps bytes (err e t) = t.field.bytes ≡ bytes

  pub record Commutes {A : Type 0} (m : ParseField A) : Type 0 where
    pub run :
        (s : FieldState) → 2 ≤ s.index → (m (patch s) ≡ patched (m s)) × Keeps s.field.bytes (m s)

  bind_run :
      {A B : Type 0} (m : ParseField A) (f : A → ParseField B) (s : FieldState)
      → 2 ≤ s.index
      → Commutes m
      → ((a : A) → Commutes (f a))
      → ((m >>= f) (patch s) ≡ patched ((m >>= f) s)) × Keeps s.field.bytes ((m >>= f) s)
  bind_run m f s h c k = elim (Outcome-cases (m s)) [
    | inl (a, t, e) ↦
        let (p, q) = rw e at (c.run s h) in
        let (p', q') = (k a).run t q.0 in
        rw (e, ◌>>=◌) (>>=-ok m f p ∙ p', subst (λ b. Keeps b (f a t)) q.1 q')
    | inr (e', t, e) ↦ let (p, q) = rw e at (c.run s h) in rw (e, ◌>>=◌) (>>=-err m f p, q)
  ]

  bind-Commutes :
      {A B : Type 0} {m : ParseField A} {f : A → ParseField B}
      → Commutes m
      → ((a : A) → Commutes (f a))
      → Commutes (m >>= f)
  bind-Commutes {m = m} {f = f} c k = record { run = λ s h. bind_run m f s h c k }

  index-Commutes :
      {B : Type 0} {f : ℕ → ParseField B}
      → ((i : ℕ) → 2 ≤ i → Commutes (f i))
      → Commutes (get (λ s. s.index) >>= f)
  index-Commutes k = record { run = λ s h. (k s.index h).run s h }

  guard-Commutes :
      (test : ℕ → ℕ → Bool) (e : FieldError) → Commutes (λ s. guard (test s.index (size s)) e s)
  guard-Commutes test e = record {
    run = λ s h. elim (Bool-cases (test s.index (size s))) [
      | inl b ↦ rw (length-set s.field.bytes 1 x, b) (refl, (h, refl))
      | inr b ↦ rw (length-set s.field.bytes 1 x, b) (refl, refl)
    ];
  }

  advance-Commutes : (n : ℕ) → Commutes (advance n)
  advance-Commutes n = record { run = λ s h. (refl, (omega arith, refl)) }

  take_byte-Commutes : Commutes take_byte
  take_byte-Commutes = record {
    run = λ s h. rw (get_or-set s.field.bytes s.index x h) (refl, (omega arith, refl));
  }

  on_field-Commutes :
      (f : AdaptationField → AdaptationField)
      → ((g : AdaptationField) → f (patch_field g) ≡ patch_field (f g))
      → ((g : AdaptationField) → (f g).bytes ≡ g.bytes)
      → Commutes (on_field f)
  on_field-Commutes f same keep = record {
    run = λ s h. (ap (λ g. ok tt (record s { field = g })) (same s.field), (h, keep s.field));
  }

  when-Commutes : (b : Bool) {m : ParseField (Unit {0})} → Commutes m → Commutes (when b m)
  when-Commutes true c = record { run = c.run }
  when-Commutes false c = record { run = λ s h. (refl, (h, refl)) }

  check_start-Commutes : Commutes check_start
  check_start-Commutes = guard-Commutes ltb start_past_end

  check_end-Commutes : Commutes check_end
  check_end-Commutes = guard-Commutes leb end_past_end

  parse_splice-Commutes : Commutes parse_splice
  unfolding parse_splice
  parse_splice-Commutes = bind-Commutes check_start-Commutes λ u.
      bind-Commutes take_byte-Commutes λ byte.
        on_field-Commutes (λ f. record f { splice_countdown = byte; splice_countdown_valid = true })
          (λ g. refl) (λ g. refl)

  mid-set :
      (start n : ℕ) (bytes : Bytes) → 2 ≤ start → mid start n (set bytes 1 x) ≡ mid start n bytes
  mid-set start n bytes h = ap (take n) (drop-set bytes start x h)

  parse_private_data-Commutes : Commutes parse_private_data
  unfolding parse_private_data
  parse_private_data-Commutes = bind-Commutes check_start-Commutes λ u. index-Commutes λ start h.
      bind-Commutes take_byte-Commutes λ len.
        bind-Commutes
          (on_field-Commutes
            (λ f. record f {
              transport_private_data_index = start;
              transport_private_data_length = len;
              transport_private_data = mid start (1 + len) f.bytes;
            })
            (λ g. rw (mid-set start (1 + len) g.bytes h)) (λ g. refl))
          λ v. bind-Commutes (advance-Commutes len) λ w. bind-Commutes check_end-Commutes λ z.
            on_field-Commutes (λ f. record f { transport_private_data_valid = true }) (λ g. refl)
              (λ g. refl)

  parse_extension-Commutes : Commutes parse_extension
  unfolding parse_extension
  parse_extension-Commutes = bind-Commutes check_start-Commutes λ u. index-Commutes λ start h.
      bind-Commutes take_byte-Commutes λ len.
        bind-Commutes
          (on_field-Commutes
            (λ f. record f {
              extension_index = start;
              extension_length = len;
              extension_bytes = mid start (1 + len) f.bytes;
            })
            (λ g. rw (mid-set start (1 + len) g.bytes h)) (λ g. refl))
          λ v. bind-Commutes (advance-Commutes len) λ w. bind-Commutes check_end-Commutes λ z.
            on_field-Commutes (λ f. record f { extension_valid = true }) (λ g. refl) (λ g. refl)

  -- What `parsePCR` does with what it has found.
  abbrev store : (Clock → AdaptationField → AdaptationField) → Option Clock → ParseField (Unit {0})
  store put found = elim found [ none ↦ throw bad_clock | some c ↦ on_field (put c) ]

  abbrev Unaware : (Clock → AdaptationField → AdaptationField) → Type 0
  Unaware put =
      (c : Clock) (g : AdaptationField)
      → (put c (patch_field g) ≡ patch_field (put c g)) × ((put c g).bytes ≡ g.bytes)

  store-Commutes :
      (put : Clock → AdaptationField → AdaptationField) (found : Option Clock)
      → Unaware put
      → Commutes (store put found)
  store-Commutes put none u = record { run = λ s h. (refl, refl) }
  store-Commutes put (some c) u = record {
    run = (on_field-Commutes (put c) (λ g. (u c g).0) (λ g. (u c g).1)).run;
  }

  found-Commutes :
      (put : Clock → AdaptationField → AdaptationField) (start : ℕ)
      → 2 ≤ start
      → Unaware put
      → Commutes (get (λ s. clock_of (mid start length_pcr s.field.bytes)) >>= store put)
  found-Commutes put start h u = record {
    run = λ s k.
        rw (mid-set start length_pcr s.field.bytes h)
          ((store-Commutes put (clock_of (mid start length_pcr s.field.bytes)) u).run s k);
  }

  parse_pcr-Commutes :
      (put : Clock → AdaptationField → AdaptationField) → Unaware put → Commutes (parse_pcr put)
  unfolding parse_pcr
  parse_pcr-Commutes put u = index-Commutes λ start h. bind-Commutes check_start-Commutes λ v.
      bind-Commutes (advance-Commutes length_pcr)
        λ w. bind-Commutes check_end-Commutes λ z. found-Commutes put start h u

  stuffing-Commutes : Commutes (
      modify λ s. record s {
        field = record s.field {
          stuffing_index = s.index;
          stuffing_bytes = drop s.index s.field.bytes;
        };
      })
  stuffing-Commutes = record {
    run = λ s h. rw (drop-set s.field.bytes s.index x h) (refl, (h, refl));
  }

  -- All that follows the flags.
  pub parse_options-Commutes : Commutes parse_options
  unfolding parse_options
  parse_options-Commutes = record {
    run = λ s h.
        (bind-Commutes
            (when-Commutes s.field.pcr_flag
              (parse_pcr-Commutes (λ c g. record g { pcr = some c }) (λ c g. (refl, refl))))
            λ u.
              bind-Commutes
                (when-Commutes s.field.opcr_flag
                  (parse_pcr-Commutes (λ c g. record g { opcr = some c }) (λ c g. (refl, refl))))
                λ v.
                  bind-Commutes (when-Commutes s.field.splicing_point_flag parse_splice-Commutes)
                    λ w.
                      bind-Commutes
                        (when-Commutes s.field.transport_private_data_flag
                          parse_private_data-Commutes)
                        λ y.
                          bind-Commutes
                            (when-Commutes s.field.extension_flag parse_extension-Commutes)
                            λ z. stuffing-Commutes).run
          s h;
  }
