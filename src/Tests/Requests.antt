-- ===== src/Tests/Requests.antt =====
-- Requests that are received, headers and white-space.
use streamserver_cvn.Prelude.{
  All, ℕ, ◌≡◌, ◌==◌, not, ◌&&◌, ◌⊎◌, refl, true, [], ◌∷◌, ◌++◌, arith, some, Bytes,
}
use streamserver_cvn.Prelude.Outcome.{Outcome, ok, err}
use streamserver_cvn.Http.Text.{same, index_of, starts_with, to_lower}
use streamserver_cvn.Http.WhiteSpace.{
  simplified_linear_white_space, direction, separated, simplify_from, is_empty, visible,
  IsSimplified, one, spaced, IsPlain, visible-simplified_linear_white_space, simplified_fixed,
}
use streamserver_cvn.Http.WhiteSpace.Runs.{IsSplit, simplified_linear_white_space-IsSplit}
use streamserver_cvn.Http.Header.{
  Field, Header, regenerate_from, fields_named, set_field, append, field_name_empty,
  field_separator_missing,
}
use streamserver_cvn.Http.Header.Named.{IsIndexed, with_key, fields_named-with_key}
use streamserver_cvn.Http.Header.Setting.{
  IsFieldSet, NotColon, received, set_field-IsFieldSet, append-IsIndexed,
}
use streamserver_cvn.Http.Request.{
  Request, Error, new_request, process_chunk, rounds, round_in, round_request_line,
}
use streamserver_cvn.Http.Request.Chunks.{process_chunk_total, process_chunk-append}

-- "GET / HT", and "TP/1.0", a header field and the empty line.
abbrev first : Bytes
first = 71 ∷ 69 ∷ 84 ∷ 32 ∷ 47 ∷ 32 ∷ 72 ∷ 84 ∷ []

abbrev second : Bytes
second =
    84 ∷ 80 ∷ 47 ∷ 49 ∷ 46 ∷ 48 ∷ 13 ∷ 10 ∷ 72 ∷ 111 ∷ 115 ∷ 116 ∷ 58 ∷ 32 ∷ 97 ∷ 13 ∷ 10 ∷ 13 ∷ 10
    ∷ []

abbrev after_first : Request
after_first = record new_request { buf = first; byte_count = 8 }

first_waits : process_chunk first new_request ≡ some (ok tt after_first)
unfolding process_chunk rounds round_in round_request_line index_of starts_with is_empty
first_waits = refl

process_chunk-append_example :
    process_chunk (first ++ second) new_request ≡ process_chunk second after_first
process_chunk-append_example =
    process_chunk-append first second new_request after_first first_waits refl refl

process_chunk_total_example :
    (x : Outcome Error Request (Unit {0})) × (process_chunk second after_first ≡ some x)
process_chunk_total_example = process_chunk_total second after_first

-- A header with the fields Host, Accept and HOST.
abbrev field_of : Bytes → Bytes → Field
field_of name value = record {
  bytes = [];
  field_name = name;
  field_value_raw = [];
  field_value = value;
}

abbrev host : Bytes
host = 72 ∷ 111 ∷ 115 ∷ 116 ∷ []

abbrev two_hosts : Header
two_hosts = record {
  fields = field_of host (97 ∷ []) ∷ field_of (88 ∷ []) (98 ∷ []) ∷ field_of host (99 ∷ []) ∷ [];
  field_name_indices = (to_lower host, 2) ∷ (to_lower (88 ∷ []), 1) ∷ (to_lower host, 0) ∷ [];
}

two_hosts-IsIndexed : IsIndexed two_hosts
unfolding IsIndexed regenerate_from to_lower
two_hosts-IsIndexed = refl

fields_named-with_key_example :
    fields_named host two_hosts ≡ with_key (to_lower host) two_hosts.fields
fields_named-with_key_example = fields_named-with_key host two_hosts two_hosts-IsIndexed

set_field-IsFieldSet_example :
    (k : Header) × ((set_field host (100 ∷ []) two_hosts ≡ ok tt k)
      × IsFieldSet host (100 ∷ []) two_hosts k)
set_field-IsFieldSet_example =
    set_field-IsFieldSet host (100 ∷ []) two_hosts two_hosts-IsIndexed (unfold is_empty in refl)

-- "X: 1".
abbrev line : Bytes
line = 88 ∷ 58 ∷ 32 ∷ 49 ∷ []

append-IsIndexed_example :
    (All NotColon line × (append line two_hosts ≡ err field_separator_missing two_hosts))
    ⊎ ((value : Bytes) × (line ≡ 58 ∷ value)
        × (append line two_hosts ≡ err field_name_empty two_hosts))
    ⊎ ((c : ℕ) × (name value : Bytes) × (k : Header) × (line ≡ c ∷ name ++ 58 ∷ value)
        × All NotColon (c ∷ name)
        × (append line two_hosts ≡ ok tt k)
        × (k.fields ≡ two_hosts.fields ++ received (c ∷ name) value ∷ [])
        × IsIndexed k)
append-IsIndexed_example = append-IsIndexed line two_hosts two_hosts-IsIndexed

-- White-space: " a\r\n  b\t".
abbrev folded : Bytes
folded = 32 ∷ 97 ∷ 13 ∷ 10 ∷ 32 ∷ 32 ∷ 98 ∷ 9 ∷ []

simplified_folded : simplified_linear_white_space folded ≡ 97 ∷ 32 ∷ 98 ∷ []
unfolding simplified_linear_white_space simplify_from direction separated is_empty same
simplified_folded = refl

simplified_linear_white_space-IsSplit_example :
    IsSplit folded (simplified_linear_white_space folded)
simplified_linear_white_space-IsSplit_example = simplified_linear_white_space-IsSplit folded

visible-simplified_example : visible (simplified_linear_white_space folded) ≡ visible folded
visible-simplified_example = visible-simplified_linear_white_space folded

spaced_out : IsSimplified (97 ∷ 32 ∷ 98 ∷ [])
spaced_out =
    spaced (λ e. absurd (omega arith), λ e. absurd (omega arith))
      (one (λ e. absurd (omega arith), λ e. absurd (omega arith)))

plain : (c : ℕ) → (not (c == 13) && not (c == 10)) ≡ true → IsPlain c
plain c h = (λ e. absurd (ground arith), λ e. absurd (ground arith))

simplified_fixed_example : simplified_linear_white_space (97 ∷ 32 ∷ 98 ∷ []) ≡ 97 ∷ 32 ∷ 98 ∷ []
simplified_fixed_example =
    simplified_fixed spaced_out (plain 97 refl, (plain 32 refl, (plain 98 refl, tt)))
