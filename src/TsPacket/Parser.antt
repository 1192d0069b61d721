-- ===== src/TsPacket/Parser.antt =====
-- libmedia/tspacket.cpp: the constructors of `AdaptationField` and `TSPacket`, and the operations that
-- change an object. `index` is `byteIdx`; an `err` is a `return` with `_errorMessage` set.
use streamserver_cvn.Prelude.{
  ℕ, ◌+◌, ◌%◌, ◌^◌, Bool, true, not, Option, none, some, ltb, leb, ◌==◌, if◌then◌else◌, get_or, set,
  take, drop, length, Bytes,
}
use streamserver_cvn.Prelude.Outcome.{
  ok, err, M, pure, throw, get, modify, guard, when, ◌>>=◌, ◌>>◌,
}
use streamserver_cvn.Bits.{bit_at}
use streamserver_cvn.TsPacket.{
  Clock, clock_of, length_pcr, FieldError, empty_bytes, empty_field, length_mismatch,
  start_past_end, end_past_end, bad_clock, AdaptationField,
}

-- `mid(pos, len)` with `pos` and `len` not negative.
abbrev pub mid : ℕ → ℕ → Bytes → Bytes
mid pos len bytes = take len (drop pos bytes)

pub record FieldState : Type 0 where
  pub index : ℕ
  pub field : AdaptationField

abbrev pub ParseField : Type 0 → Type 0
ParseField A = M FieldError FieldState A

abbrev pub size : FieldState → ℕ
size s = length s.field.bytes

abbrev pub on_field : (AdaptationField → AdaptationField) → ParseField (Unit {0})
on_field f = modify λ s. record s { field = f s.field }

-- `if (!(byteIdx < _bytes.length()))` with a message.
abbrev pub check_start : ParseField (Unit {0})
check_start s = guard (ltb s.index (size s)) start_past_end s

-- `if (byteIdx > _bytes.length())` with a message.
abbrev pub check_end : ParseField (Unit {0})
check_end s = guard (leb s.index (size s)) end_past_end s

abbrev pub advance : ℕ → ParseField (Unit {0})
advance n = modify λ s. record s { index = s.index + n }

abbrev pub take_byte : ParseField ℕ
take_byte s = ok (get_or s.field.bytes s.index 0) (record s { index = s.index + 1 })

-- `parsePCR`.
unfoldable pub parse_pcr : (Clock → AdaptationField → AdaptationField) → ParseField (Unit {0})
parse_pcr put = do
  start ← get λ s. s.index
  check_start
  advance length_pcr
  check_end
  found ← get λ s. clock_of (mid start length_pcr s.field.bytes)
  elim found [ none ↦ throw bad_clock | some c ↦ on_field (put c) ]

unfoldable pub parse_splice : ParseField (Unit {0})
parse_splice = do
  check_start
  byte ← take_byte
  on_field λ f. record f { splice_countdown = byte; splice_countdown_valid = true }

unfoldable pub parse_private_data : ParseField (Unit {0})
parse_private_data = do
  check_start
  start ← get λ s. s.index
  len ← take_byte
  on_field λ f. record f {
    transport_private_data_index = start;
    transport_private_data_length = len;
    transport_private_data = mid start (1 + len) f.bytes;
  }
  advance len
  check_end
  on_field λ f. record f { transport_private_data_valid = true }

unfoldable pub parse_extension : ParseField (Unit {0})
parse_extension = do
  check_start
  start ← get λ s. s.index
  len ← take_byte
  on_field λ f. record f {
    extension_index = start;
    extension_length = len;
    extension_bytes = mid start (1 + len) f.bytes;
  }
  advance len
  check_end
  on_field λ f. record f { extension_valid = true }

abbrev pub set_flags : ℕ → AdaptationField → AdaptationField
set_flags byte f = record f {
  discontinuity_indicator = bit_at byte 7;
  random_access_indicator = bit_at byte 6;
  es_prio_indicator = bit_at byte 5;
  pcr_flag = bit_at byte 4;
  opcr_flag = bit_at byte 3;
  splicing_point_flag = bit_at byte 2;
  transport_private_data_flag = bit_at byte 1;
  extension_flag = bit_at byte 0;
  flags_valid = true;
}

-- What follows the flags.
unfoldable pub parse_options : ParseField (Unit {0})
parse_options = do
  f ← get λ s. s.field
  when f.pcr_flag (parse_pcr λ c g. record g { pcr = some c })
  when f.opcr_flag (parse_pcr λ c g. record g { opcr = some c })
  when f.splicing_point_flag parse_splice
  when f.transport_private_data_flag parse_private_data
  when f.extension_flag parse_extension
  modify λ s. record s {
    field = record s.field {
      stuffing_index = s.index;
      stuffing_bytes = drop s.index s.field.bytes;
    };
  }

unfoldable pub parse_field : ParseField (Unit {0})
parse_field = do
  n ← get size
  guard (not (n == 0)) empty_bytes
  len ← take_byte
  on_field λ f. record f { length = len }
  guard (n == 1 + len) length_mismatch
  if not (ltb 1 n) then pure tt else do byte ← take_byte; on_field (set_flags byte); parse_options

-- The constructor of `AdaptationField`.
unfoldable pub adaptation_field_of : Bytes → AdaptationField
adaptation_field_of bytes = elim (parse_field (record { index = 0; field = empty_field bytes })) [
  | ok u s ↦ s.field
  | err e s ↦ record s.field { error_message = some e }
]

-- `setDiscontinuityIndicator`; `none` if it throws. `byte |= 0x80` and `byte &= 0x7f`.
unfoldable pub set_discontinuity_indicator : Bool → AdaptationField → Option AdaptationField
set_discontinuity_indicator on f =
    let byte = get_or f.bytes 1 0 in
    if not (ltb 1 (length f.bytes))
    then none
    else some (record f {
      bytes = set f.bytes 1 (if on then byte % 2 ^ 7 + 2 ^ 7 else byte % 2 ^ 7);
      discontinuity_indicator = on;
    })
