-- ===== src/Splitter.antt =====
-- ts-split/splitter.{h,cpp}: what is to be written where, and the state of a splitter. A file object is
-- a number. The unions are data types; an output is a request, with the length that is asked for,
-- or a result, with the length so far. File objects stand for files of different names.
pub mod Handlers
pub mod Writers
pub mod Present
pub mod Frames
pub mod Others
pub mod Writing
pub mod Window
pub mod Steps
pub mod Recorded
pub mod Stats
pub mod Signals
pub mod Ending
pub mod Selected
pub mod Whole
use streamserver_cvn.Prelude.{
  ℕ, ◌+◌, Bool, true, false, not, ◌&&◌, List, [], ◌∷◌, ◌++◌, Option, none, some, ◌==◌,
  if◌then◌else◌, Bytes,
}
use streamserver_cvn.Prelude.Int.{ℤ, pos, leb_ℤ}
use streamserver_cvn.Prelude.Outcome.{ok, err, M, pure, throw, modify, guard, ◌>>=◌, ◌>>◌}
use streamserver_cvn.Ranges.{NumericRange, matches}
use streamserver_cvn.Writer.{Writer}

pub data Start : Type 0 where
  no_start : Start
  at_offset at_packet at_segment : ℤ → Start

pub data Length (N : Type 0) : Type 0 where
  no_length : Length N
  in_bytes in_packets in_segments : N → Length N

-- `setStartOffsetOnce` and its companions, which differ in the kind; `none` if they throw.
unfoldable pub set_start_once : (ℤ → Start) → ℤ → Start → Option Start
set_start_once kind n no_start = some (kind n)
set_start_once kind n _ = none

-- `setLenBytesOnce` and its companions.
unfoldable pub set_len_once : (ℤ → Length ℤ) → ℤ → Length ℤ → Option (Length ℤ)
set_len_once kind n no_length = some (kind n)
set_len_once kind n _ = none

-- `lenBytesOrDefault` and its companions: a length without a kind becomes 0 of the kind, and another
-- kind throws.
unfoldable pub len_bytes_or_default : Length ℕ → Option (ℕ × Length ℕ)
len_bytes_or_default no_length = some (0, in_bytes 0)
len_bytes_or_default (in_bytes n) = some (n, in_bytes n)
len_bytes_or_default _ = none

unfoldable pub len_packets_or_default : Length ℕ → Option (ℕ × Length ℕ)
len_packets_or_default no_length = some (0, in_packets 0)
len_packets_or_default (in_packets n) = some (n, in_packets n)
len_packets_or_default _ = none

unfoldable pub len_discont_segments_or_default : Length ℕ → Option (ℕ × Length ℕ)
len_discont_segments_or_default no_length = some (0, in_segments 0)
len_discont_segments_or_default (in_segments n) = some (n, in_segments n)
len_discont_segments_or_default _ = none

-- A request.
pub record Output : Type 0 where
  pub output_file : Option ℕ
  pub start : Start
  pub length : Length ℤ

-- A result.
pub record Result : Type 0 where
  pub output_file : ℕ
  pub id : ℕ
  pub length : Length ℕ

pub data TemplateKind : Type 0 where
  no_kind discontinuity_segments : TemplateKind

pub record OutputTemplate : Type 0 where
  pub output_files_kind : TemplateKind
  pub output_files_format_string : Bytes
  pub filter : List (NumericRange ℤ)

-- `is_open` and `exists` are the state of the files, `next_file` names a file object that is not
-- there yet.
pub record Splitter : Type 0 where
  pub output_requests : List Output
  pub output_results : List Result
  pub output_templates : List OutputTemplate
  pub output_writers : ℕ → Option Writer
  pub last_output_id : ℕ
  pub is_open : ℕ → Bool
  pub exists : ℕ → Bool
  pub next_file : ℕ

-- Why the program or a handler stops: exceptions, and errors that end the program.
pub data Stop : Type 0 where
  null_file no_start_kind negative_start no_length_kind negative_length : Stop
  bad_template_kind range_not_ordered empty_format empty_example : Stop
  length_kind_mismatch output_exists open_failed writer_missing reader_error : Stop

abbrev pub Handler : Type 0 → Type 0
Handler A = M Stop Splitter A

abbrev pub update : {A : Type 0} → (ℕ → A) → ℕ → A → ℕ → A
update f k v j = if j == k then v else f j

-- The checks of `setOutputRequests`: offsets from 0, packets and segments from 1, lengths from 0.
unfoldable pub check_start : Start → Handler (Unit {0})
check_start no_start = throw no_start_kind
check_start (at_offset n) = guard (leb_ℤ (pos 0) n) negative_start
check_start (at_packet n) = guard (leb_ℤ (pos 1) n) negative_start
check_start (at_segment n) = guard (leb_ℤ (pos 1) n) negative_start

unfoldable pub check_length : Length ℤ → Handler (Unit {0})
check_length no_length = throw no_length_kind
check_length (in_bytes n) = guard (leb_ℤ (pos 0) n) negative_length
check_length (in_packets n) = guard (leb_ℤ (pos 0) n) negative_length
check_length (in_segments n) = guard (leb_ℤ (pos 0) n) negative_length

abbrev pub check_file : Option ℕ → Handler (Unit {0})
check_file none = throw null_file
check_file (some f) = pure tt

unfoldable pub check_requests : List Output → Handler (Unit {0})
unfolding check_start check_length
check_requests [] = pure tt
check_requests (r ∷ rs) = do
  check_file r.output_file
  check_start r.start
  check_length r.length
  check_requests rs

-- `setOutputRequests`.
unfoldable pub set_output_requests : List Output → Handler (Unit {0})
unfolding check_requests
set_output_requests requests = do
  check_requests requests
  modify λ s. record s { output_requests = requests }

abbrev pub check_range : NumericRange ℤ → Handler (Unit {0})
check_range r = elim r.lower_bound [
  | none ↦ pure tt
  | some l ↦ elim r.upper_bound [ none ↦ pure tt | some u ↦ guard (leb_ℤ l u) range_not_ordered ]
]

unfoldable pub check_ranges : List (NumericRange ℤ) → Handler (Unit {0})
check_ranges [] = pure tt
check_ranges (r ∷ rs) = do check_range r; check_ranges rs

abbrev pub is_empty : Bytes → Bool
is_empty [] = true
is_empty (c ∷ cs) = false

abbrev pub check_kind : OutputTemplate → Handler (Unit {0})
check_kind t = elim t.output_files_kind [
  | no_kind ↦ throw bad_template_kind
  | discontinuity_segments ↦ check_ranges t.filter
]

-- `expand` is `asprintf` of a format string with a number.
unfoldable pub check_templates : (Bytes → ℕ → Bytes) → List OutputTemplate → Handler (Unit {0})
unfolding check_ranges
check_templates expand [] = pure tt
check_templates expand (t ∷ ts) = do
  check_kind t
  guard (not (is_empty t.output_files_format_string)) empty_format
  guard (not (is_empty (expand t.output_files_format_string 1))) empty_example
  check_templates expand ts

-- `setOutputTemplates`.
unfoldable pub set_output_templates : (Bytes → ℕ → Bytes) → List OutputTemplate → Handler (Unit {0})
unfolding check_templates
set_output_templates expand templates = do
  check_templates expand templates
  modify λ s. record s { output_templates = templates }

-- `appendDiscontSegmentOutputRequest`: a new file object.
unfoldable pub append_discont_segment_output_request : ℕ → Splitter → Splitter
append_discont_segment_output_request segment s = record s {
  output_requests =
      s.output_requests
      ++ record {
        output_file = some s.next_file;
        start = at_segment (pos segment);
        length = in_segments (pos 1);
      }
        ∷ [];
  next_file = s.next_file + 1;
}

-- A template by its kind: a segment that its filter matches gets an output.
unfoldable pub start_segment : TemplateKind → OutputTemplate → ℕ → Handler (Unit {0})
unfolding append_discont_segment_output_request
start_segment no_kind t segment = throw bad_template_kind
start_segment discontinuity_segments t segment =
    if matches leb_ℤ t.filter (pos segment)
    then modify (append_discont_segment_output_request segment)
    else pure tt

-- `handleSegmentStarts`.
unfoldable pub handle_segment_starts : ℕ → List OutputTemplate → Handler (Unit {0})
unfolding start_segment
handle_segment_starts segment [] = pure tt
handle_segment_starts segment (t ∷ ts) = do
  start_segment t.output_files_kind t segment
  handle_segment_starts segment ts
