-- ===== src/PacketV2.antt =====
-- libmedia/tspacketv2.h: the packet of API version V2 as data. Numbers are the values of their
-- unsigned types; `splice_countdown` is the bit pattern of its `qint8`.
pub mod Fill
pub mod Parser
pub mod Layout
pub mod Filling
pub mod FieldParsing
pub mod HeaderParsing
pub mod ContentsParsing
pub mod Parsing
pub mod Refusing
pub mod Generator
pub mod Generating
pub mod Generated
pub mod PayloadLost
use streamserver_cvn.Prelude.{
  ℕ, ◌+◌, ◌-◌, ◌*◌, ◌/◌, ◌%◌, ◌^◌, Bool, true, false, [], ◌||◌, ◌==◌, if◌then◌else◌, Bytes,
}

pub record ProgramClockReference : Type 0 where
  pub pcr_base : ℕ
  pub reserved1 : ℕ
  pub pcr_extension : ℕ

pub data TransportScramblingControl : Type 0 where
  not_scrambled reserved scrambled_even_key scrambled_odd_key : TransportScramblingControl

pub data AdaptationFieldControl : Type 0 where
  reserved payload_only adaptation_field_only adaptation_field_then_payload : AdaptationFieldControl

pub record AdaptationField : Type 0 where
  pub adaptation_field_length : ℕ
  pub discontinuity_indicator : Bool
  pub random_access_indicator : Bool
  pub elementary_stream_priority_indicator : Bool
  pub pcr_flag : Bool
  pub opcr_flag : Bool
  pub splicing_point_flag : Bool
  pub transport_private_data_flag : Bool
  pub adaptation_field_extension_flag : Bool
  pub program_clock_reference : ProgramClockReference
  pub original_program_clock_reference : ProgramClockReference
  pub splice_countdown : ℕ
  pub transport_private_data_length : ℕ
  pub transport_private_data_bytes : Bytes
  pub adaptation_field_extension_length : ℕ
  pub adaptation_field_extension_bytes : Bytes
  pub stuffing_bytes : Bytes

pub record PacketV2 : Type 0 where
  pub sync_byte : ℕ
  pub transport_error_indicator : Bool
  pub payload_unit_start_indicator : Bool
  pub transport_priority : Bool
  pub pid : ℕ
  pub transport_scrambling_control : TransportScramblingControl
  pub adaptation_field_control : AdaptationFieldControl
  pub continuity_counter : ℕ
  pub adaptation_field : AdaptationField
  pub payload_data_bytes : Bytes

abbrev pub size_basic : ℕ
size_basic = 188

abbrev pub sync_byte_fixed_value : ℕ
sync_byte_fixed_value = 0x47

abbrev pub pid_null_packet : ℕ
pid_null_packet = 0x1fff

-- The values that a default-constructed object has.
abbrev pub default_clock : ProgramClockReference
default_clock = record { pcr_base = 0; reserved1 = 0x3f; pcr_extension = 0 }

abbrev pub default_adaptation_field : AdaptationField
default_adaptation_field = record {
  adaptation_field_length = 0;
  discontinuity_indicator = false;
  random_access_indicator = false;
  elementary_stream_priority_indicator = false;
  pcr_flag = false;
  opcr_flag = false;
  splicing_point_flag = false;
  transport_private_data_flag = false;
  adaptation_field_extension_flag = false;
  program_clock_reference = default_clock;
  original_program_clock_reference = default_clock;
  splice_countdown = 0;
  transport_private_data_length = 0;
  transport_private_data_bytes = [];
  adaptation_field_extension_length = 0;
  adaptation_field_extension_bytes = [];
  stuffing_bytes = [];
}

abbrev pub default_packet : PacketV2
default_packet = record {
  sync_byte = sync_byte_fixed_value;
  transport_error_indicator = false;
  payload_unit_start_indicator = false;
  transport_priority = false;
  pid = pid_null_packet;
  transport_scrambling_control = TransportScramblingControl.not_scrambled;
  adaptation_field_control = AdaptationFieldControl.reserved;
  continuity_counter = 0;
  adaptation_field = default_adaptation_field;
  payload_data_bytes = [];
}

abbrev pub is_sync_byte_fixed_value : PacketV2 → Bool
is_sync_byte_fixed_value p = p.sync_byte == sync_byte_fixed_value

abbrev pub is_null_packet : PacketV2 → Bool
is_null_packet p = p.pid == pid_null_packet

abbrev pub control_has_field : AdaptationFieldControl → Bool
control_has_field AdaptationFieldControl.adaptation_field_only = true
control_has_field AdaptationFieldControl.adaptation_field_then_payload = true
control_has_field _ = false

abbrev pub control_has_payload : AdaptationFieldControl → Bool
control_has_payload AdaptationFieldControl.payload_only = true
control_has_payload AdaptationFieldControl.adaptation_field_then_payload = true
control_has_payload _ = false

abbrev pub has_adaptation_field : PacketV2 → Bool
has_adaptation_field p = control_has_field p.adaptation_field_control

abbrev pub has_payload : PacketV2 → Bool
has_payload p = control_has_payload p.adaptation_field_control

-- The enumerations as the numbers that `static_cast` gives; a two-bit field has no others.
abbrev pub scrambling_code : TransportScramblingControl → ℕ
scrambling_code TransportScramblingControl.not_scrambled = 0
scrambling_code TransportScramblingControl.reserved = 1
scrambling_code TransportScramblingControl.scrambled_even_key = 2
scrambling_code TransportScramblingControl.scrambled_odd_key = 3

abbrev pub scrambling_of_code : ℕ → TransportScramblingControl
scrambling_of_code n =
    if n == 0
    then TransportScramblingControl.not_scrambled
    else if n == 1
    then TransportScramblingControl.reserved
    else if n == 2
    then TransportScramblingControl.scrambled_even_key
    else TransportScramblingControl.scrambled_odd_key

abbrev pub control_code : AdaptationFieldControl → ℕ
control_code AdaptationFieldControl.reserved = 0
control_code AdaptationFieldControl.payload_only = 1
control_code AdaptationFieldControl.adaptation_field_only = 2
control_code AdaptationFieldControl.adaptation_field_then_payload = 3

abbrev pub control_of_code : ℕ → AdaptationFieldControl
control_of_code n =
    if n == 0
    then AdaptationFieldControl.reserved
    else if n == 1
    then AdaptationFieldControl.payload_only
    else if n == 2
    then AdaptationFieldControl.adaptation_field_only
    else AdaptationFieldControl.adaptation_field_then_payload

abbrev pub is_reserved_scrambling : TransportScramblingControl → Bool
is_reserved_scrambling TransportScramblingControl.reserved = true
is_reserved_scrambling _ = false

abbrev pub is_reserved_control : AdaptationFieldControl → Bool
is_reserved_control AdaptationFieldControl.reserved = true
is_reserved_control _ = false

-- `184 - (adaptationFieldControl == AdaptationFieldThenPayload ? length + 1 : 0)`. It is not
-- negative where it is used: a field of 184 bytes or more has been refused before.
abbrev pub payload_size : AdaptationFieldControl → ℕ → ℕ
payload_size AdaptationFieldControl.adaptation_field_then_payload len = 184 - (len + 1)
payload_size _ len = 184

-- `pcrValue()`, in 64 bits.
unfoldable pub pcr_value : ProgramClockReference → ℕ
pcr_value c = (c.pcr_base * 300 + c.pcr_extension) % 2 ^ 64

-- `toNanosecs()`, in 64 bits.
unfoldable pub to_nanosecs : ProgramClockReference → ℕ
to_nanosecs c = pcr_value c * 1000000000 % 2 ^ 64 / 27000000
