-- ===== src/TsPacket.antt =====
-- libmedia/tspacket.{h,cpp}: the packet of the first API version, a view of its bytes that keeps
-- what has been read up to the first error. A member that the source leaves without a value until
-- it has been read is `false`, 0 or empty here.
pub mod Parser
pub mod Packet
pub mod View
pub mod Clocks
pub mod Patching
pub mod Discontinuity
pub mod Placed
use streamserver_cvn.Prelude.{
  ℕ, ◌+◌, ◌*◌, ◌/◌, ◌%◌, ◌^◌, Bool, true, false, [], Option, none, some, ◌==◌, if◌then◌else◌,
  get_or, length, not, Bytes,
}

-- `ProgramClockReference`.
pub record Clock : Type 0 where
  pub bytes : Bytes
  pub base : ℕ
  pub reserved : ℕ
  pub extension : ℕ
  pub value : ℕ

abbrev pub length_pcr : ℕ
length_pcr = 6

abbrev pub base_resolution_hz : ℕ
base_resolution_hz = 90000

abbrev pub extension_resolution_hz : ℕ
extension_resolution_hz = 27000000

pub data FieldError : Type 0 where
  empty_bytes length_mismatch : FieldError
  start_past_end end_past_end bad_clock : FieldError

pub record AdaptationField : Type 0 where
  pub bytes : Bytes
  pub error_message : Option FieldError
  pub length : ℕ
  pub flags_valid : Bool
  pub discontinuity_indicator : Bool
  pub random_access_indicator : Bool
  pub es_prio_indicator : Bool
  pub pcr_flag : Bool
  pub opcr_flag : Bool
  pub splicing_point_flag : Bool
  pub transport_private_data_flag : Bool
  pub extension_flag : Bool
  pub pcr : Option Clock
  pub opcr : Option Clock
  pub splice_countdown_valid : Bool
  pub splice_countdown : ℕ
  pub transport_private_data_valid : Bool
  pub transport_private_data_index : ℕ
  pub transport_private_data_length : ℕ
  pub transport_private_data : Bytes
  pub extension_valid : Bool
  pub extension_index : ℕ
  pub extension_length : ℕ
  pub extension_bytes : Bytes
  pub stuffing_index : ℕ
  pub stuffing_bytes : Bytes

pub data ValidityType : Type 0 where
  valid_none valid_sync_byte valid_pid valid_continuity_counter : ValidityType
  valid_adaptation_field valid_payload_data : ValidityType

pub data AdditionalInfoLengthType : Type 0 where
  no_info time_code_prefix : AdditionalInfoLengthType

pub data PacketError : Type 0 where
  too_short unrecognized_length no_sync_byte field_past_end payload_past_end : PacketError
  in_field : FieldError → PacketError

pub record TsPacket : Type 0 where
  pub bytes : Bytes
  pub error_message : Option PacketError
  pub additional_info_length : AdditionalInfoLengthType
  pub time_code : Bytes
  pub validity : ValidityType
  pub sync_byte_index : ℕ
  pub tei : Bool
  pub pusi : Bool
  pub transport_prio : Bool
  pub pid : ℕ
  pub tsc : ℕ
  pub adaptation_field_control : ℕ
  pub continuity_counter : ℕ
  pub adaptation_field_index : ℕ
  pub adaptation_field : Option AdaptationField
  pub payload_data_index : ℕ

abbrev pub length_basic : ℕ
length_basic = 188

abbrev pub sync_byte : ℕ
sync_byte = 0x47

abbrev pub pid_null_packet : ℕ
pid_null_packet = 0x1fff

abbrev pub empty_field : Bytes → AdaptationField
empty_field bytes = record {
  bytes = bytes;
  error_message = none;
  length = 0;
  flags_valid = false;
  discontinuity_indicator = false;
  random_access_indicator = false;
  es_prio_indicator = false;
  pcr_flag = false;
  opcr_flag = false;
  splicing_point_flag = false;
  transport_private_data_flag = false;
  extension_flag = false;
  pcr = none;
  opcr = none;
  splice_countdown_valid = false;
  splice_countdown = 0;
  transport_private_data_valid = false;
  transport_private_data_index = 0;
  transport_private_data_length = 0;
  transport_private_data = [];
  extension_valid = false;
  extension_index = 0;
  extension_length = 0;
  extension_bytes = [];
  stuffing_index = 0;
  stuffing_bytes = [];
}

abbrev pub empty_packet : Bytes → TsPacket
empty_packet bytes = record {
  bytes = bytes;
  error_message = none;
  additional_info_length = no_info;
  time_code = [];
  validity = valid_none;
  sync_byte_index = 0;
  tei = false;
  pusi = false;
  transport_prio = false;
  pid = 0;
  tsc = 0;
  adaptation_field_control = 0;
  continuity_counter = 0;
  adaptation_field_index = 0;
  adaptation_field = none;
  payload_data_index = 0;
}

-- `a << n | b`, where the bits of `b` are below `n`, in a word of `w` bits.
abbrev pub shift_or : ℕ → ℕ → ℕ → ℕ → ℕ
shift_or w n a b = (a * 2 ^ n + b) % 2 ^ w

-- The four shifts that put the base together from bytes, and the fifth for its last bit.
unfoldable pub clock_base : Bytes → ℕ
clock_base bytes =
    let b0 = get_or bytes 0 0 in
    let b1 = shift_or 64 8 b0 (get_or bytes 1 0) in
    let b2 = shift_or 64 8 b1 (get_or bytes 2 0) in
    let b3 = shift_or 64 8 b2 (get_or bytes 3 0) in shift_or 64 1 b3 (get_or bytes 4 0 / 2 ^ 7)

unfoldable pub clock_value : ℕ → ℕ → ℕ
clock_value base extension =
    (base * (extension_resolution_hz / base_resolution_hz) + extension) % 2 ^ 64

-- The constructor of `ProgramClockReference`; `none` if it throws. Its second check cannot fail.
unfoldable pub clock_of : Bytes → Option Clock
unfolding clock_base clock_value
clock_of bytes =
    let base = clock_base bytes in
    let extension = shift_or 16 8 (get_or bytes 4 0 % 2) (get_or bytes 5 0) in
    if not (length bytes == length_pcr)
    then none
    else some (record {
      bytes = bytes;
      base = base;
      reserved = get_or bytes 4 0 / 2 % 2 ^ 6;
      extension = extension;
      value = clock_value base extension;
    })

-- `toNanosecs()`, in 64 bits.
unfoldable pub clock_nanosecs : Clock → ℕ
clock_nanosecs c = c.value * 1000000000 % 2 ^ 64 / extension_resolution_hz
