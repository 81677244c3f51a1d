-- ===== src/Common/Apdu.antt =====
-- What an APDU handler reads and what it answers: `buffer_t` of the SDK's buffer.h as this
-- code uses its fields, the status words, and a response.
use Prim.Native.Nat.{ℕ}
use mathlib.Core.List.{[]}
use zknox_hw_falcon.Common.Lists.{Bytes}

-- `buffer_t`: the bytes behind `ptr`, the size that the sender announced, and the read offset.
pub record Buffer : Type 0 where
  pub ptr : Bytes
  pub size : ℕ
  pub offset : ℕ

-- A response APDU: its data and its status word.
pub record Response : Type 0 where
  pub data_out : Bytes
  pub sw : ℕ

-- `io_send_sw`
abbrev pub send_sw : ℕ → Response
send_sw w = record { data_out = []; sw = w }

-- `io_send_response_pointer`
abbrev pub send_response : Bytes → ℕ → Response
send_response b w = record { data_out = b; sw = w }

abbrev pub swo_success : ℕ
swo_success = 0x9000

abbrev pub swo_incorrect_data : ℕ
swo_incorrect_data = 0x6A80

abbrev pub swo_incorrect_p1_p2 : ℕ
swo_incorrect_p1_p2 = 0x6A86

abbrev pub swo_wrong_data_length : ℕ
swo_wrong_data_length = 0x6A87

abbrev pub swo_invalid_cla : ℕ
swo_invalid_cla = 0x6E00

abbrev pub swo_invalid_ins : ℕ
swo_invalid_ins = 0x6D00

abbrev pub swo_conditions_not_satisfied : ℕ
swo_conditions_not_satisfied = 0x6985
