-- ===== src/Wallet/Sdk.antt =====
-- The functions of the Ledger SDK that the wallet part calls. They are not under src/, so they
-- are parameters; what the proofs rely on is stated where it is used.
use zknox_hw_falcon.Common.{ℕ, Bytes, List, Bool, Option}
use zknox_hw_falcon.Common.Apdu.{Buffer}

-- What `tlv_use_case_dynamic_descriptor` gives: its success, and the fields used of its output.
pub record Descriptor : Type 0 where
  pub success : Bool
  pub coin_type : ℕ
  pub magnitude : ℕ
  pub ticker : Bytes
  pub tuid : Bytes

-- What the parser that `DEFINE_TLV_PARSER` generates for the TUID gives: whether it accepted,
-- whether TAG_TOKEN_ADDRESS was received, and the value that its handler kept.
pub record Tuid : Type 0 where
  pub accepted : Bool
  pub has_address : Bool
  pub token_address : Bytes

-- `bip32_derive_get_pubkey_256`: the error code, the public key and the chain code.
pub record DerivedKey : Type 0 where
  pub error : ℕ
  pub raw_public_key : Bytes
  pub chain_code : Bytes

-- `bip32_derive_ecdsa_sign_hash_256`: the error code, the signature, its length and `info`.
pub record EcdsaSigned : Type 0 where
  pub error : ℕ
  pub signature : Bytes
  pub sig_len : ℕ
  pub info : ℕ

-- A function that can fail gives its verdict, what it wrote, and the buffer it leaves.
pub record Sdk : Type 0 where
  -- buffer.h, read.h, write.h, varint.h
  pub buffer_read_u8 : Buffer → Bool × (ℕ × Buffer)
  pub buffer_read_u64 : Buffer → Bool × (ℕ × Buffer)
  pub buffer_read_varint : Buffer → Bool × (ℕ × Buffer)
  pub buffer_read_bip32_path : Buffer → ℕ → Bool × (List ℕ × Buffer)
  pub buffer_seek_cur : Buffer → ℕ → Bool × Buffer
  pub buffer_move : Buffer → ℕ → Bool × Bytes
  pub write_u64_be : ℕ → Bytes
  pub varint_size : ℕ → ℕ
  pub varint_write : ℕ → Option Bytes
  -- cx.h, crypto_helpers.h
  pub keccak_256 : Bytes → ℕ × Bytes
  pub derive_pubkey : List ℕ → ℕ → DerivedKey
  -- CX_ECCINFO_PARITY_ODD
  pub eccinfo_parity_odd : ℕ
  pub ecdsa_sign : List ℕ → ℕ → Bytes → EcdsaSigned
  -- format.h: none is a failure
  pub format_fpu64 : ℕ → ℕ → ℕ → Option Bytes
  pub format_hex : Bytes → ℕ → Option Bytes
  -- tlv_use_case_dynamic_descriptor.h, tlv_library.h
  pub dynamic_descriptor : Buffer → Descriptor
  pub get_buffer_from_tlv_data : Bytes → ℕ → ℕ → Option Bytes
  -- the parser that is generated for one tag, with the handler of its values
  pub parse_tlv : (Bytes → Option Bytes) → Bytes → Tuid
  pub max_ticker_size : ℕ
  -- swap.h
  pub swap_parse_config : Bytes → Option (Bytes × ℕ)
  pub swap_str_to_u64 : Bytes → Option ℕ
