-- ===== src/Wallet/Token.antt =====
-- The token database and the token that the host provides (src/token/token_db.c,
-- src/token/dynamic_token_info.c, src/handler/provide_token_info.c).
use zknox_hw_falcon.Common.{
  ℕ, Bytes, List, [], ◌∷◌, Option, some, none, Bool, true, false, not, ◌||◌, ◌==◌, if◌then◌else◌,
  take, bytes_eq,
}
use zknox_hw_falcon.Common.Apdu.{Buffer, Response, send_sw, swo_success}
use zknox_hw_falcon.Wallet.State.{
  TokenInfo, TickerRef, null_ticker, dynamic_ticker, database_ticker, DynamicTokenInfo,
  token_address_len, zero_dynamic_token,
}
use zknox_hw_falcon.Wallet.Sdk.{Sdk}

-- `token_entry_t`
pub record TokenEntry : Type 0 where
  pub address : Bytes
  pub ticker : Bytes
  pub decimals : ℕ

-- `TOKENS`
abbrev pub tokens : List TokenEntry
tokens =
    record {
      address =
          0x01 ∷ 0x23 ∷ 0x45 ∷ 0x67 ∷ 0x89 ∷ 0xab ∷ 0xcd ∷ 0xef ∷ 0x01 ∷ 0x23 ∷ 0x45 ∷ 0x67 ∷ 0x89
          ∷ 0xab ∷ 0xcd ∷ 0xef ∷ 0x01 ∷ 0x23 ∷ 0x45 ∷ 0x67 ∷ 0x89 ∷ 0xab ∷ 0xcd ∷ 0xef ∷ 0x01 ∷ 0x23
          ∷ 0x45 ∷ 0x67 ∷ 0x89 ∷ 0xab ∷ 0xcd ∷ 0xef ∷ [];
      ticker = 85 ∷ 83 ∷ 68 ∷ 67 ∷ [];
      decimals = 12;
    }
    ∷ record {
      address =
          0xfe ∷ 0xdc ∷ 0xba ∷ 0x98 ∷ 0x76 ∷ 0x54 ∷ 0x32 ∷ 0x10 ∷ 0xfe ∷ 0xdc ∷ 0xba ∷ 0x98 ∷ 0x76
          ∷ 0x54 ∷ 0x32 ∷ 0x10 ∷ 0xfe ∷ 0xdc ∷ 0xba ∷ 0x98 ∷ 0x76 ∷ 0x54 ∷ 0x32 ∷ 0x10 ∷ 0xfe ∷ 0xdc
          ∷ 0xba ∷ 0x98 ∷ 0x76 ∷ 0x54 ∷ 0x32 ∷ 0x10 ∷ [];
      ticker = 87 ∷ 69 ∷ 84 ∷ 72 ∷ [];
      decimals = 14;
    }
    ∷ record {
      address =
          0xaa ∷ 0xbb ∷ 0xcc ∷ 0xdd ∷ 0xee ∷ 0xff ∷ 0x00 ∷ 0x11 ∷ 0x22 ∷ 0x33 ∷ 0x44 ∷ 0x55 ∷ 0x66
          ∷ 0x77 ∷ 0x88 ∷ 0x99 ∷ 0xaa ∷ 0xbb ∷ 0xcc ∷ 0xdd ∷ 0xee ∷ 0xff ∷ 0x00 ∷ 0x11 ∷ 0x22 ∷ 0x33
          ∷ 0x44 ∷ 0x55 ∷ 0x66 ∷ 0x77 ∷ 0x88 ∷ 0x99 ∷ [];
      ticker = 68 ∷ 65 ∷ 73 ∷ [];
      decimals = 14;
    }
    ∷ record {
      address =
          0x11 ∷ 0x22 ∷ 0x33 ∷ 0x44 ∷ 0x55 ∷ 0x66 ∷ 0x77 ∷ 0x88 ∷ 0x99 ∷ 0xaa ∷ 0xbb ∷ 0xcc ∷ 0xdd
          ∷ 0xee ∷ 0xff ∷ 0x00 ∷ 0x11 ∷ 0x22 ∷ 0x33 ∷ 0x44 ∷ 0x55 ∷ 0x66 ∷ 0x77 ∷ 0x88 ∷ 0x99 ∷ 0xaa
          ∷ 0xbb ∷ 0xcc ∷ 0xdd ∷ 0xee ∷ 0xff ∷ 0x00 ∷ [];
      ticker = 66 ∷ 84 ∷ 67 ∷ [];
      decimals = 12;
    }
    ∷ record {
      address =
          0xff ∷ 0xee ∷ 0xdd ∷ 0xcc ∷ 0xbb ∷ 0xaa ∷ 0x99 ∷ 0x88 ∷ 0x77 ∷ 0x66 ∷ 0x55 ∷ 0x44 ∷ 0x33
          ∷ 0x22 ∷ 0x11 ∷ 0x00 ∷ 0xff ∷ 0xee ∷ 0xdd ∷ 0xcc ∷ 0xbb ∷ 0xaa ∷ 0x99 ∷ 0x88 ∷ 0x77 ∷ 0x66
          ∷ 0x55 ∷ 0x44 ∷ 0x33 ∷ 0x22 ∷ 0x11 ∷ 0x00 ∷ [];
      ticker = 76 ∷ 73 ∷ 78 ∷ 75 ∷ [];
      decimals = 14;
    }
    ∷ []

-- `get_hardcoded_token_info`: the loop over the entries that are left.
unfoldable pub get_hardcoded_token_info : List TokenEntry → Bytes → TokenInfo → Bool × TokenInfo
get_hardcoded_token_info [] token_address info = (false, info)
get_hardcoded_token_info (e ∷ es) token_address info =
    if bytes_eq (take token_address_len token_address) e.address
    then (true, record { ticker = database_ticker e.ticker; decimals = e.decimals })
    else get_hardcoded_token_info es token_address info

-- `get_dynamic_token_info`
unfoldable pub get_dynamic_token_info : DynamicTokenInfo → Bytes → TokenInfo → Bool × TokenInfo
get_dynamic_token_info d token_address info =
    if not d.received
    then (false, info)
    else if not (bytes_eq (take token_address_len token_address) d.address)
    then (false, info)
    else (true, record { ticker = dynamic_ticker; decimals = d.decimals })

-- `get_token_info`; the address is none for NULL.
unfoldable pub get_token_info : DynamicTokenInfo → Option Bytes → TokenInfo → Bool × TokenInfo
get_token_info d none info = (false, info)
get_token_info d (some token_address) info =
    let (found, info') = get_dynamic_token_info d token_address info in
    if found then (true, info') else get_hardcoded_token_info tokens token_address info'

-- The text that a `ticker` pointer leads to.
unfoldable pub ticker_text : DynamicTokenInfo → TickerRef → Bytes
ticker_text d null_ticker = []
ticker_text d dynamic_ticker = d.ticker
ticker_text d (database_ticker t) = t

-- `set_token_info`
unfoldable pub set_token_info : Sdk → ℕ → Bytes → Bytes → DynamicTokenInfo
set_token_info s decimals ticker token_address = record {
  received = true;
  address = take token_address_len token_address;
  ticker = take s.max_ticker_size ticker;
  decimals = decimals;
}

-- `handle_tuid_token_address`: the address has exactly TOKEN_ADDRESS_LEN bytes.
unfoldable pub handle_tuid_token_address : Sdk → Bytes → Option Bytes
handle_tuid_token_address s value =
    s.get_buffer_from_tlv_data value token_address_len token_address_len

-- `BOILERPLATE_SLIP44_COIN_TYPE`, `BOILERPLATE_SLIP44_COIN_TYPE_HARDENED`
abbrev pub coin_type : ℕ
coin_type = 0x8001

abbrev pub coin_type_hardened : ℕ
coin_type_hardened = 0x8000_8001

-- `validate_coin_type`
unfoldable pub validate_coin_type : ℕ → Bool
validate_coin_type t = t == coin_type || t == coin_type_hardened

-- `SW_INVALID_DYNAMIC_TOKEN`
abbrev pub sw_invalid_dynamic_token : ℕ
sw_invalid_dynamic_token = 0xB009

-- `handler_provide_token_info(cdata)`: the token slot and the answer. What the slot held before
-- is erased first.
unfoldable pub handler_provide_token_info :
    Sdk → Buffer → DynamicTokenInfo → DynamicTokenInfo × Response
handler_provide_token_info s cdata d =
    let out = s.dynamic_descriptor cdata in
    let tuid = s.parse_tlv (handle_tuid_token_address s) out.tuid in
    if not out.success
    then (zero_dynamic_token, send_sw sw_invalid_dynamic_token)
    else if not (validate_coin_type out.coin_type)
    then (zero_dynamic_token, send_sw sw_invalid_dynamic_token)
    else if not tuid.accepted
    then (zero_dynamic_token, send_sw sw_invalid_dynamic_token)
    else if not tuid.has_address
    then (zero_dynamic_token, send_sw sw_invalid_dynamic_token)
    else (set_token_info s out.magnitude out.ticker tuid.token_address, send_sw swo_success)
