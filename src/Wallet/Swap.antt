-- ===== src/Wallet/Swap.antt =====
-- The library calls of the Exchange app and the check of the transaction to sign
-- (src/swap/handle_swap_sign_transaction.c, handle_check_address.c,
-- handle_get_printable_amount.c).
use zknox_hw_falcon.Common.{
  ℕ, ◌+◌, ◌-◌, ◌*◌, Bytes, [], ◌∷◌, ◌++◌, map, Option, some, none, Bool, true, false, not, ◌&&◌,
  ◌||◌, ◌==◌, leb, if◌then◌else◌, take, length, replicate, bytes_eq,
}
use zknox_hw_falcon.Common.Apdu.{Buffer}
use zknox_hw_falcon.Wallet.State.{
  App, SwapValidated, TokenInfo, address_len, exponent_smallest_unit, zero_context,
  zero_dynamic_token, SwapEc, ec_generic, ec_wrong_amount, ec_wrong_method, ec_wrong_fees,
  ec_wrong_destination, SwapErrorCode, swap_error_code, swap_error_wrong_token_info,
}
use zknox_hw_falcon.Wallet.Sdk.{Sdk}
use zknox_hw_falcon.Wallet.Token.{ticker_text}
use zknox_hw_falcon.Wallet.Review.{address_from_pubkey}

-- `create_transaction_parameters_t`; none is NULL, and a string is the text before its zero.
pub record CreateTransactionParameters : Type 0 where
  pub coin_configuration : Option Bytes
  pub amount : Option Bytes
  pub fee_amount : Bytes
  pub destination_address : Option Bytes

-- `"BOL"`
abbrev pub bol : Bytes
bol = 66 ∷ 79 ∷ 76 ∷ []

-- `is_token_swap`
unfoldable pub is_token_swap : SwapValidated → Bool
is_token_swap v = not (bytes_eq v.ticker bol) || not (v.decimals == exponent_smallest_unit)

-- One character of the recipient: `'a'` to `'z'` in upper case.
unfoldable pub upper : ℕ → ℕ
upper c = if leb 97 c && leb c 122 then c - 97 + 65 else c

-- The ticker and the decimals that a coin configuration, or none, stands for.
unfoldable pub config_of : Sdk → Option Bytes → Option (Bytes × ℕ)
config_of s none = some (bol, exponent_smallest_unit)
config_of s (some config) = s.swap_parse_config config

-- The parameters to store, once the configuration and the numbers are parsed.
unfoldable pub validated : Bytes → Option (Bytes × ℕ) → Option ℕ → Option ℕ → Option SwapValidated
validated destination none amount fee = none
validated destination (some config) none fee = none
validated destination (some config) (some amount) none = none
validated destination (some (ticker, decimals)) (some amount) (some fee) = some (record {
  initialized = true;
  amount = amount;
  fee = fee;
  recipient = map upper destination;
  decimals = decimals;
  ticker = ticker;
})

-- The tests on the pointers and on the length of the address, and what is then stored.
unfoldable pub swap_parameters : Sdk → CreateTransactionParameters → Option SwapValidated
swap_parameters s p = elim p.destination_address [
  | none ↦ none
  | some destination ↦ elim p.amount [
    | none ↦ none
    | some amount ↦
        if not (length destination == address_len * 2)
        then none
        else validated destination (config_of s p.coin_configuration) (s.swap_str_to_u64 amount)
            (s.swap_str_to_u64 p.fee_amount)
  ]
]

-- The app after `os_explicit_zero_BSS_segment`, before the SDK sets `G_called_from_swap`, and the commit of the validated parameters.
abbrev committed : SwapValidated → App
committed v = record {
  context = zero_context;
  dynamic_token = zero_dynamic_token;
  swap_validated = v;
  called_from_swap = false;
  swap_response_ready = false;
}

-- `swap_copy_transaction_parameters(params)`
unfoldable pub swap_copy_transaction_parameters :
    Sdk → CreateTransactionParameters → App → Bool × App
swap_copy_transaction_parameters s p a = elim (swap_parameters s p) [
  | none ↦ (false, a)
  | some v ↦ (true, committed v)
]

-- The tests on the kind of the transaction and on the token.
unfoldable pub token_check : App → TokenInfo → Option (SwapEc × SwapErrorCode)
token_check a info =
    let v = a.swap_validated in
    if a.context.tx_info.is_token_tx
    then (if is_token_swap v
        then (if not (bytes_eq v.ticker (ticker_text a.dynamic_token info.ticker))
              || not (v.decimals == info.decimals)
            then some (ec_wrong_amount, swap_error_wrong_token_info)
            else none)
        else some (ec_wrong_method, swap_error_code))
    else if is_token_swap v
    then some (ec_wrong_method, swap_error_code)
    else none

-- The text that `format_hex` leaves in the zeroed `to[41]`.
abbrev pub hex_text : Option Bytes → Bytes
hex_text none = []
hex_text (some text) = text

-- `swap_check_validity(amount, fee, destination, token_info)`: none for true, or the error that
-- goes back to the Exchange app.
unfoldable pub swap_check_validity :
    Sdk → App → ℕ → ℕ → Bytes → TokenInfo → Option (SwapEc × SwapErrorCode)
swap_check_validity s a amount fee destination info =
    let v = a.swap_validated in
    if not v.initialized then some (ec_generic, swap_error_code) else elim (token_check a info) [
      | some e ↦ some e
      | none ↦
          if not (v.amount == amount)
          then some (ec_wrong_amount, swap_error_code)
          else if not (v.fee == fee)
          then some (ec_wrong_fees, swap_error_code)
          else if not
              (bytes_eq v.recipient (hex_text (s.format_hex (take address_len destination) 41)))
          then some (ec_wrong_destination, swap_error_code)
          else none
    ]

-- `check_address_parameters_t`
pub record CheckAddressParameters : Type 0 where
  pub address_parameters : Option Bytes
  pub address_to_check : Option Bytes

-- The address of the derived key, or the zeroed array if the hash fails.
unfoldable pub derived_address : Sdk → Bytes → Bytes
derived_address s public_key = elim (address_from_pubkey s public_key address_len) [
  | none ↦ replicate address_len 0
  | some address ↦ address
]

-- `swap_handle_check_address(params)`: the `result`. The verdicts of the two reads are ignored.
unfoldable pub swap_handle_check_address : Sdk → CheckAddressParameters → ℕ
swap_handle_check_address s p = elim p.address_parameters [
  | none ↦ 0
  | some parameters ↦ elim p.address_to_check [
    | none ↦ 0
    | some address_to_check ↦
        let buf : Buffer = record { ptr = parameters; size = length parameters; offset = 0 } in
        let (path_len, b1) = (s.buffer_read_u8 buf).1 in
        let path = (s.buffer_read_bip32_path b1 path_len).1.0 in
        let key = s.derive_pubkey path path_len in
        let text = hex_text (s.format_hex (derived_address s key.raw_public_key) 41) in
        if not (length address_to_check == address_len * 2)
        then 0
        else if not (key.error == 0)
        then 0
        else if bytes_eq text address_to_check
        then 1
        else 0
  ]
]

-- `get_printable_amount_parameters_t`
pub record GetPrintableAmountParameters : Type 0 where
  pub coin_configuration : Option Bytes
  pub amount : Bytes
  pub is_fee : Bool

-- The text that `snprintf` leaves in `printable_amount`, of `size` bytes.
unfoldable pub printed : Sdk → ℕ → Option ℕ → Option (Bytes × ℕ) → Bytes
printed s size none config = []
printed s size (some amount) none = []
printed s size (some amount) (some (ticker, decimals)) =
    take (size - 1) (hex_text (s.format_fpu64 30 amount decimals) ++ (32 ∷ ticker))

-- `swap_handle_get_printable_amount(params)`: the text in `printable_amount`.
unfoldable pub swap_handle_get_printable_amount : Sdk → ℕ → GetPrintableAmountParameters → Bytes
swap_handle_get_printable_amount s size p =
    printed s size (s.swap_str_to_u64 p.amount)
      (if p.is_fee then some (bol, exponent_smallest_unit) else config_of s p.coin_configuration)
