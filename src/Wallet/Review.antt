-- ===== src/Wallet/Review.antt =====
-- What the user reviews and what an approval sends (src/ui/nbgl_display_transaction.c,
-- src/ui/nbgl_display_address.c, src/ui/action/validate.c, src/helper/send_reponse.c,
-- src/address.c).
use Prim.Native.Nat.{bit_and}
use zknox_hw_falcon.Common.{
  ℕ, ◌+◌, ◌-◌, ◌%◌, ◌^◌, Bytes, List, [], ◌∷◌, ◌++◌, Option, some, none, Bool, true, false, not,
  ◌&&◌, ◌==◌, ltb, if◌then◌else◌, take, drop,
}
use zknox_hw_falcon.Common.Apdu.{
  Response, send_sw, send_response, swo_success, swo_incorrect_data, swo_conditions_not_satisfied,
}
use zknox_hw_falcon.Wallet.State.{
  AppState, state_none, state_parsed, state_approved, RequestType, confirm_address,
  confirm_transaction, confirm_token_transaction, confirm_blind_sign_hash, TransactionContext, App,
  address_len, exponent_smallest_unit, ReviewItem, token_item, amount_item, to_item, address_screen,
  transaction_screen, hash_screen, Outcome, answers, reviews,
}
use zknox_hw_falcon.Wallet.Sdk.{Sdk}
use zknox_hw_falcon.Wallet.Serialize.{bytes_at}
use zknox_hw_falcon.Wallet.Token.{ticker_text}

-- `SWO_SECURITY_ISSUE`
abbrev pub swo_security_issue : ℕ
swo_security_issue = 0x6982

-- `address_from_pubkey(public_key, out, out_len)`
unfoldable pub address_from_pubkey : Sdk → Bytes → ℕ → Option Bytes
address_from_pubkey s public_key out_len =
    let (e, address) = s.keccak_256 (take 64 (drop 1 public_key)) in
    if ltb out_len address_len
    then none
    else if e == 0
    then some (drop (32 - address_len) address)
    else none

-- `helper_send_response_pubkey`
unfoldable pub helper_send_response_pubkey : App → Response
helper_send_response_pubkey a =
    send_response
      (65
        ∷ (take 65 a.context.pk_info.raw_public_key ++ (32 ∷ take 32 a.context.pk_info.chain_code)))
      swo_success

-- `helper_send_response_sig`
unfoldable pub helper_send_response_sig : App → Response
helper_send_response_sig a =
    let t = a.context.tx_info in
    send_response (t.signature_len ∷ (take t.signature_len t.signature ++ (t.v ∷ []))) swo_success

-- `validate_pubkey(choice)`
unfoldable pub validate_pubkey : App → Bool → Response
validate_pubkey a choice =
    if choice then helper_send_response_pubkey a else send_sw swo_conditions_not_satisfied

-- The assignment to `G_context.state`.
abbrev pub set_state : AppState → App → App
set_state x a = record a { context = record (a.context) { state = x } }

abbrev pub set_tx : TransactionContext → App → App
set_tx t a = record a { context = record (a.context) { tx_info = t } }

-- `crypto_sign_message`: whether it returns 0.
unfoldable pub crypto_sign_message : Sdk → App → Bool × App
crypto_sign_message s a =
    let t = a.context.tx_info in
    let g = s.ecdsa_sign a.context.bip32_path a.context.bip32_path_len t.m_hash in
    let t1 = record t { signature = g.signature } in
    if g.error == 0
    then (
      true,
      set_tx
          (record t1 {
            signature_len = g.sig_len % 2 ^ 8;
            v = bit_and g.info s.eccinfo_parity_odd % 2 ^ 8;
          })
          a,
    )
    else (false, set_tx t1 a)

-- `validate_transaction(choice)`, the callback of a transaction's review.
unfoldable pub validate_transaction : Sdk → App → Bool → App × Response
validate_transaction s a choice =
    let (signed, a') = crypto_sign_message s (set_state state_approved a) in
    if choice
    then (if not signed
        then (set_state state_none a', send_sw swo_security_issue)
        else (a', helper_send_response_sig a'))
    else (set_state state_none a, send_sw swo_conditions_not_satisfied)

-- Equality of two request types, and of two states.
abbrev pub same_request : RequestType → RequestType → Bool
same_request confirm_address confirm_address = true
same_request confirm_transaction confirm_transaction = true
same_request confirm_token_transaction confirm_token_transaction = true
same_request confirm_blind_sign_hash confirm_blind_sign_hash = true
same_request a b = false

abbrev pub is_parsed : AppState → Bool
is_parsed state_parsed = true
is_parsed state_none = false
is_parsed state_approved = false

-- `" BOL"` and `" "`
abbrev bol_suffix : Bytes
bol_suffix = 32 ∷ 66 ∷ 79 ∷ 76 ∷ []

-- The text after the amount: the ticker of the token, or BOL.
abbrev amount_suffix : App → Bool → Bytes
amount_suffix a is_token =
    if is_token
    then 32 ∷ ticker_text a.dynamic_token a.context.tx_info.token_info.ticker
    else bol_suffix

-- The pairs of a transaction's review; `g_amount` and `g_token` cut their texts.
unfoldable pub review_pairs : App → Bool → Bytes → Bytes → List (ReviewItem × Bytes)
review_pairs a is_token amount address =
    let rest =
      (amount_item, take 29 (amount ++ amount_suffix a is_token)) ∷ (to_item, address) ∷ [] in
    if is_token
    then (token_item, take 9 (ticker_text a.dynamic_token a.context.tx_info.token_info.ticker))
      ∷ rest
    else rest

-- The rest of `ui_display_transaction_bs_token_choice` after the state test.
unfoldable pub display_review : App → Bool → Bool → Option Bytes → Option Bytes → Outcome
display_review a blind is_token none address = answers (send_sw swo_incorrect_data)
display_review a blind is_token (some amount) none = answers (send_sw swo_incorrect_data)
display_review a blind is_token (some amount) (some address) =
    reviews (transaction_screen blind is_token (review_pairs a is_token amount address))

-- `ui_display_transaction_bs_token_choice(is_blind_signing, is_token_signing)`
unfoldable pub ui_display_transaction_bs_token_choice : Sdk → App → Bool → Bool → App × Outcome
ui_display_transaction_bs_token_choice s a blind is_token =
    let t = a.context.tx_info in
    let expected = if is_token then confirm_token_transaction else confirm_transaction in
    let decimals = if is_token then t.token_info.decimals else exponent_smallest_unit in
    if not (same_request a.context.req_type expected && is_parsed a.context.state)
    then (set_state state_none a, answers (send_sw swo_conditions_not_satisfied))
    else (
      a,
      display_review a blind is_token
          (s.format_fpu64 (50 + s.max_ticker_size) t.transaction.value decimals)
          (s.format_hex (bytes_at t.raw_tx t.transaction.to address_len) 43),
    )

-- `ui_display_blind_signed_transaction`, `ui_display_transaction`,
-- `ui_display_token_transaction`
unfoldable pub ui_display_blind_signed_transaction : Sdk → App → App × Outcome
ui_display_blind_signed_transaction s a = ui_display_transaction_bs_token_choice s a true false

unfoldable pub ui_display_transaction : Sdk → App → App × Outcome
ui_display_transaction s a = ui_display_transaction_bs_token_choice s a false false

unfoldable pub ui_display_token_transaction : Sdk → App → App × Outcome
ui_display_token_transaction s a = ui_display_transaction_bs_token_choice s a false true

unfoldable pub display_hash : Option Bytes → Outcome
display_hash none = answers (send_sw swo_incorrect_data)
display_hash (some text) = reviews (hash_screen text)

-- `ui_display_blind_sign_hash`, which no handler calls.
unfoldable pub ui_display_blind_sign_hash : Sdk → App → App × Outcome
ui_display_blind_sign_hash s a =
    if not (same_request a.context.req_type confirm_blind_sign_hash && is_parsed a.context.state)
    then (set_state state_none a, answers (send_sw swo_conditions_not_satisfied))
    else (a, display_hash (s.format_hex (take 32 a.context.tx_info.m_hash) 65))

unfoldable pub display_address : Sdk → Option Bytes → Outcome
display_address s none = answers (send_sw swo_incorrect_data)
display_address s (some address) = elim (s.format_hex address 43) [
  | none ↦ answers (send_sw swo_incorrect_data)
  | some text ↦ reviews (address_screen text)
]

abbrev is_idle : AppState → Bool
is_idle state_none = true
is_idle state_parsed = false
is_idle state_approved = false

-- `ui_display_address`
unfoldable pub ui_display_address : Sdk → App → App × Outcome
ui_display_address s a =
    if not (same_request a.context.req_type confirm_address && is_idle a.context.state)
    then (set_state state_none a, answers (send_sw swo_conditions_not_satisfied))
    else (a, display_address s (address_from_pubkey s a.context.pk_info.raw_public_key address_len))
