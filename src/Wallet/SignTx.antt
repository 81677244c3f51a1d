-- ===== src/Wallet/SignTx.antt =====
-- SIGN_TX and SIGN_TOKEN_TX (src/handler/sign_tx.c), and GET_PUBLIC_KEY, GET_VERSION and
-- GET_APP_NAME (src/handler/get_public_key.c, get_version.c, get_app_name.c).
use zknox_hw_falcon.Common.{
  ℕ, ◌+◌, Bytes, [], ◌∷◌, ◌++◌, Option, some, none, Bool, true, false, not, ◌==◌, ltb,
  if◌then◌else◌, take, drop, bytes_eq,
}
use zknox_hw_falcon.Common.Apdu.{
  Buffer, Response, send_sw, send_response, swo_success, swo_incorrect_data, swo_wrong_data_length,
  swo_conditions_not_satisfied,
}
use zknox_hw_falcon.Wallet.State.{
  state_none, state_parsed, RequestType, confirm_address, confirm_transaction,
  confirm_token_transaction, App, ParserStatus, parsing_ok, max_transaction_len, zero_context,
  token_address_len, address_len, Outcome, answers, exits, fails_swap, ec_generic, swap_error_code,
}
use zknox_hw_falcon.Wallet.Sdk.{Sdk}
use zknox_hw_falcon.Wallet.Parse.{transaction_deserialize}
use zknox_hw_falcon.Wallet.Serialize.{bytes_at}
use zknox_hw_falcon.Wallet.Token.{get_token_info}
use zknox_hw_falcon.Wallet.Swap.{swap_check_validity}
use zknox_hw_falcon.Wallet.Review.{
  same_request, set_state, set_tx, validate_transaction, helper_send_response_pubkey,
  ui_display_address, ui_display_blind_signed_transaction, ui_display_transaction,
  ui_display_token_transaction,
}

-- The fresh context with the path that the data holds, and whether both reads succeeded.
unfoldable pub read_path : Sdk → Buffer → RequestType → App → Bool × App
read_path s cdata req_type a =
    let c = record zero_context { req_type = req_type; state = state_none } in
    let (ok, (len, b)) = s.buffer_read_u8 cdata in
    let (ok', (path, b')) = s.buffer_read_bip32_path b len in
    let c1 = record c { bip32_path_len = len } in
    if not ok
    then (false, record a { context = c1 })
    else (ok', record a { context = record c1 { bip32_path = path } })

-- `init_transaction_context(cdata, req_type)`
unfoldable pub init_transaction_context : Sdk → Buffer → RequestType → App → App × Outcome
init_transaction_context s cdata req_type a =
    let (ok, a') = read_path s cdata req_type a in
    if not ok
    then (a', answers (send_sw swo_wrong_data_length))
    else (a', answers (send_sw swo_success))

-- `accumulate_transaction_data(cdata, req_type)`: the status word.
unfoldable pub accumulate_transaction_data : Sdk → Buffer → RequestType → App → App × ℕ
accumulate_transaction_data s cdata req_type a =
    let t = a.context.tx_info in
    let (moved, chunk) = s.buffer_move cdata cdata.size in
    if not (same_request a.context.req_type req_type)
    then (a, swo_conditions_not_satisfied)
    else if ltb max_transaction_len (t.raw_tx_len + cdata.size)
    then (a, swo_wrong_data_length)
    else if not moved
    then (a, swo_incorrect_data)
    else (
      set_tx
          (record t {
            raw_tx =
                take t.raw_tx_len t.raw_tx ++ (chunk ++ drop (t.raw_tx_len + cdata.size) t.raw_tx);
            raw_tx_len = t.raw_tx_len + cdata.size;
          })
          a,
      swo_success,
    )

-- The address that a token transaction's pointer leads to, or none for NULL.
abbrev pub token_address_of : Bytes → Option ℕ → Option Bytes
token_address_of raw none = none
token_address_of raw (some p) = some (bytes_at raw (some p) token_address_len)

abbrev pub is_parsing_ok : ParserStatus → Bool
is_parsing_ok parsing_ok = true
is_parsing_ok other = false

-- From `G_context.state = STATE_PARSED` on.
unfoldable pub hash_transaction : Sdk → App → App × ℕ
hash_transaction s a =
    let t = a.context.tx_info in
    let (e, hash) = s.keccak_256 (take t.raw_tx_len t.raw_tx) in
    (
      set_state state_parsed (set_tx (record t { m_hash = hash }) a),
      if not (e == 0) then swo_incorrect_data else swo_success,
    )

-- `process_transaction(is_token_tx)`: the status word.
unfoldable pub process_transaction : Sdk → Bool → App → App × ℕ
process_transaction s is_token a =
    let t = a.context.tx_info in
    let buf : Buffer = record { ptr = t.raw_tx; size = t.raw_tx_len; offset = 0 } in
    let (status, tx) = transaction_deserialize s buf t.transaction is_token in
    let t1 = record t { is_token_tx = is_token; transaction = tx } in
    let (found, info) =
      get_token_info a.dynamic_token (token_address_of t.raw_tx tx.token_address) t.token_info in
    let t2 = record t1 { token_info = info } in
    if not (is_parsing_ok status)
    then (set_tx t1 a, swo_incorrect_data)
    else if is_token
    then (if not found then (set_tx t2 a, swo_incorrect_data) else hash_transaction s (set_tx t2 a))
    else hash_transaction s (set_tx t1 a)

-- `check_and_sign_swap_tx`: the app always ends, after an answer or with an error.
unfoldable pub check_and_sign_swap_tx : Sdk → App → App × Outcome
check_and_sign_swap_tx s a =
    let t = a.context.tx_info in
    let a1 = record a { swap_response_ready = true } in
    let (a2, r) = validate_transaction s a1 true in
    if a.swap_response_ready
    then (a, exits none)
    else elim (swap_check_validity s a1 t.transaction.value t.transaction.fee
        (bytes_at t.raw_tx t.transaction.to address_len) t.token_info) [
          | some (ec, code) ↦ (a1, fails_swap ec code)
          | none ↦ (a2, exits (some r))
        ]

-- A string: the bytes before the first zero.
abbrev pub c_string : Bytes → Bytes
c_string [] = []
c_string (x ∷ xs) = elim (x == 0) [ true ↦ [] | false ↦ x ∷ c_string xs ]

-- The string at a pointer into `base`.
abbrev pub string_at : Bytes → Option ℕ → Bytes
string_at base none = []
string_at base (some p) = c_string (drop p base)

-- `"Blind-sign"`
abbrev pub blind_sign : Bytes
blind_sign = 66 ∷ 108 ∷ 105 ∷ 110 ∷ 100 ∷ 45 ∷ 115 ∷ 105 ∷ 103 ∷ 110 ∷ []

-- The end of `handler_sign_tx`, from the swap test on.
unfoldable pub ask_user : Sdk → Bool → App → App × Outcome
ask_user s is_token a =
    let t = a.context.tx_info in
    if a.called_from_swap
    then check_and_sign_swap_tx s a
    else if bytes_eq (string_at t.raw_tx t.transaction.memo) blind_sign
    then ui_display_blind_signed_transaction s a
    else if is_token
    then ui_display_token_transaction s a
    else ui_display_transaction s a

-- The last APDU of a transaction, once its data is accumulated.
unfoldable pub finish_transaction : Sdk → Bool → App → App × Outcome
finish_transaction s is_token a =
    let (a', err) = process_transaction s is_token a in
    if not (err == swo_success)
    then (if a'.called_from_swap
        then (a', fails_swap ec_generic swap_error_code)
        else (a', answers (send_sw err)))
    else ask_user s is_token a'

-- `handler_sign_tx(cdata, chunk, more, is_token_tx)`
unfoldable pub handler_sign_tx : Sdk → Buffer → ℕ → Bool → Bool → App → App × Outcome
handler_sign_tx s cdata chunk more is_token a =
    let req_type = if is_token then confirm_token_transaction else confirm_transaction in
    let (a', err) = accumulate_transaction_data s cdata req_type a in
    if chunk == 0
    then init_transaction_context s cdata req_type a
    else if not (err == swo_success)
    then (a', answers (send_sw err))
    else if more
    then (a', answers (send_sw swo_success))
    else finish_transaction s is_token a'

-- `handler_get_public_key(cdata, display)`
unfoldable pub handler_get_public_key : Sdk → Buffer → Bool → App → App × Outcome
handler_get_public_key s cdata display a =
    let (ok, a1) = read_path s cdata confirm_address a in
    let key = s.derive_pubkey a1.context.bip32_path a1.context.bip32_path_len in
    let a2 = record a1 {
      context = record (a1.context) {
        pk_info = record { raw_public_key = key.raw_public_key; chain_code = key.chain_code };
      };
    } in
    if not ok
    then (a1, answers (send_sw swo_wrong_data_length))
    else if not (key.error == 0)
    then (a2, answers (send_sw key.error))
    else if display
    then ui_display_address s a2
    else (a2, answers (helper_send_response_pubkey a2))

-- `APPNAME`, and the three version numbers of the Makefile, are given by the build.
pub record Build : Type 0 where
  pub app_name : Bytes
  pub major_version : ℕ
  pub minor_version : ℕ
  pub patch_version : ℕ

-- `handler_get_version`
unfoldable pub handler_get_version : Build → Response
handler_get_version b =
    send_response (b.major_version ∷ b.minor_version ∷ b.patch_version ∷ []) swo_success

-- `handler_get_app_name`
unfoldable pub handler_get_app_name : Build → Response
handler_get_app_name b = send_response b.app_name swo_success
