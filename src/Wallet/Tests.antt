-- ===== src/Wallet/Tests.antt =====
-- The theorems about the wallet part and `hash_to_point` at concrete inputs.
use zknox_hw_falcon.Common.{
  Bool, ℕ, ◌^◌, ◌≤◌, ◌≡◌, ◌≢◌, ◌↔◌, ◌⊎◌, refl, Bytes, [], ◌∷◌, ◌++◌, some, none, true, false, arith,
  length, take, replicate, bytes_eq,
}
use zknox_hw_falcon.Common.Apdu.{
  Buffer, Response, send_sw, send_response, swo_success, swo_incorrect_p1_p2,
}
use zknox_hw_falcon.LowRam.Sessions.{blank}
use zknox_hw_falcon.LowRam.Toy.{toy}
use zknox_hw_falcon.Wallet.State.{
  App, Transaction, SwapValidated, zero_context, DynamicTokenInfo, zero_dynamic_token,
  zero_transaction, parsing_ok, memo_length_error, TokenInfo, null_ticker, reviews, answers, Screen,
  transaction_screen, amount_item, to_item, state_approved, state_none,
}
use zknox_hw_falcon.Wallet.Toy.{toy_sdk, toy_sdk-IsBufferSdk, toy_sdk-IsWireSdk, toy_sdk-IsMoving}
use zknox_hw_falcon.Wallet.Parse.{
  transaction_deserialize, read_token_address, read_value, read_memo, check_encoding,
}
use zknox_hw_falcon.Wallet.ParseLaws.{
  IsWithin, transaction_deserialize-IsWithin, transaction_deserialize-memo_length,
}
use zknox_hw_falcon.Wallet.Serialize.{bytes_at, transaction_serialize}
use zknox_hw_falcon.Wallet.Token.{get_token_info, handler_provide_token_info}
use zknox_hw_falcon.Wallet.TokenLookup.{
  shown, entry_shown, first_for, known_tokens, get_token_info-first,
}
use zknox_hw_falcon.Wallet.SwapCopy.{IsStored, swap_copy_transaction_parameters-stores}
use zknox_hw_falcon.Wallet.Swap.{
  CreateTransactionParameters, swap_copy_transaction_parameters, swap_check_validity,
}
use zknox_hw_falcon.Wallet.SwapCheck.{
  IsPromised, IsEnded, swap_check_validity_iff, check_and_sign_swap_tx-outcome,
}
use zknox_hw_falcon.Wallet.Review.{
  validate_transaction, ui_display_transaction, ui_display_transaction_bs_token_choice,
  display_review, review_pairs,
}
use zknox_hw_falcon.Wallet.SignTx.{
  handler_sign_tx, init_transaction_context, read_path, accumulate_transaction_data,
  finish_transaction, process_transaction, hash_transaction, ask_user, check_and_sign_swap_tx,
  Build,
}
use zknox_hw_falcon.Wallet.Reviewed.{
  IsProcessed, IsShown, handler_sign_tx-IsShown, validate_transaction-signs,
}
use zknox_hw_falcon.Wallet.RawTx.{IsBounded, apdu_dispatcher-IsBounded}
use zknox_hw_falcon.Wallet.Dispatcher.{Command, Machine, apdu_dispatcher}
use zknox_hw_falcon.Wallet.Refusals.{refusal, apdu_dispatcher-refuses}
use zknox_hw_falcon.Falcon.HashToPoint.{word, hash_to_point}
use zknox_hw_falcon.Falcon.Rejection.{
  accepted, coefficients, AllBelow, output, hash_to_point-coefficients,
}
use zknox_hw_falcon.Wallet.RoundTrip.{IsSendable, read_to, transaction_serialize-deserialize}

-- An address, a memo, and the transaction that they stand in.
abbrev sample_base : Bytes
sample_base = replicate 20 9 ++ (72 ∷ 105 ∷ [])

abbrev sample_tx : Transaction
sample_tx = record {
  nonce = 1;
  value = 2;
  fee = 0;
  to = some 0;
  token_address = none;
  memo = some 20;
  memo_len = 2;
}

sample-IsSendable : IsSendable sample_base sample_tx
unfolding bytes_at check_encoding
sample-IsSendable = record {
  nonce_u64 = omega arith;
  value_u64 = omega arith;
  to_length = refl;
  memo_short = omega arith;
  memo_length = refl;
  memo_ascii = refl;
}

transaction_serialize-deserialize_example :
    (out : Bytes) × (transaction_serialize toy_sdk sample_base sample_tx 510 ≡ some out)
    × (let (status, tx') = transaction_deserialize toy_sdk (read_to out 0) zero_transaction false in
        (status ≡ parsing_ok)
        × (tx'.nonce ≡ 1)
        × (tx'.value ≡ 2)
        × (tx'.fee ≡ 0)
        × (tx'.memo_len ≡ 2)
        × (tx'.token_address ≡ none)
        × (bytes_at out tx'.to 20 ≡ bytes_at sample_base (some 0) 20)
        × (bytes_at out tx'.memo 2 ≡ bytes_at sample_base (some 20) 2))
transaction_serialize-deserialize_example =
    transaction_serialize-deserialize toy_sdk toy_sdk-IsBufferSdk toy_sdk-IsWireSdk sample_base
      sample_tx zero_transaction 510 sample-IsSendable (omega arith) (omega arith)

-- The same transaction as bytes.
abbrev sample_wire : Bytes
sample_wire =
    (replicate 7 0 ++ (1 ∷ []))
    ++ (replicate 20 9
        ++ ((replicate 7 0 ++ (2 ∷ [])) ++ ((0xFF ∷ replicate 7 0 ++ (2 ∷ [])) ++ (72 ∷ 105 ∷ []))))

sample_parses :
    (transaction_deserialize toy_sdk (read_to sample_wire 0) zero_transaction false).0 ≡ parsing_ok
unfolding transaction_deserialize read_token_address read_value read_memo check_encoding
sample_parses = refl

transaction_deserialize-IsWithin_example :
    (length sample_wire ≤ 510)
    × IsWithin sample_wire
        (length sample_wire)
        false
        (transaction_deserialize toy_sdk (read_to sample_wire 0) zero_transaction false).1
transaction_deserialize-IsWithin_example =
    transaction_deserialize-IsWithin toy_sdk toy_sdk-IsBufferSdk (read_to sample_wire 0)
      zero_transaction false (omega arith) sample_parses

transaction_deserialize-memo_length_example :
    (transaction_deserialize toy_sdk (read_to (take 36 sample_wire) 0) zero_transaction false).0
    ≢ memo_length_error
transaction_deserialize-memo_length_example =
    transaction_deserialize-memo_length toy_sdk toy_sdk-IsBufferSdk
      (read_to (take 36 sample_wire) 0) zero_transaction false

abbrev idle : App
idle = record {
  context = zero_context;
  dynamic_token = zero_dynamic_token;
  swap_validated = record {
    initialized = true;
    amount = 5;
    fee = 0;
    recipient = replicate 40 65;
    decimals = 3;
    ticker = 66 ∷ 79 ∷ 76 ∷ [];
  };
  called_from_swap = false;
  swap_response_ready = false;
}

abbrev no_token : TokenInfo
no_token = record { ticker = null_ticker; decimals = 0 }

get_token_info-first_example :
    shown zero_dynamic_token (get_token_info zero_dynamic_token (some (replicate 32 1)) no_token)
    ≡ entry_shown (first_for (replicate 32 1) (known_tokens zero_dynamic_token))
get_token_info-first_example = get_token_info-first zero_dynamic_token (replicate 32 1) no_token

descriptor_data : Buffer
descriptor_data = record { ptr = replicate 60 1; size = 60; offset = 0 }

abbrev provided : DynamicTokenInfo × Response
provided = handler_provide_token_info toy_sdk descriptor_data zero_dynamic_token

swap_check_validity_iff_example :
    (swap_check_validity toy_sdk idle 5 0 (replicate 20 9) no_token ≡ none)
    ↔ IsPromised toy_sdk idle 5 0 (replicate 20 9) no_token
swap_check_validity_iff_example = swap_check_validity_iff toy_sdk idle 5 0 (replicate 20 9) no_token

check_and_sign_swap_tx-outcome_example : IsEnded toy_sdk idle (check_and_sign_swap_tx toy_sdk idle)
check_and_sign_swap_tx-outcome_example = check_and_sign_swap_tx-outcome toy_sdk idle

-- The app after the first chunk, which holds the path, and the second, which holds the
-- transaction.
path_data : Buffer
path_data = record { ptr = 5 ∷ []; size = 1; offset = 0 }

abbrev opened : App
opened = (handler_sign_tx toy_sdk path_data 0 true false idle).0

abbrev sample_screen : Screen
sample_screen =
    transaction_screen false false
      ((amount_item, 49 ∷ 32 ∷ 66 ∷ 79 ∷ 76 ∷ []) ∷ (to_item, replicate 40 65) ∷ [])

sample_shown :
    (handler_sign_tx toy_sdk (read_to sample_wire 0) 1 false false opened).1 ≡ reviews sample_screen
unfolding handler_sign_tx init_transaction_context read_path accumulate_transaction_data
    finish_transaction process_transaction hash_transaction ask_user transaction_deserialize
    read_token_address read_value read_memo check_encoding get_token_info ui_display_transaction
    ui_display_transaction_bs_token_choice display_review review_pairs bytes_at zero_context
    path_data bytes_eq
sample_shown = refl

handler_sign_tx-IsShown_example :
    let a' = (handler_sign_tx toy_sdk (read_to sample_wire 0) 1 false false opened).0 in
    IsProcessed toy_sdk false a' × IsShown toy_sdk false a' sample_screen
handler_sign_tx-IsShown_example =
    handler_sign_tx-IsShown toy_sdk (read_to sample_wire 0) 1 false false opened sample_screen
      sample_shown

validate_transaction-signs_example :
    let (a', r) = validate_transaction toy_sdk opened true in
    ((true ≡ true)
      × (◌≡◌ {A = ℕ} 0 0)
      × (a'.context.state ≡ state_approved)
      × (r ≡ send_response (70 ∷ (replicate 70 48 ++ (1 ∷ []))) swo_success))
    ⊎ ((a'.context.state ≡ state_none) × (r.data_out ≡ []) × (r.sw ≢ swo_success))
validate_transaction-signs_example = validate_transaction-signs toy_sdk opened true

abbrev machine : Machine
machine = record { app = idle; device = blank }

abbrev toy_build : Build
toy_build = record { app_name = 90 ∷ []; major_version = 1; minor_version = 0; patch_version = 0 }

abbrev bad_command : Command
bad_command = record {
  cla = 0xE0;
  ins = 0x06;
  p1 = 4;
  p2 = 0;
  lc = 1;
  data_in = some (5 ∷ []);
  rng = [];
}

idle-IsBounded : IsBounded idle
unfolding zero_context
idle-IsBounded = record { raw_size = refl; len_fits = omega arith }

apdu_dispatcher-IsBounded_example :
    IsBounded (apdu_dispatcher toy_sdk toy toy_build (record bad_command { p1 = 1 }) machine).0.app
apdu_dispatcher-IsBounded_example =
    apdu_dispatcher-IsBounded toy_sdk toy toy_build (record bad_command { p1 = 1 }) machine
      toy_sdk-IsMoving idle-IsBounded

bad_command_refused : refusal bad_command ≡ some swo_incorrect_p1_p2
unfolding refusal
bad_command_refused = refl

apdu_dispatcher-refuses_example :
    apdu_dispatcher toy_sdk toy toy_build bad_command machine
    ≡ (machine, answers (send_sw swo_incorrect_p1_p2))
apdu_dispatcher-refuses_example =
    apdu_dispatcher-refuses toy_sdk toy toy_build bad_command machine swo_incorrect_p1_p2
      bad_command_refused

-- Four words of the toy hash, which are 0, 0, 0 and 0.
toy_accepted : 2 ^ 2 ≤ accepted (output toy (replicate 40 1) (7 ∷ [])) 4 0
unfolding accepted word bytes_eq
toy_accepted = omega arith

hash_to_point-coefficients_example :
    let p = take (2 ^ 2) (coefficients (output toy (replicate 40 1) (7 ∷ [])) 4 0) in
    (hash_to_point toy 4 2 (replicate 40 1) (7 ∷ []) ≡ some p)
    × (length p ≡ 2 ^ 2)
    × AllBelow 12289 p
hash_to_point-coefficients_example =
    hash_to_point-coefficients toy 4 2 (replicate 40 1) (7 ∷ []) toy_accepted

abbrev exchange_parameters : CreateTransactionParameters
exchange_parameters = record {
  coin_configuration = none;
  amount = some (5 ∷ []);
  fee_amount = 0 ∷ [];
  destination_address = some (replicate 40 97);
}

abbrev copied : Bool × App
copied = swap_copy_transaction_parameters toy_sdk exchange_parameters idle

swap_copy_transaction_parameters-stores_example :
    ((copied.0 ≡ true)
      × IsStored toy_sdk exchange_parameters copied.1.swap_validated
      × (copied.1.context ≡ zero_context)
      × (copied.1.dynamic_token ≡ zero_dynamic_token)
      × (copied.1.swap_response_ready ≡ false))
    ⊎ ((copied.0 ≡ false)
        × (copied.1 ≡ idle)
        × ((v : SwapValidated) → ¬ IsStored toy_sdk exchange_parameters v))
swap_copy_transaction_parameters-stores_example =
    swap_copy_transaction_parameters-stores toy_sdk exchange_parameters idle
