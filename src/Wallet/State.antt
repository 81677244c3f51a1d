-- ===== src/Wallet/State.antt =====
-- The data of the wallet part (src/transaction/tx_types.h, src/types.h,
-- src/token/dynamic_token_info.c, src/swap/handle_swap_sign_transaction.c).
use zknox_hw_falcon.Common.Apdu.{Response}
use zknox_hw_falcon.Common.{ℕ, Bytes, List, [], Bool, false, Option, none, replicate}

-- `MAX_TX_LEN`, `ADDRESS_LEN`, `MAX_MEMO_LEN`, `TOKEN_ADDRESS_LEN`, `MAX_TRANSACTION_LEN`
abbrev pub max_tx_len : ℕ
max_tx_len = 510

abbrev pub address_len : ℕ
address_len = 20

abbrev pub max_memo_len : ℕ
max_memo_len = 465

abbrev pub token_address_len : ℕ
token_address_len = 32

abbrev pub max_transaction_len : ℕ
max_transaction_len = 510

-- `EXPONENT_SMALLEST_UNIT`
abbrev pub exponent_smallest_unit : ℕ
exponent_smallest_unit = 3

-- `parser_status_e`
pub data ParserStatus : Type 0 where
  parsing_ok : ParserStatus
  nonce_parsing_error : ParserStatus
  to_parsing_error : ParserStatus
  value_parsing_error : ParserStatus
  memo_length_error : ParserStatus
  memo_parsing_error : ParserStatus
  memo_encoding_error : ParserStatus
  wrong_length_error : ParserStatus
  token_address_parsing_error : ParserStatus

-- `transaction_t`. A pointer is an offset into the parsed bytes, and none is NULL.
pub record Transaction : Type 0 where
  pub nonce : ℕ
  pub value : ℕ
  pub fee : ℕ
  pub to : Option ℕ
  pub token_address : Option ℕ
  pub memo : Option ℕ
  pub memo_len : ℕ

-- `state_e`
pub data AppState : Type 0 where
  state_none : AppState
  state_parsed : AppState
  state_approved : AppState

-- `request_type_e`
pub data RequestType : Type 0 where
  confirm_address : RequestType
  confirm_transaction : RequestType
  confirm_token_transaction : RequestType
  confirm_blind_sign_hash : RequestType

-- `pubkey_ctx_t`
pub record PubkeyContext : Type 0 where
  pub raw_public_key : Bytes
  pub chain_code : Bytes

-- Where the `ticker` pointer of a `token_info_t` leads: it is not copied.
pub data TickerRef : Type 0 where
  null_ticker : TickerRef
  dynamic_ticker : TickerRef
  database_ticker : Bytes → TickerRef

-- `token_info_t`
pub record TokenInfo : Type 0 where
  pub ticker : TickerRef
  pub decimals : ℕ

-- `transaction_ctx_t`
pub record TransactionContext : Type 0 where
  pub is_token_tx : Bool
  pub token_info : TokenInfo
  pub raw_tx : Bytes
  pub raw_tx_len : ℕ
  pub transaction : Transaction
  pub m_hash : Bytes
  pub signature : Bytes
  pub signature_len : ℕ
  pub v : ℕ

-- `global_ctx_t`. The two members of the union are two fields: a handler that fills one has
-- zeroed both, and what is read of the other afterwards lies past the shorter member.
pub record GlobalContext : Type 0 where
  pub state : AppState
  pub pk_info : PubkeyContext
  pub tx_info : TransactionContext
  pub req_type : RequestType
  pub bip32_path : List ℕ
  pub bip32_path_len : ℕ

-- `dynamic_token_info_t`; the ticker is the text before its terminating zero.
pub record DynamicTokenInfo : Type 0 where
  pub received : Bool
  pub address : Bytes
  pub ticker : Bytes
  pub decimals : ℕ

-- `swap_validated_t`; `recipient` and `ticker` are the texts before their terminating zero.
pub record SwapValidated : Type 0 where
  pub initialized : Bool
  pub amount : ℕ
  pub fee : ℕ
  pub recipient : Bytes
  pub decimals : ℕ
  pub ticker : Bytes

-- The globals of the app that the wallet part uses.
pub record App : Type 0 where
  pub context : GlobalContext
  pub dynamic_token : DynamicTokenInfo
  pub swap_validated : SwapValidated
  pub called_from_swap : Bool
  pub swap_response_ready : Bool

abbrev pub zero_transaction : Transaction
zero_transaction = record {
  nonce = 0;
  value = 0;
  fee = 0;
  to = none;
  token_address = none;
  memo = none;
  memo_len = 0;
}

-- `explicit_bzero(&G_context, sizeof(G_context))`
unfoldable pub zero_context : GlobalContext
zero_context = record {
  state = state_none;
  pk_info = record { raw_public_key = replicate 65 0; chain_code = replicate 32 0 };
  tx_info = record {
    is_token_tx = false;
    token_info = record { ticker = null_ticker; decimals = 0 };
    raw_tx = replicate max_transaction_len 0;
    raw_tx_len = 0;
    transaction = zero_transaction;
    m_hash = replicate 32 0;
    signature = replicate 72 0;
    signature_len = 0;
    v = 0;
  };
  req_type = confirm_address;
  bip32_path = [];
  bip32_path_len = 0;
}

-- `explicit_bzero(&g_dynamic_token_info, sizeof(g_dynamic_token_info))`
unfoldable pub zero_dynamic_token : DynamicTokenInfo
zero_dynamic_token = record {
  received = false;
  address = replicate token_address_len 0;
  ticker = [];
  decimals = 0;
}

-- The items of a review's list of pairs.
pub data ReviewItem : Type 0 where
  token_item : ReviewItem
  amount_item : ReviewItem
  to_item : ReviewItem
  hash_item : ReviewItem

-- What the user is asked to approve: the address, or the pairs with the kind of the review.
pub data Screen : Type 0 where
  address_screen : Bytes → Screen
  transaction_screen : (blind is_token : Bool) → List (ReviewItem × Bytes) → Screen
  hash_screen : Bytes → Screen

-- The error codes of `send_swap_error_simple`: SWAP_EC_ERROR_*, and the app's own.
pub data SwapEc : Type 0 where
  ec_generic : SwapEc
  ec_wrong_amount : SwapEc
  ec_wrong_method : SwapEc
  ec_wrong_fees : SwapEc
  ec_wrong_destination : SwapEc

pub data SwapErrorCode : Type 0 where
  swap_error_code : SwapErrorCode
  swap_error_wrong_token_info : SwapErrorCode

-- How a handler ends: it has answered, it has started a review, the app has ended after an
-- answer or none, or control has gone back to the Exchange app with an error.
pub data Outcome : Type 0 where
  answers : Response → Outcome
  reviews : Screen → Outcome
  exits : Option Response → Outcome
  fails_swap : SwapEc → SwapErrorCode → Outcome
