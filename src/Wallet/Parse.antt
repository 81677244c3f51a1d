-- ===== src/Wallet/Parse.antt =====
-- `transaction_deserialize` (src/transaction/deserialize.c) and the memo functions
-- (src/transaction/utils.c).
use zknox_hw_falcon.Common.{
  ℕ, zero, suc, ◌+◌, ◌%◌, ◌^◌, Bytes, Option, some, none, Bool, true, false, not, ◌&&◌, ◌||◌, ◌==◌,
  ltb, if◌then◌else◌, take, get_or,
}
use zknox_hw_falcon.Common.Apdu.{Buffer}
use zknox_hw_falcon.Wallet.State.{
  Transaction, ParserStatus, parsing_ok, nonce_parsing_error, to_parsing_error, value_parsing_error,
  memo_length_error, memo_parsing_error, memo_encoding_error, wrong_length_error,
  token_address_parsing_error, max_tx_len, address_len, max_memo_len, token_address_len,
}
use zknox_hw_falcon.Wallet.Sdk.{Sdk}

-- `transaction_utils_check_encoding`: the loop over the `memo_len` bytes at `memo`. A byte past
-- the end of the list, which the source would read from what follows the array, is 0 here.
unfoldable pub check_encoding : Bytes → ℕ → ℕ → Bool
check_encoding b memo zero = true
check_encoding b memo (suc memo_len) =
    if ltb 0x7F (get_or b memo 0) then false else check_encoding b (memo + 1) memo_len

-- `transaction_utils_format_memo`, for a memo of `memo_len` bytes: the text left in `dst`.
unfoldable pub format_memo : Bytes → ℕ → ℕ → Option Bytes
format_memo memo memo_len dst_len =
    if ltb max_memo_len memo_len || ltb dst_len (memo_len + 1)
    then none
    else some (take memo_len memo)

-- The `if (is_token_transaction)` block: its verdict, the transaction and the buffer.
unfoldable pub read_token_address :
    Sdk → Bool → Buffer → Transaction → Bool × (Transaction × Buffer)
read_token_address s is_token buf tx =
    let (ok, next) = s.buffer_seek_cur buf token_address_len in
    if is_token
    then (ok, (record tx { token_address = some buf.offset }, next))
    else (true, (record tx { token_address = none }, buf))

-- From the memo to the end of the buffer. The length of the memo is a `uint64_t`, and the
-- argument of `buffer_seek_cur` a `size_t` of 32 bits.
unfoldable pub read_memo : Sdk → Buffer → Transaction → ParserStatus × Transaction
read_memo s buf tx =
    let tx' = record tx { memo = some buf.offset } in
    let (ok, next) = s.buffer_seek_cur buf (tx.memo_len % 2 ^ 32) in
    if not ok
    then (memo_parsing_error, tx')
    else if not (check_encoding buf.ptr buf.offset tx.memo_len)
    then (memo_encoding_error, tx')
    else if next.offset == next.size
    then (parsing_ok, tx')
    else (wrong_length_error, tx')

-- From the amount to the end.
unfoldable pub read_value : Sdk → Buffer → Transaction → ParserStatus × Transaction
unfolding read_memo
read_value s buf tx =
    let (ok, (value, b1)) = s.buffer_read_u64 buf in
    let tx1 = record tx { value = value } in
    let (ok2, (memo_len, b2)) = s.buffer_read_varint b1 in
    let tx2 = record tx1 { fee = 0; memo_len = memo_len } in
    if not ok
    then (value_parsing_error, tx1)
    else if not ok2 && ltb max_memo_len memo_len
    then (memo_length_error, tx2)
    else read_memo s b2 tx2

-- `transaction_deserialize(buf, tx, is_token_transaction)`: the status, and what is left in `tx`.
unfoldable pub transaction_deserialize :
    Sdk → Buffer → Transaction → Bool → ParserStatus × Transaction
unfolding read_token_address read_value
transaction_deserialize s buf tx is_token =
    let (ok1, (nonce, b1)) = s.buffer_read_u64 buf in
    let tx1 = record tx { nonce = nonce } in
    let tx2 = record tx1 { to = some b1.offset } in
    let (ok2, b2) = s.buffer_seek_cur b1 address_len in
    let (ok3, (tx3, b3)) = read_token_address s is_token b2 tx2 in
    if ltb max_tx_len buf.size
    then (wrong_length_error, tx)
    else if not ok1
    then (nonce_parsing_error, tx1)
    else if not ok2
    then (to_parsing_error, tx2)
    else if not ok3
    then (token_address_parsing_error, tx3)
    else read_value s b3 tx3
