-- ===== src/Wallet/Serialize.antt =====
-- `transaction_serialize` (src/transaction/serialize.c).
use zknox_hw_falcon.Common.{
  ℕ, ◌+◌, ◌%◌, ◌^◌, Bytes, [], ◌++◌, Option, some, none, ltb, if◌then◌else◌, take, drop,
}
use zknox_hw_falcon.Wallet.State.{Transaction, address_len}
use zknox_hw_falcon.Wallet.Sdk.{Sdk}

-- The `n` bytes at a pointer into `base`. Nothing is read through NULL.
unfoldable pub bytes_at : Bytes → Option ℕ → ℕ → Bytes
bytes_at base none n = []
bytes_at base (some p) n = take n (drop p base)

-- The part after the length test, given what `varint_write` wrote.
unfoldable pub serialize_with : Sdk → Bytes → Transaction → Option Bytes → Option Bytes
unfolding bytes_at
serialize_with s base tx none = none
serialize_with s base tx (some memo_len) = some (
    s.write_u64_be tx.nonce
    ++ (bytes_at base tx.to address_len
        ++ (s.write_u64_be tx.value ++ (memo_len ++ bytes_at base tx.memo (tx.memo_len % 2 ^ 32)))))

-- `transaction_serialize(tx, out, out_len)`: none for -1, or the bytes that it wrote, whose
-- number it returns. The pointers of `tx` lead into `base`.
unfoldable pub transaction_serialize : Sdk → Bytes → Transaction → ℕ → Option Bytes
unfolding serialize_with
transaction_serialize s base tx out_len =
    if ltb out_len ((8 + address_len + 8 + s.varint_size tx.memo_len + tx.memo_len) % 2 ^ 64)
    then none
    else serialize_with s base tx (s.varint_write tx.memo_len)
