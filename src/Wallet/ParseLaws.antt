-- ===== src/Wallet/ParseLaws.antt =====
-- What is relied on of the SDK's buffer functions, and what `transaction_deserialize` then
-- guarantees (src/transaction/deserialize.c).
use zknox_hw_falcon.Common.{
  ℕ, zero, suc, ◌+◌, ◌%◌, ◌^◌, ◌≤◌, ◌<◌, ◌≡◌, ◌≢◌, refl, sym, ap, ◌∙◌, Bytes, some, none, Bool,
  true, false, arith, get_or, if◌then◌else◌,
}
use native.Mathlib.Decide.{dec_lt}
use zknox_hw_falcon.Common.Apdu.{Buffer}
use zknox_hw_falcon.Wallet.State.{Transaction, parsing_ok, memo_length_error}
use zknox_hw_falcon.Wallet.Sdk.{Sdk}
use zknox_hw_falcon.Wallet.Parse.{
  check_encoding, read_token_address, read_memo, read_value, transaction_deserialize,
}

-- What buffer.h documents: on a buffer whose offset is within its size, a read or a seek succeeds when the buffer holds enough, moves the
-- offset by what it takes, and changes nothing else; a varint that cannot be read is 0.
pub record IsBufferSdk (s : Sdk) : Type 0 where
  pub u64_fits :
      (b : Buffer)
      → b.offset + 8 ≤ b.size
      → ((s.buffer_read_u64 b).0 ≡ true)
        × ((s.buffer_read_u64 b).1.1 ≡ record b { offset = b.offset + 8 })
  pub u64_short :
      (b : Buffer) → b.offset ≤ b.size → b.size < b.offset + 8 → (s.buffer_read_u64 b).0 ≡ false
  pub seek_fits :
      (b : Buffer) (n : ℕ)
      → b.offset + n ≤ b.size
      → s.buffer_seek_cur b n ≡ (true, record b { offset = b.offset + n })
  pub seek_short :
      (b : Buffer) (n : ℕ)
      → b.offset ≤ b.size
      → b.size < b.offset + n
      → (s.buffer_seek_cur b n).0 ≡ false
  pub varint_keeps :
      (b : Buffer)
      → b.offset ≤ b.size
      → let b' = (s.buffer_read_varint b).1.1 in
        (b'.ptr ≡ b.ptr) × (b'.size ≡ b.size) × (b.offset ≤ b'.offset) × (b'.offset ≤ b'.size)
  pub varint_failed :
      (b : Buffer) → (s.buffer_read_varint b).0 ≡ false → (s.buffer_read_varint b).1.0 ≡ 0

-- A transaction whose pointers lead into the first `size` bytes of `b`, with an ASCII memo that
-- ends exactly at `size`.
pub record IsWithin (b : Bytes) (size : ℕ) (is_token : Bool) (tx : Transaction) : Type 0 where
  pub to_at : ℕ
  pub to_points : tx.to ≡ some to_at
  pub to_inside : to_at + 20 + (if is_token then 32 else 0) + 8 ≤ size
  pub token_points : tx.token_address ≡ (if is_token then some (to_at + 20) else none)
  pub memo_at : ℕ
  pub memo_points : tx.memo ≡ some memo_at
  pub memo_after : to_at + 20 + (if is_token then 32 else 0) + 8 ≤ memo_at
  pub memo_ends : memo_at + tx.memo_len % 2 ^ 32 ≡ size
  pub memo_ascii : (i : ℕ) → i < tx.memo_len → get_or b (memo_at + i) 0 ≤ 0x7F

check_encoding-ascii :
    (b : Bytes) (memo n : ℕ)
    → check_encoding b memo n ≡ true
    → (i : ℕ) → i < n
    → get_or b (memo + i) 0 ≤ 0x7F
unfolding check_encoding
check_encoding-ascii b memo zero h i p = omega arith
check_encoding-ascii b memo (suc n) h zero p = ground (arith, check_encoding-ascii b (memo + 1) n)
check_encoding-ascii b memo (suc n) h (suc i) p =
    let e : memo + suc i ≡ memo + 1 + i = omega arith in
    rw e (check_encoding-ascii b (memo + 1) n (ground arith) i (omega arith))

module _ (s : Sdk) (laws : IsBufferSdk s) where
  seek_ok :
      (b : Buffer) (n : ℕ)
      → b.offset ≤ b.size
      → (s.buffer_seek_cur b n).0 ≡ true
      → (b.offset + n ≤ b.size) × ((s.buffer_seek_cur b n).1 ≡ record b { offset = b.offset + n })
  seek_ok b n valid h = elim (dec_lt b.size (b.offset + n)) [
    | yes short ↦ absurd (let e = laws.seek_short b n valid short in cc)
    | no fits ↦
        let f : b.offset + n ≤ b.size = omega arith in
        (f, ap (λ (r : Bool × Buffer). r.1) (laws.seek_fits b n f))
  ]

  u64_ok :
      (b : Buffer)
      → b.offset ≤ b.size
      → (s.buffer_read_u64 b).0 ≡ true
      → (b.offset + 8 ≤ b.size) × ((s.buffer_read_u64 b).1.1 ≡ record b { offset = b.offset + 8 })
  u64_ok b valid h = elim (dec_lt b.size (b.offset + 8)) [
    | yes short ↦ absurd (let e = laws.u64_short b valid short in cc)
    | no fits ↦ let f : b.offset + 8 ≤ b.size = omega arith in (f, (laws.u64_fits b f).1)
  ]

  read_memo-ok :
      (b : Buffer) (tx : Transaction)
      → b.offset ≤ b.size
      → (read_memo s b tx).0 ≡ parsing_ok
      → ((read_memo s b tx).1 ≡ record tx { memo = some b.offset })
        × (b.offset + tx.memo_len % 2 ^ 32 ≡ b.size)
        × (check_encoding b.ptr b.offset tx.memo_len ≡ true)
  unfolding read_memo
  read_memo-ok b tx valid h = ground (arith, seek_ok b (tx.memo_len % 2 ^ 32) valid)

  -- The transaction and the buffer when the memo is about to be read.
  abbrev memo_buffer : Buffer → Buffer
  memo_buffer b = (s.buffer_read_varint (s.buffer_read_u64 b).1.1).1.1

  abbrev memo_tx : Buffer → Transaction → Transaction
  memo_tx b tx = record tx {
    value = (s.buffer_read_u64 b).1.0;
    fee = 0;
    memo_len = (s.buffer_read_varint (s.buffer_read_u64 b).1.1).1.0;
  }

  read_value-inverts :
      (b : Buffer) (tx : Transaction)
      → (read_value s b tx).0 ≡ parsing_ok
      → ((s.buffer_read_u64 b).0 ≡ true)
        × (read_value s b tx ≡ read_memo s (memo_buffer b) (memo_tx b tx))
  unfolding read_value
  read_value-inverts b tx h = ground arith

  memo_buffer_lem :
      (b : Buffer)
      → b.offset ≤ b.size
      → (s.buffer_read_u64 b).0 ≡ true
      → (b.offset + 8 ≤ (memo_buffer b).offset)
        × ((memo_buffer b).ptr ≡ b.ptr)
        × ((memo_buffer b).size ≡ b.size)
        × ((memo_buffer b).offset ≤ (memo_buffer b).size)
  memo_buffer_lem b valid h =
      let (fits, moved) = u64_ok b valid h in
      let o = ap (λ (r : Buffer). r.offset) moved in
      let z = ap (λ (r : Buffer). r.size) moved in
      let k = laws.varint_keeps (s.buffer_read_u64 b).1.1 (omega (arith, o, z, fits)) in
      (omega (arith, k.2, o), k.0 ∙ ap (λ (r : Buffer). r.ptr) moved, k.1 ∙ z, k.3)

  read_value-ok :
      (b : Buffer) (tx : Transaction)
      → b.offset ≤ b.size
      → (read_value s b tx).0 ≡ parsing_ok
      → let tx' = (read_value s b tx).1 in
        let at = (memo_buffer b).offset in
        (b.offset + 8 ≤ at)
        × (tx'.to ≡ tx.to)
        × (tx'.token_address ≡ tx.token_address)
        × (tx'.memo ≡ some at)
        × (at + tx'.memo_len % 2 ^ 32 ≡ b.size)
        × (check_encoding b.ptr at tx'.memo_len ≡ true)
  read_value-ok b tx valid h =
      let inv = read_value-inverts b tx h in
      let moved = memo_buffer_lem b valid inv.0 in
      let memo = read_memo-ok (memo_buffer b) (memo_tx b tx) moved.3 (rw inv.1 at h) in
      rw (inv.1, memo.0)
        (moved.0, refl, refl, refl, memo.1 ∙ moved.2, (let ascii = memo.2 in rw moved.1 at ascii))

  -- After the token address, the offsets that a transaction that parses has passed.
  token_ok :
      (is_token : Bool) (b : Buffer) (tx : Transaction)
      → b.offset ≤ b.size
      → (read_token_address s is_token b tx).0 ≡ true
      → let r = (read_token_address s is_token b tx).1 in
        let o = b.offset + (if is_token then 32 else 0) in
        (r.1 ≡ record b { offset = o })
        × (r.0 ≡ record tx { token_address = (if is_token then some b.offset else none) })
        × (o ≤ b.size)
  unfolding read_token_address
  token_ok true b tx valid h = let r = seek_ok b 32 valid h in (r.1, refl, r.0)
  token_ok false b tx valid h = (
    ap (λ o. record b { offset = o }) (let e : b.offset ≡ b.offset + 0 = omega arith in e),
    refl,
    omega arith,
  )

  deserialize-inverts :
      (b : Buffer) (tx : Transaction) (is_token : Bool)
      → (transaction_deserialize s b tx is_token).0 ≡ parsing_ok
      → let (ok1, (nonce, b1)) = s.buffer_read_u64 b in
        let (ok2, b2) = s.buffer_seek_cur b1 20 in
        let tx2 = record tx { nonce = nonce; to = some b1.offset } in
        let (ok3, (tx3, b3)) = read_token_address s is_token b2 tx2 in
        (b.size ≤ 510)
        × (ok1 ≡ true)
        × (ok2 ≡ true)
        × (ok3 ≡ true)
        × (transaction_deserialize s b tx is_token ≡ read_value s b3 tx3)
  unfolding transaction_deserialize
  deserialize-inverts b tx is_token h = ground arith

  value-IsWithin :
      (b b3 : Buffer) (tx : Transaction) (is_token : Bool)
      → b3 ≡ record b { offset = b.offset + 8 + 20 + (if is_token then 32 else 0) }
      → b.offset + 8 + 20 + (if is_token then 32 else 0) ≤ b.size
      → tx.to ≡ some (b.offset + 8)
      → tx.token_address ≡ (if is_token then some (b.offset + 8 + 20) else none)
      → (read_value s b3 tx).0 ≡ parsing_ok
      → IsWithin b.ptr b.size is_token (read_value s b3 tx).1
  value-IsWithin b b3 tx is_token place inside to token h =
      let o : b3.offset ≡ b.offset + 8 + 20 + (if is_token then 32 else 0) =
        ap (λ (r : Buffer). r.offset) place in
      let size_eq : b3.size ≡ b.size = ap (λ (r : Buffer). r.size) place in
      let v = read_value-ok b3 tx (omega (arith, o, size_eq, inside)) h in
      let ptr_eq : b3.ptr ≡ b.ptr = ap (λ (r : Buffer). r.ptr) place in
      record {
        to_at = b.offset + 8;
        to_points = v.1 ∙ to;
        to_inside = omega (arith, v.0, v.4);
        token_points = v.2 ∙ token;
        memo_at = (memo_buffer b3).offset;
        memo_points = v.3;
        memo_after = omega (arith, v.0);
        memo_ends = v.4 ∙ size_eq;
        memo_ascii =
            check_encoding-ascii b.ptr (memo_buffer b3).offset (read_value s b3 tx).1.memo_len (
              ap (λ p. check_encoding p (memo_buffer b3).offset (read_value s b3 tx).1.memo_len)
                (sym ptr_eq)
              ∙ v.5);
      }

  read_memo-memo_length : (b : Buffer) (tx : Transaction) → (read_memo s b tx).0 ≢ memo_length_error
  unfolding read_memo
  read_memo-memo_length b tx = ground arith

  read_value-memo_length :
      (b : Buffer) (tx : Transaction) → (read_value s b tx).0 ≢ memo_length_error
  unfolding read_value
  read_value-memo_length b tx = ground (
    arith,
    laws.varint_failed (s.buffer_read_u64 b).1.1,
    read_memo-memo_length (memo_buffer b) (memo_tx b tx),
  )

  -- With buffer functions that behave as documented, a buffer with its offset within its size that
  -- parses as a transaction has at most 510 bytes, and every pointer of the
  -- transaction leads into it: the address, the token address of a token transaction, the amount
  -- and the memo follow each other without overlap, the memo ends where the buffer ends, and it
  -- is ASCII.
  pub transaction_deserialize-IsWithin :
      (b : Buffer) (tx : Transaction) (is_token : Bool)
      → b.offset ≤ b.size
      → (transaction_deserialize s b tx is_token).0 ≡ parsing_ok
      → (b.size ≤ 510) × IsWithin b.ptr b.size is_token (transaction_deserialize s b tx is_token).1
  transaction_deserialize-IsWithin b tx is_token valid h =
      let inv = deserialize-inverts b tx is_token h in
      let (fits, nonce) = u64_ok b valid inv.1 in
      let b1 = (s.buffer_read_u64 b).1.1 in
      let at : b1.offset ≡ b.offset + 8 = ap (λ (t : Buffer). t.offset) nonce in
      let size_1 : b1.size ≡ b.size = ap (λ (t : Buffer). t.size) nonce in
      let (room, to) = seek_ok b1 20 (omega (arith, at, size_1, fits)) inv.2 in
      let b2 = (s.buffer_seek_cur b1 20).1 in
      let tx2 = record tx { nonce = (s.buffer_read_u64 b).1.0; to = some b1.offset } in
      let place : b2 ≡ record b { offset = b.offset + 8 + 20 } =
        to ∙ ap (λ (t : Buffer). record t { offset = t.offset + 20 }) nonce in
      let at_2 : b2.offset ≡ b.offset + 8 + 20 = ap (λ (t : Buffer). t.offset) place in
      let size_2 : b2.size ≡ b.size = ap (λ (t : Buffer). t.size) place in
      let token = token_ok is_token b2 tx2 (omega (arith, at, size_1, at_2, size_2, room)) inv.3 in
      let r = (read_token_address s is_token b2 tx2).1 in
      (
        inv.0,
        rw inv.4 (
            value-IsWithin b r.1 r.0 is_token
              (token.0
                ∙ ap (λ (t : Buffer). record t { offset = t.offset + (if is_token then 32 else 0) })
                    place)
              (omega (arith, token.2, at_2, size_2))
              (ap (λ (t : Transaction). t.to) token.1 ∙ ap some at)
              (ap (λ (t : Transaction). t.token_address) token.1
                ∙ ap (λ (t : Buffer). if is_token then some t.offset else none) place)
              (rw inv.4 at h)),
      )

  -- Where a varint that cannot be read leaves 0, as documented, no buffer makes
  -- `transaction_deserialize` return MEMO_LENGTH_ERROR.
  pub transaction_deserialize-memo_length :
      (b : Buffer) (tx : Transaction) (is_token : Bool)
      → (transaction_deserialize s b tx is_token).0 ≢ memo_length_error
  unfolding transaction_deserialize read_value read_memo
  transaction_deserialize-memo_length b tx is_token =
      let (nonce, b1) = (s.buffer_read_u64 b).1 in
      let b2 = (s.buffer_seek_cur b1 20).1 in
      let r =
        (read_token_address s is_token b2 (record tx { nonce = nonce; to = some b1.offset })).1 in
      ground (arith, read_value-memo_length r.1 r.0)
