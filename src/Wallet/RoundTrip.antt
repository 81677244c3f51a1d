-- ===== src/Wallet/RoundTrip.antt =====
-- A transaction that `transaction_serialize` has written is read back by
-- `transaction_deserialize` (src/transaction/serialize.c, src/transaction/deserialize.c).
use zknox_hw_falcon.Common.{
  ℕ, zero, suc, ◌+◌, ◌%◌, ◌^◌, ◌≤◌, ◌<◌, ◌≡◌, refl, sym, ap, ◌∙◌, Bytes, [], ◌∷◌, ◌++◌, some, none,
  true, false, arith, length, take, drop, get_or, ltb, ◌==◌, take-append, drop-append, drop-drop,
  length-append, take-all,
}
use zknox_hw_falcon.Common.Apdu.{Buffer}
use zknox_hw_falcon.Wallet.State.{Transaction, parsing_ok}
use zknox_hw_falcon.Wallet.Sdk.{Sdk}
use zknox_hw_falcon.Wallet.Parse.{
  check_encoding, read_token_address, read_memo, read_value, transaction_deserialize,
}
use zknox_hw_falcon.Wallet.Serialize.{bytes_at, serialize_with, transaction_serialize}
use zknox_hw_falcon.Wallet.ParseLaws.{IsBufferSdk}

-- What read.h, write.h and varint.h document: what was written is read back.
pub record IsWireSdk (s : Sdk) : Type 0 where
  pub u64_length : (n : ℕ) → length (s.write_u64_be n) ≡ 8
  pub u64_reads :
      (b : Buffer) (n : ℕ)
      → n < 2 ^ 64
      → b.offset + 8 ≤ b.size
      → take 8 (drop b.offset b.ptr) ≡ s.write_u64_be n
      → s.buffer_read_u64 b ≡ (true, (n, record b { offset = b.offset + 8 }))
  pub varint_writes :
      (n : ℕ)
      → n < 2 ^ 64
      → (v : Bytes) × (s.varint_write n ≡ some v) × (length v ≡ s.varint_size n)
  pub varint_bounded : (n : ℕ) → s.varint_size n ≤ 9
  pub varint_reads :
      (b : Buffer) (n : ℕ) (v : Bytes)
      → s.varint_write n ≡ some v
      → b.offset + length v ≤ b.size
      → take (length v) (drop b.offset b.ptr) ≡ v
      → s.buffer_read_varint b ≡ (true, (n, record b { offset = b.offset + length v }))

take_front : (k : ℕ) (xs ys : Bytes) → length xs ≡ k → take k (xs ++ ys) ≡ xs
take_front k xs ys h = rw (← h) (take-append xs ys)

drop_front : (k : ℕ) (xs ys : Bytes) → length xs ≡ k → drop k (xs ++ ys) ≡ ys
drop_front k xs ys h = rw (← h) (drop-append xs ys)

get_or-drop : (p q : ℕ) (b : Bytes) → get_or b (p + q) 0 ≡ get_or (drop p b) q 0
get_or-drop zero q b = let e : 0 + q ≡ q = omega arith in rw e refl
get_or-drop (suc p) q [] = refl
get_or-drop (suc p) q (x ∷ b) =
    let e : suc p + q ≡ suc (p + q) = omega arith in rw e (get_or-drop p q b)

check_encoding-drop :
    (p q n : ℕ) (b : Bytes) → check_encoding b (p + q) n ≡ check_encoding (drop p b) q n
unfolding check_encoding
check_encoding-drop p q zero b = refl
check_encoding-drop p q (suc n) b =
    let e : p + q + 1 ≡ p + (q + 1) = omega arith in
    rw (get_or-drop p q b, e, check_encoding-drop p (q + 1) n b) refl

-- The five pieces of a serialized transaction, and where each of them starts.
module _ (n t v l m : Bytes) (hn : length n ≡ 8) (ht : length t ≡ 20) (hv : length v ≡ 8) where
  abbrev wire : Bytes
  wire = n ++ (t ++ (v ++ (l ++ m)))

  at_t : drop 8 wire ≡ t ++ (v ++ (l ++ m))
  at_t = drop_front 8 n (t ++ (v ++ (l ++ m))) hn

  at_v : drop 28 wire ≡ v ++ (l ++ m)
  at_v = sym (drop-drop 8 20 wire) ∙ ap (drop 20) at_t ∙ drop_front 20 t (v ++ (l ++ m)) ht

  at_l : drop 36 wire ≡ l ++ m
  at_l = sym (drop-drop 28 8 wire) ∙ ap (drop 8) at_v ∙ drop_front 8 v (l ++ m) hv

  at_m : drop (36 + length l) wire ≡ m
  at_m = sym (drop-drop 36 (length l) wire) ∙ ap (drop (length l)) at_l ∙ drop-append l m

  length-wire : length wire ≡ 36 + length l + length m
  length-wire = omega (
    arith,
    hn,
    ht,
    hv,
    length-append n (t ++ (v ++ (l ++ m))),
    length-append t (v ++ (l ++ m)),
    length-append v (l ++ m),
    length-append l m,
  )

deserialize_steps :
    (s : Sdk) (b b1 b2 b3 b4 b5 : Buffer) (t0 : Transaction) (nonce value memo_len : ℕ)
    → b.size ≤ 510
    → s.buffer_read_u64 b ≡ (true, (nonce, b1))
    → s.buffer_seek_cur b1 20 ≡ (true, b2)
    → s.buffer_read_u64 b2 ≡ (true, (value, b3))
    → s.buffer_read_varint b3 ≡ (true, (memo_len, b4))
    → s.buffer_seek_cur b4 (memo_len % 2 ^ 32) ≡ (true, b5)
    → check_encoding b4.ptr b4.offset memo_len ≡ true
    → b5.offset ≡ b5.size
    → transaction_deserialize s b t0 false ≡ (
      parsing_ok,
      record {
        nonce = nonce;
        value = value;
        fee = 0;
        to = some b1.offset;
        token_address = none;
        memo = some b4.offset;
        memo_len = memo_len;
      },
    )
unfolding transaction_deserialize read_token_address read_value read_memo
deserialize_steps s b b1 b2 b3 b4 b5 t0 nonce value memo_len small e1 e2 e3 e4 e5 ascii done =
    let fits : ltb 510 b.size ≡ false = ground arith in
    let last : (b5.offset == b5.size) ≡ true = ground arith in
    rw (fits, e1, e2, e3, e4, e5, ascii, last) refl

-- A transaction that a wallet may hold: its numbers are 64-bit, its address has 20 bytes, and its
-- memo is ASCII and at most MAX_MEMO_LEN long.
pub record IsSendable (base : Bytes) (tx : Transaction) : Type 0 where
  pub nonce_u64 : tx.nonce < 2 ^ 64
  pub value_u64 : tx.value < 2 ^ 64
  pub to_length : length (bytes_at base tx.to 20) ≡ 20
  pub memo_short : tx.memo_len ≤ 465
  pub memo_length : length (bytes_at base tx.memo tx.memo_len) ≡ tx.memo_len
  pub memo_ascii : check_encoding (bytes_at base tx.memo tx.memo_len) 0 tx.memo_len ≡ true

-- A buffer that holds `out`, read up to `o`.
abbrev pub read_to : Bytes → ℕ → Buffer
read_to out o = record { ptr = out; size = length out; offset = o }

module _ (s : Sdk) (buffers : IsBufferSdk s) (wires : IsWireSdk s) where
  deserialize_wire :
      (n t v l m : Bytes) (t0 : Transaction) (nonce value memo_len : ℕ)
      → nonce < 2 ^ 64
      → value < 2 ^ 64
      → memo_len ≤ 465
      → n ≡ s.write_u64_be nonce
      → length t ≡ 20
      → v ≡ s.write_u64_be value
      → s.varint_write memo_len ≡ some l
      → length l ≤ 9
      → length m ≡ memo_len
      → check_encoding m 0 memo_len ≡ true
      → let out = n ++ (t ++ (v ++ (l ++ m))) in
        transaction_deserialize s (read_to out 0) t0 false ≡ (
          parsing_ok,
          record {
            nonce = nonce;
            value = value;
            fee = 0;
            to = some 8;
            token_address = none;
            memo = some (36 + length l);
            memo_len = memo_len;
          },
        )
  deserialize_wire n t v l m t0 nonce value memo_len hn hv hm en ht ev el hl em ascii =
      let out = n ++ (t ++ (v ++ (l ++ m))) in
      let n8 : length n ≡ 8 = rw en (wires.u64_length nonce) in
      let v8 : length v ≡ 8 = rw ev (wires.u64_length value) in
      let size_eq = length-wire n t v l m n8 ht v8 in
      let modulo : memo_len % 2 ^ 32 ≡ memo_len = omega arith in
      deserialize_steps s (read_to out 0) (read_to out 8) (read_to out 28) (read_to out 36)
        (read_to out (36 + length l)) (read_to out (36 + length l + memo_len)) t0 nonce value
        memo_len (omega arith)
        (wires.u64_reads (read_to out 0) nonce hn (omega arith)
          (take_front 8 n (t ++ (v ++ (l ++ m))) n8 ∙ en))
        (buffers.seek_fits (read_to out 8) 20 (omega arith))
        (wires.u64_reads (read_to out 28) value hv (omega arith)
          (ap (take 8) (at_v n t v l m n8 ht v8) ∙ take_front 8 v (l ++ m) v8 ∙ ev))
        (wires.varint_reads (read_to out 36) memo_len l el (omega arith)
          (ap (take (length l)) (at_l n t v l m n8 ht v8) ∙ take-append l m))
        (rw modulo (buffers.seek_fits (read_to out (36 + length l)) memo_len (omega arith)))
        (let e : 36 + length l ≡ 36 + length l + 0 = omega arith in
          ap (λ p. check_encoding out p memo_len) e
          ∙ check_encoding-drop (36 + length l) 0 memo_len out
          ∙ ap (λ b. check_encoding b 0 memo_len) (at_m n t v l m n8 ht v8)
          ∙ ascii)
        (omega arith)

  -- With SDK functions that behave as documented, the bytes that `transaction_serialize` writes for
  -- a sendable transaction, in an output buffer that is large enough, parse as a transaction of the same nonce, amount and memo length, with
  -- no token address and no fee; its pointers lead to the same address and the same memo.
  pub transaction_serialize-deserialize :
      (base : Bytes) (tx t0 : Transaction) (out_len : ℕ)
      → IsSendable base tx
      → 36 + s.varint_size tx.memo_len + tx.memo_len ≤ out_len
      → out_len < 2 ^ 64
      → (out : Bytes) × (transaction_serialize s base tx out_len ≡ some out)
        × (let (status, tx') = transaction_deserialize s (read_to out 0) t0 false in
            (status ≡ parsing_ok)
            × (tx'.nonce ≡ tx.nonce)
            × (tx'.value ≡ tx.value)
            × (tx'.fee ≡ 0)
            × (tx'.memo_len ≡ tx.memo_len)
            × (tx'.token_address ≡ none)
            × (bytes_at out tx'.to 20 ≡ bytes_at base tx.to 20)
            × (bytes_at out tx'.memo tx.memo_len ≡ bytes_at base tx.memo tx.memo_len))
  unfolding transaction_serialize serialize_with bytes_at
  transaction_serialize-deserialize base tx t0 out_len ok room small =
      let w = wires.varint_writes tx.memo_len (let h = ok.memo_short in omega arith) in
      let l = w.0 in
      let m = bytes_at base tx.memo tx.memo_len in
      let n = s.write_u64_be tx.nonce in
      let v = s.write_u64_be tx.value in
      let t = bytes_at base tx.to 20 in
      let n8 = wires.u64_length tx.nonce in
      let v8 = wires.u64_length tx.value in
      let out = n ++ (t ++ (v ++ (l ++ m))) in
      let modulo : tx.memo_len % 2 ^ 32 ≡ tx.memo_len = let h = ok.memo_short in omega arith in
      let fits : ltb out_len ((8 + 20 + 8 + s.varint_size tx.memo_len + tx.memo_len) % 2 ^ 64)
          ≡ false =
        ground arith in
      let parsed =
        deserialize_wire n t v l m t0 tx.nonce tx.value tx.memo_len ok.nonce_u64 ok.value_u64
          ok.memo_short refl ok.to_length refl w.1
          (let h = wires.varint_bounded tx.memo_len in omega (arith, w.2)) ok.memo_length
          ok.memo_ascii in
      (
        out,
        rw (fits, w.1, modulo) refl,
        rw parsed (
          refl,
          refl,
          refl,
          refl,
          refl,
          refl,
          ap (take 20) (at_t n t v l m n8 ok.to_length v8)
              ∙ take_front 20 t (v ++ (l ++ m)) ok.to_length,
          ap (take tx.memo_len) (at_m n t v l m n8 ok.to_length v8)
              ∙ take-all tx.memo_len m (omega (arith, ok.memo_length)),
        ),
      )
