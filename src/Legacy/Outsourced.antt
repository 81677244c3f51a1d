-- ===== src/Legacy/Outsourced.antt =====
-- legacy/src/handler/cx_outsourced.c: records that the host keeps, encrypted and authenticated
-- under keys of the device and bound to their offset.
use Prim.Native.Nat.{bit_xor}
use zknox_hw_falcon.Common.{
  ℕ, zero, suc, ◌+◌, ◌/◌, ◌%◌, ◌^◌, Bytes, [], ◌∷◌, ◌++◌, length, take, drop, get_or, Bool, ◌==◌,
  if◌then◌else◌,
}
use zknox_hw_falcon.LowRam.Seed.{ct_diff}

-- `cxo_err_t`
pub data CxoErr : Type 0 where
  cxo_ok : CxoErr
  cxo_tag_fail : CxoErr
  cxo_invalid_arg : CxoErr

-- `cx_outsourced_t`
pub record Outsourced : Type 0 where
  pub tree_key : Bytes
  pub mac_key : Bytes

-- `CXO_TAG_LEN`
abbrev pub cxo_tag_len : ℕ
cxo_tag_len = 16

-- `"falcon-tree-key"`
abbrev pub tree_key_label : Bytes
tree_key_label =
    102 ∷ 97 ∷ 108 ∷ 99 ∷ 111 ∷ 110 ∷ 45 ∷ 116 ∷ 114 ∷ 101 ∷ 101 ∷ 45 ∷ 107 ∷ 101 ∷ 121 ∷ []

-- `"falcon-tree-mac"`
abbrev pub mac_key_label : Bytes
mac_key_label =
    102 ∷ 97 ∷ 108 ∷ 99 ∷ 111 ∷ 110 ∷ 45 ∷ 116 ∷ 114 ∷ 101 ∷ 101 ∷ 45 ∷ 109 ∷ 97 ∷ 99 ∷ []

-- `off_to_le8`
unfoldable pub off_to_le8 : ℕ → Bytes
off_to_le8 off =
    off % 2 ^ 8
    ∷ off / 2 ^ 8 % 2 ^ 8
    ∷ off / 2 ^ 16 % 2 ^ 8
    ∷ off / 2 ^ 24 % 2 ^ 8
    ∷ 0
    ∷ 0
    ∷ 0
    ∷ 0
    ∷ []

-- `ct_memeq`: the loop of the comparison of key identifiers, over `n` bytes.
unfoldable pub ct_memeq : Bytes → Bytes → ℕ → Bool
ct_memeq a b n = ct_diff n 0 0 a b == 0

-- The bytes xored with the stream from position `i` on: `data[pos + i] ^= ks[i]`.
unfoldable pub xor_stream : (ℕ → ℕ) → ℕ → Bytes → Bytes
xor_stream stream i [] = []
xor_stream stream i (x ∷ xs) = bit_xor x (stream i) ∷ xor_stream stream (i + 1) xs

-- The `while (pos < len)` loop on fuel, over the bytes left: at most 64 at a time.
unfoldable pub keystream_loop : ℕ → (ℕ → ℕ) → ℕ → Bytes → Bytes
keystream_loop fuel stream pos [] = []
keystream_loop zero stream pos (x ∷ xs) = x ∷ xs
keystream_loop (suc fuel) stream pos (x ∷ xs) =
    xor_stream stream pos (take 64 (x ∷ xs))
    ++ keystream_loop fuel stream (pos + 64) (drop 64 (x ∷ xs))

-- Consecutive extractions from a flipped SHAKE256 context are one stream.
unfoldable pub xof_stream : (Bytes → ℕ → Bytes) → Bytes → ℕ → ℕ
xof_stream shake256 input i = get_or (shake256 input (i + 1)) i 0

-- `apply_keystream(key, data, len, byte_offset)`
unfoldable pub apply_keystream : (Bytes → ℕ → Bytes) → Bytes → Bytes → ℕ → Bytes
apply_keystream shake256 key d off =
    keystream_loop (length d) (xof_stream shake256 (key ++ off_to_le8 off)) 0 d

-- `compute_tag(mkey, ciphertext, len, byte_offset, tag_out)`
unfoldable pub compute_tag : (Bytes → ℕ → Bytes) → Bytes → Bytes → ℕ → Bytes
compute_tag shake256 mkey ct off = shake256 (mkey ++ off_to_le8 off ++ ct) cxo_tag_len

-- `derive_subkey`
unfoldable pub derive_subkey : (Bytes → ℕ → Bytes) → Bytes → Bytes → Bytes
derive_subkey shake256 label kdf_input = shake256 (label ++ kdf_input) 32

-- `cx_outsourced_init`
unfoldable pub cx_outsourced_init : (Bytes → ℕ → Bytes) → Bytes → Outsourced
cx_outsourced_init shake256 kdf_input = record {
  tree_key = derive_subkey shake256 tree_key_label kdf_input;
  mac_key = derive_subkey shake256 mac_key_label kdf_input;
}

-- `cx_outsourced_write`: the bytes of `out_record`.
unfoldable pub cx_outsourced_write : (Bytes → ℕ → Bytes) → Outsourced → ℕ → Bytes → Bytes
cx_outsourced_write shake256 ctx off plaintext =
    let ct = apply_keystream shake256 ctx.tree_key plaintext off in
    ct ++ compute_tag shake256 ctx.mac_key ct off

-- `cx_outsourced_read`: the error and the contents of `plaintext_out`, which holds `out` before.
unfoldable pub cx_outsourced_read :
    (Bytes → ℕ → Bytes) → Outsourced → ℕ → Bytes → ℕ → Bytes → CxoErr × Bytes
cx_outsourced_read shake256 ctx off rec plaintext_len out =
    let ct = take plaintext_len rec in
    if ct_memeq (compute_tag shake256 ctx.mac_key ct off) (drop plaintext_len rec) cxo_tag_len
    then (cxo_ok, apply_keystream shake256 ctx.tree_key ct off)
    else (cxo_tag_fail, out)

-- `cx_outsourced_read_split`: the error and the contents of `ciphertext_inout`.
unfoldable pub cx_outsourced_read_split :
    (Bytes → ℕ → Bytes) → Outsourced → ℕ → Bytes → Bytes → CxoErr × Bytes
cx_outsourced_read_split shake256 ctx off ct tag =
    if ct_memeq (compute_tag shake256 ctx.mac_key ct off) tag cxo_tag_len
    then (cxo_ok, apply_keystream shake256 ctx.tree_key ct off)
    else (cxo_tag_fail, ct)
