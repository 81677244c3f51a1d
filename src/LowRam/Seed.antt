-- ===== src/LowRam/Seed.antt =====
-- src/zknox/keys/derive.c, `session_seed`, `falcon_lr_key_id` and `falcon_lr_ct_eq32`.
use Prim.Native.Nat.{bit_or, bit_xor}
use zknox_hw_falcon.Common.{
  ℕ, zero, suc, ◌+◌, ◌%◌, ◌^◌, Bytes, List, [], ◌∷◌, ◌++◌, map, get_or, Option, some, none, Bool,
  ◌==◌, if◌then◌else◌,
}
use zknox_hw_falcon.LowRam.State.{Core, Storage}

-- `"Falcon-1024 seed"`
abbrev modifier_1024 : Bytes
modifier_1024 =
    70 ∷ 97 ∷ 108 ∷ 99 ∷ 111 ∷ 110 ∷ 45 ∷ 49 ∷ 48 ∷ 50 ∷ 52 ∷ 32 ∷ 115 ∷ 101 ∷ 101 ∷ 100 ∷ []

-- `"Falcon-512 seed"`
abbrev modifier_512 : Bytes
modifier_512 = 70 ∷ 97 ∷ 108 ∷ 99 ∷ 111 ∷ 110 ∷ 45 ∷ 53 ∷ 49 ∷ 50 ∷ 32 ∷ 115 ∷ 101 ∷ 101 ∷ 100 ∷ []

-- `falcon_bip32_path`
abbrev falcon_bip32_path : List ℕ
falcon_bip32_path = 44 ∷ 9004 ∷ 0 ∷ 0 ∷ 0 ∷ []

-- `falcon_bip32_path[i] | 0x80000000u`
abbrev hardened_path : List ℕ
hardened_path = map (λ i. bit_or i 0x8000_0000) falcon_bip32_path

abbrev pub cx_ok : ℕ
cx_ok = 0

-- `falcon_derive_seed`: the error code and the seed.
unfoldable pub falcon_derive_seed : Core → ℕ × Bytes
falcon_derive_seed c = (cx_ok, (c.derive_node hardened_path modifier_1024).0)

-- `falcon512_derive_seed`
unfoldable pub falcon512_derive_seed : Core → ℕ × Bytes
falcon512_derive_seed c = (cx_ok, (c.derive_node hardened_path modifier_512).0)

-- `"falcon-key-id"`
abbrev pub key_id_tag : Bytes
key_id_tag = 102 ∷ 97 ∷ 108 ∷ 99 ∷ 111 ∷ 110 ∷ 45 ∷ 107 ∷ 101 ∷ 121 ∷ 45 ∷ 105 ∷ 100 ∷ []

-- `falcon_lr_key_id`
unfoldable pub falcon_lr_key_id : Core → Bytes → Bytes
falcon_lr_key_id c seed = c.shake256 (key_id_tag ++ seed) 32

-- The loop of `falcon_lr_ct_eq32` over the bytes left, with the accumulator `d`.
unfoldable pub ct_diff : ℕ → ℕ → ℕ → Bytes → Bytes → ℕ
ct_diff zero i d a b = d
ct_diff (suc n) i d a b =
    ct_diff n (i + 1) (bit_or d (bit_xor (get_or a i 0) (get_or b i 0) % 2 ^ 8)) a b

-- `falcon_lr_ct_eq32`
unfoldable pub falcon_lr_ct_eq32 : Bytes → Bytes → Bool
falcon_lr_ct_eq32 a b = ct_diff 32 0 0 a b == 0

-- `session_seed`: the cache is filled if it holds the seed of another degree; then the key id.
unfoldable pub session_seed : Core → ℕ → Storage → Option Bytes × Storage
unfolding falcon_derive_seed falcon512_derive_seed
session_seed c logn s =
    let (e, seed) = if logn == 9 then falcon512_derive_seed c else falcon_derive_seed c in
    if s.seed_ready == logn
    then (some (falcon_lr_key_id c s.seed), s)
    else if e == cx_ok
    then (some (falcon_lr_key_id c seed), record s { seed = seed; seed_ready = logn % 2 ^ 8 })
    else (none, record s { seed = seed })
