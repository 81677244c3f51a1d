-- ===== src/Legacy/State.antt =====
-- The context of the archived signing handler (legacy/src/handler/handler_falcon_sign.c), the keys
-- in g_zknox (src/globals.h), and the functions of the Falcon reference library, which are
-- parameters.
use zknox_hw_falcon.Common.{ℕ, ◌+◌, ◌-◌, ◌*◌, ◌^◌, Bytes, List, Bool, ltb, if◌then◌else◌}
use zknox_hw_falcon.Common.Memory.{Memory, write_bytes, read_bytes}
use zknox_hw_falcon.Legacy.Outsourced.{Outsourced}

-- `sampler_context`: the generator's state, and `sigma_min`.
pub record SamplerContext : Type 0 where
  pub p : Bytes
  pub sigma_min : Bytes

-- What `Zf(keygen)` leaves: the four short polynomials and the 2048 bytes of h.
pub record LegacyKeys : Type 0 where
  pub f : Bytes
  pub g : Bytes
  pub cap_f : Bytes
  pub cap_g : Bytes
  pub h : Bytes

-- The Falcon reference library. An `fpr` is eight bytes, a polynomial the bytes of its `fpr`s, and
-- an operation that works in place gives the new contents. A C integer is its two's complement.
pub record Reference : Type 0 where
  -- SHAKE256 of what was injected, at an output length
  pub shake256 : Bytes → ℕ → Bytes
  -- `Zf(keygen)` at the degree, with a generator that was given a seed, and with a temporary area
  pub keygen : ℕ → Bytes → Bytes → LegacyKeys × Bytes
  pub fft : ℕ → Bytes → Bytes
  pub ifft : ℕ → Bytes → Bytes
  pub poly_neg : ℕ → Bytes → Bytes
  pub poly_add : ℕ → Bytes → Bytes → Bytes
  pub poly_sub : ℕ → Bytes → Bytes → Bytes
  pub poly_mul_fft : ℕ → Bytes → Bytes → Bytes
  pub poly_muladj_fft : ℕ → Bytes → Bytes → Bytes
  pub poly_mulselfadj_fft : ℕ → Bytes → Bytes
  pub poly_mulconst : ℕ → Bytes → Bytes → Bytes
  pub poly_split_fft : ℕ → Bytes → Bytes × Bytes
  pub poly_merge_fft : ℕ → Bytes → Bytes → Bytes
  -- `d11` and `l10`, from `g00`, `g01` and `g11`
  pub poly_ldlmv_fft : ℕ → Bytes → Bytes → Bytes → Bytes × Bytes
  pub fpr_of : ℕ → Bytes
  pub fpr_rint : Bytes → ℕ
  pub fpr_neg : Bytes → Bytes
  pub fpr_sqr : Bytes → Bytes
  pub fpr_inv : Bytes → Bytes
  pub fpr_sqrt : Bytes → Bytes
  pub fpr_add : Bytes → Bytes → Bytes
  pub fpr_sub : Bytes → Bytes → Bytes
  pub fpr_mul : Bytes → Bytes → Bytes
  pub fpr_inverse_of_q : Bytes
  pub fpr_inv_sigma : Bytes
  pub fpr_sigma_min_10 : Bytes
  -- `Zf(sampler)` at a centre and an inverse deviation
  pub sampler : SamplerContext → Bytes → Bytes → SamplerContext × ℕ
  -- `Zf(prng_init)` from a SHAKE256 context that was given these bytes
  pub prng_init : Bytes → Bytes
  -- `Zf(hash_to_point_vartime)` from a SHAKE256 context that was given these bytes
  pub hash_to_point_vartime : Bytes → ℕ → List ℕ
  pub is_short_half : ℕ → List ℕ → ℕ → Bool

-- The key of `g_zknox`.
pub record Globals : Type 0 where
  pub falcon_seed : Bytes
  pub falcon_f : Bytes
  pub falcon_g : Bytes
  pub falcon_cap_f : Bytes
  pub falcon_cap_g : Bytes
  pub falcon_ready : ℕ

-- `l0_phase`
pub data Phase : Type 0 where
  l0_wait_l0 : Phase
  l0_right_dfs : Phase
  l0_export_z1 : Phase
  l0_wait_t1 : Phase
  l0_wait_l0_ar : Phase
  l0_left_dfs : Phase
  l0_export_z0 : Phase
  l0_wait_z0z1_s1 : Phase
  l0_wait_z0z1_s0 : Phase
  l0_sig_ready : Phase

-- `falcon1024_sign_ctx_t`. `hm` and `sig` share one array of 1024 16-bit words.
pub record SignCtx : Type 0 where
  pub phase : ℕ
  pub l0_phase : Phase
  pub depth : ℕ
  pub done : ℕ
  pub child_phase : Memory
  pub stk : Memory
  pub ws : Memory
  pub hm_sig : List ℕ
  pub accum_offset : ℕ
  pub sc : SamplerContext
  pub sig_valid : ℕ
  pub sqn_saved : ℕ
  pub outsourced : Outsourced
  pub tag_buf : Memory
  pub tree_byte_offset : ℕ
  pub nonce : Bytes
  pub msg : Bytes
  pub nonce_set : ℕ
  pub msg_set : ℕ
  pub hm_done : ℕ

-- `FLOGN`, `FN`, `HN`, `DFS_LOGN`, `NODE_MAC_LEN`
abbrev pub flogn : ℕ
flogn = 10

abbrev pub fn : ℕ
fn = 1024

abbrev pub hn : ℕ
hn = 512

abbrev pub dfs_logn : ℕ
dfs_logn = 9

abbrev pub node_mac_len : ℕ
node_mac_len = 16

-- `n` values of type `fpr` from index `i` of an array.
abbrev pub load_fpr : Memory → ℕ → ℕ → Bytes
load_fpr m i n = read_bytes m (8 * i) (8 * n)

abbrev pub store_fpr : Memory → ℕ → Bytes → Memory
store_fpr m i b = write_bytes m (8 * i) b

-- `a[i] = v`
unfoldable pub set_at : Memory → ℕ → ℕ → Memory
set_at a i v j = if ltb j i then a j else if ltb i j then a j else v

-- The 64-bit two's complement of an `int8_t`.
unfoldable pub int8_value : ℕ → ℕ
int8_value b = if ltb b 128 then b else b + 2 ^ 64 - 2 ^ 8
