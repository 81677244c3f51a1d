-- ===== src/Legacy/Level0.antt =====
-- The top level of the signing tree and the last two products
-- (legacy/src/handler/handler_falcon_sign.c).
use Prim.Native.Nat.{bit_or}
use zknox_hw_falcon.Common.{
  ℕ, zero, suc, ◌+◌, ◌-◌, ◌*◌, ◌/◌, ◌%◌, ◌^◌, Bytes, List, [], ◌∷◌, ◌++◌, take, drop, map,
  replicate, Bool, Option, some, none,
}
use zknox_hw_falcon.Legacy.State.{
  Reference, Globals, SignCtx, Phase, l0_wait_l0, l0_wait_t1, l0_wait_l0_ar, l0_wait_z0z1_s0,
  l0_wait_z0z1_s1, flogn, fn, hn, load_fpr, store_fpr, int8_value,
}
use zknox_hw_falcon.Legacy.Dfs.{stk_t1, split_children}

-- `for (u …) dst[u] = fpr_of(src[u])`
unfoldable pub fpr_array : Reference → List ℕ → Bytes
fpr_array r [] = []
fpr_array r (x ∷ xs) = r.fpr_of x ++ fpr_array r xs

-- The transform of a short polynomial of the key.
unfoldable pub fft_of_key : Reference → Bytes → Bytes
fft_of_key r f = r.fft flogn (fpr_array r (map int8_value f))

-- The same, negated.
unfoldable pub neg_fft_of_key : Reference → Bytes → Bytes
neg_fft_of_key r f = r.poly_neg flogn (fft_of_key r f)

-- `memset(&sctx, 0, …)`, where a zeroed `l0_phase` is L0_WAIT_L0.
unfoldable pub zero_sctx : SignCtx
zero_sctx = record {
  phase = 0;
  l0_phase = l0_wait_l0;
  depth = 0;
  done = 0;
  child_phase = λ _. 0;
  stk = λ _. 0;
  ws = λ _. 0;
  hm_sig = replicate fn 0;
  accum_offset = 0;
  sc = record { p = replicate 776 0; sigma_min = replicate 8 0 };
  sig_valid = 0;
  sqn_saved = 0;
  outsourced = record { tree_key = replicate 32 0; mac_key = replicate 32 0 };
  tag_buf = λ _. 0;
  tree_byte_offset = 0;
  nonce = replicate 40 0;
  msg = replicate 32 0;
  nonce_set = 0;
  msg_set = 0;
  hm_done = 0;
}

-- The end of `do_level0_enter` and of `do_after_right`: the polynomial at index 2048 is split, and
-- the walk starts again.
unfoldable pub start_dfs : Reference → SignCtx → SignCtx
start_dfs r s =
    let s1 = split_children r 0 flogn (load_fpr s.stk (2 * fn) fn) s in
    record s1 { depth = 0; done = 0; child_phase = λ _. 0 }

-- `do_level0_enter`
unfoldable pub do_level0_enter : Reference → SignCtx → SignCtx
do_level0_enter r s =
    start_dfs r (record s { stk = store_fpr s.stk (2 * fn) (load_fpr s.stk fn fn) })

-- `do_merge_right` and `do_merge_left`, which are the same
unfoldable pub do_merge : Reference → SignCtx → SignCtx
do_merge r s =
    let z0 = load_fpr s.ws 0 hn in
    let z1 = load_fpr s.stk (stk_t1 0) hn in
    record s { stk = store_fpr s.stk 0 (r.poly_merge_fft flogn z0 z1) }

-- The polynomial `hm` times `-F` over q: t0.
unfoldable pub target_t0 : Reference → Globals → List ℕ → Bytes
target_t0 r g hm =
    r.poly_mulconst flogn
      (r.poly_mul_fft flogn (r.fft flogn (fpr_array r hm)) (neg_fft_of_key r g.falcon_cap_f))
      r.fpr_inverse_of_q

-- The polynomial `hm` times `-f` over -q: t1.
unfoldable pub target_t1 : Reference → Globals → List ℕ → Bytes
target_t1 r g hm =
    r.poly_mulconst flogn
      (r.poly_mul_fft flogn (r.fft flogn (fpr_array r hm)) (neg_fft_of_key r g.falcon_f))
      (r.fpr_neg r.fpr_inverse_of_q)

-- `do_after_right`
unfoldable pub do_after_right : Reference → Globals → SignCtx → SignCtx
do_after_right r g s =
    let l0 = load_fpr s.stk 0 fn in
    let diff = r.poly_mul_fft flogn (load_fpr s.stk fn fn) l0 in
    let tb0 = r.poly_add flogn (target_t0 r g s.hm_sig) diff in
    let buf = neg_fft_of_key r g.falcon_cap_f in
    let stk1 = store_fpr (store_fpr s.stk fn diff) (2 * fn) buf in
    start_dfs r (record s { stk = store_fpr (store_fpr stk1 0 tb0) (2 * fn) tb0 })

-- `(int16_t)-fpr_rint(z0[u])`, over the values of a polynomial
unfoldable pub neg_rint : Reference → ℕ → Bytes → List ℕ
neg_rint r zero b = []
neg_rint r (suc n) b = (2 ^ 16 - r.fpr_rint (take 8 b) % 2 ^ 16) % 2 ^ 16 ∷ neg_rint r n (drop 8 b)

-- The product that gives s1, from z0 and z1.
unfoldable pub s1_of : Reference → Globals → Bytes → Bytes → Bytes
s1_of r g z0 z1 = r.ifft flogn (
    r.poly_add flogn (r.poly_mul_fft flogn z0 (neg_fft_of_key r g.falcon_f))
      (r.poly_mul_fft flogn z1 (neg_fft_of_key r g.falcon_cap_f)))

-- `do_compute_s1_and_check`: the context and whether the signature is short.
unfoldable pub do_compute_s1_and_check : Reference → Globals → SignCtx → SignCtx × Bool
do_compute_s1_and_check r g s =
    let z0 = load_fpr s.stk 0 fn in
    let z1 = load_fpr s.stk fn fn in
    let s1 = s1_of r g z0 z1 in
    let stk1 =
      store_fpr (store_fpr s.stk (2 * fn) (neg_fft_of_key r g.falcon_cap_f)) fn
        (r.poly_mul_fft flogn z1 (neg_fft_of_key r g.falcon_cap_f)) in
    let sig = neg_rint r fn s1 in
    (record s { stk = store_fpr stk1 0 s1; hm_sig = sig }, r.is_short_half s.sqn_saved sig flogn)

-- The product that gives s0, from z0 and z1.
unfoldable pub s0_of : Reference → Globals → Bytes → Bytes → Bytes
s0_of r g z0 z1 = r.ifft flogn (
    r.poly_add flogn (r.poly_mul_fft flogn z0 (fft_of_key r g.falcon_g))
      (r.poly_mul_fft flogn z1 (fft_of_key r g.falcon_cap_g)))

-- The squared norm of `hm - s0` so far and the bits that it had, over the values left.
unfoldable pub sqn_loop : Reference → List ℕ → Bytes → ℕ → ℕ → ℕ × ℕ
sqn_loop r [] b sqn ng = (sqn, ng)
sqn_loop r (h ∷ hs) b sqn ng =
    let z = (h + 2 ^ 32 - r.fpr_rint (take 8 b) % 2 ^ 32) % 2 ^ 32 in
    let sqn1 = (sqn + z * z) % 2 ^ 32 in sqn_loop r hs (drop 8 b) sqn1 (bit_or ng sqn1)

-- `sqn |= -(ng >> 31)`
unfoldable pub sqn_of : Reference → List ℕ → Bytes → ℕ
sqn_of r hm s0 = let t = sqn_loop r hm s0 0 0 in bit_or t.0 ((2 ^ 32 - t.1 / 2 ^ 31) % 2 ^ 32)

-- `do_compute_s0_sqn`
unfoldable pub do_compute_s0_sqn : Reference → Globals → SignCtx → SignCtx
do_compute_s0_sqn r g s =
    let z0 = load_fpr s.stk 0 fn in
    let z1 = load_fpr s.stk fn fn in
    let s0 = s0_of r g z0 z1 in
    let stk1 =
      store_fpr (store_fpr s.stk (2 * fn) (fft_of_key r g.falcon_cap_g)) fn
        (r.poly_mul_fft flogn z1 (fft_of_key r g.falcon_cap_g)) in
    record s { stk = store_fpr stk1 0 s0; sqn_saved = sqn_of r s.hm_sig s0 }

-- `swap_target()`, as a byte offset in `stk`
unfoldable pub swap_target : Phase → Option ℕ
swap_target p = elim p [
  | l0_wait_l0 ↦ some (8 * (2 * fn))
  | l0_wait_t1 ↦ some (8 * fn)
  | l0_wait_l0_ar ↦ some 0
  | l0_wait_z0z1_s1 ↦ some 0
  | l0_wait_z0z1_s0 ↦ some 0
  | _ ↦ none
]
