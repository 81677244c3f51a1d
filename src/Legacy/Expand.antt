-- ===== src/Legacy/Expand.antt =====
-- legacy/src/handler/handler_falcon_keygen_expand.c, the computation: the Gram matrix, the top
-- level of the tree, and the walk that makes one node at a time.
use zknox_hw_falcon.Common.{
  ℕ, zero, suc, ◌+◌, ◌-◌, ◌*◌, ◌^◌, Bytes, ◌++◌, length, ◌==◌, if◌then◌else◌,
}
use zknox_hw_falcon.Common.Memory.{Memory, write_bytes, read_bytes}
use zknox_hw_falcon.Legacy.Outsourced.{
  tree_key_label, mac_key_label, off_to_le8, keystream_loop, xof_stream,
}
use zknox_hw_falcon.Legacy.State.{Reference, Globals, flogn, fn, hn, dfs_logn, node_mac_len, set_at}
use zknox_hw_falcon.Legacy.Level0.{fft_of_key, neg_fft_of_key}
use zknox_hw_falcon.Legacy.Stream.{size_t}
use zknox_hw_falcon.Legacy.Keygen.{Zknox}

-- The sub-phases, `KE_IDLE` and so on.
pub data KePhase : Type 0 where
  ke_idle : KePhase
  ke_l0_staged : KePhase
  ke_walk_right : KePhase
  ke_walk_left : KePhase
  ke_done : KePhase

-- `falcon_keygen_expand_state_t`
pub record Kctx : Type 0 where
  pub phase : KePhase
  pub depth : ℕ
  pub child_phase : Memory
  pub ptr_offset : Memory
  pub cum_off : ℕ
  pub node_shipped : ℕ
  pub node_len : ℕ
  pub tree_key : Bytes
  pub mac_key : Bytes
  pub l0_tag : Bytes

-- `g_kstate` and `g_zknox`, whose sign area is `WORK_BUF`.
pub record Expander : Type 0 where
  pub kctx : Kctx
  pub zknox : Zknox

-- `SLOT_BYTES`
abbrev pub slot_bytes : ℕ
slot_bytes = 8 * fn

-- `SLOT(i)`, read and written as one polynomial
abbrev pub slot : ℕ → Memory → Bytes
slot i m = read_bytes m (i * slot_bytes) slot_bytes

abbrev pub set_slot : ℕ → Bytes → Memory → Memory
set_slot i b m = write_bytes m (i * slot_bytes) b

-- `derive_tree_key`
unfoldable pub derive_tree_key : Reference → Bytes → Bytes
derive_tree_key r seed = r.shake256 (tree_key_label ++ seed) 32

-- `derive_tree_mac_key`
unfoldable pub derive_tree_mac_key : Reference → Bytes → Bytes
derive_tree_mac_key r seed = r.shake256 (mac_key_label ++ seed) 32

-- `tree_xor_inplace`
unfoldable pub tree_xor_inplace : Reference → Bytes → Bytes → ℕ → Bytes
tree_xor_inplace r key d off =
    keystream_loop (length d) (xof_stream r.shake256 (key ++ off_to_le8 off)) 0 d

-- `tree_compute_tag`
unfoldable pub tree_compute_tag : Reference → Bytes → Bytes → ℕ → Bytes
tree_compute_tag r mkey ct off = r.shake256 (mkey ++ off_to_le8 off ++ ct) node_mac_len

-- `emit_node_into(target_buf, nb)`, with the buffer's place in `WORK_BUF`
unfoldable pub emit_node_into : Reference → ℕ → ℕ → Kctx → Memory → Kctx × Memory
emit_node_into r target nb k m =
    let ct = tree_xor_inplace r k.tree_key (read_bytes m target nb) k.cum_off in
    let tag = tree_compute_tag r k.mac_key ct k.cum_off in
    (
      record k { cum_off = size_t (k.cum_off + nb) },
      write_bytes (write_bytes m target ct) (target + nb) tag,
    )

-- `gram_phase`: what each slot holds at its end.
unfoldable pub gram_phase : Reference → Globals → Memory → Memory
gram_phase r g m =
    let b00 = fft_of_key r g.falcon_g in
    let b01 = neg_fft_of_key r g.falcon_f in
    let b10 = fft_of_key r g.falcon_cap_g in
    let b11 = neg_fft_of_key r g.falcon_cap_f in
    let g00 =
      r.poly_add flogn (r.poly_mulselfadj_fft flogn b00) (r.poly_mulselfadj_fft flogn b01) in
    let g01 =
      r.poly_add flogn (r.poly_muladj_fft flogn b00 b10) (r.poly_muladj_fft flogn b01 b11) in
    let scr = r.poly_mulselfadj_fft flogn b11 in
    let g11 = r.poly_add flogn (r.poly_mulselfadj_fft flogn b10) scr in
    set_slot 3 scr (set_slot 2 g11 (set_slot 1 g01 (set_slot 0 g00 m)))

-- The loop of `ldlmv_fft_inplace`, with `n` rounds left from index `u` on; the arrays are given by
-- their places.
unfoldable pub ldlmv_loop : ℕ → Reference → ℕ → ℕ → ℕ → ℕ → Memory → Memory
ldlmv_loop zero r at00 at01 at11 u m = m
ldlmv_loop (suc n) r at00 at01 at11 u m =
    let at : ℕ → ℕ → Bytes = λ base i. read_bytes m (base + 8 * i) 8 in
    let put : ℕ → ℕ → Bytes → Memory → Memory = λ base i b t. write_bytes t (base + 8 * i) b in
    let g00_re = at at00 u in
    let g00_im = at at00 (u + hn) in
    let g01_re = at at01 u in
    let g01_im = at at01 (u + hn) in
    let g11_re = at at11 u in
    let g11_im = at at11 (u + hn) in
    let inv = r.fpr_inv (r.fpr_add (r.fpr_sqr g00_re) (r.fpr_sqr g00_im)) in
    let br = r.fpr_mul g00_re inv in
    let bi = r.fpr_mul (r.fpr_neg g00_im) inv in
    let mu_re = r.fpr_sub (r.fpr_mul g01_re br) (r.fpr_mul g01_im bi) in
    let mu_im = r.fpr_add (r.fpr_mul g01_re bi) (r.fpr_mul g01_im br) in
    let xi_re = r.fpr_sub (r.fpr_mul mu_re g01_re) (r.fpr_mul mu_im (r.fpr_neg g01_im)) in
    let xi_im = r.fpr_add (r.fpr_mul mu_re (r.fpr_neg g01_im)) (r.fpr_mul mu_im g01_re) in
    let m1 = put at11 u (r.fpr_sub g11_re xi_re) m in
    let m2 = put at11 (u + hn) (r.fpr_sub g11_im xi_im) m1 in
    let m3 = put at01 u mu_re m2 in
    ldlmv_loop n r at00 at01 at11 (u + 1) (put at01 (u + hn) (r.fpr_neg mu_im) m3)

-- `ldlmv_fft_inplace(SLOT(0), SLOT(1), SLOT(2))`
unfoldable pub ldlmv_fft_inplace : Reference → Memory → Memory
ldlmv_fft_inplace r m = ldlmv_loop hn r 0 slot_bytes (2 * slot_bytes) 0 m

-- `compute_l0_phase`
unfoldable pub compute_l0_phase : Reference → Expander → Expander
compute_l0_phase r x =
    let g = x.zknox.keys in
    let tree_key = derive_tree_key r g.falcon_seed in
    let mac_key = derive_tree_mac_key r g.falcon_seed in
    let m = ldlmv_fft_inplace r (gram_phase r g x.zknox.area) in
    let ct = tree_xor_inplace r tree_key (slot 1 m) 0 in
    record {
      kctx = record (x.kctx) {
        tree_key = tree_key;
        mac_key = mac_key;
        cum_off = slot_bytes;
        l0_tag = tree_compute_tag r mac_key ct 0;
      };
      zknox = record (x.zknox) { area = set_slot 1 ct m };
    }

-- `prep_right_phase`
unfoldable pub prep_right_phase : Reference → Expander → Expander
prep_right_phase r x =
    let m = x.zknox.area in
    let d00 = r.poly_split_fft flogn (slot 0 m) in
    let d11 = r.poly_split_fft flogn (slot 2 m) in
    let halves : ℕ → Bytes × Bytes → Memory → Memory =
      λ i p t. write_bytes (write_bytes t (i * slot_bytes) p.0) (i * slot_bytes + 8 * hn) p.1 in
    let m1 = halves 3 d00 m in
    let m2 = halves 0 d11 m1 in
    record {
      kctx = record (x.kctx) {
        depth = 0;
        child_phase = λ _. 0;
        ptr_offset = set_at x.kctx.ptr_offset 0 0;
      };
      zknox = record (x.zknox) { area = set_slot 2 (slot 3 m1) m2 };
    }

-- `prep_left_phase`
unfoldable pub prep_left_phase : Expander → Expander
prep_left_phase x = record x {
  kctx = record (x.kctx) {
    depth = 0;
    child_phase = λ _. 0;
    ptr_offset = set_at x.kctx.ptr_offset 0 (2 * slot_bytes);
  };
}

-- The `for (;;)` loop of `walker_step`: up from a leaf, to the next node that is due.
unfoldable pub walker_bubble : KePhase → ℕ → Kctx → Kctx
walker_bubble end_phase zero k = record k { phase = end_phase; depth = 0 }
walker_bubble end_phase (suc dep) k =
    let up = walker_bubble end_phase dep k in
    if k.child_phase dep == 0
    then record k {
      child_phase = set_at k.child_phase dep 1;
      ptr_offset = set_at k.ptr_offset (dep + 1) (k.ptr_offset dep + 2 ^ (dfs_logn - dep) * 8);
      depth = dep + 1;
    }
    else up

-- `walker_step` at a leaf: the normalised value is emitted.
unfoldable pub walker_leaf : Reference → ℕ → KePhase → Expander → Expander
walker_leaf r tree_slot end_phase x =
    let k = x.kctx in
    let m = x.zknox.area in
    let tree_stage = tree_slot * slot_bytes in
    let value = r.fpr_mul (r.fpr_sqrt (read_bytes m (k.ptr_offset k.depth) 8)) r.fpr_inv_sigma in
    let leaf = emit_node_into r tree_stage 8 k (write_bytes m tree_stage value) in
    record {
      kctx = walker_bubble end_phase k.depth (record (leaf.0) { node_len = 8 + node_mac_len });
      zknox = record (x.zknox) { area = leaf.1 };
    }

-- `walker_step` at a node of `n` values: its polynomial is emitted, and both halves are split.
unfoldable pub walker_inner : Reference → ℕ → ℕ → ℕ → ℕ → Expander → Expander
walker_inner r tree_slot tmp_slot logn n x =
    let k = x.kctx in
    let m = x.zknox.area in
    let dep = k.depth in
    let at0 = k.ptr_offset dep in
    let at1 = at0 + 8 * n in
    let tree_stage = tree_slot * slot_bytes in
    let tmp_stage = tmp_slot * slot_bytes in
    let g0 = read_bytes m at0 (8 * n) in
    let f = r.poly_ldlmv_fft logn g0 (read_bytes m at1 (8 * n)) g0 in
    let staged = write_bytes (write_bytes m tmp_stage f.0) tree_stage f.1 in
    let inner = emit_node_into r tree_stage (8 * n) k staged in
    let a = r.poly_split_fft logn (read_bytes inner.1 at0 (8 * n)) in
    let m1 = write_bytes (write_bytes inner.1 at1 a.0) (at1 + 4 * n) a.1 in
    let b = r.poly_split_fft logn (read_bytes m1 tmp_stage (8 * n)) in
    record {
      kctx = record (inner.0) {
        node_len = 8 * n + node_mac_len;
        child_phase = set_at inner.0.child_phase dep 0;
        ptr_offset = set_at inner.0.ptr_offset (dep + 1) (inner.0.ptr_offset dep);
        depth = dep + 1;
      };
      zknox = record (x.zknox) { area = write_bytes (write_bytes m1 at0 b.0) (at0 + 4 * n) b.1 };
    }

-- `walker_step(tree_slot, tmp_slot, end_phase)`
unfoldable pub walker_step : Reference → ℕ → ℕ → KePhase → Expander → Expander
walker_step r tree_slot tmp_slot end_phase x =
    let logn = dfs_logn - x.kctx.depth in
    if 2 ^ logn == 1
    then walker_leaf r tree_slot end_phase x
    else walker_inner r tree_slot tmp_slot logn (2 ^ logn) x
