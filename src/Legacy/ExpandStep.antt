-- ===== src/Legacy/ExpandStep.antt =====
-- One step of the walk in legacy/src/handler/handler_falcon_keygen_expand.c: the record that it
-- stages, and the buffers that it leaves to the children.
use zknox_hw_falcon.Common.{ℕ, zero, suc, ◌+◌, ◌*◌, ◌^◌, ◌≤◌, ◌≡◌, refl, Bytes, length, arith, ◌∙◌}
use zknox_hw_falcon.Common.Memory.{Memory, write_bytes, read_bytes, read-write_all}
use zknox_hw_falcon.Legacy.Outsourced.{Outsourced, apply_keystream}
use zknox_hw_falcon.Legacy.OutsourcedLaws.{IsHash, length-apply_keystream}
use zknox_hw_falcon.Legacy.State.{Reference, node_mac_len, set_at}
use zknox_hw_falcon.Legacy.Stream.{size_t}
use zknox_hw_falcon.Legacy.Tree.{Tree, leaf, node}
use zknox_hw_falcon.Legacy.Expand.{
  Kctx, Expander, slot_bytes, tree_xor_inplace, tree_compute_tag, emit_node_into, walker_inner,
}
use zknox_hw_falcon.Legacy.Stage.{IsStep, IsPlaced, both_split, emitted_keeps, left_split-tmp}

-- The sizes that the reference library gives its results.
pub record IsSized (r : Reference) : Type 0 where
  pub d11_size : (n : ℕ) (a b c : Bytes) → length (r.poly_ldlmv_fft n a b c).0 ≡ 8 * 2 ^ n
  pub l10_size : (n : ℕ) (a b c : Bytes) → length (r.poly_ldlmv_fft n a b c).1 ≡ 8 * 2 ^ n
  pub half_0 : (n : ℕ) (f : Bytes) → 1 ≤ n → length (r.poly_split_fft n f).0 ≡ 4 * 2 ^ n
  pub half_1 : (n : ℕ) (f : Bytes) → 1 ≤ n → length (r.poly_split_fft n f).1 ≡ 4 * 2 ^ n
  pub fpr_size : (a b : Bytes) → length (r.fpr_mul a b) ≡ 8

-- The keys of the expansion.
abbrev pub keys_of : Kctx → Outsourced
keys_of k = record { tree_key = k.tree_key; mac_key = k.mac_key }

-- The tree below a buffer of two halves.
unfoldable pub ldl_tree : Reference → ℕ → Bytes → Bytes → Tree
ldl_tree r zero g0 g1 = leaf (r.fpr_mul (r.fpr_sqrt g0) r.fpr_inv_sigma)
ldl_tree r (suc n) g0 g1 =
    let f = r.poly_ldlmv_fft (suc n) g0 g1 g0 in
    let a = r.poly_split_fft (suc n) g0 in
    let b = r.poly_split_fft (suc n) f.0 in node f.1 (ldl_tree r n b.0 b.1) (ldl_tree r n a.0 a.1)

-- The record that a step has staged.
abbrev pub staged : ℕ → Expander → Bytes
staged slot x = read_bytes x.zknox.area (slot * slot_bytes) x.kctx.node_len

module _ (r : Reference) (t u logn : ℕ) (x : Expander) where
  abbrev pub at_node : ℕ
  at_node = x.kctx.ptr_offset x.kctx.depth

  abbrev pub g0_of : Bytes
  g0_of = read_bytes x.zknox.area at_node (8 * 2 ^ logn)

  abbrev pub g1_of : Bytes
  g1_of = read_bytes x.zknox.area (at_node + 8 * 2 ^ logn) (8 * 2 ^ logn)

  abbrev pub ldl_of : Bytes × Bytes
  ldl_of = r.poly_ldlmv_fft logn g0_of g1_of g0_of

  abbrev pub ct_of : Bytes
  ct_of = tree_xor_inplace r x.kctx.tree_key ldl_of.1 x.kctx.cum_off

  abbrev pub tag_of : Bytes
  tag_of = tree_compute_tag r x.kctx.mac_key ct_of x.kctx.cum_off

  abbrev pub inner_area : Memory
  inner_area =
      both_split x.zknox.area (2 ^ logn) at_node (t * slot_bytes) (u * slot_bytes) ldl_of.0 ldl_of.1
        ct_of tag_of (r.poly_split_fft logn g0_of).0 (r.poly_split_fft logn g0_of).1
        (r.poly_split_fft logn ldl_of.0).0 (r.poly_split_fft logn ldl_of.0).1

  abbrev pub inner_kctx : Kctx
  inner_kctx = record (x.kctx) {
    cum_off = size_t (x.kctx.cum_off + 8 * 2 ^ logn);
    node_len = 8 * 2 ^ logn + node_mac_len;
    child_phase = set_at x.kctx.child_phase x.kctx.depth 0;
    ptr_offset = set_at x.kctx.ptr_offset (x.kctx.depth + 1) at_node;
    depth = x.kctx.depth + 1;
  }

  pub inner_polys-IsStep :
      IsSized r
      → IsHash r.shake256
      → 1 ≤ logn
      → IsStep
          (2 ^ logn)
          ldl_of.0
          ldl_of.1
          ct_of
          tag_of
          (r.poly_split_fft logn g0_of).0
          (r.poly_split_fft logn g0_of).1
          (r.poly_split_fft logn ldl_of.0).0
          (r.poly_split_fft logn ldl_of.0).1
  unfolding tree_xor_inplace tree_compute_tag apply_keystream
  inner_polys-IsStep sized hash inner = record {
    d11_size = sized.d11_size logn _ _ _;
    l10_size = sized.l10_size logn _ _ _;
    ct_size =
        length-apply_keystream r.shake256 x.kctx.tree_key ldl_of.1 x.kctx.cum_off
        ∙ sized.l10_size logn _ _ _;
    tag_size = hash.size _ _;
    a0_size = sized.half_0 logn _ inner;
    a1_size = sized.half_1 logn _ inner;
    b0_size = sized.half_0 logn _ inner;
    b1_size = sized.half_1 logn _ inner;
  }

  pub walker_inner_lem :
      IsSized r
      → IsHash r.shake256
      → 1 ≤ logn
      → IsPlaced (2 ^ logn) at_node (t * slot_bytes) (u * slot_bytes)
      → walker_inner r t u logn (2 ^ logn) x
        ≡ record { kctx = inner_kctx; zknox = record (x.zknox) { area = inner_area } }
  unfolding walker_inner emit_node_into
  walker_inner_lem sized hash inner placed =
      let steps = inner_polys-IsStep sized hash inner in
      let m = x.zknox.area in
      let stage = t * slot_bytes in
      let tmp = u * slot_bytes in
      let n = 2 ^ logn in
      let a = r.poly_split_fft logn g0_of in
      let b = r.poly_split_fft logn ldl_of.0 in
      let e1 = read-write_all (write_bytes m tmp ldl_of.0) stage ldl_of.1 (8 * n) steps.l10_size in
      let e2 =
        emitted_keeps m n at_node stage tmp ldl_of.0 ldl_of.1 ct_of tag_of a.0 a.1 b.0 b.1 steps
          placed at_node (8 * n) (ground arith) (ground arith) in
      let e3 =
        left_split-tmp m n at_node stage tmp ldl_of.0 ldl_of.1 ct_of tag_of a.0 a.1 b.0 b.1 steps
          placed in
      rw (walker_inner, e1, e2, e3) refl
