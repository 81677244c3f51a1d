-- ===== src/Legacy/ExpandLeaf.antt =====
-- A leaf of the walk in legacy/src/handler/handler_falcon_keygen_expand.c, and a run of steps.
use mathlib.Core.List.{append_assoc}
use zknox_hw_falcon.Common.{
  ℕ, zero, suc, ◌+◌, ◌*◌, ◌≤◌, ◌<◌, ◌≡◌, refl, ap₂, Bytes, [], ◌++◌, length, ◌==◌, arith, inl, inr,
  ◌∙◌, Bool-cases,
}
use zknox_hw_falcon.Common.Memory.{
  Memory, write_bytes, read_bytes, read-write_all, read-write_disjoint, read_bytes-append,
}
use zknox_hw_falcon.Legacy.Outsourced.{cx_outsourced_write, apply_keystream, compute_tag}
use zknox_hw_falcon.Legacy.OutsourcedLaws.{IsHash, length-apply_keystream}
use zknox_hw_falcon.Legacy.State.{Reference, node_mac_len}
use zknox_hw_falcon.Legacy.Stream.{size_t}
use zknox_hw_falcon.Legacy.Expand.{
  KePhase, Kctx, Expander, slot_bytes, tree_xor_inplace, tree_compute_tag, emit_node_into,
  walker_bubble, walker_leaf, walker_step,
}
use zknox_hw_falcon.Legacy.Stage.{IsApart}
use zknox_hw_falcon.Legacy.ExpandStep.{IsSized, keys_of, staged}

-- Steps one after the other: the records that they stage, and what the last one leaves.
unfoldable pub walk : Reference → ℕ → ℕ → KePhase → ℕ → Expander → Bytes × Expander
walk r t u end_phase zero x = ([], x)
walk r t u end_phase (suc n) x =
    let x1 = walker_step r t u end_phase x in
    let rest = walk r t u end_phase n x1 in (staged t x1 ++ rest.0, rest.1)

pub walk-add :
    (r : Reference) (t u : ℕ) (end_phase : KePhase) (a b : ℕ) (x : Expander)
    → walk r t u end_phase (a + b) x ≡ (
      (walk r t u end_phase a x).0 ++ (walk r t u end_phase b (walk r t u end_phase a x).1).0,
      (walk r t u end_phase b (walk r t u end_phase a x).1).1,
    )
unfolding walk
walk-add r t u end_phase zero b x = let e : 0 + b ≡ b = omega arith in rw e refl
walk-add r t u end_phase (suc a) b x =
    let e : suc a + b ≡ suc (a + b) = omega arith in
    let x1 = walker_step r t u end_phase x in
    rw (e, walk, walk-add r t u end_phase a b x1, append_assoc) refl

pub bubble_len :
    (end_phase : KePhase) (d : ℕ) (k : Kctx) → (walker_bubble end_phase d k).node_len ≡ k.node_len
unfolding walker_bubble
bubble_len end_phase zero k = refl
bubble_len end_phase (suc d) k = elim (Bool-cases (k.child_phase d == 0)) [
  | inl e ↦ simp e refl
  | inr e ↦ simp e (bubble_len end_phase d k)
]

-- What the walk over a subtree at depth `d` keeps of the state.
pub record IsWalked (d off : ℕ) (k k' : Kctx) : Type 0 where
  pub same_above : (j : ℕ) → j < d → k'.child_phase j ≡ k.child_phase j
  pub same_ptr : (j : ℕ) → j ≤ d → k'.ptr_offset j ≡ k.ptr_offset j
  pub same_keys : keys_of k' ≡ keys_of k
  pub same_phase : k'.phase ≡ k.phase
  pub offset : k'.cum_off ≡ off

module _ (r : Reference) (t u : ℕ) (end_phase : KePhase) (x : Expander) where
  abbrev pub value_of : Bytes
  value_of =
      r.fpr_mul (r.fpr_sqrt (read_bytes x.zknox.area (x.kctx.ptr_offset x.kctx.depth) 8))
        r.fpr_inv_sigma

  abbrev pub leaf_ct : Bytes
  leaf_ct = tree_xor_inplace r x.kctx.tree_key value_of x.kctx.cum_off

  abbrev pub leaf_tag : Bytes
  leaf_tag = tree_compute_tag r x.kctx.mac_key leaf_ct x.kctx.cum_off

  abbrev pub leaf_area : Memory
  leaf_area =
      write_bytes
        (write_bytes (write_bytes x.zknox.area (t * slot_bytes) value_of) (t * slot_bytes) leaf_ct)
        (t * slot_bytes + 8) leaf_tag

  abbrev pub leaf_kctx : Kctx
  leaf_kctx = record (x.kctx) { cum_off = size_t (x.kctx.cum_off + 8); node_len = 8 + node_mac_len }

  pub walker_leaf_lem :
      IsSized r
      → walker_leaf r t end_phase x ≡ record {
        kctx = walker_bubble end_phase x.kctx.depth leaf_kctx;
        zknox = record (x.zknox) { area = leaf_area };
      }
  unfolding walker_leaf emit_node_into
  walker_leaf_lem sized =
      let e = read-write_all x.zknox.area (t * slot_bytes) value_of 8 (sized.fpr_size _ _) in
      rw (walker_leaf, e) refl

  pub leaf-staged :
      IsSized r
      → IsHash r.shake256
      → read_bytes leaf_area (t * slot_bytes) (8 + node_mac_len)
        ≡ cx_outsourced_write r.shake256 (keys_of x.kctx) x.kctx.cum_off value_of
  unfolding cx_outsourced_write tree_xor_inplace tree_compute_tag apply_keystream compute_tag
  leaf-staged sized hash =
      let stage = t * slot_bytes in
      let len =
        length-apply_keystream r.shake256 x.kctx.tree_key value_of x.kctx.cum_off
        ∙ sized.fpr_size _ _ in
      let size : length leaf_tag ≡ 16 = hash.size _ _ in
      read_bytes-append leaf_area stage 8 16
      ∙ ap₂ ◌++◌
          (read-write_disjoint _ (stage + 8) leaf_tag stage 8 (inl (omega arith))
            ∙ read-write_all _ stage leaf_ct 8 len)
          (read-write_all _ (stage + 8) leaf_tag 16 size)

  pub leaf_keeps :
      IsSized r
      → IsHash r.shake256
      → (at n : ℕ) → IsApart at n (t * slot_bytes) 8192
      → read_bytes leaf_area at n ≡ read_bytes x.zknox.area at n
  unfolding tree_xor_inplace tree_compute_tag apply_keystream
  leaf_keeps sized hash at n apart =
      let stage = t * slot_bytes in
      let value : length value_of ≡ 8 = sized.fpr_size _ _ in
      let ct : length leaf_ct ≡ 8 =
        length-apply_keystream r.shake256 x.kctx.tree_key value_of x.kctx.cum_off ∙ value in
      let tag : length leaf_tag ≡ 16 = hash.size _ _ in
      read-write_disjoint _ (stage + 8) leaf_tag at n (ground arith)
      ∙ read-write_disjoint _ stage leaf_ct at n (ground arith)
      ∙ read-write_disjoint _ stage value_of at n (ground arith)
