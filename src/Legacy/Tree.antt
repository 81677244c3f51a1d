-- ===== src/Legacy/Tree.antt =====
-- One half of the signing tree, its records in the order of the wire, and the walk of
-- legacy/src/handler/handler_falcon_sign.c over it as a recursion.
use zknox_hw_falcon.Common.{
  ℕ, zero, suc, ◌+◌, ◌-◌, ◌<◌, ◌≡◌, refl, Bytes, ◌++◌, length, take, ◌==◌, ltb, if◌then◌else◌,
  arith, IsBytes, Bool-cases, inl, inr, ◌∙◌,
}
use zknox_hw_falcon.Common.Memory.{write_bytes}
use zknox_hw_falcon.Common.Apdu.{Response, send_sw, swo_incorrect_data}
use zknox_hw_falcon.Legacy.Outsourced.{
  Outsourced, cx_outsourced_write, apply_keystream, compute_tag,
}
use zknox_hw_falcon.Legacy.State.{Reference, SignCtx, dfs_logn, node_mac_len, store_fpr, set_at}
use zknox_hw_falcon.Legacy.Dfs.{
  stk_ll, split_children, dfs_enter, dfs_after_right, dfs_after_left, sample_leaf,
}
use zknox_hw_falcon.Legacy.Stream.{size_t, node_bytes, subtree_done}
use zknox_hw_falcon.Legacy.StreamBytes.{feed_bytes}

-- A leaf is one value, and a node a polynomial over its right and its left subtree.
pub data Tree : Type 0 where
  leaf : Bytes → Tree
  node : Bytes → Tree → Tree → Tree

-- A full tree of `n` levels above its leaves, with polynomials of 2^n values at the top.
unfoldable pub IsFull : ℕ → Tree → Type 0
IsFull zero (leaf v) = (length v ≡ 8) × IsBytes v
IsFull zero (node l a b) = ⊥
IsFull (suc n) (leaf v) = ⊥
IsFull (suc n) (node l a b) =
    (length l ≡ node_bytes (dfs_logn - suc n)) × IsBytes l × IsFull n a × IsFull n b

-- The offset after the records of a tree.
unfoldable pub tree_end : ℕ → Tree → ℕ
tree_end off (leaf v) = size_t (off + length v)
tree_end off (node l a b) = tree_end (tree_end (size_t (off + length l)) a) b

-- The records in the order of the walk: a node, then its right subtree, then its left one.
unfoldable pub tree_records : (Bytes → ℕ → Bytes) → Outsourced → ℕ → Tree → Bytes
tree_records shake256 ctx off (leaf v) = cx_outsourced_write shake256 ctx off v
tree_records shake256 ctx off (node l a b) =
    let first = size_t (off + length l) in
    cx_outsourced_write shake256 ctx off l
    ++ tree_records shake256 ctx first a
    ++ tree_records shake256 ctx (tree_end first a) b

-- The context when the record of `pt` is verified and decrypted.
unfoldable pub accept : Reference → Bytes → SignCtx → SignCtx
accept r pt s =
    let ct = apply_keystream r.shake256 s.outsourced.tree_key pt s.tree_byte_offset in
    record s {
      ws = write_bytes s.ws 0 pt;
      tag_buf =
          write_bytes s.tag_buf 0
            (compute_tag r.shake256 s.outsourced.mac_key ct s.tree_byte_offset);
      accum_offset = length pt + node_mac_len;
      tree_byte_offset = size_t (s.tree_byte_offset + length pt);
    }

-- Into the right subtree of a node.
unfoldable pub enter_node : Reference → ℕ → Bytes → SignCtx → SignCtx
enter_node r d l s =
    let s1 = accept r l s in
    record (dfs_enter r d (record s1 { stk = store_fpr s1.stk (stk_ll d) l })) {
      depth = d + 1;
      accum_offset = 0;
    }

-- From the right subtree of a node into the left one.
unfoldable pub turn_left : Reference → ℕ → SignCtx → SignCtx
turn_left r d s = record (dfs_after_right r d s) { depth = d + 1; accum_offset = 0 }

-- The walk over a tree at a depth as a recursion, with the context that it leaves.
unfoldable pub ff_tree : Reference → ℕ → Tree → SignCtx → SignCtx
ff_tree r d (leaf v) s = sample_leaf r d (take 8 v) (accept r v s)
ff_tree r d (node l a b) s =
    dfs_after_left r d
      (ff_tree r (d + 1) b (turn_left r d (ff_tree r (d + 1) a (enter_node r d l s))))

-- What follows when the walk has come up from a node.
unfoldable pub resume : Reference → SignCtx × ℕ → Bytes → SignCtx × Response
resume r fed rest =
    let s = record fed.0 { accum_offset = 0 } in
    if fed.1 == 1
    then (if ltb 0 (length rest) then (s, send_sw swo_incorrect_data) else subtree_done r s)
    else feed_bytes r s rest

-- What the walk over a tree at depth `d` keeps.
pub record IsKept (d off : ℕ) (s t : SignCtx) : Type 0 where
  pub same_above : (j : ℕ) → j < d → t.child_phase j ≡ s.child_phase j
  pub same_keys : t.outsourced ≡ s.outsourced
  pub same_phase : t.l0_phase ≡ s.l0_phase
  pub offset : t.tree_byte_offset ≡ off

pub accept-IsKept :
    (r : Reference) (d : ℕ) (pt : Bytes) (s : SignCtx)
    → IsKept d (size_t (s.tree_byte_offset + length pt)) s (accept r pt s)
unfolding accept
accept-IsKept r d pt s = record {
  same_above = λ j p. refl;
  same_keys = refl;
  same_phase = refl;
  offset = refl;
}

pub enter_node-IsKept :
    (r : Reference) (d : ℕ) (l : Bytes) (s : SignCtx)
    → IsKept d (size_t (s.tree_byte_offset + length l)) s (enter_node r d l s)
unfolding enter_node accept dfs_enter split_children set_at
enter_node-IsKept r d l s = record {
  same_above = λ j p. ground arith;
  same_keys = refl;
  same_phase = refl;
  offset = refl;
}

pub turn_left-IsKept :
    (r : Reference) (d : ℕ) (s : SignCtx) → IsKept d s.tree_byte_offset s (turn_left r d s)
unfolding turn_left dfs_after_right split_children set_at
turn_left-IsKept r d s = record {
  same_above = λ j p. ground arith;
  same_keys = refl;
  same_phase = refl;
  offset = refl;
}

pub after_left-IsKept :
    (r : Reference) (d : ℕ) (s : SignCtx) → IsKept d s.tree_byte_offset s (dfs_after_left r d s)
unfolding dfs_after_left
after_left-IsKept r d s = elim (Bool-cases (d == 0)) [
  | inl e ↦ record {
    same_above = λ j p. ground arith;
    same_keys = simp e refl;
    same_phase = simp e refl;
    offset = simp e refl;
  }
  | inr e ↦ record {
    same_above = λ j p. simp e refl;
    same_keys = simp e refl;
    same_phase = simp e refl;
    offset = simp e refl;
  }
]

pub trans-IsKept :
    (d off off2 : ℕ) (s t u : SignCtx) → IsKept d off s t → IsKept d off2 t u → IsKept d off2 s u
trans-IsKept d off off2 s t u h k = record {
  same_above = λ j p. k.same_above j p ∙ h.same_above j p;
  same_keys = k.same_keys ∙ h.same_keys;
  same_phase = k.same_phase ∙ h.same_phase;
  offset = k.offset;
}

pub lower-IsKept : (d off : ℕ) (s t : SignCtx) → IsKept (d + 1) off s t → IsKept d off s t
lower-IsKept d off s t h = record {
  same_above = λ j p. h.same_above j (omega arith);
  same_keys = h.same_keys;
  same_phase = h.same_phase;
  offset = h.offset;
}
