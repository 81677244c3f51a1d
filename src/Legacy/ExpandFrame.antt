-- ===== src/Legacy/ExpandFrame.antt =====
-- The walk of legacy/src/handler/handler_falcon_keygen_expand.c over one subtree: a leaf, and what
-- a step and a turn leave.
use native.Mathlib.Nat.{pow-suc, one-le-pow}
use mathlib.Core.List.{append-nil}
use zknox_hw_falcon.Common.{
  ℕ, ◌<◌, suc, ◌+◌, ◌-◌, ◌*◌, ◌^◌, ◌≤◌, ◌≡◌, refl, sym, ap, ap₂, Bytes, [], ◌++◌, ◌==◌, false,
  arith, ◌∙◌,
}
use zknox_hw_falcon.Common.Memory.{Memory, read_bytes}
use zknox_hw_falcon.Legacy.Outsourced.{cx_outsourced_write, apply_keystream, compute_tag}
use zknox_hw_falcon.Legacy.OutsourcedLaws.{IsHash}
use zknox_hw_falcon.Legacy.State.{Reference, dfs_logn, set_at}
use zknox_hw_falcon.Legacy.Stream.{size_t}
use zknox_hw_falcon.Legacy.Tree.{Tree, tree_end, tree_records}
use zknox_hw_falcon.Legacy.Sizes.{node_count}
use zknox_hw_falcon.Legacy.Expand.{
  KePhase, Kctx, Expander, slot_bytes, tree_xor_inplace, tree_compute_tag, walker_bubble,
  walker_leaf, walker_inner, walker_step,
}
use zknox_hw_falcon.Legacy.Stage.{IsApart, IsPlaced, staged_record}
use zknox_hw_falcon.Legacy.ExpandStep.{
  IsSized, keys_of, staged, ldl_tree, at_node, g0_of, g1_of, ldl_of, ct_of, tag_of, inner_area,
  inner_kctx, inner_polys-IsStep,
}
use zknox_hw_falcon.Legacy.ExpandLeaf.{
  walk, bubble_len, IsWalked, leaf_area, leaf_kctx, walker_leaf_lem, leaf-staged, leaf_keeps,
}

-- What the walk over a subtree of `n` levels at depth `d` makes and leaves, where `p` is the place
-- of its buffer.
pub record IsSubtree (r : Reference) (t u : ℕ) (end_phase : KePhase) (n d p : ℕ) (x : Expander)
    (tree : Tree) : Type 0 where
  pub kctx : Kctx
  pub area : Memory
  pub made : walk r t u end_phase (node_count n) x ≡ (
    tree_records r.shake256 (keys_of x.kctx) x.kctx.cum_off tree,
    record { kctx = walker_bubble end_phase d kctx; zknox = record (x.zknox) { area = area } },
  )
  pub walked : IsWalked d (tree_end x.kctx.cum_off tree) x.kctx kctx
  pub inside : (j : ℕ) → j < node_count n → (walk r t u end_phase j x).1.kctx.phase ≡ x.kctx.phase
  pub kept :
      (at len : ℕ)
      → IsApart at len p (16 * 2 ^ n)
      → IsApart at len (t * slot_bytes) 8192
      → IsApart at len (u * slot_bytes) 8192
      → read_bytes area at len ≡ read_bytes x.zknox.area at len

-- The step at a leaf, and at an inner node.
step_leaf :
    (r : Reference) (t u : ℕ) (end_phase : KePhase) (x : Expander)
    → x.kctx.depth ≡ dfs_logn
    → walker_step r t u end_phase x ≡ walker_leaf r t end_phase x
unfolding walker_step
step_leaf r t u end_phase x e = rw (walker_step, e) refl

pub step_inner :
    (r : Reference) (t u : ℕ) (end_phase : KePhase) (n : ℕ) (x : Expander)
    → x.kctx.depth + suc n ≡ dfs_logn
    → walker_step r t u end_phase x ≡ walker_inner r t u (suc n) (2 ^ suc n) x
unfolding walker_step
step_inner r t u end_phase n x e =
    let logn : dfs_logn - x.kctx.depth ≡ suc n = omega arith in
    let more : (2 ^ suc n == 1) ≡ false = ground (arith, pow-suc 2 n, one-le-pow n 2) in
    rw (walker_step, logn, more) refl

pub leaf-IsSubtree :
    (r : Reference) (t u : ℕ) (end_phase : KePhase) (d : ℕ) (x : Expander)
    → IsSized r
    → IsHash r.shake256
    → x.kctx.depth ≡ d
    → d ≡ dfs_logn
    → IsSubtree r t u end_phase 0 d
        (at_node r t u 0 x)
        x
        (ldl_tree r 0 (g0_of r t u 0 x) (g1_of r t u 0 x))
unfolding ldl_tree tree_records tree_end walk
leaf-IsSubtree r t u end_phase d x sized hash deep bottom =
    let step =
      step_leaf r t u end_phase x (deep ∙ bottom) ∙ walker_leaf_lem r t u end_phase x sized in
    record {
      kctx = leaf_kctx r t u end_phase x;
      area = leaf_area r t u end_phase x;
      made =
          ap (λ (y : Expander). (staged t y ++ [], y)) step
          ∙ ap₂ (λ (b : Bytes) (y : Expander). (b, y))
              (append-nil (staged t (after x.kctx.depth))
                ∙ ap (λ (n : ℕ). read_bytes (leaf_area r t u end_phase x) (t * slot_bytes) n)
                    (bubble_len end_phase x.kctx.depth (leaf_kctx r t u end_phase x))
                ∙ leaf-staged r t u end_phase x sized hash)
              (ap after deep);
      walked = record {
        same_above = λ j p. refl;
        same_ptr = λ j p. refl;
        same_keys = refl;
        same_phase = refl;
        offset = ap (λ (n : ℕ). size_t (x.kctx.cum_off + n)) (sym (sized.fpr_size _ _));
      };
      inside = λ j h. let e : j ≡ 0 = omega arith in rw (e, walk) refl;
      kept = λ at len a b c. leaf_keeps r t u end_phase x sized hash at len b;
    }
  where
    after : ℕ → Expander
    after dep = record {
      kctx = walker_bubble end_phase dep (leaf_kctx r t u end_phase x);
      zknox = record (x.zknox) { area = leaf_area r t u end_phase x };
    }

-- What an inner step has staged.
pub inner_staged :
    (r : Reference) (t u logn : ℕ) (x : Expander)
    → IsSized r
    → IsHash r.shake256
    → 1 ≤ logn
    → IsPlaced (2 ^ logn) (at_node r t u logn x) (t * slot_bytes) (u * slot_bytes)
    → read_bytes (inner_area r t u logn x) (t * slot_bytes) (8 * 2 ^ logn + 16)
      ≡ cx_outsourced_write r.shake256 (keys_of x.kctx) x.kctx.cum_off (ldl_of r t u logn x).1
unfolding cx_outsourced_write tree_xor_inplace tree_compute_tag apply_keystream compute_tag
inner_staged r t u logn x sized hash inner placed =
    staged_record x.zknox.area (2 ^ logn) (at_node r t u logn x) (t * slot_bytes) (u * slot_bytes)
      (ldl_of r t u logn x).0 (ldl_of r t u logn x).1 (ct_of r t u logn x) (tag_of r t u logn x) _ _
      _ _ (inner_polys-IsStep r t u logn x sized hash inner) placed

-- The state when the walk turns to the left child of a node at depth `d`, whose buffer is at `p`.
abbrev pub turned : ℕ → ℕ → Kctx → Kctx
turned d p k = record k {
  child_phase = set_at k.child_phase d 1;
  ptr_offset = set_at k.ptr_offset (d + 1) p;
  depth = d + 1;
}

pub bubble_right :
    (end_phase : KePhase) (d n p : ℕ) (k : Kctx)
    → d + n ≡ dfs_logn
    → k.child_phase d ≡ 0
    → k.ptr_offset d ≡ p
    → walker_bubble end_phase (d + 1) k ≡ turned d (p + 8 * 2 ^ n) k
unfolding walker_bubble
bubble_right end_phase d n p k e right at =
    let up : d + 1 ≡ suc d = omega arith in
    let lev : dfs_logn - d ≡ n = omega arith in
    let mul : 2 ^ n * 8 ≡ 8 * 2 ^ n = omega arith in
    ap (λ (m : ℕ). walker_bubble end_phase m k) up ∙ rw (walker_bubble, right, at, lev, mul) refl

pub bubble_left :
    (end_phase : KePhase) (d : ℕ) (k : Kctx)
    → k.child_phase d ≡ 1
    → walker_bubble end_phase (d + 1) k ≡ walker_bubble end_phase d k
unfolding walker_bubble
bubble_left end_phase d k left =
    let up : d + 1 ≡ suc d = omega arith in
    ap (λ (m : ℕ). walker_bubble end_phase m k) up ∙ rw (walker_bubble, left) refl

pub trans-IsWalked :
    (d off off2 : ℕ) (k k1 k2 : Kctx)
    → IsWalked d off k k1
    → IsWalked d off2 k1 k2
    → IsWalked d off2 k k2
trans-IsWalked d off off2 k k1 k2 a b = record {
  same_above = λ j p. b.same_above j p ∙ a.same_above j p;
  same_ptr = λ j p. b.same_ptr j p ∙ a.same_ptr j p;
  same_keys = b.same_keys ∙ a.same_keys;
  same_phase = b.same_phase ∙ a.same_phase;
  offset = b.offset;
}

pub lower-IsWalked : (d off : ℕ) (k k1 : Kctx) → IsWalked (d + 1) off k k1 → IsWalked d off k k1
lower-IsWalked d off k k1 a = record {
  same_above = λ j p. a.same_above j (omega arith);
  same_ptr = λ j p. a.same_ptr j (omega arith);
  same_keys = a.same_keys;
  same_phase = a.same_phase;
  offset = a.offset;
}

pub inner-IsWalked :
    (r : Reference) (t u logn d : ℕ) (x : Expander)
    → x.kctx.depth ≡ d
    → IsWalked d (size_t (x.kctx.cum_off + 8 * 2 ^ logn)) x.kctx (inner_kctx r t u logn x)
unfolding set_at
inner-IsWalked r t u logn d x e = record {
  same_above = λ j p. ground arith;
  same_ptr = λ j p. ground arith;
  same_keys = refl;
  same_phase = refl;
  offset = refl;
}

pub turned-IsWalked : (d p : ℕ) (k : Kctx) → IsWalked d k.cum_off k (turned d p k)
unfolding set_at
turned-IsWalked d p k = record {
  same_above = λ j q. ground arith;
  same_ptr = λ j q. ground arith;
  same_keys = refl;
  same_phase = refl;
  offset = refl;
}
