-- ===== src/Legacy/ExpandWalk.antt =====
-- The walk of legacy/src/handler/handler_falcon_keygen_expand.c makes the records of the tree.
use zknox_hw_falcon.Common.{
  ℕ, zero, suc, ◌+◌, ◌*◌, ◌^◌, ◌≡◌, refl, sym, ap, subst, Bytes, arith, ◌∙◌,
}
use zknox_hw_falcon.Common.Memory.{read_bytes}
use zknox_hw_falcon.Legacy.OutsourcedLaws.{IsHash}
use zknox_hw_falcon.Legacy.State.{Reference, dfs_logn}
use zknox_hw_falcon.Legacy.Expand.{KePhase, Expander, slot_bytes}
use zknox_hw_falcon.Legacy.ExpandStep.{IsSized, ldl_tree, at_node, g0_of, g1_of}
use zknox_hw_falcon.Legacy.ExpandFrame.{IsSubtree, leaf-IsSubtree}
use zknox_hw_falcon.Legacy.ExpandRoom.{IsRoomy, right-IsRoomy, left-IsRoomy}
use zknox_hw_falcon.Legacy.ExpandNode.{
  stepped, right_at, right_first, right_second, left_start, right_left_at, left_first, left_second,
  node-IsSubtree,
}

-- The walk over a node, from the walks over its two subtrees.
walk_below :
    (r : Reference) (t u : ℕ) (end_phase : KePhase) (n : ℕ) (x : Expander)
    → (sized : IsSized r) → (hash : IsHash r.shake256) → x.kctx.depth + suc n ≡ dfs_logn
    → IsRoomy (suc n) (at_node r t u (suc n) x) (t * slot_bytes) (u * slot_bytes)
    → ((d q : ℕ) (a b : Bytes) (y : Expander)
        → d + n ≡ dfs_logn
        → y.kctx.depth ≡ d
        → y.kctx.ptr_offset d ≡ q
        → IsRoomy n q (t * slot_bytes) (u * slot_bytes)
        → read_bytes y.zknox.area q (8 * 2 ^ n) ≡ a
        → read_bytes y.zknox.area (q + 8 * 2 ^ n) (8 * 2 ^ n) ≡ b
        → IsSubtree r t u end_phase n d q y (ldl_tree r n a b))
    → IsSubtree r t u end_phase
        (suc n)
        x.kctx.depth
        (at_node r t u (suc n) x)
        x
        (ldl_tree r (suc n) (g0_of r t u (suc n) x) (g1_of r t u (suc n) x))
unfolding ldl_tree
walk_below r t u end_phase n x sized hash e roomy below =
    let d = x.kctx.depth in
    let p = at_node r t u (suc n) x in
    let stage = t * slot_bytes in
    let tmp = u * slot_bytes in
    let right =
      below (d + 1) p _ _ (stepped r t u end_phase n x sized hash e roomy) (omega arith) refl
        (right_at r t u end_phase n x sized hash e roomy) (right-IsRoomy n p stage tmp roomy)
        (right_first r t u end_phase n x sized hash e roomy)
        (right_second r t u end_phase n x sized hash e roomy) in
    let left =
      below (d + 1) (p + 8 * 2 ^ suc n) _ _
        (left_start r t u end_phase n x sized hash e roomy _ right) (omega arith) refl
        (right_left_at r t u end_phase n x sized hash e roomy _ right)
        (left-IsRoomy n p stage tmp roomy)
        (left_first r t u end_phase n x sized hash e roomy _ right)
        (left_second r t u end_phase n x sized hash e roomy _ right) in
    node-IsSubtree r t u end_phase n x sized hash e roomy _ right _ left

-- The walk over the subtree whose buffer holds `g0` and `g1`: its steps are as many as the tree
-- has nodes, and their records are those of the tree.
pub walk-IsSubtree :
    (r : Reference) (t u : ℕ) (end_phase : KePhase) (n d p : ℕ) (g0 g1 : Bytes) (x : Expander)
    → IsSized r
    → IsHash r.shake256
    → d + n ≡ dfs_logn
    → x.kctx.depth ≡ d
    → x.kctx.ptr_offset d ≡ p
    → IsRoomy n p (t * slot_bytes) (u * slot_bytes)
    → read_bytes x.zknox.area p (8 * 2 ^ n) ≡ g0
    → read_bytes x.zknox.area (p + 8 * 2 ^ n) (8 * 2 ^ n) ≡ g1
    → IsSubtree r t u end_phase n d p x (ldl_tree r n g0 g1)
walk-IsSubtree r t u end_phase zero d p g0 g1 x sized hash e deep at roomy h0 h1 =
    let here : at_node r t u 0 x ≡ p = ap (λ (k : ℕ). x.kctx.ptr_offset k) deep ∙ at in
    let q0 : g0_of r t u 0 x ≡ g0 = ap (λ (k : ℕ). read_bytes x.zknox.area k 8) here ∙ h0 in
    let q1 : g1_of r t u 0 x ≡ g1 = ap (λ (k : ℕ). read_bytes x.zknox.area (k + 8) 8) here ∙ h1 in
    rw (← here, ← q0, ← q1) (leaf-IsSubtree r t u end_phase d x sized hash deep (omega arith))
walk-IsSubtree r t u end_phase (suc n) d p g0 g1 x sized hash e deep at roomy h0 h1 =
    let here : at_node r t u (suc n) x ≡ p = ap (λ (k : ℕ). x.kctx.ptr_offset k) deep ∙ at in
    let q0 : g0_of r t u (suc n) x ≡ g0 =
      ap (λ (k : ℕ). read_bytes x.zknox.area k (8 * 2 ^ suc n)) here ∙ h0 in
    let q1 : g1_of r t u (suc n) x ≡ g1 =
      ap (λ (k : ℕ). read_bytes x.zknox.area (k + 8 * 2 ^ suc n) (8 * 2 ^ suc n)) here ∙ h1 in
    rw (← here, ← q0, ← q1, ← deep)
      (walk_below r t u end_phase n x sized hash (ap (λ (k : ℕ). k + suc n) deep ∙ e)
        (subst (λ (k : ℕ). IsRoomy (suc n) k (t * slot_bytes) (u * slot_bytes)) (sym here) roomy)
        (λ d q a b y. walk-IsSubtree r t u end_phase n d q a b y sized hash))
