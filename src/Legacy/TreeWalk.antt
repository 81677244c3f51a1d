-- ===== src/Legacy/TreeWalk.antt =====
-- The device walks the records of a tree as the recursion does
-- (legacy/src/handler/handler_falcon_sign.c, FEED_TREE_STREAM).
use zknox_hw_falcon.Common.{
  ℕ, zero, suc, ◌+◌, ◌-◌, ◌<◌, ◌≡◌, refl, sym, ap, ap₂, Bytes, ◌++◌, length, false, leb, arith, ◌∙◌,
}
use mathlib.Core.List.{append_assoc}
use zknox_hw_falcon.Legacy.Outsourced.{Outsourced}
use zknox_hw_falcon.Legacy.OutsourcedLaws.{IsHash}
use zknox_hw_falcon.Legacy.State.{Reference, SignCtx, dfs_logn, set_at}
use zknox_hw_falcon.Legacy.Dfs.{
  split_children, dfs_feed, dfs_enter, dfs_after_right, dfs_after_left, sample_leaf, dfs_bubble,
}
use zknox_hw_falcon.Legacy.Stream.{size_t, node_bytes}
use zknox_hw_falcon.Legacy.StreamBytes.{feed_bytes}
use zknox_hw_falcon.Legacy.Records.{feed_bytes-record}
use zknox_hw_falcon.Legacy.Tree.{
  Tree, leaf, node, IsFull, tree_end, tree_records, accept, enter_node, turn_left, ff_tree, resume,
  IsKept, enter_node-IsKept, turn_left-IsKept, after_left-IsKept, trans-IsKept, lower-IsKept,
}

leaf-IsKept :
    (r : Reference) (d : ℕ) (v : Bytes) (s : SignCtx)
    → IsKept d (size_t (s.tree_byte_offset + length v)) s (ff_tree r d (leaf v) s)
unfolding ff_tree sample_leaf accept
leaf-IsKept r d v s = record {
  same_above = λ j p. refl;
  same_keys = refl;
  same_phase = refl;
  offset = refl;
}

-- The walk over a tree keeps what belongs to the nodes above it, and moves the offset to its end.
pub ff_tree-IsKept :
    (r : Reference) (d : ℕ) (t : Tree) (s : SignCtx)
    → IsKept d (tree_end s.tree_byte_offset t) s (ff_tree r d t s)
unfolding ff_tree tree_end
ff_tree-IsKept r d (leaf v) s = leaf-IsKept r d v s
ff_tree-IsKept r d (node l a b) s =
    let s1 = enter_node r d l s in
    let s2 = ff_tree r (d + 1) a s1 in
    let s3 = turn_left r d s2 in
    let s4 = ff_tree r (d + 1) b s3 in
    let h1 = enter_node-IsKept r d l s in
    let h2 = ff_tree-IsKept r (d + 1) a s1 in
    let h3 = turn_left-IsKept r d s2 in
    let h4 = ff_tree-IsKept r (d + 1) b s3 in
    let h5 = after_left-IsKept r d s4 in
    let to2 = trans-IsKept d _ _ s s1 s2 h1 (lower-IsKept d _ s1 s2 h2) in
    let to3 = trans-IsKept d _ _ s s2 s3 to2 h3 in
    let to4 = trans-IsKept d _ _ s s3 s4 to3 (lower-IsKept d _ s3 s4 h4) in
    let to5 = trans-IsKept d _ _ s s4 (dfs_after_left r d s4) to4 h5 in
    let e2 : s2.tree_byte_offset ≡ tree_end (size_t (s.tree_byte_offset + length l)) a =
      rw (← h1.offset) h2.offset in
    let e4 : s4.tree_byte_offset
        ≡ tree_end (tree_end (size_t (s.tree_byte_offset + length l)) a) b =
      rw (← e2, ← h3.offset) h4.offset in
    rw (← e4) to5

feed_leaf :
    (r : Reference) (v : Bytes) (s : SignCtx)
    → s.depth ≡ dfs_logn
    → dfs_feed r v (accept r v s) ≡ dfs_bubble r dfs_logn (ff_tree r dfs_logn (leaf v) s)
unfolding dfs_feed ff_tree accept
feed_leaf r v s e = rw e refl

feed_inner :
    (r : Reference) (d : ℕ) (l : Bytes) (s : SignCtx) (rest : Bytes)
    → s.depth ≡ d
    → d < dfs_logn
    → resume r (dfs_feed r l (accept r l s)) rest ≡ feed_bytes r (enter_node r d l s) rest
unfolding dfs_feed enter_node accept resume
feed_inner r d l s rest e h =
    let inner : leb dfs_logn d ≡ false = ground arith in rw (e, inner) refl

up_right :
    (r : Reference) (d : ℕ) (s : SignCtx) (rest : Bytes)
    → s.child_phase d ≡ 0
    → resume r (dfs_bubble r (suc d) s) rest ≡ feed_bytes r (turn_left r d s) rest
unfolding dfs_bubble resume turn_left
up_right r d s rest e = rw (dfs_bubble, e) refl

up_left :
    (r : Reference) (d : ℕ) (s : SignCtx)
    → s.child_phase d ≡ 1
    → dfs_bubble r (suc d) s ≡ dfs_bubble r d (dfs_after_left r d s)
unfolding dfs_bubble
up_left r d s e = rw (dfs_bubble, e) refl

enter_node-right :
    (r : Reference) (d : ℕ) (l : Bytes) (s : SignCtx) → (enter_node r d l s).child_phase d ≡ 0
unfolding enter_node dfs_enter split_children set_at
enter_node-right r d l s = ground arith

turn_left-left : (r : Reference) (d : ℕ) (s : SignCtx) → (turn_left r d s).child_phase d ≡ 1
unfolding turn_left dfs_after_right split_children set_at
turn_left-left r d s = ground arith

enter_node-depth :
    (r : Reference) (d : ℕ) (l : Bytes) (s : SignCtx)
    → ((enter_node r d l s).depth ≡ d + 1) × ((enter_node r d l s).accum_offset ≡ 0)
unfolding enter_node
enter_node-depth r d l s = (refl, refl)

turn_left-depth :
    (r : Reference) (d : ℕ) (s : SignCtx)
    → ((turn_left r d s).depth ≡ d + 1) × ((turn_left r d s).accum_offset ≡ 0)
unfolding turn_left
turn_left-depth r d s = (refl, refl)

-- A child's records, under the keys and the offset that its parent's walk has.
child :
    (r : Reference) (d : ℕ) (t : Tree) (s : SignCtx) (rest : Bytes) (ctx : Outsourced) (off : ℕ)
    → s.outsourced ≡ ctx
    → s.tree_byte_offset ≡ off
    → (feed_bytes r s (tree_records r.shake256 s.outsourced s.tree_byte_offset t ++ rest)
        ≡ resume r (dfs_bubble r (d + 1) (ff_tree r (d + 1) t s)) rest)
    → feed_bytes r s (tree_records r.shake256 ctx off t ++ rest)
      ≡ resume r (dfs_bubble r (suc d) (ff_tree r (d + 1) t s)) rest
child r d t s rest ctx off k o h =
    let up : d + 1 ≡ suc d = omega arith in
    ap₂ (λ c (n : ℕ). feed_bytes r s (tree_records r.shake256 c n t ++ rest)) (sym k) (sym o)
    ∙ h
    ∙ ap (λ (n : ℕ). resume r (dfs_bubble r n (ff_tree r (d + 1) t s)) rest) up

-- The records of a full tree of `n` levels, from a record's beginning at the depth where such a
-- tree belongs, are all accepted, and the walk goes on with what the recursion over the tree
-- leaves.
pub feed_bytes-tree :
    (r : Reference) (n d : ℕ) (t : Tree) (s : SignCtx) (rest : Bytes)
    → IsHash r.shake256
    → IsFull n t
    → d + n ≡ dfs_logn
    → s.depth ≡ d
    → s.accum_offset ≡ 0
    → feed_bytes r s (tree_records r.shake256 s.outsourced s.tree_byte_offset t ++ rest)
      ≡ resume r (dfs_bubble r d (ff_tree r d t s)) rest
unfolding tree_records IsFull node_bytes ff_tree
feed_bytes-tree r zero d (leaf v) s rest hash full at e z =
    let d9 : d ≡ dfs_logn = omega arith in
    let s9 : s.depth ≡ dfs_logn = e ∙ d9 in
    let len : length v ≡ node_bytes s.depth = rw s9 full.0 in
    feed_bytes-record r s v rest hash full.1 len z
    ∙ ap (λ f. resume r f rest) (rw d9 (feed_leaf r v s s9))
feed_bytes-tree r zero d (node l a b) s rest hash full at e z = absurd full
feed_bytes-tree r (suc n) d (leaf v) s rest hash full at e z = absurd full
feed_bytes-tree r (suc n) d (node l a b) s rest hash full at e z =
    let where_d : dfs_logn - suc n ≡ d = omega arith in
    let len : length l ≡ node_bytes s.depth = rw (e, ← where_d) full.0 in
    let s1 = enter_node r d l s in
    let k1 = enter_node-IsKept r d l s in
    let s2 = ff_tree r (d + 1) a s1 in
    let k2 = ff_tree-IsKept r (d + 1) a s1 in
    let s3 = turn_left r d s2 in
    let k3 = turn_left-IsKept r d s2 in
    let s4 = ff_tree r (d + 1) b s3 in
    let k4 = ff_tree-IsKept r (d + 1) b s3 in
    let keys3 : s3.outsourced ≡ s.outsourced = k3.same_keys ∙ k2.same_keys ∙ k1.same_keys in
    let off3 : s3.tree_byte_offset ≡ tree_end (size_t (s.tree_byte_offset + length l)) a =
      k3.offset ∙ k2.offset ∙ ap (λ (k : ℕ). tree_end k a) k1.offset in
    let right2 : s2.child_phase d ≡ 0 = k2.same_above d (omega arith) ∙ enter_node-right r d l s in
    let left4 : s4.child_phase d ≡ 1 = k4.same_above d (omega arith) ∙ turn_left-left r d s2 in
    let rec_b =
      tree_records r.shake256 s.outsourced (tree_end (size_t (s.tree_byte_offset + length l)) a)
        b in
    let depth1 = enter_node-depth r d l s in
    let depth3 = turn_left-depth r d s2 in
    let go_right = child r d a s1 (rec_b ++ rest) s.outsourced _ k1.same_keys k1.offset (
      feed_bytes-tree r n (d + 1) a s1 (rec_b ++ rest) hash full.2 (omega arith) depth1.0
        depth1.1) in
    let go_left =
      child r d b s3 rest s.outsourced _ keys3 off3
        (feed_bytes-tree r n (d + 1) b s3 rest hash full.3 (omega arith) depth3.0 depth3.1) in
    rw (append_assoc, append_assoc)
      (feed_bytes-record r s l _ hash full.1 len z
        ∙ feed_inner r d l s _ e (omega arith)
        ∙ go_right
        ∙ up_right r d s2 _ right2
        ∙ go_left
        ∙ ap (λ f. resume r f rest) (up_left r d s4 left4))
