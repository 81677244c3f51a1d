-- ===== src/Legacy/ExpandNode.antt =====
-- The walk of legacy/src/handler/handler_falcon_keygen_expand.c over one node: its step, its right
-- subtree, the turn, and its left subtree.
use native.Mathlib.Nat.{pow-suc, one-le-pow}
use zknox_hw_falcon.Common.{
  ℕ, zero, suc, inl, ◌<◌, ◌+◌, ◌*◌, ◌^◌, ◌≤◌, ◌≡◌, refl, sym, ap, ap₂, Bytes, ◌++◌, length, arith,
  inr, ◌∙◌,
}
use zknox_hw_falcon.Common.Memory.{Memory, read_bytes}
use zknox_hw_falcon.Legacy.Outsourced.{Outsourced}
use zknox_hw_falcon.Legacy.OutsourcedLaws.{IsHash}
use zknox_hw_falcon.Legacy.State.{Reference, dfs_logn}
use zknox_hw_falcon.Legacy.Stream.{size_t}
use zknox_hw_falcon.Legacy.Tree.{Tree, node, tree_end, tree_records}
use zknox_hw_falcon.Legacy.Sizes.{node_count}
use zknox_hw_falcon.Legacy.Expand.{KePhase, Kctx, Expander, slot_bytes, walker_bubble}
use zknox_hw_falcon.Legacy.Stage.{
  IsApart, IsPlaced, emitted_keeps, splits_keep, right_0, right_1, left_0, left_1,
}
use zknox_hw_falcon.Legacy.ExpandStep.{
  IsSized, keys_of, staged, at_node, g0_of, ldl_of, inner_area, inner_kctx, inner_polys-IsStep,
  walker_inner_lem,
}
use zknox_hw_falcon.Legacy.ExpandLeaf.{walk, walk-add, IsWalked}
use zknox_hw_falcon.Legacy.ExpandFrame.{
  IsSubtree, step_inner, inner_staged, turned, bubble_right, bubble_left, trans-IsWalked,
  lower-IsWalked, inner-IsWalked, turned-IsWalked,
}
use zknox_hw_falcon.Legacy.ExpandRoom.{
  walk_node, IsRoomy, roomy-IsPlaced, set_at_same, set_at_below, le-or-more,
}

module _ (r : Reference) (t u : ℕ) (end_phase : KePhase) (n : ℕ) (x : Expander) (sized : IsSized r)
    (hash : IsHash r.shake256) (bottom : x.kctx.depth + suc n ≡ dfs_logn)
    (roomy : IsRoomy (suc n) (at_node r t u (suc n) x) (t * slot_bytes) (u * slot_bytes)) where
  abbrev pub p_of : ℕ
  p_of = at_node r t u (suc n) x

  -- The halves of the children's buffers.
  abbrev pub a_of : Bytes × Bytes
  a_of = r.poly_split_fft (suc n) (g0_of r t u (suc n) x)

  abbrev pub b_of : Bytes × Bytes
  b_of = r.poly_split_fft (suc n) (ldl_of r t u (suc n) x).0

  -- After the step.
  abbrev pub stepped : Expander
  stepped = record {
    kctx = inner_kctx r t u (suc n) x;
    zknox = record (x.zknox) { area = inner_area r t u (suc n) x };
  }

  -- After the turn.
  abbrev pub turned_to : Kctx → Memory → Expander
  turned_to k m = record {
    kctx = turned x.kctx.depth (p_of + 8 * 2 ^ suc n) k;
    zknox = record (x.zknox) { area = m };
  }

  inner : 1 ≤ suc n
  inner = omega arith

  placed : IsPlaced (2 ^ suc n) p_of (t * slot_bytes) (u * slot_bytes)
  placed =
      roomy-IsPlaced (suc n) p_of (t * slot_bytes) (u * slot_bytes) roomy
        (let a = pow-suc 2 n in let b = one-le-pow n 2 in omega arith)

  pub right_at : stepped.kctx.ptr_offset (x.kctx.depth + 1) ≡ p_of
  right_at = set_at_same _ _ _

  half : 4 * 2 ^ suc n ≡ 8 * 2 ^ n
  half = let a = pow-suc 2 n in omega arith

  pub right_first : read_bytes stepped.zknox.area p_of (8 * 2 ^ n) ≡ b_of.0
  right_first =
      ap (λ (k : ℕ). read_bytes stepped.zknox.area p_of k) (sym half)
      ∙ right_0 x.zknox.area (2 ^ suc n) p_of (t * slot_bytes) (u * slot_bytes) _ _ _ _ _ _ _ _
          (inner_polys-IsStep r t u (suc n) x sized hash inner) placed

  pub right_second : read_bytes stepped.zknox.area (p_of + 8 * 2 ^ n) (8 * 2 ^ n) ≡ b_of.1
  right_second =
      ap (λ (k : ℕ). read_bytes stepped.zknox.area (p_of + k) k) (sym half)
      ∙ right_1 x.zknox.area (2 ^ suc n) p_of (t * slot_bytes) (u * slot_bytes) _ _ _ _ _ _ _ _
          (inner_polys-IsStep r t u (suc n) x sized hash inner) placed

  module _ (tree : Tree)
      (right : IsSubtree r t u end_phase n (x.kctx.depth + 1) p_of stepped tree) where
    abbrev pub left_start : Expander
    left_start = turned_to right.kctx right.area

    pub right_left_at : left_start.kctx.ptr_offset (x.kctx.depth + 1) ≡ p_of + 8 * 2 ^ suc n
    right_left_at = set_at_same _ _ _

    right_keeps :
        (k : ℕ)
        → k + 8 * 2 ^ n ≤ 8 * 2 ^ suc n
        → read_bytes right.area (p_of + 8 * 2 ^ suc n + k) (8 * 2 ^ n)
          ≡ read_bytes stepped.zknox.area (p_of + 8 * 2 ^ suc n + k) (8 * 2 ^ n)
    right_keeps k h =
        let e = pow-suc 2 n in
        let a = roomy.off_stage in
        let b = roomy.off_tmp in
        right.kept (p_of + 8 * 2 ^ suc n + k) (8 * 2 ^ n) (inr (omega arith)) (ground arith)
          (ground arith)

    pub left_first : read_bytes right.area (p_of + 8 * 2 ^ suc n) (8 * 2 ^ n) ≡ a_of.0
    left_first =
        let z : p_of + 8 * 2 ^ suc n + 0 ≡ p_of + 8 * 2 ^ suc n = omega arith in
        ap (λ (k : ℕ). read_bytes right.area k (8 * 2 ^ n)) (sym z)
        ∙ right_keeps 0 (omega (arith, pow-suc 2 n))
        ∙ ap (λ (k : ℕ). read_bytes stepped.zknox.area k (8 * 2 ^ n)) z
        ∙ ap (λ (k : ℕ). read_bytes stepped.zknox.area (p_of + 8 * 2 ^ suc n) k) (sym half)
        ∙ left_0 x.zknox.area (2 ^ suc n) p_of (t * slot_bytes) (u * slot_bytes) _ _ _ _ _ _ _ _
            (inner_polys-IsStep r t u (suc n) x sized hash inner) placed

    pub left_second : read_bytes right.area (p_of + 8 * 2 ^ suc n + 8 * 2 ^ n) (8 * 2 ^ n) ≡ a_of.1
    left_second =
        right_keeps (8 * 2 ^ n) (omega (arith, pow-suc 2 n))
        ∙ ap (λ (k : ℕ). read_bytes stepped.zknox.area (p_of + 8 * 2 ^ suc n + k) k) (sym half)
        ∙ left_1 x.zknox.area (2 ^ suc n) p_of (t * slot_bytes) (u * slot_bytes) _ _ _ _ _ _ _ _
            (inner_polys-IsStep r t u (suc n) x sized hash inner) placed

    -- The turn from the right subtree to the left one.
    turn :
        record {
          kctx = walker_bubble end_phase (x.kctx.depth + 1) right.kctx;
          zknox = record (stepped.zknox) { area = right.area };
        }
        ≡ left_start
    turn =
        ap (λ (k : Kctx). record { kctx = k; zknox = record (x.zknox) { area = right.area } })
          (bubble_right end_phase x.kctx.depth (suc n) p_of right.kctx bottom
            (right.walked.same_above x.kctx.depth (omega arith) ∙ set_at_same _ _ _)
            (right.walked.same_ptr x.kctx.depth (omega arith) ∙ set_at_below _ _ _ _ (omega arith)))

    module _ (lower : Tree)
        (left : IsSubtree r t u end_phase n
          (x.kctx.depth + 1)
          (p_of + 8 * 2 ^ suc n)
          left_start
          lower) where
      abbrev label : Bytes
      label = (ldl_of r t u (suc n) x).1

      next_offset : stepped.kctx.cum_off ≡ size_t (x.kctx.cum_off + length label)
      next_offset = ap (λ (k : ℕ). size_t (x.kctx.cum_off + k)) (sym (sized.l10_size (suc n) _ _ _))

      left_offset : left_start.kctx.cum_off ≡ tree_end (size_t (x.kctx.cum_off + length label)) tree
      left_offset = right.walked.offset ∙ ap (λ (o : ℕ). tree_end o tree) next_offset

      node_records :
          staged t stepped
            ++ tree_records r.shake256 (keys_of stepped.kctx) stepped.kctx.cum_off tree
            ++ tree_records r.shake256 (keys_of left_start.kctx) left_start.kctx.cum_off lower
          ≡ tree_records r.shake256 (keys_of x.kctx) x.kctx.cum_off (node label tree lower)
      unfolding tree_records
      node_records =
          ap₂ (λ (a b : Bytes). a ++ b)
            (ap₂ (λ (a b : Bytes). a ++ b) (inner_staged r t u (suc n) x sized hash inner placed)
              (ap (λ (o : ℕ). tree_records r.shake256 (keys_of x.kctx) o tree) next_offset))
            (ap₂ (λ (k : Outsourced) (o : ℕ). tree_records r.shake256 k o lower)
              right.walked.same_keys left_offset)

      node-IsWalked :
          IsWalked x.kctx.depth (tree_end x.kctx.cum_off (node label tree lower)) x.kctx left.kctx
      unfolding tree_end
      node-IsWalked =
          let d = x.kctx.depth in
          let all = trans-IsWalked d _ _ _ _ _ (inner-IsWalked r t u (suc n) d x refl) (
            trans-IsWalked d _ _ _ _ _ (lower-IsWalked d _ _ _ right.walked) (
              trans-IsWalked d _ _ _ _ _ (turned-IsWalked d (p_of + 8 * 2 ^ suc n) right.kctx)
                (lower-IsWalked d _ _ _ left.walked))) in
          record {
            same_above = all.same_above;
            same_ptr = all.same_ptr;
            same_keys = all.same_keys;
            same_phase = all.same_phase;
            offset = all.offset ∙ ap (λ (o : ℕ). tree_end o lower) left_offset;
          }

      node_kept :
          (at len : ℕ)
          → IsApart at len p_of (16 * 2 ^ suc n)
          → IsApart at len (t * slot_bytes) 8192
          → IsApart at len (u * slot_bytes) 8192
          → read_bytes left.area at len ≡ read_bytes x.zknox.area at len
      node_kept at len a b c =
          let e = pow-suc 2 n in
          let steps = inner_polys-IsStep r t u (suc n) x sized hash inner in
          left.kept at len (ground arith) b c
          ∙ right.kept at len (ground arith) b c
          ∙ splits_keep x.zknox.area (2 ^ suc n) p_of (t * slot_bytes) (u * slot_bytes) _ _ _ _ _ _
              _ _ steps placed at len (ground arith)
          ∙ emitted_keeps x.zknox.area (2 ^ suc n) p_of (t * slot_bytes) (u * slot_bytes) _ _ _ _ _
              _ _ _ steps placed at len b c

      -- The phase does not change before the last step is done.
      node_inside :
          (j : ℕ)
          → j < 1 + 2 * node_count n
          → (walk r t u end_phase j x).1.kctx.phase ≡ x.kctx.phase
      unfolding walk
      node_inside zero h = refl
      node_inside (suc j) h =
          let c = node_count n in
          let first =
            step_inner r t u end_phase n x bottom
            ∙ walker_inner_lem r t u (suc n) x sized hash inner placed in
          ap (λ (y : Expander). (walk r t u end_phase j y).1.kctx.phase) first
          ∙ elim (le-or-more c j) [
            | inl more ↦ right.inside j more
            | inr (k, e) ↦
                ap (λ (i : ℕ). (walk r t u end_phase i stepped).1.kctx.phase) e
                ∙ ap (λ (a : Bytes × Expander). a.1.kctx.phase)
                    (walk-add r t u end_phase c k stepped)
                ∙ ap (λ (a : Bytes × Expander). (walk r t u end_phase k a.1).1.kctx.phase)
                    right.made
                ∙ ap (λ (y : Expander). (walk r t u end_phase k y).1.kctx.phase) turn
                ∙ left.inside k (omega arith)
                ∙ right.walked.same_phase
          ]

      pub node-IsSubtree :
          IsSubtree r t u end_phase (suc n) x.kctx.depth p_of x (node label tree lower)
      node-IsSubtree =
          let at_left : left.kctx.child_phase x.kctx.depth ≡ 1 =
            left.walked.same_above x.kctx.depth (omega arith) ∙ set_at_same _ _ _ in
          let first =
            step_inner r t u end_phase n x bottom
            ∙ walker_inner_lem r t u (suc n) x sized hash inner placed in
          record {
            kctx = left.kctx;
            area = left.area;
            made =
                walk_node r t u end_phase (node_count n) x stepped _ left_start _ _ _ first
                  right.made turn left.made
                ∙ ap₂
                    (λ (b : Bytes) (k : Kctx).
                      (b, record { kctx = k; zknox = record (x.zknox) { area = left.area } }))
                    node_records (bubble_left end_phase x.kctx.depth left.kctx at_left);
            walked = node-IsWalked;
            inside = node_inside;
            kept = node_kept;
          }
