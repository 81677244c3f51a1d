-- ===== src/Legacy/ExpandHalves.antt =====
-- The two halves of the tree that legacy/src/handler/handler_falcon_keygen_expand.c makes.
use zknox_hw_falcon.Common.{
  ℕ, ◌+◌, ◌≡◌, refl, sym, ap, ap₂, Bytes, ◌++◌, length, arith, inl, inr, ◌∙◌,
}
use zknox_hw_falcon.Common.Memory.{
  Memory, write_bytes, read_bytes, read-write_all, read-write_disjoint, read_bytes-append,
  write_bytes-append,
}
use zknox_hw_falcon.Legacy.Outsourced.{Outsourced}
use zknox_hw_falcon.Legacy.OutsourcedLaws.{IsHash}
use zknox_hw_falcon.Legacy.Sizes.{node_count}
use zknox_hw_falcon.Legacy.State.{Reference, flogn, dfs_logn}
use zknox_hw_falcon.Legacy.Tree.{Tree, tree_end, tree_records}
use zknox_hw_falcon.Legacy.Expand.{
  ke_walk_right, ke_walk_left, ke_done, Expander, slot, prep_right_phase, prep_left_phase,
  walker_bubble,
}
use zknox_hw_falcon.Legacy.ExpandRequests.{set_phase}
use zknox_hw_falcon.Legacy.ExpandStep.{IsSized, keys_of, ldl_tree}
use zknox_hw_falcon.Legacy.ExpandLeaf.{walk}
use zknox_hw_falcon.Legacy.ExpandFrame.{IsSubtree}
use zknox_hw_falcon.Legacy.ExpandRoom.{set_at_same}
use zknox_hw_falcon.Legacy.ExpandWalk.{walk-IsSubtree}

-- The slots when the left half is moved to the third slot and the right one to the first.
module _ (m : Memory) (a0 a1 b0 b1 : Bytes) (a0_size : length a0 ≡ 4096)
    (a1_size : length a1 ≡ 4096) (b0_size : length b0 ≡ 4096) (b1_size : length b1 ≡ 4096) where
  abbrev aside : Memory
  aside = write_bytes (write_bytes m 24576 a0) 28672 a1

  abbrev placed_right : Memory
  placed_right = write_bytes (write_bytes aside 0 b0) 4096 b1

  abbrev moved : Memory
  moved = write_bytes placed_right 16384 (read_bytes aside 24576 8192)

  aside_whole : read_bytes aside 24576 8192 ≡ a0 ++ a1
  aside_whole =
      read_bytes-append aside 24576 4096 4096
      ∙ ap₂ ◌++◌
          (read-write_disjoint _ 28672 a1 24576 4096 (inl (omega arith))
            ∙ read-write_all m 24576 a0 4096 a0_size)
          (read-write_all _ 28672 a1 4096 a1_size)

  moved_whole : moved ≡ write_bytes (write_bytes placed_right 16384 a0) (16384 + length a0) a1
  moved_whole =
      ap (λ (s : Bytes). write_bytes placed_right 16384 s) aside_whole
      ∙ sym (write_bytes-append placed_right 16384 a0 a1)

  right_low : read_bytes moved 0 4096 ≡ b0
  right_low =
      read-write_disjoint placed_right 16384 _ 0 4096 (inl (omega arith))
      ∙ read-write_disjoint _ 4096 b1 0 4096 (inl (omega arith))
      ∙ read-write_all aside 0 b0 4096 b0_size

  right_high : read_bytes moved 4096 4096 ≡ b1
  right_high =
      read-write_disjoint placed_right 16384 _ 4096 4096 (inl (omega arith))
      ∙ read-write_all _ 4096 b1 4096 b1_size

  left_low : read_bytes moved 16384 4096 ≡ a0
  left_low =
      ap (λ (w : Memory). read_bytes w 16384 4096) moved_whole
      ∙ read-write_disjoint _ (16384 + length a0) a1 16384 4096 (inl (omega arith))
      ∙ read-write_all placed_right 16384 a0 4096 a0_size

  left_high : read_bytes moved 20480 4096 ≡ a1
  left_high =
      let e : 16384 + length a0 ≡ 20480 = omega arith in
      ap (λ (w : Memory). read_bytes w 20480 4096) moved_whole
      ∙ ap (λ (k : ℕ). read_bytes (write_bytes (write_bytes placed_right 16384 a0) k a1) 20480 4096)
          e
      ∙ read-write_all _ 20480 a1 4096 a1_size

-- The trees of the halves of the two diagonal elements.
abbrev pub right_tree : Reference → Expander → Tree
right_tree r x =
    let d11 = r.poly_split_fft flogn (slot 2 x.zknox.area) in ldl_tree r dfs_logn d11.0 d11.1

abbrev pub left_tree : Reference → Expander → Tree
left_tree r x =
    let d00 = r.poly_split_fft flogn (slot 0 x.zknox.area) in ldl_tree r dfs_logn d00.0 d00.1

-- The steps of PREP_RIGHT and GET_NEXT_R, and then those of PREP_LEFT and GET_NEXT_L.
abbrev pub right_steps : Reference → ℕ → Expander → Bytes × Expander
right_steps r n x = walk r 1 3 ke_walk_left n (set_phase ke_walk_right (prep_right_phase r x))

abbrev pub left_steps : Reference → ℕ → Expander → Bytes × Expander
left_steps r n x = walk r 0 1 ke_done n (prep_left_phase x)

module _ (r : Reference) (x : Expander) (sized : IsSized r) (hash : IsHash r.shake256) where
  -- The four halves have the sizes that the slots are cut into.
  first_half : (f : Bytes) → length (r.poly_split_fft flogn f).0 ≡ 4096
  first_half f = sized.half_0 flogn f (omega arith)

  second_half : (f : Bytes) → length (r.poly_split_fft flogn f).1 ≡ 4096
  second_half f = sized.half_1 flogn f (omega arith)

  pub right_walk :
      IsSubtree r 1 3 ke_walk_left dfs_logn 0 0
        (set_phase ke_walk_right (prep_right_phase r x))
        (right_tree r x)
  unfolding prep_right_phase
  right_walk =
      let m = x.zknox.area in
      walk-IsSubtree r 1 3 ke_walk_left dfs_logn 0 0 _ _
        (set_phase ke_walk_right (prep_right_phase r x)) sized hash refl refl (set_at_same _ _ _)
        (record {
          in_slot = omega arith;
          off_stage = inl (omega arith);
          off_tmp = inl (omega arith);
          stages = inl (omega arith);
        })
        (right_low m _ _ _ _ (first_half (slot 0 m)) (second_half (slot 0 m))
          (first_half (slot 2 m)) (second_half (slot 2 m)))
        (right_high m _ _ _ _ (first_half (slot 0 m)) (second_half (slot 0 m))
          (first_half (slot 2 m)) (second_half (slot 2 m)))

  abbrev pub between : Expander
  between = record {
    kctx = walker_bubble ke_walk_left 0 right_walk.kctx;
    zknox = record (x.zknox) { area = right_walk.area };
  }

  pub left_walk : IsSubtree r 0 1 ke_done dfs_logn 0 16384 (prep_left_phase between) (left_tree r x)
  unfolding prep_right_phase prep_left_phase
  left_walk =
      let m = x.zknox.area in
      walk-IsSubtree r 0 1 ke_done dfs_logn 0 16384 _ _ (prep_left_phase between) sized hash refl
        refl (set_at_same _ _ _)
        (record {
          in_slot = omega arith;
          off_stage = inr (omega arith);
          off_tmp = inr (omega arith);
          stages = inl (omega arith);
        })
        (right_walk.kept 16384 4096 (inr (omega arith)) (inr (omega arith)) (inl (omega arith))
          ∙ left_low m _ _ _ _ (first_half (slot 0 m)) (second_half (slot 0 m))
              (first_half (slot 2 m)) (second_half (slot 2 m)))
        (right_walk.kept 20480 4096 (inr (omega arith)) (inr (omega arith)) (inl (omega arith))
          ∙ left_high m _ _ _ _ (first_half (slot 0 m)) (second_half (slot 0 m))
              (first_half (slot 2 m)) (second_half (slot 2 m)))

-- From the two halved diagonal elements, the steps of the right half stage the records of its
-- tree, in the order of the walk and from the present offset on, and those of the left half stage
-- the records of its tree at the offsets that follow; the phases move on. It holds for any reference
-- library whose results have the sizes of polynomials, and a hash that gives the bytes asked for.
pub walk-tree_records :
    (r : Reference) (x : Expander)
    → IsSized r
    → IsHash r.shake256
    → let a = right_steps r (node_count dfs_logn) x in
      let b = left_steps r (node_count dfs_logn) a.1 in
      let off = x.kctx.cum_off in
      (a.0 ≡ tree_records r.shake256 (keys_of x.kctx) off (right_tree r x))
      × (b.0
          ≡ tree_records r.shake256
              (keys_of x.kctx)
              (tree_end off (right_tree r x))
              (left_tree r x))
      × (a.1.kctx.phase ≡ ke_walk_left)
      × (b.1.kctx.phase ≡ ke_done)
unfolding prep_right_phase prep_left_phase walker_bubble
walk-tree_records r x sized hash =
    let right = right_walk r x sized hash in
    let left = left_walk r x sized hash in
    let turn : (right_steps r (node_count dfs_logn) x).1 ≡ between r x sized hash =
      ap (λ (a : Bytes × Expander). a.1) right.made in
    let run : left_steps r (node_count dfs_logn) (right_steps r (node_count dfs_logn) x).1 ≡ _ =
      ap (λ (y : Expander). left_steps r (node_count dfs_logn) y) turn ∙ left.made in
    (
      ap (λ (a : Bytes × Expander). a.0) right.made,
      ap (λ (a : Bytes × Expander). a.0) run
          ∙ ap₂ (λ (k : Outsourced) (o : ℕ). tree_records r.shake256 k o (left_tree r x))
              right.walked.same_keys right.walked.offset,
      ap (λ (y : Expander). y.kctx.phase) turn,
      ap (λ (a : Bytes × Expander). a.1.kctx.phase) run,
    )
