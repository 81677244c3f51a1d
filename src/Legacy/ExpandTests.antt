-- ===== src/Legacy/ExpandTests.antt =====
-- The theorems about legacy/src/handler/handler_falcon_keygen_expand.c at concrete inputs.
use native.Mathlib.Nat.{pow-suc}
use zknox_hw_falcon.Common.{
  ℕ, zero, suc, ◌-◌, ◌*◌, ◌^◌, ◌≤◌, ◌<◌, ◌≡◌, refl, ap, Bytes, [], length, replicate,
  length-replicate, arith, inl, inr, ◌∙◌,
}
use zknox_hw_falcon.LowRam.Toy.{replicate-IsBytes}
use zknox_hw_falcon.Legacy.State.{SignCtx, l0_right_dfs, l0_left_dfs, dfs_logn}
use zknox_hw_falcon.Legacy.Level0.{zero_sctx}
use zknox_hw_falcon.Legacy.Tree.{tree_end, tree_records}
use zknox_hw_falcon.Legacy.Sizes.{node_count, records_length}
use zknox_hw_falcon.Legacy.Expand.{
  ke_idle, ke_l0_staged, ke_walk_left, ke_done, Expander, compute_l0_phase,
}
use zknox_hw_falcon.Legacy.ExpandStep.{IsSized, keys_of, ldl_tree}
use zknox_hw_falcon.Legacy.Half.{request_of}
use zknox_hw_falcon.Legacy.ExpandRequests.{set_phase, prep_right}
use zknox_hw_falcon.Legacy.ExpandChunks.{get_many}
use zknox_hw_falcon.Legacy.ExpandDelivered.{get_next_r-tree_records}
use zknox_hw_falcon.Legacy.ExpandHalves.{
  right_tree, left_tree, right_steps, left_steps, walk-tree_records,
}
use zknox_hw_falcon.Legacy.Accepts.{IsByteValued, IsAccepted, ldl_tree-IsFull, walk-feed_requests}
use zknox_hw_falcon.Legacy.Toy.{toy_reference, toy-IsHash, toy_globals}

half_size : (n b : ℕ) → 1 ≤ n → length (replicate (8 * 2 ^ (n - 1)) b) ≡ 4 * 2 ^ n
half_size zero b h = absurd (omega arith)
half_size (suc n) b h =
    let e : suc n - 1 ≡ n = omega arith in
    let p = pow-suc 2 n in length-replicate (8 * 2 ^ (suc n - 1)) b ∙ rw e (omega arith)

toy-IsSized : IsSized toy_reference
toy-IsSized = record {
  d11_size = λ n a b c. length-replicate (8 * 2 ^ n) 3;
  l10_size = λ n a b c. length-replicate (8 * 2 ^ n) 4;
  half_0 = λ n f h. half_size n 1 h;
  half_1 = λ n f h. half_size n 2 h;
  fpr_size = λ a b. length-replicate {A = ℕ} 8 9;
}

toy-IsByteValued : IsByteValued toy_reference
toy-IsByteValued = record {
  l10_bytes = λ n a b c. replicate-IsBytes (8 * 2 ^ n) 4 (omega arith);
  fpr_bytes = λ a b. replicate-IsBytes 8 9 (omega arith);
}

-- The expansion of a key, from a memory of zeros.
abbrev toy_expander : Expander
toy_expander = compute_l0_phase toy_reference (record {
  kctx = record {
    phase = ke_idle;
    depth = 0;
    child_phase = λ _. 0;
    ptr_offset = λ _. 0;
    cum_off = 0;
    node_shipped = 0;
    node_len = 0;
    tree_key = [];
    mac_key = [];
    l0_tag = [];
  };
  zknox = record { keys = toy_globals; area = λ _. 0 };
})

abbrev toy_off : ℕ
toy_off = toy_expander.kctx.cum_off

walk-tree_records_example :
    let a = right_steps toy_reference (node_count dfs_logn) toy_expander in
    let b = left_steps toy_reference (node_count dfs_logn) a.1 in
    let keys = keys_of toy_expander.kctx in
    let right = right_tree toy_reference toy_expander in
    (a.0 ≡ tree_records toy_reference.shake256 keys toy_off right)
    × (b.0
        ≡ tree_records toy_reference.shake256 keys
            (tree_end toy_off right)
            (left_tree toy_reference toy_expander))
    × (a.1.kctx.phase ≡ ke_walk_left)
    × (b.1.kctx.phase ≡ ke_done)
walk-tree_records_example = walk-tree_records toy_reference toy_expander toy-IsSized toy-IsHash

abbrev toy_right : Bytes
toy_right = (right_steps toy_reference (node_count dfs_logn) toy_expander).0

abbrev toy_left : Bytes
toy_left =
    (left_steps toy_reference (node_count dfs_logn)
      (right_steps toy_reference (node_count dfs_logn) toy_expander).1).0

-- A half is not empty.
half_nonempty :
    (off : ℕ) (a b xs : Bytes)
    → xs
      ≡ tree_records toy_reference.shake256
          (keys_of toy_expander.kctx)
          off
          (ldl_tree toy_reference dfs_logn a b)
    → 0 < length xs
half_nonempty off a b xs e =
    let size =
      records_length toy_reference.shake256 (keys_of toy_expander.kctx) dfs_logn off
        (ldl_tree toy_reference dfs_logn a b) toy-IsHash
        (ldl_tree-IsFull toy_reference dfs_logn a b toy-IsSized toy-IsByteValued (omega arith)) in
    let same : length xs ≡ _ = ap length e in omega (arith, size, same)

-- Sessions at the start of either half.
abbrev toy_first : SignCtx
toy_first = record zero_sctx {
  l0_phase = l0_right_dfs;
  outsourced = keys_of toy_expander.kctx;
  tree_byte_offset = toy_off;
}

abbrev toy_second : SignCtx
toy_second = record toy_first {
  l0_phase = l0_left_dfs;
  tree_byte_offset = tree_end toy_off (right_tree toy_reference toy_expander);
}

walk-feed_requests_example :
    IsAccepted toy_reference (right_tree toy_reference toy_expander) toy_right [] toy_first
    × IsAccepted toy_reference (left_tree toy_reference toy_expander) toy_left [] toy_second
unfolding zero_sctx
walk-feed_requests_example =
    let made = walk-tree_records toy_reference toy_expander toy-IsSized toy-IsHash in
    walk-feed_requests toy_reference toy_expander toy_first toy_second toy_right toy_left [] []
      toy-IsSized toy-IsByteValued toy-IsHash
      (record {
        walking = inl refl;
        top = refl;
        begins = refl;
        same_keys = refl;
        same_offset = refl;
      })
      (record {
        walking = inr refl;
        top = refl;
        begins = refl;
        same_keys = refl;
        same_offset = refl;
      })
      (half_nonempty _ _ _ _ made.0) (half_nonempty _ _ _ _ made.1) refl refl

-- The same key, with the top level staged.
abbrev toy_staged : Expander
toy_staged = set_phase ke_l0_staged toy_expander

get_next_r-tree_records_example :
    (n : ℕ) × (let got =
        get_many toy_reference n (prep_right toy_reference (request_of []) 0 toy_staged).0 in
      (got.0
        ≡ tree_records toy_reference.shake256
            (keys_of toy_staged.kctx)
            toy_staged.kctx.cum_off
            (right_tree toy_reference toy_staged))
      × (got.1.kctx.phase ≡ ke_walk_left))
get_next_r-tree_records_example =
    get_next_r-tree_records toy_reference toy_staged toy-IsSized toy-IsHash refl
