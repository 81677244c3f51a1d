-- ===== src/Legacy/Toy.antt =====
-- A concrete reference library, key, tree and contexts, for the tests of the archived handlers.
use zknox_hw_falcon.Common.{
  ℕ, zero, suc, ◌-◌, ◌*◌, ◌^◌, ◌%◌, refl, Bytes, ◌++◌, replicate, true, length-replicate, arith,
}
use zknox_hw_falcon.LowRam.Toy.{replicate-IsBytes}
use zknox_hw_falcon.Legacy.OutsourcedLaws.{IsHash}
use zknox_hw_falcon.Legacy.State.{Reference, Globals, SignCtx, Phase, l0_right_dfs, dfs_logn}
use zknox_hw_falcon.Legacy.Level0.{zero_sctx}
use zknox_hw_falcon.Legacy.Stream.{node_bytes}
use zknox_hw_falcon.Legacy.Tree.{Tree, leaf, node, IsFull, tree_records}

-- A hash of constant bytes, and polynomials that no operation changes.
abbrev pub toy_reference : Reference
toy_reference = record {
  shake256 = λ b n. replicate n 7;
  keygen = λ logn seed tmp. (
    record {
      f = replicate 1024 1;
      g = replicate 1024 2;
      cap_f = replicate 1024 3;
      cap_g = replicate 1024 4;
      h = replicate 2048 5;
    },
    tmp,
  );
  fft = λ logn a. a;
  ifft = λ logn a. a;
  poly_neg = λ logn a. a;
  poly_add = λ logn a b. a;
  poly_sub = λ logn a b. a;
  poly_mul_fft = λ logn a b. a;
  poly_muladj_fft = λ logn a b. a;
  poly_mulselfadj_fft = λ logn a. a;
  poly_mulconst = λ logn a c. a;
  poly_split_fft = λ logn f. (replicate (8 * 2 ^ (logn - 1)) 1, replicate (8 * 2 ^ (logn - 1)) 2);
  poly_merge_fft = λ logn a b. a ++ b;
  poly_ldlmv_fft = λ logn a b c. (replicate (8 * 2 ^ logn) 3, replicate (8 * 2 ^ logn) 4);
  fpr_of = λ n. replicate 8 (n % 256);
  fpr_rint = λ b. 0;
  fpr_neg = λ x. x;
  fpr_sqr = λ x. x;
  fpr_inv = λ x. x;
  fpr_sqrt = λ x. x;
  fpr_add = λ x y. x;
  fpr_sub = λ x y. x;
  fpr_mul = λ x y. replicate 8 9;
  fpr_inverse_of_q = replicate 8 1;
  fpr_inv_sigma = replicate 8 1;
  fpr_sigma_min_10 = replicate 8 1;
  sampler = λ sc mu sigma. (sc, 1);
  prng_init = λ b. b;
  hash_to_point_vartime = λ b logn. replicate (2 ^ logn) 6;
  is_short_half = λ sqn sig logn. true;
}

pub toy-IsHash : IsHash toy_reference.shake256
toy-IsHash = record {
  bytes = λ b n. replicate-IsBytes n 7 (omega arith);
  size = λ b n. length-replicate n 7;
}

abbrev pub toy_globals : Globals
toy_globals = record {
  falcon_seed = replicate 32 0;
  falcon_f = replicate 1024 1;
  falcon_g = replicate 1024 2;
  falcon_cap_f = replicate 1024 3;
  falcon_cap_g = replicate 1024 4;
  falcon_ready = 1;
}

-- A full tree of `n` levels.
abbrev pub toy_tree : ℕ → Tree
toy_tree zero = leaf (replicate 8 11)
toy_tree (suc n) = node (replicate (node_bytes (dfs_logn - suc n)) 12) (toy_tree n) (toy_tree n)

pub toy_tree-IsFull : (n : ℕ) → IsFull n (toy_tree n)
unfolding IsFull
toy_tree-IsFull zero = (refl, replicate-IsBytes 8 11 (omega arith))
toy_tree-IsFull (suc n) = (
  length-replicate (node_bytes (dfs_logn - suc n)) 12,
  replicate-IsBytes (node_bytes (dfs_logn - suc n)) 12 (omega arith),
  toy_tree-IsFull n,
  toy_tree-IsFull n,
)

-- A context in a phase, with everything else as INIT leaves it.
abbrev pub toy_in : Phase → SignCtx
toy_in p = record zero_sctx { l0_phase = p; tree_byte_offset = 8192 }

-- The records of a full tree, from the offset behind L0.
abbrev pub toy_records : Bytes
toy_records =
    tree_records toy_reference.shake256 (toy_in l0_right_dfs).outsourced 8192 (toy_tree dfs_logn)
