-- ===== src/Legacy/Sizes.antt =====
-- The sizes of the wire format that legacy/src/handler/handler_falcon_sign.c documents.
use zknox_hw_falcon.Common.{
  ℕ, zero, suc, ◌+◌, ◌-◌, ◌*◌, ◌^◌, ◌<◌, ◌≡◌, refl, Bytes, ◌++◌, length, length-append, arith, ap,
  ◌∙◌,
}
use zknox_hw_falcon.Legacy.Outsourced.{
  Outsourced, cx_outsourced_write, apply_keystream, compute_tag,
}
use zknox_hw_falcon.Legacy.OutsourcedLaws.{IsHash, length-apply_keystream}
use zknox_hw_falcon.Legacy.State.{dfs_logn, node_mac_len}
use zknox_hw_falcon.Legacy.Stream.{size_t, node_bytes}
use zknox_hw_falcon.Legacy.Tree.{Tree, leaf, node, IsFull, tree_end, tree_records}

-- The bytes of the nodes of a full tree, and their number.
abbrev plain_size : ℕ → ℕ
plain_size zero = 8
plain_size (suc n) = node_bytes (dfs_logn - suc n) + 2 * plain_size n

abbrev pub node_count : ℕ → ℕ
node_count zero = 1
node_count (suc n) = 1 + 2 * node_count n

pub length-write :
    (shake256 : Bytes → ℕ → Bytes) (ctx : Outsourced) (off : ℕ) (pt : Bytes)
    → IsHash shake256
    → length (cx_outsourced_write shake256 ctx off pt) ≡ length pt + node_mac_len
unfolding cx_outsourced_write compute_tag
length-write shake256 ctx off pt hash =
    let ct = apply_keystream shake256 ctx.tree_key pt off in
    omega (
      arith,
      length-append ct (compute_tag shake256 ctx.mac_key ct off),
      length-apply_keystream shake256 ctx.tree_key pt off,
      hash.size _ _,
    )

pub records_length :
    (shake256 : Bytes → ℕ → Bytes) (ctx : Outsourced) (n off : ℕ) (t : Tree)
    → IsHash shake256
    → IsFull n t
    → length (tree_records shake256 ctx off t) ≡ plain_size n + node_mac_len * node_count n
unfolding tree_records IsFull
records_length shake256 ctx zero off (leaf v) hash full =
    omega (arith, length-write shake256 ctx off v hash)
records_length shake256 ctx zero off (node l a b) hash full = absurd full
records_length shake256 ctx (suc n) off (leaf v) hash full = absurd full
records_length shake256 ctx (suc n) off (node l a b) hash full =
    let first = size_t (off + length l) in
    let rec_a = tree_records shake256 ctx first a in
    let rec_b = tree_records shake256 ctx (tree_end first a) b in
    let whole : length (tree_records shake256 ctx off (node l a b))
        ≡ length (cx_outsourced_write shake256 ctx off l ++ rec_a ++ rec_b) =
      refl in
    omega (
      arith,
      whole,
      full.0,
      length-write shake256 ctx off l hash,
      length-append (cx_outsourced_write shake256 ctx off l ++ rec_a) rec_b,
      length-append (cx_outsourced_write shake256 ctx off l) rec_a,
      records_length shake256 ctx n first a hash full.2,
      records_length shake256 ctx n (tree_end first a) b hash full.3,
    )

records_end :
    (n off : ℕ) (t : Tree)
    → IsFull n t
    → off + plain_size n < 2 ^ 32
    → tree_end off t ≡ off + plain_size n
unfolding tree_end IsFull
records_end zero off (leaf v) full small = omega arith
records_end zero off (node l a b) full small = absurd full
records_end (suc n) off (leaf v) full small = absurd full
records_end (suc n) off (node l a b) full small =
    let first : size_t (off + length l) ≡ off + length l = omega arith in
    let end_a = records_end n (off + length l) a full.2 (omega arith) in
    let end_b = records_end n (off + length l + plain_size n) b full.3 (omega arith) in
    ap (λ (k : ℕ). tree_end (tree_end k a) b) first
    ∙ ap (λ (k : ℕ). tree_end k b) end_a
    ∙ end_b
    ∙ omega arith

-- The records of half of the tree take 57328 bytes, 1023 tags included, and the offset moves on
-- by its 40960 plaintext bytes: from 8192 to 49152 and from there to 90112.
pub half_sizes :
    (shake256 : Bytes → ℕ → Bytes) (ctx : Outsourced) (off : ℕ) (t : Tree)
    → IsHash shake256
    → IsFull dfs_logn t
    → off < 2 ^ 32 - 40960
    → (length (tree_records shake256 ctx off t) ≡ 57328) × (tree_end off t ≡ off + 40960)
unfolding node_bytes
half_sizes shake256 ctx off t hash full small = (
  records_length shake256 ctx dfs_logn off t hash full,
  records_end dfs_logn off t full (omega arith),
)
