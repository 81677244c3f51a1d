-- ===== src/Legacy/Stage.antt =====
-- The memory of one inner step of the walk in legacy/src/handler/handler_falcon_keygen_expand.c:
-- eight writes, and what is read back.
use zknox_hw_falcon.Common.{ℕ, ◌+◌, ◌*◌, ◌≤◌, ◌≡◌, ◌⊎◌, ap₂, Bytes, ◌++◌, length, arith, ◌∙◌}
use zknox_hw_falcon.Common.Memory.{
  Memory, write_bytes, read_bytes, read-write_all, read-write_disjoint, read_bytes-append,
}

-- Two ranges do not meet.
abbrev pub IsApart : ℕ → ℕ → ℕ → ℕ → Type 0
IsApart a n b k = (a + n ≤ b) ⊎ (b + k ≤ a)

-- The polynomials of a step at a node of `n` values.
pub record IsStep (n : ℕ) (d11 l10 ct tag a0 a1 b0 b1 : Bytes) : Type 0 where
  pub d11_size : length d11 ≡ 8 * n
  pub l10_size : length l10 ≡ 8 * n
  pub ct_size : length ct ≡ 8 * n
  pub tag_size : length tag ≡ 16
  pub a0_size : length a0 ≡ 4 * n
  pub a1_size : length a1 ≡ 4 * n
  pub b0_size : length b0 ≡ 4 * n
  pub b1_size : length b1 ≡ 4 * n

-- The buffer at `p` and the two stages, of which each has a slot of its own.
pub record IsPlaced (n p stage tmp : ℕ) : Type 0 where
  pub fits : 8 * n + 16 ≤ 8192
  pub off_stage : IsApart p (16 * n) stage 8192
  pub off_tmp : IsApart p (16 * n) tmp 8192
  pub stages : IsApart stage 8192 tmp 8192

module _ (m : Memory) (n p stage tmp : ℕ) (d11 l10 ct tag a0 a1 b0 b1 : Bytes) where
  -- After the node is emitted.
  abbrev pub emitted : Memory
  emitted =
      write_bytes (write_bytes (write_bytes (write_bytes m tmp d11) stage l10) stage ct)
        (stage + 8 * n) tag

  -- After the left half is split, and after the right one.
  abbrev pub left_split : Memory
  left_split = write_bytes (write_bytes emitted (p + 8 * n) a0) (p + 8 * n + 4 * n) a1

  abbrev pub both_split : Memory
  both_split = write_bytes (write_bytes left_split p b0) (p + 4 * n) b1

  module _ (sizes : IsStep n d11 l10 ct tag a0 a1 b0 b1) (placed : IsPlaced n p stage tmp) where
    -- What the emission does not touch.
    pub emitted_keeps :
        (at len : ℕ)
        → IsApart at len stage 8192
        → IsApart at len tmp 8192
        → read_bytes emitted at len ≡ read_bytes m at len
    emitted_keeps at len s t =
        read-write_disjoint _ (stage + 8 * n) tag at len (ground arith)
        ∙ read-write_disjoint _ stage ct at len (ground arith)
        ∙ read-write_disjoint _ stage l10 at len (ground arith)
        ∙ read-write_disjoint m tmp d11 at len (ground arith)

    -- The two splits write inside the buffer only.
    pub splits_keep :
        (at len : ℕ)
        → IsApart at len p (16 * n)
        → read_bytes both_split at len ≡ read_bytes emitted at len
    splits_keep at len s =
        read-write_disjoint _ (p + 4 * n) b1 at len (ground arith)
        ∙ read-write_disjoint _ p b0 at len (ground arith)
        ∙ read-write_disjoint _ (p + 8 * n + 4 * n) a1 at len (ground arith)
        ∙ read-write_disjoint _ (p + 8 * n) a0 at len (ground arith)

    -- `d11` is still in its stage when the right half is split.
    pub left_split-tmp : read_bytes left_split tmp (8 * n) ≡ d11
    left_split-tmp =
        read-write_disjoint _ (p + 8 * n + 4 * n) a1 tmp (8 * n) (ground arith)
        ∙ read-write_disjoint _ (p + 8 * n) a0 tmp (8 * n) (ground arith)
        ∙ read-write_disjoint _ (stage + 8 * n) tag tmp (8 * n) (ground arith)
        ∙ read-write_disjoint _ stage ct tmp (8 * n) (ground arith)
        ∙ read-write_disjoint _ stage l10 tmp (8 * n) (ground arith)
        ∙ read-write_all m tmp d11 (8 * n) sizes.d11_size

    -- The record is staged whole.
    pub staged_record : read_bytes both_split stage (8 * n + 16) ≡ ct ++ tag
    staged_record =
        splits_keep stage (8 * n + 16) (ground arith)
        ∙ read_bytes-append emitted stage (8 * n) 16
        ∙ ap₂ ◌++◌
            (read-write_disjoint _ (stage + 8 * n) tag stage (8 * n) (ground arith)
              ∙ read-write_all _ stage ct (8 * n) sizes.ct_size)
            (read-write_all _ (stage + 8 * n) tag 16 sizes.tag_size)

    -- The halves of the children.
    pub right_0 : read_bytes both_split p (4 * n) ≡ b0
    right_0 =
        read-write_disjoint _ (p + 4 * n) b1 p (4 * n) (ground arith)
        ∙ read-write_all _ p b0 (4 * n) sizes.b0_size

    pub right_1 : read_bytes both_split (p + 4 * n) (4 * n) ≡ b1
    right_1 = read-write_all _ (p + 4 * n) b1 (4 * n) sizes.b1_size

    pub left_0 : read_bytes both_split (p + 8 * n) (4 * n) ≡ a0
    left_0 =
        read-write_disjoint _ (p + 4 * n) b1 (p + 8 * n) (4 * n) (ground arith)
        ∙ read-write_disjoint _ p b0 (p + 8 * n) (4 * n) (ground arith)
        ∙ read-write_disjoint _ (p + 8 * n + 4 * n) a1 (p + 8 * n) (4 * n) (ground arith)
        ∙ read-write_all _ (p + 8 * n) a0 (4 * n) sizes.a0_size

    pub left_1 : read_bytes both_split (p + 8 * n + 4 * n) (4 * n) ≡ a1
    left_1 =
        read-write_disjoint _ (p + 4 * n) b1 (p + 8 * n + 4 * n) (4 * n) (ground arith)
        ∙ read-write_disjoint _ p b0 (p + 8 * n + 4 * n) (4 * n) (ground arith)
        ∙ read-write_all _ (p + 8 * n + 4 * n) a1 (4 * n) sizes.a1_size
