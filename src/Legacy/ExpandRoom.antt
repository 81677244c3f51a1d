-- ===== src/Legacy/ExpandRoom.antt =====
-- The walk of legacy/src/handler/handler_falcon_keygen_expand.c over one node: where its buffer
-- lies, and the parts of its run.
use native.Mathlib.Nat.{pow-suc}
use mathlib.Core.List.{append_assoc}
use zknox_hw_falcon.Common.{
  ltb, Bool-cases, ◌-◌, ◌⊎◌, inl, inr, ℕ, suc, ◌+◌, ◌*◌, ◌^◌, ◌≤◌, ◌<◌, ◌≡◌, refl, Bytes, ◌++◌,
  arith,
}
use zknox_hw_falcon.Common.Memory.{Memory}
use zknox_hw_falcon.Legacy.State.{Reference, set_at}
use zknox_hw_falcon.Legacy.Expand.{KePhase, Expander, walker_step}
use zknox_hw_falcon.Legacy.Stage.{IsApart, IsPlaced}
use zknox_hw_falcon.Legacy.ExpandStep.{staged}
use zknox_hw_falcon.Legacy.ExpandLeaf.{walk, walk-add}

-- A node: its step, the walk over its right child, the turn, and the walk over its left child.
pub walk_node :
    (r : Reference) (t u : ℕ) (end_phase : KePhase) (c : ℕ) (x x1 y1 x2 y2 : Expander)
    (ra rb : Bytes)
    → walker_step r t u end_phase x ≡ x1
    → walk r t u end_phase c x1 ≡ (ra, y1)
    → y1 ≡ x2
    → walk r t u end_phase c x2 ≡ (rb, y2)
    → walk r t u end_phase (1 + 2 * c) x ≡ (staged t x1 ++ ra ++ rb, y2)
unfolding walk
walk_node r t u end_phase c x x1 y1 x2 y2 ra rb step right turn left =
    let e : 1 + 2 * c ≡ suc (c + c) = omega arith in
    rw (e, walk, step, walk-add r t u end_phase c c x1, right, turn, left, append_assoc) refl

-- Where a subtree's buffer lies.
pub record IsRoomy (n p stage tmp : ℕ) : Type 0 where
  pub in_slot : 16 * 2 ^ n ≤ 8192
  pub off_stage : IsApart p (16 * 2 ^ n) stage 8192
  pub off_tmp : IsApart p (16 * 2 ^ n) tmp 8192
  pub stages : IsApart stage 8192 tmp 8192

pub roomy-IsPlaced :
    (n p stage tmp : ℕ) → IsRoomy n p stage tmp → 32 ≤ 16 * 2 ^ n → IsPlaced (2 ^ n) p stage tmp
roomy-IsPlaced n p stage tmp h big = record {
  fits = let q = h.in_slot in omega arith;
  off_stage = h.off_stage;
  off_tmp = h.off_tmp;
  stages = h.stages;
}

pub right-IsRoomy : (n p stage tmp : ℕ) → IsRoomy (suc n) p stage tmp → IsRoomy n p stage tmp
right-IsRoomy n p stage tmp h =
    let e = pow-suc 2 n in
    let q = h.in_slot in
    record {
      in_slot = omega arith;
      off_stage = let a = h.off_stage in ground arith;
      off_tmp = let a = h.off_tmp in ground arith;
      stages = h.stages;
    }

pub left-IsRoomy :
    (n p stage tmp : ℕ) → IsRoomy (suc n) p stage tmp → IsRoomy n (p + 8 * 2 ^ suc n) stage tmp
left-IsRoomy n p stage tmp h =
    let e = pow-suc 2 n in
    let q = h.in_slot in
    record {
      in_slot = omega arith;
      off_stage = let a = h.off_stage in ground arith;
      off_tmp = let a = h.off_tmp in ground arith;
      stages = h.stages;
    }

pub set_at_same : (a : Memory) (i v : ℕ) → set_at a i v i ≡ v
unfolding set_at
set_at_same a i v = ground arith

pub set_at_below : (a : Memory) (i v j : ℕ) → j < i → set_at a i v j ≡ a j
unfolding set_at
set_at_below a i v j h = ground arith

pub le-or-more : (c j : ℕ) → (j < c) ⊎ ((k : ℕ) × (j ≡ c + k))
le-or-more c j = elim (Bool-cases (ltb j c)) [
  | inl e ↦ inl (ground arith)
  | inr e ↦ inr (j - c, ground arith)
]
