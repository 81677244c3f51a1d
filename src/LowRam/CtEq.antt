-- ===== src/LowRam/CtEq.antt =====
-- The constant-time comparison of key identifiers, `falcon_lr_ct_eq32`, decides equality.
use Prim.Native.Nat.{bit_or, bit_xor}
use zknox_hw_falcon.Common.{
  ℕ, zero, suc, ◌+◌, ◌%◌, ◌^◌, ◌≤◌, ◌<◌, ◌≡◌, ◌↔◌, refl, sym, ◌∙◌, Bytes, length, get_or, true,
  ==_iff, arith, IsBytes, get_or-IsBytes, get_or_ext,
}
use native.Mathlib.Decide.{dec_lt}
use zknox_hw_falcon.Common.Bits.{bit_xor-eq-zero, bit_xor_self, bit_xor-lt, bit_or-eq-zero}
use zknox_hw_falcon.LowRam.Seed.{ct_diff, falcon_lr_ct_eq32}

same_byte : (x y : ℕ) → x < 256 → y < 256 → bit_xor x y % 2 ^ 8 ≡ 0 → x ≡ y
same_byte x y hx hy h = bit_xor-eq-zero x y (omega (arith, bit_xor-lt x y 8 hx hy))

pub ct_diff-zero :
    (n i d : ℕ) (a b : Bytes)
    → IsBytes a
    → IsBytes b
    → ct_diff n i d a b ≡ 0
    → (d ≡ 0) × ((j : ℕ) → i ≤ j → j < i + n → get_or a j 0 ≡ get_or b j 0)
unfolding ct_diff
ct_diff-zero zero i d a b ha hb h = (h, λ j p q. absurd (omega arith))
ct_diff-zero (suc n) i d a b ha hb h =
    let r =
      ct_diff-zero n (i + 1) (bit_or d (bit_xor (get_or a i 0) (get_or b i 0) % 2 ^ 8)) a b ha hb
        h in
    let z = bit_or-eq-zero d (bit_xor (get_or a i 0) (get_or b i 0) % 2 ^ 8) r.0 in
    (
      z.0,
      λ j p q. elim (dec_lt i j) [
        | yes later ↦ r.1 j (omega arith) (omega arith)
        | no now ↦
            let e : j ≡ i = omega arith in
            rw e (
              same_byte (get_or a i 0) (get_or b i 0) (get_or-IsBytes a i ha)
                (get_or-IsBytes b i hb) z.1)
      ],
    )

pub ct_diff_self : (n i : ℕ) (a : Bytes) → ct_diff n i 0 a a ≡ 0
unfolding ct_diff
ct_diff_self zero i a = refl
ct_diff_self (suc n) i a = rw (bit_xor_self (get_or a i 0)) (ct_diff_self n (i + 1) a)

-- On identifiers of 32 bytes the comparison is true exactly when they are equal.
pub falcon_lr_ct_eq32_iff :
    (a b : Bytes)
    → IsBytes a
    → IsBytes b
    → length a ≡ 32
    → length b ≡ 32
    → (falcon_lr_ct_eq32 a b ≡ true) ↔ (a ≡ b)
unfolding falcon_lr_ct_eq32
falcon_lr_ct_eq32_iff a b ha hb la lb = (
  λ h.
      let same = ct_diff-zero 32 0 0 a b ha hb ((==_iff (ct_diff 32 0 0 a b) 0).0 h) in
      get_or_ext a b (la ∙ sym lb) (λ i p. same.1 i (omega arith) (omega arith)),
  λ e. (==_iff (ct_diff 32 0 0 a b) 0).1 (rw e (ct_diff_self 32 0 b)),
)

pub falcon_lr_ct_eq32_self : (a : Bytes) → falcon_lr_ct_eq32 a a ≡ true
unfolding falcon_lr_ct_eq32
falcon_lr_ct_eq32_self a = (==_iff (ct_diff 32 0 0 a a) 0).1 (ct_diff_self 32 0 a)
