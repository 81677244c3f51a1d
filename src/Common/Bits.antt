-- ===== src/Common/Bits.antt =====
-- `bit_or` and `bit_xor` at zero, from the digit recursion that they stand for.
use Prim.Native.Nat.{
  ℕ, zero, suc, ◌*◌, ◌+◌, ◌/◌, ◌%◌, ◌^◌, ◌≤◌, ◌<◌, max, bit_or, bit_xor, digits, differ,
  bit_or-bitwise, bit_xor-bitwise,
}
use native.Mathlib.Nat.{pow-suc, le_refl}
use mathlib.Core.Path.{◌≡◌, refl, ◌∙◌, sym}
use native.Mathlib.Omega.{arith}

differ-eq-zero : (x y : ℕ) → differ x y ≡ 0 → x ≡ y
differ-eq-zero zero y h = omega arith
differ-eq-zero (suc x) zero h = absurd (omega arith)
differ-eq-zero (suc x) (suc y) h = omega (arith, differ-eq-zero x y h)

differ_self : (x : ℕ) → differ x x ≡ 0
differ_self zero = refl
differ_self (suc x) = differ_self x

differ-lt : (x y k : ℕ) → x < k → y < k → differ x y < k
differ-lt zero y k h g = g
differ-lt (suc x) zero k h g = h
differ-lt (suc x) (suc y) k h g = differ-lt x y k (omega arith) (omega arith)

abbrev xor_digits : ℕ → ℕ → ℕ → ℕ
xor_digits n a b = digits (λ b. b) differ n a b

xor_digits-zero : (n a b : ℕ) → a ≤ n → xor_digits n a b ≡ 0 → a ≡ b
xor_digits-zero zero zero b p h = omega arith
xor_digits-zero zero (suc a) b p h = absurd (omega arith)
xor_digits-zero (suc n) zero b p h = omega arith
xor_digits-zero (suc n) (suc a) b p h = omega (
  arith,
  xor_digits-zero n (suc a / 2) (b / 2) (omega arith) (omega arith),
  differ-eq-zero (suc a % 2) (b % 2) (omega arith),
)

xor_digits_self : (n a : ℕ) → a ≤ n → xor_digits n a a ≡ 0
xor_digits_self zero zero p = refl
xor_digits_self zero (suc a) p = absurd (omega arith)
xor_digits_self (suc n) zero p = refl
xor_digits_self (suc n) (suc a) p =
    omega (arith, xor_digits_self n (suc a / 2) (omega arith), differ_self (suc a % 2))

xor_digits-lt : (n a b k : ℕ) → a ≤ n → a < 2 ^ k → b < 2 ^ k → xor_digits n a b < 2 ^ k
xor_digits-lt zero zero b k p h g = g
xor_digits-lt zero (suc a) b k p h g = absurd (omega arith)
xor_digits-lt (suc n) zero b k p h g = g
xor_digits-lt (suc n) (suc a) b zero p h g = absurd (omega arith)
xor_digits-lt (suc n) (suc a) b (suc k) p h g = omega (
  arith,
  pow-suc 2 k,
  xor_digits-lt n (suc a / 2) (b / 2) k (omega arith) (omega (arith, pow-suc 2 k))
      (omega (arith, pow-suc 2 k)),
  differ-lt (suc a % 2) (b % 2) 2 (omega arith) (omega arith),
)

-- The exclusive or of two numbers vanishes exactly when they are equal.
pub bit_xor-eq-zero : (a b : ℕ) → bit_xor a b ≡ 0 → a ≡ b
bit_xor-eq-zero a b h = xor_digits-zero a a b (le_refl a) (sym (bit_xor-bitwise a b) ∙ h)

pub bit_xor_self : (a : ℕ) → bit_xor a a ≡ 0
bit_xor_self a = bit_xor-bitwise a a ∙ xor_digits_self a a (le_refl a)

pub bit_xor-lt : (a b k : ℕ) → a < 2 ^ k → b < 2 ^ k → bit_xor a b < 2 ^ k
bit_xor-lt a b k h g = rw (bit_xor-bitwise a b) (xor_digits-lt a a b k (le_refl a) h g)

abbrev or_digits : ℕ → ℕ → ℕ → ℕ
or_digits n a b = digits (λ b. b) max n a b

or_digits-zero : (n a b : ℕ) → a ≤ n → or_digits n a b ≡ 0 → (a ≡ 0) × (b ≡ 0)
or_digits-zero zero zero b p h = (refl, h)
or_digits-zero zero (suc a) b p h = absurd (omega arith)
or_digits-zero (suc n) zero b p h = (refl, h)
or_digits-zero (suc n) (suc a) b p h =
    let r = or_digits-zero n (suc a / 2) (b / 2) (omega arith) (omega arith) in omega arith

-- The inclusive or of two numbers vanishes exactly when both do.
pub bit_or-eq-zero : (a b : ℕ) → bit_or a b ≡ 0 → (a ≡ 0) × (b ≡ 0)
bit_or-eq-zero a b h = or_digits-zero a a b (le_refl a) (sym (bit_or-bitwise a b) ∙ h)

xor_digits_fuel : (n m a b : ℕ) → a ≤ n → a ≤ m → xor_digits n a b ≡ xor_digits m a b
xor_digits_fuel zero zero a b p q = refl
xor_digits_fuel zero (suc m) zero b p q = refl
xor_digits_fuel zero (suc m) (suc a) b p q = absurd (omega arith)
xor_digits_fuel (suc n) zero zero b p q = refl
xor_digits_fuel (suc n) zero (suc a) b p q = absurd (omega arith)
xor_digits_fuel (suc n) (suc m) zero b p q = refl
xor_digits_fuel (suc n) (suc m) (suc a) b p q =
    omega (arith, xor_digits_fuel n m (suc a / 2) (b / 2) (omega arith) (omega arith))

differ_small : (x y : ℕ) → x < 2 → y < 2 → (differ (differ x y) y ≡ x) × (differ x y < 2)
differ_small zero y p q = (differ_self y, q)
differ_small (suc zero) zero p q = (refl, p)
differ_small (suc zero) (suc zero) p q = (refl, omega arith)
differ_small (suc zero) (suc (suc y)) p q = absurd (omega arith)
differ_small (suc (suc x)) y p q = absurd (omega arith)

differ_zero_left : (b : ℕ) → b ≡ b / 2 * 2 + b % 2
differ_zero_left b = omega arith

-- The law for the lowest digit.
pub bit_xor_step : (a b : ℕ) → bit_xor a b ≡ bit_xor (a / 2) (b / 2) * 2 + differ (a % 2) (b % 2)
bit_xor_step zero b =
    omega (arith, bit_xor-bitwise 0 b, bit_xor-bitwise 0 (b / 2), differ_zero_left b)
bit_xor_step (suc a) b = omega (
  arith,
  bit_xor-bitwise (suc a) b,
  bit_xor-bitwise (suc a / 2) (b / 2),
  xor_digits_fuel a (suc a / 2) (suc a / 2) (b / 2) (omega arith) (omega arith),
)

-- The exclusive or with the same number twice changes nothing.
pub bit_xor_twice : (n a b : ℕ) → a < 2 ^ n → b < 2 ^ n → bit_xor (bit_xor a b) b ≡ a
bit_xor_twice zero a b p q =
    let z : a ≡ 0 = omega arith in let y : b ≡ 0 = omega arith in rw (z, y) refl
bit_xor_twice (suc n) a b p q =
    let ih =
      bit_xor_twice n (a / 2) (b / 2) (omega (arith, pow-suc 2 n)) (omega (arith, pow-suc 2 n)) in
    let d = differ_small (a % 2) (b % 2) (omega arith) (omega arith) in
    let h : bit_xor a b / 2 ≡ bit_xor (a / 2) (b / 2) = omega (arith, bit_xor_step a b) in
    let l : bit_xor a b % 2 ≡ differ (a % 2) (b % 2) = omega (arith, bit_xor_step a b) in
    rw (bit_xor_step (bit_xor a b) b, h, l, ih, d.0) (omega arith)
