-- ===== src/Common/Lists.antt =====
-- Lists measured and indexed by native numbers, under the library's names, and byte strings.
use Prim.Native.Nat.{ℕ, zero, suc, ◌+◌, ◌-◌, ◌*◌, ◌/◌, ◌%◌, ◌≤◌, ◌<◌, min}
use mathlib.Core.Path.{◌≡◌, refl, ap, ap₂, sym}
use mathlib.Core.List.{List, [], ◌∷◌, ◌++◌}
use mathlib.Core.Bool.{Bool, true, false, ◌&&◌}
use native.Mathlib.Omega.{arith}
use zknox_hw_falcon.Common.Tests.{◌==◌}

-- A byte string, or the contents of a byte array: numbers below 256.
abbrev pub Bytes : Type 0
Bytes = List ℕ

module _ {ℓ} {A : Type ℓ} where
  abbrev pub length : List A → ℕ
  length [] = 0
  length (x ∷ xs) = suc (length xs)

  abbrev pub get_or : List A → ℕ → A → A
  get_or [] i d = d
  get_or (x ∷ xs) zero d = x
  get_or (x ∷ xs) (suc i) d = get_or xs i d

  abbrev pub take : ℕ → List A → List A
  take zero xs = []
  take (suc n) [] = []
  take (suc n) (x ∷ xs) = x ∷ take n xs

  abbrev pub drop : ℕ → List A → List A
  drop zero xs = xs
  drop (suc n) [] = []
  drop (suc n) (x ∷ xs) = drop n xs

  abbrev pub replicate : ℕ → A → List A
  replicate zero a = []
  replicate (suc n) a = a ∷ replicate n a

module _ {ℓ} {A : Type ℓ} where
  pub length-append : (xs ys : List A) → length (xs ++ ys) ≡ length xs + length ys
  length-append [] ys = omega arith
  length-append (x ∷ xs) ys = omega (arith, length-append xs ys)

  pub length-take : (n : ℕ) (xs : List A) → length (take n xs) ≡ min n (length xs)
  length-take zero xs = omega arith
  length-take (suc n) [] = omega arith
  length-take (suc n) (x ∷ xs) = omega (arith, length-take n xs)

  pub length-drop : (n : ℕ) (xs : List A) → length (drop n xs) ≡ length xs - n
  length-drop zero xs = omega arith
  length-drop (suc n) [] = omega arith
  length-drop (suc n) (x ∷ xs) = omega (arith, length-drop n xs)

  pub length-replicate : (n : ℕ) (a : A) → length (replicate n a) ≡ n
  length-replicate zero a = refl
  length-replicate (suc n) a = ap suc (length-replicate n a)

  pub take-all : (n : ℕ) (xs : List A) → length xs ≤ n → take n xs ≡ xs
  take-all zero [] h = refl
  take-all zero (x ∷ xs) h = absurd (omega arith)
  take-all (suc n) [] h = refl
  take-all (suc n) (x ∷ xs) h = ap (◌∷◌ x) (take-all n xs (omega arith))

  pub take-append : (xs ys : List A) → take (length xs) (xs ++ ys) ≡ xs
  take-append [] ys = refl
  take-append (x ∷ xs) ys = ap (◌∷◌ x) (take-append xs ys)

  pub drop-append : (xs ys : List A) → drop (length xs) (xs ++ ys) ≡ ys
  drop-append [] ys = refl
  drop-append (x ∷ xs) ys = drop-append xs ys

  drop_nil : (k : ℕ) → drop {A = A} k [] ≡ []
  drop_nil zero = refl
  drop_nil (suc k) = refl

  take_nil : (k : ℕ) → take {A = A} k [] ≡ []
  take_nil zero = refl
  take_nil (suc k) = refl

  pub drop-drop : (m n : ℕ) (xs : List A) → drop n (drop m xs) ≡ drop (m + n) xs
  drop-drop zero n xs = let e : 0 + n ≡ n = omega arith in rw e refl
  drop-drop (suc m) n [] = rw (drop_nil (suc m + n)) (drop_nil n)
  drop-drop (suc m) n (x ∷ xs) =
      let e : suc m + n ≡ suc (m + n) = omega arith in rw e (drop-drop m n xs)

  -- Two neighbouring pieces are one piece.
  pub take-take-drop : (m n : ℕ) (xs : List A) → take m xs ++ take n (drop m xs) ≡ take (m + n) xs
  take-take-drop zero n xs = let e : 0 + n ≡ n = omega arith in rw e refl
  take-take-drop (suc m) n [] = rw (take_nil (suc m + n)) (take_nil n)
  take-take-drop (suc m) n (x ∷ xs) =
      let e : suc m + n ≡ suc (m + n) = omega arith in rw e (ap (◌∷◌ x) (take-take-drop m n xs))

module _ {ℓ} {A : Type ℓ} where
  pub take-take : (m n : ℕ) (xs : List A) → take m (take n xs) ≡ take (min m n) xs
  take-take zero n xs = let e : min 0 n ≡ 0 = omega arith in rw e refl
  take-take (suc m) zero xs = let e : min (suc m) 0 ≡ 0 = omega arith in rw e refl
  take-take (suc m) (suc n) [] =
      let e : min (suc m) (suc n) ≡ suc (min m n) = omega arith in rw e refl
  take-take (suc m) (suc n) (x ∷ xs) =
      let e : min (suc m) (suc n) ≡ suc (min m n) = omega arith in
      rw e (ap (◌∷◌ x) (take-take m n xs))

  pub drop-take : (m n : ℕ) (xs : List A) → drop m (take n xs) ≡ take (n - m) (drop m xs)
  drop-take zero n xs = let e : n - 0 ≡ n = omega arith in rw e refl
  drop-take (suc m) zero xs = let e : 0 - suc m ≡ 0 = omega arith in rw e refl
  drop-take (suc m) (suc n) [] = sym (take_nil (suc n - suc m))
  drop-take (suc m) (suc n) (x ∷ xs) =
      let e : suc n - suc m ≡ n - m = omega arith in rw e (drop-take m n xs)

-- Equality of byte strings, as `memcmp` tests it.
unfoldable pub bytes_eq : Bytes → Bytes → Bool
bytes_eq [] [] = true
bytes_eq [] (y ∷ ys) = false
bytes_eq (x ∷ xs) [] = false
bytes_eq (x ∷ xs) (y ∷ ys) = x == y && bytes_eq xs ys

pub bytes_eq_sound : (xs ys : Bytes) → bytes_eq xs ys ≡ true → xs ≡ ys
unfolding bytes_eq
bytes_eq_sound [] [] h = refl
bytes_eq_sound [] (y ∷ ys) h = cc
bytes_eq_sound (x ∷ xs) [] h = cc
bytes_eq_sound (x ∷ xs) (y ∷ ys) h = ground (arith, bytes_eq_sound xs ys)

pub bytes_eq_refl : (xs : Bytes) → bytes_eq xs xs ≡ true
unfolding bytes_eq
bytes_eq_refl [] = refl
bytes_eq_refl (x ∷ xs) = ground (arith, bytes_eq_refl xs)

-- An array of `uint16_t` as its bytes, in the device's little-endian order.
unfoldable pub le16_bytes : List ℕ → Bytes
le16_bytes [] = []
le16_bytes (w ∷ ws) = w % 256 ∷ w / 256 % 256 ∷ le16_bytes ws

pub length-le16_bytes : (ws : List ℕ) → length (le16_bytes ws) ≡ 2 * length ws
unfolding le16_bytes
length-le16_bytes [] = refl
length-le16_bytes (w ∷ ws) = omega (arith, length-le16_bytes ws)

-- Every element is a byte.
abbrev pub IsBytes : Bytes → Type 0
IsBytes [] = Unit
IsBytes (x ∷ xs) = (x < 256) × IsBytes xs

pub get_or-IsBytes : (xs : Bytes) (i : ℕ) → IsBytes xs → get_or xs i 0 < 256
get_or-IsBytes [] i h = omega arith
get_or-IsBytes (x ∷ xs) zero h = h.0
get_or-IsBytes (x ∷ xs) (suc i) h = get_or-IsBytes xs i h.1

-- Lists of one length that agree at every index are equal.
pub get_or_ext :
    (xs ys : Bytes)
    → length xs ≡ length ys
    → ((i : ℕ) → i < length xs → get_or xs i 0 ≡ get_or ys i 0)
    → xs ≡ ys
get_or_ext [] [] e h = refl
get_or_ext [] (y ∷ ys) e h = absurd (omega arith)
get_or_ext (x ∷ xs) [] e h = absurd (omega arith)
get_or_ext (x ∷ xs) (y ∷ ys) e h =
    ap₂ ◌∷◌ (h 0 (omega arith)) (get_or_ext xs ys (omega arith) (λ i p. h (suc i) (omega arith)))
