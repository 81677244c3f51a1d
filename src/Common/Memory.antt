-- ===== src/Common/Memory.antt =====
-- A working area as a memory of bytes, with `memcpy` into and out of it.
use Prim.Native.Nat.{ℕ, zero, suc, ◌+◌, ◌-◌, ◌≤◌, ◌<◌}
use mathlib.Core.Path.{◌≡◌, refl, ap, ap₂, ◌∙◌, fun_ext}
use native.Mathlib.Decide.{dec_lt}
use mathlib.Core.Bool.{◌&&◌}
use mathlib.Core.Logic.{◌⊎◌}
use mathlib.Core.List.{[], ◌∷◌, ◌++◌}
use native.Mathlib.Omega.{arith}
use zknox_hw_falcon.Common.Tests.{ltb, leb, if◌then◌else◌}
use zknox_hw_falcon.Common.Lists.{Bytes, length, get_or, replicate, take, drop, take-all}

abbrev pub Memory : Type 0
Memory = ℕ → ℕ

-- `memcpy(mem + off, src, len(src))`
pub write_bytes : Memory → ℕ → Bytes → Memory
write_bytes m off src i =
    if leb off i && ltb i (off + length src) then get_or src (i - off) 0 else m i

-- `memcpy(dst, mem + off, n)`
pub read_bytes : Memory → ℕ → ℕ → Bytes
read_bytes m off zero = []
read_bytes m off (suc n) = m off ∷ read_bytes m (off + 1) n

-- `explicit_bzero(mem + off, n)`
unfoldable pub bzero : Memory → ℕ → ℕ → Memory
bzero m off n i = if leb off i && ltb i (off + n) then 0 else m i

pub read_bytes-length : (m : Memory) (off n : ℕ) → length (read_bytes m off n) ≡ n
unfolding read_bytes
read_bytes-length m off zero = refl
read_bytes-length m off (suc n) = ap suc (read_bytes-length m (off + 1) n)

-- A range reads the same from two memories that agree on it.
pub read_bytes-ext :
    (m m' : Memory) (off n : ℕ)
    → ((i : ℕ) → off ≤ i → i < off + n → m i ≡ m' i)
    → read_bytes m off n ≡ read_bytes m' off n
unfolding read_bytes
read_bytes-ext m m' off zero h = refl
read_bytes-ext m m' off (suc n) h =
    ap₂ ◌∷◌ (h off (omega arith) (omega arith))
      (read_bytes-ext m m' (off + 1) n (λ i p q. h i (omega arith) (omega arith)))

pub read_bytes-zero :
    (m : Memory) (off n : ℕ)
    → ((i : ℕ) → off ≤ i → i < off + n → m i ≡ 0)
    → read_bytes m off n ≡ replicate n 0
unfolding read_bytes
read_bytes-zero m off zero h = refl
read_bytes-zero m off (suc n) h =
    ap₂ ◌∷◌ (h off (omega arith) (omega arith))
      (read_bytes-zero m (off + 1) n (λ i p q. h i (omega arith) (omega arith)))

-- A write leaves what it does not cover.
pub read-write_disjoint :
    (m : Memory) (off : ℕ) (src : Bytes) (at n : ℕ)
    → (at + n ≤ off) ⊎ (off + length src ≤ at)
    → read_bytes (write_bytes m off src) at n ≡ read_bytes m at n
unfolding write_bytes
read-write_disjoint m off src at n h =
    read_bytes-ext (write_bytes m off src) m at n (λ i p q. ground arith)

drop_cons :
    (k : ℕ) (src : Bytes) → suc k ≤ length src → drop k src ≡ get_or src k 0 ∷ drop (suc k) src
drop_cons k [] h = absurd (omega arith)
drop_cons zero (x ∷ xs) h = refl
drop_cons (suc k) (x ∷ xs) h = drop_cons k xs (omega arith)

-- A range that holds a piece of `src` reads as that piece.
pub read_bytes_of :
    (src : Bytes) (m : Memory) (at k n : ℕ)
    → ((i : ℕ) → i < n → m (at + i) ≡ get_or src (k + i) 0)
    → k + n ≤ length src
    → read_bytes m at n ≡ take n (drop k src)
unfolding read_bytes
read_bytes_of src m at k zero h le = refl
read_bytes_of src m at k (suc n) h le = rw (drop_cons k src (omega arith)) (
    ap₂ ◌∷◌ first (
      read_bytes_of src m (at + 1) (suc k) n (λ i p. rest i (h (suc i) (omega arith)))
        (omega arith)))
  where
    at_0 : at + 0 ≡ at
    at_0 = omega arith

    k_0 : k + 0 ≡ k
    k_0 = omega arith

    first : m at ≡ get_or src k 0
    first = rw at_0 at (rw k_0 at (h 0 (omega arith)))

    rest :
        (i : ℕ)
        → m (at + suc i) ≡ get_or src (k + suc i) 0
        → m (at + 1 + i) ≡ get_or src (suc k + i) 0
    rest i e =
        let p : at + 1 + i ≡ at + suc i = omega arith in
        let q : suc k + i ≡ k + suc i = omega arith in rw (p, q) e

-- What was just written is read back, also a piece of it.
pub read-write_same :
    (m : Memory) (off : ℕ) (src : Bytes) (k n : ℕ)
    → k + n ≤ length src
    → read_bytes (write_bytes m off src) (off + k) n ≡ take n (drop k src)
unfolding write_bytes
read-write_same m off src k n h =
    read_bytes_of src (write_bytes m off src) (off + k) k n
      (λ i p. let e : off + k + i - off ≡ k + i = omega arith in ground (arith, e)) h

pub read-bzero : (m : Memory) (off n : ℕ) → read_bytes (bzero m off n) off n ≡ replicate n 0
unfolding bzero
read-bzero m off n = read_bytes-zero (bzero m off n) off n (λ i p q. ground arith)

pub read-write_all :
    (m : Memory) (off : ℕ) (src : Bytes) (n : ℕ)
    → length src ≡ n
    → read_bytes (write_bytes m off src) off n ≡ src
unfolding write_bytes
read-write_all m off src n e =
    read_bytes_of src (write_bytes m off src) off 0 n
      (λ i p. let r : off + i - off ≡ 0 + i = omega arith in ground (arith, r)) (omega arith)
    ∙ take-all n src (omega arith)

-- A range is read piece by piece.
pub read_bytes-append :
    (m : Memory) (off a b : ℕ)
    → read_bytes m off (a + b) ≡ read_bytes m off a ++ read_bytes m (off + a) b
unfolding read_bytes
read_bytes-append m off zero b =
    let p : 0 + b ≡ b = omega arith in let q : off + 0 ≡ off = omega arith in rw (p, q) refl
read_bytes-append m off (suc a) b =
    let p : suc a + b ≡ suc (a + b) = omega arith in
    let q : off + suc a ≡ off + 1 + a = omega arith in
    rw (p, q) (ap (◌∷◌ (m off)) (read_bytes-append m (off + 1) a b))

pub bzero_inside : (m : Memory) (off n i : ℕ) → off ≤ i → i < off + n → bzero m off n i ≡ 0
unfolding bzero
bzero_inside m off n i p q = ground arith

pub bzero_zero : (m : Memory) (off n i : ℕ) → m i ≡ 0 → bzero m off n i ≡ 0
unfolding bzero
bzero_zero m off n i z = ground arith

-- A write byte by byte is the write of the bytes.
pub write_bytes-cons :
    (m : Memory) (off x : ℕ) (ys : Bytes)
    → write_bytes (write_bytes m off (x ∷ [])) (off + 1) ys ≡ write_bytes m off (x ∷ ys)
unfolding write_bytes
write_bytes-cons m off x ys = fun_ext (λ i. write_bytes_at i)
  where
    write_bytes_at :
        (i : ℕ)
        → write_bytes (write_bytes m off (x ∷ [])) (off + 1) ys i ≡ write_bytes m off (x ∷ ys) i
    write_bytes_at i = elim (dec_lt off i) [
      | yes after ↦ let e : i - off ≡ suc (i - (off + 1)) = omega arith in ground (arith, e)
      | no other ↦ elim (dec_lt i off) [
        | yes before ↦ ground arith
        | no neither ↦
            let e : i ≡ off = omega arith in
            let z : off - off ≡ 0 = omega arith in rw (e, z) (ground arith)
      ]
    ]

-- A write over a write of the same length replaces it.
pub write_bytes-write_bytes :
    (m : Memory) (off : ℕ) (xs ys : Bytes)
    → length xs ≡ length ys
    → write_bytes (write_bytes m off xs) off ys ≡ write_bytes m off ys
unfolding write_bytes
write_bytes-write_bytes m off xs ys e = fun_ext (λ i. ground arith)

write_bytes-nil : (m : Memory) (off : ℕ) → write_bytes m off [] ≡ m
unfolding write_bytes
write_bytes-nil m off = fun_ext (λ i. ground arith)

-- Two writes next to each other are one.
pub write_bytes-append :
    (m : Memory) (off : ℕ) (xs ys : Bytes)
    → write_bytes (write_bytes m off xs) (off + length xs) ys ≡ write_bytes m off (xs ++ ys)
write_bytes-append m off [] ys =
    let e : off + 0 ≡ off = omega arith in rw (e, write_bytes-nil m off) refl
write_bytes-append m off (x ∷ xs) ys =
    let e : off + suc (length xs) ≡ off + 1 + length xs = omega arith in
    rw (e, ← write_bytes-cons m off x xs, ← write_bytes-cons m off x (xs ++ ys))
      (write_bytes-append (write_bytes m off (x ∷ [])) (off + 1) xs ys)
