-- ===== src/Falcon/Rejection.antt =====
-- `hash_to_point` takes the accepted words of the SHAKE256 output in order, modulo q
-- (src/falcon_lowram/fndsa_util.c).
use zknox_hw_falcon.Common.{
  ℕ, zero, suc, ◌+◌, ◌-◌, ◌*◌, ◌^◌, ◌%◌, ◌≤◌, ◌<◌, ◌≡◌, ◌⊎◌, refl, ap, Bytes, List, [], ◌∷◌, ◌++◌,
  some, true, false, ◌==◌, ltb, arith, length, length-take, take, get_or, Bool-cases, inl, inr,
}
use zknox_hw_falcon.LowRam.State.{Core}
use zknox_hw_falcon.Falcon.HashToPoint.{reduce, word, refill, hash_loop, hash_to_point}

-- How many of the `n` words from position `at` on are below 61445 = 5 · 12289.
unfoldable pub accepted : (ℕ → ℕ) → ℕ → ℕ → ℕ
accepted stream zero at = 0
accepted stream (suc n) at =
    let rest = accepted stream n (at + 2) in
    elim (ltb (word stream at) 61445) [ true ↦ suc rest | false ↦ rest ]

-- The accepted ones among the `n` words from position `at` on, modulo 12289.
unfoldable pub coefficients : (ℕ → ℕ) → ℕ → ℕ → List ℕ
coefficients stream zero at = []
coefficients stream (suc n) at =
    let rest = coefficients stream n (at + 2) in
    elim (ltb (word stream at) 61445) [ true ↦ word stream at % 12289 ∷ rest | false ↦ rest ]

abbrev pub AllBelow : ℕ → List ℕ → Type 0
AllBelow q [] = Unit
AllBelow q (x ∷ xs) = (x < q) × AllBelow q xs

reduce_lem : (fuel w : ℕ) → w < (fuel + 1) * 12289 → reduce fuel w ≡ w % 12289
unfolding reduce
reduce_lem zero w h = omega arith
reduce_lem (suc fuel) w h = elim (Bool-cases (ltb w 12289)) [
  | inl small ↦ rw (reduce, small) (let p : w < 12289 = ground arith in omega arith)
  | inr large ↦
      let p : 12289 ≤ w = ground arith in
      rw (reduce, large) (let r = reduce_lem fuel (w - 12289) (omega arith) in omega (arith, r))
]

-- The index stays even and at most 136, so the buffer is refilled exactly at its end.
refill_lem :
    (extracted j at : ℕ)
    → extracted + j ≡ at + 136
    → (j ≡ 136) ⊎ (136 ≤ extracted)
    → j ≤ 136
    → j % 2 ≡ 0
    → let r = refill extracted j in
      (r.0 - 136 + r.1 ≡ at)
      × (r.0 + (r.1 + 2) ≡ at + 2 + 136)
      × (r.1 + 2 ≤ 136)
      × ((r.1 + 2) % 2 ≡ 0)
      × (136 ≤ r.0)
unfolding refill
refill_lem extracted j at h f b e = elim (Bool-cases (j == 136)) [
  | inl full ↦
      let p : j ≡ 136 = ground arith in
      rw full (omega arith, omega arith, omega arith, omega arith, omega arith)
  | inr more ↦
      let p : j ≤ 134 = ground arith in
      let q : 136 ≤ extracted = ground arith in
      rw more (omega arith, omega arith, omega arith, omega arith, omega arith)
]

hash_loop_lem :
    (fuel : ℕ) (stream : ℕ → ℕ) (left extracted j at : ℕ)
    → extracted + j ≡ at + 136
    → (j ≡ 136) ⊎ (136 ≤ extracted)
    → j ≤ 136
    → j % 2 ≡ 0
    → left ≤ accepted stream fuel at
    → hash_loop fuel stream left extracted j ≡ some (take left (coefficients stream fuel at))
unfolding hash_loop accepted coefficients
hash_loop_lem fuel stream zero extracted j at h old b e enough = refl
hash_loop_lem zero stream (suc left) extracted j at h old b e enough = absurd (omega arith)
hash_loop_lem (suc fuel) stream (suc left) extracted j at h old b e enough =
    let f = refill_lem extracted j at h old b e in
    elim (Bool-cases (ltb (word stream at) 61445)) [
      | inl good ↦
          let rest =
            hash_loop_lem fuel stream left (refill extracted j).0 ((refill extracted j).1 + 2)
              (at + 2) f.1 (inr f.4) f.2 f.3
              (let n = rw (accepted, good) at enough in omega arith) in
          let small : word stream at < 61445 = ground arith in
          rw
            (
              hash_loop,
              f.0,
              coefficients,
              good,
              f.0,
              rest,
              reduce_lem 5 (word stream at) (omega arith),
            )
            refl
      | inr bad ↦
          rw (hash_loop, f.0, coefficients, bad)
            (hash_loop_lem fuel stream (suc left) (refill extracted j).0
              ((refill extracted j).1 + 2) (at + 2) f.1 (inr f.4) f.2 f.3
              (rw (accepted, bad) at enough))
    ]

coefficients-below : (stream : ℕ → ℕ) (n at : ℕ) → AllBelow 12289 (coefficients stream n at)
unfolding coefficients
coefficients-below stream zero at = tt
coefficients-below stream (suc n) at = elim (Bool-cases (ltb (word stream at) 61445)) [
  | inl good ↦ rw (coefficients, good) (omega arith, coefficients-below stream n (at + 2))
  | inr bad ↦ rw (coefficients, bad) (coefficients-below stream n (at + 2))
]

length-coefficients :
    (stream : ℕ → ℕ) (n at : ℕ) → length (coefficients stream n at) ≡ accepted stream n at
unfolding coefficients accepted
length-coefficients stream zero at = refl
length-coefficients stream (suc n) at = elim (Bool-cases (ltb (word stream at) 61445)) [
  | inl good ↦ rw (coefficients, accepted, good) (ap suc (length-coefficients stream n (at + 2)))
  | inr bad ↦ rw (coefficients, accepted, bad) (length-coefficients stream n (at + 2))
]

take-AllBelow : (q n : ℕ) (xs : List ℕ) → AllBelow q xs → AllBelow q (take n xs)
take-AllBelow q zero xs h = tt
take-AllBelow q (suc n) [] h = tt
take-AllBelow q (suc n) (x ∷ xs) h = (h.0, take-AllBelow q n xs h.1)

-- The SHAKE256 output of the nonce and the message.
abbrev pub output : Core → Bytes → Bytes → ℕ → ℕ
output c nonce mu i = get_or (c.shake256 (take 40 nonce ++ mu) (i + 1)) i 0

-- As soon as 2^logn of the first `fuel` words of the output are below 5q, the loop ends, and the
-- polynomial is the first 2^logn of these words, in order and modulo q = 12289: 2^logn
-- coefficients below q, however the output is cut into buffers of 136 bytes.
pub hash_to_point-coefficients :
    (c : Core) (fuel logn : ℕ) (nonce mu : Bytes)
    → 2 ^ logn ≤ accepted (output c nonce mu) fuel 0
    → let p = take (2 ^ logn) (coefficients (output c nonce mu) fuel 0) in
      (hash_to_point c fuel logn nonce mu ≡ some p) × (length p ≡ 2 ^ logn) × AllBelow 12289 p
unfolding hash_to_point
hash_to_point-coefficients c fuel logn nonce mu enough = (
  hash_loop_lem fuel (output c nonce mu) (2 ^ logn) 0 136 0 refl (inl refl) (omega arith) refl
      enough,
  omega (
    arith,
    length-take (2 ^ logn) (coefficients (output c nonce mu) fuel 0),
    length-coefficients (output c nonce mu) fuel 0,
  ),
  take-AllBelow 12289 (2 ^ logn) _ (coefficients-below (output c nonce mu) fuel 0),
)
