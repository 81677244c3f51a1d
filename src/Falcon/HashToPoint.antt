-- ===== src/Falcon/HashToPoint.antt =====
-- `hash_to_point` with FNDSA_FALCON_R3 (src/falcon_lowram/fndsa_util.c): the message hash as a
-- polynomial modulo q = 12289, by rejection.
use Prim.Native.Nat.{bit_or}
use mathlib.Core.Option
use zknox_hw_falcon.LowRam.State.{Core}
use zknox_hw_falcon.Common.{
  Bytes, ◌++◌, take, get_or, ℕ, zero, suc, ◌+◌, ◌-◌, ◌*◌, ◌^◌, List, [], ◌∷◌, Option, some, none,
  true, false, ◌==◌, ltb, if◌then◌else◌,
}

-- `while (w >= 12289) w -= 12289`, on fuel.
unfoldable pub reduce : ℕ → ℕ → ℕ
reduce zero w = w
reduce (suc fuel) w = elim (ltb w 12289) [ true ↦ w | false ↦ reduce fuel (w - 12289) ]

-- The 16-bit word at a position of the SHAKE256 output.
unfoldable pub word : (ℕ → ℕ) → ℕ → ℕ
word stream at = bit_or (stream at * 2 ^ 8) (stream (at + 1))

-- `if (j == 136) { shake_extract(&sc, sbuf, j); j = 0; }`, with the number of bytes extracted.
unfoldable pub refill : ℕ → ℕ → ℕ × ℕ
refill extracted j = if j == 136 then (extracted + 136, 0) else (extracted, j)

-- The `while (i < n)` loop on fuel, with `left` coefficients to go. `sbuf` holds the last 136
-- bytes that were extracted, and `j` is the index in it. The result is the coefficients, or none
-- when the fuel is spent. A word below 61445 takes at most four subtractions.
unfoldable pub hash_loop : ℕ → (ℕ → ℕ) → ℕ → ℕ → ℕ → Option (List ℕ)
hash_loop fuel stream zero extracted j = some []
hash_loop zero stream (suc left) extracted j = none
hash_loop (suc fuel) stream (suc left) extracted j =
    let r = refill extracted j in
    let w = word stream (r.0 - 136 + r.1) in
    elim (ltb w 61445) [
      | true ↦ Option.map (◌∷◌ (reduce 5 w)) (hash_loop fuel stream left r.0 (r.1 + 2))
      | false ↦ hash_loop fuel stream (suc left) r.0 (r.1 + 2)
    ]

-- `hash_to_point(logn, nonce, mu, mu_len, c)`: the polynomial `c`, or none when the fuel is spent.
unfoldable pub hash_to_point : Core → ℕ → ℕ → Bytes → Bytes → Option (List ℕ)
hash_to_point c fuel logn nonce mu =
    hash_loop fuel (λ i. get_or (c.shake256 (take 40 nonce ++ mu) (i + 1)) i 0) (2 ^ logn) 0 136
