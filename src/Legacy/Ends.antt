-- ===== src/Legacy/Ends.antt =====
-- Every request to `handler_falcon_sign` ends (legacy/src/handler/handler_falcon_sign.c).
use zknox_hw_falcon.Common.{
  ℕ, zero, suc, ◌+◌, ◌-◌, ◌*◌, ◌^◌, ◌≤◌, ◌<◌, ◌≡◌, Bytes, [], ◌∷◌, length, ◌≢◌, take, drop,
  length-take, length-drop, false, some, none, ◌==◌, ltb, leb, arith, Bool-cases, Option-cases, inl,
  inr, ◌⊎◌,
}
use zknox_hw_falcon.Common.Apdu.{Buffer, Response}
use zknox_hw_falcon.Legacy.State.{Reference, Globals, SignCtx, fn, node_mac_len}
use zknox_hw_falcon.Legacy.Stream.{
  size_t, node_bytes, round_take, route, whole_record, feed_stream, feed_tree_stream, cdata_bytes,
}
use zknox_hw_falcon.Legacy.Level0.{swap_target}
use zknox_hw_falcon.Legacy.Swap.{swap_stream, swap_auth, feed_swap}
use zknox_hw_falcon.Legacy.Sign.{handler_falcon_sign}
use zknox_hw_falcon.Legacy.StreamBytes.{node_bytes-range}
use zknox_hw_falcon.Legacy.StreamBlocks.{whole_record-begins}

-- A round takes a byte, unless the record was full before.
round_take-progress :
    (nb accum remaining : ℕ)
    → 0 < remaining
    → accum < 2 ^ 32
    → nb ≤ 8192
    → 8 ≤ nb
    → (0 < round_take nb accum remaining) × (round_take nb accum remaining ≤ remaining)
      ⊎ (accum ≡ nb + node_mac_len) × (round_take nb accum remaining ≡ 0)
unfolding round_take
round_take-progress nb accum remaining h a le ge = elim (Bool-cases (ltb accum nb)) [
  | inl first ↦ elim (Bool-cases (ltb remaining (nb - accum))) [
    | inl b ↦ rw (first, b) (inl (omega arith, omega arith))
    | inr b ↦ rw (first, b) (inl (ground arith, ground arith))
  ]
  | inr second ↦
      let past : nb ≤ accum = ground arith in
      let need = size_t (node_mac_len + 2 ^ 32 - size_t (accum - nb)) in
      elim (Bool-cases (ltb remaining need)) [
        | inl b ↦ rw (second, b) (inl (omega arith, omega arith))
        | inr b ↦ elim (Bool-cases (need == 0)) [
          | inl z ↦ rw (second, b) (inr (ground arith, ground arith))
          | inr z ↦ rw (second, b) (inl (ground arith, ground arith))
        ]
      ]
]

route-lt : (nb : ℕ) (src : Bytes) (s : SignCtx) → (route nb src s).accum_offset < 2 ^ 32
unfolding route
route-lt nb src s = omega arith

route_nothing :
    (nb : ℕ) (src : Bytes) (s : SignCtx)
    → length src ≡ 0
    → s.accum_offset < 2 ^ 32
    → (route nb src s).accum_offset ≡ s.accum_offset
unfolding route
route_nothing nb src s e h = omega arith

-- Enough fuel: two rounds for each byte, and one for a record that was full before.
abbrev IsEnough : ℕ → SignCtx → ℕ → Type 0
IsEnough fuel s n =
    (2 * n + 1 ≤ fuel) ⊎ (2 * n ≤ fuel) × (s.accum_offset ≢ node_bytes s.depth + node_mac_len)

feed_stream-ends :
    (fuel : ℕ) (r : Reference) (s : SignCtx) (src : Bytes)
    → s.accum_offset < 2 ^ 32
    → IsEnough fuel s (length src)
    → feed_stream fuel r s src ≢ none
unfolding feed_stream
feed_stream-ends zero r s [] small enough = cc
feed_stream-ends (suc fuel) r s [] small enough = cc
feed_stream-ends zero r s (x ∷ xs) small enough = ground arith
feed_stream-ends (suc fuel) r s (x ∷ xs) small enough =
    let nb = node_bytes s.depth in
    let range = node_bytes-range s.depth in
    let n = round_take nb s.accum_offset (length (x ∷ xs)) in
    let s1 = route nb (take n (x ∷ xs)) s in
    let rest = drop n (x ∷ xs) in
    let left = length-drop n (x ∷ xs) in
    let full = whole_record r nb (length rest) s1 in
    let fits : ltb 4096 nb ≡ false = ground arith in
    let progress =
      round_take-progress nb s.accum_offset (length (x ∷ xs)) (omega arith) small (omega arith)
        range.0 in
    rw (feed_stream, fits)
      (elim (Bool-cases (s1.accum_offset == size_t (nb + node_mac_len))) [
        | inl complete ↦ elim (Option-cases full.1) [
          | inl more ↦
              let begins = whole_record-begins r nb (length rest) s1 more in
              rw (complete, more)
                (feed_stream-ends fuel r full.0 rest (omega arith)
                  (inr (ground arith, ground (arith, node_bytes-range full.0.depth))))
          | inr (resp, last) ↦ rw (complete, last) cc
        ]
        | inr inside ↦ rw inside (
            feed_stream-ends fuel r s1 rest (route-lt nb (take n (x ∷ xs)) s)
              (inl (ground (arith, route_nothing nb (take n (x ∷ xs)) s, length-take n (x ∷ xs)))))
      ])

tree_stream-ends :
    (r : Reference) (buf : Buffer) (s : SignCtx)
    → s.accum_offset < 2 ^ 32
    → feed_tree_stream r buf s ≢ none
unfolding feed_tree_stream
tree_stream-ends r buf s small =
    let run =
      feed_stream-ends (2 * buf.size + 1) r s (cdata_bytes buf) small
        (inl (omega (arith, length-take buf.size buf.ptr))) in
    ground (arith, run)

swap_stream-ends :
    (fuel tgt : ℕ) (s : SignCtx) (src : Bytes)
    → s.accum_offset < 2 ^ 32
    → length src < fuel
    → swap_stream fuel tgt s src ≢ none
unfolding swap_stream
swap_stream-ends zero tgt s src small enough = absurd (omega arith)
swap_stream-ends (suc fuel) tgt s [] small enough = cc
swap_stream-ends (suc fuel) tgt s (x ∷ xs) small enough =
    let n = round_take (8 * fn) s.accum_offset (length (x ∷ xs)) in
    let progress =
      round_take-progress (8 * fn) s.accum_offset (length (x ∷ xs)) (omega arith) small
        (omega arith) (omega arith) in
    let left = length-drop n (x ∷ xs) in
    elim (Bool-cases (ltb s.accum_offset (8 * fn))) [
      | inl first ↦
          rw (swap_stream, first)
            (swap_stream-ends fuel tgt _ (drop n (x ∷ xs)) (omega arith) (ground arith))
      | inr second ↦ elim (Bool-cases (leb node_mac_len (s.accum_offset - 8 * fn))) [
        | inl over ↦ rw (swap_stream, second, over) cc
        | inr room ↦
            rw (swap_stream, second, room)
              (swap_stream-ends fuel tgt _ (drop n (x ∷ xs)) (omega arith) (ground arith))
      ]
    ]

swap_auth-ends :
    (r : Reference) (g : Globals) (buf : Buffer) (p2 tgt : ℕ) (s : SignCtx)
    → s.accum_offset < 2 ^ 32
    → swap_auth r g buf p2 tgt s ≢ none
unfolding swap_auth
swap_auth-ends r g buf p2 tgt s small =
    let run =
      swap_stream-ends (buf.size + 1) tgt s (cdata_bytes buf) small
        (omega (arith, length-take buf.size buf.ptr)) in
    elim (Option-cases (swap_stream (buf.size + 1) tgt s (cdata_bytes buf))) [
      | inl never ↦ absurd (run never)
      | inr (t, e) ↦ rw (swap_auth, e) cc
    ]

feed_swap-ends :
    (r : Reference) (g : Globals) (buf : Buffer) (p2 : ℕ) (s : SignCtx)
    → s.accum_offset < 2 ^ 32
    → feed_swap r g buf p2 s ≢ none
unfolding feed_swap
feed_swap-ends r g buf p2 s small = elim (Option-cases (swap_target s.l0_phase)) [
  | inl no_target ↦ ground arith
  | inr (tgt, e) ↦ ground (arith, swap_auth-ends r g buf p2 tgt s small)
]

-- Every request ends: for any buffer, any P1 and P2 and any context, one response comes out,
-- since two rounds of fuel for each byte are enough for the loops.
pub handler_falcon_sign-ends :
    (r : Reference) (g : Globals) (rng : Bytes) (buf : Buffer) (p1 p2 : ℕ) (s : SignCtx)
    → s.accum_offset < 2 ^ 32
    → (t : SignCtx) × (resp : Response) × (handler_falcon_sign r g rng buf p1 p2 s ≡ some (t, resp))
unfolding handler_falcon_sign
handler_falcon_sign-ends r g rng buf p1 p2 s small =
    elim (Option-cases (handler_falcon_sign r g rng buf p1 p2 s)) [
      | inl never ↦
          absurd (ground (arith, tree_stream-ends r buf s small, feed_swap-ends r g buf p2 s small))
      | inr ((t, resp), e) ↦ (t, resp, e)
    ]
