-- ===== src/Legacy/StreamBlocks.antt =====
-- The blocks of FEED_TREE_STREAM (legacy/src/handler/handler_falcon_sign.c) against the bytes one
-- by one; the loop ends.
use zknox_hw_falcon.Common.{
  ℕ, zero, suc, ◌+◌, ◌-◌, ◌^◌, ◌≤◌, ◌<◌, ◌≡◌, inl, inr, refl, ap, ◌∙◌, sym, Bytes, [], ◌∷◌, ◌++◌,
  length, take, drop, length-take, length-drop, Option, some, none, true, false, ◌==◌, ltb, arith,
  Bool-cases, Option-cases,
}
use zknox_hw_falcon.Common.Apdu.{Response}
use zknox_hw_falcon.Legacy.State.{Reference, SignCtx, node_mac_len}
use zknox_hw_falcon.Legacy.Stream.{
  size_t, node_bytes, round_take, route, whole_record, feed_node, feed_stream,
}
use zknox_hw_falcon.Legacy.StreamBytes.{
  feed_bytes, feed_bytes-block, after_block, IsInRegion, node_bytes-range, route_accum, route_depth,
}

-- A record that does not end the request leaves the next one to begin.
pub whole_record-begins :
    (r : Reference) (nb remaining : ℕ) (s : SignCtx)
    → (whole_record r nb remaining s).1 ≡ none
    → (whole_record r nb remaining s).0.accum_offset ≡ 0
unfolding whole_record feed_node
whole_record-begins r nb remaining s h = ground arith

pub take-drop : (n : ℕ) (xs : Bytes) → take n xs ++ drop n xs ≡ xs
take-drop zero xs = refl
take-drop (suc n) [] = refl
take-drop (suc n) (x ∷ xs) = ap (◌∷◌ x) (take-drop n xs)

round_take-IsInRegion :
    (nb accum remaining : ℕ)
    → nb ≤ 4096
    → accum < nb + node_mac_len
    → (m : ℕ) × (round_take nb accum (suc remaining) ≡ suc m)
      × (m ≤ remaining)
      × IsInRegion nb accum (suc m)
unfolding round_take
round_take-IsInRegion nb accum remaining le h = elim (Bool-cases (ltb accum nb)) [
  | inl a ↦ elim (Bool-cases (ltb (suc remaining) (nb - accum))) [
    | inl b ↦ (remaining, rw (a, b) refl, omega arith, inl (ground arith))
    | inr b ↦ (nb - accum - 1, rw (a, b) (ground arith), ground arith, inl (ground arith))
  ]
  | inr a ↦
      let e : size_t (node_mac_len + 2 ^ 32 - size_t (accum - nb)) ≡ nb + node_mac_len - accum =
        ground arith in
      elim (Bool-cases (ltb (suc remaining) (nb + node_mac_len - accum))) [
        | inl b ↦ (remaining, rw (a, e, b) refl, omega arith, inr (ground arith))
        | inr b ↦ (
          nb + node_mac_len - accum - 1,
          rw (a, e, b) (ground arith),
          ground arith,
          inr (ground arith),
        )
      ]
]

-- A round of the loop, once its bytes are routed.
after_round : ℕ → Reference → ℕ → SignCtx → Bytes → Option (SignCtx × Response)
after_round fuel r nb s1 rest =
    let full = whole_record r nb (length rest) s1 in
    elim (s1.accum_offset == size_t (nb + node_mac_len)) [
      | true ↦ elim full.1 [
        | none ↦ feed_stream fuel r full.0 rest
        | some resp ↦ some (full.0, resp)
      ]
      | false ↦ feed_stream fuel r s1 rest
    ]

feed_stream_round :
    (fuel : ℕ) (r : Reference) (s : SignCtx) (x m : ℕ) (xs : Bytes)
    → round_take (node_bytes s.depth) s.accum_offset (suc (length xs)) ≡ suc m
    → feed_stream (suc fuel) r s (x ∷ xs)
      ≡ after_round fuel r
          (node_bytes s.depth)
          (route (node_bytes s.depth) (x ∷ take m xs) s)
          (drop m xs)
unfolding feed_stream after_round
feed_stream_round fuel r s x m xs e =
    let small : ltb 4096 (node_bytes s.depth) ≡ false = ground (arith, node_bytes-range s.depth) in
    rw (feed_stream, small)
      (ap
        (λ (k : ℕ).
          after_round fuel r (node_bytes s.depth) (route (node_bytes s.depth) (take k (x ∷ xs)) s)
            (drop k (x ∷ xs)))
        e)

after_round-after_block :
    (fuel : ℕ) (r : Reference) (nb : ℕ) (s : SignCtx) (rest : Bytes)
    → nb ≤ 4096
    → nb ≡ node_bytes s.depth
    → s.accum_offset ≤ nb + node_mac_len
    → ((t : SignCtx)
        → t.accum_offset < node_bytes t.depth + node_mac_len
        → feed_stream fuel r t rest ≡ some (feed_bytes r t rest))
    → after_round fuel r nb s rest ≡ some (after_block r nb s rest)
unfolding after_round after_block
after_round-after_block fuel r nb s rest le e h go =
    let wide : size_t (nb + node_mac_len) ≡ nb + node_mac_len = omega arith in
    let full = whole_record r nb (length rest) s in
    rw (after_round, wide)
      (elim (Bool-cases (s.accum_offset == nb + node_mac_len)) [
        | inl done ↦
            rw (after_round, done)
              (elim (Option-cases full.1) [
                | inl more ↦
                    let z = whole_record-begins r nb (length rest) s more in
                    rw more (go full.0 (ground arith))
                | inr (resp, last) ↦ rw last refl
              ])
        | inr inside ↦ rw inside (go s (ground arith))
      ])

-- From any point inside a record, the loop over blocks ends, and it leaves the context and gives
-- the response that the bytes one by one do; fuel for as many rounds as bytes is enough.
pub feed_stream-feed_bytes :
    (fuel : ℕ) (r : Reference) (s : SignCtx) (src : Bytes)
    → s.accum_offset < node_bytes s.depth + node_mac_len
    → length src ≤ fuel
    → feed_stream fuel r s src ≡ some (feed_bytes r s src)
unfolding feed_stream feed_bytes after_block
feed_stream-feed_bytes zero r s [] inside h = refl
feed_stream-feed_bytes (suc fuel) r s [] inside h = refl
feed_stream-feed_bytes zero r s (x ∷ xs) inside h = absurd (omega arith)
feed_stream-feed_bytes (suc fuel) r s (x ∷ xs) inside h =
    let nb = node_bytes s.depth in
    let range = node_bytes-range s.depth in
    let (m, e, le, region) = round_take-IsInRegion nb s.accum_offset (length xs) range.1 inside in
    let s1 = route nb (x ∷ take m xs) s in
    let len : length (drop m xs) ≤ fuel = omega (arith, length-drop m xs) in
    let block : length (take m xs) ≡ m = omega (arith, length-take m xs) in
    let acc = route_accum nb (x ∷ take m xs) s (ground arith) in
    let same = ap node_bytes (route_depth nb (x ∷ take m xs) s) in
    feed_stream_round fuel r s x m xs e
    ∙ after_round-after_block fuel r nb s1 (drop m xs) range.1 (sym same) (ground arith)
        (λ t p. feed_stream-feed_bytes fuel r t (drop m xs) p len)
    ∙ ap some (
        sym (feed_bytes-block r nb s x (take m xs) (drop m xs) refl range.1 (rw block region))
        ∙ ap (λ t. feed_bytes r s (x ∷ t)) (take-drop m xs))
