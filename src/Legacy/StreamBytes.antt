-- ===== src/Legacy/StreamBytes.antt =====
-- FEED_TREE_STREAM byte by byte, and that its blocks do the same
-- (legacy/src/handler/handler_falcon_sign.c).
use zknox_hw_falcon.Common.{
  ℕ, zero, suc, ◌+◌, ◌-◌, ◌^◌, ◌≤◌, ◌<◌, ◌≡◌, ◌⊎◌, inl, inr, refl, ap, ap₂, ◌∙◌, sym, Bytes, [],
  ◌∷◌, ◌++◌, length, some, none, true, false, ◌==◌, ltb, if◌then◌else◌, arith, Bool-cases,
}
use zknox_hw_falcon.Common.Memory.{write_bytes, write_bytes-cons}
use zknox_hw_falcon.Common.Apdu.{Response, send_sw, swo_success}
use zknox_hw_falcon.Legacy.State.{Reference, SignCtx, node_mac_len}
use zknox_hw_falcon.Legacy.Stream.{size_t, node_bytes, route, whole_record}

-- What follows a block: a full record is verified and fed, and the next bytes are read.
-- Byte by byte: each byte goes where `route` puts it, and a full record is verified and fed.
unfoldable pub feed_bytes : Reference → SignCtx → Bytes → SignCtx × Response
feed_bytes r s [] = (s, send_sw swo_success)
feed_bytes r s (x ∷ xs) =
    let nb = node_bytes s.depth in
    let s1 = route nb (x ∷ []) s in
    let full = whole_record r nb (length xs) s1 in
    if s1.accum_offset == nb + node_mac_len
    then (elim full.1 [ none ↦ feed_bytes r full.0 xs | some resp ↦ (full.0, resp) ])
    else feed_bytes r s1 xs

-- The same after a block.
unfoldable pub after_block : Reference → ℕ → SignCtx → Bytes → SignCtx × Response
after_block r nb s rest =
    let full = whole_record r nb (length rest) s in
    if s.accum_offset == nb + node_mac_len
    then (elim full.1 [ none ↦ feed_bytes r full.0 rest | some resp ↦ (full.0, resp) ])
    else feed_bytes r s rest

pub node_bytes-range : (d : ℕ) → (8 ≤ node_bytes d) × (node_bytes d ≤ 4096)
unfolding node_bytes
node_bytes-range zero = (omega arith, omega arith)
node_bytes-range (suc zero) = (omega arith, omega arith)
node_bytes-range (suc (suc zero)) = (omega arith, omega arith)
node_bytes-range (suc (suc (suc zero))) = (omega arith, omega arith)
node_bytes-range (suc (suc (suc (suc zero)))) = (omega arith, omega arith)
node_bytes-range (suc (suc (suc (suc (suc zero))))) = (omega arith, omega arith)
node_bytes-range (suc (suc (suc (suc (suc (suc zero)))))) = (omega arith, omega arith)
node_bytes-range (suc (suc (suc (suc (suc (suc (suc zero))))))) = (omega arith, omega arith)
node_bytes-range (suc (suc (suc (suc (suc (suc (suc (suc zero)))))))) = (omega arith, omega arith)
node_bytes-range (suc (suc (suc (suc (suc (suc (suc (suc (suc d))))))))) = ground arith

-- A block of the ciphertext region.
pub route-ct :
    (nb : ℕ) (src : Bytes) (s : SignCtx)
    → s.accum_offset < nb
    → s.accum_offset + length src < 2 ^ 32
    → route nb src s ≡ record s {
      ws = write_bytes s.ws s.accum_offset src;
      accum_offset = s.accum_offset + length src;
    }
unfolding route
route-ct nb src s h small =
    let a : ltb s.accum_offset nb ≡ true = ground arith in
    let b : size_t (s.accum_offset + length src) ≡ s.accum_offset + length src = omega arith in
    simp (a, b) refl

-- A block of the tag region.
pub route_tag :
    (nb : ℕ) (src : Bytes) (s : SignCtx)
    → nb ≤ s.accum_offset
    → s.accum_offset + length src < 2 ^ 32
    → route nb src s ≡ record s {
      tag_buf = write_bytes s.tag_buf (s.accum_offset - nb) src;
      accum_offset = s.accum_offset + length src;
    }
unfolding route
route_tag nb src s h small =
    let a : ltb s.accum_offset nb ≡ false = ground arith in
    let b : size_t (s.accum_offset + length src) ≡ s.accum_offset + length src = omega arith in
    simp (a, b) refl

-- A block that stays in one region.
abbrev pub IsInRegion : ℕ → ℕ → ℕ → Type 0
IsInRegion nb accum n =
    (accum < nb) × (accum + n ≤ nb) ⊎ (nb ≤ accum) × (accum + n ≤ nb + node_mac_len)

-- Bytes are routed one after the other or together.
route-route :
    (nb x y : ℕ) (ys : Bytes) (s : SignCtx)
    → nb ≤ 4096
    → IsInRegion nb s.accum_offset (suc (suc (length ys)))
    → route nb (y ∷ ys) (route nb (x ∷ []) s) ≡ route nb (x ∷ y ∷ ys) s
route-route nb x y ys s le (inl (p, q)) =
    rw (route-ct nb (x ∷ []) s p (omega arith), route-ct nb (x ∷ y ∷ ys) s p (omega arith))
      (route-ct nb (y ∷ ys) _ (omega arith) (omega arith)
        ∙ ap₂ (λ m (a : ℕ). record s { ws = m; accum_offset = a })
            (write_bytes-cons s.ws s.accum_offset x (y ∷ ys)) (omega arith))
route-route nb x y ys s le (inr (p, q)) =
    let e : s.accum_offset + 1 - nb ≡ s.accum_offset - nb + 1 = omega arith in
    rw (route_tag nb (x ∷ []) s p (omega arith), route_tag nb (x ∷ y ∷ ys) s p (omega arith))
      (route_tag nb (y ∷ ys) _ (omega arith) (omega arith)
        ∙ ap₂ (λ m (a : ℕ). record s { tag_buf = m; accum_offset = a })
            (rw e (write_bytes-cons s.tag_buf (s.accum_offset - nb) x (y ∷ ys))) (omega arith))

pub route_accum :
    (nb : ℕ) (src : Bytes) (s : SignCtx)
    → s.accum_offset + length src < 2 ^ 32
    → (route nb src s).accum_offset ≡ s.accum_offset + length src
unfolding route
route_accum nb src s h = omega arith

pub route_depth : (nb : ℕ) (src : Bytes) (s : SignCtx) → (route nb src s).depth ≡ s.depth
unfolding route
route_depth nb src s = elim (Bool-cases (ltb s.accum_offset nb)) [
  | inl a ↦ simp a refl
  | inr a ↦ simp a refl
]

-- The bytes of a block, one by one.
pub feed_bytes-block :
    (r : Reference) (nb : ℕ) (s : SignCtx) (x : ℕ) (ys rest : Bytes)
    → nb ≡ node_bytes s.depth
    → nb ≤ 4096
    → IsInRegion nb s.accum_offset (suc (length ys))
    → feed_bytes r s (x ∷ ys ++ rest) ≡ after_block r nb (route nb (x ∷ ys) s) rest
unfolding feed_bytes after_block
feed_bytes-block r nb s x [] rest e le h =
    ap (λ (d : ℕ). after_block r d (route d (x ∷ []) s) rest) (sym e)
feed_bytes-block r nb s x (y ∷ ys) rest e le h =
    let d = node_bytes s.depth in
    let a : (route d (x ∷ []) s).accum_offset ≡ s.accum_offset + 1 =
      route_accum d (x ∷ []) s (ground arith) in
    let n : ((route d (x ∷ []) s).accum_offset == d + node_mac_len) ≡ false = ground arith in
    rw n (
      feed_bytes-block r d (route d (x ∷ []) s) y ys rest
        (ap node_bytes (sym (route_depth d (x ∷ []) s))) (ground arith) (ground arith)
      ∙ ap (λ t. after_block r d t rest) (route-route d x y ys s (ground arith) (ground arith)))
    ∙ ap (λ (k : ℕ). after_block r k (route k (x ∷ y ∷ ys) s) rest) (sym e)
