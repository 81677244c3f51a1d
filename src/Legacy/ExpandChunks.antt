-- ===== src/Legacy/ExpandChunks.antt =====
-- GET_NEXT_R of legacy/src/handler/handler_falcon_keygen_expand.c, request after request.
use zknox_hw_falcon.Common.{
  ℕ, zero, suc, ◌+◌, ◌-◌, ◌*◌, ◌≤◌, ◌<◌, ◌≡◌, ◌⊎◌, refl, sym, ap, ap₂, Bytes, [], ◌++◌, leb, ltb,
  true, false, arith, inl, inr, ◌∙◌, if◌then◌else◌,
}
use zknox_hw_falcon.Common.Memory.{read_bytes, read_bytes-append, read_bytes-zero}
use zknox_hw_falcon.Common.Apdu.{Response}
use zknox_hw_falcon.Legacy.State.{Reference}
use zknox_hw_falcon.Legacy.Half.{request_of}
use zknox_hw_falcon.Legacy.Expand.{
  KePhase, ke_walk_right, ke_walk_left, Expander, slot_bytes, walker_step,
}
use zknox_hw_falcon.Legacy.ExpandRequests.{set_shipped, ship, get_next_r}

-- GET_NEXT_R requests one after the other, and the bytes of their responses.
unfoldable pub get_many : Reference → ℕ → Expander → Bytes × Expander
get_many r zero x = ([], x)
get_many r (suc n) x =
    let a = get_next_r r (request_of []) 0 x in
    let rest = get_many r n a.0 in (a.1.data_out ++ rest.0, rest.1)

-- The phases in which GET_NEXT_R answers.
abbrev pub IsShipping : KePhase → Type 0
IsShipping p = (p ≡ ke_walk_right) ⊎ (p ≡ ke_walk_left)

-- A request while the record is not all shipped.
pub next_chunk :
    (r : Reference) (x : Expander)
    → IsShipping x.kctx.phase
    → x.kctx.node_shipped < x.kctx.node_len
    → get_next_r r (request_of []) 0 x ≡ ship 1 x
unfolding get_next_r
next_chunk r x (inl e) more =
    let part : leb x.kctx.node_len x.kctx.node_shipped ≡ false = ground arith in simp (e, part) refl
next_chunk r x (inr e) more =
    let part : leb x.kctx.node_len x.kctx.node_shipped ≡ false = ground arith in simp (e, part) refl

-- The request after a record is shipped makes the next one.
pub next_record :
    (r : Reference) (x : Expander)
    → x.kctx.phase ≡ ke_walk_right
    → x.kctx.node_len ≤ x.kctx.node_shipped
    → get_next_r r (request_of []) 0 x ≡ ship 1 (set_shipped 0 (walker_step r 1 3 ke_walk_left x))
unfolding get_next_r
next_record r x e all =
    let whole : leb x.kctx.node_len x.kctx.node_shipped ≡ true = ground arith in
    simp (e, whole) refl

-- The rest of a record, in as many requests as it has chunks.
pub rest_chunks :
    (r : Reference) (n : ℕ) (x : Expander)
    → IsShipping x.kctx.phase
    → x.kctx.node_shipped ≤ x.kctx.node_len
    → x.kctx.node_len - x.kctx.node_shipped ≤ 255 * n
    → 255 * n < x.kctx.node_len - x.kctx.node_shipped + 255
    → get_many r n x ≡ (
      read_bytes x.zknox.area
          (slot_bytes + x.kctx.node_shipped)
          (x.kctx.node_len - x.kctx.node_shipped),
      set_shipped x.kctx.node_len x,
    )
unfolding get_many ship
rest_chunks r zero x phase le enough tight =
    let none_left : x.kctx.node_len - x.kctx.node_shipped ≡ 0 = omega arith in
    let all : x.kctx.node_shipped ≡ x.kctx.node_len = omega arith in
    ap₂ (λ (b : Bytes) (m : ℕ). (b, set_shipped m x))
      (sym (
          read_bytes-zero x.zknox.area (slot_bytes + x.kctx.node_shipped) 0
            (λ i p q. absurd (omega arith)))
        ∙ ap (λ (k : ℕ). read_bytes x.zknox.area (slot_bytes + x.kctx.node_shipped) k)
            (sym none_left))
      all
rest_chunks r (suc n) x phase le enough tight =
    let area = x.zknox.area in
    let sh = x.kctx.node_shipped in
    let len = x.kctx.node_len in
    let more : sh < len = omega arith in
    let chunk = if ltb 255 (len - sh) then 255 else len - sh in
    let fits : chunk ≤ len - sh = ground arith in
    let here : slot_bytes + (sh + chunk) ≡ slot_bytes + sh + chunk = omega arith in
    let size : len - (sh + chunk) ≡ (len - sh) - chunk = omega arith in
    let whole : chunk + ((len - sh) - chunk) ≡ len - sh = omega arith in
    ap
      (λ (a : Expander × Response). let rest = get_many r n a.0 in (a.1.data_out ++ rest.0, rest.1))
      (next_chunk r x phase more)
    ∙ ap (λ (rest : Bytes × Expander). (read_bytes area (slot_bytes + sh) chunk ++ rest.0, rest.1))
        (rest_chunks r n (set_shipped (sh + chunk) x) phase (ground arith) (ground arith)
          (ground arith))
    ∙ ap (λ (b : Bytes). (b, set_shipped len x))
        (ap₂ (λ (p q : ℕ). read_bytes area (slot_bytes + sh) chunk ++ read_bytes area p q) here size
          ∙ sym (read_bytes-append area (slot_bytes + sh) chunk ((len - sh) - chunk))
          ∙ ap (λ (k : ℕ). read_bytes area (slot_bytes + sh) k) whole)
