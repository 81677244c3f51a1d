-- ===== src/Legacy/StreamSplit.antt =====
-- Bytes that arrive in two requests instead of one (legacy/src/handler/handler_falcon_sign.c,
-- FEED_TREE_STREAM).
use zknox_hw_falcon.Common.{
  ℕ, zero, suc, ◌+◌, ◌-◌, ◌<◌, ◌≡◌, refl, sym, ap, subst, Bytes, [], ◌∷◌, ◌++◌, length, take, true,
  false, Option, some, none, ◌==◌, ltb, leb, arith, Bool-cases, Option-cases, inl, inr, ◌∙◌,
  length-append,
}
use zknox_hw_falcon.Common.Memory.{read_bytes}
use zknox_hw_falcon.Common.Apdu.{Response, send_sw, swo_success}
use zknox_hw_falcon.Legacy.Outsourced.{cx_outsourced_read_split}
use zknox_hw_falcon.Legacy.State.{Reference, SignCtx, dfs_logn, node_mac_len}
use zknox_hw_falcon.Legacy.Dfs.{
  split_children, dfs_feed, dfs_enter, dfs_after_right, dfs_after_left, sample_leaf, dfs_bubble,
}
use zknox_hw_falcon.Legacy.Stream.{node_bytes, route, whole_record, feed_node}
use zknox_hw_falcon.Legacy.StreamBytes.{feed_bytes, node_bytes-range, route_accum, route_depth}
use zknox_hw_falcon.Legacy.StreamBlocks.{whole_record-begins}

after_left-phase :
    (r : Reference) (d : ℕ) (s : SignCtx) → (dfs_after_left r d s).l0_phase ≡ s.l0_phase
unfolding dfs_after_left
after_left-phase r d s = elim (Bool-cases (d == 0)) [ inl e ↦ simp e refl | inr e ↦ simp e refl ]

bubble-phase : (r : Reference) (d : ℕ) (s : SignCtx) → (dfs_bubble r d s).0.l0_phase ≡ s.l0_phase
unfolding dfs_bubble dfs_after_right split_children
bubble-phase r zero s = refl
bubble-phase r (suc d) s = elim (Bool-cases (s.child_phase d == 0)) [
  | inl e ↦ simp e refl
  | inr e ↦ simp e (bubble-phase r d (dfs_after_left r d s) ∙ after_left-phase r d s)
]

feed-phase : (r : Reference) (b : Bytes) (s : SignCtx) → (dfs_feed r b s).0.l0_phase ≡ s.l0_phase
unfolding dfs_feed sample_leaf dfs_enter split_children
feed-phase r b s = elim (Bool-cases (leb dfs_logn s.depth)) [
  | inl e ↦ simp e (bubble-phase r s.depth (sample_leaf r s.depth (take 8 b) s))
  | inr e ↦ simp e refl
]

route-phase : (nb : ℕ) (src : Bytes) (s : SignCtx) → (route nb src s).l0_phase ≡ s.l0_phase
unfolding route
route-phase nb src s = elim (Bool-cases (ltb s.accum_offset nb)) [
  | inl a ↦ simp a refl
  | inr a ↦ simp a refl
]

node-phase :
    (r : Reference) (nb : ℕ) (pt : Bytes) (s : SignCtx)
    → (feed_node r nb pt s).0.l0_phase ≡ s.l0_phase
unfolding feed_node
node-phase r nb pt s = feed-phase r _ _

-- A record that does not end the request is read the same however many bytes follow.
record_same :
    (r : Reference) (nb k j : ℕ) (s : SignCtx)
    → (whole_record r nb k s).1 ≡ none
    → whole_record r nb j s ≡ whole_record r nb k s
unfolding whole_record
record_same r nb k j s h = ground arith

record-phase :
    (r : Reference) (nb k : ℕ) (s : SignCtx)
    → (whole_record r nb k s).1 ≡ none
    → (whole_record r nb k s).0.l0_phase ≡ s.l0_phase
unfolding whole_record
record-phase r nb k s h = ground (
  arith,
  node-phase r nb
      (cx_outsourced_read_split r.shake256 s.outsourced s.tree_byte_offset (read_bytes s.ws 0 nb)
        (read_bytes s.tag_buf 0 node_mac_len)).1
      s,
)

-- One that ends it while bytes follow is refused.
record_refuses :
    (r : Reference) (nb k : ℕ) (s : SignCtx) (resp : Response)
    → (whole_record r nb (suc k) s).1 ≡ some resp
    → resp.data_out ≡ []
unfolding whole_record
record_refuses r nb k s resp h = ground arith

-- The three ways of a byte.
byte_partial :
    (r : Reference) (s : SignCtx) (x : ℕ) (xs : Bytes)
    → let nb = node_bytes s.depth in
      ((route nb (x ∷ []) s).accum_offset == nb + node_mac_len) ≡ false
      → feed_bytes r s (x ∷ xs) ≡ feed_bytes r (route nb (x ∷ []) s) xs
unfolding feed_bytes
byte_partial r s x xs e = rw e refl

byte_record :
    (r : Reference) (s : SignCtx) (x : ℕ) (xs : Bytes)
    → let nb = node_bytes s.depth in
      ((route nb (x ∷ []) s).accum_offset == nb + node_mac_len) ≡ true
      → let full = whole_record r nb (length xs) (route nb (x ∷ []) s) in
        full.1 ≡ none → feed_bytes r s (x ∷ xs) ≡ feed_bytes r full.0 xs
unfolding feed_bytes
byte_record r s x xs e h = rw (feed_bytes, e, h) refl

byte_ends :
    (r : Reference) (s : SignCtx) (x : ℕ) (xs : Bytes) (resp : Response)
    → let nb = node_bytes s.depth in
      ((route nb (x ∷ []) s).accum_offset == nb + node_mac_len) ≡ true
      → let full = whole_record r nb (length xs) (route nb (x ∷ []) s) in
        full.1 ≡ some resp → feed_bytes r s (x ∷ xs) ≡ (full.0, resp)
unfolding feed_bytes
byte_ends r s x xs resp e h = rw (feed_bytes, e, h) refl

refused-ne_done :
    (r : Reference) (nb k n : ℕ) (s : SignCtx) (resp : Response)
    → n ≡ suc k
    → (whole_record r nb n s).1 ≡ some resp
    → resp.data_out ≡ 1 ∷ []
    → ⊥
refused-ne_done r nb k n s resp e h d =
    let empty =
      record_refuses r nb k s resp (subst (λ (m : ℕ). (whole_record r nb m s).1 ≡ some resp) e h) in
    let len : length resp.data_out ≡ 1 = ap length d in
    let none_out : length resp.data_out ≡ 0 = ap length empty in omega arith

-- A final answer that the bytes of two requests would give together is given by the second one.
pub feed_bytes-split :
    (r : Reference) (s t : SignCtx) (xs rest : Bytes) (resp : Response)
    → s.accum_offset < node_bytes s.depth + node_mac_len
    → 0 < length rest
    → feed_bytes r s (xs ++ rest) ≡ (t, resp)
    → resp.data_out ≡ 1 ∷ []
    → (s1 : SignCtx) × (feed_bytes r s xs ≡ (s1, send_sw swo_success))
      × (feed_bytes r s1 rest ≡ (t, resp))
      × (s1.accum_offset < node_bytes s1.depth + node_mac_len)
      × (s1.l0_phase ≡ s.l0_phase)
unfolding feed_bytes
feed_bytes-split r s t [] rest resp inside more e ok = (s, refl, e, inside, refl)
feed_bytes-split r s t (x ∷ xs) rest resp inside more e ok =
    let nb = node_bytes s.depth in
    let range = node_bytes-range s.depth in
    let s1 = route nb (x ∷ []) s in
    let acc = route_accum nb (x ∷ []) s (omega arith) in
    let deep = route_depth nb (x ∷ []) s in
    let phase = route-phase nb (x ∷ []) s in
    elim (Bool-cases (s1.accum_offset == nb + node_mac_len)) [
      | inl full ↦ elim (Option-cases (whole_record r nb (length (xs ++ rest)) s1).1) [
        | inl goes_on ↦
            let u = (whole_record r nb (length (xs ++ rest)) s1).0 in
            let same = record_same r nb (length (xs ++ rest)) (length xs) s1 goes_on in
            let none_yet = ap (λ (f : SignCtx × Option Response). f.1) same ∙ goes_on in
            let begins = whole_record-begins r nb (length (xs ++ rest)) s1 goes_on in
            let (s2, p, q, i, ph) =
              feed_bytes-split r u t xs rest resp (omega (arith, node_bytes-range u.depth)) more
                (sym (byte_record r s x (xs ++ rest) full goes_on) ∙ e) ok in
            (
              s2,
              byte_record r s x xs full none_yet
                  ∙ ap (λ (f : SignCtx × Option Response). feed_bytes r f.0 xs) same
                  ∙ p,
              q,
              i,
              ph ∙ record-phase r nb (length (xs ++ rest)) s1 goes_on ∙ phase,
            )
        | inr (resp1, ends) ↦
            let same =
              ap (λ (f : SignCtx × Response). f.1.data_out)
                (sym (byte_ends r s x (xs ++ rest) resp1 full ends) ∙ e) in
            absurd (
              refused-ne_done r nb (length (xs ++ rest) - 1) (length (xs ++ rest)) s1 resp1
                (omega (arith, length-append xs rest)) ends (same ∙ ok))
      ]
      | inr partial ↦
          let (s2, p, q, i, ph) =
            feed_bytes-split r s1 t xs rest resp (ground arith) more
              (sym (byte_partial r s x (xs ++ rest) partial) ∙ e) ok in
          (s2, byte_partial r s x xs partial ∙ p, q, i, ph ∙ phase)
    ]
