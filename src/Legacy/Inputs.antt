-- ===== src/Legacy/Inputs.antt =====
-- What the walk and the streams of legacy/src/handler/handler_falcon_sign.c leave alone: the
-- message, the nonce, the hash, the signature and its checks.
use zknox_hw_falcon.Common.{
  ℕ, zero, suc, ◌+◌, ◌-◌, ◌*◌, ◌≡◌, refl, List, Bytes, Bool, [], ◌∷◌, length, take, drop, some,
  ◌==◌, ltb, leb, arith, Bool-cases, Option-cases, inl, inr, ◌∙◌,
}
use zknox_hw_falcon.Common.Memory.{read_bytes, write_bytes}
use zknox_hw_falcon.Common.Apdu.{Buffer, Response}
use zknox_hw_falcon.Legacy.Outsourced.{cx_outsourced_read_split}
use zknox_hw_falcon.Legacy.State.{Reference, Globals, SignCtx, dfs_logn, node_mac_len, fn}
use zknox_hw_falcon.Legacy.Dfs.{
  split_children, dfs_feed, dfs_enter, dfs_after_right, dfs_after_left, sample_leaf, dfs_bubble,
}
use zknox_hw_falcon.Legacy.Level0.{start_dfs, do_level0_enter, do_after_right, do_merge}
use zknox_hw_falcon.Legacy.Stream.{
  size_t, node_bytes, round_take, subtree_done, route, whole_record, feed_node, feed_stream,
  feed_tree_stream, cdata_bytes,
}
use zknox_hw_falcon.Legacy.Swap.{swap_stream, swap_l0, swap_auth}

-- The fields that only the other requests set.
pub record Inputs : Type 0 where
  pub nonce : Bytes
  pub msg : Bytes
  pub nonce_set : ℕ
  pub msg_set : ℕ
  pub hm_done : ℕ
  pub sig_valid : ℕ
  pub sqn_saved : ℕ
  pub hm_sig : List ℕ

abbrev pub inputs : SignCtx → Inputs
inputs s = record {
  nonce = s.nonce;
  msg = s.msg;
  nonce_set = s.nonce_set;
  msg_set = s.msg_set;
  hm_done = s.hm_done;
  sig_valid = s.sig_valid;
  sqn_saved = s.sqn_saved;
  hm_sig = s.hm_sig;
}

inputs-after_left : (r : Reference) (d : ℕ) (s : SignCtx) → inputs (dfs_after_left r d s) ≡ inputs s
unfolding dfs_after_left
inputs-after_left r d s = elim (Bool-cases (d == 0)) [ inl e ↦ simp e refl | inr e ↦ simp e refl ]

inputs-bubble : (r : Reference) (d : ℕ) (s : SignCtx) → inputs (dfs_bubble r d s).0 ≡ inputs s
unfolding dfs_bubble dfs_after_right split_children
inputs-bubble r zero s = refl
inputs-bubble r (suc d) s = elim (Bool-cases (s.child_phase d == 0)) [
  | inl e ↦ simp e refl
  | inr e ↦ simp e (inputs-bubble r d (dfs_after_left r d s) ∙ inputs-after_left r d s)
]

inputs-feed : (r : Reference) (b : Bytes) (s : SignCtx) → inputs (dfs_feed r b s).0 ≡ inputs s
unfolding dfs_feed sample_leaf dfs_enter split_children
inputs-feed r b s = elim (Bool-cases (leb dfs_logn s.depth)) [
  | inl e ↦ simp e (inputs-bubble r s.depth (sample_leaf r s.depth (take 8 b) s))
  | inr e ↦ simp e refl
]

inputs-node :
    (r : Reference) (nb : ℕ) (pt : Bytes) (s : SignCtx) → inputs (feed_node r nb pt s).0 ≡ inputs s
unfolding feed_node
inputs-node r nb pt s = inputs-feed r _ _

inputs-route : (nb : ℕ) (src : Bytes) (s : SignCtx) → inputs (route nb src s) ≡ inputs s
unfolding route
inputs-route nb src s = elim (Bool-cases (ltb s.accum_offset nb)) [
  | inl a ↦ simp a refl
  | inr a ↦ simp a refl
]

inputs-done : (r : Reference) (s : SignCtx) → inputs (subtree_done r s).0 ≡ inputs s
unfolding subtree_done do_merge
inputs-done r s = ground arith

inputs-record :
    (r : Reference) (nb k : ℕ) (s : SignCtx) → inputs (whole_record r nb k s).0 ≡ inputs s
unfolding whole_record
inputs-record r nb k s =
    let read =
      cx_outsourced_read_split r.shake256 s.outsourced s.tree_byte_offset (read_bytes s.ws 0 nb)
        (read_bytes s.tag_buf 0 node_mac_len) in
    ground (arith, inputs-node r nb read.1 s, inputs-done r (feed_node r nb read.1 s).0)

inputs-stream :
    (fuel : ℕ) (r : Reference) (s t : SignCtx) (src : Bytes) (resp : Response)
    → feed_stream fuel r s src ≡ some (t, resp)
    → inputs t ≡ inputs s
unfolding feed_stream
inputs-stream zero r s t [] resp e = ground arith
inputs-stream (suc fuel) r s t [] resp e = ground arith
inputs-stream zero r s t (x ∷ xs) resp e = absurd (ground arith)
inputs-stream (suc fuel) r s t (x ∷ xs) resp e =
    let nb = node_bytes s.depth in
    let n = round_take nb s.accum_offset (length (x ∷ xs)) in
    let s1 = route nb (take n (x ∷ xs)) s in
    let rest = drop n (x ∷ xs) in
    let full = whole_record r nb (length rest) s1 in
    ground (
      arith,
      inputs-route nb (take n (x ∷ xs)) s,
      inputs-record r nb (length rest) s1,
      inputs-stream fuel r full.0 t rest resp,
      inputs-stream fuel r s1 t rest resp,
    )

pub inputs-tree_stream :
    (r : Reference) (buf : Buffer) (s t : SignCtx) (resp : Response)
    → feed_tree_stream r buf s ≡ some (t, resp)
    → inputs t ≡ inputs s
unfolding feed_tree_stream
inputs-tree_stream r buf s t resp e =
    ground (arith, inputs-stream (2 * buf.size + 1) r s t (cdata_bytes buf) resp)

inputs-enter : (r : Reference) (s : SignCtx) → inputs (do_level0_enter r s) ≡ inputs s
unfolding do_level0_enter start_dfs split_children
inputs-enter r s = refl

inputs-after_right :
    (r : Reference) (g : Globals) (s : SignCtx) → inputs (do_after_right r g s) ≡ inputs s
unfolding do_after_right start_dfs split_children
inputs-after_right r g s = refl

inputs-swap_stream :
    (fuel tgt : ℕ) (s t : SignCtx) (src : Bytes) (over : Bool)
    → swap_stream fuel tgt s src ≡ some (t, over)
    → inputs t ≡ inputs s
unfolding swap_stream
inputs-swap_stream zero tgt s t [] over e = ground arith
inputs-swap_stream (suc fuel) tgt s t [] over e = ground arith
inputs-swap_stream zero tgt s t (x ∷ xs) over e = absurd (ground arith)
inputs-swap_stream (suc fuel) tgt s t (x ∷ xs) over e =
    let n = round_take (8 * fn) s.accum_offset (length (x ∷ xs)) in
    let src = take n (x ∷ xs) in
    let next : SignCtx = record s { accum_offset = size_t (s.accum_offset + n) } in
    let to_stk : SignCtx = record next { stk = write_bytes s.stk (tgt + s.accum_offset) src } in
    let to_tag : SignCtx = record next {
      tag_buf = write_bytes s.tag_buf (s.accum_offset - 8 * fn) src;
    } in
    ground (
      arith,
      inputs-swap_stream fuel tgt to_stk t (drop n (x ∷ xs)) over,
      inputs-swap_stream fuel tgt to_tag t (drop n (x ∷ xs)) over,
    )

inputs-swap_l0 :
    (r : Reference) (g : Globals) (tgt : ℕ) (s : SignCtx) → inputs (swap_l0 r g tgt s).0 ≡ inputs s
unfolding swap_l0
inputs-swap_l0 r g tgt s =
    let read =
      cx_outsourced_read_split r.shake256 s.outsourced 0 (read_bytes s.stk tgt (8 * fn))
        (read_bytes s.tag_buf 0 node_mac_len) in
    let s1 : SignCtx = record s { stk = write_bytes s.stk tgt read.1; accum_offset = 0 } in
    ground (arith, inputs-enter r s1, inputs-after_right r g s1)

pub inputs-swap_auth :
    (r : Reference) (g : Globals) (buf : Buffer) (p2 tgt : ℕ) (s t : SignCtx) (resp : Response)
    → swap_auth r g buf p2 tgt s ≡ some (t, resp)
    → inputs t ≡ inputs s
unfolding swap_auth
inputs-swap_auth r g buf p2 tgt s t resp e =
    elim (Option-cases (swap_stream (buf.size + 1) tgt s (cdata_bytes buf))) [
      | inl never ↦ absurd (ground arith)
      | inr ((u, over), runs) ↦ ground (
        arith,
        inputs-swap_stream (buf.size + 1) tgt s u (cdata_bytes buf) over runs,
        inputs-swap_l0 r g tgt u,
      )
    ]
