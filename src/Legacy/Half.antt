-- ===== src/Legacy/Half.antt =====
-- A half of the tree that the host sends in requests of any sizes
-- (legacy/src/handler/handler_falcon_sign.c, FEED_TREE_STREAM).
use zknox_hw_falcon.Common.{
  ◌+◌, ◌*◌, ◌<◌, ◌≡◌, ◌⊎◌, sym, ap, subst, Bytes, List, [], ◌∷◌, ◌++◌, length, take, Option, some,
  none, arith, ◌∙◌, take-all, length-append, length-take,
}
use mathlib.Core.List.{append-nil}
use zknox_hw_falcon.Common.Apdu.{Buffer, Response, send_response, swo_success}
use zknox_hw_falcon.Legacy.OutsourcedLaws.{IsHash}
use zknox_hw_falcon.Legacy.State.{
  Reference, SignCtx, Phase, l0_right_dfs, l0_left_dfs, dfs_logn, node_mac_len,
}
use zknox_hw_falcon.Legacy.Dfs.{dfs_bubble}
use zknox_hw_falcon.Legacy.Stream.{
  node_bytes, subtree_done, feed_stream, feed_tree_stream, cdata_bytes,
}
use zknox_hw_falcon.Legacy.StreamBytes.{feed_bytes, node_bytes-range}
use zknox_hw_falcon.Legacy.StreamBlocks.{feed_stream-feed_bytes}
use zknox_hw_falcon.Legacy.StreamSplit.{feed_bytes-split}
use zknox_hw_falcon.Legacy.Tree.{Tree, IsFull, tree_records, ff_tree, resume}
use zknox_hw_falcon.Legacy.TreeWalk.{feed_bytes-tree, ff_tree-IsKept}

-- The buffer of a request that carries these bytes.
abbrev pub request_of : Bytes → Buffer
request_of c = record { ptr = c; size = length c; offset = 0 }

-- FEED_TREE_STREAM requests one after the other, and the last response.
unfoldable pub feed_requests :
    Reference → Bytes → List Bytes → SignCtx → Option (SignCtx × Response)
feed_requests r c [] s = feed_tree_stream r (request_of c) s
feed_requests r c (d ∷ ds) s = elim (feed_tree_stream r (request_of c) s) [
  | none ↦ none
  | some (t, resp) ↦ feed_requests r d ds t
]

-- The bytes of the requests, with at least one byte in the last of them.
abbrev pub joined : Bytes → List Bytes → Bytes
joined c [] = c
joined c (d ∷ ds) = c ++ joined d ds

abbrev pub IsNonempty : Bytes → List Bytes → Type 0
IsNonempty c [] = 0 < length c
IsNonempty c (d ∷ ds) = IsNonempty d ds

abbrev pub IsWalkingIn : Phase → Type 0
IsWalkingIn p = (p ≡ l0_right_dfs) ⊎ (p ≡ l0_left_dfs)

-- A half of the tree is being read.
abbrev pub IsWalking : SignCtx → Type 0
IsWalking s = IsWalkingIn s.l0_phase

walking_runs :
    (r : Reference) (buf : Buffer) (s : SignCtx)
    → IsWalking s
    → feed_tree_stream r buf s ≡ feed_stream (2 * buf.size + 1) r s (cdata_bytes buf)
unfolding feed_tree_stream
walking_runs r buf s walking = ground arith

request_runs :
    (r : Reference) (c : Bytes) (s : SignCtx)
    → IsWalking s
    → s.accum_offset < node_bytes s.depth + node_mac_len
    → feed_tree_stream r (request_of c) s ≡ some (feed_bytes r s c)
unfolding feed_tree_stream
request_runs r c s walking inside =
    let run =
      feed_stream-feed_bytes (2 * length c + 1) r s (take (length c) c) inside
        (omega (arith, length-take (length c) c)) in
    walking_runs r (request_of c) s walking
    ∙ run
    ∙ ap (λ b. some (feed_bytes r s b)) (take-all (length c) c (omega arith))

joined-length : (c : Bytes) (cs : List Bytes) → IsNonempty c cs → 0 < length (joined c cs)
joined-length c [] h = h
joined-length c (d ∷ ds) h = omega (arith, joined-length d ds h, length-append c (joined d ds))

-- However the bytes are cut into requests, the last one gives the answer that one request would.
requests_join :
    (r : Reference) (c : Bytes) (cs : List Bytes) (s t : SignCtx) (resp : Response)
    → IsWalking s
    → s.accum_offset < node_bytes s.depth + node_mac_len
    → IsNonempty c cs
    → feed_bytes r s (joined c cs) ≡ (t, resp)
    → resp.data_out ≡ 1 ∷ []
    → feed_requests r c cs s ≡ some (t, resp)
unfolding feed_requests
requests_join r c [] s t resp walking inside h e ok = request_runs r c s walking inside ∙ ap some e
requests_join r c (d ∷ ds) s t resp walking inside h e ok =
    let (s1, p, q, i, ph) =
      feed_bytes-split r s t c (joined d ds) resp inside (joined-length d ds h) e ok in
    rw (feed_requests, request_runs r c s walking inside ∙ ap some p)
      (requests_join r d ds s1 t resp (subst IsWalkingIn (sym ph) walking) i h q ok)

-- The response is the byte 1 in either phase.
done-reply :
    (r : Reference) (s : SignCtx)
    → IsWalking s
    → (subtree_done r s).1 ≡ send_response (1 ∷ []) swo_success
unfolding subtree_done
done-reply r s walking = ground arith

-- A full tree of nine levels whose nodes the device sealed at consecutive offsets, sent in
-- requests of any sizes of which the last is not empty, is accepted whole while a half is read:
-- every loop ends, the walk leaves exactly what the recursion over the tree leaves, and the last
-- response tells the host that the half is complete.
pub feed_requests-tree :
    (r : Reference) (t : Tree) (c : Bytes) (cs : List Bytes) (s : SignCtx)
    → IsHash r.shake256
    → IsFull dfs_logn t
    → IsWalking s
    → s.depth ≡ 0
    → s.accum_offset ≡ 0
    → IsNonempty c cs
    → joined c cs ≡ tree_records r.shake256 s.outsourced s.tree_byte_offset t
    → let walked = record (ff_tree r 0 t s) { done = 1; accum_offset = 0 } in
      (feed_requests r c cs s ≡ some (subtree_done r walked))
      × ((subtree_done r walked).1 ≡ send_response (1 ∷ []) swo_success)
unfolding resume dfs_bubble
feed_requests-tree r t c cs s hash full walking top begins h e =
    let walked : SignCtx = record (ff_tree r 0 t s) { done = 1; accum_offset = 0 } in
    let kept = ff_tree-IsKept r 0 t s in
    let still : IsWalking walked = subst IsWalkingIn (sym kept.same_phase) walking in
    let one = feed_bytes-tree r dfs_logn 0 t s [] hash full (omega arith) top begins in
    (
      requests_join r c cs s (subtree_done r walked).0 (subtree_done r walked).1 walking
          (omega (arith, node_bytes-range s.depth)) h
          (rw (e, ← append-nil (tree_records r.shake256 s.outsourced s.tree_byte_offset t)) one)
          (ap (λ (x : Response). x.data_out) (done-reply r walked still)),
      done-reply r walked still,
    )
