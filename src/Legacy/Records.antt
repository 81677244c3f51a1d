-- ===== src/Legacy/Records.antt =====
-- One record of a node, from its bytes to the walk (legacy/src/handler/handler_falcon_sign.c).
use zknox_hw_falcon.Common.{
  ℕ, ◌+◌, ◌-◌, ◌<◌, ◌≡◌, refl, ap, ap₂, Bytes, [], ◌∷◌, ◌++◌, length, true, false, Option, some,
  none, ◌==◌, ltb, if◌then◌else◌, arith, IsBytes, Bool-cases, inl, inr, ◌∙◌,
}
use mathlib.Core.List.{append_assoc}
use zknox_hw_falcon.Common.Memory.{
  Memory, write_bytes, read_bytes, write_bytes-write_bytes, read-write_all,
}
use zknox_hw_falcon.Common.Apdu.{Response, send_sw, swo_incorrect_data}
use zknox_hw_falcon.Legacy.Outsourced.{
  CxoErr, cxo_ok, cx_outsourced_write, cx_outsourced_read_split, apply_keystream, compute_tag,
}
use zknox_hw_falcon.Legacy.OutsourcedLaws.{
  IsHash, length-apply_keystream, apply_keystream_twice, ct_memeq_self,
}
use zknox_hw_falcon.Legacy.State.{Reference, SignCtx, node_mac_len}
use zknox_hw_falcon.Legacy.Dfs.{dfs_feed}
use zknox_hw_falcon.Legacy.Stream.{
  size_t, swo_tree_mac_fail, node_bytes, subtree_done, route, whole_record, feed_node,
}
use zknox_hw_falcon.Legacy.StreamBytes.{
  IsInRegion, feed_bytes, feed_bytes-block, after_block, route-ct, route_tag, node_bytes-range,
}
use zknox_hw_falcon.Legacy.Tree.{accept, resume}

-- A record that the device sealed is read back.
read_split-write :
    (r : Reference) (s : SignCtx) (pt : Bytes) (ws tag_buf : Memory)
    → IsHash r.shake256
    → IsBytes pt
    → let ct = apply_keystream r.shake256 s.outsourced.tree_key pt s.tree_byte_offset in
      let tag = compute_tag r.shake256 s.outsourced.mac_key ct s.tree_byte_offset in
      cx_outsourced_read_split r.shake256 s.outsourced s.tree_byte_offset
        (read_bytes (write_bytes ws 0 ct) 0 (length pt))
        (read_bytes (write_bytes tag_buf 0 tag) 0 node_mac_len)
      ≡ (cxo_ok, pt)
unfolding cx_outsourced_read_split compute_tag
read_split-write r s pt ws tag_buf hash hb =
    let ct = apply_keystream r.shake256 s.outsourced.tree_key pt s.tree_byte_offset in
    let tag = compute_tag r.shake256 s.outsourced.mac_key ct s.tree_byte_offset in
    let size : length tag ≡ node_mac_len = hash.size _ _ in
    rw
      (
        read-write_all ws 0 ct (length pt)
            (length-apply_keystream r.shake256 s.outsourced.tree_key pt s.tree_byte_offset),
        read-write_all tag_buf 0 tag node_mac_len size,
        ct_memeq_self tag node_mac_len,
        apply_keystream_twice r.shake256 s.outsourced.tree_key pt s.tree_byte_offset hash hb,
      )
      refl

-- What a verified and fed node gives.
fed_result : Reference → Bytes → SignCtx × ℕ → SignCtx × Option Response
fed_result r rest fed =
    if fed.1 == 1
    then (if ltb 0 (length rest)
        then (fed.0, some (send_sw swo_incorrect_data))
        else let d = subtree_done r fed.0 in (d.0, some d.1))
    else (fed.0, none)

-- The end of a full record, from what its verification gave.
after_read : Reference → SignCtx → Bytes → ℕ → CxoErr × Bytes → SignCtx × Response
after_read r s rest nb read =
    let full : SignCtx × Option Response = elim read.0 [
      | cxo_ok ↦ fed_result r rest (feed_node r nb read.1 s)
      | _ ↦ (s, some (send_sw swo_tree_mac_fail))
    ] in
    elim full.1 [ none ↦ feed_bytes r full.0 rest | some resp ↦ (full.0, resp) ]

reply : Reference → Bytes → SignCtx × Option Response → SignCtx × Response
reply r rest full = elim full.1 [ none ↦ feed_bytes r full.0 rest | some resp ↦ (full.0, resp) ]

reply-fed_result :
    (r : Reference) (rest : Bytes) (fed : SignCtx × ℕ)
    → reply r rest (fed_result r rest (record fed.0 { accum_offset = 0 }, fed.1))
      ≡ resume r fed rest
unfolding reply fed_result resume
reply-fed_result r rest fed = elim (Bool-cases (fed.1 == 1)) [
  | inl last ↦ elim (Bool-cases (ltb 0 (length rest))) [
    | inl more ↦ rw (last, more) refl
    | inr none_left ↦ rw (last, none_left) refl
  ]
  | inr goes_on ↦ rw goes_on refl
]

feed_node-accept :
    (r : Reference) (s : SignCtx) (pt : Bytes)
    → let ct = apply_keystream r.shake256 s.outsourced.tree_key pt s.tree_byte_offset in
      let tag = compute_tag r.shake256 s.outsourced.mac_key ct s.tree_byte_offset in
      let full : SignCtx = record s {
        ws = write_bytes s.ws 0 ct;
        tag_buf = write_bytes s.tag_buf 0 tag;
        accum_offset = length pt + node_mac_len;
      } in
      let fed = dfs_feed r pt (accept r pt s) in
      feed_node r (length pt) pt full ≡ (record fed.0 { accum_offset = 0 }, fed.1)
unfolding feed_node accept
feed_node-accept r s pt =
    let ct = apply_keystream r.shake256 s.outsourced.tree_key pt s.tree_byte_offset in
    let tag = compute_tag r.shake256 s.outsourced.mac_key ct s.tree_byte_offset in
    let over =
      write_bytes-write_bytes s.ws 0 ct pt
        (length-apply_keystream r.shake256 s.outsourced.tree_key pt s.tree_byte_offset) in
    let fed : Memory → Bytes → SignCtx × ℕ = λ m d. dfs_feed r d (record s {
      ws = m;
      tag_buf = write_bytes s.tag_buf 0 tag;
      accum_offset = length pt + node_mac_len;
      tree_byte_offset = size_t (s.tree_byte_offset + length pt);
    }) in
    ap₂ (λ m d. (record (fed m d).0 { accum_offset = 0 }, (fed m d).1)) over
      (ap (λ m. read_bytes m 0 (length pt)) over ∙ read-write_all s.ws 0 pt (length pt) refl)

-- A full record in the two buffers.
after_block-record :
    (r : Reference) (s : SignCtx) (pt rest : Bytes)
    → IsHash r.shake256
    → IsBytes pt
    → let ct = apply_keystream r.shake256 s.outsourced.tree_key pt s.tree_byte_offset in
      let tag = compute_tag r.shake256 s.outsourced.mac_key ct s.tree_byte_offset in
      let full : SignCtx = record s {
        ws = write_bytes s.ws 0 ct;
        tag_buf = write_bytes s.tag_buf 0 tag;
        accum_offset = length pt + node_mac_len;
      } in
      after_block r (length pt) full rest ≡ resume r (dfs_feed r pt (accept r pt s)) rest
unfolding after_block whole_record after_read reply fed_result
after_block-record r s pt rest hash hb =
    let ct = apply_keystream r.shake256 s.outsourced.tree_key pt s.tree_byte_offset in
    let tag = compute_tag r.shake256 s.outsourced.mac_key ct s.tree_byte_offset in
    let full : SignCtx = record s {
      ws = write_bytes s.ws 0 ct;
      tag_buf = write_bytes s.tag_buf 0 tag;
      accum_offset = length pt + node_mac_len;
    } in
    let is_full : (length pt + node_mac_len == length pt + node_mac_len) ≡ true = ground arith in
    rw is_full (
      ap (after_read r full rest (length pt)) (read_split-write r s pt s.ws s.tag_buf hash hb)
      ∙ ap (λ f. reply r rest (fed_result r rest f)) (feed_node-accept r s pt)
      ∙ reply-fed_result r rest (dfs_feed r pt (accept r pt s)))

-- A block of at least one byte.
feed_bytes_block :
    (r : Reference) (nb : ℕ) (s : SignCtx) (src rest : Bytes)
    → nb ≡ node_bytes s.depth
    → 0 < length src
    → IsInRegion nb s.accum_offset (length src)
    → feed_bytes r s (src ++ rest) ≡ after_block r nb (route nb src s) rest
feed_bytes_block r nb s [] rest e some_left h = absurd (omega arith)
feed_bytes_block r nb s (x ∷ xs) rest e some_left h =
    feed_bytes-block r nb s x xs rest e (omega (arith, node_bytes-range s.depth)) h

-- The ciphertext of a record fills `ws`.
ciphertext_block :
    (r : Reference) (s : SignCtx) (ct rest : Bytes)
    → length ct ≡ node_bytes s.depth
    → s.accum_offset ≡ 0
    → feed_bytes r s (ct ++ rest)
      ≡ feed_bytes r (record s { ws = write_bytes s.ws 0 ct; accum_offset = length ct }) rest
unfolding after_block
ciphertext_block r s ct rest e z =
    let range = node_bytes-range s.depth in
    let not_full : (length ct == length ct + node_mac_len) ≡ false = ground arith in
    let n : 0 + length ct ≡ length ct = omega arith in
    feed_bytes_block r (length ct) s ct rest e (omega arith) (inl (omega arith, omega arith))
    ∙ ap (λ t. after_block r (length ct) t rest)
        (route-ct (length ct) ct s (omega arith) (omega arith)
          ∙ ap (λ (k : ℕ). record s { ws = write_bytes s.ws k ct; accum_offset = k + length ct }) z)
    ∙ rw (n, not_full) refl

-- The tag of a record fills `tag_buf`.
tag_block :
    (r : Reference) (s : SignCtx) (nb : ℕ) (tag rest : Bytes)
    → length tag ≡ node_mac_len
    → nb ≡ node_bytes s.depth
    → s.accum_offset ≡ nb
    → feed_bytes r s (tag ++ rest)
      ≡ after_block r nb
          (record s { tag_buf = write_bytes s.tag_buf 0 tag; accum_offset = nb + node_mac_len })
          rest
tag_block r s nb tag rest e d z =
    let range = node_bytes-range s.depth in
    let n : s.accum_offset - nb ≡ 0 = omega arith in
    feed_bytes_block r nb s tag rest d (omega arith) (inr (omega arith, omega arith))
    ∙ ap (λ t. after_block r nb t rest)
        (route_tag nb tag s (omega arith) (omega arith)
          ∙ ap₂ (λ (k a : ℕ). record s { tag_buf = write_bytes s.tag_buf k tag; accum_offset = a })
              n (omega arith))

-- One record, sealed at the device's offset, is verified, decrypted and fed.
pub feed_bytes-record :
    (r : Reference) (s : SignCtx) (pt rest : Bytes)
    → IsHash r.shake256
    → IsBytes pt
    → length pt ≡ node_bytes s.depth
    → s.accum_offset ≡ 0
    → feed_bytes r s (cx_outsourced_write r.shake256 s.outsourced s.tree_byte_offset pt ++ rest)
      ≡ resume r (dfs_feed r pt (accept r pt s)) rest
unfolding cx_outsourced_write compute_tag
feed_bytes-record r s pt rest hash hb e z =
    let ct = apply_keystream r.shake256 s.outsourced.tree_key pt s.tree_byte_offset in
    let tag = compute_tag r.shake256 s.outsourced.mac_key ct s.tree_byte_offset in
    let len = length-apply_keystream r.shake256 s.outsourced.tree_key pt s.tree_byte_offset in
    rw (append_assoc ct tag rest) (
      ciphertext_block r s ct (tag ++ rest) (len ∙ e) z
      ∙ tag_block r (record s { ws = write_bytes s.ws 0 ct; accum_offset = length ct }) (length pt)
          tag rest (hash.size _ _) e len
      ∙ after_block-record r s pt rest hash hb)
