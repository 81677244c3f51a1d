-- ===== src/Legacy/Stream.antt =====
-- FEED_TREE_STREAM of legacy/src/handler/handler_falcon_sign.c: the records of one half of the
-- tree, verified and decrypted one by one and fed to the walk.
use zknox_hw_falcon.Common.{
  ℕ, zero, suc, ◌+◌, ◌-◌, ◌*◌, ◌%◌, ◌^◌, Bytes, [], ◌∷◌, length, take, drop, Option, some, none,
  true, false, ◌==◌, ltb, leb, if◌then◌else◌,
}
use zknox_hw_falcon.Common.Memory.{write_bytes, read_bytes}
use zknox_hw_falcon.Common.Apdu.{
  Buffer, Response, send_sw, send_response, swo_success, swo_incorrect_data,
}
use zknox_hw_falcon.Legacy.Outsourced.{cxo_ok, cx_outsourced_read_split}
use zknox_hw_falcon.Legacy.State.{
  Reference, SignCtx, l0_right_dfs, l0_left_dfs, l0_export_z1, l0_export_z0, dfs_logn, node_mac_len,
}
use zknox_hw_falcon.Legacy.Dfs.{psz, dfs_feed}
use zknox_hw_falcon.Legacy.Level0.{do_merge}

-- A value of type `size_t`, of 32 bits.
abbrev pub size_t : ℕ → ℕ
size_t n = n % 2 ^ 32

-- `SWO_TREE_MAC_FAIL`, which the status words do not define
abbrev pub swo_tree_mac_fail : ℕ
swo_tree_mac_fail = swo_incorrect_data

-- `node_bytes`
unfoldable pub node_bytes : ℕ → ℕ
node_bytes dep = if leb dfs_logn dep then 8 else psz dep * 8

-- `take` of a round of either loop, where the region of the ciphertext has `ct` bytes.
unfoldable pub round_take : ℕ → ℕ → ℕ → ℕ
round_take ct accum remaining =
    let need =
      if ltb accum ct then ct - accum else size_t (node_mac_len + 2 ^ 32 - size_t (accum - ct)) in
    if ltb remaining need then remaining else need

-- The bytes of a round of FEED_TREE_STREAM go into `ws` or into `tag_buf`.
unfoldable pub route : ℕ → Bytes → SignCtx → SignCtx
route nb src s =
    let s1 =
      if ltb s.accum_offset nb
      then record s { ws = write_bytes s.ws s.accum_offset src }
      else record s { tag_buf = write_bytes s.tag_buf (s.accum_offset - nb) src } in
    record s1 { accum_offset = size_t (s.accum_offset + length src) }

-- The half that is complete is merged, and the host is told.
unfoldable pub subtree_done : Reference → SignCtx → SignCtx × Response
subtree_done r s =
    let s1 = do_merge r s in
    elim s.l0_phase [
      | l0_right_dfs ↦ (record s1 { l0_phase = l0_export_z1 }, send_response (1 ∷ []) swo_success)
      | _ ↦ (record s1 { l0_phase = l0_export_z0 }, send_response (1 ∷ []) swo_success)
    ]

-- A verified node, in place of its ciphertext in `ws`, is fed to the walk.
unfoldable pub feed_node : Reference → ℕ → Bytes → SignCtx → SignCtx × ℕ
feed_node r nb pt s =
    let s1 = record s {
      ws = write_bytes s.ws 0 pt;
      tree_byte_offset = size_t (s.tree_byte_offset + nb);
    } in
    let fed = dfs_feed r (read_bytes s1.ws 0 nb) s1 in (record fed.0 { accum_offset = 0 }, fed.1)

-- A full record: verified, decrypted and fed. The response, if the handler ends here; `remaining`
-- bytes of the APDU are left.
unfoldable pub whole_record : Reference → ℕ → ℕ → SignCtx → SignCtx × Option Response
whole_record r nb remaining s =
    let read =
      cx_outsourced_read_split r.shake256 s.outsourced s.tree_byte_offset (read_bytes s.ws 0 nb)
        (read_bytes s.tag_buf 0 node_mac_len) in
    elim read.0 [
      | cxo_ok ↦
          let fed = feed_node r nb read.1 s in
          if fed.1 == 1
          then (if ltb 0 remaining
              then (fed.0, some (send_sw swo_incorrect_data))
              else let d = subtree_done r fed.0 in (d.0, some d.1))
          else (fed.0, none)
      | _ ↦ (s, some (send_sw swo_tree_mac_fail))
    ]

-- The `while (remaining > 0)` loop of FEED_TREE_STREAM over the bytes left, on fuel, and its
-- response; none when the fuel is spent.
unfoldable pub feed_stream : ℕ → Reference → SignCtx → Bytes → Option (SignCtx × Response)
feed_stream fuel r s [] = some (s, send_sw swo_success)
feed_stream zero r s (x ∷ xs) = none
feed_stream (suc fuel) r s (x ∷ xs) =
    let nb = node_bytes s.depth in
    let n = round_take nb s.accum_offset (length (x ∷ xs)) in
    let s1 = route nb (take n (x ∷ xs)) s in
    let rest = drop n (x ∷ xs) in
    let full = whole_record r nb (length rest) s1 in
    elim (ltb 4096 nb) [
      | true ↦ some (s, send_sw swo_incorrect_data)
      | false ↦ elim (s1.accum_offset == size_t (nb + node_mac_len)) [
        | true ↦ elim full.1 [
          | none ↦ feed_stream fuel r full.0 rest
          | some resp ↦ some (full.0, resp)
        ]
        | false ↦ feed_stream fuel r s1 rest
      ]
    ]

-- The bytes of an APDU.
abbrev pub cdata_bytes : Buffer → Bytes
cdata_bytes buf = take buf.size buf.ptr

-- FEED_TREE_STREAM (P1 = 0x03)
unfoldable pub feed_tree_stream : Reference → Buffer → SignCtx → Option (SignCtx × Response)
feed_tree_stream r buf s =
    let run = feed_stream (2 * buf.size + 1) r s (cdata_bytes buf) in
    elim s.l0_phase [
      | l0_right_dfs ↦ run
      | l0_left_dfs ↦ run
      | _ ↦ some (s, send_sw swo_incorrect_data)
    ]
