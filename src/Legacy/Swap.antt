-- ===== src/Legacy/Swap.antt =====
-- FEED_SWAP of legacy/src/handler/handler_falcon_sign.c: the root L0 of the tree, authenticated, and
-- the plaintext polynomials, whose copies can run over the end of `stk`.
use zknox_hw_falcon.Common.{
  ℕ, zero, suc, ◌+◌, ◌-◌, ◌*◌, Bytes, [], ◌∷◌, length, take, drop, Option, some, none, Bool, true,
  false, ◌==◌, ltb, leb, if◌then◌else◌,
}
use zknox_hw_falcon.Common.Memory.{write_bytes, read_bytes}
use zknox_hw_falcon.Common.Apdu.{
  Buffer, Response, send_sw, send_response, swo_success, swo_incorrect_data,
}
use zknox_hw_falcon.Legacy.Outsourced.{cxo_ok, cx_outsourced_read_split}
use zknox_hw_falcon.Legacy.State.{
  Reference, Globals, SignCtx, Phase, l0_wait_l0, l0_wait_l0_ar, l0_wait_t1, l0_right_dfs,
  l0_left_dfs, l0_wait_z0z1_s0, l0_wait_z0z1_s1, l0_sig_ready, flogn, fn, node_mac_len, load_fpr,
  store_fpr,
}
use zknox_hw_falcon.Legacy.Level0.{
  do_level0_enter, do_after_right, do_compute_s0_sqn, do_compute_s1_and_check, swap_target,
}
use zknox_hw_falcon.Legacy.Overrun.{copied}
use zknox_hw_falcon.Legacy.Stream.{size_t, swo_tree_mac_fail, round_take, cdata_bytes}

-- The `while` loop of the authenticated phases of FEED_SWAP, on fuel: the bytes go to `tgt` in
-- `stk` or into `tag_buf`; whether the record was overrun, or none when the fuel is spent.
unfoldable pub swap_stream : ℕ → ℕ → SignCtx → Bytes → Option (SignCtx × Bool)
swap_stream fuel tgt s [] = some (s, false)
swap_stream zero tgt s (x ∷ xs) = none
swap_stream (suc fuel) tgt s (x ∷ xs) =
    let ct = 8 * fn in
    let n = round_take ct s.accum_offset (length (x ∷ xs)) in
    let src = take n (x ∷ xs) in
    let next = record s { accum_offset = size_t (s.accum_offset + n) } in
    elim (ltb s.accum_offset ct) [
      | true ↦
          swap_stream fuel tgt (record next { stk = write_bytes s.stk (tgt + s.accum_offset) src })
            (drop n (x ∷ xs))
      | false ↦ elim (leb node_mac_len (s.accum_offset - ct)) [
        | true ↦ some (s, true)
        | false ↦
            swap_stream fuel tgt
              (record next { tag_buf = write_bytes s.tag_buf (s.accum_offset - ct) src })
              (drop n (x ∷ xs))
      ]
    ]

-- The end of an authenticated phase: L0 is verified and decrypted in place.
unfoldable pub swap_l0 : Reference → Globals → ℕ → SignCtx → SignCtx × Response
swap_l0 r g tgt s =
    let read =
      cx_outsourced_read_split r.shake256 s.outsourced 0 (read_bytes s.stk tgt (8 * fn))
        (read_bytes s.tag_buf 0 node_mac_len) in
    let s1 = record s { stk = write_bytes s.stk tgt read.1; accum_offset = 0 } in
    let first = do_level0_enter r s1 in
    let second = do_after_right r g s1 in
    elim read.0 [
      | cxo_ok ↦ elim s.l0_phase [
        | l0_wait_l0 ↦ (
          record first { tree_byte_offset = 8 * fn; l0_phase = l0_right_dfs },
          send_sw swo_success,
        )
        | _ ↦ (record second { l0_phase = l0_left_dfs }, send_sw swo_success)
      ]
      | _ ↦ (s, send_sw swo_tree_mac_fail)
    ]

-- The end of a plaintext phase.
unfoldable pub swap_plain_end : Reference → Globals → SignCtx → SignCtx × Response
swap_plain_end r g s =
    let diff = r.poly_sub flogn (load_fpr s.stk fn fn) (load_fpr s.stk 0 fn) in
    let last = do_compute_s1_and_check r g s in
    let ok = if last.1 then 1 else 0 in
    elim s.l0_phase [
      | l0_wait_t1 ↦ (
        record s { stk = store_fpr s.stk fn diff; l0_phase = l0_wait_l0_ar },
        send_sw swo_success,
      )
      | l0_wait_z0z1_s0 ↦
          (record (do_compute_s0_sqn r g s) { l0_phase = l0_wait_z0z1_s1 }, send_sw swo_success)
      | l0_wait_z0z1_s1 ↦ (
        record last.0 { sig_valid = ok; l0_phase = l0_sig_ready },
        send_response (ok ∷ []) swo_success,
      )
      | _ ↦ (s, send_sw swo_incorrect_data)
    ]

-- The authenticated phases of FEED_SWAP.
unfoldable pub swap_auth :
    Reference → Globals → Buffer → ℕ → ℕ → SignCtx → Option (SignCtx × Response)
swap_auth r g buf p2 tgt s = elim (swap_stream (buf.size + 1) tgt s (cdata_bytes buf)) [
  | none ↦ none
  | some (s1, overrun) ↦ some (
      if overrun
      then (s1, send_sw swo_incorrect_data)
      else if p2 == 0
      then (s1, send_sw swo_success)
      else if s1.accum_offset == 8 * fn + node_mac_len
      then swap_l0 r g tgt s1
      else (s1, send_sw swo_incorrect_data))
]

-- The plaintext phases of FEED_SWAP.
unfoldable pub swap_plain : Reference → Globals → Buffer → ℕ → ℕ → SignCtx → SignCtx × Response
swap_plain r g buf p2 tgt s =
    let s1 = copied (tgt + s.accum_offset) (cdata_bytes buf) s in
    if p2 == 0
    then (record s1 { accum_offset = size_t (s1.accum_offset + buf.size) }, send_sw swo_success)
    else swap_plain_end r g (record s1 { accum_offset = 0 })

-- `auth`: L0 is expected.
abbrev pub is_auth : Phase → Bool
is_auth l0_wait_l0 = true
is_auth l0_wait_l0_ar = true
is_auth _ = false

-- FEED_SWAP (P1 = 0x04)
unfoldable pub feed_swap : Reference → Globals → Buffer → ℕ → SignCtx → Option (SignCtx × Response)
feed_swap r g buf p2 s = elim (swap_target s.l0_phase) [
  | none ↦ some (s, send_sw swo_incorrect_data)
  | some tgt ↦
      if is_auth s.l0_phase then swap_auth r g buf p2 tgt s else some (swap_plain r g buf p2 tgt s)
]
