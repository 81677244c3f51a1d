-- ===== src/Legacy/Tests.antt =====
-- The theorems about the archived handlers at concrete inputs.
use zknox_hw_falcon.Common.{
  ℕ, ◌+◌, ◌≤◌, ◌<◌, ◌≡◌, ◌≢◌, ◌⊎◌, refl, Bytes, [], ◌∷◌, length, take, drop, replicate, true,
  length-replicate, length-drop, arith, some, inl, if◌then◌else◌,
}
use zknox_hw_falcon.LowRam.Toy.{replicate-IsBytes}
use zknox_hw_falcon.Common.Apdu.{Buffer, Response, send_sw, send_response, swo_success}
use zknox_hw_falcon.Legacy.Outsourced.{
  Outsourced, cxo_ok, cxo_tag_fail, cx_outsourced_write, cx_outsourced_read,
  cx_outsourced_read_split, cx_outsourced_init, apply_keystream, compute_tag,
}
use zknox_hw_falcon.Legacy.OutsourcedLaws.{cx_outsourced_read-write, cx_outsourced_read_split_iff}
use zknox_hw_falcon.Legacy.State.{
  SignCtx, l0_right_dfs, l0_wait_z0z1_s0, l0_wait_z0z1_s1, l0_sig_ready, dfs_logn,
}
use zknox_hw_falcon.Legacy.Level0.{zero_sctx, do_compute_s1_and_check, swap_target}
use zknox_hw_falcon.Legacy.Stream.{feed_stream, subtree_done, node_bytes}
use zknox_hw_falcon.Legacy.StreamBytes.{feed_bytes}
use zknox_hw_falcon.Legacy.StreamBlocks.{feed_stream-feed_bytes, take-drop}
use zknox_hw_falcon.Legacy.Sign.{handler_falcon_sign, feed_msg, compute_hm}
use zknox_hw_falcon.Common.Memory.{write_bytes}
use zknox_hw_falcon.Legacy.Overrun.{copied}
use zknox_hw_falcon.Legacy.Swap.{feed_swap, swap_plain, swap_plain_end}
use zknox_hw_falcon.Legacy.Tree.{tree_end, ff_tree}
use zknox_hw_falcon.Legacy.Half.{feed_requests, feed_requests-tree, request_of}
use zknox_hw_falcon.Legacy.Sizes.{half_sizes}
use zknox_hw_falcon.Legacy.Ends.{handler_falcon_sign-ends}
use zknox_hw_falcon.Legacy.Session.{IsNext, handler_falcon_sign-IsNext}
use zknox_hw_falcon.Legacy.Reach.{SignReach, here, next, IsBound, session_binds, valid_after_check}
use zknox_hw_falcon.Legacy.HostSignature.{sig_from, verdict, swap_requests, signature_from_host}
use zknox_hw_falcon.Legacy.Overwrite.{nonce_place, feed_swap-nonce}
use zknox_hw_falcon.Legacy.Toy.{
  toy_reference, toy-IsHash, toy_globals, toy_tree, toy_tree-IsFull, toy_in, toy_records,
}

abbrev toy_ctx : Outsourced
toy_ctx = cx_outsourced_init toy_reference.shake256 (replicate 32 0)

cx_outsourced_read-write_example :
    cx_outsourced_read toy_reference.shake256 toy_ctx 8192
      (cx_outsourced_write toy_reference.shake256 toy_ctx 8192 (1 ∷ 2 ∷ 255 ∷ []))
      3
      []
    ≡ (cxo_ok, 1 ∷ 2 ∷ 255 ∷ [])
cx_outsourced_read-write_example =
    cx_outsourced_read-write toy_reference.shake256 toy_ctx 8192 (1 ∷ 2 ∷ 255 ∷ []) [] toy-IsHash
      (omega arith, (omega arith, (omega arith, tt)))

cx_outsourced_read_split_iff_example :
    let r = cx_outsourced_read_split toy_reference.shake256 toy_ctx 0 (1 ∷ []) (replicate 16 8) in
    let good = compute_tag toy_reference.shake256 toy_ctx.mac_key (1 ∷ []) 0 in
    ((r ≡ (cxo_ok, apply_keystream toy_reference.shake256 toy_ctx.tree_key (1 ∷ []) 0))
      × (replicate 16 8 ≡ good))
    ⊎ ((r ≡ (cxo_tag_fail, 1 ∷ [])) × (replicate 16 8 ≢ good))
cx_outsourced_read_split_iff_example =
    cx_outsourced_read_split_iff toy_reference.shake256 toy_ctx 0 (1 ∷ []) (replicate 16 8)
      toy-IsHash (replicate-IsBytes 16 8 (omega arith)) refl

feed_stream-feed_bytes_example :
    feed_stream 3 toy_reference (toy_in l0_right_dfs) (1 ∷ 2 ∷ 3 ∷ [])
    ≡ some (feed_bytes toy_reference (toy_in l0_right_dfs) (1 ∷ 2 ∷ 3 ∷ []))
unfolding zero_sctx node_bytes
feed_stream-feed_bytes_example =
    feed_stream-feed_bytes 3 toy_reference (toy_in l0_right_dfs) (1 ∷ 2 ∷ 3 ∷ []) (omega arith)
      (omega arith)

half_sizes_example :
    (length toy_records ≡ 57328) × (tree_end 8192 (toy_tree dfs_logn) ≡ 8192 + 40960)
half_sizes_example =
    half_sizes toy_reference.shake256 (toy_in l0_right_dfs).outsourced 8192 (toy_tree dfs_logn)
      toy-IsHash (toy_tree-IsFull dfs_logn) (omega arith)

rest_nonempty : 0 < length (drop 255 toy_records)
rest_nonempty =
    let sizes =
      half_sizes toy_reference.shake256 (toy_in l0_right_dfs).outsourced 8192 (toy_tree dfs_logn)
        toy-IsHash (toy_tree-IsFull dfs_logn) (omega arith) in
    omega (arith, length-drop 255 toy_records, sizes.0)

feed_requests-tree_example :
    let walked : SignCtx =
      record (ff_tree toy_reference 0 (toy_tree dfs_logn) (toy_in l0_right_dfs)) {
        done = 1;
        accum_offset = 0;
      } in
    (feed_requests toy_reference
        (take 255 toy_records)
        (drop 255 toy_records ∷ [])
        (toy_in l0_right_dfs)
      ≡ some (subtree_done toy_reference walked))
    × ((subtree_done toy_reference walked).1 ≡ send_response (1 ∷ []) swo_success)
unfolding zero_sctx
feed_requests-tree_example =
    feed_requests-tree toy_reference (toy_tree dfs_logn) (take 255 toy_records)
      (drop 255 toy_records ∷ []) (toy_in l0_right_dfs) toy-IsHash (toy_tree-IsFull dfs_logn)
      (inl refl) refl refl rest_nonempty (take-drop 255 toy_records)

-- FEED_MSG with 32 bytes.
abbrev toy_message : Buffer
toy_message = request_of (replicate 32 1)

handler_falcon_sign-ends_example :
    (t : SignCtx) × (resp : Response) × (handler_falcon_sign toy_reference toy_globals []
        toy_message 6 0 zero_sctx
      ≡ some (t, resp))
unfolding zero_sctx
handler_falcon_sign-ends_example =
    handler_falcon_sign-ends toy_reference toy_globals [] toy_message 6 0 zero_sctx (omega arith)

handler_falcon_sign-IsNext_example :
    IsNext toy_reference zero_sctx (record zero_sctx { msg = replicate 32 1; msg_set = 1 })
unfolding zero_sctx handler_falcon_sign feed_msg
handler_falcon_sign-IsNext_example =
    handler_falcon_sign-IsNext toy_reference toy_globals [] toy_message 6 0 zero_sctx
      (record zero_sctx { msg = replicate 32 1; msg_set = 1 }) (send_sw swo_success) (omega arith)
      (λ k. absurd (omega arith)) refl

-- The nonce and the message are set.
abbrev toy_set : SignCtx
toy_set = record zero_sctx { nonce_set = 1; msg_set = 1 }

abbrev toy_hashed : SignCtx
toy_hashed = record toy_set { hm_sig = replicate 1024 6; hm_done = 1 }

session_binds_example : IsBound toy_reference toy_set toy_hashed
unfolding zero_sctx handler_falcon_sign compute_hm
session_binds_example =
    session_binds toy_reference toy_globals toy_set toy_hashed (omega arith) (omega arith) (
      next here [] (request_of []) 7 0x80 (send_sw swo_success) (omega arith)
        (λ k. absurd (omega arith)) refl)

toy_target :
    (tgt : ℕ)
    → swap_target l0_wait_z0z1_s1 ≡ some tgt
    → tgt + (toy_in l0_wait_z0z1_s1).accum_offset + 0 ≤ 24576
unfolding swap_target zero_sctx
toy_target tgt e = let z : tgt ≡ 0 = ground arith in omega arith

-- A context whose last phase is complete but for its last, empty request.
abbrev toy_last : SignCtx
toy_last = toy_in l0_wait_z0z1_s1

abbrev toy_valid : SignCtx
toy_valid =
    record ((do_compute_s1_and_check toy_reference toy_globals
      (record toy_last { stk = write_bytes toy_last.stk 0 []; accum_offset = 0 })).0) {
        sig_valid = 1;
        l0_phase = l0_sig_ready;
      }

valid_after_check_example :
    (u v : SignCtx) × SignReach toy_reference toy_globals toy_last u
    × SignReach toy_reference toy_globals toy_last v
    × (u.l0_phase ≡ l0_wait_z0z1_s1)
    × (toy_reference.is_short_half v.sqn_saved v.hm_sig 10 ≡ true)
unfolding zero_sctx handler_falcon_sign feed_swap swap_target swap_plain swap_plain_end copied
    do_compute_s1_and_check
valid_after_check_example =
    valid_after_check toy_reference toy_globals toy_last toy_valid refl
      (next here [] (request_of []) 4 1 (send_response (1 ∷ []) swo_success) (omega arith)
        (λ _ _. toy_target) refl)
      (omega arith)

abbrev toy_z : Bytes
toy_z = replicate 16384 1

signature_from_host_example :
    (u t : SignCtx) × (resp : Response) × (swap_requests toy_reference toy_globals [] toy_z
        (toy_in l0_wait_z0z1_s0)
      ≡ some (u, send_sw swo_success))
    × (swap_requests toy_reference toy_globals [] toy_z u ≡ some (t, resp))
    × (t.hm_sig ≡ sig_from toy_reference toy_globals toy_z)
    × (t.sig_valid ≡ (
        if verdict toy_reference toy_globals
          (toy_in l0_wait_z0z1_s0).hm_sig
          toy_z
          (sig_from toy_reference toy_globals toy_z)
        then 1
        else 0))
    × (t.l0_phase ≡ l0_sig_ready)
unfolding zero_sctx
signature_from_host_example =
    signature_from_host toy_reference toy_globals [] [] toy_z toy_z (toy_in l0_wait_z0z1_s0) refl
      refl (length-replicate {A = ℕ} 16384 1) (length-replicate {A = ℕ} 16384 1)

-- A transfer that has come to the nonce.
abbrev toy_far : SignCtx
toy_far = record (toy_in l0_wait_z0z1_s0) {
  accum_offset = nonce_place;
  nonce = replicate 40 1;
  nonce_set = 1;
}

feed_swap-nonce_example :
    (t : SignCtx) × (feed_swap toy_reference toy_globals (request_of (replicate 40 2)) 0 toy_far
      ≡ some (t, send_sw swo_success))
    × (t.nonce ≡ replicate 40 2)
unfolding zero_sctx
feed_swap-nonce_example =
    feed_swap-nonce toy_reference toy_globals (replicate 40 2) toy_far (inl refl) refl
      (length-replicate {A = ℕ} 40 1) (length-replicate {A = ℕ} 40 2)
