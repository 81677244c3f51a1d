-- ===== src/Legacy/Sign.antt =====
-- `handler_falcon_sign` of legacy/src/handler/handler_falcon_sign.c.
use zknox_hw_falcon.Common.{
  ℕ, ◌-◌, ◌*◌, Bytes, ◌++◌, take, drop, le16_bytes, Option, some, ◌==◌, ◌||◌, not, ltb, leb,
  if◌then◌else◌,
}
use zknox_hw_falcon.Common.Apdu.{
  Buffer, Response, send_sw, send_response, swo_success, swo_incorrect_data, swo_incorrect_p1_p2,
  swo_wrong_data_length, swo_invalid_ins,
}
use zknox_hw_falcon.Legacy.Outsourced.{cx_outsourced_init}
use zknox_hw_falcon.Legacy.State.{
  Reference, Globals, SignCtx, l0_wait_l0, l0_wait_l0_ar, l0_export_z1, l0_export_z0,
  l0_wait_z0z1_s0, flogn, fn, load_fpr, store_fpr,
}
use zknox_hw_falcon.Legacy.Level0.{neg_fft_of_key, target_t0, target_t1, zero_sctx}
use zknox_hw_falcon.Legacy.Stream.{feed_tree_stream}
use zknox_hw_falcon.Legacy.Swap.{feed_swap}

-- FEED_MSG (P1 = 0x06)
unfoldable pub feed_msg : Buffer → ℕ → SignCtx → SignCtx × Response
feed_msg buf p2 s =
    if not (p2 == 0)
    then (s, send_sw swo_incorrect_p1_p2)
    else if not (s.msg_set == 0)
    then (s, send_sw swo_incorrect_data)
    else if not (buf.size == 32)
    then (s, send_sw swo_wrong_data_length)
    else (record s { msg = take 32 buf.ptr; msg_set = 1 }, send_sw swo_success)

-- COMPUTE_HM (P1 = 0x07)
unfoldable pub compute_hm : Reference → ℕ → SignCtx → SignCtx × Response
compute_hm r p2 s =
    if not (p2 == 0x80)
    then (s, send_sw swo_incorrect_p1_p2)
    else if s.nonce_set == 0 || s.msg_set == 0
    then (s, send_sw swo_incorrect_data)
    else (
      record s { hm_sig = r.hash_to_point_vartime (s.nonce ++ s.msg) flogn; hm_done = 1 },
      send_sw swo_success,
    )

-- FEED_NONCE_HOST (P1 = 0x08)
unfoldable pub feed_nonce_host : Buffer → ℕ → SignCtx → SignCtx × Response
feed_nonce_host buf p2 s =
    if not (p2 == 0)
    then (s, send_sw swo_incorrect_p1_p2)
    else if not (s.nonce_set == 0)
    then (s, send_sw swo_incorrect_data)
    else if not (buf.size == 40)
    then (s, send_sw swo_wrong_data_length)
    else (record s { nonce = take 40 buf.ptr; nonce_set = 1 }, send_sw swo_success)

-- GEN_NONCE_DEVICE (P1 = 0x09), where `rng` is what `cx_rng_no_throw` gives
unfoldable pub gen_nonce_device : Bytes → Buffer → ℕ → SignCtx → SignCtx × Response
gen_nonce_device rng buf p2 s =
    if not (p2 == 0)
    then (s, send_sw swo_incorrect_p1_p2)
    else if not (s.nonce_set == 0)
    then (s, send_sw swo_incorrect_data)
    else if not (buf.size == 0)
    then (s, send_sw swo_wrong_data_length)
    else (record s { nonce = take 40 rng; nonce_set = 1 }, send_sw swo_success)

-- GET_NONCE (P1 = 0x91)
unfoldable pub get_nonce : ℕ → SignCtx → SignCtx × Response
get_nonce p2 s =
    if not (p2 == 0)
    then (s, send_sw swo_incorrect_p1_p2)
    else if s.nonce_set == 0
    then (s, send_sw swo_incorrect_data)
    else (s, send_response s.nonce swo_success)

-- COMPUTE_TARGET (P1 = 0x02)
unfoldable pub compute_target : Reference → Globals → ℕ → SignCtx → SignCtx × Response
compute_target r g p2 s =
    let t0 = target_t0 r g s.hm_sig in
    let t1 = target_t1 r g s.hm_sig in
    let buf = neg_fft_of_key r g.falcon_cap_f in
    if not (p2 == 0x80)
    then (s, send_sw swo_incorrect_p1_p2)
    else if s.hm_done == 0
    then (s, send_sw swo_incorrect_data)
    else (
      record s {
        stk = store_fpr (store_fpr (store_fpr s.stk 0 t0) fn t1) (2 * fn) buf;
        sc = record {
          p = r.prng_init (g.falcon_seed ++ le16_bytes s.hm_sig);
          sigma_min = r.fpr_sigma_min_10;
        };
        outsourced = cx_outsourced_init r.shake256 g.falcon_seed;
        tree_byte_offset = 0;
        phase = 2;
        l0_phase = l0_wait_l0;
        accum_offset = 0;
      },
      send_sw swo_success,
    )

-- A 255-byte chunk of an array of `total` bytes.
unfoldable pub chunk : Bytes → ℕ → ℕ → Bytes
chunk b total off = take (if ltb 255 (total - off) then 255 else total - off) (drop off b)

-- GET_SWAP (P1 = 0x05)
unfoldable pub get_swap : Reference → Globals → ℕ → SignCtx → SignCtx × Response
get_swap r g p2 s =
    let off = p2 * 255 in
    let total = 8 * fn in
    let t1 = target_t1 r g s.hm_sig in
    let diff = r.poly_sub flogn t1 (load_fpr s.stk 0 fn) in
    let stk1 = store_fpr (store_fpr s.stk (2 * fn) (neg_fft_of_key r g.falcon_f)) fn diff in
    let reply : SignCtx × Response =
      (s, send_response (chunk (load_fpr s.stk 0 fn) total off) swo_success) in
    elim s.l0_phase [
      | l0_export_z1 ↦
          if leb total off
          then (
            record s { stk = stk1; l0_phase = l0_wait_l0_ar; accum_offset = 0 },
            send_sw swo_success,
          )
          else reply
      | l0_export_z0 ↦
          if leb total off
          then (record s { l0_phase = l0_wait_z0z1_s0; accum_offset = 0 }, send_sw swo_success)
          else reply
      | _ ↦ (s, send_sw swo_incorrect_data)
    ]

-- GET_SIG (P1 = 0x90)
unfoldable pub get_sig : ℕ → SignCtx → SignCtx × Response
get_sig p2 s =
    let off = p2 * 255 in
    if s.sig_valid == 0
    then (s, send_sw swo_incorrect_data)
    else if leb (2 * fn) off
    then (s, send_sw swo_incorrect_p1_p2)
    else (s, send_response (chunk (le16_bytes s.hm_sig) (2 * fn) off) swo_success)

-- `handler_falcon_sign(cdata, p1, p2)`, with what the generator gives at this request; none while
-- a loop is still running.
unfoldable pub handler_falcon_sign :
    Reference → Globals → Bytes → Buffer → ℕ → ℕ → SignCtx → Option (SignCtx × Response)
handler_falcon_sign r g rng buf p1 p2 s =
    if p1 == 0x00
    then some (zero_sctx, send_sw swo_success)
    else if p1 == 0x01
    then some (s, send_sw swo_invalid_ins)
    else if p1 == 0x06
    then some (feed_msg buf p2 s)
    else if p1 == 0x07
    then some (compute_hm r p2 s)
    else if p1 == 0x08
    then some (feed_nonce_host buf p2 s)
    else if p1 == 0x09
    then some (gen_nonce_device rng buf p2 s)
    else if p1 == 0x91
    then some (get_nonce p2 s)
    else if p1 == 0x02
    then some (compute_target r g p2 s)
    else if p1 == 0x03
    then feed_tree_stream r buf s
    else if p1 == 0x04
    then feed_swap r g buf p2 s
    else if p1 == 0x05
    then some (get_swap r g p2 s)
    else if p1 == 0x90
    then some (get_sig p2 s)
    else some (s, send_sw swo_incorrect_p1_p2)
