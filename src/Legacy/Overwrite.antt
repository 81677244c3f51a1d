-- ===== src/Legacy/Overwrite.antt =====
-- A plaintext FEED_SWAP that runs over the end of `stk`
-- (legacy/src/handler/handler_falcon_sign.c).
use zknox_hw_falcon.Common.{ℕ, ◌+◌, ◌≡◌, ap, Bytes, length, some, leb, false, arith, ◌∙◌, take-all}
use zknox_hw_falcon.Common.Memory.{read-write_all}
use zknox_hw_falcon.Common.Apdu.{send_sw, swo_success}
use zknox_hw_falcon.Legacy.State.{Reference, Globals, SignCtx}
use zknox_hw_falcon.Legacy.Stream.{cdata_bytes}
use zknox_hw_falcon.Legacy.Overrun.{stk_bytes, copied, spill, overlay}
use zknox_hw_falcon.Legacy.Swap.{swap_plain, feed_swap}
use zknox_hw_falcon.Legacy.Half.{request_of}
use zknox_hw_falcon.Legacy.HostSignature.{IsExpecting, plain_request}

-- The nonce is 31824 bytes behind the start of `stk`.
abbrev pub nonce_place : ℕ
nonce_place = 31824

nonce_copied :
    (b : Bytes) (s : SignCtx)
    → length b ≡ 40
    → length s.nonce ≡ 40
    → (copied nonce_place b s).nonce ≡ b
unfolding copied spill overlay
nonce_copied b s size old =
    let over : leb (nonce_place + length b) stk_bytes ≡ false = ground arith in
    rw over (read-write_all _ 7248 b (length s.nonce) (omega arith))

-- A FEED_SWAP with P2 = 0 in a phase that expects z0 and z1 has no bound: when the transfer has come
-- to the place of the nonce behind `stk`, a request with any 40 bytes is answered 0x9000 and makes
-- them the nonce, whether or not one is set.
pub feed_swap-nonce :
    (r : Reference) (g : Globals) (b : Bytes) (s : SignCtx)
    → IsExpecting s.l0_phase
    → s.accum_offset ≡ nonce_place
    → length s.nonce ≡ 40
    → length b ≡ 40
    → (t : SignCtx) × (feed_swap r g (request_of b) 0 s ≡ some (t, send_sw swo_success))
      × (t.nonce ≡ b)
unfolding swap_plain
feed_swap-nonce r g b s expecting there old size =
    let whole = take-all (length b) b (omega arith) in
    let z : 0 + s.accum_offset ≡ nonce_place = omega arith in
    (
      (swap_plain r g (request_of b) 0 0 s).0,
      plain_request r g b 0 s expecting,
      ap (λ (k : ℕ). (copied k (cdata_bytes (request_of b)) s).nonce) z
          ∙ ap (λ (x : Bytes). (copied nonce_place x s).nonce) whole
          ∙ nonce_copied b s size old,
    )
