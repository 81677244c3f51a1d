-- ===== src/Legacy/Session.antt =====
-- What one request can change, and what no sequence of them can
-- (legacy/src/handler/handler_falcon_sign.c).
use zknox_hw_falcon.Common.{
  ℕ, ◌+◌, ◌≤◌, ◌≡◌, ◌≢◌, false, length-take, ◌⊎◌, refl, sym, ap, subst, Bytes, ◌++◌, true, some,
  ◌==◌, arith, Bool-cases, Option-cases, inl, inr, ◌∙◌,
}
use zknox_hw_falcon.Common.Memory.{write_bytes}
use zknox_hw_falcon.Common.Apdu.{Buffer, Response, send_sw, swo_incorrect_data}
use zknox_hw_falcon.Legacy.State.{Reference, Globals, SignCtx, l0_wait_z0z1_s1, flogn}
use zknox_hw_falcon.Legacy.Level0.{do_compute_s0_sqn, do_compute_s1_and_check, swap_target}
use zknox_hw_falcon.Legacy.Stream.{cdata_bytes}
use zknox_hw_falcon.Legacy.Overrun.{stk_bytes, copied, copied_inside}
use zknox_hw_falcon.Legacy.Swap.{is_auth, swap_plain, swap_plain_end, swap_auth, feed_swap}
use zknox_hw_falcon.Legacy.Sign.{
  feed_msg, compute_hm, feed_nonce_host, gen_nonce_device, get_nonce, compute_target, get_swap,
  get_sig, handler_falcon_sign,
}
use zknox_hw_falcon.Legacy.Inputs.{Inputs, inputs, inputs-tree_stream, inputs-swap_auth}

-- What a request other than INIT does to the inputs and to the verdict.
pub record IsNext (r : Reference) (s t : SignCtx) : Type 0 where
  pub keeps_nonce : s.nonce_set ≢ 0 → (t.nonce ≡ s.nonce) × (t.nonce_set ≢ 0)
  pub keeps_msg : s.msg_set ≢ 0 → (t.msg ≡ s.msg) × (t.msg_set ≢ 0)
  pub hashed :
      t.hm_done ≢ 0
      → (s.hm_done ≢ 0)
        ⊎ (s.nonce_set ≢ 0)
          × (s.msg_set ≢ 0)
          × (t.hm_sig ≡ r.hash_to_point_vartime (t.nonce ++ t.msg) flogn)
  pub judged :
      t.sig_valid ≢ 0
      → (t.sig_valid ≡ s.sig_valid)
        ⊎ (s.l0_phase ≡ l0_wait_z0z1_s1) × (r.is_short_half t.sqn_saved t.hm_sig flogn ≡ true)

same-IsNext : (r : Reference) (s t : SignCtx) → inputs t ≡ inputs s → IsNext r s t
same-IsNext r s t e =
    let nonce = ap (λ (i : Inputs). i.nonce) e in
    let msg = ap (λ (i : Inputs). i.msg) e in
    let nonce_set = ap (λ (i : Inputs). i.nonce_set) e in
    let msg_set = ap (λ (i : Inputs). i.msg_set) e in
    let hm_done = ap (λ (i : Inputs). i.hm_done) e in
    let sig_valid = ap (λ (i : Inputs). i.sig_valid) e in ground arith

feed_msg-IsNext :
    (r : Reference) (buf : Buffer) (p2 : ℕ) (s : SignCtx) → IsNext r s (feed_msg buf p2 s).0
unfolding feed_msg
feed_msg-IsNext r buf p2 s = ground arith

compute_hm-IsNext : (r : Reference) (p2 : ℕ) (s : SignCtx) → IsNext r s (compute_hm r p2 s).0
unfolding compute_hm
compute_hm-IsNext r p2 s = ground arith

nonce_host-IsNext :
    (r : Reference) (buf : Buffer) (p2 : ℕ) (s : SignCtx) → IsNext r s (feed_nonce_host buf p2 s).0
unfolding feed_nonce_host
nonce_host-IsNext r buf p2 s = ground arith

nonce_device-IsNext :
    (r : Reference) (rng : Bytes) (buf : Buffer) (p2 : ℕ) (s : SignCtx)
    → IsNext r s (gen_nonce_device rng buf p2 s).0
unfolding gen_nonce_device
nonce_device-IsNext r rng buf p2 s = ground arith

compute_target-IsNext :
    (r : Reference) (g : Globals) (p2 : ℕ) (s : SignCtx) → IsNext r s (compute_target r g p2 s).0
unfolding compute_target
compute_target-IsNext r g p2 s = ground arith

get_swap-IsNext :
    (r : Reference) (g : Globals) (p2 : ℕ) (s : SignCtx) → IsNext r s (get_swap r g p2 s).0
unfolding get_swap
get_swap-IsNext r g p2 s = ground arith

plain_end-IsNext : (r : Reference) (g : Globals) (s : SignCtx) → IsNext r s (swap_plain_end r g s).0
unfolding swap_plain_end do_compute_s0_sqn do_compute_s1_and_check
plain_end-IsNext r g s = ground arith

swap_plain-IsNext :
    (r : Reference) (g : Globals) (buf : Buffer) (p2 tgt : ℕ) (s : SignCtx)
    → tgt + s.accum_offset + buf.size ≤ stk_bytes
    → IsNext r s (swap_plain r g buf p2 tgt s).0
unfolding swap_plain
swap_plain-IsNext r g buf p2 tgt s inside =
    let stored = write_bytes s.stk (tgt + s.accum_offset) (cdata_bytes buf) in
    let s1 : SignCtx = record s { stk = stored } in
    let s2 : SignCtx = record s { stk = stored; accum_offset = 0 } in
    let e : copied (tgt + s.accum_offset) (cdata_bytes buf) s ≡ s1 =
      copied_inside (tgt + s.accum_offset) (cdata_bytes buf) s
        (omega (arith, length-take buf.size buf.ptr)) in
    elim (Bool-cases (p2 == 0)) [
      | inl more ↦ rw (swap_plain, e, more) (same-IsNext r s _ refl)
      | inr last ↦ rw (swap_plain, e, last) (let h = plain_end-IsNext r g s2 in ground arith)
    ]

-- A plaintext FEED_SWAP stays inside `stk`. An authenticated one always does.
abbrev pub IsInside : SignCtx → ℕ → Buffer → Type 0
IsInside s p1 buf =
    p1 ≡ 4
    → is_auth s.l0_phase ≡ false
    → (tgt : ℕ) → swap_target s.l0_phase ≡ some tgt
    → tgt + s.accum_offset + buf.size ≤ stk_bytes

-- FEED_SWAP refuses, or its phase is an authenticated or a plaintext one.
feed_swap_ways :
    (r : Reference) (g : Globals) (buf : Buffer) (p2 : ℕ) (s : SignCtx)
    → (feed_swap r g buf p2 s ≡ some (s, send_sw swo_incorrect_data))
      ⊎ ((tgt : ℕ) × (feed_swap r g buf p2 s ≡ swap_auth r g buf p2 tgt s))
      ⊎ ((tgt : ℕ) × (swap_target s.l0_phase ≡ some tgt)
          × (is_auth s.l0_phase ≡ false)
          × (feed_swap r g buf p2 s ≡ some (swap_plain r g buf p2 tgt s)))
unfolding feed_swap
feed_swap_ways r g buf p2 s = elim (Option-cases (swap_target s.l0_phase)) [
  | inl no_target ↦ inl (rw (feed_swap, no_target) refl)
  | inr (tgt, e) ↦ elim (Bool-cases (is_auth s.l0_phase)) [
    | inl auth ↦ inr (inl (tgt, rw (feed_swap, e, auth) refl))
    | inr plain ↦ inr (inr (tgt, e, plain, rw (feed_swap, e, plain) refl))
  ]
]

feed_swap-IsNext :
    (r : Reference) (g : Globals) (buf : Buffer) (p2 : ℕ) (s t : SignCtx) (resp : Response)
    → IsInside s 4 buf
    → feed_swap r g buf p2 s ≡ some (t, resp)
    → IsNext r s t
feed_swap-IsNext r g buf p2 s t resp inside e = elim (feed_swap_ways r g buf p2 s) [
  | inl refused ↦ let same : t ≡ s = ground arith in same-IsNext r s t (ap inputs same)
  | inr (inl (tgt, auth)) ↦
      same-IsNext r s t (inputs-swap_auth r g buf p2 tgt s t resp (sym auth ∙ e))
  | inr (inr (tgt, there, in_clear, plain)) ↦
      let got : swap_plain r g buf p2 tgt s ≡ (t, resp) = ground arith in
      subst (λ (x : SignCtx × Response). IsNext r s x.0) got
        (swap_plain-IsNext r g buf p2 tgt s (inside refl in_clear tgt there))
]

-- What a request other than INIT does, in whatever phase, if it is no FEED_SWAP in a plaintext
-- phase whose bytes run over the end of `stk`: a nonce or a message that is set stays as it is; the hash counts as computed only if it was or is now the
-- hash of that nonce and that message; and the signature is declared valid only if it was or if
-- it just passed the norm check in the last phase.
pub handler_falcon_sign-IsNext :
    (r : Reference) (g : Globals) (rng : Bytes) (buf : Buffer) (p1 p2 : ℕ) (s t : SignCtx)
    (resp : Response)
    → p1 ≢ 0
    → IsInside s p1 buf
    → handler_falcon_sign r g rng buf p1 p2 s ≡ some (t, resp)
    → IsNext r s t
unfolding handler_falcon_sign get_nonce get_sig
handler_falcon_sign-IsNext r g rng buf p1 p2 s t resp not_init inside e =
    let fed_swap : p1 ≡ 4 → feed_swap r g buf p2 s ≡ some (t, resp) → IsNext r s t =
      λ k. feed_swap-IsNext r g buf p2 s t resp (subst (λ (n : ℕ). IsInside s n buf) k inside) in
    ground (
      arith,
      same-IsNext r s s refl,
      feed_msg-IsNext r buf p2 s,
      compute_hm-IsNext r p2 s,
      nonce_host-IsNext r buf p2 s,
      nonce_device-IsNext r rng buf p2 s,
      compute_target-IsNext r g p2 s,
      get_swap-IsNext r g p2 s,
      fed_swap,
      inputs-tree_stream r buf s t resp,
      same-IsNext r s t,
    )
