-- ===== src/Legacy/Reach.antt =====
-- Sequences of requests to `handler_falcon_sign` without INIT
-- (legacy/src/handler/handler_falcon_sign.c).
use zknox_hw_falcon.Common.{ℕ, ◌≡◌, ◌≢◌, refl, Bytes, some, true, inl, inr, ◌∙◌}
use zknox_hw_falcon.Common.Apdu.{Buffer, Response}
use zknox_hw_falcon.Legacy.State.{Reference, Globals, SignCtx, flogn, l0_wait_z0z1_s1}
use zknox_hw_falcon.Legacy.Sign.{handler_falcon_sign}
use zknox_hw_falcon.Legacy.Session.{IsInside, handler_falcon_sign-IsNext}

-- No request runs over the end of `stk`.
pub data SignReach (r : Reference) (g : Globals) (s : SignCtx) : SignCtx → Type 0 where
  here : SignReach r g s s
  next :
      {t u : SignCtx}
      → SignReach r g s t
      → (rng : Bytes) (buf : Buffer) (p1 p2 : ℕ) (resp : Response) → p1 ≢ 0
      → IsInside t p1 buf
      → handler_falcon_sign r g rng buf p1 p2 t ≡ some (u, resp)
      → SignReach r g s u

-- What is bound once the nonce and the message are set.
pub record IsBound (r : Reference) (s t : SignCtx) : Type 0 where
  pub nonce_same : t.nonce ≡ s.nonce
  pub msg_same : t.msg ≡ s.msg
  pub nonce_stays : t.nonce_set ≢ 0
  pub msg_stays : t.msg_set ≢ 0

-- Once the nonce and the message are set, no sequence of requests without INIT, none of which runs
-- over the end of `stk`, changes either of them, in whatever order and with whatever data the
-- requests come.
pub session_binds :
    (r : Reference) (g : Globals) (s t : SignCtx)
    → s.nonce_set ≢ 0
    → s.msg_set ≢ 0
    → SignReach r g s t
    → IsBound r s t
session_binds r g s t n m here = record {
  nonce_same = refl;
  msg_same = refl;
  nonce_stays = n;
  msg_stays = m;
}
session_binds r g s t n m (next {t = u} path rng buf p1 p2 resp not_init inside e) =
    let so_far = session_binds r g s u n m path in
    let step = handler_falcon_sign-IsNext r g rng buf p1 p2 u t resp not_init inside e in
    let nonce = step.keeps_nonce so_far.nonce_stays in
    let msg = step.keeps_msg so_far.msg_stays in
    record {
      nonce_same = nonce.0 ∙ so_far.nonce_same;
      msg_same = msg.0 ∙ so_far.msg_same;
      nonce_stays = nonce.1;
      msg_stays = msg.1;
    }

-- A signature that is declared valid by a sequence of requests, none of which runs over the end of
-- `stk`, from a context without one passed the norm check in the last phase, at some point of the
-- sequence.
pub valid_after_check :
    (r : Reference) (g : Globals) (s t : SignCtx)
    → s.sig_valid ≡ 0
    → SignReach r g s t
    → t.sig_valid ≢ 0
    → (u v : SignCtx) × SignReach r g s u
      × SignReach r g s v
      × (u.l0_phase ≡ l0_wait_z0z1_s1)
      × (r.is_short_half v.sqn_saved v.hm_sig flogn ≡ true)
valid_after_check r g s t z here h = absurd (h z)
valid_after_check r g s t z (next {t = u} path rng buf p1 p2 resp not_init inside e) h =
    let step = handler_falcon_sign-IsNext r g rng buf p1 p2 u t resp not_init inside e in
    elim (step.judged h) [
      | inl same ↦ valid_after_check r g s u z path (λ n. h (same ∙ n))
      | inr (phase, short) ↦
          (u, t, path, next path rng buf p1 p2 resp not_init inside e, phase, short)
    ]
