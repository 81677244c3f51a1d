-- ===== src/LowRam/SignSession.antt =====
-- A whole signing session: INIT, FEED_MSG, FEED_SEED, SIGN_ALL, GET_NONCE
-- (`handler_falcon_lr_sign`, src/handler/handler_falcon_lowram.c).
use zknox_hw_falcon.Common.{
  ℕ, ◌+◌, ◌*◌, ◌%◌, ◌^◌, ◌≡◌, inl, inr, refl, ap, ap₂, ◌∙◌, Bytes, List, [], ◌∷◌, some, arith, ◌==◌,
  ==_iff, true, take, drop, replicate,
}
use zknox_hw_falcon.Common.Apdu.{Buffer, Response, send_sw, send_response, swo_success}
use zknox_hw_falcon.LowRam.State.{Core, Signed, KeyRecord, Storage, Device, key_view, out_size}
use zknox_hw_falcon.LowRam.Seed.{session_seed}
use zknox_hw_falcon.LowRam.Nvm.{key_ok}
use zknox_hw_falcon.LowRam.Sign.{
  handler_falcon_lr_sign, sign_viewed, sign_command, sign_all, sign_with, sign_now, signed_by,
  falcon_sign_seeded_temp, overwrite,
}
use zknox_hw_falcon.LowRam.Requests.{Request, dispatch_lr, run, falcon_lr_sign}
use zknox_hw_falcon.LowRam.Persist.{IsDegree}

-- A SIGN request.
abbrev pub sign_request : ℕ → ℕ → Buffer → Request
sign_request p1 logn buf = record {
  ins = falcon_lr_sign;
  p1 = p1;
  p2 = logn;
  cdata = buf;
  rng = [];
}

abbrev pub payload : Bytes → ℕ → Buffer
payload b n = record { ptr = b; size = n; offset = 0 }

session_seed-same :
    (c : Core) (logn : ℕ) (s s' : Storage)
    → s'.seed ≡ s.seed
    → s'.seed_ready ≡ s.seed_ready
    → (session_seed c logn s').0 ≡ (session_seed c logn s).0
unfolding session_seed
session_seed-same c logn s s' e r = ground arith

session_seed-inputs :
    (c : Core) (logn : ℕ) (s : Storage)
    → let t = (session_seed c logn s).1 in
      (t.msg ≡ s.msg) × (t.sign_seed ≡ s.sign_seed) × (t.out ≡ s.out)
unfolding session_seed
session_seed-inputs c logn s = ground arith

-- The signing call for a stored key, a message and a seed.
abbrev pub stored_signature : Core → ℕ → KeyRecord → Bytes → Bytes → Signed
stored_signature c logn k msg seed =
    falcon_sign_seeded_temp c logn k.f_g_F msg seed out_size (20 * 2 ^ logn + 31)

sign_now_succeeds :
    (c : Core) (logn : ℕ) (k : KeyRecord) (t : Storage)
    → (signed_by c logn k t).len ≡ 41 + 2 * 2 ^ logn
    → let (s', r) = sign_now c logn k t in
      (r ≡ send_sw swo_success)
      × (s'.out ≡ overwrite (signed_by c logn k t).sig t.out)
      × (s'.sig_ready ≡ logn % 2 ^ 8)
unfolding sign_now
sign_now_succeeds c logn k t len = ground arith

sign_all_succeeds :
    (c : Core) (logn : ℕ) (k : KeyRecord) {id : Bytes} (s : Storage)
    → IsDegree logn
    → (session_seed c logn s).0 ≡ some id
    → key_ok k id ≡ true
    → s.msg_ready ≡ 1
    → s.sseed_ready ≡ 1
    → (stored_signature c logn k s.msg s.sign_seed).len ≡ 41 + 2 * 2 ^ logn
    → let (s', r) = sign_all c 0 logn k s in
      (r ≡ send_sw swo_success)
      × (s'.out ≡ overwrite (stored_signature c logn k s.msg s.sign_seed).sig s.out)
      × (s'.sig_ready ≡ logn)
unfolding sign_all sign_with
sign_all_succeeds c logn k {id} s degree named good m r len =
    let t = (session_seed c logn s).1 in
    let i = session_seed-inputs c logn s in
    let sig_eq : signed_by c logn k t ≡ stored_signature c logn k s.msg s.sign_seed =
      unfold signed_by in rw (i.0, i.1) refl in
    let done = sign_now_succeeds c logn k t (ap (λ (g : Signed). g.len) sig_eq ∙ len) in
    simp (m, r)
      (rw (named, good)
        (
          done.0,
          done.1 ∙ ap₂ overwrite (ap (λ (g : Signed). g.sig) sig_eq) i.2,
          done.2 ∙ small degree,
        ))
  where
    small : IsDegree logn → logn % 2 ^ 8 ≡ logn
    small (inl e) = rw e refl
    small (inr e) = rw e refl

-- The state of the session when SIGN_ALL is asked for.
abbrev prepared : Bytes → Bytes → Storage → Storage
prepared m seed s = record s {
  out = replicate out_size 0;
  msg = take 32 m;
  sign_seed = take 40 seed;
  msg_ready = 1;
  sseed_ready = 1;
  sig_ready = 0;
}

-- The SIGN commands of one degree, on the RAM alone.
sign_commands : Core → ℕ → KeyRecord → List (ℕ × Buffer) → Storage → Storage × List Response
sign_commands c logn k [] s = (s, [])
sign_commands c logn k ((p1, buf) ∷ l) s =
    let (s', r) = sign_command c buf [] p1 logn k s in
    let (s'', answers) = sign_commands c logn k l s' in (s'', r ∷ answers)

abbrev sign_requests : ℕ → List (ℕ × Buffer) → List Request
sign_requests logn [] = []
sign_requests logn ((p1, buf) ∷ l) = sign_request p1 logn buf ∷ sign_requests logn l

dispatch_sign :
    (c : Core) (logn : ℕ) (k : KeyRecord) (p1 : ℕ) (buf : Buffer) (d : Device)
    → key_view logn d.nvm ≡ some k
    → dispatch_lr c (sign_request p1 logn buf) d ≡ (
      record d { ram = (sign_command c buf [] p1 logn k d.ram).0 },
      (sign_command c buf [] p1 logn k d.ram).1,
    )
unfolding dispatch_lr handler_falcon_lr_sign sign_viewed
dispatch_sign c logn k p1 buf d viewed = rw viewed refl

run-sign_requests :
    (c : Core) (logn : ℕ) (k : KeyRecord) (l : List (ℕ × Buffer)) (d : Device)
    → key_view logn d.nvm ≡ some k
    → run c (sign_requests logn l) d
      ≡ (record d { ram = (sign_commands c logn k l d.ram).0 }, (sign_commands c logn k l d.ram).1)
unfolding run sign_commands
run-sign_requests c logn k [] d viewed = refl
run-sign_requests c logn k ((p1, buf) ∷ l) d viewed =
    let s' = (sign_command c buf [] p1 logn k d.ram).0 in
    rw
      (
        dispatch_sign c logn k p1 buf d viewed,
        run-sign_requests c logn k l (record d { ram = s' }) viewed,
      )
      refl

abbrev session_commands : Bytes → Bytes → List (ℕ × Buffer)
session_commands m seed =
    (0x00, payload [] 0)
    ∷ (0x06, payload m 32)
    ∷ (0x08, payload seed 40)
    ∷ (0x10, payload [] 0)
    ∷ (0x91, payload [] 0)
    ∷ []

session_commands_lem :
    (c : Core) (logn : ℕ) (k : KeyRecord) {id : Bytes} (m seed : Bytes) (s : Storage)
    → IsDegree logn
    → (session_seed c logn s).0 ≡ some id
    → key_ok k id ≡ true
    → (stored_signature c logn k (take 32 m) (take 40 seed)).len ≡ 41 + 2 * 2 ^ logn
    → let (s', answers) = sign_commands c logn k (session_commands m seed) s in
      (s'.out
        ≡ overwrite
            (stored_signature c logn k (take 32 m) (take 40 seed)).sig
            (replicate out_size 0))
      × (s'.sig_ready ≡ logn)
      × (answers
          ≡ send_sw swo_success
            ∷ send_sw swo_success
            ∷ send_sw swo_success
            ∷ send_sw swo_success
            ∷ send_response (take 40 (drop 1 s'.out)) swo_success
            ∷ [])
unfolding sign_commands sign_command
session_commands_lem c logn k {id} m seed s degree named good len =
    let p = prepared m seed s in
    let done =
      sign_all_succeeds c logn k p degree (session_seed-same c logn s p refl refl ∙ named) good refl
        refl len in
    let after = (sign_all c 0 logn k p).0 in
    let ready : (after.sig_ready == logn) ≡ true = (==_iff after.sig_ready logn).1 done.2 in
    rw (ready, done.0) (done.1, done.2, refl)

-- With a good key record, and a core that completes a signature for the message and the seed,
-- the session answers 0x9000 five times, leaves the core's signature in the output buffer, and
-- the last answer carries the 40 bytes of the nonce.
pub signing_session :
    (c : Core) (logn : ℕ) (k : KeyRecord) {id : Bytes} (m seed : Bytes) (d : Device)
    → IsDegree logn
    → key_view logn d.nvm ≡ some k
    → (session_seed c logn d.ram).0 ≡ some id
    → key_ok k id ≡ true
    → (stored_signature c logn k (take 32 m) (take 40 seed)).len ≡ 41 + 2 * 2 ^ logn
    → let (d', answers) =
        run c
          (sign_request 0x00 logn (payload [] 0)
            ∷ sign_request 0x06 logn (payload m 32)
            ∷ sign_request 0x08 logn (payload seed 40)
            ∷ sign_request 0x10 logn (payload [] 0)
            ∷ sign_request 0x91 logn (payload [] 0)
            ∷ [])
          d in
      (d'.ram.out
        ≡ overwrite
            (stored_signature c logn k (take 32 m) (take 40 seed)).sig
            (replicate out_size 0))
      × (d'.ram.sig_ready ≡ logn)
      × (answers
          ≡ send_sw swo_success
            ∷ send_sw swo_success
            ∷ send_sw swo_success
            ∷ send_sw swo_success
            ∷ send_response (take 40 (drop 1 d'.ram.out)) swo_success
            ∷ [])
signing_session c logn k {id} m seed d degree viewed named good len =
    rw (run-sign_requests c logn k (session_commands m seed) d viewed)
      (session_commands_lem c logn k m seed d.ram degree named good len)
