-- ===== src/LowRam/OneSeed.antt =====
-- A signing seed serves one signature (`handler_falcon_lr_sign`,
-- src/handler/handler_falcon_lowram.c).
use zknox_hw_falcon.Common.{
  ℕ, ◌≡◌, ◌≢◌, refl, Bytes, List, [], ◌∷◌, Option, some, none, arith, ◌==◌, Bool, ◌&&◌, ◌||◌, false,
}
use zknox_hw_falcon.Common.Apdu.{Buffer, swo_success}
use zknox_hw_falcon.LowRam.State.{Core, KeyRecord, Storage, Device, key_view}
use zknox_hw_falcon.LowRam.Seed.{session_seed}
use zknox_hw_falcon.LowRam.Keygen.{
  handler_falcon_lr_keygen, handler_falcon_lr_get_pk, keygen_viewed, keygen_with, regenerate,
  get_pk_viewed,
}
use zknox_hw_falcon.LowRam.Sign.{
  sign_now, sign_with, sign_all, sign_command, sign_viewed, handler_falcon_lr_sign,
  handler_falcon_lr_get_sig,
}
use zknox_hw_falcon.LowRam.Requests.{Request, dispatch_lr, run, falcon_lr_sign}

-- FEED_SEED and GEN_SEED, the requests that put a signing seed in place.
abbrev pub is_seeding : Request → Bool
is_seeding r = r.ins == falcon_lr_sign && (r.p1 == 0x08 || r.p1 == 0x09)

abbrev pub NoSeeding : List Request → Type 0
NoSeeding [] = Unit
NoSeeding (r ∷ rs) = (is_seeding r ≡ false) × NoSeeding rs

module _ (c : Core) where
  seed_unspent : (logn : ℕ) (s : Storage) → (session_seed c logn s).1.sseed_ready ≡ s.sseed_ready
  unfolding session_seed
  seed_unspent logn s = ground arith

  sign_command-unseeded :
      (buf : Buffer) (rng : Bytes) (p1 logn : ℕ) (k : KeyRecord) (s : Storage)
      → (p1 == 0x08 || p1 == 0x09) ≡ false
      → s.sseed_ready ≡ 0
      → (sign_command c buf rng p1 logn k s).0.sseed_ready ≡ 0
  unfolding sign_command sign_all
  sign_command-unseeded buf rng p1 logn k s h e = ground arith

  sign_viewed-unseeded :
      (buf : Buffer) (rng : Bytes) (p1 logn : ℕ) (o : Option KeyRecord) (d : Device)
      → (p1 == 0x08 || p1 == 0x09) ≡ false
      → d.ram.sseed_ready ≡ 0
      → (sign_viewed c buf rng p1 logn o d).0.ram.sseed_ready ≡ 0
  unfolding sign_viewed
  sign_viewed-unseeded buf rng p1 logn none d h e = e
  sign_viewed-unseeded buf rng p1 logn (some k) d h e =
      sign_command-unseeded buf rng p1 logn k d.ram h e

  keygen-unseeded :
      (buf : Buffer) (p1 logn : ℕ) (o : Option KeyRecord) (d : Device)
      → (keygen_viewed c buf p1 logn o d).0.ram.sseed_ready ≡ d.ram.sseed_ready
  unfolding keygen_viewed keygen_with regenerate
  keygen-unseeded buf p1 logn none d = refl
  keygen-unseeded buf p1 logn (some k) d = ground (arith, seed_unspent logn d.ram)

  get_pk-unseeded :
      (p1 logn : ℕ) (o : Option KeyRecord) (d : Device)
      → (get_pk_viewed c p1 logn o d).0.ram.sseed_ready ≡ d.ram.sseed_ready
  unfolding get_pk_viewed
  get_pk-unseeded p1 logn none d = refl
  get_pk-unseeded p1 logn (some k) d = seed_unspent logn d.ram

  get_sig-unseeded :
      (buf : Buffer) (p1 logn : ℕ) (d : Device)
      → (handler_falcon_lr_get_sig buf p1 logn d).0.ram.sseed_ready ≡ d.ram.sseed_ready
  unfolding handler_falcon_lr_get_sig
  get_sig-unseeded buf p1 logn d = ground arith

  dispatch_lr-unseeded :
      (r : Request) (d : Device)
      → is_seeding r ≡ false
      → d.ram.sseed_ready ≡ 0
      → (dispatch_lr c r d).0.ram.sseed_ready ≡ 0
  unfolding dispatch_lr handler_falcon_lr_keygen handler_falcon_lr_get_pk handler_falcon_lr_sign
  dispatch_lr-unseeded r d h e = ground (
    arith,
    keygen-unseeded r.cdata r.p1 r.p2 (key_view r.p2 d.nvm) d,
    get_pk-unseeded r.p1 r.p2 (key_view r.p2 d.nvm) d,
    get_sig-unseeded r.cdata r.p1 r.p2 d,
    sign_viewed-unseeded r.cdata r.rng r.p1 r.p2 (key_view r.p2 d.nvm) d,
  )

  run-unseeded :
      (rs : List Request) (d : Device)
      → NoSeeding rs
      → d.ram.sseed_ready ≡ 0
      → (run c rs d).0.ram.sseed_ready ≡ 0
  unfolding run
  run-unseeded [] d h e = e
  run-unseeded (r ∷ rs) d h e =
      run-unseeded rs (dispatch_lr c r d).0 h.1 (dispatch_lr-unseeded r d h.0 e)

  sign_viewed-needs_seed :
      (buf : Buffer) (rng : Bytes) (logn : ℕ) (o : Option KeyRecord) (d : Device)
      → d.ram.sseed_ready ≡ 0
      → (sign_viewed c buf rng 0x10 logn o d).1.sw ≢ swo_success
  unfolding sign_viewed sign_command sign_all
  sign_viewed-needs_seed buf rng logn none d e = λ h. omega arith
  sign_viewed-needs_seed buf rng logn (some k) d e = ground arith

  sign_viewed-spends :
      (buf : Buffer) (rng : Bytes) (logn : ℕ) (o : Option KeyRecord) (d : Device)
      → (sign_viewed c buf rng 0x10 logn o d).1.sw ≡ swo_success
      → (sign_viewed c buf rng 0x10 logn o d).0.ram.sseed_ready ≡ 0
  unfolding sign_viewed sign_command sign_all sign_with sign_now
  sign_viewed-spends buf rng logn none d e = absurd (omega arith)
  sign_viewed-spends buf rng logn (some k) d e = ground arith

  -- After a SIGN_ALL that answered 0x9000, and any further requests among which none feeds or
  -- generates a signing seed, SIGN_ALL of either degree does not answer 0x9000 again.
  pub one_signature_per_seed :
      (b b' : Buffer) (rng rng' : Bytes) (logn logn' : ℕ) (rs : List Request) (d : Device)
      → (handler_falcon_lr_sign c b rng 0x10 logn d).1.sw ≡ swo_success
      → NoSeeding rs
      → (handler_falcon_lr_sign c b' rng' 0x10 logn'
          (run c rs (handler_falcon_lr_sign c b rng 0x10 logn d).0).0).1.sw
        ≢ swo_success
  unfolding handler_falcon_lr_sign
  one_signature_per_seed b b' rng rng' logn logn' rs d h quiet =
      let d1 = (sign_viewed c b rng 0x10 logn (key_view logn d.nvm) d).0 in
      let d2 = (run c rs d1).0 in
      sign_viewed-needs_seed b' rng' logn' (key_view logn' d2.nvm) d2
        (run-unseeded rs d1 quiet (sign_viewed-spends b rng logn (key_view logn d.nvm) d h))
