-- ===== src/LowRam/Rerun.antt =====
-- KEYGEN leaves a usable record, computes nothing when there is one, and scrubs its area
-- (`handler_falcon_lr_keygen`, src/handler/handler_falcon_lowram.c).
use zknox_hw_falcon.Common.{
  ℕ, ◌+◌, ◌*◌, ◌^◌, ◌≡◌, inl, inr, refl, ap, ◌∙◌, Bytes, Option, some, none, arith, ◌==◌, true,
  Bool-cases, take, replicate,
}
use zknox_hw_falcon.Common.Memory.{read_bytes, read_bytes-zero, bzero_inside, bzero_zero}
use zknox_hw_falcon.Common.Apdu.{Buffer, send_response, swo_success}
use zknox_hw_falcon.LowRam.State.{Core, Keys, KeyRecord, Storage, NvmStorage, Device, key_view}
use zknox_hw_falcon.LowRam.Seed.{session_seed, falcon_lr_key_id}
use zknox_hw_falcon.LowRam.CtEq.{falcon_lr_ct_eq32_self}
use zknox_hw_falcon.LowRam.Nvm.{key_ok, nvm_writes, set_record}
use zknox_hw_falcon.LowRam.Keygen.{
  handler_falcon_lr_keygen, keygen_viewed, keygen_with, regenerate, keygen_writes, new_keys, sk_off,
  working_area, sign_key_size,
}
use zknox_hw_falcon.LowRam.Persist.{
  IsDegree, IsSized, IsLaidOut-degree, full_record, raw_fg_f, decoded, sk_kept,
}
use zknox_hw_falcon.LowRam.Integrity.{working_area-full}
use zknox_hw_falcon.LowRam.Sessions.{
  Reach, Reach-IsSound, IsSound, IsCached, derived, key_view-IsGenuine, session_seed-id,
  session_seed-derived,
}

-- A record that the next KEYGEN for this seed would accept.
record IsUsable (c : Core) (logn : ℕ) (seed : Bytes) (k : KeyRecord) (d : Device) : Type 0 where
  stored : key_view logn d.nvm ≡ some k
  accepted : key_ok k (falcon_lr_key_id c seed) ≡ true

key_ok-full_record :
    (c : Core) (logn : ℕ) (id : Bytes) (keys : Keys) → key_ok (full_record c logn id keys) id ≡ true
unfolding key_ok full_record
key_ok-full_record c logn id keys = falcon_lr_ct_eq32_self id

key_view-set_record :
    (logn : ℕ) (k : KeyRecord) (nvm : NvmStorage)
    → IsDegree logn
    → key_view logn (set_record logn k nvm) ≡ some k
unfolding key_view set_record
key_view-set_record logn k nvm (inl e) = rw e refl
key_view-set_record logn k nvm (inr e) = rw e refl

module _ (c : Core) (sized : (logn : ℕ) → IsDegree logn → IsSized c logn) where
  regenerated :
      (logn : ℕ) (k : KeyRecord) (id : Bytes) (s : Storage)
      → IsDegree logn
      → (new_keys c logn s).ok ≡ true
      → nvm_writes (keygen_writes c logn id s) k ≡ full_record c logn id (new_keys c logn s)
  unfolding keygen_writes nvm_writes
  regenerated logn k id s degree ok =
      rw ok (working_area-full c logn degree (sized logn degree) s id (record k { ready = 0 }))

  regenerate-IsUsable :
      (logn : ℕ) (k : KeyRecord) (d : Device)
      → IsDegree logn
      → let r = regenerate c logn (falcon_lr_key_id c d.ram.seed) k d in
        r.1.sw ≡ swo_success
        → (k' : KeyRecord) × IsUsable c logn d.ram.seed k' r.0
          × (r.1 ≡ send_response (take 255 k'.h) swo_success)
  unfolding regenerate
  regenerate-IsUsable logn k d degree h = elim (Bool-cases (new_keys c logn d.ram).ok) [
    | inr failed ↦ absurd (let bad = rw failed at h in omega arith)
    | inl ok ↦
        let id = falcon_lr_key_id c d.ram.seed in
        let full = full_record c logn id (new_keys c logn d.ram) in
        let stored = regenerated logn k id d.ram degree ok in
        rw (ok, stored)
          (
            full,
            record {
              stored = key_view-set_record logn full d.nvm degree;
              accepted = key_ok-full_record c logn id (new_keys c logn d.ram);
            },
            refl,
          )
  ]

  -- The device and the answer of a KEYGEN that succeeds, whichever way it took.
  keygen_with-IsUsable :
      (logn : ℕ) (k : KeyRecord) (d : Device)
      → IsDegree logn
      → key_view logn d.nvm ≡ some k
      → let r = keygen_with c logn k (some (falcon_lr_key_id c d.ram.seed)) d in
        r.1.sw ≡ swo_success
        → (k' : KeyRecord) × IsUsable c logn d.ram.seed k' r.0
          × (r.1 ≡ send_response (take 255 k'.h) swo_success)
  unfolding keygen_with
  keygen_with-IsUsable logn k d degree viewed h =
      elim (Bool-cases (key_ok k (falcon_lr_key_id c d.ram.seed))) [
        | inl good ↦ rw good (k, record { stored = viewed; accepted = good }, refl)
        | inr stale ↦ rw stale (regenerate-IsUsable logn k d degree (rw stale at h))
      ]

  session_seed-named :
      (logn : ℕ) (s : Storage)
      → IsDegree logn
      → IsCached c s
      → (session_seed c logn s).0 ≡ some (falcon_lr_key_id c (derived c logn))
  session_seed-named logn s degree cached =
      session_seed-id c logn s
      ∙ ap (λ t. some (falcon_lr_key_id c t)) (session_seed-derived c logn s degree cached)

  keygen_good :
      (buf : Buffer) (logn : ℕ) (k : KeyRecord) (e : Device)
      → IsDegree logn
      → IsCached c e.ram
      → buf.size ≡ 0
      → key_view logn e.nvm ≡ some k
      → key_ok k (falcon_lr_key_id c (derived c logn)) ≡ true
      → handler_falcon_lr_keygen c buf 0 logn e ≡ (
        record e { ram = (session_seed c logn e.ram).1 },
        send_response (take 255 k.h) swo_success,
      )
  unfolding handler_falcon_lr_keygen keygen_viewed keygen_with
  keygen_good buf logn k e degree cached empty viewed good =
      rw (viewed, session_seed-named logn e.ram degree cached, empty, good) refl

  keygen_viewed-IsUsable :
      (buf : Buffer) (p1 logn : ℕ) (o : Option KeyRecord) (d : Device)
      → IsSound c d
      → key_view logn d.nvm ≡ o
      → let r = keygen_viewed c buf p1 logn o d in
        r.1.sw ≡ swo_success
        → IsDegree logn
          × ((k' : KeyRecord) × IsUsable c logn (derived c logn) k' r.0
              × (r.1 ≡ send_response (take 255 k'.h) swo_success))
  unfolding keygen_viewed
  keygen_viewed-IsUsable buf p1 logn none d sound viewed h = absurd (omega arith)
  keygen_viewed-IsUsable buf p1 logn (some k) d sound viewed h = elim (Bool-cases (p1 == 0)) [
    | inr bad ↦ absurd (let x = rw bad at h in omega arith)
    | inl fine ↦ elim (Bool-cases (buf.size == 0)) [
      | inr long ↦ absurd (let x = rw (fine, long) at h in omega arith)
      | inl empty ↦
          let v = key_view-IsGenuine c logn d.nvm k sound.nvm_sound viewed in
          let t = (session_seed c logn d.ram).1 in
          let named = session_seed-id c logn d.ram in
          let seed_eq = session_seed-derived c logn d.ram v.0 sound.cached in
          rw (fine, empty, named, ← seed_eq)
            (
              v.0,
              keygen_with-IsUsable logn k (record d { ram = t }) v.0 viewed
                  (rw (fine, empty, named) at h),
            )
    ]
  ]

  -- Once KEYGEN has answered 0x9000 on a device that can be reached, KEYGEN computes nothing more
  -- for that seed: in any state with the NVM that it left and no foreign seed in the cache, also
  -- after a power cycle, it gives the same answer, writes no NVM and changes nothing in RAM but the
  -- cached seed.
  pub keygen_idempotent :
      (b b' : Buffer) (p1 logn : ℕ) (d e : Device)
      → Reach c d
      → (handler_falcon_lr_keygen c b p1 logn d).1.sw ≡ swo_success
      → e.nvm ≡ (handler_falcon_lr_keygen c b p1 logn d).0.nvm
      → IsCached c e.ram
      → b'.size ≡ 0
      → handler_falcon_lr_keygen c b' 0 logn e ≡ (
        record e { ram = (session_seed c logn e.ram).1 },
        (handler_falcon_lr_keygen c b p1 logn d).1,
      )
  unfolding handler_falcon_lr_keygen
  keygen_idempotent b b' p1 logn d e reach h same cached empty =
      let (degree, u) =
        keygen_viewed-IsUsable b p1 logn (key_view logn d.nvm) d (Reach-IsSound reach sized) refl
          h in
      let (k, usable, answer) = u in
      rw answer (
        keygen_good b' logn k e degree cached empty (ap (key_view logn) same ∙ usable.stored)
          usable.accepted)

  -- A KEYGEN that computes a key has its short polynomials f, g and F decoded at the start of the
  -- area and the encoded signing key at its place further up, and zeroes both before it answers.
  pub regenerate-scrubs :
      (logn : ℕ) (id : Bytes) (k : KeyRecord) (d : Device)
      → IsDegree logn
      → (new_keys c logn d.ram).ok ≡ true
      → let keys = new_keys c logn d.ram in
        let before = working_area c logn d.ram in
        let after = (regenerate c logn id k d).0.ram.area in
        (read_bytes before 0 (3 * 2 ^ logn) ≡ raw_fg_f c logn keys.sk)
        × (read_bytes before (sk_off logn) (sign_key_size logn) ≡ keys.sk)
        × (read_bytes after 0 (5 * 2 ^ logn + 2) ≡ replicate (5 * 2 ^ logn + 2) 0)
        × (read_bytes after (sk_off logn) (sign_key_size logn) ≡ replicate (sign_key_size logn) 0)
  unfolding regenerate working_area
  regenerate-scrubs logn id k d degree ok =
      let laid = IsLaidOut-degree logn degree in
      let z = sized logn degree in
      let keys = new_keys c logn d.ram in
      let s = d.ram.seed in
      rw ok (
        (decoded c logn keys d.ram.area laid z (z.tmp_fits s) (z.sk_fits s) (z.vk_fits s)).0,
        sk_kept c logn keys d.ram.area laid z (z.tmp_fits s) (z.sk_fits s) (z.vk_fits s),
        read_bytes-zero _ 0 (5 * 2 ^ logn + 2) (λ i p q.
            bzero_zero _ (sk_off logn) (sign_key_size logn) i
              (bzero_inside _ 0 (5 * 2 ^ logn + 2) i p q)),
        read_bytes-zero _ (sk_off logn) (sign_key_size logn)
            (λ i p q. bzero_inside _ (sk_off logn) (sign_key_size logn) i p q),
      )
