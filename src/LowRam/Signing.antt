-- ===== src/LowRam/Signing.antt =====
-- What SIGN answers: whose key signs, how often, and what a whole signing session returns
-- (`handler_falcon_lr_sign`, src/handler/handler_falcon_lowram.c).
use zknox_hw_falcon.Common.{
  ℕ, ◌+◌, ◌*◌, ◌%◌, ◌^◌, ◌≡◌, inl, inr, refl, ap, ap₂, ◌∙◌, Bytes, some, true, arith, IsBytes,
  length,
}
use zknox_hw_falcon.Common.Apdu.{swo_success}
use zknox_hw_falcon.LowRam.State.{
  Core, KeyRecord, Storage, Device, Keys, Signed, key_view, out_size,
}
use zknox_hw_falcon.LowRam.Seed.{falcon_lr_key_id, falcon_lr_ct_eq32, session_seed}
use zknox_hw_falcon.LowRam.Nvm.{key_ok}
use zknox_hw_falcon.LowRam.CtEq.{falcon_lr_ct_eq32_iff}
use zknox_hw_falcon.LowRam.Keygen.{keygen_tmp_len}
use zknox_hw_falcon.LowRam.Sign.{
  sign_now, sign_with, sign_all, signed_by, falcon_sign_seeded_temp, overwrite,
}
use zknox_hw_falcon.LowRam.Persist.{IsDegree, IsSized, full_record, raw_fg_f}
use zknox_hw_falcon.LowRam.Integrity.{IsGenuine}
use zknox_hw_falcon.LowRam.Sessions.{
  Reach, Reach-IsSound, derived, key_view-IsGenuine, session_seed-id, session_seed-derived,
}

-- What is relied on of the key identifier: it is 32 bytes, and no other seed has that of the
-- mnemonic's seed of a degree.
pub record IsIdentifying (c : Core) : Type 0 where
  pub id_bytes : (seed : Bytes) → IsBytes (falcon_lr_key_id c seed)
  pub id_length : (seed : Bytes) → length (falcon_lr_key_id c seed) ≡ 32
  pub no_collision :
      (logn : ℕ)
      → IsDegree logn
      → (s : Bytes) → falcon_lr_key_id c s ≡ falcon_lr_key_id c (derived c logn)
      → s ≡ derived c logn

-- The keys that the mnemonic's seed of a degree generates.
abbrev pub mnemonic_keys : Core → ℕ → Keys
mnemonic_keys c logn = c.keygen logn (derived c logn) (keygen_tmp_len logn)

key_ok-parts :
    (k : KeyRecord) (id : Bytes)
    → key_ok k id ≡ true
    → (k.ready ≡ 1) × (falcon_lr_ct_eq32 k.key_id id ≡ true)
unfolding key_ok
key_ok-parts k id h = ground arith

module _ (c : Core) (ids : IsIdentifying c) where
  -- A genuine record that passes `key_ok` for a seed holds that seed's keys.
  key_ok-full :
      (logn : ℕ) (k : KeyRecord) (seed : Bytes)
      → ((s : Bytes) → falcon_lr_key_id c s ≡ falcon_lr_key_id c seed → s ≡ seed)
      → IsGenuine c logn k
      → key_ok k (falcon_lr_key_id c seed) ≡ true
      → ((c.keygen logn seed (keygen_tmp_len logn)).ok ≡ true)
        × (k
            ≡ full_record c logn
                (falcon_lr_key_id c seed)
                (c.keygen logn seed (keygen_tmp_len logn)))
  unfolding full_record
  key_ok-full logn k seed unique g ok =
      let parts = key_ok-parts k (falcon_lr_key_id c seed) ok in
      let (t, made, e) = g parts.0 in
      let id_eq : k.key_id ≡ falcon_lr_key_id c t = ap (λ (r : KeyRecord). r.key_id) e in
      let same : falcon_lr_key_id c t ≡ falcon_lr_key_id c seed =
        (falcon_lr_ct_eq32_iff (falcon_lr_key_id c t) (falcon_lr_key_id c seed) (ids.id_bytes t)
            (ids.id_bytes seed) (ids.id_length t) (ids.id_length seed)).0
          (rw id_eq at parts.1) in
      let seeds : t ≡ seed = unique t same in (rw seeds at made, rw seeds at e)

  sign_all-inverts :
      (size logn : ℕ) (k : KeyRecord) (s : Storage)
      → (sign_all c size logn k s).1.sw ≡ swo_success
      → let t = (session_seed c logn s).1 in
        (key_ok k (falcon_lr_key_id c t.seed) ≡ true)
        × ((sign_all c size logn k s).0 ≡ (sign_now c logn k t).0)
        × ((sign_now c logn k t).1.sw ≡ swo_success)
  unfolding sign_all sign_with
  sign_all-inverts size logn k s h = ground (arith, session_seed-id c logn s)

session_seed-keeps :
    (c : Core) (logn : ℕ) (s : Storage)
    → let t = (session_seed c logn s).1 in
      (t.msg ≡ s.msg)
      × (t.sign_seed ≡ s.sign_seed)
      × (t.out ≡ s.out)
      × (t.sseed_ready ≡ s.sseed_ready)
unfolding session_seed
session_seed-keeps c logn s = ground arith

full_record-fg_f :
    (c : Core) (logn : ℕ) (id : Bytes) (keys : Keys) (k : KeyRecord)
    → k ≡ full_record c logn id keys
    → k.f_g_F ≡ raw_fg_f c logn keys.sk
unfolding full_record
full_record-fg_f c logn id keys k e = ap (λ (r : KeyRecord). r.f_g_F) e

-- The signing call that a SIGN_ALL of the mnemonic's key makes.
abbrev pub mnemonic_signature : Core → ℕ → Storage → Signed
mnemonic_signature c logn s =
    falcon_sign_seeded_temp c logn (raw_fg_f c logn (mnemonic_keys c logn).sk) s.msg s.sign_seed
      out_size (20 * 2 ^ logn + 31)

sign_now-success :
    (c : Core) (logn : ℕ) (k : KeyRecord) (s : Storage)
    → (sign_now c logn k s).1.sw ≡ swo_success
    → let s' = (sign_now c logn k s).0 in
      ((signed_by c logn k s).len ≡ 41 + 2 * 2 ^ logn)
      × (s'.out ≡ overwrite (signed_by c logn k s).sig s.out)
      × (s'.sig_ready ≡ logn % 2 ^ 8)
      × (s'.sseed_ready ≡ 0)
unfolding sign_now
sign_now-success c logn k s h = ground arith

-- What a SIGN_ALL that answers 0x9000 has done, in terms of the mnemonic alone.
pub record SignedByMnemonic (c : Core) (logn : ℕ) (before after : Storage) : Type 0 where
  pub generated : (mnemonic_keys c logn).ok ≡ true
  pub complete : (mnemonic_signature c logn before).len ≡ 41 + 2 * 2 ^ logn
  pub output : after.out ≡ overwrite (mnemonic_signature c logn before).sig before.out
  pub announced : after.sig_ready ≡ logn
  pub seed_spent : after.sseed_ready ≡ 0

module _ (c : Core) (sized : (logn : ℕ) → IsDegree logn → IsSized c logn)
    (ids : IsIdentifying c) where
  -- With a core whose arrays have their documented sizes and identifiers that tell the mnemonic's
  -- seeds from all others, a SIGN_ALL that answers 0x9000 on a device that can be reached signs the
  -- message in place under the key that the mnemonic generates for the degree: the output buffer
  -- starts with that signature, `sig_ready` announces its degree, and the signing seed is spent.
  pub sign_all-mnemonic :
      (size logn : ℕ) (k : KeyRecord) (d : Device)
      → Reach c d
      → key_view logn d.nvm ≡ some k
      → (sign_all c size logn k d.ram).1.sw ≡ swo_success
      → SignedByMnemonic c logn d.ram (sign_all c size logn k d.ram).0
  unfolding signed_by
  sign_all-mnemonic size logn k d reach viewed h =
      let sound = Reach-IsSound reach sized in
      let v = key_view-IsGenuine c logn d.nvm k sound.nvm_sound viewed in
      let t = (session_seed c logn d.ram).1 in
      let inv = sign_all-inverts c ids size logn k d.ram h in
      let keep = session_seed-keeps c logn d.ram in
      let seed_eq = session_seed-derived c logn d.ram v.0 sound.cached in
      let unique = rw (← seed_eq) at (ids.no_collision logn v.0) in
      let full = key_ok-full c ids logn k t.seed unique v.1 inv.0 in
      let done = sign_now-success c logn k t inv.2 in
      let keys = c.keygen logn t.seed (keygen_tmp_len logn) in
      let fgF = full_record-fg_f c logn (falcon_lr_key_id c t.seed) keys k full.1 in
      let sig_eq : signed_by c logn k t ≡ mnemonic_signature c logn d.ram =
        rw (fgF, keep.0, keep.1, seed_eq) refl in
      record {
        generated = rw seed_eq at full.0;
        complete = rw sig_eq at done.0;
        output = rw inv.1 (done.1 ∙ ap₂ overwrite (ap (λ (g : Signed). g.sig) sig_eq) keep.2);
        announced = rw inv.1 (done.2 ∙ small v.0);
        seed_spent = rw inv.1 done.3;
      }
    where
      small : IsDegree logn → logn % 2 ^ 8 ≡ logn
      small (inl e) = rw e refl
      small (inr e) = rw e refl
