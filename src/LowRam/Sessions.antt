-- ===== src/LowRam/Sessions.antt =====
-- Every device that requests, power cycles and power cuts can produce: its key records are
-- genuine and its cached seed is the mnemonic's (src/handler/handler_falcon_lowram.c).
use zknox_hw_falcon.Common.{
  ℕ, ◌≡◌, ◌⊎◌, inl, inr, refl, sym, ◌∙◌, Bytes, List, [], Option, some, none, false, arith, ◌==◌,
  if◌then◌else◌, replicate, Bool-cases,
}
use zknox_hw_falcon.Common.Apdu.{Buffer}
use zknox_hw_falcon.LowRam.State.{Core, KeyRecord, Storage, NvmStorage, Device, key_view, fresh_ram}
use zknox_hw_falcon.LowRam.Seed.{
  falcon_lr_key_id, session_seed, falcon_derive_seed, falcon512_derive_seed,
}
use zknox_hw_falcon.LowRam.Nvm.{set_record, key_ok, nvm_writes}
use zknox_hw_falcon.LowRam.Keygen.{
  vk_to_h, new_keys, keygen_writes, regenerate, keygen_with, keygen_viewed,
  handler_falcon_lr_keygen, get_pk_viewed, handler_falcon_lr_get_pk,
}
use zknox_hw_falcon.LowRam.Sign.{
  sign_now, sign_with, sign_all, sign_command, sign_viewed, handler_falcon_lr_sign,
  handler_falcon_lr_get_sig,
}
use zknox_hw_falcon.LowRam.Requests.{
  Request, dispatch_lr, reboot, falcon_lr_keygen, falcon_lr_get_pk, falcon_lr_sign,
}
use zknox_hw_falcon.LowRam.Persist.{IsDegree, IsSized, full_record, raw_fg_f, raw_h}
use zknox_hw_falcon.LowRam.Integrity.{
  Interrupted, IsGenuine, keygen_writes-IsGenuine, nvm_writes-Interrupted,
}

-- A record of a device that never held a key.
abbrev pub blank_record : KeyRecord
blank_record = record { key_id = replicate 32 0; f_g_F = []; h = []; fmt = 0; ready = 0 }

-- The device as it leaves the factory.
unfoldable pub blank : Device
blank = record { ram = fresh_ram; nvm = record { key_512 = blank_record; key_1024 = blank_record } }

-- The seed of a degree, derived from the mnemonic.
abbrev pub derived : Core → ℕ → Bytes
derived c logn = (if logn == 9 then falcon512_derive_seed c else falcon_derive_seed c).1

-- One thing that can happen to a device: a request, a power cycle, or a power cut between or
-- within the NVM writes of a KEYGEN for `logn`.
pub data Step (c : Core) : Device → Device → Type 0 where
  request : (r : Request) (d : Device) → Step c d (dispatch_lr c r d).0
  power_cycle : (d : Device) → Step c d (reboot d)
  power_cut :
      (logn : ℕ) (id : Bytes) (old k' : KeyRecord) (d : Device)
      → key_view logn d.nvm ≡ some old
      → (session_seed c logn d.ram).0 ≡ some id
      → key_ok old id ≡ false
      → Interrupted (keygen_writes c logn id (session_seed c logn d.ram).1) old k'
      → Step c d (record { ram = fresh_ram; nvm = set_record logn k' d.nvm })

-- The devices that can be reached with the core `c`, whose derivation is the mnemonic's. The NVM
-- may come from a history under another mnemonic, before a power cycle.
pub data Reach : Core → Device → Type 0 where
  start : (c : Core) → Reach c blank
  next : {c : Core} {d d' : Device} → Reach c d → Step c d d' → Reach c d'
  inherit :
      (c : Core) (other : List ℕ → Bytes → Bytes × Bytes) (d : Device)
      → Reach (record c { derive_node = other }) d
      → Reach c (reboot d)

pub record IsSoundNvm (c : Core) (nvm : NvmStorage) : Type 0 where
  pub genuine_512 : IsGenuine c 9 nvm.key_512
  pub genuine_1024 : IsGenuine c 10 nvm.key_1024

-- The cached seed, if there is one, is the mnemonic's for its degree.
abbrev pub IsCached : Core → Storage → Type 0
IsCached c s =
    ((s.seed_ready ≡ 9) → s.seed ≡ derived c 9) × ((s.seed_ready ≡ 10) → s.seed ≡ derived c 10)

pub session_seed-id :
    (c : Core) (logn : ℕ) (s : Storage)
    → (session_seed c logn s).0 ≡ some (falcon_lr_key_id c (session_seed c logn s).1.seed)
unfolding session_seed
session_seed-id c logn s = ground arith

session_seed-IsCached :
    (c : Core) (logn : ℕ) (s : Storage)
    → IsDegree logn
    → IsCached c s
    → IsCached c (session_seed c logn s).1
unfolding session_seed
session_seed-IsCached c logn s (inl e) h = rw e (ground (arith, h.0, h.1))
session_seed-IsCached c logn s (inr e) h = rw e (ground (arith, h.0, h.1))

pub session_seed-derived :
    (c : Core) (logn : ℕ) (s : Storage)
    → IsDegree logn
    → IsCached c s
    → (session_seed c logn s).1.seed ≡ derived c logn
unfolding session_seed
session_seed-derived c logn s (inl e) h = rw e (ground (arith, h.0, h.1))
session_seed-derived c logn s (inr e) h = rw e (ground (arith, h.0, h.1))

pub key_view-IsGenuine :
    (c : Core) (logn : ℕ) (nvm : NvmStorage) (k : KeyRecord)
    → IsSoundNvm c nvm
    → key_view logn nvm ≡ some k
    → IsDegree logn × IsGenuine c logn k
unfolding key_view
key_view-IsGenuine c logn nvm k h e = elim (Bool-cases (logn == 9)) [
  | inl nine ↦
      let n : logn ≡ 9 = ground arith in
      let same : nvm.key_512 ≡ k = ground arith in (inl n, rw (n, ← same) h.genuine_512)
  | inr other ↦ elim (Bool-cases (logn == 10)) [
    | inl ten ↦
        let n : logn ≡ 10 = ground arith in
        let same : nvm.key_1024 ≡ k = ground arith in (inr n, rw (n, ← same) h.genuine_1024)
    | inr none_left ↦ absurd (let bad : none ≡ some k = ground arith in cc)
  ]
]

set_record-IsSoundNvm :
    (c : Core) (logn : ℕ) (nvm : NvmStorage) (k : KeyRecord)
    → IsDegree logn
    → IsSoundNvm c nvm
    → IsGenuine c logn k
    → IsSoundNvm c (set_record logn k nvm)
unfolding set_record
set_record-IsSoundNvm c logn nvm k (inl e) h g =
    rw e (record { genuine_512 = rw e at g; genuine_1024 = h.genuine_1024 })
set_record-IsSoundNvm c logn nvm k (inr e) h g =
    rw e (record { genuine_512 = h.genuine_512; genuine_1024 = rw e at g })

-- A sign command leaves the cached seed as it was, or as `session_seed` fills it.
sign_command-seed :
    (c : Core) (buf : Buffer) (rng : Bytes) (p1 logn : ℕ) (k : KeyRecord) (s : Storage)
    → let s' = (sign_command c buf rng p1 logn k s).0 in
      let t = (session_seed c logn s).1 in
      ((s'.seed ≡ s.seed) × (s'.seed_ready ≡ s.seed_ready))
      ⊎ ((s'.seed ≡ t.seed) × (s'.seed_ready ≡ t.seed_ready))
unfolding sign_command sign_all sign_with sign_now
sign_command-seed c buf rng p1 logn k s = ground arith

pub record IsSound (c : Core) (d : Device) : Type 0 where
  pub nvm_sound : IsSoundNvm c d.nvm
  pub cached : IsCached c d.ram

module _ (c : Core) (sized : (logn : ℕ) → IsDegree logn → IsSized c logn) where
  regenerate-IsSound :
      (logn : ℕ) (k : KeyRecord) (d : Device)
      → IsDegree logn
      → IsGenuine c logn k
      → IsSound c d
      → IsSound c (regenerate c logn (falcon_lr_key_id c d.ram.seed) k d).0
  unfolding regenerate
  regenerate-IsSound logn k d degree g h =
      let ws = keygen_writes c logn (falcon_lr_key_id c d.ram.seed) d.ram in
      let new = set_record-IsSoundNvm c logn d.nvm (nvm_writes ws k) degree h.nvm_sound (
        keygen_writes-IsGenuine c logn degree (sized logn degree) d.ram k (nvm_writes ws k) g
          (nvm_writes-Interrupted ws k)) in
      elim (Bool-cases (new_keys c logn d.ram).ok) [
        | inl done ↦ rw done (record { nvm_sound = new; cached = h.cached })
        | inr failed ↦ rw failed (record { nvm_sound = new; cached = h.cached })
      ]

  keygen_with-IsSound :
      (logn : ℕ) (k : KeyRecord) (id : Option Bytes) (d : Device)
      → id ≡ some (falcon_lr_key_id c d.ram.seed)
      → IsDegree logn
      → IsGenuine c logn k
      → IsSound c d
      → IsSound c (keygen_with c logn k id d).0
  unfolding keygen_with
  keygen_with-IsSound logn k none d e degree g h = h
  keygen_with-IsSound logn k (some id) d e degree g h = elim (Bool-cases (key_ok k id)) [
    | inl good ↦ rw good h
    | inr stale ↦
        let same : id ≡ falcon_lr_key_id c d.ram.seed = cc in
        rw (stale, same) (regenerate-IsSound logn k d degree g h)
  ]

  seeded :
      (logn : ℕ) (d : Device)
      → IsDegree logn
      → IsSound c d
      → IsSound c (record d { ram = (session_seed c logn d.ram).1 })
  seeded logn d degree h = record {
    nvm_sound = h.nvm_sound;
    cached = session_seed-IsCached c logn d.ram degree h.cached;
  }

  keygen-IsSound :
      (buf : Buffer) (p1 logn : ℕ) (o : Option KeyRecord) (d : Device)
      → key_view logn d.nvm ≡ o
      → IsSound c d
      → IsSound c (keygen_viewed c buf p1 logn o d).0
  unfolding keygen_viewed
  keygen-IsSound buf p1 logn none d e h = h
  keygen-IsSound buf p1 logn (some k) d e h =
      let v = key_view-IsGenuine c logn d.nvm k h.nvm_sound e in
      let t = (session_seed c logn d.ram).1 in
      let run =
        keygen_with-IsSound logn k (session_seed c logn d.ram).0 (record d { ram = t })
          (session_seed-id c logn d.ram) v.0 v.1 (seeded logn d v.0 h) in
      elim (Bool-cases (p1 == 0)) [
        | inr bad ↦ rw bad h
        | inl fine ↦ elim (Bool-cases (buf.size == 0)) [
          | inr long ↦ rw (fine, long) h
          | inl empty ↦ rw (fine, empty) run
        ]
      ]

  get_pk-IsSound :
      (p1 logn : ℕ) (o : Option KeyRecord) (d : Device)
      → key_view logn d.nvm ≡ o
      → IsSound c d
      → IsSound c (get_pk_viewed c p1 logn o d).0
  unfolding get_pk_viewed
  get_pk-IsSound p1 logn none d e h = h
  get_pk-IsSound p1 logn (some k) d e h =
      seeded logn d (key_view-IsGenuine c logn d.nvm k h.nvm_sound e).0 h

  sign-IsSound :
      (buf : Buffer) (rng : Bytes) (p1 logn : ℕ) (o : Option KeyRecord) (d : Device)
      → key_view logn d.nvm ≡ o
      → IsSound c d
      → IsSound c (sign_viewed c buf rng p1 logn o d).0
  unfolding sign_viewed
  sign-IsSound buf rng p1 logn none d e h = h
  sign-IsSound buf rng p1 logn (some k) d e h =
      let v = key_view-IsGenuine c logn d.nvm k h.nvm_sound e in
      let t = session_seed-IsCached c logn d.ram v.0 h.cached in
      record {
        nvm_sound = h.nvm_sound;
        cached = elim (sign_command-seed c buf rng p1 logn k d.ram) [
          | inl (a, b) ↦ (λ r. a ∙ h.cached.0 (sym b ∙ r), λ r. a ∙ h.cached.1 (sym b ∙ r))
          | inr (a, b) ↦ (λ r. a ∙ t.0 (sym b ∙ r), λ r. a ∙ t.1 (sym b ∙ r))
        ];
      }

  get_sig-same :
      (buf : Buffer) (p1 p2 : ℕ) (d : Device) → (handler_falcon_lr_get_sig buf p1 p2 d).0 ≡ d
  unfolding handler_falcon_lr_get_sig
  get_sig-same buf p1 p2 d = ground arith

  dispatch_lr-IsSound : (r : Request) (d : Device) → IsSound c d → IsSound c (dispatch_lr c r d).0
  unfolding dispatch_lr handler_falcon_lr_keygen handler_falcon_lr_get_pk handler_falcon_lr_sign
  dispatch_lr-IsSound r d h = elim (Bool-cases (r.ins == falcon_lr_keygen)) [
    | inl a ↦ rw a (keygen-IsSound r.cdata r.p1 r.p2 (key_view r.p2 d.nvm) d refl h)
    | inr a ↦ elim (Bool-cases (r.ins == falcon_lr_get_pk)) [
      | inl b ↦ rw (a, b) (get_pk-IsSound r.p1 r.p2 (key_view r.p2 d.nvm) d refl h)
      | inr b ↦ elim (Bool-cases (r.ins == falcon_lr_sign)) [
        | inl e ↦ rw (a, b, e) (sign-IsSound r.cdata r.rng r.p1 r.p2 (key_view r.p2 d.nvm) d refl h)
        | inr e ↦ rw (a, b, e, get_sig-same r.cdata r.p1 r.p2 d) h
      ]
    ]
  ]

  -- Every step keeps the key records genuine and the cached seed the mnemonic's.
  pub Step-IsSound : {d d' : Device} → Step c d d' → IsSound c d → IsSound c d'
  unfolding reboot fresh_ram
  Step-IsSound (request r d) h = dispatch_lr-IsSound r d h
  Step-IsSound (power_cycle d) h = record {
    nvm_sound = h.nvm_sound;
    cached = (λ e. absurd (omega arith), λ e. absurd (omega arith));
  }
  Step-IsSound (power_cut logn id old k' d viewed named stale cut) h =
      let v = key_view-IsGenuine c logn d.nvm old h.nvm_sound viewed in
      let same : id ≡ falcon_lr_key_id c (session_seed c logn d.ram).1.seed =
        let e = session_seed-id c logn d.ram in cc in
      record {
        nvm_sound = set_record-IsSoundNvm c logn d.nvm k' v.0 h.nvm_sound (
            keygen_writes-IsGenuine c logn v.0 (sized logn v.0) (session_seed c logn d.ram).1 old k'
              v.1 (rw same at cut));
        cached = (λ e. absurd (omega arith), λ e. absurd (omega arith));
      }

blank-IsSound : (c : Core) → IsSound c blank
unfolding blank fresh_ram
blank-IsSound c = record {
  nvm_sound = record {
    genuine_512 = λ r. absurd (omega arith);
    genuine_1024 = λ r. absurd (omega arith);
  };
  cached = (λ e. absurd (omega arith), λ e. absurd (omega arith));
}

IsSized-other :
    (c : Core) (other : List ℕ → Bytes → Bytes × Bytes) (logn : ℕ)
    → IsSized c logn
    → IsSized (record c { derive_node = other }) logn
unfolding vk_to_h
IsSized-other c other logn s = record {
  tmp_fits = s.tmp_fits;
  sk_fits = s.sk_fits;
  vk_fits = s.vk_fits;
  fg_length = s.fg_length;
  h_length = s.h_length;
}

-- The records of another mnemonic are genuine for this core too: it generates the same keys.
IsSound-inherit :
    (c : Core) (other : List ℕ → Bytes → Bytes × Bytes) (d : Device)
    → IsSound (record c { derive_node = other }) d
    → IsSound c (reboot d)
unfolding reboot fresh_ram falcon_lr_key_id full_record raw_fg_f raw_h vk_to_h
IsSound-inherit c other d h = record {
  nvm_sound = record {
    genuine_512 = h.nvm_sound.genuine_512;
    genuine_1024 = h.nvm_sound.genuine_1024;
  };
  cached = (λ e. absurd (omega arith), λ e. absurd (omega arith));
}

-- With a core whose arrays have their documented sizes, in every device that can be reached a
-- record that claims to be ready holds all of one generated key under its identifier, and a
-- cached seed is the mnemonic's for its degree.
pub Reach-IsSound :
    {c : Core} {d : Device}
    → Reach c d
    → ((logn : ℕ) → IsDegree logn → IsSized c logn)
    → IsSound c d
Reach-IsSound (start c) sized = blank-IsSound c
Reach-IsSound (next {c = c} r s) sized = Step-IsSound c sized s (Reach-IsSound r sized)
Reach-IsSound (inherit c other d r) sized =
    IsSound-inherit c other d
      (Reach-IsSound r (λ logn degree. IsSized-other c other logn (sized logn degree)))
