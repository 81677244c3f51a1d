-- ===== src/LowRam/Integrity.antt =====
-- Power cuts during KEYGEN, and what a key record that passes `key_ok` must hold
-- (src/handler/handler_falcon_lowram.c, src/handler/falcon_lowram_nvm.h).
use zknox_hw_falcon.Common.{
  ℕ, ◌≡◌, ◌⊎◌, inl, inr, refl, ap, ◌∙◌, Bytes, List, [], ◌∷◌, Bool, true, false, arith,
  if◌then◌else◌,
}
use zknox_hw_falcon.LowRam.State.{Core, KeyRecord, Storage}
use zknox_hw_falcon.LowRam.Seed.{falcon_lr_key_id}
use zknox_hw_falcon.LowRam.Nvm.{
  NvmWrite, write_key_id, write_fg_f, write_h, write_fmt, write_ready, nvm_write, nvm_writes,
}
use zknox_hw_falcon.LowRam.Keygen.{keygen_writes, keygen_tmp_len, new_keys, persist, working_area}
use zknox_hw_falcon.LowRam.Persist.{IsDegree, IsSized, IsLaidOut-degree, full_record, persist-full}

-- A field of many bytes may be left with any contents when its write is cut short.
abbrev pub Torn : NvmWrite → KeyRecord → KeyRecord → Type 0
Torn (write_key_id _) k k' = (b : Bytes) × (k' ≡ record k { key_id = b })
Torn (write_fg_f _) k k' = (b : Bytes) × (k' ≡ record k { f_g_F = b })
Torn (write_h _) k k' = (b : Bytes) × (k' ≡ record k { h = b })
Torn (write_fmt _) k k' = ⊥
Torn (write_ready _) k k' = ⊥

-- `k'` is what a power cut can leave of `k` while the writes `ws` are made.
abbrev pub Interrupted : List NvmWrite → KeyRecord → KeyRecord → Type 0
Interrupted [] k k' = k' ≡ k
Interrupted (w ∷ ws) k k' = (k' ≡ k) ⊎ (Torn w k k' ⊎ Interrupted ws (nvm_write w k) k')

-- All the writes, made in full, are one way to be interrupted: at the very end.
pub nvm_writes-Interrupted :
    (ws : List NvmWrite) (k : KeyRecord) → Interrupted ws k (nvm_writes ws k)
unfolding nvm_writes
nvm_writes-Interrupted [] k = refl
nvm_writes-Interrupted (w ∷ ws) k = inr (inr (nvm_writes-Interrupted ws (nvm_write w k)))

-- A record that claims to be ready holds all of one generated key, under its identifier.
abbrev pub IsGenuine : Core → ℕ → KeyRecord → Type 0
IsGenuine c logn k =
    k.ready ≡ 1
    → (seed : Bytes) × ((c.keygen logn seed (keygen_tmp_len logn)).ok ≡ true)
      × (k
          ≡ full_record c logn (falcon_lr_key_id c seed) (c.keygen logn seed (keygen_tmp_len logn)))

-- While the fields are written the record is not ready; it is when all of them are.
persist-Interrupted :
    (a b h : Bytes) (v : ℕ) (k k' : KeyRecord)
    → k.ready ≡ 0
    → Interrupted
        (write_key_id a ∷ write_fg_f b ∷ write_h h ∷ write_fmt v ∷ write_ready 1 ∷ [])
        k
        k'
    → (k'.ready ≡ 0)
      ⊎ (k'
          ≡ nvm_writes
              (write_key_id a ∷ write_fg_f b ∷ write_h h ∷ write_fmt v ∷ write_ready 1 ∷ [])
              k)
unfolding nvm_write nvm_writes
persist-Interrupted a b h v k k' r i = ground arith

module _ (c : Core) (logn : ℕ) (degree : IsDegree logn) (sized : IsSized c logn) (s : Storage) where
  pub working_area-full :
      (id : Bytes) (old : KeyRecord)
      → nvm_writes (persist logn id (working_area c logn s)) old
        ≡ full_record c logn id (new_keys c logn s)
  unfolding working_area
  working_area-full =
      persist-full c logn (new_keys c logn s) s.area (IsLaidOut-degree logn degree) sized
        (sized.tmp_fits s.seed) (sized.sk_fits s.seed) (sized.vk_fits s.seed)

  after_invalidation :
      (old k' : KeyRecord) (id : Bytes) (b : Bool)
      → (new_keys c logn s).ok ≡ b
      → Interrupted
          (if b then persist logn id (working_area c logn s) else [])
          (record old { ready = 0 })
          k'
      → (k'.ready ≡ 0)
        ⊎ (((new_keys c logn s).ok ≡ true) × (k' ≡ full_record c logn id (new_keys c logn s)))
  unfolding persist
  after_invalidation old k' id true e i =
      elim (persist-Interrupted id _ _ _ (record old { ready = 0 }) k' refl i) [
        | inl not_ready ↦ inl not_ready
        | inr whole ↦ inr (e, whole ∙ working_area-full id (record old { ready = 0 }))
      ]
  after_invalidation old k' id false e i = inl (ap (λ (k : KeyRecord). k.ready) i)

  -- A cut leaves the old record, one that is not ready, or the complete new one.
  pub keygen_writes-Interrupted :
      (old k' : KeyRecord) (id : Bytes)
      → Interrupted (keygen_writes c logn id s) old k'
      → (k' ≡ old)
        ⊎ ((k'.ready ≡ 0)
            ⊎ (((new_keys c logn s).ok ≡ true) × (k' ≡ full_record c logn id (new_keys c logn s))))
  unfolding keygen_writes persist nvm_write
  keygen_writes-Interrupted old k' id (inl same) = inl same
  keygen_writes-Interrupted old k' id (inr (inl torn)) = elim torn [ ]
  keygen_writes-Interrupted old k' id (inr (inr rest)) =
      inr (after_invalidation old k' id (new_keys c logn s).ok refl rest)

  -- Wherever a power cut falls in the NVM writes of a KEYGEN, with a core whose arrays have their
  -- documented sizes: if a ready record held all of one generated key under its identifier before,
  -- then so it does after.
  pub keygen_writes-IsGenuine :
      (old k' : KeyRecord)
      → IsGenuine c logn old
      → Interrupted (keygen_writes c logn (falcon_lr_key_id c s.seed) s) old k'
      → IsGenuine c logn k'
  keygen_writes-IsGenuine old k' g i r =
      elim (keygen_writes-Interrupted old k' (falcon_lr_key_id c s.seed) i) [
        | inl same ↦ rw same (g (rw same at r))
        | inr (inl not_ready) ↦ absurd (omega arith)
        | inr (inr whole) ↦ (s.seed, whole.0, whole.1)
      ]
