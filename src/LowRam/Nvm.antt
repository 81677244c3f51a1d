-- ===== src/LowRam/Nvm.antt =====
-- Key records in NVM: the writes that reach them one `nvm_write` at a time, and the test that a
-- record is usable (`key_ok`; src/handler/handler_falcon_lowram.c, falcon_lowram_nvm.h).
use zknox_hw_falcon.Common.{ℕ, Bytes, List, [], ◌∷◌, Bool, ◌&&◌, ◌==◌, if◌then◌else◌}
use zknox_hw_falcon.LowRam.State.{KeyRecord, NvmStorage}
use zknox_hw_falcon.LowRam.Seed.{falcon_lr_ct_eq32}

-- `FALCON_LR_NVM_FMT`
abbrev pub nvm_fmt : ℕ
nvm_fmt = 1

-- One `nvm_write` into a field of a key record.
pub data NvmWrite : Type 0 where
  write_key_id : Bytes → NvmWrite
  write_fg_f : Bytes → NvmWrite
  write_h : Bytes → NvmWrite
  write_fmt : ℕ → NvmWrite
  write_ready : ℕ → NvmWrite

unfoldable pub nvm_write : NvmWrite → KeyRecord → KeyRecord
nvm_write (write_key_id id) k = record k { key_id = id }
nvm_write (write_fg_f b) k = record k { f_g_F = b }
nvm_write (write_h b) k = record k { h = b }
nvm_write (write_fmt v) k = record k { fmt = v }
nvm_write (write_ready v) k = record k { ready = v }

unfoldable pub nvm_writes : List NvmWrite → KeyRecord → KeyRecord
unfolding nvm_write
nvm_writes [] k = k
nvm_writes (w ∷ ws) k = nvm_writes ws (nvm_write w k)

-- The record behind the pointers of `key_view` is replaced.
unfoldable pub set_record : ℕ → KeyRecord → NvmStorage → NvmStorage
set_record logn k nvm =
    if logn == 9 then record nvm { key_512 = k } else record nvm { key_1024 = k }

-- `key_ok`
unfoldable pub key_ok : KeyRecord → Bytes → Bool
key_ok k id = k.ready == 1 && k.fmt == nvm_fmt && falcon_lr_ct_eq32 k.key_id id
