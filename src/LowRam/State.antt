-- ===== src/LowRam/State.antt =====
-- The state of the lowram handlers (src/globals.h, src/handler/falcon_lowram_nvm.h), and what
-- they call that is not modelled: the Falcon core, SHAKE256 and the SDK's key derivation.
use zknox_hw_falcon.Common.{
  ℕ, Bytes, List, Bool, Option, some, none, replicate, ◌==◌, if◌then◌else◌,
}
use zknox_hw_falcon.Common.Memory.{Memory}

-- What `fndsa_keygen_seeded_temp` leaves: its result, the two encoded keys, and the contents of
-- its temporary area.
pub record Keys : Type 0 where
  pub ok : Bool
  pub sk : Bytes
  pub vk : Bytes
  pub tmp : Bytes

-- What `sign_core` leaves: the signature length or 0, the start of the output buffer, and the
-- contents of its temporary area.
pub record Signed : Type 0 where
  pub len : ℕ
  pub sig : Bytes
  pub tmp : Bytes

-- The functions that the handlers call and that are not translated here. Each is a function of
-- the bytes that it is given.
pub record Core : Type 0 where
  -- `os_perso_derive_node_with_seed_key` at a path and a seed key: private key, chain code
  pub derive_node : List ℕ → Bytes → Bytes × Bytes
  -- SHAKE256 of the injected bytes, at an output length
  pub shake256 : Bytes → ℕ → Bytes
  -- `fndsa_keygen_seeded_temp(logn, seed, 32, …, tmp_len)`
  pub keygen : ℕ → Bytes → ℕ → Keys
  -- `trim_i8_decode(logn, d, f, nbits)`: the n coefficients
  pub trim_i8_decode : ℕ → Bytes → ℕ → Bytes
  -- `mqpoly_decode` and the three in-place conversions
  pub mqpoly_decode : ℕ → Bytes → List ℕ
  pub mqpoly_ext_to_int : ℕ → List ℕ → List ℕ
  pub mqpoly_ntt_to_int : ℕ → List ℕ → List ℕ
  pub mqpoly_int_to_ext : ℕ → List ℕ → List ℕ
  -- `sign_core(logn, fgF, mu, mu_len, seed, seed_len, sig, tmp)`
  pub sign_core : ℕ → Bytes → Bytes → Bytes → Signed

-- `falcon_lr_key512_t`, `falcon_lr_key1024_t`: `f`, `g` and `F` are contiguous and are written
-- and read as one array of 3n bytes.
pub record KeyRecord : Type 0 where
  pub key_id : Bytes
  pub f_g_F : Bytes
  pub h : Bytes
  pub fmt : ℕ
  pub ready : ℕ

-- `N_falcon_lr_key_512_storage`, `N_falcon_lr_key_1024_storage`
pub record NvmStorage : Type 0 where
  pub key_512 : KeyRecord
  pub key_1024 : KeyRecord

-- `falcon_lr_storage_t`; `area` is addressed from its 32-byte aligned start, `area_ptr()`.
pub record Storage : Type 0 where
  pub area : Memory
  pub out : Bytes
  pub msg : Bytes
  pub sign_seed : Bytes
  pub seed : Bytes
  pub seed_ready : ℕ
  pub msg_ready : ℕ
  pub sseed_ready : ℕ
  pub sig_ready : ℕ

pub record Device : Type 0 where
  pub ram : Storage
  pub nvm : NvmStorage

-- `sizeof g_falcon_lr.out`
abbrev pub out_size : ℕ
out_size = 2089

-- The zeroed BSS of a fresh session.
unfoldable pub fresh_ram : Storage
fresh_ram = record {
  area = λ _. 0;
  out = replicate out_size 0;
  msg = replicate 32 0;
  sign_seed = replicate 40 0;
  seed = replicate 32 0;
  seed_ready = 0;
  msg_ready = 0;
  sseed_ready = 0;
  sig_ready = 0;
}

-- `key_view`: the record of a degree, or none for another `logn`.
unfoldable pub key_view : ℕ → NvmStorage → Option KeyRecord
key_view logn nvm =
    if logn == 9 then some nvm.key_512 else if logn == 10 then some nvm.key_1024 else none
