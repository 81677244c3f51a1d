-- ===== src/LowRam.antt =====
-- The lowram Falcon handlers: src/handler/handler_falcon_lowram.c with the NVM records of
-- src/handler/falcon_lowram_nvm.h, the seed derivation of src/zknox/keys/derive.c and the
-- signing entry point of src/falcon_lowram/fndsa_sign.c.
pub mod State
pub mod Seed
pub mod CtEq
pub mod Nvm
pub mod Keygen
pub mod Layout
pub mod Persist
pub mod Integrity
pub mod Sign
pub mod Requests
pub mod Sessions
pub mod Signing
pub mod OneSeed
pub mod Chunks
pub mod Rerun
pub mod SignSession
pub mod Toy
mod Tests
