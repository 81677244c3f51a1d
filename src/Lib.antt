-- ===== src/Lib.antt =====
-- A Ledger app that signs with Falcon: a model of its C code and what is proved of it.
--
-- The app has two parts, behind one APDU dispatcher (src/apdu/dispatcher.c). The wallet part is
-- the boilerplate of a Ledger app: it parses a transaction, shows it, and signs its hash with
-- ECDSA, also on behalf of the Exchange app (swap). The Falcon part keeps one Falcon key per
-- degree (512 and 1024) in NVM, generates it from a seed that is derived from the mnemonic, and
-- signs 32-byte messages with it.
--
-- The modules:
--   Common            shared names, Boolean tests, lists over the native numbers, memory as a
--                     function (Memory), buffers, status words and responses (Apdu), bits (Bits)
--   LowRam.State      falcon_lr_storage_t, the key records (globals.h, falcon_lowram_nvm.h), and
--                     Core, the functions that are parameters: the Falcon core, SHAKE256, the
--                     derivation of a node
--   LowRam.Seed, Nvm  derive.c, session_seed, falcon_lr_key_id, falcon_lr_ct_eq32; nvm_write
--   LowRam.Keygen, Sign, Requests
--                     src/handler/handler_falcon_lowram.c and fndsa_falcon_sign_seeded_temp; the
--                     four Falcon instructions of the dispatcher, sessions and power cycles
--   LowRam.Layout, Persist, Integrity, Sessions, Signing, OneSeed, SignSession, Rerun, Chunks,
--   LowRam.CtEq       the proofs about the Falcon part
--   Falcon            hash_to_point (src/falcon_lowram/fndsa_util.c) and the proof about it
--   Wallet.State, Sdk the data of the wallet part (types.h, tx_types.h), and the SDK's functions
--   Wallet.Parse, Serialize, Token, Review, Swap, SignTx, Dispatcher
--                     src/transaction, src/token, src/ui, src/swap, src/handler, src/apdu and
--                     the loop of src/app_main.c
--   Wallet.ParseLaws, RoundTrip, TokenLookup, SwapCopy, SwapCheck, Reviewed, RawTx, Refusals
--                     the proofs about the wallet part
--   Legacy.Outsourced legacy/src/handler/cx_outsourced.c
--   Legacy.State, Dfs, Level0, Stream, Overrun, Swap, Sign
--                     legacy/src/handler/handler_falcon_sign.c, and Reference, the functions of
--                     the Falcon reference library, which are parameters
--   Legacy.Keygen, Expand, ExpandRequests
--                     handler_falcon.c and handler_falcon_keygen_expand.c beside it
--   Legacy.OutsourcedLaws, StreamBytes, StreamBlocks, StreamSplit, Tree, Records, TreeWalk, Half,
--   Legacy.Sizes, Ends, Inputs, Session, Reach, HostSignature, Stage, ExpandStep, ExpandLeaf,
--   Legacy.ExpandFrame, ExpandRoom, ExpandNode, ExpandWalk, ExpandHalves, Accepts,
--   Legacy.ExpandChunks, ExpandDelivered, Overwrite
--                     the proofs about the archived handlers
--   LowRam.Toy, LowRam.Tests, Wallet.Toy, Wallet.Tests, Legacy.Toy, Legacy.Tests,
--   Legacy.ExpandTests
--                     concrete parameters, and the theorems at concrete inputs
--
-- How code corresponds to definitions: a C function is the definition of its name, and a part
-- of it that stands alone here is named after what it does. State is passed explicitly. The
-- globals of the wallet part are App, those of the Falcon part are Device, whose RAM is lost at a
-- power cycle and whose NVM is kept. A handler gives the new state and a response, or an
-- Outcome where it may also start a review or end the app. A pointer into the accumulated
-- transaction is an offset or none for NULL, and the ticker of a token is a reference, since the
-- source does not copy it. The working area of the Falcon part is memory from its 32-byte
-- aligned start. NVM is written one nvm_write at a time, so that a power cut can fall between
-- any two of them. In the archived signing handler a fpr is its eight bytes, and a copy that runs
-- over the 24576 bytes of `stk` changes the fields behind it, at their offsets on a 32-bit target;
-- what it changes behind the context is left out.
--
-- Fuel: hash_to_point has one unit for each 16-bit word that it reads, and what it returns is
-- stated for every fuel that covers enough accepted words. The inner subtraction loop has fuel 5,
-- and four subtractions are enough. The loops of the archived signing handler over the bytes of a
-- request have two units for each byte and one more, and the keystream loop has one for each byte.
--
-- Not modelled: the Falcon core itself (src/falcon_lowram is c-fn-dsa-alt) except the parts named
-- above; the Falcon reference library of the archived core (legacy/src/zknox), its cases of the
-- dispatcher, and that its handlers share one area of memory; the settings menu and the NBGL
-- pages; PRINTF; LEDGER_ASSERT on pointers that the callers never leave NULL; the SDK, whose
-- functions are parameters.
pub mod Common
pub mod LowRam
pub mod Wallet
pub mod Falcon
pub mod Legacy
