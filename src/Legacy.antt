-- ===== src/Legacy.antt =====
-- The handlers of the archived Falcon-1024 core (legacy/src/handler), which FALCON_CORE=legacy
-- builds: the host keeps the signing tree, and the device reads it back node by node.
pub mod Outsourced
pub mod OutsourcedLaws
pub mod State
pub mod Dfs
pub mod Level0
pub mod Stream
pub mod Overrun
pub mod Swap
pub mod Sign
pub mod StreamBytes
pub mod StreamBlocks
pub mod Tree
pub mod Records
pub mod TreeWalk
pub mod StreamSplit
pub mod Half
pub mod Sizes
pub mod Ends
pub mod Inputs
pub mod Session
pub mod Reach
pub mod HostSignature
pub mod Overwrite
pub mod Keygen
pub mod Expand
pub mod ExpandRequests
pub mod Toy
mod Tests
mod ExpandTests
pub mod Stage
pub mod ExpandStep
pub mod ExpandLeaf
pub mod ExpandFrame
pub mod ExpandRoom
pub mod ExpandNode
pub mod ExpandWalk
pub mod ExpandHalves
pub mod Accepts
pub mod ExpandChunks
pub mod ExpandDelivered
