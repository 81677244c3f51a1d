-- ===== src/Falcon.antt =====
-- The parts of the Falcon core that this repository wrote or changed.
pub mod HashToPoint
pub mod Rejection
