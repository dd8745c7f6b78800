-- ===== src/Util.antt =====
-- hamerkop/src/util: `dedup_partial`.
pub mod Dedup
pub mod Chunks
pub mod Join
mod Tests
