-- ===== src/FixedVec.antt =====
-- hamerkop/src/fixedvec.rs: `FixedVec`, a vector in a boxed slice of fixed length.
-- The children hold the raw memory, the operations by groups, and the theorems.
pub mod Cells
pub mod Ops
pub mod Bulk
pub mod Drain
pub mod Rep
pub mod Push
pub mod Keep
pub mod Transfer
pub mod Streams
pub mod Extend
pub mod Compare
pub mod Draining
mod Tests
