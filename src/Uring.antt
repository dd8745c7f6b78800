-- ===== src/Uring.antt =====
-- uring: the bindings of the kernel's rings.
pub mod Raw
pub mod Files
pub mod Sockets
pub mod Control
pub mod RingBuf
pub mod Submission
pub mod Completion
pub mod System
pub mod Setup
pub mod Registrar
pub mod Probe
pub mod Request
pub mod Decode
pub mod RoundTrip
pub mod Marks
mod Tests
