-- ===== src/Uring/RoundTrip.antt =====
-- Each request against its entry: `prep_sqe` writes what the kernel reads.
use hamerkop.Uring.Request.{Request}
