-- ===== src/Uring/Completion.antt =====
-- uring/src/cqe.rs and the completion flags of uring/src/flags.rs: the completion queue. Arithmetic on
-- `u32` wraps, and `debug_assert!` is off, as in a release build.
pub mod Order
use hamerkop.Base.{
  ℕ, ◌+◌, ◌-◌, ◌/◌, ◌%◌, ◌^◌, Bool, true, false, Option, none, some, List, if◌then◌else◌, leb, ltb,
  ◌==◌, bit_and, bit_or, sub32, add32, u32_mod, Outcome,
}
use hamerkop.Uring.RingBuf.{RingBuf, new}
use hamerkop.Uring.Submission.{IoResult, ok, os_error, sysresult, contains, enter_getevents}

pub record CompletionQueueEvent : Type 0 where
  pub user_data : ℕ
  pub res : ℕ
  pub flags : ℕ

-- `khead` is the application's to write, `ktail` and the entries the kernel's.
pub record CompletionQueue : Type 0 where
  pub khead : ℕ
  pub ktail : ℕ
  pub kring_mask : ℕ
  pub cqes_memory : List CompletionQueueEvent
  pub fd : ℕ

unfoldable pub available : CompletionQueue → Outcome (RingBuf CompletionQueueEvent)
available q = new q.cqes_memory (bit_and q.khead q.kring_mask) (sub32 q.ktail q.khead) q.kring_mask

unfoldable pub advance : CompletionQueue → ℕ → CompletionQueue
advance q count = record q { khead = add32 q.khead (count % u32_mod) }

-- `io_uring_enter` for completions: by `to_submit`, `min_complete` and `flags`, what it returns,
-- `errno`, and the queue after it
abbrev pub WaitEnter : Type 0
WaitEnter = CompletionQueue → ℕ → ℕ → ℕ → ℕ × (ℕ × CompletionQueue)

unfoldable pub wait_n : WaitEnter → CompletionQueue → ℕ → IoResult (Unit {0}) × CompletionQueue
wait_n io_uring_enter q count =
    let e = io_uring_enter q 0 (count % u32_mod) enter_getevents in
    elim (sysresult e.0 e.1.0) [ os_error code ↦ (os_error code, e.1.1) | ok n ↦ (ok tt, e.1.1) ]

unfoldable pub wait : WaitEnter → CompletionQueue → IoResult (Unit {0}) × CompletionQueue
wait io_uring_enter q = wait_n io_uring_enter q 1

unfoldable pub has_next : CompletionQueue → Bool
has_next q = ltb q.khead q.ktail

abbrev pub flag_buffer : ℕ
flag_buffer = 1

-- `CompletionFlags::buf_id`
unfoldable pub flags_buf_id : ℕ → Option ℕ
flags_buf_id bits = if contains bits flag_buffer then some (bits / 2 ^ 16 % 2 ^ 16) else none

unfoldable pub buf_id : CompletionQueueEvent → Option ℕ
buf_id e = flags_buf_id e.flags

-- `resultify!`: the number of the error is the negated result.
unfoldable pub result : CompletionQueueEvent → IoResult ℕ
result e = if leb (2 ^ 31) e.res then os_error (sub32 0 e.res) else ok e.res
