-- ===== src/Uring/Submission.antt =====
-- uring/src/sqe.rs: the submission queue. The words that the kernel shares stand in the state; the
-- system call is a parameter. Arithmetic on `u32` wraps, as in a release build.
pub mod Space
pub mod Submit
use hamerkop.Base.{
  ℕ, ◌+◌, ◌-◌, ◌%◌, ◌^◌, Bool, true, false, Option, none, some, List, if◌then◌else◌, leb, ltb, ◌==◌,
  bit_and, bit_or, sub32, add32, Outcome,
}
use hamerkop.Uring.Raw.{SubmissionQueueEvent}
use hamerkop.Uring.RingBuf.{RingBuf, new}

-- the flags of uring/src/flags.rs that are used here
abbrev pub setup_sqpoll : ℕ
setup_sqpoll = 2

abbrev pub sq_need_wakeup : ℕ
sq_need_wakeup = 1

abbrev pub enter_getevents : ℕ
enter_getevents = 1

abbrev pub enter_sq_wakeup : ℕ
enter_sq_wakeup = 2

-- `bitflags`: every bit of `flag` is in `bits`.
abbrev pub contains : ℕ → ℕ → Bool
contains bits flag = bit_and bits flag == flag

-- `khead` and `kflags` are the kernel's to write, `ktail` and `sqe_tail` the application's.
pub record SubmissionQueue : Type 0 where
  pub khead : ℕ
  pub ktail : ℕ
  pub kring_mask : ℕ
  pub kring_entries : ℕ
  pub kflags : ℕ
  pub sqes_memory : List SubmissionQueueEvent
  pub sqe_tail : ℕ
  pub fd : ℕ
  pub flags : ℕ

-- what `io_uring_enter` returns, `errno` behind it, and what the kernel wrote to the shared words
pub record Entered : Type 0 where
  pub returned : ℕ
  pub errno : ℕ
  pub new_khead : ℕ
  pub new_kflags : ℕ

-- `io_uring_enter` with `to_submit`, `min_complete` and `flags`
abbrev pub IoUringEnter : Type 0
IoUringEnter = SubmissionQueue → ℕ → ℕ → ℕ → Entered

-- `io::Result`
pub data IoResult (A : Type 0) : Type 0 where
  ok : A → IoResult A
  os_error : ℕ → IoResult A

-- `sysresult!`: a negative `c_int` is an error, whose code `errno` holds.
unfoldable pub sysresult : ℕ → ℕ → IoResult ℕ
sysresult returned errno = if leb (2 ^ 31) returned then os_error errno else ok returned

unfoldable pub wrapping_dist : ℕ → ℕ → ℕ → ℕ
wrapping_dist a b mask =
    let size = add32 mask 1 in
    let a' = bit_and a mask in
    let b' = bit_and b mask in if a' == b' then size else bit_and (sub32 a' b') mask

unfoldable pub enter_flags : SubmissionQueue → ℕ → Option ℕ
enter_flags q submitted =
    if contains q.flags setup_sqpoll
    then (if bit_and q.kflags sq_need_wakeup == 0 then none else some enter_sq_wakeup)
    else (if ltb 0 submitted then some 0 else none)

unfoldable pub free_sqes : SubmissionQueue → ℕ
free_sqes q = wrapping_dist q.khead q.ktail q.kring_mask

unfoldable pub queue_size : SubmissionQueue → ℕ
queue_size q = q.kring_entries

unfoldable pub sqes : SubmissionQueue → Outcome (RingBuf SubmissionQueueEvent)
sqes q =
    let available = wrapping_dist q.khead q.ktail q.kring_mask in
    new q.sqes_memory q.ktail available q.kring_mask

unfoldable pub advance : SubmissionQueue → ℕ → SubmissionQueue
advance q count = record q { ktail = add32 q.ktail count }

-- The flags that are wanted join those so far, and the call is made.
abbrev pub join_flags : ℕ × Bool → Option ℕ → ℕ × Bool
join_flags start none = start
join_flags start (some newflags) = (bit_or start.0 newflags, true)

-- the flags of the call, and whether it is made
unfoldable pub entry_plan : SubmissionQueue → ℕ → ℕ → ℕ × Bool
entry_plan q submitted wait_for =
    join_flags (if wait_for == 0 then (0, false) else (enter_getevents, true))
      (enter_flags q submitted)

-- the `?` behind the call, and what follows it
abbrev pub finish : SubmissionQueue → ℕ → ℕ → IoResult ℕ → IoResult ℕ × SubmissionQueue
finish q submitted tail (os_error code) = (os_error code, q)
finish q submitted tail (ok n) = (ok submitted, record q { sqe_tail = tail })

abbrev pub written_by : SubmissionQueue → Entered → SubmissionQueue
written_by q e = record q { khead = e.new_khead; kflags = e.new_kflags }

unfoldable pub submit_and_wait : IoUringEnter → SubmissionQueue → ℕ → IoResult ℕ × SubmissionQueue
submit_and_wait io_uring_enter q wait_for =
    let tail = q.ktail in
    let submitted = sub32 tail q.sqe_tail in
    let plan = entry_plan q submitted wait_for in
    if plan.1
    then (let e = io_uring_enter q submitted wait_for plan.0 in
        finish (written_by q e) submitted tail (sysresult e.returned e.errno))
    else (ok submitted, record q { sqe_tail = tail })

unfoldable pub submit : IoUringEnter → SubmissionQueue → IoResult ℕ × SubmissionQueue
submit io_uring_enter q = submit_and_wait io_uring_enter q 0
