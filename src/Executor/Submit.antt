-- ===== src/Executor/Submit.antt =====
-- hamerkop/src/executor/handle.rs and future.rs: `IOContext::submit`, `CompletionFuture`, and `LinkedSubmitter`. Each
-- call of the kernel is an element of a list that the environment gives: how it answers, and what it puts into the
-- completion queue. Where the list runs out the result is `none`.
pub mod Retry
pub mod Waiting
pub mod Links
use hamerkop.Base.{
  ℕ, zero, suc, ◌+◌, ◌-◌, ◌%◌, ◌^◌, Bool, true, false, ◌||◌, Option, none, some, List, [], ◌∷◌,
  ◌++◌, ◌==◌, if◌then◌else◌, leb, length, set, bit_and, bit_or, u32_mod, usize_mod, Outcome, done,
  panics, ◌>>=◌, ◌>>◌, assert, unwrap, not,
}
use hamerkop.Slotmap.{StableSlotmap, get, get_mut, insert, remove}
use hamerkop.FixedVec.Ops.{FixedVec, capacity, clear, set_len}
use hamerkop.Uring.Raw.{
  SubmissionQueueEvent, set_user_data, set_flags, add_flags, set_buf_group, descriptor,
}
use hamerkop.Uring.Files.{new_read, prep_read, new_write, prep_write}
use hamerkop.Uring.Control.{
  new_async_cancel, prep_async_cancel, new_provide_buffers, prep_provide_buffers,
}
use hamerkop.Uring.RingBuf.{RingBuf}
use hamerkop.Uring.RingBuf as RingBuf
use hamerkop.Uring.Submission.{
  SubmissionQueue, IoUringEnter, IoResult, ok, os_error, sqes, queue_size, submit_and_wait,
}
use hamerkop.Uring.Submission as Submission
use hamerkop.Uring.Completion.{CompletionQueue, CompletionQueueEvent, buf_id, result}
use hamerkop.Executor.{
  IoContext, CompletionEvent, CleanupAction, new_event, no_task_sentinel, dead_task_sentinel,
  delete_buffer_on_error, process_cqes,
}

abbrev pub ebusy : ℕ
ebusy = 16

abbrev pub eagain : ℕ
eagain = 11

abbrev pub io_link : ℕ
io_link = 4

-- `SubmissionFlags::all()`; a complement of flags keeps within it
abbrev pub all_flags : ℕ
all_flags = 63

abbrev pub async : ℕ
async = 16

abbrev pub buffer_select : ℕ
buffer_select = 32

pub record Kernel : Type 0 where
  pub enter : IoUringEnter
  pub post : CompletionQueue → CompletionQueue

pub record CompletionFuture : Type 0 where
  pub cqid : ℕ
  pub must_wait : Bool

-- a result, the context after it, and the calls of the kernel that are left
abbrev pub Io : Type 0 → Type 0 → Type 0
Io F A = Outcome (Option (A × (IoContext F × List Kernel)))

abbrev pub retried : ℕ → Bool
retried code = (code == ebusy) || (code == eagain)

-- a write through `get_mut(index)` of the ring that `sqes` gives
abbrev pub write_sqe :
    RingBuf SubmissionQueueEvent → ℕ → SubmissionQueueEvent → SubmissionQueue → SubmissionQueue
write_sqe ring index sqe q = record q {
  sqes_memory = set q.sqes_memory (bit_and ((ring.offset + index) % usize_mod) ring.mask) sqe;
}

unfoldable pub set_must_wait : CompletionFuture → Bool → CompletionFuture
set_must_wait fut must_wait = record fut { must_wait = must_wait }

module _ {F : Type 0} where
  unfoldable pub submit : List Kernel → ℕ → IoContext F → Io F (IoResult (Unit {0}))
  submit [] wait_for ctx = done none
  submit (kernel ∷ later) wait_for ctx =
      let r = submit_and_wait kernel.enter ctx.sq wait_for in
      let ctx1 = record ctx { sq = r.1; cq = kernel.post ctx.cq } in
      elim r.0 [
        | ok n ↦ done (some (ok tt, (ctx1, later)))
        | os_error code ↦
            if retried code
            then (process_cqes ctx1 >>= λ p.
                submit later wait_for (record p.0 { woken = p.0.woken ++ p.1 }))
            else done (some (os_error code, (ctx1, later)))
      ]

  unfoldable pub from_ctx : IoContext F → Outcome (CompletionFuture × IoContext F)
  from_ctx ctx = insert ctx.completions (new_event no_task_sentinel) >>= λ r.
      done (record { cqid = r.0; must_wait = false }, record ctx { completions = r.1 })

  -- `current_task` is what the thread's cell holds; `none` of the result is `Poll::Pending`.
  unfoldable pub poll :
      Option ℕ
      → CompletionFuture
      → IoContext F
      → Outcome (Option CompletionQueueEvent × IoContext F)
  poll current_task fut ctx = unwrap (get ctx.completions fut.cqid) >>= λ cq.
      unwrap current_task >>= λ task. done (
        cq.cqe,
        record ctx {
          completions = (get_mut ctx.completions fut.cqid (record cq { task = task })).1;
        },
      )

  -- The loop for a free entry. `drop` ignores the errors of a submission, `submit_sqe` returns them.
  unfoldable pub free_sqe :
      Bool → ℕ → List Kernel → ℕ → IoContext F → Io F (IoResult (RingBuf SubmissionQueueEvent))
  free_sqe ignores zero kernels index ctx = done none
  free_sqe ignores (suc fuel) kernels index ctx = sqes ctx.sq >>= λ ring.
      RingBuf.get ring index >>= λ slot. elim slot [
        | some sqe ↦ done (some (ok ring, (ctx, kernels)))
        | none ↦ submit kernels 0 ctx >>= λ r. elim r [
          | none ↦ done none
          | some (answer, (ctx1, later)) ↦
              let again = free_sqe ignores fuel later index ctx1 in
              elim answer [
                | ok t ↦ again
                | os_error code ↦
                    if ignores then again else done (some (os_error code, (ctx1, later)))
              ]
        ]
      ]

  -- the loop of `drop` until the completion has its event
  unfoldable pub await_event : ℕ → List Kernel → ℕ → IoContext F → Io F (Unit {0})
  await_event zero kernels cqid ctx = done none
  await_event (suc fuel) kernels cqid ctx = submit kernels 1 ctx >>= λ r. elim r [
    | none ↦ done none
    | some (answer, (ctx1, later)) ↦ unwrap (get ctx1.completions cqid) >>= λ ce. elim ce.cqe [
      | some cqe ↦ done (some (tt, (ctx1, later)))
      | none ↦ await_event fuel later cqid ctx1
    ]
  ]

  abbrev pub with_task : IoContext F → ℕ → CompletionEvent → ℕ → IoContext F
  with_task ctx cqid ce task = record ctx {
    completions = (get_mut ctx.completions cqid (record ce { task = task })).1;
  }

  -- the last branch of `drop`
  unfoldable pub cancel : ℕ → List Kernel → ℕ → IoContext F → Io F (Unit {0})
  cancel fuel kernels cqid ctx = free_sqe true fuel kernels 0 ctx >>= λ r. elim r [
    | none ↦ done none
    | some (os_error code, s) ↦ done none
    | some (ok ring, (ctx1, later)) ↦ RingBuf.get_unchecked ring 0 >>= λ old.
        await_event fuel later cqid (record ctx1 {
          sq =
              write_sqe ring 0
                (set_user_data (prep_async_cancel (new_async_cancel cqid) old) (2 ^ 64 - 1))
                ctx1.sq;
        })
  ]

  -- `borrowed`: whether the context is borrowed already, which `borrow_mut` panics on.
  unfoldable pub drop_future :
      Bool → ℕ → List Kernel → CompletionFuture → IoContext F → Io F (Unit {0})
  drop_future borrowed fuel kernels fut ctx =
      assert (not borrowed)
      >> (unwrap (get ctx.completions fut.cqid) >>= λ ce. elim ce.cqe [
        | some cqe ↦
            done (
              some
                (tt, (record ctx { completions = (remove ctx.completions fut.cqid).1 }, kernels)))
        | none ↦
            if not fut.must_wait
            then done (some (tt, (with_task ctx fut.cqid ce dead_task_sentinel, kernels)))
            else cancel fuel kernels fut.cqid (with_task ctx fut.cqid ce no_task_sentinel)
      ])
