-- ===== src/Executor/Submit/Links.antt =====
-- hamerkop/src/executor/handle.rs: `LinkedSubmitter`, which links the requests that it prepares, and what its futures do
-- with the event of their request. The address of a buffer is a parameter.
pub mod Chain
pub mod Close
pub mod Provide
use hamerkop.Base.{
  ℕ, ◌+◌, ◌-◌, ◌%◌, ◌^◌, Bool, true, false, Option, none, some, List, ◌==◌, if◌then◌else◌, leb,
  bit_and, u32_mod, Outcome, done, ◌>>=◌, ◌>>◌, assert, unwrap, not,
}
use hamerkop.Slotmap.{get, get_mut, insert, remove}
use hamerkop.Slotmap as Slotmap
use hamerkop.FixedVec.Ops.{FixedVec, capacity, clear, set_len}
use hamerkop.FixedVec.Ops as FixedVec
use hamerkop.Uring.Raw.{
  SubmissionQueueEvent, set_user_data, set_flags, add_flags, set_buf_group, descriptor,
}
use hamerkop.Uring.Files.{new_read, prep_read, new_write, prep_write}
use hamerkop.Uring.Control.{new_provide_buffers, prep_provide_buffers}
use hamerkop.Uring.RingBuf.{RingBuf}
use hamerkop.Uring.RingBuf as RingBuf
use hamerkop.Uring.Submission.{IoResult, ok, os_error, sqes, queue_size}
use hamerkop.Uring.Submission as Submission
use hamerkop.Uring.Completion.{CompletionQueueEvent, buf_id, result}
use hamerkop.Executor.{IoContext, delete_buffer_on_error}
use hamerkop.Executor.Submit.{
  Kernel, CompletionFuture, io_link, all_flags, async, buffer_select, write_sqe, from_ctx,
  set_must_wait, free_sqe, drop_future,
}

pub record LinkedSubmitter (F : Type 0) : Type 0 where
  pub ctx : IoContext F
  pub count : ℕ

abbrev pub Linking : Type 0 → Type 0 → Type 0
Linking F A = Outcome (Option (A × (LinkedSubmitter F × List Kernel)))

-- what becomes of a buffer that is provided: the error gives it back
pub data Provided : Type 0 where
  refused : FixedVec ℕ → Provided
  provided : CompletionFuture → ℕ → Provided

-- the entries that the operations prepare
unfoldable pub prepare_read : ℕ → ℕ → SubmissionQueueEvent → SubmissionQueueEvent
prepare_read fd size sqe =
    set_flags (set_buf_group (prep_read (new_read (descriptor fd) 0 (size % u32_mod)) sqe) 0)
      (buffer_select + async)

unfoldable pub prepare_read_buf : ℕ → ℕ → ℕ → SubmissionQueueEvent → SubmissionQueueEvent
prepare_read_buf fd addr size sqe = prep_read (new_read (descriptor fd) addr (size % u32_mod)) sqe

unfoldable pub prepare_write_buf : ℕ → ℕ → ℕ → SubmissionQueueEvent → SubmissionQueueEvent
prepare_write_buf fd addr size sqe =
    prep_write (new_write (descriptor fd) addr (size % u32_mod)) sqe

unfoldable pub prepare_provide : ℕ → ℕ → ℕ → SubmissionQueueEvent → SubmissionQueueEvent
prepare_provide addr buflen bufid sqe =
    prep_provide_buffers (new_provide_buffers addr (buflen % u32_mod) 1 0 (bufid % 2 ^ 16)) sqe

module _ {F : Type 0} where
  unfoldable pub new_submitter : IoContext F → LinkedSubmitter F
  new_submitter ctx = record { ctx = ctx; count = 0 }

  -- A submission that fails drops the future of the request, while the context is borrowed.
  unfoldable pub submit_sqe :
      ℕ
      → List Kernel
      → (SubmissionQueueEvent → SubmissionQueueEvent)
      → LinkedSubmitter F
      → Linking F (IoResult CompletionFuture)
  submit_sqe fuel kernels func s = from_ctx s.ctx >>= λ made.
      let fut = made.0 in
      assert (not (s.count == queue_size made.1.sq))
      >> (free_sqe false fuel kernels s.count made.1 >>= λ r. elim r [
        | none ↦ done none
        | some (os_error code, (ctx1, later)) ↦ drop_future true fuel later fut ctx1 >>= λ _.
            done (some (os_error code, (record s { ctx = ctx1 }, later)))
        | some (ok ring, (ctx1, later)) ↦ RingBuf.get_unchecked ring s.count >>= λ old.
            let sqe = add_flags (set_user_data (func old) fut.cqid) io_link in
            done (
              some (
                ok fut,
                (
                  record {
                    ctx = record ctx1 { sq = write_sqe ring s.count sqe ctx1.sq };
                    count = s.count + 1;
                  },
                  later,
                ),
              ))
      ])

  -- `LinkedSubmitter::submit`
  unfoldable pub submit_links : LinkedSubmitter F → Outcome (IoContext F)
  submit_links s =
      if s.count == 0
      then done s.ctx
      else (sqes s.ctx.sq >>= λ ring. RingBuf.get ring (s.count - 1) >>= unwrap >>= λ last.
          let unlinked = set_flags last (bit_and last.flags (all_flags - io_link)) in
          done (record s.ctx {
            sq =
                Submission.advance (write_sqe ring (s.count - 1) unlinked s.ctx.sq)
                  (s.count % u32_mod);
            queued = s.ctx.queued + s.count;
          }))

  unfoldable pub read :
      ℕ → List Kernel → ℕ → ℕ → LinkedSubmitter F → Linking F (IoResult CompletionFuture)
  read fuel kernels fd size s = submit_sqe fuel kernels (prepare_read fd size) s

  -- `read_buf` and `write_buf`, by the entry that they prepare
  unfoldable pub submit_buf :
      ℕ
      → List Kernel
      → (ℕ → ℕ → ℕ → SubmissionQueueEvent → SubmissionQueueEvent)
      → ℕ
      → ℕ
      → ℕ
      → LinkedSubmitter F
      → Linking F (IoResult CompletionFuture)
  submit_buf fuel kernels prepare fd addr size s =
      assert (leb size (2 ^ 32 - 1))
      >> (submit_sqe fuel kernels (prepare fd addr size) s >>= λ r. elim r [
        | none ↦ done none
        | some (os_error code, rest) ↦ done (some (os_error code, rest))
        | some (ok fut, rest) ↦ done (some (ok (set_must_wait fut true), rest))
      ])

  -- `self.ctx.completions[cqid].action = action`
  abbrev pub on_cleanup : IoContext F → ℕ → ℕ → Outcome (IoContext F)
  on_cleanup ctx cqid bufid = unwrap (get ctx.completions cqid) >>= λ ce. done (record ctx {
    completions =
        (get_mut ctx.completions cqid (record ce { action = delete_buffer_on_error bufid })).1;
  })

  unfoldable pub provide_buffer :
      ℕ → List Kernel → (FixedVec ℕ → ℕ) → FixedVec ℕ → LinkedSubmitter F → Linking F Provided
  provide_buffer fuel kernels as_mut_ptr buffer s =
      assert (s.ctx.bufsize == capacity buffer)
      >> (if leb (2 ^ 16 - 1) (Slotmap.len s.ctx.buffers)
          then done (some (refused buffer, (s, kernels)))
          else (clear false buffer >>= λ cleared. insert s.ctx.buffers cleared.1 >>= λ put.
              let bufid = put.0 in
              let s1 = record s { ctx = record s.ctx { buffers = put.1 } } in
              submit_sqe fuel kernels
                (prepare_provide (as_mut_ptr cleared.1) (capacity buffer) bufid) s1
              >>= λ r. elim r [
                | none ↦ done none
                | some (os_error code, (s2, later)) ↦
                    let taken = remove s2.ctx.buffers bufid in
                    unwrap taken.0 >>= λ back. done (
                      some (
                        refused back,
                        (record s2 { ctx = record s2.ctx { buffers = taken.1 } }, later),
                      ))
                | some (ok fut, (s2, later)) ↦ on_cleanup s2.ctx fut.cqid bufid >>= λ ctx.
                    done (some (provided fut bufid, (record s2 { ctx = ctx }, later)))
              ]))

  -- what the future of `read` does with the event
  unfoldable pub read_done :
      CompletionQueueEvent → IoContext F → Outcome (IoResult (FixedVec ℕ) × IoContext F)
  read_done cqe ctx = elim (result cqe) [
    | os_error code ↦ done (os_error code, ctx)
    | ok size ↦ unwrap (buf_id cqe) >>= λ bufid.
        let taken = remove ctx.buffers bufid in
        unwrap taken.0 >>= λ buf. done (ok (set_len buf size), record ctx { buffers = taken.1 })
  ]

  -- what the future of `provide_buffer` does with the event; `some` is the buffer that the error gives back
  unfoldable pub provide_done :
      CompletionQueueEvent → ℕ → ℕ → IoContext F → Outcome (Option (FixedVec ℕ) × IoContext F)
  provide_done cqe bufid size ctx = elim (result cqe) [
    | ok n ↦ done (none, ctx)
    | os_error code ↦
        let taken = remove ctx.buffers bufid in
        unwrap taken.0 >>= λ buf. done (some (set_len buf size), record ctx { buffers = taken.1 })
  ]
