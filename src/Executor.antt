-- ===== src/Executor.antt =====
-- hamerkop/src/executor/mod.rs and the context of hamerkop/src/executor/handle.rs: the completions that tasks wait for,
-- and their delivery. The context stands behind an `Rc<RefCell<_>>` and is passed as a state. The metrics are left out.
-- A future that has been created is a parameter type F.
pub mod Deliver
pub mod Process
pub mod Submit
pub mod Runtime
pub mod Handle
pub mod Errors
mod Tests
use hamerkop.Base.{
  ℕ, ◌+◌, ◌-◌, ◌^◌, Bool, true, false, Option, none, some, List, [], ◌∷◌, ◌++◌, ◌==◌, if◌then◌else◌,
  Outcome, done, ◌>>=◌, unwrap,
}
use hamerkop.Slotmap.{StableSlotmap, get, get_mut, remove}
use hamerkop.FixedVec.Ops.{FixedVec}
use hamerkop.Uring.Submission.{SubmissionQueue, IoResult, ok, os_error}
use hamerkop.Uring.Completion.{CompletionQueue, CompletionQueueEvent, available, advance, result}
use hamerkop.Uring.RingBuf.{RingBuf, into_iter, len}

abbrev pub no_task_sentinel : ℕ
no_task_sentinel = 2 ^ 64 - 1

abbrev pub dead_task_sentinel : ℕ
dead_task_sentinel = 2 ^ 64 - 2

pub data CleanupAction : Type 0 where
  no_action : CleanupAction
  delete_buffer_on_error : ℕ → CleanupAction

pub record CompletionEvent : Type 0 where
  pub cqe : Option CompletionQueueEvent
  pub task : ℕ
  pub action : CleanupAction

unfoldable pub new_event : ℕ → CompletionEvent
new_event task = record { cqe = none; task = task; action = no_action }

pub record IoContext (F : Type 0) : Type 0 where
  pub sq : SubmissionQueue
  pub cq : CompletionQueue
  pub created : List F
  pub completions : StableSlotmap CompletionEvent
  pub woken : List ℕ
  pub buffers : StableSlotmap (FixedVec ℕ)
  pub bufsize : ℕ
  pub queued : ℕ

module _ {F : Type 0} where
  unfoldable pub has_queued : IoContext F → Bool
  has_queued ctx = if ctx.queued == 0 then false else true

  -- the `match ce.action`
  unfoldable pub clean_up : IoContext F → CompletionQueueEvent → CleanupAction → IoContext F
  clean_up ctx cqe no_action = ctx
  clean_up ctx cqe (delete_buffer_on_error bufid) = elim (result cqe) [
    | ok n ↦ ctx
    | os_error code ↦ record ctx { buffers = (remove ctx.buffers bufid).1 }
  ]

  -- from the entry `ce` on, with the event written to it; `tasks` are those given to `queue_func` so far
  unfoldable pub deliver :
      IoContext F → List ℕ → CompletionQueueEvent → CompletionEvent → Outcome (IoContext F × List ℕ)
  deliver ctx tasks cqe ce =
      if ce.task == no_task_sentinel
      then done (ctx, tasks)
      else if ce.task == dead_task_sentinel
      then (let removed = remove ctx.completions cqe.user_data in
          unwrap removed.0 >>= λ gone.
          done (clean_up (record ctx { completions = removed.1 }) cqe gone.action, tasks))
      else done (ctx, tasks ++ (ce.task ∷ []))

  unfoldable pub process_cqe :
      IoContext F → List ℕ → CompletionQueueEvent → Outcome (IoContext F × List ℕ)
  process_cqe ctx tasks cqe = elim (get ctx.completions cqe.user_data) [
    | none ↦ done (ctx, tasks)
    | some ce ↦
        let ce' = record ce { cqe = some cqe } in
        deliver (record ctx { completions = (get_mut ctx.completions cqe.user_data ce').1 }) tasks
          cqe ce'
  ]

  unfoldable pub process_each :
      IoContext F → List ℕ → List CompletionQueueEvent → Outcome (IoContext F × List ℕ)
  process_each ctx tasks [] = done (ctx, tasks)
  process_each ctx tasks (cqe ∷ cqes) = process_cqe ctx tasks cqe >>= λ r. process_each r.0 r.1 cqes

  -- `process_cqes`, and the tasks that it gives to `queue_func`, in order
  unfoldable pub process_cqes : IoContext F → Outcome (IoContext F × List ℕ)
  process_cqes ctx = available ctx.cq >>= λ ring. into_iter ring >>= λ cqes.
      process_each ctx [] cqes >>= λ r. done (record r.0 { cq = advance r.0.cq (len ring) }, r.1)
