-- ===== src/Executor/Handle/Tests.antt =====
-- The theorem on `IOHandle` at a concrete context.
use hamerkop.Base.{ℕ, ◌≡◌, refl, false, some, [], ◌∷◌, done, arith}
use hamerkop.Slotmap.{new}
use hamerkop.Slotmap.Invariant.{HasRoom}
use hamerkop.Slotmap.Iter.{new-IsValid}
use hamerkop.Uring.Raw.{SubmissionQueueEvent, zeroed}
use hamerkop.Uring.Submission.{SubmissionQueue, queue_size, ok}
use hamerkop.Uring.Submission.Submit.{IsPending}
use hamerkop.Executor.{IoContext, CompletionEvent}
use hamerkop.Executor.Submit.Links.{new_submitter, prepare_read_buf}
use hamerkop.Executor.Submit.Links.Chain.{HasSlot}
use hamerkop.Executor.Handle.{submit_sqe, Requests, submit_sqe-Requests}

-- a submission queue of two entries, of which one is pending
abbrev half_full : SubmissionQueue
half_full = record {
  khead = 0;
  ktail = 1;
  kring_mask = 1;
  kring_entries = 2;
  kflags = 0;
  sqes_memory = zeroed ∷ zeroed ∷ [];
  sqe_tail = 0;
  fd = 3;
  flags = 0;
}

half_full-IsPending : IsPending 1 1 half_full
half_full-IsPending = record {
  narrow = omega arith;
  mask_is = refl;
  cells_are = refl;
  tail_is = refl;
}

abbrev context : IoContext ℕ
context = record {
  sq = half_full;
  cq = record {
    khead = 0;
    ktail = 0;
    kring_mask = 0;
    cqes_memory = record { user_data = 0; res = 0; flags = 0 } ∷ [];
    fd = 3;
  };
  created = [];
  completions = new;
  woken = [];
  buffers = new;
  bufsize = 4;
  queued = 0;
}

no_completions : HasRoom (new {A = CompletionEvent})
unfolding new
no_completions = λ h. omega arith

context-HasSlot : HasSlot 1 1 (new_submitter context)
unfolding new_submitter queue_size
context-HasSlot = record {
  pending = half_full-IsPending;
  tail_low = omega arith;
  room = omega arith;
  few = λ h. omega arith;
  completions_valid = new-IsValid;
  completions_room = no_completions;
}

-- a read of sixteen bytes to the address 4096
abbrev a_read : SubmissionQueueEvent → SubmissionQueueEvent
a_read = prepare_read_buf 5 4096 16

submit_sqe-Requests_example :
    (cqid : ℕ) × (after : IoContext ℕ) × (submit_sqe 1 [] a_read context
      ≡ done (some (ok (record { cqid = cqid; must_wait = false }), (after, []))))
    × Requests 1 1 a_read context cqid after
submit_sqe-Requests_example = submit_sqe-Requests 1 1 0 [] a_read context context-HasSlot
