-- ===== src/Executor/Tests.antt =====
-- The theorems on the executor at concrete contexts.
use hamerkop.Base.{
  ℕ, ◌+◌, ◌-◌, ◌^◌, ◌≤◌, ◌<◌, ◌≡◌, refl, ap, ◌∙◌, inl, false, none, some, List, [], ◌∷◌, ◌++◌,
  if◌then◌else◌, done, panics, ◌>>=◌, arith, length, get_elem?, ==_refl, ◌≢◌,
}
use hamerkop.Slotmap.{StableSlotmap, new, get, len}
use hamerkop.Slotmap.Invariant.{IsValid, HasRoom}
use hamerkop.Slotmap.Laws.{insert_lem}
use hamerkop.Slotmap.Iter.{new-IsValid, is_some}
use hamerkop.FixedVec.Ops.{FixedVec, with_capacity, capacity, set_len}
use hamerkop.Uring.Raw.{SubmissionQueueEvent, zeroed}
use hamerkop.Uring.RingBuf.{into_iter}
use hamerkop.Uring.Submission.{
  SubmissionQueue, IoResult, os_error, submit_and_wait, sysresult, entry_plan, enter_flags,
  queue_size,
}
use hamerkop.Uring.Submission.Submit.{IsPending}
use hamerkop.Uring.Completion.{CompletionQueue, CompletionQueueEvent, available}
use hamerkop.Uring.Completion.Order.{IsFilled}
use hamerkop.Util.Dedup.Elements.{Has}
use hamerkop.Executor.{IoContext, CompletionEvent, no_action, dead_task_sentinel, process_cqes}
use hamerkop.Executor.Process.{process_cqes_lem, mine, settle, wakes, freed}
use hamerkop.Executor.Submit.{Kernel, CompletionFuture, io_link, submit, drop_future, await_event}
use hamerkop.Executor.Submit.Retry.{IsFree, Keeps, is_retried, submit_lem}
use hamerkop.Executor.Submit.Waiting.{drop_future-process_cqes, await_event-none, no_events}
use hamerkop.Executor.Submit.Links.{
  submit_links, LinkedSubmitter, provided, submit_sqe, provide_buffer,
}
use hamerkop.Executor.Submit.Links.Close.{submit_links_lem, last_slot, unlinked}
use hamerkop.Executor.Submit.Links.Chain.{HasSlot, slot_of, submit_sqe-panics}
use hamerkop.Executor.Submit.Links.Provide.{provide_buffer_lem, event_for}
use hamerkop.Executor.Runtime.{Runtime, Polled, ready, turned, Round, poll_queue}
use hamerkop.Executor.Runtime.Polling.{Calm}
use hamerkop.Executor.Runtime.Wakeups.{poll_queue_lem}

-- a completion that the task 5 waits for, and the map that holds it
abbrev waiting : CompletionEvent
waiting = record { cqe = none; task = 5; action = no_action }

fresh : HasRoom (new {A = CompletionEvent})
unfolding new
fresh = λ _. omega arith

abbrev one_completion : StableSlotmap CompletionEvent
one_completion = (insert_lem (new {A = CompletionEvent}) waiting new-IsValid fresh).1

abbrev at : ℕ
at = (insert_lem (new {A = CompletionEvent}) waiting new-IsValid fresh).0

one_completion-IsValid : IsValid one_completion
one_completion-IsValid = (insert_lem (new {A = CompletionEvent}) waiting new-IsValid fresh).3.valid

gets_waiting : get one_completion at ≡ some waiting
gets_waiting =
    (insert_lem (new {A = CompletionEvent}) waiting new-IsValid fresh).3.gets at
    ∙ ap (λ b. if b then some waiting else get (new {A = CompletionEvent}) at) (==_refl at)

-- a completion queue of two entries, of which one is filled, for that completion
abbrev one_event : CompletionQueue
one_event = record {
  khead = 0;
  ktail = 1;
  kring_mask = 1;
  cqes_memory =
      record { user_data = at; res = 7; flags = 0 }
      ∷ record { user_data = 0; res = 0; flags = 0 }
      ∷ [];
  fd = 3;
}

one_event-IsFilled : IsFilled 1 1 one_event
one_event-IsFilled = record {
  narrow = omega arith;
  mask_is = refl;
  cells_are = refl;
  head_low = omega arith;
  filled = omega arith;
  tail_is = refl;
}

-- a submission queue of two entries, of which one is pending
abbrev one_pending : SubmissionQueue
one_pending = record {
  khead = 0;
  ktail = 1;
  kring_mask = 1;
  kring_entries = 2;
  kflags = 0;
  sqes_memory = zeroed ∷ zeroed ∷ [];
  sqe_tail = 0;
  fd = 3;
  flags = 0;
}

one_pending-IsPending : IsPending 1 1 one_pending
one_pending-IsPending = record {
  narrow = omega arith;
  mask_is = refl;
  cells_are = refl;
  tail_is = refl;
}

abbrev context : IoContext ℕ
context = record {
  sq = one_pending;
  cq = one_event;
  created = [];
  completions = one_completion;
  woken = [];
  buffers = new;
  bufsize = 4;
  queued = 0;
}

process_cqes_lem_example :
    (es : List CompletionQueueEvent) × (after : IoContext ℕ) × ((available one_event >>= into_iter)
      ≡ done es)
    × (length es ≡ 1)
    × (process_cqes context ≡ done (after, wakes (get one_completion) es))
    × IsFilled 1 0 after.cq
    × IsValid after.completions
    × IsValid after.buffers
    × ((i : ℕ) → get after.completions i ≡ settle (get one_completion i) (mine i es))
    × ((b : ℕ)
        → get after.buffers b ≡ (if freed (get one_completion) es b then none else get new b))
    × (after ≡ record context {
      cq = after.cq;
      completions = after.completions;
      buffers = after.buffers;
    })
process_cqes_lem_example =
    process_cqes_lem 1 1 context one_event-IsFilled one_completion-IsValid new-IsValid

-- a kernel that is busy, one that fails with EBADF, and one that accepts everything
abbrev answering : ℕ → ℕ → Kernel
answering returned errno = record {
  enter =
      λ q n w f. record { returned = returned; errno = errno; new_khead = q.khead; new_kflags = 0 };
  post = λ q. q;
}

accepting-IsFree : IsFree (answering 1 0)
unfolding sysresult
accepting-IsFree = λ q n w f. refl

answering-Keeps : (r e : ℕ) → Keeps 1 (answering r e)
answering-Keeps r e = λ q n h. (n, h)

submit_lem_example :
    (answer : IoResult (Unit {0})) × (after : IoContext ℕ) × (left : List Kernel) × (submit
        ((answering (2 ^ 32 - 1) 16 ∷ []) ++ (answering 1 0 ∷ []))
        1
        context
      ≡ done (some (answer, (after, left))))
    × (is_retried answer ≡ false)
    × IsValid after.completions
    × IsValid after.buffers
    × ((m : ℕ) × IsFilled 1 m after.cq)
submit_lem_example =
    submit_lem 1 1 (answering (2 ^ 32 - 1) 16 ∷ []) (answering 1 0) [] 1 context accepting-IsFree
      (answering-Keeps (2 ^ 32 - 1) 16, tt) (answering-Keeps 1 0) one_event-IsFilled
      one_completion-IsValid new-IsValid

abbrev future_at : CompletionFuture
future_at = record { cqid = at; must_wait = false }

drop_future-process_cqes_example :
    (ctx1 : IoContext ℕ) × (es : List CompletionQueueEvent) × (after : IoContext ℕ) × (tasks : List
      ℕ)
    × (drop_future false 0 [] future_at context ≡ done (some (tt, (ctx1, []))))
    × ((available one_event >>= into_iter) ≡ done es)
    × (process_cqes ctx1 ≡ done (after, tasks))
    × (get after.completions at ≡ (
        if is_some waiting.cqe
        then none
        else if no_events (mine at es)
        then some (record waiting { task = dead_task_sentinel })
        else none))
drop_future-process_cqes_example =
    drop_future-process_cqes 1 1 0 [] future_at context waiting one_event-IsFilled
      one_completion-IsValid new-IsValid gets_waiting refl

await_event-none_example : await_event 5 (answering 1 0 ∷ answering 1 0 ∷ []) at context ≡ done none
await_event-none_example =
    await_event-none 5 (answering 1 0 ∷ answering 1 0 ∷ []) at context waiting
      (accepting-IsFree, (accepting-IsFree, tt)) gets_waiting refl

abbrev idle : IoContext ℕ
idle = record context { completions = new }

abbrev links_from : ℕ → LinkedSubmitter ℕ
links_from count = record { ctx = idle; count = count }

links-HasSlot : HasSlot 1 1 (links_from 0)
unfolding queue_size
links-HasSlot = record {
  pending = one_pending-IsPending;
  tail_low = omega arith;
  room = omega arith;
  few = λ h. omega arith;
  completions_valid = new-IsValid;
  completions_room = fresh;
}

-- the address of a buffer, for which its length stands here
abbrev length_of : FixedVec ℕ → ℕ
length_of v = v.size

abbrev buffer : FixedVec ℕ
buffer = with_capacity 4

few_slabs : length (new {A = FixedVec ℕ}).slabs ≤ 64
unfolding new
few_slabs = omega arith

few_buffers : len (new {A = FixedVec ℕ}) < 2 ^ 16 - 1
unfolding len new
few_buffers = omega arith

right_size : 4 ≡ capacity buffer
unfolding with_capacity
right_size = refl

provide_buffer_lem_example :
    (fut : CompletionFuture) × (bufid : ℕ) × (after : LinkedSubmitter ℕ)
    × (sqe : SubmissionQueueEvent) × (provide_buffer 1 [] length_of buffer (links_from 0)
        ≡ done (some (provided fut bufid, (after, []))))
    × (get (new {A = FixedVec ℕ}) bufid ≡ none)
    × (bufid < 2 ^ 16)
    × (get after.ctx.buffers bufid ≡ some (set_len buffer 0))
    × (get after.ctx.completions fut.cqid ≡ some (event_for bufid))
    × (get_elem? after.ctx.sq.sqes_memory (slot_of 1 (links_from 0)) ≡ some sqe)
    × (sqe.off_addr2 ≡ bufid)
    × (sqe.user_data ≡ fut.cqid)
    × (sqe.flags ≡ io_link)
provide_buffer_lem_example =
    provide_buffer_lem 1 1 0 [] length_of buffer (links_from 0) links-HasSlot new-IsValid few_slabs
      few_buffers right_size

submit_links_lem_example :
    (after : IoContext ℕ) × (last : SubmissionQueueEvent) × (submit_links (links_from 1)
      ≡ done after)
    × IsPending 1 2 after.sq
    × (get_elem? one_pending.sqes_memory (last_slot 1 (links_from 1)) ≡ some last)
    × (get_elem? after.sq.sqes_memory (last_slot 1 (links_from 1)) ≡ some (unlinked last))
    × ((i : ℕ)
        → last_slot 1 (links_from 1) ≢ i
        → get_elem? after.sq.sqes_memory i ≡ get_elem? one_pending.sqes_memory i)
    × (after.queued ≡ 0 + 1)
    × (after ≡ record idle { sq = after.sq; queued = after.queued })
submit_links_lem_example =
    submit_links_lem 1 1 (links_from 1) one_pending-IsPending (omega arith) (omega arith)
      (omega arith)

-- the answer of a kernel that fails with EBADF
bad_descriptor : (submit_and_wait (answering (2 ^ 32 - 1) 9).enter one_pending 0).0 ≡ os_error 9
unfolding submit_and_wait sysresult entry_plan enter_flags
bad_descriptor = refl

two_entries : ¬ (1 ≡ queue_size one_pending)
unfolding queue_size
two_entries = λ h. omega arith

submit_sqe-panics_example :
    submit_sqe 1 (answering (2 ^ 32 - 1) 9 ∷ []) (λ sqe. sqe) (links_from 1) ≡ panics
submit_sqe-panics_example =
    submit_sqe-panics 1 1 0 9 (answering (2 ^ 32 - 1) 9) [] (λ sqe. sqe) (links_from 1)
      one_pending-IsPending (omega arith) (omega arith) two_entries new-IsValid fresh bad_descriptor
      refl

-- a run time with one future, which is done when it is polled
fresh_futures : HasRoom (new {A = ℕ})
unfolding new
fresh_futures = λ _. omega arith

abbrev one_future : StableSlotmap ℕ
one_future = (insert_lem (new {A = ℕ}) 9 new-IsValid fresh_futures).1

abbrev spawned : ℕ
spawned = (insert_lem (new {A = ℕ}) 9 new-IsValid fresh_futures).0

one_future-IsValid : IsValid one_future
one_future-IsValid = (insert_lem (new {A = ℕ}) 9 new-IsValid fresh_futures).3.valid

gets_future : get one_future spawned ≡ some 9
gets_future =
    (insert_lem (new {A = ℕ}) 9 new-IsValid fresh_futures).3.gets spawned
    ∙ ap (λ b. if b then some 9 else get (new {A = ℕ}) spawned) (==_refl spawned)

abbrev runtime : Runtime ℕ
runtime = record { futures = one_future; ctx = context; runqueue = spawned ∷ []; active_tasks = 1 }

abbrev done_at_once : ℕ → ℕ → IoContext ℕ → Polled ℕ
done_at_once id future ctx = ready ctx

done_at_once-Calm : Calm done_at_once
done_at_once-Calm = λ id future ctx after h. absurd (cc)

processed : (after : IoContext ℕ) × (tasks : List ℕ) × (process_cqes context ≡ done (after, tasks))
processed =
    let law = process_cqes_lem 1 1 context one_event-IsFilled one_completion-IsValid new-IsValid in
    (law.1, _, law.4)

poll_queue_lem_example :
    (round : Round ℕ) × (poll_queue (λ seed v. seed + v) done_at_once runtime ≡ done (some round))
    × (round.ended ≡ turned)
    × IsValid round.futures
    × Has spawned round.polled
poll_queue_lem_example =
    poll_queue_lem (λ seed v. seed + v) done_at_once runtime processed.0 processed.1 spawned 9
      done_at_once-Calm one_future-IsValid processed.2 (inl refl) gets_future
