-- ===== src/Uring/Tests.antt =====
-- The theorems on the rings at concrete queues.
use hamerkop.Base.{
  ℕ, ◌+◌, ◌-◌, ◌%◌, ◌^◌, ◌<◌, ◌≡◌, refl, false, List, [], ◌∷◌, arith, length, get_elem?, done,
  panics, ◌>>=◌,
}
use hamerkop.Uring.Raw.{SubmissionQueueEvent, zeroed, fixed}
use hamerkop.Uring.Request.{Request, splice}
use hamerkop.Uring.RingBuf.{RingBuf, into_iter, split_at, backing, slice_range}
use hamerkop.Uring.RingBuf.Window.{IsRing, cell_at, into_iter_lem}
use hamerkop.Uring.Submission.{
  SubmissionQueue, IoUringEnter, ok, wrapping_dist, free_sqes, sqes, submit,
}
use hamerkop.Uring.Submission.Submit.{IsPending, free_sqes_full, sqes-into_iter, submit-submit}
use hamerkop.Uring.Completion.{CompletionQueue, CompletionQueueEvent, available, has_next}
use hamerkop.Uring.Completion.Order.{IsFilled, available_lem, has_next_wraps}

abbrev a_splice : Request
a_splice =
    splice
      (record { fd_in = fixed 3; off_in = 0; fd_out = fixed 4; off_out = 16; len = 100; flags = 1 })

-- the test of the source: six elements from the fifth of eight
abbrev a_ring : RingBuf ℕ
a_ring = record { memory = 0 ∷ 1 ∷ 2 ∷ 3 ∷ 4 ∷ 5 ∷ 6 ∷ 7 ∷ []; offset = 5; mask = 7; size = 6 }

a_ring-IsRing : IsRing 3 a_ring
a_ring-IsRing = record {
  narrow = omega arith;
  mask_is = refl;
  cells_are = refl;
  size_fits = omega arith;
}

into_iter_lem_example :
    (xs : List ℕ) × (into_iter a_ring ≡ done xs)
    × (length xs ≡ 6)
    × ((i : ℕ) → i < 6 → get_elem? xs i ≡ cell_at 3 a_ring i)
into_iter_lem_example = into_iter_lem 3 a_ring a_ring-IsRing (omega arith)

iterated : into_iter a_ring ≡ done (5 ∷ 6 ∷ 7 ∷ 0 ∷ 1 ∷ 2 ∷ [])
unfolding into_iter split_at backing slice_range
iterated = refl

abbrev far_ring : RingBuf ℕ
far_ring = record a_ring { offset = 13 }

-- the tests of the source
distances :
    (wrapping_dist 0 0 31 ≡ 32)
    × (wrapping_dist 6 5 31 ≡ 1)
    × (wrapping_dist 63 31 31 ≡ 32)
    × (wrapping_dist 4 6 7 ≡ 6)
unfolding wrapping_dist
distances = (refl, refl, refl, refl)

abbrev two_sqes : List SubmissionQueueEvent
two_sqes = zeroed ∷ zeroed ∷ []

-- a ring of two entries, of which one is pending
abbrev a_queue : SubmissionQueue
a_queue = record {
  khead = 6;
  ktail = 7;
  kring_mask = 1;
  kring_entries = 2;
  kflags = 0;
  sqes_memory = two_sqes;
  sqe_tail = 7;
  fd = 3;
  flags = 0;
}

abbrev full_queue : SubmissionQueue
full_queue = record a_queue { ktail = 8 }

a_queue-IsPending : IsPending 1 1 a_queue
a_queue-IsPending = record {
  narrow = omega arith;
  mask_is = refl;
  cells_are = refl;
  tail_is = refl;
}

free_sqes_full_example : free_sqes full_queue ≡ 2 ^ 1
free_sqes_full_example =
    free_sqes_full 1 full_queue
      (record { narrow = omega arith; mask_is = refl; cells_are = refl; tail_is = refl })

sqes-into_iter_example :
    (r : RingBuf SubmissionQueueEvent) × (sqes a_queue ≡ done r) × (into_iter r ≡ panics)
sqes-into_iter_example = sqes-into_iter 1 1 a_queue a_queue-IsPending (omega arith) (omega arith)

-- a kernel that takes every entry at once
abbrev eager : IoUringEnter
eager q to_submit min_complete flags = record {
  returned = to_submit;
  errno = 0;
  new_khead = q.ktail;
  new_kflags = q.kflags;
}

-- a kernel that stops behind the first entry
abbrev stopping : IoUringEnter
stopping q to_submit min_complete flags = record {
  returned = 1;
  errno = 0;
  new_khead = q.khead + 1;
  new_kflags = q.kflags;
}

-- two entries are pending, and both are new
abbrev two_new : SubmissionQueue
two_new = record full_queue { sqe_tail = 6 }

two_new-IsPending : IsPending 1 2 two_new
two_new-IsPending = record {
  narrow = omega arith;
  mask_is = refl;
  cells_are = refl;
  tail_is = refl;
}

submit-submit_example :
    (after : SubmissionQueue) × (submit stopping two_new ≡ (ok 2, after))
    × IsPending 1 1 after
    × (submit eager after ≡ (ok 0, after))
submit-submit_example =
    submit-submit 1 2 2 1 stopping eager two_new refl two_new-IsPending refl (omega arith)
      (omega arith) refl refl

abbrev some_cqes : List CompletionQueueEvent
some_cqes =
    record { user_data = 1; res = 0; flags = 0 } ∷ record { user_data = 2; res = 0; flags = 0 } ∷ []

-- both entries are filled, and the tail has wrapped
abbrev a_completion : CompletionQueue
a_completion = record {
  khead = 2 ^ 32 - 1;
  ktail = 1;
  kring_mask = 1;
  cqes_memory = some_cqes;
  fd = 3;
}

a_completion-IsFilled : IsFilled 1 2 a_completion
a_completion-IsFilled = record {
  narrow = omega arith;
  mask_is = refl;
  cells_are = refl;
  head_low = omega arith;
  filled = omega arith;
  tail_is = refl;
}

available_lem_example :
    (es : List CompletionQueueEvent) × ((available a_completion >>= into_iter) ≡ done es)
    × (length es ≡ 2)
    × ((i : ℕ) → i < 2 → get_elem? es i ≡ get_elem? some_cqes ((2 ^ 32 - 1 + i) % 2 ^ 1))
available_lem_example = available_lem 1 2 a_completion a_completion-IsFilled

has_next_wraps_example : has_next a_completion ≡ false
has_next_wraps_example = has_next_wraps 1 2 a_completion a_completion-IsFilled (omega arith)
