-- ===== src/Uring/Submission/Submit.antt =====
-- The submission queue with `n` entries pending: what is free, what `advance` and `submit` do to it.
use hamerkop.Base.{
  ℕ, ◌+◌, ◌-◌, ◌%◌, ◌^◌, ◌≤◌, ◌<◌, ◌≡◌, refl, sym, ◌∙◌, ap, ap₂, Bool-cases, inl, inr, true, false,
  if◌then◌else◌, ◌==◌, bit_and, arith, sub32, ltb, leb, length, done, panics, usize_mod,
}
use hamerkop.Base.Bits.{bit_and_high, pow_two_pos}
use hamerkop.Uring.RingBuf.{RingBuf, new, new_common, into_iter}
use hamerkop.Uring.RingBuf.Window.{narrow_pow, IsRing, into_iter_panics}
use hamerkop.Uring.Raw.{SubmissionQueueEvent}
use hamerkop.Uring.Submission.{
  SubmissionQueue, Entered, IoUringEnter, IoResult, ok, os_error, sysresult, free_sqes, sqes,
  advance, enter_flags, entry_plan, finish, written_by, submit_and_wait, submit, contains,
  setup_sqpoll, sq_need_wakeup, wrapping_dist, enter_getevents,
}
use hamerkop.Uring.Submission.Space.{wrapping_dist_lem, wrapping_dist_full}
use native.Mathlib.Nat.{mod-add-mod}

-- A ring of `2 ^ k` entries of which `n` are pending, by the free-running counters.
pub record IsPending (k n : ℕ) (q : SubmissionQueue) : Type 0 where
  pub narrow : k < 32
  pub mask_is : q.kring_mask ≡ 2 ^ k - 1
  pub cells_are : length q.sqes_memory ≡ 2 ^ k
  pub tail_is : q.ktail ≡ (q.khead + n) % 2 ^ 32

-- `advance` by `m` on a ring with `n` entries pending leaves `n + m` pending.
pub advance-IsPending :
    (k n m : ℕ) (q : SubmissionQueue) → IsPending k n q → IsPending k (n + m) (advance q m)
unfolding advance
advance-IsPending k n m q h = record {
  narrow = h.narrow;
  mask_is = h.mask_is;
  cells_are = h.cells_are;
  tail_is =
      ap (λ t. (t + m) % 2 ^ 32) h.tail_is
      ∙ mod-add-mod (q.khead + n) (2 ^ 32) m
      ∙ ap (λ t. t % 2 ^ 32) {x = q.khead + n + m} {y = q.khead + (n + m)} (omega arith);
}

-- While the ring is not full, `free_sqes` counts the entries that are not pending.
pub free_sqes_lem :
    (k n : ℕ) (q : SubmissionQueue) → IsPending k n q → n < 2 ^ k → free_sqes q ≡ 2 ^ k - n
unfolding free_sqes
free_sqes_lem k n q h few =
    ap₂ (λ t m. wrapping_dist q.khead t m) h.tail_is h.mask_is
    ∙ wrapping_dist_lem k q.khead n h.narrow few

-- A ring whose `2 ^ k` entries are all pending counts all of them as free.
pub free_sqes_full : (k : ℕ) (q : SubmissionQueue) → IsPending k (2 ^ k) q → free_sqes q ≡ 2 ^ k
unfolding free_sqes
free_sqes_full k q h =
    ap₂ (λ t m. wrapping_dist q.khead t m) h.tail_is h.mask_is
    ∙ wrapping_dist_full k q.khead h.narrow

-- the ring of the free entries
abbrev pub free_ring : ℕ → ℕ → SubmissionQueue → RingBuf SubmissionQueueEvent
free_ring k n q = record {
  memory = q.sqes_memory;
  offset = q.ktail;
  mask = q.kring_mask;
  size = 2 ^ k - n;
}

-- While fewer than `2 ^ k` entries are pending, `sqes` returns the window of the others, which
-- starts at the tail.
pub sqes_lem :
    (k n : ℕ) (q : SubmissionQueue)
    → IsPending k n q
    → n < 2 ^ k
    → (sqes q ≡ done (free_ring k n q)) × IsRing k (free_ring k n q)
unfolding sqes new new_common
sqes_lem k n q h few =
    let one = pow_two_pos k in
    let small = narrow_pow k h.narrow in
    let size : wrapping_dist q.khead q.ktail q.kring_mask ≡ 2 ^ k - n =
      ap₂ (λ t m. wrapping_dist q.khead t m) h.tail_is h.mask_is
      ∙ wrapping_dist_lem k q.khead n h.narrow few in
    let m : (q.kring_mask + 1) % usize_mod ≡ 2 ^ k = omega (arith, h.mask_is, one, small) in
    let mask_ok : (bit_and q.kring_mask (2 ^ k) == 0) ≡ true =
      ap (λ t. t == 0) (bit_and_high k q.kring_mask (omega (arith, h.mask_is, one))) in
    let fits : leb (2 ^ k - n) (2 ^ k) ≡ true = ground arith in
    (
      rw (size, m, mask_ok, fits),
      record {
        narrow = h.narrow;
        mask_is = h.mask_is;
        cells_are = h.cells_are;
        size_fits = omega arith;
      },
    )

-- While fewer than `2 ^ k` entries are pending and the tail is past `2 ^ k`, `sqes` returns a
-- window whose iterator panics.
pub sqes-into_iter :
    (k n : ℕ) (q : SubmissionQueue)
    → IsPending k n q
    → n < 2 ^ k
    → 2 ^ k < q.ktail
    → (r : RingBuf SubmissionQueueEvent) × (sqes q ≡ done r) × (into_iter r ≡ panics)
sqes-into_iter k n q h few past =
    let low : q.ktail < 2 ^ 32 = omega (arith, h.tail_is) in
    let (e, ring) = sqes_lem k n q h few in
    (free_ring k n q, e, into_iter_panics k (free_ring k n q) ring low past)

-- what a call for `n` entries amounts to, by the kernel's answer
abbrev pub outcome : SubmissionQueue → ℕ → Entered → IoResult ℕ × SubmissionQueue
outcome q n e =
    if leb (2 ^ 31) e.returned
    then (os_error e.errno, written_by q e)
    else (ok n, record (written_by q e) { sqe_tail = q.ktail })

finished :
    (q : SubmissionQueue) (n : ℕ) (e : Entered)
    → finish (written_by q e) n q.ktail (sysresult e.returned e.errno) ≡ outcome q n e
unfolding sysresult
finished q n e = elim (Bool-cases (leb (2 ^ 31) e.returned)) [
  | inl failed ↦ rw (sysresult, failed)
  | inr succeeded ↦ rw (sysresult, succeeded)
]

plan_idle :
    (q : SubmissionQueue) → contains q.flags setup_sqpoll ≡ false → entry_plan q 0 0 ≡ (0, false)
unfolding entry_plan enter_flags
plan_idle q plain = rw (entry_plan, enter_flags, plain)

plan_polled :
    (q : SubmissionQueue) (n : ℕ)
    → contains q.flags setup_sqpoll ≡ true
    → bit_and q.kflags sq_need_wakeup ≡ 0
    → entry_plan q n 0 ≡ (0, false)
unfolding entry_plan enter_flags
plan_polled q n polls awake =
    let asleep : (bit_and q.kflags sq_need_wakeup == 0) ≡ true = ap (λ t. t == 0) awake in
    rw (entry_plan, enter_flags, polls, asleep)

plan_new :
    (q : SubmissionQueue) (n wait_for : ℕ)
    → contains q.flags setup_sqpoll ≡ false
    → 1 ≤ n
    → entry_plan q n wait_for ≡ (if wait_for == 0 then 0 else enter_getevents, true)
unfolding entry_plan enter_flags
plan_new q n wait_for plain some_new =
    let more : ltb 0 n ≡ true = ground (arith, some_new) in
    elim (Bool-cases (wait_for == 0)) [
      | inl e ↦ rw (entry_plan, enter_flags, plain, more, e)
      | inr e ↦ rw (entry_plan, enter_flags, plain, more, e)
    ]

no_entry :
    (io_uring_enter : IoUringEnter) (q : SubmissionQueue) (n wait_for : ℕ)
    → sub32 q.ktail q.sqe_tail ≡ n
    → entry_plan q n wait_for ≡ (0, false)
    → submit_and_wait io_uring_enter q wait_for ≡ (ok n, record q { sqe_tail = q.ktail })
unfolding submit_and_wait
no_entry io_uring_enter q n wait_for e plan = rw (e, plan)

one_entry :
    (io_uring_enter : IoUringEnter) (q : SubmissionQueue) (n wait_for flags : ℕ)
    → sub32 q.ktail q.sqe_tail ≡ n
    → entry_plan q n wait_for ≡ (flags, true)
    → submit_and_wait io_uring_enter q wait_for ≡ outcome q n (io_uring_enter q n wait_for flags)
unfolding submit_and_wait
one_entry io_uring_enter q n wait_for flags e plan =
    rw (e, plan) (finished q n (io_uring_enter q n wait_for flags))

-- Nothing new to submit and nothing to wait for: `submit` does not enter the kernel.
pub submit_idle :
    (io_uring_enter : IoUringEnter) (q : SubmissionQueue)
    → contains q.flags setup_sqpoll ≡ false
    → q.sqe_tail ≡ q.ktail
    → submit io_uring_enter q ≡ (ok 0, q)
unfolding submit
submit_idle io_uring_enter q plain e =
    no_entry io_uring_enter q 0 0 (omega (arith, e)) (plan_idle q plain)
    ∙ ap (λ t. (ok 0, record q { sqe_tail = t })) (sym e)

-- With a kernel thread that polls and needs no wakeup, `submit` does not enter the kernel, returns
-- the number of new entries and remembers the tail.
pub submit_polled :
    (io_uring_enter : IoUringEnter) (q : SubmissionQueue)
    → contains q.flags setup_sqpoll ≡ true
    → bit_and q.kflags sq_need_wakeup ≡ 0
    → submit io_uring_enter q ≡ (ok (sub32 q.ktail q.sqe_tail), record q { sqe_tail = q.ktail })
unfolding submit
submit_polled io_uring_enter q polls awake =
    no_entry io_uring_enter q (sub32 q.ktail q.sqe_tail) 0 refl (plan_polled q _ polls awake)

-- what the kernel answers when `n` entries are submitted
abbrev pub answer : IoUringEnter → SubmissionQueue → ℕ → ℕ → Entered
answer io_uring_enter q n wait_for =
    io_uring_enter q n wait_for (if wait_for == 0 then 0 else enter_getevents)

-- Without a polling thread and with nothing left to submit, `submit_and_wait` behind `advance` by
-- `n`, `1 ≤ n`, asks the kernel for `n` entries, and for completions exactly when it is to wait; if
-- the call succeeds, however many entries the kernel consumed, it remembers the tail and returns `n`,
-- and if it fails it returns the error and
-- leaves the entries to be submitted.
pub advance-submit_and_wait :
    (io_uring_enter : IoUringEnter) (q : SubmissionQueue) (n wait_for : ℕ)
    → contains q.flags setup_sqpoll ≡ false
    → q.sqe_tail ≡ q.ktail
    → q.ktail < 2 ^ 32
    → 1 ≤ n
    → n < 2 ^ 32
    → submit_and_wait io_uring_enter (advance q n) wait_for
      ≡ outcome (advance q n) n (answer io_uring_enter (advance q n) n wait_for)
unfolding advance
advance-submit_and_wait io_uring_enter q n wait_for plain e low some_new few =
    one_entry io_uring_enter (advance q n) n wait_for (if wait_for == 0 then 0 else enter_getevents)
      (omega (arith, e, low, few)) (plan_new (advance q n) n wait_for plain some_new)

-- Without a polling thread, with `n` entries new and `p` pending: where the kernel accepts the call but
-- consumes only `m` of the pending entries, `submit` returns `n` all the same; `p - m` entries stay
-- pending, and the next `submit` returns 0 and does not enter the kernel for them, whatever it would
-- answer.
pub submit-submit :
    (k p n m : ℕ) (first second : IoUringEnter) (q : SubmissionQueue)
    → contains q.flags setup_sqpoll ≡ false
    → IsPending k p q
    → sub32 q.ktail q.sqe_tail ≡ n
    → 1 ≤ n
    → m ≤ p
    → leb (2 ^ 31) (first q n 0 0).returned ≡ false
    → (first q n 0 0).new_khead ≡ (q.khead + m) % 2 ^ 32
    → (after : SubmissionQueue) × (submit first q ≡ (ok n, after))
      × IsPending k (p - m) after
      × (submit second after ≡ (ok 0, after))
unfolding submit
submit-submit k p n m first second q plain pending new some_new few accepted consumed =
    let e = first q n 0 0 in
    let after : SubmissionQueue = record (written_by q e) { sqe_tail = q.ktail } in
    (
      after,
      one_entry first q n 0 0 new (plan_new q n 0 plain some_new) ∙ rw (accepted) refl,
      record {
        narrow = pending.narrow;
        mask_is = pending.mask_is;
        cells_are = pending.cells_are;
        tail_is = omega (arith, pending.tail_is, consumed, few);
      },
      submit_idle second after plain refl,
    )
