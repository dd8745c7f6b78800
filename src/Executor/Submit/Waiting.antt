-- ===== src/Executor/Submit/Waiting.antt =====
-- hamerkop/src/executor/future.rs: a `CompletionFuture` that is dropped.
use hamerkop.Base.{
  ℕ, zero, suc, ◌≡◌, refl, sym, ap, ◌∙◌, Bool, true, false, Option, none, some, List, [], ◌∷◌,
  if◌then◌else◌, done, ◌>>=◌, All, Bool-cases, Option-cases, inl, inr, ==_refl, not,
}
use hamerkop.Slotmap.{StableSlotmap, get, get_mut, remove}
use hamerkop.Slotmap.Invariant.{IsValid}
use hamerkop.Slotmap.Laws.{remove_lem}
use hamerkop.Slotmap.Iter.{get_mut_lem, is_some}
use hamerkop.Uring.RingBuf.{into_iter}
use hamerkop.Uring.Submission.{IoResult, ok, os_error, submit_and_wait}
use hamerkop.Uring.Completion.{CompletionQueueEvent, available}
use hamerkop.Uring.Completion.Order.{IsFilled}
use hamerkop.Executor.{
  IoContext, CompletionEvent, dead_task_sentinel, no_task_sentinel, process_cqes,
}
use hamerkop.Executor.Process.{process_cqes_lem, mine, settle}
use hamerkop.Executor.Submit.{
  Kernel, CompletionFuture, Io, submit, drop_future, await_event, with_task, cancel,
}
use hamerkop.Executor.Submit.Retry.{
  IsFree, is_retried, called, submit_ok, submit_failed, free_answer,
}

abbrev pub no_events : List CompletionQueueEvent → Bool
no_events [] = true
no_events (e ∷ es) = false

settle-none : (es : List CompletionQueueEvent) → settle none es ≡ none
settle-none [] = refl
settle-none (e ∷ es) = settle-none es

settle_dead :
    (ce : CompletionEvent) (es : List CompletionQueueEvent)
    → settle (some (record ce { task = dead_task_sentinel })) es
      ≡ (if no_events es then some (record ce { task = dead_task_sentinel }) else none)
settle_dead ce [] = refl
settle_dead ce (e ∷ es) = settle-none es

-- what a future that need not wait leaves of its completion
abbrev pub left_by : CompletionEvent → Option CompletionEvent
left_by ce = if is_some ce.cqe then none else some (record ce { task = dead_task_sentinel })

left_early :
    (ce : CompletionEvent)
    → ce.cqe ≡ none
    → some (record ce { task = dead_task_sentinel }) ≡ left_by ce
left_early ce waits =
    ap (λ b. if b then none else some (record ce { task = dead_task_sentinel }))
      (sym (ap is_some waits))

settle_left :
    (ce : CompletionEvent) (es : List CompletionQueueEvent)
    → settle (left_by ce) es ≡ (
        if is_some ce.cqe
        then none
        else if no_events es
        then some (record ce { task = dead_task_sentinel })
        else none)
settle_left ce es = elim (Bool-cases (is_some ce.cqe)) [
  | inl came ↦ rw (came) (settle-none es)
  | inr waits ↦ rw (waits) (settle_dead ce es)
]

module _ {F : Type 0} where
  Drops : List Kernel → CompletionFuture → IoContext F → CompletionEvent → Io F (Unit {0}) → Type 0
  Drops kernels fut ctx ce ends =
      (cs : StableSlotmap CompletionEvent) × (ends
        ≡ done (some (tt, (record ctx { completions = cs }, kernels))))
      × IsValid cs
      × (get cs fut.cqid ≡ left_by ce)

  drop_early :
      (fuel : ℕ) (kernels : List Kernel) (fut : CompletionFuture) (ctx : IoContext F)
      (ce : CompletionEvent)
      → get ctx.completions fut.cqid ≡ some ce
      → ce.cqe ≡ none
      → drop_future false fuel kernels fut ctx ≡ (
          if not fut.must_wait
          then done (some (tt, (with_task ctx fut.cqid ce dead_task_sentinel, kernels)))
          else cancel fuel kernels fut.cqid (with_task ctx fut.cqid ce no_task_sentinel))
  unfolding drop_future
  drop_early fuel kernels fut ctx ce h waits =
      rw (h, drop_future)
        (ap
          (λ o. elim o [
            | some cqe ↦ done (
                some
                  (tt, (record ctx { completions = (remove ctx.completions fut.cqid).1 }, kernels)))
            | none ↦
                if not fut.must_wait
                then done (some (tt, (with_task ctx fut.cqid ce dead_task_sentinel, kernels)))
                else cancel fuel kernels fut.cqid (with_task ctx fut.cqid ce no_task_sentinel)
          ])
          waits)

  drop_future_lem :
      (fuel : ℕ) (kernels : List Kernel) (fut : CompletionFuture) (ctx : IoContext F)
      (ce : CompletionEvent)
      → IsValid ctx.completions
      → get ctx.completions fut.cqid ≡ some ce
      → fut.must_wait ≡ false
      → Drops kernels fut ctx ce (drop_future false fuel kernels fut ctx)
  unfolding Drops drop_future
  drop_future_lem fuel kernels fut ctx ce valid h free = elim (Option-cases ce.cqe) [
    | inl waits ↦
        let (_, gets, _, still) =
          get_mut_lem ctx.completions fut.cqid (record ce { task = dead_task_sentinel }) valid in
        (
          (get_mut ctx.completions fut.cqid (record ce { task = dead_task_sentinel })).1,
          drop_early fuel kernels fut ctx ce h waits ∙ rw (free) refl,
          still,
          gets fut.cqid ∙ rw (h, ==_refl fut.cqid) (left_early ce waits),
        )
    | inr (cqe, came) ↦
        let (_, gone, _) = remove_lem ctx.completions fut.cqid valid in
        (
          (remove ctx.completions fut.cqid).1,
          rw (h, came, drop_future) refl,
          gone.valid,
          gone.gets fut.cqid ∙ rw (came, ==_refl fut.cqid) refl,
        )
  ]

  -- A future that need not wait for its request and whose completion is there can be dropped while the context is not
  -- borrowed: with `n` entries of the completion queue filled and both maps valid, the drop does not call the kernel, and the completion is removed at once if its event has come, or else when `process_cqes`
  -- meets the first event for it; until then it is marked as that of a dead task.
  pub drop_future-process_cqes :
      (k n fuel : ℕ) (kernels : List Kernel) (fut : CompletionFuture) (ctx : IoContext F)
      (ce : CompletionEvent)
      → IsFilled k n ctx.cq
      → IsValid ctx.completions
      → IsValid ctx.buffers
      → get ctx.completions fut.cqid ≡ some ce
      → fut.must_wait ≡ false
      → (ctx1 : IoContext F) × (es : List CompletionQueueEvent) × (after : IoContext F)
        × (tasks : List ℕ) × (drop_future false fuel kernels fut ctx
            ≡ done (some (tt, (ctx1, kernels))))
        × ((available ctx.cq >>= into_iter) ≡ done es)
        × (process_cqes ctx1 ≡ done (after, tasks))
        × (get after.completions fut.cqid ≡ (
            if is_some ce.cqe
            then none
            else if no_events (mine fut.cqid es)
            then some (record ce { task = dead_task_sentinel })
            else none))
  unfolding Drops
  drop_future-process_cqes k n fuel kernels fut ctx ce filled vc vb h free =
      let (cs, ends, valid, left) = drop_future_lem fuel kernels fut ctx ce vc h free in
      let (es, after, yields, _, runs, _, _, _, gets, _, _) =
        process_cqes_lem k n (record ctx { completions = cs }) filled valid vb in
      (
        record ctx { completions = cs },
        es,
        after,
        _,
        ends,
        yields,
        runs,
        gets fut.cqid
            ∙ ap (λ o. settle o (mine fut.cqid es)) left
            ∙ settle_left ce (mine fut.cqid es),
      )

  await_step :
      (fuel : ℕ) (kernel : Kernel) (later : List Kernel) (cqid : ℕ) (ctx : IoContext F)
      (ce : CompletionEvent) (answer : IoResult (Unit {0}))
      → submit (kernel ∷ later) 1 ctx ≡ done (some (answer, (called kernel 1 ctx, later)))
      → get ctx.completions cqid ≡ some ce
      → ce.cqe ≡ none
      → await_event (suc fuel) (kernel ∷ later) cqid ctx
        ≡ await_event fuel later cqid (called kernel 1 ctx)
  unfolding await_event
  await_step fuel kernel later cqid ctx ce answer e h waits = rw (e, h, waits, await_event) refl

  submits :
      (kernel : Kernel) (later : List Kernel) (ctx : IoContext F) (r : IoResult ℕ)
      → (submit_and_wait kernel.enter ctx.sq 1).0 ≡ r
      → is_retried r ≡ false
      → (answer : IoResult (Unit {0})) × (submit (kernel ∷ later) 1 ctx
          ≡ done (some (answer, (called kernel 1 ctx, later))))
  submits kernel later ctx (ok n) h free = (ok tt, submit_ok kernel later 1 n ctx h)
  submits kernel later ctx (os_error code) h free =
      (os_error code, submit_failed kernel later 1 code ctx h free)

  -- The loop of `drop` that waits for the event of a request does not end through calls of the kernel that answer
  -- anything but EBUSY or EAGAIN, however many they are and whatever events they bring: it processes no events.
  pub await_event-none :
      (fuel : ℕ) (kernels : List Kernel) (cqid : ℕ) (ctx : IoContext F) (ce : CompletionEvent)
      → All IsFree kernels
      → get ctx.completions cqid ≡ some ce
      → ce.cqe ≡ none
      → await_event fuel kernels cqid ctx ≡ done none
  unfolding await_event submit
  await_event-none zero kernels cqid ctx ce free h waits = refl
  await_event-none (suc fuel) [] cqid ctx ce free h waits = refl
  await_event-none (suc fuel) (kernel ∷ later) cqid ctx ce free h waits =
      let r = (submit_and_wait kernel.enter ctx.sq 1).0 in
      let (answer, e) = submits kernel later ctx r refl (free_answer kernel ctx.sq 1 free.0) in
      await_step fuel kernel later cqid ctx ce answer e h waits
      ∙ await_event-none fuel later cqid (called kernel 1 ctx) ce free.1 h waits
