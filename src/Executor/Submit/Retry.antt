-- ===== src/Executor/Submit/Retry.antt =====
-- hamerkop/src/executor/handle.rs: `IOContext::submit`, which tries again while the kernel is busy.
use hamerkop.Base.{
  ℕ, ◌≡◌, refl, ◌∙◌, Bool, true, false, some, List, [], ◌∷◌, ◌++◌, if◌then◌else◌, done, All,
  Bool-cases, inl, inr, sub32,
}
use hamerkop.Slotmap.Invariant.{IsValid}
use hamerkop.Uring.Submission.{
  SubmissionQueue, IoResult, ok, os_error, sysresult, submit_and_wait, entry_plan, finish,
  written_by,
}
use hamerkop.Uring.Completion.{CompletionQueue}
use hamerkop.Uring.Completion.Order.{IsFilled}
use hamerkop.Executor.{IoContext, process_cqes}
use hamerkop.Executor.Process.{process_cqes_lem}
use hamerkop.Executor.Submit.{Kernel, Io, retried, submit}

abbrev pub is_retried : {A : Type 0} → IoResult A → Bool
is_retried (ok a) = false
is_retried (os_error code) = retried code

-- The kernel is not busy at this call, whatever it is called with.
abbrev pub IsFree : Kernel → Type 0
IsFree kernel =
    (q : SubmissionQueue) (submitted wait_for flags : ℕ)
    → is_retried (
        sysresult (kernel.enter q submitted wait_for flags).returned
          (kernel.enter q submitted wait_for flags).errno)
      ≡ false

-- The kernel keeps the completion queue a ring of `2 ^ k` entries.
abbrev pub Keeps : ℕ → Kernel → Type 0
Keeps k kernel =
    (q : CompletionQueue) (n : ℕ) → IsFilled k n q → (m : ℕ) × IsFilled k m (kernel.post q)

is_retried-finish :
    (q : SubmissionQueue) (submitted tail : ℕ) (r : IoResult ℕ)
    → is_retried (finish q submitted tail r).0 ≡ is_retried r
is_retried-finish q submitted tail (ok n) = refl
is_retried-finish q submitted tail (os_error code) = refl

pub free_answer :
    (kernel : Kernel) (q : SubmissionQueue) (wait_for : ℕ)
    → IsFree kernel
    → is_retried (submit_and_wait kernel.enter q wait_for).0 ≡ false
unfolding submit_and_wait
free_answer kernel q wait_for free =
    let submitted = sub32 q.ktail q.sqe_tail in
    let plan = entry_plan q submitted wait_for in
    elim plan.1
      as (λ b.
        is_retried
          (if b
            then (let e = kernel.enter q submitted wait_for plan.0 in
                finish (written_by q e) submitted q.ktail (sysresult e.returned e.errno))
            else (ok submitted, record q { sqe_tail = q.ktail })).0
        ≡ false) [
          | true ↦
              is_retried-finish _ submitted q.ktail (
                sysresult (kernel.enter q submitted wait_for plan.0).returned
                  (kernel.enter q submitted wait_for plan.0).errno)
              ∙ free q submitted wait_for plan.0
          | false ↦ refl
        ]

module _ {F : Type 0} where
  -- a submission that has come to its end, with the maps and the completion queue as they should be
  Submitted : ℕ → Io F (IoResult (Unit {0})) → Type 0
  Submitted k ends =
      (answer : IoResult (Unit {0})) × (after : IoContext F) × (left : List Kernel) × (ends
        ≡ done (some (answer, (after, left))))
      × (is_retried answer ≡ false)
      × IsValid after.completions
      × IsValid after.buffers
      × ((n : ℕ) × IsFilled k n after.cq)

  abbrev pub called : Kernel → ℕ → IoContext F → IoContext F
  called kernel wait_for ctx = record ctx {
    sq = (submit_and_wait kernel.enter ctx.sq wait_for).1;
    cq = kernel.post ctx.cq;
  }

  pub submit_ok :
      (kernel : Kernel) (later : List Kernel) (wait_for n : ℕ) (ctx : IoContext F)
      → (submit_and_wait kernel.enter ctx.sq wait_for).0 ≡ ok n
      → submit (kernel ∷ later) wait_for ctx
        ≡ done (some (ok tt, (called kernel wait_for ctx, later)))
  unfolding submit
  submit_ok kernel later wait_for n ctx h = rw (h, submit) refl

  pub submit_failed :
      (kernel : Kernel) (later : List Kernel) (wait_for code : ℕ) (ctx : IoContext F)
      → (submit_and_wait kernel.enter ctx.sq wait_for).0 ≡ os_error code
      → retried code ≡ false
      → submit (kernel ∷ later) wait_for ctx
        ≡ done (some (os_error code, (called kernel wait_for ctx, later)))
  unfolding submit
  submit_failed kernel later wait_for code ctx h c = rw (h, submit, c) refl

  submit_again :
      (kernel : Kernel) (later : List Kernel) (wait_for code : ℕ) (ctx after : IoContext F)
      (tasks : List ℕ)
      → (submit_and_wait kernel.enter ctx.sq wait_for).0 ≡ os_error code
      → retried code ≡ true
      → process_cqes (called kernel wait_for ctx) ≡ done (after, tasks)
      → submit (kernel ∷ later) wait_for ctx
        ≡ submit later wait_for (record after { woken = after.woken ++ tasks })
  unfolding submit
  submit_again kernel later wait_for code ctx after tasks h c p = rw (h, submit, c, p) refl

  -- One call that does not answer that the kernel is busy ends the submission.
  stops :
      (k : ℕ) (kernel : Kernel) (later : List Kernel) (wait_for : ℕ) (ctx : IoContext F)
      (r : IoResult ℕ)
      → (submit_and_wait kernel.enter ctx.sq wait_for).0 ≡ r
      → is_retried r ≡ false
      → IsValid ctx.completions
      → IsValid ctx.buffers
      → ((n : ℕ) × IsFilled k n (kernel.post ctx.cq))
      → Submitted k (submit (kernel ∷ later) wait_for ctx)
  unfolding Submitted
  stops k kernel later wait_for ctx (ok n) h not_busy vc vb filled = (
    ok tt,
    called kernel wait_for ctx,
    later,
    submit_ok kernel later wait_for n ctx h,
    refl,
    vc,
    vb,
    filled,
  )
  stops k kernel later wait_for ctx (os_error code) h not_busy vc vb filled = (
    os_error code,
    called kernel wait_for ctx,
    later,
    submit_failed kernel later wait_for code ctx h not_busy,
    not_busy,
    vc,
    vb,
    filled,
  )

  -- After a call that answers that the kernel is busy, the events are processed and the rest is as from there.
  goes_on :
      (k n : ℕ) (kernel : Kernel) (later : List Kernel) (wait_for : ℕ) (ctx : IoContext F)
      (r : IoResult ℕ)
      → (submit_and_wait kernel.enter ctx.sq wait_for).0 ≡ r
      → is_retried r ≡ true
      → IsValid ctx.completions
      → IsValid ctx.buffers
      → IsFilled k n (kernel.post ctx.cq)
      → ((c : IoContext F)
          → IsValid c.completions
          → IsValid c.buffers
          → IsFilled k 0 c.cq
          → Submitted k (submit later wait_for c))
      → Submitted k (submit (kernel ∷ later) wait_for ctx)
  goes_on k n kernel later wait_for ctx (ok m) h busy vc vb filled rest = absurd (cc)
  goes_on k n kernel later wait_for ctx (os_error code) h busy vc vb filled rest =
      let (es, after, _, _, ends, empty, vc1, vb1, _, _, _) =
        process_cqes_lem k n (called kernel wait_for ctx) filled vc vb in
      rw (submit_again kernel later wait_for code ctx after _ h busy ends)
        (rest (record after { woken = after.woken ++ _ }) vc1 vb1 empty)

  -- Where among the calls of the kernel there is one that does not answer EBUSY or EAGAIN, and the kernel keeps the
  -- completion queue a ring of `2 ^ k` entries, `submit` comes to an end: it neither panics nor reads an entry that is
  -- not filled, its answer is not one of these two errors, and both maps are valid after it.
  pub submit_lem :
      (k n : ℕ) (earlier : List Kernel) (kernel : Kernel) (later : List Kernel) (wait_for : ℕ)
      (ctx : IoContext F)
      → IsFree kernel
      → All (Keeps k) earlier
      → Keeps k kernel
      → IsFilled k n ctx.cq
      → IsValid ctx.completions
      → IsValid ctx.buffers
      → (answer : IoResult (Unit {0})) × (after : IoContext F) × (left : List Kernel) × (submit
            (earlier ++ (kernel ∷ later))
            wait_for
            ctx
          ≡ done (some (answer, (after, left))))
        × (is_retried answer ≡ false)
        × IsValid after.completions
        × IsValid after.buffers
        × ((m : ℕ) × IsFilled k m after.cq)
  unfolding Submitted
  submit_lem k n [] kernel later wait_for ctx free all keeps filled vc vb =
      stops k kernel later wait_for ctx (submit_and_wait kernel.enter ctx.sq wait_for).0 refl
        (free_answer kernel ctx.sq wait_for free) vc vb (keeps ctx.cq n filled)
  submit_lem k n (first ∷ earlier) kernel later wait_for ctx free all keeps filled vc vb =
      let r = (submit_and_wait first.enter ctx.sq wait_for).0 in
      let kept = all.0 ctx.cq n filled in
      elim (Bool-cases (is_retried r)) [
        | inl busy ↦
            goes_on k kept.0 first (earlier ++ (kernel ∷ later)) wait_for ctx r refl busy vc vb
              kept.1
              (λ c vc1 vb1 empty.
                submit_lem k 0 earlier kernel later wait_for c free all.1 keeps empty vc1 vb1)
        | inr not_busy ↦
            stops k first (earlier ++ (kernel ∷ later)) wait_for ctx r refl not_busy vc vb kept
      ]
