-- ===== src/Executor/Handle.antt =====
-- hamerkop/src/executor/handle.rs: `IOHandle`, which makes a submitter for one request and submits it.
-- The context that the handle shares is passed as a state; awaiting the future that a request gives is
-- `poll` of Executor/Submit.
mod Tests
use mathlib.Core.Path.{subst}
use hamerkop.Base.{
  ℕ, zero, suc, ◌+◌, ◌-◌, ◌%◌, ◌^◌, ◌<◌, ◌≡◌, ◌≢◌, refl, sym, ap, ◌∙◌, Option, none, some, List, [],
  ◌∷◌, ◌++◌, ◌==◌, false, Outcome, done, ◌>>=◌, ◌>>◌, assert, get_elem?, get_elem?-set_self,
  get_elem?-set_ne, length-set, bit_and, arith,
}
use hamerkop.Base.Bits.{pow_two_pos}
use hamerkop.Slotmap as Slotmap
use hamerkop.Slotmap.{StableSlotmap}
use hamerkop.Slotmap.Laws.{Inserted}
use hamerkop.FixedVec.Ops.{FixedVec, capacity}
use hamerkop.Uring.Raw.{SubmissionQueueEvent}
use hamerkop.Uring.Submission.{IoResult, ok, os_error}
use hamerkop.Uring.Submission.Submit.{IsPending}
use hamerkop.Executor.{IoContext, CompletionEvent, new_event, no_task_sentinel}
use hamerkop.Executor.Submit.{Kernel, CompletionFuture}
use hamerkop.Executor.Submit.Links.{
  LinkedSubmitter, Linking, Provided, new_submitter, submit_links, prepare_read_buf,
  prepare_write_buf,
}
use hamerkop.Executor.Submit.Links as Links
use hamerkop.Executor.Submit.Links.Chain.{HasSlot, linked, extended, slot_of, submit_sqe_lem}
use hamerkop.Executor.Submit.Links.Close.{unlinked, last_slot, submit_links_lem}

abbrev pub Handling : Type 0 → Type 0 → Type 0
Handling F A = Outcome (Option (A × (IoContext F × List Kernel)))

module _ {F : Type 0} where
  unfoldable pub buffer_size : IoContext F → ℕ
  buffer_size ctx = ctx.bufsize

  unfoldable pub buffer_count : IoContext F → ℕ
  buffer_count ctx = Slotmap.len ctx.buffers

  unfoldable pub spawn_dyn : IoContext F → F → IoContext F
  spawn_dyn ctx future = record ctx { created = ctx.created ++ (future ∷ []) }

  -- what the request gives, once the submitter is submitted
  abbrev pub submitted : {A : Type 0} → Linking F A → Handling F A
  submitted m = m >>= λ r. elim r [
    | none ↦ done none
    | some (a, (s, later)) ↦ submit_links s >>= λ ctx. done (some (a, (ctx, later)))
  ]

  unfoldable pub submit_sqe :
      ℕ
      → List Kernel
      → (SubmissionQueueEvent → SubmissionQueueEvent)
      → IoContext F
      → Handling F (IoResult CompletionFuture)
  submit_sqe fuel kernels func ctx =
      submitted (Links.submit_sqe fuel kernels func (new_submitter ctx))

  unfoldable pub read :
      ℕ → List Kernel → ℕ → ℕ → IoContext F → Handling F (IoResult CompletionFuture)
  read fuel kernels fd size ctx = submitted (Links.read fuel kernels fd size (new_submitter ctx))

  unfoldable pub read_buf :
      ℕ → List Kernel → ℕ → ℕ → ℕ → IoContext F → Handling F (IoResult CompletionFuture)
  read_buf fuel kernels fd addr size ctx =
      submitted (Links.submit_buf fuel kernels prepare_read_buf fd addr size (new_submitter ctx))

  unfoldable pub write_buf :
      ℕ → List Kernel → ℕ → ℕ → ℕ → IoContext F → Handling F (IoResult CompletionFuture)
  write_buf fuel kernels fd addr size ctx =
      submitted (Links.submit_buf fuel kernels prepare_write_buf fd addr size (new_submitter ctx))

  unfoldable pub provide_buffer :
      ℕ → List Kernel → (FixedVec ℕ → ℕ) → FixedVec ℕ → IoContext F → Handling F Provided
  provide_buffer fuel kernels as_mut_ptr buffer ctx =
      assert (buffer_size ctx == capacity buffer)
      >> submitted (Links.provide_buffer fuel kernels as_mut_ptr buffer (new_submitter ctx))

  -- what one request leaves of the context, and where its entry stands
  pub record Requests (k p : ℕ) (func : SubmissionQueueEvent → SubmissionQueueEvent)
      (ctx : IoContext F) (cqid : ℕ) (after : IoContext F) : Type 0 where
    pub pending : IsPending k (p + 1) after.sq
    pub old : SubmissionQueueEvent
    pub was : get_elem? ctx.sq.sqes_memory (ctx.sq.ktail % 2 ^ k) ≡ some old
    pub entry :
        get_elem? after.sq.sqes_memory (ctx.sq.ktail % 2 ^ k)
        ≡ some (unlinked (linked (func old) cqid))
    pub others :
        (i : ℕ)
        → ctx.sq.ktail % 2 ^ k ≢ i
        → get_elem? after.sq.sqes_memory i ≡ get_elem? ctx.sq.sqes_memory i
    pub queued : after.queued ≡ ctx.queued + 1
    pub waits : Inserted ctx.completions (new_event no_task_sentinel) cqid after.completions

  -- Where the ring has a free entry behind `p` pending ones and the completions have room, `submit_sqe`
  -- calls no kernel and gives a future for a completion that was vacant: one entry more is pending, the
  -- one at the old tail, which is what `func` makes of the entry that stood there, with the completion as
  -- its user data and without the link flag and the two bits that are no flag; no other entry changes, and one request more is queued.
  pub submit_sqe-Requests :
      (k p fuel : ℕ) (kernels : List Kernel) (func : SubmissionQueueEvent → SubmissionQueueEvent)
      (ctx : IoContext F)
      → HasSlot k p (new_submitter ctx)
      → (cqid : ℕ) × (after : IoContext F) × (submit_sqe (suc fuel) kernels func ctx
          ≡ done (some (ok (record { cqid = cqid; must_wait = false }), (after, kernels))))
        × Requests k p func ctx cqid after
  unfolding submit_sqe new_submitter
  submit_sqe-Requests k p fuel kernels func ctx h =
      let s : LinkedSubmitter F = new_submitter ctx in
      let (cqid, cs, old, made, waits, was) = submit_sqe_lem k p fuel kernels func s h in
      let sqe = linked (func old) cqid in
      let s1 : LinkedSubmitter F = extended k s cs sqe in
      let pending : IsPending k p s1.ctx.sq = record {
        narrow = h.pending.narrow;
        mask_is = h.pending.mask_is;
        cells_are = length-set ctx.sq.sqes_memory (slot_of k s) sqe ∙ h.pending.cells_are;
        tail_is = h.pending.tail_is;
      } in
      let (after, last, ends, still, cell, cleared, others, queued, rest) =
        submit_links_lem k p s1 pending h.tail_low (omega arith) (omega (arith, h.room)) in
      let here : last_slot k s1 ≡ ctx.sq.ktail % 2 ^ k =
        ap (λ n. n % 2 ^ k) {x = ctx.sq.ktail + (1 - 1)} {y = ctx.sq.ktail} (omega arith) in
      let there : slot_of k s ≡ ctx.sq.ktail % 2 ^ k =
        ap (λ n. n % 2 ^ k) {x = ctx.sq.ktail + 0} {y = ctx.sq.ktail} (omega arith) in
      let put : get_elem? s1.ctx.sq.sqes_memory (last_slot k s1) ≡ some sqe =
        ap (λ i. get_elem? s1.ctx.sq.sqes_memory i) (here ∙ sym there)
        ∙ get_elem?-set_self ctx.sq.sqes_memory (slot_of k s) sqe
            (omega (arith, h.pending.cells_are, pow_two_pos k)) in
      let same : last ≡ sqe = cc (cell, put) in
      (
        cqid,
        after,
        rw (submit_sqe, made, ends) refl,
        record {
          pending = still;
          old = old;
          was = ap (λ i. get_elem? ctx.sq.sqes_memory i) (sym there) ∙ was;
          entry =
              ap (λ i. get_elem? after.sq.sqes_memory i) (sym here)
              ∙ cleared
              ∙ ap (λ e. some (unlinked e)) same;
          others = λ i other.
              others i (λ e. other (sym here ∙ e))
              ∙ get_elem?-set_ne ctx.sq.sqes_memory (slot_of k s) i sqe
                  (λ e. other (sym there ∙ e));
          queued = queued;
          waits =
              subst (λ m. Inserted ctx.completions (new_event no_task_sentinel) cqid m)
                (sym (ap (λ c. c.completions) rest)) waits;
        },
      )
