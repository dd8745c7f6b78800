-- ===== src/Executor/Submit/Links/Provide.antt =====
-- hamerkop/src/executor/handle.rs: `LinkedSubmitter::provide_buffer` and what its future does with the event.
use hamerkop.Base.{
  ℕ, suc, ◌-◌, ◌^◌, ◌≤◌, ◌<◌, ◌≡◌, refl, ◌∙◌, true, false, none, some, List, [], ◌==◌, leb, done,
  arith, length, get_elem?, get_elem?-set_self, ==_refl,
}
use hamerkop.Base.Bits.{pow_two_pos}
use hamerkop.Slotmap.{StableSlotmap, get, get_mut, insert, remove}
use hamerkop.Slotmap as Slotmap
use hamerkop.Slotmap.Invariant.{IsValid}
use hamerkop.Slotmap.Reuse.{insert-lt-u16}
use hamerkop.Slotmap.Iter.{get_mut_lem}
use hamerkop.FixedVec.Ops.{FixedVec, capacity, clear, drop_range, set_len}
use hamerkop.Uring.Raw as Raw
use hamerkop.Uring.Raw.{SubmissionQueueEvent, set_user_data, add_flags}
use hamerkop.Uring.Control.{new_provide_buffers, prep_provide_buffers}
use hamerkop.Uring.Submission.{ok}
use hamerkop.Executor.{CompletionEvent, new_event, no_task_sentinel, delete_buffer_on_error}
use hamerkop.Executor.Submit.{Kernel, CompletionFuture, io_link}
use hamerkop.Executor.Submit.Links.{
  LinkedSubmitter, provided, prepare_provide, submit_sqe, provide_buffer,
}
use hamerkop.Executor.Submit.Links.Chain.{HasSlot, linked, slot_of, extended, submit_sqe_lem}

abbrev pub event_for : ℕ → CompletionEvent
event_for bufid = record {
  cqe = none;
  task = no_task_sentinel;
  action = delete_buffer_on_error bufid;
}

clear_bytes : (buffer : FixedVec ℕ) → clear false buffer ≡ done ([], set_len buffer 0)
unfolding clear drop_range
clear_bytes buffer = refl

module _ {F : Type 0} where
  -- the submitter with other buffers
  abbrev pub with_buffers : LinkedSubmitter F → StableSlotmap (FixedVec ℕ) → LinkedSubmitter F
  with_buffers s bs = record s { ctx = record s.ctx { buffers = bs } }

  same_slot :
      (k p : ℕ) (s : LinkedSubmitter F) (bs : StableSlotmap (FixedVec ℕ))
      → HasSlot k p s
      → HasSlot k p (with_buffers s bs)
  same_slot k p s bs h = record {
    pending = h.pending;
    tail_low = h.tail_low;
    room = h.room;
    few = h.few;
    completions_valid = h.completions_valid;
    completions_room = h.completions_room;
  }

  -- the submitter that `provide_buffer` leaves
  abbrev after_provide :
      ℕ
      → LinkedSubmitter F
      → StableSlotmap (FixedVec ℕ)
      → StableSlotmap CompletionEvent
      → ℕ
      → ℕ
      → SubmissionQueueEvent
      → LinkedSubmitter F
  after_provide k s bs cs cqid bufid sqe =
      let s1 = extended k (with_buffers s bs) cs sqe in
      record s1 { ctx = record s1.ctx { completions = (get_mut cs cqid (event_for bufid)).1 } }

  provides :
      (k fuel : ℕ) (kernels : List Kernel) (as_mut_ptr : FixedVec ℕ → ℕ) (buffer : FixedVec ℕ)
      (s : LinkedSubmitter F) (bufid cqid : ℕ) (bs : StableSlotmap (FixedVec ℕ))
      (cs : StableSlotmap CompletionEvent) (sqe : SubmissionQueueEvent)
      → Slotmap.len s.ctx.buffers < 2 ^ 16 - 1
      → s.ctx.bufsize ≡ capacity buffer
      → insert s.ctx.buffers (set_len buffer 0) ≡ done (bufid, bs)
      → submit_sqe fuel kernels
          (prepare_provide (as_mut_ptr (set_len buffer 0)) (capacity buffer) bufid)
          (with_buffers s bs)
        ≡ done (
            some (
              ok (record { cqid = cqid; must_wait = false }),
              (extended k (with_buffers s bs) cs sqe, kernels),
            ))
      → get cs cqid ≡ some (new_event no_task_sentinel)
      → provide_buffer fuel kernels as_mut_ptr buffer s
        ≡ done (
            some (
              provided (record { cqid = cqid; must_wait = false }) bufid,
              (after_provide k s bs cs cqid bufid sqe, kernels),
            ))
  unfolding provide_buffer new_event
  provides k fuel kernels as_mut_ptr buffer s bufid cqid bs cs sqe few size put sent found =
      let fits : (s.ctx.bufsize == capacity buffer) ≡ true = ground (arith, size) in
      let low : leb (2 ^ 16 - 1) (Slotmap.len s.ctx.buffers) ≡ false = ground (arith, few) in
      rw (fits, low, clear_bytes buffer, put, sent, found, provide_buffer) refl

  -- While the pool has fewer than 65535 buffers in at most 64 slabs, and the queue has a free entry, `provide_buffer`
  -- accepts a buffer of the right capacity: it gives it an identifier that was vacant and that the 16 bits of the
  -- request hold, keeps the cleared buffer in the pool under it, marks the completion to delete that buffer if the
  -- request fails unheard, and writes a linked request with the identifier and the completion's index.
  pub provide_buffer_lem :
      (k p fuel : ℕ) (kernels : List Kernel) (as_mut_ptr : FixedVec ℕ → ℕ) (buffer : FixedVec ℕ)
      (s : LinkedSubmitter F)
      → HasSlot k p s
      → IsValid s.ctx.buffers
      → length s.ctx.buffers.slabs ≤ 64
      → Slotmap.len s.ctx.buffers < 2 ^ 16 - 1
      → s.ctx.bufsize ≡ capacity buffer
      → (fut : CompletionFuture) × (bufid : ℕ) × (after : LinkedSubmitter F)
        × (sqe : SubmissionQueueEvent) × (provide_buffer (suc fuel) kernels as_mut_ptr buffer s
            ≡ done (some (provided fut bufid, (after, kernels))))
        × (get s.ctx.buffers bufid ≡ none)
        × (bufid < 2 ^ 16)
        × (get after.ctx.buffers bufid ≡ some (set_len buffer 0))
        × (get after.ctx.completions fut.cqid ≡ some (event_for bufid))
        × (get_elem? after.ctx.sq.sqes_memory (slot_of k s) ≡ some sqe)
        × (sqe.off_addr2 ≡ bufid)
        × (sqe.user_data ≡ fut.cqid)
        × (sqe.flags ≡ io_link)
  unfolding prepare_provide prep_provide_buffers new_provide_buffers add_flags set_user_data
      Raw.clear
  provide_buffer_lem k p fuel kernels as_mut_ptr buffer s h vb small few size =
      let (bufid, bs, put, low, _, pooled) =
        insert-lt-u16 s.ctx.buffers (set_len buffer 0) vb small few in
      let func = prepare_provide (as_mut_ptr (set_len buffer 0)) (capacity buffer) bufid in
      let (cqid, cs, old, sent, made, _) =
        submit_sqe_lem k p fuel kernels func (with_buffers s bs) (same_slot k p s bs h) in
      let sqe = linked (func old) cqid in
      let found : get cs cqid ≡ some (new_event no_task_sentinel) =
        made.gets cqid ∙ rw (==_refl cqid) refl in
      let (_, gets, _, _) = get_mut_lem cs cqid (event_for bufid) made.valid in
      (
        record { cqid = cqid; must_wait = false },
        bufid,
        after_provide k s bs cs cqid bufid sqe,
        sqe,
        provides k (suc fuel) kernels as_mut_ptr buffer s bufid cqid bs cs sqe few size put sent
            found,
        pooled.vacant,
        low,
        pooled.gets bufid ∙ rw (==_refl bufid) refl,
        gets cqid ∙ rw (found, ==_refl cqid) refl,
        get_elem?-set_self s.ctx.sq.sqes_memory (slot_of k s) sqe
            (omega (arith, h.pending.cells_are, pow_two_pos k)),
        omega (arith, low),
        refl,
        refl,
      )
