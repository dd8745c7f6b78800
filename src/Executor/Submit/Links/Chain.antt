-- ===== src/Executor/Submit/Links/Chain.antt =====
-- hamerkop/src/executor/handle.rs: `LinkedSubmitter::submit_sqe`, when the queue has room and when it has not.
use hamerkop.Base.{
  get_elem?, ℕ, suc, ◌+◌, ◌%◌, ◌^◌, ◌<◌, ◌≡◌, refl, sym, ap, ◌∙◌, ◌≢◌, Bool, false, none, some,
  List, ◌∷◌, ◌==◌, leb, if◌then◌else◌, Outcome, done, panics, undefined, ◌>>=◌, arith, set,
  usize_mod, bit_and,
}
use hamerkop.Slotmap.{StableSlotmap}
use hamerkop.Slotmap.Invariant.{IsValid, HasRoom}
use hamerkop.Slotmap.Laws.{Inserted, insert_lem}
use hamerkop.Uring.Raw.{SubmissionQueueEvent, set_user_data, add_flags}
use hamerkop.Uring.RingBuf.{RingBuf}
use hamerkop.Uring.RingBuf as RingBuf
use hamerkop.Uring.RingBuf.Window.{narrow_pow, masked, get_lem, get_past}
use hamerkop.Uring.Submission.{ok, os_error, queue_size, submit_and_wait}
use hamerkop.Uring.Submission.Submit.{IsPending, free_ring, sqes_lem}
use hamerkop.Executor.{IoContext, CompletionEvent, new_event, no_task_sentinel}
use hamerkop.Executor.Submit.{Kernel, io_link, retried, write_sqe, from_ctx, free_sqe, drop_future}
use hamerkop.Executor.Submit.Retry.{submit_failed}
use hamerkop.Executor.Submit.Links.{LinkedSubmitter, submit_sqe}

-- What a read through an index that is inside gives, without the test.
unchecked_of :
    {A : Type 0} (m : Outcome A) (a : A) → (m >>= λ x. done (some x)) ≡ done (some a) → m ≡ done a
unchecked_of (done b) a h = cc
unchecked_of panics a h = absurd (cc)
unchecked_of undefined a h = absurd (cc)

get_unchecked_of :
    {A : Type 0} (r : RingBuf A) (i : ℕ) (a : A)
    → i < r.size
    → RingBuf.get r i ≡ done (some a)
    → RingBuf.get_unchecked r i ≡ done a
unfolding RingBuf.get RingBuf.len
get_unchecked_of r i a h e =
    let inside : leb r.size i ≡ false = ground (arith, h) in
    unchecked_of (RingBuf.get_unchecked r i) a (
      ap (λ b. if b then done none else (RingBuf.get_unchecked r i >>= λ x. done (some x)))
        (sym inside)
      ∙ e)

-- the entry that `submit_sqe` leaves of the one that `func` prepares
abbrev pub linked : SubmissionQueueEvent → ℕ → SubmissionQueueEvent
linked sqe cqid = add_flags (set_user_data sqe cqid) io_link

module _ {F : Type 0} where
  -- A submitter that may link one more request: the ring has p entries pending and room behind those linked so far.
  pub record HasSlot (k p : ℕ) (s : LinkedSubmitter F) : Type 0 where
    pub pending : IsPending k p s.ctx.sq
    pub tail_low : s.ctx.sq.ktail < 2 ^ 32
    pub room : p + s.count < 2 ^ k
    pub few : s.count ≢ queue_size s.ctx.sq
    pub completions_valid : IsValid s.ctx.completions
    pub completions_room : HasRoom s.ctx.completions

  from_ctx_lem :
      (ctx : IoContext F)
      → IsValid ctx.completions
      → HasRoom ctx.completions
      → (cqid : ℕ) × (cs : StableSlotmap CompletionEvent) × (from_ctx ctx
          ≡ done (record { cqid = cqid; must_wait = false }, record ctx { completions = cs }))
        × Inserted ctx.completions (new_event no_task_sentinel) cqid cs
  unfolding from_ctx
  from_ctx_lem ctx valid room =
      let (cqid, cs, e, law) = insert_lem ctx.completions (new_event no_task_sentinel) valid room in
      (cqid, cs, rw (e, from_ctx) refl, law)

  free_sqe_lem :
      (k p fuel : ℕ) (ignores : Bool) (kernels : List Kernel) (index : ℕ) (ctx : IoContext F)
      → IsPending k p ctx.sq
      → ctx.sq.ktail < 2 ^ 32
      → p + index < 2 ^ k
      → (old : SubmissionQueueEvent) × (free_sqe ignores (suc fuel) kernels index ctx
          ≡ done (some (ok (free_ring k p ctx.sq), (ctx, kernels))))
        × (RingBuf.get_unchecked (free_ring k p ctx.sq) index ≡ done old)
        × (get_elem? ctx.sq.sqes_memory ((ctx.sq.ktail + index) % 2 ^ k) ≡ some old)
  unfolding free_sqe
  free_sqe_lem k p fuel ignores kernels index ctx pending low room =
      let (ring, is_ring) = sqes_lem k p ctx.sq pending (omega arith) in
      let (old, got, cell) = get_lem k (free_ring k p ctx.sq) index is_ring low (omega arith) in
      (
        old,
        rw (ring, got, free_sqe) refl,
        get_unchecked_of (free_ring k p ctx.sq) index old (omega arith) got,
        cell,
      )

  abbrev pub slot_of : ℕ → LinkedSubmitter F → ℕ
  slot_of k s = (s.ctx.sq.ktail + s.count) % 2 ^ k

  -- the submitter after one more request
  abbrev pub extended :
      ℕ
      → LinkedSubmitter F
      → StableSlotmap CompletionEvent
      → SubmissionQueueEvent
      → LinkedSubmitter F
  extended k s cs sqe = record {
    ctx = record s.ctx {
      completions = cs;
      sq = record s.ctx.sq { sqes_memory = set s.ctx.sq.sqes_memory (slot_of k s) sqe };
    };
    count = s.count + 1;
  }

  write_at :
      (k p : ℕ) (s : LinkedSubmitter F) (sqe : SubmissionQueueEvent)
      → HasSlot k p s
      → write_sqe (free_ring k p s.ctx.sq) s.count sqe s.ctx.sq
        ≡ record s.ctx.sq { sqes_memory = set s.ctx.sq.sqes_memory (slot_of k s) sqe }
  write_at k p s sqe h =
      let (_, is_ring) = sqes_lem k p s.ctx.sq h.pending (omega (arith, h.room)) in
      let at : bit_and ((s.ctx.sq.ktail + s.count) % usize_mod) s.ctx.sq.kring_mask ≡ slot_of k s =
        masked k (free_ring k p s.ctx.sq) ((s.ctx.sq.ktail + s.count) % usize_mod) is_ring
        ∙ ap (λ n. n % 2 ^ k) {x = (s.ctx.sq.ktail + s.count) % usize_mod}
            {y = s.ctx.sq.ktail + s.count}
            (omega (arith, h.tail_low, h.room, narrow_pow k h.pending.narrow)) in
      ap (λ i. record s.ctx.sq { sqes_memory = set s.ctx.sq.sqes_memory i sqe }) at

  -- With a free entry, `submit_sqe` makes a completion under an index that was vacant, writes the prepared entry with
  -- that index and the link flag, and calls no kernel.
  pub submit_sqe_lem :
      (k p fuel : ℕ) (kernels : List Kernel) (func : SubmissionQueueEvent → SubmissionQueueEvent)
      (s : LinkedSubmitter F)
      → HasSlot k p s
      → (cqid : ℕ) × (cs : StableSlotmap CompletionEvent) × (old : SubmissionQueueEvent)
        × (submit_sqe (suc fuel) kernels func s
            ≡ done (
                some (
                  ok (record { cqid = cqid; must_wait = false }),
                  (extended k s cs (linked (func old) cqid), kernels),
                )))
        × Inserted s.ctx.completions (new_event no_task_sentinel) cqid cs
        × (get_elem? s.ctx.sq.sqes_memory (slot_of k s) ≡ some old)
  unfolding submit_sqe
  submit_sqe_lem k p fuel kernels func s h =
      let (cqid, cs, made, law) = from_ctx_lem s.ctx h.completions_valid h.completions_room in
      let ctx0 = record s.ctx { completions = cs } in
      let (old, free, got, cell) =
        free_sqe_lem k p fuel false kernels s.count ctx0 h.pending h.tail_low h.room in
      let few : (s.count == queue_size s.ctx.sq) ≡ false = ground (arith, h.few) in
      (
        cqid,
        cs,
        old,
        rw (made, few, free, got, submit_sqe)
            (ap
              (λ q. done (
                some (
                  ok (record { cqid = cqid; must_wait = false }),
                  (
                    record { ctx = record s.ctx { completions = cs; sq = q }; count = s.count + 1 },
                    kernels,
                  ),
                )))
              (write_at k p s (linked (func old) cqid) h)),
        law,
        cell,
      )

  -- Where the linked requests fill the room behind the pending ones and the kernel answers with an error other than EBUSY
  -- and EAGAIN, `submit_sqe` panics and does not return the error: the future of the request is dropped while the
  -- submitter holds the context.
  pub submit_sqe-panics :
      (k p fuel code : ℕ) (kernel : Kernel) (later : List Kernel)
      (func : SubmissionQueueEvent → SubmissionQueueEvent) (s : LinkedSubmitter F)
      → IsPending k p s.ctx.sq
      → p < 2 ^ k
      → p + s.count ≡ 2 ^ k
      → s.count ≢ queue_size s.ctx.sq
      → IsValid s.ctx.completions
      → HasRoom s.ctx.completions
      → (submit_and_wait kernel.enter s.ctx.sq 0).0 ≡ os_error code
      → retried code ≡ false
      → submit_sqe (suc fuel) (kernel ∷ later) func s ≡ panics
  unfolding submit_sqe free_sqe drop_future
  submit_sqe-panics k p fuel code kernel later func s pending less full few valid room e other =
      let (cqid, cs, made, law) = from_ctx_lem s.ctx valid room in
      let ctx0 = record s.ctx { completions = cs } in
      let few_false : (s.count == queue_size s.ctx.sq) ≡ false = ground (arith, few) in
      let (ring, is_ring) = sqes_lem k p s.ctx.sq pending less in
      let past = get_past (free_ring k p s.ctx.sq) s.count (omega arith) in
      let failed = submit_failed kernel later 0 code ctx0 e other in
      rw (made, few_false, ring, past, failed, submit_sqe, free_sqe) refl
