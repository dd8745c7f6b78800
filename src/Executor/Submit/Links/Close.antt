-- ===== src/Executor/Submit/Links/Close.antt =====
-- hamerkop/src/executor/handle.rs: `LinkedSubmitter::submit`, which ends the chain and gives it to the kernel.
use hamerkop.Base.{
  ℕ, ◌+◌, ◌-◌, ◌%◌, ◌^◌, ◌≤◌, ◌<◌, ◌≡◌, refl, ap, ◌∙◌, ◌≢◌, false, some, ◌==◌, done, arith,
  get_elem?, get_elem?-set_self, get_elem?-set_ne, length-set, set, usize_mod, u32_mod, bit_and,
}
use hamerkop.Base.Bits.{pow_two_pos}
use hamerkop.Uring.Raw.{SubmissionQueueEvent, set_flags}
use hamerkop.Uring.RingBuf.Window.{narrow_pow, masked, get_lem}
use hamerkop.Uring.Submission.{advance}
use hamerkop.Uring.Submission.Submit.{IsPending, free_ring, sqes_lem, advance-IsPending}
use hamerkop.Executor.{IoContext}
use hamerkop.Executor.Submit.{io_link, all_flags, write_sqe}
use hamerkop.Executor.Submit.Links.{LinkedSubmitter, submit_links}

-- the entry without the link flag and the bits that are no flag
abbrev pub unlinked : SubmissionQueueEvent → SubmissionQueueEvent
unlinked sqe = set_flags sqe (bit_and sqe.flags (all_flags - io_link))

module _ {F : Type 0} where
  -- the place of the last linked entry
  abbrev pub last_slot : ℕ → LinkedSubmitter F → ℕ
  last_slot k s = (s.ctx.sq.ktail + (s.count - 1)) % 2 ^ k

  -- With at least one linked request and the requests within the free entries, `submit` clears the link flag of the last
  -- one, and the two bits that are no flag, leaves every other cell of the ring and the rest of the context, and makes as many entries pending as were linked.
  pub submit_links_lem :
      (k p : ℕ) (s : LinkedSubmitter F)
      → IsPending k p s.ctx.sq
      → s.ctx.sq.ktail < 2 ^ 32
      → 0 < s.count
      → p + s.count ≤ 2 ^ k
      → (after : IoContext F) × (last : SubmissionQueueEvent) × (submit_links s ≡ done after)
        × IsPending k (p + s.count) after.sq
        × (get_elem? s.ctx.sq.sqes_memory (last_slot k s) ≡ some last)
        × (get_elem? after.sq.sqes_memory (last_slot k s) ≡ some (unlinked last))
        × ((i : ℕ)
            → last_slot k s ≢ i
            → get_elem? after.sq.sqes_memory i ≡ get_elem? s.ctx.sq.sqes_memory i)
        × (after.queued ≡ s.ctx.queued + s.count)
        × (after ≡ record s.ctx { sq = after.sq; queued = after.queued })
  unfolding submit_links advance
  submit_links_lem k p s pending low some_linked room =
      let q = s.ctx.sq in
      let small = narrow_pow k pending.narrow in
      let (ring, is_ring) = sqes_lem k p q pending (omega arith) in
      let (last, got, cell) = get_lem k (free_ring k p q) (s.count - 1) is_ring low (omega arith) in
      let at : bit_and ((q.ktail + (s.count - 1)) % usize_mod) q.kring_mask ≡ last_slot k s =
        masked k (free_ring k p q) ((q.ktail + (s.count - 1)) % usize_mod) is_ring
        ∙ ap (λ n. n % 2 ^ k) {x = (q.ktail + (s.count - 1)) % usize_mod}
            {y = q.ktail + (s.count - 1)} (omega (arith, small)) in
      let none_false : (s.count == 0) ≡ false = ground (arith, some_linked) in
      let narrow : (s.count % u32_mod) ≡ s.count = omega (arith, small) in
      let index = bit_and ((q.ktail + (s.count - 1)) % usize_mod) q.kring_mask in
      let written = write_sqe (free_ring k p q) (s.count - 1) (unlinked last) q in
      let still : IsPending k p written = record {
        narrow = pending.narrow;
        mask_is = pending.mask_is;
        cells_are = length-set q.sqes_memory index (unlinked last) ∙ pending.cells_are;
        tail_is = pending.tail_is;
      } in
      (
        record s.ctx { sq = advance written s.count; queued = s.ctx.queued + s.count },
        last,
        rw (none_false, ring, got, narrow, submit_links) refl,
        advance-IsPending k p s.count written still,
        cell,
        ap (λ n. get_elem? (set q.sqes_memory n (unlinked last)) (last_slot k s)) at
            ∙ get_elem?-set_self q.sqes_memory (last_slot k s) (unlinked last)
                (omega (arith, pending.cells_are, pow_two_pos k)),
        (λ i other.
            ap (λ n. get_elem? (set q.sqes_memory n (unlinked last)) i) at
            ∙ get_elem?-set_ne q.sqes_memory (last_slot k s) i (unlinked last) other),
        refl,
        refl,
      )
