-- ===== src/Executor/Runtime/Rounds.antt =====
-- hamerkop/src/executor/runtime.rs: the futures that a round of polls removes, against its decrements
-- of the gauge.
use hamerkop.Base.{
  ℕ, ◌+◌, ◌≡◌, refl, ap, inl, inr, Option, none, some, Option-cases, List, [], ◌∷◌, ◌++◌, ◌==◌,
  arith, Outcome, done, panics, undefined, ◌>>=◌,
}
use hamerkop.Slotmap.{StableSlotmap, get, get_mut, remove, len}
use hamerkop.Slotmap.Invariant.{IsValid}
use hamerkop.Slotmap.Laws.{remove_lem, weight_of}
use hamerkop.Slotmap.Iter.{get_mut_lem}
use hamerkop.Util.Dedup.{dedup_partial}
use hamerkop.Executor.{IoContext, process_cqes}
use hamerkop.Executor.Runtime.{
  Runtime, Polled, ready, pending, unwinds, Round, run_each, poll_queue,
}

module _ {F : Type 0} where
  -- Every decrement of the gauge is of a future that the loop removed.
  unfoldable pub RoundKeeps : ℕ → Round F → Type 0
  RoundKeeps n r = IsValid r.futures × (len r.futures + r.decrements ≡ n)

  polled_step :
      (poll_future : ℕ → F → IoContext F → Polled F) (id : ℕ) (ids : List ℕ)
      (futures : StableSlotmap F) (ctx : IoContext F) (future : F) (p : Polled F)
      → get futures id ≡ some future
      → poll_future id future ctx ≡ p
      → ((fs : StableSlotmap F) (c : IoContext F)
          → IsValid fs
          → RoundKeeps (len fs) (run_each poll_future ids fs c))
      → IsValid futures
      → RoundKeeps (len futures) (run_each poll_future (id ∷ ids) futures ctx)
  unfolding run_each RoundKeeps
  polled_step poll_future id ids futures ctx future (ready ctx1) h e ih valid =
      let (_, gone, _) = remove_lem futures id valid in
      let one : weight_of (get futures id) ≡ 1 = ap weight_of h in
      let rest = ih (remove futures id).1 ctx1 gone.valid in
      rw (h, e, run_each) (rest.0, omega (arith, rest.1, gone.counts, one))
  polled_step poll_future id ids futures ctx future (pending later ctx1) h e ih valid =
      let (_, _, same, still) = get_mut_lem futures id later valid in
      let rest = ih (get_mut futures id later).1 ctx1 still in
      rw (h, e, run_each) (rest.0, omega (arith, rest.1, same))
  polled_step poll_future id ids futures ctx future (unwinds ctx1) h e ih valid =
      let (_, gone, _) = remove_lem futures id valid in
      let one : weight_of (get futures id) ≡ 1 = ap weight_of h in
      rw (h, e, run_each) (gone.valid, omega (arith, gone.counts, one))

  run_each-RoundKeeps :
      (poll_future : ℕ → F → IoContext F → Polled F) (ids : List ℕ) (futures : StableSlotmap F)
      (ctx : IoContext F)
      → IsValid futures
      → RoundKeeps (len futures) (run_each poll_future ids futures ctx)
  unfolding run_each RoundKeeps
  run_each-RoundKeeps poll_future [] futures ctx valid = (valid, omega arith)
  run_each-RoundKeeps poll_future (id ∷ ids) futures ctx valid =
      elim (Option-cases (get futures id)) [
        | inl h ↦ rw (h, run_each) (run_each-RoundKeeps poll_future ids futures ctx valid)
        | inr (future, h) ↦
            polled_step poll_future id ids futures ctx future (poll_future id future ctx) h refl
              (λ fs c ok. run_each-RoundKeeps poll_future ids fs c ok) valid
      ]

  -- what a call that may panic or wait for ever leaves, when it ends
  unfoldable pub PollKeeps : ℕ → Outcome (Option (Round F)) → Type 0
  PollKeeps n (done (some r)) = RoundKeeps n r
  PollKeeps n ends = Unit {0}

  deduplicated :
      (poll_future : ℕ → F → IoContext F → Polled F) (futures : StableSlotmap F) (ctx : IoContext F)
      → IsValid futures
      → (r : Outcome (Option (List ℕ)))
      → PollKeeps (len futures) (
          r >>= λ d. elim d [
            | none ↦ done none
            | some queue ↦ done (some (run_each poll_future queue futures ctx))
          ])
  unfolding PollKeeps
  deduplicated poll_future futures ctx valid panics = tt
  deduplicated poll_future futures ctx valid undefined = tt
  deduplicated poll_future futures ctx valid (done none) = tt
  deduplicated poll_future futures ctx valid (done (some queue)) =
      run_each-RoundKeeps poll_future queue futures ctx valid

  processed :
      (finish : ℕ → ℕ → ℕ) (poll_future : ℕ → F → IoContext F → Polled F) (rt : Runtime F)
      → IsValid rt.futures
      → (r : Outcome (IoContext F × List ℕ))
      → PollKeeps (len rt.futures) (
          r >>= λ p. dedup_partial (λ a b. a == b) finish (rt.runqueue ++ p.1) >>= λ d. elim d [
            | none ↦ done none
            | some queue ↦ done (some (run_each poll_future queue rt.futures p.0))
          ])
  unfolding PollKeeps
  processed finish poll_future rt valid panics = tt
  processed finish poll_future rt valid undefined = tt
  processed finish poll_future rt valid (done (ctx, tasks)) =
      deduplicated poll_future rt.futures ctx valid
        (dedup_partial (λ a b. a == b) finish (rt.runqueue ++ tasks))

  pub poll_queue-PollKeeps :
      (finish : ℕ → ℕ → ℕ) (poll_future : ℕ → F → IoContext F → Polled F) (rt : Runtime F)
      → IsValid rt.futures
      → PollKeeps (len rt.futures) (poll_queue finish poll_future rt)
  unfolding poll_queue PollKeeps
  poll_queue-PollKeeps finish poll_future rt valid =
      processed finish poll_future rt valid (process_cqes rt.ctx)
