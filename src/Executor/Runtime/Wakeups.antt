-- ===== src/Executor/Runtime/Wakeups.antt =====
-- hamerkop/src/executor/runtime.rs: no task that is in the run queue or whose event has come is left out of a turn.
use hamerkop.Base.{ℕ, ◌≡◌, refl, some, List, ◌++◌, ◌==◌, done, ==_iff}
use hamerkop.Slotmap.{get}
use hamerkop.Slotmap.Invariant.{IsValid}
use hamerkop.Util.Dedup.Elements.{Has}
use hamerkop.Util.Dedup.Keeps.{dedup_partial-Apart}
use hamerkop.Executor.{IoContext, process_cqes}
use hamerkop.Executor.Runtime.{Runtime, Polled, turned, Round, run_each, poll_queue}
use hamerkop.Executor.Runtime.Polling.{Calm, RunsAll, run_each_lem}

module _ {F : Type 0} where
  -- Where no future panics and the futures are a valid map, a task that is in the run queue, or that the events of the
  -- kernel wake, is polled in that turn if its future is there: the queue is deduplicated but no task is lost, the
  -- turn ends, and the futures are a valid map after it.
  pub poll_queue_lem :
      (finish : ℕ → ℕ → ℕ) (poll_future : ℕ → F → IoContext F → Polled F) (rt : Runtime F)
      (after : IoContext F) (tasks : List ℕ) (id : ℕ) (future : F)
      → Calm poll_future
      → IsValid rt.futures
      → process_cqes rt.ctx ≡ done (after, tasks)
      → Has id (rt.runqueue ++ tasks)
      → get rt.futures id ≡ some future
      → (round : Round F) × (poll_queue finish poll_future rt ≡ done (some round))
        × (round.ended ≡ turned)
        × IsValid round.futures
        × Has id round.polled
  unfolding poll_queue RunsAll
  poll_queue_lem finish poll_future rt after tasks id future calm valid events queued there =
      let (kept, ends, _, same) =
        dedup_partial-Apart (λ a b. a == b) finish ==_iff (rt.runqueue ++ tasks) in
      let (ended, still, polls) = run_each_lem poll_future kept rt.futures after calm valid in
      (
        run_each poll_future kept rt.futures after,
        rw (events, ends, poll_queue) refl,
        ended,
        still,
        polls id ((same id).1 queued) (rw (there) refl),
      )
