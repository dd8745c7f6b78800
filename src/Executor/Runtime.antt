-- ===== src/Executor/Runtime.antt =====
-- hamerkop/src/executor/runtime.rs: the run queue and one turn of the event loop. What polling a future does is a
-- parameter: the future after it, and the context. The hash of `dedup_partial` is a parameter too. The gauge
-- `ACTIVE_TASKS` is that of the one runtime there is, an `i64` by its bit pattern; the sketches are left out.
pub mod Polling
pub mod Wakeups
mod Rounds
pub mod Active
mod Tests
use hamerkop.Base.{
  ℕ, zero, suc, ◌+◌, ◌-◌, ◌%◌, ◌^◌, Bool, true, false, ◌&&◌, ◌||◌, Option, none, some, List, [],
  ◌∷◌, ◌++◌, ◌==◌, if◌then◌else◌, length, Outcome, done, panics, ◌>>=◌, ◌>>◌, assert, not,
}
use hamerkop.Slotmap.{StableSlotmap, get, get_mut, insert, remove, new, is_empty, len}
use hamerkop.Util.Dedup.{dedup_partial}
use hamerkop.Uring.Submission.{SubmissionQueue, IoResult, ok, os_error}
use hamerkop.Uring.Completion.{CompletionQueue, has_next}
use hamerkop.Executor.{IoContext, has_queued, process_cqes}
use hamerkop.Executor.Submit.{Kernel, submit}
use hamerkop.Metrics.Gauge

pub record Runtime (F : Type 0) : Type 0 where
  pub futures : StableSlotmap F
  pub ctx : IoContext F
  pub runqueue : List ℕ
  pub active_tasks : ℕ

pub data Polled (F : Type 0) : Type 0 where
  ready : IoContext F → Polled F
  pending : F → IoContext F → Polled F
  unwinds : IoContext F → Polled F

-- how a turn ends: it returns, or the panic of a future goes on
pub data Ended : Type 0 where
  turned : Ended
  failed : ℕ → Ended
  unwound : Ended

-- what polling the queue leaves, with the futures that were polled, in order, and how often the gauge
-- was decremented
pub record Round (F : Type 0) : Type 0 where
  pub futures : StableSlotmap F
  pub ctx : IoContext F
  pub polled : List ℕ
  pub decrements : ℕ
  pub ended : Ended

abbrev pub no_items : List ℕ → Bool
no_items [] = true
no_items (id ∷ ids) = false

module _ {F : Type 0} where
  unfoldable pub new_runtime : SubmissionQueue → CompletionQueue → ℕ → Outcome (Runtime F)
  new_runtime sq cq bufsize =
      assert (not (bufsize == 0))
      >> done (record {
        futures = new;
        ctx = record {
          sq = sq;
          cq = cq;
          created = [];
          completions = new;
          woken = [];
          buffers = new;
          bufsize = bufsize;
          queued = 0;
        };
        runqueue = [];
        active_tasks = 0;
      })

  unfoldable pub spawn_dyn : Runtime F → F → Outcome (ℕ × Runtime F)
  spawn_dyn rt future = insert rt.futures future >>= λ r.
      done (r.0, record rt { futures = r.1; runqueue = rt.runqueue ++ (r.0 ∷ []) })

  -- `Drop for Runtime`: the gauge behind it
  unfoldable pub drop_runtime : Runtime F → ℕ
  drop_runtime rt = Gauge.sub rt.active_tasks (len rt.futures)

  unfoldable pub runtime_is_empty : Runtime F → Bool
  runtime_is_empty rt = is_empty rt.futures && (elim rt.ctx.created [ [] ↦ true | f ∷ fs ↦ false ])

  -- the loop over the futures that were created
  unfoldable pub set_up : List F → StableSlotmap F → List ℕ → Outcome (StableSlotmap F × List ℕ)
  set_up [] futures runqueue = done (futures, runqueue)
  set_up (f ∷ created) futures runqueue =
      insert futures f >>= λ r. set_up created r.1 (runqueue ++ (r.0 ∷ []))

  -- the loop over the run queue, which a panic empties
  unfoldable pub run_each :
      (ℕ → F → IoContext F → Polled F) → List ℕ → StableSlotmap F → IoContext F → Round F
  run_each poll_future [] futures ctx = record {
    futures = futures;
    ctx = ctx;
    polled = [];
    decrements = 0;
    ended = turned;
  }
  run_each poll_future (id ∷ ids) futures ctx = elim (get futures id) [
    | none ↦ run_each poll_future ids futures ctx
    | some future ↦ elim (poll_future id future ctx) [
      | ready ctx1 ↦
          let rest = run_each poll_future ids (remove futures id).1 ctx1 in
          record rest { polled = id ∷ rest.polled; decrements = suc rest.decrements }
      | pending later ctx1 ↦
          let rest = run_each poll_future ids (get_mut futures id later).1 ctx1 in
          record rest { polled = id ∷ rest.polled }
      | unwinds ctx1 ↦ record {
        futures = (remove futures id).1;
        ctx = ctx1;
        polled = id ∷ [];
        decrements = 1;
        ended = unwound;
      }
    ]
  ]

  -- the run queue after `process_cqes`, deduplicated and polled
  unfoldable pub poll_queue :
      (ℕ → ℕ → ℕ) → (ℕ → F → IoContext F → Polled F) → Runtime F → Outcome (Option (Round F))
  poll_queue finish poll_future rt = process_cqes rt.ctx >>= λ p.
      dedup_partial (λ a b. a == b) finish (rt.runqueue ++ p.1) >>= λ d. elim d [
        | none ↦ done none
        | some queue ↦ done (some (run_each poll_future queue rt.futures p.0))
      ]

  abbrev pub must_enter : Runtime F → Bool
  must_enter rt = has_queued rt.ctx || (no_items rt.runqueue && not (has_next rt.ctx.cq))

  abbrev pub wait_count : Runtime F → ℕ
  wait_count rt = if has_next rt.ctx.cq || not (no_items rt.runqueue) then 0 else 1

  -- the first part of a turn: the futures that were created, and the tasks that were woken
  unfoldable pub gather : Runtime F → Outcome (Runtime F)
  gather rt = set_up rt.ctx.created rt.futures rt.runqueue >>= λ s. done (record {
    futures = s.0;
    ctx = record rt.ctx { created = []; woken = [] };
    runqueue = s.1 ++ rt.ctx.woken;
    active_tasks = Gauge.add rt.active_tasks (length rt.ctx.created);
  })

  -- the submission of a turn, and `queued` reset behind it
  unfoldable pub enter_kernel :
      List Kernel → Runtime F → Outcome (Option (IoResult (Unit {0}) × (Runtime F × List Kernel)))
  enter_kernel kernels rt =
      if must_enter rt
      then (submit kernels (wait_count rt) rt.ctx >>= λ r. elim r [
        | none ↦ done none
        | some (os_error code, (ctx, later)) ↦
            done (some (os_error code, (record rt { ctx = ctx }, later)))
        | some (ok t, (ctx, later)) ↦
            done (some (ok t, (record rt { ctx = record ctx { queued = 0 } }, later)))
      ])
      else done (some (ok tt, (record rt { ctx = record rt.ctx { queued = 0 } }, kernels)))

  unfoldable pub turn :
      (ℕ → ℕ → ℕ)
      → (ℕ → F → IoContext F → Polled F)
      → List Kernel
      → Runtime F
      → Outcome (Option (Ended × (Runtime F × List Kernel)))
  turn finish poll_future kernels rt = gather rt >>= λ ready_rt.
      enter_kernel kernels ready_rt >>= λ entered. elim entered [
        | none ↦ done none
        | some (os_error code, s) ↦ done (some (failed code, s))
        | some (ok t, (rt1, later)) ↦ poll_queue finish poll_future rt1 >>= λ r. elim r [
          | none ↦ done none
          | some round ↦ done (
              some (
                round.ended,
                (
                  record {
                    futures = round.futures;
                    ctx = round.ctx;
                    runqueue = [];
                    active_tasks = Gauge.sub rt1.active_tasks round.decrements;
                  },
                  later,
                ),
              ))
        ]
      ]

  -- `run` on fuel
  unfoldable pub run :
      ℕ
      → (ℕ → ℕ → ℕ)
      → (ℕ → F → IoContext F → Polled F)
      → List Kernel
      → Runtime F
      → Outcome (Option (Ended × (Runtime F × List Kernel)))
  run zero finish poll_future kernels rt = done none
  run (suc fuel) finish poll_future kernels rt =
      if runtime_is_empty rt
      then done (some (turned, (rt, kernels)))
      else (turn finish poll_future kernels rt >>= λ r. elim r [
        | none ↦ done none
        | some (failed code, s) ↦ done (some (failed code, s))
        | some (unwound, s) ↦ done (some (unwound, s))
        | some (turned, (rt1, later)) ↦ run fuel finish poll_future later rt1
      ])
