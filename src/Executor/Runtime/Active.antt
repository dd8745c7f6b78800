-- ===== src/Executor/Runtime/Active.antt =====
-- hamerkop/src/executor/runtime.rs: the gauge `ACTIVE_TASKS` against the futures that the runtime
-- holds.
use mathlib.Core.Path.{subst}
use hamerkop.Base.{
  ℕ, suc, ◌+◌, ◌*◌, ◌%◌, ◌^◌, ◌<◌, ◌≡◌, refl, sym, ap, ◌∙◌, inl, inr, Bool-cases, Option, none,
  some, List, [], ◌∷◌, ◌++◌, arith, length, usize_mod, Outcome, done, panics, undefined, ◌>>=◌,
}
use hamerkop.Slotmap.{StableSlotmap, len, slab_size}
use hamerkop.Slotmap.Invariant.{IsValid, HasRoom}
use hamerkop.Slotmap.Laws.{insert_lem, length-next_slot}
use hamerkop.Uring.Submission.{IoResult, ok, os_error}
use hamerkop.Executor.{IoContext}
use hamerkop.Executor.Submit.{Kernel, submit}
use hamerkop.Metrics.Gauge
use hamerkop.Executor.Runtime.{
  Runtime, Polled, Ended, failed, Round, set_up, poll_queue, gather, enter_kernel, turn, must_enter,
  wait_count, spawn_dyn,
}
use hamerkop.Executor.Runtime.Rounds.{RoundKeeps, PollKeeps, poll_queue-PollKeeps}

module _ {F : Type 0} where
  -- Inserting `n` values more does not exhaust the indices.
  abbrev pub HasRoomFor : ℕ → StableSlotmap F → Type 0
  HasRoomFor n m = (length m.slabs + n) * slab_size < usize_mod

  -- The gauge counts the futures that the runtime holds, less `spawned`, as an `i64`.
  pub record IsBalanced (spawned : ℕ) (rt : Runtime F) : Type 0 where
    pub valid : IsValid rt.futures
    pub gauge : (rt.active_tasks + spawned) % 2 ^ 64 ≡ len rt.futures % 2 ^ 64

  room_one : (n : ℕ) (m : StableSlotmap F) → HasRoomFor (suc n) m → HasRoom m
  room_one n m room full = omega (arith, room)

  SetUp : ℕ → Outcome (StableSlotmap F × List ℕ) → Type 0
  SetUp n r = (fs : StableSlotmap F) × (q : List ℕ) × (r ≡ done (fs, q)) × IsValid fs × (len fs ≡ n)

  set_up_lem :
      (created : List F) (futures : StableSlotmap F) (queue : List ℕ)
      → IsValid futures
      → HasRoomFor (length created) futures
      → SetUp (len futures + length created) (set_up created futures queue)
  unfolding SetUp set_up
  set_up_lem [] futures queue valid room = (futures, queue, refl, valid, omega arith)
  set_up_lem (f ∷ created) futures queue valid room =
      let (i, m, ends, put) = insert_lem futures f valid (room_one (length created) futures room) in
      let (fs, q, e, still, counted) =
        set_up_lem created m (queue ++ (i ∷ [])) put.valid
          (omega (arith, room, put.grows, length-next_slot futures)) in
      (fs, q, rw (set_up, ends) e, still, omega (arith, counted, put.counts))

  gather-IsBalanced :
      (spawned : ℕ) (rt : Runtime F)
      → IsBalanced spawned rt
      → HasRoomFor (length rt.ctx.created) rt.futures
      → (after : Runtime F) × (gather rt ≡ done after) × IsBalanced spawned after
  unfolding gather SetUp
  gather-IsBalanced spawned rt balanced room =
      let (fs, q, ends, valid, counted) =
        set_up_lem rt.ctx.created rt.futures rt.runqueue balanced.valid room in
      (
        record {
          futures = fs;
          ctx = record rt.ctx { created = []; woken = [] };
          runqueue = q ++ rt.ctx.woken;
          active_tasks = Gauge.add rt.active_tasks (length rt.ctx.created);
        },
        rw (ends, gather) refl,
        record { valid = valid; gauge = omega (arith, counted, balanced.gauge) },
      )

  -- The futures and the gauge of a runtime, which the kernel does not touch.
  EnterKeeps :
      Runtime F → Outcome (Option (IoResult (Unit {0}) × (Runtime F × List Kernel))) → Type 0
  EnterKeeps rt (done (some (r, (after, later)))) =
      (after.futures ≡ rt.futures) × (after.active_tasks ≡ rt.active_tasks)
  EnterKeeps rt ends = Unit {0}

  submitted :
      (rt : Runtime F)
      → (r : Outcome (Option (IoResult (Unit {0}) × (IoContext F × List Kernel))))
      → EnterKeeps rt (
          r >>= λ o. elim o [
            | none ↦ done none
            | some (os_error code, (ctx, later)) ↦
                done (some (os_error code, (record rt { ctx = ctx }, later)))
            | some (ok t, (ctx, later)) ↦
                done (some (ok t, (record rt { ctx = record ctx { queued = 0 } }, later)))
          ])
  unfolding EnterKeeps
  submitted rt panics = tt
  submitted rt undefined = tt
  submitted rt (done none) = tt
  submitted rt (done (some (os_error code, (ctx, later)))) = (refl, refl)
  submitted rt (done (some (ok t, (ctx, later)))) = (refl, refl)

  enter_kernel-EnterKeeps :
      (kernels : List Kernel) (rt : Runtime F) → EnterKeeps rt (enter_kernel kernels rt)
  unfolding enter_kernel EnterKeeps
  enter_kernel-EnterKeeps kernels rt = elim (Bool-cases (must_enter rt)) [
    | inl e ↦ rw (enter_kernel, e) (submitted rt (submit kernels (wait_count rt) rt.ctx))
    | inr e ↦ rw (enter_kernel, e) (refl, refl)
  ]

  -- what a turn leaves, when it ends
  pub KeepsBalance : ℕ → Outcome (Option (Ended × (Runtime F × List Kernel))) → Type 0
  KeepsBalance spawned (done (some (ended, (rt, later)))) = IsBalanced spawned rt
  KeepsBalance spawned ends = Unit {0}

  polled_turn :
      (spawned : ℕ) (rt : Runtime F) (later : List Kernel)
      → IsBalanced spawned rt
      → (r : Outcome (Option (Round F))) → PollKeeps (len rt.futures) r
      → KeepsBalance spawned (
          r >>= λ o. elim o [
            | none ↦ done none
            | some round ↦ done (
                some (
                  round.ended,
                  (
                    record {
                      futures = round.futures;
                      ctx = round.ctx;
                      runqueue = [];
                      active_tasks = Gauge.sub rt.active_tasks round.decrements;
                    },
                    later,
                  ),
                ))
          ])
  unfolding PollKeeps RoundKeeps KeepsBalance
  polled_turn spawned rt later balanced panics h = tt
  polled_turn spawned rt later balanced undefined h = tt
  polled_turn spawned rt later balanced (done none) h = tt
  polled_turn spawned rt later balanced (done (some round)) h = record {
    valid = h.0;
    gauge = omega (arith, h.1, balanced.gauge);
  }

  same_counts :
      (spawned : ℕ) (rt after : Runtime F)
      → IsBalanced spawned rt
      → after.futures ≡ rt.futures
      → after.active_tasks ≡ rt.active_tasks
      → IsBalanced spawned after
  same_counts spawned rt after balanced futures gauge = record {
    valid = subst (λ m. IsValid m) (sym futures) balanced.valid;
    gauge =
        ap (λ g. (g + spawned) % 2 ^ 64) gauge
        ∙ balanced.gauge
        ∙ ap (λ m. len m % 2 ^ 64) (sym futures);
  }

  entered_turn :
      (finish : ℕ → ℕ → ℕ) (poll_future : ℕ → F → IoContext F → Polled F) (spawned : ℕ)
      (rt : Runtime F)
      → IsBalanced spawned rt
      → (r : Outcome (Option (IoResult (Unit {0}) × (Runtime F × List Kernel)))) → EnterKeeps rt r
      → KeepsBalance spawned (
          r >>= λ entered. elim entered [
            | none ↦ done none
            | some (os_error code, s) ↦ done (some (failed code, s))
            | some (ok t, (rt1, later)) ↦ poll_queue finish poll_future rt1 >>= λ r. elim r [
              | none ↦ done none
              | some round ↦ done (
                  some (
                    round.ended,
                    (
                      record {
                        futures = round.futures;
                        ctx = round.ctx;
                        runqueue = [];
                        active_tasks = Gauge.sub rt1.active_tasks round.decrements;
                      },
                      later,
                    ),
                  ))
            ]
          ])
  unfolding EnterKeeps KeepsBalance
  entered_turn finish poll_future spawned rt balanced panics h = tt
  entered_turn finish poll_future spawned rt balanced undefined h = tt
  entered_turn finish poll_future spawned rt balanced (done none) h = tt
  entered_turn finish poll_future spawned rt balanced (done (some (os_error code, (rt1, later))))
        h =
      same_counts spawned rt rt1 balanced h.0 h.1
  entered_turn finish poll_future spawned rt balanced (done (some (ok t, (rt1, later)))) h =
      let kept = same_counts spawned rt rt1 balanced h.0 h.1 in
      polled_turn spawned rt1 later kept (poll_queue finish poll_future rt1)
        (poll_queue-PollKeeps finish poll_future rt1 kept.valid)

  -- While the indices of the map of futures suffice for those created: a turn that ends, by returning,
  -- by an error of the submission or by a panic of a future, keeps the gauge at the number of futures
  -- less `spawned`, modulo `2 ^ 64`: a future that was created is counted when it is taken in, and
  -- each one that ends is uncounted once.
  pub turn-KeepsBalance :
      (finish : ℕ → ℕ → ℕ) (poll_future : ℕ → F → IoContext F → Polled F) (kernels : List Kernel)
      (spawned : ℕ) (rt : Runtime F)
      → IsBalanced spawned rt
      → HasRoomFor (length rt.ctx.created) rt.futures
      → KeepsBalance spawned (turn finish poll_future kernels rt)
  unfolding turn KeepsBalance
  turn-KeepsBalance finish poll_future kernels spawned rt balanced room =
      let (ready_rt, gathered, kept) = gather-IsBalanced spawned rt balanced room in
      rw (turn, gathered)
        (entered_turn finish poll_future spawned ready_rt kept (enter_kernel kernels ready_rt)
          (enter_kernel-EnterKeeps kernels ready_rt))

  -- While the map of futures has room, a future given to the runtime by `spawn_dyn` itself, as `spawn`
  -- and `block_on` do, is not counted: the gauge falls short of the futures by one more than before.
  pub spawn_dyn-IsBalanced :
      (spawned : ℕ) (rt : Runtime F) (future : F)
      → IsBalanced spawned rt
      → HasRoom rt.futures
      → (id : ℕ) × (after : Runtime F) × (spawn_dyn rt future ≡ done (id, after))
        × IsBalanced (suc spawned) after
  unfolding spawn_dyn
  spawn_dyn-IsBalanced spawned rt future balanced room =
      let (i, m, ends, put) = insert_lem rt.futures future balanced.valid room in
      (
        i,
        record rt { futures = m; runqueue = rt.runqueue ++ (i ∷ []) },
        rw (ends, spawn_dyn) refl,
        record { valid = put.valid; gauge = omega (arith, put.counts, balanced.gauge) },
      )
