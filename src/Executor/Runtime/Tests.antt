-- ===== src/Executor/Runtime/Tests.antt =====
-- The theorems on the gauge of tasks at a concrete run time.
use hamerkop.Base.{ℕ, ◌+◌, ◌≡◌, refl, [], ◌∷◌, done, arith}
use hamerkop.Slotmap.{new, len}
use hamerkop.Slotmap.Invariant.{HasRoom}
use hamerkop.Slotmap.Iter.{new-IsValid}
use hamerkop.Uring.Raw.{zeroed}
use hamerkop.Executor.{IoContext}
use hamerkop.Executor.Runtime.{Runtime, Polled, ready, turn, spawn_dyn}
use hamerkop.Executor.Runtime.Active.{
  IsBalanced, HasRoomFor, KeepsBalance, turn-KeepsBalance, spawn_dyn-IsBalanced,
}

-- one future has been created, and none is held
abbrev idle : Runtime ℕ
idle = record {
  futures = new;
  ctx = record {
    sq = record {
      khead = 0;
      ktail = 0;
      kring_mask = 1;
      kring_entries = 2;
      kflags = 0;
      sqes_memory = zeroed ∷ zeroed ∷ [];
      sqe_tail = 0;
      fd = 3;
      flags = 0;
    };
    cq = record {
      khead = 0;
      ktail = 0;
      kring_mask = 0;
      cqes_memory = record { user_data = 0; res = 0; flags = 0 } ∷ [];
      fd = 3;
    };
    created = 9 ∷ [];
    completions = new;
    woken = [];
    buffers = new;
    bufsize = 16;
    queued = 0;
  };
  runqueue = [];
  active_tasks = 0;
}

idle-IsBalanced : IsBalanced 0 idle
unfolding new len
idle-IsBalanced = record { valid = new-IsValid; gauge = refl }

idle-HasRoomFor : HasRoomFor 1 (new {A = ℕ})
unfolding new
idle-HasRoomFor = omega arith

idle-HasRoom : HasRoom (new {A = ℕ})
unfolding new
idle-HasRoom = λ h. omega arith

abbrev at_once : ℕ → ℕ → IoContext ℕ → Polled ℕ
at_once id future ctx = ready ctx

turn-KeepsBalance_example : KeepsBalance 0 (turn (λ seed v. seed + v) at_once [] idle)
turn-KeepsBalance_example =
    turn-KeepsBalance (λ seed v. seed + v) at_once [] 0 idle idle-IsBalanced idle-HasRoomFor

spawn_dyn-IsBalanced_example :
    (id : ℕ) × (after : Runtime ℕ) × (spawn_dyn idle 7 ≡ done (id, after)) × IsBalanced 1 after
spawn_dyn-IsBalanced_example = spawn_dyn-IsBalanced 0 idle 7 idle-IsBalanced idle-HasRoom
