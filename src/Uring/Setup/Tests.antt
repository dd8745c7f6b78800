-- ===== src/Uring/Setup/Tests.antt =====
-- The theorems on the setup of a ring at a concrete kernel.
use hamerkop.Base.{ℕ, suc, ◌+◌, ◌*◌, ◌<◌, ◌≡◌, ◌≢◌, refl, List, [], ◌∷◌, All, some, arith}
use hamerkop.Uring.Submission.{ok, sysresult}
use hamerkop.Uring.System.{
  IoUringParams, Event, setup, mapped, Kernel, Mapping, mappings, IsMmap, last_stored,
}
use hamerkop.Uring.Setup.{
  IoUring, UringParams, sq_at, cq_at, sq_ring_sz, requested, write_array, with_params, open_ring,
  finish_ring, mmap_queues, mmap_cq_ring, mmap_sqes,
}
use hamerkop.Uring.Setup.Resources.{IsReleased, with_params-IsReleased}
use hamerkop.Uring.Setup.Layout.{Covers, with_params-last_stored}

-- an address above all those that are mapped
above : List Mapping → ℕ
above [] = 4096
above ((a, n) ∷ ms) = suc (a + n + above ms)

above-All : (k : ℕ) (ms : List Mapping) → above ms < suc k → All (λ m. m.0 ≢ suc k) ms
unfolding above
above-All k [] h = tt
above-All k ((a, n) ∷ ms) h = (λ e. omega arith, above-All k ms (omega arith))

-- a kernel with one shared ring of eight entries
abbrev offsets : IoUringParams → IoUringParams
offsets p = record p {
  sq_entries = 8;
  cq_entries = 16;
  features = 1;
  sq_off = record {
    head = 0;
    tail = 4;
    ring_mask = 8;
    ring_entries = 12;
    flags = 16;
    dropped = 20;
    array = 64;
  };
  cq_off = record {
    head = 24;
    tail = 28;
    ring_mask = 32;
    ring_entries = 36;
    overflow = 40;
    cqes = 128;
    flags = 0;
  };
}

abbrev kernel : Kernel
unfolding above
kernel = record {
  setup = λ t entries p. record { returned = 3; errno = 0 };
  written = λ t entries p. offsets p;
  mmap = λ t size fd offset. record { returned = suc (above (mappings t)); errno = 0 };
  load = λ t address. 7;
}

kernel-IsMmap : IsMmap kernel
unfolding kernel
kernel-IsMmap = record {
  fresh = λ t size fd offset. above-All (above (mappings t)) (mappings t) (omega arith);
  not_null = λ t size fd offset e. omega arith;
}

abbrev params : UringParams
params = record { flags = 0; cq_entries = 0; sq_thread_cpu = 0; sq_thread_idle = 0 }

with_params-IsReleased_example :
    IsReleased (offsets (requested params)) [] (with_params kernel 8 params [])
unfolding kernel
with_params-IsReleased_example = with_params-IsReleased kernel kernel-IsMmap 8 params []

abbrev given : IoUringParams
given = offsets (requested params)

-- the two mappings are made at 4097 and at 4097 + 384 + 4096 + 2
abbrev ring : IoUring
ring = record { sq = sq_at given 4097 8579; cq = cq_at given 4097; fd = 3; flags = 0 }

abbrev after : List Event
after =
    write_array (4097 + 64) 8
      (mapped 512 3 268435456 8579 ∷ mapped 384 3 0 4097 ∷ setup 8 (requested params) 3 ∷ [])

made : with_params kernel 8 params [] ≡ (ok ring, after)
unfolding with_params open_ring sysresult kernel finish_ring mmap_queues mappings mmap_cq_ring
    mmap_sqes sq_ring_sz sq_at
made = refl

with_params-last_stored_example :
    (last_stored (4097 + 64 + 3 * 4) after ≡ some 3) × Covers (4097 + 64 + 3 * 4) 4 (mappings after)
unfolding sq_at kernel
with_params-last_stored_example =
    with_params-last_stored kernel 8 params [] ring after 7 3 made (λ u. refl) (omega arith)
      (omega arith) (omega arith)
