-- ===== src/Uring/Setup/Queues.antt =====
-- uring/src/lib.rs: the queues that a ring hands out. The words that a queue points to are read from
-- the memory `load`, and the entries are those of the mappings.
use mathlib.Core.Path.{subst}
use hamerkop.Base.{
  ℕ, ◌^◌, ◌≤◌, ◌<◌, ◌≡◌, refl, sym, ap, ◌∙◌, List, ◌∷◌, arith, Bool-cases, inl, inr, false, ◌==◌,
}
use hamerkop.Uring.Raw.{SubmissionQueueEvent}
use hamerkop.Uring.Submission.{
  SubmissionQueue, IoUringEnter, IoResult, ok, os_error, sysresult, contains, setup_sqpoll, advance,
  submit_and_wait,
}
use hamerkop.Uring.Submission.Submit.{advance-submit_and_wait, outcome, answer}
use hamerkop.Uring.Completion.{CompletionQueue, CompletionQueueEvent}
use hamerkop.Uring.Registrar.{Registrar}
use hamerkop.Uring.System.{
  IoUringParams, Event, mapped, setup, Kernel, map_failed, ioring_off_sq_ring, ioring_off_cq_ring,
  ioring_off_sqes,
}
use hamerkop.Uring.Setup.{
  IoUring, UringParams, Queues, single_mmap, sq_ring_sz, cq_ring_sz, sqes_sz, sq_at, mmap_sqes,
  mmap_cq_ring, mmap_queues, requested, finish_ring, open_ring, with_params,
}

abbrev pub Memory : Type 0
Memory = ℕ → ℕ

unfoldable pub sq : Memory → List SubmissionQueueEvent → IoUring → SubmissionQueue
sq load entries ring = record {
  khead = load ring.sq.khead;
  ktail = load ring.sq.ktail;
  kring_mask = load ring.sq.kring_mask;
  kring_entries = load ring.sq.kring_entries;
  kflags = load ring.sq.kflags;
  sqes_memory = entries;
  sqe_tail = ring.sq.sqe_tail;
  fd = ring.fd;
  flags = ring.flags;
}

unfoldable pub cq : Memory → List CompletionQueueEvent → IoUring → CompletionQueue
cq load completions ring = record {
  khead = load ring.cq.khead;
  ktail = load ring.cq.ktail;
  kring_mask = load ring.cq.kring_mask;
  cqes_memory = completions;
  fd = ring.fd;
}

unfoldable pub registrar : IoUring → Registrar
registrar ring = record { ringfd = ring.fd }

unfoldable pub split :
    Memory
    → List SubmissionQueueEvent
    → List CompletionQueueEvent
    → IoUring
    → SubmissionQueue × CompletionQueue × Registrar
split load entries completions ring =
    (sq load entries ring, cq load completions ring, registrar ring)

StartsEmpty : IoResult Queues × List Event → Type 0
StartsEmpty (os_error code, t) = Unit {0}
StartsEmpty (ok (sq, cq), t) = sq.sqe_tail ≡ 0

mmap_sqes-StartsEmpty :
    (kernel : Kernel) (fd : ℕ) (p : IoUringParams) (sq_ptr cq_ptr : ℕ) (t : List Event)
    → StartsEmpty (mmap_sqes kernel fd p sq_ptr cq_ptr t)
unfolding mmap_sqes StartsEmpty sq_at
mmap_sqes-StartsEmpty kernel fd p sq_ptr cq_ptr t =
    elim (Bool-cases ((kernel.mmap t (sqes_sz p) fd ioring_off_sqes).returned == map_failed)) [
      | inl e ↦ rw (mmap_sqes, e) tt
      | inr e ↦ rw (mmap_sqes, e) refl
    ]

mmap_cq_ring-StartsEmpty :
    (kernel : Kernel) (fd : ℕ) (p : IoUringParams) (sq_ptr : ℕ) (t : List Event)
    → StartsEmpty (mmap_cq_ring kernel fd p sq_ptr t)
unfolding mmap_cq_ring StartsEmpty
mmap_cq_ring-StartsEmpty kernel fd p sq_ptr t =
    let size = cq_ring_sz p in
    let r = (kernel.mmap t size fd ioring_off_cq_ring).returned in
    elim (Bool-cases (single_mmap p)) [
      | inl single ↦ rw (mmap_cq_ring, single) (mmap_sqes-StartsEmpty kernel fd p sq_ptr sq_ptr t)
      | inr double ↦ elim (Bool-cases (r == map_failed)) [
        | inl e ↦ rw (mmap_cq_ring, double, e) tt
        | inr e ↦
            rw (mmap_cq_ring, double, e)
              (mmap_sqes-StartsEmpty kernel fd p sq_ptr r (mapped size fd ioring_off_cq_ring r ∷ t))
      ]
    ]

mmap_queues-StartsEmpty :
    (kernel : Kernel) (fd : ℕ) (p : IoUringParams) (t : List Event)
    → StartsEmpty (mmap_queues kernel fd p t)
unfolding mmap_queues StartsEmpty
mmap_queues-StartsEmpty kernel fd p t =
    let size = sq_ring_sz p in
    let r = (kernel.mmap t size fd ioring_off_sq_ring).returned in
    elim (Bool-cases (r == map_failed)) [
      | inl e ↦ rw (mmap_queues, e) tt
      | inr e ↦
          rw (mmap_queues, e)
            (mmap_cq_ring-StartsEmpty kernel fd p r (mapped size fd ioring_off_sq_ring r ∷ t))
    ]

-- A ring has submitted nothing and has the flags that were asked for.
IsNew : ℕ → IoResult IoUring × List Event → Type 0
IsNew flags (os_error code, t) = Unit {0}
IsNew flags (ok ring, t) = (ring.sq.sqe_tail ≡ 0) × (ring.flags ≡ flags)

finish_ring-IsNew :
    (kernel : Kernel) (flags fd : ℕ) (r : IoResult Queues × List Event)
    → StartsEmpty r
    → IsNew flags (finish_ring kernel flags fd r)
unfolding finish_ring StartsEmpty IsNew
finish_ring-IsNew kernel flags fd (os_error code, t) h = tt
finish_ring-IsNew kernel flags fd (ok (sq, cq), t) h = (h, refl)

open_ring-IsNew :
    (kernel : Kernel) (flags : ℕ) (p : IoUringParams) (r : IoResult ℕ) (t : List Event)
    → IsNew flags (open_ring kernel flags p r t)
unfolding open_ring IsNew
open_ring-IsNew kernel flags p (os_error code) t = tt
open_ring-IsNew kernel flags p (ok fd) t =
    finish_ring-IsNew kernel flags fd (mmap_queues kernel fd p t)
      (mmap_queues-StartsEmpty kernel fd p t)

with_params-IsNew :
    (kernel : Kernel) (entries : ℕ) (params : UringParams) (t : List Event)
    → IsNew params.flags (with_params kernel entries params t)
unfolding with_params
with_params-IsNew kernel entries params t =
    let p = requested params in
    let s = kernel.setup t entries p in
    open_ring-IsNew kernel params.flags (kernel.written t entries p) (sysresult s.returned s.errno)
      (setup entries p s.returned ∷ t)

-- On a ring that `with_params` made without a polling thread and whose tail word is 0, the first
-- `submit_and_wait` behind `advance` by `n`, `1 ≤ n`, asks the kernel for exactly these `n` entries; if
-- the call succeeds, however many the kernel consumed, it returns `n` and remembers the tail, and if it fails it returns the error and
-- leaves them to be submitted.
with_params-submit_and_wait :
    (kernel : Kernel) (entries : ℕ) (params : UringParams) (t : List Event)
    → (ring : IoUring) (after : List Event) (load : Memory) (sqes : List SubmissionQueueEvent)
    → (io_uring_enter : IoUringEnter) (n wait_for : ℕ)
    → with_params kernel entries params t ≡ (ok ring, after)
    → contains params.flags setup_sqpoll ≡ false
    → load ring.sq.ktail ≡ 0
    → 1 ≤ n
    → n < 2 ^ 32
    → submit_and_wait io_uring_enter (advance (sq load sqes ring) n) wait_for
      ≡ outcome
          (advance (sq load sqes ring) n)
          n
          (answer io_uring_enter (advance (sq load sqes ring) n) n wait_for)
unfolding IsNew sq
with_params-submit_and_wait kernel entries params t ring after load sqes io_uring_enter n wait_for
      made plain empty some_new few =
    let fresh : IsNew params.flags (ok ring, after) =
      subst (λ r. IsNew params.flags r) made (with_params-IsNew kernel entries params t) in
    advance-submit_and_wait io_uring_enter (sq load sqes ring) n wait_for
      (ap (λ f. contains f setup_sqpoll) fresh.1 ∙ plain) (fresh.0 ∙ sym empty)
      (omega (arith, empty)) some_new few
