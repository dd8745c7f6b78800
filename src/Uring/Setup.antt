-- ===== src/Uring/Setup.antt =====
-- uring/src/detail.rs and uring/src/lib.rs: a ring from `io_uring_setup` to its drop. Pointers are
-- addresses on a machine of 64 bits.
pub mod Accounts
pub mod Resources
pub mod Layout
pub mod Queues
mod Tests
use hamerkop.Base.{
  ℕ, zero, suc, ◌+◌, ◌*◌, Bool, true, false, ◌&&◌, not, max, List, [], ◌∷◌, if◌then◌else◌, ◌==◌,
  add32,
}
use hamerkop.Uring.Submission.{IoResult, ok, os_error, sysresult, contains}
use hamerkop.Uring.System.{
  IoUringParams, IoSqringOffsets, IoCqringOffsets, Event, setup, mapped, unmapped, closed, stored,
  Kernel, Answer, map_failed, ioring_off_sq_ring, ioring_off_cq_ring, ioring_off_sqes,
}

-- the queue as it lies in the mapping: where its words are
pub record IoUringSq : Type 0 where
  pub khead : ℕ
  pub ktail : ℕ
  pub kring_mask : ℕ
  pub kring_entries : ℕ
  pub kflags : ℕ
  pub kdropped : ℕ
  pub array : ℕ
  pub sqes : ℕ
  pub sqe_head : ℕ
  pub sqe_tail : ℕ
  pub ring_sz : ℕ
  pub ring_ptr : ℕ

pub record IoUringCq : Type 0 where
  pub khead : ℕ
  pub ktail : ℕ
  pub kring_mask : ℕ
  pub kring_entries : ℕ
  pub kflags : ℕ
  pub koverflow : ℕ
  pub cqes : ℕ
  pub ring_sz : ℕ
  pub ring_ptr : ℕ

abbrev pub feat_single_mmap : ℕ
feat_single_mmap = 1

abbrev pub single_mmap : IoUringParams → Bool
single_mmap p = contains p.features feat_single_mmap

abbrev pub raw_offset : ℕ → ℕ → ℕ
raw_offset ptr off = ptr + off

-- `size_of` of a `u32`, an `io_uring_cqe` and an `io_uring_sqe`
abbrev pub u32_size : ℕ
u32_size = 4

abbrev pub cqe_size : ℕ
cqe_size = 16

abbrev pub sqe_size : ℕ
sqe_size = 64

abbrev pub sq_need : IoUringParams → ℕ
sq_need p = p.sq_off.array + p.sq_entries * u32_size

abbrev pub cq_need : IoUringParams → ℕ
cq_need p = p.cq_off.cqes + p.cq_entries * cqe_size

unfoldable pub sq_ring_sz : IoUringParams → ℕ
sq_ring_sz p = if single_mmap p then max (sq_need p) (cq_need p) else sq_need p

unfoldable pub cq_ring_sz : IoUringParams → ℕ
cq_ring_sz p = if single_mmap p then max (sq_ring_sz p) (cq_need p) else cq_need p

abbrev pub sqes_sz : IoUringParams → ℕ
sqes_sz p = p.sq_entries * sqe_size

unfoldable pub cq_at : IoUringParams → ℕ → IoUringCq
cq_at p ptr = record {
  khead = raw_offset ptr p.cq_off.head;
  ktail = raw_offset ptr p.cq_off.tail;
  kring_mask = raw_offset ptr p.cq_off.ring_mask;
  kring_entries = raw_offset ptr p.cq_off.ring_entries;
  kflags = if p.cq_off.flags == 0 then 0 else raw_offset ptr p.cq_off.flags;
  koverflow = raw_offset ptr p.cq_off.overflow;
  cqes = raw_offset ptr p.cq_off.cqes;
  ring_sz = cq_ring_sz p;
  ring_ptr = ptr;
}

unfoldable pub sq_at : IoUringParams → ℕ → ℕ → IoUringSq
sq_at p ptr sqes = record {
  khead = raw_offset ptr p.sq_off.head;
  ktail = raw_offset ptr p.sq_off.tail;
  kring_mask = raw_offset ptr p.sq_off.ring_mask;
  kring_entries = raw_offset ptr p.sq_off.ring_entries;
  kflags = raw_offset ptr p.sq_off.flags;
  kdropped = raw_offset ptr p.sq_off.dropped;
  array = raw_offset ptr p.sq_off.array;
  sqes = sqes;
  sqe_head = 0;
  sqe_tail = 0;
  ring_sz = sq_ring_sz p;
  ring_ptr = ptr;
}

abbrev pub Queues : Type 0
Queues = IoUringSq × IoUringCq

-- The entries are mapped last; a failure undoes the rings.
unfoldable pub mmap_sqes :
    Kernel → ℕ → IoUringParams → ℕ → ℕ → List Event → IoResult Queues × List Event
mmap_sqes kernel fd p sq_ring_ptr cq_ring_ptr t =
    let m = kernel.mmap t (sqes_sz p) fd ioring_off_sqes in
    let t1 = mapped (sqes_sz p) fd ioring_off_sqes m.returned ∷ t in
    if m.returned == map_failed
    then (
      os_error m.errno,
      unmapped cq_ring_ptr (cq_ring_sz p) ∷ unmapped sq_ring_ptr (sq_ring_sz p) ∷ t1,
    )
    else (ok (sq_at p sq_ring_ptr m.returned, cq_at p cq_ring_ptr), t1)

-- the completion ring: the submission ring's mapping, or one of its own
unfoldable pub mmap_cq_ring :
    Kernel → ℕ → IoUringParams → ℕ → List Event → IoResult Queues × List Event
mmap_cq_ring kernel fd p sq_ring_ptr t =
    if single_mmap p
    then mmap_sqes kernel fd p sq_ring_ptr sq_ring_ptr t
    else (let m = kernel.mmap t (cq_ring_sz p) fd ioring_off_cq_ring in
        let t1 = mapped (cq_ring_sz p) fd ioring_off_cq_ring m.returned ∷ t in
        if m.returned == map_failed
        then (os_error m.errno, unmapped sq_ring_ptr (sq_ring_sz p) ∷ t1)
        else mmap_sqes kernel fd p sq_ring_ptr m.returned t1)

unfoldable pub mmap_queues : Kernel → ℕ → IoUringParams → List Event → IoResult Queues × List Event
mmap_queues kernel fd p t =
    let m = kernel.mmap t (sq_ring_sz p) fd ioring_off_sq_ring in
    let t1 = mapped (sq_ring_sz p) fd ioring_off_sq_ring m.returned ∷ t in
    if m.returned == map_failed
    then (os_error m.errno, t1)
    else mmap_cq_ring kernel fd p m.returned t1

unfoldable pub unmap_queues : IoUringSq → IoUringCq → List Event → List Event
unmap_queues sq cq t =
    let t1 = unmapped sq.ring_ptr sq.ring_sz ∷ t in
    if not (cq.ring_ptr == 0) && not (cq.ring_ptr == sq.ring_ptr)
    then unmapped cq.ring_ptr cq.ring_sz ∷ t1
    else t1

pub record UringParams : Type 0 where
  pub flags : ℕ
  pub cq_entries : ℕ
  pub sq_thread_cpu : ℕ
  pub sq_thread_idle : ℕ

pub record IoUring : Type 0 where
  pub sq : IoUringSq
  pub cq : IoUringCq
  pub fd : ℕ
  pub flags : ℕ

abbrev zeroed_sq_off : IoSqringOffsets
zeroed_sq_off = record {
  head = 0;
  tail = 0;
  ring_mask = 0;
  ring_entries = 0;
  flags = 0;
  dropped = 0;
  array = 0;
}

abbrev zeroed_cq_off : IoCqringOffsets
zeroed_cq_off = record {
  head = 0;
  tail = 0;
  ring_mask = 0;
  ring_entries = 0;
  overflow = 0;
  cqes = 0;
  flags = 0;
}

-- the parameters that are handed to the kernel, zeroed where the caller sets nothing
unfoldable pub requested : UringParams → IoUringParams
requested params = record {
  sq_entries = 0;
  cq_entries = params.cq_entries;
  flags = params.flags;
  sq_thread_cpu = params.sq_thread_cpu;
  sq_thread_idle = params.sq_thread_idle;
  features = 0;
  wq_fd = 0;
  sq_off = zeroed_sq_off;
  cq_off = zeroed_cq_off;
}

-- `for i in 0..count`: the indirection array is the identity
unfoldable pub write_array : ℕ → ℕ → List Event → List Event
write_array array zero t = t
write_array array (suc n) t = stored (array + n * u32_size) n ∷ write_array array n t

-- what follows `mmap_queues`: the `close` of a failure, or the array and the ring
unfoldable pub finish_ring :
    Kernel → ℕ → ℕ → IoResult Queues × List Event → IoResult IoUring × List Event
finish_ring kernel flags fd (os_error code, t) = (os_error code, closed fd ∷ t)
finish_ring kernel flags fd (ok (sq, cq), t) = (
  ok (record { sq = sq; cq = cq; fd = fd; flags = flags }),
  write_array sq.array (add32 (kernel.load t sq.kring_mask) 1) t,
)

-- what follows `io_uring_setup`
unfoldable pub open_ring :
    Kernel → ℕ → IoUringParams → IoResult ℕ → List Event → IoResult IoUring × List Event
open_ring kernel flags p (os_error code) t = (os_error code, t)
open_ring kernel flags p (ok fd) t = finish_ring kernel flags fd (mmap_queues kernel fd p t)

unfoldable pub with_params : Kernel → ℕ → UringParams → List Event → IoResult IoUring × List Event
with_params kernel entries params t =
    let p = requested params in
    let s = kernel.setup t entries p in
    open_ring kernel params.flags (kernel.written t entries p) (sysresult s.returned s.errno)
      (setup entries p s.returned ∷ t)

unfoldable pub with_flags : Kernel → ℕ → ℕ → List Event → IoResult IoUring × List Event
with_flags kernel entries flags t =
    with_params kernel entries
      (record { flags = flags; cq_entries = 0; sq_thread_cpu = 0; sq_thread_idle = 0 }) t

-- `SetupFlags::empty()`
unfoldable pub new : Kernel → ℕ → List Event → IoResult IoUring × List Event
new kernel entries t = with_flags kernel entries 0 t

unfoldable pub drop : IoUring → List Event → List Event
drop ring t = closed ring.fd ∷ unmap_queues ring.sq ring.cq t
